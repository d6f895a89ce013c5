-- ===== src/Scenarios/Refusals.antt =====
-- A datagram and a segment that are refused.
use colony_firewall_control.Prelude.{
  ℕ, ◌+◌, ◌*◌, ◌-◌, ◌/◌, ◌≤◌, ◌≡◌, refl, Bool, true, false, some, [], ◌∷◌, ok, arith,
}
use colony_firewall_control.Connection
use colony_firewall_control.Connection.{Connection, outbound, inbound, v4, IpAddr, udp, other}
use colony_firewall_control.Packet.{Bytes, parse, parse_ipv4, index, slice_from, finalize, ports}
use colony_firewall_control.Reject.{Rejecter, reject}
use colony_firewall_control.Reject.Bucket
use colony_firewall_control.Reject.Bucket.{
  token, Arithmetic, inbound_rejects_per_sec, inbound_reject_burst,
}
use colony_firewall_control.Reject.Bucket.Bound.{
  attempts, nanos, precision, IsAccurate, new-attempts_le,
}
use colony_firewall_control.Reject.Checksum.Laws.{IsBytes}
use colony_firewall_control.Reject.Offset.{l4_offset}
use colony_firewall_control.Reject.Offset.Agrees.{ReadsAt, parse-l4_offset}
use colony_firewall_control.Reject.Forge.Quoted.{IsAddress}
use colony_firewall_control.Reject.Sends.{Refuses, reject-Refuses}
use colony_firewall_control.Scenarios.Packets.{stamp}

-- A machine that rounds down.
abbrev pub exact : Arithmetic
exact tokens elapsed per_sec = tokens + elapsed * (per_sec * token) / nanos

rounds_down :
    (tokens gained : ℕ)
    → (tokens + gained / nanos) * nanos * precision ≤ (tokens * nanos + gained) * (precision + 1)
rounds_down tokens gained = omega arith

exact-IsAccurate : IsAccurate exact
exact-IsAccurate tokens elapsed per_sec = rounds_down tokens (elapsed * (per_sec * token))

new-attempts_le_example :
    let (b, granted) =
      attempts (Bucket.new exact 5 inbound_rejects_per_sec inbound_reject_burst) (5 ∷ 7 ∷ []) in
    granted * (nanos * precision)
    ≤ inbound_reject_burst * nanos * (precision + 2)
      + (b.last - 5) * inbound_rejects_per_sec * (precision + 1)
new-attempts_le_example =
    new-attempts_le exact 5 inbound_rejects_per_sec inbound_reject_burst (5 ∷ 7 ∷ [])
      exact-IsAccurate (omega arith, (omega arith, tt))

-- Eight bytes of UDP over IPv4, from 10.0.0.1:1024 to 10.0.0.2:53.
abbrev pub datagram : Bytes
datagram =
    0x45 ∷ 0 ∷ 0 ∷ 28 ∷ 0 ∷ 0 ∷ 0 ∷ 0 ∷ 64 ∷ 17 ∷ 0 ∷ 0 ∷ 10 ∷ 0 ∷ 0 ∷ 1 ∷ 10 ∷ 0 ∷ 0 ∷ 2 ∷ 4 ∷ 0
    ∷ 0 ∷ 53 ∷ 0 ∷ 8 ∷ 0 ∷ 0 ∷ []

abbrev pub query : Connection
query = Connection.new stamp udp outbound (v4 10 0 0 1) 1024 (v4 10 0 0 2) 53

pub datagram_parses : parse stamp datagram outbound ≡ ok query
unfolding parse parse_ipv4 index slice_from finalize ports
datagram_parses = refl

parse-l4_offset_example :
    (offset : ℕ) × (l4_offset datagram ≡ some offset) × ReadsAt stamp datagram outbound query offset
unfolding Connection.new
parse-l4_offset_example = parse-l4_offset stamp datagram outbound query datagram_parses (λ h. cc)

pub server-IsAddress : IsAddress (v4 10 0 0 2)
server-IsAddress = (omega arith, (omega arith, (omega arith, (omega arith, tt))))

pub client-IsAddress : IsAddress (v4 10 0 0 1)
client-IsAddress = (omega arith, (omega arith, (omega arith, (omega arith, tt))))

pub datagram-IsBytes : IsBytes datagram
datagram-IsBytes = ground arith

abbrev pub rejecter : Rejecter
rejecter = record {
  tcp4 = true;
  tcp6 = true;
  icmp4 = true;
  icmp6 = true;
  warned_send_failure = false;
  inbound_budget = Bucket.new exact 0 inbound_rejects_per_sec inbound_reject_burst;
  packets = [];
}

abbrev pub takes_all : IpAddr → Bytes → Bool
takes_all dst bytes = true

reject-Refuses_example : Refuses query rejecter (reject takes_all query datagram 0 rejecter)
unfolding Connection.new
reject-Refuses_example =
    reject-Refuses takes_all query datagram 0 rejecter client-IsAddress server-IsAddress
      datagram-IsBytes (omega arith)
