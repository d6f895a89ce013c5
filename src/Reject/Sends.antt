-- ===== src/Reject/Sends.antt =====
-- What the rejecter hands to the kernel.
use colony_firewall_control.Prelude.{
  ℕ, ◌≡◌, ◌⊎◌, inl, inr, refl, ap, ◌∙◌, Bool, true, false, some, List, [], ◌∷◌, ◌++◌, length, ◌≤◌,
  drop, Option-cases, Bool-cases, arith,
}
use colony_firewall_control.Connection.{Connection, IpAddr, Protocol, tcp, udp, icmp, other}
use colony_firewall_control.Packet.{Bytes}
use colony_firewall_control.Reject.Offset.{l4_offset}
use colony_firewall_control.Reject.Forge.{rst_fields, build_icmp_port_unreachable}
use colony_firewall_control.Reject.Forge.Quoted.{
  IsAddress, IsAcceptedTcp, IsAcceptedIcmp, max_packet, build_tcp_rst-IsAcceptedTcp,
  build_icmp_port_unreachable-IsAcceptedIcmp,
}
use colony_firewall_control.Reject.Checksum.Laws.{IsBytes}
use colony_firewall_control.Reject.{
  Rejecter, RejectOutcome, sent, Kernel, emit, socket_for, tcp_refusal, reject_tcp, reject_udp,
  reject_protocol, spend_inbound, reject, unicast_addressable,
}

-- A packet that a receiver accepts as coming from the first address to the second, as TCP or as an
-- ICMP error.
abbrev pub IsAccepted : IpAddr → IpAddr → Bytes → Type 0
IsAccepted src dst packet = IsAcceptedTcp src dst packet ⊎ IsAcceptedIcmp src dst packet

-- What an attempt did: it sent one such packet from the flow's destination to its source, or none.
abbrev pub Sends : Connection → Rejecter → Rejecter × RejectOutcome → Type 0
Sends c r (r', outcome) =
    ((outcome ≡ sent)
      × ((packet : Bytes) × (r'.packets ≡ r.packets ++ ((c.src_ip, packet) ∷ []))
          × IsAccepted c.dst_ip c.src_ip packet))
    ⊎ (r'.packets ≡ r.packets)

emit-Sends :
    (kernel : Kernel) (open_socket : Bool) (c : Connection) (packet : Bytes) (r : Rejecter)
    → IsAccepted c.dst_ip c.src_ip packet
    → Sends c r (emit kernel open_socket c.src_ip packet r)
unfolding emit
emit-Sends kernel false c packet r a = inr refl
emit-Sends kernel true c packet r a = elim (Bool-cases (kernel c.src_ip packet)) [
  | inl e ↦ rw e (inl (refl, (packet, refl, a)))
  | inr e ↦ rw e (inr refl)
]

module _ (c : Connection) (original : Bytes) (src : IsAddress c.src_ip)
    (dst : IsAddress c.dst_ip) where
  tcp_refusal-IsAccepted :
      (packet : Bytes) → tcp_refusal c original ≡ some packet → IsAccepted c.dst_ip c.src_ip packet
  unfolding tcp_refusal
  tcp_refusal-IsAccepted packet e = elim (Option-cases (l4_offset original)) [
    | inl none_found ↦ absurd (ground (arith, e, none_found))
    | inr (offset, found) ↦ elim (Option-cases (rst_fields (drop offset original))) [
      | inl no_fields ↦ absurd (ground (arith, e, found, no_fields))
      | inr (fields, read) ↦ inl (
          build_tcp_rst-IsAcceptedTcp c.dst_ip c.dst_port c.src_ip c.src_port fields packet dst src
            (ground (arith, e, found, read)))
    ]
  ]

  reject_tcp-Sends : (kernel : Kernel) (r : Rejecter) → Sends c r (reject_tcp kernel c original r)
  unfolding reject_tcp
  reject_tcp-Sends kernel r = elim (Option-cases (tcp_refusal c original)) [
    | inl e ↦ rw (reject_tcp, e) (inr refl)
    | inr (packet, e) ↦
        rw (reject_tcp, e)
          (emit-Sends kernel (socket_for c.src_ip r.tcp4 r.tcp6) c packet r
            (tcp_refusal-IsAccepted packet e))
  ]

  module _ (bytes : IsBytes original) (short : length original ≤ max_packet) where
    reject_udp-Sends : (kernel : Kernel) (r : Rejecter) → Sends c r (reject_udp kernel c original r)
    unfolding reject_udp
    reject_udp-Sends kernel r =
        elim (Option-cases (build_icmp_port_unreachable c.dst_ip c.src_ip original)) [
          | inl e ↦ rw (reject_udp, e) (inr refl)
          | inr (packet, e) ↦
              rw (reject_udp, e)
                (emit-Sends kernel (socket_for c.src_ip r.icmp4 r.icmp6) c packet r (
                  inr (
                    build_icmp_port_unreachable-IsAcceptedIcmp c.dst_ip c.src_ip original packet dst
                      src bytes short e)))
        ]

    reject_protocol-Sends :
        (kernel : Kernel) (p : Protocol) (r : Rejecter)
        → Sends c r (reject_protocol kernel p c original r)
    unfolding reject_protocol
    reject_protocol-Sends kernel tcp r = reject_tcp-Sends kernel r
    reject_protocol-Sends kernel udp r = reject_udp-Sends kernel r
    reject_protocol-Sends kernel icmp r = inr refl
    reject_protocol-Sends kernel (other n) r = inr refl

spend_inbound-packets :
    (c : Connection) (now : ℕ) (r : Rejecter) → (spend_inbound c now r).0.packets ≡ r.packets
unfolding spend_inbound
spend_inbound-packets c now r = ground arith

-- Both ends of the flow are unicast, and one packet was sent; or none was.
abbrev pub Refuses : Connection → Rejecter → Rejecter × RejectOutcome → Type 0
Refuses c r (r', outcome) =
    ((unicast_addressable c.src_ip ≡ true)
      × (unicast_addressable c.dst_ip ≡ true)
      × (outcome ≡ sent)
      × ((packet : Bytes) × (r'.packets ≡ r.packets ++ ((c.src_ip, packet) ∷ []))
          × IsAccepted c.dst_ip c.src_ip packet))
    ⊎ (r'.packets ≡ r.packets)

Refuses-of_Sends :
    (c : Connection) (r spent : Rejecter) (out : Rejecter × RejectOutcome)
    → unicast_addressable c.src_ip ≡ true
    → unicast_addressable c.dst_ip ≡ true
    → spent.packets ≡ r.packets
    → Sends c spent out
    → Refuses c r out
Refuses-of_Sends c r spent out u v same (inl (outcome, (packet, log, accepted))) = inl (
  u,
  v,
  outcome,
  (
    packet,
    log ∙ ap (λ (ps : List (IpAddr × Bytes)). ps ++ ((c.src_ip, packet) ∷ [])) same,
    accepted,
  ),
)
Refuses-of_Sends c r spent out u v same (inr kept) = inr (kept ∙ same)

reject_granted :
    (kernel : Kernel) (c : Connection) (original : Bytes) (now : ℕ) (r : Rejecter)
    → unicast_addressable c.src_ip ≡ true
    → unicast_addressable c.dst_ip ≡ true
    → (spend_inbound c now r).1 ≡ true
    → reject kernel c original now r
      ≡ reject_protocol kernel c.protocol c original (spend_inbound c now r).0
unfolding reject
reject_granted kernel c original now r u v g = rw (u, v, g) refl

reject_withheld :
    (kernel : Kernel) (c : Connection) (original : Bytes) (now : ℕ) (r : Rejecter)
    → (unicast_addressable c.src_ip ≡ false)
      ⊎ (unicast_addressable c.dst_ip ≡ false)
      ⊎ ((spend_inbound c now r).1 ≡ false)
    → (reject kernel c original now r).0.packets ≡ r.packets
unfolding reject
reject_withheld kernel c original now r why = ground (arith, why, spend_inbound-packets c now r)

-- For a flow with proper addresses and a packet of at most 65535 bytes, an attempt to refuse sends
-- nothing, or it hands the kernel one packet for the flow's source, both ends being unicast, whose IP
-- header shows the flow's destination as its source and the flow's source as its destination and
-- whose protocol and checksums are those that a receiver of a TCP segment or an ICMP error demands.
pub reject-Refuses :
    (kernel : Kernel) (c : Connection) (original : Bytes) (now : ℕ) (r : Rejecter)
    → IsAddress c.src_ip
    → IsAddress c.dst_ip
    → IsBytes original
    → length original ≤ max_packet
    → Refuses c r (reject kernel c original now r)
reject-Refuses kernel c original now r src dst bytes short =
    elim (Bool-cases (unicast_addressable c.src_ip)) [
      | inr u ↦ inr (reject_withheld kernel c original now r (inl u))
      | inl u ↦ elim (Bool-cases (unicast_addressable c.dst_ip)) [
        | inr v ↦ inr (reject_withheld kernel c original now r (inr (inl v)))
        | inl v ↦ elim (Bool-cases (spend_inbound c now r).1) [
          | inr g ↦ inr (reject_withheld kernel c original now r (inr (inr g)))
          | inl g ↦
              let spent = (spend_inbound c now r).0 in
              rw (reject_granted kernel c original now r u v g) (
                Refuses-of_Sends c r spent (reject_protocol kernel c.protocol c original spent) u v
                  (spend_inbound-packets c now r)
                  (reject_protocol-Sends c original src dst bytes short kernel c.protocol spent))
        ]
      ]
    ]
