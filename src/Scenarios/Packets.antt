-- ===== src/Scenarios/Packets.antt =====
-- A TCP segment behind a Hop-by-Hop header, as queued by the kernel.
use colony_firewall_control.Prelude.{◌≡◌, ◌≢◌, refl, [], ◌∷◌, err, arith}
use colony_firewall_control.Connection.{Stamp, outbound, v6}
use colony_firewall_control.Packet.{Bytes, finalize, parse, panic}
use colony_firewall_control.Packet.Safe.{parse-ne-panic}
use colony_firewall_control.Packet.Extensions.{
  Extension, hop_by_hop, Ipv6Fields, ipv6_packet, parse-ipv6_extensions,
}

abbrev pub stamp : Stamp
stamp = record { id = 1; now = 0 }

abbrev syn : Bytes
syn = 0x9c ∷ 0x40 ∷ 0x01 ∷ 0xbb ∷ []

abbrev fields : Ipv6Fields
fields = record {
  traffic = 0;
  b1 = 0;
  b2 = 0;
  b3 = 0;
  b4 = 0;
  b5 = 12;
  hop_limit = 64;
  src = 0xfe ∷ 0x80 ∷ 0 ∷ 0 ∷ 0 ∷ 0 ∷ 0 ∷ 0 ∷ 0 ∷ 0 ∷ 0 ∷ 0 ∷ 0 ∷ 0 ∷ 0 ∷ 1 ∷ [];
  dst = 0x20 ∷ 1 ∷ 0x0d ∷ 0xb8 ∷ 0 ∷ 0 ∷ 0 ∷ 0 ∷ 0 ∷ 0 ∷ 0 ∷ 0 ∷ 0 ∷ 0 ∷ 0 ∷ 2 ∷ [];
}

abbrev padding : Extension
padding = record { kind = hop_by_hop; units = 0; body = 1 ∷ 4 ∷ 0 ∷ 0 ∷ 0 ∷ 0 ∷ [] }

abbrev packet : Bytes
packet = ipv6_packet fields (padding ∷ []) 6 syn

parse-ipv6_extensions_example :
    parse stamp packet outbound ≡ finalize stamp (v6 fields.src) (v6 fields.dst) 6 syn outbound
parse-ipv6_extensions_example =
    parse-ipv6_extensions stamp fields outbound (padding ∷ []) 6 syn
      (record { nibble = omega arith; src_len = refl; dst_len = refl }) (refl, tt)
      (omega arith, omega arith, omega arith, omega arith, omega arith)

parse-ne-panic_example : parse stamp packet outbound ≢ err panic
parse-ne-panic_example = parse-ne-panic stamp packet outbound
