-- ===== src/Ping/Runs.antt =====
-- The theorems about ICMPPing.swift for one identifier and one packet with data.
use lan_scan.Base.{◌≡◌, refl, arith, some, [], ◌∷◌}
use lan_scan.Ping.{create_icmp_packet}
use lan_scan.Ping.Checksum.{none_left, pair, Sealed, calculate_checksum-Sealed}
use lan_scan.Ping.Packet.{Request, create_icmp_packet-Request}

packet_of_1234 : create_icmp_packet 0x1234 ≡ some (8 ∷ 0 ∷ 0xC3 ∷ 0xED ∷ 0x34 ∷ 0x12 ∷ 0 ∷ 0 ∷ [])
unfolding create_icmp_packet
packet_of_1234 = refl

create_icmp_packet-Request_example : Request 0x1234 (create_icmp_packet 0x1234)
create_icmp_packet-Request_example = create_icmp_packet-Request 0x1234 (omega arith)

calculate_checksum-Sealed_example : Sealed (8 ∷ 0 ∷ []) (0x34 ∷ 0x12 ∷ 0 ∷ 1 ∷ 0xFF ∷ [])
calculate_checksum-Sealed_example =
    calculate_checksum-Sealed (8 ∷ 0 ∷ []) (0x34 ∷ 0x12 ∷ 0 ∷ 1 ∷ 0xFF ∷ []) (pair 8 0 [] none_left)
      (ground arith) (omega arith)
