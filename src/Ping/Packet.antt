-- ===== src/Ping/Packet.antt =====
-- The echo request of ICMPPing.swift: its checksum, and which packets the callback takes for its answer.
use lan_scan.Base.{
  ℕ, ◌/◌, ◌%◌, ◌^◌, ◌<◌, ◌≡◌, ap, ◌∙◌, arith, ◌==◌, Option, some, List, [], ◌∷◌, ◌++◌, length, drop,
  subst, drop-append,
}
use lan_scan.Ping.{calculate_checksum, create_icmp_packet, header_bytes, takes, by_header}
use lan_scan.Ping.Checksum.{none_left, pair, Sealed, sealed_by, calculate_checksum-Sealed}

abbrev packet : (identifier c0 c1 : ℕ) → List ℕ
packet identifier c0 c1 = 8 ∷ 0 ∷ c0 ∷ c1 ∷ (identifier % 2 ^ 8) ∷ (identifier / 2 ^ 8) ∷ 0 ∷ 0 ∷ []

-- What createICMPPacket gives: the bytes of an echo request that a receiver's check passes; behind the
-- 20 bytes of an IP header, who asks takes them where his identifier is theirs.
pub data Request (identifier : ℕ) : Option (List ℕ) → Type 0 where
  echo_request :
      (c0 c1 : ℕ)
      → calculate_checksum (packet identifier c0 c1) ≡ some 0
      → ((other : ℕ) (ip : List ℕ)
          → length ip ≡ 20
          → takes other (ip ++ packet identifier c0 c1) ≡ (identifier == other))
      → Request identifier (some (packet identifier c0 c1))

drop-front : (front rest : List ℕ) (n : ℕ) → length front ≡ n → drop n (front ++ rest) ≡ rest
drop-front front rest n e =
    subst (λ (m : ℕ). drop m (front ++ rest) ≡ rest) e (drop-append front rest)

by_header-packet :
    (identifier c0 c1 other : ℕ) → by_header other (packet identifier c0 c1) ≡ (identifier == other)
unfolding by_header
by_header-packet identifier c0 c1 other = ap (λ (n : ℕ). n == other) (omega arith)

packet-taken :
    (identifier c0 c1 other : ℕ) (ip : List ℕ)
    → length ip ≡ 20
    → takes other (ip ++ packet identifier c0 c1) ≡ (identifier == other)
unfolding takes
packet-taken identifier c0 c1 other ip e =
    ap (by_header other) (drop-front ip (packet identifier c0 c1) 20 e)
    ∙ by_header-packet identifier c0 c1 other

from_Sealed :
    (identifier : ℕ)
    → Sealed (8 ∷ 0 ∷ []) ((identifier % 2 ^ 8) ∷ (identifier / 2 ^ 8) ∷ 0 ∷ 0 ∷ [])
    → Request identifier (create_icmp_packet identifier)
unfolding create_icmp_packet header_bytes
from_Sealed identifier (sealed_by c small given checked) =
    rw (given, create_icmp_packet)
      (echo_request (c % 2 ^ 8) (c / 2 ^ 8) checked
        (packet-taken identifier (c % 2 ^ 8) (c / 2 ^ 8)))

-- createICMPPacket gives a packet for every identifier of 16 bits: that of an echo request, whose
-- checksum, calculated over it, is 0, and which the callback, behind 20 bytes of a header, takes exactly
-- where its identifier is the one asked for.
pub create_icmp_packet-Request :
    (identifier : ℕ) → identifier < 2 ^ 16 → Request identifier (create_icmp_packet identifier)
unfolding create_icmp_packet
create_icmp_packet-Request identifier h = from_Sealed identifier (
    calculate_checksum-Sealed (8 ∷ 0 ∷ [])
      ((identifier % 2 ^ 8) ∷ (identifier / 2 ^ 8) ∷ 0 ∷ 0 ∷ []) (pair 8 0 [] none_left)
      (ground (arith, h)) (omega arith))
