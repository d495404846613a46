-- ===== src/Ping.antt =====
-- The echo request that ios/Classes/ICMPPing/ICMPPing.swift sends, its checksum, and which answer it takes. The words
-- are those of a little endian machine.
pub mod Checksum
pub mod Packet
mod Runs
use lan_scan.Base.{
  ℕ, ◌+◌, ◌-◌, ◌*◌, ◌/◌, ◌%◌, ◌^◌, ltb, ◌==◌, Bool, true, false, Option, none, some, List, [], ◌∷◌,
  length, drop, if◌then◌else◌,
}

-- `for word in bufferPointer { sum += UInt32(word) }`; `none` is the trap of an overflow. A last odd
-- byte is no word.
unfoldable pub add_words : (sum : ℕ) → List ℕ → Option ℕ
add_words sum [] = some sum
add_words sum (b ∷ []) = some sum
add_words sum (low ∷ high ∷ rest) =
    let more = add_words (sum + (low + high * 2 ^ 8)) rest in
    if ltb (sum + (low + high * 2 ^ 8)) (2 ^ 32) then more else none

-- `sum = (sum >> 16) + (sum & 0xFFFF); sum += (sum >> 16); ~UInt16(sum & 0xFFFF)`
unfoldable pub folded : ℕ → ℕ
folded sum = let once = sum / 2 ^ 16 + sum % 2 ^ 16 in 2 ^ 16 - 1 - (once + once / 2 ^ 16) % 2 ^ 16

unfoldable pub calculate_checksum : List ℕ → Option ℕ
unfolding add_words folded
calculate_checksum bytes = elim (add_words 0 bytes) [ none ↦ none | some sum ↦ some (folded sum) ]

-- The bytes of an `ICMPHeader`.
pub record IcmpHeader : Type 0 where
  pub type : ℕ
  pub code : ℕ
  pub checksum : ℕ
  pub identifier : ℕ
  pub sequence_number : ℕ

unfoldable pub header_bytes : IcmpHeader → List ℕ
header_bytes h =
    h.type
    ∷ h.code
    ∷ (h.checksum % 2 ^ 8)
    ∷ (h.checksum / 2 ^ 8)
    ∷ (h.identifier % 2 ^ 8)
    ∷ (h.identifier / 2 ^ 8)
    ∷ (h.sequence_number % 2 ^ 8)
    ∷ (h.sequence_number / 2 ^ 8)
    ∷ []

unfoldable pub create_icmp_packet : (identifier : ℕ) → Option (List ℕ)
unfolding calculate_checksum header_bytes
create_icmp_packet identifier =
    let header : IcmpHeader = record {
      type = 8;
      code = 0;
      checksum = 0;
      identifier = identifier;
      sequence_number = 0;
    } in
    elim (calculate_checksum (header_bytes header)) [
      | none ↦ none
      | some checksum ↦ some (header_bytes (record header { checksum = checksum }))
    ]

-- `icmpHeader.withUnsafeBytes { ... header.identifier == icmpTool.identifier }`; fewer bytes than the
-- header's are not taken.
unfoldable pub by_header : (identifier : ℕ) → List ℕ → Bool
by_header identifier (type ∷ code ∷ c0 ∷ c1 ∷ low ∷ high ∷ s0 ∷ s1 ∷ rest) =
    low + high * 2 ^ 8 == identifier
by_header identifier few = false

-- Whether the callback of the socket takes the bytes that arrive for the answer: behind 20 bytes there
-- is a header with the identifier of the request.
unfoldable pub takes : (identifier : ℕ) → List ℕ → Bool
unfolding by_header
takes identifier bytes = by_header identifier (drop 20 bytes)
