-- ===== src/Scanner/Range/Bytes.antt =====
-- The bytes of an address that LanDeviceScanner.kt hands to `InetAddress.getByAddress`.
use lan_scan.Base.{
  ℕ, ◌+◌, ◌-◌, ◌*◌, ◌^◌, ◌<◌, ◌≤◌, ◌≡◌, refl, arith, ◌⊎◌, le-or-lt, ◌/◌, ◌%◌, inl, inr, List, [],
  ◌∷◌, length,
}
use lan_scan.Scanner.Range.{to_byte_array}

-- The number that bytes stand for, the greatest first.
abbrev pub big_endian : (so_far : ℕ) → List ℕ → ℕ
big_endian so_far [] = so_far
big_endian so_far (b ∷ bs) = big_endian (so_far * 2 ^ 8 + b) bs

pub four_bytes :
    (a : ℕ)
    → 2 ^ 23 ≤ a
    → a < 2 ^ 32 - 2 ^ 23
    → to_byte_array a ≡ a / 2 ^ 24 % 2 ^ 8 ∷ a / 2 ^ 16 % 2 ^ 8 ∷ a / 2 ^ 8 % 2 ^ 8 ∷ a % 2 ^ 8 ∷ []
unfolding to_byte_array
four_bytes a low high = ground arith

pub fewer_bytes : (a : ℕ) → (a < 2 ^ 23) ⊎ (2 ^ 32 - 2 ^ 23 ≤ a) → length (to_byte_array a) < 4
unfolding to_byte_array
fewer_bytes a (inl low) = ground arith
fewer_bytes a (inr high) = ground arith

-- From 0.128.0.0 to 255.127.255.255 an address has four bytes, those of the network's order. Any
-- other has fewer, which `getByAddress` takes for no address.
pub to_byte_array-length :
    (a : ℕ)
    → a < 2 ^ 32
    → ((2 ^ 23 ≤ a)
        × (a < 2 ^ 32 - 2 ^ 23)
        × (length (to_byte_array a) ≡ 4)
        × (big_endian 0 (to_byte_array a) ≡ a))
      ⊎ (((a < 2 ^ 23) ⊎ (2 ^ 32 - 2 ^ 23 ≤ a)) × (length (to_byte_array a) < 4))
to_byte_array-length a small = elim (le-or-lt (2 ^ 23) a) [
  | inr low ↦ inr (inl low, fewer_bytes a (inl low))
  | inl up ↦ elim (le-or-lt (2 ^ 32 - 2 ^ 23) a) [
    | inl high ↦ inr (inr high, fewer_bytes a (inr high))
    | inr within ↦ inl (
      up,
      within,
      rw (four_bytes a up within) refl,
      rw (four_bytes a up within) (omega (arith, small)),
    )
  ]
]
