-- ===== src/Resolver/NetBios/Flag.antt =====
-- Which flags `extractNames` of NetBIOSResolver.kt takes for those of a group.
use lan_scan.Base.{
  ℕ, ◌+◌, ◌*◌, ◌<◌, ◌≡◌, refl, arith, ltb, leb, ◌&&◌, not, Bool, true, bit_and, [], if◌then◌else◌,
}
use lan_scan.Base.Bits.{all_below, all_below-lt}
use lan_scan.Resolver.NetBios.{extended}

-- The test of the group bit, as it combines the two bytes.
abbrev pub flagged : (a b : ℕ) → Bool
flagged a b = ltb 0 (bit_and (bit_and (extended [] a) (0xFF + b * 0xFF)) 128)

-- The group bit is set in the first byte, and the highest bit of the second is not.
abbrev pub group_bits : (a b : ℕ) → Bool
group_bits a b = leb 128 a && ltb b 128

abbrev agree : (a b : ℕ) → Bool
agree a b = if group_bits a b then flagged a b else not (flagged a b)

all_flags : all_below 256 (λ a. all_below 256 (agree a)) ≡ true
all_flags = refl

same_tests : (x y : Bool) → (if y then x else not x) ≡ true → x ≡ y
same_tests x y h = ground (arith, h)

pub flagged-group_bits : (a b : ℕ) → a < 256 → b < 256 → flagged a b ≡ group_bits a b
flagged-group_bits a b ha hb = same_tests (flagged a b) (group_bits a b) (
    all_below-lt 256 (agree a) b (all_below-lt 256 (λ x. all_below 256 (agree x)) a all_flags ha)
      hb)
