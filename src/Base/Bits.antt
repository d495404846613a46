-- ===== src/Base/Bits.antt =====
-- Two numbers that agree where a mask has ones, as C writes it: `((x ^ y) & mask) == 0`.
use Prim.Native.Nat.{
  ℕ, zero, suc, ◌+◌, ◌-◌, ◌*◌, ◌/◌, ◌%◌, ◌^◌, ◌≤◌, ◌<◌, min, digits, differ, bit_and, bit_xor,
  bit_and-bitwise, bit_xor-bitwise,
}
use mathlib.Core.Bool.{Bool, true, false, ◌&&◌, ◌||◌}
use mathlib.Core.Logic.{◌⊎◌, inl, inr}
use mathlib.Core.Path.{◌≡◌, refl, ap, ◌∙◌, sym}
use native.Mathlib.Omega.{arith}
use lan_scan.Base.Tests.{◌==◌, ==-self, ltb, ltb→lt}

module _ (z : ℕ → ℕ) (f : ℕ → ℕ → ℕ) where
  -- More rounds than the number has digits change nothing.
  digits-more : (n k a b : ℕ) → a ≤ n → a ≤ k → digits z f n a b ≡ digits z f k a b
  digits-more zero zero a b h g = refl
  digits-more zero (suc k) zero b h g = refl
  digits-more (suc n) zero zero b h g = refl
  digits-more (suc n) (suc k) zero b h g = refl
  digits-more zero (suc k) (suc a) b h g = absurd (omega arith)
  digits-more (suc n) zero (suc a) b h g = absurd (omega arith)
  digits-more (suc n) (suc k) (suc a) b h g =
      ap (λ d. d * 2 + f (suc a % 2) (b % 2))
        (digits-more n k (suc a / 2) (b / 2) (omega arith) (omega arith))

xor_step : (a b : ℕ) → bit_xor a b ≡ bit_xor (a / 2) (b / 2) * 2 + differ (a % 2) (b % 2)
xor_step zero b = omega (arith, bit_xor-bitwise 0 b, bit_xor-bitwise 0 (b / 2))
xor_step (suc a) b =
    bit_xor-bitwise (suc a) b
    ∙ ap (λ d. d * 2 + differ (suc a % 2) (b % 2))
        (digits-more (λ b. b) differ a (suc a / 2) (suc a / 2) (b / 2) (omega arith) (omega arith)
          ∙ sym (bit_xor-bitwise (suc a / 2) (b / 2)))

pub and_step : (a b : ℕ) → bit_and a b ≡ bit_and (a / 2) (b / 2) * 2 + min (a % 2) (b % 2)
and_step zero b = omega (arith, bit_and-bitwise 0 b, bit_and-bitwise 0 (b / 2))
and_step (suc a) b =
    bit_and-bitwise (suc a) b
    ∙ ap (λ d. d * 2 + min (suc a % 2) (b % 2))
        (digits-more (λ b. 0) min a (suc a / 2) (suc a / 2) (b / 2) (omega arith) (omega arith)
          ∙ sym (bit_and-bitwise (suc a / 2) (b / 2)))

differ-digits :
    (a b : ℕ)
    → a < 2
    → b < 2
    → ((differ a b ≡ 0) × (a ≡ b)) ⊎ ((differ a b ≡ 1) × ((a == b) ≡ false))
differ-digits zero zero ha hb = inl (refl, refl)
differ-digits zero (suc zero) ha hb = inr (refl, refl)
differ-digits (suc zero) zero ha hb = inr (refl, refl)
differ-digits (suc zero) (suc zero) ha hb = inl (refl, refl)
differ-digits zero (suc (suc b)) ha hb = absurd (omega arith)
differ-digits (suc zero) (suc (suc b)) ha hb = absurd (omega arith)
differ-digits (suc (suc a)) b ha hb = absurd (omega arith)

-- The test.
abbrev pub masked : (x y m : ℕ) → Bool
masked x y m = bit_and (bit_xor x y) m == 0

xor-low : (x y : ℕ) → (bit_xor x y % 2 == 0) ≡ (x % 2 == y % 2)
xor-low x y = elim (differ-digits (x % 2) (y % 2) (omega arith) (omega arith)) [
  | inl (e, same) ↦
      let low : bit_xor x y % 2 ≡ 0 = omega (arith, xor_step x y) in
      rw (low, same) (sym (==-self (y % 2)))
  | inr (e, other) ↦
      let low : bit_xor x y % 2 ≡ 1 = omega (arith, xor_step x y) in rw (low, other) refl
]

xor-half : (x y : ℕ) → bit_xor x y / 2 ≡ bit_xor (x / 2) (y / 2)
xor-half x y = elim (differ-digits (x % 2) (y % 2) (omega arith) (omega arith)) [
  | inl (e, same) ↦ omega (arith, xor_step x y)
  | inr (e, other) ↦ omega (arith, xor_step x y)
]

zero-digits :
    (q d e : ℕ) → d < 2 → e < 2 → (q * 2 + min d e == 0) ≡ (((e == 0) || (d == 0)) && (q == 0))
zero-digits q zero e hd he = ground arith
zero-digits q (suc zero) zero hd he = ground arith
zero-digits q (suc zero) (suc zero) hd he = ground arith
zero-digits q (suc (suc d)) e hd he = absurd (omega arith)
zero-digits q (suc zero) (suc (suc e)) hd he = absurd (omega arith)

masked-step :
    (x y m : ℕ)
    → masked x y m ≡ (((m % 2 == 0) || (x % 2 == y % 2)) && masked (x / 2) (y / 2) (m / 2))
masked-step x y m =
    ap (λ v. v == 0) (and_step (bit_xor x y) m)
    ∙ zero-digits (bit_and (bit_xor x y / 2) (m / 2)) (bit_xor x y % 2) (m % 2) (omega arith)
        (omega arith)
    ∙ rw (xor-low x y, xor-half x y) refl

half-plus : (x a : ℕ) → (x + a * 2) / 2 ≡ x / 2 + a
half-plus x a = omega arith

low-plus : (x a : ℕ) → (x + a * 2) % 2 ≡ x % 2
low-plus x a = omega arith

low-double : (a : ℕ) → a * 2 % 2 ≡ 0
low-double a = omega arith

half-double : (a : ℕ) → a * 2 / 2 ≡ a
half-double a = omega arith

low-next : (a : ℕ) → (a * 2 + 1) % 2 ≡ 1
low-next a = omega arith

half-next : (a : ℕ) → (a * 2 + 1) / 2 ≡ a
half-next a = omega arith

eq-halves : (x y : ℕ) → ((x % 2 == y % 2) && (x / 2 == y / 2)) ≡ (x == y)
eq-halves x y = ground arith

zero-plus : (a : ℕ) → 0 + a ≡ a
zero-plus a = omega arith

and_assoc : (a b c : Bool) → ((a && b) && c) ≡ (a && (b && c))
and_assoc true b c = refl
and_assoc false b c = refl

-- The digits of `a`, moved up by `k` places, and moved down.
abbrev pub up : (k a : ℕ) → ℕ
up zero a = a
up (suc k) a = up k a * 2

abbrev pub down : (k a : ℕ) → ℕ
down zero a = a
down (suc k) a = down k (a / 2)

-- `k` ones.
abbrev pub ones : ℕ → ℕ
ones zero = 0
ones (suc k) = ones k * 2 + 1

-- The lower digits and the upper ones are tested apart.
pub masked-split :
    (k x y m a b c : ℕ)
    → x < up k 1
    → y < up k 1
    → m < up k 1
    → masked (x + up k a) (y + up k b) (m + up k c) ≡ (masked x y m && masked a b c)
masked-split zero zero zero zero a b c hx hy hm = rw (zero-plus a, zero-plus b, zero-plus c) refl
masked-split zero (suc x) y m a b c hx hy hm = absurd (omega arith)
masked-split zero zero (suc y) m a b c hx hy hm = absurd (omega arith)
masked-split zero zero zero (suc m) a b c hx hy hm = absurd (omega arith)
masked-split (suc k) x y m a b c hx hy hm =
    masked-step (x + up k a * 2) (y + up k b * 2) (m + up k c * 2)
    ∙ rw
        (
          half-plus x (up k a),
          half-plus y (up k b),
          half-plus m (up k c),
          low-plus x (up k a),
          low-plus y (up k b),
          low-plus m (up k c),
          masked-split k (x / 2) (y / 2) (m / 2) a b c (omega arith) (omega arith) (omega arith),
        )
        (sym (
          ap (λ r. r && masked a b c) (masked-step x y m)
          ∙ and_assoc ((m % 2 == 0) || (x % 2 == y % 2)) (masked (x / 2) (y / 2) (m / 2))
              (masked a b c)))

masked-up : (k x y m : ℕ) → masked x y (up k m) ≡ masked (down k x) (down k y) m
masked-up zero x y m = refl
masked-up (suc k) x y m =
    masked-step x y (up k m * 2)
    ∙ rw (low-double (up k m), half-double (up k m)) (masked-up k (x / 2) (y / 2) m)

-- Under ones the numbers themselves are compared.
masked-ones : (k x y : ℕ) → x < up k 1 → y < up k 1 → masked x y (ones k) ≡ (x == y)
masked-ones zero zero zero hx hy = refl
masked-ones zero (suc x) y hx hy = absurd (omega arith)
masked-ones zero zero (suc y) hx hy = absurd (omega arith)
masked-ones (suc k) x y hx hy =
    masked-step x y (ones k * 2 + 1)
    ∙ rw
        (
          low-next (ones k),
          half-next (ones k),
          masked-ones k (x / 2) (y / 2) (omega arith) (omega arith),
        )
        (eq-halves x y)

-- A byte of the mask of a prefix: its upper `bits` digits are ones.
abbrev pub mask_byte : (bits : ℕ) → ℕ
mask_byte bits = up (8 - bits) (ones (8 - (8 - bits)))

down-byte : (k x : ℕ) → k ≤ 8 → x < 256 → (down k x ≡ x / 2 ^ k) × (down k x < up (8 - k) 1)
down-byte zero x h b = (omega arith, omega arith)
down-byte (suc zero) x h b = (omega arith, omega arith)
down-byte (suc (suc zero)) x h b = (omega arith, omega arith)
down-byte (suc (suc (suc zero))) x h b = (omega arith, omega arith)
down-byte (suc (suc (suc (suc zero)))) x h b = (omega arith, omega arith)
down-byte (suc (suc (suc (suc (suc zero))))) x h b = (omega arith, omega arith)
down-byte (suc (suc (suc (suc (suc (suc zero)))))) x h b = (omega arith, omega arith)
down-byte (suc (suc (suc (suc (suc (suc (suc zero))))))) x h b = (omega arith, omega arith)
down-byte (suc (suc (suc (suc (suc (suc (suc (suc zero)))))))) x h b = (omega arith, omega arith)
down-byte (suc (suc (suc (suc (suc (suc (suc (suc (suc k))))))))) x h b = absurd (omega arith)

-- Over a small range, evaluation settles a test.
abbrev pub all_below : ℕ → (ℕ → Bool) → Bool
all_below zero p = true
all_below (suc n) p = p n && all_below n p

pub all_below-lt : (n : ℕ) (p : ℕ → Bool) (x : ℕ) → all_below n p ≡ true → x < n → p x ≡ true
all_below-lt zero p x h lt = absurd (omega arith)
all_below-lt (suc n) p x h lt = ground (arith, all_below-lt n p x)

pub mask_byte-small : (bits : ℕ) → mask_byte bits < 256
mask_byte-small bits =
    ltb→lt (mask_byte bits) 256
      (all_below-lt 9 (λ k. ltb (up k (ones (8 - k))) 256) (8 - bits) refl (omega arith))

pub masked-byte :
    (bits x y : ℕ)
    → x < 256
    → y < 256
    → masked x y (mask_byte bits) ≡ (x / 2 ^ (8 - bits) == y / 2 ^ (8 - bits))
masked-byte bits x y hx hy =
    let (ex, bx) = down-byte (8 - bits) x (omega arith) hx in
    let (ey, by) = down-byte (8 - bits) y (omega arith) hy in
    masked-up (8 - bits) x y (ones (8 - (8 - bits)))
    ∙ masked-ones (8 - (8 - bits)) (down (8 - bits) x) (down (8 - bits) y) bx by
    ∙ rw (ex, ey) refl
