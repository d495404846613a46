-- ===== src/Text/Decimal.antt =====
-- What `printf` writes for `%u`, `%02x` and `%d`.
use lan_scan.Base.{
  ℕ, zero, suc, ◌+◌, ◌-◌, ◌*◌, ◌/◌, ◌%◌, ◌^◌, ◌<◌, ◌≡◌, Bool-cases, inl, inr, refl, arith, ltb,
  if◌then◌else◌, List, [], ◌∷◌, ◌++◌, length, length-append, ◌≤◌, All, All-append,
}

-- The decimal digits of `n`; `fuel` digits at most, so 10 are enough below 2 ^ 32.
unfoldable pub decimal_digits : ℕ → ℕ → List ℕ
decimal_digits zero n = []
decimal_digits (suc fuel) n =
    let front = decimal_digits fuel (n / 10) in
    if ltb n 10 then (b'0' + n) ∷ [] else front ++ ((b'0' + n % 10) ∷ [])

-- `%u` of a `uint32_t`
unfoldable pub decimal : ℕ → List ℕ
unfolding decimal_digits
decimal n = decimal_digits 10 n

-- A lower case hexadecimal digit.
abbrev pub hex_lower : ℕ → ℕ
hex_lower d = if ltb d 10 then b'0' + d else b'a' + d - 10

-- `%02x` of an `unsigned char`
abbrev pub hex_byte : ℕ → List ℕ
hex_byte b = hex_lower (b / 16) ∷ hex_lower (b % 16) ∷ []

-- The number that decimal digits stand for.
unfoldable pub value_from : ℕ → List ℕ → ℕ
value_from acc [] = acc
value_from acc (c ∷ cs) = value_from (acc * 10 + (c - b'0')) cs

value_from-append :
    (acc : ℕ) (xs ys : List ℕ) → value_from acc (xs ++ ys) ≡ value_from (value_from acc xs) ys
unfolding value_from
value_from-append acc [] ys = refl
value_from-append acc (x ∷ xs) ys = value_from-append (acc * 10 + (x - b'0')) xs ys

decimal_digits-value :
    (fuel n : ℕ) → n < 10 ^ fuel → 0 < fuel → value_from 0 (decimal_digits fuel n) ≡ n
unfolding decimal_digits value_from
decimal_digits-value zero n h pos = absurd (omega arith)
decimal_digits-value (suc zero) n h pos = ground arith
decimal_digits-value (suc (suc fuel)) n h pos = ground (
  arith,
  value_from-append 0 (decimal_digits (suc fuel) (n / 10)) ((b'0' + n % 10) ∷ []),
  decimal_digits-value (suc fuel) (n / 10) (omega arith) (omega arith),
)

-- Reading back what `%u` prints gives the number.
pub value-decimal : (n : ℕ) → n < 2 ^ 32 → value_from 0 (decimal n) ≡ n
unfolding decimal
value-decimal n h = decimal_digits-value 10 n (omega arith) (omega arith)

length-decimal_digits : (fuel k n : ℕ) → n < 10 ^ suc k → length (decimal_digits fuel n) ≤ suc k
unfolding decimal_digits
length-decimal_digits zero k n h = omega arith
length-decimal_digits (suc fuel) zero n h = ground arith
length-decimal_digits (suc fuel) (suc k) n h = ground (
  arith,
  length-append (decimal_digits fuel (n / 10)) ((b'0' + n % 10) ∷ []),
  length-decimal_digits fuel k (n / 10) (omega arith),
)

-- A number below 10 ^ (k + 1) has at most k + 1 digits.
pub length-decimal : (k n : ℕ) → n < 10 ^ suc k → length (decimal n) ≤ suc k
unfolding decimal
length-decimal k n h = length-decimal_digits 10 k n h

All-pos-decimal_digits : (fuel n : ℕ) → All (λ c. 0 < c) (decimal_digits fuel n)
unfolding decimal_digits
All-pos-decimal_digits zero n = tt
All-pos-decimal_digits (suc fuel) n = elim (Bool-cases (ltb n 10)) [
  | inl e ↦ rw e (omega arith)
  | inr e ↦ rw e (
      All-append (λ c. 0 < c) (decimal_digits fuel (n / 10)) _
        (All-pos-decimal_digits fuel (n / 10)) (omega arith))
]

-- No digit is a NUL.
pub All-pos-decimal : (n : ℕ) → All (λ c. 0 < c) (decimal n)
unfolding decimal
All-pos-decimal n = All-pos-decimal_digits 10 n
