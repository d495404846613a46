-- ===== src/Ping/Checksum.antt =====
-- The checksum of ICMPPing.swift against what a receiver checks.
use lan_scan.Base.{
  ℕ, ◌+◌, ◌*◌, ◌/◌, ◌%◌, ◌^◌, ◌<◌, ◌≤◌, ◌≡◌, refl, ap, ◌∙◌, arith, lt→ltb, some, List, [], ◌∷◌,
  ◌++◌, length, All,
}
use lan_scan.Ping.{add_words, folded, calculate_checksum}

-- The sum of the words of some bytes.
abbrev words_sum : List ℕ → ℕ
words_sum [] = 0
words_sum (b ∷ []) = 0
words_sum (low ∷ high ∷ rest) = low + high * 2 ^ 8 + words_sum rest

-- An even number of bytes.
pub data IsPaired : List ℕ → Type 0 where
  none_left : IsPaired []
  pair : (a b : ℕ) (rest : List ℕ) → IsPaired rest → IsPaired (a ∷ b ∷ rest)

add_words-sum :
    (sum : ℕ) (bytes : List ℕ)
    → sum + words_sum bytes < 2 ^ 32
    → add_words sum bytes ≡ some (sum + words_sum bytes)
unfolding add_words
add_words-sum sum [] h = ap (λ (n : ℕ). some n) (omega arith)
add_words-sum sum (b ∷ []) h = ap (λ (n : ℕ). some n) (omega arith)
add_words-sum sum (low ∷ high ∷ rest) h =
    rw (lt→ltb (sum + (low + high * 2 ^ 8)) (2 ^ 32) (omega (arith, h))) (
      add_words-sum (sum + (low + high * 2 ^ 8)) rest (omega (arith, h))
      ∙ ap (λ (n : ℕ). some n) (omega arith))

words_sum-small :
    (bytes : List ℕ) → All (λ (b : ℕ). b < 256) bytes → words_sum bytes * 2 ≤ length bytes * 65535
words_sum-small [] h = omega arith
words_sum-small (b ∷ []) h = omega arith
words_sum-small (low ∷ high ∷ rest) h = omega (arith, h.0, h.1.0, words_sum-small rest h.1.1)

words_sum-inserted :
    (front rest : List ℕ) (low high : ℕ)
    → IsPaired front
    → words_sum (front ++ (low ∷ high ∷ rest))
      ≡ words_sum (front ++ (0 ∷ 0 ∷ rest)) + (low + high * 2 ^ 8)
words_sum-inserted _ rest low high none_left = omega arith
words_sum-inserted _ rest low high (pair a b front p) =
    omega (arith, words_sum-inserted front rest low high p)

folded-zero : (sum : ℕ) → sum < 2 ^ 31 → folded (sum + folded sum) ≡ 0
unfolding folded
folded-zero sum h = omega (arith, h)

-- A place for the checksum between two parts, and the checksum that belongs there.
pub data Sealed (front rest : List ℕ) : Type 0 where
  sealed_by :
      (checksum : ℕ)
      → checksum < 2 ^ 16
      → calculate_checksum (front ++ (0 ∷ 0 ∷ rest)) ≡ some checksum
      → calculate_checksum (front ++ ((checksum % 2 ^ 8) ∷ (checksum / 2 ^ 8) ∷ rest)) ≡ some 0
      → Sealed front rest

folded-small : (sum : ℕ) → folded sum < 2 ^ 16
unfolding folded
folded-small sum = omega arith

checksum_of_sum :
    (bytes : List ℕ) (sum : ℕ)
    → words_sum bytes ≡ sum
    → sum < 2 ^ 32
    → calculate_checksum bytes ≡ some (folded sum)
unfolding calculate_checksum
checksum_of_sum bytes sum e h =
    rw (add_words-sum 0 bytes (omega (arith, e, h)), calculate_checksum)
      (ap (λ (n : ℕ). some (folded n)) (omega (arith, e)))

-- Where an even number of bytes stands before the two of the checksum, and all are fewer than 2^16
-- bytes, calculateChecksum gives a checksum of 16 bits for the bytes with 0 in that place, and gives 0
-- for the bytes with this checksum there.
pub calculate_checksum-Sealed :
    (front rest : List ℕ)
    → IsPaired front
    → All (λ (b : ℕ). b < 256) (front ++ (0 ∷ 0 ∷ rest))
    → length (front ++ (0 ∷ 0 ∷ rest)) < 2 ^ 16
    → Sealed front rest
calculate_checksum-Sealed front rest p small short =
    let sum = words_sum (front ++ (0 ∷ 0 ∷ rest)) in
    let bound = words_sum-small (front ++ (0 ∷ 0 ∷ rest)) small in
    let c = folded sum in
    sealed_by c (folded-small sum)
      (checksum_of_sum (front ++ (0 ∷ 0 ∷ rest)) sum refl (omega (arith, bound, short)))
      (checksum_of_sum (front ++ ((c % 2 ^ 8) ∷ (c / 2 ^ 8) ∷ rest)) (sum + c)
          (words_sum-inserted front rest (c % 2 ^ 8) (c / 2 ^ 8) p ∙ omega arith)
          (omega (arith, bound, short, folded-small sum))
        ∙ ap (λ (n : ℕ). some n) (folded-zero sum (omega (arith, bound, short))))
