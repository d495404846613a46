-- ===== src/Neigh/Match/Prefix.antt =====
-- `inet_addr_match` of android/src/main/c/ipneigh.c against a comparison of the first bits.
use lan_scan.Base.{
  ℕ, zero, suc, ◌+◌, ◌*◌, ◌/◌, ◌%◌, ◌^◌, ◌≤◌, ◌<◌, ◌≡◌, refl, sym, ap, ◌∙◌, arith, ◌==◌, ==→eq,
  ne_of_==, if◌then◌else◌, Bool, true, false, ◌&&◌, not, Bool-cases, inl, inr, some, List, [], ◌∷◌,
  length, get_elem?, drop, All, ℤ, pos, negsuc, is_zero,
}
use lan_scan.Base.Bits.{masked}
use lan_scan.Memory.{Run, done, ◌>>=◌}
use lan_scan.Neigh.Match.{prefix_mask, partial_match, words_differ, inet_addr_match}
use lan_scan.Neigh.Match.Bytes.{
  bytes_of, same_prefix, same_prefix-zero, same_prefix-word, same_prefix-masked,
}
use lan_scan.World.{InetPrefix}

-- The answer of the comparison of whole words, for the part that it leaves.
words_differ-shift :
    (n i : ℕ) (x y : ℕ) (a b : List ℕ)
    → words_differ n (suc i) (x ∷ a) (y ∷ b) ≡ words_differ n i a b
unfolding words_differ
words_differ-shift zero i x y a b = refl
words_differ-shift (suc n) i x y a b = rw (next i, words_differ-shift n (i + 1) x y a b) refl
  where
    next : (i : ℕ) → suc i + 1 ≡ suc (i + 1)
    next i = omega arith

abbrev AllWords : List ℕ → Type 0
AllWords ws = All (λ w. w < 2 ^ 32) ws

more : (n left : ℕ) → 32 * suc n + left ≡ 32 + (32 * n + left)
more n left = omega arith

joined : (c d r : Bool) → (c && (not d && r)) ≡ (not (if c then d else true) && r)
joined true d r = refl
joined false d r = refl

words_differ-prefix :
    (n left : ℕ) (a b : List ℕ)
    → n ≤ length a
    → n ≤ length b
    → AllWords a
    → AllWords b
    → (d : Bool) × (words_differ n 0 a b ≡ done d)
      × (same_prefix (32 * n + left) (bytes_of a) (bytes_of b)
          ≡ (not d && same_prefix left (bytes_of (drop n a)) (bytes_of (drop n b))))
unfolding words_differ
words_differ-prefix zero left a b ha hb wa wb =
    (false, refl, ap (λ k. same_prefix k (bytes_of a) (bytes_of b)) (omega arith))
words_differ-prefix (suc n) left [] b ha hb wa wb = absurd (omega arith)
words_differ-prefix (suc n) left (x ∷ a) [] ha hb wa wb = absurd (omega arith)
words_differ-prefix (suc n) left (x ∷ a) (y ∷ b) ha hb wa wb =
    let (d, e, same) = words_differ-prefix n left a b (omega arith) (omega arith) wa.1 wb.1 in
    let far : words_differ n 1 (x ∷ a) (y ∷ b) ≡ done d = words_differ-shift n 0 x y a b ∙ e in
    (
      (if x == y then d else true),
      rw far refl,
      ap (λ k. same_prefix k (bytes_of (x ∷ a)) (bytes_of (y ∷ b))) (more n left)
          ∙ same_prefix-word (32 * n + left) x y a b wa.0 wb.0
          ∙ ap (λ r. (x == y) && r) same
          ∙ joined (x == y) d (same_prefix left (bytes_of (drop n a)) (bytes_of (drop n b))),
    )

-- The word at a place, and what follows it.
drop-word :
    (a : List ℕ) (p : ℕ)
    → p < length a
    → AllWords a
    → (w : ℕ) × (rest : List ℕ) × (get_elem? a p ≡ some w) × (drop p a ≡ w ∷ rest) × (w < 2 ^ 32)
drop-word [] p h wa = absurd (omega arith)
drop-word (x ∷ a) zero h wa = (x, a, refl, refl, wa.0)
drop-word (x ∷ a) (suc p) h wa = drop-word a p (omega arith) wa.1

partial_match-prefix :
    (a b : List ℕ) (n left : ℕ)
    → left < 32
    → n < length a
    → n < length b
    → AllWords a
    → AllWords b
    → (z : ℤ) × (partial_match a b n left ≡ done z)
      × (is_zero z ≡ same_prefix left (bytes_of (drop n a)) (bytes_of (drop n b)))
unfolding partial_match
partial_match-prefix a b n left h ha hb wa wb =
    let (w, ws, ew, dw, bw) = drop-word a n ha wa in
    let (v, vs, ev, dv, bv) = drop-word b n hb wb in
    (
      (if masked w v (prefix_mask left) then pos 0 else pos 1),
      rw (ew, ev) refl,
      rw (dw, dv)
          (verdict (masked w v (prefix_mask left))
            ∙ sym (same_prefix-masked left w v ws vs h bw bv)),
    )
  where
    verdict : (m : Bool) → is_zero (if m then pos 0 else pos 1) ≡ m
    verdict true = refl
    verdict false = refl

-- What follows the comparison of whole words.
answer : (a b : List ℕ) (n left : ℕ) → Bool → Run ℤ
answer a b n left differ =
    if differ then done (negsuc 0) else if left == 0 then done (pos 0) else partial_match a b n left

answer-prefix :
    (a b : List ℕ) (n left bits : ℕ) (d : Bool)
    → left < 32
    → 32 * n + left ≡ bits
    → bits ≤ 32 * length a
    → bits ≤ 32 * length b
    → AllWords a
    → AllWords b
    → (z : ℤ) × (answer a b n left d ≡ done z)
      × (is_zero z ≡ (not d && same_prefix left (bytes_of (drop n a)) (bytes_of (drop n b))))
unfolding answer
answer-prefix a b n left bits true h all ha hb wa wb = (negsuc 0, refl, refl)
answer-prefix a b n left bits false h all ha hb wa wb = elim (Bool-cases (left == 0)) [
  | inl none_left ↦
      let e : left ≡ 0 = ==→eq left 0 none_left in
      (
        pos 0,
        rw none_left refl,
        sym (
            ap (λ k. same_prefix k (bytes_of (drop n a)) (bytes_of (drop n b))) e
            ∙ same_prefix-zero (drop n a) (drop n b)),
      )
  | inr some_left ↦
      let e = ne_of_== left 0 some_left in
      rw some_left (partial_match-prefix a b n left h (omega arith) (omega arith) wa wb)
]

-- For a prefix that the 32-bit words of both addresses hold, `inet_addr_match` makes no access
-- outside of them, and it answers 0 exactly where the first `bits` bits of the addresses, as their
-- bytes lie in memory, are the same.
pub inet_addr_match-prefix :
    (a b : InetPrefix) (bits : ℕ)
    → bits ≤ 32 * length (a.words)
    → bits ≤ 32 * length (b.words)
    → AllWords (a.words)
    → AllWords (b.words)
    → (z : ℤ) × (inet_addr_match a b bits ≡ done z)
      × (is_zero z ≡ same_prefix bits (bytes_of (a.words)) (bytes_of (b.words)))
unfolding inet_addr_match answer
inet_addr_match-prefix a b bits ha hb wa wb =
    let (d, e, same) =
      words_differ-prefix (bits / 2 ^ 5) (bits % 2 ^ 5) (a.words) (b.words) (omega arith)
        (omega arith) wa wb in
    let all : 32 * (bits / 2 ^ 5) + bits % 2 ^ 5 ≡ bits = omega arith in
    let (z, ez, verdict) =
      answer-prefix (a.words) (b.words) (bits / 2 ^ 5) (bits % 2 ^ 5) bits d (omega arith) all ha hb
        wa wb in
    (
      z,
      ap (λ r. r >>= answer (a.words) (b.words) (bits / 2 ^ 5) (bits % 2 ^ 5)) e ∙ ez,
      verdict ∙ sym same ∙ ap (λ k. same_prefix k (bytes_of (a.words)) (bytes_of (b.words))) all,
    )
