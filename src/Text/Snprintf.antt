-- ===== src/Text/Snprintf.antt =====
-- `snprintf(str + at, size, ...)` of C's library, on an array that may be too short.
use lan_scan.Base.{
  sym, ℕ, zero, suc, ◌+◌, ◌-◌, ◌≤◌, ◌<◌, ◌≡◌, refl, ap, ◌∙◌, arith, ◌==◌, if◌then◌else◌, Option,
  none, some, List, [], ◌∷◌, ◌++◌, length, take, length-append, append_assoc, append-nil, take-all,
  Bool-cases, inl, inr, ne_of_==, ==-ne, All,
}
use lan_scan.Text.Buffer.{store, overlay, store-overlay, store-overlay_last}

infixl 5 ◌>>=◌
abbrev pub ◌>>=◌ {ℓ κ} : {A : Type ℓ} {B : Type κ} → Option A → (A → Option B) → Option B
none >>= f = none
some a >>= f = f a

-- Stores the characters one behind the other; `none` is a write outside the array.
unfoldable pub write_all : List ℕ → ℕ → List ℕ → Option (List ℕ)
write_all str at [] = some str
write_all str at (c ∷ cs) = store str at c >>= λ str'. write_all str' (at + 1) cs

-- At most `size` characters are stored, the last of them a NUL; `cs` is the text that the format
-- and its arguments stand for, and its length is what the call returns.
unfoldable pub snprintf : List ℕ → (at size : ℕ) → List ℕ → Option (List ℕ)
unfolding write_all
snprintf str at size cs =
    if size == 0 then some str else write_all str at (take (size - 1) cs ++ (0 ∷ []))

write_all-overlay :
    (xs cs str : List ℕ) (at : ℕ)
    → at ≡ length xs
    → length xs + length cs ≤ length str
    → write_all (overlay xs str) at cs ≡ some (overlay (xs ++ cs) str)
unfolding write_all
write_all-overlay xs [] str at e h = rw append-nil
write_all-overlay xs (c ∷ cs) str at e h =
    rw (e, store-overlay xs str c (omega arith))
      (write_all-overlay (xs ++ (c ∷ [])) cs str (length xs + 1)
          (omega (arith, length-append xs (c ∷ []))) (omega (arith, length-append xs (c ∷ [])))
        ∙ ap (λ t. some (overlay t str)) (append_assoc xs (c ∷ []) cs))

-- What a call stores.
unfoldable pub cut : ℕ → List ℕ → List ℕ
cut size cs = if size == 0 then [] else take (size - 1) cs ++ (0 ∷ [])

length-take_le : (n : ℕ) (cs : List ℕ) → length (take n cs) ≤ n
length-take_le zero cs = omega arith
length-take_le (suc n) [] = omega arith
length-take_le (suc n) (c ∷ cs) = omega (arith, length-take_le n cs)

length-cut : (size : ℕ) (cs : List ℕ) → length (cut size cs) ≤ size
unfolding cut
length-cut size cs =
    ground (arith, length-append (take (size - 1) cs) (0 ∷ []), length-take_le (size - 1) cs)

-- A call whose size stays inside the array stores no character outside it.
pub snprintf-cut :
    (xs cs str : List ℕ) (size : ℕ)
    → length xs + size ≤ length str
    → snprintf (overlay xs str) (length xs) size cs ≡ some (overlay (xs ++ cut size cs) str)
unfolding snprintf cut
snprintf-cut xs cs str size fits = elim (Bool-cases (size == 0)) [
  | inl e ↦ rw (e, append-nil)
  | inr e ↦ rw e (
      write_all-overlay xs _ str (length xs) refl (
        omega (
          arith,
          ne_of_== _ _ e,
          length-append (take (size - 1) cs) (0 ∷ []),
          length-take_le (size - 1) cs,
        )))
]

write_all-last :
    (xs ds str : List ℕ) (c d : ℕ)
    → length xs + suc (length ds) ≤ length str
    → write_all (overlay (xs ++ (c ∷ [])) str) (length xs) (d ∷ ds)
      ≡ some (overlay (xs ++ (d ∷ ds)) str)
unfolding write_all
write_all-last xs ds str c d h = rw (store-overlay_last xs str c d (omega arith)) (
    write_all-overlay (xs ++ (d ∷ [])) ds str (length xs + 1)
      (omega (arith, length-append xs (d ∷ []))) (omega (arith, length-append xs (d ∷ [])))
    ∙ ap (λ t. some (overlay t str)) (append_assoc xs (d ∷ []) ds))

-- A call that starts on the NUL of the last one.
pub snprintf-again :
    (xs cs str : List ℕ) (size : ℕ)
    → 0 < size
    → length xs + size ≤ length str
    → snprintf (overlay (xs ++ (0 ∷ [])) str) (length xs) size cs
      ≡ some (overlay (xs ++ cut size cs) str)
unfolding snprintf cut
snprintf-again xs cs str size room fits =
    rw (==-ne size 0 (omega arith)) (by_text (take (size - 1) cs) (length-take_le (size - 1) cs))
  where
    by_text :
        (ds : List ℕ)
        → length ds ≤ size - 1
        → write_all (overlay (xs ++ (0 ∷ [])) str) (length xs) (ds ++ (0 ∷ []))
          ≡ some (overlay (xs ++ (ds ++ (0 ∷ []))) str)
    by_text [] h = write_all-last xs [] str 0 0 (omega arith)
    by_text (d ∷ ds) h =
        write_all-last xs (ds ++ (0 ∷ [])) str 0 d (omega (arith, length-append ds (0 ∷ [])))

take-append_more :
    (n : ℕ) (xs cs : List ℕ) → length xs ≤ n → take n (xs ++ cs) ≡ xs ++ take (n - length xs) cs
take-append_more n [] cs h = ap (λ k. take k cs) (omega arith)
take-append_more zero (x ∷ xs) cs h = absurd (omega arith)
take-append_more (suc n) (x ∷ xs) cs h =
    ap (λ r. x ∷ r) (take-append_more n xs cs (omega arith))
    ∙ ap (λ k. x ∷ (xs ++ take k cs)) (omega arith)

take-append_less : (n : ℕ) (xs cs : List ℕ) → n ≤ length xs → take n (xs ++ cs) ≡ take n xs
take-append_less zero xs cs h = refl
take-append_less (suc n) [] cs h = absurd (omega arith)
take-append_less (suc n) (x ∷ xs) cs h = ap (λ r. x ∷ r) (take-append_less n xs cs (omega arith))

-- Printing on behind a text that fits is printing the longer text.
pub cut-append :
    (size : ℕ) (xs cs : List ℕ)
    → length xs < size
    → xs ++ cut (size - length xs) cs ≡ cut size (xs ++ cs)
unfolding cut
cut-append size xs cs h =
    rw
      (
        ==-ne size 0 (omega arith),
        ==-ne (size - length xs) 0 (omega arith),
        take-append_more (size - 1) xs cs (omega arith),
      )
      (sym (append_assoc xs _ (0 ∷ [])) ∙ ap (λ n. (xs ++ take n cs) ++ (0 ∷ [])) (omega arith))

-- A text that fills the size hides what follows.
pub cut-filled : (size : ℕ) (xs cs : List ℕ) → size ≤ length xs → cut size (xs ++ cs) ≡ cut size xs
unfolding cut
cut-filled size xs cs h = elim (Bool-cases (size == 0)) [
  | inl e ↦ rw e
  | inr e ↦ rw (e, take-append_less (size - 1) xs cs (omega (arith, ne_of_== size 0 e)))
]

-- Where the text and its NUL fit the size, all of it is stored.
pub cut-all : (size : ℕ) (cs : List ℕ) → length cs < size → cut size cs ≡ cs ++ (0 ∷ [])
unfolding cut
cut-all size cs h = rw (==-ne size 0 (omega arith), take-all (size - 1) cs (omega arith))

-- The string that starts an array of characters: all before the first NUL.
pub cstring : List ℕ → List ℕ
cstring [] = []
cstring (c ∷ cs) = if c == 0 then [] else c ∷ cstring cs

-- Characters other than NUL with a NUL behind them are the string, whatever follows.
pub cstring-append : (cs rest : List ℕ) → All (λ c. 0 < c) cs → cstring (cs ++ (0 ∷ rest)) ≡ cs
unfolding cstring
cstring-append [] rest h = refl
cstring-append (c ∷ cs) rest h =
    rw (==-ne c 0 (omega arith)) (ap (λ r. c ∷ r) (cstring-append cs rest h.1))

All-take : (n : ℕ) (cs : List ℕ) → All (λ c. 0 < c) cs → All (λ c. 0 < c) (take n cs)
All-take zero cs h = tt
All-take (suc n) [] h = tt
All-take (suc n) (c ∷ cs) h = (h.0, All-take n cs h.1)

-- What a call stores is its text, cut to one character less than the size.
pub cstring-cut :
    (size : ℕ) (cs str : List ℕ)
    → 0 < size
    → All (λ c. 0 < c) cs
    → cstring (overlay (cut size cs) str) ≡ take (size - 1) cs
unfolding cut
cstring-cut size cs str room all = rw (==-ne size 0 (omega arith)) (
    ap cstring (append_assoc (take (size - 1) cs) (0 ∷ []) _)
    ∙ cstring-append (take (size - 1) cs) _ (All-take (size - 1) cs all))
