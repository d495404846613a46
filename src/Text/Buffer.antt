-- ===== src/Text/Buffer.antt =====
-- A `char *str` with room for `len` characters, written one character at a time from its start.
use lan_scan.Base.{
  ℕ, suc, ◌+◌, ◌≤◌, ◌<◌, ◌≡◌, refl, ap, ◌∙◌, arith, ltb, ◌==◌, if◌then◌else◌, Bool-cases, ==→eq,
  leb, ==-ne, le→leb, lt→leb, ==-self, take-append, sym, ne_of_==, take-all, leb→le, Bool, false,
  inl, inr, Option, none, some, List, [], ◌∷◌, ◌++◌, length, set, take, drop, length-append,
  append_assoc, append-nil, true,
}

-- `*(str + i) = c`; `none` is a write outside the array.
abbrev pub store : List ℕ → ℕ → ℕ → Option (List ℕ)
store str i c = if ltb i (length str) then some (set str i c) else none

-- Where a writer stands: it goes on at `pos`, it has returned `str` because the room was used up,
-- or it has written outside the array.
pub data Writer : Type 0 where
  more : (str : List ℕ) (pos : ℕ) → Writer
  full : List ℕ → Writer
  fault : Writer

infixl 5 ◌>>=◌
abbrev pub ◌>>=◌ : Writer → (List ℕ → ℕ → Writer) → Writer
more str pos >>= k = k str pos
full str >>= k = full str
fault >>= k = fault

abbrev stored : Option (List ℕ) → ℕ → Writer
stored none pos = fault
stored (some str) pos = more str (pos + 1)

-- `if (pos == len) return str; *(str + pos) = c; pos++;`
unfoldable pub put : (len c : ℕ) → List ℕ → ℕ → Writer
put len c str pos = if pos == len then full str else stored (store str pos c) pos

unfoldable pub put_all : (len : ℕ) → List ℕ → List ℕ → ℕ → Writer
put_all len [] str pos = more str pos
put_all len (c ∷ cs) str pos = put len c str pos >>= put_all len cs

-- The array `str` after `xs` was written over its front.
abbrev pub overlay : List ℕ → List ℕ → List ℕ
overlay xs str = xs ++ drop (length xs) str

>>=_cong :
    (w : Writer) (k l : List ℕ → ℕ → Writer)
    → ((str : List ℕ) (pos : ℕ) → k str pos ≡ l str pos)
    → (w >>= k) ≡ (w >>= l)
>>=_cong (more str pos) k l h = h str pos
>>=_cong (full str) k l h = refl
>>=_cong fault k l h = refl

pub >>=_assoc :
    (w : Writer) (k l : List ℕ → ℕ → Writer)
    → (w >>= λ str pos. (k str pos >>= l)) ≡ (w >>= k >>= l)
>>=_assoc (more str pos) k l = refl
>>=_assoc (full str) k l = refl
>>=_assoc fault k l = refl

pub put_all-append :
    (len : ℕ) (xs ys str : List ℕ) (pos : ℕ)
    → put_all len (xs ++ ys) str pos ≡ (put_all len xs str pos >>= put_all len ys)
unfolding put_all
put_all-append len [] ys str pos = refl
put_all-append len (x ∷ xs) ys str pos =
    >>=_cong (put len x str pos) _ _ (put_all-append len xs ys) ∙ >>=_assoc (put len x str pos) _ _

set-overlay :
    (xs str : List ℕ) (c : ℕ)
    → length xs < length str
    → set (overlay xs str) (length xs) c ≡ overlay (xs ++ (c ∷ [])) str
set-overlay [] [] c h = absurd (omega arith)
set-overlay [] (s ∷ str) c h = refl
set-overlay (x ∷ xs) [] c h = absurd (omega arith)
set-overlay (x ∷ xs) (s ∷ str) c h = ap (λ r. x ∷ r) (set-overlay xs str c (omega arith))

pub length-overlay :
    (xs str : List ℕ) → length xs ≤ length str → length (overlay xs str) ≡ length str
length-overlay [] str h = refl
length-overlay (x ∷ xs) [] h = absurd (omega arith)
length-overlay (x ∷ xs) (s ∷ str) h = ap suc (length-overlay xs str (omega arith))

-- A store just behind what is written extends it.
pub store-overlay :
    (xs str : List ℕ) (c : ℕ)
    → length xs < length str
    → store (overlay xs str) (length xs) c ≡ some (overlay (xs ++ (c ∷ [])) str)
store-overlay xs str c h = rw (inside, set-overlay xs str c h)
  where
    inside : ltb (length xs) (length (overlay xs str)) ≡ true
    inside = ground (arith, length-overlay xs str)

set-overlay_last :
    (xs str : List ℕ) (c d : ℕ)
    → length xs < length str
    → set (overlay (xs ++ (c ∷ [])) str) (length xs) d ≡ overlay (xs ++ (d ∷ [])) str
set-overlay_last [] [] c d h = absurd (omega arith)
set-overlay_last [] (s ∷ str) c d h = refl
set-overlay_last (x ∷ xs) [] c d h = absurd (omega arith)
set-overlay_last (x ∷ xs) (s ∷ str) c d h =
    ap (λ r. x ∷ r) (set-overlay_last xs str c d (omega arith))

-- A store onto the last character that was written replaces it.
pub store-overlay_last :
    (xs str : List ℕ) (c d : ℕ)
    → length xs < length str
    → store (overlay (xs ++ (c ∷ [])) str) (length xs) d ≡ some (overlay (xs ++ (d ∷ [])) str)
store-overlay_last xs str c d h = rw (inside, set-overlay_last xs str c d h)
  where
    inside : ltb (length xs) (length (overlay (xs ++ (c ∷ [])) str)) ≡ true
    inside = ground (arith, length-overlay (xs ++ (c ∷ [])) str, length-append xs (c ∷ []))

-- What a writer with room for `len` has done once it was given all of `xs`.
abbrev pub written : ℕ → List ℕ → List ℕ → Writer
written len xs str =
    if leb (length xs) len
    then more (overlay xs str) (length xs)
    else full (overlay (take len xs) str)

put-overlay :
    (len c : ℕ) (xs str : List ℕ)
    → length xs < len
    → len ≤ length str
    → put len c (overlay xs str) (length xs) ≡ more (overlay (xs ++ (c ∷ [])) str) (length xs + 1)
unfolding put
put-overlay len c xs str room fits =
    rw (==-ne (length xs) len (omega arith), store-overlay xs str c (omega arith))

written-full :
    (len c : ℕ) (cs xs str : List ℕ)
    → length xs ≡ len
    → written len (xs ++ (c ∷ cs)) str ≡ full (overlay xs str)
written-full len c cs xs str e = rw (← e, longer, take-append xs (c ∷ cs))
  where
    longer : leb (length (xs ++ (c ∷ cs))) (length xs) ≡ false
    longer = lt→leb _ _ (omega (arith, length-append xs (c ∷ cs)))

put-full : (len c : ℕ) (str : List ℕ) (pos : ℕ) → pos ≡ len → put len c str pos ≡ full str
unfolding put
put-full len c str pos e = rw (e, ==-self len)

-- Writing on behind `xs` gives what writing the whole text gives.
pub put_all-overlay :
    (len : ℕ) (cs xs str : List ℕ)
    → length xs ≤ len
    → len ≤ length str
    → put_all len cs (overlay xs str) (length xs) ≡ written len (xs ++ cs) str
unfolding put_all
put_all-overlay len [] xs str room fits = rw (append-nil, le→leb (length xs) len room)
put_all-overlay len (c ∷ cs) xs str room fits = elim (Bool-cases (length xs == len)) [
  | inl e ↦
      let at_end = ==→eq (length xs) len e in
      ap (λ w. w >>= put_all len cs) (put-full len c (overlay xs str) (length xs) at_end)
      ∙ sym (written-full len c cs xs str at_end)
  | inr e ↦
      let rest =
        put_all-overlay len cs (xs ++ (c ∷ [])) str
          (omega (arith, length-append xs (c ∷ []), ne_of_== _ _ e)) fits in
      ap (λ w. w >>= put_all len cs) (put-overlay len c xs str (omega (arith, ne_of_== _ _ e)) fits)
      ∙ ap (put_all len cs (overlay (xs ++ (c ∷ [])) str))
          (omega (arith, length-append xs (c ∷ [])))
      ∙ rest
      ∙ ap (λ t. written len t str) (append_assoc xs (c ∷ []) cs)
]

-- What a printer returns: NULL, or its argument `str` with these characters in it.
pub data Printed : Type 0 where
  null : Printed
  text : List ℕ → Printed
  fault : Printed

-- `return str`
abbrev pub finish : Writer → Printed
finish (more str pos) = text str
finish (full str) = text str
finish Writer.fault = Printed.fault

-- The array holds as much of the text as there is room for, and is unchanged behind it.
pub finish-put_all :
    (len : ℕ) (cs str : List ℕ)
    → len ≤ length str
    → finish (put_all len cs str 0) ≡ text (overlay (take len cs) str)
finish-put_all len cs str fits =
    ap finish (put_all-overlay len cs [] str (omega arith) fits) ∙ shown (leb (length cs) len) refl
  where
    shown :
        (b : Bool)
        → leb (length cs) len ≡ b
        → finish (written len cs str) ≡ text (overlay (take len cs) str)
    shown true e = rw (e, take-all len cs (leb→le _ _ e))
    shown false e = rw e

-- `k` writes the text `cs`, wherever it starts and however much room there is.
abbrev pub Prints : ℕ → (List ℕ → ℕ → Writer) → List ℕ → Type 0
Prints len k cs = (str : List ℕ) (pos : ℕ) → k str pos ≡ put_all len cs str pos

pub put-Prints : (len c : ℕ) → Prints len (put len c) (c ∷ [])
unfolding put_all
put-Prints len c str pos = last (put len c str pos)
  where
    last : (w : Writer) → w ≡ (w >>= put_all len [])
    last (more s p) = refl
    last (full s) = refl
    last Writer.fault = refl

pub Prints->>= :
    (len : ℕ) (xs ys : List ℕ) (k l : List ℕ → ℕ → Writer)
    → Prints len k xs
    → Prints len l ys
    → Prints len (λ str pos. k str pos >>= l) (xs ++ ys)
Prints->>= len xs ys k l first second str pos =
    >>=_cong (k str pos) l (put_all len ys) second
    ∙ ap (λ w. w >>= put_all len ys) (first str pos)
    ∙ sym (put_all-append len xs ys str pos)
