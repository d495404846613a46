-- ===== src/Scanner/Listing/Words.antt =====
-- Texts of words with spaces between them, as LanDeviceScanner.kt splits them into lines and fields.
use lan_scan.Base.{
  ℕ, zero, suc, ◌≡◌, refl, ap, ◌∙◌, sym, arith, ==-ne, Bool, true, false, List, [], ◌∷◌, ◌++◌,
  append-nil, All, All-append, replicate,
}
use lan_scan.Text.Words.{IsGraphic, IsPrintable, IsWord, word, word-IsPrintable}
use lan_scan.Scanner.Listing.{add_front, read_lines, is_space, split_spaces}
use mathlib.Core.List.{map}

-- A word, and more of them with at least one space in front.
abbrev pub spaced : List ℕ → List (ℕ × List ℕ) → List ℕ
spaced w [] = w
spaced w ((k, v) ∷ rest) = w ++ (replicate (suc k) 32 ++ spaced v rest)

-- Puts a text in front of the first of some texts.
abbrev prepend : List ℕ → List (List ℕ) → List (List ℕ)
prepend [] fields = fields
prepend (c ∷ cs) fields = add_front c (prepend cs fields)

prepend_lem : (w f : List ℕ) (fs : List (List ℕ)) → prepend w (f ∷ fs) ≡ (w ++ f) ∷ fs
unfolding add_front
prepend_lem [] f fs = refl
prepend_lem (c ∷ cs) f fs = rw (prepend_lem cs f fs)

is_space-Graphic : (c : ℕ) → IsGraphic c → is_space c ≡ false
unfolding is_space
is_space-Graphic c h = ground arith

split-graphic :
    (cs rest : List ℕ)
    → All IsGraphic cs
    → split_spaces false (cs ++ rest) ≡ prepend cs (split_spaces false rest)
unfolding split_spaces
split-graphic [] rest h = refl
split-graphic (c ∷ cs) rest h = rw (is_space-Graphic c h.0, split-graphic cs rest h.1)

split-word :
    (behind : Bool) (w rest : List ℕ)
    → IsWord w
    → split_spaces behind (w ++ rest) ≡ prepend w (split_spaces false rest)
unfolding split_spaces
split-word behind _ rest (word c cs h hs) = rw (is_space-Graphic c h, split-graphic cs rest hs)

split-gap :
    (k : ℕ) (rest : List ℕ) → split_spaces true (replicate k 32 ++ rest) ≡ split_spaces true rest
unfolding split_spaces is_space
split-gap zero rest = refl
split-gap (suc k) rest = split-gap k rest

split-end : (behind : Bool) (w : List ℕ) → IsWord w → split_spaces behind w ≡ w ∷ []
unfolding split_spaces
split-end behind w h =
    ap (split_spaces behind) (sym (append-nil w))
    ∙ split-word behind w [] h
    ∙ prepend_lem w [] []
    ∙ ap (λ (t : List ℕ). t ∷ []) (append-nil w)

split-space : (rest : List ℕ) → split_spaces false (32 ∷ rest) ≡ [] ∷ split_spaces true rest
unfolding split_spaces is_space
split-space rest = refl

-- A spaced text is split into its words.
pub split-spaced :
    (behind : Bool) (w : List ℕ) (rest : List (ℕ × List ℕ))
    → IsWord w
    → All (λ (p : ℕ × List ℕ). IsWord p.1) rest
    → split_spaces behind (spaced w rest) ≡ w ∷ map (λ (p : ℕ × List ℕ). p.1) rest
split-spaced behind w [] h hs = split-end behind w h
split-spaced behind w ((k, v) ∷ rest) h hs =
    split-word behind w (replicate (suc k) 32 ++ spaced v rest) h
    ∙ ap (prepend w) (
        split-space (replicate k 32 ++ spaced v rest)
        ∙ ap (λ (t : List (List ℕ)). [] ∷ t)
            (split-gap k (spaced v rest) ∙ split-spaced true v rest hs.0 hs.1))
    ∙ prepend_lem w [] (v ∷ map (λ (p : ℕ × List ℕ). p.1) rest)
    ∙ ap (λ (t : List ℕ). t ∷ v ∷ map (λ (p : ℕ × List ℕ). p.1) rest) (append-nil w)

gap-IsPrintable : (k : ℕ) → All IsPrintable (replicate k 32)
gap-IsPrintable zero = tt
gap-IsPrintable (suc k) = (omega arith, gap-IsPrintable k)

pub spaced-IsPrintable :
    (w : List ℕ) (rest : List (ℕ × List ℕ))
    → IsWord w
    → All (λ (p : ℕ × List ℕ). IsWord p.1) rest
    → All IsPrintable (spaced w rest)
spaced-IsPrintable w [] h hs = word-IsPrintable w h
spaced-IsPrintable w ((k, v) ∷ rest) h hs = All-append IsPrintable w _ (word-IsPrintable w h) (
    All-append IsPrintable (replicate (suc k) 32) _ (gap-IsPrintable (suc k))
      (spaced-IsPrintable v rest hs.0 hs.1))

-- The text up to the end of a line is read as that line.
read-rest :
    (t rest : List ℕ)
    → All IsPrintable t
    → read_lines false (t ++ (10 ∷ rest)) ≡ prepend t ([] ∷ read_lines false rest)
unfolding read_lines
read-rest [] rest h = refl
read-rest (c ∷ cs) rest h =
    rw (==-ne c 10 (omega (arith, h.0)), ==-ne c 13 (omega (arith, h.0)), read-rest cs rest h.1)

pub read-line :
    (t rest : List ℕ)
    → All IsPrintable t
    → read_lines false (t ++ (10 ∷ rest)) ≡ t ∷ read_lines false rest
read-line t rest h =
    read-rest t rest h
    ∙ prepend_lem t [] (read_lines false rest)
    ∙ ap (λ (u : List ℕ). u ∷ read_lines false rest) (append-nil t)
