-- ===== src/Text/Codes.antt =====
-- Text literals as the characters of C strings.
use Prim.Native.Char.{code}
use Prim.Native.String.{String}
use lan_scan.Base.{
  ℕ, ◌≡◌, refl, ap, ◌∙◌, arith, ◌==◌, ==→eq, ◌&&◌, Bool, true, false, List, [], ◌∷◌,
}

abbrev pub codes : String → List ℕ
codes String.[] = []
codes (String.◌∷◌ c s) = code c ∷ codes s

abbrev pub same_text : List ℕ → List ℕ → Bool
same_text [] [] = true
same_text [] (y ∷ ys) = false
same_text (x ∷ xs) [] = false
same_text (x ∷ xs) (y ∷ ys) = (x == y) && same_text xs ys

pub both : (a b : Bool) → (a && b) ≡ true → (a ≡ true) × (b ≡ true)
both true true h = (refl, refl)
both true false h = ground arith
both false b h = ground arith

pub same_text→eq : (xs ys : List ℕ) → same_text xs ys ≡ true → xs ≡ ys
same_text→eq [] [] h = refl
same_text→eq [] (y ∷ ys) h = ground arith
same_text→eq (x ∷ xs) [] h = ground arith
same_text→eq (x ∷ xs) (y ∷ ys) h =
    let (e, rest) = both (x == y) (same_text xs ys) h in
    ap (λ z. z ∷ xs) (==→eq x y e) ∙ ap (λ zs. y ∷ zs) (same_text→eq xs ys rest)
