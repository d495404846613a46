-- ===== src/Text/Words.antt =====
-- Words of printable characters.
use lan_scan.Base.{ℕ, ◌<◌, ◌≤◌, ◌≡◌, arith, ltb, ◌&&◌, Bool, true, false, List, [], ◌∷◌, All}
use lan_scan.Text.Codes.{both}

-- A printable character of ASCII that is no space, and one that may be a space.
abbrev pub IsGraphic : ℕ → Type 0
IsGraphic c = (32 < c) × (c < 127)

abbrev pub IsPrintable : ℕ → Type 0
IsPrintable c = (32 ≤ c) × (c < 127)

-- A text of at least one character and without spaces.
pub data IsWord : List ℕ → Type 0 where
  word : (c : ℕ) (cs : List ℕ) → IsGraphic c → All IsGraphic cs → IsWord (c ∷ cs)

abbrev all_graphic : List ℕ → Bool
all_graphic [] = true
all_graphic (c ∷ cs) = (ltb 32 c && ltb c 127) && all_graphic cs

-- The test whether a text is a word.
abbrev pub is_word : List ℕ → Bool
is_word [] = false
is_word (c ∷ cs) = (ltb 32 c && ltb c 127) && all_graphic cs

IsGraphic-of_test : (c : ℕ) → (ltb 32 c && ltb c 127) ≡ true → IsGraphic c
IsGraphic-of_test c h = ground arith

all_graphic_sound : (cs : List ℕ) → all_graphic cs ≡ true → All IsGraphic cs
all_graphic_sound [] h = tt
all_graphic_sound (c ∷ cs) h =
    let (one, more) = both (ltb 32 c && ltb c 127) (all_graphic cs) h in
    (IsGraphic-of_test c one, all_graphic_sound cs more)

pub is_word_sound : (w : List ℕ) → is_word w ≡ true → IsWord w
is_word_sound [] h = absurd (cc h)
is_word_sound (c ∷ cs) h =
    let (one, more) = both (ltb 32 c && ltb c 127) (all_graphic cs) h in
    word c cs (IsGraphic-of_test c one) (all_graphic_sound cs more)

-- Words and gaps are printable.
graphic-IsPrintable : (cs : List ℕ) → All IsGraphic cs → All IsPrintable cs
graphic-IsPrintable [] h = tt
graphic-IsPrintable (c ∷ cs) h = ((omega (arith, h.0.0), h.0.1), graphic-IsPrintable cs h.1)

pub word-IsPrintable : (w : List ℕ) → IsWord w → All IsPrintable w
word-IsPrintable _ (word c cs h hs) = ((omega (arith, h.0), h.1), graphic-IsPrintable cs hs)
