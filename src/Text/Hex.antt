-- ===== src/Text/Hex.antt =====
-- Hexadecimal text in upper case, as a reader knows it.
use lan_scan.Base.{ℕ, zero, suc, ◌/◌, ◌%◌, List, [], ◌∷◌}
use lan_scan.Text.Codes.{codes}

abbrev pub hex_digits : List ℕ
hex_digits = codes "0123456789ABCDEF"

abbrev pub digit_in : List ℕ → ℕ → ℕ
digit_in [] d = 0
digit_in (c ∷ cs) zero = c
digit_in (c ∷ cs) (suc d) = digit_in cs d

-- The digit of a value below 16.
abbrev pub hex_digit : ℕ → ℕ
hex_digit d = digit_in hex_digits d

-- A byte as two digits.
unfoldable pub byte_text : ℕ → List ℕ
byte_text b = hex_digit (b / 16) ∷ hex_digit (b % 16) ∷ []
