-- ===== src/Mpls/Runs.antt =====
-- Runs of mpls_ntop.c, and its theorem at a concrete stack.
use lan_scan.Base.{
  ℕ, ◌≡◌, List, [], ◌∷◌, ◌++◌, arith, replicate, refl, word32, some, ntohl, pos, ltb, if◌then◌else◌,
  length, neg,
}
use lan_scan.Mpls.{label, is_bottom, mpls_ntop1}
use lan_scan.Mpls.Laws.{stack_text, mpls_ntop1-answer}
use lan_scan.Sys.Linux.{linux}
use lan_scan.Text.Buffer.{overlay, text, null}
use lan_scan.Text.Codes.{codes}
use lan_scan.Text.Decimal.{decimal, decimal_digits}

-- Label 100, then label 17 at the bottom.
abbrev stack : List ℕ
stack = word32 0 6 0x40 0 ∷ word32 0 1 0x11 0 ∷ []

abbrev array : List ℕ
array = replicate 10 b'x'

stack_text_example : stack_text linux stack ≡ some (codes "100/17")
unfolding stack_text label is_bottom ntohl decimal decimal_digits
stack_text_example = refl

mpls_ntop1-answer_example : mpls_ntop1 linux stack array 8 ≡ (
    if ltb (length (codes "100/17")) 8
    then (pos 0, text (overlay (codes "100/17" ++ (0 ∷ [])) array))
    else (neg (pos 7), null))
mpls_ntop1-answer_example =
    mpls_ntop1-answer linux stack (codes "100/17") array 8 stack_text_example (omega arith)
