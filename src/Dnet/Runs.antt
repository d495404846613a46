-- ===== src/Dnet/Runs.antt =====
-- Runs of dnet_ntop.c, and its theorems at concrete addresses.
use lan_scan.Base.{ℕ, ◌+◌, ◌*◌, ◌≡◌, List, [], ◌∷◌, arith, replicate, refl, ◌++◌, take}
use lan_scan.Dnet.{DnNaddr, dnet_ntop1}
use lan_scan.Dnet.Laws.{dnet_text, dnet_ntop1-text, dnet_ntop1-whole}
use lan_scan.Text.Buffer.{overlay, text}
use lan_scan.Text.Codes.{codes}
use lan_scan.Text.Decimal.{decimal, decimal_digits}

-- Area 1, node 234.
abbrev address : DnNaddr
address = record { a_len = 2; a_addr = 0xea ∷ 4 ∷ 0 ∷ [] }

abbrev array : List ℕ
array = replicate 12 b'x'

text_of_address : dnet_text 0x04ea ≡ codes "1.234" ++ (0 ∷ [])
unfolding dnet_text decimal decimal_digits
text_of_address = refl

dnet_ntop1-text_example :
    dnet_ntop1 address array 4 ≡ text (overlay (take 4 (dnet_text (0xea + 4 * 256))) array)
dnet_ntop1-text_example =
    dnet_ntop1-text address 0xea 4 4 (0 ∷ []) array refl refl (omega arith) (omega arith)
      (omega arith)

dnet_ntop1-whole_example :
    dnet_ntop1 address array 12 ≡ text (overlay (dnet_text (0xea + 4 * 256)) array)
dnet_ntop1-whole_example =
    dnet_ntop1-whole address 0xea 4 12 (0 ∷ []) array refl refl (omega arith) (omega arith)
      (omega arith) (omega arith)
