-- ===== src/Ipx/Runs.antt =====
-- Runs of ipx_ntop.c, and its theorem at a concrete address.
use lan_scan.Base.{ℕ, ◌≡◌, List, [], ◌∷◌, ◌++◌, arith, replicate, refl, take, word32}
use lan_scan.Ipx.{IpxAddr, ipx_ntop1}
use lan_scan.Text.Hex.{byte_text}
use lan_scan.Ipx.Laws.{bytes_text, ipx_text, ipx_ntop1-text}
use lan_scan.Text.Buffer.{overlay, text}
use lan_scan.Text.Codes.{codes}

abbrev node : List ℕ
node = 0x00 ∷ 0xd0 ∷ 0xb7 ∷ 1 ∷ 2 ∷ 0xff ∷ []

abbrev address : IpxAddr
address = record { ipx_net = word32 0x12 0x34 0xab 0xcd; ipx_node = node }

abbrev array : List ℕ
array = replicate 24 b'x'

text_of_address :
    ipx_text (0x12 ∷ 0x34 ∷ 0xab ∷ 0xcd ∷ []) node ≡ codes "1234ABCD.00D0B70102FF" ++ (0 ∷ [])
unfolding ipx_text bytes_text byte_text
text_of_address = refl

ipx_ntop1-text_example :
    ipx_ntop1 address array 10
    ≡ text (overlay (take 10 (ipx_text (0x12 ∷ 0x34 ∷ 0xab ∷ 0xcd ∷ []) node)) array)
ipx_ntop1-text_example =
    ipx_ntop1-text address 0x12 0x34 0xab 0xcd 10 array refl (omega arith) (omega arith)
