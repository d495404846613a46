-- ===== src/Dnet/Digits.antt =====
-- The digits that `do_digit` of android/src/main/c/dnet_ntop.c leaves are the decimal digits.
use native.Mathlib.Decide.{dec_lt}
use lan_scan.Base.{ℕ, ◌≤◌, ◌<◌, ◌≡◌, List, arith}
use lan_scan.Text.Buffer.{put_all, put}
use lan_scan.Text.Decimal.{decimal}
use lan_scan.Dnet.{area_digits, node_digits, writer}

module _ (len n : ℕ) (str : List ℕ) (pos : ℕ) where
  pub area_digits-decimal :
      n < 64 → writer (area_digits len n str pos) ≡ put_all len (decimal n) str pos
  unfolding area_digits writer put_all put decimal
  area_digits-decimal h = ground arith

  node_one : n < 10 → writer (node_digits len n str pos) ≡ put_all len (decimal n) str pos
  unfolding node_digits writer put_all put decimal
  node_one h = ground arith

  node_two : 10 ≤ n → n < 100 → writer (node_digits len n str pos) ≡ put_all len (decimal n) str pos
  unfolding node_digits writer put_all put decimal
  node_two l h = ground arith

  node_three :
      100 ≤ n → n < 1000 → writer (node_digits len n str pos) ≡ put_all len (decimal n) str pos
  unfolding node_digits writer put_all put decimal
  node_three l h = ground arith

  node_four :
      1000 ≤ n → n < 1024 → writer (node_digits len n str pos) ≡ put_all len (decimal n) str pos
  unfolding node_digits writer put_all put decimal
  node_four l h = ground arith

  pub node_digits-decimal :
      n < 1024 → writer (node_digits len n str pos) ≡ put_all len (decimal n) str pos
  node_digits-decimal h = elim (dec_lt n 10) [
    | yes a ↦ node_one a
    | no a ↦ elim (dec_lt n 100) [
      | yes b ↦ node_two (omega arith) b
      | no b ↦ elim (dec_lt n 1000) [
        | yes c ↦ node_three (omega arith) c
        | no c ↦ node_four (omega arith) h
      ]
    ]
  ]
