-- ===== src/Dnet/Laws.antt =====
-- What android/src/main/c/dnet_ntop.c prints, against a plain description of the text.
use lan_scan.Base.{
  ℕ, ◌+◌, ◌*◌, ◌/◌, ◌%◌, ◌^◌, ◌<◌, ◌≤◌, ◌≡◌, List, [], ◌∷◌, ◌++◌, take, length, arith, ◌∙◌, ap,
  ==→eq, ◌==◌, Bool-cases, length-append, take-all, inl, inr,
}
use lan_scan.Text.Buffer.{overlay, text, finish, finish-put_all, put-Prints, Prints->>=}
use lan_scan.Text.Decimal.{decimal, length-decimal}
use lan_scan.Dnet.{DnNaddr, dnet_ntop1, dn_ntohs, print_address}
use lan_scan.Dnet.Digits.{area_digits-decimal, node_digits-decimal}

-- A 16-bit DECnet address as text: the area in the upper 6 bits, a dot, the node in the lower 10.
unfoldable pub dnet_text : ℕ → List ℕ
dnet_text word = decimal (word / 2 ^ 10) ++ (b'.' ∷ []) ++ decimal (word % 2 ^ 10) ++ (0 ∷ [])

print_address-text :
    (len area addr : ℕ) (str : List ℕ)
    → area < 64
    → addr < 1024
    → len ≤ length str
    → print_address len area addr str
      ≡ text (overlay (take len (decimal area ++ (b'.' ∷ []) ++ decimal addr ++ (0 ∷ []))) str)
unfolding print_address
print_address-text len area addr str ha hn fits =
    ap finish (
      Prints->>= len _ _ _ _
        (Prints->>= len _ _ _ _
          (Prints->>= len _ _ _ _ (λ s p. area_digits-decimal len area s p ha)
            (put-Prints len b'.'))
          (λ s p. node_digits-decimal len addr s p hn))
        (put-Prints len 0) str 0)
    ∙ finish-put_all len _ str fits

dn_ntohs-word : (a b : ℕ) → a < 256 → b < 256 → dn_ntohs (a + b * 256) ≡ a + b * 256
unfolding dn_ntohs
dn_ntohs-word a b ha hb = omega arith

-- With a two-byte address and room for `len` characters inside the array, `dnet_ntop1` stays inside
-- and writes the first `len` characters of the text with its NUL; whatever lies behind is unchanged.
-- Where `len` is too small the text is cut and no NUL is written.
pub dnet_ntop1-text :
    (dna : DnNaddr) (a b len : ℕ) (rest str : List ℕ)
    → dna.a_len ≡ 2
    → dna.a_addr ≡ a ∷ b ∷ rest
    → a < 256
    → b < 256
    → len ≤ length str
    → dnet_ntop1 dna str len ≡ text (overlay (take len (dnet_text (a + b * 256))) str)
unfolding dnet_ntop1 dnet_text
dnet_ntop1-text dna a b len rest str two bytes ha hb fits =
    rw (bytes, two, dn_ntohs-word a b ha hb)
      (elim (Bool-cases (len == 0)) [
        | inl empty ↦ rw (empty, ==→eq len 0 empty)
        | inr some_room ↦ rw some_room (
            print_address-text len ((a + b * 256) / 2 ^ 10) ((a + b * 256) % 2 ^ 10) str
              (omega arith) (omega arith) fits)
      ])

dnet_text-fits : (word : ℕ) → word < 2 ^ 16 → length (dnet_text word) ≤ 8
unfolding dnet_text
dnet_text-fits word h = simp length-append (
    omega (
      arith,
      length-decimal 1 (word / 2 ^ 10) (omega arith),
      length-decimal 3 (word % 2 ^ 10) (omega arith),
    ))

-- With a two-byte address and room for at least 8 characters inside the array nothing is cut: the
-- whole text and its NUL are written, and whatever lies behind is unchanged.
pub dnet_ntop1-whole :
    (dna : DnNaddr) (a b len : ℕ) (rest str : List ℕ)
    → dna.a_len ≡ 2
    → dna.a_addr ≡ a ∷ b ∷ rest
    → a < 256
    → b < 256
    → len ≤ length str
    → 8 ≤ len
    → dnet_ntop1 dna str len ≡ text (overlay (dnet_text (a + b * 256)) str)
dnet_ntop1-whole dna a b len rest str two bytes ha hb fits room =
    dnet_ntop1-text dna a b len rest str two bytes ha hb fits
    ∙ ap (λ t. text (overlay t str))
        (take-all len _ (omega (arith, dnet_text-fits (a + b * 256) (omega arith))))
