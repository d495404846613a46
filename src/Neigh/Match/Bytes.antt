-- ===== src/Neigh/Match/Bytes.antt =====
-- The first bits of an address as its bytes lie in memory, for `inet_addr_match` of android/src/main/c/ipneigh.c.
use lan_scan.Base.{
  ℕ, ◌+◌, ◌-◌, ◌/◌, ◌%◌, ◌^◌, ◌≤◌, ◌<◌, ◌≡◌, refl, sym, ap, ◌∙◌, arith, ◌==◌, ==→eq, Bool, true,
  false, ◌&&◌, List, [], ◌∷◌, ntohl,
}
use lan_scan.Base.Bits.{
  masked, up, mask_byte, mask_byte-small, masked-split, masked-byte, all_below-lt,
}
use lan_scan.Neigh.Match.{prefix_mask}

-- The bytes of the words as they lie in memory.
abbrev pub bytes_of : List ℕ → List ℕ
bytes_of [] = []
bytes_of (w ∷ ws) =
    w % 2 ^ 8 ∷ w / 2 ^ 8 % 2 ^ 8 ∷ w / 2 ^ 16 % 2 ^ 8 ∷ w / 2 ^ 24 % 2 ^ 8 ∷ bytes_of ws

-- The first `bits` bits of the bytes are the same, the upper bits of a byte first.
abbrev pub same_prefix : (bits : ℕ) → List ℕ → List ℕ → Bool
same_prefix bits [] ys = true
same_prefix bits (x ∷ xs) [] = true
same_prefix bits (x ∷ xs) (y ∷ ys) =
    (x / 2 ^ (8 - bits) == y / 2 ^ (8 - bits)) && same_prefix (bits - 8) xs ys

-- The bytes of the mask.
prefix_mask-bytes :
    (bits : ℕ)
    → bits < 32
    → prefix_mask bits
      ≡ mask_byte bits
        + up 8 (mask_byte (bits - 8) + up 8 (mask_byte (bits - 16) + up 8 (mask_byte (bits - 24))))
unfolding prefix_mask ntohl
prefix_mask-bytes bits h = ==→eq _ _ (
    all_below-lt 32
      (λ b.
        prefix_mask b
        == mask_byte b
          + up 8 (mask_byte (b - 8) + up 8 (mask_byte (b - 16) + up 8 (mask_byte (b - 24)))))
      bits refl h)

word_bytes :
    (w : ℕ)
    → w < 2 ^ 32
    → w
      ≡ w % 2 ^ 8 + up 8 (w / 2 ^ 8 % 2 ^ 8 + up 8 (w / 2 ^ 16 % 2 ^ 8 + up 8 (w / 2 ^ 24 % 2 ^ 8)))
word_bytes w h = omega arith

abbrev word : ℕ → ℕ
word w =
    w % 2 ^ 8 + up 8 (w / 2 ^ 8 % 2 ^ 8 + up 8 (w / 2 ^ 16 % 2 ^ 8 + up 8 (w / 2 ^ 24 % 2 ^ 8)))

and_true : (b : Bool) → (b && true) ≡ b
and_true true = refl
and_true false = refl

masked-bytes :
    (bits a0 a1 a2 a3 b0 b1 b2 b3 : ℕ)
    → bits < 32
    → a0 < 256
    → a1 < 256
    → a2 < 256
    → a3 < 256
    → b0 < 256
    → b1 < 256
    → b2 < 256
    → b3 < 256
    → masked
        (a0 + up 8 (a1 + up 8 (a2 + up 8 a3)))
        (b0 + up 8 (b1 + up 8 (b2 + up 8 b3)))
        (prefix_mask bits)
      ≡ ((a0 / 2 ^ (8 - bits) == b0 / 2 ^ (8 - bits))
          && ((a1 / 2 ^ (8 - (bits - 8)) == b1 / 2 ^ (8 - (bits - 8)))
              && ((a2 / 2 ^ (8 - (bits - 16)) == b2 / 2 ^ (8 - (bits - 16)))
                  && (a3 / 2 ^ (8 - (bits - 24)) == b3 / 2 ^ (8 - (bits - 24))))))
masked-bytes bits a0 a1 a2 a3 b0 b1 b2 b3 h ha0 ha1 ha2 ha3 hb0 hb1 hb2 hb3 =
    rw
      (
        prefix_mask-bytes bits h,
        masked-split 8 a0 b0 (mask_byte bits) _ _ _ ha0 hb0 (mask_byte-small bits),
        masked-split 8 a1 b1 (mask_byte (bits - 8)) _ _ _ ha1 hb1 (mask_byte-small (bits - 8)),
        masked-split 8 a2 b2 (mask_byte (bits - 16)) _ _ _ ha2 hb2 (mask_byte-small (bits - 16)),
        masked-byte bits a0 b0 ha0 hb0,
        masked-byte (bits - 8) a1 b1 ha1 hb1,
        masked-byte (bits - 16) a2 b2 ha2 hb2,
        masked-byte (bits - 24) a3 b3 ha3 hb3,
      )
      refl

pub same_prefix-zero : (ws vs : List ℕ) → same_prefix 0 (bytes_of ws) (bytes_of vs) ≡ true
same_prefix-zero [] vs = refl
same_prefix-zero (w ∷ ws) [] = refl
same_prefix-zero (w ∷ ws) (v ∷ vs) =
    rw
      (
        no_bits (w % 2 ^ 8) (omega arith),
        no_bits (w / 2 ^ 8 % 2 ^ 8) (omega arith),
        no_bits (w / 2 ^ 16 % 2 ^ 8) (omega arith),
        no_bits (w / 2 ^ 24 % 2 ^ 8) (omega arith),
        no_bits (v % 2 ^ 8) (omega arith),
        no_bits (v / 2 ^ 8 % 2 ^ 8) (omega arith),
        no_bits (v / 2 ^ 16 % 2 ^ 8) (omega arith),
        no_bits (v / 2 ^ 24 % 2 ^ 8) (omega arith),
      )
      (same_prefix-zero ws vs)
  where
    no_bits : (x : ℕ) → x < 256 → x / 2 ^ (8 - 0) ≡ 0
    no_bits x h = omega arith

whole_word :
    (w v : ℕ) (r : Bool)
    → w < 2 ^ 32
    → v < 2 ^ 32
    → ((w % 2 ^ 8 / 2 ^ 0 == v % 2 ^ 8 / 2 ^ 0)
        && ((w / 2 ^ 8 % 2 ^ 8 / 2 ^ 0 == v / 2 ^ 8 % 2 ^ 8 / 2 ^ 0)
            && ((w / 2 ^ 16 % 2 ^ 8 / 2 ^ 0 == v / 2 ^ 16 % 2 ^ 8 / 2 ^ 0)
                && ((w / 2 ^ 24 % 2 ^ 8 / 2 ^ 0 == v / 2 ^ 24 % 2 ^ 8 / 2 ^ 0) && r))))
      ≡ ((w == v) && r)
whole_word w v true hw hv = ground arith
whole_word w v false hw hv = ground arith

-- A word that the prefix holds whole.
pub same_prefix-word :
    (bits w v : ℕ) (ws vs : List ℕ)
    → w < 2 ^ 32
    → v < 2 ^ 32
    → same_prefix (32 + bits) (bytes_of (w ∷ ws)) (bytes_of (v ∷ vs))
      ≡ ((w == v) && same_prefix bits (bytes_of ws) (bytes_of vs))
same_prefix-word bits w v ws vs hw hv =
    rw
      (
        all_bits (32 + bits) (omega arith),
        all_bits (32 + bits - 8) (omega arith),
        all_bits (32 + bits - 8 - 8) (omega arith),
        all_bits (32 + bits - 8 - 8 - 8) (omega arith),
        rest,
      )
      (whole_word w v (same_prefix bits (bytes_of ws) (bytes_of vs)) hw hv)
  where
    all_bits : (b : ℕ) → 8 ≤ b → 8 - b ≡ 0
    all_bits b h = omega arith

    rest : 32 + bits - 8 - 8 - 8 - 8 ≡ bits
    rest = omega arith

-- The word that the prefix ends in.
pub same_prefix-masked :
    (bits w v : ℕ) (ws vs : List ℕ)
    → bits < 32
    → w < 2 ^ 32
    → v < 2 ^ 32
    → same_prefix bits (bytes_of (w ∷ ws)) (bytes_of (v ∷ vs)) ≡ masked w v (prefix_mask bits)
same_prefix-masked bits w v ws vs h hw hv =
    rw
      (
        all_used,
        third,
        second,
        same_prefix-zero ws vs,
        and_true (
            w / 2 ^ 24 % 2 ^ 8 / 2 ^ (8 - (bits - 24))
            == v / 2 ^ 24 % 2 ^ 8 / 2 ^ (8 - (bits - 24))),
      )
      (sym (
        ap (λ x. masked x v (prefix_mask bits)) (word_bytes w hw)
        ∙ ap (λ y. masked (word w) y (prefix_mask bits)) (word_bytes v hv)
        ∙ masked-bytes bits (w % 2 ^ 8) (w / 2 ^ 8 % 2 ^ 8) (w / 2 ^ 16 % 2 ^ 8)
            (w / 2 ^ 24 % 2 ^ 8) (v % 2 ^ 8) (v / 2 ^ 8 % 2 ^ 8) (v / 2 ^ 16 % 2 ^ 8)
            (v / 2 ^ 24 % 2 ^ 8) h (omega arith) (omega arith) (omega arith) (omega arith)
            (omega arith) (omega arith) (omega arith) (omega arith)))
  where
    all_used : bits - 8 - 8 - 8 - 8 ≡ 0
    all_used = omega arith

    third : bits - 8 - 8 - 8 ≡ bits - 24
    third = omega arith

    second : bits - 8 - 8 ≡ bits - 16
    second = omega arith
