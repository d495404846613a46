-- ===== src/Ipx/Laws.antt =====
-- What android/src/main/c/ipx_ntop.c prints, against the bytes of the address in network order.
use lan_scan.Base.{
  ℕ, zero, suc, ◌+◌, ◌*◌, ◌/◌, ◌%◌, ◌^◌, ◌<◌, ◌≤◌, ◌≡◌, List, [], ◌∷◌, ◌++◌, take, length, arith,
  ◌∙◌, ap, ==→eq, ◌==◌, Bool-cases, inl, inr, refl, word32, ntohl-word32, All, true,
}
use native.Mathlib.Nat.{mod-lt}
use lan_scan.Base.Bits.{all_below, all_below-lt}
use lan_scan.Text.Hex.{hex_digit, byte_text}
use lan_scan.Text.Buffer.{
  overlay, text, finish, finish-put_all, put, put_all, Prints, put-Prints, Prints->>=, ◌>>=◌,
}
use lan_scan.Ipx.{IpxAddr, digit_char, do_digit, net_loop, node_loop, ipx_ntop1}

all_digits : all_below 16 (λ d. digit_char d == hex_digit d) ≡ true
unfolding digit_char
all_digits = refl

digit_char-hex : (d : ℕ) → d < 16 → digit_char d ≡ hex_digit d
digit_char-hex d h =
    ==→eq (digit_char d) (hex_digit d)
      (all_below-lt 16 (λ x. digit_char x == hex_digit x) d all_digits h)

unfoldable pub bytes_text : List ℕ → List ℕ
bytes_text [] = []
bytes_text (b ∷ bs) = byte_text b ++ bytes_text bs

-- The digits of a number from its digit `i - 1` down.
net_text : ℕ → ℕ → List ℕ
net_text net zero = []
net_text net (suc i) = (hex_digit (net / 2 ^ (i * 4) % 2 ^ 4) ∷ []) ++ net_text net i

do_digit-Prints :
    (len addr scale d : ℕ)
    → addr / 2 ^ (scale * 4) % 2 ^ 4 ≡ d
    → d < 16
    → Prints len (do_digit len addr scale) (hex_digit d ∷ [])
unfolding do_digit
do_digit-Prints len addr scale d e small str pos =
    rw (e, digit_char-hex d small) (put-Prints len (hex_digit d) str pos)

net_loop-Prints : (len net i : ℕ) → Prints len (net_loop len net i) (net_text net i)
unfolding net_loop net_text put_all
net_loop-Prints len net zero str pos = refl
net_loop-Prints len net (suc i) str pos =
    Prints->>= len (hex_digit (net / 2 ^ (i * 4) % 2 ^ 4) ∷ []) (net_text net i)
      (do_digit len net i) (net_loop len net i)
      (do_digit-Prints len net i _ refl (mod-lt _ (omega arith))) (net_loop-Prints len net i) str
      pos

node_loop-Prints :
    (len : ℕ) (node : List ℕ)
    → All (λ b. b < 256) node
    → Prints len (node_loop len node) (bytes_text node)
unfolding node_loop bytes_text byte_text put_all
node_loop-Prints len [] h str pos = refl
node_loop-Prints len (b ∷ node) h str pos =
    Prints->>= len (hex_digit (b / 16) ∷ hex_digit (b % 16) ∷ []) (bytes_text node)
      (λ s p. do_digit len b 1 s p >>= do_digit len b 0) (node_loop len node)
      (Prints->>= len (hex_digit (b / 16) ∷ []) (hex_digit (b % 16) ∷ []) (do_digit len b 1)
        (do_digit len b 0) (do_digit-Prints len b 1 (b / 16) (omega arith) (omega (arith, h.0)))
        (do_digit-Prints len b 0 (b % 16) (omega arith) (omega arith)))
      (node_loop-Prints len node h.1) str pos

module _ (a b c d : ℕ) (ha : a < 256) (hb : b < 256) (hc : c < 256) (hd : d < 256) where
  net_digits :
      let net = a * 2 ^ 24 + b * 2 ^ 16 + c * 2 ^ 8 + d in
      (net / 2 ^ 28 % 16 ≡ a / 16)
      × (net / 2 ^ 24 % 16 ≡ a % 16)
      × (net / 2 ^ 20 % 16 ≡ b / 16)
      × (net / 2 ^ 16 % 16 ≡ b % 16)
      × (net / 2 ^ 12 % 16 ≡ c / 16)
      × (net / 2 ^ 8 % 16 ≡ c % 16)
      × (net / 2 ^ 4 % 16 ≡ d / 16)
      × (net / 1 % 16 ≡ d % 16)
  net_digits = omega arith

  net_text-bytes :
      net_text (a * 2 ^ 24 + b * 2 ^ 16 + c * 2 ^ 8 + d) 8 ≡ bytes_text (a ∷ b ∷ c ∷ d ∷ [])
  unfolding net_text bytes_text byte_text
  net_text-bytes =
      let (e7, e6, e5, e4, e3, e2, e1, e0) = net_digits in cc (e7, e6, e5, e4, e3, e2, e1, e0)

-- An IPX address as text: the network and the node in hexadecimal, with a dot between them and the
-- NUL behind them.
unfoldable pub ipx_text : List ℕ → List ℕ → List ℕ
ipx_text net node = bytes_text net ++ (b'.' ∷ []) ++ bytes_text node ++ (0 ∷ [])

print-text :
    (len n : ℕ) (net node str : List ℕ)
    → net_text n 8 ≡ bytes_text net
    → All (λ b. b < 256) node
    → len ≤ length str
    → finish (net_loop len n 8 str 0 >>= put len b'.' >>= node_loop len node >>= put len 0)
      ≡ text (overlay (take len (ipx_text net node)) str)
unfolding ipx_text
print-text len n net node str e bytes fits =
    ap finish (
      Prints->>= len (bytes_text net ++ (b'.' ∷ []) ++ bytes_text node) (0 ∷ []) _ (put len 0)
        (Prints->>= len (bytes_text net ++ (b'.' ∷ [])) (bytes_text node) _ (node_loop len node)
          (Prints->>= len (bytes_text net) (b'.' ∷ []) (net_loop len n 8) (put len b'.')
            (λ s p. rw (← e) (net_loop-Prints len n 8 s p)) (put-Prints len b'.'))
          (node_loop-Prints len node bytes))
        (put-Prints len 0) str 0)
    ∙ finish-put_all len (ipx_text net node) str fits

-- For an address of bytes below 256 and room for `len` characters inside the array `ipx_ntop1`
-- stays inside, and writes the first `len` characters of the text of the address with its NUL: the
-- bytes of the network and of the node, each as two of the digits 0 to 9 and A to F, with a dot
-- between them. What lies behind is unchanged.
pub ipx_ntop1-text :
    (addr : IpxAddr) (a b c d len : ℕ) (str : List ℕ)
    → addr.ipx_net ≡ word32 a b c d
    → All (λ b. b < 256) (a ∷ b ∷ c ∷ d ∷ addr.ipx_node)
    → len ≤ length str
    → ipx_ntop1 addr str len
      ≡ text (overlay (take len (ipx_text (a ∷ b ∷ c ∷ d ∷ []) addr.ipx_node)) str)
unfolding ipx_ntop1 ipx_text
ipx_ntop1-text addr a b c d len str net bytes fits =
    rw (net, ntohl-word32 a b c d bytes.0 bytes.1.0 bytes.1.1.0 bytes.1.1.1.0)
      (elim (Bool-cases (len == 0)) [
        | inl empty ↦ rw (empty, ==→eq len 0 empty)
        | inr some_room ↦ rw some_room (
            print-text len _ (a ∷ b ∷ c ∷ d ∷ []) addr.ipx_node str
              (net_text-bytes a b c d bytes.0 bytes.1.0 bytes.1.1.0 bytes.1.1.1.0) bytes.1.1.1.1
              fits)
      ])
