-- ===== src/Neigh/Match.antt =====
-- `inet_addr_match` of android/src/main/c/ipneigh.c.
pub mod Bytes
pub mod Prefix
use lan_scan.Base.{
  ℕ, zero, suc, ◌+◌, ◌-◌, ◌*◌, ◌/◌, ◌%◌, ◌^◌, ◌==◌, if◌then◌else◌, Bool, true, false, List,
  get_elem?, bit_and, bit_xor, ℤ, pos, negsuc, ntohl,
}
use lan_scan.Memory.{Run, done, ◌>>=◌, checked}
use lan_scan.World.{InetPrefix}

-- `memcmp(a1, a2, words << 2) != 0`, from word `i` on.
pub words_differ : (words i : ℕ) → List ℕ → List ℕ → Run Bool
words_differ zero i a b = done false
words_differ (suc words) i a b = do
  w1 ← checked (get_elem? a i)
  w2 ← checked (get_elem? b i)
  rest ← words_differ words (i + 1) a b
  done (if w1 == w2 then rest else true)

-- `htonl((0xffffffff) << (0x20 - bits))`
pub prefix_mask : ℕ → ℕ
prefix_mask bits = ntohl (0xffffffff * 2 ^ (0x20 - bits) % 2 ^ 32)

-- The word that the prefix ends in.
pub partial_match : List ℕ → List ℕ → (words bits : ℕ) → Run ℤ
partial_match a b words bits = do
  w1 ← checked (get_elem? a words)
  w2 ← checked (get_elem? b words)
  done (if bit_and (bit_xor w1 w2) (prefix_mask bits) == 0 then pos 0 else pos 1)

-- `bits` is not negative; `>> 5` and `& 0x1f` are the quotient and the remainder by 32.
pub inet_addr_match : InetPrefix → InetPrefix → ℕ → Run ℤ
inet_addr_match a b bits =
    let words = bits / 2 ^ 5 in
    let left = bits % 2 ^ 5 in
    do
      differ ← words_differ words 0 a.words b.words
      (if differ
          then done (negsuc 0)
          else if left == 0
          then done (pos 0)
          else partial_match a.words b.words words left)
