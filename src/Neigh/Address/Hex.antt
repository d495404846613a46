-- ===== src/Neigh/Address/Hex.antt =====
-- The hexadecimal branch of `ll_addr_n2a` of android/src/main/c/ipneigh.c.
use lan_scan.Base.{
  ℕ, zero, suc, ◌+◌, ◌-◌, ◌≤◌, ◌<◌, ◌≡◌, ap, ◌∙◌, arith, ltb, lt→ltb, le-or-lt, ◌==◌, ◌&&◌, false,
  inl, inr, some, List, [], ◌∷◌, ◌++◌, length, length-append, append_assoc, append-nil, sym, take,
  All, All-append, ℤ,
}
use lan_scan.Libc.{Libc}
use lan_scan.Memory.{done, load8}
use lan_scan.Neigh.Address.{addr_loop, hex_addr, ll_addr_n2a, is_ip_tunnel, is_ip6_tunnel}
use lan_scan.Sys.{Sys}
use lan_scan.Text.Buffer.{overlay}
use lan_scan.Text.Decimal.{hex_byte}
use lan_scan.Text.Snprintf.{
  snprintf-cut, snprintf-again, cut, cut-all, cut-append, cut-filled, cstring-cut,
}

-- The bytes from the `i`th on, each behind a colon.
unfoldable pub colon_bytes : (at : ℕ → ℕ) (i n : ℕ) → List ℕ
colon_bytes at i zero = []
colon_bytes at i (suc n) = (b':' ∷ hex_byte (at i)) ++ colon_bytes at (i + 1) n

-- The text of an address of `n` bytes: two digits for each, and colons between them.
unfoldable pub hex_text : (at : ℕ → ℕ) (n : ℕ) → List ℕ
hex_text at n = hex_byte (at 0) ++ colon_bytes at 1 (n - 1)

module _ (m : List ℕ) (p alen blen : ℕ) (at : ℕ → ℕ) (str : List ℕ) (fits : blen ≤ length str) where
  abbrev Reads : Type 0
  Reads = (i : ℕ) → i < alen → load8 m (p + i) ≡ done (at i)

  colon_bytes-none : (i : ℕ) → alen ≤ i → colon_bytes at i (alen - i) ≡ []
  unfolding colon_bytes
  colon_bytes-none i h = rw (none_left i h)
    where
      none_left : (i : ℕ) → alen ≤ i → alen - i ≡ 0
      none_left i h = omega arith

  colon_bytes-some :
      (i : ℕ)
      → i < alen
      → colon_bytes at i (alen - i)
        ≡ (b':' ∷ hex_byte (at i)) ++ colon_bytes at (i + 1) (alen - (i + 1))
  unfolding colon_bytes
  colon_bytes-some i h = rw (one_left i h)
    where
      one_left : (i : ℕ) → i < alen → alen - i ≡ suc (alen - (i + 1))
      one_left i h = omega arith

  -- The array after the rounds that are left, when `xs` has been printed.
  addr_loop-text :
      (left i : ℕ) (xs : List ℕ)
      → Reads
      → alen ≤ left + i
      → addr_loop m p alen blen left i (length xs) (overlay (cut blen xs) str)
        ≡ done (overlay (cut blen (xs ++ colon_bytes at i (alen - i))) str)
  unfolding addr_loop
  addr_loop-text zero i xs reads enough = rw (colon_bytes-none i (omega arith), append-nil)
  addr_loop-text (suc left) i xs reads enough = elim (le-or-lt alen i) [
    | inl over ↦ rw (colon_bytes-none i over, append-nil, lt-no i over)
    | inr inside ↦ elim (le-or-lt blen (length xs)) [
      | inl full ↦ rw (
        lt→ltb i alen inside,
        lt-no' (length xs) full,
        cut-filled blen xs (colon_bytes at i (alen - i)) full,
      )
      | inr room ↦
          let cs = b':' ∷ hex_byte (at i) in
          rw
            (
              lt→ltb i alen inside,
              lt→ltb (length xs) blen room,
              reads i inside,
              cut-all blen xs room,
              snprintf-again xs cs str (blen - length xs) (omega arith) (omega arith),
              cut-append blen xs cs room,
            )
            (ap (λ l. addr_loop m p alen blen left (i + 1) l (overlay (cut blen (xs ++ cs)) str))
                (omega (arith, length-append xs cs))
              ∙ addr_loop-text left (i + 1) (xs ++ cs) reads (omega arith)
              ∙ ap (λ t. done (overlay (cut blen t) str))
                  (append_assoc xs cs _ ∙ ap (λ t. xs ++ t) (sym (colon_bytes-some i inside))))
    ]
  ]
    where
      lt-no : (i : ℕ) → alen ≤ i → ltb i alen ≡ false
      lt-no i h = ground arith

      lt-no' : (n : ℕ) → blen ≤ n → ltb n blen ≡ false
      lt-no' n h = ground arith

All-pos-hex_byte : (b : ℕ) → All (λ c. 0 < c) (hex_byte b)
All-pos-hex_byte b = ground arith

All-pos-colon_bytes : (at : ℕ → ℕ) (i n : ℕ) → All (λ c. 0 < c) (colon_bytes at i n)
unfolding colon_bytes
All-pos-colon_bytes at i zero = tt
All-pos-colon_bytes at i (suc n) =
    All-append (λ c. 0 < c) (b':' ∷ hex_byte (at i)) (colon_bytes at (i + 1) n)
      (omega arith, All-pos-hex_byte (at i)) (All-pos-colon_bytes at (i + 1) n)

-- Outside of tunnels an address is printed, into an array of `blen` characters or more, as two
-- hexadecimal digits for each byte with colons between them, cut to `blen - 1` characters, where
-- `blen` is not 0: the calls of `snprintf` write nothing outside `buf`. For an address of no bytes the
-- byte at its place is read and printed.
pub ll_addr_n2a-text :
    (s : Sys) (c : Libc) (m : List ℕ) (p alen : ℕ) (type : ℤ) (buf : List ℕ) (blen : ℕ) (at : ℕ → ℕ)
    → 0 < blen
    → blen ≤ length buf
    → ((i : ℕ) → i ≤ alen - 1 → load8 m (p + i) ≡ done (at i))
    → (alen == 4 && is_ip_tunnel type) ≡ false
    → (alen == 16 && is_ip6_tunnel type) ≡ false
    → ll_addr_n2a s c m p alen type buf blen ≡ done (some (take (blen - 1) (hex_text at alen)))
unfolding ll_addr_n2a hex_addr hex_text
ll_addr_n2a-text s c m p alen type buf blen at room fits reads no_tunnel no_tunnel6 = rw (
  no_tunnel,
  no_tunnel6,
  first_byte,
  snprintf-cut [] (hex_byte (at 0)) buf blen (omega arith),
  addr_loop-text m p alen blen at buf fits alen 1 (hex_byte (at 0)) (λ i h. reads i (omega arith))
      (omega arith),
  cstring-cut blen (hex_byte (at 0) ++ colon_bytes at 1 (alen - 1)) buf room (
      All-append (λ c. 0 < c) (hex_byte (at 0)) _ (All-pos-hex_byte (at 0))
        (All-pos-colon_bytes at 1 (alen - 1))),
)
  where
    first_byte : load8 m p ≡ done (at 0)
    first_byte = ap (load8 m) (omega arith) ∙ reads 0 (omega arith)
