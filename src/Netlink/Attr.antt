-- ===== src/Netlink/Attr.antt =====
-- The attributes of a message: `parse_rtattr` and `addattr_l` of android/src/main/c/libnetlink.c.
pub mod Walk
pub mod Table
pub mod Inside
pub mod Append
pub mod RoundTrip
pub mod Read
mod Runs
use lan_scan.Base.{
  ℕ, zero, suc, ◌+◌, ◌-◌, ◌%◌, ◌^◌, leb, ltb, ◌==◌, if◌then◌else◌, Bool, true, false, ◌&&◌, Option,
  none, some, List, [], ◌∷◌, length, get_elem?, set, replicate, bit_and, ℤ, pos, sub, ge_ℕ, is_zero,
  to_ℕ, negsuc, ◌/◌,
}
use lan_scan.Memory.{Run, done, fault, out_of_fuel, ◌>>=◌, load16, load32, copy, store16, store32}
use lan_scan.Sys.{Sys}

module _ (s : Sys) where
  -- RTA_LENGTH and RTA_OK of the system's rtnetlink header. The length is read only where
  -- the header fits what is left.
  abbrev pub rta_length : ℕ → ℕ
  rta_length n = s.rta_align s.sizeof_rtattr + n

  unfoldable pub rta_ok : List ℕ → ℕ → ℤ → Run Bool
  rta_ok m rta len =
      if ge_ℕ len s.sizeof_rtattr
      then (do l ← load16 m (rta + s.rta_len_at); done (leb s.sizeof_rtattr l && ge_ℕ len l))
      else done false

-- What the loop leaves: the table, and the place and the count of the bytes that it did not take.
pub record Parsed : Type 0 where
  pub tb : List (Option ℕ)
  pub rta : ℕ
  pub len : ℤ

-- `type & ~flags` on 16 bits.
abbrev pub clear : ℕ → ℕ → ℕ
clear type flags = bit_and type (2 ^ 16 - 1 - flags % 2 ^ 16)

unfoldable pub enter : List (Option ℕ) → (type rta : ℕ) → Option (Option ℕ) → Run (List (Option ℕ))
enter tb type rta none = fault
enter tb type rta (some none) = done (set tb type (some rta))
enter tb type rta (some (some old)) = done tb

-- `if ((type <= max) && (!tb[type])) tb[type] = rta;`
unfoldable pub record_attr : (max : ℕ) → List (Option ℕ) → (type rta : ℕ) → Run (List (Option ℕ))
unfolding enter
record_attr max tb type rta =
    if leb type max then enter tb type rta (get_elem? tb type) else done tb

module _ (s : Sys) (m : List ℕ) (max flags : ℕ) where
  -- `while (RTA_OK(rta, len))`
  unfoldable pub parse_loop : (fuel : ℕ) → List (Option ℕ) → ℕ → ℤ → Run Parsed
  parse_loop zero tb rta len = out_of_fuel
  parse_loop (suc fuel) tb rta len = do
    good ← rta_ok s m rta len
    let round = do
      type ← load16 m (rta + s.rta_type_at)
      tb' ← record_attr max tb (clear type flags) rta
      l ← load16 m (rta + s.rta_len_at)
      parse_loop fuel tb' (rta + s.rta_align l) (sub len (s.rta_align l))
    if good then round else done (record { tb = tb; rta = rta; len = len })

-- The table, and what is reported as a deficit: the count and the length field that follows.
pub record Attrs : Type 0 where
  pub tb : List (Option ℕ)
  pub deficit : Option (ℤ × ℕ)

module _ (s : Sys) (m : List ℕ) where
  -- `if (len) fprintf(stderr, "!!!Deficit %d, rta_len=%d\n", len, rta->rta_len);`
  unfoldable pub report : Parsed → Run Attrs
  report p = if is_zero p.len then done (record { tb = p.tb; deficit = none }) else (do
    l ← load16 m (p.rta + s.rta_len_at)
    done (record { tb = p.tb; deficit = some (p.len, l) }))

  -- The function always returns 0. A round takes a byte at least, so `len + 1` rounds are enough.
  unfoldable pub parse_rtattr_flags : (max rta : ℕ) → ℤ → (flags : ℕ) → Run Attrs
  parse_rtattr_flags max rta len flags =
      parse_loop s m max flags (suc (to_ℕ len)) (replicate (max + 1) none) rta len >>= report

  unfoldable pub parse_rtattr : (max rta : ℕ) → ℤ → Run Attrs
  parse_rtattr max rta len = parse_rtattr_flags max rta len 0

-- The message after `addattr_l` and its result; -1 leaves the message as it was.
pub record Added : Type 0 where
  pub msg : List ℕ
  pub status : ℤ

module _ (s : Sys) where
  -- `alen` is the length of `bytes`, and `maxlen` is not negative.
  pub addattr_l : List ℕ → (maxlen type : ℕ) → List ℕ → Run Added
  addattr_l m maxlen type bytes =
      let len = rta_length s (length bytes) in
      do
        nlmsg_len ← load32 m s.nlmsg_len_at
        let total = (s.nlmsg_align nlmsg_len + s.rta_align len) % 2 ^ 32
        let tail = s.nlmsg_align nlmsg_len
        let append = do
          m ← store16 m (tail + s.rta_type_at) type
          m ← store16 m (tail + s.rta_len_at) len
          m ← (if length bytes == 0 then done m else copy m (tail + rta_length s 0) bytes)
          m ← store32 m s.nlmsg_len_at total
          done (record { msg = m; status = pos 0 })
        if ltb maxlen total then done (record { msg = m; status = negsuc 0 }) else append

  -- The bytes of the `__u32` as it lies in memory.
  pub addattr32 : List ℕ → (maxlen type word : ℕ) → Run Added
  addattr32 m maxlen type word =
      addattr_l m maxlen type
        (word % 2 ^ 8 ∷ word / 2 ^ 8 % 2 ^ 8 ∷ word / 2 ^ 16 % 2 ^ 8 ∷ word / 2 ^ 24 % 2 ^ 8 ∷ [])
