-- ===== src/Netlink/Attr/Append.antt =====
-- `addattr_l` of android/src/main/c/libnetlink.c: the message with one attribute more.
use lan_scan.Base.{
  ℕ, suc, ◌+◌, ◌%◌, ◌^◌, ◌≤◌, ◌<◌, ◌≡◌, ◌⊎◌, refl, ap, ◌∙◌, arith, le-or-lt, lt→ltb, ◌==◌, inl, inr,
  if◌then◌else◌, false, le→ltb, List, [], ◌∷◌, length, get_elem?, pos, negsuc,
}
use lan_scan.Memory.{Run, done, load16, load32, bytes_at, copy}
use lan_scan.Memory.Laws.{bytes_at-same}
use lan_scan.Memory.Writes.{
  Written, Holds, bytes16, bytes32, copy-done, store16-done, store32-done, load16-Apart,
  load16-Written, load32-Written,
}
use lan_scan.Netlink.Attr.{rta_length, Added, addattr_l}
use lan_scan.Sys.{Sys}
use lan_scan.Sys.Laws.{SysLaws}

no_bytes : (n : ℕ) → (suc n == 0) ≡ false
no_bytes n = ground arith

-- A message of length `l` and the bytes of a new attribute.
module _ (s : Sys) (m : List ℕ) (l type : ℕ) (bytes : List ℕ) where
  -- The length of the message with the attribute.
  abbrev pub new_len : ℕ
  new_len = s.nlmsg_align l + s.rta_align (rta_length s (length bytes))

  -- `m'` has the attribute behind the message and the new length; all else is as it was.
  pub record Appended (m' : List ℕ) : Type 0 where
    pub same : length m' ≡ length m
    pub len : load32 m' s.nlmsg_len_at ≡ done new_len
    pub type_read : load16 m' (s.nlmsg_align l + s.rta_type_at) ≡ done (type % 2 ^ 16)
    pub len_read : load16 m' (s.nlmsg_align l + s.rta_len_at) ≡ done (rta_length s (length bytes))
    pub stands : Holds m' (s.nlmsg_align l + rta_length s 0) bytes
    pub data_read : bytes_at m' (s.nlmsg_align l + rta_length s 0) (length bytes) ≡ done bytes
    pub front :
        (q : ℕ)
        → q < s.nlmsg_align l
        → (q < s.nlmsg_len_at) ⊎ (s.nlmsg_len_at + 4 ≤ q)
        → get_elem? m' q ≡ get_elem? m q
    pub back :
        (q : ℕ) → s.nlmsg_align l + rta_length s (length bytes) ≤ q → get_elem? m' q ≡ get_elem? m q

  -- Where there is no room the message is as it was.
  pub data Adds (maxlen : ℕ) (r : Run Added) : Type 0 where
    refused : maxlen < new_len → r ≡ done (record { msg = m; status = negsuc 0 }) → Adds maxlen r
    added :
        (m' : List ℕ)
        → new_len ≤ maxlen
        → r ≡ done (record { msg = m'; status = pos 0 })
        → Appended m'
        → Adds maxlen r

  copy_data-done :
      (m1 : List ℕ) (p : ℕ)
      → p + length bytes ≤ length m1
      → (m2 : List ℕ) × ((if length bytes == 0 then done m1 else copy m1 p bytes) ≡ done m2)
        × Written m1 p bytes m2
  copy_data-done m1 p room = by_length bytes room
    where
      by_length :
          (bytes : List ℕ)
          → p + length bytes ≤ length m1
          → (m2 : List ℕ) × ((if length bytes == 0 then done m1 else copy m1 p bytes) ≡ done m2)
            × Written m1 p bytes m2
      by_length [] room = (
        m1,
        refl,
        record {
          same = refl;
          front = λ q f. refl;
          back = λ q f. refl;
          inside = λ i f. absurd (omega arith);
        },
      )
      by_length (b ∷ rest) room = rw (no_bytes (length rest)) (copy-done m1 p (b ∷ rest) room)

module _ (s : Sys) (laws : SysLaws s) (m : List ℕ) (l type : ℕ) (bytes : List ℕ)
    (body : s.sizeof_nlmsghdr ≤ l) (short : rta_length s (length bytes) < 2 ^ 16)
    (small : new_len s m l type bytes < 2 ^ 32) where
  stores-Appended :
      (m1 m2 m3 m4 : List ℕ)
      → new_len s m l type bytes ≤ length m
      → Written m (s.nlmsg_align l + s.rta_type_at) (bytes16 type) m1
      → Written m1 (s.nlmsg_align l + s.rta_len_at) (bytes16 (rta_length s (length bytes))) m2
      → Written m2 (s.nlmsg_align l + rta_length s 0) bytes m3
      → Written m3 s.nlmsg_len_at (bytes32 (new_len s m l type bytes)) m4
      → Appended s m l type bytes m4
  stores-Appended m1 m2 m3 m4 room w1 w2 w3 w4 =
      let up : l ≤ s.nlmsg_align l = laws.nlmsg_align_up l in
      let size_up : s.sizeof_rtattr ≤ s.rta_align s.sizeof_rtattr =
        laws.rta_align_up s.sizeof_rtattr in
      let in_room = laws.rta_align_up (rta_length s (length bytes)) in
      let data_at : Holds m4 (s.nlmsg_align l + rta_length s 0) bytes = λ i h.
        w4.back (s.nlmsg_align l + rta_length s 0 + i) (omega (arith, laws.nlmsg_len_inside))
        ∙ w3.inside i h in
      record {
        same = w4.same ∙ w3.same ∙ w2.same ∙ w1.same;
        len =
            load32-Written m3 s.nlmsg_len_at (new_len s m l type bytes) m4 w4
            ∙ ap done (omega arith);
        type_read =
            load16-Apart w4 (s.nlmsg_align l + s.rta_type_at)
              (inr (omega (arith, laws.nlmsg_len_inside)))
            ∙ load16-Apart w3 (s.nlmsg_align l + s.rta_type_at)
                (inl (omega (arith, laws.rta_type_inside)))
            ∙ load16-Apart w2 (s.nlmsg_align l + s.rta_type_at)
                (inr (omega (arith, laws.rta_type_behind)))
            ∙ load16-Written m (s.nlmsg_align l + s.rta_type_at) type m1 w1;
        len_read =
            load16-Apart w4 (s.nlmsg_align l + s.rta_len_at)
              (inr (omega (arith, laws.nlmsg_len_inside)))
            ∙ load16-Apart w3 (s.nlmsg_align l + s.rta_len_at)
                (inl (omega (arith, laws.rta_len_inside)))
            ∙ load16-Written m1 (s.nlmsg_align l + s.rta_len_at) (rta_length s (length bytes)) m2 w2
            ∙ ap done (omega arith);
        stands = data_at;
        data_read =
            bytes_at-same m4 (s.nlmsg_align l + rta_length s 0) bytes
              (omega (arith, w4.same, w3.same, w2.same, w1.same)) data_at;
        front = λ q before apart.
            elim apart [ inl less ↦ w4.front q less | inr more ↦ w4.back q more ]
            ∙ w3.front q (omega arith)
            ∙ w2.front q (omega arith)
            ∙ w1.front q (omega arith);
        back = λ q behind.
            w4.back q (omega (arith, laws.nlmsg_len_inside))
            ∙ w3.back q (omega arith)
            ∙ w2.back q (omega (arith, laws.rta_len_inside))
            ∙ w1.back q (omega (arith, laws.rta_type_inside));
      }

  -- For a message that has a header, an attribute whose length fits 16 bits, a new length that
  -- fits 32 bits and a bound inside the array, `addattr_l` makes no access outside of the array.
  -- It returns -1 and changes nothing exactly where the message with the attribute would be longer
  -- than the bound, and appends the attribute otherwise: its type, its length and its data are
  -- read back behind the message, the length of the message is the new one, and no other byte is
  -- changed.
  pub addattr_l-Adds :
      (maxlen : ℕ)
      → load32 m s.nlmsg_len_at ≡ done l
      → maxlen ≤ length m
      → s.sizeof_nlmsghdr ≤ length m
      → Adds s m l type bytes maxlen (addattr_l s m maxlen type bytes)
  unfolding addattr_l
  addattr_l-Adds maxlen el bound room =
      let exact : new_len s m l type bytes % 2 ^ 32 ≡ new_len s m l type bytes = omega arith in
      elim (le-or-lt (new_len s m l type bytes) maxlen) [
        | inr no_room ↦
            rw (el, exact, lt→ltb maxlen (new_len s m l type bytes) no_room) (refused no_room refl)
        | inl fits ↦
            let in_room = laws.rta_align_up (rta_length s (length bytes)) in
            let size_up = laws.rta_align_up s.sizeof_rtattr in
            let (m1, e1, w1) =
              store16-done m (s.nlmsg_align l + s.rta_type_at) type
                (omega (arith, laws.rta_type_inside)) in
            let (m2, e2, w2) =
              store16-done m1 (s.nlmsg_align l + s.rta_len_at) (rta_length s (length bytes))
                (omega (arith, laws.rta_len_inside, w1.same)) in
            let (m3, e3, w3) =
              copy_data-done s m l type bytes m2 (s.nlmsg_align l + rta_length s 0)
                (omega (arith, w1.same, w2.same)) in
            let (m4, e4, w4) =
              store32-done m3 s.nlmsg_len_at (new_len s m l type bytes)
                (omega (arith, laws.nlmsg_len_inside, w1.same, w2.same, w3.same)) in
            rw (el, exact, le→ltb maxlen (new_len s m l type bytes) fits, e1, e2, e3, e4)
              (added m4 fits refl (stores-Appended m1 m2 m3 m4 (omega arith) w1 w2 w3 w4))
      ]
