-- ===== src/Netlink/Attr/Read.antt =====
-- The readers of an attribute's data and the nested parser of android/src/main/c/libnetlink.h.
use lan_scan.Base.{
  ℕ, zero, suc, ◌+◌, ◌*◌, ◌-◌, ◌%◌, ◌^◌, ◌≤◌, ◌<◌, ◌≡◌, refl, ap, ◌∙◌, arith, List, length,
  get_elem?, ntohl, ntohs, some, pos, sub, le→leb,
}
use lan_scan.Memory.{Run, done, ◌>>=◌, load8, load16, load32}
use lan_scan.Memory.Writes.{Holds, bytes16, bytes32, load16-Holds, load32-Holds}
use lan_scan.Netlink.Attr.{Attrs, rta_length, parse_rtattr, addattr32}
use lan_scan.Netlink.Attr.Append.{new_len, refused, added, addattr_l-Adds}
use lan_scan.Netlink.Attr.Inside.{AttrAt, Entry, parse_rtattr-Entry}
use lan_scan.Netlink.Attr.Table.{Tabulates}
use lan_scan.Sys.{Sys}
use lan_scan.Sys.Laws.{SysLaws}

module _ (s : Sys) (m : List ℕ) (rta : ℕ) where
  -- RTA_DATA
  abbrev pub rta_data : ℕ
  rta_data = rta + rta_length s 0

  pub rta_getattr_u8 : Run ℕ
  rta_getattr_u8 = load8 m rta_data

  pub rta_getattr_u16 : Run ℕ
  rta_getattr_u16 = load16 m rta_data

  pub rta_getattr_be16 : Run ℕ
  rta_getattr_be16 = do n ← rta_getattr_u16; done (ntohs n)

  pub rta_getattr_u32 : Run ℕ
  rta_getattr_u32 = load32 m rta_data

  pub rta_getattr_be32 : Run ℕ
  rta_getattr_be32 = do n ← rta_getattr_u32; done (ntohl n)

  pub rta_getattr_u64 : Run ℕ
  rta_getattr_u64 = do
    low ← load32 m rta_data
    high ← load32 m (rta_data + 4)
    done (low + high * 2 ^ 32)

  -- A pointer to the data.
  pub rta_getattr_str : ℕ
  rta_getattr_str = rta_data

  -- The bytes of the attribute's data, by RTA_DATA and RTA_PAYLOAD.
  pub parse_rtattr_nested : (max : ℕ) → Run Attrs
  parse_rtattr_nested max = do
    l ← load16 m (rta + s.rta_len_at)
    parse_rtattr s m max rta_data (sub (pos l) (rta_length s 0))

-- What the readers give where four bytes of a word are the data.
pub record ReadsWord (s : Sys) (m : List ℕ) (rta word : ℕ) : Type 0 where
  pub u8 : rta_getattr_u8 s m rta ≡ done (word % 2 ^ 8)
  pub u16 : rta_getattr_u16 s m rta ≡ done (word % 2 ^ 16)
  pub u32 : rta_getattr_u32 s m rta ≡ done (word % 2 ^ 32)
  pub be16 : rta_getattr_be16 s m rta ≡ done (ntohs (word % 2 ^ 16))
  pub be32 : rta_getattr_be32 s m rta ≡ done (ntohl (word % 2 ^ 32))

Holds-ReadsWord :
    (s : Sys) (m : List ℕ) (rta word : ℕ)
    → Holds m (rta + rta_length s 0) (bytes32 word)
    → ReadsWord s m rta word
unfolding rta_getattr_u8 rta_getattr_u16 rta_getattr_u32 rta_getattr_be16 rta_getattr_be32 load8
Holds-ReadsWord s m rta word holds =
    let first : get_elem? m (rta + rta_length s 0) ≡ get_elem? (bytes32 word) 0 =
      ap (get_elem? m) (omega arith) ∙ holds 0 (omega arith) in
    let half =
      load16-Holds m (rta + rta_length s 0) word (λ i h. holds i (omega arith) ∙ lower i h) in
    let whole = load32-Holds m (rta + rta_length s 0) word holds in
    record {
      u8 = rw first refl;
      u16 = half;
      u32 = whole;
      be16 = rw half refl;
      be32 = rw whole refl;
    }
  where
    lower : (i : ℕ) → i < 2 → get_elem? (bytes32 word) i ≡ get_elem? (bytes16 word) i
    lower zero h = refl
    lower (suc zero) h = refl
    lower (suc (suc i)) h = absurd (omega arith)

-- A word that `addattr32` appends within its bound is what the readers give at the place behind
-- the old message: the whole of it, its lower half or byte, and in the order of the network.
pub addattr32-ReadsWord :
    (s : Sys) (laws : SysLaws s) (m : List ℕ) (l type word maxlen : ℕ)
    → load32 m s.nlmsg_len_at ≡ done l
    → s.sizeof_nlmsghdr ≤ l
    → rta_length s 4 < 2 ^ 16
    → new_len s m l type (bytes32 word) < 2 ^ 32
    → new_len s m l type (bytes32 word) ≤ maxlen
    → maxlen ≤ length m
    → (m' : List ℕ) × (addattr32 s m maxlen type word ≡ done (record { msg = m'; status = pos 0 }))
      × ReadsWord s m' (s.nlmsg_align l) word
unfolding addattr32
addattr32-ReadsWord s laws m l type word maxlen el body short small fits bound =
    let up = laws.nlmsg_align_up l in
    elim (addattr_l-Adds s laws m l type (bytes32 word) body short small maxlen el bound
      (omega arith)) [
        | refused no_room er ↦ absurd (omega arith)
        | added m' room er new ↦ (m', er, Holds-ReadsWord s m' (s.nlmsg_align l) word new.stands)
      ]

-- On every attribute that ends two headers before its array does, the nested parser returns with the
-- table of the attributes in the data of the outer one: the first of each type up to `max` there,
-- which begins behind the outer header and ends in front of the outer one's end.
pub parse_rtattr_nested-Entry :
    (s : Sys) (laws : SysLaws s) (m : List ℕ) (max end p : ℕ) (outer : AttrAt s m end p)
    → end + 2 * s.sizeof_rtattr ≤ length m
    → (a : Attrs) × (parse_rtattr_nested s m p max ≡ done a)
      × ((i : ℕ) → i ≤ max → Entry s m (p + outer.len) a.tb i)
      × ((i q : ℕ) → i ≤ max → get_elem? a.tb i ≡ some (some q) → p + rta_length s 0 ≤ q)
      × Tabulates s m max 0
          (p + rta_length s 0)
          (outer.len - rta_length s 0)
          (parse_rtattr_nested s m p max)
unfolding parse_rtattr_nested
parse_rtattr_nested-Entry s laws m max end p outer room =
    let head : rta_length s 0 ≤ outer.len = omega (arith, outer.big, laws.rtattr_aligned) in
    let ends : rta_data s m p + (outer.len - rta_length s 0) ≡ p + outer.len =
      omega (arith, head) in
    rw (outer.len_read, le→leb (rta_length s 0) outer.len head, ← ends)
      (parse_rtattr-Entry s laws m max (rta_data s m p) (outer.len - rta_length s 0)
        (omega (arith, outer.whole)))
