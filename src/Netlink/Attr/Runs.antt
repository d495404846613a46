-- ===== src/Netlink/Attr/Runs.antt =====
-- Attributes appended to a concrete message.
use lan_scan.Base.{◌≤◌, ℕ, ◌≡◌, refl, List, [], ◌∷◌, ◌++◌, replicate, arith, pos, get_elem?, some}
use lan_scan.Memory.{done, load16, load32}
use lan_scan.Netlink.Attr.{Attrs, addattr_l, addattr32, rta_ok, rta_length}
use lan_scan.Netlink.Attr.Append.{Adds, addattr_l-Adds}
use lan_scan.Netlink.Attr.Inside.{AttrAt, Entry}
use lan_scan.Netlink.Attr.Read.{
  ReadsWord, addattr32-ReadsWord, parse_rtattr_nested, parse_rtattr_nested-Entry,
}
use lan_scan.Netlink.Attr.RoundTrip.{Reads, addattr_l-Reads}
use lan_scan.Netlink.Attr.Walk.{Walk, stop, step}
use lan_scan.Netlink.Attr.Table.{Tabulates}
use lan_scan.Sys.Linux.{linux, linux-laws}

-- A header whose length says 24, NDA_DST 10.0.0.5, and 16 bytes of room.
abbrev message : List ℕ
message =
    (24 ∷ 0 ∷ 0 ∷ 0 ∷ 28 ∷ 0 ∷ 0 ∷ 0 ∷ 0 ∷ 0 ∷ 0 ∷ 0 ∷ 0 ∷ 0 ∷ 0 ∷ 0 ∷ [])
    ++ (8 ∷ 0 ∷ 1 ∷ 0 ∷ 10 ∷ 0 ∷ 0 ∷ 5 ∷ [])
    ++ replicate 16 0

message_len : load32 message linux.nlmsg_len_at ≡ done 24
unfolding load32 load16
message_len = refl

message_attributes : Walk linux message 16 (pos 8) ((1, 16) ∷ []) 24 (pos 0)
unfolding rta_ok load16
message_attributes = step {l = 8} refl refl refl (stop refl)

addattr_l-Adds_example :
    Adds linux message 24 2 (1 ∷ 2 ∷ 3 ∷ []) 40 (addattr_l linux message 40 2 (1 ∷ 2 ∷ 3 ∷ []))
addattr_l-Adds_example =
    addattr_l-Adds linux linux-laws message 24 2 (1 ∷ 2 ∷ 3 ∷ []) (omega arith) (omega arith)
      (omega arith) 40 message_len (omega arith) (omega arith)

addattr_l-Reads_example :
    (m : List ℕ) × (addattr_l linux message 40 2 (1 ∷ 2 ∷ 3 ∷ [])
      ≡ done (record { msg = m; status = pos 0 }))
    × (load32 m 0 ≡ done 32)
    × Reads linux m 12 16 16 ((1, 16) ∷ (2, 24) ∷ [])
addattr_l-Reads_example =
    addattr_l-Reads linux linux-laws message 24 2 (1 ∷ 2 ∷ 3 ∷ []) 40 12 16 8 ((1, 16) ∷ [])
      message_len (omega arith) (omega arith) (omega arith) (omega arith) (omega arith)
      (omega arith) (omega arith) message_attributes

addattr32-ReadsWord_example :
    (m : List ℕ) × (addattr32 linux message 40 4 0x01020304
      ≡ done (record { msg = m; status = pos 0 }))
    × ReadsWord linux m 24 0x01020304
addattr32-ReadsWord_example =
    addattr32-ReadsWord linux linux-laws message 24 4 0x01020304 40 message_len (omega arith)
      (omega arith) (omega arith) (omega arith) (omega arith)

-- An attribute of 12 bytes with NDA_DST 10.0.0.5 as its data, and 8 bytes behind it.
abbrev nest : List ℕ
nest = (12 ∷ 0 ∷ 1 ∷ 0 ∷ 8 ∷ 0 ∷ 2 ∷ 0 ∷ 10 ∷ 0 ∷ 0 ∷ 5 ∷ []) ++ replicate 8 0

nest_len : load16 nest 0 ≡ done 12
unfolding load16
nest_len = refl

abbrev nest_outer : AttrAt linux nest 12 0
nest_outer = record { len = 12; len_read = nest_len; big = omega arith; whole = omega arith }

parse_rtattr_nested-Entry_example :
    (a : Attrs) × (parse_rtattr_nested linux nest 0 2 ≡ done a)
    × ((i : ℕ) → i ≤ 2 → Entry linux nest 12 a.tb i)
    × ((i q : ℕ) → i ≤ 2 → get_elem? a.tb i ≡ some (some q) → rta_length linux 0 ≤ q)
    × Tabulates linux nest 2 0 4 8 (parse_rtattr_nested linux nest 0 2)
parse_rtattr_nested-Entry_example =
    parse_rtattr_nested-Entry linux linux-laws nest 2 12 0 nest_outer (omega arith)
