-- ===== src/Netlink/Message.antt =====
-- Walking over the messages of a datagram, by the macros of the system's netlink header.
pub mod Inside
use lan_scan.Base.{ℕ, ◌+◌, leb, if◌then◌else◌, Bool, false, ◌&&◌, List, ℤ, ge_ℕ}
use lan_scan.Memory.{Run, done, ◌>>=◌, load16, load32}
use lan_scan.Sys.{Sys}

module _ (s : Sys) where
  -- NLMSG_LENGTH, and NLMSG_DATA of the message at 0.
  abbrev pub nlmsg_length : ℕ → ℕ
  nlmsg_length n = n + s.nlmsg_align s.sizeof_nlmsghdr

  -- NLMSG_OK: the length is read only where a header fits what is left.
  unfoldable pub nlmsg_ok : List ℕ → ℕ → ℤ → Run Bool
  nlmsg_ok m h len =
      if ge_ℕ len s.sizeof_nlmsghdr
      then (do l ← load32 m (h + s.nlmsg_len_at); done (leb s.sizeof_nlmsghdr l && ge_ℕ len l))
      else done false

  abbrev pub nlmsg_len : List ℕ → ℕ → Run ℕ
  nlmsg_len m h = load32 m (h + s.nlmsg_len_at)

  abbrev pub nlmsg_type : List ℕ → ℕ → Run ℕ
  nlmsg_type m h = load16 m (h + s.nlmsg_type_at)

  abbrev pub nlmsg_flags : List ℕ → ℕ → Run ℕ
  nlmsg_flags m h = load16 m (h + s.nlmsg_flags_at)

  abbrev pub nlmsg_seq : List ℕ → ℕ → Run ℕ
  nlmsg_seq m h = load32 m (h + s.nlmsg_seq_at)
