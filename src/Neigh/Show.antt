-- ===== src/Neigh/Show.antt =====
-- `ipneigh_reset_filter`, `do_show_or_flush` and the native methods of android/src/main/c/ipneigh.c.
pub mod Lines
pub mod Ends
pub mod Runs
use lan_scan.Base.{
  ℕ, ◌+◌, ◌-◌, ◌%◌, ◌^◌, ◌==◌, if◌then◌else◌, Bool, none, List, [], ◌∷◌, replicate, bit_and, ℤ, pos,
  is_neg,
}
use lan_scan.Libc.{Libc}
use lan_scan.Memory.{copy, store16, store32}
use lan_scan.Neigh.Callback.{print_neigh}
use lan_scan.Neigh.Print.{Env, set_filter}
use lan_scan.Netlink.Dump.{rtnl_dump_filter_nc}
use lan_scan.Netlink.Message.{nlmsg_length}
use lan_scan.Netlink.Send.{OpenAnswers, rtnl_open, rtnl_close, rtnl_dump_request_n}
use lan_scan.Sys.{Sys}
use lan_scan.World.{
  Filter, Cmd, ◌>>=◌, ◌>>◌, pure, lift, get, note, exit, dump_terminated, cannot_send,
}

-- All zeros, but for the state, which is all ones, and the index.
abbrev pub fresh_filter : ℕ → Filter
fresh_filter ifindex = record {
  family = 0;
  index = ifindex;
  state = 0xffffffff;
  unused_only = 0;
  pfx = record { family = 0; bitlen = 0; words = replicate 64 0 };
  flushed = 0;
  flushb = none;
  flushp = 0;
  flushe = 0;
  master = 0;
}

pub ipneigh_reset_filter : (ifindex : ℕ) → Cmd (Unit {0})
ipneigh_reset_filter ifindex = set_filter (fresh_filter ifindex)

module _ (s : Sys) (c : Libc) (e : Env) where
  -- `if (!filter.family) filter.family = preferred_family; filter.state = 0xFF & ~NUD_NOARP;`
  abbrev pub show_filter : Filter → Filter
  show_filter f = record f {
    family = if f.family == 0 then s.af_unspec else f.family;
    state = bit_and 0xff (2 ^ 32 - 1 - s.nud_noarp % 2 ^ 32);
  }

  -- `req`: the header of the message, a `struct ndmsg` and 256 bytes, zeros but for three fields.
  pub request : (family : ℕ) → Cmd (List ℕ)
  request family = do
    let zeros = replicate (s.sizeof_nlmsghdr + s.sizeof_ndmsg + 256) 0
    req ← lift (store16 zeros s.nlmsg_type_at s.rtm_getneigh)
    req ← lift (store32 req s.nlmsg_len_at (nlmsg_length s s.sizeof_ndmsg))
    lift (copy req (s.sizeof_nlmsghdr + s.ndm_family_at) (family % 2 ^ 8 ∷ []))

  -- `stack` is what the receive buffer holds before.
  pub do_show_or_flush : (stack : List ℕ) → Cmd ℤ
  do_show_or_flush stack = do
    ipneigh_reset_filter 0
    w ← get
    set_filter (show_filter w.filter)
    w ← get
    req ← request w.filter.family
    sent ← rtnl_dump_request_n s req
    (if is_neg sent then (note cannot_send >> exit 1) else (do
      status ← rtnl_dump_filter_nc s (print_neigh s c e) 0 stack
      (if is_neg status then (note dump_terminated >> exit 1) else pure (pos 0))))

  -- `opened` says whether `fdopen` gave a stream.
  pub native_ip_neigh : (opened : Bool) → OpenAnswers → (stack : List ℕ) → Cmd ℤ
  native_ip_neigh opened o stack =
      if opened
      then (do
        status ← rtnl_open s o 0
        (if is_neg status then exit 1 else (do res ← do_show_or_flush stack; rtnl_close; pure res)))
      else exit 1
