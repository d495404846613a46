-- ===== src/Neigh/Callback.antt =====
-- `print_neigh` of android/src/main/c/ipneigh.c, from the message to the line.
pub mod Entry
pub mod Outcome
pub mod Branches
use lan_scan.Base.{
  ℕ, ◌+◌, ◌==◌, not, ltb, if◌then◌else◌, Bool, true, false, ◌&&◌, Option, none, some, List, ◌++◌,
  get_elem?, ℤ, pos, negsuc, sub_ℕ, is_neg,
}
use lan_scan.Libc.{Libc}
use lan_scan.Memory.{checked}
use lan_scan.Neigh.Line.{
  print_dst, print_dev, print_lladdr, print_cacheinfo, print_probes, state_text, kind_text,
  flags_text,
}
use lan_scan.Neigh.Print.{
  Env, Ndmsg, has, emit, when, ndmsg, unwanted, dropped_by_prefix, dropped_as_used, flush_entry,
}
use lan_scan.Netlink.Attr.{Attrs, parse_rtattr}
use lan_scan.Netlink.Message.{nlmsg_length, nlmsg_len, nlmsg_type, nlmsg_flags}
use lan_scan.Sys.{Sys}
use lan_scan.Text.Codes.{codes}
use lan_scan.World.{Cmd, ◌>>=◌, ◌>>◌, pure, lift, get, note, not_newneigh, wrong_nlmsg_len, deficit}

module _ (s : Sys) (c : Libc) (e : Env) where
  -- `tb[i]`, of an array of NDA_MAX + 1 entries.
  abbrev entry : Attrs → ℕ → Cmd (Option ℕ)
  entry a i = lift (checked (get_elem? a.tb i))

  -- From `if (n->nlmsg_type == RTM_DELNEIGH)` to the end.
  pub print_line : List ℕ → (type : ℕ) → Ndmsg → Attrs → Cmd ℤ
  print_line m type r a = do
    dst ← entry a s.nda_dst
    ll ← entry a s.nda_lladdr
    ci ← entry a s.nda_cacheinfo
    probes ← entry a s.nda_probes
    w ← get
    emit (kind_text s type)
    print_dst s c e m r dst
    print_dev s c e m r w.filter.index
    print_lladdr s c e m r ll
    emit (flags_text s r.flags)
    print_cacheinfo s c e m r ci
    print_probes s c e m r probes
    emit (state_text s r.state ++ codes "\n")
    pure (pos 0)

  -- The branch `if (filter.flushb)`, and the line where it does not return.
  pub flush_or_print : List ℕ → (n len type : ℕ) → Ndmsg → Attrs → Option (List ℕ) → Cmd ℤ
  flush_or_print m n len type r a none = print_line m type r a
  flush_or_print m n len type r a (some flushb) = do
    status ← flush_entry s e m n len flushb
    (if is_neg status
        then pure (negsuc 0)
        else if ltb e.show_stats 2
        then pure (pos 0)
        else print_line m type r a)

  report : Option (ℤ × ℕ) → Cmd (Unit {0})
  report none = pure tt
  report (some (len, rta_len)) = note (deficit len rta_len)

  -- From the warning on: the attributes are parsed, and the tests that need them are made.
  pub attributes : List ℕ → (n len type flags : ℕ) → Ndmsg → Cmd ℤ
  unfolding report
  attributes m n len type flags r = do
    w ← get
    when (not (w.filter.master == 0) && not (has flags s.nlm_f_dump_filtered))
        (emit (codes "\nWARNING: Kernel does not support filtering by master device\n\n"))
    let body = nlmsg_length s s.sizeof_ndmsg
    a ← lift (
        parse_rtattr s m s.nda_max (n + nlmsg_length s 0 + s.nlmsg_align s.sizeof_ndmsg)
          (sub_ℕ len body))
    report a.deficit
    dst ← entry a s.nda_dst
    dropped ← dropped_by_prefix s w.filter r m dst
    (if dropped then pure (pos 0) else (do
      ci ← entry a s.nda_cacheinfo
      used ← dropped_as_used s w.filter m ci
      (if used then pure (pos 0) else flush_or_print m n len type r a w.filter.flushb)))

  is_some : Option (List ℕ) → Bool
  is_some none = false
  is_some (some b) = true

  -- The sender is not looked at. A message that is not about neighbours, that an unfinished flush or the
  -- filter leaves out is passed over with 0.
  pub print_neigh : (nl_pid : ℕ) → List ℕ → (n : ℕ) → Cmd ℤ
  unfolding is_some
  print_neigh nl_pid m n = do
    type ← lift (nlmsg_type s m n)
    len ← lift (nlmsg_len s m n)
    flags ← lift (nlmsg_flags s m n)
    (if not (type == s.rtm_newneigh) && not (type == s.rtm_delneigh) && not (type == s.rtm_getneigh)
        then (note (not_newneigh len type flags) >> pure (pos 0))
        else if is_neg (sub_ℕ len (nlmsg_length s s.sizeof_ndmsg))
        then (note (wrong_nlmsg_len (sub_ℕ len (nlmsg_length s s.sizeof_ndmsg))) >> pure (negsuc 0))
        else (do
          w ← get
          (if is_some w.filter.flushb && not (type == s.rtm_newneigh) then pure (pos 0) else (do
            r ← ndmsg s m (n + nlmsg_length s 0)
            (if unwanted s w.filter r then pure (pos 0) else attributes m n len type flags r)))))
