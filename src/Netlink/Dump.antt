-- ===== src/Netlink/Dump.antt =====
-- The dump loop: `rtnl_dump_filter_l` and what it calls, of android/src/main/c/libnetlink.c.
pub mod Only
pub mod Safe
pub mod Within
pub mod Ends
pub mod Finish
pub mod Retry
mod Runs
use lan_scan.Base.{
  ℕ, zero, suc, ◌+◌, ◌*◌, ◌^◌, ltb, ◌==◌, not, if◌then◌else◌, Bool, true, false, ◌||◌, ◌&&◌, Option,
  none, some, List, [], ◌∷◌, ◌++◌, take, length, replicate, bit_and, ℤ, pos, negsuc, neg, sub,
  is_neg, is_zero, to_ℕ,
}
use lan_scan.Memory.{load16, load32, store16}
use lan_scan.Netlink.Attr.{clear}
use lan_scan.Netlink.Message.{nlmsg_length, nlmsg_ok, nlmsg_len, nlmsg_type, nlmsg_flags, nlmsg_seq}
use lan_scan.Sys.{Sys}
use lan_scan.Text.Buffer.{overlay}
use lan_scan.World.{
  World, Received, datagram, Cmd, ◌>>=◌, ◌>>◌, and_then, pure, lift, get, put, note, set_errno,
  exit, signed32, blocked, out_of_fuel, receive_error, eof_on_netlink, dump_interrupted,
  message_truncated, done_truncated, error_truncated, buffer_too_small, rtnetlink_answers, remnant,
}

-- `struct rtnl_dump_filter_arg`: the callback gets the sender's port and the place of the message.
pub record DumpFilterArg : Type 0 where
  pub filter : (nl_pid : ℕ) → List ℕ → (h : ℕ) → Cmd ℤ
  pub nc_flags : ℕ

module _ (s : Sys) where
  -- The sign test and the switch of `rtnl_dump_done`, for a negative `len`.
  done_error : ℤ → Cmd ℤ
  done_error len =
      let errno = to_ℕ (neg len) in
      do
        set_errno (pos errno)
        (if errno == s.enoent || errno == s.eopnotsupp
            then pure (negsuc 0)
            else if errno == s.emsgsize
            then (note buffer_too_small >> pure len)
            else (note rtnetlink_answers >> pure len))

  -- The word is read before the length is looked at.
  pub rtnl_dump_done : List ℕ → ℕ → Cmd ℤ
  unfolding done_error
  rtnl_dump_done m h = do
    word ← lift (load32 m (h + nlmsg_length s 0))
    l ← lift (nlmsg_len s m h)
    if ltb l (nlmsg_length s 4)
        then (note done_truncated >> pure (negsuc 0))
        else if is_neg (signed32 word)
        then done_error (signed32 word)
        else pure (pos 0)

  -- RTNL_HANDLE_F_SUPPRESS_NLERR of libnetlink.h
  abbrev suppress_nlerr : ℕ
  suppress_nlerr = 2

  -- `errno = -err->error` and the choice whether it is reported.
  answered : ℤ → Cmd (Unit {0})
  answered error = do
    set_errno (neg error)
    w ← get
    (if w.rth.proto == s.netlink_sock_diag
          && (to_ℕ (neg error) == s.enoent || to_ℕ (neg error) == s.eopnotsupp)
        then pure tt
        else if bit_and w.rth.flags suppress_nlerr == 0
        then note rtnetlink_answers
        else pure tt)

  pub rtnl_dump_error : List ℕ → ℕ → Cmd (Unit {0})
  unfolding answered
  rtnl_dump_error m h = do
    l ← lift (nlmsg_len s m h)
    if ltb l (nlmsg_length s s.sizeof_nlmsgerr) then note error_truncated else (do
      word ← lift (load32 m (h + nlmsg_length s 0 + s.nlmsgerr_error_at))
      answered (signed32 word))

-- How the inner loop ends: by a `return`, or with its variables.
pub data Walked : Type 0 where
  returned : ℤ → Walked
  walked : (buf : List ℕ) (msglen : ℤ) (found_done dump_intr : Bool) → Walked

-- One message: what becomes of it.
pub data Handled : Type 0 where
  returns : ℤ → Handled
  breaks : (dump_intr : Bool) → Handled
  goes_on : (dump_intr : Bool) → Handled

pub unless_dumped : Option (List ℕ) → Cmd ℤ → Bool → Cmd Handled
unless_dumped (some _) call dump_intr = pure (goes_on dump_intr)
unless_dumped none call dump_intr = do
  err ← call
  pure (if is_neg err then returns err else goes_on dump_intr)

module _ (s : Sys) (a : DumpFilterArg) (nl_pid : ℕ) where
  -- `if (!rth->dump_fp) { err = a->filter(&nladdr, h, a->arg1); if (err < 0) return err; }`
  pub call_filter : List ℕ → ℕ → Bool → Cmd Handled
  unfolding unless_dumped
  call_filter buf h dump_intr = do
    w ← get
    unless_dumped w.rth.dump_fp (a.filter nl_pid buf h) dump_intr

  -- A message of this dump, by its type.
  pub dispatch : List ℕ → ℕ → Bool → ℕ → Cmd Handled
  dispatch buf h dump_intr type =
      if type == s.nlmsg_done
      then (do
        err ← rtnl_dump_done s buf h
        pure (if is_neg err then returns (negsuc 0) else breaks dump_intr))
      else if type == s.nlmsg_error
      then (rtnl_dump_error s buf h >> pure (returns (negsuc 0)))
      else call_filter buf h dump_intr

  -- From the test of the sender and the sequence number on.
  pub handle : List ℕ → ℕ → Bool → Cmd Handled
  handle buf h dump_intr = do
    seq ← lift (nlmsg_seq s buf h)
    w ← get
    (if not (nl_pid == 0) || not (seq == w.rth.dump) then pure (goes_on dump_intr) else (do
      flags ← lift (nlmsg_flags s buf h)
      type ← lift (nlmsg_type s buf h)
      dispatch buf h (dump_intr || not (bit_and flags s.nlm_f_dump_intr == 0)) type))

  -- What follows a message: `return`, `break`, or NLMSG_NEXT and the next round `again`.
  pub follow : (ℕ → ℤ → Bool → Cmd Walked) → List ℕ → ℕ → ℤ → Handled → Cmd Walked
  follow again buf h msglen (returns err) = pure (returned err)
  follow again buf h msglen (breaks dump_intr) = pure (walked buf msglen true dump_intr)
  follow again buf h msglen (goes_on dump_intr) = do
    l ← lift (nlmsg_len s buf h)
    again (h + s.nlmsg_align l) (sub msglen (s.nlmsg_align l)) dump_intr

  -- `while (NLMSG_OK(h, msglen))`
  pub msg_loop : (fuel : ℕ) → List ℕ → ℕ → ℤ → Bool → Cmd Walked
  msg_loop zero buf h msglen dump_intr w = out_of_fuel
  msg_loop (suc fuel) buf h msglen dump_intr w =
      and_then (lift (nlmsg_ok s buf h msglen) w) (λ good.
        let round = (do
          flags ← lift (nlmsg_flags s buf h)
          buf' ← lift (store16 buf (h + s.nlmsg_flags_at) (clear flags a.nc_flags))
          what ← handle buf' h dump_intr
          follow (msg_loop fuel buf') buf' h msglen what) in
        if good then round else pure (walked buf msglen false dump_intr))

module _ (s : Sys) where
  -- What the pass of one filter hands to the next one.
  pub onward : (ℤ → List ℕ → Bool → Bool → Cmd Walked) → Bool → Walked → Cmd Walked
  onward again found (returned err) = pure (returned err)
  onward again found (walked buf msglen found' dump_intr) =
      again msglen buf (found || found') dump_intr

  -- `for (a = arg; a->filter; a++)`: each filter walks over the whole datagram; `msglen` is that of the
  -- last pass. A message takes a byte at least, so `status + 1` rounds are enough.
  pub filters_loop :
      List DumpFilterArg
      → (status nl_pid : ℕ) → (msglen : ℤ) → List ℕ
      → (found_done dump_intr : Bool) → Cmd Walked
  filters_loop [] status nl_pid msglen buf found dump_intr =
      pure (walked buf msglen found dump_intr)
  filters_loop (a ∷ rest) status nl_pid msglen buf found dump_intr = do
    r ← msg_loop s a nl_pid (suc status) buf 0 (pos status) dump_intr
    onward (filters_loop rest status nl_pid) found r

  -- What follows the passes over one datagram; `again` receives the next one.
  pub conclude : (List ℕ → Bool → Cmd ℤ) → (msg_flags : ℕ) → Walked → Cmd ℤ
  conclude again msg_flags (returned err) = pure err
  conclude again msg_flags (walked buf msglen found_done dump_intr) =
      if found_done
      then (if dump_intr then (note dump_interrupted >> pure (pos 0)) else pure (pos 0))
      else if not (bit_and msg_flags s.msg_trunc == 0)
      then (note message_truncated >> again buf dump_intr)
      else if is_zero msglen
      then again buf dump_intr
      else (note (remnant msglen) >> exit 1)

  -- `fwrite` where the file is not NULL.
  file_write : Option (List ℕ) → List ℕ → Cmd (Unit {0})
  file_write none bytes = pure tt
  file_write (some written) bytes = do
    w ← get
    put (record w { rth = record (w.rth) { dump_fp = some (written ++ bytes) } })

  -- `if (rth->dump_fp) fwrite(buf, 1, NLMSG_ALIGN(status), rth->dump_fp);`
  pub write_dump : List ℕ → (status : ℕ) → Cmd (Unit {0})
  unfolding file_write
  write_dump buf status = do w ← get; file_write w.rth.dump_fp (take (s.nlmsg_align status) buf)

  took : List Received → Cmd (Unit {0})
  took rest = do w ← get; put (record w { inbox = rest })

  -- `while (1)` over what `recvmsg` will answer. A datagram of `bytes` overwrites the front of `buf`.
  pub recv_loop : List DumpFilterArg → List Received → List ℕ → Bool → Cmd ℤ
  unfolding took
  recv_loop args [] buf dump_intr w = blocked w
  recv_loop args (Received.failed e ∷ rest) buf dump_intr w =
      let again = recv_loop args rest buf dump_intr in
      (took rest
          >> set_errno (pos e)
          >> (if e == s.eintr || e == s.eagain
              then again
              else (note (receive_error e) >> pure (negsuc 0))))
        w
  recv_loop args (datagram bytes nl_pid msg_flags ∷ rest) buf dump_intr w =
      let buf' = overlay bytes buf in
      (took rest
          >> (if length bytes == 0 then (note eof_on_netlink >> pure (negsuc 0)) else (do
            write_dump buf' (length bytes)
            r ← filters_loop args (length bytes) nl_pid (pos 0) buf' false dump_intr
            conclude (recv_loop args rest) msg_flags r)))
        w

  -- `stack` is what the array `buf` holds before anything is received.
  pub rtnl_dump_filter_l : List DumpFilterArg → (stack : List ℕ) → Cmd ℤ
  rtnl_dump_filter_l args stack = do w ← get; recv_loop args w.inbox stack false

  pub rtnl_dump_filter_nc :
      (filter : ℕ → List ℕ → ℕ → Cmd ℤ) (nc_flags : ℕ) → (stack : List ℕ) → Cmd ℤ
  rtnl_dump_filter_nc filter nc_flags =
      rtnl_dump_filter_l (record { filter = filter; nc_flags = nc_flags } ∷ [])
