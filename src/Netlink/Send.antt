-- ===== src/Netlink/Send.antt =====
-- Opening, closing and sending: the rest of android/src/main/c/libnetlink.c.
pub mod Open
pub mod Request
pub mod Check
use lan_scan.Base.{
  ℕ, zero, suc, ◌+◌, ◌%◌, ◌^◌, ltb, ◌==◌, not, if◌then◌else◌, none, List, [], ◌∷◌, ◌++◌, take,
  length, bit_or, ℤ, pos, negsuc, neg, sub, is_neg,
}
use lan_scan.Memory.{bytes_at, load32, store16, store32}
use lan_scan.Netlink.Message.{nlmsg_length, nlmsg_ok, nlmsg_len, nlmsg_type}
use lan_scan.Sys.{Sys}
use lan_scan.Text.Buffer.{overlay}
use lan_scan.World.{
  RtnlHandle, Peeked, SendAnswer, Cmd, ok, ◌>>=◌, ◌>>◌, and_then, pure, lift, get, put, note,
  set_errno, signed32, blocked, out_of_fuel, error_truncated, open_failed,
}

-- What the system answers the calls of `rtnl_open_byproto`; a negative status is a failure.
pub record OpenAnswers : Type 0 where
  pub socket : ℤ
  pub sndbuf : ℤ
  pub rcvbuf : ℤ
  pub getsockname : ℤ
  pub addr_len : ℕ
  pub nl_family : ℕ
  pub nl_groups : ℕ
  pub nl_pid : ℕ
  pub time : ℕ

abbrev pub blank : RtnlHandle
blank = record {
  fd = pos 0;
  nl_family = 0;
  nl_groups = 0;
  nl_pid = 0;
  seq = 0;
  dump = 0;
  proto = 0;
  dump_fp = none;
  flags = 0;
}

unfoldable pub set_rth : RtnlHandle → Cmd (Unit {0})
set_rth r = do w ← get; put (record w { rth = r })

abbrev open_failure : (why : ℕ) → Cmd ℤ
open_failure why = note (open_failed why) >> pure (negsuc 0)

-- `close(rth->fd)` has no effect that the program sees.
unfoldable pub rtnl_close : Cmd (Unit {0})
unfolding set_rth
rtnl_close = do
  w ← get
  (if is_neg w.rth.fd then pure tt else set_rth (record (w.rth) { fd = negsuc 0 }))

module _ (s : Sys) where
  -- From `getsockname` on.
  named : OpenAnswers → RtnlHandle → Cmd ℤ
  unfolding set_rth
  named o r = if is_neg o.getsockname then open_failure 4 else (do
    let r' = record r { nl_family = o.nl_family; nl_groups = o.nl_groups; nl_pid = o.nl_pid }
    set_rth r'
    (if not (o.addr_len == s.sizeof_sockaddr_nl)
        then open_failure 5
        else if not (o.nl_family == s.af_netlink)
        then open_failure 6
        else (set_rth (record r' { seq = o.time % 2 ^ 32 }) >> pure (pos 0))))

  -- The answer to NETLINK_EXT_ACK is not looked at, and the call of `bind` is commented out.
  pub rtnl_open_byproto : OpenAnswers → (subscriptions protocol : ℕ) → Cmd ℤ
  unfolding named set_rth
  rtnl_open_byproto o subscriptions protocol = do
    let r = record blank { proto = protocol; fd = o.socket }
    set_rth r
    (if is_neg o.socket
        then open_failure 1
        else if is_neg o.sndbuf
        then open_failure 2
        else if is_neg o.rcvbuf
        then open_failure 3
        else (do
          let bound = record r { nl_family = s.af_netlink; nl_groups = subscriptions }
          set_rth bound
          named o bound))

  pub rtnl_open : OpenAnswers → (subscriptions : ℕ) → Cmd ℤ
  rtnl_open o subscriptions = rtnl_open_byproto o subscriptions s.netlink_route

  next_answer : List SendAnswer → List ℕ → Cmd SendAnswer
  next_answer [] bytes w = blocked w
  next_answer (a ∷ rest) bytes w = ok a (record w {
    sent = w.sent ++ (bytes ∷ []);
    answers = rest;
    errno = if is_neg a.status then pos a.errno else w.errno;
  })

  -- A `send` or `sendmsg` of these bytes, with the answer that is next.
  pub transmit : List ℕ → Cmd SendAnswer
  unfolding next_answer
  transmit bytes w = next_answer w.answers bytes w

  -- `n->nlmsg_flags = NLM_F_DUMP|NLM_F_REQUEST; n->nlmsg_pid = 0;` and the next sequence number,
  -- which the handle keeps as that of the dump.
  pub rtnl_dump_request_n : List ℕ → Cmd ℤ
  unfolding transmit set_rth
  rtnl_dump_request_n n = do
    l ← lift (load32 n s.nlmsg_len_at)
    n ← lift (store16 n s.nlmsg_flags_at (bit_or s.nlm_f_dump s.nlm_f_request))
    n ← lift (store32 n s.nlmsg_pid_at 0)
    w ← get
    let seq = (w.rth.seq + 1) % 2 ^ 32
    set_rth (record (w.rth) { seq = seq; dump = seq })
    n ← lift (store32 n s.nlmsg_seq_at seq)
    bytes ← lift (bytes_at n 0 l)
    a ← transmit bytes
    pure a.status

  -- The loop over the immediate answers: the first error message ends it.
  pub peek_loop : (fuel : ℕ) → List ℕ → ℕ → ℤ → Cmd ℤ
  peek_loop zero resp h status w = out_of_fuel
  peek_loop (suc fuel) resp h status w = and_then (lift (nlmsg_ok s resp h status) w) (λ good.
      let round = (do
        type ← lift (nlmsg_type s resp h)
        l ← lift (nlmsg_len s resp h)
        (if type == s.nlmsg_error
            then ((if ltb l (nlmsg_length s s.sizeof_nlmsgerr) then note error_truncated else (do
              word ← lift (load32 resp (h + nlmsg_length s 0 + s.nlmsgerr_error_at))
              set_errno (neg (signed32 word))))
                >> pure (negsuc 0))
            else peek_loop fuel resp (h + s.nlmsg_align l) (sub status (s.nlmsg_align l)))) in
      if good then round else pure (pos 0))

  -- The array `resp` has 1024 characters; `stack` is what it holds before.
  immediate_answer : List ℕ → Peeked → Cmd ℤ
  unfolding peek_loop
  immediate_answer stack (Peeked.failed e) = do
    set_errno (pos e)
    pure (if e == s.eagain then pos 0 else negsuc 0)
  immediate_answer stack (Peeked.bytes bs) =
      peek_loop (suc (length bs)) (overlay bs stack) 0 (pos (length bs))

  pub rtnl_send_check : (stack : List ℕ) → List ℕ → Cmd ℤ
  unfolding immediate_answer transmit
  rtnl_send_check stack buf = do
    a ← transmit buf
    (if is_neg a.status then pure a.status else immediate_answer stack a.peeked)
