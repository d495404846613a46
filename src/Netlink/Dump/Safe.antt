-- ===== src/Netlink/Dump/Safe.antt =====
-- The dump loop of android/src/main/c/libnetlink.c stays inside its buffer and ends.
use lan_scan.Base.{
  ℕ, ◌+◌, ◌≤◌, ◌≡◌, arith, ltb, ◌==◌, not, ◌||◌, Bool, Bool-cases, inl, inr, Option, none, some,
  List, length, ℤ, bit_and,
}
use lan_scan.Memory.{done, load16-done, load32-done}
use lan_scan.Netlink.Dump.{
  DumpFilterArg, done_error, rtnl_dump_done, rtnl_dump_error, answered, call_filter, unless_dumped,
  dispatch, handle,
}
use lan_scan.Netlink.Message.{nlmsg_length, nlmsg_len}
use lan_scan.Sys.{Sys}
use lan_scan.Sys.Laws.{SysLaws}
use lan_scan.World.{World, Filter, Received, datagram, signed32, failed, Cmd}
use lan_scan.World.Safe.{Safe, Keeps, and_then-Safe}

module _ (s : Sys) (size slack : ℕ) where
  -- A message at `h` inside the buffer, with `slack` bytes of the buffer behind it.
  pub record Inside (buf : List ℕ) (h : ℕ) : Type 0 where
    pub len : ℕ
    pub same : length buf ≡ size
    pub header : h + s.sizeof_nlmsghdr + slack ≤ size
    pub len_read : nlmsg_len s buf h ≡ done len
    pub big : s.sizeof_nlmsghdr ≤ len
    pub whole : h + len + slack ≤ size

  -- A callback that is safe on every such message and keeps the property `K` of the filter and of what was printed.
  abbrev pub IsSafeOn : (Filter → List ℕ → Type 0) → (ℕ → List ℕ → ℕ → Cmd ℤ) → Type 0
  IsSafeOn K f =
      (nl_pid : ℕ) (buf : List ℕ) (h : ℕ) (w : World)
      → Inside buf h
      → K w.filter w.out
      → Safe (Keeps K) (f nl_pid buf h w)

  -- A datagram that leaves that room.
  abbrev pub Fits : Received → Type 0
  Fits (failed e) = Unit
  Fits (datagram bytes nl_pid msg_flags) = length bytes + slack ≤ size

module _ (s : Sys) (K : Filter → List ℕ → Type 0) where
  done_error-Safe : (len : ℤ) (w : World) → K w.filter w.out → Safe (Keeps K) (done_error s len w)
  unfolding done_error
  done_error-Safe len w k = ground arith

  answered-Safe : (error : ℤ) (w : World) → K w.filter w.out → Safe (Keeps K) (answered s error w)
  unfolding answered
  answered-Safe error w k = ground arith

module _ (s : Sys) (laws : SysLaws s) (size slack : ℕ)
    (room : nlmsg_length s 4 ≤ slack + s.sizeof_nlmsghdr) (K : Filter → List ℕ → Type 0) where
  rtnl_dump_done-Safe :
      (buf : List ℕ) (h : ℕ) (w : World)
      → Inside s size slack buf h
      → K w.filter w.out
      → Safe (Keeps K) (rtnl_dump_done s buf h w)
  unfolding rtnl_dump_done
  rtnl_dump_done-Safe buf h w i k =
      let (word, ew) = load32-done buf (h + nlmsg_length s 0) (omega arith) in
      rw (ew, i.len_read) (ground (arith, done_error-Safe s K (signed32 word) w))

  rtnl_dump_error-Safe :
      (buf : List ℕ) (h : ℕ) (w : World)
      → Inside s size slack buf h
      → K w.filter w.out
      → Safe (Keeps K) (rtnl_dump_error s buf h w)
  unfolding rtnl_dump_error
  rtnl_dump_error-Safe buf h w i k =
      rw (i.len_read) (elim (Bool-cases (ltb i.len (nlmsg_length s s.sizeof_nlmsgerr))) [
        | inl short ↦ rw short k
        | inr long ↦
            let (word, ew) =
              load32-done buf (h + nlmsg_length s 0 + s.nlmsgerr_error_at)
                (ground (arith, laws.nlmsgerr_error_inside)) in
            rw (long, ew) (answered-Safe s K _ w k)
      ])

  module _ (a : DumpFilterArg) (safe : IsSafeOn s size slack K a.filter) (nl_pid : ℕ) where
    call_filter-Safe :
        (buf : List ℕ) (h : ℕ) (intr : Bool) (w : World)
        → Inside s size slack buf h
        → K w.filter w.out
        → Safe (Keeps K) (call_filter s a nl_pid buf h intr w)
    unfolding call_filter unless_dumped
    call_filter-Safe buf h intr w i k = by_file w.rth.dump_fp
      where
        by_file :
            (o : Option (List ℕ)) → Safe (Keeps K) (unless_dumped o (a.filter nl_pid buf h) intr w)
        by_file (some written) = k
        by_file none =
            and_then-Safe (Keeps K) (Keeps K) (a.filter nl_pid buf h w) _ (safe nl_pid buf h w i k)
              (λ err w' k'. k')

    dispatch-Safe :
        (buf : List ℕ) (h : ℕ) (intr : Bool) (type : ℕ) (w : World)
        → Inside s size slack buf h
        → K w.filter w.out
        → Safe (Keeps K) (dispatch s a nl_pid buf h intr type w)
    unfolding dispatch
    dispatch-Safe buf h intr type w i k = elim (Bool-cases (type == s.nlmsg_done)) [
      | inl y ↦ rw y (
          and_then-Safe (Keeps K) (Keeps K) (rtnl_dump_done s buf h w) _
            (rtnl_dump_done-Safe buf h w i k) (λ err w' k'. k'))
      | inr n ↦ rw n (elim (Bool-cases (type == s.nlmsg_error)) [
        | inl y ↦ rw y (
            and_then-Safe (Keeps K) (Keeps K) (rtnl_dump_error s buf h w) _
              (rtnl_dump_error-Safe buf h w i k) (λ err w' k'. k'))
        | inr n ↦ rw n (call_filter-Safe buf h intr w i k)
      ])
    ]

    pub handle-Safe :
        (buf : List ℕ) (h : ℕ) (intr : Bool) (w : World)
        → Inside s size slack buf h
        → K w.filter w.out
        → Safe (Keeps K) (handle s a nl_pid buf h intr w)
    unfolding handle
    handle-Safe buf h intr w i k =
        let (seq, es) =
          load32-done buf (h + s.nlmsg_seq_at) (omega (arith, laws.nlmsg_seq_inside)) in
        let (flags, ef) =
          load16-done buf (h + s.nlmsg_flags_at) (omega (arith, laws.nlmsg_flags_inside)) in
        let (type, et) =
          load16-done buf (h + s.nlmsg_type_at) (omega (arith, laws.nlmsg_type_inside)) in
        rw es (elim (Bool-cases (not (nl_pid == 0) || not (seq == w.rth.dump))) [
          | inl other ↦ rw other k
          | inr ours ↦
              rw (ours, ef, et)
                (dispatch-Safe buf h (intr || not (bit_and flags s.nlm_f_dump_intr == 0)) type w i
                  k)
        ])
