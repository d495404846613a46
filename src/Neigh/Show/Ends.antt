-- ===== src/Neigh/Show/Ends.antt =====
-- The listing of android/src/main/c/ipneigh.c as a whole: how `do_show_or_flush` and the native methods end.
use lan_scan.Base.{
  ℕ, ◌+◌, ◌*◌, ◌%◌, ◌^◌, ◌≤◌, ◌≡◌, refl, ap, sym, ◌∙◌, ◌++◌, append-nil, arith, Bool, true, false,
  Bool-cases, inl, inr, List, [], ◌∷◌, length, replicate, length-replicate, All, if◌then◌else◌, ℤ,
  pos, is_neg,
}
use lan_scan.Libc.{Libc}
use lan_scan.Libc.Laws.{LibcLaws}
use lan_scan.Memory.{done, load32}
use lan_scan.Memory.Laws.{slice}
use lan_scan.Memory.Writes.{copy-done, store16-done, store32-done, load32-Apart, load32-Written}
use lan_scan.Neigh.Callback.{print_neigh}
use lan_scan.Neigh.Callback.Branches.{print_neigh-Outcome}
use lan_scan.Neigh.Line.Prints.{IsRoomy}
use lan_scan.Neigh.Print.{Env, set_filter}
use lan_scan.Neigh.Show.{
  fresh_filter, show_filter, ipneigh_reset_filter, request, do_show_or_flush, native_ip_neigh,
}
use lan_scan.Neigh.Show.Lines.{Line, all_printed, Printing, Printing-IsListing, Outcome-Safe}
use lan_scan.Netlink.Dump.{rtnl_dump_filter_nc}
use lan_scan.Netlink.Dump.Ends.{rtnl_dump_filter_nc-Safe}
use lan_scan.Netlink.Dump.Safe.{IsSafeOn, Fits}
use lan_scan.Netlink.Message.{nlmsg_length}
use lan_scan.Netlink.Send.{OpenAnswers, transmit, rtnl_close, set_rth}
use lan_scan.Netlink.Send.Open.{opens, opened_handle, refuses, rtnl_open-Opens}
use lan_scan.Netlink.Send.Request.{asking, transmit-Safe, rtnl_dump_request_n-IsRequest}
use lan_scan.Sys.{Sys}
use lan_scan.Sys.Laws.{SysLaws}
use lan_scan.World.{
  World, SendAnswer, ok, and_then, pure, note, exit, cannot_send, dump_terminated, ◌>>=◌, ◌>>◌,
}
use lan_scan.World.Safe.{Safe, Keeps, and_then-Safe}

module _ (s : Sys) (c : Libc) (e : Env) (start : List ℕ) where
  -- The call returned 0, and behind `start` the lines of some entries were printed.
  abbrev Lists : ℤ → World → Type 0
  Lists a w = (a ≡ pos 0) × Printing s c e start w.filter w.out

  -- The call returned 0, the socket is closed, and behind `start` stand the lines of some entries.
  abbrev pub Ended : ℤ → World → Type 0
  Ended a w =
      (a ≡ pos 0)
      × (is_neg w.rth.fd ≡ true)
      × ((lines : List (Line s c e)) × (w.out ≡ start ++ all_printed s c e lines))

module _ (s : Sys) (laws : SysLaws s) (c : Libc) (libc : LibcLaws s c) (e : Env)
    (roomy : IsRoomy e) where
  print_neigh-IsSafeOn :
      (start : List ℕ) (size slack : ℕ)
      → 2 * s.sizeof_rtattr + 16 ≤ slack
      → IsSafeOn s size slack (Printing s c e start) (print_neigh s c e)
  print_neigh-IsSafeOn start size slack spare nl_pid buf h w i p =
      Outcome-Safe s c e start buf h i.len w (print_neigh s c e nl_pid buf h w) p (
        print_neigh-Outcome s laws c libc e roomy size slack spare nl_pid buf h w i
          (Printing-IsListing s c e start w.out w.filter p))

  zeros : List ℕ
  zeros = replicate (s.sizeof_nlmsghdr + s.sizeof_ndmsg + 256) 0

  length-zeros : length zeros ≡ s.sizeof_nlmsghdr + s.sizeof_ndmsg + 256
  unfolding zeros
  length-zeros = length-replicate (s.sizeof_nlmsghdr + s.sizeof_ndmsg + 256) 0

  -- The request: its size and the length in its header.
  request-done :
      (family : ℕ) (w : World)
      → (m : List ℕ) × (request s c e family w ≡ ok m w)
        × (length m ≡ s.sizeof_nlmsghdr + s.sizeof_ndmsg + 256)
        × (load32 m s.nlmsg_len_at ≡ done (nlmsg_length s s.sizeof_ndmsg))
  unfolding request zeros
  request-done family w =
      let (m1, e1, w1) =
        store16-done zeros s.nlmsg_type_at s.rtm_getneigh
          (omega (arith, length-zeros, laws.nlmsg_type_inside)) in
      let (m2, e2, w2) =
        store32-done m1 s.nlmsg_len_at (nlmsg_length s s.sizeof_ndmsg)
          (omega (arith, length-zeros, w1.same, laws.nlmsg_len_inside)) in
      let (m3, e3, w3) =
        copy-done m2 (s.sizeof_nlmsghdr + s.ndm_family_at) (family % 2 ^ 8 ∷ [])
          (omega (arith, length-zeros, w1.same, w2.same, laws.ndm_family_inside)) in
      (
        m3,
        rw (e1, e2, e3),
        w3.same ∙ w2.same ∙ w1.same ∙ length-zeros,
        load32-Apart w3 s.nlmsg_len_at (inl (omega (arith, laws.nlmsg_len_inside)))
            ∙ load32-Written m1 s.nlmsg_len_at (nlmsg_length s s.sizeof_ndmsg) m2 w2
            ∙ ap done (omega (arith, laws.headers_small, laws.nlmsghdr_aligned)),
      )

  module _ (start stack : List ℕ) (slack : ℕ) (spare : 2 * s.sizeof_rtattr + 16 ≤ slack) where
    abbrev Ready : World → Type 0
    Ready w = Printing s c e start w.filter w.out × All (Fits s (length stack) slack) w.inbox

    dump-Safe :
        (w : World)
        → Printing s c e start w.filter w.out
        → All (Fits s (length stack) slack) w.inbox
        → Safe (Keeps (Printing s c e start)) (rtnl_dump_filter_nc s (print_neigh s c e) 0 stack w)
    dump-Safe w l fits =
        rtnl_dump_filter_nc-Safe s laws slack (Printing s c e start) (print_neigh s c e) 0 stack w
          (omega (arith, laws.nlmsghdr_aligned))
          (print_neigh-IsSafeOn start (length stack) slack spare) fits l

    -- What is done once the request is sent, on its status.
    sent-Safe :
        (sent : ℤ) (v : World)
        → Ready v
        → Safe (Lists s c e start) (
            (if is_neg sent then (note cannot_send >> exit 1) else (do
              status ← rtnl_dump_filter_nc s (print_neigh s c e) 0 stack
              (if is_neg status then (note dump_terminated >> exit 1) else pure (pos 0))))
              v)
    sent-Safe sent v ready = elim (Bool-cases (is_neg sent)) [
      | inl y ↦ rw y refl
      | inr good ↦ rw good (
          and_then-Safe (Keeps (Printing s c e start)) (Lists s c e start)
            (rtnl_dump_filter_nc s (print_neigh s c e) 0 stack v) _ (dump-Safe v ready.0 ready.1)
            (λ status v' l. elim (Bool-cases (is_neg status)) [
              | inl y ↦ rw y refl
              | inr good ↦ rw good (refl, l)
            ]))
    ]

    do_show_or_flush-Safe :
        (w : World)
        → w.out ≡ start
        → All (Fits s (length stack) slack) w.inbox
        → Safe (Lists s c e start) (do_show_or_flush s c e stack w)
    unfolding do_show_or_flush ipneigh_reset_filter set_filter
    do_show_or_flush-Safe w same_out fits =
        let begins : Printing s c e start (show_filter s c e (fresh_filter 0)) w.out = record {
          filter_same = refl;
          lines = [];
          written = same_out ∙ sym (append-nil start);
        } in
        let w1 = record w { filter = show_filter s c e (fresh_filter 0) } in
        let (m, em, size, len) = request-done s.af_unspec w1 in
        let (n, is_request, er) =
          rtnl_dump_request_n-IsRequest s laws m w1 (nlmsg_length s s.sizeof_ndmsg) (omega arith)
            len (omega (arith, laws.nlmsghdr_aligned)) in
        rw (em, er)
          (and_then-Safe (λ (sent : ℤ) v. Ready v) (Lists s c e start)
            (and_then (transmit s (slice n 0 (nlmsg_length s s.sizeof_ndmsg)) (asking w1))
              (λ a. pure a.status))
            _
            (and_then-Safe (λ (a : SendAnswer) v. Ready v) (λ (sent : ℤ) v. Ready v)
              (transmit s (slice n 0 (nlmsg_length s s.sizeof_ndmsg)) (asking w1)) _
              (transmit-Safe s
                (λ f inbox out.
                  Printing s c e start f out × All (Fits s (length stack) slack) inbox)
                (slice n 0 (nlmsg_length s s.sizeof_ndmsg)) (asking w1) (begins, fits))
              (λ a v ready. ready))
            sent-Safe)

    close-Safe :
        (w : World)
        → Printing s c e start w.filter w.out
        → Safe (Ended s c e start) (and_then (rtnl_close w) (λ u. pure (pos 0)))
    unfolding rtnl_close set_rth
    close-Safe w l = elim (Bool-cases (is_neg w.rth.fd)) [
      | inl y ↦ rw y (refl, y, (l.lines, l.written))
      | inr n ↦ rw n (refl, refl, (l.lines, l.written))
    ]

  module _ (stack : List ℕ) (slack : ℕ) (spare : 2 * s.sizeof_rtattr + 16 ≤ slack) where
    -- The native methods never make an access outside an array, and none of their loops runs on:
    -- they return 0 with the socket closed, exit with status 1, or wait for an answer of the
    -- system that never comes. Where they return, what they printed is the lines of some entries,
    -- one behind another, each of a message about a neighbour that the filter of a listing lets
    -- through, with the attributes that the parser finds in it. It is relied on that the build is
    -- Android's without statistics, that the arrays have the sizes of the source, that every
    -- datagram leaves `slack` bytes of the receive buffer free, which is room for two attribute
    -- headers and 16 bytes, and on what is documented of the system.
    pub native_ip_neigh-Safe :
        (opened : Bool) (o : OpenAnswers) (w : World)
        → All (Fits s (length stack) slack) w.inbox
        → Safe (Ended s c e w.out) (native_ip_neigh s c e opened o stack w)
    unfolding native_ip_neigh
    native_ip_neigh-Safe false o w fits = refl
    native_ip_neigh-Safe true o w fits = elim (rtnl_open-Opens s o 0 w) [
      | refuses refused rth why same er ↦ rw er refl
      | opens good er ↦
          let w1 = record w { rth = opened_handle s o } in
          rw er (
            and_then-Safe (Lists s c e w.out) (Ended s c e w.out) (do_show_or_flush s c e stack w1)
              _ (do_show_or_flush-Safe w.out stack slack spare w1 refl fits)
              (λ res v r. rw (r.0) (close-Safe w.out stack slack spare v r.1)))
    ]
