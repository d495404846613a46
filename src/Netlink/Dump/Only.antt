-- ===== src/Netlink/Dump/Only.antt =====
-- Which messages the callback of the dump loop of android/src/main/c/libnetlink.c sees.
use lan_scan.Base.{
  ℕ, zero, suc, ◌+◌, ◌≡◌, ◌≢◌, refl, arith, ◌==◌, ne_of_==, not, ◌||◌, Bool, false, Bool-cases, inl,
  inr, Option, none, some, List, [], ◌∷◌, length, ℤ, pos, bit_and, is_zero,
}
use lan_scan.Memory.{Run, done, fault, out_of_fuel, store16}
use lan_scan.Netlink.Attr.{clear}
use lan_scan.Netlink.Dump.{
  DumpFilterArg, Handled, Walked, call_filter, unless_dumped, dispatch, handle, follow, msg_loop,
  filters_loop, conclude, recv_loop, write_dump, rtnl_dump_filter_nc, rtnl_dump_filter_l,
}
use lan_scan.Netlink.Message.{nlmsg_ok, nlmsg_len, nlmsg_type, nlmsg_flags, nlmsg_seq}
use lan_scan.Sys.{Sys}
use lan_scan.Text.Buffer.{overlay}
use lan_scan.World.{World, Received, datagram, Exec, Cmd, and_then, lift}

and_then_cong {ℓ κ} :
    {A : Type ℓ} {B : Type κ} (x : Exec A) (k l : A → Cmd B)
    → ((a : A) (w : World) → k a w ≡ l a w)
    → and_then x k ≡ and_then x l
and_then_cong (Exec.ok a w) k l h = h a w
and_then_cong (Exec.exits n w) k l h = refl
and_then_cong (Exec.blocked w) k l h = refl
and_then_cong Exec.fault k l h = refl
and_then_cong Exec.out_of_fuel k l h = refl

lift_cong {ℓ κ} :
    {A : Type ℓ} {B : Type κ} (r : Run A) (w : World) (k l : A → Cmd B)
    → ((a : A) → r ≡ done a → k a w ≡ l a w)
    → and_then (lift r w) k ≡ and_then (lift r w) l
lift_cong (done a) w k l h = h a refl
lift_cong fault w k l h = refl
lift_cong out_of_fuel w k l h = refl

-- Two callbacks that answer alike for the messages of a dump: those that the kernel (port 0) sent,
-- with the sequence number of the dump, and that neither end it nor report an error.
abbrev pub AgreeOnDump : Sys → (f g : ℕ → List ℕ → ℕ → Cmd ℤ) → Type 0
AgreeOnDump s f g =
    (buf : List ℕ) (h type : ℕ) (w : World)
    → nlmsg_seq s buf h ≡ done w.rth.dump
    → nlmsg_type s buf h ≡ done type
    → type ≢ s.nlmsg_done
    → type ≢ s.nlmsg_error
    → w.rth.dump_fp ≡ none
    → f 0 buf h w ≡ g 0 buf h w

of_dump :
    (nl_pid seq dump : ℕ)
    → (not (nl_pid == 0) || not (seq == dump)) ≡ false
    → (nl_pid ≡ 0) × (seq ≡ dump)
of_dump nl_pid seq dump h = ground arith

module _ (s : Sys) (a b : DumpFilterArg) where
  call_filter-agree :
      (buf : List ℕ) (h : ℕ) (intr : Bool) (w : World)
      → (w.rth.dump_fp ≡ none → a.filter 0 buf h w ≡ b.filter 0 buf h w)
      → call_filter s a 0 buf h intr w ≡ call_filter s b 0 buf h intr w
  unfolding call_filter
  call_filter-agree buf h intr w same = by_file (w.rth.dump_fp) refl
    where
      by_file :
          (o : Option (List ℕ))
          → w.rth.dump_fp ≡ o
          → unless_dumped o (a.filter 0 buf h) intr w ≡ unless_dumped o (b.filter 0 buf h) intr w
      by_file none e = rw (same e)
      by_file (some d) e = refl

  dispatch-agree :
      (buf : List ℕ) (h type : ℕ) (intr : Bool) (w : World)
      → AgreeOnDump s a.filter b.filter
      → nlmsg_seq s buf h ≡ done w.rth.dump
      → nlmsg_type s buf h ≡ done type
      → dispatch s a 0 buf h intr type w ≡ dispatch s b 0 buf h intr type w
  unfolding dispatch
  dispatch-agree buf h type intr w agree es et = elim (Bool-cases (type == s.nlmsg_done)) [
    | inl d ↦ rw d
    | inr nd ↦ rw nd (elim (Bool-cases (type == s.nlmsg_error)) [
      | inl e ↦ rw e
      | inr ne ↦ rw ne (
          call_filter-agree buf h intr w
            (agree buf h type w es et (ne_of_== _ _ nd) (ne_of_== _ _ ne)))
    ])
  ]

  handle-agree :
      (nl_pid : ℕ) (buf : List ℕ) (h : ℕ) (intr : Bool) (w : World)
      → AgreeOnDump s a.filter b.filter
      → handle s a nl_pid buf h intr w ≡ handle s b nl_pid buf h intr w
  unfolding handle
  handle-agree nl_pid buf h intr w agree = lift_cong (nlmsg_seq s buf h) w _ _ (λ seq es.
      elim (Bool-cases (not (nl_pid == 0) || not (seq == w.rth.dump))) [
        | inl skip ↦ rw skip
        | inr mine ↦
            let (port, dumped) = of_dump nl_pid seq w.rth.dump mine in
            rw (mine, port)
              (lift_cong (nlmsg_flags s buf h) w _ _ (λ flags ef.
                lift_cong (nlmsg_type s buf h) w _ _
                  (λ type et. dispatch-agree buf h type _ w agree (rw (← dumped) es) et)))
      ])

follow_cong :
    (s : Sys) (a b : DumpFilterArg) (nl_pid : ℕ) (again again' : ℕ → ℤ → Bool → Cmd Walked)
    (buf : List ℕ) (h : ℕ) (msglen : ℤ)
    → ((h' : ℕ) (len : ℤ) (intr : Bool) (w : World) → again h' len intr w ≡ again' h' len intr w)
    → (what : Handled) (w : World)
    → follow s a nl_pid again buf h msglen what w ≡ follow s b nl_pid again' buf h msglen what w
unfolding follow
follow_cong s a b nl_pid again again' buf h msglen same (Handled.returns err) w = refl
follow_cong s a b nl_pid again again' buf h msglen same (Handled.breaks intr) w = refl
follow_cong s a b nl_pid again again' buf h msglen same (Handled.goes_on intr) w =
    lift_cong (nlmsg_len s buf h) w _ _ (λ l e. same _ _ intr w)

module _ (s : Sys) (f g : ℕ → List ℕ → ℕ → Cmd ℤ) (nc : ℕ) (agree : AgreeOnDump s f g) where
  abbrev a : DumpFilterArg
  a = record { filter = f; nc_flags = nc }

  abbrev b : DumpFilterArg
  b = record { filter = g; nc_flags = nc }

  msg_loop-agree :
      (nl_pid fuel : ℕ) (buf : List ℕ) (h : ℕ) (msglen : ℤ) (intr : Bool) (w : World)
      → msg_loop s a nl_pid fuel buf h msglen intr w ≡ msg_loop s b nl_pid fuel buf h msglen intr w
  unfolding msg_loop
  msg_loop-agree nl_pid zero buf h msglen intr w = refl
  msg_loop-agree nl_pid (suc fuel) buf h msglen intr w =
      lift_cong (nlmsg_ok s buf h msglen) w _ _ (λ good e. elim (Bool-cases good) [
        | inr bad ↦ rw bad
        | inl fine ↦ rw fine (
            lift_cong (nlmsg_flags s buf h) w _ _ (λ flags ef.
              lift_cong (store16 buf (h + s.nlmsg_flags_at) (clear flags nc)) w _ _ (λ buf' eb.
                rw (handle-agree s a b nl_pid buf' h intr w agree) (
                  and_then_cong (handle s b nl_pid buf' h intr w) _ _ (
                    follow_cong s a b nl_pid _ _ buf' h msglen
                      (msg_loop-agree nl_pid fuel buf'))))))
      ])

  filters_loop-agree :
      (status nl_pid : ℕ) (msglen : ℤ) (buf : List ℕ) (found intr : Bool) (w : World)
      → filters_loop s (a ∷ []) status nl_pid msglen buf found intr w
        ≡ filters_loop s (b ∷ []) status nl_pid msglen buf found intr w
  unfolding filters_loop
  filters_loop-agree status nl_pid msglen buf found intr w =
      rw (msg_loop-agree nl_pid (suc status) buf 0 (pos status) intr w)

  conclude_cong :
      (again again' : List ℕ → Bool → Cmd ℤ) (msg_flags : ℕ)
      → ((buf : List ℕ) (intr : Bool) (w : World) → again buf intr w ≡ again' buf intr w)
      → (r : Walked) (w : World) → conclude s again msg_flags r w ≡ conclude s again' msg_flags r w
  unfolding conclude
  conclude_cong again again' msg_flags same (Walked.returned err) w = refl
  conclude_cong again again' msg_flags same (Walked.walked buf msglen found intr) w =
      elim (Bool-cases found) [
        | inl y ↦ rw y
        | inr n ↦ rw n (elim (Bool-cases (not (bit_and msg_flags s.msg_trunc == 0))) [
          | inl y ↦ rw y (same buf intr _)
          | inr n ↦
              rw n (elim (Bool-cases (is_zero msglen)) [
                | inl y ↦ rw y (same buf intr w)
                | inr n ↦ rw n
              ])
        ])
      ]

  recv_loop-agree :
      (inbox : List Received) (buf : List ℕ) (intr : Bool) (w : World)
      → recv_loop s (a ∷ []) inbox buf intr w ≡ recv_loop s (b ∷ []) inbox buf intr w
  unfolding recv_loop
  recv_loop-agree [] buf intr w = refl
  recv_loop-agree (Received.failed e ∷ rest) buf intr w =
      elim (Bool-cases (e == s.eintr || e == s.eagain)) [
        | inl retry ↦ rw retry (recv_loop-agree rest buf intr _)
        | inr no_retry ↦ rw no_retry
      ]
  recv_loop-agree (datagram bytes nl_pid msg_flags ∷ rest) buf intr w =
      elim (Bool-cases (length bytes == 0)) [
        | inl eof ↦ rw eof
        | inr some_bytes ↦ rw some_bytes (
            and_then_cong (write_dump s (overlay bytes buf) (length bytes) _) _ _ (λ u w'.
              rw
                (filters_loop-agree (length bytes) nl_pid (pos 0) (overlay bytes buf) false intr w')
                (and_then_cong
                  (filters_loop s (b ∷ []) (length bytes) nl_pid (pos 0) (overlay bytes buf) false
                    intr w')
                  _ _ (conclude_cong _ _ msg_flags (recv_loop-agree rest)))))
      ]

-- The dump loop asks its callback only about messages of the dump: two callbacks that agree on
-- those give the same result and the same state, whatever is received.
pub rtnl_dump_filter_nc-agree :
    (s : Sys) (f g : ℕ → List ℕ → ℕ → Cmd ℤ) (nc_flags : ℕ) (stack : List ℕ) (w : World)
    → AgreeOnDump s f g
    → rtnl_dump_filter_nc s f nc_flags stack w ≡ rtnl_dump_filter_nc s g nc_flags stack w
unfolding rtnl_dump_filter_nc rtnl_dump_filter_l
rtnl_dump_filter_nc-agree s f g nc_flags stack w agree =
    recv_loop-agree s f g nc_flags agree w.inbox stack false w
