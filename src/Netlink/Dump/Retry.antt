-- ===== src/Netlink/Dump/Retry.antt =====
-- The dump loop of android/src/main/c/libnetlink.c gets over interruptions and ends with the dump.
use lan_scan.Base.{
  ℕ, ◌≡◌, refl, ap, ◌∙◌, ◌==◌, ◌||◌, Bool, true, false, none, List, [], ◌∷◌, length, All, ℤ, pos,
}
use lan_scan.Netlink.Dump.{DumpFilterArg, took, recv_loop, rtnl_dump_filter_l, rtnl_dump_filter_nc}
use lan_scan.Sys.{Sys}
use lan_scan.Sys.Laws.{SysLaws}
use lan_scan.Text.Buffer.{overlay}
use lan_scan.Netlink.Dump.Finish.{EndsAt, datagram-ends}
use lan_scan.World.{World, RtnlHandle, Received, datagram, Cmd, ok}

-- Calls of `recvmsg` that fail with these errors, and what comes then.
abbrev pub failures : List ℕ → List Received → List Received
failures [] rest = rest
failures (e ∷ es) rest = Received.failed e ∷ failures es rest

-- EINTR and EAGAIN.
abbrev pub is_transient : Sys → ℕ → Bool
is_transient s e = e == s.eintr || e == s.eagain

-- The last of the errors is in `errno`.
abbrev pub retried : List ℕ → List Received → World → World
retried [] rest w = w
retried (e ∷ es) rest w = retried es rest (record w { inbox = failures es rest; errno = pos e })

retried-inbox :
    (es : List ℕ) (rest : List Received) (w : World)
    → w.inbox ≡ failures es rest
    → (retried es rest w).inbox ≡ rest
retried-inbox [] rest w h = h
retried-inbox (e ∷ es) rest w h =
    retried-inbox es rest (record w { inbox = failures es rest; errno = pos e }) refl

retried-rth : (es : List ℕ) (rest : List Received) (w : World) → (retried es rest w).rth ≡ w.rth
retried-rth [] rest w = refl
retried-rth (e ∷ es) rest w =
    retried-rth es rest (record w { inbox = failures es rest; errno = pos e })

module _ (s : Sys) (args : List DumpFilterArg) where
  recv_loop-retried :
      (es : List ℕ) (rest : List Received) (buf : List ℕ) (intr : Bool) (w : World)
      → All (λ e. is_transient s e ≡ true) es
      → recv_loop s args (failures es rest) buf intr w
        ≡ recv_loop s args rest buf intr (retried es rest w)
  unfolding recv_loop took
  recv_loop-retried [] rest buf intr w all = refl
  recv_loop-retried (e ∷ es) rest buf intr w all = rw (all.0) (
      recv_loop-retried es rest buf intr (record w { inbox = failures es rest; errno = pos e })
        all.1)

-- Without a file for the dump: however often EINTR or EAGAIN interrupts it, the dump loop goes on
-- to the datagram that comes then, and where that is the kernel's and starts with the end of this
-- dump and no error, the loop returns 0 and takes nothing that comes after it.
pub rtnl_dump_filter_nc-ends :
    (s : Sys) (laws : SysLaws s) (f : ℕ → List ℕ → ℕ → Cmd ℤ) (nc_flags : ℕ) (stack : List ℕ)
    (w : World) (es : List ℕ) (bytes : List ℕ) (msg_flags : ℕ) (rest : List Received)
    → All (λ e. is_transient s e ≡ true) es
    → w.inbox ≡ failures es (datagram bytes 0 msg_flags ∷ rest)
    → w.rth.dump_fp ≡ none
    → EndsAt s (overlay bytes stack) 0 (length bytes) w.rth.dump
    → (w' : World) × (rtnl_dump_filter_nc s f nc_flags stack w ≡ ok (pos 0) w') × (w'.inbox ≡ rest)
unfolding rtnl_dump_filter_nc rtnl_dump_filter_l
rtnl_dump_filter_nc-ends s laws f nc_flags stack w es bytes msg_flags rest all inbox no_file i =
    let a : DumpFilterArg = record { filter = f; nc_flags = nc_flags } in
    let v = retried es (datagram bytes 0 msg_flags ∷ rest) w in
    let same_rth : v.rth ≡ w.rth = retried-rth es (datagram bytes 0 msg_flags ∷ rest) w in
    let (w', er, left) =
      datagram-ends s laws a rest bytes msg_flags stack false v
        (ap (λ (r : RtnlHandle). r.dump_fp) same_rth ∙ no_file) (rw same_rth i) in
    (
      w',
      ap (λ inbox. recv_loop s (a ∷ []) inbox stack false w) inbox
          ∙ recv_loop-retried s (a ∷ []) es (datagram bytes 0 msg_flags ∷ rest) stack false w all
          ∙ er,
      left,
    )
