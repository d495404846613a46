-- ===== src/Netlink/Dump/Ends.antt =====
-- `rtnl_dump_filter_nc` of android/src/main/c/libnetlink.c as a whole: no access outside its buffer, and an end.
use lan_scan.Base.{
  ℕ, suc, ◌+◌, ◌≤◌, ◌≡◌, refl, ◌∙◌, arith, ◌==◌, not, ◌||◌, Bool, true, false, Bool-cases, inl, inr,
  Option, none, some, List, [], ◌∷◌, length, take, All, ℤ, pos, is_zero, bit_and,
}
use lan_scan.Netlink.Dump.{
  DumpFilterArg, Walked, returned, walked, msg_loop, filters_loop, onward, conclude, recv_loop,
  write_dump, file_write, took, rtnl_dump_filter_nc, rtnl_dump_filter_l,
}
use lan_scan.Netlink.Dump.Safe.{Fits, IsSafeOn}
use lan_scan.Netlink.Dump.Within.{Kept, msg_loop-Safe}
use lan_scan.Netlink.Message.{nlmsg_length}
use lan_scan.Sys.{Sys}
use lan_scan.Sys.Laws.{SysLaws}
use lan_scan.Text.Buffer.{overlay, length-overlay}
use lan_scan.World.{World, Filter, Received, datagram, Cmd}
use lan_scan.World.Safe.{Safe, Keeps, and_then-Safe}

module _ (s : Sys) (laws : SysLaws s) (size slack : ℕ)
    (room : nlmsg_length s 4 ≤ slack + s.sizeof_nlmsghdr) (K : Filter → List ℕ → Type 0) where
  onward-Safe :
      (again : ℤ → List ℕ → Bool → Bool → Cmd Walked) (found : Bool) (r : Walked) (w : World)
      → Kept K size r w
      → ((msglen : ℤ) (buf : List ℕ) (found' intr : Bool)
          → length buf ≡ size
          → K w.filter w.out
          → Safe (Kept K size) (again msglen buf found' intr w))
      → Safe (Kept K size) (onward s again found r w)
  unfolding onward
  onward-Safe again found (returned err) w kept rest = kept
  onward-Safe again found (walked buf msglen found' intr) w kept rest =
      rest msglen buf (found || found') intr kept.0 kept.1

  filters_loop-Safe :
      (args : List DumpFilterArg) (status nl_pid : ℕ) (msglen : ℤ) (buf : List ℕ)
      (found intr : Bool) (w : World)
      → status + slack ≤ size
      → All (λ (a : DumpFilterArg). IsSafeOn s size slack K a.filter) args
      → length buf ≡ size
      → K w.filter w.out
      → Safe (Kept K size) (filters_loop s args status nl_pid msglen buf found intr w)
  unfolding filters_loop
  filters_loop-Safe [] status nl_pid msglen buf found intr w fits safe same k = (same, k)
  filters_loop-Safe (a ∷ rest) status nl_pid msglen buf found intr w fits safe same k =
      and_then-Safe (Kept K size) (Kept K size)
        (msg_loop s a nl_pid (suc status) buf 0 (pos status) intr w) _
        (msg_loop-Safe s laws size slack status fits room K a safe.0 nl_pid (suc status) buf 0
          (pos status) intr w same (omega arith) (omega arith) k)
        (λ r w' kept.
          onward-Safe (filters_loop s rest status nl_pid) found r w' kept
            (λ msglen' buf' found' intr' same' k'.
              filters_loop-Safe rest status nl_pid msglen' buf' found' intr' w' fits safe.1 same'
                k'))

  conclude-Safe :
      (again : List ℕ → Bool → Cmd ℤ) (msg_flags : ℕ) (r : Walked) (w : World)
      → Kept K size r w
      → ((buf : List ℕ) (intr : Bool) (w : World)
          → length buf ≡ size
          → K w.filter w.out
          → Safe (Keeps K) (again buf intr w))
      → Safe (Keeps K) (conclude s again msg_flags r w)
  unfolding conclude
  conclude-Safe again msg_flags (returned err) w kept rest = kept
  conclude-Safe again msg_flags (walked buf msglen true true) w kept rest = kept.1
  conclude-Safe again msg_flags (walked buf msglen true false) w kept rest = kept.1
  conclude-Safe again msg_flags (walked buf msglen false intr) w kept rest =
      elim (Bool-cases (not (bit_and msg_flags s.msg_trunc == 0))) [
        | inl y ↦ rw y (rest buf intr _ kept.0 kept.1)
        | inr n ↦ rw n (elim (Bool-cases (is_zero msglen)) [
          | inl y ↦ rw y (rest buf intr w kept.0 kept.1)
          | inr n ↦ rw n refl
        ])
      ]

  file_write-Safe :
      (file : Option (List ℕ)) (bytes : List ℕ) (w : World)
      → K w.filter w.out
      → Safe (Keeps K) (file_write s file bytes w)
  unfolding file_write
  file_write-Safe none bytes w k = k
  file_write-Safe (some written) bytes w k = k

  write_dump-Safe :
      (buf : List ℕ) (status : ℕ) (w : World)
      → K w.filter w.out
      → Safe (Keeps K) (write_dump s buf status w)
  unfolding write_dump
  write_dump-Safe buf status w k =
      file_write-Safe w.rth.dump_fp (take (s.nlmsg_align status) buf) w k

  recv_loop-Safe :
      (args : List DumpFilterArg) (inbox : List Received) (buf : List ℕ) (intr : Bool) (w : World)
      → All (λ (a : DumpFilterArg). IsSafeOn s size slack K a.filter) args
      → All (Fits s size slack) inbox
      → length buf ≡ size
      → K w.filter w.out
      → Safe (Keeps K) (recv_loop s args inbox buf intr w)
  unfolding recv_loop took
  recv_loop-Safe args [] buf intr w safe fits same k = tt
  recv_loop-Safe args (Received.failed e ∷ rest) buf intr w safe fits same k =
      elim (Bool-cases (e == s.eintr || e == s.eagain)) [
        | inl retry ↦ rw retry (recv_loop-Safe args rest buf intr _ safe fits.1 same k)
        | inr no_retry ↦ rw no_retry k
      ]
  recv_loop-Safe args (datagram bytes nl_pid msg_flags ∷ rest) buf intr w safe fits same k =
      elim (Bool-cases (length bytes == 0)) [
        | inl eof ↦ rw eof k
        | inr some_bytes ↦ rw some_bytes (
            and_then-Safe (Keeps K) (Keeps K) (write_dump s (overlay bytes buf) (length bytes) _) _
              (write_dump-Safe (overlay bytes buf) (length bytes) _ k)
              (λ u w' k'.
                and_then-Safe (Kept K size) (Keeps K)
                  (filters_loop s args (length bytes) nl_pid (pos 0) (overlay bytes buf) false intr
                    w')
                  _
                  (filters_loop-Safe args (length bytes) nl_pid (pos 0) (overlay bytes buf) false
                    intr w' fits.0 safe (length-overlay bytes buf (omega (arith, fits.0)) ∙ same)
                    k')
                  (λ r v kept.
                    conclude-Safe (recv_loop s args rest) msg_flags r v kept
                      (λ buf' intr' v' same' k''.
                        recv_loop-Safe args rest buf' intr' v' safe fits.1 same' k''))))
      ]

-- With a callback that is safe on whole messages with `slack` bytes of the buffer behind them, where
-- the word behind a header fits the slack, and datagrams that leave the slack free, the dump loop
-- makes no access outside the buffer and its inner loop ends: it returns, exits with status 1, or
-- waits for a datagram. A property of the filter and of what was printed that the
-- callback keeps, the loop keeps.
pub rtnl_dump_filter_nc-Safe :
    (s : Sys) (laws : SysLaws s) (slack : ℕ) (K : Filter → List ℕ → Type 0)
    (f : ℕ → List ℕ → ℕ → Cmd ℤ) (nc_flags : ℕ) (stack : List ℕ) (w : World)
    → nlmsg_length s 4 ≤ slack + s.sizeof_nlmsghdr
    → IsSafeOn s (length stack) slack K f
    → All (Fits s (length stack) slack) w.inbox
    → K w.filter w.out
    → Safe (Keeps K) (rtnl_dump_filter_nc s f nc_flags stack w)
unfolding rtnl_dump_filter_nc rtnl_dump_filter_l
rtnl_dump_filter_nc-Safe s laws slack K f nc_flags stack w room safe fits k =
    recv_loop-Safe s laws (length stack) slack room K
      (record { filter = f; nc_flags = nc_flags } ∷ []) w.inbox stack false w (safe, tt) fits refl k
