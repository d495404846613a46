-- ===== src/Netlink/Dump/Within.antt =====
-- The walk over the messages of one datagram, `while (NLMSG_OK(h, msglen))` of android/src/main/c/libnetlink.c.
use lan_scan.Base.{
  ℕ, zero, suc, ◌+◌, ◌≤◌, ◌<◌, ◌≡◌, ◌∙◌, arith, Bool, inl, List, length, ℤ, sub, to_ℕ,
}
use lan_scan.Memory.{done, load16-done}
use lan_scan.Memory.Writes.{store16-done, load32-Apart}
use lan_scan.Netlink.Attr.{clear}
use lan_scan.Netlink.Dump.{
  DumpFilterArg, Handled, Walked, returned, walked, returns, breaks, goes_on, handle, follow,
  msg_loop,
}
use lan_scan.Netlink.Message.Inside.{Before, bad, good, check, Before-next, shorter}
use lan_scan.Netlink.Message.{nlmsg_length, nlmsg_len}
use lan_scan.Sys.{Sys}
use lan_scan.Sys.Laws.{SysLaws}
use lan_scan.World.{World, Filter, Cmd}
use lan_scan.World.Safe.{Safe, Keeps, and_then-Safe}
use lan_scan.Netlink.Dump.Safe.{Inside, IsSafeOn, handle-Safe}

-- The buffer that a walk leaves has kept its size, and the filter and the output their property.
abbrev pub Kept : (Filter → List ℕ → Type 0) → ℕ → Walked → World → Type 0
Kept K size (returned err) w = K w.filter w.out
Kept K size (walked buf msglen found_done dump_intr) w = (length buf ≡ size) × K w.filter w.out

module _ (s : Sys) (laws : SysLaws s) (size slack end : ℕ) (inside : end + slack ≤ size) where
  module _ (room : nlmsg_length s 4 ≤ slack + s.sizeof_nlmsghdr) (K : Filter → List ℕ → Type 0)
      (a : DumpFilterArg) (safe : IsSafeOn s size slack K a.filter) (nl_pid : ℕ) where
    follow-Safe :
        (again : ℕ → ℤ → Bool → Cmd Walked) (buf : List ℕ) (h l : ℕ) (msglen : ℤ) (what : Handled)
        (w : World)
        → length buf ≡ size
        → nlmsg_len s buf h ≡ done l
        → K w.filter w.out
        → ((intr : Bool)
            → Safe
                (Kept K size)
                (again (h + s.nlmsg_align l) (sub msglen (s.nlmsg_align l)) intr w))
        → Safe (Kept K size) (follow s a nl_pid again buf h msglen what w)
    unfolding follow
    follow-Safe again buf h l msglen (returns err) w same el k rest = k
    follow-Safe again buf h l msglen (breaks intr) w same el k rest = (same, k)
    follow-Safe again buf h l msglen (goes_on intr) w same el k rest = rw el (rest intr)

    pub msg_loop-Safe :
        (fuel : ℕ) (buf : List ℕ) (h : ℕ) (msglen : ℤ) (intr : Bool) (w : World)
        → length buf ≡ size
        → Before end h msglen
        → to_ℕ msglen < fuel
        → K w.filter w.out
        → Safe (Kept K size) (msg_loop s a nl_pid fuel buf h msglen intr w)
    unfolding msg_loop
    msg_loop-Safe zero buf h msglen intr w same near enough k = absurd (omega arith)
    msg_loop-Safe (suc fuel) buf h msglen intr w same near enough k =
        elim (check s laws size end (omega arith) buf h msglen same near) [
          | bad e ↦ rw e (same, k)
          | good l e el big fits hdr all ↦
              let (flags, ef) =
                load16-done buf (h + s.nlmsg_flags_at) (omega (arith, laws.nlmsg_flags_inside)) in
              let (buf', eb, written) =
                store16-done buf (h + s.nlmsg_flags_at) (clear flags a.nc_flags)
                  (omega (arith, laws.nlmsg_flags_inside)) in
              let same' = written.same ∙ same in
              let el' =
                load32-Apart written (h + s.nlmsg_len_at)
                  (inl (omega (arith, laws.nlmsg_len_first)))
                ∙ el in
              let i : Inside s size slack buf' h = record {
                len = l;
                same = same';
                header = omega arith;
                len_read = el';
                big = big;
                whole = omega arith;
              } in
              rw (e, ef, eb)
                (and_then-Safe (Keeps K) (Kept K size) (handle s a nl_pid buf' h intr w) _
                  (handle-Safe s laws size slack room K a safe nl_pid buf' h intr w i k)
                  (λ what w' k'.
                    follow-Safe (msg_loop s a nl_pid fuel buf') buf' h l msglen what w' same' el' k'
                      (λ intr'.
                        msg_loop-Safe fuel buf' (h + s.nlmsg_align l) (sub msglen (s.nlmsg_align l))
                          intr' w' same' (Before-next s laws size end (omega arith) h l msglen near)
                          (shorter s laws size end (omega arith) l fuel msglen big fits enough)
                          k')))
        ]
