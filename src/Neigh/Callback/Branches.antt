-- ===== src/Neigh/Callback/Branches.antt =====
-- `print_neigh` of android/src/main/c/ipneigh.c on a whole message of the dump.
use lan_scan.Base.{
  ℕ, ◌+◌, ◌*◌, ◌≤◌, ◌<◌, ◌≡◌, refl, arith, le-or-lt, ◌==◌, not, ◌&&◌, Bool, true, false, Bool-cases,
  inl, inr, Option, none, some, List, length, sub_ℕ, is_neg,
}
use lan_scan.Libc.{Libc}
use lan_scan.Libc.Laws.{LibcLaws}
use lan_scan.Memory.{load8-done, load16-done, load32-done}
use lan_scan.Neigh.Callback.{is_some, print_neigh}
use lan_scan.Neigh.Callback.Entry.{IsListing}
use lan_scan.Neigh.Callback.Outcome.{
  Outcome, foreign, short, left_out, listed, is_neigh, attributes-Listed,
}
use lan_scan.Neigh.Line.Prints.{IsRoomy}
use lan_scan.Neigh.Print.{Env, Ndmsg, ndmsg, unwanted}
use lan_scan.Netlink.Dump.Safe.{Inside}
use lan_scan.Netlink.Message.{nlmsg_length}
use lan_scan.Sys.{Sys}
use lan_scan.Sys.Laws.{SysLaws}
use lan_scan.World.{World, ok}

module _ (s : Sys) (laws : SysLaws s) (m : List ℕ) where
  ndmsg-done :
      (p : ℕ) (w : World) → p + s.sizeof_ndmsg ≤ length m → (r : Ndmsg) × (ndmsg s m p w ≡ ok r w)
  unfolding ndmsg
  ndmsg-done p w room =
      let (family, e1) =
        load8-done m (p + s.ndm_family_at) (omega (arith, laws.ndm_family_inside)) in
      let (ifindex, e2) =
        load32-done m (p + s.ndm_ifindex_at) (omega (arith, laws.ndm_ifindex_inside)) in
      let (state, e3) = load16-done m (p + s.ndm_state_at) (omega (arith, laws.ndm_state_inside)) in
      let (flags, e4) = load8-done m (p + s.ndm_flags_at) (omega (arith, laws.ndm_flags_inside)) in
      (
        record { family = family; ifindex = ifindex; state = state; flags = flags },
        rw (e1, e2, e3, e4),
      )

is_neg-sub_lt : (a b : ℕ) → a < b → is_neg (sub_ℕ a b) ≡ true
is_neg-sub_lt a b h = ground arith

is_neg-sub_le : (a b : ℕ) → b ≤ a → is_neg (sub_ℕ a b) ≡ false
is_neg-sub_le a b h = ground arith

module _ (s : Sys) (laws : SysLaws s) (c : Libc) (libc : LibcLaws s c) (e : Env) (roomy : IsRoomy e)
    (size slack : ℕ) (spare : 2 * s.sizeof_rtattr + 16 ≤ slack) where
  no_flush_waits : (o : Option (List ℕ)) (b : Bool) → o ≡ none → (is_some s c e o && b) ≡ false
  unfolding is_some
  no_flush_waits none b h = refl
  no_flush_waits (some x) b h = cc

  skips :
      (type : ℕ)
      → (not (type == s.rtm_newneigh)
          && not (type == s.rtm_delneigh)
          && not (type == s.rtm_getneigh))
        ≡ not (is_neigh s type)
  skips type = ground arith

  -- Under the filter of a listing, in an Android build without statistics, with arrays of the
  -- source's sizes and a message that has two attribute headers and 16 bytes of the buffer behind
  -- it, the callback makes no access outside the buffer. A message about something else is
  -- reported and passed over, one that is too short is reported and ends the dump, an entry that
  -- the filter leaves out changes nothing, and any other is printed as one line: what the message
  -- is, the destination, the device, the link-layer address, the flags and the state, from the
  -- attributes that the parser finds.
  pub print_neigh-Outcome :
      (nl_pid : ℕ) (m : List ℕ) (n : ℕ) (w : World) (i : Inside s size slack m n)
      → IsListing w.filter
      → Outcome s c e m n i.len w (print_neigh s c e nl_pid m n w)
  unfolding print_neigh
  print_neigh-Outcome nl_pid m n w i l =
      let (type, et) =
        load16-done m (n + s.nlmsg_type_at)
          (omega (arith, laws.nlmsg_type_inside, i.same, i.header)) in
      let (flags, ef) =
        load16-done m (n + s.nlmsg_flags_at)
          (omega (arith, laws.nlmsg_flags_inside, i.same, i.header)) in
      rw (et, i.len_read, ef, skips type)
        (elim (Bool-cases (is_neigh s type)) [
          | inr other ↦ rw other (foreign type flags et other refl)
          | inl about ↦ rw about (elim (le-or-lt (nlmsg_length s s.sizeof_ndmsg) i.len) [
            | inr few ↦
                rw (is_neg-sub_lt i.len (nlmsg_length s s.sizeof_ndmsg) few) (short few refl)
            | inl body ↦
                let (r, er) =
                  ndmsg-done s laws m (n + nlmsg_length s 0) w (omega (arith, i.same, i.whole)) in
                rw
                  (
                    is_neg-sub_le i.len (nlmsg_length s s.sizeof_ndmsg) body,
                    no_flush_waits w.filter.flushb _ l.no_flush,
                    er,
                  )
                  (elim (Bool-cases (unwanted s w.filter r)) [
                    | inl out ↦ rw out (left_out r er out refl)
                    | inr wanted ↦ rw wanted (
                        listed type r et about er wanted (
                          attributes-Listed s laws c libc e roomy m n i.len
                            (omega (arith, i.same, i.whole)) type flags r w l body))
                  ])
          ])
        ])
