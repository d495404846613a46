-- ===== src/Neigh/Print/Flush.antt =====
-- The flush buffer of `print_neigh` of android/src/main/c/ipneigh.c.
use lan_scan.Base.{
  ℕ, ◌+◌, ◌%◌, ◌^◌, ◌≤◌, ◌<◌, ◌≡◌, ◌⊎◌, refl, ap, ◌∙◌, arith, ltb, Bool-cases, inl, inr, Option,
  none, some, List, [], ◌∷◌, ◌++◌, subst, length, ℤ, pos, negsuc, All, is_neg, is_zero, not, ◌&&◌,
  if◌then◌else◌,
}
use lan_scan.Memory.Laws.{slice, bytes_at-slice}
use lan_scan.Neigh.Print.{
  Env, is_errno, flush_append, flush_update, flushed_ok, flush_entry, set_filter,
}
use lan_scan.Neigh.Print.Append.{Waits, with_entry, flush_append-Waits}
use lan_scan.Netlink.Send.{rtnl_send_check}
use lan_scan.Netlink.Send.Check.{
  Judged, good_answer, truncated, told, Checks, waits, not_sent, no_answer, replied, after_send,
  Small, rtnl_send_check-Checks,
}
use lan_scan.Text.Buffer.{overlay}
use lan_scan.Sys.{Sys}
use lan_scan.Sys.Laws.{SysLaws}
use lan_scan.World.{World, Filter, Exec, and_then, SendAnswer, pure, ◌>>◌}
use lan_scan.World.Safe.{Safe, and_then-Safe}

-- The buffer has the size that the filter says, and what waits in it lies inside.
pub record IsFlushing (b : List ℕ) (f : Filter) : Type 0 where
  pub buffer : f.flushb ≡ some b
  pub room : f.flushe ≤ length b
  pub used : f.flushp ≤ f.flushe

-- These bytes were sent, and the handle and the filter are as they were.
abbrev pub Sent : (bytes : List ℕ) → World → World → Type 0
Sent bytes w v = (v.sent ≡ w.sent ++ (bytes ∷ [])) × (v.rth ≡ w.rth) × (v.filter ≡ w.filter)

rtnl_send_check-Safe :
    (s : Sys) (laws : SysLaws s) (resp bytes : List ℕ) (w : World)
    → All (Small (length resp)) w.answers
    → Safe (λ (a : ℤ) v. Sent bytes w v) (rtnl_send_check s resp bytes w)
rtnl_send_check-Safe s laws resp bytes w small =
    by_outcome (rtnl_send_check s resp bytes w) w.answers
      (rtnl_send_check-Checks s laws resp bytes w small)
  where
    judged :
        (m : List ℕ) (v : World) (x : Exec ℤ) (o : Option ℕ)
        → Sent bytes w v
        → Judged s m v x o
        → Safe (λ (a : ℤ) v. Sent bytes w v) x
    judged m v x none same (good_answer er) = rw er same
    judged m v x (some h) same (truncated l el few er) = rw er same
    judged m v x (some h) same (told l word el whole ew er) = rw er same

    by_outcome :
        (x : Exec ℤ) (answers : List SendAnswer)
        → Checks s resp bytes w x answers
        → Safe (λ (a : ℤ) v. Sent bytes w v) x
    by_outcome x [] (waits er) = rw er tt
    by_outcome x (a ∷ rest) (not_sent failed er) = rw er (refl, refl, refl)
    by_outcome x (a ∷ rest) (no_answer e sent at er) = rw er (refl, refl, refl)
    by_outcome x (a ∷ rest) (replied bs o sent at first j) =
        judged (overlay bs resp) (after_send bytes a rest w) x o (refl, refl, refl) j

abbrev pub emptied : World → Filter
emptied w = record (w.filter) { flushp = 0 }

-- The bytes were sent, and the buffer is empty again, or the call failed and the filter is as it was.
abbrev Flushed : (bytes : List ℕ) → World → ℤ → World → Type 0
Flushed bytes w a v =
    (v.sent ≡ w.sent ++ (bytes ∷ []))
    × (v.rth ≡ w.rth)
    × (((a ≡ pos 0) × (v.filter ≡ emptied w)) ⊎ ((a ≡ negsuc 0) × (v.filter ≡ w.filter)))

-- What the flush branch does with the message of `len` bytes at `n` of `m`, where the buffer is `b`: it
-- puts the message behind those that wait; or the buffer is full and what waits is sent, and then
-- the message stands alone at the front of the buffer, or the sending fails, the answer is -1 and the
-- buffer is as it was.
pub data Flushes (s : Sys) (m : List ℕ) (n len : ℕ) (b : List ℕ) (w : World)
    : ℤ → World → Type 0 where
  put_behind :
      (b' : List ℕ)
      → s.nlmsg_align w.filter.flushp + len ≤ w.filter.flushe
      → Waits s m n len b (s.nlmsg_align w.filter.flushp) ((w.rth.seq + 1) % 2 ^ 32) b'
      → IsFlushing b' ((with_entry s len b' w).filter)
      → Flushes s m n len b w (pos 0) (with_entry s len b' w)
  put_alone :
      (u : World) (b' : List ℕ)
      → w.filter.flushe < s.nlmsg_align w.filter.flushp + len
      → u.sent ≡ w.sent ++ (slice b 0 w.filter.flushp ∷ [])
      → u.filter ≡ emptied w
      → Waits s m n len b 0 ((w.rth.seq + 1) % 2 ^ 32) b'
      → IsFlushing b' ((with_entry s len b' u).filter)
      → Flushes s m n len b w (pos 0) (with_entry s len b' u)
  not_flushed :
      (v : World)
      → w.filter.flushe < s.nlmsg_align w.filter.flushp + len
      → v.sent ≡ w.sent ++ (slice b 0 w.filter.flushp ∷ [])
      → v.filter ≡ w.filter
      → Flushes s m n len b w (negsuc 0) v

module _ (s : Sys) (laws : SysLaws s) (e : Env) (b : List ℕ) (w : World) (i : IsFlushing b w.filter)
    (small : All (Small (length e.resp)) w.answers) where
  abbrev waiting : List ℕ
  waiting = slice b 0 w.filter.flushp

  flushed_ok-Safe :
      (status : ℤ) (v : World) → Sent waiting w v → Safe (Flushed waiting w) (flushed_ok s status v)
  unfolding flushed_ok set_filter
  flushed_ok-Safe status v (sent, rth, same) =
      elim (Bool-cases (is_neg status && not (is_errno v.errno s.eaddrnotavail))) [
        | inl bad ↦ rw bad (sent, rth, inr (refl, same))
        | inr fine ↦
            rw fine (sent, rth, inl (refl, ap (λ (f : Filter). record f { flushp = 0 }) same))
      ]

  flush_update-Safe : Safe (Flushed waiting w) (flush_update s e b w)
  unfolding flush_update
  flush_update-Safe = rw (bytes_at-slice b 0 w.filter.flushp (omega (arith, i.room, i.used))) (
      and_then-Safe (λ (a : ℤ) v. Sent waiting w v) (Flushed waiting w)
        (rtnl_send_check s e.resp waiting w) _ (rtnl_send_check-Safe s laws e.resp waiting w small)
        flushed_ok-Safe)

  module _ (m : List ℕ) (n len : ℕ) (inside : n + len ≤ length m) (header : s.sizeof_nlmsghdr ≤ len)
      (fits : len ≤ w.filter.flushe) where
    -- The buffer after an entry was put into it.
    still-IsFlushing :
        (v : World) (b' : List ℕ)
        → v.filter.flushe ≡ w.filter.flushe
        → s.nlmsg_align v.filter.flushp + len ≤ w.filter.flushe
        → length b' ≡ length b
        → IsFlushing b' ((with_entry s len b' v).filter)
    still-IsFlushing v b' same room size = record {
      buffer = refl;
      room = omega (arith, size, same, i.room);
      used = omega (arith, same);
    }

    append_behind :
        s.nlmsg_align w.filter.flushp + len ≤ w.filter.flushe
        → Safe (Flushes s m n len b w) (and_then (flush_append s m n len b w) (λ u. pure (pos 0)))
    append_behind room =
        let (b', er, new) =
          flush_append-Waits s laws m n len inside header b w (omega (arith, i.room, room)) in
        rw er (put_behind b' room new (still-IsFlushing w b' refl room new.same))

    then_append :
        w.filter.flushe < s.nlmsg_align w.filter.flushp + len
        → (status : ℤ) (v : World) → Flushed waiting w status v
        → Safe (Flushes s m n len b w) (
            (if is_zero status then (flush_append s m n len b >> pure (pos 0)) else pure (negsuc 0))
              v)
    then_append full status v (sent, rth, inr (failed, same)) =
        rw failed (not_flushed v full sent same)
    then_append full status v (sent, rth, inl (fine, empty)) =
        let front : s.nlmsg_align v.filter.flushp ≡ 0 =
          ap (λ (f : Filter). s.nlmsg_align f.flushp) empty ∙ laws.nlmsg_align_zero in
        let size : v.filter.flushe ≡ w.filter.flushe = ap (λ (f : Filter). f.flushe) empty in
        let (b', er, new) =
          flush_append-Waits s laws m n len inside header b v (omega (arith, i.room, front)) in
        let new' : Waits s m n len b 0 ((w.rth.seq + 1) % 2 ^ 32) b' =
          subst (λ p. Waits s m n len b p ((w.rth.seq + 1) % 2 ^ 32) b') front
            (subst
              (λ r. Waits s m n len b (s.nlmsg_align v.filter.flushp) ((r.seq + 1) % 2 ^ 32) b') rth
              new) in
        rw (fine, er)
          (put_alone v b' full sent empty new'
            (still-IsFlushing v b' size (omega (arith, front)) new.same))

    -- For a message that has a header and fits the empty buffer, where what waits lies inside the
    -- buffer and the answers fit their array, the flush branch makes no access outside an array,
    -- whatever is answered. Where it gives an answer, the message was put into the buffer behind
    -- what waits, if there was room. If there was not, what waits was sent, and then either the
    -- message was put at the front of the buffer, or the sending failed: the answer is -1, the message
    -- is not put into the buffer and what waits stays. What waits then lies inside again.
    pub flush_entry-Safe : Safe (Flushes s m n len b w) (flush_entry s e m n len b w)
    unfolding flush_entry
    flush_entry-Safe =
        elim (Bool-cases (ltb w.filter.flushe (s.nlmsg_align w.filter.flushp + len))) [
          | inl full ↦ rw full (
              and_then-Safe (Flushed waiting w) (Flushes s m n len b w) (flush_update s e b w) _
                flush_update-Safe (then_append (ground arith)))
          | inr room ↦ rw room (append_behind (ground arith))
        ]
