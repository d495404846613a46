-- ===== src/Netlink/Send/Check.antt =====
-- `rtnl_send_check` of android/src/main/c/libnetlink.c: sending, and the answer that is there at once.
use lan_scan.Base.{
  ℕ, zero, suc, ◌+◌, ◌≤◌, ◌<◌, ◌≡◌, refl, arith, le-or-lt, le→ltb, lt→ltb, ◌==◌, if◌then◌else◌,
  true, false, Bool-cases, inl, inr, All, Option, none, some, List, [], ◌∷◌, ◌++◌, length, ℤ, pos,
  negsuc, neg, sub, is_neg, to_ℕ,
}
use lan_scan.Memory.{done, load32, load16-done, load32-done}
use lan_scan.Netlink.Message.{nlmsg_length, nlmsg_ok, nlmsg_len, nlmsg_type}
use lan_scan.Netlink.Message.Inside.{Before, bad, good, check, Before-next, shorter}
use lan_scan.Netlink.Send.{next_answer, transmit, peek_loop, immediate_answer, rtnl_send_check}
use lan_scan.Sys.{Sys}
use lan_scan.Sys.Laws.{SysLaws}
use lan_scan.Text.Buffer.{overlay, length-overlay}
use lan_scan.World.{
  World, SendAnswer, Peeked, Exec, ok, blocked, and_then, pure, signed32, error_truncated,
}

module _ (s : Sys) (m : List ℕ) where
  -- The first error message among the `len` bytes from `h` on.
  pub data FirstError : ℕ → ℤ → Option ℕ → Type 0 where
    no_more : {h : ℕ} {len : ℤ} → nlmsg_ok s m h len ≡ done false → FirstError h len none
    here :
        {h : ℕ} {len : ℤ} {type : ℕ}
        → nlmsg_ok s m h len ≡ done true
        → nlmsg_type s m h ≡ done type
        → (type == s.nlmsg_error) ≡ true
        → FirstError h len (some h)
    behind :
        {h : ℕ} {len : ℤ} {type l : ℕ} {o : Option ℕ}
        → nlmsg_ok s m h len ≡ done true
        → nlmsg_type s m h ≡ done type
        → (type == s.nlmsg_error) ≡ false
        → nlmsg_len s m h ≡ done l
        → FirstError (h + s.nlmsg_align l) (sub len (s.nlmsg_align l)) o
        → FirstError h len o

  -- 0 where there is none. An error message that is too short is reported, and of another `errno` is
  -- the number that it holds, with its sign turned.
  pub data Judged (w : World) (x : Exec ℤ) : Option ℕ → Type 0 where
    good_answer : x ≡ ok (pos 0) w → Judged w x none
    truncated :
        {h : ℕ} (l : ℕ)
        → nlmsg_len s m h ≡ done l
        → l < nlmsg_length s s.sizeof_nlmsgerr
        → x ≡ ok (negsuc 0) (record w { notes = w.notes ++ (error_truncated ∷ []) })
        → Judged w x (some h)
    told :
        {h : ℕ} (l word : ℕ)
        → nlmsg_len s m h ≡ done l
        → nlmsg_length s s.sizeof_nlmsgerr ≤ l
        → load32 m (h + nlmsg_length s 0 + s.nlmsgerr_error_at) ≡ done word
        → x ≡ ok (negsuc 0) (record w { errno = neg (signed32 word) })
        → Judged w x (some h)

module _ (s : Sys) (laws : SysLaws s) (m : List ℕ) (end : ℕ) (inside : end ≤ length m)
    (w : World) where
  abbrev Answers : ℕ → ℤ → Exec ℤ → Type 0
  Answers h len x = (o : Option ℕ) × FirstError s m h len o × Judged s m w x o

  peek_loop-Judged :
      (fuel h : ℕ) (len : ℤ)
      → Before end h len
      → to_ℕ len < fuel
      → Answers h len (peek_loop s fuel m h len w)
  unfolding peek_loop
  peek_loop-Judged zero h len near enough = absurd (omega arith)
  peek_loop-Judged (suc fuel) h len near enough =
      elim (check s laws (length m) end inside m h len refl near) [
        | bad e ↦ rw e (none, no_more e, good_answer refl)
        | good l e el big fits hdr all ↦
            let (type, et) =
              load16-done m (h + s.nlmsg_type_at) (omega (arith, laws.nlmsg_type_inside)) in
            elim (Bool-cases (type == s.nlmsg_error)) [
              | inr other ↦
                  let (o, first, judged) =
                    peek_loop-Judged fuel (h + s.nlmsg_align l) (sub len (s.nlmsg_align l))
                      (Before-next s laws (length m) end inside h l len near)
                      (shorter s laws (length m) end inside l fuel len big fits enough) in
                  rw (e, et, el, other) (o, behind e et other el first, judged)
              | inl error ↦ elim (le-or-lt (nlmsg_length s s.sizeof_nlmsgerr) l) [
                | inr few ↦
                    rw (e, et, el, error, lt→ltb l (nlmsg_length s s.sizeof_nlmsgerr) few)
                      (some h, here e et error, truncated l el few refl)
                | inl whole ↦
                    let (word, ew) =
                      load32-done m (h + nlmsg_length s 0 + s.nlmsgerr_error_at)
                        (omega (arith, laws.nlmsgerr_error_inside)) in
                    rw (e, et, el, error, le→ltb l (nlmsg_length s s.sizeof_nlmsgerr) whole, ew)
                      (some h, here e et error, told l word el whole ew refl)
              ]
            ]
      ]

-- The state once the bytes are sent and replied.
abbrev pub after_send : List ℕ → SendAnswer → List SendAnswer → World → World
after_send bytes a rest w = record w {
  sent = w.sent ++ (bytes ∷ []);
  answers = rest;
  errno = if is_neg a.status then pos a.errno else w.errno;
}

-- Every outcome, for what the call is to send and what the system will answer.
pub data Checks (s : Sys) (stack bytes : List ℕ) (w : World) (x : Exec ℤ)
    : List SendAnswer → Type 0 where
  waits : x ≡ blocked w → Checks s stack bytes w x []
  not_sent :
      {a : SendAnswer} {rest : List SendAnswer}
      → is_neg a.status ≡ true
      → x ≡ ok a.status (after_send bytes a rest w)
      → Checks s stack bytes w x (a ∷ rest)
  no_answer :
      {a : SendAnswer} {rest : List SendAnswer} (e : ℕ)
      → is_neg a.status ≡ false
      → a.peeked ≡ Peeked.failed e
      → x
        ≡ ok
            (if e == s.eagain then pos 0 else negsuc 0)
            (record (after_send bytes a rest w) { errno = pos e })
      → Checks s stack bytes w x (a ∷ rest)
  replied :
      {a : SendAnswer} {rest : List SendAnswer} (bs : List ℕ) (o : Option ℕ)
      → is_neg a.status ≡ false
      → a.peeked ≡ Peeked.bytes bs
      → FirstError s (overlay bs stack) 0 (pos (length bs)) o
      → Judged s (overlay bs stack) (after_send bytes a rest w) x o
      → Checks s stack bytes w x (a ∷ rest)

-- What the array can hold.
abbrev pub Small : ℕ → SendAnswer → Type 0
Small size a = (bs : List ℕ) → a.peeked ≡ Peeked.bytes bs → length bs ≤ size

module _ (s : Sys) (laws : SysLaws s) (stack bytes : List ℕ) (w : World) where
  immediate_answer-Checks :
      (a : SendAnswer) (rest : List SendAnswer) (p : Peeked)
      → is_neg a.status ≡ false
      → a.peeked ≡ p
      → Small (length stack) a
      → Checks s stack bytes w (immediate_answer s stack p (after_send bytes a rest w)) (a ∷ rest)
  unfolding immediate_answer
  immediate_answer-Checks a rest (Peeked.failed e) sent at small = no_answer e sent at refl
  immediate_answer-Checks a rest (Peeked.bytes bs) sent at small =
      let fits = small bs at in
      let (o, first, judged) =
        peek_loop-Judged s laws (overlay bs stack) (length bs)
          (omega (arith, length-overlay bs stack fits)) (after_send bytes a rest w)
          (suc (length bs)) 0 (pos (length bs)) (omega arith) (omega arith) in
      replied bs o sent at first judged

  sent_on :
      (a : SendAnswer) (v : World)
      → is_neg a.status ≡ false
      → (if is_neg a.status then pure a.status else immediate_answer s stack a.peeked) v
        ≡ immediate_answer s stack a.peeked v
  sent_on a v sent = rw sent refl

  by_answers :
      (answers : List SendAnswer)
      → All (Small (length stack)) answers
      → Checks s stack bytes w
          (and_then
            (next_answer s answers bytes w)
            (λ a. if is_neg a.status then pure a.status else immediate_answer s stack a.peeked))
          answers
  unfolding next_answer
  by_answers [] small = waits refl
  by_answers (a ∷ rest) small = elim (Bool-cases (is_neg a.status)) [
    | inl failed ↦ not_sent failed (rw failed refl)
    | inr sent ↦
        rw (sent_on a (after_send bytes a rest w) sent)
          (immediate_answer-Checks a rest a.peeked sent refl small.0)
  ]

  -- With answers that fit the array, `rtnl_send_check` makes no access outside of it, and its loop ends.
  -- It gives what a failed `send` gave; where nothing is there to read, 0 for EAGAIN and -1 for any other
  -- error; and otherwise -1 exactly where an error message is among the answer, which sets `errno` if it
  -- is whole.
  pub rtnl_send_check-Checks :
      All (Small (length stack)) w.answers
      → Checks s stack bytes w (rtnl_send_check s stack bytes w) w.answers
  unfolding rtnl_send_check transmit
  rtnl_send_check-Checks small = by_answers w.answers small
