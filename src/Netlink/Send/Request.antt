-- ===== src/Netlink/Send/Request.antt =====
-- The message that `rtnl_dump_request_n` of android/src/main/c/libnetlink.c sends.
use lan_scan.Base.{
  ℕ, ◌+◌, ◌%◌, ◌^◌, ◌≤◌, ◌≡◌, ap, ◌∙◌, arith, inl, inr, List, [], ◌∷◌, length, get_elem?, bit_or,
}
use lan_scan.Memory.{done, load16, load32}
use lan_scan.Memory.Laws.{slice, bytes_at-slice}
use lan_scan.Memory.Writes.{
  Written, bytes16, bytes32, store16-done, store32-done, load16-Apart, load32-Apart, load16-Written,
  load32-Written,
}
use lan_scan.Netlink.Send.{next_answer, set_rth, transmit, rtnl_dump_request_n}
use lan_scan.Sys.{Sys}
use lan_scan.Sys.Laws.{SysLaws}
use lan_scan.World.{World, Filter, Received, SendAnswer, and_then, pure}
use lan_scan.World.Safe.{Safe}

-- The sequence number that comes next.
abbrev pub next_seq : World → ℕ
next_seq w = (w.rth.seq + 1) % 2 ^ 32

-- The handle waits for a dump with the next sequence number.
abbrev pub asking : World → World
asking w = record w { rth = record (w.rth) { seq = next_seq w; dump = next_seq w } }

-- The message `n` as it is sent: the flags, the port 0 and the next sequence number stand in its header,
-- the length, the type and all behind the header are as they were.
pub record IsRequest (s : Sys) (n : List ℕ) (w : World) (n' : List ℕ) : Type 0 where
  pub same : length n' ≡ length n
  pub flags : load16 n' s.nlmsg_flags_at ≡ done (bit_or s.nlm_f_dump s.nlm_f_request % 2 ^ 16)
  pub pid : load32 n' s.nlmsg_pid_at ≡ done 0
  pub seq : load32 n' s.nlmsg_seq_at ≡ done (next_seq w)
  pub len : load32 n' s.nlmsg_len_at ≡ load32 n s.nlmsg_len_at
  pub type : load16 n' s.nlmsg_type_at ≡ load16 n s.nlmsg_type_at
  pub behind : (q : ℕ) → s.sizeof_nlmsghdr ≤ q → get_elem? n' q ≡ get_elem? n q

-- Sending changes neither the filter, nor what will be received, nor what was printed.
pub transmit-Safe :
    (s : Sys) (Q : Filter → List Received → List ℕ → Type 0) (bytes : List ℕ) (w : World)
    → Q w.filter w.inbox w.out
    → Safe (λ (a : SendAnswer) w'. Q w'.filter w'.inbox w'.out) (transmit s bytes w)
unfolding transmit next_answer
transmit-Safe s Q bytes w q = by_answer w.answers
  where
    by_answer :
        (answers : List SendAnswer)
        → Safe (λ (a : SendAnswer) w'. Q w'.filter w'.inbox w'.out) (next_answer s answers bytes w)
    by_answer [] = tt
    by_answer (a ∷ rest) = q

module _ (s : Sys) (laws : SysLaws s) (n : List ℕ) (w : World) where
  stores-IsRequest :
      (n1 n2 n3 : List ℕ)
      → Written n s.nlmsg_flags_at (bytes16 (bit_or s.nlm_f_dump s.nlm_f_request)) n1
      → Written n1 s.nlmsg_pid_at (bytes32 0) n2
      → Written n2 s.nlmsg_seq_at (bytes32 (next_seq w)) n3
      → IsRequest s n w n3
  stores-IsRequest n1 n2 n3 w1 w2 w3 = record {
    same = w3.same ∙ w2.same ∙ w1.same;
    flags =
        load16-Apart w3 s.nlmsg_flags_at (inl (omega (arith, laws.nlmsg_seq_behind)))
        ∙ load16-Apart w2 s.nlmsg_flags_at
            (inl (omega (arith, laws.nlmsg_seq_behind, laws.nlmsg_pid_behind)))
        ∙ load16-Written n s.nlmsg_flags_at (bit_or s.nlm_f_dump s.nlm_f_request) n1 w1;
    pid =
        load32-Apart w3 s.nlmsg_pid_at (inr (omega (arith, laws.nlmsg_pid_behind)))
        ∙ load32-Written n1 s.nlmsg_pid_at 0 n2 w2;
    seq = load32-Written n2 s.nlmsg_seq_at (next_seq w) n3 w3 ∙ ap done (omega arith);
    len =
        load32-Apart w3 s.nlmsg_len_at
          (inl (omega (arith, laws.nlmsg_len_first, laws.nlmsg_seq_behind)))
        ∙ load32-Apart w2 s.nlmsg_len_at (
            inl (omega (arith, laws.nlmsg_len_first, laws.nlmsg_seq_behind, laws.nlmsg_pid_behind)))
        ∙ load32-Apart w1 s.nlmsg_len_at (inl laws.nlmsg_len_first);
    type =
        load16-Apart w3 s.nlmsg_type_at
          (inl (omega (arith, laws.nlmsg_flags_behind, laws.nlmsg_seq_behind)))
        ∙ load16-Apart w2 s.nlmsg_type_at (
            inl (
              omega (arith, laws.nlmsg_flags_behind, laws.nlmsg_seq_behind, laws.nlmsg_pid_behind)))
        ∙ load16-Apart w1 s.nlmsg_type_at (inl laws.nlmsg_flags_behind);
    behind = λ q h.
        w3.back q (omega (arith, laws.nlmsg_seq_inside))
        ∙ w2.back q (omega (arith, laws.nlmsg_pid_inside))
        ∙ w1.back q (omega (arith, laws.nlmsg_flags_inside));
  }

  -- For a message whose length field is not behind its array, what is sent is its first bytes, as
  -- many as that field says, with the flags of a dump request, the port 0 and the next sequence
  -- number in its header and all else as it was; the result is that of the call. Before it, the
  -- handle has taken the next sequence number, also as that of the dump.
  pub rtnl_dump_request_n-IsRequest :
      (l : ℕ)
      → s.sizeof_nlmsghdr ≤ length n
      → load32 n s.nlmsg_len_at ≡ done l
      → l ≤ length n
      → (n' : List ℕ) × IsRequest s n w n'
        × (rtnl_dump_request_n s n w
            ≡ and_then (transmit s (slice n' 0 l) (asking w)) (λ a. pure a.status))
  unfolding rtnl_dump_request_n set_rth
  rtnl_dump_request_n-IsRequest l room el fits =
      let (n1, e1, w1) =
        store16-done n s.nlmsg_flags_at (bit_or s.nlm_f_dump s.nlm_f_request)
          (omega (arith, laws.nlmsg_flags_inside)) in
      let (n2, e2, w2) =
        store32-done n1 s.nlmsg_pid_at 0 (omega (arith, laws.nlmsg_pid_inside, w1.same)) in
      let (n3, e3, w3) =
        store32-done n2 s.nlmsg_seq_at (next_seq w)
          (omega (arith, laws.nlmsg_seq_inside, w1.same, w2.same)) in
      (
        n3,
        stores-IsRequest n1 n2 n3 w1 w2 w3,
        rw (el, e1, e2, e3, bytes_at-slice n3 0 l (omega (arith, w1.same, w2.same, w3.same))),
      )
