-- ===== src/Neigh/Print/Append.antt =====
-- How `print_neigh` of android/src/main/c/ipneigh.c puts an entry into the flush buffer.
use lan_scan.Base.{
  ℕ, ◌+◌, ◌%◌, ◌^◌, ◌≤◌, ◌<◌, ◌≡◌, refl, ◌∙◌, arith, inl, some, List, length, get_elem?,
}
use lan_scan.Memory.{done, load16, load32}
use lan_scan.Memory.Laws.{slice, length-slice, bytes_at-slice, get_elem?-slice}
use lan_scan.Memory.Writes.{
  Written, bytes16, bytes32, copy-done, store16-done, store32-done, load16-Apart, load16-Written,
  load32-Written,
}
use lan_scan.Neigh.Print.{flush_append, set_filter}
use lan_scan.Sys.{Sys}
use lan_scan.Sys.Laws.{SysLaws}
use lan_scan.World.{World, ok}

-- The message of `len` bytes at `n` of `m`, as it stands at `fn` of the buffer `b'`: a request to delete the
-- entry, with the next sequence number. What stood in front of it in `b` is as it was.
pub record Waits (s : Sys) (m : List ℕ) (n len : ℕ) (b : List ℕ) (fn seq : ℕ) (b' : List ℕ)
    : Type 0 where
  pub same : length b' ≡ length b
  pub type : load16 b' (fn + s.nlmsg_type_at) ≡ done (s.rtm_delneigh % 2 ^ 16)
  pub flags : load16 b' (fn + s.nlmsg_flags_at) ≡ done (s.nlm_f_request % 2 ^ 16)
  pub seq_read : load32 b' (fn + s.nlmsg_seq_at) ≡ done (seq % 2 ^ 32)
  pub body : (q : ℕ) → s.sizeof_nlmsghdr ≤ q → q < len → get_elem? b' (fn + q) ≡ get_elem? m (n + q)
  pub front : (q : ℕ) → q < fn → get_elem? b' q ≡ get_elem? b q

-- What the state is with one entry more in the buffer.
abbrev pub with_entry : Sys → (len : ℕ) → List ℕ → World → World
with_entry s len b' w = record w {
  rth = record (w.rth) { seq = (w.rth.seq + 1) % 2 ^ 32 };
  filter = record (w.filter) {
    flushb = some b';
    flushp = s.nlmsg_align w.filter.flushp + len;
    flushed = w.filter.flushed + 1;
  };
}

module _ (s : Sys) (laws : SysLaws s) (m : List ℕ) (n len : ℕ) (inside : n + len ≤ length m)
    (header : s.sizeof_nlmsghdr ≤ len) where
  stores-Waits :
      (b : List ℕ) (fn seq : ℕ) (b1 b2 b3 b4 : List ℕ)
      → Written b fn (slice m n len) b1
      → Written b1 (fn + s.nlmsg_type_at) (bytes16 s.rtm_delneigh) b2
      → Written b2 (fn + s.nlmsg_flags_at) (bytes16 s.nlm_f_request) b3
      → Written b3 (fn + s.nlmsg_seq_at) (bytes32 seq) b4
      → Waits s m n len b fn seq b4
  stores-Waits b fn seq b1 b2 b3 b4 w1 w2 w3 w4 = record {
    same = w4.same ∙ w3.same ∙ w2.same ∙ w1.same;
    type =
        load16-Apart w4 (fn + s.nlmsg_type_at)
          (inl (omega (arith, laws.nlmsg_flags_behind, laws.nlmsg_seq_behind)))
        ∙ load16-Apart w3 (fn + s.nlmsg_type_at) (inl (omega (arith, laws.nlmsg_flags_behind)))
        ∙ load16-Written b1 (fn + s.nlmsg_type_at) s.rtm_delneigh b2 w2;
    flags =
        load16-Apart w4 (fn + s.nlmsg_flags_at) (inl (omega (arith, laws.nlmsg_seq_behind)))
        ∙ load16-Written b2 (fn + s.nlmsg_flags_at) s.nlm_f_request b3 w3;
    seq_read = load32-Written b3 (fn + s.nlmsg_seq_at) seq b4 w4;
    body = λ q lo hi.
        w4.back (fn + q) (omega (arith, laws.nlmsg_seq_inside))
        ∙ w3.back (fn + q) (omega (arith, laws.nlmsg_flags_inside))
        ∙ w2.back (fn + q) (omega (arith, laws.nlmsg_type_inside))
        ∙ w1.inside q (omega (arith, length-slice m n len inside))
        ∙ get_elem?-slice m n len q hi;
    front = λ q h.
        w4.front q (omega arith)
        ∙ w3.front q (omega arith)
        ∙ w2.front q (omega arith)
        ∙ w1.front q h;
  }

  -- A message that has a header and for which the buffer has room is put behind those that wait,
  -- as a request to delete the entry with the next sequence number; behind the header it is the
  -- message's own, and what stands in front of it is as it was.
  pub flush_append-Waits :
      (b : List ℕ) (w : World)
      → s.nlmsg_align w.filter.flushp + len ≤ length b
      → (b' : List ℕ) × (flush_append s m n len b w ≡ ok tt (with_entry s len b' w))
        × Waits s m n len b (s.nlmsg_align w.filter.flushp) ((w.rth.seq + 1) % 2 ^ 32) b'
  unfolding flush_append set_filter
  flush_append-Waits b w room =
      let fn = s.nlmsg_align w.filter.flushp in
      let size = length-slice m n len inside in
      let (b1, e1, w1) = copy-done b fn (slice m n len) (omega (arith, size)) in
      let (b2, e2, w2) =
        store16-done b1 (fn + s.nlmsg_type_at) s.rtm_delneigh
          (omega (arith, laws.nlmsg_type_inside, w1.same)) in
      let (b3, e3, w3) =
        store16-done b2 (fn + s.nlmsg_flags_at) s.nlm_f_request
          (omega (arith, laws.nlmsg_flags_inside, w1.same, w2.same)) in
      let (b4, e4, w4) =
        store32-done b3 (fn + s.nlmsg_seq_at) ((w.rth.seq + 1) % 2 ^ 32)
          (omega (arith, laws.nlmsg_seq_inside, w1.same, w2.same, w3.same)) in
      (
        b4,
        rw (bytes_at-slice m n len inside, e1, e2, e3, e4) refl,
        stores-Waits b fn ((w.rth.seq + 1) % 2 ^ 32) b1 b2 b3 b4 w1 w2 w3 w4,
      )
