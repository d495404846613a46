-- ===== src/Netlink/Dump/Finish.antt =====
-- What the dump loop of android/src/main/c/libnetlink.c does with the message that ends the dump.
use lan_scan.Base.{
  ℕ, suc, ◌+◌, ◌≤◌, ◌<◌, ◌≡◌, refl, ◌∙◌, arith, lt→ltb, le→ltb, le→leb, ◌==◌, ==-self, ==-ne, not,
  ◌||◌, Bool, true, false, inl, inr, Option, none, some, take, ◌++◌, List, [], ◌∷◌, ◌^◌, length, ℤ,
  pos, bit_and,
}
use lan_scan.Memory.{done, load32, load16-done}
use lan_scan.Memory.Writes.{Written, store16-done, load16-Apart, load32-Apart}
use lan_scan.Netlink.Attr.{clear}
use lan_scan.Netlink.Dump.{
  DumpFilterArg, walked, breaks, rtnl_dump_done, dispatch, handle, follow, msg_loop, onward,
  filters_loop, conclude, write_dump, file_write, took, recv_loop,
}
use lan_scan.Netlink.Message.{nlmsg_length, nlmsg_ok, nlmsg_len, nlmsg_type, nlmsg_seq}
use lan_scan.Sys.{Sys}
use lan_scan.Sys.Laws.{SysLaws}
use lan_scan.Text.Buffer.{overlay}
use lan_scan.World.{World, dump_interrupted, Received, datagram, Cmd, ok}

-- The end of the dump `dump` at `h`, with no error in it.
pub record EndsAt (s : Sys) (buf : List ℕ) (h size dump : ℕ) : Type 0 where
  pub len : ℕ
  pub word : ℕ
  pub len_read : nlmsg_len s buf h ≡ done len
  pub long : nlmsg_length s 4 ≤ len
  pub fits : len ≤ size
  pub whole : h + len ≤ length buf
  pub type_read : nlmsg_type s buf h ≡ done s.nlmsg_done
  pub seq_read : nlmsg_seq s buf h ≡ done dump
  pub word_read : load32 buf (h + nlmsg_length s 0) ≡ done word
  pub no_error : word < 2 ^ 31

module _ (s : Sys) (laws : SysLaws s) where
  rtnl_dump_done-ends :
      (buf : List ℕ) (h size dump : ℕ) (w : World)
      → EndsAt s buf h size dump
      → rtnl_dump_done s buf h w ≡ ok (pos 0) w
  unfolding rtnl_dump_done
  rtnl_dump_done-ends buf h size dump w i =
      rw
        (
          i.word_read,
          i.len_read,
          le→ltb i.len (nlmsg_length s 4) i.long,
          lt→ltb i.word (2 ^ 31) i.no_error,
        )
        refl

  handle-ends :
      (a : DumpFilterArg) (buf : List ℕ) (h size : ℕ) (intr : Bool) (w : World)
      → EndsAt s buf h size w.rth.dump
      → (intr' : Bool) × (handle s a 0 buf h intr w ≡ ok (breaks intr') w)
  unfolding handle dispatch
  handle-ends a buf h size intr w i =
      let (flags, ef) = load16-done buf (h + s.nlmsg_flags_at) (
        omega (
          arith,
          laws.nlmsg_flags_inside,
          i.long,
          i.whole,
          laws.nlmsg_align_up s.sizeof_nlmsghdr,
        )) in
      (
        intr || not (bit_and flags s.nlm_f_dump_intr == 0),
        rw
            (
              i.seq_read,
              ==-self (w.rth.dump),
              ef,
              i.type_read,
              ==-self s.nlmsg_done,
              rtnl_dump_done-ends buf h size (w.rth.dump) w i,
            )
            refl,
      )

  nlmsg_ok-ends :
      (buf : List ℕ) (h size dump : ℕ)
      → EndsAt s buf h size dump
      → nlmsg_ok s buf h (pos size) ≡ done true
  unfolding nlmsg_ok
  nlmsg_ok-ends buf h size dump i =
      let header : s.sizeof_nlmsghdr ≤ i.len =
        omega (arith, i.long, laws.nlmsg_align_up s.sizeof_nlmsghdr) in
      rw
        (
          le→leb s.sizeof_nlmsghdr size (omega (arith, i.fits)),
          i.len_read,
          le→leb s.sizeof_nlmsghdr i.len header,
          le→leb i.len size i.fits,
        )
        refl

  -- Clearing the flags leaves the rest of the message.
  Written-EndsAt :
      (buf : List ℕ) (h size dump : ℕ) (bytes buf' : List ℕ)
      → length bytes ≡ 2
      → Written buf (h + s.nlmsg_flags_at) bytes buf'
      → EndsAt s buf h size dump
      → EndsAt s buf' h size dump
  Written-EndsAt buf h size dump bytes buf' two w i = record {
    len = i.len;
    word = i.word;
    len_read =
        load32-Apart w (h + s.nlmsg_len_at) (inl (omega (arith, laws.nlmsg_len_first)))
        ∙ i.len_read;
    long = i.long;
    fits = i.fits;
    whole = omega (arith, w.same, i.whole);
    type_read =
        load16-Apart w (h + s.nlmsg_type_at) (inl (omega (arith, laws.nlmsg_flags_behind)))
        ∙ i.type_read;
    seq_read =
        load32-Apart w (h + s.nlmsg_seq_at) (inr (omega (arith, laws.nlmsg_seq_behind)))
        ∙ i.seq_read;
    word_read =
        load32-Apart w (h + nlmsg_length s 0)
          (inr (omega (arith, laws.nlmsg_flags_inside, laws.nlmsg_align_up s.sizeof_nlmsghdr)))
        ∙ i.word_read;
    no_error = i.no_error;
  }

  msg_loop-ends :
      (a : DumpFilterArg) (fuel : ℕ) (buf : List ℕ) (h size : ℕ) (intr : Bool) (w : World)
      → EndsAt s buf h size w.rth.dump
      → (buf' : List ℕ) × (intr' : Bool) × (msg_loop s a 0 (suc fuel) buf h (pos size) intr w
          ≡ ok (walked buf' (pos size) true intr') w)
  unfolding msg_loop follow
  msg_loop-ends a fuel buf h size intr w i =
      let inside : h + s.nlmsg_flags_at + 2 ≤ length buf =
        omega (
          arith,
          laws.nlmsg_flags_inside,
          i.long,
          i.whole,
          laws.nlmsg_align_up s.sizeof_nlmsghdr,
        ) in
      let (flags, ef) = load16-done buf (h + s.nlmsg_flags_at) inside in
      let (buf', eb, written) =
        store16-done buf (h + s.nlmsg_flags_at) (clear flags a.nc_flags) inside in
      let (intr', eh) =
        handle-ends a buf' h size intr w
          (Written-EndsAt buf h size (w.rth.dump) _ buf' refl written i) in
      (buf', intr', rw (nlmsg_ok-ends buf h size (w.rth.dump) i, ef, eb, eh) refl)

  file_write-none :
      (o : Option (List ℕ)) (bytes : List ℕ) (w : World)
      → o ≡ none
      → file_write s o bytes w ≡ ok tt w
  unfolding file_write
  file_write-none none bytes w h = refl
  file_write-none (some x) bytes w h = absurd (cc h)

  write_dump-none :
      (buf : List ℕ) (n : ℕ) (w : World) → w.rth.dump_fp ≡ none → write_dump s buf n w ≡ ok tt w
  unfolding write_dump
  write_dump-none buf n w h = file_write-none (w.rth.dump_fp) (take (s.nlmsg_align n) buf) w h

  conclude-found :
      (again : List ℕ → Bool → Cmd ℤ) (msg_flags : ℕ) (buf : List ℕ) (msglen : ℤ) (intr : Bool)
      (w : World)
      → (w' : World) × (conclude s again msg_flags (walked buf msglen true intr) w ≡ ok (pos 0) w')
        × (w'.inbox ≡ w.inbox)
  unfolding conclude
  conclude-found again msg_flags buf msglen false w = (w, refl, refl)
  conclude-found again msg_flags buf msglen true w =
      (record w { notes = w.notes ++ (dump_interrupted ∷ []) }, refl, refl)

  -- A datagram of the kernel that starts with the end of the dump.
  pub datagram-ends :
      (a : DumpFilterArg) (rest : List Received) (bytes : List ℕ) (msg_flags : ℕ) (buf : List ℕ)
      (intr : Bool) (w : World)
      → w.rth.dump_fp ≡ none
      → EndsAt s (overlay bytes buf) 0 (length bytes) w.rth.dump
      → (w' : World) × (recv_loop s (a ∷ []) (datagram bytes 0 msg_flags ∷ rest) buf intr w
          ≡ ok (pos 0) w')
        × (w'.inbox ≡ rest)
  unfolding recv_loop took filters_loop onward
  datagram-ends a rest bytes msg_flags buf intr w no_file i =
      let w1 = record w { inbox = rest } in
      let (buf', intr', el) =
        msg_loop-ends a (length bytes) (overlay bytes buf) 0 (length bytes) intr w1 i in
      let some_bytes : (length bytes == 0) ≡ false =
        ==-ne (length bytes) 0 (omega (arith, i.long, i.fits)) in
      let (w', ec, same) =
        conclude-found (recv_loop s (a ∷ []) rest) msg_flags buf' (pos (length bytes)) intr' w1 in
      (
        w',
        rw (some_bytes, write_dump-none (overlay bytes buf) (length bytes) w1 no_file, el) ec,
        same,
      )
