-- ===== src/Netlink/Message/Inside.antt =====
-- What NLMSG_OK of the system's netlink header says of a message, and NLMSG_NEXT of the next one.
use lan_scan.Base.{
  ℕ, suc, ◌+◌, ◌≤◌, ◌<◌, ◌≡◌, refl, arith, leb, leb→le, ◌&&◌, true, false, Bool-cases, inl, inr,
  List, length, ℤ, pos, negsuc, sub, to_ℕ,
}
use lan_scan.Memory.{done, load32-done}
use lan_scan.Netlink.Message.{nlmsg_ok, nlmsg_len}
use lan_scan.Sys.{Sys}
use lan_scan.Sys.Laws.{SysLaws}

-- `len` bytes from `h` on end at `end`.
abbrev pub Before : ℕ → ℕ → ℤ → Type 0
Before end h (pos n) = h + n ≤ end
Before end h (negsuc n) = Unit

module _ (s : Sys) (laws : SysLaws s) (size end : ℕ) (inside : end ≤ size) where
  -- What NLMSG_OK says of bytes inside the buffer.
  pub data Checked (buf : List ℕ) (h : ℕ) (len : ℤ) : Type 0 where
    bad : nlmsg_ok s buf h len ≡ done false → Checked buf h len
    good :
        (l : ℕ)
        → nlmsg_ok s buf h len ≡ done true
        → nlmsg_len s buf h ≡ done l
        → s.sizeof_nlmsghdr ≤ l
        → l ≤ to_ℕ len
        → h + s.sizeof_nlmsghdr ≤ end
        → h + l ≤ end
        → Checked buf h len

  pub check :
      (buf : List ℕ) (h : ℕ) (len : ℤ) → length buf ≡ size → Before end h len → Checked buf h len
  unfolding nlmsg_ok
  check buf h (negsuc n) same near = bad refl
  check buf h (pos n) same near = elim (Bool-cases (leb s.sizeof_nlmsghdr n)) [
    | inr small ↦ bad (rw small)
    | inl fits ↦
        let big = leb→le _ _ fits in
        let (l, el) =
          load32-done buf (h + s.nlmsg_len_at)
            (omega (arith, laws.nlmsg_len_inside, laws.nlmsg_align_up s.sizeof_nlmsghdr)) in
        elim (Bool-cases (leb s.sizeof_nlmsghdr l && leb l n)) [
          | inr no_good ↦ bad (rw (fits, el, no_good))
          | inl all_good ↦
              good l (rw (fits, el, all_good)) el (ground arith) (ground arith) (omega arith)
                (ground arith)
        ]
  ]

  pub Before-next :
      (h l : ℕ) (len : ℤ)
      → Before end h len
      → Before end (h + s.nlmsg_align l) (sub len (s.nlmsg_align l))
  Before-next h l (negsuc n) near = tt
  Before-next h l (pos n) near = elim (Bool-cases (leb (s.nlmsg_align l) n)) [
    | inl e ↦ rw e (omega (arith, leb→le _ _ e))
    | inr e ↦ rw e tt
  ]

  pub shorter :
      (l fuel : ℕ) (len : ℤ)
      → s.sizeof_nlmsghdr ≤ l
      → l ≤ to_ℕ len
      → to_ℕ len < suc fuel
      → to_ℕ (sub len (s.nlmsg_align l)) < fuel
  shorter l fuel (negsuc n) big h f = absurd (omega (arith, laws.nlmsg_len_inside))
  shorter l fuel (pos n) big h f = ground (arith, laws.nlmsg_align_up l, laws.nlmsg_len_inside)
