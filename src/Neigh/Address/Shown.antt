-- ===== src/Neigh/Address/Shown.antt =====
-- The text that `ll_addr_n2a` and `format_host` of android/src/main/c/ipneigh.c give for an address inside a
-- message.
use lan_scan.Base.{
  ℕ, ◌+◌, ◌-◌, ◌≤◌, ◌≡◌, arith, ◌==◌, ◌&&◌, if◌then◌else◌, Bool, true, Bool-cases, inl, inr, Option,
  none, some, List, [], length, take, ℤ,
}
use lan_scan.Libc.{Libc}
use lan_scan.Libc.Laws.{LibcLaws}
use lan_scan.Memory.{done}
use lan_scan.Memory.Laws.{byte_at, load8-byte_at, slice, length-slice, bytes_at-slice}
use lan_scan.Neigh.Address.{
  ntop4, ntop6, ll_addr_n2a, is_ip_tunnel, is_ip6_tunnel, arphrd_void, rt_addr_n2a_r, format_host_r,
  format_host,
}
use lan_scan.Neigh.Address.Hex.{hex_text, ll_addr_n2a-text}
use lan_scan.Sys.{Sys}
use lan_scan.Text.Codes.{codes}

abbrev or_empty : Option (List ℕ) → List ℕ
or_empty none = []
or_empty (some t) = t

both_tests : (n k : ℕ) (b : Bool) → ((n == k) && b) ≡ true → n ≡ k
both_tests n k b h = ground arith

module _ (s : Sys) (c : Libc) (m : List ℕ) (p n : ℕ) where
  -- The text of the `n` bytes at `p` as a link-layer address of this type.
  unfoldable pub ll_addr_text : ℤ → (size : ℕ) → List ℕ
  ll_addr_text type size =
      if (n == 4) && is_ip_tunnel type
      then or_empty (c.inet_ntop s.af_inet (slice m p 4) size)
      else if (n == 16) && is_ip6_tunnel type
      then or_empty (c.inet_ntop s.af_inet6 (slice m p 16) size)
      else take (size - 1) (hex_text (λ i. byte_at m (p + i)) n)

  -- And as an address of the family `af`, as an Android build prints it.
  unfoldable pub host_text : (af : ℕ) → List ℕ
  unfolding ll_addr_text
  host_text af =
      if af == s.af_inet
      then or_empty (c.inet_ntop s.af_inet (slice m p 4) 256)
      else if af == s.af_inet6
      then or_empty (c.inet_ntop s.af_inet6 (slice m p 16) 256)
      else if af == s.af_packet
      then ll_addr_text arphrd_void 256
      else codes "???"

module _ (s : Sys) (c : Libc) (laws : LibcLaws s c) (m : List ℕ) (p n : ℕ)
    (behind : p + 16 ≤ length m) (inside : p + n ≤ length m) where
  ntop4-shown :
      (size : ℕ)
      → 16 ≤ size
      → ntop4 s c m p size ≡ done (some (or_empty (c.inet_ntop s.af_inet (slice m p 4) size)))
  unfolding ntop4
  ntop4-shown size room =
      let (t, e) = laws.inet_ntop4 (slice m p 4) size (length-slice m p 4 (omega arith)) room in
      rw (bytes_at-slice m p 4 (omega arith), e)

  ntop6-shown :
      (size : ℕ)
      → 46 ≤ size
      → ntop6 s c m p size ≡ done (some (or_empty (c.inet_ntop s.af_inet6 (slice m p 16) size)))
  unfolding ntop6
  ntop6-shown size room =
      let (t, e) = laws.inet_ntop6 (slice m p 16) size (length-slice m p 16 (omega arith)) room in
      rw (bytes_at-slice m p 16 (omega arith), e)

  pub ll_addr_n2a-shown :
      (type : ℤ) (buf : List ℕ) (blen : ℕ)
      → 46 ≤ blen
      → blen ≤ length buf
      → ll_addr_n2a s c m p n type buf blen ≡ done (some (ll_addr_text s c m p n type blen))
  unfolding ll_addr_text
  ll_addr_n2a-shown type buf blen room fits = elim (Bool-cases ((n == 4) && is_ip_tunnel type)) [
    | inl v4 ↦ rw v4 (unfold ll_addr_n2a in rw (v4, ntop4-shown blen (omega arith)))
    | inr no4 ↦ elim (Bool-cases ((n == 16) && is_ip6_tunnel type)) [
      | inl v6 ↦ rw (no4, v6) (unfold ll_addr_n2a in rw (no4, v6, ntop6-shown blen room))
      | inr no6 ↦
          rw (no4, no6)
            (ll_addr_n2a-text s c m p n type buf blen (λ i. byte_at m (p + i)) (omega arith) fits
              (λ i h. load8-byte_at m (p + i) (omega arith)) no4 no6)
    ]
  ]

  -- For an address inside a message with 16 bytes from its start, `format_host` gives in an
  -- Android build a text for every family and makes no access outside the message or its array of
  -- 256 characters: an IPv4 or IPv6 address as `inet_ntop` prints it, a packet address in
  -- hexadecimal, and `???` for any other.
  pub format_host-shown :
      (af : ℕ) (buf : List ℕ)
      → 256 ≤ length buf
      → format_host s c true af n m p buf ≡ done (some (host_text s c m p n af))
  unfolding format_host format_host_r rt_addr_n2a_r host_text
  format_host-shown af buf fits = elim (Bool-cases (af == s.af_inet)) [
    | inl v4 ↦ rw (v4, ntop4-shown 256 (omega arith))
    | inr no4 ↦ rw no4 (elim (Bool-cases (af == s.af_inet6)) [
      | inl v6 ↦ rw (v6, ntop6-shown 256 (omega arith))
      | inr no6 ↦ rw no6 (elim (Bool-cases (af == s.af_packet)) [
        | inl packet ↦ rw (packet, ll_addr_n2a-shown arphrd_void buf 256 (omega arith) fits)
        | inr other ↦ rw other
      ])
    ])
  ]
