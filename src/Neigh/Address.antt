-- ===== src/Neigh/Address.antt =====
-- Addresses as text: `ll_addr_n2a`, `rt_addr_n2a_r` and `format_host` of android/src/main/c/ipneigh.c.
pub mod Hex
pub mod Shown
use lan_scan.Base.{
  ℕ, zero, suc, ◌+◌, ◌-◌, ltb, ◌==◌, if◌then◌else◌, Bool, false, ◌&&◌, ◌||◌, Option, none, some,
  List, [], ◌∷◌, drop, replicate, ℤ, pos, negsuc, word32,
}
use lan_scan.Dnet.{dnet_ntop}
use lan_scan.Ipx.{ipx_ntop}
use lan_scan.Libc.{Libc}
use lan_scan.Memory.{Run, done, fault, ◌>>=◌, checked, load8, load32, bytes_at}
use lan_scan.Mpls.{mpls_ntop, af_mpls}
use lan_scan.Sys.{Sys}
use lan_scan.Text.Buffer.{Printed, null, text}
use lan_scan.Text.Codes.{codes}
use lan_scan.Text.Decimal.{hex_byte}
use lan_scan.Text.Snprintf.{snprintf, cstring}

-- A `const char *` result: `none` is NULL.
abbrev pub Returned : Type 0
Returned = Run (Option (List ℕ))

-- ARPHRD_* of android/src/main/c/utils.h
abbrev pub arphrd_void : ℤ
arphrd_void = pos 0xffff

-- ARPHRD_TUNNEL, ARPHRD_SIT and ARPHRD_IPGRE
abbrev pub is_ip_tunnel : ℤ → Bool
is_ip_tunnel (pos type) = type == 768 || type == 776 || type == 778
is_ip_tunnel (negsuc n) = false

-- ARPHRD_TUNNEL6
abbrev pub is_ip6_tunnel : ℤ → Bool
is_ip6_tunnel (pos type) = type == 769
is_ip6_tunnel (negsuc n) = false

-- `for (i = 1, l = 2; i < alen && l < blen; i++, l += 3)`, for `left` rounds at most; the address is
-- at `p` in `m`.
pub addr_loop : (m : List ℕ) (p alen blen left i l : ℕ) → List ℕ → Run (List ℕ)
addr_loop m p alen blen zero i l buf = done buf
addr_loop m p alen blen (suc left) i l buf =
    let round = (do
      b ← load8 m (p + i)
      buf' ← checked (snprintf buf l (blen - l) (b':' ∷ hex_byte b))
      addr_loop m p alen blen left (i + 1) (l + 3) buf') in
    if ltb i alen && ltb l blen then round else done buf

-- The array `buf` of `blen` characters after the hexadecimal branch. `i` grows each round, so `alen`
-- rounds are enough.
pub hex_addr : (m : List ℕ) (p alen blen : ℕ) → List ℕ → Run (List ℕ)
hex_addr m p alen blen buf = do
  b ← load8 m p
  buf' ← checked (snprintf buf 0 blen (hex_byte b))
  addr_loop m p alen blen alen 1 2 buf'

module _ (s : Sys) (c : Libc) where
  -- `inet_ntop` reads 4 or 16 bytes.
  pub ntop4 : List ℕ → (p size : ℕ) → Returned
  ntop4 m p size = do bytes ← bytes_at m p 4; done (c.inet_ntop s.af_inet bytes size)

  pub ntop6 : List ℕ → (p size : ℕ) → Returned
  ntop6 m p size = do bytes ← bytes_at m p 16; done (c.inet_ntop s.af_inet6 bytes size)

  pub ll_addr_n2a : (m : List ℕ) (p alen : ℕ) (type : ℤ) (buf : List ℕ) (blen : ℕ) → Returned
  ll_addr_n2a m p alen type buf blen =
      if alen == 4 && is_ip_tunnel type
      then ntop4 m p blen
      else if alen == 16 && is_ip6_tunnel type
      then ntop6 m p blen
      else (do buf' ← hex_addr m p alen blen buf; done (some (cstring buf')))

  -- The words from `p` to the end of the array.
  words_from : (fuel : ℕ) → List ℕ → List ℕ
  words_from zero m = []
  words_from (suc fuel) [] = []
  words_from (suc fuel) (a ∷ []) = []
  words_from (suc fuel) (a ∷ b ∷ []) = []
  words_from (suc fuel) (a ∷ b ∷ c ∷ []) = []
  words_from (suc fuel) (a ∷ b ∷ c ∷ d ∷ m) = word32 a b c d ∷ words_from fuel m

  printed : Printed → Returned
  printed null = done none
  printed (text str) = done (some (cstring str))
  printed Printed.fault = fault

  mpls_host : List ℕ → (p : ℕ) → List ℕ → (buflen : ℕ) → Returned
  mpls_host m p buf buflen =
      printed (mpls_ntop s af_mpls (words_from buflen (drop p m)) buf buflen).1

  ipx_host : List ℕ → (p : ℕ) → List ℕ → (buflen : ℕ) → Returned
  ipx_host m p buf buflen = do
    net ← load32 m p
    node ← bytes_at m (p + 4) 6
    printed (ipx_ntop s s.af_ipx (record { ipx_net = net; ipx_node = node }) buf buflen).1

  -- `struct dn_naddr dna = { 2, { 0, 0, } }; memcpy(dna.a_addr, addr, 2);`
  dnet_host : List ℕ → (p : ℕ) → List ℕ → (buflen : ℕ) → Returned
  dnet_host m p buf buflen = do
    a ← load8 m p
    b ← load8 m (p + 1)
    printed
        (dnet_ntop s s.af_decnet (record { a_len = 2; a_addr = a ∷ b ∷ replicate 18 0 }) buf
          buflen).1

  -- The families that `#ifndef ANDROID` leaves out.
  other_host : (af : ℕ) → List ℕ → (p : ℕ) → List ℕ → (buflen : ℕ) → Returned → Returned
  unfolding words_from printed mpls_host ipx_host dnet_host
  other_host af m p buf buflen rest =
      if af == af_mpls
      then mpls_host m p buf buflen
      else if af == s.af_ipx
      then ipx_host m p buf buflen
      else if af == s.af_decnet
      then dnet_host m p buf buflen
      else rest

  -- `android` says whether ANDROID is defined.
  pub rt_addr_n2a_r :
      (android : Bool) (af len : ℕ) (m : List ℕ) (p : ℕ) (buf : List ℕ) (buflen : ℕ) → Returned
  unfolding other_host
  rt_addr_n2a_r android af len m p buf buflen =
      let rest =
        if af == s.af_packet
        then ll_addr_n2a m p len arphrd_void buf buflen
        else done (some (codes "???")) in
      if af == s.af_inet
      then ntop4 m p buflen
      else if af == s.af_inet6
      then ntop6 m p buflen
      else if android
      then rest
      else other_host af m p buf buflen rest

  -- RESOLVE_HOSTNAMES is not defined.
  pub format_host_r :
      (android : Bool) (af len : ℕ) (m : List ℕ) (p : ℕ) (buf : List ℕ) (buflen : ℕ) → Returned
  format_host_r = rt_addr_n2a_r

  -- `buf` is the static array of 256 characters.
  pub format_host : (android : Bool) (af len : ℕ) (m : List ℕ) (p : ℕ) (buf : List ℕ) → Returned
  format_host android af len m p buf = format_host_r android af len m p buf 256
