-- ===== src/Neigh/Runs.antt =====
-- The theorems on ipneigh.c at concrete addresses.
use lan_scan.Base.{
  ℕ, ℤ, is_zero, true, ◌+◌, ◌*◌, ◌-◌, ◌≤◌, ◌≡◌, refl, zero, suc, arith, none, some, List, [], ◌++◌,
  ◌∷◌, take, replicate, pos,
}
use lan_scan.Libc.{Libc}
use lan_scan.Memory.{done, load8}
use lan_scan.Neigh.Address.{ll_addr_n2a}
use lan_scan.Neigh.Address.Hex.{hex_text, ll_addr_n2a-text}
use lan_scan.Neigh.Line.{nud_names, state_text}
use lan_scan.Neigh.Line.State.{NudLaws, joined, names_in, state_text-joined}
use lan_scan.Neigh.Match.{inet_addr_match}
use lan_scan.Neigh.Match.Prefix.{inet_addr_match-prefix}
use lan_scan.World.{InetPrefix}
use lan_scan.Sys.Linux.{linux}
use lan_scan.Text.Codes.{codes}

-- No address is printed and no interface is named.
abbrev libc : Libc
libc = record { inet_ntop = λ af bytes size. none; if_indextoname = λ i. none; clk_tck = 100 }

-- The Ethernet address aa:bb:cc at place 4 of a message.
abbrev message : List ℕ
message = 7 ∷ 0 ∷ 2 ∷ 0 ∷ 0xaa ∷ 0xbb ∷ 0xcc ∷ 0 ∷ []

abbrev address : ℕ → ℕ
address i = 0xaa + 0x11 * i

address_read : (i : ℕ) → i ≤ 3 - 1 → load8 message (4 + i) ≡ done (address i)
unfolding load8
address_read zero h = refl
address_read (suc zero) h = refl
address_read (suc (suc zero)) h = refl
address_read (suc (suc (suc i))) h = absurd (omega arith)

ll_addr_n2a-text_example :
    ll_addr_n2a linux libc message 4 3 (pos 1) (replicate 64 b'x') 64
    ≡ done (some (take (64 - 1) (hex_text address 3)))
ll_addr_n2a-text_example =
    ll_addr_n2a-text linux libc message 4 3 (pos 1) (replicate 64 b'x') 64 address (omega arith)
      (omega arith) address_read refl refl

pub linux_bits : NudLaws linux
linux_bits = record {
  incomplete_bit = refl;
  reachable_bit = refl;
  stale_bit = refl;
  delay_bit = refl;
  probe_bit = refl;
  failed_bit = refl;
  noarp_bit = refl;
  permanent_bit = refl;
}

-- Stale and without address resolution.
state_text-joined_example :
    state_text linux 0x44 ≡ codes " " ++ joined (names_in (nud_names linux) 0x44)
state_text-joined_example = state_text-joined linux linux_bits 0x44 (omega arith) (omega arith)

-- 10.1.128.0 and 10.1.200.7, as words of a little endian machine.
abbrev network : InetPrefix
network = record { family = 2; bitlen = 17; words = 0x0080010a ∷ [] }

abbrev host : InetPrefix
host = record { family = 2; bitlen = 32; words = 0x07c8010a ∷ [] }

inet_addr_match-prefix_example :
    (z : ℤ) × (inet_addr_match host network 17 ≡ done z) × (is_zero z ≡ true)
inet_addr_match-prefix_example =
    inet_addr_match-prefix host network 17 (omega arith) (omega arith) (omega arith, tt)
      (omega arith, tt)
