-- ===== src/Scanner/Range/Probes.antt =====
-- What a whole scan of LanDeviceScanner.kt tries, or that an address ends it by an exception.
use lan_scan.Base.{
  ℕ, ◌-◌, ◌^◌, ◌<◌, ◌≤◌, ◌≡◌, refl, ap, arith, ◌==◌, ==→eq, ==-self, subst, Bool, Bool-cases, inl,
  inr, ◌⊎◌, le-or-lt, List, [], ◌∷◌, length, All,
}
use lan_scan.Resolver.Attempt.{Attempt, value, io_exception, ◌>>=◌}
use lan_scan.Scanner.Range.{Network, to_byte_array, probe, probes, numeric_ips, start_scanning}
use lan_scan.Scanner.Range.Bytes.{four_bytes, fewer_bytes}
use lan_scan.Scanner.Range.Shares.{tries, wanted, numeric_ips-tries}

-- What is documented of the platform: four bytes are an address, and fewer are an
-- UnknownHostException, which is an IOException.
pub record NetworkLaws (net : Network) : Type 0 where
  pub four : (bytes : List ℕ) → length bytes ≡ 4 → net.get_by_address bytes ≡ value bytes
  pub fewer : (bytes : List ℕ) → length bytes < 4 → net.get_by_address bytes ≡ io_exception

-- From 0.128.0.0 to 255.127.255.255.
abbrev pub IsTaken : ℕ → Type 0
IsTaken a = (2 ^ 23 ≤ a) × (a < 2 ^ 32 - 2 ^ 23)

abbrev pub IsShort : ℕ → Type 0
IsShort a = (a < 2 ^ 23) ⊎ (2 ^ 32 - 2 ^ 23 ≤ a)

IsTaken-or-IsShort : (a : ℕ) → IsTaken a ⊎ IsShort a
IsTaken-or-IsShort a = elim (le-or-lt (2 ^ 23) a) [
  | inr low ↦ inr (inl low)
  | inl up ↦ elim (le-or-lt (2 ^ 32 - 2 ^ 23) a) [
    | inl high ↦ inr (inr high)
    | inr within ↦ inl (up, within)
  ]
]

-- All addresses are taken, or one of them is short.
data Probed (addresses : List ℕ) : Attempt (List ℕ) → Type 0 where
  all_taken : All IsTaken addresses → Probed addresses (value addresses)
  one_short : (a : ℕ) → 0 < tries a addresses → IsShort a → Probed addresses io_exception

module _ (net : Network) (laws : NetworkLaws net)
    (reached : (bytes : List ℕ) → (answers : Bool) × (net.is_reachable bytes ≡ value answers)) where
  probe-taken : (a : ℕ) → IsTaken a → (answers : Bool) × (probe net a ≡ value answers)
  unfolding probe
  probe-taken a (low, high) =
      rw (laws.four (to_byte_array a) (ap length (four_bytes a low high)))
        (reached (to_byte_array a))

  probe-short : (a : ℕ) → IsShort a → probe net a ≡ io_exception
  unfolding probe
  probe-short a few = rw (laws.fewer (to_byte_array a) (fewer_bytes a few)) refl

  probes-Probed : (addresses : List ℕ) → Probed addresses (probes net addresses)
  unfolding probes
  probes-Probed [] = all_taken tt
  probes-Probed (a ∷ rest) = elim (IsTaken-or-IsShort a) [
    | inr few ↦ rw (probe-short a few) (one_short a (ground (arith, ==-self a)) few)
    | inl taken ↦
        let (answers, e) = probe-taken a taken in
        rw e (more a rest taken (probes net rest) (probes-Probed rest))
  ]
    where
      more :
          (a : ℕ) (rest : List ℕ)
          → IsTaken a
          → (x : Attempt (List ℕ)) → Probed rest x
          → Probed (a ∷ rest) (x >>= (λ tried. value (a ∷ tried)))
      more a rest taken _ (all_taken all) = all_taken (taken, all)
      more a rest taken _ (one_short b some_tries few) = one_short b (omega (arith, some_tries)) few

-- A whole scan: each address of the network but its first and its last is tried once and no other is;
-- or one of those addresses has fewer than four bytes, and an exception ends the scan.
pub data Scans (ipv4 cidr_prefix_length : ℕ) : Attempt (List ℕ) → Type 0 where
  tries_all :
      (tried : List ℕ)
      → ((a : ℕ) → tries a tried ≡ wanted ipv4 cidr_prefix_length a)
      → ((a : ℕ) → wanted ipv4 cidr_prefix_length a ≡ 1 → IsTaken a)
      → Scans ipv4 cidr_prefix_length (value tried)
  unknown_host :
      (a : ℕ)
      → wanted ipv4 cidr_prefix_length a ≡ 1
      → IsShort a
      → Scans ipv4 cidr_prefix_length io_exception

wanted-one :
    (ipv4 cidr_prefix_length a : ℕ)
    → 0 < wanted ipv4 cidr_prefix_length a
    → wanted ipv4 cidr_prefix_length a ≡ 1
wanted-one ipv4 cidr a h = ground (arith, h)

All-tries : (P : ℕ → Type 0) (xs : List ℕ) (a : ℕ) → All P xs → 0 < tries a xs → P a
All-tries P [] a h some_tries = absurd (omega (arith, some_tries))
All-tries P (x ∷ xs) a h some_tries = elim (Bool-cases (x == a)) [
  | inl this ↦ subst P (==→eq x a this) h.0
  | inr other ↦ All-tries P xs a h.1 (ground (arith, some_tries, other))
]

Probed-Scans :
    (ipv4 cidr_prefix_length : ℕ)
    → ((a : ℕ) → tries a (numeric_ips ipv4 cidr_prefix_length) ≡ wanted ipv4 cidr_prefix_length a)
    → (x : Attempt (List ℕ)) → Probed (numeric_ips ipv4 cidr_prefix_length) x
    → Scans ipv4 cidr_prefix_length x
Probed-Scans ipv4 cidr count _ (all_taken all) =
    tries_all (numeric_ips ipv4 cidr) count
      (λ a once. All-tries IsTaken (numeric_ips ipv4 cidr) a all (omega (arith, count a, once)))
Probed-Scans ipv4 cidr count _ (one_short a some_tries few) =
    unknown_host a (wanted-one ipv4 cidr a (omega (arith, count a, some_tries))) few

-- For a prefix of 2 to 32 bits a scan that is neither stopped nor runs out of time tries each address
-- of the network but its first and its last exactly once, and no other address, where all of them lie
-- between 0.128.0.0 and 255.127.255.255; and where one does not, an exception of getByAddress ends it.
-- It is relied on that isReachable throws for no address, and that getByAddress takes four bytes and
-- throws an UnknownHostException for fewer.
pub start_scanning-probes :
    (net : Network) (laws : NetworkLaws net)
    (reached : (bytes : List ℕ) → (answers : Bool) × (net.is_reachable bytes ≡ value answers))
    (ipv4 cidr_prefix_length : ℕ)
    → ipv4 < 2 ^ 32
    → 2 ≤ cidr_prefix_length
    → cidr_prefix_length ≤ 32
    → Scans ipv4 cidr_prefix_length (start_scanning net ipv4 cidr_prefix_length)
unfolding start_scanning
start_scanning-probes net laws reached ipv4 cidr small wide most =
    Probed-Scans ipv4 cidr (numeric_ips-tries ipv4 cidr small wide most) _
      (probes-Probed net laws reached (numeric_ips ipv4 cidr))
