-- ===== src/Scanner/Range/Shares.antt =====
-- How the coroutines of `startScanning` in LanDeviceScanner.kt share the addresses of the network.
use lan_scan.Base.{
  ℕ, zero, suc, ◌+◌, ◌-◌, ◌*◌, ◌/◌, ◌%◌, ◌^◌, ◌<◌, ◌≤◌, ◌≡◌, refl, ap, ◌∙◌, sym, arith, ltb, leb,
  ◌==◌, ==-self, ==→eq, le-or-lt, ◌&&◌, Bool, true, false, Bool-cases, inl, inr, List, [], ◌∷◌,
  ◌++◌, if◌then◌else◌, to_ℕ,
}
use native.Mathlib.Nat.{
  mul-le-mul_right, add-mul, mod-eq_of_lt, mod-lt, mod-le, div-add-mod', add-mod_right,
}
use lan_scan.Base.Bits.{all_below, all_below-lt}
use lan_scan.Scanner.Range.{worker, workers, numeric_ips, number_of_hosts, first_address}
use lan_scan.Scanner.Range.Mask.{netmask-subnet}

-- How often an address is among those that are tried.
abbrev pub tries : (address : ℕ) → List ℕ → ℕ
tries address [] = 0
tries address (tried ∷ others) = tries address others + (if tried == address then 1 else 0)

pub tries-append :
    (tried : List ℕ) (a : ℕ) (more : List ℕ)
    → tries a (tried ++ more) ≡ tries a more + tries a tried
tries-append [] a more = omega arith
tries-append (first ∷ tried) a more = omega (arith, tries-append tried a more)

mod-gap : (t x y : ℕ) → x % t ≡ y % t → y < x → y + t ≤ x
mod-gap t x y same lt = elim (le-or-lt (x / t) (y / t)) [
  | inl no_more ↦
      absurd (omega (arith, div-add-mod' x t, div-add-mod' y t, mul-le-mul_right t no_more))
  | inr more ↦
      let step_more : (y / t + 1) * t ≤ x / t * t = mul-le-mul_right t (omega (arith, more)) in
      omega (arith, div-add-mod' x t, div-add-mod' y t, step_more, add-mul (y / t) 1 t)
]

module _ (number step first : ℕ) (some_step : 0 < step) (small : number + first ≤ 2 ^ 32) where
  -- The share of the coroutine that starts at `index`.
  shared : (index a : ℕ) → Bool
  shared index a =
      leb (index + first) a && ltb a (number + first) && ((a - first) % step == index % step)

  shared_self : (index : ℕ) → index < number → shared index (index + first) ≡ true
  unfolding shared
  shared_self index h =
      let back : index + first - first ≡ index = omega arith in
      rw back (ground (arith, ==-self (index % step)))

  shared-next :
      (index a : ℕ)
      → index < number
      → (index + first == a) ≡ false
      → shared (index + step) a ≡ shared index a
  unfolding shared
  shared-next index a h ne =
      rw (add-mod_right index step) (elim (Bool-cases ((a - first) % step == index % step)) [
        | inr other ↦ rw other (ground arith)
        | inl same ↦
            ground (
              arith,
              mod-gap step (a - first) index (==→eq ((a - first) % step) (index % step) same),
            )
      ])

  worker-tries :
      (fuel index a : ℕ)
      → number < index + fuel
      → tries a (worker number step first fuel index) ≡ (if shared index a then 1 else 0)
  unfolding worker shared
  worker-tries zero index a h = ground arith
  worker-tries (suc fuel) index a h =
      ground (arith, worker-tries fuel (index + step) a, shared_self index, shared-next index a)

  share-next :
      (k a : ℕ)
      → k % step ≡ k
      → (if shared k a then 1 else 0)
          + (if leb first a && ltb a (number + first) && ltb ((a - first) % step) k then 1 else 0)
        ≡ (if leb first a && ltb a (number + first) && ltb ((a - first) % step) (suc k)
            then 1
            else 0)
  unfolding shared
  share-next k a own = rw own (ground (arith, mod-le (a - first) step))

  workers-tries :
      (threads a : ℕ)
      → threads ≤ step
      → tries a (workers number step first threads) ≡ (
          if leb first a && ltb a (number + first) && ltb ((a - first) % step) threads
          then 1
          else 0)
  unfolding workers
  workers-tries zero a h = ground arith
  workers-tries (suc k) a h =
      let own : k % step ≡ k = mod-eq_of_lt (omega arith) in
      tries-append (workers number step first k) a (worker number step first (suc number) k)
      ∙ rw (workers-tries k a (omega arith), worker-tries (suc number) k a (omega arith))
          (share-next k a own)

  all-tries :
      (a : ℕ)
      → tries a (workers number step first step)
        ≡ (if leb first a && ltb a (number + first) then 1 else 0)
  all-tries a = ground (arith, workers-tries step a, mod-lt (a - first) some_step)

-- The network of an address: the first of its addresses, where the last `host_bits` bits are free.
abbrev pub network : (ipv4 host_bits : ℕ) → ℕ
network ipv4 host_bits = ipv4 / 2 ^ host_bits * 2 ^ host_bits

-- What the powers of two are good for, up to the networks that are scanned.
abbrev sized : ℕ → Bool
sized k =
    (to_ℕ (number_of_hosts k) == 2 ^ k - 2) && (2 ^ (32 - k) * 2 ^ k == 2 ^ 32) && leb 1 (2 ^ k)

all_sized : all_below 31 sized ≡ true
unfolding number_of_hosts
all_sized = refl

sized-parts :
    (a b c d e : ℕ) → ((a == b) && (c == d) && leb 1 e) ≡ true → (a ≡ b) × (c ≡ d) × (1 ≤ e)
sized-parts a b c d e h = ground arith

network-within :
    (ipv4 k : ℕ) → ipv4 < 2 ^ 32 → 2 ^ (32 - k) * 2 ^ k ≡ 2 ^ 32 → network ipv4 k + 2 ^ k ≤ 2 ^ 32
network-within ipv4 k small whole = elim (le-or-lt (2 ^ (32 - k)) (ipv4 / 2 ^ k)) [
  | inl beyond ↦ absurd (omega (arith, mul-le-mul_right (2 ^ k) beyond, div-add-mod' ipv4 (2 ^ k)))
  | inr inside ↦
      let all_of : (ipv4 / 2 ^ k + 1) * 2 ^ k ≤ 2 ^ (32 - k) * 2 ^ k =
        mul-le-mul_right (2 ^ k) (omega (arith, inside)) in
      omega (arith, all_of, add-mul (ipv4 / 2 ^ k) 1 (2 ^ k))
]

in_between :
    (base size a : ℕ)
    → (leb (base + 1) a && ltb a (size - 2 + (base + 1))) ≡ (ltb base a && ltb a (base + size - 1))
in_between base size a = ground arith

of_bits :
    (ipv4 k a : ℕ)
    → ipv4 < 2 ^ 32
    → k < 31
    → tries a (numeric_ips ipv4 (32 - k))
      ≡ (if ltb (network ipv4 k) a && ltb a (network ipv4 k + 2 ^ k - 1) then 1 else 0)
unfolding numeric_ips first_address workers
of_bits ipv4 zero a small bits = ground arith
of_bits ipv4 (suc k) a small bits =
    let back : 32 - (32 - suc k) ≡ suc k = omega arith in
    let (number, whole, positive) =
      sized-parts (to_ℕ (number_of_hosts (suc k))) (2 ^ suc k - 2) (2 ^ (32 - suc k) * 2 ^ suc k)
        (2 ^ 32) (2 ^ suc k) (all_below-lt 31 sized (suc k) all_sized bits) in
    let within = network-within ipv4 (suc k) small whole in
    let first : (network ipv4 (suc k) + 1) % 2 ^ 32 ≡ network ipv4 (suc k) + 1 =
      omega (arith, within, positive) in
    rw (netmask-subnet ipv4 (suc k) small (omega arith), back, number, first)
      (all-tries (2 ^ suc k - 2) (suc k * 4) (network ipv4 (suc k) + 1) (omega arith)
          (omega (arith, within, positive)) a
        ∙ ap (λ (b : Bool). if b then 1 else 0) (in_between (network ipv4 (suc k)) (2 ^ suc k) a))

-- Once for an address of the network other than its first and its last, and never for another.
abbrev pub wanted : (ipv4 cidr_prefix_length a : ℕ) → ℕ
wanted ipv4 cidr_prefix_length a =
    if ltb (network ipv4 (32 - cidr_prefix_length)) a
      && ltb a (network ipv4 (32 - cidr_prefix_length) + 2 ^ (32 - cidr_prefix_length) - 1)
    then 1
    else 0

pub numeric_ips-tries :
    (ipv4 cidr_prefix_length : ℕ)
    → ipv4 < 2 ^ 32
    → 2 ≤ cidr_prefix_length
    → cidr_prefix_length ≤ 32
    → (a : ℕ) → tries a (numeric_ips ipv4 cidr_prefix_length) ≡ wanted ipv4 cidr_prefix_length a
numeric_ips-tries ipv4 cidr small wide most a =
    let back : 32 - (32 - cidr) ≡ cidr = omega arith in
    ap (λ n. tries a (numeric_ips ipv4 n)) (sym back)
    ∙ of_bits ipv4 (32 - cidr) a small (omega arith)
