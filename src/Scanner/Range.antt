-- ===== src/Scanner/Range.antt =====
-- The addresses that `startScanning` of LanDeviceScanner.kt tries. An `Int` is its 32 bits, as a number.
mod Mask
pub mod Bytes
mod Runs
pub mod Shares
pub mod Probes
use lan_scan.Base.{
  ℕ, zero, suc, ◌+◌, ◌-◌, ◌*◌, ◌/◌, ◌%◌, ◌^◌, ltb, leb, ◌||◌, Bool, List, [], ◌∷◌, ◌++◌,
  if◌then◌else◌, bit_and, ℤ, pos, sub, to_ℕ,
}
use lan_scan.Resolver.Attempt.{Attempt, value, ◌>>=◌}
use Prim.Native.Nat.{min}

-- `x shr n` and `x shl n` of an Int: only the lower five bits of `n` count.
unfoldable pub shr : ℕ → ℕ → ℕ
shr x n = if ltb x (2 ^ 31) then x / 2 ^ (n % 32) else 2 ^ 32 - 1 - (2 ^ 32 - 1 - x) / 2 ^ (n % 32)

unfoldable pub shl : ℕ → ℕ → ℕ
shl x n = x * 2 ^ (n % 32) % 2 ^ 32

-- `-0x1 shr 32 - cidrPrefixLength shl 32 - cidrPrefixLength`, for a length of 32 at most
unfoldable pub netmask : (cidr_prefix_length : ℕ) → ℕ
unfolding shr shl
netmask cidr_prefix_length =
    shl (shr (2 ^ 32 - 1) (32 - cidr_prefix_length)) (32 - cidr_prefix_length)

-- `2.0.pow(hostBits).toInt() - 2`; the conversion stops at the greatest Int.
unfoldable pub number_of_hosts : (host_bits : ℕ) → ℤ
number_of_hosts host_bits = sub (pos (min (2 ^ host_bits) (2 ^ 31 - 1))) 2

unfoldable pub first_address : (ipv4 cidr_prefix_length : ℕ) → ℕ
first_address ipv4 cidr_prefix_length = (bit_and ipv4 (netmask cidr_prefix_length) + 1) % 2 ^ 32

-- The loop of one coroutine from `index` on: each `numericIp`. A round takes one index at least, so
-- one more than `number` rounds are enough.
unfoldable pub worker : (number step first : ℕ) → (fuel index : ℕ) → List ℕ
worker number step first zero index = []
worker number step first (suc fuel) index =
    let rest = worker number step first fuel (index + step) in
    if ltb index number then (index + first) % 2 ^ 32 ∷ rest else []

-- What the first `threads` coroutines try.
unfoldable pub workers : (number step first : ℕ) → (threads : ℕ) → List ℕ
workers number step first zero = []
workers number step first (suc thread_index) =
    workers number step first thread_index ++ worker number step first (suc number) thread_index

-- Each `numericIp` of the loops of all coroutines.
unfoldable pub numeric_ips : (ipv4 cidr_prefix_length : ℕ) → List ℕ
numeric_ips ipv4 cidr_prefix_length =
    let host_bits = 32 - cidr_prefix_length in
    let scan_threads = host_bits * 4 in
    workers (to_ℕ (number_of_hosts host_bits)) scan_threads (first_address ipv4 cidr_prefix_length)
      scan_threads

-- `BigInteger.valueOf(numericIp.toLong()).toByteArray()`: the least number of bytes, of which the
-- first has the sign, the greatest first.
unfoldable pub to_byte_array : ℕ → List ℕ
to_byte_array n =
    if ltb n (2 ^ 7) || leb (2 ^ 32 - 2 ^ 7) n
    then n % 2 ^ 8 ∷ []
    else if ltb n (2 ^ 15) || leb (2 ^ 32 - 2 ^ 15) n
    then n / 2 ^ 8 % 2 ^ 8 ∷ n % 2 ^ 8 ∷ []
    else if ltb n (2 ^ 23) || leb (2 ^ 32 - 2 ^ 23) n
    then n / 2 ^ 16 % 2 ^ 8 ∷ n / 2 ^ 8 % 2 ^ 8 ∷ n % 2 ^ 8 ∷ []
    else n / 2 ^ 24 % 2 ^ 8 ∷ n / 2 ^ 16 % 2 ^ 8 ∷ n / 2 ^ 8 % 2 ^ 8 ∷ n % 2 ^ 8 ∷ []

-- `InetAddress.getByAddress`, and `isReachable` of the address that it gives; either may throw.
pub record Network : Type 0 where
  pub get_by_address : List ℕ → Attempt (List ℕ)
  pub is_reachable : List ℕ → Attempt Bool

-- A round of the loop from Android 13 on: whether the address answers. Neither call is in a `try`.
unfoldable pub probe : Network → (numeric_ip : ℕ) → Attempt Bool
probe net numeric_ip = do
  inet_address ← net.get_by_address (to_byte_array numeric_ip)
  net.is_reachable inet_address

-- The rounds for these addresses, one after the other; what one throws ends them.
unfoldable pub probes : Network → List ℕ → Attempt (List ℕ)
unfolding probe
probes net [] = value []
probes net (a ∷ rest) =
    let others = probes net rest in (do answers ← probe net a; tried ← others; value (a ∷ tried))

-- Every address that is tried, where the scan is neither stopped nor runs out of time, or the
-- exception that ends it. What was tried before the exception depends on the order of the
-- coroutines: see Scanner.Tasks.
unfoldable pub start_scanning : Network → (ipv4 cidr_prefix_length : ℕ) → Attempt (List ℕ)
unfolding numeric_ips probes
start_scanning net ipv4 cidr_prefix_length = probes net (numeric_ips ipv4 cidr_prefix_length)
