-- ===== src/Resolver/Attempt.antt =====
-- Calls that may throw, and the datagrams that the resolvers of networkUtils exchange.
use lan_scan.Base.{
  ℕ, Option, none, some, List, ◌++◌, length, take, drop, get_elem?, replicate, leb, ◌+◌,
  if◌then◌else◌,
}
use Prim.Native.Nat.{min}

-- A value, an IOException, or another exception; `out_of_fuel` is no outcome of the code: a loop of the
-- model had too few rounds.
pub data Attempt {ℓ} (A : Type ℓ) : Type ℓ where
  value : A → Attempt A
  io_exception : Attempt A
  exception : Attempt A
  out_of_fuel : Attempt A

infixl 5 ◌>>=◌
abbrev pub ◌>>=◌ {ℓ κ} : {A : Type ℓ} {B : Type κ} → Attempt A → (A → Attempt B) → Attempt B
value a >>= k = k a
io_exception >>= k = io_exception
exception >>= k = exception
out_of_fuel >>= k = out_of_fuel

-- What `resolve` returns: null, or an array of at least one name.
pub data Names : Type 0 where
  null : Names
  names : (first : Option (List ℕ)) (rest : List (Option (List ℕ))) → Names

-- `bytes[i]`
unfoldable pub at : List ℕ → ℕ → Attempt ℕ
at bytes i = elim (get_elem? bytes i) [ none ↦ exception | some b ↦ value b ]

-- The bytes that `String(bytes, i, n)` decodes.
unfoldable pub part : List ℕ → (i n : ℕ) → Attempt (List ℕ)
part bytes i n = if leb (i + n) (length bytes) then value (take n (drop i bytes)) else exception

-- The array of a `DatagramPacket` of `size` bytes after a datagram was received, and its length.
unfoldable pub received_into : (size : ℕ) → List ℕ → List ℕ
received_into size datagram = take size (datagram ++ replicate size 0)

abbrev pub received_length : (size : ℕ) → List ℕ → ℕ
received_length size datagram = min (length datagram) size
