-- ===== src/Memory.antt =====
-- Reads and writes of a message in memory, as a little endian machine makes them. A message lies in
-- an array of bytes, and a pointer into it is an index.
pub mod Laws
pub mod Writes
use lan_scan.Base.{
  ℕ, zero, suc, ◌+◌, ◌*◌, ◌/◌, ◌%◌, ◌^◌, ◌≤◌, ◌<◌, ◌≡◌, refl, arith, Option, none, some, List, [],
  ◌∷◌, length, get_elem?, get_elem?-lt, take, drop, leb, if◌then◌else◌,
}
use lan_scan.Text.Snprintf.{write_all}

-- `fault` is an access outside the array; `out_of_fuel` is no C value: a loop of the model had too few
-- rounds.
pub data Run {ℓ} (A : Type ℓ) : Type ℓ where
  done : A → Run A
  fault : Run A
  out_of_fuel : Run A

infixl 5 ◌>>=◌
abbrev pub ◌>>=◌ {ℓ κ} : {A : Type ℓ} {B : Type κ} → Run A → (A → Run B) → Run B
done a >>= k = k a
fault >>= k = fault
out_of_fuel >>= k = out_of_fuel

abbrev pub checked {ℓ} : {A : Type ℓ} → Option A → Run A
checked none = fault
checked (some a) = done a

unfoldable pub load8 : List ℕ → ℕ → Run ℕ
load8 m p = checked (get_elem? m p)

unfoldable pub load16 : List ℕ → ℕ → Run ℕ
unfolding load8
load16 m p = do a ← load8 m p; b ← load8 m (p + 1); done (a + b * 2 ^ 8)

unfoldable pub load32 : List ℕ → ℕ → Run ℕ
load32 m p = do a ← load16 m p; b ← load16 m (p + 2); done (a + b * 2 ^ 16)

-- `memcpy(m + p, bytes, ...)`
unfoldable pub copy : List ℕ → ℕ → List ℕ → Run (List ℕ)
unfolding write_all
copy m p bytes = checked (write_all m p bytes)

unfoldable pub store16 : List ℕ → ℕ → ℕ → Run (List ℕ)
unfolding copy
store16 m p v = copy m p (v % 2 ^ 8 ∷ v / 2 ^ 8 % 2 ^ 8 ∷ [])

unfoldable pub store32 : List ℕ → ℕ → ℕ → Run (List ℕ)
unfolding copy
store32 m p v =
    copy m p (v % 2 ^ 8 ∷ v / 2 ^ 8 % 2 ^ 8 ∷ v / 2 ^ 16 % 2 ^ 8 ∷ v / 2 ^ 24 % 2 ^ 8 ∷ [])

-- The `n` bytes from `p` on.
unfoldable pub bytes_at : List ℕ → (p n : ℕ) → Run (List ℕ)
bytes_at m p n = if leb (p + n) (length m) then done (take n (drop p m)) else fault

pub load8-done : (m : List ℕ) (p : ℕ) → p < length m → (v : ℕ) × (load8 m p ≡ done v)
unfolding load8
load8-done m p h = let (v, e) = get_elem?-lt m p h in (v, rw e)

-- A read inside the array gives a value.
pub load16-done : (m : List ℕ) (p : ℕ) → p + 2 ≤ length m → (v : ℕ) × (load16 m p ≡ done v)
unfolding load16
load16-done m p h =
    let (a, ea) = get_elem?-lt m p (omega arith) in
    let (b, eb) = get_elem?-lt m (p + 1) (omega arith) in (a + b * 2 ^ 8, rw (ea, eb))

pub load32-done : (m : List ℕ) (p : ℕ) → p + 4 ≤ length m → (v : ℕ) × (load32 m p ≡ done v)
unfolding load32
load32-done m p h =
    let (a, ea) = load16-done m p (omega arith) in
    let (b, eb) = load16-done m (p + 2) (omega arith) in (a + b * 2 ^ 16, rw (ea, eb))
