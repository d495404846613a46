-- ===== src/Dnet.antt =====
-- android/src/main/c/dnet_ntop.c: DECnet addresses as `area.node`.
pub mod Digits
pub mod Laws
mod Runs
use lan_scan.Base.{
  ℕ, ◌+◌, ◌-◌, ◌*◌, ◌/◌, ◌%◌, ◌^◌, ltb, ◌==◌, if◌then◌else◌, Bool, true, false, ◌||◌, Option, none,
  some, List, [], ◌∷◌,
}
use lan_scan.Sys.{Sys}
use lan_scan.Text.Buffer
use lan_scan.Text.Buffer.{Writer, more, full, ◌>>=◌, store, put, finish, Printed, null, text}

-- `struct dn_naddr`
pub record DnNaddr : Type 0 where
  pub a_len : ℕ
  pub a_addr : List ℕ

-- `memcpy(&addr, p, 2)` into a `uint16_t` of a little endian machine; `none` is a read outside.
abbrev pub load16 : List ℕ → Option ℕ
load16 [] = none
load16 (a ∷ []) = none
load16 (a ∷ b ∷ r) = some (a + b * 2 ^ 8)

-- The two bytes of the word in memory order, the second shifted by 8 and joined by `|`.
pub dn_ntohs : ℕ → ℕ
dn_ntohs addr = addr % 2 ^ 8 + addr / 2 ^ 8 % 2 ^ 8 * 2 ^ 8

-- Where the printing of one number stands: `addr` is what is left of it.
pub data Digit : Type 0 where
  next : (addr : ℕ) (started : Bool) (str : List ℕ) (pos : ℕ) → Digit
  stop : List ℕ → Digit
  fault : Digit

-- The caller goes on, or returns where `do_digit` answered 1.
pub and_then : Digit → (ℕ → Bool → List ℕ → ℕ → Digit) → Digit
and_then (next addr started str pos) k = k addr started str pos
and_then (stop str) k = stop str
and_then fault k = fault

pub writer : Digit → Writer
writer (next addr started str pos) = more str pos
writer (stop str) = full str
writer fault = Writer.fault

stored : (addr pos : ℕ) → Option (List ℕ) → Digit
stored addr pos none = fault
stored addr pos (some str) = next addr true str (pos + 1)

pub do_digit : (len scale addr : ℕ) → Bool → List ℕ → ℕ → Digit
unfolding stored
do_digit len scale addr started str pos =
    let tmp = addr / scale in
    if pos == len
    then stop str
    else if ltb 0 tmp || started || scale == 1
    then stored (addr - tmp * scale) pos (store str pos ((tmp + b'0') % 2 ^ 8))
    else next addr started str pos

pub area_digits : (len area : ℕ) → List ℕ → ℕ → Digit
unfolding do_digit and_then
area_digits len area str pos = and_then (do_digit len 10 area false str pos) (do_digit len 1)

pub node_digits : (len addr : ℕ) → List ℕ → ℕ → Digit
unfolding do_digit and_then
node_digits len addr str pos =
    and_then
      (and_then (and_then (do_digit len 1000 addr false str pos) (do_digit len 100))
        (do_digit len 10))
      (do_digit len 1)

print_address : (len area addr : ℕ) → List ℕ → Printed
print_address len area addr str = finish (
    writer (area_digits len area str 0)
    >>= put len b'.'
    >>= (λ str pos. writer (node_digits len addr str pos))
    >>= put len 0)

from_word : DnNaddr → List ℕ → ℕ → Option ℕ → Printed
from_word dna str len none = Printed.fault
from_word dna str len (some word) =
    let addr = dn_ntohs word in
    if dna.a_len == 2
    then if len == 0 then text str else print_address len (addr / 2 ^ 10) (addr % 2 ^ 10) str
    else null

pub dnet_ntop1 : DnNaddr → List ℕ → ℕ → Printed
unfolding from_word
dnet_ntop1 dna str len = from_word dna str len (load16 dna.a_addr)

-- The new `errno` comes first.
pub dnet_ntop : Sys → ℕ → DnNaddr → List ℕ → ℕ → ℕ × Printed
dnet_ntop s af dna str len =
    if af == s.af_decnet then (0, dnet_ntop1 dna str len) else (s.eafnosupport, null)
