-- ===== src/Mpls.antt =====
-- android/src/main/c/mpls_ntop.c: an MPLS label stack as labels with slashes between them.
pub mod Laws
mod Runs
use lan_scan.Base.{
  ℕ, ◌+◌, ◌-◌, ◌/◌, ◌^◌, leb, ◌==◌, not, if◌then◌else◌, Bool, Option, none, some, List, [], ◌∷◌,
  length, bit_and, ntohl, ℤ, pos, neg,
}
use lan_scan.Sys.{Sys}
use lan_scan.Text.Buffer.{store, Printed, null, text, fault}
use lan_scan.Text.Decimal.{decimal}
use lan_scan.Text.Snprintf.{snprintf}

-- The label of an entry in host order, and whether the entry is the bottom of the stack.
pub label : Sys → ℕ → ℕ
label s entry = bit_and entry s.mpls_ls_label_mask / 2 ^ s.mpls_ls_label_shift

pub is_bottom : Sys → ℕ → Bool
is_bottom s entry = not (bit_and entry s.mpls_ls_s_mask == 0)

-- The new `errno`, and what is returned.
abbrev pub Answer : Type 0
Answer = ℤ × Printed

-- A store outside the array is a fault.
pub stored : (List ℕ → Answer) → Option (List ℕ) → Answer
stored again none = (pos 0, fault)
stored again (some buf) = again buf

-- `if (destlen) { *dest = '/'; dest++; destlen--; }`, and the next round.
pub slash : (ℕ → ℕ → List ℕ → Answer) → (dest destlen : ℕ) → List ℕ → Answer
unfolding stored
slash again dest destlen buf =
    if destlen == 0
    then again dest destlen buf
    else stored (again (dest + 1) (destlen - 1)) (store buf dest b'/')

-- What follows the call of `snprintf`, which printed `cs`.
pub after_print :
    Sys
    → (entry : ℕ) (cs : List ℕ) → (ℕ → ℕ → List ℕ → Answer)
    → (dest destlen : ℕ) → Option (List ℕ)
    → Answer
after_print s entry cs again dest destlen none = (pos 0, fault)
after_print s entry cs again dest destlen (some buf) =
    if leb destlen (length cs)
    then (neg (pos s.e2big), null)
    else if is_bottom s entry
    then (pos 0, text buf)
    else slash again (dest + length cs) (destlen - length cs) buf

-- `while (1)` over the entries from `addr[count]` on. Past the last entry is a read out of bounds.
pub mpls_loop : Sys → List ℕ → (dest destlen : ℕ) → List ℕ → Answer
mpls_loop s [] dest destlen buf = (pos 0, fault)
mpls_loop s (word ∷ addr) dest destlen buf =
    let entry = ntohl word in
    let cs = decimal (label s entry) in
    after_print s entry cs (mpls_loop s addr) dest destlen (snprintf buf dest destlen cs)

pub mpls_ntop1 : Sys → List ℕ → List ℕ → ℕ → Answer
mpls_ntop1 s addr buf buflen = mpls_loop s addr 0 buflen buf

-- AF_MPLS of android/src/main/c/utils.h
abbrev pub af_mpls : ℕ
af_mpls = 28

pub mpls_ntop : Sys → ℕ → List ℕ → List ℕ → ℕ → Answer
mpls_ntop s af addr buf buflen =
    if af == af_mpls then mpls_ntop1 s addr buf buflen else (pos s.eafnosupport, null)
