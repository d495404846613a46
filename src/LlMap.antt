-- ===== src/LlMap.antt =====
-- android/src/main/c/ll_map.c: the cache of interface names, a hash table of chains.
pub mod Laws
pub mod Names
mod Runs
use lan_scan.Base.{
  ℕ, ◌+◌, ◌-◌, ◌%◌, ◌^◌, ltb, ◌==◌, if◌then◌else◌, Option, none, some, List, [], ◌∷◌, ◌++◌, ℤ, pos,
  negsuc,
}
use lan_scan.Libc.{Libc}
use lan_scan.Text.Decimal.{decimal}
use lan_scan.Text.Snprintf.{snprintf, cstring}

-- `struct ll_cache`, less the link to the next one.
pub record LlCache : Type 0 where
  pub index : ℕ
  pub type : ℕ
  pub name : List ℕ

-- `idx_head`: the chain of each of the IDXMAP_SIZE buckets, from its first node on.
abbrev pub idxmap_size : ℕ
idxmap_size = 1024

abbrev pub IdxHead : Type 0
IdxHead = ℕ → List LlCache

-- The loop of `hlist_for_each`.
pub find_in : ℕ → List LlCache → Option LlCache
find_in index [] = none
find_in index (im ∷ chain) = if im.index == index then some im else find_in index chain

-- `index & (IDXMAP_SIZE - 1)` is the remainder by 1024.
unfoldable pub ll_get_by_index : IdxHead → ℕ → Option LlCache
unfolding find_in
ll_get_by_index idx_head index = find_in index (idx_head (index % idxmap_size))

-- `%d` of an `unsigned`
pub signed_decimal : ℕ → List ℕ
signed_decimal n = if ltb n (2 ^ 31) then decimal n else b'-' ∷ decimal (2 ^ 32 - n)

abbrev pub ifnamsiz : ℕ
ifnamsiz = 16

-- What stands in `buf` after `snprintf(buf, IFNAMSIZ, "if%d", idx)`; `none` is a fault.
pub if_number : ℕ → List ℕ → Option (List ℕ)
unfolding signed_decimal
if_number idx buf = snprintf buf 0 ifnamsiz (b'i' ∷ b'f' ∷ signed_decimal idx)

-- The string that an array holds.
string_in : Option (List ℕ) → Option (List ℕ)
string_in none = none
string_in (some buf) = some (cstring buf)

unnamed : ℕ → List ℕ → Option (List ℕ) → Option (List ℕ)
unfolding string_in
unnamed idx buf (some name) = some name
unnamed idx buf none = string_in (if_number idx buf)

cached : Option LlCache → Option (List ℕ) → Option (List ℕ)
cached (some im) other = some im.name
cached none other = other

-- The returned string; `none` is a fault.
pub ll_idx_n2a : Libc → IdxHead → ℕ → List ℕ → Option (List ℕ)
unfolding cached unnamed
ll_idx_n2a c idx_head idx buf =
    if idx == 0
    then some (b'*' ∷ [])
    else cached (ll_get_by_index idx_head idx) (unnamed idx buf (c.if_indextoname idx))

-- `nbuf` is the static array of IFNAMSIZ characters.
pub ll_index_to_name : Libc → IdxHead → List ℕ → ℕ → Option (List ℕ)
unfolding ll_idx_n2a
ll_index_to_name c idx_head nbuf idx = ll_idx_n2a c idx_head idx nbuf

type_of : Option LlCache → ℤ
type_of none = negsuc 0
type_of (some im) = pos im.type

unfoldable pub ll_index_to_type : IdxHead → ℕ → ℤ
unfolding type_of
ll_index_to_type idx_head idx =
    if idx == 0 then negsuc 0 else type_of (ll_get_by_index idx_head idx)
