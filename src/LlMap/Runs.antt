-- ===== src/LlMap/Runs.antt =====
-- Runs of ll_map.c, and its theorems at a concrete cache.
use lan_scan.Base.{◌≡◌, [], ◌∷◌, arith, replicate, refl, if◌then◌else◌, ◌==◌, none, some}
use lan_scan.Libc.{Libc}
use lan_scan.LlMap.{
  LlCache, IdxHead, ll_get_by_index, ll_index_to_name, ll_index_to_type, signed_decimal,
}
use lan_scan.LlMap.Laws.{
  IsHashed, Found, Typed, ll_get_by_index-Found, ll_index_to_name-unknown, ll_index_to_type-Typed,
}
use lan_scan.LlMap.Names.{name_text, ll_index_to_name-text}

abbrev wlan0 : LlCache
wlan0 = record { index = 1027; type = 1; name = b'w' ∷ b'0' ∷ [] }

abbrev lo : LlCache
lo = record { index = 3; type = 772; name = b'l' ∷ b'o' ∷ [] }

-- Both nodes hang in the chain of bucket 3.
abbrev cache : IdxHead
cache h = if h == 3 then wlan0 ∷ lo ∷ [] else []

cache-IsHashed : IsHashed cache
cache-IsHashed h = ground arith

abbrev libc : Libc
libc = record { inet_ntop = λ af bytes size. none; if_indextoname = λ idx. none; clk_tck = 100 }

not_cached : ll_get_by_index cache 5 ≡ none
unfolding ll_get_by_index
not_cached = refl

ll_get_by_index-Found_example : Found cache 3 (ll_get_by_index cache 3)
ll_get_by_index-Found_example = ll_get_by_index-Found cache 3 cache-IsHashed

ll_index_to_name-unknown_example :
    ll_index_to_name libc cache (replicate 16 0) 5 ≡ some (b'i' ∷ b'f' ∷ signed_decimal 5)
ll_index_to_name-unknown_example =
    ll_index_to_name-unknown libc cache (replicate 16 0) 5 (omega arith) (omega arith) (omega arith)
      not_cached refl

ll_index_to_type-Typed_example : Typed cache 1027 (ll_index_to_type cache 1027)
ll_index_to_type-Typed_example = ll_index_to_type-Typed cache 1027 cache-IsHashed

ll_index_to_name-text_example :
    ll_index_to_name libc cache (replicate 16 0) 1027 ≡ some (name_text libc cache 1027)
ll_index_to_name-text_example = ll_index_to_name-text libc cache (replicate 16 0) 1027 (omega arith)
