-- ===== src/LlMap/Laws.antt =====
-- The cache of android/src/main/c/ll_map.c against a plain table, and the names it falls back on.
use lan_scan.Base.{
  ℕ, ◌-◌, ◌%◌, ◌^◌, ◌<◌, ◌≤◌, ◌≡◌, ◌≢◌, refl, ap, ◌∙◌, ◌⊎◌, inl, inr, arith, ltb, ◌==◌, ==→eq,
  ==-ne, ne_of_==, Bool-cases, Option, none, some, List, [], ◌∷◌, ◌++◌, length, All, drop,
  append_assoc, ℤ, pos, negsuc,
}
use native.Mathlib.Decide.{ℕ_discrete}
use lan_scan.Libc.{Libc}
use lan_scan.Text.Buffer.{overlay}
use lan_scan.Text.Decimal.{length-decimal, All-pos-decimal}
use lan_scan.Text.Snprintf.{snprintf, snprintf-cut, cut-all, cstring, cstring-append}
use lan_scan.LlMap.{
  LlCache, IdxHead, find_in, string_in, ll_get_by_index, signed_decimal, type_of, if_number,
  ll_index_to_name, ll_index_to_type,
}

-- Every node hangs in the chain of its index.
abbrev pub IsHashed : IdxHead → Type 0
IsHashed idx_head = (h : ℕ) → All (λ (im : LlCache). im.index % 1024 ≡ h) (idx_head h)

abbrev pub In : LlCache → List LlCache → Type 0
In im [] = ⊥
In im (x ∷ xs) = (x ≡ im) ⊎ In im xs

-- What a search for `index` may answer.
abbrev pub Found : IdxHead → ℕ → Option LlCache → Type 0
Found idx_head index (some im) = (im.index ≡ index) × In im (idx_head (index % 1024))
Found idx_head index none = (h : ℕ) → All (λ (im : LlCache). im.index ≢ index) (idx_head h)

abbrev FoundIn : ℕ → List LlCache → Option LlCache → Type 0
FoundIn index chain (some im) = (im.index ≡ index) × In im chain
FoundIn index chain none = All (λ (im : LlCache). im.index ≢ index) chain

FoundIn-cons :
    (index : ℕ) (im : LlCache) (chain : List LlCache) (o : Option LlCache)
    → im.index ≢ index
    → FoundIn index chain o
    → FoundIn index (im ∷ chain) o
FoundIn-cons index im chain none h r = (h, r)
FoundIn-cons index im chain (some x) h r = (r.0, inr r.1)

find_in-FoundIn : (index : ℕ) (chain : List LlCache) → FoundIn index chain (find_in index chain)
unfolding find_in
find_in-FoundIn index [] = tt
find_in-FoundIn index (im ∷ chain) = elim (Bool-cases (im.index == index)) [
  | inl e ↦ rw e (==→eq im.index index e, inl refl)
  | inr e ↦ rw e (
      FoundIn-cons index im chain (find_in index chain) (ne_of_== im.index index e)
        (find_in-FoundIn index chain))
]

other_bucket :
    (index h : ℕ) (chain : List LlCache)
    → All (λ (im : LlCache). im.index % 1024 ≡ h) chain
    → index % 1024 ≢ h
    → All (λ (im : LlCache). im.index ≢ index) chain
other_bucket index h [] all ne = tt
other_bucket index h (im ∷ chain) all ne =
    (λ e. ne (rw (← e) all.0), other_bucket index h chain all.1 ne)

-- In a table where every node hangs in the chain of its index, a search looks at one chain and
-- still decides for the whole table: it answers a node with that index from the chain of the
-- index, or there is no such node in any chain.
pub ll_get_by_index-Found :
    (idx_head : IdxHead) (index : ℕ)
    → IsHashed idx_head
    → Found idx_head index (ll_get_by_index idx_head index)
unfolding ll_get_by_index
ll_get_by_index-Found idx_head index hashed =
    spread (find_in index (idx_head (index % 1024)))
      (find_in-FoundIn index (idx_head (index % 1024)))
  where
    spread :
        (o : Option LlCache) → FoundIn index (idx_head (index % 1024)) o → Found idx_head index o
    spread (some im) f = f
    spread none f = λ h. elim (ℕ_discrete (index % 1024) h) [
      | yes e ↦ rw e at f
      | no ne ↦ other_bucket index h (idx_head h) (hashed h) ne
    ]

length-signed_decimal : (n : ℕ) → n < 2 ^ 32 → length (signed_decimal n) ≤ 11
unfolding signed_decimal
length-signed_decimal n h = elim (Bool-cases (ltb n (2 ^ 31))) [
  | inl e ↦ rw e (omega (arith, length-decimal 9 n (omega arith)))
  | inr e ↦ rw e (omega (arith, length-decimal 9 (2 ^ 32 - n) (omega arith)))
]

pub All-pos-signed_decimal : (n : ℕ) → All (λ c. 0 < c) (signed_decimal n)
unfolding signed_decimal
All-pos-signed_decimal n = elim (Bool-cases (ltb n (2 ^ 31))) [
  | inl e ↦ rw e (All-pos-decimal n)
  | inr e ↦ rw e (omega arith, All-pos-decimal (2 ^ 32 - n))
]

-- The name of an interface with a 32-bit index other than 0 that neither the cache nor the system
-- knows is `if` and its whole number as `%d` prints it: 16 characters of `nbuf` always hold it and
-- its NUL.
pub ll_index_to_name-unknown :
    (c : Libc) (idx_head : IdxHead) (nbuf : List ℕ) (idx : ℕ)
    → idx ≢ 0
    → idx < 2 ^ 32
    → 16 ≤ length nbuf
    → ll_get_by_index idx_head idx ≡ none
    → c.if_indextoname idx ≡ none
    → ll_index_to_name c idx_head nbuf idx ≡ some (b'i' ∷ b'f' ∷ signed_decimal idx)
unfolding ll_index_to_name if_number
ll_index_to_name-unknown c idx_head nbuf idx ne small room miss no_name =
    rw (==-ne idx 0 ne, miss, no_name)
      (ap string_in printed
        ∙ ap some (
            ap cstring (append_assoc shown (0 ∷ []) (drop (length (shown ++ (0 ∷ []))) nbuf))
            ∙ cstring-append shown _ (omega arith, (omega arith, All-pos-signed_decimal idx))))
  where
    shown : List ℕ
    shown = b'i' ∷ b'f' ∷ signed_decimal idx

    printed : snprintf nbuf 0 16 shown ≡ some (overlay (shown ++ (0 ∷ [])) nbuf)
    printed =
        snprintf-cut [] shown nbuf 16 room
        ∙ ap (λ w. some (overlay w nbuf))
            (cut-all 16 shown (omega (arith, length-signed_decimal idx small)))

-- What `ll_index_to_type` may answer.
pub data Typed (idx_head : IdxHead) (idx : ℕ) (type : ℤ) : Type 0 where
  node :
      (im : LlCache)
      → type ≡ pos im.type
      → im.index ≡ idx
      → In im (idx_head (idx % 1024))
      → Typed idx_head idx type
  unknown :
      type ≡ negsuc 0
      → (idx ≡ 0) ⊎ ((h : ℕ) → All (λ (im : LlCache). im.index ≢ idx) (idx_head h))
      → Typed idx_head idx type

-- In a table where every node hangs in the chain of its index, the type is that of a node with the
-- index, and -1 for the index 0 or where no chain has such a node.
pub ll_index_to_type-Typed :
    (idx_head : IdxHead) (idx : ℕ)
    → IsHashed idx_head
    → Typed idx_head idx (ll_index_to_type idx_head idx)
unfolding ll_index_to_type
ll_index_to_type-Typed idx_head idx hashed = elim (Bool-cases (idx == 0)) [
  | inl e ↦ rw e (unknown refl (inl (==→eq idx 0 e)))
  | inr e ↦
      rw e (by_node (ll_get_by_index idx_head idx) (ll_get_by_index-Found idx_head idx hashed))
]
  where
    by_node : (o : Option LlCache) → Found idx_head idx o → Typed idx_head idx (type_of o)
    by_node none f = unknown refl (inr f)
    by_node (some im) f = node im refl f.0 f.1
