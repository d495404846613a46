-- ===== src/LlMap/Names.antt =====
-- The name that `ll_index_to_name` of android/src/main/c/ll_map.c gives, for every index.
use lan_scan.Base.{
  ℕ, ◌-◌, ◌≤◌, ◌≡◌, refl, ap, arith, inl, inr, ◌==◌, Bool-cases, if◌then◌else◌, Option, none, some,
  List, [], ◌∷◌, length, take,
}
use lan_scan.Libc.{Libc}
use lan_scan.LlMap.{
  LlCache, IdxHead, string_in, unnamed, cached, ll_get_by_index, signed_decimal, if_number,
  ll_idx_n2a, ll_index_to_name,
}
use lan_scan.LlMap.Laws.{All-pos-signed_decimal}
use lan_scan.Text.Snprintf.{snprintf-cut, cstring-cut}

-- `if` and the number, in the 16 characters of `nbuf`.
abbrev number_text : ℕ → List ℕ
number_text idx = take (16 - 1) (b'i' ∷ b'f' ∷ signed_decimal idx)

-- The first name that there is: of a node, of the system, or the number.
abbrev first_name : ℕ → Option LlCache → Option (List ℕ) → List ℕ
first_name idx (some im) known = im.name
first_name idx none (some name) = name
first_name idx none none = number_text idx

unfoldable pub name_text : Libc → IdxHead → ℕ → List ℕ
name_text c idx_head idx =
    if idx == 0
    then b'*' ∷ []
    else first_name idx (ll_get_by_index idx_head idx) (c.if_indextoname idx)

number_shown :
    (nbuf : List ℕ) (idx : ℕ)
    → 16 ≤ length nbuf
    → string_in (if_number idx nbuf) ≡ some (number_text idx)
unfolding if_number string_in
number_shown nbuf idx room =
    rw (snprintf-cut [] (b'i' ∷ b'f' ∷ signed_decimal idx) nbuf 16 (omega arith)) (
      ap some (
        cstring-cut 16 (b'i' ∷ b'f' ∷ signed_decimal idx) nbuf (omega arith)
          (omega arith, (omega arith, All-pos-signed_decimal idx))))

-- With room for 16 characters every index has a name: `*` for 0, else that of the node, else that of the
-- system, else `if` and the number.
pub ll_index_to_name-text :
    (c : Libc) (idx_head : IdxHead) (nbuf : List ℕ) (idx : ℕ)
    → 16 ≤ length nbuf
    → ll_index_to_name c idx_head nbuf idx ≡ some (name_text c idx_head idx)
unfolding ll_index_to_name ll_idx_n2a name_text cached unnamed
ll_index_to_name-text c idx_head nbuf idx room = elim (Bool-cases (idx == 0)) [
  | inl e ↦ rw e
  | inr e ↦ rw e (by_name (ll_get_by_index idx_head idx) (c.if_indextoname idx))
]
  where
    by_name :
        (o : Option LlCache) (known : Option (List ℕ))
        → cached o (unnamed idx nbuf known) ≡ some (first_name idx o known)
    by_name (some im) known = refl
    by_name none (some name) = refl
    by_name none none = number_shown nbuf idx room
