-- ===== src/Netlink/Attr/Inside.antt =====
-- The attributes that `parse_rtattr` of android/src/main/c/libnetlink.c puts into its table lie inside the
-- bytes that it was given.
use lan_scan.Base.{
  ℕ, ◌+◌, ◌*◌, ◌≤◌, ◌≡◌, refl, sym, ◌∙◌, arith, ◌==◌, Bool-cases, inl, inr, Option, none, some,
  List, length, get_elem?, ℤ, pos, negsuc, to_ℕ,
}
use lan_scan.Memory.{done, load16}
use lan_scan.Netlink.Attr.{Attrs, clear, parse_rtattr}
use lan_scan.Netlink.Attr.Table.{Tabulates, tabulates, parse_rtattr_flags-Tabulates}
use lan_scan.Netlink.Attr.Walk.{Walk, stop, step, first, Near, Near-next, bad, good, check}
use lan_scan.Sys.{Sys}
use lan_scan.Sys.Laws.{SysLaws}

-- An attribute at `p` with its whole length in front of `end`.
pub record AttrAt (s : Sys) (m : List ℕ) (end p : ℕ) : Type 0 where
  pub len : ℕ
  pub len_read : load16 m (p + s.rta_len_at) ≡ done len
  pub big : s.sizeof_rtattr ≤ len
  pub whole : p + len ≤ end

module _ (s : Sys) (m : List ℕ) (end : ℕ) where
  -- What an entry of the table may be.
  pub data Entry (tb : List (Option ℕ)) (i : ℕ) : Type 0 where
    absent : get_elem? tb i ≡ some none → Entry tb i
    present : (p : ℕ) → get_elem? tb i ≡ some (some p) → AttrAt s m end p → Entry tb i

done-injective {ℓ} : {A : Type ℓ} (a b : A) → done a ≡ done b → a ≡ b
done-injective a b e = cc

some-injective : (a b : ℕ) → some a ≡ some b → a ≡ b
some-injective a b e = cc

module _ (s : Sys) (laws : SysLaws s) (m : List ℕ) (end : ℕ) (inside : end ≤ length m) where
  AttrAt-here :
      (rta l : ℕ) (len : ℤ)
      → Near s laws m end rta len
      → load16 m (rta + s.rta_len_at) ≡ done l
      → s.sizeof_rtattr ≤ l
      → l ≤ to_ℕ len
      → AttrAt s m end rta
  AttrAt-here rta l (pos n) near el big fits = record {
    len = l;
    len_read = el;
    big = big;
    whole = omega arith;
  }
  AttrAt-here rta l (negsuc n) near el big fits = absurd (omega (arith, laws.rta_len_inside))

  first-AttrAt :
      (flags i : ℕ) {rta : ℕ} {len : ℤ} {attrs : List (ℕ × ℕ)} {rta' : ℕ} {len' : ℤ} (p : ℕ)
      → Walk s m rta len attrs rta' len'
      → Near s laws m end rta len
      → first flags i attrs ≡ some p
      → AttrAt s m end p
  unfolding first
  first-AttrAt flags i p (stop e) near found = cc
  first-AttrAt flags i p (step {rta} {len} {type} {l} {attrs} ok et el rest) near found =
      elim (check s laws m end rta len inside near) [
        | bad e ↦ cc
        | good type' l' e et' el' big fits ↦
            let same : l ≡ l' = done-injective l l' (sym el ∙ el') in
            elim (Bool-cases (clear type flags == i)) [
              | inl hit ↦
                  let e : rta ≡ p = some-injective rta p (rw hit at found) in
                  rw (← e) (AttrAt-here rta l' len near el' big fits)
              | inr miss ↦
                  first-AttrAt flags i p rest
                    (Near-next s laws m end rta l len near (omega arith) (omega arith))
                    (rw miss at found)
            ]
      ]

  Entry-of :
      (tb : List (Option ℕ)) (i rta : ℕ) (len : ℤ) (attrs : List (ℕ × ℕ)) (rta' : ℕ) (len' : ℤ)
      (o : Option ℕ)
      → Walk s m rta len attrs rta' len'
      → Near s laws m end rta len
      → first 0 i attrs ≡ o
      → get_elem? tb i ≡ some o
      → Entry s m end tb i
  Entry-of tb i rta len attrs rta' len' none walk near e at = absent at
  Entry-of tb i rta len attrs rta' len' (some p) walk near e at =
      present p at (first-AttrAt 0 i p walk near e)

entry_is : {o : Option ℕ} {p : ℕ} → some o ≡ some (some p) → o ≡ some p
entry_is e = cc

-- A walk only goes up.
first-behind :
    (s : Sys) (m : List ℕ) (flags i : ℕ) {rta : ℕ} {len : ℤ} {attrs : List (ℕ × ℕ)} {rta' : ℕ}
    {len' : ℤ} (p : ℕ)
    → Walk s m rta len attrs rta' len'
    → first flags i attrs ≡ some p
    → rta ≤ p
unfolding first
first-behind s m flags i p (stop e) found = cc
first-behind s m flags i p (step {rta} {len} {type} {l} {attrs} ok et el rest) found =
    elim (Bool-cases (clear type flags == i)) [
      | inl hit ↦ let e : rta ≡ p = some-injective rta p (rw hit at found) in omega (arith, e)
      | inr miss ↦ let up = first-behind s m flags i p rest (rw miss at found) in omega (arith, up)
    ]

module _ (s : Sys) (laws : SysLaws s) (m : List ℕ) (max rta n : ℕ)
    (room : rta + n + 2 * s.sizeof_rtattr ≤ length m) where
  -- The bytes from `rta` on are parsed, and nothing else.
  pub parse_rtattr-Entry :
      (a : Attrs) × (parse_rtattr s m max rta (pos n) ≡ done a)
      × ((i : ℕ) → i ≤ max → Entry s m (rta + n) a.tb i)
      × ((i p : ℕ) → i ≤ max → get_elem? a.tb i ≡ some (some p) → rta ≤ p)
      × Tabulates s m max 0 rta n (parse_rtattr s m max rta (pos n))
  unfolding parse_rtattr
  parse_rtattr-Entry = elim (parse_rtattr_flags-Tabulates s laws m max rta n 0 room) [
    | tabulates a attrs rta' len' er walk size table deficit_none deficit_some ↦ (
      a,
      er,
      λ i h.
          Entry-of s laws m (rta + n) (omega arith) a.tb i rta (pos n) attrs rta' len'
            (first 0 i attrs) walk (omega arith) refl (table i h),
      λ i p h at. first-behind s m 0 i p walk (entry_is (sym (table i h) ∙ at)),
      tabulates a attrs rta' len' er walk size table deficit_none deficit_some,
    )
  ]
