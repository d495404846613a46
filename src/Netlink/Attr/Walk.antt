-- ===== src/Netlink/Attr/Walk.antt =====
-- `parse_rtattr_flags` of android/src/main/c/libnetlink.c against the list of the attributes.
use lan_scan.Base.{
  ℕ, zero, suc, ◌+◌, ◌≤◌, ◌<◌, ◌≡◌, refl, leb, ◌==◌, if◌then◌else◌, Bool, true, false, Bool-cases,
  inl, inr, Option, none, some, List, [], ◌∷◌, length, get_elem?, ℤ, pos, negsuc, sub, to_ℕ, arith,
  leb→le, get_elem?-lt, set, length-set, ◌∙◌, sym, ==→eq, ne_of_==, get_elem?-set_self,
  get_elem?-set_ne, ◌&&◌,
}
use lan_scan.Memory.{Run, done, load16, load16-done}
use lan_scan.Sys.{Sys}
use lan_scan.Sys.Laws.{SysLaws}
use lan_scan.Netlink.Attr.{rta_ok, clear, Parsed, record_attr, enter, parse_loop}

module _ (s : Sys) (m : List ℕ) where
  -- The attributes from `rta` on, as types and places, and where and with what count they end.
  pub data Walk : ℕ → ℤ → List (ℕ × ℕ) → ℕ → ℤ → Type 0 where
    stop : {rta : ℕ} {len : ℤ} → rta_ok s m rta len ≡ done false → Walk rta len [] rta len
    step :
        {rta : ℕ} {len : ℤ} {type l : ℕ} {attrs : List (ℕ × ℕ)} {rta' : ℕ} {len' : ℤ}
        → rta_ok s m rta len ≡ done true
        → load16 m (rta + s.rta_type_at) ≡ done type
        → load16 m (rta + s.rta_len_at) ≡ done l
        → Walk (rta + s.rta_align l) (sub len (s.rta_align l)) attrs rta' len'
        → Walk rta len ((type, rta) ∷ attrs) rta' len'

-- The place of the first attribute of type `i`.
unfoldable pub first : (flags i : ℕ) → List (ℕ × ℕ) → Option ℕ
first flags i [] = none
first flags i ((type, rta) ∷ attrs) =
    if clear type flags == i then some rta else first flags i attrs

-- An entry of the table is filled once.
abbrev pub filled : Option (Option ℕ) → Option ℕ → Option (Option ℕ)
filled none new = none
filled (some none) new = some new
filled (some (some old)) new = some (some old)

filled-none : (o : Option (Option ℕ)) → filled o none ≡ o
filled-none none = refl
filled-none (some none) = refl
filled-none (some (some old)) = refl

filled-filled :
    (hit : Bool) (o : Option (Option ℕ)) (rta : ℕ) (later : Option ℕ)
    → filled (if hit then filled o (some rta) else o) later
      ≡ filled o (if hit then some rta else later)
filled-filled false o rta later = refl
filled-filled true none rta later = refl
filled-filled true (some none) rta later = refl
filled-filled true (some (some old)) rta later = refl

module _ (s : Sys) (laws : SysLaws s) (m : List ℕ) where
  -- `len` bytes from `rta` on end at `end`, or an aligned length has led past it.
  abbrev pub Near : ℕ → ℕ → ℤ → Type 0
  Near end rta (pos n) = rta + n ≤ end
  Near end rta (negsuc n) = rta < end + s.sizeof_rtattr

  Near-lt : (end rta : ℕ) (len : ℤ) → Near end rta len → rta < end + s.sizeof_rtattr
  Near-lt end rta (pos n) near = omega (arith, laws.rta_len_inside)
  Near-lt end rta (negsuc n) near = near

  -- What RTA_OK says of bytes that lie inside the array.
  pub data Checked (rta : ℕ) (len : ℤ) : Type 0 where
    bad : rta_ok s m rta len ≡ done false → Checked rta len
    good :
        (type l : ℕ)
        → rta_ok s m rta len ≡ done true
        → load16 m (rta + s.rta_type_at) ≡ done type
        → load16 m (rta + s.rta_len_at) ≡ done l
        → s.sizeof_rtattr ≤ l
        → l ≤ to_ℕ len
        → Checked rta len

  header :
      (end rta n : ℕ)
      → end ≤ length m
      → rta + n ≤ end
      → s.sizeof_rtattr ≤ n
      → (rta + s.rta_len_at + 2 ≤ length m) × (rta + s.rta_type_at + 2 ≤ length m)
  header end rta n h near fits = omega (arith, laws.rta_len_inside, laws.rta_type_inside)

  pub check : (end rta : ℕ) (len : ℤ) → end ≤ length m → Near end rta len → Checked rta len
  unfolding rta_ok
  check end rta (negsuc n) h near = bad refl
  check end rta (pos n) h near = elim (Bool-cases (leb s.sizeof_rtattr n)) [
    | inr small ↦ bad (rw small)
    | inl fits ↦
        let (in_len, in_type) = header end rta n h near (leb→le _ _ fits) in
        let (l, el) = load16-done m (rta + s.rta_len_at) in_len in
        let (type, et) = load16-done m (rta + s.rta_type_at) in_type in
        elim (Bool-cases (leb s.sizeof_rtattr l && leb l n)) [
          | inr no_good ↦ bad (rw (fits, el, no_good))
          | inl all_good ↦ good type l (rw (fits, el, all_good)) et el (ground arith) (ground arith)
        ]
  ]

  -- The next attribute starts at the end of this one, or the count is used up.
  pub Near-next :
      (end rta l : ℕ) (len : ℤ)
      → Near end rta len
      → s.sizeof_rtattr ≤ l
      → l ≤ to_ℕ len
      → Near end (rta + s.rta_align l) (sub len (s.rta_align l))
  Near-next end rta l (negsuc n) near big h = absurd (omega (arith, laws.rta_len_inside))
  Near-next end rta l (pos n) near big h = elim (Bool-cases (leb (s.rta_align l) n)) [
    | inl e ↦ rw e (omega (arith, leb→le _ _ e))
    | inr e ↦ rw e (omega (arith, laws.rta_align_near l))
  ]

  shorter :
      (l fuel : ℕ) (len : ℤ)
      → s.sizeof_rtattr ≤ l
      → l ≤ to_ℕ len
      → to_ℕ len < suc fuel
      → to_ℕ (sub len (s.rta_align l)) < fuel
  shorter l fuel (negsuc n) big h f = absurd (omega (arith, laws.rta_len_inside))
  shorter l fuel (pos n) big h f = ground (arith, laws.rta_align_up l, laws.rta_len_inside)

module _ (max type rta : ℕ) (tb : List (Option ℕ)) where
  -- The table with the entry of one type filled, and no other changed.
  abbrev Fills : Run (List (Option ℕ)) → Type 0
  Fills r =
      (tb' : List (Option ℕ)) × (r ≡ done tb')
      × (length tb' ≡ max + 1)
      × ((i : ℕ)
          → i ≤ max
          → get_elem? tb' i
            ≡ (if type == i then filled (get_elem? tb i) (some rta) else get_elem? tb i))

  enter-Fills :
      (o : Option ℕ)
      → type ≤ max
      → length tb ≡ max + 1
      → get_elem? tb type ≡ some o
      → Fills (enter tb type rta (some o))
  unfolding enter
  enter-Fills none small size eo = (
    set tb type (some rta),
    refl,
    length-set tb type (some rta) ∙ size,
    λ i h. elim (Bool-cases (type == i)) [
      | inl e ↦
          let e' = ==→eq type i e in
          rw (e, ← e', eo) (get_elem?-set_self tb type (some rta) (omega arith))
      | inr e ↦ rw e (get_elem?-set_ne tb type i (some rta) (ne_of_== type i e))
    ],
  )
  enter-Fills (some old) small size eo = (
    tb,
    refl,
    size,
    λ i h. elim (Bool-cases (type == i)) [
      | inl e ↦ let e' = ==→eq type i e in rw (e, ← e', eo)
      | inr e ↦ rw e
    ],
  )

  record_attr-Fills : length tb ≡ max + 1 → Fills (record_attr max tb type rta)
  unfolding record_attr
  record_attr-Fills size = elim (Bool-cases (leb type max)) [
    | inr large ↦ (tb, rw large, size, λ i h. ground arith)
    | inl small ↦
        let (o, eo) = get_elem?-lt tb type (omega (arith, leb→le type max small)) in
        rw (small, eo) (enter-Fills o (leb→le type max small) size eo)
  ]

-- What the loop gives: the table is the old one filled with the first attribute of each type.
pub data Parses (s : Sys) (m : List ℕ) (max flags end : ℕ) (tb : List (Option ℕ)) (rta : ℕ)
    (len : ℤ) (r : Run Parsed) : Type 0 where
  parses :
      (p : Parsed) (attrs : List (ℕ × ℕ))
      → r ≡ done p
      → Walk s m rta len attrs p.rta p.len
      → length p.tb ≡ max + 1
      → ((i : ℕ) → i ≤ max → get_elem? p.tb i ≡ filled (get_elem? tb i) (first flags i attrs))
      → p.rta < end + s.sizeof_rtattr
      → Parses s m max flags end tb rta len r

module _ (s : Sys) (m : List ℕ) (max flags end : ℕ) where
  Parses-step :
      (tb tb' : List (Option ℕ)) (rta : ℕ) (len : ℤ) (type l : ℕ) (r : Run Parsed)
      → rta_ok s m rta len ≡ done true
      → load16 m (rta + s.rta_type_at) ≡ done type
      → load16 m (rta + s.rta_len_at) ≡ done l
      → ((i : ℕ)
          → i ≤ max
          → get_elem? tb' i ≡ (
              if clear type flags == i then filled (get_elem? tb i) (some rta) else get_elem? tb i))
      → Parses s m max flags end tb' (rta + s.rta_align l) (sub len (s.rta_align l)) r
      → Parses s m max flags end tb rta len r
  unfolding first
  Parses-step tb tb' rta len type l r e et el entries (parses p attrs er walk size table near) =
      parses p ((type, rta) ∷ attrs) er (step e et el walk) size
        (λ i h.
          rw (table i h, entries i h)
            (filled-filled (clear type flags == i) (get_elem? tb i) rta (first flags i attrs)))
        near

module _ (s : Sys) (laws : SysLaws s) (m : List ℕ) (max flags end : ℕ)
    (inside : end ≤ length m) where
  pub parse_loop-Parses :
      (fuel : ℕ) (tb : List (Option ℕ)) (rta : ℕ) (len : ℤ)
      → Near s laws m end rta len
      → to_ℕ len < fuel
      → length tb ≡ max + 1
      → Parses s m max flags end tb rta len (parse_loop s m max flags fuel tb rta len)
  unfolding parse_loop first
  parse_loop-Parses zero tb rta len near f size = absurd (omega arith)
  parse_loop-Parses (suc fuel) tb rta len near f size =
      elim (check s laws m end rta len inside near) [
        | bad e ↦ rw e (
            parses (record { tb = tb; rta = rta; len = len }) [] refl (stop e) size
              (λ i h. sym (filled-none (get_elem? tb i))) (Near-lt s laws m end rta len near))
        | good type l e et el big fits ↦
            let (tb', eb, size', entries) = record_attr-Fills max (clear type flags) rta tb size in
            let rest =
              parse_loop-Parses fuel tb' (rta + s.rta_align l) (sub len (s.rta_align l))
                (Near-next s laws m end rta l len near big fits)
                (shorter s laws m l fuel len big fits f) size' in
            rw (e, et, eb, el)
              (Parses-step s m max flags end tb tb' rta len type l _ e et el entries rest)
      ]
