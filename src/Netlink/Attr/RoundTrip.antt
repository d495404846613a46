-- ===== src/Netlink/Attr/RoundTrip.antt =====
-- Attributes that `addattr_l` of android/src/main/c/libnetlink.c appends, as `parse_rtattr` finds them.
use lan_scan.Base.{
  ℕ, suc, ◌+◌, ◌-◌, ◌%◌, ◌^◌, ◌≤◌, ◌<◌, ◌≡◌, ◌≢◌, refl, sym, ap, ◌∙◌, arith, leb, le→leb, lt→leb,
  ◌&&◌, true, false, Bool-cases, inl, inr, none, some, List, [], ◌∷◌, ◌++◌, length, get_elem?,
  get_elem?-replicate, replicate, length-replicate, ℤ, pos, negsuc, sub_ℕ, le-or-lt,
}
use lan_scan.Memory.{Run, done, load16, load32, ◌>>=◌}
use lan_scan.Memory.Writes.{load16-Agree}
use lan_scan.Netlink.Attr.{
  Attrs, Parsed, rta_length, rta_ok, report, addattr_l, parse_rtattr, parse_rtattr_flags,
}
use lan_scan.Netlink.Attr.Append.{new_len, refused, added, addattr_l-Adds}
use lan_scan.Netlink.Attr.Walk.{Walk, stop, step, first, filled, Parses, parses, parse_loop-Parses}
use lan_scan.Sys.{Sys}
use lan_scan.Sys.Laws.{SysLaws}

module _ (s : Sys) (m : List ℕ) where
  done-Injective {ℓ} : {A : Type ℓ} (a b : A) → done a ≡ done b → a ≡ b
  done-Injective a b e = cc

  -- There is one walk from a place.
  Walk-unique :
      {rta : ℕ} {len : ℤ} {xs ys : List (ℕ × ℕ)} {p q : ℕ} {i j : ℤ}
      → Walk s m rta len xs p i
      → Walk s m rta len ys q j
      → (xs ≡ ys) × (i ≡ j)
  Walk-unique (stop e) (stop e') = (refl, refl)
  Walk-unique (stop e) (step ok et el rest) = absurd cc
  Walk-unique (step ok et el rest) (stop e') = absurd cc
  Walk-unique (step {rta} {len} {type} {l} ok et el rest)
        (step {type = type'} {l = l'} ok' et' el' rest') =
      let same_l : l' ≡ l = done-Injective l' l (sym el' ∙ el) in
      let same_type : type ≡ type' = done-Injective type type' (sym et ∙ et') in
      let (same, e) = Walk-unique rest (rw same_l at rest') in (rw (same_type, same) refl, e)

  -- What RTA_OK says where the bytes are left.
  rta_ok-good :
      (rta l n : ℕ)
      → load16 m (rta + s.rta_len_at) ≡ done l
      → s.sizeof_rtattr ≤ l
      → l ≤ n
      → rta_ok s m rta (pos n) ≡ done true
  unfolding rta_ok
  rta_ok-good rta l n el big fits =
      rw (le→leb s.sizeof_rtattr n (omega arith), el, le→leb s.sizeof_rtattr l big, le→leb l n fits)
        refl

  rta_ok-end : (rta : ℕ) → 0 < s.sizeof_rtattr → rta_ok s m rta (pos 0) ≡ done false
  unfolding rta_ok
  rta_ok-end rta h = rw (lt→leb s.sizeof_rtattr 0 h) refl

  rta_ok-read :
      (rta l n : ℕ)
      → rta_ok s m rta (pos n) ≡ done true
      → load16 m (rta + s.rta_len_at) ≡ done l
      → (s.sizeof_rtattr ≤ l) × (l ≤ n)
  unfolding rta_ok
  rta_ok-read rta l n ok el = elim (Bool-cases (leb s.sizeof_rtattr n)) [
    | inr small ↦ absurd (cc (rw small at ok))
    | inl room ↦
        let tests : (leb s.sizeof_rtattr l && leb l n) ≡ true =
          done-Injective (leb s.sizeof_rtattr l && leb l n) true (rw (room, el) at ok) in
        (ground arith, ground arith)
  ]

  -- Where a count is negative, the walk has ended.
  Walk-neg :
      {rta : ℕ} {xs : List (ℕ × ℕ)} {p : ℕ} {i : ℤ} (n : ℕ)
      → Walk s m rta (negsuc n) xs p i
      → i ≢ pos 0
  unfolding rta_ok
  Walk-neg n (stop e) zero = absurd (cc zero)
  Walk-neg n (step ok et el rest) zero = absurd (cc ok)

pos-Injective : (a b : ℕ) → pos a ≡ pos b → a ≡ b
pos-Injective a b e = cc

zero_plus : (a : ℕ) → 0 + a ≡ a
zero_plus a = omega arith

sub_ℕ-self : (a : ℕ) → sub_ℕ a a ≡ pos 0
sub_ℕ-self a = rw (le→leb a a (omega arith)) (ap pos (omega arith))

sub_ℕ-le : (a b : ℕ) → b ≤ a → sub_ℕ a b ≡ pos (a - b)
sub_ℕ-le a b h = rw (le→leb b a h) refl

sub_ℕ-lt : (a b : ℕ) → a < b → sub_ℕ a b ≡ negsuc (b - a - 1)
sub_ℕ-lt a b h = rw (lt→leb b a h) refl

sub_ℕ-more : (a b c : ℕ) → b ≤ a → sub_ℕ (a + c) b ≡ pos (a - b + c)
sub_ℕ-more a b c h = rw (le→leb b (a + c) (omega arith)) (ap pos (omega arith))

-- `m'` is `m` but for the attribute of type `t` and length `len` at `tail`.
module _ (s : Sys) (laws : SysLaws s) (m m' : List ℕ) (tail t len : ℕ)
    (same : (q : ℕ) → s.sizeof_nlmsghdr ≤ q → q < tail → get_elem? m' q ≡ get_elem? m q)
    (et : load16 m' (tail + s.rta_type_at) ≡ done t)
    (el : load16 m' (tail + s.rta_len_at) ≡ done len) (big : s.sizeof_rtattr ≤ len) where
  Walk-last :
      Walk s m' tail (pos (s.rta_align len)) ((t, tail) ∷ []) (tail + s.rta_align len) (pos 0)
  Walk-last =
      step (rta_ok-good s m' tail len (s.rta_align len) el big (laws.rta_align_up len)) et el (
        rw (sub_ℕ-self (s.rta_align len))
          (stop (rta_ok-end s m' _ (omega (arith, laws.rta_len_inside)))))

  Walk-append :
      {rta : ℕ} {count : ℤ} {xs : List (ℕ × ℕ)} {p : ℕ} {i : ℤ} (n : ℕ)
      → Walk s m rta count xs p i
      → count ≡ pos n
      → i ≡ pos 0
      → s.sizeof_nlmsghdr ≤ rta
      → rta + n ≡ tail
      → Walk s m' rta
          (pos (n + s.rta_align len))
          (xs ++ (t, tail) ∷ [])
          (tail + s.rta_align len)
          (pos 0)
  Walk-append n (stop {rta} {len = count} e) c z low at =
      let none_left : n ≡ 0 = pos-Injective n 0 (sym c ∙ z) in
      let here : rta ≡ tail = omega arith in
      rw (none_left, here, zero_plus (s.rta_align len)) Walk-last
  Walk-append n (step {rta} {len = count} {type} {l} ok et' el' rest) c z low at =
      let (big', fits) = rta_ok-read s m rta l n (rw c at ok) el' in
      let up = laws.rta_align_up l in
      let el2 =
        load16-Agree m m' (rta + s.rta_len_at)
          (λ x lo hi. same x (omega arith) (omega (arith, laws.rta_len_inside)))
        ∙ el' in
      let et2 =
        load16-Agree m m' (rta + s.rta_type_at)
          (λ x lo hi. same x (omega arith) (omega (arith, laws.rta_type_inside)))
        ∙ et' in
      elim (le-or-lt (s.rta_align l) n) [
        | inr more ↦ absurd (
            Walk-neg s m (s.rta_align l - n - 1) (rw (c, sub_ℕ-lt n (s.rta_align l) more) at rest)
              z)
        | inl less ↦
            step (rta_ok-good s m' rta l (n + s.rta_align len) el2 big' (omega arith)) et2 el2 (
              rw (sub_ℕ-more n (s.rta_align l) (s.rta_align len) less) (
                Walk-append (n - s.rta_align l) rest (rw c (sub_ℕ-le n (s.rta_align l) less)) z
                  (omega arith) (omega arith)))
      ]

-- What the parser gives on the bytes of a walk that ends with none left.
module _ (s : Sys) (laws : SysLaws s) (m : List ℕ) (max rta n : ℕ)
    (inside : rta + n ≤ length m) where
  parse_rtattr-Walk :
      (xs : List (ℕ × ℕ)) (p : ℕ)
      → Walk s m rta (pos n) xs p (pos 0)
      → (a : Attrs) × (parse_rtattr s m max rta (pos n) ≡ done a)
        × (a.deficit ≡ none)
        × ((i : ℕ) → i ≤ max → get_elem? a.tb i ≡ some (first 0 i xs))
  unfolding parse_rtattr parse_rtattr_flags report
  parse_rtattr-Walk xs p walk = finish _ (
      parse_loop-Parses s laws m max 0 (rta + n) inside (suc n) (replicate (max + 1) none) rta
        (pos n) (omega arith) (omega arith) (length-replicate (max + 1) none))
    where
      finish :
          (r : Run Parsed)
          → Parses s m max 0 (rta + n) (replicate (max + 1) none) rta (pos n) r
          → (a : Attrs) × ((r >>= report s m) ≡ done a)
            × (a.deficit ≡ none)
            × ((i : ℕ) → i ≤ max → get_elem? a.tb i ≡ some (first 0 i xs))
      finish r (parses q ys er walk' size table near) =
          let (same, none_left) = Walk-unique s m walk' walk in
          (
            record { tb = q.tb; deficit = none },
            rw (er, none_left) refl,
            refl,
            λ i h.
                table i h
                ∙ ap (λ o. filled o (first 0 i ys))
                    (get_elem?-replicate (max + 1) i none (omega arith))
                ∙ ap (λ zs. some (first 0 i zs)) same,
          )

-- The message `m'` as the parser reads it, from `a` on: the attributes `xs`, and no byte is left.
pub record Reads (s : Sys) (m' : List ℕ) (max a n : ℕ) (xs : List (ℕ × ℕ)) : Type 0 where
  pub attrs : Attrs
  pub parsed : parse_rtattr s m' max a (pos n) ≡ done attrs
  pub no_deficit : attrs.deficit ≡ none
  pub entries : (i : ℕ) → i ≤ max → get_elem? attrs.tb i ≡ some (first 0 i xs)

-- An attribute whose length fits 16 bits, for which the bound and the array have room, is found
-- again: behind attributes that fill a message, the parser finds the same attributes at the same
-- places and then the new one, whose entry in the table it is unless one of them has its type, and
-- it reports no deficit.
pub addattr_l-Reads :
    (s : Sys) (laws : SysLaws s) (m : List ℕ) (l type : ℕ) (bytes : List ℕ) (maxlen max a n : ℕ)
    (xs : List (ℕ × ℕ))
    → load32 m s.nlmsg_len_at ≡ done l
    → s.sizeof_nlmsghdr ≤ l
    → rta_length s (length bytes) < 2 ^ 16
    → new_len s m l type bytes < 2 ^ 32
    → new_len s m l type bytes ≤ maxlen
    → maxlen ≤ length m
    → s.sizeof_nlmsghdr ≤ a
    → a + n ≡ s.nlmsg_align l
    → Walk s m a (pos n) xs (s.nlmsg_align l) (pos 0)
    → (m' : List ℕ) × (addattr_l s m maxlen type bytes ≡ done (record { msg = m'; status = pos 0 }))
      × (load32 m' s.nlmsg_len_at ≡ done (new_len s m l type bytes))
      × Reads s m' max a
          (n + s.rta_align (rta_length s (length bytes)))
          (xs ++ (type % 2 ^ 16, s.nlmsg_align l) ∷ [])
addattr_l-Reads s laws m l type bytes maxlen max a n xs el body short small fits bound low at walk =
    let up = laws.nlmsg_align_up l in
    let size_up = laws.rta_align_up s.sizeof_rtattr in
    elim (addattr_l-Adds s laws m l type bytes body short small maxlen el bound (omega arith)) [
      | refused no_room er ↦ absurd (omega arith)
      | added m' room er new ↦
          let (t, et, none_left, table) =
            parse_rtattr-Walk s laws m' max a (n + s.rta_align (rta_length s (length bytes)))
              (omega (arith, new.same)) _ _
              (Walk-append s laws m m' (s.nlmsg_align l) (type % 2 ^ 16)
                (rta_length s (length bytes))
                (λ q lo hi. new.front q hi (inr (omega (arith, laws.nlmsg_len_inside))))
                new.type_read new.len_read (omega arith) n walk refl refl low at) in
          (
            m',
            er,
            new.len,
            record { attrs = t; parsed = et; no_deficit = none_left; entries = table },
          )
    ]
