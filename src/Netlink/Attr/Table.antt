-- ===== src/Netlink/Attr/Table.antt =====
-- What the callers of `parse_rtattr` in android/src/main/c/libnetlink.c get.
use lan_scan.Base.{
  ℕ, suc, ◌+◌, ◌*◌, ◌≤◌, ◌≡◌, refl, ap, ◌∙◌, none, some, List, length, length-replicate, replicate,
  get_elem?, get_elem?-replicate, ℤ, pos, is_zero, Bool-cases, inl, inr, arith, true, false,
}
use lan_scan.Memory.{Run, done, load16-done, ◌>>=◌}
use lan_scan.Sys.{Sys}
use lan_scan.Sys.Laws.{SysLaws}
use lan_scan.Netlink.Attr.{Attrs, Parsed, report, parse_rtattr_flags}
use lan_scan.Netlink.Attr.Walk.{Walk, first, filled, Parses, parses, parse_loop-Parses}

-- A finished parse of the `n` bytes from `rta` on: the table has an entry for each type up to `max`,
-- the first attribute of that type where there is one, and what is reported is what the walk leaves.
pub data Tabulates (s : Sys) (m : List ℕ) (max flags rta n : ℕ) (r : Run Attrs) : Type 0 where
  tabulates :
      (a : Attrs) (attrs : List (ℕ × ℕ)) (rta' : ℕ) (len' : ℤ)
      → r ≡ done a
      → Walk s m rta (pos n) attrs rta' len'
      → length a.tb ≡ max + 1
      → ((i : ℕ) → i ≤ max → get_elem? a.tb i ≡ some (first flags i attrs))
      → (is_zero len' ≡ true → a.deficit ≡ none)
      → (is_zero len' ≡ false → (l : ℕ) × (a.deficit ≡ some (len', l)))
      → Tabulates s m max flags rta n r

module _ (s : Sys) (laws : SysLaws s) (m : List ℕ) where
  report-done :
      (p : Parsed)
      → p.rta + s.sizeof_rtattr ≤ length m
      → (a : Attrs) × (report s m p ≡ done a)
        × (a.tb ≡ p.tb)
        × (is_zero p.len ≡ true → a.deficit ≡ none)
        × (is_zero p.len ≡ false → (l : ℕ) × (a.deficit ≡ some (p.len, l)))
  unfolding report
  report-done p room =
      let (l, el) = load16-done m (p.rta + s.rta_len_at) (omega (arith, laws.rta_len_inside)) in
      elim (Bool-cases (is_zero p.len)) [
        | inl z ↦ (record { tb = p.tb; deficit = none }, rw z, refl, λ e. refl, λ e. ground arith)
        | inr z ↦ (
          record { tb = p.tb; deficit = some (p.len, l) },
          rw (z, el),
          refl,
          λ e. ground arith,
          λ e. (l, refl),
        )
      ]

  -- On every region of bytes that ends two header sizes before the array does,
  -- `parse_rtattr_flags` returns and reads nothing outside the array. The entry of each type up to
  -- `max` is the first attribute of that type, where there is one, and a deficit is reported
  -- exactly where the walk over the attributes leaves a count other than 0.
  pub parse_rtattr_flags-Tabulates :
      (max rta n flags : ℕ)
      → rta + n + 2 * s.sizeof_rtattr ≤ length m
      → Tabulates s m max flags rta n (parse_rtattr_flags s m max rta (pos n) flags)
  unfolding parse_rtattr_flags
  parse_rtattr_flags-Tabulates max rta n flags room = finish _ (
      parse_loop-Parses s laws m max flags (rta + n) (omega arith) (suc n)
        (replicate (max + 1) none) rta (pos n) (omega arith) (omega arith)
        (length-replicate (max + 1) none))
    where
      finish :
          (r : Run Parsed)
          → Parses s m max flags (rta + n) (replicate (max + 1) none) rta (pos n) r
          → Tabulates s m max flags rta n (r >>= report s m)
      finish r (parses p attrs er walk size table near) =
          let (a, ea, et, none_left, some_left) = report-done p (omega arith) in
          rw er (
            tabulates a attrs p.rta p.len ea walk (rw et size)
              (λ i h. rw et (
                table i h
                ∙ ap (λ o. filled o (first flags i attrs))
                    (get_elem?-replicate (max + 1) i none (omega arith))))
              none_left some_left)
