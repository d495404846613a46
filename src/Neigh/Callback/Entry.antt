-- ===== src/Neigh/Callback/Entry.antt =====
-- What `print_neigh` of android/src/main/c/ipneigh.c prints for an entry that the filter of a listing lets through.
use lan_scan.Base.{
  ℕ, ◌+◌, ◌≤◌, ◌≡◌, refl, Option, none, some, List, [], ◌∷◌, ◌++◌, length, append_assoc, get_elem?,
  ℤ, pos,
}
use lan_scan.Libc.{Libc}
use lan_scan.Libc.Laws.{LibcLaws}
use lan_scan.Neigh.Callback.{print_line}
use lan_scan.Neigh.Line.{
  print_dst, print_dev, print_lladdr, print_cacheinfo, print_probes, kind_text, flags_text,
  state_text,
}
use lan_scan.Neigh.Line.Prints.{
  Prints, IsRoomy, dst_text, dev_text, lladdr_text, print_dst-Prints, print_dst-none,
  print_dev-Prints, print_lladdr-Prints, print_lladdr-none, print_cacheinfo-Prints,
  print_probes-Prints,
}
use lan_scan.Neigh.Print.{Env, Ndmsg, emit}
use lan_scan.Netlink.Attr.{Attrs}
use lan_scan.Netlink.Attr.Inside.{Entry, absent, present}
use lan_scan.Sys.{Sys}
use lan_scan.Sys.Laws.{SysLaws}
use lan_scan.Text.Codes.{codes}
use lan_scan.World.{World, Filter, Note, ok, Cmd, ◌>>◌, deficit}

-- `k` appends `t` to the output and returns 0.
abbrev Finishes : Cmd ℤ → List ℕ → Type 0
Finishes k t = (w : World) → k w ≡ ok (pos 0) (record w { out = w.out ++ t })

Finishes-seq :
    (x : Cmd (Unit {0})) (k : Cmd ℤ) (t u : List ℕ)
    → Prints x t
    → Finishes k u
    → Finishes (x >> k) (t ++ u)
Finishes-seq x k t u hx hk w = rw (hx w, hk (record w { out = w.out ++ t }), append_assoc w.out t u)

module _ {s : Sys} {m : List ℕ} {end : ℕ} {tb : List (Option ℕ)} {i : ℕ} where
  -- The place of an attribute, and its length with its place.
  abbrev pub place : Entry s m end tb i → Option ℕ
  place (absent e) = none
  place (present p e at) = some p

  abbrev pub located : Entry s m end tb i → Option (ℕ × ℕ)
  located (absent e) = none
  located (present p e at) = some (at.len, p)

  pub place-read : (n : Entry s m end tb i) → get_elem? tb i ≡ some (place n)
  place-read (absent e) = e
  place-read (present p e at) = e

-- The text of an attribute that may be missing.
abbrev pub piece : (ℕ → ℕ → List ℕ) → Option (ℕ × ℕ) → List ℕ
piece f none = []
piece f (some (len, p)) = f len p

module _ (s : Sys) (c : Libc) (e : Env) (m : List ℕ) where
  -- The line of an entry: what its message is, the address, the device, the link-layer address, the
  -- flags and the state.
  abbrev pub line_text : (type : ℕ) → Ndmsg → (index : ℕ) → (dst ll : Option (ℕ × ℕ)) → List ℕ
  line_text type r index dst ll =
      kind_text s type
      ++ (piece (dst_text s c e m r) dst
          ++ (dev_text s c e m r index
              ++ (piece (lladdr_text s c e m r) ll
                  ++ (flags_text s r.flags ++ (state_text s r.state ++ codes "\n")))))

-- The filter of a listing: nothing is flushed, and neither a prefix, a device, a master nor the use is
-- asked for.
pub record IsListing (f : Filter) : Type 0 where
  pub no_flush : f.flushb ≡ none
  pub no_prefix : f.pfx.family ≡ 0
  pub no_index : f.index ≡ 0
  pub no_master : f.master ≡ 0
  pub any_use : f.unused_only ≡ 0

-- What is reported of the bytes that are no attribute.
abbrev pub report_notes : Option (ℤ × ℕ) → List Note
report_notes none = []
report_notes (some (len, rta_len)) = deficit len rta_len ∷ []

module _ (s : Sys) (laws : SysLaws s) (c : Libc) (libc : LibcLaws s c) (e : Env) (roomy : IsRoomy e)
    (m : List ℕ) (end : ℕ) (behind : end + s.sizeof_rtattr + 16 ≤ length m) (r : Ndmsg) where
  print_dst-piece :
      {tb : List (Option ℕ)} {i : ℕ} (n : Entry s m end tb i)
      → Prints (print_dst s c e m r (place n)) (piece (dst_text s c e m r) (located n))
  print_dst-piece (absent e) = print_dst-none s laws c libc _ roomy m end behind r
  print_dst-piece (present p e at) = print_dst-Prints s laws c libc _ roomy m end behind r p at

  print_lladdr-piece :
      {tb : List (Option ℕ)} {i : ℕ} (n : Entry s m end tb i)
      → Prints (print_lladdr s c e m r (place n)) (piece (lladdr_text s c e m r) (located n))
  print_lladdr-piece (absent e) = print_lladdr-none s laws c libc _ roomy m end behind r
  print_lladdr-piece (present p e at) =
      print_lladdr-Prints s laws c libc _ roomy m end behind r p at

  pub print_line-text :
      (type : ℕ) (a : Attrs) (w : World) (dst : Entry s m end a.tb s.nda_dst)
      (ll : Entry s m end a.tb s.nda_lladdr) (ci : Entry s m end a.tb s.nda_cacheinfo)
      (probes : Entry s m end a.tb s.nda_probes)
      → print_line s c e m type r a w
        ≡ ok (pos 0) (record w {
          out = w.out ++ line_text s c e m type r w.filter.index (located dst) (located ll);
        })
  unfolding print_line
  print_line-text type a w dst ll ci probes =
      rw (place-read dst, place-read ll, place-read ci, place-read probes)
        (Finishes-seq (emit (kind_text s type)) _ _ _ (λ w. refl)
          (Finishes-seq (print_dst s c e m r (place dst)) _ _ _ (print_dst-piece dst) (
            Finishes-seq (print_dev s c e m r w.filter.index) _ _ _
              (print_dev-Prints s laws c libc e roomy m end behind r w.filter.index)
              (Finishes-seq (print_lladdr s c e m r (place ll)) _ _ _ (print_lladdr-piece ll) (
                Finishes-seq (emit (flags_text s r.flags)) _ _ _ (λ w. refl)
                  (Finishes-seq (print_cacheinfo s c e m r (place ci)) _ [] _
                    (print_cacheinfo-Prints s laws c libc e roomy m end behind r (place ci))
                    (Finishes-seq (print_probes s c e m r (place probes)) _ [] _
                      (print_probes-Prints s laws c libc e roomy m end behind r (place probes))
                      (λ w. refl)))))))
          w)
