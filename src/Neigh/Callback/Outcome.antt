-- ===== src/Neigh/Callback/Outcome.antt =====
-- Every outcome of `print_neigh` of android/src/main/c/ipneigh.c under the filter of a listing.
use lan_scan.Base.{
  ℕ, ◌+◌, ◌-◌, ◌*◌, ◌≤◌, ◌<◌, ◌≡◌, refl, ap, ◌∙◌, arith, le→leb, ◌==◌, not, ◌&&◌, ◌||◌, Bool, true,
  false, Option, none, some, List, [], ◌∷◌, ◌++◌, length, append-nil, ℤ, pos, negsuc, sub_ℕ,
}
use lan_scan.Libc.{Libc}
use lan_scan.Libc.Laws.{LibcLaws}
use lan_scan.Memory.{done}
use lan_scan.Neigh.Callback.{print_line, flush_or_print, report, attributes}
use lan_scan.Neigh.Callback.Entry.{
  located, place, place-read, line_text, IsListing, report_notes, print_line-text,
}
use lan_scan.Neigh.Line.Prints.{IsRoomy}
use lan_scan.Neigh.Print.{Env, Ndmsg, ndmsg, when, unwanted, dropped_by_prefix, dropped_as_used}
use lan_scan.Netlink.Attr.{Attrs, parse_rtattr}
use lan_scan.Netlink.Attr.Inside.{Entry, parse_rtattr-Entry}
use lan_scan.Netlink.Message.{nlmsg_length, nlmsg_type}
use lan_scan.Sys.{Sys}
use lan_scan.Sys.Laws.{SysLaws}
use lan_scan.World.{World, Filter, Exec, ok, Cmd, not_newneigh, wrong_nlmsg_len}

when-not :
    (k : ℕ) (b : Bool) (x : Cmd (Unit {0})) (w : World)
    → k ≡ 0
    → when (not (k == 0) && b) x w ≡ ok tt w
when-not k b x w h = rw h

module _ (s : Sys) (c : Libc) (e : Env) (m : List ℕ) where
  report_lem :
      (d : Option (ℤ × ℕ)) (w : World)
      → report s c e d w ≡ ok tt (record w { notes = w.notes ++ report_notes d })
  unfolding report
  report_lem none w = rw append-nil
  report_lem (some (len, rta_len)) w = refl

  flush_or_print-none :
      (n len type : ℕ) (r : Ndmsg) (a : Attrs) (o : Option (List ℕ)) (w : World)
      → o ≡ none
      → flush_or_print s c e m n len type r a o w ≡ print_line s c e m type r a w
  unfolding flush_or_print
  flush_or_print-none n len type r a none w h = refl
  flush_or_print-none n len type r a (some b) w h = cc

  dropped_by_prefix-no :
      (f : Filter) (r : Ndmsg) (o : Option ℕ) (w : World)
      → f.pfx.family ≡ 0
      → dropped_by_prefix s f r m o w ≡ ok false w
  unfolding dropped_by_prefix
  dropped_by_prefix-no f r none w h = refl
  dropped_by_prefix-no f r (some p) w h = rw h

  dropped_as_used-no :
      (f : Filter) (o : Option ℕ) (w : World)
      → f.unused_only ≡ 0
      → dropped_as_used s f m o w ≡ ok false w
  unfolding dropped_as_used
  dropped_as_used-no f none w h = refl
  dropped_as_used-no f (some p) w h = rw h

-- The types of messages that are about neighbours.
abbrev pub is_neigh : Sys → ℕ → Bool
is_neigh s type = type == s.rtm_newneigh || (type == s.rtm_delneigh || type == s.rtm_getneigh)

-- The message at `n` of `m`, of length `len`.
module _ (s : Sys) (c : Libc) (e : Env) (m : List ℕ) (n len : ℕ) where
  -- Where the attributes start and end, and how many bytes they have.
  abbrev pub attrs_at : ℕ
  attrs_at = n + nlmsg_length s 0 + s.nlmsg_align s.sizeof_ndmsg

  abbrev pub attrs_len : ℕ
  attrs_len = len - nlmsg_length s s.sizeof_ndmsg

  abbrev pub attrs_end : ℕ
  attrs_end = attrs_at + attrs_len

  -- The line is printed, with the destination and the link-layer address that the parser finds.
  pub record Listed (type : ℕ) (r : Ndmsg) (w : World) (x : Exec ℤ) : Type 0 where
    pub a : Attrs
    pub parsed : parse_rtattr s m s.nda_max attrs_at (pos attrs_len) ≡ done a
    pub dst : Entry s m attrs_end a.tb s.nda_dst
    pub ll : Entry s m attrs_end a.tb s.nda_lladdr
    pub result :
        x
        ≡ ok (pos 0) (record w {
          notes = w.notes ++ report_notes a.deficit;
          out = w.out ++ line_text s c e m type r 0 (located dst) (located ll);
        })

  -- Every outcome: a message about something else is reported and passed over, one that is too short is
  -- reported and ends the dump, an entry that the filter leaves out changes nothing, and any other
  -- is printed.
  pub data Outcome (w : World) (x : Exec ℤ) : Type 0 where
    foreign :
        (type flags : ℕ)
        → nlmsg_type s m n ≡ done type
        → is_neigh s type ≡ false
        → x ≡ ok (pos 0) (record w { notes = w.notes ++ (not_newneigh len type flags ∷ []) })
        → Outcome w x
    short :
        len < nlmsg_length s s.sizeof_ndmsg
        → x
          ≡ ok (negsuc 0) (record w {
            notes = w.notes ++ (wrong_nlmsg_len (sub_ℕ len (nlmsg_length s s.sizeof_ndmsg)) ∷ []);
          })
        → Outcome w x
    left_out :
        (r : Ndmsg)
        → ndmsg s m (n + nlmsg_length s 0) w ≡ ok r w
        → unwanted s w.filter r ≡ true
        → x ≡ ok (pos 0) w
        → Outcome w x
    listed :
        (type : ℕ) (r : Ndmsg)
        → nlmsg_type s m n ≡ done type
        → is_neigh s type ≡ true
        → ndmsg s m (n + nlmsg_length s 0) w ≡ ok r w
        → unwanted s w.filter r ≡ false
        → Listed type r w x
        → Outcome w x

module _ (s : Sys) (laws : SysLaws s) (c : Libc) (libc : LibcLaws s c) (e : Env) (roomy : IsRoomy e)
    (m : List ℕ) (n len : ℕ) (room : n + len + 2 * s.sizeof_rtattr + 16 ≤ length m) where
  attributes-line :
      (type flags : ℕ) (r : Ndmsg) (w : World)
      → IsListing w.filter
      → nlmsg_length s s.sizeof_ndmsg ≤ len
      → (a : Attrs)
      → parse_rtattr s m s.nda_max (attrs_at s c e m n len) (pos (attrs_len s c e m n len)) ≡ done a
      → (dst : Entry s m (attrs_end s c e m n len) a.tb s.nda_dst)
        (ll : Entry s m (attrs_end s c e m n len) a.tb s.nda_lladdr)
        (ci : Entry s m (attrs_end s c e m n len) a.tb s.nda_cacheinfo)
        (probes : Entry s m (attrs_end s c e m n len) a.tb s.nda_probes)
      → attributes s c e m n len type flags r w
        ≡ ok (pos 0) (record w {
          notes = w.notes ++ report_notes a.deficit;
          out = w.out ++ line_text s c e m type r 0 (located dst) (located ll);
        })
  unfolding attributes
  attributes-line type flags r w l body a ea dst ll ci probes =
      let w' = record w { notes = w.notes ++ report_notes a.deficit } in
      rw
        (
          when-not w.filter.master _ _ w l.no_master,
          le→leb (nlmsg_length s s.sizeof_ndmsg) len body,
          ea,
          report_lem s c e m a.deficit w,
          place-read dst,
          dropped_by_prefix-no s c e m w.filter r (place dst) w' l.no_prefix,
          place-read ci,
          dropped_as_used-no s c e m w.filter (place ci) w' l.any_use,
          flush_or_print-none s c e m n len type r a w.filter.flushb w' l.no_flush,
        )
        (print_line-text s laws c libc e roomy m (attrs_end s c e m n len)
            (omega (arith, laws.nlmsghdr_aligned, laws.ndmsg_aligned)) r type a w' dst ll ci probes
          ∙ ap
              (λ i. ok (pos 0) (record w' {
                out = w.out ++ line_text s c e m type r i (located dst) (located ll);
              }))
              l.no_index)

  pub attributes-Listed :
      (type flags : ℕ) (r : Ndmsg) (w : World)
      → IsListing w.filter
      → nlmsg_length s s.sizeof_ndmsg ≤ len
      → Listed s c e m n len type r w (attributes s c e m n len type flags r w)
  attributes-Listed type flags r w l body =
      let (a, ea, entries, behind, table) =
        parse_rtattr-Entry s laws m s.nda_max (attrs_at s c e m n len) (attrs_len s c e m n len)
          (omega (arith, laws.nlmsghdr_aligned, laws.ndmsg_aligned)) in
      let dst = entries s.nda_dst laws.nda_dst_known in
      let ll = entries s.nda_lladdr laws.nda_lladdr_known in
      record {
        a = a;
        parsed = ea;
        dst = dst;
        ll = ll;
        result =
            attributes-line type flags r w l body a ea dst ll
              (entries s.nda_cacheinfo laws.nda_cacheinfo_known)
              (entries s.nda_probes laws.nda_probes_known);
      }
