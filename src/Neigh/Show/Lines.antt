-- ===== src/Neigh/Show/Lines.antt =====
-- The lines that a listing of android/src/main/c/ipneigh.c writes into the pipe.
use lan_scan.Base.{
  ℕ, ◌+◌, ◌≡◌, refl, ap, ◌∙◌, sym, true, false, List, [], ◌∷◌, ◌++◌, append_assoc, append-nil, pos,
  ℤ, subst,
}
use lan_scan.Libc.{Libc}
use lan_scan.Memory.{done}
use lan_scan.Neigh.Callback.Entry.{IsListing, located, line_text}
use lan_scan.Neigh.Callback.Outcome.{
  Outcome, foreign, short, left_out, listed, is_neigh, attrs_at, attrs_len, attrs_end,
}
use lan_scan.Neigh.Print.{Env, Ndmsg, ndmsg, unwanted}
use lan_scan.Neigh.Show.{show_filter, fresh_filter}
use lan_scan.Netlink.Attr.{Attrs, parse_rtattr}
use lan_scan.Netlink.Attr.Inside.{Entry}
use lan_scan.Netlink.Message.{nlmsg_length, nlmsg_type}
use lan_scan.Sys.{Sys}
use lan_scan.World.{World, Filter, ok, Exec}
use lan_scan.World.Safe.{Safe, Keeps}

module _ (s : Sys) (c : Libc) (e : Env) where
  -- An entry that the filter of a listing lets through: a message of length `len` at `n` of a buffer
  -- `m`, what its type and its `struct ndmsg` are, and its attributes as the parser finds them.
  pub record Line : Type 0 where
    pub m : List ℕ
    pub n : ℕ
    pub len : ℕ
    pub type : ℕ
    pub r : Ndmsg
    pub w : World
    pub type_read : nlmsg_type s m n ≡ done type
    pub about : is_neigh s type ≡ true
    pub ndmsg_read : ndmsg s m (n + nlmsg_length s 0) w ≡ ok r w
    pub wanted : unwanted s (show_filter s c e (fresh_filter 0)) r ≡ false
    pub a : Attrs
    pub parsed :
        parse_rtattr s m s.nda_max (attrs_at s c e m n len) (pos (attrs_len s c e m n len)) ≡ done a
    pub dst : Entry s m (attrs_end s c e m n len) a.tb s.nda_dst
    pub ll : Entry s m (attrs_end s c e m n len) a.tb s.nda_lladdr

  -- The line of an entry.
  abbrev pub printed : Line → List ℕ
  printed l = line_text s c e l.m l.type l.r 0 (located l.dst) (located l.ll)

  -- The lines of some entries, one behind another.
  abbrev pub all_printed : List Line → List ℕ
  all_printed [] = []
  all_printed (l ∷ ls) = printed l ++ all_printed ls

  all_printed-snoc :
      (ls : List Line) (l : Line) → all_printed ls ++ printed l ≡ all_printed (ls ++ (l ∷ []))
  all_printed-snoc [] l = sym (append-nil (printed l))
  all_printed-snoc (k ∷ ls) l =
      append_assoc (printed k) (all_printed ls) (printed l)
      ∙ ap (λ (t : List ℕ). printed k ++ t) (all_printed-snoc ls l)

  -- The filter is that of a listing, and behind `start` stand the lines of some entries.
  pub record Printing (start : List ℕ) (f : Filter) (out : List ℕ) : Type 0 where
    pub filter_same : f ≡ show_filter s c e (fresh_filter 0)
    pub lines : List Line
    pub written : out ≡ start ++ all_printed lines

  pub fresh-IsListing : IsListing (show_filter s c e (fresh_filter 0))
  fresh-IsListing = record {
    no_flush = refl;
    no_prefix = refl;
    no_index = refl;
    no_master = refl;
    any_use = refl;
  }

  pub Printing-IsListing : (start out : List ℕ) (f : Filter) → Printing start f out → IsListing f
  Printing-IsListing start out f p =
      subst (λ (g : Filter). IsListing g) (sym p.filter_same) fresh-IsListing

  pub Outcome-Safe :
      (start m : List ℕ) (n len : ℕ) (w : World) (x : Exec ℤ)
      → Printing start w.filter w.out
      → Outcome s c e m n len w x
      → Safe (Keeps (Printing start)) x
  Outcome-Safe start m n len w x p (foreign type flags et other er) = rw er p
  Outcome-Safe start m n len w x p (short few er) = rw er p
  Outcome-Safe start m n len w x p (left_out r en out er) = rw er p
  Outcome-Safe start m n len w x p (listed type r et about en wanted line) =
      let l : Line = record {
        m = m;
        n = n;
        len = len;
        type = type;
        r = r;
        w = w;
        type_read = et;
        about = about;
        ndmsg_read = en;
        wanted = subst (λ (g : Filter). unwanted s g r ≡ false) p.filter_same wanted;
        a = line.a;
        parsed = line.parsed;
        dst = line.dst;
        ll = line.ll;
      } in
      rw (line.result) (record {
        filter_same = p.filter_same;
        lines = p.lines ++ (l ∷ []);
        written =
            ap (λ (t : List ℕ). t ++ printed l) p.written
            ∙ append_assoc start (all_printed p.lines) (printed l)
            ∙ ap (λ (t : List ℕ). start ++ t) (all_printed-snoc p.lines l);
      })
