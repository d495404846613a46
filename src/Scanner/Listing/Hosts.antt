-- ===== src/Scanner/Listing/Hosts.antt =====
-- The hosts that LanDeviceScanner.kt takes from a listing, against the entries of the listing that
-- the native method of android/src/main/c/ipneigh.c printed.
use lan_scan.Base.{
  ℕ, ◌<◌, ◌≡◌, refl, ap, ◌∙◌, arith, ◌==◌, not, ◌&&◌, ◌||◌, false, Option, none, some, List, [],
  ◌∷◌, ◌++◌, append_assoc, All, All-append, if◌then◌else◌, ℤ,
}
use lan_scan.Libc.{Libc}
use lan_scan.Neigh.Callback.Entry.{located, line_text}
use lan_scan.Neigh.Line.State.{NudLaws, StateWord, state_text-StateWord}
use lan_scan.Neigh.Print.{Env, Ndmsg, has}
use lan_scan.Neigh.Show.Ends.{Ended}
use lan_scan.Neigh.Show.Lines.{Line, printed, all_printed}
use lan_scan.Scanner.Host.{Host}
use lan_scan.Scanner.Listing.{Platform, parse_fields, parse_line, parse_listing, read_lines}
use lan_scan.Scanner.Listing.Entry.{
  IsOrdinary, LinkLayer, unresolved, resolved, ip_text, mac_text, device_text, words_behind,
  is_routed, valid-routed, parse_fields-few, parse_fields-all, line_text-spaced, words_behind-words,
}
use lan_scan.Scanner.Listing.Words.{spaced, split-spaced, spaced-IsPrintable, read-line}
use lan_scan.Sys.{Sys}
use lan_scan.Text.Codes.{codes}
use lan_scan.World.{World}
use lan_scan.Text.Words.{IsPrintable}
use mathlib.Core.List.{map, filter_map, filter_map-cons-none, filter_map-cons-some}

-- What is documented of the platform: a text of ASCII characters is its own encoding in UTF-8.
pub record PlatformLaws (p : Platform) : Type 0 where
  pub decode_ascii : (t : List ℕ) → All (λ (c : ℕ). c < 128) t → p.decode t ≡ t

-- A host in front, where there is one.
abbrev pub keep : Option Host → List Host → List Host
keep none hosts = hosts
keep (some h) hosts = h ∷ hosts

filter_map-keep :
    (f : List ℕ → Option Host) (t : List ℕ) (ts : List (List ℕ)) (o : Option Host)
    → f t ≡ o
    → filter_map f (t ∷ ts) ≡ keep o (filter_map f ts)
filter_map-keep f t ts none h = filter_map-cons-none f t ts h
filter_map-keep f t ts (some x) h = filter_map-cons-some f t ts h

printable-ascii : (t : List ℕ) → All IsPrintable t → All (λ (c : ℕ). c < 128) t
printable-ascii [] h = tt
printable-ascii (c ∷ cs) h = (omega (arith, h.0), printable-ascii cs h.1)

module _ (s : Sys) (c : Libc) (e : Env) (p : Platform) where
  -- The host of an entry: one with a link-layer address, whose destination is neither link-local nor
  -- a loopback address, and whose state is neither NUD_FAILED nor NUD_INCOMPLETE.
  abbrev pub host_of : (m : List ℕ) → Ndmsg → (at : ℕ × ℕ) → Option (ℕ × ℕ) → Option Host
  host_of m r at none = none
  host_of m r at (some ll) =
      if is_routed (p.by_name (ip_text s c e m r at))
        && not (r.state == s.nud_failed || r.state == s.nud_incomplete)
      then some (record {
        ip = ip_text s c e m r at;
        mac = some (mac_text s c e m r ll);
        hostname = none;
      })
      else none

  -- Entries of a dump, and their hosts.
  abbrev pub hosts_of : (ls : List (Line s c e)) → All (IsOrdinary s c e) ls → List Host
  hosts_of [] os = []
  hosts_of (l ∷ ls) os = keep (host_of l.m l.r (os.0.at) (located l.ll)) (hosts_of ls os.1)

  parse_words :
      (m : List ℕ) (r : Ndmsg) (sw : StateWord s r.state) (at : ℕ × ℕ) (o : Option (ℕ × ℕ))
      → LinkLayer s c e m r o
      → parse_fields p
          (ip_text s c e m r at ∷ map (λ (q : ℕ × List ℕ). q.1) (words_behind s c e m r o (sw.w)))
        ≡ host_of m r at o
  parse_words m r sw at _ (unresolved few) = parse_fields-few p _ _ _ _ _ (sw.w) few
  parse_words m r sw at _ (resolved ll a_word) =
      parse_fields-all p (has r.flags s.ntf_router) (has r.flags s.ntf_proxy) (ip_text s c e m r at)
        (codes "dev") (device_text s c e m r) (codes "lladdr") (mac_text s c e m r ll) (sw.w)
      ∙ valid-routed (p.by_name (ip_text s c e m r at)) _ _ (sw.w) _ _ (sw.failed) (sw.incomplete)

  -- A line without its end, and what becomes of it.
  record Shown (l : Line s c e) (o : IsOrdinary s c e l) : Type 0 where
    text : List ℕ
    ended : printed s c e l ≡ text ++ codes "\n"
    printable : All IsPrintable text
    parsed : parse_line p text ≡ host_of l.m l.r (o.at) (located l.ll)

  module _ (nud : NudLaws s) where
    shown : (l : Line s c e) (o : IsOrdinary s c e l) → Shown l o
    unfolding parse_line
    shown l o =
        let sw = state_text-StateWord s nud l.r.state o.some_state o.known_state in
        let words =
          words_behind-words s c e l.m l.r (sw.w) sw.a_word o.device_word (located l.ll)
            o.link_layer in
        let behind = words_behind s c e l.m l.r (located l.ll) (sw.w) in
        let ip = ip_text s c e l.m l.r (o.at) in
        record {
          text = spaced ip behind;
          ended =
              ap (λ (d : Option (ℕ × ℕ)). line_text s c e l.m l.type l.r 0 d (located l.ll))
                o.has_dst
              ∙ line_text-spaced s c e l.m l.type l.r o.not_deleted o.not_missed o.some_device sw
                  (o.at) (located l.ll);
          printable = spaced-IsPrintable ip behind o.ip_word words;
          parsed =
              ap (parse_fields p) (split-spaced false ip behind o.ip_word words)
              ∙ parse_words l.m l.r sw (o.at) (located l.ll) o.link_layer;
        }

    all_printed-ascii :
        (ls : List (Line s c e))
        → All (IsOrdinary s c e) ls
        → All (λ (c : ℕ). c < 128) (all_printed s c e ls)
    all_printed-ascii [] os = tt
    all_printed-ascii (l ∷ ls) os =
        let h = shown l os.0 in
        All-append (λ (c : ℕ). c < 128) (printed s c e l) (all_printed s c e ls)
          (rw h.ended (
            All-append (λ (c : ℕ). c < 128) h.text (codes "\n") (printable-ascii h.text h.printable)
              (omega arith, tt)))
          (all_printed-ascii ls os.1)

    all_printed-hosts :
        (ls : List (Line s c e)) (os : All (IsOrdinary s c e) ls)
        → filter_map (parse_line p) (read_lines false (all_printed s c e ls)) ≡ hosts_of ls os
    unfolding read_lines filter_map
    all_printed-hosts [] os = refl
    all_printed-hosts (l ∷ ls) os =
        let h = shown l os.0 in
        ap (λ (t : List ℕ). filter_map (parse_line p) (read_lines false t))
          (ap (λ (t : List ℕ). t ++ all_printed s c e ls) h.ended
            ∙ append_assoc h.text (codes "\n") (all_printed s c e ls))
        ∙ ap (filter_map (parse_line p)) (read-line h.text (all_printed s c e ls) h.printable)
        ∙ filter_map-keep (parse_line p) h.text _ _ h.parsed
        ∙ ap (keep (host_of l.m l.r (os.0.at) (located l.ll))) (all_printed-hosts ls os.1)

    -- The plugin reads out of the pipe what the native method put into it. Where the method has
    -- returned, and each entry that it listed is neither that of an RTM_DELNEIGH nor of an RTM_GETNEIGH,
    -- is about a device, has a destination and a state from 1 to 255, with texts that are printable and
    -- without spaces, and none without a link-layer address is both of a router and proxied, the
    -- hosts are those of the entries in their order: of each entry
    -- with a link-layer address whose destination resolves to an address that is neither link-local
    -- nor loopback and whose state is not exactly NUD_FAILED or NUD_INCOMPLETE, the text of the
    -- destination with the text of the link-layer address. It is relied on that UTF-8 decodes ASCII
    -- characters to themselves and on the values of the states.
    pub parse_listing-hosts :
        (laws : PlatformLaws p) (res : ℤ) (w : World) (done : Ended s c e [] res w)
        → (os : All (IsOrdinary s c e) (done.2.0))
        → parse_listing p res w.out ≡ hosts_of (done.2.0) os
    unfolding parse_listing
    parse_listing-hosts laws res w done os =
        let written : p.decode w.out ≡ all_printed s c e (done.2.0) =
          ap p.decode done.2.1 ∙ laws.decode_ascii _ (all_printed-ascii (done.2.0) os) in
        rw (done.0, written) (all_printed-hosts (done.2.0) os)
