-- ===== src/Scanner/Listing/Entry.antt =====
-- What `parseAndExtractValidArpFromInputStream` of LanDeviceScanner.kt makes of the line that
-- `print_neigh` of android/src/main/c/ipneigh.c prints for an entry.
use lan_scan.Base.{
  ℕ, zero, suc, replicate, ◌-◌, ◌<◌, ◌≡◌, refl, ap, ◌∙◌, sym, arith, ◌==◌, not, ◌&&◌, ◌||◌, Bool,
  true, false, Option, none, some, List, [], ◌∷◌, ◌++◌, append_assoc, All, if◌then◌else◌,
}
use lan_scan.Libc.{Libc}
use lan_scan.LlMap.{ll_index_to_type}
use lan_scan.LlMap.Names.{name_text}
use lan_scan.Neigh.Address.Shown.{host_text, ll_addr_text}
use lan_scan.Neigh.Callback.Entry.{line_text, located}
use lan_scan.Neigh.Line.{flags_text, kind_text}
use lan_scan.Neigh.Line.Prints.{data_at}
use lan_scan.Neigh.Line.State.{StateWord}
use lan_scan.Neigh.Print.{Env, Ndmsg, has}
use lan_scan.Neigh.Show.Lines.{Line}
use lan_scan.Netlink.Attr.{rta_length}
use lan_scan.Scanner.Host.{Host}
use lan_scan.Scanner.Listing.{Platform, Address, valid, parse_fields, last_of}
use lan_scan.Scanner.Listing.Words.{spaced}
use lan_scan.Sys.{Sys}
use lan_scan.Text.Codes.{codes, same_text}
use lan_scan.Text.Words.{IsWord, is_word_sound}
use mathlib.Core.List.{map}

gap_moves : (k : ℕ) (u : List ℕ) → replicate k 32 ++ (32 ∷ u) ≡ 32 ∷ (replicate k 32 ++ u)
gap_moves zero u = refl
gap_moves (suc k) u = ap (λ (t : List ℕ). 32 ∷ t) (gap_moves k u)

-- Where the brackets of a line stand does not matter.
bare_line :
    (ip name flags rest : List ℕ)
    → (ip ++ codes " ") ++ ((codes "dev " ++ (name ++ codes " ")) ++ ([] ++ (flags ++ rest)))
      ≡ ip ++ (codes " dev " ++ (name ++ (codes " " ++ (flags ++ rest))))
bare_line ip name flags rest = simp append_assoc

full_line :
    (ip name mac flags rest : List ℕ)
    → (ip ++ codes " ")
        ++ ((codes "dev " ++ (name ++ codes " ")) ++ ((codes "lladdr " ++ mac) ++ (flags ++ rest)))
      ≡ ip ++ (codes " dev " ++ (name ++ (codes " lladdr " ++ (mac ++ (flags ++ rest)))))
full_line ip name mac flags rest = simp append_assoc

full_end :
    (ip name rest : List ℕ)
    → (ip ++ (codes " dev " ++ (name ++ (codes " lladdr " ++ rest)))) ++ codes "\n"
      ≡ ip ++ (codes " dev " ++ (name ++ (codes " lladdr " ++ (rest ++ codes "\n"))))
full_end ip name rest = simp append_assoc

-- The words that stand behind the device and the link-layer address: the flags, and the state.
abbrev pub trailer : (router proxy : Bool) → (gap : ℕ) → List ℕ → List (ℕ × List ℕ)
trailer true true gap w = (gap, codes "router") ∷ (0, codes "proxy") ∷ (0, w) ∷ []
trailer true false gap w = (gap, codes "router") ∷ (0, w) ∷ []
trailer false true gap w = (gap, codes "proxy") ∷ (0, w) ∷ []
trailer false false gap w = (gap, w) ∷ []

module _ (s : Sys) (c : Libc) (e : Env) where
  -- The texts of the destination, the device and the link-layer address of an entry.
  module _ (m : List ℕ) (r : Ndmsg) where
    abbrev pub ip_text : ℕ × ℕ → List ℕ
    ip_text (len, p) = host_text s c m (data_at s c e m r p) (len - rta_length s 0) r.family

    abbrev pub mac_text : ℕ × ℕ → List ℕ
    mac_text (len, p) =
        ll_addr_text s c m (data_at s c e m r p) (len - rta_length s 0)
          (ll_index_to_type e.idx_head r.ifindex) 64

    abbrev pub device_text : List ℕ
    device_text = name_text c e.idx_head r.ifindex

  -- What the link-layer address is shown as, where there is one. Without one, an entry is not both
  -- of a router and proxied.
  pub data LinkLayer (m : List ℕ) (r : Ndmsg) : Option (ℕ × ℕ) → Type 0 where
    unresolved : (has r.flags s.ntf_router && has r.flags s.ntf_proxy) ≡ false → LinkLayer m r none
    resolved : (at : ℕ × ℕ) → IsWord (mac_text m r at) → LinkLayer m r (some at)

  -- An entry that is neither deleted nor asked for: about one device, with a destination and with a
  -- state of the eight documented bits, whose texts have no spaces.
  pub record IsOrdinary (l : Line s c e) : Type 0 where
    pub not_deleted : (l.type == s.rtm_delneigh) ≡ false
    pub not_missed : (l.type == s.rtm_getneigh) ≡ false
    pub some_device : (l.r.ifindex == 0) ≡ false
    pub some_state : 0 < l.r.state
    pub known_state : l.r.state < 256
    pub at : ℕ × ℕ
    pub has_dst : located l.dst ≡ some at
    pub ip_word : IsWord (ip_text l.m l.r at)
    pub device_word : IsWord (device_text l.m l.r)
    pub link_layer : LinkLayer l.m l.r (located l.ll)

  -- The words of the line behind the destination.
  abbrev pub words_behind : (m : List ℕ) → Ndmsg → Option (ℕ × ℕ) → List ℕ → List (ℕ × List ℕ)
  words_behind m r none w =
      (0, codes "dev")
      ∷ (0, device_text m r)
      ∷ trailer (has r.flags s.ntf_router) (has r.flags s.ntf_proxy) 1 w
  words_behind m r (some at) w =
      (0, codes "dev")
      ∷ (0, device_text m r)
      ∷ (0, codes "lladdr")
      ∷ (0, mac_text m r at)
      ∷ trailer (has r.flags s.ntf_router) (has r.flags s.ntf_proxy) 0 w

  -- The end of a line as the flags and the state are printed, behind a word and some spaces.
  trailer-text :
      (router proxy : Bool) (k : ℕ) (w v : List ℕ)
      → v
          ++ (replicate k 32
              ++ (((if router then codes " router" else [])
                    ++ (if proxy then codes " proxy" else []))
                  ++ ((codes " " ++ w) ++ codes "\n")))
        ≡ spaced v (trailer router proxy k w) ++ codes "\n"
  trailer-text true true k w v = simp (append_assoc, gap_moves)
  trailer-text true false k w v = simp (append_assoc, gap_moves)
  trailer-text false true k w v = simp (append_assoc, gap_moves)
  trailer-text false false k w v = simp (append_assoc, gap_moves)

  module _ (m : List ℕ) (type : ℕ) (r : Ndmsg) (not_deleted : (type == s.rtm_delneigh) ≡ false)
      (not_missed : (type == s.rtm_getneigh) ≡ false) (some_device : (r.ifindex == 0) ≡ false)
      (sw : StateWord s r.state) (at : ℕ × ℕ) where
    pub line_text-spaced :
        (ll : Option (ℕ × ℕ))
        → line_text s c e m type r 0 (some at) ll
          ≡ spaced (ip_text m r at) (words_behind m r ll (sw.w)) ++ codes "\n"
    unfolding kind_text flags_text
    line_text-spaced none =
        rw (not_deleted, not_missed, some_device, sw.text)
          (bare_line (ip_text m r at) (device_text m r) (flags_text s r.flags)
              ((codes " " ++ sw.w) ++ codes "\n")
            ∙ ap (λ (t : List ℕ). ip_text m r at ++ (codes " dev " ++ t))
                (trailer-text (has r.flags s.ntf_router) (has r.flags s.ntf_proxy) 1 (sw.w)
                  (device_text m r))
            ∙ sym (append_assoc (ip_text m r at) _ (codes "\n")))
    line_text-spaced (some ll) =
        rw (not_deleted, not_missed, some_device, sw.text)
          (full_line (ip_text m r at) (device_text m r) (mac_text m r ll) (flags_text s r.flags)
              ((codes " " ++ sw.w) ++ codes "\n")
            ∙ ap
                (λ (t : List ℕ).
                  ip_text m r at ++ (codes " dev " ++ (device_text m r ++ (codes " lladdr " ++ t))))
                (trailer-text (has r.flags s.ntf_router) (has r.flags s.ntf_proxy) 0 (sw.w)
                  (mac_text m r ll))
            ∙ sym (full_end (ip_text m r at) (device_text m r) _))

-- An address that resolves to one that is neither link-local nor loopback.
abbrev pub is_routed : Option Address → Bool
is_routed none = false
is_routed (some address) = not (address.link_local || address.loopback)

pub valid-routed :
    (o : Option Address) (ip mac w : List ℕ) (a b : Bool)
    → same_text w (codes "FAILED") ≡ a
    → same_text w (codes "INCOMPLETE") ≡ b
    → valid o ip mac w ≡ (
        if is_routed o && not (a || b)
        then some (record { ip = ip; mac = some mac; hostname = none })
        else none)
unfolding valid
valid-routed none ip mac w a b failed incomplete = refl
valid-routed (some address) ip mac w a b failed incomplete =
    rw (failed, incomplete)
      (by_tests address.link_local address.loopback a b
        (some (record { ip = ip; mac = some mac; hostname = none })))
  where
    by_tests :
        (x y a b : Bool) (h : Option Host)
        → (if not x && not y then (if not a && not b then h else none) else none)
          ≡ (if not (x || y) && not (a || b) then h else none)
    by_tests x y a b h = ground arith

module _ (p : Platform) where
  pub parse_fields-few :
      (router proxy : Bool) (ip dev name w : List ℕ)
      → (router && proxy) ≡ false
      → parse_fields p (ip ∷ dev ∷ name ∷ map (λ (q : ℕ × List ℕ). q.1) (trailer router proxy 1 w))
        ≡ none
  unfolding parse_fields
  parse_fields-few true true ip dev name w h = absurd (cc h)
  parse_fields-few true false ip dev name w h = refl
  parse_fields-few false true ip dev name w h = refl
  parse_fields-few false false ip dev name w h = refl

  pub parse_fields-all :
      (router proxy : Bool) (ip dev name ll mac w : List ℕ)
      → parse_fields p
          (ip ∷ dev ∷ name ∷ ll ∷ mac ∷ map (λ (q : ℕ × List ℕ). q.1) (trailer router proxy 0 w))
        ≡ valid (p.by_name ip) ip mac w
  unfolding parse_fields last_of
  parse_fields-all true true ip dev name ll mac w = refl
  parse_fields-all true false ip dev name ll mac w = refl
  parse_fields-all false true ip dev name ll mac w = refl
  parse_fields-all false false ip dev name ll mac w = refl

trailer-words :
    (router proxy : Bool) (k : ℕ) (w : List ℕ)
    → IsWord w
    → All (λ (q : ℕ × List ℕ). IsWord q.1) (trailer router proxy k w)
trailer-words true true k w h =
    (is_word_sound (codes "router") refl, (is_word_sound (codes "proxy") refl, (h, tt)))
trailer-words true false k w h = (is_word_sound (codes "router") refl, (h, tt))
trailer-words false true k w h = (is_word_sound (codes "proxy") refl, (h, tt))
trailer-words false false k w h = (h, tt)

module _ (s : Sys) (c : Libc) (e : Env) (m : List ℕ) (r : Ndmsg) (w : List ℕ) (state : IsWord w)
    (name : IsWord (device_text s c e m r)) where
  pub words_behind-words :
      (o : Option (ℕ × ℕ))
      → LinkLayer s c e m r o
      → All (λ (q : ℕ × List ℕ). IsWord q.1) (words_behind s c e m r o w)
  words_behind-words _ (unresolved few) =
      (is_word_sound (codes "dev") refl, (name, trailer-words _ _ 1 w state))
  words_behind-words _ (resolved ll mac) = (
    is_word_sound (codes "dev") refl,
    (name, (is_word_sound (codes "lladdr") refl, (mac, trailer-words _ _ 0 w state))),
  )
