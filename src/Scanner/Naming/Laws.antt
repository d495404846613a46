-- ===== src/Scanner/Naming/Laws.antt =====
-- Which name a host gets in LanDeviceScanner.kt.
use lan_scan.Base.{
  ℕ, ◌-◌, ◌<◌, ◌≤◌, ◌≡◌, refl, ap, ◌∙◌, arith, ltb, leb, ==-ne, leb→le, Bool, true, false,
  Bool-cases, inl, inr, Option, none, some, List, [], ◌∷◌, ◌++◌, length, take, if◌then◌else◌,
}
use lan_scan.Resolver.Attempt.{
  Attempt, value, io_exception, exception, out_of_fuel, Names, null, names,
}
use lan_scan.Resolver.Mdns.{dns_request, request_id, reverse_name, resolve}
use lan_scan.Resolver.Mdns.Response.{IsFront, resolve-nameless}
use lan_scan.Resolver.Mdns.RoundTrip.{DecodesAscii}
use lan_scan.Scanner.Host.{Host, ends_with_local, hostname_field, set_hostname}
use lan_scan.Text.Codes.{both}
use lan_scan.Scanner.Naming.{
  Answers, Named, settled, thrown, assign, take_name, resolve_host_name, caught, ask_netbios,
  process_host,
}

-- A name without the ".local" at its end.
abbrev pub short_name : List ℕ → List ℕ
short_name name = if ends_with_local name then take (length name - 6) name else name

-- What a resolver's answer comes to: a name that is not blank, no name, or an exception that is no
-- IOException.
pub data Verdict : Type 0 where
  gives : List ℕ → Verdict
  nothing : Verdict
  breaks : Verdict

abbrev pub verdict : (is_blank : List ℕ → Bool) → Option (Attempt Names) → Verdict
verdict is_blank none = breaks
verdict is_blank (some io_exception) = nothing
verdict is_blank (some exception) = breaks
verdict is_blank (some out_of_fuel) = breaks
verdict is_blank (some (value null)) = nothing
verdict is_blank (some (value (names none rest))) = nothing
verdict is_blank (some (value (names (some name) rest))) =
    if is_blank name then nothing else gives name

-- The name that is taken: the first that a resolver gives, where the second is asked only if the
-- first has none, and else the canonical one.
abbrev pub second_choice : (canonical : List ℕ) → Verdict → List ℕ
second_choice canonical (gives name) = name
second_choice canonical nothing = canonical
second_choice canonical breaks = canonical

abbrev pub choice : (canonical : List ℕ) → (mdns netbios : Verdict) → List ℕ
choice canonical (gives name) netbios = name
choice canonical nothing netbios = second_choice canonical netbios
choice canonical breaks netbios = canonical

-- Setting a name that is not empty.
ends_with_local-long : (name : List ℕ) → ends_with_local name ≡ true → 6 ≤ length name
unfolding ends_with_local
ends_with_local-long name h = leb→le 6 (length name) (both (leb 6 (length name)) _ h).0

ge→ltb : (a b : ℕ) → b ≤ a → ltb a b ≡ false
ge→ltb a b h = ground arith

hostname_field-short :
    (name : List ℕ) → 0 < length name → hostname_field name ≡ some (short_name name)
unfolding hostname_field
hostname_field-short name h = elim (Bool-cases (ends_with_local name)) [
  | inr other ↦ rw (==-ne (length name) 0 (omega (arith, h)), other) refl
  | inl local ↦
      rw
        (
          ==-ne (length name) 0 (omega (arith, h)),
          local,
          ge→ltb (length name) 6 (ends_with_local-long name local),
        )
        refl
]

-- The host with a name that is not empty.
abbrev pub with_name : Host → List ℕ → Host
with_name host name = record host { hostname = some (short_name name) }

set_hostname-short :
    (host : Host) (name : List ℕ)
    → 0 < length name
    → set_hostname host name ≡ some (with_name host name)
unfolding set_hostname
set_hostname-short host name h = rw (hostname_field-short name h, set_hostname) refl

assign-short :
    (host : Host) (name : List ℕ)
    → 0 < length name
    → assign host name ≡ settled (with_name host name) true
unfolding assign
assign-short host name h = rw (set_hostname-short host name h, assign) refl

-- A text that is not blank is not empty.
not_blank :
    (is_blank : List ℕ → Bool) (name : List ℕ)
    → is_blank [] ≡ true
    → is_blank name ≡ false
    → 0 < length name
not_blank is_blank [] blank h = absurd (cc)
not_blank is_blank (c ∷ cs) blank h = omega arith

abbrev comes_to : Host → Verdict → Named
comes_to host (gives name) = settled (with_name host name) true
comes_to host nothing = settled host false
comes_to host breaks = thrown host

module _ (a : Answers) (known : a.known ≡ true) (blank : a.is_blank [] ≡ true) where
  -- What `resolveHostName` comes to.
  resolve_host_name-verdict :
      (host : Host) (o : Option (Attempt Names))
      → resolve_host_name a host o ≡ comes_to host (verdict a.is_blank o)
  unfolding resolve_host_name take_name
  resolve_host_name-verdict host none = refl
  resolve_host_name-verdict host (some io_exception) = rw known refl
  resolve_host_name-verdict host (some exception) = rw known refl
  resolve_host_name-verdict host (some out_of_fuel) = rw known refl
  resolve_host_name-verdict host (some (value null)) = rw known refl
  resolve_host_name-verdict host (some (value (names none rest))) = rw known refl
  resolve_host_name-verdict host (some (value (names (some name) rest))) =
      elim (Bool-cases (a.is_blank name)) [
        | inl only_spaces ↦ rw (known, only_spaces) refl
        | inr good ↦
            rw (known, good, assign-short host name (not_blank a.is_blank name blank good)) refl
      ]

  ask_netbios-choice :
      (host : Host) (v w : Verdict)
      → verdict a.is_blank a.netbios ≡ w
      → ask_netbios a (comes_to (with_name host a.canonical) v)
        ≡ with_name host (choice a.canonical v w)
  unfolding ask_netbios
  ask_netbios-choice host (gives name) w h = refl
  ask_netbios-choice host breaks w h = refl
  ask_netbios-choice host nothing w h =
      ap caught (
        resolve_host_name-verdict (with_name host a.canonical) a.netbios
        ∙ ap (comes_to (with_name host a.canonical)) h)
      ∙ by_second w
    where
      by_second :
          (w : Verdict)
          → caught (comes_to (with_name host a.canonical) w)
            ≡ with_name host (second_choice a.canonical w)
      by_second (gives name) = refl
      by_second nothing = refl
      by_second breaks = refl

  -- `processHost` returns the host with its address and its MAC address as they were and one name: the
  -- mDNS resolver's if that gives a name that is not blank, and if it gives none the NetBIOS resolver's
  -- if that gives such a name, and else the canonical one, each without ".local" at its end. An exception
  -- that is no IOException, and a resolver that cannot be made, leave the canonical name, and if the first
  -- resolver ends so the second is not asked. It is relied on that the address is known, that the
  -- canonical name is not empty and that the empty text is blank.
  pub process_host-choice :
      (host : Host)
      → 0 < length a.canonical
      → process_host a host
        ≡ with_name host
            (choice a.canonical (verdict a.is_blank a.mdns) (verdict a.is_blank a.netbios))
  unfolding process_host
  process_host-choice host some_name =
      rw
        (
          known,
          set_hostname-short host a.canonical some_name,
          resolve_host_name-verdict (with_name host a.canonical) a.mdns,
        )
        (ask_netbios-choice host (verdict a.is_blank a.mdns) (verdict a.is_blank a.netbios) refl)

  -- A device that answers mDNS with an empty name keeps its canonical name, whatever NetBIOS would tell.
  pub process_host-nameless :
      (decode : List ℕ → List ℕ) (laws : DecodesAscii decode) (i j k l : ℕ) (front rest : List ℕ)
      → IsFront (dns_request (request_id k l) (reverse_name i j k l)) (reverse_name i j k l) front
      → length (front ++ (0 ∷ rest)) ≤ 512
      → a.mdns ≡ some (resolve decode i j k l (some (front ++ (0 ∷ rest))))
      → (host : Host) → 0 < length a.canonical
      → process_host a host ≡ with_name host a.canonical
  process_host-nameless decode laws i j k l front rest f fits asked host some_name =
      process_host-choice host some_name
      ∙ ap
          (λ (o : Option (Attempt Names)).
            with_name host
              (choice a.canonical (verdict a.is_blank o) (verdict a.is_blank a.netbios)))
          (asked
            ∙ ap (λ (x : Attempt Names). some x)
                (resolve-nameless decode laws i j k l front rest f fits))
