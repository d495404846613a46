-- ===== src/Resolver/Mdns/Runs.antt =====
-- The theorems about MDNSResolver.kt for a device at 10.0.0.5.
use lan_scan.Base.{ℕ, ◌≤◌, ◌≡◌, refl, arith, some, List, [], ◌∷◌, ◌++◌, length, replicate, pos}
use lan_scan.Resolver.Attempt.{value, names, at}
use lan_scan.Resolver.Mdns.{
  write_from, write_name, decode_name, dns_request, request_id, signed_byte, reverse_name, resolve,
}
use lan_scan.Resolver.Mdns.Ends.{Ends, resolve-Ends}
use lan_scan.Resolver.Mdns.Response.{IsFront, resolve-name}
use lan_scan.Resolver.Mdns.RoundTrip.{IsLabel, dotted, DecodesAscii, decode_name-write_name}
use lan_scan.Text.Codes.{codes}
use lan_scan.Text.Decimal.{decimal, decimal_digits}

abbrev pub latin : List ℕ → List ℕ
latin bytes = bytes

pub latin-DecodesAscii : DecodesAscii latin
latin-DecodesAscii = record { decode_ascii = λ t ascii. refl }

-- An answer without the question, up to its name.
abbrev pub front : List ℕ
front = 0 ∷ 5 ∷ replicate 43 0

pub front-IsFront :
    IsFront (dns_request (request_id 0 5) (reverse_name 10 0 0 5)) (reverse_name 10 0 0 5) front
unfolding at dns_request request_id signed_byte reverse_name write_name write_from decimal
    decimal_digits
front-IsFront = record {
  num_queries = 0;
  first = 0;
  second = 5;
  id_first = refl;
  id_second = refl;
  same_first = refl;
  same_second = refl;
  queries = refl;
  size = refl;
}

nas-IsLabel : IsLabel (codes "nas")
nas-IsLabel = record {
  some_character = omega arith;
  short = omega arith;
  ascii = omega arith;
  no_dots = (refl, (refl, (refl, tt)));
}

local-IsLabel : IsLabel (codes "local")
local-IsLabel = record {
  some_character = omega arith;
  short = omega arith;
  ascii = omega arith;
  no_dots = (refl, (refl, (refl, (refl, (refl, tt)))));
}

written_length : length (write_name (dotted (codes "nas") (codes "local" ∷ []))) ≤ 11
unfolding write_name write_from
written_length = omega arith

decode_name-write_name_example :
    decode_name latin
      (front ++ (write_name (dotted (codes "nas") (codes "local" ∷ [])) ++ replicate 4 9))
      (length front)
      (pos 11)
    ≡ value (dotted (codes "nas") (codes "local" ∷ []))
decode_name-write_name_example =
    decode_name-write_name latin latin-DecodesAscii front (replicate 4 9) (codes "nas")
      (codes "local" ∷ []) 11 (nas-IsLabel, (local-IsLabel, tt)) written_length

answer_length :
    length (front ++ (write_name (dotted (codes "nas") (codes "local" ∷ [])) ++ [])) ≤ 512
unfolding write_name write_from
answer_length = omega arith

resolve-name_example :
    resolve latin 10 0 0 5
      (some (front ++ (write_name (dotted (codes "nas") (codes "local" ∷ [])) ++ [])))
    ≡ value (names (some (dotted (codes "nas") (codes "local" ∷ []))) [])
resolve-name_example =
    resolve-name latin latin-DecodesAscii 10 0 0 5 front [] (codes "nas") (codes "local" ∷ [])
      front-IsFront (nas-IsLabel, (local-IsLabel, tt)) answer_length

resolve-Ends_example : Ends (resolve latin 10 0 0 5 (some (replicate 90 63)))
resolve-Ends_example = resolve-Ends latin 10 0 0 5 (some (replicate 90 63))
