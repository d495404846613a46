-- ===== src/Resolver/Mdns/Response.antt =====
-- The answers that `resolve` of MDNSResolver.kt understands.
use lan_scan.Base.{
  ℕ, zero, suc, ◌+◌, ◌-◌, ◌<◌, ◌≤◌, ◌≡◌, refl, ap, ◌∙◌, arith, ◌==◌, ==-self, some, List, [], ◌∷◌,
  ◌++◌, append_assoc, length, length-append, take, replicate, All, if◌then◌else◌, le→leb,
}
use lan_scan.Resolver.Attempt.{value, exception, names, at, received_into}
use lan_scan.Resolver.Mdns.{
  write_name, without_last, decode_name, dns_request, reverse_name, request_id, read_response,
  resolve,
}
use lan_scan.Resolver.Mdns.RoundTrip.{
  IsLabel, dotted, DecodesAscii, decode_name-write_name, decode_from-end,
}
use Prim.Native.Nat.{min}

take-front :
    (n : ℕ) (xs ys : List ℕ) → length xs ≤ n → take n (xs ++ ys) ≡ xs ++ take (n - length xs) ys
take-front n [] ys h = ap (λ (k : ℕ). take k ys) (omega arith)
take-front zero (x ∷ xs) ys h = absurd (omega arith)
take-front (suc n) (x ∷ xs) ys h =
    let same : suc n - suc (length xs) ≡ n - length xs = omega arith in
    rw same (ap (λ (t : List ℕ). x ∷ t) (take-front n xs ys (omega arith)))

at-append : (xs ys : List ℕ) (i b : ℕ) → at xs i ≡ value b → at (xs ++ ys) i ≡ value b
unfolding at
at-append [] ys i b h = absurd (cc h)
at-append (x ∷ xs) ys zero b h = h
at-append (x ∷ xs) ys (suc i) b h = at-append xs ys i b h

-- Where the name stands in an answer.
abbrev pub name_at : (request name : List ℕ) (num_queries : ℕ) → ℕ
name_at request name num_queries =
    (if num_queries == 0 then 12 + length name else length request) + 2 + 2 + 2 + 4 + 2

-- The part of an answer in front of the name: it repeats the id of the request, and has the length
-- that its count of questions asks for.
pub record IsFront (request name front : List ℕ) : Type 0 where
  pub num_queries : ℕ
  pub first : ℕ
  pub second : ℕ
  pub id_first : at request 0 ≡ value first
  pub id_second : at request 1 ≡ value second
  pub same_first : at front 0 ≡ value first
  pub same_second : at front 1 ≡ value second
  pub queries : at front 5 ≡ value num_queries
  pub size : length front ≡ name_at request name num_queries

module _ (decode : List ℕ → List ℕ) (laws : DecodesAscii decode) where
  read_response-name :
      (request name front after l : List ℕ) (ls : List (List ℕ)) (count : ℕ)
      → IsFront request name front
      → All IsLabel (l ∷ ls)
      → length front + length (write_name (dotted l ls)) ≤ count
      → read_response decode request
          (front ++ (write_name (dotted l ls) ++ after))
          count
          (length name)
        ≡ value (names (some (dotted l ls)) [])
  unfolding read_response
  read_response-name request name front after l ls count f h inside =
      let behind = write_name (dotted l ls) ++ after in
      let read =
        decode_name-write_name decode laws front after l ls (count - length front) h
          (omega (arith, inside)) in
      rw
        (
          at-append front behind 0 f.first f.same_first,
          at-append front behind 1 f.second f.same_second,
          at-append front behind 5 f.num_queries f.queries,
          f.id_first,
          f.id_second,
          ==-self f.first,
          ← f.size,
          le→leb (length front) count (omega (arith, inside)),
          read,
        )
        refl

  -- The array that holds an answer, and how much of it counts.
  array-front :
      (front answer : List ℕ)
      → length (front ++ answer) ≤ 512
      → (more : List ℕ) × (received_into 512 (front ++ answer) ≡ front ++ (answer ++ more))
  unfolding received_into
  array-front front answer fits =
      let more = take (512 - length (front ++ answer)) (replicate 512 0) in
      (
        more,
        take-front 512 (front ++ answer) (replicate 512 0) fits ∙ append_assoc front answer more,
      )

  -- An answer that repeats the id of the request, with or without the question, and has as its first
  -- record a name as `writeName` writes it, is resolved to that name: an array with it alone. The
  -- answer fits the array of 512 bytes, and the labels of the name have 1 to 127 characters of ASCII.
  pub resolve-name :
      (a b c d : ℕ) (front rest l : List ℕ) (ls : List (List ℕ))
      → IsFront (dns_request (request_id c d) (reverse_name a b c d)) (reverse_name a b c d) front
      → All IsLabel (l ∷ ls)
      → length (front ++ (write_name (dotted l ls) ++ rest)) ≤ 512
      → resolve decode a b c d (some (front ++ (write_name (dotted l ls) ++ rest)))
        ≡ value (names (some (dotted l ls)) [])
  unfolding resolve
  resolve-name a b c d front rest l ls f h fits =
      let written = write_name (dotted l ls) in
      let shown = length (front ++ (written ++ rest)) in
      let whole : min shown 512 ≡ shown = omega (arith, fits) in
      let (more, array) = array-front front (written ++ rest) fits in
      rw (array, whole, append_assoc written rest more)
        (read_response-name (dns_request (request_id c d) (reverse_name a b c d))
          (reverse_name a b c d) front (rest ++ more) l ls shown f h
          (omega (arith, length-append front (written ++ rest), length-append written rest)))

  read_response-nameless :
      (request name front after : List ℕ) (count : ℕ)
      → IsFront request name front
      → length front < count
      → read_response decode request (front ++ (0 ∷ after)) count (length name) ≡ exception
  unfolding read_response decode_name without_last
  read_response-nameless request name front after count f inside =
      rw
        (
          at-append front (0 ∷ after) 0 f.first f.same_first,
          at-append front (0 ∷ after) 1 f.second f.same_second,
          at-append front (0 ∷ after) 5 f.num_queries f.queries,
          f.id_first,
          f.id_second,
          ==-self f.first,
          ← f.size,
          le→leb (length front) count (omega (arith, inside)),
          decode_from-end decode laws (length (front ++ (0 ∷ after))) front after
              (length front + (count - length front)) [] (omega (arith, inside)),
        )
        refl

  -- Where the name of such an answer is the empty one, a zero byte alone, `resolve` throws an exception
  -- that is no IOException: the text that `decodeName` shortens is empty.
  pub resolve-nameless :
      (a b c d : ℕ) (front rest : List ℕ)
      → IsFront (dns_request (request_id c d) (reverse_name a b c d)) (reverse_name a b c d) front
      → length (front ++ (0 ∷ rest)) ≤ 512
      → resolve decode a b c d (some (front ++ (0 ∷ rest))) ≡ exception
  unfolding resolve
  resolve-nameless a b c d front rest f fits =
      let shown = length (front ++ (0 ∷ rest)) in
      let whole : min shown 512 ≡ shown = omega (arith, fits) in
      let (more, array) = array-front front (0 ∷ rest) fits in
      rw (array, whole)
        (read_response-nameless (dns_request (request_id c d) (reverse_name a b c d))
          (reverse_name a b c d) front (rest ++ more) shown f
          (omega (arith, length-append front (0 ∷ rest))))
