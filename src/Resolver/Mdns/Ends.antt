-- ===== src/Resolver/Mdns/Ends.antt =====
-- The loop of `decodeName` in MDNSResolver.kt ends on every response.
use lan_scan.Base.{
  ℕ, zero, suc, ◌+◌, ◌^◌, ◌<◌, ◌≤◌, arith, ltb, ◌==◌, not, ◌&&◌, Bool, true, false, Bool-cases, inl,
  inr, le-or-lt, Option, none, some, List, [], length, get_elem?, if◌then◌else◌, le→leb, lt→leb, ℤ,
  pos, negsuc, sub_ℕ,
}
use lan_scan.Resolver.Attempt.{
  Attempt, value, io_exception, exception, out_of_fuel, ◌>>=◌, names, null, at, part, received_into,
  received_length,
}
use lan_scan.Resolver.Mdns.{
  decode_from, without_last, decode_name, read_response, resolve, dns_request, request_id,
  reverse_name,
}

-- An outcome of the code.
abbrev pub Ends {ℓ} : {A : Type ℓ} → Attempt A → Type 0
Ends (value a) = Unit
Ends io_exception = Unit
Ends exception = Unit
Ends out_of_fuel = ⊥

pub >>=-Ends {ℓ κ} :
    {A : Type ℓ} {B : Type κ} (x : Attempt A) (k : A → Attempt B)
    → Ends x
    → ((a : A) → Ends (k a))
    → Ends (x >>= k)
>>=-Ends (value a) k h next = next a
>>=-Ends io_exception k h next = tt
>>=-Ends exception k h next = tt
>>=-Ends out_of_fuel k h next = absurd h

pub if-Ends {ℓ} :
    {A : Type ℓ} (b : Bool) (x y : Attempt A) → Ends x → Ends y → Ends (if b then x else y)
if-Ends true x y hx hy = hx
if-Ends false x y hx hy = hy

pub at-Ends : (bytes : List ℕ) (i : ℕ) → Ends (at bytes i)
unfolding at
at-Ends bytes i = by_element (get_elem? bytes i)
  where
    by_element : (o : Option ℕ) → Ends {A = ℕ} (elim o [ none ↦ exception | some b ↦ value b ])
    by_element none = tt
    by_element (some b) = tt

-- Decoding goes on where the part lies inside the array.
part-Ends :
    {B : Type 0} (bytes : List ℕ) (i n : ℕ) (k : List ℕ → Attempt B)
    → ((v : List ℕ) → i + n ≤ length bytes → Ends (k v))
    → Ends (part bytes i n >>= k)
unfolding part
part-Ends bytes i n k next = elim (le-or-lt (i + n) (length bytes)) [
  | inl inside ↦ rw (le→leb (i + n) (length bytes) inside) (next _ inside)
  | inr outside ↦ rw (lt→leb (i + n) (length bytes) outside) tt
]

module _ (decode : List ℕ → List ℕ) where
  decode_from-Ends :
      (fuel : ℕ) (bytes : List ℕ) (i end : ℕ) (s : List ℕ)
      → 0 < fuel
      → length bytes < i + fuel
      → Ends (decode_from decode fuel bytes i end s)
  unfolding decode_from
  decode_from-Ends zero bytes i end s some_fuel enough = absurd (omega arith)
  decode_from-Ends (suc fuel) bytes i end s some_fuel enough = elim (Bool-cases (ltb i end)) [
    | inr over ↦ rw over tt
    | inl more ↦ rw more (
        >>=-Ends (at bytes i) _ (at-Ends bytes i) (λ len. elim (Bool-cases (len == 0)) [
          | inl last ↦ rw last tt
          | inr label ↦ rw label (elim (Bool-cases (ltb len (2 ^ 7))) [
            | inr negative ↦ rw negative tt
            | inl short ↦ rw short (
                part-Ends bytes (i + 1) len _ (λ v inside.
                  decode_from-Ends fuel bytes (i + len + 1) end _ (omega arith) (omega arith)))
          ])
        ]))
  ]

  without_last-Ends : (s : List ℕ) → Ends (without_last decode s)
  unfolding without_last
  without_last-Ends s = elim (Bool-cases (length s == 0)) [
    | inl none_left ↦ rw none_left tt
    | inr some_left ↦ rw some_left tt
  ]

  decode_name-Ends :
      (bytes : List ℕ) (offset : ℕ) (n : ℤ) → Ends (decode_name decode bytes offset n)
  unfolding decode_name
  decode_name-Ends bytes offset (negsuc n) = tt
  decode_name-Ends bytes offset (pos n) =
      >>=-Ends (decode_from decode (suc (length bytes)) bytes offset (offset + n) [])
        (without_last decode)
        (decode_from-Ends (suc (length bytes)) bytes offset (offset + n) [] (omega arith)
          (omega arith))
        without_last-Ends

  read_response-Ends :
      (request response : List ℕ) (count name_length : ℕ)
      → Ends (read_response decode request response count name_length)
  unfolding read_response
  read_response-Ends request response count name_length =
      >>=-Ends (at response 0) _ (at-Ends response 0) (λ r0.
        >>=-Ends (at response 1) _ (at-Ends response 1) (λ r1.
          >>=-Ends (at request 0) _ (at-Ends request 0) (λ q0.
            >>=-Ends (at request 1) _ (at-Ends request 1) (λ q1.
              >>=-Ends (at response 5) _ (at-Ends response 5) (λ num_queries.
                let offset =
                  (if num_queries == 0 then 12 + name_length else length request)
                  + 2
                  + 2
                  + 2
                  + 4
                  + 2 in
                if-Ends (not (r0 == q0) && not (r1 == q1)) (value null) _ tt (
                  >>=-Ends (decode_name decode response offset (sub_ℕ count offset))
                    (λ name. value (names (some name) []))
                    (decode_name-Ends response offset (sub_ℕ count offset)) (λ name. tt)))))))

  -- `resolve` ends on every answer, and where none comes: its loop takes a byte of the array at least in
  -- each round, or throws.
  pub resolve-Ends : (a b c d : ℕ) (answer : Option (List ℕ)) → Ends (resolve decode a b c d answer)
  unfolding resolve
  resolve-Ends a b c d none = tt
  resolve-Ends a b c d (some datagram) =
      read_response-Ends (dns_request (request_id c d) (reverse_name a b c d))
        (received_into 512 datagram) (received_length 512 datagram) (length (reverse_name a b c d))
