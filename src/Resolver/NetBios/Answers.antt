-- ===== src/Resolver/NetBios/Answers.antt =====
-- `resolve` of NetBIOSResolver.kt throws on no response.
use lan_scan.Base.{
  ℕ, zero, suc, ◌+◌, ◌*◌, ◌<◌, ◌≤◌, ◌≡◌, refl, ap, ◌∙◌, ==→eq, arith, ltb, ◌==◌, false, Bool-cases,
  inl, inr, le-or-lt, lt→ltb, some, List, [], ◌∷◌, ◌++◌, length, length-append, length-take,
  length-replicate, replicate, take, get_elem?-lt, All, All-append,
}
use lan_scan.Resolver.Attempt.{Attempt, value, Names, null, at, received_into, received_length}
use lan_scan.Resolver.NetBios.Fields.{FourNames}
use lan_scan.Resolver.NetBios.Extract.{extract_names-FourNames}
use lan_scan.Resolver.NetBios.{read_response, resolve}

le→ltb : (a b : ℕ) → b ≤ a → ltb a b ≡ false
le→ltb a b h = ground arith

received_into-length : (size : ℕ) (datagram : List ℕ) → length (received_into size datagram) ≡ size
unfolding received_into
received_into-length size datagram =
    length-take size (datagram ++ replicate size 0)
      (omega (arith, length-append datagram (replicate size 0), length-replicate {A = ℕ} size 0))

All-replicate : (P : ℕ → Type 0) (n x : ℕ) → P x → All P (replicate n x)
All-replicate P zero x h = tt
All-replicate P (suc n) x h = (h, All-replicate P n x h)

All-take : (P : ℕ → Type 0) (n : ℕ) (xs : List ℕ) → All P xs → All P (take n xs)
All-take P zero xs h = tt
All-take P (suc n) [] h = tt
All-take P (suc n) (x ∷ xs) h = (h.0, All-take P n xs h.1)

received_into-bytes :
    (size : ℕ) (datagram : List ℕ)
    → All (λ (b : ℕ). b < 256) datagram
    → All (λ (b : ℕ). b < 256) (received_into size datagram)
unfolding received_into
received_into-bytes size datagram small =
    All-take (λ (b : ℕ). b < 256) size (datagram ++ replicate size 0)
      (All-append (λ (b : ℕ). b < 256) datagram (replicate size 0) small
        (All-replicate (λ (b : ℕ). b < 256) size 0 (omega arith)))

at-byte : (response : List ℕ) (i : ℕ) → i < length response → (b : ℕ) × (at response i ≡ value b)
unfolding at
at-byte response i h = let (b, e) = get_elem?-lt response i h in (b, rw (at, e) refl)

module _ (response : List ℕ) (count : ℕ) where
  -- Why a response of `count` bytes gives null: it is too short for its header, it is of another type,
  -- or it is too short for the names that it counts.
  pub data Refused : Type 0 where
    short : count < 57 → Refused
    other_type :
        (kind : ℕ) → 57 ≤ count → at response 47 ≡ value kind → (kind == 33) ≡ false → Refused
    truncated :
        (name_count : ℕ)
        → 57 ≤ count
        → at response 47 ≡ value 33
        → at response 56 ≡ value name_count
        → count < 57 + 18 * name_count
        → Refused

  -- A response with the names that it counts.
  pub record IsWhole : Type 0 where
    pub name_count : ℕ
    pub header : 57 ≤ count
    pub kind : at response 47 ≡ value 33
    pub counted : at response 56 ≡ value name_count
    pub room : 57 + 18 * name_count ≤ count

module _ (decode : List ℕ → List ℕ) where
  pub data Reply (response : List ℕ) (count : ℕ) (x : Attempt Names) : Type 0 where
    nothing : Refused response count → x ≡ value null → Reply response count x
    answered :
        (whole : IsWhole response count)
        → FourNames response decode whole.name_count x
        → Reply response count x

  read_response-Reply :
      (response : List ℕ) (count : ℕ)
      → length response ≡ 1024
      → All (λ (b : ℕ). b < 256) response
      → count ≤ 1024
      → Reply response count (read_response decode response count)
  unfolding read_response
  read_response-Reply response count array bytes small = elim (le-or-lt 57 count) [
    | inr few ↦ rw (lt→ltb count 57 few) (nothing (short few) refl)
    | inl header ↦
        let (kind, ek) = at-byte response 47 (omega (arith, array)) in
        rw (le→ltb count 57 header, ek)
          (elim (Bool-cases (kind == 33)) [
            | inr other ↦ rw other (nothing (other_type kind header ek other) refl)
            | inl nbtstat ↦
                let (name_count, ec) = at-byte response 56 (omega (arith, array)) in
                let is_nbtstat : at response 47 ≡ value 33 =
                  ek ∙ ap (λ (n : ℕ). value n) (==→eq kind 33 nbtstat) in
                rw (nbtstat, ec)
                  (elim (le-or-lt (57 + 18 * name_count) count) [
                    | inr few ↦
                        rw (lt→ltb count (57 + 18 * name_count) few)
                          (nothing (truncated name_count header is_nbtstat ec few) refl)
                    | inl room ↦ rw (le→ltb count (57 + 18 * name_count) room) (
                        answered
                          (record {
                            name_count = name_count;
                            header = header;
                            kind = is_nbtstat;
                            counted = ec;
                            room = room;
                          })
                          (extract_names-FourNames response array bytes decode name_count
                            (omega (arith, room, small))))
                  ])
          ])
  ]

  -- `resolve` gives a value for every datagram of bytes that arrives, without an access outside the
  -- array: null where the response is too short for its header, of another type, or too short for the
  -- names that it counts, and otherwise an array of four: the first name, where there is one, and
  -- behind it, of the other names, the last one whose type is 3 and the first one whose type is 0 with
  -- the group bit in the first byte of its flags and the second byte below 128, and at last the six
  -- bytes behind the names in hexadecimal with dashes between them.
  pub resolve-Reply :
      (datagram : List ℕ)
      → All (λ (b : ℕ). b < 256) datagram
      → Reply
          (received_into 1024 datagram)
          (received_length 1024 datagram)
          (resolve decode (some datagram))
  unfolding resolve
  resolve-Reply datagram small =
      read_response-Reply (received_into 1024 datagram) (received_length 1024 datagram)
        (received_into-length 1024 datagram) (received_into-bytes 1024 datagram small) (omega arith)
