-- ===== src/Resolver/NetBios/Extract.antt =====
-- `extractNames` of NetBIOSResolver.kt gives the fields of a response whose names fit its array.
use lan_scan.Base.{
  ℕ, zero, suc, ◌+◌, ◌-◌, ◌*◌, ◌<◌, ◌≤◌, ◌≡◌, refl, ap, ◌∙◌, ==→eq, arith, ltb, ◌==◌, false,
  Bool-cases, inl, inr, Option, none, some, List, [], ◌∷◌, length, All, get_elem?, get_elem?-lt,
  if◌then◌else◌, bit_and, le→leb,
}
use lan_scan.Memory.Writes.{Holds}
use lan_scan.Resolver.Attempt.{value, at, part}
use lan_scan.Resolver.NetBios.{
  name_byte, name_type, name_flag, name, group_name, user_name, mac_address, computer_name,
  extended, extract_names,
}
use lan_scan.Resolver.NetBios.Fields.{
  Chosen, nobody, chosen, Earlier, Later, address_text, IsUser, IsGroup, name_text, FourNames,
  some-same, ==-no, skip_first, skip_last, All-at, dashed-address_text, suc_not_zero, of_six,
}
use lan_scan.Resolver.NetBios.Flag.{group_bits, flagged-group_bits}

module _ (response : List ℕ) (array : length response ≡ 1024)
    (small : All (λ (b : ℕ). b < 256) response) where
  at-byte :
      (i : ℕ) → i < 1024 → (b : ℕ) × (get_elem? response i ≡ some b) × (at response i ≡ value b)
  unfolding at
  at-byte i h =
      let (b, e) = get_elem?-lt response i (omega (arith, array)) in (b, e, rw (at, e) refl)

  byte-small : (i : ℕ) {b : ℕ} → get_elem? response i ≡ some b → b < 256
  byte-small i e = All-at (λ (b : ℕ). b < 256) response i small e

  not-IsGroup :
      (i a b : ℕ)
      → get_elem? response (57 + 18 * i + 16) ≡ some a
      → get_elem? response (57 + 18 * i + 17) ≡ some b
      → group_bits a b ≡ false
      → ¬ IsGroup response i
  not-IsGroup i a b ea eb single q =
      let first : a ≡ q.high = some-same ea q.first_flag in
      let second : b ≡ q.low = some-same eb q.second_flag in
      ground (arith, first, second, single, q.marked)

  module _ (decode : List ℕ → List ℕ) (name_count : ℕ) (room : 57 + 18 * name_count ≤ 1024) where
    name-text :
        (i : ℕ) → i < name_count → name response decode i ≡ value (name_text response decode i)
    unfolding name part
    name-text i h = rw (le→leb (57 + 18 * i + 15) (length response) (omega (arith, array))) refl

    kind-at :
        (i : ℕ)
        → i < name_count
        → (k : ℕ) × (get_elem? response (57 + 18 * i + 15) ≡ some k)
          × (name_type response i ≡ value k)
    unfolding name_type
    kind-at i h = at-byte (57 + 18 * i + 15) (omega arith)

    -- The bytes of the flags, and the test of the group bit.
    flag-at :
        (i : ℕ)
        → i < name_count
        → (a b flag : ℕ) × (get_elem? response (57 + 18 * i + 16) ≡ some a)
          × (get_elem? response (57 + 18 * i + 17) ≡ some b)
          × (name_flag response i ≡ value flag)
          × (ltb 0 (bit_and flag 128) ≡ group_bits a b)
    unfolding name_flag
    flag-at i h =
        let (a, ea', va) = at-byte (57 + 18 * i + 15 + 1) (omega arith) in
        let (b, eb', vb) = at-byte (57 + 18 * i + 15 + 2) (omega arith) in
        let ea : get_elem? response (57 + 18 * i + 16) ≡ some a =
          ap (get_elem? response) (omega arith) ∙ ea' in
        let eb : get_elem? response (57 + 18 * i + 17) ≡ some b =
          ap (get_elem? response) (omega arith) ∙ eb' in
        (
          a,
          b,
          bit_and (extended response a) (0xFF + b * 0xFF),
          ea,
          eb,
          rw (va, vb) refl,
          flagged-group_bits a b (byte-small (57 + 18 * i + 16) ea)
              (byte-small (57 + 18 * i + 17) eb),
        )

    group_name-Chosen :
        (left i : ℕ)
        → name_count ≤ i + left
        → (0 < left → i + left ≤ name_count)
        → (g : Option (List ℕ)) × (group_name response decode left i ≡ value g)
          × Chosen Earlier (IsGroup response) (name_text response decode) i name_count g
    unfolding group_name
    group_name-Chosen zero i all_of within =
        (none, refl, nobody (λ j h below. absurd (omega arith)))
    group_name-Chosen (suc left) i all_of within =
        let inside : i + suc left ≤ name_count = within (omega arith) in
        let (kind, ek, vk) = kind-at i (omega (arith, inside)) in
        let (a, b, flag, ea, eb, vf, marks) = flag-at i (omega (arith, inside)) in
        let (g, eg, cg) =
          group_name-Chosen left (i + 1) (omega arith) (λ some_left. omega (arith, inside)) in
        rw vk (elim (Bool-cases (kind == 0)) [
          | inr other ↦ rw other (
            g,
            eg,
            skip_first (λ (q : IsGroup response i). ==-no kind other (some-same ek q.domain)) cg,
          )
          | inl domain ↦
              rw (domain, vf, marks)
                (elim (Bool-cases (group_bits a b)) [
                  | inr single ↦ rw single (g, eg, skip_first (not-IsGroup i a b ea eb single) cg)
                  | inl group ↦
                      rw (group, name-text i (omega (arith, inside)))
                        (
                          some (name_text response decode i),
                          refl,
                          chosen i (omega arith) (omega (arith, inside))
                              (record {
                                domain = ek ∙ ap (λ (n : ℕ). some n) (==→eq kind 0 domain);
                                high = a;
                                low = b;
                                first_flag = ea;
                                second_flag = eb;
                                marked = group;
                              })
                              (λ j h b before. absurd (omega arith)),
                        )
                ])
        ])

    user_name-Chosen :
        (i hi : ℕ)
        → hi ≤ i + 1
        → (0 < i → i < hi)
        → hi ≤ name_count
        → (u : Option (List ℕ)) × (user_name response decode i ≡ value u)
          × Chosen Later (IsUser response) (name_text response decode) 1 hi u
    unfolding user_name
    user_name-Chosen zero hi all_of within few =
        (none, refl, nobody (λ j h below. absurd (omega arith)))
    user_name-Chosen (suc i) hi all_of within few =
        let inside : suc i < hi = within (omega arith) in
        let (kind, ek, vk) = kind-at (suc i) (omega (arith, inside)) in
        let (u, eu, cu) =
          user_name-Chosen i (suc i) (omega arith) (λ some_left. omega arith)
            (omega (arith, inside)) in
        rw vk (elim (Bool-cases (kind == 3)) [
          | inr other ↦ rw other (
            u,
            eu,
            skip_last (λ (q : IsUser response (suc i)). ==-no kind other (some-same ek q))
                (omega arith) inside cu,
          )
          | inl messenger ↦
              rw (messenger, name-text (suc i) (omega (arith, inside)))
                (
                  some (name_text response decode (suc i)),
                  refl,
                  chosen (suc i) (omega arith) inside
                      (ek ∙ ap (λ (n : ℕ). some n) (==→eq kind 3 messenger))
                      (λ j h b before. absurd (omega arith)),
                )
        ])

    computer_name-first :
        (n : ℕ)
        → n ≤ name_count
        → computer_name response decode n
          ≡ value (if n == 0 then none else some (name_text response decode 0))
    unfolding computer_name
    computer_name-first zero h = refl
    computer_name-first (suc more) h =
        rw (name-text 0 (omega (arith, h))) (rw (suc_not_zero more) refl)

    mac_address-text :
        (bytes : List ℕ) × (length bytes ≡ 6)
        × Holds response (57 + 18 * name_count) bytes
        × (mac_address response name_count ≡ value (address_text bytes))
    unfolding mac_address name_byte
    mac_address-text =
        let (a, ea, va) = at-byte (57 + 18 * name_count + 0) (omega (arith, room)) in
        let (b, eb, vb) = at-byte (57 + 18 * name_count + 1) (omega (arith, room)) in
        let (c, ec, vc) = at-byte (57 + 18 * name_count + 2) (omega (arith, room)) in
        let (d, ed, vd) = at-byte (57 + 18 * name_count + 3) (omega (arith, room)) in
        let (e, ee, ve) = at-byte (57 + 18 * name_count + 4) (omega (arith, room)) in
        let (f, ef, vf) = at-byte (57 + 18 * name_count + 5) (omega (arith, room)) in
        (
          a ∷ b ∷ c ∷ d ∷ e ∷ f ∷ [],
          refl,
          of_six response a b c d e f (57 + 18 * name_count) ea eb ec ed ee ef,
          rw (va, vb, vc, vd, ve, vf)
              (ap (λ (t : List ℕ). value t)
                (dashed-address_text (a ∷ b ∷ c ∷ d ∷ e ∷ f ∷ []) (
                  byte-small _ ea,
                  (
                    byte-small _ eb,
                    (byte-small _ ec, (byte-small _ ed, (byte-small _ ee, (byte-small _ ef, tt)))),
                  ),
                ))),
        )

    pub extract_names-FourNames :
        FourNames response decode name_count (extract_names response decode name_count)
    unfolding extract_names
    extract_names-FourNames =
        let ec = computer_name-first name_count (omega arith) in
        let (group, eg, is_group) =
          group_name-Chosen (name_count - 1) 1 (omega arith) (λ some_left. omega arith) in
        let (user, eu, is_user) =
          user_name-Chosen (name_count - 1) name_count (omega arith) (λ some_left. omega arith)
            (omega arith) in
        let (bytes, six, behind, em) = mac_address-text in
        record {
          computer = if name_count == 0 then none else some (name_text response decode 0);
          user = user;
          group = group;
          address = bytes;
          gives = rw (ec, eg, eu, em) refl;
          is_computer = refl;
          is_user = is_user;
          is_group = is_group;
          six = six;
          behind = behind;
        }
