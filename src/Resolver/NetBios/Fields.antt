-- ===== src/Resolver/NetBios/Fields.antt =====
-- The fields of a NetBIOS response that `extractNames` of NetBIOSResolver.kt reads, by their places.
use lan_scan.Base.{
  ℕ, zero, suc, ◌+◌, ◌*◌, ◌<◌, ◌≤◌, ◌≡◌, refl, ap, ◌∙◌, arith, ◌==◌, le-or-lt, subst, true, false,
  inl, inr, Option, none, some, List, [], ◌∷◌, ◌++◌, length, All, take, drop, get_elem?,
  if◌then◌else◌,
}
use lan_scan.Base.Bits.{all_below, all_below-lt}
use lan_scan.Memory.Writes.{Holds}
use lan_scan.Resolver.Attempt.{Attempt, value, Names, names}
use lan_scan.Resolver.NetBios.{dashed, hex_byte_upper, trim}
use lan_scan.Resolver.NetBios.Flag.{group_bits}
use lan_scan.Text.Codes.{codes, same_text, same_text→eq}
use lan_scan.Text.Hex.{byte_text}

-- Of the places from `lo` up to `hi` with `P`, the one before all others, as text; none where there is none.
pub data Chosen (Before : ℕ → ℕ → Type 0) (P : ℕ → Type 0) (text : ℕ → List ℕ) (lo hi : ℕ)
    : Option (List ℕ) → Type 0 where
  nobody : ((j : ℕ) → lo ≤ j → j < hi → ¬ P j) → Chosen Before P text lo hi none
  chosen :
      (i : ℕ)
      → lo ≤ i
      → i < hi
      → P i
      → ((j : ℕ) → lo ≤ j → j < hi → Before j i → ¬ P j)
      → Chosen Before P text lo hi (some (text i))

abbrev pub Earlier : ℕ → ℕ → Type 0
Earlier j i = j < i

abbrev pub Later : ℕ → ℕ → Type 0
Later j i = i < j

-- Six bytes as a reader knows the address of a device.
abbrev pub address_text : List ℕ → List ℕ
address_text [] = []
address_text (b ∷ []) = byte_text b
address_text (b ∷ next ∷ rest) = byte_text b ++ (codes "-" ++ address_text (next ∷ rest))

module _ (response : List ℕ) where
  -- The byte behind the 15 of the name at `i`.
  abbrev pub IsUser : ℕ → Type 0
  IsUser i = get_elem? response (57 + 18 * i + 15) ≡ some 0x03

  -- A name of a domain with the group bit.
  pub record IsGroup (i : ℕ) : Type 0 where
    pub domain : get_elem? response (57 + 18 * i + 15) ≡ some 0x00
    pub high : ℕ
    pub low : ℕ
    pub first_flag : get_elem? response (57 + 18 * i + 16) ≡ some high
    pub second_flag : get_elem? response (57 + 18 * i + 17) ≡ some low
    pub marked : group_bits high low ≡ true

  abbrev pub name_text : (decode : List ℕ → List ℕ) (i : ℕ) → List ℕ
  name_text decode i = trim (decode (take 15 (drop (57 + 18 * i) response)))

  -- What `extractNames` gives for `name_count` names: the array of the first name, the last one of a
  -- user, the first one of a group, and the text of the six bytes behind the names.
  pub record FourNames (decode : List ℕ → List ℕ) (name_count : ℕ) (x : Attempt Names)
      : Type 0 where
    pub computer : Option (List ℕ)
    pub user : Option (List ℕ)
    pub group : Option (List ℕ)
    pub address : List ℕ
    pub gives : x ≡ value (names computer (user ∷ group ∷ some (address_text address) ∷ []))
    pub is_computer : computer ≡ (if name_count == 0 then none else some (name_text decode 0))
    pub is_user : Chosen Later IsUser (name_text decode) 1 name_count user
    pub is_group : Chosen Earlier IsGroup (name_text decode) 1 name_count group
    pub six : length address ≡ 6
    pub behind : Holds response (57 + 18 * name_count) address

pub some-same : {a b : ℕ} {o : Option ℕ} → o ≡ some a → o ≡ some b → a ≡ b
some-same e f = cc

pub ==-no : (a : ℕ) {b : ℕ} → (a == b) ≡ false → ¬ (a ≡ b)
==-no a e same = ground (arith, e, same)

pub skip_first :
    {P : ℕ → Type 0} {text : ℕ → List ℕ} {lo hi : ℕ} {o : Option (List ℕ)}
    → ¬ P lo
    → Chosen Earlier P text (lo + 1) hi o
    → Chosen Earlier P text lo hi o
skip_first {P} {text} {lo} {hi} not_this (nobody none_there) = nobody (λ j h below.
    elim (le-or-lt (lo + 1) j) [
      | inl later ↦ none_there j later below
      | inr this ↦ subst (λ k. ¬ P k) (omega arith) not_this
    ])
skip_first {P} {text} {lo} {hi} not_this (chosen i up below it earlier) =
    chosen i (omega arith) below it (λ j h b before. elim (le-or-lt (lo + 1) j) [
      | inl later ↦ earlier j later b before
      | inr this ↦ subst (λ k. ¬ P k) (omega arith) not_this
    ])

pub skip_last :
    {P : ℕ → Type 0} {text : ℕ → List ℕ} {lo hi top : ℕ} {o : Option (List ℕ)}
    → ¬ P hi
    → top ≤ hi + 1
    → hi < top
    → Chosen Later P text lo hi o
    → Chosen Later P text lo top o
skip_last {P} {text} {lo} {hi} not_this least most (nobody none_there) = nobody (λ j h below.
    elim (le-or-lt hi j) [
      | inr earlier ↦ none_there j h earlier
      | inl this ↦ subst (λ k. ¬ P k) (omega arith) not_this
    ])
skip_last {P} {text} {lo} {hi} not_this least most (chosen i up below it later) =
    chosen i up (omega arith) it (λ j h b before. elim (le-or-lt hi j) [
      | inr earlier ↦ later j h earlier before
      | inl this ↦ subst (λ k. ¬ P k) (omega arith) not_this
    ])

pub All-at :
    (P : ℕ → Type 0) (xs : List ℕ) (i : ℕ) {x : ℕ} → All P xs → get_elem? xs i ≡ some x → P x
All-at P [] i h e = absurd (cc e)
All-at P (x ∷ xs) zero h e = subst P (some-same refl e) h.0
All-at P (x ∷ xs) (suc i) h e = All-at P xs i h.1 e

same_digits : all_below 256 (λ b. same_text (hex_byte_upper b) (byte_text b)) ≡ true
unfolding byte_text
same_digits = refl

hex_byte_upper-byte_text : (b : ℕ) → b < 256 → hex_byte_upper b ≡ byte_text b
hex_byte_upper-byte_text b h =
    same_text→eq _ _
      (all_below-lt 256 (λ x. same_text (hex_byte_upper x) (byte_text x)) b same_digits h)

pub dashed-address_text :
    (bytes : List ℕ) → All (λ (b : ℕ). b < 256) bytes → dashed bytes ≡ address_text bytes
dashed-address_text [] h = refl
dashed-address_text (b ∷ []) h = hex_byte_upper-byte_text b h.0
dashed-address_text (b ∷ next ∷ rest) h =
    ap (λ (t : List ℕ). t ++ (codes "-" ++ dashed (next ∷ rest))) (hex_byte_upper-byte_text b h.0)
    ∙ ap (λ (t : List ℕ). byte_text b ++ (codes "-" ++ t)) (dashed-address_text (next ∷ rest) h.1)

pub suc_not_zero : (n : ℕ) → (suc n == 0) ≡ false
suc_not_zero n = ground arith

pub of_six :
    (response : List ℕ) (a b c d e f p : ℕ)
    → get_elem? response (p + 0) ≡ some a
    → get_elem? response (p + 1) ≡ some b
    → get_elem? response (p + 2) ≡ some c
    → get_elem? response (p + 3) ≡ some d
    → get_elem? response (p + 4) ≡ some e
    → get_elem? response (p + 5) ≡ some f
    → Holds response p (a ∷ b ∷ c ∷ d ∷ e ∷ f ∷ [])
of_six response a b c d e f p ea eb ec ed ee ef zero h = ea
of_six response a b c d e f p ea eb ec ed ee ef (suc zero) h = eb
of_six response a b c d e f p ea eb ec ed ee ef (suc (suc zero)) h = ec
of_six response a b c d e f p ea eb ec ed ee ef (suc (suc (suc zero))) h = ed
of_six response a b c d e f p ea eb ec ed ee ef (suc (suc (suc (suc zero)))) h = ee
of_six response a b c d e f p ea eb ec ed ee ef (suc (suc (suc (suc (suc zero))))) h = ef
of_six response a b c d e f p ea eb ec ed ee ef (suc (suc (suc (suc (suc (suc i)))))) h =
    absurd (omega arith)
