-- ===== src/Memory/Writes.antt =====
-- Writes inside an array: what they change and what they leave.
use lan_scan.Base.{
  ℕ, zero, suc, ◌+◌, ◌/◌, ◌%◌, ◌^◌, ◌≤◌, ◌<◌, ◌≡◌, ◌⊎◌, inl, inr, refl, ap, ◌∙◌, arith, some, List,
  [], ◌∷◌, length, set, get_elem?, length-set, get_elem?-set_ne, get_elem?-set_self, lt→ltb,
}
use lan_scan.Memory.{done, load8, load16, load32, copy, store16, store32}
use lan_scan.Text.Snprintf.{write_all}

-- `m'` is `m` with `bytes` from `p` on.
pub record Written (m : List ℕ) (p : ℕ) (bytes m' : List ℕ) : Type 0 where
  pub same : length m' ≡ length m
  pub front : (q : ℕ) → q < p → get_elem? m' q ≡ get_elem? m q
  pub back : (q : ℕ) → p + length bytes ≤ q → get_elem? m' q ≡ get_elem? m q
  pub inside : (i : ℕ) → i < length bytes → get_elem? m' (p + i) ≡ get_elem? bytes i

module _ (m : List ℕ) (p b : ℕ) (bytes m' : List ℕ) (room : p < length m)
    (rest : Written (set m p b) (p + 1) bytes m') where
  inside-cons : (i : ℕ) → i < suc (length bytes) → get_elem? m' (p + i) ≡ get_elem? (b ∷ bytes) i
  inside-cons zero h =
      ap (get_elem? m') (omega arith) ∙ rest.front p (omega arith) ∙ get_elem?-set_self m p b room
  inside-cons (suc i) h = ap (get_elem? m') (omega arith) ∙ rest.inside i (omega arith)

  Written-cons : Written m p (b ∷ bytes) m'
  Written-cons = record {
    same = rest.same ∙ length-set m p b;
    front = λ q f. rest.front q (omega arith) ∙ get_elem?-set_ne m p q b (omega arith);
    back = λ q f. rest.back q (omega arith) ∙ get_elem?-set_ne m p q b (omega arith);
    inside = inside-cons;
  }

write_all-Written :
    (m : List ℕ) (p : ℕ) (bytes : List ℕ)
    → p + length bytes ≤ length m
    → (m' : List ℕ) × (write_all m p bytes ≡ some m') × Written m p bytes m'
unfolding write_all
write_all-Written m p [] h = (
  m,
  refl,
  record {
    same = refl;
    front = λ q f. refl;
    back = λ q f. refl;
    inside = λ i f. absurd (omega arith);
  },
)
write_all-Written m p (b ∷ bytes) h =
    let (m', e, rest) =
      write_all-Written (set m p b) (p + 1) bytes (omega (arith, length-set m p b)) in
    (m', rw (lt→ltb p (length m) (omega arith)) e, Written-cons m p b bytes m' (omega arith) rest)

pub copy-done :
    (m : List ℕ) (p : ℕ) (bytes : List ℕ)
    → p + length bytes ≤ length m
    → (m' : List ℕ) × (copy m p bytes ≡ done m') × Written m p bytes m'
unfolding copy
copy-done m p bytes h = let (m', e, written) = write_all-Written m p bytes h in (m', rw e, written)

-- The bytes of a word of 16 or 32 bits.
abbrev pub bytes16 : ℕ → List ℕ
bytes16 v = v % 2 ^ 8 ∷ v / 2 ^ 8 % 2 ^ 8 ∷ []

abbrev pub bytes32 : ℕ → List ℕ
bytes32 v = v % 2 ^ 8 ∷ v / 2 ^ 8 % 2 ^ 8 ∷ v / 2 ^ 16 % 2 ^ 8 ∷ v / 2 ^ 24 % 2 ^ 8 ∷ []

pub store16-done :
    (m : List ℕ) (p v : ℕ)
    → p + 2 ≤ length m
    → (m' : List ℕ) × (store16 m p v ≡ done m') × Written m p (bytes16 v) m'
unfolding store16
store16-done m p v h = copy-done m p (bytes16 v) h

pub store32-done :
    (m : List ℕ) (p v : ℕ)
    → p + 4 ≤ length m
    → (m' : List ℕ) × (store32 m p v ≡ done m') × Written m p (bytes32 v) m'
unfolding store32
store32-done m p v h = copy-done m p (bytes32 v) h

-- Reads of the same bytes agree.
abbrev pub Agree : List ℕ → List ℕ → (q n : ℕ) → Type 0
Agree m m' q n = (x : ℕ) → q ≤ x → x < q + n → get_elem? m' x ≡ get_elem? m x

pub load16-Agree : (m m' : List ℕ) (q : ℕ) → Agree m m' q 2 → load16 m' q ≡ load16 m q
unfolding load16 load8
load16-Agree m m' q same =
    rw (same q (omega arith) (omega arith), same (q + 1) (omega arith) (omega arith))

load32-Agree : (m m' : List ℕ) (q : ℕ) → Agree m m' q 4 → load32 m' q ≡ load32 m q
unfolding load32
load32-Agree m m' q same = rw (
  load16-Agree m m' q (λ x lo hi. same x lo (omega arith)),
  load16-Agree m m' (q + 2) (λ x lo hi. same x (omega arith) (omega arith)),
)

module _ {m : List ℕ} {p : ℕ} {bytes m' : List ℕ} (w : Written m p bytes m') where
  -- The `n` bytes from `q` on lie in front of what was written or behind it.
  abbrev pub Apart : (q n : ℕ) → Type 0
  Apart q n = (q + n ≤ p) ⊎ (p + length bytes ≤ q)

  Apart-Agree : (q n : ℕ) → Apart q n → Agree m m' q n
  Apart-Agree q n (inl before) x lo hi = w.front x (omega arith)
  Apart-Agree q n (inr after) x lo hi = w.back x (omega arith)

  pub load16-Apart : (q : ℕ) → Apart q 2 → load16 m' q ≡ load16 m q
  load16-Apart q apart = load16-Agree m m' q (Apart-Agree q 2 apart)

  pub load32-Apart : (q : ℕ) → Apart q 4 → load32 m' q ≡ load32 m q
  load32-Apart q apart = load32-Agree m m' q (Apart-Agree q 4 apart)

-- The bytes stand in the array from `p` on.
abbrev pub Holds : (m : List ℕ) (p : ℕ) (bytes : List ℕ) → Type 0
Holds m p bytes = (i : ℕ) → i < length bytes → get_elem? m (p + i) ≡ get_elem? bytes i

byte_of :
    (m : List ℕ) (p : ℕ) (bytes : List ℕ) (q i : ℕ)
    → Holds m p bytes
    → q ≡ p + i
    → i < length bytes
    → get_elem? m q ≡ get_elem? bytes i
byte_of m p bytes q i holds e h = rw e (holds i h)

-- A word that stands in the array is read.
pub load16-Holds : (m : List ℕ) (p v : ℕ) → Holds m p (bytes16 v) → load16 m p ≡ done (v % 2 ^ 16)
unfolding load16 load8
load16-Holds m p v holds =
    rw
      (
        byte_of m p (bytes16 v) p 0 holds (omega arith) (omega arith),
        byte_of m p (bytes16 v) (p + 1) 1 holds refl (omega arith),
      )
      (ap done (omega arith))

pub load32-Holds : (m : List ℕ) (p v : ℕ) → Holds m p (bytes32 v) → load32 m p ≡ done (v % 2 ^ 32)
unfolding load32 load16 load8
load32-Holds m p v holds =
    rw
      (
        byte_of m p (bytes32 v) p 0 holds (omega arith) (omega arith),
        byte_of m p (bytes32 v) (p + 1) 1 holds refl (omega arith),
        byte_of m p (bytes32 v) (p + 2) 2 holds refl (omega arith),
        byte_of m p (bytes32 v) (p + 2 + 1) 3 holds (omega arith) (omega arith),
      )
      (ap done (omega arith))

-- A word that was written is read back.
pub load16-Written :
    (m : List ℕ) (p v : ℕ) (m' : List ℕ)
    → Written m p (bytes16 v) m'
    → load16 m' p ≡ done (v % 2 ^ 16)
load16-Written m p v m' w = load16-Holds m' p v w.inside

pub load32-Written :
    (m : List ℕ) (p v : ℕ) (m' : List ℕ)
    → Written m p (bytes32 v) m'
    → load32 m' p ≡ done (v % 2 ^ 32)
load32-Written m p v m' w = load32-Holds m' p v w.inside
