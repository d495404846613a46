-- ===== src/Memory/Laws.antt =====
-- Reads inside an array, with the bytes that they give.
use lan_scan.Base.{
  zero, suc, take, drop, length-take, le→leb, ℕ, ◌+◌, ◌≤◌, ◌<◌, ◌≡◌, refl, arith, some, List, [],
  ◌∷◌, length, get_elem?, ap, ◌∙◌,
}
use lan_scan.Memory.{done, bytes_at, load8}

-- The byte at a place, and 0 outside of the array.
abbrev pub byte_at : List ℕ → ℕ → ℕ
byte_at [] p = 0
byte_at (b ∷ m) zero = b
byte_at (b ∷ m) (suc p) = byte_at m p

get_elem?-byte_at : (m : List ℕ) (p : ℕ) → p < length m → get_elem? m p ≡ some (byte_at m p)
get_elem?-byte_at [] p h = absurd (omega arith)
get_elem?-byte_at (b ∷ m) zero h = refl
get_elem?-byte_at (b ∷ m) (suc p) h = get_elem?-byte_at m p (omega arith)

pub load8-byte_at : (m : List ℕ) (p : ℕ) → p < length m → load8 m p ≡ done (byte_at m p)
unfolding load8
load8-byte_at m p h = rw (get_elem?-byte_at m p h)

-- The `n` bytes from `p` on, of an array that has them.
abbrev pub slice : List ℕ → (p n : ℕ) → List ℕ
slice m p n = take n (drop p m)

length-drop : (m : List ℕ) (p : ℕ) → p ≤ length m → length (drop p m) + p ≡ length m
length-drop m zero h = omega arith
length-drop [] (suc p) h = absurd (omega arith)
length-drop (b ∷ m) (suc p) h = omega (arith, length-drop m p)

pub length-slice : (m : List ℕ) (p n : ℕ) → p + n ≤ length m → length (slice m p n) ≡ n
length-slice m p n h = length-take n (drop p m) (omega (arith, length-drop m p))

pub bytes_at-slice : (m : List ℕ) (p n : ℕ) → p + n ≤ length m → bytes_at m p n ≡ done (slice m p n)
unfolding bytes_at
bytes_at-slice m p n h = rw (le→leb (p + n) (length m) h)

shift : (p i : ℕ) → suc (p + i) ≡ suc p + i
shift p i = omega arith

get_elem?-drop : (m : List ℕ) (p i : ℕ) → get_elem? (drop p m) i ≡ get_elem? m (p + i)
get_elem?-drop m zero i = ap (get_elem? m) (omega arith)
get_elem?-drop [] (suc p) i = refl
get_elem?-drop (b ∷ m) (suc p) i = get_elem?-drop m p i ∙ ap (get_elem? (b ∷ m)) (shift p i)

some-injective : (a b : ℕ) → some a ≡ some b → a ≡ b
some-injective a b e = cc

take-same :
    (m bytes : List ℕ)
    → ((i : ℕ) → i < length bytes → get_elem? m i ≡ get_elem? bytes i)
    → take (length bytes) m ≡ bytes
take-same m [] same = refl
take-same [] (b ∷ bytes) same = absurd (cc (same 0 (omega arith)))
take-same (a ∷ m) (b ∷ bytes) same =
    let head : a ≡ b = some-injective a b (same 0 (omega arith)) in
    rw (head, take-same m bytes (λ i h. same (suc i) (omega arith)))

-- Bytes that stand somewhere are read there.
pub bytes_at-same :
    (m : List ℕ) (p : ℕ) (bytes : List ℕ)
    → p + length bytes ≤ length m
    → ((i : ℕ) → i < length bytes → get_elem? m (p + i) ≡ get_elem? bytes i)
    → bytes_at m p (length bytes) ≡ done bytes
bytes_at-same m p bytes room same =
    bytes_at-slice m p (length bytes) room
    ∙ ap done (take-same (drop p m) bytes (λ i h. get_elem?-drop m p i ∙ same i h))

get_elem?-take : (m : List ℕ) (n i : ℕ) → i < n → get_elem? (take n m) i ≡ get_elem? m i
get_elem?-take m zero i h = absurd (omega arith)
get_elem?-take [] (suc n) i h = refl
get_elem?-take (b ∷ m) (suc n) zero h = refl
get_elem?-take (b ∷ m) (suc n) (suc i) h = get_elem?-take m n i (omega arith)

pub get_elem?-slice :
    (m : List ℕ) (p n i : ℕ) → i < n → get_elem? (slice m p n) i ≡ get_elem? m (p + i)
get_elem?-slice m p n i h = get_elem?-take (drop p m) n i h ∙ get_elem?-drop m p i
