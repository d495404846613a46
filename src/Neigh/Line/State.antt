-- ===== src/Neigh/Line/State.antt =====
-- The state of an entry as text, the PRINT_FLAG lines of android/src/main/c/ipneigh.c.
use lan_scan.Base.{
  ℕ, zero, suc, ◌<◌, ◌≡◌, refl, ap, sym, ◌∙◌, arith, ◌==◌, ==→eq, ==-ne, if◌then◌else◌, Bool, true,
  false, ◌&&◌, ◌||◌, not, Bool-cases, inl, inr, List, [], ◌∷◌, ◌++◌,
}
use lan_scan.Neigh.Line.{print_flag, print_flags, nud_names, state_text}
use lan_scan.Neigh.Print.{has}
use lan_scan.Sys.{Sys}
use lan_scan.Text.Codes.{codes, both, same_text, same_text→eq}
use lan_scan.Text.Words.{IsWord, is_word, is_word_sound}

-- The states of a neighbour are single bits.
pub record NudLaws (s : Sys) : Type 0 where
  pub incomplete_bit : s.nud_incomplete ≡ 0x01
  pub reachable_bit : s.nud_reachable ≡ 0x02
  pub stale_bit : s.nud_stale ≡ 0x04
  pub delay_bit : s.nud_delay ≡ 0x08
  pub probe_bit : s.nud_probe ≡ 0x10
  pub failed_bit : s.nud_failed ≡ 0x20
  pub noarp_bit : s.nud_noarp ≡ 0x40
  pub permanent_bit : s.nud_permanent ≡ 0x80

-- The names of the bits that `state` has.
abbrev pub names_in : List (ℕ × List ℕ) → ℕ → List (List ℕ)
names_in [] state = []
names_in ((mask, name) ∷ rest) state =
    if has state mask then name ∷ names_in rest state else names_in rest state

-- Texts with commas between them.
abbrev pub joined : List (List ℕ) → List ℕ
joined [] = []
joined (name ∷ []) = name
joined (name ∷ other ∷ rest) = name ++ (codes "," ++ joined (other ∷ rest))

abbrev table : List (ℕ × List ℕ)
table =
    (0x01, codes "INCOMPLETE")
    ∷ (0x02, codes "REACHABLE")
    ∷ (0x04, codes "STALE")
    ∷ (0x08, codes "DELAY")
    ∷ (0x10, codes "PROBE")
    ∷ (0x20, codes "FAILED")
    ∷ (0x40, codes "NOARP")
    ∷ (0x80, codes "PERMANENT")
    ∷ []

abbrev all_below : ℕ → (ℕ → Bool) → Bool
all_below zero f = true
all_below (suc n) f = f n && all_below n f

all_below-at : (k : ℕ) (f : ℕ → Bool) (n : ℕ) → all_below k f ≡ true → n < k → f n ≡ true
all_below-at zero f n h small = absurd (omega arith)
all_below-at (suc k) f n h small = elim (Bool-cases (n == k)) [
  | inl e ↦ ap f (==→eq n k e) ∙ (both (f k) (all_below k f) h).0
  | inr ne ↦ all_below-at k f n (both (f k) (all_below k f) h).1 (ground arith)
]

-- Each of the 256 states.
all_states : all_below 256 (λ n. same_text (print_flags table n) (joined (names_in table n))) ≡ true
unfolding print_flags print_flag
all_states = refl

nud_names-table : (s : Sys) → NudLaws s → nud_names s ≡ table
nud_names-table s laws = rw (
  laws.incomplete_bit, laws.reachable_bit, laws.stale_bit, laws.delay_bit, laws.probe_bit,
  laws.failed_bit, laws.noarp_bit, laws.permanent_bit,
)

-- A state other than 0 of the eight bits that the kernel documents is printed as a space and the
-- names of its bits in the order of the table, with commas between them and none behind the last.
pub state_text-joined :
    (s : Sys)
    → NudLaws s
    → (state : ℕ) → 0 < state
    → state < 256
    → state_text s state ≡ codes " " ++ joined (names_in (nud_names s) state)
unfolding state_text
state_text-joined s laws state some_bit small =
    let e = nud_names-table s laws in
    rw (==-ne state 0 (omega arith)) (
      ap (λ t. codes " " ++ t)
        (ap (λ t. print_flags t state) e
          ∙ same_text→eq (print_flags table state) (joined (names_in table state)) (
              all_below-at 256 (λ n. same_text (print_flags table n) (joined (names_in table n)))
                state all_states small)
          ∙ ap (λ t. joined (names_in t state)) (sym e)))

-- The word that a state is printed as, and what it tells of the state.
abbrev told : ℕ → Bool
told n =
    let w = print_flags table n in
    (n == 0)
    || (is_word w
        && (not (same_text w (codes "FAILED")) || (n == 0x20))
        && (same_text w (codes "FAILED") || not (n == 0x20))
        && (not (same_text w (codes "INCOMPLETE")) || (n == 0x01))
        && (same_text w (codes "INCOMPLETE") || not (n == 0x01)))

all_told : all_below 256 told ≡ true
unfolding print_flags print_flag
all_told = refl

-- A state of the eight bits is a space and a word, which is "FAILED" or "INCOMPLETE" exactly where
-- the state is that one bit.
pub record StateWord (s : Sys) (state : ℕ) : Type 0 where
  pub w : List ℕ
  pub text : state_text s state ≡ codes " " ++ w
  pub a_word : IsWord w
  pub failed : same_text w (codes "FAILED") ≡ (state == s.nud_failed)
  pub incomplete : same_text w (codes "INCOMPLETE") ≡ (state == s.nud_incomplete)

told-parts :
    (z w a b c d : Bool)
    → z ≡ false
    → (z || (w && (not a || b) && (a || not b) && (not c || d) && (c || not d))) ≡ true
    → (w ≡ true) × (a ≡ b) × (c ≡ d)
told-parts z w a b c d hz h = ground arith

pub state_text-StateWord :
    (s : Sys) → NudLaws s → (state : ℕ) → 0 < state → state < 256 → StateWord s state
unfolding state_text
state_text-StateWord s laws state some_bit small =
    let shown = print_flags table state in
    let (a_word, failed, incomplete) =
      told-parts (state == 0) (is_word shown) (same_text shown (codes "FAILED")) (state == 0x20)
        (same_text shown (codes "INCOMPLETE")) (state == 0x01) (==-ne state 0 (omega arith))
        (all_below-at 256 told state all_told small) in
    record {
      w = print_flags table state;
      text =
          rw (==-ne state 0 (omega arith))
            (ap (λ t. codes " " ++ print_flags t state) (nud_names-table s laws));
      a_word = is_word_sound _ a_word;
      failed = failed ∙ ap (λ n. state == n) (sym laws.failed_bit);
      incomplete = incomplete ∙ ap (λ n. state == n) (sym laws.incomplete_bit);
    }
