-- ===== src/World/Safe.antt =====
-- Runs that make no access outside an array and do not run out of fuel, with what they leave.
use lan_scan.Base.{ℕ, List, ◌≡◌}
use lan_scan.Memory.{Run, done}
use lan_scan.World.{World, Filter, Exec, ok, exits, blocked, Cmd, and_then, lift}

-- Where the run gives a value, `Q` holds of it and the state. The status of an exit is 1.
abbrev pub Safe {ℓ} : {A : Type ℓ} → (A → World → Type 0) → Exec A → Type 0
Safe Q (ok a w) = Q a w
Safe Q (exits n w) = n ≡ 1
Safe Q (blocked w) = Unit
Safe Q Exec.fault = ⊥
Safe Q Exec.out_of_fuel = ⊥

-- The filter and the output still have the property `K`.
abbrev pub Keeps {ℓ} : {A : Type ℓ} → (Filter → List ℕ → Type 0) → A → World → Type 0
Keeps K a w = K w.filter w.out

pub and_then-Safe {ℓ κ} :
    {A : Type ℓ} {B : Type κ} (P : A → World → Type 0) (Q : B → World → Type 0) (x : Exec A)
    (k : A → Cmd B)
    → Safe P x
    → ((a : A) (w : World) → P a w → Safe Q (k a w))
    → Safe Q (and_then x k)
and_then-Safe P Q (ok a w) k h next = next a w h
and_then-Safe P Q (exits n w) k h next = h
and_then-Safe P Q (blocked w) k h next = tt
and_then-Safe P Q Exec.fault k h next = absurd h
and_then-Safe P Q Exec.out_of_fuel k h next = absurd h

pub lift-Safe {ℓ κ} :
    {A : Type ℓ} {B : Type κ} (Q : B → World → Type 0) (r : Run A) (a : A) (w : World)
    (k : A → Cmd B)
    → r ≡ done a
    → Safe Q (k a w)
    → Safe Q (and_then (lift r w) k)
lift-Safe Q r a w k e h = rw e h
