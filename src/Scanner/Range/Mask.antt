-- ===== src/Scanner/Range/Mask.antt =====
-- The netmask of `startScanning` in LanDeviceScanner.kt: the upper bits of an address.
use lan_scan.Base.{
  ℕ, zero, suc, ◌+◌, ◌-◌, ◌*◌, ◌/◌, ◌%◌, ◌^◌, ◌<◌, ◌≤◌, ◌≡◌, refl, ap, ◌∙◌, sym, arith, ◌==◌, ==→eq,
  true, bit_and,
}
use lan_scan.Base.Bits.{and_step, up, down, ones, all_below, all_below-lt}
use native.Mathlib.Nat.{pow-suc, mul_comm, mul_assoc, div-div-eq-div-mul}
use Prim.Native.Nat.{min}
use lan_scan.Scanner.Range.{netmask, shr, shl}

half-double : (a : ℕ) → a * 2 / 2 ≡ a
half-double a = omega arith

low-double : (a : ℕ) → a * 2 % 2 ≡ 0
low-double a = omega arith

min-zero : (d : ℕ) → min d 0 ≡ 0
min-zero d = omega arith

and-up : (k a x : ℕ) → bit_and a (up k x) ≡ up k (bit_and (down k a) x)
and-up zero a x = refl
and-up (suc k) a x =
    and_step a (up k x * 2)
    ∙ rw (half-double (up k x), low-double (up k x), min-zero (a % 2), and-up k (a / 2) x)
        (omega arith)

half-next : (a : ℕ) → (a * 2 + 1) / 2 ≡ a
half-next a = omega arith

low-next : (a : ℕ) → (a * 2 + 1) % 2 ≡ 1
low-next a = omega arith

min-one : (d : ℕ) → d < 2 → min d 1 ≡ d
min-one d h = omega arith

and-ones : (m a : ℕ) → a < up m 1 → bit_and a (ones m) ≡ a
and-ones zero zero h = refl
and-ones zero (suc a) h = absurd (omega arith)
and-ones (suc m) a h =
    and_step a (ones m * 2 + 1)
    ∙ rw (half-next (ones m), low-next (ones m), and-ones m (a / 2) (omega arith))
        (omega (arith, min-one (a % 2)))

up-pow : (k x : ℕ) → up k x ≡ x * 2 ^ k
up-pow zero x = omega arith
up-pow (suc k) x =
    ap (λ n. n * 2) (up-pow k x) ∙ mul_assoc x (2 ^ k) 2 ∙ ap (λ n. x * n) (sym (pow-suc 2 k))

down-pow : (k a : ℕ) → down k a ≡ a / 2 ^ k
down-pow zero a = omega arith
down-pow (suc k) a =
    down-pow k (a / 2)
    ∙ div-div-eq-div-mul a 2 (2 ^ k)
    ∙ ap (λ n. a / n) (mul_comm 2 (2 ^ k) ∙ sym (pow-suc 2 k))

down-lt : (k n a : ℕ) → k ≤ n → a < 2 ^ n → down k a < up (n - k) 1
down-lt zero n a h small = let here : n - 0 ≡ n = omega arith in rw here (omega (arith, up-pow n 1))
down-lt (suc k) zero a h small = absurd (omega arith)
down-lt (suc k) (suc n) a h small =
    let here : suc n - suc k ≡ n - k = omega arith in
    rw here (down-lt k n (a / 2) (omega arith) (omega (arith, pow-suc 2 n)))

all_masks : all_below 32 (λ n. netmask (32 - n) == up n (ones (32 - n))) ≡ true
unfolding netmask shr shl
all_masks = refl

netmask-ones : (k : ℕ) → k < 32 → netmask (32 - k) ≡ up k (ones (32 - k))
unfolding netmask
netmask-ones k h =
    ==→eq _ _ (all_below-lt 32 (λ n. netmask (32 - n) == up n (ones (32 - n))) k all_masks h)

pub netmask-subnet :
    (ipv4 k : ℕ) → ipv4 < 2 ^ 32 → k < 32 → bit_and ipv4 (netmask (32 - k)) ≡ ipv4 / 2 ^ k * 2 ^ k
netmask-subnet ipv4 k h small =
    ap (bit_and ipv4) (netmask-ones k small)
    ∙ and-up k ipv4 (ones (32 - k))
    ∙ ap (up k) (and-ones (32 - k) (down k ipv4) (down-lt k 32 ipv4 (omega arith) h))
    ∙ up-pow k (down k ipv4)
    ∙ ap (λ n. n * 2 ^ k) (down-pow k ipv4)
