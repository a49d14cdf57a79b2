-- ===== src/Base/Bits.antt =====
-- `|` of disjoint fields and `&` with a mask of low bits, as arithmetic, at every width.
use Prim.Native.Nat.{
  ℕ, zero, suc, ◌+◌, ◌-◌, ◌*◌, ◌/◌, ◌%◌, ◌^◌, ◌≤◌, ◌<◌, min, max, bit_and, bit_or, digits,
  bit_and-bitwise, bit_or-bitwise,
}
use mathlib.Core.Path.{◌≡◌, refl, ap, ◌∙◌}
use native.Mathlib.Omega.{arith}
use native.Mathlib.Nat.{pow-suc, one-le-pow, div-add-mod, mod-lt}

-- The digit recursion does not depend on its fuel, once that is at least the first argument.
module _ (z : ℕ → ℕ) (f : ℕ → ℕ → ℕ) where
  spare_fuel : (n m a b : ℕ) → a ≤ n → a ≤ m → digits z f n a b ≡ digits z f m a b
  spare_fuel zero zero zero b p q = refl
  spare_fuel zero (suc m) zero b p q = refl
  spare_fuel (suc n) zero zero b p q = refl
  spare_fuel (suc n) (suc m) zero b p q = refl
  spare_fuel zero m (suc a) b p q = absurd (omega arith)
  spare_fuel (suc n) zero (suc a) b p q = absurd (omega arith)
  spare_fuel (suc n) (suc m) (suc a) b p q =
      let half = suc a / 2 in
      ap (λ (t : ℕ). t * 2 + f (suc a % 2) (b % 2))
        (spare_fuel n m half (b / 2) (omega arith) (omega arith))

or_step : (a b : ℕ) → bit_or a b ≡ bit_or (a / 2) (b / 2) * 2 + max (a % 2) (b % 2)
or_step zero b = simp bit_or-bitwise (omega arith)
or_step (suc a) b =
    let half = suc a / 2 in
    simp bit_or-bitwise
      (omega (arith, spare_fuel (λ y. y) max a half half (b / 2) (omega arith) (omega arith)))

and_step : (a b : ℕ) → bit_and a b ≡ bit_and (a / 2) (b / 2) * 2 + min (a % 2) (b % 2)
and_step zero b = simp bit_and-bitwise (omega arith)
and_step (suc a) b =
    let half = suc a / 2 in
    simp bit_and-bitwise
      (omega (arith, spare_fuel (λ y. 0) min a half half (b / 2) (omega arith) (omega arith)))

or_nothing : (n a : ℕ) → a ≤ n → bit_or a 0 ≡ a
or_nothing n zero h = refl
or_nothing zero (suc a) h = absurd (omega arith)
or_nothing (suc n) (suc a) h =
    omega (arith, or_step (suc a) 0, or_nothing n (suc a / 2) (omega arith))

and_nothing : (n a : ℕ) → a ≤ n → bit_and a 0 ≡ 0
and_nothing n zero h = refl
and_nothing zero (suc a) h = absurd (omega arith)
and_nothing (suc n) (suc a) h =
    omega (arith, and_step (suc a) 0, and_nothing n (suc a / 2) (omega arith))

double_field : (q k : ℕ) → q * 2 ^ suc k ≡ 2 * (q * 2 ^ k)
double_field q k = omega (arith, ap (λ (t : ℕ). q * t) (pow-suc 2 k))

-- `q << k | r` is a sum where `r` has at most `k` bits.
pub bit_or-field : (k q r : ℕ) → r < 2 ^ k → bit_or (q * 2 ^ k) r ≡ q * 2 ^ k + r
bit_or-field zero q r h = ground (arith, or_nothing q q)
bit_or-field (suc k) q r h =
    ground
      (arith, or_step (q * 2 ^ suc k) r, double_field q k, bit_or-field k q (r / 2) (omega arith))

mod_unique : (m q r : ℕ) → r < m → (m * q + r) % m ≡ r
mod_unique m q r h = grind arith

mod_double : (a p : ℕ) → 0 < p → a % (2 * p) ≡ a / 2 % p * 2 + a % 2
mod_double a p h =
    let q = a / 2 / p in
    let r = a / 2 % p * 2 + a % 2 in
    let e : a ≡ 2 * p * q + r = omega (arith, div-add-mod (a / 2) p) in
    let small : r < 2 * p = omega (arith, mod-lt (a / 2) h) in
    ap (λ (t : ℕ). t % (2 * p)) e ∙ mod_unique (2 * p) q r small

-- `a & (2 ^ k - 1)` is the remainder by `2 ^ k`.
pub bit_and-mask : (k a : ℕ) → bit_and a (2 ^ k - 1) ≡ a % 2 ^ k
bit_and-mask zero a = omega (arith, and_nothing a a)
bit_and-mask (suc k) a = ground (
  arith,
  and_step a (2 ^ suc k - 1),
  pow-suc 2 k,
  one-le-pow k 2,
  mod_double a (2 ^ k),
  bit_and-mask k (a / 2),
)
