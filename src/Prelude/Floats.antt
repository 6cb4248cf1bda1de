-- ===== src/Prelude/Floats.antt =====
-- What the code does with a `float64`. Go's arithmetic is the machine's, so the type and its
-- operations are parameters; `IsOrdered` is what IEEE 754 says of `<` and `==` away from NaN.
use Prim.Native.Nat.{ℕ, ◌*◌, ◌/◌, ◌+◌, ◌-◌, ◌^◌}
use mathlib.Core.Path.{◌≡◌}
use mathlib.Core.Bool.{Bool, not, ◌||◌}
use native.Mathlib.Omega.{arith}
use brand_pulse.Prelude.Tests.{ltb, ◌==◌}
use brand_pulse.Prelude.Sort.{IsWeakOrder}

pub record Float {ℓ} (R : Type ℓ) : Type ℓ where
  pub of_ℕ : ℕ → R
  -- the literal m / 10 ^ k
  pub decimal : ℕ → ℕ → R
  pub add : R → R → R
  pub sub : R → R → R
  pub mul : R → R → R
  pub div : R → R → R
  pub lt : R → R → Bool
  pub eq : R → R → Bool
  -- float64(int(v)): the fraction is cut off
  pub trunc : R → R

pub record IsOrdered {ℓ} {R : Type ℓ} (f : Float R) : Type ℓ where
  pub lt_weak : IsWeakOrder f.lt
  pub eq_when_level : (a b : R) → f.eq a b ≡ not (f.lt a b || f.lt b a)

-- Numbers in thousandths meet the laws. Differences below 0 are cut off.
abbrev pub Thousandths : Type 0
Thousandths = ℕ

instance abbrev pub thousandths : Float Thousandths
thousandths = record {
  of_ℕ = λ n. n * 1000;
  decimal = λ m k. m * 1000 / 10 ^ k;
  add = λ a b. a + b;
  sub = λ a b. a - b;
  mul = λ a b. a * b / 1000;
  div = λ a b. a * 1000 / b;
  lt = ltb;
  eq = ◌==◌;
  trunc = λ a. a / 1000 * 1000;
}

pub thousandths-IsOrdered : IsOrdered thousandths
thousandths-IsOrdered = record {
  lt_weak = record { asym = λ a b h. ground arith; neg_trans = λ a b c h k. ground arith };
  eq_when_level = λ a b. ground arith;
}
