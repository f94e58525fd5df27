-- ===== src/Common/Float.antt =====
-- The `float64` values of the program behind an interface: the operations that the code uses, and
-- of `<` the two laws that IEEE 754 gives for all values, NaN among them.
use mathlib.Core.Path.{◌≡◌}
use mathlib.Core.Bool.{Bool, true, false}
use Prim.Native.Nat.{ℕ, zero, ◌+◌, ◌*◌, ◌/◌}
use native.Mathlib.Omega.{arith}
use balance_x.Common.Int.{ℤ, pos, negsuc, ◌+ℤ◌, ltb_ℤ}

pub record Float64 (F : Type 0) : Type 0 where
  pub of_int : ℤ → F
  -- `thousandths n` is the literal n / 1000.
  pub thousandths : ℕ → F
  pub add : F → F → F
  pub mul : F → F → F
  pub quot : F → F → F
  pub lt : F → F → Bool
  -- `x == 0`.
  pub is_zero : F → Bool
  pub lt_irrefl : (a : F) → lt a a ≡ false
  pub lt_trans : (a b c : F) → lt a b ≡ true → lt b c ≡ true → lt a c ≡ true

module _ {F : Type 0} ⦃fl : Float64 F⦄ where
  abbrev pub float_zero : F
  float_zero = fl.of_int (pos 0)

  abbrev pub lt_float : F → F → Bool
  lt_float = fl.lt

-- Fixed-point numbers with four decimals, to run the model.
abbrev pub Fixed : Type 0
Fixed = ℤ

abbrev scale : ℕ
scale = 10000

fixed_mul : Fixed → Fixed → Fixed
fixed_mul (pos a) (pos b) = pos (a * b / scale)
fixed_mul _ _ = pos 0

fixed_quot : Fixed → Fixed → Fixed
fixed_quot (pos a) (pos b) = pos (a * scale / b)
fixed_quot _ _ = pos 0

fixed_of_int : ℤ → Fixed
fixed_of_int (pos a) = pos (a * scale)
fixed_of_int (negsuc a) = negsuc (a * scale + 9999)

abbrev is_zero_fixed : Fixed → Bool
is_zero_fixed (pos zero) = true
is_zero_fixed _ = false

fixed-lt_irrefl : (a : Fixed) → ltb_ℤ a a ≡ false
fixed-lt_irrefl a = ground arith

fixed-lt_trans : (a b c : Fixed) → ltb_ℤ a b ≡ true → ltb_ℤ b c ≡ true → ltb_ℤ a c ≡ true
fixed-lt_trans a b c h k = ground arith

unfoldable pub fixed : Float64 Fixed
unfolding fixed_mul fixed_quot fixed_of_int fixed-lt_irrefl fixed-lt_trans
fixed = record {
  of_int = fixed_of_int;
  thousandths = λ n. pos (n * 10);
  add = ◌+ℤ◌;
  mul = fixed_mul;
  quot = fixed_quot;
  lt = ltb_ℤ;
  is_zero = is_zero_fixed;
  lt_irrefl = fixed-lt_irrefl;
  lt_trans = fixed-lt_trans;
}
