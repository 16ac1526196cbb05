-- ===== src/Examples/Fixed.antt =====
-- Numbers of fixed precision that meet the laws asked of a float: a count of 2 ^ -64ths, which
-- stops at zero. The tests compute with them.
use aero_risk_ai.Base.{ℕ, true, ◌+◌, ◌-◌, ◌*◌, ◌/◌, ◌%◌, ◌≤◌, ◌<◌, refl, sym, arith, ltb, leb, ◌==◌}
use aero_risk_ai.Base.Int.{pos, pos_part}
use aero_risk_ai.Base.Outcome.{ok, ok-injective}
use aero_risk_ai.Base.Float.{Float, FloatLaws}

abbrev pub one : ℕ
one = 18_446_744_073_709_551_616

pub data Fixed : Type 0 where
  units : ℕ → Fixed

abbrev pub count_of : Fixed → ℕ
count_of (units n) = n

instance abbrev pub fixed_float : Float Fixed
fixed_float = record {
  lit = λ a b. units (a * one / b);
  of_int = λ z. units (pos_part z * one);
  is_finite = λ x. true;
  lt = λ x y. ltb (count_of x) (count_of y);
  le = λ x y. leb (count_of x) (count_of y);
  eq = λ x y. count_of x == count_of y;
  add = λ x y. units (count_of x + count_of y);
  sub = λ x y. units (count_of x - count_of y);
  mul = λ x y. units (count_of x * count_of y / one);
  div = λ x y. units (count_of x * one / count_of y);
  div_int = λ a b. units (pos_part a * one / pos_part b);
  mod_f = λ x y. units (count_of x % count_of y);
  trunc = λ x. ok (pos (count_of x / one));
  round = λ x n. x;
  sqrt = λ x. x;
}

le-div : (lo v n : ℕ) → 0 < n → lo * n ≤ v → lo ≤ v / n
le-div lo v n p h = grind arith

div-le : (hi v n : ℕ) → 0 < n → v ≤ hi * n → v / n ≤ hi
div-le hi v n p h = grind arith

pub fixed_laws : FloatLaws Fixed
fixed_laws = record {
  lt_le = λ x y h. ground arith;
  number_of_le = λ x y h. ground arith;
  le_trans = λ x y z h k. ground arith;
  lt_le_trans = λ x y z h k. ground arith;
  le_of_not_lt = λ x y nx ny h. ground arith;
  lt_not_le = λ x y h. ground arith;
  lt_ne = λ x y h. ground arith;
  lit_le = λ a b p h. ground (arith, div-le one (a * one) b p (omega arith));
  lit_tenths = λ a b h. ground arith;
  lit_tenths_lt = λ a b h k. ground arith;
  lit_nonneg = λ a b p. ground arith;
  one_pos = ground arith;
  int_pos = λ n. ground arith;
  lt_finite = λ x y h k. refl;
  quotient_finite = λ a b h k. refl;
  int_number = λ a b h. ground arith;
  int_nonneg = λ a b p. ground arith;
  int_le_one = λ a b p h. ground (arith, div-le one (a * one) b p (omega arith));
  int_positive = λ a b pa pb lt. ground (arith, le-div 1 (a * one) b pb (omega arith));
  zero_int = refl;
  ratio_unit = λ a b p h k.
      ground (arith, div-le one (a * one * one) (b * one / 1) (omega arith) (omega arith));
  day_hour = λ x z e.
      ((count_of x % (86400 * one)) * one / (3600 * one) / one, sym (ok-injective e), omega arith);
  div_ge_one = λ x y p h.
      ground (arith, le-div one (count_of x * one) (count_of y) (ground arith) (ground arith));
  div_nonneg = λ x y f p h. ground arith;
  add_nonneg = λ x y h k. ground arith;
  mul_lit_nonneg = λ a b c d p h q k. ground arith;
  mul_int_nonneg = λ n. ground arith;
  sub_one_nonneg = λ x h. ground arith;
}
