-- ===== src/Base/Float.antt =====
-- Python's `float` as an interface: the operations that the program uses, and the facts about
-- IEEE 754 doubles, NaN included, that the proofs use.
use aero_risk_ai.Base.{
  ◌^◌, inl, inr, Bool-cases, arith, ℕ, suc, ◌≤◌, ◌<◌, ◌≡◌, ◌≢◌, Bool, true, false, if◌then◌else◌,
}
use aero_risk_ai.Base.Int.{ℤ, pos, magnitude}
use aero_risk_ai.Base.Outcome.{Outcome, ok, err, zero_division, overflow}

pub record Float (F : Type 0) : Type 0 where
  -- `lit a b` is the literal whose exact decimal value is a / b.
  pub lit : ℕ → ℕ → F
  -- The nearest float, which is an infinity beyond the range. A comparison of a float with an
  -- integer, which is exact, agrees with it up to 2 ^ 53.
  pub of_int : ℤ → F
  pub is_finite : F → Bool
  pub lt : F → F → Bool
  pub le : F → F → Bool
  pub eq : F → F → Bool
  pub add : F → F → F
  pub sub : F → F → F
  pub mul : F → F → F
  -- The quotient of floats, where the divisor is not zero.
  pub div : F → F → F
  -- The correctly rounded quotient of integers, where the divisor is not zero, and an infinity where
  -- it is beyond the range.
  pub div_int : ℤ → ℤ → F
  -- `x % y`, and `int(x)`, which raises for an infinity or a NaN.
  pub mod_f : F → F → F
  pub trunc : F → Outcome ℤ
  -- `round(x, n)`
  pub round : F → ℕ → F
  -- `x ** 0.5`
  pub sqrt : F → F

module _ {F : Type 0} ⦃fl : Float F⦄ where
  infix 4 ◌≼◌ ◌≺◌
  abbrev pub ◌≼◌ : F → F → Type 0
  x ≼ y = fl.le x y ≡ true

  abbrev pub ◌≺◌ : F → F → Type 0
  x ≺ y = fl.lt x y ≡ true

  -- `min(x, y)` and `max(x, y)` keep the first of two arguments unless the second is beyond it.
  abbrev pub min_f : F → F → F
  min_f x y = if fl.lt y x then y else x

  abbrev pub max_f : F → F → F
  max_f x y = if fl.lt x y then y else x

  -- `x / y`
  abbrev pub true_div : F → F → Outcome F
  true_div x y = if fl.eq y (fl.lit 0 1) then err zero_division else ok (fl.div x y)

  -- OverflowError: a quotient of integers, or an integer that is converted, is beyond the range.
  abbrev pub finite : F → Outcome F
  finite x = if fl.is_finite x then ok x else err overflow

-- Facts of IEEE arithmetic. A value `x` is a number, and not NaN, when `x ≼ x`.
pub record FloatLaws (F : Type 0) ⦃fl : Float F⦄ : Type 0 where
  pub lt_le : (x y : F) → x ≺ y → x ≼ y
  pub number_of_le : (x y : F) → x ≼ y → (x ≼ x) × (y ≼ y)
  pub le_trans : (x y z : F) → x ≼ y → y ≼ z → x ≼ z
  pub lt_le_trans : (x y z : F) → x ≺ y → y ≼ z → x ≺ z
  pub le_of_not_lt : (x y : F) → x ≼ x → y ≼ y → fl.lt x y ≡ false → y ≼ x
  pub lt_not_le : (x y : F) → x ≺ y → fl.le y x ≡ false
  pub lt_ne : (x y : F) → x ≺ y → fl.eq y x ≡ false
  -- Rounding keeps the order of the literals of the program.
  pub lit_le : (a b : ℕ) → 0 < b → a ≤ b → fl.lit a b ≼ fl.lit 1 1
  pub lit_tenths : (a b : ℕ) → a ≤ b → fl.lit a 10 ≼ fl.lit b 10
  pub lit_tenths_lt : (a b : ℕ) → a < b → b ≤ 10 → fl.lit a 10 ≺ fl.lit b 10
  pub lit_nonneg : (a b : ℕ) → 0 < b → fl.lit 0 1 ≼ fl.lit a b
  pub one_pos : fl.lit 0 1 ≺ fl.lit 1 1
  pub int_pos : (n : ℕ) → fl.lit 0 1 ≺ fl.of_int (pos (suc n))
  -- What is below another number is no infinity, unless it is the negative one.
  pub lt_finite : (x y : F) → fl.lit 0 1 ≼ x → x ≺ y → fl.is_finite x ≡ true
  pub quotient_finite :
      (a b : ℤ) → magnitude a < 2 ^ 63 → b ≢ pos 0 → fl.is_finite (fl.div_int a b) ≡ true
  pub int_number : (a b : ℤ) → b ≢ pos 0 → fl.div_int a b ≼ fl.div_int a b
  pub int_nonneg : (a b : ℕ) → 0 < b → fl.lit 0 1 ≼ fl.div_int (pos a) (pos b)
  pub int_le_one : (a b : ℕ) → 0 < b → a ≤ b → fl.div_int (pos a) (pos b) ≼ fl.lit 1 1
  pub int_positive :
      (a b : ℕ) → 0 < a → 0 < b → b < 2 ^ 63 → fl.lit 0 1 ≺ fl.div_int (pos a) (pos b)
  -- The integer 0 and the float 0.0 are one value to a comparison.
  pub zero_int : fl.of_int (pos 0) ≡ fl.lit 0 1
  pub ratio_unit :
      (a b : ℕ)
      → 0 < b
      → a ≤ b
      → b < 2 ^ 53
      → let x = fl.div (fl.of_int (pos a)) (fl.lit b 1) in (fl.lit 0 1 ≼ x) × (x ≼ fl.lit 1 1)
  -- A remainder by 86400 lies between 0.0 and 86400.0, and an infinity or a NaN does not truncate.
  pub day_hour :
      (x : F) (z : ℤ)
      → fl.trunc (fl.div (fl.mod_f x (fl.of_int (pos 86400))) (fl.of_int (pos 3600))) ≡ ok z
      → (n : ℕ) × (z ≡ pos n) × (n ≤ 24)
  pub div_ge_one : (x y : F) → fl.lit 0 1 ≺ y → y ≺ x → fl.lit 1 1 ≼ fl.div x y
  pub div_nonneg :
      (x y : F) → fl.is_finite x ≡ true → fl.lit 0 1 ≼ x → fl.lit 0 1 ≺ y → fl.lit 0 1 ≼ fl.div x y
  pub add_nonneg : (x y : F) → fl.lit 0 1 ≼ x → fl.lit 0 1 ≼ y → fl.lit 0 1 ≼ fl.add x y
  pub mul_lit_nonneg :
      (a b c d : ℕ) → 0 < b → a ≤ b → 0 < d → c ≤ d → fl.lit 0 1 ≼ fl.mul (fl.lit a b) (fl.lit c d)
  pub mul_int_nonneg : (n : ℕ) → fl.lit 0 1 ≼ fl.mul (fl.of_int (pos n)) (fl.lit 1 10)
  pub sub_one_nonneg : (x : F) → fl.lit 1 1 ≼ x → fl.lit 0 1 ≼ fl.sub x (fl.lit 1 1)

module _ {F : Type 0} ⦃fl : Float F⦄ where
  -- Between 0.0 and 1.0, which a NaN is not.
  abbrev pub InUnit : F → Type 0
  InUnit x = (fl.lit 0 1 ≼ x) × (x ≼ fl.lit 1 1)

  module _ (laws : FloatLaws F) where
    pub lit-InUnit : (a b : ℕ) → 0 < b → a ≤ b → InUnit (fl.lit a b)
    lit-InUnit a b pb le = (laws.lit_nonneg a b pb, laws.lit_le a b pb le)

    pub one-refl : fl.lit 1 1 ≼ fl.lit 1 1
    one-refl = laws.lit_le 1 1 (omega arith) (omega arith)

    -- `min(1.0, x)` for an `x` that is not negative.
    pub min_f-InUnit : (x : F) → fl.lit 0 1 ≼ x → InUnit (min_f (fl.lit 1 1) x)
    min_f-InUnit x h = ground (arith, laws.lt_le x (fl.lit 1 1), lit-InUnit 1 1, one-refl)

    -- `max(x, 1.0)` is positive, for an `x` that is a number.
    pub max_f-pos : (x : F) → x ≼ x → fl.lit 0 1 ≺ max_f x (fl.lit 1 1)
    max_f-pos x h = elim (Bool-cases (fl.lt x (fl.lit 1 1))) [
      | inl e ↦ rw e laws.one_pos
      | inr e ↦ rw e (
          laws.lt_le_trans (fl.lit 0 1) (fl.lit 1 1) x laws.one_pos
            (laws.le_of_not_lt x (fl.lit 1 1) h one-refl e))
    ]

    -- Division by a positive float does not raise.
    pub true_div-ok : (x y : F) → fl.lit 0 1 ≺ y → true_div x y ≡ ok (fl.div x y)
    true_div-ok x y h = rw (laws.lt_ne (fl.lit 0 1) y h)
