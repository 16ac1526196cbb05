-- ===== src/Scoring/Range.antt =====
-- ai_guardrail/aerorisk/agents/agent3_orchestrator/risk_scorer.py: when a score is computed, and
-- its range.
use aero_risk_ai.Base.{
  ◌≡◌, ◌≢◌, refl, ◌⊎◌, false, not, Option, none, some, List, arith, inl, inr, Bool-cases,
  if◌then◌else◌,
}
use aero_risk_ai.Base.Int.{ℤ, pos, ◌*ℤ◌, eqb_ℤ}
use aero_risk_ai.Base.Outcome.{Outcome, ok, err, zero_division, overflow, Error, ◌>>=◌}
use aero_risk_ai.Base.Float.{Float, FloatLaws, InUnit, ◌≼◌, lit-InUnit, one-refl}
use aero_risk_ai.Scoring.{
  Signals, limit_or, clamp, int_div, velocity_of, size_of, calculate_velocity_factor,
  calculate_size_factor, calculate_score, velocity_band, size_band, weighted_total,
  calculate_anomaly_score, get_user_risk_score,
}

module _ {F : Type 0} ⦃fl : Float F⦄ (laws : FloatLaws F) where
  clamp-InUnit : (x : F) → clamp x ≼ clamp x → InUnit (clamp x)
  unfolding clamp
  clamp-InUnit x h = ground (
    arith,
    lit-InUnit laws 0 1 (omega arith) (omega arith),
    lit-InUnit laws 1 1 (omega arith) (omega arith),
    laws.le_of_not_lt x (fl.lit 0 1),
    laws.le_of_not_lt (fl.lit 1 1) x,
    one-refl laws,
  )

module _ {F Event Context Profile Flag : Type 0} ⦃fl : Float F⦄ (laws : FloatLaws F)
    (s : Signals F Event Context Profile Flag) where
  -- What keeps a profile from a score, where it has one, in the order of the code: a limit of
  -- orders of zero, a value of the order or a limit of it that no float holds, a limit of zero.
  abbrev pub trouble_of : ℤ → ℤ → ℤ → Option Error
  trouble_of orders value limit =
      if eqb_ℤ orders (pos 0)
      then some zero_division
      else if not (fl.is_finite (fl.div_int value (pos 10_000)))
      then some overflow
      else if not (fl.is_finite (fl.of_int limit))
      then some overflow
      else if fl.eq (fl.of_int limit) (fl.lit 0 1)
      then some zero_division
      else none

  pub trouble : Event → Option Profile → Option Error
  trouble event none = none
  trouble event (some profile) =
      trouble_of (limit_or (pos 60) (s.trading_limit profile "max_orders_per_minute"))
        (s.price event *ℤ s.quantity event)
        (limit_or (pos 100_000) (s.trading_limit profile "single_order_limit"))

  abbrev pair : Event → Option Profile → Outcome (F × F)
  pair event profile = do
    velocity ← velocity_of s profile
    size ← size_of s event profile
    ok (velocity, size)

  pair-cases :
      (event : Event) (profile : Option Profile)
      → ((trouble event profile ≡ none)
          × (v : F) × (z : F) × (velocity_of s profile ≡ ok v)
          × (size_of s event profile ≡ ok z))
        ⊎ ((e : Error) × (trouble event profile ≡ some e) × (pair event profile ≡ err e))
  unfolding trouble velocity_of size_of int_div
  pair-cases event none = inl (refl, fl.lit 3 10, fl.lit 3 10, refl, refl)
  pair-cases event (some profile) =
      let orders = limit_or (pos 60) (s.trading_limit profile "max_orders_per_minute") in
      let value = s.price event *ℤ s.quantity event in
      let limit : F =
        fl.of_int (limit_or (pos 100_000) (s.trading_limit profile "single_order_limit")) in
      elim (Bool-cases (eqb_ℤ orders (pos 0))) [
        | inl a ↦ inr (zero_division, rw a refl, rw a refl)
        | inr a ↦
            let held = laws.quotient_finite (pos 10) orders (omega arith) (nonzero orders a) in
            elim (Bool-cases (fl.is_finite (fl.div_int value (pos 10_000)))) [
              | inr b ↦ inr (overflow, rw (a, b) refl, rw (a, held, b) refl)
              | inl b ↦ elim (Bool-cases (fl.is_finite limit)) [
                | inr d ↦ inr (overflow, rw (a, b, d) refl, rw (a, held, b, d) refl)
                | inl d ↦ elim (Bool-cases (fl.eq limit (fl.lit 0 1))) [
                  | inl k ↦ inr (zero_division, rw (a, b, d, k) refl, rw (a, held, b, d, k) refl)
                  | inr k ↦ inl (
                    rw (a, b, d, k) refl,
                    velocity_band (fl.div_int (pos 10) orders),
                    size_band (fl.div (fl.div_int value (pos 10_000)) limit),
                    rw (a, held) refl,
                    rw (b, d, k) refl,
                  )
                ]
              ]
            ]
      ]
    where
      nonzero : (z : ℤ) → eqb_ℤ z (pos 0) ≡ false → z ≢ pos 0
      nonzero z h e = ground (arith, h, e)

  -- A score is computed exactly when a user has no profile, or a profile whose limit of orders and
  -- limit of an order are not zero, and the value of the order and its limit are in the range of a
  -- float; a limit of zero raises ZeroDivisionError and a number beyond the range OverflowError. A
  -- score that is not NaN lies between 0.0 and 1.0.
  pub calculate_score-verdict :
      (event : Event) (context : Context) (flags : List Flag)
      → ((trouble event (s.user_profile context) ≡ none)
          × (score : F) × (calculate_score s event context flags ≡ ok score)
          × ((fl.le score score ≡ false) ⊎ InUnit score))
        ⊎ ((e : Error) × (trouble event (s.user_profile context) ≡ some e)
            × (calculate_score s event context flags ≡ err e))
  unfolding calculate_score calculate_velocity_factor calculate_size_factor
  calculate_score-verdict event context flags =
      let total : F → F → F = λ v z. clamp (
        weighted_total (calculate_anomaly_score s flags) (get_user_risk_score s context) v z
          (if s.sanctions_match context then fl.lit 1 1 else fl.lit 0 1)) in
      elim (pair-cases event (s.user_profile context)) [
        | inl (u, v, z, ev, ez) ↦ inl (
          u,
          total v z,
          ground (arith, ev, ez),
          elim (Bool-cases (fl.le (total v z) (total v z))) [
            | inl n ↦ inr (clamp-InUnit laws _ n)
            | inr n ↦ inl n
          ],
        )
        | inr (x, u, e) ↦ inr (x, u, ground (arith, e))
      ]
