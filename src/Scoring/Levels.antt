-- ===== src/Scoring/Levels.antt =====
-- ai_guardrail/aerorisk/agents/agent3_orchestrator/risk_scorer.py: how risk levels and
-- recommendations follow the score.
use aero_risk_ai.Base.{
  ℕ, ◌≤◌, String, ◌≡◌, ◌⊎◌, inl, inr, not, ◌||◌, true, false, arith, str_eq, if◌then◌else◌,
}
use aero_risk_ai.Base.Float.{Float, FloatLaws, ◌≼◌}
use aero_risk_ai.Scoring.{get_risk_level, get_recommendation}

-- The order of the levels, and of the recommendations, from the mildest.
pub level_rank : String → ℕ
level_rank s =
    if str_eq s "CRITICAL"
    then 3
    else if str_eq s "HIGH"
    then 2
    else if str_eq s "MEDIUM"
    then 1
    else 0

pub action_rank : String → ℕ
action_rank s =
    if str_eq s "BLOCK"
    then 3
    else if str_eq s "FLAG"
    then 2
    else if str_eq s "ADJUST_LIMIT"
    then 1
    else 0

module _ {F : Type 0} ⦃fl : Float F⦄ where
  get_risk_level-cases :
      (x : F)
      → ((fl.le (fl.lit 8 10) x ≡ true) × (get_risk_level x ≡ "CRITICAL"))
        ⊎ (((fl.le (fl.lit 8 10) x ≡ false)
              × (fl.le (fl.lit 6 10) x ≡ true)
              × (get_risk_level x ≡ "HIGH"))
            ⊎ (((fl.le (fl.lit 8 10) x ≡ false)
                  × (fl.le (fl.lit 6 10) x ≡ false)
                  × (fl.le (fl.lit 3 10) x ≡ true)
                  × (get_risk_level x ≡ "MEDIUM"))
                ⊎ (((fl.le (fl.lit 8 10) x ≡ false)
                    × (fl.le (fl.lit 6 10) x ≡ false)
                    × (fl.le (fl.lit 3 10) x ≡ false)
                    × (get_risk_level x ≡ "LOW")))))
  unfolding get_risk_level
  get_risk_level-cases x = ground arith

  level_rank-level :
      (x : F)
      → level_rank (get_risk_level x) ≡ (
          if fl.le (fl.lit 8 10) x
          then 3
          else if fl.le (fl.lit 6 10) x
          then 2
          else if fl.le (fl.lit 3 10) x
          then 1
          else 0)
  unfolding level_rank
  level_rank-level x = elim (get_risk_level-cases x) [
    | inl (a, e) ↦ rw (e, a)
    | inr (inl (a, b, e)) ↦ rw (e, a, b)
    | inr (inr (inl (a, b, c, e))) ↦ rw (e, a, b, c)
    | inr (inr (inr (a, b, c, e))) ↦ rw (e, a, b, c)
  ]

  get_risk_level-critical : (x : F) → str_eq (get_risk_level x) "CRITICAL" ≡ fl.le (fl.lit 8 10) x
  get_risk_level-critical x = elim (get_risk_level-cases x) [
    | inl (a, e) ↦ rw (e, a)
    | inr (inl (a, b, e)) ↦ rw (e, a)
    | inr (inr (inl (a, b, c, e))) ↦ rw (e, a)
    | inr (inr (inr (a, b, c, e))) ↦ rw (e, a)
  ]

  get_risk_level-low :
      (x : F)
      → str_eq (get_risk_level x) "LOW"
        ≡ not (fl.le (fl.lit 8 10) x || fl.le (fl.lit 6 10) x || fl.le (fl.lit 3 10) x)
  get_risk_level-low x = elim (get_risk_level-cases x) [
    | inl (a, e) ↦ rw (e, a)
    | inr (inl (a, b, e)) ↦ rw (e, a, b)
    | inr (inr (inl (a, b, c, e))) ↦ rw (e, a, b, c)
    | inr (inr (inr (a, b, c, e))) ↦ rw (e, a, b, c)
  ]

  get_recommendation-cases :
      (x : F)
      → ((fl.le (fl.lit 8 10) x ≡ true) × (get_recommendation x ≡ "BLOCK"))
        ⊎ (((fl.le (fl.lit 8 10) x ≡ false)
              × (fl.le (fl.lit 5 10) x ≡ true)
              × (get_recommendation x ≡ "FLAG"))
            ⊎ (((fl.le (fl.lit 8 10) x ≡ false)
                  × (fl.le (fl.lit 5 10) x ≡ false)
                  × (fl.le (fl.lit 3 10) x ≡ true)
                  × (get_recommendation x ≡ "ADJUST_LIMIT"))
                ⊎ (((fl.le (fl.lit 8 10) x ≡ false)
                    × (fl.le (fl.lit 5 10) x ≡ false)
                    × (fl.le (fl.lit 3 10) x ≡ false)
                    × (get_recommendation x ≡ "ALLOW")))))
  unfolding get_recommendation
  get_recommendation-cases x = ground arith

  action_rank-action :
      (x : F)
      → action_rank (get_recommendation x) ≡ (
          if fl.le (fl.lit 8 10) x
          then 3
          else if fl.le (fl.lit 5 10) x
          then 2
          else if fl.le (fl.lit 3 10) x
          then 1
          else 0)
  unfolding action_rank
  action_rank-action x = elim (get_recommendation-cases x) [
    | inl (a, e) ↦ rw (e, a)
    | inr (inl (a, b, e)) ↦ rw (e, a, b)
    | inr (inr (inl (a, b, c, e))) ↦ rw (e, a, b, c)
    | inr (inr (inr (a, b, c, e))) ↦ rw (e, a, b, c)
  ]

  get_recommendation-block : (x : F) → str_eq (get_recommendation x) "BLOCK" ≡ fl.le (fl.lit 8 10) x
  get_recommendation-block x = elim (get_recommendation-cases x) [
    | inl (a, e) ↦ rw (e, a)
    | inr (inl (a, b, e)) ↦ rw (e, a)
    | inr (inr (inl (a, b, c, e))) ↦ rw (e, a)
    | inr (inr (inr (a, b, c, e))) ↦ rw (e, a)
  ]

  get_recommendation-allow :
      (x : F)
      → str_eq (get_recommendation x) "ALLOW"
        ≡ not (fl.le (fl.lit 8 10) x || fl.le (fl.lit 5 10) x || fl.le (fl.lit 3 10) x)
  get_recommendation-allow x = elim (get_recommendation-cases x) [
    | inl (a, e) ↦ rw (e, a)
    | inr (inl (a, b, e)) ↦ rw (e, a, b)
    | inr (inr (inl (a, b, c, e))) ↦ rw (e, a, b, c)
    | inr (inr (inr (a, b, c, e))) ↦ rw (e, a, b, c)
  ]

module _ {F : Type 0} ⦃fl : Float F⦄ (laws : FloatLaws F) where
  -- A higher score never has a lower level or a milder recommendation, in the scorer's own order
  -- ALLOW, ADJUST_LIMIT, FLAG, BLOCK.
  pub get_recommendation-monotone :
      (a b : F)
      → a ≼ b
      → (level_rank (get_risk_level a) ≤ level_rank (get_risk_level b))
        × (action_rank (get_recommendation a) ≤ action_rank (get_recommendation b))
  get_recommendation-monotone a b h =
      let up : (n : ℕ) → fl.lit n 10 ≼ a → fl.lit n 10 ≼ b =
        λ n k. laws.le_trans (fl.lit n 10) a b k h in
      (
        ground (arith, level_rank-level a, level_rank-level b, up 8, up 6, up 3),
        ground (arith, action_rank-action a, action_rank-action b, up 8, up 5, up 3),
      )

  -- The two scales agree at both ends: exactly the critical scores are blocked, and exactly the low
  -- ones are allowed.
  pub get_recommendation-level :
      (score : F)
      → (str_eq (get_recommendation score) "BLOCK" ≡ str_eq (get_risk_level score) "CRITICAL")
        × (str_eq (get_recommendation score) "ALLOW" ≡ str_eq (get_risk_level score) "LOW")
  get_recommendation-level score =
      let down : (n : ℕ) → 3 ≤ n → fl.lit n 10 ≼ score → fl.lit 3 10 ≼ score =
        λ n le. laws.le_trans (fl.lit 3 10) (fl.lit n 10) score (laws.lit_tenths 3 n le) in
      (
        ground (arith, get_recommendation-block score, get_risk_level-critical score),
        ground (
          arith,
          get_recommendation-allow score,
          get_risk_level-low score,
          down 5 (omega arith),
          down 6 (omega arith),
        ),
      )
