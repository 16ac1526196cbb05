-- ===== src/Graph/Router/Paths.antt =====
-- ai_guardrail/aerorisk/graph/router.py: how the routes, the paths and the priorities agree.
use aero_risk_ai.Base.{
  String, ◌≡◌, ◌≢◌, refl, ◌↔◌, ◌⊎◌, Bool, true, false, Option, none, some, List, [], ◌∷◌, arith,
}
use aero_risk_ai.Base.Lists.{any, is_empty}
use aero_risk_ai.Base.Float.{Float, FloatLaws}
use aero_risk_ai.Graph.Router.{
  Reads, high_risk, suspicious, auto_block, auto_allow, llm_review, is_suspicious, route_of,
  route_after_anomaly, enrich_of, should_enrich_context, hit, below, high_value, path_of,
  determine_decision_path, priority_of, get_priority_level, member, medium_risk_flags,
}

module _ {F State Anomaly Context Profile : Type 0} ⦃fl : Float F⦄
    (r : Reads F State Anomaly Context Profile) where
  -- A sanctions hit and nothing else has the first priority, and it is always blocked, whatever the
  -- anomaly result says. What is allowed automatically is no sanctions hit and has a confidence
  -- below 0.3, or no anomaly result; a high value client's case is never sent to the LLM.
  pub determine_decision_path-verdict :
      (state : State)
      → let result = r.anomaly_result state in
        let context = r.context_bundle state in
        ((get_priority_level r state ≡ 1) ↔ (hit r context ≡ true))
        × ((hit r context ≡ false) ⊎ (determine_decision_path r state ≡ auto_block))
        × ((determine_decision_path r state ≢ auto_allow)
            ⊎ ((hit r context ≡ false) × (below r result (fl.lit 3 10) ≡ true)))
        × ((determine_decision_path r state ≢ llm_review) ⊎ (high_value r context ≡ false))
  unfolding determine_decision_path get_priority_level path_of priority_of
  determine_decision_path-verdict state = (ground arith, ground arith, ground arith, ground arith)

module _ {F State Anomaly Context Profile : Type 0} ⦃fl : Float F⦄ (laws : FloatLaws F)
    (r : Reads F State Anomaly Context Profile) where
  any-empty : (p : String → Bool) (xs : List String) → is_empty xs ≡ true → any p xs ≡ false
  any-empty p [] h = refl
  any-empty p (x ∷ xs) h = ground arith

  low-not_medium : (x : F) → fl.lt x (fl.lit 2 10) ≡ true → fl.le (fl.lit 5 10) x ≡ false
  low-not_medium x h = ground (
    arith,
    laws.lt_not_le x (fl.lit 2 10) h,
    laws.le_trans (fl.lit 2 10) (fl.lit 5 10) x,
    laws.lit_tenths 2 5 (omega arith),
  )

  abbrev Agree : Option Anomaly → Type 0
  Agree result =
      ((route_of r result ≢ high_risk) ⊎ (enrich_of r result ≡ false))
      × ((route_of r result ≢ suspicious) ⊎ (enrich_of r result ≡ true))

  agree : (result : Option Anomaly) → Agree result
  unfolding route_of enrich_of is_suspicious
  agree none = (ground arith, ground arith)
  agree (some a) = (
    ground arith,
    ground (
      arith,
      low-not_medium (r.confidence_score a),
      any-empty (member medium_risk_flags) (r.flags a),
    ),
  )

  -- The route and the enrichment agree: a state on the high risk route is not enriched, and one on
  -- the suspicious route always is.
  pub route_after_anomaly-enrich :
      (state : State)
      → ((route_after_anomaly r state ≢ high_risk) ⊎ (should_enrich_context r state ≡ false))
        × ((route_after_anomaly r state ≢ suspicious) ⊎ (should_enrich_context r state ≡ true))
  unfolding route_after_anomaly should_enrich_context
  route_after_anomaly-enrich state = agree (r.anomaly_result state)
