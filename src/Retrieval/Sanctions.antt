-- ===== src/Retrieval/Sanctions.antt =====
-- ai_guardrail/aerorisk/agents/agent2_rag/agent.py: the sanctions match of a retrieved context.
use aero_risk_ai.Base.{true, String, ◌≡◌, ◌⊎◌, Option, none, some, str_eq}
use aero_risk_ai.Base.Dict.{lookup}
use aero_risk_ai.Base.Outcome.{Outcome}
use aero_risk_ai.Base.Exec.{recover}
use aero_risk_ai.Retrieval.{
  Stores, MatchCache, Agent, retrieve_compliance_rules, retrieve_user_profile,
}

module _ {W Info Hit Rule Profile Match News : Type 0}
    (db : Stores W Info Hit Rule Profile Match News) where
  -- A match is then in the cache, and the entries of other users stay.
  abbrev pub IsFound : String → MatchCache db → Option Match → MatchCache db → Type 0
  IsFound user old r cache =
      ((r ≡ none) ⊎ ((m : Match) × (r ≡ some m) × (lookup user cache ≡ some m)))
      × ((j : String) → (str_eq user j ≡ true) ⊎ (lookup j cache ≡ lookup j old))

  -- What the `try` makes of an outcome, and the cache beside it.
  abbrev pub Ends : String → MatchCache db → Outcome (Option Match) × Agent db → Type 0
  Ends user old r = IsFound user old (recover none (r.0)) (r.1.1)

  -- The state in which the sanctions are checked: the rules and the profile are retrieved before.
  abbrev pub before_check : String → String → W → W
  before_check symbol user w =
      (retrieve_user_profile db user ((retrieve_compliance_rules db symbol w).1)).1
