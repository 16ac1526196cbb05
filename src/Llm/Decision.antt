-- ===== src/Llm/Decision.antt =====
-- ai_guardrail/aerorisk/agents/agent3_orchestrator/llm_client.py: the fields of a decision.
use aero_risk_ai.Base.{
  String, concat, ◌≡◌, refl, ◌∙◌, ap, inl, inr, true, false, Option, none, some, arith, str_eq,
  eq_iff, ◌==◌, Bool-cases,
}
use aero_risk_ai.Base.Outcome.{Outcome, ok, err, ◌>>=◌}
use aero_risk_ai.Base.Exec.{After, Returns}
use aero_risk_ai.Base.Float.{Float}
use aero_risk_ai.Base.Value.{
  Value, Fields, null, bool, int, float, str, list, dict, end, field, get_field, has_field,
  get_field-set_field,
}
use aero_risk_ai.Llm.{
  Response, Http, LlmClient, content_of, tokens_used, with_default, decision_fields,
  decision_payload, completed, loaded, decision_text, answered, generate_decision,
}

-- `d.get(key, default)`
abbrev pub field_or : {F : Type 0} → Value F → Option (Value F) → Value F
field_or default none = default
field_or default (some v) = v

module _ {F : Type 0} where
  has_field-get_field :
      (key : String) (fs : Fields F)
      → has_field key fs ≡ true
      → (v : Value F) × (get_field key fs ≡ some v)
  has_field-get_field key end h = cc
  has_field-get_field key (field k w rest) h = elim (Bool-cases (str_eq k key)) [
    | inl e ↦ (w, rw e refl)
    | inr n ↦
        let deeper : has_field key rest ≡ true = rw n at h in
        let (v, found) = has_field-get_field key rest deeper in (v, rw n found)
  ]

  not_has_field-get_field :
      (key : String) (fs : Fields F) → has_field key fs ≡ false → get_field key fs ≡ none
  not_has_field-get_field key end h = refl
  not_has_field-get_field key (field k w rest) h = ground (arith, not_has_field-get_field key rest)

module _ {W F : Type 0} ⦃fl : Float F⦄ (http : Http W F) (client : LlmClient) where
  get_field-with_default :
      (key : String) (v : Value F) (fs : Fields F)
      → get_field key (with_default http client key v fs) ≡ some (field_or v (get_field key fs))
  get_field-with_default key v fs = elim (Bool-cases (has_field key fs)) [
    | inl e ↦ let (w, found) = has_field-get_field key fs e in rw (e, found) refl
    | inr n ↦
        rw
          (
            n,
            get_field-set_field key key v fs,
            not_has_field-get_field key fs n,
            (eq_iff key key).1 refl,
          )
          refl
  ]

  get_field-with_other :
      (key other : String) (v : Value F) (fs : Fields F)
      → str_eq key other ≡ false
      → get_field other (with_default http client key v fs) ≡ get_field other fs
  get_field-with_other key other v fs ne = ground (arith, get_field-set_field key other v fs)

  -- The answer of the LLM, with the defaults and the tokens.
  abbrev pub IsComplete : String → Type 0
  IsComplete text =
      (answer : Fields F) × (tokens : Value F) × (fs : Fields F) × (text ≡ http.dumps (dict fs))
      × (get_field "action" fs ≡ some (field_or (str "FLAG") (get_field "action" answer)))
      × (get_field "risk_score" fs
          ≡ some (field_or (float (fl.lit 1 2)) (get_field "risk_score" answer)))
      × (get_field "tokens_used" fs ≡ some tokens)

  decision_fields-IsComplete :
      (answer : Fields F) (tokens : Value F)
      → IsComplete (http.dumps (dict (decision_fields http client answer tokens)))
  unfolding decision_fields
  decision_fields-IsComplete answer tokens =
      let named = with_default http client "action" (str "FLAG") answer in
      let scored = with_default http client "risk_score" (float (fl.lit 1 2)) named in
      (
        answer,
        tokens,
        decision_fields http client answer tokens,
        refl,
        get_field-set_field "tokens_used" "action" tokens scored
            ∙ get_field-with_other "risk_score" "action" (float (fl.lit 1 2)) named refl
            ∙ get_field-with_default "action" (str "FLAG") answer,
        get_field-set_field "tokens_used" "risk_score" tokens scored
            ∙ get_field-with_default "risk_score" (float (fl.lit 1 2)) named
            ∙ ap (λ (o : Option (Value F)). some (field_or (float (fl.lit 1 2)) o))
                (get_field-with_other "action" "risk_score" (str "FLAG") answer refl),
        get_field-set_field "tokens_used" "tokens_used" tokens scored,
      )

  After-any :
      {A : Type 0} (m : Outcome A) (f : A → Outcome String)
      → ((a : A) → After IsComplete (f a))
      → After IsComplete (m >>= f)
  After-any (ok a) f h = h a
  After-any (err e) f h = tt

  completed-IsComplete :
      (decision result : Value F) → After IsComplete (completed http client decision result)
  completed-IsComplete (dict fs) result =
      After-any (tokens_used result) _ (λ tokens. decision_fields-IsComplete fs tokens)
  completed-IsComplete null result = tt
  completed-IsComplete (bool b) result = tt
  completed-IsComplete (int z) result = tt
  completed-IsComplete (float x) result = tt
  completed-IsComplete (str s) result = tt
  completed-IsComplete (list vs) result = tt

  decision_text-IsComplete :
      (response : Response F) → After IsComplete (decision_text http client response)
  unfolding decision_text
  decision_text-IsComplete response = elim (Bool-cases (response.status == 200)) [
    | inr n ↦ rw n tt
    | inl e ↦ rw e (
        After-any (response.json) _ (λ (result : Value F).
          After-any (content_of result) _ (λ (content : Value F).
            After-any (loaded http client content) _
              (λ (decision : Value F). completed-IsComplete decision result))))
  ]

  answered-IsComplete :
      (r : Outcome (Response F)) (w : W)
      → After IsComplete ((answered http client (decision_text http client) (r, w)).0)
  answered-IsComplete (ok response) w = decision_text-IsComplete response
  answered-IsComplete (err e) w = tt

  -- Whatever the service answers, a decision that is returned is the text of an object that has an
  -- action, a risk score and the tokens used: the answer's own action and score where it has them,
  -- and else FLAG and 0.5.
  pub generate_decision-IsComplete :
      (prompt : String) → Returns (generate_decision http client prompt) IsComplete
  unfolding generate_decision decision_payload
  generate_decision-IsComplete prompt (w, session) =
      let (r, w') =
        http.post (concat (client.api_url) "/v1/chat/completions")
          (decision_payload http client prompt) w in
      answered-IsComplete r w'
