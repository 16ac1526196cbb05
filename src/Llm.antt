-- ===== src/Llm.antt =====
-- ai_guardrail/aerorisk/agents/agent3_orchestrator/llm_client.py. The HTTP session's requests, and
-- `json.loads` and `json.dumps`, are a record of operations.
pub mod Decision
use aero_risk_ai.Base.{
  ℕ, zero, suc, String, concat, Bool, true, false, Option, none, some, List, [], ◌∷◌, str_eq, ◌==◌,
  if◌then◌else◌,
}
use aero_risk_ai.Base.Int.{ℤ, pos}
use aero_risk_ai.Base.Outcome.{Outcome, ok, err, Error, runtime, ◌>>=◌}
use aero_risk_ai.Base.Exec.{Exec}
use aero_risk_ai.Base.Float.{Float}
use aero_risk_ai.Base.Value.{
  Value, Values, Fields, null, bool, int, float, str, list, dict, nil, cons, end, field, fields,
  values, get_field, set_field, has_field,
}

-- A response, with the outcome of `await response.json()`.
pub record Response (F : Type 0) : Type 0 where
  pub status : ℕ
  pub json : Outcome (Value F)

pub record Http (W F : Type 0) : Type 0 where
  -- The body is given to `session.post` as `json=`.
  pub post : String → Value F → Exec W (Response F)
  pub get : String → Exec W ℕ
  pub loads : String → Outcome (Value F)
  pub dumps : Value F → String

-- `self._session`: none yet, open or closed.
pub data Session : Type 0 where
  absent opened closed : Session

pub record LlmClient : Type 0 where
  pub api_url : String
  pub model_name : String
  pub embedding_model : String

abbrev pub type_error : Error
type_error = runtime "TypeError"

abbrev pub key_error : Error
key_error = runtime "KeyError"

module _ {F : Type 0} where
  abbrev pub or_key_error : Option (Value F) → Outcome (Value F)
  or_key_error none = err key_error
  or_key_error (some v) = ok v

  -- `v[key]` for a text `key`
  abbrev pub item : String → Value F → Outcome (Value F)
  item key (dict fs) = or_key_error (get_field key fs)
  item key _ = err type_error

  -- `v[0]`; a text has a first character, which is never an object.
  abbrev pub first : Value F → Outcome (Value F)
  first (list nil) = err (runtime "IndexError")
  first (list (cons v vs)) = ok v
  first (dict fs) = err key_error
  first _ = err type_error

  -- `result["choices"][0]["message"]["content"]`
  pub content_of : Value F → Outcome (Value F)
  content_of result = do
    choices ← item "choices" result
    choice ← first choices
    message ← item "message" choice
    item "content" message

  -- `result.get("usage", {}).get("total_tokens", 0)`
  abbrev pub value_or_zero : Option (Value F) → Value F
  value_or_zero none = int (pos 0)
  value_or_zero (some v) = v

  abbrev pub tokens_in : Option (Value F) → Outcome (Value F)
  tokens_in none = ok (int (pos 0))
  tokens_in (some (dict usage)) = ok (value_or_zero (get_field "total_tokens" usage))
  tokens_in (some _) = err (runtime "AttributeError")

  abbrev pub tokens_used : Value F → Outcome (Value F)
  tokens_used (dict fs) = tokens_in (get_field "usage" fs)
  tokens_used _ = err (runtime "AttributeError")

module _ {W F : Type 0} ⦃fl : Float F⦄ (http : Http W F) (client : LlmClient) where
  -- A new session where there is none, and where it is closed.
  abbrev pub get_session : Session → Session
  get_session absent = opened
  get_session opened = opened
  get_session closed = opened

  abbrev pub close : Session → Session
  close absent = absent
  close opened = closed
  close closed = closed

  abbrev pub system_prompt : String
  system_prompt =
      "You are a financial risk assessment AI. Output ONLY valid JSON with fields: action (ALLOW|FLAG|BLOCK|ADJUST_LIMIT), risk_level (LOW|MEDIUM|HIGH|CRITICAL), risk_score (0.0-1.0), reason (string), recommended_limits (optional object)."

  pub decision_payload : String → Value F
  decision_payload prompt = dict (
      fields (
        ("model", str (client.model_name))
        ∷ (
          "messages",
          list (
              values (
                dict (fields (("role", str "system") ∷ ("content", str system_prompt) ∷ []))
                ∷ dict (fields (("role", str "user") ∷ ("content", str prompt) ∷ []))
                ∷ [])),
        )
        ∷ ("temperature", float (fl.lit 1 10))
        ∷ ("max_tokens", int (pos 500))
        ∷ ("response_format", dict (fields (("type", str "json_object") ∷ [])))
        ∷ []))

  -- `json.loads(content)`, which wants a text.
  abbrev pub loaded : Value F → Outcome (Value F)
  loaded (str s) = http.loads s
  loaded _ = err type_error

  -- `if key not in d: d[key] = v`
  abbrev pub with_default : String → Value F → Fields F → Fields F
  with_default key v fs = if has_field key fs then fs else set_field key v fs

  pub decision_fields : Fields F → Value F → Fields F
  decision_fields fs tokens =
      set_field "tokens_used" tokens
        (with_default "risk_score" (float (fl.lit 1 2)) (with_default "action" (str "FLAG") fs))

  -- Only an object can be completed: the assignments raise for any other value.
  abbrev pub completed : Value F → Value F → Outcome String
  completed (dict fs) result = do
    tokens ← tokens_used result
    ok (http.dumps (dict (decision_fields fs tokens)))
  completed _ result = err type_error

  abbrev pub read_decision : Outcome (Value F) → Outcome String
  read_decision json = do
    result ← json
    content ← content_of result
    decision ← loaded content
    completed decision result

  pub decision_text : Response F → Outcome String
  unfolding content_of decision_fields
  decision_text response =
      if response.status == 200
      then read_decision (response.json)
      else err (runtime "LLM API returned an error")

  abbrev pub answered :
      {A : Type 0} → (Response F → Outcome A) → Outcome (Response F) × W → Outcome A × W
  answered f (ok response, w) = (f response, w)
  answered f (err e, w) = (err e, w)

  pub generate_decision : String → Exec (W × Session) String
  unfolding decision_text decision_payload
  generate_decision prompt (w, session) =
      let (text, w') =
        answered decision_text (
          http.post (concat (client.api_url) "/v1/chat/completions") (decision_payload prompt) w) in
      (text, (w', get_session session))

  abbrev pub read_embedding : Outcome (Value F) → Outcome (Value F)
  read_embedding json = do
    result ← json
    rows ← item "data" result
    row ← first rows
    item "embedding" row

  pub embedding_in : Response F → Outcome (Value F)
  embedding_in response =
      if response.status == 200
      then read_embedding (response.json)
      else err (runtime "Embedding API returned an error")

  pub generate_embedding : String → Exec (W × Session) (Value F)
  unfolding embedding_in
  generate_embedding text (w, session) =
      let body =
        dict (fields (("model", str (client.embedding_model)) ∷ ("input", str text) ∷ [])) in
      let (vector, w') =
        answered embedding_in (http.post (concat (client.api_url) "/v1/embeddings") body w) in
      (vector, (w', get_session session))

  abbrev pub is_healthy : Outcome ℕ × W → Bool × W
  is_healthy (ok status, w) = (status == 200, w)
  is_healthy (err e, w) = (false, w)

  pub health_check : (W × Session) → Bool × (W × Session)
  health_check (w, session) =
      let (healthy, w') = is_healthy (http.get (concat (client.api_url) "/health") w) in
      (healthy, (w', get_session session))
