-- ===== src/Orchestrator/Verdict.antt =====
-- ai_guardrail/aerorisk/agents/agent3_orchestrator/agent.py: what an evaluation decides and what it
-- does to the circuit breaker.
use aero_risk_ai.Base.{
  String, ◌≡◌, refl, ap, ◌∙◌, ◌⊎◌, inl, inr, true, false, none, some, List, str_eq, Bool-cases,
  if◌then◌else◌,
}
use aero_risk_ai.Base.Outcome.{Outcome, ok, err}
use aero_risk_ai.Base.Exec.{
  pure, or_else, resume, outside, inside, Partial, Partial-bind, Partial-lift, Partial-weaken,
}
use aero_risk_ai.Base.Float.{Float}
use aero_risk_ai.Models.Decision.{block, decision_value}
use aero_risk_ai.Scoring.{Signals, calculate_score, get_recommendation}
use aero_risk_ai.Breaker.{Redis, increment_trigger_count}
use aero_risk_ai.Orchestrator.Quiet.{
  Stays, Quiet, Quiet-bind, Quiet-lift, Quiet-outside, Quiet-Partial, Partial-inside,
}
use aero_risk_ai.Orchestrator.Types.{
  critical, Decision, Clients, is_block, is_block_or_flag, or_default,
}
use aero_risk_ai.Orchestrator.{
  World, construct, sanctions_decision, fallback_decision, llm_decision, report_on, trigger_on,
  act_on, judge, evaluate, generate_incident_report, fallback_action,
}

module _ {F : Type 0} ⦃fl : Float F⦄ where
  -- Without the LLM the action is the scorer's recommendation, where a limit that it would adjust is
  -- allowed.
  pub fallback_action-recommendation :
      (score : F)
      → decision_value (fallback_action score) ≡ (
          if str_eq (get_recommendation score) "ADJUST_LIMIT"
          then "ALLOW"
          else get_recommendation score)
  unfolding fallback_action get_recommendation
  fallback_action-recommendation score = elim (Bool-cases (fl.le (fl.lit 8 10) score)) [
    | inl a ↦ rw a refl
    | inr a ↦ elim (Bool-cases (fl.le (fl.lit 5 10) score)) [
      | inl b ↦ rw (a, b) refl
      | inr b ↦ elim (Bool-cases (fl.le (fl.lit 3 10) score)) [
        | inl d ↦ rw (a, b, d) refl
        | inr d ↦ rw (a, b, d) refl
      ]
    ]
  ]

module _ {W R F Event Context Profile Flag Limits Dump : Type 0} ⦃fl : Float F⦄
    (c : Clients W F Event Context Flag Limits Dump) (s : Signals F Event Context Profile Flag)
    (redis : Redis R) where
  abbrev Unreported : Decision F Limits → Type 0
  Unreported d = d.incident_report_id ≡ none

  abbrev pub Sanctioned : Decision F Limits → Type 0
  Sanctioned d =
      (d.action ≡ block)
      × (d.risk_level ≡ critical)
      × (d.risk_score ≡ fl.lit 1 1)
      × (d.sanctions_triggered ≡ true)
      × (d.incident_report_id ≡ none)

  sanctions-Quiet :
      (event : Event) (context : Context) (w : World c s redis)
      → Quiet (w.1) Sanctioned (sanctions_decision c s redis event context) w
  unfolding sanctions_decision construct
  sanctions-Quiet event context w =
      Quiet-bind (w.1) (λ t. Unit) Sanctioned (outside c.now) _ w (Quiet-outside (w.1) c.now w refl)
        (λ t v k u.
          Quiet-lift (w.1) Sanctioned (c.validate _) _ v k
            (λ u. (k, (refl, refl, refl, refl, refl))))

  fallback-Quiet :
      (event : Event) (score : F) (r : R) (w : World c s redis)
      → w.1 ≡ r
      → Quiet r Unreported (fallback_decision c s redis event score) w
  unfolding fallback_decision construct
  fallback-Quiet event score r w h =
      Quiet-bind r (λ t. Unit) Unreported (outside c.now) _ w (Quiet-outside r c.now w h)
        (λ t v k u. Quiet-lift r Unreported (c.validate _) _ v k (λ u. (k, refl)))

  llm-Quiet :
      (event : Event) (prompt : String) (base : F) (w : World c s redis)
      → Quiet (w.1) Unreported (llm_decision c s redis event prompt base) w
  unfolding llm_decision construct
  llm-Quiet event prompt base w =
      let r = w.1 in
      Quiet-bind r (λ t. Unit) Unreported (outside (c.generate_decision prompt)) _ w
        (Quiet-outside r (c.generate_decision prompt) w refl)
        (λ response v k u. Quiet-lift r Unreported (c.loads response) _ v k (λ reply.
          Quiet-lift r Unreported (c.action_of (or_default "ALLOW" reply.action)) _ v k (λ kind.
            Quiet-lift r Unreported (c.level_of (or_default "MEDIUM" reply.risk_level)) _ v k
              (λ level.
                Quiet-bind r (λ t. Unit) Unreported (outside c.now) _ v (Quiet-outside r c.now v k)
                  (λ t x j u. Quiet-lift r Unreported (c.validate _) _ x j (λ u. (j, refl)))))))

  decided-Quiet :
      (r : R) (event : Event) (score : F) (o : Outcome (Decision F Limits)) (v : World c s redis)
      → Stays r Unreported o v
      → Quiet r Unreported (resume o (fallback_decision c s redis event score)) v
  decided-Quiet r event score (ok d) v h = h
  decided-Quiet r event score (err e) v (h, k) = fallback-Quiet event score r v h

  -- A report is noted exactly for a decision that blocks or flags.
  abbrev pub IsReported : Decision F Limits → Type 0
  IsReported d =
      ((is_block_or_flag d.action ≡ true) × (id : String) × (d.incident_report_id ≡ some id))
      ⊎ ((is_block_or_flag d.action ≡ false) × (d.incident_report_id ≡ none))

  report_on-Quiet :
      (r : R) (event : Event) (context : Context) (flags : List Flag) (d : Decision F Limits)
      (w : World c s redis)
      → w.1 ≡ r
      → Unreported d
      → Quiet r IsReported (report_on c s redis event context flags d) w
  unfolding report_on
  report_on-Quiet r event context flags d w h n = elim (Bool-cases (is_block_or_flag d.action)) [
    | inl e ↦ rw e (
        Quiet-lift r IsReported (generate_incident_report c s redis event context flags d) _ w h
          (λ report.
            Quiet-bind r (λ u. Unit) IsReported (outside (c.insert_incident_report report)) _ w
              (Quiet-outside r (c.insert_incident_report report) w h)
              (λ u v k x. (k, inl (e, c.report_id report, refl)))))
    | inr e ↦ rw e (h, inr (e, n))
  ]

  -- What a decision leaves of Redis: one trigger more of the symbol, where it blocks.
  abbrev pub after_decision : Event → R → Decision F Limits → R
  after_decision event r d =
      if is_block d.action then (increment_trigger_count redis (c.symbol event) r).1 else r

  abbrev pub IsJudged : Event → R → Decision F Limits → World c s redis → Type 0
  IsJudged event r d v = IsReported d × (v.1 ≡ after_decision event r d)

  trigger_on-IsJudged :
      (event : Event) (r : R) (d : Decision F Limits) (w : World c s redis)
      → (w.1 ≡ r) × IsReported d
      → Partial (trigger_on c s redis event d) w (IsJudged event r)
  unfolding trigger_on
  trigger_on-IsJudged event r d w (h, n) = elim (Bool-cases (is_block d.action)) [
    | inl e ↦ rw e (
        Partial-bind (λ u v. v.1 ≡ (increment_trigger_count redis (c.symbol event) (w.1)).1)
          (IsJudged event r) (inside (increment_trigger_count redis (c.symbol event))) (λ u. pure d)
          w (Partial-inside (increment_trigger_count redis (c.symbol event)) w)
          (λ u v k.
            (n, rw e (k ∙ ap (λ x. (increment_trigger_count redis (c.symbol event) x).1) h))))
    | inr e ↦ rw e (n, rw e h)
  ]

  judge-IsJudged :
      (event : Event) (context : Context) (flags : List Flag) (w : World c s redis)
      → Partial (judge c s redis event context flags) w (IsJudged event (w.1))
  unfolding judge act_on
  judge-IsJudged event context flags w =
      Partial-lift (IsJudged event (w.1)) (calculate_score s event context flags) _ w (λ base.
        Partial-lift (IsJudged event (w.1)) (c.prompt event context flags base) _ w (λ prompt.
          let llm = llm_decision c s redis event prompt base in
          Partial-bind (λ d v. (v.1 ≡ w.1) × Unreported d) (IsJudged event (w.1))
            (or_else llm (fallback_decision c s redis event base))
            (act_on c s redis event context flags) w
            (Quiet-Partial (w.1) Unreported (or_else llm (fallback_decision c s redis event base)) w
              (decided-Quiet (w.1) event base ((llm w).0) ((llm w).1)
                (llm-Quiet event prompt base w)))
            (λ d v h.
              Partial-bind (λ a x. (x.1 ≡ w.1) × IsReported a) (IsJudged event (w.1))
                (report_on c s redis event context flags d) (trigger_on c s redis event) v
                (Quiet-Partial (w.1) IsReported (report_on c s redis event context flags d) v
                  (report_on-Quiet (w.1) event context flags d v (h.0) (h.1)))
                (λ a x k. trigger_on-IsJudged event (w.1) a x k))))

  -- An evaluation that returns: a sanctions match is blocked at the critical level with score 1.0
  -- and leaves the circuit breaker alone; without one, a report is noted exactly for a decision
  -- that blocks or flags, and the breaker counts one trigger of the symbol exactly for a decision
  -- that blocks, whether the LLM or the fallback made it.
  pub evaluate-verdict :
      (event : Event) (context : Context) (flags : List Flag) (w : W) (r : R)
      → Partial
          (evaluate c s redis event context flags)
          (w, r)
          (λ d v.
            ((s.sanctions_match context ≡ true) × (v.1 ≡ r) × Sanctioned d)
            ⊎ ((s.sanctions_match context ≡ false) × IsJudged event r d v))
  unfolding evaluate
  evaluate-verdict event context flags w r = elim (Bool-cases (s.sanctions_match context)) [
    | inl e ↦ rw e (
        Partial-weaken (λ d v. (v.1 ≡ r) × Sanctioned d) _
          (sanctions_decision c s redis event context) (w, r)
          (Quiet-Partial r Sanctioned (sanctions_decision c s redis event context) (w, r)
            (sanctions-Quiet event context (w, r)))
          (λ d v h. inl (refl, h.0, h.1)))
    | inr e ↦ rw e (
        Partial-weaken (IsJudged event r) _ (judge c s redis event context flags) (w, r)
          (judge-IsJudged event context flags (w, r)) (λ d v h. inr (refl, h)))
  ]
