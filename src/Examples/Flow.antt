-- ===== src/Examples/Flow.antt =====
-- The theorems on the pipeline and the circuit breaker at concrete agents and a concrete Redis.
use text.Mathlib.TextLemmas.{cons≢nil}
use aero_risk_ai.Base.{
  Bool-cases, eq_iff, ℕ, zero, suc, ◌-◌, String, ◌≡◌, ap, sym, refl, inl, inr, Bool, true, false,
  Option, none, some, List, [], ◌∷◌, arith, leb, str_eq, map,
}
use aero_risk_ai.Base.Int.{pos}
use aero_risk_ai.Base.Lists.{length}
use aero_risk_ai.Base.Dict.{Dict, lookup, insert, erase, lookup-insert, lookup-erase}
use aero_risk_ai.Base.Text.{codes}
use aero_risk_ai.Base.Outcome.{ok, err, runtime, ok-injective}
use aero_risk_ai.Base.Exec.{Leads}
use aero_risk_ai.Models.Decision.{RiskDecisionType}
use aero_risk_ai.Breaker.{Redis, increment_trigger_count, close_circuit, get_status}
use aero_risk_ai.Breaker.Trigger.{RedisLaws, Counts, Counted, increment-Counted}
use aero_risk_ai.Breaker.Reset.{times, get_status-times, close_circuit-status}
use aero_risk_ai.Graph.Pipeline.{Services, DecisionLaws}
use aero_risk_ai.Examples.Fixed.{Fixed, fixed_float}

-- A number as a text of one more character.
abbrev tally : ℕ → String
tally zero = "I"
tally (suc n) = String.◌∷◌ "I" (tally n)

tally-length : (n : ℕ) → length (codes (tally n)) ≡ suc n
tally-length zero = refl
tally-length (suc n) = omega (arith, tally-length n)

tally_ne : (n : ℕ) → str_eq (tally n) "" ≡ false
tally_ne zero = refl
tally_ne (suc n) = elim (Bool-cases (str_eq (tally (suc n)) "")) [
  | inl e ↦
      let p : tally (suc n) ≡ "" = ground (arith, eq_iff (tally (suc n)) "") in absurd (cons≢nil p)
  | inr e ↦ e
]

abbrev read : String → ℕ
read s = length (codes s) - 1

abbrev held : Option String → ℕ
held none = 0
held (some s) = read s

abbrev pub store : Redis (Dict String)
store = record {
  incr = λ k w. (ok (pos (suc (held (lookup k w)))), insert k (tally (suc (held (lookup k w)))) w);
  expire = λ k t w. (ok tt, w);
  set = λ k x t w. (ok tt, insert k x w);
  get = λ k w. (ok (lookup k w), w);
  delete = λ k w. (ok tt, erase k w);
  keys = λ p w. (ok (map (λ (e : String × String). e.0) w), w);
  int_of = λ s. ok (pos (read s));
  import_publisher = λ w. (err (runtime "no module"), w);
  publish = λ symbol action w. (err (runtime "no broker"), w);
}

held-Counts : (cell : Option String) (n : ℕ) → Counts tally cell n → held cell ≡ n
held-Counts cell n (inl (e, z)) = rw (e, z) refl
held-Counts cell n (inr e) = rw e (omega (arith, tally-length n))

abbrev store_laws : RedisLaws store
store_laws = record {
  cell = λ w k. lookup k w;
  number = tally;
  int_number = λ n. rw (tally-length n) (ap (λ (m : ℕ). ok (pos m)) (omega arith));
  number_ne = tally_ne;
  incr_lem = λ k n w small h.
      rw (held-Counts (lookup k w) n h) (refl, λ j. lookup-insert k j (tally (suc n)) w);
  expire_lem = λ k t w positive j. refl;
  set_lem = λ k x t w positive j. lookup-insert k j x w;
  get_lem = λ k w. refl;
  delete_lem = λ k w j. lookup-erase k j w;
  import_lem = λ j w. refl;
  publish_lem = λ symbol action j w. refl;
}

increment-Counted_example :
    Leads (increment_trigger_count store "ACME") [] (Counted store store_laws "ACME" 0 [])
increment-Counted_example =
    increment-Counted store store_laws "ACME" 0 [] (omega arith) (inl (unfold lookup in refl, refl))

get_status-times_example :
    (get_status store "ACME" (times store 6 "ACME" [])).0
    ≡ ok (record { symbol = "ACME"; status = "OPEN"; trigger_count = pos 6; threshold = 5 })
get_status-times_example =
    get_status-times store store_laws 6 "ACME" [] (omega arith) (unfold lookup in refl)
      (unfold lookup in refl)

close_circuit-status_example :
    (get_status store "ACME" ((close_circuit store "ACME" (times store 6 "ACME" [])).1)).0
    ≡ ok (record { symbol = "ACME"; status = "CLOSED"; trigger_count = pos 0; threshold = 5 })
close_circuit-status_example =
    close_circuit-status store store_laws "ACME" (times store 6 "ACME" [])

abbrev Verdict : Type 0
Verdict = RiskDecisionType × Bool

-- An event and an anomaly are numbers, a context says whether it is a sanctions hit, and the agent
-- of the decision is down.
abbrev services : Services (List ℕ) Fixed ℕ ℕ Bool ℕ Verdict ℕ
services = record {
  analyze = λ e w. (ok (some e), e ∷ w);
  flags = λ a. [];
  is_high_confidence_fraud = λ a. leb 9 a;
  gather_context = λ e flags w. (ok (some true), w);
  compliance_retrievals = λ c. [];
  sanctions_hit = λ c. c;
  make_decision = λ e a c w. (err (runtime "no model"), w);
  risk_decision = λ kind confidence reason human sanctions error. ok (kind, human);
  decision_type = λ d. d.0;
  requires_human_review = λ d. d.1;
  should_update_circuit_breaker = λ d. false;
  account_id = λ e. "ann";
  generate = λ e d c w. (ok 1, w);
  update_breaker = λ account d w. (ok tt, w);
  text = λ e. "error";
}

abbrev services_laws : DecisionLaws services
services_laws = record {
  type_made = λ k c reason human sanctions error d made.
      sym (ap (λ (v : Verdict). v.0) (ok-injective made));
  human_made = λ k c reason human sanctions error d made.
      sym (ap (λ (v : Verdict). v.1) (ok-injective made));
}
