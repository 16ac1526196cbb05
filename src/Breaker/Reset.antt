-- ===== src/Breaker/Reset.antt =====
-- ai_guardrail/aerorisk/agents/agent3_orchestrator/redis_writer.py: the status that is read after
-- triggers and after a close, on a Redis that answers as documented.
use aero_risk_ai.Base.{
  ◌<◌, ◌^◌, ℕ, zero, suc, String, ◌≡◌, refl, ap, ◌∙◌, inl, inr, true, Option, none, some, arith,
  leb, str_eq, eq_iff, if◌then◌else◌, Bool-cases,
}
use aero_risk_ai.Base.Int.{ℤ, pos}
use aero_risk_ai.Base.Outcome.{Outcome, ok, err}
use aero_risk_ai.Base.Exec.{◌>>◌, Leads, Holds, Leads-last}
use aero_risk_ai.Breaker.{
  Redis, Status, trigger_key, status_key, status_or_closed, triggers_of, publish_circuit_event,
  increment_trigger_count, close_circuit, write_closed, read_status, get_status,
}
use aero_risk_ai.Breaker.Trigger.{
  RedisLaws, Counts, Counted, opened_at, keys_ne, publish-Same, increment-Counted, Sets,
}

-- Any number of triggers in a row.
pub times : {R : Type 0} → Redis R → ℕ → String → R → R
times redis zero symbol w = w
times redis (suc n) symbol w = (increment_trigger_count redis symbol (times redis n symbol w)).1

module _ {R : Type 0} (redis : Redis R) (laws : RedisLaws redis) where
  abbrev pub status_at : String → Option String → ℕ → Status
  status_at name found n = record {
    symbol = name;
    status = status_or_closed found;
    trigger_count = pos n;
    threshold = 5;
  }

  triggers_of-Counts :
      (cell : Option String) (n : ℕ)
      → Counts laws.number cell n
      → triggers_of redis cell ≡ ok (pos n)
  triggers_of-Counts cell n (inl (e, z)) = rw (e, z) refl
  triggers_of-Counts cell n (inr e) = rw (e, laws.number_ne n) (laws.int_number n)

  pub get_status-Counts :
      (symbol : String) (n : ℕ) (w : R)
      → Counts laws.number (laws.cell w (trigger_key symbol)) n
      → get_status redis symbol w ≡ (ok (status_at symbol (laws.cell w (status_key symbol)) n), w)
  unfolding get_status read_status
  get_status-Counts symbol n w h =
      rw
        (
          laws.get_lem (status_key symbol) w,
          laws.get_lem (trigger_key symbol) w,
          triggers_of-Counts (laws.cell w (trigger_key symbol)) n h,
        )
        refl

  -- What `n` triggers in a row leave, from a symbol that Redis holds nothing of.
  abbrev AtCount : ℕ → String → R → Type 0
  AtCount n symbol w =
      Counts laws.number (laws.cell w (trigger_key symbol)) n
      × (laws.cell w (status_key symbol) ≡ opened_at redis laws n none)

  step :
      (r : Outcome ℤ) (n : ℕ) (symbol : String) (w v : R)
      → AtCount n symbol w
      → Holds r v (Counted redis laws symbol n w)
      → AtCount (suc n) symbol v
  step (ok c) n symbol w v (a, b) (p, q, s, t) = (inr q, ground (arith, b, s))
  step (err e) n symbol w v h k = elim k [ ]

  times-AtCount :
      (n : ℕ) (symbol : String) (w : R)
      → n < 2 ^ 63
      → AtCount 0 symbol w
      → AtCount n symbol (times redis n symbol w)
  unfolding times
  times-AtCount zero symbol w small h = h
  times-AtCount (suc n) symbol w small h =
      let k = times-AtCount n symbol w (omega arith) h in
      let v = times redis n symbol w in
      step ((increment_trigger_count redis symbol v).0) n symbol v
        ((increment_trigger_count redis symbol v).1) k
        (increment-Counted redis laws symbol n v small (k.0))

  -- After any number of triggers below 2 ^ 63 of a symbol that Redis held nothing of, and before a key expires,
  -- its status reads as that number of triggers, and as OPEN exactly from five triggers on.
  pub get_status-times :
      (n : ℕ) (symbol : String) (w : R)
      → n < 2 ^ 63
      → laws.cell w (trigger_key symbol) ≡ none
      → laws.cell w (status_key symbol) ≡ none
      → (get_status redis symbol (times redis n symbol w)).0
        ≡ ok (record {
          symbol = symbol;
          status = if leb 5 n then "OPEN" else "CLOSED";
          trigger_count = pos n;
          threshold = 5;
        })
  get_status-times n symbol w small a b =
      let (h, k) = times-AtCount n symbol w small (inl (a, refl), ground (arith, b)) in
      ap (λ (r : Outcome Status × R). r.0) (get_status-Counts symbol n (times redis n symbol w) h)
      ∙ ap (λ (c : Option String). ok (status_at symbol c n)) k
      ∙ elim (Bool-cases (leb 5 n)) [ inl e ↦ rw e refl | inr e ↦ rw e refl ]

  abbrev pub IsReset : String → Unit {0} → R → Type 0
  IsReset symbol u v =
      (laws.cell v (trigger_key symbol) ≡ none) × (laws.cell v (status_key symbol) ≡ some "CLOSED")

  reset :
      (symbol : String) (w v x : R)
      → Sets redis laws (status_key symbol) (some "CLOSED") w v
      → Sets redis laws (trigger_key symbol) none v x
      → IsReset symbol tt ((publish_circuit_event redis symbol "CLOSED" x).1)
  reset symbol w v x a b =
      let p = publish-Same redis laws symbol "CLOSED" x in
      let t = trigger_key symbol in
      let k = status_key symbol in
      let ne = keys_ne symbol in
      let same : str_eq t t ≡ true = ground (arith, eq_iff t t) in
      let also : str_eq k k ≡ true = ground (arith, eq_iff k k) in
      (ground (arith, p t, a t, b t), ground (arith, p k, a k, b k))

  pub close_circuit-IsReset :
      (symbol : String) (w : R) → Leads (close_circuit redis symbol) w (IsReset symbol)
  unfolding close_circuit write_closed
  close_circuit-IsReset symbol w =
      Leads-last (λ u v. Sets redis laws (status_key symbol) (some "CLOSED") w v)
        (λ v. IsReset symbol tt v) (redis.set (status_key symbol) "CLOSED" none)
        (λ u. redis.delete (trigger_key symbol) >> publish_circuit_event redis symbol "CLOSED") w
        (laws.set_lem (status_key symbol) "CLOSED" none w tt)
        (λ u v a.
          Leads-last (λ y x. Sets redis laws (trigger_key symbol) none v x)
            (λ v. IsReset symbol tt v) (redis.delete (trigger_key symbol))
            (λ y. publish_circuit_event redis symbol "CLOSED") v
            (laws.delete_lem (trigger_key symbol) v) (λ y x b. reset symbol w v x a b))

  status_of-IsReset :
      (symbol : String) (r : Outcome Unit) (v : R)
      → Holds r v (IsReset symbol)
      → (get_status redis symbol v).0
        ≡ ok (record { symbol = symbol; status = "CLOSED"; trigger_count = pos 0; threshold = 5 })
  status_of-IsReset symbol (ok u) v (a, b) =
      ap (λ (r : Outcome Status × R). r.0) (get_status-Counts symbol 0 v (inl (a, refl)))
      ∙ ap (λ (c : Option String). ok (status_at symbol c 0)) b
  status_of-IsReset symbol (err e) v h = elim h [ ]

  -- After a close the status reads as CLOSED with no triggers, whatever Redis held.
  pub close_circuit-status :
      (symbol : String) (w : R)
      → (get_status redis symbol ((close_circuit redis symbol w).1)).0
        ≡ ok (record { symbol = symbol; status = "CLOSED"; trigger_count = pos 0; threshold = 5 })
  close_circuit-status symbol w =
      status_of-IsReset symbol ((close_circuit redis symbol w).0) ((close_circuit redis symbol w).1)
        (close_circuit-IsReset symbol w)
