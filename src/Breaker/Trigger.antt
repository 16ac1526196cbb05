-- ===== src/Breaker/Trigger.antt =====
-- ai_guardrail/aerorisk/agents/agent3_orchestrator/redis_writer.py: counting triggers, on a Redis
-- that answers as documented.
use mathlib.Core.Path.{subst}
use text.Mathlib.TextLemmas.{append_cancel_left}
use aero_risk_ai.Base.{
  ◌||◌, ◌<◌, ◌^◌, ℕ, suc, String, concat, ◌≡◌, refl, sym, ap, ◌∙◌, ◌⊎◌, inl, inr, true, false,
  Option, none, some, arith, leb, str_eq, eq_iff, if◌then◌else◌, Bool-cases,
}
use aero_risk_ai.Base.Int.{ℤ, pos, negsuc, eqb_ℤ, ltb_ℤ}
use aero_risk_ai.Base.Outcome.{ok}
use aero_risk_ai.Base.Outcome.{Outcome, ok, err}
use aero_risk_ai.Base.Exec.{
  pure, ◌>>◌, Leads, Leads-bind, Leads-last, attempt, continue, Leads-attempt,
}
use aero_risk_ai.Breaker.{
  Redis, trigger_key, status_key, prefix, publish_circuit_event, open_circuit, write_open,
  expire_first, open_if_due, after_count, count_trigger, increment_trigger_count,
}

-- A count of triggers as Redis holds it: no key, or a decimal number.
abbrev pub Counts : (ℕ → String) → Option String → ℕ → Type 0
Counts number cell n = ((cell ≡ none) × (n ≡ 0)) ⊎ (cell ≡ some (number n))

-- The times that Redis takes for a key to expire.
abbrev pub IsTime : Option ℕ → Type 0
IsTime none = Unit
IsTime (some t) = 0 < t

-- What Redis documents of its commands, where none fails, until a key expires, a count is an integer
-- of 64 bits and a time is positive; `cell` is what a key
-- holds, and `number` the decimal text of a number. A publication leaves Redis as it is.
pub record RedisLaws {R : Type 0} (redis : Redis R) : Type 0 where
  pub cell : R → String → Option String
  pub number : ℕ → String
  pub int_number : (n : ℕ) → redis.int_of (number n) ≡ ok (pos n)
  pub number_ne : (n : ℕ) → str_eq (number n) "" ≡ false
  pub incr_lem :
      (k : String) (n : ℕ) (w : R)
      → suc n < 2 ^ 63
      → Counts number (cell w k) n
      → Leads (redis.incr k) w (λ c v.
        (c ≡ pos (suc n))
        × ((j : String) → cell v j ≡ (if str_eq k j then some (number (suc n)) else cell w j)))
  pub expire_lem :
      (k : String) (t : ℕ) (w : R)
      → 0 < t
      → Leads (redis.expire k t) w (λ u v. (j : String) → cell v j ≡ cell w j)
  pub set_lem :
      (k x : String) (t : Option ℕ) (w : R)
      → IsTime t
      → Leads
          (redis.set k x t)
          w
          (λ u v. (j : String) → cell v j ≡ (if str_eq k j then some x else cell w j))
  pub get_lem : (k : String) (w : R) → redis.get k w ≡ (ok (cell w k), w)
  pub delete_lem :
      (k : String) (w : R)
      → Leads
          (redis.delete k)
          w
          (λ u v. (j : String) → cell v j ≡ (if str_eq k j then none else cell w j))
  pub import_lem : (j : String) (w : R) → cell ((redis.import_publisher w).1) j ≡ cell w j
  pub publish_lem :
      (symbol action j : String) (w : R) → cell ((redis.publish symbol action w).1) j ≡ cell w j

pub keys_ne : (symbol : String) → str_eq (trigger_key symbol) (status_key symbol) ≡ false
unfolding trigger_key status_key prefix
keys_ne symbol = elim (Bool-cases (str_eq (trigger_key symbol) (status_key symbol))) [
  | inl e ↦
      let path : trigger_key symbol ≡ status_key symbol =
        ground (arith, eq_iff (trigger_key symbol) (status_key symbol)) in
      absurd (
        ground (
          arith,
          eq_iff ":triggers" ":status",
          append_cancel_left symbol ":triggers" ":status" (
              append_cancel_left prefix (concat symbol ":triggers") (concat symbol ":status") path),
        ))
  | inr e ↦ e
]

-- Counting a trigger always returns, whatever Redis does.
pub increment-Leads :
    {R : Type 0} (redis : Redis R) (symbol : String) (w : R)
    → Leads (increment_trigger_count redis symbol) w (λ n v. Unit)
unfolding increment_trigger_count
increment-Leads redis symbol w = tt

module _ {R : Type 0} (redis : Redis R) (laws : RedisLaws redis) where
  -- The status that `n` triggers leave, where it was `old`.
  abbrev pub opened_at : ℕ → Option String → Option String
  opened_at n old = if leb 5 n then some "OPEN" else old

  -- Only the key `k` is written, with `x`.
  abbrev pub Sets : String → Option String → R → R → Type 0
  Sets k x w v = (j : String) → laws.cell v j ≡ (if str_eq k j then x else laws.cell w j)

  abbrev pub Same : R → R → Type 0
  Same w v = (j : String) → laws.cell v j ≡ laws.cell w j

  after_import :
      (symbol action : String) (r : Outcome Unit) (v : R)
      → Same v ((continue r (λ u. attempt (redis.publish symbol action) tt) v).1)
  after_import symbol action (ok u) v = λ j. laws.publish_lem symbol action j v
  after_import symbol action (err e) v = λ j. refl

  -- An event that is published, or fails to be, leaves Redis as it is.
  pub publish-Same :
      (symbol action : String) (w : R) → Same w ((publish_circuit_event redis symbol action w).1)
  unfolding publish_circuit_event
  publish-Same symbol action w j =
      after_import symbol action ((redis.import_publisher w).0) ((redis.import_publisher w).1) j
      ∙ laws.import_lem j w

  open_circuit-Leads :
      (symbol : String) (w : R)
      → Leads (open_circuit redis symbol) w (λ u v. Sets (status_key symbol) (some "OPEN") w v)
  unfolding open_circuit write_open
  open_circuit-Leads symbol w =
      Leads-last (λ u v. Sets (status_key symbol) (some "OPEN") w v)
        (λ v. Sets (status_key symbol) (some "OPEN") w v)
        (redis.set (status_key symbol) "OPEN" (some 300))
        (λ u. publish_circuit_event redis symbol "OPEN") w
        (laws.set_lem (status_key symbol) "OPEN" (some 300) w (omega arith))
        (λ u v h j. publish-Same symbol "OPEN" v j ∙ h j)

  expire_first-Leads :
      (k : String) (n : ℤ) (w : R) → Leads (expire_first redis k n) w (λ u v. Same w v)
  unfolding expire_first
  expire_first-Leads k n w = elim (Bool-cases (eqb_ℤ n (pos 1))) [
    | inl e ↦ rw e (laws.expire_lem k 300 w (omega arith))
    | inr e ↦ rw e (λ j. refl)
  ]

  keep-Sets :
      (k j : String) (w : R) → laws.cell w j ≡ (if str_eq k j then laws.cell w k else laws.cell w j)
  keep-Sets k j w = elim (Bool-cases (str_eq k j)) [
    | inl e ↦ let p : k ≡ j = ground (arith, eq_iff k j) in rw e (ap (laws.cell w) (sym p))
    | inr e ↦ rw e refl
  ]

  open_if_due-Leads :
      (symbol : String) (n : ℕ) (w : R)
      → Leads
          (open_if_due redis symbol (pos n))
          w
          (λ u v. Sets (status_key symbol) (opened_at n (laws.cell w (status_key symbol))) w v)
  unfolding open_if_due
  open_if_due-Leads symbol n w = elim (Bool-cases (leb 5 n)) [
    | inl e ↦
        let due : ltb_ℤ (pos n) (pos 5) ≡ false = ground arith in
        rw (e, due) (open_circuit-Leads symbol w)
    | inr e ↦
        let due : ltb_ℤ (pos n) (pos 5) ≡ true = ground arith in
        rw (e, due) (λ j. keep-Sets (status_key symbol) j w)
  ]

  -- A trigger is counted: the new count is returned and held, the status is OPEN from the fifth
  -- trigger on and stays as it is before it, and no other key is written.
  abbrev pub Counted : String → ℕ → R → ℤ → R → Type 0
  Counted symbol n w c v =
      (c ≡ pos (suc n))
      × (laws.cell v (trigger_key symbol) ≡ some (laws.number (suc n)))
      × (laws.cell v (status_key symbol) ≡ opened_at (suc n) (laws.cell w (status_key symbol)))
      × ((j : String)
          → ((str_eq (trigger_key symbol) j || str_eq (status_key symbol) j) ≡ true)
            ⊎ (laws.cell v j ≡ laws.cell w j))

  counted :
      (symbol : String) (n : ℕ) (w v u x : R)
      → Sets (trigger_key symbol) (some (laws.number (suc n))) w v
      → Same v u
      → Sets (status_key symbol) (opened_at (suc n) (laws.cell u (status_key symbol))) u x
      → Counted symbol n w (pos (suc n)) x
  counted symbol n w v u x a b c =
      let t = trigger_key symbol in
      let k = status_key symbol in
      let ne = keys_ne symbol in
      let tt_eq : str_eq t t ≡ true = ground (arith, eq_iff t t) in
      let kk : str_eq k k ≡ true = ground (arith, eq_iff k k) in
      let kt : str_eq k t ≡ false = ground (arith, eq_iff k t, eq_iff t k) in
      (
        refl,
        ground (arith, a t, b t, c t),
        ground (arith, a k, b k, c k),
        λ j. ground (arith, a j, b j, c j),
      )

  after_count-Counted :
      (symbol : String) (n : ℕ) (w v : R)
      → Sets (trigger_key symbol) (some (laws.number (suc n))) w v
      → Leads (after_count redis symbol (pos (suc n))) v (Counted symbol n w)
  unfolding after_count
  after_count-Counted symbol n w v a =
      Leads-bind (λ z u. Same v u) (Counted symbol n w)
        (expire_first redis (trigger_key symbol) (pos (suc n)))
        (λ z. open_if_due redis symbol (pos (suc n)) >> pure (pos (suc n))) v
        (expire_first-Leads (trigger_key symbol) (pos (suc n)) v)
        (λ z u b.
          Leads-bind
            (λ y x.
              Sets (status_key symbol) (opened_at (suc n) (laws.cell u (status_key symbol))) u x)
            (Counted symbol n w) (open_if_due redis symbol (pos (suc n))) (λ y. pure (pos (suc n)))
            u (open_if_due-Leads symbol (suc n) u) (λ y x c. counted symbol n w v u x a b c))

  -- On a Redis that holds a count of `n` triggers of a symbol, with n + 1 below 2 ^ 63, one more trigger returns n + 1 and
  -- is held as n + 1. The status is OPEN from the fifth trigger on and stays as it is before it,
  -- and no other key is written.
  pub increment-Counted :
      (symbol : String) (n : ℕ) (w : R)
      → suc n < 2 ^ 63
      → Counts laws.number (laws.cell w (trigger_key symbol)) n
      → Leads (increment_trigger_count redis symbol) w (Counted symbol n w)
  unfolding increment_trigger_count count_trigger
  increment-Counted symbol n w small h =
      Leads-attempt (Counted symbol n w) (count_trigger redis symbol) (negsuc 0) w (
        Leads-bind
          (λ c v. (c ≡ pos (suc n)) × Sets (trigger_key symbol) (some (laws.number (suc n))) w v)
          (Counted symbol n w) (redis.incr (trigger_key symbol)) (after_count redis symbol) w
          (laws.incr_lem (trigger_key symbol) n w small h)
          (λ c v a.
            subst (λ (d : ℤ). Leads (after_count redis symbol d) v (Counted symbol n w)) (sym (a.0))
              (after_count-Counted symbol n w v (a.1))))
