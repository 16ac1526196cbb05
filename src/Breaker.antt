-- ===== src/Breaker.antt =====
-- ai_guardrail/aerorisk/agents/agent3_orchestrator/redis_writer.py. The clients of Redis and Kafka
-- are not in the repository: they are a record of operations on their state `R`, which may raise.
pub mod Trigger
pub mod Reset
use aero_risk_ai.Base.{
  ℕ, String, concat, Bool, true, false, not, Option, none, some, List, [], ◌∷◌, if◌then◌else◌,
  str_eq,
}
use aero_risk_ai.Base.Int.{ℤ, pos, negsuc, eqb_ℤ, ltb_ℤ}
use aero_risk_ai.Base.Outcome.{Outcome, ok, err}
use aero_risk_ai.Base.Exec.{Exec, pure, lift, attempt, ◌>>=◌, ◌>>◌}
use aero_risk_ai.Base.Text.{remove}

pub record Redis (R : Type 0) : Type 0 where
  pub incr : String → Exec R ℤ
  pub expire : String → ℕ → Exec R Unit
  -- The last argument is the expiry `ex` in seconds.
  pub set : String → String → Option ℕ → Exec R Unit
  pub get : String → Exec R (Option String)
  pub delete : String → Exec R Unit
  pub keys : String → Exec R (List String)
  -- `int(...)` of a text that Redis holds.
  pub int_of : String → Outcome ℤ
  -- The import of KafkaPublisher.
  pub import_publisher : Exec R Unit
  -- KafkaPublisher().publish of the symbol and the action.
  pub publish : String → String → Exec R Unit

pub record Status : Type 0 where
  pub symbol : String
  pub status : String
  pub trigger_count : ℤ
  pub threshold : ℕ

abbrev pub trigger_threshold : ℕ
trigger_threshold = 5

-- timedelta(minutes=5), in seconds.
abbrev pub open_duration : ℕ
open_duration = 300

pub prefix : String
prefix = "circuit_breaker:"

pub trigger_key : String → String
trigger_key symbol = concat prefix (concat symbol ":triggers")

pub status_key : String → String
status_key symbol = concat prefix (concat symbol ":status")

-- `status or "CLOSED"`
abbrev pub status_or_closed : Option String → String
status_or_closed none = "CLOSED"
status_or_closed (some s) = if str_eq s "" then "CLOSED" else s

module _ {R : Type 0} (redis : Redis R) where
  pub publish_circuit_event : String → String → Exec R Unit
  publish_circuit_event symbol action =
      redis.import_publisher >> attempt (redis.publish symbol action) tt

  pub write_open : String → Exec R Unit
  write_open symbol =
      redis.set (status_key symbol) "OPEN" (some open_duration)
      >> publish_circuit_event symbol "OPEN"

  pub open_circuit : String → Exec R Unit
  open_circuit symbol = attempt (write_open symbol) tt

  pub expire_first : String → ℤ → Exec R Unit
  expire_first key count = if eqb_ℤ count (pos 1) then redis.expire key open_duration else pure tt

  pub open_if_due : String → ℤ → Exec R Unit
  open_if_due symbol count =
      if ltb_ℤ count (pos trigger_threshold) then pure tt else open_circuit symbol

  pub after_count : String → ℤ → Exec R ℤ
  after_count symbol count = do
    expire_first (trigger_key symbol) count
    open_if_due symbol count
    pure count

  pub count_trigger : String → Exec R ℤ
  count_trigger symbol = redis.incr (trigger_key symbol) >>= after_count symbol

  pub increment_trigger_count : String → Exec R ℤ
  increment_trigger_count symbol = attempt (count_trigger symbol) (negsuc 0)

  pub write_closed : String → Exec R Unit
  write_closed symbol = do
    redis.set (status_key symbol) "CLOSED" none
    redis.delete (trigger_key symbol)
    publish_circuit_event symbol "CLOSED"

  pub close_circuit : String → Exec R Unit
  close_circuit symbol = attempt (write_closed symbol) tt

  -- `int(triggers) if triggers else 0`
  abbrev pub triggers_of : Option String → Outcome ℤ
  triggers_of none = ok (pos 0)
  triggers_of (some s) = if str_eq s "" then ok (pos 0) else redis.int_of s

  pub read_status : String → Exec R Status
  read_status name = do
    found ← redis.get (status_key name)
    triggers ← redis.get (trigger_key name)
    count ← lift (triggers_of triggers)
    pure (record {
      symbol = name;
      status = status_or_closed found;
      trigger_count = count;
      threshold = trigger_threshold;
    })

  pub error_status : String → Status
  error_status name = record {
    symbol = name;
    status = "ERROR";
    trigger_count = pos 0;
    threshold = trigger_threshold;
  }

  pub get_status : String → Exec R Status
  get_status name = attempt (read_status name) (error_status name)

  -- The symbol of a status key, as `key.replace` finds it.
  pub symbol_of : String → String
  symbol_of key = remove ":status" (remove prefix key)

  pub close_all : List String → Exec R Unit
  close_all [] = pure tt
  close_all (key ∷ keys) = close_circuit (symbol_of key) >> close_all keys

  pub reset_all : Exec R Unit
  reset_all = attempt (do keys ← redis.keys (concat prefix "*:status"); close_all keys) tt
