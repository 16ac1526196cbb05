-- ===== src/Consumer.antt =====
-- ai_guardrail/aerorisk/consumer/kafka_consumer.py. The Kafka client is a record of operations on a
-- state `W`, and the handler a method on a state `H`, which both may raise. What the client answers
-- to `getone`, and whether another task calls `stop` meanwhile, is a sequence of rounds. The spans
-- of the tracer are left out, and the counters are the list of their increments.
pub mod Loop
pub mod Batch
pub mod Parser
use aero_risk_ai.Base.{
  ℕ, ◌+◌, String, Bool, true, false, not, ◌&&◌, List, [], ◌∷◌, ◌++◌, str_eq, if◌then◌else◌,
}
use aero_risk_ai.Base.Lists.{length}
use aero_risk_ai.Base.Outcome.{Outcome, ok, err, Error, runtime}
use aero_risk_ai.Base.Exec.{Exec, raise, continue, lift}

pub data Status : Type 0 where
  success failure : Status

pub record Kafka (W M E : Type 0) : Type 0 where
  -- AIOKafkaConsumer.start and stop
  pub connect : Exec W (Unit {0})
  pub disconnect : Exec W (Unit {0})
  -- The messages of each partition.
  pub getmany : Exec W (List (List M))
  -- `json.loads(msg.value.decode("utf-8"))`, and TransactionEvent.model_validate of it.
  pub parse : M → Outcome E
  -- `event.event_type.value`
  pub event_type : E → String

-- What `wait_for(getone(), 5.0)` gives.
pub data Poll (M : Type 0) : Type 0 where
  timed_out : Poll M
  nothing : Poll M
  message : M → Poll M
  failed : Error → Poll M

pub record Round (M : Type 0) : Type 0 where
  pub poll : Poll M
  -- Another task calls `stop` before the round ends.
  pub stops : Bool

-- `self.consumer` is set, and `self.running`.
pub record Consumer : Type 0 where
  pub created : Bool
  pub running : Bool

-- The handler's state, what the counter of processed events was told, and the seconds of backoff.
pub record Work (H : Type 0) : Type 0 where
  pub world : H
  pub counted : List (String × Status)
  pub slept : ℕ

abbrev pub timeout : Error
timeout = runtime "TimeoutError"

abbrev pub is_timeout : Error → Bool
is_timeout (runtime s) = str_eq s "TimeoutError"
is_timeout _ = false

module _ {W M E : Type 0} (kafka : Kafka W M E) where
  abbrev pub connected : Consumer → Outcome (Unit {0}) × W → Outcome (Unit {0}) × (W × Consumer)
  connected c (ok u, w) = (ok tt, (w, record { created = true; running = true }))
  connected c (err e, w) = (err e, (w, record c { created = true }))

  unfoldable pub start : Exec (W × Consumer) (Unit {0})
  start (w, c) = connected c (kafka.connect w)

  unfoldable pub stop : Exec (W × Consumer) (Unit {0})
  stop (w, c) =
      let stopped = record c { running = false } in
      let (r, w') = kafka.disconnect w in
      if c.created then (r, (w', stopped)) else (ok tt, (w, stopped))

  module _ {H : Type 0} (handle : E → Exec H (Unit {0})) where
    -- The inner `try`: a failure of the handler is counted and raised again.
    abbrev pub counted_as : E → Outcome (Unit {0}) × H → Work H → Outcome (Unit {0}) × Work H
    counted_as event (ok u, h) k = (
      ok tt,
      record k { world = h; counted = k.counted ++ (kafka.event_type event, success) ∷ [] },
    )
    counted_as event (err e, h) k = (
      err e,
      record k { world = h; counted = k.counted ++ (kafka.event_type event, failure) ∷ [] },
    )

    pub process : E → Exec (Work H) (Unit {0})
    process event k = counted_as event (handle event (k.world)) k

    -- The body of the outer `try`.
    pub attempt_round : Poll M → Exec (Work H) (Unit {0})
    unfolding process
    attempt_round timed_out k = (err timeout, k)
    attempt_round nothing k = (ok tt, k)
    attempt_round (message m) k = continue (kafka.parse m) process k
    attempt_round (failed e) k = (err e, k)

    -- The two `except` clauses: a timeout goes on at once, another error after a second.
    abbrev pub recovered : Outcome (Unit {0}) × Work H → Work H
    recovered (ok u, k) = k
    recovered (err e, k) = if is_timeout e then k else record k { slept = k.slept + 1 }

    pub round : Poll M → Work H → Work H
    unfolding attempt_round
    round poll k = recovered (attempt_round poll k)

    -- The loop over the rounds that the client has answered. It is over when the flag is false; when
    -- it is true, the loop waits for the next round.
    pub consume_rounds : List (Round M) → Bool → Work H → Bool × Work H
    unfolding round
    consume_rounds [] running k = (running, k)
    consume_rounds (r ∷ rs) running k =
        let rest = consume_rounds rs (not (r.stops)) (round (r.poll) k) in
        if running then rest else (false, k)

    unfoldable pub consume_loop : Consumer → List (Round M) → Work H → Outcome Bool × Work H
    unfolding consume_rounds
    consume_loop c rounds k =
        let (running, last) = consume_rounds rounds (c.running) k in
        if c.created then (ok running, last) else (err (runtime "Consumer not started"), k)

  -- The events that are parsed, up to the first message that is refused, and whether all were.
  abbrev pub event_before : Outcome E → Bool × List E → Bool × List E
  event_before (ok event) (complete, events) = (complete, event ∷ events)
  event_before (err e) rest = (false, [])

  pub parse_messages : List M → Bool × List E
  parse_messages [] = (true, [])
  parse_messages (m ∷ ms) = event_before (kafka.parse m) (parse_messages ms)

  -- The messages of all partitions, in the order of the two loops.
  pub all_messages : List (List M) → List M
  all_messages [] = []
  all_messages (ms ∷ rest) = ms ++ all_messages rest

  -- The sizes that the histogram of batches was told stand beside the client's state.
  abbrev pub batch_of : Outcome (List (List M)) × W → List ℕ → Outcome (List E) × (W × List ℕ)
  batch_of (err e, w) sizes = (ok [], (w, sizes))
  batch_of (ok partitions, w) sizes =
      let (complete, events) = parse_messages (all_messages partitions) in
      (ok events, (w, if complete then sizes ++ length events ∷ [] else sizes))

  pub process_batch : Consumer → Exec (W × List ℕ) (List E)
  unfolding parse_messages all_messages
  process_batch c (w, sizes) =
      let batch = batch_of (kafka.getmany w) sizes in
      if c.created then batch else (err (runtime "Consumer not started"), (w, sizes))
