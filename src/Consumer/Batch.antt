-- ===== src/Consumer/Batch.antt =====
-- ai_guardrail/aerorisk/consumer/kafka_consumer.py: process_batch.
use aero_risk_ai.Base.{
  ℕ, ◌≡◌, refl, ap, ◌⊎◌, inl, inr, Bool, true, false, List, [], ◌∷◌, ◌++◌, map, if◌then◌else◌,
}
use aero_risk_ai.Base.Lists.{length}
use aero_risk_ai.Base.Outcome.{Outcome, ok, err, Error}
use aero_risk_ai.Consumer.{
  Kafka, Consumer, event_before, parse_messages, all_messages, batch_of, process_batch,
}

module _ {W M E : Type 0} (kafka : Kafka W M E) where
  -- The events are those of the messages, all or up to one that is refused.
  abbrev pub IsParsed : List M → Bool × List E → Type 0
  IsParsed ms (complete, events) =
      ((complete ≡ true) × (map (kafka.parse) ms ≡ map ok events))
      ⊎ ((complete ≡ false)
          × (refused : M) × (why : Error) × (before : List M) × (after : List M) × (ms
              ≡ before ++ refused ∷ after)
          × (kafka.parse refused ≡ err why)
          × (map (kafka.parse) before ≡ map ok events))

  event_before-IsParsed :
      (r : Outcome E) (m : M) (ms : List M) (rest : Bool × List E)
      → kafka.parse m ≡ r
      → IsParsed ms rest
      → IsParsed (m ∷ ms) (event_before kafka r rest)
  event_before-IsParsed (err why) m ms rest e h = inr (refl, m, why, [], ms, refl, e, refl)
  event_before-IsParsed (ok event) m ms (complete, events) e (inl (all, same)) =
      inl (all, rw (e, same) refl)
  event_before-IsParsed (ok event) m ms (complete, events) e
        (inr (part, refused, why, before, after, splits, bad, same)) =
      inr (
        part,
        refused,
        why,
        m ∷ before,
        after,
        ap (λ (x : List M). m ∷ x) splits,
        bad,
        rw (e, same) refl,
      )

  parse_messages-IsParsed : (ms : List M) → IsParsed ms (parse_messages kafka ms)
  unfolding parse_messages
  parse_messages-IsParsed [] = inl (refl, refl)
  parse_messages-IsParsed (m ∷ ms) =
      event_before-IsParsed (kafka.parse m) m ms (parse_messages kafka ms) refl
        (parse_messages-IsParsed ms)

  -- A batch holds the events of the polled messages in order, up to the first that is refused, and
  -- its size is observed exactly if none is; where the poll raises it is empty.
  abbrev pub IsBatch :
      Outcome (List (List M)) × W → List ℕ → Outcome (List E) × (W × List ℕ) → Type 0
  IsBatch (err e, w) sizes r = r ≡ (ok [], (w, sizes))
  IsBatch (ok partitions, w) sizes r =
      (complete : Bool) × (events : List E) × (r
        ≡ (ok events, (w, if complete then sizes ++ length events ∷ [] else sizes)))
      × IsParsed (all_messages kafka partitions) (complete, events)

  batch_of-IsBatch :
      (polled : Outcome (List (List M)) × W) (sizes : List ℕ)
      → IsBatch polled sizes (batch_of kafka polled sizes)
  batch_of-IsBatch (err e, w) sizes = refl
  batch_of-IsBatch (ok partitions, w) sizes =
      let ms = all_messages kafka partitions in
      ((parse_messages kafka ms).0, (parse_messages kafka ms).1, refl, parse_messages-IsParsed ms)

  pub process_batch-IsBatch :
      (c : Consumer) (w : W) (sizes : List ℕ)
      → c.created ≡ true
      → IsBatch (kafka.getmany w) sizes (process_batch kafka c (w, sizes))
  unfolding process_batch
  process_batch-IsBatch c w sizes h = rw h (batch_of-IsBatch (kafka.getmany w) sizes)
