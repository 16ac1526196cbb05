-- ===== src/Consumer/Loop.antt =====
-- ai_guardrail/aerorisk/consumer/kafka_consumer.py: consume_loop.
use mathlib.Core.List.{append-nil, append_assoc}
use aero_risk_ai.Base.{
  String, ◌≡◌, refl, sym, ◌∙◌, true, false, not, List, [], ◌∷◌, ◌++◌, ap, inl, inr, Bool-cases,
  if◌then◌else◌,
}
use aero_risk_ai.Base.Lists.{any}
use aero_risk_ai.Base.Outcome.{Outcome, ok, err, err-ne-ok}
use aero_risk_ai.Base.Exec.{Exec, continue}
use aero_risk_ai.Consumer.{
  Status, success, failure, Kafka, Poll, timed_out, nothing, message, failed, Round, Consumer, Work,
  is_timeout, timeout, recovered, counted_as, process, round, consume_rounds, consume_loop, start,
  stop, connected,
}

module _ {W M E : Type 0} (kafka : Kafka W M E) where
  abbrev pub parsed : Outcome E → List E
  parsed (ok event) = event ∷ []
  parsed (err e) = []

  -- The event of a round, if a message has come and is one.
  abbrev pub event_of : Poll M → List E
  event_of (message m) = parsed (kafka.parse m)
  event_of timed_out = []
  event_of nothing = []
  event_of (failed e) = []

  -- The events of the rounds up to the one in which `stop` is called, that one included.
  abbrev pub delivered : List (Round M) → List E
  delivered [] = []
  delivered (r ∷ rs) = event_of (r.poll) ++ (if r.stops then [] else delivered rs)

  module _ {H : Type 0} (handle : E → Exec H (Unit {0})) where
    -- The handler on each event, in order, whether it raises or not.
    abbrev pub serve : List E → H → H
    serve [] h = h
    serve (event ∷ events) h = serve events ((handle event h).1)

    abbrev pub status_of : Outcome (Unit {0}) → Status
    status_of (ok u) = success
    status_of (err e) = failure

    abbrev pub statuses : List E → H → List (String × Status)
    statuses [] h = []
    statuses (event ∷ events) h =
        (kafka.event_type event, status_of ((handle event h).0))
        ∷ statuses events ((handle event h).1)

    abbrev pub IsServed : List E → Work H → Work H → Type 0
    IsServed events k last =
        (last.world ≡ serve events (k.world))
        × (last.counted ≡ k.counted ++ statuses events (k.world))

    none-IsServed : (k : Work H) → IsServed [] k k
    none-IsServed k = (refl, sym (append-nil (k.counted)))

    recovered-IsServed :
        (events : List E) (k : Work H) (r : Outcome (Unit {0})) (last : Work H)
        → IsServed events k last
        → IsServed events k (recovered kafka handle (r, last))
    recovered-IsServed events k (ok u) last h = h
    recovered-IsServed events k (err e) last h = elim (Bool-cases (is_timeout e)) [
      | inl t ↦ rw t h
      | inr f ↦ rw f h
    ]

    counted_as-IsServed :
        (event : E) (k : Work H) (r : Outcome (Unit {0})) (h : H)
        → let after = (counted_as kafka handle event (r, h) k).1 in
          (after.world ≡ h)
          × (after.counted ≡ k.counted ++ (kafka.event_type event, status_of r) ∷ [])
    counted_as-IsServed event k (ok u) h = (refl, refl)
    counted_as-IsServed event k (err e) h = (refl, refl)

    process-IsServed :
        (r : Outcome E) (k : Work H)
        → IsServed (parsed r) k ((continue r (process kafka handle) k).1)
    unfolding process
    process-IsServed (err e) k = (refl, sym (append-nil (k.counted)))
    process-IsServed (ok event) k =
        let (r, h) = handle event (k.world) in counted_as-IsServed event k r h

    round-IsServed :
        (poll : Poll M) (k : Work H) → IsServed (event_of poll) k (round kafka handle poll k)
    unfolding round
    round-IsServed timed_out k = recovered-IsServed [] k (err timeout) k (none-IsServed k)
    round-IsServed nothing k = none-IsServed k
    round-IsServed (failed e) k = recovered-IsServed [] k (err e) k (none-IsServed k)
    round-IsServed (message m) k =
        let (r, last) = continue (kafka.parse m) (process kafka handle) k in
        recovered-IsServed (parsed (kafka.parse m)) k r last (process-IsServed (kafka.parse m) k)

    serve-append : (xs ys : List E) (h : H) → serve (xs ++ ys) h ≡ serve ys (serve xs h)
    serve-append [] ys h = refl
    serve-append (x ∷ xs) ys h = serve-append xs ys ((handle x h).1)

    statuses-append :
        (xs ys : List E) (h : H) → statuses (xs ++ ys) h ≡ statuses xs h ++ statuses ys (serve xs h)
    statuses-append [] ys h = refl
    statuses-append (x ∷ xs) ys h = rw (statuses-append xs ys ((handle x h).1)) refl

    IsServed-append :
        (xs ys : List E) (k mid last : Work H)
        → IsServed xs k mid
        → IsServed ys mid last
        → IsServed (xs ++ ys) k last
    IsServed-append xs ys k mid last (w, c) (w', c') = (
      w' ∙ ap (serve ys) w ∙ sym (serve-append xs ys (k.world)),
      c'
          ∙ rw (c, w, statuses-append xs ys (k.world))
              (append_assoc (k.counted) (statuses xs (k.world)) (statuses ys (serve xs (k.world)))),
    )

    stopped-IsServed :
        (rs : List (Round M)) (k : Work H) → consume_rounds kafka handle rs false k ≡ (false, k)
    unfolding consume_rounds
    stopped-IsServed [] k = refl
    stopped-IsServed (r ∷ rs) k = refl

    consume_rounds-IsServed :
        (rs : List (Round M)) (k : Work H)
        → let (running, last) = consume_rounds kafka handle rs true k in
          (running ≡ not (any (λ (r : Round M). r.stops) rs)) × IsServed (delivered rs) k last
    unfolding consume_rounds
    consume_rounds-IsServed [] k = (refl, none-IsServed k)
    consume_rounds-IsServed (r ∷ rs) k =
        let mid = round kafka handle (r.poll) k in
        let first = round-IsServed (r.poll) k in
        elim (Bool-cases (r.stops)) [
          | inl e ↦
              rw (e, stopped-IsServed rs mid)
                (refl, IsServed-append (event_of (r.poll)) [] k mid mid first (none-IsServed mid))
          | inr e ↦
              let (flag, later) = consume_rounds-IsServed rs mid in
              rw e (
                flag,
                IsServed-append (event_of (r.poll)) (delivered rs) k mid
                    ((consume_rounds kafka handle rs true mid).1) first later,
              )
        ]

    connected-runs :
        (c : Consumer) (r : Outcome (Unit {0})) (w : W)
        → (connected kafka c (r, w)).0 ≡ ok tt
        → (connected kafka c (r, w)).1.1 ≡ record { created = true; running = true }
    connected-runs c (ok u) w h = refl
    connected-runs c (err e) w h = absurd (err-ne-ok h)

    -- Once the consumer has started, the loop hands every well-formed message to the handler, once
    -- and in order, up to the round in which `stop` is called, whatever times out, fails, cannot be
    -- parsed or makes the handler raise in between; it counts each by what the handler did; and it
    -- ends exactly if `stop` is called. A loop that is entered after `stop` ends at once, also
    -- if the client could not be stopped.
    pub consume_loop-serves :
        (w v : W) (c : Consumer) (rounds : List (Round M)) (k : Work H)
        → (start kafka (w, c)).0 ≡ ok tt
        → let c' = (start kafka (w, c)).1.1 in
          let (answer, last) = consume_loop kafka handle c' rounds k in
          (answer ≡ ok (not (any (λ (x : Round M). x.stops) rounds)))
          × IsServed (delivered rounds) k last
          × (consume_loop kafka handle ((stop kafka (v, c')).1.1) rounds k ≡ (ok false, k))
    unfolding consume_loop start stop
    consume_loop-serves w v c rounds k h =
        let (r, w') = kafka.connect w in
        let (flag, served) = consume_rounds-IsServed rounds k in
        rw (connected-runs c r w' h) (ap ok flag, served, rw (stopped-IsServed rounds k) refl)
