-- ===== src/Anomaly/Spoofing/Verdict.antt =====
-- What `check` of spoofing_hmm.py answers for each action of an event.
use mathlib.Core.Path.{ap₂}
use text.Mathlib.TextPositions.{eq_refl}
use aero_risk_ai.Base.{
  ℕ, ◌+◌, ◌<◌, ◌^◌, String, ◌≡◌, refl, ap, ◌∙◌, ◌⊎◌, Bool, true, false, not, ◌&&◌, Option, none,
  some, List, [], ◌∷◌, arith, ltb, if◌then◌else◌, Bool-cases, inl, inr,
}
use aero_risk_ai.Base.Int.{ℤ, pos, max_ℤ}
use aero_risk_ai.Base.Lists.{length, count, count-le-length}
use aero_risk_ai.Base.Dict.{Dict, lookup, get_or, lookup-insert}
use aero_risk_ai.Base.Outcome.{Outcome, ok, err, overflow}
use aero_risk_ai.Base.Float.{Float, FloatLaws, InUnit, ◌≺◌, lit-InUnit, min_f-InUnit}
use aero_risk_ai.Models.Event.{OrderEvent, OrderAction, submit, cancel, fill, modify}
use aero_risk_ai.Models.Anomaly.{AnomalyResult, new_result, new_result-ok}
use aero_risk_ai.Anomaly.Spoofing.{
  OrderLifecycle, SpoofingDetector, was_cancelled, count_cancelled, rate_among,
  calculate_cancellation_rate, clean, submission, fill_ratio, lifetime_of, is_suspicious,
  judge_with, report, severity, judge_cancel, mark_cancelled, fill_known, on_fill, on_cancel,
  dispatch, check,
}

module _ {F : Type 0} where
  abbrev pub cancelled_in : Dict (OrderLifecycle F) → String → Bool
  cancelled_in lives oid = was_cancelled (lookup oid lives)

  count_cancelled-eq :
      (lives : Dict (OrderLifecycle F)) (ids : List String) (n : ℕ)
      → count_cancelled lives ids n ≡ n + count (cancelled_in lives) ids
  unfolding count_cancelled
  count_cancelled-eq lives [] n = omega arith
  count_cancelled-eq lives (oid ∷ ids) n = elim (Bool-cases (cancelled_in lives oid)) [
    | inl hit ↦ rw hit (omega (arith, count_cancelled-eq lives ids (n + 1)))
    | inr miss ↦ rw miss (omega (arith, count_cancelled-eq lives ids n))
  ]

module _ {F : Type 0} ⦃fl : Float F⦄ (laws : FloatLaws F) where
  rate_among-eq :
      (lives : Dict (OrderLifecycle F)) (oid : String) (ids : List String)
      → rate_among lives (oid ∷ ids)
        ≡ fl.div_int (pos (count (cancelled_in lives) (oid ∷ ids))) (pos (length (oid ∷ ids)))
  unfolding rate_among
  rate_among-eq lives oid ids =
      let n = length (oid ∷ ids) in
      let top : max_ℤ (pos n) (pos 1) ≡ pos n = ground arith in
      let all : count_cancelled lives (oid ∷ ids) 0 ≡ count (cancelled_in lives) (oid ∷ ids) =
        omega (arith, count_cancelled-eq lives (oid ∷ ids) 0) in
      ap₂ (λ (c : ℕ) (z : ℤ). fl.div_int (pos c) z) all top

  rate_among-InUnit :
      (lives : Dict (OrderLifecycle F)) (ids : List String)
      → let r : F = rate_among lives ids in InUnit r
  rate_among-InUnit lives [] = unfold rate_among in lit-InUnit laws 0 1 (omega arith) (omega arith)
  rate_among-InUnit lives (oid ∷ ids) =
      let c = count (cancelled_in lives) (oid ∷ ids) in
      let n = length (oid ∷ ids) in
      rw (rate_among-eq lives oid ids) (
        laws.int_nonneg c n (omega arith),
        laws.int_le_one c n (omega arith) (count-le-length (cancelled_in lives) (oid ∷ ids)),
      )

  severity-InUnit :
      (threshold rate : F) → InUnit rate → let s : F = severity threshold rate in InUnit s
  unfolding severity
  severity-InUnit t r h = elim (Bool-cases (fl.lt t r)) [
    | inl e ↦ rw e (min_f-InUnit laws r h.0)
    | inr e ↦ rw e (lit-InUnit laws 0 1 (omega arith) (omega arith))
  ]

  -- The filled part of an order, whose quantity counts as one at least.
  abbrev pub ratio_of : OrderLifecycle F → F
  ratio_of life = fl.div_int life.filled_quantity (max_ℤ life.quantity (pos 1))

  abbrev pub suspects : OrderEvent F → OrderLifecycle F → Bool
  suspects e life =
      fl.lt (fl.sub e.timestamp life.submit_time) (fl.lit 1 1)
      && fl.eq (ratio_of life) (fl.of_int (pos 0))

  -- When a cancel event of an order is flagged: the order is known, it lived less than a second,
  -- nothing of it was filled, and more of the account's orders than the threshold are cancelled.
  abbrev pub flags : SpoofingDetector F → OrderEvent F → Option (OrderLifecycle F) → Bool
  flags d e none = false
  flags d e (some life) =
      suspects e life
      && fl.lt d.cancellation_threshold
          (calculate_cancellation_rate (mark_cancelled d e life) e.account_id)

  abbrev pub flags_at : SpoofingDetector F → OrderEvent F → OrderAction → Bool
  flags_at d e cancel = flags d e (lookup e.order_id d.order_lifecycles)
  flags_at d e _ = false

  -- The order is known, and no float holds its filled part.
  abbrev pub overflows : Option (OrderLifecycle F) → Bool
  overflows none = false
  overflows (some life) = not (fl.is_finite (ratio_of life))

  abbrev pub overflows_at : SpoofingDetector F → OrderEvent F → OrderAction → Bool
  overflows_at d e cancel = overflows (lookup e.order_id d.order_lifecycles)
  overflows_at d e _ = false

  pub record Judged (flagged : Bool) (r : AnomalyResult F) : Type 0 where
    pub in_range : InUnit r.severity_score
    pub decided : r.is_anomalous ≡ flagged
    pub calm : flagged ≡ false → r.severity_score ≡ fl.lit 0 1

  abbrev pub Answers : Bool → Bool → Outcome (AnomalyResult F) → Type 0
  Answers raises flagged o =
      ((raises ≡ true) × (o ≡ err overflow))
      ⊎ ((raises ≡ false) × (r : AnomalyResult F) × (o ≡ ok r) × Judged flagged r)

  zero_ok : let z : F = fl.lit 0 1 in InUnit z
  zero_ok = lit-InUnit laws 0 1 (omega arith) (omega arith)

  clean-Judged :
      (reason : String)
      → (r : AnomalyResult F) × (new_result (clean reason) ≡ ok r) × Judged false r
  unfolding clean
  clean-Judged reason = (
    clean reason,
    new_result-ok (clean reason) zero_ok zero_ok,
    record { in_range = zero_ok; decided = refl; calm = λ _. refl },
  )

  judge_with-Judged :
      (d : SpoofingDetector F) (e : OrderEvent F) (life : OrderLifecycle F)
      → (r : AnomalyResult F) × (judge_with d e life ≡ ok r)
        × Judged
            (suspects e life
              && fl.lt d.cancellation_threshold (calculate_cancellation_rate d e.account_id))
            r
  unfolding report is_suspicious fill_ratio lifetime_of
  judge_with-Judged d e life = elim (Bool-cases (suspects e life)) [
    | inl bad ↦
        let rate : F = calculate_cancellation_rate d e.account_id in
        let s : F = severity d.cancellation_threshold rate in
        let unit : InUnit s = severity-InUnit d.cancellation_threshold rate (
          unfold calculate_cancellation_rate in
          rate_among-InUnit d.order_lifecycles (get_or e.account_id [] d.account_orders)) in
        rw bad (
          report d e life rate s,
          new_result-ok (report d e life rate s) unit
              (lit-InUnit laws 80 100 (omega arith) (omega arith)),
          record { in_range = unit; decided = refl; calm = λ c. unfold severity in rw c },
        )
    | inr fine ↦ rw fine (clean-Judged "normal_cancellation")
  ]

  judge_cancel-Answers :
      (d : SpoofingDetector F) (e : OrderEvent F) (life : OrderLifecycle F)
      → Answers
          (overflows (some life))
          (suspects e life
            && fl.lt d.cancellation_threshold (calculate_cancellation_rate d e.account_id))
          (judge_cancel d e life)
  unfolding judge_cancel fill_ratio
  judge_cancel-Answers d e life = elim (Bool-cases (fl.is_finite (ratio_of life))) [
    | inr big ↦ inl (rw big refl, rw big refl)
    | inl fits ↦
        let (r, returned, judged) = judge_with-Judged d e life in
        inr (rw fits refl, r, rw fits returned, judged)
  ]

  clean-Answers : (reason : String) → Answers false false (new_result (clean reason))
  clean-Answers reason =
      let (r, returned, judged) = clean-Judged reason in inr (refl, r, returned, judged)

  on_cancel-Answers :
      (d : SpoofingDetector F) (e : OrderEvent F) (o : Option (OrderLifecycle F))
      → Answers (overflows o) (flags d e o) ((on_cancel d e o).0)
  unfolding on_cancel mark_cancelled
  on_cancel-Answers d e none = clean-Answers "normal_cancellation"
  on_cancel-Answers d e (some life) = judge_cancel-Answers (mark_cancelled d e life) e life

  dispatch-Answers :
      (d : SpoofingDetector F) (e : OrderEvent F) (act : OrderAction)
      → Answers (overflows_at d e act) (flags_at d e act) ((dispatch d e act).0)
  unfolding dispatch submission
  dispatch-Answers d e submit = inr (
    refl,
    submission e.order_id,
    new_result-ok (submission e.order_id) zero_ok zero_ok,
    record { in_range = zero_ok; decided = refl; calm = λ _. refl },
  )
  dispatch-Answers d e cancel = on_cancel-Answers d e (lookup e.order_id d.order_lifecycles)
  dispatch-Answers d e fill = clean-Answers "no_spoofing_indicators"
  dispatch-Answers d e modify = clean-Answers "no_spoofing_indicators"

  -- `check` returns a result that pydantic accepts, or it raises OverflowError, exactly when it
  -- cancels a known order whose filled part no float holds. An event is flagged exactly when it
  -- cancels a known order that lived less than a second with no fill, and then more of the
  -- account's orders than the threshold, this one included, are cancelled; the severity is in
  -- range, and 0.0 when the event is not flagged.
  pub spoofing_check-verdict :
      (d : SpoofingDetector F) (e : OrderEvent F)
      → Answers (overflows_at d e e.action) (flags_at d e e.action) ((check d e).0)
  unfolding check
  spoofing_check-verdict d e = dispatch-Answers d e e.action

  filled-not_suspicious :
      (e : OrderEvent F) (life : OrderLifecycle F) (q n : ℕ)
      → life.filled_quantity ≡ pos q
      → life.quantity ≡ pos n
      → 0 < q
      → q < 2 ^ 63
      → n < 2 ^ 63
      → (suspects e life ≡ false) × (fl.is_finite (ratio_of life) ≡ true)
  filled-not_suspicious e life q n eq en pq bq bn =
      let top : max_ℤ life.quantity (pos 1) ≡ pos (if ltb n 1 then 1 else n) =
        rw en (ground arith) in
      let positive : fl.lit 0 1 ≺ fl.div_int (pos q) (pos (if ltb n 1 then 1 else n)) =
        laws.int_positive q (if ltb n 1 then 1 else n) pq (ground arith) (ground arith) in
      let ratio : ratio_of life ≡ fl.div_int (pos q) (pos (if ltb n 1 then 1 else n)) =
        ap₂ (λ (a b : ℤ). fl.div_int a b) eq top in
      (
        rw (ratio, laws.zero_int, laws.lt_ne _ _ positive) (ground arith),
        rw ratio
            (laws.quotient_finite (pos q) (pos (if ltb n 1 then 1 else n)) bq (λ z. ground arith)),
      )

  lookup-fill :
      (d : SpoofingDetector F) (f : OrderEvent F) (life : OrderLifecycle F)
      → lookup f.order_id d.order_lifecycles ≡ some life
      → f.action ≡ fill
      → lookup f.order_id (check d f).1.order_lifecycles
        ≡ some (record life { fill_time = some f.timestamp; filled_quantity = f.quantity })
  unfolding check dispatch on_fill fill_known
  lookup-fill d f life known act =
      rw (act, known)
        (lookup-insert f.order_id f.order_id _ d.order_lifecycles ∙ rw (eq_refl f.order_id))

  -- A known order of a quantity below 2 ^ 63 that a positive quantity below 2 ^ 63 then fills is not
  -- flagged when the next event cancels it, however soon and however often the account cancels; the
  -- check returns.
  pub cancel-fill :
      (d : SpoofingDetector F) (f c : OrderEvent F) (life : OrderLifecycle F) (q n : ℕ)
      → lookup f.order_id d.order_lifecycles ≡ some life
      → life.quantity ≡ pos n
      → n < 2 ^ 63
      → f.action ≡ fill
      → f.quantity ≡ pos q
      → 0 < q
      → q < 2 ^ 63
      → c.action ≡ cancel
      → c.order_id ≡ f.order_id
      → (r : AnomalyResult F) × ((check (check d f).1 c).0 ≡ ok r) × (r.is_anomalous ≡ false)
  cancel-fill d f c life q n known en bn fa fq pq bq ca same =
      let d' = (check d f).1 in
      let life' : OrderLifecycle F = record life {
        fill_time = some f.timestamp;
        filled_quantity = f.quantity;
      } in
      let (fine, fits) = filled-not_suspicious c life' q n fq en pq bq bn in
      let held : lookup c.order_id d'.order_lifecycles ≡ some life' =
        rw same (lookup-fill d f life known fa) in
      let calm : flags_at d' c c.action ≡ false =
        ap (flags_at d' c) ca ∙ ap (flags d' c) held ∙ rw fine in
      let small : overflows_at d' c c.action ≡ false =
        ap (overflows_at d' c) ca ∙ ap overflows held ∙ rw fits in
      elim (spoofing_check-verdict d' c) [
        | inl (big, raised) ↦ cc
        | inr (fits', r, returned, judged) ↦ (r, returned, judged.decided ∙ calm)
      ]
