-- ===== src/Anomaly/WashTrade/History.antt =====
-- The windows of wash_trade.py, after any sequence of events whose times do not go back, against
-- all trades of an account and symbol.
use mathlib.Core.Path.{ap₂}
use mathlib.Core.List.{append-nil, append_assoc}
use aero_risk_ai.Base.{
  ℕ, true, false, ◌<◌, String, ◌≡◌, refl, sym, ap, ◌∙◌, List, [], ◌∷◌, ◌++◌, str_eq, eq_iff, leb,
  Bool-cases, inl, inr,
}
use aero_risk_ai.Base.Lists.{All, any, count, select, All-append}
use aero_risk_ai.Base.Outcome.{ok}
use aero_risk_ai.Base.Float.{Float, FloatLaws, ◌≼◌}
use aero_risk_ai.Models.Event.{OrderEvent}
use aero_risk_ai.Models.Anomaly.{AnomalyResult}
use aero_risk_ai.Anomaly.WashTrade.{
  TradeRecord, WashTradeDetector, key_of, drop_old, trade_of, window_at, check,
}
use aero_risk_ai.Anomaly.WashTrade.Verdict.{overflows, counters, wash_check-verdict}
use aero_risk_ai.Anomaly.WashTrade.Window.{
  IsSmall, overflows-small, drop_old-All, is_fresh, IsSorted, snoc-IsSorted, drop_old-drop_old,
  drop_old-eq-select,
}
use aero_risk_ai.Anomaly.WashTrade.Trades.{
  History, window_of, cutoff, trades, run, IsAfter, IsMonotone, IsPriced, settings-run,
  window_of-other, window_of-same,
}

module _ {F : Type 0} ⦃fl : Float F⦄ where
  module _ (laws : FloatLaws F) where
    IsAfter-le :
        (seconds : ℕ) (h : History F) (t now : F)
        → IsAfter seconds h t
        → t ≼ now
        → cutoff seconds t ≼ cutoff seconds now
        → IsAfter seconds h now
    IsAfter-le seconds [] t now a le lec = tt
    IsAfter-le seconds ((e, u) ∷ older) t now (a, ac) le lec =
        (laws.le_trans u t now a le, laws.le_trans _ _ _ ac lec)

    module _ (seconds : ℕ) (key : String) where
      trades-All :
          (h : History F) (now : F)
          → IsMonotone seconds h
          → IsAfter seconds h now
          → All (λ (t : TradeRecord F). t.timestamp ≼ now) (trades key h)
      unfolding trades trade_of
      trades-All [] now m a = tt
      trades-All ((e, t) ∷ older) now (before, m) (a, ac) =
          let rest = trades-All older now m (IsAfter-le seconds older t now before a ac) in
          elim (Bool-cases (str_eq (key_of e.account_id e.symbol) key)) [
            | inl same ↦ rw same (
                All-append (λ (u : TradeRecord F). u.timestamp ≼ now) (trades key older)
                  (trade_of e t ∷ []) rest (a, tt))
            | inr ne ↦ rw ne rest
          ]

      trades-IsSorted : (h : History F) → IsMonotone seconds h → IsSorted (trades key h)
      unfolding trades trade_of
      trades-IsSorted [] m = tt
      trades-IsSorted ((e, now) ∷ older) (a, m) =
          elim (Bool-cases (str_eq (key_of e.account_id e.symbol) key)) [
            | inl same ↦ rw same (
                snoc-IsSorted (trades key older) (trade_of e now) (trades-IsSorted older m)
                  (trades-All older now m a))
            | inr ne ↦ rw ne (trades-IsSorted older m)
          ]

    module _ (d : WashTradeDetector F) (key : String) (empty : window_of key d ≡ []) where
      -- One more event under the key, whose check does not raise.
      run-same :
          (e : OrderEvent F) (t : F) (older : History F)
          → str_eq (key_of e.account_id e.symbol) key ≡ true
          → IsSmall e.price
          → All (λ (x : TradeRecord F). IsSmall x.price) (window_of key (run d older))
          → window_of key (check (run d older) e t).1
            ≡ drop_old (cutoff d.time_window_seconds t) (window_of key (run d older))
              ++ trade_of e t ∷ []
      run-same e t older same small h =
          let r = run d older in
          let c = cutoff r.time_window_seconds t in
          let at : key_of e.account_id e.symbol ≡ key =
            (eq_iff (key_of e.account_id e.symbol) key).0 same in
          let held : any (overflows e) (window_at r e t) ≡ false =
            unfold window_at in
            (ap (λ (k : String). any (overflows e) (drop_old c (window_of k r))) at
              ∙ overflows-small laws e (drop_old c (window_of key r)) small
                  (drop_old-All (λ (x : TradeRecord F). IsSmall x.price) c (window_of key r) h)) in
          window_of-same r e t key same held
          ∙ ap (λ (n : ℕ). drop_old (cutoff n t) (window_of key r) ++ trade_of e t ∷ [])
              ((settings-run d older).0)

      run-IsSmall :
          (h : History F)
          → IsPriced key h
          → All (λ (x : TradeRecord F). IsSmall x.price) (window_of key (run d h))
      unfolding run trade_of
      run-IsSmall [] p = rw empty tt
      run-IsSmall ((e, t) ∷ older) (this, p) =
          let before = run-IsSmall older p in
          elim (Bool-cases (str_eq (key_of e.account_id e.symbol) key)) [
            | inr ne ↦ rw (window_of-other (run d older) e t key ne) before
            | inl same ↦ elim this [
              | inl ne ↦ cc
              | inr small ↦ rw (run-same e t older same small before) (
                  All-append (λ (x : TradeRecord F). IsSmall x.price)
                    (drop_old (cutoff d.time_window_seconds t) (window_of key (run d older)))
                    (trade_of e t ∷ [])
                    (drop_old-All (λ (x : TradeRecord F). IsSmall x.price)
                      (cutoff d.time_window_seconds t) (window_of key (run d older)) before)
                    (small, tt))
            ]
          ]

      -- A later cutoff finds the same trades in the window as in the whole history.
      run-drop_old :
          (h : History F) (now : F) (ys : List (TradeRecord F))
          → IsPriced key h
          → IsMonotone d.time_window_seconds h
          → IsAfter d.time_window_seconds h now
          → drop_old (cutoff d.time_window_seconds now) (window_of key (run d h) ++ ys)
            ≡ drop_old (cutoff d.time_window_seconds now) (trades key h ++ ys)
      unfolding run trades
      run-drop_old [] now ys p m a = rw empty refl
      run-drop_old ((e, t) ∷ older) now ys (this, p) (before, m) (a, ac) =
          let later = IsAfter-le d.time_window_seconds older t now before a ac in
          let ct = cutoff d.time_window_seconds t in
          let c = cutoff d.time_window_seconds now in
          let w = window_of key (run d older) in
          elim (Bool-cases (str_eq (key_of e.account_id e.symbol) key)) [
            | inr ne ↦
                rw (window_of-other (run d older) e t key ne, ne)
                  (run-drop_old older now ys p m later)
            | inl same ↦ elim this [
              | inl ne ↦ cc
              | inr small ↦
                  rw (run-same e t older same small (run-IsSmall older p), same)
                    (ap (drop_old c) (append_assoc (drop_old ct w) (trade_of e t ∷ []) ys)
                      ∙ drop_old-drop_old laws ct c w (trade_of e t ∷ ys) ac
                      ∙ run-drop_old older now (trade_of e t ∷ ys) p m later
                      ∙ ap (drop_old c)
                          (sym (append_assoc (trades key older) (trade_of e t ∷ []) ys)))
            ]
          ]

    window_at-run :
        (d : WashTradeDetector F) (h : History F) (e : OrderEvent F) (now : F)
        → window_of (key_of e.account_id e.symbol) d ≡ []
        → IsPriced (key_of e.account_id e.symbol) h
        → IsMonotone d.time_window_seconds ((e, now) ∷ h)
        → window_at (run d h) e now
          ≡ select
              (is_fresh (cutoff d.time_window_seconds now))
              (trades (key_of e.account_id e.symbol) h)
    unfolding window_at
    window_at-run d h e now empty p (a, m) =
        let key = key_of e.account_id e.symbol in
        let c = cutoff d.time_window_seconds now in
        rw ((settings-run d h).0) (
          ap (drop_old c) (sym (append-nil (window_of key (run d h))))
          ∙ run-drop_old d key empty h now [] p m a
          ∙ ap (drop_old c) (append-nil (trades key h))
          ∙ drop_old-eq-select laws c (trades key h)
              (trades-IsSorted d.time_window_seconds key h m))

    -- A detector with a positive minimum and no trades under the key of an account and symbol, after
    -- any events, returns for the next event with that key, and flags it exactly when at least the
    -- minimum of all earlier trades with the key are not before the cutoff, on the other side, and at
    -- a price less than 1% away; provided that the prices under the key are below 2 ^ 62, and that
    -- neither the times of the events nor their cutoffs go back.
    pub wash_check-run :
        (d : WashTradeDetector F) (h : History F) (e : OrderEvent F) (now : F)
        → 0 < d.min_round_trips
        → window_of (key_of e.account_id e.symbol) d ≡ []
        → IsSmall e.price
        → IsPriced (key_of e.account_id e.symbol) h
        → IsMonotone d.time_window_seconds ((e, now) ∷ h)
        → (r : AnomalyResult F) × ((check (run d h) e now).0 ≡ ok r)
          × (r.is_anomalous
              ≡ leb d.min_round_trips (
                  count (counters e) (
                    select
                      (is_fresh (cutoff d.time_window_seconds now))
                      (trades (key_of e.account_id e.symbol) h))))
    wash_check-run d h e now least empty small p m =
        let same = (settings-run d h).1 in
        let key = key_of e.account_id e.symbol in
        let held : any (overflows e) (window_at (run d h) e now) ≡ false =
          unfold window_at in
          overflows-small laws e _ small (
            drop_old-All (λ (x : TradeRecord F). IsSmall x.price) _ (window_of key (run d h))
              (run-IsSmall d key empty h p)) in
        elim (wash_check-verdict laws (run d h) e now (rw same least)) [
          | inl (big, raised) ↦ cc
          | inr (fits, r, returns, unit, flag, calm) ↦ (
            r,
            returns,
            flag
                ∙ ap₂ (λ (n : ℕ) (w : List (TradeRecord F)). leb n (count (counters e) w)) same
                    (window_at-run d h e now empty p m),
          )
        ]
