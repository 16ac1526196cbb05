-- ===== src/Anomaly/WashTrade/Trades.antt =====
-- The trades of wash_trade.py in a history of events, and what one event does to the windows.
use aero_risk_ai.Base.{
  ℕ, ◌⊎◌, Bool, true, false, String, ◌≡◌, refl, ap, ◌∙◌, List, [], ◌∷◌, ◌++◌, arith, str_eq, eq_iff,
  if◌then◌else◌,
}
use aero_risk_ai.Base.Int.{pos}
use aero_risk_ai.Base.Lists.{any, count, select}
use aero_risk_ai.Base.Dict.{get_or, lookup-insert}
use aero_risk_ai.Base.Outcome.{Outcome, ok, err, Error}
use aero_risk_ai.Base.Float.{Float, ◌≼◌}
use aero_risk_ai.Models.Event.{OrderEvent}
use aero_risk_ai.Anomaly.WashTrade.{
  TradeRecord, WashTradeDetector, key_of, drop_old, trade_of, scan, noted, window_at, check,
}
use aero_risk_ai.Anomaly.WashTrade.Verdict.{overflows, counters, scan-start}
use aero_risk_ai.Anomaly.WashTrade.Window.{IsSmall}

-- The newest event stands first.
abbrev pub History : Type 0 → Type 0
History F = List (OrderEvent F × F)

module _ {F : Type 0} ⦃fl : Float F⦄ where
  abbrev pub window_of : String → WashTradeDetector F → List (TradeRecord F)
  window_of key d = get_or key [] d.trade_history

  abbrev pub cutoff : ℕ → F → F
  cutoff seconds now = fl.sub now (fl.of_int (pos seconds))

  -- The trades of an account and symbol, oldest first.
  unfoldable pub trades : String → History F → List (TradeRecord F)
  trades key [] = []
  trades key ((e, now) ∷ older) =
      let before = trades key older in
      if str_eq (key_of e.account_id e.symbol) key then before ++ trade_of e now ∷ [] else before

  unfoldable pub run : WashTradeDetector F → History F → WashTradeDetector F
  run d [] = d
  run d ((e, now) ∷ older) = (check (run d older) e now).1

  -- No event of the history is later, and no cutoff of one is.
  abbrev pub IsAfter : ℕ → History F → F → Type 0
  IsAfter seconds [] now = Unit
  IsAfter seconds ((e, t) ∷ older) now = (t ≼ now) × (cutoff seconds t ≼ cutoff seconds now)

  abbrev pub IsMonotone : ℕ → History F → Type 0
  IsMonotone seconds [] = Unit
  IsMonotone seconds ((e, now) ∷ older) = IsAfter seconds older now × IsMonotone seconds older

  -- The prices of the events under a key are below 2 ^ 62.
  abbrev pub IsPriced : String → History F → Type 0
  IsPriced key [] = Unit
  IsPriced key ((e, now) ∷ older) =
      ((str_eq (key_of e.account_id e.symbol) key ≡ false) ⊎ IsSmall e.price) × IsPriced key older

  noted-settings :
      (d : WashTradeDetector F) (e : OrderEvent F) (now : F)
      (o : Outcome (ℕ × List (TradeRecord F)))
      → ((noted d e now o).1.time_window_seconds ≡ d.time_window_seconds)
        × ((noted d e now o).1.min_round_trips ≡ d.min_round_trips)
  unfolding noted
  noted-settings d e now (ok x) = (refl, refl)
  noted-settings d e now (err x) = (refl, refl)

  pub settings-run :
      (d : WashTradeDetector F) (h : History F)
      → ((run d h).time_window_seconds ≡ d.time_window_seconds)
        × ((run d h).min_round_trips ≡ d.min_round_trips)
  unfolding run check
  settings-run d [] = (refl, refl)
  settings-run d ((e, now) ∷ older) =
      let (a, b) = noted-settings (run d older) e now _ in
      let (c, f) = settings-run d older in (a ∙ c, b ∙ f)

  module _ (d : WashTradeDetector F) (e : OrderEvent F) (now : F) (key : String) where
    abbrev pub under : Bool
    under = str_eq (key_of e.account_id e.symbol) key

    noted-ok :
        (x : ℕ × List (TradeRecord F))
        → window_of key (noted d e now (ok x)).1
          ≡ (if under then window_at d e now ++ trade_of e now ∷ [] else window_of key d)
    unfolding noted
    noted-ok x =
        let here = key_of e.account_id e.symbol in
        let w = window_at d e now ++ trade_of e now ∷ [] in
        ground (arith, lookup-insert here key w d.trade_history)

    noted-err :
        (x : Error)
        → window_of key (noted d e now (err x)).1
          ≡ (if under then window_at d e now else window_of key d)
    unfolding noted
    noted-err x =
        let here = key_of e.account_id e.symbol in
        ground (arith, lookup-insert here key (window_at d e now) d.trade_history)

    abbrev counted_of : List (TradeRecord F) → ℕ × List (TradeRecord F)
    counted_of window = (count (counters e) window, select (counters e) window)

    -- Whether its check raises or not, an event leaves the windows of other keys.
    pub window_of-other : under ≡ false → window_of key (check d e now).1 ≡ window_of key d
    unfolding check
    window_of-other ne = go (scan e (window_at d e now) 0 [])
      where
        go :
            (o : Outcome (ℕ × List (TradeRecord F)))
            → window_of key (noted d e now o).1 ≡ window_of key d
        go (ok x) = noted-ok x ∙ rw ne refl
        go (err x) = noted-err x ∙ rw ne refl

    pub window_of-same :
        under ≡ true
        → any (overflows e) (window_at d e now) ≡ false
        → window_of key (check d e now).1
          ≡ drop_old (cutoff d.time_window_seconds now) (window_of key d) ++ trade_of e now ∷ []
    unfolding check
    window_of-same same fits =
        let here = key_of e.account_id e.symbol in
        let returned : scan e (window_at d e now) 0 [] ≡ ok (counted_of (window_at d e now)) =
          scan-start e (window_at d e now) ∙ rw fits refl in
        let at : here ≡ key = (eq_iff here key).0 same in
        ap (λ (o : Outcome (ℕ × List (TradeRecord F))). window_of key (noted d e now o).1) returned
        ∙ noted-ok (counted_of (window_at d e now))
        ∙ rw same (
            unfold window_at in
            ap
              (λ (k : String).
                drop_old (cutoff d.time_window_seconds now) (window_of k d) ++ trade_of e now ∷ [])
              at)
