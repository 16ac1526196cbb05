-- ===== src/Anomaly/Vwap/History.antt =====
-- The bounded windows of vwap_monitor.py against the whole history of a key: a window holds the
-- last entries of the account and symbol, as many as the lookback allows.
use native.Mathlib.Nat.{suc-add}
use aero_risk_ai.Base.{
  ℕ, zero, suc, ◌+◌, ◌-◌, String, ◌≡◌, refl, sym, ap, ◌∙◌, List, [], ◌∷◌, ◌++◌, arith, str_eq,
  eq_iff, if◌then◌else◌, Bool-cases, inl, inr,
}
use aero_risk_ai.Base.Lists.{length, drop, length-append, length-drop, drop-length_append}
use aero_risk_ai.Base.Dict.{get_or, lookup-insert}
use aero_risk_ai.Base.Float.{Float}
use aero_risk_ai.Models.Event.{OrderEvent}
use aero_risk_ai.Anomaly.Vwap.{VwapEntry, VwapMonitor, key_of, entry_of, push, check}

-- The last `n` elements.
abbrev pub last {ℓ} : {A : Type ℓ} → ℕ → List A → List A
last n xs = drop (length xs - n) xs

drop-nil {ℓ} : {A : Type ℓ} (i : ℕ) → drop {A = A} i [] ≡ []
drop-nil zero = refl
drop-nil (suc i) = refl

drop-drop {ℓ} : {A : Type ℓ} (i j : ℕ) (xs : List A) → drop i (drop j xs) ≡ drop (j + i) xs
drop-drop i zero xs = ap (λ (k : ℕ). drop k xs) (omega arith)
drop-drop {A} i (suc j) [] = drop-nil i ∙ sym (drop-nil {A = A} (suc j + i))
drop-drop i (suc j) (x ∷ xs) =
    drop-drop i j xs ∙ ap (λ (k : ℕ). drop k (x ∷ xs)) (sym (suc-add j i))

module _ {F : Type 0} where
  -- One more entry in a bounded window is the window of one more entry.
  push-last :
      (n : ℕ) (xs : List (VwapEntry F)) (e : VwapEntry F)
      → push n (last n xs) e ≡ last n (xs ++ e ∷ [])
  unfolding push
  push-last n xs e =
      let d = length xs - n in
      let k = length (last n xs) + 1 - n in
      ap (drop k) (sym (drop-length_append d xs (e ∷ []) (omega arith)))
      ∙ drop-drop k d (xs ++ e ∷ [])
      ∙ ap (λ (i : ℕ). drop i (xs ++ e ∷ []))
          (omega (arith, length-drop d xs, length-append xs (e ∷ [])))

  -- The newest event stands first.
  pub entries : String → List (OrderEvent F) → List (VwapEntry F)
  entries key [] = []
  entries key (e ∷ older) =
      let before = entries key older in
      if str_eq (key_of e.account_id e.symbol) key then before ++ entry_of e ∷ [] else before

  abbrev pub window_of : String → VwapMonitor F → List (VwapEntry F)
  window_of key m = get_or key [] m.vwap_windows

module _ {F : Type 0} ⦃fl : Float F⦄ where
  window_of-check :
      (m : VwapMonitor F) (e : OrderEvent F) (key : String)
      → window_of key (check m e).1 ≡ (
          if str_eq (key_of e.account_id e.symbol) key
          then push m.lookback_periods (window_of key m) (entry_of e)
          else window_of key m)
  unfolding check
  window_of-check m e key =
      let here = key_of e.account_id e.symbol in
      let w = push m.lookback_periods (window_of here m) (entry_of e) in
      ground (arith, lookup-insert here key w m.vwap_windows, eq_iff here key)

  pub run : VwapMonitor F → List (OrderEvent F) → VwapMonitor F
  run m [] = m
  run m (e ∷ older) = (check (run m older) e).1

  lookback-run :
      (m : VwapMonitor F) (h : List (OrderEvent F))
      → (run m h).lookback_periods ≡ m.lookback_periods
  unfolding run check
  lookback-run m [] = refl
  lookback-run m (e ∷ older) = lookback-run m older

  -- A monitor that starts with an empty window for a key holds, after any events, exactly the last
  -- `lookback_periods` of the entries of that key, in order.
  pub last_window-run :
      (m : VwapMonitor F) (key : String) (h : List (OrderEvent F))
      → window_of key m ≡ []
      → window_of key (run m h) ≡ last m.lookback_periods (entries key h)
  unfolding run entries
  last_window-run m key [] empty = empty ∙ sym (drop-nil (0 - m.lookback_periods))
  last_window-run m key (e ∷ older) empty = rw (window_of-check (run m older) e key) (
      rw (lookback-run m older, last_window-run m key older empty)
        (elim (Bool-cases (str_eq (key_of e.account_id e.symbol) key)) [
          | inl same ↦ rw same (push-last m.lookback_periods (entries key older) (entry_of e))
          | inr ne ↦ rw ne
        ]))
