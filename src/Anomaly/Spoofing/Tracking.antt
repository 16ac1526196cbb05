-- ===== src/Anomaly/Spoofing/Tracking.antt =====
-- The two tables of spoofing_hmm.py agree: every order listed under an account has a lifecycle.
use mathlib.Core.Path.{subst}
use aero_risk_ai.Base.{
  String, ◌≡◌, sym, true, Option, none, some, List, [], ◌∷◌, ◌++◌, str_eq, Bool-cases, inl, inr,
}
use aero_risk_ai.Base.Lists.{All, All-append}
use aero_risk_ai.Base.Dict.{
  Dict, lookup, insert, get_or, contains, get_or-insert, contains-insert, contains-insert_self,
}
use aero_risk_ai.Base.Float.{Float}
use aero_risk_ai.Models.Event.{OrderEvent, OrderAction, submit, cancel, fill, modify}
use aero_risk_ai.Anomaly.Spoofing.{
  OrderLifecycle, SpoofingDetector, on_submit, mark_cancelled, fill_known, on_fill, on_cancel,
  dispatch, check,
}

module _ {F : Type 0} where
  abbrev pub IsKnown : Dict (OrderLifecycle F) → String → Type 0
  IsKnown lives oid = contains oid lives ≡ true

  abbrev pub orders_of : SpoofingDetector F → String → List String
  orders_of d account = get_or account [] d.account_orders

  pub record IsTracked (d : SpoofingDetector F) : Type 0 where
    pub known : (account : String) → All (IsKnown d.order_lifecycles) (orders_of d account)

  All-insert :
      (lives : Dict (OrderLifecycle F)) (k : String) (v : OrderLifecycle F) (ids : List String)
      → All (IsKnown lives) ids
      → All (IsKnown (insert k v lives)) ids
  All-insert lives k v [] h = tt
  All-insert lives k v (oid ∷ ids) h =
      (contains-insert k oid v lives h.0, All-insert lives k v ids h.1)

  on_submit-IsTracked :
      (d : SpoofingDetector F) (e : OrderEvent F) → IsTracked d → IsTracked (on_submit d e)
  unfolding on_submit
  on_submit-IsTracked d e t = record {
    known = λ a.
        let ids = orders_of d e.account_id in
        subst (All (IsKnown (on_submit d e).order_lifecycles))
          (sym (get_or-insert e.account_id a [] (ids ++ e.order_id ∷ []) d.account_orders))
          (elim (Bool-cases (str_eq e.account_id a)) [
            | inl same ↦ rw same (
                All-append (IsKnown (on_submit d e).order_lifecycles) ids (e.order_id ∷ [])
                  (All-insert d.order_lifecycles e.order_id _ ids (t.known e.account_id))
                  (contains-insert_self e.order_id _ d.order_lifecycles, tt))
            | inr ne ↦
                rw ne (All-insert d.order_lifecycles e.order_id _ (orders_of d a) (t.known a))
          ]);
  }

  fill_known-IsTracked :
      (d : SpoofingDetector F) (e : OrderEvent F) (o : Option (OrderLifecycle F))
      → IsTracked d
      → IsTracked (fill_known d e o)
  unfolding fill_known
  fill_known-IsTracked d e none t = t
  fill_known-IsTracked d e (some life) t = record {
    known = λ a. All-insert d.order_lifecycles e.order_id _ (orders_of d a) (t.known a);
  }

module _ {F : Type 0} ⦃fl : Float F⦄ where
  on_cancel-IsTracked :
      (d : SpoofingDetector F) (e : OrderEvent F) (o : Option (OrderLifecycle F))
      → IsTracked d
      → IsTracked (on_cancel d e o).1
  unfolding on_cancel mark_cancelled
  on_cancel-IsTracked d e none t = t
  on_cancel-IsTracked d e (some life) t = record {
    known = λ a. All-insert d.order_lifecycles e.order_id _ (orders_of d a) (t.known a);
  }

  dispatch-IsTracked :
      (d : SpoofingDetector F) (e : OrderEvent F) (act : OrderAction)
      → IsTracked d
      → IsTracked (dispatch d e act).1
  unfolding dispatch on_fill
  dispatch-IsTracked d e submit t = on_submit-IsTracked d e t
  dispatch-IsTracked d e cancel t = on_cancel-IsTracked d e (lookup e.order_id d.order_lifecycles) t
  dispatch-IsTracked d e fill t = fill_known-IsTracked d e (lookup e.order_id d.order_lifecycles) t
  dispatch-IsTracked d e modify t = t

  -- Each event, whatever its action, keeps the two tables in agreement: every order listed under
  -- an account has a lifecycle.
  pub check-IsTracked :
      (d : SpoofingDetector F) (e : OrderEvent F) → IsTracked d → IsTracked (check d e).1
  unfolding check
  check-IsTracked d e t = dispatch-IsTracked d e e.action t

  pub run : SpoofingDetector F → List (OrderEvent F) → SpoofingDetector F
  run d [] = d
  run d (e ∷ es) = run (check d e).1 es

  -- So from a detector whose tables agree, such as a new one, they agree after any events.
  pub run-IsTracked :
      (d : SpoofingDetector F) (es : List (OrderEvent F)) → IsTracked d → IsTracked (run d es)
  unfolding run
  run-IsTracked d [] t = t
  run-IsTracked d (e ∷ es) t = run-IsTracked (check d e).1 es (check-IsTracked d e t)
