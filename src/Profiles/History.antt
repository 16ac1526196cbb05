-- ===== src/Profiles/History.antt =====
-- ai_guardrail/aerorisk/agents/agent2_rag/user_profile.py: update_trading_history and
-- _update_behavioral_embedding. The databases are a record of operations on a state `W`, which may
-- raise; `list(set(...))` has an order that Python leaves open, so the list of the symbols is one of
-- the operations.
use aero_risk_ai.Base.{ℕ, String, concat, Option, none, some, List, [], ◌∷◌}
use aero_risk_ai.Base.Int.{pos}
use aero_risk_ai.Base.Lists.{length}
use aero_risk_ai.Base.Exec.{Exec, pure, attempt, ◌>>=◌, ◌>>◌}
use aero_risk_ai.Base.Float.{Float}
use aero_risk_ai.Models.Incident.{join}

-- A trade's quantity and symbol, with the defaults of `get`.
pub record Trade (F : Type 0) : Type 0 where
  pub quantity : Option F
  pub symbol : Option String

pub record Features (F : Type 0) : Type 0 where
  pub avg_order_size : F
  pub trade_frequency : ℕ
  pub symbols_traded : List String

pub record Trades (W F Data : Type 0) : Type 0 where
  pub insert_trade_history : String → Data → Exec W (Unit {0})
  -- The limit is 100.
  pub get_recent_trades : String → Exec W (List (Trade F))
  pub distinct : List String → List String
  -- f"{x}" of a float and of an int.
  pub show : F → String
  pub show_int : ℕ → String
  -- upsert_document in "user_profiles": the identifier, the text, the user and the features.
  pub upsert_document : String → String → String → Features F → Exec W (Unit {0})

module _ {W F Data : Type 0} ⦃fl : Float F⦄ (db : Trades W F Data) where
  abbrev pub quantity_or_zero : Option F → F
  quantity_or_zero none = fl.lit 0 1
  quantity_or_zero (some q) = q

  abbrev pub symbol_or_empty : Option String → String
  symbol_or_empty none = ""
  symbol_or_empty (some s) = s

  -- `sum(...)`, from the left.
  pub sum_quantities : F → List (Trade F) → F
  sum_quantities total [] = total
  sum_quantities total (t ∷ history) =
      sum_quantities (fl.add total (quantity_or_zero (t.quantity))) history

  pub symbols_of : List (Trade F) → List String
  symbols_of [] = []
  symbols_of (t ∷ history) = symbol_or_empty (t.symbol) ∷ symbols_of history

  -- The divisor is not zero, since there is a trade.
  pub features_of : List (Trade F) → Features F
  unfolding sum_quantities symbols_of
  features_of history = record {
    avg_order_size =
        fl.div (sum_quantities (fl.lit 0 1) history) (fl.of_int (pos (length history)));
    trade_frequency = length history;
    symbols_traded = db.distinct (symbols_of history);
  }

  abbrev pub line : String → String → String
  line text rest = concat "\n            " (concat text rest)

  pub behavior_text : String → Features F → String
  behavior_text user f = line (concat "User " (concat user " trading behavior:")) (
      line (concat "- Average order size: " (db.show (f.avg_order_size))) (
        line (concat "- Trade frequency: " (concat (db.show_int (f.trade_frequency)) " trades"))
          (line (concat "- Symbols: " (join (f.symbols_traded))) "\n            ")))

  pub index_behavior : String → List (Trade F) → Exec W (Unit {0})
  unfolding features_of behavior_text
  index_behavior user [] = pure tt
  index_behavior user (t ∷ history) =
      let f = features_of (t ∷ history) in
      db.upsert_document (concat "behavior_" user) (behavior_text user f) user f

  pub update_behavioral_embedding : String → Exec W (Unit {0})
  unfolding index_behavior
  update_behavioral_embedding user = attempt (db.get_recent_trades user >>= index_behavior user) tt

  pub update_trading_history : String → Data → Exec W (Unit {0})
  update_trading_history user trade =
      attempt (db.insert_trade_history user trade >> update_behavioral_embedding user) tt
