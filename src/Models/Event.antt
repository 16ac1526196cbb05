-- ===== src/Models/Event.antt =====
-- ai_guardrail/aerorisk/models/event.py: the events of the engine. Prices and quantities are
-- Python integers, and a timestamp is a float of the type `F`.
use aero_risk_ai.Base.{String, Bool, true, false, Option, List}
use aero_risk_ai.Base.Int.{ℤ}
use aero_risk_ai.Base.Value.{Fields}

pub data OrderSide : Type 0 where
  buy sell : OrderSide

pub data OrderAction : Type 0 where
  submit cancel fill modify : OrderAction

pub data EventType : Type 0 where
  order trade risk_decision circuit_breaker audit : EventType

-- The string values of the enumeration, which `use_enum_values` stores.
abbrev pub side_value : OrderSide → String
side_value buy = "BUY"
side_value sell = "SELL"

abbrev pub same_side : OrderSide → OrderSide → Bool
same_side buy buy = true
same_side sell sell = true
same_side _ _ = false

pub record OrderEvent (F : Type 0) : Type 0 where
  pub order_id : String
  pub account_id : String
  pub symbol : String
  pub side : OrderSide
  pub action : OrderAction
  pub price : ℤ
  pub quantity : ℤ
  pub timestamp : F
  pub client_order_id : Option String
  pub user_agent : Option String
  pub ip_address : Option String

pub record TradeEvent (F : Type 0) : Type 0 where
  pub trade_id : String
  pub order_id : String
  pub counterparty_order_id : String
  pub symbol : String
  pub price : ℤ
  pub quantity : ℤ
  pub buyer_account_id : String
  pub seller_account_id : String
  pub timestamp : F
  pub aggressor_side : OrderSide

pub record RiskDecisionEvent (F : Type 0) : Type 0 where
  pub decision_id : String
  pub order_id : Option String
  pub account_id : String
  pub decision : String
  pub risk_score : F
  pub reasons : List String
  pub sanctions_match : Bool
  pub anomaly_flags : List String
  pub timestamp : F
  pub agent_version : String

pub record CircuitBreakerEvent (F : Type 0) : Type 0 where
  pub breaker_id : String
  pub account_id : Option String
  pub symbol : Option String
  pub state : String
  pub trigger_reason : String
  pub triggered_at : F
  pub expires_at : Option F

pub record AuditEvent (F : Type 0) : Type 0 where
  pub audit_id : String
  pub event_type : EventType
  pub entity_id : String
  pub action : String
  pub actor : String
  pub details : Fields F
  pub timestamp : F
  pub checksum : Option String
