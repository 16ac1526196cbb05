-- ===== src/Consumer/Parser.antt =====
-- ai_guardrail/aerorisk/consumer/event_parser.py. TransactionEvent, AnomalyFlag and the event types
-- of orders, which the models do not have, and `json`, are a record of operations; a price and a
-- quantity are of the type `N`.
use aero_risk_ai.Base.{
  ◌≡◌, refl, ◌⊎◌, inl, inr, String, concat, Bool, false, Option, none, some, List, [], ◌∷◌,
  if◌then◌else◌, Bool-cases, str_eq,
}
use aero_risk_ai.Base.Lists.{any}
use aero_risk_ai.Base.Outcome.{Outcome, ok, err, Error}
use aero_risk_ai.Base.Value.{Fields, dict, get_field, set_field, get_field-set_field}

-- What a parser raises: EventParseError with its message, or an exception that it does not catch.
pub data ParseError : Type 0 where
  parse_error : String → ParseError
  uncaught : Error → ParseError

pub data Parsed (A : Type 0) : Type 0 where
  parsed : A → Parsed A
  raised : ParseError → Parsed A

pub record EventModel (Json E K N F A : Type 0) : Type 0 where
  -- TransactionEvent.model_validate, whose ValidationError is told from the rest by a test.
  pub model_validate : Json → Outcome E
  pub is_validation_error : Error → Bool
  -- `json.loads`, whose JSONDecodeError is told from the rest by a test.
  pub loads : String → Outcome Json
  pub is_json_error : Error → Bool
  -- `f"{e}"`
  pub show : Error → String
  pub event_type : E → K
  pub same_type : K → K → Bool
  pub order_new : K
  pub order_cancel : K
  pub order_modify : K
  pub order_id : E → Option String
  pub symbol : E → Option String
  -- `event.side.value if event.side else None`
  pub side : E → Option String
  pub order_type : E → Option String
  pub price : E → Option N
  pub quantity : E → Option N
  pub user_id : E → String
  pub model_dump : E → Fields F
  pub model_dump_json : E → Outcome String
  -- AnomalyFlag of a type's name, a confidence, the details and an event's identifier.
  pub anomaly_flag : String → F → String → Option String → Outcome A

pub record OrderFields (N : Type 0) : Type 0 where
  pub order_id : Option String
  pub symbol : Option String
  pub side : Option String
  pub order_type : Option String
  pub price : Option N
  pub quantity : Option N
  pub user_id : String

module _ {Json E K N F A : Type 0} (m : EventModel Json E K N F A) where
  -- Both `except` clauses raise EventParseError, with another message each.
  abbrev pub validated : Outcome E → Parsed E
  validated (ok event) = parsed event
  validated (err e) = raised (
      parse_error (
        concat
          (if m.is_validation_error e then "Invalid event format: " else "Failed to parse event: ")
          (m.show e)))

  pub parse_transaction_event : Json → Parsed E
  parse_transaction_event raw = validated (m.model_validate raw)

  -- EventParseError passes through the `except` of JSONDecodeError.
  abbrev pub from_json : Outcome Json → Parsed E
  from_json (ok raw) = parse_transaction_event raw
  from_json (err e) =
      raised
        (if m.is_json_error e then parse_error (concat "Invalid JSON: " (m.show e)) else uncaught e)

  pub parse_from_json : String → Parsed E
  unfolding parse_transaction_event
  parse_from_json text = from_json (m.loads text)

  pub validate_event_type : E → List K → Bool
  validate_event_type event expected = any (m.same_type (m.event_type event)) expected

  pub extract_order_fields : E → Option (OrderFields N)
  unfolding validate_event_type
  extract_order_fields event =
      if validate_event_type event (m.order_new ∷ m.order_cancel ∷ m.order_modify ∷ [])
      then some (record {
        order_id = m.order_id event;
        symbol = m.symbol event;
        side = m.side event;
        order_type = m.order_type event;
        price = m.price event;
        quantity = m.quantity event;
        user_id = m.user_id event;
      })
      else none

  pub create_anomaly_flag : String → F → String → Option String → Outcome A
  create_anomaly_flag kind confidence details event = m.anomaly_flag kind confidence details event

  pub serialize_event : E → Outcome String
  serialize_event event = m.model_dump_json event

  pub enrich_event_with_metadata : E → Fields F → Fields F
  enrich_event_with_metadata event metadata =
      set_field "metadata" (dict metadata) (m.model_dump event)

  -- The metadata is read back, and every other entry is that of the dump.
  pub enrich_event_with_metadata-entries :
      (event : E) (metadata : Fields F) (key : String)
      → get_field key (enrich_event_with_metadata event metadata) ≡ (
          if str_eq "metadata" key
          then some (dict metadata)
          else get_field key (m.model_dump event))
  unfolding enrich_event_with_metadata
  enrich_event_with_metadata-entries event metadata key =
      get_field-set_field "metadata" key (dict metadata) (m.model_dump event)

  -- How a text is read: an event, an EventParseError, or an exception of `json.loads` that is no
  -- JSONDecodeError.
  abbrev pub IsRead : Outcome Json → Parsed E → Type 0
  IsRead r out =
      ((event : E) × (out ≡ parsed event))
      ⊎ (((why : String) × (out ≡ raised (parse_error why)))
          ⊎ ((e : Error) × (r ≡ err e) × (m.is_json_error e ≡ false) × (out ≡ raised (uncaught e))))

  from_json-IsRead : (r : Outcome Json) → IsRead r (from_json r)
  unfolding parse_transaction_event
  from_json-IsRead (ok raw) = go (m.model_validate raw)
    where
      go : (v : Outcome E) → IsRead (ok raw) (validated v)
      go (ok event) = inl (event, refl)
      go (err e) = inr (inl (_, refl))
  from_json-IsRead (err e) = elim (Bool-cases (m.is_json_error e)) [
    | inl t ↦ inr (inl (concat "Invalid JSON: " (m.show e), rw t refl))
    | inr f ↦ inr (inr (e, refl, f, rw f refl))
  ]

  pub parse_from_json-IsRead : (text : String) → IsRead (m.loads text) (parse_from_json text)
  unfolding parse_from_json
  parse_from_json-IsRead text = from_json-IsRead (m.loads text)
