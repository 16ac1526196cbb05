-- ===== src/Storage/Rows.antt =====
-- ai_guardrail/aerorisk/storage/qdrant_client.py: the rows of the two tables, the transaction, and
-- what the statements share.
use Prim.Native.Char.{code}
use aero_risk_ai.Base.{
  ℕ, zero, suc, String, Bool, true, false, ◌==◌, ◌&&◌, Option, none, some, List, [], ◌∷◌, leb,
  if◌then◌else◌,
}
use aero_risk_ai.Base.Outcome.{Outcome, ok, err, Error, runtime}

-- A row of incident_reports; the times are those of CURRENT_TIMESTAMP.
pub record IncidentRow (F J : Type 0) : Type 0 where
  pub id : ℕ
  pub incident_id : String
  pub event_id : String
  pub account_id : String
  pub decision_type : String
  pub risk_score : F
  pub confidence : F
  pub reason : String
  pub requires_human_review : Bool
  pub sanctions_triggered : Bool
  pub pipeline_error : Bool
  pub created_at : ℕ
  pub reviewed_at : Option ℕ
  pub reviewer_id : Option String
  pub resolution_notes : Option String
  pub details : Option J

pub record AuditRow (J : Type 0) : Type 0 where
  pub id : ℕ
  pub log_id : String
  pub event_id : Option String
  pub account_id : Option String
  pub action_type : String
  pub actor : String
  pub details : J
  pub ip_address : Option String
  pub created_at : ℕ

-- What save_incident_report reads of its argument. IncidentReport of models/incident_report.py has
-- neither an event nor a decision.
pub record SavedReport (F D : Type 0) : Type 0 where
  pub incident_id : String
  pub event_id : String
  pub account_id : String
  pub decision_type : String
  pub risk_score : F
  pub confidence : F
  pub reason : String
  pub requires_human_review : Bool
  pub sanctions_triggered : Bool
  pub pipeline_error : Bool
  -- `report.metadata`, none where it is empty.
  pub extra : Option D

pub record AuditEvent (D : Type 0) : Type 0 where
  pub log_id : String
  pub event_id : Option String
  pub account_id : Option String
  pub action_type : String
  pub actor : String
  pub details : D
  pub ip_address : Option String

-- psycopg2 opens a transaction with the first statement, and CURRENT_TIMESTAMP is its start. A
-- statement that fails aborts it, and every later one raises until a rollback.
pub data Transaction : Type 0 where
  idle : Transaction
  open_since : ℕ → Transaction
  aborted : Transaction

pub record Connection (F J : Type 0) : Type 0 where
  pub transaction : Transaction
  pub incident_reports : List (IncidentRow F J)
  pub audit_logs : List (AuditRow J)
  -- The next values of the two BIGSERIAL columns; an insert takes one on a conflict, too.
  pub next_incident : ℕ
  pub next_log : ℕ

pub record Columns (F J D : Type 0) : Type 0 where
  pub decimal : F → Option F
  pub is_inet : String → Bool
  pub dumps : D → J

abbrev pub refused : Error
refused = runtime "psycopg2.Error"

abbrev pub in_aborted : Error
in_aborted = runtime "InFailedSqlTransaction"

-- VARCHAR(n) takes a text of which all beyond `n` characters is blank.
abbrev pub fits : ℕ → String → Bool
fits n String.[] = true
fits zero (String.◌∷◌ c s) = code c == 32 && fits zero s
fits (suc n) (String.◌∷◌ c s) = fits n s

-- It stores the first `n` characters.
abbrev pub cut : ℕ → String → String
cut n String.[] = String.[]
cut zero (String.◌∷◌ c s) = String.[]
cut (suc n) (String.◌∷◌ c s) = String.◌∷◌ c (cut n s)

abbrev pub option_cut : ℕ → Option String → Option String
option_cut n none = none
option_cut n (some s) = some (cut n s)

abbrev pub option_fits : ℕ → Option String → Bool
option_fits n none = true
option_fits n (some s) = fits n s

-- The start of the transaction that a statement at `now` belongs to.
abbrev pub started : ℕ → Transaction → Outcome ℕ
started now idle = ok now
started now (open_since t) = ok t
started now aborted = err in_aborted

-- `ORDER BY created_at`, ascending; rows of one time stay in the table's order.
module _ {A : Type 0} (at : A → ℕ) where
  abbrev pub place : A → List A → List A
  place r [] = r ∷ []
  place r (s ∷ rows) = if leb (at r) (at s) then r ∷ s ∷ rows else s ∷ place r rows

  abbrev pub order_by : List A → List A
  order_by [] = []
  order_by (r ∷ rows) = place r (order_by rows)

  -- `ORDER BY created_at DESC`
  abbrev pub place_desc : A → List A → List A
  place_desc r [] = r ∷ []
  place_desc r (s ∷ rows) = if leb (at s) (at r) then r ∷ s ∷ rows else s ∷ place_desc r rows

  abbrev pub order_desc : List A → List A
  order_desc [] = []
  order_desc (r ∷ rows) = place_desc r (order_desc rows)

abbrev pub is_null : {A : Type 0} → Option A → Bool
is_null none = true
is_null (some a) = false
