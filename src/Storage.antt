-- ===== src/Storage.antt =====
-- ai_guardrail/aerorisk/storage/qdrant_client.py. Here PostgresStorageClient: its SQL statements, on
-- the two tables and the transaction of its one connection. What DECIMAL(5,4) makes of a number,
-- whether a text is an INET address, and `json.dumps`, are a record of functions.
pub mod Requests
mod Rows
pub mod Vectors
use aero_risk_ai.Base.{
  ℕ, suc, ◌+◌, String, Bool, true, false, not, ◌&&◌, Option, none, some, List, [], ◌∷◌, ◌++◌, leb,
  str_eq, if◌then◌else◌,
}
use aero_risk_ai.Base.Lists.{length, take, select}
use aero_risk_ai.Base.Text.{codes}
use aero_risk_ai.Base.Outcome.{Outcome, ok, err, Error, runtime}
pub use aero_risk_ai.Storage.Rows.{
  IncidentRow, AuditRow, SavedReport, AuditEvent, Transaction, Connection, Columns, refused,
  in_aborted, fits, option_fits, cut, option_cut, started, is_null, place, order_by, place_desc,
  order_desc, idle, open_since, aborted,
}

module _ {F J D : Type 0} (cols : Columns F J D) where
  abbrev pub Conn : Type 0
  Conn = Connection F J

  -- The columns of a report that Postgres refuses.
  pub report_fits : SavedReport F D → Bool
  report_fits r =
      fits 64 r.incident_id && fits 64 r.event_id && fits 64 r.account_id && fits 32 r.decision_type

  -- The row of the VALUES.
  unfoldable pub row_of : ℕ → ℕ → F → F → SavedReport F D → IncidentRow F J
  row_of id at score confidence r = record {
    id = id;
    incident_id = cut 64 r.incident_id;
    event_id = cut 64 r.event_id;
    account_id = cut 64 r.account_id;
    decision_type = cut 32 r.decision_type;
    risk_score = score;
    confidence = confidence;
    reason = r.reason;
    requires_human_review = r.requires_human_review;
    sanctions_triggered = r.sanctions_triggered;
    pipeline_error = r.pipeline_error;
    created_at = at;
    reviewed_at = none;
    reviewer_id = none;
    resolution_notes = none;
    details = elim (r.extra) [ none ↦ none | some d ↦ some (cols.dumps d) ];
  }

  -- ON CONFLICT (incident_id) DO UPDATE SET
  pub excluded : IncidentRow F J → IncidentRow F J → IncidentRow F J
  excluded new old = record old {
    decision_type = new.decision_type;
    risk_score = new.risk_score;
    confidence = new.confidence;
    reason = new.reason;
    requires_human_review = new.requires_human_review;
    sanctions_triggered = new.sanctions_triggered;
    pipeline_error = new.pipeline_error;
    details = new.details;
  }

  pub upsert : IncidentRow F J → List (IncidentRow F J) → List (IncidentRow F J)
  upsert new [] = new ∷ []
  upsert new (r ∷ rows) =
      if str_eq (r.incident_id) (new.incident_id)
      then excluded new r ∷ rows
      else r ∷ upsert new rows

  -- The row's identifier, of RETURNING id.
  pub returned : IncidentRow F J → List (IncidentRow F J) → ℕ
  returned new [] = new.id
  returned new (r ∷ rows) =
      if str_eq (r.incident_id) (new.incident_id) then r.id else returned new rows

  -- The statement and its commit, in a transaction that started at the outcome.
  abbrev pub save_row : Outcome ℕ → SavedReport F D → Option F → Option F → Conn → Outcome ℕ × Conn
  save_row (err e) r score confidence c = (err e, c)
  save_row (ok at) r (some score) (some confidence) c =
      let new = row_of (c.next_incident) at score confidence r in
      if report_fits r
      then (
        ok (returned new (c.incident_reports)),
        record c {
          transaction = idle;
          incident_reports = upsert new (c.incident_reports);
          next_incident = suc (c.next_incident);
        },
      )
      else (err refused, record c { transaction = aborted })
  save_row (ok at) r _ _ c = (err refused, record c { transaction = aborted })

  unfoldable pub save_incident_report : ℕ → SavedReport F D → Conn → Outcome ℕ × Conn
  unfolding row_of report_fits excluded upsert returned
  save_incident_report now r c =
      save_row (started now (c.transaction)) r (cols.decimal (r.risk_score))
        (cols.decimal (r.confidence)) c

  -- A SELECT, which is not followed by a commit.
  abbrev pub query :
      Outcome ℕ → List (IncidentRow F J) → Conn → Outcome (List (IncidentRow F J)) × Conn
  query (err e) rows c = (err e, c)
  query (ok at) rows c = (ok rows, record c { transaction = open_since at })

  pub history : String → ℕ → Conn → List (IncidentRow F J)
  history account limit c = take limit (
      order_desc (λ (r : IncidentRow F J). r.created_at)
        (select (λ (r : IncidentRow F J). str_eq (r.account_id) account) (c.incident_reports)))

  pub get_incident_history : ℕ → String → ℕ → Conn → Outcome (List (IncidentRow F J)) × Conn
  get_incident_history now account limit c =
      query (started now (c.transaction)) (history account limit c) c

  abbrev pub is_pending : IncidentRow F J → Bool
  is_pending r = r.requires_human_review && is_null (r.reviewed_at)

  unfoldable pub pending : ℕ → Conn → List (IncidentRow F J)
  pending limit c =
      take limit
        (order_by (λ (r : IncidentRow F J). r.created_at) (select is_pending (c.incident_reports)))

  pub get_pending_reviews : ℕ → ℕ → Conn → Outcome (List (IncidentRow F J)) × Conn
  get_pending_reviews now limit c = query (started now (c.transaction)) (pending limit c) c

  pub review_rows : String → String → String → ℕ → List (IncidentRow F J) → List (IncidentRow F J)
  review_rows incident reviewer notes at [] = []
  review_rows incident reviewer notes at (r ∷ rows) =
      (if str_eq (r.incident_id) incident
        then record r {
          reviewed_at = some at;
          reviewer_id = some (cut 64 reviewer);
          resolution_notes = some notes;
        }
        else r)
      ∷ review_rows incident reviewer notes at rows

  unfoldable pub has_incident : String → List (IncidentRow F J) → Bool
  has_incident incident [] = false
  has_incident incident (r ∷ rows) =
      if str_eq (r.incident_id) incident then true else has_incident incident rows

  -- A reviewer who is too long for the column is refused where there is a row to write.
  abbrev pub review_row : Outcome ℕ → String → String → String → Conn → Outcome (Unit {0}) × Conn
  review_row (err e) incident reviewer notes c = (err e, c)
  review_row (ok at) incident reviewer notes c =
      if has_incident incident (c.incident_reports) && not (fits 64 reviewer)
      then (err refused, record c { transaction = aborted })
      else (
        ok tt,
        record c {
          transaction = idle;
          incident_reports = review_rows incident reviewer notes at (c.incident_reports);
        },
      )

  unfoldable pub update_incident_review :
      ℕ → String → String → String → Conn → Outcome (Unit {0}) × Conn
  unfolding has_incident review_rows
  update_incident_review now incident reviewer notes c =
      review_row (started now (c.transaction)) incident reviewer notes c

  pub event_fits : AuditEvent D → Bool
  event_fits e =
      fits 64 e.log_id
      && option_fits 64 e.event_id
      && option_fits 64 e.account_id
      && fits 64 e.action_type
      && fits 64 e.actor
      && (elim (e.ip_address) [ none ↦ true | some ip ↦ cols.is_inet ip ])

  pub audit_row : ℕ → ℕ → AuditEvent D → AuditRow J
  audit_row id at e = record {
    id = id;
    log_id = cut 64 e.log_id;
    event_id = option_cut 64 e.event_id;
    account_id = option_cut 64 e.account_id;
    action_type = cut 64 e.action_type;
    actor = cut 64 e.actor;
    details = cols.dumps (e.details);
    ip_address = e.ip_address;
    created_at = at;
  }

  -- ON CONFLICT (log_id) DO NOTHING
  pub insert_log : AuditRow J → List (AuditRow J) → List (AuditRow J)
  insert_log new [] = new ∷ []
  insert_log new (r ∷ rows) =
      if str_eq (r.log_id) (new.log_id) then r ∷ rows else r ∷ insert_log new rows

  abbrev pub log_row : Outcome ℕ → AuditEvent D → Conn → Outcome (Unit {0}) × Conn
  log_row (err x) e c = (err x, c)
  log_row (ok at) e c =
      if event_fits e
      then (
        ok tt,
        record c {
          transaction = idle;
          audit_logs = insert_log (audit_row (c.next_log) at e) (c.audit_logs);
          next_log = suc (c.next_log);
        },
      )
      else (err refused, record c { transaction = aborted })

  unfoldable pub log_audit_event : ℕ → AuditEvent D → Conn → Outcome (Unit {0}) × Conn
  unfolding event_fits audit_row insert_log
  log_audit_event now e c = log_row (started now (c.transaction)) e c
