-- ===== src/Examples/Storing.antt =====
-- The theorems on the storage of incidents and audit events at concrete tables.
use aero_risk_ai.Base.{
  ℕ, String, ◌≡◌, refl, inl, inr, true, false, none, some, List, [], ◌∷◌, leb, if◌then◌else◌,
}
use aero_risk_ai.Base.Lists.{All}
use aero_risk_ai.Base.Outcome.{ok, err}
use aero_risk_ai.Base.Exec.{After}
use aero_risk_ai.Storage.{
  SavedReport, AuditEvent, AuditRow, Connection, Columns, idle, in_aborted, save_incident_report,
  update_incident_review, get_pending_reviews, log_audit_event, row_of, has_incident,
}
use aero_risk_ai.Storage.Requests.{Request, save, log, history_of, perform_all}
use aero_risk_ai.Storage.Requests.Reviews.{IsElse}
use aero_risk_ai.Storage.Requests.Reviews.Settled.{update_incident_review-settles}
use aero_risk_ai.Storage.Requests.AuditLog.{IsEntry, find_log, log_audit_event-stays}
use aero_risk_ai.Storage.Requests.Aborted.{save_incident_report-aborts}

-- Scores are whole numbers below ten, and details texts.
abbrev columns : Columns ℕ String String
columns = record {
  decimal = λ n. if leb n 9 then some n else none;
  is_inet = λ s. true;
  dumps = λ s. s;
}

abbrev report : ℕ → SavedReport ℕ String
report score = record {
  incident_id = "INC-1";
  event_id = "E1";
  account_id = "ann";
  decision_type = "BLOCK";
  risk_score = score;
  confidence = 1;
  reason = "late";
  requires_human_review = true;
  sanctions_triggered = false;
  pipeline_error = false;
  extra = none;
}

abbrev event : AuditEvent String
event = record {
  log_id = "L1";
  event_id = none;
  account_id = some "ann";
  action_type = "REVIEW";
  actor = "bob";
  details = "seen";
  ip_address = none;
}

abbrev empty : Connection ℕ String
empty = record {
  transaction = idle;
  incident_reports = [];
  audit_logs = [];
  next_incident = 1;
  next_log = 1;
}

abbrev stored : Connection ℕ String
stored = record empty {
  incident_reports = row_of columns 1 10 0 1 (report 0) ∷ [];
  next_incident = 2;
}

saves : save_incident_report columns 10 (report 0) empty ≡ (ok 1, stored)
unfolding save_incident_report
saves = refl

abbrev later : List (Request ℕ String)
later = save 12 (report 3) ∷ log 13 event ∷ history_of 14 "ann" 5 ∷ []

has_stored : has_incident columns "INC-1" stored.incident_reports ≡ true
unfolding has_incident row_of
has_stored = refl

accepted : (update_incident_review columns 11 "INC-1" "bob" "fine" stored).0 ≡ ok tt
unfolding update_incident_review row_of
accepted = refl

logged : (log_audit_event columns 11 event stored).0 ≡ ok tt
unfolding log_audit_event
logged = refl

update_incident_review-settles_example :
    let reviewed = (update_incident_review columns 11 "INC-1" "bob" "fine" stored).1 in
    let last = (perform_all columns later reviewed).1 in
    After (All (IsElse "INC-1")) ((get_pending_reviews columns 20 5 last).0)
update_incident_review-settles_example =
    update_incident_review-settles columns 11 "INC-1" "bob" "fine" stored later 20 5 has_stored
      accepted

log_audit_event-stays_example :
    let after = (log_audit_event columns 11 event stored).1 in
    (row : AuditRow String) × IsEntry columns event stored row
    × (find_log "L1" (((perform_all columns later after).1).audit_logs) ≡ some row)
log_audit_event-stays_example = log_audit_event-stays columns 11 event stored later logged

save_incident_report-aborts_example :
    let after = (save_incident_report columns 11 (report 12) stored).1 in
    (after.incident_reports ≡ stored.incident_reports)
    × (perform_all columns later after
        ≡ (err in_aborted ∷ err in_aborted ∷ err in_aborted ∷ [], after))
save_incident_report-aborts_example =
    save_incident_report-aborts columns 11 (report 12) stored later (inr (inl refl))
