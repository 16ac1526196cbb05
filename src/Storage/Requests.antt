-- ===== src/Storage/Requests.antt =====
-- ai_guardrail/aerorisk/storage/qdrant_client.py: sequences of calls of PostgresStorageClient.
pub mod Aborted
pub mod Reviews
pub mod AuditLog
use aero_risk_ai.Base.{ℕ, String, List, [], ◌∷◌}
use aero_risk_ai.Base.Outcome.{Outcome, ok, err}
use aero_risk_ai.Storage.{
  IncidentRow, SavedReport, AuditEvent, Connection, Columns, Conn, save_incident_report,
  get_incident_history, get_pending_reviews, update_incident_review, log_audit_event,
}

-- A method with its arguments, and the time of the call.
pub data Request (F D : Type 0) : Type 0 where
  save : ℕ → SavedReport F D → Request F D
  history_of : ℕ → String → ℕ → Request F D
  pending_reviews : ℕ → ℕ → Request F D
  review : ℕ → String → String → String → Request F D
  log : ℕ → AuditEvent D → Request F D

pub data Answer (F J : Type 0) : Type 0 where
  saved : ℕ → Answer F J
  found : List (IncidentRow F J) → Answer F J
  done : Answer F J

abbrev pub answer_of : {F J A : Type 0} → (A → Answer F J) → Outcome A → Outcome (Answer F J)
answer_of f (ok a) = ok (f a)
answer_of f (err e) = err e

abbrev pub answered :
    {F J A : Type 0}
    → (A → Answer F J)
    → Outcome A × Connection F J
    → Outcome (Answer F J) × Connection F J
answered f (a, c) = (answer_of f a, c)

module _ {F J D : Type 0} (cols : Columns F J D) where
  pub perform : Request F D → Conn cols → Outcome (Answer F J) × Conn cols
  perform (save now r) c = answered saved (save_incident_report cols now r c)
  perform (history_of now account limit) c =
      answered found (get_incident_history cols now account limit c)
  perform (pending_reviews now limit) c = answered found (get_pending_reviews cols now limit c)
  perform (review now incident reviewer notes) c =
      answered (λ u. done) (update_incident_review cols now incident reviewer notes c)
  perform (log now e) c = answered (λ u. done) (log_audit_event cols now e c)

  -- The answers and the last state, where a caller catches what a call raises.
  pub perform_all : List (Request F D) → Conn cols → List (Outcome (Answer F J)) × Conn cols
  perform_all [] c = ([], c)
  perform_all (q ∷ qs) c =
      let (a, c') = perform q c in let (answers, last) = perform_all qs c' in (a ∷ answers, last)

  -- What every call keeps, every sequence of calls keeps.
  pub perform_all-keeps :
      (P : Conn cols → Type 0)
      → ((q : Request F D) (c : Conn cols) → P c → P ((perform q c).1))
      → (qs : List (Request F D)) (c : Conn cols) → P c
      → P ((perform_all qs c).1)
  unfolding perform_all
  perform_all-keeps P keep [] c h = h
  perform_all-keeps P keep (q ∷ qs) c h = perform_all-keeps P keep qs ((perform q c).1) (keep q c h)
