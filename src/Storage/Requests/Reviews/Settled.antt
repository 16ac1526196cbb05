-- ===== src/Storage/Requests/Reviews/Settled.antt =====
-- ai_guardrail/aerorisk/storage/qdrant_client.py: reviewed incidents over every sequence of calls.
use aero_risk_ai.Base.{
  ℕ, not, none, String, ◌≡◌, inl, inr, true, Option, some, List, Bool-cases, ◌&&◌,
}
use aero_risk_ai.Base.Lists.{All}
use aero_risk_ai.Base.Outcome.{Outcome, ok, err, err-ne-ok}
use aero_risk_ai.Base.Exec.{After}
use aero_risk_ai.Storage.{
  IncidentRow, SavedReport, AuditEvent, Columns, Conn, started, row_of, save_row,
  save_incident_report, get_incident_history, get_pending_reviews, update_incident_review,
  review_row, report_fits, fits, query, event_fits, history, has_incident, log_audit_event, log_row,
  pending,
}
use aero_risk_ai.Storage.Requests.{
  Request, save, history_of, pending_reviews, review, log, perform, perform_all, perform_all-keeps,
}
use aero_risk_ai.Storage.Requests.Reviews.{
  IsSettled, upsert-IsClosed, has_incident-upsert, has_incident-review_rows, review_rows-keeps,
  review_rows-IsClosed, IsElse, pending-IsElse,
}

module _ {F J D : Type 0} (cols : Columns F J D) where
  abbrev Keeps : String → Conn cols → Type 0
  Keeps incident c = IsSettled cols incident (c.incident_reports)

  save_row-Keeps :
      (incident : String) (start : Outcome ℕ) (r : SavedReport F D) (score confidence : Option F)
      (c : Conn cols)
      → Keeps incident c
      → Keeps incident ((save_row cols start r score confidence c).1)
  save_row-Keeps incident (err e) r score confidence c h = h
  save_row-Keeps incident (ok at) r none confidence c h = h
  save_row-Keeps incident (ok at) r (some score) none c h = h
  save_row-Keeps incident (ok at) r (some score) (some confidence) c h =
      let new = row_of cols (c.next_incident) at score confidence r in
      elim (Bool-cases (report_fits cols r)) [
        | inl e ↦ rw e (
          has_incident-upsert cols incident new (c.incident_reports) (h.0),
          upsert-IsClosed cols incident new (c.incident_reports) (inl (h.0)) (h.1),
        )
        | inr ne ↦ rw ne h
      ]

  review_row-Keeps :
      (incident : String) (start : Outcome ℕ) (other reviewer notes : String) (c : Conn cols)
      → Keeps incident c
      → Keeps incident ((review_row cols start other reviewer notes c).1)
  review_row-Keeps incident (err e) other reviewer notes c h = h
  review_row-Keeps incident (ok at) other reviewer notes c h =
      elim (Bool-cases (has_incident cols other (c.incident_reports) && not (fits 64 reviewer))) [
        | inl e ↦ rw e h
        | inr ne ↦ rw ne (
          rw (has_incident-review_rows cols incident other reviewer notes at (c.incident_reports))
              (h.0),
          review_rows-keeps cols incident other reviewer notes at (c.incident_reports) (h.1),
        )
      ]

  query-Keeps :
      (incident : String) (start : Outcome ℕ) (rows : List (IncidentRow F J)) (c : Conn cols)
      → Keeps incident c
      → Keeps incident ((query cols start rows c).1)
  query-Keeps incident (err e) rows c h = h
  query-Keeps incident (ok at) rows c h = h

  log_row-Keeps :
      (incident : String) (start : Outcome ℕ) (e : AuditEvent D) (c : Conn cols)
      → Keeps incident c
      → Keeps incident ((log_row cols start e c).1)
  log_row-Keeps incident (err x) e c h = h
  log_row-Keeps incident (ok at) e c h = elim (Bool-cases (event_fits cols e)) [
    | inl t ↦ rw t h
    | inr f ↦ rw f h
  ]

  perform-Keeps :
      (incident : String) (q : Request F D) (c : Conn cols)
      → Keeps incident c
      → Keeps incident ((perform cols q c).1)
  unfolding perform save_incident_report get_incident_history get_pending_reviews
      update_incident_review log_audit_event
  perform-Keeps incident (save now r) c h =
      save_row-Keeps incident (started now (c.transaction)) r _ _ c h
  perform-Keeps incident (history_of now account limit) c h =
      query-Keeps incident (started now (c.transaction)) (history cols account limit c) c h
  perform-Keeps incident (pending_reviews now limit) c h =
      query-Keeps incident (started now (c.transaction)) (pending cols limit c) c h
  perform-Keeps incident (review now other reviewer notes) c h =
      review_row-Keeps incident (started now (c.transaction)) other reviewer notes c h
  perform-Keeps incident (log now e) c h =
      log_row-Keeps incident (started now (c.transaction)) e c h

  review_row-settles :
      (start : Outcome ℕ) (incident reviewer notes : String) (c : Conn cols)
      → has_incident cols incident (c.incident_reports) ≡ true
      → (review_row cols start incident reviewer notes c).0 ≡ ok tt
      → Keeps incident ((review_row cols start incident reviewer notes c).1)
  review_row-settles (err e) incident reviewer notes c h k = cc
  review_row-settles (ok at) incident reviewer notes c h k =
      elim (Bool-cases
        (has_incident cols incident (c.incident_reports) && not (fits 64 reviewer))) [
          | inl e ↦ absurd (err-ne-ok (rw e at k))
          | inr ne ↦ rw ne (
            rw
                (has_incident-review_rows cols incident incident reviewer notes at
                  (c.incident_reports))
                h,
            review_rows-IsClosed cols incident reviewer notes at (c.incident_reports),
          )
        ]

  query-IsElse :
      (incident : String) (start : Outcome ℕ) (rows : List (IncidentRow F J)) (c : Conn cols)
      → All (IsElse incident) rows
      → After (All (IsElse incident)) ((query cols start rows c).0)
  query-IsElse incident (err e) rows c h = tt
  query-IsElse incident (ok at) rows c h = h

  -- Once a review of a stored incident has been accepted, no answer of get_pending_reviews names the
  -- incident again, whatever calls come between: other reviews, and reports of the same incident
  -- that ask for a review, included.
  pub update_incident_review-settles :
      (now : ℕ) (incident reviewer notes : String) (c : Conn cols) (later : List (Request F D))
      (then_ limit : ℕ)
      → has_incident cols incident (c.incident_reports) ≡ true
      → (update_incident_review cols now incident reviewer notes c).0 ≡ ok tt
      → let reviewed = (update_incident_review cols now incident reviewer notes c).1 in
        let last = (perform_all cols later reviewed).1 in
        After (All (IsElse incident)) ((get_pending_reviews cols then_ limit last).0)
  unfolding update_incident_review get_pending_reviews
  update_incident_review-settles now incident reviewer notes c later then_ limit h k =
      let reviewed = (update_incident_review cols now incident reviewer notes c).1 in
      let last : Conn cols = (perform_all cols later reviewed).1 in
      let settled : Keeps incident last =
        perform_all-keeps cols (Keeps incident) (perform-Keeps incident) later reviewed
          (review_row-settles (started now (c.transaction)) incident reviewer notes c h k) in
      query-IsElse incident (started then_ (last.transaction)) (pending cols limit last) last
        (pending-IsElse cols incident limit last settled)
