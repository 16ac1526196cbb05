-- ===== src/Storage/Requests/AuditLog.antt =====
-- ai_guardrail/aerorisk/storage/qdrant_client.py: audit entries over every sequence of calls.
use aero_risk_ai.Base.{
  ℕ, String, ◌≡◌, refl, ◌⊎◌, inl, inr, Option, none, some, List, [], ◌∷◌, arith, str_eq, eq_iff,
  if◌then◌else◌, Bool-cases, Option-cases, ◌&&◌, not,
}
use aero_risk_ai.Base.Outcome.{Outcome, ok, err, err-ne-ok}
use aero_risk_ai.Storage.{
  cut, IncidentRow, AuditRow, SavedReport, AuditEvent, Columns, Conn, started, save_row,
  save_incident_report, get_incident_history, get_pending_reviews, update_incident_review,
  review_row, has_incident, log_audit_event, log_row, audit_row, insert_log, pending, query,
  history, report_fits, event_fits, fits,
}
use aero_risk_ai.Storage.Requests.{
  Request, save, history_of, pending_reviews, review, log, perform, perform_all, perform_all-keeps,
}

-- The entry of an identifier.
abbrev pub find_log : {J : Type 0} → String → List (AuditRow J) → Option (AuditRow J)
find_log id [] = none
find_log id (r ∷ rows) = if str_eq (r.log_id) id then some r else find_log id rows

module _ {F J D : Type 0} (cols : Columns F J D) where
  find_log-insert_log :
      (id : String) (new : AuditRow J) (rows : List (AuditRow J)) (row : AuditRow J)
      → find_log id rows ≡ some row
      → find_log id (insert_log cols new rows) ≡ some row
  unfolding insert_log
  find_log-insert_log id new [] row h = cc
  find_log-insert_log id new (r ∷ rows) row h = ground (arith, find_log-insert_log id new rows row)

  find_log-new :
      (new : AuditRow J) (rows : List (AuditRow J))
      → find_log (new.log_id) rows ≡ none
      → find_log (new.log_id) (insert_log cols new rows) ≡ some new
  unfolding insert_log
  find_log-new new [] h = ground (arith, eq_iff (new.log_id) (new.log_id))
  find_log-new new (r ∷ rows) h = ground (arith, find_log-new new rows)

  abbrev Holds : String → AuditRow J → Conn cols → Type 0
  Holds id row c = find_log id (c.audit_logs) ≡ some row

  save_row-Holds :
      (id : String) (row : AuditRow J) (start : Outcome ℕ) (r : SavedReport F D)
      (score confidence : Option F) (c : Conn cols)
      → Holds id row c
      → Holds id row ((save_row cols start r score confidence c).1)
  save_row-Holds id row (err e) r score confidence c h = h
  save_row-Holds id row (ok at) r none confidence c h = h
  save_row-Holds id row (ok at) r (some score) none c h = h
  save_row-Holds id row (ok at) r (some score) (some confidence) c h =
      elim (Bool-cases (report_fits cols r)) [ inl e ↦ rw e h | inr ne ↦ rw ne h ]

  review_row-Holds :
      (id : String) (row : AuditRow J) (start : Outcome ℕ) (other reviewer notes : String)
      (c : Conn cols)
      → Holds id row c
      → Holds id row ((review_row cols start other reviewer notes c).1)
  review_row-Holds id row (err e) other reviewer notes c h = h
  review_row-Holds id row (ok at) other reviewer notes c h =
      elim (Bool-cases (has_incident cols other (c.incident_reports) && not (fits 64 reviewer))) [
        | inl e ↦ rw e h
        | inr ne ↦ rw ne h
      ]

  query-Holds :
      (id : String) (row : AuditRow J) (start : Outcome ℕ) (rows : List (IncidentRow F J))
      (c : Conn cols)
      → Holds id row c
      → Holds id row ((query cols start rows c).1)
  query-Holds id row (err e) rows c h = h
  query-Holds id row (ok at) rows c h = h

  log_row-Holds :
      (id : String) (row : AuditRow J) (start : Outcome ℕ) (e : AuditEvent D) (c : Conn cols)
      → Holds id row c
      → Holds id row ((log_row cols start e c).1)
  log_row-Holds id row (err x) e c h = h
  log_row-Holds id row (ok at) e c h = elim (Bool-cases (event_fits cols e)) [
    | inl t ↦ rw t (find_log-insert_log id (audit_row cols (c.next_log) at e) (c.audit_logs) row h)
    | inr f ↦ rw f h
  ]

  perform-Holds :
      (id : String) (row : AuditRow J) (q : Request F D) (c : Conn cols)
      → Holds id row c
      → Holds id row ((perform cols q c).1)
  unfolding perform save_incident_report get_incident_history get_pending_reviews
      update_incident_review log_audit_event
  perform-Holds id row (save now r) c h =
      save_row-Holds id row (started now (c.transaction)) r _ _ c h
  perform-Holds id row (history_of now account limit) c h =
      query-Holds id row (started now (c.transaction)) (history cols account limit c) c h
  perform-Holds id row (pending_reviews now limit) c h =
      query-Holds id row (started now (c.transaction)) (pending cols limit c) c h
  perform-Holds id row (review now other reviewer notes) c h =
      review_row-Holds id row (started now (c.transaction)) other reviewer notes c h
  perform-Holds id row (log now e) c h = log_row-Holds id row (started now (c.transaction)) e c h

  -- The entry of the event: the one that was there, and none was replaced, or the event's own.
  abbrev pub IsEntry : AuditEvent D → Conn cols → AuditRow J → Type 0
  IsEntry e c row =
      (find_log (cut 64 e.log_id) (c.audit_logs) ≡ some row)
      ⊎ ((find_log (cut 64 e.log_id) (c.audit_logs) ≡ none)
          × (at : ℕ) × (row ≡ audit_row cols (c.next_log) at e))

  log_row-IsEntry :
      (start : Outcome ℕ) (e : AuditEvent D) (c : Conn cols)
      → (log_row cols start e c).0 ≡ ok tt
      → (row : AuditRow J) × IsEntry e c row
        × Holds (cut 64 e.log_id) row ((log_row cols start e c).1)
  unfolding audit_row
  log_row-IsEntry (err x) e c h = absurd (err-ne-ok h)
  log_row-IsEntry (ok at) e c h =
      let new : AuditRow J = audit_row cols (c.next_log) at e in
      elim (Bool-cases (event_fits cols e)) [
        | inl t ↦ elim (Option-cases (find_log (cut 64 e.log_id) (c.audit_logs))) [
          | inl absent ↦
              (new, inr (absent, at, refl), rw t (find_log-new new (c.audit_logs) absent))
          | inr (row, there) ↦ (
            row,
            inl there,
            rw t (find_log-insert_log (cut 64 e.log_id) new (c.audit_logs) row there),
          )
        ]
        | inr f ↦ absurd (err-ne-ok (rw f at h))
      ]

  -- An audit event that has been logged has an entry, which is the event's own unless its identifier
  -- was taken already; and no later call of any method changes or removes the entry.
  pub log_audit_event-stays :
      (now : ℕ) (e : AuditEvent D) (c : Conn cols) (later : List (Request F D))
      → (log_audit_event cols now e c).0 ≡ ok tt
      → let logged = (log_audit_event cols now e c).1 in
        (row : AuditRow J) × IsEntry e c row
        × (find_log (cut 64 e.log_id) (((perform_all cols later logged).1).audit_logs) ≡ some row)
  unfolding log_audit_event
  log_audit_event-stays now e c later h =
      let (row, entry, there) = log_row-IsEntry (started now (c.transaction)) e c h in
      (
        row,
        entry,
        perform_all-keeps cols (Holds (cut 64 e.log_id) row) (perform-Holds (cut 64 e.log_id) row)
            later _ there,
      )
