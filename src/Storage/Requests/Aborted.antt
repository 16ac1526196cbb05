-- ===== src/Storage/Requests/Aborted.antt =====
-- ai_guardrail/aerorisk/storage/qdrant_client.py: what a failed statement leaves of the connection,
-- which no method rolls back.
use aero_risk_ai.Base.{ℕ, ◌≡◌, refl, false, Option, List, [], ◌⊎◌, ◌∷◌, arith, none, some, inl, inr}
use aero_risk_ai.Base.Lists.{length, replicate}
use aero_risk_ai.Base.Outcome.{ok, err}
use aero_risk_ai.Storage.{
  SavedReport, Columns, Transaction, Conn, idle, open_since, aborted, in_aborted, started, save_row,
  save_incident_report, get_incident_history, get_pending_reviews, update_incident_review,
  log_audit_event, report_fits, refused,
}
use aero_risk_ai.Storage.Requests.{
  Request, save, history_of, pending_reviews, review, log, perform, perform_all,
}

module _ {F J D : Type 0} (cols : Columns F J D) where
  perform-aborted :
      (q : Request F D) (c : Conn cols)
      → c.transaction ≡ aborted
      → perform cols q c ≡ (err in_aborted, c)
  unfolding perform save_incident_report get_incident_history get_pending_reviews
      update_incident_review log_audit_event
  perform-aborted (save now r) c h = ground arith
  perform-aborted (history_of now account limit) c h = ground arith
  perform-aborted (pending_reviews now limit) c h = ground arith
  perform-aborted (review now incident reviewer notes) c h = ground arith
  perform-aborted (log now e) c h = ground arith

  perform_all-aborted :
      (qs : List (Request F D)) (c : Conn cols)
      → c.transaction ≡ aborted
      → perform_all cols qs c ≡ (replicate (length qs) (err in_aborted), c)
  unfolding perform_all
  perform_all-aborted [] c h = refl
  perform_all-aborted (q ∷ qs) c h = rw (perform-aborted q c h, perform_all-aborted qs c h) refl

  abbrev pub IsRefused : SavedReport F D → Type 0
  IsRefused r =
      (report_fits cols r ≡ false)
      ⊎ ((cols.decimal (r.risk_score) ≡ none) ⊎ (cols.decimal (r.confidence) ≡ none))

  save_row-refused :
      (at : ℕ) (r : SavedReport F D) (score confidence : Option F) (c : Conn cols)
      → (report_fits cols r ≡ false) ⊎ ((score ≡ none) ⊎ (confidence ≡ none))
      → save_row cols (ok at) r score confidence c
        ≡ (err refused, record c { transaction = aborted })
  save_row-refused at r none confidence c h = refl
  save_row-refused at r (some score) none c h = refl
  save_row-refused at r (some score) (some confidence) c (inl h) = rw h refl
  save_row-refused at r (some score) (some confidence) c (inr h) = ground arith

  abbrev IsAbortedAs : Conn cols → Conn cols → Type 0
  IsAbortedAs c after =
      (after.transaction ≡ aborted) × (after.incident_reports ≡ c.incident_reports)

  save_row-IsAborted :
      (now : ℕ) (t : Transaction) (r : SavedReport F D) (c : Conn cols)
      → c.transaction ≡ t
      → IsRefused r
      → IsAbortedAs c (
          (save_row cols
            (started now t)
            r
            (cols.decimal (r.risk_score))
            (cols.decimal (r.confidence))
            c).1)
  save_row-IsAborted now idle r c e h = rw (save_row-refused now r _ _ c h) (refl, refl)
  save_row-IsAborted now (open_since t) r c e h = rw (save_row-refused t r _ _ c h) (refl, refl)
  save_row-IsAborted now aborted r c e h = (e, refl)

  -- A report that Postgres refuses, for an identifier that its column does not take, with more than blanks beyond the width, or a number that
  -- DECIMAL(5,4) cannot hold, is not saved, and every later call of any method raises.
  pub save_incident_report-aborts :
      (now : ℕ) (r : SavedReport F D) (c : Conn cols) (qs : List (Request F D))
      → IsRefused r
      → let after = (save_incident_report cols now r c).1 in
        (after.incident_reports ≡ c.incident_reports)
        × (perform_all cols qs after ≡ (replicate (length qs) (err in_aborted), after))
  unfolding save_incident_report
  save_incident_report-aborts now r c qs h =
      let (dead, same) = save_row-IsAborted now (c.transaction) r c refl h in
      (same, perform_all-aborted qs _ dead)
