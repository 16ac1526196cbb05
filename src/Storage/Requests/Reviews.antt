-- ===== src/Storage/Requests/Reviews.antt =====
-- ai_guardrail/aerorisk/storage/qdrant_client.py: the rows of reviewed incidents under the
-- statements.
pub mod Settled
use aero_risk_ai.Base.{
  ℕ, not, none, String, ◌≡◌, refl, ◌⊎◌, inl, inr, true, false, Option, some, List, [], ◌∷◌, arith,
  str_eq, eq_iff, Bool-cases, ◌&&◌, leb,
}
use aero_risk_ai.Base.Lists.{All, All-take, select}
use aero_risk_ai.Base.Outcome.{Outcome, ok, err, err-ne-ok}
use aero_risk_ai.Base.Exec.{After}
use aero_risk_ai.Storage.{
  IncidentRow, SavedReport, AuditEvent, Columns, Conn, started, row_of, excluded, upsert, save_row,
  save_incident_report, get_incident_history, get_pending_reviews, update_incident_review,
  review_row, report_fits, fits, query, event_fits, history, review_rows, has_incident,
  log_audit_event, log_row, is_pending, is_null, pending, place, order_by,
}
use aero_risk_ai.Storage.Requests.{
  Request, save, history_of, pending_reviews, review, log, perform, perform_all, perform_all-keeps,
}

-- A row of another incident, or one that has been reviewed.
abbrev pub IsClosed : {F J : Type 0} → String → IncidentRow F J → Type 0
IsClosed incident r = (str_eq (r.incident_id) incident ≡ false) ⊎ (is_null (r.reviewed_at) ≡ false)

-- A row of another incident.
abbrev pub IsElse : {F J : Type 0} → String → IncidentRow F J → Type 0
IsElse incident r = str_eq (r.incident_id) incident ≡ false

module _ {F J D : Type 0} (cols : Columns F J D) where
  abbrev pub IsSettled : String → List (IncidentRow F J) → Type 0
  IsSettled incident rows = (has_incident cols incident rows ≡ true) × All (IsClosed incident) rows

  still-apart :
      (incident : String) (new r : IncidentRow F J) (rows : List (IncidentRow F J))
      → str_eq (r.incident_id) (new.incident_id) ≡ false
      → (has_incident cols incident (r ∷ rows) ≡ true) ⊎ (str_eq (new.incident_id) incident ≡ false)
      → (has_incident cols incident rows ≡ true) ⊎ (str_eq (new.incident_id) incident ≡ false)
  unfolding has_incident
  still-apart incident new r rows ne h = ground (
    arith,
    eq_iff (r.incident_id) (new.incident_id),
    eq_iff (r.incident_id) incident,
    eq_iff (new.incident_id) incident,
  )

  pub upsert-IsClosed :
      (incident : String) (new : IncidentRow F J) (rows : List (IncidentRow F J))
      → (has_incident cols incident rows ≡ true) ⊎ (str_eq (new.incident_id) incident ≡ false)
      → All (IsClosed incident) rows
      → All (IsClosed incident) (upsert cols new rows)
  unfolding upsert has_incident excluded
  upsert-IsClosed incident new [] (inl h) k = cc
  upsert-IsClosed incident new [] (inr h) k = (inl h, tt)
  upsert-IsClosed incident new (r ∷ rows) h k =
      elim (Bool-cases (str_eq (r.incident_id) (new.incident_id))) [
        | inl e ↦ rw e k
        | inr ne ↦
            rw ne
              (k.0, upsert-IsClosed incident new rows (still-apart incident new r rows ne h) (k.1))
      ]

  pub has_incident-upsert :
      (incident : String) (new : IncidentRow F J) (rows : List (IncidentRow F J))
      → has_incident cols incident rows ≡ true
      → has_incident cols incident (upsert cols new rows) ≡ true
  unfolding upsert has_incident excluded
  has_incident-upsert incident new [] h = cc
  has_incident-upsert incident new (r ∷ rows) h =
      ground (arith, has_incident-upsert incident new rows)

  pub has_incident-review_rows :
      (incident other reviewer notes : String) (at : ℕ) (rows : List (IncidentRow F J))
      → has_incident cols incident (review_rows cols other reviewer notes at rows)
        ≡ has_incident cols incident rows
  unfolding review_rows has_incident
  has_incident-review_rows incident other reviewer notes at [] = refl
  has_incident-review_rows incident other reviewer notes at (r ∷ rows) =
      ground (arith, has_incident-review_rows incident other reviewer notes at rows)

  pub review_rows-keeps :
      (incident other reviewer notes : String) (at : ℕ) (rows : List (IncidentRow F J))
      → All (IsClosed incident) rows
      → All (IsClosed incident) (review_rows cols other reviewer notes at rows)
  unfolding review_rows
  review_rows-keeps incident other reviewer notes at [] k = tt
  review_rows-keeps incident other reviewer notes at (r ∷ rows) k =
      let rest = review_rows-keeps incident other reviewer notes at rows (k.1) in
      elim (Bool-cases (str_eq (r.incident_id) other)) [
        | inl e ↦ rw e (inr refl, rest)
        | inr ne ↦ rw ne (k.0, rest)
      ]

  -- An update closes every row of the incident.
  pub review_rows-IsClosed :
      (incident reviewer notes : String) (at : ℕ) (rows : List (IncidentRow F J))
      → All (IsClosed incident) (review_rows cols incident reviewer notes at rows)
  unfolding review_rows
  review_rows-IsClosed incident reviewer notes at [] = tt
  review_rows-IsClosed incident reviewer notes at (r ∷ rows) =
      let rest = review_rows-IsClosed incident reviewer notes at rows in
      elim (Bool-cases (str_eq (r.incident_id) incident)) [
        | inl e ↦ rw e (inr refl, rest)
        | inr ne ↦ rw ne (inl ne, rest)
      ]

  place-All :
      (P : IncidentRow F J → Type 0) (r : IncidentRow F J) (rows : List (IncidentRow F J))
      → P r
      → All P rows
      → All P (place (λ (x : IncidentRow F J). x.created_at) r rows)
  place-All P r [] h k = (h, tt)
  place-All P r (s ∷ rows) h k = elim (Bool-cases (leb (r.created_at) (s.created_at))) [
    | inl e ↦ rw e (h, k)
    | inr ne ↦ rw ne (k.0, place-All P r rows h (k.1))
  ]

  order_by-All :
      (P : IncidentRow F J → Type 0) (rows : List (IncidentRow F J))
      → All P rows
      → All P (order_by (λ (x : IncidentRow F J). x.created_at) rows)
  order_by-All P [] k = tt
  order_by-All P (r ∷ rows) k = place-All P r _ (k.0) (order_by-All P rows (k.1))

  select-IsElse :
      (incident : String) (rows : List (IncidentRow F J))
      → All (IsClosed incident) rows
      → All (IsElse incident) (select (is_pending cols) rows)
  select-IsElse incident [] k = tt
  select-IsElse incident (r ∷ rows) (h, k) = elim (Bool-cases (is_pending cols r)) [
    | inl e ↦ rw e (ground arith, select-IsElse incident rows k)
    | inr ne ↦ rw ne (select-IsElse incident rows k)
  ]

  -- No row of a settled incident is pending.
  pub pending-IsElse :
      (incident : String) (limit : ℕ) (c : Conn cols)
      → IsSettled incident (c.incident_reports)
      → All (IsElse incident) (pending cols limit c)
  unfolding pending
  pending-IsElse incident limit c (_, k) =
      All-take (IsElse incident) limit _
        (order_by-All (IsElse incident) _ (select-IsElse incident (c.incident_reports) k))
