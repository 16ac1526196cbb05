-- ===== src/Anomaly/Velocity/History.antt =====
-- The window that velocity_check.py keeps for an account, after any sequence of events whose
-- times do not go back, against the whole history of the account.
use aero_risk_ai.Base.{
  ℕ, ◌-◌, ◌*◌, ◌≤◌, String, ◌≡◌, refl, sym, ap, ◌∙◌, true, false, List, [], ◌∷◌, ◌++◌, arith,
  str_eq, eq_iff, if◌then◌else◌, Bool-cases, inl, inr,
}
use text.Mathlib.TextPositions.{eq_refl}
use aero_risk_ai.Base.Lists.{All, select, select-append, All-append}
use aero_risk_ai.Base.Dict.{Dict, insert, get_or, lookup-insert}
use aero_risk_ai.Base.Float.{Float}
use aero_risk_ai.Models.Event.{OrderEvent}
use aero_risk_ai.Anomaly.Velocity.{VelocityChecker, micros, slide, opened, check}
use aero_risk_ai.Anomaly.Velocity.Window.{
  IsSorted, since, drop_old-eq-select, select-All, select-IsSorted, snoc-IsSorted, select-select,
  All-ge,
}

abbrev pub window_of : String → VelocityChecker → List ℕ
window_of a c = get_or a [] c.account_windows

slide-IsSorted :
    (size now : ℕ) (w : List ℕ) → IsSorted w → All (λ t. t ≤ now) w → IsSorted (slide size now w)
unfolding slide
slide-IsSorted size now w h k = rw (drop_old-eq-select (now - size * micros) w h) (
    snoc-IsSorted (select (since (now - size * micros)) w) now
      (select-IsSorted (since (now - size * micros)) w h)
      (select-All (λ t. t ≤ now) (since (now - size * micros)) w k))

slide-All :
    (size now : ℕ) (w : List ℕ)
    → IsSorted w
    → All (λ t. t ≤ now) w
    → All (λ t. t ≤ now) (slide size now w)
unfolding slide
slide-All size now w h k = rw (drop_old-eq-select (now - size * micros) w h) (
    All-append (λ t. t ≤ now) (select (since (now - size * micros)) w) (now ∷ [])
      (select-All (λ t. t ≤ now) (since (now - size * micros)) w k) ((omega arith), tt))

select-slide :
    (size now k : ℕ) (w : List ℕ)
    → now - size * micros ≤ k
    → IsSorted w
    → select (since k) (slide size now w) ≡ select (since k) (w ++ now ∷ [])
unfolding slide
select-slide size now k w le h =
    rw (drop_old-eq-select (now - size * micros) w h)
      (simp (select-append, select-select (now - size * micros) k w le))

-- The window after a slide keeps what lies in it.
slide-recent :
    (size now : ℕ) (w : List ℕ)
    → IsSorted w
    → select (since (now - size * micros)) (slide size now w) ≡ slide size now w
unfolding slide
slide-recent size now w h = rw (drop_old-eq-select (now - size * micros) w h) (
    simp (select-append, select-select (now - size * micros) (now - size * micros) w (omega arith))
      (ground arith))

-- The newest event stands first.
abbrev pub History : Type 0 → Type 0
History F = List (OrderEvent F × ℕ)

pub get_or-opened : (b a : String) (d : Dict (List ℕ)) → get_or a [] (opened b d) ≡ get_or a [] d
unfolding opened
get_or-opened b a d = ground (arith, lookup-insert b a [] d, eq_iff b a)

module _ {F : Type 0} ⦃fl : Float F⦄ where
  -- `check` slides the window of the event's account, and leaves every other window alone.
  pub window_of-check :
      (c : VelocityChecker) (e : OrderEvent F) (now : ℕ) (a : String)
      → c.window_size * micros ≤ now
      → window_of a (check c e now).1
        ≡ (if str_eq e.account_id a then slide c.window_size now (window_of a c) else window_of a c)
  window_of-check c e now a h =
      let b = e.account_id in
      let d = c.account_windows in
      let w = slide c.window_size now (get_or b [] (opened b d)) in
      ground (
        arith,
        checked c e now h,
        lookup-insert b a w (opened b d),
        eq_iff b a,
        get_or-opened b a d,
        get_or-opened b b d,
      )
    where
      checked :
          (c : VelocityChecker) (e : OrderEvent F) (now : ℕ)
          → c.window_size * micros ≤ now
          → (check c e now).1.account_windows
            ≡ insert e.account_id
                (slide c.window_size now
                  (get_or e.account_id [] (opened e.account_id c.account_windows)))
                (opened e.account_id c.account_windows)
      checked c e now h = unfold check in ground arith

  window_size-check :
      (c : VelocityChecker) (e : OrderEvent F) (now : ℕ)
      → (check c e now).1.window_size ≡ c.window_size
  unfolding check
  window_size-check c e now = ground arith

  pub run : VelocityChecker → History F → VelocityChecker
  run c [] = c
  run c ((e, now) ∷ older) = (check (run c older) e now).1

  -- The times of the events of an account, oldest first.
  pub times : String → History F → List ℕ
  times a [] = []
  times a ((e, now) ∷ older) =
      let before = times a older in if str_eq e.account_id a then before ++ now ∷ [] else before

  abbrev pub latest : History F → ℕ
  latest [] = 0
  latest ((e, now) ∷ older) = now

  -- The clock does not go back, and it stands past the first window.
  abbrev pub IsMonotone : ℕ → History F → Type 0
  IsMonotone size [] = Unit
  IsMonotone size ((e, now) ∷ older) =
      (latest older ≤ now) × (size * micros ≤ now) × IsMonotone size older

  window_size-run : (c : VelocityChecker) (h : History F) → (run c h).window_size ≡ c.window_size
  unfolding run
  window_size-run c [] = refl
  window_size-run c ((e, now) ∷ older) =
      window_size-check (run c older) e now ∙ window_size-run c older

  -- What the window of an account has in common with its history.
  record Tracks (size : ℕ) (a : String) (h : History F) (w : List ℕ) : Type 0 where
    sorted : IsSorted w
    bounded : All (λ t. t ≤ latest h) w
    recent :
        (k : ℕ) → latest h - size * micros ≤ k → select (since k) w ≡ select (since k) (times a h)

  Tracks-same :
      (size : ℕ) (a : String) (e : OrderEvent F) (now : ℕ) (h : History F) (w : List ℕ)
      → str_eq e.account_id a ≡ false
      → latest h ≤ now
      → Tracks size a h w
      → Tracks size a ((e, now) ∷ h) w
  unfolding times
  Tracks-same size a e now h w ne le t = record {
    sorted = t.sorted;
    bounded = All-ge (latest h) now w le t.bounded;
    recent = λ k lek. rw ne (t.recent k (omega arith));
  }

  Tracks-slide :
      (size : ℕ) (a : String) (e : OrderEvent F) (now : ℕ) (h : History F) (w : List ℕ)
      → str_eq e.account_id a ≡ true
      → latest h ≤ now
      → Tracks size a h w
      → Tracks size a ((e, now) ∷ h) (slide size now w)
  unfolding times
  Tracks-slide size a e now h w same le t =
      let below = All-ge (latest h) now w le t.bounded in
      record {
        sorted = slide-IsSorted size now w t.sorted below;
        bounded = slide-All size now w t.sorted below;
        recent = λ k lek. rw same (
            select-slide size now k w lek t.sorted
            ∙ simp (select-append, t.recent k (omega arith)));
      }

  run-Tracks :
      (c : VelocityChecker) (a : String) (h : History F)
      → window_of a c ≡ []
      → IsMonotone c.window_size h
      → Tracks c.window_size a h (window_of a (run c h))
  unfolding run times
  run-Tracks c a [] e m = rw e (record { sorted = tt; bounded = tt; recent = λ k _. refl })
  run-Tracks c a ((e, now) ∷ older) empty (le, past, m) =
      let s = window_size-run c older in
      let before = run-Tracks c a older empty m in
      rw (window_of-check (run c older) e now a (rw s past))
        (elim (Bool-cases (str_eq e.account_id a)) [
          | inl same ↦ rw (same, s) (Tracks-slide c.window_size a e now older _ same le before)
          | inr ne ↦ rw ne (Tracks-same c.window_size a e now older _ ne le before)
        ])

  run-slide :
      (c : VelocityChecker) (e : OrderEvent F) (now : ℕ) (older : History F)
      → c.window_size * micros ≤ now
      → window_of e.account_id (run c ((e, now) ∷ older))
        ≡ slide c.window_size now (window_of e.account_id (run c older))
  unfolding run
  run-slide c e now older past =
      let s = window_size-run c older in
      rw (window_of-check (run c older) e now e.account_id (rw s past), s, eq_refl e.account_id)

  -- A checker that starts with no window for an account, after any events whose times do not go
  -- back, are not less than the window's size, and ended with an event of the account, holds exactly
  -- the times of the account's events that are not older than the window, in order.
  pub recent_window-run :
      (c : VelocityChecker) (e : OrderEvent F) (now : ℕ) (older : History F)
      → window_of e.account_id c ≡ []
      → IsMonotone c.window_size ((e, now) ∷ older)
      → window_of e.account_id (run c ((e, now) ∷ older))
        ≡ select (since (now - c.window_size * micros)) (times e.account_id ((e, now) ∷ older))
  recent_window-run c e now older empty (le, past, m) =
      let size = c.window_size in
      let a = e.account_id in
      let before = run-Tracks c a older empty m in
      let after = run-Tracks c a ((e, now) ∷ older) empty (le, past, m) in
      let step = run-slide c e now older past in
      step
      ∙ sym (slide-recent size now (window_of a (run c older)) before.sorted)
      ∙ ap (select (since (now - size * micros))) (sym step)
      ∙ after.recent (now - size * micros) (omega arith)
