-- ===== src/Screening/Outage.antt =====
-- ai_guardrail/aerorisk/agents/agent2_rag/sanctions.py: a screening while the search is down.
use mathlib.Core.Path.{subst}
use aero_risk_ai.Base.{String, ◌≡◌, refl, sym, ap, Bool, false, Option, none, some, List, [], ◌∷◌}
use aero_risk_ai.Base.Dict.{lookup}
use aero_risk_ai.Base.Outcome.{Outcome, ok, err, Error}
use aero_risk_ai.Base.Exec.{recover, outside, Leads, Leads-bind, Holds}
use aero_risk_ai.Screening.{
  Databases, MatchCache, Screener, screen_identifier, answer_or, remember, identifiers_of, scan,
  with_details, screen_afresh, screen_with, screen_user,
}
use aero_risk_ai.Screening.Cache.{remembered}

module _ {W F Info Hit Match : Type 0} (db : Databases W F Info Hit Match) (threshold : F) where
  -- Every search raises.
  abbrev pub IsDown : Type 0
  IsDown = (text : String) (w : W) → (e : Error) × ((db.search_similar text threshold w).0 ≡ err e)

  -- The user is let through, and remembered as clean.
  abbrev pub IsCleared : String → Bool × Option Match → Screener db threshold → Type 0
  IsCleared user r v = (r ≡ (false, none)) × (lookup user (v.1) ≡ some (none, false))

  identifier-none :
      (identifier : String) (w : Screener db threshold)
      → IsDown
      → Leads (outside (screen_identifier db threshold identifier)) w (λ found v. found ≡ none)
  unfolding screen_identifier
  identifier-none identifier w down = let (e, raised) = down identifier (w.0) in rw raised refl

  scan-IsCleared :
      (user : String) (identifiers : List String) (w : Screener db threshold)
      → IsDown
      → Leads (scan db threshold user identifiers) w (IsCleared user)
  unfolding scan answer_or remember
  scan-IsCleared user [] w down = (refl, (remembered db threshold user (none, false) (w.1)).0)
  scan-IsCleared user (identifier ∷ rest) w down =
      Leads-bind (λ found v. found ≡ none) (IsCleared user)
        (outside (screen_identifier db threshold identifier))
        (answer_or db threshold user (scan db threshold user rest)) w
        (identifier-none identifier w down)
        (λ found v k.
          subst
            (λ (o : Option Match).
              Leads (answer_or db threshold user (scan db threshold user rest) o) v
                (IsCleared user))
            (sym k) (scan-IsCleared user rest v down))

  afresh-IsCleared :
      (user : String) (info : Info) (w : W) (cache : MatchCache db threshold)
      → IsDown
      → (db.get_user_details user w).0 ≡ ok (some info)
      → Leads (screen_afresh db threshold user) (w, cache) (IsCleared user)
  unfolding screen_afresh with_details
  afresh-IsCleared user info w cache down found = rw found (
      close _ _ (
        scan-IsCleared user (identifiers_of db threshold info)
          ((db.get_user_details user w).1, cache) down))
    where
      close :
          (o : Outcome (Bool × Option Match)) (v : Screener db threshold)
          → Holds o v (IsCleared user)
          → IsCleared user (recover (false, none) o) v
      close (ok r) v h = h
      close (err e) v h = elim h [ ]

  -- A user who is not cached, whose details are found and who is screened while every search raises
  -- is let through; and every later screening from that cache, whatever the databases then answer,
  -- lets the user through too.
  pub screen_user-outage :
      (user : String) (info : Info) (w : W) (cache : MatchCache db threshold)
      (later : Databases W F Info Hit Match) (v : W)
      → IsDown
      → lookup user cache ≡ none
      → (db.get_user_details user w).0 ≡ ok (some info)
      → let after = screen_user db threshold user (w, cache) in
        (after.0 ≡ ok (false, none))
        × ((screen_user later threshold user (v, after.1.1)).0 ≡ ok (false, none))
  unfolding screen_user screen_with
  screen_user-outage user info w cache later v down new found = rw new (
      go ((screen_afresh db threshold user (w, cache)).0)
        ((screen_afresh db threshold user (w, cache)).1)
        (afresh-IsCleared user info w cache down found))
    where
      go :
          (o : Outcome (Bool × Option Match)) (x : Screener db threshold)
          → Holds o x (IsCleared user)
          → (o ≡ ok (false, none))
            × ((screen_with later threshold user (lookup user (x.1)) (v, x.1)).0 ≡ ok (false, none))
      go (ok r) x (e, k) = (ap ok e, rw k refl)
      go (err e) x h = elim h [ ]
