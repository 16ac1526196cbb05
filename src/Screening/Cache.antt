-- ===== src/Screening/Cache.antt =====
-- ai_guardrail/aerorisk/agents/agent2_rag/sanctions.py: what a screening answers and remembers.
use mathlib.Core.Path.{subst}
use aero_risk_ai.Base.{
  String, ◌≡◌, refl, sym, ap, ◌∙◌, ◌⊎◌, inl, inr, Bool, true, false, Option, none, some, List, [],
  ◌∷◌, arith, str_eq, eq_iff,
}
use aero_risk_ai.Base.Dict.{lookup, insert, lookup-insert}
use aero_risk_ai.Base.Outcome.{Outcome, ok, err, err-ne-ok}
use aero_risk_ai.Base.Exec.{pure, recover, outside, continue, Leads, Leads-bind, Holds}
use aero_risk_ai.Screening.{
  Databases, MatchCache, Screener, match_of, top_match, screen_identifier, answer_or, remember,
  identifiers_of, scan, with_details, screen_afresh, screen_with, screen_user,
}

module _ {W F Info Hit Match : Type 0} (db : Databases W F Info Hit Match) (threshold : F) where
  -- The first hit of a search is the match.
  abbrev pub IsHit : Outcome (List Hit) → Match → Type 0
  IsHit (ok (hit ∷ hits)) m = match_of db threshold hit ≡ ok m
  IsHit _ m = ⊥

  -- The searches of the identifiers, one after another, up to the first that has a match.
  abbrev pub Searched : List String → W → Option Match → W → Type 0
  Searched [] w none after = after ≡ w
  Searched [] w (some m) after = ⊥
  Searched (identifier ∷ identifiers) w found after =
      let (hits, v) = db.search_similar identifier threshold w in
      ((m : Match) × (found ≡ some m) × IsHit hits m × (after ≡ v))
      ⊎ (((m : Match) → IsHit hits m → ⊥) × Searched identifiers v found after)

  abbrev pub is_blocked : Option Match → Bool
  is_blocked none = false
  is_blocked (some m) = true

  -- The entries of other users stay.
  abbrev pub OnlyOf : String → MatchCache db threshold → MatchCache db threshold → Type 0
  OnlyOf user old cache = (j : String) → (str_eq user j ≡ true) ⊎ (lookup j cache ≡ lookup j old)

  -- A screening that searched answers with the match it found, and caches it, or that there is none.
  abbrev pub IsScanned :
      String
      → List String
      → Screener db threshold
      → Bool × Option Match
      → Screener db threshold
      → Type 0
  IsScanned user identifiers (w, old) r v =
      (found : Option Match) × Searched identifiers w found (v.0)
      × (r ≡ (is_blocked found, found))
      × (v.1 ≡ insert user (found, is_blocked found) old)

  -- Without details of the user nothing is searched and nothing is cached.
  abbrev pub IsAfresh :
      String
      → Outcome (Option Info)
      → Screener db threshold
      → Bool × Option Match
      → Screener db threshold
      → Type 0
  IsAfresh user (ok (some info)) s r v = IsScanned user (identifiers_of db threshold info) s r v
  IsAfresh user _ s r v = (r ≡ (false, none)) × (v ≡ s)

  abbrev pub IsScreened :
      String
      → Option (Option Match × Bool)
      → Screener db threshold
      → Bool × Option Match
      → Screener db threshold
      → Type 0
  IsScreened user (some (x, false)) s r v = (r ≡ (false, none)) × (v ≡ s)
  IsScreened user _ (w, old) r v =
      let (details, w1) = db.get_user_details user w in IsAfresh user details (w1, old) r v

  pub remembered :
      (user : String) (entry : Option Match × Bool) (old : MatchCache db threshold)
      → (lookup user (insert user entry old) ≡ some entry) × OnlyOf user old (insert user entry old)
  remembered user entry old = (
    ground (arith, lookup-insert user user entry old, eq_iff user user),
    λ j. ground (arith, lookup-insert user j entry old),
  )

  -- What the screening of an identifier makes of the hits.
  abbrev Judged : Outcome (List Hit) → Option Match → Type 0
  Judged hits none = (m : Match) → IsHit hits m → ⊥
  Judged hits (some m) = IsHit hits m

  -- An identifier is screened without a raise, whatever the search does.
  identifier-Leads :
      (identifier : String) (s : Screener db threshold)
      → let (hits, w1) = db.search_similar identifier threshold (s.0) in
        Leads
          (outside (screen_identifier db threshold identifier))
          s
          (λ found v. Judged hits found × (v ≡ (w1, s.1)))
  unfolding screen_identifier top_match
  identifier-Leads identifier (w, cache) =
      go ((db.search_similar identifier threshold w).0)
        ((db.search_similar identifier threshold w).1)
    where
      made :
          (hit : Hit) (hits : List Hit) (o : Outcome Match) (v : W)
          → match_of db threshold hit ≡ o
          → Judged (ok (hit ∷ hits)) (recover none ((continue o (λ m. pure (some m)) v).0))
            × (◌≡◌ {A = Screener db threshold}
                ((continue o (λ m. pure (some m)) v).1, cache)
                (v, cache))
      made hit hits (ok m) v e = (e, refl)
      made hit hits (err x) v e = ((λ m h. err-ne-ok (sym e ∙ h)), refl)

      go :
          (hits : Outcome (List Hit)) (v : W)
          → Judged hits (recover none ((continue hits (top_match db threshold) v).0))
            × (◌≡◌ {A = Screener db threshold}
                ((continue hits (top_match db threshold) v).1, cache)
                (v, cache))
      go (ok []) v = ((λ m h. h), refl)
      go (ok (hit ∷ hits)) v = made hit hits (match_of db threshold hit) v refl
      go (err x) v = ((λ m h. h), refl)

  -- The scan, where one of the identifiers after the first is as it should be.
  step-IsScanned :
      (user identifier : String) (rest : List String) (w : W) (cache : MatchCache db threshold)
      → let (hits, w1) = db.search_similar identifier threshold w in
        Leads (scan db threshold user rest) (w1, cache) (IsScanned user rest (w1, cache))
        → (found : Option Match) (v : Screener db threshold) → Judged hits found × (v ≡ (w1, cache))
        → Leads
            (answer_or db threshold user (scan db threshold user rest) found)
            v
            (IsScanned user (identifier ∷ rest) (w, cache))
  unfolding answer_or remember
  step-IsScanned user identifier rest w cache after none v (misses, e) =
      subst
        (λ (u : Screener db threshold).
          Leads (scan db threshold user rest) u (IsScanned user (identifier ∷ rest) (w, cache)))
        (sym e) (later _ _ after)
    where
      later :
          (o : Outcome (Bool × Option Match)) (v : Screener db threshold)
          → Holds o v (IsScanned user rest ((db.search_similar identifier threshold w).1, cache))
          → Holds o v (IsScanned user (identifier ∷ rest) (w, cache))
      later (ok r) v (found, searched, a, b) = (found, inr (misses, searched), a, b)
      later (err x) v h = h
  step-IsScanned user identifier rest w cache after (some m) v (hit, e) =
      (some m, inl (m, refl, hit, ap (λ (u : Screener db threshold). u.0) e), refl, rw e refl)

  scan-IsScanned :
      (user : String) (identifiers : List String) (s : Screener db threshold)
      → Leads (scan db threshold user identifiers) s (IsScanned user identifiers s)
  unfolding scan remember
  scan-IsScanned user [] s = (none, refl, refl, refl)
  scan-IsScanned user (identifier ∷ rest) (w, cache) =
      Leads-bind
        (λ found v.
          Judged ((db.search_similar identifier threshold w).0) found
          × (v ≡ ((db.search_similar identifier threshold w).1, cache)))
        (IsScanned user (identifier ∷ rest) (w, cache))
        (outside (screen_identifier db threshold identifier))
        (answer_or db threshold user (scan db threshold user rest)) (w, cache)
        (identifier-Leads identifier (w, cache))
        (step-IsScanned user identifier rest w cache
          (scan-IsScanned user rest ((db.search_similar identifier threshold w).1, cache)))

  details-IsAfresh :
      (user : String) (w : W) (cache : MatchCache db threshold)
      → let (details, w1) = db.get_user_details user w in
        Leads (screen_afresh db threshold user) (w, cache) (IsAfresh user details (w1, cache))
  unfolding screen_afresh with_details
  details-IsAfresh user w cache =
      go ((db.get_user_details user w).0) ((db.get_user_details user w).1)
    where
      close :
          (P : Bool × Option Match → Screener db threshold → Type 0)
          (o : Outcome (Bool × Option Match)) (v : Screener db threshold)
          → Holds o v P
          → P (recover (false, none) o) v
      close P (ok r) v h = h
      close P (err e) v h = elim h [ ]

      go :
          (details : Outcome (Option Info)) (v : W)
          → let r = continue details (with_details db threshold user) (v, cache) in
            IsAfresh user details (v, cache) (recover (false, none) (r.0)) (r.1)
      go (ok (some info)) v =
          close (IsScanned user (identifiers_of db threshold info) (v, cache)) _ _
            (scan-IsScanned user (identifiers_of db threshold info) (v, cache))
      go (ok none) v = (refl, refl)
      go (err e) v = (refl, refl)

  with-IsScreened :
      (user : String) (entry : Option (Option Match × Bool)) (w : W)
      (cache : MatchCache db threshold)
      → Leads (screen_with db threshold user entry) (w, cache) (IsScreened user entry (w, cache))
  unfolding screen_with
  with-IsScreened user none w cache = details-IsAfresh user w cache
  with-IsScreened user (some (found, true)) w cache = details-IsAfresh user w cache
  with-IsScreened user (some (found, false)) w cache = (refl, refl)

  -- A screening always returns, whatever the databases do. A user who is cached as clean is let
  -- through, without a call. Any other user is looked up: without details, or where that raises, the
  -- user is let through and nothing is cached; with details, the identifiers are searched in their
  -- order up to the first whose first hit makes a match, a search that raises counting as none. The
  -- user is blocked exactly when there is such a match, the answer is that match, and both are cached
  -- for the user, in place of what was cached.
  pub screen_user-IsScreened :
      (user : String) (w : W) (cache : MatchCache db threshold)
      → Leads
          (screen_user db threshold user)
          (w, cache)
          (IsScreened user (lookup user cache) (w, cache))
  unfolding screen_user
  screen_user-IsScreened user w cache = with-IsScreened user (lookup user cache) w cache
