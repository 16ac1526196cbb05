-- ===== src/Profiles/Cache.antt =====
-- ai_guardrail/aerorisk/agents/agent2_rag/user_profile.py: the profiles that are returned, and the
-- cache.
use aero_risk_ai.Base.{
  ℕ, String, ◌≡◌, refl, ◌⊎◌, inl, inr, true, Option, none, some, arith, str_eq, eq_iff, Bool-cases,
}
use aero_risk_ai.Base.Dict.{lookup, lookup-insert}
use aero_risk_ai.Base.Outcome.{Outcome, ok, err}
use aero_risk_ai.Base.Exec.{recover, continue, Leads, Holds}
use aero_risk_ai.Base.Float.{Float}
use aero_risk_ai.Profiles.{
  UserProfile, Sources, Service, ProfileCache, profile_of, keep, store, fetch, is_fresh, get_with,
  get_profile,
}

module _ {W F Data Hit : Type 0} ⦃fl : Float F⦄ (db : Sources W F Data Hit) where
  -- A profile that is answered is in the cache, since less than five minutes.
  abbrev pub IsFresh : String → Option UserProfile → Service db → Type 0
  IsFresh user r v =
      (r ≡ none)
      ⊎ ((p : UserProfile) × (at : ℕ) × (r ≡ some p)
          × (lookup user (v.1) ≡ some (p, at))
          × (is_fresh db (db.clock (v.0)) at ≡ true))

  abbrev pub IsServed : String → ProfileCache db → Option UserProfile → Service db → Type 0
  IsServed user old r v =
      IsFresh user r v × ((j : String) → (str_eq user j ≡ true) ⊎ (lookup j (v.1) ≡ lookup j old))

  fresh-now : (n : ℕ) → is_fresh db n n ≡ true
  unfolding is_fresh
  fresh-now n = ground arith

  keep-IsServed :
      (user : String) (p : UserProfile) (w : W) (cache : ProfileCache db)
      → Leads (keep db user p) (w, cache) (IsServed user cache)
  unfolding keep
  keep-IsServed user p w cache =
      let entry : UserProfile × ℕ = (p, db.clock w) in
      (
        inr (
          p,
          db.clock w,
          refl,
          ground (arith, lookup-insert user user entry cache, eq_iff user user),
          fresh-now (db.clock w),
        ),
        λ j. ground (arith, lookup-insert user j entry cache),
      )

  store-IsServed :
      (user : String) (found : Outcome (Option Data)) (w : W) (cache : ProfileCache db)
      → let r = continue found (store db user) (w, cache) in
        IsServed user cache (recover none (r.0)) (r.1)
  unfolding store
  store-IsServed user (err e) w cache = (inl refl, λ j. inr refl)
  store-IsServed user (ok none) w cache = (inl refl, λ j. inr refl)
  store-IsServed user (ok (some found)) w cache = go (db.validate found (profile_of db user found))
    where
      served :
          (o : Outcome (Option UserProfile)) (v : Service db)
          → Holds o v (IsServed user cache)
          → IsServed user cache (recover none o) v
      served (ok r) v h = h
      served (err e) v h = elim h [ ]

      go :
          (o : Outcome (Unit {0}))
          → let r = continue o (λ u. keep db user (profile_of db user found)) (w, cache) in
            IsServed user cache (recover none (r.0)) (r.1)
      go (ok u) =
          served ((keep db user (profile_of db user found) (w, cache)).0)
            ((keep db user (profile_of db user found) (w, cache)).1)
            (keep-IsServed user (profile_of db user found) w cache)
      go (err e) = (inl refl, λ j. inr refl)

  fetch-IsServed :
      (user : String) (w : W) (cache : ProfileCache db)
      → Leads (fetch db user) (w, cache) (IsServed user cache)
  unfolding fetch
  fetch-IsServed user w cache =
      store-IsServed user ((db.get_user_profile user w).0) ((db.get_user_profile user w).1) cache

  with-IsServed :
      (user : String) (entry : Option (UserProfile × ℕ)) (w : W) (cache : ProfileCache db)
      → lookup user cache ≡ entry
      → Leads (get_with db user entry) (w, cache) (IsServed user cache)
  unfolding get_with
  with-IsServed user none w cache h = fetch-IsServed user w cache
  with-IsServed user (some (p, at)) w cache h = elim (Bool-cases (is_fresh db (db.clock w) at)) [
    | inl e ↦ rw e (inr (p, at, refl, h, e), λ j. inr refl)
    | inr e ↦ rw e (fetch-IsServed user w cache)
  ]

  -- Asking for a profile always returns, whatever the database does. A profile that it returns is in
  -- the cache, since less than five minutes, and what is cached of every other user stays.
  pub get_profile-IsServed :
      (user : String) (w : W) (cache : ProfileCache db)
      → Leads (get_profile db user) (w, cache) (IsServed user cache)
  unfolding get_profile
  get_profile-IsServed user w cache = with-IsServed user (lookup user cache) w cache refl
