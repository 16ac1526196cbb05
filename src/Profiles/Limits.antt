-- ===== src/Profiles/Limits.antt =====
-- ai_guardrail/aerorisk/agents/agent2_rag/user_profile.py: the velocity check and the risk score.
use aero_risk_ai.Base.{
  ℕ, String, ◌≡◌, refl, ap, Bool, inl, inr, Option, none, some, arith, str_eq, Bool-cases,
  if◌then◌else◌,
}
use aero_risk_ai.Base.Int.{ℤ, pos, negsuc, ◌-ℤ◌, ltb_ℤ}
use aero_risk_ai.Base.Lists.{length}
use aero_risk_ai.Base.Outcome.{Outcome, ok, err}
use aero_risk_ai.Base.Exec.{recover, continue, Leads}
use aero_risk_ai.Base.Float.{Float, FloatLaws, InUnit, ◌≼◌, lit-InUnit, one-refl, min_f}
use aero_risk_ai.Profiles.{
  UserProfile, Velocity, Sources, Service, ProfileCache, get_profile, open_answer, velocity_of,
  limits_with, check_velocity_limits, tier_score, flag_score, risk_of, risk_with, get_risk_score,
}

module _ {W F Data Hit : Type 0} ⦃fl : Float F⦄ (db : Sources W F Data Hit) where
  left-positive : (limit count : ℤ) → ltb_ℤ (pos 0) (limit -ℤ count) ≡ ltb_ℤ count limit
  left-positive (pos a) (pos b) = ground arith
  left-positive (pos a) (negsuc b) = ground arith
  left-positive (negsuc a) (pos b) = ground arith
  left-positive (negsuc a) (negsuc b) = ground arith

  -- With a limit and a count, exactly a count below the limit is allowed, and the answer says how
  -- much of the limit is left.
  abbrev pub IsCounted : ℤ → Outcome ℤ → Velocity → Type 0
  IsCounted limit (ok count) a =
      (a.limit ≡ some limit)
      × (a.recent_orders ≡ some count)
      × (a.allowed ≡ ltb_ℤ count limit)
      × (a.remaining ≡ some (if ltb_ℤ count limit then limit -ℤ count else pos 0))
      × (a.reason ≡ (if ltb_ℤ count limit then "within_limits" else "velocity_exceeded"))
  IsCounted limit (err e) a = a ≡ open_answer db "error"

  -- The limit is that of the profile, and the count that of the database, asked after the profile.
  abbrev pub IsLimited : String → ℤ → Outcome (Option UserProfile) × Service db → Velocity → Type 0
  IsLimited user minutes (ok (some p), s) a =
      IsCounted p.max_orders_per_minute ((db.count_recent_orders user minutes (s.0)).0) a
  IsLimited user minutes (ok none, s) a = a ≡ open_answer db "profile_not_found"
  IsLimited user minutes (err e, s) a = a ≡ open_answer db "error"

  velocity-IsCounted : (limit count : ℤ) → IsCounted limit (ok count) (velocity_of db limit count)
  unfolding velocity_of
  velocity-IsCounted limit count =
      let e = left-positive limit count in
      (
        refl,
        refl,
        e,
        ap (λ (b : Bool). some (if b then limit -ℤ count else pos 0)) e,
        ap (λ (b : Bool). if b then "within_limits" else "velocity_exceeded") e,
      )

  recovered-IsCounted :
      (limit : ℤ) (o : Outcome ℤ) (x : Service db)
      → IsCounted limit o (
          recover
            (open_answer db "error")
            ((continue o (λ (n : ℤ) (v : Service db). (ok (velocity_of db limit n), v)) x).0))
  recovered-IsCounted limit (ok n) x = velocity-IsCounted limit n
  recovered-IsCounted limit (err e) x = refl

  limits-IsLimited :
      (user : String) (minutes : ℤ) (o : Outcome (Option UserProfile)) (v : Service db)
      → IsLimited user minutes
          (o, v)
          (recover (open_answer db "error") ((continue o (limits_with db user minutes) v).0))
  unfolding limits_with
  limits-IsLimited user minutes (err e) v = refl
  limits-IsLimited user minutes (ok none) v = refl
  limits-IsLimited user minutes (ok (some p)) v =
      recovered-IsCounted p.max_orders_per_minute ((db.count_recent_orders user minutes (v.0)).0)
        ((db.count_recent_orders user minutes (v.0)).1, v.1)

  -- A velocity check always returns, whatever the databases do. With a profile, and a count of recent
  -- orders from the database, it allows exactly a count below the profile's limit of orders per
  -- minute, and says the count, the limit and how much of it is left; without a profile, or where the
  -- count raises, it allows, and gives that as the reason.
  pub check_velocity_limits-IsLimited :
      (user : String) (minutes : ℤ) (w : W) (cache : ProfileCache db)
      → Leads
          (check_velocity_limits db user minutes)
          (w, cache)
          (λ a v. IsLimited user minutes (get_profile db user (w, cache)) a)
  unfolding check_velocity_limits
  check_velocity_limits-IsLimited user minutes w cache =
      limits-IsLimited user minutes ((get_profile db user (w, cache)).0)
        ((get_profile db user (w, cache)).1)

  module _ (laws : FloatLaws F) where
    tier-nonneg : (tier : String) → fl.lit 0 1 ≼ fl.mul (tier_score db tier) (fl.lit 4 10)
    unfolding tier_score
    tier-nonneg tier =
        let low =
          laws.mul_lit_nonneg 1 10 4 10 (omega arith) (omega arith) (omega arith) (omega arith) in
        let standard =
          laws.mul_lit_nonneg 3 10 4 10 (omega arith) (omega arith) (omega arith) (omega arith) in
        let elevated =
          laws.mul_lit_nonneg 6 10 4 10 (omega arith) (omega arith) (omega arith) (omega arith) in
        let high =
          laws.mul_lit_nonneg 9 10 4 10 (omega arith) (omega arith) (omega arith) (omega arith) in
        elim (Bool-cases (str_eq tier "low")) [
          | inl a ↦ rw a low
          | inr a ↦ elim (Bool-cases (str_eq tier "standard")) [
            | inl b ↦ rw (a, b) standard
            | inr b ↦ elim (Bool-cases (str_eq tier "elevated")) [
              | inl c ↦ rw (a, b, c) elevated
              | inr c ↦ elim (Bool-cases (str_eq tier "high")) [
                | inl d ↦ rw (a, b, c, d) high
                | inr d ↦ rw (a, b, c, d) standard
              ]
            ]
          ]
        ]

    flag-nonneg : (n : ℕ) → fl.lit 0 1 ≼ flag_score db n
    unfolding flag_score
    flag-nonneg n =
        elim (Bool-cases (fl.lt (fl.lit 4 10) (fl.mul (fl.of_int (pos n)) (fl.lit 1 10)))) [
          | inl e ↦ rw e (laws.lit_nonneg 4 10 (omega arith))
          | inr e ↦ rw e (laws.mul_int_nonneg n)
        ]

    capped : (x : F) → fl.lit 0 1 ≼ x → InUnit (min_f x (fl.lit 1 1))
    capped x h = elim (Bool-cases (fl.lt (fl.lit 1 1) x)) [
      | inl e ↦ rw e (lit-InUnit laws 1 1 (omega arith) (omega arith))
      | inr e ↦ rw e (
        h,
        laws.le_of_not_lt (fl.lit 1 1) x (one-refl laws) ((laws.number_of_le (fl.lit 0 1) x h).1) e,
      )
    ]

    risk_of-InUnit : (p : UserProfile) → InUnit (risk_of db p)
    unfolding risk_of
    risk_of-InUnit p =
        let zero_ = laws.lit_nonneg 0 1 (omega arith) in
        let tiers =
          laws.add_nonneg (fl.lit 0 1) (fl.mul (tier_score db p.risk_tier) (fl.lit 4 10)) zero_
            (tier-nonneg p.risk_tier) in
        let flagged =
          laws.add_nonneg (fl.add (fl.lit 0 1) (fl.mul (tier_score db p.risk_tier) (fl.lit 4 10)))
            (flag_score db (length p.historical_flags)) tiers
            (flag-nonneg (length p.historical_flags)) in
        elim (Bool-cases (str_eq p.kyc_status "verified")) [
          | inl e ↦ rw e (capped _ flagged)
          | inr e ↦ rw e (
              capped _
                (laws.add_nonneg _ (fl.lit 2 10) flagged (laws.lit_nonneg 2 10 (omega arith))))
        ]

    with-InUnit :
        (o : Outcome (Option UserProfile)) (v : Service db)
        → InUnit (recover (fl.lit 5 10) ((continue o (risk_with db) v).0))
    unfolding risk_with
    with-InUnit (err e) v = lit-InUnit laws 5 10 (omega arith) (omega arith)
    with-InUnit (ok none) v = lit-InUnit laws 5 10 (omega arith) (omega arith)
    with-InUnit (ok (some p)) v = risk_of-InUnit p

    -- A risk score always returns, whatever the database does, and lies between 0.0 and 1.0.
    pub get_risk_score-InUnit :
        (user : String) (w : W) (cache : ProfileCache db)
        → Leads (get_risk_score db user) (w, cache) (λ x v. InUnit x)
    unfolding get_risk_score
    get_risk_score-InUnit user w cache =
        with-InUnit ((get_profile db user (w, cache)).0) ((get_profile db user (w, cache)).1)
