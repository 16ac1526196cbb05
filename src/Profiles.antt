-- ===== src/Profiles.antt =====
-- ai_guardrail/aerorisk/agents/agent2_rag/user_profile.py. The clients of the databases are a
-- record of operations on a state `W`, which may raise, with a clock. The class UserProfile has
-- other fields in models/context_bundle.py than the service gives it and reads, so the record here
-- has those of the service, and whether the class accepts them is an operation.
pub mod Cache
pub mod Limits
pub mod History
use aero_risk_ai.Base.{
  ℕ, String, ◌+◌, ◌≡◌, Bool, true, false, not, Option, none, some, List, [], ◌∷◌, str_eq,
  if◌then◌else◌,
}
use aero_risk_ai.Base.Int.{ℤ, pos, ◌-ℤ◌, ltb_ℤ, max_ℤ}
use aero_risk_ai.Base.Lists.{length, take}
use aero_risk_ai.Base.Dict.{Dict, lookup, insert}
use aero_risk_ai.Base.Outcome.{Outcome, ok, err, Error}
use aero_risk_ai.Base.Exec.{Exec, pure, lift, attempt, outside, ◌>>=◌, ◌>>◌}
use aero_risk_ai.Base.Float.{Float, min_f}

pub record UserProfile : Type 0 where
  pub user_id : String
  pub risk_tier : String
  pub account_type : String
  pub daily_limit : ℤ
  pub single_order_limit : ℤ
  pub max_orders_per_minute : ℤ
  pub historical_flags : List String
  pub kyc_status : String
  pub jurisdiction : String

pub record Sources (W F Data Hit : Type 0) : Type 0 where
  -- `datetime.now()`, in microseconds.
  pub clock : W → ℕ
  -- None, and empty data, alike.
  pub get_user_profile : String → Exec W (Option Data)
  -- `profile_data.get(key)`
  pub text : Data → String → Option String
  pub number : Data → String → Option ℤ
  pub flags : Data → Option (List String)
  -- Whether UserProfile accepts the fields. It also sees the data: a key that is there as NULL is
  -- None for `.get(key, default)` too, which the record's fields do not hold.
  pub validate : Data → UserProfile → Outcome (Unit {0})
  pub count_recent_orders : String → ℤ → Exec W ℤ
  -- search_similar in the collection of the profiles, for a user and a limit.
  pub search_similar : String → ℕ → Exec W (List Hit)
  pub hit_user : Hit → Option String
  pub hit_score : Hit → F

-- timedelta(minutes=5), in microseconds.
abbrev pub cache_ttl : ℕ
cache_ttl = 300_000_000

abbrev pub get_default : {A : Type 0} → A → Option A → A
get_default a none = a
get_default a (some b) = b

-- What the velocity check answers; a field that an answer leaves out is `none`.
pub record Velocity : Type 0 where
  pub allowed : Bool
  pub recent_orders : Option ℤ
  pub limit : Option ℤ
  pub remaining : Option ℤ
  pub reason : String

-- `t == s` for the optional id of a hit.
abbrev pub is_user : String → Option String → Bool
is_user user none = false
is_user user (some s) = str_eq s user

module _ {W F Data Hit : Type 0} ⦃fl : Float F⦄ (db : Sources W F Data Hit) where
  abbrev pub ProfileCache : Type 0
  ProfileCache = Dict (UserProfile × ℕ)

  abbrev pub Service : Type 0
  Service = W × ProfileCache

  pub profile_of : String → Data → UserProfile
  profile_of user found = record {
    user_id = user;
    risk_tier = get_default "standard" (db.text found "risk_tier");
    account_type = get_default "individual" (db.text found "account_type");
    daily_limit = get_default (pos 1_000_000) (db.number found "daily_limit");
    single_order_limit = get_default (pos 100_000) (db.number found "single_order_limit");
    max_orders_per_minute = get_default (pos 60) (db.number found "max_orders_per_minute");
    historical_flags = get_default [] (db.flags found);
    kyc_status = get_default "verified" (db.text found "kyc_status");
    jurisdiction = get_default "US" (db.text found "jurisdiction");
  }

  -- The profile goes into the cache with the time.
  pub keep : String → UserProfile → Exec Service (Option UserProfile)
  keep user profile (w, cache) = (ok (some profile), (w, insert user (profile, db.clock w) cache))

  pub store : String → Option Data → Exec Service (Option UserProfile)
  store user none = pure none
  store user (some found) =
      lift (db.validate found (profile_of user found)) >>= λ u. keep user (profile_of user found)

  pub fetch : String → Exec Service (Option UserProfile)
  fetch user = attempt (outside (db.get_user_profile user) >>= store user) none

  -- `datetime.now() - cached_at < self._cache_ttl`
  pub is_fresh : ℕ → ℕ → Bool
  is_fresh now cached_at = ltb_ℤ (pos now -ℤ pos cached_at) (pos cache_ttl)

  pub get_with : String → Option (UserProfile × ℕ) → Exec Service (Option UserProfile)
  get_with user none s = fetch user s
  get_with user (some (profile, cached_at)) s =
      if is_fresh (db.clock (s.0)) cached_at then (ok (some profile), s) else fetch user s

  pub get_profile : String → Exec Service (Option UserProfile)
  get_profile user s = get_with user (lookup user (s.1)) s

  pub velocity_of : ℤ → ℤ → Velocity
  velocity_of max_orders recent_count =
      let left = max_orders -ℤ recent_count in
      record {
        allowed = ltb_ℤ (pos 0) left;
        recent_orders = some recent_count;
        limit = some max_orders;
        remaining = some (max_ℤ (pos 0) left);
        reason = if ltb_ℤ (pos 0) left then "within_limits" else "velocity_exceeded";
      }

  abbrev pub open_answer : String → Velocity
  open_answer why = record {
    allowed = true;
    recent_orders = none;
    limit = none;
    remaining = none;
    reason = why;
  }

  pub limits_with : String → ℤ → Option UserProfile → Exec Service Velocity
  limits_with user minutes none = pure (open_answer "profile_not_found")
  limits_with user minutes (some profile) = do
    recent_count ← outside (db.count_recent_orders user minutes)
    pure (velocity_of profile.max_orders_per_minute recent_count)

  pub check_velocity_limits : String → ℤ → Exec Service Velocity
  check_velocity_limits user minutes =
      attempt (get_profile user >>= limits_with user minutes) (open_answer "error")

  pub tier_score : String → F
  tier_score tier =
      if str_eq tier "low"
      then fl.lit 1 10
      else if str_eq tier "standard"
      then fl.lit 3 10
      else if str_eq tier "elevated"
      then fl.lit 6 10
      else if str_eq tier "high"
      then fl.lit 9 10
      else fl.lit 3 10

  pub flag_score : ℕ → F
  flag_score flag_count = min_f (fl.mul (fl.of_int (pos flag_count)) (fl.lit 1 10)) (fl.lit 4 10)

  pub risk_of : UserProfile → F
  risk_of profile =
      let tiers = fl.add (fl.lit 0 1) (fl.mul (tier_score profile.risk_tier) (fl.lit 4 10)) in
      let flagged = fl.add tiers (flag_score (length profile.historical_flags)) in
      let score =
        if str_eq profile.kyc_status "verified" then flagged else fl.add flagged (fl.lit 2 10) in
      min_f score (fl.lit 1 1)

  pub risk_with : Option UserProfile → Exec Service F
  risk_with none = pure (fl.lit 5 10)
  risk_with (some profile) = pure (risk_of profile)

  pub get_risk_score : String → Exec Service F
  get_risk_score user = attempt (get_profile user >>= risk_with) (fl.lit 5 10)

  pub others : String → List Hit → List (Option String × F)
  others user [] = []
  others user (hit ∷ hits) =
      let rest = others user hits in
      if is_user user (db.hit_user hit) then rest else (db.hit_user hit, db.hit_score hit) ∷ rest

  pub similar_of : String → ℕ → List Hit → Exec W (List (Option String × F))
  similar_of user limit hits = pure (take limit (others user hits))

  pub find_similar_users : String → ℕ → Exec W (List (Option String × F))
  find_similar_users user limit =
      attempt (db.search_similar user (limit + 1) >>= similar_of user limit) []
