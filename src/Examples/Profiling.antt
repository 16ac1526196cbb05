-- ===== src/Examples/Profiling.antt =====
-- The theorems on the user profile service and the retrieval of a context at concrete databases.
use aero_risk_ai.Base.{ℕ, String, none, some, [], ◌∷◌}
use aero_risk_ai.Base.Int.{pos}
use aero_risk_ai.Retrieval.{Stores}
use aero_risk_ai.Base.Outcome.{ok, err, runtime}
use aero_risk_ai.Base.Exec.{Leads}
use aero_risk_ai.Base.Float.{InUnit}
use aero_risk_ai.Profiles.{Sources, get_profile, check_velocity_limits, get_risk_score}
use aero_risk_ai.Profiles.Cache.{IsServed, get_profile-IsServed}
use aero_risk_ai.Profiles.Limits.{IsLimited, check_velocity_limits-IsLimited, get_risk_score-InUnit}
use aero_risk_ai.Examples.Fixed.{Fixed, fixed_float, fixed_laws}
use aero_risk_ai.Examples.Decisions.{half}

-- The world is the time, and the details of a user a text.
abbrev sources : Sources ℕ Fixed String String
sources = record {
  clock = λ w. w;
  get_user_profile = λ user w. (ok (some user), w);
  text = λ found key. some "high";
  number = λ found key. some (pos 3);
  flags = λ found. some ("late" ∷ []);
  validate = λ found p. ok tt;
  count_recent_orders = λ user minutes w. (ok (pos 2), w);
  search_similar = λ user limit w. (err (runtime "down"), w);
  hit_user = λ hit. some hit;
  hit_score = λ hit. half;
}

get_profile-IsServed_example :
    Leads (get_profile sources "ann") (17, []) (IsServed sources "ann" [])
get_profile-IsServed_example = get_profile-IsServed sources "ann" 17 []

check_velocity_limits-IsLimited_example :
    Leads
      (check_velocity_limits sources "ann" (pos 1))
      (17, [])
      (λ a v. IsLimited sources "ann" (pos 1) (get_profile sources "ann" (17, [])) a)
check_velocity_limits-IsLimited_example =
    check_velocity_limits-IsLimited sources "ann" (pos 1) 17 []

get_risk_score-InUnit_example : Leads (get_risk_score sources "ann") (17, []) (λ x v. InUnit x)
get_risk_score-InUnit_example = get_risk_score-InUnit sources fixed_laws "ann" 17 []

-- Every part of a context is a text, and the search of rules is down.
abbrev stores : Stores ℕ String String String String String String
stores = record {
  search_rules = λ text w. (err (runtime "down"), w);
  search_sanctions = λ text w. (ok (text ∷ []), w);
  search_news = λ text w. (ok [], w);
  get_user_profile = λ user w. (ok none, w);
  get_user_details = λ user w. (ok (some user), w);
  text = λ info key. some info;
  compliance_rule = λ hit. ok hit;
  user_profile = λ user info. ok info;
  sanctions_match = λ hit. ok hit;
  news_item = λ hit. hit;
  jurisdiction = λ p. "US";
  account_type = λ p. "cash";
}
