-- ===== src/Examples/Screenings.antt =====
-- The theorems on the sanctions screener at concrete databases.
use aero_risk_ai.Base.{ℕ, String, ◌≡◌, refl, false, none, some, [], ◌∷◌}
use aero_risk_ai.Base.Dict.{lookup}
use aero_risk_ai.Base.Outcome.{ok, err, runtime}
use aero_risk_ai.Base.Exec.{Leads}
use aero_risk_ai.Screening.{Databases, screen_user}
use aero_risk_ai.Screening.Cache.{IsScreened, screen_user-IsScreened}
use aero_risk_ai.Screening.Outage.{screen_user-outage}
use aero_risk_ai.Examples.Fixed.{Fixed}
use aero_risk_ai.Examples.Decisions.{half}

-- The world counts the calls; a user's details and a hit are texts.
abbrev working : Databases ℕ Fixed String String String
working = record {
  get_user_details = λ user w. (ok (some user), w);
  text = λ info key. some info;
  search_similar = λ text threshold w. (ok ("hit" ∷ []), w);
  get_document = λ entity w. (ok none, w);
  payload = λ hit key. some hit;
  score = λ hit. half;
  sanctions_match = λ name source score entity. ok name;
}

abbrev broken : Databases ℕ Fixed String String String
broken = record working { search_similar = λ text threshold w. (err (runtime "timeout"), w) }

screen_user-IsScreened_example :
    Leads (screen_user working half "ann") (0, []) (IsScreened working half "ann" none (0, []))
unfolding lookup
screen_user-IsScreened_example = screen_user-IsScreened working half "ann" 0 []

screen_user-outage_example :
    let after = screen_user broken half "ann" (0, []) in
    (after.0 ≡ ok (false, none))
    × ((screen_user working half "ann" (7, after.1.1)).0 ≡ ok (false, none))
screen_user-outage_example =
    screen_user-outage broken half "ann" "ann" 0 [] working 7 (λ text w. (runtime "timeout", refl))
      (unfold lookup in refl) refl
