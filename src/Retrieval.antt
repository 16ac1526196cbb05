-- ===== src/Retrieval.antt =====
-- ai_guardrail/aerorisk/agents/agent2_rag/agent.py. The clients of the databases are a record of
-- operations on a state `W`, which may raise; so is the construction of the context's parts, whose
-- classes in models/context_bundle.py have other fields than the agent gives them. The class
-- ContextBundle is read as it stands: pydantic drops the fields that it does not have.
pub mod Sanctions
pub mod CircuitState
use aero_risk_ai.Base.{
  String, concat, Bool, true, false, Option, none, some, List, [], ◌∷◌, str_eq, if◌then◌else◌,
}
use aero_risk_ai.Base.Int.{ℤ, pos}
use aero_risk_ai.Base.Dict.{Dict, lookup, insert}
use aero_risk_ai.Base.Outcome.{Outcome, ok, err, Error}
use aero_risk_ai.Base.Exec.{Exec, pure, lift, attempt, recover, outside, ◌>>=◌, ◌>>◌}

pub record Stores (W Info Hit Rule Profile Match News : Type 0) : Type 0 where
  -- search_similar in a collection, of a text; the limits are the collection's.
  pub search_rules : String → Exec W (List Hit)
  pub search_sanctions : String → Exec W (List Hit)
  pub search_news : String → Exec W (List Hit)
  -- None, and empty data, alike.
  pub get_user_profile : String → Exec W (Option Info)
  pub get_user_details : String → Exec W (Option Info)
  -- `user_info.get(key)`
  pub text : Info → String → Option String
  -- ComplianceRule, UserProfile, SanctionsMatch and the dictionary of a news item.
  pub compliance_rule : Hit → Outcome Rule
  pub user_profile : String → Info → Outcome Profile
  pub sanctions_match : Hit → Outcome Match
  pub news_item : Hit → News
  pub jurisdiction : Profile → String
  pub account_type : Profile → String

pub record ContextBundle (Rule Profile Match News : Type 0) : Type 0 where
  pub compliance_rules : List Rule
  pub news_items : List News
  pub user_profile : Option Profile
  pub sanctions_matches : List Match
  pub circuit_breaker_status : Dict String

pub record RegulatoryContext : Type 0 where
  pub applicable_regulations : List String
  pub reporting_requirements : List String
  pub restrictions : List String

-- `user_info.get("full_name", "")`
abbrev pub name_or_empty : Option String → String
name_or_empty none = ""
name_or_empty (some s) = s

module _ {W Info Hit Rule Profile Match News : Type 0}
    (db : Stores W Info Hit Rule Profile Match News) where
  -- The positive matches of users.
  abbrev pub MatchCache : Type 0
  MatchCache = Dict Match

  abbrev pub Agent : Type 0
  Agent = W × MatchCache

  pub rules_of : List Hit → Outcome (List Rule)
  rules_of [] = ok []
  rules_of (hit ∷ hits) =
      let rest = rules_of hits in
      elim (db.compliance_rule hit) [
        | err e ↦ err e
        | ok rule ↦ elim rest [ ok rules ↦ ok (rule ∷ rules) | err e ↦ err e ]
      ]

  pub retrieve_compliance_rules : String → Exec W (List Rule)
  retrieve_compliance_rules symbol =
      attempt
        (do
          hits ← db.search_rules (concat "trading rules for " (concat symbol " equity securities"))
          lift (rules_of hits))
        []

  pub profile_with : String → Option Info → Exec W (Option Profile)
  profile_with user none = pure none
  profile_with user (some info) = do profile ← lift (db.user_profile user info); pure (some profile)

  pub retrieve_user_profile : String → Exec W (Option Profile)
  retrieve_user_profile user = attempt (db.get_user_profile user >>= profile_with user) none

  pub remember : String → Match → Exec Agent (Option Match)
  remember user found (w, cache) = (ok (some found), (w, insert user found cache))

  pub top_match : String → List Hit → Exec Agent (Option Match)
  top_match user [] = pure none
  top_match user (hit ∷ hits) = lift (db.sanctions_match hit) >>= remember user

  pub search_name : String → String → Exec Agent (Option Match)
  search_name user name =
      if str_eq name "" then pure none else outside (db.search_sanctions name) >>= top_match user

  pub details_with : String → Option Info → Exec Agent (Option Match)
  details_with user none = pure none
  details_with user (some info) = search_name user (name_or_empty (db.text info "full_name"))

  pub check_with : String → Option Match → Exec Agent (Option Match)
  check_with user (some found) = pure (some found)
  check_with user none = outside (db.get_user_details user) >>= details_with user

  pub check_sanctions : String → Exec Agent (Option Match)
  check_sanctions user s = attempt (check_with user (lookup user (s.1))) none s

  pub news_of : List Hit → List News
  news_of [] = []
  news_of (hit ∷ hits) = db.news_item hit ∷ news_of hits

  pub retrieve_news_context : String → Exec W (List News)
  retrieve_news_context symbol =
      attempt (do hits ← db.search_news (concat "market news " symbol); pure (news_of hits)) []

  -- The four results of `asyncio.gather` in their order, exceptions included. The agent gives the
  -- third as `sanctions_match` and the fourth as `news_context`, which are no fields of the class.
  pub bundle_of :
      Outcome (List Rule)
      → Outcome (Option Profile)
      → Outcome (Option Match)
      → Outcome (List News)
      → ContextBundle Rule Profile Match News
  bundle_of rules profile found news = record {
    compliance_rules = recover [] rules;
    news_items = [];
    user_profile = recover none profile;
    sanctions_matches = [];
    circuit_breaker_status = [];
  }

  -- The four retrievals share the cache, which only the third reads and writes; they are run here
  -- in the order of the call.
  pub retrieve_context : String → String → Agent → ContextBundle Rule Profile Match News × Agent
  retrieve_context symbol user s =
      let (rules, s1) = outside (retrieve_compliance_rules symbol) s in
      let (profile, s2) = outside (retrieve_user_profile user) s1 in
      let (found, s3) = check_sanctions user s2 in
      let (news, s4) = outside (retrieve_news_context symbol) s3 in
      (bundle_of rules profile found news, s4)

  -- The regulations of the jurisdiction.
  pub regulations_of : Profile → RegulatoryContext
  regulations_of profile =
      let restricted =
        if str_eq (db.account_type profile) "margin"
        then "Pattern Day Trader rules apply" ∷ []
        else [] in
      if str_eq (db.jurisdiction profile) "US"
      then record {
        applicable_regulations = "SEC Rule 10b-5" ∷ "FINRA Rule 2010" ∷ "Regulation SHO" ∷ [];
        reporting_requirements = "Form 4 (if insider)" ∷ [];
        restrictions = restricted;
      }
      else if str_eq (db.jurisdiction profile) "EU"
      then record {
        applicable_regulations = "MiFID II" ∷ "Market Abuse Regulation" ∷ [];
        reporting_requirements = "Transaction Reporting" ∷ [];
        restrictions = restricted;
      }
      else record {
        applicable_regulations = [];
        reporting_requirements = [];
        restrictions = restricted;
      }

  pub enrich_with : Option Profile → RegulatoryContext
  enrich_with none = record {
    applicable_regulations = [];
    reporting_requirements = [];
    restrictions = [];
  }
  enrich_with (some profile) = regulations_of profile

  pub enrich_with_regulatory_context : String → W → RegulatoryContext × W
  enrich_with_regulatory_context user w =
      let (profile, v) = retrieve_user_profile user w in (enrich_with (recover none profile), v)
