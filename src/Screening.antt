-- ===== src/Screening.antt =====
-- ai_guardrail/aerorisk/agents/agent2_rag/sanctions.py. The clients of the vector and the user
-- database are a record of operations on a state `W`, which may raise. The class SanctionsMatch has
-- other fields in models/context_bundle.py than the screener gives it, so its construction is an
-- operation of that record.
pub mod Cache
pub mod Outage
use aero_risk_ai.Base.{
  String, concat, Bool, true, false, not, Option, none, some, List, [], ◌∷◌, map, str_eq,
  if◌then◌else◌,
}
use aero_risk_ai.Base.Dict.{Dict, lookup, insert, erase}
use aero_risk_ai.Base.Outcome.{Outcome, ok, err, runtime, Gathered, returned, raised, cancelled}
use aero_risk_ai.Base.Exec.{Exec, pure, lift, attempt, outside, inside, ◌>>=◌, ◌>>◌}

pub record Databases (W F Info Hit Match : Type 0) : Type 0 where
  -- None, and a user without details, alike.
  pub get_user_details : String → Exec W (Option Info)
  -- `user_info.get(key)`
  pub text : Info → String → Option String
  -- search_similar in the collection of the sanctions list, of the text and the threshold.
  pub search_similar : String → F → Exec W (List Hit)
  -- The document of an entity in the sanctions list.
  pub get_document : String → Exec W (Option Hit)
  -- `payload.get(key)`, and `score`
  pub payload : Hit → String → Option String
  pub score : Hit → F
  -- SanctionsMatch(matched_name, list_source, match_score, entity_id)
  pub sanctions_match : String → String → F → String → Outcome Match

abbrev pub or_else_text : String → Option String → String
or_else_text t none = t
or_else_text t (some s) = s

-- `[i for i in identifiers if i]`
pub present : List (Option String) → List String
present [] = []
present (none ∷ l) = present l
present (some s ∷ l) = let rest = present l in if str_eq s "" then rest else s ∷ rest

abbrev pub identifier_keys : List String
identifier_keys = "full_name" ∷ "email" ∷ "phone" ∷ "passport_number" ∷ "national_id" ∷ []

module _ {W F Info Hit Match : Type 0} (db : Databases W F Info Hit Match) (threshold : F) where
  -- What is cached of a user: the match, and whether there was one.
  abbrev pub MatchCache : Type 0
  MatchCache = Dict (Option Match × Bool)

  abbrev pub Screener : Type 0
  Screener = W × MatchCache

  pub match_of : Hit → Outcome Match
  match_of hit =
      db.sanctions_match (or_else_text "" (db.payload hit "name"))
        (or_else_text "UNKNOWN" (db.payload hit "list_source")) (db.score hit)
        (or_else_text "" (db.payload hit "entity_id"))

  pub top_match : List Hit → Exec W (Option Match)
  top_match [] = pure none
  top_match (hit ∷ hits) = do found ← lift (match_of hit); pure (some found)

  pub screen_identifier : String → Exec W (Option Match)
  screen_identifier identifier = attempt (db.search_similar identifier threshold >>= top_match) none

  pub screen_entity : String → String → Exec W (Option Match)
  screen_entity name kind =
      attempt (db.search_similar (concat kind (concat " " name)) threshold >>= top_match) none

  pub remember : String → Option Match × Bool → Exec MatchCache Unit
  remember user entry cache = (ok tt, insert user entry cache)

  pub identifiers_of : Info → List String
  identifiers_of info = present (map (db.text info) identifier_keys)

  -- A match is cached and returned, and without one the screening goes on.
  pub answer_or :
      String
      → Exec Screener (Bool × Option Match)
      → Option Match
      → Exec Screener (Bool × Option Match)
  answer_or user rest none = rest
  answer_or user rest (some m) = inside (remember user (some m, true)) >> pure (true, some m)

  -- The loop over the identifiers.
  pub scan : String → List String → Exec Screener (Bool × Option Match)
  scan user [] = inside (remember user (none, false)) >> pure (false, none)
  scan user (identifier ∷ identifiers) =
      let rest = scan user identifiers in
      outside (screen_identifier identifier) >>= answer_or user rest

  pub with_details : String → Option Info → Exec Screener (Bool × Option Match)
  with_details user none = pure (false, none)
  with_details user (some info) = scan user (identifiers_of info)

  pub screen_afresh : String → Exec Screener (Bool × Option Match)
  screen_afresh user =
      attempt (outside (db.get_user_details user) >>= with_details user) (false, none)

  -- A cached negative result is returned; a cached match is screened again.
  pub screen_with : String → Option (Option Match × Bool) → Exec Screener (Bool × Option Match)
  screen_with user none = screen_afresh user
  screen_with user (some (found, is_new_check)) =
      if is_new_check then screen_afresh user else pure (false, none)

  pub screen_user : String → Exec Screener (Bool × Option Match)
  screen_user user s = screen_with user (lookup user (s.1)) s

  -- The payload is the entity's metadata.
  pub get_sanctions_metadata : String → Exec W (Option Hit)
  get_sanctions_metadata entity = attempt (db.get_document entity) none

  pub clear_cache : Option String → MatchCache → MatchCache
  clear_cache none cache = []
  clear_cache (some user) cache = if str_eq user "" then [] else erase user cache

  -- The loop over what `asyncio.gather` returned, one result for each user; what raised is left
  -- out. A cancelled task is no Exception, and cannot be taken apart.
  pub bulk_results :
      List (Gathered (String × (Bool × Option Match)))
      → Dict (Bool × Option Match)
      → Outcome (Dict (Bool × Option Match))
  bulk_results [] results = ok results
  bulk_results (returned (user, result) ∷ items) results =
      bulk_results items (insert user result results)
  bulk_results (raised e ∷ items) results = bulk_results items results
  bulk_results (cancelled ∷ items) results = err (runtime "cannot unpack a CancelledError")
