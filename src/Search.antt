-- ===== src/Search.antt =====
-- ai_guardrail/aerorisk/agents/agent2_rag/vector_search.py. The vector store's search is a method on
-- a state `W` that may raise; a hit has the texts of its payload, and a score.
pub mod Batch
use aero_risk_ai.Base.{
  ℕ, String, concat, Bool, true, false, Option, none, some, List, [], ◌∷◌, map, str_eq,
  if◌then◌else◌,
}
use aero_risk_ai.Base.Dict.{Dict, insert}
use aero_risk_ai.Base.Outcome.{Outcome, ok, err}
use aero_risk_ai.Base.Exec.{Exec, pure, attempt, ◌>>=◌}

pub record Searcher (W Hit F : Type 0) : Type 0 where
  -- search_similar: the collection, the text, the limit and the threshold.
  pub search_similar : String → String → ℕ → Option F → Exec W (List Hit)
  -- `r.payload.get(key)`
  pub field : Hit → String → Option String
  pub score : Hit → F

pub record FoundRule (F : Type 0) : Type 0 where
  pub rule_id : Option String
  pub source : Option String
  pub content : Option String
  pub score : F

pub record FoundEntity (F : Type 0) : Type 0 where
  pub entity_id : Option String
  pub name : Option String
  pub list_source : Option String
  pub score : F

pub record FoundProfile (F : Type 0) : Type 0 where
  pub user_id : Option String
  pub risk_tier : Option String
  pub score : F

pub record FoundNews (F : Type 0) : Type 0 where
  pub headline : Option String
  pub source : Option String
  pub sentiment : Option String
  pub timestamp : Option String
  pub score : F

-- `f"{query} for {symbol} securities" if symbol`
abbrev pub rules_query : String → Option String → String
rules_query query none = query
rules_query query (some symbol) =
    if str_eq symbol "" then query else concat query (concat " for " (concat symbol " securities"))

module _ {W Hit F : Type 0} (db : Searcher W Hit F) where
  pub found_rule : Hit → FoundRule F
  found_rule r = record {
    rule_id = db.field r "rule_id";
    source = db.field r "source";
    content = db.field r "content";
    score = db.score r;
  }

  pub found_entity : Hit → FoundEntity F
  found_entity r = record {
    entity_id = db.field r "entity_id";
    name = db.field r "name";
    list_source = db.field r "list_source";
    score = db.score r;
  }

  pub found_profile : Hit → FoundProfile F
  found_profile r = record {
    user_id = db.field r "user_id";
    risk_tier = db.field r "risk_tier";
    score = db.score r;
  }

  pub found_news : Hit → FoundNews F
  found_news r = record {
    headline = db.field r "headline";
    source = db.field r "source";
    sentiment = db.field r "sentiment";
    timestamp = db.field r "timestamp";
    score = db.score r;
  }

  -- The `try` of the four searches.
  pub search_as : {A : Type 0} → (Hit → A) → Exec W (List Hit) → Exec W (List A)
  search_as f search = attempt (do results ← search; pure (map f results)) []

  pub search_compliance_rules : String → Option String → ℕ → Exec W (List (FoundRule F))
  unfolding search_as found_rule
  search_compliance_rules query symbol limit =
      search_as found_rule
        (db.search_similar "compliance_rules" (rules_query query symbol) limit none)

  pub search_sanctions : String → F → Exec W (List (FoundEntity F))
  unfolding search_as found_entity
  search_sanctions name threshold =
      search_as found_entity (db.search_similar "sanctions_list" name 5 (some threshold))

  pub search_user_profiles : String → ℕ → Exec W (List (FoundProfile F))
  unfolding search_as found_profile
  search_user_profiles query limit =
      search_as found_profile (db.search_similar "user_profiles" query limit none)

  -- The argument `hours` is not used.
  pub search_news : String → ℕ → ℕ → Exec W (List (FoundNews F))
  unfolding search_as found_news
  search_news query hours limit =
      search_as found_news (db.search_similar "news_feed" query limit none)

  -- What a finished task adds to the dictionary: a payload and a score for each hit.
  abbrev pub batch_items : Outcome (List Hit) → List (Hit × F)
  batch_items (err e) = []
  batch_items (ok results) = map (λ (r : Hit). (r, db.score r)) results

  -- The loop over the tasks, with what `gather` gave for each.
  pub batch_results :
      List (String × String)
      → List (Outcome (List Hit))
      → Dict (List (Hit × F))
      → Dict (List (Hit × F))
  batch_results [] completed results = results
  batch_results (q ∷ queries) [] results = results
  batch_results ((collection, query) ∷ queries) (r ∷ completed) results =
      batch_results queries completed (insert collection (batch_items r) results)

  -- The tasks' outcomes, where they run in their order.
  pub run_tasks : List (String × String) → ℕ → W → List (Outcome (List Hit)) × W
  run_tasks [] limit w = ([], w)
  run_tasks ((collection, query) ∷ queries) limit w =
      let (r, w') = db.search_similar collection query limit none w in
      let (rs, last) = run_tasks queries limit w' in (r ∷ rs, last)

  pub batch_search : List (String × String) → ℕ → Exec W (Dict (List (Hit × F)))
  unfolding batch_results run_tasks
  batch_search queries limit w =
      let (completed, w') = run_tasks queries limit w in
      (ok (batch_results queries completed []), w')
