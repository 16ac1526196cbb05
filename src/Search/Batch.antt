-- ===== src/Search/Batch.antt =====
-- ai_guardrail/aerorisk/agents/agent2_rag/vector_search.py: batch_search.
use aero_risk_ai.Base.{
  String, ◌≡◌, refl, ◌∙◌, ap, Option, some, List, [], ◌∷◌, str_eq, if◌then◌else◌,
}
use aero_risk_ai.Base.Dict.{Dict, lookup, insert, lookup-insert}
use aero_risk_ai.Base.Outcome.{Outcome}
use aero_risk_ai.Search.{Searcher, batch_items, batch_results}

module _ {W Hit F : Type 0} (db : Searcher W Hit F) where
  -- The last outcome for the collection, or what was there before.
  abbrev pub last_for :
      String
      → List (String × String)
      → List (Outcome (List Hit))
      → Option (List (Hit × F))
      → Option (List (Hit × F))
  last_for key [] completed before = before
  last_for key (q ∷ queries) [] before = before
  last_for key ((collection, query) ∷ queries) (r ∷ completed) before =
      last_for key queries completed
        (if str_eq collection key then some (batch_items db r) else before)

  -- Of several queries to one collection only the last is answered.
  pub batch_results-last_for :
      (key : String) (queries : List (String × String)) (completed : List (Outcome (List Hit)))
      (results : Dict (List (Hit × F)))
      → lookup key (batch_results db queries completed results)
        ≡ last_for key queries completed (lookup key results)
  unfolding batch_results
  batch_results-last_for key [] completed results = refl
  batch_results-last_for key (q ∷ queries) [] results = refl
  batch_results-last_for key ((collection, query) ∷ queries) (r ∷ completed) results =
      batch_results-last_for key queries completed (insert collection (batch_items db r) results)
      ∙ ap (last_for key queries completed)
          (lookup-insert collection key (batch_items db r) results)
