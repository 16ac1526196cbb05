-- ===== src/Storage/Vectors.antt =====
-- ai_guardrail/aerorisk/storage/qdrant_client.py: QdrantStorageClient. The client of the vector
-- database is a record of operations on a state `W`, and Python's `hash` of a text, which differs
-- from process to process, a function. A payload's values are texts.
use aero_risk_ai.Base.{ℕ, ◌%◌, ◌^◌, String, List, [], ◌∷◌, map}
use aero_risk_ai.Base.Dict.{Dict, insert, get_or}
use aero_risk_ai.Base.Exec.{Exec, pure, or_else, ◌>>=◌, ◌>>◌}

-- A point that a search returns.
pub record ScoredPoint (F : Type 0) : Type 0 where
  pub payload : Dict String
  pub score : F

pub record PointStruct (F : Type 0) : Type 0 where
  pub id : ℕ
  pub vector : List F
  pub payload : Dict String

pub record VectorClient (W F : Type 0) : Type 0 where
  pub get_collection : String → Exec W (Unit {0})
  -- The size of the vectors; the distance is the cosine.
  pub create_collection : String → ℕ → Exec W (Unit {0})
  pub search : String → List F → ℕ → Exec W (List (ScoredPoint F))
  -- must_not: the key and the value that no result has.
  pub search_without : String → List F → String × String → ℕ → Exec W (List (ScoredPoint F))
  pub upsert : String → List (PointStruct F) → Exec W (Unit {0})
  pub hash : String → ℕ
  -- `datetime.utcnow().isoformat()`
  pub utcnow : W → String
  -- A sentiment as a payload's value.
  pub number : F → String

-- ComplianceRetrieval, which models/context_bundle.py does not define.
pub record ComplianceRetrieval (F : Type 0) : Type 0 where
  pub rule_id : String
  pub rule_text : String
  pub source : String
  pub relevance_score : F
  pub jurisdiction : String

abbrev pub collections : List (String × ℕ)
collections =
    ("compliance_rules", 768)
    ∷ ("news_articles", 768)
    ∷ ("user_profiles", 512)
    ∷ ("historical_patterns", 512)
    ∷ []

-- `{**payload, **more}`
abbrev pub updated : Dict String → Dict String → Dict String
updated payload [] = payload
updated payload ((k, v) ∷ more) = updated (insert k v payload) more

module _ {W F : Type 0} (client : VectorClient W F) where
  pub ensure_each : List (String × ℕ) → Exec W (Unit {0})
  ensure_each [] = pure tt
  ensure_each ((name, size) ∷ rest) =
      or_else (client.get_collection name) (client.create_collection name size) >> ensure_each rest

  pub ensure_collections : Exec W (Unit {0})
  unfolding ensure_each
  ensure_collections = ensure_each collections

  pub retrieval : ScoredPoint F → ComplianceRetrieval F
  retrieval result = record {
    rule_id = get_or "rule_id" "" (result.payload);
    rule_text = get_or "text" "" (result.payload);
    source = get_or "source" "" (result.payload);
    relevance_score = result.score;
    jurisdiction = get_or "jurisdiction" "" (result.payload);
  }

  pub search_compliance : List F → ℕ → Exec W (List (ComplianceRetrieval F))
  unfolding retrieval
  search_compliance query limit = do
    results ← client.search "compliance_rules" query limit
    pure (map retrieval results)

  pub search_similar_users : List F → String → ℕ → Exec W (List (Dict String))
  search_similar_users embedding user limit = do
    results ← client.search_without "user_profiles" embedding ("user_id", user) limit
    pure (map (λ (r : ScoredPoint F). r.payload) results)

  -- `hash(key) % (2**63)`
  pub point_id : String → ℕ
  point_id key = client.hash key % 2 ^ 63

  pub user_point : String → List F → Dict String → PointStruct F
  unfolding point_id
  user_point user embedding extra = record {
    id = point_id user;
    vector = embedding;
    payload = updated (("user_id", user) ∷ []) extra;
  }

  pub upsert_user_profile : String → List F → Dict String → Exec W (Unit {0})
  upsert_user_profile user embedding extra =
      client.upsert "user_profiles" (user_point user embedding extra ∷ [])

  pub article_point : String → List F → String → String → F → String → String → PointStruct F
  unfolding point_id
  article_point article embedding title content sentiment source now = record {
    id = point_id article;
    vector = embedding;
    payload =
        ("article_id", article)
        ∷ ("title", title)
        ∷ ("content", content)
        ∷ ("sentiment", client.number sentiment)
        ∷ ("source", source)
        ∷ ("timestamp", now)
        ∷ [];
  }

  pub add_news_article : String → List F → String → String → F → String → Exec W (Unit {0})
  add_news_article article embedding title content sentiment source w =
      client.upsert "news_articles"
        (article_point article embedding title content sentiment source (client.utcnow w) ∷ []) w
