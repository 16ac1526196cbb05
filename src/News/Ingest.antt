-- ===== src/News/Ingest.antt =====
-- ai_guardrail/aerorisk/agents/agent2_rag/news_ingester.py: ingest_article and ingest_batch.
use aero_risk_ai.Base.{
  ℕ, suc, ◌+◌, ◌≡◌, refl, ◌∙◌, ap, inl, inr, String, true, Option, List, [], ◌∷◌, arith, str_eq,
  eq_iff, Bool-cases,
}
use aero_risk_ai.Base.Lists.{any, length}
use aero_risk_ai.Base.Outcome.{Outcome, ok, err, err-ne-ok, ok-injective}
use aero_risk_ai.News.{
  NewsStore, Article, Ingester, doc_id, doc_text, payload_of, added, ingest_article, published_of,
  ingest_dated, ingest_one, counted, ingest_batch, list_or_empty,
}

module _ {W T Hit F : Type 0} (store : NewsStore W T Hit F) where
  abbrev pub IsSeen : String → Ingester store → Type 0
  IsSeen id v = any (λ (s : String). str_eq s id) (v.1) ≡ true

  added-keeps :
      (id new : String) (r : Outcome (Unit {0})) (w : W) (seen : List String)
      → any (λ (s : String). str_eq s id) seen ≡ true
      → IsSeen id ((added store new (r, w) seen).1)
  added-keeps id new (ok u) w seen h = ground arith
  added-keeps id new (err e) w seen h = h

  ingest_article-keeps :
      (id headline content source : String) (published : T) (symbols : Option (List String))
      (sentiment : Option String) (v : Ingester store)
      → IsSeen id v
      → IsSeen id ((ingest_article store headline content source published symbols sentiment v).1)
  unfolding ingest_article
  ingest_article-keeps id headline content source published symbols sentiment (w, seen) h =
      let new = doc_id store headline content published in
      let shown =
        doc_text store headline content source published (list_or_empty symbols) sentiment in
      let payload =
        payload_of store headline content source published symbols sentiment (store.now w) in
      elim (Bool-cases (any (λ (s : String). str_eq s new) seen)) [
        | inl e ↦ rw e h
        | inr n ↦
            let (r, w') = store.upsert_document new shown payload w in
            rw n (added-keeps id new r w' seen h)
      ]

  ingest_dated-keeps :
      (id : String) (a : Article T) (r : Outcome T) (v : Ingester store)
      → IsSeen id v
      → IsSeen id ((ingest_dated store a r v).1)
  ingest_dated-keeps id a (err e) v h = h
  ingest_dated-keeps id a (ok published) v h =
      ingest_article-keeps id _ _ _ published (a.symbols) (a.sentiment) v h

  counted-sum :
      (r : Outcome String) (counts : ℕ × ℕ)
      → (counted store r counts).0 + (counted store r counts).1 ≡ suc (counts.0 + counts.1)
  counted-sum (ok id) counts = omega arith
  counted-sum (err e) counts = omega arith

  -- Every article is counted once, and what has been seen stays seen.
  ingest_batch-keeps :
      (id : String) (counts : ℕ × ℕ) (articles : List (Article T)) (v : Ingester store)
      → IsSeen id v
      → let (total, v') = ingest_batch store counts articles v in
        IsSeen id v' × (total.0 + total.1 ≡ counts.0 + counts.1 + length articles)
  unfolding ingest_batch ingest_one
  ingest_batch-keeps id counts [] v h = (h, omega arith)
  ingest_batch-keeps id counts (a ∷ articles) v h =
      let date = published_of store (a.published_at) (store.now (v.0)) in
      let (r, v') = ingest_dated store a date v in
      let (seen, sum) =
        ingest_batch-keeps id (counted store r counts) articles v'
          (ingest_dated-keeps id a date v h) in
      (seen, omega (arith, sum, counted-sum r counts))

  added-IsSeen :
      (id new : String) (r : Outcome (Unit {0})) (w : W) (seen : List String)
      → (added store new (r, w) seen).0 ≡ ok id
      → (new ≡ id) × IsSeen new ((added store new (r, w) seen).1)
  added-IsSeen id new (ok u) w seen h = (ok-injective h, ground (arith, eq_iff new new))
  added-IsSeen id new (err e) w seen h = absurd (err-ne-ok h)

  module _ (headline content source : String) (published : T) (symbols : Option (List String))
      (sentiment : Option String) where
    ingest_article-IsSeen :
        (id : String) (v : Ingester store)
        → (ingest_article store headline content source published symbols sentiment v).0 ≡ ok id
        → let v' = (ingest_article store headline content source published symbols sentiment v).1 in
          (doc_id store headline content published ≡ id)
          × IsSeen (doc_id store headline content published) v'
    unfolding ingest_article
    ingest_article-IsSeen id (w, seen) h =
        let new = doc_id store headline content published in
        let shown =
          doc_text store headline content source published (list_or_empty symbols) sentiment in
        let payload =
          payload_of store headline content source published symbols sentiment (store.now w) in
        elim (Bool-cases (any (λ (s : String). str_eq s new) seen)) [
          | inl e ↦ rw e (ok-injective (rw e at h), e)
          | inr n ↦
              let (r, w') = store.upsert_document new shown payload w in
              rw n (added-IsSeen id new r w' seen (rw n at h))
        ]

    ingest_article-skips :
        (v : Ingester store)
        → IsSeen (doc_id store headline content published) v
        → ingest_article store headline content source published symbols sentiment v
          ≡ (ok (doc_id store headline content published), v)
    unfolding ingest_article
    ingest_article-skips (w, seen) h = rw h refl

  -- Once an article has been ingested, ingesting one with the same headline, content and date again
  -- gives the same identifier and writes nothing, whatever batch comes between and whatever source,
  -- symbols and sentiment it is given; and the batch counts each of its articles once, as ingested
  -- or as skipped.
  pub ingest_article-once :
      (headline content source other : String) (published : T) (symbols more : Option (List String))
      (sentiment mood : Option String) (articles : List (Article T)) (id : String)
      (v : Ingester store)
      → (ingest_article store headline content source published symbols sentiment v).0 ≡ ok id
      → let first =
          (ingest_article store headline content source published symbols sentiment v).1 in
        let (counts, last) = ingest_batch store (0, 0) articles first in
        (ingest_article store headline content other published more mood last ≡ (ok id, last))
        × (counts.0 + counts.1 ≡ length articles)
  ingest_article-once headline content source other published symbols more sentiment mood articles
        id v h =
      let first = (ingest_article store headline content source published symbols sentiment v).1 in
      let new = doc_id store headline content published in
      let (same, seen) =
        ingest_article-IsSeen headline content source published symbols sentiment id v h in
      let (kept, sum) = ingest_batch-keeps new (0, 0) articles first seen in
      let last : Ingester store = (ingest_batch store (0, 0) articles first).1 in
      (
        ingest_article-skips headline content other published more mood last kept
            ∙ ap (λ (s : String). (ok s, last)) same,
        omega (arith, sum),
      )
