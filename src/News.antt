-- ===== src/News.antt =====
-- ai_guardrail/aerorisk/agents/agent2_rag/news_ingester.py. The vector store, the clock, the dates
-- of the library and sha256 are a record of operations, of which those on the state `W` may raise.
pub mod Ingest
pub mod Recent
pub mod Sentiment
use aero_risk_ai.Base.{
  ℕ, suc, ◌+◌, ◌*◌, String, concat, Bool, true, false, ◌||◌, Option, none, some, List, [], ◌∷◌,
  ◌++◌, ltb, leb, str_eq, if◌then◌else◌,
}
use aero_risk_ai.Base.Int.{ℤ, pos}
use aero_risk_ai.Base.Lists.{is_empty, length, any}
use aero_risk_ai.Base.Text.{lower_is}
use aero_risk_ai.Base.Outcome.{Outcome, ok, err, Error}
use aero_risk_ai.Base.Exec.{Exec, pure, lift, attempt, outside, recover, ◌>>=◌, ◌>>◌}
use aero_risk_ai.Base.Float.{Float}
use aero_risk_ai.Models.Incident.{join}

pub record NewsPayload : Type 0 where
  pub headline : String
  pub content : String
  pub source : String
  pub published_at : String
  pub symbols : List String
  pub sentiment : String
  pub ingested_at : String

pub record NewsStore (W T Hit F : Type 0) : Type 0 where
  pub now : W → T
  pub isoformat : T → String
  pub fromisoformat : String → Outcome T
  -- `now - timedelta(hours=hours)`, and `published >= cutoff`, which raises where one of the two has
  -- a time zone and the other none.
  pub hours_before : ℕ → T → Outcome T
  pub since : T → T → Outcome Bool
  -- `hashlib.sha256(text.encode()).hexdigest()[:16]`
  pub digest : String → String
  -- upsert_document in "news_feed": the identifier, the text and the payload.
  pub upsert_document : String → String → NewsPayload → Exec W (Unit {0})
  -- search_similar in "news_feed": the text and the limit.
  pub search_similar : String → ℕ → Exec W (List Hit)
  -- `r.payload.get(key)`, and the list under "symbols".
  pub field : Hit → String → Option String
  pub symbols : Hit → Option (List String)
  pub score : Hit → F

-- The value of "published_at" in an article: a date, a text, nothing, or a value that
-- `fromisoformat` refuses.
pub data Published (T : Type 0) : Type 0 where
  date : T → Published T
  text : String → Published T
  missing : Published T
  unusable : Error → Published T

pub record Article (T : Type 0) : Type 0 where
  pub headline : Option String
  pub content : Option String
  pub source : Option String
  pub published_at : Published T
  pub symbols : Option (List String)
  pub sentiment : Option String

pub record NewsItem (F : Type 0) : Type 0 where
  pub headline : Option String
  pub source : Option String
  pub sentiment : Option String
  pub published_at : String
  pub symbols : List String
  pub score : F

-- `article.get(key, default)`
abbrev pub text_or : String → Option String → String
text_or default none = default
text_or default (some s) = s

-- `sentiment or 'neutral'`
abbrev pub sentiment_or_neutral : Option String → String
sentiment_or_neutral none = "neutral"
sentiment_or_neutral (some s) = if str_eq s "" then "neutral" else s

-- `symbols or []`
abbrev pub list_or_empty : Option (List String) → List String
list_or_empty none = []
list_or_empty (some ss) = ss

-- `', '.join(symbols) if symbols else 'N/A'`
abbrev pub symbols_text : List String → String
symbols_text [] = "N/A"
symbols_text (s ∷ ss) = join (s ∷ ss)

-- A line of the document's text, behind its newline.
abbrev pub text_line : String → String → String → String
text_line label value rest = concat "\n        " (concat label (concat value rest))

module _ {W T Hit F : Type 0} (store : NewsStore W T Hit F) where
  -- The processed identifiers.
  abbrev pub Ingester : Type 0
  Ingester = W × List String

  pub doc_id : String → String → T → String
  doc_id headline content published = concat "news_" (
      store.digest
        (concat headline (concat ":" (concat content (concat ":" (store.isoformat published))))))

  pub doc_text : String → String → String → T → List String → Option String → String
  doc_text headline content source published symbols sentiment = text_line "Headline: " headline (
      text_line "Source: " source (
        text_line "Published: " (store.isoformat published) (
          text_line "Symbols: " (symbols_text symbols) (
            text_line "Content: " content
              (text_line "Sentiment: " (sentiment_or_neutral sentiment) "\n        ")))))

  pub payload_of :
      String → String → String → T → Option (List String) → Option String → T → NewsPayload
  payload_of headline content source published symbols sentiment now = record {
    headline = headline;
    content = content;
    source = source;
    published_at = store.isoformat published;
    symbols = list_or_empty symbols;
    sentiment = sentiment_or_neutral sentiment;
    ingested_at = store.isoformat now;
  }

  -- The set gains the identifier once the store has the document.
  abbrev pub added : String → Outcome (Unit {0}) × W → List String → Outcome String × Ingester
  added id (ok u, w) seen = (ok id, (w, id ∷ seen))
  added id (err e, w) seen = (err e, (w, seen))

  unfoldable pub ingest_article :
      String → String → String → T → Option (List String) → Option String → Exec Ingester String
  unfolding doc_id doc_text payload_of
  ingest_article headline content source published symbols sentiment (w, seen) =
      let id = doc_id headline content published in
      let shown = doc_text headline content source published (list_or_empty symbols) sentiment in
      let payload = payload_of headline content source published symbols sentiment (store.now w) in
      let fresh = added id (store.upsert_document id shown payload w) seen in
      if any (λ (s : String). str_eq s id) seen then (ok id, (w, seen)) else fresh

  pub published_of : Published T → T → Outcome T
  published_of (date t) now = ok t
  published_of (text s) now = store.fromisoformat s
  published_of missing now = store.fromisoformat (store.isoformat now)
  published_of (unusable e) now = err e

  abbrev pub ingest_dated : Article T → Outcome T → Exec Ingester String
  ingest_dated a (err e) v = (err e, v)
  ingest_dated a (ok published) v =
      ingest_article (text_or "" (a.headline)) (text_or "" (a.content))
        (text_or "unknown" (a.source)) published (a.symbols) (a.sentiment) v

  pub ingest_one : Article T → Exec Ingester String
  unfolding published_of
  ingest_one a v = ingest_dated a (published_of (a.published_at) (store.now (v.0))) v

  abbrev pub counted : Outcome String → ℕ × ℕ → ℕ × ℕ
  counted (ok id) (successful, skipped) = (suc successful, skipped)
  counted (err e) (successful, skipped) = (successful, suc skipped)

  pub ingest_batch : ℕ × ℕ → List (Article T) → Ingester → (ℕ × ℕ) × Ingester
  unfolding ingest_one
  ingest_batch counts [] v = (counts, v)
  ingest_batch counts (a ∷ articles) v =
      let (r, v') = ingest_one a v in ingest_batch (counted r counts) articles v'

  pub clear_cache : Ingester → Ingester
  clear_cache (w, seen) = (w, [])
