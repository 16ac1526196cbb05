-- ===== src/News/Sentiment.antt =====
-- ai_guardrail/aerorisk/agents/agent2_rag/news_ingester.py: get_sentiment_summary.
use aero_risk_ai.Base.{
  ℕ, suc, ◌+◌, ◌*◌, ◌≤◌, ◌≡◌, String, Option, none, some, List, [], ◌∷◌, arith, ltb, Option-cases,
  inl, inr, if◌then◌else◌,
}
use aero_risk_ai.Base.Int.{pos}
use aero_risk_ai.Base.Lists.{length}
use aero_risk_ai.Base.Text.{lower_is}
use aero_risk_ai.Base.Outcome.{Outcome, ok, err}
use aero_risk_ai.Base.Exec.{Exec}
use aero_risk_ai.Base.Float.{Float}
use aero_risk_ai.News.{NewsStore, NewsItem}
use aero_risk_ai.News.Recent.{get_recent_news}

pub record Breakdown : Type 0 where
  pub positive : ℕ
  pub negative : ℕ
  pub neutral : ℕ

pub data Overall : Type 0 where
  positive negative neutral unknown failure : Overall

-- The dictionary; the last three entries are missing where there is no news, and on an error.
pub record Summary (F : Type 0) : Type 0 where
  pub symbol : String
  pub article_count : ℕ
  pub sentiment : Overall
  pub breakdown : Option Breakdown
  pub positive_ratio : Option F
  pub negative_ratio : Option F

-- `sentiment_counts[sent] += 1`, for a text that is a key in lower case.
abbrev pub counted : String → Breakdown → Breakdown
counted sent b =
    if lower_is sent "positive"
    then record b { positive = suc (b.positive) }
    else if lower_is sent "negative"
    then record b { negative = suc (b.negative) }
    else if lower_is sent "neutral"
    then record b { neutral = suc (b.neutral) }
    else b

-- The item's entry may be None, which has no `lower`.
abbrev pub count_sentiments : {F : Type 0} → List (NewsItem F) → Breakdown → Option Breakdown
count_sentiments [] b = some b
count_sentiments (item ∷ news) b = elim (item.sentiment) [
  | none ↦ none
  | some sent ↦ count_sentiments news (counted sent b)
]

-- `p > n * 1.5` and `n > p * 1.5`, which are exact for counts of at most 50.
abbrev pub overall_of : Breakdown → Overall
overall_of b =
    if ltb (b.negative * 3) (b.positive * 2)
    then positive
    else if ltb (b.positive * 3) (b.negative * 2)
    then negative
    else neutral

module _ {W T Hit F : Type 0} ⦃fl : Float F⦄ (store : NewsStore W T Hit F) where
  abbrev pub no_breakdown : String → Overall → Summary F
  no_breakdown symbol sentiment = record {
    symbol = symbol;
    article_count = 0;
    sentiment = sentiment;
    breakdown = none;
    positive_ratio = none;
    negative_ratio = none;
  }

  abbrev pub counted_summary : String → ℕ → Option Breakdown → Summary F
  counted_summary symbol total none = no_breakdown symbol failure
  counted_summary symbol total (some b) = record {
    symbol = symbol;
    article_count = total;
    sentiment = overall_of b;
    breakdown = some b;
    positive_ratio = some (fl.div_int (pos (b.positive)) (pos total));
    negative_ratio = some (fl.div_int (pos (b.negative)) (pos total));
  }

  pub summary_of : String → List (NewsItem F) → Summary F
  summary_of symbol [] = no_breakdown symbol unknown
  summary_of symbol (item ∷ news) =
      counted_summary symbol (length (item ∷ news))
        (count_sentiments (item ∷ news) (record { positive = 0; negative = 0; neutral = 0 }))

  abbrev pub summarised : String → Outcome (List (NewsItem F)) × W → Outcome (Summary F) × W
  summarised symbol (ok news, w) = (ok (summary_of symbol news), w)
  summarised symbol (err e, w) = (ok (no_breakdown symbol failure), w)

  pub get_sentiment_summary : String → ℕ → Exec W (Summary F)
  unfolding summary_of
  get_sentiment_summary symbol hours w =
      summarised symbol (get_recent_news store (some symbol) hours 50 w)

none-ne-some : {A : Type 0} {a : A} → none ≡ some a → ⊥
none-ne-some h = cc

counted-le :
    (sent : String) (b : Breakdown)
    → (counted sent b).positive + (counted sent b).negative + (counted sent b).neutral
      ≤ suc (b.positive + b.negative + b.neutral)
counted-le sent b = ground arith

-- The three counts never exceed the number of items.
count_sentiments-bounds :
    {F : Type 0} (news : List (NewsItem F)) (b c : Breakdown)
    → count_sentiments news b ≡ some c
    → c.positive + c.negative + c.neutral ≤ b.positive + b.negative + b.neutral + length news
count_sentiments-bounds [] b c h = ground arith
count_sentiments-bounds (item ∷ news) b c h = elim (Option-cases (item.sentiment)) [
  | inl e ↦ absurd (none-ne-some (rw e at h))
  | inr (sent, e) ↦
      let step : count_sentiments news (counted sent b) ≡ some c = rw e at h in
      omega (arith, count_sentiments-bounds news (counted sent b) c step, counted-le sent b)
]
