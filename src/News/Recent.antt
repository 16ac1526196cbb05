-- ===== src/News/Recent.antt =====
-- ai_guardrail/aerorisk/agents/agent2_rag/news_ingester.py: get_recent_news.
use aero_risk_ai.Base.{
  ℕ, suc, ◌+◌, ◌*◌, ◌≤◌, ◌≡◌, refl, sym, ◌∙◌, ap, inl, inr, String, concat, Bool, true, false,
  Option, none, some, List, [], ◌∷◌, ◌++◌, arith, leb, str_eq, if◌then◌else◌, Bool-cases,
}
use mathlib.Core.List.{append-nil, append_assoc}
use aero_risk_ai.Base.Lists.{
  length, length-append, length-take_le, take, take-le, take-append, All, All-append, All-take,
}
use aero_risk_ai.Base.Outcome.{Outcome, ok, err}
use aero_risk_ai.Base.Exec.{Exec, recover}
use aero_risk_ai.News.{NewsStore, NewsItem, list_or_empty}

-- `f"market news about {symbol} stock" if symbol`
abbrev pub news_query : Option String → String
news_query none = "latest financial market news"
news_query (some s) =
    if str_eq s ""
    then "latest financial market news"
    else concat "market news about " (concat s " stock")

module _ {W T Hit F : Type 0} (store : NewsStore W T Hit F) where
  pub item_of : Hit → String → NewsItem F
  item_of hit published = record {
    headline = store.field hit "headline";
    source = store.field hit "source";
    sentiment = store.field hit "sentiment";
    published_at = published;
    symbols = list_or_empty (store.symbols hit);
    score = store.score hit;
  }

  -- `fromisoformat` and the comparison with the cutoff; an exception of either skips the hit.
  abbrev pub is_since : T → Outcome T → Bool
  is_since cutoff (err e) = false
  is_since cutoff (ok published) = recover false (store.since published cutoff)

  abbrev pub fresh_text : Hit → T → Option String → List (NewsItem F)
  fresh_text hit cutoff none = []
  fresh_text hit cutoff (some s) =
      if str_eq s ""
      then []
      else if is_since cutoff (store.fromisoformat s)
      then item_of hit s ∷ []
      else []

  -- What a hit adds to the list: an item, or nothing.
  pub fresh_item : T → Hit → List (NewsItem F)
  fresh_item cutoff hit = fresh_text hit cutoff (store.field hit "published_at")

  -- The loop, with its `break`.
  unfoldable pub filter_news : T → ℕ → List Hit → List (NewsItem F) → List (NewsItem F)
  filter_news cutoff limit [] filtered = filtered
  filter_news cutoff limit (hit ∷ hits) filtered =
      let now = filtered ++ fresh_item cutoff hit in
      let rest = filter_news cutoff limit hits now in if leb limit (length now) then now else rest

  abbrev pub filtered_from :
      Outcome T → ℕ → Outcome (List Hit) × W → Outcome (List (NewsItem F)) × W
  filtered_from cutoff limit (err e, w) = (ok [], w)
  filtered_from (ok cutoff) limit (ok results, w) = (ok (filter_news cutoff limit results []), w)
  filtered_from (err e) limit (ok results, w) = (ok [], w)

  pub get_recent_news : Option String → ℕ → ℕ → Exec W (List (NewsItem F))
  unfolding filter_news
  get_recent_news symbol hours limit w =
      let (results, w') = store.search_similar (news_query symbol) (limit * 2) w in
      filtered_from (store.hours_before hours (store.now w')) limit (results, w')

  -- The items of all hits, in their order.
  abbrev pub fresh_items : T → List Hit → List (NewsItem F)
  fresh_items cutoff [] = []
  fresh_items cutoff (hit ∷ hits) = fresh_item cutoff hit ++ fresh_items cutoff hits

  fresh_item-length : (cutoff : T) (hit : Hit) → length (fresh_item cutoff hit) ≤ 1
  unfolding fresh_item
  fresh_item-length cutoff hit = ground arith

  filter_news-take :
      (cutoff : T) (limit : ℕ) (hits : List Hit) (filtered : List (NewsItem F))
      → suc (length filtered) ≤ limit
      → filter_news cutoff limit hits filtered ≡ take limit (filtered ++ fresh_items cutoff hits)
  unfolding filter_news
  filter_news-take cutoff limit [] filtered k =
      sym (ap (take limit) (append-nil filtered) ∙ take-le limit filtered (omega arith))
  filter_news-take cutoff limit (hit ∷ hits) filtered k =
      let item = fresh_item cutoff hit in
      let now = filtered ++ item in
      let grown : length now ≡ length filtered + length item = length-append filtered item in
      let again : take limit (now ++ fresh_items cutoff hits)
          ≡ take limit (filtered ++ (item ++ fresh_items cutoff hits)) =
        ap (take limit) (append_assoc filtered item (fresh_items cutoff hits)) in
      elim (Bool-cases (leb limit (length now))) [
        | inl full ↦ rw full (
            sym (
              take-append limit now (fresh_items cutoff hits)
                (ground (arith, fresh_item-length cutoff hit)))
            ∙ again)
        | inr open_yet ↦ rw open_yet (filter_news-take cutoff limit hits now (ground arith) ∙ again)
      ]

  -- The item's date is a date, and not before the cutoff.
  abbrev pub IsFresh : T → NewsItem F → Type 0
  IsFresh cutoff item =
      (published : T) × (store.fromisoformat (item.published_at) ≡ ok published)
      × (store.since published cutoff ≡ ok true)

  recover-true : (r : Outcome Bool) → recover false r ≡ true → r ≡ ok true
  recover-true (ok b) h = ap ok h
  recover-true (err e) h = cc

  is_since-IsFresh :
      (cutoff : T) (r : Outcome T)
      → is_since cutoff r ≡ true
      → (published : T) × (r ≡ ok published) × (store.since published cutoff ≡ ok true)
  is_since-IsFresh cutoff (err e) h = cc
  is_since-IsFresh cutoff (ok published) h =
      (published, refl, recover-true (store.since published cutoff) h)

  fresh_text-IsFresh :
      (cutoff : T) (hit : Hit) (s : Option String) → All (IsFresh cutoff) (fresh_text hit cutoff s)
  unfolding item_of
  fresh_text-IsFresh cutoff hit none = tt
  fresh_text-IsFresh cutoff hit (some s) = elim (Bool-cases (str_eq s "")) [
    | inl e ↦ rw e tt
    | inr ne ↦ elim (Bool-cases (is_since cutoff (store.fromisoformat s))) [
      | inl e ↦ rw (ne, e) (is_since-IsFresh cutoff (store.fromisoformat s) e, tt)
      | inr n ↦ rw (ne, n) tt
    ]
  ]

  fresh_items-IsFresh :
      (cutoff : T) (hits : List Hit) → All (IsFresh cutoff) (fresh_items cutoff hits)
  unfolding fresh_item
  fresh_items-IsFresh cutoff [] = tt
  fresh_items-IsFresh cutoff (hit ∷ hits) =
      All-append (IsFresh cutoff) (fresh_item cutoff hit) (fresh_items cutoff hits)
        (fresh_text-IsFresh cutoff hit (store.field hit "published_at"))
        (fresh_items-IsFresh cutoff hits)

  abbrev pub IsRecent :
      Outcome T → ℕ → Outcome (List Hit) × W → Outcome (List (NewsItem F)) × W → Type 0
  IsRecent cutoff limit (err e, w) r = r ≡ (ok [], w)
  IsRecent (err e) limit (ok hits, w) r = r ≡ (ok [], w)
  IsRecent (ok cutoff) limit (ok hits, w) r =
      let items : List (NewsItem F) = take limit (fresh_items cutoff hits) in
      (r ≡ (ok items, w)) × (length items ≤ limit) × All (IsFresh cutoff) items

  filtered_from-IsRecent :
      (cutoff : Outcome T) (limit : ℕ) (searched : Outcome (List Hit) × W)
      → 1 ≤ limit
      → IsRecent cutoff limit searched (filtered_from cutoff limit searched)
  filtered_from-IsRecent cutoff limit (err e, w) h = refl
  filtered_from-IsRecent (err e) limit (ok hits, w) h = refl
  filtered_from-IsRecent (ok cutoff) limit (ok hits, w) h = (
    rw (filter_news-take cutoff limit hits [] (omega arith)) refl,
    length-take_le limit (fresh_items cutoff hits),
    All-take (IsFresh cutoff) limit (fresh_items cutoff hits) (fresh_items-IsFresh cutoff hits),
  )

  -- For a limit of one or more, the news are the first `limit` items, in the order of the search, of
  -- all hits whose date can be read and is not before the cutoff, so at most `limit`; where the
  -- search raises, or the hours reach back beyond the first date there is, there are none.
  pub get_recent_news-IsRecent :
      (symbol : Option String) (hours limit : ℕ) (w : W)
      → 1 ≤ limit
      → let searched = store.search_similar (news_query symbol) (limit * 2) w in
        IsRecent
          (store.hours_before hours (store.now (searched.1)))
          limit
          searched
          (get_recent_news symbol hours limit w)
  unfolding get_recent_news
  get_recent_news-IsRecent symbol hours limit w h =
      let searched = store.search_similar (news_query symbol) (limit * 2) w in
      filtered_from-IsRecent (store.hours_before hours (store.now (searched.1))) limit searched h
