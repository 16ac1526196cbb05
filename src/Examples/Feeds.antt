-- ===== src/Examples/Feeds.antt =====
-- The theorems on the consumer, the news and the LLM's decisions at concrete services.
use aero_risk_ai.Base.{
  ℕ, zero, suc, ◌+◌, ◌*◌, ◌-◌, String, ◌≡◌, refl, true, false, not, none, some, List, [], ◌∷◌, leb,
  str_eq, arith, if◌then◌else◌, ◌==◌,
}
use aero_risk_ai.Base.Lists.{any}
use aero_risk_ai.Base.Outcome.{Outcome, ok, err, runtime, validation}
use aero_risk_ai.Base.Exec.{Exec}
use aero_risk_ai.Consumer.{
  Kafka, timed_out, message, Round, Consumer, Work, success, failure, start, stop, consume_loop,
}
use aero_risk_ai.Consumer.Loop.{IsServed, delivered, consume_loop-serves}
use aero_risk_ai.News.{NewsStore, Article, missing, ingest_article, ingest_batch}
use aero_risk_ai.News.Ingest.{ingest_article-once}
use aero_risk_ai.News.Recent.{IsRecent, news_query, get_recent_news, get_recent_news-IsRecent}

-- A message is a number, and 0 is no event; the handler adds the events up, and fails at 7.
abbrev parse_number : ℕ → Outcome ℕ
parse_number n = elim n [ zero ↦ err validation | suc k ↦ ok (suc k) ]

abbrev kafka : Kafka ℕ ℕ ℕ
kafka = record {
  connect = λ w. (ok tt, w);
  disconnect = λ w. (err (runtime "down"), w);
  getmany = λ w. (ok ((3 ∷ 4 ∷ []) ∷ (0 ∷ 5 ∷ []) ∷ []), w);
  parse = parse_number;
  event_type = λ n. "order";
}

abbrev add_up : ℕ → Exec ℕ (Unit {0})
add_up n total = (if n == 7 then err (runtime "seven") else ok tt, total + n)

abbrev rounds : List (Round ℕ)
rounds =
    record { poll = message 7; stops = false }
    ∷ record { poll = timed_out; stops = false }
    ∷ record { poll = message 0; stops = false }
    ∷ record { poll = message 4; stops = true }
    ∷ record { poll = message 9; stops = false }
    ∷ []

abbrev fresh : Work ℕ
fresh = record { world = 0; counted = []; slept = 0 }

abbrev idle : Consumer
idle = record { created = false; running = false }

started : (start kafka (0, idle)).0 ≡ ok tt
unfolding start
started = refl

consume_loop-serves_example :
    let c = (start kafka (0, idle)).1.1 in
    let (answer, last) = consume_loop kafka add_up c rounds fresh in
    (answer ≡ ok (not (any (λ (x : Round ℕ). x.stops) rounds)))
    × IsServed kafka add_up (delivered kafka rounds) fresh last
    × (consume_loop kafka add_up ((stop kafka (0, c)).1.1) rounds fresh ≡ (ok false, fresh))
consume_loop-serves_example = consume_loop-serves kafka add_up 0 0 idle rounds fresh started

-- Two failures, of the handler and of a message, are slept off.
loop_runs : consume_loop kafka add_up (record { created = true; running = true }) rounds fresh ≡ (
  ok false,
  record { world = 11; counted = ("order", failure) ∷ ("order", success) ∷ []; slept = 2 },
)
unfolding consume_loop
loop_runs = refl

-- The world is the time, and dates are numbers.
abbrev store : NewsStore ℕ ℕ (ℕ × String) ℕ
store = record {
  now = λ w. w;
  isoformat = λ t. "2024";
  fromisoformat = λ s. if str_eq s "old" then ok 1 else ok 90;
  hours_before = λ hours t. ok (t - hours);
  since = λ published cutoff. ok (leb cutoff published);
  digest = λ s. s;
  upsert_document = λ id text payload w. (ok tt, w + 1);
  search_similar = λ query limit w. (ok ((1, "old") ∷ (2, "new") ∷ (3, "new") ∷ []), w);
  field = λ hit key. some (hit.1);
  symbols = λ hit. none;
  score = λ hit. hit.0;
}

get_recent_news-IsRecent_example :
    let searched = store.search_similar (news_query (some "ACME")) (1 * 2) 100 in
    IsRecent store
      (store.hours_before 24 (store.now (searched.1)))
      1
      searched
      (get_recent_news store (some "ACME") 24 1 100)
get_recent_news-IsRecent_example =
    get_recent_news-IsRecent store (some "ACME") 24 1 100 (omega arith)

abbrev article : Article ℕ
article = record {
  headline = some "up";
  content = none;
  source = none;
  published_at = missing;
  symbols = none;
  sentiment = none;
}

ingested : (ingest_article store "a" "b" "wire" 5 none none (0, [])).0 ≡ ok "news_a:b:2024"
unfolding ingest_article
ingested = refl

ingest_article-once_example :
    let first = (ingest_article store "a" "b" "wire" 5 none none (0, [])).1 in
    let (counts, last) = ingest_batch store (0, 0) (article ∷ []) first in
    (ingest_article store "a" "b" "press" 5 none (some "positive") last
      ≡ (ok "news_a:b:2024", last))
    × (counts.0 + counts.1 ≡ 1)
ingest_article-once_example =
    ingest_article-once store "a" "b" "wire" "press" 5 none none none (some "positive")
      (article ∷ []) "news_a:b:2024" (0, []) ingested
