-- ===== src/Seeds/Synthetic.antt =====
-- data/scripts/generate_synthetic.py. The generator of random numbers, with the clock and the
-- identifiers, is a record of operations on a state `G`; a quantity and a price are floats.
use aero_risk_ai.Base.{
  ℕ, zero, suc, ◌+◌, ◌*◌, ◌%◌, ◌≡◌, refl, String, concat, Bool, true, false, Option, none, some,
  List, [], ◌∷◌, ◌++◌, arith, str_eq, ◌==◌, if◌then◌else◌,
}
use aero_risk_ai.Base.Int.{ℤ, pos, ltb_ℤ}
use aero_risk_ai.Base.Lists.{length}
use aero_risk_ai.Base.Outcome.{Outcome, ok, err}
use aero_risk_ai.Base.Float.{Float, min_f}

pub record Random (G F : Type 0) : Type 0 where
  -- `random.choice` among so many, as an index, and `random.choices` with the weights 7, 2 and 1.
  pub index : ℕ → G → ℕ × G
  pub weighted : G → ℕ × G
  pub uniform : F → F → G → F × G
  pub random : G → F × G
  -- `uuid.uuid4().hex[:n]`, and that in capitals.
  pub hex : ℕ → G → String × G
  pub hex_upper : ℕ → G → String × G
  pub ip_address : G → String × G
  -- `datetime.utcnow().isoformat() + 'Z'`
  pub utcnow : G → String
  -- `str(i).zfill(3)`
  pub zfill : ℕ → String

pub record SyntheticOrder (F : Type 0) : Type 0 where
  pub order_id : String
  pub user_id : String
  pub symbol : String
  pub side : String
  pub quantity : F
  pub price : Option F
  pub order_type : String
  pub time_in_force : String
  pub timestamp : String
  pub client_order_id : String
  pub source : String
  pub ip_address : String
  pub spoof_risk : Bool

pub record SyntheticTrade (F : Type 0) : Type 0 where
  pub trade_id : String
  pub order_id : String
  pub symbol : String
  pub side : String
  pub price : F
  pub quantity : F
  pub value_usd : F
  pub fee_usd : F
  pub timestamp : String
  pub counterparty_order_id : String
  pub liquidity : String

pub data AnomalyKind : Type 0 where
  wash_trading spoofing velocity vwap_deviation : AnomalyKind

-- The lists, and the number of anomalous orders, that the loops carry.
pub record Progress (F : Type 0) : Type 0 where
  pub all_orders : List (SyntheticOrder F)
  pub all_trades : List (SyntheticTrade F)
  pub anomaly_count : ℕ

abbrev pub nth {ℓ} : {A : Type ℓ} → A → List A → ℕ → A
nth a [] i = a
nth a (x ∷ xs) zero = x
nth a (x ∷ xs) (suc i) = nth a xs i

-- The order that was appended last, or none.
abbrev pub last_of {ℓ} : {A : Type ℓ} → List A → Option A
last_of [] = none
last_of (x ∷ []) = some x
last_of (x ∷ y ∷ xs) = last_of (y ∷ xs)

module _ {G F : Type 0} ⦃fl : Float F⦄ (rng : Random G F) where
  abbrev pub symbols : List (String × F)
  symbols =
      ("AAPL", fl.lit 351 2)
      ∷ ("GOOGL", fl.lit 561 4)
      ∷ ("MSFT", fl.lit 380 1)
      ∷ ("AMZN", fl.lit 357 2)
      ∷ ("META", fl.lit 485 1)
      ∷ ("TSLA", fl.lit 245 1)
      ∷ ("NVDA", fl.lit 875 1)
      ∷ ("JPM", fl.lit 195 1)
      ∷ ("V", fl.lit 280 1)
      ∷ ("JNJ", fl.lit 155 1)
      ∷ ("WMT", fl.lit 165 1)
      ∷ ("PG", fl.lit 158 1)
      ∷ ("MA", fl.lit 450 1)
      ∷ ("HD", fl.lit 345 1)
      ∷ ("DIS", fl.lit 110 1)
      ∷ ("NFLX", fl.lit 625 1)
      ∷ ("PYPL", fl.lit 62 1)
      ∷ ("INTC", fl.lit 32 1)
      ∷ ("AMD", fl.lit 165 1)
      ∷ ("CRM", fl.lit 275 1)
      ∷ []

  -- `random.choice(xs)` on a list that is not empty.
  pub choice : {A : Type 0} → A → List A → G → A × G
  choice a xs g = let (i, g') = rng.index (length xs) g in (nth a xs i, g')

  pub negative : F → F
  negative x = fl.sub (fl.lit 0 1) x

  pub generate_order : String → String → F → G → SyntheticOrder F × G
  unfolding choice negative
  generate_order user symbol base g =
      let (side, g1) = choice "BUY" ("BUY" ∷ "SELL" ∷ []) g in
      let (quantity, g2) = rng.uniform (fl.lit 1 1) (fl.lit 1000 1) g1 in
      let (variation, g3) = rng.uniform (negative (fl.lit 2 100)) (fl.lit 2 100) g2 in
      let price = fl.round (fl.mul base (fl.add (fl.lit 1 1) variation)) 2 in
      let (kind, g4) = rng.weighted g3 in
      let order_type = nth "LIMIT" ("LIMIT" ∷ "MARKET" ∷ "STOP_LIMIT" ∷ []) kind in
      let (order, g5) = rng.hex_upper 12 g4 in
      let (force, g6) = choice "GTC" ("GTC" ∷ "DAY" ∷ "IOC" ∷ []) g5 in
      let (client, g7) = rng.hex 8 g6 in
      let (source, g8) = choice "WEB" ("WEB" ∷ "API" ∷ "MOBILE" ∷ "ALGO" ∷ []) g7 in
      let (ip, g9) = rng.ip_address g8 in
      (
        record {
          order_id = concat "ORD-" order;
          user_id = user;
          symbol = symbol;
          side = side;
          quantity = fl.round quantity 2;
          price = if str_eq order_type "MARKET" then none else some price;
          order_type = order_type;
          time_in_force = force;
          timestamp = rng.utcnow g6;
          client_order_id = concat "CLI-" client;
          source = source;
          ip_address = ip;
          spoof_risk = false;
        },
        g9,
      )

  pub generate_trade : SyntheticOrder F → F → F → G → SyntheticTrade F × G
  unfolding choice
  generate_trade order price quantity g =
      let (trade, g1) = rng.hex_upper 12 g in
      let (other, g2) = rng.hex_upper 12 g1 in
      let (liquidity, g3) = choice "MAKER" ("MAKER" ∷ "TAKER" ∷ []) g2 in
      (
        record {
          trade_id = concat "TRD-" trade;
          order_id = order.order_id;
          symbol = order.symbol;
          side = order.side;
          price = price;
          quantity = quantity;
          value_usd = fl.round (fl.mul price quantity) 2;
          fee_usd = fl.round (fl.mul (fl.mul price quantity) (fl.lit 1 1000)) 2;
          timestamp = rng.utcnow g1;
          counterparty_order_id = concat "ORD-" other;
          liquidity = liquidity;
        },
        g3,
      )

  -- What the loop of an anomaly makes of the order of round `i`.
  pub disguise : AnomalyKind → F → ℕ → SyntheticOrder F × G → SyntheticOrder F × G
  unfolding choice negative
  disguise wash_trading base i (order, g) =
      (record order { side = if i % 2 == 0 then "BUY" else "SELL"; quantity = fl.lit 100 1 }, g)
  disguise spoofing base i (order, g) =
      let (quantity, g') = rng.uniform (fl.lit 5000 1) (fl.lit 10000 1) g in
      let sign = if i % 2 == 0 then negative (fl.lit 1 1) else fl.lit 1 1 in
      (
        record order {
          quantity = quantity;
          price = some (fl.mul base (fl.add (fl.lit 1 1) (fl.mul (fl.lit 5 100) sign)));
          spoof_risk = true;
        },
        g',
      )
  disguise velocity base i (order, g) = (order, g)
  disguise vwap_deviation base i (order, g) =
      let (factor, g') =
        choice (fl.lit 80 100)
          (fl.lit 80 100 ∷ fl.lit 85 100 ∷ fl.lit 115 100 ∷ fl.lit 120 100 ∷ []) g in
      (record order { price = some (fl.mul base factor) }, g')

  abbrev pub rounds_of : AnomalyKind → ℕ
  rounds_of wash_trading = 10
  rounds_of spoofing = 5
  rounds_of velocity = 50
  rounds_of vwap_deviation = 5

  -- `n` rounds from the round `i` on.
  pub disguised_orders : AnomalyKind → String → String → F → ℕ → ℕ → G → List (SyntheticOrder F) × G
  unfolding generate_order disguise
  disguised_orders kind user symbol base i zero g = ([], g)
  disguised_orders kind user symbol base i (suc n) g =
      let (order, g1) = disguise kind base i (generate_order user symbol base g) in
      let (orders, g2) = disguised_orders kind user symbol base (suc i) n g1 in (order ∷ orders, g2)

  pub generate_anomalous_orders :
      String → String → F → AnomalyKind → G → List (SyntheticOrder F) × G
  unfolding disguised_orders
  generate_anomalous_orders user symbol base kind g =
      disguised_orders kind user symbol base 0 (rounds_of kind) g

  abbrev pub kinds : List AnomalyKind
  kinds = wash_trading ∷ spoofing ∷ velocity ∷ vwap_deviation ∷ []

  -- An anomaly, or a plain order.
  pub extend : Bool → String → String → F → Progress F → G → Progress F × G
  unfolding choice generate_anomalous_orders generate_order
  extend true user symbol base p g =
      let (kind, g1) = choice wash_trading kinds g in
      let (orders, g2) = generate_anomalous_orders user symbol base kind g1 in
      (
        record p {
          all_orders = p.all_orders ++ orders;
          anomaly_count = p.anomaly_count + length orders;
        },
        g2,
      )
  extend false user symbol base p g =
      let (order, g1) = generate_order user symbol base g in
      (record p { all_orders = p.all_orders ++ order ∷ [] }, g1)

  -- `order["price"] or base_price`
  abbrev pub price_or : F → Option F → F
  price_or base none = base
  price_or base (some x) = if fl.eq x (fl.lit 0 1) then base else x

  abbrev pub trade_on : F → Option (SyntheticOrder F) → Progress F → G → Progress F × G
  trade_on base none p g = (p, g)
  trade_on base (some order) p g =
      let (most, g1) = rng.uniform (fl.lit 10 1) (fl.lit 100 1) g in
      let (trade, g2) =
        generate_trade order (price_or base order.price) (min_f order.quantity most) g1 in
      (record p { all_trades = p.all_trades ++ trade ∷ [] }, g2)

  -- `random.random()` is drawn only while anomalies are due.
  abbrev pub due : ℕ → ℤ → G → Bool × G
  due count target g =
      let (x, g') = rng.random g in
      if ltb_ℤ (pos count) target then (fl.lt x (fl.lit 1 10), g') else (false, g)

  pub one_order : ℤ → String → Progress F → G → Progress F × G
  unfolding extend generate_trade
  one_order target user p g =
      let ((symbol, base), g1) = choice ("AAPL", fl.lit 351 2) symbols g in
      let (anomalous, g2) = due (p.anomaly_count) target g1 in
      let (p1, g3) = extend anomalous user symbol base p g2 in
      let (x, g4) = rng.random g3 in
      let filled = trade_on base (last_of (p1.all_orders)) p1 g4 in
      if fl.lt x (fl.lit 7 10) then filled else (p1, g4)

  pub orders_of : ℤ → String → ℕ → Progress F → G → Progress F × G
  unfolding one_order
  orders_of target user zero p g = (p, g)
  orders_of target user (suc n) p g =
      let (p1, g1) = one_order target user p g in orders_of target user n p1 g1

  -- The users `i` on, `n` of them.
  pub users_from : ℕ → ℕ → List String
  users_from i zero = []
  users_from i (suc n) = concat "USR-" (rng.zfill i) ∷ users_from (suc i) n

  pub orders_of_all : ℤ → ℕ → List String → Progress F → G → Progress F × G
  unfolding orders_of
  orders_of_all target per_user [] p g = (p, g)
  orders_of_all target per_user (user ∷ users) p g =
      let (p1, g1) = orders_of target user per_user p g in orders_of_all target per_user users p1 g1

  -- The argument `num_symbols` is not used.
  pub generate_synthetic_dataset : ℕ → ℕ → ℕ → F → G → Outcome (Progress F) × G
  unfolding users_from orders_of_all
  generate_synthetic_dataset num_users num_symbols per_user percentage g =
      dataset (fl.trunc (fl.mul (fl.of_int (pos (num_users * per_user))) percentage))
    where
      dataset : Outcome ℤ → Outcome (Progress F) × G
      dataset (err e) = (err e, g)
      dataset (ok target) =
          let (p, g') =
            orders_of_all target per_user (users_from 1 num_users)
              (record { all_orders = []; all_trades = []; anomaly_count = 0 }) g in
          (ok p, g')

  -- An anomaly has as many orders as its rounds.
  pub length-disguised_orders :
      (kind : AnomalyKind) (user symbol : String) (base : F) (i n : ℕ) (g : G)
      → length ((disguised_orders kind user symbol base i n g).0) ≡ n
  unfolding disguised_orders
  length-disguised_orders kind user symbol base i zero g = refl
  length-disguised_orders kind user symbol base i (suc n) g = omega (
    arith,
    length-disguised_orders kind user symbol base (suc i) n
        ((disguise kind base i (generate_order user symbol base g)).1),
  )
