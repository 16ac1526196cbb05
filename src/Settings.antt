-- ===== src/Settings.antt =====
-- ai_guardrail/aerorisk/config/settings.py: the settings and their defaults. What the environment
-- overrides is left out: pydantic's BaseModel, unlike BaseSettings, reads none of it.
use aero_risk_ai.Base.{ℕ, String, Bool, true, false, Option, none}
use aero_risk_ai.Base.Float.{Float}

pub record KafkaSettings : Type 0 where
  pub bootstrap_servers : String
  pub consumer_group : String
  pub order_topic : String
  pub decision_topic : String
  pub auto_offset_reset : String
  pub enable_auto_commit : Bool
  pub max_poll_records : ℕ
  pub session_timeout_ms : ℕ

pub record RedisSettings (F : Type 0) : Type 0 where
  pub host : String
  pub port : ℕ
  pub db : ℕ
  pub password : Option String
  pub socket_timeout : F
  pub circuit_breaker_key_prefix : String
  pub account_state_key_prefix : String

pub record QdrantSettings : Type 0 where
  pub host : String
  pub port : ℕ
  pub https : Bool
  pub compliance_collection : String
  pub news_collection : String
  pub profiles_collection : String
  pub embedding_dim : ℕ

pub record PostgresSettings : Type 0 where
  pub host : String
  pub port : ℕ
  pub database : String
  pub user : String
  pub password : String
  pub pool_size : ℕ
  pub incident_table : String

pub record LlmSettings (F : Type 0) : Type 0 where
  pub provider : String
  pub model_name : String
  pub base_url : String
  pub api_key : Option String
  pub max_tokens : ℕ
  pub temperature : F
  pub timeout_seconds : F

pub record AgentSettings (F : Type 0) : Type 0 where
  pub velocity_window_seconds : ℕ
  pub max_orders_per_second : ℕ
  pub vwap_lookback_periods : ℕ
  pub vwap_deviation_threshold : F
  pub wash_trade_window_seconds : ℕ
  pub min_wash_trade_round_trips : ℕ
  pub spoofing_cancellation_threshold : F
  pub block_risk_threshold : F
  pub flag_risk_threshold : F
  pub require_human_review_threshold : F

pub record Settings (F : Type 0) : Type 0 where
  pub environment : String
  pub log_level : String
  pub service_name : String
  pub service_version : String
  pub instance_id : String
  pub kafka : KafkaSettings
  pub redis : RedisSettings F
  pub qdrant : QdrantSettings
  pub postgres : PostgresSettings
  pub llm : LlmSettings F
  pub agent : AgentSettings F
  pub otel_exporter_endpoint : String
  pub otel_insecure : Bool
  pub otel_max_queue_size : ℕ
  pub otel_schedule_delay_millis : ℕ
  pub otel_max_batch_size : ℕ
  pub metrics_enabled : Bool
  pub tracing_enabled : Bool

abbrev pub kafka_settings : KafkaSettings
kafka_settings = record {
  bootstrap_servers = "localhost:9092";
  consumer_group = "aerorisk-ai-guardrail";
  order_topic = "orders.raw";
  decision_topic = "risk.decisions";
  auto_offset_reset = "earliest";
  enable_auto_commit = false;
  max_poll_records = 100;
  session_timeout_ms = 30000;
}

abbrev pub redis_settings : {F : Type 0} ⦃fl : Float F⦄ → RedisSettings F
redis_settings ⦃fl⦄ = record {
  host = "localhost";
  port = 6379;
  db = 0;
  password = none;
  socket_timeout = fl.lit 5 1;
  circuit_breaker_key_prefix = "circuit_breaker:";
  account_state_key_prefix = "account_state:";
}

abbrev pub qdrant_settings : QdrantSettings
qdrant_settings = record {
  host = "localhost";
  port = 6333;
  https = false;
  compliance_collection = "compliance_rules";
  news_collection = "market_news";
  profiles_collection = "user_profiles";
  embedding_dim = 128;
}

abbrev pub postgres_settings : PostgresSettings
postgres_settings = record {
  host = "localhost";
  port = 5432;
  database = "aerorisk";
  user = "aerorisk";
  password = "aerorisk_password";
  pool_size = 10;
  incident_table = "incident_reports";
}

abbrev pub llm_settings : {F : Type 0} ⦃fl : Float F⦄ → LlmSettings F
llm_settings ⦃fl⦄ = record {
  provider = "ollama";
  model_name = "llama3.1:8b";
  base_url = "http://localhost:11434";
  api_key = none;
  max_tokens = 1024;
  temperature = fl.lit 0 1;
  timeout_seconds = fl.lit 30 1;
}

abbrev pub agent_settings : {F : Type 0} ⦃fl : Float F⦄ → AgentSettings F
agent_settings ⦃fl⦄ = record {
  velocity_window_seconds = 60;
  max_orders_per_second = 100;
  vwap_lookback_periods = 300;
  vwap_deviation_threshold = fl.lit 1 20;
  wash_trade_window_seconds = 300;
  min_wash_trade_round_trips = 3;
  spoofing_cancellation_threshold = fl.lit 4 5;
  block_risk_threshold = fl.lit 4 5;
  flag_risk_threshold = fl.lit 1 2;
  require_human_review_threshold = fl.lit 7 10;
}

abbrev pub load_settings : {F : Type 0} ⦃fl : Float F⦄ → Settings F
load_settings ⦃fl⦄ = record {
  environment = "development";
  log_level = "INFO";
  service_name = "aerorisk-ai-guardrail";
  service_version = "1.0.0";
  instance_id = "default";
  kafka = kafka_settings;
  redis = redis_settings;
  qdrant = qdrant_settings;
  postgres = postgres_settings;
  llm = llm_settings;
  agent = agent_settings;
  otel_exporter_endpoint = "http://localhost:4317";
  otel_insecure = true;
  otel_max_queue_size = 2048;
  otel_schedule_delay_millis = 5000;
  otel_max_batch_size = 512;
  metrics_enabled = true;
  tracing_enabled = true;
}
