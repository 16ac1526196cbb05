-- ===== src/Lib.antt =====
-- AeroRisk AI: the Python guardrail pipeline, ai_guardrail/aerorisk.
--
-- An order event is checked for anomalies by agent 1, gathers context through agent 2, and is decided
-- by agent 3, which scores it, asks a language model, writes an incident report and counts triggers
-- of a circuit breaker. A router and a pipeline connect the three. A consumer feeds events from Kafka,
-- an application serves the pipeline and its readiness, and a storage client keeps incidents and audit
-- events in Postgres. Agent 2 reads rules, news and profiles that loaders put into a vector store.
--
-- Files, and the code that each is about (paths below ai_guardrail/aerorisk):
--   Models/Event, Anomaly, Decision, Context, Incident: models/event.py, anomaly_result.py,
--     risk_decision.py, context_bundle.py, incident_report.py
--   Anomaly/Velocity, Vwap, WashTrade, Spoofing, Embedding, Agent: agents/agent1_anomaly/
--     velocity_check.py, vwap_monitor.py, wash_trade.py, spoofing_hmm.py, embedding.py, agent.py
--   Scoring, Breaker, Llm, Orchestrator: agents/agent3_orchestrator/risk_scorer.py, redis_writer.py,
--     llm_client.py, agent.py; the orchestrator uses the scorer and the breaker
--   Retrieval, Screening, Profiles, Rules, News, Search: agents/agent2_rag/agent.py, sanctions.py,
--     user_profile.py, compliance_loader.py, news_ingester.py, vector_search.py
--   Graph/Router, Graph/Pipeline, Graph/State: graph/router.py, graph/pipeline.py, graph/state.py
--   Storage, Storage/Rows, Storage/Vectors: storage/qdrant_client.py; Storage/Requests is about any
--     sequence of calls of the Postgres client
--   Consumer, Consumer/Parser: consumer/kafka_consumer.py, consumer/event_parser.py
--   Observability, Observability/Registry, Observability/Tracer: observability/metrics.py, tracing.py
--   Settings, Service: config/settings.py, main.py, which uses Observability
--   Seeds/Qdrant, Seeds/Synthetic: data/scripts/seed_qdrant.py, generate_synthetic.py (from the
--     repository's root)
--   Base: what the modules share; Examples: the theorems at concrete inputs, and tests
--
-- A class is a record of its fields, with the names of the code, and a method is a function of the
-- same name without the leading underscore; the parts of a long method are named for what they do. A
-- method that writes to its object takes it and returns it beside the result. `check` of a detector
-- is Velocity.check, Vwap.check, and so on.
--
-- How Python is read:
--   - An exception is `err` of Base/Outcome. What was written before it stays written, so the state
--     comes beside the outcome (Base/Exec), and `try` is `attempt` or `or_else` there.
--   - A float is an element of a type with the operations of Base/Float, and the facts on IEEE 754
--     that a proof uses are FloatLaws there, NaN, infinities and rounding included; `x ≼ x` says that
--     x is not NaN. They are stated for the literals and the integers for which doubles have them.
--     The division of two ints, and an int made a float, raise OverflowError where the result is
--     beyond the range: `finite` of Base/Float. Examples/Fixed has numbers of fixed precision that
--     meet the laws. `sum` adds floats from left
--     to right, as the Python 3.11 of the Dockerfile does.
--   - An int is the ℤ of Base/Int. A datetime is a count of microseconds since datetime.min. The
--     sizes in a configuration are natural numbers, and those that a float is made of are below
--     2 ^ 53; the count of a list or of triggers is a natural number.
--   - A dictionary is an association list in insertion order (Base/Dict), a pydantic model dump a
--     Value (Base/Value).
--   - The SQL of the Postgres client is read as statements on two tables and on the transaction of its
--     connection (Storage), as Postgres and psycopg2 document them: a conflict updates or does
--     nothing, a refused statement aborts the transaction, CURRENT_TIMESTAMP is its start.
--   - What the consumer's loop waits for is a sequence of rounds, each with what the client answers
--     and whether another task stops the consumer meanwhile; the loop is then a recursion on the
--     rounds that have come.
--   - A text that is parsed is the list of its code points (Base/Lines).
--   - Redis, Kafka, the database, the language model and LangGraph are not in the repository. The
--     first four are records of operations that act on a state and may raise; what Redis documents
--     of its commands is RedisLaws of Breaker/Trigger. LangGraph runs the nodes of the graph along
--     its edges, which Pipeline.invoke writes out. `asyncio.gather` returns one result for each task
--     in their order (Gathered of Base/Outcome: a cancelled task is no Exception), which the loops
--     over it (Graph.Pipeline.collect, Orchestrator.collect, Screening.bulk_results) take as their
--     argument. The searches of Search.Batch only read, and are run one after another.
--   - Some modules import classes that the repository lacks (TransactionEvent, AgentState,
--     DecisionAction, RiskLevel, the agents of the pipeline), or read fields that its models do not
--     have. What they read and call is a record of accessors and operations there, and a constructor
--     may refuse what it is given: the classes RiskDecision, IncidentReport, SanctionsMatch and
--     UserProfile of models do refuse what the agents and the pipeline give them.
--
-- Loops are recursions on lists; no function takes fuel, and every definition is total.
--
-- Not modelled: the tasks of a batch as they run at once on a shared cache or client; the prompts (agents/agent3_orchestrator/prompts.py), which are texts; the creation of
-- the tables and indexes in storage/qdrant_client.py and data/scripts/seed_postgres.py, which is SQL
-- without a result; the spans of the tracer, and the cancellation of the consumer's task; the endpoint
-- of main.py that returns what a library renders, and the start of the server; and engine, which is written in Go and meets this code
-- only through Kafka and Redis.
pub mod Base
pub mod Models
pub mod Anomaly
pub mod Examples
pub mod Scoring
pub mod Screening
pub mod Retrieval
pub mod Rules
pub mod News
pub mod Search
pub mod Storage
pub mod Consumer
pub mod Profiles
pub mod Breaker
pub mod Llm
pub mod Observability
pub mod Orchestrator
pub mod Graph
pub mod Seeds
pub mod Settings
pub mod Service
