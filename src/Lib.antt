-- ===== src/Lib.antt =====
-- Models of the agent bakery: a platform of LLM agents. The parts that are modelled are the LLM
-- client that every agent calls (packages/agentkit/src/agentkit/llm.py), the guard of outgoing
-- connections (egress.py beside it), the metrics, the rate limit and the authentication that every
-- agent's HTTP service has (metrics.py, server.py, config.py and auth.py), the audit log
-- (audit.py), the monitoring agent (agents/monitoring/src/monitoring_agent/), which probes the
-- other agents, turns what it sees into signals, classifies each with the LLM, deduplicates it
-- against the incident table, and pages, and what the dashboard (apps/dashboard/) makes of the
-- agents' answers, keeps in its own tables, shows of them, and lets its users change.
--
-- The files:
--   Prelude      shared names, lists measured by native numbers, ℤ, dictionaries, state and errors
--                (Exec), text as strings and as lists of code points
--   Llm          agentkit/llm.py. Breaker is `_CircuitBreaker` and `_is_breaker_failure`; Cost the price
--                table, `Usage.add` and the estimates; Client `_call_gateway`, `complete` and
--                `complete_with_tools`; JsonText `_json_substring`; CompleteJson `complete_json`
--   Service      agentkit/metrics.py, server.py and config.py. Metrics is `RollingCounter`, the counters
--                of `MetricsRegistry` and the middleware that drives them; RateLimit and RedisBucket
--                `_TokenBucketLimiter`; Limits `_client_ip` and the middlewares that limit requests;
--                Boot `BaseAgentSettings`, the checks of `create_app`, the guard of /metrics.json and
--                /readyz
--   Auth         agentkit/auth.py. Tokens is `mint_token`, `rotate_tokens`, `refresh_access` and
--                `verify_token`; Webhook `verify_webhook_signature`
--   Audit        agentkit/audit.py: `append`, `query` and `distinct_actions`
--   Egress       agentkit/egress.py: the allow-list of private mode, `GuardedTransport` and
--                `guarded_connect`
--   Dashboard    apps/dashboard/src/dashboard/aggregator.py: Upstream is `_get`, `_post` and
--                `webext_run`, Tiles `HealthDTO` and `health`, Costs `cost_rollup`. Store is store.py
--                beside it, the tables and queries of heartbeats and costs; Views the cost chart and the
--                activity page of views.py; Tokens pat.py, the access tokens of store.py and
--                pat_routes.py; Incidents the operators' decisions, from api.py to the table; Csrf the
--                guard of api.py; Session auth.py beside it; Snapshot the two
--                loops of api.py that write the agents' reports into Store and prune it
--   Monitoring   monitoring_agent/. Signal, Probe and Agents are the rules of collectors.py; ProbeState
--                and Incidents the two tables of store.py; Triage the graph of graph.py; Sweep the
--                loops of scheduler.py
--
-- How they interact: Sweep reads what the collectors returned, keeps streaks and previous values
-- in ProbeState, and gives each signal to Triage, which asks the LLM (a parameter), writes
-- Incidents, and publishes (a parameter). CompleteJson calls Client, which calls Breaker and Cost.
-- The middleware calls Metrics. Auth keeps its refresh tokens in a store that `rotate_tokens` and
-- `refresh_access` share. The guard of /metrics.json calls `verify_token` of Auth; the limits call
-- RateLimit with the address that `_client_ip` finds. The routes of Tokens write the table of
-- tokens and Audit, which the activity page reads page by page. The dashboard calls the agents
-- with the token that Session keeps, which that guard verifies; the cost chart is built of the
-- rows of Store's queries.
--
-- Units and bounds. A price is in cents per million tokens, and a cost in 10⁻⁸ USD, so that the
-- cost of a call is a whole number; the source computes it in floating point. Times are whole
-- microseconds, or whole seconds where the source compares ages; a latency and its threshold are
-- in tenths of a millisecond. A bucket of the rate limit is counted in parts of a token, of which
-- the rate refills a whole number in a microsecond. The dashboard's amounts are in millionths of a
-- dollar, to which it rounds, and its days are counted from 1970. The loops are structural
-- recursion: on the attempts that are left in `publish_loop`, in the attempts of `complete_json`
-- and in those of `mint_token`, as many as the source makes, and on lists elsewhere.
--
-- Parameters. The gateway, with the time that each answer takes; the clock; the JSON parser and
-- the schema validation of an answer; SHA-256; the HMAC; the JWT library; the random source of the
-- refresh tokens, of the access tokens and of the CSRF nonces; what Redis answers to the
-- middlewares; `urlparse`, `urlsplit`, `ip_address` and `int`; the collation of the database and
-- `str.lower`; the delivery of the n-th publish attempt; the lower case and the ISO format of the
-- batch reports. What is assumed of the JWT library is the record `IsJwt`, or `Decodes` for the
-- claims at hand, and of the HMAC `IsHexdigest` and `IsSignature`; nothing is assumed of the
-- others, save what a theorem says of the one answer or clock that it is about.
--
-- Not modelled: logging, HTTP, failures of the database, SQL text and connection pools, the scheduling of sweeps, the
-- providers of custom metrics, the webhooks of the monitoring agent and their parsing, the table
-- of batch runs, the cache in Redis, the other pages and routes of the dashboard, and the command
-- line.
pub mod Prelude
pub mod Llm
pub mod Monitoring
pub mod Service
pub mod Auth
pub mod Audit
pub mod Egress
pub mod Dashboard
