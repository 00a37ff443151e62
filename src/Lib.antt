-- ===== src/Lib.antt =====
-- Verification of the services of the FAVL Agentic Content OS gateway: the connector registry with
-- its outbound adapters, the transactional outbox, and the orchestrator of agents.
--
-- The registry (services/connector-registry/app) keeps a tenant's connectors, each a row with a
-- lifecycle state and a version. A call changes a connector by one transition of a fixed table;
-- the row, an audit record and an event are committed together. An invocation runs a connector
-- through an adapter, which guards what it sends by the policy and the addresses that are allowed.
-- The events are rows of an outbox (packages/favl-outbox/favl_outbox), which a publisher drains to
-- a broker with retries, and which consumers read at least once, keeping to the order of the
-- versions. The orchestrator (services/orchestrator/app) keeps a tenant's agents; an agent's
-- invocation calls each of its connectors through the registry's internal endpoint.
--
--   Json          values of a stored configuration or an event: null, bool, int, real, str, arr, obj
--   Lifecycle     services/connector-registry/app/lifecycle.py: states, the table, find,
--                 permitted_targets, idempotent_repeat
--   Store         services/connector-registry/app/models.py and
--                 packages/favl-outbox/favl_outbox/{models,repository}.py: rows and tables
--   Transitions   services/connector-registry/app/transitions.py: apply, audit_trail
--   Security      services/connector-registry/app/security: Redaction (redaction.py), Address and Ssrf
--                 (ssrf.py), Outbound (outbound.py), Secrets (secrets.py),
--                 Policy (policy.py; Parsing reads its numbers from a configuration)
--   Identity      services/{connector-registry,orchestrator}/app/identity.py: the caller, by its claims
--   Registry      services/connector-registry/app/main.py and schemas.py: the connector endpoints
--                 (Handlers, Endpoints, Trail); Endpoints.step is one call of a client; Races cuts one
--   Invocations   services/connector-registry/app/invocations.py, the results of adapters/base.py, and
--                 the invocation endpoints of main.py; Interleaving cuts accept and execute where
--                 they await; Internal is the check of an internal caller's token
--   Adapters      services/connector-registry/app/adapters: Base (base.py), Internal (internal.py),
--                 Http (http.py), Webhook (webhook.py), Dispatch (registry.py: the adapters
--                 by their kinds)
--   Outbox        packages/favl-outbox/favl_outbox: Envelope (envelope.py), Consumer and Ordering
--                 (consumer.py), Timing (timing.py), Publisher and Stats (publisher.py),
--                 Connection (jetstream.py, lifespan), Broker (the rows and what the broker
--                 has taken of them, with crashes)
--   Health        the probes of services/{connector-registry,orchestrator}/app/main.py
--   Orchestrator  services/orchestrator/app/main.py, models.py and schemas.py: Agents (rows), FanOut (the
--                 calls of the registry), Endpoints (agent_step is one call of a client), Races
--                 (a deletion cut at its awaits), Mesh (the fan-out over the registry's own endpoint),
--                 Admission (the token that lets it in)
--
-- The registry's database is a record of its four tables, the orchestrator's of its two; an
-- operation takes it and returns it with its response. A handler that raises before its commit
-- returns the database it was given. What the uuid and datetime libraries return is an argument
-- (Clock). A call on a connector runs as one step. The row lock that apply and the deletion take
-- makes the calls on a connector serial in the source, but for validate_connector and
-- rotate_connector_credentials, which read the row first without it: results on runs are on calls
-- of which each ends before the next begins, and Registry/Races cuts the validation after its
-- first read. Invocations take no lock, so their steps interleave. An agent's invocation reads its
-- row, lets go of the database during the fan-out, and reads again, so other calls may come
-- between; a deletion of an agent, which reads its row without a lock, is one step in agent_step
-- and is cut in Races. An identifier or a date is a text or a number; a timestamp is a number of
-- microseconds.
--
-- Durations in Timing are milliseconds and ratios thousandths, so a horizon is a number of
-- microseconds: the floats of the source without their rounding. The jitter that random.Random
-- draws is an argument, bounded where a theorem needs it.
--
-- The endpoints of the registry take an adapter's validation of a configuration and its answer to
-- a request as parameters; Adapters models the three adapters. What these call is a record World
-- of parameters: the resolver of names, whose answer may change from hop to hop, the HTTP client,
-- the environment, the JSON codec and the HMAC. The parser of URLs, the decoder of claims, the
-- formatting of dates and the broker, of which it is assumed that it acknowledges only what it
-- took, are parameters too. The loops of the source run over lists, so recursion is structural,
-- but for the loop of outbound.request: it runs on a fuel of one turn more than the policy's
-- redirects, and a request whose fuel is spent is an outcome of its own, which never occurs.
--
-- Not modelled: the window in which the broker removes repeats of an id, but for its check at the
-- start, and the age at which it forgets messages; timeouts of the phases of a request that are
-- not passed to the client; the reading of environment variables; the set-up of the stream and the
-- NATS client; the metrics and their endpoint; the wiring of SQLAlchemy, FastAPI and Prometheus,
-- logging, migrations, the test provider, the consoles, and the repository's own scripts.
mod Prelude
pub mod Json
pub mod Lifecycle
pub mod Store
pub mod Transitions
pub mod Security
pub mod Identity
pub mod Registry
pub mod Invocations
pub mod Adapters
pub mod Outbox
pub mod Health
pub mod Orchestrator
