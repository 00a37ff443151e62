-- ===== src/Health.antt =====
-- `_readiness`, `ready`, `public_ready` and `live` of services/{connector-registry,orchestrator}/app/main.py.
use favl_agentic_content_os.Prelude.{
  ℕ, String, str_eq, eq_iff, ◌≡◌, ◌↔◌, refl, Bool, true, false, ◌&&◌, &&-true, Option, none, some,
  List, arith, if◌then◌else◌,
}
use favl_agentic_content_os.Outbox.Stats.{OutboxStats}
use favl_agentic_content_os.Outbox.Connection.{ServiceState, ready, running}

-- A query's answer, or an SQLAlchemyError.
pub data Queried {ℓ} (A : Type ℓ) : Type ℓ where
  fetched : A → Queried A
  database_error : Queried A

-- What a probe finds: the version of the schema, of which there may be none, the statistics, and whether
-- the client of the broker is connected.
pub record Probe : Type 0 where
  pub expected_migration : String
  pub head : Queried (Option String)
  pub counts : Queried OutboxStats
  pub alive : Bool

pub record Readiness : Type 0 where
  pub status : String
  pub database_connected : Bool
  pub nats_connected : Bool
  pub migrations_current : Bool
  pub required_stream_available : Bool
  pub adapters : Option (List String)
  pub outbox : Option (OutboxStats × Bool)
  pub nats_last_error : Option String
  pub outbox_last_error : Option String

abbrev database_ok : Queried (Option String) → Bool
database_ok (fetched v) = true
database_ok database_error = false

abbrev is_expected : String → Queried (Option String) → Bool
is_expected expected (fetched (some v)) = str_eq v expected
is_expected expected (fetched none) = false
is_expected expected database_error = false

abbrev outbox_entry : Bool → ServiceState → Queried OutboxStats → Option (OutboxStats × Bool)
outbox_entry false s counts = none
outbox_entry true s database_error = none
outbox_entry true s (fetched counts) = some (counts, running s.publisher)

-- An error of no text is left out.
abbrev truthy : Option String → Option String
truthy none = none
truthy (some t) = if str_eq t "" then none else some t

unfoldable pub is_healthy : Probe → ServiceState → Bool
is_healthy p s =
    database_ok p.head && (ready p.alive s.connection && is_expected p.expected_migration p.head)

-- The orchestrator's body has no adapters.
unfoldable pub readiness : Option (List String) → Probe → ServiceState → Readiness
readiness kinds p s = record {
  status = if is_healthy p s then "ready" else "not_ready";
  database_connected = database_ok p.head;
  nats_connected = ready p.alive s.connection;
  migrations_current = is_expected p.expected_migration p.head;
  required_stream_available = ready p.alive s.connection;
  adapters = kinds;
  outbox = outbox_entry (database_ok p.head) s p.counts;
  nats_last_error = truthy s.connection.last_error;
  outbox_last_error = truthy s.publisher.last_error;
}

abbrev code_of : String → ℕ
code_of status = if str_eq status "ready" then 200 else 503

unfoldable pub show_ready : Option (List String) → Probe → ServiceState → Readiness × ℕ
show_ready kinds p s = let detail = readiness kinds p s in (detail, code_of detail.status)

pub record PublicReadiness : Type 0 where
  pub status : String
  pub database_connected : Bool
  pub nats_connected : Bool
  pub migrations_current : Bool

unfoldable pub public_ready : Option (List String) → Probe → ServiceState → PublicReadiness × ℕ
public_ready kinds p s =
    let detail = readiness kinds p s in
    (
      record {
        status = detail.status;
        database_connected = detail.database_connected;
        nats_connected = detail.nats_connected;
        migrations_current = detail.migrations_current;
      },
      code_of detail.status,
    )

healthy_iff :
    (p : Probe) (s : ServiceState)
    → (is_healthy p s ≡ true)
      ↔ ((p.head ≡ fetched (some p.expected_migration)) × (ready p.alive s.connection ≡ true))
unfolding is_healthy
healthy_iff p s = (
  λ h. found p.head refl h,
  λ h. rw (h.0, h.1) ((eq_iff p.expected_migration p.expected_migration).1 refl),
)
  where
    found :
        (q : Queried (Option String))
        → p.head ≡ q
        → (database_ok q && (ready p.alive s.connection && is_expected p.expected_migration q))
          ≡ true
        → (p.head ≡ fetched (some p.expected_migration)) × (ready p.alive s.connection ≡ true)
    found (fetched (some v)) e h =
        let (live, same) = &&-true (ready p.alive s.connection) (str_eq v p.expected_migration) h in
        (cc (e, (eq_iff v p.expected_migration).0 same), live)
    found (fetched none) e h = cc ((&&-true (ready p.alive s.connection) false h).1)
    found database_error e h = cc h

code_iff : (b : Bool) → (code_of (if b then "ready" else "not_ready") ≡ 200) ↔ (b ≡ true)
code_iff true = (λ h. refl, λ h. refl)
code_iff false = (λ h. absurd (omega (arith, h)), λ h. cc h)

-- A service is ready exactly when the database answers with the expected version of the schema, and the
-- broker is connected with its stream set up; the public answer has the same status code.
pub ready_iff :
    (kinds : Option (List String)) (p : Probe) (s : ServiceState)
    → (((show_ready kinds p s).1 ≡ 200)
        ↔ ((p.head ≡ fetched (some p.expected_migration)) × (ready p.alive s.connection ≡ true)))
      × ((public_ready kinds p s).1 ≡ (show_ready kinds p s).1)
unfolding show_ready public_ready readiness is_healthy
ready_iff kinds p s =
    let (code_ready, ready_code) = code_iff (is_healthy p s) in
    let (to, from) = healthy_iff p s in ((λ h. to (code_ready h), λ h. ready_code (from h)), refl)
