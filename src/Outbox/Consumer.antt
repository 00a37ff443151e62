-- ===== src/Outbox/Consumer.antt =====
-- packages/favl-outbox/favl_outbox/consumer.py: parsing an event, in the envelope or in the format
-- that came before it. A field that Python leaves None is `null`.
use favl_agentic_content_os.Prelude.{
  ℕ, ◌≡◌, ◌≢◌, Bool, true, false, not, ◌==◌, String, str_eq, eq_iff, Option, none, some, arith,
  if◌then◌else◌,
}
use favl_agentic_content_os.Json.{
  pos, Value, Fields, null, bool, int, str, obj, end, get, is_truthy, str_or_null, nat,
}
use favl_agentic_content_os.Store.Rows.{OutboxEvent}
use favl_agentic_content_os.Outbox.Envelope.{IsoFormat, replace_z, envelope_from_row}

pub record DomainEvent : Type 0 where
  pub event_id : Value
  pub event_type : Value
  pub aggregate_type : Value
  pub aggregate_id : Value
  pub aggregate_version : Value
  pub occurred_at : Option ℕ
  pub schema_version : ℕ
  pub body : Value

-- The exceptions below EventParseError.
pub data Parsed : Type 0 where
  parsed : DomainEvent → Parsed
  unsupported : Value → Parsed
  malformed : String → Parsed

-- `payload.get(key)`
abbrev pub or_null : Option Value → Value
or_null none = null
or_null (some v) = v

abbrev pub get_or_null : String → Fields → Value
get_or_null key payload = or_null (get key payload)

-- `payload.get("data", {})`
abbrev pub or_empty : Option Value → Value
or_empty none = obj end
or_empty (some v) = v

-- `a or b`
abbrev pub or_else : Value → Value → Value
or_else a b = if is_truthy a then a else b

-- `subject or "unknown"`
abbrev pub subject_or_unknown : Option String → Value
subject_or_unknown none = str "unknown"
subject_or_unknown (some s) = if str_eq s "" then str "unknown" else str s

abbrev pub parse_timestamp : IsoFormat → Value → Option ℕ
parse_timestamp iso (str s) = iso.fromisoformat (replace_z s)
parse_timestamp iso v = none

unfoldable pub parse_legacy_event : IsoFormat → Fields → Option String → DomainEvent
parse_legacy_event iso payload subject = record {
  event_id = null;
  event_type = subject_or_unknown subject;
  aggregate_type = null;
  aggregate_id =
      or_else (or_else (get_or_null "agent_id" payload) (get_or_null "connector_id" payload))
        (get_or_null "id" payload);
  aggregate_version = null;
  occurred_at = parse_timestamp iso (get_or_null "created_at" payload);
  schema_version = 0;
  body = obj payload;
}

abbrev pub v1_event : IsoFormat → Fields → DomainEvent
v1_event iso payload = record {
  event_id = get_or_null "event_id" payload;
  event_type = get_or_null "event_type" payload;
  aggregate_type = get_or_null "aggregate_type" payload;
  aggregate_id = get_or_null "aggregate_id" payload;
  aggregate_version = get_or_null "aggregate_version" payload;
  occurred_at = parse_timestamp iso (get_or_null "occurred_at" payload);
  schema_version = 1;
  body = or_empty (get "data" payload);
}

unfoldable pub parse_v1_event : IsoFormat → Fields → Parsed
parse_v1_event iso payload =
    if not (is_truthy (get_or_null "event_id" payload))
    then malformed "event_id"
    else if not (is_truthy (get_or_null "event_type" payload))
    then malformed "event_type"
    else parsed (v1_event iso payload)

-- `schema_version == 1`: the number, or True.
abbrev pub is_current : Value → Bool
is_current (int (pos n)) = n == 1
is_current (bool b) = b
is_current v = false

abbrev pub dispatch : IsoFormat → Fields → Option String → Value → Parsed
dispatch iso payload subject null = parsed (parse_legacy_event iso payload subject)
dispatch iso payload subject v = if is_current v then parse_v1_event iso payload else unsupported v

unfoldable pub parse_event : IsoFormat → Fields → Option String → Parsed
parse_event iso payload subject =
    dispatch iso payload subject (get_or_null "schema_version" payload)

-- `is_deduplicable`, `is_orderable` and `is_legacy` of DomainEvent.
abbrev pub is_null : Value → Bool
is_null null = true
is_null v = false

unfoldable pub is_deduplicable : DomainEvent → Bool
is_deduplicable e = not (is_null e.event_id)

unfoldable pub is_orderable : DomainEvent → Bool
is_orderable e = not (is_null e.aggregate_version)

unfoldable pub is_legacy : DomainEvent → Bool
is_legacy e = e.schema_version == 0

-- What a consumer should read off a published row.
abbrev pub event_of_row : OutboxEvent → DomainEvent
event_of_row row = record {
  event_id = str row.id;
  event_type = str row.subject;
  aggregate_type = str row.aggregate_type;
  aggregate_id = str_or_null row.aggregate_id;
  aggregate_version = nat row.aggregate_version;
  occurred_at = some row.created_at;
  schema_version = 1;
  body = obj row.payload;
}

-- A row of schema version 1 with an id and a subject is read back by a consumer field by field,
-- whatever the subject that the message arrived under.
pub parse_event-envelope :
    (iso : IsoFormat) (row : OutboxEvent) (subject : Option String)
    → row.schema_version ≡ 1
    → row.id ≢ ""
    → row.subject ≢ ""
    → parse_event iso (envelope_from_row iso row) subject ≡ parsed (event_of_row row)
unfolding parse_event parse_v1_event envelope_from_row get
parse_event-envelope iso row subject v id s =
    ground (arith, eq_iff row.id "", eq_iff row.subject "", iso.reads_back row.created_at)
