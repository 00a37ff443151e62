-- ===== src/Outbox/Envelope.antt =====
-- packages/favl-outbox/favl_outbox/envelope.py. `datetime.isoformat` and `datetime.fromisoformat`
-- are the fields of a parameter, whose law is that the second reads what the first writes.
use favl_agentic_content_os.Prelude.{
  append, ℕ, ◌≡◌, String, str_eq, Option, some, [], ◌∷◌, if◌then◌else◌,
}
use favl_agentic_content_os.Json.{Fields, str, str_or_null, nat, obj, dict}
use favl_agentic_content_os.Store.Rows.{OutboxEvent}

-- `value.replace("Z", "+00:00")`
unfoldable pub replace_z : String → String
replace_z String.[] = ""
replace_z (String.◌∷◌ c s) =
    let rest = replace_z s in
    if str_eq (String.◌∷◌ c "") "Z" then append "+00:00" rest else String.◌∷◌ c rest

pub record IsoFormat : Type 0 where
  pub isoformat : ℕ → String
  pub fromisoformat : String → Option ℕ
  pub reads_back : (t : ℕ) → fromisoformat (replace_z (isoformat t)) ≡ some t

-- `build_envelope`
unfoldable pub build_envelope :
    String → String → String → Option String → ℕ → String → Fields → ℕ → Fields
build_envelope event_id event_type aggregate_type aggregate_id aggregate_version occurred_at payload
      version =
    dict (
      ("event_id", str event_id)
      ∷ ("event_type", str event_type)
      ∷ ("aggregate_type", str aggregate_type)
      ∷ ("aggregate_id", str_or_null aggregate_id)
      ∷ ("aggregate_version", nat aggregate_version)
      ∷ ("occurred_at", str occurred_at)
      ∷ ("schema_version", nat version)
      ∷ ("data", obj payload)
      ∷ [])

unfoldable pub envelope_from_row : IsoFormat → OutboxEvent → Fields
unfolding build_envelope
envelope_from_row iso row =
    build_envelope row.id row.subject row.aggregate_type row.aggregate_id row.aggregate_version
      (iso.isoformat row.created_at) row.payload row.schema_version
