-- ===== src/Registry/Projection.antt =====
-- How the registry's events meet the consumers of consumer.py: a consumer that obeys
-- `version_decision` follows each connector's row.
use favl_agentic_content_os.Prelude.{
  ℕ, ◌≡◌, ap, ◌∙◌, String, Option, none, some, List, [], count_up,
}
use favl_agentic_content_os.Store.Rows.{ConnectorRecord}
use favl_agentic_content_os.Store.Tables.{Db, get_connector, connector_versions}
use favl_agentic_content_os.Outbox.Ordering.{applied}
use favl_agentic_content_os.Outbox.Delivery.{Delivers, applied-Delivers}
use favl_agentic_content_os.Registry.Handlers.{Adapters}
use favl_agentic_content_os.Registry.Tenancy.{Arrival, run}
use favl_agentic_content_os.Registry.Versions.{IsOrdered, expected_versions, run-IsOrdered}

-- After any calls on an ordered database, such as the empty one, each of which runs to its end before
-- the next begins, a consumer that receives the events of a connector in the order of their insertion,
-- each at least once, has applied exactly the versions 1, 2, ..., n for the version n of the
-- connector's row, each once.
pub run-applied :
    (a : Adapters) (db : Db) (calls : List Arrival) (id : String) (r : ConnectorRecord)
    (messages : List (Option ℕ))
    → IsOrdered db
    → get_connector id (run a db calls).connectors ≡ some r
    → Delivers [] (connector_versions id (run a db calls).outbox) messages
    → applied none messages ≡ count_up r.version
run-applied a db calls id r messages o read d =
    let ordered = (run-IsOrdered a db calls o).at id in
    applied-Delivers r.version _ messages (ordered ∙ ap expected_versions read) d
