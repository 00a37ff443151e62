-- ===== src/Registry/Versions.antt =====
-- The events of a connector carry the versions 1, 2, 3, ... of its row, whatever calls are made.
use favl_agentic_content_os.Prelude.{
  ℕ, String, eq_iff, ◌≡◌, ◌≢◌, ◌⊎◌, inl, inr, refl, sym, ap, ◌∙◌, Option, none, some, List, [], ◌∷◌,
  ◌++◌, arith, dec_string, count_up, count_up-suc,
}
use mathlib.Core.List.{append-nil}
use favl_agentic_content_os.Store.Rows.{ConnectorRecord, OutboxEvent}
use favl_agentic_content_os.Store.Tables.{Db, get_connector, connector_versions}
use favl_agentic_content_os.Store.Laws.{connector_versions-append}
use favl_agentic_content_os.Registry.Handlers.{Adapters}
use favl_agentic_content_os.Registry.Endpoints.{step}
use favl_agentic_content_os.Registry.Changes.{
  Writes, Announces, Change, unchanged, saved, advanced, inserted,
}
use favl_agentic_content_os.Registry.Steps.{step-Changes}
use favl_agentic_content_os.Registry.Tenancy.{Arrival, run}

abbrev pub expected_versions : Option ConnectorRecord → List ℕ
expected_versions none = []
expected_versions (some r) = count_up r.version

-- For every id, the versions of its events are those that its row has been through.
pub record IsOrdered (db : Db) : Type 0 where
  pub at :
      (id : String)
      → connector_versions id db.outbox ≡ expected_versions (get_connector id db.connectors)

pub announced_self :
    (id : String) (rows : List OutboxEvent) (e : OutboxEvent)
    → e.aggregate_type ≡ "connector"
    → e.aggregate_id ≡ some id
    → connector_versions id (rows ++ e ∷ [])
      ≡ connector_versions id rows ++ e.aggregate_version ∷ []
unfolding connector_versions
announced_self id rows e t a =
    connector_versions-append id rows (e ∷ [])
    ∙ ground (arith, eq_iff e.aggregate_type "connector", eq_iff id id)

announced_other :
    (id j : String) (rows : List OutboxEvent) (e : OutboxEvent)
    → e.aggregate_id ≡ some id
    → j ≢ id
    → connector_versions j (rows ++ e ∷ []) ≡ connector_versions j rows
unfolding connector_versions
announced_other id j rows e a ne =
    connector_versions-append j rows (e ∷ []) ∙ (nothing ∙ append-nil (connector_versions j rows))
  where
    nothing :
        connector_versions j rows ++ connector_versions j (e ∷ []) ≡ connector_versions j rows ++ []
    nothing = ap (λ l. connector_versions j rows ++ l) (ground (arith, a, eq_iff id j))

append_eq :
    (id : String) (db db' : Db) (after : ConnectorRecord) (before : Option ConnectorRecord)
    → get_connector id db.connectors ≡ before
    → expected_versions (some after) ≡ expected_versions before ++ after.version ∷ []
    → IsOrdered db
    → Writes db db' id after
    → Announces db db' id after
    → IsOrdered db'
append_eq id db db' after before read grows o w n = record { at = λ j. at_key j (dec_string j id) }
  where
    at_key :
        (j : String)
        → (j ≡ id) ⊎ (j ≢ id)
        → connector_versions j db'.outbox ≡ expected_versions (get_connector j db'.connectors)
    at_key j (inl e) =
        rw
          (
            e,
            n.outbox,
            announced_self id db.outbox n.event n.kind n.aggregate,
            o.at id,
            read,
            w.written,
            n.version,
          )
          (sym grows)
    at_key j (inr ne) =
        rw (n.outbox, announced_other id j db.outbox n.event n.aggregate ne, w.others j ne) (o.at j)

count_up-one : count_up 1 ≡ 1 ∷ []
unfolding count_up
count_up-one = refl

Change-IsOrdered :
    (tenant : String) (db db' : Db) → Change tenant db db' → IsOrdered db → IsOrdered db'
Change-IsOrdered tenant db db' (unchanged e) o = rw e o
Change-IsOrdered tenant db db' (saved id before after read _ _ _ v w out) o = record {
  at = λ j. at_key j (dec_string j id);
}
  where
    at_key :
        (j : String)
        → (j ≡ id) ⊎ (j ≢ id)
        → connector_versions j db'.outbox ≡ expected_versions (get_connector j db'.connectors)
    at_key j (inl e) = rw (e, out, w.written, o.at id, read) (ap count_up (sym v))
    at_key j (inr ne) = rw (out, w.others j ne) (o.at j)
Change-IsOrdered tenant db db' (advanced id before after read _ _ _ v w n) o =
    append_eq id db db' after (some before) read (rw v (count_up-suc before.version)) o w n
Change-IsOrdered tenant db db' (inserted id after absent _ _ v w n) o =
    append_eq id db db' after none absent (rw v count_up-one) o w n

-- From a database in order, such as the empty one, any calls by any callers, each of which runs to its
-- end before the next begins, leave it in order: the versions on a connector's events are 1, 2, ..., n
-- for its row's version n, each once.
pub run-IsOrdered :
    (a : Adapters) (db : Db) (xs : List Arrival) → IsOrdered db → IsOrdered (run a db xs)
unfolding run
run-IsOrdered a db [] o = o
run-IsOrdered a db (x ∷ xs) o =
    let c = step-Changes a db x.caller x.clock x.call in
    run-IsOrdered a (step a db x.caller x.clock x.call).0 xs (
      Change-IsOrdered x.caller.tenant_id c.middle _ c.second
        (Change-IsOrdered x.caller.tenant_id db c.middle c.first o))
