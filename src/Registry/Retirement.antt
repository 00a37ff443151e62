-- ===== src/Registry/Retirement.antt =====
-- Revocation is final for every endpoint of main.py, and creation obeys the schema.
use favl_agentic_content_os.Prelude.{
  ℕ, ◌≤◌, String, ◌≡◌, ◌≢◌, ◌⊎◌, inl, inr, refl, ◌∙◌, true, false, some, List, [], ◌∷◌, arith,
  dec_string,
}
use mathlib.Core.Path.{subst}
use favl_agentic_content_os.Lifecycle.Safety.{find_states-Matches}
use favl_agentic_content_os.Lifecycle.State.{ConnectorState, is_executable, value}
use favl_agentic_content_os.Lifecycle.Runs.{is_retired, find_states-retired, retired_not_executable}
use favl_agentic_content_os.Store.Rows.{ConnectorRecord}
use favl_agentic_content_os.Store.Tables.{Db, get_connector}
use favl_agentic_content_os.Registry.Handlers.{Adapters}
use favl_agentic_content_os.Registry.Endpoints.{step}
use favl_agentic_content_os.Registry.Changes.{Moves, Change, unchanged, saved, advanced, inserted}
use favl_agentic_content_os.Registry.Steps.{step-Changes}
use favl_agentic_content_os.Registry.Tenancy.{Arrival, run, same_row}

-- The row is there, and it is in a retired state of at least the given version.
pub record IsRetiredAt (db : Db) (id : String) (v : ℕ) : Type 0 where
  pub row : ConnectorRecord
  pub found : get_connector id db.connectors ≡ some row
  pub retired : is_retired row.status ≡ true
  pub version : v ≤ row.version

Moves-retired : (s t : ConnectorState) → Moves s t → is_retired s ≡ true → is_retired t ≡ true
Moves-retired s t (inl (event, r, e)) h =
    subst (λ c. is_retired c ≡ true) ((find_states-Matches s t event r e).2)
      (find_states-retired s t event r e h)
Moves-retired s t (inr (e, ne)) h = rw e refl

Change-IsRetiredAt :
    (tenant : String) (db db' : Db) (id : String) (v : ℕ)
    → Change tenant db db'
    → IsRetiredAt db id v
    → IsRetiredAt db' id v
Change-IsRetiredAt tenant db db' id v (unchanged e) h = rw e h
Change-IsRetiredAt tenant db db' id v (saved j before after read _ _ st ver w _) h =
    at_key (dec_string id j)
  where
    at_key : (id ≡ j) ⊎ (id ≢ j) → IsRetiredAt db' id v
    at_key (inl e) =
        let same : h.row ≡ before = same_row db.connectors id j h.row before h.found read e in
        record {
          row = after;
          found = rw e w.written;
          retired = rw (st, ← same) h.retired;
          version = rw (ver, ← same) h.version;
        }
    at_key (inr ne) = record {
      row = h.row;
      found = w.others id ne ∙ h.found;
      retired = h.retired;
      version = h.version;
    }
Change-IsRetiredAt tenant db db' id v (advanced j before after read _ _ moves ver w _) h =
    at_key (dec_string id j)
  where
    at_key : (id ≡ j) ⊎ (id ≢ j) → IsRetiredAt db' id v
    at_key (inl e) =
        let same : h.row ≡ before = same_row db.connectors id j h.row before h.found read e in
        let old : is_retired before.status ≡ true = rw (← same) h.retired in
        let bound : v ≤ before.version = rw (← same) h.version in
        record {
          row = after;
          found = rw e w.written;
          retired = Moves-retired before.status after.status moves old;
          version = omega (arith, ver);
        }
    at_key (inr ne) = record {
      row = h.row;
      found = w.others id ne ∙ h.found;
      retired = h.retired;
      version = h.version;
    }
Change-IsRetiredAt tenant db db' id v (inserted j after absent _ _ _ w _) h = record {
  row = h.row;
  found = w.others id (λ e. cc (h.found, absent, e)) ∙ h.found;
  retired = h.retired;
  version = h.version;
}

run-IsRetiredAt :
    (a : Adapters) (db : Db) (xs : List Arrival) (id : String) (v : ℕ)
    → IsRetiredAt db id v
    → IsRetiredAt (run a db xs) id v
unfolding run
run-IsRetiredAt a db [] id v h = h
run-IsRetiredAt a db (x ∷ xs) id v h =
    let c = step-Changes a db x.caller x.clock x.call in
    run-IsRetiredAt a (step a db x.caller x.clock x.call).0 xs id v (
      Change-IsRetiredAt x.caller.tenant_id c.middle _ id v c.second
        (Change-IsRetiredAt x.caller.tenant_id db c.middle id v c.first h))

-- Once a connector is revoked, deletion_requested, archived or deleted, then after any calls by any
-- callers, each of which runs to its end before the next begins, its row is still there, in one of
-- these states, with a version that is no smaller, and the check before an invocation refuses it.
pub retired_forever :
    (a : Adapters) (db : Db) (xs : List Arrival) (id : String) (r : ConnectorRecord)
    → get_connector id db.connectors ≡ some r
    → is_retired r.status ≡ true
    → (r' : ConnectorRecord) × (get_connector id (run a db xs).connectors ≡ some r')
      × (is_retired r'.status ≡ true)
      × (r.version ≤ r'.version)
      × (is_executable (value r'.status) ≡ false)
retired_forever a db xs id r read dead =
    let h =
      run-IsRetiredAt a db xs id r.version
        (record { row = r; found = read; retired = dead; version = omega arith }) in
    (h.row, h.found, h.retired, h.version, retired_not_executable h.row.status h.retired)
