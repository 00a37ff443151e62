-- ===== src/Registry/Steps/Creation.antt =====
-- The change that the creation of a connector makes.
use favl_agentic_content_os.Prelude.{
  String, eq_iff, ◌≡◌, ◌≢◌, inl, inr, refl, ◌∙◌, true, false, none, List, [], ◌∷◌, ◌++◌, arith,
  Bool-cases, &&-true,
}
use favl_agentic_content_os.Lifecycle.State.{member, creatable_states}
use favl_agentic_content_os.Store.Rows.{ConnectorRecord}
use favl_agentic_content_os.Store.Tables.{Db, Clock, get_connector, event_row}
use favl_agentic_content_os.Store.Laws.{get_connector-append}
use favl_agentic_content_os.Registry.Schemas.{
  ConnectorCreate, is_valid_create, one_of, within, connector_kinds,
}
use favl_agentic_content_os.Registry.Handlers.{
  Adapters, CallerIdentity, conflicts, new_connector, created_event, insert_connector,
  create_connector, add_base_url,
}
use favl_agentic_content_os.Registry.Changes.{Change, unchanged, inserted}

no_conflict :
    (id tenant name : String) (rows : List ConnectorRecord)
    → conflicts id tenant name rows ≡ false
    → get_connector id rows ≡ none
unfolding conflicts get_connector
no_conflict id tenant name [] h = refl
no_conflict id tenant name (r ∷ rs) h = ground (arith, no_conflict id tenant name rs)

append_ne :
    (j : String) (r : ConnectorRecord) (cs : List ConnectorRecord)
    → get_connector r.id cs ≡ none
    → j ≢ r.id
    → get_connector j (cs ++ r ∷ []) ≡ get_connector j cs
append_ne j r cs absent ne = get_connector-append j cs r absent ∙ ground (arith, eq_iff r.id j)

creatable_of_valid :
    (p : ConnectorCreate) → is_valid_create p ≡ true → member p.status creatable_states ≡ true
unfolding is_valid_create
creatable_of_valid p h =
    let (_, rest) = &&-true (within 2 80 p.name) _ h in
    let (_, rest') = &&-true (one_of p.kind connector_kinds) _ rest in
    (&&-true (member p.status creatable_states) _ rest').0

module _ (db : Db) (u : CallerIdentity) (k : Clock) where
  pub insert-Change :
      (r : ConnectorRecord)
      → r.tenant_id ≡ u.tenant_id
      → member r.status creatable_states ≡ true
      → r.version ≡ 1
      → Change u.tenant_id db (insert_connector db u k r).0
  unfolding insert_connector
  insert-Change r tenant fresh one =
      elim (Bool-cases (conflicts r.id r.tenant_id r.name db.connectors)) [
        | inl e ↦ rw e (unchanged refl)
        | inr e ↦
            let absent : get_connector r.id db.connectors ≡ none =
              no_conflict r.id r.tenant_id r.name db.connectors e in
            rw e (
              inserted r.id r absent tenant fresh one
                (record {
                  written =
                      get_connector-append r.id db.connectors r absent
                      ∙ rw ((eq_iff r.id r.id).1 refl) refl;
                  others = λ j ne. append_ne j r db.connectors absent ne;
                })
                (record {
                  event = event_row k.event_id k.now (created_event r);
                  outbox = refl;
                  kind = refl;
                  aggregate = refl;
                  version = refl;
                }))
      ]

  pub create-Change :
      (a : Adapters) (p : ConnectorCreate) → Change u.tenant_id db (create_connector a db u k p).0
  unfolding create_connector
  create-Change a p = elim (Bool-cases (is_valid_create p)) [
    | inr e ↦ rw e (unchanged refl)
    | inl valid ↦ elim (Bool-cases (one_of p.kind a.kinds)) [
      | inr e ↦ rw (valid, e) (unchanged refl)
      | inl known ↦
          let config = add_base_url p.base_url p.config in
          let v = a.validate_config p.kind config in
          elim (Bool-cases v.valid) [
            | inr e ↦ rw (valid, known, e) (unchanged refl)
            | inl e ↦
                rw (valid, known, e)
                  (insert-Change (new_connector u k p config v) refl (creatable_of_valid p valid)
                    refl)
          ]
    ]
  ]
