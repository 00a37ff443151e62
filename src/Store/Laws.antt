-- ===== src/Store/Laws.antt =====
-- Reads after writes of the connector table.
use mathlib.Core.Path.{subst}
use favl_agentic_content_os.Prelude.{
  String, eq_iff, ◌≡◌, ◌≢◌, refl, none, some, List, [], ◌∷◌, ◌++◌, str_eq, arith, if◌then◌else◌,
}
use favl_agentic_content_os.Store.Rows.{ConnectorRecord, OutboxEvent}
use favl_agentic_content_os.Store.Tables.{get_connector, put_connector, connector_versions}

pub get_connector-id :
    (id : String) (cs : List ConnectorRecord) (r : ConnectorRecord)
    → get_connector id cs ≡ some r
    → r.id ≡ id
unfolding get_connector
get_connector-id id [] r h = cc
get_connector-id id (c ∷ cs) r h = ground (arith, eq_iff c.id id, get_connector-id id cs r)

pub get_connector-put_self :
    (r old : ConnectorRecord) (cs : List ConnectorRecord)
    → get_connector r.id cs ≡ some old
    → get_connector r.id (put_connector r cs) ≡ some r
unfolding get_connector put_connector
get_connector-put_self r old [] h = cc
get_connector-put_self r old (c ∷ cs) h =
    ground (arith, eq_iff c.id r.id, eq_iff r.id r.id, get_connector-put_self r old cs)

pub get_connector-put_ne :
    (r : ConnectorRecord) (j : String) (cs : List ConnectorRecord)
    → j ≢ r.id
    → get_connector j (put_connector r cs) ≡ get_connector j cs
unfolding get_connector put_connector
get_connector-put_ne r j [] h = refl
get_connector-put_ne r j (c ∷ cs) h =
    ground (arith, eq_iff c.id r.id, eq_iff r.id j, eq_iff c.id j, get_connector-put_ne r j cs h)

pub connector_versions-append :
    (id : String) (xs ys : List OutboxEvent)
    → connector_versions id (xs ++ ys) ≡ connector_versions id xs ++ connector_versions id ys
unfolding connector_versions
connector_versions-append id [] ys = refl
connector_versions-append id (x ∷ xs) ys = ground (arith, connector_versions-append id xs ys)

-- A row appended under an unused key is found, and no other key is disturbed.
pub get_connector-append :
    (j : String) (cs : List ConnectorRecord) (r : ConnectorRecord)
    → get_connector r.id cs ≡ none
    → get_connector j (cs ++ r ∷ []) ≡ (if str_eq r.id j then some r else get_connector j cs)
unfolding get_connector
get_connector-append j [] r h = refl
get_connector-append j (c ∷ cs) r h =
    ground (arith, eq_iff c.id r.id, eq_iff r.id j, eq_iff c.id j, get_connector-append j cs r)

pub get_connector-put :
    (id : String) (r old : ConnectorRecord) (cs : List ConnectorRecord)
    → get_connector id cs ≡ some old
    → r.id ≡ id
    → get_connector id (put_connector r cs) ≡ some r
get_connector-put id r old cs read here =
    subst (λ j. get_connector j (put_connector r cs) ≡ some r) here
      (get_connector-put_self r old cs (rw here read))
