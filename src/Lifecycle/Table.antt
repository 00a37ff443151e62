-- ===== src/Lifecycle/Table.antt =====
-- `Transition` and `TRANSITIONS` of lifecycle.py: the permitted edges, in the order of the source.
use favl_agentic_content_os.Prelude.{String, Bool, true, false, List, [], ◌∷◌, ◌++◌, map}
use favl_agentic_content_os.Lifecycle.State.{
  ConnectorState, draft, installed, configured, validated, enabled, disabled, revoked,
  deletion_requested, archived, deleted,
}

pub record Transition : Type 0 where
  pub source : ConnectorState
  pub target : ConnectorState
  pub event : String
  pub idempotent : Bool
  pub requires_reason : Bool
  pub privileged : Bool

-- A call of the dataclass that leaves the flags at their defaults.
abbrev pub plain : ConnectorState → ConnectorState → String → Transition
plain s t e = record {
  source = s;
  target = t;
  event = e;
  idempotent = false;
  requires_reason = false;
  privileged = false;
}

abbrev pub repeatable : Transition → Transition
repeatable t = record t { idempotent = true }

abbrev pub reasoned : Transition → Transition
reasoned t = record t { requires_reason = true }

abbrev revocation : ConnectorState → Transition
revocation s = repeatable (reasoned (plain s revoked "connector.revoked"))

abbrev pub transitions : List Transition
transitions =
    plain draft installed "connector.installed"
    ∷ plain installed configured "connector.configured"
    ∷ plain configured configured "connector.configured"
    ∷ plain validated configured "connector.configured"
    ∷ plain disabled configured "connector.configured"
    ∷ plain configured validated "connector.validation_succeeded"
    ∷ plain configured configured "connector.validation_failed"
    ∷ plain validated enabled "connector.enabled"
    ∷ plain disabled enabled "connector.enabled"
    ∷ repeatable (reasoned (plain enabled disabled "connector.disabled"))
    ∷ plain enabled enabled "connector.credentials_rotated"
    ∷ plain disabled disabled "connector.credentials_rotated"
    ∷ (map revocation (draft ∷ installed ∷ configured ∷ validated ∷ enabled ∷ disabled ∷ [])
        ++ (repeatable (reasoned (plain disabled deletion_requested "connector.deletion_requested"))
            ∷ repeatable
                (reasoned (plain revoked deletion_requested "connector.deletion_requested"))
            ∷ repeatable (plain deletion_requested archived "connector.archived")
            ∷ repeatable (plain revoked archived "connector.archived")
            ∷ record (reasoned (plain archived deleted "connector.deleted")) { privileged = true }
            ∷ []))
