-- ===== src/Security/Secrets/Ownership.antt =====
-- Who may read a secret, and the two readers that share one variable.
use mathlib.Core.List.{append_assoc}
use favl_agentic_content_os.Prelude.{◌≡◌, ◌⊎◌, sym, ap, ◌∙◌, ◌++◌, map, Bool-cases, inl, inr}
use favl_agentic_content_os.Prelude.Text.{Text, codes, text_eq, text_eq→eq}
use favl_agentic_content_os.Security.Secrets.{
  Scope, connector, tenant, SecretRef, scope_text, safe_char, env_name, Permission, permitted,
  refused, parse_reference, check_owner, check_addressable,
}

-- A secret that may be read is the connector's own or its tenant's own.
abbrev pub IsOwn : Text → Text → SecretRef → Type 0
IsOwn owner own_tenant r =
    ((r.scope ≡ connector) × (r.owner ≡ owner)) ⊎ ((r.scope ≡ tenant) × (r.owner ≡ own_tenant))

IsOwn-scope :
    (owner own_tenant : Text) (s : Scope) (o k : Text) (ref : SecretRef)
    → check_owner owner own_tenant (permitted (record { scope = s; owner = o; key = k }))
      ≡ permitted ref
    → IsOwn owner own_tenant ref
IsOwn-scope owner own_tenant connector o k ref e = elim (Bool-cases (text_eq o owner)) [
  | inl same ↦
      let whole : record { scope = connector; owner = o; key = k } ≡ ref = cc (rw same at e) in
      inl (
        ap (λ (r : SecretRef). r.scope) (sym whole),
        ap (λ (r : SecretRef). r.owner) (sym whole) ∙ text_eq→eq o owner same,
      )
  | inr other ↦ cc (rw other at e)
]
IsOwn-scope owner own_tenant tenant o k ref e = elim (Bool-cases (text_eq o own_tenant)) [
  | inl same ↦
      let whole : record { scope = tenant; owner = o; key = k } ≡ ref = cc (rw same at e) in
      inr (
        ap (λ (r : SecretRef). r.scope) (sym whole),
        ap (λ (r : SecretRef). r.owner) (sym whole) ∙ text_eq→eq o own_tenant same,
      )
  | inr other ↦ cc (rw other at e)
]

checked-IsOwn :
    (owner own_tenant : Text) (p : Permission) (ref : SecretRef)
    → check_owner owner own_tenant p ≡ permitted ref
    → IsOwn owner own_tenant ref
checked-IsOwn owner own_tenant (refused why) ref e = cc e
checked-IsOwn owner own_tenant (permitted r) ref e =
    IsOwn-scope owner own_tenant r.scope r.owner r.key ref e

-- Whatever text a configuration holds, a secret that the check lets through is one of the connector's
-- own or of its tenant's.
pub check_addressable-IsOwn :
    (value owner own_tenant : Text) (ref : SecretRef)
    → check_addressable value owner own_tenant ≡ permitted ref
    → IsOwn owner own_tenant ref
unfolding check_addressable
check_addressable-IsOwn value owner own_tenant ref e =
    checked-IsOwn owner own_tenant (parse_reference value) ref e

-- The references of an owner and of another whose name goes on with `_` and more share one variable
-- of the environment, if their keys make up for it.
pub env_name_collision :
    (scope : Scope) (owner more key : Text)
    → env_name (record { scope = scope; owner = owner; key = more ++ (codes "_" ++ key) })
      ≡ env_name (record { scope = scope; owner = owner ++ (codes "_" ++ more); key = key })
unfolding env_name
env_name_collision scope owner more key =
    ap
      (λ (tail : Text).
        codes "FAVL_SECRET_" ++ map safe_char (scope_text scope ++ (codes "_" ++ tail)))
      (sym (append_assoc owner (codes "_" ++ more) (codes "_" ++ key)))
