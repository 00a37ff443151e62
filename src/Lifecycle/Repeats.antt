-- ===== src/Lifecycle/Repeats.antt =====
-- `idempotent_repeat` and `permitted_targets` of lifecycle.py against `find`.
use favl_agentic_content_os.Prelude.{
  str_eq, ◌≡◌, refl, inl, inr, Bool, true, false, ◌&&◌, Option, none, some, arith, any, every,
  Bool-cases, not,
}
use favl_agentic_content_os.Lifecycle.State.{
  ConnectorState, draft, installed, configured, validated, enabled, disabled, revoked,
  deletion_requested, archived, deleted, value, members, same_state, same_state→eq, same_state_refl,
}
use favl_agentic_content_os.Lifecycle.Lookup.{
  Found, found, refused, find_states, find, permitted_targets, idempotent_repeat,
}
use favl_agentic_content_os.Lifecycle.Safety.{every_member, find-value}

-- The states that a retry may ask for again.
abbrev pub is_repeatable : ConnectorState → Bool
is_repeatable disabled = true
is_repeatable revoked = true
is_repeatable deletion_requested = true
is_repeatable archived = true
is_repeatable _ = false

abbrev pub is_some : {A : Type 0} → Option A → Bool
is_some none = false
is_some (some x) = true

abbrev pub is_found : Found → Bool
is_found (found t) = true
is_found (refused r) = false

repeat_rows :
    (c : ConnectorState) → is_some (idempotent_repeat (value c) (value c)) ≡ is_repeatable c
unfolding idempotent_repeat
repeat_rows draft = refl
repeat_rows installed = refl
repeat_rows configured = refl
repeat_rows validated = refl
repeat_rows enabled = refl
repeat_rows disabled = refl
repeat_rows revoked = refl
repeat_rows deletion_requested = refl
repeat_rows archived = refl
repeat_rows deleted = refl

different :
    (c t : ConnectorState)
    → same_state c t ≡ false
    → is_some (idempotent_repeat (value c) (value t)) ≡ (same_state c t && is_repeatable c)
unfolding idempotent_repeat
different c t e = rw e refl

-- Asking again for a state is a success exactly when the connector holds that state and it is
-- disabled, revoked, deletion_requested or archived; enabling is never repeated.
pub is_idempotent_repeat :
    (c t : ConnectorState)
    → is_some (idempotent_repeat (value c) (value t)) ≡ (same_state c t && is_repeatable c)
is_idempotent_repeat c t = elim (Bool-cases (same_state c t)) [
  | inl e ↦ rw (← same_state→eq c t e, same_state_refl c) (repeat_rows c)
  | inr e ↦ different c t e
]

abbrev agree : Bool → Bool → Bool
agree true b = b
agree false b = not b

agree→eq : (a b : Bool) → agree a b ≡ true → a ≡ b
agree→eq a b h = ground arith

targets_agree : ConnectorState → ConnectorState → Bool
unfolding permitted_targets find_states
targets_agree c t =
    agree (any (str_eq (value t)) (permitted_targets (value c))) (is_found (find_states c t none))

-- The targets that a refused caller is shown are those for which `find`, asked for no event, finds
-- a transition.
pub permitted_targets-find :
    (c t : ConnectorState)
    → any (str_eq (value t)) (permitted_targets (value c))
      ≡ is_found (find (value c) (value t) none)
unfolding targets_agree
permitted_targets-find c t =
    let row : every (targets_agree c) members ≡ true =
      every_member (λ d. every (targets_agree d) members) refl c in
    let e : targets_agree c t ≡ true = every_member (targets_agree c) row t in
    rw find-value (agree→eq _ _ e)
