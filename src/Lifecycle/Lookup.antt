-- ===== src/Lifecycle/Lookup.antt =====
-- `find`, `permitted_targets` and `idempotent_repeat` of lifecycle.py.
use favl_agentic_content_os.Prelude.{
  String, str_eq, Bool, true, not, ◌&&◌, Option, none, some, List, [], ◌∷◌, map, select, first, any,
  if◌then◌else◌,
}
use favl_agentic_content_os.Lifecycle.State.{
  ConnectorState, value, same_state, parse, terminal_states, member,
}
use favl_agentic_content_os.Lifecycle.Table.{Transition, transitions}

-- The reasons that a TransitionError carries.
pub data Refusal : Type 0 where
  unknown_state terminal not_permitted : Refusal

pub data Found : Type 0 where
  found : Transition → Found
  refused : Refusal → Found

abbrev pub is_edge : ConnectorState → ConnectorState → Transition → Bool
is_edge frm to t = same_state t.source frm && same_state t.target to

-- `_BY_EDGE.get((frm, to), [])`: the rows of the table with that edge, in its order.
unfoldable pub by_edge : ConnectorState → ConnectorState → List Transition
by_edge frm to = select (is_edge frm to) transitions

-- `event is None` asks for nothing.
abbrev pub has_event : Option String → Transition → Bool
has_event none t = true
has_event (some e) t = str_eq t.event e

unfoldable pub candidates : ConnectorState → ConnectorState → Option String → List Transition
unfolding by_edge
candidates frm to event = select (has_event event) (by_edge frm to)

abbrev pub choose : List Transition → Found
choose [] = refused not_permitted
choose (t ∷ ts) = found t

-- `find` once both texts are states.
unfoldable pub find_states : ConnectorState → ConnectorState → Option String → Found
unfolding candidates
find_states frm to event =
    if member frm terminal_states && not (same_state frm to)
    then refused terminal
    else choose (candidates frm to event)

-- The `try` of `find`: either text may name no state.
abbrev pub find_parsed : Option ConnectorState → Option ConnectorState → Option String → Found
find_parsed (some frm) (some to) event = find_states frm to event
find_parsed _ _ event = refused unknown_state

unfoldable pub find : String → String → Option String → Found
find source target event = find_parsed (parse source) (parse target) event

-- `sorted({...})` of the target texts: the members in the order of their texts, each once.
abbrev sorted_members : List ConnectorState
sorted_members =
    ConnectorState.archived ∷ ConnectorState.configured ∷ ConnectorState.deleted
    ∷ ConnectorState.deletion_requested ∷ ConnectorState.disabled ∷ ConnectorState.draft
    ∷ ConnectorState.enabled ∷ ConnectorState.installed ∷ ConnectorState.revoked
    ∷ ConnectorState.validated ∷ []

abbrev pub has_edge : ConnectorState → ConnectorState → Bool
has_edge frm to = any (is_edge frm to) transitions

unfoldable pub permitted_targets : String → List String
unfolding parse
permitted_targets source = elim (parse source) [
  | none ↦ []
  | some frm ↦ map value (select (has_edge frm) sorted_members)
]

abbrev pub repeats_into : String → Transition → Bool
repeats_into target t = str_eq (value t.target) target && t.idempotent

unfoldable pub idempotent_repeat : String → String → Option Transition
idempotent_repeat current target =
    if str_eq current target then first (select (repeats_into target) transitions) else none
