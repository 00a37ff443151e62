-- ===== src/Lifecycle/State.antt =====
-- `ConnectorState` and the sets of states of lifecycle.py.
use favl_agentic_content_os.Prelude.{
  String, str_eq, eq_iff, ◌≡◌, refl, Bool, true, false, Option, none, some, List, [], ◌∷◌, arith,
  any, if◌then◌else◌,
}

pub data ConnectorState : Type 0 where
  draft installed configured validated enabled disabled revoked : ConnectorState
  deletion_requested archived deleted : ConnectorState

-- `state.value`
abbrev pub value : ConnectorState → String
value draft = "draft"
value installed = "installed"
value configured = "configured"
value validated = "validated"
value enabled = "enabled"
value disabled = "disabled"
value revoked = "revoked"
value deletion_requested = "deletion_requested"
value archived = "archived"
value deleted = "deleted"

-- The members in the order of the class body.
abbrev pub members : List ConnectorState
members =
    draft ∷ installed ∷ configured ∷ validated ∷ enabled ∷ disabled ∷ revoked ∷ deletion_requested
    ∷ archived ∷ deleted ∷ []

-- A `str` enum compares as its text.
abbrev pub same_state : ConnectorState → ConnectorState → Bool
same_state a b = str_eq (value a) (value b)

find_member : String → List ConnectorState → Option ConnectorState
find_member s [] = none
find_member s (c ∷ cs) = if str_eq (value c) s then some c else find_member s cs

-- `ConnectorState(s)`, with `none` for the ValueError.
unfoldable pub parse : String → Option ConnectorState
unfolding find_member
parse s = find_member s members

abbrev pub executable_states : List ConnectorState
executable_states = enabled ∷ []

abbrev pub terminal_states : List ConnectorState
terminal_states = deleted ∷ []

abbrev pub creatable_states : List ConnectorState
creatable_states = draft ∷ installed ∷ configured ∷ validated ∷ enabled ∷ disabled ∷ []

-- `state in states`
abbrev pub member : ConnectorState → List ConnectorState → Bool
member c states = any (same_state c) states

unfoldable pub is_executable : String → Bool
unfolding parse
is_executable state = elim (parse state) [ none ↦ false | some c ↦ member c executable_states ]

pub parse-value : (c : ConnectorState) → parse (value c) ≡ some c
unfolding parse
parse-value draft = refl
parse-value installed = refl
parse-value configured = refl
parse-value validated = refl
parse-value enabled = refl
parse-value disabled = refl
parse-value revoked = refl
parse-value deletion_requested = refl
parse-value archived = refl
parse-value deleted = refl

find_member-value :
    (s : String) (cs : List ConnectorState) (c : ConnectorState)
    → find_member s cs ≡ some c
    → value c ≡ s
unfolding find_member
find_member-value s [] c h = cc
find_member-value s (d ∷ ds) c h = ground (arith, eq_iff (value d) s, find_member-value s ds c)

pub value-parse : (s : String) (c : ConnectorState) → parse s ≡ some c → value c ≡ s
unfolding parse
value-parse s c h = find_member-value s members c h

pub same_state→eq : (a b : ConnectorState) → same_state a b ≡ true → a ≡ b
same_state→eq a b h =
    let e : some a ≡ some b =
      rw (← parse-value a, ← parse-value b, (eq_iff (value a) (value b)).0 h) refl in
    cc

pub same_state_refl : (a : ConnectorState) → same_state a a ≡ true
same_state_refl a = (eq_iff (value a) (value a)).1 refl
