-- ===== src/Lifecycle/Runs.antt =====
-- Sequences of permitted transitions of lifecycle.py, and what they can never reach.
use favl_agentic_content_os.Prelude.{
  String, str_eq, ◌≡◌, refl, inl, inr, ◌⊎◌, Bool, true, false, ◌||◌, Option, some, List, [], ◌∷◌,
  arith, any, every, every-In, not,
}
use favl_agentic_content_os.Lifecycle.State.{
  ConnectorState, draft, installed, configured, revoked, deletion_requested, archived, deleted,
  value, parse, is_executable,
}
use favl_agentic_content_os.Lifecycle.Table.{Transition, transitions}
use favl_agentic_content_os.Lifecycle.Lookup.{found, find_states}
use favl_agentic_content_os.Lifecycle.Safety.{find_states-Matches, every_member}

-- Each transition of the list is found from the state that the one before it left.
abbrev pub IsRun : ConnectorState → List Transition → Type 0
IsRun s [] = Unit
IsRun s (t ∷ ts) = (find_states s t.target (some t.event) ≡ found t) × IsRun t.target ts

abbrev pub ends_in : ConnectorState → List Transition → ConnectorState
ends_in s [] = s
ends_in s (t ∷ ts) = ends_in t.target ts

-- The states from which a connector never serves again.
abbrev pub is_retired : ConnectorState → Bool
is_retired revoked = true
is_retired deletion_requested = true
is_retired archived = true
is_retired deleted = true
is_retired _ = false

-- The states of a connector whose present configuration has not passed validation.
abbrev pub is_unchecked : ConnectorState → Bool
is_unchecked draft = true
is_unchecked installed = true
is_unchecked configured = true
is_unchecked _ = false

-- The transition records a successful validation.
abbrev pub is_validation : Transition → Bool
is_validation t = str_eq t.event "connector.validation_succeeded"

-- What a test of rows and the table's being closed under it give for a lookup.
table_rule :
    (rule : Transition → Bool)
    → every rule transitions ≡ true
    → (frm to : ConnectorState) (event : Option String) (r : Transition)
    → find_states frm to event ≡ found r
    → (rule r ≡ true) × (r.source ≡ frm) × (r.target ≡ to)
table_rule rule closed frm to event r h =
    let (i, s, t, _) = find_states-Matches frm to event r h in
    (every-In rule transitions r closed i, s, t)

retired_row : Transition → Bool
retired_row t = not (is_retired t.source) || is_retired t.target

unchecked_row : Transition → Bool
unchecked_row t =
    not (is_unchecked t.source)
    || (is_unchecked t.target || (is_retired t.target || is_validation t))

-- A permitted transition out of a retired state ends in a retired state.
pub find_states-retired :
    (frm to : ConnectorState) (event : Option String) (r : Transition)
    → find_states frm to event ≡ found r
    → is_retired frm ≡ true
    → is_retired r.target ≡ true
unfolding retired_row
find_states-retired frm to event r h dead =
    let (rule, s, _) = table_rule retired_row refl frm to event r h in ground (arith)

pub retired_not_executable :
    (c : ConnectorState) → is_retired c ≡ true → is_executable (value c) ≡ false
unfolding is_executable parse
retired_not_executable c h =
    let rule : (not (is_retired c) || not (is_executable (value c))) ≡ true =
      every_member (λ d. not (is_retired d) || not (is_executable (value d))) refl c in
    ground arith

unchecked_not_executable :
    (c : ConnectorState) → is_unchecked c ≡ true → is_executable (value c) ≡ false
unfolding is_executable parse
unchecked_not_executable c h =
    let rule : (not (is_unchecked c) || not (is_executable (value c))) ≡ true =
      every_member (λ d. not (is_unchecked d) || not (is_executable (value d))) refl c in
    ground arith

-- A run that begins in a retired state ends in one, and no connector in it may serve: revocation,
-- a deletion request, archival and deletion are final.
pub retired_run :
    (s : ConnectorState) (ts : List Transition)
    → is_retired s ≡ true
    → IsRun s ts
    → (is_retired (ends_in s ts) ≡ true) × (is_executable (value (ends_in s ts)) ≡ false)
retired_run s [] dead run = (dead, retired_not_executable s dead)
retired_run s (t ∷ ts) dead run =
    retired_run t.target ts (find_states-retired s t.target (some t.event) t run.0 dead) run.1

unchecked_step :
    (frm to : ConnectorState) (event : Option String) (r : Transition)
    → find_states frm to event ≡ found r
    → is_unchecked frm ≡ true
    → (is_unchecked r.target ≡ true) ⊎ ((is_retired r.target ≡ true) ⊎ (is_validation r ≡ true))
unfolding unchecked_row
unchecked_step frm to event r h u =
    let (rule, s, _) = table_rule unchecked_row refl frm to event r h in
    let start : is_unchecked r.source ≡ true = rw s u in ground arith

-- A run that begins before validation and ends in an executable state contains a successful
-- validation.
pub executable_needs_validation :
    (s : ConnectorState) (ts : List Transition)
    → is_unchecked s ≡ true
    → IsRun s ts
    → is_executable (value (ends_in s ts)) ≡ true
    → any is_validation ts ≡ true
executable_needs_validation s [] u run e = cc (unchecked_not_executable s u)
executable_needs_validation s (t ∷ ts) u run e =
    elim (unchecked_step s t.target (some t.event) t run.0 u) [
      | inl still ↦ ground (arith, executable_needs_validation t.target ts still run.1 e)
      | inr (inl dead) ↦ cc ((retired_run t.target ts dead run.1).1)
      | inr (inr passed) ↦ ground arith
    ]
