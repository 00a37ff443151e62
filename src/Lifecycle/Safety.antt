-- ===== src/Lifecycle/Safety.antt =====
-- What the table of lifecycle.py permits, stated of the functions that consult it.
use favl_agentic_content_os.Prelude.{
  String, eq_iff, ◌≡◌, refl, ◌↔◌, inl, inr, Bool, true, ◌&&◌, Option, none, some, List, [], ◌∷◌,
  arith, every, All, All-In, In, Bool-cases, In-select, &&-true, not, ◌∙◌,
}
use favl_agentic_content_os.Lifecycle.State.{
  ConnectorState, draft, installed, configured, validated, enabled, disabled, revoked,
  deletion_requested, archived, deleted, value, members, parse, parse-value, value-parse,
  same_state, same_state→eq, terminal_states, member,
}
use favl_agentic_content_os.Lifecycle.Table.{Transition, transitions}
use favl_agentic_content_os.Lifecycle.Lookup.{
  found, choose, is_edge, by_edge, has_event, candidates, find_states, find_parsed, find,
}

pub In-members : (c : ConnectorState) → In c members
In-members draft = ground arith
In-members installed = ground arith
In-members configured = ground arith
In-members validated = ground arith
In-members enabled = ground arith
In-members disabled = ground arith
In-members revoked = ground arith
In-members deletion_requested = ground arith
In-members archived = ground arith
In-members deleted = ground arith

-- A test that passes at every member of the enumeration passes at each state.
pub every_member :
    (test : ConnectorState → Bool)
    → every test members ≡ true
    → (c : ConnectorState) → test c ≡ true
every_member test h draft = ground arith
every_member test h installed = ground arith
every_member test h configured = ground arith
every_member test h validated = ground arith
every_member test h enabled = ground arith
every_member test h disabled = ground arith
every_member test h revoked = ground arith
every_member test h deletion_requested = ground arith
every_member test h archived = ground arith
every_member test h deleted = ground arith

-- A row that `find` may return for an edge and an event.
abbrev pub Matches : ConnectorState → ConnectorState → Option String → Transition → Type 0
Matches frm to event r =
    In r transitions × (r.source ≡ frm) × (r.target ≡ to) × (has_event event r ≡ true)

candidates-Matches :
    (frm to : ConnectorState) (event : Option String) (r : Transition)
    → In r (candidates frm to event)
    → Matches frm to event r
unfolding candidates
candidates-Matches frm to event r i =
    let (j, e) = In-select (has_event event) (by_edge frm to) r i in
    let (k, edge) = In-select (is_edge frm to) transitions r j in
    let (s, t) = &&-true (same_state r.source frm) (same_state r.target to) edge in
    (k, same_state→eq r.source frm s, same_state→eq r.target to t, e)

choose-In : (c : List Transition) (r : Transition) → choose c ≡ found r → In r c
choose-In [] r h = cc
choose-In (t ∷ ts) r h = inl (cc)

pub find_states-Matches :
    (frm to : ConnectorState) (event : Option String) (r : Transition)
    → find_states frm to event ≡ found r
    → Matches frm to event r
unfolding find_states
find_states-Matches frm to event r h =
    elim (Bool-cases (member frm terminal_states && not (same_state frm to))) [
      | inl e ↦ cc (rw e at h)
      | inr e ↦
          candidates-Matches frm to event r (choose-In (candidates frm to event) r (rw e at h))
    ]

pub find-value :
    (frm to : ConnectorState) (event : Option String)
    → find (value frm) (value to) event ≡ find_states frm to event
unfolding find
find-value frm to event = rw (find, parse-value frm, parse-value to)

-- Both texts of a successful lookup are states.
pub find-found :
    (source target : String) (event : Option String) (r : Transition)
    → find source target event ≡ found r
    → (frm : ConnectorState) × (to : ConnectorState) × (value frm ≡ source)
      × (value to ≡ target)
      × (find_states frm to event ≡ found r)
unfolding find
find-found source target event r h = go (parse source) (parse target) refl refl h
  where
    go :
        (p q : Option ConnectorState)
        → parse source ≡ p
        → parse target ≡ q
        → find_parsed p q event ≡ found r
        → (frm : ConnectorState) × (to : ConnectorState) × (value frm ≡ source)
          × (value to ≡ target)
          × (find_states frm to event ≡ found r)
    go (some frm) (some to) p q h = (frm, to, value-parse source frm p, value-parse target to q, h)
    go (some frm) none p q h = cc
    go none q p _ h = cc

found_by_own_event : All (λ r. find_states r.source r.target (some r.event) ≡ found r) transitions
unfolding find_states
found_by_own_event = ground arith

-- `find`, asked for an edge and an event, returns a transition exactly when that transition is a
-- row of the table with that source, that target and that event.
pub find_iff :
    (source target event : String) (r : Transition)
    → find source target (some event) ≡ found r ↔ (
        In r transitions
        × (value r.source ≡ source)
        × (value r.target ≡ target)
        × (r.event ≡ event))
find_iff source target event r = (forth, back)
  where
    forth :
        find source target (some event) ≡ found r
        → In r transitions
          × (value r.source ≡ source)
          × (value r.target ≡ target)
          × (r.event ≡ event)
    forth h =
        let (frm, to, p, q, f) = find-found source target (some event) r h in
        let (i, s, t, e) = find_states-Matches frm to (some event) r f in
        (i, rw s p, rw t q, (eq_iff r.event event).0 e)

    back :
        In r transitions × (value r.source ≡ source) × (value r.target ≡ target) × (r.event ≡ event)
        → find source target (some event) ≡ found r
    back (i, s, t, e) =
        rw (← s, ← t, ← e)
          (find-value r.source r.target (some r.event)
            ∙ All-In (λ t. find_states t.source t.target (some t.event) ≡ found t) r transitions
                found_by_own_event i)
