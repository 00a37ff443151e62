-- ===== src/Lifecycle/Examples.antt =====
-- Tests of lifecycle.py, and its theorems at concrete inputs.
use favl_agentic_content_os.Prelude.{◌≡◌, refl, true, false, none, List, [], ◌∷◌, any}
use favl_agentic_content_os.Lifecycle.State.{
  draft, installed, configured, validated, enabled, disabled, parse, is_executable,
}
use favl_agentic_content_os.Lifecycle.Table.{Transition, plain, reasoned, repeatable}
use favl_agentic_content_os.Lifecycle.Lookup.{
  refused, not_permitted, unknown_state, terminal, find, find_states, permitted_targets,
}
use favl_agentic_content_os.Lifecycle.Runs.{is_validation, executable_needs_validation}

abbrev disabling : Transition
disabling = repeatable (reasoned (plain enabled disabled "connector.disabled"))

abbrev first_enabling : List Transition
first_enabling =
    plain draft installed "connector.installed"
    ∷ plain installed configured "connector.configured"
    ∷ plain configured validated "connector.validation_succeeded"
    ∷ plain validated enabled "connector.enabled"
    ∷ []

find_refusals :
    (find "draft" "enabled" none ≡ refused not_permitted)
    × (find "deleted" "draft" none ≡ refused terminal)
    × (find "limbo" "draft" none ≡ refused unknown_state)
unfolding find find_states parse
find_refusals = (refl, refl, refl)

targets_of_revoked : permitted_targets "revoked" ≡ "archived" ∷ "deletion_requested" ∷ []
unfolding permitted_targets
targets_of_revoked = refl

unknown_not_executable : (is_executable "limbo" ≡ false) × (is_executable "" ≡ false)
unfolding is_executable
unknown_not_executable = (refl, refl)

executable_needs_validation_example : any is_validation first_enabling ≡ true
unfolding find_states is_executable
executable_needs_validation_example =
    executable_needs_validation draft first_enabling refl (refl, (refl, (refl, (refl, tt)))) refl
