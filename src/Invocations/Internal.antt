-- ===== src/Invocations/Internal.antt =====
-- `require_internal_caller` of main.py, and the internal endpoint behind it.
use favl_agentic_content_os.Prelude.{
  ℕ, String, str_eq, every_char, Bool, ◌&&◌, Option, List, [], ◌∷◌, ltb, if◌then◌else◌,
}
use favl_agentic_content_os.Prelude.Text.{codes, lower, text_eq}
use favl_agentic_content_os.Store.Tables.{Db, Clock}
use favl_agentic_content_os.Invocations.Execute.{Runtime, Times}
use favl_agentic_content_os.Invocations.Endpoint.{Invoked}
use favl_agentic_content_os.Invocations.Reads.{AgentCall, invoke_connector_internal}

-- `Header(default="")`: names are compared without their case.
abbrev pub header_value : String → List (String × String) → String
header_value name [] = ""
header_value name ((n, v) ∷ rest) =
    let later = header_value name rest in
    if text_eq (lower (codes n)) (lower (codes name)) then v else later

-- `secrets.compare_digest` raises on a text that is not ASCII.
pub data CallerEntry : Type 0 where
  let_in : CallerEntry
  turned_away : ℕ → String → CallerEntry
  crashes : CallerEntry

abbrev pub is_ascii : String → Bool
is_ascii s = every_char (λ c. ltb c 128) s

unfoldable pub require_internal_caller : String → String → CallerEntry
require_internal_caller token sent =
    if str_eq token ""
    then turned_away 503 "INTERNAL_SURFACE_DISABLED"
    else if is_ascii sent && is_ascii token
    then (if str_eq sent token then let_in else turned_away 401 "INTERNAL_AUTH_FAILED")
    else crashes

pub data InternalAnswer : Type 0 where
  stopped : CallerEntry → InternalAnswer
  handled : Option Invoked → InternalAnswer

abbrev pub on_entry : CallerEntry → Option Invoked → InternalAnswer
on_entry let_in a = handled a
on_entry (turned_away status code) a = stopped (turned_away status code)
on_entry crashes a = stopped crashes

-- The endpoint with the headers of its request; the token is the registry's own.
unfoldable pub internal_endpoint :
    String
    → Runtime
    → Db
    → List (String × String)
    → String
    → AgentCall
    → Clock
    → Times
    → InternalAnswer
internal_endpoint token rt db headers id call k t =
    on_entry (require_internal_caller token (header_value "x-internal-service-token" headers))
      (invoke_connector_internal rt db (header_value "x-tenant-id" headers) id call k t)
