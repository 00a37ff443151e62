-- ===== src/Adapters/Ending.antt =====
-- A reply of an adapter ends its invocation.
use favl_agentic_content_os.Prelude.{◌≡◌, true}
use favl_agentic_content_os.Invocations.Execute.{Reply, returned, timeout, raised}
use favl_agentic_content_os.Invocations.Failures.{ends}

-- A result, if there is one, is that of an invocation that has ended.
abbrev pub Ends : Reply → Type 0
Ends (returned r) = ends r.status ≡ true
Ends timeout = Unit
Ends (raised text) = Unit
