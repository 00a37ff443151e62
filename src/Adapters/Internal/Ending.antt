-- ===== src/Adapters/Internal/Ending.antt =====
-- Every result of the internal adapter ends its invocation.
use favl_agentic_content_os.Prelude.{
  ◌==◌, String, ◌≡◌, refl, true, Option, none, some, [], Bool-cases, inl, inr, if◌then◌else◌,
}
use favl_agentic_content_os.Json.{
  Fields, Value, null, bool, int, real, str, obj, arr, get, is_truthy,
}
use favl_agentic_content_os.Security.Outbound.{
  Sent, response, ssrf_blocked, too_many_redirects, content_type_rejected, response_too_large,
  failed, out_of_fuel, OutboundResponse,
}
use favl_agentic_content_os.Invocations.Execute.{raised}
use favl_agentic_content_os.Invocations.Results.{InvocationRequest, failure, seconds_remaining}
use favl_agentic_content_os.Invocations.Failures.{ends, failure_ends}
use favl_agentic_content_os.Adapters.Base.{
  World, TransportError, timed_out, http_error, other_error, Span, is_success,
}
use favl_agentic_content_os.Adapters.Internal.{
  InternalSettings, OperationError, operation_error, find_service, classify_response,
  internal_reply, transport_result, post_internal, checked_post, with_operation, with_base,
  with_service, code_for,
}
use favl_agentic_content_os.Adapters.Ending.{Ends}

module _ (s : InternalSettings) (w : World) (t : Span) (q : InvocationRequest) where
  transport_Ends : (text : String) (e : TransportError) → Ends (transport_result t text e)
  unfolding failure
  transport_Ends text timed_out = refl
  transport_Ends text http_error = refl
  transport_Ends text other_error = tt

  classified_ends :
      (operation : String) (r : OutboundResponse)
      → ends (classify_response w t operation r).status ≡ true
  unfolding classify_response failure
  classified_ends operation r = elim (Bool-cases (is_success r.status_code)) [
    | inl e ↦ rw e refl
    | inr e ↦ rw e (failure_ends (code_for r.status_code))
  ]

  internal_reply-Ends :
      (operation : String) (sent : Sent) → Ends (internal_reply w t operation sent)
  unfolding internal_reply failure
  internal_reply-Ends operation (response r) = classified_ends operation r
  internal_reply-Ends operation (ssrf_blocked reason) = refl
  internal_reply-Ends operation too_many_redirects = tt
  internal_reply-Ends operation (content_type_rejected media) = tt
  internal_reply-Ends operation response_too_large = refl
  internal_reply-Ends operation (failed text) = transport_Ends text (w.error_kind text)
  internal_reply-Ends operation out_of_fuel = tt

  checked_post-Ends :
      (base operation : String) (e : Option OperationError)
      → Ends (checked_post s w t q base operation e).reply
  unfolding post_internal failure
  checked_post-Ends base operation (some e) = refl
  checked_post-Ends base operation none = internal_reply-Ends operation _

  not_a_text-Ends :
      (base : String) (v : Value)
      → Ends
          (if is_truthy v
            then record { targets = []; reply = raised "TypeError" }
            else checked_post s w t q base "" (operation_error "")).reply
  not_a_text-Ends base v = elim (Bool-cases (is_truthy v)) [
    | inl e ↦ rw e tt
    | inr e ↦ rw e (checked_post-Ends base "" (operation_error ""))
  ]

  with_operation-Ends :
      (base : String) (o : Option Value) → Ends (with_operation s w t q base o).reply
  with_operation-Ends base none = checked_post-Ends base "" (operation_error "")
  with_operation-Ends base (some (str o)) = checked_post-Ends base o (operation_error o)
  with_operation-Ends base (some null) = checked_post-Ends base "" (operation_error "")
  with_operation-Ends base (some (bool b)) = not_a_text-Ends base (bool b)
  with_operation-Ends base (some (int n)) = not_a_text-Ends base (int n)
  with_operation-Ends base (some (real n)) = not_a_text-Ends base (real n)
  with_operation-Ends base (some (obj fs)) = not_a_text-Ends base (obj fs)
  with_operation-Ends base (some (arr vs)) = not_a_text-Ends base (arr vs)

  with_base-Ends :
      (config : Fields) (name : String) (base : Option String)
      → Ends (with_base s w t q config name base).reply
  unfolding failure
  with_base-Ends config name none = refl
  with_base-Ends config name (some base) = elim (Bool-cases (seconds_remaining q t.started == 0)) [
    | inl e ↦ rw e refl
    | inr e ↦ rw e (with_operation-Ends base (get "operation" config))
  ]

  pub with_service-Ends :
      (config : Fields) (name : Option String) → Ends (with_service s w t q config name).reply
  with_service-Ends config none = tt
  with_service-Ends config (some name) = with_base-Ends config name (find_service name s.services)
