-- ===== src/Adapters/Examples/Ends.antt =====
-- How requests of the adapters end, at the same host.
use favl_agentic_content_os.Prelude.{decimal, ◌≡◌, refl, true, false, none, some, [], ◌∷◌}
use favl_agentic_content_os.Prelude.Text.{codes}
use favl_agentic_content_os.Json.{end, str}
use favl_agentic_content_os.Store.Rows.{ConnectorRecord, failed_retryable}
use favl_agentic_content_os.Lifecycle.State.{enabled}
use favl_agentic_content_os.Security.Address.{
  classify, address_is_forbidden, always_forbidden, normalise_address, match_metadata, match_table,
}
use favl_agentic_content_os.Security.Ssrf.{
  netloc_of, OutboundPolicy, ValidatedTarget, passed, validate_url, validate_static,
  resolve_and_validate, check_infos, host_allowed,
}
use favl_agentic_content_os.Security.Outbound.{OutboundResponse}
use favl_agentic_content_os.Security.Secrets.{parse_reference, is_secret_reference, env_name}
use favl_agentic_content_os.Invocations.Execute.{Runtime, result_of}
use favl_agentic_content_os.Adapters.Http.{headers_of}
use favl_agentic_content_os.Adapters.Webhook.{deliver_to}
use favl_agentic_content_os.Adapters.Dispatch.{runtime, health_context}
use favl_agentic_content_os.Adapters.Gaps.{
  with_header, one_header, health_check_secret, delivered_again,
}
use favl_agentic_content_os.Adapters.Examples.{network, page, world, span, asked, context, settings}

abbrev rt : Runtime
rt = runtime settings world span (λ kind. kind) (λ budget. "")

-- A connector of another tenant.
abbrev connector : ConnectorRecord
connector = record {
  id = "c1";
  tenant_id = "acme";
  name = "hook";
  kind = "http";
  base_url = none;
  scopes = [];
  config = one_header "X-Key" "secret://tenant/default/key" end;
  status = enabled;
  version = 4;
  supports_idempotency = true;
  idempotency_mode = "gateway_dedup_only";
  deletion_requested_at = none;
  deleted_at = none;
  deleted_by = none;
  revoked_at = none;
  archived_at = none;
  credentials_rotated_at = none;
  state_reason = none;
  created_at = 10;
}

health_check_secret_example :
    headers_of world (health_context connector) none ≡ with_header "X-Key" "s3cret"
unfolding is_secret_reference parse_reference env_name
health_check_secret_example =
    health_check_secret world connector "X-Key" "secret://tenant/default/key" end (codes "key")
      "s3cret" refl refl refl refl

abbrev policy : OutboundPolicy
policy = record {
  allowed_hosts = "api.example" ∷ [];
  allowed_schemes = "https" ∷ [];
  allow_private_addresses = false;
  max_redirects = 0;
  max_response_bytes = 1024;
  allowed_content_types = "application/json" ∷ [];
}

abbrev target : ValidatedTarget
target = record {
  url = "https://api.example/hook";
  host = "api.example";
  port = 443;
  scheme = "https";
  address = "8.8.8.8";
  pinned_url = "https://8.8.8.8:443";
}

reached : validate_url network 0 "https://api.example/hook" policy ≡ passed target
unfolding validate_url netloc_of decimal validate_static resolve_and_validate check_infos classify
    address_is_forbidden always_forbidden normalise_address match_metadata match_table host_allowed
reached = refl

delivered_again_example :
    ((deliver_to world span asked context "k"
        (some (str "https://api.example/hook"))
        (some policy)).targets
      ≡ target ∷ [])
    × ((result_of rt
          (some 1)
          5
          9
          (deliver_to world span asked context "k"
            (some (str "https://api.example/hook"))
            (some policy)).reply).status
        ≡ failed_retryable)
delivered_again_example =
    delivered_again world span asked context "k" "https://api.example/hook" policy target page rt
      (some 1) 5 9 reached refl refl refl

abbrev refused : OutboundResponse
refused = record {
  status_code = 429;
  body = [];
  final_url = "https://api.example/";
  provider_request_id = none;
  redirects = 0;
}
