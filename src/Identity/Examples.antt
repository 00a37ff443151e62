-- ===== src/Identity/Examples.antt =====
-- The theorem on identity.py, and runs of it, at small headers.
use favl_agentic_content_os.Prelude.{
  String, str_eq, ◌≡◌, ◌≢◌, refl, true, Option, none, some, [], ◌∷◌, eq_iff, if◌then◌else◌,
}
use favl_agentic_content_os.Json.{Value, obj, str, dict, get, nat}
use favl_agentic_content_os.Identity.{
  CallerIdentity, Settings, Codec, decode_userinfo, subject_of, identity_from_userinfo,
  current_identity, current_tenant,
}
use favl_agentic_content_os.Identity.Verified.{Claims, current_identity-Claims}

abbrev claims : Value
claims =
    obj (dict (("sub", nat 0) ∷ ("preferred_username", str "ann") ∷ ("tenant", str "acme") ∷ []))

abbrev codec : Codec
codec = record {
  Bytes = String;
  b64decode = λ text. if str_eq text "dG9rZQ==" then some "decoded" else none;
  loads = λ text. if str_eq text "decoded" then some claims else none;
  encode = λ text. text;
  show = λ v. "1";
}

abbrev settings : String → Settings
settings allow = record {
  default_tenant_id = "default";
  tenant_claim = "tenant";
  allow_anonymous_identity = allow;
}

abbrev ann : CallerIdentity
ann = record { actor_id = "ann"; tenant_id = "acme"; verified = true }

-- The header is padded before it is decoded, and a false `sub` gives way to the name.
decodes : current_identity codec (settings "false") (some "dG9rZQ") ≡ some ann
unfolding current_identity identity_from_userinfo decode_userinfo subject_of get
decodes = refl

-- Undecodable text is refused, or anonymous where that is allowed.
refuses : current_identity codec (settings "no") (some "?") ≡ none
unfolding current_identity identity_from_userinfo decode_userinfo subject_of get
refuses = refl

falls_back : current_tenant codec (settings "Yes") none ≡ some "default"
unfolding current_tenant current_identity identity_from_userinfo
falls_back = refl

current_identity-Claims_example :
    ((raw : String) × (◌≡◌ {A = Option String} (some "dG9rZQ") (some raw))
      × Claims codec (settings "false") raw ann)
    × (ann.tenant_id ≢ "")
current_identity-Claims_example =
    current_identity-Claims codec (settings "false") (some "dG9rZQ") ann
      (λ v holds e. cc ((eq_iff "1" "").1 e)) refl decodes
