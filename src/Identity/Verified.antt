-- ===== src/Identity/Verified.antt =====
-- Which requests identity.py accepts.
use favl_agentic_content_os.Prelude.{
  String, str_eq, ◌≡◌, ◌≢◌, ◌⊎◌, inl, inr, refl, true, false, Option, none, some, arith, eq_iff,
  Bool-cases, Option-cases,
}
use favl_agentic_content_os.Json.{
  Fields, Value, null, bool, int, real, str, obj, arr, get, is_truthy,
}
use favl_agentic_content_os.Identity.{
  CallerIdentity, Settings, Codec, allows_anonymous, decode_userinfo, if_truthy, subject_of,
  text_of, identity_of, identity_from_userinfo, current_identity,
}

-- The claims of a header name a subject and a tenant: the specification of a verified identity.
pub record Claims (c : Codec) (s : Settings) (raw : String) (i : CallerIdentity) : Type 0 where
  pub subject : Value
  pub tenant : Value
  pub sub_or_name :
      (get "sub" (decode_userinfo c raw) ≡ some subject)
      ⊎ (get "preferred_username" (decode_userinfo c raw) ≡ some subject)
  pub tenant_claim : get s.tenant_claim (decode_userinfo c raw) ≡ some tenant
  pub has_subject : is_truthy subject ≡ true
  pub has_tenant : is_truthy tenant ≡ true
  pub actor_id : i.actor_id ≡ text_of c subject
  pub tenant_id : i.tenant_id ≡ text_of c tenant
  pub verified : i.verified ≡ true

if_truthy-some :
    (o : Option Value) (v : Value) → if_truthy o ≡ some v → (o ≡ some v) × (is_truthy v ≡ true)
if_truthy-some none v h = cc
if_truthy-some (some w) v h = ground arith

subject_of-some :
    (claims : Fields) (v : Value)
    → subject_of claims ≡ some v
    → ((get "sub" claims ≡ some v) ⊎ (get "preferred_username" claims ≡ some v))
      × (is_truthy v ≡ true)
unfolding subject_of
subject_of-some claims v h = elim (Option-cases (if_truthy (get "sub" claims))) [
  | inl e ↦
      let (at, holds) = if_truthy-some (get "preferred_username" claims) v (rw e at h) in
      (inr at, holds)
  | inr (w, e) ↦
      let same : w ≡ v = cc (rw e at h) in
      let (at, holds) = if_truthy-some (get "sub" claims) w e in
      (inl (rw (← same) at), rw (← same) holds)
]

identity_of-Claims :
    (c : Codec) (s : Settings) (raw : String) (i : CallerIdentity) (tenant : Option Value)
    → if_truthy (get s.tenant_claim (decode_userinfo c raw)) ≡ tenant
    → (subject : Option Value) → subject_of (decode_userinfo c raw) ≡ subject
    → identity_of c subject tenant ≡ some i
    → Claims c s raw i
identity_of-Claims c s raw i tenant named none from h = cc
identity_of-Claims c s raw i none named (some subject) from h = cc
identity_of-Claims c s raw i (some tenant) named (some subject) from h =
    let (at_tenant, has_tenant) =
      if_truthy-some (get s.tenant_claim (decode_userinfo c raw)) tenant named in
    let (at_subject, has_subject) = subject_of-some (decode_userinfo c raw) subject from in
    record {
      subject = subject;
      tenant = tenant;
      sub_or_name = at_subject;
      tenant_claim = at_tenant;
      has_subject = has_subject;
      has_tenant = has_tenant;
      actor_id = ground arith;
      tenant_id = ground arith;
      verified = ground arith;
    }

identity_from_userinfo-Claims :
    (c : Codec) (s : Settings) (header : Option String) (i : CallerIdentity)
    → identity_from_userinfo c s header ≡ some i
    → (raw : String) × (header ≡ some raw) × Claims c s raw i
unfolding identity_from_userinfo
identity_from_userinfo-Claims c s none i h = cc
identity_from_userinfo-Claims c s (some raw) i h = elim (Bool-cases (str_eq raw "")) [
  | inl e ↦ cc (rw e at h)
  | inr e ↦ (raw, refl, identity_of-Claims c s raw i _ refl _ refl (rw e at h))
]

text_of_nonempty :
    (c : Codec) (v : Value)
    → ((w : Value) → is_truthy w ≡ true → c.show w ≢ "")
    → is_truthy v ≡ true
    → text_of c v ≢ ""
text_of_nonempty c (str s) shown holds = λ e. ground (arith, eq_iff s "")
text_of_nonempty c null shown holds = cc
text_of_nonempty c (bool b) shown holds = shown (bool b) holds
text_of_nonempty c (int n) shown holds = shown (int n) holds
text_of_nonempty c (real n) shown holds = shown (real n) holds
text_of_nonempty c (obj fs) shown holds = shown (obj fs) holds
text_of_nonempty c (arr vs) shown holds = shown (arr vs) holds

-- Where anonymous callers are not allowed, and `str` of a value that counts is no empty text: a caller
-- that is accepted sent a header whose claims name a subject and a tenant that count, and it has those
-- as its actor and its tenant, which is not empty.
pub current_identity-Claims :
    (c : Codec) (s : Settings) (header : Option String) (i : CallerIdentity)
    → ((v : Value) → is_truthy v ≡ true → c.show v ≢ "")
    → allows_anonymous s ≡ false
    → current_identity c s header ≡ some i
    → ((raw : String) × (header ≡ some raw) × Claims c s raw i) × (i.tenant_id ≢ "")
unfolding current_identity
current_identity-Claims c s header i shown closed h =
    elim (Option-cases (identity_from_userinfo c s header)) [
      | inl e ↦ cc (rw (e, closed) at h)
      | inr (j, e) ↦
          let same : j ≡ i = cc (rw e at h) in
          let (raw, sent, claims) = identity_from_userinfo-Claims c s header i (rw (← same) e) in
          let nonempty = text_of_nonempty c claims.tenant shown claims.has_tenant in
          ((raw, sent, claims), λ empty. nonempty (cc (claims.tenant_id, empty)))
    ]
