-- ===== src/Adapters/Webhook/Signature.antt =====
-- What the signature of adapters/webhook.py binds.
use mathlib.Core.List.{head-eq_of_cons-eq, tail-eq_of_cons-eq}
use favl_agentic_content_os.Prelude.{
  ◌==◌, ◌≡◌, refl, String, append, eq_iff, Bool, true, not, [], ◌∷◌, ◌++◌, every, arith, &&-true,
}
use favl_agentic_content_os.Prelude.Text.{Text, codes}
use favl_agentic_content_os.Adapters.Webhook.{signed_text, build_signature, verify_signature}

-- No dot stands in the text, as in a UUID or a number.
abbrev pub is_undotted : Text → Bool
is_undotted s = every (λ c. not (c == b'.')) s

-- A text without dots ends at the first dot.
undotted_prefix :
    (a b : Text) (s t : Text)
    → is_undotted a ≡ true
    → is_undotted b ≡ true
    → a ++ (b'.' ∷ s) ≡ b ++ (b'.' ∷ t)
    → (a ≡ b) × (s ≡ t)
undotted_prefix [] [] s t ha hb h = (refl, tail-eq_of_cons-eq h)
undotted_prefix [] (d ∷ b) s t ha hb h = let e = head-eq_of_cons-eq h in absurd (ground arith)
undotted_prefix (c ∷ a) [] s t ha hb h = let e = head-eq_of_cons-eq h in absurd (ground arith)
undotted_prefix (c ∷ a) (d ∷ b) s t ha hb h =
    let e = head-eq_of_cons-eq h in
    let (front, rest) =
      undotted_prefix a b s t (&&-true _ _ ha).1 (&&-true _ _ hb).1 (tail-eq_of_cons-eq h) in
    (rw (e, front) refl, rest)

-- The bytes that are signed determine the event, the time and the body, if no dot stands in the ids and
-- times: a signature is of one delivery, so far as the HMAC tells different bytes apart.
pub signed_text-injective :
    (event_id event_id' timestamp timestamp' body body' : Text)
    → is_undotted event_id ≡ true
    → is_undotted event_id' ≡ true
    → is_undotted timestamp ≡ true
    → is_undotted timestamp' ≡ true
    → signed_text event_id timestamp body ≡ signed_text event_id' timestamp' body'
    → (event_id ≡ event_id') × (timestamp ≡ timestamp') × (body ≡ body')
unfolding signed_text
signed_text-injective e e' t t' b b' he he' ht ht' h =
    let (same_id, rest) = undotted_prefix e e' _ _ he he' h in
    let (same_time, same_body) = undotted_prefix t t' b b' ht ht' rest in
    (same_id, same_time, same_body)

v1_cancel : (x y : String) → append "v1=" x ≡ append "v1=" y → x ≡ y
v1_cancel x y h = cc h

-- A receiver that accepts the signature of one delivery for another has the same event, time and body
-- before it, if no dot stands in the ids and times and the HMAC tells the two signed texts apart.
pub verify_signature-same :
    (hmac : String → Text → String) (key event_id event_id' timestamp timestamp' : String)
    (body body' : Text)
    → (hmac key (signed_text (codes event_id') (codes timestamp') body')
          ≡ hmac key (signed_text (codes event_id) (codes timestamp) body)
        → signed_text (codes event_id') (codes timestamp') body'
          ≡ signed_text (codes event_id) (codes timestamp) body)
    → is_undotted (codes event_id) ≡ true
    → is_undotted (codes event_id') ≡ true
    → is_undotted (codes timestamp) ≡ true
    → is_undotted (codes timestamp') ≡ true
    → verify_signature hmac key event_id' timestamp' body'
        (build_signature hmac key event_id timestamp body)
      ≡ true
    → (codes event_id' ≡ codes event_id) × (codes timestamp' ≡ codes timestamp) × (body' ≡ body)
unfolding verify_signature build_signature
verify_signature-same hmac key e e' t t' body body' distinct he he' ht ht' h =
    signed_text-injective (codes e') (codes e) (codes t') (codes t) body' body he' he ht' ht
      (distinct (v1_cancel _ _ ((eq_iff _ _).0 h)))
