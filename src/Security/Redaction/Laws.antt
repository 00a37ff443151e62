-- ===== src/Security/Redaction/Laws.antt =====
-- Redacting twice is redacting once.
use favl_agentic_content_os.Prelude.{
  ℕ, String, ◌≡◌, refl, ap, Bool, false, ◌||◌, arith, Bool-cases, inl, inr,
}
use favl_agentic_content_os.Json.{
  ℤ, Value, Items, Fields, null, bool, int, real, str, arr, obj, nil, cons, end, field,
}
use favl_agentic_content_os.Security.Redaction.{
  redacted, is_sensitive, is_headers, has_reference_prefix, is_reference, redact_value,
  redact_headers, redact_any, redact_items, redact_config,
}

redacted_no_reference : is_reference redacted ≡ false
unfolding has_reference_prefix
redacted_no_reference = refl

redact_headers_twice : (fs : Fields) → redact_headers (redact_headers fs) ≡ redact_headers fs
unfolding redact_headers
redact_headers_twice end = refl
redact_headers_twice (field h v rest) = elim (Bool-cases (is_reference v)) [
  | inl e ↦ rw e (rw e (ap (field h v) (redact_headers_twice rest)))
  | inr e ↦ rw e (rw redacted_no_reference (ap (field h redacted) (redact_headers_twice rest)))
]

module _ (key : String) (p : Bool) where
  redact_any-redacted : redact_any key redacted p ≡ redacted
  unfolding redact_any redact_value
  redact_any-redacted = ground (arith, redacted_no_reference)

  redact_str_twice :
      (s : String) → redact_any key (redact_any key (str s) p) p ≡ redact_any key (str s) p
  unfolding redact_any redact_value
  redact_str_twice s = ground (arith, redacted_no_reference)

  redact_null_twice : redact_any key (redact_any key null p) p ≡ redact_any key null p
  unfolding redact_any redact_value
  redact_null_twice = ground (arith, redacted_no_reference)

  redact_bool_twice :
      (b : Bool) → redact_any key (redact_any key (bool b) p) p ≡ redact_any key (bool b) p
  unfolding redact_any redact_value
  redact_bool_twice b = ground (arith, redacted_no_reference)

  redact_int_twice :
      (n : ℤ) → redact_any key (redact_any key (int n) p) p ≡ redact_any key (int n) p
  unfolding redact_any redact_value
  redact_int_twice n = ground (arith, redacted_no_reference)

  redact_real_twice :
      (n : ℕ) → redact_any key (redact_any key (real n) p) p ≡ redact_any key (real n) p
  unfolding redact_any redact_value
  redact_real_twice n = ground (arith, redacted_no_reference)

  redact_obj_twice :
      (fs : Fields)
      → redact_config (redact_config fs (p || is_sensitive key)) (p || is_sensitive key)
        ≡ redact_config fs (p || is_sensitive key)
      → redact_any key (redact_any key (obj fs) p) p ≡ redact_any key (obj fs) p
  unfolding redact_any
  redact_obj_twice fs ih = elim (Bool-cases (is_headers key)) [
    | inl e ↦ rw e (rw e (ap obj (redact_headers_twice fs)))
    | inr e ↦ rw e (rw e (ap obj ih))
  ]

mutual
  unfolding redact_any redact_items redact_config

  redact_any_twice :
      (key : String) (v : Value) (p : Bool)
      → redact_any key (redact_any key v p) p ≡ redact_any key v p
  redact_any_twice key (obj fs) p =
      redact_obj_twice key p fs (redact_config_twice fs (p || is_sensitive key))
  redact_any_twice key (arr vs) p = ap arr (redact_items_twice key vs (p || is_sensitive key))
  redact_any_twice key null p = redact_null_twice key p
  redact_any_twice key (bool b) p = redact_bool_twice key p b
  redact_any_twice key (int n) p = redact_int_twice key p n
  redact_any_twice key (real n) p = redact_real_twice key p n
  redact_any_twice key (str s) p = redact_str_twice key p s

  redact_items_twice :
      (key : String) (vs : Items) (p : Bool)
      → redact_items key (redact_items key vs p) p ≡ redact_items key vs p
  redact_items_twice key nil p = refl
  redact_items_twice key (cons v vs) p = cc (redact_any_twice key v p, redact_items_twice key vs p)

  redact_config_twice :
      (fs : Fields) (p : Bool) → redact_config (redact_config fs p) p ≡ redact_config fs p
  redact_config_twice end p = refl
  redact_config_twice (field key v rest) p =
      cc (redact_any_twice key v p, redact_config_twice rest p)

-- Redacting a redacted configuration changes nothing.
pub redact_config_idem :
    (fs : Fields) (p : Bool) → redact_config (redact_config fs p) p ≡ redact_config fs p
redact_config_idem = redact_config_twice
