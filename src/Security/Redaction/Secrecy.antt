-- ===== src/Security/Redaction/Secrecy.antt =====
-- What a reader of a redacted configuration cannot tell apart.
use favl_agentic_content_os.Prelude.{
  String, ◌≡◌, refl, ap, Bool, true, false, not, ◌||◌, arith, inl, inr, ◌⊎◌,
}
use favl_agentic_content_os.Json.{Value, Items, Fields, str, arr, obj, nil, cons, end, field}
use favl_agentic_content_os.Security.Redaction.{
  redacted, is_sensitive, is_structural, is_headers, has_reference_prefix, is_reference,
  redact_value, redact_headers, redact_any, redact_items, redact_config,
}

-- A text that the policy hides: the path to it is sensitive, or its key is not structural.
abbrev pub is_hidden : String → Bool → Bool
is_hidden key parent_sensitive = parent_sensitive || (is_sensitive key || not (is_structural key))

-- The two header maps agree in their names and in their references.
abbrev pub SameHeaders : Fields → Fields → Type 0
SameHeaders end end = Unit
SameHeaders (field h v r) (field k w s) =
    (h ≡ k) × ((v ≡ w) ⊎ ((is_reference v ≡ false) × (is_reference w ≡ false))) × SameHeaders r s
SameHeaders _ _ = ⊥

-- Two configurations that differ in hidden texts and in literal header values alone. The Boolean
-- says whether a key above is sensitive.
mutual
  pub data SameValue : String → Bool → Value → Value → Type 0 where
    same : (key : String) (p : Bool) (v : Value) → SameValue key p v v
    hidden :
        (key : String) (p : Bool) (s t : String)
        → is_hidden key p ≡ true
        → has_reference_prefix s ≡ false
        → has_reference_prefix t ≡ false
        → SameValue key p (str s) (str t)
    headers :
        (key : String) (p : Bool) (fs gs : Fields)
        → is_headers key ≡ true
        → SameHeaders fs gs
        → SameValue key p (obj fs) (obj gs)
    object :
        (key : String) (p : Bool) (fs gs : Fields)
        → is_headers key ≡ false
        → SameFields (p || is_sensitive key) fs gs
        → SameValue key p (obj fs) (obj gs)
    array :
        (key : String) (p : Bool) (vs ws : Items)
        → SameItems key (p || is_sensitive key) vs ws
        → SameValue key p (arr vs) (arr ws)

  pub data SameItems : String → Bool → Items → Items → Type 0 where
    none_left : (key : String) (p : Bool) → SameItems key p nil nil
    next :
        (key : String) (p : Bool) {v w : Value} {vs ws : Items}
        → SameValue key p v w
        → SameItems key p vs ws
        → SameItems key p (cons v vs) (cons w ws)

  pub data SameFields : Bool → Fields → Fields → Type 0 where
    done : (p : Bool) → SameFields p end end
    more :
        (key : String) (p : Bool) {v w : Value} {fs gs : Fields}
        → SameValue key p v w
        → SameFields p fs gs
        → SameFields p (field key v fs) (field key w gs)

same_headers : (fs gs : Fields) → SameHeaders fs gs → redact_headers fs ≡ redact_headers gs
unfolding redact_headers
same_headers end end h = refl
same_headers end (field k w s) h = absurd h
same_headers (field h v r) end s = absurd s
same_headers (field h v r) (field k w s) (e, inl q, t) = cc (same_headers r s t)
same_headers (field h v r) (field k w s) (e, inr (x, y), t) = rw (x, y, e, same_headers r s t) refl

hidden_text :
    (key : String) (p : Bool) (s : String)
    → is_hidden key p ≡ true
    → has_reference_prefix s ≡ false
    → redact_any key (str s) p ≡ redacted
unfolding redact_any redact_value
hidden_text key p s h r = ground arith

mutual
  unfolding redact_any redact_items redact_config

  same_value :
      {key : String} {p : Bool} {v w : Value}
      → SameValue key p v w
      → redact_any key v p ≡ redact_any key w p
  same_value (same key p v) = refl
  same_value (hidden key p s t h x y) = cc (hidden_text key p s h x, hidden_text key p t h y)
  same_value (headers key p fs gs e h) = rw e (ap obj (same_headers fs gs h))
  same_value (object key p fs gs e h) = rw e (ap obj (same_fields h))
  same_value (array key p vs ws h) = ap arr (same_items h)

  same_items :
      {key : String} {p : Bool} {vs ws : Items}
      → SameItems key p vs ws
      → redact_items key vs p ≡ redact_items key ws p
  same_items (none_left key p) = refl
  same_items (next key p v vs) = cc (same_value v, same_items vs)

  same_fields :
      {p : Bool} {fs gs : Fields} → SameFields p fs gs → redact_config fs p ≡ redact_config gs p
  same_fields (done p) = refl
  same_fields (more key p v vs) = cc (same_value v, same_fields vs)

-- Configurations that differ only in texts at hidden places and in literal header values are
-- published alike: what is published is no function of a secret that stands there.
pub redact_config-secrecy :
    (p : Bool) (fs gs : Fields) → SameFields p fs gs → redact_config fs p ≡ redact_config gs p
redact_config-secrecy p fs gs h = same_fields h
