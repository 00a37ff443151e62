-- ===== src/Security/Secrets/Parsing.antt =====
-- What is written as a reference is read back as it.
use mathlib.Core.List.{append_assoc, append-nil}
use favl_agentic_content_os.Prelude.{
  ℕ, ◌≡◌, ◌==◌, refl, sym, ap, ◌∙◌, true, false, some, [], ◌∷◌, ◌++◌, every, arith, &&-true,
}
use favl_agentic_content_os.Prelude.Text.{Text}
use favl_agentic_content_os.Security.Secrets.{
  Scope, connector, tenant, SecretRef, as_text, is_word_char, is_word, before_slash, split_slash,
  chomp, permitted, parse_reference, match_words,
}

not_slash : (c : ℕ) → is_word_char c ≡ true → (c == b'/') ≡ false
not_slash c h = ground arith

not_break : (c : ℕ) → is_word_char c ≡ true → (c == 10) ≡ false
not_break c h = ground arith

before_slash-word :
    (head word rest : Text)
    → every is_word_char word ≡ true
    → before_slash head (word ++ (b'/' ∷ rest)) ≡ some (head ++ word, rest)
before_slash-word head [] rest h = ap (λ t. some (t, rest)) (sym (append-nil head))
before_slash-word head (c ∷ s) rest h =
    let (here, later) = &&-true (is_word_char c) (every is_word_char s) h in
    rw (not_slash c here) (
      before_slash-word (head ++ c ∷ []) s rest later
      ∙ ap (λ t. some (t, rest)) (append_assoc head (c ∷ []) s))

chomp-word : (word : Text) → every is_word_char word ≡ true → chomp word ≡ word
chomp-word [] h = refl
chomp-word (c ∷ []) h =
    let (here, later) = &&-true (is_word_char c) true h in rw (not_break c here) refl
chomp-word (c ∷ d ∷ s) h =
    let (here, later) = &&-true (is_word_char c) (every is_word_char (d ∷ s)) h in
    ap (λ t. c ∷ t) (chomp-word (d ∷ s) later)

match_words-lem :
    (scope : Scope) (owner key : Text)
    → is_word owner ≡ true
    → is_word key ≡ true
    → match_words scope (split_slash (owner ++ (b'/' ∷ key)))
      ≡ permitted (record { scope = scope; owner = owner; key = key })
match_words-lem scope owner key o k =
    let owner_chars = (&&-true (every is_word_char owner) _ o).0 in
    let key_chars = (&&-true (every is_word_char key) _ k).0 in
    rw (before_slash-word [] owner key owner_chars, chomp-word key key_chars, o, k) refl

-- The text of a reference whose owner and key are of 1 to 128 permitted characters is read back as
-- that reference.
pub parse_reference-as_text :
    (r : SecretRef)
    → is_word r.owner ≡ true
    → is_word r.key ≡ true
    → parse_reference (as_text r) ≡ permitted r
unfolding parse_reference as_text
parse_reference-as_text r o k = go r.scope
  where
    go :
        (s : Scope)
        → parse_reference (as_text (record r { scope = s })) ≡ permitted (record r { scope = s })
    go connector = match_words-lem connector r.owner r.key o k
    go tenant = match_words-lem tenant r.owner r.key o k
