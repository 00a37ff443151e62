-- ===== src/Invocations/Once/Rows.antt =====
-- The rows of the table of invocations, counted by key and found by id.
use favl_agentic_content_os.Prelude.{
  ℕ, ◌+◌, ◌≡◌, refl, sym, ap, ◌∙◌, String, str_eq, eq_iff, Bool, true, false, ◌&&◌, Option, none,
  some, List, [], ◌∷◌, ◌++◌, arith, Bool-cases, or_false, &&-true, inl, inr, if◌then◌else◌,
}
use mathlib.Core.Option.{some-injective}
use favl_agentic_content_os.Store.Rows.{InvocationRecord}
use favl_agentic_content_os.Invocations.Results.{InvocationRequest}
use favl_agentic_content_os.Invocations.Accept.{has_key, breaks_constraint}
use favl_agentic_content_os.Invocations.Execute.{put_invocation}

-- How many items pass a test.
abbrev pub tally {ℓ} : {A : Type ℓ} → (A → Bool) → List A → ℕ
tally test [] = 0
tally test (x ∷ xs) = (if test x then 1 else 0) + tally test xs

pub tally-append {ℓ} :
    {A : Type ℓ} (test : A → Bool) (xs ys : List A)
    → tally test (xs ++ ys) ≡ tally test xs + tally test ys
tally-append test [] ys = omega arith
tally-append test (x ∷ xs) ys = omega (arith, tally-append test xs ys)

-- The request is for this key.
abbrev pub asks : String → String → String → InvocationRequest → Bool
asks tenant connector key q =
    str_eq q.tenant_id tenant && (str_eq q.connector_id connector && str_eq q.idempotency_key key)

-- The row with an id, and the columns of a key.
abbrev pub row_of : String → List InvocationRecord → Option InvocationRecord
row_of id [] = none
row_of id (r ∷ rs) = if str_eq r.id id then some r else row_of id rs

abbrev pub SameKey : InvocationRecord → InvocationRecord → Type 0
SameKey a b =
    (a.tenant_id ≡ b.tenant_id)
    × (a.connector_id ≡ b.connector_id)
    × (a.idempotency_key ≡ b.idempotency_key)

abbrev pub Owned : List InvocationRecord → InvocationRecord → Type 0
Owned rows r = (e : InvocationRecord) × (row_of r.id rows ≡ some e) × SameKey e r

pub same_has_key :
    (tenant connector key : String) (a b : InvocationRecord)
    → SameKey a b
    → has_key tenant connector key a ≡ has_key tenant connector key b
same_has_key tenant connector key a b (t, c, k) = rw (t, c, k) refl

-- The update of an owned row.
pub tally-put_invocation :
    (tenant connector key : String) (r : InvocationRecord) (rows : List InvocationRecord)
    → Owned rows r
    → tally (has_key tenant connector key) (put_invocation r rows)
      ≡ tally (has_key tenant connector key) rows
unfolding put_invocation
tally-put_invocation tenant connector key r [] (e, found, same) = cc found
tally-put_invocation tenant connector key r (x ∷ xs) (e, found, same) =
    elim (Bool-cases (str_eq x.id r.id)) [
      | inl q ↦
          let first : x ≡ e = some-injective x e (rw q at found) in
          rw (q, first, same_has_key tenant connector key e r same) refl
      | inr q ↦
          let rest = tally-put_invocation tenant connector key r xs (e, rw q at found, same) in
          rw q (omega (arith, rest))
    ]

-- A row that took the place of the first one of its id, seen by its own id or another.
put_first-Owned :
    (r o x e' : InvocationRecord) (xs : List InvocationRecord)
    → x.id ≡ r.id
    → SameKey x r
    → row_of o.id (x ∷ xs) ≡ some e'
    → SameKey e' o
    → Owned (r ∷ xs) o
put_first-Owned r o x e' xs id (t, c, k) found (t', c', k') = elim (Bool-cases (str_eq r.id o.id)) [
  | inl q ↦
      let q' : str_eq x.id o.id ≡ true = ap (λ i. str_eq i o.id) id ∙ q in
      let first : x ≡ e' = some-injective x e' (rw q' at found) in
      (
        r,
        rw q refl,
        (
          sym t ∙ (ap (λ y. y.tenant_id) first ∙ t'),
          sym c ∙ (ap (λ y. y.connector_id) first ∙ c'),
          sym k ∙ (ap (λ y. y.idempotency_key) first ∙ k'),
        ),
      )
  | inr q ↦
      let q' : str_eq x.id o.id ≡ false = ap (λ i. str_eq i o.id) id ∙ q in
      (e', rw q (rw q' at found), (t', c', k'))
]

pub put_invocation-Owned :
    (r o : InvocationRecord) (rows : List InvocationRecord)
    → Owned rows r
    → Owned rows o
    → Owned (put_invocation r rows) o
unfolding put_invocation
put_invocation-Owned r o [] (e, found, same) other = cc found
put_invocation-Owned r o (x ∷ xs) (e, found, same) (e', found', same') =
    elim (Bool-cases (str_eq x.id r.id)) [
      | inl q ↦
          let first : x ≡ e = some-injective x e (rw q at found) in
          rw q (put_first-Owned r o x e' xs ((eq_iff x.id r.id).0 q) (rw first same) found' same')
      | inr q ↦ elim (Bool-cases (str_eq x.id o.id)) [
        | inl p ↦ rw (q, p) (e', rw p at found', same')
        | inr p ↦
            rw (q, p)
              (put_invocation-Owned r o xs (e, rw q at found, same) (e', rw p at found', same'))
      ]
    ]

pub row_of-append_left :
    (id : String) (rows : List InvocationRecord) (r e : InvocationRecord)
    → row_of id rows ≡ some e
    → row_of id (rows ++ r ∷ []) ≡ some e
row_of-append_left id [] r e found = cc found
row_of-append_left id (x ∷ xs) r e found = elim (Bool-cases (str_eq x.id id)) [
  | inl q ↦ rw q (rw q at found)
  | inr q ↦ rw q (row_of-append_left id xs r e (rw q at found))
]

pub row_of-append_self :
    (rows : List InvocationRecord) (r : InvocationRecord)
    → breaks_constraint r rows ≡ false
    → row_of r.id (rows ++ r ∷ []) ≡ some r
unfolding breaks_constraint
row_of-append_self [] r b = rw ((eq_iff r.id r.id).1 refl) refl
row_of-append_self (x ∷ xs) r b =
    let (apart, rest) = or_false _ _ b in
    let (other, _) = or_false (str_eq x.id r.id) _ apart in rw other (row_of-append_self xs r rest)

-- A row with a new key meets none with that key.
pub unused_key :
    (tenant connector key : String) (rows : List InvocationRecord) (r : InvocationRecord)
    → breaks_constraint r rows ≡ false
    → has_key tenant connector key r ≡ true
    → tally (has_key tenant connector key) rows ≡ 0
unfolding breaks_constraint
unused_key tenant connector key [] r b h = refl
unused_key tenant connector key (x ∷ xs) r b h =
    let (apart, rest) = or_false _ _ b in
    let (_, other) = or_false (str_eq x.id r.id) _ apart in
    let (t, ck) = &&-true _ _ h in
    let (c, k) = &&-true _ _ ck in
    let unlike : has_key tenant connector key x ≡ false =
      rw
        (
          (eq_iff r.tenant_id tenant).0 t,
          (eq_iff r.connector_id connector).0 c,
          (eq_iff r.idempotency_key key).0 k,
        )
        at other in
    rw unlike (omega (arith, unused_key tenant connector key xs r rest h))
