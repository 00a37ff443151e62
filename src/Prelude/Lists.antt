-- ===== src/Prelude/Lists.antt =====
-- Lists over the native numbers: lengths, filters by a Boolean test, and predicates on all items.
use Prim.Native.Nat.{ℕ, zero, suc, ◌+◌, ◌≤◌}
use native.Mathlib.Numerals.{add-one}
use mathlib.Core.Path.{◌≡◌, refl, sym}
use mathlib.Core.Bool.{Bool, true, false, ◌&&◌, ◌||◌}
use mathlib.Core.Logic.{◌⊎◌, inl, inr}
use mathlib.Core.Option.{Option, none, some}
use mathlib.Core.List.{List, [], ◌∷◌, ◌++◌, append_assoc}
use native.Mathlib.Omega.{arith}
use favl_agentic_content_os.Prelude.Tests.{leb, if◌then◌else◌, Bool-cases}

module _ {ℓ} {A : Type ℓ} where
  abbrev pub length : List A → ℕ
  length [] = 0
  length (x ∷ xs) = suc (length xs)

  -- `[x for x in xs if keep(x)]`
  abbrev pub select : (A → Bool) → List A → List A
  select keep [] = []
  select keep (x ∷ xs) = let rest = select keep xs in if keep x then x ∷ rest else rest

  -- `any(test(x) for x in xs)`
  abbrev pub any : (A → Bool) → List A → Bool
  any test [] = false
  any test (x ∷ xs) = test x || any test xs

  abbrev pub every : (A → Bool) → List A → Bool
  every test [] = true
  every test (x ∷ xs) = test x && every test xs

  abbrev pub first : List A → Option A
  first [] = none
  first (x ∷ xs) = some x

  -- `xs[:n]`
  abbrev pub take : ℕ → List A → List A
  take zero xs = []
  take (suc n) [] = []
  take (suc n) (x ∷ xs) = x ∷ take n xs

  -- `sorted(xs, key=key)`, and SQL's ORDER BY: stable.
  unfoldable pub insert_by : (A → ℕ) → A → List A → List A
  insert_by key x [] = x ∷ []
  insert_by key x (y ∷ ys) = if leb (key x) (key y) then x ∷ y ∷ ys else y ∷ insert_by key x ys

  unfoldable pub sort_by : (A → ℕ) → List A → List A
  unfolding insert_by
  sort_by key [] = []
  sort_by key (x ∷ xs) = insert_by key x (sort_by key xs)

  pub length-append : (xs ys : List A) → length (xs ++ ys) ≡ length xs + length ys
  length-append [] ys = omega arith
  length-append (x ∷ xs) ys = omega (arith, length-append xs ys)

module _ {ℓ} {A : Type ℓ} where
  pub length-take : (n : ℕ) (xs : List A) → length (take n xs) ≤ n
  length-take zero xs = omega arith
  length-take (suc n) [] = omega arith
  length-take (suc n) (x ∷ xs) = omega (arith, length-take n xs)

-- `x` stands in the list, at a place that the proof names.
abbrev pub In : {A : Type 0} → A → List A → Type 0
In x [] = ⊥
In x (y ∷ ys) = (x ≡ y) ⊎ In x ys

module _ {ℓ κ} {A : Type ℓ} where
  abbrev pub All : (A → Type κ) → List A → Type κ
  All P [] = Unit
  All P (x ∷ xs) = P x × All P xs

  pub All-append : (P : A → Type κ) (xs ys : List A) → All P xs → All P ys → All P (xs ++ ys)
  All-append P [] ys hx hy = hy
  All-append P (x ∷ xs) ys hx hy = (hx.0, All-append P xs ys hx.1 hy)

  pub All-append_left : (P : A → Type κ) (xs ys : List A) → All P (xs ++ ys) → All P xs
  All-append_left P [] ys h = tt
  All-append_left P (x ∷ xs) ys h = (h.0, All-append_left P xs ys h.1)

  pub All-map : (P Q : A → Type κ) → ((x : A) → P x → Q x) → (xs : List A) → All P xs → All Q xs
  All-map P Q f [] h = tt
  All-map P Q f (x ∷ xs) h = (f x h.0, All-map P Q f xs h.1)

module _ {A : Type 0} where
  pub All-In : (P : A → Type 0) (x : A) (xs : List A) → All P xs → In x xs → P x
  All-In P x [] h i = absurd i
  All-In P x (y ∷ ys) h (inl e) = rw e h.0
  All-In P x (y ∷ ys) h (inr i) = All-In P x ys h.1 i

  -- The head of a selection stands in the list and passes the test.
  pub first-select :
      (keep : A → Bool) (xs : List A) (x : A)
      → first (select keep xs) ≡ some x
      → In x xs × (keep x ≡ true)
  first-select keep [] x h = cc
  first-select keep (y ∷ ys) x h = elim (Bool-cases (keep y)) [
    | inl e ↦ let same : y ≡ x = cc (rw e at h) in (inl (rw same refl), rw (← same) e)
    | inr e ↦ let (i, k) = first-select keep ys x (rw e at h) in (inr i, k)
  ]

  pub In-append_right : (x : A) (xs ys : List A) → In x ys → In x (xs ++ ys)
  In-append_right x [] ys h = h
  In-append_right x (y ∷ xs) ys h = inr (In-append_right x xs ys h)

  pub In-select :
      (keep : A → Bool) (xs : List A) (x : A) → In x (select keep xs) → In x xs × (keep x ≡ true)
  In-select keep [] x i = absurd i
  In-select keep (y ∷ ys) x i = elim (Bool-cases (keep y)) [
    | inl e ↦
        let j : (x ≡ y) ⊎ In x (select keep ys) = rw e at i in
        elim j [
          | inl p ↦ (inl p, rw p e)
          | inr k ↦ let (l, q) = In-select keep ys x k in (inr l, q)
        ]
    | inr e ↦ let (l, q) = In-select keep ys x (rw e at i) in (inr l, q)
  ]

  pub select-In :
      (keep : A → Bool) (xs : List A) (x : A) → In x xs → keep x ≡ true → In x (select keep xs)
  select-In keep [] x i h = absurd i
  select-In keep (y ∷ ys) x (inl p) h = rw (← p, h) (inl refl)
  select-In keep (y ∷ ys) x (inr i) h = elim (Bool-cases (keep y)) [
    | inl e ↦ rw e (inr (select-In keep ys x i h))
    | inr e ↦ rw e (select-In keep ys x i h)
  ]

  pub every-In :
      (test : A → Bool) (xs : List A) (x : A) → every test xs ≡ true → In x xs → test x ≡ true
  every-In test [] x h i = absurd i
  every-In test (y ∷ ys) x h (inl e) = rw e (ground arith)
  every-In test (y ∷ ys) x h (inr i) = every-In test ys x (ground arith) i

-- 1, 2, ..., n
unfoldable pub count_up : ℕ → List ℕ
count_up zero = []
count_up (suc n) = count_up n ++ suc n ∷ []

pub count_up-suc : (n : ℕ) → count_up (n + 1) ≡ count_up n ++ (n + 1) ∷ []
unfolding count_up
count_up-suc n = rw add-one refl

pub count_up-cons : (n : ℕ) (ys : List ℕ) → count_up n ++ suc n ∷ ys ≡ count_up (suc n) ++ ys
unfolding count_up
count_up-cons n ys = sym (append_assoc (count_up n) (suc n ∷ []) ys)

module _ {A : Type 0} (P : A → Type 0) where
  pub All-take : (n : ℕ) (xs : List A) → All P xs → All P (take n xs)
  All-take zero xs h = tt
  All-take (suc n) [] h = tt
  All-take (suc n) (x ∷ xs) h = (h.0, All-take n xs h.1)

  pub All-select : (keep : A → Bool) (xs : List A) → All P xs → All P (select keep xs)
  All-select keep [] h = tt
  All-select keep (x ∷ xs) h = elim (Bool-cases (keep x)) [
    | inl q ↦ rw q (h.0, All-select keep xs h.1)
    | inr q ↦ rw q (All-select keep xs h.1)
  ]

  pub All-insert_by :
      (key : A → ℕ) (x : A) (xs : List A) → P x → All P xs → All P (insert_by key x xs)
  unfolding insert_by
  All-insert_by key x [] p h = (p, tt)
  All-insert_by key x (y ∷ ys) p h = elim (Bool-cases (leb (key x) (key y))) [
    | inl q ↦ rw q (p, h)
    | inr q ↦ rw q (h.0, All-insert_by key x ys p h.1)
  ]

  pub All-sort_by : (key : A → ℕ) (xs : List A) → All P xs → All P (sort_by key xs)
  unfolding sort_by
  All-sort_by key [] h = tt
  All-sort_by key (x ∷ xs) h = All-insert_by key x (sort_by key xs) h.0 (All-sort_by key xs h.1)
