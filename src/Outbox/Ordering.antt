-- ===== src/Outbox/Ordering.antt =====
-- `version_decision` of packages/favl-outbox/favl_outbox/consumer.py, and the projection that a
-- consumer builds by it.
use favl_agentic_content_os.Prelude.{
  ℕ, zero, suc, ◌+◌, ◌≤◌, ◌≡◌, refl, ap, ◌∙◌, ◌==◌, leb, Option, none, some, List, [], ◌∷◌, ◌++◌,
  arith, if◌then◌else◌, inl, inr, ◌⊎◌, length, count_up, count_up-cons,
}
use native.Mathlib.Numerals.{add-one}
use mathlib.Core.List.{append-nil}

pub data Decision : Type 0 where
  apply ignore quarantine : Decision

unfoldable pub version_decision : Option ℕ → Option ℕ → Decision
version_decision none last_applied = quarantine
version_decision (some incoming) none = if incoming == 1 then apply else quarantine
version_decision (some incoming) (some last) =
    if leb incoming last then ignore else if incoming == last + 1 then apply else quarantine

-- The versions that a consumer applies when it obeys the decisions, from its last applied version.
abbrev pub take_version : Decision → Option ℕ → Option ℕ → Option ℕ
take_version apply incoming last = incoming
take_version _ incoming last = last

abbrev pub add_version : Decision → Option ℕ → List ℕ → List ℕ
add_version apply (some v) vs = v ∷ vs
add_version _ incoming vs = vs

unfoldable pub applied : Option ℕ → List (Option ℕ) → List ℕ
applied last [] = []
applied last (incoming ∷ rest) =
    let decision = version_decision incoming last in
    add_version decision incoming (applied (take_version decision incoming last) rest)

-- The last applied version of a consumer that has applied 1, ..., n.
abbrev pub as_last : ℕ → Option ℕ
as_last zero = none
as_last (suc n) = some (suc n)

-- Whatever arrives, it is applied exactly if it is the next version.
decision_cases :
    (n : ℕ) (incoming : Option ℕ)
    → ((version_decision incoming (as_last n) ≡ apply) × (incoming ≡ some (n + 1)))
      ⊎ ((version_decision incoming (as_last n) ≡ ignore)
          ⊎ (version_decision incoming (as_last n) ≡ quarantine))
unfolding version_decision
decision_cases n none = inr (inr refl)
decision_cases zero (some v) = ground arith
decision_cases (suc n) (some v) = ground arith

next_applied :
    (n : ℕ) (rest : List (Option ℕ))
    → count_up (suc n) ++ applied (some (suc n)) rest
      ≡ count_up (suc n + length (applied (some (suc n)) rest))
    → count_up n ++ (n + 1) ∷ applied (some (n + 1)) rest
      ≡ count_up (n + suc (length (applied (some (n + 1)) rest)))
next_applied n rest ih =
    let next : n + 1 ≡ suc n = add-one n in
    rw next (count_up-cons n (applied (some (suc n)) rest) ∙ (ih ∙ ap count_up (omega arith)))

applied_prefix :
    (n : ℕ) (stream : List (Option ℕ))
    → count_up n ++ applied (as_last n) stream ≡ count_up (n + length (applied (as_last n) stream))
unfolding applied
applied_prefix n [] = append-nil (count_up n) ∙ ap count_up (omega arith)
applied_prefix n (incoming ∷ rest) = elim (decision_cases n incoming) [
  | inl (d, e) ↦ rw (d, e) (next_applied n rest (applied_prefix (suc n) rest))
  | inr (inl d) ↦ rw d (applied_prefix n rest)
  | inr (inr d) ↦ rw d (applied_prefix n rest)
]

-- Whatever events arrive, in whatever order and however often, the versions that a consumer applies
-- are 1, 2, ..., n: none is skipped, repeated or out of order.
pub applied-eq-count_up :
    (stream : List (Option ℕ)) → applied none stream ≡ count_up (length (applied none stream))
unfolding count_up
applied-eq-count_up stream =
    let e : 0 + length (applied none stream) ≡ length (applied none stream) = omega arith in
    applied_prefix 0 stream ∙ ap count_up e

-- A stream in which each event is the next version or one that was already delivered: what
-- at-least-once delivery of an ordered outbox gives.
pub data Redelivers : ℕ → List (Option ℕ) → ℕ → Type 0 where
  done : (n : ℕ) → Redelivers n [] n
  again :
      (n v : ℕ) {xs : List (Option ℕ)} {m : ℕ}
      → v ≤ n
      → 1 ≤ n
      → Redelivers n xs m
      → Redelivers n (some v ∷ xs) m
  next :
      (n : ℕ) {xs : List (Option ℕ)} {m : ℕ}
      → Redelivers (suc n) xs m
      → Redelivers n (some (suc n) ∷ xs) m

ignored : (n v : ℕ) → v ≤ n → 1 ≤ n → version_decision (some v) (as_last n) ≡ ignore
unfolding version_decision
ignored zero v h p = absurd (omega arith)
ignored (suc n) v h p = ground arith

accepted : (n : ℕ) → version_decision (some (suc n)) (as_last n) ≡ apply
unfolding version_decision
accepted zero = refl
accepted (suc n) = ground arith

redelivered :
    {n m : ℕ} {xs : List (Option ℕ)}
    → Redelivers n xs m
    → count_up n ++ applied (as_last n) xs ≡ count_up m
unfolding applied
redelivered (done n) = append-nil (count_up n)
redelivered (again n v h p r) = rw (ignored n v h p) (redelivered r)
redelivered (next n {xs = xs} r) =
    rw (accepted n) (count_up-cons n (applied (some (suc n)) xs) ∙ redelivered r)

-- If every version up to m arrives in order, each any number of times, a consumer applies each of
-- 1, ..., m exactly once.
pub applied-Redelivers :
    (xs : List (Option ℕ)) (m : ℕ) → Redelivers 0 xs m → applied none xs ≡ count_up m
unfolding count_up
applied-Redelivers xs m r = redelivered r
