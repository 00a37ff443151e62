-- ===== src/Outbox/Delivery.antt =====
-- What a consumer that obeys `version_decision` of consumer.py makes of an outbox whose events are
-- delivered in order, each at least once.
use mathlib.Core.List.{append-nil, nil≢cons, cons≢nil, head-eq_of_cons-eq, tail-eq_of_cons-eq}
use favl_agentic_content_os.Prelude.{
  ℕ, zero, suc, ◌+◌, ◌≤◌, ◌≡◌, sym, ap, ◌∙◌, Option, none, some, List, [], ◌∷◌, ◌++◌, In, All,
  All-In, All-map, arith, count_up, count_up-cons,
}
use favl_agentic_content_os.Outbox.Ordering.{
  applied, Redelivers, done, again, next, applied-Redelivers,
}

-- The messages that a consumer may receive for a list of events: each in turn, and any that was
-- delivered before once more at any time. The first list is of those delivered, the second of those
-- still to come.
pub data Delivers : List ℕ → List ℕ → List (Option ℕ) → Type 0 where
  all_delivered : {seen : List ℕ} → Delivers seen [] []
  deliver :
      {seen rest : List ℕ} {xs : List (Option ℕ)} (v : ℕ)
      → Delivers (v ∷ seen) rest xs
      → Delivers seen (v ∷ rest) (some v ∷ xs)
  redeliver :
      {seen rest : List ℕ} {xs : List (Option ℕ)} (v : ℕ)
      → In v seen
      → Delivers seen rest xs
      → Delivers seen rest (some v ∷ xs)

-- The numbers after n, k of them.
abbrev pub up_from : ℕ → ℕ → List ℕ
up_from n zero = []
up_from n (suc k) = suc n ∷ up_from (suc n) k

pub count_up-split : (n k : ℕ) → count_up n ++ up_from n k ≡ count_up (n + k)
count_up-split n zero = append-nil (count_up n) ∙ ap count_up (omega arith)
count_up-split n (suc k) =
    let shift : suc n + k ≡ n + suc k = omega arith in
    count_up-cons n (up_from (suc n) k) ∙ (count_up-split (suc n) k ∙ ap count_up shift)

abbrev Between : ℕ → ℕ → Type 0
Between n v = (1 ≤ v) × (v ≤ n)

wider : (n : ℕ) (seen : List ℕ) → All (Between n) seen → All (Between (suc n)) seen
wider n seen h =
    All-map (Between n) (Between (suc n)) (λ v b. (omega (arith, b.0), omega (arith, b.1))) seen h

pub redelivers :
    {seen rest : List ℕ} {xs : List (Option ℕ)} (n k m : ℕ)
    → Delivers seen rest xs
    → All (Between n) seen
    → rest ≡ up_from n k
    → n + k ≡ m
    → Redelivers n xs m
redelivers n zero m all_delivered h e total = let here : n ≡ m = omega arith in rw here (done m)
redelivers n (suc k) m all_delivered h e total = absurd (nil≢cons e)
redelivers n zero m (deliver v d) h e total = absurd (cons≢nil e)
redelivers {seen} n (suc k) m (deliver v d) h e total =
    let is_next = head-eq_of_cons-eq e in
    let covered : All (Between (suc n)) (v ∷ seen) =
      ((omega (arith, is_next), omega (arith, is_next)), wider n seen h) in
    rw is_next (next n (redelivers (suc n) k m d covered (tail-eq_of_cons-eq e) (omega arith)))
redelivers {seen} n k m (redeliver v i d) h e total =
    let b = All-In (Between n) v seen h i in
    again n v b.1 (omega (arith, b.0, b.1)) (redelivers n k m d h e total)

-- If the events carry 1, ..., n, the consumer applies each of them once, in order.
pub applied-Delivers :
    (n : ℕ) (versions : List ℕ) (messages : List (Option ℕ))
    → versions ≡ count_up n
    → Delivers [] versions messages
    → applied none messages ≡ count_up n
unfolding count_up
applied-Delivers n versions messages ordered d =
    let from_none : 0 + n ≡ n = omega arith in
    let upward : count_up n ≡ up_from 0 n = sym (count_up-split 0 n ∙ ap count_up from_none) in
    applied-Redelivers messages n (redelivers 0 n n d tt (ordered ∙ upward) (omega arith))
