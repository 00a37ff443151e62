-- ===== src/Outbox/Publisher/Rows.antt =====
-- What a drain of publisher.py does to the rows of the outbox.
use favl_agentic_content_os.Prelude.{
  length-take, All-take, All-select, All-sort_by, ℕ, ◌+◌, ◌≤◌, ◌<◌, ◌≡◌, refl, ◌∙◌, String, str_eq,
  Bool, List, [], ◌∷◌, leb, length, length-append, select, sort_by, All, arith, Bool-cases, inl,
  inr,
}
use favl_agentic_content_os.Store.Rows.{OutboxEvent, pending, dead}
use favl_agentic_content_os.Outbox.Timing.{RetryPolicy}
use favl_agentic_content_os.Outbox.Publisher.{
  DrainResult, Ack, acked, failed_with, is_due, claim, limit, publish_row, count_row, put_row,
  Environment, publish_all, drain_once,
}

-- A pending row has an attempt left, and a dead one has used its attempts up.
pub record IsAccounted (policy : RetryPolicy) (row : OutboxEvent) : Type 0 where
  pub retries_left : row.status ≡ pending → row.attempts < limit policy row
  pub exhausted : row.status ≡ dead → limit policy row ≤ row.attempts

publish_row-IsAccounted :
    (policy : RetryPolicy) (now draw : ℕ) (answer : Ack) (row : OutboxEvent)
    → IsAccounted policy row
    → IsAccounted policy (publish_row policy now draw answer row)
unfolding publish_row
publish_row-IsAccounted policy now draw (acked seq) row h = record {
  retries_left = λ e. cc;
  exhausted = λ e. cc;
}
publish_row-IsAccounted policy now draw (failed_with why) row h =
    elim (Bool-cases (leb (limit policy row) (row.attempts + 1))) [
      | inl e ↦ rw e (record { retries_left = λ p. cc; exhausted = λ p. ground arith })
      | inr e ↦ rw e (record {
        retries_left = λ p. ground arith;
        exhausted = λ p. omega (arith, h.exhausted p);
      })
    ]

module _ (P : OutboxEvent → Type 0) where
  pub All-put_row :
      (r : OutboxEvent) (rows : List OutboxEvent) → P r → All P rows → All P (put_row r rows)
  unfolding put_row
  All-put_row r [] p h = tt
  All-put_row r (e ∷ es) p h = elim (Bool-cases (str_eq e.id r.id)) [
    | inl q ↦ rw q (p, h.1)
    | inr q ↦ rw q (h.0, All-put_row r es p h.1)
  ]

  pub All-claim :
      (n now : ℕ) (locked : String → Bool) (rows : List OutboxEvent)
      → All P rows
      → All P (claim n now locked rows)
  unfolding claim
  All-claim n now locked rows h =
      All-take P n _ (All-sort_by P _ _ (All-select P (is_due now locked) rows h))

publish_all-All :
    (policy : RetryPolicy) (now : ℕ) (env : Environment) (claimed rows : List OutboxEvent)
    (result : DrainResult)
    → All (IsAccounted policy) claimed
    → All (IsAccounted policy) rows
    → All (IsAccounted policy) (publish_all policy now env claimed (rows, result)).0
unfolding publish_all
publish_all-All policy now env [] rows result c h = h
publish_all-All policy now env (row ∷ rest) rows result c h =
    let row' = publish_row policy now (env.draw row) (env.answer row) row in
    publish_all-All policy now env rest (put_row row' rows) _ c.1 (
      All-put_row (IsAccounted policy) row' rows
        (publish_row-IsAccounted policy now (env.draw row) (env.answer row) row c.0) h)

-- A drain keeps the accounts of the table: each pending row has an attempt left under the runtime
-- limit, and each dead row has used its attempts up.
pub drain_once-IsAccounted :
    (policy : RetryPolicy) (batch_size now : ℕ) (locked : String → Bool) (env : Environment)
    (rows : List OutboxEvent)
    → All (IsAccounted policy) rows
    → All (IsAccounted policy) (drain_once policy batch_size now locked env rows).0
unfolding drain_once
drain_once-IsAccounted policy batch_size now locked env rows h =
    publish_all-All policy now env (claim batch_size now locked rows) rows _
      (All-claim (IsAccounted policy) batch_size now locked rows h) h

-- The counters agree with one another and with the number of rows that were claimed.
abbrev pub Balanced : DrainResult → ℕ → Type 0
Balanced r n =
    (r.published_count + r.failed ≡ n)
    × (r.dead_lettered ≤ r.failed)
    × (length r.subjects ≡ r.published_count)

count_row-Balanced :
    (policy : RetryPolicy) (answer : Ack) (row : OutboxEvent) (r : DrainResult) (n : ℕ)
    → Balanced r n
    → Balanced (count_row policy answer row r) (n + 1)
unfolding count_row
count_row-Balanced policy (acked seq) row r n h =
    (omega arith, omega arith, omega (arith, length-append r.subjects (row.subject ∷ [])))
count_row-Balanced policy (failed_with why) row r n h = (omega arith, ground arith, omega arith)

publish_all-Balanced :
    (policy : RetryPolicy) (now : ℕ) (env : Environment) (claimed rows : List OutboxEvent)
    (result : DrainResult) (n : ℕ)
    → Balanced result n
    → Balanced (publish_all policy now env claimed (rows, result)).1 (n + length claimed)
unfolding publish_all
publish_all-Balanced policy now env [] rows result n h = ground arith
publish_all-Balanced policy now env (row ∷ rest) rows result n h =
    let (total, deaths, texts) =
      publish_all-Balanced policy now env rest
        (put_row (publish_row policy now (env.draw row) (env.answer row) row) rows)
        (count_row policy (env.answer row) row result) (n + 1)
        (count_row-Balanced policy (env.answer row) row result n h) in
    (omega arith, deaths, texts)

-- The count of claims is left alone by the loop.
publish_all-claimed :
    (policy : RetryPolicy) (now : ℕ) (env : Environment) (claimed rows : List OutboxEvent)
    (result : DrainResult)
    → (publish_all policy now env claimed (rows, result)).1.claimed ≡ result.claimed
unfolding publish_all count_row
publish_all-claimed policy now env [] rows result = refl
publish_all-claimed policy now env (row ∷ rest) rows result =
    publish_all-claimed policy now env rest _ _ ∙ same (env.answer row)
  where
    same : (a : Ack) → (count_row policy a row result).claimed ≡ result.claimed
    same (acked seq) = refl
    same (failed_with why) = refl

-- Every claimed row is published or counted as failed, a dead-lettered row is a failed one, each
-- published row leaves its subject, and no more than a batch is claimed.
pub drain_once-Balanced :
    (policy : RetryPolicy) (batch_size now : ℕ) (locked : String → Bool) (env : Environment)
    (rows : List OutboxEvent)
    → let r = (drain_once policy batch_size now locked env rows).1 in
      Balanced r r.claimed × (r.claimed ≤ batch_size)
unfolding drain_once claim
drain_once-Balanced policy batch_size now locked env rows =
    let claimed = claim batch_size now locked rows in
    let start : DrainResult = record {
      claimed = length claimed;
      published_count = 0;
      failed = 0;
      dead_lettered = 0;
      subjects = [];
    } in
    let kept = publish_all-claimed policy now env claimed rows start in
    let (total, deaths, texts) =
      publish_all-Balanced policy now env claimed rows start 0 (refl, omega arith, refl) in
    let few : length claimed ≤ batch_size =
      length-take batch_size (sort_by (λ e. e.created_at) (select (is_due now locked) rows)) in
    ((omega (arith, kept, total), deaths, texts), omega (arith, kept, few))
