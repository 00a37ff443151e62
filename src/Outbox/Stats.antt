-- ===== src/Outbox/Stats.antt =====
-- `stats` of publisher.py: the rows of the outbox by their status, and the age of the oldest that waits.
use mathlib.Core.Path.{subst}
use favl_agentic_content_os.Prelude.{
  sym, ℕ, suc, ◌+◌, ◌-◌, ◌≤◌, ◌≡◌, refl, true, false, Option, none, some, List, [], ◌∷◌, length,
  select, min, leb, All, All-map, Bool-cases, inl, inr, arith, if◌then◌else◌,
}
use favl_agentic_content_os.Store.Rows.{OutboxEvent, OutboxStatus, pending, published, dead}
use favl_agentic_content_os.Outbox.Publisher.{same_status}

-- A difference of two times, which is below zero where a row comes from a clock that runs ahead.
pub data Age : Type 0 where
  since : ℕ → Age
  ahead : ℕ → Age

pub record OutboxStats : Type 0 where
  pub pending_rows : ℕ
  pub dead_rows : ℕ
  pub published_rows : ℕ
  pub oldest_pending_age : Option Age

-- SELECT count(*) … GROUP BY status, at one status.
unfoldable pub count_status : OutboxStatus → List OutboxEvent → ℕ
count_status s rows = length (select (λ row. same_status row.status s) rows)

abbrev pub least : Option ℕ → ℕ → Option ℕ
least none t = some t
least (some u) t = some (min u t)

-- SELECT min(created_at) … WHERE status = 'pending'
unfoldable pub oldest_pending : List OutboxEvent → Option ℕ
oldest_pending [] = none
oldest_pending (row ∷ rest) =
    let later = oldest_pending rest in
    if same_status row.status pending then least later row.created_at else later

abbrev pub age_at : ℕ → Option ℕ → Option Age
age_at now none = none
age_at now (some t) = some (if leb t now then since (now - t) else ahead (t - now))

unfoldable pub stats : ℕ → List OutboxEvent → OutboxStats
unfolding count_status oldest_pending
stats now rows = record {
  pending_rows = count_status pending rows;
  dead_rows = count_status dead rows;
  published_rows = count_status published rows;
  oldest_pending_age = age_at now (oldest_pending rows);
}

-- Each row is counted once.
pub stats_total :
    (now : ℕ) (rows : List OutboxEvent)
    → let s = stats now rows in s.pending_rows + (s.dead_rows + s.published_rows) ≡ length rows
unfolding stats count_status
stats_total now [] = refl
stats_total now (row ∷ rest) = go row.status refl (stats_total now rest)
  where
    go :
        (s : OutboxStatus)
        → row.status ≡ s
        → count_status pending rest + (count_status dead rest + count_status published rest)
          ≡ length rest
        → count_status pending (row ∷ rest)
            + (count_status dead (row ∷ rest) + count_status published (row ∷ rest))
          ≡ suc (length rest)
    go pending e h = rw e (omega (arith, h))
    go dead e h = rw e (omega (arith, h))
    go published e h = rw e (omega (arith, h))

-- Without a time no row waits; a time is of the oldest row that waits.
abbrev pub IsOldest : Option ℕ → OutboxEvent → Type 0
IsOldest none row = same_status row.status pending ≡ false
IsOldest (some t) row = same_status row.status pending ≡ true → t ≤ row.created_at

least-IsOldest :
    (o : Option ℕ) (t : ℕ) (row : OutboxEvent) → IsOldest o row → IsOldest (least o t) row
least-IsOldest none t row h = λ w. cc (h, w)
least-IsOldest (some u) t row h = λ w. omega (arith, h w)

least-le : (o : Option ℕ) (row : OutboxEvent) → IsOldest (least o row.created_at) row
least-le none row = λ w. omega arith
least-le (some u) row = λ w. omega arith

settled-IsOldest :
    (o : Option ℕ) (row : OutboxEvent) → same_status row.status pending ≡ false → IsOldest o row
settled-IsOldest none row h = h
settled-IsOldest (some t) row h = λ w. cc (h, w)

waiting_first :
    (row : OutboxEvent) (rest : List OutboxEvent)
    → same_status row.status pending ≡ true
    → oldest_pending (row ∷ rest) ≡ least (oldest_pending rest) row.created_at
unfolding oldest_pending
waiting_first row rest e = rw e refl

settled_first :
    (row : OutboxEvent) (rest : List OutboxEvent)
    → same_status row.status pending ≡ false
    → oldest_pending (row ∷ rest) ≡ oldest_pending rest
unfolding oldest_pending
settled_first row rest e = rw e refl

pub oldest_pending-IsOldest : (rows : List OutboxEvent) → All (IsOldest (oldest_pending rows)) rows
oldest_pending-IsOldest [] = tt
oldest_pending-IsOldest (row ∷ rest) =
    let later = oldest_pending rest in
    elim (Bool-cases (same_status row.status pending)) [
      | inl e ↦
          subst (λ o. All (IsOldest o) (row ∷ rest)) (sym (waiting_first row rest e))
            (
              least-le later row,
              All-map (IsOldest later) (IsOldest (least later row.created_at))
                  (least-IsOldest later row.created_at) rest (oldest_pending-IsOldest rest),
            )
      | inr e ↦
          subst (λ o. All (IsOldest o) (row ∷ rest)) (sym (settled_first row rest e))
            (settled-IsOldest later row e, oldest_pending-IsOldest rest)
    ]
