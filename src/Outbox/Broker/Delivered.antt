-- ===== src/Outbox/Broker/Delivered.antt =====
-- However drains end, nothing is marked as published that the broker has not taken, and the broker has
-- taken nothing that is not committed.
use favl_agentic_content_os.Prelude.{
  ℕ, ◌+◌, String, str_eq, eq_iff, ◌≡◌, inl, inr, refl, Bool, true, false, Option, List, [], ◌∷◌,
  ◌++◌, take, any, select, All, All-map, All-append, All-take, All-sort_by, arith, leb, Bool-cases,
  &&-true,
}
use favl_agentic_content_os.Store.Rows.{OutboxEvent, OutboxStatus, pending, published, dead}
use favl_agentic_content_os.Store.Tables.{event_row, enqueue}
use favl_agentic_content_os.Outbox.Timing.{RetryPolicy}
use favl_agentic_content_os.Outbox.Publisher.{
  DrainResult, Ack, acked, failed_with, same_status, is_due, claim, limit, fail_row, publish_row,
  put_row, Environment, publish_all, drain_once,
}
use favl_agentic_content_os.Outbox.Publisher.Rows.{All-put_row, All-claim}
use favl_agentic_content_os.Outbox.Broker.{
  Delivery, store_message, send_all, IsHonest, DeliveryStep, wrote, drained, crashed, Evolves,
  at_first, and_then,
}

abbrev pub IsWaiting : OutboxEvent → Type 0
IsWaiting row = row.status ≡ pending

is_pending : (s : OutboxStatus) → same_status s pending ≡ true → s ≡ pending
is_pending pending h = refl
is_pending published h = cc
is_pending dead h = cc

-- A claimed row is pending.
claim-IsWaiting :
    (n now : ℕ) (locked : String → Bool) (rows : List OutboxEvent)
    → All IsWaiting (claim n now locked rows)
unfolding claim is_due
claim-IsWaiting n now locked rows =
    All-take IsWaiting n _ (All-sort_by IsWaiting (λ e. e.created_at) _ (selected rows))
  where
    selected : (rows : List OutboxEvent) → All IsWaiting (select (is_due now locked) rows)
    selected [] = tt
    selected (row ∷ rest) = elim (Bool-cases (is_due now locked row)) [
      | inl due ↦
          rw due (
            is_pending row.status (&&-true (same_status row.status pending) _ due).0,
            selected rest,
          )
      | inr not_due ↦ rw not_due (selected rest)
    ]

-- The row is published only if the broker has taken its message.
abbrev pub IsBacked : List String → OutboxEvent → Type 0
IsBacked taken row = row.status ≡ published → any (str_eq row.id) taken ≡ true

-- The table has a row of this id.
abbrev pub IsCommitted : List OutboxEvent → String → Type 0
IsCommitted rows id = any (λ row. str_eq row.id id) rows ≡ true

pub record IsDelivered (d : Delivery) : Type 0 where
  pub backed : All (IsBacked d.taken) d.rows
  pub committed : All (IsCommitted d.rows) d.taken

-- What was taken stays taken.
stays :
    (r : Bool) (id j : String) (taken : List String)
    → any (str_eq j) taken ≡ true
    → any (str_eq j) (store_message r id taken) ≡ true
stays true id j taken h = ground arith
stays false id j taken h = h

send_all_stays :
    (arrives : OutboxEvent → Bool) (rows : List OutboxEvent) (j : String) (taken : List String)
    → any (str_eq j) taken ≡ true
    → any (str_eq j) (send_all arrives rows taken) ≡ true
unfolding send_all
send_all_stays arrives [] j taken h = h
send_all_stays arrives (row ∷ rest) j taken h =
    send_all_stays arrives rest j _ (stays (arrives row) row.id j taken h)

IsBacked-store :
    (r : Bool) (id : String) (taken : List String) (row : OutboxEvent)
    → IsBacked taken row
    → IsBacked (store_message r id taken) row
IsBacked-store r id taken row h = λ e. stays r id row.id taken (h e)

publish_row-IsBacked :
    (policy : RetryPolicy) (now draw : ℕ) (answer : Ack) (r : Bool) (taken : List String)
    (row : OutboxEvent)
    → row.status ≡ pending
    → ((seq : Option ℕ) → answer ≡ acked seq → r ≡ true)
    → IsBacked (store_message r row.id taken) (publish_row policy now draw answer row)
unfolding publish_row fail_row
publish_row-IsBacked policy now draw (acked seq) r taken row waits honest =
    λ e. rw (honest seq refl, (eq_iff row.id row.id).1 refl) refl
publish_row-IsBacked policy now draw (failed_with why) r taken row waits honest =
    elim (Bool-cases (leb (limit policy row) (row.attempts + 1))) [
      | inl full ↦ rw full (λ e. cc)
      | inr some_left ↦ rw some_left (λ e. cc)
    ]

publish_row-id :
    (policy : RetryPolicy) (now draw : ℕ) (answer : Ack) (row : OutboxEvent)
    → (publish_row policy now draw answer row).id ≡ row.id
unfolding publish_row fail_row
publish_row-id policy now draw (acked seq) row = refl
publish_row-id policy now draw (failed_with why) row =
    elim (Bool-cases (leb (limit policy row) (row.attempts + 1))) [
      | inl full ↦ rw full refl
      | inr some_left ↦ rw some_left refl
    ]

publish_all-IsBacked :
    (policy : RetryPolicy) (now : ℕ) (env : Environment) (arrives : OutboxEvent → Bool)
    (claimed rows : List OutboxEvent) (result : DrainResult) (taken : List String)
    → IsHonest env arrives
    → All IsWaiting claimed
    → All (IsBacked taken) rows
    → All
        (IsBacked (send_all arrives claimed taken))
        (publish_all policy now env claimed (rows, result)).0
unfolding publish_all send_all
publish_all-IsBacked policy now env arrives [] rows result taken honest w h = h
publish_all-IsBacked policy now env arrives (row ∷ rest) rows result taken honest w h =
    let next = store_message (arrives row) row.id taken in
    let row' = publish_row policy now (env.draw row) (env.answer row) row in
    publish_all-IsBacked policy now env arrives rest (put_row row' rows) _ next honest w.1 (
      All-put_row (IsBacked next) row' rows
        (publish_row-IsBacked policy now (env.draw row) (env.answer row) (arrives row) taken row w.0
          (honest row))
        (All-map (IsBacked taken) (IsBacked next) (IsBacked-store (arrives row) row.id taken) rows
          h))

-- A write by a row's id keeps the ids of the table.
put_row-IsCommitted :
    (r : OutboxEvent) (rows : List OutboxEvent) (id : String)
    → IsCommitted rows id
    → IsCommitted (put_row r rows) id
unfolding put_row
put_row-IsCommitted r [] id h = h
put_row-IsCommitted r (e ∷ es) id h = elim (Bool-cases (str_eq e.id r.id)) [
  | inl same ↦ rw same (rw ((eq_iff e.id r.id).0 same) at h)
  | inr other ↦ elim (Bool-cases (str_eq e.id id)) [
    | inl here ↦ rw (other, here) refl
    | inr later ↦ rw (other, later) (put_row-IsCommitted r es id (rw later at h))
  ]
]

publish_all-IsCommitted :
    (policy : RetryPolicy) (now : ℕ) (env : Environment) (claimed rows : List OutboxEvent)
    (result : DrainResult) (id : String)
    → IsCommitted rows id
    → IsCommitted (publish_all policy now env claimed (rows, result)).0 id
unfolding publish_all
publish_all-IsCommitted policy now env [] rows result id h = h
publish_all-IsCommitted policy now env (row ∷ rest) rows result id h =
    let row' = publish_row policy now (env.draw row) (env.answer row) row in
    publish_all-IsCommitted policy now env rest (put_row row' rows) _ id
      (put_row-IsCommitted row' rows id h)

enqueue-IsCommitted :
    (new : OutboxEvent) (rows : List OutboxEvent) (id : String)
    → IsCommitted rows id
    → IsCommitted (rows ++ new ∷ []) id
enqueue-IsCommitted new [] id h = cc h
enqueue-IsCommitted new (row ∷ rest) id h = elim (Bool-cases (str_eq row.id id)) [
  | inl here ↦ rw here refl
  | inr later ↦ rw later (enqueue-IsCommitted new rest id (rw later at h))
]

-- A drain takes its rows from the table.
abbrev IsRowOf : List OutboxEvent → OutboxEvent → Type 0
IsRowOf rows row = IsCommitted rows row.id

rows_of :
    (rows more : List OutboxEvent)
    → ((id : String) → IsCommitted more id → IsCommitted rows id)
    → All (IsRowOf rows) more
rows_of rows [] h = tt
rows_of rows (row ∷ rest) h = (
  h row.id (rw ((eq_iff row.id row.id).1 refl) refl),
  rows_of rows rest (λ id i. h id (later id i)),
)
  where
    later : (id : String) → IsCommitted rest id → IsCommitted (row ∷ rest) id
    later id i = elim (Bool-cases (str_eq row.id id)) [ inl e ↦ rw e refl | inr e ↦ rw e i ]

send_all-IsCommitted :
    (arrives : OutboxEvent → Bool) (rows sent : List OutboxEvent) (taken : List String)
    → All (IsRowOf rows) sent
    → All (IsCommitted rows) taken
    → All (IsCommitted rows) (send_all arrives sent taken)
unfolding send_all
send_all-IsCommitted arrives rows [] taken s h = h
send_all-IsCommitted arrives rows (row ∷ rest) taken s h =
    send_all-IsCommitted arrives rows rest _ s.1 (stored (arrives row))
  where
    stored : (b : Bool) → All (IsCommitted rows) (store_message b row.id taken)
    stored true = (s.0, h)
    stored false = h

DeliveryStep-IsDelivered :
    (policy : RetryPolicy) (d e : Delivery)
    → DeliveryStep policy d e
    → IsDelivered d
    → IsDelivered e
unfolding drain_once
DeliveryStep-IsDelivered policy d _ (wrote id now e) h = record {
  backed = All-append (IsBacked d.taken) d.rows _ h.backed (λ q. cc, tt);
  committed =
      All-map (IsCommitted d.rows) (IsCommitted (enqueue id now e d.rows))
        (enqueue-IsCommitted (event_row id now e) d.rows) d.taken h.committed;
}
DeliveryStep-IsDelivered policy d _ (drained n now locked env arrives honest) h =
    let claimed = claim n now locked d.rows in
    let own = All-claim (IsRowOf d.rows) n now locked d.rows (rows_of d.rows d.rows (λ id i. i)) in
    record {
      backed =
          publish_all-IsBacked policy now env arrives claimed d.rows _ d.taken honest
            (claim-IsWaiting n now locked d.rows) h.backed;
      committed =
          All-map (IsCommitted d.rows) (IsCommitted (drain_once policy n now locked env d.rows).0)
            (publish_all-IsCommitted policy now env claimed d.rows _) _
            (send_all-IsCommitted arrives d.rows claimed d.taken own h.committed);
    }
DeliveryStep-IsDelivered policy d _ (crashed n now sent locked arrives) h =
    let claimed = claim n now locked d.rows in
    let own = All-claim (IsRowOf d.rows) n now locked d.rows (rows_of d.rows d.rows (λ id i. i)) in
    record {
      backed =
          All-map (IsBacked d.taken) (IsBacked (send_all arrives (take sent claimed) d.taken))
            (λ row k e. send_all_stays arrives (take sent claimed) row.id d.taken (k e)) d.rows
            h.backed;
      committed =
          send_all-IsCommitted arrives d.rows (take sent claimed) d.taken
            (All-take (IsRowOf d.rows) sent claimed own) h.committed;
    }

-- From a state in which this holds, such as the empty one, however events are committed, drains run,
-- acks are lost and the publisher dies in the middle of a drain, if an ack is given only for a message
-- that the broker took: each row that is marked as published has had its message taken, and each
-- message that was taken has the id of a committed row.
pub Evolves-IsDelivered :
    (policy : RetryPolicy) (d e : Delivery) → Evolves policy d e → IsDelivered d → IsDelivered e
Evolves-IsDelivered policy d _ at_first h = h
Evolves-IsDelivered policy d _ (and_then {e} {f} past s) h =
    DeliveryStep-IsDelivered policy e f s (Evolves-IsDelivered policy d e past h)
