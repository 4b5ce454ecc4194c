-- ===== src/Notifications/Service/Settling.antt =====
-- `record_result`, `recover_stuck` and `process_due` on a sound queue.
use skybeat.Base.{
  ℕ, ◌≡◌, ◌≢◌, refl, sym, subst, true, false, Bool, List, [], ◌∷◌, All, All-map, All-zip,
  All-select-holds, find?, find?-holds, select, update_where, arith, some, Option-cases, inl, inr,
  ◌==◌, ==_iff, ◌&&◌, if◌then◌else◌,
}
use skybeat.Base.Distinct.{Distinct, Distinct-select}
use skybeat.Base.Keyed.{by_key, All-select-found}
use skybeat.Store.{Db, Result, ok, raise}
use skybeat.Store.Kinds.{is_in_progress}
use skybeat.Store.Rows.{Time, Delivery}
use skybeat.Notifications.Delivery.{ProviderResult, Jitter, result_row, recover_row}
use skybeat.Notifications.Delivery.Lifecycle.{
  result_row-IsSound, recover_row-IsSound, result_row-Advances, recover_row-Advances,
}
use skybeat.Notifications.Delivery.Evolution.{Progress}
use skybeat.Notifications.Delivery.Batch.{ReadyAt, ReadyAt-update_where, Progress-write}
use skybeat.Notifications.Queue.{
  delivery_id, IsQueue, QueueStep, QueueStep-refl, QueueStep-trans, Queue-write, Queue-attempts,
}
use skybeat.Notifications.Service.{
  ClaimedDelivery, Locked, is_stuck, is_attempt, recover_rows, recover_stuck, find_delivery,
  holds_lease, write_result, record_result, is_open_attempt_of, abandon_attempt, finish_attempt,
}
use skybeat.Notifications.Service.Claiming.{ReadyAt-of_found}

pub result_row-same_id :
    (jitter : Jitter) (now : Time) (r : ProviderResult) (d : Delivery)
    → (result_row jitter now r d).id ≡ d.id
unfolding result_row
result_row-same_id jitter now r d = ground arith

recover_row-same_id : (now : Time) (d : Delivery) → (recover_row now d).id ≡ d.id
unfolding recover_row
recover_row-same_id now d = ground arith

-- The outcome of a step that may raise: the database as it was, or a queue step.
abbrev pub Keeps : Db → Result Db → Type 0
Keeps db (raise e) = Unit
Keeps db (ok db1) = QueueStep db db1

write_result-Keeps :
    (jitter : Jitter) (now : Time) (claim : ClaimedDelivery) (r : ProviderResult) (d : Delivery)
    (db : Db)
    → IsQueue db
    → find? (by_key delivery_id claim.delivery_id) db.deliveries ≡ some d
    → is_in_progress d.status ≡ true
    → Keeps db (write_result jitter now claim r d db)
unfolding write_result
write_result-Keeps jitter now claim r d db q found busy =
    elim (Option-cases (find? (is_attempt d.id claim.attempt_no) db.attempts)) [
      | inl e ↦ rw (e, write_result) tt
      | inr (a, e) ↦
          rw (e, write_result)
            (record {
              progress = moved;
              queue =
                  Queue-attempts (λ b. b.id == a.id) (finish_attempt now r)
                    (λ b. unfold finish_attempt in refl) (λ b. unfold finish_attempt in refl)
                    (Queue-write (λ e. e.id == d.id) (result_row jitter now r)
                      (result_row-same_id jitter now r) q moved);
            })
    ]
  where
    key_of : d.id ≡ claim.delivery_id
    key_of =
        (==_iff d.id claim.delivery_id).0
          (find?-holds (by_key delivery_id claim.delivery_id) db.deliveries found)

    moved :
        Progress db.deliveries
          (update_where (λ e. e.id == d.id) (result_row jitter now r) db.deliveries)
    moved =
        Progress-write (λ e. is_in_progress e.status) (result_row jitter now r)
          (result_row-same_id jitter now r) (λ e b _. result_row-Advances jitter now r e b)
          (result_row-IsSound jitter now r) d.id db.deliveries q.sound
          (ReadyAt-of_found (λ e. is_in_progress e.status) d.id db.deliveries {d = d} q.distinct
            (subst (λ (k : ℕ). find? (by_key delivery_id k) db.deliveries ≡ some d) (sym key_of)
              found)
            busy)

-- On a sound queue, whatever a provider answered, `record_result` keeps the queue sound and lets
-- deliveries only advance.
pub record_result-Keeps :
    (jitter : Jitter) (now : Time) (claim : ClaimedDelivery) (r : ProviderResult) (db : Db)
    → IsQueue db
    → Keeps db (record_result jitter now claim r db)
unfolding record_result find_delivery
record_result-Keeps jitter now claim r db q =
    elim (Option-cases (find? (by_key delivery_id claim.delivery_id) db.deliveries)) [
      | inl e ↦ rw (e, record_result) (QueueStep-refl q)
      | inr (d, e) ↦
          rw (e, record_result)
            (split d e (is_in_progress d.status) (holds_lease claim.lease_token d.lease_token) refl)
    ]
  where
    split :
        (d : Delivery)
        → find? (by_key delivery_id claim.delivery_id) db.deliveries ≡ some d
        → (busy mine : Bool) → is_in_progress d.status ≡ busy
        → Keeps db (if busy && mine then write_result jitter now claim r d db else ok db)
    split d e true true busy = write_result-Keeps jitter now claim r d db q e busy
    split d e true false busy = QueueStep-refl q
    split d e false mine busy = QueueStep-refl q

-- A result that comes after the lease was lost (the delivery is gone, is no longer IN_PROGRESS, or
-- is leased under another token) changes nothing.
pub record_result_stale :
    (jitter : Jitter) (now : Time) (claim : ClaimedDelivery) (r : ProviderResult) (db : Db)
    → ((d : Delivery)
        → find_delivery claim.delivery_id db ≡ some d
        → (is_in_progress d.status && holds_lease claim.lease_token d.lease_token) ≡ false)
    → record_result jitter now claim r db ≡ ok db
unfolding record_result
record_result_stale jitter now claim r db stale =
    elim (Option-cases (find_delivery claim.delivery_id db)) [
      | inl e ↦ rw (e, record_result)
      | inr (d, e) ↦ rw (e, record_result) (rw (stale d e))
    ]

abbrev busy : Delivery → Bool
busy d = is_in_progress d.status

-- One round of the loop of `recover_stuck`.
recovered-QueueStep :
    (now : Time) (d : Delivery) (db : Db)
    → IsQueue db
    → ReadyAt busy db.deliveries d.id
    → QueueStep db (record db {
      attempts = update_where (is_open_attempt_of d) (abandon_attempt now) db.attempts;
      deliveries = update_where (λ e. e.id == d.id) (recover_row now) db.deliveries;
    })
recovered-QueueStep now d db q ready = record {
  progress = moved;
  queue =
      Queue-attempts (is_open_attempt_of d) (abandon_attempt now)
        (λ b. unfold abandon_attempt in refl) (λ b. unfold abandon_attempt in refl)
        (Queue-write (λ e. e.id == d.id) (recover_row now) (recover_row-same_id now) q moved);
}
  where
    moved :
        Progress db.deliveries (update_where (λ e. e.id == d.id) (recover_row now) db.deliveries)
    moved =
        Progress-write busy (recover_row now) (recover_row-same_id now)
          (λ e b _. recover_row-Advances now e b) (recover_row-IsSound now) d.id db.deliveries
          q.sound ready

recover_rows-QueueStep :
    (now : Time) (ds : List Delivery) (db : Db)
    → IsQueue db
    → All (λ d. ReadyAt busy db.deliveries d.id) ds
    → Distinct delivery_id ds
    → QueueStep db (recover_rows now ds db)
unfolding recover_rows
recover_rows-QueueStep now [] db q ready distinct = QueueStep-refl q
recover_rows-QueueStep now (d ∷ ds) db q ready distinct =
    let s = recovered-QueueStep now d db q ready.0 in
    QueueStep-trans s (
      recover_rows-QueueStep now ds
        (record db {
          attempts = update_where (is_open_attempt_of d) (abandon_attempt now) db.attempts;
          deliveries = update_where (λ e. e.id == d.id) (recover_row now) db.deliveries;
        })
        s.queue still_ready distinct.1)
  where
    still_ready :
        All
          (λ e.
            ReadyAt busy (update_where (λ c. c.id == d.id) (recover_row now) db.deliveries) e.id)
          ds
    still_ready =
        All-map (λ e. (e.id ≢ d.id) × ReadyAt busy db.deliveries e.id)
          (λ e.
            ReadyAt busy (update_where (λ c. c.id == d.id) (recover_row now) db.deliveries) e.id)
          (λ e facts.
            ReadyAt-update_where busy (recover_row now) (recover_row-same_id now) d.id e.id
              db.deliveries facts.0 facts.1)
          ds
          (All-zip (λ e. e.id ≢ d.id) (λ e. ReadyAt busy db.deliveries e.id) ds distinct.0 ready.1)

-- On a sound queue, `recover_stuck` keeps it sound and changes each delivery by an advance only.
pub recover_stuck-QueueStep :
    (locked : Locked) (now : Time) (db : Db)
    → IsQueue db
    → QueueStep db (recover_stuck locked now db)
unfolding recover_stuck
recover_stuck-QueueStep locked now db q =
    recover_rows-QueueStep now stuck db q
      (All-map (λ d. (find? (by_key delivery_id d.id) db.deliveries ≡ some d) × (busy d ≡ true))
        (λ d. ReadyAt busy db.deliveries d.id)
        (λ d facts. ReadyAt-of_found busy d.id db.deliveries {d = d} q.distinct facts.0 facts.1)
        stuck
        (All-zip (λ d. find? (by_key delivery_id d.id) db.deliveries ≡ some d) (λ d. busy d ≡ true)
          stuck (All-select-found delivery_id (is_stuck locked now) db.deliveries q.distinct)
          (All-map (λ d. is_stuck locked now d ≡ true) (λ d. busy d ≡ true) (λ d h. ground arith)
            stuck (All-select-holds (is_stuck locked now) db.deliveries))))
      (Distinct-select delivery_id (is_stuck locked now) db.deliveries q.distinct)
  where
    stuck : List Delivery
    stuck = select (is_stuck locked now) db.deliveries
