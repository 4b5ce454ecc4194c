-- ===== src/Notifications/Service/Claiming.antt =====
-- `claim_due` on a sound queue: it never fails for a limit that is in range, and keeps the queue.
use skybeat.Base.{
  ℕ, ◌+◌, ◌≡◌, ◌≢◌, refl, sym, ap, subst, Bool, true, false, List, [], ◌∷◌, some, none, All,
  All-map, find?, any, update_where, arith, ==_iff, Bool-cases, Option-cases, inl, inr, ◌==◌,
  ==_refl, ◌∙◌, find?-holds, ◌⊎◌, if◌then◌else◌,
}
use mathlib.Core.Option
use mathlib.Core.Option.{some-injective}
use skybeat.Base.Distinct.{Distinct}
use skybeat.Base.Keyed.{by_key, find?-update_where, find?-unique}
use skybeat.Store.{Db, Env, Result, ok, raise}
use skybeat.Store.Kinds.{is_waiting, in_progress}
use skybeat.Store.Rows.{Time, Delivery, Attempt}
use skybeat.Notifications.Delivery.{claim_row, expire_row}
use skybeat.Notifications.Delivery.Lifecycle.{
  claim_row-IsSound, expire_row-IsSound, claim_row-Advances, expire_row-Advances,
}
use skybeat.Notifications.Delivery.Evolution.{Progress, Progress-update_where}
use skybeat.Notifications.Delivery.Batch.{ReadyAt, Progress-write}
use skybeat.Notifications.Queue.{
  delivery_id, IsQueue, QueueStep, Queue-write, Queue-add_attempt, IsCounted,
}
use skybeat.Notifications.Service.{
  Joined, ClaimedDelivery, Locked, is_expired, expire_unclaimed, is_attempt, add_attempt, lease_row,
  with_attempt,
}

-- The row that an id finds passes a test, so every row with that id does.
pub ReadyAt-of_found :
    (p : Delivery → Bool) (k : ℕ) (rows : List Delivery) {d : Delivery}
    → Distinct delivery_id rows
    → find? (by_key delivery_id k) rows ≡ some d
    → p d ≡ true
    → ReadyAt p rows k
ReadyAt-of_found p k rows {d} distinct found holds =
    All-map (λ e. e.id ≡ k → e ≡ d) (λ e. e.id ≡ k → p e ≡ true)
      (λ e same h. subst (λ z. p z ≡ true) (sym (same h)) holds) rows
      (find?-unique delivery_id k rows distinct found)

pub expire_unclaimed-QueueStep :
    (locked : Locked) (now : Time) (db : Db)
    → IsQueue db
    → QueueStep db (expire_unclaimed locked now db)
unfolding expire_unclaimed
expire_unclaimed-QueueStep locked now db q = record {
  progress = moved;
  queue =
      Queue-write (is_expired locked now) (expire_row now) (λ d. unfold expire_row in refl) q moved;
}
  where
    moved :
        Progress db.deliveries (update_where (is_expired locked now) (expire_row now) db.deliveries)
    moved =
        Progress-update_where (is_expired locked now) (expire_row now)
          (λ d w _. expire_row-Advances now d (ground arith))
          (λ d w h. expire_row-IsSound now d (ground arith) h) db.deliveries q.sound

abbrev pub joined_id : Joined → ℕ
joined_id j = j.delivery.id

-- A row of the join is the waiting row of its id.
abbrev pub IsHeld : List Delivery → Joined → Type 0
IsHeld rows j =
    (find? (by_key delivery_id j.delivery.id) rows ≡ some j.delivery)
    × (is_waiting j.delivery.status ≡ true)

lease_row-QueueStep :
    (env : Env) (now : Time) (j : Joined) (db : Db)
    → IsQueue db
    → IsHeld db.deliveries j
    → QueueStep db (lease_row env now j db)
unfolding lease_row
lease_row-QueueStep env now j db q held = record {
  progress = moved;
  queue =
      Queue-write (λ d. d.id == j.delivery.id) (claim_row now (env.uuid4 db.draws))
        (λ d. unfold claim_row in refl) q moved;
}
  where
    moved : Progress db.deliveries (
        update_where
          (λ d. d.id == j.delivery.id)
          (claim_row now (env.uuid4 db.draws))
          db.deliveries)
    moved =
        Progress-write (λ d. is_waiting d.status) (claim_row now (env.uuid4 db.draws))
          (λ d. unfold claim_row in refl) (claim_row-Advances now (env.uuid4 db.draws))
          (claim_row-IsSound now (env.uuid4 db.draws)) j.delivery.id db.deliveries q.sound
          (ReadyAt-of_found (λ d. is_waiting d.status) j.delivery.id db.deliveries q.distinct held.0
            held.1)

-- The row that was leased, with its attempt counted.
pub lease_row-found :
    (env : Env) (now : Time) (j : Joined) (db : Db)
    → IsHeld db.deliveries j
    → find? (by_key delivery_id j.delivery.id) (lease_row env now j db).deliveries
      ≡ some (claim_row now (env.uuid4 db.draws) j.delivery)
unfolding lease_row
lease_row-found env now j db held =
    rw
      (
        find?-update_where delivery_id (λ d. d.id == j.delivery.id)
            (claim_row now (env.uuid4 db.draws)) (λ d. unfold claim_row in refl) j.delivery.id
            db.deliveries,
        held.0,
      )
      (rw (==_refl j.delivery.id))

-- The attempt number after the last counted one is free.
attempt_is_new :
    (rows : List Delivery) (k : ℕ) (d : Delivery)
    → find? (by_key delivery_id k) rows ≡ some d
    → (attempts : List Attempt) → All (IsCounted rows) attempts
    → any (is_attempt k (d.attempt_count + 1)) attempts ≡ false
unfolding any
attempt_is_new rows k d found [] h = refl
attempt_is_new rows k d found (a ∷ attempts) h = elim (Bool-cases (a.delivery_id == k)) [
  | inl mine ↦
      let (e, found', le) = h.0 in
      let same_key : a.delivery_id ≡ k = (==_iff a.delivery_id k).0 mine in
      let same : e ≡ d = some-injective _ _ (sym found' ∙ rw same_key found) in
      let same_count : e.attempt_count ≡ d.attempt_count = ap (λ x. x.attempt_count) same in
      ground (arith, same_count, le, attempt_is_new rows k d found attempts h.1)
  | inr other ↦ ground (arith, other, attempt_is_new rows k d found attempts h.1)
]

-- What a claim says of the row that it leased.
abbrev pub IsLease : List Delivery → ClaimedDelivery → Type 0
IsLease rows c =
    (d : Delivery) × (find? (by_key delivery_id c.delivery_id) rows ≡ some d)
    × (d.status ≡ in_progress)
    × (d.lease_token ≡ some c.lease_token)
    × (d.attempt_count ≡ c.attempt_no)

-- A successful claim, and no other outcome.
abbrev pub Claimed : Db → Result (List ClaimedDelivery × Db) → Type 0
Claimed db (raise e) = ⊥
Claimed db (ok (claims, db1)) = QueueStep db db1 × All (IsLease db1.deliveries) claims

-- The lease of one row and its attempt, which the unique key allows.
abbrev pub leased : Env → Time → Joined → Db → Db
leased env now j db =
    with_attempt now j.delivery.id (j.delivery.attempt_count + 1) (lease_row env now j db)

pub add_attempt-leased :
    (env : Env) (now : Time) (j : Joined) (db : Db)
    → IsQueue db
    → IsHeld db.deliveries j
    → add_attempt now j.delivery.id (j.delivery.attempt_count + 1) (lease_row env now j db)
      ≡ ok (leased env now j db)
unfolding add_attempt lease_row
add_attempt-leased env now j db q held =
    rw (attempt_is_new db.deliveries j.delivery.id j.delivery held.0 db.attempts q.counted)

pub leased-QueueStep :
    (env : Env) (now : Time) (j : Joined) (db : Db)
    → IsQueue db
    → IsHeld db.deliveries j
    → QueueStep db (leased env now j db)
leased-QueueStep env now j db q held =
    let s = lease_row-QueueStep env now j db q held in
    record {
      progress = s.progress;
      queue = Queue-add_attempt _ s.queue (
        claim_row now (env.uuid4 db.draws) j.delivery,
        lease_row-found env now j db held,
        unfold claim_row in omega arith,
      );
    }

-- Other rows are as they were.
pub leased-other :
    (env : Env) (now : Time) (j : Joined) (db : Db) (k : ℕ)
    → k ≢ j.delivery.id
    → find? (by_key delivery_id k) (leased env now j db).deliveries
      ≡ find? (by_key delivery_id k) db.deliveries
unfolding lease_row
leased-other env now j db k ne =
    rw
      (find?-update_where delivery_id (λ d. d.id == j.delivery.id)
        (claim_row now (env.uuid4 db.draws)) (λ d. unfold claim_row in refl) k db.deliveries)
      (same (Option-cases (find? (by_key delivery_id k) db.deliveries)))
  where
    same :
        (find? (by_key delivery_id k) db.deliveries ≡ none)
          ⊎ ((d : Delivery) × (find? (by_key delivery_id k) db.deliveries ≡ some d))
        → Option.map
            (λ d. if d.id == j.delivery.id then claim_row now (env.uuid4 db.draws) d else d)
            (find? (by_key delivery_id k) db.deliveries)
          ≡ find? (by_key delivery_id k) db.deliveries
    same (inl e) = rw e
    same (inr (d, e)) =
        let key_of : d.id ≡ k =
          (==_iff d.id k).0 (find?-holds (by_key delivery_id k) db.deliveries e) in
        rw e (ground (arith, key_of, ==_iff d.id j.delivery.id, ne))
