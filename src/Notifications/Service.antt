-- ===== src/Notifications/Service.antt =====
-- `NotificationService` of server/app/notifications/service.py: one function for each transaction,
-- and `process_due`, which runs them in turn.
pub mod Claiming
pub mod Claims
pub mod Settling
pub mod Recording
pub mod Worker
use skybeat.Base.{
  ℕ, suc, ◌+◌, String, Bool, true, false, not, ◌&&◌, ◌||◌, List, [], ◌∷◌, ◌++◌, map, Option, none,
  some, ltb, leb, ◌==◌, if◌then◌else◌, find?, any, select, update_where, take, is_none, str_eq,
}
use skybeat.Base.Order.{sort}
use skybeat.Store.Kinds.{
  EventKind, Channel, Outcome, is_waiting, is_in_progress, permanent_failure, uncertain,
}
use skybeat.Store.Rows.{Time, seconds, Delivery, Attempt, AlertEvent, Incident}
use skybeat.Store.{
  Db, Env, Error, Result, ok, raise, attempt_missing, integrity_error, value_error, ◌>>=◌, Run,
  after,
}
use skybeat.Notifications.Delivery.{
  ProviderResult, Jitter, claim_row, expire_row, result_row, recover_row,
}

pub record DeliveryMessage : Type 0 where
  pub delivery_uuid : String
  pub destination : String
  pub event_kind : EventKind
  pub project_name : String
  pub device_name : String
  pub incident_uuid : String
  pub occurred_at : Time
  pub opened_at : Time
  pub closed_at : Option Time

pub record ClaimedDelivery : Type 0 where
  pub delivery_id : ℕ
  pub attempt_no : ℕ
  pub lease_token : String
  pub channel : Channel
  pub message : DeliveryMessage

-- A row of the join that `claim_due` reads.
pub record Joined : Type 0 where
  pub delivery : Delivery
  pub event : AlertEvent
  pub incident : Incident

-- `column <= now`, which no NULL satisfies.
abbrev pub reached : Option Time → Time → Bool
reached none now = false
reached (some t) now = leb t now

-- Rows that another transaction has locked, by id: `FOR UPDATE SKIP LOCKED` passes over them.
abbrev pub Locked : Type 0
Locked = ℕ → Bool

abbrev pub is_expired : Locked → Time → Delivery → Bool
is_expired locked now d = is_waiting d.status && leb d.expires_at now && not (locked d.id)

unfoldable pub expire_unclaimed : Locked → Time → Db → Db
expire_unclaimed locked now db = record db {
  deliveries = update_where (is_expired locked now) (expire_row now) db.deliveries;
}

abbrev pub is_due : Locked → Time → Delivery → Bool
is_due locked now d =
    is_waiting d.status
    && reached d.next_attempt_at now
    && ltb now d.expires_at
    && not (locked d.id)

-- The two inner joins.
unfoldable pub join_row : Db → Delivery → List Joined
join_row db d = elim (find? (λ e. e.id == d.event_id) db.events) [
  | none ↦ []
  | some event ↦ elim (find? (λ i. i.id == event.incident_id) db.incidents) [
    | none ↦ []
    | some incident ↦ record { delivery = d; event = event; incident = incident } ∷ []
  ]
]

unfoldable pub join_rows : Db → List Delivery → List Joined
join_rows db [] = []
join_rows db (d ∷ ds) = join_row db d ++ join_rows db ds

abbrev pub time_before : Option Time → Option Time → Bool
time_before none none = false
time_before none (some t) = true
time_before (some s) none = false
time_before (some s) (some t) = ltb s t

-- `ORDER BY next_attempt_at, id`.
abbrev pub claimed_before : Joined → Joined → Bool
claimed_before a b =
    time_before a.delivery.next_attempt_at b.delivery.next_attempt_at
    || (not (time_before b.delivery.next_attempt_at a.delivery.next_attempt_at)
        && leb a.delivery.id b.delivery.id)

unfoldable pub due_rows : Locked → Time → ℕ → Db → List Joined
unfolding join_rows join_row
due_rows locked now limit db =
    take limit (sort claimed_before (join_rows db (select (is_due locked now) db.deliveries)))

abbrev pub is_attempt : ℕ → ℕ → Attempt → Bool
is_attempt delivery_id attempt_no a = a.delivery_id == delivery_id && a.attempt_no == attempt_no

-- `NotificationAttempt(...)` of `claim_due`.
abbrev pub new_attempt : ℕ → Time → ℕ → ℕ → Attempt
new_attempt id now delivery_id attempt_no = record {
  id = id;
  delivery_id = delivery_id;
  attempt_no = attempt_no;
  started_at = now;
  finished_at = none;
  outcome = none;
  error_category = none;
  provider_message_id = none;
}

abbrev pub with_attempt : Time → ℕ → ℕ → Db → Db
with_attempt now delivery_id attempt_no db = record db {
  attempts = db.attempts ++ new_attempt db.next_attempt now delivery_id attempt_no ∷ [];
  next_attempt = db.next_attempt + 1;
}

-- `session.add(NotificationAttempt(...))` under the unique key (delivery_id, attempt_no).
unfoldable pub add_attempt : Time → ℕ → ℕ → Db → Result Db
add_attempt now delivery_id attempt_no db =
    if any (is_attempt delivery_id attempt_no) db.attempts
    then raise integrity_error
    else ok (with_attempt now delivery_id attempt_no db)

unfoldable pub message_of : Joined → DeliveryMessage
message_of j = record {
  delivery_uuid = j.delivery.delivery_uuid;
  destination = j.delivery.destination_snapshot;
  event_kind = j.event.event_kind;
  project_name = j.event.project_name_snapshot;
  device_name = j.event.device_name_snapshot;
  incident_uuid = j.incident.incident_uuid;
  occurred_at = j.event.occurred_at;
  opened_at = j.incident.opened_at;
  closed_at = j.incident.closed_at;
}

-- The lease of one row, without its attempt.
unfoldable pub lease_row : Env → Time → Joined → Db → Db
lease_row env now j db = record db {
  deliveries =
      update_where (λ d. d.id == j.delivery.id) (claim_row now (env.uuid4 db.draws)) db.deliveries;
  draws = db.draws + 1;
}

unfoldable pub claim_of : String → Joined → ClaimedDelivery
unfolding message_of
claim_of token j = record {
  delivery_id = j.delivery.id;
  attempt_no = j.delivery.attempt_count + 1;
  lease_token = token;
  channel = j.delivery.channel;
  message = message_of j;
}

-- The loop of `claim_due` over the rows that it read.
unfoldable pub claim_rows : Env → Time → List Joined → Db → Result (List ClaimedDelivery × Db)
unfolding lease_row add_attempt claim_of
claim_rows env now [] db = ok ([], db)
claim_rows env now (j ∷ js) db = do
  db1 ← add_attempt now j.delivery.id (j.delivery.attempt_count + 1) (lease_row env now j db)
  (claims, db2) ← claim_rows env now js db1
  ok (claim_of (env.uuid4 db.draws) j ∷ claims, db2)

unfoldable pub claim_due : Env → Locked → Time → ℕ → Db → Result (List ClaimedDelivery × Db)
claim_due env locked now limit db =
    if leb 1 limit && leb limit 4
    then (let db1 = expire_unclaimed locked now db in
        claim_rows env now (due_rows locked now limit db1) db1)
    else raise value_error

-- `session.scalar(select(NotificationDelivery).where(id == ...))`.
unfoldable pub find_delivery : ℕ → Db → Option Delivery
find_delivery delivery_id db = find? (λ d. d.id == delivery_id) db.deliveries

-- `delivery.lease_token != claim.lease_token` is `False`.
abbrev pub holds_lease : String → Option String → Bool
holds_lease token none = false
holds_lease token (some t) = str_eq t token

unfoldable pub finish_attempt : Time → ProviderResult → Attempt → Attempt
finish_attempt now result a = record a {
  finished_at = some now;
  outcome = some result.outcome;
  error_category = result.error_category;
  provider_message_id = result.provider_message_id;
}

-- `record_result` where the claim still holds its lease.
unfoldable pub write_result :
    Jitter → Time → ClaimedDelivery → ProviderResult → Delivery → Db → Result Db
unfolding finish_attempt
write_result jitter now claim result delivery db =
    elim (find? (is_attempt delivery.id claim.attempt_no) db.attempts) [
      | none ↦ raise attempt_missing
      | some attempt ↦ ok (record db {
        attempts = update_where (λ a. a.id == attempt.id) (finish_attempt now result) db.attempts;
        deliveries =
            update_where (λ d. d.id == delivery.id) (result_row jitter now result) db.deliveries;
      })
    ]

unfoldable pub record_result : Jitter → Time → ClaimedDelivery → ProviderResult → Db → Result Db
unfolding find_delivery write_result
record_result jitter now claim result db = elim (find_delivery claim.delivery_id db) [
  | none ↦ ok db
  | some delivery ↦
      if is_in_progress delivery.status && holds_lease claim.lease_token delivery.lease_token
      then write_result jitter now claim result delivery db
      else ok db
]

abbrev pub is_stuck : Locked → Time → Delivery → Bool
is_stuck locked now d =
    is_in_progress d.status && reached d.lease_expires_at now && not (locked d.id)

-- `recover_stuck` ends the open attempt of a delivery whose worker went away. The key
-- (delivery_id, attempt_no) is unique, so `is_open_attempt_of` matches one row at most.
unfoldable pub abandon_attempt : Time → Attempt → Attempt
abandon_attempt now a = record a {
  finished_at = some now;
  outcome = some uncertain;
  error_category = some "worker_crash";
}

abbrev pub is_open_attempt_of : Delivery → Attempt → Bool
is_open_attempt_of d a = is_attempt d.id d.attempt_count a && is_none a.finished_at

-- The loop of `recover_stuck` over the rows that it read.
unfoldable pub recover_rows : Time → List Delivery → Db → Db
unfolding abandon_attempt
recover_rows now [] db = db
recover_rows now (d ∷ ds) db = recover_rows now ds (record db {
  attempts = update_where (is_open_attempt_of d) (abandon_attempt now) db.attempts;
  deliveries = update_where (λ e. e.id == d.id) (recover_row now) db.deliveries;
})

unfoldable pub recover_stuck : Locked → Time → Db → Db
recover_stuck locked now db = recover_rows now (select (is_stuck locked now) db.deliveries) db

-- A provider's `send`: `none` is an exception.
abbrev pub Provider : Type 0
Provider = DeliveryMessage → Option ProviderResult

-- `provider: NotificationProvider | dict[str, NotificationProvider]`.
pub data Providers : Type 0 where
  single : Provider → Providers
  by_channel : (Channel → Option Provider) → Providers

abbrev pub selected : Providers → Channel → Option Provider
selected (single provider) channel = some provider
selected (by_channel table) channel = table channel

unfoldable pub attempt_send : Providers → ClaimedDelivery → ProviderResult
attempt_send providers claim = elim (selected providers claim.channel) [
  | none ↦ record {
    outcome = permanent_failure;
    error_category = some "provider_missing";
    provider_message_id = none;
  }
  | some send ↦ elim (send claim.message) [
    | none ↦ record {
      outcome = uncertain;
      error_category = some "provider_exception";
      provider_message_id = none;
    }
    | some result ↦ result
  ]
]

-- What is outside the worker, for the k-th transaction of a call: the database's clock, the rows
-- that others lock, and what others commit before it.
pub record World : Type 0 where
  pub clock : ℕ → Time
  pub locked : ℕ → Locked
  pub others : ℕ → Db → Db

-- The loop of `process_due`, from the k-th transaction on.
unfoldable pub deliver_claims : World → Jitter → Providers → ℕ → List ClaimedDelivery → Db → Run
deliver_claims w jitter providers k [] db = (none, db)
deliver_claims w jitter providers k (claim ∷ claims) db =
    let db1 = w.others k db in
    after db1 (record_result jitter (w.clock k) claim (attempt_send providers claim) db1)
      (deliver_claims w jitter providers (suc k) claims)

unfoldable pub process_due : Env → World → Jitter → Providers → ℕ → Db → Run
process_due env w jitter providers limit db =
    let db1 = recover_stuck (w.locked 0) (w.clock 0) (w.others 0 db) in
    let db2 = w.others 1 db1 in
    after db2 (claim_due env (w.locked 1) (w.clock 1) limit db2)
      (λ (claimed : List ClaimedDelivery × Db).
        deliver_claims w jitter providers 2 claimed.0 claimed.1)
