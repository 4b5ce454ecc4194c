-- ===== src/Notifications/Delivery.antt =====
-- One delivery under server/app/notifications/service.py: what each branch of the service writes
-- to the row of a delivery, and the retry delay.
pub mod Lifecycle
pub mod Evolution
pub mod Batch
pub mod Retry
use skybeat.Base.{
  ℕ, zero, suc, ◌+◌, ◌-◌, ◌*◌, ◌/◌, ◌^◌, min, String, ◌||◌, Option, none, some, leb, is_some,
  if◌then◌else◌,
}
use skybeat.Store.Kinds.{
  Status, pending, in_progress, retry_wait, succeeded, failed, cancelled, is_waiting, Outcome,
  accepted, transient_failure, permanent_failure, uncertain,
}
use skybeat.Store.Rows.{Time, seconds, Delivery}

abbrev pub max_attempts : ℕ
max_attempts = 5

abbrev pub lease_seconds : ℕ
lease_seconds = 60

abbrev pub retry_base_seconds : ℕ
retry_base_seconds = 30

abbrev pub retry_max_seconds : ℕ
retry_max_seconds = 15 * 60

pub record ProviderResult : Type 0 where
  pub outcome : Outcome
  pub error_category : Option String
  pub provider_message_id : Option String

-- What a jitter returns, in microseconds: `negsuc n` is -(n + 1).
pub data ℤ : Type 0 where
  pos : ℕ → ℤ
  negsuc : ℕ → ℤ

-- `max(0.0, base + jitter)`.
abbrev pub add_from_zero : ℕ → ℤ → ℕ
add_from_zero base (pos n) = base + n
add_from_zero base (negsuc n) = base - (n + 1)

-- The service's `jitter` takes the base delay; both are in microseconds here.
abbrev pub Jitter : Type 0
Jitter = ℕ → ℤ

-- `base` of `_retry_delay`; `2 ** -1` is a half.
unfoldable pub retry_base : ℕ → ℕ
retry_base zero = seconds retry_base_seconds / 2
retry_base (suc n) = seconds (min (retry_base_seconds * 2 ^ n) retry_max_seconds)

unfoldable pub retry_delay : Jitter → ℕ → Time
retry_delay jitter attempt_no =
    let base = retry_base attempt_no in
    min (seconds retry_max_seconds) (add_from_zero base (jitter base))

-- The writes of `claim_due` to a row that it leases.
unfoldable pub claim_row : Time → String → Delivery → Delivery
claim_row now token d = record d {
  status = in_progress;
  attempt_count = d.attempt_count + 1;
  lease_token = some token;
  lease_expires_at = some (now + seconds lease_seconds);
  updated_at = now;
}

-- The writes of `_expire_unclaimed`.
unfoldable pub expire_row : Time → Delivery → Delivery
expire_row now d = record d {
  status = failed;
  next_attempt_at = none;
  last_error_category = some "delivery_expired";
  updated_at = now;
}

-- A status, and a next attempt for a retry only.
abbrev pub settle : Status → Option Time → Delivery → Delivery
settle s next d = record d { status = s; next_attempt_at = next }

-- The writes of `record_result` to the delivery, all branches.
unfoldable pub result_row : Jitter → Time → ProviderResult → Delivery → Delivery
result_row jitter now result d0 =
    let d : Delivery = record d0 {
      last_error_category = result.error_category;
      provider_message_id = result.provider_message_id;
      lease_token = none;
      lease_expires_at = none;
      updated_at = now;
    } in
    if is_some d.superseded_at then settle cancelled none d else elim result.outcome [
      | accepted ↦ settle succeeded none d
      | permanent_failure ↦ settle failed none d
      | _ ↦
          if leb max_attempts d.attempt_count || leb d.expires_at now
          then settle failed none d
          else settle retry_wait (some (now + retry_delay jitter d.attempt_count)) d
    ]

-- The writes of `recover_stuck` to the delivery, all branches.
unfoldable pub recover_row : Time → Delivery → Delivery
recover_row now d0 =
    let d : Delivery = record d0 {
      lease_token = none;
      lease_expires_at = none;
      last_error_category = some "worker_crash";
      updated_at = now;
    } in
    if is_some d.superseded_at
    then settle cancelled none d
    else if leb d.expires_at now || leb max_attempts d.attempt_count
    then settle failed none d
    else settle retry_wait (some now) d

-- `GPUIncidentService._supersede_delivery`, and the same lines of `_close_for_recovery`.
unfoldable pub supersede_row : Time → Delivery → Delivery
supersede_row now d0 =
    let d : Delivery = record d0 {
      cancel_reason = some "superseded_by_recovery";
      superseded_at = some now;
      updated_at = now;
    } in
    if is_waiting d.status then settle cancelled none d else d
