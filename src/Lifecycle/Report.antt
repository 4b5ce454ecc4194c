-- ===== src/Lifecycle/Report.antt =====
-- `AgentLifecycleService.device_report` of server/app/lifecycle/service.py without the database:
-- the validation of a report, and what it does to the operation of its device.
pub mod Progress
use Prim.Native.Char.{code}
use skybeat.Base.{
  ℕ, String, Bool, true, false, not, ◌&&◌, ◌||◌, Option, none, some, leb, ◌==◌, is_none, is_some,
  str_eq, if◌then◌else◌,
}
use skybeat.Store.{Env, Error, Result, ok, raise, value_error, lifecycle_conflict, ensure}
use skybeat.Store.Kinds
use skybeat.Store.Kinds.{
  LifecycleAction, upgrade, rollback, LifecycleState, requested, downloading, verifying, installing,
  restarting, verifying_health, rolled_back, FailureCategory, verification_failed,
  installation_failed, service_start_failed, health_check_failed, FailureDetail,
  archive_digest_mismatch, bundle_verification_failed, previous_release_mismatch, installer_failed,
  interrupted_switch, rollback_target_unhealthy, previous_service_unhealthy,
}
use skybeat.Store.Rows.{Time, DeviceAgentLifecycle}
use skybeat.Devices.Credentials.{text_length}

-- An optional text of a report: `None`, a text outside the enumeration, or one of it.
pub data Field {ℓ} (A : Type ℓ) : Type ℓ where
  absent unlisted : Field A
  given : A → Field A

-- The arguments of `device_report`; a state is `none` where the text is no state.
pub record Report : Type 0 where
  pub state : Option LifecycleState
  pub failure_category : Field FailureCategory
  pub failure_detail : Field FailureDetail
  pub previous_wheel_sha256 : Option String
  pub rollback_available : Bool

-- The index in `PROGRESS`, and one more for the states of `TERMINAL`.
abbrev pub progress : LifecycleState → ℕ
progress requested = 0
progress downloading = 1
progress verifying = 2
progress installing = 3
progress restarting = 4
progress verifying_health = 5
progress _ = 6

abbrev pub is_terminal : LifecycleState → Bool
is_terminal s = progress s == 6

abbrev pub is_succeeded : LifecycleState → Bool
is_succeeded Kinds.succeeded = true
is_succeeded _ = false

abbrev pub is_failure : LifecycleState → Bool
is_failure Kinds.failed = true
is_failure LifecycleState.rollback_failed = true
is_failure _ = false

abbrev pub is_rolled_back : LifecycleState → Bool
is_rolled_back rolled_back = true
is_rolled_back _ = false

abbrev pub same_state : LifecycleState → LifecycleState → Bool
same_state Kinds.succeeded Kinds.succeeded = true
same_state Kinds.failed Kinds.failed = true
same_state rolled_back rolled_back = true
same_state LifecycleState.rollback_failed LifecycleState.rollback_failed = true
same_state s t = progress s == progress t && not (is_terminal s)

abbrev pub is_upgrade : LifecycleAction → Bool
is_upgrade upgrade = true
is_upgrade rollback = false

abbrev pub category_code : FailureCategory → ℕ
category_code verification_failed = 0
category_code installation_failed = 1
category_code service_start_failed = 2
category_code health_check_failed = 3
category_code FailureCategory.rollback_failed = 4

abbrev pub detail_code : FailureDetail → ℕ
detail_code archive_digest_mismatch = 0
detail_code bundle_verification_failed = 1
detail_code previous_release_mismatch = 2
detail_code installer_failed = 3
detail_code interrupted_switch = 4
detail_code rollback_target_unhealthy = 5
detail_code previous_service_unhealthy = 6

-- `DETAIL_CATEGORY`.
abbrev pub detail_category : FailureDetail → FailureCategory
detail_category archive_digest_mismatch = verification_failed
detail_category bundle_verification_failed = verification_failed
detail_category previous_release_mismatch = verification_failed
detail_category installer_failed = installation_failed
detail_category interrupted_switch = installation_failed
detail_category rollback_target_unhealthy = health_check_failed
detail_category previous_service_unhealthy = FailureCategory.rollback_failed

abbrev pub listed {ℓ} : {A : Type ℓ} → Field A → Bool
listed unlisted = false
listed _ = true

abbrev pub value_of {ℓ} : {A : Type ℓ} → Field A → Option A
value_of (given a) = some a
value_of _ = none

abbrev pub fits : Option FailureDetail → Option FailureCategory → Bool
fits none category = true
fits (some d) none = false
fits (some d) (some c) = category_code (detail_category d) == category_code c

-- `re.fullmatch(r"[0-9a-f]{64}", text)`.
unfoldable pub all_hex : String → Bool
all_hex String.[] = true
all_hex (String.◌∷◌ c s) =
    let rest = all_hex s in
    ((leb b'0' (code c) && leb (code c) b'9') || (leb b'a' (code c) && leb (code c) b'f')) && rest

abbrev pub is_digest : Option String → Bool
is_digest none = true
is_digest (some s) = text_length s == 64 && all_hex s

-- The tests before the transaction, on a report of the state `s`; each raises `ValueError`.
unfoldable pub is_valid : LifecycleState → Report → Bool
is_valid s r =
    let category = value_of r.failure_category in
    not (progress s == 0)
    && listed r.failure_category
    && listed r.failure_detail
    && fits (value_of r.failure_detail) category
    && not (is_failure s && is_none category)
    && (is_failure s || is_rolled_back s || is_none category)
    && is_digest r.previous_wheel_sha256
    && (is_none r.previous_wheel_sha256 || is_succeeded s)
    && (not r.rollback_available || (is_succeeded s && is_some r.previous_wheel_sha256))

abbrev pub same_category : Option FailureCategory → Option FailureCategory → Bool
same_category none none = true
same_category (some a) (some b) = category_code a == category_code b
same_category _ _ = false

abbrev pub same_detail : Option FailureDetail → Option FailureDetail → Bool
same_detail none none = true
same_detail (some a) (some b) = detail_code a == detail_code b
same_detail _ _ = false

abbrev pub same_text : Option String → Option String → Bool
same_text none none = true
same_text (some a) (some b) = str_eq a b
same_text _ _ = false

abbrev pub same_flag : Bool → Bool → Bool
same_flag true b = b
same_flag false b = not b

-- A report of the state that the operation has says the same of its result.
unfoldable pub repeats : LifecycleState → Report → DeviceAgentLifecycle → Bool
repeats s r o =
    not (is_terminal s)
    || (same_category o.failure_category (value_of r.failure_category)
        && same_detail o.failure_detail (value_of r.failure_detail)
        && same_flag o.rollback_available r.rollback_available
        && (not (is_succeeded s) || same_text o.previous_wheel_sha256 r.previous_wheel_sha256))

-- The writes to the operation.
unfoldable pub write_report :
    LifecycleState → Report → Time → DeviceAgentLifecycle → DeviceAgentLifecycle
write_report s r now o =
    let verified = is_succeeded s && is_some r.previous_wheel_sha256 in
    record o {
      state = s;
      updated_at = now;
      failure_category = if is_terminal s then value_of r.failure_category else none;
      failure_detail = if is_terminal s then value_of r.failure_detail else none;
      completed_at = if is_terminal s then some now else o.completed_at;
      previous_wheel_sha256 = if verified then r.previous_wheel_sha256 else o.previous_wheel_sha256;
      rollback_available = if verified then r.rollback_available else o.rollback_available;
    }

-- What a valid report does to the operation: the error, or the operation and whether it was written.
unfoldable pub apply_report :
    LifecycleState → Report → Time → DeviceAgentLifecycle → Result (DeviceAgentLifecycle × Bool)
unfolding repeats write_report
apply_report s r now o =
    let category = value_of r.failure_category in
    if same_state o.state s
    then (if repeats s r o then ok (o, false) else raise lifecycle_conflict)
    else if is_terminal o.state
    then raise lifecycle_conflict
    else if not (is_terminal s) && leb (progress s) (progress o.state)
    then raise lifecycle_conflict
    else if is_rolled_back s && is_upgrade o.action && is_none category
    then raise value_error
    else if is_succeeded s && not (is_upgrade o.action)
    then raise value_error
    else if is_rolled_back s && not (is_upgrade o.action) && is_some category
    then raise value_error
    else ok (write_report s r now o, true)
