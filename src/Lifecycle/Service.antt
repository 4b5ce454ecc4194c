-- ===== src/Lifecycle/Service.antt =====
-- `AgentLifecycleService` of server/app/lifecycle/service.py: reports and requests as transactions.
-- The release that is current is what server/app/releases found on disk, an argument here.
pub mod Slots
pub mod Requests
use Prim.Native.Char.{code}
use skybeat.Base.{
  ℕ, ◌+◌, ◌-◌, ◌*◌, String, Bool, true, false, not, ◌&&◌, ◌||◌, List, [], ◌∷◌, ◌++◌, Option, none,
  some, leb, ltb, ◌==◌, is_none, is_some, str_eq, if◌then◌else◌, find?, select, update_where, any,
}
use skybeat.Store.{
  Db, Env, Result, ok, raise, value_error, not_found, lifecycle_conflict, release_unavailable,
  integrity_error, ◌>>=◌, require, ensure,
}
use skybeat.Store.Kinds.{LifecycleState, LifecycleAction, upgrade, rollback, requested, is_offline}
use skybeat.Store.Audit.{add_audit}
use skybeat.Store.Rows.{
  Time, Device, DeviceAgentLifecycle, AuditEvent, DeviceLatest, lifecycle_details,
}
use skybeat.Devices.Identity.{lock_device}
use skybeat.Devices.Credentials.{authenticate_token, split_dot}
use skybeat.Lifecycle.Report.{Report, is_terminal, is_succeeded, is_upgrade, is_valid, apply_report}

abbrev pub is_operation_of : ℕ → DeviceAgentLifecycle → Bool
is_operation_of device_id o = o.device_id == device_id

-- `session.get(DeviceAgentLifecycle, device.id)`.
abbrev pub operation_of : ℕ → Db → Option DeviceAgentLifecycle
operation_of device_id db = find? (is_operation_of device_id) db.operations

-- `_audit`.
unfoldable pub audit : Device → String → String → Time → DeviceAgentLifecycle → Db → Db
unfolding add_audit
audit device actor action now o =
    add_audit actor action (some device.project_id) (some device.id) now (
      lifecycle_details (record {
        operation_id = o.operation_uuid;
        action = o.action;
        target_version = o.target_version;
        previous_version = o.previous_version;
        state = o.state;
        failure_category = o.failure_category;
        failure_detail = o.failure_detail;
      }))

-- `f"agent.{state.lower()}"` for the final states.
abbrev pub final_action : LifecycleState → String
final_action LifecycleState.succeeded = "agent.succeeded"
final_action LifecycleState.failed = "agent.failed"
final_action LifecycleState.rolled_back = "agent.rolled_back"
final_action LifecycleState.rollback_failed = "agent.rollback_failed"
final_action _ = ""

abbrev pub save_operation : DeviceAgentLifecycle → Db → Db
save_operation o db = record db {
  operations = update_where (is_operation_of o.device_id) (λ _. o) db.operations;
}

-- The end of `device_report`: the write, and the audit of a final state.
unfoldable pub finish_report :
    Device → Time → DeviceAgentLifecycle × Bool → Db → DeviceAgentLifecycle × Db
unfolding audit
finish_report device now (o, written) db =
    if written
    then (let saved = save_operation o db in
        (
          o,
          if is_terminal o.state
              then audit device "agent_lifecycle" (final_action o.state) now o saved
              else saved,
        ))
    else (o, db)

unfoldable pub report_state :
    Env
    → Time
    → Time
    → String
    → String
    → LifecycleState
    → Report
    → Db
    → Result (DeviceAgentLifecycle × Db)
unfolding lock_device finish_report
report_state env checked_at now token operation_id s r db = do
  sender ← authenticate_token env checked_at token db
  device ← lock_device env sender.device_uuid db
  operation ← require not_found (operation_of device.id db)
  changed ←
      ensure not_found (str_eq operation.operation_uuid operation_id)
        (apply_report s r now operation)
  ok (finish_report device now changed db)

unfoldable pub device_report :
    Env → Time → Time → String → String → Report → Db → Result (DeviceAgentLifecycle × Db)
unfolding report_state
device_report env checked_at now token operation_id r db = elim r.state [
  | none ↦ raise value_error
  | some s ↦
      ensure value_error (is_valid s r) (report_state env checked_at now token operation_id s r db)
]

-- `[0-9]+` as a number, `n` read so far, `some_digits` where one was read.
unfoldable pub scan_number : Bool → ℕ → String → Option ℕ
scan_number some_digits n String.[] = if some_digits then some n else none
scan_number some_digits n (String.◌∷◌ c s) =
    let rest = scan_number true (n * 10 + (code c - b'0')) s in
    if leb b'0' (code c) && leb (code c) b'9' then rest else none

pub record Version : Type 0 where
  pub major : ℕ
  pub minor : ℕ
  pub patch : ℕ

unfoldable pub version_parts : List (Option ℕ) → Option Version
version_parts (some a ∷ some b ∷ some c ∷ []) = some (record { major = a; minor = b; patch = c })
version_parts _ = none

unfoldable pub scan_numbers : List String → List (Option ℕ)
unfolding scan_number
scan_numbers [] = []
scan_numbers (s ∷ ss) = scan_number false 0 s ∷ scan_numbers ss

-- `_version`.
unfoldable pub version : Option String → Option Version
unfolding scan_numbers version_parts
version none = none
version (some value) = version_parts (scan_numbers (split_dot value))

abbrev pub version_lt : Version → Version → Bool
version_lt a b =
    ltb a.major b.major
    || (a.major == b.major && (ltb a.minor b.minor || (a.minor == b.minor && ltb a.patch b.patch)))

abbrev pub first_capable_version : Version
first_capable_version = record { major = 1; minor = 0; patch = 4 }

pub record Release : Type 0 where
  pub version : String
  pub wheel_sha256 : String
  pub archive_sha256 : String

abbrev pub installed_version : ℕ → Db → Option String
installed_version device_id db =
    elim (find? (λ (l : DeviceLatest). l.device_id == device_id) db.latest) [
      | none ↦ none
      | some l ↦ some l.agent_version
    ]

-- `DeviceAgentLifecycle(...)` of both requests.
unfoldable pub new_operation :
    ℕ
    → String
    → LifecycleAction
    → String
    → String
    → Option String
    → Option String
    → Option String
    → String
    → Time
    → DeviceAgentLifecycle
new_operation device_id uuid action target wheel archive previous previous_wheel actor now =
    record {
      device_id = device_id;
      operation_uuid = uuid;
      action = action;
      state = requested;
      target_version = target;
      target_wheel_sha256 = wheel;
      archive_sha256 = archive;
      previous_version = previous;
      previous_wheel_sha256 = previous_wheel;
      rollback_available = false;
      requester = actor;
      failure_category = none;
      failure_detail = none;
      requested_at = now;
      updated_at = now;
      completed_at = none;
    }

-- The prior operation of the device is deleted, and the new one takes its slot.
unfoldable pub replace_operation :
    Device → String → String → Time → DeviceAgentLifecycle → Db → DeviceAgentLifecycle × Db
unfolding audit
replace_operation device actor action now o db = (
  o,
  audit device actor action now o (record db {
    operations = select (λ p. not (is_operation_of device.id p)) db.operations ++ o ∷ [];
    draws = db.draws + 1;
  }),
)

abbrev pub can_upgrade : Option Version → Version → Bool
can_upgrade none target = false
can_upgrade (some current) target =
    not (version_lt current first_capable_version) && version_lt current target

unfoldable pub upgrade_device :
    Env → Time → String → Release → Version → Device → Db → Result (DeviceAgentLifecycle × Db)
unfolding new_operation replace_operation
upgrade_device env now actor release target device db =
    let installed = installed_version device.id db in
    ensure lifecycle_conflict (can_upgrade (version installed) target) (
      ok (
        replace_operation device actor "agent.upgrade.requested" now
          (new_operation device.id (env.uuid4 db.draws) upgrade release.version release.wheel_sha256
            (some release.archive_sha256) installed none actor now)
          db))

unfoldable pub upgrade_after :
    Env
    → Time
    → String
    → Release
    → Version
    → Device
    → DeviceAgentLifecycle
    → Db
    → Result (DeviceAgentLifecycle × Db)
unfolding upgrade_device
upgrade_after env now actor release target device prior db =
    let same_wheel = str_eq prior.target_wheel_sha256 release.wheel_sha256 in
    if not (is_terminal prior.state)
    then (if is_upgrade prior.action && same_wheel
        then ok (prior, db)
        else raise lifecycle_conflict)
    else if is_succeeded prior.state && same_wheel
    then ok (prior, db)
    else upgrade_device env now actor release target device db

unfoldable pub request_upgrade :
    Env → Time → String → String → Release → Db → Result (DeviceAgentLifecycle × Db)
unfolding upgrade_after
request_upgrade env now device_uuid actor release db = do
  target ← require release_unavailable (version (some release.version))
  device ← lock_device env device_uuid db
  elim (operation_of device.id db) [
    | none ↦ upgrade_device env now actor release target device db
    | some prior ↦ upgrade_after env now actor release target device prior db
  ]

unfoldable pub rollback_after :
    Env → Time → String → Device → DeviceAgentLifecycle → Db → Result (DeviceAgentLifecycle × Db)
unfolding new_operation replace_operation
rollback_after env now actor device prior db = do
  previous ← require lifecycle_conflict prior.previous_version
  wheel ← require lifecycle_conflict prior.previous_wheel_sha256
  installed ← require lifecycle_conflict (installed_version device.id db)
  ensure lifecycle_conflict (str_eq installed prior.target_version) (
      ok (
        replace_operation device actor "agent.rollback.requested" now
          (new_operation device.id (env.uuid4 db.draws) rollback previous wheel none
            (some prior.target_version) (some prior.target_wheel_sha256) actor now)
          db))

unfoldable pub request_rollback :
    Env → Time → String → String → Db → Result (DeviceAgentLifecycle × Db)
unfolding rollback_after
request_rollback env now device_uuid actor db = do
  device ← lock_device env device_uuid db
  prior ← require lifecycle_conflict (operation_of device.id db)
  ensure lifecycle_conflict (is_succeeded prior.state && prior.rollback_available)
      (rollback_after env now actor device prior db)
