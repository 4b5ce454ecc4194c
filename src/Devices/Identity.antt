-- ===== src/Devices/Identity.antt =====
-- `IdentityService` of server/app/devices/service.py: projects, devices and their credentials. A
-- method is a transaction at `now`; `actor` is the service's, which its constructor has checked.
pub mod Issue
pub mod Tokens
pub mod Keyring
pub mod Access
use Prim.Native.Char.{code}
use skybeat.Base.{
  ℕ, ◌+◌, ◌≡◌, String, Bool, true, false, not, ◌&&◌, ◌||◌, List, [], ◌∷◌, ◌++◌, Option, none, some,
  leb, ltb, ◌==◌, is_none, is_some, str_eq, str_append, if◌then◌else◌, find?, select, update_where,
  any, length, min,
}
use skybeat.Store.{
  Db, Env, Result, ok, raise, value_error, not_found, identity_error, conflict, ◌>>=◌, require,
  ensure,
}
use skybeat.Store.Audit.{add_audit}
use skybeat.Store.Kinds
use skybeat.Store.Kinds.{online}
use skybeat.Store.Rows.{
  Time, hours, Project, Device, DeviceCredential, AuditDetails, no_details, credential_details,
  rotation_details, move_details,
}
use skybeat.Devices.Credentials.{text_length, is_live}

-- `_uuid`.
abbrev pub canonical : Env → String → Result String
canonical env value = require identity_error (env.parse_uuid value)

-- `lock_device`.
unfoldable pub lock_device : Env → String → Db → Result Device
lock_device env device_uuid db = do
  uuid ← canonical env device_uuid
  require not_found (find? (λ (d : Device). str_eq d.device_uuid uuid) db.devices)

unfoldable pub has_control : String → Bool
has_control String.[] = false
has_control (String.◌∷◌ c s) = let rest = has_control s in ltb (code c) 32 || code c == 127 || rest

-- `_label`.
unfoldable pub label : Env → ℕ → String → Result String
unfolding has_control
label env limit value =
    if str_eq (env.strip value) "" || ltb limit (text_length value) || has_control value
    then raise identity_error
    else ok (env.strip value)

-- `_label(value, 512) if value else None`.
unfoldable pub optional_label : Env → Option String → Result (Option String)
unfolding label
optional_label env none = ok none
optional_label env (some value) =
    if str_eq value "" then ok none else (do v ← label env 512 value; ok (some v))

-- `_label(value, 512) if value and value.strip() else None`.
unfoldable pub filled_label : Env → Option String → Result (Option String)
unfolding label
filled_label env none = ok none
filled_label env (some value) =
    if str_eq value "" || str_eq (env.strip value) ""
    then ok none
    else (do v ← label env 512 value; ok (some v))

pub record GpuPolicy : Type 0 where
  pub monitoring_enabled : Bool
  pub min_count : ℕ
  pub uuids : List String

unfoldable pub is_identifier_text : String → Bool
is_identifier_text String.[] = true
is_identifier_text (String.◌∷◌ c s) =
    let rest = is_identifier_text s in
    ((leb b'0' (code c) && leb (code c) b'9')
      || (leb b'A' (code c) && leb (code c) b'Z')
      || (leb b'a' (code c) && leb (code c) b'z')
      || code c == b'_'
      || code c == b'.'
      || code c == b':'
      || code c == b'-')
    && rest

-- Distinct and each a match of `[A-Za-z0-9_.:-]{1,96}`.
unfoldable pub valid_identifiers : List String → Bool
unfolding is_identifier_text
valid_identifiers [] = true
valid_identifiers (u ∷ us) =
    leb 1 (text_length u)
    && leb (text_length u) 96
    && is_identifier_text u
    && not (any (str_eq u) us)
    && valid_identifiers us

-- The tests of `GPUPolicy.__post_init__`.
unfoldable pub valid_policy : GpuPolicy → Bool
unfolding valid_identifiers
valid_policy p =
    leb p.min_count 64
    && leb (length p.uuids) 64
    && valid_identifiers p.uuids
    && (p.monitoring_enabled || (p.min_count == 0 && length p.uuids == 0))

abbrev pub audit_device : String → String → Device → Time → AuditDetails → Db → Db
audit_device actor action device = add_audit actor action (some device.project_id) (some device.id)

abbrev pub audit_project : String → String → Project → Time → AuditDetails → Db → Db
audit_project actor action project = add_audit actor action (some project.id) none

-- `_project`.
unfoldable pub lock_project : Env → String → Db → Result Project
lock_project env public_id db = do
  uuid ← canonical env public_id
  require not_found (find? (λ (p : Project). str_eq p.public_id uuid) db.projects)

unfoldable pub create_project :
    Env → String → Time → String → Option String → Db → Result (Project × Db)
unfolding optional_label add_audit
create_project env actor now name description db = do
  name1 ← label env 128 name
  description1 ← optional_label env description
  let project : Project = record {
    id = db.next_project;
    public_id = env.uuid4 db.draws;
    name = name1;
    description = description1;
    is_active = true;
    created_at = now;
    updated_at = now;
  } in
      ok (
        project,
        audit_project actor "project.created" project now no_details (record db {
          projects = db.projects ++ project ∷ [];
          next_project = db.next_project + 1;
          draws = db.draws + 1;
        }),
      )

abbrev pub save_project : Project → Db → Db
save_project project db = record db {
  projects = update_where (λ p. p.id == project.id) (λ _. project) db.projects;
}

abbrev pub write_device : Device → Db → Db
write_device device db = record db {
  devices = update_where (λ d. d.id == device.id) (λ _. device) db.devices;
}

unfoldable pub changed_name : Env → Option String → String → Result String
changed_name env none name = ok name
changed_name env (some value) name = label env 128 value

unfoldable pub changed_description : Env → Option String → Option String → Result (Option String)
unfolding optional_label
changed_description env none description = ok description
changed_description env (some value) description = optional_label env (some value)

abbrev pub changed_flag : Option Bool → Bool → Bool
changed_flag none b = b
changed_flag (some value) b = value

unfoldable pub update_project :
    Env
    → String
    → Time
    → String
    → Option String
    → Option String
    → Option Bool
    → Db
    → Result (Project × Db)
unfolding lock_project add_audit changed_name changed_description
update_project env actor now project_uuid name description is_active db = do
  project ← lock_project env project_uuid db
  name1 ← changed_name env name project.name
  description1 ← changed_description env description project.description
  let changed : Project = record project {
    name = name1;
    description = description1;
    is_active = changed_flag is_active project.is_active;
    updated_at = now;
  } in
      ok (
        changed,
        audit_project actor "project.updated" changed now no_details (save_project changed db),
      )

unfoldable pub rename : Env → String → Time → String → String → Db → Result (Device × Db)
unfolding label lock_device add_audit
rename env actor now device_uuid name db = do
  name1 ← label env 128 name
  device ← lock_device env device_uuid db
  let changed = record device { name = name1; updated_at = now } in
      ok (
        changed,
        audit_device actor "device.renamed" changed now no_details (write_device changed db),
      )

unfoldable pub move : Env → String → Time → String → String → Db → Result (Device × Db)
unfolding lock_device lock_project add_audit
move env actor now device_uuid project_uuid db = do
  device ← lock_device env device_uuid db
  project ← lock_project env project_uuid db
  let changed = record device { project_id = project.id; updated_at = now } in
      ensure conflict project.is_active (
        ok (
          changed,
          audit_device actor "device.moved" changed now (move_details device.project_id)
              (write_device changed db),
        ))

abbrev pub same_bool : Bool → Bool → Bool
same_bool true b = b
same_bool false b = not b

unfoldable pub set_enabled : Env → String → Time → String → Bool → Db → Result (Device × Db)
unfolding lock_device add_audit
set_enabled env actor now device_uuid enabled db = do
  device ← lock_device env device_uuid db
  let changed = record device {
    monitoring_enabled = enabled;
    updated_at = now;
    monitoring_started_at = if enabled then now else device.monitoring_started_at;
  } in
      ok (
        if same_bool device.monitoring_enabled enabled then (device, db) else (
          changed,
          audit_device actor (if enabled then "device.enabled" else "device.disabled") changed now
              no_details (write_device changed db),
        ))

unfoldable pub set_gpu_policy : Env → String → Time → String → GpuPolicy → Db → Result (Device × Db)
unfolding lock_device add_audit
set_gpu_policy env actor now device_uuid policy db = do
  device ← lock_device env device_uuid db
  let changed = record device {
    gpu_monitoring_enabled = policy.monitoring_enabled;
    expected_gpu_min_count = policy.min_count;
    expected_gpu_uuids = policy.uuids;
    updated_at = now;
  } in
      ok (
        changed,
        audit_device actor "device.gpu_policy_changed" changed now no_details
            (write_device changed db),
      )
