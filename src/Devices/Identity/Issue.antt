-- ===== src/Devices/Identity/Issue.antt =====
-- Enrolling devices, and issuing, rotating, revoking and checking their credentials: the part of
-- `IdentityService` of server/app/devices/service.py that is about credentials, and
-- `generate_credential` of server/app/devices/credentials.py.
use skybeat.Base.{
  ℕ, ◌+◌, String, Bool, true, ◌&&◌, [], ◌∷◌, ◌++◌, Option, none, some, leb, ltb, ◌==◌, is_none,
  str_eq, str_append, if◌then◌else◌, find?, select, update_where, length, min,
}
use skybeat.Store.{
  Db, Env, Result, ok, raise, not_found, identity_error, conflict, authentication_failed, ◌>>=◌,
  require, ensure,
}
use skybeat.Store.Audit.{add_audit}
use skybeat.Store.Kinds
use skybeat.Store.Kinds.{online}
use skybeat.Store.Rows.{
  Time, hours, Project, Device, DeviceCredential, no_details, credential_details, rotation_details,
}
use skybeat.Devices.Credentials.{parse_credential, verify_token, is_live}
use skybeat.Devices.Identity.{
  canonical, lock_device, label, filled_label, GpuPolicy, audit_device, lock_project,
}

-- An argument `datetime`: without a timezone, or with one, as UTC.
pub data Instant : Type 0 where
  naive : Instant
  aware : Time → Instant

-- `_expiry`.
unfoldable pub expiry : Option Instant → Time → Result (Option Time)
expiry none now = ok none
expiry (some naive) now = raise identity_error
expiry (some (aware t)) now = if leb t now then raise identity_error else ok (some t)

pub record GeneratedCredential : Type 0 where
  pub credential_id : String
  pub token : String
  pub digest : String

-- `generate_credential`, where the next random values are those of `draws` and after.
unfoldable pub generate_credential : Env → ℕ → GeneratedCredential
generate_credential env draws =
    let token =
      str_append "sb1."
        (str_append (env.uuid4 draws) (str_append "." (env.token_urlsafe (draws + 1)))) in
    record { credential_id = env.uuid4 draws; token = token; digest = env.sha256_digest token }

-- The row that `_credential` inserts.
abbrev pub credential_row : ℕ → GeneratedCredential → ℕ → Time → Option Time → DeviceCredential
credential_row id g device_id now expires_at = record {
  id = id;
  credential_id = g.credential_id;
  device_id = device_id;
  token_digest = g.digest;
  created_at = now;
  expires_at = expires_at;
  revoked_at = none;
  last_used_at = none;
}

-- `_credential`.
unfoldable pub add_credential :
    Env → String → Device → Time → Option Time → Db → GeneratedCredential × Db
unfolding add_audit
add_credential env actor device now expires_at db =
    let generated = generate_credential env db.draws in
    (
      generated,
      audit_device actor "credential.created" device now
          (credential_details generated.credential_id)
          (record db {
            credentials =
                db.credentials
                ++ credential_row db.next_credential generated device.id now expires_at ∷ [];
            next_credential = db.next_credential + 1;
            draws = db.draws + 2;
          }),
    )

-- The device that `enroll_in_session` inserts.
unfoldable pub new_device :
    ℕ → String → Project → String → Option String → GpuPolicy → Time → Device
new_device id uuid project name description policy now = record {
  id = id;
  device_uuid = uuid;
  project_id = project.id;
  name = name;
  description = description;
  monitoring_enabled = true;
  monitoring_started_at = now;
  last_seen_at = none;
  availability_state = online;
  gpu_monitoring_enabled = policy.monitoring_enabled;
  expected_gpu_min_count = policy.min_count;
  expected_gpu_uuids = policy.uuids;
  gpu_effective_state = Kinds.ok;
  gpu_failure_streak = 0;
  gpu_ok_streak = 0;
  gpu_last_sample_at = none;
  created_at = now;
  updated_at = now;
}

pub record Enrollment : Type 0 where
  pub device : Device
  pub credential : GeneratedCredential

-- The rows of an enrolment.
unfoldable pub enroll_device :
    Env
    → String
    → String
    → Option String
    → Project
    → GpuPolicy
    → Option Time
    → Time
    → Db
    → Enrollment × Db
unfolding new_device add_audit add_credential
enroll_device env actor name description project policy expires now db =
    let device =
      new_device db.next_device (env.uuid4 db.draws) project name description policy now in
    let audited = audit_device actor "device.enrolled" device now no_details (record db {
      devices = db.devices ++ device ∷ [];
      next_device = db.next_device + 1;
      draws = db.draws + 1;
    }) in
    let (credential, db1) = add_credential env actor device now expires audited in
    (record { device = device; credential = credential }, db1)

unfoldable pub enroll_in_session :
    Env
    → String
    → String
    → String
    → Option String
    → GpuPolicy
    → Option Instant
    → Time
    → Db
    → Result (Enrollment × Db)
unfolding label filled_label lock_project expiry enroll_device
enroll_in_session env actor project_uuid name description policy expires_at now db = do
  name1 ← label env 128 name
  description1 ← filled_label env description
  project ← lock_project env project_uuid db
  expires ← ensure conflict project.is_active (expiry expires_at now)
  ok (enroll_device env actor name1 description1 project policy expires now db)

-- `enroll`, with a policy that has been constructed.
unfoldable pub enroll :
    Env
    → String
    → String
    → String
    → GpuPolicy
    → Option Instant
    → Time
    → Db
    → Result (Enrollment × Db)
unfolding enroll_in_session
enroll env actor project_uuid name policy expires_at now db = do
  name1 ← label env 128 name
  enroll_in_session env actor project_uuid name1 none policy expires_at now db

-- The credentials that `rotate_in_session` calls active.
abbrev pub is_active_credential : ℕ → Time → DeviceCredential → Bool
is_active_credential device_id now c = c.device_id == device_id && is_live now c

-- `min(credential.expires_at or overlap_end, overlap_end)`.
abbrev pub shorten : Time → DeviceCredential → DeviceCredential
shorten overlap_end c = record c {
  expires_at = elim c.expires_at [ none ↦ some overlap_end | some t ↦ some (min t overlap_end) ];
}

unfoldable pub rotate_device :
    Env → String → ℕ → Option Time → Time → Device → Db → GeneratedCredential × Db
unfolding add_credential add_audit
rotate_device env actor overlap_hours expires_at now device db =
    let overlap_end = now + hours overlap_hours in
    let (generated, db1) = add_credential env actor device now expires_at (record db {
      credentials =
          update_where (is_active_credential device.id now) (shorten overlap_end) db.credentials;
    }) in
    (
      generated,
      audit_device actor "credential.rotated" device now
          (rotation_details generated.credential_id overlap_hours) db1,
    )

unfoldable pub rotate_in_session :
    Env → String → String → ℕ → Option Instant → Time → Db → Result (GeneratedCredential × Db)
unfolding lock_device expiry rotate_device
rotate_in_session env actor device_uuid overlap_hours expires_at now db =
    ensure identity_error (leb 1 overlap_hours && leb overlap_hours 24) (do
      device ← lock_device env device_uuid db
      expires ← expiry expires_at now
      ensure conflict (ltb (length (select (is_active_credential device.id now) db.credentials)) 2)
          (ok (rotate_device env actor overlap_hours expires now device db)))

abbrev pub revoke_row : Time → DeviceCredential → DeviceCredential
revoke_row now c = record c { revoked_at = some now }

unfoldable pub revoke : Env → String → Time → String → String → Db → Result Db
unfolding lock_device add_audit
revoke env actor now device_uuid credential_id db = do
  device ← lock_device env device_uuid db
  uuid ← canonical env credential_id
  credential ←
      require not_found
        (find? (λ c. str_eq c.credential_id uuid && c.device_id == device.id) db.credentials)
  ok (
      if is_none credential.revoked_at
      then audit_device actor "credential.revoked" device now
          (credential_details credential.credential_id)
          (record db {
            credentials = update_where (λ c. c.id == credential.id) (revoke_row now) db.credentials;
          })
      else db)

-- `rotate`, whose overlap is 24 hours where none is given.
unfoldable pub rotate :
    Env
    → String
    → String
    → Option ℕ
    → Option Instant
    → Time
    → Db
    → Result (GeneratedCredential × Db)
unfolding rotate_in_session
rotate env actor device_uuid none expires_at now db =
    rotate_in_session env actor device_uuid 24 expires_at now db
rotate env actor device_uuid (some overlap_hours) expires_at now db =
    rotate_in_session env actor device_uuid overlap_hours expires_at now db

-- `authenticate`: whatever is wrong, the same exception.
unfoldable pub authenticate : Env → Time → String → String → Db → Result Device
unfolding lock_device parse_credential verify_token
authenticate env now device_uuid token db = do
  parsed ← require authentication_failed (parse_credential env token)
  device ← elim (lock_device env device_uuid db) [
    | raise e ↦ raise authentication_failed
    | ok d ↦ ok d
  ]
  credential ← require authentication_failed (
      find? (λ c. str_eq c.credential_id parsed.credential_id && c.device_id == device.id)
        db.credentials)
  ensure authentication_failed
      (device.monitoring_enabled
        && is_live now credential
        && verify_token env token credential.token_digest)
      (ok device)
