-- ===== src/Enrollment/Service.antt =====
-- `AgentEnrollmentService` of server/app/enrollment/service.py. A method is a transaction at `now`;
-- `actor` is the service's, which its constructor has checked.
pub mod Overview
pub mod OneTime
pub mod Runs
use skybeat.Base.{
  ℕ, ◌+◌, ◌*◌, ◌-◌, String, Bool, true, false, not, ◌&&◌, ◌||◌, List, [], ◌∷◌, ◌++◌, Option, none,
  some, leb, ltb, ◌==◌, is_none, is_some, str_eq, if◌then◌else◌, find?, any, update_where,
}
use skybeat.Store.{
  Db, Env, Result, ok, raise, value_error, integrity_error, not_found, identity_error, conflict,
  enrollment_rejected, receipt_rejected, contract_violated, ◌>>=◌, require, ensure,
}
use skybeat.Store.Audit.{add_audit}
use skybeat.Store.Kinds.{EnrollmentMode, new, replace}
use skybeat.Store.Rows.{
  Time, seconds, hours, Project, Device, AgentEnrollment, AuditDetails, enrollment_details,
}
use skybeat.Devices.Identity.{GpuPolicy, valid_policy, filled_label, lock_project, lock_device}
use skybeat.Devices.Identity.Issue.{GeneratedCredential, enroll_in_session, rotate_in_session}
use skybeat.Enrollment.Token.{EnrollmentToken, generate, parse}

-- `ENROLLMENT_TTL` and the default `VERIFICATION_TTL`.
abbrev pub enrollment_ttl : Time
enrollment_ttl = hours 24

abbrev pub verification_ttl : Time
verification_ttl = seconds 600

-- The fields that the constructor sets, less the lifetime that it fixes.
pub record AgentEnrollmentService : Type 0 where
  pub actor : String
  pub verification_lifetime : Time
  pub offline_after : Time

-- The constructor: the lifetimes, and the threshold in seconds.
unfoldable pub new_service : String → Time → Time → ℕ → Result AgentEnrollmentService
new_service actor enrollment_lifetime verification_lifetime offline_after_seconds =
    ensure value_error (enrollment_lifetime == enrollment_ttl) (
      ensure value_error
        (leb (seconds 1) verification_lifetime && leb verification_lifetime (seconds 1800))
        (ensure value_error (leb 1 offline_after_seconds) (
          ok (record {
            actor = actor;
            verification_lifetime = verification_lifetime;
            offline_after = seconds offline_after_seconds;
          }))))

-- `a or b` of two ids, none of which is 0.
abbrev pub first_id : Option ℕ → Option ℕ → Option ℕ
first_id none b = b
first_id (some a) b = some a

-- `_audit`.
unfoldable pub audit_enrollment : String → String → Time → AgentEnrollment → Db → Db
unfolding add_audit
audit_enrollment actor action now e =
    add_audit actor action e.project_id (first_id e.issued_device_id e.replacement_device_id) now
      (enrollment_details (record { enrollment_id = e.public_id; mode = e.mode }))

-- `_project`.
unfoldable pub active_project : Env → String → Db → Result Project
unfolding lock_project
active_project env project_uuid db = do
  project ← lock_project env project_uuid db
  ensure conflict project.is_active (ok project)

-- What is asked of `create_intent`.
pub record Intent : Type 0 where
  pub mode : EnrollmentMode
  pub project_uuid : Option String
  pub replacement_device_uuid : Option String
  pub device_name : Option String
  pub description : Option String
  pub policy : Option GpuPolicy
  pub lifetime : Option Time

-- The target: the ids of the project and of the device to replace.
unfoldable pub target_of : Env → Intent → Option String → Db → Result (Option ℕ × Option ℕ)
unfolding active_project lock_device
target_of env i description db = elim i.mode [
  | new ↦ (do
    project_uuid ← require value_error i.project_uuid
    ensure value_error (is_some i.device_name && is_some i.policy) (
        ensure value_error (is_none i.replacement_device_uuid)
          (do project ← active_project env project_uuid db; ok (some project.id, none))))
  | replace ↦ (do
    device_uuid ← require value_error i.replacement_device_uuid
    ensure value_error
        (is_none i.project_uuid && is_none i.device_name && is_none description && is_none i.policy)
        (do device ← lock_device env device_uuid db; ok (none, some device.id)))
]

-- The row of an intent.
abbrev pub new_intent :
    ℕ
    → String
    → Intent
    → Option String
    → Option ℕ × Option ℕ
    → EnrollmentToken
    → Time
    → AgentEnrollment
new_intent id actor i description target token now = record {
  id = id;
  public_id = token.identifier;
  enrollment_digest = token.secret_digest;
  verification_digest = none;
  mode = i.mode;
  project_id = target.0;
  replacement_device_id = target.1;
  issued_device_id = none;
  device_name = i.device_name;
  description = description;
  gpu_monitoring_enabled = elim i.policy [ none ↦ none | some p ↦ some p.monitoring_enabled ];
  expected_gpu_min_count = elim i.policy [ none ↦ none | some p ↦ some p.min_count ];
  created_by = actor;
  created_at = now;
  expires_at = now + enrollment_ttl;
  used_at = none;
  verification_expires_at = none;
}

-- The insertion, by the unique keys on the identifier and the digest.
unfoldable pub insert_intent : AgentEnrollment → Db → Result Db
insert_intent e db =
    ensure integrity_error
      (not (
        any
          (λ (x : AgentEnrollment).
            str_eq x.public_id e.public_id || str_eq x.enrollment_digest e.enrollment_digest)
          db.enrollments))
      (ok (record db {
        enrollments = db.enrollments ++ e ∷ [];
        next_enrollment = db.next_enrollment + 1;
      }))

pub record IssuedEnrollmentIntent : Type 0 where
  pub enrollment : AgentEnrollment
  pub token : EnrollmentToken

-- `create_intent` after its token, and what the drawing has left of the random values.
unfoldable pub create_from :
    Env
    → AgentEnrollmentService
    → Time
    → Intent
    → EnrollmentToken × ℕ
    → Db
    → Result (IssuedEnrollmentIntent × Db)
unfolding filled_label target_of insert_intent audit_enrollment
create_from env service now i drawn db = do
  description ← filled_label env i.description
  target ← target_of env i description db
  let e = new_intent db.next_enrollment service.actor i description target drawn.0 now in
      do
        db1 ← insert_intent e (record db { draws = drawn.1 })
        ok (
          record { enrollment = e; token = drawn.0 },
          audit_enrollment service.actor "agent_enrollment.intent_created" now e db1,
        )

unfoldable pub create_intent :
    Env → AgentEnrollmentService → Time → Intent → Db → Result (IssuedEnrollmentIntent × Db)
unfolding generate create_from
create_intent env service now i db =
    ensure value_error
      (elim i.lifetime [ none ↦ true | some lifetime ↦ lifetime == enrollment_ttl ])
      (do drawn ← generate env "sbe1" none db.draws; create_from env service now i drawn db)

-- `_locked_enrollment`.
unfoldable pub locked_enrollment : EnrollmentToken → Db → Result AgentEnrollment
locked_enrollment token db = do
  e ←
      require enrollment_rejected
        (find? (λ (x : AgentEnrollment). str_eq x.public_id token.identifier) db.enrollments)
  ensure enrollment_rejected (str_eq e.enrollment_digest token.secret_digest) (ok e)

-- The test of `expected_replacement_device_uuid`.
unfoldable pub is_expected : Option String → AgentEnrollment → Db → Bool
is_expected none e db = true
is_expected (some uuid) e db = elim e.mode [
  | new ↦ false
  | replace ↦ elim e.replacement_device_id [
    | none ↦ false
    | some id ↦ elim (find? (λ (d : Device). d.id == id) db.devices) [
      | none ↦ false
      | some d ↦ str_eq d.device_uuid uuid
    ]
  ]
]

-- The credential of an exchange: a new device, with a policy that names no GPUs, or the rotation
-- of the credentials of the device to replace, with an overlap of an hour.
unfoldable pub issue_new :
    Env → String → Time → AgentEnrollment → Db → Result ((Device × GeneratedCredential) × Db)
unfolding enroll_in_session valid_policy
issue_new env actor now e db = do
  project_id ← require contract_violated e.project_id
  device_name ← require contract_violated e.device_name
  monitoring_enabled ← require contract_violated e.gpu_monitoring_enabled
  min_count ← require contract_violated e.expected_gpu_min_count
  project ← require not_found (find? (λ (p : Project). p.id == project_id) db.projects)
  let policy : GpuPolicy = record {
    monitoring_enabled = monitoring_enabled;
    min_count = min_count;
    uuids = [];
  } in
      ensure identity_error (valid_policy policy) (do
        created ←
            enroll_in_session env actor project.public_id device_name e.description policy none now
              db
        ok ((created.0.device, created.0.credential), created.1))

unfoldable pub issue_replacement :
    Env → String → Time → AgentEnrollment → Db → Result ((Device × GeneratedCredential) × Db)
unfolding rotate_in_session
issue_replacement env actor now e db = do
  device_id ← require contract_violated e.replacement_device_id
  device ← require not_found (find? (λ (d : Device). d.id == device_id) db.devices)
  rotated ← rotate_in_session env actor device.device_uuid 1 none now db
  ok ((device, rotated.0), rotated.1)

unfoldable pub issue :
    Env → String → Time → AgentEnrollment → Db → Result ((Device × GeneratedCredential) × Db)
unfolding issue_new issue_replacement
issue env actor now e db = elim e.mode [
  | new ↦ issue_new env actor now e db
  | replace ↦ issue_replacement env actor now e db
]

abbrev pub used_row :
    AgentEnrollmentService → Time → ℕ → EnrollmentToken → AgentEnrollment → AgentEnrollment
used_row service now device_id receipt e = record e {
  used_at = some now;
  issued_device_id = some device_id;
  verification_digest = some receipt.secret_digest;
  verification_expires_at = some (now + service.verification_lifetime);
}

pub record EnrollmentExchange : Type 0 where
  pub device : Device
  pub credential : GeneratedCredential
  pub verification_token : EnrollmentToken

-- `exchange` from the locked row that has passed the tests.
unfoldable pub exchange_row :
    Env → AgentEnrollmentService → Time → AgentEnrollment → Db → Result (EnrollmentExchange × Db)
unfolding generate issue audit_enrollment
exchange_row env service now e db = do
  receipt ← generate env "sbv1" (some e.public_id) db.draws
  issued ← issue env service.actor now e (record db { draws = receipt.1 })
  let db1 = issued.1 in
      ok (
        record { device = issued.0.0; credential = issued.0.1; verification_token = receipt.0 },
        audit_enrollment service.actor "agent_enrollment.exchanged" now
            (used_row service now issued.0.0.id receipt.0 e)
            (record db1 {
              enrollments =
                  update_where (λ x. x.id == e.id) (used_row service now issued.0.0.id receipt.0)
                    db1.enrollments;
            }),
      )

unfoldable pub exchange :
    Env
    → AgentEnrollmentService
    → Time
    → String
    → Option String
    → Db
    → Result (EnrollmentExchange × Db)
unfolding parse locked_enrollment is_expected exchange_row
exchange env service now token_value expected db = do
  token ← require enrollment_rejected (parse env "sbe1" token_value)
  e ← locked_enrollment token db
  ensure enrollment_rejected (is_expected expected e db) (
      ensure enrollment_rejected (is_none e.used_at && ltb now e.expires_at)
        (exchange_row env service now e db))

-- A time that is at least another, where there is one.
abbrev pub seen_since : Option Time → Time → Bool
seen_since none t = false
seen_since (some seen) t = leb t seen

-- `verify_receipt`, which returns `accepted_heartbeat`.
unfoldable pub verify_receipt : Env → Time → String → Db → Result Bool
unfolding parse
verify_receipt env now token_value db = do
  token ← require receipt_rejected (parse env "sbv1" token_value)
  e ←
      require receipt_rejected
        (find? (λ (x : AgentEnrollment). str_eq x.public_id token.identifier) db.enrollments)
  digest ← require receipt_rejected e.verification_digest
  expires ← require receipt_rejected e.verification_expires_at
  used_at ← require receipt_rejected e.used_at
  device_id ← require receipt_rejected e.issued_device_id
  ensure receipt_rejected (ltb now expires && str_eq digest token.secret_digest) (do
    device ← require receipt_rejected (find? (λ (d : Device). d.id == device_id) db.devices)
    ok (seen_since device.last_seen_at used_at))
