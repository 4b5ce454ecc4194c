-- ===== src/Enrollment/Service/Overview.antt =====
-- What `AgentEnrollmentService` shows of its enrolments, and how an unused one is withdrawn.
use skybeat.Base.{
  ◌-◌, String, Bool, false, ◌&&◌, List, [], ◌∷◌, Option, none, some, leb, ltb, ◌==◌, is_none,
  is_some, str_eq, if◌then◌else◌, find?, any, select, take, update_where,
}
use skybeat.Base.Order.{sort}
use skybeat.Store.{Db, Result, ok, not_found, conflict, ◌>>=◌, require, ensure}
use skybeat.Store.Rows.{
  Time, Project, Device, AgentEnrollment, AuditEvent, AuditDetails, enrollment_details,
}
use skybeat.Enrollment.Service.{AgentEnrollmentService, audit_enrollment, seen_since}

-- `EnrollmentLifecycle`.
pub data EnrollmentLifecycle : Type 0 where
  pending enrolled online expired revoked : EnrollmentLifecycle

pub record EnrollmentStatus : Type 0 where
  pub enrollment_id : String
  pub state : EnrollmentLifecycle
  pub expires_at : Time
  pub device_id : Option String
  pub last_seen_at : Option Time

-- `_enrollment`.
unfoldable pub find_enrollment : String → Db → Result AgentEnrollment
find_enrollment id db =
    require not_found (find? (λ (x : AgentEnrollment). str_eq x.public_id id) db.enrollments)

-- `details["enrollment_id"]` is the text.
abbrev pub is_about : String → AuditDetails → Bool
is_about id (enrollment_details d) = str_eq d.enrollment_id id
is_about id _ = false

-- `_was_revoked` and `_was_deleted`.
unfoldable pub was : String → AgentEnrollment → Db → Bool
was action e db =
    any (λ (a : AuditEvent). str_eq a.action action && is_about e.public_id a.details) db.audit

abbrev pub was_revoked : AgentEnrollment → Db → Bool
was_revoked = was "agent_enrollment.revoked"

abbrev pub was_deleted : AgentEnrollment → Db → Bool
was_deleted = was "agent_enrollment.deleted"

-- `_status` of an enrolment that has not been used.
unfoldable pub unused_status : AgentEnrollment → Time → Db → EnrollmentStatus
unfolding was
unused_status e now db = record {
  enrollment_id = e.public_id;
  state = if was_revoked e db then revoked else if leb e.expires_at now then expired else pending;
  expires_at = e.expires_at;
  device_id = none;
  last_seen_at = none;
}

-- `_status`.
unfoldable pub status_of :
    AgentEnrollmentService → AgentEnrollment → Time → Db → Result EnrollmentStatus
unfolding unused_status
status_of service e now db = elim e.used_at [
  | none ↦ ok (unused_status e now db)
  | some used_at ↦ (do
    device_id ← require not_found e.issued_device_id
    device ← require not_found (find? (λ (d : Device). d.id == device_id) db.devices)
    ok (record {
      enrollment_id = e.public_id;
      state =
          if seen_since device.last_seen_at (now - service.offline_after) then online else enrolled;
      expires_at = e.expires_at;
      device_id = some device.device_uuid;
      last_seen_at = device.last_seen_at;
    }))
]

unfoldable pub status : AgentEnrollmentService → Time → String → Db → Result EnrollmentStatus
unfolding find_enrollment status_of
status service now enrollment_id db = do
  e ← find_enrollment enrollment_id db
  status_of service e now db

pub record ToInstallEnrollment : Type 0 where
  pub enrollment_id : String
  pub state : EnrollmentLifecycle
  pub project_name : String
  pub device_name : String

-- The condition of the query of `list_to_install`.
abbrev pub is_unused_device : AgentEnrollment → Bool
is_unused_device e =
    is_none e.used_at
    && is_some e.project_id
    && is_some e.device_name
    && is_some e.gpu_monitoring_enabled
    && is_some e.expected_gpu_min_count

-- The join with the project.
unfoldable pub join_project : List AgentEnrollment → Db → List (AgentEnrollment × Project)
join_project [] db = []
join_project (e ∷ es) db =
    let rest = join_project es db in
    elim e.project_id [
      | none ↦ rest
      | some id ↦ elim (find? (λ (p : Project). p.id == id) db.projects) [
        | none ↦ rest
        | some p ↦ (e, p) ∷ rest
      ]
    ]

abbrev pub is_newer : AgentEnrollment × Project → AgentEnrollment × Project → Bool
is_newer a b = ltb b.0.created_at a.0.created_at

-- The loop over the rows, each of which has not been used.
unfoldable pub to_install : Time → Db → List (AgentEnrollment × Project) → List ToInstallEnrollment
unfolding unused_status was
to_install now db [] = []
to_install now db (r ∷ rs) =
    let rest = to_install now db rs in
    elim r.0.device_name [
      | none ↦ rest
      | some device_name ↦
          if was_deleted r.0 db
          then rest
          else record {
            enrollment_id = r.0.public_id;
            state = (unused_status r.0 now db).state;
            project_name = r.1.name;
            device_name = device_name;
          }
            ∷ rest
    ]

unfoldable pub list_to_install : Time → Db → List ToInstallEnrollment
unfolding to_install join_project sort
list_to_install now db =
    to_install now db
      (take 200 (sort is_newer (join_project (select is_unused_device db.enrollments) db)))

abbrev pub expire_at : Time → AgentEnrollment → AgentEnrollment
expire_at now e = record e { expires_at = now }

abbrev pub expire_enrollment : Time → AgentEnrollment → Db → Db
expire_enrollment now e db = record db {
  enrollments = update_where (λ x. x.id == e.id) (expire_at now) db.enrollments;
}

unfoldable pub revoke_unused :
    AgentEnrollmentService → Time → String → Db → Result (EnrollmentStatus × Db)
unfolding find_enrollment audit_enrollment status_of
revoke_unused service now enrollment_id db = do
  e ← find_enrollment enrollment_id db
  ensure conflict (is_none e.used_at && ltb now e.expires_at) (
      let e1 = expire_at now e in
      let db1 =
        audit_enrollment service.actor "agent_enrollment.revoked" now e1
          (expire_enrollment now e db) in
      do shown ← status_of service e1 now db1; ok (shown, db1))

-- What `delete_unused` does of a revocation, and the row after it.
unfoldable pub withdraw : String → Time → AgentEnrollment → Db → AgentEnrollment × Db
unfolding was audit_enrollment
withdraw actor now e db =
    if was_revoked e db
    then (e, db)
    else if ltb now e.expires_at
    then (
      expire_at now e,
      audit_enrollment actor "agent_enrollment.revoked" now (expire_at now e)
          (expire_enrollment now e db),
    )
    else (e, audit_enrollment actor "agent_enrollment.revoked" now e db)

unfoldable pub mark_deleted : String → Time → AgentEnrollment → Db → Db
unfolding was audit_enrollment
mark_deleted actor now e db =
    if was_deleted e db then db else audit_enrollment actor "agent_enrollment.deleted" now e db

unfoldable pub delete_unused :
    AgentEnrollmentService → Time → String → Db → Result (EnrollmentStatus × Db)
unfolding find_enrollment withdraw mark_deleted status_of
delete_unused service now enrollment_id db = do
  e ← find_enrollment enrollment_id db
  ensure conflict (is_none e.used_at) (
      let withdrawn = withdraw service.actor now e db in
      let db1 = mark_deleted service.actor now withdrawn.0 withdrawn.1 in
      do shown ← status_of service withdrawn.0 now db1; ok (shown, db1))
