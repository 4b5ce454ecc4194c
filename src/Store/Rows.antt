-- ===== src/Store/Rows.antt =====
-- The rows of server/app/models that monitoring and alerting read and write. A DATETIME(6) is its
-- microseconds since an epoch, a BIGINT id a number.
use skybeat.Base.{ℕ, String, ◌*◌, Bool, List, Option}
use skybeat.Store.Kinds.{
  EnrollmentMode, UserRole, LifecycleAction, LifecycleState, FailureCategory, FailureDetail,
  Availability, GpuState, IncidentType, EventKind, Channel, Status, Outcome,
}

abbrev pub Time : Type 0
Time = ℕ

-- `timedelta(seconds=n)`.
abbrev pub seconds : ℕ → Time
seconds n = n * 1000000

abbrev pub hours : ℕ → Time
hours n = seconds (n * 3600)

pub record Project : Type 0 where
  pub id : ℕ
  pub public_id : String
  pub name : String
  pub description : Option String
  pub is_active : Bool
  pub created_at : Time
  pub updated_at : Time

pub record Device : Type 0 where
  pub id : ℕ
  pub device_uuid : String
  pub project_id : ℕ
  pub name : String
  pub description : Option String
  pub monitoring_enabled : Bool
  pub monitoring_started_at : Time
  pub last_seen_at : Option Time
  pub availability_state : Availability
  pub gpu_monitoring_enabled : Bool
  pub expected_gpu_min_count : ℕ
  pub expected_gpu_uuids : List String
  pub gpu_effective_state : GpuState
  pub gpu_failure_streak : ℕ
  pub gpu_ok_streak : ℕ
  pub gpu_last_sample_at : Option Time
  pub created_at : Time
  pub updated_at : Time

pub record Incident : Type 0 where
  pub id : ℕ
  pub incident_uuid : String
  pub device_id : ℕ
  pub incident_type : IncidentType
  pub opened_at : Time
  pub detected_at : Time
  pub closed_at : Option Time
  pub close_reason : Option String
  pub current_reason : Option String
  pub created_at : Time
  pub updated_at : Time

-- An item of a heartbeat's `gpus`: no mapping, or a mapping with its `uuid` if that is a text.
pub data GpuItem : Type 0 where
  no_mapping : GpuItem
  mapping : Option String → GpuItem

-- What the services write to the JSON column `details`: {"availability_state": …},
-- {"reported_state": …, "gpus": …} or {"effective_state": "OK"}.
pub data Details : Type 0 where
  availability_details : Availability → Details
  degraded_details : String → List GpuItem → Details
  recovered_details : Details

pub record AlertEvent : Type 0 where
  pub id : ℕ
  pub event_uuid : String
  pub incident_id : ℕ
  pub device_id : ℕ
  pub event_kind : EventKind
  pub occurred_at : Time
  pub detected_at : Time
  pub project_name_snapshot : String
  pub device_name_snapshot : String
  pub reason_snapshot : Option String
  pub details : Details
  pub created_at : Time

pub record Delivery : Type 0 where
  pub id : ℕ
  pub delivery_uuid : String
  pub event_id : ℕ
  pub channel : Channel
  pub recipient_key : String
  pub destination_snapshot : String
  pub provider_name : String
  pub status : Status
  pub attempt_count : ℕ
  pub next_attempt_at : Option Time
  pub expires_at : Time
  pub lease_token : Option String
  pub lease_expires_at : Option Time
  pub superseded_at : Option Time
  pub last_error_category : Option String
  pub provider_message_id : Option String
  pub cancel_reason : Option String
  pub created_at : Time
  pub updated_at : Time

pub record Attempt : Type 0 where
  pub id : ℕ
  pub delivery_id : ℕ
  pub attempt_no : ℕ
  pub started_at : Time
  pub finished_at : Option Time
  pub outcome : Option Outcome
  pub error_category : Option String
  pub provider_message_id : Option String

-- Event switches of a project or of a device.
pub record EventSettings : Type 0 where
  pub device_offline_enabled : Bool
  pub device_recovered_enabled : Bool
  pub gpu_degraded_enabled : Bool
  pub gpu_recovered_enabled : Bool

-- A row of `project_notification_settings` or `device_notification_settings`, by its key.
pub record SettingsRow : Type 0 where
  pub owner_id : ℕ
  pub settings : EventSettings
  pub created_at : Time
  pub updated_at : Time

-- A row of `project_notification_recipients` or `device_notification_recipients`.
pub record RecipientRow : Type 0 where
  pub id : ℕ
  pub owner_id : ℕ
  pub email : String
  pub created_at : Time
  pub updated_at : Time

-- A digest is its bytes as a text.
pub record DeviceCredential : Type 0 where
  pub id : ℕ
  pub credential_id : String
  pub device_id : ℕ
  pub token_digest : String
  pub created_at : Time
  pub expires_at : Option Time
  pub revoked_at : Option Time
  pub last_used_at : Option Time

-- The acknowledgement that `HeartbeatService.accept` stores and returns.
pub record Acknowledgement : Type 0 where
  pub schema_version : ℕ
  pub heartbeat_id : String
  pub device_id : String
  pub accepted_at : String

pub record HeartbeatReceipt : Type 0 where
  pub device_id : ℕ
  pub heartbeat_id : String
  pub payload_hash : String
  pub received_at : Time
  pub expires_at : Time
  pub response_payload : Acknowledgement

-- A JSON column that holds what the agent sent is that text.
pub record HeartbeatSample : Type 0 where
  pub id : ℕ
  pub device_id : ℕ
  pub heartbeat_id : String
  pub received_at : Time
  pub collected_at : Time
  pub schema_version : ℕ
  pub agent_version : String
  pub payload : String

-- A percentage is its decimal text, and `disk_summary` the count that it holds.
pub record DeviceLatest : Type 0 where
  pub device_id : ℕ
  pub heartbeat_id : String
  pub received_at : Time
  pub collected_at : Time
  pub schema_version : ℕ
  pub agent_version : String
  pub hostname : String
  pub primary_ip : Option String
  pub cpu_percent : Option String
  pub memory_percent : Option String
  pub disk_summary : ℕ
  pub gpu_summary : String
  pub payload : String

pub record DeviceAgentLifecycle : Type 0 where
  pub device_id : ℕ
  pub operation_uuid : String
  pub action : LifecycleAction
  pub state : LifecycleState
  pub target_version : String
  pub target_wheel_sha256 : String
  pub archive_sha256 : Option String
  pub previous_version : Option String
  pub previous_wheel_sha256 : Option String
  pub rollback_available : Bool
  pub requester : String
  pub failure_category : Option FailureCategory
  pub failure_detail : Option FailureDetail
  pub requested_at : Time
  pub updated_at : Time
  pub completed_at : Option Time

-- The details that `AgentLifecycleService._audit` writes.
pub record LifecycleDetails : Type 0 where
  pub operation_id : String
  pub action : LifecycleAction
  pub target_version : String
  pub previous_version : Option String
  pub state : LifecycleState
  pub failure_category : Option FailureCategory
  pub failure_detail : Option FailureDetail

-- The details of the other audits.
pub record EnrollmentDetails : Type 0 where
  pub enrollment_id : String
  pub mode : EnrollmentMode

pub record UserDetails : Type 0 where
  pub affected_email : String
  pub previous_role : Option UserRole
  pub new_role : UserRole
  pub previous_active : Option Bool
  pub new_active : Bool

pub record PolicyDetails : Type 0 where
  pub recipient_count : ℕ
  pub settings : EventSettings

-- What the services write to the JSON column `details`.
pub data AuditDetails : Type 0 where
  no_details : AuditDetails
  lifecycle_details : LifecycleDetails → AuditDetails
  credential_details : String → AuditDetails
  rotation_details : String → ℕ → AuditDetails
  move_details : ℕ → AuditDetails
  enrollment_details : EnrollmentDetails → AuditDetails
  user_details : UserDetails → AuditDetails
  policy_details : PolicyDetails → AuditDetails

pub record AuditEvent : Type 0 where
  pub id : ℕ
  pub actor : String
  pub action : String
  pub project_id : Option ℕ
  pub device_id : Option ℕ
  pub occurred_at : Time
  pub details : AuditDetails

pub record AgentEnrollment : Type 0 where
  pub id : ℕ
  pub public_id : String
  pub enrollment_digest : String
  pub verification_digest : Option String
  pub mode : EnrollmentMode
  pub project_id : Option ℕ
  pub replacement_device_id : Option ℕ
  pub issued_device_id : Option ℕ
  pub device_name : Option String
  pub description : Option String
  pub gpu_monitoring_enabled : Option Bool
  pub expected_gpu_min_count : Option ℕ
  pub created_by : String
  pub created_at : Time
  pub expires_at : Time
  pub used_at : Option Time
  pub verification_expires_at : Option Time

pub record ApplicationUser : Type 0 where
  pub id : ℕ
  pub email : String
  pub display_name : Option String
  pub google_sub : Option String
  pub role : UserRole
  pub is_active : Bool
  pub created_at : Time
  pub updated_at : Time

pub record DeviceLogEntry : Type 0 where
  pub id : ℕ
  pub device_id : ℕ
  pub source : String
  pub entry_hash : String
  pub occurred_at : Option Time
  pub received_at : Time
  pub severity : Option String
  pub message : String

pub record DeviceLogSource : Type 0 where
  pub device_id : ℕ
  pub source : String
  pub status : String
  pub checked_at : Time
