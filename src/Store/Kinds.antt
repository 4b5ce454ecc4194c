-- ===== src/Store/Kinds.antt =====
-- The values that the CHECK constraints of server/app/models and the enumerations of the services
-- allow, with the equality tests that the queries and guards make.
use mathlib.Core.Bool.{Bool, true, false}

-- `devices.availability_state` and `AvailabilityState`.
pub data Availability : Type 0 where
  online suspect offline : Availability

abbrev pub is_offline : Availability → Bool
is_offline offline = true
is_offline _ = false

-- `GPUEffectiveState`.
pub data GpuState : Type 0 where
  ok gpu_missing nvidia_smi_failed driver_error unknown not_monitored : GpuState

abbrev pub is_ok : GpuState → Bool
is_ok ok = true
is_ok _ = false

-- `confirmation.state not in {OK, NOT_MONITORED}`.
abbrev pub is_fault : GpuState → Bool
is_fault ok = false
is_fault not_monitored = false
is_fault _ = true

-- `incidents.incident_type`.
pub data IncidentType : Type 0 where
  availability gpu : IncidentType

abbrev pub same_type : IncidentType → IncidentType → Bool
same_type availability availability = true
same_type gpu gpu = true
same_type _ _ = false

-- `alert_events.event_kind`.
pub data EventKind : Type 0 where
  device_offline device_recovered gpu_degraded gpu_recovered : EventKind

abbrev pub same_kind : EventKind → EventKind → Bool
same_kind device_offline device_offline = true
same_kind device_recovered device_recovered = true
same_kind gpu_degraded gpu_degraded = true
same_kind gpu_recovered gpu_recovered = true
same_kind _ _ = false

-- `notification_deliveries.channel`.
pub data Channel : Type 0 where
  email sms : Channel

abbrev pub same_channel : Channel → Channel → Bool
same_channel email email = true
same_channel sms sms = true
same_channel _ _ = false

-- `notification_deliveries.status`.
pub data Status : Type 0 where
  pending in_progress retry_wait succeeded failed cancelled : Status

-- `status in ("PENDING", "RETRY_WAIT")`.
abbrev pub is_waiting : Status → Bool
is_waiting pending = true
is_waiting retry_wait = true
is_waiting _ = false

abbrev pub is_in_progress : Status → Bool
is_in_progress in_progress = true
is_in_progress _ = false

-- `status in ("PENDING", "RETRY_WAIT", "IN_PROGRESS")`.
abbrev pub is_open : Status → Bool
is_open pending = true
is_open retry_wait = true
is_open in_progress = true
is_open _ = false

-- `ProviderOutcome`.
pub data Outcome : Type 0 where
  accepted transient_failure permanent_failure uncertain : Outcome

-- `device_agent_lifecycle.action`.
pub data LifecycleAction : Type 0 where
  upgrade rollback : LifecycleAction

-- `device_agent_lifecycle.state`: `ACTIVE` and `TERMINAL` of server/app/lifecycle/service.py.
pub data LifecycleState : Type 0 where
  requested downloading verifying installing restarting verifying_health : LifecycleState
  succeeded failed rolled_back rollback_failed : LifecycleState

-- `FAILURES`.
pub data FailureCategory : Type 0 where
  verification_failed installation_failed service_start_failed : FailureCategory
  health_check_failed rollback_failed : FailureCategory

-- `FAILURE_DETAILS`.
pub data FailureDetail : Type 0 where
  archive_digest_mismatch bundle_verification_failed previous_release_mismatch : FailureDetail
  installer_failed interrupted_switch : FailureDetail
  rollback_target_unhealthy previous_service_unhealthy : FailureDetail

-- `EnrollmentMode`.
pub data EnrollmentMode : Type 0 where
  new replace : EnrollmentMode

-- `UserRole`.
pub data UserRole : Type 0 where
  owner admin user : UserRole

abbrev pub is_owner : UserRole → Bool
is_owner owner = true
is_owner _ = false
