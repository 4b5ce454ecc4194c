-- ===== src/Tests/Samples.antt =====
-- A small database: device 7 is online, device 9 is offline with an incident, and the alert about
-- device 9 has one message that waits and one whose worker went away.
use Prim.Native.Char.{code}
use skybeat.Base.{
  String, false, ℕ, [], ◌∷◌, none, some, true, ◌==◌, refl, arith, count, find?, if◌then◌else◌,
  str_eq,
}
use skybeat.Store.{Db, Env}
use skybeat.Store.Kinds
use skybeat.Store.Kinds.{
  online, offline, availability, device_offline, email, pending, in_progress, Status, Availability,
  upgrade, installing,
}
use skybeat.Store.Rows.{
  Project, Device, Incident, AlertEvent, Delivery, Attempt, DeviceCredential, DeviceAgentLifecycle,
  availability_details,
}
use skybeat.Health.Service.{AvailabilityService}
use skybeat.Health.Service.Consistency.{IsConsistent}
use skybeat.Lifecycle.Report.Progress.{IsSoundOperation}
use skybeat.Lifecycle.Service.Slots.{IsLedger}
use skybeat.Notifications.Queue.{IsQueue}

abbrev pub sample_env : Env
sample_env = record {
  uuid4 = λ n. if n == 0 then "token-0" else "token-n";
  sha256_hex = λ s. s;
  token_urlsafe = λ n. "AAAAAAAAAAAAAAAAAAAAAAAAAAAAAAAAAAAAAAAAAAA";
  strip = λ s. s;
  strip_lower = λ s. s;
  is_space = λ c. code c == 32;
  sha256_digest = λ s. s;
  is_uuid4 = λ s. true;
  parse_uuid = λ s. some s;
  is_secret = λ s. true;
  iso_time = λ t. "time";
  collates = λ a b. str_eq a b;
}

abbrev pub sample_service : AvailabilityService
sample_service = record {
  email_recipients = "ops@example.org" ∷ [];
  sms_recipients = [];
  suspect_after_seconds = 75;
  offline_after_seconds = 180;
}

abbrev pub project_1 : Project
project_1 = record {
  id = 1;
  public_id = "p-1";
  name = "Lab";
  description = none;
  is_active = true;
  created_at = 0;
  updated_at = 0;
}

abbrev sample_device : ℕ → String → Availability → Device
sample_device id uuid state = record {
  id = id;
  device_uuid = uuid;
  project_id = 1;
  name = "host";
  description = none;
  monitoring_enabled = true;
  monitoring_started_at = 0;
  last_seen_at = none;
  availability_state = state;
  gpu_monitoring_enabled = true;
  expected_gpu_min_count = 1;
  expected_gpu_uuids = [];
  gpu_effective_state = Kinds.ok;
  gpu_failure_streak = 0;
  gpu_ok_streak = 2;
  gpu_last_sample_at = none;
  created_at = 0;
  updated_at = 0;
}

abbrev pub device_7 : Device
device_7 = sample_device 7 "device-7" online

abbrev pub device_9 : Device
device_9 = sample_device 9 "device-9" offline

abbrev pub incident_1 : Incident
incident_1 = record {
  id = 1;
  incident_uuid = "incident";
  device_id = 9;
  incident_type = availability;
  opened_at = 10;
  detected_at = 10;
  closed_at = none;
  close_reason = none;
  current_reason = some "heartbeat_timeout";
  created_at = 10;
  updated_at = 10;
}

abbrev event_2 : AlertEvent
event_2 = record {
  id = 2;
  event_uuid = "event";
  incident_id = 1;
  device_id = 9;
  event_kind = device_offline;
  occurred_at = 10;
  detected_at = 10;
  project_name_snapshot = "Lab";
  device_name_snapshot = "host";
  reason_snapshot = some "heartbeat_timeout";
  details = availability_details offline;
  created_at = 10;
}

abbrev pub delivery_3 : Delivery
delivery_3 = record {
  id = 3;
  delivery_uuid = "delivery-3";
  event_id = 2;
  channel = email;
  recipient_key = "a@example.org";
  destination_snapshot = "a@example.org";
  provider_name = "smtp";
  status = pending;
  attempt_count = 0;
  next_attempt_at = some 10;
  expires_at = 1000000;
  lease_token = none;
  lease_expires_at = none;
  superseded_at = none;
  last_error_category = none;
  provider_message_id = none;
  cancel_reason = none;
  created_at = 10;
  updated_at = 10;
}

abbrev pub delivery_4 : Delivery
delivery_4 = record delivery_3 {
  id = 4;
  recipient_key = "b@example.org";
  destination_snapshot = "b@example.org";
  status = in_progress;
  attempt_count = 1;
  lease_token = some "token-0";
  lease_expires_at = some 50;
}

abbrev attempt_1 : Attempt
attempt_1 = record {
  id = 1;
  delivery_id = 4;
  attempt_no = 1;
  started_at = 10;
  finished_at = none;
  outcome = none;
  error_category = none;
  provider_message_id = none;
}

-- 84 characters.
abbrev pub sample_token : String
sample_token =
    "sb1.0f8fad5b-d9cb-469f-a165-70867728950e.AAAAAAAAAAAAAAAAAAAAAAAAAAAAAAAAAAAAAAAAAAA"

abbrev credential_5 : DeviceCredential
credential_5 = record {
  id = 5;
  credential_id = "0f8fad5b-d9cb-469f-a165-70867728950e";
  device_id = 7;
  token_digest = sample_token;
  created_at = 0;
  expires_at = none;
  revoked_at = none;
  last_used_at = none;
}

abbrev pub operation_7 : DeviceAgentLifecycle
operation_7 = record {
  device_id = 7;
  operation_uuid = "operation-7";
  action = upgrade;
  state = installing;
  target_version = "1.2.0";
  target_wheel_sha256 = "wheel-2";
  archive_sha256 = some "archive-2";
  previous_version = some "1.1.0";
  previous_wheel_sha256 = none;
  rollback_available = false;
  requester = "owner";
  failure_category = none;
  failure_detail = none;
  requested_at = 10;
  updated_at = 20;
  completed_at = none;
}

abbrev pub sample_db : Db
sample_db = record {
  projects = project_1 ∷ [];
  next_project = 2;
  devices = device_7 ∷ device_9 ∷ [];
  next_device = 10;
  incidents = incident_1 ∷ [];
  next_incident = 2;
  events = event_2 ∷ [];
  next_event = 3;
  deliveries = delivery_3 ∷ delivery_4 ∷ [];
  next_delivery = 5;
  attempts = attempt_1 ∷ [];
  next_attempt = 2;
  project_settings = [];
  project_recipients = [];
  next_project_recipient = 1;
  device_settings = [];
  device_recipients = [];
  next_device_recipient = 1;
  credentials = credential_5 ∷ [];
  next_credential = 6;
  enrollments = [];
  next_enrollment = 1;
  users = [];
  next_user = 1;
  log_entries = [];
  next_log_entry = 1;
  log_sources = [];
  receipts = [];
  samples = [];
  next_sample = 1;
  latest = [];
  operations = operation_7 ∷ [];
  audit = [];
  next_audit = 1;
  draws = 1;
}

pub sample_db-IsQueue : IsQueue sample_db
unfolding find?
sample_db-IsQueue = record {
  sound = ((refl, refl, refl, refl, refl), ((refl, refl, omega arith, omega arith), tt));
  distinct = (((λ e. omega (arith, e)), tt), (tt, tt));
  below = (omega arith, (omega arith, tt));
  counted = ((delivery_4, refl, omega arith), tt);
}

pub sample_db-IsConsistent : IsConsistent sample_db
unfolding count
sample_db-IsConsistent = record {
  devices = (((λ e. omega (arith, e)), tt), (tt, tt));
  table = record { distinct = (tt, tt); below = (omega arith, tt) };
  matched = (refl, (refl, tt));
  queue = sample_db-IsQueue;
}

pub operation_7-IsSound : IsSoundOperation operation_7
operation_7-IsSound = record {
  completed = refl;
  detail_fits = refl;
  failure_named = λ e. cc;
  failure_final = λ e. cc;
  rollback_known = λ e. cc;
}

pub sample_db-IsLedger : IsLedger sample_db
sample_db-IsLedger = record { slots = (tt, tt); sound = (operation_7-IsSound, tt) }
