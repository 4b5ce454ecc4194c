-- ===== src/Tests/Lifecycle.antt =====
-- Reports and requests at the samples.
use skybeat.Base.{ℕ, String, List, [], ◌∷◌, map, find?, select, none, some, refl, ◌≡◌, true, false}
use skybeat.Devices.Credentials.{split_dot}
use skybeat.Devices.Identity.{lock_device}
use skybeat.Store.{Db, Result, ok, raise}
use skybeat.Store.Kinds.{
  LifecycleAction, upgrade, rollback, succeeded, rolled_back, verification_failed,
  archive_digest_mismatch,
}
use skybeat.Store.Rows.{DeviceLatest, DeviceAgentLifecycle}
use skybeat.Lifecycle.Report.{Report, given, is_valid, apply_report}
use skybeat.Lifecycle.Report.Progress.{
  Moves, apply_report-Moves, KeepsSound, apply_report-KeepsSound,
}
use skybeat.Lifecycle.Service.{Release, version, device_report, request_upgrade, request_rollback}
use skybeat.Lifecycle.Service.Slots.{IsLedger, KeepsLedger, device_report-KeepsLedger}
use skybeat.Lifecycle.Service.Requests.{request_upgrade-KeepsLedger, request_rollback-KeepsLedger}
use skybeat.Tests.Samples.{
  sample_env, sample_db, sample_db-IsLedger, sample_token, operation_7, operation_7-IsSound,
}

abbrev rolled_back_report : Report
rolled_back_report = record {
  state = some rolled_back;
  failure_category = given verification_failed;
  failure_detail = given archive_digest_mismatch;
  previous_wheel_sha256 = none;
  rollback_available = false;
}

rolled_back_report-valid : is_valid rolled_back rolled_back_report ≡ true
unfolding is_valid
rolled_back_report-valid = refl

apply_report-Moves_example :
    Moves rolled_back operation_7 (apply_report rolled_back rolled_back_report 30 operation_7)
apply_report-Moves_example = apply_report-Moves rolled_back rolled_back_report 30 operation_7

apply_report-KeepsSound_example :
    KeepsSound (apply_report rolled_back rolled_back_report 30 operation_7)
apply_report-KeepsSound_example =
    apply_report-KeepsSound rolled_back rolled_back_report 30 operation_7 rolled_back_report-valid
      operation_7-IsSound

device_report-KeepsLedger_example :
    KeepsLedger
      (device_report sample_env 25 30 sample_token "operation-7" rolled_back_report sample_db)
device_report-KeepsLedger_example =
    device_report-KeepsLedger sample_env 25 30 sample_token "operation-7" rolled_back_report
      sample_db sample_db-IsLedger

abbrev release_3 : Release
release_3 = record { version = "1.3.0"; wheel_sha256 = "wheel-3"; archive_sha256 = "archive-3" }

abbrev heard : ℕ → String → DeviceLatest
heard device_id agent_version = record {
  device_id = device_id;
  heartbeat_id = "heartbeat";
  received_at = 20;
  collected_at = 20;
  schema_version = 1;
  agent_version = agent_version;
  hostname = "host";
  primary_ip = none;
  cpu_percent = none;
  memory_percent = none;
  disk_summary = 0;
  gpu_summary = "[]";
  payload = "{}";
}

-- Device 9 runs 1.2.0, and device 7 has been upgraded to it from 1.1.0.
abbrev upgraded_7 : DeviceAgentLifecycle
upgraded_7 = record operation_7 {
  state = succeeded;
  previous_wheel_sha256 = some "wheel-1";
  rollback_available = true;
  completed_at = some 30;
}

abbrev upgraded_db : Db
upgraded_db = record sample_db {
  latest = heard 7 "1.2.0" ∷ heard 9 "1.2.0" ∷ [];
  operations = upgraded_7 ∷ [];
}

upgraded_db-IsLedger : IsLedger upgraded_db
upgraded_db-IsLedger = record {
  slots = (tt, tt);
  sound = (
    record {
      completed = refl;
      detail_fits = refl;
      failure_named = λ e. cc;
      failure_final = λ e. cc;
      rollback_known = λ e. (refl, refl, refl);
    },
    tt,
  );
}

abbrev granted : Result (DeviceAgentLifecycle × Db) → List (String × LifecycleAction × String)
granted (raise e) = []
granted (ok (o, db)) =
    map (λ (p : DeviceAgentLifecycle). (p.operation_uuid, p.action, p.target_version)) db.operations

-- Both requests are granted.
upgrade_granted :
    granted (request_upgrade sample_env 40 "device-9" "owner" release_3 upgraded_db)
    ≡ ("operation-7", upgrade, "1.2.0") ∷ ("token-n", upgrade, "1.3.0") ∷ []
unfolding request_upgrade version split_dot lock_device find? select
upgrade_granted = refl

rollback_granted :
    granted (request_rollback sample_env 40 "device-7" "owner" upgraded_db)
    ≡ ("token-n", rollback, "1.1.0") ∷ []
unfolding request_rollback lock_device find? select
rollback_granted = refl

request_upgrade-KeepsLedger_example :
    KeepsLedger (request_upgrade sample_env 40 "device-9" "owner" release_3 upgraded_db)
request_upgrade-KeepsLedger_example =
    request_upgrade-KeepsLedger sample_env 40 "owner" upgraded_db upgraded_db-IsLedger "device-9"
      release_3

request_rollback-KeepsLedger_example :
    KeepsLedger (request_rollback sample_env 40 "device-7" "owner" upgraded_db)
request_rollback-KeepsLedger_example =
    request_rollback-KeepsLedger sample_env 40 "owner" upgraded_db upgraded_db-IsLedger "device-7"
