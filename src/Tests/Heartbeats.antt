-- ===== src/Tests/Heartbeats.antt =====
-- A heartbeat at the samples, and the same heartbeat again.
use skybeat.Base.{none, some, refl, ◌≡◌, [], ◌∷◌, true, str_eq, if◌then◌else◌, find?, any}
use skybeat.Store.{Db, Result, ok, raise, heartbeat_conflict}
use skybeat.Store.Rows.{Acknowledgement, seconds}
use skybeat.Heartbeats.Service.{
  Heartbeat, HeartbeatService, payload_digest, acknowledgement_of, accept_from, accept,
}
use skybeat.Heartbeats.Service.Replay.{accept_from_replay}
use skybeat.Tests.Samples.{sample_env, sample_service, sample_db, device_7}

abbrev heartbeat_1 : Heartbeat
heartbeat_1 = record {
  heartbeat_id = "heartbeat-1";
  device_id = "device-7";
  collected_at = 20;
  schema_version = 1;
  agent_version = "1.1.0";
  hostname = "host";
  ip_addresses = "10.0.0.7" ∷ [];
  cpu_percent = some "12.5";
  memory_percent = none;
  disks = 1;
  gpu_health = "{}";
  payload = "{1}";
  gpu = record { gpu_health = none; gpus = none };
}

abbrev changed_1 : Heartbeat
changed_1 = record heartbeat_1 { payload = "{2}" }

abbrev heartbeat_service : HeartbeatService
heartbeat_service = record { allowed = λ id. true; availability = sample_service; gpu = [] }

abbrev db_of : Result (Acknowledgement × Db) → Db
db_of (raise e) = sample_db
db_of (ok (a, db)) = db

abbrev received_db : Db
received_db =
    db_of (accept_from sample_env heartbeat_service device_7 (seconds 30) heartbeat_1 sample_db)

received :
    accept_from sample_env heartbeat_service device_7 (seconds 30) heartbeat_1 sample_db
    ≡ ok (acknowledgement_of sample_env heartbeat_1 (seconds 30), received_db)
unfolding accept_from find? skybeat.Health.Service.accept_heartbeat
    skybeat.Health.State.availability_state skybeat.Health.Service.catch_up
    skybeat.Health.State.monitoring_baseline skybeat.Health.Service.come_back
    skybeat.Gpu.Service.accept skybeat.Heartbeats.Service.add_receipt any
received = refl

accept_from_replay_example :
    accept_from sample_env heartbeat_service device_7 (seconds 60) changed_1 received_db ≡ (
      if str_eq (payload_digest sample_env heartbeat_1) (payload_digest sample_env changed_1)
      then ok (acknowledgement_of sample_env heartbeat_1 (seconds 30), received_db)
      else raise heartbeat_conflict)
accept_from_replay_example =
    accept_from_replay sample_env heartbeat_service device_7 device_7 (seconds 30) (seconds 60)
      heartbeat_1 changed_1 sample_db received_db
      (acknowledgement_of sample_env heartbeat_1 (seconds 30)) received refl refl
