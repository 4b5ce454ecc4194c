-- ===== src/Tests/Monitoring.antt =====
-- Availability and GPU monitoring at the samples.
use skybeat.Base.{
  [], ◌∷◌, some, none, refl, ◌≡◌, arith, find?, ◌==◌, ◌+◌, ◌≤◌, ◌<◌, ◌↔◌, List, true, false,
}
use skybeat.Store.{ok}
use skybeat.Store.Kinds
use skybeat.Store.Kinds.{
  GpuState, gpu_missing, unknown, not_monitored, is_ok, Availability, online, suspect, offline,
}
use skybeat.Store.Rows.{Time, seconds}
use skybeat.Health.Service.{state_at, evaluate_device, sweep, accept_heartbeat}
use skybeat.Health.Service.Consistency.{
  IsConsistent, KeepsConsistent, evaluate_device-Keeps, sweep-IsConsistent,
}
use skybeat.Health.Service.Overdue.{ShowsOffline, evaluate_device-ShowsOffline}
use skybeat.Health.Service.Arrival.{Accepted, accept_heartbeat-Accepted}
use skybeat.Health.State.{
  availability_state, monitoring_baseline, rank, availability_state_iff, availability_state_worsens,
  restarted_is_offline,
}
use skybeat.Gpu.Confirmation.{
  GpuConfirmation, Observation, evaluate_gpu_observation, confirm, is_consecutive,
}
use skybeat.Gpu.Confirmation.Laws.{
  IsTracked, Tracks, evaluate-IsTracked, confirm-event, events, Alternates, events-Alternates,
  confirm_all, resumed_run_silent,
}
use skybeat.Tests.Samples.{
  sample_env, sample_service, sample_db, sample_db-IsConsistent, device_7, device_9,
}

evaluate_device-Keeps_example :
    KeepsConsistent (evaluate_device sample_env sample_service 7 (seconds 200) sample_db)
evaluate_device-Keeps_example =
    evaluate_device-Keeps sample_env sample_service 7 (seconds 200) sample_db sample_db-IsConsistent

sweep-IsConsistent_example :
    IsConsistent (sweep sample_env sample_service (λ k. seconds (200 + k)) sample_db).1
sweep-IsConsistent_example =
    sweep-IsConsistent sample_env sample_service (λ k. seconds (200 + k)) sample_db
      sample_db-IsConsistent

device_9_found : find? (λ d. d.id == device_9.id) sample_db.devices ≡ some device_9
unfolding find?
device_9_found = refl

accept_heartbeat-Accepted_example :
    Accepted device_9
      (seconds 300)
      (accept_heartbeat sample_env sample_service device_9 (seconds 300) sample_db)
accept_heartbeat-Accepted_example =
    accept_heartbeat-Accepted sample_env sample_service device_9 (seconds 300) sample_db
      device_9_found sample_db-IsConsistent

availability_state_iff_example :
    (a : Availability) × (availability_state 0 (seconds 100) 75 180 ≡ ok a)
    × ((a ≡ online) ↔ (seconds 100 < 0 + seconds 75))
    × ((a ≡ suspect) ↔ ((0 + seconds 75 ≤ seconds 100) × (seconds 100 < 0 + seconds 180)))
    × ((a ≡ offline) ↔ (0 + seconds 180 ≤ seconds 100))
availability_state_iff_example =
    availability_state_iff 0 (seconds 100) 75 180 (omega arith) (omega arith)

suspect_at_100 : availability_state 0 (seconds 100) 75 180 ≡ ok suspect
unfolding availability_state
suspect_at_100 = refl

offline_at_200 : availability_state 0 (seconds 200) 75 180 ≡ ok offline
unfolding availability_state
offline_at_200 = refl

availability_state_worsens_example : rank suspect ≤ rank offline
availability_state_worsens_example =
    availability_state_worsens 0 (seconds 100) (seconds 200) 75 180 suspect offline (omega arith)
      suspect_at_100 offline_at_200

restarted_is_offline_example :
    availability_state (monitoring_baseline (seconds 500) (some (seconds 100))) (seconds 500) 75 180
    ≡ ok offline
restarted_is_offline_example =
    restarted_is_offline (seconds 500) (seconds 100) 75 180 (omega arith) (omega arith)
      (omega arith)

abbrev was_ok : GpuConfirmation
was_ok = record {
  state = Kinds.ok;
  failure_streak = 1;
  ok_streak = 0;
  last_sample_at = some 0;
  event = none;
}

was_ok-IsTracked : IsTracked was_ok
was_ok-IsTracked = ground arith

abbrev missing_sample : Observation
missing_sample = record {
  reported_state = "OK";
  inventory_reliable = true;
  gpus = [];
  expected_min_count = 1;
  expected_uuids = [];
  observed_at = seconds 30;
  monitoring_enabled = true;
}

evaluate-IsTracked_example : Tracks (evaluate_gpu_observation was_ok missing_sample)
evaluate-IsTracked_example = evaluate-IsTracked was_ok missing_sample was_ok-IsTracked

confirm-event_example :
    (((confirm was_ok gpu_missing (seconds 30)).event ≡ some Kinds.gpu_degraded) ↔ (
      (is_ok was_ok.state ≡ true)
      × (is_ok gpu_missing ≡ false)
      × (0 < was_ok.failure_streak)
      × (is_consecutive was_ok.last_sample_at (seconds 30) ≡ true)))
    × (((confirm was_ok gpu_missing (seconds 30)).event ≡ some Kinds.gpu_recovered) ↔ (
        (is_ok was_ok.state ≡ false)
        × (is_ok gpu_missing ≡ true)
        × (0 < was_ok.ok_streak)
        × (is_consecutive was_ok.last_sample_at (seconds 30) ≡ true)))
confirm-event_example = confirm-event was_ok gpu_missing (seconds 30) was_ok-IsTracked

abbrev two_faults : List (GpuState × Time)
two_faults = (gpu_missing, seconds 30) ∷ (unknown, seconds 60) ∷ []

events-Alternates_example : Alternates true (events was_ok two_faults)
events-Alternates_example = events-Alternates was_ok two_faults

abbrev switched_off : Observation
switched_off = record missing_sample { monitoring_enabled = false }

abbrev not_watched : GpuConfirmation
not_watched = record {
  state = not_monitored;
  failure_streak = 0;
  ok_streak = 0;
  last_sample_at = some (seconds 30);
  event = none;
}

not_watched_reached : evaluate_gpu_observation was_ok switched_off ≡ ok not_watched
unfolding evaluate_gpu_observation
not_watched_reached = refl

abbrev resumed : List (GpuState × Time)
resumed =
    (gpu_missing, seconds 60)
    ∷ (gpu_missing, seconds 90)
    ∷ (Kinds.ok, seconds 120)
    ∷ (unknown, seconds 150)
    ∷ []

resumed_run_silent_example :
    (events not_watched resumed ≡ []) × ((confirm_all not_watched resumed).state ≡ not_monitored)
resumed_run_silent_example =
    resumed_run_silent was_ok not_watched switched_off resumed refl not_watched_reached
      (refl, (refl, (refl, (refl, tt))))

device_7_found : find? (λ d. d.id == device_7.id) sample_db.devices ≡ some device_7
unfolding find?
device_7_found = refl

device_7_overdue : state_at sample_service device_7 (seconds 200) ≡ ok offline
unfolding availability_state monitoring_baseline
device_7_overdue = refl

evaluate_device-ShowsOffline_example :
    ShowsOffline 7 (evaluate_device sample_env sample_service 7 (seconds 200) sample_db)
evaluate_device-ShowsOffline_example =
    evaluate_device-ShowsOffline sample_env sample_service device_7 (seconds 200) sample_db
      sample_db-IsConsistent device_7_found refl device_7_overdue
