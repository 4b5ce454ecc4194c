-- ===== src/Gpu/Confirmation.antt =====
-- `evaluate_gpu_observation` and `_effective_state` of server/app/gpu/service.py: a fault or a
-- recovery counts when two samples in a row, at most 75 seconds apart, agree.
pub mod Laws
use skybeat.Base.{
  ℕ, suc, ◌+◌, String, Bool, true, false, not, ◌&&◌, ◌||◌, List, [], ◌∷◌, Option, none, some, leb,
  ltb, ◌==◌, if◌then◌else◌, length, any, str_eq,
}
use skybeat.Store.{Result, ok, raise, value_error, ◌>>=◌}
use skybeat.Store.Kinds
use skybeat.Store.Kinds.{
  GpuState, gpu_missing, nvidia_smi_failed, driver_error, unknown, not_monitored, is_ok, EventKind,
  gpu_degraded, gpu_recovered,
}
use skybeat.Store.Rows.{Time, seconds, GpuItem, mapping, no_mapping}

abbrev pub confirmation_gap_seconds : ℕ
confirmation_gap_seconds = 75

pub record GpuConfirmation : Type 0 where
  pub state : GpuState
  pub failure_streak : ℕ
  pub ok_streak : ℕ
  pub last_sample_at : Option Time
  pub event : Option EventKind

-- `GPUEffectiveState(value)`, where `none` is the `ValueError`.
unfoldable pub parse_state : String → Option GpuState
parse_state value =
    if str_eq value "OK"
    then some GpuState.ok
    else if str_eq value "GPU_MISSING"
    then some gpu_missing
    else if str_eq value "NVIDIA_SMI_FAILED"
    then some nvidia_smi_failed
    else if str_eq value "DRIVER_ERROR"
    then some driver_error
    else if str_eq value "UNKNOWN"
    then some unknown
    else if str_eq value "NOT_MONITORED"
    then some not_monitored
    else none

-- The texts among the `uuid`s of the mappings.
abbrev pub has_uuid : String → GpuItem → Bool
has_uuid u no_mapping = false
has_uuid u (mapping none) = false
has_uuid u (mapping (some v)) = str_eq v u

-- `set(expected_uuids).issubset(observed_uuids)`.
unfoldable pub all_present : List String → List GpuItem → Bool
all_present [] gpus = true
all_present (u ∷ us) gpus = any (has_uuid u) gpus && all_present us gpus

unfoldable pub effective_state : String → Bool → List GpuItem → ℕ → List String → Result GpuState
effective_state reported_state inventory_reliable gpus expected_min_count expected_uuids =
    if not (str_eq reported_state "OK")
    then (elim (parse_state reported_state) [ none ↦ raise value_error | some s ↦ ok s ])
    else if not inventory_reliable
    then ok nvidia_smi_failed
    else if ltb (length gpus) expected_min_count || not (all_present expected_uuids gpus)
    then ok gpu_missing
    else ok GpuState.ok

-- `last_sample_at is not None and (observed_at - last_sample_at).total_seconds() <= 75`.
abbrev pub is_consecutive : Option Time → Time → Bool
is_consecutive none observed_at = false
is_consecutive (some last) observed_at = leb observed_at (last + seconds confirmation_gap_seconds)

-- The branch of `evaluate_gpu_observation` for a sample that is `OK`.
unfoldable pub confirm_ok : GpuConfirmation → Time → GpuConfirmation
confirm_ok prior observed_at =
    let streak : ℕ =
      if is_consecutive prior.last_sample_at observed_at then prior.ok_streak + 1 else 1 in
    let recovers : Bool = not (is_ok prior.state) && streak == 2 in
    record {
      state = if recovers then GpuState.ok else prior.state;
      failure_streak = 0;
      ok_streak = streak;
      last_sample_at = some observed_at;
      event = if recovers then some gpu_recovered else none;
    }

-- The branch for any other sample.
unfoldable pub confirm_failure : GpuConfirmation → GpuState → Time → GpuConfirmation
confirm_failure prior observed observed_at =
    let streak : ℕ =
      if is_consecutive prior.last_sample_at observed_at then prior.failure_streak + 1 else 1 in
    let degrades : Bool = is_ok prior.state && streak == 2 in
    record {
      state = if degrades then observed else prior.state;
      failure_streak = streak;
      ok_streak = 0;
      last_sample_at = some observed_at;
      event = if degrades then some gpu_degraded else none;
    }

unfoldable pub confirm : GpuConfirmation → GpuState → Time → GpuConfirmation
unfolding confirm_ok confirm_failure
confirm prior observed observed_at =
    if is_ok observed
    then confirm_ok prior observed_at
    else confirm_failure prior observed observed_at

-- What a heartbeat reports, and what the operator expects.
pub record Observation : Type 0 where
  pub reported_state : String
  pub inventory_reliable : Bool
  pub gpus : List GpuItem
  pub expected_min_count : ℕ
  pub expected_uuids : List String
  pub observed_at : Time
  pub monitoring_enabled : Bool

unfoldable pub evaluate_gpu_observation : GpuConfirmation → Observation → Result GpuConfirmation
unfolding confirm
evaluate_gpu_observation prior o =
    if not o.monitoring_enabled
    then ok (record {
      state = not_monitored;
      failure_streak = 0;
      ok_streak = 0;
      last_sample_at = some o.observed_at;
      event = none;
    })
    else (do
      observed ←
          effective_state o.reported_state o.inventory_reliable o.gpus o.expected_min_count
            o.expected_uuids
      ok (confirm prior observed o.observed_at))
