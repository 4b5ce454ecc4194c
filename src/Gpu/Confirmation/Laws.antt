-- ===== src/Gpu/Confirmation/Laws.antt =====
-- What the confirmation of GPU samples guarantees, over single samples and over runs of them.
use skybeat.Base.{
  ◌≤◌, ◌<◌, ◌≡◌, refl, Bool, true, false, List, [], ◌∷◌, none, some, arith, subst, ◌&&◌,
  if◌then◌else◌, ◌↔◌, ◌⊎◌, inl, inr,
}
use skybeat.Store.{Result, ok, raise}
use skybeat.Store.Kinds.{GpuState, not_monitored, is_ok, EventKind, gpu_degraded, gpu_recovered}
use skybeat.Store.Rows.{Time}
use skybeat.Gpu.Confirmation.{
  GpuConfirmation, Observation, is_consecutive, confirm, evaluate_gpu_observation,
}

-- A confirmed state never rests on a longer run of the other class of sample.
pub record IsTracked (c : GpuConfirmation) : Type 0 where
  pub ok_state : is_ok c.state ≡ true → c.failure_streak ≤ 1
  pub faulty_state : is_ok c.state ≡ false → c.ok_streak ≤ 1
  pub one_class : (c.failure_streak ≡ 0) ⊎ (c.ok_streak ≡ 0)

pub confirm-IsTracked :
    (c : GpuConfirmation) (s : GpuState) (t : Time) → IsTracked c → IsTracked (confirm c s t)
unfolding confirm
confirm-IsTracked c s t h = ground arith

-- What one evaluation leaves: no result, or a tracked confirmation.
abbrev pub Tracks : Result GpuConfirmation → Type 0
Tracks (raise e) = Unit
Tracks (ok c) = IsTracked c

-- From a tracked confirmation, every evaluation that succeeds, of a monitored GPU or not, leaves a
-- tracked one: streaks in which the tests for a streak of exactly two miss no confirmation.
pub evaluate-IsTracked :
    (c : GpuConfirmation) (o : Observation) → IsTracked c → Tracks (evaluate_gpu_observation c o)
unfolding evaluate_gpu_observation
evaluate-IsTracked c o h = ground arith

-- From a tracked confirmation, GPU_DEGRADED is raised by a sample exactly when the confirmed state
-- is OK, the sample is not, the sample before was not either, and the two are at most 75 seconds
-- apart; and GPU_RECOVERED exactly when the confirmed state is not OK, the sample is, the sample
-- before was too, and the two are at most 75 seconds apart.
pub confirm-event :
    (c : GpuConfirmation) (s : GpuState) (t : Time)
    → IsTracked c
    → (((confirm c s t).event ≡ some gpu_degraded) ↔ (
        (is_ok c.state ≡ true)
        × (is_ok s ≡ false)
        × (0 < c.failure_streak)
        × (is_consecutive c.last_sample_at t ≡ true)))
      × (((confirm c s t).event ≡ some gpu_recovered) ↔ (
          (is_ok c.state ≡ false)
          × (is_ok s ≡ true)
          × (0 < c.ok_streak)
          × (is_consecutive c.last_sample_at t ≡ true)))
unfolding confirm
confirm-event c s t h =
    (((λ e. ground arith), (λ e. ground arith)), ((λ e. ground arith), (λ e. ground arith)))

-- The events of a run of samples.
pub events : GpuConfirmation → List (GpuState × Time) → List EventKind
events c [] = []
events c ((s, t) ∷ samples) =
    let d = confirm c s t in
    let rest = events d samples in elim d.event [ none ↦ rest | some e ↦ e ∷ rest ]

-- Degradations and recoveries in turn; the first is a degradation where `healthy` is true.
abbrev pub Alternates : Bool → List EventKind → Type 0
Alternates healthy [] = Unit
Alternates true (gpu_degraded ∷ es) = Alternates false es
Alternates false (gpu_recovered ∷ es) = Alternates true es
Alternates _ (e ∷ es) = ⊥

-- What one sample does to the confirmed state and reports.
confirm_cases :
    (c : GpuConfirmation) (s : GpuState) (t : Time)
    → (((confirm c s t).event ≡ none) × (is_ok (confirm c s t).state ≡ is_ok c.state))
      ⊎ ((((confirm c s t).event ≡ some gpu_degraded)
            × (is_ok c.state ≡ true)
            × (is_ok (confirm c s t).state ≡ false))
          ⊎ (((confirm c s t).event ≡ some gpu_recovered)
              × (is_ok c.state ≡ false)
              × (is_ok (confirm c s t).state ≡ true)))
unfolding confirm
confirm_cases c s t = ground arith

-- Over any run of samples the events alternate between GPU_DEGRADED and GPU_RECOVERED, beginning
-- with GPU_DEGRADED where the confirmed state was OK and with GPU_RECOVERED where it was not.
pub events-Alternates :
    (c : GpuConfirmation) (samples : List (GpuState × Time))
    → Alternates (is_ok c.state) (events c samples)
unfolding events
events-Alternates c [] = tt
events-Alternates c ((s, t) ∷ samples) =
    let ih = events-Alternates (confirm c s t) samples in
    elim (confirm_cases c s t) [
      | inl (e, same) ↦ rw (e, events) (rw same at ih)
      | inr (inl (e, healthy, faulty)) ↦ rw (e, events, healthy) (rw faulty at ih)
      | inr (inr (e, faulty, healthy)) ↦ rw (e, events, faulty) (rw healthy at ih)
    ]

-- The confirmation after a run of samples.
pub confirm_all : GpuConfirmation → List (GpuState × Time) → GpuConfirmation
confirm_all c [] = c
confirm_all c ((s, t) ∷ samples) = confirm_all (confirm c s t) samples

-- No two samples in a row are OK; `after_ok` where the sample before the first was.
abbrev pub NeverTwiceOk : Bool → List (GpuState × Time) → Type 0
NeverTwiceOk after_ok [] = Unit
NeverTwiceOk after_ok ((s, t) ∷ samples) =
    ((after_ok && is_ok s) ≡ false) × NeverTwiceOk (is_ok s) samples

never_twice_silent :
    (c : GpuConfirmation) (after_ok : Bool) (samples : List (GpuState × Time))
    → is_ok c.state ≡ false
    → c.ok_streak ≤ (if after_ok then 1 else 0)
    → NeverTwiceOk after_ok samples
    → (events c samples ≡ []) × ((confirm_all c samples).state ≡ c.state)
unfolding events confirm confirm_all
never_twice_silent c after_ok [] h k f = (refl, refl)
never_twice_silent c after_ok ((s, t) ∷ samples) h k f =
    ground (arith, never_twice_silent (confirm c s t) (is_ok s) samples)

-- After an evaluation with GPU monitoring switched off, whatever was confirmed before, no run of
-- samples of which no two in a row are OK raises an event, however many samples show a fault: the
-- confirmed state stays NOT_MONITORED.
pub resumed_run_silent :
    (prior c : GpuConfirmation) (o : Observation) (samples : List (GpuState × Time))
    → o.monitoring_enabled ≡ false
    → evaluate_gpu_observation prior o ≡ ok c
    → NeverTwiceOk false samples
    → (events c samples ≡ []) × ((confirm_all c samples).state ≡ not_monitored)
unfolding evaluate_gpu_observation
resumed_run_silent prior c o samples off done f =
    subst (λ r. Silent r) done (rw off (never_twice_silent _ false samples refl (omega arith) f))
  where
    Silent : Result GpuConfirmation → Type 0
    Silent (raise e) = Unit
    Silent (ok d) = (events d samples ≡ []) × ((confirm_all d samples).state ≡ not_monitored)
