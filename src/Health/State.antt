-- ===== src/Health/State.antt =====
-- `availability_state` and `monitoring_baseline` of server/app/health/service.py. An age in seconds
-- is compared with a whole number of seconds, so the comparison is made in microseconds.
use skybeat.Base.{
  ℕ, ◌+◌, ◌≤◌, ◌<◌, ◌≡◌, ◌↔◌, Bool, ◌&&◌, Option, none, some, ltb, if◌then◌else◌, arith,
}
use skybeat.Store.{Result, ok, raise, value_error}
use skybeat.Store.Kinds.{Availability, online, suspect, offline}
use skybeat.Store.Rows.{Time, seconds}

abbrev pub suspect_after_default : ℕ
suspect_after_default = 75

abbrev pub offline_after_default : ℕ
offline_after_default = 180

-- `0 < suspect_after_seconds < offline_after_seconds`.
abbrev pub valid_thresholds : ℕ → ℕ → Bool
valid_thresholds suspect_after offline_after =
    ltb 0 suspect_after && ltb suspect_after offline_after

-- `(now - baseline).total_seconds() < n`, also where `now` is before `baseline`.
abbrev pub younger_than : ℕ → Time → Time → Bool
younger_than n baseline now = ltb now (baseline + seconds n)

-- The state by an age: the last three returns of `availability_state`.
unfoldable pub state_by_age : Time → Time → ℕ → ℕ → Availability
state_by_age baseline now suspect_after offline_after =
    if younger_than suspect_after baseline now
    then online
    else if younger_than offline_after baseline now
    then suspect
    else offline

unfoldable pub availability_state : Time → Time → ℕ → ℕ → Result Availability
unfolding state_by_age
availability_state baseline now suspect_after offline_after =
    if valid_thresholds suspect_after offline_after
    then ok (state_by_age baseline now suspect_after offline_after)
    else raise value_error

unfoldable pub monitoring_baseline : Time → Option Time → Time
monitoring_baseline monitoring_started_at none = monitoring_started_at
monitoring_baseline monitoring_started_at (some last_seen_at) = last_seen_at

-- With valid thresholds there is a state, and it is ONLINE, SUSPECT or OFFLINE exactly where the
-- age is below the first threshold, from the first to below the second, or not below the second.
pub availability_state_iff :
    (baseline now s o : ℕ)
    → 0 < s
    → s < o
    → (a : Availability) × (availability_state baseline now s o ≡ ok a)
      × ((a ≡ online) ↔ (now < baseline + seconds s))
      × ((a ≡ suspect) ↔ ((baseline + seconds s ≤ now) × (now < baseline + seconds o)))
      × ((a ≡ offline) ↔ (baseline + seconds o ≤ now))
unfolding availability_state
availability_state_iff baseline now s o h k = (
  state_by_age baseline now s o,
  ground arith,
  ((λ e. ground arith), (λ e. ground arith)),
  ((λ e. ground arith), (λ e. ground arith)),
  ((λ e. ground arith), (λ e. ground arith)),
)

abbrev pub rank : Availability → ℕ
rank online = 0
rank suspect = 1
rank offline = 2

-- Without a new baseline the state never gets better as time goes on.
pub availability_state_worsens :
    (baseline now later s o : ℕ) (a b : Availability)
    → now ≤ later
    → availability_state baseline now s o ≡ ok a
    → availability_state baseline later s o ≡ ok b
    → rank a ≤ rank b
unfolding availability_state
availability_state_worsens baseline now later s o a b h p q = ground arith

-- The documentation asks for the later of the two times. Where monitoring was started again after
-- the last heartbeat, the code takes the earlier one: a device that was last seen longer ago than
-- the offline threshold is OFFLINE at the very moment at which its monitoring starts again.
pub restarted_is_offline :
    (started seen s o : ℕ)
    → 0 < s
    → s < o
    → seen + seconds o ≤ started
    → availability_state (monitoring_baseline started (some seen)) started s o ≡ ok offline
unfolding availability_state monitoring_baseline
restarted_is_offline started seen s o h k l = ground arith
