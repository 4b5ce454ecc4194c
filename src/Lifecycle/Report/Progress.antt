-- ===== src/Lifecycle/Report/Progress.antt =====
-- Operations only move forward, and what each state says of its operation.
use skybeat.Base.{Bool-cases, inl, inr, ◌<◌, ◌≡◌, Bool, true, false, is_some, arith}
use skybeat.Store.{Result, ok, raise}
use skybeat.Store.Kinds.{LifecycleState}
use skybeat.Store.Rows.{Time, DeviceAgentLifecycle}
use skybeat.Lifecycle.Report.{
  Report, fits, same_state, is_failure, progress, is_terminal, is_succeeded, is_upgrade, is_valid,
  apply_report,
}

same_state-eq : (a b : LifecycleState) → same_state a b ≡ true → a ≡ b
same_state-eq a b e = ground arith

-- What an accepted report leaves of an operation: the operation as it was, or one further on that
-- was not complete before.
abbrev pub Moves :
    LifecycleState → DeviceAgentLifecycle → Result (DeviceAgentLifecycle × Bool) → Type 0
Moves s o (raise e) = Unit
Moves s o (ok (p, false)) = (p ≡ o) × (p.state ≡ s)
Moves s o (ok (p, true)) =
    (p.state ≡ s)
    × (progress o.state < progress p.state)
    × (is_terminal o.state ≡ false)
    × (p.operation_uuid ≡ o.operation_uuid)
    × (p.target_wheel_sha256 ≡ o.target_wheel_sha256)

-- An accepted report of a state leaves an operation in that state: unchanged where it was in that
-- very state, or moved strictly forward from a state that was not final, under the same id and for
-- the same target.
pub apply_report-Moves :
    (s : LifecycleState) (r : Report) (now : Time) (o : DeviceAgentLifecycle)
    → Moves s o (apply_report s r now o)
unfolding apply_report
apply_report-Moves s r now o = elim (Bool-cases (same_state o.state s)) [
  | inl e ↦ ground (arith, same_state-eq o.state s e)
  | inr e ↦ ground arith
]

-- What holds of an operation in each state.
pub record IsSoundOperation (o : DeviceAgentLifecycle) : Type 0 where
  pub completed : is_some o.completed_at ≡ is_terminal o.state
  pub detail_fits : fits o.failure_detail o.failure_category ≡ true
  pub failure_named : is_failure o.state ≡ true → is_some o.failure_category ≡ true
  pub failure_final : is_some o.failure_category ≡ true → is_terminal o.state ≡ true
  pub rollback_known :
      o.rollback_available ≡ true
      → (is_succeeded o.state ≡ true)
        × (is_upgrade o.action ≡ true)
        × (is_some o.previous_wheel_sha256 ≡ true)

abbrev pub KeepsSound : Result (DeviceAgentLifecycle × Bool) → Type 0
KeepsSound (raise e) = Unit
KeepsSound (ok (o, written)) = IsSoundOperation o

-- A valid report keeps an operation sound: it has a time of completion exactly in a final state, a
-- failure state names a category, its detail belongs to that category, a category is named in
-- final states only, and a rollback is offered only for a successful upgrade whose previous release
-- is known by its digest.
pub apply_report-KeepsSound :
    (s : LifecycleState) (r : Report) (now : Time) (o : DeviceAgentLifecycle)
    → is_valid s r ≡ true
    → IsSoundOperation o
    → KeepsSound (apply_report s r now o)
unfolding apply_report is_valid
apply_report-KeepsSound s r now o v h = ground arith

-- A report changes no device of an operation, and nothing where it writes nothing.
abbrev pub Stays : DeviceAgentLifecycle → Result (DeviceAgentLifecycle × Bool) → Type 0
Stays o (raise e) = Unit
Stays o (ok (p, false)) = p ≡ o
Stays o (ok (p, true)) = p.device_id ≡ o.device_id

pub apply_report-Stays :
    (s : LifecycleState) (r : Report) (now : Time) (o : DeviceAgentLifecycle)
    → Stays o (apply_report s r now o)
unfolding apply_report
apply_report-Stays s r now o = ground arith
