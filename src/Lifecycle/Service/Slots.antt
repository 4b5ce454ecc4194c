-- ===== src/Lifecycle/Service/Slots.antt =====
-- The operations table: one slot for each device, and every operation in it sound.
use skybeat.Base.{
  ℕ, ◌≡◌, refl, sym, subst, Bool, true, false, List, [], ◌∷◌, String, find?, find?-holds, is_some,
  update_where, ==_refl, some, All, All-update_where, All-find?, ==_iff, arith, if◌then◌else◌,
  str_eq, inl, inr, Option-cases,
}
use skybeat.Base.Distinct.{Distinct, Distinct-replace}
use skybeat.Store.{
  Db, Env, Error, Result, ok, raise, value_error, not_found, ◌>>=◌, require, ensure,
}
use skybeat.Store.Kinds.{LifecycleState}
use skybeat.Store.Rows.{Time, Device, DeviceAgentLifecycle}
use skybeat.Devices.Credentials.{authenticate_token}
use skybeat.Devices.Identity.{lock_device}
use skybeat.Store.Yields.{require-found, ensure-passed}
use skybeat.Lifecycle.Report.{Report, is_terminal, is_valid, apply_report}
use skybeat.Lifecycle.Report.Progress.{
  IsSoundOperation, KeepsSound, apply_report-KeepsSound, Stays, apply_report-Stays,
}
use skybeat.Lifecycle.Service.{
  is_operation_of, operation_of, save_operation, finish_report, audit, report_state, device_report,
}

abbrev pub owner : DeviceAgentLifecycle → ℕ
owner o = o.device_id

-- No device has two operations, and each is sound.
pub record IsLedger (db : Db) : Type 0 where
  pub slots : Distinct owner db.operations
  pub sound : All IsSoundOperation db.operations

-- An exception, which rolls back, or a ledger and the operation in it that is answered.
pub data KeepsLedger : Result (DeviceAgentLifecycle × Db) → Type 0 where
  raised : (e : Error) → KeepsLedger (raise e)
  kept :
      (o : DeviceAgentLifecycle) (db : Db)
      → IsLedger db
      → IsSoundOperation o
      → operation_of o.device_id db ≡ some o
      → KeepsLedger (ok (o, db))

pub bind-KeepsLedger :
    {A : Type 0} (r : Result A) (f : A → Result (DeviceAgentLifecycle × Db))
    → ((a : A) → r ≡ ok a → KeepsLedger (f a))
    → KeepsLedger (r >>= f)
bind-KeepsLedger (raise e) f h = raised e
bind-KeepsLedger (ok a) f h = h a refl

pub ensure-KeepsLedger :
    (e : Error) (b : Bool) (r : Result (DeviceAgentLifecycle × Db))
    → (b ≡ true → KeepsLedger r)
    → KeepsLedger (ensure e b r)
ensure-KeepsLedger e false r h = raised e
ensure-KeepsLedger e true r h = h refl

saved-IsLedger :
    (o : DeviceAgentLifecycle) (db : Db)
    → IsSoundOperation o
    → IsLedger db
    → IsLedger (save_operation o db)
saved-IsLedger o db s l = record {
  slots = Distinct-replace owner o db.operations l.slots;
  sound =
      All-update_where IsSoundOperation (is_operation_of o.device_id) (λ _. o) (λ x h k. s)
        db.operations l.sound;
}

find?-overwritten :
    (p : DeviceAgentLifecycle → Bool) (o : DeviceAgentLifecycle) (xs : List DeviceAgentLifecycle)
    → p o ≡ true
    → is_some (find? p xs) ≡ true
    → find? p (update_where p (λ _. o) xs) ≡ some o
unfolding find? update_where
find?-overwritten p o [] h k = cc
find?-overwritten p o (x ∷ xs) h k = ground (arith, find?-overwritten p o xs h)

finish_report-KeepsLedger :
    (device : Device) (now : Time) (prior o : DeviceAgentLifecycle) (b : Bool) (db : Db)
    → IsSoundOperation o
    → IsLedger db
    → operation_of prior.device_id db ≡ some prior
    → Stays prior (ok (o, b))
    → KeepsLedger (ok (finish_report device now (o, b) db))
unfolding finish_report
finish_report-KeepsLedger device now prior o false db s l found same =
    kept _ _ l s
      (subst (λ (z : DeviceAgentLifecycle). operation_of z.device_id db ≡ some z) (sym same) found)
finish_report-KeepsLedger device now prior o true db s l found same =
    kept _ _ (final (is_terminal o.state) _) s (listed (is_terminal o.state) _)
  where
    written : operation_of o.device_id (save_operation o db) ≡ some o
    written =
        find?-overwritten (is_operation_of o.device_id) o db.operations (==_refl o.device_id)
          (rw (same, found) refl)

    listed :
        (b : Bool) (action : String)
        → operation_of o.device_id (
            if b
            then audit device "agent_lifecycle" action now o (save_operation o db)
            else save_operation o db)
          ≡ some o
    listed true action = unfold audit in written
    listed false action = written

    final :
        (b : Bool) (action : String)
        → IsLedger (
            if b
            then audit device "agent_lifecycle" action now o (save_operation o db)
            else save_operation o db)
    final true action =
        let saved = saved-IsLedger o db s l in
        unfold audit in record { slots = saved.slots; sound = saved.sound }
    final false action = saved-IsLedger o db s l

pub operation_of-IsSound :
    (k : ℕ) (db : Db) {o : DeviceAgentLifecycle}
    → IsLedger db
    → operation_of k db ≡ some o
    → IsSoundOperation o
operation_of-IsSound k db l e =
    All-find? IsSoundOperation (is_operation_of k) db.operations l.sound e

-- An operation that is found under a device's id is found under its own.
pub operation_of-own :
    (k : ℕ) (db : Db) {o : DeviceAgentLifecycle}
    → operation_of k db ≡ some o
    → operation_of o.device_id db ≡ some o
operation_of-own k db {o} e =
    subst (λ z. operation_of z db ≡ some o)
      (sym ((==_iff o.device_id k).0 (find?-holds (is_operation_of k) db.operations e))) e

report_state-KeepsLedger :
    (env : Env) (checked_at now : Time) (token id : String) (s : LifecycleState) (r : Report)
    (db : Db)
    → is_valid s r ≡ true
    → IsLedger db
    → KeepsLedger (report_state env checked_at now token id s r db)
unfolding report_state
report_state-KeepsLedger env checked_at now token id s r db v l =
    bind-KeepsLedger (authenticate_token env checked_at token db) _ (λ sender _.
      bind-KeepsLedger (lock_device env sender.device_uuid db) _ (λ device _.
        bind-KeepsLedger (require not_found (operation_of device.id db)) _ (λ o found.
          bind-KeepsLedger (ensure not_found (str_eq o.operation_uuid id) (apply_report s r now o))
            _
            (λ changed done.
              let slot = require-found not_found (operation_of device.id db) found in
              let passed =
                ensure-passed not_found (str_eq o.operation_uuid id) (apply_report s r now o)
                  done in
              finish_report-KeepsLedger device now o changed.0 changed.1 db
                (subst KeepsSound passed
                  (apply_report-KeepsSound s r now o v (operation_of-IsSound device.id db l slot)))
                l (operation_of-own device.id db slot)
                (subst (Stays o) passed (apply_report-Stays s r now o))))))

-- In a database in which each device has one operation at most and every operation is sound, whatever
-- an agent reports under whatever token either raises, and writes nothing, or leaves each device one
-- operation at most, every operation sound, and answers with the operation its device now has.
pub device_report-KeepsLedger :
    (env : Env) (checked_at now : Time) (token id : String) (r : Report) (db : Db)
    → IsLedger db
    → KeepsLedger (device_report env checked_at now token id r db)
unfolding device_report
device_report-KeepsLedger env checked_at now token id r db l = elim (Option-cases r.state) [
  | inl e ↦ rw (e, device_report) (raised value_error)
  | inr (s, e) ↦
      rw (e, device_report)
        (ensure-KeepsLedger value_error (is_valid s r) _
          (λ v. report_state-KeepsLedger env checked_at now token id s r db v l))
]
