-- ===== src/Lifecycle/Service/Requests.antt =====
-- `request_upgrade` and `request_rollback` of server/app/lifecycle/service.py on the operations table.
use skybeat.Base.{
  ℕ, ◌≡◌, ◌≢◌, refl, Bool, true, false, not, List, [], ◌∷◌, String, any, find?-appended, ==_refl,
  Option, none, some, All-map, All-append, All-select, All-select-holds, select, ==_iff, arith,
  if◌then◌else◌, str_eq, ◌&&◌,
}
use skybeat.Base.Distinct.{Distinct-select, Distinct-append_fresh}
use skybeat.Store.{Db, Env, ok, raise, lifecycle_conflict, release_unavailable, require}
use skybeat.Store.Kinds.{LifecycleAction}
use skybeat.Store.Rows.{Time, Device, DeviceAgentLifecycle}
use skybeat.Devices.Identity.{lock_device}
use skybeat.Lifecycle.Report.{is_terminal, is_succeeded, is_upgrade}
use skybeat.Lifecycle.Report.Progress.{IsSoundOperation}
use skybeat.Lifecycle.Service.{
  Release, Version, version, installed_version, can_upgrade, is_operation_of, operation_of, audit,
  new_operation, replace_operation, upgrade_device, upgrade_after, request_upgrade, rollback_after,
  request_rollback,
}
use skybeat.Lifecycle.Service.Slots.{
  owner, IsLedger, KeepsLedger, raised, kept, bind-KeepsLedger, ensure-KeepsLedger,
  operation_of-IsSound, operation_of-own,
}

others_only :
    (k : ℕ) (os : List DeviceAgentLifecycle)
    → any (is_operation_of k) (select (λ p. not (is_operation_of k p)) os) ≡ false
unfolding any select
others_only k [] = refl
others_only k (o ∷ os) = ground (arith, others_only k os)

replaced-KeepsLedger :
    (device : Device) (actor action : String) (now : Time) (o : DeviceAgentLifecycle) (db : Db)
    → o.device_id ≡ device.id
    → IsSoundOperation o
    → IsLedger db
    → KeepsLedger (ok (replace_operation device actor action now o db))
unfolding replace_operation audit
replaced-KeepsLedger device actor action now o db same s l =
    kept _ _
      (record {
        slots =
            Distinct-append_fresh owner (select others db.operations) o
              (All-map (λ p. others p ≡ true) (λ p. p.device_id ≢ o.device_id)
                (λ p h e. ground (arith, same, ==_iff p.device_id device.id))
                (select others db.operations) (All-select-holds others db.operations))
              (Distinct-select owner others db.operations l.slots);
        sound =
            All-append IsSoundOperation (select others db.operations) (o ∷ [])
              (All-select IsSoundOperation others db.operations l.sound) (s, tt);
      })
      s
      (find?-appended (is_operation_of o.device_id) o (select others db.operations)
        (rw same (others_only device.id db.operations)) (==_refl o.device_id))
  where
    others : DeviceAgentLifecycle → Bool
    others p = not (is_operation_of device.id p)

new_operation-IsSound :
    (k : ℕ) (uuid : String) (action : LifecycleAction) (target wheel : String)
    (archive previous previous_wheel : Option String) (actor : String) (now : Time)
    → IsSoundOperation
        (new_operation k uuid action target wheel archive previous previous_wheel actor now)
unfolding new_operation
new_operation-IsSound k uuid action target wheel archive previous previous_wheel actor now =
    record {
      completed = refl;
      detail_fits = refl;
      failure_named = λ e. cc;
      failure_final = λ e. cc;
      rollback_known = λ e. cc;
    }

module _ (env : Env) (now : Time) (actor : String) (db : Db) (l : IsLedger db) where
  upgrade_device-KeepsLedger :
      (release : Release) (target : Version) (device : Device)
      → KeepsLedger (upgrade_device env now actor release target device db)
  unfolding upgrade_device
  upgrade_device-KeepsLedger release target device =
      ensure-KeepsLedger lifecycle_conflict
        (can_upgrade (version (installed_version device.id db)) target) _
        (λ _.
          replaced-KeepsLedger device actor "agent.upgrade.requested" now _ db
            (unfold new_operation in refl) (new_operation-IsSound device.id _ _ _ _ _ _ _ _ _) l)

  upgrade_after-KeepsLedger :
      (release : Release) (target : Version) (device : Device) (prior : DeviceAgentLifecycle)
      → operation_of device.id db ≡ some prior
      → KeepsLedger (upgrade_after env now actor release target device prior db)
  unfolding upgrade_after
  upgrade_after-KeepsLedger release target device prior slot =
      by_state (not (is_terminal prior.state)) (is_upgrade prior.action) (is_succeeded prior.state)
        (str_eq prior.target_wheel_sha256 release.wheel_sha256)
    where
      by_state :
          (a b c d : Bool)
          → KeepsLedger (
              if a
              then (if b && d then ok (prior, db) else raise lifecycle_conflict)
              else if c && d
              then ok (prior, db)
              else upgrade_device env now actor release target device db)
      by_state true true c true =
          kept _ _ l (operation_of-IsSound device.id db l slot) (operation_of-own device.id db slot)
      by_state true true c false = raised lifecycle_conflict
      by_state true false c d = raised lifecycle_conflict
      by_state false b true true =
          kept _ _ l (operation_of-IsSound device.id db l slot) (operation_of-own device.id db slot)
      by_state false b true false = upgrade_device-KeepsLedger release target device
      by_state false b false d = upgrade_device-KeepsLedger release target device

  rollback_after-KeepsLedger :
      (device : Device) (prior : DeviceAgentLifecycle)
      → KeepsLedger (rollback_after env now actor device prior db)
  unfolding rollback_after
  rollback_after-KeepsLedger device prior =
      bind-KeepsLedger (require lifecycle_conflict prior.previous_version) _ (λ previous _.
        bind-KeepsLedger (require lifecycle_conflict prior.previous_wheel_sha256) _ (λ wheel _.
          bind-KeepsLedger (require lifecycle_conflict (installed_version device.id db)) _
            (λ installed _.
              ensure-KeepsLedger lifecycle_conflict (str_eq installed prior.target_version) _ (λ _.
                replaced-KeepsLedger device actor "agent.rollback.requested" now _ db
                  (unfold new_operation in refl) (new_operation-IsSound device.id _ _ _ _ _ _ _ _ _)
                  l))))

  -- In a database in which each device has one operation at most and every operation is sound, a
  -- request for an upgrade either raises, and writes nothing, or leaves each device one operation at
  -- most, every operation sound, and answers with the operation its device now has.
  pub request_upgrade-KeepsLedger :
      (device_uuid : String) (release : Release)
      → KeepsLedger (request_upgrade env now device_uuid actor release db)
  unfolding request_upgrade
  request_upgrade-KeepsLedger device_uuid release =
      bind-KeepsLedger (require release_unavailable (version (some release.version))) _ (λ target _.
        bind-KeepsLedger (lock_device env device_uuid db) _
          (λ device _. by_slot target device (operation_of device.id db) refl))
    where
      by_slot :
          (target : Version) (device : Device) (x : Option DeviceAgentLifecycle)
          → operation_of device.id db ≡ x
          → KeepsLedger (elim x [
            | none ↦ upgrade_device env now actor release target device db
            | some prior ↦ upgrade_after env now actor release target device prior db
          ])
      by_slot target device none e = upgrade_device-KeepsLedger release target device
      by_slot target device (some prior) e = upgrade_after-KeepsLedger release target device prior e

  -- In a database in which each device has one operation at most and every operation is sound, a
  -- request for a rollback either raises, and writes nothing, or leaves each device one operation at
  -- most, every operation sound, and answers with the operation its device now has.
  pub request_rollback-KeepsLedger :
      (device_uuid : String) → KeepsLedger (request_rollback env now device_uuid actor db)
  unfolding request_rollback
  request_rollback-KeepsLedger device_uuid =
      bind-KeepsLedger (lock_device env device_uuid db) _ (λ device _.
        bind-KeepsLedger (require lifecycle_conflict (operation_of device.id db)) _ (λ prior _.
          ensure-KeepsLedger lifecycle_conflict
            (is_succeeded prior.state && prior.rollback_available) _
            (λ _. rollback_after-KeepsLedger device prior)))
