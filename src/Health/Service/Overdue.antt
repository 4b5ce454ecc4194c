-- ===== src/Health/Service/Overdue.antt =====
-- A device that is overdue when it is evaluated.
use skybeat.Base.{
  ℕ, ◌≤◌, ◌≡◌, refl, sym, subst, Bool, true, List, [], ◌∷◌, some, none, arith, ◌==◌, ==_iff, find?,
  update_where, if◌then◌else◌, All-find?,
}
use skybeat.Store.{Db, Env, Result, ok, raise, ◌>>=◌}
use skybeat.Store.Kinds.{Availability, offline, availability}
use skybeat.Store.Rows.{Time, Device}
use skybeat.Alerts.Incidents.{supersede}
use skybeat.Alerts.Incidents.Effects.{active, Affects}
use skybeat.Gpu.Service.{reset_for_device_offline}
use skybeat.Health.Service.{
  AvailabilityService, go_offline, apply_state, state_at, save_device, evaluate_locked,
  evaluate_device,
}
use skybeat.Health.Service.Incidents.{ensure_offline_incident-Affects, expected}
use skybeat.Health.Service.Consistency.{IsConsistent}

-- The database shows the device as OFFLINE, with one active availability incident.
abbrev pub ShowsOffline : ℕ → Result Db → Type 0
ShowsOffline id (raise e) = Unit
ShowsOffline id (ok db) =
    (d : Device) × (find? (λ x. x.id == id) db.devices ≡ some d)
    × (d.availability_state ≡ offline)
    × (active id availability db.incidents ≡ 1)

find?-saved :
    (d : Device) (rows : List Device) {x : Device}
    → find? (λ y. y.id == d.id) rows ≡ some x
    → find? (λ y. y.id == d.id) (update_where (λ y. y.id == d.id) (λ _. d) rows) ≡ some d
unfolding find? update_where
find?-saved d [] h = cc
find?-saved d (y ∷ rows) {x} h =
    ground (arith, ==_iff y.id d.id, ==_iff d.id d.id, find?-saved d rows {x = x})

module _ (env : Env) (service : AvailabilityService) (device : Device) (now : Time) (db : Db)
    (c : IsConsistent db) (found : find? (λ d. d.id == device.id) db.devices ≡ some device) where
  few : active device.id availability db.incidents ≤ 1
  few = ground (
    arith,
    All-find? (λ d. active d.id availability db.incidents ≡ expected d) (λ d. d.id == device.id)
        db.devices c.matched found,
  )

  shown :
      (r : Result Db)
      → Affects device.id availability 1 db r
      → ShowsOffline device.id (
          (r >>= λ (db1 : Db).
          ok (reset_for_device_offline (record device { availability_state = offline }) now db1))
          >>= λ (x : Device × Db). ok (save_device (record x.0 { updated_at = now }) x.1))
  unfolding reset_for_device_offline supersede
  shown (raise e) h = tt
  shown (ok db1) h = (
    record device {
      availability_state = offline;
      gpu_failure_streak = 0;
      gpu_ok_streak = 0;
      gpu_last_sample_at = none;
      updated_at = now;
    },
    find?-saved
        (record device {
          availability_state = offline;
          gpu_failure_streak = 0;
          gpu_ok_streak = 0;
          gpu_last_sample_at = none;
          updated_at = now;
        })
        db1.devices {x = device}
        (subst (λ rows. find? (λ d. d.id == device.id) rows ≡ some device) (sym h.devices) found),
    refl,
    h.own,
  )

  -- On a consistent database, the evaluation of a monitored device that it has and that is overdue
  -- either raises, and its transaction is rolled back, or leaves the device OFFLINE with exactly one active availability incident,
  -- whatever its state was before.
  pub evaluate_device-ShowsOffline :
      device.monitoring_enabled ≡ true
      → state_at service device now ≡ ok offline
      → ShowsOffline device.id (evaluate_device env service device.id now db)
  unfolding evaluate_device evaluate_locked apply_state go_offline
  evaluate_device-ShowsOffline on overdue =
      rw (found, evaluate_device)
        (monitored device.monitoring_enabled on (state_at service device now) overdue)
    where
      monitored :
          (b : Bool)
          → b ≡ true
          → (r : Result Availability) → r ≡ ok offline
          → ShowsOffline device.id (
              if b
              then (r >>= λ (desired : Availability).
                  apply_state env service desired device now db >>= λ (x : Device × Db).
                  ok (save_device (record x.0 { updated_at = now }) x.1))
              else ok db)
      monitored b on r overdue =
          rw (on, overdue)
            (shown _ (
              ensure_offline_incident-Affects env service
                (record device { availability_state = offline }) now db c.table c.queue few))
