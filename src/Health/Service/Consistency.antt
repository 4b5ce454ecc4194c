-- ===== src/Health/Service/Consistency.antt =====
-- The database invariant of availability monitoring, over whole transactions.
use skybeat.Base.{
  ℕ, ◌+◌, ◌≡◌, refl, sym, ◌∙◌, subst, Bool, true, false, List, [], ◌∷◌, arith, ◌==◌, ◌&&◌, All,
  All-find?, find?, update_where, Option-cases, inl, inr, if◌then◌else◌,
}
use skybeat.Base.Distinct.{Distinct-replace, Distinct}
use skybeat.Store.{Db, Env, Result, ok, raise, ◌>>=◌, Run, after}
use skybeat.Store.Kinds.{Availability, availability}
use skybeat.Store.Rows.{Time, Device, Incident}
use skybeat.Alerts.Incidents.Effects.{IncidentTable, active, IncidentStep}
use skybeat.Health.Service.{
  AvailabilityService, apply_state, state_at, save_device, evaluate_locked, evaluate_device,
  evaluate_devices, sweep,
}
use skybeat.Health.Service.Incidents.{expected, Leaves, apply_state-Leaves}
use skybeat.Notifications.Queue.{IsQueue}

abbrev pub device_id : Device → ℕ
device_id d = d.id

-- Device and incident ids are keys, the notification queue is sound, and each device has exactly
-- one active availability incident where its state is OFFLINE, and none where it is not.
pub record IsConsistent (db : Db) : Type 0 where
  pub devices : Distinct device_id db.devices
  pub table : IncidentTable db.incidents db.next_incident
  pub matched : All (λ d. active d.id availability db.incidents ≡ expected d) db.devices
  pub queue : IsQueue db

saved_matches :
    (d : Device) (n m : List Incident)
    → active d.id availability m ≡ expected d
    → ((j : ℕ) → (j == d.id && true) ≡ false → active j availability m ≡ active j availability n)
    → (rows : List Device) → All (λ x. active x.id availability n ≡ expected x) rows
    → All
        (λ x. active x.id availability m ≡ expected x)
        (update_where (λ x. x.id == d.id) (λ _. d) rows)
unfolding update_where
saved_matches d n m own others [] h = tt
saved_matches d n m own others (x ∷ rows) h =
    (here (x.id == d.id) refl, saved_matches d n m own others rows h.1)
  where
    here :
        (b : Bool)
        → (x.id == d.id) ≡ b
        → (λ (z : Device). active z.id availability m ≡ expected z) (if b then d else x)
    here true e = own
    here false e = others x.id (ground arith) ∙ h.0

-- Saving the device of a step restores the invariant.
pub save_device-IsConsistent :
    (d : Device) (db db1 : Db)
    → IsConsistent db
    → IncidentStep d.id availability (expected d) db db1
    → IsConsistent (save_device d db1)
save_device-IsConsistent d db db1 c s = record {
  devices =
      subst (λ rows. Distinct device_id (update_where (λ x. x.id == d.id) (λ _. d) rows))
        (sym s.devices) (Distinct-replace device_id d db.devices c.devices);
  table = s.table;
  matched =
      subst
        (λ rows.
          All (λ x. active x.id availability db1.incidents ≡ expected x)
            (update_where (λ x. x.id == d.id) (λ _. d) rows))
        (sym s.devices)
        (saved_matches d db.incidents db1.incidents s.own (λ j e. s.others j availability e)
          db.devices c.matched);
  queue = s.queue.queue;
}

-- Either an exception, which rolls the transaction back, or a consistent database.
abbrev pub KeepsConsistent : Result Db → Type 0
KeepsConsistent (raise e) = Unit
KeepsConsistent (ok db) = IsConsistent db

save_step :
    (device : Device) (now : Time) (db : Db) (r : Result (Device × Db))
    → IsConsistent db
    → Leaves device db r
    → KeepsConsistent
        (r >>= λ (x : Device × Db). ok (save_device (record x.0 { updated_at = now }) x.1))
save_step device now db (raise e) c h = tt
save_step device now db (ok (d, db1)) c h =
    save_device-IsConsistent (record d { updated_at = now }) db db1 c
      (subst (λ k. IncidentStep k availability (expected d) db db1) (sym h.0) h.1)

evaluate_locked-Keeps :
    (env : Env) (service : AvailabilityService) (device : Device) (now : Time) (db : Db)
    → active device.id availability db.incidents ≡ expected device
    → IsConsistent db
    → KeepsConsistent (evaluate_locked env service device now db)
unfolding evaluate_locked
evaluate_locked-Keeps env service device now db m c = by_state (state_at service device now)
  where
    by_state :
        (r : Result Availability)
        → KeepsConsistent (
            r >>= λ (desired : Availability).
            apply_state env service desired device now db >>= λ (x : Device × Db).
            ok (save_device (record x.0 { updated_at = now }) x.1))
    by_state (raise e) = tt
    by_state (ok desired) =
        save_step device now db (apply_state env service desired device now db) c
          (apply_state-Leaves env service device now db c.table c.queue m desired)

-- On a consistent database, in which each device has one active availability incident if it is
-- OFFLINE and none if it is not, ids are unique and the queue is sound, an evaluation of any device
-- at any time either raises, and its transaction is rolled back, or leaves the database consistent.
pub evaluate_device-Keeps :
    (env : Env) (service : AvailabilityService) (id : ℕ) (now : Time) (db : Db)
    → IsConsistent db
    → KeepsConsistent (evaluate_device env service id now db)
unfolding evaluate_device
evaluate_device-Keeps env service id now db c =
    elim (Option-cases (find? (λ (d : Device). d.id == id) db.devices)) [
      | inl e ↦ rw (e, evaluate_device) c
      | inr (device, e) ↦
          rw (e, evaluate_device)
            (if_monitored (evaluate_locked env service device now db) device.monitoring_enabled (
              evaluate_locked-Keeps env service device now db
                (All-find? (λ d. active d.id availability db.incidents ≡ expected d)
                  (λ d. d.id == id) db.devices c.matched e)
                c))
    ]
  where
    if_monitored :
        (r : Result Db) (b : Bool) → KeepsConsistent r → KeepsConsistent (if b then r else ok db)
    if_monitored r true h = h
    if_monitored r false h = c

after-IsConsistent :
    (db : Db) (r : Result Db) (rest : Db → Run)
    → IsConsistent db
    → KeepsConsistent r
    → ((db1 : Db) → IsConsistent db1 → IsConsistent (rest db1).1)
    → IsConsistent (after db r rest).1
after-IsConsistent db (raise e) rest c h next = c
after-IsConsistent db (ok db1) rest c h next = next db1 h

evaluate_devices-IsConsistent :
    (env : Env) (service : AvailabilityService) (clock : ℕ → Time) (k : ℕ) (ids : List ℕ) (db : Db)
    → IsConsistent db
    → IsConsistent (evaluate_devices env service clock k ids db).1
unfolding evaluate_devices
evaluate_devices-IsConsistent env service clock k [] db c = c
evaluate_devices-IsConsistent env service clock k (id ∷ ids) db c =
    after-IsConsistent db (evaluate_device env service id (clock k) db) _ c
      (evaluate_device-Keeps env service id (clock k) db c)
      (λ db1 c1. evaluate_devices-IsConsistent env service clock (k + 1) ids db1 c1)

-- On a consistent database a whole sweep leaves a consistent database, whatever the clock reads, and
-- also where the transaction of some device raises and the sweep ends there.
pub sweep-IsConsistent :
    (env : Env) (service : AvailabilityService) (clock : ℕ → Time) (db : Db)
    → IsConsistent db
    → IsConsistent (sweep env service clock db).1
unfolding sweep
sweep-IsConsistent env service clock db c = evaluate_devices-IsConsistent env service clock 0 _ db c
