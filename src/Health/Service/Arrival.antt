-- ===== src/Health/Service/Arrival.antt =====
-- A heartbeat that arrives, over a whole `accept_heartbeat`.
use skybeat.Base.{
  ◌≡◌, refl, sym, subst, Bool, true, false, some, arith, ◌==◌, All-find?, find?, if◌then◌else◌,
}
use skybeat.Store.{Db, Env, Result, ok, raise, ◌>>=◌}
use skybeat.Store.Kinds.{Availability, online, is_offline, availability}
use skybeat.Store.Rows.{Time, Device}
use skybeat.Alerts.Incidents.Effects.{active, IncidentStep, Affects}
use skybeat.Health.Service.{
  AvailabilityService, close_for_recovery, catch_up, come_back, state_at, save_device,
  accept_heartbeat,
}
use skybeat.Health.Service.Incidents.{
  IncidentStep-refl, IncidentStep-trans, close_for_recovery-Affects, expected, Leaves,
  catch_up-Leaves,
}
use skybeat.Health.Service.Consistency.{IsConsistent, save_device-IsConsistent}

-- What an accepted heartbeat leaves: the device ONLINE and seen at that time, and, once it is
-- saved, the invariant.
abbrev pub Accepted : Device → Time → Result (Device × Db) → Type 0
Accepted device at (raise e) = Unit
Accepted device at (ok (d, db1)) =
    (d.id ≡ device.id)
    × (d.availability_state ≡ online)
    × (d.last_seen_at ≡ some at)
    × (active d.id availability db1.incidents ≡ 0)
    × IsConsistent (save_device d db1)

come_back-Accepted :
    (env : Env) (service : AvailabilityService) (device late : Device) (at : Time) (db db1 : Db)
    → IsConsistent db
    → late.id ≡ device.id
    → IncidentStep device.id availability (expected late) db db1
    → Accepted device at (come_back env service late at db1)
unfolding come_back
come_back-Accepted env service device late at db db1 c same s =
    seen_back (is_offline late.availability_state) refl
  where
    mine : IncidentStep late.id availability (expected late) db db1
    mine = subst (λ k. IncidentStep k availability (expected late) db db1) (sym same) s

    back : Device
    back = record late { last_seen_at = some at; availability_state = online; updated_at = at }

    finish :
        (r : Result Db)
        → Affects late.id availability 0 db1 r
        → Accepted device at (
            r >>= λ (db2 : Db). ok (
              record late { last_seen_at = some at; availability_state = online; updated_at = at },
              db2,
            ))
    finish (raise e) h = tt
    finish (ok db2) h = (
      same,
      refl,
      refl,
      h.own,
      save_device-IsConsistent back db db2 c
          (IncidentStep-trans late.id availability (expected late) 0 mine h),
    )

    seen_back :
        (b : Bool)
        → is_offline late.availability_state ≡ b
        → Accepted device at (
            (if b
              then close_for_recovery env service (record late { last_seen_at = some at }) at db1
              else ok db1)
            >>= λ (db2 : Db). ok (
              record late { last_seen_at = some at; availability_state = online; updated_at = at },
              db2,
            ))
    seen_back true e =
        finish (close_for_recovery env service (record late { last_seen_at = some at }) at db1) (
          close_for_recovery-Affects env service (record late { last_seen_at = some at }) at db1
            mine.table mine.queue.queue (ground (arith, mine.own)))
    seen_back false e = finish (ok db1) (
        subst (λ n. IncidentStep late.id availability n db1 db1) (ground (arith, mine.own))
          (IncidentStep-refl late.id availability db1 mine.table mine.queue.queue))

-- On a consistent database, an accepted heartbeat of a device that the database has either raises,
-- and its transaction is rolled back, or leaves the device ONLINE and last seen at the time of the heartbeat, without an
-- active availability incident, also where it was overdue, and the invariant holds once the caller
-- has saved the device.
pub accept_heartbeat-Accepted :
    (env : Env) (service : AvailabilityService) (device : Device) (at : Time) (db : Db)
    → find? (λ d. d.id == device.id) db.devices ≡ some device
    → IsConsistent db
    → Accepted device at (accept_heartbeat env service device at db)
unfolding accept_heartbeat
accept_heartbeat-Accepted env service device at db found c = by_state (state_at service device at)
  where
    m : active device.id availability db.incidents ≡ expected device
    m =
        All-find? (λ d. active d.id availability db.incidents ≡ expected d) (λ d. d.id == device.id)
          db.devices c.matched found

    by_step :
        (r : Result (Device × Db))
        → Leaves device db r
        → Accepted device at (r >>= λ (x : Device × Db). come_back env service x.0 at x.1)
    by_step (raise e) h = tt
    by_step (ok (late, db1)) h = come_back-Accepted env service device late at db db1 c h.0 h.1

    by_state :
        (r : Result Availability)
        → Accepted device at (
            r >>= λ (prior : Availability).
            catch_up env service prior device at db >>= λ (x : Device × Db).
            come_back env service x.0 at x.1)
    by_state (raise e) = tt
    by_state (ok prior) =
        by_step (catch_up env service prior device at db)
          (catch_up-Leaves env service device at db c.table c.queue m prior)
