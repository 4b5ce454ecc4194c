-- ===== src/Health/Service/Incidents.antt =====
-- What the steps of `AvailabilityService` do to the incidents of the device they work on.
use skybeat.Base.{
  ℕ, ◌≤◌, ◌≡◌, refl, ◌∙◌, subst, true, false, some, arith, find?-none_of_count, count_of_find?-none,
  map, Option-cases, Bool-cases, inl, inr, if◌then◌else◌,
}
use skybeat.Store.{Db, Env, Result, ok, raise, ◌>>=◌}
use skybeat.Store.Kinds.{
  EventKind, Availability, online, suspect, offline, is_offline, availability, device_offline,
  device_recovered, is_open, IncidentType,
}
use skybeat.Store.Rows.{Time, Device, Incident, Delivery, availability_details}
use skybeat.Alerts.Events.{sms_recipient}
use skybeat.Alerts.Events.Effects.{Alerts-trans, create_event-Alerts}
use skybeat.Alerts.Incidents.{
  active_incident, next_incident_of, close_incident, is_active_of, is_undelivered_of,
  is_undelivered_gpu, supersede,
}
use skybeat.Alerts.Incidents.Effects.{
  IncidentTable, active, IncidentStep, Affects, IncidentStep-alert, opened, add_incident-opened,
  opened-IncidentStep, closed_by, closed-IncidentStep, supersede-AlertStep,
}
use skybeat.Gpu.Service.{reset_for_device_offline}
use skybeat.Health.Service.{
  AvailabilityService, availability_event, ensure_offline_incident, close_for_recovery,
  heartbeat_received, go_offline, apply_state, catch_up,
}
use skybeat.Notifications.Queue.{IsQueue, QueueStep-refl, QueueStep-trans}

pub IncidentStep-refl :
    (k : ℕ) (type : IncidentType) (db : Db)
    → IncidentTable db.incidents db.next_incident
    → IsQueue db
    → IncidentStep k type (active k type db.incidents) db db
IncidentStep-refl k type db t q = record {
  table = t;
  own = refl;
  others = λ j u e. refl;
  devices = refl;
  queue = QueueStep-refl q;
}

pub IncidentStep-trans :
    (k : ℕ) (type : IncidentType) (n m : ℕ) {a b c : Db}
    → IncidentStep k type n a b
    → IncidentStep k type m b c
    → IncidentStep k type m a c
IncidentStep-trans k type n m p q = record {
  table = q.table;
  own = q.own;
  others = λ j t e. q.others j t e ∙ p.others j t e;
  devices = q.devices ∙ p.devices;
  queue = QueueStep-trans p.queue q.queue;
}

-- Where an incident is active and no second one, there is one.
pub active_one :
    (k : ℕ) (type : IncidentType) (db : Db) {i : Incident}
    → active k type db.incidents ≤ 1
    → active_incident k type db ≡ some i
    → active k type db.incidents ≡ 1
unfolding active_incident
active_one k type db {i} few found =
    ground (arith, find?-none_of_count (is_active_of k type) db.incidents)

only_open :
    (db : Db) (id : ℕ) (kind : EventKind) (d : Delivery)
    → is_undelivered_of db id kind d ≡ true
    → is_open d.status ≡ true
unfolding is_undelivered_of
only_open db id kind d h = ground arith

only_open_gpu :
    (db : Db) (id : ℕ) (d : Delivery) → is_undelivered_gpu db id d ≡ true → is_open d.status ≡ true
unfolding is_undelivered_gpu
only_open_gpu db id d h = ground arith

module _ (env : Env) (service : AvailabilityService) (device : Device) (now : Time) (db : Db)
    (table : IncidentTable db.incidents db.next_incident) (q : IsQueue db) where
  -- Going offline leaves the device one active incident.
  pub ensure_offline_incident-Affects :
      active device.id availability db.incidents ≤ 1
      → Affects device.id availability 1 db (ensure_offline_incident env service device now db)
  unfolding ensure_offline_incident
  ensure_offline_incident-Affects few =
      elim (Option-cases (active_incident device.id availability db)) [
        | inr (i, e) ↦
            rw (e, ensure_offline_incident)
              (subst (λ n. IncidentStep device.id availability n db db)
                (active_one device.id availability db few e)
                (IncidentStep-refl device.id availability db table q))
        | inl e ↦
            let nobody : active device.id availability db.incidents ≡ 0 =
              count_of_find?-none (is_active_of device.id availability) db.incidents
                (unfold active_incident in e) in
            let step =
              opened-IncidentStep env device.id availability "heartbeat_timeout" now db table nobody
                q in
            rw
              (
                e,
                ensure_offline_incident,
                add_incident-opened env device.id availability "heartbeat_timeout" now db nobody,
              )
              (unfold availability_event in
                IncidentStep-alert device.id availability 1 db
                  (opened env device.id availability "heartbeat_timeout" now db) _ step
                  (create_event-Alerts env service.email_recipients
                    (map sms_recipient service.sms_recipients)
                    (next_incident_of env device.id availability "heartbeat_timeout" now db) device
                    device_offline (availability_details device.availability_state) now
                    (opened env device.id availability "heartbeat_timeout" now db)
                    step.queue.queue))
      ]

  -- A recovery leaves it none.
  pub close_for_recovery-Affects :
      active device.id availability db.incidents ≤ 1
      → Affects device.id availability 0 db (close_for_recovery env service device now db)
  unfolding close_for_recovery
  close_for_recovery-Affects few = elim (Option-cases (active_incident device.id availability db)) [
    | inl e ↦
        rw (e, close_for_recovery)
          (subst (λ n. IncidentStep device.id availability n db db)
            (count_of_find?-none (is_active_of device.id availability) db.incidents
              (unfold active_incident in e))
            (IncidentStep-refl device.id availability db table q))
    | inr (i, e) ↦
        let closed = closed_by i.id heartbeat_received now db in
        let step =
          closed-IncidentStep device.id availability heartbeat_received now i db table few e q in
        let p = is_undelivered_of closed i.id device_offline in
        let quiet =
          supersede-AlertStep now p closed (λ d h. only_open closed i.id device_offline d h)
            step.queue.queue in
        rw (e, close_for_recovery)
          (unfold availability_event in
            IncidentStep-alert device.id availability 0 db closed _ step (
              Alerts-trans _ quiet (
                create_event-Alerts env service.email_recipients
                  (map sms_recipient service.sms_recipients)
                  (close_incident heartbeat_received now i) device device_recovered
                  (availability_details device.availability_state) now (supersede now p closed)
                  quiet.queue.queue)))
  ]

-- The active availability incidents that a device row calls for.
abbrev pub expected : Device → ℕ
expected d = if is_offline d.availability_state then 1 else 0

-- A step on a device leaves it as many active incidents as its state calls for.
abbrev pub Leaves : Device → Db → Result (Device × Db) → Type 0
Leaves device db (raise e) = Unit
Leaves device db (ok (d, db1)) =
    (d.id ≡ device.id) × IncidentStep device.id availability (expected d) db db1

reset-Leaves :
    (device : Device) (now : Time) (db : Db) (r : Result Db)
    → Affects device.id availability 1 db r
    → Leaves device db (
        r >>= λ (db1 : Db).
        ok (reset_for_device_offline (record device { availability_state = offline }) now db1))
unfolding reset_for_device_offline
reset-Leaves device now db (raise e) h = tt
reset-Leaves device now db (ok db1) h = (
  refl,
  IncidentStep-alert device.id availability 1 db db1
      (ok (supersede now (is_undelivered_gpu db1 device.id) db1)) h
      (supersede-AlertStep now (is_undelivered_gpu db1 device.id) db1
        (λ d e. only_open_gpu db1 device.id d e) h.queue.queue),
)

module _ (env : Env) (service : AvailabilityService) (device : Device) (now : Time) (db : Db)
    (table : IncidentTable db.incidents db.next_incident) (q : IsQueue db)
    (matched : active device.id availability db.incidents ≡ expected device) where
  few_active : active device.id availability db.incidents ≤ 1
  few_active = ground (arith, matched)

  unchanged : IncidentStep device.id availability (expected device) db db
  unchanged =
      subst (λ n. IncidentStep device.id availability n db db) matched
        (IncidentStep-refl device.id availability db table q)

  go_offline-Leaves : Leaves device db (go_offline env service device now db)
  unfolding go_offline
  go_offline-Leaves = reset-Leaves device now db _ (
      ensure_offline_incident-Affects env service (record device { availability_state = offline })
        now db table q few_active)

  keep_or_set :
      (desired : Availability)
      → is_offline desired ≡ false
      → Leaves device db (
          ok (
            if is_offline device.availability_state
                then device
                else record device { availability_state = desired },
            db,
          ))
  keep_or_set desired up = elim (Bool-cases (is_offline device.availability_state)) [
    | inl e ↦ rw e (refl, unchanged)
    | inr e ↦
        rw e
          (refl, subst (λ n. IncidentStep device.id availability n db db) (ground arith) unchanged)
  ]

  pub apply_state-Leaves :
      (desired : Availability) → Leaves device db (apply_state env service desired device now db)
  unfolding apply_state
  apply_state-Leaves offline = go_offline-Leaves
  apply_state-Leaves online = keep_or_set online refl
  apply_state-Leaves suspect = keep_or_set suspect refl

  pub catch_up-Leaves :
      (prior : Availability) → Leaves device db (catch_up env service prior device now db)
  unfolding catch_up
  catch_up-Leaves offline = go_offline-Leaves
  catch_up-Leaves online = (refl, unchanged)
  catch_up-Leaves suspect = (refl, unchanged)
