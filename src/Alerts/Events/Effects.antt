-- ===== src/Alerts/Events/Effects.antt =====
-- What the rows of an alert leave alone, and that they keep the notification queue sound.
use skybeat.Base.{
  ℕ, ◌+◌, ◌<◌, String, ◌≡◌, refl, ◌∙◌, List, [], ◌∷◌, ◌++◌, map, arith, any, ◌==◌, All-map,
  All-append, find?, Bool-cases, Option-cases, inl, inr,
}
use skybeat.Base.Distinct.{Distinct-append_one}
use skybeat.Store.{Db, Env, Result, ok, raise, ◌>>=◌}
use skybeat.Store.Kinds.{EventKind}
use skybeat.Store.Rows.{Time, Device, Project, Incident, Details, Delivery, Attempt}
use skybeat.Alerts.Events.{
  Recipient, email_recipient, is_event_of, add_event, same_target, new_delivery, add_delivery,
  add_deliveries, alert, create_event,
}
use skybeat.Notifications.Delivery.Lifecycle.{IsSound}
use skybeat.Notifications.Delivery.Evolution.{Evolves-append}
use skybeat.Notifications.Queue.{
  delivery_id, Queue, IsQueue, IsCounted, IsCounted-Evolves, QueueStep, QueueStep-refl,
  QueueStep-trans,
}

-- An alert touches no device and no incident, and keeps the queue.
pub record AlertStep (db db1 : Db) : Type 0 where
  pub devices : db1.devices ≡ db.devices
  pub incidents : db1.incidents ≡ db.incidents
  pub next_incident : db1.next_incident ≡ db.next_incident
  pub queue : QueueStep db db1

abbrev pub Alerts : Db → Result Db → Type 0
Alerts db (raise e) = Unit
Alerts db (ok db1) = AlertStep db db1

AlertStep-refl : {db : Db} → IsQueue db → AlertStep db db
AlertStep-refl q = record {
  devices = refl;
  incidents = refl;
  next_incident = refl;
  queue = QueueStep-refl q;
}

pub AlertStep-trans : {a b c : Db} → AlertStep a b → AlertStep b c → AlertStep a c
AlertStep-trans p q = record {
  devices = q.devices ∙ p.devices;
  incidents = q.incidents ∙ p.incidents;
  next_incident = q.next_incident ∙ p.next_incident;
  queue = QueueStep-trans p.queue q.queue;
}

-- A step, and then one that alerts.
pub Alerts-trans : {a b : Db} (r : Result Db) → AlertStep a b → Alerts b r → Alerts a r
Alerts-trans (raise e) p h = tt
Alerts-trans (ok c) p h = AlertStep-trans p h

Alerts-bind :
    (db : Db) (r : Result Db) (f : Db → Result Db)
    → Alerts db r
    → ((db1 : Db) → IsQueue db1 → Alerts db1 (f db1))
    → Alerts db (r >>= f)
Alerts-bind db (raise e) f h next = tt
Alerts-bind db (ok db1) f h next = Alerts-trans (f db1) h (next db1 h.queue.queue)

-- A pending delivery with the next id joins the queue.
Queue-append :
    {rows : List Delivery} {next : ℕ} {attempts : List Attempt} (d : Delivery)
    → d.id ≡ next
    → IsSound d
    → Queue rows next attempts
    → Queue (rows ++ d ∷ []) (next + 1) attempts
Queue-append {rows} {next} {attempts} d e s q = record {
  sound = All-append IsSound rows (d ∷ []) q.sound (s, tt);
  distinct =
      Distinct-append_one delivery_id rows d
        (All-map (λ x. x.id < next) (λ x. x.id < d.id) (λ x h. omega (arith, e)) rows q.below)
        q.distinct;
  below =
      All-append (λ x. x.id < next + 1) rows (d ∷ [])
        (All-map (λ x. x.id < next) (λ x. x.id < next + 1) (λ x h. omega arith) rows q.below)
        (omega (arith, e), tt);
  counted =
      All-map (IsCounted rows) (IsCounted (rows ++ d ∷ []))
        (λ a. IsCounted-Evolves rows (rows ++ d ∷ []) a (Evolves-append rows (d ∷ []))) attempts
        q.counted;
}

add_delivery-Alerts :
    (env : Env) (event_id : ℕ) (now : Time) (r : Recipient) (db : Db)
    → IsQueue db
    → Alerts db (add_delivery env event_id now r db)
unfolding add_delivery
add_delivery-Alerts env event_id now r db q =
    elim (Bool-cases (any (same_target env event_id r) db.deliveries)) [
      | inl e ↦ rw (e, add_delivery) tt
      | inr e ↦
          rw (e, add_delivery)
            (record {
              devices = refl;
              incidents = refl;
              next_incident = refl;
              queue = record {
                progress = record {
                  evolves = Evolves-append db.deliveries _;
                  sound = joined.sound;
                };
                queue = joined;
              };
            })
    ]
  where
    joined :
        Queue
          (db.deliveries
            ++ new_delivery env db.next_delivery (env.uuid4 db.draws) event_id r now ∷ [])
          (db.next_delivery + 1)
          db.attempts
    joined =
        Queue-append (new_delivery env db.next_delivery (env.uuid4 db.draws) event_id r now)
          (unfold new_delivery in refl) (unfold new_delivery in ground arith) q

add_deliveries-Alerts :
    (env : Env) (event_id : ℕ) (now : Time) (rs : List Recipient) (db : Db)
    → IsQueue db
    → Alerts db (add_deliveries env event_id now rs db)
unfolding add_deliveries
add_deliveries-Alerts env event_id now [] db q = AlertStep-refl q
add_deliveries-Alerts env event_id now (r ∷ rs) db q =
    Alerts-bind db (add_delivery env event_id now r db) (add_deliveries env event_id now rs)
      (add_delivery-Alerts env event_id now r db q)
      (λ db1 q1. add_deliveries-Alerts env event_id now rs db1 q1)

add_event-Alerts :
    (env : Env) (i : Incident) (d : Device) (p : Project) (kind : EventKind) (details : Details)
    (now : Time) (db : Db)
    → IsQueue db
    → Alerts db (add_event env i d p kind details now db)
unfolding add_event
add_event-Alerts env i d p kind details now db q =
    elim (Bool-cases (any (is_event_of i.id kind) db.events)) [
      | inl e ↦ rw (e, add_event) tt
      | inr e ↦
          rw (e, add_event)
            (record {
              devices = refl;
              incidents = refl;
              next_incident = refl;
              queue = record { progress = (QueueStep-refl {db = db} q).progress; queue = q };
            })
    ]

deliver-Alerts :
    (env : Env) (event_id : ℕ) (texts : List Recipient) (now : Time)
    (addresses : Result (List String)) (db : Db)
    → IsQueue db
    → Alerts db (
        addresses >>= λ (a : List String).
        add_deliveries env event_id now (map email_recipient a ++ texts) db)
deliver-Alerts env event_id texts now (raise e) db q = tt
deliver-Alerts env event_id texts now (ok a) db q =
    add_deliveries-Alerts env event_id now (map email_recipient a ++ texts) db q

alert-Alerts :
    (env : Env) (emails : List String) (texts : List Recipient) (i : Incident) (d : Device)
    (p : Project) (kind : EventKind) (details : Details) (now : Time) (db : Db)
    → IsQueue db
    → Alerts db (alert env emails texts i d p kind details now db)
unfolding alert
alert-Alerts env emails texts i d p kind details now db q =
    Alerts-bind db (add_event env i d p kind details now db) _
      (add_event-Alerts env i d p kind details now db q)
      (λ db1 q1. deliver-Alerts env db.next_event texts now _ db1 q1)

-- On a sound queue, creating an event keeps devices, incidents and the soundness of the queue.
pub create_event-Alerts :
    (env : Env) (emails : List String) (texts : List Recipient) (i : Incident) (d : Device)
    (kind : EventKind) (details : Details) (now : Time) (db : Db)
    → IsQueue db
    → Alerts db (create_event env emails texts i d kind details now db)
unfolding create_event
create_event-Alerts env emails texts i d kind details now db q =
    elim (Option-cases (find? (λ (p : Project). p.id == d.project_id) db.projects)) [
      | inl e ↦ rw (e, create_event) tt
      | inr (p, e) ↦
          rw (e, create_event) (alert-Alerts env emails texts i d p kind details now db q)
    ]
