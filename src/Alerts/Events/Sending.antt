-- ===== src/Alerts/Events/Sending.antt =====
-- What an alert writes: its event, and one message for each recipient.
use mathlib.Core.List.{append_assoc, append-nil, map-append}
use skybeat.Base.{
  ℕ, ◌+◌, String, ◌≡◌, refl, ◌∙◌, ap, sym, List, [], ◌∷◌, ◌++◌, map, Option, some, any, ◌==◌, find?,
  Option-cases, Bool-cases, inl, inr,
}
use skybeat.Store.{Db, Env, ok, integrity_error, project_missing}
use skybeat.Store.Kinds.{EventKind, Channel, Status, pending}
use skybeat.Store.Rows.{Time, hours, Device, Project, Incident, AlertEvent, Details, Delivery}
use skybeat.Store.Yields.{Yields, raised, kept, Yields-bind, Yields-map, Yields-of}
use skybeat.Alerts.Recipients.{snapshot_project_email_recipients, snapshot_device_email_recipients}
use skybeat.Alerts.Events.{
  Recipient, email_recipient, is_event_of, add_event, same_target, new_event, new_delivery,
  add_delivery, add_deliveries, alert, create_event,
}

-- What a message is for, and when it is tried.
pub record Outline : Type 0 where
  pub event_id : ℕ
  pub channel : Channel
  pub provider : String
  pub destination : String
  pub status : Status
  pub attempts : ℕ
  pub next_attempt_at : Option Time
  pub expires_at : Time

abbrev pub outline : Delivery → Outline
outline d = record {
  event_id = d.event_id;
  channel = d.channel;
  provider = d.provider_name;
  destination = d.destination_snapshot;
  status = d.status;
  attempts = d.attempt_count;
  next_attempt_at = d.next_attempt_at;
  expires_at = d.expires_at;
}

-- A message of an event to a recipient, due now and for a day.
abbrev pub message_to : ℕ → Time → Recipient → Outline
message_to event_id now r = record {
  event_id = event_id;
  channel = r.channel;
  provider = r.provider;
  destination = r.destination;
  status = pending;
  attempts = 0;
  next_attempt_at = some now;
  expires_at = now + hours 24;
}

-- Messages to the recipients in turn join the queue, and no event.
pub record Adds (event_id : ℕ) (now : Time) (rs : List Recipient) (db db1 : Db) : Type 0 where
  pub added : List Delivery
  pub joined : db1.deliveries ≡ db.deliveries ++ added
  pub outlined : map outline added ≡ map (message_to event_id now) rs
  pub events : db1.events ≡ db.events

module _ (env : Env) (event_id : ℕ) (now : Time) where
  add_delivery-Adds :
      (r : Recipient) (db : Db)
      → Yields (Adds event_id now (r ∷ []) db) (add_delivery env event_id now r db)
  unfolding add_delivery
  add_delivery-Adds r db = elim (Bool-cases (any (same_target env event_id r) db.deliveries)) [
    | inl e ↦ rw (e, add_delivery) (raised integrity_error)
    | inr e ↦
        rw (e, add_delivery)
          (kept _ (record {
            added = new_delivery env db.next_delivery (env.uuid4 db.draws) event_id r now ∷ [];
            joined = refl;
            outlined = unfold new_delivery in refl;
            events = refl;
          }))
  ]

  Adds-more :
      (r : Recipient) (rs : List Recipient) (a b c : Db)
      → Adds event_id now (r ∷ []) a b
      → Adds event_id now rs b c
      → Adds event_id now (r ∷ rs) a c
  Adds-more r rs a b c p q = record {
    added = p.added ++ q.added;
    joined =
        q.joined ∙ ap (λ xs. xs ++ q.added) p.joined ∙ append_assoc a.deliveries p.added q.added;
    outlined = map-append outline p.added q.added ∙ rw (p.outlined, q.outlined) refl;
    events = q.events ∙ p.events;
  }

  add_deliveries-Adds :
      (rs : List Recipient) (db : Db)
      → Yields (Adds event_id now rs db) (add_deliveries env event_id now rs db)
  unfolding add_deliveries
  add_deliveries-Adds [] db = kept db (record {
    added = [];
    joined = sym (append-nil db.deliveries);
    outlined = refl;
    events = refl;
  })
  add_deliveries-Adds (r ∷ rs) db =
      Yields-bind _ (add_delivery env event_id now r db) (add_deliveries env event_id now rs)
        (λ db1 h.
          Yields-map (Adds event_id now rs db1) _
            (λ db2 q. Adds-more r rs db db1 db2 (Yields-of _ (add_delivery-Adds r db) h) q)
            (add_deliveries-Adds rs db1))

-- What an alert of a kind about an incident of a device writes: the event with the next id, and a
-- message for each address that the e-mail settings gave at this moment, then for each of `texts`.
pub record Sends (env : Env) (emails : List String) (texts : List Recipient) (i : Incident)
    (d : Device) (kind : EventKind) (now : Time) (db db1 : Db) : Type 0 where
  pub addresses : List String
  pub snapshot :
      snapshot_device_email_recipients env d.id d.project_id kind emails db ≡ ok addresses
  pub event : AlertEvent
  pub written : db1.events ≡ db.events ++ event ∷ []
  pub event_id : event.id ≡ db.next_event
  pub event_kind : event.event_kind ≡ kind
  pub event_incident : event.incident_id ≡ i.id
  pub event_device : event.device_id ≡ d.id
  pub event_time : event.occurred_at ≡ now
  pub messages : List Delivery
  pub queued : db1.deliveries ≡ db.deliveries ++ messages
  pub outlined :
      map outline messages
      ≡ map (message_to db.next_event now) (map email_recipient addresses ++ texts)

module _ (env : Env) (emails : List String) (texts : List Recipient) (i : Incident) (d : Device)
    (kind : EventKind) (details : Details) (now : Time) (db : Db) where
  -- The database with the event.
  abbrev with_event : Project → Db
  with_event p = record db {
    events = db.events ++ new_event db.next_event (env.uuid4 db.draws) i d p kind details now ∷ [];
    next_event = db.next_event + 1;
    draws = db.draws + 1;
  }

  alert-Sends :
      (p : Project)
      → Yields
          (Sends env emails texts i d kind now db)
          (alert env emails texts i d p kind details now db)
  unfolding alert add_event snapshot_project_email_recipients
  alert-Sends p = elim (Bool-cases (any (is_event_of i.id kind) db.events)) [
    | inl e ↦ rw (e, alert) (raised integrity_error)
    | inr e ↦
        rw (e, alert)
          (Yields-bind _
            (snapshot_device_email_recipients env d.id d.project_id kind emails (with_event p)) _
            (λ addresses read.
              Yields-map
                (Adds db.next_event now (map email_recipient addresses ++ texts) (with_event p)) _
                (λ db1 a. record {
                  addresses = addresses;
                  snapshot = unfold snapshot_device_email_recipients in read;
                  event = new_event db.next_event (env.uuid4 db.draws) i d p kind details now;
                  written = a.events;
                  event_id = refl;
                  event_kind = refl;
                  event_incident = refl;
                  event_device = refl;
                  event_time = refl;
                  messages = a.added;
                  queued = a.joined;
                  outlined = a.outlined;
                })
                (add_deliveries-Adds env db.next_event now (map email_recipient addresses ++ texts)
                  (with_event p))))
  ]

  -- An alert that is committed has written exactly one event, which is of its kind, incident and
  -- device, and exactly one message for each of its recipients, in order and each due at once,
  -- never tried and kept for a day: the recipients are the addresses that the settings of the
  -- device, its project or the deployment give at this moment, and then `texts`, the deployment's
  -- SMS recipients.
  pub create_event-Sends :
      (db1 : Db)
      → create_event env emails texts i d kind details now db ≡ ok db1
      → Sends env emails texts i d kind now db db1
  create_event-Sends db1 done = Yields-of (Sends env emails texts i d kind now db) created done
    where
      created :
          Yields
            (Sends env emails texts i d kind now db)
            (create_event env emails texts i d kind details now db)
      created = elim (Option-cases (find? (λ (p : Project). p.id == d.project_id) db.projects)) [
        | inl e ↦ unfold create_event in rw (e, create_event) (raised project_missing)
        | inr (p, e) ↦ unfold create_event in rw (e, create_event) (alert-Sends p)
      ]
