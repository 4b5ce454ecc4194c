-- ===== src/Alerts/Incidents/Effects.antt =====
-- What opening and closing an incident does to the incidents of every device.
use skybeat.Base.{
  ℕ, ◌+◌, ◌≤◌, ◌<◌, String, ◌≡◌, refl, sym, ◌∙◌, subst, Bool, true, false, ◌&&◌, List, [], ◌∷◌,
  ◌++◌, some, arith, All, All-map, All-append, any, count, count-append, find?-holds, update_where,
  ◌==◌,
}
use skybeat.Base.Distinct.{
  Distinct, Distinct-append_one, Distinct-update_where, All-key-update_where,
}
use skybeat.Base.Keyed.{find?-unique}
use skybeat.Store.{Db, Env, Result, ok, raise}
use skybeat.Store.Kinds.{IncidentType, same_type, availability, gpu, is_open}
use skybeat.Store.Rows.{Time, Incident, Delivery}
use skybeat.Alerts.Events.Effects.{AlertStep, Alerts}
use skybeat.Alerts.Incidents.{
  is_active_of, active_incident, new_incident, next_incident_of, add_incident, close_incident,
  supersede,
}
use skybeat.Alerts.Incidents.Counts.{find?-by_key, count-switch_off, count-update_other}
use skybeat.Notifications.Delivery.{supersede_row}
use skybeat.Notifications.Delivery.Lifecycle.{supersede_row-IsSound, supersede_row-Advances}
use skybeat.Notifications.Delivery.Evolution.{Progress, Progress-update_where}
use skybeat.Notifications.Queue.{IsQueue, Queue-write, QueueStep, QueueStep-refl, QueueStep-trans}

abbrev pub incident_id : Incident → ℕ
incident_id i = i.id

-- The primary key of the incidents.
pub record IncidentTable (rows : List Incident) (next : ℕ) : Type 0 where
  pub distinct : Distinct incident_id rows
  pub below : All (λ i. i.id < next) rows

-- How many active incidents of a type a device has.
abbrev pub active : ℕ → IncidentType → List Incident → ℕ
active device_id type = count (is_active_of device_id type)

-- Afterwards the device has `n` active incidents of the type, and for every other device or type
-- there are as many as before.
pub record IncidentStep (k : ℕ) (type : IncidentType) (n : ℕ) (db db1 : Db) : Type 0 where
  pub table : IncidentTable db1.incidents db1.next_incident
  pub own : active k type db1.incidents ≡ n
  pub others :
      (j : ℕ) (t : IncidentType)
      → (j == k && same_type t type) ≡ false
      → active j t db1.incidents ≡ active j t db.incidents
  pub devices : db1.devices ≡ db.devices
  pub queue : QueueStep db db1

abbrev pub Affects : ℕ → IncidentType → ℕ → Db → Result Db → Type 0
Affects k type n db (raise e) = Unit
Affects k type n db (ok db1) = IncidentStep k type n db db1

-- An alert afterwards changes no count.
pub IncidentStep-alert :
    (k : ℕ) (type : IncidentType) (n : ℕ) (a b : Db) (r : Result Db)
    → IncidentStep k type n a b
    → Alerts b r
    → Affects k type n a r
IncidentStep-alert k type n a b (raise e) s h = tt
IncidentStep-alert k type n a b (ok c) s h = record {
  table = rw (h.incidents, h.next_incident) s.table;
  own = rw h.incidents s.own;
  others = λ j t e. rw h.incidents (s.others j t e);
  devices = h.devices ∙ s.devices;
  queue = QueueStep-trans s.queue h.queue;
}

-- `db` with a new incident of device `k`.
abbrev pub opened : Env → ℕ → IncidentType → String → Time → Db → Db
opened env k type reason now db = record db {
  incidents = db.incidents ++ next_incident_of env k type reason now db ∷ [];
  next_incident = db.next_incident + 1;
  draws = db.draws + 1;
}

any_of_count : {A : Type 0} (p : A → Bool) (xs : List A) → count p xs ≡ 0 → any p xs ≡ false
unfolding any count
any_of_count p [] h = refl
any_of_count p (x ∷ xs) h = ground (arith, any_of_count p xs)

-- Where no incident is active, the unique key lets a new one in.
pub add_incident-opened :
    (env : Env) (k : ℕ) (type : IncidentType) (reason : String) (now : Time) (db : Db)
    → active k type db.incidents ≡ 0
    → add_incident env k type reason now db ≡ ok (opened env k type reason now db)
unfolding add_incident
add_incident-opened env k type reason now db h =
    rw (any_of_count (is_active_of k type) db.incidents h)

-- The new incident counts for its device and type, and for no other.
module _ (id k : ℕ) where
  fresh_own :
      (type : IncidentType) (uuid reason : String) (now : Time)
      → count (is_active_of k type) (new_incident id uuid k type reason now ∷ []) ≡ 1
  unfolding count
  fresh_own availability uuid reason now = ground arith
  fresh_own gpu uuid reason now = ground arith

  fresh_other :
      (j : ℕ) (type t : IncidentType) (uuid reason : String) (now : Time)
      → (j == k && same_type t type) ≡ false
      → count (is_active_of j t) (new_incident id uuid k type reason now ∷ []) ≡ 0
  unfolding count
  fresh_other j availability availability uuid reason now e = ground arith
  fresh_other j availability gpu uuid reason now e = ground arith
  fresh_other j gpu availability uuid reason now e = ground arith
  fresh_other j gpu gpu uuid reason now e = ground arith

pub opened-IncidentStep :
    (env : Env) (k : ℕ) (type : IncidentType) (reason : String) (now : Time) (db : Db)
    → IncidentTable db.incidents db.next_incident
    → active k type db.incidents ≡ 0
    → IsQueue db
    → IncidentStep k type 1 db (opened env k type reason now db)
opened-IncidentStep env k type reason now db t h q = record {
  table = record {
    distinct =
        Distinct-append_one incident_id db.incidents (next_incident_of env k type reason now db)
          t.below t.distinct;
    below =
        All-append (λ i. i.id < db.next_incident + 1) db.incidents _
          (All-map (λ i. i.id < db.next_incident) (λ i. i.id < db.next_incident + 1)
            (λ i b. omega arith) db.incidents t.below)
          (omega arith, tt);
  };
  own =
      rw
        (
          count-append (is_active_of k type) db.incidents
              (next_incident_of env k type reason now db ∷ []),
          h,
        )
        (rw (fresh_own db.next_incident k type (env.uuid4 db.draws) reason now) (omega arith));
  others = λ j u e.
      rw
        (count-append (is_active_of j u) db.incidents
          (next_incident_of env k type reason now db ∷ []))
        (rw (fresh_other db.next_incident k j type u (env.uuid4 db.draws) reason now e)
          (omega arith));
  devices = refl;
  queue = record { progress = (QueueStep-refl {db = db} q).progress; queue = q };
}

-- `db` with the incident of that id closed.
abbrev pub closed_by : ℕ → String → Time → Db → Db
closed_by id reason now db = record db {
  incidents = update_where (λ i. i.id == id) (close_incident reason now) db.incidents;
}

-- A row that equals one of device `k` and type `type` is no active incident of another.
not_active_of :
    (k j : ℕ) (type t : IncidentType) (i : Incident)
    → is_active_of k type i ≡ true
    → (j == k && same_type t type) ≡ false
    → is_active_of j t i ≡ false
not_active_of k j availability availability i h e = ground arith
not_active_of k j availability gpu i h e = ground arith
not_active_of k j gpu availability i h e = ground arith
not_active_of k j gpu gpu i h e = ground arith

closed_is_inactive :
    (k : ℕ) (type : IncidentType) (reason : String) (now : Time) (i : Incident)
    → is_active_of k type (close_incident reason now i) ≡ false
closed_is_inactive k type reason now i = ground arith

pub closed-IncidentStep :
    (k : ℕ) (type : IncidentType) (reason : String) (now : Time) (i : Incident) (db : Db)
    → IncidentTable db.incidents db.next_incident
    → active k type db.incidents ≤ 1
    → active_incident k type db ≡ some i
    → IsQueue db
    → IncidentStep k type 0 db (closed_by i.id reason now db)
unfolding active_incident
closed-IncidentStep k type reason now i db t few found q = record {
  table = record {
    distinct =
        Distinct-update_where incident_id (λ j. j.id == i.id) (close_incident reason now)
          (λ j. refl) db.incidents t.distinct;
    below =
        All-key-update_where incident_id (λ n. n < db.next_incident) (λ j. j.id == i.id)
          (close_incident reason now) (λ j. refl) db.incidents t.below;
  };
  own =
      count-switch_off incident_id (is_active_of k type) (close_incident reason now)
        (closed_is_inactive k type reason now) db.incidents few found;
  others = λ j u e.
      count-update_other incident_id (is_active_of j u) i.id (close_incident reason now)
        (λ x _. closed_is_inactive j u reason now x) db.incidents
        (All-map (λ x. x.id ≡ i.id → x ≡ i) (λ x. x.id ≡ i.id → is_active_of j u x ≡ false)
          (λ x same key.
            subst (λ z. is_active_of j u z ≡ false) (sym (same key))
              (not_active_of k j type u i (find?-holds (is_active_of k type) db.incidents found) e))
          db.incidents
          (find?-unique incident_id i.id db.incidents t.distinct
            (find?-by_key incident_id (is_active_of k type) db.incidents t.distinct found)));
  devices = refl;
  queue = record { progress = (QueueStep-refl {db = db} q).progress; queue = q };
}

-- Superseding messages that are still open keeps the queue, and touches nothing else.
pub supersede-AlertStep :
    (now : Time) (p : Delivery → Bool) (db : Db)
    → ((d : Delivery) → p d ≡ true → is_open d.status ≡ true)
    → IsQueue db
    → AlertStep db (supersede now p db)
unfolding supersede
supersede-AlertStep now p db only_open q = record {
  devices = refl;
  incidents = refl;
  next_incident = refl;
  queue = record {
    progress = moved;
    queue = Queue-write p (supersede_row now) (λ d. unfold supersede_row in ground arith) q moved;
  };
}
  where
    moved : Progress db.deliveries (update_where p (supersede_row now) db.deliveries)
    moved =
        Progress-update_where p (supersede_row now)
          (λ d h _. supersede_row-Advances now d (only_open d h))
          (λ d h s. supersede_row-IsSound now d (only_open d h) s) db.deliveries q.sound
