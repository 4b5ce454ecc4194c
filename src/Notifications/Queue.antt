-- ===== src/Notifications/Queue.antt =====
-- The notification queue in the database: the invariant of its two tables, and the shape of every
-- change that a transaction makes to it.
use skybeat.Base.{
  ℕ, ◌≤◌, ◌<◌, ◌≡◌, subst, List, [], ◌∷◌, ◌++◌, some, All, All-map, All-append, All-update_where,
  find?, update_where, arith, Bool-cases, inl, inr, ◌==◌, Bool,
}
use skybeat.Base.Distinct.{Distinct, Distinct-update_where, All-key-update_where}
use skybeat.Base.Keyed.{by_key}
use skybeat.Store.{Db}
use skybeat.Store.Rows.{Delivery, Attempt}
use skybeat.Notifications.Delivery.Lifecycle.{IsSound, Advances}
use skybeat.Notifications.Delivery.Evolution.{Evolves, Progress, Progress-refl, Progress-trans}

abbrev pub delivery_id : Delivery → ℕ
delivery_id d = d.id

-- The delivery of an attempt exists, and has counted the attempt.
abbrev pub IsCounted : List Delivery → Attempt → Type 0
IsCounted rows a =
    (d : Delivery) × (find? (by_key delivery_id a.delivery_id) rows ≡ some d)
    × (a.attempt_no ≤ d.attempt_count)

pub record Queue (rows : List Delivery) (next : ℕ) (attempts : List Attempt) : Type 0 where
  pub sound : All IsSound rows
  pub distinct : Distinct delivery_id rows
  pub below : All (λ d. d.id < next) rows
  pub counted : All (IsCounted rows) attempts

abbrev pub IsQueue : Db → Type 0
IsQueue db = Queue db.deliveries db.next_delivery db.attempts

-- The row with a key lives on, advanced.
pub find?-Evolves :
    (k : ℕ) (xs ys : List Delivery) {d : Delivery}
    → Evolves xs ys
    → find? (by_key delivery_id k) xs ≡ some d
    → (e : Delivery) × (find? (by_key delivery_id k) ys ≡ some e) × Advances d e
unfolding find?
find?-Evolves k [] ys v h = cc
find?-Evolves k (x ∷ xs) [] v h = absurd v
find?-Evolves k (x ∷ xs) (y ∷ ys) {d} v h = elim (Bool-cases (x.id == k)) [
  | inl hit ↦
      let same : x ≡ d = ground arith in
      (y, ground (arith, v.0.same_id), subst (λ z. Advances z y) same v.0)
  | inr miss ↦
      let (e, found, adv) = find?-Evolves k xs ys {d = d} v.1 (ground arith) in
      (e, ground (arith, v.0.same_id), adv)
]

pub IsCounted-Evolves :
    (xs ys : List Delivery) (a : Attempt) → Evolves xs ys → IsCounted xs a → IsCounted ys a
IsCounted-Evolves xs ys a v (d, found, le) =
    let (e, found', adv) = find?-Evolves a.delivery_id xs ys v found in
    (e, found', omega (arith, adv.counts_up))

-- One transaction on the queue.
pub record QueueStep (db db1 : Db) : Type 0 where
  pub progress : Progress db.deliveries db1.deliveries
  pub queue : IsQueue db1

pub QueueStep-refl : {db : Db} → IsQueue db → QueueStep db db
QueueStep-refl q = record { progress = Progress-refl q.sound; queue = q }

pub QueueStep-trans : {a b c : Db} → QueueStep a b → QueueStep b c → QueueStep a c
QueueStep-trans p q = record { progress = Progress-trans p.progress q.progress; queue = q.queue }

-- A write that keeps ids, and advances the rows that it changes, keeps the queue.
module _ (p : Delivery → Bool) (f : Delivery → Delivery)
    (same_id : (d : Delivery) → (f d).id ≡ d.id) {rows : List Delivery} {next : ℕ}
    {attempts : List Attempt} (q : Queue rows next attempts)
    (progress : Progress rows (update_where p f rows)) where
  pub Queue-write : Queue (update_where p f rows) next attempts
  Queue-write = record {
    sound = progress.sound;
    distinct = Distinct-update_where delivery_id p f same_id rows q.distinct;
    below = All-key-update_where delivery_id (λ k. k < next) p f same_id rows q.below;
    counted =
        All-map (IsCounted rows) (IsCounted (update_where p f rows))
          (λ a. IsCounted-Evolves rows (update_where p f rows) a progress.evolves) attempts
          q.counted;
  }

-- A write to attempts that keeps whose they are.
pub Queue-attempts :
    (p : Attempt → Bool) (f : Attempt → Attempt)
    → ((a : Attempt) → (f a).delivery_id ≡ a.delivery_id)
    → ((a : Attempt) → (f a).attempt_no ≡ a.attempt_no)
    → {rows : List Delivery} {next : ℕ} {attempts : List Attempt} → Queue rows next attempts
    → Queue rows next (update_where p f attempts)
Queue-attempts p f same_delivery same_no {rows} {next} {attempts} q = record {
  sound = q.sound;
  distinct = q.distinct;
  below = q.below;
  counted =
      All-update_where (IsCounted rows) p f (λ a _ c. (c.0, rw same_delivery c.1, rw same_no c.2))
        attempts q.counted;
}

-- A new attempt of a delivery that has counted it.
pub Queue-add_attempt :
    {rows : List Delivery} {next : ℕ} {attempts : List Attempt} (a : Attempt)
    → Queue rows next attempts
    → IsCounted rows a
    → Queue rows next (attempts ++ a ∷ [])
Queue-add_attempt {rows} {next} {attempts} a q c = record {
  sound = q.sound;
  distinct = q.distinct;
  below = q.below;
  counted = All-append (IsCounted rows) attempts (a ∷ []) q.counted (c, tt);
}
