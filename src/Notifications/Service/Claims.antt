-- ===== src/Notifications/Service/Claims.antt =====
-- The loop of `claim_due`, and `claim_due` itself.
use skybeat.Base.{
  ℕ, ◌≡◌, ◌≢◌, refl, sym, ◌∙◌, true, List, [], ◌∷◌, ◌++◌, ◌≤◌, All, All-map, All-zip, All-append,
  All-select-holds, All-take, find?, select, arith, leb, some, Option-cases, inl, inr, ◌==◌, ◌⊎◌,
  subst,
}
use skybeat.Base.Order.{sort}
use skybeat.Base.Distinct.{Distinct, Distinct-select, Distinct-take, Distinct-sort, All-sort}
use skybeat.Base.Keyed.{by_key, All-select-found}
use skybeat.Store.{Db, Env, Result, ok, raise, ◌>>=◌}
use skybeat.Store.Kinds.{is_waiting}
use skybeat.Store.Rows.{Time, Delivery}
use skybeat.Notifications.Delivery.{claim_row}
use skybeat.Notifications.Queue.{delivery_id, IsQueue, QueueStep, QueueStep-refl, QueueStep-trans}
use skybeat.Notifications.Service.{
  Joined, ClaimedDelivery, Locked, expire_unclaimed, is_due, join_row, join_rows, due_rows,
  claimed_before, claim_rows, claim_of, claim_due,
}
use skybeat.Notifications.Service.Claiming.{
  joined_id, IsHeld, IsLease, Claimed, leased, add_attempt-leased, leased-QueueStep, leased-other,
  lease_row-found, expire_unclaimed-QueueStep,
}

-- The outcome of the loop over `js`: no failure, leases, and other rows untouched.
abbrev Looped : Db → List Joined → Result (List ClaimedDelivery × Db) → Type 0
Looped db js (raise e) = ⊥
Looped db js (ok (claims, db1)) =
    QueueStep db db1
    × All (IsLease db1.deliveries) claims
    × ((k : ℕ)
        → All (λ j. joined_id j ≢ k) js
        → find? (by_key delivery_id k) db1.deliveries ≡ find? (by_key delivery_id k) db.deliveries)

-- The rows still to come are held after the lease of another.
IsHeld-leased :
    (env : Env) (now : Time) (j : Joined) (db : Db) (js : List Joined)
    → All (λ k. joined_id k ≢ joined_id j) js
    → All (IsHeld db.deliveries) js
    → All (IsHeld (leased env now j db).deliveries) js
IsHeld-leased env now j db js ne held =
    All-map (λ k. (joined_id k ≢ joined_id j) × IsHeld db.deliveries k)
      (IsHeld (leased env now j db).deliveries)
      (λ k (facts : (joined_id k ≢ joined_id j) × IsHeld db.deliveries k).
        (leased-other env now j db k.delivery.id facts.0 ∙ facts.1.0, facts.1.1))
      js (All-zip (λ k. joined_id k ≢ joined_id j) (IsHeld db.deliveries) js ne held)

Looped-cons :
    (env : Env) (now : Time) (j : Joined) (js : List Joined) (db : Db)
    → IsQueue db
    → IsHeld db.deliveries j
    → All (λ k. joined_id k ≢ joined_id j) js
    → (r : Result (List ClaimedDelivery × Db)) → Looped (leased env now j db) js r
    → Looped db (j ∷ js) (
        r >>= λ (out : List ClaimedDelivery × Db).
        ok (claim_of (env.uuid4 db.draws) j ∷ out.0, out.1))
unfolding claim_of claim_row
Looped-cons env now j js db q held ne (raise e) l = l
Looped-cons env now j js db q held ne (ok (claims, db2)) l = (
  QueueStep-trans (leased-QueueStep env now j db q held) l.0,
  (
    (
      claim_row now (env.uuid4 db.draws) j.delivery,
      l.2 j.delivery.id ne ∙ lease_row-found env now j db held,
      refl,
      refl,
      refl,
    ),
    l.1,
  ),
  λ k others. l.2 k others.1 ∙ leased-other env now j db k (λ e. others.0 (sym e)),
)

claim_rows-Looped :
    (env : Env) (now : Time) (js : List Joined) (db : Db)
    → IsQueue db
    → All (IsHeld db.deliveries) js
    → Distinct joined_id js
    → Looped db js (claim_rows env now js db)
unfolding claim_rows
claim_rows-Looped env now [] db q held d = (QueueStep-refl q, tt, λ k _. refl)
claim_rows-Looped env now (j ∷ js) db q held d = rw (add_attempt-leased env now j db q held.0) (
    Looped-cons env now j js db q held.0 d.0 _ (
      claim_rows-Looped env now js (leased env now j db)
        (leased-QueueStep env now j db q held.0).queue (IsHeld-leased env now j db js d.0 held.1)
        d.1))

-- Each delivery is joined with one event and one incident at most.
join_row_cases :
    (db : Db) (d : Delivery)
    → (join_row db d ≡ []) ⊎ ((j : Joined) × (join_row db d ≡ j ∷ []) × (j.delivery ≡ d))
unfolding join_row
join_row_cases db d = elim (Option-cases (find? (λ e. e.id == d.event_id) db.events)) [
  | inl e ↦ inl (rw (join_row, e))
  | inr (event, e) ↦ elim (Option-cases (find? (λ i. i.id == event.incident_id) db.incidents)) [
    | inl e' ↦ inl (rw (join_row, e, e'))
    | inr (incident, e') ↦
        inr
          (record { delivery = d; event = event; incident = incident }, rw (join_row, e, e'), refl)
  ]
]

module _ (db : Db) (P : Delivery → Type 0) where
  All-join_row : (d : Delivery) → P d → All (λ j. P j.delivery) (join_row db d)
  All-join_row d h = elim (join_row_cases db d) [
    | inl e ↦ rw e tt
    | inr (j, e, same) ↦ rw e (subst P (sym same) h, tt)
  ]

  All-join_rows : (ds : List Delivery) → All P ds → All (λ j. P j.delivery) (join_rows db ds)
  unfolding join_rows
  All-join_rows [] h = tt
  All-join_rows (d ∷ ds) h =
      All-append (λ j. P j.delivery) (join_row db d) (join_rows db ds) (All-join_row d h.0)
        (All-join_rows ds h.1)

Distinct-join_cons :
    (db : Db) (d : Delivery) (js : List Joined)
    → All (λ j. joined_id j ≢ d.id) js
    → Distinct joined_id js
    → Distinct joined_id (join_row db d ++ js)
Distinct-join_cons db d js ne h = elim (join_row_cases db d) [
  | inl e ↦ rw e h
  | inr (j, e, same) ↦
      rw e (subst (λ (x : Delivery). All (λ k. joined_id k ≢ x.id) js) (sym same) ne, h)
]

Distinct-join_rows :
    (db : Db) (ds : List Delivery) → Distinct delivery_id ds → Distinct joined_id (join_rows db ds)
unfolding join_rows
Distinct-join_rows db [] h = tt
Distinct-join_rows db (d ∷ ds) h =
    Distinct-join_cons db d (join_rows db ds) (All-join_rows db (λ e. e.id ≢ d.id) ds h.0)
      (Distinct-join_rows db ds h.1)

due_rows-IsHeld :
    (locked : Locked) (now : Time) (limit : ℕ) (db : Db)
    → IsQueue db
    → All (IsHeld db.deliveries) (due_rows locked now limit db)
unfolding due_rows
due_rows-IsHeld locked now limit db q =
    let due : List Delivery = select (is_due locked now) db.deliveries in
    let P = λ (d : Delivery).
      (find? (by_key delivery_id d.id) db.deliveries ≡ some d) × (is_waiting d.status ≡ true) in
    All-take (IsHeld db.deliveries) limit (sort claimed_before (join_rows db due)) (
      All-sort joined_id (IsHeld db.deliveries) claimed_before (join_rows db due) (
        All-join_rows db P due (
          All-zip (λ d. find? (by_key delivery_id d.id) db.deliveries ≡ some d)
            (λ d. is_waiting d.status ≡ true) due
            (All-select-found delivery_id (is_due locked now) db.deliveries q.distinct)
            (All-map (λ d. is_due locked now d ≡ true) (λ d. is_waiting d.status ≡ true)
              (λ d h. ground arith) due (All-select-holds (is_due locked now) db.deliveries)))))

due_rows-Distinct :
    (locked : Locked) (now : Time) (limit : ℕ) (db : Db)
    → IsQueue db
    → Distinct joined_id (due_rows locked now limit db)
unfolding due_rows
due_rows-Distinct locked now limit db q =
    let due : List Delivery = select (is_due locked now) db.deliveries in
    Distinct-take joined_id limit (sort claimed_before (join_rows db due)) (
      Distinct-sort joined_id claimed_before (join_rows db due) (
        Distinct-join_rows db due
          (Distinct-select delivery_id (is_due locked now) db.deliveries q.distinct)))

Claimed-of_Looped :
    (a b : Db) (js : List Joined) (r : Result (List ClaimedDelivery × Db))
    → QueueStep a b
    → Looped b js r
    → Claimed a r
Claimed-of_Looped a b js (raise e) s l = l
Claimed-of_Looped a b js (ok (claims, db1)) s l = (QueueStep-trans s l.0, l.1)

-- On a sound queue and for a limit from 1 to 4, `claim_due` never raises (the attempts that it adds
-- never collide with the unique key), it keeps the queue sound, it changes no delivery other than
-- by an advance, and each claim that it returns names a row that is IN_PROGRESS under the claim's
-- own lease token, with the claim's attempt number as its attempt count.
pub claim_due-Claimed :
    (env : Env) (locked : Locked) (now : Time) (limit : ℕ) (db : Db)
    → 1 ≤ limit
    → limit ≤ 4
    → IsQueue db
    → Claimed db (claim_due env locked now limit db)
unfolding claim_due
claim_due-Claimed env locked now limit db lo hi q =
    let s = expire_unclaimed-QueueStep locked now db q in
    let db1 = expire_unclaimed locked now db in
    let e1 : leb 1 limit ≡ true = ground arith in
    let e2 : leb limit 4 ≡ true = ground arith in
    rw (e1, e2)
      (Claimed-of_Looped db db1 (due_rows locked now limit db1) _ s (
        claim_rows-Looped env now (due_rows locked now limit db1) db1 s.queue
          (due_rows-IsHeld locked now limit db1 s.queue)
          (due_rows-Distinct locked now limit db1 s.queue)))
