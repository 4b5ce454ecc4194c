-- ===== src/Notifications/Service/Recording.antt =====
-- `record_result` and the one delivery that it is about.
use skybeat.Base.{
  ℕ, ◌≡◌, ◌≢◌, refl, sym, subst, ◌∙◌, Bool, true, false, List, none, some, find?, find?-holds,
  update_where, arith, Option-cases, inl, inr, ◌==◌, ==_iff, ==_refl, ◌&&◌, if◌then◌else◌,
}
use mathlib.Core.Option.{some-injective}
use skybeat.Base.Keyed.{by_key, find?-update_where}
use skybeat.Store.{Db, Result, ok, raise, attempt_missing}
use skybeat.Store.Kinds.{is_in_progress}
use skybeat.Store.Rows.{Time, Delivery}
use skybeat.Notifications.Delivery.{ProviderResult, Jitter, result_row}
use skybeat.Notifications.Queue.{delivery_id, IsQueue}
use skybeat.Notifications.Service.{
  ClaimedDelivery, is_attempt, holds_lease, find_delivery, write_result, record_result,
}
use skybeat.Notifications.Service.Settling.{Keeps, record_result-Keeps, result_row-same_id}

-- A write to the delivery that is found under its own id.
found_written :
    (f : Delivery → Delivery)
    → ((e : Delivery) → (f e).id ≡ e.id)
    → (k : ℕ) (d : Delivery) (rows : List Delivery) → find? (by_key delivery_id k) rows ≡ some d
    → find? (by_key delivery_id k) (update_where (λ e. e.id == d.id) f rows) ≡ some (f d)
found_written f same k d rows found =
    find?-update_where delivery_id (λ e. e.id == d.id) f same k rows ∙ rw (found, ==_refl d.id) refl

-- It writes to no delivery with another id.
others_kept :
    (f : Delivery → Delivery)
    → ((e : Delivery) → (f e).id ≡ e.id)
    → (j k : ℕ) (rows : List Delivery) → k ≢ j
    → find? (by_key delivery_id k) (update_where (λ e. e.id == j) f rows)
      ≡ find? (by_key delivery_id k) rows
others_kept f same j k rows ne =
    find?-update_where delivery_id (λ e. e.id == j) f same k rows
    ∙ elim (Option-cases (find? (by_key delivery_id k) rows)) [
      | inl e ↦ rw e refl
      | inr (x, e) ↦
          let hit : x.id ≡ k = (==_iff x.id k).0 (find?-holds (by_key delivery_id k) rows e) in
          rw e (ground (arith, ne, hit, ==_iff x.id j))
    ]

-- An exception, which the missing row of the attempt explains, or no write to another delivery.
abbrev pub OthersKept : ClaimedDelivery → Db → Result Db → Type 0
OthersKept claim db (raise e) =
    (e ≡ attempt_missing)
    × (find? (is_attempt claim.delivery_id claim.attempt_no) db.attempts ≡ none)
OthersKept claim db (ok db1) =
    (k : ℕ)
    → k ≢ claim.delivery_id
    → find? (by_key delivery_id k) db1.deliveries ≡ find? (by_key delivery_id k) db.deliveries

write_result-OthersKept :
    (jitter : Jitter) (now : Time) (claim : ClaimedDelivery) (r : ProviderResult) (d : Delivery)
    (db : Db)
    → d.id ≡ claim.delivery_id
    → OthersKept claim db (write_result jitter now claim r d db)
unfolding write_result
write_result-OthersKept jitter now claim r d db same =
    elim (Option-cases (find? (is_attempt d.id claim.attempt_no) db.attempts)) [
      | inl e ↦
          rw (e, write_result)
            (refl, subst (λ k. find? (is_attempt k claim.attempt_no) db.attempts ≡ none) same e)
      | inr (a, e) ↦
          rw (e, write_result)
            (λ k ne.
              others_kept (result_row jitter now r) (result_row-same_id jitter now r) d.id k
                db.deliveries (λ h. ne (h ∙ same)))
    ]

record_result-OthersKept :
    (jitter : Jitter) (now : Time) (claim : ClaimedDelivery) (r : ProviderResult) (db : Db)
    → OthersKept claim db (record_result jitter now claim r db)
unfolding record_result find_delivery
record_result-OthersKept jitter now claim r db =
    elim (Option-cases (find? (by_key delivery_id claim.delivery_id) db.deliveries)) [
      | inl e ↦ rw (e, record_result) (λ k ne. refl)
      | inr (d, e) ↦
          rw (e, record_result)
            (split d
              ((==_iff d.id claim.delivery_id).0
                (find?-holds (by_key delivery_id claim.delivery_id) db.deliveries e))
              (is_in_progress d.status && holds_lease claim.lease_token d.lease_token))
    ]
  where
    split :
        (d : Delivery)
        → d.id ≡ claim.delivery_id
        → (held : Bool)
        → OthersKept claim db (if held then write_result jitter now claim r d db else ok db)
    split d same true = write_result-OthersKept jitter now claim r d db same
    split d same false = λ k ne. refl

result_row_done :
    (jitter : Jitter) (now : Time) (r : ProviderResult) (d : Delivery)
    → is_in_progress (result_row jitter now r d).status ≡ false
unfolding result_row
result_row_done jitter now r d = ground arith

-- The delivery of a claim is gone, is no longer IN_PROGRESS, or is leased under another token.
abbrev pub IsStale : ClaimedDelivery → Db → Type 0
IsStale claim db =
    (d : Delivery)
    → find_delivery claim.delivery_id db ≡ some d
    → (is_in_progress d.status && holds_lease claim.lease_token d.lease_token) ≡ false

-- `record_result` makes its claim stale in the database that it leaves.
abbrev pub Ends : ClaimedDelivery → Result Db → Type 0
Ends claim (raise e) = Unit
Ends claim (ok db1) = IsStale claim db1

write_result-Ends :
    (jitter : Jitter) (now : Time) (claim : ClaimedDelivery) (r : ProviderResult) (d : Delivery)
    (db : Db)
    → find? (by_key delivery_id claim.delivery_id) db.deliveries ≡ some d
    → Ends claim (write_result jitter now claim r d db)
unfolding write_result find_delivery
write_result-Ends jitter now claim r d db found =
    elim (Option-cases (find? (is_attempt d.id claim.attempt_no) db.attempts)) [
      | inl e ↦ rw (e, write_result) tt
      | inr (a, e) ↦ rw (e, write_result) (λ x h. stale x (sym h ∙ written))
    ]
  where
    written :
        find?
          (by_key delivery_id claim.delivery_id)
          (update_where (λ e. e.id == d.id) (result_row jitter now r) db.deliveries)
        ≡ some (result_row jitter now r d)
    written =
        found_written (result_row jitter now r) (result_row-same_id jitter now r) claim.delivery_id
          d db.deliveries found

    stale :
        (x : Delivery)
        → some x ≡ some (result_row jitter now r d)
        → (is_in_progress x.status && holds_lease claim.lease_token x.lease_token) ≡ false
    stale x e =
        subst
          (λ z. (is_in_progress z.status && holds_lease claim.lease_token z.lease_token) ≡ false)
          (sym (some-injective _ _ e)) (rw (result_row_done jitter now r d) refl)

record_result-Ends :
    (jitter : Jitter) (now : Time) (claim : ClaimedDelivery) (r : ProviderResult) (db : Db)
    → Ends claim (record_result jitter now claim r db)
unfolding record_result find_delivery
record_result-Ends jitter now claim r db =
    elim (Option-cases (find? (by_key delivery_id claim.delivery_id) db.deliveries)) [
      | inl e ↦ rw (e, record_result) (λ x h. ground (arith, e, h))
      | inr (d, e) ↦
          rw (e, record_result)
            (split d e (is_in_progress d.status && holds_lease claim.lease_token d.lease_token)
              refl)
    ]
  where
    split :
        (d : Delivery)
        → find? (by_key delivery_id claim.delivery_id) db.deliveries ≡ some d
        → (held : Bool)
        → (is_in_progress d.status && holds_lease claim.lease_token d.lease_token) ≡ held
        → Ends claim (if held then write_result jitter now claim r d db else ok db)
    split d e true h = write_result-Ends jitter now claim r d db e
    split d e false h = λ x hx.
        subst
          (λ z. (is_in_progress z.status && holds_lease claim.lease_token z.lease_token) ≡ false)
          (some-injective _ _ (sym e ∙ hx)) h

-- What the end of an attempt does: to the queue, to the other deliveries and to the claim.
abbrev pub Settles : ClaimedDelivery → Db → Result Db → Type 0
Settles claim db r = Keeps db r × OthersKept claim db r × Ends claim r

-- On a sound queue, whatever a provider answered, `record_result` raises only where there is no row
-- of the claim's attempt, and then writes nothing; else it keeps the queue sound, lets the claim's
-- delivery only advance, after which that is not IN_PROGRESS under the claim's token, and leaves
-- every other delivery exactly as it was.
pub record_result-Settles :
    (jitter : Jitter) (now : Time) (claim : ClaimedDelivery) (r : ProviderResult) (db : Db)
    → IsQueue db
    → Settles claim db (record_result jitter now claim r db)
record_result-Settles jitter now claim r db q = (
  record_result-Keeps jitter now claim r db q,
  record_result-OthersKept jitter now claim r db,
  record_result-Ends jitter now claim r db,
)
