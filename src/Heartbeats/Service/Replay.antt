-- ===== src/Heartbeats/Service/Replay.antt =====
-- A heartbeat that is sent again.
use skybeat.Base.{
  ℕ, ◌≡◌, refl, sym, ap, subst, String, Bool, true, false, [], ◌∷◌, ◌++◌, some, any, find?,
  find?-appended, str_eq, if◌then◌else◌, Option-cases, inl, inr, arith, ==_refl, eq_refl, eq_iff,
}
use skybeat.Store.{Db, Env, Result, ok, raise, heartbeat_conflict, ◌>>=◌}
use skybeat.Store.Rows.{Time, Device, Acknowledgement, HeartbeatReceipt}
use skybeat.Gpu.Service
use skybeat.Health.Service.{accept_heartbeat, save_device}
use skybeat.Heartbeats.Service.{
  Heartbeat, HeartbeatService, payload_digest, is_receipt, new_receipt, acknowledgement_of,
  add_receipt, add_sample, put_latest, accept_new, accept_from,
}

-- The database holds the receipt of a heartbeat with that answer.
abbrev pub IsRecorded : Env → ℕ → Heartbeat → Acknowledgement → Db → Type 0
IsRecorded env device_id h answer db =
    (r : HeartbeatReceipt) × (find? (is_receipt device_id h.heartbeat_id) db.receipts ≡ some r)
    × (str_eq r.payload_hash (payload_digest env h) ≡ true)
    × (r.response_payload ≡ answer)

abbrev pub Records : Env → ℕ → Heartbeat → Result (Acknowledgement × Db) → Type 0
Records env device_id h (raise e) = Unit
Records env device_id h (ok (answer, db)) = IsRecorded env device_id h answer db

module _ (env : Env) (service : HeartbeatService) (device : Device) (at : Time)
    (h : Heartbeat) where
  stored :
      (db : Db)
      → Records env device.id h (
          add_receipt env device.id h at db >>= λ (db3 : Db).
          ok (
            acknowledgement_of env h at,
            put_latest device.id h at (add_sample device.id h at db3),
          ))
  unfolding add_receipt put_latest add_sample
  stored db = by_test (any (is_receipt device.id h.heartbeat_id) db.receipts) refl
    where
      found :
          any (is_receipt device.id h.heartbeat_id) db.receipts ≡ false
          → find?
              (is_receipt device.id h.heartbeat_id)
              (db.receipts ++ new_receipt env device.id h at ∷ [])
            ≡ some (new_receipt env device.id h at)
      found e =
          find?-appended (is_receipt device.id h.heartbeat_id) (new_receipt env device.id h at)
            db.receipts e (ground (arith, ==_refl device.id, eq_refl h.heartbeat_id))

      by_test :
          (b : Bool)
          → any (is_receipt device.id h.heartbeat_id) db.receipts ≡ b
          → Records env device.id h (
              add_receipt env device.id h at db >>= λ (db3 : Db). ok (
                acknowledgement_of env h at,
                put_latest device.id h at (add_sample device.id h at db3),
              ))
      by_test true e = rw (e, add_receipt) tt
      by_test false e =
          rw (e, add_receipt)
            (new_receipt env device.id h at, found e, eq_refl (payload_digest env h), refl)

  accept_new-Records : (db : Db) → Records env device.id h (accept_new env service device at h db)
  unfolding accept_new
  accept_new-Records db = by_health (accept_heartbeat env service.availability device at db)
    where
      by_gpu :
          (r : Result (Device × Db))
          → Records env device.id h (
              r >>= λ (x : Device × Db).
              add_receipt env device.id h at (save_device x.0 x.1) >>= λ (db3 : Db). ok (
                acknowledgement_of env h at,
                put_latest device.id h at (add_sample device.id h at db3),
              ))
      by_gpu (raise e) = tt
      by_gpu (ok (d, db2)) = stored (save_device d db2)

      by_health :
          (r : Result (Device × Db))
          → Records env device.id h (
              r >>= λ (s : Device × Db).
              Service.accept env service.gpu s.0 h.gpu at s.1 >>= λ (x : Device × Db).
              add_receipt env device.id h at (save_device x.0 x.1) >>= λ (db3 : Db). ok (
                acknowledgement_of env h at,
                put_latest device.id h at (add_sample device.id h at db3),
              ))
      by_health (raise e) = tt
      by_health (ok (d, db1)) = by_gpu (Service.accept env service.gpu d h.gpu at db1)

  accept_from-Records : (db : Db) → Records env device.id h (accept_from env service device at h db)
  unfolding accept_from
  accept_from-Records db =
      elim (Option-cases (find? (is_receipt device.id h.heartbeat_id) db.receipts)) [
        | inl e ↦ rw (e, accept_from) (accept_new-Records db)
        | inr (r, e) ↦
            rw (e, accept_from) (by_test r e (str_eq r.payload_hash (payload_digest env h)) refl)
      ]
    where
      by_test :
          (r : HeartbeatReceipt)
          → find? (is_receipt device.id h.heartbeat_id) db.receipts ≡ some r
          → (b : Bool) → str_eq r.payload_hash (payload_digest env h) ≡ b
          → Records env device.id h
              (if b then ok (r.response_payload, db) else raise heartbeat_conflict)
      by_test r e true same = (r, e, same, refl)
      by_test r e false differs = tt

abbrev reply : Bool → Acknowledgement → Db → Result (Acknowledgement × Db)
reply b answer db = if b then ok (answer, db) else raise heartbeat_conflict

same_reply :
    (x y digest : String) (a b : Acknowledgement) (db : Db)
    → x ≡ y
    → a ≡ b
    → reply (str_eq x digest) a db ≡ reply (str_eq y digest) b db
same_reply x y digest a b db p q =
    subst (λ z. reply (str_eq x digest) a db ≡ reply (str_eq z digest) b db) p
      (ap (λ c. reply (str_eq x digest) c db) q)

-- After a heartbeat was answered, the same device may send its id again at any time: with an equal
-- payload digest it gets the same answer and the database does not change, with another digest it
-- is refused as a conflict.
pub accept_from_replay :
    (env : Env) (service : HeartbeatService) (device again : Device) (at later : Time)
    (h h2 : Heartbeat) (db db1 : Db) (answer : Acknowledgement)
    → accept_from env service device at h db ≡ ok (answer, db1)
    → again.id ≡ device.id
    → h2.heartbeat_id ≡ h.heartbeat_id
    → accept_from env service again later h2 db1 ≡ (
        if str_eq (payload_digest env h) (payload_digest env h2)
        then ok (answer, db1)
        else raise heartbeat_conflict)
unfolding accept_from
accept_from_replay env service device again at later h h2 db db1 answer done same_device same_id =
    let recorded : IsRecorded env device.id h answer db1 =
      subst (Records env device.id h) done (accept_from-Records env service device at h db) in
    let (r, found, hash, response) = recorded in
    let hash_is : r.payload_hash ≡ payload_digest env h = (eq_iff _ _).0 hash in
    let found2 : find? (is_receipt again.id h2.heartbeat_id) db1.receipts ≡ some r =
      subst (λ k. find? (is_receipt k h2.heartbeat_id) db1.receipts ≡ some r) (sym same_device)
        (subst (λ s. find? (is_receipt device.id s) db1.receipts ≡ some r) (sym same_id) found) in
    rw (found2, accept_from)
      (same_reply r.payload_hash _ (payload_digest env h2) r.response_payload answer db1 hash_is
        response)
