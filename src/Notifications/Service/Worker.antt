-- ===== src/Notifications/Service/Worker.antt =====
-- A whole call of `process_due`, among what other transactions do.
use skybeat.Base.{ℕ, suc, List, [], ◌∷◌, ◌≤◌}
use skybeat.Store.{Run, after, Db, Env, Result, ok, raise}
use skybeat.Notifications.Delivery.{Jitter}
use skybeat.Notifications.Queue.{IsQueue, QueueStep, QueueStep-refl, QueueStep-trans}
use skybeat.Notifications.Service.{
  ClaimedDelivery, World, Providers, recover_stuck, attempt_send, deliver_claims, process_due,
  claim_due,
}
use skybeat.Notifications.Service.Claiming.{Claimed}
use skybeat.Notifications.Service.Claims.{claim_due-Claimed}
use skybeat.Notifications.Service.Settling.{Keeps, record_result-Keeps, recover_stuck-QueueStep}

-- What other transactions do between those of the worker keeps the queue too.
abbrev pub IsFriendly : World → Type 0
IsFriendly w = (k : ℕ) (db : Db) → IsQueue db → QueueStep db (w.others k db)

-- The rest of the call, after a transaction that kept the queue.
after-QueueStep :
    (db : Db) (r : Result Db) (rest : Db → Run)
    → IsQueue db
    → Keeps db r
    → ((db1 : Db) → IsQueue db1 → QueueStep db1 (rest db1).1)
    → QueueStep db (after db r rest).1
after-QueueStep db (raise e) rest q kept next = QueueStep-refl q
after-QueueStep db (ok db1) rest q kept next = QueueStep-trans kept (next db1 kept.queue)

deliver_claims-QueueStep :
    (w : World) (jitter : Jitter) (providers : Providers) (k : ℕ) (claims : List ClaimedDelivery)
    (db : Db)
    → IsFriendly w
    → IsQueue db
    → QueueStep db (deliver_claims w jitter providers k claims db).1
unfolding deliver_claims
deliver_claims-QueueStep w jitter providers k [] db friendly q = QueueStep-refl q
deliver_claims-QueueStep w jitter providers k (claim ∷ claims) db friendly q =
    let s = friendly k db q in
    QueueStep-trans s (
      after-QueueStep (w.others k db) _ (deliver_claims w jitter providers (suc k) claims) s.queue
        (record_result-Keeps jitter (w.clock k) claim (attempt_send providers claim) (w.others k db)
          s.queue)
        (λ db1 q1. deliver_claims-QueueStep w jitter providers (suc k) claims db1 friendly q1))

Claimed-QueueStep :
    (db : Db) (r : Result (List ClaimedDelivery × Db)) (rest : List ClaimedDelivery × Db → Run)
    → Claimed db r
    → ((claimed : List ClaimedDelivery × Db)
        → IsQueue claimed.1
        → QueueStep claimed.1 (rest claimed).1)
    → QueueStep db (after db r rest).1
Claimed-QueueStep db (raise e) rest c next = absurd c
Claimed-QueueStep db (ok (claims, db1)) rest c next =
    QueueStep-trans c.0 (next (claims, db1) c.0.queue)

-- Over a whole call of `process_due` for a limit from 1 to 4, with whatever providers answer and
-- whatever other transactions do between its own, if those keep the queue: the queue stays sound,
-- no delivery is lost, and each changes by an advance only.
pub process_due-QueueStep :
    (env : Env) (w : World) (jitter : Jitter) (providers : Providers) (limit : ℕ) (db : Db)
    → 1 ≤ limit
    → limit ≤ 4
    → IsFriendly w
    → IsQueue db
    → QueueStep db (process_due env w jitter providers limit db).1
unfolding process_due
process_due-QueueStep env w jitter providers limit db lo hi friendly q =
    let s0 = friendly 0 db q in
    let s1 = recover_stuck-QueueStep (w.locked 0) (w.clock 0) (w.others 0 db) s0.queue in
    let s2 = friendly 1 (recover_stuck (w.locked 0) (w.clock 0) (w.others 0 db)) s1.queue in
    let db2 = w.others 1 (recover_stuck (w.locked 0) (w.clock 0) (w.others 0 db)) in
    QueueStep-trans s0 (
      QueueStep-trans s1 (
        QueueStep-trans s2 (
          Claimed-QueueStep db2 (claim_due env (w.locked 1) (w.clock 1) limit db2) _
            (claim_due-Claimed env (w.locked 1) (w.clock 1) limit db2 lo hi s2.queue)
            (λ claimed q3.
              deliver_claims-QueueStep w jitter providers 2 claimed.0 claimed.1 friendly q3))))
