-- ===== src/Enrollment/Service/Runs.antt =====
-- Sequences of transactions of `AgentEnrollmentService`, and what none of them undoes.
use mathlib.Core.Option.{some-injective}
use skybeat.Base.{
  ℕ, ◌≤◌, ◌≡◌, refl, sym, ◌∙◌, subst, String, Bool, true, false, not, ◌&&◌, ◌||◌, List, [], ◌∷◌,
  Option, none, some, ltb, ◌==◌, is_none, str_eq, eq_iff, if◌then◌else◌, arith, find?, any,
  any-append, any-or_left, count, All-append, update_where,
}
use skybeat.Store.{
  Db, Env, Result, ok, raise, enrollment_rejected, integrity_error, not_found, conflict,
  value_error, ◌>>=◌,
}
use skybeat.Store.Audit.{add_audit}
use skybeat.Store.Rows.{Time, AgentEnrollment}
use skybeat.Store.Yields.{Yields, kept, Yields-bind, Yields-ensure, Yields-of, require-found}
use skybeat.Devices.Identity.{filled_label}
use skybeat.Enrollment.Token.{EnrollmentToken, generate, parse}
use skybeat.Enrollment.Service.{
  AgentEnrollmentService, Intent, IssuedEnrollmentIntent, EnrollmentExchange, audit_enrollment,
  enrollment_ttl, new_intent, target_of, insert_intent, create_from, create_intent, used_row,
  exchange,
}
use skybeat.Enrollment.Service.OneTime.{
  is_closed, IsClosed, aged, written, closing, exchange-used, closed-refused,
}
use skybeat.Enrollment.Service.Overview.{
  EnrollmentStatus, find_enrollment, status_of, expire_at, expire_enrollment, was_revoked,
  was_deleted, withdraw, mark_deleted, revoke_unused, delete_unused,
}

-- The calls that write intents.
pub data Operation : Type 0 where
  create : Intent → Operation
  redeem : String → Option String → Operation
  revoke : String → Operation
  delete : String → Operation

unfoldable pub perform : Env → AgentEnrollmentService → Time → Operation → Db → Result Db
unfolding create_intent exchange revoke_unused delete_unused
perform env service now (create i) db = do r ← create_intent env service now i db; ok r.1
perform env service now (redeem token_value expected) db = do
  r ← exchange env service now token_value expected db
  ok r.1
perform env service now (revoke enrollment_id) db = do
  r ← revoke_unused service now enrollment_id db
  ok r.1
perform env service now (delete enrollment_id) db = do
  r ← delete_unused service now enrollment_id db
  ok r.1

-- The transactions that succeed after a time, in their order: one that raises rolls back.
pub data Run (env : Env) (service : AgentEnrollmentService) (t : Time) (db : Db)
    : Time → Db → Type 0 where
  start : Run env service t db t db
  next :
      {t1 : Time} {db1 db2 : Db} (now : Time) (o : Operation)
      → Run env service t db t1 db1
      → t1 ≤ now
      → perform env service now o db1 ≡ ok db2
      → Run env service t db now db2

abbrev Closed : String → Time → Db → Type 0
Closed id t db = IsClosed id t db.enrollments

insert_intent-Closed :
    (id : String) (t : Time) (e : AgentEnrollment) (db : Db)
    → Closed id t db
    → Yields (Closed id t) (insert_intent e db)
unfolding insert_intent
insert_intent-Closed id t e db h =
    Yields-ensure _ integrity_error
      (not (
        any
          (λ (x : AgentEnrollment).
            str_eq x.public_id e.public_id || str_eq x.enrollment_digest e.enrollment_digest)
          db.enrollments))
      _
      (λ fresh. kept _ (record {
        present = any-append (λ x. str_eq x.public_id id) db.enrollments _ h.present;
        closed =
            All-append (λ x. str_eq x.public_id id ≡ true → is_closed t x ≡ true) db.enrollments
              (e ∷ []) h.closed ((λ same. absurd (twice fresh same)), tt);
      }))
  where
    twice :
        not (
            any
              (λ (x : AgentEnrollment).
                str_eq x.public_id e.public_id || str_eq x.enrollment_digest e.enrollment_digest)
              db.enrollments)
          ≡ true
        → str_eq e.public_id id ≡ true
        → ⊥
    twice fresh same =
        let absent : any (λ (x : AgentEnrollment). str_eq x.public_id e.public_id) db.enrollments
            ≡ false =
          any-or_left (λ (x : AgentEnrollment). str_eq x.public_id e.public_id)
            (λ x. str_eq x.enrollment_digest e.enrollment_digest) db.enrollments
            (ground (arith, fresh)) in
        let missing : any (λ (x : AgentEnrollment). str_eq x.public_id id) db.enrollments ≡ false =
          subst (λ u. any (λ (x : AgentEnrollment). str_eq x.public_id u) db.enrollments ≡ false)
            ((eq_iff e.public_id id).0 same) absent in
        ground (arith, missing, h.present)

create_from-Closed :
    (env : Env) (service : AgentEnrollmentService) (id : String) (now : Time) (i : Intent)
    (drawn : EnrollmentToken × ℕ) (db : Db)
    → Closed id now db
    → Yields
        (λ (r : IssuedEnrollmentIntent × Db). Closed id now r.1)
        (create_from env service now i drawn db)
unfolding create_from audit_enrollment add_audit
create_from-Closed env service id now i drawn db h =
    Yields-bind _ (filled_label env i.description) _ (λ description _.
      Yields-bind _ (target_of env i description db) _ (λ target _.
        let e = new_intent db.next_enrollment service.actor i description target drawn.0 now in
        let db0 : Db = record db { draws = drawn.1 } in
        Yields-bind _ (insert_intent e db0) _ (λ db1 inserted.
          kept _ (Yields-of (Closed id now) (insert_intent-Closed id now e db0 h) inserted))))

drawn-Closed :
    (env : Env) (service : AgentEnrollmentService) (id : String) (now : Time) (i : Intent) (db : Db)
    (r : Result (EnrollmentToken × ℕ))
    → Closed id now db
    → Yields
        (λ (r : IssuedEnrollmentIntent × Db). Closed id now r.1)
        (r >>= (λ drawn. create_from env service now i drawn db))
drawn-Closed env service id now i db r h =
    Yields-bind _ r _ (λ drawn _. create_from-Closed env service id now i drawn db h)

mark_deleted-same :
    (actor : String) (now : Time) (e : AgentEnrollment) (db : Db)
    → (mark_deleted actor now e db).enrollments ≡ db.enrollments
unfolding mark_deleted audit_enrollment add_audit
mark_deleted-same actor now e db = by_test (was_deleted e db)
  where
    by_test :
        (b : Bool)
        → (if b then db else audit_enrollment actor "agent_enrollment.deleted" now e db).enrollments
          ≡ db.enrollments
    by_test true = refl
    by_test false = refl

expired :
    (id : String) (t now : Time) (e : AgentEnrollment) (db : Db)
    → t ≤ now
    → Closed id t db
    → Closed id now (expire_enrollment now e db)
expired id t now e db le h =
    written id now (λ x. x.id == e.id) (expire_at now) db.enrollments (λ x. refl)
      (λ x. ground arith) (aged id t now db.enrollments le h)

withdraw-Closed :
    (id : String) (t now : Time) (actor : String) (e : AgentEnrollment) (db : Db)
    → t ≤ now
    → Closed id t db
    → Closed id now (withdraw actor now e db).1
unfolding withdraw audit_enrollment add_audit
withdraw-Closed id t now actor e db le h = by_tests (was_revoked e db) (ltb now e.expires_at)
  where
    by_tests :
        (b c : Bool)
        → (let r : AgentEnrollment × Db =
              if b
              then (e, db)
              else if c
              then (
                expire_at now e,
                audit_enrollment actor "agent_enrollment.revoked" now
                    (expire_at now e)
                    (expire_enrollment now e db),
              )
              else (e, audit_enrollment actor "agent_enrollment.revoked" now e db) in
            Closed id now r.1)
    by_tests true c = aged id t now db.enrollments le h
    by_tests false true = expired id t now e db le h
    by_tests false false = aged id t now db.enrollments le h

revoke_unused-expires :
    (service : AgentEnrollmentService) (now : Time) (id : String) (db : Db)
    (P : List AgentEnrollment → Type 0)
    → ((e : AgentEnrollment)
        → find? (λ (x : AgentEnrollment). str_eq x.public_id id) db.enrollments ≡ some e
        → P (update_where (λ x. x.id == e.id) (expire_at now) db.enrollments))
    → Yields (λ (r : EnrollmentStatus × Db). P r.1.enrollments) (revoke_unused service now id db)
unfolding revoke_unused find_enrollment audit_enrollment add_audit
revoke_unused-expires service now id db P good = Yields-bind _ (find_enrollment id db) _ (λ e found.
    Yields-ensure _ conflict (is_none e.used_at && ltb now e.expires_at) _ (λ _.
      Yields-bind _
        (status_of service (expire_at now e) now (
          audit_enrollment service.actor "agent_enrollment.revoked" now (expire_at now e)
            (expire_enrollment now e db)))
        _ (λ shown _. kept _ (good e (require-found not_found _ found)))))

pub perform-Closed :
    (env : Env) (service : AgentEnrollmentService) (id : String) (t now : Time) (o : Operation)
    (db : Db)
    → t ≤ now
    → Closed id t db
    → Yields (Closed id now) (perform env service now o db)
unfolding perform create_intent delete_unused audit_enrollment add_audit
perform-Closed env service id t now (create i) db le h =
    Yields-bind _ (create_intent env service now i db) _ (λ r done. kept _ (
      Yields-of (λ (r : IssuedEnrollmentIntent × Db). Closed id now r.1)
        (Yields-ensure _ value_error
          (elim i.lifetime [ none ↦ true | some lifetime ↦ lifetime == enrollment_ttl ]) _
          (λ _.
            drawn-Closed env service id now i db (generate env "sbe1" none db.draws)
              (aged id t now db.enrollments le h)))
        done))
perform-Closed env service id t now (redeem token_value expected) db le h =
    Yields-bind _ (exchange env service now token_value expected db) _ (λ r done. kept _ (
      Yields-of (λ (r : EnrollmentExchange × Db). Closed id now r.1)
        (exchange-used env service now token_value expected db (IsClosed id now)
          (λ token e _ _ device_id receipt.
            written id now (λ x. x.id == e.id) (used_row service now device_id receipt)
              db.enrollments (λ x. refl) (λ x. refl) (aged id t now db.enrollments le h)))
        done))
perform-Closed env service id t now (revoke enrollment_id) db le h =
    Yields-bind _ (revoke_unused service now enrollment_id db) _ (λ r done. kept _ (
      Yields-of (λ (r : EnrollmentStatus × Db). Closed id now r.1)
        (revoke_unused-expires service now enrollment_id db (IsClosed id now)
          (λ e _. expired id t now e db le h))
        done))
perform-Closed env service id t now (delete enrollment_id) db le h =
    Yields-bind _ (delete_unused service now enrollment_id db) _ (λ r done. kept _ (
      Yields-of (λ (r : EnrollmentStatus × Db). Closed id now r.1)
        (Yields-bind _ (find_enrollment enrollment_id db) _ (λ e _.
          Yields-ensure _ conflict (is_none e.used_at) _ (λ _.
            let gone = withdraw service.actor now e db in
            Yields-bind _
              (status_of service gone.0 now (mark_deleted service.actor now gone.0 gone.1)) _
              (λ shown _. kept _ (
                subst (IsClosed id now) (sym (mark_deleted-same service.actor now gone.0 gone.1))
                  (withdraw-Closed id t now service.actor e db le h))))))
        done))

run-Closed :
    (env : Env) (service : AgentEnrollmentService) (id : String) (t : Time) (db : Db)
    → Closed id t db
    → (t1 : Time) (db1 : Db) → Run env service t db t1 db1
    → Closed id t1 db1
run-Closed env service id t db h _ _ start = h
run-Closed env service id t db h _ _ (next {t1} {db1} now o r le done) =
    Yields-of (Closed id now)
      (perform-Closed env service id t1 now o db1 le (run-Closed env service id t db h t1 db1 r))
      done

-- Where one intent at most has the identifier of a token, and the token was exchanged, then after
-- any sequence of intents being created, exchanged, revoked and deleted the same token is refused
-- at every later time.
pub exchanged_once :
    (env : Env) (service : AgentEnrollmentService) (now : Time) (token_value : String)
    (expected again : Option String) (token : EnrollmentToken) (x : EnrollmentExchange)
    (t at : Time) (db db1 db2 : Db)
    → count (λ e. str_eq e.public_id token.identifier) db.enrollments ≤ 1
    → parse env "sbe1" token_value ≡ some token
    → exchange env service now token_value expected db ≡ ok (x, db1)
    → Run env service now db1 t db2
    → t ≤ at
    → exchange env service at token_value again db2 ≡ raise enrollment_rejected
exchanged_once env service now token_value expected again token x t at db db1 db2 unique parses done
      run le =
    closed-refused env service at token_value again db2 token parses (
      aged token.identifier t at db2.enrollments le (
        run-Closed env service token.identifier now db1
          (Yields-of (λ (r : EnrollmentExchange × Db). Closed token.identifier now r.1)
            (exchange-used env service now token_value expected db (IsClosed token.identifier now)
              (λ token1 e parses1 found device_id receipt.
                closing token.identifier now e (used_row service now device_id receipt)
                  db.enrollments unique
                  (subst
                    (λ z.
                      find? (λ (x : AgentEnrollment). str_eq x.public_id z.identifier)
                        db.enrollments
                      ≡ some e)
                    (some-injective _ _ (sym parses1 ∙ parses)) found)
                  (λ x. refl) (λ x. refl)))
            done)
          t db2 run))

-- Where one intent at most has the identifier of a token, and that intent was revoked, then after
-- any sequence of intents being created, exchanged, revoked and deleted the token is refused at
-- every later time.
pub revoked_never_exchanged :
    (env : Env) (service : AgentEnrollmentService) (now : Time) (token_value : String)
    (expected : Option String) (token : EnrollmentToken) (shown : EnrollmentStatus) (t at : Time)
    (db db1 db2 : Db)
    → count (λ e. str_eq e.public_id token.identifier) db.enrollments ≤ 1
    → parse env "sbe1" token_value ≡ some token
    → revoke_unused service now token.identifier db ≡ ok (shown, db1)
    → Run env service now db1 t db2
    → t ≤ at
    → exchange env service at token_value expected db2 ≡ raise enrollment_rejected
revoked_never_exchanged env service now token_value expected token shown t at db db1 db2 unique
      parses done run le =
    closed-refused env service at token_value expected db2 token parses (
      aged token.identifier t at db2.enrollments le (
        run-Closed env service token.identifier now db1
          (Yields-of (λ (r : EnrollmentStatus × Db). Closed token.identifier now r.1)
            (revoke_unused-expires service now token.identifier db (IsClosed token.identifier now)
              (λ e found.
                closing token.identifier now e (expire_at now) db.enrollments unique found
                  (λ x. refl) (λ x. ground arith)))
            done)
          t db2 run))
