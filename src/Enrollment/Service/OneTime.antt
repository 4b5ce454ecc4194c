-- ===== src/Enrollment/Service/OneTime.antt =====
-- An enrolment token is exchanged once at most, and not at all once it is revoked.
use skybeat.Base.{
  ℕ, ◌≤◌, ◌≡◌, refl, sym, ◌∙◌, ap, subst, String, Bool, true, false, ◌&&◌, ◌||◌, List, [], Option,
  none, some, leb, ltb, ◌==◌, ==_refl, is_none, is_some, str_eq, arith, find?, find?-holds, any,
  any-update_where, any-find?, count, only_match, All, All-map, All-find?, All-update_where,
  All-update_where-covered, update_where,
}
use skybeat.Store.{
  Db, Env, ok, raise, enrollment_rejected, not_found, conflict, contract_violated, identity_error,
  ◌>>=◌, require, ensure,
}
use skybeat.Store.Audit.{add_audit}
use skybeat.Store.Kinds.{new, replace}
use skybeat.Store.Rows.{Time, Project, Device, AgentEnrollment}
use skybeat.Store.Yields.{
  Yields, kept, Yields-bind, Yields-ensure, Yields-of, require-found, OnlyRaises, bind-refused,
  ensure-refused,
}
use skybeat.Devices.Identity.{valid_policy, label, filled_label, lock_project, lock_device}
use skybeat.Devices.Identity.Issue.{
  GeneratedCredential, expiry, enroll_in_session, enroll_device, rotate_in_session, rotate_device,
  add_credential, Enrollment,
}
use skybeat.Enrollment.Token.{EnrollmentToken, generate, parse}
use skybeat.Enrollment.Service.{
  AgentEnrollmentService, EnrollmentExchange, audit_enrollment, locked_enrollment, is_expected,
  issue_new, issue_replacement, issue, used_row, exchange_row, exchange,
}

-- Enrolment creates and rotation changes devices and credentials, and no enrolment intent.
enroll_in_session-same :
    (env : Env) (actor project name : String) (description : Option String) (now : Time)
    (monitoring : Bool) (min_count : ℕ) (db : Db)
    → Yields
        (λ (r : Enrollment × Db). r.1.enrollments ≡ db.enrollments)
        (enroll_in_session env actor project name description
          (record { monitoring_enabled = monitoring; min_count = min_count; uuids = [] })
          none
          now
          db)
unfolding enroll_in_session enroll_device add_credential add_audit
enroll_in_session-same env actor project name description now monitoring min_count db =
    Yields-bind _ (label env 128 name) _ (λ _ _.
      Yields-bind _ (filled_label env description) _ (λ _ _.
        Yields-bind _ (lock_project env project db) _ (λ p _.
          Yields-bind _ (ensure conflict p.is_active (expiry none now)) _ (λ _ _. kept _ refl))))

rotate_in_session-same :
    (env : Env) (actor uuid : String) (now : Time) (db : Db)
    → Yields
        (λ (r : GeneratedCredential × Db). r.1.enrollments ≡ db.enrollments)
        (rotate_in_session env actor uuid 1 none now db)
unfolding rotate_in_session rotate_device add_credential add_audit
rotate_in_session-same env actor uuid now db =
    Yields-bind _ (lock_device env uuid db) _ (λ device _.
      Yields-ensure _ conflict _ (ok (rotate_device env actor 1 none now device db))
        (λ _. kept _ refl))

abbrev Same : Db → (Device × GeneratedCredential) × Db → Type 0
Same db r = r.1.enrollments ≡ db.enrollments

issue_new-Same :
    (env : Env) (actor : String) (now : Time) (e : AgentEnrollment) (db : Db)
    → Yields (Same db) (issue_new env actor now e db)
unfolding issue_new
issue_new-Same env actor now e db =
    Yields-bind _ (require contract_violated e.project_id) _ (λ project_id _.
      Yields-bind _ (require contract_violated e.device_name) _ (λ name _.
        Yields-bind _ (require contract_violated e.gpu_monitoring_enabled) _ (λ monitoring _.
          Yields-bind _ (require contract_violated e.expected_gpu_min_count) _ (λ min_count _.
            Yields-bind _
              (require not_found (find? (λ (p : Project). p.id == project_id) db.projects)) _
              (λ project _.
                Yields-ensure _ identity_error
                  (valid_policy
                    (record { monitoring_enabled = monitoring; min_count = min_count; uuids = [] }))
                  _
                  (λ _.
                    Yields-bind _
                      (enroll_in_session env actor project.public_id name e.description
                        (record {
                          monitoring_enabled = monitoring;
                          min_count = min_count;
                          uuids = [];
                        })
                        none now db)
                      _
                      (λ r done. kept _ (
                        Yields-of (λ (r : Enrollment × Db). r.1.enrollments ≡ db.enrollments)
                          (enroll_in_session-same env actor project.public_id name e.description now
                            monitoring min_count db)
                          done))))))))

issue_replacement-Same :
    (env : Env) (actor : String) (now : Time) (e : AgentEnrollment) (db : Db)
    → Yields (Same db) (issue_replacement env actor now e db)
unfolding issue_replacement
issue_replacement-Same env actor now e db =
    Yields-bind _ (require contract_violated e.replacement_device_id) _ (λ id _.
      Yields-bind _ (require not_found (find? (λ (d : Device). d.id == id) db.devices)) _
        (λ device _.
          Yields-bind _ (rotate_in_session env actor device.device_uuid 1 none now db) _ (λ r done.
            kept _ (
              Yields-of (λ (r : GeneratedCredential × Db). r.1.enrollments ≡ db.enrollments)
                (rotate_in_session-same env actor device.device_uuid now db) done))))

issue-Same :
    (env : Env) (actor : String) (now : Time) (e : AgentEnrollment) (db : Db)
    → Yields (Same db) (issue env actor now e db)
unfolding issue
issue-Same env actor now e db =
    elim e.mode
      as (λ m. Yields (Same db) (elim m [
        | new ↦ issue_new env actor now e db
        | replace ↦ issue_replacement env actor now e db
      ])) [
        | new ↦ issue_new-Same env actor now e db
        | replace ↦ issue_replacement-Same env actor now e db
      ]

-- Used, or expired at a time.
abbrev pub is_closed : Time → AgentEnrollment → Bool
is_closed t e = is_some e.used_at || leb e.expires_at t

-- There is an intent with the identifier, and at that time each is used or has expired.
pub record IsClosed (id : String) (t : Time) (es : List AgentEnrollment) : Type 0 where
  pub present : any (λ e. str_eq e.public_id id) es ≡ true
  pub closed : All (λ e. str_eq e.public_id id ≡ true → is_closed t e ≡ true) es

pub aged :
    (id : String) (t now : Time) (es : List AgentEnrollment)
    → t ≤ now
    → IsClosed id t es
    → IsClosed id now es
aged id t now es le h = record {
  present = h.present;
  closed =
      All-map (λ e. str_eq e.public_id id ≡ true → is_closed t e ≡ true) _
        (λ e was same. older e (was same)) es h.closed;
}
  where
    older : (e : AgentEnrollment) → is_closed t e ≡ true → is_closed now e ≡ true
    older e c = ground (arith, c)

-- A write to some rows that keeps their identifiers and leaves them closed.
pub written :
    (id : String) (t : Time) (r : AgentEnrollment → Bool) (f : AgentEnrollment → AgentEnrollment)
    (es : List AgentEnrollment)
    → ((x : AgentEnrollment) → (f x).public_id ≡ x.public_id)
    → ((x : AgentEnrollment) → is_closed t (f x) ≡ true)
    → IsClosed id t es
    → IsClosed id t (update_where r f es)
written id t r f es same good h = record {
  present =
      any-update_where (λ e. str_eq e.public_id id) r f (λ x. ap (λ n. str_eq n id) (same x)) es
      ∙ h.present;
  closed =
      All-update_where (λ e. str_eq e.public_id id ≡ true → is_closed t e ≡ true) r f
        (λ x _ _ _. good x) es h.closed;
}

-- The write to the one row with an identifier.
pub closing :
    (id : String) (t : Time) (e : AgentEnrollment) (f : AgentEnrollment → AgentEnrollment)
    (es : List AgentEnrollment)
    → count (λ x. str_eq x.public_id id) es ≤ 1
    → find? (λ x. str_eq x.public_id id) es ≡ some e
    → ((x : AgentEnrollment) → (f x).public_id ≡ x.public_id)
    → ((x : AgentEnrollment) → is_closed t (f x) ≡ true)
    → IsClosed id t (update_where (λ x. x.id == e.id) f es)
closing id t e f es unique found same good = record {
  present =
      any-update_where (λ e. str_eq e.public_id id) (λ x. x.id == e.id) f
        (λ x. ap (λ n. str_eq n id) (same x)) es
      ∙ any-find? (λ x. str_eq x.public_id id) es found;
  closed =
      All-update_where-covered (λ x. str_eq x.public_id id) (λ x. x.id == e.id) f
        (λ x. is_closed t x ≡ true) es
        (All-map (λ x. str_eq x.public_id id ≡ true → x ≡ e)
          (λ x. str_eq x.public_id id ≡ true → (x.id == e.id) ≡ true)
          (λ x only hit. subst (λ z. (z.id == e.id) ≡ true) (sym (only hit)) (==_refl e.id)) es
          (only_match (λ x. str_eq x.public_id id) (λ x. str_eq x.public_id id) (λ x h. h) es unique
            found))
        good;
}

-- What an exchange does to the intents: the row is marked as used.
pub exchange_row-used :
    (env : Env) (service : AgentEnrollmentService) (now : Time) (e : AgentEnrollment) (db : Db)
    (P : List AgentEnrollment → Type 0)
    → ((device_id : ℕ) (receipt : EnrollmentToken)
        → P (
            update_where
              (λ x. x.id == e.id)
              (used_row service now device_id receipt)
              db.enrollments))
    → Yields
        (λ (r : EnrollmentExchange × Db). P r.1.enrollments)
        (exchange_row env service now e db)
unfolding exchange_row audit_enrollment add_audit
exchange_row-used env service now e db P good =
    Yields-bind _ (generate env "sbv1" (some e.public_id) db.draws) _ (λ receipt _.
      let drawn : Db = record db { draws = receipt.1 } in
      Yields-bind _ (issue env service.actor now e drawn) _ (λ issued done. kept _ (
        subst
          (λ es.
            P (update_where (λ x. x.id == e.id) (used_row service now issued.0.0.id receipt.0) es))
          (sym (Yields-of (Same drawn) (issue-Same env service.actor now e drawn) done))
          (good issued.0.0.id receipt.0))))

locked_enrollment-found :
    (token : EnrollmentToken) (db : Db) {e : AgentEnrollment}
    → locked_enrollment token db ≡ ok e
    → find? (λ (x : AgentEnrollment). str_eq x.public_id token.identifier) db.enrollments ≡ some e
unfolding locked_enrollment
locked_enrollment-found token db {e} done =
    Yields-of
      (λ z.
        find? (λ (x : AgentEnrollment). str_eq x.public_id token.identifier) db.enrollments
        ≡ some z)
      (Yields-bind _
        (require enrollment_rejected
          (find? (λ (x : AgentEnrollment). str_eq x.public_id token.identifier) db.enrollments))
        _
        (λ z found.
          Yields-ensure _ enrollment_rejected (str_eq z.enrollment_digest token.secret_digest)
            (ok z) (λ _. kept z (require-found enrollment_rejected _ found))))
      done

locked_enrollment-raises :
    (token : EnrollmentToken) (db : Db)
    → OnlyRaises enrollment_rejected (locked_enrollment token db)
unfolding locked_enrollment
locked_enrollment-raises token db =
    by_row (find? (λ (x : AgentEnrollment). str_eq x.public_id token.identifier) db.enrollments)
  where
    by_test :
        (b : Bool) (e : AgentEnrollment)
        → OnlyRaises enrollment_rejected (ensure enrollment_rejected b (ok e))
    by_test true e = tt
    by_test false e = refl

    by_row :
        (o : Option AgentEnrollment)
        → OnlyRaises enrollment_rejected (
            require enrollment_rejected o >>= (λ e.
              ensure enrollment_rejected (str_eq e.enrollment_digest token.secret_digest) (ok e)))
    by_row none = refl
    by_row (some e) = by_test (str_eq e.enrollment_digest token.secret_digest) e

pub exchange-used :
    (env : Env) (service : AgentEnrollmentService) (now : Time) (token_value : String)
    (expected : Option String) (db : Db) (P : List AgentEnrollment → Type 0)
    → ((token : EnrollmentToken) (e : AgentEnrollment)
        → parse env "sbe1" token_value ≡ some token
        → find? (λ (x : AgentEnrollment). str_eq x.public_id token.identifier) db.enrollments
          ≡ some e
        → (device_id : ℕ) (receipt : EnrollmentToken)
        → P (
            update_where
              (λ x. x.id == e.id)
              (used_row service now device_id receipt)
              db.enrollments))
    → Yields
        (λ (r : EnrollmentExchange × Db). P r.1.enrollments)
        (exchange env service now token_value expected db)
unfolding exchange
exchange-used env service now token_value expected db P good =
    Yields-bind _ (require enrollment_rejected (parse env "sbe1" token_value)) _ (λ token parses.
      Yields-bind _ (locked_enrollment token db) _ (λ e found.
        Yields-ensure _ enrollment_rejected (is_expected expected e db) _ (λ _.
          Yields-ensure _ enrollment_rejected (is_none e.used_at && ltb now e.expires_at) _ (λ _.
            exchange_row-used env service now e db P (
              good token e (require-found enrollment_rejected _ parses)
                (locked_enrollment-found token db found))))))

-- A closed intent is not exchanged.
pub closed-refused :
    (env : Env) (service : AgentEnrollmentService) (now : Time) (token_value : String)
    (expected : Option String) (db : Db) (token : EnrollmentToken)
    → parse env "sbe1" token_value ≡ some token
    → IsClosed token.identifier now db.enrollments
    → exchange env service now token_value expected db ≡ raise enrollment_rejected
unfolding exchange
closed-refused env service now token_value expected db token parses h = rw parses (
    bind-refused enrollment_rejected (locked_enrollment token db) _
      (locked_enrollment-raises token db)
      (λ e found. ensure-refused enrollment_rejected (is_expected expected e db) _ (λ _.
        ensure-refused enrollment_rejected (is_none e.used_at && ltb now e.expires_at) _
          (λ usable. absurd (impossible e (locked_enrollment-found token db found) usable)))))
  where
    impossible :
        (e : AgentEnrollment)
        → find? (λ (x : AgentEnrollment). str_eq x.public_id token.identifier) db.enrollments
          ≡ some e
        → (is_none e.used_at && ltb now e.expires_at) ≡ true
        → ⊥
    impossible e found usable =
        let shut : is_closed now e ≡ true =
          All-find? (λ x. str_eq x.public_id token.identifier ≡ true → is_closed now x ≡ true)
            (λ x. str_eq x.public_id token.identifier) db.enrollments h.closed found
            (find?-holds (λ x. str_eq x.public_id token.identifier) db.enrollments found) in
        ground (arith, shut, usable)
