-- ===== src/Devices/Identity/Access.antt =====
-- What enrolling and revoking do to the tokens that `authenticate_token` accepts.
use mathlib.Core.Option.{some-injective}
use skybeat.Base.{
  ℕ, ◌+◌, ◌≤◌, ◌<◌, ◌≡◌, refl, sym, ◌∙◌, ap, subst, String, Bool, true, false, not, ◌&&◌, List, [],
  ◌∷◌, Option, none, some, leb, any-false, any-false_and, find?-appended, ◌==◌, ==_iff, ==_refl,
  str_eq, eq_refl, is_none, if◌then◌else◌, arith, All, All-find?, All-map, only_match, any, count,
  find?, find?-holds, update_where,
}
use skybeat.Store.{
  Db, Env, Result, ok, raise, authentication_failed, conflict, not_found, require, ensure,
}
use skybeat.Store.Audit.{add_audit}
use skybeat.Store.Yields.{Yields, kept, Yields-bind, Yields-of, require-found, ensure-passed}
use skybeat.Store.Rows.{Time, Project, Device, DeviceCredential, credential_details}
use skybeat.Devices.Credentials.{
  ParsedCredential, parse_credential, is_live, verify_token, authenticate_token,
}
use skybeat.Devices.Credentials.Trust.{Trusts, authenticate_token-Trusts}
use skybeat.Devices.Identity.{
  lock_device, lock_project, audit_device, GpuPolicy, label, filled_label,
}
use skybeat.Devices.Identity.Issue.{
  revoke_row, revoke, Instant, Enrollment, expiry, enroll_device, new_device, generate_credential,
  add_credential, credential_row, enroll_in_session,
}
use skybeat.Devices.Identity.Tokens.{IsRandomText, parse_credential-generate}

-- The unique key on the ids of credentials.
abbrev pub HasUniqueIds : Db → Type 0
HasUniqueIds db = (id : String) → count (λ c. str_eq c.credential_id id) db.credentials ≤ 1

-- Every credential with that id is revoked.
abbrev pub IsRevoked : String → Db → Type 0
IsRevoked id db =
    All (λ c. str_eq c.credential_id id ≡ true → is_none c.revoked_at ≡ false) db.credentials

revoked-All :
    (id : String) (k : ℕ) (now : Time) (cs : List DeviceCredential)
    → All (λ x. str_eq x.credential_id id ≡ true → x.id ≡ k) cs
    → All
        (λ x. str_eq x.credential_id id ≡ true → is_none x.revoked_at ≡ false)
        (update_where (λ x. x.id == k) (revoke_row now) cs)
unfolding update_where
revoked-All id k now [] h = tt
revoked-All id k now (c ∷ cs) h = (ground (arith, h.0, ==_iff c.id k), revoked-All id k now cs h.1)

already-All :
    (id : String) (c : DeviceCredential) (cs : List DeviceCredential)
    → is_none c.revoked_at ≡ false
    → All (λ x. str_eq x.credential_id id ≡ true → x ≡ c) cs
    → All (λ x. str_eq x.credential_id id ≡ true → is_none x.revoked_at ≡ false) cs
already-All id c cs off h =
    All-map (λ x. str_eq x.credential_id id ≡ true → x ≡ c)
      (λ x. str_eq x.credential_id id ≡ true → is_none x.revoked_at ≡ false)
      (λ x same e. subst (λ z. is_none z.revoked_at ≡ false) (sym (same e)) off) cs h

-- After a credential was revoked, every credential of its id is revoked.
revoke-IsRevoked :
    (env : Env) (actor : String) (now : Time) (device_uuid credential_id uuid : String) (db : Db)
    → HasUniqueIds db
    → env.parse_uuid credential_id ≡ some uuid
    → Yields (IsRevoked uuid) (revoke env actor now device_uuid credential_id db)
unfolding revoke add_audit
revoke-IsRevoked env actor now device_uuid credential_id uuid db unique e =
    Yields-bind _ (lock_device env device_uuid db) _ (λ device _. rw e (
      Yields-bind _
        (require not_found
          (find? (λ c. str_eq c.credential_id uuid && c.device_id == device.id) db.credentials))
        _
        (λ c found. kept _ (
          by_test device c (is_none c.revoked_at) refl (
            only_match (λ x. str_eq x.credential_id uuid)
              (λ x. str_eq x.credential_id uuid && x.device_id == device.id)
              (λ x both. ground (arith, both)) db.credentials (unique uuid)
              (require-found not_found _ found))))))
  where
    by_test :
        (device : Device) (c : DeviceCredential) (b : Bool)
        → is_none c.revoked_at ≡ b
        → All (λ x. str_eq x.credential_id uuid ≡ true → x ≡ c) db.credentials
        → IsRevoked uuid (
            if b
            then audit_device actor "credential.revoked" device now
                (credential_details c.credential_id)
                (record db {
                  credentials = update_where (λ x. x.id == c.id) (revoke_row now) db.credentials;
                })
            else db)
    by_test device c true h only = revoked-All uuid c.id now db.credentials (
        All-map (λ x. str_eq x.credential_id uuid ≡ true → x ≡ c)
          (λ x. str_eq x.credential_id uuid ≡ true → x.id ≡ c.id)
          (λ x same k. ap (λ z. z.id) (same k)) db.credentials only)
    by_test device c false h only = already-All uuid c db.credentials h only

-- A token that names a revoked credential is refused.
revoked_is_refused :
    (env : Env) (at : Time) (token : String) (p : ParsedCredential) (db : Db)
    → parse_credential env token ≡ some p
    → IsRevoked p.credential_id db
    → authenticate_token env at token db ≡ raise authentication_failed
revoked_is_refused env at token p db parses gone =
    by_result (authenticate_token env at token db) (authenticate_token-Trusts env at token db)
  where
    by_result : (r : Result Device) → Trusts env at token db r → r ≡ raise authentication_failed
    by_result (raise e) h = ap raise h
    by_result (ok d) v =
        let same : v.parsed ≡ p = some-injective _ _ (sym v.parses ∙ parses) in
        let holds =
          find?-holds (λ c. str_eq c.credential_id v.parsed.credential_id && c.device_id == d.id)
            db.credentials v.stored in
        let off : is_none v.credential.revoked_at ≡ false =
          All-find?
            (λ c. str_eq c.credential_id p.credential_id ≡ true → is_none c.revoked_at ≡ false)
            (λ c. str_eq c.credential_id v.parsed.credential_id && c.device_id == d.id)
            db.credentials gone v.stored
            (subst (λ z. str_eq v.credential.credential_id z.credential_id ≡ true) same
              (ground (arith, holds))) in
        absurd (ground (arith, off, v.not_revoked))

-- Where one credential at most has an id, and the credential of that id is revoked, every token
-- that names it is refused, at any time.
pub revoke_then_refused :
    (env : Env) (actor : String) (now at : Time) (device_uuid credential_id token : String)
    (p : ParsedCredential) (db db1 : Db)
    → HasUniqueIds db
    → env.parse_uuid credential_id ≡ some p.credential_id
    → parse_credential env token ≡ some p
    → revoke env actor now device_uuid credential_id db ≡ ok db1
    → authenticate_token env at token db1 ≡ raise authentication_failed
revoke_then_refused env actor now at device_uuid credential_id token p db db1 unique e parses done =
    revoked_is_refused env at token p db1 parses (
      Yields-of (IsRevoked p.credential_id)
        (revoke-IsRevoked env actor now device_uuid credential_id p.credential_id db unique e) done)

-- A token whose credential is stored for a monitored device, and good at that time.
known_token :
    (env : Env) (at : Time) (token : String) (db : Db) (p : ParsedCredential) (c : DeviceCredential)
    (d : Device)
    → parse_credential env token ≡ some p
    → find? (λ x. str_eq x.credential_id p.credential_id) db.credentials ≡ some c
    → find? (λ (x : Device). x.id == c.device_id) db.devices ≡ some d
    → find? (λ x. str_eq x.credential_id p.credential_id && x.device_id == d.id) db.credentials
      ≡ some c
    → (d.monitoring_enabled && is_live at c && str_eq (env.sha256_digest token) c.token_digest)
      ≡ true
    → authenticate_token env at token db ≡ ok d
unfolding authenticate_token verify_token
known_token env at token db p c d e1 e2 e3 e4 e5 =
    rw (e1, e2, e3, e4) (ap (λ b. ensure authentication_failed b (ok d)) e5)

-- A credential is not expired at a time.
abbrev pub is_before : Time → Option Time → Bool
is_before at none = true
is_before at (some t) = not (leb t at)

-- A device that was just enrolled is authenticated by the token that its enrolment returned, at
-- any time before the credential expires. The device ids are below the counter, no credential has
-- the id that is drawn for the new one, and the random texts are as documented: the printed token
-- parses, and names the stored credential, the digest of which it has.
pub enroll_then_authenticate :
    (env : Env) (actor project_uuid name : String) (description : Option String)
    (policy : GpuPolicy) (expires_at : Option Instant) (expires : Option Time) (now at : Time)
    (db db1 : Db) (e : Enrollment)
    → IsRandomText env
    → All (λ d. d.id < db.next_device) db.devices
    → any (λ c. str_eq c.credential_id (env.uuid4 (db.draws + 1))) db.credentials ≡ false
    → expiry expires_at now ≡ ok expires
    → is_before at expires ≡ true
    → enroll_in_session env actor project_uuid name description policy expires_at now db
      ≡ ok (e, db1)
    → authenticate_token env at e.credential.token db1 ≡ ok e.device
unfolding enroll_in_session enroll_device new_device add_credential add_audit generate_credential
    verify_token
enroll_then_authenticate env actor project_uuid name description policy expires_at expires now at db
      db1 e random numbered fresh x alive done =
    Yields-of Works accepted done
  where
    Works : Enrollment × Db → Type 0
    Works r = authenticate_token env at r.0.credential.token r.1 ≡ ok r.0.device

    p : ParsedCredential
    p = record {
      credential_id = env.uuid4 (db.draws + 1);
      secret = env.token_urlsafe (db.draws + 1 + 1);
    }

    until_is :
        (b : Bool) (until : Option Time)
        → ensure conflict b (expiry expires_at now) ≡ ok until
        → until ≡ expires
    until_is b until passed =
        ground (arith, x, ensure-passed conflict b (expiry expires_at now) passed)

    still :
        (until : Option Time)
        → until ≡ expires
        → is_live at (
            credential_row db.next_credential
              (generate_credential env (db.draws + 1))
              db.next_device
              now
              until)
          ≡ true
    still none same = refl
    still (some t) same = subst (λ o. is_before at o ≡ true) (sym same) alive

    works :
        (a : String) (b : Option String) (project : Project) (until : Option Time)
        → until ≡ expires
        → Works (enroll_device env actor a b project policy until now db)
    works a b project until same =
        known_token env at _ _ p
          (credential_row db.next_credential (generate_credential env (db.draws + 1)) db.next_device
            now until)
          (new_device db.next_device (env.uuid4 db.draws) project a b policy now)
          (parse_credential-generate env (db.draws + 1) random)
          (find?-appended (λ c. str_eq c.credential_id p.credential_id) _ db.credentials fresh
            (eq_refl p.credential_id))
          (find?-appended (λ (d : Device). d.id == db.next_device) _ db.devices
            (any-false (λ (d : Device). d.id == db.next_device) db.devices
              (All-map (λ d. d.id < db.next_device) (λ d. (d.id == db.next_device) ≡ false)
                (λ d h. ground (arith, h, ==_iff d.id db.next_device)) db.devices numbered))
            (==_refl db.next_device))
          (find?-appended
            (λ c. str_eq c.credential_id p.credential_id && c.device_id == db.next_device) _
            db.credentials
            (any-false_and (λ c. str_eq c.credential_id p.credential_id)
              (λ c. c.device_id == db.next_device) db.credentials fresh)
            (ground (arith, eq_refl p.credential_id, ==_refl db.next_device)))
          (ground (
            arith,
            still until same,
            eq_refl (env.sha256_digest (generate_credential env (db.draws + 1)).token),
          ))

    accepted :
        Yields Works
          (enroll_in_session env actor project_uuid name description policy expires_at now db)
    accepted = Yields-bind _ (label env 128 name) _ (λ name1 _.
        Yields-bind _ (filled_label env description) _ (λ description1 _.
          Yields-bind _ (lock_project env project_uuid db) _ (λ project _.
            Yields-bind _ (ensure conflict project.is_active (expiry expires_at now)) _
              (λ until passed. kept _ (
                works name1 description1 project until
                  (until_is project.is_active until passed))))))
