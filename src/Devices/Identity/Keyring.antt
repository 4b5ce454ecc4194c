-- ===== src/Devices/Identity/Keyring.antt =====
-- How many credentials of a device can be used at once.
use skybeat.Base.{
  ℕ, ◌+◌, ◌≤◌, ◌<◌, ◌≡◌, refl, sym, subst, String, Bool, true, false, ◌&&◌, List, [], ◌∷◌, Option,
  ◌==◌, ==_iff, str_eq, is_none, if◌then◌else◌, arith, All, All-map, All-append, All-find?,
  All-update_where, count, count-append, count-update-le, find?, length, length-select, select,
  update_where, leb, ltb,
}
use skybeat.Store.{Db, Env, Result, ok, identity_error, conflict, not_found, ◌>>=◌, require, ensure}
use skybeat.Store.Audit.{add_audit}
use skybeat.Store.Yields.{
  Yields, raised, kept, Yields-bind, Yields-ensure, Yields-require, Yields-of,
}
use skybeat.Store.Rows.{Time, hours, Device, DeviceCredential, credential_details}
use skybeat.Devices.Identity.{
  audit_device, GpuPolicy, canonical, lock_device, lock_project, label, filled_label,
}
use skybeat.Devices.Identity.Issue.{
  Instant, GeneratedCredential, Enrollment, expiry, enroll_device, new_device, is_active_credential,
  shorten, credential_row, generate_credential, add_credential, rotate_device, rotate_in_session,
  enroll_in_session, revoke_row, revoke,
}

-- At `since` and later no device has more than two credentials that are neither revoked nor
-- expired, and devices are numbered below the counter, also those that credentials name.
pub record IsKeyring (since : Time) (db : Db) : Type 0 where
  pub few : (k : ℕ) (t : Time) → since ≤ t → count (is_active_credential k t) db.credentials ≤ 2
  pub owned : All (λ c. c.device_id < db.next_device) db.credentials
  pub numbered : All (λ d. d.id < db.next_device) db.devices

-- A credential that is active later is active before, also when its life was shortened.
active_before :
    (k : ℕ) (now t : Time) (c : DeviceCredential)
    → now ≤ t
    → is_active_credential k t c ≡ true
    → is_active_credential k now c ≡ true
active_before k now t c le h = ground arith

active_before_shortened :
    (k : ℕ) (now t e : Time) (c : DeviceCredential)
    → now ≤ t
    → now < e
    → is_active_credential k t (shorten e c) ≡ true
    → is_active_credential k now c ≡ true
active_before_shortened k now t e c le lt h = ground arith

-- One new credential adds at most one, and to its own device only.
new_count :
    (k : ℕ) (t now : Time) (id device_id : ℕ) (g : GeneratedCredential) (e : Option Time)
    → count (is_active_credential k t) (credential_row id g device_id now e ∷ [])
      ≤ (if k == device_id then 1 else 0)
unfolding count
new_count k t now id device_id g e = ground (arith, ==_iff device_id k, ==_iff k device_id)

few_after :
    (k device_id n m : ℕ)
    → n ≤ 2
    → (k ≡ device_id → n < 2)
    → m ≤ (if k == device_id then 1 else 0)
    → n + m ≤ 2
few_after k device_id n m h few le = ground (arith, ==_iff k device_id)

none_of_owner :
    (k : ℕ) (t : Time) (cs : List DeviceCredential)
    → All (λ c. c.device_id < k) cs
    → count (is_active_credential k t) cs ≡ 0
unfolding count
none_of_owner k t [] h = refl
none_of_owner k t (c ∷ cs) h = ground (arith, h.0, ==_iff c.device_id k, none_of_owner k t cs h.1)

pub lock_device-numbered :
    (env : Env) (uuid : String) (db : Db)
    → All (λ d. d.id < db.next_device) db.devices
    → Yields (λ (d : Device). d.id < db.next_device) (lock_device env uuid db)
unfolding lock_device
lock_device-numbered env uuid db numbered = Yields-bind _ (canonical env uuid) _ (λ u _.
    Yields-require _ not_found (find? (λ (d : Device). str_eq d.device_uuid u) db.devices) (λ d e.
      All-find? (λ d. d.id < db.next_device) (λ (d : Device). str_eq d.device_uuid u) db.devices
        numbered e))

module _ (env : Env) (actor : String) (since now : Time) (later : since ≤ now) where
  rotate_device-IsKeyring :
      (overlap_hours : ℕ) (expires : Option Time) (device : Device) (db : Db)
      → 1 ≤ overlap_hours
      → device.id < db.next_device
      → count (is_active_credential device.id now) db.credentials < 2
      → IsKeyring since db
      → IsKeyring now (rotate_device env actor overlap_hours expires now device db).1
  unfolding rotate_device add_credential add_audit
  rotate_device-IsKeyring overlap_hours expires device db pos known few h = record {
    few = λ k t le. rw (count-append (is_active_credential k t) _ _) (
        few_after k device.id _ _ (omega (arith, shorter k t le, h.few k now later))
          (λ same. omega (
            arith,
            shorter k t le,
            subst (λ j. count (is_active_credential j now) db.credentials < 2) (sym same) few,
          ))
          (new_count k t now db.next_credential device.id (generate_credential env db.draws)
            expires));
    owned =
        All-append (λ c. c.device_id < db.next_device) _ _
          (All-update_where (λ c. c.device_id < db.next_device) (is_active_credential device.id now)
            (shorten overlap_end) (λ c _ b. b) db.credentials h.owned)
          (known, tt);
    numbered = h.numbered;
  }
    where
      overlap_end : Time
      overlap_end = now + hours overlap_hours

      shorter :
          (k : ℕ) (t : Time)
          → now ≤ t
          → count (is_active_credential k t) (
              update_where
                (is_active_credential device.id now)
                (shorten overlap_end)
                db.credentials)
            ≤ count (is_active_credential k now) db.credentials
      shorter k t le =
          count-update-le (is_active_credential k t) (is_active_credential k now)
            (is_active_credential device.id now) (shorten overlap_end)
            (λ c _ e. active_before_shortened k now t overlap_end c le (omega (arith, pos)) e)
            (λ c e. active_before k now t c le e) db.credentials

  pub rotate_in_session-Keeps :
      (device_uuid : String) (overlap_hours : ℕ) (expires_at : Option Instant) (db : Db)
      → IsKeyring since db
      → Yields
          (λ (x : GeneratedCredential × Db). IsKeyring now x.1)
          (rotate_in_session env actor device_uuid overlap_hours expires_at now db)
  unfolding rotate_in_session lock_device
  rotate_in_session-Keeps device_uuid overlap_hours expires_at db h =
      Yields-ensure _ identity_error (leb 1 overlap_hours && leb overlap_hours 24) _ (λ pos.
        Yields-bind _ (lock_device env device_uuid db) _ (λ device found.
          Yields-bind _ (expiry expires_at now) _ (λ expires _.
            Yields-ensure _ conflict
              (ltb (length (select (is_active_credential device.id now) db.credentials)) 2) _
              (λ few. kept _ (
                rotate_device-IsKeyring overlap_hours expires device db (ground (arith, pos))
                  (Yields-of (λ (d : Device). d.id < db.next_device)
                    (lock_device-numbered env device_uuid db h.numbered) found)
                  (ground
                    (arith, few, length-select (is_active_credential device.id now) db.credentials))
                  h)))))

  enroll_in_session-Keeps :
      (project_uuid name : String) (description : Option String) (policy : GpuPolicy)
      (expires_at : Option Instant) (db : Db)
      → IsKeyring since db
      → Yields
          (λ (x : Enrollment × Db). IsKeyring now x.1)
          (enroll_in_session env actor project_uuid name description policy expires_at now db)
  unfolding enroll_in_session enroll_device new_device add_credential add_audit
  enroll_in_session-Keeps project_uuid name description policy expires_at db h =
      Yields-bind _ (label env 128 name) _ (λ name1 _.
        Yields-bind _ (filled_label env description) _ (λ description1 _.
          Yields-bind _ (lock_project env project_uuid db) _ (λ project _.
            Yields-bind _ (ensure conflict project.is_active (expiry expires_at now)) _
              (λ expires _. kept _ (record {
                few = λ k t le. rw (count-append (is_active_credential k t) _ _) (
                    few_after k db.next_device _ _
                      (omega (arith, h.few k t (omega (arith, later, le))))
                      (λ same. omega (
                        arith,
                        none_of_owner k t db.credentials (
                            subst (λ j. All (λ c. c.device_id < j) db.credentials) (sym same)
                              h.owned),
                      ))
                      (new_count k t now db.next_credential db.next_device
                        (generate_credential env (db.draws + 1)) expires));
                owned =
                    All-append (λ c. c.device_id < db.next_device + 1) _ _
                      (All-map (λ c. c.device_id < db.next_device)
                        (λ c. c.device_id < db.next_device + 1) (λ c b. omega arith) db.credentials
                        h.owned)
                      (omega arith, tt);
                numbered =
                    All-append (λ d. d.id < db.next_device + 1) _ _
                      (All-map (λ d. d.id < db.next_device) (λ d. d.id < db.next_device + 1)
                        (λ d b. omega arith) db.devices h.numbered)
                      (omega arith, tt);
              })))))

  pub revoke-Keeps :
      (device_uuid credential_id : String) (db : Db)
      → IsKeyring since db
      → Yields (IsKeyring now) (revoke env actor now device_uuid credential_id db)
  unfolding revoke add_audit
  revoke-Keeps device_uuid credential_id db h =
      Yields-bind _ (lock_device env device_uuid db) _ (λ device _.
        Yields-bind _ (canonical env credential_id) _ (λ uuid _.
          Yields-bind _
            (require not_found
              (find? (λ c. str_eq c.credential_id uuid && c.device_id == device.id) db.credentials))
            _ (λ credential _. kept _ (by_test (is_none credential.revoked_at) device credential))))
    where
      aged : IsKeyring now db
      aged = record {
        few = λ k t le. h.few k t (omega (arith, later, le));
        owned = h.owned;
        numbered = h.numbered;
      }

      by_test :
          (b : Bool) (device : Device) (c : DeviceCredential)
          → IsKeyring now (
              if b
              then audit_device actor "credential.revoked" device now
                  (credential_details c.credential_id)
                  (record db {
                    credentials = update_where (λ x. x.id == c.id) (revoke_row now) db.credentials;
                  })
              else db)
      by_test false device c = aged
      by_test true device c = record {
        few = λ k t le. omega (
          arith,
          aged.few k t le,
          count-update-le (is_active_credential k t) (is_active_credential k t) (λ x. x.id == c.id)
              (revoke_row now) (λ x _ e. ground (arith, e)) (λ x e. e) db.credentials,
        );
        owned =
            All-update_where (λ x. x.device_id < db.next_device) (λ x. x.id == c.id)
              (revoke_row now) (λ x _ b. b) db.credentials h.owned;
        numbered = h.numbered;
      }

-- The operations that write credentials, with their arguments.
pub data Operation : Type 0 where
  enrolling : String → String → Option String → GpuPolicy → Option Instant → Operation
  rotating : String → ℕ → Option Instant → Operation
  revoking : String → String → Operation

unfoldable pub perform : Env → String → Time → Operation → Db → Result Db
perform env actor now (enrolling project_uuid name description policy expires_at) db = do
  (e, db1) ← enroll_in_session env actor project_uuid name description policy expires_at now db
  ok db1
perform env actor now (rotating device_uuid overlap_hours expires_at) db = do
  (g, db1) ← rotate_in_session env actor device_uuid overlap_hours expires_at now db
  ok db1
perform env actor now (revoking device_uuid credential_id) db =
    revoke env actor now device_uuid credential_id db

without_value :
    {A : Type 0} (P : Db → Type 0) {r : Result (A × Db)}
    → Yields (λ (x : A × Db). P x.1) r
    → Yields P (r >>= λ (x : A × Db). ok x.1)
without_value P (raised e) = raised e
without_value P (kept a p) = kept _ p

-- Where no device has more than two credentials that are neither revoked nor expired, and devices
-- are numbered below the counter, that stays so after a device is enrolled, or credentials are
-- rotated or revoked, at the time of the operation and at any later time; an operation that would
-- break it is refused.
pub perform-IsKeyring :
    (env : Env) (actor : String) (since now : Time) (o : Operation) (db : Db)
    → since ≤ now
    → IsKeyring since db
    → Yields (IsKeyring now) (perform env actor now o db)
unfolding perform
perform-IsKeyring env actor since now (enrolling project_uuid name description policy expires_at) db
      later h =
    without_value (IsKeyring now) (
      enroll_in_session-Keeps env actor since now later project_uuid name description policy
        expires_at db h)
perform-IsKeyring env actor since now (rotating device_uuid overlap_hours expires_at) db later h =
    without_value (IsKeyring now)
      (rotate_in_session-Keeps env actor since now later device_uuid overlap_hours expires_at db h)
perform-IsKeyring env actor since now (revoking device_uuid credential_id) db later h =
    revoke-Keeps env actor since now later device_uuid credential_id db h
