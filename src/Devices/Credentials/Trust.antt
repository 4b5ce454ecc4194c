-- ===== src/Devices/Credentials/Trust.antt =====
-- Which tokens `authenticate_token` accepts.
use skybeat.Base.{
  ℕ, ◌≡◌, refl, String, Bool, true, false, ◌&&◌, Option, none, some, ◌==◌, find?, str_eq, arith,
}
use skybeat.Store.{Db, Env, Result, ok, raise, authentication_failed, ◌>>=◌, require, ensure}
use skybeat.Store.Rows.{Time, Device, DeviceCredential}
use skybeat.Devices.Credentials.{
  ParsedCredential, parse_credential, verify_token, is_live, authenticate_token,
}

-- A credential in the database that vouches for a token of a device at a time.
pub record IsVouched (env : Env) (now : Time) (token : String) (db : Db) (device : Device)
    : Type 0 where
  pub parsed : ParsedCredential
  pub credential : DeviceCredential
  pub parses : parse_credential env token ≡ some parsed
  pub stored :
      find?
        (λ c. str_eq c.credential_id parsed.credential_id && c.device_id == device.id)
        db.credentials
      ≡ some credential
  pub not_revoked : credential.revoked_at ≡ none
  pub live : is_live now credential ≡ true
  pub digest : str_eq (env.sha256_digest token) credential.token_digest ≡ true
  pub monitored : device.monitoring_enabled ≡ true
  pub known : (k : ℕ) × (find? (λ (d : Device). d.id == k) db.devices ≡ some device)

abbrev pub Trusts : Env → Time → String → Db → Result Device → Type 0
Trusts env now token db (raise e) = e ≡ authentication_failed
Trusts env now token db (ok device) = IsVouched env now token db device

module _ (env : Env) (now : Time) (token : String) (db : Db) where
  verified :
      (p : ParsedCredential) (d : Device) (c : DeviceCredential)
      → parse_credential env token ≡ some p
      → find? (λ x. str_eq x.credential_id p.credential_id && x.device_id == d.id) db.credentials
        ≡ some c
      → ((k : ℕ) × (find? (λ (x : Device). x.id == k) db.devices ≡ some d))
      → (b : Bool)
      → (d.monitoring_enabled && is_live now c && verify_token env token c.token_digest) ≡ b
      → Trusts env now token db (ensure authentication_failed b (ok d))
  unfolding verify_token
  verified p d c e f k false h = refl
  verified p d c e f k true h = record {
    parsed = p;
    credential = c;
    parses = e;
    stored = f;
    not_revoked = ground arith;
    live = ground arith;
    digest = ground arith;
    monitored = ground arith;
    known = k;
  }

  with_credential :
      (p : ParsedCredential) (d : Device)
      → parse_credential env token ≡ some p
      → ((k : ℕ) × (find? (λ (x : Device). x.id == k) db.devices ≡ some d))
      → (o : Option DeviceCredential)
      → find? (λ x. str_eq x.credential_id p.credential_id && x.device_id == d.id) db.credentials
        ≡ o
      → Trusts env now token db (
          require authentication_failed o >>= λ (c : DeviceCredential).
          ensure authentication_failed
            (d.monitoring_enabled && is_live now c && verify_token env token c.token_digest)
            (ok d))
  with_credential p d e k none f = refl
  with_credential p d e k (some c) f = verified p d c e f k _ refl

  with_device :
      (p : ParsedCredential) (k : ℕ)
      → parse_credential env token ≡ some p
      → (o : Option Device) → find? (λ (x : Device). x.id == k) db.devices ≡ o
      → Trusts env now token db (
          require authentication_failed o >>= λ (d : Device).
          require authentication_failed (
            find?
              (λ x. str_eq x.credential_id p.credential_id && x.device_id == d.id)
              db.credentials)
          >>= λ (c : DeviceCredential).
              ensure authentication_failed
                (d.monitoring_enabled && is_live now c && verify_token env token c.token_digest)
                (ok d))
  with_device p k e none f = refl
  with_device p k e (some d) f = with_credential p d e (k, f) _ refl

  with_first :
      (p : ParsedCredential)
      → parse_credential env token ≡ some p
      → (o : Option DeviceCredential)
      → Trusts env now token db (
          require authentication_failed o >>= λ (first : DeviceCredential).
          require authentication_failed (find? (λ (x : Device). x.id == first.device_id) db.devices)
          >>= λ (d : Device).
              require authentication_failed (
                find?
                  (λ x. str_eq x.credential_id p.credential_id && x.device_id == d.id)
                  db.credentials)
              >>= λ (c : DeviceCredential).
                  ensure authentication_failed
                    (d.monitoring_enabled && is_live now c && verify_token env token c.token_digest)
                    (ok d))
  with_first p e none = refl
  with_first p e (some first) = with_device p first.device_id e _ refl

  -- A token is refused with an authentication failure and nothing else, or the device that it is
  -- accepted for is a monitored device of the database, and a credential with the id that the token
  -- names is stored for that device, is neither revoked nor expired, and has the token's digest.
  pub authenticate_token-Trusts : Trusts env now token db (authenticate_token env now token db)
  unfolding authenticate_token
  authenticate_token-Trusts = by_parse (parse_credential env token) refl
    where
      by_parse :
          (o : Option ParsedCredential)
          → parse_credential env token ≡ o
          → Trusts env now token db (
              require authentication_failed o >>= λ (p : ParsedCredential).
              require authentication_failed
                (find? (λ c. str_eq c.credential_id p.credential_id) db.credentials)
              >>= λ (first : DeviceCredential).
                  require authentication_failed
                    (find? (λ (x : Device). x.id == first.device_id) db.devices)
                  >>= λ (d : Device).
                      require authentication_failed (
                        find?
                          (λ x. str_eq x.credential_id p.credential_id && x.device_id == d.id)
                          db.credentials)
                      >>= λ (c : DeviceCredential).
                          ensure authentication_failed
                            (d.monitoring_enabled
                              && is_live now c
                              && verify_token env token c.token_digest)
                            (ok d))
      by_parse none e = refl
      by_parse (some p) e = with_first p e _
