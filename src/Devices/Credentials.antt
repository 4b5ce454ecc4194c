-- ===== src/Devices/Credentials.antt =====
-- `parse_credential` and `verify_token` of server/app/devices/credentials.py, and
-- `authenticate_token` of server/app/devices/service.py.
pub mod Trust
use Prim.Native.Char.{Char, code}
use skybeat.Base.{
  ℕ, ◌+◌, String, Bool, true, not, ◌&&◌, List, [], ◌∷◌, Option, none, some, leb, ◌==◌,
  if◌then◌else◌, find?, is_none, is_some, str_eq,
}
use skybeat.Store.{Db, Env, Result, ok, authentication_failed, ◌>>=◌, require, ensure}
use skybeat.Store.Rows.{Time, Device, DeviceCredential}

pub record ParsedCredential : Type 0 where
  pub credential_id : String
  pub secret : String

unfoldable pub text_length : String → ℕ
text_length String.[] = 0
text_length (String.◌∷◌ c s) = text_length s + 1

unfoldable pub push_front : Char → List String → List String
push_front c [] = String.◌∷◌ c String.[] ∷ []
push_front c (x ∷ xs) = String.◌∷◌ c x ∷ xs

-- `text.split(".")`.
unfoldable pub split_dot : String → List String
unfolding push_front
split_dot String.[] = String.[] ∷ []
split_dot (String.◌∷◌ c s) =
    let rest = split_dot s in if code c == b'.' then String.[] ∷ rest else push_front c rest

unfoldable pub parse_parts : Env → List String → Option ParsedCredential
parse_parts env (kind ∷ credential_id ∷ secret ∷ []) =
    if str_eq kind "sb1" && env.is_uuid4 credential_id && env.is_secret secret
    then some (record { credential_id = credential_id; secret = secret })
    else none
parse_parts env _ = none

unfoldable pub parse_credential : Env → String → Option ParsedCredential
unfolding parse_parts
parse_credential env token =
    if text_length token == 84 then parse_parts env (split_dot token) else none

unfoldable pub verify_token : Env → String → String → Bool
verify_token env token expected_digest =
    is_some (parse_credential env token) && str_eq (env.sha256_digest token) expected_digest

-- Neither revoked nor expired.
abbrev pub is_live : Time → DeviceCredential → Bool
is_live now c = is_none c.revoked_at && elim c.expires_at [ none ↦ true | some t ↦ not (leb t now) ]

unfoldable pub authenticate_token : Env → Time → String → Db → Result Device
unfolding verify_token
authenticate_token env now token db = do
  parsed ← require authentication_failed (parse_credential env token)
  first ←
      require authentication_failed
        (find? (λ c. str_eq c.credential_id parsed.credential_id) db.credentials)
  device ←
      require authentication_failed (find? (λ (d : Device). d.id == first.device_id) db.devices)
  credential ← require authentication_failed (
      find? (λ c. str_eq c.credential_id parsed.credential_id && c.device_id == device.id)
        db.credentials)
  ensure authentication_failed
      (device.monitoring_enabled
        && is_live now credential
        && verify_token env token credential.token_digest)
      (ok device)
