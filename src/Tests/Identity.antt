-- ===== src/Tests/Identity.antt =====
-- Tokens, credentials and accounts at the samples.
use skybeat.Base.{
  refl, ◌≡◌, [], ◌∷◌, none, some, false, String, any, count, find?, arith, if◌then◌else◌, str_eq,
  update_where,
}
use skybeat.Store.{Db, Env, Result, ok, raise, authentication_failed}
use skybeat.Store.Kinds.{owner, admin, user}
use skybeat.Store.Yields.{Yields}
use skybeat.Devices.Credentials.{
  ParsedCredential, parse_credential, parse_parts, split_dot, push_front, text_length,
  authenticate_token,
}
use skybeat.Devices.Identity.{GpuPolicy}
use skybeat.Devices.Identity.Issue.{Enrollment, enroll_in_session, enroll_device, expiry, revoke}
use skybeat.Devices.Identity.Tokens.{IsRandomText, has_dot}
use skybeat.Devices.Identity.Keyring.{IsKeyring, rotating, perform, perform-IsKeyring}
use skybeat.Devices.Identity.Access.{HasUniqueIds, revoke_then_refused, enroll_then_authenticate}
use skybeat.Users.Accounts.{new_user}
use skybeat.Users.Accounts.Owner
use skybeat.Users.Accounts.Owner.{
  IsAccounts, protected, authorize_matrix, is_administrator, within, perform-IsAccounts, Change,
  create,
}
use skybeat.Users.Accounts.Roles.{perform-protected}
use skybeat.Tests.Samples.{sample_env, sample_db, sample_token, project_1}

-- The value of a result, or a default.
abbrev pub value_of : {A : Type 0} → Result A → A → A
value_of (ok a) d = a
value_of (raise e) d = d

abbrev pub uuid_text : String
uuid_text = "0f8fad5b-d9cb-469f-a165-70867728950e"

-- One UUID, and one secret.
abbrev pub token_env : Env
token_env = record sample_env {
  uuid4 = λ n. uuid_text;
  parse_uuid = λ t. if str_eq t uuid_text then some uuid_text else none;
}

token_env-IsRandomText : IsRandomText token_env
unfolding text_length has_dot
token_env-IsRandomText = record {
  uuid_length = λ n. refl;
  uuid_dots = λ n. refl;
  uuid_version = λ n. refl;
  secret_length = λ n. refl;
  secret_dots = λ n. refl;
  secret_coded = λ n. refl;
}

sample_db-IsKeyring : IsKeyring 0 sample_db
unfolding count
sample_db-IsKeyring = record {
  few = λ k t le. ground arith;
  owned = (omega arith, tt);
  numbered = (omega arith, (omega arith, tt));
}

perform-IsKeyring_example :
    Yields (IsKeyring 5) (perform sample_env "owner" 5 (rotating "device-7" 1 none) sample_db)
perform-IsKeyring_example =
    perform-IsKeyring sample_env "owner" 0 5 (rotating "device-7" 1 none) sample_db (omega arith)
      sample_db-IsKeyring

abbrev sample_parsed : ParsedCredential
sample_parsed = record {
  credential_id = uuid_text;
  secret = "AAAAAAAAAAAAAAAAAAAAAAAAAAAAAAAAAAAAAAAAAAA";
}

sample_token_parses : parse_credential sample_env sample_token ≡ some sample_parsed
unfolding parse_credential parse_parts split_dot push_front text_length
sample_token_parses = refl

abbrev revoked_db : Db
revoked_db = value_of (revoke sample_env "owner" 5 "device-7" uuid_text sample_db) sample_db

revoked : revoke sample_env "owner" 5 "device-7" uuid_text sample_db ≡ ok revoked_db
unfolding revoke find? update_where
revoked = refl

sample_db-HasUniqueIds : HasUniqueIds sample_db
unfolding count
sample_db-HasUniqueIds = λ id. ground arith

revoke_then_refused_example :
    authenticate_token sample_env 9 sample_token revoked_db ≡ raise authentication_failed
revoke_then_refused_example =
    revoke_then_refused sample_env "owner" 5 9 "device-7" uuid_text sample_token sample_parsed
      sample_db revoked_db sample_db-HasUniqueIds refl sample_token_parses revoked

abbrev policy : GpuPolicy
policy = record { monitoring_enabled = false; min_count = 0; uuids = [] }

abbrev fresh_db : Db
fresh_db = record sample_db {
  projects = record project_1 { public_id = uuid_text } ∷ [];
  credentials = [];
}

abbrev enrolled : Enrollment × Db
enrolled =
    enroll_device token_env "owner" "host" none (record project_1 { public_id = uuid_text }) policy
      none 5 fresh_db

enrolls :
    enroll_in_session token_env "owner" uuid_text "host" none policy none 5 fresh_db ≡ ok enrolled
unfolding enroll_in_session find? text_length
enrolls = refl

no_credentials : any (λ c. str_eq c.credential_id uuid_text) fresh_db.credentials ≡ false
unfolding any
no_credentials = refl

enroll_then_authenticate_example :
    authenticate_token token_env 9 enrolled.0.credential.token enrolled.1 ≡ ok enrolled.0.device
enroll_then_authenticate_example =
    enroll_then_authenticate token_env "owner" uuid_text "host" none policy none none 5 9 fresh_db
      enrolled.1 enrolled.0 token_env-IsRandomText (omega arith, (omega arith, tt)) no_credentials
      (unfold expiry in refl) refl enrolls

abbrev owned_db : Db
owned_db = record sample_db { users = new_user 1 "o@b" none owner 0 ∷ []; next_user = 2 }

owned_db-IsAccounts : IsAccounts owned_db.users owned_db.next_user
unfolding count
owned_db-IsAccounts = record {
  owners = omega arith;
  ids = λ k. ground arith;
  below = (omega arith, tt);
  emails = λ e. ground arith;
}

abbrev created_db : Db
created_db =
    value_of (Owner.perform sample_env "admin" (some admin) 5 (create "u@b" none user) owned_db)
      owned_db

creates :
    Owner.perform sample_env "admin" (some admin) 5 (create "u@b" none user) owned_db
    ≡ ok created_db
unfolding Owner.perform any
creates = refl

perform-IsAccounts_example : IsAccounts created_db.users created_db.next_user
perform-IsAccounts_example =
    perform-IsAccounts sample_env "admin" (some admin) 5 (create "u@b" none user) owned_db
      created_db owned_db-IsAccounts creates

perform-protected_example : protected (some admin) created_db ≡ protected (some admin) owned_db
perform-protected_example =
    perform-protected sample_env "admin" (some admin) 5 (create "u@b" none user) owned_db created_db
      refl owned_db-IsAccounts creates
