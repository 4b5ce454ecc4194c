-- ===== src/Tests/Enrollment.antt =====
-- An enrolment intent at the samples: created, exchanged and revoked.
use skybeat.Base.{
  refl, ◌≤◌, ◌≡◌, [], ◌∷◌, none, some, true, false, String, Bool, any, count, find?, arith,
  if◌then◌else◌, str_eq, select, update_where,
}
use skybeat.Store.{Db, ok, raise, enrollment_rejected}
use skybeat.Store.Kinds.{replace}
use skybeat.Store.Rows.{AgentEnrollment}
use skybeat.Devices.Credentials.{split_dot, push_front}
use skybeat.Enrollment.Token.{
  EnrollmentToken, token_of, token_text, generate, parse, is_uuid_from, is_opaque_from,
}
use skybeat.Enrollment.Token.RoundTrip.{IsTokenText, parse-generate}
use skybeat.Enrollment.Service.{
  AgentEnrollmentService, EnrollmentExchange, verification_ttl, exchange, enrollment_ttl,
}
use skybeat.Enrollment.Service.Overview.{EnrollmentStatus, pending, revoke_unused}
use skybeat.Enrollment.Service.Runs.{start, exchanged_once, revoked_never_exchanged}
use skybeat.Tests.Samples.{sample_db, device_7}
use skybeat.Tests.Identity.{token_env, uuid_text, value_of}

abbrev secret_text : String
secret_text = "AAAAAAAAAAAAAAAAAAAAAAAAAAAAAAAAAAAAAAAAAAA"

token_env-IsTokenText : IsTokenText token_env
unfolding is_uuid_from is_opaque_from
token_env-IsTokenText = record {
  uuid_form = λ n. refl;
  uuid_parses = λ n. refl;
  parsed_form = λ t u e. form t u (str_eq t uuid_text) e;
  parsed_parses = λ t u e. parses t u (str_eq t uuid_text) e;
  secret_form = λ n. refl;
}
  where
    form :
        (t u : String) (b : Bool)
        → (if b then some uuid_text else none) ≡ some u
        → is_uuid_from 0 u ≡ true
    form t u true e = cc
    form t u false e = cc

    parses :
        (t u : String) (b : Bool)
        → (if b then some uuid_text else none) ≡ some u
        → (if str_eq u uuid_text then some uuid_text else none) ≡ some u
    parses t u true e = cc
    parses t u false e = cc

abbrev token : EnrollmentToken
token = token_of token_env uuid_text "sbe1" (token_text "sbe1" uuid_text secret_text)

generates : generate token_env "sbe1" none 3 ≡ ok (token, 5)
unfolding generate
generates = refl

parse-generate_example : parse token_env "sbv1" token.value ≡ none
parse-generate_example =
    parse-generate token_env "sbe1" "sbv1" none 3 5 token token_env-IsTokenText generates

abbrev service : AgentEnrollmentService
service = record {
  actor = "owner";
  verification_lifetime = verification_ttl;
  offline_after = 180000000;
}

abbrev intent : AgentEnrollment
intent = record {
  id = 1;
  public_id = uuid_text;
  enrollment_digest = token.secret_digest;
  verification_digest = none;
  mode = replace;
  project_id = none;
  replacement_device_id = some 7;
  issued_device_id = none;
  device_name = none;
  description = none;
  gpu_monitoring_enabled = none;
  expected_gpu_min_count = none;
  created_by = "owner";
  created_at = 0;
  expires_at = enrollment_ttl;
  used_at = none;
  verification_expires_at = none;
}

abbrev intents_db : Db
intents_db = record sample_db {
  enrollments = intent ∷ [];
  next_enrollment = 2;
  devices = record device_7 { device_uuid = uuid_text } ∷ [];
}

abbrev nothing_issued : EnrollmentExchange
nothing_issued = record {
  device = device_7;
  credential = record { credential_id = ""; token = ""; digest = "" };
  verification_token = token;
}

abbrev exchanged : EnrollmentExchange × Db
exchanged =
    value_of (exchange token_env service 5 token.value none intents_db) (nothing_issued, intents_db)

exchanges : exchange token_env service 5 token.value none intents_db ≡ ok (exchanged.0, exchanged.1)
unfolding exchange split_dot push_front find? update_where any select
exchanges = refl

token_parses : parse token_env "sbe1" token.value ≡ some token
unfolding parse split_dot push_front
token_parses = refl

one_intent : count (λ e. str_eq e.public_id uuid_text) intents_db.enrollments ≤ 1
unfolding count
one_intent = omega arith

exchanged_once_example :
    exchange token_env service 9 token.value none exchanged.1 ≡ raise enrollment_rejected
exchanged_once_example =
    exchanged_once token_env service 5 token.value none none token exchanged.0 5 9 intents_db
      exchanged.1 exchanged.1 one_intent token_parses exchanges start (omega arith)

abbrev unknown_status : EnrollmentStatus
unknown_status = record {
  enrollment_id = "";
  state = pending;
  expires_at = 0;
  device_id = none;
  last_seen_at = none;
}

abbrev withdrawn : EnrollmentStatus × Db
withdrawn = value_of (revoke_unused service 5 uuid_text intents_db) (unknown_status, intents_db)

withdraws : revoke_unused service 5 uuid_text intents_db ≡ ok (withdrawn.0, withdrawn.1)
unfolding revoke_unused find? update_where any
withdraws = refl

revoked_never_exchanged_example :
    exchange token_env service 9 token.value none withdrawn.1 ≡ raise enrollment_rejected
revoked_never_exchanged_example =
    revoked_never_exchanged token_env service 5 token.value none token withdrawn.0 5 9 intents_db
      withdrawn.1 withdrawn.1 one_intent token_parses withdraws start (omega arith)
