-- ===== src/Enrollment/Token.antt =====
-- `EnrollmentToken` of server/app/enrollment/service.py.
pub mod RoundTrip
use Prim.Native.Char.{code}
use skybeat.Base.{
  ℕ, ◌+◌, String, Bool, ◌&&◌, ◌||◌, List, [], ◌∷◌, Option, none, some, leb, ◌==◌, str_eq,
  str_append, if◌then◌else◌,
}
use skybeat.Store.{Env, Result, ok, raise, value_error, ◌>>=◌, require, ensure}
use skybeat.Devices.Credentials.{split_dot}

pub record EnrollmentToken : Type 0 where
  pub identifier : String
  pub prefix : String
  pub value : String
  pub secret_digest : String

-- `prefix in {"sbe1", "sbv1"}`.
abbrev pub is_prefix : String → Bool
is_prefix prefix = str_eq prefix "sbe1" || str_eq prefix "sbv1"

-- The token of a text.
abbrev pub token_of : Env → String → String → String → EnrollmentToken
token_of env identifier prefix value = record {
  identifier = identifier;
  prefix = prefix;
  value = value;
  secret_digest = env.sha256_digest value;
}

abbrev pub token_text : String → String → String → String
token_text prefix identifier secret =
    str_append prefix (str_append "." (str_append identifier (str_append "." secret)))

-- `EnrollmentToken.generate`, where the next random value is that of `draws`, with what is drawn.
unfoldable pub generate : Env → String → Option String → ℕ → Result (EnrollmentToken × ℕ)
generate env prefix none draws = ensure value_error (is_prefix prefix) (
    ok (
      token_of env (env.uuid4 draws) prefix
          (token_text prefix (env.uuid4 draws) (env.token_urlsafe (draws + 1))),
      draws + 2,
    ))
generate env prefix (some identifier) draws = ensure value_error (is_prefix prefix) (do
  id ← require value_error (env.parse_uuid identifier)
  ok (token_of env id prefix (token_text prefix id (env.token_urlsafe draws)), draws + 1))

abbrev pub is_hex : ℕ → Bool
is_hex c = (leb b'0' c && leb c b'9') || (leb b'a' c && leb c b'f')

-- `[0-9a-f]{8}(?:-[0-9a-f]{4}){3}-[0-9a-f]{12}` after `n` characters.
unfoldable pub is_uuid_from : ℕ → String → Bool
is_uuid_from n String.[] = n == 36
is_uuid_from n (String.◌∷◌ c s) =
    let rest = is_uuid_from (n + 1) s in
    (if n == 8 || n == 13 || n == 18 || n == 23 then code c == b'-' else is_hex (code c)) && rest

-- `[A-Za-z0-9_-]{43}` after `n` characters.
unfoldable pub is_opaque_from : ℕ → String → Bool
is_opaque_from n String.[] = n == 43
is_opaque_from n (String.◌∷◌ c s) =
    let rest = is_opaque_from (n + 1) s in
    ((leb b'0' (code c) && leb (code c) b'9')
      || (leb b'A' (code c) && leb (code c) b'Z')
      || (leb b'a' (code c) && leb (code c) b'z')
      || code c == b'_'
      || code c == b'-')
    && rest

-- The match: no group of the pattern has a dot.
unfoldable pub match_parts : String → List String → Option String
unfolding is_uuid_from is_opaque_from
match_parts prefix (kind ∷ identifier ∷ secret ∷ []) =
    if str_eq kind prefix && is_uuid_from 0 identifier && is_opaque_from 0 secret
    then some identifier
    else none
match_parts prefix _ = none

-- `EnrollmentToken.parse`, where `none` is `TokenRejected`.
unfoldable pub parse : Env → String → String → Option EnrollmentToken
unfolding match_parts
parse env expected_prefix value =
    if is_prefix expected_prefix
    then elim (match_parts expected_prefix (split_dot value)) [
      | none ↦ none
      | some group ↦ elim (env.parse_uuid group) [
        | none ↦ none
        | some id ↦ some (token_of env id expected_prefix value)
      ]
    ]
    else none
