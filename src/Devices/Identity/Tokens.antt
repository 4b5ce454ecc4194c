-- ===== src/Devices/Identity/Tokens.antt =====
-- The text of a token: what `generate_credential` prints, `parse_credential` reads.
use Prim.Native.Char.{char, code}
use Prim.Native.String.append
use text.Mathlib.TextLemmas.{append_assoc}
use skybeat.Base.{
  ℕ, ◌+◌, ◌≡◌, refl, ◌∙◌, ap, String, Bool, true, false, [], ◌∷◌, some, ◌==◌, str_append,
  if◌then◌else◌, arith,
}
use skybeat.Store.{Env}
use skybeat.Devices.Credentials.{text_length, push_front, split_dot, parse_parts, parse_credential}
use skybeat.Devices.Identity.Issue.{generate_credential}

pub text_length-append :
    (s t : String) → text_length (str_append s t) ≡ text_length s + text_length t
unfolding text_length
text_length-append String.[] t = rw (append.nil t) (omega arith)
text_length-append (String.◌∷◌ c s) t =
    rw (append.cons c s t) (omega (arith, text_length-append s t))

unfoldable pub has_dot : String → Bool
has_dot String.[] = false
has_dot (String.◌∷◌ c s) = let rest = has_dot s in if code c == b'.' then true else rest

pub split_dot_alone : (s : String) → has_dot s ≡ false → split_dot s ≡ s ∷ []
unfolding split_dot has_dot push_front
split_dot_alone String.[] h = refl
split_dot_alone (String.◌∷◌ c s) h = ground (arith, split_dot_alone s)

dot-append : (t : String) → str_append "." t ≡ String.◌∷◌ (char 46 tt) t
dot-append t = append.cons (char 46 tt) String.[] t ∙ ap (String.◌∷◌ (char 46 tt)) (append.nil t)

dotted : (t : String) → split_dot (str_append "." t) ≡ String.[] ∷ split_dot t
unfolding split_dot push_front
dotted t = ap split_dot (dot-append t)

pub split_dot-append :
    (s t : String)
    → has_dot s ≡ false
    → split_dot (str_append s (str_append "." t)) ≡ s ∷ split_dot t
unfolding split_dot has_dot push_front
split_dot-append String.[] t h = ap split_dot (append.nil (str_append "." t)) ∙ dotted t
split_dot-append (String.◌∷◌ c s) t h =
    ap split_dot (append.cons c s (str_append "." t)) ∙ ground (arith, split_dot-append s t)

-- What is documented of the random texts: `str(uuid4())` has 36 characters, none of them a dot, and
-- is the text of a UUID of version 4; `token_urlsafe(32)` is 43 characters of URL-safe base64.
pub record IsRandomText (env : Env) : Type 0 where
  pub uuid_length : (n : ℕ) → text_length (env.uuid4 n) ≡ 36
  pub uuid_dots : (n : ℕ) → has_dot (env.uuid4 n) ≡ false
  pub uuid_version : (n : ℕ) → env.is_uuid4 (env.uuid4 n) ≡ true
  pub secret_length : (n : ℕ) → text_length (env.token_urlsafe n) ≡ 43
  pub secret_dots : (n : ℕ) → has_dot (env.token_urlsafe n) ≡ false
  pub secret_coded : (n : ℕ) → env.is_secret (env.token_urlsafe n) ≡ true

-- A generated token has 84 characters and parses to its own credential id and secret.
pub parse_credential-generate :
    (env : Env) (n : ℕ)
    → IsRandomText env
    → parse_credential env (generate_credential env n).token
      ≡ some (record {
        credential_id = (generate_credential env n).credential_id;
        secret = env.token_urlsafe (n + 1);
      })
unfolding parse_credential parse_parts generate_credential text_length has_dot
parse_credential-generate env n h =
    rw (length_84, parts, h.uuid_version n, h.secret_coded (n + 1)) refl
  where
    secret : String
    secret = env.token_urlsafe (n + 1)

    rest : String
    rest = str_append (env.uuid4 n) (str_append "." secret)

    kind : str_append "sb1." rest ≡ str_append "sb1" (str_append "." rest)
    kind = append_assoc "sb1" "." rest

    length_84 : text_length (str_append "sb1." rest) ≡ 84
    length_84 = omega (
      arith,
      text_length-append "sb1." rest,
      text_length-append (env.uuid4 n) (str_append "." secret),
      text_length-append "." secret,
      h.uuid_length n,
      h.secret_length (n + 1),
    )

    parts : split_dot (str_append "sb1." rest) ≡ "sb1" ∷ env.uuid4 n ∷ secret ∷ []
    parts =
        ap split_dot kind
        ∙ split_dot-append "sb1" rest refl
        ∙ ap (λ x. "sb1" ∷ x)
            (split_dot-append (env.uuid4 n) secret (h.uuid_dots n)
              ∙ ap (λ x. env.uuid4 n ∷ x) (split_dot_alone secret (h.secret_dots (n + 1))))
