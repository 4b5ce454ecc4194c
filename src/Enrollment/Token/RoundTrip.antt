-- ===== src/Enrollment/Token/RoundTrip.antt =====
-- What `generate` prints, `parse` reads, with the prefix that it was printed with and with no other.
use skybeat.Base.{
  ℕ, ◌+◌, ◌≡◌, refl, sym, ◌∙◌, ap, subst, String, Bool, true, false, [], ◌∷◌, Option, none, some,
  str_eq, str_append, if◌then◌else◌, arith, eq_iff, eq_refl, Bool-cases, inl, inr,
}
use skybeat.Store.{Env, ok, value_error, require}
use skybeat.Store.Yields.{kept, Yields-ensure, Yields-bind, Yields-of, require-found}
use skybeat.Devices.Credentials.{split_dot}
use skybeat.Devices.Identity.Tokens.{has_dot, split_dot-append, split_dot_alone}
use skybeat.Enrollment.Token.{
  EnrollmentToken, is_prefix, token_of, token_text, generate, is_uuid_from, is_opaque_from,
  match_parts, parse,
}

-- What is documented of the libraries' texts: `str(uuid4())` and the text of a parsed UUID are in the
-- canonical form, which parses to itself, and `token_urlsafe(32)` is 43 characters of URL-safe base64.
pub record IsTokenText (env : Env) : Type 0 where
  pub uuid_form : (n : ℕ) → is_uuid_from 0 (env.uuid4 n) ≡ true
  pub uuid_parses : (n : ℕ) → env.parse_uuid (env.uuid4 n) ≡ some (env.uuid4 n)
  pub parsed_form : (t u : String) → env.parse_uuid t ≡ some u → is_uuid_from 0 u ≡ true
  pub parsed_parses : (t u : String) → env.parse_uuid t ≡ some u → env.parse_uuid u ≡ some u
  pub secret_form : (n : ℕ) → is_opaque_from 0 (env.token_urlsafe n) ≡ true

uuid_dots : (n : ℕ) (s : String) → is_uuid_from n s ≡ true → has_dot s ≡ false
unfolding is_uuid_from has_dot
uuid_dots n String.[] h = refl
uuid_dots n (String.◌∷◌ c s) h = ground (arith, uuid_dots (n + 1) s)

opaque_dots : (n : ℕ) (s : String) → is_opaque_from n s ≡ true → has_dot s ≡ false
unfolding is_opaque_from has_dot
opaque_dots n String.[] h = refl
opaque_dots n (String.◌∷◌ c s) h = ground (arith, opaque_dots (n + 1) s)

prefix_dots : (prefix : String) → is_prefix prefix ≡ true → has_dot prefix ≡ false
prefix_dots prefix h = by_text (str_eq prefix "sbe1") refl
  where
    by_text : (b : Bool) → str_eq prefix "sbe1" ≡ b → has_dot prefix ≡ false
    by_text true e =
        subst (λ t. has_dot t ≡ false) (sym ((eq_iff prefix "sbe1").0 e)) (unfold has_dot in refl)
    by_text false e =
        subst (λ t. has_dot t ≡ false) (sym ((eq_iff prefix "sbv1").0 (ground (arith, h, e))))
          (unfold has_dot in refl)

parts :
    (prefix identifier secret : String)
    → has_dot prefix ≡ false
    → has_dot identifier ≡ false
    → has_dot secret ≡ false
    → split_dot (token_text prefix identifier secret) ≡ prefix ∷ identifier ∷ secret ∷ []
parts prefix identifier secret p i s =
    split_dot-append prefix (str_append identifier (str_append "." secret)) p
    ∙ ap (λ x. prefix ∷ x)
        (split_dot-append identifier secret i ∙ ap (λ x. identifier ∷ x) (split_dot_alone secret s))

-- A printed text is read as its token by its own prefix, and by the other prefix not at all.
pub parse-token_text :
    (env : Env) (prefix expected identifier : String) (n : ℕ)
    → IsTokenText env
    → is_prefix prefix ≡ true
    → is_uuid_from 0 identifier ≡ true
    → env.parse_uuid identifier ≡ some identifier
    → parse env expected (token_text prefix identifier (env.token_urlsafe n)) ≡ (
        if str_eq prefix expected
        then some
            (token_of env identifier prefix (token_text prefix identifier (env.token_urlsafe n)))
        else none)
unfolding parse match_parts
parse-token_text env prefix expected identifier n h p form parses =
    elim (Bool-cases (str_eq prefix expected)) [
      | inl hit ↦
          subst
            (λ t. parse env t (token_text prefix identifier (env.token_urlsafe n)) ≡ (
              if str_eq prefix t
              then some (
                  token_of env identifier prefix
                    (token_text prefix identifier (env.token_urlsafe n)))
              else none))
            ((eq_iff prefix expected).0 hit)
            (rw (split, form, h.secret_form n, eq_refl prefix, p, parses) refl)
      | inr miss ↦ rw (split, form, h.secret_form n, miss) (ground arith)
    ]
  where
    split :
        split_dot (token_text prefix identifier (env.token_urlsafe n))
        ≡ prefix ∷ identifier ∷ env.token_urlsafe n ∷ []
    split =
        parts prefix identifier (env.token_urlsafe n) (prefix_dots prefix p)
          (uuid_dots 0 identifier form) (opaque_dots 0 (env.token_urlsafe n) (h.secret_form n))

-- The token that is generated, for a given identifier or a new one, is read back from its text by its
-- own prefix, and its text is no token by another prefix.
pub parse-generate :
    (env : Env) (prefix expected : String) (identifier : Option String) (draws drawn : ℕ)
    (token : EnrollmentToken)
    → IsTokenText env
    → generate env prefix identifier draws ≡ ok (token, drawn)
    → parse env expected token.value ≡ (if str_eq prefix expected then some token else none)
unfolding generate
parse-generate env prefix expected none draws drawn token h done =
    Yields-of
      (λ (r : EnrollmentToken × ℕ).
        parse env expected r.0.value ≡ (if str_eq prefix expected then some r.0 else none))
      (Yields-ensure _ value_error (is_prefix prefix) _ (λ p. kept _ (
        parse-token_text env prefix expected (env.uuid4 draws) (draws + 1) h p (h.uuid_form draws)
          (h.uuid_parses draws))))
      done
parse-generate env prefix expected (some identifier) draws drawn token h done =
    Yields-of
      (λ (r : EnrollmentToken × ℕ).
        parse env expected r.0.value ≡ (if str_eq prefix expected then some r.0 else none))
      (Yields-ensure _ value_error (is_prefix prefix) _ (λ p.
        Yields-bind _ (require value_error (env.parse_uuid identifier)) _ (λ id found.
          let read = require-found value_error (env.parse_uuid identifier) found in
          kept _ (
            parse-token_text env prefix expected id draws h p (h.parsed_form identifier id read)
              (h.parsed_parses identifier id read)))))
      done
