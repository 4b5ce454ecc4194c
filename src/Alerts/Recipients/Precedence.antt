-- ===== src/Alerts/Recipients/Precedence.antt =====
-- Who receives an alert: normalized lists, and the precedence of a device's own settings.
use skybeat.Base.{
  ℕ, ◌≤◌, ◌≡◌, refl, sym, ap, ◌∙◌, subst, String, Bool, true, false, ◌||◌, List, [], ◌∷◌, Option,
  none, some, any, count, arith, if◌then◌else◌, str_eq, eq_iff, eq_refl, Bool-cases, inl, inr,
}
use skybeat.Base.Order.{sort}
use skybeat.Base.Sorting.{count-sort}
use skybeat.Store.{Db, Env, Result, ok, raise, value_error, ◌>>=◌}
use skybeat.Store.Kinds.{EventKind}
use skybeat.Store.Rows.{EventSettings}
use skybeat.Users.Email.{normalize_email}
use skybeat.Alerts.Recipients.{
  Source, ResolvedEmailPolicy, applies, enabled_for, add_distinct, normalize_all, normalized,
  text_le, select_email_policy, resolve_email_recipients, settings_of, emails_of,
  snapshot_device_email_recipients,
}

-- A text has no normal form.
abbrev pub is_bad : Env → String → Bool
is_bad env v = elim (normalize_email env v) [ none ↦ true | some n ↦ false ]

-- The normal form of a text is `x`.
abbrev pub is_normal_of : Env → String → String → Bool
is_normal_of env x v = elim (normalize_email env v) [ none ↦ false | some n ↦ str_eq x n ]

abbrev pub once : Bool → ℕ
once b = if b then 1 else 0

any-count : (x : String) (xs : List String) → any (str_eq x) xs ≡ false → count (str_eq x) xs ≡ 0
unfolding any count
any-count x [] h = refl
any-count x (y ∷ xs) h = ground (arith, any-count x xs)

count-any : (x : String) (xs : List String) → any (str_eq x) xs ≡ true → 1 ≤ count (str_eq x) xs
unfolding any count
count-any x [] h = cc
count-any x (y ∷ xs) h = ground (arith, count-any x xs)

add_distinct-same :
    (v : String) (xs : List String)
    → count (str_eq v) xs ≤ 1
    → count (str_eq v) (add_distinct v xs) ≡ 1
unfolding add_distinct count
add_distinct-same v xs h = elim (Bool-cases (any (str_eq v) xs)) [
  | inl e ↦ rw e (omega (arith, h, count-any v xs e))
  | inr e ↦ rw (e, eq_refl v) (omega (arith, any-count v xs e))
]

add_distinct-other :
    (x v : String) (xs : List String)
    → str_eq x v ≡ false
    → count (str_eq x) (add_distinct v xs) ≡ count (str_eq x) xs
unfolding add_distinct count
add_distinct-other x v xs h = elim (Bool-cases (any (str_eq v) xs)) [
  | inl e ↦ rw e
  | inr e ↦ rw (e, h) (omega arith)
]

once-le : (b : Bool) → once b ≤ 1
once-le true = omega arith
once-le false = omega arith

add_distinct-count :
    (x v : String) (xs : List String) (b : Bool)
    → count (str_eq x) xs ≡ once b
    → count (str_eq x) (add_distinct v xs) ≡ once (str_eq x v || b)
add_distinct-count x v xs b h = elim (Bool-cases (str_eq x v)) [
  | inl e ↦
      let same : x ≡ v = (eq_iff x v).0 e in
      rw e (
        subst (λ z. count (str_eq z) (add_distinct v xs) ≡ 1) (sym same)
          (add_distinct-same v xs
            (subst (λ z. count (str_eq z) xs ≤ 1) same (omega (arith, h, once-le b)))))
  | inr e ↦ rw e (add_distinct-other x v xs e ∙ h)
]

-- What becomes of a list of addresses, about one address `x`: `bad` where one of them has no normal
-- form, `normal` where `x` is a normal form of one of them.
abbrev pub OnceIf : Bool → Bool → String → Result (List String) → Type 0
OnceIf bad normal x (raise e) = (e ≡ value_error) × (bad ≡ true)
OnceIf bad normal x (ok rs) = (bad ≡ false) × (count (str_eq x) rs ≡ once normal)

abbrev pub Once : Env → String → List String → Result (List String) → Type 0
Once env x values = OnceIf (any (is_bad env) values) (any (is_normal_of env x) values) x

normalize_all-Once :
    (env : Env) (x : String) (values : List String) → Once env x values (normalize_all env values)
unfolding normalize_all count any
normalize_all-Once env x [] = (refl, refl)
normalize_all-Once env x (v ∷ vs) =
    by_form (normalize_email env v) (normalize_all env vs) (normalize_all-Once env x vs)
  where
    by_form :
        (o : Option String) (r : Result (List String))
        → Once env x vs r
        → OnceIf
            (elim o [ none ↦ true | some n ↦ false ] || any (is_bad env) vs)
            (elim o [ none ↦ false | some n ↦ str_eq x n ] || any (is_normal_of env x) vs)
            x
            (elim o [
              | none ↦ raise value_error
              | some n ↦ r >>= λ (rest : List String). ok (add_distinct n rest)
            ])
    by_form none r h = (refl, refl)
    by_form (some n) (raise e) h = (h.0, h.1)
    by_form (some n) (ok rest) h = (h.0, add_distinct-count x n rest _ h.1)

-- A list of addresses is refused exactly where one of them has no normal form; else the result has
-- every normal form of an address once, however often it occurs, and nothing else.
pub normalized-Once :
    (env : Env) (x : String) (values : List String) → Once env x values (normalized env values)
unfolding normalized
normalized-Once env x values = sorted (normalize_all env values) (normalize_all-Once env x values)
  where
    sorted :
        (r : Result (List String))
        → Once env x values r
        → Once env x values (r >>= λ (d : List String). ok (sort text_le d))
    sorted (raise e) h = h
    sorted (ok rs) h = (h.0, count-sort (str_eq x) text_le rs ∙ h.1)

abbrev policy_of : EventSettings → List String → ResolvedEmailPolicy
policy_of s recipients = record {
  source = Source.device;
  settings = some s;
  recipients = recipients;
}

abbrev pub restricted : Bool → Result (List String) → Result (List String)
restricted enabled r = r >>= λ (a : List String). ok (if enabled then a else [])

pub snapshot_device_shape :
    (env : Env) (device project : ℕ) (kind : EventKind) (legacy : List String) (db : Db)
    (s : EventSettings)
    → settings_of device db.device_settings ≡ some s
    → snapshot_device_email_recipients env device project kind legacy db
      ≡ restricted (enabled_for s kind) (normalized env (emails_of device db.device_recipients))
unfolding snapshot_device_email_recipients resolve_email_recipients select_email_policy
snapshot_device_shape env device project kind legacy db s e =
    rw (e, snapshot_device_email_recipients)
      (by_list (normalized env (emails_of device db.device_recipients)))
  where
    by_list :
        (r : Result (List String))
        → ((r >>= λ (a : List String). ok (policy_of s a)) >>= λ (policy : ResolvedEmailPolicy).
            ok (if applies policy.settings kind then policy.recipients else []))
          ≡ restricted (enabled_for s kind) r
    by_list (raise e) = refl
    by_list (ok a) = refl

nobody :
    (enabled : Bool) (r : Result (List String)) (rs : List String)
    → enabled ≡ false
    → restricted enabled r ≡ ok rs
    → rs ≡ []
nobody true r rs off got = cc
nobody false (raise e) rs off got = cc
nobody false (ok a) rs off got = cc

-- Where a device has settings of its own, neither the settings and recipients of its project nor
-- the deployment's e-mail addresses have any influence on the e-mail recipients of its alerts: two
-- databases and deployments in which it has the same settings and addresses give the same.
pub snapshot_device_override :
    (env : Env) (device project project2 : ℕ) (kind : EventKind) (legacy legacy2 : List String)
    (db db2 : Db) (s : EventSettings)
    → settings_of device db.device_settings ≡ some s
    → settings_of device db2.device_settings ≡ some s
    → emails_of device db.device_recipients ≡ emails_of device db2.device_recipients
    → snapshot_device_email_recipients env device project kind legacy db
      ≡ snapshot_device_email_recipients env device project2 kind legacy2 db2
snapshot_device_override env device project project2 kind legacy legacy2 db db2 s e e2 same =
    snapshot_device_shape env device project kind legacy db s e
    ∙ ap (restricted (enabled_for s kind)) (ap (normalized env) same)
    ∙ sym (snapshot_device_shape env device project2 kind legacy2 db2 s e2)

-- Where the settings of a device switch a kind of event off, its alerts of that kind have no e-mail
-- recipients, whatever addresses its project and the deployment have.
pub snapshot_device_off :
    (env : Env) (device project : ℕ) (kind : EventKind) (legacy : List String) (db : Db)
    (s : EventSettings) (rs : List String)
    → settings_of device db.device_settings ≡ some s
    → enabled_for s kind ≡ false
    → snapshot_device_email_recipients env device project kind legacy db ≡ ok rs
    → rs ≡ []
snapshot_device_off env device project kind legacy db s rs e off got =
    nobody (enabled_for s kind) (normalized env (emails_of device db.device_recipients)) rs off
      (sym (snapshot_device_shape env device project kind legacy db s e) ∙ got)
