-- ===== src/Alerts/Recipients.antt =====
-- server/app/notifications/configuration.py: device settings before project settings before the
-- deployment's recipients.
pub mod Precedence
use Prim.Native.Nat.{Ordering}
use Prim.Native.String.{compare}
use skybeat.Base.{
  ℕ, String, Bool, true, false, List, [], ◌∷◌, map, Option, none, some, ◌==◌, if◌then◌else◌, any,
  find?, select, str_eq,
}
use skybeat.Base.Order.{sort}
use skybeat.Store.{Db, Env, Result, ok, raise, value_error, ◌>>=◌}
use skybeat.Store.Kinds.{EventKind, device_offline, device_recovered, gpu_degraded, gpu_recovered}
use skybeat.Store.Rows.{EventSettings, SettingsRow, RecipientRow}
use skybeat.Users.Email.{normalize_email}

-- `EventNotificationSettings.enabled_for`, whose argument is one of the four kinds.
unfoldable pub enabled_for : EventSettings → EventKind → Bool
enabled_for s device_offline = s.device_offline_enabled
enabled_for s device_recovered = s.device_recovered_enabled
enabled_for s gpu_degraded = s.gpu_degraded_enabled
enabled_for s gpu_recovered = s.gpu_recovered_enabled

pub data Source : Type 0 where
  device project global : Source

pub record ResolvedEmailPolicy : Type 0 where
  pub source : Source
  pub settings : Option EventSettings
  pub recipients : List String

-- `{normalize_email(value) for value in values}`, as a list with no text twice.
unfoldable pub add_distinct : String → List String → List String
add_distinct v xs = if any (str_eq v) xs then xs else v ∷ xs

unfoldable pub normalize_all : Env → List String → Result (List String)
unfolding add_distinct
normalize_all env [] = ok []
normalize_all env (v ∷ vs) = elim (normalize_email env v) [
  | none ↦ raise value_error
  | some n ↦ (do rest ← normalize_all env vs; ok (add_distinct n rest))
]

-- The order of texts by code points.
abbrev pub text_le : String → String → Bool
text_le a b = elim (compare a b) [ Ordering.gt ↦ false | _ ↦ true ]

unfoldable pub normalized : Env → List String → Result (List String)
normalized env values = do distinct ← normalize_all env values; ok (sort text_le distinct)

unfoldable pub select_email_policy :
    Env
    → Option EventSettings
    → List String
    → List String
    → Option EventSettings
    → List String
    → Result ResolvedEmailPolicy
select_email_policy env project_settings project_recipients legacy_recipients (some s) recipients =
    do
      r ← normalized env recipients
      ok (record { source = device; settings = some s; recipients = r })
select_email_policy env (some s) recipients legacy_recipients none device_recipients = do
  r ← normalized env recipients
  ok (record { source = project; settings = some s; recipients = r })
select_email_policy env none project_recipients legacy_recipients none device_recipients = do
  r ← normalized env legacy_recipients
  ok (record { source = global; settings = none; recipients = r })

abbrev pub applies : Option EventSettings → EventKind → Bool
applies none kind = true
applies (some s) kind = enabled_for s kind

unfoldable pub resolve_email_recipients :
    Env
    → Option EventSettings
    → List String
    → EventKind
    → List String
    → Option EventSettings
    → List String
    → Result (List String)
resolve_email_recipients env settings recipients kind legacy device_settings device_recipients = do
  policy ← select_email_policy env settings recipients legacy device_settings device_recipients
  ok (if applies policy.settings kind then policy.recipients else [])

abbrev pub settings_of : ℕ → List SettingsRow → Option EventSettings
settings_of owner rows = elim (find? (λ r. r.owner_id == owner) rows) [
  | none ↦ none
  | some r ↦ some r.settings
]

abbrev pub emails_of : ℕ → List RecipientRow → List String
emails_of owner rows = map (λ r. r.email) (select (λ r. r.owner_id == owner) rows)

unfoldable pub snapshot_project_email_recipients :
    Env → ℕ → EventKind → List String → Db → Result (List String)
snapshot_project_email_recipients env project_id kind legacy db =
    resolve_email_recipients env (settings_of project_id db.project_settings)
      (emails_of project_id db.project_recipients) kind legacy none []

unfoldable pub snapshot_device_email_recipients :
    Env → ℕ → ℕ → EventKind → List String → Db → Result (List String)
snapshot_device_email_recipients env device_id project_id kind legacy db =
    elim (settings_of device_id db.device_settings) [
      | none ↦ snapshot_project_email_recipients env project_id kind legacy db
      | some s ↦
          resolve_email_recipients env none [] kind legacy (some s)
            (emails_of device_id db.device_recipients)
    ]
