-- ===== src/Notifications/Management.antt =====
-- The writes of `NotificationManagementService` of server/app/notifications/management.py, and the
-- request of server/app/schemas/notifications.py. A method is a transaction at `now`; `actor` is the
-- service's.
pub mod Override
use skybeat.Base.{
  ℕ, ◌+◌, String, Bool, true, false, not, ◌&&◌, List, [], ◌∷◌, ◌++◌, Option, none, some, leb, ◌==◌,
  any, find?, select, length, str_eq, if◌then◌else◌, is_none, is_some, update_where,
}
use skybeat.Base.Order.{sort}
use skybeat.Store.{
  Db, Env, Result, ok, raise, value_error, not_found, recipient_unavailable, integrity_error, ◌>>=◌,
  require, ensure,
}
use skybeat.Store.Audit.{add_audit}
use skybeat.Store.Rows.{
  Time, Project, Device, ApplicationUser, EventSettings, SettingsRow, RecipientRow, policy_details,
  no_details,
}
use skybeat.Users.Email.{normalize_email}
use skybeat.Alerts.Recipients.{text_le, emails_of}

-- `ProjectNotificationUpdateRequest` and `DeviceNotificationUpdateRequest`, validated.
pub record UpdateRequest : Type 0 where
  pub recipients : List String
  pub settings : EventSettings

-- Every address in its normal form, or none.
unfoldable pub normal_addresses : Env → List String → Option (List String)
unfolding normalize_email
normal_addresses env [] = some []
normal_addresses env (v ∷ vs) =
    let rest = normal_addresses env vs in
    elim (normalize_email env v) [
      | none ↦ none
      | some n ↦ elim rest [ none ↦ none | some ns ↦ some (n ∷ ns) ]
    ]

unfoldable pub has_duplicate : List String → Bool
unfolding any
has_duplicate [] = false
has_duplicate (x ∷ xs) = let rest = has_duplicate xs in if any (str_eq x) xs then true else rest

-- The length and `normalized_recipients`.
unfoldable pub validate_recipients : Env → List String → Result (List String)
unfolding normal_addresses has_duplicate sort
validate_recipients env value = ensure value_error (leb (length value) 100) (do
  addresses ← require value_error (normal_addresses env value)
  ensure value_error (not (has_duplicate addresses)) (ok (sort text_le addresses)))

-- The row of the settings of an owner, written or added.
unfoldable pub put_settings : ℕ → EventSettings → Time → List SettingsRow → List SettingsRow
put_settings owner settings now rows =
    if is_some (find? (λ (r : SettingsRow). r.owner_id == owner) rows)
    then update_where (λ (r : SettingsRow). r.owner_id == owner)
        (λ r. record r { settings = settings; updated_at = now }) rows
    else rows
      ++ record { owner_id = owner; settings = settings; created_at = now; updated_at = now } ∷ []

-- The rows of recipients, numbered from `next`.
unfoldable pub recipient_rows : ℕ → ℕ → Time → List String → List RecipientRow
recipient_rows next owner now [] = []
recipient_rows next owner now (email ∷ emails) =
    record { id = next; owner_id = owner; email = email; created_at = now; updated_at = now }
    ∷ recipient_rows (next + 1) owner now emails

-- Two of the texts are the same to a unique key.
unfoldable pub has_collision : Env → List String → Bool
unfolding any
has_collision env [] = false
has_collision env (x ∷ xs) =
    let rest = has_collision env xs in if any (env.collates x) xs then true else rest

-- The recipients of an owner, replaced under the unique key (owner, email).
unfoldable pub put_recipients :
    Env → ℕ → ℕ → Time → List String → List RecipientRow → Result (List RecipientRow)
unfolding recipient_rows has_collision
put_recipients env next owner now emails rows =
    ensure integrity_error (not (has_collision env emails)) (
      ok (
        select (λ (r : RecipientRow). not (r.owner_id == owner)) rows
        ++ recipient_rows next owner now emails))

unfoldable pub update_project : Env → String → Time → String → UpdateRequest → Db → Result Db
unfolding put_settings put_recipients add_audit
update_project env actor now project_uuid payload db = do
  project ← require not_found (find? (λ (p : Project). str_eq p.public_id project_uuid) db.projects)
  recipients ←
      put_recipients env db.next_project_recipient project.id now payload.recipients
        db.project_recipients
  ok (
      add_audit actor "notification.project_policy_updated" (some project.id) none now
        (policy_details
          (record { recipient_count = length payload.recipients; settings = payload.settings }))
        (record db {
          project_settings = put_settings project.id payload.settings now db.project_settings;
          project_recipients = recipients;
          next_project_recipient = db.next_project_recipient + length payload.recipients;
        }))

-- `_project` and `_device`.
unfoldable pub find_device : String → String → Db → Result (Project × Device)
find_device project_uuid device_uuid db = do
  project ← require not_found (find? (λ (p : Project). str_eq p.public_id project_uuid) db.projects)
  device ← require not_found (
      find? (λ (d : Device). str_eq d.device_uuid device_uuid && d.project_id == project.id)
        db.devices)
  ok (project, device)

-- Every address is already the device's, or of an active account.
unfoldable pub all_available : List String → List ApplicationUser → List String → Bool
unfolding any
all_available existing users [] = true
all_available existing users (email ∷ emails) =
    let rest = all_available existing users emails in
    if any (str_eq email) existing
    then rest
    else any (λ (u : ApplicationUser). str_eq u.email email && u.is_active) users && rest

-- The writes of `update_device`.
unfoldable pub write_policy :
    Env → String → Time → Project → Device → UpdateRequest → Db → Result Db
unfolding put_settings put_recipients add_audit
write_policy env actor now project device payload db = do
  recipients ←
      put_recipients env db.next_device_recipient device.id now payload.recipients
        db.device_recipients
  ok (
      add_audit actor "notification.device_policy_updated" (some project.id) (some device.id) now
        (policy_details
          (record { recipient_count = length payload.recipients; settings = payload.settings }))
        (record db {
          device_settings = put_settings device.id payload.settings now db.device_settings;
          device_recipients = recipients;
          next_device_recipient = db.next_device_recipient + length payload.recipients;
        }))

unfoldable pub update_device :
    Env → String → Time → String → String → UpdateRequest → Db → Result Db
unfolding find_device all_available write_policy
update_device env actor now project_uuid device_uuid payload db = do
  (project, device) ← find_device project_uuid device_uuid db
  ensure recipient_unavailable
      (all_available (emails_of device.id db.device_recipients) db.users payload.recipients)
      (write_policy env actor now project device payload db)

-- The deletion of the settings, which cascades to the recipients, and its audit.
unfoldable pub clear_device : String → Time → Project → Device → Db → Db
unfolding add_audit
clear_device actor now project device db =
    if is_some (find? (λ (r : SettingsRow). r.owner_id == device.id) db.device_settings)
    then add_audit actor "notification.device_policy_reset" (some project.id) (some device.id) now
        no_details
        (record db {
          device_settings =
              select (λ (r : SettingsRow). not (r.owner_id == device.id)) db.device_settings;
          device_recipients =
              select (λ (r : RecipientRow). not (r.owner_id == device.id)) db.device_recipients;
        })
    else db

unfoldable pub reset_device : String → Time → String → String → Db → Result Db
unfolding find_device clear_device
reset_device actor now project_uuid device_uuid db = do
  (project, device) ← find_device project_uuid device_uuid db
  ok (clear_device actor now project device db)
