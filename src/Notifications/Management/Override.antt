-- ===== src/Notifications/Management/Override.antt =====
-- What a change of a device's settings does to who receives its alerts.
use skybeat.Base.{
  ℕ, ◌+◌, ◌≡◌, refl, ◌∙◌, ap, String, Bool, true, false, not, List, [], ◌∷◌, ◌++◌, none, some, ◌⊎◌,
  ◌==◌, ==_refl, arith, find?, select, select-append, map, if◌then◌else◌, is_some, update_where,
  Bool-cases, inl, inr,
}
use skybeat.Store.{Db, Env, ok, integrity_error, recipient_unavailable, ◌>>=◌}
use skybeat.Store.Audit.{add_audit}
use skybeat.Store.Kinds.{EventKind}
use skybeat.Store.Rows.{Time, Project, Device, EventSettings, SettingsRow, RecipientRow}
use skybeat.Store.Yields.{Yields, kept, Yields-bind, Yields-ensure, Yields-of}
use skybeat.Alerts.Recipients.{
  settings_of, emails_of, enabled_for, normalized, snapshot_device_email_recipients,
  snapshot_project_email_recipients,
}
use skybeat.Alerts.Recipients.Precedence.{restricted, snapshot_device_shape}
use skybeat.Notifications.Management.{
  UpdateRequest, put_settings, recipient_rows, has_collision, put_recipients, write_policy,
  find_device, all_available, update_device, clear_device, reset_device,
}

settings_updated :
    (owner : ℕ) (s : EventSettings) (now : Time) (rows : List SettingsRow)
    → is_some (find? (λ (r : SettingsRow). r.owner_id == owner) rows) ≡ true
    → settings_of owner (
        update_where
          (λ (r : SettingsRow). r.owner_id == owner)
          (λ r. record r { settings = s; updated_at = now })
          rows)
      ≡ some s
unfolding find? update_where
settings_updated owner s now [] h = cc
settings_updated owner s now (r ∷ rows) h = ground (arith, settings_updated owner s now rows)

settings_appended :
    (owner : ℕ) (s : EventSettings) (now : Time) (rows : List SettingsRow)
    → is_some (find? (λ (r : SettingsRow). r.owner_id == owner) rows) ≡ false
    → settings_of owner
        (rows ++ record { owner_id = owner; settings = s; created_at = now; updated_at = now } ∷ [])
      ≡ some s
unfolding find?
settings_appended owner s now [] h = rw (==_refl owner, settings_of) refl
settings_appended owner s now (r ∷ rows) h = ground (arith, settings_appended owner s now rows)

settings_of-put :
    (owner : ℕ) (s : EventSettings) (now : Time) (rows : List SettingsRow)
    → settings_of owner (put_settings owner s now rows) ≡ some s
unfolding put_settings
settings_of-put owner s now rows =
    elim (Bool-cases (is_some (find? (λ (r : SettingsRow). r.owner_id == owner) rows))) [
      | inl known ↦ rw known (settings_updated owner s now rows known)
      | inr fresh ↦ rw fresh (settings_appended owner s now rows fresh)
    ]

none_left :
    (owner : ℕ) (rows : List RecipientRow)
    → select
        (λ (r : RecipientRow). r.owner_id == owner)
        (select (λ (r : RecipientRow). not (r.owner_id == owner)) rows)
      ≡ []
unfolding select
none_left owner [] = refl
none_left owner (r ∷ rows) = ground (arith, none_left owner rows)

emails_of_rows :
    (next owner : ℕ) (now : Time) (emails : List String)
    → emails_of owner (recipient_rows next owner now emails) ≡ emails
unfolding select recipient_rows
emails_of_rows next owner now [] = refl
emails_of_rows next owner now (e ∷ es) =
    rw (==_refl owner) (ap (λ xs. e ∷ xs) (emails_of_rows (next + 1) owner now es))

emails_of-replaced :
    (next owner : ℕ) (now : Time) (emails : List String) (rows : List RecipientRow)
    → emails_of owner (
        select (λ (r : RecipientRow). not (r.owner_id == owner)) rows
        ++ recipient_rows next owner now emails)
      ≡ emails
emails_of-replaced next owner now emails rows =
    ap (map (λ (r : RecipientRow). r.email)) (
      select-append (λ (r : RecipientRow). r.owner_id == owner)
        (select (λ (r : RecipientRow). not (r.owner_id == owner)) rows)
        (recipient_rows next owner now emails)
      ∙ ap
          (λ xs.
            xs
            ++ select (λ (r : RecipientRow). r.owner_id == owner)
                (recipient_rows next owner now emails))
          (none_left owner rows))
    ∙ emails_of_rows next owner now emails

emails_of-put :
    (env : Env) (next owner : ℕ) (now : Time) (emails : List String) (rows : List RecipientRow)
    → Yields (λ rs. emails_of owner rs ≡ emails) (put_recipients env next owner now emails rows)
unfolding put_recipients
emails_of-put env next owner now emails rows =
    Yields-ensure (λ rs. emails_of owner rs ≡ emails) integrity_error
      (not (has_collision env emails)) _
      (λ _. kept _ (emails_of-replaced next owner now emails rows))

-- After the settings of a device were updated, the e-mail recipients of an alert about it, of any
-- kind, are exactly the addresses of the update, in their normal form, where the update has the kind
-- on, and none where it has it off, whatever the device had before and whatever e-mail addresses
-- its project and the deployment have.
pub update_device_then_snapshot :
    (env : Env) (actor : String) (now : Time) (project_uuid device_uuid : String)
    (payload : UpdateRequest) (project : Project) (device : Device) (project_id : ℕ)
    (kind : EventKind) (legacy : List String) (db db1 : Db)
    → find_device project_uuid device_uuid db ≡ ok (project, device)
    → update_device env actor now project_uuid device_uuid payload db ≡ ok db1
    → snapshot_device_email_recipients env device.id project_id kind legacy db1 ≡ (
        normalized env payload.recipients >>= λ (rs : List String).
        ok (if enabled_for payload.settings kind then rs else []))
unfolding update_device write_policy add_audit
update_device_then_snapshot env actor now project_uuid device_uuid payload project device project_id
      kind legacy db db1 found done =
    Yields-of Routed
      (rw found (
        Yields-ensure Routed recipient_unavailable
          (all_available (emails_of device.id db.device_recipients) db.users payload.recipients) _
          (λ _. written)))
      done
  where
    Routed : Db → Type 0
    Routed d =
        snapshot_device_email_recipients env device.id project_id kind legacy d
        ≡ restricted (enabled_for payload.settings kind) (normalized env payload.recipients)

    routed :
        (d : Db)
        → settings_of device.id d.device_settings ≡ some payload.settings
        → emails_of device.id d.device_recipients ≡ payload.recipients
        → Routed d
    routed d set listed =
        snapshot_device_shape env device.id project_id kind legacy d payload.settings set
        ∙ ap (restricted (enabled_for payload.settings kind)) (ap (normalized env) listed)

    written : Yields Routed (write_policy env actor now project device payload db)
    written =
        Yields-bind Routed
          (put_recipients env db.next_device_recipient device.id now payload.recipients
            db.device_recipients)
          _
          (λ rs put. kept _ (
            routed _ (settings_of-put device.id payload.settings now db.device_settings) (
              Yields-of (λ l. emails_of device.id l ≡ payload.recipients)
                (emails_of-put env db.next_device_recipient device.id now payload.recipients
                  db.device_recipients)
                put)))

settings_deleted :
    (owner : ℕ) (rows : List SettingsRow)
    → settings_of owner (select (λ (r : SettingsRow). not (r.owner_id == owner)) rows) ≡ none
unfolding find? select
settings_deleted owner [] = refl
settings_deleted owner (r ∷ rows) = ground (arith, settings_deleted owner rows)

settings_absent :
    (owner : ℕ) (rows : List SettingsRow)
    → is_some (find? (λ (r : SettingsRow). r.owner_id == owner) rows) ≡ false
    → settings_of owner rows ≡ none
unfolding find?
settings_absent owner [] h = refl
settings_absent owner (r ∷ rows) h = ground (arith, settings_absent owner rows)

snapshot_inherited :
    (env : Env) (device project_id : ℕ) (kind : EventKind) (legacy : List String) (d : Db)
    → settings_of device d.device_settings ≡ none
    → snapshot_device_email_recipients env device project_id kind legacy d
      ≡ snapshot_project_email_recipients env project_id kind legacy d
unfolding snapshot_device_email_recipients
snapshot_inherited env device project_id kind legacy d e =
    rw (e, snapshot_device_email_recipients) refl

-- After the settings of a device were reset, the e-mail recipients of its alerts are those that its
-- project's settings, or without them the deployment's, give.
pub reset_device_then_snapshot :
    (env : Env) (actor : String) (now : Time) (project_uuid device_uuid : String)
    (project : Project) (device : Device) (project_id : ℕ) (kind : EventKind) (legacy : List String)
    (db db1 : Db)
    → find_device project_uuid device_uuid db ≡ ok (project, device)
    → reset_device actor now project_uuid device_uuid db ≡ ok db1
    → snapshot_device_email_recipients env device.id project_id kind legacy db1
      ≡ snapshot_project_email_recipients env project_id kind legacy db
unfolding reset_device clear_device add_audit snapshot_project_email_recipients
reset_device_then_snapshot env actor now project_uuid device_uuid project device project_id kind
      legacy db db1 found done =
    Yields-of Inherits (rw found (kept _ (inherits (Bool-cases known)))) done
  where
    Inherits : Db → Type 0
    Inherits d =
        snapshot_device_email_recipients env device.id project_id kind legacy d
        ≡ snapshot_project_email_recipients env project_id kind legacy db

    known : Bool
    known = is_some (find? (λ (r : SettingsRow). r.owner_id == device.id) db.device_settings)

    inherits :
        (known ≡ true) ⊎ (known ≡ false) → Inherits (clear_device actor now project device db)
    inherits (inl e) = rw e (
        snapshot_inherited env device.id project_id kind legacy _
          (settings_deleted device.id db.device_settings))
    inherits (inr e) = rw e (
        snapshot_inherited env device.id project_id kind legacy db
          (settings_absent device.id db.device_settings e))
