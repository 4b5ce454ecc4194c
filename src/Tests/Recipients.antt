-- ===== src/Tests/Recipients.antt =====
-- Recipients and tokens at the samples.
use skybeat.Base.{refl, ◌≡◌, [], ◌∷◌, some, true, false, find?}
use skybeat.Store.{Db}
use skybeat.Store.Kinds.{device_offline}
use skybeat.Store.Rows.{EventSettings}
use skybeat.Alerts.Recipients.{normalized, settings_of, snapshot_device_email_recipients}
use skybeat.Alerts.Recipients.Precedence.{Once, normalized-Once, snapshot_device_override}
use skybeat.Devices.Credentials.{authenticate_token}
use skybeat.Devices.Credentials.Trust.{Trusts, authenticate_token-Trusts}
use skybeat.Tests.Samples.{sample_env, sample_db, sample_token}

normalized-Once_example :
    Once sample_env "a@b"
      ("a@b" ∷ "c@d" ∷ "a@b" ∷ [])
      (normalized sample_env ("a@b" ∷ "c@d" ∷ "a@b" ∷ []))
normalized-Once_example = normalized-Once sample_env "a@b" ("a@b" ∷ "c@d" ∷ "a@b" ∷ [])

abbrev only_offline : EventSettings
only_offline = record {
  device_offline_enabled = true;
  device_recovered_enabled = false;
  gpu_degraded_enabled = false;
  gpu_recovered_enabled = false;
}

abbrev configured_db : Db
configured_db = record sample_db {
  device_settings =
      record { owner_id = 7; settings = only_offline; created_at = 0; updated_at = 0 } ∷ [];
  device_recipients =
      record { id = 1; owner_id = 7; email = "a@b"; created_at = 0; updated_at = 0 } ∷ [];
}

abbrev busy_db : Db
busy_db = record configured_db {
  project_settings =
      record { owner_id = 1; settings = only_offline; created_at = 0; updated_at = 0 } ∷ [];
  project_recipients =
      record { id = 1; owner_id = 1; email = "c@d"; created_at = 0; updated_at = 0 } ∷ [];
}

configured : settings_of 7 configured_db.device_settings ≡ some only_offline
unfolding find?
configured = refl

configured_too : settings_of 7 busy_db.device_settings ≡ some only_offline
unfolding find?
configured_too = refl

snapshot_device_override_example :
    snapshot_device_email_recipients sample_env 7 1 device_offline [] configured_db
    ≡ snapshot_device_email_recipients sample_env 7 2 device_offline ("e@f" ∷ []) busy_db
snapshot_device_override_example =
    snapshot_device_override sample_env 7 1 2 device_offline [] ("e@f" ∷ []) configured_db busy_db
      only_offline configured configured_too refl

authenticate_token-Trusts_example :
    Trusts sample_env 30 sample_token sample_db
      (authenticate_token sample_env 30 sample_token sample_db)
authenticate_token-Trusts_example = authenticate_token-Trusts sample_env 30 sample_token sample_db
