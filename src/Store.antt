-- ===== src/Store.antt =====
-- The database: its tables as lists of rows in the order of insertion, and transactions on it.
-- server/app/models holds the tables and server/app/db.py the transaction.
pub mod Kinds
pub mod Rows
pub mod Audit
pub mod Yields
use Prim.Native.Char.{Char}
use skybeat.Base.{ℕ, Bool, true, false, List, Option, none, some, String}
use Rows.{
  Project, Device, Incident, AlertEvent, Delivery, Attempt, SettingsRow, RecipientRow,
  DeviceCredential, HeartbeatReceipt, HeartbeatSample, DeviceLatest, DeviceAgentLifecycle,
  AuditEvent, AgentEnrollment, ApplicationUser, DeviceLogEntry, DeviceLogSource,
}

-- `next_…` is the AUTO_INCREMENT of its table. `draws` counts the random values drawn so far.
pub record Db : Type 0 where
  pub projects : List Project
  pub next_project : ℕ
  pub devices : List Device
  pub next_device : ℕ
  pub incidents : List Incident
  pub next_incident : ℕ
  pub events : List AlertEvent
  pub next_event : ℕ
  pub deliveries : List Delivery
  pub next_delivery : ℕ
  pub attempts : List Attempt
  pub next_attempt : ℕ
  pub project_settings : List SettingsRow
  pub project_recipients : List RecipientRow
  pub next_project_recipient : ℕ
  pub device_settings : List SettingsRow
  pub device_recipients : List RecipientRow
  pub next_device_recipient : ℕ
  pub credentials : List DeviceCredential
  pub next_credential : ℕ
  pub enrollments : List AgentEnrollment
  pub next_enrollment : ℕ
  pub users : List ApplicationUser
  pub next_user : ℕ
  pub log_entries : List DeviceLogEntry
  pub next_log_entry : ℕ
  pub log_sources : List DeviceLogSource
  pub receipts : List HeartbeatReceipt
  pub samples : List HeartbeatSample
  pub next_sample : ℕ
  pub latest : List DeviceLatest
  pub operations : List DeviceAgentLifecycle
  pub audit : List AuditEvent
  pub next_audit : ℕ
  pub draws : ℕ

-- What the program takes from its libraries: the n-th random value as `str(uuid4())`
-- and as `token_urlsafe(32)`,
-- `sha256(text.encode("utf-8")).hexdigest()`, `text.strip()`, `text.strip().lower()`, what `\s` matches,
-- `sha256(text.encode()).digest()`, whether `UUID(text)` is of version 4 and prints as the text,
-- `str(UUID(text))` or none where it raises,
-- whether the text and a `=` is the URL-safe base64 of 32 bytes, the ISO form of a time, and whether
-- the database's collation, utf8mb4_0900_ai_ci, takes two texts for the same.
pub record Env : Type 0 where
  pub uuid4 : ℕ → String
  pub token_urlsafe : ℕ → String
  pub strip : String → String
  pub sha256_hex : String → String
  pub strip_lower : String → String
  pub is_space : Char → Bool
  pub sha256_digest : String → String
  pub is_uuid4 : String → Bool
  pub parse_uuid : String → Option String
  pub is_secret : String → Bool
  pub iso_time : ℕ → String
  pub collates : String → String → Bool

-- The exceptions that end a transaction.
pub data Error : Type 0 where
  project_missing attempt_missing integrity_error value_error : Error
  authentication_failed identity_mismatch rate_limited heartbeat_conflict : Error
  not_found lifecycle_conflict release_unavailable : Error
  identity_error conflict enrollment_rejected receipt_rejected contract_violated : Error
  user_denied user_conflict owner_configured log_timestamp_invalid recipient_unavailable : Error

pub data Result {ℓ} (A : Type ℓ) : Type ℓ where
  ok : A → Result A
  raise : Error → Result A

infixl 5 ◌>>=◌
abbrev pub ◌>>=◌ {ℓ κ} : {A : Type ℓ} {B : Type κ} → Result A → (A → Result B) → Result B
ok a >>= f = f a
raise e >>= f = raise e

-- `if value is None: raise error`.
abbrev pub require {ℓ} : {A : Type ℓ} → Error → Option A → Result A
require e none = raise e
require e (some a) = ok a

-- `if not test: raise error`, and the rest.
abbrev pub ensure {ℓ} : {A : Type ℓ} → Error → Bool → Result A → Result A
ensure e false rest = raise e
ensure e true rest = rest

-- A call that makes several transactions: its exception, if any, and the database at its end.
-- An exception leaves what earlier transactions have committed.
abbrev pub Run : Type 0
Run = Option Error × Db

-- The rest of a call after a transaction on `db`: an exception of the transaction ends the call.
abbrev pub after {ℓ} : {A : Type ℓ} → Db → Result A → (A → Run) → Run
after db (raise e) rest = (some e, db)
after db (ok a) rest = rest a
