-- ===== src/Logs/Service.antt =====
-- `LogWatchService.accept` and `LogRetentionService` of server/app/logs/service.py. A method is a
-- transaction at `now`. A digest is its hexadecimal text.
pub mod Bound
pub mod Retention
use skybeat.Base.{
  ℕ, zero, suc, ◌+◌, ◌-◌, ◌*◌, String, Bool, true, false, not, ◌&&◌, ◌||◌, List, [], ◌∷◌, ◌++◌,
  Option, none, some, leb, ltb, ◌==◌, str_eq, if◌then◌else◌, any, find?, select, take, length,
  update_where, is_none,
}
use skybeat.Base.Order.{sort}
use skybeat.Base.Sorting.{row_at, is_larger}
use skybeat.Store.{
  Db, Env, Result, ok, raise, value_error, rate_limited, log_timestamp_invalid, ◌>>=◌, require,
  ensure,
}
use skybeat.Store.Rows.{Time, seconds, hours, Device, DeviceLogEntry, DeviceLogSource}
use skybeat.Devices.Credentials.{authenticate_token}
use skybeat.Alerts.Recipients.{text_le}

abbrev pub max_stored_per_source : ℕ
max_stored_per_source = 500

abbrev pub retention_batch_size : ℕ
retention_batch_size = 500

-- `occurred_at` as UTC.
pub record LogEntryUpload : Type 0 where
  pub entry_id : String
  pub occurred_at : Option Time
  pub severity : Option String
  pub message : String

pub record LogUpload : Type 0 where
  pub source : String
  pub status : String
  pub entries : List LogEntryUpload

-- Not more than a day ago and not more than five minutes ahead.
abbrev pub is_timely : Time → Option Time → Bool
is_timely now none = true
is_timely now (some t) = not (ltb (t + hours 24) now || ltb (now + seconds 300) t)

abbrev pub log_row : ℕ → Time → ℕ → String → LogEntryUpload → DeviceLogEntry
log_row id now device_id source e = record {
  id = id;
  device_id = device_id;
  source = source;
  entry_hash = e.entry_id;
  occurred_at = e.occurred_at;
  received_at = now;
  severity = e.severity;
  message = e.message;
}

abbrev pub insert_entry : Time → ℕ → String → LogEntryUpload → Db → Db
insert_entry now device_id source e db = record db {
  log_entries = db.log_entries ++ log_row db.next_log_entry now device_id source e ∷ [];
  next_log_entry = db.next_log_entry + 1;
}

-- The loop over the entries, with what it has seen.
unfoldable pub add_entries :
    Time → ℕ → String → List LogEntryUpload → List String → Db → Result (List String × Db)
unfolding any
add_entries now device_id source [] seen db = ok (seen, db)
add_entries now device_id source (e ∷ es) seen db = elim (any (str_eq e.entry_id) seen) [
  | true ↦ add_entries now device_id source es seen db
  | false ↦ ensure log_timestamp_invalid (is_timely now e.occurred_at) (
      add_entries now device_id source es (seen ++ e.entry_id ∷ [])
        (insert_entry now device_id source e db))
]

-- The hashes of the upload that the device's rows have.
unfoldable pub existing : ℕ → List LogEntryUpload → List DeviceLogEntry → List String
unfolding any
existing device_id es [] = []
existing device_id es (r ∷ rs) =
    let rest = existing device_id es rs in
    if r.device_id == device_id
      && any (λ (e : LogEntryUpload). str_eq e.entry_id r.entry_hash) es
      && not (any (str_eq r.entry_hash) rest)
    then r.entry_hash ∷ rest
    else rest

abbrev pub is_source : ℕ → String → DeviceLogSource → Bool
is_source device_id source s = s.device_id == device_id && str_eq s.source source

unfoldable pub put_source : Time → ℕ → LogUpload → List DeviceLogSource → List DeviceLogSource
unfolding find? update_where
put_source now device_id upload sources =
    if is_none (find? (is_source device_id upload.source) sources)
    then sources
      ++ record {
        device_id = device_id;
        source = upload.source;
        status = upload.status;
        checked_at = now;
      }
        ∷ []
    else update_where (is_source device_id upload.source)
        (λ s. record s { status = upload.status; checked_at = now }) sources

abbrev pub is_entry_of : ℕ → String → DeviceLogEntry → Bool
is_entry_of device_id source e = e.device_id == device_id && str_eq e.source source

-- `ORDER BY id DESC`.
abbrev pub is_later : DeviceLogEntry → DeviceLogEntry → Bool
is_later a b = ltb b.id a.id

-- The deletion of what is older than the last entries of the device and the source.
unfoldable pub trim_entries : ℕ → String → List DeviceLogEntry → List DeviceLogEntry
unfolding sort
trim_entries device_id source es =
    elim (row_at (max_stored_per_source - 1)
      (sort is_later (select (is_entry_of device_id source) es))) [
        | none ↦ es
        | some cutoff ↦ select (λ x. not (is_entry_of device_id source x && ltb x.id cutoff.id)) es
      ]

-- The counts that `accept` returns.
pub record LogReceipt : Type 0 where
  pub source : String
  pub accepted : ℕ
  pub duplicates : ℕ
  pub received_at : Time

-- `accept` for a device that is authenticated and not limited.
unfoldable pub accept_upload : Time → LogUpload → ℕ → Db → Result (LogReceipt × Db)
unfolding add_entries existing put_source trim_entries
accept_upload now upload device_id db =
    let known = existing device_id upload.entries db.log_entries in
    do
      added ← add_entries now device_id upload.source upload.entries known db
      let accepted = length added.0 - length known in
          let db1 = added.1 in
          ok (
            record {
              source = upload.source;
              accepted = accepted;
              duplicates = length upload.entries - accepted;
              received_at = now;
            },
            record db1 {
              log_sources = put_source now device_id upload db1.log_sources;
              log_entries = trim_entries device_id upload.source db1.log_entries;
            },
          )

-- `allowed` is the rate limiter's answer.
unfoldable pub accept : Env → (ℕ → Bool) → Time → LogUpload → String → Db → Result (LogReceipt × Db)
unfolding authenticate_token accept_upload
accept env allowed now upload token db = do
  device ← authenticate_token env now token db
  ensure rate_limited (allowed device.id) (accept_upload now upload device.id db)

-- Older than the days of retention.
abbrev pub is_stale : ℕ → Time → Time → Bool
is_stale retention_days now t = ltb (t + hours (24 * retention_days)) now

abbrev pub is_older : DeviceLogEntry → DeviceLogEntry → Bool
is_older a b = ltb a.received_at b.received_at || (a.received_at == b.received_at && ltb a.id b.id)

abbrev pub is_older_source : DeviceLogSource → DeviceLogSource → Bool
is_older_source a b =
    ltb a.checked_at b.checked_at
    || (a.checked_at == b.checked_at
        && (ltb a.device_id b.device_id
            || (a.device_id == b.device_id && text_le a.source b.source)))

unfoldable pub prune_expired : ℕ → Time → Db → Result ((ℕ × ℕ) × Db)
unfolding sort
prune_expired retention_days now db =
    let old = take retention_batch_size (
      sort is_older (
        select (λ (e : DeviceLogEntry). is_stale retention_days now e.received_at)
          db.log_entries)) in
    let old_sources = take retention_batch_size (
      sort is_older_source (
        select (λ (s : DeviceLogSource). is_stale retention_days now s.checked_at)
          db.log_sources)) in
    ensure value_error (leb 1 retention_days && leb retention_days 365) (
      ok (
        (length old, length old_sources),
        record db {
          log_entries =
              select (λ e. not (any (λ (x : DeviceLogEntry). x.id == e.id) old)) db.log_entries;
          log_sources =
              select
                (λ s. not (
                  any (λ (x : DeviceLogSource). is_source x.device_id x.source s) old_sources
                  && is_stale retention_days now s.checked_at))
                db.log_sources;
        },
      ))
