-- ===== src/Tests/Records.antt =====
-- Log entries and notification settings at the samples.
use Prim.Native.Char.{char}
use skybeat.Logs.Cursor.{
  Fields, Codec, LogFilter, text, integer, null, payload, encode_log_cursor, decode_log_cursor,
}
use skybeat.Logs.Cursor.RoundTrip.{IsFaithful, decode_log_cursor-encode}
use skybeat.Base.{
  refl, zero, suc, sym, ap, ◌∙◌, ℕ, ◌-◌, ◌≡◌, not, [], ◌∷◌, none, some, true, false, String, List,
  any, count, find?, select, arith, if◌then◌else◌, update_where,
}
use skybeat.Base.Order.{insert}
use skybeat.Store.{raise, value_error, Db, ok, ◌>>=◌}
use skybeat.Store.Kinds.{gpu_degraded}
use skybeat.Store.Rows.{DeviceLogEntry}
use skybeat.Alerts.Recipients.{
  enabled_for, normalized, snapshot_device_email_recipients, snapshot_project_email_recipients,
}
use skybeat.Devices.Credentials.{text_length, split_dot, push_front, parse_credential}
use skybeat.Logs.Service.{LogUpload, LogReceipt, accept, is_stale, prune_expired}
use skybeat.Logs.Service.Bound.{IsLogged, accept-IsLogged}
use skybeat.Logs.Service.Retention.{prune_expired-deletes}
use skybeat.Notifications.Management.{UpdateRequest, find_device, update_device, reset_device}
use skybeat.Notifications.Management.Override.{
  update_device_then_snapshot, reset_device_then_snapshot,
}
use skybeat.Users.Accounts.{new_user}
use skybeat.Store.Kinds
use skybeat.Tests.Samples.{sample_env, sample_db, sample_token, device_7, project_1}
use skybeat.Tests.Identity.{value_of}

abbrev entry : ℕ → String → DeviceLogEntry
entry id hash = record {
  id = id;
  device_id = 7;
  source = "kernel";
  entry_hash = hash;
  occurred_at = none;
  received_at = 0;
  severity = none;
  message = "started";
}

abbrev stored_db : Db
stored_db = record sample_db { log_entries = entry 1 "h1" ∷ []; next_log_entry = 2 }

stored_db-IsLogged : IsLogged stored_db.log_entries stored_db.next_log_entry
unfolding count
stored_db-IsLogged = record {
  distinct = (tt, tt);
  below = (omega arith, tt);
  few = λ k s. ground arith;
}

-- One entry that is known, and one that is new.
abbrev upload : LogUpload
upload = record {
  source = "kernel";
  status = "available";
  entries =
      record { entry_id = "h1"; occurred_at = none; severity = none; message = "started" }
      ∷ record { entry_id = "h2"; occurred_at = some 5; severity = none; message = "stopped" }
      ∷ [];
}

abbrev no_receipt : LogReceipt
no_receipt = record { source = ""; accepted = 0; duplicates = 0; received_at = 0 }

abbrev accepted : LogReceipt × Db
accepted =
    value_of (accept sample_env (λ _. true) 9 upload sample_token stored_db) (no_receipt, stored_db)

accepts :
    accept sample_env (λ _. true) 9 upload sample_token stored_db ≡ ok (accepted.0, accepted.1)
unfolding accept split_dot push_front text_length find? any select insert update_where
    parse_credential
accepts = refl

-- One of the two is new.
accepted_one : accepted.0.accepted ≡ 1
unfolding accept split_dot push_front text_length find? any select insert update_where
    parse_credential
accepted_one = refl

accept-IsLogged_example : IsLogged accepted.1.log_entries accepted.1.next_log_entry
accept-IsLogged_example =
    accept-IsLogged sample_env (λ _. true) 9 upload sample_token stored_db accepted.1 accepted.0
      stored_db-IsLogged accepts

abbrev pruned : (ℕ × ℕ) × Db
pruned = value_of (prune_expired 1 100000000000 stored_db) ((0, 0), stored_db)

prunes : prune_expired 1 100000000000 stored_db ≡ ok (pruned.0, pruned.1)
unfolding prune_expired select insert any
prunes = refl

prune_expired-deletes_example :
    (select
        (λ (e : DeviceLogEntry). not (is_stale 1 100000000000 e.received_at))
        pruned.1.log_entries
      ≡ select (λ e. not (is_stale 1 100000000000 e.received_at)) stored_db.log_entries)
    × (count (λ (e : DeviceLogEntry). is_stale 1 100000000000 e.received_at) pruned.1.log_entries
        ≡ count (λ e. is_stale 1 100000000000 e.received_at) stored_db.log_entries - 500)
prune_expired-deletes_example =
    prune_expired-deletes 1 100000000000 stored_db pruned.1 pruned.0 (tt, tt) prunes

abbrev request : UpdateRequest
request = record {
  recipients = "a@b" ∷ [];
  settings = record {
    device_offline_enabled = true;
    device_recovered_enabled = true;
    gpu_degraded_enabled = true;
    gpu_recovered_enabled = false;
  };
}

abbrev staffed_db : Db
staffed_db = record sample_db { users = new_user 1 "a@b" none Kinds.user 0 ∷ []; next_user = 2 }

finds : find_device "p-1" "device-7" staffed_db ≡ ok (project_1, device_7)
unfolding find_device find?
finds = refl

abbrev updated_db : Db
updated_db =
    value_of (update_device sample_env "owner" 5 "p-1" "device-7" request staffed_db) staffed_db

updates : update_device sample_env "owner" 5 "p-1" "device-7" request staffed_db ≡ ok updated_db
unfolding update_device find? any select update_where
updates = refl

update_device_then_snapshot_example :
    snapshot_device_email_recipients sample_env 7 1 gpu_degraded [] updated_db ≡ (
      normalized sample_env request.recipients >>= λ (rs : List String).
      ok (if enabled_for request.settings gpu_degraded then rs else []))
update_device_then_snapshot_example =
    update_device_then_snapshot sample_env "owner" 5 "p-1" "device-7" request project_1 device_7 1
      gpu_degraded [] staffed_db updated_db finds updates

finds_again : find_device "p-1" "device-7" updated_db ≡ ok (project_1, device_7)
unfolding update_device find_device find? any select update_where
finds_again = refl

abbrev reset_db : Db
reset_db = value_of (reset_device "owner" 6 "p-1" "device-7" updated_db) updated_db

resets : reset_device "owner" 6 "p-1" "device-7" updated_db ≡ ok reset_db
unfolding update_device reset_device find? any select update_where
resets = refl

reset_device_then_snapshot_example :
    snapshot_device_email_recipients sample_env 7 1 gpu_degraded ("c@d" ∷ []) reset_db
    ≡ snapshot_project_email_recipients sample_env 1 gpu_degraded ("c@d" ∷ []) updated_db
reset_device_then_snapshot_example =
    reset_device_then_snapshot sample_env "owner" 6 "p-1" "device-7" project_1 device_7 1
      gpu_degraded ("c@d" ∷ []) updated_db reset_db finds_again resets

unfoldable unary : ℕ → String
unary zero = ""
unary (suc n) = String.◌∷◌ (char 120 tt) (unary n)

text_length-unary : (n : ℕ) → text_length (unary n) ≡ n
unfolding text_length unary
text_length-unary zero = refl
text_length-unary (suc n) = omega (arith, text_length-unary n)

abbrev newest : LogFilter
newest = record {
  device_uuid = "device-7";
  source = some "kernel";
  from_time = none;
  until = some 5;
  direction = "newest";
  q = none;
  time_basis = "received";
}

-- The payload of row 4 of that query, written out.
abbrev payload_4 : Fields
payload_4 =
    ("device", text "device-7")
    ∷ ("direction", text "newest")
    ∷ ("from", null)
    ∷ ("id", integer 4)
    ∷ ("source", text "kernel")
    ∷ ("until", text (unary 5))
    ∷ ("v", integer 1)
    ∷ []

abbrev codec : Codec
codec = record { dumps = λ _. "cursor"; loads = λ _. some (some payload_4); isoformat = unary }

codec-IsFaithful : IsFaithful codec
codec-IsFaithful = λ s t same. sym (text_length-unary s) ∙ ap text_length same ∙ text_length-unary t

reads : codec.loads (codec.dumps (payload codec 4 newest)) ≡ some (some (payload codec 4 newest))
unfolding payload
reads = refl

made : encode_log_cursor codec 4 newest ≡ ok "cursor"
unfolding encode_log_cursor
made = refl

decode_log_cursor-encode_example :
    decode_log_cursor codec "cursor" (record newest { q = some "disk" }) ≡ raise value_error
decode_log_cursor-encode_example =
    decode_log_cursor-encode codec 4 newest (record newest { q = some "disk" }) "cursor"
      codec-IsFaithful reads (omega arith) (omega arith) refl made refl
      (unfold text_length in omega arith)
