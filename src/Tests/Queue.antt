-- ===== src/Tests/Queue.antt =====
-- The notification queue at the samples.
use skybeat.Base.{
  [], ◌∷◌, some, none, refl, ◌≡◌, arith, find?, ◌+◌, ◌*◌, ◌≤◌, false, String, List, map, any, min,
  ◌^◌, update_where,
}
use skybeat.Store.{Db, Result, ok}
use skybeat.Store.Kinds.{
  accepted, permanent_failure, device_offline, device_recovered, online, email, pending, succeeded,
}
use skybeat.Store.Rows.{Delivery, availability_details}
use skybeat.Notifications.Delivery.{ProviderResult, Jitter, pos, retry_delay, result_row}
use skybeat.Notifications.Delivery.Retry.{retry_delay_bounds}
use skybeat.Notifications.Queue.{QueueStep, QueueStep-refl}
use skybeat.Notifications.Service.{
  DeliveryMessage, ClaimedDelivery, Locked, claim_due, record_result, recover_stuck, find_delivery,
  write_result, World, single, process_due,
}
use skybeat.Notifications.Service.Claiming.{Claimed}
use skybeat.Notifications.Service.Claims.{claim_due-Claimed}
use skybeat.Notifications.Service.Settling.{recover_stuck-QueueStep}
use skybeat.Notifications.Service.Recording.{Settles, record_result-Settles}
use skybeat.Notifications.Service.Worker.{IsFriendly, process_due-QueueStep}
use skybeat.Alerts.Events.{
  Recipient, sms_recipient, add_event, new_delivery, add_delivery, add_deliveries, create_event,
}
use skybeat.Alerts.Recipients.{
  snapshot_device_email_recipients, snapshot_project_email_recipients, resolve_email_recipients,
  select_email_policy, normalized, normalize_all,
}
use skybeat.Users.Email.{normalize_email}
use skybeat.Base.Order.{sort}
use skybeat.Alerts.Events.Sending.{Sends, create_event-Sends}
use skybeat.Tests.Identity.{value_of}
use skybeat.Tests.Samples.{sample_env, sample_db, sample_db-IsQueue, device_9, incident_1}

abbrev nothing_locked : Locked
nothing_locked id = false

claim_due-Claimed_example : Claimed sample_db (claim_due sample_env nothing_locked 100 2 sample_db)
claim_due-Claimed_example =
    claim_due-Claimed sample_env nothing_locked 100 2 sample_db (omega arith) (omega arith)
      sample_db-IsQueue

abbrev message : DeliveryMessage
message = record {
  delivery_uuid = "delivery-4";
  destination = "b@example.org";
  event_kind = device_offline;
  project_name = "Lab";
  device_name = "host";
  incident_uuid = "incident";
  occurred_at = 10;
  opened_at = 10;
  closed_at = none;
}

abbrev claim_4 : ClaimedDelivery
claim_4 = record {
  delivery_id = 4;
  attempt_no = 1;
  lease_token = "token-0";
  channel = email;
  message = message;
}

abbrev sent : ProviderResult
sent = record { outcome = accepted; error_category = none; provider_message_id = some "m-1" }

abbrev refused : ProviderResult
refused = record {
  outcome = permanent_failure;
  error_category = some "refused";
  provider_message_id = none;
}

abbrev no_jitter : Jitter
no_jitter base = pos 0

record_result-Settles_example :
    Settles claim_4 sample_db (record_result no_jitter 40 claim_4 sent sample_db)
record_result-Settles_example =
    record_result-Settles no_jitter 40 claim_4 sent sample_db sample_db-IsQueue

abbrev settled_db : Db
settled_db = value_of (record_result no_jitter 40 claim_4 sent sample_db) sample_db

settled_status : map (λ (d : Delivery). d.status) settled_db.deliveries ≡ pending ∷ succeeded ∷ []
unfolding record_result find_delivery write_result find? update_where result_row
settled_status = refl

recover_stuck-QueueStep_example : QueueStep sample_db (recover_stuck nothing_locked 60 sample_db)
recover_stuck-QueueStep_example =
    recover_stuck-QueueStep nothing_locked 60 sample_db sample_db-IsQueue

abbrev quiet_world : World
quiet_world = record { clock = λ k. 100 + k; locked = λ k. nothing_locked; others = λ k db. db }

quiet_world-IsFriendly : IsFriendly quiet_world
quiet_world-IsFriendly k db q = QueueStep-refl q

process_due-QueueStep_example :
    QueueStep sample_db
      (process_due sample_env quiet_world no_jitter (single (λ m. some sent)) 4 sample_db).1
process_due-QueueStep_example =
    process_due-QueueStep sample_env quiet_world no_jitter (single (λ m. some sent)) 4 sample_db
      (omega arith) (omega arith) quiet_world-IsFriendly sample_db-IsQueue

retry_delay_bounds_example :
    (retry_delay no_jitter 3 ≡ min (15 * 60 * 1000000) (min (30 * 2 ^ 2) (15 * 60) * 1000000 + 0))
    × (min (30 * 2 ^ 2) (15 * 60) * 1000000 ≤ retry_delay no_jitter 3)
    × (retry_delay no_jitter 3 * 10 ≤ min (30 * 2 ^ 2) (15 * 60) * 1000000 * 11)
    × (retry_delay no_jitter 3 ≤ 15 * 60 * 1000000)
retry_delay_bounds_example = retry_delay_bounds no_jitter 2 0 refl (omega arith)

abbrev ops : List String
ops = "ops@example.org" ∷ []

abbrev on_call : List Recipient
on_call = sms_recipient "+3612345678" ∷ []

abbrev recovery : Db → Result Db
recovery =
    create_event sample_env ops on_call incident_1 device_9 device_recovered
      (availability_details online) 200

abbrev recovered_db : Db
recovered_db = value_of (recovery sample_db) sample_db

-- The alert is committed, and has two recipients.
recovers : recovery sample_db ≡ ok recovered_db
unfolding create_event find? any add_event snapshot_device_email_recipients
    snapshot_project_email_recipients resolve_email_recipients select_email_policy normalized
    normalize_all normalize_email add_deliveries sort add_delivery new_delivery
recovers = refl

recovery_targets :
    map (λ (d : Delivery). d.destination_snapshot) recovered_db.deliveries
    ≡ "a@example.org" ∷ "b@example.org" ∷ "ops@example.org" ∷ "+3612345678" ∷ []
unfolding create_event find? any add_event snapshot_device_email_recipients
    snapshot_project_email_recipients resolve_email_recipients select_email_policy normalized
    normalize_all normalize_email add_deliveries sort add_delivery new_delivery
recovery_targets = refl

create_event-Sends_example :
    Sends sample_env ops on_call incident_1 device_9 device_recovered 200 sample_db recovered_db
create_event-Sends_example =
    create_event-Sends sample_env ops on_call incident_1 device_9 device_recovered
      (availability_details online) 200 sample_db recovered_db recovers
