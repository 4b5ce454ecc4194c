-- ===== src/Notifications/Delivery/Lifecycle.antt =====
-- The life of one delivery: what is true of a row in each status, and how a row may change.
use skybeat.Base.{◌≤◌, ◌<◌, String, ◌≡◌, true, false, none, arith, is_some}
use skybeat.Store.Kinds.{
  Status, pending, in_progress, retry_wait, cancelled, is_waiting, is_open, is_in_progress,
}
use skybeat.Store.Rows.{Time, Delivery}
use skybeat.Notifications.Delivery.{
  ProviderResult, Jitter, max_attempts, claim_row, expire_row, result_row, recover_row,
  supersede_row,
}

-- What holds of a delivery in each status.
abbrev pub SoundAt : Status → Delivery → Type 0
SoundAt pending d =
    (is_some d.next_attempt_at ≡ true)
    × (d.lease_token ≡ none)
    × (d.lease_expires_at ≡ none)
    × (d.superseded_at ≡ none)
    × (d.attempt_count ≡ 0)
SoundAt retry_wait d =
    (is_some d.next_attempt_at ≡ true)
    × (d.lease_token ≡ none)
    × (d.lease_expires_at ≡ none)
    × (d.superseded_at ≡ none)
    × (1 ≤ d.attempt_count)
    × (d.attempt_count < max_attempts)
SoundAt in_progress d =
    (is_some d.lease_token ≡ true)
    × (is_some d.lease_expires_at ≡ true)
    × (1 ≤ d.attempt_count)
    × (d.attempt_count ≤ max_attempts)
SoundAt cancelled d =
    (d.next_attempt_at ≡ none)
    × (d.lease_token ≡ none)
    × (d.lease_expires_at ≡ none)
    × (is_some d.superseded_at ≡ true)
    × (d.attempt_count ≤ max_attempts)
SoundAt _ d =
    (d.next_attempt_at ≡ none)
    × (d.lease_token ≡ none)
    × (d.lease_expires_at ≡ none)
    × (d.superseded_at ≡ none)
    × (d.attempt_count ≤ max_attempts)

abbrev pub IsSound : Delivery → Type 0
IsSound d = SoundAt d.status d

pub claim_row-IsSound :
    (now : Time) (token : String) (d : Delivery)
    → is_waiting d.status ≡ true
    → IsSound d
    → IsSound (claim_row now token d)
unfolding claim_row
claim_row-IsSound now token d w h = ground arith

pub expire_row-IsSound :
    (now : Time) (d : Delivery)
    → is_waiting d.status ≡ true
    → IsSound d
    → IsSound (expire_row now d)
unfolding expire_row
expire_row-IsSound now d w h = ground arith

pub result_row-IsSound :
    (jitter : Jitter) (now : Time) (r : ProviderResult) (d : Delivery)
    → is_in_progress d.status ≡ true
    → IsSound d
    → IsSound (result_row jitter now r d)
unfolding result_row
result_row-IsSound jitter now r d w h = ground arith

pub recover_row-IsSound :
    (now : Time) (d : Delivery)
    → is_in_progress d.status ≡ true
    → IsSound d
    → IsSound (recover_row now d)
unfolding recover_row
recover_row-IsSound now d w h = ground arith

pub supersede_row-IsSound :
    (now : Time) (d : Delivery)
    → is_open d.status ≡ true
    → IsSound d
    → IsSound (supersede_row now d)
unfolding supersede_row
supersede_row-IsSound now d w h = ground arith

-- How a later state of a row may differ from an earlier one.
pub record Advances (d e : Delivery) : Type 0 where
  pub same_id : e.id ≡ d.id
  pub same_event : e.event_id ≡ d.event_id
  pub same_channel : e.channel ≡ d.channel
  pub same_destination : e.destination_snapshot ≡ d.destination_snapshot
  pub same_deadline : e.expires_at ≡ d.expires_at
  pub counts_up : d.attempt_count ≤ e.attempt_count
  pub settled : is_open d.status ≡ false → e ≡ d
  pub never_pending_again : e.status ≡ pending → d.status ≡ pending
  pub superseded :
      is_some d.superseded_at ≡ true
      → (is_some e.superseded_at ≡ true) × (e.attempt_count ≡ d.attempt_count)

pub Advances-refl : (d : Delivery) → Advances d d
Advances-refl d = ground arith

pub Advances-trans : {d e f : Delivery} → Advances d e → Advances e f → Advances d f
Advances-trans {d} {e} {f} p q = ground arith

pub claim_row-Advances :
    (now : Time) (token : String) (d : Delivery)
    → is_waiting d.status ≡ true
    → IsSound d
    → Advances d (claim_row now token d)
unfolding claim_row
claim_row-Advances now token d w h = ground arith

pub expire_row-Advances :
    (now : Time) (d : Delivery) → is_waiting d.status ≡ true → Advances d (expire_row now d)
unfolding expire_row
expire_row-Advances now d w = ground arith

pub result_row-Advances :
    (jitter : Jitter) (now : Time) (r : ProviderResult) (d : Delivery)
    → is_in_progress d.status ≡ true
    → Advances d (result_row jitter now r d)
unfolding result_row
result_row-Advances jitter now r d w = ground arith

pub recover_row-Advances :
    (now : Time) (d : Delivery) → is_in_progress d.status ≡ true → Advances d (recover_row now d)
unfolding recover_row
recover_row-Advances now d w = ground arith

pub supersede_row-Advances :
    (now : Time) (d : Delivery) → is_open d.status ≡ true → Advances d (supersede_row now d)
unfolding supersede_row
supersede_row-Advances now d w = ground arith
