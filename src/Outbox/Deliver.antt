-- ===== src/Outbox/Deliver.antt =====
-- alert_notifications.go and notify_channels.go: a delivery that succeeded or is put back, and the health
-- of its channel.
use ithiltir.Shared.{◌+◌, Bool, true, false, not, ◌&&◌, ◌||◌, none, some, List, [], ◌∷◌}
use ithiltir.Shared.Tests.{◌==◌, if◌then◌else◌, nat_eq}
use ithiltir.Shared.Int.{ℤ, pos, int_eq, ltb_ℤ}
use ithiltir.Shared.Text.{Text}
use ithiltir.Shared.Time.{Time}
use ithiltir.Alert.Retry.{OutboxStatus, retry, blocked}
use ithiltir.Outbox.{
  Row, Channel, Store, Result, ok, out_of_range, ◌>>=◌, ◌>>◌, reject_if, update_where, find,
  or_not_found, fits, empty_to_nil, is_queued, status_eq,
}
use ithiltir.Outbox.Sending.{mark_notification_sent, release_sending_notification}

abbrev pub lock_delivery_channel : ℤ → List Channel → Result Channel
lock_delivery_channel id channels = or_not_found (find (λ (c : Channel). c.id == id) channels)

unfoldable pub channel_version_changed : Channel → ℤ → Bool
channel_version_changed channel observed =
    ltb_ℤ (pos 0) observed && not (pos channel.revision == observed)

abbrev pub is_live : ℤ → Channel → Bool
is_live id c = c.id == id && not c.is_deleted

unfoldable pub record_channel_success : ℤ → Time → List Channel → List Channel
record_channel_success id at channels =
    update_where (is_live id)
      (λ (c : Channel). record c {
        last_success_at = some at;
        consecutive_failures = 0;
        last_error_code = none;
        last_error = none;
      })
      channels

abbrev pub failures_fit : List Channel → Bool
failures_fit [] = true
failures_fit (c ∷ channels) = fits c.consecutive_failures && failures_fit channels

abbrev pub as_failing : Text → Text → Time → Channel → Channel
as_failing code message at c = record c {
  last_failure_at = some at;
  consecutive_failures = c.consecutive_failures + 1;
  last_error_code = empty_to_nil code;
  last_error = empty_to_nil message;
}

unfoldable pub record_channel_failure :
    ℤ → Text → Text → Time → List Channel → Result (List Channel)
unfolding empty_to_nil
record_channel_failure id code message at channels =
    let next = update_where (is_live id) (as_failing code message at) channels in
    do reject_if (not (failures_fit next)) out_of_range; ok next

abbrev pub as_woken : Time → Row → Row
as_woken now r = record r {
  status = retry;
  is_probe = false;
  attempt_count = 0;
  next_attempt_at = now;
  failure_code = none;
  last_error = none;
  probe_count = 0;
}

unfoldable pub wake_channel_notifications : ℤ → Time → List OutboxStatus → List Row → List Row
wake_channel_notifications id now statuses rows =
    update_where (is_queued id statuses) (as_woken now) rows

-- What CompleteNotification does with a channel once the row is marked.
unfoldable pub completed : ℤ → ℤ → Time → Channel → Store → Bool × List Row → Store
unfolding channel_version_changed record_channel_success wake_channel_notifications
completed channel_id revision at channel s (false, rows) = record s { rows = rows }
completed channel_id revision at channel s (true, rows) =
    if channel.is_deleted || channel_version_changed channel revision
    then record s { rows = rows }
    else record s {
      rows = wake_channel_notifications channel_id at (blocked ∷ []) rows;
      channels = record_channel_success channel_id at s.channels;
    }

unfoldable pub complete_notification : ℤ → ℤ → ℤ → Time → Store → Result Store
unfolding mark_notification_sent completed
complete_notification id channel_id revision at s = do
  channel ← lock_delivery_channel channel_id s.channels
  marking ← mark_notification_sent id channel_id at s.rows
  ok (completed channel_id revision at channel s marking)

unfoldable pub requeue_notification : Time → ℤ → ℤ → Time → Store → Result Store
unfolding release_sending_notification
requeue_notification clock id channel_id at s = do
  rows ← release_sending_notification clock id channel_id at s.rows
  ok (record s { rows = rows })
