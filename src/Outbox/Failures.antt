-- ===== src/Outbox/Failures.antt =====
-- alert_notifications.go: what becomes of a notification that could not be delivered.
use ithiltir.Shared.{◌+◌, Bool, true, false, not, ◌&&◌, Option, none, some, List, [], ◌∷◌}
use ithiltir.Shared.Tests.{◌==◌, if◌then◌else◌, nat_eq}
use ithiltir.Shared.Int.{pos, int_eq, leb_ℤ}
use ithiltir.Shared.Text.{codes}
use ithiltir.Shared.Time.{Time, is_zero}
use ithiltir.Alert.Retry.{OutboxStatus, pending, retry, blocked, paused, discarded}
use ithiltir.Outbox.{
  Row, Channel, Store, Result, ok, invalid_revision, ◌>>=◌, ◌>>◌, reject_if, update_where,
  empty_to_nil, is_queued, status_eq,
}
use ithiltir.Outbox.Sending.{
  StoredFailure, or_clock, retry_sending_notification, update_sending_notification,
}
use ithiltir.Outbox.Deliver.{channel_version_changed, lock_delivery_channel, record_channel_failure}

-- The updates of notificationFailureUpdates.
unfoldable pub notification_failure_updates : StoredFailure → OutboxStatus → Row → Row
unfolding empty_to_nil
notification_failure_updates failure status r = record r {
  status = status;
  failure_code = empty_to_nil failure.code;
  last_error = empty_to_nil failure.last_error;
  probe_count = if status == blocked then r.probe_count else 0;
  next_attempt_at =
      if is_zero failure.next_attempt_at then r.next_attempt_at else failure.next_attempt_at;
}

abbrev pub as_deleted : Row → Row
as_deleted r = record r {
  status = discarded;
  failure_code = some (codes "channel_deleted");
  last_error = some (codes "notification channel deleted");
  probe_count = 0;
}

abbrev pub as_disabled : Row → Row
as_disabled r = record r {
  status = paused;
  failure_code = some (codes "channel_disabled");
  last_error = none;
  probe_count = 0;
}

-- The rows that PauseNotification leaves, by the channel.
unfoldable pub paused_rows : Time → StoredFailure → Channel → List Row → Result (List Row)
unfolding update_sending_notification retry_sending_notification notification_failure_updates
paused_rows clock failure channel rows =
    if channel.is_deleted
    then update_sending_notification failure.id failure.channel_id as_deleted rows
    else if channel.enabled
    then retry_sending_notification clock failure.id failure.channel_id failure.failed_at rows
    else update_sending_notification failure.id failure.channel_id
        (notification_failure_updates failure paused) rows

unfoldable pub pause_notification : Time → StoredFailure → Store → Result Store
unfolding paused_rows
pause_notification clock failure s = do
  channel ← lock_delivery_channel failure.channel_id s.channels
  rows ← paused_rows clock failure channel s.rows
  ok (record s { rows = rows })

unfoldable pub discarded_rows : Time → StoredFailure → Channel → List Row → Result (List Row)
unfolding update_sending_notification retry_sending_notification notification_failure_updates
    channel_version_changed
discarded_rows clock failure channel rows =
    if not channel.is_deleted && channel_version_changed channel failure.channel_revision
    then retry_sending_notification clock failure.id failure.channel_id failure.failed_at rows
    else update_sending_notification failure.id failure.channel_id
        (notification_failure_updates failure discarded) rows

unfoldable pub discard_notification : Time → StoredFailure → Store → Result Store
unfolding discarded_rows
discard_notification clock failure s = do
  channel ← lock_delivery_channel failure.channel_id s.channels
  rows ← discarded_rows clock failure channel s.rows
  ok (record s { rows = rows })

-- The updates of a failure that counts.
unfoldable pub counted_failure : StoredFailure → OutboxStatus → Row → Row
unfolding notification_failure_updates
counted_failure failure status r = record (notification_failure_updates failure status r) {
  attempt_count = r.attempt_count + 1;
  probe_count = if status == blocked then r.probe_count + 1 else 0;
}

abbrev pub as_coalesced : StoredFailure → Row → Row
as_coalesced failure r = record r {
  status = blocked;
  is_probe = false;
  next_attempt_at = failure.next_attempt_at;
  failure_code = empty_to_nil failure.code;
  last_error = empty_to_nil failure.last_error;
  probe_count = 0;
}

abbrev pub as_postponed : Time → Row → Row
as_postponed at r = record r { next_attempt_at = at }

-- Blocks what is queued for the channel, and puts all of it off to the next probe.
unfoldable pub coalesce_queued : StoredFailure → List Row → List Row
coalesce_queued failure rows =
    update_where (is_queued failure.channel_id (blocked ∷ []))
      (as_postponed failure.next_attempt_at)
      (update_where (is_queued failure.channel_id (pending ∷ retry ∷ [])) (as_coalesced failure)
        rows)

unfoldable pub count_failure : StoredFailure → OutboxStatus → Bool → Store → Result Store
unfolding update_sending_notification counted_failure coalesce_queued record_channel_failure
count_failure failure status coalesce s = do
  rows ←
      update_sending_notification failure.id failure.channel_id (counted_failure failure status)
        s.rows
  channels ←
      record_channel_failure failure.channel_id failure.code failure.last_error failure.failed_at
        s.channels
  ok (record s {
    rows = if coalesce then coalesce_queued failure rows else rows;
    channels = channels;
  })

-- The rows where the channel does not take the failure: none where it takes it.
unfoldable pub uncounted_rows :
    Time → StoredFailure → Channel → List Row → Option (Result (List Row))
unfolding update_sending_notification retry_sending_notification channel_version_changed
uncounted_rows clock failure channel rows =
    if channel.is_deleted
    then some (update_sending_notification failure.id failure.channel_id as_deleted rows)
    else if not channel.enabled
    then some (update_sending_notification failure.id failure.channel_id as_disabled rows)
    else if channel_version_changed channel failure.channel_revision
    then some
        (retry_sending_notification clock failure.id failure.channel_id failure.failed_at rows)
    else none

unfoldable pub failed_by :
    Option (Result (List Row)) → StoredFailure → OutboxStatus → Bool → Store → Result Store
unfolding count_failure
failed_by none failure status coalesce s = count_failure failure status coalesce s
failed_by (some result) failure status coalesce s = do rows ← result; ok (record s { rows = rows })

unfoldable pub record_notification_failure :
    Time → StoredFailure → OutboxStatus → Bool → Store → Result Store
unfolding failed_by uncounted_rows
record_notification_failure clock failure status coalesce s =
    let dated = record failure { failed_at = or_clock clock failure.failed_at } in
    do
      reject_if (leb_ℤ failure.channel_revision (pos 0)) invalid_revision
      channel ← lock_delivery_channel failure.channel_id s.channels
      failed_by (uncounted_rows clock dated channel s.rows) dated status coalesce s

unfoldable pub retry_notification : Time → StoredFailure → Store → Result Store
unfolding record_notification_failure
retry_notification clock failure s = record_notification_failure clock failure retry false s

unfoldable pub block_notification : Time → StoredFailure → Store → Result Store
unfolding record_notification_failure
block_notification clock failure s = record_notification_failure clock failure blocked true s
