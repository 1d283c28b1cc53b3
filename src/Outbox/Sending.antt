-- ===== src/Outbox/Sending.antt =====
-- alert_notifications.go: the updates of a notification that is being sent.
use ithiltir.Shared.{◌+◌, Bool, true, false, not, ◌&&◌, Option, none, some, List, [], ◌∷◌}
use ithiltir.Shared.Tests.{◌==◌, if◌then◌else◌, nat_eq}
use ithiltir.Shared.Int.{ℤ, int_eq}
use ithiltir.Shared.Text.{Text}
use ithiltir.Shared.Time.{Time, is_zero}
use ithiltir.Alert.Retry.{sending, sent, retry, blocked}
use ithiltir.Outbox.{
  Row, Result, ok, failed, state_changed, out_of_range, ◌>>◌, reject_if, update_where, find, exists,
  fits, status_eq,
}

-- alertstore.NotificationFailure
pub record StoredFailure : Type 0 where
  pub id : ℤ
  pub channel_id : ℤ
  pub channel_revision : ℤ
  pub code : Text
  pub last_error : Text
  pub failed_at : Time
  pub next_attempt_at : Time

abbrev pub is_sending : ℤ → ℤ → Row → Bool
is_sending id channel_id r = r.id == id && r.channel_id == channel_id && r.status == sending

abbrev pub counts_fit : List Row → Bool
counts_fit [] = true
counts_fit (r ∷ rows) = fits r.attempt_count && fits r.probe_count && counts_fit rows

-- A row keeps the marker of a probe only while it is in flight.
abbrev pub clear_probe : (Row → Row) → Row → Row
clear_probe updates r = record (updates r) { is_probe = false }

unfoldable pub update_sending_notification : ℤ → ℤ → (Row → Row) → List Row → Result (List Row)
update_sending_notification id channel_id updates rows =
    let next = update_where (is_sending id channel_id) (clear_probe updates) rows in
    do
      reject_if (not (exists (is_sending id channel_id) rows)) state_changed
      reject_if (not (counts_fit next)) out_of_range
      ok next

abbrev pub as_sent : Time → Row → Row
as_sent at r = record r {
  status = sent;
  sent_at = some at;
  attempt_count = r.attempt_count + 1;
  probe_count = 0;
  failure_code = none;
  last_error = none;
}

-- The state of a row that is not being sent any more.
unfoldable pub completion_state : Option Row → List Row → Result (Bool × List Row)
completion_state none rows = failed state_changed
completion_state (some r) rows = if r.status == sent then ok (false, rows) else failed state_changed

unfoldable pub marked : ℤ → ℤ → List Row → Result (List Row) → Result (Bool × List Row)
unfolding completion_state
marked id channel_id rows (ok next) = ok (true, next)
marked id channel_id rows (failed state_changed) =
    completion_state (find (λ (r : Row). r.id == id && r.channel_id == channel_id) rows) rows
marked id channel_id rows (failed e) = failed e

-- Whether the row has been marked, and the rows.
unfoldable pub mark_notification_sent : ℤ → ℤ → Time → List Row → Result (Bool × List Row)
unfolding marked update_sending_notification
mark_notification_sent id channel_id at rows =
    marked id channel_id rows (update_sending_notification id channel_id (as_sent at) rows)

abbrev pub as_released : Time → Row → Row
as_released at r = record r {
  status = if r.is_probe then blocked else retry;
  next_attempt_at = at;
  failure_code = if r.is_probe then r.failure_code else none;
  last_error = if r.is_probe then r.last_error else none;
  probe_count = if r.is_probe then r.probe_count else 0;
}

-- A zero time stands for the clock's.
abbrev pub or_clock : Time → Time → Time
or_clock clock at = if is_zero at then clock else at

unfoldable pub release_sending_notification : Time → ℤ → ℤ → Time → List Row → Result (List Row)
unfolding update_sending_notification
release_sending_notification clock id channel_id now rows =
    update_sending_notification id channel_id (as_released (or_clock clock now)) rows

abbrev pub as_retried : Time → Row → Row
as_retried at r = record r {
  status = retry;
  next_attempt_at = at;
  failure_code = none;
  last_error = none;
  probe_count = 0;
}

unfoldable pub retry_sending_notification : Time → ℤ → ℤ → Time → List Row → Result (List Row)
unfolding update_sending_notification
retry_sending_notification clock id channel_id now rows =
    update_sending_notification id channel_id (as_retried (or_clock clock now)) rows
