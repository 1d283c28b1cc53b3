-- ===== src/Alert/Retry.antt =====
-- internal/alert/service.go and service_notify.go: when a failed task or notification is tried again.
-- Durations are nanoseconds; what the outbox stores is the write that it is asked for.
pub mod Delays
use ithiltir.Shared.{
  ℕ, zero, suc, ◌+◌, ◌*◌, ◌-◌, ◌%◌, ◌^◌, min, Bool, true, false, ◌&&◌, ◌||◌, Option, none, some,
}
use ithiltir.Shared.Tests.{◌==◌, ltb, leb, if◌then◌else◌, nat_eq}
use ithiltir.Shared.Int.{ℤ, pos, negsuc, leb_ℤ}
use ithiltir.Shared.Time.{Time, nanos, add}

-- model.OutboxStatus
pub data OutboxStatus : Type 0 where
  pending sending sent retry blocked paused discarded : OutboxStatus

-- The result of int32 arithmetic.
abbrev pub wrap32 : ℕ → ℤ
wrap32 n = let m = n % 2 ^ 32 in if ltb m (2 ^ 31) then pos m else negsuc (2 ^ 32 - 1 - m)

-- A shift by a negative count panics: none.
unfoldable pub control_task_retry_delay : ℤ → Option ℕ
control_task_retry_delay (negsuc n) = none
control_task_retry_delay (pos attempt) = some (2 ^ min attempt 6 * nanos)

-- max(attempt - 1, 0)
abbrev pub shift_of : ℤ → ℕ
shift_of (negsuc n) = 0
shift_of (pos attempt) = attempt - 1

unfoldable pub notification_retry_delay : ℤ → ℕ
notification_retry_delay attempt = 5 * nanos * 2 ^ min (shift_of attempt) 6

unfoldable pub notification_blocked_delay : ℤ → ℕ
notification_blocked_delay (negsuc n) = 3_600 * nanos
notification_blocked_delay (pos blocked_count) =
    if blocked_count == 0
    then 300 * nanos
    else if blocked_count == 1
    then 900 * nanos
    else if blocked_count == 2
    then 1_800 * nanos
    else 3_600 * nanos

unfoldable pub notification_failure_status : Bool → OutboxStatus → OutboxStatus
notification_failure_status true retry = blocked
notification_failure_status _ status = status

-- What failNotification reads of an item of the outbox and of a failure.
pub record OutboxItem : Type 0 where
  pub is_probe : Bool
  pub attempt_count : ℕ
  pub probe_count : ℕ

pub record NotificationFailure : Type 0 where
  pub status : OutboxStatus
  pub retry_after : ℤ

-- RetryNotification and BlockNotification with their NextAttemptAt, PauseNotification,
-- DiscardNotification, and the error of any other status.
pub data FailureWrite : Type 0 where
  retry_at block_at : Time → FailureWrite
  pause discard unsupported : FailureWrite

-- failedAt.Add(max(delay, retryAfter))
abbrev pub next_attempt : Time → ℕ → ℤ → Time
next_attempt failed_at delay retry_after =
    add failed_at (if leb_ℤ retry_after (pos delay) then pos delay else retry_after)

fail_with : OutboxItem → OutboxStatus → ℤ → Time → FailureWrite
fail_with item retry retry_after failed_at = retry_at (
    next_attempt failed_at (notification_retry_delay (wrap32 (item.attempt_count + 1))) retry_after)
fail_with item blocked retry_after failed_at =
    block_at
      (next_attempt failed_at (notification_blocked_delay (pos item.probe_count)) retry_after)
fail_with item paused retry_after failed_at = pause
fail_with item discarded retry_after failed_at = discard
fail_with item pending retry_after failed_at = unsupported
fail_with item sending retry_after failed_at = unsupported
fail_with item sent retry_after failed_at = unsupported

unfoldable pub fail_notification : OutboxItem → NotificationFailure → Time → FailureWrite
unfolding fail_with
fail_notification item failure failed_at =
    fail_with item (notification_failure_status item.is_probe failure.status) failure.retry_after
      failed_at
