-- ===== src/Alert/Retry/Delays.antt =====
-- When a failed notification is tried again.
use ithiltir.Shared.{
  ℕ, zero, suc, ◌+◌, ◌*◌, ◌-◌, ◌^◌, ◌≤◌, ◌≡◌, refl, ◌⊎◌, inl, inr, min, Bool, true, false, arith,
}
use ithiltir.Shared.Tests.{nat_eq}
use ithiltir.Shared.Int.{ℤ, pos, negsuc, pos_part}
use ithiltir.Shared.Time.{Time, nanos}
use ithiltir.Alert.Retry.{
  OutboxStatus, pending, sending, sent, retry, blocked, paused, discarded, wrap32, shift_of,
  notification_retry_delay, notification_blocked_delay, notification_failure_status, OutboxItem,
  NotificationFailure, FailureWrite, retry_at, block_at, pause, discard, unsupported, next_attempt,
  fail_with, fail_notification,
}

power_suc : (n : ℕ) → 2 ^ suc n ≡ 2 * 2 ^ n
power_suc n = omega arith

power_mono : (n m : ℕ) → 2 ^ n ≤ 2 ^ (n + m)
power_mono n zero = grind arith
power_mono n (suc m) =
    let shift : n + suc m ≡ suc (n + m) = omega arith in
    rw shift (omega (arith, power_mono n m, power_suc (n + m)))

power_le : (n j : ℕ) → n ≤ j → 2 ^ n ≤ 2 ^ j
power_le n j h = let sum : n + (j - n) ≡ j = omega arith in rw sum at (power_mono n (j - n))

power_bounds : (n : ℕ) → (1 ≤ 2 ^ min n 6) × (2 ^ min n 6 ≤ 64)
power_bounds n = (power_le 0 (min n 6) (omega arith), power_le (min n 6) 6 (omega arith))

-- A time that is late enough for both the delay and the wait that the channel asks for, and not later
-- than the greatest delay unless the channel asks for it.
abbrev pub NextAttempt : Time → ℕ → ℕ → ℤ → Time → Type 0
NextAttempt failed_at least most retry_after t =
    (failed_at + least ≤ t)
    × (failed_at + pos_part retry_after ≤ t)
    × ((t ≤ failed_at + most) ⊎ (t ≡ failed_at + pos_part retry_after))

next_attempt-NextAttempt :
    (failed_at delay least most : ℕ) (retry_after : ℤ)
    → least ≤ delay
    → delay ≤ most
    → NextAttempt failed_at least most retry_after (next_attempt failed_at delay retry_after)
next_attempt-NextAttempt failed_at delay least most (pos n) l m = ground arith
next_attempt-NextAttempt failed_at delay least most (negsuc n) l m = ground arith

retry_bounds :
    (attempt : ℤ)
    → (5 * nanos ≤ notification_retry_delay attempt)
      × (notification_retry_delay attempt ≤ 320 * nanos)
unfolding notification_retry_delay
retry_bounds attempt =
    let (l, m) = power_bounds (shift_of attempt) in (omega (arith, l), omega (arith, m))

blocked_bounds :
    (n : ℕ)
    → (300 * nanos ≤ notification_blocked_delay (pos n))
      × (notification_blocked_delay (pos n) ≤ 3_600 * nanos)
unfolding notification_blocked_delay
blocked_bounds n = ground arith

-- What a write stands for.
abbrev pub Scheduled : OutboxItem → NotificationFailure → Time → FailureWrite → Type 0
Scheduled item failure failed_at (retry_at t) =
    (item.is_probe ≡ false)
    × (failure.status ≡ retry)
    × NextAttempt failed_at (5 * nanos) (320 * nanos) failure.retry_after t
Scheduled item failure failed_at (block_at t) =
    ((failure.status ≡ blocked) ⊎ ((failure.status ≡ retry) × (item.is_probe ≡ true)))
    × NextAttempt failed_at (300 * nanos) (3_600 * nanos) failure.retry_after t
Scheduled item failure failed_at pause = failure.status ≡ paused
Scheduled item failure failed_at discard = failure.status ≡ discarded
Scheduled item failure failed_at unsupported =
    (failure.status ≡ pending) ⊎ ((failure.status ≡ sending) ⊎ (failure.status ≡ sent))

retry_at-NextAttempt :
    (item : OutboxItem) (retry_after : ℤ) (failed_at : Time)
    → NextAttempt failed_at (5 * nanos) (320 * nanos) retry_after (
        next_attempt failed_at
          (notification_retry_delay (wrap32 (item.attempt_count + 1)))
          retry_after)
retry_at-NextAttempt item retry_after failed_at =
    let (l, m) = retry_bounds (wrap32 (item.attempt_count + 1)) in
    next_attempt-NextAttempt failed_at _ (5 * nanos) (320 * nanos) retry_after l m

block_at-NextAttempt :
    (item : OutboxItem) (retry_after : ℤ) (failed_at : Time)
    → NextAttempt failed_at
        (300 * nanos)
        (3_600 * nanos)
        retry_after
        (next_attempt failed_at (notification_blocked_delay (pos item.probe_count)) retry_after)
block_at-NextAttempt item retry_after failed_at =
    let (l, m) = blocked_bounds item.probe_count in
    next_attempt-NextAttempt failed_at _ (300 * nanos) (3_600 * nanos) retry_after l m

-- After a failure an item that is no probe is tried again 5 to 320 seconds later, and one that is
-- blocked, or a probe that would be tried again, 5 to 60 minutes later, or after the longer time that
-- the channel asks for; other failures pause or discard the item, and no other status is accepted.
pub fail_notification-Scheduled :
    (item : OutboxItem) (failure : NotificationFailure) (failed_at : Time)
    → Scheduled item failure failed_at (fail_notification item failure failed_at)
unfolding fail_notification notification_failure_status fail_with
fail_notification-Scheduled item failure failed_at = go item.is_probe failure.status refl refl
  where
    go :
        (probe : Bool) (status : OutboxStatus)
        → item.is_probe ≡ probe
        → failure.status ≡ status
        → Scheduled item failure failed_at (
            fail_with item (notification_failure_status probe status) failure.retry_after failed_at)
    go true retry p s = (inr (s, p), block_at-NextAttempt item failure.retry_after failed_at)
    go false retry p s = (p, s, retry_at-NextAttempt item failure.retry_after failed_at)
    go true blocked p s = (inl s, block_at-NextAttempt item failure.retry_after failed_at)
    go false blocked p s = (inl s, block_at-NextAttempt item failure.retry_after failed_at)
    go true paused p s = s
    go false paused p s = s
    go true discarded p s = s
    go false discarded p s = s
    go true pending p s = inl s
    go false pending p s = inl s
    go true sending p s = inr (inl s)
    go false sending p s = inr (inl s)
    go true sent p s = inr (inr s)
    go false sent p s = inr (inr s)
