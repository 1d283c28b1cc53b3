-- ===== src/Outbox/Errors.antt =====
-- What the results of a delivery meet that comes too late: the row is not being sent any more.
use ithiltir.Shared.{◌≡◌, refl, inl, inr, Bool, true, false, not, ◌&&◌, Option, none, some, List}
use ithiltir.Shared.Tests.{◌==◌, if◌then◌else◌, Bool-cases, nat_eq}
use ithiltir.Shared.Int.{ℤ, pos, int_eq, leb_ℤ}
use ithiltir.Shared.Time.{Time}
use ithiltir.Alert.Retry.{OutboxStatus, sent, retry, blocked, paused, discarded}
use ithiltir.Outbox.{
  Row, Channel, Store, Result, ok, failed, ◌>>=◌, ◌>>◌, reject_if, find, exists, state_changed,
  invalid_revision, status_eq,
}
use ithiltir.Outbox.Sending.{
  StoredFailure, is_sending, update_sending_notification, or_clock, retry_sending_notification,
  release_sending_notification, mark_notification_sent, marked, completion_state, as_sent,
  as_released, as_retried,
}
use ithiltir.Outbox.Deliver.{
  completed, complete_notification, lock_delivery_channel, channel_version_changed,
  requeue_notification,
}
use ithiltir.Outbox.Failures.{
  paused_rows, pause_notification, discarded_rows, discard_notification, counted_failure,
  count_failure, uncounted_rows, failed_by, record_notification_failure, retry_notification,
  block_notification, as_deleted, as_disabled, notification_failure_updates,
}

-- No row with the number is being sent on the channel.
abbrev pub IsLate : ℤ → ℤ → List Row → Type 0
IsLate id channel_id rows = exists (is_sending id channel_id) rows ≡ false

update_sending-late :
    (id channel_id : ℤ) (u : Row → Row) (rows : List Row)
    → IsLate id channel_id rows
    → update_sending_notification id channel_id u rows ≡ failed state_changed
unfolding update_sending_notification
update_sending-late id channel_id u rows h = rw h refl

retry_sending-late :
    (clock : Time) (id channel_id : ℤ) (now : Time) (rows : List Row)
    → IsLate id channel_id rows
    → retry_sending_notification clock id channel_id now rows ≡ failed state_changed
unfolding retry_sending_notification
retry_sending-late clock id channel_id now rows h =
    update_sending-late id channel_id (as_retried (or_clock clock now)) rows h

-- An error passes through what follows.
then_failed :
    {A B : Type 0} (m : Result A) (f : A → Result B)
    → m ≡ failed state_changed
    → (m >>= f) ≡ failed state_changed
then_failed m f h = rw h refl

module _ (clock : Time) (failure : StoredFailure) (channel : Channel) (rows : List Row)
    (late : IsLate failure.id failure.channel_id rows) where
  paused_rows-late : paused_rows clock failure channel rows ≡ failed state_changed
  unfolding paused_rows
  paused_rows-late = go channel.is_deleted channel.enabled
    where
      go :
          (b c : Bool)
          → (if b
              then update_sending_notification failure.id failure.channel_id as_deleted rows
              else if c
              then retry_sending_notification clock failure.id failure.channel_id failure.failed_at
                  rows
              else update_sending_notification failure.id failure.channel_id
                  (notification_failure_updates failure paused)
                  rows)
            ≡ failed state_changed
      go true c = update_sending-late failure.id failure.channel_id as_deleted rows late
      go false true =
          retry_sending-late clock failure.id failure.channel_id failure.failed_at rows late
      go false false =
          update_sending-late failure.id failure.channel_id
            (notification_failure_updates failure paused) rows late

  discarded_rows-late : discarded_rows clock failure channel rows ≡ failed state_changed
  unfolding discarded_rows
  discarded_rows-late =
      go (not channel.is_deleted && channel_version_changed channel failure.channel_revision)
    where
      go :
          (b : Bool)
          → (if b
              then retry_sending_notification clock failure.id failure.channel_id failure.failed_at
                  rows
              else update_sending_notification failure.id failure.channel_id
                  (notification_failure_updates failure discarded)
                  rows)
            ≡ failed state_changed
      go true = retry_sending-late clock failure.id failure.channel_id failure.failed_at rows late
      go false =
          update_sending-late failure.id failure.channel_id
            (notification_failure_updates failure discarded) rows late

counted-late :
    (failure : StoredFailure) (status : OutboxStatus) (coalesce : Bool) (s : Store)
    → IsLate failure.id failure.channel_id s.rows
    → count_failure failure status coalesce s ≡ failed state_changed
unfolding count_failure
counted-late failure status coalesce s late =
    then_failed _ _ (
      update_sending-late failure.id failure.channel_id (counted_failure failure status) s.rows
        late)

failed_by-late :
    (clock : Time) (failure : StoredFailure) (channel : Channel) (status : OutboxStatus)
    (coalesce : Bool) (s : Store)
    → IsLate failure.id failure.channel_id s.rows
    → failed_by (uncounted_rows clock failure channel s.rows) failure status coalesce s
      ≡ failed state_changed
unfolding failed_by uncounted_rows
failed_by-late clock failure channel status coalesce s late =
    go channel.is_deleted channel.enabled (channel_version_changed channel failure.channel_revision)
  where
    go :
        (b c d : Bool)
        → failed_by
            (if b
              then some
                  (update_sending_notification failure.id failure.channel_id as_deleted s.rows)
              else if not c
              then some
                  (update_sending_notification failure.id failure.channel_id as_disabled s.rows)
              else if d
              then some (
                  retry_sending_notification clock failure.id failure.channel_id failure.failed_at
                    s.rows)
              else none)
            failure
            status
            coalesce
            s
          ≡ failed state_changed
    go true c d =
        then_failed _ _ (update_sending-late failure.id failure.channel_id as_deleted s.rows late)
    go false false d =
        then_failed _ _ (update_sending-late failure.id failure.channel_id as_disabled s.rows late)
    go false true true =
        then_failed _ _
          (retry_sending-late clock failure.id failure.channel_id failure.failed_at s.rows late)
    go false true false = counted-late failure status coalesce s late

record_failure-late :
    (clock : Time) (failure : StoredFailure) (status : OutboxStatus) (coalesce : Bool) (s : Store)
    (channel : Channel)
    → lock_delivery_channel failure.channel_id s.channels ≡ ok channel
    → IsLate failure.id failure.channel_id s.rows
    → record_notification_failure clock failure status coalesce s
      ≡ failed (if leb_ℤ failure.channel_revision (pos 0) then invalid_revision else state_changed)
unfolding record_notification_failure
record_failure-late clock failure status coalesce s channel found late =
    go (leb_ℤ failure.channel_revision (pos 0))
  where
    dated : StoredFailure
    dated = record failure { failed_at = or_clock clock failure.failed_at }

    go :
        (b : Bool)
        → (reject_if b invalid_revision
            >> (lock_delivery_channel failure.channel_id s.channels >>= λ c.
                failed_by (uncounted_rows clock dated c s.rows) dated status coalesce s))
          ≡ failed (if b then invalid_revision else state_changed)
    go true = refl
    go false = rw found (failed_by-late clock dated channel status coalesce s late)

-- What stands under the number on the channel.
abbrev pub standing : ℤ → ℤ → List Row → Option Row
standing id channel_id rows = find (λ (r : Row). r.id == id && r.channel_id == channel_id) rows

-- A completion that comes late is accepted where the row stands as sent, and changes nothing.
abbrev pub late_completion : Option Row → Store → Result Store
late_completion none s = failed state_changed
late_completion (some r) s = if r.status == sent then ok s else failed state_changed

stood_late :
    (o : Option Row) (channel_id revision : ℤ) (at : Time) (channel : Channel) (s : Store)
    → (completion_state o s.rows >>= λ marking.
        ok (completed channel_id revision at channel s marking))
      ≡ late_completion o s
unfolding completion_state completed
stood_late none channel_id revision at channel s = refl
stood_late (some r) channel_id revision at channel s = elim (Bool-cases (r.status == sent)) [
  | inl e ↦ rw e refl
  | inr e ↦ rw e refl
]

pub complete-late :
    (id channel_id revision : ℤ) (at : Time) (s : Store) (channel : Channel)
    → lock_delivery_channel channel_id s.channels ≡ ok channel
    → IsLate id channel_id s.rows
    → complete_notification id channel_id revision at s
      ≡ late_completion (standing id channel_id s.rows) s
unfolding complete_notification mark_notification_sent marked
complete-late id channel_id revision at s channel found late =
    let failing = update_sending-late id channel_id (as_sent at) s.rows late in
    rw (found, failing)
      (stood_late (standing id channel_id s.rows) channel_id revision at channel s)

-- What each end of a delivery answers on a row that is not being sent.
pub record AnswersLate (clock : Time) (failure : StoredFailure) (at : Time) (s : Store)
    : Type 0 where
  pub retrying :
      retry_notification clock failure s
      ≡ failed (if leb_ℤ failure.channel_revision (pos 0) then invalid_revision else state_changed)
  pub blocking :
      block_notification clock failure s
      ≡ failed (if leb_ℤ failure.channel_revision (pos 0) then invalid_revision else state_changed)
  pub pausing : pause_notification clock failure s ≡ failed state_changed
  pub discarding : discard_notification clock failure s ≡ failed state_changed
  pub requeueing :
      requeue_notification clock failure.id failure.channel_id at s ≡ failed state_changed
  pub completing :
      complete_notification failure.id failure.channel_id failure.channel_revision at s
      ≡ late_completion (standing failure.id failure.channel_id s.rows) s

-- A result that comes for a row that is not being sent any more is refused by every method and rolled
-- back: retrying and blocking refuse it with an error of a missing revision or else of a changed state,
-- pausing, discarding and requeueing with a changed state, and completing too unless the row stands as
-- sent, where it succeeds and changes nothing. The channel of the row is known.
pub late-AnswersLate :
    (clock : Time) (failure : StoredFailure) (at : Time) (s : Store) (channel : Channel)
    → lock_delivery_channel failure.channel_id s.channels ≡ ok channel
    → IsLate failure.id failure.channel_id s.rows
    → AnswersLate clock failure at s
unfolding retry_notification block_notification pause_notification discard_notification
    requeue_notification release_sending_notification
late-AnswersLate clock failure at s channel found late = record {
  retrying = record_failure-late clock failure retry false s channel found late;
  blocking = record_failure-late clock failure blocked true s channel found late;
  pausing = rw found (then_failed _ _ (paused_rows-late clock failure channel s.rows late));
  discarding = rw found (then_failed _ _ (discarded_rows-late clock failure channel s.rows late));
  requeueing = then_failed _ _ (
      update_sending-late failure.id failure.channel_id (as_released (or_clock clock at)) s.rows
        late);
  completing =
      complete-late failure.id failure.channel_id failure.channel_revision at s channel found late;
}
