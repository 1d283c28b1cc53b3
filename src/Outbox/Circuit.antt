-- ===== src/Outbox/Circuit.antt =====
-- Blocking a channel (BlockNotification): nothing of it is taken before the next probe.
use mathlib.Core.Path.{subst}
use ithiltir.Shared.{
  ◌<◌, ◌≡◌, ◌≢◌, refl, sym, inl, inr, true, false, ◌&&◌, ◌||◌, List, [], ◌∷◌, arith,
}
use ithiltir.Shared.Tests.{◌==◌, Bool-cases, nat_eq, leb}
use ithiltir.Shared.Lists.{All, contains}
use ithiltir.Shared.Int.{ℤ, pos, int_eq, int_eqb_iff, leb_ℤ}
use ithiltir.Shared.Time.{Time}
use ithiltir.Alert.Retry.{pending, sending, retry, blocked}
use ithiltir.Outbox.{
  Row, Channel, Store, ok, when, is_queued, status_eq, status_eqb, status_eqb_iff, rank, Result,
  update_where, exists,
}
use ithiltir.Outbox.Take.{is_due}
use ithiltir.Outbox.Timely.{
  HasRoom, ChannelsHaveRoom, update_sending-timely, record_channel_failure-timely,
  counted_failure-CountsOne,
}
use ithiltir.Outbox.Sending.{is_sending, clear_probe, StoredFailure, or_clock}
use ithiltir.Outbox.Deliver.{lock_delivery_channel, channel_version_changed}
use ithiltir.Outbox.Failures.{
  counted_failure, count_failure, as_coalesced, as_postponed, coalesce_queued, uncounted_rows,
  failed_by, record_notification_failure, block_notification,
}

-- A row of the channel that waits is not due.
abbrev pub IsQuiet : Time → ℤ → Row → Type 0
IsQuiet now channel_id r = r.channel_id ≡ channel_id → r.status ≢ sending → is_due now r ≡ false

blocked_not_due :
    (now : Time) (r : Row) → r.status ≡ blocked → now < r.next_attempt_at → is_due now r ≡ false
unfolding status_eqb rank
blocked_not_due now r e h =
    subst
      (λ s.
        ((contains s (pending ∷ retry ∷ blocked ∷ []) && leb r.next_attempt_at now) || s == sending)
        ≡ false)
      (sym e) (ground arith)

settled_not_due :
    (now : Time) (r : Row)
    → contains r.status (pending ∷ retry ∷ []) ≡ false
    → (r.status == blocked) ≡ false
    → r.status ≢ sending
    → is_due now r ≡ false
settled_not_due now r h k n = let q = status_eqb_iff r.status sending in ground arith

is_blocked : (r : Row) (id : ℤ) → is_queued id (blocked ∷ []) r ≡ true → r.status ≡ blocked
is_blocked r id e = (status_eqb_iff r.status blocked).0 (ground arith)

postponed-IsQuiet :
    (now at : Time) (id : ℤ) (r : Row)
    → now < at
    → (r.channel_id ≡ id → contains r.status (pending ∷ retry ∷ []) ≡ false)
    → IsQuiet now id (when (is_queued id (blocked ∷ [])) (as_postponed at) r)
postponed-IsQuiet now at id r h k = elim (Bool-cases (is_queued id (blocked ∷ []) r)) [
  | inl e ↦ rw e (λ c n. blocked_not_due now (as_postponed at r) (is_blocked r id e) h)
  | inr e ↦ rw e (λ c n.
      let same = (int_eqb_iff r.channel_id id).1 c in settled_not_due now r (k c) (ground arith) n)
]

coalesced_open : contains blocked (pending ∷ retry ∷ []) ≡ false
unfolding status_eqb rank
coalesced_open = refl

coalesced_out :
    (failure : StoredFailure) (r : Row)
    → let t = when (is_queued failure.channel_id (pending ∷ retry ∷ [])) (as_coalesced failure) r in
      t.channel_id ≡ failure.channel_id → contains t.status (pending ∷ retry ∷ []) ≡ false
coalesced_out failure r =
    elim (Bool-cases (is_queued failure.channel_id (pending ∷ retry ∷ []) r)) [
      | inl e ↦ rw e (λ c. coalesced_open)
      | inr e ↦
          rw e (λ c. let same = (int_eqb_iff r.channel_id failure.channel_id).1 c in ground arith)
    ]

coalesce-IsQuiet :
    (now : Time) (failure : StoredFailure) (rows : List Row)
    → now < failure.next_attempt_at
    → All (IsQuiet now failure.channel_id) (coalesce_queued failure rows)
unfolding coalesce_queued
coalesce-IsQuiet now failure [] h = tt
coalesce-IsQuiet now failure (r ∷ rows) h = (
  postponed-IsQuiet now failure.next_attempt_at failure.channel_id _ h (coalesced_out failure r),
  coalesce-IsQuiet now failure rows h,
)

abbrev pub Silent : Time → ℤ → Store → Type 0
Silent now channel_id t = All (IsQuiet now channel_id) t.rows

-- A store after a call that has succeeded.
abbrev pub Ends : Result Store → (Store → Type 0) → Type 0
Ends m P = (t : Store) × (m ≡ ok t) × P t

-- A delivery that is under way, with room in the counters.
pub record IsTimely (failure : StoredFailure) (s : Store) : Type 0 where
  pub under_way : exists (is_sending failure.id failure.channel_id) s.rows ≡ true
  pub room : HasRoom s.rows
  pub channels_room : ChannelsHaveRoom s.channels

count-Silent :
    (now : Time) (failure : StoredFailure) (s : Store)
    → IsTimely failure s
    → now < failure.next_attempt_at
    → Ends (count_failure failure blocked true s) (Silent now failure.channel_id)
unfolding count_failure
count-Silent now failure s h early =
    let rows =
      update_sending-timely failure.id failure.channel_id (counted_failure failure blocked) s.rows
        (counted_failure-CountsOne failure blocked) h.room h.under_way in
    let (channels, taken) =
      record_channel_failure-timely failure.channel_id failure.code failure.last_error
        failure.failed_at s.channels h.channels_room in
    let next =
      update_where (is_sending failure.id failure.channel_id)
        (clear_probe (counted_failure failure blocked)) s.rows in
    (
      record s { rows = coalesce_queued failure next; channels = channels },
      rw (rows, taken) refl,
      coalesce-IsQuiet now failure next early,
    )

-- A channel that takes a failure of an attempt with its revision.
pub record IsOpen (channel : Channel) (revision : ℤ) : Type 0 where
  pub kept : channel.is_deleted ≡ false
  pub enabled : channel.enabled ≡ true
  pub current : channel_version_changed channel revision ≡ false
  pub positive : leb_ℤ revision (pos 0) ≡ false

-- BlockNotification on a row that is being sent, for an enabled channel whose revision is that of the
-- attempt and with room in the counters, succeeds. Until the time of the next probe no row of the
-- channel is then due but what is being sent already: what waited for the channel is held back together
-- with the notification that failed.
pub block-Silent :
    (clock now : Time) (failure : StoredFailure) (s : Store) (channel : Channel)
    → lock_delivery_channel failure.channel_id s.channels ≡ ok channel
    → IsOpen channel failure.channel_revision
    → IsTimely failure s
    → now < failure.next_attempt_at
    → Ends (block_notification clock failure s) (Silent now failure.channel_id)
unfolding block_notification record_notification_failure failed_by uncounted_rows
block-Silent clock now failure s channel found o h early =
    let dated = record failure { failed_at = or_clock clock failure.failed_at } in
    let timely : IsTimely dated s = record {
      under_way = h.under_way;
      room = h.room;
      channels_room = h.channels_room;
    } in
    let (t, e, silent) = count-Silent now dated s timely early in
    (t, rw (o.positive, found, o.kept, o.enabled, o.current) e, silent)
