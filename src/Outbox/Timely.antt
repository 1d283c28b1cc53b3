-- ===== src/Outbox/Timely.antt =====
-- The results of a delivery that come in time are taken: the row is being sent, the channel is known
-- and no counter stands at the end of its column.
use ithiltir.Shared.{suc, ◌+◌, ◌^◌, ◌<◌, ◌≡◌, refl, Bool, true, List, [], ◌∷◌, arith, inl, inr}
use ithiltir.Shared.Tests.{◌==◌, Bool-cases, nat_eq}
use ithiltir.Shared.Lists.{All}
use ithiltir.Shared.Int.{ℤ, int_eq}
use ithiltir.Shared.Text.{Text}
use ithiltir.Shared.Time.{Time}
use ithiltir.Alert.Retry.{OutboxStatus, blocked}
use ithiltir.Outbox.{Row, Channel, ok, update_where, exists, status_eq, empty_to_nil}
use ithiltir.Outbox.Sending.{
  StoredFailure, is_sending, clear_probe, counts_fit, update_sending_notification,
}
use ithiltir.Outbox.Deliver.{failures_fit, is_live, as_failing, record_channel_failure}
use ithiltir.Outbox.Failures.{counted_failure, notification_failure_updates}

-- There is room for one more attempt, probe and failure.
abbrev pub HasRoom : List Row → Type 0
HasRoom = All (λ (r : Row). (suc r.attempt_count < 2 ^ 31) × (suc r.probe_count < 2 ^ 31))

abbrev pub ChannelsHaveRoom : List Channel → Type 0
ChannelsHaveRoom = All (λ (c : Channel). suc c.consecutive_failures < 2 ^ 31)

-- An update that counts at most one attempt and one probe.
abbrev pub CountsOne : (Row → Row) → Type 0
CountsOne u =
    (r : Row)
    → (suc r.attempt_count < 2 ^ 31) × (suc r.probe_count < 2 ^ 31)
    → ((u r).attempt_count < 2 ^ 31) × ((u r).probe_count < 2 ^ 31)

updated_fit :
    (p : Row → Bool) (u : Row → Row) (rows : List Row)
    → CountsOne u
    → HasRoom rows
    → counts_fit (update_where p (clear_probe u) rows) ≡ true
updated_fit p u [] h k = refl
updated_fit p u (r ∷ rows) h k =
    let rest = updated_fit p u rows h k.1 in
    let (a, b) = h r k.0 in
    elim (Bool-cases (p r)) [ inl e ↦ rw e (ground arith) | inr e ↦ rw e (ground arith) ]

pub update_sending-timely :
    (id channel_id : ℤ) (u : Row → Row) (rows : List Row)
    → CountsOne u
    → HasRoom rows
    → exists (is_sending id channel_id) rows ≡ true
    → update_sending_notification id channel_id u rows
      ≡ ok (update_where (is_sending id channel_id) (clear_probe u) rows)
unfolding update_sending_notification
update_sending-timely id channel_id u rows h k e =
    rw (e, updated_fit (is_sending id channel_id) u rows h k) refl

failed_fit :
    (id : ℤ) (g : Channel → Channel) (channels : List Channel)
    → ((c : Channel) → (g c).consecutive_failures ≡ c.consecutive_failures + 1)
    → ChannelsHaveRoom channels
    → failures_fit (update_where (is_live id) g channels) ≡ true
failed_fit id g [] h k = refl
failed_fit id g (c ∷ channels) h k =
    let rest = failed_fit id g channels h k.1 in
    let one = h c in
    let room = k.0 in
    elim (Bool-cases (is_live id c)) [ inl e ↦ rw e (ground arith) | inr e ↦ rw e (ground arith) ]

pub record_channel_failure-timely :
    (id : ℤ) (code message : Text) (at : Time) (channels : List Channel)
    → ChannelsHaveRoom channels
    → (next : List Channel) × (record_channel_failure id code message at channels ≡ ok next)
unfolding record_channel_failure empty_to_nil
record_channel_failure-timely id code message at channels h = (
  update_where (is_live id) (as_failing code message at) channels,
  rw (failed_fit id (as_failing code message at) channels (λ c. refl) h) refl,
)

pub counted_failure-CountsOne :
    (failure : StoredFailure) (status : OutboxStatus) → CountsOne (counted_failure failure status)
unfolding counted_failure notification_failure_updates
counted_failure-CountsOne failure status r h = elim (Bool-cases (status == blocked)) [
  | inl e ↦ rw e (ground arith)
  | inr e ↦ rw e (ground arith)
]
