-- ===== src/Outbox/Failing.antt =====
-- RetryNotification and BlockNotification respect the life of every row.
use mathlib.Core.Path.{subst}
use mathlib.Core.Option.{some_inj, none-ne-some}
use ithiltir.Shared.{
  ◌≡◌, refl, inl, inr, Bool, true, false, not, Option, none, some, List, [], ◌∷◌, map, arith,
}
use ithiltir.Shared.Tests.{◌==◌, if◌then◌else◌, Bool-cases}
use ithiltir.Shared.Lists.{contains-All}
use ithiltir.Shared.Int.{ℤ, pos, int_eq, leb_ℤ}
use ithiltir.Shared.Time.{Time}
use ithiltir.Alert.Retry.{OutboxStatus, pending, sent, retry, blocked}
use ithiltir.Outbox.{
  Row, Channel, Store, Result, ok, reject_if, when, update_where, invalid_revision, is_queued,
  status_eq, status_eqb, rank,
}
use ithiltir.Outbox.Sending.{
  StoredFailure, is_sending, clear_probe, update_sending_notification, or_clock,
  retry_sending_notification,
}
use ithiltir.Outbox.Deliver.{lock_delivery_channel, channel_version_changed, record_channel_failure}
use ithiltir.Outbox.Failures.{
  as_deleted, as_disabled, counted_failure, notification_failure_updates, as_coalesced,
  as_postponed, coalesce_queued, count_failure, uncounted_rows, failed_by,
  record_notification_failure, retry_notification, block_notification,
}
use ithiltir.Outbox.Rows.{Steps, Each, Steps-then, is_final}
use ithiltir.Outbox.Lifecycle.{
  as_deleted-Settles, as_disabled-Settles, counted_failure-Settles, as_coalesced-Requeues,
}
use ithiltir.Outbox.Settling.{
  EachOf, Yields, Yields-bind, update_sending-Each, update_sending-ok, rows_Yields,
  retry_sending-Each, settled_then-Steps,
}

-- A failure that the channel takes, without and with the rows that wait for it.
counted-Each :
    (failure : StoredFailure) (status : OutboxStatus) (rows : List Row)
    → not (status == pending) ≡ true
    → (status == sent) ≡ false
    → EachOf rows (
        update_sending_notification failure.id failure.channel_id
          (counted_failure failure status)
          rows)
counted-Each failure status rows p q =
    update_sending-Each failure.id failure.channel_id (counted_failure failure status) rows
      (counted_failure-Settles failure status p q)

postponed-Steps :
    (at : Time) (id : ℤ) (r t : Row)
    → Steps r t
    → Steps r (when (is_queued id (blocked ∷ [])) (as_postponed at) t)
unfolding status_eqb rank
postponed-Steps at id r t h = elim (Bool-cases (is_queued id (blocked ∷ []) t)) [
  | inl e ↦ rw e (
      Steps-then r t (as_postponed at t) h refl refl
        (λ f.
          let open_still =
            contains-All (λ s. is_final s ≡ false) t.status (blocked ∷ []) (refl, tt)
              (ground arith) in
          cc)
        (λ v. record { probes = v.probes; counted = v.counted; dated = v.dated }))
  | inr e ↦ rw e h
]

Each-map-thrice :
    (f g h : Row → Row) (rows : List Row)
    → ((r : Row) → Steps r (h (g (f r))))
    → Each rows (map h (map g (map f rows)))
Each-map-thrice f g h [] k = tt
Each-map-thrice f g h (r ∷ rows) k = (k r, Each-map-thrice f g h rows k)

coalesced-Each :
    (failure : StoredFailure) (rows : List Row)
    → Each rows (
        coalesce_queued failure (
          update_where
            (is_sending failure.id failure.channel_id)
            (clear_probe (counted_failure failure blocked))
            rows))
unfolding coalesce_queued status_eqb rank counted_failure notification_failure_updates
coalesced-Each failure rows = Each-map-thrice _ _ _ rows (λ r.
    postponed-Steps failure.next_attempt_at failure.channel_id r _ (
      settled_then-Steps failure.id failure.channel_id failure.channel_id (pending ∷ retry ∷ [])
        (counted_failure failure blocked) (as_coalesced failure) r
        (counted_failure-Settles failure blocked refl refl) refl (as_coalesced-Requeues failure)))

uncounted-Each :
    (clock : Time) (failure : StoredFailure) (channel : Channel) (rows : List Row)
    (result : Result (List Row))
    → uncounted_rows clock failure channel rows ≡ some result
    → EachOf rows result
unfolding uncounted_rows
uncounted-Each clock failure channel rows result h =
    go channel.is_deleted channel.enabled (channel_version_changed channel failure.channel_revision)
      h
  where
    go :
        (b c d : Bool)
        → (if b
            then some (update_sending_notification failure.id failure.channel_id as_deleted rows)
            else if not c
            then some (update_sending_notification failure.id failure.channel_id as_disabled rows)
            else if d
            then some (
                retry_sending_notification clock failure.id failure.channel_id failure.failed_at
                  rows)
            else none)
          ≡ some result
        → EachOf rows result
    go true c d k =
        subst (EachOf rows) (some_inj.0 k)
          (update_sending-Each failure.id failure.channel_id as_deleted rows as_deleted-Settles)
    go false false d k =
        subst (EachOf rows) (some_inj.0 k)
          (update_sending-Each failure.id failure.channel_id as_disabled rows as_disabled-Settles)
    go false true true k =
        subst (EachOf rows) (some_inj.0 k)
          (retry_sending-Each clock failure.id failure.channel_id failure.failed_at rows)
    go false true false k = absurd (none-ne-some _ k)

count-Yields :
    (failure : StoredFailure) (status : OutboxStatus) (coalesce : Bool) (s : Store)
    → ((rows : List Row)
        → update_sending_notification failure.id failure.channel_id
            (counted_failure failure status)
            s.rows
          ≡ ok rows
        → Each s.rows (if coalesce then coalesce_queued failure rows else rows))
    → Yields s (count_failure failure status coalesce s)
unfolding count_failure
count-Yields failure status coalesce s h =
    Yields-bind s
      (update_sending_notification failure.id failure.channel_id (counted_failure failure status)
        s.rows)
      _
      (λ rows e.
        Yields-bind s
          (record_channel_failure failure.channel_id failure.code failure.last_error
            failure.failed_at s.channels)
          _ (λ channels k. record { each = h rows e; last = refl }))

EachOf-ok :
    (rows next : List Row) (m : Result (List Row)) → EachOf rows m → m ≡ ok next → Each rows next
EachOf-ok rows next m h e = subst (EachOf rows) e h

-- With its status and its way of coalescing a failure is one of the two methods.
abbrev pub Counts : OutboxStatus → Bool → StoredFailure → Store → Type 0
Counts status coalesce failure s =
    (rows : List Row)
    → update_sending_notification failure.id failure.channel_id (counted_failure failure status)
        s.rows
      ≡ ok rows
    → Each s.rows (if coalesce then coalesce_queued failure rows else rows)

retry-Counts : (failure : StoredFailure) (s : Store) → Counts retry false failure s
unfolding status_eqb rank
retry-Counts failure s rows e =
    EachOf-ok s.rows rows _ (counted-Each failure retry s.rows refl refl) e

block-Counts : (failure : StoredFailure) (s : Store) → Counts blocked true failure s
block-Counts failure s rows e =
    rw
      ((update_sending-ok failure.id failure.channel_id (counted_failure failure blocked) s.rows
        rows e).0)
      (coalesced-Each failure s.rows)

failed_by-Yields :
    (o : Option (Result (List Row))) (failure : StoredFailure) (status : OutboxStatus)
    (coalesce : Bool) (s : Store)
    → ((m : Result (List Row)) → o ≡ some m → EachOf s.rows m)
    → Counts status coalesce failure s
    → Yields s (failed_by o failure status coalesce s)
unfolding failed_by
failed_by-Yields none failure status coalesce s h k = count-Yields failure status coalesce s k
failed_by-Yields (some m) failure status coalesce s h k = rows_Yields s m (h m refl)

record_failure-Yields :
    (clock : Time) (failure : StoredFailure) (status : OutboxStatus) (coalesce : Bool) (s : Store)
    → ((dated : StoredFailure) → Counts status coalesce dated s)
    → Yields s (record_notification_failure clock failure status coalesce s)
unfolding record_notification_failure
record_failure-Yields clock failure status coalesce s h =
    let dated = record failure { failed_at = or_clock clock failure.failed_at } in
    Yields-bind s (reject_if (leb_ℤ failure.channel_revision (pos 0)) invalid_revision) _ (λ u e.
      Yields-bind s (lock_delivery_channel failure.channel_id s.channels) _ (λ channel k.
        failed_by-Yields (uncounted_rows clock dated channel s.rows) dated status coalesce s
          (uncounted-Each clock dated channel s.rows) (h dated)))

pub retry-Yields :
    (clock : Time) (failure : StoredFailure) (s : Store)
    → Yields s (retry_notification clock failure s)
unfolding retry_notification
retry-Yields clock failure s =
    record_failure-Yields clock failure retry false s (λ dated. retry-Counts dated s)

pub block-Yields :
    (clock : Time) (failure : StoredFailure) (s : Store)
    → Yields s (block_notification clock failure s)
unfolding block_notification
block-Yields clock failure s =
    record_failure-Yields clock failure blocked true s (λ dated. block-Counts dated s)
