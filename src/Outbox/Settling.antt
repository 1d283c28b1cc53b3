-- ===== src/Outbox/Settling.antt =====
-- The ends of a delivery (Deliver) respect the life of every row.
use ithiltir.Shared.{
  ◌≡◌, ◌≢◌, refl, ap, sym, inl, inr, Bool, true, false, not, ◌&&◌, List, [], ◌∷◌, map, arith,
}
use ithiltir.Shared.Tests.{if◌then◌else◌, Bool-cases}
use ithiltir.Shared.Lists.{contains}
use ithiltir.Shared.Int.{ℤ, int_eq}
use ithiltir.Shared.Time.{Time}
use ithiltir.Alert.Retry.{OutboxStatus, sending, paused, discarded}
use ithiltir.Outbox.{
  Row, Channel, Store, StoreError, OnOk, OnOk-bind, Result, ok, failed, ◌>>=◌, ◌>>◌, reject_if,
  when, update_where, exists, state_changed, out_of_range, is_queued, status_eq, status_eqb,
  status_eqb_iff, rank,
}
use ithiltir.Outbox.Sending.{
  StoredFailure, is_sending, clear_probe, counts_fit, update_sending_notification, or_clock,
  as_released, as_retried, retry_sending_notification, release_sending_notification,
}
use ithiltir.Outbox.Deliver.{lock_delivery_channel, channel_version_changed, requeue_notification}
use ithiltir.Outbox.Failures.{
  as_deleted, paused_rows, pause_notification, discarded_rows, discard_notification,
  notification_failure_updates,
}
use ithiltir.Outbox.Rows.{Steps, Each, Each-map, when-Steps}
use ithiltir.Outbox.Lifecycle.{
  Settles, Requeues, as_released-Settles, as_retried-Settles, as_deleted-Settles,
  failure_updates-Settles,
}

-- What a step on the rows gives where it succeeds.
abbrev pub EachOf : List Row → Result (List Row) → Type 0
EachOf rows = OnOk (Each rows)

-- What a call leaves, where it succeeds.
pub record Keeps (s t : Store) : Type 0 where
  pub each : Each s.rows t.rows
  pub last : t.last_id ≡ s.last_id

abbrev pub Yields : Store → Result Store → Type 0
Yields s = OnOk (Keeps s)

-- A test of three parts that holds.
pub sending_row :
    (id channel_id : ℤ) (r : Row) → is_sending id channel_id r ≡ true → r.status ≡ sending
sending_row id channel_id r h = (status_eqb_iff r.status sending).0 (ground arith)

pub update_sending-Each :
    (id channel_id : ℤ) (u : Row → Row) (rows : List Row)
    → Settles u
    → EachOf rows (update_sending_notification id channel_id u rows)
unfolding update_sending_notification
update_sending-Each id channel_id u rows h =
    go (not (exists (is_sending id channel_id) rows))
      (not (counts_fit (update_where (is_sending id channel_id) (clear_probe u) rows)))
  where
    go :
        (b c : Bool)
        → EachOf rows (
            reject_if b state_changed
            >> (reject_if c out_of_range
                >> ok (update_where (is_sending id channel_id) (clear_probe u) rows)))
    go true c = tt
    go false true = tt
    go false false = Each-map _ rows (λ r m.
        when-Steps (is_sending id channel_id) (clear_probe u) r
          (λ e. h r (sending_row id channel_id r e)))

-- A requeueing of what waits for a channel.
pub update_queued-Each :
    (id : ℤ) (statuses : List OutboxStatus) (u : Row → Row) (rows : List Row)
    → Requeues statuses u
    → Each rows (update_where (is_queued id statuses) u rows)
update_queued-Each id statuses u rows h =
    Each-map _ rows (λ r m. when-Steps (is_queued id statuses) u r (λ e. h r (ground arith)))

pub Yields-bind {ℓ} :
    {A : Type ℓ} (s : Store) (m : Result A) (f : A → Result Store)
    → ((a : A) → m ≡ ok a → Yields s (f a))
    → Yields s (m >>= f)
Yields-bind s m f h = OnOk-bind (Keeps s) m f h

result_or : {A : Type 0} → A → Result A → A
result_or d (ok a) = a
result_or d (failed e) = d

pub ok_inj : {A : Type 0} {a b : A} → ok a ≡ ok b → a ≡ b
unfolding result_or
ok_inj {a = a} h = ap (result_or a) h

pub ok-ne-failed : {A : Type 0} {a : A} {e : StoreError} → ok a ≢ failed e
ok-ne-failed h = cc

-- What the update gives where it succeeds, and that then a row was being sent.
pub update_sending-ok :
    (id channel_id : ℤ) (u : Row → Row) (rows next : List Row)
    → update_sending_notification id channel_id u rows ≡ ok next
    → (next ≡ update_where (is_sending id channel_id) (clear_probe u) rows)
      × (exists (is_sending id channel_id) rows ≡ true)
unfolding update_sending_notification
update_sending-ok id channel_id u rows next h =
    go (exists (is_sending id channel_id) rows)
      (not (counts_fit (update_where (is_sending id channel_id) (clear_probe u) rows))) h
  where
    go :
        (b c : Bool)
        → (reject_if (not b) state_changed
            >> (reject_if c out_of_range
                >> ok (update_where (is_sending id channel_id) (clear_probe u) rows)))
          ≡ ok next
        → (next ≡ update_where (is_sending id channel_id) (clear_probe u) rows) × (b ≡ true)
    go true true k = cc
    go false c k = cc
    go true false k = (sym (ok_inj k), refl)

Keeps-rows : (s : Store) (rows : List Row) → Each s.rows rows → Keeps s (record s { rows = rows })
Keeps-rows s rows h = record { each = h; last = refl }

pub rows_Yields :
    (s : Store) (m : Result (List Row))
    → EachOf s.rows m
    → Yields s (m >>= λ rows. ok (record s { rows = rows }))
rows_Yields s (ok rows) h = Keeps-rows s rows h
rows_Yields s (failed e) h = tt

pub requeue-Yields :
    (clock : Time) (id channel_id : ℤ) (at : Time) (s : Store)
    → Yields s (requeue_notification clock id channel_id at s)
unfolding requeue_notification release_sending_notification
requeue-Yields clock id channel_id at s = rows_Yields s _ (
    update_sending-Each id channel_id (as_released (or_clock clock at)) s.rows
      (as_released-Settles (or_clock clock at)))

pub retry_sending-Each :
    (clock : Time) (id channel_id : ℤ) (now : Time) (rows : List Row)
    → EachOf rows (retry_sending_notification clock id channel_id now rows)
unfolding retry_sending_notification
retry_sending-Each clock id channel_id now rows =
    update_sending-Each id channel_id (as_retried (or_clock clock now)) rows
      (as_retried-Settles (or_clock clock now))

paused_rows-Each :
    (clock : Time) (failure : StoredFailure) (channel : Channel) (rows : List Row)
    → EachOf rows (paused_rows clock failure channel rows)
unfolding paused_rows status_eqb rank
paused_rows-Each clock failure channel rows = go channel.is_deleted channel.enabled
  where
    go :
        (b c : Bool)
        → EachOf rows (
            if b
            then update_sending_notification failure.id failure.channel_id as_deleted rows
            else if c
            then retry_sending_notification clock failure.id failure.channel_id failure.failed_at
                rows
            else update_sending_notification failure.id failure.channel_id
                (notification_failure_updates failure paused)
                rows)
    go true c = update_sending-Each failure.id failure.channel_id as_deleted rows as_deleted-Settles
    go false true = retry_sending-Each clock failure.id failure.channel_id failure.failed_at rows
    go false false =
        update_sending-Each failure.id failure.channel_id
          (notification_failure_updates failure paused) rows
          (failure_updates-Settles failure paused refl refl refl)

pub pause-Yields :
    (clock : Time) (failure : StoredFailure) (s : Store)
    → Yields s (pause_notification clock failure s)
unfolding pause_notification
pause-Yields clock failure s =
    Yields-bind s (lock_delivery_channel failure.channel_id s.channels) _ (λ channel h.
      rows_Yields s (paused_rows clock failure channel s.rows)
        (paused_rows-Each clock failure channel s.rows))

discarded_rows-Each :
    (clock : Time) (failure : StoredFailure) (channel : Channel) (rows : List Row)
    → EachOf rows (discarded_rows clock failure channel rows)
unfolding discarded_rows status_eqb rank
discarded_rows-Each clock failure channel rows =
    go (not channel.is_deleted && channel_version_changed channel failure.channel_revision)
  where
    go :
        (b : Bool)
        → EachOf rows (
            if b
            then retry_sending_notification clock failure.id failure.channel_id failure.failed_at
                rows
            else update_sending_notification failure.id failure.channel_id
                (notification_failure_updates failure discarded)
                rows)
    go true = retry_sending-Each clock failure.id failure.channel_id failure.failed_at rows
    go false =
        update_sending-Each failure.id failure.channel_id
          (notification_failure_updates failure discarded) rows
          (failure_updates-Settles failure discarded refl refl refl)

pub discard-Yields :
    (clock : Time) (failure : StoredFailure) (s : Store)
    → Yields s (discard_notification clock failure s)
unfolding discard_notification
discard-Yields clock failure s =
    Yields-bind s (lock_delivery_channel failure.channel_id s.channels) _ (λ channel h.
      rows_Yields s (discarded_rows clock failure channel s.rows)
        (discarded_rows-Each clock failure channel s.rows))

-- Two updates, of which a row takes one.
pub Each-map-map :
    (g h : Row → Row) (rows : List Row)
    → ((r : Row) → Steps r (h (g r)))
    → Each rows (map h (map g rows))
Each-map-map g h [] k = tt
Each-map-map g h (r ∷ rows) k = (k r, Each-map-map g h rows k)

pub settled_then-Steps :
    (id channel_id other : ℤ) (statuses : List OutboxStatus) (u w : Row → Row) (r : Row)
    → Settles u
    → contains (clear_probe u r).status statuses ≡ false
    → Requeues statuses w
    → Steps r
        (when (is_queued other statuses) w (when (is_sending id channel_id) (clear_probe u) r))
settled_then-Steps id channel_id other statuses u w r h apart k =
    elim (Bool-cases (is_sending id channel_id r)) [
      | inl e ↦ rw e (
          let skipped : is_queued other statuses (clear_probe u r) ≡ false = ground arith in
          rw skipped (h r (sending_row id channel_id r e)))
      | inr e ↦ rw e (when-Steps (is_queued other statuses) w r (λ q. k r (ground arith)))
    ]
