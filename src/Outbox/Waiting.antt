-- ===== src/Outbox/Waiting.antt =====
-- The operations on channels (Channels) respect the life of every row of the outbox.
use ithiltir.Shared.{◌≡◌, refl, Bool, true, false, not, ◌&&◌, Option, none, some, List, [], ◌∷◌}
use ithiltir.Shared.Tests.{◌==◌, if◌then◌else◌, bool_eqb, nat_eq}
use ithiltir.Shared.Lists.{All, length}
use ithiltir.Shared.Int.{ℤ, pos, int_eq, leb_ℤ}
use ithiltir.Shared.Time.{Time}
use ithiltir.Alert.Retry.{OutboxStatus, pending, retry, blocked, paused}
use ithiltir.Outbox.{
  Row, Channel, Store, ok, reject_if, invalid_revision, status_eq, status_eqb, rank, or_not_found,
  items, unknown_channel, version_stale,
}
use ithiltir.Outbox.Sending.{or_clock}
use ithiltir.Outbox.Deliver.{
  wake_channel_notifications, channel_version_changed, as_woken, record_channel_failure,
}
use ithiltir.Outbox.Rows.{Each, Each-refl}
use ithiltir.Outbox.Lifecycle.{LeadsTo, as_woken-Requeues, as_stopped-Requeues, as_dropped-Requeues}
use ithiltir.Shared.Text.{Text, codes, text_eq}
use ithiltir.Outbox.Channels.{
  ChannelFailure, ChannelInput, lock_channel, pause_channel_notifications,
  discard_channel_notifications, reconfigured_rows, replaced_rows, switched_rows, create_channel,
  replace_channel, update_channel_config, set_channel_enabled, as_stopped, as_dropped,
  or_seal_failed,
}
use ithiltir.Outbox.Settings.{
  delete_channel, recover_channel_notifications, record_failure_of_channel, replace_settings,
  decode_channel_ids, live_channels, is_empty,
}
use ithiltir.Outbox.Settling.{Keeps, Yields, Yields-bind, update_queued-Each}

wake-Each :
    (id : ℤ) (now : Time) (statuses : List OutboxStatus) (rows : List Row)
    → All (LeadsTo retry) statuses
    → Each rows (wake_channel_notifications id now statuses rows)
unfolding wake_channel_notifications
wake-Each id now statuses rows h =
    update_queued-Each id statuses (as_woken now) rows (as_woken-Requeues now statuses h)

pause-Each : (id : ℤ) (rows : List Row) → Each rows (pause_channel_notifications id rows)
unfolding pause_channel_notifications
pause-Each id rows =
    update_queued-Each id (pending ∷ retry ∷ blocked ∷ []) (as_stopped (codes "channel_disabled"))
      rows (as_stopped-Requeues (codes "channel_disabled"))

discard-Each :
    (id : ℤ) (code message : Text) (rows : List Row)
    → Each rows (discard_channel_notifications id code message rows)
unfolding discard_channel_notifications
discard-Each id code message rows =
    update_queued-Each id (pending ∷ retry ∷ blocked ∷ paused ∷ []) (as_dropped code message) rows
      (as_dropped-Requeues code message)

reconfigured-Each :
    (enabled : Bool) (id : ℤ) (now : Time) (rows : List Row)
    → Each rows (reconfigured_rows enabled id now rows)
unfolding reconfigured_rows status_eqb rank
reconfigured-Each true id now rows =
    wake-Each id now (retry ∷ blocked ∷ paused ∷ []) rows
      ((refl, refl), ((refl, refl), ((refl, refl), tt)))
reconfigured-Each false id now rows = pause-Each id rows

replaced-Each :
    (id : ℤ) (current : Channel) (next : ChannelInput) (now : Time) (rows : List Row)
    → Each rows (replaced_rows id current next now rows)
unfolding replaced_rows
replaced-Each id current next now rows = go (current.kind == next.kind)
  where
    go :
        (b : Bool)
        → Each rows (
            if b
            then reconfigured_rows next.enabled id now rows
            else discard_channel_notifications id
                (codes "channel_type_changed")
                (codes "notification channel type changed")
                rows)
    go true = reconfigured-Each next.enabled id now rows
    go false = discard-Each id _ _ rows

switched-Each :
    (enabled : Bool) (id : ℤ) (now : Time) (rows : List Row)
    → Each rows (switched_rows enabled id now rows)
unfolding switched_rows status_eqb rank
switched-Each true id now rows =
    wake-Each id now (pending ∷ retry ∷ blocked ∷ paused ∷ []) rows
      ((refl, refl), ((refl, refl), ((refl, refl), ((refl, refl), tt))))
switched-Each false id now rows = pause-Each id rows

Keeps-by : (s t : Store) → Each s.rows t.rows → t.last_id ≡ s.last_id → Keeps s t
Keeps-by s t h k = record { each = h; last = k }

Keeps-refl : (s : Store) → Keeps s s
Keeps-refl s = record { each = Each-refl s.rows; last = refl }

module _ (seal : ℤ → Text → Text → Option Text) where
  pub create-Yields :
      (item : Option ChannelInput) (now : Time) (s : Store)
      → Yields s (create_channel seal item now s)
  unfolding create_channel
  create-Yields none now s = tt
  create-Yields (some item) now s =
      Yields-bind s (or_seal_failed (seal _ item.kind item.config)) _
        (λ sealed h. Keeps-by s _ (Each-refl s.rows) refl)

  pub replace-Yields :
      (id revision : ℤ) (next : ChannelInput) (now : Time) (s : Store)
      → Yields s (replace_channel seal id revision next now s)
  unfolding replace_channel
  replace-Yields id revision next now s =
      Yields-bind s (reject_if (leb_ℤ revision (pos 0)) invalid_revision) _ (λ u h.
        Yields-bind s (lock_channel id s) _ (λ current k.
          Yields-bind s (reject_if (not (pos current.revision == revision)) version_stale) _ (λ v l.
            Yields-bind s (or_seal_failed (seal id next.kind next.config)) _
              (λ sealed m. Keeps-by s _ (replaced-Each id current next now s.rows) refl))))

  pub update_config-Yields :
      (id revision : ℤ) (config : Text) (now : Time) (s : Store)
      → Yields s (update_channel_config seal id revision config now s)
  unfolding update_channel_config
  update_config-Yields id revision config now s =
      Yields-bind s (reject_if (leb_ℤ revision (pos 0)) invalid_revision) _ (λ u h.
        Yields-bind s (lock_channel id s) _ (λ current k.
          Yields-bind s (reject_if (not (pos current.revision == revision)) version_stale) _ (λ v l.
            Yields-bind s (or_seal_failed (seal id current.kind config)) _
              (λ sealed m. Keeps-by s _ (reconfigured-Each current.enabled id now s.rows) refl))))

Keeps-if : (b : Bool) (s t : Store) → Keeps s t → Keeps s (if b then s else t)
Keeps-if true s t h = Keeps-refl s
Keeps-if false s t h = h

pub set_enabled-Yields :
    (id : ℤ) (enabled : Bool) (now : Time) (s : Store)
    → Yields s (set_channel_enabled id enabled now s)
unfolding set_channel_enabled
set_enabled-Yields id enabled now s = Yields-bind s (lock_channel id s) _ (λ channel h.
    Keeps-if (bool_eqb channel.enabled enabled) s _
      (Keeps-by s _ (switched-Each enabled id now s.rows) refl))

pub delete-Yields : (id : ℤ) (now : Time) (s : Store) → Yields s (delete_channel id now s)
unfolding delete_channel
delete-Yields id now s = Yields-bind s (or_not_found s.settings) _ (λ settings h.
    Yields-bind s (lock_channel id s) _ (λ channel k.
      Yields-bind s (decode_channel_ids settings.channel_ids) _
        (λ ids l. Keeps-by s _ (discard-Each id _ _ s.rows) refl)))

recovered-Each :
    (enabled : Bool) (id : ℤ) (at : Time) (rows : List Row)
    → Each rows (if enabled then wake_channel_notifications id at (blocked ∷ []) rows else rows)
unfolding status_eqb rank
recovered-Each true id at rows = wake-Each id at (blocked ∷ []) rows ((refl, refl), tt)
recovered-Each false id at rows = Each-refl rows

pub recover-Yields :
    (id revision : ℤ) (at : Time) (s : Store)
    → Yields s (recover_channel_notifications id revision at s)
unfolding recover_channel_notifications
recover-Yields id revision at s = Yields-bind s (lock_channel id s) _ (λ channel h.
    Keeps-if (channel_version_changed channel revision) s _
      (Keeps-by s _ (recovered-Each channel.enabled id at s.rows) refl))

pub record_failure_of-Yields :
    (clock : Time) (failure : ChannelFailure) (s : Store)
    → Yields s (record_failure_of_channel clock failure s)
unfolding record_failure_of_channel
record_failure_of-Yields clock failure s = Yields-bind s (lock_channel failure.id s) _ (λ channel h.
    Yields-bind s
      (if channel_version_changed channel failure.revision
        then ok s.channels
        else record_channel_failure failure.id failure.code failure.last_error
            (or_clock clock failure.failed_at) s.channels)
      _ (λ channels k. Keeps-by s _ (Each-refl s.rows) refl))

pub replace_settings-Yields :
    (enabled : Bool) (ids : Option (List ℤ)) (s : Store) → Yields s (replace_settings enabled ids s)
unfolding replace_settings
replace_settings-Yields enabled none s = tt
replace_settings-Yields enabled (some ids) s =
    Yields-bind s (decode_channel_ids (items ids)) _ (λ decoded h.
      Yields-bind s (or_not_found s.settings) _ (λ settings k.
        Yields-bind s
          (reject_if
            (not (is_empty ids) && not (length (live_channels ids s.channels) == length ids))
            unknown_channel)
          _ (λ u l. Keeps-by s _ (Each-refl s.rows) refl)))
