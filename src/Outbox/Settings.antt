-- ===== src/Outbox/Settings.antt =====
-- notify_channels.go and alert_settings.go: how channels are deleted, recover and fail, and the settings that
-- choose among them.
use ithiltir.Shared.{◌+◌, Bool, true, false, not, ◌&&◌, Option, none, some, List, [], ◌∷◌}
use ithiltir.Shared.Tests.{◌==◌, if◌then◌else◌, nat_eq}
use ithiltir.Shared.Int.{ℤ, pos, int_eq, leb_ℤ}
use ithiltir.Shared.Lists.{contains, length}
use ithiltir.Shared.Text.{codes, text_eq}
use ithiltir.Shared.Time.{Time}
use ithiltir.Alert.Retry.{blocked}
use ithiltir.Outbox.{
  Channel, ChannelIds, unreadable, null, items, AlertSetting, Store, Result, ok, failed,
  bad_settings, unknown_channel, ◌>>=◌, ◌>>◌, reject_if, update_where, filter, or_not_found,
  status_eq,
}
use ithiltir.Outbox.Sending.{or_clock}
use ithiltir.Outbox.Deliver.{
  is_live, channel_version_changed, record_channel_success, record_channel_failure,
  wake_channel_notifications,
}
use ithiltir.Outbox.Channels.{ChannelFailure, discard_channel_notifications, lock_channel}

decode_ids : List ℤ → List ℤ → Result (List ℤ)
decode_ids seen [] = ok []
decode_ids seen (id ∷ ids) = do
  reject_if (leb_ℤ id (pos 0)) bad_settings
  reject_if (contains id seen) bad_settings
  rest ← decode_ids (id ∷ seen) ids
  ok (id ∷ rest)

unfoldable pub decode_channel_ids : ChannelIds → Result (List ℤ)
unfolding decode_ids
decode_channel_ids unreadable = failed bad_settings
decode_channel_ids null = failed bad_settings
decode_channel_ids (items ids) = decode_ids [] ids

abbrev pub with_ids : List ℤ → Option AlertSetting → Option AlertSetting
with_ids ids none = none
with_ids ids (some setting) = some (record setting { channel_ids = items ids })

abbrev pub other_ids : ℤ → List ℤ → List ℤ
other_ids id ids = filter (λ j. not (j == id)) ids

unfoldable pub delete_channel : ℤ → Time → Store → Result Store
unfolding lock_channel decode_channel_ids discard_channel_notifications
delete_channel id now s = do
  settings ← or_not_found s.settings
  _ ← lock_channel id s
  ids ← decode_channel_ids settings.channel_ids
  ok (record s {
    settings =
        if length (other_ids id ids) == length ids
        then s.settings
        else with_ids (other_ids id ids) s.settings;
    rows =
        discard_channel_notifications id (codes "channel_deleted")
          (codes "notification channel deleted") s.rows;
    channels =
        update_where (is_live id)
          (λ (c : Channel). record c {
            is_deleted = true;
            revision = c.revision + 1;
            config_updated_at = now;
          })
          s.channels;
  })

unfoldable pub recover_channel_notifications : ℤ → ℤ → Time → Store → Result Store
unfolding lock_channel channel_version_changed record_channel_success wake_channel_notifications
recover_channel_notifications id revision at s = do
  channel ← lock_channel id s
  ok (
      if channel_version_changed channel revision then s else record s {
        channels = record_channel_success id at s.channels;
        rows =
            if channel.enabled
            then wake_channel_notifications id at (blocked ∷ []) s.rows
            else s.rows;
      })

unfoldable pub record_failure_of_channel : Time → ChannelFailure → Store → Result Store
unfolding lock_channel channel_version_changed record_channel_failure
record_failure_of_channel clock failure s = do
  channel ← lock_channel failure.id s
  channels ←
      (if channel_version_changed channel failure.revision
        then ok s.channels
        else record_channel_failure failure.id failure.code failure.last_error
            (or_clock clock failure.failed_at) s.channels)
  ok (record s { channels = channels })

-- The live channels among some identifiers.
unfoldable pub live_channels : List ℤ → List Channel → List Channel
live_channels ids channels =
    filter (λ (c : Channel). contains c.id ids && not c.is_deleted) channels

abbrev pub is_empty : List ℤ → Bool
is_empty [] = true
is_empty (id ∷ ids) = false

-- The settings are encoded first; `ids` is none for a nil slice, which is encoded as null.
unfoldable pub replace_settings : Bool → Option (List ℤ) → Store → Result Store
unfolding decode_channel_ids live_channels
replace_settings enabled none s = failed bad_settings
replace_settings enabled (some ids) s = do
  _ ← decode_channel_ids (items ids)
  settings ← or_not_found s.settings
  reject_if (not (is_empty ids) && not (length (live_channels ids s.channels) == length ids))
      unknown_channel
  ok (record s { settings = some (record settings { enabled = enabled; channel_ids = items ids }) })
