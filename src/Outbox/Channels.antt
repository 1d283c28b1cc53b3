-- ===== src/Outbox/Channels.antt =====
-- notify_channels.go: how channels are created, replaced and switched, with what waits for them.
use ithiltir.Shared.{suc, ◌+◌, Bool, false, not, Option, none, some, List, [], ◌∷◌, ◌++◌}
use ithiltir.Shared.Tests.{◌==◌, bool_eqb, if◌then◌else◌, nat_eq}
use ithiltir.Shared.Int.{ℤ, pos, int_eq, leb_ℤ}
use ithiltir.Shared.Text.{Text, codes, text_eq}
use ithiltir.Shared.Time.{Time}
use ithiltir.Alert.Retry.{pending, retry, blocked, paused, discarded}
use ithiltir.Outbox.{
  Row, Channel, Store, Result, ok, failed, version_stale, invalid_revision, seal_failed, nil_item,
  ◌>>=◌, ◌>>◌, reject_if, update_where, find, or_not_found, empty_to_nil, is_queued, status_eq,
}
use ithiltir.Outbox.Deliver.{is_live, wake_channel_notifications}

pub record ChannelFailure : Type 0 where
  pub id : ℤ
  pub revision : ℤ
  pub code : Text
  pub last_error : Text
  pub failed_at : Time

-- What the source reads of the channel that it is given.
pub record ChannelInput : Type 0 where
  pub name : Text
  pub kind : Text
  pub config : Text
  pub enabled : Bool

unfoldable pub lock_channel : ℤ → Store → Result Channel
lock_channel id s = or_not_found (find (is_live id) s.channels)

abbrev pub as_stopped : Text → Row → Row
as_stopped code r = record r {
  status = paused;
  is_probe = false;
  failure_code = some code;
  last_error = none;
  probe_count = 0;
}

unfoldable pub pause_channel_notifications : ℤ → List Row → List Row
pause_channel_notifications id rows =
    update_where (is_queued id (pending ∷ retry ∷ blocked ∷ []))
      (as_stopped (codes "channel_disabled")) rows

abbrev pub as_dropped : Text → Text → Row → Row
as_dropped code message r = record r {
  status = discarded;
  is_probe = false;
  failure_code = some code;
  last_error = empty_to_nil message;
  probe_count = 0;
}

unfoldable pub discard_channel_notifications : ℤ → Text → Text → List Row → List Row
discard_channel_notifications id code message rows =
    update_where (is_queued id (pending ∷ retry ∷ blocked ∷ paused ∷ [])) (as_dropped code message)
      rows

-- The rows after a change of the configuration of a channel that is of the same kind.
unfoldable pub reconfigured_rows : Bool → ℤ → Time → List Row → List Row
unfolding pause_channel_notifications wake_channel_notifications
reconfigured_rows enabled id now rows =
    if enabled
    then wake_channel_notifications id now (retry ∷ blocked ∷ paused ∷ []) rows
    else pause_channel_notifications id rows

-- A new configuration starts with a clean record of deliveries.
abbrev pub reconfigured : Text → Time → Channel → Channel
reconfigured sealed now c = record c {
  config = sealed;
  revision = c.revision + 1;
  last_success_at = none;
  last_failure_at = none;
  consecutive_failures = 0;
  last_error_code = none;
  last_error = none;
  config_updated_at = now;
}

abbrev pub or_seal_failed : Option Text → Result Text
or_seal_failed none = failed seal_failed
or_seal_failed (some sealed) = ok sealed

unfoldable pub replaced_rows : ℤ → Channel → ChannelInput → Time → List Row → List Row
unfolding discard_channel_notifications reconfigured_rows
replaced_rows id current next now rows =
    if current.kind == next.kind
    then reconfigured_rows next.enabled id now rows
    else discard_channel_notifications id (codes "channel_type_changed")
        (codes "notification channel type changed") rows

-- `seal` is Seal of the cipher: the sealed configuration of a channel, or none where it fails.
module _ (seal : ℤ → Text → Text → Option Text) where
  unfoldable pub create_channel : Option ChannelInput → Time → Store → Result Store
  create_channel none now s = failed nil_item
  create_channel (some item) now s = do
    sealed ← or_seal_failed (seal (pos (suc s.last_channel)) item.kind item.config)
    ok (record s {
      channels =
          s.channels
          ++ record {
            id = pos (suc s.last_channel);
            name = item.name;
            kind = item.kind;
            config = sealed;
            enabled = item.enabled;
            is_deleted = false;
            revision = 1;
            last_success_at = none;
            last_failure_at = none;
            consecutive_failures = 0;
            last_error_code = none;
            last_error = none;
            config_updated_at = now;
          }
            ∷ [];
      last_channel = suc s.last_channel;
    })

  unfoldable pub replace_channel : ℤ → ℤ → ChannelInput → Time → Store → Result Store
  unfolding lock_channel replaced_rows
  replace_channel id revision next now s = do
    reject_if (leb_ℤ revision (pos 0)) invalid_revision
    current ← lock_channel id s
    reject_if (not (pos current.revision == revision)) version_stale
    sealed ← or_seal_failed (seal id next.kind next.config)
    ok (record s {
      channels =
          update_where (is_live id)
            (λ (c : Channel). record (reconfigured sealed now c) {
              name = next.name;
              kind = next.kind;
              enabled = next.enabled;
            })
            s.channels;
      rows = replaced_rows id current next now s.rows;
    })

  unfoldable pub update_channel_config : ℤ → ℤ → Text → Time → Store → Result Store
  unfolding lock_channel reconfigured_rows
  update_channel_config id revision config now s = do
    reject_if (leb_ℤ revision (pos 0)) invalid_revision
    current ← lock_channel id s
    reject_if (not (pos current.revision == revision)) version_stale
    sealed ← or_seal_failed (seal id current.kind config)
    ok (record s {
      channels = update_where (is_live id) (reconfigured sealed now) s.channels;
      rows = reconfigured_rows current.enabled id now s.rows;
    })

unfoldable pub switched_rows : Bool → ℤ → Time → List Row → List Row
unfolding pause_channel_notifications wake_channel_notifications
switched_rows enabled id now rows =
    if enabled
    then wake_channel_notifications id now (pending ∷ retry ∷ blocked ∷ paused ∷ []) rows
    else pause_channel_notifications id rows

unfoldable pub set_channel_enabled : ℤ → Bool → Time → Store → Result Store
unfolding lock_channel switched_rows
set_channel_enabled id enabled now s = do
  channel ← lock_channel id s
  ok (
      if bool_eqb channel.enabled enabled then s else record s {
        channels =
            update_where (is_live id)
              (λ (c : Channel). record c {
                enabled = enabled;
                revision = c.revision + 1;
                config_updated_at = now;
              })
              s.channels;
        rows = switched_rows enabled id now s.rows;
      })
