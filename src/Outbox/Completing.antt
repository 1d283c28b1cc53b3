-- ===== src/Outbox/Completing.antt =====
-- CompleteNotification respects the life of every row.
use mathlib.Core.Path.{subst}
use ithiltir.Shared.{
  ◌≡◌, refl, sym, ◌⊎◌, inl, inr, Bool, true, false, ◌||◌, Option, none, some, List, [], ◌∷◌,
}
use ithiltir.Shared.Tests.{◌==◌, if◌then◌else◌, Bool-cases}
use ithiltir.Shared.Int.{ℤ, int_eq}
use ithiltir.Shared.Time.{Time}
use ithiltir.Alert.Retry.{sent, blocked}
use ithiltir.Outbox.{
  Row, Channel, Store, Result, ok, failed, update_where, state_changed, is_queued, status_eq,
  status_eqb, rank,
}
use ithiltir.Outbox.Sending.{
  is_sending, clear_probe, update_sending_notification, as_sent, mark_notification_sent, marked,
  completion_state,
}
use ithiltir.Outbox.Deliver.{
  completed, complete_notification, wake_channel_notifications, lock_delivery_channel,
  channel_version_changed, as_woken, record_channel_success,
}
use ithiltir.Outbox.Rows.{Each, Each-refl, Each-map, when-Steps}
use ithiltir.Outbox.Lifecycle.{as_woken-Requeues, as_sent-Settles}
use ithiltir.Outbox.Settling.{
  Keeps, Yields, Yields-bind, update_sending-ok, Each-map-map, settled_then-Steps, ok_inj,
  sending_row, ok-ne-failed,
}

-- How a row is marked as sent: it was being sent, or it stood there as sent before.
abbrev pub Marks : ℤ → ℤ → Time → List Row → Bool × List Row → Type 0
Marks id channel_id at rows (marking, next) =
    ((marking ≡ true)
      × (next ≡ update_where (is_sending id channel_id) (clear_probe (as_sent at)) rows))
    ⊎ ((marking ≡ false) × (next ≡ rows))

Marks-ok :
    (id channel_id : ℤ) (at : Time) (rows : List Row) (a b : Bool × List Row)
    → Marks id channel_id at rows a
    → ok a ≡ ok b
    → Marks id channel_id at rows b
Marks-ok id channel_id at rows a b h e = subst (Marks id channel_id at rows) (ok_inj e) h

stood_ok :
    (o : Option Row) (rows : List Row) (marking : Bool × List Row)
    → completion_state o rows ≡ ok marking
    → marking ≡ (false, rows)
unfolding completion_state
stood_ok none rows marking h = absurd (ok-ne-failed (sym h))
stood_ok (some r) rows marking h = elim (Bool-cases (r.status == sent)) [
  | inl e ↦ sym (ok_inj (rw e at h))
  | inr e ↦ absurd (ok-ne-failed (sym (rw e at h)))
]

marked_ok :
    (id channel_id : ℤ) (at : Time) (rows : List Row) (m : Result (List Row))
    (marking : Bool × List Row)
    → update_sending_notification id channel_id (as_sent at) rows ≡ m
    → marked id channel_id rows m ≡ ok marking
    → Marks id channel_id at rows marking
unfolding marked
marked_ok id channel_id at rows (ok next) marking e h =
    Marks-ok id channel_id at rows (true, next) marking
      (inl (refl, (update_sending-ok id channel_id (as_sent at) rows next e).0)) h
marked_ok id channel_id at rows (failed state_changed) marking e h =
    subst (Marks id channel_id at rows) (sym (stood_ok _ rows marking h)) (inr (refl, refl))
marked_ok id channel_id at rows (failed x) marking e h = absurd (ok-ne-failed (sym h))

pub mark-Marks :
    (id channel_id : ℤ) (at : Time) (rows : List Row) (marking : Bool × List Row)
    → mark_notification_sent id channel_id at rows ≡ ok marking
    → Marks id channel_id at rows marking
unfolding mark_notification_sent
mark-Marks id channel_id at rows marking h =
    marked_ok id channel_id at rows (update_sending_notification id channel_id (as_sent at) rows)
      marking refl h

sent-Each :
    (id channel_id : ℤ) (at : Time) (rows : List Row)
    → Each rows (update_where (is_sending id channel_id) (clear_probe (as_sent at)) rows)
sent-Each id channel_id at rows = Each-map _ rows (λ r m.
    when-Steps (is_sending id channel_id) (clear_probe (as_sent at)) r
      (λ e. as_sent-Settles at r (sending_row id channel_id r e)))

woken-Each :
    (id channel_id : ℤ) (at : Time) (rows : List Row)
    → Each rows (
        update_where
          (is_queued channel_id (blocked ∷ []))
          (as_woken at)
          (update_where (is_sending id channel_id) (clear_probe (as_sent at)) rows))
unfolding status_eqb rank
woken-Each id channel_id at rows = Each-map-map _ _ rows (λ r.
    settled_then-Steps id channel_id channel_id (blocked ∷ []) (as_sent at) (as_woken at) r
      (as_sent-Settles at) refl (as_woken-Requeues at (blocked ∷ []) ((refl, refl), tt)))

completed-Keeps :
    (id channel_id revision : ℤ) (at : Time) (channel : Channel) (s : Store) (rows : List Row)
    → rows ≡ update_where (is_sending id channel_id) (clear_probe (as_sent at)) s.rows
    → Keeps s (completed channel_id revision at channel s (true, rows))
unfolding completed wake_channel_notifications
completed-Keeps id channel_id revision at channel s rows h =
    go (channel.is_deleted || channel_version_changed channel revision)
  where
    go :
        (b : Bool)
        → Keeps s (
            if b then record s { rows = rows } else record s {
              rows = wake_channel_notifications channel_id at (blocked ∷ []) rows;
              channels = record_channel_success channel_id at s.channels;
            })
    go true = record { each = rw h (sent-Each id channel_id at s.rows); last = refl }
    go false = record { each = rw h (woken-Each id channel_id at s.rows); last = refl }

pub complete-Yields :
    (id channel_id revision : ℤ) (at : Time) (s : Store)
    → Yields s (complete_notification id channel_id revision at s)
unfolding complete_notification
complete-Yields id channel_id revision at s =
    Yields-bind s (lock_delivery_channel channel_id s.channels) _ (λ channel h.
      Yields-bind s (mark_notification_sent id channel_id at s.rows) _
        (λ marking k. go channel marking (mark-Marks id channel_id at s.rows marking k)))
  where
    go :
        (channel : Channel) (marking : Bool × List Row)
        → Marks id channel_id at s.rows marking
        → Keeps s (completed channel_id revision at channel s marking)
    go channel (true, rows) (inl m) = completed-Keeps id channel_id revision at channel s rows m.1
    go channel (true, rows) (inr m) = absurd cc
    go channel (false, rows) (inl m) = absurd cc
    go channel (false, rows) (inr m) = record {
      each = subst (Each s.rows) (sym m.1) (Each-refl s.rows);
      last = refl;
    }
