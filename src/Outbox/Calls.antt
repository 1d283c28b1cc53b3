-- ===== src/Outbox/Calls.antt =====
-- The calls of the store in any order, and what every table that they lead to has in common.
use mathlib.Core.Path.{subst}
use ithiltir.Shared.{ℕ, refl, sym, Bool, Option, List, [], ◌∷◌}
use ithiltir.Shared.Lists.{All}
use ithiltir.Shared.Int.{ℤ, int_eq}
use ithiltir.Shared.Text.{Text}
use ithiltir.Shared.Time.{Time}
use ithiltir.Outbox.{Payload, Store, Result, ok, failed, OnOk, commit}
use ithiltir.Outbox.Enqueue.{
  AlertNotificationParams, ChannelMessage, insert_alert_notifications, enqueue_notifications,
}
use ithiltir.Outbox.Take.{take_next_notification, take_notification_batch}
use ithiltir.Outbox.Sending.{StoredFailure}
use ithiltir.Outbox.Deliver.{complete_notification, requeue_notification}
use ithiltir.Outbox.Failures.{
  retry_notification, block_notification, pause_notification, discard_notification,
}
use ithiltir.Outbox.Channels.{
  ChannelInput, ChannelFailure, create_channel, replace_channel, update_channel_config,
  set_channel_enabled,
}
use ithiltir.Outbox.Settings.{
  delete_channel, recover_channel_notifications, record_failure_of_channel, replace_settings,
}
use ithiltir.Outbox.Rows.{
  Each-Evolves, Each-subjects, Evolves, Evolves-append, Evolves-IsSound, IsTable, AreApart,
  IsNumbered, subjects, Each-refl,
}
use ithiltir.Outbox.Settling.{Keeps, Yields, requeue-Yields, pause-Yields, discard-Yields}
use ithiltir.Outbox.Failing.{retry-Yields, block-Yields}
use ithiltir.Outbox.Completing.{complete-Yields}
use ithiltir.Outbox.Taking.{take_next-Keeps}
use ithiltir.Outbox.Batching.{take_batch-Keeps}
use ithiltir.Outbox.Waiting.{
  create-Yields, replace-Yields, update_config-Yields, set_enabled-Yields, delete-Yields,
  recover-Yields, record_failure_of-Yields, replace_settings-Yields,
}
use ithiltir.Outbox.Entering.{Grows, insert_alert-Grows, enqueue-Grows}

-- `inserts` has the events that there are at the time.
pub data Call : Type 0 where
  inserts : (ℤ → Bool) → ℤ → List AlertNotificationParams → Time → Call
  enqueues : Time → Text → Text → List ChannelMessage → Time → Call
  takes takes_batch : Time → Call
  completes : ℤ → ℤ → ℤ → Time → Call
  retries blocks pauses discards : Time → StoredFailure → Call
  requeues : Time → ℤ → ℤ → Time → Call
  creates : Option ChannelInput → Time → Call
  replaces : ℤ → ℤ → ChannelInput → Time → Call
  updates : ℤ → ℤ → Text → Time → Call
  switches : ℤ → Bool → Time → Call
  deletes : ℤ → Time → Call
  recovers : ℤ → ℤ → Time → Call
  fails : Time → ChannelFailure → Call
  sets : Bool → Option (List ℤ) → Call

-- A table with new rows that keeps what holds of it.
Grows-IsTable :
    (s t : Store) → IsTable s → Grows s.rows t.rows t.last_id → Evolves s.rows t.rows × IsTable t
Grows-IsTable s t v g =
    let e : Evolves s.rows t.rows =
      subst (Evolves s.rows) (sym g.grown) (Evolves-append s.rows g.new g.fresh) in
    (
      e,
      record {
        apart = g.apart;
        numbered = g.numbered;
        sound = Evolves-IsSound s.rows t.rows e v.sound;
      },
    )

Keeps-IsTable : (s t : Store) → IsTable s → Keeps s t → Evolves s.rows t.rows × IsTable t
Keeps-IsTable s t v k =
    let e = Each-Evolves s.rows t.rows k.each in
    let same = sym (Each-subjects s.rows t.rows k.each) in
    (
      e,
      record {
        apart = subst AreApart same v.apart;
        numbered =
            subst (λ xs. All (IsNumbered t.last_id) xs) same
              (subst (λ n. All (IsNumbered n) (subjects s.rows)) (sym k.last) v.numbered);
        sound = Evolves-IsSound s.rows t.rows e v.sound;
      },
    )

abbrev Goes : Store → Store → Type 0
Goes s t = Evolves s.rows t.rows × IsTable t

Goes-refl : (s : Store) → IsTable s → Goes s s
Goes-refl s v = Keeps-IsTable s s v (record { each = Each-refl s.rows; last = refl })

Yields-Goes : (s : Store) (m : Result Store) → IsTable s → Yields s m → Goes s (commit s m)
Yields-Goes s (ok t) v h = Keeps-IsTable s t v h
Yields-Goes s (failed e) v h = Goes-refl s v

Grows-Goes :
    (s : Store) (m : Result Store)
    → IsTable s
    → OnOk (λ (t : Store). Grows s.rows t.rows t.last_id) m
    → Goes s (commit s m)
Grows-Goes s (ok t) v h = Grows-IsTable s t v h
Grows-Goes s (failed e) v h = Goes-refl s v

module _ (units : List Payload → ℕ) (seal : ℤ → Text → Text → Option Text) where
  -- The tables after a call.
  unfoldable pub step : Store → Call → Store
  step s (inserts is_event event_id params now) =
      commit s (insert_alert_notifications is_event event_id params now s)
  step s (enqueues clock key event params now) =
      commit s (enqueue_notifications clock key event params now s)
  step s (takes now) = (take_next_notification now s).0
  step s (takes_batch now) = (take_notification_batch units now s).0
  step s (completes id channel_id revision at) =
      commit s (complete_notification id channel_id revision at s)
  step s (retries clock failure) = commit s (retry_notification clock failure s)
  step s (blocks clock failure) = commit s (block_notification clock failure s)
  step s (pauses clock failure) = commit s (pause_notification clock failure s)
  step s (discards clock failure) = commit s (discard_notification clock failure s)
  step s (requeues clock id channel_id at) =
      commit s (requeue_notification clock id channel_id at s)
  step s (creates item now) = commit s (create_channel seal item now s)
  step s (replaces id revision next now) = commit s (replace_channel seal id revision next now s)
  step s (updates id revision config now) =
      commit s (update_channel_config seal id revision config now s)
  step s (switches id enabled now) = commit s (set_channel_enabled id enabled now s)
  step s (deletes id now) = commit s (delete_channel id now s)
  step s (recovers id revision at) = commit s (recover_channel_notifications id revision at s)
  step s (fails clock failure) = commit s (record_failure_of_channel clock failure s)
  step s (sets enabled ids) = commit s (replace_settings enabled ids s)

  unfoldable pub run : Store → List Call → Store
  run s [] = s
  run s (c ∷ calls) = run (step s c) calls

  pub step-Goes :
      (s : Store) (c : Call) → IsTable s → Evolves s.rows (step s c).rows × IsTable (step s c)
  unfolding step
  step-Goes s (inserts is_event event_id params now) v =
      Grows-Goes s _ v (insert_alert-Grows is_event event_id params now s v)
  step-Goes s (enqueues clock key event params now) v =
      Grows-Goes s _ v (enqueue-Grows clock key event params now s v)
  step-Goes s (takes now) v = Keeps-IsTable s _ v (take_next-Keeps now s v)
  step-Goes s (takes_batch now) v = Keeps-IsTable s _ v (take_batch-Keeps units now s v)
  step-Goes s (completes id channel_id revision at) v =
      Yields-Goes s _ v (complete-Yields id channel_id revision at s)
  step-Goes s (retries clock failure) v = Yields-Goes s _ v (retry-Yields clock failure s)
  step-Goes s (blocks clock failure) v = Yields-Goes s _ v (block-Yields clock failure s)
  step-Goes s (pauses clock failure) v = Yields-Goes s _ v (pause-Yields clock failure s)
  step-Goes s (discards clock failure) v = Yields-Goes s _ v (discard-Yields clock failure s)
  step-Goes s (requeues clock id channel_id at) v =
      Yields-Goes s _ v (requeue-Yields clock id channel_id at s)
  step-Goes s (creates item now) v = Yields-Goes s _ v (create-Yields seal item now s)
  step-Goes s (replaces id revision next now) v =
      Yields-Goes s _ v (replace-Yields seal id revision next now s)
  step-Goes s (updates id revision config now) v =
      Yields-Goes s _ v (update_config-Yields seal id revision config now s)
  step-Goes s (switches id enabled now) v = Yields-Goes s _ v (set_enabled-Yields id enabled now s)
  step-Goes s (deletes id now) v = Yields-Goes s _ v (delete-Yields id now s)
  step-Goes s (recovers id revision at) v = Yields-Goes s _ v (recover-Yields id revision at s)
  step-Goes s (fails clock failure) v = Yields-Goes s _ v (record_failure_of-Yields clock failure s)
  step-Goes s (sets enabled ids) v = Yields-Goes s _ v (replace_settings-Yields enabled ids s)
