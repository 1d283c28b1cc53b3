-- ===== src/Alert/Process/Accounts.antt =====
-- Where the alerts come from that fire after a server has been processed.
use mathlib.Core.Option
use mathlib.Core.Option.{some_inj, none-ne-some}
use mathlib.Core.List.{Mem, mem-cons_self, mem-cons_of_mem}
use ithiltir.Shared.{
  ◌≡◌, refl, sym, ◌⊎◌, inl, inr, ◌≢◌, true, false, Option, none, some, List, [], ◌∷◌, arith,
}
use ithiltir.Shared.Tests.{◌==◌, Bool-cases, Option-cases, list_eqb_iff, nat_eq}
use ithiltir.Shared.Text.{Text, text_eq}
use ithiltir.Shared.Lists.{contains}
use ithiltir.Shared.Maps.{lookup, lookup-insert}
use ithiltir.Shared.Int.{ℤ, pos, ltb_ℤ}
use ithiltir.Shared.Float.{Float}
use ithiltir.Alert.Runtime.{
  firing, RuntimeState, OpenTransition, EvalResult, apply_open_transition, fire_state,
  state_or_zero, should_heartbeat_firing,
}
use ithiltir.Alert.Evaluate.Kept.{Fits}
use ithiltir.Alert.Process.{
  Closing, open_notification_params, firing_heartbeat_interval, write_close_transitions,
  after_open_write, notified_open, write_open_transition, write_open_transitions, touch_state,
  flush_state, flush_heartbeats,
}
use ithiltir.Alert.Environment.{
  Notify, unavailable, notify, OpenWrite, open_done, open_stale, open_failed, TouchWrite, touched,
  touch_failed, Env,
}
use ithiltir.Alert.Process.Cleared.{Cleared}
use ithiltir.Alert.Process.Flushed.{flushed}

module _ {F : Type 0} ⦃fl : Float F⦄ where
  -- The alert that fired under the key before.
  abbrev pub OldAlert : Option (RuntimeState F) → RuntimeState F → Type 0
  OldAlert cur s =
      (c : RuntimeState F) × (cur ≡ some c) × (c.phase ≡ firing) × (s.event_id ≡ c.event_id)

  -- An alert whose event the store has just opened for a transition of the key.
  abbrev pub NewAlert : Env F → List (OpenTransition F) → Text → RuntimeState F → Type 0
  NewAlert env ts j s =
      (t : OpenTransition F) × Mem t ts
      × (t.key ≡ j)
      × ((channels : List ℤ) × (env.write_open t channels ≡ open_done s.event_id))
      × (ltb_ℤ (pos 0) s.event_id ≡ true)

  abbrev pub Accounted :
      Option (RuntimeState F)
      → Env F
      → List (OpenTransition F)
      → Text
      → Option (RuntimeState F)
      → Type 0
  Accounted cur env ts j none = Unit
  Accounted cur env ts j (some s) = (s.phase ≢ firing) ⊎ (OldAlert cur s ⊎ NewAlert env ts j s)

  pub Fits-Accounted :
      (cur : Option (RuntimeState F)) (env : Env F) (ts : List (OpenTransition F)) (j : Text)
      (o : Option (RuntimeState F))
      → Fits cur o
      → Accounted cur env ts j o
  Fits-Accounted cur env ts j none h = tt
  Fits-Accounted none env ts j (some s) h = inl (ground arith)
  Fits-Accounted (some c) env ts j (some s) (inl (f, a)) = inr (inl (c, refl, f, a.same_event))
  Fits-Accounted (some c) env ts j (some s) (inr (inl (f, p))) = inl (ground arith)
  Fits-Accounted (some c) env ts j (some s) (inr (inr (p, e))) = inl (rw e (ground arith))

  pub Cleared-Accounted :
      (cur : Option (RuntimeState F)) (env : Env F) (ts : List (OpenTransition F)) (j : Text)
      (o r : Option (RuntimeState F))
      → Cleared o r
      → Accounted cur env ts j o
      → Accounted cur env ts j r
  Cleared-Accounted cur env ts j o none h a = tt
  Cleared-Accounted cur env ts j o (some s) (inl e) a = rw e at a
  Cleared-Accounted cur env ts j o (some s) (inr c) a = inl (ground arith)

  -- The transitions that are still to be written are among all of them.
  abbrev pub Among : List (OpenTransition F) → List (OpenTransition F) → Type 0
  Among ts [] = Unit
  Among ts (u ∷ us) = Mem u ts × Among ts us

  Among-cons :
      (t : OpenTransition F) (ts us : List (OpenTransition F)) → Among ts us → Among (t ∷ ts) us
  Among-cons t ts [] h = tt
  Among-cons t ts (u ∷ us) h = (mem-cons_of_mem t h.0, Among-cons t ts us h.1)

  pub Among-same : (ts : List (OpenTransition F)) → Among ts ts
  Among-same [] = tt
  Among-same (t ∷ ts) = (mem-cons_self, Among-cons t ts ts (Among-same ts))

  module _ (cur : Option (RuntimeState F)) (env : Env F) (ts : List (OpenTransition F))
      (j : Text) where
    opened-Accounted :
        (t : OpenTransition F) (channels : List ℤ) (event_id : ℤ)
        (next : List (Text × RuntimeState F))
        → Mem t ts
        → env.write_open t channels ≡ open_done event_id
        → ltb_ℤ (pos 0) event_id ≡ true
        → Accounted cur env ts j (lookup j next)
        → Accounted cur env ts j (lookup j (apply_open_transition next t event_id))
    unfolding apply_open_transition fire_state
    opened-Accounted t channels event_id next m w p a =
        rw (lookup-insert t.key j (fire_state t event_id (state_or_zero (lookup t.key next))) next)
          (elim (Bool-cases (t.key == j)) [
            | inl e ↦ rw e (inr (inr (t, m, (list_eqb_iff t.key j).0 e, (channels, w), p)))
            | inr e ↦ rw e a
          ])

    after_open_write-Accounted :
        (t : OpenTransition F) (channels : List ℤ) (o : OpenWrite)
        (next : List (Text × RuntimeState F))
        → Mem t ts
        → env.write_open t channels ≡ o
        → Accounted cur env ts j (lookup j next)
        → Accounted cur env ts j (lookup j (after_open_write t o next))
    unfolding after_open_write
    after_open_write-Accounted t channels (open_done event_id) next m w a =
        elim (Bool-cases (ltb_ℤ (pos 0) event_id)) [
          | inl e ↦ rw e (opened-Accounted t channels event_id next m w e a)
          | inr e ↦ rw e a
        ]
    after_open_write-Accounted t channels open_stale next m w a = a
    after_open_write-Accounted t channels open_failed next m w a = a

    notified_open-Accounted :
        (t : OpenTransition F) (n : Notify) (next : List (Text × RuntimeState F))
        → Mem t ts
        → Accounted cur env ts j (lookup j next)
        → Accounted cur env ts j (lookup j (notified_open env t n next))
    unfolding notified_open
    notified_open-Accounted t unavailable next m a = a
    notified_open-Accounted t (notify channels) next m a =
        after_open_write-Accounted t channels (env.write_open t channels) next m refl a

    write_open_transition-Accounted :
        (t : OpenTransition F) (next : List (Text × RuntimeState F))
        → Mem t ts
        → Accounted cur env ts j (lookup j next)
        → Accounted cur env ts j (lookup j (write_open_transition env t next))
    unfolding write_open_transition
    write_open_transition-Accounted t next m a =
        notified_open-Accounted t (open_notification_params env t) next m a

    pub write_open_transitions-Accounted :
        (us : List (OpenTransition F)) (next opened : List (Text × RuntimeState F))
        → Among ts us
        → write_open_transitions env us next ≡ some opened
        → Accounted cur env ts j (lookup j next)
        → Accounted cur env ts j (lookup j opened)
    unfolding write_open_transitions
    write_open_transitions-Accounted [] next opened m e a =
        let same : next ≡ opened = some_inj.0 e in rw same at a
    write_open_transitions-Accounted (t ∷ us) next opened m e a =
        elim (Option-cases t.rule.snapshot_raw) [
          | inl q ↦ absurd (none-ne-some opened (rw q at e))
          | inr (r, q) ↦
              write_open_transitions-Accounted us (write_open_transition env t next) opened m.1
                (rw q at e) (write_open_transition-Accounted t next m.0 a)
        ]

    touch_state-Accounted :
        (s : RuntimeState F) (w : TouchWrite)
        → Accounted cur env ts j (some s)
        → Accounted cur env ts j (touch_state j s w)
    unfolding touch_state
    touch_state-Accounted s touch_failed a = a
    touch_state-Accounted s (touched true) a = a
    touch_state-Accounted s (touched false) a = tt

    flush_state-Accounted :
        (keys : List Text) (s : RuntimeState F) (o : Option (RuntimeState F))
        → Accounted cur env ts j (some s)
        → Accounted cur env ts j (flush_state env keys j s o)
    unfolding flush_state
    flush_state-Accounted keys s none a = a
    flush_state-Accounted keys s (some previous) a =
        elim (Bool-cases
          (should_heartbeat_firing previous s firing_heartbeat_interval (contains j keys))) [
            | inl e ↦ rw e (touch_state-Accounted s (env.touch_open_event j s) a)
            | inr e ↦ rw e a
          ]

  pub flushed-Accounted :
      (cur : Option (RuntimeState F)) (env : Env F) (ts : List (OpenTransition F)) (j : Text)
      (current : List (Text × RuntimeState F)) (keys : List Text) (o : Option (RuntimeState F))
      → Accounted cur env ts j o
      → Accounted cur env ts j (flushed env current keys j o)
  flushed-Accounted cur env ts j current keys none a = tt
  flushed-Accounted cur env ts j current keys (some s) a =
      flush_state-Accounted cur env ts j keys s (lookup j current) a

  -- The states after the close transitions have been written.
  abbrev pub Closing_of : Env F → EvalResult F → Closing F
  Closing_of env r = write_close_transitions env r.close_transitions (r.next, [])

  pub some_process :
      (env : Env F) (r : EvalResult F) (opens : List (OpenTransition F))
      (current next : List (Text × RuntimeState F)) (o : Option (List (Text × RuntimeState F)))
      → Option.map (flush_heartbeats env current (Closing_of env r).1) o ≡ some next
      → (opened : List (Text × RuntimeState F)) × (o ≡ some opened)
        × (next ≡ flush_heartbeats env current (Closing_of env r).1 opened)
  some_process env r opens current next none e = absurd (none-ne-some next e)
  some_process env r opens current next (some opened) e = (opened, refl, sym (some_inj.0 e))
