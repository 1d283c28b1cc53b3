-- ===== src/Alert/Process/Lasting.antt =====
-- No alert is dropped without the store's word.
use mathlib.Core.List.{Mem, mem-cons_self, mem-cons_of_mem}
use mathlib.Core.Option.{none-ne-some, some_inj}
use ithiltir.Shared.Lists.{contains, All}
use ithiltir.Alert.Process.Outcome.{evaluated}
use ithiltir.Alert.Process.Keys.{
  evaluate_server-Unique, write_close_transitions-Unique, write_open_transitions-Unique,
}
use ithiltir.Shared.{
  ◌≡◌, refl, ◌⊎◌, inl, inr, ◌≢◌, Bool, true, false, Option, none, some, List, [], ◌∷◌,
}
use ithiltir.Shared.Tests.{◌==◌, Bool-cases, list_eqb_iff, nat_eq}
use ithiltir.Shared.Text.{Text, text_eq}
use ithiltir.Shared.Maps.{lookup, Unique}
use ithiltir.Shared.Int.{ℤ}
use ithiltir.Shared.Float.{Float}
use ithiltir.Shared.Time.{Time}
use ithiltir.NodeView.{NodeView}
use ithiltir.Alert.Compile.{CompiledRules, for_mounts}
use ithiltir.Alert.Runtime.{firing, RuntimeState, CloseTransition, should_heartbeat_firing}
use ithiltir.Alert.Evaluate.Kept.{Fits}
use ithiltir.Alert.Evaluate.Result.{evaluate_server-Fits}
use ithiltir.Alert.Process.{
  Closing, close_notification_params, filter_startup_opens, firing_heartbeat_interval,
  after_close_write, write_close_transition, write_close_transitions, notified_close, touch_state,
  flush_state, process_server,
}
use ithiltir.Alert.Environment.{
  Notify, unavailable, notify, CloseWrite, close_done, close_stale, close_failed, TouchWrite,
  touched, touch_failed, Env,
}
use ithiltir.Alert.Process.Accounts.{Closing_of, some_process}
use ithiltir.Alert.Process.Flushed.{flushed, lookup-flush_heartbeats}
use ithiltir.Alert.Process.Untouched.{
  after_close_write_ne, write_open_transitions_ne, filter_startup_opens_ne, evaluated_ne,
}

module _ {F : Type 0} ⦃fl : Float F⦄ where
  -- The store has answered that the event of the key is closed or gone, that its rule has
  -- another version, or that a touch of the event finds none that is open.
  abbrev pub Ended : Env F → List (CloseTransition F) → Text → RuntimeState F → Type 0
  Ended env cs j c =
      ((t : CloseTransition F) × Mem t cs
        × (t.key ≡ j)
        × ((channels : List ℤ) × (env.write_close t channels ≢ close_failed)))
      ⊎ ((s : RuntimeState F) × (s.event_id ≡ c.event_id)
          × (env.touch_open_event j s ≡ touched false))

  -- The event still fires.
  abbrev pub StillFires : RuntimeState F → Option (RuntimeState F) → Type 0
  StillFires c o =
      (s : RuntimeState F) × (o ≡ some s) × (s.phase ≡ firing) × (s.event_id ≡ c.event_id)

  abbrev pub Lasts :
      Env F → List (CloseTransition F) → Text → RuntimeState F → Option (RuntimeState F) → Type 0
  Lasts env cs j c o = Ended env cs j c ⊎ StillFires c o

  Fits-StillFires :
      (c : RuntimeState F) (o : Option (RuntimeState F))
      → c.phase ≡ firing
      → Fits (some c) o
      → StillFires c o
  Fits-StillFires c none f h = absurd (h f)
  Fits-StillFires c (some s) f (inl (g, a)) = (s, refl, a.fires, a.same_event)
  Fits-StillFires c (some s) f (inr (inl (n, p))) = absurd (n f)
  Fits-StillFires c (some s) f (inr (inr (p, q))) = absurd cc

  module _ (env : Env F) (cs : List (CloseTransition F)) (j : Text) (c : RuntimeState F) where
    own_close-Lasts :
        (t : CloseTransition F) (channels : List ℤ) (w : CloseWrite) (st : Closing F)
        → Mem t cs
        → t.key ≡ j
        → env.write_close t channels ≡ w
        → Lasts env cs j c (lookup j (st.0))
        → Lasts env cs j c (lookup j ((after_close_write t w st).0))
    unfolding after_close_write
    own_close-Lasts t channels (close_done status) (next, keys) m k e h =
        inl (inl (t, m, k, (channels, λ f. cc)))
    own_close-Lasts t channels close_stale (next, keys) m k e h =
        inl (inl (t, m, k, (channels, λ f. cc)))
    own_close-Lasts t channels close_failed (next, keys) m k e h = h

    notified_close-Lasts :
        (t : CloseTransition F) (n : Notify) (st : Closing F)
        → Mem t cs
        → Lasts env cs j c (lookup j (st.0))
        → Lasts env cs j c (lookup j ((notified_close env t n st).0))
    unfolding notified_close
    notified_close-Lasts t unavailable st m h = h
    notified_close-Lasts t (notify channels) st m h = elim (Bool-cases (t.key == j)) [
      | inl e ↦
          own_close-Lasts t channels (env.write_close t channels) st m ((list_eqb_iff t.key j).0 e)
            refl h
      | inr e ↦ rw (after_close_write_ne j t (env.write_close t channels) st e) h
    ]

    write_close_transitions-Lasts :
        (us : List (CloseTransition F)) (st : Closing F)
        → All (λ (t : CloseTransition F). Mem t cs) us
        → Lasts env cs j c (lookup j (st.0))
        → Lasts env cs j c (lookup j ((write_close_transitions env us st).0))
    unfolding write_close_transitions write_close_transition
    write_close_transitions-Lasts [] st m h = h
    write_close_transitions-Lasts (t ∷ us) st m h =
        write_close_transitions-Lasts us (write_close_transition env t st) m.1
          (notified_close-Lasts t (close_notification_params env t) st m.0 h)

    touch_state-Lasts :
        (s : RuntimeState F) (w : TouchWrite)
        → env.touch_open_event j s ≡ w
        → s.phase ≡ firing
        → s.event_id ≡ c.event_id
        → Lasts env cs j c (touch_state j s w)
    unfolding touch_state
    touch_state-Lasts s touch_failed e f q = inr (s, refl, f, q)
    touch_state-Lasts s (touched true) e f q =
        inr (record s { last_db_heartbeat_at = s.last_observed_at }, refl, f, q)
    touch_state-Lasts s (touched false) e f q = inl (inr (s, q, e))

    flush_state-Lasts :
        (keys : List Text) (s : RuntimeState F) (o : Option (RuntimeState F))
        → s.phase ≡ firing
        → s.event_id ≡ c.event_id
        → Lasts env cs j c (flush_state env keys j s o)
    unfolding flush_state
    flush_state-Lasts keys s none f q = inr (s, refl, f, q)
    flush_state-Lasts keys s (some previous) f q =
        elim (Bool-cases
          (should_heartbeat_firing previous s firing_heartbeat_interval (contains j keys))) [
            | inl e ↦ rw e (touch_state-Lasts s (env.touch_open_event j s) refl f q)
            | inr e ↦ rw e (inr (s, refl, f, q))
          ]

    flushed-Lasts :
        (current : List (Text × RuntimeState F)) (keys : List Text) (o : Option (RuntimeState F))
        → Lasts env cs j c o
        → Lasts env cs j c (flushed env current keys j o)
    flushed-Lasts current keys o (inl h) = inl h
    flushed-Lasts current keys none (inr (s, e, f, q)) = absurd (none-ne-some s e)
    flushed-Lasts current keys (some r) (inr (s, e, f, q)) =
        let same : r ≡ s = some_inj.0 e in rw same (flush_state-Lasts keys s (lookup j current) f q)

  All-cons :
      (t : CloseTransition F) (cs us : List (CloseTransition F))
      → All (λ (u : CloseTransition F). Mem u cs) us
      → All (λ (u : CloseTransition F). Mem u (t ∷ cs)) us
  All-cons t cs [] h = tt
  All-cons t cs (u ∷ us) h = (mem-cons_of_mem t h.0, All-cons t cs us h.1)

  All-self : (cs : List (CloseTransition F)) → All (λ (u : CloseTransition F). Mem u cs) cs
  All-self [] = tt
  All-self (c ∷ cs) = (mem-cons_self, All-cons c cs cs (All-self cs))

  -- An alert that fires when a server is processed fires afterwards as the same event, unless the
  -- store has accepted a close transition of its key, has refused it since its rule is of another
  -- generation, or has no open event when the alert is touched: errors of the store, missing
  -- snapshots and unmounted rules alone drop no alert.
  pub process_server-Lasts :
      (env : Env F) (id : ℤ) (view : Option (NodeView F)) (compiled : CompiledRules F)
      (mounts : List (ℤ × Bool)) (current : List (Text × RuntimeState F)) (now open_after : Time)
      (next : List (Text × RuntimeState F)) (j : Text) (c : RuntimeState F)
      → Unique current
      → lookup j current ≡ some c
      → c.phase ≡ firing
      → process_server env id view compiled mounts current now open_after ≡ some next
      → Lasts env
          (evaluated id view compiled mounts current now).close_transitions
          j
          c
          (lookup j next)
  unfolding process_server
  process_server-Lasts env id view compiled mounts current now open_after next j c u l f e =
      let r = evaluated id view compiled mounts current now in
      let ts = filter_startup_opens r.open_transitions now open_after in
      let (opened, w, q) = some_process env r ts current next _ e in
      let fits : Fits (some c) (lookup j r.next) =
        rw l at (evaluate_server-Fits id view (for_mounts compiled mounts) current now j u) in
      let first =
        write_close_transitions-Lasts env r.close_transitions j c r.close_transitions (r.next, [])
          (All-self r.close_transitions) (inr (Fits-StillFires c (lookup j r.next) f fits)) in
      let others =
        filter_startup_opens_ne j r.open_transitions now open_after
          (evaluated_ne id view (for_mounts compiled mounts) current now j c l f) in
      let single = write_open_transitions-Unique env ts (Closing_of env r).0 opened w (
        write_close_transitions-Unique env r.close_transitions (r.next, [])
          (evaluate_server-Unique id view (for_mounts compiled mounts) current now)) in
      rw (q, lookup-flush_heartbeats env current (Closing_of env r).1 j opened single)
        (flushed-Lasts env r.close_transitions j c current (Closing_of env r).1 (lookup j opened)
          (rw (write_open_transitions_ne env j ts (Closing_of env r).0 opened others w) first))
