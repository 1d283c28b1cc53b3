-- ===== src/Alert/Process/Keys.antt =====
-- No key stands twice in the states that an evaluation and its writes give.
use mathlib.Core.Option.{none-ne-some, some_inj}
use ithiltir.Shared.{
  ◌≡◌, inl, inr, Bool, true, false, not, ◌&&◌, ◌||◌, Option, none, some, List, [], ◌∷◌,
}
use ithiltir.Shared.Tests.{Bool-cases, Option-cases, nat_eq}
use ithiltir.Shared.Text.{Text, text_eq}
use ithiltir.Shared.Maps.{lookup, erase, Unique, Unique-insert, Unique-erase}
use ithiltir.Shared.Int.{ℤ, pos, ltb_ℤ}
use ithiltir.Shared.Float.{Float}
use ithiltir.Shared.Time.{Time}
use ithiltir.NodeView.{NodeView}
use ithiltir.Alert.Compile.{CompiledRule, CompiledRules, state_key}
use ithiltir.Alert.Runtime.{
  is_firing, RuntimeState, OpenTransition, CloseTransition, EvalResult, cooldown_after_close,
  new_cooldown_state, apply_open_transition, fire_state, state_or_zero,
}
use ithiltir.Alert.Evaluate.{
  evaluate_server, evaluate_rules, record_verdict, keep_entry, keep_entries, empty_result,
  evaluate_scene, scene_of, Scene, is_seen, store_some, rule_verdict,
}
use ithiltir.Alert.Process.{
  Closing, open_notification_params, close_notification_params, drop_closed, after_close_write,
  write_close_transition, write_close_transitions, after_open_write, notified_close, notified_open,
  write_open_transition, write_open_transitions,
}
use ithiltir.Alert.Environment.{
  Notify, unavailable, notify, CloseStatus, closed, not_found, CloseWrite, close_done, close_stale,
  close_failed, OpenWrite, open_done, open_stale, open_failed, Env, should_drop_runtime_after_close,
}
use ithiltir.Alert.Evaluate.Result.{SomeScene, by_scene}

module _ {F : Type 0} ⦃fl : Float F⦄ where
  store_some-Unique :
      (k : Text) (o : Option (RuntimeState F)) (m : List (Text × RuntimeState F))
      → Unique m
      → Unique (store_some k m o)
  store_some-Unique k none m u = u
  store_some-Unique k (some s) m u = Unique-insert k s m u

  evaluate_rules-Unique :
      (sc : Scene F) (current : List (Text × RuntimeState F)) (rules : List (CompiledRule F))
      (r : EvalResult F)
      → Unique r.next
      → Unique (evaluate_rules sc current rules r).next
  unfolding evaluate_rules record_verdict
  evaluate_rules-Unique sc current [] r u = u
  evaluate_rules-Unique sc current (rule ∷ rules) r u = evaluate_rules-Unique sc current rules _ (
      store_some-Unique (state_key rule)
        (rule_verdict sc rule (lookup (state_key rule) current)).state r.next u)

  keep_entry-Unique :
      (all : Bool) (id : ℤ) (now : Time) (view : Option (NodeView F)) (compiled : CompiledRules F)
      (k : Text) (s : RuntimeState F) (r : EvalResult F)
      → Unique r.next
      → Unique (keep_entry all id now view compiled k s r).next
  unfolding keep_entry
  keep_entry-Unique all id now view compiled k s r u =
      elim (Bool-cases (is_firing s.phase && (all || not (is_seen k compiled.rules)))) [
        | inl e ↦ rw e (Unique-insert k s r.next u)
        | inr e ↦ rw e u
      ]

  keep_entries-Unique :
      (all : Bool) (id : ℤ) (now : Time) (view : Option (NodeView F)) (compiled : CompiledRules F)
      (m : List (Text × RuntimeState F)) (r : EvalResult F)
      → Unique r.next
      → Unique (keep_entries all id now view compiled m r).next
  unfolding keep_entries
  keep_entries-Unique all id now view compiled [] r u = u
  keep_entries-Unique all id now view compiled ((k, s) ∷ m) r u =
      keep_entries-Unique all id now view compiled m _
        (keep_entry-Unique all id now view compiled k s r u)

  some_scene-Unique :
      (o : Option (Scene F)) (id : ℤ) (view : Option (NodeView F)) (compiled : CompiledRules F)
      (current : List (Text × RuntimeState F)) (now : Time)
      → Unique (SomeScene o id view compiled current now).next
  unfolding evaluate_scene
  some_scene-Unique none id view compiled current now =
      keep_entries-Unique true id now none compiled current empty_result tt
  some_scene-Unique (some sc) id view compiled current now =
      keep_entries-Unique false sc.server_id sc.now (some sc.view) compiled current _
        (evaluate_rules-Unique sc current compiled.rules empty_result tt)

  pub evaluate_server-Unique :
      (id : ℤ) (view : Option (NodeView F)) (compiled : CompiledRules F)
      (current : List (Text × RuntimeState F)) (now : Time)
      → Unique (evaluate_server id view compiled current now).next
  evaluate_server-Unique id view compiled current now =
      rw (by_scene id view compiled current now)
        (some_scene-Unique (scene_of id view now) id view compiled current now)

  drop_closed-Unique :
      (c : CloseTransition F) (status : CloseStatus) (next : List (Text × RuntimeState F))
      → Unique next
      → Unique (drop_closed c status next)
  unfolding drop_closed should_drop_runtime_after_close
  drop_closed-Unique c closed next u = elim (Bool-cases (cooldown_after_close c)) [
    | inl e ↦ rw e (
        Unique-insert c.key (new_cooldown_state c.rule c.closed_at) (erase c.key next)
          (Unique-erase c.key next u))
    | inr e ↦ rw e (Unique-erase c.key next u)
  ]
  drop_closed-Unique c not_found next u = elim (Bool-cases (cooldown_after_close c)) [
    | inl e ↦ rw e (Unique-erase c.key next u)
    | inr e ↦ rw e (Unique-erase c.key next u)
  ]

  after_close_write-Unique :
      (c : CloseTransition F) (w : CloseWrite) (st : Closing F)
      → Unique (st.0)
      → Unique ((after_close_write c w st).0)
  unfolding after_close_write
  after_close_write-Unique c (close_done status) (next, keys) u = drop_closed-Unique c status next u
  after_close_write-Unique c close_stale (next, keys) u = Unique-erase c.key next u
  after_close_write-Unique c close_failed (next, keys) u = u

  notified_close-Unique :
      (env : Env F) (c : CloseTransition F) (n : Notify) (st : Closing F)
      → Unique (st.0)
      → Unique ((notified_close env c n st).0)
  unfolding notified_close
  notified_close-Unique env c unavailable st u = u
  notified_close-Unique env c (notify channels) st u =
      after_close_write-Unique c (env.write_close c channels) st u

  pub write_close_transitions-Unique :
      (env : Env F) (cs : List (CloseTransition F)) (st : Closing F)
      → Unique (st.0)
      → Unique ((write_close_transitions env cs st).0)
  unfolding write_close_transitions write_close_transition
  write_close_transitions-Unique env [] st u = u
  write_close_transitions-Unique env (c ∷ cs) st u =
      write_close_transitions-Unique env cs (write_close_transition env c st)
        (notified_close-Unique env c (close_notification_params env c) st u)

  after_open_write-Unique :
      (t : OpenTransition F) (w : OpenWrite) (next : List (Text × RuntimeState F))
      → Unique next
      → Unique (after_open_write t w next)
  unfolding after_open_write apply_open_transition
  after_open_write-Unique t (open_done event_id) next u =
      elim (Bool-cases (ltb_ℤ (pos 0) event_id)) [
        | inl e ↦
            rw e (
              Unique-insert t.key (fire_state t event_id (state_or_zero (lookup t.key next))) next
                u)
        | inr e ↦ rw e u
      ]
  after_open_write-Unique t open_stale next u = u
  after_open_write-Unique t open_failed next u = u

  notified_open-Unique :
      (env : Env F) (t : OpenTransition F) (n : Notify) (next : List (Text × RuntimeState F))
      → Unique next
      → Unique (notified_open env t n next)
  unfolding notified_open
  notified_open-Unique env t unavailable next u = u
  notified_open-Unique env t (notify channels) next u =
      after_open_write-Unique t (env.write_open t channels) next u

  pub write_open_transitions-Unique :
      (env : Env F) (ts : List (OpenTransition F)) (next opened : List (Text × RuntimeState F))
      → write_open_transitions env ts next ≡ some opened
      → Unique next
      → Unique opened
  unfolding write_open_transitions write_open_transition
  write_open_transitions-Unique env [] next opened e u =
      let same : next ≡ opened = some_inj.0 e in rw same at u
  write_open_transitions-Unique env (t ∷ ts) next opened e u =
      elim (Option-cases t.rule.snapshot_raw) [
        | inl q ↦ absurd (none-ne-some opened (rw q at e))
        | inr (r, q) ↦
            write_open_transitions-Unique env ts (write_open_transition env t next) opened
              (rw q at e) (notified_open-Unique env t (open_notification_params env t) next u)
      ]
