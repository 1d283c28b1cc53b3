-- ===== src/Alert/Process/Total.antt =====
-- Processing a server with compiled rules meets no error.
use mathlib.Core.Option
use ithiltir.Shared.Lists.{All, All-append}
use ithiltir.AlertSpec.Extract.{compare}
use ithiltir.AlertSpec.Rules.{AlertRule}
use ithiltir.Alert.Runtime.{
  is_cooldown, is_offline_rule, duration_satisfied, cooldown_active, is_firing, RuntimeState,
  OpenTransition, EvalResult,
}
use ithiltir.Alert.Evaluate.{
  hold_if_firing, clear_verdict, pend_verdict, hold_verdict, compared_verdict, measured_verdict,
  append_some, evaluate_rules, record_verdict, empty_result, evaluate_scene, scene_of, Scene,
  rule_verdict,
}
use ithiltir.Alert.Evaluate.Closes.{opens-keep_entries}
use ithiltir.Alert.Compile.{
  compile_rules, rule_mounted, CompiledRule, CompiledRules, for_mounts, state_key,
}
use ithiltir.Alert.Compile.Sources.{HasSnapshot, Sourced, for_mounts-All, compile_rules-Sourced}
use ithiltir.Shared.{
  ◌≡◌, refl, ap, inl, inr, Bool, true, false, not, ◌&&◌, ◌||◌, Option, none, some, List, [], ◌∷◌,
}
use ithiltir.Shared.Tests.{Bool-cases, nat_eq}
use ithiltir.Shared.Text.{Text, text_eq}
use ithiltir.Shared.Maps.{lookup}
use ithiltir.Shared.Int.{ℤ}
use ithiltir.Shared.Float.{Float}
use ithiltir.Shared.Time.{Time, is_zero, before}
use ithiltir.NodeView.{NodeView}
use ithiltir.Alert.Process.{
  filter_startup_opens, write_open_transition, write_open_transitions, flush_heartbeats,
  process_server,
}
use ithiltir.Alert.Environment.{Env}
use ithiltir.Alert.Evaluate.Result.{SomeScene, by_scene}
use ithiltir.Alert.Process.Outcome.{evaluated}
use ithiltir.Alert.Process.Accounts.{Closing_of}

module _ {F : Type 0} ⦃fl : Float F⦄ where
  -- A verdict opens an alert for its own rule.
  abbrev OwnRule : CompiledRule F → Option (OpenTransition F) → Type 0
  OwnRule rule none = Unit
  OwnRule rule (some t) = t.rule ≡ rule

  pend_verdict-OwnRule :
      (sc : Scene F) (rule : CompiledRule F) (since : Time) (v t : F) (at : Time)
      → OwnRule rule (pend_verdict sc rule since v t at).opens
  unfolding pend_verdict
  pend_verdict-OwnRule sc rule since v t at =
      elim (Bool-cases (duration_satisfied since rule.duration_sec at)) [
        | inl e ↦ rw e refl
        | inr e ↦ rw e tt
      ]

  hold_verdict-OwnRule :
      (sc : Scene F) (rule : CompiledRule F) (o : Option (RuntimeState F)) (v t : F) (at : Time)
      → OwnRule rule (hold_verdict sc rule o v t at).opens
  unfolding hold_verdict
  hold_verdict-OwnRule sc rule none v t at = pend_verdict-OwnRule sc rule _ v t at
  hold_verdict-OwnRule sc rule (some s) v t at = elim (Bool-cases (is_firing s.phase)) [
    | inl e ↦ rw e tt
    | inr e ↦ rw e (pend_verdict-OwnRule sc rule _ v t at)
  ]

  hold_if_firing-OwnRule :
      (rule : CompiledRule F) (o : Option (RuntimeState F)) → OwnRule rule (hold_if_firing o).opens
  hold_if_firing-OwnRule rule none = tt
  hold_if_firing-OwnRule rule (some s) = tt

  clear_verdict-OwnRule :
      (sc : Scene F) (rule : CompiledRule F) (o : Option (RuntimeState F)) (v t : F) (at : Time)
      → OwnRule rule (clear_verdict sc rule o v t at).opens
  unfolding clear_verdict
  clear_verdict-OwnRule sc rule none v t at = tt
  clear_verdict-OwnRule sc rule (some s) v t at = elim (Bool-cases (is_firing s.phase)) [
    | inl e ↦ rw e tt
    | inr e ↦ rw e tt
  ]

  compared_verdict-OwnRule :
      (sc : Scene F) (rule : CompiledRule F) (o : Option (RuntimeState F)) (v t : Option F)
      (at : Time)
      → OwnRule rule (compared_verdict sc rule o v t at).opens
  unfolding compared_verdict
  compared_verdict-OwnRule sc rule o (some v) (some t) at =
      elim (Bool-cases (compare rule.operator v t)) [
        | inl e ↦ rw e (hold_verdict-OwnRule sc rule o v t at)
        | inr e ↦ rw e (clear_verdict-OwnRule sc rule o v t at)
      ]
  compared_verdict-OwnRule sc rule o (some v) none at = hold_if_firing-OwnRule rule o
  compared_verdict-OwnRule sc rule o none t at = hold_if_firing-OwnRule rule o

  measured_verdict-OwnRule :
      (sc : Scene F) (rule : CompiledRule F) (o : Option (RuntimeState F))
      → OwnRule rule (measured_verdict sc rule o).opens
  unfolding measured_verdict
  measured_verdict-OwnRule sc rule o =
      elim (Bool-cases (not sc.online && not (is_offline_rule rule))) [
        | inl e ↦ rw e (hold_if_firing-OwnRule rule o)
        | inr e ↦ rw e (compared_verdict-OwnRule sc rule o _ _ _)
      ]

  rule_verdict-OwnRule :
      (sc : Scene F) (rule : CompiledRule F) (o : Option (RuntimeState F))
      → OwnRule rule (rule_verdict sc rule o).opens
  unfolding rule_verdict
  rule_verdict-OwnRule sc rule none = measured_verdict-OwnRule sc rule none
  rule_verdict-OwnRule sc rule (some s) = elim (Bool-cases (is_cooldown s.phase)) [
    | inl c ↦ elim (Bool-cases (cooldown_active s sc.now)) [
      | inl a ↦ rw (c, a) tt
      | inr a ↦ rw (c, a) (measured_verdict-OwnRule sc rule none)
    ]
    | inr c ↦ rw c (measured_verdict-OwnRule sc rule (some s))
  ]

  -- The rule of a transition carries its snapshot.
  abbrev Encoded : OpenTransition F → Type 0
  Encoded t = HasSnapshot t.rule

  append_some-Encoded :
      (rule : CompiledRule F) (ts : List (OpenTransition F)) (o : Option (OpenTransition F))
      → HasSnapshot rule
      → OwnRule rule o
      → All Encoded ts
      → All Encoded (append_some ts o)
  append_some-Encoded rule ts none s q h = h
  append_some-Encoded rule ts (some t) s q h = All-append Encoded ts (t ∷ []) h (rw q s, tt)

  evaluate_rules-Encoded :
      (sc : Scene F) (current : List (Text × RuntimeState F)) (rules : List (CompiledRule F))
      (r : EvalResult F)
      → All HasSnapshot rules
      → All Encoded r.open_transitions
      → All Encoded (evaluate_rules sc current rules r).open_transitions
  unfolding evaluate_rules record_verdict
  evaluate_rules-Encoded sc current [] r s h = h
  evaluate_rules-Encoded sc current (rule ∷ rules) r s h =
      evaluate_rules-Encoded sc current rules _ s.1 (
        append_some-Encoded rule r.open_transitions _ s.0
          (rule_verdict-OwnRule sc rule (lookup (state_key rule) current)) h)

  some_scene-Encoded :
      (o : Option (Scene F)) (id : ℤ) (view : Option (NodeView F)) (compiled : CompiledRules F)
      (current : List (Text × RuntimeState F)) (now : Time)
      → All HasSnapshot compiled.rules
      → All Encoded (SomeScene o id view compiled current now).open_transitions
  unfolding evaluate_scene
  some_scene-Encoded none id view compiled current now s =
      rw (opens-keep_entries true id now none compiled current empty_result) tt
  some_scene-Encoded (some sc) id view compiled current now s =
      rw
        (opens-keep_entries false sc.server_id sc.now (some sc.view) compiled current
          (evaluate_rules sc current compiled.rules empty_result))
        (evaluate_rules-Encoded sc current compiled.rules empty_result s tt)

  filter_startup_opens-Encoded :
      (ts : List (OpenTransition F)) (now open_after : Time)
      → All Encoded ts
      → All Encoded (filter_startup_opens ts now open_after)
  unfolding filter_startup_opens
  filter_startup_opens-Encoded ts now open_after h =
      elim (Bool-cases (is_zero open_after || not (before now open_after))) [
        | inl e ↦ rw e h
        | inr e ↦ rw e tt
      ]

  write_open_transitions_total :
      (env : Env F) (ts : List (OpenTransition F)) (next : List (Text × RuntimeState F))
      → All Encoded ts
      → (opened : List (Text × RuntimeState F)) × (write_open_transitions env ts next ≡ some opened)
  unfolding write_open_transitions
  write_open_transitions_total env [] next h = (next, refl)
  write_open_transitions_total env (t ∷ ts) next h =
      let (opened, e) =
        write_open_transitions_total env ts (write_open_transition env t next) h.1 in
      (opened, simp (h.0.1, e))

  weaken :
      (items : List (AlertRule F)) (mounts : List (ℤ × Bool)) (rules : List (CompiledRule F))
      → All (λ (r : CompiledRule F). Sourced items r × (rule_mounted r mounts ≡ true)) rules
      → All HasSnapshot rules
  weaken items mounts [] h = tt
  weaken items mounts (r ∷ rules) h = (h.0.0.0, weaken items mounts rules h.1)

  -- With rules that the compiler has given, processing a server always gives its states: no transition
  -- meets a rule without a snapshot, whatever the mounts, the states and the answers of the store.
  pub process_server_total :
      (items : List (AlertRule F)) (at : Time) (rules : CompiledRules F) (env : Env F) (id : ℤ)
      (view : Option (NodeView F)) (mounts : List (ℤ × Bool))
      (current : List (Text × RuntimeState F)) (now open_after : Time)
      → compile_rules items at ≡ some rules
      → (next : List (Text × RuntimeState F)) × (process_server env id view rules mounts current now
            open_after
          ≡ some next)
  unfolding process_server
  process_server_total items at rules env id view mounts current now open_after h =
      let r = evaluated id view rules mounts current now in
      let known =
        weaken items mounts _
          (for_mounts-All (Sourced items) rules mounts (compile_rules-Sourced items at rules h)) in
      let encoded : All Encoded r.open_transitions =
        rw (by_scene id view (for_mounts rules mounts) current now) (
          some_scene-Encoded (scene_of id view now) id view (for_mounts rules mounts) current now
            known) in
      let (opened, e) =
        write_open_transitions_total env (filter_startup_opens r.open_transitions now open_after)
          (Closing_of env r).0
          (filter_startup_opens-Encoded r.open_transitions now open_after encoded) in
      (
        flush_heartbeats env current (Closing_of env r).1 opened,
        ap (Option.map (flush_heartbeats env current (Closing_of env r).1)) e,
      )
