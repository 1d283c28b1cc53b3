-- ===== src/Alert/Evaluate.antt =====
-- internal/alert/runtime.go: EvaluateServer. What the body of its loop does for one rule is a
-- verdict: the state that it stores in Next, if any, and the transitions that it appends. `compiled`
-- is not nil, as in its only call.
pub mod Kept
pub mod Loop
pub mod Transitions
pub mod Closes
pub mod Result
use ithiltir.Shared.{
  ℕ, ◌+◌, ◌<◌, Bool, true, false, not, ◌&&◌, ◌||◌, Option, none, some, List, [], ◌∷◌, ◌++◌,
}
use ithiltir.Shared.Tests.{◌==◌, ltb, if◌then◌else◌}
use ithiltir.Shared.Text.{Text, text_eq}
use ithiltir.Shared.Maps.{lookup, insert}
use ithiltir.Shared.Int.{ℤ}
use ithiltir.Shared.Float.{Float}
use ithiltir.Shared.Time.{Time, is_zero, before}
use ithiltir.NodeView.{NodeView}
use ithiltir.AlertSpec.Extract.{compare}
use ithiltir.AlertSpec.Rules.{effective_threshold}
use ithiltir.Alert.Compile.{CompiledRule, CompiledRules, state_key}
use ithiltir.Alert.Runtime.{
  Phase, RuntimeState, OpenTransition, CloseTransition, EvalResult, rule_unmounted,
  condition_cleared, is_firing, is_cooldown, is_offline_rule, max_time, duration_satisfied,
  keep_firing_state, cooldown_active, snapshot_observed_at, snapshot_online, new_pending_state,
  rule_for_state, metric_value, state_or_zero,
}

-- What an evaluation of a usable snapshot knows.
pub record Scene (F : Type 0) : Type 0 where
  pub server_id : ℤ
  pub view : NodeView F
  pub online : Bool
  pub observed_at : Time
  pub now : Time

pub record Verdict (F : Type 0) : Type 0 where
  pub state : Option (RuntimeState F)
  pub opens : Option (OpenTransition F)
  pub closes : Option (CloseTransition F)

abbrev pub append_some : {A : Type 0} → List A → Option A → List A
append_some xs none = xs
append_some xs (some a) = xs ++ a ∷ []

module _ {F : Type 0} ⦃fl : Float F⦄ where
  abbrev pub holds : Option (RuntimeState F) → Verdict F
  holds o = record { state = o; opens = none; closes = none }

  -- `if exists && existing.Phase == RuntimePhaseFiring { result.Next[key] = existing }`
  abbrev pub hold_if_firing : Option (RuntimeState F) → Verdict F
  hold_if_firing none = holds none
  hold_if_firing (some s) = holds (if is_firing s.phase then some s else none)

  close_cleared : Scene F → CompiledRule F → RuntimeState F → F → Time → CloseTransition F
  close_cleared sc rule s value eval_at = record {
    key = state_key rule;
    event_id = s.event_id;
    rule = rule;
    object_id = sc.server_id;
    opened_at = s.firing_since;
    closed_at = eval_at;
    close_reason = condition_cleared;
    current_value = some value;
    snapshot = some sc.view;
  }

  -- The condition is false.
  unfoldable pub clear_verdict :
      Scene F → CompiledRule F → Option (RuntimeState F) → F → F → Time → Verdict F
  unfolding close_cleared
  clear_verdict sc rule none value threshold eval_at = holds none
  clear_verdict sc rule (some s) value threshold eval_at =
      if is_firing s.phase
      then record {
        state = some (keep_firing_state s value threshold sc.observed_at);
        opens = none;
        closes = some (close_cleared sc rule s value eval_at);
      }
      else holds none

  abbrev pub fresh_since : CompiledRule F → Option (RuntimeState F) → Bool
  fresh_since rule none = true
  fresh_since rule (some s) =
      is_zero s.pending_since || before s.pending_since rule.generation_updated_at

  unfoldable pub pending_since_of : CompiledRule F → Option (RuntimeState F) → Time → Time
  pending_since_of rule existing eval_at =
      if fresh_since rule existing
      then max_time rule.generation_updated_at eval_at
      else (state_or_zero existing).pending_since

  open_of : Scene F → CompiledRule F → F → F → Time → OpenTransition F
  open_of sc rule value threshold eval_at = record {
    key = state_key rule;
    rule = rule;
    object_id = sc.server_id;
    triggered_at = eval_at;
    current_value = value;
    effective_threshold = threshold;
    snapshot = some sc.view;
  }

  unfoldable pub pend_verdict : Scene F → CompiledRule F → Time → F → F → Time → Verdict F
  unfolding open_of
  pend_verdict sc rule pending_since value threshold eval_at = record {
    state = some (new_pending_state rule pending_since eval_at value threshold);
    opens =
        if duration_satisfied pending_since rule.duration_sec eval_at
        then some (open_of sc rule value threshold eval_at)
        else none;
    closes = none;
  }

  -- The condition is true.
  unfoldable pub hold_verdict :
      Scene F → CompiledRule F → Option (RuntimeState F) → F → F → Time → Verdict F
  hold_verdict sc rule none value threshold eval_at =
      pend_verdict sc rule (pending_since_of rule none eval_at) value threshold eval_at
  hold_verdict sc rule (some s) value threshold eval_at =
      if is_firing s.phase
      then holds (some (keep_firing_state s value threshold eval_at))
      else pend_verdict sc rule (pending_since_of rule (some s) eval_at) value threshold eval_at

  threshold_at : CompiledRule F → NodeView F → Option F
  threshold_at rule view =
      effective_threshold
        (record {
          metric = rule.metric;
          mode = rule.threshold_mode;
          value = rule.threshold;
          offset = rule.threshold_offset;
        })
        view

  unfoldable pub compared_verdict :
      Scene F → CompiledRule F → Option (RuntimeState F) → Option F → Option F → Time → Verdict F
  compared_verdict sc rule existing (some value) (some threshold) eval_at =
      if compare rule.operator value threshold
      then hold_verdict sc rule existing value threshold eval_at
      else clear_verdict sc rule existing value threshold eval_at
  compared_verdict sc rule existing none threshold eval_at = hold_if_firing existing
  compared_verdict sc rule existing (some value) none eval_at = hold_if_firing existing

  unfoldable pub measured_verdict : Scene F → CompiledRule F → Option (RuntimeState F) → Verdict F
  unfolding threshold_at
  measured_verdict sc rule existing =
      let (value, eval_at) = metric_value rule sc.view sc.online sc.observed_at sc.now in
      if not sc.online && not (is_offline_rule rule)
      then hold_if_firing existing
      else compared_verdict sc rule existing value (threshold_at rule sc.view) eval_at

  -- A cooldown that is over counts as no state.
  unfoldable pub rule_verdict : Scene F → CompiledRule F → Option (RuntimeState F) → Verdict F
  rule_verdict sc rule none = measured_verdict sc rule none
  rule_verdict sc rule (some s) =
      if is_cooldown s.phase
      then (if cooldown_active s sc.now then holds (some s) else measured_verdict sc rule none)
      else measured_verdict sc rule (some s)

  abbrev pub store_some :
      Text → List (Text × RuntimeState F) → Option (RuntimeState F) → List (Text × RuntimeState F)
  store_some key next none = next
  store_some key next (some s) = insert key s next

  unfoldable pub record_verdict : Text → Verdict F → EvalResult F → EvalResult F
  record_verdict key v r = record {
    next = store_some key r.next v.state;
    open_transitions = append_some r.open_transitions v.opens;
    close_transitions = append_some r.close_transitions v.closes;
  }

  unfoldable pub evaluate_rules :
      Scene F → List (Text × RuntimeState F) → List (CompiledRule F) → EvalResult F → EvalResult F
  evaluate_rules sc current [] r = r
  evaluate_rules sc current (rule ∷ rules) r =
      evaluate_rules sc current rules
        (record_verdict (state_key rule) (rule_verdict sc rule (lookup (state_key rule) current)) r)

  -- `_, ok := seen[key]`
  unfoldable pub is_seen : Text → List (CompiledRule F) → Bool
  is_seen key [] = false
  is_seen key (rule ∷ rules) = state_key rule == key || is_seen key rules

  unmounted :
      ℤ → Time → Option (NodeView F) → CompiledRules F → Text → RuntimeState F → CloseTransition F
  unmounted server_id now view compiled key s = record {
    key = key;
    event_id = s.event_id;
    rule = rule_for_state (some compiled) s;
    object_id = server_id;
    opened_at = s.firing_since;
    closed_at = now;
    close_reason = rule_unmounted;
    current_value = none;
    snapshot = view;
  }

  -- The body of the loops over `current`: with no usable snapshot, every state that fires is kept;
  -- else those of rules that are not mounted any more. Only the latter are closed.
  unfoldable pub keep_entry :
      Bool
      → ℤ
      → Time
      → Option (NodeView F)
      → CompiledRules F
      → Text
      → RuntimeState F
      → EvalResult F
      → EvalResult F
  unfolding unmounted
  keep_entry all server_id now view compiled key s r =
      if is_firing s.phase && (all || not (is_seen key compiled.rules))
      then record r {
        next = insert key s r.next;
        close_transitions =
            if is_seen key compiled.rules
            then r.close_transitions
            else r.close_transitions ++ unmounted server_id now view compiled key s ∷ [];
      }
      else r

  unfoldable pub keep_entries :
      Bool
      → ℤ
      → Time
      → Option (NodeView F)
      → CompiledRules F
      → List (Text × RuntimeState F)
      → EvalResult F
      → EvalResult F
  keep_entries all server_id now view compiled [] r = r
  keep_entries all server_id now view compiled ((key, s) ∷ rest) r =
      keep_entries all server_id now view compiled rest
        (keep_entry all server_id now view compiled key s r)

  abbrev pub empty_result : EvalResult F
  empty_result = record { next = []; open_transitions = []; close_transitions = [] }

  unfoldable pub evaluate_scene :
      Scene F → CompiledRules F → List (Text × RuntimeState F) → EvalResult F
  evaluate_scene sc compiled current =
      keep_entries false sc.server_id sc.now (some sc.view) compiled current
        (evaluate_rules sc current compiled.rules empty_result)

  -- The scene, where the snapshot is there and both of its times are known.
  unfoldable pub scene_of : ℤ → Option (NodeView F) → Time → Option (Scene F)
  scene_of server_id none now = none
  scene_of server_id (some view) now = elim (snapshot_observed_at (some view)) [
    | none ↦ none
    | some observed_at ↦ elim (snapshot_online (some view) now) [
      | none ↦ none
      | some online ↦ some (record {
        server_id = server_id;
        view = view;
        online = online;
        observed_at = observed_at;
        now = now;
      })
    ]
  ]

  unfoldable pub evaluate_server :
      ℤ → Option (NodeView F) → CompiledRules F → List (Text × RuntimeState F) → Time → EvalResult F
  evaluate_server server_id snapshot compiled current now = elim (scene_of server_id snapshot now) [
    | none ↦ keep_entries true server_id now none compiled current empty_result
    | some sc ↦ evaluate_scene sc compiled current
  ]
