-- ===== src/Alert/Runtime.antt =====
-- internal/alert/runtime.go: the evaluation of one server's rules, without any input or output. A
-- map is an association list, and `range` visits it in its order.
use ithiltir.Shared.{◌*◌, Bool, true, false, not, ◌&&◌, ◌||◌, Option, none, some, List, []}
use ithiltir.Shared.Tests.{◌==◌, if◌then◌else◌}
use ithiltir.Shared.Text.{Text, codes, text_eq, trim_space}
use ithiltir.Shared.Maps.{lookup, insert}
use ithiltir.Shared.Int.{ℤ, pos, ltb_ℤ, leb_ℤ, scale, wrap64}
use ithiltir.Shared.Float.{Float, zero_f, one_f}
use ithiltir.Shared.Time.{Time, nanos, is_zero, before, after, sub, truncate}
use ithiltir.Shared.Time
use ithiltir.Shared.Rfc3339.{parse_rfc3339}
use ithiltir.NodeView.{NodeView}
use ithiltir.AlertSpec.Extract.{extract_metric_value}
use ithiltir.Alert.Compile.{CompiledRule, CompiledRules, rule_state_key}

-- The constants RuntimePhasePending, RuntimePhaseFiring and RuntimePhaseCooldown; `no_phase` is the
-- empty string of a zero value.
pub data Phase : Type 0 where
  no_phase pending firing cooldown : Phase

pub record RuntimeState (F : Type 0) : Type 0 where
  pub phase : Phase
  pub rule_id : ℤ
  pub generation : ℤ
  pub pending_since : Time
  pub firing_since : Time
  pub cooldown_until : Time
  pub last_db_heartbeat_at : Time
  pub last_observed_at : Time
  pub current_value : F
  pub effective_threshold : F
  pub event_id : ℤ

pub data CloseReason : Type 0 where
  rule_unmounted condition_cleared : CloseReason

pub record OpenTransition (F : Type 0) : Type 0 where
  pub key : Text
  pub rule : CompiledRule F
  pub object_id : ℤ
  pub triggered_at : Time
  pub current_value : F
  pub effective_threshold : F
  pub snapshot : Option (NodeView F)

pub record CloseTransition (F : Type 0) : Type 0 where
  pub key : Text
  pub event_id : ℤ
  pub rule : CompiledRule F
  pub object_id : ℤ
  pub opened_at : Time
  pub closed_at : Time
  pub close_reason : CloseReason
  pub current_value : Option F
  pub snapshot : Option (NodeView F)

pub record EvalResult (F : Type 0) : Type 0 where
  pub next : List (Text × RuntimeState F)
  pub open_transitions : List (OpenTransition F)
  pub close_transitions : List (CloseTransition F)

abbrev pub is_firing : Phase → Bool
is_firing firing = true
is_firing _ = false

abbrev pub is_cooldown : Phase → Bool
is_cooldown cooldown = true
is_cooldown _ = false

unfoldable pub max_time : Time → Time → Time
max_time a b = if after a b then a else b

unfoldable pub duration_satisfied : Time → ℤ → Time → Bool
duration_satisfied pending_since duration_sec now =
    if is_zero pending_since
    then false
    else leb_ℤ (scale duration_sec nanos) (sub now pending_since)

-- A timestamp of the observation that can be read.
abbrev read_time : Text → Option Time
read_time raw = if raw == [] then none else parse_rfc3339 raw

-- max(n, 0)
abbrev at_least_zero : ℤ → ℤ
at_least_zero n = if ltb_ℤ n (pos 0) then pos 0 else n

module _ {F : Type 0} where
  unfoldable pub keep_firing_state : RuntimeState F → F → F → Time → RuntimeState F
  keep_firing_state state value threshold observed_at = record state {
    last_observed_at = truncate observed_at;
    current_value = value;
    effective_threshold = threshold;
  }

  abbrev pub is_offline_rule : CompiledRule F → Bool
  is_offline_rule rule = rule.metric == codes "node.offline"

  unfoldable pub cooldown_active : RuntimeState F → Time → Bool
  cooldown_active state now = not (is_zero state.cooldown_until) && before now state.cooldown_until

  unfoldable pub cooldown_after_close : CloseTransition F → Bool
  cooldown_after_close t =
      ltb_ℤ (pos 0) t.rule.cooldown_min
      && elim t.close_reason [ condition_cleared ↦ true | rule_unmounted ↦ false ]

  unfoldable pub snapshot_observed_at : Option (NodeView F) → Option Time
  snapshot_observed_at none = none
  snapshot_observed_at (some view) = read_time (trim_space view.observation.observed_at)

  unfoldable pub snapshot_received_at : Option (NodeView F) → Option Time
  snapshot_received_at none = none
  snapshot_received_at (some view) =
      let raw = trim_space view.observation.received_at in
      read_time (if raw == [] then trim_space view.observation.observed_at else raw)

  stale_after : Option (NodeView F) → ℤ
  stale_after none = pos 0
  stale_after (some view) = wrap64 (scale (at_least_zero view.observation.stale_after_sec) nanos)

  -- `none` where the receive time is unknown.
  unfoldable pub snapshot_online : Option (NodeView F) → Time → Option Bool
  unfolding stale_after
  snapshot_online snapshot now = elim (snapshot_received_at snapshot) [
    | none ↦ none
    | some received_at ↦
        if is_zero received_at
        then none
        else some (leb_ℤ (sub now received_at) (stale_after snapshot))
  ]

module _ {F : Type 0} ⦃fl : Float F⦄ where
  unfoldable pub new_pending_state : CompiledRule F → Time → Time → F → F → RuntimeState F
  new_pending_state rule pending_since observed_at value threshold = record {
    phase = pending;
    rule_id = rule.rule_id;
    generation = rule.generation;
    pending_since = truncate pending_since;
    firing_since = 0;
    cooldown_until = 0;
    last_db_heartbeat_at = 0;
    last_observed_at = truncate observed_at;
    current_value = value;
    effective_threshold = threshold;
    event_id = pos 0;
  }

  unfoldable pub new_cooldown_state : CompiledRule F → Time → RuntimeState F
  new_cooldown_state rule closed_at = record {
    phase = cooldown;
    rule_id = rule.rule_id;
    generation = rule.generation;
    pending_since = 0;
    firing_since = 0;
    cooldown_until = truncate (Time.add closed_at (wrap64 (scale rule.cooldown_min (60 * nanos))));
    last_db_heartbeat_at = 0;
    last_observed_at = 0;
    current_value = zero_f;
    effective_threshold = zero_f;
    event_id = pos 0;
  }

  -- The zero value.
  abbrev pub zero_state : RuntimeState F
  zero_state = record {
    phase = no_phase;
    rule_id = pos 0;
    generation = pos 0;
    pending_since = 0;
    firing_since = 0;
    cooldown_until = 0;
    last_db_heartbeat_at = 0;
    last_observed_at = 0;
    current_value = zero_f;
    effective_threshold = zero_f;
    event_id = pos 0;
  }

  abbrev pub state_or_zero : Option (RuntimeState F) → RuntimeState F
  state_or_zero none = zero_state
  state_or_zero (some s) = s

  unfoldable pub fire_state : OpenTransition F → ℤ → RuntimeState F → RuntimeState F
  fire_state t event_id state = record state {
    phase = firing;
    firing_since = truncate t.triggered_at;
    last_db_heartbeat_at = truncate t.triggered_at;
    event_id = event_id;
  }

  unfoldable pub apply_open_transition :
      List (Text × RuntimeState F) → OpenTransition F → ℤ → List (Text × RuntimeState F)
  unfolding fire_state
  apply_open_transition next t event_id =
      insert t.key (fire_state t event_id (state_or_zero (lookup t.key next))) next

  -- The rule that a state stands for, or one that has only its names.
  blank_rule : ℤ → ℤ → CompiledRule F
  blank_rule rule_id generation = record {
    rule_id = rule_id;
    builtin = false;
    name = [];
    generation = generation;
    metric = [];
    operator = [];
    threshold = zero_f;
    duration_sec = pos 0;
    cooldown_min = pos 0;
    threshold_mode = [];
    threshold_offset = zero_f;
    generation_updated_at = 0;
    snapshot_raw = none;
  }

  unfoldable pub rule_for_state : Option (CompiledRules F) → RuntimeState F → CompiledRule F
  unfolding blank_rule
  rule_for_state none state = blank_rule state.rule_id state.generation
  rule_for_state (some compiled) state =
      elim (lookup (rule_state_key state.rule_id state.generation) compiled.by_state_key) [
        | some rule ↦ rule
        | none ↦ blank_rule state.rule_id state.generation
      ]

  -- The value of a rule's metric, and the time to which it belongs.
  unfoldable pub metric_value : CompiledRule F → NodeView F → Bool → Time → Time → Option F × Time
  metric_value rule view online observed_at now =
      if is_offline_rule rule
      then (some (if online then zero_f else one_f), now)
      else (if online then extract_metric_value rule.metric view else none, observed_at)

  unfoldable pub should_heartbeat_firing : RuntimeState F → RuntimeState F → ℤ → Bool → Bool
  should_heartbeat_firing previous next interval closing =
      let last =
        if is_zero previous.last_db_heartbeat_at
        then previous.firing_since
        else previous.last_db_heartbeat_at in
      if closing
      then false
      else if not (is_firing previous.phase)
          || not (is_firing next.phase)
          || leb_ℤ next.event_id (pos 0)
      then false
      else if is_zero next.last_observed_at
      then false
      else if is_zero last
      then true
      else if not (after next.last_observed_at last)
      then false
      else leb_ℤ interval (sub next.last_observed_at last)
