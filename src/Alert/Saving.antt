-- ===== src/Alert/Saving.antt =====
-- internal/alert/state.go: saving the states that an evaluation gives.
pub mod Merge
use ithiltir.Shared.{
  ℕ, ◌+◌, ◌*◌, ◌-◌, Bool, true, false, not, ◌&&◌, ◌||◌, Option, none, some, List, [], ◌∷◌, ◌++◌,
}
use mathlib.Core.Option
use ithiltir.Shared.Tests.{◌==◌, ltb, leb, if◌then◌else◌, nat_eq}
use ithiltir.Shared.Text.{Text, text_eq}
use ithiltir.Shared.Lists.{contains}
use ithiltir.Shared.Maps.{lookup, insert, erase}
use ithiltir.Shared.Int.{ℤ, pos, ltb_ℤ, int_eq}
use ithiltir.Shared.Float.{Float}
use ithiltir.Shared.Time.{Time, nanos, is_zero, before}
use ithiltir.NodeView.{NodeView}
use ithiltir.Alert.Compile.{CompiledRule, CompiledRules, for_mounts}
use ithiltir.Alert.Runtime.{
  Phase, no_phase, pending, firing, cooldown, RuntimeState, OpenTransition, CloseTransition,
  CloseReason, rule_unmounted, condition_cleared, EvalResult, cooldown_after_close,
  new_cooldown_state, apply_open_transition, should_heartbeat_firing,
}
use ithiltir.Alert.Evaluate.{evaluate_server}

abbrev phase_eqb : Phase → Phase → Bool
phase_eqb no_phase no_phase = true
phase_eqb pending pending = true
phase_eqb firing firing = true
phase_eqb cooldown cooldown = true
phase_eqb _ _ = false

module _ {F : Type 0} ⦃fl : Float F⦄ where
  -- Go's == on the states, which compares the floats.
  pub state_eqb : RuntimeState F → RuntimeState F → Bool
  state_eqb s t =
      phase_eqb s.phase t.phase
      && s.rule_id == t.rule_id
      && s.generation == t.generation
      && s.pending_since == t.pending_since
      && s.firing_since == t.firing_since
      && s.cooldown_until == t.cooldown_until
      && s.last_db_heartbeat_at == t.last_db_heartbeat_at
      && s.last_observed_at == t.last_observed_at
      && fl.eq s.current_value t.current_value
      && fl.eq s.effective_threshold t.effective_threshold
      && s.event_id == t.event_id

  abbrev pub agrees : Option (RuntimeState F) → Option (RuntimeState F) → Bool
  agrees none none = true
  agrees (some s) (some t) = state_eqb s t
  agrees none (some t) = false
  agrees (some s) none = false

  -- The body of the first loop: a key that the evaluation dropped.
  abbrev pub drop_state :
      Text
      → RuntimeState F
      → Option (RuntimeState F)
      → List (Text × RuntimeState F)
      → List (Text × RuntimeState F)
  drop_state key previous (some _) stored = stored
  drop_state key previous none stored =
      if agrees (lookup key stored) (some previous) then erase key stored else stored

  pub drop_states :
      List (Text × RuntimeState F)
      → List (Text × RuntimeState F)
      → List (Text × RuntimeState F)
      → List (Text × RuntimeState F)
  drop_states next [] stored = stored
  drop_states next ((key, previous) ∷ current) stored =
      drop_states next current (drop_state key previous (lookup key next) stored)

  -- The body of the second: a key that it keeps or sets.
  abbrev pub set_state :
      Text
      → RuntimeState F
      → Option (RuntimeState F)
      → List (Text × RuntimeState F)
      → List (Text × RuntimeState F)
  set_state key s previous stored =
      if agrees previous (some s)
      then stored
      else if agrees (lookup key stored) previous
      then insert key s stored
      else stored

  pub set_states :
      List (Text × RuntimeState F)
      → List (Text × RuntimeState F)
      → List (Text × RuntimeState F)
      → List (Text × RuntimeState F)
  set_states current [] stored = stored
  set_states current ((key, s) ∷ next) stored =
      set_states current next (set_state key s (lookup key current) stored)

  -- The states of the server after saveRuntimeState; with none left, the server's entry goes.
  unfoldable pub save_runtime_state :
      List (Text × RuntimeState F)
      → List (Text × RuntimeState F)
      → List (Text × RuntimeState F)
      → List (Text × RuntimeState F)
  unfolding drop_states set_states
  save_runtime_state current next stored = set_states current next (drop_states next current stored)
