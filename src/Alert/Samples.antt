-- ===== src/Alert/Samples.antt =====
-- Concrete values for the tests: floats as integers, a view, rules and states.
use ithiltir.Shared.{◌+◌, ◌-◌, ◌*◌, true, false, none, List, [], ◌∷◌}
use ithiltir.Shared.Tests.{leb, if◌then◌else◌}
use ithiltir.Shared.Text.{Text, codes}
use ithiltir.Shared.Int.{ℤ, pos, negsuc, pos_part, neg_part, ltb_ℤ, leb_ℤ, int_eqb}
use ithiltir.Shared.Float.{Float}
use ithiltir.Shared.Time.{Time, nanos}
use ithiltir.NodeView.{NodeView}
use ithiltir.AlertSpec.Rules.{AlertRule}
use ithiltir.Alert.Compile.{CompiledRule, CompiledRules}
use ithiltir.Alert.Environment.{Env, close_done, closed, open_done, touched}
use ithiltir.Alert.Runtime.{RuntimeState, firing, pending}

abbrev pub int_plus : ℤ → ℤ → ℤ
int_plus a b =
    let up = pos_part a + pos_part b in
    let down = neg_part a + neg_part b in
    if leb down up then pos (up - down) else negsuc (down - up - 1)

instance abbrev pub int_float : Float ℤ
int_float = record {
  lt = ltb_ℤ;
  le = leb_ℤ;
  eq = int_eqb;
  plus = int_plus;
  of_int = λ n. n;
  is_nan = λ n. false;
  is_inf = λ n. false;
}

-- May 1, 2024, 00:00:00 and a minute later.
abbrev pub noon : Time
noon = 63_850_118_400 * nanos

abbrev pub later : Time
later = noon + 90 * nanos

abbrev pub sample_view : NodeView ℤ
sample_view = record {
  observation = record {
    received_at = codes "2024-05-01T00:01:30Z";
    observed_at = codes "2024-05-01T00:01:30Z";
    sent_at = [];
    stale_after_sec = pos 30;
  };
  cpu = record {
    usage_ratio = pos 1;
    load = record { l1 = pos 9; l5 = pos 3; l15 = pos 1 };
    cores_physical = pos 2;
    cores_logical = pos 4;
  };
  memory = record { used_bytes = pos 10; used_ratio = pos 0 };
  disk = record { mounts = []; smart = none };
  network_total = record { recv_bps = pos 0; sent_bps = pos 0 };
  tcp = pos 5;
  raid = none;
  thermal = none;
}

abbrev pub stored_rule : AlertRule ℤ
stored_rule = record {
  id = pos 3;
  name = codes " load ";
  enabled = true;
  generation = pos 1;
  metric = codes "cpu.load1";
  operator = codes ">=";
  threshold = pos 5;
  duration_sec = pos 60;
  cooldown_min = pos 30;
  threshold_mode = codes "static";
  threshold_offset = pos 0;
  is_deleted = false;
  created_at = 1;
  updated_at = nanos;
}

abbrev pub load_rule : CompiledRule ℤ
load_rule = record {
  rule_id = pos 3;
  builtin = false;
  name = codes "load";
  generation = pos 1;
  metric = codes "cpu.load1";
  operator = codes ">=";
  threshold = pos 5;
  duration_sec = pos 60;
  cooldown_min = pos 30;
  threshold_mode = codes "static";
  threshold_offset = pos 0;
  generation_updated_at = nanos;
  snapshot_raw = none;
}

abbrev pub sample_rules : CompiledRules ℤ
sample_rules = record {
  rules = load_rule ∷ [];
  by_state_key = (codes "3:1", load_rule) ∷ [];
  invalid_rules = [];
  refreshed_at = noon;
}

abbrev pub pending_state : RuntimeState ℤ
pending_state = record {
  phase = pending;
  rule_id = pos 3;
  generation = pos 1;
  pending_since = noon;
  firing_since = 0;
  cooldown_until = 0;
  last_db_heartbeat_at = 0;
  last_observed_at = noon;
  current_value = pos 8;
  effective_threshold = pos 5;
  event_id = pos 0;
}

abbrev pub firing_state : RuntimeState ℤ
firing_state = record {
  phase = firing;
  rule_id = pos 9;
  generation = pos 2;
  pending_since = noon;
  firing_since = noon;
  cooldown_until = 0;
  last_db_heartbeat_at = noon;
  last_observed_at = noon;
  current_value = pos 8;
  effective_threshold = pos 5;
  event_id = pos 77;
}

-- A pending key of a mounted rule, and a firing one of a rule that is gone.
abbrev pub sample_states : List (Text × RuntimeState ℤ)
sample_states = (codes "3:1", pending_state) ∷ (codes "9:2", firing_state) ∷ []

-- A store that answers every write, and targets that are ready.
abbrev pub sample_env : Env ℤ
sample_env = record {
  targets_for_close = λ t. (record { enabled = true; channels = pos 1 ∷ []; ready = true }, false);
  targets_for_open = λ t. (record { enabled = true; channels = pos 1 ∷ []; ready = true }, false);
  write_close = λ t channels. close_done closed;
  write_open = λ t channels. open_done (pos 78);
  touch_open_event = λ key s. touched true;
}
