-- ===== src/StoredRules.antt =====
-- internal/store/alert/alert_tasks.go and alert_mounts.go: the control tasks that tell the alert service
-- of changed rules, and the tables of rules, mounts and tasks. Patch is about alert_rules.go, Mounts about
-- alert_mounts.go, Queue about how tasks are taken.
pub mod Fields
pub mod Patch
pub mod Mounts
pub mod Queue
pub mod Tasks
pub mod Generations
pub mod Changing
pub mod Patched
pub mod Answers
pub mod Stale
pub mod Deleting
mod Tests
use ithiltir.Shared.{
  ℕ, suc, ◌+◌, Bool, true, false, not, ◌&&◌, ◌||◌, Option, none, some, List, [], ◌∷◌, ◌++◌, map,
}
use ithiltir.Shared.Tests.{◌==◌, ltb, leb, bool_eqb, if◌then◌else◌, nat_eq}
use ithiltir.Shared.Int.{ℤ, pos, negsuc, int_eq, ltb_ℤ, wrap64}
use ithiltir.Shared.Text.{Text, codes, text_eq}
use ithiltir.Shared.Decimal.{format_int}
use ithiltir.Shared.Time.{Time}
use ithiltir.AlertSpec.Rules.{AlertRule, ValidationError}
use ithiltir.Outbox.{update_where, find, exists, filter, empty_to_nil, fits}

pub data TaskStatus : Type 0 where
  task_pending task_failed : TaskStatus

abbrev pub is_pending : TaskStatus → Bool
is_pending task_pending = true
is_pending task_failed = false

pub record RuleChangePayload : Type 0 where
  pub rule_id : ℤ
  pub old_generation : ℤ
  pub new_generation : ℤ
  pub close_reason : Text

-- model.AlertControlTask: `payload` is none for a full reconciliation.
pub record AlertControlTask : Type 0 where
  pub id : ℤ
  pub task_type : Text
  pub dedupe_key : Text
  pub payload : Option RuleChangePayload
  pub status : TaskStatus
  pub attempt_count : ℕ
  pub available_at : Time
  pub last_error : Option Text

-- model.AlertRuleMount
pub record RuleMount : Type 0 where
  pub rule_id : ℤ
  pub server_id : ℤ
  pub enabled : Bool
  pub created_at : Time
  pub updated_at : Time

-- The tables, and the sequences of the rules and the tasks.
pub record RuleStore (F : Type 0) : Type 0 where
  pub rules : List (AlertRule F)
  pub mounts : List RuleMount
  pub tasks : List AlertControlTask
  pub last_rule : ℕ
  pub last_task : ℕ

-- What a method gives: its answer, a rule that is not accepted, a record that is not there, or a
-- statement that a constraint of the database refuses.
pub data Outcome {ℓ} (A : Type ℓ) : Type ℓ where
  done : A → Outcome A
  rejected : ValidationError → Outcome A
  not_found refused : Outcome A

infixl 5 ◌>>=◌
abbrev pub ◌>>=◌ {ℓ κ} : {A : Type ℓ} {B : Type κ} → Outcome A → (A → Outcome B) → Outcome B
done a >>= f = f a
rejected e >>= f = rejected e
not_found >>= f = not_found
refused >>= f = refused

abbrev pub control_task_rule_change : Text
control_task_rule_change = codes "rule_change"

abbrev pub control_task_full_reconcile : Text
control_task_full_reconcile = codes "full_reconcile"

-- A pending task of the key, of which the index lets there be one.
abbrev pub awaits : Text → AlertControlTask → Bool
awaits key t = t.dedupe_key == key && is_pending t.status

abbrev pub new_task : Text → Text → Option RuleChangePayload → Time → ℕ → AlertControlTask
new_task task_type key payload now id = record {
  id = pos id;
  task_type = task_type;
  dedupe_key = key;
  payload = payload;
  status = task_pending;
  attempt_count = 0;
  available_at = now;
  last_error = none;
}

module _ {F : Type 0} where
  -- The sequence goes on also where the index keeps the task out.
  unfoldable pub enqueue_control_task :
      Text → Text → Option RuleChangePayload → Time → RuleStore F → RuleStore F
  enqueue_control_task task_type key payload now s =
      if exists (awaits key) s.tasks then record s { last_task = suc s.last_task } else record s {
        tasks = s.tasks ++ new_task task_type key payload now (suc s.last_task) ∷ [];
        last_task = suc s.last_task;
      }

  unfoldable pub enqueue_full_reconcile_task : Text → Time → RuleStore F → RuleStore F
  unfolding enqueue_control_task
  enqueue_full_reconcile_task key now s =
      enqueue_control_task control_task_full_reconcile key none now s
