-- ===== src/StoredRules/Patch.antt =====
-- internal/store/alert/alert_rules.go: stored rules are created, changed and deleted, each in one
-- transaction with the control task that tells of it.
use ithiltir.Shared.{suc, Bool, true, not, ◌&&◌, ◌||◌, Option, none, some, List, [], ◌∷◌, ◌++◌}
use ithiltir.Shared.Tests.{◌==◌, bool_eqb, if◌then◌else◌}
use ithiltir.Shared.Int.{ℤ, pos, int_eq, leb_ℤ}
use ithiltir.Shared.Text.{Text, codes, text_eq}
use ithiltir.Shared.Float.{Float}
use ithiltir.Shared.Time.{Time}
use ithiltir.AlertSpec.Rules.{AlertRule, normalize_rule_model, prepare_create_rule}
use ithiltir.Outbox.{update_where, find, exists, filter}
use ithiltir.StoredRules.{
  RuleStore, RuleMount, RuleChangePayload, Outcome, done, not_found, refused, ◌>>=◌,
  enqueue_control_task, control_task_rule_change,
}
use ithiltir.StoredRules.Fields.{
  AlertRulePatch, FloatDistance, apply_patch, as_patched, change_key, differs, has_updates,
  next_generation, of_checked, or_missing, or_old, reason_for, updates_from_patch,
}

module _ {F : Type 0} where
  abbrev pub is_undeleted : ℤ → AlertRule F → Bool
  is_undeleted id r = r.id == id && not r.is_deleted

  abbrev pub lock_rule : ℤ → List (AlertRule F) → Option (AlertRule F)
  lock_rule id rules = find (is_undeleted id) rules

  abbrev pub change_payload : AlertRule F → ℤ → Text → RuleChangePayload
  change_payload current next reason = record {
    rule_id = current.id;
    old_generation = current.generation;
    new_generation = next;
    close_reason = reason;
  }

  abbrev pub enqueue_change : AlertRule F → ℤ → Text → Time → RuleStore F → RuleStore F
  enqueue_change current next reason now s =
      enqueue_control_task control_task_rule_change (change_key current.id next)
        (some (change_payload current next reason)) now s

  -- The table keeps a generation positive. The rule that is found is the only one of its number.
  abbrev pub write_found :
      ℤ → (AlertRule F → AlertRule F) → RuleStore F → Option (AlertRule F) → Outcome (RuleStore F)
  write_found id f s none = not_found
  write_found id f s (some r) =
      if leb_ℤ (f r).generation (pos 0)
      then refused
      else done (record s { rules = update_where (is_undeleted id) f s.rules })

  unfoldable pub write_rule : ℤ → (AlertRule F → AlertRule F) → RuleStore F → Outcome (RuleStore F)
  write_rule id f s = write_found id f s (lock_rule id s.rules)

  abbrev pub as_removed : ℤ → Time → AlertRule F → AlertRule F
  as_removed next now r = record r { is_deleted = true; generation = next; updated_at = now }

  unfoldable pub delete_rule : ℤ → Time → RuleStore F → Outcome (RuleStore F)
  unfolding next_generation write_rule enqueue_control_task
  delete_rule id now s = do
    current ← or_missing (lock_rule id s.rules)
    t ← write_rule id (as_removed (next_generation current.generation) now) s
    done (
        enqueue_change current (next_generation current.generation) (codes "rule_deleted") now
          (record t { mounts = filter (λ (m : RuleMount). not (m.rule_id == id)) t.mounts }))

module _ {F : Type 0} ⦃fl : Float F⦄ ⦃fd : FloatDistance F⦄ where
  unfoldable pub same_float : F → F → Bool
  same_float a b = fl.lt (fd.abs (fd.minus a b)) fd.billionth

  unfoldable pub needs_generation : AlertRule F → AlertRulePatch F → Bool
  needs_generation r u =
      differs bool_eqb u.enabled r.enabled
      || differs (λ (a b : Text). a == b) u.metric r.metric
      || differs (λ (a b : Text). a == b) u.operator r.operator
      || differs same_float u.threshold r.threshold
      || differs (λ (a b : ℤ). a == b) u.duration_sec r.duration_sec
      || differs (λ (a b : ℤ). a == b) u.cooldown_min r.cooldown_min
      || differs (λ (a b : Text). a == b) u.threshold_mode r.threshold_mode
      || differs same_float u.threshold_offset r.threshold_offset

  -- The task is enqueued where the generation is another one.
  unfoldable pub write_patch :
      ℤ
      → AlertRule F
      → AlertRulePatch F
      → Option ℤ
      → Text
      → Time
      → RuleStore F
      → Outcome (RuleStore F)
  unfolding write_rule
  write_patch id current updates generation reason now s = do
    t ← write_rule id (as_patched updates generation now) s
    let next = or_old generation current.generation
    done (if next == current.generation then t else enqueue_change current next reason now t)

  unfoldable pub patch_updates :
      ℤ → AlertRule F → AlertRulePatch F → Time → RuleStore F → Outcome (RuleStore F)
  unfolding needs_generation write_patch
  patch_updates id current updates now s =
      if not (has_updates updates)
      then done s
      else if needs_generation current updates
      then write_patch id current updates (some (next_generation current.generation))
          (reason_for current updates) now s
      else write_patch id current updates none [] now s

  unfoldable pub patch_rule : ℤ → AlertRulePatch F → Time → RuleStore F → Outcome (RuleStore F)
  unfolding patch_updates
  patch_rule id patch now s = if not (has_updates patch) then done s else do
    current ← or_missing (lock_rule id s.rules)
    normalized ← of_checked (normalize_rule_model (apply_patch patch current))
    patch_updates id current (updates_from_patch normalized patch) now s

module _ {F : Type 0} ⦃fl : Float F⦄ where
  -- The number of a new rule comes from the sequence where it has none.
  abbrev pub created : AlertRule F → Time → RuleStore F → AlertRule F
  created r now s = record r {
    id = if r.id == pos 0 then pos (suc s.last_rule) else r.id;
    created_at = now;
    updated_at = now;
  }

  unfoldable pub insert_rule : AlertRule F → RuleStore F → Outcome (RuleStore F)
  insert_rule r s =
      if exists (λ (o : AlertRule F). o.id == r.id) s.rules
      then refused
      else done (record s { rules = s.rules ++ r ∷ [] })

  unfoldable pub create_rule : AlertRule F → Time → RuleStore F → Outcome (RuleStore F)
  unfolding insert_rule
  create_rule rule now s = do
    normalized ← of_checked (prepare_create_rule rule)
    let r = created normalized now s
    t ←
        insert_rule r
          (record s { last_rule = if normalized.id == pos 0 then suc s.last_rule else s.last_rule })
    done (enqueue_change (record r { generation = pos 0 }) r.generation [] now t)
