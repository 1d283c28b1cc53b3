-- ===== src/StoredRules/Queue.antt =====
-- internal/store/alert/alert_tasks.go: control tasks are taken in order, and end or wait again.
use ithiltir.Shared.{suc, Bool, not, ◌&&◌, ◌||◌, Option, none, some, List, [], ◌∷◌}
use ithiltir.Shared.Tests.{◌==◌, ltb, leb, if◌then◌else◌, nat_eq}
use ithiltir.Shared.Int.{ℤ, int_eq, ltb_ℤ}
use ithiltir.Shared.Text.{Text, text_eq}
use ithiltir.Shared.Time.{Time}
use ithiltir.Outbox.{update_where, exists, filter, empty_to_nil, fits}
use ithiltir.StoredRules.{
  AlertControlTask, task_pending, task_failed, is_pending, Outcome, done, refused, awaits,
}

abbrev pub has_number : ℤ → AlertControlTask → Bool
has_number id t = t.id == id

unfoldable pub is_ready : Time → AlertControlTask → Bool
is_ready now t = is_pending t.status && leb t.available_at now

-- ORDER BY available_at, id LIMIT 1
unfoldable pub comes_first : AlertControlTask → AlertControlTask → Bool
comes_first t u =
    ltb t.available_at u.available_at || (t.available_at == u.available_at && ltb_ℤ t.id u.id)

abbrev pub earlier : AlertControlTask → Option AlertControlTask → AlertControlTask
earlier t none = t
earlier t (some u) = if comes_first u t then u else t

unfoldable pub first_task : List AlertControlTask → Option AlertControlTask
unfolding comes_first
first_task [] = none
first_task (t ∷ ts) = some (earlier t (first_task ts))

abbrev pub as_tried : AlertControlTask → AlertControlTask
as_tried t = record t { attempt_count = suc t.attempt_count; last_error = none }

-- The task that the method gives keeps the error that it was read with.
unfoldable pub try_task :
    Option AlertControlTask
    → List AlertControlTask
    → Outcome (List AlertControlTask × Option AlertControlTask)
try_task none tasks = done (tasks, none)
try_task (some t) tasks =
    if fits (suc t.attempt_count)
    then done (
      update_where (has_number t.id) as_tried tasks,
      some (record t { attempt_count = suc t.attempt_count }),
    )
    else refused

unfoldable pub take_next_control_task :
    Time → List AlertControlTask → Outcome (List AlertControlTask × Option AlertControlTask)
unfolding is_ready first_task try_task
take_next_control_task now tasks = try_task (first_task (filter (is_ready now) tasks)) tasks

unfoldable pub complete_control_task : ℤ → List AlertControlTask → List AlertControlTask
complete_control_task id tasks = filter (λ (t : AlertControlTask). not (has_number id t)) tasks

-- Another pending task has the key of the numbered one, which the index refuses.
abbrev pub key_is_taken : ℤ → List AlertControlTask → Bool
key_is_taken id tasks =
    exists
      (λ (t : AlertControlTask).
        has_number id t
        && exists (λ (u : AlertControlTask). not (has_number id u) && awaits t.dedupe_key u) tasks)
      tasks

unfoldable pub retry_control_task :
    ℤ → Time → Text → List AlertControlTask → Outcome (List AlertControlTask)
retry_control_task id available_at last_error tasks =
    if key_is_taken id tasks
    then refused
    else done (
        update_where (has_number id)
          (λ (t : AlertControlTask). record t {
            status = task_pending;
            available_at = available_at;
            last_error = empty_to_nil last_error;
          })
          tasks)

unfoldable pub fail_control_task : ℤ → Text → List AlertControlTask → List AlertControlTask
fail_control_task id last_error tasks =
    update_where (has_number id)
      (λ (t : AlertControlTask). record t {
        status = task_failed;
        last_error = empty_to_nil last_error;
      })
      tasks
