-- ===== src/DirtyQueue/Tests.antt =====
-- Theorems of the queue at concrete calls.
use ithiltir.Shared.{ℕ, refl, ◌⊎◌, true, false, none, some, List, [], ◌∷◌}
use ithiltir.Shared.Int.{pos, int_eq}
use ithiltir.DirtyQueue.{
  DirtyQueue, new_dirty_queue, mark, mark_state, signal, put, push, scan, take_ready, compact,
  next_round,
}
use ithiltir.Shared.Maps.{lookup, insert}
use ithiltir.DirtyQueue.Invariant.{Inv, live}
use ithiltir.DirtyQueue.Service
use ithiltir.DirtyQueue.Service.{
  Call, step, run, run-Inv, Takes, next_round-Takes, IsRunning, IsOwed,
}
use ithiltir.DirtyQueue.Exclusion.{NotTaken, step-IsRunning, latest}
use ithiltir.DirtyQueue.Lasting.{HandsOut, mark-HandsOut}
use ithiltir.DirtyQueue.Wakeup
use ithiltir.DirtyQueue.Wakeup.{IsServed, Reach, started, no_lost_wakeup}

-- Two servers are marked, one is handed out, and marked again while a worker is at it.
abbrev calls : List (Call ℕ)
calls =
    Service.marks (pos 4) (some 10)
    ∷ Service.marks (pos 6) none
    ∷ Service.rounds
    ∷ Service.marks (pos 4) (some 11)
    ∷ []

abbrev busy_queue : DirtyQueue ℕ
busy_queue = run new_dirty_queue calls

run-Inv_example : Inv busy_queue
run-Inv_example = run-Inv calls

next_round-Takes_example : Takes busy_queue (live busy_queue) (next_round busy_queue)
next_round-Takes_example = next_round-Takes busy_queue (run-Inv calls)

four-IsRunning : IsRunning (pos 4) busy_queue
unfolding run step mark mark_state next_round scan new_dirty_queue lookup insert signal put push
    take_ready compact
four-IsRunning =
    (record { queued = false; running = true; dirty_again = true; snapshot = some 11 }, refl, refl)

step-IsRunning_example :
    IsRunning (pos 4) (step busy_queue Service.rounds).0
    × NotTaken (pos 4) (step busy_queue Service.rounds).1
step-IsRunning_example =
    step-IsRunning (pos 4) busy_queue Service.rounds (run-Inv calls) four-IsRunning refl

-- A worker is at the server when it is marked again.
abbrev early : List (Call ℕ)
early = Service.marks (pos 4) (some 10) ∷ Service.marks (pos 6) none ∷ Service.rounds ∷ []

abbrev early_queue : DirtyQueue ℕ
early_queue = run new_dirty_queue early

abbrev further : List (Call ℕ)
further = Service.rounds ∷ Service.finishes (pos 4) false ∷ Service.rounds ∷ []

mark-HandsOut_example :
    HandsOut
      (pos 4)
      (latest (some 11) (lookup (pos 4) early_queue.states))
      (mark (pos 4) (some 11) early_queue)
      further
    ⊎ IsOwed
        (pos 4)
        (latest (some 11) (lookup (pos 4) early_queue.states))
        (run (mark (pos 4) (some 11) early_queue) further)
mark-HandsOut_example =
    mark-HandsOut (pos 4) (some 11) early_queue further (run-Inv early) refl
      (refl, (refl, (refl, tt)))

-- A server is marked while both workers are about to run a round.
two_workers :
    Reach {V = ℕ}
      (started 2)
      (record { queue = mark (pos 4) (some 10) new_dirty_queue; awake = 2; asleep = 0; busy = 0 })
two_workers = Wakeup.next Wakeup.here (Wakeup.marks (pos 4) (some 10))

no_lost_wakeup_example : IsServed (record {
  queue = mark (pos 4) (some 10) (new_dirty_queue {V = ℕ});
  awake = 2;
  asleep = 0;
  busy = 0;
})
no_lost_wakeup_example = no_lost_wakeup 2 _ two_workers
