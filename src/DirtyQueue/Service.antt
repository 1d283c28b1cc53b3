-- ===== src/DirtyQueue/Service.antt =====
-- Sequences of calls of the queue: who is handed out, when, and with which snapshot.
use ithiltir.Shared.{
  ◌≡◌, refl, ◌∙◌, ◌⊎◌, Bool, true, false, Option, none, some, List, [], ◌∷◌, arith,
}
use ithiltir.Shared.Tests.{if◌then◌else◌, ◌==◌}
use ithiltir.Shared.Maps.{lookup, lookup-erase}
use ithiltir.Shared.Int.{ℤ, int_eq}
use ithiltir.DirtyQueue.{
  DirtyServerState, DirtyQueue, new_dirty_queue, mark, mark_state, next_round, pop_head, finish,
  finish_state,
}
use ithiltir.DirtyQueue.Invariant.{
  live, Inv, new_dirty_queue-Inv, mark-Inv, finish-Inv, next_round-Inv, next_round-nil,
  next_round-cons, queued_of_live, lookup-take_ready, live-take_ready, live-pop_head, lookup-put,
}

pub data Call (V : Type 0) : Type 0 where
  marks : ℤ → Option V → Call V
  rounds : Call V
  finishes : ℤ → Bool → Call V

module _ {V : Type 0} where
  -- The queue after a call, and the server that it hands to the caller.
  unfoldable pub step : DirtyQueue V → Call V → DirtyQueue V × Option (ℤ × Option V)
  step q (marks id v) = (mark id v q, none)
  step q rounds = next_round q
  step q (finishes id retry) = (finish id retry q, none)

  unfoldable pub run : DirtyQueue V → List (Call V) → DirtyQueue V
  run q [] = q
  run q (c ∷ cs) = run (step q c).0 cs

  pub step-Inv : (q : DirtyQueue V) (c : Call V) → Inv q → Inv (step q c).0
  unfolding step
  step-Inv q (marks id v) h = mark-Inv id v q h
  step-Inv q rounds h = next_round-Inv q h
  step-Inv q (finishes id retry) h = finish-Inv id retry q h

  run_from-Inv : (q : DirtyQueue V) (cs : List (Call V)) → Inv q → Inv (run q cs)
  unfolding run
  run_from-Inv q [] h = h
  run_from-Inv q (c ∷ cs) h = run_from-Inv (step q c).0 cs (step-Inv q c h)

  -- After any calls on a new queue, every server that the queue knows is either queued, and then
  -- stands exactly once among the entries still to be taken, or running, and then stands nowhere.
  pub run-Inv : (cs : List (Call V)) → Inv (run new_dirty_queue cs)
  run-Inv cs = run_from-Inv new_dirty_queue cs new_dirty_queue-Inv

  -- What a round of `next` does, from the entries still to be taken.
  abbrev pub Takes : DirtyQueue V → List ℤ → DirtyQueue V × Option (ℤ × Option V) → Type 0
  Takes q [] (t, r) = (r ≡ none) × (live t ≡ []) × (t.states ≡ q.states)
  Takes q (id ∷ rest) (t, r) =
      (s : DirtyServerState V) × (lookup id q.states ≡ some s)
      × (r ≡ some (id, s.snapshot))
      × (live t ≡ rest)
      × ((j : ℤ)
          → lookup j t.states ≡ (
              if id == j
              then some (record s { queued = false; running = true; dirty_again = false })
              else lookup j q.states))

  next_round_cases-Takes :
      (q : DirtyQueue V) (ids : List ℤ) → Inv q → live q ≡ ids → Takes q ids (next_round q)
  next_round_cases-Takes q [] h e = rw (next_round-nil q h e) (refl, refl, refl)
  next_round_cases-Takes q (id ∷ rest) h e =
      let (s, l, d) = queued_of_live q id rest h e in
      rw (next_round-cons q id rest s h e l d) (
        s,
        l,
        refl,
        live-take_ready id s (pop_head q) ∙ live-pop_head q id rest h.head_bounded e,
        λ j. lookup-take_ready id j s (pop_head q),
      )

  -- A round of `next` hands out the entry that waits longest, with its stored snapshot, and marks
  -- that server alone as running; it goes to sleep only if no entry is left.
  pub next_round-Takes : (q : DirtyQueue V) → Inv q → Takes q (live q) (next_round q)
  next_round-Takes q h = next_round_cases-Takes q (live q) h refl

  -- A worker is at the server.
  abbrev pub IsRunning : ℤ → DirtyQueue V → Type 0
  IsRunning id q = (s : DirtyServerState V) × (lookup id q.states ≡ some s) × (s.running ≡ true)

  -- The server waits for its evaluation with snapshot `v`: it is queued, or will be when the worker
  -- at it has finished.
  abbrev pub IsOwed : ℤ → Option V → DirtyQueue V → Type 0
  IsOwed id v q =
      (s : DirtyServerState V) × (lookup id q.states ≡ some s)
      × ((s.queued ≡ true) ⊎ ((s.running ≡ true) × (s.dirty_again ≡ true)))
      × (s.snapshot ≡ v)

  lookup-mark_state :
      (id j : ℤ) (v : Option V) (o : Option (DirtyServerState V)) (q : DirtyQueue V)
      → (id == j) ≡ false
      → lookup j (mark_state id v o q).states ≡ lookup j q.states
  unfolding mark_state
  lookup-mark_state id j v none q ne = rw (lookup-put id j, ne)
  lookup-mark_state id j v (some s) q ne = rw (lookup-put id j, ne)

  lookup-finish_state :
      (id j : ℤ) (retry : Bool) (o : Option (DirtyServerState V)) (q : DirtyQueue V)
      → (id == j) ≡ false
      → lookup j (finish_state id retry o q).states ≡ lookup j q.states
  unfolding finish_state
  lookup-finish_state id j retry none q ne = refl
  lookup-finish_state id j retry (some s) q ne = ground (
    arith,
    lookup-put id j (record s { queued = true; running = false; dirty_again = false }) q,
    lookup-erase id j q.states,
  )

  -- Calls for another server leave a server's state as it is.
  pub lookup-mark_ne :
      (id j : ℤ) (v : Option V) (q : DirtyQueue V)
      → (id == j) ≡ false
      → lookup j (mark id v q).states ≡ lookup j q.states
  unfolding mark
  lookup-mark_ne id j v q ne = ground (arith, lookup-mark_state id j v (lookup id q.states) q)

  pub lookup-finish_ne :
      (id j : ℤ) (retry : Bool) (q : DirtyQueue V)
      → (id == j) ≡ false
      → lookup j (finish id retry q).states ≡ lookup j q.states
  unfolding finish
  lookup-finish_ne id j retry q ne =
      ground (arith, lookup-finish_state id j retry (lookup id q.states) q)
