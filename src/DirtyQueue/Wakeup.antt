-- ===== src/DirtyQueue/Wakeup.antt =====
-- The workers of internal/alert/service_eval.go at the queue: between two locks a worker is about to
-- run a round of `next`, asleep in its `select`, or at a server. No wakeup is lost.
use ithiltir.Shared.{
  ℕ, suc, ◌<◌, ◌≡◌, refl, ◌⊎◌, inl, inr, Bool, true, false, Option, none, some, List, [], ◌∷◌,
  arith,
}
use ithiltir.Shared.Tests.{ltb, if◌then◌else◌, Bool-cases}
use ithiltir.Shared.Lists.{length, drop_all}
use ithiltir.Shared.Maps.{lookup}
use ithiltir.Shared.Int.{ℤ, pos, leb_ℤ, int_eq}
use ithiltir.DirtyQueue.{
  DirtyServerState, DirtyQueue, new_dirty_queue, mark, mark_state, next_round, take_ready, pop_head,
  signal, compact, put, finish, finish_state,
}
use ithiltir.DirtyQueue.Invariant.{
  live, Inv, new_dirty_queue-Inv, mark-Inv, finish-Inv, next_round-Inv, next_round-nil,
  next_round-cons, queued_of_live,
}

pub record Workers (V : Type 0) : Type 0 where
  pub queue : DirtyQueue V
  pub awake : ℕ
  pub asleep : ℕ
  pub busy : ℕ

module _ {V : Type 0} where
  -- The worker that ran a round is busy if it got a server, and asleep if not.
  abbrev pub after_round : Workers V → ℕ → DirtyQueue V × Option (ℤ × Option V) → Workers V
  after_round w n (q, none) = record w { queue = q; awake = n; asleep = suc w.asleep }
  after_round w n (q, some _) = record w { queue = q; awake = n; busy = suc w.busy }

  -- A call by anybody, in any order.
  pub data Step (w : Workers V) : Workers V → Type 0 where
    marks : (id : ℤ) (v : Option V) → Step w (record w { queue = mark id v w.queue })
    rounds : (n : ℕ) → w.awake ≡ suc n → Step w (after_round w n (next_round w.queue))
    wakes :
        (n : ℕ)
        → w.asleep ≡ suc n
        → w.queue.wakeup ≡ true
        → Step w (record w {
          queue = record (w.queue) { wakeup = false };
          awake = suc w.awake;
          asleep = n;
        })
    finishes :
        (n : ℕ) (id : ℤ) (retry : Bool)
        → w.busy ≡ suc n
        → Step w (record w { queue = finish id retry w.queue; awake = suc w.awake; busy = n })

  pub data Reach (w : Workers V) : Workers V → Type 0 where
    here : Reach w w
    next : {u v : Workers V} → Reach w u → Step u v → Reach w v

  -- An entry that nobody has taken has a token or a worker on its way.
  abbrev pub IsServed : Workers V → Type 0
  IsServed w = (live w.queue ≡ []) ⊎ ((w.queue.wakeup ≡ true) ⊎ (0 < w.awake))

  -- Every worker has just been started.
  abbrev pub started : ℕ → Workers V
  started n = record { queue = new_dirty_queue; awake = n; asleep = 0; busy = 0 }

  -- The methods keep a token, or set one when they leave an entry.
  abbrev Signals : DirtyQueue V → DirtyQueue V → Type 0
  Signals q t = (t.wakeup ≡ true) ⊎ ((t.wakeup ≡ q.wakeup) × (live t ≡ live q))

  mark_state-Signals :
      (id : ℤ) (v : Option V) (o : Option (DirtyServerState V)) (q : DirtyQueue V)
      → Signals q (mark_state id v o q)
  unfolding mark_state
  mark_state-Signals id v none q = inl refl
  mark_state-Signals id v (some s) q = inr (refl, refl)

  mark-Signals : (id : ℤ) (v : Option V) (q : DirtyQueue V) → Signals q (mark id v q)
  unfolding mark
  mark-Signals id v q = elim (Bool-cases (leb_ℤ id (pos 0))) [
    | inl p ↦ rw p (inr (refl, refl))
    | inr p ↦ rw p (mark_state-Signals id v (lookup id q.states) q)
  ]

  finish_state-Signals :
      (id : ℤ) (retry : Bool) (o : Option (DirtyServerState V)) (q : DirtyQueue V)
      → Signals q (finish_state id retry o q)
  unfolding finish_state
  finish_state-Signals id retry none q = inr (refl, refl)
  finish_state-Signals id retry (some s) q = ground arith

  finish-Signals : (id : ℤ) (retry : Bool) (q : DirtyQueue V) → Signals q (finish id retry q)
  unfolding finish
  finish-Signals id retry q = elim (Bool-cases (leb_ℤ id (pos 0))) [
    | inl p ↦ rw p (inr (refl, refl))
    | inr p ↦ rw p (finish_state-Signals id retry (lookup id q.states) q)
  ]

  signal-IsServed :
      (t : DirtyQueue V)
      → let u = if ltb t.head (length t.ready) then signal t else t in
        (live u ≡ []) ⊎ (u.wakeup ≡ true)
  unfolding signal
  signal-IsServed t = elim (Bool-cases (ltb t.head (length t.ready))) [
    | inl p ↦ rw p (inr refl)
    | inr p ↦ rw p (inl (drop_all t.ready t.head (ground arith)))
  ]

  take_ready-IsServed :
      (id : ℤ) (s : DirtyServerState V) (q : DirtyQueue V)
      → let t = take_ready id s q in (live t ≡ []) ⊎ (t.wakeup ≡ true)
  unfolding take_ready
  take_ready-IsServed id s q =
      signal-IsServed
        (compact (put id (record s { queued = false; running = true; dirty_again = false }) q))

  next_round_cases-IsServed :
      (q : DirtyQueue V) (ids : List ℤ)
      → Inv q
      → live q ≡ ids
      → let t = (next_round q).0 in (live t ≡ []) ⊎ (t.wakeup ≡ true)
  next_round_cases-IsServed q [] h e = rw (next_round-nil q h e) (inl refl)
  next_round_cases-IsServed q (id ∷ rest) h e =
      let (s, l, d) = queued_of_live q id rest h e in
      rw (next_round-cons q id rest s h e l d) (take_ready-IsServed id s (pop_head q))

  after_round-IsServed :
      (w : Workers V) (n : ℕ) (r : DirtyQueue V × Option (ℤ × Option V))
      → (live r.0 ≡ []) ⊎ (r.0.wakeup ≡ true)
      → Inv r.0
      → IsServed (after_round w n r) × Inv (after_round w n r).queue
  after_round-IsServed w n (q, none) h v = (ground arith, v)
  after_round-IsServed w n (q, some _) h v = (ground arith, v)

  Step-IsServed : {w u : Workers V} → Step w u → IsServed w × Inv w.queue → IsServed u × Inv u.queue
  Step-IsServed {w} (marks id v) (h, i) =
      (ground (arith, mark-Signals id v w.queue), mark-Inv id v w.queue i)
  Step-IsServed {w} (rounds n a) (h, i) =
      after_round-IsServed w n (next_round w.queue)
        (next_round_cases-IsServed w.queue (live w.queue) i refl) (next_round-Inv w.queue i)
  Step-IsServed {w} (wakes n a t) (h, i) =
      (inr (inr (omega arith)), record { head_bounded = i.head_bounded; entries = i.entries })
  Step-IsServed {w} (finishes n id retry a) (h, i) =
      (inr (inr (omega arith)), finish-Inv id retry w.queue i)

  Reach-IsServed :
      {w u : Workers V} → IsServed w × Inv w.queue → Reach w u → IsServed u × Inv u.queue
  Reach-IsServed h here = h
  Reach-IsServed h (next r s) = Step-IsServed s (Reach-IsServed h r)

  -- No wakeup is lost: from the start of `n` workers, in every interleaving of marks, rounds, wakeups
  -- and finished evaluations, an entry that nobody has taken finds the token set or a worker awake.
  pub no_lost_wakeup : (n : ℕ) (w : Workers V) → Reach (started n) w → IsServed w
  unfolding new_dirty_queue
  no_lost_wakeup n w r = (Reach-IsServed (inl refl, new_dirty_queue-Inv) r).0
