-- ===== src/DirtyQueue/Lasting.antt =====
-- A mark of a server, and the calls that follow it (mark, next, finish).
use ithiltir.Shared.{◌≡◌, ◌⊎◌, inl, inr, false, Option, some, List, [], ◌∷◌}
use ithiltir.Shared.Maps.{lookup}
use ithiltir.Shared.Int.{ℤ, pos, leb_ℤ, int_eq}
use ithiltir.Shared.Lists.{All}
use ithiltir.DirtyQueue.{DirtyQueue, mark}
use ithiltir.DirtyQueue.Invariant.{Inv, mark-Inv}
use ithiltir.DirtyQueue.Service.{Call, step, run, step-Inv, IsOwed}
use ithiltir.DirtyQueue.Exclusion.{brings_snapshot, latest, mark-IsOwed-latest, step-IsOwed}

module _ {V : Type 0} where
  -- One of the calls hands the server to a worker with the snapshot.
  unfoldable pub HandsOut : ℤ → Option V → DirtyQueue V → List (Call V) → Type 0
  HandsOut id v q [] = ⊥
  HandsOut id v q (c ∷ cs) = ((step q c).1 ≡ some (id, v)) ⊎ HandsOut id v (step q c).0 cs

  -- None of the calls brings a snapshot of the server.
  abbrev pub BringNone : ℤ → List (Call V) → Type 0
  BringNone id = All (λ c. brings_snapshot id c ≡ false)

  run-IsOwed :
      (id : ℤ) (v : Option V) (q : DirtyQueue V) (cs : List (Call V))
      → Inv q
      → IsOwed id v q
      → BringNone id cs
      → HandsOut id v q cs ⊎ IsOwed id v (run q cs)
  unfolding run HandsOut
  run-IsOwed id v q [] h o n = inr o
  run-IsOwed id v q (c ∷ cs) h o n = elim (step-IsOwed id v q c h o n.0) [
    | inl e ↦ inl (inl e)
    | inr p ↦ elim (run-IsOwed id v (step q c).0 cs (step-Inv q c h) p n.1) [
      | inl e ↦ inl (inr e)
      | inr k ↦ inr k
    ]
  ]

  -- In a queue that keeps its invariant, a mark of a server with a positive number is not lost,
  -- also while a worker is at the server: over all calls that follow and bring no newer snapshot of
  -- it, either one of them hands the server out, with the snapshot of the mark or else the one that
  -- was stored before, or it still waits for that, queued or to be queued when the worker at it has
  -- finished.
  pub mark-HandsOut :
      (id : ℤ) (w : Option V) (q : DirtyQueue V) (cs : List (Call V))
      → Inv q
      → leb_ℤ id (pos 0) ≡ false
      → BringNone id cs
      → let v = latest w (lookup id q.states) in
        HandsOut id v (mark id w q) cs ⊎ IsOwed id v (run (mark id w q) cs)
  mark-HandsOut id w q cs h p n =
      run-IsOwed id (latest w (lookup id q.states)) (mark id w q) cs (mark-Inv id w q h)
        (mark-IsOwed-latest id w q h p) n
