-- ===== src/DirtyQueue/Exclusion.antt =====
-- A server is evaluated by one worker at a time, and stays owed an evaluation until it is handed out.
use ithiltir.Shared.{
  ℕ, ◌≡◌, refl, ap, ◌∙◌, ◌⊎◌, inl, inr, ◌≢◌, Bool, true, false, Option, none, some, List, [], ◌∷◌,
  arith,
}
use ithiltir.Shared.Tests.{if◌then◌else◌, Bool-cases, ◌==◌}
use ithiltir.Shared.Lists.{count}
use ithiltir.Shared.Maps.{lookup, insert}
use ithiltir.Shared.Int.{ℤ, pos, leb_ℤ, int_eq, int_eqb_iff}
use ithiltir.DirtyQueue.{
  DirtyServerState, DirtyQueue, with_snapshot, zero_state, mark, mark_state, next_round, finish,
  finish_state,
}
use ithiltir.DirtyQueue.Invariant.{live, Entry, Inv, lookup-put}
use ithiltir.DirtyQueue.Service.{
  Call, marks, rounds, finishes, step, Takes, next_round-Takes, IsRunning, IsOwed, lookup-mark_ne,
  lookup-finish_ne,
}

module _ {V : Type 0} where
  mark_state-IsRunning :
      (id : ℤ) (v : Option V) (s : DirtyServerState V) (q : DirtyQueue V)
      → s.running ≡ true
      → IsRunning id (mark_state id v (some s) q)
  unfolding mark_state
  mark_state-IsRunning id v s q r = (
    record (with_snapshot v s) { dirty_again = true },
    rw (lookup-put id id) (ground (arith, int_eqb_iff id id)),
    ground arith,
  )

  mark-IsRunning_self :
      (id : ℤ) (v : Option V) (q : DirtyQueue V) → IsRunning id q → IsRunning id (mark id v q)
  unfolding mark
  mark-IsRunning_self id v q (s, l, r) = elim (Bool-cases (leb_ℤ id (pos 0))) [
    | inl e ↦ rw e (s, l, r)
    | inr e ↦ rw (e, l) (mark_state-IsRunning id v s q r)
  ]

  mark-IsRunning :
      (id j : ℤ) (v : Option V) (q : DirtyQueue V) → IsRunning j q → IsRunning j (mark id v q)
  mark-IsRunning id j v q (s, l, r) = elim (Bool-cases (id == j)) [
    | inl e ↦
        let same : id ≡ j = (int_eqb_iff id j).0 e in rw same (mark-IsRunning_self j v q (s, l, r))
    | inr e ↦ (s, lookup-mark_ne id j v q e ∙ l, r)
  ]

  -- The call ends the evaluation of the server.
  abbrev pub finishes_it : ℤ → Call V → Bool
  finishes_it id (finishes j retry) = j == id
  finishes_it id (marks j v) = false
  finishes_it id rounds = false

  abbrev pub NotTaken : ℤ → Option (ℤ × Option V) → Type 0
  NotTaken id r = (v : Option V) → r ≢ some (id, v)

  Takes-IsRunning :
      (id : ℤ) (q t : DirtyQueue V) (r : Option (ℤ × Option V)) (ids : List ℤ)
      → Inv q
      → live q ≡ ids
      → Takes q ids (t, r)
      → IsRunning id q
      → IsRunning id t × NotTaken id r
  Takes-IsRunning id q t r [] h e (a, b, c) (s, l, d) = ((s, ap (lookup id) c ∙ l, d), λ v p. cc)
  Takes-IsRunning id q t r (j ∷ rest) h e (w, lw, a, b, f) (s, l, d) =
      let other : (j == id) ≡ false = ground (arith, h.entries id, ap (count id) e) in
      ((s, f id ∙ rw other l, d), λ v p. ground (arith, int_eqb_iff j id))

  finish-IsRunning :
      (id j : ℤ) (retry : Bool) (q : DirtyQueue V)
      → (id == j) ≡ false
      → IsRunning j q
      → IsRunning j (finish id retry q)
  finish-IsRunning id j retry q ne (s, l, r) = (s, lookup-finish_ne id j retry q ne ∙ l, r)

  -- While a worker is at a server, and until a call ends that evaluation, the server stays marked as
  -- running and no call hands it to another worker.
  pub step-IsRunning :
      (id : ℤ) (q : DirtyQueue V) (c : Call V)
      → Inv q
      → IsRunning id q
      → finishes_it id c ≡ false
      → IsRunning id (step q c).0 × NotTaken id (step q c).1
  unfolding step
  step-IsRunning id q (marks j v) h r n = (mark-IsRunning j id v q r, λ w p. cc)
  step-IsRunning id q rounds h r n =
      Takes-IsRunning id q (next_round q).0 (next_round q).1 (live q) h refl (next_round-Takes q h)
        r
  step-IsRunning id q (finishes j retry) h r n = (finish-IsRunning j id retry q n r, λ w p. cc)

  -- The call brings no newer snapshot of the server.
  abbrev pub brings_snapshot : ℤ → Call V → Bool
  brings_snapshot id (marks j (some v)) = j == id
  brings_snapshot id (marks j none) = false
  brings_snapshot id rounds = false
  brings_snapshot id (finishes j retry) = false

  -- The snapshot that a mark leaves.
  abbrev pub latest : Option V → Option (DirtyServerState V) → Option V
  latest (some w) o = some w
  latest none none = none
  latest none (some s) = s.snapshot

  lookup-put_self :
      (id : ℤ) (s : DirtyServerState V) (q : DirtyQueue V)
      → lookup id (insert id s q.states) ≡ some s
  lookup-put_self id s q = rw (lookup-put id id) (ground (arith, int_eqb_iff id id))

  mark_state-IsOwed :
      (id : ℤ) (w : Option V) (o : Option (DirtyServerState V)) (q : DirtyQueue V) (n : ℕ)
      → Entry o n
      → IsOwed id (latest w o) (mark_state id w o q)
  unfolding mark_state
  mark_state-IsOwed id none none q n h =
      (record zero_state { queued = true }, lookup-put_self id _ q, inl refl, refl)
  mark_state-IsOwed id (some w) none q n h = (
    record zero_state { queued = true; snapshot = some w },
    lookup-put_self id _ q,
    inl refl,
    refl,
  )
  mark_state-IsOwed id none (some s) q n h = (
    if s.running then record s { dirty_again = true } else s,
    lookup-put_self id _ q,
    ground arith,
    ground arith,
  )
  mark_state-IsOwed id (some w) (some s) q n h =
      let t = record s { snapshot = some w } in
      (
        if t.running then record t { dirty_again = true } else t,
        lookup-put_self id _ q,
        ground arith,
        ground arith,
      )

  pub mark-IsOwed-latest :
      (id : ℤ) (w : Option V) (q : DirtyQueue V)
      → Inv q
      → leb_ℤ id (pos 0) ≡ false
      → IsOwed id (latest w (lookup id q.states)) (mark id w q)
  unfolding mark
  mark-IsOwed-latest id w q h p =
      rw p (mark_state-IsOwed id w (lookup id q.states) q _ (h.entries id))

  -- A server that is marked with a snapshot is owed an evaluation with that snapshot.
  pub mark-IsOwed :
      (id : ℤ) (w : V) (q : DirtyQueue V)
      → Inv q
      → leb_ℤ id (pos 0) ≡ false
      → IsOwed id (some w) (mark id (some w) q)
  mark-IsOwed id w q h p = mark-IsOwed-latest id (some w) q h p

  mark-IsOwed-none :
      (id : ℤ) (v : Option V) (q : DirtyQueue V)
      → Inv q
      → IsOwed id v q
      → IsOwed id v (mark id none q)
  unfolding mark
  mark-IsOwed-none id v q h (s, l, o, e) = elim (Bool-cases (leb_ℤ id (pos 0))) [
    | inl p ↦ rw p (s, l, o, e)
    | inr p ↦ rw (p, l, ← e) (mark_state-IsOwed id none (some s) q _ (rw l at (h.entries id)))
  ]

  mark-IsOwed_other :
      (id j : ℤ) (v w : Option V) (q : DirtyQueue V)
      → (j == id) ≡ false
      → IsOwed id v q
      → IsOwed id v (mark j w q)
  mark-IsOwed_other id j v w q ne (s, l, o, e) = (s, lookup-mark_ne j id w q ne ∙ l, o, e)

  finish_state-IsOwed :
      (id : ℤ) (v : Option V) (retry : Bool) (s : DirtyServerState V) (q : DirtyQueue V)
      → lookup id q.states ≡ some s
      → ((s.queued ≡ true) ⊎ ((s.running ≡ true) × (s.dirty_again ≡ true)))
      → s.snapshot ≡ v
      → Entry (some s) (count id (live q))
      → IsOwed id v (finish_state id retry (some s) q)
  unfolding finish_state
  finish_state-IsOwed id v retry s q l o e h =
      let again = record s { queued = true; running = false; dirty_again = false } in
      (
        if s.running then again else s,
        ground (arith, lookup-put_self id again q),
        ground arith,
        ground arith,
      )

  finish-IsOwed_self :
      (id : ℤ) (v : Option V) (retry : Bool) (q : DirtyQueue V)
      → Inv q
      → IsOwed id v q
      → IsOwed id v (finish id retry q)
  unfolding finish
  finish-IsOwed_self id v retry q h (s, l, o, e) = elim (Bool-cases (leb_ℤ id (pos 0))) [
    | inl p ↦ rw p (s, l, o, e)
    | inr p ↦ rw (p, l) (finish_state-IsOwed id v retry s q l o e (rw l at (h.entries id)))
  ]

  Takes-IsOwed :
      (id : ℤ) (v : Option V) (q t : DirtyQueue V) (r : Option (ℤ × Option V)) (ids : List ℤ)
      → Takes q ids (t, r)
      → IsOwed id v q
      → (r ≡ some (id, v)) ⊎ IsOwed id v t
  Takes-IsOwed id v q t r [] (a, b, c) (s, l, o, e) = inr (s, ap (lookup id) c ∙ l, o, e)
  Takes-IsOwed id v q t r (j ∷ rest) (w, lw, a, b, f) (s, l, o, e) = elim (Bool-cases (j == id)) [
    | inl p ↦ inl (ground (arith, int_eqb_iff j id, lw, l))
    | inr p ↦ inr (s, f id ∙ rw p l, o, e)
  ]

  -- A server that is owed an evaluation with a snapshot stays so over every call that brings no newer
  -- snapshot of it, until a round hands it out with that snapshot.
  pub step-IsOwed :
      (id : ℤ) (v : Option V) (q : DirtyQueue V) (c : Call V)
      → Inv q
      → IsOwed id v q
      → brings_snapshot id c ≡ false
      → ((step q c).1 ≡ some (id, v)) ⊎ IsOwed id v (step q c).0
  unfolding step
  step-IsOwed id v q (marks j (some w)) h o n = inr (mark-IsOwed_other id j v (some w) q n o)
  step-IsOwed id v q (marks j none) h o n = elim (Bool-cases (j == id)) [
    | inl p ↦
        let same : j ≡ id = (int_eqb_iff j id).0 p in inr (rw same (mark-IsOwed-none id v q h o))
    | inr p ↦ inr (mark-IsOwed_other id j v none q p o)
  ]
  step-IsOwed id v q rounds h o n =
      Takes-IsOwed id v q (next_round q).0 (next_round q).1 (live q) (next_round-Takes q h) o
  step-IsOwed id v q (finishes j retry) h (s, l, o, e) n = elim (Bool-cases (j == id)) [
    | inl p ↦
        let same : j ≡ id = (int_eqb_iff j id).0 p in
        inr (rw same (finish-IsOwed_self id v retry q h (s, l, o, e)))
    | inr p ↦ inr (s, lookup-finish_ne j id retry q p ∙ l, o, e)
  ]
