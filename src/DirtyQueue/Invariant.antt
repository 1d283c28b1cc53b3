-- ===== src/DirtyQueue/Invariant.antt =====
-- What holds of the queue between two calls.
use ithiltir.Shared.{
  ℕ, zero, suc, ◌-◌, ◌≤◌, ◌<◌, ◌≡◌, refl, ap, ◌⊎◌, inl, inr, Bool, true, false, Option, none, some,
  List, [], ◌∷◌, ◌++◌, arith,
}
use ithiltir.Shared.Tests.{ltb, if◌then◌else◌, Bool-cases, ◌==◌}
use ithiltir.Shared.Lists.{
  length, drop, get_or, count, count-append, length-append, length-drop, length-set, drop-set,
  drop-append, drop-get_or,
}
use ithiltir.Shared.Maps.{lookup, insert, lookup-insert, lookup-erase}
use ithiltir.Shared.Int.{ℤ, pos, leb_ℤ, int_eq, int_eqb_iff}
use ithiltir.DirtyQueue.{
  DirtyServerState, DirtyQueue, new_dirty_queue, mark, mark_state, next_round, take_ready, pop_head,
  scan, finish, finish_state,
}

module _ {V : Type 0} where
  -- The entries that `next` has not passed yet.
  abbrev pub live : DirtyQueue V → List ℤ
  live q = drop q.head q.ready

  -- A server is absent, queued or running, and stands in the queue only while queued, once.
  abbrev pub Entry : Option (DirtyServerState V) → ℕ → Type 0
  Entry none n = n ≡ 0
  Entry (some s) n =
      ((s.queued ≡ true) × (s.running ≡ false) × (n ≡ 1))
      ⊎ ((s.queued ≡ false) × (s.running ≡ true) × (n ≡ 0))

  pub record Inv (q : DirtyQueue V) : Type 0 where
    pub head_bounded : q.head ≤ length q.ready
    pub entries : (id : ℤ) → Entry (lookup id q.states) (count id (live q))

  pub new_dirty_queue-Inv : Inv (new_dirty_queue {V = V})
  unfolding new_dirty_queue lookup
  new_dirty_queue-Inv = record { head_bounded = omega arith; entries = λ id. refl }

  -- The count after an entry is appended, and the state after one is written.
  count-push :
      (id j : ℤ) (q : DirtyQueue V)
      → q.head ≤ length q.ready
      → count j (drop q.head (q.ready ++ id ∷ []))
        ≡ (if id == j then suc (count j (live q)) else count j (live q))
  count-push id j q h =
      rw (drop-append q.head q.ready (id ∷ []) h, count-append j (live q) (id ∷ [])) (ground arith)

  pub lookup-put :
      (id j : ℤ) (s : DirtyServerState V) (q : DirtyQueue V)
      → lookup j (insert id s q.states) ≡ (if id == j then some s else lookup j q.states)
  lookup-put id j s q = lookup-insert id j s q.states

  mark_state-entries :
      (id j : ℤ) (v : Option V) (o : Option (DirtyServerState V)) (q : DirtyQueue V)
      → lookup id q.states ≡ o
      → Inv q
      → let t = mark_state id v o q in Entry (lookup j t.states) (count j (live t))
  unfolding mark_state
  mark_state-entries id j v none q e h =
      rw (count-push id j q h.head_bounded, lookup-put id j)
        (ground (arith, h.entries j, h.entries id, int_eqb_iff id j))
  mark_state-entries id j v (some s) q e h =
      rw (lookup-put id j) (ground (arith, h.entries j, h.entries id, int_eqb_iff id j))

  mark_state-Inv :
      (id : ℤ) (v : Option V) (o : Option (DirtyServerState V)) (q : DirtyQueue V)
      → lookup id q.states ≡ o
      → Inv q
      → Inv (mark_state id v o q)
  unfolding mark_state
  mark_state-Inv id v none q e h = record {
    head_bounded = omega (arith, length-append q.ready (id ∷ []), h.head_bounded);
    entries = λ j. mark_state-entries id j v none q e h;
  }
  mark_state-Inv id v (some s) q e h = record {
    head_bounded = h.head_bounded;
    entries = λ j. mark_state-entries id j v (some s) q e h;
  }

  pub mark-Inv : (id : ℤ) (v : Option V) (q : DirtyQueue V) → Inv q → Inv (mark id v q)
  unfolding mark
  mark-Inv id v q h = elim (Bool-cases (leb_ℤ id (pos 0))) [
    | inl e ↦ rw e h
    | inr e ↦ rw e (mark_state-Inv id v (lookup id q.states) q refl h)
  ]

  finish_state-entries :
      (id j : ℤ) (retry : Bool) (o : Option (DirtyServerState V)) (q : DirtyQueue V)
      → lookup id q.states ≡ o
      → Inv q
      → let t = finish_state id retry o q in Entry (lookup j t.states) (count j (live t))
  unfolding finish_state
  finish_state-entries id j retry none q e h = h.entries j
  finish_state-entries id j retry (some s) q e h = ground (
    arith,
    h.entries j,
    h.entries id,
    int_eqb_iff id j,
    count-push id j q h.head_bounded,
    lookup-put id j (record s { queued = true; running = false; dirty_again = false }) q,
    lookup-erase id j q.states,
  )

  finish_state-head_bounded :
      (id : ℤ) (retry : Bool) (o : Option (DirtyServerState V)) (q : DirtyQueue V)
      → q.head ≤ length q.ready
      → let t = finish_state id retry o q in t.head ≤ length t.ready
  unfolding finish_state
  finish_state-head_bounded id retry none q h = h
  finish_state-head_bounded id retry (some s) q h = ground (arith, length-append q.ready (id ∷ []))

  finish_state-Inv :
      (id : ℤ) (retry : Bool) (o : Option (DirtyServerState V)) (q : DirtyQueue V)
      → lookup id q.states ≡ o
      → Inv q
      → Inv (finish_state id retry o q)
  finish_state-Inv id retry o q e h = record {
    head_bounded = finish_state-head_bounded id retry o q h.head_bounded;
    entries = λ j. finish_state-entries id j retry o q e h;
  }

  pub finish-Inv : (id : ℤ) (retry : Bool) (q : DirtyQueue V) → Inv q → Inv (finish id retry q)
  unfolding finish
  finish-Inv id retry q h = elim (Bool-cases (leb_ℤ id (pos 0))) [
    | inl e ↦ rw e h
    | inr e ↦ rw e (finish_state-Inv id retry (lookup id q.states) q refl h)
  ]

  -- `next` takes the first entry, whose server is queued.
  pub next_round-nil :
      (q : DirtyQueue V)
      → Inv q
      → live q ≡ []
      → next_round q ≡ (record q { ready = []; head = 0 }, none)
  unfolding next_round
  next_round-nil q h e = go (length q.ready - q.head) (ap length e)
    where
      go : (n : ℕ) → length (live q) ≡ 0 → scan n q ≡ (record q { ready = []; head = 0 }, none)
      go zero p = refl
      go (suc n) p = ground (arith, length-drop q.head q.ready)

  -- The state of a queued server, from the list of live entries.
  pub queued_of_live :
      (q : DirtyQueue V) (id : ℤ) (rest : List ℤ)
      → Inv q
      → live q ≡ id ∷ rest
      → (s : DirtyServerState V) × (lookup id q.states ≡ some s) × (s.queued ≡ true)
  queued_of_live q id rest h e = go (lookup id q.states) refl
    where
      go :
          (o : Option (DirtyServerState V))
          → lookup id q.states ≡ o
          → (s : DirtyServerState V) × (lookup id q.states ≡ some s) × (s.queued ≡ true)
      go none p = absurd (ground (arith, h.entries id, int_eqb_iff id id, ap (count id) e))
      go (some s) p = (s, p, ground (arith, h.entries id, int_eqb_iff id id, ap (count id) e))

  pub next_round-cons :
      (q : DirtyQueue V) (id : ℤ) (rest : List ℤ) (s : DirtyServerState V)
      → Inv q
      → live q ≡ id ∷ rest
      → lookup id q.states ≡ some s
      → s.queued ≡ true
      → next_round q ≡ (take_ready id s (pop_head q), some (id, s.snapshot))
  unfolding next_round
  next_round-cons q id rest s h e l d =
      go (length q.ready - q.head) (omega (arith, ap length e, length-drop q.head q.ready))
    where
      go :
          (n : ℕ)
          → (n ≡ suc (length rest)) × (q.head < length q.ready)
          → scan n q ≡ (take_ready id s (pop_head q), some (id, s.snapshot))
      go zero p = absurd (omega arith)
      go (suc n) p =
          let first : get_or q.ready q.head (pos 0) ≡ id =
            ground (arith, drop-get_or q.ready q.head (pos 0) p.1) in
          let more : ltb q.head (length q.ready) ≡ true = ground arith in
          let known : lookup (get_or q.ready q.head (pos 0)) q.states ≡ some s = rw first l in
          rw (more, known, d, first, scan) refl

  pub live-take_ready :
      (id : ℤ) (s : DirtyServerState V) (q : DirtyQueue V) → live (take_ready id s q) ≡ live q
  unfolding take_ready
  live-take_ready id s q = ground arith

  pub lookup-take_ready :
      (id j : ℤ) (s : DirtyServerState V) (q : DirtyQueue V)
      → lookup j (take_ready id s q).states ≡ (
          if id == j
          then some (record s { queued = false; running = true; dirty_again = false })
          else lookup j q.states)
  unfolding take_ready
  lookup-take_ready id j s q =
      ground (
        arith,
        lookup-put id j (record s { queued = false; running = true; dirty_again = false }) q,
      )

  take_ready-head_bounded :
      (id : ℤ) (s : DirtyServerState V) (q : DirtyQueue V)
      → q.head ≤ length q.ready
      → let t = take_ready id s q in t.head ≤ length t.ready
  unfolding take_ready
  take_ready-head_bounded id s q h = ground arith

  pub live-pop_head :
      (q : DirtyQueue V) (id : ℤ) (rest : List ℤ)
      → q.head ≤ length q.ready
      → live q ≡ id ∷ rest
      → live (pop_head q) ≡ rest
  live-pop_head q id rest h e =
      rw (drop-set q.ready q.head (pos 0)) (
        ground (arith, drop-get_or q.ready q.head (pos 0), ap length e, length-drop q.head q.ready))

  -- A round of `next` keeps the invariant, and takes exactly the first live entry, whose server it
  -- marks as running.
  next_round_cases-Inv :
      (q : DirtyQueue V) (ids : List ℤ) → Inv q → live q ≡ ids → Inv (next_round q).0
  next_round_cases-Inv q [] h e = rw (next_round-nil q h e) (record {
    head_bounded = omega arith;
    entries = λ id. ground (arith, h.entries id, ap (count id) e);
  })
  next_round_cases-Inv q (id ∷ rest) h e =
      let (s, l, d) = queued_of_live q id rest h e in
      rw (next_round-cons q id rest s h e l d) (record {
        head_bounded = take_ready-head_bounded id s (pop_head q) (
            omega
              (arith, length-set q.ready q.head (pos 0), ap length e, length-drop q.head q.ready));
        entries = λ j.
            rw
              (
                lookup-take_ready id j s (pop_head q),
                live-take_ready id s (pop_head q),
                live-pop_head q id rest h.head_bounded e,
              )
              (ground (
                arith,
                h.entries j,
                h.entries id,
                ap (count j) e,
                ap (count id) e,
                int_eqb_iff id j,
                int_eqb_iff id id,
              ));
      })

  pub next_round-Inv : (q : DirtyQueue V) → Inv q → Inv (next_round q).0
  next_round-Inv q h = next_round_cases-Inv q (live q) h refl
