-- ===== src/Alert/Evaluate/Result.antt =====
-- What an evaluation of a server promises.
use ithiltir.Shared.{
  ℕ, zero, suc, ◌+◌, ◌*◌, ◌<◌, ◌≤◌, ◌≡◌, refl, ◌≢◌, ◌⊎◌, inl, inr, Bool, true, false, not, ◌&&◌,
  ◌||◌, Option, none, some, List, [], ◌∷◌, arith,
}
use ithiltir.Shared.Tests.{Bool-cases, nat_eq}
use ithiltir.Shared.Lists.{All}
use ithiltir.Shared.Text.{Text, text_eq}
use ithiltir.Shared.Maps.{lookup, Unique, Unique-Within}
use ithiltir.Shared.Int.{ℤ, pos, negsuc, leb_ℤ}
use ithiltir.Shared.Float.{Float}
use ithiltir.Shared.Time.{Time, nanos}
use ithiltir.NodeView.{NodeView}
use ithiltir.Alert.Compile.{CompiledRules}
use ithiltir.Alert.Runtime.{
  firing, RuntimeState, OpenTransition, EvalResult, is_firing, duration_satisfied,
}
use ithiltir.Alert.Evaluate.Kept.{Fits}
use ithiltir.Alert.Evaluate.Transitions.{Opens, IsNotFiring}
use ithiltir.Alert.Evaluate.Loop.{
  evaluate_rules-seen, evaluate_rules-unseen, lookup-keep_entries, kept_entry,
}
use ithiltir.Alert.Evaluate.Closes.{
  OpensWell, ClosesWell, evaluate_rules-OpensWell, evaluate_rules-ClosesWell, opens-keep_entries,
  keep_entries-ClosesWell,
}
use ithiltir.Alert.Evaluate.{
  Scene, is_seen, keep_entries, empty_result, evaluate_scene, scene_of, evaluate_server,
}

later_than :
    (since at : Time) (n : ℕ)
    → duration_satisfied since (pos n) at ≡ true
    → 0 < n
    → since + n * nanos ≤ at
unfolding duration_satisfied
later_than since at n h p = ground arith

int-cases : (d : ℤ) → (leb_ℤ d (pos 0) ≡ true) ⊎ ((n : ℕ) × (d ≡ pos n) × (0 < n))
int-cases (pos zero) = inl (ground arith)
int-cases (pos (suc n)) = inr (suc n, refl, omega arith)
int-cases (negsuc n) = inl (ground arith)

module _ {F : Type 0} ⦃fl : Float F⦄ where
  abbrev pub SomeScene :
      Option (Scene F)
      → ℤ
      → Option (NodeView F)
      → CompiledRules F
      → List (Text × RuntimeState F)
      → Time
      → EvalResult F
  SomeScene none id view compiled current now =
      keep_entries true id now none compiled current empty_result
  SomeScene (some sc) id view compiled current now = evaluate_scene sc compiled current

  pub by_scene :
      (id : ℤ) (view : Option (NodeView F)) (compiled : CompiledRules F)
      (current : List (Text × RuntimeState F)) (now : Time)
      → evaluate_server id view compiled current now
        ≡ SomeScene (scene_of id view now) id view compiled current now
  unfolding evaluate_server
  by_scene id view compiled current now = go (scene_of id view now)
    where
      go :
          (o : Option (Scene F))
          → elim o [
            | none ↦ keep_entries true id now none compiled current empty_result
            | some sc ↦ evaluate_scene sc compiled current
          ]
            ≡ SomeScene o id view compiled current now
      go none = refl
      go (some sc) = refl

  nothing : (j : Text) → lookup j (empty_result {F = F}).next ≡ none
  unfolding lookup
  nothing j = refl

  kept_entry-Fits :
      (all : Bool) (compiled : CompiledRules F) (j : Text) (o old : Option (RuntimeState F))
      → Fits o old
      → Fits o (kept_entry all compiled j o old)
  kept_entry-Fits all compiled j none old h = h
  kept_entry-Fits all compiled j (some s) old h =
      elim (Bool-cases (is_firing s.phase && (all || not (is_seen j compiled.rules)))) [
        | inl e ↦ rw e (inl (ground arith, ground arith))
        | inr e ↦ rw e h
      ]

  kept_entry-Fits_all :
      (all : Bool) (compiled : CompiledRules F) (j : Text) (o : Option (RuntimeState F))
      → (all || not (is_seen j compiled.rules)) ≡ true
      → Fits o (kept_entry all compiled j o none)
  kept_entry-Fits_all all compiled j none h = tt
  kept_entry-Fits_all all compiled j (some s) h = rw h (elim (Bool-cases (is_firing s.phase)) [
    | inl e ↦ rw e (inl (ground arith, ground arith))
    | inr e ↦ rw e (ground arith)
  ])

  scene-Fits :
      (sc : Scene F) (compiled : CompiledRules F) (current : List (Text × RuntimeState F))
      (j : Text)
      → Unique current
      → Fits (lookup j current) (lookup j (evaluate_scene sc compiled current).next)
  unfolding evaluate_scene
  scene-Fits sc compiled current j u =
      rw (lookup-keep_entries false sc.server_id sc.now (some sc.view) compiled j current _ u)
        (elim (Bool-cases (is_seen j compiled.rules)) [
          | inl e ↦
              kept_entry-Fits false compiled j (lookup j current) _
                (evaluate_rules-seen sc current j compiled.rules empty_result e (nothing j))
          | inr e ↦
              rw (evaluate_rules-unseen sc current j compiled.rules empty_result e, nothing j)
                (kept_entry-Fits_all false compiled j (lookup j current) (ground arith))
        ])

  some_scene-Fits :
      (o : Option (Scene F)) (id : ℤ) (view : Option (NodeView F)) (compiled : CompiledRules F)
      (current : List (Text × RuntimeState F)) (now : Time) (j : Text)
      → Unique current
      → Fits (lookup j current) (lookup j (SomeScene o id view compiled current now).next)
  some_scene-Fits none id view compiled current now j u =
      rw (lookup-keep_entries true id now none compiled j current empty_result u, nothing j)
        (kept_entry-Fits_all true compiled j (lookup j current) refl)
  some_scene-Fits (some sc) id view compiled current now j u = scene-Fits sc compiled current j u

  -- For every key, whatever the snapshot and the rules: an alert that fires goes on firing as the same
  -- event until the store has closed it; any other key is left without a state, or is pending, or
  -- stays in the cooldown that it had.
  pub evaluate_server-Fits :
      (id : ℤ) (view : Option (NodeView F)) (compiled : CompiledRules F)
      (current : List (Text × RuntimeState F)) (now : Time) (j : Text)
      → Unique current
      → Fits (lookup j current) (lookup j (evaluate_server id view compiled current now).next)
  evaluate_server-Fits id view compiled current now j u =
      rw (by_scene id view compiled current now)
        (some_scene-Fits (scene_of id view now) id view compiled current now j u)

  some_scene-ClosesWell :
      (o : Option (Scene F)) (id : ℤ) (view : Option (NodeView F)) (compiled : CompiledRules F)
      (current : List (Text × RuntimeState F)) (now : Time)
      → Unique current
      → All (ClosesWell current) (SomeScene o id view compiled current now).close_transitions
  unfolding evaluate_scene
  some_scene-ClosesWell none id view compiled current now u =
      keep_entries-ClosesWell true id now none compiled current current empty_result
        (Unique-Within current u) tt
  some_scene-ClosesWell (some sc) id view compiled current now u =
      keep_entries-ClosesWell false sc.server_id sc.now (some sc.view) compiled current current _
        (Unique-Within current u)
        (evaluate_rules-ClosesWell sc current compiled.rules empty_result tt)

  -- Every close transition names the event and the start of the alert that fires under its key.
  pub evaluate_server-ClosesWell :
      (id : ℤ) (view : Option (NodeView F)) (compiled : CompiledRules F)
      (current : List (Text × RuntimeState F)) (now : Time)
      → Unique current
      → All (ClosesWell current) (evaluate_server id view compiled current now).close_transitions
  evaluate_server-ClosesWell id view compiled current now u =
      rw (by_scene id view compiled current now)
        (some_scene-ClosesWell (scene_of id view now) id view compiled current now u)

  scene-OpensWell :
      (sc : Scene F) (compiled : CompiledRules F) (current : List (Text × RuntimeState F))
      → All (OpensWell sc current) (evaluate_scene sc compiled current).open_transitions
  unfolding evaluate_scene
  scene-OpensWell sc compiled current =
      rw (opens-keep_entries false sc.server_id sc.now (some sc.view) compiled current _)
        (evaluate_rules-OpensWell sc current compiled.rules empty_result tt)

  -- Alerts are opened only on a usable snapshot, and then only where no alert fires. The transition
  -- carries the value of the rule's metric in the view at the time of the observation (for an
  -- offline rule whether the node is offline now) and the threshold in effect at the node for the
  -- rule's mode and offset; the value stands to the threshold as the rule's operator asks; and the
  -- condition has lasted for the rule's duration from a time that is no earlier than the rule's
  -- generation.
  pub evaluate_server-OpensWell :
      (id : ℤ) (view : Option (NodeView F)) (compiled : CompiledRules F)
      (current : List (Text × RuntimeState F)) (now : Time)
      → ((evaluate_server id view compiled current now).open_transitions ≡ [])
        ⊎ ((sc : Scene F) × (scene_of id view now ≡ some sc)
            × All
                (OpensWell sc current)
                (evaluate_server id view compiled current now).open_transitions)
  evaluate_server-OpensWell id view compiled current now =
      rw (by_scene id view compiled current now) (go (scene_of id view now) refl)
    where
      go :
          (o : Option (Scene F))
          → scene_of id view now ≡ o
          → ((SomeScene o id view compiled current now).open_transitions ≡ [])
            ⊎ ((sc : Scene F) × (scene_of id view now ≡ some sc)
                × All
                    (OpensWell sc current)
                    (SomeScene o id view compiled current now).open_transitions)
      go none e = inl (opens-keep_entries true id now none compiled current empty_result)
      go (some sc) e = inr (sc, e, scene-OpensWell sc compiled current)

  -- The key had a state before that did not fire, pending for `n` seconds at least, and since the
  -- rule's generation at the earliest.
  abbrev pub PendingFor : ℕ → Option (RuntimeState F) → OpenTransition F → Type 0
  PendingFor n o t =
      (s : RuntimeState F) × (o ≡ some s)
      × (s.phase ≢ firing)
      × (t.rule.generation_updated_at ≤ s.pending_since)
      × (s.pending_since + n * nanos ≤ t.triggered_at)

  -- The rule has no duration, or its key has been pending for it.
  abbrev pub Sustained : List (Text × RuntimeState F) → OpenTransition F → Type 0
  Sustained current t =
      (leb_ℤ t.rule.duration_sec (pos 0) ≡ true)
      ⊎ ((n : ℕ) × (t.rule.duration_sec ≡ pos n) × PendingFor n (lookup t.key current) t)

  Opens-PendingFor :
      (sc : Scene F) (o : Option (RuntimeState F)) (t : OpenTransition F) (n : ℕ)
      → Opens sc o t
      → IsNotFiring o
      → t.rule.duration_sec ≡ pos n
      → 0 < n
      → PendingFor n o t
  Opens-PendingFor sc none t n h q e p =
      absurd (omega (arith, later_than h.since t.triggered_at n (rw e at h.lasted) p))
  Opens-PendingFor sc (some s) t n h q e p =
      let late = later_than h.since t.triggered_at n (rw e at h.lasted) p in
      (s, refl, q, ground (arith, late), ground (arith, late))

  Opens-Sustained :
      (sc : Scene F) (current : List (Text × RuntimeState F)) (t : OpenTransition F)
      → OpensWell sc current t
      → Sustained current t
  Opens-Sustained sc current t (h, q) = elim (int-cases t.rule.duration_sec) [
    | inl e ↦ inl e
    | inr (n, e, p) ↦ inr (n, e, Opens-PendingFor sc (lookup t.key current) t n h q e p)
  ]

  All-Sustained :
      (sc : Scene F) (current : List (Text × RuntimeState F)) (ts : List (OpenTransition F))
      → All (OpensWell sc current) ts
      → All (Sustained current) ts
  All-Sustained sc current [] h = tt
  All-Sustained sc current (t ∷ ts) h =
      (Opens-Sustained sc current t h.0, All-Sustained sc current ts h.1)

  nil-Sustained :
      (current : List (Text × RuntimeState F)) (ts : List (OpenTransition F))
      → ts ≡ []
      → All (Sustained current) ts
  nil-Sustained current [] e = tt
  nil-Sustained current (t ∷ ts) e = absurd (cc)

  -- A rule with a positive duration opens no alert at first sight: its key had a state before that
  -- does not fire, pending since the rule's generation at the earliest and for the duration at least.
  pub evaluate_server-Sustained :
      (id : ℤ) (view : Option (NodeView F)) (compiled : CompiledRules F)
      (current : List (Text × RuntimeState F)) (now : Time)
      → All (Sustained current) (evaluate_server id view compiled current now).open_transitions
  evaluate_server-Sustained id view compiled current now =
      elim (evaluate_server-OpensWell id view compiled current now) [
        | inl e ↦ nil-Sustained current _ e
        | inr (sc, e, h) ↦ All-Sustained sc current _ h
      ]
