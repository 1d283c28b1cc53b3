-- ===== src/Alert/Saving/Merge.antt =====
-- What saving the states of a server does to what is stored.
use ithiltir.Shared.{
  ◌≡◌, refl, ◌∙◌, ◌⊎◌, inl, inr, true, false, Option, none, some, List, [], ◌∷◌, arith,
}
use ithiltir.Shared.Tests.{◌==◌, if◌then◌else◌, Bool-cases, list_eqb_iff, nat_eq}
use ithiltir.Shared.Text.{Text, text_eq}
use ithiltir.Shared.Maps.{lookup, lookup-insert, lookup-erase, Unique}
use ithiltir.Shared.Float.{Float}
use ithiltir.Alert.Runtime.{RuntimeState}
use ithiltir.Alert.Saving.{
  agrees, drop_state, drop_states, set_state, set_states, save_runtime_state,
}

module _ {F : Type 0} ⦃fl : Float F⦄ where
  -- The key of one entry, after a loop body has seen an entry of the key k.
  abbrev dropped :
      Option (RuntimeState F)
      → Option (RuntimeState F)
      → Option (RuntimeState F)
      → Option (RuntimeState F)
  dropped none nxt sto = sto
  dropped (some s) (some t) sto = sto
  dropped (some s) none sto = if agrees sto (some s) then none else sto

  abbrev chosen :
      Option (RuntimeState F)
      → Option (RuntimeState F)
      → Option (RuntimeState F)
      → Option (RuntimeState F)
  chosen cur none sto = sto
  chosen cur (some t) sto =
      if agrees cur (some t) then sto else if agrees sto cur then some t else sto

  lookup-drop_state :
      (j k : Text) (s : RuntimeState F) (o : Option (RuntimeState F))
      (stored : List (Text × RuntimeState F))
      → lookup j (drop_state k s o stored)
        ≡ (if k == j then dropped (some s) o (lookup j stored) else lookup j stored)
  lookup-drop_state j k s (some t) stored = ground arith
  lookup-drop_state j k s none stored = ground (arith, list_eqb_iff k j, lookup-erase k j stored)

  lookup-set_state :
      (j k : Text) (s : RuntimeState F) (o : Option (RuntimeState F))
      (stored : List (Text × RuntimeState F))
      → lookup j (set_state k s o stored)
        ≡ (if k == j then chosen o (some s) (lookup j stored) else lookup j stored)
  lookup-set_state j k s o stored = ground (arith, list_eqb_iff k j, lookup-insert k j s stored)

  lookup-drop_states :
      (j : Text) (next current stored : List (Text × RuntimeState F))
      → Unique current
      → lookup j (drop_states next current stored)
        ≡ dropped (lookup j current) (lookup j next) (lookup j stored)
  unfolding drop_states lookup
  lookup-drop_states j next [] stored u = refl
  lookup-drop_states j next ((k, s) ∷ current) stored u =
      lookup-drop_states j next current (drop_state k s (lookup k next) stored) u.1
      ∙ ground (arith, list_eqb_iff k j, lookup-drop_state j k s (lookup k next) stored, u.0)

  lookup-set_states :
      (j : Text) (current next stored : List (Text × RuntimeState F))
      → Unique next
      → lookup j (set_states current next stored)
        ≡ chosen (lookup j current) (lookup j next) (lookup j stored)
  unfolding set_states lookup
  lookup-set_states j current [] stored u = refl
  lookup-set_states j current ((k, s) ∷ next) stored u =
      lookup-set_states j current next (set_state k s (lookup k current) stored) u.1
      ∙ ground (arith, list_eqb_iff k j, lookup-set_state j k s (lookup k current) stored, u.0)

  -- What the key of a server has after a save, by what it had when the evaluation began, what the
  -- evaluation gives it, and what is stored when the save begins.
  abbrev pub Merged :
      Option (RuntimeState F)
      → Option (RuntimeState F)
      → Option (RuntimeState F)
      → Option (RuntimeState F)
      → Type 0
  Merged cur nxt sto res =
      ((agrees sto cur ≡ false) × (res ≡ sto))
      ⊎ ((agrees sto cur ≡ true) × ((res ≡ nxt) ⊎ ((agrees cur nxt ≡ true) × (res ≡ sto))))

  chosen-Merged :
      (cur nxt sto : Option (RuntimeState F))
      → Merged cur nxt sto (chosen cur nxt (dropped cur nxt sto))
  chosen-Merged none none none = inr (refl, inl refl)
  chosen-Merged none none (some s) = inl (refl, refl)
  chosen-Merged none (some t) none = inr (refl, inl refl)
  chosen-Merged none (some t) (some s) = inl (refl, refl)
  chosen-Merged (some c) none sto = elim (Bool-cases (agrees sto (some c))) [
    | inl e ↦ rw e (inr (refl, inl refl))
    | inr e ↦ rw e (inl (refl, refl))
  ]
  chosen-Merged (some c) (some t) sto = elim (Bool-cases (agrees sto (some c))) [
    | inl e ↦ elim (Bool-cases (agrees (some c) (some t))) [
      | inl f ↦ rw (e, f) (inr (refl, inr (refl, refl)))
      | inr f ↦ rw (f, e) (inr (refl, inl refl))
    ]
    | inr e ↦ elim (Bool-cases (agrees (some c) (some t))) [
      | inl f ↦ rw (e, f) (inl (refl, refl))
      | inr f ↦ rw (f, e) (inl (refl, refl))
    ]
  ]

  -- Saving an evaluation is a compare-and-set for every key on its own: a key whose stored state is no
  -- longer the one from which the evaluation began keeps what is stored, and every other key gets what
  -- the evaluation gives it, unless that is the state that it has.
  pub save_runtime_state-Merged :
      (j : Text) (current next stored : List (Text × RuntimeState F))
      → Unique current
      → Unique next
      → Merged
          (lookup j current)
          (lookup j next)
          (lookup j stored)
          (lookup j (save_runtime_state current next stored))
  unfolding save_runtime_state
  save_runtime_state-Merged j current next stored u v =
      rw
        (
          lookup-set_states j current next (drop_states next current stored) v,
          lookup-drop_states j next current stored u,
        )
        (chosen-Merged (lookup j current) (lookup j next) (lookup j stored))
