-- ===== src/Alert/Process/Flushed.antt =====
-- What the flush of the heartbeats leaves of a key.
use ithiltir.Shared.{◌≡◌, refl, ◌∙◌, inl, inr, Option, none, some, List, [], ◌∷◌, arith}
use ithiltir.Shared.Tests.{◌==◌, if◌then◌else◌, Bool-cases, list_eqb_iff, nat_eq}
use ithiltir.Shared.Text.{Text, text_eq}
use ithiltir.Shared.Maps.{lookup, Unique}
use ithiltir.Shared.Float.{Float}
use ithiltir.Alert.Runtime.{RuntimeState}
use ithiltir.Alert.Process.{add_some, flush_state, flush_heartbeats}
use ithiltir.Alert.Environment.{Env}

module _ {F : Type 0} ⦃fl : Float F⦄ where
  -- What a flush leaves of a key.
  abbrev pub flushed :
      Env F
      → List (Text × RuntimeState F)
      → List Text
      → Text
      → Option (RuntimeState F)
      → Option (RuntimeState F)
  flushed env current keys j none = none
  flushed env current keys j (some s) = flush_state env keys j s (lookup j current)

  abbrev pub or_else : Option (RuntimeState F) → Option (RuntimeState F) → Option (RuntimeState F)
  or_else none o = o
  or_else (some s) o = some s

  pub or_else-none : (o : Option (RuntimeState F)) → or_else o none ≡ o
  or_else-none none = refl
  or_else-none (some s) = refl

  pub lookup-add_some :
      (j k : Text) (o : Option (RuntimeState F)) (m : List (Text × RuntimeState F))
      → lookup j (add_some k o m) ≡ (if k == j then or_else o (lookup j m) else lookup j m)
  unfolding add_some lookup
  lookup-add_some j k none m = ground arith
  lookup-add_some j k (some s) m = refl

  pub lookup-flush_heartbeats :
      (env : Env F) (current : List (Text × RuntimeState F)) (keys : List Text) (j : Text)
      (next : List (Text × RuntimeState F))
      → Unique next
      → lookup j (flush_heartbeats env current keys next)
        ≡ flushed env current keys j (lookup j next)
  unfolding flush_heartbeats lookup
  lookup-flush_heartbeats env current keys j [] u = refl
  lookup-flush_heartbeats env current keys j ((k, s) ∷ next) u =
      let rest = lookup-flush_heartbeats env current keys j next u.1 in
      lookup-add_some j k (flush_state env keys k s (lookup k current))
        (flush_heartbeats env current keys next)
      ∙ (elim (Bool-cases (k == j)) [
        | inl e ↦
            let same : k ≡ j = (list_eqb_iff k j).0 e in
            let gone : lookup j next ≡ none = rw same at (u.0) in
            rw (e, rest, gone, same) (or_else-none (flush_state env keys j s (lookup j current)))
        | inr e ↦ rw (e, rest)
      ])
