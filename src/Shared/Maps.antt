-- ===== src/Shared/Maps.antt =====
-- A Go map as an association list; the order of its entries is the order in which a `range` visits
-- them. A key that stands twice counts by its first entry.
use mathlib.Core.Path.{◌≡◌, refl}
use mathlib.Core.Option.{Option, none, some}
use mathlib.Core.List.{List, [], ◌∷◌}
use native.Mathlib.Omega.{arith}
use ithiltir.Shared.Tests.{Eq, ◌==◌, if◌then◌else◌, same_refl}
use ithiltir.Shared.Lists.{All}

module _ {ℓ κ} {K : Type ℓ} {V : Type κ} ⦃e : Eq K⦄ where
  -- m[k], with its `ok`.
  unfoldable pub lookup : K → List (K × V) → Option V
  lookup k [] = none
  lookup k ((j, v) ∷ m) = if j == k then some v else lookup k m

  -- m[k] = v
  unfoldable pub insert : K → V → List (K × V) → List (K × V)
  insert k v [] = (k, v) ∷ []
  insert k v ((j, w) ∷ m) = if j == k then (k, v) ∷ m else (j, w) ∷ insert k v m

  -- delete(m, k)
  unfoldable pub erase : K → List (K × V) → List (K × V)
  erase k [] = []
  erase k ((j, w) ∷ m) = let rest = erase k m in if j == k then rest else (j, w) ∷ rest

  -- A write is seen at its own key alone, and so is a deletion.
  pub lookup-insert :
      (key other : K) (new : V) (m : List (K × V))
      → lookup other (insert key new m) ≡ (if key == other then some new else lookup other m)
  unfolding lookup insert
  lookup-insert key other new [] = refl
  lookup-insert key other new ((first, old) ∷ m) =
      let rest = lookup-insert key other new m in
      ground (arith, rest, e.same_iff key other, e.same_iff first key, e.same_iff first other)

  pub lookup-erase :
      (key other : K) (m : List (K × V))
      → lookup other (erase key m) ≡ (if key == other then none else lookup other m)
  unfolding lookup erase
  lookup-erase key other [] = ground arith
  lookup-erase key other ((first, old) ∷ m) =
      let rest = lookup-erase key other m in
      ground (arith, rest, e.same_iff key other, e.same_iff first key, e.same_iff first other)

  -- No key stands twice.
  abbrev pub Unique : List (K × V) → Type κ
  Unique [] = Unit
  Unique ((k, v) ∷ m) = (lookup k m ≡ none) × Unique m

  pub Unique-insert : (k : K) (v : V) (m : List (K × V)) → Unique m → Unique (insert k v m)
  unfolding insert lookup
  Unique-insert k v [] u = (refl, tt)
  Unique-insert k v ((j, w) ∷ m) u = ground (
    arith,
    e.same_iff j k,
    e.same_iff k j,
    lookup-insert k j v m,
    Unique-insert k v m u.1,
    u.0,
    u.1,
  )

  pub Unique-erase : (k : K) (m : List (K × V)) → Unique m → Unique (erase k m)
  unfolding erase lookup
  Unique-erase k [] u = tt
  Unique-erase k ((j, w) ∷ m) u =
      ground (arith, e.same_iff j k, e.same_iff k j, lookup-erase k j m, Unique-erase k m u.1, u.0)

module _ {K V : Type 0} ⦃e : Eq K⦄ where
  -- Every entry of the second map is the one that the first has for its key.
  abbrev pub Within : List (K × V) → List (K × V) → Type 0
  Within m = All (λ (p : K × V). lookup p.0 m ≡ some p.1)

  Within-cons :
      (k : K) (v : V) (m xs : List (K × V))
      → lookup k m ≡ none
      → Within m xs
      → Within ((k, v) ∷ m) xs
  unfolding lookup
  Within-cons k v m [] n h = tt
  Within-cons k v m ((j, w) ∷ xs) n h =
      (ground (arith, e.same_iff k j, h.0), Within-cons k v m xs n h.1)

  pub Unique-Within : (m : List (K × V)) → Unique m → Within m m
  unfolding lookup
  Unique-Within [] u = tt
  Unique-Within ((k, v) ∷ m) u = (rw (same_refl k), Within-cons k v m m u.0 (Unique-Within m u.1))
