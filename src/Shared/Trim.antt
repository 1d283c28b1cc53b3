-- ===== src/Shared/Trim.antt =====
-- Trimmed text stays as it is when it is trimmed again.
use mathlib.Core.List.{reverse, reverse-cons, reverse-append, reverse-reverse}
use ithiltir.Shared.{◌≡◌, refl, false, inl, inr, [], ◌∷◌, ◌++◌, ℕ}
use ithiltir.Shared.Tests.{Bool-cases}
use ithiltir.Shared.Text.{Text, is_space, trim_left, trim_space}

trim_left-trim_left : (s : Text) → trim_left (trim_left s) ≡ trim_left s
unfolding trim_left
trim_left-trim_left [] = refl
trim_left-trim_left (c ∷ s) = elim (Bool-cases (is_space c)) [
  | inl e ↦ rw e (trim_left-trim_left s)
  | inr e ↦ rw (e, e)
]

trim_left-append :
    (s : Text) (c : ℕ) → is_space c ≡ false → trim_left (s ++ c ∷ []) ≡ trim_left s ++ c ∷ []
unfolding trim_left
trim_left-append [] c h = rw h
trim_left-append (d ∷ s) c h = elim (Bool-cases (is_space d)) [
  | inl e ↦ rw e (trim_left-append s c h)
  | inr e ↦ rw e
]

abbrev trim_right : Text → Text
trim_right s = reverse (trim_left (reverse s))

trim_right-cons : (c : ℕ) (s : Text) → is_space c ≡ false → trim_right (c ∷ s) ≡ c ∷ trim_right s
trim_right-cons c s h =
    rw
      (
        reverse-cons c s,
        trim_left-append (reverse s) c h,
        reverse-append (trim_left (reverse s)) (c ∷ []),
      )
      refl

trim_right-trim_right : (s : Text) → trim_right (trim_right s) ≡ trim_right s
trim_right-trim_right s =
    rw (reverse-reverse (trim_left (reverse s)), trim_left-trim_left (reverse s))

-- Text that does not begin with a space.
abbrev StartsClean : Text → Type 0
StartsClean [] = Unit
StartsClean (c ∷ s) = is_space c ≡ false

trim_left-StartsClean : (s : Text) → StartsClean (trim_left s)
unfolding trim_left
trim_left-StartsClean [] = tt
trim_left-StartsClean (c ∷ s) = elim (Bool-cases (is_space c)) [
  | inl e ↦ rw e (trim_left-StartsClean s)
  | inr e ↦ rw e e
]

trim_left-trim_right : (s : Text) → StartsClean s → trim_left (trim_right s) ≡ trim_right s
unfolding trim_left
trim_left-trim_right [] h = refl
trim_left-trim_right (c ∷ s) h = rw (trim_right-cons c s h, h)

pub trim_space_idem : (s : Text) → trim_space (trim_space s) ≡ trim_space s
unfolding trim_space
trim_space_idem s =
    rw (trim_left-trim_right (trim_left s) (trim_left-StartsClean s))
      (trim_right-trim_right (trim_left s))
