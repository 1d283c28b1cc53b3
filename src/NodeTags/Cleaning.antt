-- ===== src/NodeTags/Cleaning.antt =====
-- What cleaning a list of tags keeps.
use ithiltir.Shared.{
  ◌≡◌, refl, sym, ap, ◌∙◌, ◌≢◌, ◌↔◌, inl, inr, true, false, not, ◌&&◌, ◌||◌, List, [], ◌∷◌, arith,
}
use ithiltir.Shared.Tests.{◌==◌, Bool-cases, list_eqb_iff, same_refl, nat_eq}
use ithiltir.Shared.Lists.{contains, Any}
use ithiltir.Shared.Text.{Text, text_eq, trim_space}
use ithiltir.Shared.Trim.{trim_space_idem}
use ithiltir.NodeTags.{clean, clean_from}

-- Tags that are trimmed and not empty, none of which was seen before.
abbrev pub CleanFrom : List Text → List Text → Type 0
CleanFrom seen [] = Unit
CleanFrom seen (tag ∷ tags) =
    (trim_space tag ≡ tag) × (tag ≢ []) × (contains tag seen ≡ false) × CleanFrom (tag ∷ seen) tags

clean_from-CleanFrom : (seen items : List Text) → CleanFrom seen (clean_from seen items)
unfolding clean_from
clean_from-CleanFrom seen [] = tt
clean_from-CleanFrom seen (item ∷ items) =
    elim (Bool-cases (not (trim_space item == []) && not (contains (trim_space item) seen))) [
      | inl e ↦ rw e (
        trim_space_idem item,
        ground (arith, list_eqb_iff (trim_space item) []),
        ground arith,
        clean_from-CleanFrom (trim_space item ∷ seen) items,
      )
      | inr e ↦ rw e (clean_from-CleanFrom seen items)
    ]

pub CleanFrom-same : (seen tags : List Text) → CleanFrom seen tags → clean_from seen tags ≡ tags
unfolding clean_from
CleanFrom-same seen [] h = refl
CleanFrom-same seen (tag ∷ tags) (t, n, c, h) =
    let given : (tag == []) ≡ false = ground (arith, list_eqb_iff tag []) in
    rw (t, given, c) (ap (λ rest. tag ∷ rest) (CleanFrom-same (tag ∷ seen) tags h))

-- Cleaning keeps tags that are trimmed, not empty and different from each other.
pub clean-CleanFrom : (items : List Text) → CleanFrom [] (clean items)
unfolding clean
clean-CleanFrom items = clean_from-CleanFrom [] items

-- Fewer tags seen.
pub CleanFrom-weaken :
    (seen less tags : List Text)
    → ((tag : Text) → contains tag less ≡ true → contains tag seen ≡ true)
    → CleanFrom seen tags
    → CleanFrom less tags
CleanFrom-weaken seen less [] w h = tt
CleanFrom-weaken seen less (tag ∷ tags) w (t, n, c, h) = (
  t,
  n,
  ground (arith, w tag),
  CleanFrom-weaken (tag ∷ seen) (tag ∷ less) tags (λ u. ground (arith, w u)) h,
)

-- The tag is the trimmed form of one of the items.
abbrev pub Given : List Text → Text → Type 0
Given items tag = Any (λ item. trim_space item ≡ tag) items

clean_from-Given :
    (seen items : List Text) (tag : Text)
    → contains tag (clean_from seen items) ≡ true
    → (tag ≢ []) × Given items tag
unfolding clean_from
clean_from-Given seen [] tag h = absurd cc
clean_from-Given seen (item ∷ items) tag h =
    elim (Bool-cases (not (trim_space item == []) && not (contains (trim_space item) seen))) [
      | inl e ↦
          let fresh : trim_space item ≢ [] = ground (arith, list_eqb_iff (trim_space item) []) in
          let met : (tag == trim_space item
                || contains tag (clean_from (trim_space item ∷ seen) items))
              ≡ true =
            rw e at h in
          elim (Bool-cases (tag == trim_space item)) [
            | inl q ↦
                let same : tag ≡ trim_space item = (list_eqb_iff tag (trim_space item)).0 q in
                (λ z. fresh (sym same ∙ z), inl (sym same))
            | inr q ↦
                let (n, g) = clean_from-Given (trim_space item ∷ seen) items tag (ground arith) in
                (n, inr g)
          ]
      | inr e ↦ let (n, g) = clean_from-Given seen items tag (rw e at h) in (n, inr g)
    ]

clean_from-contains :
    (seen items : List Text) (tag : Text)
    → contains tag seen ≡ false
    → tag ≢ []
    → Given items tag
    → contains tag (clean_from seen items) ≡ true
unfolding clean_from
clean_from-contains seen [] tag c n g = absurd g
clean_from-contains seen (item ∷ items) tag c n (inl q) =
    let given : (tag == []) ≡ false = ground (arith, list_eqb_iff tag []) in
    rw (q, given, c, same_refl tag) refl
clean_from-contains seen (item ∷ items) tag c n (inr g) =
    elim (Bool-cases (not (trim_space item == []) && not (contains (trim_space item) seen))) [
      | inl e ↦ rw e (elim (Bool-cases (tag == trim_space item)) [
        | inl q ↦ rw q refl
        | inr q ↦ rw q (clean_from-contains (trim_space item ∷ seen) items tag (rw q c) n g)
      ])
      | inr e ↦ rw e (clean_from-contains seen items tag c n g)
    ]

-- Cleaning keeps exactly the trimmed forms of the items that are not empty.
pub clean-Given :
    (items : List Text) (tag : Text)
    → (contains tag (clean items) ≡ true) ↔ ((tag ≢ []) × Given items tag)
unfolding clean
clean-Given items tag =
    (clean_from-Given [] items tag, λ (n, g). clean_from-contains [] items tag refl n g)
