-- ===== src/NodeTags/Limits.antt =====
-- What the two parsers accept of the tags.
use ithiltir.Shared.{
  ℕ, zero, suc, ◌+◌, ◌≤◌, ◌≡◌, refl, sym, ap, ◌∙◌, ◌≢◌, ◌↔◌, ◌⊎◌, inl, inr, true, false, ◌&&◌, none,
  List, [], ◌∷◌, arith,
}
use ithiltir.Shared.Tests.{ltb, Bool-cases, nat_eq}
use ithiltir.Shared.Lists.{length, All}
use ithiltir.Shared.Text.{Text, text_eq, contains_control}
use ithiltir.NodeTags.{
  Raw, absent, malformed, array, Problem, Parsed, ok, failed, clean, decode, tag_fits, all_fit,
  check_limits, parse, keep_tags, warn, keep_decoded, parse_stored,
}
use ithiltir.NodeTags.Cleaning.{CleanFrom, clean-CleanFrom, CleanFrom-same, CleanFrom-weaken}

-- With room for all, the loop keeps tags that fit.
keep_tags-all :
    (n : ℕ) (tags : List Text)
    → all_fit tags ≡ true
    → n + length tags ≤ 32
    → keep_tags n tags ≡ (tags, 0)
unfolding keep_tags all_fit
keep_tags-all n [] f b = refl
keep_tags-all n (tag ∷ tags) f b =
    let fits : tag_fits tag ≡ true = ground arith in
    let room : ltb n 32 ≡ true = ground arith in
    rw (fits, room, keep_tags-all (suc n) tags (ground arith) (omega arith)) refl

-- A loop that discards nothing has met tags that fit only, and room for all.
keep_tags-lost :
    (n : ℕ) (tags : List Text)
    → n ≤ 32
    → (keep_tags n tags).1 ≡ 0
    → (all_fit tags ≡ true) × (n + length tags ≤ 32)
unfolding keep_tags all_fit
keep_tags-lost n [] b h = (refl, omega arith)
keep_tags-lost n (tag ∷ tags) b h = elim (Bool-cases (tag_fits tag && ltb n 32)) [
  | inl e ↦
      let (f, l) = keep_tags-lost (suc n) tags (ground arith) (rw e at h) in
      (ground arith, omega arith)
  | inr e ↦ absurd (ground (arith, rw e at h))
]

-- What the loop keeps fits.
keep_tags-fits :
    (n : ℕ) (tags : List Text)
    → n ≤ 32
    → (all_fit ((keep_tags n tags).0) ≡ true) × (n + length ((keep_tags n tags).0) ≤ 32)
unfolding keep_tags all_fit
keep_tags-fits n [] b = (refl, omega arith)
keep_tags-fits n (tag ∷ tags) b = elim (Bool-cases (tag_fits tag && ltb n 32)) [
  | inl e ↦
      let (f, l) = keep_tags-fits (suc n) tags (ground arith) in rw e (ground arith, omega arith)
  | inr e ↦ rw e (keep_tags-fits n tags b)
]

keep_tags-CleanFrom :
    (n : ℕ) (seen tags : List Text) → CleanFrom seen tags → CleanFrom seen ((keep_tags n tags).0)
unfolding keep_tags
keep_tags-CleanFrom n seen [] h = tt
keep_tags-CleanFrom n seen (tag ∷ tags) (t, m, c, h) =
    elim (Bool-cases (tag_fits tag && ltb n 32)) [
      | inl e ↦ rw e (t, m, c, keep_tags-CleanFrom (suc n) (tag ∷ seen) tags h)
      | inr e ↦ rw e (
          keep_tags-CleanFrom n seen tags
            (CleanFrom-weaken (tag ∷ seen) seen tags (λ u k. ground arith) h))
    ]

abbrev pub IsShort : Text → Type 0
IsShort tag = (length tag ≤ 64) × (contains_control tag ≡ false)

all_fit-All : (tags : List Text) → (all_fit tags ≡ true) ↔ All IsShort tags
unfolding all_fit tag_fits
all_fit-All [] = ((λ h. tt), λ h. refl)
all_fit-All (tag ∷ tags) =
    let (f, g) = all_fit-All tags in
    ((λ h. (ground arith, f (ground arith))), λ (a, h). ground (arith, g h))

-- The tags that the code means to accept.
pub record IsTagList (tags : List Text) : Type 0 where
  pub few : length tags ≤ 32
  pub short : All IsShort tags
  pub clean_tags : CleanFrom [] tags

check_limits-ok :
    (tags : List Text) → length tags ≤ 32 → all_fit tags ≡ true → check_limits (ok tags) ≡ ok tags
unfolding check_limits
check_limits-ok tags b f = let few : ltb 32 (length tags) ≡ false = ground arith in rw (few, f) refl

list_in : Parsed → List Text
list_in (ok tags) = tags
list_in (failed problem) = []

ok-injective : {a b : List Text} → ok a ≡ ok b → a ≡ b
unfolding list_in
ok-injective e = ap list_in e

ok-limits :
    (tags kept : List Text)
    → check_limits (ok tags) ≡ ok kept
    → (tags ≡ kept) × (length tags ≤ 32) × (all_fit tags ≡ true)
unfolding check_limits
ok-limits tags kept h = elim (Bool-cases (ltb 32 (length tags))) [
  | inl e ↦ absurd (failed-ne-ok (rw e at h))
  | inr e ↦ elim (Bool-cases (all_fit tags)) [
    | inl f ↦ (ok-injective (rw (e, f) at h), ground arith, f)
    | inr f ↦ absurd (failed-ne-ok (rw (e, f) at h))
  ]
]
  where
    failed-ne-ok : {problem : Problem} {xs : List Text} → failed problem ≢ ok xs
    failed-ne-ok e = cc

decode-CleanFrom : (raw : Raw) (tags : List Text) → decode raw ≡ ok tags → CleanFrom [] tags
unfolding decode
decode-CleanFrom absent tags h = let q : [] ≡ tags = ok-injective h in rw (← q) tt
decode-CleanFrom malformed tags h = absurd cc
decode-CleanFrom (array items) tags h =
    let q : clean items ≡ tags = ok-injective h in rw (← q) (clean-CleanFrom items)

-- The clean form of a list that is clean.
array-same : (tags : List Text) → CleanFrom [] tags → decode (array tags) ≡ ok tags
unfolding decode clean
array-same tags h = ap ok (CleanFrom-same [] tags h)

Parsed-cases :
    (p : Parsed)
    → ((problem : Problem) × (p ≡ failed problem)) ⊎ ((tags : List Text) × (p ≡ ok tags))
Parsed-cases (failed problem) = inl (problem, refl)
Parsed-cases (ok tags) = inr (tags, refl)

parse_ok :
    (raw : Raw) (kept : List Text) → parse raw ≡ ok kept → (decode raw ≡ ok kept) × IsTagList kept
unfolding parse check_limits
parse_ok raw kept h = elim (Parsed-cases (decode raw)) [
  | inl (problem, e) ↦ absurd (refused problem (rw e at h))
  | inr (tags, e) ↦
      let (q, b, f) = ok-limits tags kept (rw e at h) in
      (
        e ∙ ap ok q,
        record {
          few = rw q at b;
          short = (all_fit-All kept).0 (rw q at f);
          clean_tags = decode-CleanFrom raw kept (e ∙ ap ok q);
        },
      )
]
  where
    refused : (problem : Problem) → check_limits (failed problem) ≢ ok kept
    refused problem e = cc

-- The tags that are accepted are at most 32, each of at most 64 characters and without control
-- characters, trimmed, not empty and different from each other, and accepted again as they are.
pub parse-IsTagList :
    (raw : Raw) (tags : List Text)
    → parse raw ≡ ok tags
    → IsTagList tags × (parse (array tags) ≡ ok tags)
unfolding parse
parse-IsTagList raw tags h =
    let (d, v) = parse_ok raw tags h in
    (v, rw (array-same tags v.clean_tags) (check_limits-ok tags v.few ((all_fit-All _).1 v.short)))

warn-none :
    (r : List Text × ℕ) (kept : List Text) → warn r ≡ (kept, none) → (r.0 ≡ kept) × (r.1 ≡ 0)
unfolding warn
warn-none (xs, zero) kept h = (ap (λ p. p.0) h, refl)
warn-none (xs, suc lost) kept h = absurd (cc (ap (λ p. p.1) h))

stored_ok :
    (tags : List Text)
    → length tags ≤ 32
    → all_fit tags ≡ true
    → keep_decoded (ok tags) ≡ (tags, none)
unfolding keep_decoded warn
stored_ok tags b f = rw (keep_tags-all 0 tags f (omega (arith, b))) refl

stored_none :
    (p : Parsed) (kept : List Text) → keep_decoded p ≡ (kept, none) → check_limits p ≡ ok kept
unfolding keep_decoded
stored_none (failed problem) kept h = absurd (cc (ap (λ r. r.1) h))
stored_none (ok tags) kept h =
    let (q, z) = warn-none (keep_tags 0 tags) kept h in
    let (f, b) = keep_tags-lost 0 tags (omega arith) z in
    check_limits-ok tags (omega (arith, b)) f
    ∙ ap ok (sym (ap (λ r. r.0) (keep_tags-all 0 tags f b)) ∙ q)

-- ParseStored gives tags without a warning exactly when Parse accepts the same tags.
pub parse-parse_stored :
    (raw : Raw) (tags : List Text) → (parse raw ≡ ok tags) ↔ (parse_stored raw ≡ (tags, none))
unfolding parse parse_stored
parse-parse_stored raw tags = (
  (λ h.
      let (d, v) = parse_ok raw tags h in rw d (stored_ok tags v.few ((all_fit-All _).1 v.short))),
  λ h. stored_none (decode raw) tags h,
)

warn-tags : (r : List Text × ℕ) → (warn r).0 ≡ r.0
unfolding warn
warn-tags (xs, zero) = refl
warn-tags (xs, suc lost) = refl

kept-IsTagList : (raw : Raw) (p : Parsed) → decode raw ≡ p → IsTagList ((keep_decoded p).0)
unfolding keep_decoded
kept-IsTagList raw (failed problem) e = record { few = omega arith; short = tt; clean_tags = tt }
kept-IsTagList raw (ok tags) e =
    let (f, b) = keep_tags-fits 0 tags (omega arith) in
    rw (warn-tags (keep_tags 0 tags)) (record {
      few = omega (arith, b);
      short = (all_fit-All _).0 f;
      clean_tags = keep_tags-CleanFrom 0 [] tags (decode-CleanFrom raw tags e);
    })

-- Whatever is stored, the tags that ParseStored keeps are ones that Parse accepts, and reads back
-- unchanged.
pub parse_stored-IsTagList :
    (raw : Raw)
    → IsTagList ((parse_stored raw).0)
      × (parse (array ((parse_stored raw).0)) ≡ ok ((parse_stored raw).0))
unfolding parse parse_stored
parse_stored-IsTagList raw =
    let v = kept-IsTagList raw (decode raw) refl in
    (v, rw (array-same _ v.clean_tags) (check_limits-ok _ v.few ((all_fit-All _).1 v.short)))
