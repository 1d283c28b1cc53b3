-- ===== src/StoredRules/Generations.antt =====
-- What a change of a stored rule does (PatchRule), and that evaluations of the old generation open no
-- event after it.
use ithiltir.Shared.{
  ℕ, ◌≤◌, ◌^◌, zero, suc, ◌≡◌, refl, ◌⊎◌, inl, inr, ◌≢◌, Bool, true, false, Option, none, some,
  arith,
}
use ithiltir.Shared.Tests.{Eq, ◌==◌, bool_eqb, same_refl}
use ithiltir.Shared.Int.{ℤ, pos, negsuc, int_eq, leb_ℤ}
use ithiltir.Shared.Text.{text_eq}
use ithiltir.Shared.Float.{Float}
use ithiltir.Shared.Time.{Time}
use ithiltir.AlertSpec.Rules.{AlertRule}
use ithiltir.StoredRules.Fields.{
  FloatDistance, AlertRulePatch, next_generation, as_patched, or_old, differs,
}
use ithiltir.StoredRules.Patch.{same_float, needs_generation}

pub next_generation_moves : (g : ℤ) → (next_generation g == g) ≡ false
unfolding next_generation
next_generation_moves (pos n) = ground arith
next_generation_moves (negsuc zero) = refl
next_generation_moves (negsuc (suc n)) = ground arith

-- The generations after which none is left: the last of int64, and negative ones, which the table has
-- not.
abbrev pub IsLast : ℤ → Type 0
IsLast g = (leb_ℤ g (negsuc 0) ≡ true) ⊎ ((n : ℕ) × (g ≡ pos n) × (2 ^ 63 ≤ suc n))

pub not_positive-IsLast : (g : ℤ) → leb_ℤ (next_generation g) (pos 0) ≡ true → IsLast g
unfolding next_generation
not_positive-IsLast (pos n) h = inr (n, refl, ground arith)
not_positive-IsLast (negsuc n) h = inl (ground arith)

pub next_generation_new : (g : ℤ) → next_generation g ≢ g
next_generation_new g e =
    let h : (next_generation g == g) ≡ true = rw e (same_refl g) in
    absurd (cc (h, next_generation_moves g))

or_old_same :
    {A : Type 0} (e : Eq A) (new : Option A) (old : A)
    → differs (λ (a b : A). e.same a b) new old ≡ false
    → or_old new old ≡ old
or_old_same e none old h = refl
or_old_same e (some a) old h = (e.same_iff a old).0 (ground arith)

or_old_same_bool :
    (new : Option Bool) (old : Bool) → differs bool_eqb new old ≡ false → or_old new old ≡ old
or_old_same_bool none old h = refl
or_old_same_bool (some true) true h = refl
or_old_same_bool (some false) false h = refl
or_old_same_bool (some true) false h = absurd (cc)
or_old_same_bool (some false) true h = absurd (cc)

module _ {F : Type 0} ⦃fl : Float F⦄ ⦃fd : FloatDistance F⦄ where
  -- Two thresholds that are the same, or nearer to each other than a billionth.
  abbrev pub Near : F → F → Type 0
  Near old new = (new ≡ old) ⊎ (same_float new old ≡ true)

  -- What a rule tells the service is the same.
  pub record SameMeaning (r t : AlertRule F) : Type 0 where
    pub same_enabled : t.enabled ≡ r.enabled
    pub same_metric : t.metric ≡ r.metric
    pub same_operator : t.operator ≡ r.operator
    pub same_duration : t.duration_sec ≡ r.duration_sec
    pub same_cooldown : t.cooldown_min ≡ r.cooldown_min
    pub same_mode : t.threshold_mode ≡ r.threshold_mode
    pub near_threshold : Near r.threshold t.threshold
    pub near_offset : Near r.threshold_offset t.threshold_offset

  or_old-Near :
      (new : Option F) (old : F) → differs same_float new old ≡ false → Near old (or_old new old)
  or_old-Near none old h = inl refl
  or_old-Near (some a) old h = inr (ground arith)

  pub unchanged-SameMeaning :
      (r : AlertRule F) (u : AlertRulePatch F) (now : Time)
      → needs_generation r u ≡ false
      → SameMeaning r (as_patched u none now r)
  unfolding needs_generation
  unchanged-SameMeaning r u now h = record {
    same_enabled = or_old_same_bool u.enabled r.enabled (ground arith);
    same_metric = or_old_same text_eq u.metric r.metric (ground arith);
    same_operator = or_old_same text_eq u.operator r.operator (ground arith);
    same_duration = or_old_same int_eq u.duration_sec r.duration_sec (ground arith);
    same_cooldown = or_old_same int_eq u.cooldown_min r.cooldown_min (ground arith);
    same_mode = or_old_same text_eq u.threshold_mode r.threshold_mode (ground arith);
    near_threshold = or_old-Near u.threshold r.threshold (ground arith);
    near_offset = or_old-Near u.threshold_offset r.threshold_offset (ground arith);
  }
