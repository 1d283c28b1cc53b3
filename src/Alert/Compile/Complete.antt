-- ===== src/Alert/Compile/Complete.antt =====
-- The compiler leaves out no rule that is in force.
use mathlib.Core.Option
use mathlib.Core.Option.{none-ne-some, some_inj}
use ithiltir.Shared.{
  ◌≡◌, refl, inl, inr, true, false, not, ◌||◌, Option, none, some, List, [], ◌∷◌, ◌++◌,
}
use ithiltir.Shared.Tests.{Bool-cases}
use ithiltir.Shared.Lists.{Any}
use ithiltir.Shared.Float.{Float}
use ithiltir.Shared.Time.{Time}
use ithiltir.AlertSpec.Rules.{AlertRule, ok, builtin_rules, normalize_rule_model}
use ithiltir.AlertSpec.Laws.{normalize_rule_model_iff}
use ithiltir.Alert.Compile.{
  CompiledRule, CompiledRules, add, rule_less, insert_sorted, sort_rules, Outcome, compiled,
  left_out, encode_rule_snapshot, compiled_of, snapshot_of, compile_rule, normalized_outcome,
  encoded_outcome, add_outcome, compile_all, no_rules, compile_builtins, add_all, add_item,
  add_items, compile_rules,
}

-- An element of a list.
abbrev pub Has : {A : Type 0} → List A → A → Type 0
Has xs a = Any (λ b. b ≡ a) xs

Any-append_left : {A : Type 0} (P : A → Type 0) (xs ys : List A) → Any P xs → Any P (xs ++ ys)
Any-append_left P [] ys h = absurd h
Any-append_left P (x ∷ xs) ys (inl p) = inl p
Any-append_left P (x ∷ xs) ys (inr p) = inr (Any-append_left P xs ys p)

Any-append_last : {A : Type 0} (P : A → Type 0) (xs : List A) (a : A) → P a → Any P (xs ++ a ∷ [])
Any-append_last P [] a p = inl p
Any-append_last P (x ∷ xs) a p = inr (Any-append_last P xs a p)

module _ {F : Type 0} (P : CompiledRule F → Type 0) where
  insert_sorted-head :
      (a : CompiledRule F) (rules : List (CompiledRule F)) → P a → Any P (insert_sorted a rules)
  unfolding insert_sorted
  insert_sorted-head a [] p = inl p
  insert_sorted-head a (b ∷ rules) p = elim (Bool-cases (rule_less b a)) [
    | inl e ↦ rw e (inr (insert_sorted-head a rules p))
    | inr e ↦ rw e (inl p)
  ]

  insert_sorted-Any :
      (a : CompiledRule F) (rules : List (CompiledRule F))
      → Any P rules
      → Any P (insert_sorted a rules)
  unfolding insert_sorted
  insert_sorted-Any a [] h = absurd h
  insert_sorted-Any a (b ∷ rules) (inl p) = elim (Bool-cases (rule_less b a)) [
    | inl e ↦ rw e (inl p)
    | inr e ↦ rw e (inr (inl p))
  ]
  insert_sorted-Any a (b ∷ rules) (inr p) = elim (Bool-cases (rule_less b a)) [
    | inl e ↦ rw e (inr (insert_sorted-Any a rules p))
    | inr e ↦ rw e (inr (inr p))
  ]

  sort_rules-Any : (rules : List (CompiledRule F)) → Any P rules → Any P (sort_rules rules)
  unfolding sort_rules
  sort_rules-Any [] h = absurd h
  sort_rules-Any (a ∷ rules) (inl p) = insert_sorted-head a (sort_rules rules) p
  sort_rules-Any (a ∷ rules) (inr p) =
      insert_sorted-Any a (sort_rules rules) (sort_rules-Any rules p)

module _ {F : Type 0} ⦃fl : Float F⦄ where
  add_outcome-Any :
      (P : CompiledRule F → Type 0) (out : CompiledRules F) (o : Outcome F)
      → Any P out.rules
      → Any P (add_outcome out o).rules
  unfolding add_outcome add
  add_outcome-Any P out (compiled r) h = Any-append_left P out.rules _ h
  add_outcome-Any P out (left_out bad) h = h

  add_item-Any :
      (P : CompiledRule F → Type 0) (out : CompiledRules F) (item : AlertRule F)
      → Any P out.rules
      → Any P (add_item out item).rules
  unfolding add_item
  add_item-Any P out item h = elim (Bool-cases (item.is_deleted || not item.enabled)) [
    | inl e ↦ rw e h
    | inr e ↦ rw e (add_outcome-Any P out (compile_rule item) h)
  ]

  add_items-Any :
      (P : CompiledRule F → Type 0) (out : CompiledRules F) (items : List (AlertRule F))
      → Any P out.rules
      → Any P (add_items out items).rules
  unfolding add_items
  add_items-Any P out [] h = h
  add_items-Any P out (item ∷ items) h =
      add_items-Any P (add_item out item) items (add_item-Any P out item h)

  compile_rule-valid :
      (item valid : AlertRule F)
      → normalize_rule_model item ≡ ok valid
      → compile_rule item ≡ compiled (compiled_of valid (snapshot_of valid))
  unfolding compile_rule normalized_outcome encoded_outcome encode_rule_snapshot
  compile_rule-valid item valid n =
      let (e, v) = (normalize_rule_model_iff item valid).0 n in
      rw (n, e, v.threshold_finite, v.offset_finite)

  add_item-Has :
      (out : CompiledRules F) (item valid : AlertRule F)
      → item.enabled ≡ true
      → item.is_deleted ≡ false
      → normalize_rule_model item ≡ ok valid
      → Has (add_item out item).rules (compiled_of valid (snapshot_of valid))
  unfolding add_item add_outcome add
  add_item-Has out item valid e d n =
      rw (compile_rule-valid item valid n, e, d)
        (Any-append_last (λ (b : CompiledRule F). b ≡ compiled_of valid (snapshot_of valid))
          out.rules _ refl)

  add_items-Has :
      (out : CompiledRules F) (items : List (AlertRule F)) (item valid : AlertRule F)
      → Has items item
      → item.enabled ≡ true
      → item.is_deleted ≡ false
      → normalize_rule_model item ≡ ok valid
      → Has (add_items out items).rules (compiled_of valid (snapshot_of valid))
  unfolding add_items
  add_items-Has out [] item valid h e d n = absurd h
  add_items-Has out (i ∷ items) item valid (inl q) e d n =
      add_items-Any (λ (b : CompiledRule F). b ≡ compiled_of valid (snapshot_of valid))
        (add_item out i) items (rw q (add_item-Has out item valid e d n))
  add_items-Has out (i ∷ items) item valid (inr h) e d n =
      add_items-Has (add_item out i) items item valid h e d n

  map_rules-Has :
      (items : List (AlertRule F)) (at : Time) (o : Option (List (CompiledRule F)))
      (out : CompiledRules F) (item valid : AlertRule F)
      → Option.map (compile_all items at) o ≡ some out
      → Has items item
      → item.enabled ≡ true
      → item.is_deleted ≡ false
      → normalize_rule_model item ≡ ok valid
      → Has out.rules (compiled_of valid (snapshot_of valid))
  unfolding compile_all
  map_rules-Has items at none out item valid q h e d n = absurd (none-ne-some out q)
  map_rules-Has items at (some builtins) out item valid q h e d n =
      let same = some_inj.0 q in
      rw (← same) (
        sort_rules-Any (λ (b : CompiledRule F). b ≡ compiled_of valid (snapshot_of valid)) _
          (add_items-Has (add_all (no_rules at) builtins) items item valid h e d n))

  -- Every stored rule that is enabled, not deleted and accepted by normalization is among the compiled
  -- rules, in its normalized form.
  pub compile_rules-Has :
      (items : List (AlertRule F)) (at : Time) (out : CompiledRules F) (item valid : AlertRule F)
      → compile_rules items at ≡ some out
      → Has items item
      → item.enabled ≡ true
      → item.is_deleted ≡ false
      → normalize_rule_model item ≡ ok valid
      → Has out.rules (compiled_of valid (snapshot_of valid))
  unfolding compile_rules
  compile_rules-Has items at out item valid q h e d n =
      map_rules-Has items at (compile_builtins builtin_rules) out item valid q h e d n
