-- ===== src/Alert/Compile/Sources.antt =====
-- Where the compiled rules come from.
use mathlib.Core.List.{Mem, mem-cons_self, mem-cons_of_mem}
use mathlib.Core.Option
use mathlib.Core.Option.{none-ne-some, some_inj}
use ithiltir.Shared.{
  ◌≡◌, refl, sym, ap, ◌⊎◌, inl, inr, ◌≢◌, Bool, true, false, not, ◌&&◌, ◌||◌, Option, none, some,
  List, [], ◌∷◌, ◌++◌, arith,
}
use ithiltir.Shared.Tests.{if◌then◌else◌, Bool-cases, nat_eq}
use ithiltir.Shared.Lists.{All, All-append}
use ithiltir.Shared.Text.{text_eq}
use ithiltir.Shared.Int.{ℤ, int_eq}
use ithiltir.Shared.Float.{Float, finite}
use ithiltir.Shared.Time.{Time}
use ithiltir.Shared.Decimal.{join_colon_injective}
use ithiltir.AlertSpec.Rules.{
  AlertRule, BuiltinRule, Checked, ok, invalid, builtin_rules, normalize_rule_model,
}
use ithiltir.Alert.Compile.{
  RuleSnapshot, InvalidRule, CompiledRule, CompiledRules, rule_state_key, unix_epoch, rule_mounted,
  add, add_mounted, for_mounts, rule_less, insert_sorted, sort_rules, Outcome, compiled, left_out,
  encode_rule_snapshot, compiled_of, snapshot_of, compile_rule, normalized_outcome, encoded_outcome,
  add_outcome, cons_some, compile_all, no_rules, builtin_of, builtin_rule, compile_builtins,
  add_all, add_item, add_items, compile_rules,
}

-- Two alerts share a key only when they are of the same rule and the same generation of it.
pub rule_state_key_injective :
    (a b c d : ℤ) → rule_state_key a b ≡ rule_state_key c d → (a ≡ c) × (b ≡ d)
unfolding rule_state_key
rule_state_key_injective a b c d h = join_colon_injective a b c d h

module _ {F : Type 0} where
  module _ (P : CompiledRule F → Type 0) where
    insert_sorted-All :
        (a : CompiledRule F) (rules : List (CompiledRule F))
        → P a
        → All P rules
        → All P (insert_sorted a rules)
    unfolding insert_sorted
    insert_sorted-All a [] p h = (p, tt)
    insert_sorted-All a (b ∷ rules) p h = elim (Bool-cases (rule_less b a)) [
      | inl e ↦ rw e (h.0, insert_sorted-All a rules p h.1)
      | inr e ↦ rw e (p, h)
    ]

    sort_rules-All : (rules : List (CompiledRule F)) → All P rules → All P (sort_rules rules)
    unfolding sort_rules
    sort_rules-All [] h = tt
    sort_rules-All (a ∷ rules) h =
        insert_sorted-All a (sort_rules rules) h.0 (sort_rules-All rules h.1)

    mounted-All :
        (mounts : List (ℤ × Bool)) (rule : CompiledRule F) (rules : List (CompiledRule F))
        → P rule
        → All (λ (r : CompiledRule F). P r × (rule_mounted r mounts ≡ true)) rules
        → All
            (λ (r : CompiledRule F). P r × (rule_mounted r mounts ≡ true))
            (if rule_mounted rule mounts then rules ++ rule ∷ [] else rules)
    mounted-All mounts rule rules p h = go (rule_mounted rule mounts) refl
      where
        go :
            (b : Bool)
            → rule_mounted rule mounts ≡ b
            → All
                (λ (r : CompiledRule F). P r × (rule_mounted r mounts ≡ true))
                (if b then rules ++ rule ∷ [] else rules)
        go true e =
            All-append (λ (r : CompiledRule F). P r × (rule_mounted r mounts ≡ true)) rules _ h
              ((p, e), tt)
        go false e = h

    add_mounted-All :
        (mounts : List (ℤ × Bool)) (rules : List (CompiledRule F)) (out : CompiledRules F)
        → All (λ (r : CompiledRule F). P r × (rule_mounted r mounts ≡ true)) out.rules
        → All P rules
        → All
            (λ (r : CompiledRule F). P r × (rule_mounted r mounts ≡ true))
            (add_mounted mounts out rules).rules
    unfolding add_mounted
    add_mounted-All mounts [] out h k = h
    add_mounted-All mounts (rule ∷ rules) out h k =
        add_mounted-All mounts rules _ (mounted-All mounts rule out.rules k.0 h) k.1

  -- What is mounted on a server is among the rules, and enabled there, or built in and not mentioned.
  pub for_mounts-All :
      (P : CompiledRule F → Type 0) (known : CompiledRules F) (mounts : List (ℤ × Bool))
      → All P known.rules
      → All
          (λ (r : CompiledRule F). P r × (rule_mounted r mounts ≡ true))
          (for_mounts known mounts).rules
  unfolding for_mounts
  for_mounts-All P known mounts h = add_mounted-All P mounts known.rules _ tt h

module _ {F : Type 0} ⦃fl : Float F⦄ where
  -- A stored rule that is in force compiles to the rule.
  pub record FromItem (items : List (AlertRule F)) (r : CompiledRule F) : Type 0 where
    pub item : AlertRule F
    pub stored : Mem item items
    pub enabled : item.enabled ≡ true
    pub kept : item.is_deleted ≡ false
    pub valid : AlertRule F
    pub normalized : normalize_rule_model item ≡ ok valid
    pub same_rule : r ≡ compiled_of valid (snapshot_of valid)

  abbrev pub HasSnapshot : CompiledRule F → Type 0
  HasSnapshot r = (s : RuleSnapshot F) × (r.snapshot_raw ≡ some s)

  abbrev pub Sourced : List (AlertRule F) → CompiledRule F → Type 0
  Sourced items r = HasSnapshot r × ((r.builtin ≡ true) ⊎ FromItem items r)

  encoded_outcome-valid :
      (item valid : AlertRule F) (r : CompiledRule F)
      → encoded_outcome item valid (encode_rule_snapshot (snapshot_of valid)) ≡ compiled r
      → r ≡ compiled_of valid (snapshot_of valid)
  unfolding encoded_outcome encode_rule_snapshot
  encoded_outcome-valid item valid r h =
      elim (Bool-cases (finite valid.threshold && finite valid.threshold_offset)) [
        | inl e ↦ sym (compiled_inj (rw e at h))
        | inr e ↦ absurd (left-ne-compiled (rw e at h))
      ]
    where
      rule_in : Outcome F → CompiledRule F → CompiledRule F
      rule_in (compiled a) d = a
      rule_in (left_out bad) d = d

      compiled_inj : {a b : CompiledRule F} → compiled a ≡ compiled b → a ≡ b
      compiled_inj {a} {b} e = ap (λ o. rule_in o a) e

      left-ne-compiled : {bad : InvalidRule} {b : CompiledRule F} → left_out bad ≢ compiled b
      left-ne-compiled e = cc

  normalized_outcome-valid :
      (item : AlertRule F) (o : Checked (AlertRule F)) (r : CompiledRule F)
      → normalized_outcome item o ≡ compiled r
      → (valid : AlertRule F) × (o ≡ ok valid) × (r ≡ compiled_of valid (snapshot_of valid))
  unfolding normalized_outcome
  normalized_outcome-valid item (ok valid) r h = (valid, refl, encoded_outcome-valid item valid r h)
  normalized_outcome-valid item (invalid e) r h = absurd cc

  outcome-Sourced :
      (items : List (AlertRule F)) (item : AlertRule F) (out : CompiledRules F) (o : Outcome F)
      → Mem item items
      → item.enabled ≡ true
      → item.is_deleted ≡ false
      → compile_rule item ≡ o
      → All (Sourced items) out.rules
      → All (Sourced items) (add_outcome out o).rules
  unfolding add_outcome add compile_rule
  outcome-Sourced items item out (left_out bad) m e d c h = h
  outcome-Sourced items item out (compiled r) m e d c h =
      let (valid, n, q) = normalized_outcome-valid item (normalize_rule_model item) r c in
      All-append (Sourced items) out.rules (r ∷ []) h (
        ((
          (snapshot_of valid, ap (λ (x : CompiledRule F). x.snapshot_raw) q),
          inr (record {
            item = item;
            stored = m;
            enabled = e;
            kept = d;
            valid = valid;
            normalized = n;
            same_rule = q;
          }),
        )),
        tt,
      )

  add_item-Sourced :
      (items : List (AlertRule F)) (item : AlertRule F) (out : CompiledRules F)
      → Mem item items
      → All (Sourced items) out.rules
      → All (Sourced items) (add_item out item).rules
  unfolding add_item
  add_item-Sourced items item out m h = elim (Bool-cases (item.is_deleted || not item.enabled)) [
    | inl e ↦ rw e h
    | inr e ↦
        rw e (
          outcome-Sourced items item out (compile_rule item) m (ground arith) (ground arith) refl h)
  ]

  -- The rules that are still to be compiled are among all of them.
  abbrev Among : List (AlertRule F) → List (AlertRule F) → Type 0
  Among items = All (λ (a : AlertRule F). Mem a items)

  Among-cons :
      (a : AlertRule F) (items rest : List (AlertRule F))
      → Among items rest
      → Among (a ∷ items) rest
  Among-cons a items [] h = tt
  Among-cons a items (b ∷ rest) h = (mem-cons_of_mem a h.0, Among-cons a items rest h.1)

  Among-same : (items : List (AlertRule F)) → Among items items
  Among-same [] = tt
  Among-same (a ∷ items) = (mem-cons_self, Among-cons a items items (Among-same items))

  add_items-Sourced :
      (items rest : List (AlertRule F)) (out : CompiledRules F)
      → Among items rest
      → All (Sourced items) out.rules
      → All (Sourced items) (add_items out rest).rules
  unfolding add_items
  add_items-Sourced items [] out m h = h
  add_items-Sourced items (item ∷ rest) out m h =
      add_items-Sourced items rest (add_item out item) m.1 (add_item-Sourced items item out m.0 h)

  add_all-All :
      (P : CompiledRule F → Type 0) (out : CompiledRules F) (rules : List (CompiledRule F))
      → All P out.rules
      → All P rules
      → All P (add_all out rules).rules
  unfolding add_all add
  add_all-All P out [] h k = h
  add_all-All P out (rule ∷ rules) h k =
      add_all-All P (add out rule) rules (All-append P out.rules _ h (k.0, tt)) k.1

  encoded_builtin-Sourced :
      (items : List (AlertRule F)) (spec : BuiltinRule F) (at : Time) (o : Option (RuleSnapshot F))
      (r : CompiledRule F)
      → Option.map (builtin_of spec at) o ≡ some r
      → Sourced items r
  encoded_builtin-Sourced items spec at none r h = absurd (none-ne-some r h)
  encoded_builtin-Sourced items spec at (some s) r h =
      let q : builtin_of spec at s ≡ r = some_inj.0 h in
      (
        (s, sym (ap (λ (x : CompiledRule F). x.snapshot_raw) q)),
        inl (sym (ap (λ (x : CompiledRule F). x.builtin) q)),
      )

  cons_some-Sourced :
      (items : List (AlertRule F)) (o : Option (CompiledRule F))
      (rest : Option (List (CompiledRule F))) (rules : List (CompiledRule F))
      → cons_some o rest ≡ some rules
      → ((r : CompiledRule F) → o ≡ some r → Sourced items r)
      → ((rs : List (CompiledRule F)) → rest ≡ some rs → All (Sourced items) rs)
      → All (Sourced items) rules
  unfolding cons_some
  cons_some-Sourced items none rest rules h f g = absurd (none-ne-some rules h)
  cons_some-Sourced items (some r) none rules h f g = absurd (none-ne-some rules h)
  cons_some-Sourced items (some r) (some rs) rules h f g =
      let q : r ∷ rs ≡ rules = some_inj.0 h in rw (← q) (f r refl, g rs refl)

  compile_builtins-Sourced :
      (items : List (AlertRule F)) (specs : List (BuiltinRule F)) (rules : List (CompiledRule F))
      → compile_builtins specs ≡ some rules
      → All (Sourced items) rules
  unfolding compile_builtins builtin_rule
  compile_builtins-Sourced items [] rules h = let q : [] ≡ rules = some_inj.0 h in rw (← q) tt
  compile_builtins-Sourced items (spec ∷ specs) rules h =
      cons_some-Sourced items _ _ rules h
        (λ r e. encoded_builtin-Sourced items spec unix_epoch _ r e)
        (λ rs e. compile_builtins-Sourced items specs rs e)

  map_rules-Sourced :
      (items : List (AlertRule F)) (at : Time) (o : Option (List (CompiledRule F)))
      (out : CompiledRules F)
      → Option.map (compile_all items at) o ≡ some out
      → ((rs : List (CompiledRule F)) → o ≡ some rs → All (Sourced items) rs)
      → All (Sourced items) out.rules
  unfolding compile_all
  map_rules-Sourced items at none out h f = absurd (none-ne-some out h)
  map_rules-Sourced items at (some builtins) out h f =
      let q = some_inj.0 h in
      rw (← q) (
        sort_rules-All (Sourced items) _ (
          add_items-Sourced items items _ (Among-same items)
            (add_all-All (Sourced items) (no_rules at) builtins tt (f builtins refl))))

  -- Every compiled rule carries its snapshot, and is either built in or the normalized form of a
  -- stored rule that is enabled and not deleted.
  pub compile_rules-Sourced :
      (items : List (AlertRule F)) (at : Time) (out : CompiledRules F)
      → compile_rules items at ≡ some out
      → All (Sourced items) out.rules
  unfolding compile_rules
  compile_rules-Sourced items at out h =
      map_rules-Sourced items at (compile_builtins builtin_rules) out h
        (λ rs e. compile_builtins-Sourced items builtin_rules rs e)
