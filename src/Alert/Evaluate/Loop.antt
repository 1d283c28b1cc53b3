-- ===== src/Alert/Evaluate/Loop.antt =====
-- The loops of an evaluation, key by key.
use ithiltir.Shared.{
  ◌≡◌, refl, ◌∙◌, inl, inr, Bool, true, false, not, ◌&&◌, ◌||◌, Option, none, some, List, [], ◌∷◌,
  arith,
}
use ithiltir.Shared.Tests.{◌==◌, if◌then◌else◌, Bool-cases, list_eqb_iff, nat_eq}
use ithiltir.Shared.Text.{Text, text_eq}
use ithiltir.Shared.Maps.{lookup, lookup-insert, Unique}
use ithiltir.Shared.Int.{ℤ}
use ithiltir.Shared.Float.{Float}
use ithiltir.Shared.Time.{Time}
use ithiltir.NodeView.{NodeView}
use ithiltir.Alert.Compile.{CompiledRule, CompiledRules, state_key}
use ithiltir.Alert.Runtime.{RuntimeState, EvalResult, is_firing}
use ithiltir.Alert.Evaluate.Kept.{Fits, rule_verdict-Fits}
use ithiltir.Alert.Evaluate.{
  Scene, Verdict, rule_verdict, record_verdict, evaluate_rules, is_seen, keep_entry, keep_entries,
  store_some,
}

module _ {F : Type 0} ⦃fl : Float F⦄ where
  lookup-store_some :
      (k j : Text) (next : List (Text × RuntimeState F)) (o : Option (RuntimeState F))
      → lookup j (store_some k next o)
        ≡ (if k == j then elim o [ none ↦ lookup j next | some s ↦ some s ] else lookup j next)
  lookup-store_some k j next none = ground arith
  lookup-store_some k j next (some s) = lookup-insert k j s next

  lookup-record_verdict :
      (k j : Text) (v : Verdict F) (r : EvalResult F)
      → lookup j (record_verdict k v r).next ≡ (
          if k == j
          then elim v.state [ none ↦ lookup j r.next | some s ↦ some s ]
          else lookup j r.next)
  unfolding record_verdict
  lookup-record_verdict k j v r = lookup-store_some k j r.next v.state

  -- A state that was stored for a key is replaced only by one that fits as well.
  record_verdict-Fits :
      (k j : Text) (v : Verdict F) (r : EvalResult F) (o : Option (RuntimeState F))
      → (k ≡ j → Fits o v.state)
      → Fits o (lookup j r.next)
      → Fits o (lookup j (record_verdict k v r).next)
  record_verdict-Fits k j v r o f h = elim (Bool-cases (k == j)) [
    | inl e ↦ rw (lookup-record_verdict k j v r, e) (go v.state (f ((list_eqb_iff k j).0 e)))
    | inr e ↦ rw (lookup-record_verdict k j v r, e) h
  ]
    where
      go :
          (w : Option (RuntimeState F))
          → Fits o w
          → Fits o (elim w [ none ↦ lookup j r.next | some s ↦ some s ])
      go none p = h
      go (some s) p = p

  record_verdict-Fits_first :
      (k j : Text) (v : Verdict F) (r : EvalResult F) (o : Option (RuntimeState F))
      → (k == j) ≡ true
      → Fits o v.state
      → lookup j r.next ≡ none
      → Fits o (lookup j (record_verdict k v r).next)
  record_verdict-Fits_first k j v r o e f h = rw (lookup-record_verdict k j v r, e) (go v.state f)
    where
      go :
          (w : Option (RuntimeState F))
          → Fits o w
          → Fits o (elim w [ none ↦ lookup j r.next | some s ↦ some s ])
      go none p = rw h p
      go (some s) p = p

  module _ (sc : Scene F) (current : List (Text × RuntimeState F)) (j : Text) where
    verdict_at-Fits :
        (rule : CompiledRule F)
        → state_key rule ≡ j
        → Fits (lookup j current) (rule_verdict sc rule (lookup (state_key rule) current)).state
    verdict_at-Fits rule e = rw e (rule_verdict-Fits sc rule (lookup j current))

    evaluate_rules-Fits :
        (rules : List (CompiledRule F)) (r : EvalResult F)
        → Fits (lookup j current) (lookup j r.next)
        → Fits (lookup j current) (lookup j (evaluate_rules sc current rules r).next)
    unfolding evaluate_rules
    evaluate_rules-Fits [] r h = h
    evaluate_rules-Fits (rule ∷ rules) r h =
        evaluate_rules-Fits rules _
          (record_verdict-Fits (state_key rule) j _ r (lookup j current) (verdict_at-Fits rule) h)

    pub evaluate_rules-unseen :
        (rules : List (CompiledRule F)) (r : EvalResult F)
        → is_seen j rules ≡ false
        → lookup j (evaluate_rules sc current rules r).next ≡ lookup j r.next
    unfolding evaluate_rules is_seen
    evaluate_rules-unseen [] r h = refl
    evaluate_rules-unseen (rule ∷ rules) r h =
        let other : (state_key rule == j) ≡ false = ground arith in
        let rest : is_seen j rules ≡ false = ground arith in
        evaluate_rules-unseen rules _ rest ∙ lookup-record_verdict (state_key rule) j _ r ∙ rw other

    pub evaluate_rules-seen :
        (rules : List (CompiledRule F)) (r : EvalResult F)
        → is_seen j rules ≡ true
        → lookup j r.next ≡ none
        → Fits (lookup j current) (lookup j (evaluate_rules sc current rules r).next)
    unfolding evaluate_rules is_seen
    evaluate_rules-seen [] r h n = cc
    evaluate_rules-seen (rule ∷ rules) r h n = elim (Bool-cases (state_key rule == j)) [
      | inl e ↦
          let same : state_key rule ≡ j = (list_eqb_iff (state_key rule) j).0 e in
          evaluate_rules-Fits rules _ (
            record_verdict-Fits_first (state_key rule) j _ r (lookup j current) e
              (verdict_at-Fits rule same) n)
      | inr e ↦
          evaluate_rules-seen rules _ (ground arith)
            (lookup-record_verdict (state_key rule) j _ r ∙ rw e n)
    ]

  lookup-keep_entry :
      (all : Bool) (id : ℤ) (now : Time) (view : Option (NodeView F)) (compiled : CompiledRules F)
      (k j : Text) (s : RuntimeState F) (r : EvalResult F)
      → lookup j (keep_entry all id now view compiled k s r).next ≡ (
          if k == j && (is_firing s.phase && (all || not (is_seen k compiled.rules)))
          then some s
          else lookup j r.next)
  unfolding keep_entry
  lookup-keep_entry all id now view compiled k j s r =
      elim (Bool-cases (is_firing s.phase && (all || not (is_seen k compiled.rules)))) [
        | inl e ↦ rw (e, lookup-insert k j s r.next) (ground arith)
        | inr e ↦ rw e (ground arith)
      ]

  -- The entry that a loop over `current` leaves for a key.
  abbrev pub kept_entry :
      Bool
      → CompiledRules F
      → Text
      → Option (RuntimeState F)
      → Option (RuntimeState F)
      → Option (RuntimeState F)
  kept_entry all compiled j none old = old
  kept_entry all compiled j (some s) old =
      if is_firing s.phase && (all || not (is_seen j compiled.rules)) then some s else old

  pub lookup-keep_entries :
      (all : Bool) (id : ℤ) (now : Time) (view : Option (NodeView F)) (compiled : CompiledRules F)
      (j : Text) (m : List (Text × RuntimeState F)) (r : EvalResult F)
      → Unique m
      → lookup j (keep_entries all id now view compiled m r).next
        ≡ kept_entry all compiled j (lookup j m) (lookup j r.next)
  unfolding keep_entries lookup
  lookup-keep_entries all id now view compiled j [] r u = refl
  lookup-keep_entries all id now view compiled j ((k, s) ∷ m) r u =
      lookup-keep_entries all id now view compiled j m _ u.1
      ∙ rw (lookup-keep_entry all id now view compiled k j s r) (elim (Bool-cases (k == j)) [
        | inl e ↦ let same : k ≡ j = (list_eqb_iff k j).0 e in rw (e, ← same, u.0) refl
        | inr e ↦ rw e refl
      ])
