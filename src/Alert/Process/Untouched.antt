-- ===== src/Alert/Process/Untouched.antt =====
-- Writes for other keys leave a key as it is, and alerts are opened for keys that do not fire.
use mathlib.Core.Option.{none-ne-some, some_inj}
use ithiltir.Shared.Lists.{All}
use ithiltir.Alert.Evaluate.Closes.{OpensWell}
use ithiltir.Alert.Evaluate.Transitions.{IsNotFiring}
use ithiltir.Alert.Evaluate.Result.{evaluate_server-OpensWell}
use ithiltir.Shared.{
  ◌≡◌, refl, sym, ap, ◌∙◌, inl, inr, false, not, ◌||◌, Option, some, List, [], ◌∷◌,
}
use ithiltir.Shared.Tests.{◌==◌, Bool-cases, Option-cases, list_eqb_iff, nat_eq}
use ithiltir.Shared.Text.{Text, text_eq}
use ithiltir.Shared.Maps.{lookup, erase, lookup-insert, lookup-erase}
use ithiltir.Shared.Int.{ℤ, pos, ltb_ℤ}
use ithiltir.Shared.Float.{Float}
use ithiltir.Shared.Time.{Time, is_zero, before}
use ithiltir.NodeView.{NodeView}
use ithiltir.Alert.Compile.{CompiledRules}
use ithiltir.Alert.Runtime.{
  firing, RuntimeState, OpenTransition, CloseTransition, cooldown_after_close, new_cooldown_state,
  apply_open_transition, fire_state, state_or_zero,
}
use ithiltir.Alert.Evaluate.{evaluate_server, Scene}
use ithiltir.Alert.Process.{
  Closing, open_notification_params, filter_startup_opens, drop_closed, after_close_write,
  after_open_write, notified_open, write_open_transition, write_open_transitions,
}
use ithiltir.Alert.Environment.{
  Notify, unavailable, notify, CloseStatus, closed, not_found, CloseWrite, close_done, close_stale,
  close_failed, OpenWrite, open_done, open_stale, open_failed, Env, should_drop_runtime_after_close,
}

module _ {F : Type 0} ⦃fl : Float F⦄ where
  pub lookup-erase_ne :
      (j k : Text) (m : List (Text × RuntimeState F))
      → (k == j) ≡ false
      → lookup j (erase k m) ≡ lookup j m
  lookup-erase_ne j k m n = rw (lookup-erase k j m, n)

  pub lookup-drop_closed_ne :
      (j : Text) (t : CloseTransition F) (status : CloseStatus)
      (next : List (Text × RuntimeState F))
      → (t.key == j) ≡ false
      → lookup j (drop_closed t status next) ≡ lookup j next
  unfolding drop_closed should_drop_runtime_after_close
  lookup-drop_closed_ne j t closed next n = elim (Bool-cases (cooldown_after_close t)) [
    | inl e ↦ rw (
      e,
      lookup-insert t.key j (new_cooldown_state t.rule t.closed_at) (erase t.key next),
      n,
      lookup-erase_ne j t.key next n,
    )
    | inr e ↦ rw (e, lookup-erase_ne j t.key next n)
  ]
  lookup-drop_closed_ne j t not_found next n = elim (Bool-cases (cooldown_after_close t)) [
    | inl e ↦ rw (e, lookup-erase_ne j t.key next n)
    | inr e ↦ rw (e, lookup-erase_ne j t.key next n)
  ]

  pub after_close_write_ne :
      (j : Text) (t : CloseTransition F) (w : CloseWrite) (st : Closing F)
      → (t.key == j) ≡ false
      → lookup j ((after_close_write t w st).0) ≡ lookup j (st.0)
  unfolding after_close_write
  after_close_write_ne j t (close_done status) (next, keys) n =
      lookup-drop_closed_ne j t status next n
  after_close_write_ne j t close_stale (next, keys) n = lookup-erase_ne j t.key next n
  after_close_write_ne j t close_failed (next, keys) n = refl

  -- Opening alerts of other keys.
  pub after_open_write_ne :
      (j : Text) (t : OpenTransition F) (w : OpenWrite) (next : List (Text × RuntimeState F))
      → (t.key == j) ≡ false
      → lookup j (after_open_write t w next) ≡ lookup j next
  unfolding after_open_write apply_open_transition
  after_open_write_ne j t (open_done event_id) next n = elim (Bool-cases (ltb_ℤ (pos 0) event_id)) [
    | inl e ↦ rw (
      e,
      lookup-insert t.key j (fire_state t event_id (state_or_zero (lookup t.key next))) next,
      n,
    )
    | inr e ↦ rw e
  ]
  after_open_write_ne j t open_stale next n = refl
  after_open_write_ne j t open_failed next n = refl

  pub notified_open_ne :
      (env : Env F) (j : Text) (t : OpenTransition F) (n : Notify)
      (next : List (Text × RuntimeState F))
      → (t.key == j) ≡ false
      → lookup j (notified_open env t n next) ≡ lookup j next
  unfolding notified_open
  notified_open_ne env j t unavailable next e = refl
  notified_open_ne env j t (notify channels) next e =
      after_open_write_ne j t (env.write_open t channels) next e

  pub write_open_transitions_ne :
      (env : Env F) (j : Text) (ts : List (OpenTransition F))
      (next opened : List (Text × RuntimeState F))
      → All (λ (t : OpenTransition F). (t.key == j) ≡ false) ts
      → write_open_transitions env ts next ≡ some opened
      → lookup j opened ≡ lookup j next
  unfolding write_open_transitions write_open_transition
  write_open_transitions_ne env j [] next opened n e = ap (lookup j) (sym (some_inj.0 e))
  write_open_transitions_ne env j (t ∷ ts) next opened n e =
      elim (Option-cases t.rule.snapshot_raw) [
        | inl q ↦ absurd (none-ne-some opened (rw q at e))
        | inr (r, q) ↦
            write_open_transitions_ne env j ts (write_open_transition env t next) opened n.1
              (rw q at e)
            ∙ notified_open_ne env j t (open_notification_params env t) next n.0
      ]

  pub firing-ne :
      (j k : Text) (c : RuntimeState F) (current : List (Text × RuntimeState F))
      → lookup j current ≡ some c
      → c.phase ≡ firing
      → IsNotFiring (lookup k current)
      → (k == j) ≡ false
  firing-ne j k c current l f n = elim (Bool-cases (k == j)) [
    | inl e ↦ let same : k ≡ j = (list_eqb_iff k j).0 e in absurd ((rw (same, l) at n) f)
    | inr e ↦ e
  ]

  pub opens_ne :
      (sc : Scene F) (current : List (Text × RuntimeState F)) (j : Text) (c : RuntimeState F)
      (ts : List (OpenTransition F))
      → lookup j current ≡ some c
      → c.phase ≡ firing
      → All (OpensWell sc current) ts
      → All (λ (t : OpenTransition F). (t.key == j) ≡ false) ts
  opens_ne sc current j c [] l f h = tt
  opens_ne sc current j c (t ∷ ts) l f h =
      (firing-ne j t.key c current l f h.0.1, opens_ne sc current j c ts l f h.1)

  pub filter_startup_opens_ne :
      (j : Text) (ts : List (OpenTransition F)) (now open_after : Time)
      → All (λ (t : OpenTransition F). (t.key == j) ≡ false) ts
      → All
          (λ (t : OpenTransition F). (t.key == j) ≡ false)
          (filter_startup_opens ts now open_after)
  unfolding filter_startup_opens
  filter_startup_opens_ne j ts now open_after h =
      elim (Bool-cases (is_zero open_after || not (before now open_after))) [
        | inl e ↦ rw e h
        | inr e ↦ rw e tt
      ]

  -- The evaluation opens nothing under a key that fires.
  pub evaluated_ne :
      (id : ℤ) (view : Option (NodeView F)) (compiled : CompiledRules F)
      (current : List (Text × RuntimeState F)) (now : Time) (j : Text) (c : RuntimeState F)
      → lookup j current ≡ some c
      → c.phase ≡ firing
      → All
          (λ (t : OpenTransition F). (t.key == j) ≡ false)
          (evaluate_server id view compiled current now).open_transitions
  evaluated_ne id view compiled current now j c l f =
      elim (evaluate_server-OpensWell id view compiled current now) [
        | inl e ↦ rw e tt
        | inr (sc, e, h) ↦ opens_ne sc current j c _ l f h
      ]
