-- ===== src/Alert/Process/Cleared.antt =====
-- What the close transitions leave of a key.
use ithiltir.Shared.{◌≡◌, refl, ◌⊎◌, inl, inr, Option, none, some, List, [], ◌∷◌, arith}
use ithiltir.Shared.Tests.{◌==◌, Bool-cases, nat_eq}
use ithiltir.Shared.Text.{Text, text_eq}
use ithiltir.Shared.Maps.{lookup, insert, erase, lookup-insert, lookup-erase}
use ithiltir.Shared.Float.{Float}
use ithiltir.Alert.Runtime.{
  cooldown, RuntimeState, CloseTransition, cooldown_after_close, new_cooldown_state,
}
use ithiltir.Alert.Process.{
  Closing, close_notification_params, drop_closed, after_close_write, write_close_transition,
  write_close_transitions, notified_close,
}
use ithiltir.Alert.Environment.{
  Notify, unavailable, notify, CloseStatus, closed, not_found, CloseWrite, close_done, close_stale,
  close_failed, Env, should_drop_runtime_after_close,
}

module _ {F : Type 0} ⦃fl : Float F⦄ where
  -- A close transition leaves a key as it is, or without an alert.
  abbrev pub Cleared : Option (RuntimeState F) → Option (RuntimeState F) → Type 0
  Cleared o none = Unit
  Cleared o (some s) = (o ≡ some s) ⊎ (s.phase ≡ cooldown)

  pub Cleared-same : (o : Option (RuntimeState F)) → Cleared o o
  Cleared-same none = tt
  Cleared-same (some s) = inl refl

  pub Cleared-trans : (a b c : Option (RuntimeState F)) → Cleared a b → Cleared b c → Cleared a c
  Cleared-trans a b none h k = tt
  Cleared-trans a none (some s) h k = ground arith
  Cleared-trans a (some t) (some s) h k = ground arith

  pub lookup-erase-Cleared :
      (j k : Text) (m : List (Text × RuntimeState F)) → Cleared (lookup j m) (lookup j (erase k m))
  lookup-erase-Cleared j k m =
      rw (lookup-erase k j m)
        (elim (Bool-cases (k == j)) [ inl e ↦ rw e tt | inr e ↦ rw e (Cleared-same (lookup j m)) ])

  pub lookup-cooldown-Cleared :
      (j k : Text) (s : RuntimeState F) (m : List (Text × RuntimeState F))
      → s.phase ≡ cooldown
      → Cleared (lookup j m) (lookup j (insert k s (erase k m)))
  lookup-cooldown-Cleared j k s m c =
      rw (lookup-insert k j s (erase k m)) (elim (Bool-cases (k == j)) [
        | inl e ↦ rw e (inr c)
        | inr e ↦ rw e (lookup-erase-Cleared j k m)
      ])

  pub drop_closed-Cleared :
      (j : Text) (c : CloseTransition F) (status : CloseStatus)
      (next : List (Text × RuntimeState F))
      → Cleared (lookup j next) (lookup j (drop_closed c status next))
  unfolding drop_closed should_drop_runtime_after_close new_cooldown_state
  drop_closed-Cleared j c closed next = elim (Bool-cases (cooldown_after_close c)) [
    | inl e ↦
        rw e (lookup-cooldown-Cleared j c.key (new_cooldown_state c.rule c.closed_at) next refl)
    | inr e ↦ rw e (lookup-erase-Cleared j c.key next)
  ]
  drop_closed-Cleared j c not_found next = elim (Bool-cases (cooldown_after_close c)) [
    | inl e ↦ rw e (lookup-erase-Cleared j c.key next)
    | inr e ↦ rw e (lookup-erase-Cleared j c.key next)
  ]

  pub after_close_write-Cleared :
      (j : Text) (c : CloseTransition F) (w : CloseWrite) (st : Closing F)
      → Cleared (lookup j st.0) (lookup j (after_close_write c w st).0)
  unfolding after_close_write
  after_close_write-Cleared j c (close_done status) (next, keys) =
      drop_closed-Cleared j c status next
  after_close_write-Cleared j c close_stale (next, keys) = lookup-erase-Cleared j c.key next
  after_close_write-Cleared j c close_failed (next, keys) = Cleared-same (lookup j next)

  pub notified_close-Cleared :
      (env : Env F) (j : Text) (c : CloseTransition F) (n : Notify) (st : Closing F)
      → Cleared (lookup j st.0) (lookup j (notified_close env c n st).0)
  unfolding notified_close
  notified_close-Cleared env j c unavailable st = Cleared-same (lookup j st.0)
  notified_close-Cleared env j c (notify channels) st =
      after_close_write-Cleared j c (env.write_close c channels) st

  pub write_close_transition-Cleared :
      (env : Env F) (j : Text) (c : CloseTransition F) (st : Closing F)
      → Cleared (lookup j st.0) (lookup j (write_close_transition env c st).0)
  unfolding write_close_transition
  write_close_transition-Cleared env j c st =
      notified_close-Cleared env j c (close_notification_params env c) st

  pub write_close_transitions-Cleared :
      (env : Env F) (j : Text) (cs : List (CloseTransition F)) (st : Closing F)
      → Cleared (lookup j st.0) (lookup j (write_close_transitions env cs st).0)
  unfolding write_close_transitions
  write_close_transitions-Cleared env j [] st = Cleared-same (lookup j st.0)
  write_close_transitions-Cleared env j (c ∷ cs) st =
      Cleared-trans _ _ _ (write_close_transition-Cleared env j c st)
        (write_close_transitions-Cleared env j cs (write_close_transition env c st))
