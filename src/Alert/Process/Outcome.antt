-- ===== src/Alert/Process/Outcome.antt =====
-- What holds of the states that processing a server gives.
use mathlib.Core.List.{not-mem-nil}
use ithiltir.Shared.{◌≡◌, ◌⊎◌, inl, inr, ◌≢◌, Bool, true, false, Option, none, some, List, []}
use ithiltir.Shared.Tests.{nat_eq}
use ithiltir.Shared.Text.{Text, text_eq}
use ithiltir.Shared.Maps.{lookup, Unique}
use ithiltir.Shared.Int.{ℤ}
use ithiltir.Shared.Float.{Float}
use ithiltir.Shared.Time.{Time, is_zero, before}
use ithiltir.NodeView.{NodeView}
use ithiltir.Alert.Compile.{CompiledRules, for_mounts}
use ithiltir.Alert.Runtime.{firing, RuntimeState, OpenTransition, EvalResult}
use ithiltir.Alert.Evaluate.{evaluate_server}
use ithiltir.Alert.Evaluate.Result.{evaluate_server-Fits}
use ithiltir.Alert.Process.{filter_startup_opens, process_server}
use ithiltir.Alert.Environment.{Env}
use ithiltir.Alert.Process.Accounts.{
  Among-same, OldAlert, Accounted, Fits-Accounted, Cleared-Accounted,
  write_open_transitions-Accounted, flushed-Accounted, Closing_of, some_process,
}
use ithiltir.Alert.Process.Cleared.{write_close_transitions-Cleared}
use ithiltir.Alert.Process.Flushed.{lookup-flush_heartbeats}
use ithiltir.Alert.Process.Keys.{
  evaluate_server-Unique, write_close_transitions-Unique, write_open_transitions-Unique,
}

module _ {F : Type 0} ⦃fl : Float F⦄ where
  -- The evaluation that `process_server` writes, and the transitions that it opens.
  abbrev pub evaluated :
      ℤ
      → Option (NodeView F)
      → CompiledRules F
      → List (ℤ × Bool)
      → List (Text × RuntimeState F)
      → Time
      → EvalResult F
  evaluated id view compiled mounts current now =
      evaluate_server id view (for_mounts compiled mounts) current now

  -- Every alert that fires after a server has been processed is the event that fired under its key
  -- before, or one with a positive identifier that the store has just opened for a transition of the
  -- key that the evaluation asked for and that the grace period after a start did not hold back.
  pub process_server-Accounted :
      (env : Env F) (id : ℤ) (view : Option (NodeView F)) (compiled : CompiledRules F)
      (mounts : List (ℤ × Bool)) (current : List (Text × RuntimeState F)) (now open_after : Time)
      (next : List (Text × RuntimeState F)) (j : Text)
      → Unique current
      → process_server env id view compiled mounts current now open_after ≡ some next
      → Accounted
          (lookup j current)
          env
          (filter_startup_opens
            (evaluated id view compiled mounts current now).open_transitions
            now
            open_after)
          j
          (lookup j next)
  unfolding process_server
  process_server-Accounted env id view compiled mounts current now open_after next j u e =
      let r = evaluated id view compiled mounts current now in
      let ts = filter_startup_opens r.open_transitions now open_after in
      let (opened, w, q) = some_process env r ts current next _ e in
      let first =
        Cleared-Accounted (lookup j current) env ts j _ _
          (write_close_transitions-Cleared env j r.close_transitions (r.next, []))
          (Fits-Accounted (lookup j current) env ts j (lookup j r.next)
            (evaluate_server-Fits id view (for_mounts compiled mounts) current now j u)) in
      let second =
        write_open_transitions-Accounted (lookup j current) env ts j ts (Closing_of env r).0 opened
          (Among-same ts) w first in
      let single = write_open_transitions-Unique env ts (Closing_of env r).0 opened w (
        write_close_transitions-Unique env r.close_transitions (r.next, [])
          (evaluate_server-Unique id view (for_mounts compiled mounts) current now)) in
      rw (q, lookup-flush_heartbeats env current (Closing_of env r).1 j opened single)
        (flushed-Accounted (lookup j current) env ts j current (Closing_of env r).1
          (lookup j opened) second)

  -- No alert, or the one that fired under the key before.
  abbrev pub NoneNew : Option (RuntimeState F) → Option (RuntimeState F) → Type 0
  NoneNew cur none = Unit
  NoneNew cur (some s) = (s.phase ≢ firing) ⊎ OldAlert cur s

  Accounted-NoneNew :
      (cur : Option (RuntimeState F)) (env : Env F) (ts : List (OpenTransition F)) (j : Text)
      (o : Option (RuntimeState F))
      → ts ≡ []
      → Accounted cur env ts j o
      → NoneNew cur o
  Accounted-NoneNew cur env ts j none e a = tt
  Accounted-NoneNew cur env ts j (some s) e (inl a) = inl a
  Accounted-NoneNew cur env ts j (some s) e (inr (inl a)) = inr a
  Accounted-NoneNew cur env ts j (some s) e (inr (inr (t, m, k, w, p))) =
      absurd (not-mem-nil (rw e at m))

  held_back :
      (ts : List (OpenTransition F)) (now open_after : Time)
      → is_zero open_after ≡ false
      → before now open_after ≡ true
      → filter_startup_opens ts now open_after ≡ []
  unfolding filter_startup_opens
  held_back ts now open_after z b = rw (z, b)

  -- In the grace period after a start no alert begins: whatever fires when a server has been processed
  -- fired before, as the same event.
  pub process_server-NoneNew :
      (env : Env F) (id : ℤ) (view : Option (NodeView F)) (compiled : CompiledRules F)
      (mounts : List (ℤ × Bool)) (current : List (Text × RuntimeState F)) (now open_after : Time)
      (next : List (Text × RuntimeState F)) (j : Text)
      → Unique current
      → is_zero open_after ≡ false
      → before now open_after ≡ true
      → process_server env id view compiled mounts current now open_after ≡ some next
      → NoneNew (lookup j current) (lookup j next)
  process_server-NoneNew env id view compiled mounts current now open_after next j u z b e =
      Accounted-NoneNew (lookup j current) env _ j (lookup j next)
        (held_back (evaluated id view compiled mounts current now).open_transitions now open_after z
          b)
        (process_server-Accounted env id view compiled mounts current now open_after next j u e)
