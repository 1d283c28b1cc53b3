-- ===== src/NodeSession/Runs.antt =====
-- Sequences of calls of the hub: at most one live session of a node, and what its requests rest on.
use mathlib.Core.Option.{some_inj, none-ne-some}
use ithiltir.Shared.{
  ℕ, ◌≡◌, refl, sym, ◌∙◌, inl, inr, Bool, true, false, Option, none, some, List, [], ◌∷◌, arith,
}
use ithiltir.Shared.Tests.{◌==◌, if◌then◌else◌, Bool-cases, nat_eq}
use ithiltir.Shared.Maps.{lookup}
use ithiltir.Shared.Int.{ℤ, int_eq}
use ithiltir.Shared.Text.{Text}
use ithiltir.NodeSession.{
  Session, Hub, Command, Capabilities, new, cancel_session, cancel_at, open_session, remove, close,
  expire, enter, enter_session, send, send_session, receive, receive_session, complete, leave,
  current, registered, found, authenticated, take_command,
}
use ithiltir.NodeSession.Registry.{IsMild, cancel_session-IsMild, Kept, Inv, update-Inv, remove-Inv}
use ithiltir.NodeSession.Calls.{open_session-Inv, close-Inv}

-- `asks` is the end of `current`: the calls that come in between stand before it, and the hubs of its
-- two earlier moments are any.
pub data Call : Type 0 where
  opens : ℤ → Text → Capabilities → Call
  removes : ℕ → Call
  closes : Call
  expires : ℕ → Call
  asks : (Text → Option ℤ) → ℤ → Hub → Hub → Call
  enters : ℕ → Call
  sends : ℕ → Command → Call
  receives : ℕ → Call
  completes : ℕ → ℕ → Text → Call
  leaves : ℕ → ℕ → Call

unfoldable pub step : Hub → Call → Hub
step h (opens id secret caps) = open_session id secret caps h
step h (removes a) = remove a h
step h closes = close h
step h (expires a) = expire a h
step h (asks authenticate id before between) = (current authenticate id before between h).0
step h (enters a) = enter a h
step h (sends a c) = send a c h
step h (receives a) = receive a h
step h (completes a n result) = complete a n result h
step h (leaves a n) = leave a n h

unfoldable pub run : Hub → List Call → Hub
run h [] = h
run h (c ∷ calls) = run (step h c) calls

authenticated-Inv :
    (id : ℤ) (a : ℕ) (s : Session) (o : Option ℤ) (h : Hub)
    → Inv h
    → Inv ((authenticated id a s o h).0)
unfolding authenticated
authenticated-Inv id a s none h v = remove-Inv a h v
authenticated-Inv id a s (some server) h v = elim (Bool-cases (server == id)) [
  | inl e ↦ rw e v
  | inr e ↦ rw e (remove-Inv a h v)
]

found-Inv :
    (authenticate : Text → Option ℤ) (id : ℤ) (a : ℕ) (o : Option Session) (h : Hub)
    → Inv h
    → Inv ((found authenticate id a o h).0)
unfolding found
found-Inv authenticate id a none h v = v
found-Inv authenticate id a (some s) h v = go s.cancelled
  where
    go :
        (b : Bool)
        → Inv ((if b then (h, none) else authenticated id a s (authenticate s.secret) h).0)
    go true = v
    go false = authenticated-Inv id a s (authenticate s.secret) h v

registered-Inv :
    (authenticate : Text → Option ℤ) (id : ℤ) (o : Option ℕ) (between h : Hub)
    → Inv h
    → Inv ((registered authenticate id o between h).0)
unfolding registered
registered-Inv authenticate id none between h v = v
registered-Inv authenticate id (some a) between h v =
    found-Inv authenticate id a (lookup a between.heap) h v

enter_session-IsMild : (n : ℕ) → IsMild (enter_session n)
enter_session-IsMild n = record { same_id = λ s. ground arith; cancels = λ s. inr (ground arith) }

send_session-IsMild : (c : Command) → IsMild (send_session c)
send_session-IsMild c = record { same_id = λ s. ground arith; cancels = λ s. inr (ground arith) }

received-same :
    (s : Session) (cs : List Command)
    → ((take_command cs s).id ≡ s.id) × ((take_command cs s).cancelled ≡ s.cancelled)
received-same s [] = (refl, refl)
received-same s (c ∷ cs) = (refl, refl)

receive_session-IsMild : IsMild receive_session
receive_session-IsMild = record {
  same_id = λ s. (received-same s s.commands).0;
  cancels = λ s. inr (received-same s s.commands).1;
}

step-Inv : (h : Hub) (c : Call) → Inv h → Inv (step h c)
unfolding step current expire cancel_at enter send receive complete leave
step-Inv h (opens id secret caps) v = open_session-Inv id secret caps h v
step-Inv h (removes a) v = remove-Inv a h v
step-Inv h closes v = close-Inv h v
step-Inv h (expires a) v = update-Inv cancel_session a h.next h cancel_session-IsMild v
step-Inv h (asks authenticate id before between) v =
    registered-Inv authenticate id (lookup id before.sessions) between h v
step-Inv h (enters a) v = update-Inv _ a _ h (enter_session-IsMild _) v
step-Inv h (sends a c) v = update-Inv _ a h.next h (send_session-IsMild c) v
step-Inv h (receives a) v = update-Inv receive_session a h.next h receive_session-IsMild v
step-Inv h (completes a n result) v =
    update-Inv _ a h.next h (record { same_id = λ s. refl; cancels = λ s. inr refl }) v
step-Inv h (leaves a n) v =
    update-Inv _ a h.next h (record { same_id = λ s. refl; cancels = λ s. inr refl }) v

run_from-Inv : (h : Hub) (calls : List Call) → Inv h → Inv (run h calls)
unfolding run
run_from-Inv h [] v = v
run_from-Inv h (c ∷ calls) v = run_from-Inv (step h c) calls (step-Inv h c v)

new-Inv : Inv new
unfolding new lookup
new-Inv = record { kept = λ a. tt; used = λ a. tt; shut = inl refl }

run-new-Inv : (calls : List Call) → Inv (run new calls)
run-new-Inv calls = run_from-Inv new calls new-Inv

-- A session at the address that is not cancelled.
abbrev pub Live : Hub → ℕ → ℤ → Type 0
Live h a id = (s : Session) × (lookup a h.heap ≡ some s) × (s.cancelled ≡ false) × (s.id ≡ id)

Live-registered : (h : Hub) (a : ℕ) (id : ℤ) → Inv h → Live h a id → lookup id h.sessions ≡ some a
Live-registered h a id v (s, l, c, e) =
    let k : Kept h.sessions a (some s) = rw l at (v.kept a) in
    elim k [ inl d ↦ absurd (cc) | inr r ↦ rw (← e) r ]

-- After any calls on a new hub, in any order, two live sessions of a node are the same session.
pub Live-unique :
    (calls : List Call) (a b : ℕ) (id : ℤ)
    → Live (run new calls) a id
    → Live (run new calls) b id
    → a ≡ b
Live-unique calls a b id l m = some_inj.0 (
    sym (Live-registered (run new calls) a id (run-new-Inv calls) l)
    ∙ Live-registered (run new calls) b id (run-new-Inv calls) m)

-- After Close no session is live, also none that is opened later.
pub not-Live :
    (calls : List Call) (a : ℕ) (id : ℤ)
    → (run new calls).closed ≡ true
    → ¬ Live (run new calls) a id
unfolding lookup
not-Live calls a id c l = elim (run-new-Inv calls).shut [
  | inl e ↦ absurd (cc)
  | inr e ↦ none-ne-some a (rw e at (Live-registered (run new calls) a id (run-new-Inv calls) l))
]
