-- ===== src/NodeSession/Capacity.antt =====
-- How much a session holds.
use mathlib.Core.Option.{none-ne-some}
use ithiltir.Shared.{
  ℕ, suc, ◌≤◌, ◌≡◌, refl, ap, inl, inr, Bool, true, false, Option, none, some, List, [], ◌∷◌, arith,
}
use ithiltir.Shared.Tests.{◌==◌, if◌then◌else◌, Bool-cases, nat_eq}
use ithiltir.Shared.Maps.{lookup, insert, erase, lookup-insert}
use ithiltir.Shared.Int.{ℤ, int_eq}
use ithiltir.Shared.Text.{Text}
use ithiltir.NodeSession.{
  Session, Hub, Command, Capabilities, new, update, cancel_session, cancel_at, cancel_previous,
  open_session, remove_session, remove, cancel_all, close, expire, enter, enter_session, send,
  send_session, receive, receive_session, complete, answer, leave, current, registered, found,
  authenticated, take_command,
}
use ithiltir.NodeSession.Registry.{mapped, lookup-update}
use ithiltir.NodeSession.Runs.{
  Call, opens, removes, closes, expires, asks, enters, sends, receives, completes, leaves, step,
  run,
}
use ithiltir.Shared.Lists.{length, length-append}

-- At most 32 requests wait, and at most 64 commands stand in the channel.
abbrev pub Bounded : Option Session → Type 0
Bounded none = Unit
Bounded (some s) = (length s.pending ≤ 32) × (length s.commands ≤ 64)

abbrev pub AllBounded : List (ℕ × Session) → Type 0
AllBounded heap = (a : ℕ) → Bounded (lookup a heap)

abbrev KeepsBounds : (Session → Session) → Type 0
KeepsBounds f = (s : Session) → Bounded (some s) → Bounded (some (f s))

mapped-Bounded :
    (f : Session → Session) (o : Option Session) → KeepsBounds f → Bounded o → Bounded (mapped f o)
mapped-Bounded f none k b = tt
mapped-Bounded f (some s) k b = k s b

update-AllBounded :
    (f : Session → Session) (a : ℕ) (heap : List (ℕ × Session))
    → KeepsBounds f
    → AllBounded heap
    → AllBounded (update f a heap)
update-AllBounded f a heap k h b = rw (lookup-update f a b heap) (elim (Bool-cases (a == b)) [
  | inl e ↦ rw e (mapped-Bounded f (lookup b heap) k (h b))
  | inr e ↦ rw e (h b)
])

insert-AllBounded :
    (a : ℕ) (s : Session) (heap : List (ℕ × Session))
    → Bounded (some s)
    → AllBounded heap
    → AllBounded (insert a s heap)
insert-AllBounded a s heap k h b =
    rw (lookup-insert a b s heap)
      (elim (Bool-cases (a == b)) [ inl e ↦ rw e k | inr e ↦ rw e (h b) ])

cancel_at-AllBounded :
    (a : ℕ) (heap : List (ℕ × Session)) → AllBounded heap → AllBounded (cancel_at a heap)
unfolding cancel_at
cancel_at-AllBounded a heap h = update-AllBounded cancel_session a heap (λ s b. b) h

cancel_all-AllBounded :
    (m : List (ℤ × ℕ)) (heap : List (ℕ × Session))
    → AllBounded heap
    → AllBounded (cancel_all m heap)
unfolding cancel_all
cancel_all-AllBounded [] heap h = h
cancel_all-AllBounded ((id, a) ∷ m) heap h =
    cancel_at-AllBounded a (cancel_all m heap) (cancel_all-AllBounded m heap h)

previous-AllBounded :
    (o : Option ℕ) (heap : List (ℕ × Session))
    → AllBounded heap
    → AllBounded (cancel_previous o heap)
previous-AllBounded none heap h = h
previous-AllBounded (some a) heap h = cancel_at-AllBounded a heap h

-- Writes to a map that has the key, or any.
length-insert :
    (n : ℕ) (v : Option Text) (m : List (ℕ × Option Text)) → length (insert n v m) ≤ suc (length m)
unfolding insert
length-insert n v [] = omega arith
length-insert n v ((k, w) ∷ m) = ground (arith, length-insert n v m)

length-insert_known :
    (n : ℕ) (v w : Option Text) (m : List (ℕ × Option Text))
    → lookup n m ≡ some w
    → length (insert n v m) ≡ length m
unfolding insert lookup
length-insert_known n v w [] e = absurd (none-ne-some w e)
length-insert_known n v w ((k, u) ∷ m) e = elim (Bool-cases (k == n)) [
  | inl q ↦ rw q refl
  | inr q ↦ rw q (ap suc (length-insert_known n v w m (rw q at e)))
]

length-erase : (n : ℕ) (m : List (ℕ × Option Text)) → length (erase n m) ≤ length m
unfolding erase
length-erase n [] = omega arith
length-erase n ((k, w) ∷ m) = ground (arith, length-erase n m)

enter_session-bounds : (n : ℕ) → KeepsBounds (enter_session n)
enter_session-bounds n s (p, c) = (ground (arith, length-insert n none s.pending), ground arith)

send_session-bounds : (c : Command) → KeepsBounds (send_session c)
send_session-bounds c s (p, q) = (ground arith, ground (arith, length-append s.commands (c ∷ [])))

take_command-bounds :
    (cs : List Command) (s : Session)
    → length cs ≤ 64
    → length s.pending ≤ 32
    → length s.commands ≤ 64
    → Bounded (some (take_command cs s))
take_command-bounds [] s b p c = (p, c)
take_command-bounds (d ∷ cs) s b p c = (p, omega (arith, b))

answer-bounds :
    (n : ℕ) (result : Text) (o : Option (Option Text)) (m : List (ℕ × Option Text))
    → lookup n m ≡ o
    → length m ≤ 32
    → length (answer n result o m) ≤ 32
answer-bounds n result none m e b = b
answer-bounds n result (some (some old)) m e b = b
answer-bounds n result (some none) m e b =
    omega (arith, length-insert_known n (some result) none m e)

remove-AllBounded :
    (a : ℕ) (o : Option Session) (h : Hub)
    → AllBounded h.heap
    → AllBounded (remove_session a o h).heap
unfolding remove_session
remove-AllBounded a none h b = b
remove-AllBounded a (some s) h b = cancel_at-AllBounded a h.heap b

open_session-AllBounded :
    (id : ℤ) (secret : Text) (caps : Capabilities) (h : Hub)
    → AllBounded h.heap
    → AllBounded (open_session id secret caps h).heap
unfolding open_session
open_session-AllBounded id secret caps h b = elim (Bool-cases h.closed) [
  | inl e ↦ rw e (insert-AllBounded h.fresh _ h.heap (omega arith, omega arith) b)
  | inr e ↦ rw e (
      insert-AllBounded h.fresh _ _ (omega arith, omega arith)
        (previous-AllBounded (lookup id h.sessions) h.heap b))
]

authenticated-AllBounded :
    (id : ℤ) (a : ℕ) (s : Session) (o : Option ℤ) (h : Hub)
    → AllBounded h.heap
    → AllBounded ((authenticated id a s o h).0).heap
unfolding authenticated remove
authenticated-AllBounded id a s none h b = remove-AllBounded a (lookup a h.heap) h b
authenticated-AllBounded id a s (some server) h b = elim (Bool-cases (server == id)) [
  | inl e ↦ rw e b
  | inr e ↦ rw e (remove-AllBounded a (lookup a h.heap) h b)
]

found-AllBounded :
    (authenticate : Text → Option ℤ) (id : ℤ) (a : ℕ) (o : Option Session) (h : Hub)
    → AllBounded h.heap
    → AllBounded ((found authenticate id a o h).0).heap
unfolding found
found-AllBounded authenticate id a none h b = b
found-AllBounded authenticate id a (some s) h b = go s.cancelled
  where
    go :
        (c : Bool)
        → AllBounded
            ((if c then (h, none) else authenticated id a s (authenticate s.secret) h).0).heap
    go true = b
    go false = authenticated-AllBounded id a s (authenticate s.secret) h b

registered-AllBounded :
    (authenticate : Text → Option ℤ) (id : ℤ) (o : Option ℕ) (between h : Hub)
    → AllBounded h.heap
    → AllBounded ((registered authenticate id o between h).0).heap
unfolding registered
registered-AllBounded authenticate id none between h b = b
registered-AllBounded authenticate id (some a) between h b =
    found-AllBounded authenticate id a (lookup a between.heap) h b

step-AllBounded : (h : Hub) (c : Call) → AllBounded h.heap → AllBounded (step h c).heap
unfolding step current expire enter send receive complete leave close remove
step-AllBounded h (opens id secret caps) b = open_session-AllBounded id secret caps h b
step-AllBounded h (removes a) b = remove-AllBounded a (lookup a h.heap) h b
step-AllBounded h closes b = cancel_all-AllBounded h.sessions h.heap b
step-AllBounded h (expires a) b = cancel_at-AllBounded a h.heap b
step-AllBounded h (asks authenticate id before between) b =
    registered-AllBounded authenticate id (lookup id before.sessions) between h b
step-AllBounded h (enters a) b = update-AllBounded _ a h.heap (enter_session-bounds _) b
step-AllBounded h (sends a c) b = update-AllBounded _ a h.heap (send_session-bounds c) b
step-AllBounded h (receives a) b =
    update-AllBounded receive_session a h.heap (λ s (p, c). take_command-bounds s.commands s c p c)
      b
step-AllBounded h (completes a n result) b =
    update-AllBounded _ a h.heap
      (λ s (p, c). (answer-bounds n result (lookup n s.pending) s.pending refl p, c)) b
step-AllBounded h (leaves a n) b =
    update-AllBounded _ a h.heap (λ s (p, c). (omega (arith, length-erase n s.pending), c)) b

run_from-AllBounded :
    (h : Hub) (calls : List Call) → AllBounded h.heap → AllBounded (run h calls).heap
unfolding run
run_from-AllBounded h [] b = b
run_from-AllBounded h (c ∷ calls) b = run_from-AllBounded (step h c) calls (step-AllBounded h c b)

-- After any calls on a new hub, in any order, every session has at most 32 waiting requests and at
-- most 64 commands in its channel.
pub run-AllBounded : (calls : List Call) → AllBounded (run new calls).heap
unfolding new lookup
run-AllBounded calls = run_from-AllBounded new calls (λ a. tt)
