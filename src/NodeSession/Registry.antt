-- ===== src/NodeSession/Registry.antt =====
-- Which sessions are live.
use ithiltir.Shared.{
  ℕ, ◌<◌, ◌≡◌, refl, ◌⊎◌, inl, inr, Bool, true, false, Option, none, some, List, [], arith,
}
use ithiltir.Shared.Tests.{◌==◌, if◌then◌else◌, Bool-cases, nat_eq, nat_eqb_iff}
use ithiltir.Shared.Maps.{lookup, erase, lookup-insert, lookup-erase}
use ithiltir.Shared.Int.{ℤ, int_eq, int_eqb_iff}
use ithiltir.NodeSession.{
  Session, Hub, change, update, cancel_session, cancel_at, is_at, remove_session, remove,
}

abbrev pub mapped : (Session → Session) → Option Session → Option Session
mapped f none = none
mapped f (some s) = some (f s)

lookup-change :
    (f : Session → Session) (a b : ℕ) (o : Option Session) (heap : List (ℕ × Session))
    → lookup a heap ≡ o
    → lookup b (change f a o heap) ≡ (if a == b then mapped f (lookup b heap) else lookup b heap)
lookup-change f a b none heap e = elim (Bool-cases (a == b)) [
  | inl p ↦ let same : a ≡ b = (nat_eqb_iff a b).0 p in rw (p, ← same, e) refl
  | inr p ↦ rw p refl
]
lookup-change f a b (some s) heap e =
    rw (lookup-insert a b (f s) heap) (elim (Bool-cases (a == b)) [
      | inl p ↦ let same : a ≡ b = (nat_eqb_iff a b).0 p in rw (p, ← same, e) refl
      | inr p ↦ rw p refl
    ])

pub lookup-update :
    (f : Session → Session) (a b : ℕ) (heap : List (ℕ × Session))
    → lookup b (update f a heap) ≡ (if a == b then mapped f (lookup b heap) else lookup b heap)
unfolding update
lookup-update f a b heap = lookup-change f a b (lookup a heap) heap refl

-- A change that leaves the node of a session, and does not revive it.
pub record IsMild (f : Session → Session) : Type 0 where
  pub same_id : (s : Session) → (f s).id ≡ s.id
  pub cancels : (s : Session) → ((f s).cancelled ≡ true) ⊎ ((f s).cancelled ≡ s.cancelled)

pub cancel_session-IsMild : IsMild cancel_session
cancel_session-IsMild = record { same_id = λ s. refl; cancels = λ s. inl refl }

-- A session is cancelled, or registered under its node.
abbrev pub Kept : List (ℤ × ℕ) → ℕ → Option Session → Type 0
Kept sessions a none = Unit
Kept sessions a (some s) = (s.cancelled ≡ true) ⊎ (lookup s.id sessions ≡ some a)

abbrev pub Used : ℕ → ℕ → Option Session → Type 0
Used fresh a none = Unit
Used fresh a (some s) = a < fresh

-- Every session that is not cancelled is the one that is registered under its node, so that a node has
-- one live session at most; a hub that is closed has none registered.
pub record Inv (h : Hub) : Type 0 where
  pub kept : (a : ℕ) → Kept h.sessions a (lookup a h.heap)
  pub used : (a : ℕ) → Used h.fresh a (lookup a h.heap)
  pub shut : (h.closed ≡ false) ⊎ (h.sessions ≡ [])

mapped-Kept :
    (f : Session → Session) (sessions : List (ℤ × ℕ)) (a : ℕ) (o : Option Session)
    → IsMild f
    → Kept sessions a o
    → Kept sessions a (mapped f o)
mapped-Kept f sessions a none m k = tt
mapped-Kept f sessions a (some s) m (inl k) = inl (ground (arith, m.cancels s))
mapped-Kept f sessions a (some s) m (inr k) = inr (rw (m.same_id s) k)

mapped-Used :
    (f : Session → Session) (fresh a : ℕ) (o : Option Session)
    → Used fresh a o
    → Used fresh a (mapped f o)
mapped-Used f fresh a none u = tt
mapped-Used f fresh a (some s) u = u

pub update-Kept :
    (f : Session → Session) (sessions : List (ℤ × ℕ)) (a b : ℕ) (heap : List (ℕ × Session))
    → IsMild f
    → Kept sessions b (lookup b heap)
    → Kept sessions b (lookup b (update f a heap))
update-Kept f sessions a b heap m k = rw (lookup-update f a b heap) (elim (Bool-cases (a == b)) [
  | inl e ↦ rw e (mapped-Kept f sessions b (lookup b heap) m k)
  | inr e ↦ rw e k
])

pub update-Used :
    (f : Session → Session) (fresh a b : ℕ) (heap : List (ℕ × Session))
    → Used fresh b (lookup b heap)
    → Used fresh b (lookup b (update f a heap))
update-Used f fresh a b heap u = rw (lookup-update f a b heap) (elim (Bool-cases (a == b)) [
  | inl e ↦ rw e (mapped-Used f fresh b (lookup b heap) u)
  | inr e ↦ rw e u
])

-- Mild changes of one session, by any method.
pub update-Inv :
    (f : Session → Session) (a n : ℕ) (h : Hub)
    → IsMild f
    → Inv h
    → Inv (record h { next = n; heap = update f a h.heap })
update-Inv f a n h m v = record {
  kept = λ b. update-Kept f h.sessions a b h.heap m (v.kept b);
  used = λ b. update-Used f h.fresh a b h.heap (v.used b);
  shut = v.shut;
}

-- After cancelling the session at an address, only the others have to be registered.
abbrev pub KeptBut : ℕ → List (ℤ × ℕ) → ℕ → Option Session → Type 0
KeptBut a sessions b none = Unit
KeptBut a sessions b (some s) =
    (s.cancelled ≡ true) ⊎ ((lookup s.id sessions ≡ some b) × ((a == b) ≡ false))

pub cancel_at-KeptBut :
    (sessions : List (ℤ × ℕ)) (a b : ℕ) (heap : List (ℕ × Session))
    → Kept sessions b (lookup b heap)
    → KeptBut a sessions b (lookup b (cancel_at a heap))
unfolding cancel_at
cancel_at-KeptBut sessions a b heap k =
    rw (lookup-update cancel_session a b heap) (go (a == b) (lookup b heap) refl k)
  where
    go :
        (c : Bool) (o : Option Session)
        → (a == b) ≡ c
        → Kept sessions b o
        → KeptBut a sessions b (if c then mapped cancel_session o else o)
    go true none e k = tt
    go true (some s) e k = inl refl
    go false none e k = tt
    go false (some s) e (inl k) = inl k
    go false (some s) e (inr k) = inr (k, e)

-- Removing the registration of that address.
erased-Kept :
    (a b : ℕ) (id : ℤ) (sessions : List (ℤ × ℕ)) (o : Option Session)
    → KeptBut a sessions b o
    → Kept (if is_at a (lookup id sessions) then erase id sessions else sessions) b o
erased-Kept a b id sessions none k = tt
erased-Kept a b id sessions (some s) (inl k) = inl k
erased-Kept a b id sessions (some s) (inr (k, n)) =
    inr (elim (Bool-cases (is_at a (lookup id sessions))) [
      | inl e ↦
          rw (e, lookup-erase id s.id sessions)
            (elim (Bool-cases (id == s.id)) [
              | inl p ↦
                  let same : id ≡ s.id = (int_eqb_iff id s.id).0 p in
                  absurd (cc (rw (same, k, n) at e))
              | inr p ↦ rw p k
            ])
      | inr e ↦ rw e k
    ])

remove_session-Inv : (a : ℕ) (o : Option Session) (h : Hub) → Inv h → Inv (remove_session a o h)
unfolding remove_session cancel_at lookup
remove_session-Inv a none h v = v
remove_session-Inv a (some s) h v = record {
  kept =
      λ b. erased-Kept a b s.id h.sessions _ (cancel_at-KeptBut h.sessions a b h.heap (v.kept b));
  used = λ b. update-Used cancel_session h.fresh a b h.heap (v.used b);
  shut = elim v.shut [ inl e ↦ inl e | inr e ↦ inr (rw e) ];
}

pub remove-Inv : (a : ℕ) (h : Hub) → Inv h → Inv (remove a h)
unfolding remove
remove-Inv a h v = remove_session-Inv a (lookup a h.heap) h v
