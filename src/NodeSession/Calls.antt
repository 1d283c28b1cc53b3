-- ===== src/NodeSession/Calls.antt =====
-- The calls of the hub, in any order.
use ithiltir.Shared.{
  ℕ, suc, ◌≡◌, refl, ◌⊎◌, inl, inr, Bool, true, false, Option, none, some, List, [], ◌∷◌, arith,
}
use ithiltir.Shared.Tests.{◌==◌, if◌then◌else◌, Bool-cases, nat_eq, nat_eqb_iff}
use ithiltir.Shared.Maps.{lookup, insert, lookup-insert}
use ithiltir.Shared.Int.{ℤ, int_eq, int_eqb_iff}
use ithiltir.Shared.Text.{Text}
use ithiltir.NodeSession.{
  Session, Hub, Capabilities, cancel_session, cancel_at, cancel_previous, open_session, is_at,
  cancel_all, close,
}
use ithiltir.NodeSession.Registry.{
  mapped, lookup-update, Kept, Used, Inv, update-Used, KeptBut, cancel_at-KeptBut,
}

previous-KeptBut :
    (sessions : List (ℤ × ℕ)) (id : ℤ) (b : ℕ) (o : Option ℕ) (heap : List (ℕ × Session))
    (fresh : ℕ)
    → lookup id sessions ≡ o
    → Kept sessions b (lookup b heap)
    → (fresh == b) ≡ false
    → Kept (insert id fresh sessions) b (lookup b (cancel_previous o heap))
previous-KeptBut sessions id b none heap fresh e k n = go (lookup b heap) k
  where
    go : (o : Option Session) → Kept sessions b o → Kept (insert id fresh sessions) b o
    go none k = tt
    go (some s) (inl k) = inl k
    go (some s) (inr k) = inr (
        rw (lookup-insert id s.id fresh sessions) (elim (Bool-cases (id == s.id)) [
          | inl p ↦ let same : id ≡ s.id = (int_eqb_iff id s.id).0 p in absurd (cc (rw same at e))
          | inr p ↦ rw p k
        ]))
previous-KeptBut sessions id b (some a) heap fresh e k n =
    go (lookup b (cancel_at a heap)) (cancel_at-KeptBut sessions a b heap k)
  where
    go : (o : Option Session) → KeptBut a sessions b o → Kept (insert id fresh sessions) b o
    go none k = tt
    go (some s) (inl k) = inl k
    go (some s) (inr (k, q)) = inr (
        rw (lookup-insert id s.id fresh sessions) (elim (Bool-cases (id == s.id)) [
          | inl p ↦
              let same : id ≡ s.id = (int_eqb_iff id s.id).0 p in
              absurd (ground (arith, rw same at e, nat_eqb_iff a b))
          | inr p ↦ rw p k
        ]))

previous-Used :
    (fresh b : ℕ) (o : Option ℕ) (heap : List (ℕ × Session))
    → Used fresh b (lookup b heap)
    → Used fresh b (lookup b (cancel_previous o heap))
unfolding cancel_at
previous-Used fresh b none heap u = u
previous-Used fresh b (some a) heap u = update-Used cancel_session fresh a b heap u

Used-suc : (fresh b : ℕ) (o : Option Session) → Used fresh b o → Used (suc fresh) b o
Used-suc fresh b none u = tt
Used-suc fresh b (some s) u = omega (arith, u)

placed-Used :
    (fresh b : ℕ) (s : Session) (heap : List (ℕ × Session))
    → Used fresh b (lookup b heap)
    → Used (suc fresh) b (lookup b (insert fresh s heap))
placed-Used fresh b s heap u = rw (lookup-insert fresh b s heap) (elim (Bool-cases (fresh == b)) [
  | inl e ↦ rw e (ground (arith, nat_eqb_iff fresh b))
  | inr e ↦ rw e (Used-suc fresh b (lookup b heap) u)
])

placed-Kept :
    (sessions : List (ℤ × ℕ)) (fresh b : ℕ) (s : Session) (heap : List (ℕ × Session))
    → ((fresh ≡ b) → Kept sessions b (some s))
    → (((fresh == b) ≡ false) → Kept sessions b (lookup b heap))
    → Kept sessions b (lookup b (insert fresh s heap))
placed-Kept sessions fresh b s heap f g =
    rw (lookup-insert fresh b s heap) (elim (Bool-cases (fresh == b)) [
      | inl e ↦ rw e (f ((nat_eqb_iff fresh b).0 e))
      | inr e ↦ rw e (g e)
    ])

self-registered :
    (id : ℤ) (fresh b : ℕ) (sessions : List (ℤ × ℕ))
    → fresh ≡ b
    → lookup id (insert id fresh sessions) ≡ some b
self-registered id fresh b sessions e =
    rw (lookup-insert id id fresh sessions) (ground (arith, int_eqb_iff id id, e))

pub open_session-Inv :
    (id : ℤ) (secret : Text) (caps : Capabilities) (h : Hub)
    → Inv h
    → Inv (open_session id secret caps h)
unfolding open_session
open_session-Inv id secret caps h v = elim (Bool-cases h.closed) [
  | inl e ↦ rw e (record {
    kept = λ b. placed-Kept h.sessions h.fresh b _ h.heap (λ q. inl refl) (λ n. v.kept b);
    used = λ b. placed-Used h.fresh b _ h.heap (v.used b);
    shut = ground (arith, v.shut);
  })
  | inr e ↦ rw e (record {
    kept = λ b.
        placed-Kept (insert id h.fresh h.sessions) h.fresh b _ _
          (λ q. inr (self-registered id h.fresh b h.sessions q))
          (λ n.
            previous-KeptBut h.sessions id b (lookup id h.sessions) h.heap h.fresh refl (v.kept b)
              n);
    used = λ b.
        placed-Used h.fresh b _ _
          (previous-Used h.fresh b (lookup id h.sessions) h.heap (v.used b));
    shut = inl refl;
  })
]

-- What is live after the loop of Close over some entries.
abbrev Survives : List (ℤ × ℕ) → List (ℤ × ℕ) → ℕ → Option Session → Type 0
Survives all m b none = Unit
Survives all m b (some s) =
    (s.cancelled ≡ true) ⊎ ((lookup s.id all ≡ some b) × (is_at b (lookup s.id m) ≡ false))

cancel_all-Survives :
    (all m : List (ℤ × ℕ)) (b : ℕ) (heap : List (ℕ × Session))
    → Kept all b (lookup b heap)
    → Survives all m b (lookup b (cancel_all m heap))
unfolding cancel_all lookup cancel_at
cancel_all-Survives all [] b heap k = go (lookup b heap) k
  where
    go : (o : Option Session) → Kept all b o → Survives all [] b o
    go none k = tt
    go (some s) (inl k) = inl k
    go (some s) (inr k) = inr (k, refl)
cancel_all-Survives all ((id, a) ∷ m) b heap k =
    rw (lookup-update cancel_session a b (cancel_all m heap))
      (go (a == b) (lookup b (cancel_all m heap)) refl (cancel_all-Survives all m b heap k))
  where
    go :
        (c : Bool) (o : Option Session)
        → (a == b) ≡ c
        → Survives all m b o
        → Survives all ((id, a) ∷ m) b (if c then mapped cancel_session o else o)
    go true none e k = tt
    go true (some s) e k = inl refl
    go false none e k = tt
    go false (some s) e (inl k) = inl k
    go false (some s) e (inr (k, n)) =
        inr (k, ground (arith, e, n, nat_eqb_iff a b, nat_eqb_iff b a))

Survives-Kept :
    (all : List (ℤ × ℕ)) (b : ℕ) (o : Option Session) → Survives all all b o → Kept [] b o
Survives-Kept all b none k = tt
Survives-Kept all b (some s) (inl k) = inl k
Survives-Kept all b (some s) (inr (k, n)) = absurd (ground (arith, rw k at n, nat_eqb_iff b b))

cancel_all-Used :
    (m : List (ℤ × ℕ)) (fresh b : ℕ) (heap : List (ℕ × Session))
    → Used fresh b (lookup b heap)
    → Used fresh b (lookup b (cancel_all m heap))
unfolding cancel_all cancel_at
cancel_all-Used [] fresh b heap u = u
cancel_all-Used ((id, a) ∷ m) fresh b heap u =
    update-Used cancel_session fresh a b (cancel_all m heap) (cancel_all-Used m fresh b heap u)

pub close-Inv : (h : Hub) → Inv h → Inv (close h)
unfolding close
close-Inv h v = record {
  kept = λ b.
      Survives-Kept h.sessions b _ (cancel_all-Survives h.sessions h.sessions b h.heap (v.kept b));
  used = λ b. cancel_all-Used h.sessions h.fresh b h.heap (v.used b);
  shut = inr refl;
}
