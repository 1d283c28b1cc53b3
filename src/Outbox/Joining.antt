-- ===== src/Outbox/Joining.antt =====
-- What a batch takes together with its first row.
use mathlib.Core.Path.{subst}
use ithiltir.Shared.{
  ℕ, suc, zero, ◌≡◌, ◌≢◌, refl, ap, sym, ◌∙◌, inl, inr, Bool, true, false, ◌&&◌, Option, none, some,
  List, [], ◌∷◌, ◌++◌, map, arith,
}
use ithiltir.Shared.Tests.{◌==◌, if◌then◌else◌, Bool-cases, nat_eq, ltb}
use ithiltir.Shared.Lists.{All, contains, contains-All, take}
use ithiltir.Shared.Int.{ℤ, int_eq, int_eqb_iff, ltb_ℤ}
use ithiltir.Shared.Text.{Text, codes, text_eq}
use ithiltir.Shared.Time.{Time}
use ithiltir.Alert.Retry.{OutboxStatus, pending, sending, sent, retry, blocked}
use ithiltir.Outbox.{Row, Payload, status_eq, status_eqb, status_eqb_iff, rank}
use ithiltir.Outbox.Take.{
  joins, put_by_id, order_by_id, candidates, join_row, joined, batch_of, ids_of,
}
use ithiltir.Outbox.Rows.{Steps, Each, Steps-then, is_final, In, same_row, AreApart, subjects}
use ithiltir.Outbox.Taking.{filter-All, IsTakeable, not_sent, unsent}

-- What a batch takes together with its first row.
take-All : (P : Row → Type 0) (n : ℕ) (rows : List Row) → All P rows → All P (take n rows)
take-All P zero rows h = tt
take-All P (suc n) [] h = tt
take-All P (suc n) (r ∷ rows) h = (h.0, take-All P n rows h.1)

put_by_id-All :
    (P : Row → Type 0) (r : Row) (rows : List Row) → P r → All P rows → All P (put_by_id r rows)
put_by_id-All P r [] h k = (h, tt)
put_by_id-All P r (t ∷ rows) h k = elim (Bool-cases (ltb_ℤ r.id t.id)) [
  | inl e ↦ rw e (h, k)
  | inr e ↦ rw e (k.0, put_by_id-All P r rows h k.1)
]

order_by_id-All : (P : Row → Type 0) (rows : List Row) → All P rows → All P (order_by_id rows)
order_by_id-All P [] h = tt
order_by_id-All P (r ∷ rows) h = put_by_id-All P r _ h.0 (order_by_id-All P rows h.1)

pub candidates-All :
    (now : Time) (rows : List Row) (first : Row)
    → All (λ r. In r rows × (joins now rows first r ≡ true)) (candidates now rows first)
unfolding candidates
candidates-All now rows first =
    take-All _ 99 _
      (order_by_id-All _ _ (filter-All _ (joins now rows first) rows (λ r m e. (m, e))))

module _ (units : List Payload → ℕ) (P : Row → Type 0) (id : ℤ) where
  abbrev From : List Row → Type 0
  From batch = contains id (ids_of batch) ≡ true → (r : Row) × P r × (r.id ≡ id)

  join_row-From :
      (kind : Text) (messages : List Payload) (r : Row) (o : Option Payload)
      (rest : List Payload → List Row)
      → P r
      → ((more : List Payload) → From (rest more))
      → From (join_row units kind messages r o rest)
  unfolding join_row
  join_row-From kind messages r none rest h k = λ e. absurd cc
  join_row-From kind messages r (some payload) rest h k =
      go (kind == codes "telegram" && ltb 4096 (units (messages ++ payload ∷ [])))
    where
      go :
          (b : Bool)
          → From (if b then [] else record r { status = sending } ∷ rest (messages ++ payload ∷ []))
      go true e = absurd cc
      go false e = elim (Bool-cases (id == r.id)) [
        | inl q ↦ (r, h, sym ((int_eqb_iff id r.id).0 q))
        | inr q ↦ k (messages ++ payload ∷ []) (rw q at e)
      ]

  joined-From :
      (kind : Text) (messages : List Payload) (rows : List Row)
      → All P rows
      → From (joined units kind messages rows)
  unfolding joined
  joined-From kind messages [] h = λ e. absurd cc
  joined-From kind messages (r ∷ rows) h =
      join_row-From kind messages r r.payload _ h.0 (λ more. joined-From kind more rows h.1)

  batch_of-From :
      (first : Row) (o : Option Payload) (now : Time) (rows : List Row)
      → All P (candidates now rows first)
      → From (batch_of units first o now rows)
  unfolding batch_of
  batch_of-From first none now rows h = λ e. absurd cc
  batch_of-From first (some payload) now rows h =
      joined-From first.channel_type (payload ∷ []) (candidates now rows first) h

joins_facts :
    (now : Time) (rows : List Row) (first r : Row)
    → joins now rows first r ≡ true
    → (contains r.status (pending ∷ retry ∷ sending ∷ []) ≡ true) × (r.is_probe ≡ false)
joins_facts now rows first r h = (ground arith, ground arith)

abbrev IsJoinable : OutboxStatus → Type 0
IsJoinable s = IsTakeable s × ((s == blocked) ≡ false)

joinable : (s : OutboxStatus) → contains s (pending ∷ retry ∷ sending ∷ []) ≡ true → IsJoinable s
unfolding status_eqb rank
joinable s =
    contains-All IsJoinable s (pending ∷ retry ∷ sending ∷ [])
      (((refl, refl), refl), (((refl, refl), refl), (((refl, refl), refl), tt)))

pub joins-Steps :
    (now : Time) (rows : List Row) (first r : Row)
    → joins now rows first r ≡ true
    → Steps r (record r { status = sending; next_attempt_at = now })
joins-Steps now rows first r h =
    let (m, unprobed) = joins_facts now rows first r h in
    let ((moves, onward), unblocked) = joinable r.status m in
    record {
      same = refl;
      moves = inr moves;
      stays = λ f. cc;
      sound = λ v. record {
        probes = λ p. refl;
        counted = λ n. elim (v.counted n) [
          | inl b ↦ let e = (status_eqb_iff r.status blocked).1 b in cc
          | inr p ↦ cc
        ];
        dated = v.dated ∙ not_sent r.status onward ∙ unsent;
      };
    }

sending_open : is_final sending ≡ false
unfolding status_eqb rank
sending_open = refl

pub still_sending-Steps :
    (now : Time) (r t : Row)
    → Steps r t
    → t.status ≡ sending
    → Steps r (record t { status = sending; next_attempt_at = now })
still_sending-Steps now r t h e =
    Steps-then r t _ h refl (sym e) (λ f. absurd (closed f))
      (λ v. record {
        probes = λ p. refl;
        counted = λ n. elim (v.counted n) [ inl b ↦ absurd (other b) | inr p ↦ inr p ];
        dated = v.dated ∙ ap (λ s. s == sent) e;
      })
  where
    closed : is_final t.status ≢ true
    closed f =
        let q : is_final sending ≡ true = subst (λ s. is_final s ≡ true) e f in
        let k = sending_open in cc

    other : t.status ≢ blocked
    other b = cc

pub In-map : (g : Row → Row) (r : Row) (rows : List Row) → In r rows → In (g r) (map g rows)
In-map g r (t ∷ rows) (inl e) = inl (ap g e)
In-map g r (t ∷ rows) (inr m) = inr (In-map g r rows m)
In-map g r [] m = absurd m

-- The claiming of a batch, in the table that the first taking has left.
module _ (units : List Payload → ℕ) (now : Time) (rows next : List Row) (first : Row) where
  abbrev pub batch_ids : Row → Bool
  batch_ids t = contains t.id (ids_of (batch_of units first first.payload now next))

  pub joins-from :
      (t : Row)
      → AreApart (subjects next)
      → In t next
      → batch_ids t ≡ true
      → joins now next first t ≡ true
  joins-from t v m e =
      let (r, (n, j), q) =
        batch_of-From units (λ r. In r next × (joins now next first r ≡ true)) t.id first
          first.payload now next (candidates-All now next first) e in
      subst (λ x. joins now next first x ≡ true) (same_row next r t v n m q) j

pub Each-map-map-In :
    (g h : Row → Row) (rows : List Row)
    → ((r : Row) → In r rows → Steps r (h (g r)))
    → Each rows (map h (map g rows))
Each-map-map-In g h [] k = tt
Each-map-map-In g h (r ∷ rows) k = (k r (inl refl), Each-map-map-In g h rows (λ t m. k t (inr m)))
