-- ===== src/Outbox/Lifecycle.antt =====
-- Every update that the store makes of a row follows the arrows.
use mathlib.Core.Path.{subst}
use ithiltir.Shared.{
  ℕ, ◌+◌, ◌≡◌, ◌≢◌, refl, sym, ap, ◌∙◌, inl, inr, Bool, true, false, not, List, [], ◌∷◌, arith,
}
use ithiltir.Shared.Tests.{◌==◌, if◌then◌else◌, Bool-cases, nat_eq}
use ithiltir.Shared.Lists.{All, contains, contains-All}
use ithiltir.Shared.Int.{int_eq}
use ithiltir.Shared.Text.{Text}
use ithiltir.Shared.Time.{Time}
use ithiltir.Alert.Retry.{OutboxStatus, pending, sending, sent, retry, blocked, paused, discarded}
use ithiltir.Outbox.{Row, status_eq, status_eqb_iff, status_eqb, rank}
use ithiltir.Outbox.Take.{is_some}
use ithiltir.Outbox.Sending.{StoredFailure, clear_probe, as_sent, as_released, as_retried}
use ithiltir.Outbox.Deliver.{as_woken}
use ithiltir.Outbox.Failures.{
  as_deleted, as_disabled, notification_failure_updates, counted_failure, as_coalesced,
}
use ithiltir.Outbox.Channels.{as_stopped, as_dropped}
use ithiltir.Outbox.Rows.{subject, IsSound, Steps, is_final, may_become}

not_final : (r : Row) → r.status ≡ sending → is_final r.status ≢ true
unfolding status_eqb rank
not_final r e h = let p : is_final sending ≡ true = subst (λ s. is_final s ≡ true) e h in cc

kept_date :
    (r : Row) (t : OutboxStatus)
    → r.status ≡ sending
    → (t == sent) ≡ false
    → IsSound r
    → is_some r.sent_at ≡ (t == sent)
unfolding status_eqb rank
kept_date r t e n v = v.dated ∙ ap (λ s. s == sent) e ∙ sym n

settled :
    (r t : Row)
    → r.status ≡ sending
    → subject t ≡ subject r
    → not (t.status == pending) ≡ true
    → t.is_probe ≡ false
    → (t.probe_count ≢ 0 → t.status ≡ blocked)
    → (IsSound r → is_some t.sent_at ≡ (t.status == sent))
    → Steps r t
settled r t e same begun clear counted dated = record {
  same = same;
  moves = inr (ap (λ s. may_become s t.status) e ∙ begun);
  stays = λ h. absurd (not_final r e h);
  sound = λ v. record { probes = λ h. cc; counted = λ h. inl (counted h); dated = dated v };
}

-- What ends a delivery.
abbrev pub Settles : (Row → Row) → Type 0
Settles u = (r : Row) → r.status ≡ sending → Steps r (clear_probe u r)

pub as_sent-Settles : (at : Time) → Settles (as_sent at)
unfolding status_eqb rank
as_sent-Settles at r e = settled r _ e refl refl refl (λ h. absurd (h refl)) (λ v. refl)

pub as_retried-Settles : (at : Time) → Settles (as_retried at)
unfolding status_eqb rank
as_retried-Settles at r e =
    settled r _ e refl refl refl (λ h. absurd (h refl)) (kept_date r retry e refl)

pub as_deleted-Settles : Settles as_deleted
unfolding status_eqb rank
as_deleted-Settles r e =
    settled r _ e refl refl refl (λ h. absurd (h refl)) (kept_date r discarded e refl)

pub as_disabled-Settles : Settles as_disabled
unfolding status_eqb rank
as_disabled-Settles r e =
    settled r _ e refl refl refl (λ h. absurd (h refl)) (kept_date r paused e refl)

released-Steps :
    (at : Time) (r : Row) (probe : Bool)
    → r.status ≡ sending
    → Steps r (clear_probe (λ t. as_released at (record t { is_probe = probe })) r)
unfolding status_eqb rank
released-Steps at r true e = settled r _ e refl refl refl (λ h. refl) (kept_date r blocked e refl)
released-Steps at r false e =
    settled r _ e refl refl refl (λ h. absurd (h refl)) (kept_date r retry e refl)

pub as_released-Settles : (at : Time) → Settles (as_released at)
as_released-Settles at r e = released-Steps at r r.is_probe e

pub failure_updates-Settles :
    (failure : StoredFailure) (status : OutboxStatus)
    → not (status == pending) ≡ true
    → (status == sent) ≡ false
    → (status == blocked) ≡ false
    → Settles (notification_failure_updates failure status)
unfolding notification_failure_updates
failure_updates-Settles failure status p q b r e =
    settled r _ e refl p refl (λ h. absurd (h (rw b refl))) (kept_date r status e q)

counted_only :
    (status : OutboxStatus) (n : ℕ) → (if status == blocked then n else 0) ≢ 0 → status ≡ blocked
counted_only status n h = elim (Bool-cases (status == blocked)) [
  | inl b ↦ (status_eqb_iff status blocked).0 b
  | inr b ↦ absurd (h (rw b refl))
]

pub counted_failure-Settles :
    (failure : StoredFailure) (status : OutboxStatus)
    → not (status == pending) ≡ true
    → (status == sent) ≡ false
    → Settles (counted_failure failure status)
unfolding counted_failure notification_failure_updates
counted_failure-Settles failure status p q r e =
    settled r _ e refl p refl (counted_only status (r.probe_count + 1)) (kept_date r status e q)

-- An arrow leads from each of the statuses to another.
abbrev pub LeadsTo : OutboxStatus → OutboxStatus → Type 0
LeadsTo t s = (may_become s t ≡ true) × (is_final s ≡ false)

abbrev pub Requeues : List OutboxStatus → (Row → Row) → Type 0
Requeues statuses u = (r : Row) → contains r.status statuses ≡ true → Steps r (u r)

not_sent : (s : OutboxStatus) → is_final s ≡ false → (s == sent) ≡ false
not_sent s h = ground arith

requeued :
    (r t : Row) (statuses : List OutboxStatus)
    → All (LeadsTo t.status) statuses
    → contains r.status statuses ≡ true
    → subject t ≡ subject r
    → t.is_probe ≡ false
    → t.probe_count ≡ 0
    → t.sent_at ≡ r.sent_at
    → (t.status == sent) ≡ false
    → Steps r t
requeued r t statuses all m same clear none_counted kept unsent =
    let (moves, onward) = contains-All (LeadsTo t.status) r.status statuses all m in
    record {
      same = same;
      moves = inr moves;
      stays = λ h. cc;
      sound = λ v. record {
        probes = λ h. cc;
        counted = λ h. absurd (h none_counted);
        dated = ap is_some kept ∙ v.dated ∙ not_sent r.status onward ∙ sym unsent;
      };
    }

pub as_woken-Requeues :
    (now : Time) (statuses : List OutboxStatus)
    → All (LeadsTo retry) statuses
    → Requeues statuses (as_woken now)
unfolding status_eqb rank
as_woken-Requeues now statuses all r m = requeued r _ statuses all m refl refl refl refl refl

pub as_coalesced-Requeues :
    (failure : StoredFailure) → Requeues (pending ∷ retry ∷ []) (as_coalesced failure)
unfolding status_eqb rank
as_coalesced-Requeues failure r m =
    requeued r _ (pending ∷ retry ∷ []) ((refl, refl), ((refl, refl), tt)) m refl refl refl refl
      refl

pub as_stopped-Requeues :
    (code : Text) → Requeues (pending ∷ retry ∷ blocked ∷ []) (as_stopped code)
unfolding status_eqb rank
as_stopped-Requeues code r m =
    requeued r _ (pending ∷ retry ∷ blocked ∷ []) ((refl, refl), ((refl, refl), ((refl, refl), tt)))
      m refl refl refl refl refl

pub as_dropped-Requeues :
    (code message : Text)
    → Requeues (pending ∷ retry ∷ blocked ∷ paused ∷ []) (as_dropped code message)
unfolding status_eqb rank
as_dropped-Requeues code message r m =
    requeued r _ (pending ∷ retry ∷ blocked ∷ paused ∷ [])
      ((refl, refl), ((refl, refl), ((refl, refl), ((refl, refl), tt)))) m refl refl refl refl refl
