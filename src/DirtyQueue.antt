-- ===== src/DirtyQueue.antt =====
-- internal/store/alert/dirty_queue.go: the queue of servers whose alerts have to be evaluated again.
-- Each method takes the queue and returns the new one, as it runs under `q.mu`. The channel `wakeup`
-- has room for one token, and is the flag that says if the token is there.
pub mod Invariant
pub mod Service
pub mod Exclusion
pub mod Lasting
pub mod Wakeup
mod Tests
use ithiltir.Shared.{
  ℕ, zero, suc, ◌+◌, ◌*◌, ◌-◌, Bool, true, false, ◌||◌, Option, none, some, List, [], ◌∷◌, ◌++◌,
}
use ithiltir.Shared.Tests.{ltb, leb, if◌then◌else◌}
use ithiltir.Shared.Lists.{length, drop, get_or, set}
use ithiltir.Shared.Maps.{lookup, insert, erase}
use ithiltir.Shared.Int.{ℤ, pos, leb_ℤ, int_eq}

-- `V` is the type of a node's snapshot.
pub record DirtyServerState (V : Type 0) : Type 0 where
  pub queued : Bool
  pub running : Bool
  pub dirty_again : Bool
  pub snapshot : Option V

pub record DirtyQueue (V : Type 0) : Type 0 where
  pub states : List (ℤ × DirtyServerState V)
  pub ready : List ℤ
  pub head : ℕ
  pub wakeup : Bool

module _ {V : Type 0} where
  unfoldable pub new_dirty_queue : DirtyQueue V
  new_dirty_queue = record { states = []; ready = []; head = 0; wakeup = false }

  unfoldable pub signal : DirtyQueue V → DirtyQueue V
  signal q = record q { wakeup = true }

  unfoldable pub compact : DirtyQueue V → DirtyQueue V
  compact q =
      if ltb q.head 256 || ltb (q.head * 2) (length q.ready)
      then q
      else record q { ready = drop q.head q.ready; head = 0 }

  -- The zero value that a missing key gives.
  abbrev pub zero_state : DirtyServerState V
  zero_state = record { queued = false; running = false; dirty_again = false; snapshot = none }

  abbrev pub with_snapshot : Option V → DirtyServerState V → DirtyServerState V
  with_snapshot none s = s
  with_snapshot (some v) s = record s { snapshot = some v }

  unfoldable pub put : ℤ → DirtyServerState V → DirtyQueue V → DirtyQueue V
  put id s q = record q { states = insert id s q.states }

  unfoldable pub push : ℤ → DirtyQueue V → DirtyQueue V
  push id q = record q { ready = q.ready ++ id ∷ [] }

  -- The `switch` of `mark`.
  mark_state : ℤ → Option V → Option (DirtyServerState V) → DirtyQueue V → DirtyQueue V
  unfolding signal put push
  mark_state id snapshot none q =
      signal (push id (put id (record (with_snapshot snapshot zero_state) { queued = true }) q))
  mark_state id snapshot (some s) q =
      let state = with_snapshot snapshot s in
      put id (if state.running then record state { dirty_again = true } else state) q

  unfoldable pub mark : ℤ → Option V → DirtyQueue V → DirtyQueue V
  unfolding mark_state
  mark id snapshot q = if leb_ℤ id (pos 0) then q else mark_state id snapshot (lookup id q.states) q

  -- The queue after `next` has taken its head for `id`, whose state is `s`.
  unfoldable pub take_ready : ℤ → DirtyServerState V → DirtyQueue V → DirtyQueue V
  unfolding compact put signal
  take_ready id s q =
      let t =
        compact (put id (record s { queued = false; running = true; dirty_again = false }) q) in
      if ltb t.head (length t.ready) then signal t else t

  -- `q.ready[q.head] = 0; q.head++`
  abbrev pub pop_head : DirtyQueue V → DirtyQueue V
  pop_head q = record q { ready = set q.ready q.head (pos 0); head = suc q.head }

  abbrev no_more : DirtyQueue V → DirtyQueue V × Option (ℤ × Option V)
  no_more q = (record q { ready = []; head = 0 }, none)

  -- The inner loop of `next`, on the entries that are left. `none` is the way to its `select`.
  scan : ℕ → DirtyQueue V → DirtyQueue V × Option (ℤ × Option V)
  unfolding take_ready
  scan zero q = no_more q
  scan (suc n) q =
      let id = get_or q.ready q.head (pos 0) in
      let rest = scan n (pop_head q) in
      if ltb q.head (length q.ready)
      then elim (lookup id q.states) [
        | none ↦ rest
        | some s ↦ if s.queued then (take_ready id s (pop_head q), some (id, s.snapshot)) else rest
      ]
      else no_more q

  -- One round of the loop of `next`, between two waits.
  unfoldable pub next_round : DirtyQueue V → DirtyQueue V × Option (ℤ × Option V)
  unfolding scan
  next_round q = scan (length q.ready - q.head) q

  -- `finish`, with the state that it reads.
  finish_state : ℤ → Bool → Option (DirtyServerState V) → DirtyQueue V → DirtyQueue V
  unfolding put push signal
  finish_state id retry none q = q
  finish_state id retry (some s) q =
      if s.running
      then (if retry || s.dirty_again
          then signal (
              push id (put id (record s { queued = true; running = false; dirty_again = false }) q))
          else record q { states = erase id q.states })
      else q

  unfoldable pub finish : ℤ → Bool → DirtyQueue V → DirtyQueue V
  unfolding finish_state
  finish id retry q = if leb_ℤ id (pos 0) then q else finish_state id retry (lookup id q.states) q
