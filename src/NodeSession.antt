-- ===== src/NodeSession.antt =====
-- internal/nodesession/hub.go: the sessions that nodes have opened. A session is the record at its
-- address, since the hub compares sessions as pointers; `cancelled` says that its context is done. A
-- method is a step under the mutex that it holds; History is its steps: `enter` registers a request,
-- `send` tries to put a command into the channel, `leave` is the deferred deletion.
pub mod Registry
pub mod Calls
pub mod Runs
pub mod Capacity
mod Tests
use ithiltir.Shared.{
  ℕ, zero, suc, ◌+◌, ◌%◌, ◌^◌, Bool, true, false, not, ◌&&◌, ◌||◌, Option, none, some, List, [],
  ◌∷◌, ◌++◌,
}
use ithiltir.Shared.Tests.{◌==◌, ltb, leb, if◌then◌else◌, nat_eq}
use ithiltir.Shared.Lists.{length}
use ithiltir.Shared.Maps.{lookup, insert, erase}
use ithiltir.Shared.Int.{ℤ, int_eq}
use ithiltir.Shared.Text.{Text}

pub record Capabilities : Type 0 where
  pub connected : Bool
  pub pve_history : Bool
  pub version : Text
  pub helper_version : Text

-- A query to answer, or one that is given up.
pub data Command : Type 0 where
  query cancel : ℕ → Command

-- `pending` has the request numbers, each with its channel of capacity one.
pub record Session : Type 0 where
  pub id : ℤ
  pub secret : Text
  pub caps : Capabilities
  pub cancelled : Bool
  pub commands : List Command
  pub pending : List (ℕ × Option Text)

-- The heap of all sessions, and the address that is used next.
pub record Hub : Type 0 where
  pub sessions : List (ℤ × ℕ)
  pub heap : List (ℕ × Session)
  pub fresh : ℕ
  pub next : ℕ
  pub closed : Bool

pub data Failure : Type 0 where
  offline unsupported busy : Failure

unfoldable pub new : Hub
new = record { sessions = []; heap = []; fresh = 0; next = 0; closed = false }

abbrev pub change :
    (Session → Session) → ℕ → Option Session → List (ℕ × Session) → List (ℕ × Session)
change f a none heap = heap
change f a (some s) heap = insert a (f s) heap

-- Changes the session at an address.
unfoldable pub update : (Session → Session) → ℕ → List (ℕ × Session) → List (ℕ × Session)
update f a heap = change f a (lookup a heap) heap

abbrev pub cancel_session : Session → Session
cancel_session s = record s { cancelled = true }

unfoldable pub cancel_at : ℕ → List (ℕ × Session) → List (ℕ × Session)
unfolding update
cancel_at a heap = update cancel_session a heap

abbrev pub cancel_previous : Option ℕ → List (ℕ × Session) → List (ℕ × Session)
cancel_previous none heap = heap
cancel_previous (some a) heap = cancel_at a heap

abbrev pub opened : ℤ → Text → Capabilities → Session
opened id secret caps = record {
  id = id;
  secret = secret;
  caps = record caps { connected = true };
  cancelled = false;
  commands = [];
  pending = [];
}

-- Open, whose session stands at `fresh`.
unfoldable pub open_session : ℤ → Text → Capabilities → Hub → Hub
open_session id secret caps h =
    if h.closed
    then record h {
      heap = insert h.fresh (cancel_session (opened id secret caps)) h.heap;
      fresh = suc h.fresh;
    }
    else record h {
      sessions = insert id h.fresh h.sessions;
      heap = insert h.fresh (opened id secret caps) (cancel_previous (lookup id h.sessions) h.heap);
      fresh = suc h.fresh;
    }

abbrev pub is_at : ℕ → Option ℕ → Bool
is_at a none = false
is_at a (some b) = a == b

remove_session : ℕ → Option Session → Hub → Hub
unfolding cancel_at
remove_session a none h = h
remove_session a (some s) h = record h {
  heap = cancel_at a h.heap;
  sessions = if is_at a (lookup s.id h.sessions) then erase s.id h.sessions else h.sessions;
}

unfoldable pub remove : ℕ → Hub → Hub
unfolding remove_session
remove a h = remove_session a (lookup a h.heap) h

-- The loop of Close.
unfoldable pub cancel_all : List (ℤ × ℕ) → List (ℕ × Session) → List (ℕ × Session)
cancel_all [] heap = heap
cancel_all ((id, a) ∷ sessions) heap = cancel_at a (cancel_all sessions heap)

unfoldable pub close : Hub → Hub
close h = record h { closed = true; heap = cancel_all h.sessions h.heap; sessions = [] }

-- The context of a session ends from outside.
unfoldable pub expire : ℕ → Hub → Hub
expire a h = record h { heap = cancel_at a h.heap }

-- `current` holds the mutex only while it reads the registered session. It looks at the context of
-- that session later, and removes it later still, after it has asked for the server of its secret:
-- `authenticate` gives that, or none where it meets an error. So the hub is taken at three moments,
-- `before`, `between` and `after`; other calls may change it from one to the next. The result is the hub
-- after the last, and the address and the session.
authenticated : ℤ → ℕ → Session → Option ℤ → Hub → Hub × Option (ℕ × Session)
authenticated id a s none h = (remove a h, none)
authenticated id a s (some server) h = if server == id then (h, some (a, s)) else (remove a h, none)

found : (Text → Option ℤ) → ℤ → ℕ → Option Session → Hub → Hub × Option (ℕ × Session)
unfolding authenticated
found authenticate id a none h = (h, none)
found authenticate id a (some s) h =
    if s.cancelled then (h, none) else authenticated id a s (authenticate s.secret) h

registered : (Text → Option ℤ) → ℤ → Option ℕ → Hub → Hub → Hub × Option (ℕ × Session)
unfolding found
registered authenticate id none between after = (after, none)
registered authenticate id (some a) between after =
    found authenticate id a (lookup a between.heap) after

unfoldable pub current : (Text → Option ℤ) → ℤ → Hub → Hub → Hub → Hub × Option (ℕ × Session)
unfolding registered
current authenticate id before between after =
    registered authenticate id (lookup id before.sessions) between after

abbrev pub no_capabilities : Capabilities
no_capabilities = record {
  connected = false;
  pve_history = false;
  version = [];
  helper_version = [];
}

abbrev pub caps_of : Option (ℕ × Session) → Capabilities
caps_of none = no_capabilities
caps_of (some (a, s)) = s.caps

unfoldable pub capabilities : (Text → Option ℤ) → ℤ → Hub → Hub → Hub → Capabilities
capabilities authenticate id before between after =
    caps_of ((current authenticate id before between after).1)

abbrev pub max_pending : ℕ
max_pending = 32

abbrev pub max_commands : ℕ
max_commands = 64

abbrev pub enter_session : ℕ → Session → Session
enter_session n s =
    if leb max_pending (length s.pending) then s else record s { pending = insert n none s.pending }

-- A request is numbered, and registered at a session if there is room.
unfoldable pub enter : ℕ → Hub → Hub
enter a h =
    let n = suc h.next % 2 ^ 64 in record h { next = n; heap = update (enter_session n) a h.heap }

abbrev pub send_session : Command → Session → Session
send_session c s =
    if ltb (length s.commands) max_commands then record s { commands = s.commands ++ c ∷ [] } else s

-- A command is sent where the channel has room.
unfoldable pub send : ℕ → Command → Hub → Hub
send a c h = record h { heap = update (send_session c) a h.heap }

abbrev pub take_command : List Command → Session → Session
take_command [] s = s
take_command (c ∷ commands) s = record s { commands = commands }

abbrev pub receive_session : Session → Session
receive_session s = take_command s.commands s

-- The reader of Commands takes one.
unfoldable pub receive : ℕ → Hub → Hub
receive a h = record h { heap = update receive_session a h.heap }

abbrev pub answer :
    ℕ → Text → Option (Option Text) → List (ℕ × Option Text) → List (ℕ × Option Text)
answer n result none pending = pending
answer n result (some (some old)) pending = pending
answer n result (some none) pending = insert n (some result) pending

-- Complete: a result for a request that is registered and has none yet.
unfoldable pub complete : ℕ → ℕ → Text → Hub → Hub
complete a n result h = record h {
  heap =
      update (λ s. record s { pending = answer n result (lookup n s.pending) s.pending }) a h.heap;
}

unfoldable pub leave : ℕ → ℕ → Hub → Hub
leave a n h = record h { heap = update (λ s. record s { pending = erase n s.pending }) a h.heap }
