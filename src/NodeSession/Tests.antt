-- ===== src/NodeSession/Tests.antt =====
-- The hub at concrete calls.
use ithiltir.Shared.{ℕ, ◌≡◌, refl, true, false, Option, none, some, List, [], ◌∷◌}
use ithiltir.Shared.Tests.{nat_eq}
use ithiltir.Shared.Maps.{lookup, insert}
use ithiltir.Shared.Int.{ℤ, pos, int_eq}
use ithiltir.Shared.Text.{Text, codes}
use ithiltir.NodeSession.{
  Hub, Session, Capabilities, new, open_session, close, enter, update, cancel_at, current,
  registered, found, authenticated,
}
use ithiltir.NodeSession.Runs.{Call, opens, closes, enters, run, step, Live, Live-unique, not-Live}
use ithiltir.NodeSession.Capacity.{AllBounded, run-AllBounded}

abbrev caps : Capabilities
caps = record {
  connected = false;
  pve_history = true;
  version = codes "1.2.0";
  helper_version = [];
}

-- A node opens a session twice, and a request enters the second one.
abbrev calls : List Call
calls = opens (pos 4) (codes "s1") caps ∷ opens (pos 4) (codes "s2") caps ∷ enters 1 ∷ []

abbrev hub : Hub
hub = run new calls

abbrev second : Session
second = record {
  id = pos 4;
  secret = codes "s2";
  caps = record caps { connected = true };
  cancelled = false;
  commands = [];
  pending = (1, none) ∷ [];
}

second-Live : Live hub 1 (pos 4)
unfolding run step open_session enter new update cancel_at lookup insert
second-Live = (second, refl, refl, refl)

abbrev address : ℕ
address = 1

Live-unique_example : address ≡ address
Live-unique_example = Live-unique calls 1 1 (pos 4) second-Live second-Live

shut : (run new (opens (pos 4) (codes "s1") caps ∷ closes ∷ [])).closed ≡ true
unfolding run step open_session new close
shut = refl

not-Live_example : ¬ Live (run new (opens (pos 4) (codes "s1") caps ∷ closes ∷ [])) 0 (pos 4)
not-Live_example = not-Live (opens (pos 4) (codes "s1") caps ∷ closes ∷ []) 0 (pos 4) shut

abbrev authenticate : Text → Option ℤ
authenticate secret = some (pos 4)

answered : (current authenticate (pos 4) hub hub hub).1 ≡ some (1, second)
unfolding current registered found authenticated run step open_session enter new update cancel_at
    lookup insert
answered = refl

run-AllBounded_example : AllBounded hub.heap
run-AllBounded_example = run-AllBounded calls
