-- ===== src/StoredRules/Mounts.antt =====
-- internal/store/alert/alert_mounts.go: the mounts of rules on servers, one for each rule and server.
use ithiltir.Shared.{Bool, true, false, not, ◌&&◌, ◌||◌, List, [], ◌∷◌, ◌++◌, map}
use ithiltir.Shared.Tests.{◌==◌, if◌then◌else◌}
use ithiltir.Shared.Int.{ℤ, pos, int_eq}
use ithiltir.Shared.Time.{Time}
use ithiltir.Outbox.{update_where, exists, filter}
use ithiltir.StoredRules.{RuleMount, Outcome, done, refused, ◌>>=◌}

abbrev pub is_mount_of : ℤ → ℤ → RuleMount → Bool
is_mount_of rule_id server_id m = m.rule_id == rule_id && m.server_id == server_id

abbrev pub new_mount : Bool → Time → ℤ → ℤ → RuleMount
new_mount enabled now rule_id server_id = record {
  rule_id = rule_id;
  server_id = server_id;
  enabled = enabled;
  created_at = now;
  updated_at = now;
}

-- The mounts of every rule on every server.
unfoldable pub mounts_of : Bool → Time → List ℤ → List ℤ → List RuleMount
mounts_of enabled now [] server_ids = []
mounts_of enabled now (rule_id ∷ rule_ids) server_ids =
    map (new_mount enabled now rule_id) server_ids ++ mounts_of enabled now rule_ids server_ids

unfoldable pub put_mount : RuleMount → List RuleMount → List RuleMount
put_mount m mounts =
    if exists (is_mount_of m.rule_id m.server_id) mounts
    then update_where (is_mount_of m.rule_id m.server_id)
        (λ (old : RuleMount). record old { enabled = m.enabled; updated_at = m.updated_at }) mounts
    else mounts ++ m ∷ []

unfoldable pub put_mounts : List RuleMount → List RuleMount → List RuleMount
put_mounts [] mounts = mounts
put_mounts (m ∷ ms) mounts = put_mounts ms (put_mount m mounts)

-- One INSERT must not name a mount twice.
unfoldable pub has_twice : List RuleMount → Bool
has_twice [] = false
has_twice (m ∷ ms) = exists (is_mount_of m.rule_id m.server_id) ms || has_twice ms

-- A mount needs a rule's number and a server; `is_server` tells which servers there are.
unfoldable pub breaks_constraint : (ℤ → Bool) → RuleMount → Bool
breaks_constraint is_server m = m.rule_id == pos 0 || not (is_server m.server_id)

unfoldable pub write_mounts :
    (ℤ → Bool) → List RuleMount → List RuleMount → Outcome (List RuleMount)
unfolding has_twice breaks_constraint put_mounts
write_mounts is_server rows mounts =
    if has_twice rows || exists (breaks_constraint is_server) rows
    then refused
    else done (put_mounts rows mounts)

abbrev pub names_none {ℓ} : {A : Type ℓ} → List A → Bool
names_none [] = true
names_none (a ∷ rest) = false

-- With the servers that are marked for the service (MarkServerDirty), in their order.
unfoldable pub set_rule_mounts :
    (ℤ → Bool) → List ℤ → List ℤ → Bool → Time → List RuleMount → Outcome (List RuleMount × List ℤ)
unfolding mounts_of write_mounts
set_rule_mounts is_server rule_ids server_ids enabled now mounts =
    if names_none rule_ids || names_none server_ids then done (mounts, []) else do
      kept ← write_mounts is_server (mounts_of enabled now rule_ids server_ids) mounts
      done (kept, server_ids)

-- The rules that are mounted on a server, with their switches.
unfoldable pub rule_mounts_for_server : ℤ → List RuleMount → List (ℤ × Bool)
rule_mounts_for_server id mounts =
    map (λ (m : RuleMount). (m.rule_id, m.enabled))
      (filter (λ (m : RuleMount). m.server_id == id) mounts)
