-- ===== src/Authz/Policy.antt =====
-- internal/service/policy.go: the inheritance of permissions along the parents of a role, and the
-- policy table of one application. What the two SQL queries return is an argument: the rows of
-- `role` (`roleGraph`) and those of `role_permission` joined with `permission`.
pub mod Inherit
pub mod Table
mod Tests
use fp.Common.{
  String, ℕ, zero, suc, Bool, true, false, List, [], ◌∷◌, Option, none, some, ◌==◌, if◌then◌else◌,
}
use fp.Common.GoMap.{GoMap, lookup, insert}
use fp.Authz.Core.{RolePolicy}

abbrev pub effect_deny : String
effect_deny = "deny"

-- Effects by permission key.
abbrev pub Effects : Type 0
Effects = GoMap String

-- A row of `SELECT id, code, parent_id FROM role`.
pub record RoleRow : Type 0 where
  pub id : String
  pub code : String
  pub parent_id : Option String

-- A row of the query for the direct grants of one application.
pub record GrantRow : Type 0 where
  pub role_id : String
  pub key : String
  pub effect : String

-- `parents[*cur]`: nil for a missing role as for a role without a parent.
unfoldable pub parent_of : GoMap (Option String) → String → Option String
parent_of parents r = elim (lookup r parents) [ none ↦ none | some p ↦ p ]

-- `direct[*cur]`: a missing role has no grants.
unfoldable pub direct_of : GoMap Effects → String → Effects
direct_of direct r = elim (lookup r direct) [ none ↦ [] | some m ↦ m ]

-- The inner loop: an effect that is there already is kept.
unfoldable pub inherit_effects : Effects → Effects → Effects
inherit_effects out [] = out
inherit_effects out ((k, e) ∷ m) =
    let out' : Effects = elim (lookup k out) [ none ↦ insert k e out | some _ ↦ out ] in
    inherit_effects out' m

-- The loop over `depth`, with the rounds left.
unfoldable pub effective_loop :
    GoMap (Option String) → GoMap Effects → ℕ → Option String → Effects → Effects
effective_loop parents direct zero cur out = out
effective_loop parents direct (suc rounds) none out = out
effective_loop parents direct (suc rounds) (some r) out =
    effective_loop parents direct rounds (parent_of parents r)
      (inherit_effects out (direct_of direct r))

abbrev pub max_depth : ℕ
max_depth = 64

unfoldable pub effective_for : String → GoMap (Option String) → GoMap Effects → Effects
effective_for role_id parents direct = effective_loop parents direct max_depth (some role_id) []

-- The two maps of `roleGraph`.
unfoldable pub graph_parents : List RoleRow → GoMap (Option String) → GoMap (Option String)
graph_parents [] m = m
graph_parents (r ∷ rs) m = graph_parents rs (insert r.id r.parent_id m)

unfoldable pub graph_keys : List RoleRow → GoMap String → GoMap String
graph_keys [] m = m
graph_keys (r ∷ rs) m = graph_keys rs (insert r.id r.code m)

-- The loop over the rows of the direct grants.
unfoldable pub direct_grants : List GrantRow → GoMap Effects → GoMap Effects
direct_grants [] direct = direct
direct_grants (g ∷ gs) direct =
    direct_grants gs (insert g.role_id (insert g.key g.effect (direct_of direct g.role_id)) direct)

-- The split of one role's effects into the two lists of its policy entry.
unfoldable pub denies_of : Effects → List String
denies_of [] = []
denies_of ((pk, e) ∷ m) = if e == effect_deny then pk ∷ denies_of m else denies_of m

unfoldable pub allows_of : Effects → List String
allows_of [] = []
allows_of ((pk, e) ∷ m) = if e == effect_deny then allows_of m else pk ∷ allows_of m

-- The entry of one role in front of the others; a role with no effects has none.
unfoldable pub add_entry : String → Effects → List RolePolicy → List RolePolicy
add_entry key [] rest = rest
add_entry key (e ∷ m) rest =
    record { role_key = key; allow = allows_of (e ∷ m); deny = denies_of (e ∷ m) } ∷ rest

-- The loop over the roles.
unfoldable pub policy_entries :
    GoMap (Option String) → GoMap Effects → GoMap String → List RolePolicy
policy_entries parents direct [] = []
policy_entries parents direct ((role_id, key) ∷ ks) =
    add_entry key (effective_for role_id parents direct) (policy_entries parents direct ks)

unfoldable pub compile_policy : List RoleRow → List GrantRow → List RolePolicy
compile_policy roles grants =
    policy_entries (graph_parents roles []) (direct_grants grants []) (graph_keys roles [])
