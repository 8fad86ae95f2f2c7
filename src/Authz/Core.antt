-- ===== src/Authz/Core.antt =====
-- sdk/authzcore/authzcore.go. A Go set, `map[string]struct{}`, is the list of its elements.
pub mod Decision
pub mod Rule
mod Tests
use fp.Common.{
  String, Bool, true, false, ◌||◌, ◌&&◌, not, List, [], ◌∷◌, ◌++◌, Option, none, some, ◌==◌,
  if◌then◌else◌,
}
use Prim.Native.String.{◌++◌ as append}
use fp.Common.Lists.{contains}
use fp.Common.GoMap.{GoMap, lookup, insert}

pub record RolePolicy : Type 0 where
  pub role_key : String
  pub allow : List String
  pub deny : List String

abbrev pub guest_role_key : String
guest_role_key = "GUEST"

abbrev pub admin_role_key : String
admin_role_key = "ADMIN"

unfoldable pub is_builtin_role : String → Bool
is_builtin_role code = code == guest_role_key || code == admin_role_key

-- The loop returns at the first ADMIN.
unfoldable pub has_admin : List String → Bool
has_admin [] = false
has_admin (k ∷ ks) = if k == admin_role_key then true else has_admin ks

unfoldable pub permission_key : String → String → String
permission_key method pattern = append (append method ":") pattern

pub record RoleSets : Type 0 where
  pub allow : List String
  pub deny : List String

-- `s[a] = struct{}{}` on a set.
unfoldable pub set_add : List String → String → List String
set_add s a = if contains s a then s else a ∷ s

unfoldable pub add_all : List String → List String → List String
unfolding set_add
add_all s [] = s
add_all s (a ∷ as') = add_all (set_add s a) as'

abbrev pub Snapshot : Type 0
Snapshot = GoMap RoleSets

-- `sets, ok := s.roles[k]`, with fresh sets if there are none.
unfoldable pub sets_at : Snapshot → String → RoleSets
sets_at roles k = elim (lookup k roles) [ some s ↦ s | none ↦ record { allow = []; deny = [] } ]

-- The two inner loops, over `rp.Allow` and `rp.Deny`.
unfoldable pub extend : RoleSets → RolePolicy → RoleSets
extend sets rp = record { allow = add_all sets.allow rp.allow; deny = add_all sets.deny rp.deny }

-- One round of the loop of `Compile`: the sets that stand under the key already are extended.
unfoldable pub compile_step : Snapshot → RolePolicy → Snapshot
unfolding sets_at extend
compile_step roles rp = insert rp.role_key (extend (sets_at roles rp.role_key) rp) roles

unfoldable pub compile_from : Snapshot → List RolePolicy → Snapshot
compile_from roles [] = roles
compile_from roles (rp ∷ rps) = compile_from (compile_step roles rp) rps

unfoldable pub compile : List RolePolicy → Snapshot
compile rps = compile_from [] rps

-- The closure `check` of `AllowWith`, with the captured `allowed` passed along. The first
-- component is its result, `denied`.
unfoldable pub check : Snapshot → String → Bool → String → Bool × Bool
check roles permission allowed k = elim (lookup k roles) [
  | none ↦ (false, allowed)
  | some sets ↦
      if contains sets.deny permission
      then (true, allowed)
      else (false, if contains sets.allow permission then true else allowed)
]

-- The loop over the held roles: `none` is the early `return false`.
unfoldable pub check_all : Snapshot → String → Bool → List String → Option Bool
check_all roles permission allowed [] = some allowed
check_all roles permission allowed (k ∷ ks) =
    let (denied, allowed') = check roles permission allowed k in
    let rest = check_all roles permission allowed' ks in if denied then none else rest

-- What follows the loop: the extra role, unless it is the empty string.
unfoldable pub check_extra : Snapshot → String → String → Bool → Bool
check_extra roles extra permission allowed =
    let (denied, allowed') = check roles permission allowed extra in
    if extra == "" then allowed else if denied then false else allowed'

-- `AllowWith`; a nil snapshot is `none`.
unfoldable pub allow_with : Option Snapshot → List String → String → String → Bool
allow_with snapshot role_keys extra permission =
    if has_admin role_keys then true else elim snapshot [
      | none ↦ false
      | some roles ↦ elim (check_all roles permission false role_keys) [
        | none ↦ false
        | some allowed ↦ check_extra roles extra permission allowed
      ]
    ]

-- `(*Snapshot).Allow`
unfoldable pub snapshot_allow : Option Snapshot → List String → String → Bool
snapshot_allow snapshot role_keys permission = allow_with snapshot role_keys "" permission

-- `Allow`
unfoldable pub allow : List RolePolicy → List String → String → Bool
allow roles role_keys permission = snapshot_allow (some (compile roles)) role_keys permission
