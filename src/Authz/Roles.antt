-- ===== src/Authz/Roles.antt =====
-- internal/service/authz.go: the administration of roles. The SQL statements are translated to
-- operations on tables, with the constraints that they meet: `role.code` is unique, `parent_id`
-- refers to a role and becomes NULL when that role is deleted, `role_permission` is deleted with its
-- role. A statement that fails for another reason ends the operation before any change and is left
-- out, as are the times of changes, and so is the broadcast that follows a change.
pub mod Hierarchy
pub mod Removal
mod Tests
use fp.Common.{
  String, ℕ, zero, suc, Bool, true, false, not, ◌||◌, List, [], ◌∷◌, ◌++◌, Option, none, some, ◌==◌,
  nat_eq, if◌then◌else◌,
}
use fp.Common.Lists.{length, filter, contains}
use fp.Common.GoMap.{GoMap, lookup, insert, erase}
use fp.Authz.Core.{admin_role_key, is_builtin_role}
use fp.Authz.Policy.{GrantRow}
use fp.Errors.Codes.{Sentinel}
use fp.Errors.Transport.{GoError, domain, other, wrapped, fail}
use fp.Session.Monad.{Result, ok, err}

-- A row of `role` without its times.
pub record Role : Type 0 where
  pub id : String
  pub code : String
  pub name : String
  pub parent_id : Option String

-- The tables that the operations touch: roles by id, roles by user, the role keys of the access
-- keys, the default roles by application, and the grants.
pub record Tables : Type 0 where
  pub roles : GoMap Role
  pub user_roles : GoMap (List String)
  pub key_roles : List String
  pub default_roles : GoMap String
  pub grants : List GrantRow

abbrev pub invalid_argument : String → String → GoError
invalid_argument code msg = domain (fail Sentinel.invalid_argument code msg)

abbrev pub role_not_found : GoError
role_not_found = domain (fail Sentinel.not_found "ROLE_NOT_FOUND" "角色不存在")

abbrev no_such_parent : String → GoError
no_such_parent doing = wrapped doing (other "violates foreign key constraint")

-- `roleCodeByID`
unfoldable pub role_code_by_id : GoMap Role → String → Result String
role_code_by_id roles id = elim (lookup id roles) [ none ↦ err role_not_found | some r ↦ ok r.code ]

-- `checkParent`: a parent that is missing passes here.
unfoldable pub check_parent : GoMap Role → Option String → Option GoError
check_parent roles none = none
check_parent roles (some p) = elim (lookup p roles) [
  | none ↦ none
  | some r ↦
      if r.code == admin_role_key
      then some (invalid_argument "ROLE_BUILTIN" "内置角色 ADMIN 不能被继承")
      else none
]

unfoldable pub parent_missing : GoMap Role → Option String → Bool
parent_missing roles none = false
parent_missing roles (some p) = elim (lookup p roles) [ none ↦ true | some _ ↦ false ]

unfoldable pub code_taken : GoMap Role → String → Bool
code_taken [] code = false
code_taken ((_, r) ∷ rs) code = r.code == code || code_taken rs code

-- The INSERT of `CreateRole`.
unfoldable pub insert_role : Tables → Role → Result Role × Tables
insert_role t r =
    if code_taken t.roles r.code
    then (err (domain (fail Sentinel.conflict "ROLE_CODE_TAKEN" "角色已存在")), t)
    else if parent_missing t.roles r.parent_id
    then (err (no_such_parent "service: 创建角色"), t)
    else (ok r, record t { roles = insert r.id r t.roles })

-- `CreateRole`, with the id that the database makes.
unfoldable pub create_role :
    Tables → String → String → String → Option String → Result Role × Tables
create_role t id code name parent =
    if code == "" || name == ""
    then (err (invalid_argument "INVALID_ARGUMENT" "角色 code 与 name 不能为空"), t)
    else elim (check_parent t.roles parent) [
      | some e ↦ (err e, t)
      | none ↦ insert_role t (record { id = id; code = code; name = name; parent_id = parent })
    ]

-- The loop of `wouldCycle`, with the rounds left.
unfoldable pub cycle_loop : GoMap Role → String → ℕ → Option String → Bool
cycle_loop roles id zero cur = false
cycle_loop roles id (suc rounds) none = false
cycle_loop roles id (suc rounds) (some c) =
    let next : Option String = elim (lookup c roles) [ none ↦ none | some r ↦ r.parent_id ] in
    let rest = cycle_loop roles id rounds next in if c == id then true else rest

abbrev pub max_climb : ℕ
max_climb = 64

-- `wouldCycle`
unfoldable pub would_cycle : GoMap Role → String → String → Bool
would_cycle roles id parent = cycle_loop roles id max_climb (some parent)

-- The guards of `UpdateRole` on a new parent.
unfoldable pub check_new_parent : GoMap Role → String → Option String → Option GoError
check_new_parent roles id none = none
check_new_parent roles id (some p) = elim (role_code_by_id roles id) [
  | err e ↦ some e
  | ok code ↦
      if is_builtin_role code
      then some (invalid_argument "ROLE_BUILTIN" "内置角色不能设置父角色")
      else elim (check_parent roles (some p)) [
        | some e ↦ some e
        | none ↦
            if would_cycle roles id p then some (invalid_argument "ROLE_CYCLE" "角色继承会形成环") else none
      ]
]

-- The UPDATE.
unfoldable pub write_role : Tables → String → String → Option String → Result Role × Tables
write_role t id name parent = elim (lookup id t.roles) [
  | none ↦ (err role_not_found, t)
  | some old ↦
      let r : Role = record { id = id; code = old.code; name = name; parent_id = parent } in
      if parent_missing t.roles parent
      then (err (no_such_parent "service: 更新角色"), t)
      else (ok r, record t { roles = insert id r t.roles })
]

unfoldable pub is_own_parent : String → Option String → Bool
is_own_parent id none = false
is_own_parent id (some p) = p == id

-- `UpdateRole`
unfoldable pub update_role : Tables → String → String → Option String → Result Role × Tables
update_role t id name parent =
    if name == ""
    then (err (invalid_argument "INVALID_ARGUMENT" "角色 name 不能为空"), t)
    else if is_own_parent id parent
    then (err (invalid_argument "ROLE_CYCLE" "角色不能以自己为父角色"), t)
    else elim (check_new_parent t.roles id parent) [
      | some e ↦ (err e, t)
      | none ↦ write_role t id name parent
    ]

-- `ON DELETE SET NULL`
unfoldable pub orphan : String → GoMap Role → GoMap Role
orphan id [] = []
orphan id ((k, r) ∷ rs) =
    (k, if is_own_parent id r.parent_id then record r { parent_id = none } else r) ∷ orphan id rs

-- `array_remove` on the rows that have the code, which changes no other row.
unfoldable pub array_remove : String → List String → List String
array_remove code xs = filter (λ x. not (x == code)) xs

unfoldable pub strip_users : String → GoMap (List String) → GoMap (List String)
strip_users code [] = []
strip_users code ((u, xs) ∷ m) = (u, array_remove code xs) ∷ strip_users code m

unfoldable pub strip_defaults : String → GoMap String → GoMap String
strip_defaults code [] = []
strip_defaults code ((app, d) ∷ m) = (app, if d == code then "" else d) ∷ strip_defaults code m

-- The statements of `DeleteRole` after the guards.
unfoldable pub drop_role : Tables → String → String → Tables
drop_role t id code = record {
  roles = orphan id (erase id t.roles);
  user_roles = strip_users code t.user_roles;
  key_roles = t.key_roles;
  default_roles = strip_defaults code t.default_roles;
  grants = filter (λ g. not (g.role_id == id)) t.grants;
}

-- `DeleteRole`: the transaction makes all of the changes or none. The number of keys that the
-- refusal names is in its detail in the source.
unfoldable pub delete_role : Tables → String → Result (Unit {0}) × Tables
delete_role t id = elim (role_code_by_id t.roles id) [
  | err e ↦ (err e, t)
  | ok code ↦
      if is_builtin_role code
      then (err (invalid_argument "ROLE_BUILTIN" "内置角色不能删除"), t)
      else if contains t.key_roles code
      then (err (domain (fail Sentinel.conflict "ROLE_IN_USE" "有访问密钥绑定了该角色，请先改绑或删除这些密钥")), t)
      else (ok tt, drop_role t id code)
]

-- `dedup`, with what was seen.
unfoldable pub dedup_from : List String → List String → List String
dedup_from seen [] = []
dedup_from seen (s ∷ ss) =
    let skip = dedup_from seen ss in
    let keep = dedup_from (s ∷ seen) ss in if s == "" || contains seen s then skip else s ∷ keep

unfoldable pub dedup : List String → List String
dedup xs = dedup_from [] xs

-- `UserRoles` and `EffectiveRoles`
unfoldable pub user_roles_of : Tables → String → List String
user_roles_of t user = elim (lookup user t.user_roles) [ none ↦ [] | some xs ↦ xs ]

unfoldable pub effective_roles : Tables → String → String → List String
effective_roles t user app =
    let def : String = elim (lookup app t.default_roles) [ none ↦ "" | some d ↦ d ] in
    dedup (if def == "" then user_roles_of t user else user_roles_of t user ++ (def ∷ []))
