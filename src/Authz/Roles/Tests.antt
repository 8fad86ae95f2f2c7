-- ===== src/Authz/Roles/Tests.antt =====
-- Runs on a small table of roles.
use fp.Common.{
  String, true, false, [], ◌∷◌, none, some, ◌==◌, ◌≡◌, refl, arith, sym, subst, Bool-cases, inl,
  inr,
}
use fp.Authz.Core.{is_builtin_role}
use fp.Errors.Transport.{GoError}
use fp.Session.Monad.{ok, err}
use fp.Authz.Roles.{
  Role, Tables, role_code_by_id, check_parent, parent_missing, cycle_loop, would_cycle,
  check_new_parent, write_role, is_own_parent, update_role, create_role, insert_role, code_taken,
  delete_role,
}
use fp.Authz.Roles.Hierarchy.{Ends, parent_in, IsHierarchy, update_role-IsHierarchy}
use fp.Authz.Roles.Removal.{IsGone, delete_role_leaves_no_trace}

abbrev staff : Role
staff = record { id = "1"; code = "STAFF"; name = "Staff"; parent_id = none }

abbrev intern : Role
intern = record { id = "2"; code = "INTERN"; name = "Intern"; parent_id = some "1" }

abbrev office : Tables
office = record {
  roles = ("1", staff) ∷ ("2", intern) ∷ [];
  user_roles = ("ann", "INTERN" ∷ "STAFF" ∷ []) ∷ [];
  key_roles = [];
  default_roles = ("shop", "INTERN") ∷ [];
  grants = [];
}

abbrev temp : Role
temp = record { id = "3"; code = "TEMP"; name = "Temp"; parent_id = some "2" }

created : (create_role office "3" "TEMP" "Temp" (some "2")).0 ≡ ok temp
unfolding create_role insert_role code_taken check_parent parent_missing
created = refl

-- The parent may not be a descendant.
cycle_is_refused : would_cycle office.roles "1" "2" ≡ true
unfolding would_cycle cycle_loop
cycle_is_refused = refl

office-IsHierarchy : IsHierarchy office.roles
office-IsHierarchy r = elim (Bool-cases ("1" == r)) [
  | inl e ↦ (1, subst (Ends office.roles 0) (sym (top e)) tt)
  | inr e ↦ elim (Bool-cases ("2" == r)) [
    | inl f ↦ (2, subst (Ends office.roles 1) (sym (below e f)) tt)
    | inr f ↦ (1, subst (Ends office.roles 0) (sym (absent e f)) tt)
  ]
]
  where
    top : ("1" == r) ≡ true → parent_in office.roles r ≡ none
    top e = ground arith

    below : ("1" == r) ≡ false → ("2" == r) ≡ true → parent_in office.roles r ≡ some "1"
    below e f = ground arith

    absent : ("1" == r) ≡ false → ("2" == r) ≡ false → parent_in office.roles r ≡ none
    absent e f = ground arith

abbrev freed : Role
freed = record { id = "2"; code = "INTERN"; name = "Trainee"; parent_id = some "1" }

renamed :
    update_role office "2" "Trainee" (some "1")
    ≡ (ok freed, record office { roles = ("1", staff) ∷ ("2", freed) ∷ [] })
unfolding update_role is_own_parent check_new_parent role_code_by_id check_parent would_cycle
    cycle_loop is_builtin_role write_role parent_missing
renamed = refl

update_role-IsHierarchy_example : IsHierarchy (("1", staff) ∷ ("2", freed) ∷ [])
update_role-IsHierarchy_example =
    update_role-IsHierarchy office (record office { roles = ("1", staff) ∷ ("2", freed) ∷ [] }) "2"
      "Trainee" (some "1") freed office-IsHierarchy tt renamed

delete_role_leaves_no_trace_example :
    let out = delete_role office "2" in
    (out.0 ≡ ok tt
      → (code : String) × (role_code_by_id office.roles "2" ≡ ok code)
        × (is_builtin_role code ≡ false)
        × IsGone office out.1 "2" code)
    × ((e : GoError) → out.0 ≡ err e → out.1 ≡ office)
delete_role_leaves_no_trace_example = delete_role_leaves_no_trace office "2"
