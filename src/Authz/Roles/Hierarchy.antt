-- ===== src/Authz/Roles/Hierarchy.antt =====
-- The parents of roles under `UpdateRole` of internal/service/authz.go.
use fp.Common.{
  String, ℕ, zero, suc, false, Option, none, some, ◌==◌, if◌then◌else◌, ◌≡◌, refl, sym, ◌∙◌, subst,
  arith, eq_iff, Bool-cases, inl, inr,
}
use fp.Common.GoMap.{GoMap, lookup, insert, lookup-insert}
use fp.Session.Monad.{ok}
use fp.Authz.Roles.{
  Role, Tables, cycle_loop, would_cycle, max_climb, check_new_parent, write_role, update_role,
}

abbrev pub parent_in : GoMap Role → String → Option String
parent_in roles r = elim (lookup r roles) [ none ↦ none | some x ↦ x.parent_id ]

-- The climb from a role along the parents ends within `n` steps.
abbrev pub Ends : GoMap Role → ℕ → Option String → Type 0
Ends roles zero none = Unit
Ends roles zero (some r) = ⊥
Ends roles (suc n) none = Unit
Ends roles (suc n) (some r) = Ends roles n (parent_in roles r)

-- No cycle lies above any role.
abbrev pub IsHierarchy : GoMap Role → Type 0
IsHierarchy roles = (r : String) → (n : ℕ) × Ends roles n (some r)

parent_in-insert :
    (roles : GoMap Role) (id : String) (new : Role) (r : String)
    → parent_in (insert id new roles) r ≡ (if id == r then new.parent_id else parent_in roles r)
parent_in-insert roles id new r = ground (arith, lookup-insert id r new roles)

-- A climb that does not meet the role is not touched by its change.
cycle_loop-Ends :
    (roles : GoMap Role) (id : String) (new : Role) (n : ℕ) (cur : Option String)
    → cycle_loop roles id n cur ≡ false
    → Ends roles n cur
    → Ends (insert id new roles) n cur
unfolding cycle_loop
cycle_loop-Ends roles id new zero none h e = tt
cycle_loop-Ends roles id new zero (some r) h e = e
cycle_loop-Ends roles id new (suc n) none h e = tt
cycle_loop-Ends roles id new (suc n) (some r) h e = elim (Bool-cases (id == r)) [
  | inl same ↦ absurd (ground (arith, eq_iff id r, eq_iff r id))
  | inr apart ↦
      let p : parent_in (insert id new roles) r ≡ parent_in roles r =
        parent_in-insert roles id new r ∙ rw apart refl in
      rw p (cycle_loop-Ends roles id new n (parent_in roles r) (ground arith) e)
]

-- The climb in the changed table: at the changed role it goes on from the new parent.
Ends-insert :
    (roles : GoMap Role) (id : String) (new : Role) (k n : ℕ) (cur : Option String)
    → Ends (insert id new roles) k new.parent_id
    → Ends roles n cur
    → (m : ℕ) × Ends (insert id new roles) m cur
Ends-insert roles id new k n none up e = (0, tt)
Ends-insert roles id new k zero (some r) up e = absurd e
Ends-insert roles id new k (suc n) (some r) up e = elim (Bool-cases (id == r)) [
  | inl same ↦ (
    suc k,
    subst (Ends (insert id new roles) k) (sym (parent_in-insert roles id new r ∙ rw same refl)) up,
  )
  | inr apart ↦
      let (m, f) = Ends-insert roles id new k n (parent_in roles r) up e in
      (
        suc m,
        subst (Ends (insert id new roles) m) (sym (parent_in-insert roles id new r ∙ rw apart refl))
            f,
      )
]

write_role_ok :
    (t t' : Tables) (id name : String) (parent : Option String) (r : Role)
    → write_role t id name parent ≡ (ok r, t')
    → (r.parent_id ≡ parent) × (t'.roles ≡ insert id r t.roles)
unfolding write_role
write_role_ok t t' id name parent r h = ground arith

check_new_parent_ok :
    (roles : GoMap Role) (id p : String)
    → check_new_parent roles id (some p) ≡ none
    → would_cycle roles id p ≡ false
unfolding check_new_parent
check_new_parent_ok roles id p h = ground arith

update_role_ok :
    (t t' : Tables) (id name : String) (parent : Option String) (r : Role)
    → update_role t id name parent ≡ (ok r, t')
    → (check_new_parent t.roles id parent ≡ none) × (write_role t id name parent ≡ (ok r, t'))
unfolding update_role
update_role_ok t t' id name parent r h = ground arith

-- The chain of the new parent, if there is one, has at most 64 roles.
abbrev pub IsShallow : GoMap Role → Option String → Type 0
IsShallow roles parent = Ends roles max_climb parent

-- Where no cycle lies above any role and the new parent and its ancestors are at most 64 roles, no
-- cycle lies above any role after a change of a role that succeeds.
pub update_role-IsHierarchy :
    (t t' : Tables) (id name : String) (parent : Option String) (r : Role)
    → IsHierarchy t.roles
    → IsShallow t.roles parent
    → update_role t id name parent ≡ (ok r, t')
    → IsHierarchy t'.roles
unfolding would_cycle
update_role-IsHierarchy t t' id name parent r hier shallow h x =
    let (guard, w) = update_role_ok t t' id name parent r h in
    let (same, table) = write_role_ok t t' id name parent r w in
    let (n, e) = hier x in
    let (m, f) =
      Ends-insert t.roles id r max_climb n (some x)
        (subst (Ends (insert id r t.roles) max_climb) (sym same) (up parent guard shallow)) e in
    (m, subst (λ roles. Ends roles m (some x)) (sym table) f)
  where
    up :
        (parent : Option String)
        → check_new_parent t.roles id parent ≡ none
        → IsShallow t.roles parent
        → Ends (insert id r t.roles) max_climb parent
    up none g s = tt
    up (some p) g s =
        cycle_loop-Ends t.roles id r max_climb (some p) (check_new_parent_ok t.roles id p g) s
