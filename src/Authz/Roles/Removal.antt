-- ===== src/Authz/Roles/Removal.antt =====
-- `DeleteRole` and `EffectiveRoles` of internal/service/authz.go.
use fp.Common.{
  String, false, not, List, [], ◌∷◌, ◌++◌, Option, none, some, ◌==◌, if◌then◌else◌, ◌≡◌, ◌≢◌, refl,
  ap, sym, ◌∙◌, subst, arith, eq_iff, eq_refl, ◌↔◌, ◌⊎◌,
}
use fp.Common.Lists.{In, All, filter, contains, contains_iff}
use fp.Common.GoMap.{GoMap, lookup, erase, lookup-erase}
use fp.Authz.Core.{is_builtin_role}
use fp.Authz.Policy.{GrantRow}
use fp.Errors.Transport.{GoError}
use fp.Session.Monad.{Result, ok, err}
use fp.Authz.Roles.{
  Role, Tables, role_code_by_id, orphan, is_own_parent, array_remove, strip_users, strip_defaults,
  drop_role, delete_role, dedup_from, dedup, user_roles_of, effective_roles,
}
use fp.Authz.Roles.Hierarchy.{parent_in}

In-array_remove :
    (code x : String) (xs : List String) → In x (array_remove code xs) ↔ (In x xs × (x ≢ code))
unfolding array_remove
In-array_remove code x [] = (λ m. absurd m, λ m. absurd m.0)
In-array_remove code x (y ∷ ys) = ground (arith, eq_iff y code, In-array_remove code x ys)

lookup-strip_users :
    (code u : String) (m : GoMap (List String))
    → lookup u (strip_users code m)
      ≡ (elim (lookup u m) [ none ↦ none | some xs ↦ some (array_remove code xs) ])
unfolding strip_users
lookup-strip_users code u [] = refl
lookup-strip_users code u ((v, xs) ∷ m) = ground (arith, lookup-strip_users code u m)

lookup-strip_defaults :
    (code app d : String) (m : GoMap String)
    → code ≢ ""
    → lookup app (strip_defaults code m) ≡ some d
    → d ≢ code
unfolding strip_defaults
lookup-strip_defaults code app d [] full h = absurd (cc h)
lookup-strip_defaults code app d ((v, x) ∷ m) full h =
    ground (arith, eq_iff x code, lookup-strip_defaults code app d m full)

parent_is_other :
    (id : String) (r : Role)
    → (if is_own_parent id r.parent_id then record r { parent_id = none } else r).parent_id
      ≢ some id
unfolding is_own_parent
parent_is_other id r h = go r.parent_id refl
  where
    go : (p : Option String) → r.parent_id ≡ p → ⊥
    go none e = absurd (ground arith)
    go (some p) e = absurd (ground (arith, eq_iff p id))

lookup-orphan :
    (id r : String) (m : GoMap Role)
    → (lookup r m ≡ none → lookup r (orphan id m) ≡ none) × (parent_in (orphan id m) r ≢ some id)
unfolding orphan
lookup-orphan id r [] = (λ _. refl, λ h. absurd (cc h))
lookup-orphan id r ((k, x) ∷ m) = ground (arith, parent_is_other id x, lookup-orphan id r m)

dropped_grants :
    (id : String) (gs : List GrantRow)
    → All (λ g. g.role_id ≢ id) (filter (λ g. not (g.role_id == id)) gs)
dropped_grants id [] = tt
dropped_grants id (g ∷ gs) = ground (arith, eq_iff g.role_id id, dropped_grants id gs)

user_roles_of-drop_role :
    (t : Tables) (id code u : String)
    → user_roles_of (drop_role t id code) u ≡ array_remove code (user_roles_of t u)
unfolding user_roles_of drop_role array_remove
user_roles_of-drop_role t id code u = ground (arith, lookup-strip_users code u t.user_roles)

-- What is left of a role after its deletion: nothing refers to it, and every user keeps exactly the
-- other roles.
pub record IsGone (t t' : Tables) (id code : String) : Type 0 where
  pub row : lookup id t'.roles ≡ none
  pub children : (r : String) → parent_in t'.roles r ≢ some id
  pub users : (u x : String) → In x (user_roles_of t' u) ↔ (In x (user_roles_of t u) × (x ≢ code))
  pub defaults : code ≢ "" → (app d : String) → lookup app t'.default_roles ≡ some d → d ≢ code
  pub grants : All (λ g. g.role_id ≢ id) t'.grants
  pub keys : contains t'.key_roles code ≡ false

drop_role-IsGone :
    (t : Tables) (id code : String)
    → contains t.key_roles code ≡ false
    → IsGone t (drop_role t id code) id code
unfolding drop_role
drop_role-IsGone t id code unbound = record {
  row =
      (lookup-orphan id id (erase id t.roles)).0
        (lookup-erase id id t.roles ∙ rw (eq_refl id) refl);
  children = λ r. (lookup-orphan id r (erase id t.roles)).1;
  users = λ u x.
      subst (λ xs. In x xs ↔ (In x (user_roles_of t u) × (x ≢ code)))
        (sym (user_roles_of-drop_role t id code u)) (In-array_remove code x (user_roles_of t u));
  defaults = λ full app d. lookup-strip_defaults code app d t.default_roles full;
  grants = dropped_grants id t.grants;
  keys = unbound;
}

-- A role that is deleted was there, was not built in, and no access key was bound to it. After it no
-- row, parent, user, grant or access key refers to it, nor does an application's default role if its
-- code is not empty, and every user keeps exactly the other roles. A deletion that is refused
-- changes nothing.
pub delete_role_leaves_no_trace :
    (t : Tables) (id : String)
    → let out = delete_role t id in
      (out.0 ≡ ok tt
        → (code : String) × (role_code_by_id t.roles id ≡ ok code)
          × (is_builtin_role code ≡ false)
          × IsGone t out.1 id code)
      × ((e : GoError) → out.0 ≡ err e → out.1 ≡ t)
unfolding delete_role
delete_role_leaves_no_trace t id =
    (λ h. go (role_code_by_id t.roles id) refl h, λ e h. ground arith)
  where
    go :
        (found : Result String)
        → role_code_by_id t.roles id ≡ found
        → (delete_role t id).0 ≡ ok tt
        → (code : String) × (role_code_by_id t.roles id ≡ ok code)
          × (is_builtin_role code ≡ false)
          × IsGone t (delete_role t id).1 id code
    go (err x) k h = absurd (ground arith)
    go (ok code) k h =
        let b : is_builtin_role code ≡ false = ground arith in
        let c : contains t.key_roles code ≡ false = ground arith in
        (code, k, b, rw (k, b, c, delete_role) (drop_role-IsGone t id code c))

-- No element stands twice.
abbrev pub IsDistinct : List String → Type 0
IsDistinct [] = Unit
IsDistinct (x ∷ xs) = (¬ In x xs) × IsDistinct xs

In-dedup_from :
    (x : String) (seen xs : List String)
    → In x (dedup_from seen xs) ↔ (In x xs × (x ≢ "") × (¬ In x seen))
unfolding dedup_from
In-dedup_from x seen [] = (λ m. absurd m, λ m. absurd m.0)
In-dedup_from x seen (y ∷ ys) = ground (
  arith,
  eq_iff y "",
  contains_iff seen y,
  eq_iff y x,
  λ (p : y ≡ x). ap (λ z. In z seen) p,
  In-dedup_from x seen ys,
  In-dedup_from x (y ∷ seen) ys,
)

dedup_from-IsDistinct : (seen xs : List String) → IsDistinct (dedup_from seen xs)
unfolding dedup_from
dedup_from-IsDistinct seen [] = tt
dedup_from-IsDistinct seen (y ∷ ys) = ground (
  arith,
  dedup_from-IsDistinct seen ys,
  dedup_from-IsDistinct (y ∷ seen) ys,
  In-dedup_from y (y ∷ seen) ys,
)

In-append_one : (x y : String) (xs : List String) → In x (xs ++ (y ∷ [])) ↔ (In x xs ⊎ (y ≡ x))
In-append_one x y [] = ground arith
In-append_one x y (z ∷ zs) = ground (arith, In-append_one x y zs)

-- The roles that a session is issued with are exactly the user's global roles and the default role
-- of the application, without the empty code, each once.
pub effective_roles_iff :
    (t : Tables) (user app x : String)
    → (In x (effective_roles t user app)
        ↔ ((x ≢ "") × (In x (user_roles_of t user) ⊎ (lookup app t.default_roles ≡ some x))))
      × IsDistinct (effective_roles t user app)
unfolding effective_roles dedup
effective_roles_iff t user app x =
    let xs = user_roles_of t user in
    let def : String = elim (lookup app t.default_roles) [ none ↦ "" | some d ↦ d ] in
    let all = if def == "" then xs else xs ++ (def ∷ []) in
    let m = In-dedup_from x [] all in
    (ground (arith, eq_iff def "", m, In-append_one x def xs), dedup_from-IsDistinct [] all)
