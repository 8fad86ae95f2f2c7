-- ===== src/Authz/Core/Decision.antt =====
-- The decision of `AllowWith` of sdk/authzcore/authzcore.go without its loops.
use fp.Common.{
  String, Bool, true, false, ◌||◌, ◌&&◌, not, List, [], ◌∷◌, ◌++◌, none, some, ◌==◌, if◌then◌else◌,
  ◌≡◌, refl, inl, inr, arith, eq_iff, Bool-cases,
}
use fp.Common.Lists.{contains, any}
use fp.Common.GoMap.{lookup, lookup-insert}
use fp.Authz.Core.{
  RolePolicy, Snapshot, admin_role_key, has_admin, set_add, add_all, compile_step, compile_from,
  compile, sets_at, extend, check, check_all, check_extra, allow_with,
}

contains-set_add :
    (s : List String) (a p : String) → contains (set_add s a) p ≡ (contains s p || a == p)
unfolding set_add
contains-set_add s a p = elim (Bool-cases (contains s a)) [
  | inl old ↦ elim (Bool-cases (a == p)) [
    | inl same ↦ let e = (eq_iff a p).0 same in rw (old, same) (ground arith)
    | inr other ↦ rw (old, other) (ground arith)
  ]
  | inr new ↦ rw new (ground arith)
]

contains-add_all :
    (s xs : List String) (p : String) → contains (add_all s xs) p ≡ (contains s p || contains xs p)
unfolding add_all
contains-add_all s [] p = ground arith
contains-add_all s (a ∷ xs) p =
    ground (arith, contains-add_all (set_add s a) xs p, contains-set_add s a p)

-- Whether the sets compiled for a role key hold a permission.
abbrev pub denied_by : Snapshot → String → String → Bool
denied_by m p k = elim (lookup k m) [ none ↦ false | some sets ↦ contains sets.deny p ]

abbrev pub allowed_by : Snapshot → String → String → Bool
allowed_by m p k = elim (lookup k m) [ none ↦ false | some sets ↦ contains sets.allow p ]

abbrev pub lists_deny : List RolePolicy → String → String → Bool
lists_deny rps p k = any (λ rp. rp.role_key == k && contains rp.deny p) rps

abbrev pub lists_allow : List RolePolicy → String → String → Bool
lists_allow rps p k = any (λ rp. rp.role_key == k && contains rp.allow p) rps

denied_by-compile_step :
    (m : Snapshot) (rp : RolePolicy) (p k : String)
    → denied_by (compile_step m rp) p k
      ≡ (denied_by m p k || (rp.role_key == k && contains rp.deny p))
unfolding compile_step
denied_by-compile_step m rp p k =
    rw (lookup-insert rp.role_key k (extend (sets_at m rp.role_key) rp) m, denied_by)
      (ground (
        arith,
        eq_iff rp.role_key k,
        contains-add_all [] rp.deny p,
        contains-add_all (sets_at m rp.role_key).deny rp.deny p,
      ))

allowed_by-compile_step :
    (m : Snapshot) (rp : RolePolicy) (p k : String)
    → allowed_by (compile_step m rp) p k
      ≡ (allowed_by m p k || (rp.role_key == k && contains rp.allow p))
unfolding compile_step
allowed_by-compile_step m rp p k =
    rw (lookup-insert rp.role_key k (extend (sets_at m rp.role_key) rp) m, allowed_by)
      (ground (
        arith,
        eq_iff rp.role_key k,
        contains-add_all [] rp.allow p,
        contains-add_all (sets_at m rp.role_key).allow rp.allow p,
      ))

denied_by-compile_from :
    (m : Snapshot) (rps : List RolePolicy) (p k : String)
    → denied_by (compile_from m rps) p k ≡ (denied_by m p k || lists_deny rps p k)
unfolding compile_from
denied_by-compile_from m [] p k = ground arith
denied_by-compile_from m (rp ∷ rps) p k =
    ground
      (arith, denied_by-compile_from (compile_step m rp) rps p k, denied_by-compile_step m rp p k)

allowed_by-compile_from :
    (m : Snapshot) (rps : List RolePolicy) (p k : String)
    → allowed_by (compile_from m rps) p k ≡ (allowed_by m p k || lists_allow rps p k)
unfolding compile_from
allowed_by-compile_from m [] p k = ground arith
allowed_by-compile_from m (rp ∷ rps) p k =
    ground
      (arith, allowed_by-compile_from (compile_step m rp) rps p k, allowed_by-compile_step m rp p k)

check_all-eq :
    (m : Snapshot) (p : String) (allowed : Bool) (ks : List String)
    → check_all m p allowed ks
      ≡ (if any (denied_by m p) ks then none else some (allowed || any (allowed_by m p) ks))
unfolding check_all check
check_all-eq m p allowed [] = ground arith
check_all-eq m p allowed (k ∷ ks) =
    ground (arith, check_all-eq m p allowed ks, check_all-eq m p true ks)

has_admin-eq : (ks : List String) → has_admin ks ≡ contains ks admin_role_key
unfolding has_admin
has_admin-eq [] = refl
has_admin-eq (k ∷ ks) = ground (arith, has_admin-eq ks)

-- The roles that the decision consults: the held ones, and the extra one if it is not empty.
abbrev pub consulted : List String → String → List String
consulted ks extra = ks ++ (if extra == "" then [] else extra ∷ [])

any-append :
    {A : Type 0} (q : A → Bool) (xs ys : List A) → any q (xs ++ ys) ≡ (any q xs || any q ys)
any-append q [] ys = refl
any-append q (x ∷ xs) ys = ground (arith, any-append q xs ys)

-- The decision over a snapshot, as one formula.
pub allow_with-eq :
    (m : Snapshot) (ks : List String) (extra p : String)
    → allow_with (some m) ks extra p ≡ (
        contains ks admin_role_key
        || (not (any (denied_by m p) (consulted ks extra))
            && any (allowed_by m p) (consulted ks extra)))
unfolding allow_with check_extra check
allow_with-eq m ks extra p = ground (
  arith,
  has_admin-eq ks,
  check_all-eq m p false ks,
  any-append (denied_by m p) ks (if extra == "" then [] else extra ∷ []),
  any-append (allowed_by m p) ks (if extra == "" then [] else extra ∷ []),
)

pub denied_by-compile :
    (rps : List RolePolicy) (p k : String) → denied_by (compile rps) p k ≡ lists_deny rps p k
unfolding compile
denied_by-compile rps p k = denied_by-compile_from [] rps p k

pub allowed_by-compile :
    (rps : List RolePolicy) (p k : String) → allowed_by (compile rps) p k ≡ lists_allow rps p k
unfolding compile
allowed_by-compile rps p k = allowed_by-compile_from [] rps p k
