-- ===== src/Authz/Core/Rule.antt =====
-- The rule that the comments of sdk/authzcore/authzcore.go state, and the decision of `AllowWith`.
use fp.Common.{
  String, Bool, true, false, ◌&&◌, ◌||◌, not, List, some, ◌==◌, ◌≡◌, refl, ◌↔◌, ◌⊎◌, inl, inr,
  arith, eq_iff,
}
use fp.Common.Lists.{contains, any, Some, In, contains_iff, any_iff}
use fp.Authz.Core.{RolePolicy, admin_role_key, compile, allow_with}
use fp.Authz.Core.Decision.{
  denied_by, allowed_by, consulted, allow_with-eq, denied_by-compile, allowed_by-compile,
}

-- Some policy entry of a role in `held` lists the permission.
abbrev pub Denied : List RolePolicy → List String → String → Type 0
Denied rps held p = Some (λ k. Some (λ rp. (rp.role_key ≡ k) × In p rp.deny) rps) held

abbrev pub Granted : List RolePolicy → List String → String → Type 0
Granted rps held p = Some (λ k. Some (λ rp. (rp.role_key ≡ k) × In p rp.allow) rps) held

listed_iff :
    (key : String) (ps : List String) (k p : String)
    → ((key == k && contains ps p) ≡ true) ↔ ((key ≡ k) × In p ps)
listed_iff key ps k p = ground (arith, eq_iff key k, contains_iff ps p)

Denied-iff :
    (rps : List RolePolicy) (p : String) (held : List String)
    → (any (denied_by (compile rps) p) held ≡ true) ↔ Denied rps held p
Denied-iff rps p =
    any_iff (denied_by (compile rps) p) (λ k. Some (λ rp. (rp.role_key ≡ k) × In p rp.deny) rps)
      λ k. rw (denied_by-compile rps p k) (
        any_iff (λ rp. rp.role_key == k && contains rp.deny p)
          (λ rp. (rp.role_key ≡ k) × In p rp.deny) (λ rp. listed_iff rp.role_key rp.deny k p) rps)

Granted-iff :
    (rps : List RolePolicy) (p : String) (held : List String)
    → (any (allowed_by (compile rps) p) held ≡ true) ↔ Granted rps held p
Granted-iff rps p =
    any_iff (allowed_by (compile rps) p) (λ k. Some (λ rp. (rp.role_key ≡ k) × In p rp.allow) rps)
      λ k. rw (allowed_by-compile rps p k) (
        any_iff (λ rp. rp.role_key == k && contains rp.allow p)
          (λ rp. (rp.role_key ≡ k) × In p rp.allow) (λ rp. listed_iff rp.role_key rp.allow k p) rps)

rule_iff :
    {A D G : Type 0} (a d g : Bool)
    → (a ≡ true) ↔ A
    → (d ≡ true) ↔ D
    → (g ≡ true) ↔ G
    → ((a || (not d && g)) ≡ true) ↔ (A ⊎ (¬ D) × G)
rule_iff true d g ha hd hg = (λ _. inl (ha.0 refl), λ _. refl)
rule_iff false true g ha hd hg =
    (λ e. cc, λ r. elim r [ inl x ↦ ha.1 x | inr y ↦ absurd (y.0 (hd.0 refl)) ])
rule_iff false false g ha hd hg =
    (λ e. inr (λ x. cc (hd.1 x), hg.0 e), λ r. elim r [ inl x ↦ cc (ha.1 x) | inr y ↦ hg.1 y.1 ])

-- The decision with an extra role passes exactly if ADMIN is among the held roles, or no policy
-- entry of a consulted role denies the permission and some entry of one allows it. The consulted
-- roles are the held ones and the extra one, unless that is the empty string.
pub allow_with_iff :
    (rps : List RolePolicy) (held : List String) (extra p : String)
    → (allow_with (some (compile rps)) held extra p ≡ true) ↔ (
        In admin_role_key held
        ⊎ (¬ Denied rps (consulted held extra) p) × Granted rps (consulted held extra) p)
allow_with_iff rps held extra p = rw (allow_with-eq (compile rps) held extra p) (
    rule_iff (contains held admin_role_key) _ _ (contains_iff held admin_role_key)
      (Denied-iff rps p (consulted held extra)) (Granted-iff rps p (consulted held extra)))
