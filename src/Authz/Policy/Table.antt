-- ===== src/Authz/Policy/Table.antt =====
-- The policy table of `CompilePolicy` of internal/service/policy.go and the decision over it.
use fp.Common.{
  String, true, List, [], ◌∷◌, Option, none, some, ◌≡◌, ◌≢◌, ◌↔◌, ◌⊎◌, inl, inr, arith, eq_iff,
}
use fp.Common.Lists.{Some, In}
use fp.Common.GoMap.{GoMap, lookup}
use fp.Authz.Core.{RolePolicy, admin_role_key, compile, allow_with}
use fp.Authz.Core.Decision.{consulted}
use fp.Authz.Core.Rule.{Denied, Granted, allow_with_iff}
use fp.Authz.Policy.{
  Effects, RoleRow, GrantRow, effect_deny, effective_for, denies_of, allows_of, add_entry,
  policy_entries, graph_parents, graph_keys, direct_grants, compile_policy, max_depth,
}
use fp.Authz.Policy.Inherit.{chain, nearest, IsMap, effective_for-IsMap, lookup-effective_for}

denies_of_iff :
    (p : String) (m : Effects) → IsMap m → In p (denies_of m) ↔ (lookup p m ≡ some effect_deny)
unfolding denies_of
denies_of_iff p [] h = (λ e. elim e [ ], λ e. cc)
denies_of_iff p ((k, e) ∷ m) h =
    ground (arith, denies_of_iff p m h.1, eq_iff e effect_deny, eq_iff k p)

-- An effect other than deny.
abbrev pub IsGrant : Option String → Type 0
IsGrant none = ⊥
IsGrant (some e) = e ≢ effect_deny

allows_of_iff : (p : String) (m : Effects) → IsMap m → In p (allows_of m) ↔ IsGrant (lookup p m)
unfolding allows_of
allows_of_iff p [] h = (λ e. e, λ e. e)
allows_of_iff p ((k, e) ∷ m) h =
    ground (arith, allows_of_iff p m h.1, eq_iff e effect_deny, eq_iff k p)

module _ (c p : String) where
  add_entry-deny :
      (key : String) (eff : Effects) (rest : List RolePolicy)
      → IsMap eff
      → Some (λ rp. (rp.role_key ≡ c) × In p rp.deny) (add_entry key eff rest) ↔ (
          ((key ≡ c) × (lookup p eff ≡ some effect_deny))
          ⊎ Some (λ rp. (rp.role_key ≡ c) × In p rp.deny) rest)
  unfolding add_entry
  add_entry-deny key [] rest h = (λ s. inr s, λ s. elim s [ inl x ↦ cc (x.1) | inr y ↦ y ])
  add_entry-deny key (e ∷ m) rest h = ground (arith, denies_of_iff p (e ∷ m) h)

  add_entry-allow :
      (key : String) (eff : Effects) (rest : List RolePolicy)
      → IsMap eff
      → Some (λ rp. (rp.role_key ≡ c) × In p rp.allow) (add_entry key eff rest) ↔ (
          ((key ≡ c) × IsGrant (lookup p eff))
          ⊎ Some (λ rp. (rp.role_key ≡ c) × In p rp.allow) rest)
  unfolding add_entry
  add_entry-allow key [] rest h = (λ s. inr s, λ s. elim s [ inl x ↦ absurd x.1 | inr y ↦ y ])
  add_entry-allow key (e ∷ m) rest h = ground (arith, allows_of_iff p (e ∷ m) h)

-- What a role's inherited grants say of a permission key.
abbrev pub effect_of : GoMap (Option String) → GoMap Effects → String → String → Option String
effect_of parents direct p role_id = nearest direct p (chain parents max_depth (some role_id))

module _ (parents : GoMap (Option String)) (direct : GoMap Effects) (c p : String) where
  entries-deny :
      (ks : GoMap String)
      → Some (λ rp. (rp.role_key ≡ c) × In p rp.deny) (policy_entries parents direct ks)
        ↔ Some (λ r. (r.1 ≡ c) × (effect_of parents direct p r.0 ≡ some effect_deny)) ks
  unfolding policy_entries
  entries-deny [] = (λ s. s, λ s. s)
  entries-deny ((id, key) ∷ ks) = ground (
    arith,
    entries-deny ks,
    lookup-effective_for p id parents direct,
    add_entry-deny c p key (effective_for id parents direct) (policy_entries parents direct ks)
        (effective_for-IsMap id parents direct),
  )

  entries-allow :
      (ks : GoMap String)
      → Some (λ rp. (rp.role_key ≡ c) × In p rp.allow) (policy_entries parents direct ks)
        ↔ Some (λ r. (r.1 ≡ c) × IsGrant (effect_of parents direct p r.0)) ks
  unfolding policy_entries
  entries-allow [] = (λ s. s, λ s. s)
  entries-allow ((id, key) ∷ ks) =
      let e =
        add_entry-allow c p key (effective_for id parents direct) (policy_entries parents direct ks)
          (effective_for-IsMap id parents direct) in
      let e' = rw (lookup-effective_for p id parents direct) at e in
      ground (arith, entries-allow ks, e')

Some-iff :
    {A : Type 0} {P Q : A → Type 0} → ((a : A) → P a ↔ Q a) → (xs : List A) → Some P xs ↔ Some Q xs
Some-iff h [] = (λ s. s, λ s. s)
Some-iff h (x ∷ xs) = ground (arith, h x, Some-iff h xs)

-- A held role whose nearest grant for the permission is a deny, or is none.
abbrev pub Refuses : List RoleRow → List GrantRow → List String → String → Type 0
Refuses roles grants held p =
    Some
      (λ c.
        Some
          (λ r.
            (r.1 ≡ c)
            × (effect_of (graph_parents roles []) (direct_grants grants []) p r.0
                ≡ some effect_deny))
          (graph_keys roles []))
      held

abbrev pub Permits : List RoleRow → List GrantRow → List String → String → Type 0
Permits roles grants held p =
    Some
      (λ c.
        Some
          (λ r.
            (r.1 ≡ c)
            × IsGrant (effect_of (graph_parents roles []) (direct_grants grants []) p r.0))
          (graph_keys roles []))
      held

Denied-compile_policy :
    (roles : List RoleRow) (grants : List GrantRow) (held : List String) (p : String)
    → Denied (compile_policy roles grants) held p ↔ Refuses roles grants held p
unfolding compile_policy
Denied-compile_policy roles grants held p =
    Some-iff
      (λ c.
        entries-deny (graph_parents roles []) (direct_grants grants []) c p (graph_keys roles []))
      held

Granted-compile_policy :
    (roles : List RoleRow) (grants : List GrantRow) (held : List String) (p : String)
    → Granted (compile_policy roles grants) held p ↔ Permits roles grants held p
unfolding compile_policy
Granted-compile_policy roles grants held p =
    Some-iff
      (λ c.
        entries-allow (graph_parents roles []) (direct_grants grants []) c p (graph_keys roles []))
      held

-- From the rows of the database to the answer: the decision over the compiled policy table passes
-- exactly if ADMIN is held, or no consulted role has a deny as the nearest grant for the
-- permission in the chain of the role and its first 63 ancestors, and one has a nearest grant there
-- that is no deny. The consulted roles are the held ones and the extra one, unless that is the empty
-- string.
pub allow_with-compile_policy :
    (roles : List RoleRow) (grants : List GrantRow) (held : List String) (extra p : String)
    → (allow_with (some (compile (compile_policy roles grants))) held extra p ≡ true) ↔ (
        In admin_role_key held
        ⊎ (¬ Refuses roles grants (consulted held extra) p)
          × Permits roles grants (consulted held extra) p)
allow_with-compile_policy roles grants held extra p =
    let d = Denied-compile_policy roles grants (consulted held extra) p in
    let g = Granted-compile_policy roles grants (consulted held extra) p in
    let r = allow_with_iff (compile_policy roles grants) held extra p in
    (
      λ e. elim (r.0 e) [ inl a ↦ inl a | inr y ↦ inr (λ x. y.0 (d.1 x), g.0 y.1) ],
      λ s. elim s [ inl a ↦ r.1 (inl a) | inr y ↦ r.1 (inr (λ x. y.0 (d.0 x), g.1 y.1)) ],
    )
