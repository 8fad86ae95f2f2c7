-- ===== src/Authz/Policy/Inherit.antt =====
-- Inheritance along the parents of a role: `effectiveFor` of internal/service/policy.go.
use fp.Common.{
  String, ℕ, zero, suc, List, [], ◌∷◌, Option, none, some, ◌≡◌, refl, arith, eq_iff, Option-cases,
  inl, inr,
}
use fp.Common.GoMap.{GoMap, lookup, insert, lookup-insert}
use fp.Authz.Policy.{
  Effects, parent_of, direct_of, inherit_effects, effective_loop, effective_for, max_depth,
}

-- `a`, or `b` if there is no `a`.
abbrev pub or_else : {A : Type 0} → Option A → Option A → Option A
or_else (some a) b = some a
or_else none b = b

-- The role and its ancestors, nearest first, at most `n` of them.
unfoldable pub chain : GoMap (Option String) → ℕ → Option String → List String
chain parents zero cur = []
chain parents (suc n) none = []
chain parents (suc n) (some r) = r ∷ chain parents n (parent_of parents r)

-- The grant of the first role of a chain that has one for the key.
unfoldable pub nearest : GoMap Effects → String → List String → Option String
nearest direct k [] = none
nearest direct k (r ∷ rs) = or_else (lookup k (direct_of direct r)) (nearest direct k rs)

pub lookup-inherit_effects :
    (k : String) (out m : Effects)
    → lookup k (inherit_effects out m) ≡ or_else (lookup k out) (lookup k m)
unfolding inherit_effects
lookup-inherit_effects k out [] = ground arith
lookup-inherit_effects k out ((j, e) ∷ m) = elim (Option-cases (lookup j out)) [
  | inl new ↦
      ground
        (arith, eq_iff j k, lookup-inherit_effects k (insert j e out) m, lookup-insert j k e out)
  | inr (old, found) ↦ ground (arith, eq_iff j k, lookup-inherit_effects k out m)
]

lookup-effective_loop :
    (parents : GoMap (Option String)) (direct : GoMap Effects) (k : String) (n : ℕ)
    (cur : Option String) (out : Effects)
    → lookup k (effective_loop parents direct n cur out)
      ≡ or_else (lookup k out) (nearest direct k (chain parents n cur))
unfolding effective_loop chain nearest
lookup-effective_loop parents direct k zero cur out = ground arith
lookup-effective_loop parents direct k (suc n) none out = ground arith
lookup-effective_loop parents direct k (suc n) (some r) out = ground (
  arith,
  lookup-effective_loop parents direct k n (parent_of parents r)
      (inherit_effects out (direct_of direct r)),
  lookup-inherit_effects k out (direct_of direct r),
)

-- The effect of a role on a permission key is the direct grant of the nearest role that has one
-- for this key, along the chain of the role and its first 63 ancestors; there is none if no role
-- of that chain has one.
pub lookup-effective_for :
    (k r : String) (parents : GoMap (Option String)) (direct : GoMap Effects)
    → lookup k (effective_for r parents direct)
      ≡ nearest direct k (chain parents max_depth (some r))
unfolding effective_for
lookup-effective_for k r parents direct =
    lookup-effective_loop parents direct k max_depth (some r) []

-- No two entries have one key.
abbrev pub IsMap : {V : Type 0} → GoMap V → Type 0
IsMap [] = Unit
IsMap ((k, v) ∷ m) = (lookup k m ≡ none) × IsMap m

pub insert-IsMap : {V : Type 0} (k : String) (v : V) (m : GoMap V) → IsMap m → IsMap (insert k v m)
insert-IsMap k v [] h = (refl, tt)
insert-IsMap k v ((j, w) ∷ m) h =
    ground (arith, eq_iff j k, eq_iff k j, insert-IsMap k v m h.1, lookup-insert k j v m)

inherit_effects-IsMap : (out m : Effects) → IsMap out → IsMap (inherit_effects out m)
unfolding inherit_effects
inherit_effects-IsMap out [] h = h
inherit_effects-IsMap out ((k, e) ∷ m) h = elim (Option-cases (lookup k out)) [
  | inl new ↦
      rw (new, inherit_effects) (inherit_effects-IsMap (insert k e out) m (insert-IsMap k e out h))
  | inr (old, found) ↦ rw (found, inherit_effects) (inherit_effects-IsMap out m h)
]

effective_loop-IsMap :
    (parents : GoMap (Option String)) (direct : GoMap Effects) (n : ℕ) (cur : Option String)
    (out : Effects)
    → IsMap out
    → IsMap (effective_loop parents direct n cur out)
unfolding effective_loop
effective_loop-IsMap parents direct zero cur out h = h
effective_loop-IsMap parents direct (suc n) none out h = h
effective_loop-IsMap parents direct (suc n) (some r) out h =
    effective_loop-IsMap parents direct n (parent_of parents r) _
      (inherit_effects-IsMap out (direct_of direct r) h)

pub effective_for-IsMap :
    (r : String) (parents : GoMap (Option String)) (direct : GoMap Effects)
    → IsMap (effective_for r parents direct)
unfolding effective_for
effective_for-IsMap r parents direct = effective_loop-IsMap parents direct max_depth (some r) [] tt
