-- ===== src/Notify/Template/Params.antt =====
-- `ValidateParams` and `checkPlaceholders` of internal/notify/render.go.
use fp.Common.{
  String, Bool, true, false, not, List, [], ◌∷◌, none, ◌≡◌, refl, subst, arith, eq_iff, Bool-cases,
  inl, inr, ◌↔◌,
}
use fp.Common.Lists.{In, filter, contains, contains_iff}
use fp.Common.GoMap.{GoMap, has, keys}
use fp.Notify.Template.{validate_params, is_filled, check_placeholders, used_names, NotifyContent}

has_iff : (k : String) (m : GoMap String) → (has k m ≡ true) ↔ In k (keys m)
has_iff k [] = (λ e. absurd (cc e), λ e. absurd e)
has_iff k ((j, v) ∷ m) = ground (arith, eq_iff j k, has_iff k m)

filter-none :
    (q : String → Bool) (xs : List String)
    → is_filled (filter q xs) ≡ false
    → (x : String) → In x xs
    → q x ≡ false
unfolding is_filled
filter-none q [] h x m = absurd m
filter-none q (y ∷ ys) h x (inl e) = elim (Bool-cases (q y)) [
  | inl hit ↦ absurd (cc (rw (hit, is_filled) at h))
  | inr miss ↦ subst (λ z. q z ≡ false) e miss
]
filter-none q (y ∷ ys) h x (inr m) = elim (Bool-cases (q y)) [
  | inl hit ↦ absurd (cc (rw (hit, is_filled) at h))
  | inr miss ↦ filter-none q ys (rw (miss, is_filled) at h) x m
]

none-filter :
    (q : String → Bool) (xs : List String)
    → ((x : String) → In x xs → q x ≡ false)
    → is_filled (filter q xs) ≡ false
unfolding is_filled
none-filter q [] h = refl
none-filter q (y ∷ ys) h = rw (h y (inl refl), is_filled) (none-filter q ys (λ x m. h x (inr m)))

-- No element of one list is missing in the other.
covered_iff :
    (xs : List String) (test : String → Bool) (P : String → Type 0)
    → ((x : String) → (test x ≡ true) ↔ P x)
    → (is_filled (filter (λ x. not (test x)) xs) ≡ false) ↔ ((x : String) → In x xs → P x)
covered_iff xs test P h = (
  λ e x m. (h x).0 (ground (arith, filter-none (λ x. not (test x)) xs e x m)),
  λ f. none-filter (λ x. not (test x)) xs (λ x m. ground (arith, (h x).1 (f x m))),
)

-- The values given for a template are accepted exactly if their names are the declared variables,
-- none missing and none more.
pub validate_params_iff :
    (variables : List String) (params : GoMap String)
    → (validate_params variables params ≡ none)
      ↔ ((k : String) → In k variables ↔ In k (keys params))
unfolding validate_params
validate_params_iff variables params =
    let a =
      covered_iff variables (λ v. has v params) (λ v. In v (keys params)) (λ v. has_iff v params) in
    let b =
      covered_iff (keys params) (contains variables) (λ k. In k variables)
        (contains_iff variables) in
    (
      λ h k. (a.0 (ground arith) k, b.0 (ground arith) k),
      λ f. let p = a.1 (λ k. (f k).0) in let q = b.1 (λ k. (f k).1) in ground arith,
    )

-- A template's placeholders are accepted exactly if they are the declared variables.
pub check_placeholders_iff :
    (c : NotifyContent)
    → (check_placeholders c ≡ none) ↔ ((k : String) → In k (used_names c) ↔ In k c.variables)
unfolding check_placeholders
check_placeholders_iff c =
    let a =
      covered_iff (used_names c) (contains c.variables) (λ k. In k c.variables)
        (contains_iff c.variables) in
    let b =
      covered_iff c.variables (contains (used_names c)) (λ k. In k (used_names c))
        (contains_iff (used_names c)) in
    (
      λ h k. (a.0 (ground arith) k, b.0 (ground arith) k),
      λ f. let p = a.1 (λ k. (f k).0) in let q = b.1 (λ k. (f k).1) in ground arith,
    )
