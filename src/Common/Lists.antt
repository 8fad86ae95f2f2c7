-- ===== src/Common/Lists.antt =====
-- Lists: measured by native numbers, searched for a text.
use Prim.Native.Nat.{ℕ, suc, ◌+◌, zero}
use Prim.Native.String.{String}
use mathlib.Core.Path.{◌≡◌, refl, subst}
use mathlib.Core.Bool.{Bool, true, false, ◌||◌}
use mathlib.Core.List.{List, [], ◌∷◌, ◌++◌}
use mathlib.Core.Logic.{◌⊎◌, inl, inr, ◌↔◌}
use native.Mathlib.Omega.{arith}
use text.Mathlib.TextEquality.{eq_iff}
use fp.Common.Tests.{◌==◌, if◌then◌else◌}

module _ {ℓ} {A : Type ℓ} where
  abbrev pub length : List A → ℕ
  length [] = 0
  length (x ∷ xs) = suc (length xs)

  pub length-append : (xs ys : List A) → length (xs ++ ys) ≡ length xs + length ys
  length-append [] ys = omega arith
  length-append (x ∷ xs) ys = omega (arith, length-append xs ys)

  abbrev pub take : ℕ → List A → List A
  take zero xs = []
  take (suc n) [] = []
  take (suc n) (x ∷ xs) = x ∷ take n xs

  abbrev pub drop : ℕ → List A → List A
  drop zero xs = xs
  drop (suc n) [] = []
  drop (suc n) (x ∷ xs) = drop n xs

  pub take-append-drop : (n : ℕ) (xs : List A) → take n xs ++ drop n xs ≡ xs
  take-append-drop zero xs = refl
  take-append-drop (suc n) [] = refl
  take-append-drop (suc n) (x ∷ xs) = rw (take-append-drop n xs)

  -- The elements that pass a Boolean test, in order.
  abbrev pub filter : (A → Bool) → List A → List A
  filter p [] = []
  filter p (x ∷ xs) = if p x then x ∷ filter p xs else filter p xs

  abbrev pub any : (A → Bool) → List A → Bool
  any p [] = false
  any p (x ∷ xs) = p x || any p xs

-- What holds of every element, by recursion.
abbrev pub All {ℓ κ} : {A : Type ℓ} → (A → Type κ) → List A → Type κ
All P [] = Unit
All P (x ∷ xs) = P x × All P xs

-- An element that satisfies `P`, with its place kept.
abbrev pub Some {ℓ} : {A : Type ℓ} → (A → Type 0) → List A → Type 0
Some P [] = ⊥
Some P (x ∷ xs) = P x ⊎ Some P xs

-- `x` occurs in the list.
abbrev pub In : {A : Type 0} → A → List A → Type 0
In a xs = Some (λ x. x ≡ a) xs

-- `slices.Contains` on strings.
abbrev pub contains : List String → String → Bool
contains [] s = false
contains (x ∷ xs) s = x == s || contains xs s

pub contains_iff : (xs : List String) (s : String) → (contains xs s ≡ true) ↔ In s xs
contains_iff [] s = (λ h. cc, λ h. elim h [ ])
contains_iff (x ∷ xs) s = ground (arith, eq_iff x s, contains_iff xs s)

-- `any` decides `Some` when the test decides the predicate.
pub any_iff :
    {A : Type 0} (q : A → Bool) (P : A → Type 0)
    → ((a : A) → (q a ≡ true) ↔ P a)
    → (xs : List A) → (any q xs ≡ true) ↔ Some P xs
any_iff q P h [] = (λ e. cc, λ e. elim e [ ])
any_iff q P h (x ∷ xs) = ground (arith, h x, any_iff q P h xs)

module _ {A : Type 0} (P : A → Type 0) where
  pub All-append : (xs ys : List A) → All P xs → All P ys → All P (xs ++ ys)
  All-append [] ys h k = k
  All-append (x ∷ xs) ys (p, h) k = (p, All-append xs ys h k)

  pub All-append-left : (xs ys : List A) → All P (xs ++ ys) → All P xs
  All-append-left [] ys h = tt
  All-append-left (x ∷ xs) ys (p, h) = (p, All-append-left xs ys h)

  pub All-append-right : (xs ys : List A) → All P (xs ++ ys) → All P ys
  All-append-right [] ys h = h
  All-append-right (x ∷ xs) ys (p, h) = All-append-right xs ys h

  pub Some-append-left : (xs ys : List A) → Some P xs → Some P (xs ++ ys)
  Some-append-left [] ys s = absurd s
  Some-append-left (x ∷ xs) ys (inl p) = inl p
  Some-append-left (x ∷ xs) ys (inr s) = inr (Some-append-left xs ys s)

  pub Some-append-right : (xs ys : List A) → Some P ys → Some P (xs ++ ys)
  Some-append-right [] ys s = s
  Some-append-right (x ∷ xs) ys s = inr (Some-append-right xs ys s)

  pub Some-append : (xs ys : List A) → Some P (xs ++ ys) → Some P xs ⊎ Some P ys
  Some-append [] ys s = inr s
  Some-append (x ∷ xs) ys (inl p) = inl (inl p)
  Some-append (x ∷ xs) ys (inr s) = elim (Some-append xs ys s) [
    | inl l ↦ inl (inr l)
    | inr t ↦ inr t
  ]

-- An element of a list whose elements all satisfy `P`.
pub All-In : {A : Type 0} (P : A → Type 0) (a : A) (xs : List A) → All P xs → In a xs → P a
All-In P a [] h m = absurd m
All-In P a (x ∷ xs) (p, h) (inl e) = subst P e p
All-In P a (x ∷ xs) (p, h) (inr m) = All-In P a xs h m
