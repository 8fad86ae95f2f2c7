-- ===== src/Session/Store/Chunks.antt =====
-- `chunkStrings` of internal/store/session.go; `chunkAny` is the same code at another type.
use fp.Common.{
  String, ℕ, zero, suc, ◌-◌, ◌≤◌, ◌<◌, List, [], ◌∷◌, ◌++◌, ltb, ◌≡◌, if◌then◌else◌, arith, ap, ◌∙◌,
  Bool-cases, inl, inr, ltb→lt,
}
use mathlib.Core.List.{append-nil}
use fp.Common.Lists.{length, take, drop, take-append-drop, All}

module _ {A : Type 0} where
  -- The loop, with one round of fuel for each element.
  unfoldable pub chunk_loop : ℕ → List A → ℕ → List (List A)
  chunk_loop zero xs size = []
  chunk_loop (suc fuel) xs size =
      let rest = chunk_loop fuel (drop size xs) size in
      let last : List (List A) = elim xs [ [] ↦ [] | x ∷ r ↦ (x ∷ r) ∷ [] ] in
      if ltb size (length xs) then take size xs ∷ rest else last

unfoldable pub chunk_strings : List String → ℕ → List (List String)
chunk_strings xs size = chunk_loop (suc (length xs)) xs size

abbrev pub concat : {A : Type 0} → List (List A) → List A
concat [] = []
concat (xs ∷ xss) = xs ++ concat xss

module _ {A : Type 0} where
  pub length-drop : (n : ℕ) (xs : List A) → length (drop n xs) ≡ length xs - n
  length-drop zero xs = omega arith
  length-drop (suc n) [] = omega arith
  length-drop (suc n) (x ∷ xs) = omega (arith, length-drop n xs)

  pub length-take-le : (n : ℕ) (xs : List A) → length (take n xs) ≤ n
  length-take-le zero xs = omega arith
  length-take-le (suc n) [] = omega arith
  length-take-le (suc n) (x ∷ xs) = omega (arith, length-take-le n xs)

  concat-chunk_loop :
      (fuel : ℕ) (xs : List A) (size : ℕ)
      → 0 < size
      → length xs < fuel
      → concat (chunk_loop fuel xs size) ≡ xs
  unfolding chunk_loop
  concat-chunk_loop zero xs size p h = absurd (omega arith)
  concat-chunk_loop (suc fuel) [] size p h = ground arith
  concat-chunk_loop (suc fuel) (x ∷ xs) size p h = elim (Bool-cases (ltb size (length (x ∷ xs)))) [
    | inl more ↦ rw more (
        ap (λ rest. take size (x ∷ xs) ++ rest)
          (concat-chunk_loop fuel (drop size (x ∷ xs)) size p
            (omega (arith, length-drop size (x ∷ xs), ltb→lt _ _ more)))
        ∙ take-append-drop size (x ∷ xs))
    | inr few ↦ rw few (append-nil (x ∷ xs))
  ]

  -- Every chunk has at most `size` elements.
  chunk_loop-length :
      (fuel : ℕ) (xs : List A) (size : ℕ)
      → 0 < size
      → All (λ c. length c ≤ size) (chunk_loop fuel xs size)
  unfolding chunk_loop
  chunk_loop-length zero xs size p = tt
  chunk_loop-length (suc fuel) [] size p = ground arith
  chunk_loop-length (suc fuel) (x ∷ xs) size p = elim (Bool-cases (ltb size (length (x ∷ xs)))) [
    | inl more ↦
        rw more (length-take-le size (x ∷ xs), chunk_loop-length fuel (drop size (x ∷ xs)) size p)
    | inr few ↦ rw few (ground arith, tt)
  ]

-- Cutting a list into chunks of a positive size loses nothing, keeps the order, and makes no chunk
-- larger than the size.
pub chunk_strings_partition :
    (xs : List String) (size : ℕ)
    → 0 < size
    → (concat (chunk_strings xs size) ≡ xs) × All (λ c. length c ≤ size) (chunk_strings xs size)
unfolding chunk_strings
chunk_strings_partition xs size p = (
  concat-chunk_loop (suc (length xs)) xs size p (omega arith),
  chunk_loop-length (suc (length xs)) xs size p,
)
