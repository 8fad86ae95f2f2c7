-- ===== src/Session/Revoke/Events.antt =====
-- The events of one revocation: `announceBatch` of internal/service/session.go and its caller.
use fp.Common.{
  String, ℕ, zero, suc, ◌+◌, ◌-◌, ◌≤◌, ◌<◌, List, [], ◌∷◌, ◌++◌, ◌≡◌, refl, ap, sym, ◌∙◌, subst,
  arith, ltb, Bool-cases, inl, inr, ltb→lt,
}
use mathlib.Core.List.{append-nil, append_assoc}
use fp.Common.Lists.{
  length, take, drop, take-append-drop, All, length-append, All-append, All-append-left,
  All-append-right,
}
use native.Mathlib.Nat.{zero-add, suc-add}
use fp.Common.Int.{ℤ}
use fp.Session.Store.Chunks.{length-drop, length-take-le}
use fp.Session.Revoke.{
  RevokeEvent, Groups, max_tokens_per_event, slice_end, announce_from, announce_batch,
  announce_groups, revoked_count,
}

abbrev pub tokens_of : List RevokeEvent → List String
tokens_of [] = []
tokens_of (e ∷ es) = e.tokens ++ tokens_of es

drop-drop : (m n : ℕ) (xs : List String) → drop m (drop n xs) ≡ drop (n + m) xs
drop-drop m zero xs = rw zero-add
drop-drop zero (suc n) [] = ground arith
drop-drop (suc m) (suc n) [] = rw suc-add
drop-drop m (suc n) (x ∷ xs) = rw (suc-add) (drop-drop m n xs)

drop_all : (n : ℕ) (xs : List String) → length xs ≤ n → drop n xs ≡ []
drop_all zero [] h = refl
drop_all zero (x ∷ xs) h = absurd (omega arith)
drop_all (suc n) [] h = refl
drop_all (suc n) (x ∷ xs) h = drop_all n xs (omega arith)

take_all : (n : ℕ) (xs : List String) → length xs ≤ n → take n xs ≡ xs
take_all zero [] h = refl
take_all zero (x ∷ xs) h = absurd (omega arith)
take_all (suc n) [] h = refl
take_all (suc n) (x ∷ xs) h = ap (λ r. x ∷ r) (take_all n xs (omega arith))

slice_more :
    (start : ℕ) (xs : List String)
    → start + max_tokens_per_event < length xs
    → take (slice_end start (length xs) - start) (drop start xs)
        ++ drop (start + max_tokens_per_event) xs
      ≡ drop start xs
unfolding slice_end
slice_more start xs h =
    let n : slice_end start (length xs) - start ≡ max_tokens_per_event = ground arith in
    rw (n, ← drop-drop max_tokens_per_event start xs)
      (take-append-drop max_tokens_per_event (drop start xs))

slice_few :
    (start : ℕ) (xs : List String)
    → length xs ≤ start + max_tokens_per_event
    → take (slice_end start (length xs) - start) (drop start xs)
        ++ drop (start + max_tokens_per_event) xs
      ≡ drop start xs
unfolding slice_end
slice_few start xs h =
    let n : slice_end start (length xs) - start ≡ length xs - start = ground arith in
    let t = take_all (length xs - start) (drop start xs) (omega (arith, length-drop start xs)) in
    rw (n, t, drop_all (start + max_tokens_per_event) xs h) (append-nil (drop start xs))

slice_lem :
    (start : ℕ) (xs : List String)
    → take (slice_end start (length xs) - start) (drop start xs)
        ++ drop (start + max_tokens_per_event) xs
      ≡ drop start xs
slice_lem start xs = elim (Bool-cases (ltb (start + max_tokens_per_event) (length xs))) [
  | inl more ↦ slice_more start xs (ltb→lt _ _ more)
  | inr few ↦ slice_few start xs (ground arith)
]

slice_end_le : (start len : ℕ) → slice_end start len - start ≤ max_tokens_per_event
unfolding slice_end
slice_end_le start len = ground arith

module _ (tokens users : List String) (app reason : String) (now : ℤ) where
  tokens_of-announce_from :
      (fuel start : ℕ)
      → length tokens < fuel + start
      → tokens_of (announce_from fuel start tokens users app reason now) ≡ drop start tokens
  unfolding announce_from
  tokens_of-announce_from zero start h = sym (drop_all start tokens (omega arith))
  tokens_of-announce_from (suc fuel) start h = elim (Bool-cases (ltb start (length tokens))) [
    | inl more ↦
        rw (more, tokens_of-announce_from fuel (start + max_tokens_per_event) (omega arith))
          (slice_lem start tokens)
    | inr done ↦ rw done (sym (drop_all start tokens (ground arith)))
  ]

  announce_from-All :
      (fuel start : ℕ)
      → All
          (λ e. (length e.tokens ≤ max_tokens_per_event) × (e.app_id ≡ app))
          (announce_from fuel start tokens users app reason now)
  unfolding announce_from
  announce_from-All zero start = tt
  announce_from-All (suc fuel) start = ground (
    arith,
    announce_from-All fuel (start + max_tokens_per_event),
    length-take-le (slice_end start (length tokens) - start) (drop start tokens),
    slice_end_le start (length tokens),
  )

-- The events of a batch carry its tokens, all of them, once and in order, at most a thousand in one
-- event, and all name the batch's application.
pub announce_batch_partition :
    (tokens users : List String) (app reason : String) (now : ℤ)
    → (tokens_of (announce_batch tokens users app reason now) ≡ tokens)
      × All
          (λ e. (length e.tokens ≤ max_tokens_per_event) × (e.app_id ≡ app))
          (announce_batch tokens users app reason now)
unfolding announce_batch
announce_batch_partition tokens users app reason now = (
  tokens_of-announce_from tokens users app reason now (suc (length tokens)) 0 (omega arith),
  announce_from-All tokens users app reason now (suc (length tokens)) 0,
)

tokens_of-append : (es fs : List RevokeEvent) → tokens_of (es ++ fs) ≡ tokens_of es ++ tokens_of fs
tokens_of-append [] fs = refl
tokens_of-append (e ∷ es) fs =
    ap (λ r. e.tokens ++ r) (tokens_of-append es fs) ∙ sym (append_assoc e.tokens _ _)

-- The count that a revocation reports is the number of tokens in its events.
pub length-tokens_of-announce_groups :
    (gs : Groups) (reason : String) (now : ℤ)
    → length (tokens_of (announce_groups gs reason now)) ≡ revoked_count gs
unfolding announce_groups revoked_count
length-tokens_of-announce_groups [] reason now = refl
length-tokens_of-announce_groups ((app, g) ∷ gs) reason now =
    let e = (announce_batch_partition g.tokens g.users app reason now).0 in
    rw
      (
        tokens_of-append (announce_batch g.tokens g.users app reason now)
            (announce_groups gs reason now),
        e,
      )
      (omega (
        arith,
        length-append g.tokens (tokens_of (announce_groups gs reason now)),
        length-tokens_of-announce_groups gs reason now,
      ))

-- What holds of every token of every group holds of every token of every event, at its application.
pub announce_groups-All :
    (P : String → String → Type 0) (gs : Groups) (reason : String) (now : ℤ)
    → All (λ g. All (P g.0) g.1.tokens) gs
    → All (λ e. All (P e.app_id) e.tokens) (announce_groups gs reason now)
unfolding announce_groups
announce_groups-All P [] reason now h = tt
announce_groups-All P ((app, g) ∷ gs) reason now (here, later) =
    All-append _ (announce_batch g.tokens g.users app reason now) _
      (pieces (announce_batch g.tokens g.users app reason now)
        (subst (All (P app)) (sym (announce_batch_partition g.tokens g.users app reason now).0)
          here)
        (announce_batch_partition g.tokens g.users app reason now).1)
      (announce_groups-All P gs reason now later)
  where
    pieces :
        (es : List RevokeEvent)
        → All (P app) (tokens_of es)
        → All (λ e. (length e.tokens ≤ max_tokens_per_event) × (e.app_id ≡ app)) es
        → All (λ e. All (P e.app_id) e.tokens) es
    pieces [] h k = tt
    pieces (e ∷ es) h (k, ks) = (
      subst (λ a. All (P a) e.tokens) (sym k.1) (All-append-left (P app) e.tokens (tokens_of es) h),
      pieces es (All-append-right (P app) e.tokens (tokens_of es) h) ks,
    )
