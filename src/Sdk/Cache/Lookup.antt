-- ===== src/Sdk/Cache/Lookup.antt =====
-- What `get` of sdk/cache.go answers, by the age of the entry.
use fp.Common.{String, ◌⊎◌, Option, none, some, ◌≡◌, refl, sym, ◌∙◌, ◌↔◌, arith, ap, subst}
use fp.Common.Int.{ℤ, pos, ◌<ℤ◌, ◌≤ℤ◌, ◌+ℤ◌, ◌-ℤ◌, +ℤ_parts}
use fp.Sdk.Lru.{Lru}
use fp.Sdk.Cache.{
  Entry, Found, cache_miss, cache_fresh, cache_stale, Cache, effective_ttl, judge, get_found_entry,
  get_entry,
}

-- An entry of this age may be used: it is younger than its own lifetime, and than the limit if
-- there is one.
pub record IsYoung (ttl max_ttl age : ℤ) : Type 0 where
  pub own : age <ℤ ttl
  pub limit : pos 0 <ℤ max_ttl → age <ℤ max_ttl

pub effective_ttl_iff :
    (ttl max_ttl age : ℤ) → (age <ℤ effective_ttl ttl max_ttl) ↔ IsYoung ttl max_ttl age
unfolding effective_ttl
effective_ttl_iff ttl max_ttl age = (
  λ h. record { own = ground arith; limit = λ k. ground arith },
  λ y. let a = y.own in let b = y.limit in ground arith,
)

-- An entry of this age may be used no more, but the time that is allowed for stale entries has not
-- passed since it was young.
pub record IsPast (ttl max_ttl max_stale age : ℤ) : Type 0 where
  pub old : ¬ IsYoung ttl max_ttl age
  pub own : age <ℤ ttl +ℤ max_stale
  pub limit : pos 0 <ℤ max_ttl → age <ℤ max_ttl +ℤ max_stale

effective_ttl_cases :
    (ttl max_ttl : ℤ)
    → ((effective_ttl ttl max_ttl ≡ ttl) × (pos 0 <ℤ max_ttl → ttl ≤ℤ max_ttl))
      ⊎ ((effective_ttl ttl max_ttl ≡ max_ttl) × (pos 0 <ℤ max_ttl) × (max_ttl ≤ℤ ttl))
unfolding effective_ttl
effective_ttl_cases ttl max_ttl = ground arith

IsPast-of :
    (ttl max_ttl max_stale age : ℤ)
    → effective_ttl ttl max_ttl ≤ℤ age
    → age <ℤ effective_ttl ttl max_ttl +ℤ max_stale
    → IsPast ttl max_ttl max_stale age
IsPast-of ttl max_ttl max_stale age old late =
    let c = effective_ttl_cases ttl max_ttl in
    let x = +ℤ_parts (effective_ttl ttl max_ttl) max_stale in
    let y = +ℤ_parts ttl max_stale in
    let z = +ℤ_parts max_ttl max_stale in
    record {
      old = λ young.
          let less = (effective_ttl_iff ttl max_ttl age).1 young in omega (arith, old, less);
      own = ground arith;
      limit = λ k. ground arith;
    }

module _ {P : Type 0} where
  judge-fresh :
      (e e' : Entry P) (a b age : ℤ)
      → judge e a b age ≡ cache_fresh e'
      → (e' ≡ e) × (age <ℤ effective_ttl e.ttl a)
  unfolding judge
  judge-fresh e e' a b age h = ground arith

  judge-stale :
      (e e' : Entry P) (a b age : ℤ)
      → judge e a b age ≡ cache_stale e'
      → (e' ≡ e)
        × (pos 0 <ℤ b)
        × (age <ℤ effective_ttl e.ttl a +ℤ b)
        × (effective_ttl e.ttl a ≤ℤ age)
  unfolding judge
  judge-stale e e' a b age h = ground arith

  judge-young :
      (e : Entry P) (a b age : ℤ) → age <ℤ effective_ttl e.ttl a → judge e a b age ≡ cache_fresh e
  unfolding judge
  judge-young e a b age h = ground arith

module _ {P : Type 0} (l : Lru (Entry P)) where
  open l use {Store, peek, get_found, get_rest, remove_peek}

  -- The verdict on what the lru holds.
  unfoldable pub verdict : Option (Entry P) → ℤ → ℤ → ℤ → Found P
  verdict none a b now = cache_miss
  verdict (some e) a b now = judge e a b (now -ℤ e.cached_at)

  get_found_entry-verdict :
      (c : Cache Store) (token : String) (found : Option (Entry P)) (a b now : ℤ)
      → (get_found_entry l c token found a b now).0 ≡ verdict found a b now
  unfolding get_found_entry verdict
  get_found_entry-verdict c token none a b now = refl
  get_found_entry-verdict c token (some e) a b now = refl

  pub get_entry-verdict :
      (c : Cache Store) (token : String) (a b now : ℤ)
      → (get_entry l c token a b now).0 ≡ verdict (peek token c.lru) a b now
  unfolding get_entry
  get_entry-verdict c token a b now =
      let s = (l.get token c.lru).1 in
      let found = (l.get token c.lru).0 in
      get_found_entry-verdict (record c { lru = s }) token found a b now
      ∙ ap (λ o. verdict o a b now) (get_found token c.lru)

  verdict-fresh :
      (held : Option (Entry P)) (e : Entry P) (a b now : ℤ)
      → verdict held a b now ≡ cache_fresh e
      → (held ≡ some e) × (now -ℤ e.cached_at <ℤ effective_ttl e.ttl a)
  unfolding verdict
  verdict-fresh none e a b now h = absurd (cc)
  verdict-fresh (some x) e a b now h =
      let (same, young) = judge-fresh x e a b (now -ℤ x.cached_at) h in
      (
        ap some (sym same),
        subst (λ y. now -ℤ y.cached_at <ℤ effective_ttl y.ttl a) (sym same) young,
      )

  verdict-stale :
      (held : Option (Entry P)) (e : Entry P) (a b now : ℤ)
      → verdict held a b now ≡ cache_stale e
      → (held ≡ some e) × (pos 0 <ℤ b) × IsPast e.ttl a b (now -ℤ e.cached_at)
  unfolding verdict
  verdict-stale none e a b now h = absurd (cc)
  verdict-stale (some x) e a b now h =
      let (same, shown, late, old) = judge-stale x e a b (now -ℤ x.cached_at) h in
      let past = IsPast-of x.ttl a b (now -ℤ x.cached_at) old late in
      (
        ap some (sym same),
        shown,
        subst (λ y. IsPast y.ttl a b (now -ℤ y.cached_at)) (sym same) past,
      )

  -- `get` answers "fresh" exactly if the entry is in the cache and younger than its own lifetime and
  -- than the limit of this query, if it sets one: a limit shortens the lifetime of entries that are
  -- already cached and never lengthens it.
  pub get_entry_fresh_iff :
      (c : Cache Store) (token : String) (e : Entry P) (max_ttl max_stale now : ℤ)
      → ((get_entry l c token max_ttl max_stale now).0 ≡ cache_fresh e)
        ↔ ((peek token c.lru ≡ some e) × IsYoung e.ttl max_ttl (now -ℤ e.cached_at))
  unfolding verdict
  get_entry_fresh_iff c token e a b now = (
    λ h.
        let (held, young) =
          verdict-fresh (peek token c.lru) e a b now
            (sym (get_entry-verdict c token a b now) ∙ h) in
        (held, (effective_ttl_iff e.ttl a (now -ℤ e.cached_at)).0 young),
    λ (held, young).
        get_entry-verdict c token a b now
        ∙ ap (λ o. verdict o a b now) held
        ∙ judge-young e a b (now -ℤ e.cached_at)
            ((effective_ttl_iff e.ttl a (now -ℤ e.cached_at)).1 young),
  )

  -- A stale entry is shown only if the query allows it, only when it may be used no more, and never
  -- longer than the allowed time after that.
  pub stale_is_bounded :
      (c : Cache Store) (token : String) (e : Entry P) (max_ttl max_stale now : ℤ)
      → (get_entry l c token max_ttl max_stale now).0 ≡ cache_stale e
      → (peek token c.lru ≡ some e)
        × (pos 0 <ℤ max_stale)
        × IsPast e.ttl max_ttl max_stale (now -ℤ e.cached_at)
  stale_is_bounded c token e a b now h =
      verdict-stale (peek token c.lru) e a b now (sym (get_entry-verdict c token a b now) ∙ h)
