-- ===== src/Sdk/Validate/Deadline.antt =====
-- The judgements of sdk/auth.go after the events of fp, and against the lifetime of the session.
use fp.Common.{String, ◌≡◌, subst, arith}
use fp.Common.Int.{ℤ, pos, ◌<ℤ◌, ◌≤ℤ◌, ◌+ℤ◌, ◌-ℤ◌, million, million_parts, -ℤ_parts, +ℤ_parts}
use fp.Session.Policy.{SessionPolicy, Session, remaining_at, max_expires_at, cache_ttl}
use fp.Session.Policy.Lifetime.{cache_ttl_bounds, remaining_at_bounds}
use fp.Sdk.Lru.{Lru}
use fp.Sdk.Cache.{Entry, cache_fresh, Cache, get_entry}
use fp.Sdk.Cache.Lookup.{get_entry_fresh_iff}
use fp.Sdk.Validate.{max_ttl, max_stale}

within :
    (now landing asked ttl left deadline : ℤ)
    → now -ℤ landing <ℤ million ttl
    → ttl ≤ℤ left
    → asked +ℤ left ≤ℤ deadline
    → now <ℤ million deadline +ℤ (landing -ℤ million asked)
within now landing asked ttl left deadline h fits k =
    let a = -ℤ_parts now landing in
    let b = million_parts ttl in
    let d = +ℤ_parts asked left in
    let e = million_parts deadline in
    let f = million_parts asked in
    let g = -ℤ_parts landing (million asked) in
    let i = +ℤ_parts (million deadline) (landing -ℤ million asked) in
    omega (arith, h, fits, k, a, b, d, e, f, g, i)

module _ {P : Type 0} (l : Lru (Entry P)) where
  open l use {Store, peek}

  -- The clocks of fp and of the application agreeing, an answer that fp gives with `cache_ttl_ms`
  -- computed for a live session at the moment `asked`, and that lands at `landing`, is used from the
  -- cache only while the session may live: what it is used longer than the idle deadline or the
  -- longest lifetime of the session is less than the time between the two moments.
  pub fresh_within_session :
      (s : Session) (p : SessionPolicy) (asked landing now max_ttl max_stale : ℤ) (token : String)
      (e : Entry P) (c : Cache Store)
      → pos 0 <ℤ remaining_at s asked p
      → e.cached_at ≡ landing
      → e.ttl ≡ million (cache_ttl (remaining_at s asked p) p)
      → (get_entry l c token max_ttl max_stale now).0 ≡ cache_fresh e
      → (now <ℤ million s.idle_expires_at +ℤ (landing -ℤ million asked))
        × (now <ℤ million (max_expires_at s p) +ℤ (landing -ℤ million asked))
  fresh_within_session s p asked landing now a b token e c alive at ttl h =
      let young = ((get_entry_fresh_iff l c token e a b now).0 h).1.own in
      let left = remaining_at s asked p in
      let (fits, _, _, _) = cache_ttl_bounds left p in
      let y : now -ℤ landing <ℤ million (cache_ttl left p) =
        subst (λ x. now -ℤ x <ℤ million (cache_ttl left p)) at
          (subst (λ x. now -ℤ e.cached_at <ℤ x) ttl young) in
      let (_, bounds, _, _) = remaining_at_bounds s asked p in
      let (idle, longest) = bounds alive in
      (
        within now landing asked (cache_ttl left p) left s.idle_expires_at y fits idle,
        within now landing asked (cache_ttl left p) left (max_expires_at s p) y fits longest,
      )
