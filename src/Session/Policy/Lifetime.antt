-- ===== src/Session/Policy/Lifetime.antt =====
-- The check of a session policy and the bounds on lifetimes: internal/domain/application.go,
-- internal/domain/session.go and `cacheTTL` of internal/service/session.go.
use fp.Common.{◌*◌, ◌<◌, ◌≤◌, ◌^◌, none, ◌≡◌, ◌↔◌, ◌⊎◌, arith}
use fp.Common.Int.{
  ℤ, pos, ◌+ℤ◌, ◌-ℤ◌, ◌≤ℤ◌, ◌<ℤ◌, thousand, pos_part, neg_part, +ℤ_parts, -ℤ_parts, thousand_parts,
  million, million_parts, eq_of_parts, canonical_parts, min_ℤ, min_ℤ_cases, max_ℤ_cases,
}
use fp.Session.Policy.{
  SessionPolicy, validate_policy, Session, max_expires_at, remaining_at, grace_duration, cache_ttl,
  min_rotate_grace,
}

-- The ranges and the orders between the parameters of a policy.
pub record IsSound (p : SessionPolicy) : Type 0 where
  pub idle : pos 0 <ℤ p.idle_timeout_seconds
  pub mobile : pos 0 ≤ℤ p.idle_timeout_mobile_seconds
  pub lifetime : pos 0 <ℤ p.max_lifetime_seconds
  pub rotate : pos 0 <ℤ p.rotate_interval_seconds
  pub extend : pos 0 <ℤ p.extend_interval_seconds
  pub cache : pos 0 <ℤ p.token_cache_ttl_seconds
  pub rotate_within : p.rotate_interval_seconds ≤ℤ p.max_lifetime_seconds
  pub extend_within : p.extend_interval_seconds <ℤ p.idle_timeout_seconds
  pub cache_within : p.token_cache_ttl_seconds ≤ℤ p.idle_timeout_seconds

-- The check passes a policy exactly if its parameters lie in their ranges and in order.
pub validate_policy_iff : (p : SessionPolicy) → (validate_policy p ≡ none) ↔ IsSound p
unfolding validate_policy
validate_policy_iff p = (
  λ h. record {
    idle = ground arith;
    mobile = ground arith;
    lifetime = ground arith;
    rotate = ground arith;
    extend = ground arith;
    cache = ground arith;
    rotate_within = ground arith;
    extend_within = ground arith;
    cache_within = ground arith;
  },
  λ v. ground arith,
)

pub remaining_at_cases :
    (s : Session) (now : ℤ) (p : SessionPolicy)
    → let remain = min_ℤ (s.idle_expires_at -ℤ now) (max_expires_at s p -ℤ now) in
      ((remaining_at s now p ≡ pos 0) × (remain ≤ℤ pos 0))
      ⊎ ((remaining_at s now p ≡ remain) × (pos 0 <ℤ remain))
unfolding remaining_at
remaining_at_cases s now p = ground arith

-- The remaining lifetime is never negative. It is positive exactly while both the idle deadline and
-- the absolute one lie ahead, and then it ends at the earlier of the two; once one of them has come
-- it is zero.
pub remaining_at_bounds :
    (s : Session) (now : ℤ) (p : SessionPolicy)
    → (pos 0 ≤ℤ remaining_at s now p)
      × (pos 0 <ℤ remaining_at s now p
          → (now +ℤ remaining_at s now p ≤ℤ s.idle_expires_at)
            × (now +ℤ remaining_at s now p ≤ℤ max_expires_at s p))
      × ((s.idle_expires_at ≤ℤ now) ⊎ (max_expires_at s p ≤ℤ now) → remaining_at s now p ≡ pos 0)
      × (now <ℤ s.idle_expires_at
          → now <ℤ max_expires_at s p
          → (pos 0 <ℤ remaining_at s now p)
            × ((now +ℤ remaining_at s now p ≡ s.idle_expires_at)
                ⊎ (now +ℤ remaining_at s now p ≡ max_expires_at s p)))
remaining_at_bounds s now p =
    let a = s.idle_expires_at in
    let b = max_expires_at s p in
    let c = remaining_at_cases s now p in
    let m = min_ℤ_cases (a -ℤ now) (b -ℤ now) in
    let pa = -ℤ_parts a now in
    let pb = -ℤ_parts b now in
    let ps = +ℤ_parts now (remaining_at s now p) in
    let ea = eq_of_parts (now +ℤ remaining_at s now p) a in
    let eb = eq_of_parts (now +ℤ remaining_at s now p) b in
    (ground arith, ground arith, ground arith, λ h k. (ground arith, ground arith))

-- A judgement may be cached no longer than the policy says, no longer than the session lives, and
-- so no longer than a rotated token is kept; it may be cached for one of the first two.
pub cache_ttl_bounds :
    (r : ℤ) (p : SessionPolicy)
    → (cache_ttl r p ≤ℤ r)
      × (cache_ttl r p ≤ℤ thousand p.token_cache_ttl_seconds)
      × (cache_ttl r p ≤ℤ grace_duration p)
      × ((cache_ttl r p ≡ r) ⊎ (cache_ttl r p ≡ thousand p.token_cache_ttl_seconds))
unfolding cache_ttl grace_duration
cache_ttl_bounds r p =
    let m = min_ℤ_cases (thousand p.token_cache_ttl_seconds) r in
    let g = max_ℤ_cases min_rotate_grace (thousand p.token_cache_ttl_seconds) in
    (ground arith, ground arith, ground arith, ground arith)

-- The number is an int32, or an int64.
abbrev pub IsInt32 : ℤ → Type 0
IsInt32 a = (pos_part a < 2 ^ 31) × (neg_part a ≤ 2 ^ 31)

abbrev pub IsInt64 : ℤ → Type 0
IsInt64 a = (pos_part a < 2 ^ 63) × (neg_part a ≤ 2 ^ 63)

-- The arithmetic of RemainingAt on int64 does not wrap: for a longest lifetime in the range of int32,
-- which is its type, an authentication time, an idle deadline
-- and a clock that are not negative, the first and the last of them under 2^61 milliseconds, and a
-- deadline at most 2^31 seconds after now, each number that it computes is an int64: the product of
-- the longest lifetime and 1000, the absolute deadline, the two differences with the clock, and the
-- result in nanoseconds.
pub remaining_at-IsInt64 :
    (s : Session) (now : ℤ) (p : SessionPolicy)
    → IsInt32 p.max_lifetime_seconds
    → pos 0 ≤ℤ s.first_auth_at
    → s.first_auth_at <ℤ pos (2 ^ 61)
    → pos 0 ≤ℤ now
    → now <ℤ pos (2 ^ 61)
    → pos 0 ≤ℤ s.idle_expires_at
    → s.idle_expires_at ≤ℤ now +ℤ pos (1000 * 2 ^ 31)
    → IsInt64 (thousand p.max_lifetime_seconds)
      × IsInt64 (max_expires_at s p)
      × IsInt64 (s.idle_expires_at -ℤ now)
      × IsInt64 (max_expires_at s p -ℤ now)
      × IsInt64 (million (remaining_at s now p))
unfolding max_expires_at
remaining_at-IsInt64 s now p i32 h0 h61 n0 n61 d0 near =
    let b = remaining_at_bounds s now p in
    let e = +ℤ_parts s.first_auth_at (thousand p.max_lifetime_seconds) in
    let t = thousand_parts p.max_lifetime_seconds in
    let n = +ℤ_parts now (pos (1000 * 2 ^ 31)) in
    let w = canonical_parts (thousand p.max_lifetime_seconds) in
    let x = canonical_parts (max_expires_at s p) in
    let pd = -ℤ_parts s.idle_expires_at now in
    let pm = -ℤ_parts (max_expires_at s p) now in
    let yd = canonical_parts (s.idle_expires_at -ℤ now) in
    let ym = canonical_parts (max_expires_at s p -ℤ now) in
    (
      (ground arith, ground arith),
      (ground arith, ground arith),
      (ground arith, ground arith),
      (ground arith, ground arith),
      fits (remaining_at s now p) now s.idle_expires_at near b.0 (λ h. (b.1 h).0),
    )
  where
    fits :
        (rem now idle : ℤ)
        → idle ≤ℤ now +ℤ pos (1000 * 2 ^ 31)
        → pos 0 ≤ℤ rem
        → (pos 0 <ℤ rem → now +ℤ rem ≤ℤ idle)
        → IsInt64 (million rem)
    fits rem now idle near h k =
        let r = +ℤ_parts now rem in
        let n = +ℤ_parts now (pos (1000 * 2 ^ 31)) in
        let m = million_parts rem in
        let c = canonical_parts (million rem) in (ground arith, ground arith)
