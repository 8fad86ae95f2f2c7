-- ===== src/Session/Memory/Tests.antt =====
-- Runs of the session service on concrete data.
use fp.Common.{[], ◌∷◌, none, ◌≡◌, ◌⊎◌, refl, arith}
use fp.Common.Int.{pos, ◌+ℤ◌, ◌-ℤ◌, ◌≤ℤ◌, ◌<ℤ◌, thousand, million}
use fp.Session.Policy.{validate_policy, max_expires_at, remaining_at}
use fp.Session.Policy.Lifetime.{IsInt64, remaining_at_bounds, remaining_at-IsInt64}
use fp.Session.Memory.{Maps}
use fp.Session.Memory.Sample.{quick, login, ann_db}

quick_is_sound : validate_policy quick ≡ none
unfolding validate_policy
quick_is_sound = refl

remaining_at_bounds_example :
    let s = login "t1" "shop" "s1" in
    let now = pos 104000 in
    (pos 0 ≤ℤ remaining_at s now quick)
    × (pos 0 <ℤ remaining_at s now quick
        → (now +ℤ remaining_at s now quick ≤ℤ s.idle_expires_at)
          × (now +ℤ remaining_at s now quick ≤ℤ max_expires_at s quick))
    × ((s.idle_expires_at ≤ℤ now) ⊎ (max_expires_at s quick ≤ℤ now)
        → remaining_at s now quick ≡ pos 0)
    × (now <ℤ s.idle_expires_at
        → now <ℤ max_expires_at s quick
        → (pos 0 <ℤ remaining_at s now quick)
          × ((now +ℤ remaining_at s now quick ≡ s.idle_expires_at)
              ⊎ (now +ℤ remaining_at s now quick ≡ max_expires_at s quick)))
remaining_at_bounds_example = remaining_at_bounds (login "t1" "shop" "s1") (pos 104000) quick

remaining_at-IsInt64_example :
    let s = login "t1" "shop" "s1" in
    let now = pos 104000 in
    IsInt64 (thousand quick.max_lifetime_seconds)
    × IsInt64 (max_expires_at s quick)
    × IsInt64 (s.idle_expires_at -ℤ now)
    × IsInt64 (max_expires_at s quick -ℤ now)
    × IsInt64 (million (remaining_at s now quick))
unfolding ◌+ℤ◌
remaining_at-IsInt64_example =
    remaining_at-IsInt64 (login "t1" "shop" "s1") (pos 104000) quick (omega arith, omega arith)
      (omega arith) (omega arith) (omega arith) (omega arith) (omega arith) (omega arith)

abbrev swept_db : Maps
swept_db = record ann_db { members = ("ann", "t1" ∷ "t2" ∷ "t3" ∷ []) ∷ [] }
