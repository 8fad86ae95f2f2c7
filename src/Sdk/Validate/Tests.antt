-- ===== src/Sdk/Validate/Tests.antt =====
-- Runs of `Validate` of sdk/auth.go on small examples.
use fp.Common.{String, true, false, [], ◌∷◌, ◌≡◌, ◌≢◌, ◌⊎◌, refl, arith}
use fp.Common.Int.{pos, ◌<ℤ◌, ◌+ℤ◌, ◌-ℤ◌, million, thousand, min_ℤ}
use fp.Session.Policy.{Session, default_session_policy, remaining_at, max_expires_at, cache_ttl}
use fp.Sdk.Cache.{
  Entry, Cache, cache_fresh, get_entry, get_found_entry, judge, effective_ttl, generation,
}
use fp.Sdk.Cache.Sample.{Recent}
use fp.Sdk.Cache.Examples.{Blank, lru, cached, held, alice}
use fp.Sdk.Error.{RpcError, RpcCode}
use fp.Sdk.Validate.{
  Options, TokenReply, Reply, replied, failed, accepted, max_ttl, max_stale, is_refusal,
  identity_from, entry_of, is_for, fresh_for, stale_for, on_failure, on_reply, sdk_validate,
}
use fp.Sdk.Validate.Accepted.{IsCached, IsStale, validate_grounds}
use fp.Sdk.Validate.Deadline.{fresh_within_session}

abbrev options : Options
options = record {
  degraded_cache_ttl = pos 10;
  allow_stale_on_outage = true;
  max_staleness = pos 40;
}

abbrev outage : RpcError
outage = record { code = RpcCode.unavailable; details = [] }

abbrev C : Type 0
C = Cache (Recent (Entry Blank))

abbrev idle : C → C
idle c = c

-- At 155 the entry of 100 has expired, and the call of fp fails.
served_stale :
    (sdk_validate lru options true "shop" "t1" (pos 155) idle (failed outage) (pos 160) held).0
    ≡ accepted (identity_from cached true)
unfolding sdk_validate get_entry get_found_entry judge effective_ttl ◌+ℤ◌ ◌-ℤ◌ max_ttl max_stale
    fresh_for stale_for is_for on_reply on_failure is_refusal generation
served_stale = refl

validate_grounds_example :
    (◌≢◌ {A = String} "t1" "")
    × (IsCached lru options true "shop" "t1" (pos 155) held (identity_from cached true)
        ⊎ (((r : TokenReply) × (◌≡◌ {A = Reply TokenReply} (failed outage) (replied r))
              × (identity_from cached true ≡ identity_from {P = Blank} (entry_of "shop" r) false))
            ⊎ ((err : RpcError) × (mid : C) × (◌≡◌ {A = Reply TokenReply}
                  (failed outage)
                  (failed err))
                × (mid
                    ≡ idle
                        (get_entry lru held "t1"
                          (max_ttl options true)
                          (max_stale options)
                          (pos 155)).1)
                × IsStale lru options true "shop" "t1" err
                    (pos 160)
                    mid
                    (identity_from cached true))))
validate_grounds_example =
    validate_grounds lru options true "shop" "t1" (pos 155) (pos 160) idle (failed outage) held
      (identity_from cached true) served_stale

abbrev judged : TokenReply
judged = record {
  user_id = "u1";
  session_id = "s1";
  new_token = "";
  roles = "user" ∷ [];
  cache_ttl_ms = pos 30;
}

-- A session that dies at 20 milliseconds, judged at 5 and cached at 6.
abbrev session : Session
session = record {
  id = "s1";
  token = "t1";
  user_id = "u1";
  app_id = "shop";
  first_auth_at = pos 0;
  issued_at = pos 0;
  last_extended_at = pos 0;
  idle_expires_at = pos 20;
  ip = "";
  ua = "";
  mobile = false;
  roles = "user" ∷ [];
  epoch = pos 0;
}

abbrev short : Entry Blank
short = record alice { cached_at = pos 6000000; ttl = pos 15000000 }

abbrev stored : C
stored = record { lru = record { room = 1; items = ("t1", short) ∷ [] }; gen = 0 }

alive : pos 0 <ℤ remaining_at session (pos 5) default_session_policy
unfolding remaining_at max_expires_at thousand default_session_policy ◌+ℤ◌ ◌-ℤ◌ min_ℤ
alive = omega arith

as_told :
    short.ttl
    ≡ million
        (cache_ttl (remaining_at session (pos 5) default_session_policy) default_session_policy)
unfolding remaining_at max_expires_at thousand default_session_policy ◌+ℤ◌ ◌-ℤ◌ min_ℤ million
    cache_ttl
as_told = refl

still_fresh : (get_entry lru stored "t1" (pos 0) (pos 0) (pos 20999999)).0 ≡ cache_fresh short
unfolding get_entry get_found_entry judge effective_ttl ◌-ℤ◌
still_fresh = refl

fresh_within_session_example :
    (pos 20999999 <ℤ million (pos 20) +ℤ (pos 6000000 -ℤ million (pos 5)))
    × (pos 20999999
        <ℤ million (max_expires_at session default_session_policy)
          +ℤ (pos 6000000 -ℤ million (pos 5)))
fresh_within_session_example =
    fresh_within_session lru session default_session_policy (pos 5) (pos 6000000) (pos 20999999)
      (pos 0) (pos 0) "t1" short stored alive refl as_told still_fresh
