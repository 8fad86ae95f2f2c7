-- ===== src/Sdk/Watch/Tests.antt =====
-- The handling of events on small examples.
use fp.Common.{String, false, [], ◌∷◌, none, some, ◌≡◌, ◌≢◌, refl, arith, eq_iff}
use fp.Sdk.Cache.{Entry, access_key_cache_key}
use fp.Sdk.Cache.Sample.{Recent}
use fp.Sdk.Cache.Examples.{lru, held, cached, Blank}
use fp.Sdk.Watch.{WatchEvent, revoke, user_role_changed, access_key_changed, WatchState, on_event}
use fp.Sdk.Watch.Cleared.{events_clear_the_cache}

abbrev waiting : WatchState (Recent (Entry Blank))
waiting = record { cache = held; stream_up = false; policy_fetches = 0; config_reloads = 0 }

events_clear_the_cache_example :
    ((k : String) → lru.peek k (on_event lru waiting WatchEvent.ready).cache.lru ≡ none)
    × ((k : String) → lru.peek k (on_event lru waiting WatchEvent.purge).cache.lru ≡ none)
    × (lru.peek "t1" (on_event lru waiting (revoke ("t1" ∷ []))).cache.lru ≡ none)
    × ((k : String)
        → lru.peek k (on_event lru waiting (user_role_changed "u1")).cache.lru ≢ some cached)
    × (lru.peek
          (access_key_cache_key "AK1")
          (on_event lru waiting (access_key_changed "AK1")).cache.lru
        ≡ none)
events_clear_the_cache_example =
    events_clear_the_cache lru waiting "t1" "u1" "AK1" ("t1" ∷ []) cached refl
      (λ h. ground (arith, eq_iff "u1" "")) refl
