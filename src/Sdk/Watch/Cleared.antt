-- ===== src/Sdk/Watch/Cleared.antt =====
-- What an event of fp leaves in the cache of the SDK, and the delays of the stream (sdk/client.go).
use fp.Common.{String, Bool, true, List, [], ◌∷◌, none, some, ◌≡◌, ◌≢◌, arith, eq_refl}
use fp.Common.Lists.{contains}
use fp.Common.Int.{ℤ, ◌≤ℤ◌, +ℤ_parts}
use fp.Sdk.Lru.{Lru}
use fp.Sdk.Cache.{Entry, access_key_cache_key, drop_tokens, purge_cache}
use fp.Sdk.Cache.Fewer.{remove_tokens-gone}
use fp.Sdk.Cache.Guarantees.{drop_user_iff}
use fp.Sdk.Validate.{on_revoke, on_purge}
use fp.Sdk.Watch.{
  WatchEvent, revoke, user_role_changed, access_key_changed, WatchState, on_event, min_backoff,
  max_backoff, next_backoff, backoff_after,
}

module _ {P : Type 0} (l : Lru (Entry P)) where
  open l use {Store, peek, purge_peek}

  -- What an event names is out of the cache once the event has been handled: `ready` and `purge` leave
  -- nothing, `revoke` none of its tokens, a change of the roles of a user (with an id that is not
  -- empty) no entry of the user, and a change of an access key not its entry.
  pub events_clear_the_cache :
      (w : WatchState Store) (token user id : String) (tokens : List String) (e : Entry P)
      → contains tokens token ≡ true
      → user ≢ ""
      → e.user_id ≡ user
      → ((k : String) → peek k (on_event l w WatchEvent.ready).cache.lru ≡ none)
        × ((k : String) → peek k (on_event l w WatchEvent.purge).cache.lru ≡ none)
        × (peek token (on_event l w (revoke tokens)).cache.lru ≡ none)
        × ((k : String) → peek k (on_event l w (user_role_changed user)).cache.lru ≢ some e)
        × (peek (access_key_cache_key id) (on_event l w (access_key_changed id)).cache.lru ≡ none)
  unfolding on_event on_purge purge_cache on_revoke drop_tokens
  events_clear_the_cache w token user id tokens e listed named theirs =
      let key = access_key_cache_key id in
      (
        λ k. purge_peek k w.cache.lru,
        λ k. purge_peek k w.cache.lru,
        remove_tokens-gone l tokens w.cache.lru token listed,
        λ k h. ((drop_user_iff l w.cache user k e named).0 h).1 theirs,
        remove_tokens-gone l (key ∷ []) w.cache.lru key (ground (arith, eq_refl key)),
      )

round :
    (was_ready : Bool) (lasted b : ℤ)
    → min_backoff ≤ℤ b
    → b ≤ℤ max_backoff
    → (min_backoff ≤ℤ (next_backoff was_ready lasted b).1)
      × ((next_backoff was_ready lasted b).1 ≤ℤ max_backoff)
unfolding next_backoff
round was_ready lasted b lo hi = let p = +ℤ_parts b b in ground arith

-- However the connections end, the delay before the next one stays between 200 milliseconds and 30
-- seconds.
pub backoff_is_bounded :
    (rounds : List (Bool × ℤ)) (backoff : ℤ)
    → min_backoff ≤ℤ backoff
    → backoff ≤ℤ max_backoff
    → (min_backoff ≤ℤ backoff_after rounds backoff) × (backoff_after rounds backoff ≤ℤ max_backoff)
unfolding backoff_after
backoff_is_bounded [] b lo hi = (lo, hi)
backoff_is_bounded ((was_ready, lasted) ∷ rounds) b lo hi =
    let (lo', hi') = round was_ready lasted b lo hi in
    backoff_is_bounded rounds (next_backoff was_ready lasted b).1 lo' hi'
