-- ===== src/Sdk/Watch.antt =====
-- sdk/client.go: the stream of events from fp, `watchOnce`, and how it is kept up, `runWatch`. The
-- fetches of the policy and of the configuration are counted; what they bring is left out here.
pub mod Cleared
mod Tests
use fp.Common.{
  String, ℕ, suc, Bool, true, false, ◌&&◌, List, [], ◌∷◌, Option, none, some, if◌then◌else◌,
}
use fp.Common.Int.{ℤ, pos, ◌+ℤ◌, ltb_ℤ, leb_ℤ, billion}
use fp.Sdk.Lru.{Lru}
use fp.Sdk.Cache.{Entry, Cache, access_key_cache_key, drop_tokens, drop_user}
use fp.Sdk.Validate.{on_revoke, on_purge}

-- The messages of the stream; one of another kind is `unknown`.
pub data WatchEvent : Type 0 where
  ready purge policy_changed config_changed unknown : WatchEvent
  revoke : List String → WatchEvent
  user_role_changed access_key_changed : String → WatchEvent

pub record WatchState (S : Type 0) : Type 0 where
  pub cache : Cache S
  pub stream_up : Bool
  pub policy_fetches : ℕ
  pub config_reloads : ℕ

module _ {P : Type 0} (l : Lru (Entry P)) where
  open l use {Store}

  -- The switch of `watchOnce`.
  unfoldable pub on_event : WatchState Store → WatchEvent → WatchState Store
  on_event w WatchEvent.ready = record w {
    cache = on_purge l w.cache;
    stream_up = true;
    policy_fetches = suc w.policy_fetches;
    config_reloads = suc w.config_reloads;
  }
  on_event w (revoke tokens) = record w { cache = on_revoke l w.cache tokens }
  on_event w WatchEvent.purge = record w {
    cache = on_purge l w.cache;
    policy_fetches = suc w.policy_fetches;
  }
  on_event w WatchEvent.policy_changed = record w { policy_fetches = suc w.policy_fetches }
  on_event w (user_role_changed user) = record w { cache = drop_user l w.cache user }
  on_event w (access_key_changed id) = record w {
    cache = drop_tokens l w.cache (access_key_cache_key id ∷ []);
  }
  on_event w WatchEvent.config_changed = record w { config_reloads = suc w.config_reloads }
  on_event w WatchEvent.unknown = w

  -- `gotReady` after a message.
  unfoldable pub got_ready : Bool → WatchEvent → Bool
  got_ready before WatchEvent.ready = true
  got_ready before _ = before

-- `healthyConnDuration`, and the bounds of the delay before the next connection.
abbrev pub healthy_conn_duration : ℤ
healthy_conn_duration = pos 5000000000

abbrev pub min_backoff : ℤ
min_backoff = pos 200000000

abbrev pub max_backoff : ℤ
max_backoff = pos 30000000000

-- A connection that was ready and lasted resets the delay.
unfoldable pub is_healthy : Bool → ℤ → Bool
is_healthy was_ready lasted = was_ready && leb_ℤ healthy_conn_duration lasted

-- One round of `runWatch`: the delay that is waited, and the delay of the next round.
unfoldable pub next_backoff : Bool → ℤ → ℤ → ℤ × ℤ
next_backoff was_ready lasted backoff =
    if is_healthy was_ready lasted
    then (min_backoff, min_backoff)
    else if ltb_ℤ max_backoff (backoff +ℤ backoff)
    then (backoff, max_backoff)
    else (backoff, backoff +ℤ backoff)

-- The rounds that end with these connections, whether ready and how long: the delay after them.
unfoldable pub backoff_after : List (Bool × ℤ) → ℤ → ℤ
backoff_after [] backoff = backoff
backoff_after ((was_ready, lasted) ∷ rounds) backoff =
    backoff_after rounds (next_backoff was_ready lasted backoff).1
