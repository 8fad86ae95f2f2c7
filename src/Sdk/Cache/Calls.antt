-- ===== src/Sdk/Cache/Calls.antt =====
-- The methods of the cache of sdk/cache.go as runs of the steps of Sdk/Cache/Journal.antt.
use fp.Common.{◌≡◌}
use fp.Sdk.Lru.{Lru}
use fp.Sdk.Cache.{Entry, Cache}
use fp.Sdk.Cache.Journal.{World, Reach}

module _ {P : Type 0} (l : Lru (Entry P)) where
  open l use {Store, peek, keys}

  -- Steps lead from `w` to a world with the cache `c`.
  abbrev pub Makes : World P Store → Cache Store → Type 0
  Makes w c = (w' : World P Store) × Reach l w w' × (w'.cache ≡ c)
