-- ===== src/Sdk/Cache/Examples.antt =====
-- Entries and caches on which the examples of the SDK run.
use fp.Common.{[], ◌∷◌, none}
use fp.Common.Int.{pos}
use fp.Sdk.Lru.{Lru}
use fp.Sdk.Cache.{Entry, Cache}
use fp.Sdk.Cache.Sample.{Recent, recent}

abbrev pub Blank : Type 0
Blank = Unit {0}

abbrev pub alice : Entry Blank
alice = record {
  app_id = "shop";
  user_id = "u1";
  session_id = "s1";
  rotated_to = "";
  roles = "user" ∷ [];
  access_key = none;
  cached_at = pos 0;
  ttl = pos 0;
}

abbrev pub lru : Lru (Entry Blank)
lru = recent (Entry Blank)

abbrev pub empty : Cache (Recent (Entry Blank))
empty = record { lru = record { room = 1; items = [] }; gen = 0 }

-- The entry of alice, cached at 100 for 50.
abbrev pub cached : Entry Blank
cached = record alice { cached_at = pos 100; ttl = pos 50 }

abbrev pub held : Cache (Recent (Entry Blank))
held = record { lru = record { room = 1; items = ("t1", cached) ∷ [] }; gen = 0 }
