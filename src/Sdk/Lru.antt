-- ===== src/Sdk/Lru.antt =====
-- hashicorp/golang-lru/v2 as sdk/cache.go uses it. The package is not part of the repository, so its
-- methods are fields of a record, and what the cache relies on of their documented meaning are its
-- laws. What is evicted, and when, stays open. The package has its own lock: each call is atomic.
use fp.Common.{String, List, Option, none, some, ◌==◌, if◌then◌else◌, ◌≡◌, ◌⊎◌}
use fp.Common.Lists.{In}
use fp.Common.Int.{ℤ}

pub record Lru (E : Type 0) : Type 1 where
  pub Store : Type 0
  -- New, which fails for a size that is not positive, and Peek, Get, Add, Remove, Purge, Keys.
  pub create : ℤ → Option Store
  pub peek : String → Store → Option E
  pub get : String → Store → Option E × Store
  pub add : String → E → Store → Store
  pub remove : String → Store → Store
  pub purge : Store → Store
  pub keys : Store → List String
  pub create_peek : (n : ℤ) (s : Store) → create n ≡ some s → (k : String) → peek k s ≡ none
  -- Get finds what Peek finds, and only changes what is evicted later.
  pub get_found : (k : String) (s : Store) → (get k s).0 ≡ peek k s
  pub get_rest : (k j : String) (s : Store) → peek j (get k s).1 ≡ peek j s
  -- Add stores the value; another key keeps its value or is evicted.
  pub add_here : (k : String) (e : E) (s : Store) → peek k (add k e s) ≡ some e
  pub add_rest :
      (k j : String) (e : E) (s : Store)
      → (k ≡ j) ⊎ ((peek j (add k e s) ≡ none) ⊎ (peek j (add k e s) ≡ peek j s))
  pub remove_peek :
      (k j : String) (s : Store) → peek j (remove k s) ≡ (if k == j then none else peek j s)
  pub purge_peek : (j : String) (s : Store) → peek j (purge s) ≡ none
  pub keys_complete : (j : String) (e : E) (s : Store) → peek j s ≡ some e → In j (keys s)
