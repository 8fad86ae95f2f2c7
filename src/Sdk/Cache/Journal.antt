-- ===== src/Sdk/Cache/Journal.antt =====
-- The cache of sdk/cache.go together with the calls that are under way. The lru has a lock of its own
-- and the generation is atomic, but `putIfGen`, `drop`, `purge`, `get` and `dropUser` hold no lock:
-- their parts are steps of their own here, and the steps of all calls follow one another in any order.
use fp.Common.{
  String, ℕ, suc, ◌+◌, ◌%◌, ◌≤◌, ◌<◌, ltb, ◌&&◌, List, [], ◌∷◌, Option, none, some, ◌==◌,
  if◌then◌else◌, ◌≡◌,
}
use fp.Common.Lists.{All, In}
use fp.Common.Int.{ℤ, pos, ltb_ℤ}
use fp.Sdk.Lru.{Lru}
use fp.Sdk.Cache.{Entry, Cache, gen_range, next_gen, generation, is_current, put_entry}

-- A request to the server that has not been answered: the key its answer goes to, the generation it
-- took, and the number of drops and purges before it started.
pub record Flight : Type 0 where
  pub key : String
  pub gen : ℕ
  pub begun : ℕ

-- An answer whose generation has been compared and that has not been written yet: `compared` is the
-- number of drops and purges before the comparison.
pub record Write (P : Type 0) : Type 0 where
  pub key : String
  pub begun : ℕ
  pub compared : ℕ
  pub entry : Entry P
  pub ttl : ℤ

-- An entry as it was written, with the number of drops and purges before the start of its request,
-- before the comparison and before the write.
pub record Landing (P : Type 0) : Type 0 where
  pub begun : ℕ
  pub compared : ℕ
  pub written : ℕ
  pub entry : Entry P

-- `drops` counts the drops and purges that have advanced the generation, which numbers them.
-- `removals` are the drops with their tokens and `purges` the purges that may still be removing.
-- `dropped` is the highest number of those that have removed a key, and `origin` what was last
-- written under it.
pub record World (P S : Type 0) : Type 0 where
  pub cache : Cache S
  pub flights : List Flight
  pub writes : List (Write P)
  pub drops : ℕ
  pub removals : List (ℕ × List String)
  pub purges : List ℕ
  pub dropped : String → ℕ
  pub origin : String → Option (Landing P)

-- A request took the generation of its start.
abbrev pub IsTimed : ℕ → Flight → Type 0
IsTimed drops f = (f.gen ≡ f.begun % gen_range) × (f.begun ≤ drops)

-- No drop or purge has come between the start of the request and the comparison.
abbrev pub IsChecked : {P : Type 0} → ℕ → Write P → Type 0
IsChecked drops p = (p.begun ≡ p.compared) × (p.compared ≤ drops)

abbrev pub IsNumbered : ℕ → ℕ × List String → Type 0
IsNumbered drops r = r.0 ≤ drops

abbrev pub latest : ℕ → ℕ → ℕ
latest n m = if ltb m n then n else m

module _ {P : Type 0} (l : Lru (Entry P)) where
  open l use {Store, peek, get_rest, add_rest, remove_peek, purge_peek}

  -- A request to the server starts.
  unfoldable pub began : World P Store → String → World P Store
  began w key = record w {
    flights = record { key = key; gen = generation l w.cache; begun = w.drops } ∷ w.flights;
  }

  -- The two halves of `putIfGen` for an answer: the comparison and the write.
  unfoldable pub checked : World P Store → Flight → Entry P → ℤ → World P Store
  checked w f e ttl =
      if is_current l w.cache f.gen
      then record w {
        writes =
            record { key = f.key; begun = f.begun; compared = w.drops; entry = e; ttl = ttl }
            ∷ w.writes;
      }
      else w

  unfoldable pub wrote : World P Store → Write P → ℤ → World P Store
  wrote w p now = record w {
    cache = put_entry l w.cache p.key p.entry p.ttl now;
    origin = λ k.
        if ltb_ℤ (pos 0) p.ttl && p.key == k
        then some (record {
          begun = p.begun;
          compared = p.compared;
          written = w.drops;
          entry = record p.entry { cached_at = now; ttl = p.ttl };
        })
        else w.origin k;
  }

  -- The first line of `drop` and of `purge`.
  unfoldable pub raised : World P Store → List String → World P Store
  raised w tokens = record w {
    cache = record w.cache { gen = next_gen w.cache.gen };
    drops = suc w.drops;
    removals = (suc w.drops, tokens) ∷ w.removals;
  }

  unfoldable pub raised_all : World P Store → World P Store
  raised_all w = record w {
    cache = record w.cache { gen = next_gen w.cache.gen };
    drops = suc w.drops;
    purges = suc w.drops ∷ w.purges;
  }

  -- One round of the loop of `drop`, and the last line of `purge`.
  unfoldable pub removed : World P Store → ℕ → String → World P Store
  removed w n token = record w {
    cache = record w.cache { lru = l.remove token w.cache.lru };
    dropped = λ k. if token == k then latest n (w.dropped k) else w.dropped k;
  }

  unfoldable pub emptied : World P Store → ℕ → World P Store
  emptied w n = record w {
    cache = record w.cache { lru = l.purge w.cache.lru };
    dropped = λ k. latest n (w.dropped k);
  }

  -- The calls of the lru in `get` and `dropUser`: Get, and Remove.
  unfoldable pub looked : World P Store → String → World P Store
  looked w key = record w { cache = record w.cache { lru = (l.get key w.cache.lru).1 } }

  unfoldable pub taken : World P Store → String → World P Store
  taken w key = record w { cache = record w.cache { lru = l.remove key w.cache.lru } }

  -- A process that has just started.
  unfoldable pub new_world : Cache Store → World P Store
  new_world c = record {
    cache = c;
    flights = [];
    writes = [];
    drops = 0;
    removals = [];
    purges = [];
    dropped = λ _. 0;
    origin = λ _. none;
  }

  -- One step. An answer is compared before the generation has come round to the number it took.
  pub data Step (w w' : World P Store) : Type 0 where
    begin : (key : String) → w' ≡ began w key → Step w w'
    compare :
        (f : Flight) (e : Entry P) (ttl : ℤ)
        → In f w.flights
        → w.drops < f.begun + gen_range
        → w' ≡ checked w f e ttl
        → Step w w'
    write : (p : Write P) (now : ℤ) → In p w.writes → w' ≡ wrote w p now → Step w w'
    raise : (tokens : List String) → w' ≡ raised w tokens → Step w w'
    raise_all : w' ≡ raised_all w → Step w w'
    remove :
        (n : ℕ) (tokens : List String) (token : String)
        → In (n, tokens) w.removals
        → In token tokens
        → w' ≡ removed w n token
        → Step w w'
    empty : (n : ℕ) → In n w.purges → w' ≡ emptied w n → Step w w'
    look : (key : String) → w' ≡ looked w key → Step w w'
    take : (key : String) → w' ≡ taken w key → Step w w'

  pub data Reach (w : World P Store) : World P Store → Type 0 where
    here : Reach w w
    next : {u v : World P Store} → Reach w u → Step u v → Reach w v

  -- No drop or purge has come between the start of the request and the comparison of its answer, and
  -- those that have removed the key since came before the write.
  abbrev pub IsWhole : World P Store → String → Entry P → Type 0
  IsWhole w k e =
      (o : Landing P) × (w.origin k ≡ some o)
      × (o.entry ≡ e)
      × (o.begun ≡ o.compared)
      × (w.dropped k ≤ o.written)

  pub record IsOrderly (w : World P Store) : Type 0 where
    pub gen : w.cache.gen ≡ w.drops % gen_range
    pub flights : All (IsTimed w.drops) w.flights
    pub writes : All (IsChecked w.drops) w.writes
    pub removals : All (IsNumbered w.drops) w.removals
    pub purges : All (λ n. n ≤ w.drops) w.purges
    pub dropped : (k : String) → w.dropped k ≤ w.drops
    pub fresh : (k : String) (e : Entry P) → peek k w.cache.lru ≡ some e → IsWhole w k e
