-- ===== src/Sdk/Cache/Tests.antt =====
-- Runs of the cache of judgements on small examples.
use fp.Common.{[], ◌∷◌, some, ◌≡◌, refl, arith, inl, ◌↔◌}
use fp.Common.Int.{pos, ◌+ℤ◌, ◌-ℤ◌}
use fp.Sdk.Cache.{
  Entry, cache_fresh, cache_stale, new_cache, put_entry, get_entry, drop_tokens, generation,
  put_if_gen, is_current, next_gen, get_found_entry, judge, effective_ttl, drop_tokens,
}
use fp.Sdk.Cache.Journal.{
  Flight, Write, World, new_world, began, checked, wrote, raised, removed, Reach, here, next, begin,
  compare, write, raise, remove,
}
use fp.Sdk.Cache.Sample.{Recent}
use fp.Sdk.Cache.Examples.{Blank, alice, lru, empty, cached, held}
use fp.Sdk.Cache.Lookup.{IsYoung, get_entry_fresh_iff}
use fp.Sdk.Cache.Guarantees.{IsSettled, entries_are-IsSettled}

abbrev written : put_if_gen lru empty "t1" alice (pos 50) 0 (pos 100) ≡ held
unfolding put_if_gen is_current put_entry
written = refl

get_entry_fresh_iff_example :
    ((get_entry lru held "t1" (pos 30) (pos 0) (pos 120)).0 ≡ cache_fresh cached)
    ↔ ((lru.peek "t1" held.lru ≡ some cached) × IsYoung (pos 50) (pos 30) (pos 120 -ℤ pos 100))
get_entry_fresh_iff_example = get_entry_fresh_iff lru held "t1" cached (pos 30) (pos 0) (pos 120)

shown_stale : (get_entry lru held "t1" (pos 0) (pos 40) (pos 160)).0 ≡ cache_stale cached
unfolding get_entry get_found_entry judge effective_ttl ◌+ℤ◌ ◌-ℤ◌
shown_stale = refl

-- A request starts, and its answer is compared with the generation; its token is dropped, generation
-- and removal, and then the answer is written.
abbrev W : Type 0
W = World Blank (Recent (Entry Blank))

abbrev first : Flight
first = record { key = "t1"; gen = 0; begun = 0 }

abbrev answer : Write Blank
answer = record { key = "t1"; begun = 0; compared = 0; entry = alice; ttl = pos 50 }

abbrev w0 : W
w0 = new_world lru empty

abbrev w1 : W
w1 = began lru w0 "t1"

abbrev w2 : W
w2 = checked lru w1 first alice (pos 50)

abbrev w3 : W
w3 = raised lru w2 ("t1" ∷ [])

abbrev w4 : W
w4 = removed lru w3 1 "t1"

abbrev w5 : W
w5 = wrote lru w4 answer (pos 100)

race : Reach lru w0 w5
unfolding new_world began checked wrote raised removed is_current put_entry next_gen generation
race =
    next
      (next
        (next
          (next (next here (begin "t1" refl))
            (compare first alice (pos 50) (inl refl) (omega arith) refl))
          (raise ("t1" ∷ []) refl))
        (remove 1 ("t1" ∷ []) "t1" (inl refl) (inl refl) refl))
      (write answer (pos 100) (inl refl) refl)

dropped_token_is_back : lru.peek "t1" w5.cache.lru ≡ some cached
unfolding new_world began checked wrote raised removed is_current put_entry next_gen generation
dropped_token_is_back = refl

-- The same answer after the drop is not written.
late_answer_is_lost :
    (checked lru (removed lru (raised lru w1 ("t1" ∷ [])) 1 "t1") first alice (pos 50)).writes ≡ []
unfolding new_world began checked raised removed is_current next_gen generation
late_answer_is_lost = refl

created : new_cache lru (pos 2) ≡ some empty
unfolding new_cache
created = refl

entries_are-IsSettled_example : IsSettled lru w5 "t1" cached
entries_are-IsSettled_example =
    entries_are-IsSettled lru (pos 2) empty w5 "t1" cached created race dropped_token_is_back
