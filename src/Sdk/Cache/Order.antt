-- ===== src/Sdk/Cache/Order.antt =====
-- The order of requests to the server and of drops, as the cache of sdk/cache.go sees it.
use fp.Common.{
  String, ℕ, suc, ◌+◌, ◌%◌, ◌≤◌, ◌<◌, true, ◌&&◌, List, [], ◌∷◌, some, ◌==◌, ◌≡◌, inl, inr, ap, sym,
  ◌∙◌, subst, arith, eq_iff, Bool-cases,
}
use fp.Common.Lists.{All, In, All-In}
use fp.Common.Int.{ℤ, pos, ltb_ℤ}
use fp.Sdk.Lru.{Lru}
use fp.Sdk.Cache.{Entry, gen_range, next_gen, generation, is_current, put_entry}
use fp.Sdk.Cache.Fewer.{Shrinks, remove-Shrinks, get-Shrinks}
use fp.Sdk.Cache.Journal.{
  Flight, Write, World, began, checked, wrote, raised, raised_all, removed, emptied, looked, taken,
  Step, begin, compare, write, raise, raise_all, remove, empty, look, take, Reach, here, next,
  IsTimed, IsChecked, IsNumbered, IsOrderly, IsWhole,
}

next_gen_of : (n : ℕ) → next_gen (n % gen_range) ≡ suc n % gen_range
unfolding next_gen
next_gen_of n = omega arith

-- Two moments with one generation are one moment, unless the generation has come round.
same_moment : (n m : ℕ) → n ≤ m → m < n + gen_range → n % gen_range ≡ m % gen_range → n ≡ m
same_moment n m h k e = omega (arith, h, k, e)

All-map :
    {A : Type 0} (Q R : A → Type 0) (xs : List A) → ((x : A) → Q x → R x) → All Q xs → All R xs
All-map Q R [] f h = tt
All-map Q R (x ∷ xs) f (h, hs) = (f x h, All-map Q R xs f hs)

module _ {P : Type 0} (l : Lru (Entry P)) where
  open l use {Store, peek, get_rest, add_here, add_rest, remove_peek, purge_peek}

  -- A step that only takes entries out of the cache.
  fewer-IsOrderly :
      (w : World P Store) (s : Store)
      → Shrinks l w.cache.lru s
      → IsOrderly l w
      → IsOrderly l (record w { cache = record w.cache { lru = s } })
  fewer-IsOrderly w s sh o = record {
    gen = o.gen;
    flights = o.flights;
    writes = o.writes;
    removals = o.removals;
    purges = o.purges;
    dropped = o.dropped;
    fresh = λ k e h. o.fresh k e (sh k e h);
  }

  began-IsOrderly : (w : World P Store) (key : String) → IsOrderly l w → IsOrderly l (began l w key)
  unfolding began generation
  began-IsOrderly w key o = record {
    gen = o.gen;
    flights = ((o.gen, omega arith), o.flights);
    writes = o.writes;
    removals = o.removals;
    purges = o.purges;
    dropped = o.dropped;
    fresh = o.fresh;
  }

  -- A generation that is still current has not moved since the request started.
  current-same :
      (w : World P Store) (f : Flight)
      → IsOrderly l w
      → In f w.flights
      → w.drops < f.begun + gen_range
      → is_current l w.cache f.gen ≡ true
      → f.begun ≡ w.drops
  unfolding is_current
  current-same w f o m near c =
      let (g, b) = All-In (IsTimed w.drops) f w.flights o.flights m in
      let same : w.cache.gen ≡ f.gen = ground arith in
      same_moment f.begun w.drops b near (sym g ∙ sym same ∙ o.gen)

  checked-IsOrderly :
      (w : World P Store) (f : Flight) (e : Entry P) (ttl : ℤ)
      → In f w.flights
      → w.drops < f.begun + gen_range
      → IsOrderly l w
      → IsOrderly l (checked l w f e ttl)
  unfolding checked
  checked-IsOrderly w f e ttl m near o = elim (Bool-cases (is_current l w.cache f.gen)) [
    | inl c ↦ rw (c) (record {
      gen = o.gen;
      flights = o.flights;
      writes = ((current-same w f o m near c, omega arith), o.writes);
      removals = o.removals;
      purges = o.purges;
      dropped = o.dropped;
      fresh = o.fresh;
    })
    | inr c ↦ rw (c) o
  ]

  -- An entry after a write is what was written, or it was there before.
  wrote-IsWhole :
      (w : World P Store) (p : Write P) (now : ℤ)
      → p.begun ≡ p.compared
      → IsOrderly l w
      → (k : String) (x : Entry P) → peek k (wrote l w p now).cache.lru ≡ some x
      → IsWhole l (wrote l w p now) k x
  unfolding wrote put_entry
  wrote-IsWhole w p now same o k x h = elim (Bool-cases (ltb_ℤ (pos 0) p.ttl && p.key == k)) [
    | inl t ↦
        let low = o.dropped k in
        let here = add_here p.key put w.cache.lru in
        (
          record { begun = p.begun; compared = p.compared; written = w.drops; entry = put },
          ground arith,
          ground (arith, eq_iff p.key k),
          same,
          low,
        )
    | inr n ↦
        let other = add_rest p.key k put w.cache.lru in
        let (q, from, whole, checked, low) = o.fresh k x (ground (arith, eq_iff p.key k)) in
        (q, ground arith, whole, checked, low)
  ]
    where
      put : Entry P
      put = record p.entry { cached_at = now; ttl = p.ttl }

  wrote-IsOrderly :
      (w : World P Store) (p : Write P) (now : ℤ)
      → In p w.writes
      → IsOrderly l w
      → IsOrderly l (wrote l w p now)
  unfolding wrote put_entry
  wrote-IsOrderly w p now m o = record {
    gen = ground (arith, o.gen);
    flights = o.flights;
    writes = o.writes;
    removals = o.removals;
    purges = o.purges;
    dropped = o.dropped;
    fresh = wrote-IsWhole w p now (All-In (IsChecked w.drops) p w.writes o.writes m).0 o;
  }

  -- The number of drops grows: what was before stays before.
  later_flights : (d : ℕ) (fs : List Flight) → All (IsTimed d) fs → All (IsTimed (suc d)) fs
  later_flights d fs = All-map (IsTimed d) (IsTimed (suc d)) fs (λ f (g, b). (g, omega (arith, b)))

  later_writes : (d : ℕ) (ps : List (Write P)) → All (IsChecked d) ps → All (IsChecked (suc d)) ps
  later_writes d ps =
      All-map (IsChecked d) (IsChecked (suc d)) ps (λ p (g, b). (g, omega (arith, b)))

  later_removals :
      (d : ℕ) (rs : List (ℕ × List String)) → All (IsNumbered d) rs → All (IsNumbered (suc d)) rs
  later_removals d rs = All-map (IsNumbered d) (IsNumbered (suc d)) rs (λ r b. omega (arith, b))

  later_purges : (d : ℕ) (ns : List ℕ) → All (λ n. n ≤ d) ns → All (λ n. n ≤ suc d) ns
  later_purges d ns = All-map (λ n. n ≤ d) (λ n. n ≤ suc d) ns (λ n b. omega (arith, b))

  raised-IsOrderly :
      (w : World P Store) (tokens : List String) → IsOrderly l w → IsOrderly l (raised l w tokens)
  unfolding raised
  raised-IsOrderly w tokens o = record {
    gen = ap next_gen o.gen ∙ next_gen_of w.drops;
    flights = later_flights w.drops w.flights o.flights;
    writes = later_writes w.drops w.writes o.writes;
    removals = (omega arith, later_removals w.drops w.removals o.removals);
    purges = later_purges w.drops w.purges o.purges;
    dropped = λ k. omega (arith, o.dropped k);
    fresh = o.fresh;
  }

  raised_all-IsOrderly : (w : World P Store) → IsOrderly l w → IsOrderly l (raised_all l w)
  unfolding raised_all
  raised_all-IsOrderly w o = record {
    gen = ap next_gen o.gen ∙ next_gen_of w.drops;
    flights = later_flights w.drops w.flights o.flights;
    writes = later_writes w.drops w.writes o.writes;
    removals = later_removals w.drops w.removals o.removals;
    purges = (omega arith, later_purges w.drops w.purges o.purges);
    dropped = λ k. omega (arith, o.dropped k);
    fresh = o.fresh;
  }

  removed-IsOrderly :
      (w : World P Store) (n : ℕ) (token : String)
      → n ≤ w.drops
      → IsOrderly l w
      → IsOrderly l (removed l w n token)
  unfolding removed
  removed-IsOrderly w n token low o = record {
    gen = o.gen;
    flights = o.flights;
    writes = o.writes;
    removals = o.removals;
    purges = o.purges;
    dropped = λ k. ground (arith, o.dropped k, low);
    fresh = λ k e h. elim (Bool-cases (token == k)) [
      | inl t ↦ absurd (ground (arith, remove_peek token k w.cache.lru))
      | inr f ↦ rw (f) (o.fresh k e (remove-Shrinks l token w.cache.lru k e h))
    ];
  }

  emptied-IsOrderly :
      (w : World P Store) (n : ℕ) → n ≤ w.drops → IsOrderly l w → IsOrderly l (emptied l w n)
  unfolding emptied
  emptied-IsOrderly w n low o = record {
    gen = o.gen;
    flights = o.flights;
    writes = o.writes;
    removals = o.removals;
    purges = o.purges;
    dropped = λ k. ground (arith, o.dropped k, low);
    fresh = λ k e h. absurd (ground (arith, purge_peek k w.cache.lru));
  }

  Step-IsOrderly : (w w' : World P Store) → Step l w w' → IsOrderly l w → IsOrderly l w'
  unfolding looked taken
  Step-IsOrderly w w' (begin key e) o = subst (IsOrderly l) (sym e) (began-IsOrderly w key o)
  Step-IsOrderly w w' (compare f x ttl m near e) o =
      subst (IsOrderly l) (sym e) (checked-IsOrderly w f x ttl m near o)
  Step-IsOrderly w w' (write p now m e) o =
      subst (IsOrderly l) (sym e) (wrote-IsOrderly w p now m o)
  Step-IsOrderly w w' (raise ts e) o = subst (IsOrderly l) (sym e) (raised-IsOrderly w ts o)
  Step-IsOrderly w w' (raise_all e) o = subst (IsOrderly l) (sym e) (raised_all-IsOrderly w o)
  Step-IsOrderly w w' (remove n ts t m i e) o =
      let low = All-In (IsNumbered w.drops) (n, ts) w.removals o.removals m in
      subst (IsOrderly l) (sym e) (removed-IsOrderly w n t low o)
  Step-IsOrderly w w' (empty n m e) o =
      let low = All-In (λ j. j ≤ w.drops) n w.purges o.purges m in
      subst (IsOrderly l) (sym e) (emptied-IsOrderly w n low o)
  Step-IsOrderly w w' (look key e) o =
      subst (IsOrderly l) (sym e)
        (fewer-IsOrderly w (l.get key w.cache.lru).1 (get-Shrinks l key w.cache.lru) o)
  Step-IsOrderly w w' (take key e) o =
      let s = w.cache.lru in
      subst (IsOrderly l) (sym e) (fewer-IsOrderly w (l.remove key s) (remove-Shrinks l key s) o)

  pub Reach-IsOrderly : (w w' : World P Store) → IsOrderly l w → Reach l w w' → IsOrderly l w'
  Reach-IsOrderly w w' o here = o
  Reach-IsOrderly w w' o (next {u} r s) = Step-IsOrderly u w' s (Reach-IsOrderly w u o r)
