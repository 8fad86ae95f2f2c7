-- ===== src/Sdk/Cache/Sample.antt =====
-- An implementation of the interface of Sdk/Lru.antt: the newest entries up to a capacity, which is
-- kept less one, the most recently used entry first.
use fp.Common.{
  String, ℕ, zero, suc, [], ◌∷◌, Option, none, some, ◌≡◌, refl, ap, ◌⊎◌, inl, arith, eq_iff,
  eq_refl,
}
use fp.Common.Lists.{take, In}
use fp.Common.GoMap.{GoMap, lookup, erase, keys, lookup-erase}
use fp.Common.Int.{ℤ, pos, negsuc}
use fp.Sdk.Lru.{Lru}

module _ {E : Type 0} where
  lookup-take :
      (n : ℕ) (j : String) (m : GoMap E)
      → (lookup j (take n m) ≡ none) ⊎ (lookup j (take n m) ≡ lookup j m)
  lookup-take zero j m = inl refl
  lookup-take (suc n) j [] = inl refl
  lookup-take (suc n) j ((k, e) ∷ m) = ground (arith, lookup-take n j m)

  pub lookup-keys : (j : String) (e : E) (m : GoMap E) → lookup j m ≡ some e → In j (keys m)
  lookup-keys j e [] h = absurd (cc)
  lookup-keys j e ((k, x) ∷ m) h = ground (arith, eq_iff k j, lookup-keys j e m)

pub record Recent (E : Type 0) : Type 0 where
  pub room : ℕ
  pub items : GoMap E

module _ {E : Type 0} where
  abbrev pub create_recent : ℤ → Option (Recent E)
  create_recent (pos zero) = none
  create_recent (pos (suc n)) = some (record { room = n; items = [] })
  create_recent (negsuc n) = none

  abbrev pub touch : String → Option E → Recent E → Recent E
  touch k none s = s
  touch k (some e) s = record s { items = (k, e) ∷ erase k s.items }

  abbrev pub add_recent : String → E → Recent E → Recent E
  add_recent k e s = record s { items = (k, e) ∷ take s.room (erase k s.items) }

  pub touch-rest :
      (k j : String) (o : Option E) (s : Recent E)
      → lookup k s.items ≡ o
      → lookup j (touch k o s).items ≡ lookup j s.items
  touch-rest k j none s h = refl
  touch-rest k j (some e) s h =
      let same = λ (q : k ≡ j). ap (λ x. lookup x s.items) q in
      ground (arith, eq_iff k j, lookup-erase k j s.items)

  pub add_recent-here :
      (k : String) (e : E) (s : Recent E) → lookup k (add_recent k e s).items ≡ some e
  add_recent-here k e s = ground (arith, eq_refl k)

  pub add_recent-rest :
      (k j : String) (e : E) (s : Recent E)
      → (k ≡ j)
        ⊎ ((lookup j (add_recent k e s).items ≡ none)
            ⊎ (lookup j (add_recent k e s).items ≡ lookup j s.items))
  add_recent-rest k j e s =
      ground (arith, eq_iff k j, lookup-take s.room j (erase k s.items), lookup-erase k j s.items)

  pub create_recent-empty :
      (n : ℤ) (s : Recent E) → create_recent n ≡ some s → (k : String) → lookup k s.items ≡ none
  create_recent-empty (pos zero) s h k = absurd (cc)
  create_recent-empty (pos (suc n)) s h k = ground arith
  create_recent-empty (negsuc n) s h k = absurd (cc)

abbrev pub recent : (E : Type 0) → Lru E
recent E = record {
  Store = Recent E;
  create = create_recent;
  peek = λ k s. lookup k s.items;
  get = λ k s. (lookup k s.items, touch k (lookup k s.items) s);
  add = add_recent;
  remove = λ k s. record s { items = erase k s.items };
  purge = λ s. record s { items = [] };
  keys = λ s. keys s.items;
  create_peek = create_recent-empty;
  get_found = λ k s. refl;
  get_rest = λ k j s. touch-rest k j (lookup k s.items) s refl;
  add_here = add_recent-here;
  add_rest = add_recent-rest;
  remove_peek = λ k j s. lookup-erase k j s.items;
  purge_peek = λ j s. refl;
  keys_complete = λ j e s h. lookup-keys j e s.items h;
}
