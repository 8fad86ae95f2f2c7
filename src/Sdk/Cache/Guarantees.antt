-- ===== src/Sdk/Cache/Guarantees.antt =====
-- What an application may rely on when it keeps judgements in the cache of sdk/cache.go.
use fp.Common.{
  String, ℕ, ◌≤◌, ◌<◌, leb, ◌⊎◌, true, false, List, [], ◌∷◌, Option, none, some, ◌==◌,
  if◌then◌else◌, ◌≡◌, ◌≢◌, ◌↔◌, refl, ap, sym, ◌∙◌, arith, eq_iff, inl, inr, Bool-cases,
}
use fp.Common.Lists.{contains, contains_iff}
use fp.Common.Int.{ℤ}
use fp.Sdk.Lru.{Lru}
use fp.Sdk.Cache.{Entry, Cache, new_cache, is_users, remove_user, drop_user}
use fp.Sdk.Cache.Fewer.{remove_user-Shrinks}
use fp.Sdk.Cache.Journal.{Landing, World, new_world, Reach, IsOrderly}
use fp.Sdk.Cache.Order.{Reach-IsOrderly}

module _ {P : Type 0} (l : Lru (Entry P)) where
  open l use {Store, peek, create, create_peek, remove_peek, keys_complete}

  new_cache-empty :
      (size : ℤ) (c : Cache Store)
      → new_cache l size ≡ some c
      → (c.gen ≡ 0) × ((k : String) → peek k c.lru ≡ none)
  unfolding new_cache
  new_cache-empty size c h = go (create size) refl h
    where
      go :
          (o : Option Store)
          → create size ≡ o
          → elim o as (λ _. Option (Cache Store)) [
            | none ↦ none
            | some s ↦ some (record { lru = s; gen = 0 })
          ]
            ≡ some c
          → (c.gen ≡ 0) × ((k : String) → peek k c.lru ≡ none)
      go none e q = absurd (cc)
      go (some s) e q = (ground arith, λ k. ground (arith, create_peek size s e k))

  new_world-IsOrderly :
      (size : ℤ) (c : Cache Store) → new_cache l size ≡ some c → IsOrderly l (new_world l c)
  unfolding new_world
  new_world-IsOrderly size c h =
      let (g, n) = new_cache-empty size c h in
      record {
        gen = ground (arith, g);
        flights = tt;
        writes = tt;
        removals = tt;
        purges = tt;
        dropped = λ k. omega arith;
        fresh = λ k e q. absurd (ground (arith, n k));
      }

  -- The entry is the answer of a request during which no drop or purge came between its start and
  -- the comparison of the generation. Those that have removed the key either came before the start
  -- of the request, or between the comparison and the write.
  abbrev pub IsSettled : World P Store → String → Entry P → Type 0
  IsSettled w k e =
      (o : Landing P) × (w.origin k ≡ some o)
      × (o.entry ≡ e)
      × (o.begun ≡ o.compared)
      × ((w.dropped k ≤ o.begun) ⊎ ((o.compared < w.dropped k) × (w.dropped k ≤ o.written)))

  -- From the start of a process on, and however the steps of concurrent queries, drops, purges and
  -- answers of the server interleave (each answer compared before the 64-bit generation has come
  -- round), an entry under a key is an answer as it was written, and no drop or purge came between
  -- the start of its request and its comparison with the generation. The latest drop or purge that
  -- has removed this key advanced the generation before the request started, or else between the
  -- comparison and the write: the two are not one step, and only there an answer from before the
  -- drop can stay in the cache.
  pub entries_are-IsSettled :
      (size : ℤ) (c : Cache Store) (w : World P Store) (k : String) (e : Entry P)
      → new_cache l size ≡ some c
      → Reach l (new_world l c) w
      → peek k w.cache.lru ≡ some e
      → IsSettled w k e
  entries_are-IsSettled size c w k e h r found =
      let orderly = Reach-IsOrderly l (new_world l c) w (new_world-IsOrderly size c h) r in
      let (o, from, same, checked, low) = orderly.fresh k e found in
      (o, from, same, checked, settle o.begun o.compared o.written (w.dropped k) checked low)
    where
      settle : (b m v d : ℕ) → b ≡ m → d ≤ v → (d ≤ b) ⊎ ((m < d) × (d ≤ v))
      settle b m v d same low = elim (Bool-cases (leb d b)) [
        | inl y ↦ inl (ground arith)
        | inr n ↦ inr (ground arith)
      ]

  -- One round of the loop.
  abbrev forget_key : String → String → Store → Store
  forget_key user j s = if is_users l user (peek j s) then l.remove j s else s

  forget_key-Shrinks :
      (user j : String) (s : Store) (k : String) (e : Entry P)
      → peek k (forget_key user j s) ≡ some e
      → (j ≡ k → e.user_id ≢ user)
  unfolding is_users
  forget_key-Shrinks user j s k e h same u = elim (Bool-cases (is_users l user (peek j s))) [
    | inl b ↦ ground (arith, remove_peek j k s, eq_iff j k)
    | inr b ↦
        let held : peek j s ≡ some e = ap (λ x. peek x s) same ∙ ground arith in
        let not_users : (e.user_id == user) ≡ false = sym (ap (is_users l user) held) ∙ b in
        ground (arith, eq_iff e.user_id user)
  ]

  forget_key-stays :
      (user j : String) (s : Store) (k : String) (e : Entry P)
      → peek k s ≡ some e
      → e.user_id ≢ user
      → peek k (forget_key user j s) ≡ some e
  unfolding is_users
  forget_key-stays user j s k e found other = elim (Bool-cases (j == k)) [
    | inl t ↦
        let held : peek j s ≡ some e = ap (λ x. peek x s) ((eq_iff j k).0 t) ∙ found in
        let not_users = ap (is_users l user) held in ground (arith, eq_iff e.user_id user)
    | inr f ↦ ground (arith, remove_peek j k s)
  ]

  remove_user-gone :
      (user : String) (ks : List String) (s : Store) (k : String) (e : Entry P)
      → contains ks k ≡ true
      → peek k (remove_user l user ks s) ≡ some e
      → e.user_id ≢ user
  unfolding remove_user
  remove_user-gone user [] s k e m found = absurd (cc)
  remove_user-gone user (j ∷ ks) s k e m found = elim (Bool-cases (j == k)) [
    | inl t ↦
        forget_key-Shrinks user j s k e
          (remove_user-Shrinks l user ks (forget_key user j s) k e found) ((eq_iff j k).0 t)
    | inr f ↦ remove_user-gone user ks (forget_key user j s) k e (ground arith) found
  ]

  remove_user-stays :
      (user : String) (ks : List String) (s : Store) (k : String) (e : Entry P)
      → peek k s ≡ some e
      → e.user_id ≢ user
      → peek k (remove_user l user ks s) ≡ some e
  unfolding remove_user
  remove_user-stays user [] s k e found other = found
  remove_user-stays user (j ∷ ks) s k e found other =
      remove_user-stays user ks (forget_key user j s) k e
        (forget_key-stays user j s k e found other) other

  -- `dropUser` for a user takes exactly the entries of this user out of the cache.
  pub drop_user_iff :
      (c : Cache Store) (user k : String) (e : Entry P)
      → user ≢ ""
      → (peek k (drop_user l c user).lru ≡ some e) ↔ ((peek k c.lru ≡ some e) × (e.user_id ≢ user))
  unfolding drop_user
  drop_user_iff c user k e named = (
    λ h.
        let was =
          remove_user-Shrinks l user (l.keys c.lru) c.lru k e (ground (arith, eq_iff user "")) in
        (
          was,
          remove_user-gone user (l.keys c.lru) c.lru k e
              ((contains_iff (l.keys c.lru) k).1 (keys_complete k e c.lru was))
              (ground (arith, eq_iff user "")),
        ),
    λ (was, other).
        ground (arith, eq_iff user "", remove_user-stays user (l.keys c.lru) c.lru k e was other),
  )
