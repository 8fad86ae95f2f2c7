-- ===== src/Sdk/Cache/Fewer.antt =====
-- What the removals of sdk/cache.go leave in the cache, and what they take out.
use fp.Common.{
  String, true, List, [], ◌∷◌, Option, none, some, ◌≡◌, sym, ◌∙◌, inl, inr, arith, Bool-cases,
  Option-cases,
}
use fp.Common.Lists.{contains}
use fp.Common.Int.{ℤ}
use fp.Sdk.Lru.{Lru}
use fp.Sdk.Cache.{Entry, Cache, is_users, remove_tokens, remove_user, get_found_entry, get_entry}

module _ {P : Type 0} (l : Lru (Entry P)) where
  open l use {Store, peek, get_rest, remove_peek}

  -- A cache that holds at most what another one holds.
  abbrev pub Shrinks : Store → Store → Type 0
  Shrinks s s' = (k : String) (e : Entry P) → peek k s' ≡ some e → peek k s ≡ some e

  pub remove-Shrinks : (t : String) (s : Store) → Shrinks s (l.remove t s)
  remove-Shrinks t s k e h = ground (arith, remove_peek t k s)

  pub get-Shrinks : (t : String) (s : Store) → Shrinks s (l.get t s).1
  get-Shrinks t s k e h = sym (get_rest t k s) ∙ h

  pub remove_tokens-Shrinks : (ts : List String) (s : Store) → Shrinks s (remove_tokens l ts s)
  unfolding remove_tokens
  remove_tokens-Shrinks [] s k e h = h
  remove_tokens-Shrinks (t ∷ ts) s k e h =
      remove-Shrinks t s k e (remove_tokens-Shrinks ts (l.remove t s) k e h)

  -- The dropped tokens are gone.
  pub remove_tokens-gone :
      (ts : List String) (s : Store) (k : String)
      → contains ts k ≡ true
      → peek k (remove_tokens l ts s) ≡ none
  unfolding remove_tokens
  remove_tokens-gone [] s k h = absurd (cc)
  remove_tokens-gone (t ∷ ts) s k h = elim (Option-cases (peek k (remove_tokens l (t ∷ ts) s))) [
    | inl e ↦ e
    | inr (e, found) ↦
        let left = remove_tokens-Shrinks ts (l.remove t s) k e found in
        let gone = remove_tokens-gone ts (l.remove t s) k in ground (arith, remove_peek t k s)
  ]

  pub remove_user-Shrinks :
      (user : String) (ks : List String) (s : Store) → Shrinks s (remove_user l user ks s)
  unfolding remove_user
  remove_user-Shrinks user [] s k e h = h
  remove_user-Shrinks user (j ∷ ks) s k e h = elim (Bool-cases (is_users l user (peek j s))) [
    | inl b ↦
        remove-Shrinks j s k e
          (remove_user-Shrinks user ks (l.remove j s) k e (rw (b, remove_user) at h))
    | inr b ↦ remove_user-Shrinks user ks s k e (rw (b, remove_user) at h)
  ]

  get_found_entry-Shrinks :
      (c : Cache Store) (key : String) (found : Option (Entry P)) (a b now : ℤ)
      → Shrinks c.lru (get_found_entry l c key found a b now).1.lru
  unfolding get_found_entry
  get_found_entry-Shrinks c key none a b now k e h = h
  get_found_entry-Shrinks c key (some x) a b now k e h = ground (arith, remove_peek key k c.lru)

  pub get_entry-Shrinks :
      (c : Cache Store) (key : String) (a b now : ℤ)
      → Shrinks c.lru (get_entry l c key a b now).1.lru
  unfolding get_entry
  get_entry-Shrinks c key a b now k e h =
      sym (get_rest key k c.lru)
      ∙ get_found_entry-Shrinks (record c { lru = (l.get key c.lru).1 }) key (l.get key c.lru).0 a b
          now k e h
