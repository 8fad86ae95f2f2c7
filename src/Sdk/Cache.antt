-- ===== src/Sdk/Cache.antt =====
-- sdk/cache.go: the judgements that an application has cached. Moments and durations are
-- nanoseconds as unbounded integers; the lru package is the interface of Sdk/Lru.antt. A method is a
-- function from the cache to the cache it leaves.
pub mod Fewer
pub mod Journal
pub mod Lookup
pub mod Order
pub mod Calls
pub mod Guarantees
pub mod Sample
pub mod Examples
mod Tests
use Prim.Native.String.{◌++◌ as append}
use fp.Common.{
  String, ℕ, ◌+◌, ◌%◌, Bool, true, false, ◌&&◌, List, [], ◌∷◌, Option, none, some, ◌==◌,
  if◌then◌else◌, nat_eq,
}
use fp.Common.Int.{ℤ, pos, ◌+ℤ◌, ◌-ℤ◌, ltb_ℤ, leb_ℤ}
use fp.Sdk.Lru.{Lru}

-- `accessKeyEntry`; `P` stands for netip.Prefix.
pub record AccessKeyEntry (P : Type 0) : Type 0 where
  pub id : String
  pub secret : String
  pub remark : String
  pub allowed : List P

-- `entry`; a nil accessKey is `none`.
pub record Entry (P : Type 0) : Type 0 where
  pub app_id : String
  pub user_id : String
  pub session_id : String
  pub rotated_to : String
  pub roles : List String
  pub access_key : Option (AccessKeyEntry P)
  pub cached_at : ℤ
  pub ttl : ℤ

-- `cacheState`, with the entry that `get` returns beside it.
pub data Found (P : Type 0) : Type 0 where
  cache_miss : Found P
  cache_fresh cache_stale : Entry P → Found P

-- `cache`: its lru and its generation, a uint64.
pub record Cache (S : Type 0) : Type 0 where
  pub lru : S
  pub gen : ℕ

-- `accessKeyCacheKey`
abbrev pub access_key_cache_key : String → String
access_key_cache_key id = append "ak:" id

abbrev pub gen_range : ℕ
gen_range = 18446744073709551616

-- `gen.Add(1)`
unfoldable pub next_gen : ℕ → ℕ
next_gen g = (g + 1) % gen_range

-- The validity that is left under `maxTTL`; 0 does not tighten.
unfoldable pub effective_ttl : ℤ → ℤ → ℤ
effective_ttl ttl max_ttl = if ltb_ℤ (pos 0) max_ttl && ltb_ℤ max_ttl ttl then max_ttl else ttl

-- The switch of `get` on an entry of this age.
unfoldable pub judge : {P : Type 0} → Entry P → ℤ → ℤ → ℤ → Found P
judge e max_ttl max_stale age =
    let effective = effective_ttl e.ttl max_ttl in
    if ltb_ℤ age effective
    then cache_fresh e
    else if ltb_ℤ (pos 0) max_stale && ltb_ℤ age (effective +ℤ max_stale)
    then cache_stale e
    else cache_miss

abbrev pub is_miss : {P : Type 0} → Found P → Bool
is_miss cache_miss = true
is_miss (cache_fresh _) = false
is_miss (cache_stale _) = false

module _ {P : Type 0} (l : Lru (Entry P)) where
  open l use {Store, peek, add, remove, purge, keys}

  -- `newCache`; the error of the lru package is `none`.
  unfoldable pub new_cache : ℤ → Option (Cache Store)
  new_cache size = elim (l.create size) [
    | none ↦ none
    | some s ↦ some (record { lru = s; gen = 0 })
  ]

  -- `generation`
  unfoldable pub generation : Cache Store → ℕ
  generation c = c.gen

  -- `put` at the moment `now`.
  unfoldable pub put_entry : Cache Store → String → Entry P → ℤ → ℤ → Cache Store
  put_entry c token e ttl now =
      if leb_ℤ ttl (pos 0)
      then c
      else record c { lru = add token (record e { cached_at = now; ttl = ttl }) c.lru }

  -- The first half of `putIfGen`: the generation is still the one that the request took.
  unfoldable pub is_current : Cache Store → ℕ → Bool
  is_current c gen = nat_eq c.gen gen

  -- `putIfGen` with no other call between its two halves, which hold no lock together;
  -- Sdk/Cache/Journal.antt takes them apart.
  unfoldable pub put_if_gen : Cache Store → String → Entry P → ℤ → ℕ → ℤ → Cache Store
  unfolding is_current
  put_if_gen c token e ttl gen now = if is_current c gen then put_entry c token e ttl now else c

  -- What `get` does with what the lru found: an entry that is no longer of use is removed.
  unfoldable pub get_found_entry :
      Cache Store → String → Option (Entry P) → ℤ → ℤ → ℤ → Found P × Cache Store
  get_found_entry c token none max_ttl max_stale now = (cache_miss, c)
  get_found_entry c token (some e) max_ttl max_stale now =
      let found = judge e max_ttl max_stale (now -ℤ e.cached_at) in
      (found, if is_miss found then record c { lru = remove token c.lru } else c)

  -- `get` at the moment `now`.
  unfoldable pub get_entry : Cache Store → String → ℤ → ℤ → ℤ → Found P × Cache Store
  get_entry c token max_ttl max_stale now =
      let (found, s) = l.get token c.lru in
      get_found_entry (record c { lru = s }) token found max_ttl max_stale now

  -- The loop of `drop`.
  unfoldable pub remove_tokens : List String → Store → Store
  remove_tokens [] s = s
  remove_tokens (t ∷ ts) s = remove_tokens ts (remove t s)

  -- `drop`
  unfoldable pub drop_tokens : Cache Store → List String → Cache Store
  drop_tokens c tokens = record { lru = remove_tokens tokens c.lru; gen = next_gen c.gen }

  -- `purge`
  unfoldable pub purge_cache : Cache Store → Cache Store
  purge_cache c = record { lru = purge c.lru; gen = next_gen c.gen }

  unfoldable pub is_users : String → Option (Entry P) → Bool
  is_users user none = false
  is_users user (some e) = e.user_id == user

  -- The loop of `dropUser` over the keys.
  unfoldable pub remove_user : String → List String → Store → Store
  remove_user user [] s = s
  remove_user user (k ∷ ks) s =
      remove_user user ks (if is_users user (peek k s) then remove k s else s)

  -- `dropUser`, which leaves the generation.
  unfoldable pub drop_user : Cache Store → String → Cache Store
  drop_user c user =
      if user == "" then c else record c { lru = remove_user user (keys c.lru) c.lru }
