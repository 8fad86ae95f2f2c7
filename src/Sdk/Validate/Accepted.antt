-- ===== src/Sdk/Validate/Accepted.antt =====
-- On what grounds `Validate` of sdk/auth.go accepts a token.
use fp.Common.{
  String, ℕ, Bool, true, false, none, some, ◌==◌, ◌≡◌, ◌≢◌, refl, subst, ◌⊎◌, inl, inr, arith,
  eq_iff, Bool-cases, Option-cases,
}
use fp.Common.Int.{ℤ, pos, ◌<ℤ◌, ◌-ℤ◌}
use fp.Sdk.Lru.{Lru}
use fp.Sdk.Cache.{Entry, Found, cache_miss, cache_fresh, cache_stale, Cache, get_entry, generation}
use fp.Sdk.Cache.Lookup.{IsYoung, IsPast, get_entry_fresh_iff, stale_is_bounded}
use fp.Sdk.Error.{RpcError}
use fp.Sdk.Validate.{
  Identity, Options, TokenReply, Reply, replied, failed, accepted, max_ttl, max_stale, is_refusal,
  identity_from, entry_of, is_for, fresh_for, stale_for, on_failure, on_reply, sdk_validate,
}

-- The identity is the one of an entry that was cached for this token and application and is no
-- access key's, and that is young enough.
pub record IsCached {P : Type 0} (l : Lru (Entry P)) (o : Options) (healthy : Bool)
    (app token : String) (now : ℤ) (c : Cache (Lru.Store l)) (id : Identity) : Type 0 where
  pub entry : Entry P
  pub held : l.peek token c.lru ≡ some entry
  pub in_app : entry.app_id ≡ app
  pub no_key : entry.access_key ≡ none
  pub young : IsYoung entry.ttl (max_ttl o healthy) (now -ℤ entry.cached_at)
  pub same : id ≡ identity_from entry false

-- The same for an entry that may be used no more, shown after a call of fp has failed.
pub record IsStale {P : Type 0} (l : Lru (Entry P)) (o : Options) (healthy : Bool)
    (app token : String) (err : RpcError) (now : ℤ) (c : Cache (Lru.Store l)) (id : Identity)
    : Type 0 where
  pub entry : Entry P
  pub held : l.peek token c.lru ≡ some entry
  pub in_app : entry.app_id ≡ app
  pub no_key : entry.access_key ≡ none
  pub outage : is_refusal err.code ≡ false
  pub wanted : o.allow_stale_on_outage ≡ true
  pub past : IsPast entry.ttl (max_ttl o healthy) o.max_staleness (now -ℤ entry.cached_at)
  pub same : id ≡ identity_from entry true

max_stale-positive :
    (o : Options)
    → pos 0 <ℤ max_stale o
    → (o.allow_stale_on_outage ≡ true) × (max_stale o ≡ o.max_staleness)
unfolding max_stale
max_stale-positive o h = ground arith

identity_of-accepted : (a b : Identity) → accepted a ≡ accepted b → b ≡ a
identity_of-accepted a b h = cc

module _ {P : Type 0} where
  is_for-true :
      (app : String) (e : Entry P) → is_for app e ≡ true → (e.app_id ≡ app) × (e.access_key ≡ none)
  unfolding is_for
  is_for-true app e h = ground (arith, eq_iff e.app_id app)

  fresh_for-some :
      (app : String) (f : Found P) (e : Entry P)
      → fresh_for app f ≡ some e
      → (f ≡ cache_fresh e) × (is_for app e ≡ true)
  unfolding fresh_for
  fresh_for-some app cache_miss e h = absurd (cc)
  fresh_for-some app (cache_fresh x) e h = ground arith
  fresh_for-some app (cache_stale x) e h = absurd (cc)

  stale_for-some :
      (app : String) (f : Found P) (e : Entry P)
      → stale_for app f ≡ some e
      → (f ≡ cache_stale e) × (is_for app e ≡ true)
  unfolding stale_for
  stale_for-some app cache_miss e h = absurd (cc)
  stale_for-some app (cache_fresh x) e h = absurd (cc)
  stale_for-some app (cache_stale x) e h = ground arith

module _ {P : Type 0} (l : Lru (Entry P)) (o : Options) (healthy : Bool) (app token : String) where
  open l use {Store}

  abbrev found_at : Cache Store → ℤ → Found P
  found_at c now = (get_entry l c token (max_ttl o healthy) (max_stale o) now).0

  IsCached-by :
      (c : Cache Store) (now : ℤ) (e : Entry P) (id : Identity)
      → fresh_for app (found_at c now) ≡ some e
      → id ≡ identity_from e false
      → IsCached l o healthy app token now c id
  IsCached-by c now e id h same =
      let (fresh, for) = fresh_for-some app (found_at c now) e h in
      let (in_app, no_key) = is_for-true app e for in
      let (held, young) =
        (get_entry_fresh_iff l c token e (max_ttl o healthy) (max_stale o) now).0 fresh in
      record {
        entry = e;
        held = held;
        in_app = in_app;
        no_key = no_key;
        young = young;
        same = same;
      }

  IsStale-by :
      (c : Cache Store) (now : ℤ) (err : RpcError) (e : Entry P) (id : Identity)
      → is_refusal err.code ≡ false
      → stale_for app (found_at c now) ≡ some e
      → id ≡ identity_from e true
      → IsStale l o healthy app token err now c id
  IsStale-by c now err e id out h same =
      let (shown, for) = stale_for-some app (found_at c now) e h in
      let (in_app, no_key) = is_for-true app e for in
      let (held, allowed, past) =
        stale_is_bounded l c token e (max_ttl o healthy) (max_stale o) now shown in
      let (wanted, all) = max_stale-positive o allowed in
      record {
        entry = e;
        held = held;
        in_app = in_app;
        no_key = no_key;
        outage = out;
        wanted = wanted;
        past = subst (λ m. IsPast e.ttl (max_ttl o healthy) m (now -ℤ e.cached_at)) all past;
        same = same;
      }

  on_failure-accepted :
      (err : RpcError) (now : ℤ) (c : Cache Store) (id : Identity)
      → (on_failure l o healthy app token err now c).0 ≡ accepted id
      → IsStale l o healthy app token err now c id
  unfolding on_failure
  on_failure-accepted err now c id h = elim (Option-cases (stale_for app (found_at c now))) [
    | inl n ↦ absurd (ground arith)
    | inr (e, s) ↦ IsStale-by c now err e id (ground arith) s (ground arith)
  ]

  -- The call of fp has judged the token.
  abbrev IsAnswered : Reply TokenReply → Identity → Type 0
  IsAnswered reply id =
      (r : TokenReply) × (reply ≡ replied r) × (id ≡ identity_from {P = P} (entry_of app r) false)

  on_reply-accepted :
      (reply : Reply TokenReply) (gen : ℕ) (now : ℤ) (c : Cache Store) (id : Identity)
      → (on_reply l o healthy app token reply gen now c).0 ≡ accepted id
      → IsAnswered reply id
        ⊎ ((err : RpcError) × (reply ≡ failed err) × IsStale l o healthy app token err now c id)
  unfolding on_reply
  on_reply-accepted (replied r) gen now c id h = inl (r, refl, ground arith)
  on_reply-accepted (failed err) gen now c id h =
      inr (err, refl, on_failure-accepted err now c id h)

  -- `Validate` accepts a token on one of three grounds only. Either an entry of the cache for this
  -- token and this application that no access key left there is younger than its lifetime and, while
  -- the stream of events is down, than the limit for that time. Or fp has judged the token just now.
  -- Or, where the application allows it, the call of fp has failed without a refusal of the token,
  -- and such an entry, in the cache when the call failed, has outlived its lifetime or the limit, and
  -- both of them by less than the allowed time; only then the identity is marked as stale. Whatever
  -- other calls do to the cache meanwhile.
  pub validate_grounds :
      (now landing : ℤ) (between : Cache Store → Cache Store) (reply : Reply TokenReply)
      (c : Cache Store) (id : Identity)
      → (sdk_validate l o healthy app token now between reply landing c).0 ≡ accepted id
      → (token ≢ "")
        × (IsCached l o healthy app token now c id
            ⊎ (IsAnswered reply id
                ⊎ ((err : RpcError) × (mid : Cache Store) × (reply ≡ failed err)
                    × (mid ≡ between (get_entry l c token (max_ttl o healthy) (max_stale o) now).1)
                    × IsStale l o healthy app token err landing mid id)))
  unfolding sdk_validate
  validate_grounds now landing between reply c id h = elim (Bool-cases (token == "")) [
    | inl e ↦ absurd (ground arith)
    | inr f ↦
        let full : token ≢ "" = λ e. ground (arith, eq_iff token "") in
        elim (Option-cases (fresh_for app (found_at c now))) [
          | inl n ↦
              let mid = between (get_entry l c token (max_ttl o healthy) (max_stale o) now).1 in
              elim (on_reply-accepted reply
                (generation l (get_entry l c token (max_ttl o healthy) (max_stale o) now).1) landing
                mid id (ground arith)) [
                  | inl a ↦ (full, inr (inl a))
                  | inr (err, q, st) ↦ (full, inr (inr (err, mid, q, refl, st)))
                ]
          | inr (e, s) ↦ (full, inl (IsCached-by c now e id s (ground arith)))
        ]
  ]
