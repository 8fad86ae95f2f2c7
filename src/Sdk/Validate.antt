-- ===== src/Sdk/Validate.antt =====
-- sdk/auth.go: how an application judges a token. While a call of fp is under way, other calls go on
-- changing the cache: `between` stands for all that they do until the call is answered. What they do
-- while the answer is written is left out here and is in Sdk/Cache/Journal.antt. Calls for the same
-- token that wait for one another share one answer; the model follows the one that asks. The clock is
-- an argument wherever it is read, and `effectiveAppID` and `StreamHealthy` are the arguments `app` and `healthy`.
pub mod Accepted
pub mod Deadline
mod Tests
use fp.Common.{
  String, Bool, true, false, ◌&&◌, List, [], ◌∷◌, Option, none, some, ◌==◌, if◌then◌else◌, ℕ, ◌≡◌,
  refl,
}
use fp.Common.Int.{ℤ, pos, ltb_ℤ, million}
use fp.Sdk.Lru.{Lru}
use fp.Sdk.Cache.{
  Entry, Found, cache_miss, cache_fresh, cache_stale, Cache, AccessKeyEntry, get_entry, put_if_gen,
  generation, drop_tokens, purge_cache,
}
use fp.Sdk.Error.{RpcCode, RpcError, SdkSentinel, SdkError, bare, joined, translate}

-- `Identity`
pub record Identity : Type 0 where
  pub user_id : String
  pub session_id : String
  pub rotated_to : String
  pub roles : List String
  pub stale : Bool
  pub guest_id : String
  pub access_key_id : String
  pub access_key_remark : String

-- The fields of `Options` that are read here.
pub record Options : Type 0 where
  pub degraded_cache_ttl : ℤ
  pub allow_stale_on_outage : Bool
  pub max_staleness : ℤ

-- `fpv1.ValidateTokenResponse`
pub record TokenReply : Type 0 where
  pub user_id : String
  pub session_id : String
  pub new_token : String
  pub roles : List String
  pub cache_ttl_ms : ℤ

-- What a call of fp gives back, and what the SDK answers.
pub data Reply (A : Type 0) : Type 0 where
  replied : A → Reply A
  failed : RpcError → Reply A

pub data Answer (A : Type 0) : Type 0 where
  accepted : A → Answer A
  refused : SdkError → Answer A

-- A step whose refusal ends the call.
abbrev pub and_then : {A B : Type 0} → Answer A → (A → Answer B) → Answer B
and_then (accepted a) f = f a
and_then (refused e) f = refused e

pub and_then-accepted :
    {A B : Type 0} (m : Answer A) (f : A → Answer B) (b : B)
    → and_then m f ≡ accepted b
    → (a : A) × (m ≡ accepted a) × (f a ≡ accepted b)
and_then-accepted (accepted a) f b h = (a, refl, h)
and_then-accepted (refused e) f b h = absurd (cc)

-- `IsGuest`, `IsAccessKey` and `IsAnonymous`; a nil pointer is `none`.
unfoldable pub is_guest : Option Identity → Bool
is_guest none = false
is_guest (some id) = if id.guest_id == "" then false else true

unfoldable pub is_access_key : Option Identity → Bool
is_access_key none = false
is_access_key (some id) = if id.access_key_id == "" then false else true

unfoldable pub is_anonymous : Option Identity → Bool
is_anonymous none = true
is_anonymous (some id) = id.user_id == "" && id.access_key_id == ""

unfoldable pub max_ttl : Options → Bool → ℤ
max_ttl o healthy = if healthy then pos 0 else o.degraded_cache_ttl

unfoldable pub max_stale : Options → ℤ
max_stale o = if o.allow_stale_on_outage then o.max_staleness else pos 0

-- The codes after which no cached entry is used.
unfoldable pub is_refusal : RpcCode → Bool
is_refusal RpcCode.unauthenticated = true
is_refusal RpcCode.permission_denied = true
is_refusal RpcCode.not_found = true
is_refusal _ = false

module _ {P : Type 0} where
  -- `identityFrom`
  unfoldable pub identity_from : Entry P → Bool → Identity
  identity_from e stale = record {
    user_id = e.user_id;
    session_id = e.session_id;
    rotated_to = e.rotated_to;
    roles = e.roles;
    stale = stale;
    guest_id = "";
    access_key_id = "";
    access_key_remark = "";
  }

  -- The entry of an answer, before `put` dates it.
  unfoldable pub entry_of : String → TokenReply → Entry P
  entry_of app r = record {
    app_id = app;
    user_id = r.user_id;
    session_id = r.session_id;
    rotated_to = r.new_token;
    roles = r.roles;
    access_key = none;
    cached_at = pos 0;
    ttl = pos 0;
  }

  -- `e.appID == app && e.accessKey == nil`
  unfoldable pub is_for : String → Entry P → Bool
  is_for app e = e.app_id == app && elim e.access_key [ none ↦ true | some _ ↦ false ]

  -- The entry if the state is cacheFresh, and if it is cacheStale.
  unfoldable pub fresh_for : String → Found P → Option (Entry P)
  fresh_for app cache_miss = none
  fresh_for app (cache_fresh e) = if is_for app e then some e else none
  fresh_for app (cache_stale _) = none

  unfoldable pub stale_for : String → Found P → Option (Entry P)
  stale_for app cache_miss = none
  stale_for app (cache_fresh _) = none
  stale_for app (cache_stale e) = if is_for app e then some e else none

module _ {P : Type 0} (l : Lru (Entry P)) (o : Options) (healthy : Bool) (app token : String) where
  open l use {Store}

  -- What follows an error of the call, at the moment `now`.
  unfoldable pub on_failure : RpcError → ℤ → Cache Store → Answer Identity × Cache Store
  on_failure err now c =
      let (found, c') = get_entry l c token (max_ttl o healthy) (max_stale o) now in
      if is_refusal err.code
      then (refused (translate err), c)
      else if ltb_ℤ (pos 0) (max_stale o)
      then (
        elim (stale_for app found) [
          | some e ↦ accepted (identity_from e true)
          | none ↦ refused (joined SdkSentinel.unavailable err)
        ],
        c',
      )
      else (refused (joined SdkSentinel.unavailable err), c)

  -- The call of fp, whose answer lands at the moment `now`, with the generation from before it.
  unfoldable pub on_reply : Reply TokenReply → ℕ → ℤ → Cache Store → Answer Identity × Cache Store
  on_reply (replied r) gen now c =
      let e = entry_of app r in
      (accepted (identity_from e false), put_if_gen l c token e (million r.cache_ttl_ms) gen now)
  on_reply (failed err) gen now c = on_failure err now c

  -- `Validate` at the moment `now`.
  unfoldable pub sdk_validate :
      ℤ
      → (Cache Store → Cache Store)
      → Reply TokenReply
      → ℤ
      → Cache Store
      → Answer Identity × Cache Store
  sdk_validate now between reply landing c =
      let (found, c') = get_entry l c token (max_ttl o healthy) (max_stale o) now in
      if token == "" then (refused (bare SdkSentinel.no_token), c) else elim (fresh_for app found) [
        | some e ↦ (accepted (identity_from e false), c')
        | none ↦ on_reply reply (generation l c') landing (between c')
      ]

-- `onRevoke`, less the callback of the application, `onPurge`, and `Logout` with the answer of fp.
module _ {P : Type 0} (l : Lru (Entry P)) where
  open l use {Store}

  unfoldable pub on_revoke : Cache Store → List String → Cache Store
  on_revoke c tokens = drop_tokens l c tokens

  unfoldable pub on_purge : Cache Store → Cache Store
  on_purge c = purge_cache l c

  unfoldable pub logout :
      String
      → (Cache Store → Cache Store)
      → Reply (Unit {0})
      → Cache Store
      → Option SdkError × Cache Store
  logout token between (replied _) c = (none, drop_tokens l (between c) (token ∷ []))
  logout token between (failed err) c =
      (some (translate err), drop_tokens l (between c) (token ∷ []))
