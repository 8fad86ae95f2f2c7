-- ===== src/Sdk/AccessKey/Replay.antt =====
-- A signed request that is sent twice to sdk/accesskey.go.
use fp.Common.{
  String, ℕ, Bool, List, [], ◌∷◌, none, some, ◌≡◌, sym, ◌∙◌, ◌⊎◌, inl, inr, arith, subst,
}
use fp.Common.Lists.{All}
use fp.Common.Int.{ℤ, pos, ◌<ℤ◌, ◌≤ℤ◌, ◌+ℤ◌, billion, billion_parts}
use fp.Common.Decimal.{parse_int}
use fp.Sdk.Lru.{Lru}
use fp.Sdk.Nonce.{NonceStore, add}
use fp.Sdk.Cache.{Entry, Cache}
use fp.Sdk.Validate.{Identity, Options, Reply, accepted}
use fp.Sdk.Sign.{Crypto, Request}
use fp.Sdk.AccessKey.{Net, KeyReply, window_seconds, unix, nonce_key, verify_access_key}
use fp.Common.Int.{negsuc, eq_of_parts}
use fp.Sdk.Nonce.{Call, run}
use fp.Sdk.Nonce.Replay.{replay_is_refused}
use fp.Sdk.AccessKey.Accepted.{in_window-true}
use fp.Sdk.AccessKey.Verified.{verify_ok, verify_store}

unix-below : (now t : ℤ) → now <ℤ billion t → unix now <ℤ t
unfolding unix
unix-below (pos n) t h = let b = billion_parts t in ground arith
unix-below (negsuc n) t h = let b = billion_parts t in ground arith

calls_before :
    (now t : ℤ) (calls : List Call)
    → now <ℤ t
    → All (λ c. Call.now c ≤ℤ now) calls
    → All (λ c. Call.now c <ℤ t) calls
calls_before now t [] h k = tt
calls_before now t (c ∷ cs) h (k, ks) = (omega (arith, h, k), calls_before now t cs h ks)

below_or_at : (a b : ℤ) → a ≤ℤ b → (a <ℤ b) ⊎ (a ≡ b)
below_or_at a b h = ground (arith, eq_of_parts a b)

-- A nonce that was added and is added again before its window has closed is refused.
never_twice :
    (nonces : NonceStore) (key : String) (t t' now now' : ℤ) (calls : List Call)
    → (add nonces key t (unix now)).0 ≡ none
    → All (λ c. Call.now c ≤ℤ unix now') calls
    → now' ≤ℤ billion t
    → (add (run (add nonces key t (unix now)).1 calls) key t' (unix now')).0 ≡ none
    → now' ≡ billion t
never_twice nonces key t t' now now' calls fresh later within again =
    elim (below_or_at now' (billion t) within) [
      | inl below ↦
          let before = unix-below now' t below in
          let used =
            replay_is_refused nonces key t (unix now) calls t' (unix now') fresh
              (calls_before (unix now') t calls before later) before in
          absurd (cc (sym used ∙ again))
      | inr at ↦ at
    ]

some_injective : (a b : ℤ) → some a ≡ some b → a ≡ b
some_injective a b h = cc

module _ (net : Net) where
  open net use {Prefix}

  -- A signed request that was accepted once is never accepted again, whatever other requests come in
  -- between (at moments, in whole seconds, that are no later than the second attempt's), except
  -- exactly at the last moment of its window, 900 seconds after its timestamp.
  pub replay_only_at_boundary :
      (crypto : Crypto) (l : Lru (Entry Prefix)) (o : Options) (limit : ℕ) (healthy healthy' : Bool)
      (app app' : String) (r : Request) (now now' : ℤ)
      (between between' : Cache (Lru.Store l) → Cache (Lru.Store l)) (reply reply' : Reply KeyReply)
      (landing landing' : ℤ) (c c' : Cache (Lru.Store l)) (nonces : NonceStore) (calls : List Call)
      (id id' : Identity)
      → (verify_access_key net crypto l o limit healthy app r now between reply landing c nonces).0
        ≡ accepted id
      → All (λ call. Call.now call ≤ℤ unix now') calls
      → (verify_access_key net crypto l o limit healthy' app' r now' between' reply' landing' c' (
          run
            (verify_access_key net crypto l o limit healthy app r now between reply landing c
              nonces).1.1
            calls)).0
        ≡ accepted id'
      → (ts : ℤ) × (parse_int r.timestamp ≡ some ts) × (now' ≡ billion (ts +ℤ window_seconds))
  replay_only_at_boundary crypto l o limit healthy healthy' app app' r now now' between between'
        reply reply' landing landing' c c' nonces calls id id' first later second =
      let out =
        verify_access_key net crypto l o limit healthy app r now between reply landing c nonces in
      let (ts, read, store) =
        verify_store net crypto l o limit healthy app r now between reply landing c nonces id
          first in
      let a =
        verify_ok net crypto l o limit healthy app r now between reply landing c nonces id first in
      let b =
        verify_ok net crypto l o limit healthy' app' r now' between' reply' landing' c'
          (run out.1.1 calls) id' second in
      let a_ts : a.ts ≡ ts = some_injective a.ts ts (sym a.headers.timestamp ∙ read) in
      let b_ts : b.ts ≡ ts = some_injective b.ts ts (sym b.headers.timestamp ∙ read) in
      let fresh : (add nonces (nonce_key r) (ts +ℤ window_seconds) (unix now)).0 ≡ none =
        subst (λ t. (add nonces (nonce_key r) (t +ℤ window_seconds) (unix now)).0 ≡ none) a_ts
          a.fresh in
      let within =
        subst (λ t. now' ≤ℤ billion (t +ℤ window_seconds)) b_ts
          (in_window-true b.ts now' b.headers.window).0 in
      let again =
        subst (λ s. (add (run s calls) (nonce_key r) (b.ts +ℤ window_seconds) (unix now')).0 ≡ none)
          store b.fresh in
      (
        ts,
        read,
        never_twice nonces (nonce_key r) (ts +ℤ window_seconds) (b.ts +ℤ window_seconds) now now'
            calls fresh later within again,
      )
