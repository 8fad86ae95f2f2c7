-- ===== src/Sdk/AccessKey/Verified.antt =====
-- What is known of the requests that `verifyAccessKey` of sdk/accesskey.go accepts.
use fp.Common.{String, ℕ, Bool, List, some, ◌≡◌, refl, ◌∙◌}
use fp.Common.Int.{ℤ, ◌+ℤ◌}
use fp.Common.Decimal.{parse_int}
use fp.Sdk.Lru.{Lru}
use fp.Sdk.Nonce.{NonceStore, add}
use fp.Sdk.Cache.{Entry, Cache}
use fp.Sdk.Validate.{Identity, Options, Reply, Answer, accepted, refused}
use fp.Sdk.Sign.{Crypto, Request}
use fp.Sdk.AccessKey.{
  Net, KeyReply, window_seconds, unix, check_headers, nonce_key, access_key, with_material,
  verify_checked, verify_access_key,
}
use fp.Sdk.AccessKey.Accepted.{
  IsVerified, check_headers-accepted, check_nonce-accepted, with_material-accepted,
}

module _ (net : Net) where
  open net use {Prefix}

  checked :
      (crypto : Crypto) (l : Lru (Entry Prefix)) (o : Options) (limit : ℕ) (healthy : Bool)
      (app : String) (r : Request) (now : ℤ) (between : Cache (Lru.Store l) → Cache (Lru.Store l))
      (reply : Reply KeyReply) (landing : ℤ) (c : Cache (Lru.Store l)) (nonces : NonceStore)
      (id : Identity) (p : Answer (ℤ × List ℕ))
      → (verify_checked net crypto l o limit healthy app r now between reply landing p c nonces).0
        ≡ accepted id
      → (q : ℤ × List ℕ) × (p ≡ accepted q)
        × ((with_material net crypto r limit q.0 q.1 now
              (access_key net l o healthy app r.access_key now between reply landing c).0
              nonces).0
            ≡ accepted id)
        × ((verify_checked net crypto l o limit healthy app r now between reply landing p c
              nonces).1.1
            ≡ (with_material net crypto r limit q.0 q.1 now
                (access_key net l o healthy app r.access_key now between reply landing c).0
                nonces).1)
  unfolding verify_checked
  checked crypto l o limit healthy app r now between reply landing c nonces id (refused e) h =
      absurd (cc)
  checked crypto l o limit healthy app r now between reply landing c nonces id (accepted (ts, sig))
        h =
      ((ts, sig), refl, h, refl)

  -- A signed request is accepted only if all of this holds: its timestamp is within the window, its
  -- nonce and the form of its signature are valid, a key was found for it and its signature is the
  -- HMAC, under the secret of that key, of its method, address, timestamp, nonce and body; its nonce
  -- was new; and the key allows the address that it comes from. It is then accepted in the name of
  -- that key.
  pub verify_ok :
      (crypto : Crypto) (l : Lru (Entry Prefix)) (o : Options) (limit : ℕ) (healthy : Bool)
      (app : String) (r : Request) (now : ℤ) (between : Cache (Lru.Store l) → Cache (Lru.Store l))
      (reply : Reply KeyReply) (landing : ℤ) (c : Cache (Lru.Store l)) (nonces : NonceStore)
      (id : Identity)
      → (verify_access_key net crypto l o limit healthy app r now between reply landing c nonces).0
        ≡ accepted id
      → IsVerified net crypto l o limit healthy app r now between reply landing c nonces id
  unfolding verify_access_key
  verify_ok crypto l o limit healthy app r now between reply landing c nonces id h =
      let (p, q, k, _) =
        checked crypto l o limit healthy app r now between reply landing c nonces id
          (check_headers r now) h in
      let (key, found, signed, rest, _) =
        with_material-accepted net crypto r limit p.0 p.1 now
          (access_key net l o healthy app r.access_key now between reply landing c).0 nonces id k in
      let (fresh, source, same) = check_nonce-accepted net r p.0 now key nonces id rest in
      record {
        ts = p.0;
        sig = p.1;
        key = key;
        headers = check_headers-accepted r now p.0 p.1 q;
        found = found;
        signed = signed;
        fresh = fresh;
        source = source;
        same = same;
      }

  -- The nonce of an accepted request stands in the table afterwards.
  pub verify_store :
      (crypto : Crypto) (l : Lru (Entry Prefix)) (o : Options) (limit : ℕ) (healthy : Bool)
      (app : String) (r : Request) (now : ℤ) (between : Cache (Lru.Store l) → Cache (Lru.Store l))
      (reply : Reply KeyReply) (landing : ℤ) (c : Cache (Lru.Store l)) (nonces : NonceStore)
      (id : Identity)
      → (verify_access_key net crypto l o limit healthy app r now between reply landing c nonces).0
        ≡ accepted id
      → (ts : ℤ) × (parse_int r.timestamp ≡ some ts)
        × ((verify_access_key net crypto l o limit healthy app r now between reply landing c
              nonces).1.1
            ≡ (add nonces (nonce_key r) (ts +ℤ window_seconds) (unix now)).1)
  unfolding verify_access_key
  verify_store crypto l o limit healthy app r now between reply landing c nonces id h =
      let (p, q, k, s) =
        checked crypto l o limit healthy app r now between reply landing c nonces id
          (check_headers r now) h in
      let (key, found, signed, rest, store) =
        with_material-accepted net crypto r limit p.0 p.1 now
          (access_key net l o healthy app r.access_key now between reply landing c).0 nonces id k in
      (p.0, (check_headers-accepted r now p.0 p.1 q).timestamp, s ∙ store)
