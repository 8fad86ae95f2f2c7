-- ===== src/Sdk/AccessKey/Signed.antt =====
-- A request that sdk/aksign/aksign.go signs and sdk/accesskey.go checks.
use fp.Common.{
  String, ℕ, ◌≤◌, Bool, true, List, Option, none, some, if◌then◌else◌, ◌≡◌, ap, sym, ◌∙◌, arith,
  subst,
}
use fp.Common.Lists.{length}
use fp.Common.Int.{ℤ, ◌+ℤ◌}
use fp.Common.Decimal.{parse_int}
use fp.Common.Hex.{decode_hex, decode_hex-encode_hex}
use fp.Sdk.Lru.{Lru}
use fp.Sdk.Nonce.{NonceStore, add}
use fp.Sdk.Cache.{Entry, Cache}
use fp.Sdk.Error.{SdkSentinel, access_key_error}
use fp.Sdk.Validate.{Options, Reply, accepted, refused, and_then}
use fp.Sdk.Sign.{Crypto, Request, signature, valid_nonce}
use fp.Sdk.AccessKey.{
  Net, KeyReply, Material, window_seconds, unix, check_parsed, in_window, check_window,
  check_headers, read_signed_body, bytes_eq, text_of, check_text, check_signature, nonce_answer,
  nonce_key, client_ip, ip_allowed, access_key, key_identity, check_ip, check_nonce, with_signature,
  with_material, verify_checked, verify_access_key,
}
use fp.Sdk.AccessKey.Accepted.{HasHeaders}
use fp.Common.Decimal.{IsInt64, parse_int-format_int}
use fp.Sdk.Sign.{sign_at, signed_with, read_all, string_to_sign, split_request_uri}
use fp.Sdk.AccessKey.Accepted.{bytes_eq_refl, wanted-hmac}

-- The request as it arrives: its source is what the connection and a proxy say.
abbrev pub arrived : Request → String → String → Request
arrived r forwarded_for remote_addr = record r {
  forwarded_for = forwarded_for;
  remote_addr = remote_addr;
}

sign_at-some :
    (c : Crypto) (req r : Request) (id secret : String) (ts : ℤ) (nonce : String) (body : List ℕ)
    → read_all req.body ≡ some body
    → sign_at c req id secret ts nonce ≡ some r
    → r ≡ signed_with c req id secret ts nonce body
unfolding sign_at
sign_at-some c req r id secret ts nonce body b h = ground (arith, b, h)

-- The headers of a signed request are well formed.
signed_with-HasHeaders :
    (c : Crypto) (req : Request) (id secret : String) (ts now : ℤ) (nonce from addr : String)
    (body : List ℕ)
    → IsInt64 ts
    → valid_nonce nonce ≡ true
    → in_window ts now ≡ true
    → let r = arrived (signed_with c req id secret ts nonce body) from addr in
      HasHeaders r now ts (c.hmac secret (text_of c r ts body))
unfolding signed_with text_of signature
signed_with-HasHeaders c req id secret ts now nonce from addr body small valid window =
    let (path, query) = split_request_uri req.request_uri in
    let text = string_to_sign c req.method path query ts nonce body in
    record {
      timestamp = parse_int-format_int ts small;
      signature = decode_hex-encode_hex (c.hmac secret text) (c.hmac_bytes secret text);
      size = c.hmac_size secret text;
      nonce = valid;
      window = window;
    }

check_parsed-ok :
    (t : Option ℤ) (s : Option (List ℕ)) (n : String) (ts : ℤ) (sig : List ℕ)
    → t ≡ some ts
    → s ≡ some sig
    → length sig ≡ 32
    → valid_nonce n ≡ true
    → check_parsed t s n ≡ accepted (ts, sig)
unfolding check_parsed
check_parsed-ok t s n ts sig a b c d =
    ap (λ x. check_parsed x s n) a ∙ ap (λ y. check_parsed (some ts) y n) b ∙ ground (arith, c, d)

check_headers-ok :
    (r : Request) (now ts : ℤ) (sig : List ℕ)
    → HasHeaders r now ts sig
    → check_headers r now ≡ accepted (ts, sig)
unfolding check_headers check_window
check_headers-ok r now ts sig h =
    ap (λ p. and_then p (check_window now))
      (check_parsed-ok (parse_int r.timestamp) (decode_hex r.signature) r.nonce ts sig h.timestamp
        h.signature h.size h.nonce)
    ∙ ground (arith, h.window)

read_signed_body-ok :
    (b : Option (Option (List ℕ))) (limit : ℕ) (body : List ℕ)
    → read_all b ≡ some body
    → length body ≤ limit
    → read_signed_body b limit ≡ accepted body
unfolding read_all read_signed_body
read_signed_body-ok none limit body h k = ground arith
read_signed_body-ok (some none) limit body h k = absurd (cc)
read_signed_body-ok (some (some b)) limit body h k = ground arith

check_signature-ok :
    (c : Crypto) (r : Request) (limit : ℕ) (ts : ℤ) (secret : String) (body : List ℕ)
    → read_all r.body ≡ some body
    → length body ≤ limit
    → check_signature c r limit ts (c.hmac secret (text_of c r ts body)) secret ≡ accepted tt
unfolding check_signature check_text
check_signature-ok c r limit ts secret body read fits =
    let text = text_of c r ts body in
    ap (λ b. and_then b (λ x. check_text c secret (text_of c r ts x) (c.hmac secret text)))
      (read_signed_body-ok r.body limit body read fits)
    ∙ ap
        (λ w.
          if bytes_eq w (c.hmac secret text)
          then accepted tt
          else refused (access_key_error SdkSentinel.unauthorized "SIGNATURE_MISMATCH" "" text))
        (wanted-hmac c secret text)
    ∙ ground (arith, bytes_eq_refl (c.hmac secret text))

module _ (net : Net) where
  open net use {Prefix}

  check_nonce-ok :
      (r : Request) (ts now : ℤ) (m : Material Prefix) (nonces : NonceStore)
      → (add nonces (nonce_key r) (ts +ℤ window_seconds) (unix now)).0 ≡ none
      → ip_allowed net m.key.allowed (client_ip net r) ≡ true
      → (check_nonce net r ts now m nonces).0 ≡ accepted (key_identity net m)
  unfolding check_nonce check_ip nonce_answer
  check_nonce-ok r ts now m nonces fresh allowed =
      ap (λ n. and_then (nonce_answer n) (λ _. check_ip net r m)) fresh ∙ ground (arith, allowed)

  with_material-ok :
      (crypto : Crypto) (r : Request) (limit : ℕ) (ts : ℤ) (now : ℤ) (m : Material Prefix)
      (nonces : NonceStore) (body : List ℕ)
      → read_all r.body ≡ some body
      → length body ≤ limit
      → (add nonces (nonce_key r) (ts +ℤ window_seconds) (unix now)).0 ≡ none
      → ip_allowed net m.key.allowed (client_ip net r) ≡ true
      → (with_material net crypto r limit ts
          (crypto.hmac m.key.secret (text_of crypto r ts body))
          now
          (accepted m)
          nonces).0
        ≡ accepted (key_identity net m)
  unfolding with_material with_signature
  with_material-ok crypto r limit ts now m nonces body read fits fresh allowed =
      ap (λ s. (with_signature net r ts now m nonces s).0)
        (check_signature-ok crypto r limit ts m.key.secret body read fits)
      ∙ check_nonce-ok r ts now m nonces fresh allowed

  -- A request that `SignAt` has signed is accepted in the name of its key: if its body can be read
  -- and is not too large, the timestamp (of 64 bits) lies within the window and the nonce is valid,
  -- the look-up finds the key with the secret that was used, the table has room for the nonce and has
  -- not seen it, and the address the request arrives from is allowed.
  pub sign_then_verify :
      (crypto : Crypto) (l : Lru (Entry Prefix)) (o : Options) (limit : ℕ) (healthy : Bool)
      (app : String) (req r : Request) (id : String) (ts now : ℤ) (nonce from addr : String)
      (body : List ℕ) (m : Material Prefix) (between : Cache (Lru.Store l) → Cache (Lru.Store l))
      (reply : Reply KeyReply) (landing : ℤ) (c : Cache (Lru.Store l)) (nonces : NonceStore)
      → sign_at crypto req id m.key.secret ts nonce ≡ some r
      → (read_all req.body ≡ some body) × (length body ≤ limit)
      → IsInt64 ts × (in_window ts now ≡ true) × (valid_nonce nonce ≡ true)
      → (access_key net l o healthy app id now between reply landing c).0 ≡ accepted m
      → (add nonces (nonce_key r) (ts +ℤ window_seconds) (unix now)).0 ≡ none
      → ip_allowed net m.key.allowed (client_ip net (arrived r from addr)) ≡ true
      → (verify_access_key net crypto l o limit healthy app
          (arrived r from addr)
          now
          between
          reply
          landing
          c
          nonces).0
        ≡ accepted (key_identity net m)
  unfolding verify_access_key verify_checked signed_with nonce_key
  sign_then_verify crypto l o limit healthy app req r id ts now nonce from addr body m between reply
        landing c nonces signed (read, fits) (small, window, valid) found fresh allowed =
      let made = signed_with crypto req id m.key.secret ts nonce body in
      let same : r ≡ made = sign_at-some crypto req r id m.key.secret ts nonce body read signed in
      let got = arrived made from addr in
      let sig = crypto.hmac m.key.secret (text_of crypto got ts body) in
      let headers = check_headers-ok got now ts sig (
        signed_with-HasHeaders crypto req id m.key.secret ts now nonce from addr body small valid
          window) in
      let fresh' =
        subst (λ x. (add nonces (nonce_key x) (ts +ℤ window_seconds) (unix now)).0 ≡ none) same
          fresh in
      let allowed' =
        subst (λ x. ip_allowed net m.key.allowed (client_ip net (arrived x from addr)) ≡ true) same
          allowed in
      subst
        (λ x.
          (verify_access_key net crypto l o limit healthy app (arrived x from addr) now between
            reply landing c nonces).0
          ≡ accepted (key_identity net m))
        (sym same)
        (ap
            (λ p.
              (verify_checked net crypto l o limit healthy app got now between reply landing p c
                nonces).0)
            headers
          ∙ ap (λ k. (with_material net crypto got limit ts sig now k nonces).0) found
          ∙ with_material-ok crypto got limit ts now m nonces body read fits fresh' allowed')
