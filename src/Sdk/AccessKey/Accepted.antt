-- ===== src/Sdk/AccessKey/Accepted.antt =====
-- Which signed requests sdk/accesskey.go accepts.
use fp.Common.{
  String, ℕ, Bool, true, List, [], ◌∷◌, Option, none, some, ◌≡◌, refl, sym, ◌∙◌, arith, subst,
}
use fp.Common.Lists.{length}
use fp.Common.Int.{ℤ, pos, ◌≤ℤ◌, ◌+ℤ◌, ◌-ℤ◌, billion, billion_parts, -ℤ_parts, +ℤ_parts}
use fp.Common.Decimal.{parse_int}
use fp.Common.Hex.{decode_hex, decode_hex-encode_hex}
use fp.Sdk.Lru.{Lru}
use fp.Sdk.Nonce.{NonceError, nonce_used, nonce_full, NonceStore, add}
use fp.Sdk.Cache.{Entry, Cache}
use fp.Sdk.Validate.{Identity, Options, Reply, Answer, accepted, refused, and_then-accepted}
use fp.Sdk.Sign.{Crypto, Request, signature, valid_nonce}
use fp.Sdk.AccessKey.{
  Net, KeyReply, Material, window_seconds, signature_window, ak_err, unix, check_parsed, in_window,
  check_window, check_headers, read_signed_body, bytes_eq, wanted, text_of, check_text,
  check_signature, nonce_answer, nonce_key, client_ip, ip_allowed, access_key, key_identity,
  check_ip, check_nonce, with_signature, with_material,
}

bytes_eq-true : (as' bs : List ℕ) → bytes_eq as' bs ≡ true → as' ≡ bs
unfolding bytes_eq
bytes_eq-true [] [] h = refl
bytes_eq-true [] (b ∷ bs) h = absurd (cc)
bytes_eq-true (a ∷ as') [] h = absurd (cc)
bytes_eq-true (a ∷ as') (b ∷ bs) h = ground (arith, bytes_eq-true as' bs)

pub bytes_eq_refl : (bs : List ℕ) → bytes_eq bs bs ≡ true
unfolding bytes_eq
bytes_eq_refl [] = refl
bytes_eq_refl (b ∷ bs) = ground (arith, bytes_eq_refl bs)

-- What is compared is the HMAC itself.
pub wanted-hmac : (c : Crypto) (secret sts : String) → wanted c secret sts ≡ c.hmac secret sts
unfolding wanted signature
wanted-hmac c secret sts =
    ground (arith, decode_hex-encode_hex (c.hmac secret sts) (c.hmac_bytes secret sts))

-- The timestamp is at most the window away from the moment `now`, on either side.
pub in_window-true :
    (ts now : ℤ)
    → in_window ts now ≡ true
    → (now ≤ℤ billion (ts +ℤ window_seconds)) × (billion (ts -ℤ window_seconds) ≤ℤ now)
unfolding in_window signature_window
in_window-true ts now h =
    let a = -ℤ_parts now (billion ts) in
    let b = billion_parts window_seconds in
    let c = billion_parts ts in
    let d = billion_parts (ts +ℤ window_seconds) in
    let e = billion_parts (ts -ℤ window_seconds) in
    let f = +ℤ_parts ts window_seconds in
    let g = -ℤ_parts ts window_seconds in
    let i = -ℤ_parts (pos 0) (billion window_seconds) in (ground arith, ground arith)

-- The headers of a request that carry a timestamp and a signature of the right form.
pub record HasHeaders (r : Request) (now ts : ℤ) (sig : List ℕ) : Type 0 where
  pub timestamp : parse_int r.timestamp ≡ some ts
  pub signature : decode_hex r.signature ≡ some sig
  pub size : length sig ≡ 32
  pub nonce : valid_nonce r.nonce ≡ true
  pub window : in_window ts now ≡ true

check_parsed-accepted :
    (t : Option ℤ) (s : Option (List ℕ)) (n : String) (ts : ℤ) (sig : List ℕ)
    → check_parsed t s n ≡ accepted (ts, sig)
    → (t ≡ some ts) × (s ≡ some sig) × (length sig ≡ 32) × (valid_nonce n ≡ true)
unfolding check_parsed ak_err
check_parsed-accepted none s n ts sig h = absurd (cc)
check_parsed-accepted (some t) none n ts sig h = absurd (cc)
check_parsed-accepted (some t) (some s) n ts sig h = ground arith

check_window-accepted :
    (now : ℤ) (p q : ℤ × List ℕ)
    → check_window now p ≡ accepted q
    → (p ≡ q) × (in_window p.0 now ≡ true)
unfolding check_window ak_err
check_window-accepted now (t, s) q h = ground arith

pub check_headers-accepted :
    (r : Request) (now ts : ℤ) (sig : List ℕ)
    → check_headers r now ≡ accepted (ts, sig)
    → HasHeaders r now ts sig
unfolding check_headers
check_headers-accepted r now ts sig h =
    let ((t, s), q, k) =
      and_then-accepted (check_parsed (parse_int r.timestamp) (decode_hex r.signature) r.nonce)
        (check_window now) (ts, sig) h in
    let (same, window) = check_window-accepted now (t, s) (ts, sig) k in
    let (parsed, decoded, size, nonce) =
      check_parsed-accepted (parse_int r.timestamp) (decode_hex r.signature) r.nonce t s q in
    subst (λ p. HasHeaders r now p.0 p.1) same
      (record {
        timestamp = parsed;
        signature = decoded;
        size = size;
        nonce = nonce;
        window = window;
      })

-- The body was read and its HMAC, with the method, the address, the timestamp and the nonce, under
-- the secret is the signature.
pub record IsSigned (c : Crypto) (r : Request) (limit : ℕ) (ts : ℤ) (sig : List ℕ) (secret : String)
    : Type 0 where
  pub body : List ℕ
  pub read : read_signed_body r.body limit ≡ accepted body
  pub same : sig ≡ c.hmac secret (text_of c r ts body)

check_text-accepted :
    (c : Crypto) (secret sts : String) (sig : List ℕ) (u : Unit {0})
    → check_text c secret sts sig ≡ accepted u
    → sig ≡ c.hmac secret sts
unfolding check_text
check_text-accepted c secret sts sig u h =
    sym (bytes_eq-true (wanted c secret sts) sig (ground arith)) ∙ wanted-hmac c secret sts

check_signature-accepted :
    (c : Crypto) (r : Request) (limit : ℕ) (ts : ℤ) (sig : List ℕ) (secret : String) (u : Unit {0})
    → check_signature c r limit ts sig secret ≡ accepted u
    → IsSigned c r limit ts sig secret
unfolding check_signature
check_signature-accepted c r limit ts sig secret u h =
    let (body, read, k) =
      and_then-accepted (read_signed_body r.body limit)
        (λ body. check_text c secret (text_of c r ts body) sig) u h in
    record {
      body = body;
      read = read;
      same = check_text-accepted c secret (text_of c r ts body) sig u k;
    }

nonce_answer-accepted :
    (n : Option NonceError) (u : Unit {0}) → nonce_answer n ≡ accepted u → n ≡ none
unfolding nonce_answer ak_err
nonce_answer-accepted none u h = refl
nonce_answer-accepted (some nonce_used) u h = absurd (cc)
nonce_answer-accepted (some nonce_full) u h = absurd (cc)

module _ (net : Net) where
  open net use {Prefix}

  -- What has been established of an accepted request: its headers, the key, the signature under the
  -- secret of the key, that its nonce was new, and that its source is allowed.
  pub record IsVerified (crypto : Crypto) (l : Lru (Entry Prefix)) (o : Options) (limit : ℕ)
      (healthy : Bool) (app : String) (r : Request) (now : ℤ)
      (between : Cache (Lru.Store l) → Cache (Lru.Store l)) (reply : Reply KeyReply) (landing : ℤ)
      (c : Cache (Lru.Store l)) (nonces : NonceStore) (id : Identity) : Type 0 where
    pub ts : ℤ
    pub sig : List ℕ
    pub key : Material Prefix
    pub headers : HasHeaders r now ts sig
    pub found :
        (access_key net l o healthy app r.access_key now between reply landing c).0 ≡ accepted key
    pub signed : IsSigned crypto r limit ts sig key.key.secret
    pub fresh : (add nonces (nonce_key r) (ts +ℤ window_seconds) (unix now)).0 ≡ none
    pub source : ip_allowed net key.key.allowed (client_ip net r) ≡ true
    pub same : id ≡ key_identity net key

  pub check_nonce-accepted :
      (r : Request) (ts now : ℤ) (m : Material Prefix) (nonces : NonceStore) (id : Identity)
      → (check_nonce net r ts now m nonces).0 ≡ accepted id
      → ((add nonces (nonce_key r) (ts +ℤ window_seconds) (unix now)).0 ≡ none)
        × (ip_allowed net m.key.allowed (client_ip net r) ≡ true)
        × (id ≡ key_identity net m)
  unfolding check_nonce check_ip ak_err
  check_nonce-accepted r ts now m nonces id h =
      let (u, q, k) =
        and_then-accepted
          (nonce_answer (add nonces (nonce_key r) (ts +ℤ window_seconds) (unix now)).0)
          (λ _. check_ip net r m) id h in
      (
        nonce_answer-accepted (add nonces (nonce_key r) (ts +ℤ window_seconds) (unix now)).0 u q,
        ground arith,
        ground arith,
      )

  with_signature-accepted :
      (r : Request) (ts now : ℤ) (m : Material Prefix) (nonces : NonceStore) (id : Identity)
      (s : Answer (Unit {0}))
      → (with_signature net r ts now m nonces s).0 ≡ accepted id
      → (s ≡ accepted tt)
        × ((check_nonce net r ts now m nonces).0 ≡ accepted id)
        × ((with_signature net r ts now m nonces s).1
            ≡ (add nonces (nonce_key r) (ts +ℤ window_seconds) (unix now)).1)
  unfolding with_signature check_nonce
  with_signature-accepted r ts now m nonces id (refused e) h = absurd (cc)
  with_signature-accepted r ts now m nonces id (accepted u) h = (refl, h, refl)

  pub with_material-accepted :
      (crypto : Crypto) (r : Request) (limit : ℕ) (ts : ℤ) (sig : List ℕ) (now : ℤ)
      (m : Answer (Material Prefix)) (nonces : NonceStore) (id : Identity)
      → (with_material net crypto r limit ts sig now m nonces).0 ≡ accepted id
      → (k : Material Prefix) × (m ≡ accepted k)
        × IsSigned crypto r limit ts sig k.key.secret
        × ((check_nonce net r ts now k nonces).0 ≡ accepted id)
        × ((with_material net crypto r limit ts sig now m nonces).1
            ≡ (add nonces (nonce_key r) (ts +ℤ window_seconds) (unix now)).1)
  unfolding with_material
  with_material-accepted crypto r limit ts sig now (refused e) nonces id h = absurd (cc)
  with_material-accepted crypto r limit ts sig now (accepted k) nonces id h =
      let (signed, rest, store) =
        with_signature-accepted r ts now k nonces id
          (check_signature crypto r limit ts sig k.key.secret) h in
      (k, refl, check_signature-accepted crypto r limit ts sig k.key.secret tt signed, rest, store)
