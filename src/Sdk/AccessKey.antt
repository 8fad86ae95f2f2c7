-- ===== src/Sdk/AccessKey.antt =====
-- sdk/accesskey.go: how an application checks a signed request. Addresses and prefixes of package
-- net/netip, and the split of a host from its port, are fields of `Net`. `between` stands for what
-- other calls do to the cache while a call of fp is under way, as in Sdk/Validate.antt; the clock is
-- an argument wherever it is read. The record of use and the log are left out.
pub mod Accepted
pub mod Verified
pub mod Replay
pub mod Signed
mod Tests
use Prim.Native.Char.{Char, code}
use Prim.Native.String.{◌++◌ as append}
use fp.Common.{
  String, ℕ, suc, ◌/◌, Bool, true, false, not, ◌&&◌, ◌||◌, List, [], ◌∷◌, Option, none, some, ◌==◌,
  if◌then◌else◌, ltb, nat_eq,
}
use fp.Common.Lists.{length, any}
use fp.Common.Int.{ℤ, pos, negsuc, ◌+ℤ◌, ◌-ℤ◌, ltb_ℤ, million, billion}
use fp.Common.Decimal.{parse_int}
use fp.Common.Hex.{decode_hex}
use fp.Sdk.Lru.{Lru}
use fp.Sdk.Nonce.{NonceError, nonce_used, nonce_full, NonceStore, add}
use fp.Sdk.Cache.{
  Entry, Found, cache_miss, cache_fresh, cache_stale, Cache, AccessKeyEntry, access_key_cache_key,
  get_entry, put_if_gen, generation,
}
use fp.Sdk.Error.{
  RpcCode, RpcError, ErrorDetail, SdkSentinel, SdkError, joined, joined_own, access_key_error,
  first_detail,
}
use fp.Sdk.Validate.{
  Identity, Options, Reply, replied, failed, Answer, accepted, refused, and_then, max_ttl,
  max_stale, is_refusal,
}
use fp.Sdk.Sign.{
  Crypto, Request, read_all, signature, string_to_sign, split_request_uri, valid_nonce, cut,
}

pub record Net : Type 1 where
  pub Addr : Type 0
  pub Prefix : Type 0
  pub parse_prefix : String → Option Prefix
  pub prefix_contains : Prefix → Addr → Bool
  pub parse_addr : String → Option Addr
  pub unmap : Addr → Addr
  pub split_host_port : String → Option String
  pub trim_space : String → String

-- `fpv1.GetAccessKeyResponse`
pub record KeyReply : Type 0 where
  pub secret : String
  pub remark : String
  pub roles : List String
  pub allowed_ips : List String
  pub cache_ttl_ms : ℤ

-- What `accessKey` returns besides an error.
pub record Material (P : Type 0) : Type 0 where
  pub key : AccessKeyEntry P
  pub roles : List String
  pub stale : Bool

-- `signatureWindow` in seconds and in nanoseconds.
abbrev pub window_seconds : ℤ
window_seconds = pos 900

unfoldable pub signature_window : ℤ
signature_window = billion window_seconds

-- The codes of sdk/accesskey_error.go; the texts of the messages are left out.
unfoldable pub ak_err : {A : Type 0} → SdkSentinel → String → Answer A
ak_err sentinel code = refused (access_key_error sentinel code "" "")

abbrev pub signature_invalid : {A : Type 0} → Answer A
unfolding ak_err
signature_invalid = ak_err SdkSentinel.unauthorized "SIGNATURE_INVALID"

-- `time.Time.Unix`: whole seconds, downwards.
unfoldable pub unix : ℤ → ℤ
unix (pos n) = pos (n / 1000000000)
unix (negsuc n) = negsuc (n / 1000000000)

-- The checks of the four headers: the timestamp and the signature that they carry.
unfoldable pub check_parsed : Option ℤ → Option (List ℕ) → String → Answer (ℤ × List ℕ)
check_parsed none sig nonce = signature_invalid
check_parsed (some ts) none nonce = signature_invalid
check_parsed (some ts) (some sig) nonce =
    if nat_eq (length sig) 32 && valid_nonce nonce then accepted (ts, sig) else signature_invalid

-- The timestamp lies within the window around the moment `now`. (`Sub` saturates at the largest
-- duration, which lies outside of the window too.)
unfoldable pub in_window : ℤ → ℤ → Bool
in_window ts now =
    let d = now -ℤ billion ts in
    not (ltb_ℤ signature_window d || ltb_ℤ d (pos 0 -ℤ signature_window))

unfoldable pub check_window : ℤ → ℤ × List ℕ → Answer (ℤ × List ℕ)
check_window now (ts, sig) =
    if in_window ts now
    then accepted (ts, sig)
    else ak_err SdkSentinel.unauthorized "TIMESTAMP_EXPIRED"

-- What is checked before the key is looked up.
unfoldable pub check_headers : Request → ℤ → Answer (ℤ × List ℕ)
check_headers r now =
    and_then (check_parsed (parse_int r.timestamp) (decode_hex r.signature) r.nonce)
      (check_window now)

-- `readSignedBody`
unfoldable pub read_signed_body : Option (Option (List ℕ)) → ℕ → Answer (List ℕ)
read_signed_body none limit = accepted []
read_signed_body (some none) limit = signature_invalid
read_signed_body (some (some b)) limit =
    if ltb limit (length b) then ak_err SdkSentinel.body_too_large "BODY_TOO_LARGE" else accepted b

-- `hmac.Equal`
unfoldable pub bytes_eq : List ℕ → List ℕ → Bool
bytes_eq [] [] = true
bytes_eq [] (b ∷ bs) = false
bytes_eq (a ∷ as') [] = false
bytes_eq (a ∷ as') (b ∷ bs) = nat_eq a b && bytes_eq as' bs

-- `want`, which is always the text of bytes.
unfoldable pub wanted : Crypto → String → String → List ℕ
wanted c secret sts = elim (decode_hex (signature c secret sts)) [ none ↦ [] | some bs ↦ bs ]

-- The text that the request must have signed.
unfoldable pub text_of : Crypto → Request → ℤ → List ℕ → String
text_of c r ts body =
    let (path, query) = split_request_uri r.request_uri in
    string_to_sign c r.method path query ts r.nonce body

-- The check of the signature over the body that was read.
unfoldable pub check_text : Crypto → String → String → List ℕ → Answer (Unit {0})
check_text c secret sts sig =
    if bytes_eq (wanted c secret sts) sig
    then accepted tt
    else refused (access_key_error SdkSentinel.unauthorized "SIGNATURE_MISMATCH" "" sts)

unfoldable pub check_signature : Crypto → Request → ℕ → ℤ → List ℕ → String → Answer (Unit {0})
check_signature c r limit ts sig secret =
    and_then (read_signed_body r.body limit) (λ body. check_text c secret (text_of c r ts body) sig)

-- The three outcomes of the table of nonces.
unfoldable pub nonce_answer : Option NonceError → Answer (Unit {0})
nonce_answer none = accepted tt
nonce_answer (some nonce_used) = ak_err SdkSentinel.unauthorized "NONCE_USED"
nonce_answer (some nonce_full) = refused (joined_own SdkSentinel.unavailable "nonce full")

unfoldable pub nonce_key : Request → String
nonce_key r = append r.access_key (append ":" r.nonce)

module _ (net : Net) where
  open net use {
    Addr, Prefix, parse_prefix, prefix_contains, parse_addr, unmap, split_host_port, trim_space,
  }

  -- `clientIP`
  unfoldable pub raw_client : Request → String
  raw_client r =
      if r.forwarded_for == ""
      then elim (split_host_port r.remote_addr) [ none ↦ r.remote_addr | some host ↦ host ]
      else trim_space (cut 44 r.forwarded_for).0

  unfoldable pub client_ip : Request → Option Addr
  client_ip r = elim (parse_addr (raw_client r)) [ none ↦ none | some a ↦ some (unmap a) ]

  -- `prefixesContain`
  unfoldable pub prefixes_contain : List Prefix → Addr → Bool
  prefixes_contain prefixes addr = any (λ p. prefix_contains p addr) prefixes

  -- The source address is allowed; no prefixes allow every one.
  unfoldable pub ip_allowed : List Prefix → Option Addr → Bool
  ip_allowed [] addr = true
  ip_allowed (p ∷ ps) none = false
  ip_allowed (p ∷ ps) (some addr) = prefixes_contain (p ∷ ps) addr

  -- The loop over the allowed addresses of an answer.
  unfoldable pub parse_prefixes : List String → Option (List Prefix)
  parse_prefixes [] = some []
  parse_prefixes (s ∷ ss) =
      let rest = parse_prefixes ss in
      elim (parse_prefix s) [
        | none ↦ none
        | some p ↦ elim rest [ none ↦ none | some ps ↦ some (p ∷ ps) ]
      ]

  -- An error of the SDK's own has no status.
  unfoldable pub own_error : RpcError
  own_error = record { code = RpcCode.unknown; details = [] }

  -- The entry of an answer, or the error that it amounts to.
  unfoldable pub entry_of_key :
      String → String → KeyReply → Option (List Prefix) → Reply (Entry Prefix)
  entry_of_key app id r none = failed own_error
  entry_of_key app id r (some allowed) =
      if r.secret == ""
      then failed own_error
      else replied (record {
        app_id = app;
        user_id = "";
        session_id = "";
        rotated_to = "";
        roles = r.roles;
        access_key =
            some (record { id = id; secret = r.secret; remark = r.remark; allowed = allowed });
        cached_at = pos 0;
        ttl = pos 0;
      })

  unfoldable pub material : Bool → Entry Prefix → Option (Material Prefix)
  material stale e = elim e.access_key [
    | none ↦ none
    | some k ↦ some (record { key = k; roles = e.roles; stale = stale })
  ]

  unfoldable pub fresh_key : Found Prefix → Option (Material Prefix)
  fresh_key cache_miss = none
  fresh_key (cache_fresh e) = material false e
  fresh_key (cache_stale _) = none

  unfoldable pub stale_key : Found Prefix → Option (Material Prefix)
  stale_key cache_miss = none
  stale_key (cache_fresh _) = none
  stale_key (cache_stale e) = material true e

  -- The switch on the code of a structured error; `none` goes on to the cache.
  unfoldable pub coded_refusal : {A : Type 0} → RpcError → ErrorDetail → Answer A
  coded_refusal err d =
      if d.code == "ACCESS_KEY_INVALID"
      then ak_err SdkSentinel.unauthorized "ACCESS_KEY_INVALID"
      else if d.code == "ACCESS_KEY_DISABLED"
      then ak_err SdkSentinel.forbidden "ACCESS_KEY_DISABLED"
      else if d.code == "ACCESS_KEY_EXPIRED"
      then ak_err SdkSentinel.forbidden "ACCESS_KEY_EXPIRED"
      else refused (joined SdkSentinel.unavailable err)

  unfoldable pub from_stale : {A : Type 0} → RpcError → Option A → Answer A
  from_stale err none = refused (joined SdkSentinel.unavailable err)
  from_stale err (some m) = accepted m

  module _ (l : Lru (Entry Prefix)) (o : Options) (healthy : Bool) (app id : String) where
    open l use {Store}

    -- What follows an error without a code of fp, at the moment `now`.
    unfoldable pub on_outage : RpcError → ℤ → Cache Store → Answer (Material Prefix) × Cache Store
    on_outage err now c =
        let (found, c') =
          get_entry l c (access_key_cache_key id) (max_ttl o healthy) (max_stale o) now in
        if is_refusal err.code
        then (ak_err SdkSentinel.unauthorized "ACCESS_KEY_INVALID", c)
        else if ltb_ℤ (pos 0) (max_stale o)
        then (from_stale err (stale_key found), c')
        else (refused (joined SdkSentinel.unavailable err), c)

    unfoldable pub on_key_failure :
        RpcError → ℤ → Cache Store → Answer (Material Prefix) × Cache Store
    on_key_failure err now c = elim (first_detail err.details) [
      | some d ↦ (coded_refusal err d, c)
      | none ↦ on_outage err now c
    ]

    unfoldable pub on_key_entry :
        Reply (Entry Prefix) → ℤ → ℕ → ℤ → Cache Store → Answer (Material Prefix) × Cache Store
    on_key_entry (failed err) ttl gen now c = on_key_failure err now c
    on_key_entry (replied e) ttl gen now c = (
      from_stale own_error (material false e),
      put_if_gen l c (access_key_cache_key id) e (million ttl) gen now,
    )

    unfoldable pub on_key_reply :
        Reply KeyReply → ℕ → ℤ → Cache Store → Answer (Material Prefix) × Cache Store
    on_key_reply (failed err) gen now c = on_key_failure err now c
    on_key_reply (replied r) gen now c =
        on_key_entry (entry_of_key app id r (parse_prefixes r.allowed_ips)) r.cache_ttl_ms gen now c

    -- `accessKey`
    unfoldable pub access_key :
        ℤ
        → (Cache Store → Cache Store)
        → Reply KeyReply
        → ℤ
        → Cache Store
        → Answer (Material Prefix) × Cache Store
    access_key now between reply landing c =
        let (found, c') =
          get_entry l c (access_key_cache_key id) (max_ttl o healthy) (max_stale o) now in
        elim (fresh_key found) [
          | some m ↦ (accepted m, c')
          | none ↦ on_key_reply reply (generation l c') landing (between c')
        ]

  unfoldable pub key_identity : Material Prefix → Identity
  key_identity m = record {
    user_id = "";
    session_id = "";
    rotated_to = "";
    roles = m.roles;
    stale = m.stale;
    guest_id = "";
    access_key_id = m.key.id;
    access_key_remark = m.key.remark;
  }

  -- The check of the source address and what follows it.
  unfoldable pub check_ip : Request → Material Prefix → Answer Identity
  check_ip r m =
      if ip_allowed m.key.allowed (client_ip r)
      then accepted (key_identity m)
      else ak_err SdkSentinel.forbidden "IP_DENIED"

  -- The nonce is used up before the source address is checked.
  unfoldable pub check_nonce :
      Request → ℤ → ℤ → Material Prefix → NonceStore → Answer Identity × NonceStore
  check_nonce r ts now m nonces =
      let (res, nonces') = add nonces (nonce_key r) (ts +ℤ window_seconds) (unix now) in
      (and_then (nonce_answer res) (λ _. check_ip r m), nonces')

  unfoldable pub with_signature :
      Request
      → ℤ
      → ℤ
      → Material Prefix
      → NonceStore
      → Answer (Unit {0})
      → Answer Identity × NonceStore
  with_signature r ts now m nonces (refused e) = (refused e, nonces)
  with_signature r ts now m nonces (accepted _) = check_nonce r ts now m nonces

  unfoldable pub with_material :
      Crypto
      → Request
      → ℕ
      → ℤ
      → List ℕ
      → ℤ
      → Answer (Material Prefix)
      → NonceStore
      → Answer Identity × NonceStore
  with_material crypto r limit ts sig now (refused e) nonces = (refused e, nonces)
  with_material crypto r limit ts sig now (accepted m) nonces =
      with_signature r ts now m nonces (check_signature crypto r limit ts sig m.key.secret)

  -- `verifyAccessKey`, from the moment `now` on; the moment is read once.
  module _ (crypto : Crypto) (l : Lru (Entry Prefix)) (o : Options) (limit : ℕ) (healthy : Bool)
      (app : String) where
    open l use {Store}

    unfoldable pub verify_checked :
        Request
        → ℤ
        → (Cache Store → Cache Store)
        → Reply KeyReply
        → ℤ
        → Answer (ℤ × List ℕ)
        → Cache Store
        → NonceStore
        → Answer Identity × (Cache Store × NonceStore)
    verify_checked r now between reply landing (refused e) c nonces = (refused e, (c, nonces))
    verify_checked r now between reply landing (accepted (ts, sig)) c nonces =
        let (m, c') = access_key l o healthy app r.access_key now between reply landing c in
        let (out, nonces') = with_material crypto r limit ts sig now m nonces in
        (out, (c', nonces'))

    unfoldable pub verify_access_key :
        Request
        → ℤ
        → (Cache Store → Cache Store)
        → Reply KeyReply
        → ℤ
        → Cache Store
        → NonceStore
        → Answer Identity × (Cache Store × NonceStore)
    verify_access_key r now between reply landing c nonces =
        verify_checked r now between reply landing (check_headers r now) c nonces
