-- ===== src/Sdk/AccessKey/Tests.antt =====
-- Signed requests on small examples, with a checksum in place of the hash.
use Prim.Native.Char.{code}
use Prim.Native.String.{String, [] as empty_text, ◌∷◌ as text_cons, ◌++◌ as append}
use fp.Common.{
  ℕ, ◌+◌, ◌*◌, ◌%◌, ◌<◌, true, false, List, [], ◌∷◌, none, some, ◌==◌, ◌≡◌, refl, arith,
}
use fp.Common.Lists.{All}
use fp.Common.Int.{ℤ, pos, ◌+ℤ◌, ◌-ℤ◌, billion}
use fp.Common.Decimal.{parse_int, format_int, format_digits, scan_digits, parse_digits}
use fp.Common.Hex.{encode_hex, decode_hex}
use fp.Sdk.Lru.{Lru}
use fp.Sdk.Nonce.{NonceStore, add, is_live, drop_expired, put_if_room, run}
use fp.Sdk.Cache.{Entry, Cache, get_entry, get_found_entry, generation}
use fp.Sdk.Cache.Sample.{Recent, recent}
use fp.Sdk.Validate.{Identity, Options, replied, accepted, max_ttl, max_stale}
use fp.Sdk.Sign.{
  Crypto, Request, sign_at, signed_with, read_all, valid_nonce, nonce_fits, is_nonce_char,
  string_to_sign, split_request_uri, cut, starts_with_slash, signature,
}
use fp.Sdk.Sign.Lines.{string_to_sign_injective}
use fp.Sdk.AccessKey.{
  Net, KeyReply, Material, window_seconds, signature_window, unix, in_window, nonce_key, client_ip,
  ip_allowed, prefixes_contain, raw_client, access_key, key_identity, verify_access_key, fresh_key,
  on_key_reply, on_key_entry, entry_of_key, parse_prefixes, material, from_stale, verify_checked,
  check_headers, check_window, check_parsed, with_material, with_signature, check_signature,
  read_signed_body, check_text, text_of, wanted, bytes_eq, check_nonce,
}
use fp.Sdk.AccessKey.Accepted.{IsVerified}
use fp.Sdk.AccessKey.Verified.{verify_ok}
use fp.Sdk.AccessKey.Replay.{replay_only_at_boundary}
use fp.Sdk.AccessKey.Signed.{arrived, sign_then_verify}

unfoldable checksum : String → ℕ
checksum empty_text = 0
checksum (text_cons c s) = code c + 3 * checksum s

abbrev total : List ℕ → ℕ
total [] = 0
total (b ∷ bs) = b + total bs

abbrev zeros : List ℕ
zeros =
    0 ∷ 0 ∷ 0 ∷ 0 ∷ 0 ∷ 0 ∷ 0 ∷ 0 ∷ 0 ∷ 0 ∷ 0 ∷ 0 ∷ 0 ∷ 0 ∷ 0 ∷ 0 ∷ 0 ∷ 0 ∷ 0 ∷ 0 ∷ 0 ∷ 0 ∷ 0 ∷ 0
    ∷ 0 ∷ 0 ∷ 0 ∷ 0 ∷ 0 ∷ 0 ∷ 0 ∷ []

zeros_small : All (λ b. b < 256) zeros
zeros_small = ground arith

abbrev toy : Crypto
toy = record {
  sha256 = λ bs. (total bs % 256) ∷ zeros;
  hmac = λ k m. (checksum (append k m) % 256) ∷ zeros;
  hmac_size = λ k m. refl;
  hmac_bytes = λ k m. (omega arith, zeros_small);
}

abbrev net : Net
net = record {
  Addr = String;
  Prefix = String;
  parse_prefix = λ s. some s;
  prefix_contains = λ p a. p == a;
  parse_addr = λ s. some s;
  unmap = λ a. a;
  split_host_port = λ s. some s;
  trim_space = λ s. s;
}

abbrev options : Options
options = record {
  degraded_cache_ttl = pos 10;
  allow_stale_on_outage = false;
  max_staleness = pos 0;
}

abbrev lru : Lru (Entry String)
lru = recent (Entry String)

abbrev C : Type 0
C = Cache (Recent (Entry String))

abbrev blank : C
blank = record { lru = record { room = 1; items = [] }; gen = 0 }

abbrev idle : C → C
idle c = c

abbrev answer : KeyReply
answer = record {
  secret = "s3cret";
  remark = "partner";
  roles = "reader" ∷ [];
  allowed_ips = "10.0.0.1" ∷ [];
  cache_ttl_ms = pos 30000;
}

abbrev key : Material String
key = record {
  key = record { id = "AK1"; secret = "s3cret"; remark = "partner"; allowed = "10.0.0.1" ∷ [] };
  roles = "reader" ∷ [];
  stale = false;
}

abbrev draft : Request
draft = record {
  method = "POST";
  request_uri = "/orders?a=1";
  body = some (some (1 ∷ 2 ∷ []));
  access_key = "";
  timestamp = "";
  nonce = "";
  signature = "";
  forwarded_for = "";
  remote_addr = "";
}

abbrev sent : Request
sent = signed_with toy draft "AK1" "s3cret" (pos 1000) "n-1" (1 ∷ 2 ∷ [])

made : sign_at toy draft "AK1" "s3cret" (pos 1000) "n-1" ≡ some sent
unfolding sign_at read_all
made = refl

readable : read_all draft.body ≡ some (1 ∷ 2 ∷ [])
unfolding read_all
readable = refl

valid : valid_nonce "n-1" ≡ true
unfolding valid_nonce nonce_fits is_nonce_char
valid = refl

at_once : in_window (pos 1000) (pos 1000000000000) ≡ true
unfolding in_window signature_window billion ◌-ℤ◌
at_once = refl

at_the_end : in_window (pos 1000) (pos 1900000000000) ≡ true
unfolding in_window signature_window billion ◌-ℤ◌
at_the_end = refl

found :
    (now : ℤ)
    → (access_key net lru options true "shop" "AK1" now idle (replied answer) now blank).0
      ≡ accepted key
unfolding access_key get_entry get_found_entry fresh_key on_key_reply on_key_entry entry_of_key
    parse_prefixes material from_stale max_ttl max_stale generation
found now = refl

abbrev nonces : NonceStore
nonces = record { cap = 10; seen = [] }

new : (add nonces (nonce_key sent) (pos 1000 +ℤ window_seconds) (unix (pos 1000000000000))).0 ≡ none
unfolding add is_live nonce_key signed_with
new = refl

allowed : ip_allowed net key.key.allowed (client_ip net (arrived sent "" "10.0.0.1")) ≡ true
unfolding ip_allowed client_ip prefixes_contain raw_client
allowed = refl

accepted_once :
    (verify_access_key net toy lru options 100 true "shop"
      (arrived sent "" "10.0.0.1")
      (pos 1000000000000)
      idle
      (replied answer)
      (pos 1000000000000)
      blank
      nonces).0
    ≡ accepted (key_identity net key)
accepted_once =
    sign_then_verify net toy lru options 100 true "shop" draft sent "AK1" (pos 1000)
      (pos 1000000000000) "n-1" "" "10.0.0.1" (1 ∷ 2 ∷ []) key idle (replied answer)
      (pos 1000000000000) blank nonces made (readable, omega arith) (omega arith, at_once, valid)
      (found (pos 1000000000000)) new allowed

sign_then_verify_example :
    (verify_access_key net toy lru options 100 true "shop"
      (arrived sent "" "10.0.0.1")
      (pos 1000000000000)
      idle
      (replied answer)
      (pos 1000000000000)
      blank
      nonces).0
    ≡ accepted (key_identity net key)
sign_then_verify_example =
    sign_then_verify net toy lru options 100 true "shop" draft sent "AK1" (pos 1000)
      (pos 1000000000000) "n-1" "" "10.0.0.1" (1 ∷ 2 ∷ []) key idle (replied answer)
      (pos 1000000000000) blank nonces made (readable, omega arith) (omega arith, at_once, valid)
      (found (pos 1000000000000)) new allowed

abbrev got : Request
got = arrived sent "" "10.0.0.1"

abbrev partner : Identity
partner = key_identity net key

verify_ok_example :
    IsVerified net toy lru options 100 true "shop" got
      (pos 1000000000000)
      idle
      (replied answer)
      (pos 1000000000000)
      blank
      nonces
      partner
verify_ok_example =
    verify_ok net toy lru options 100 true "shop" got (pos 1000000000000) idle (replied answer)
      (pos 1000000000000) blank nonces partner accepted_once

-- The table of nonces after the first request, and the same request at the last moment of its window.
abbrev seen : NonceStore
seen =
    (verify_access_key net toy lru options 100 true "shop" got (pos 1000000000000) idle
      (replied answer) (pos 1000000000000) blank nonces).1.1

expired :
    (add seen (nonce_key sent) (pos 1000 +ℤ window_seconds) (unix (pos 1900000000000))).0 ≡ none
unfolding verify_access_key verify_checked check_headers check_window check_parsed parse_int
    parse_digits scan_digits format_int format_digits decode_hex encode_hex signature signed_with
    string_to_sign split_request_uri starts_with_slash cut checksum valid_nonce nonce_fits
    is_nonce_char in_window signature_window billion access_key get_entry get_found_entry fresh_key
    on_key_reply on_key_entry entry_of_key parse_prefixes material from_stale max_ttl max_stale
    generation with_material with_signature check_signature read_signed_body check_text text_of
    wanted bytes_eq check_nonce add is_live drop_expired nonce_key unix ◌+ℤ◌ ◌-ℤ◌ put_if_room
expired = refl

again :
    (verify_access_key net toy lru options 100 true "shop" got
      (pos 1900000000000)
      idle
      (replied answer)
      (pos 1900000000000)
      blank
      (run seen [])).0
    ≡ accepted partner
again =
    sign_then_verify net toy lru options 100 true "shop" draft sent "AK1" (pos 1000)
      (pos 1900000000000) "n-1" "" "10.0.0.1" (1 ∷ 2 ∷ []) key idle (replied answer)
      (pos 1900000000000) blank seen made (readable, omega arith) (omega arith, at_the_end, valid)
      (found (pos 1900000000000)) expired allowed

replay_only_at_boundary_example :
    (ts : ℤ) × (parse_int got.timestamp ≡ some ts)
    × (pos 1900000000000 ≡ billion (ts +ℤ window_seconds))
replay_only_at_boundary_example =
    replay_only_at_boundary net toy lru options 100 true true "shop" "shop" got (pos 1000000000000)
      (pos 1900000000000) idle idle (replied answer) (replied answer) (pos 1000000000000)
      (pos 1900000000000) blank blank nonces [] partner partner accepted_once tt again

string_to_sign_injective_example :
    (◌≡◌ {A = String} "GET" "GET")
    × (◌≡◌ {A = String} "/a" "/a")
    × (◌≡◌ {A = String} "x=1" "x=1")
    × (pos 7 ≡ pos 7)
    × (◌≡◌ {A = String} "n-1" "n-1")
    × (encode_hex (toy.sha256 (1 ∷ [])) ≡ encode_hex (toy.sha256 (1 ∷ [])))
string_to_sign_injective_example =
    string_to_sign_injective toy "GET" "/a" "x=1" "n-1" "GET" "/a" "x=1" "n-1" (pos 7) (pos 7)
      (1 ∷ []) (1 ∷ []) (ground arith, ground arith, ground arith)
      (ground arith, ground arith, ground arith) (omega arith, omega arith) (valid, valid) refl
