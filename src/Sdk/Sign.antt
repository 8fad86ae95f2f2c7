-- ===== src/Sdk/Sign.antt =====
-- sdk/aksign/aksign.go: how a request is signed. SHA-256 and HMAC are calls of Go's crypto packages,
-- and so are fields of `Crypto`; bytes are numbers below 256. The address of a request is the text
-- that `URL.RequestURI` gives, and its headers are fields.
pub mod Lines
use Prim.Native.Char.{Char, code}
use Prim.Native.String.{String, [], ◌∷◌, ◌++◌ as append}
use mathlib.Core.List.{[] as nil, ◌∷◌ as cons}
use fp.Common.{
  ℕ, zero, suc, ◌≤◌, ◌<◌, Bool, true, false, ◌&&◌, ◌||◌, List, Option, none, some, ◌==◌,
  if◌then◌else◌, ltb, leb, nat_eq, ◌≡◌,
}
use fp.Common.Lists.{length, All}
use fp.Common.Int.{ℤ}
use fp.Common.Decimal.{format_int}
use fp.Common.Hex.{encode_hex}

pub record Crypto : Type 0 where
  -- `sha256.Sum256`, and HMAC-SHA256 of a text under a text.
  pub sha256 : List ℕ → List ℕ
  pub hmac : String → String → List ℕ
  -- Both give 32 bytes.
  pub hmac_size : (k m : String) → length (hmac k m) ≡ 32
  pub hmac_bytes : (k m : String) → All (λ b. b < 256) (hmac k m)

abbrev pub line : String → String → String
line a b = append a ("\n" ∷ b)

-- `StringToSign`
unfoldable pub string_to_sign : Crypto → String → String → String → ℤ → String → List ℕ → String
string_to_sign c method path query timestamp nonce body =
    line method (
      line path
        (line query (line (format_int timestamp) (line nonce (encode_hex (c.sha256 body))))))

-- `Signature`
unfoldable pub signature : Crypto → String → String → String
signature c secret text = encode_hex (c.hmac secret text)

-- `strings.Cut` at a character: what stands before and after it.
unfoldable pub cut : ℕ → String → String × String
cut sep [] = ([], [])
cut sep (c ∷ s) =
    let (before, after) = cut sep s in if nat_eq (code c) sep then ([], s) else (c ∷ before, after)

-- The text from the first such character on.
unfoldable pub from_char : ℕ → String → Option String
from_char sep [] = none
from_char sep (c ∷ s) = if nat_eq (code c) sep then some (c ∷ s) else from_char sep s

-- What follows the prefix, if there is one.
unfoldable pub after_prefix : String → String → Option String
after_prefix [] s = some s
after_prefix (c ∷ p) [] = none
after_prefix (c ∷ p) (d ∷ s) = if nat_eq (code c) (code d) then after_prefix p s else none

-- What follows the first occurrence of a text that is not empty.
unfoldable pub after_first : String → String → Option String
after_first p [] = none
after_first p (c ∷ s) =
    let rest = after_first p s in elim (after_prefix p (c ∷ s)) [ some r ↦ some r | none ↦ rest ]

abbrev pub slash : ℕ
slash = 47

abbrev pub question_mark : ℕ
question_mark = 63

unfoldable pub starts_with_slash : String → Bool
starts_with_slash [] = false
starts_with_slash (c ∷ s) = nat_eq (code c) slash

-- The part after the scheme of an absolute address.
unfoldable pub split_rest : String → String × String
split_rest rest = elim (from_char slash rest) [
  | none ↦ ("/", [])
  | some uri ↦ cut question_mark uri
]

-- `SplitRequestURI`: the path and the query.
unfoldable pub split_request_uri : String → String × String
split_request_uri uri =
    if starts_with_slash uri
    then cut question_mark uri
    else elim (after_first "://" uri) [ none ↦ cut question_mark uri | some rest ↦ split_rest rest ]

-- The characters of a nonce.
unfoldable pub is_nonce_char : Char → Bool
is_nonce_char c =
    (leb 97 (code c) && leb (code c) 122)
    || (leb 65 (code c) && leb (code c) 90)
    || (leb 48 (code c) && leb (code c) 57)
    || nat_eq (code c) 45
    || nat_eq (code c) 95

-- All characters are a nonce's, and there are at most so many.
unfoldable pub nonce_fits : ℕ → String → Bool
nonce_fits room [] = true
nonce_fits zero (c ∷ s) = false
nonce_fits (suc room) (c ∷ s) = is_nonce_char c && nonce_fits room s

-- `ValidNonce`: a text of ASCII has as many bytes as characters.
unfoldable pub valid_nonce : String → Bool
valid_nonce s = if s == "" then false else nonce_fits 64 s

-- A request with its headers of the signature, which are empty when they are missing, its body, and
-- where it comes from. A body that is nil is `none`, one that cannot be read `some none`.
pub record Request : Type 0 where
  pub method : String
  pub request_uri : String
  pub body : Option (Option (List ℕ))
  pub access_key : String
  pub timestamp : String
  pub nonce : String
  pub signature : String
  pub forwarded_for : String
  pub remote_addr : String

unfoldable pub read_all : Option (Option (List ℕ)) → Option (List ℕ)
read_all none = some nil
read_all (some b) = b

-- The request with its four headers.
unfoldable pub signed_with : Crypto → Request → String → String → ℤ → String → List ℕ → Request
signed_with c req access_key_id secret ts nonce body =
    let (path, query) = split_request_uri req.request_uri in
    record req {
      access_key = access_key_id;
      timestamp = format_int ts;
      nonce = nonce;
      signature = signature c secret (string_to_sign c req.method path query ts nonce body);
    }

-- `SignAt`; an error in reading the body is `none`.
unfoldable pub sign_at : Crypto → Request → String → String → ℤ → String → Option Request
sign_at c req access_key_id secret ts nonce = elim (read_all req.body) [
  | none ↦ none
  | some body ↦ some (signed_with c req access_key_id secret ts nonce body)
]
