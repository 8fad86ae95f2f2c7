-- ===== src/Sdk/Sign/Lines.antt =====
-- The lines of the text that sdk/aksign/aksign.go signs.
use Prim.Native.Char.{Char, code}
use Prim.Native.String.{String, [], ◌∷◌}
use text.Mathlib.TextLemmas.{cons-append, nil-append, head-eq_of_cons-eq, tail-eq_of_cons-eq}
use fp.Common.{
  ℕ, zero, suc, ◌/◌, ◌%◌, Bool, true, false, List, some, nat_eq, ◌≡◌, ◌≢◌, refl, ap, sym, ◌∙◌,
  arith,
}
use fp.Common.Int.{ℤ, pos, negsuc}
use fp.Common.Decimal.{digit, format_digits, format_int, parse_int, parse_int-format_int, IsInt64}
use fp.Common.Hex.{encode_hex}
use fp.Sdk.Sign.{Crypto, line, string_to_sign, is_nonce_char, nonce_fits, valid_nonce}

-- A text without a line break.
abbrev pub IsLine : String → Type 0
IsLine [] = Unit
IsLine (c ∷ s) = (code c ≢ 10) × IsLine s

line-nil : (s : String) → line [] s ≡ "\n" ∷ s
line-nil s = nil-append ("\n" ∷ s)

line-cons : (c : Char) (a s : String) → line (c ∷ a) s ≡ c ∷ line a s
line-cons c a s = cons-append c a ("\n" ∷ s)

-- The first line of a text is determined by it, and so is the rest.
line_split : (a b s t : String) → IsLine a → IsLine b → line a s ≡ line b t → (a ≡ b) × (s ≡ t)
line_split [] [] s t h k e = (refl, tail-eq_of_cons-eq (sym (line-nil s) ∙ e ∙ line-nil t))
line_split [] (d ∷ b) s t h k e =
    absurd (k.0 (ap code (sym (head-eq_of_cons-eq (sym (line-nil s) ∙ e ∙ line-cons d b t)))))
line_split (c ∷ a) [] s t h k e =
    absurd (h.0 (ap code (head-eq_of_cons-eq (sym (line-cons c a s) ∙ e ∙ line-nil t))))
line_split (c ∷ a) (d ∷ b) s t h k e =
    let same = sym (line-cons c a s) ∙ e ∙ line-cons d b t in
    let (p, q) = line_split a b s t h.1 k.1 (tail-eq_of_cons-eq same) in
    let first : c ≡ d = head-eq_of_cons-eq same in (λ i. first i ∷ p i, q)

digit_line : (n : ℕ) → code (digit n) ≢ 10
digit_line n h = omega (arith, h)

IsLine-round :
    (b : Bool) (n : ℕ) (out more : String)
    → IsLine out
    → IsLine more
    → IsLine (elim b as (λ _. String) [ true ↦ digit (n % 10) ∷ out | false ↦ more ])
IsLine-round true n out more h k = (digit_line (n % 10), h)
IsLine-round false n out more h k = k

format_digits-IsLine : (k n : ℕ) (out : String) → IsLine out → IsLine (format_digits k n out)
unfolding format_digits
format_digits-IsLine zero n out h = h
format_digits-IsLine (suc k) n out h =
    IsLine-round (nat_eq (n / 10) 0) n out (format_digits k (n / 10) (digit (n % 10) ∷ out)) h
      (format_digits-IsLine k (n / 10) (digit (n % 10) ∷ out) (digit_line (n % 10), h))

format_int-IsLine : (n : ℤ) → IsLine (format_int n)
unfolding format_int
format_int-IsLine (pos n) = format_digits-IsLine 20 n [] tt
format_int-IsLine (negsuc n) = ((λ h. omega (arith, h)), format_digits-IsLine 20 (suc n) [] tt)

nonce_fits-IsLine : (room : ℕ) (s : String) → nonce_fits room s ≡ true → IsLine s
unfolding nonce_fits is_nonce_char
nonce_fits-IsLine room [] h = tt
nonce_fits-IsLine zero (c ∷ s) h = absurd (cc)
nonce_fits-IsLine (suc room) (c ∷ s) h =
    ((λ e. ground arith), nonce_fits-IsLine room s (ground arith))

pub valid_nonce-IsLine : (s : String) → valid_nonce s ≡ true → IsLine s
unfolding valid_nonce
valid_nonce-IsLine s h = nonce_fits-IsLine 64 s (ground arith)

format_int_injective : (a b : ℤ) → IsInt64 a → IsInt64 b → format_int a ≡ format_int b → a ≡ b
format_int_injective a b h k e =
    let same : some a ≡ some b =
      sym (parse_int-format_int a h) ∙ ap parse_int e ∙ parse_int-format_int b k in
    ground (arith, same)

-- Two requests have one text to sign only if they agree in the method, the path, the query, the
-- timestamp (both of 64 bits), the nonce and the hash of the body: the methods, paths and queries
-- are without line breaks, as in every request line, and the nonces are valid.
pub string_to_sign_injective :
    (c : Crypto) (m p q n m' p' q' n' : String) (ts ts' : ℤ) (body body' : List ℕ)
    → IsLine m × IsLine p × IsLine q
    → IsLine m' × IsLine p' × IsLine q'
    → IsInt64 ts × IsInt64 ts'
    → (valid_nonce n ≡ true) × (valid_nonce n' ≡ true)
    → string_to_sign c m p q ts n body ≡ string_to_sign c m' p' q' ts' n' body'
    → (m ≡ m')
      × (p ≡ p')
      × (q ≡ q')
      × (ts ≡ ts')
      × (n ≡ n')
      × (encode_hex (c.sha256 body) ≡ encode_hex (c.sha256 body'))
unfolding string_to_sign
string_to_sign_injective c m p q n m' p' q' n' ts ts' body body' (a, b, d) (a', b', d') (i, i')
      (v, v') e =
    let (same_m, e1) = line_split m m' _ _ a a' e in
    let (same_p, e2) = line_split p p' _ _ b b' e1 in
    let (same_q, e3) = line_split q q' _ _ d d' e2 in
    let (same_ts, e4) =
      line_split (format_int ts) (format_int ts') _ _ (format_int-IsLine ts) (format_int-IsLine ts')
        e3 in
    let (same_n, e5) = line_split n n' _ _ (valid_nonce-IsLine n v) (valid_nonce-IsLine n' v') e4 in
    (same_m, same_p, same_q, format_int_injective ts ts' i i' same_ts, same_n, e5)
