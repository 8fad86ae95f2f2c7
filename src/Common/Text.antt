-- ===== src/Common/Text.antt =====
-- Go's order of texts: by bytes, which for UTF-8 is by code points.
use Prim.Native.Char.{code}
use Prim.Native.String.{String, [], ◌∷◌}
use mathlib.Core.Path.{◌≡◌, refl}
use mathlib.Core.Bool.{Bool, true, false, ◌&&◌, ◌||◌}
use native.Mathlib.Omega.{arith}
use text.Mathlib.TextEquality.{Char-path}
use fp.Common.Tests.{ltb, nat_eq}

-- `a < b`
unfoldable pub text_ltb : String → String → Bool
text_ltb [] [] = false
text_ltb [] (d ∷ t) = true
text_ltb (c ∷ s) [] = false
text_ltb (c ∷ s) (d ∷ t) = ltb (code c) (code d) || (nat_eq (code c) (code d) && text_ltb s t)

pub text_ltb_irrefl : (s : String) → text_ltb s s ≡ false
unfolding text_ltb
text_ltb_irrefl [] = refl
text_ltb_irrefl (c ∷ s) = ground (arith, text_ltb_irrefl s)

pub text_ltb_trans :
    (s t u : String) → text_ltb s t ≡ true → text_ltb t u ≡ true → text_ltb s u ≡ true
unfolding text_ltb
text_ltb_trans [] [] u h k = absurd (ground arith)
text_ltb_trans [] (d ∷ t) [] h k = absurd (ground arith)
text_ltb_trans [] (d ∷ t) (e ∷ u) h k = refl
text_ltb_trans (c ∷ s) [] u h k = absurd (ground arith)
text_ltb_trans (c ∷ s) (d ∷ t) [] h k = absurd (ground arith)
text_ltb_trans (c ∷ s) (d ∷ t) (e ∷ u) h k = ground (arith, text_ltb_trans s t u)

pub text_ltb_total : (s t : String) → text_ltb s t ≡ false → text_ltb t s ≡ false → s ≡ t
unfolding text_ltb
text_ltb_total [] [] h k = refl
text_ltb_total [] (d ∷ t) h k = absurd (ground arith)
text_ltb_total (c ∷ s) [] h k = absurd (ground arith)
text_ltb_total (c ∷ s) (d ∷ t) h k =
    let same : code c ≡ code d = ground arith in
    let rest : s ≡ t = text_ltb_total s t (ground arith) (ground arith) in
    λ i. Char-path c d same i ∷ rest i
