-- ===== src/Notify/Template/Placeholders.antt =====
-- The regular expressions of internal/notify/render.go, and strings.TrimSpace as far as it tells
-- whether anything is left.
use Prim.Native.Nat.{ℕ}
use Prim.Native.Char.{Char, code}
use Prim.Native.String.{String, [], ◌∷◌}
use mathlib.Core.Bool.{Bool, true, false, ◌&&◌, ◌||◌}
use mathlib.Core.Option.{Option, none, some}
use mathlib.Core.List.{List, [] as nil, ◌∷◌ as cons}
use fp.Common.{leb, nat_eq, if◌then◌else◌}

abbrev between : ℕ → ℕ → Char → Bool
between a b c = leb a (code c) && leb (code c) b

-- `[A-Za-z_]` and `[A-Za-z0-9_]`
unfoldable pub starts_name : Char → Bool
starts_name c = between 65 90 c || between 97 122 c || nat_eq (code c) 95

unfoldable pub continues_name : Char → Bool
continues_name c = starts_name c || between 48 57 c

unfoldable pub all_continue : String → Bool
all_continue [] = true
all_continue (c ∷ s) = continues_name c && all_continue s

-- `identRE.MatchString`
unfoldable pub is_ident : String → Bool
is_ident [] = false
is_ident (c ∷ s) = starts_name c && all_continue s

-- The rest of a name up to the closing brace.
unfoldable pub name_rest : String → Option String
name_rest [] = none
name_rest (c ∷ s) =
    let rest = name_rest s in
    if nat_eq (code c) 125
    then some []
    else if continues_name c
    then (elim rest [ none ↦ none | some r ↦ some (c ∷ r) ])
    else none

unfoldable pub name_at : String → Option String
name_at [] = none
name_at (c ∷ s) =
    if starts_name c then (elim (name_rest s) [ none ↦ none | some r ↦ some (c ∷ r) ]) else none

-- All matches of `placeholderRE`. A name has no opening brace, so no match starts inside another.
unfoldable pub all_names : String → List String
all_names [] = nil
all_names (c ∷ s) =
    let rest = all_names s in
    let here : List String = elim (name_at s) [ none ↦ rest | some n ↦ cons n rest ] in
    if nat_eq (code c) 123 then here else rest

-- White space as unicode.IsSpace has it.
unfoldable pub is_space : Char → Bool
is_space c =
    between 9 13 c
    || nat_eq (code c) 32
    || nat_eq (code c) 133
    || nat_eq (code c) 160
    || nat_eq (code c) 5760
    || between 8192 8202 c
    || between 8232 8233 c
    || nat_eq (code c) 8239
    || nat_eq (code c) 8287
    || nat_eq (code c) 12288

-- `strings.TrimSpace(s) == ""`
unfoldable pub is_blank : String → Bool
is_blank [] = true
is_blank (c ∷ s) = is_space c && is_blank s
