-- ===== src/Im/Rendezvous.antt =====
-- `Pick` of internal/im/rendezvous/rendezvous.go. The hash fnv-1a belongs to the standard library:
-- the weight of a node for a key is a parameter.
pub mod Choice
mod Tests
use fp.Common.{
  String, ℕ, Bool, true, false, ◌||◌, ◌&&◌, List, [], ◌∷◌, Option, none, some, ltb, nat_eq,
  if◌then◌else◌,
}
use fp.Common.Text.{text_ltb}

module _ (weight : String → String → ℕ) where
  -- The condition under which a node replaces the best one so far.
  unfoldable pub is_better : String → String → String → Bool
  is_better key n best =
      let w = weight n key in
      let best_w = weight best key in ltb best_w w || (nat_eq w best_w && text_ltb n best)

  -- The loop, with the best node so far; `none` is `!picked`.
  unfoldable pub pick_from : String → Option String → List String → Option String
  pick_from key best [] = best
  pick_from key none (n ∷ ns) = pick_from key (some n) ns
  pick_from key (some best) (n ∷ ns) =
      pick_from key (some (if is_better key n best then n else best)) ns

  unfoldable pub pick : List String → String → Option String
  pick nodes key = pick_from key none nodes
