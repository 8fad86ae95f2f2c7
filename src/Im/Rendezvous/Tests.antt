-- ===== src/Im/Rendezvous/Tests.antt =====
-- Two nodes, one of which is listed twice.
use fp.Common.{String, ℕ, List, [], ◌∷◌, none, some, ◌==◌, ◌≡◌, refl, ◌↔◌, if◌then◌else◌, arith}
use fp.Common.Lists.{In}
use fp.Common.Text.{text_ltb}
use fp.Im.Rendezvous.{pick, pick_from, is_better}
use fp.Im.Rendezvous.Choice.{IsBest, pick_iff, pick_order_irrelevant}

abbrev weights : String → String → ℕ
weights n key = if n == "n1" then 7 else 9

abbrev nodes : List String
nodes = "n1" ∷ "n3" ∷ "n2" ∷ []

picked : pick weights nodes "ann" ≡ some "n2"
unfolding pick pick_from is_better text_ltb
picked = refl

pick_iff_example :
    ((pick weights nodes "ann" ≡ some "n2") ↔ (In "n2" nodes × IsBest weights "ann" nodes "n2"))
    × ((pick weights nodes "ann" ≡ none) ↔ (nodes ≡ []))
pick_iff_example = pick_iff weights nodes "ann" "n2"

abbrev shuffled : List String
shuffled = "n2" ∷ "n1" ∷ "n2" ∷ "n3" ∷ []

same_nodes : (n : String) → In n nodes ↔ In n shuffled
same_nodes n = ground arith

pick_order_irrelevant_example : pick weights shuffled "ann" ≡ some "n2"
pick_order_irrelevant_example =
    pick_order_irrelevant weights nodes shuffled "ann" "n2" same_nodes picked
