-- ===== src/Sdk/Nonce/Tests.antt =====
-- Two requests with one nonce, and a table for two.
use fp.Common.{◌≤◌, List, [], ◌∷◌, none, some, ◌≡◌, refl, arith}
use fp.Common.Lists.{length}
use fp.Common.Int.{pos}
use fp.Sdk.Nonce.{nonce_used, NonceStore, add, is_live, Call, run, new_nonce_store}
use fp.Sdk.Nonce.Replay.{replay_is_refused, table_is_bounded}

abbrev two : NonceStore
two = record { cap = 2; seen = ("a", pos 5) ∷ [] }

abbrev others : List Call
others = record { key = "c"; expire_at = pos 40; now = pos 12 } ∷ []

accepted : (add two "b" (pos 30) (pos 10)).0 ≡ none
unfolding add is_live
accepted = refl

replay_is_refused_example :
    (add (run (add two "b" (pos 30) (pos 10)).1 others) "b" (pos 50) (pos 20)).0 ≡ some nonce_used
replay_is_refused_example =
    replay_is_refused two "b" (pos 30) (pos 10) others (pos 50) (pos 20) accepted (omega arith, tt)
      (omega arith)

table_is_bounded_example : length (run (new_nonce_store 2) others).seen ≤ 2
table_is_bounded_example = table_is_bounded 2 others
