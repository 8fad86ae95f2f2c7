-- ===== src/Sdk/Nonce.antt =====
-- sdk/nonce.go: the nonces of signed requests that this process has seen. The mutex makes each call
-- atomic, so the calls of concurrent requests are a sequence. Moments are Unix seconds.
pub mod Replay
mod Tests
use fp.Common.{
  String, ℕ, Bool, true, false, not, List, [], ◌∷◌, Option, none, some, leb, if◌then◌else◌,
}
use fp.Common.Lists.{length}
use fp.Common.GoMap.{GoMap, lookup, insert}
use fp.Common.Int.{ℤ, leb_ℤ, ltb_ℤ}

pub data NonceError : Type 0 where
  nonce_used nonce_full : NonceError

pub record NonceStore : Type 0 where
  pub cap : ℕ
  pub seen : GoMap ℤ

unfoldable pub new_nonce_store : ℕ → NonceStore
new_nonce_store capacity = record { cap = capacity; seen = [] }

-- `exp, ok := s.seen[key]; ok && exp > now`
unfoldable pub is_live : GoMap ℤ → String → ℤ → Bool
is_live seen key now = elim (lookup key seen) [ none ↦ false | some exp ↦ ltb_ℤ now exp ]

-- The loop that deletes what has expired.
unfoldable pub drop_expired : ℤ → GoMap ℤ → GoMap ℤ
drop_expired now [] = []
drop_expired now ((k, exp) ∷ m) =
    if leb_ℤ exp now then drop_expired now m else (k, exp) ∷ drop_expired now m

unfoldable pub put_if_room : NonceStore → String → ℤ → Option NonceError × NonceStore
put_if_room s key expire_at =
    if leb s.cap (length s.seen)
    then (some nonce_full, s)
    else (none, record s { seen = insert key expire_at s.seen })

-- `add`; nil is `none`.
unfoldable pub add : NonceStore → String → ℤ → ℤ → Option NonceError × NonceStore
add s key expire_at now =
    if is_live s.seen key now
    then (some nonce_used, s)
    else if leb s.cap (length s.seen)
    then put_if_room (record s { seen = drop_expired now s.seen }) key expire_at
    else (none, record s { seen = insert key expire_at s.seen })

-- One call, and the store after a sequence of calls.
pub record Call : Type 0 where
  pub key : String
  pub expire_at : ℤ
  pub now : ℤ

abbrev pub run : NonceStore → List Call → NonceStore
run s [] = s
run s (c ∷ cs) = run (add s c.key c.expire_at c.now).1 cs
