-- ===== src/Sdk/Nonce/Replay.antt =====
-- The table of nonces of sdk/nonce.go over sequences of requests.
use fp.Common.{
  String, ℕ, suc, ◌≤◌, List, [], ◌∷◌, Option, none, some, ◌≡◌, refl, ap, ◌∙◌, arith, eq_iff,
  eq_refl,
}
use fp.Common.Lists.{length, All}
use fp.Common.GoMap.{GoMap, lookup, insert, lookup-insert}
use fp.Common.Int.{ℤ, ◌<ℤ◌}
use fp.Sdk.Nonce.{
  nonce_used, nonce_full, NonceStore, is_live, drop_expired, put_if_room, add, Call, run,
  new_nonce_store,
}

length-insert : (k : String) (v : ℤ) (m : GoMap ℤ) → length (insert k v m) ≤ suc (length m)
length-insert k v [] = omega arith
length-insert k v ((j, w) ∷ m) = ground (arith, length-insert k v m)

lookup-drop_expired :
    (now e : ℤ) (key : String) (m : GoMap ℤ)
    → lookup key m ≡ some e
    → now <ℤ e
    → lookup key (drop_expired now m) ≡ some e
unfolding drop_expired
lookup-drop_expired now e key [] h k = h
lookup-drop_expired now e key ((j, w) ∷ m) h k = ground (arith, lookup-drop_expired now e key m)

length-drop_expired : (now : ℤ) (m : GoMap ℤ) → length (drop_expired now m) ≤ length m
unfolding drop_expired
length-drop_expired now [] = omega arith
length-drop_expired now ((j, w) ∷ m) = ground (arith, length-drop_expired now m)

-- A nonce that has not expired stays in the table with its moment, whatever is added.
lookup-add :
    (s : NonceStore) (key : String) (e : ℤ) (c : Call)
    → lookup key s.seen ≡ some e
    → c.now <ℤ e
    → lookup key (add s c.key c.expire_at c.now).1.seen ≡ some e
unfolding add put_if_room is_live
lookup-add s key e c h k = ground (
  arith,
  eq_iff c.key key,
  λ (p : c.key ≡ key). ap (λ x. lookup x s.seen) p,
  lookup-insert c.key key c.expire_at s.seen,
  lookup-drop_expired c.now e key s.seen h k,
  lookup-insert c.key key c.expire_at (drop_expired c.now s.seen),
)

lookup-run :
    (s : NonceStore) (key : String) (e : ℤ) (cs : List Call)
    → lookup key s.seen ≡ some e
    → All (λ c. c.now <ℤ e) cs
    → lookup key (run s cs).seen ≡ some e
lookup-run s key e [] h k = h
lookup-run s key e (c ∷ cs) h (k, ks) =
    lookup-run (add s c.key c.expire_at c.now).1 key e cs (lookup-add s key e c h k) ks

added :
    (s : NonceStore) (key : String) (e now : ℤ)
    → (add s key e now).0 ≡ none
    → lookup key (add s key e now).1.seen ≡ some e
unfolding add put_if_room
added s key e now h = ground (
  arith,
  eq_refl key,
  lookup-insert key key e s.seen,
  lookup-insert key key e (drop_expired now s.seen),
)

-- Once a nonce has been accepted, every further request with it is refused as used until the moment
-- at which it expires, whatever other requests come in between and even if the table is full, as
-- long as the clock has not reached that moment at any of them.
pub replay_is_refused :
    (s : NonceStore) (key : String) (e now : ℤ) (between : List Call) (e' later : ℤ)
    → (add s key e now).0 ≡ none
    → All (λ c. c.now <ℤ e) between
    → later <ℤ e
    → (add (run (add s key e now).1 between) key e' later).0 ≡ some nonce_used
unfolding add is_live
replay_is_refused s key e now between e' later fresh before h =
    ground (arith, lookup-run (add s key e now).1 key e between (added s key e now fresh) before)

add-length :
    (s : NonceStore) (c : Call)
    → length s.seen ≤ s.cap
    → (length (add s c.key c.expire_at c.now).1.seen ≤ s.cap)
      × ((add s c.key c.expire_at c.now).1.cap ≡ s.cap)
unfolding add put_if_room
add-length s c h = ground (
  arith,
  length-insert c.key c.expire_at s.seen,
  length-drop_expired c.now s.seen,
  length-insert c.key c.expire_at (drop_expired c.now s.seen),
)

-- Whatever requests come in, the table never holds more nonces than its capacity.
pub table_is_bounded :
    (capacity : ℕ) (cs : List Call) → length (run (new_nonce_store capacity) cs).seen ≤ capacity
unfolding new_nonce_store
table_is_bounded capacity cs = go (new_nonce_store capacity) cs (omega arith) refl
  where
    go :
        (s : NonceStore) (cs : List Call)
        → length s.seen ≤ s.cap
        → s.cap ≡ capacity
        → length (run s cs).seen ≤ capacity
    go s [] h k = omega (arith, h, k)
    go s (c ∷ cs) h k =
        let (b, same) = add-length s c h in
        go (add s c.key c.expire_at c.now).1 cs (omega (arith, b, same)) (same ∙ k)

all_live : (now : ℤ) (m : GoMap ℤ) → All (λ e. now <ℤ e.1) (drop_expired now m)
unfolding drop_expired
all_live now [] = tt
all_live now ((j, w) ∷ m) = ground (arith, all_live now m)

-- A nonce is refused as used only if it is in the table and has not expired, and for a full table
-- only if what is left after the deletion of all expired nonces fills it.
pub refusals_are_justified :
    (s : NonceStore) (key : String) (e now : ℤ)
    → let out = add s key e now in
      (out.0 ≡ some nonce_used → (exp : ℤ) × (lookup key s.seen ≡ some exp) × (now <ℤ exp))
      × (out.0 ≡ some nonce_full → All (λ x. now <ℤ x.1) out.1.seen × (s.cap ≤ length out.1.seen))
unfolding add put_if_room is_live
refusals_are_justified s key e now =
    (λ h. used (lookup key s.seen) refl h, λ h. ground (arith, all_live now s.seen))
  where
    used :
        (found : Option ℤ)
        → lookup key s.seen ≡ found
        → (add s key e now).0 ≡ some nonce_used
        → (exp : ℤ) × (lookup key s.seen ≡ some exp) × (now <ℤ exp)
    used none k h = absurd (ground arith)
    used (some exp) k h = (exp, k, ground arith)
