-- ===== src/Session/Revoke/Listing.antt =====
-- What `ListUserTokens` of internal/store/session.go returns and leaves.
use fp.Common.{
  String, Bool, true, List, [], ◌∷◌, ◌++◌, map, ◌≡◌, refl, ap, sym, ◌∙◌, arith, inl, inr,
  Bool-cases, if◌then◌else◌,
}
use mathlib.Core.List.{append_assoc, append-nil}
use fp.Common.Lists.{In}
use fp.Session.Monad.{Result, ok, >>=-eq-ok, Result-cases}
use fp.Session.Redis.{Redis, is_some}
use fp.Session.Store.Chunks.{chunk_strings, concat, chunk_strings_partition}
use fp.Session.Store.{
  alive_of, dangling_of, read_batches, clean_batches, list_user_tokens, redis_batch_size,
}

abbrev pub keep : (String → Bool) → List String → List String
keep q [] = []
keep q (t ∷ ts) = if q t then t ∷ keep q ts else keep q ts

keep-append : (q : String → Bool) (xs ys : List String) → keep q (xs ++ ys) ≡ keep q xs ++ keep q ys
keep-append q [] ys = refl
keep-append q (x ∷ xs) ys = ground (arith, keep-append q xs ys)

module _ (r : Redis) where
  open r use {Db, stored, index, smembers, mget, srem, mget_reply, smembers_reply, srem_stored}

  alive_of-map :
      (q : String → Bool) (batch : List String) → alive_of r batch (map q batch) ≡ keep q batch
  unfolding alive_of
  alive_of-map q [] = refl
  alive_of-map q (t ∷ ts) = ground (arith, alive_of-map q ts)

  abbrev pub present : Db → String → Bool
  present db t = is_some (stored db t)

  read_batches_ok :
      (batches : List (List String)) (alive dangling : List String) (db db' : Db)
      (out : List String × List String)
      → read_batches r batches alive dangling db ≡ (ok out, db')
      → (db' ≡ db) × (out.0 ≡ alive ++ keep (present db) (concat batches))
  unfolding read_batches
  read_batches_ok [] alive dangling db db' out h =
      let a = append-nil alive in (ground arith, ground (arith, a))
  read_batches_ok (b ∷ bs) alive dangling db db' out h = elim (Result-cases (mget b db)) [
    | inl (vs, e) ↦
        let (same, k) =
          read_batches_ok bs (alive ++ alive_of r b vs) (dangling ++ dangling_of r b vs) db db' out
            (rw e at h) in
        let a : alive_of r b vs ≡ keep (present db) b =
          ap (alive_of r b) (mget_reply b db vs e) ∙ alive_of-map (present db) b in
        (
          same,
          k
              ∙ append_assoc alive (alive_of r b vs) (keep (present db) (concat bs))
              ∙ ap (λ x. alive ++ x)
                  (ap (λ x. x ++ keep (present db) (concat bs)) a
                    ∙ sym (keep-append (present db) b (concat bs))),
        )
    | inr (x, e) ↦ absurd (cc (rw e at h))
  ]

  clean_batches-stored :
      (user : String) (batches : List (List String)) (db : Db) (t : String)
      → stored (clean_batches r user batches db) t ≡ stored db t
  unfolding clean_batches
  clean_batches-stored user [] db t = refl
  clean_batches-stored user (b ∷ bs) db t =
      ground (arith, srem_stored user b db t, clean_batches-stored user bs (srem user b db).1 t)

  -- Listing returns the tokens of the index that have a session, in order, and changes no session.
  pub list_user_tokens_ok :
      (user : String) (db db' : Db) (alive : List String)
      → list_user_tokens r user db ≡ (ok alive, db')
      → (alive ≡ keep (present db) (index db user)) × ((t : String) → stored db' t ≡ stored db t)
  unfolding list_user_tokens
  list_user_tokens_ok user db db' alive h = elim (Result-cases (smembers user db)) [
    | inr (x, e) ↦ absurd (cc (rw e at h))
    | inl (ts, e) ↦
        let (out, mid, g, k) =
          >>=-eq-ok (read_batches r (chunk_strings ts redis_batch_size) [] []) finish db
            (rw e at h) in
        let (same, a) = read_batches_ok (chunk_strings ts redis_batch_size) [] [] db mid out g in
        let whole : concat (chunk_strings ts redis_batch_size) ≡ index db user =
          (chunk_strings_partition ts redis_batch_size (omega arith)).0
          ∙ smembers_reply user db ts e in
        let k' : finish out mid ≡ (ok alive, db') = k in
        (
          cc k' ∙ a ∙ ap (keep (present db)) whole,
          λ t.
              ap (λ d. stored d t) (sym (ap (λ p. p.1) k'))
              ∙ clean_batches-stored user (chunk_strings out.1 redis_batch_size) mid t
              ∙ ap (λ d. stored d t) same,
        )
  ]
    where
      finish : List String × List String → Db → Result (List String) × Db
      finish (alive, dangling) db =
          (ok alive, clean_batches r user (chunk_strings dangling redis_batch_size) db)

pub In-keep :
    (q : String → Bool) (t : String) (ts : List String) → In t ts → q t ≡ true → In t (keep q ts)
In-keep q t [] m h = absurd m
In-keep q t (x ∷ xs) (inl e) h = ground (arith, ap q e)
In-keep q t (x ∷ xs) (inr m) h = ground (arith, In-keep q t xs m h)

pub In-keep-inv :
    (q : String → Bool) (t : String) (ts : List String) → In t (keep q ts) → In t ts × (q t ≡ true)
In-keep-inv q t [] m = absurd m
In-keep-inv q t (x ∷ xs) m = elim (Bool-cases (q x)) [
  | inl e ↦ ground (arith, In-keep-inv q t xs, λ (p : x ≡ t). ap q p)
  | inr e ↦ ground (arith, In-keep-inv q t xs)
]
