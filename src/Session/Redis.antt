-- ===== src/Session/Redis.antt =====
-- Redis as the session store uses it. The server is not part of the repository, so its commands are
-- fields of a record, and what the store relies on of their documented meaning are its laws. A
-- command may fail at any time. No key expires during one call of the program: expiry is a step of
-- the environment between calls. Sessions are values here; JSON belongs to the standard library.
use fp.Common.{
  String, ℕ, Bool, true, false, not, ◌&&◌, ◌||◌, List, map, Option, none, some, ◌==◌, if◌then◌else◌,
  ◌≡◌, ◌⊎◌,
}
use fp.Common.Lists.{contains}
use fp.Common.Int.{ℤ}
use fp.Errors.Transport.{GoError, is_not_found}
use fp.Session.Policy.{Session}
use fp.Session.Monad.{Result, ok, err, Action}

abbrev pub is_some : {A : Type 0} → Option A → Bool
is_some none = false
is_some (some _) = true

-- The user whose index loses the token, if any.
abbrev pub is_user : Option String → String → Bool
is_user none u = false
is_user (some v) u = v == u

pub record Redis : Type 1 where
  pub Db : Type 0
  -- What stands under fp:sess:{token}, and in the set fp:usess:{user}.
  pub stored : Db → String → Option Session
  pub index : Db → String → List String
  -- GET, SMEMBERS and MGET; of the values only their presence is used.
  pub get : String → Db → Result (Option Session)
  pub smembers : String → Db → Result (List String)
  pub mget : List String → Db → Result (List Bool)
  -- The transactions: SET, SADD, EXPIRE with two lifetimes; DEL and SREM; DEL and SREM of many,
  -- with the number of deleted keys.
  pub put_tx : Session → ℤ → ℤ → Action Db (Unit {0})
  pub del_tx : String → Option String → Action Db (Unit {0})
  pub del_many_tx : String → List String → Action Db ℕ
  pub srem : String → List String → Action Db (Unit {0})
  -- SET NX with a lifetime, the rotation map fp:rot:{token}, and the epoch of a user.
  pub set_nx : String → ℤ → Action Db Bool
  pub set_rotation : String → String → ℤ → Action Db (Unit {0})
  pub get_rotation : String → Db → Result (Option String)
  pub get_epoch : String → Db → Result (Option ℤ)
  -- Replies tell what stands in the database.
  pub get_reply : (t : String) (db : Db) (v : Option Session) → get t db ≡ ok v → v ≡ stored db t
  -- An error of Redis is no domain error.
  pub get_error : (t : String) (db : Db) (e : GoError) → get t db ≡ err e → is_not_found e ≡ false
  pub smembers_reply :
      (u : String) (db : Db) (ts : List String) → smembers u db ≡ ok ts → ts ≡ index db u
  pub mget_reply :
      (ts : List String) (db : Db) (vs : List Bool)
      → mget ts db ≡ ok vs
      → vs ≡ map (λ t. is_some (stored db t)) ts
  -- Writes change what they name and nothing else.
  pub put_stored :
      (s : Session) (ttl ittl : ℤ) (db db' : Db)
      → put_tx s ttl ittl db ≡ (ok tt, db')
      → (t : String) → stored db' t ≡ (if s.token == t then some s else stored db t)
  pub put_index :
      (s : Session) (ttl ittl : ℤ) (db db' : Db)
      → put_tx s ttl ittl db ≡ (ok tt, db')
      → (u t : String)
      → contains (index db' u) t ≡ (contains (index db u) t || (s.user_id == u && s.token == t))
  pub del_stored :
      (t : String) (u : Option String) (db db' : Db)
      → del_tx t u db ≡ (ok tt, db')
      → (j : String) → stored db' j ≡ (if t == j then none else stored db j)
  pub del_index :
      (t : String) (u : Option String) (db db' : Db)
      → del_tx t u db ≡ (ok tt, db')
      → (v j : String)
      → contains (index db' v) j ≡ (contains (index db v) j && not (is_user u v && t == j))
  pub srem_stored :
      (u : String) (ts : List String) (db : Db) (j : String)
      → stored (srem u ts db).1 j ≡ stored db j
  pub srem_index :
      (u : String) (ts : List String) (db : Db) (v j : String)
      → contains (index db v) j ≡ true
      → (contains (index (srem u ts db).1 v) j ≡ true) ⊎ ((u ≡ v) × (contains ts j ≡ true))
  pub nx_stored :
      (k : String) (ttl : ℤ) (db : Db) (j : String) → stored (set_nx k ttl db).1 j ≡ stored db j
  pub rotation_stored :
      (a b : String) (ttl : ℤ) (db : Db) (j : String)
      → stored (set_rotation a b ttl db).1 j ≡ stored db j
