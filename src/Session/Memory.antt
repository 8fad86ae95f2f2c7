-- ===== src/Session/Memory.antt =====
-- A Redis that keeps everything in maps and never fails, an implementation of the interface of
-- Session/Redis.antt on which the examples run. Keys do not expire.
mod Tests
mod Runs
pub mod Sample
use fp.Common.{
  String, ℕ, zero, suc, ◌+◌, Bool, true, false, not, ◌&&◌, ◌||◌, List, [], ◌∷◌, ◌++◌, map, Option,
  none, some, ◌==◌, if◌then◌else◌, ◌≡◌, refl, sym, ap, ◌∙◌, arith, ◌⊎◌, inl, inr, eq_iff,
  Bool-cases,
}
use fp.Common.Lists.{contains}
use fp.Common.GoMap.{GoMap, lookup, insert, erase, lookup-insert, lookup-erase}
use fp.Common.Int.{ℤ}
use fp.Errors.Transport.{GoError}
use fp.Session.Policy.{Session}
use fp.Session.Monad.{Result, ok, err}
use fp.Session.Redis.{Redis, is_some, is_user}

pub record Maps : Type 0 where
  pub sessions : GoMap Session
  pub members : GoMap (List String)
  pub locks : List String
  pub rotations : GoMap String
  pub epochs : GoMap ℤ

abbrev pub members_of : GoMap (List String) → String → List String
members_of m u = elim (lookup u m) [ none ↦ [] | some ts ↦ ts ]

abbrev pub remove : String → List String → List String
remove t [] = []
remove t (x ∷ xs) = if x == t then remove t xs else x ∷ remove t xs

abbrev pub remove_all : List String → List String → List String
remove_all [] xs = xs
remove_all (t ∷ ts) xs = remove t (remove_all ts xs)

abbrev pub erase_all : {V : Type 0} → List String → GoMap V → GoMap V
erase_all [] m = m
erase_all (t ∷ ts) m = erase t (erase_all ts m)

-- How many of the tokens have a session, a token counted once for every time it is listed.
abbrev count_in : List String → GoMap Session → ℕ
count_in [] m = 0
count_in (t ∷ ts) m = if is_some (lookup t m) then suc (count_in ts m) else count_in ts m

contains-remove :
    (t j : String) (xs : List String) → contains (remove t xs) j ≡ (contains xs j && not (t == j))
contains-remove t j [] = refl
contains-remove t j (x ∷ xs) =
    ground (arith, contains-remove t j xs, eq_iff x t, eq_iff x j, eq_iff t j)

contains-append_one :
    (t j : String) (xs : List String) → contains (xs ++ (t ∷ [])) j ≡ (contains xs j || t == j)
contains-append_one t j [] = ground arith
contains-append_one t j (x ∷ xs) = ground (arith, contains-append_one t j xs)

contains-remove_all :
    (ts : List String) (j : String) (xs : List String)
    → contains xs j ≡ true
    → (contains (remove_all ts xs) j ≡ true) ⊎ (contains ts j ≡ true)
contains-remove_all [] j xs h = inl h
contains-remove_all (t ∷ ts) j xs h =
    ground (arith, contains-remove_all ts j xs h, contains-remove t j (remove_all ts xs))

abbrev leave : Option String → String → GoMap (List String) → GoMap (List String)
leave none t m = m
leave (some u) t m = insert u (remove t (members_of m u)) m

members_of-insert :
    (u v : String) (ts : List String) (m : GoMap (List String))
    → members_of (insert u ts m) v ≡ (if u == v then ts else members_of m v)
members_of-insert u v ts m = ground (arith, lookup-insert u v ts m)

pub contains-leave :
    (u : Option String) (t v j : String) (m : GoMap (List String))
    → contains (members_of (leave u t m) v) j
      ≡ (contains (members_of m v) j && not (is_user u v && t == j))
contains-leave none t v j m = ground arith
contains-leave (some u) t v j m = ground (
  arith,
  eq_iff u v,
  members_of-insert u v (remove t (members_of m u)) m,
  contains-remove t j (members_of m u),
)

pub contains-join :
    (u t v j : String) (m : GoMap (List String))
    → contains (members_of (insert u (members_of m u ++ (t ∷ [])) m) v) j
      ≡ (contains (members_of m v) j || (u == v && t == j))
contains-join u t v j m = ground (
  arith,
  eq_iff u v,
  members_of-insert u v (members_of m u ++ (t ∷ [])) m,
  contains-append_one t j (members_of m u),
)

pub contains-drop :
    (u : String) (ts : List String) (v j : String) (m : GoMap (List String))
    → contains (members_of m v) j ≡ true
    → (contains (members_of (insert u (remove_all ts (members_of m u)) m) v) j ≡ true)
      ⊎ ((u ≡ v) × (contains ts j ≡ true))
contains-drop u ts v j m h = elim (Bool-cases (u == v)) [
  | inl same ↦ ground (
    arith,
    eq_iff u v,
    members_of-insert u v (remove_all ts (members_of m u)) m,
    contains-remove_all ts j (members_of m u),
  )
  | inr other ↦ ground (arith, members_of-insert u v (remove_all ts (members_of m u)) m)
]

abbrev pub memory : Redis
memory = record {
  Db = Maps;
  stored = λ db t. lookup t db.sessions;
  index = λ db u. members_of db.members u;
  get = λ t db. ok (lookup t db.sessions);
  smembers = λ u db. ok (members_of db.members u);
  mget = λ ts db. ok (map (λ t. is_some (lookup t db.sessions)) ts);
  put_tx = λ s ttl ittl db. (
    ok tt,
    record db {
      sessions = insert s.token s db.sessions;
      members = insert s.user_id (members_of db.members s.user_id ++ (s.token ∷ [])) db.members;
    },
  );
  del_tx = λ t u db.
      (ok tt, record db { sessions = erase t db.sessions; members = leave u t db.members });
  del_many_tx = λ u ts db. (
    ok (count_in ts db.sessions),
    record db {
      sessions = erase_all ts db.sessions;
      members = insert u (remove_all ts (members_of db.members u)) db.members;
    },
  );
  srem = λ u ts db. (
    ok tt,
    record db { members = insert u (remove_all ts (members_of db.members u)) db.members },
  );
  set_nx = λ k ttl db. (ok (not (contains db.locks k)), record db { locks = k ∷ db.locks });
  set_rotation = λ a b ttl db. (ok tt, record db { rotations = insert a b db.rotations });
  get_rotation = λ a db. ok (lookup a db.rotations);
  get_epoch = λ u db. ok (lookup u db.epochs);
  get_reply = λ t db v e. cc e;
  get_error = λ t db x e. absurd (cc e);
  smembers_reply = λ u db ts e. cc e;
  mget_reply = λ ts db vs e. cc e;
  put_stored = λ s ttl ittl db db' e t.
      ap (λ p. lookup t p.1.sessions) (sym e) ∙ lookup-insert s.token t s db.sessions;
  put_index = λ s ttl ittl db db' e u t.
      ap (λ p. contains (members_of p.1.members u) t) (sym e)
      ∙ contains-join s.user_id s.token u t db.members;
  del_stored =
      λ t u db db' e j. ap (λ p. lookup j p.1.sessions) (sym e) ∙ lookup-erase t j db.sessions;
  del_index = λ t u db db' e v j.
      ap (λ p. contains (members_of p.1.members v) j) (sym e) ∙ contains-leave u t v j db.members;
  srem_stored = λ u ts db j. refl;
  srem_index = λ u ts db v j h. contains-drop u ts v j db.members h;
  nx_stored = λ k ttl db j. refl;
  rotation_stored = λ a b ttl db j. refl;
}
