-- ===== src/Session/Monad.antt =====
-- A call that may fail with a Go error, and one that works on the database besides. What was
-- written before a failure stays written, so the database comes back either way.
use fp.Common.{Bool, true, false, ◌≡◌, refl, ◌⊎◌, inl, inr}
use fp.Errors.Transport.{GoError}

pub data Result (A : Type 0) : Type 0 where
  ok : A → Result A
  err : GoError → Result A

abbrev pub Action : Type 0 → Type 0 → Type 0
Action Db A = Db → Result A × Db

infixl 5 ◌>>=◌ ◌>>◌
abbrev pub ◌>>=◌ : {Db A B : Type 0} → Action Db A → (A → Action Db B) → Action Db B
◌>>=◌ m f db = let (r, db') = m db in elim r [ ok a ↦ f a db' | err e ↦ (err e, db') ]

abbrev pub ◌>>◌ : {Db B : Type 0} → Action Db (Unit {0}) → Action Db B → Action Db B
m >> k = m >>= λ _. k

abbrev pub pure : {Db A : Type 0} → A → Action Db A
pure a db = (ok a, db)

abbrev pub raise : {Db A : Type 0} → GoError → Action Db A
raise e db = (err e, db)

-- A read leaves the database alone.
abbrev pub reads : {Db A : Type 0} → (Db → Result A) → Action Db A
reads f db = (f db, db)

abbrev pub guard : {Db : Type 0} → Bool → GoError → Action Db (Unit {0})
guard true e = pure tt
guard false e = raise e

-- Inversion of a sequence that succeeds.
pub >>=-eq-ok :
    {Db A B : Type 0} (m : Action Db A) (f : A → Action Db B) (db : Db) {b : B} {db' : Db}
    → (m >>= f) db ≡ (ok b, db')
    → (a : A) × (mid : Db) × (m db ≡ (ok a, mid)) × (f a mid ≡ (ok b, db'))
>>=-eq-ok {Db} {A} {B} m f db {b} {db'} h = go (m db) refl h
  where
    go :
        (p : Result A × Db)
        → m db ≡ p
        → (let (r, mid) = p in elim r [ ok a ↦ f a mid | err e ↦ (err e, mid) ]) ≡ (ok b, db')
        → (a : A) × (mid : Db) × (m db ≡ (ok a, mid)) × (f a mid ≡ (ok b, db'))
    go (ok a, mid) e k = (a, mid, e, k)
    go (err x, mid) e k = absurd (cc)

pub Result-cases :
    {A : Type 0} (x : Result A) → ((a : A) × (x ≡ ok a)) ⊎ ((e : GoError) × (x ≡ err e))
Result-cases (ok a) = inl (a, refl)
Result-cases (err e) = inr (e, refl)

pub guard-eq-ok :
    {Db : Type 0} (b : Bool) (e : GoError) (db db' : Db) {u : Unit {0}}
    → guard b e db ≡ (ok u, db')
    → (b ≡ true) × (db' ≡ db)
guard-eq-ok true e db db' h = (refl, cc)
guard-eq-ok false e db db' h = absurd (cc)
