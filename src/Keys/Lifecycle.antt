-- ===== src/Keys/Lifecycle.antt =====
-- The life of an access key in the table of internal/service/accesskey.go.
use fp.Common.{
  String, [], ◌∷◌, none, some, ◌==◌, ◌≡◌, ◌≢◌, refl, sym, ap, ◌∙◌, subst, arith, eq_iff, eq_refl,
  inl, inr, Bool-cases,
}
use fp.Common.Lists.{In}
use fp.Common.GoMap.{GoMap, lookup, insert, erase, lookup-insert}
use fp.Common.Int.{ℤ}
use fp.Session.Monad.{ok}
use fp.Keys.{
  KeyRow, AccessKey, KeyTables, role_missing, scan_key, find_key, announce, without_secret,
  write_key,
}

some_of : {A : Type 0} {a b : A} → some a ≡ some b → a ≡ b
some_of h = cc

module _ {P : Type 0} where
  -- No other row has this id or this AccessKey id.
  abbrev pub IsApart : String → KeyRow P → GoMap (KeyRow P) → Type 0
  IsApart id r [] = Unit
  IsApart id r ((j, s) ∷ rows) = (j ≢ id) × (s.access_key_id ≢ r.access_key_id) × IsApart id r rows

  abbrev pub IsUnique : GoMap (KeyRow P) → Type 0
  IsUnique [] = Unit
  IsUnique ((id, r) ∷ rows) = IsApart id r rows × IsUnique rows

  apart-lookup :
      (id j : String) (r s : KeyRow P) (rows : GoMap (KeyRow P))
      → IsApart id r rows
      → lookup j rows ≡ some s
      → (j ≢ id) × (s.access_key_id ≢ r.access_key_id)
  apart-lookup id j r s [] a h = absurd (cc)
  apart-lookup id j r s ((i, q) ∷ rows) (p, d, a) h = elim (Bool-cases (i == j)) [
    | inl e ↦
        let here : q ≡ s = some_of (ground (arith, e)) in
        (λ x. p ((eq_iff i j).0 e ∙ x), λ x. d (ap (λ y. KeyRow.access_key_id y) here ∙ x))
    | inr e ↦ apart-lookup id j r s rows a (ground (arith, e))
  ]

  pub find_key-lookup :
      (id : String) (r : KeyRow P) (rows : GoMap (KeyRow P))
      → IsUnique rows
      → lookup id rows ≡ some r
      → find_key rows r.access_key_id ≡ some (id, r)
  unfolding find_key
  find_key-lookup id r [] u h = absurd (cc)
  find_key-lookup id r ((j, s) ∷ rows) (a, u) h = elim (Bool-cases (j == id)) [
    | inl e ↦
        let here : s ≡ r = some_of (ground (arith, e)) in
        let same = ap (λ y. KeyRow.access_key_id y) here in
        ground (arith, eq_iff j id, eq_iff s.access_key_id r.access_key_id)
    | inr e ↦
        let there : lookup id rows ≡ some r = ground (arith, e) in
        let (_, other) = apart-lookup j id s r rows a there in
        let rest = find_key-lookup id r rows u there in
        ground (arith, eq_iff s.access_key_id r.access_key_id)
  ]

  -- Rows that are apart stay so when a row with the same AccessKey id takes a place, ...
  IsApart-insert :
      (id j : String) (r s : KeyRow P) (rows : GoMap (KeyRow P))
      → IsApart id r rows
      → j ≢ id
      → s.access_key_id ≢ r.access_key_id
      → IsApart id r (insert j s rows)
  IsApart-insert id j r s [] a p d = (p, d, tt)
  IsApart-insert id j r s ((i, q) ∷ rows) (pi, di, a) p d = elim (Bool-cases (i == j)) [
    | inl e ↦ rw e (p, d, a)
    | inr e ↦ rw e (pi, di, IsApart-insert id j r s rows a p d)
  ]

  -- ... or when one goes.
  IsApart-erase :
      (id j : String) (r : KeyRow P) (rows : GoMap (KeyRow P))
      → IsApart id r rows
      → IsApart id r (erase j rows)
  IsApart-erase id j r [] a = tt
  IsApart-erase id j r ((i, q) ∷ rows) (pi, di, a) = elim (Bool-cases (i == j)) [
    | inl e ↦ rw e (IsApart-erase id j r rows a)
    | inr e ↦ rw e (pi, di, IsApart-erase id j r rows a)
  ]

  pub erase-IsUnique :
      (j : String) (rows : GoMap (KeyRow P)) → IsUnique rows → IsUnique (erase j rows)
  erase-IsUnique j [] u = tt
  erase-IsUnique j ((i, q) ∷ rows) (a, u) = elim (Bool-cases (i == j)) [
    | inl e ↦ rw e (erase-IsUnique j rows u)
    | inr e ↦ rw e (IsApart-erase i j q rows a, erase-IsUnique j rows u)
  ]

  IsApart-same :
      (i j : String) (q s : KeyRow P) (rows : GoMap (KeyRow P))
      → i ≡ j
      → s.access_key_id ≡ q.access_key_id
      → IsApart i q rows
      → IsApart j s rows
  IsApart-same i j q s [] p e a = tt
  IsApart-same i j q s ((h, x) ∷ rows) p e (n, d, a) =
      (λ w. n (w ∙ sym p), λ w. d (w ∙ e), IsApart-same i j q s rows p e a)

  -- A row takes the place of one with its AccessKey id, ...
  replace-IsUnique :
      (j : String) (r s : KeyRow P) (rows : GoMap (KeyRow P))
      → IsUnique rows
      → lookup j rows ≡ some r
      → s.access_key_id ≡ r.access_key_id
      → IsUnique (insert j s rows)
  replace-IsUnique j r s [] u h same = absurd (cc)
  replace-IsUnique j r s ((i, q) ∷ rows) (a, u) h same = elim (Bool-cases (i == j)) [
    | inl e ↦
        let here : q ≡ r = some_of (ground (arith, e)) in
        rw e (
          IsApart-same i j q s rows ((eq_iff i j).0 e)
              (same ∙ sym (ap (λ y. KeyRow.access_key_id y) here)) a,
          u,
        )
    | inr e ↦
        let there : lookup j rows ≡ some r = ground (arith, e) in
        let (n, d) = apart-lookup i j q r rows a there in
        rw e (
          IsApart-insert i j q s rows a n (λ w. d (sym same ∙ w)),
          replace-IsUnique j r s rows u there same,
        )
  ]

  -- ... or it joins the table with a new one.
  pub join-IsUnique :
      (j : String) (s : KeyRow P) (rows : GoMap (KeyRow P))
      → IsUnique rows
      → lookup j rows ≡ none
      → find_key rows s.access_key_id ≡ none
      → IsUnique (insert j s rows)
  unfolding find_key
  join-IsUnique j s [] u h f = (tt, tt)
  join-IsUnique j s ((i, q) ∷ rows) (a, u) h f = elim (Bool-cases (i == j)) [
    | inl e ↦ absurd (ground (arith, e))
    | inr e ↦
        let d : s.access_key_id ≢ q.access_key_id =
          λ w. ground (arith, eq_iff q.access_key_id s.access_key_id, sym w) in
        rw e (
          IsApart-insert i j q s rows a (λ w. ground (arith, eq_iff i j, sym w)) d,
          join-IsUnique j s rows u (ground (arith, e)) (ground (arith, f)),
        )
  ]

  -- The table after an operation is a table of the same kind.
  pub write_key-IsUnique :
      (to_millis : ℤ → ℤ) (t t' : KeyTables P) (id : String) (r s : KeyRow P) (k : AccessKey P)
      → IsUnique t.keys
      → lookup id t.keys ≡ some r
      → s.access_key_id ≡ r.access_key_id
      → write_key to_millis t id s ≡ (ok k, t')
      → IsUnique t'.keys
        × (lookup id t'.keys ≡ some s)
        × In s.access_key_id t'.announced
        × (k ≡ without_secret (scan_key to_millis id s))
  unfolding write_key announce
  write_key-IsUnique to_millis t t' id r s k u h same w =
      elim (Bool-cases (role_missing t.role_keys s.role_key)) [
        | inl e ↦ absurd (ground (arith, e))
        | inr e ↦
            let done : announce (record t { keys = insert id s t.keys }) s.access_key_id ≡ t' =
              ground (arith, e) in
            let key : without_secret (scan_key to_millis id s) ≡ k = ground (arith, e) in
            subst
              (λ x.
                IsUnique (KeyTables.keys x)
                × (lookup id (KeyTables.keys x) ≡ some s)
                × In s.access_key_id (KeyTables.announced x)
                × (k ≡ without_secret (scan_key to_millis id s)))
              done
              (
                replace-IsUnique id r s t.keys u h same,
                lookup-insert id id s t.keys ∙ ground (arith, eq_refl id),
                inl refl,
                sym key,
              )
      ]

  -- What is found under an AccessKey id stands in the table.
  pub find_key_sound :
      (rows : GoMap (KeyRow P)) (ak j : String) (s : KeyRow P)
      → IsUnique rows
      → find_key rows ak ≡ some (j, s)
      → (lookup j rows ≡ some s) × (s.access_key_id ≡ ak)
  unfolding find_key
  find_key_sound [] ak j s u h = absurd (cc)
  find_key_sound ((i, q) ∷ rows) ak j s (a, u) h = elim (Bool-cases (q.access_key_id == ak)) [
    | inl e ↦
        let here : ◌≡◌ {A = String × KeyRow P} (i, q) (j, s) = some_of (ground (arith, e)) in
        subst (λ p. (lookup p.0 ((i, q) ∷ rows) ≡ some p.1) × (KeyRow.access_key_id p.1 ≡ ak)) here
          (ground (arith, eq_refl i), (eq_iff q.access_key_id ak).0 e)
    | inr e ↦
        let (there, same) = find_key_sound rows ak j s u (ground (arith, e)) in
        let (n, d) = apart-lookup i j q s rows a there in
        (ground (arith, eq_iff i j, λ (w : i ≡ j). n (sym w)), same)
  ]
