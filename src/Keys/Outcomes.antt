-- ===== src/Keys/Outcomes.antt =====
-- What becomes of an access key after the operations of internal/service/accesskey.go.
use fp.Common.{
  String, List, [], ◌∷◌, Option, none, some, ◌==◌, if◌then◌else◌, ◌≡◌, ◌≢◌, refl, sym, ap, ◌∙◌,
  subst, arith, eq_iff, eq_refl, inl, inr, Bool-cases, Option-cases,
}
use fp.Common.Lists.{In}
use fp.Common.GoMap.{GoMap, lookup, insert, erase, lookup-insert, lookup-erase}
use fp.Common.Int.{ℤ, pos, ◌<ℤ◌, million}
use fp.Errors.Codes.{Sentinel}
use fp.Errors.Transport.{domain, fail}
use fp.Session.Monad.{Result, ok, err}
use fp.Keys.{
  KeyRow, AccessKey, status_active, status_disabled, key_state, KeyTables, KeyMaterial,
  role_missing, scan_key, find_key, announce, without_secret, write_key, set_status, delete_key,
  key_ttl, judge_key, resolve_found, resolve_key, Nets, CreateInput, NewKey, row_of, create_loop,
  create_checked, create_key,
}
use fp.Keys.{check_input}
use fp.Keys.Resolve.{IsUsableKey, resolve_key_iff}
use fp.Keys.Lifecycle.{
  IsUnique, find_key-lookup, find_key_sound, erase-IsUnique, join-IsUnique, write_key-IsUnique,
}

module _ {P : Type 0} where
  id_of :
      (a b : String) (r s : KeyRow P)
      → ◌≡◌ {A = Option (String × KeyRow P)} (some (a, r)) (some (b, s))
      → a ≡ b
  id_of a b r s h = cc

  split_found :
      (id j : String) (s : KeyRow P) (rows : GoMap (KeyRow P))
      → (if id == j then none else lookup j rows) ≡ some s
      → (id ≢ j) × (lookup j rows ≡ some s)
  split_found id j s rows h = elim (Bool-cases (id == j)) [
    | inl e ↦ absurd (ground (arith, e))
    | inr e ↦ ((λ w. ground (arith, eq_iff id j)), ground (arith, e))
  ]

  find_key-erase :
      (id : String) (r : KeyRow P) (rows : GoMap (KeyRow P))
      → IsUnique rows
      → lookup id rows ≡ some r
      → find_key (erase id rows) r.access_key_id ≡ none
  find_key-erase id r rows u h = elim (Option-cases (find_key (erase id rows) r.access_key_id)) [
    | inl e ↦ e
    | inr ((j, s), e) ↦
        let (left, same) =
          find_key_sound (erase id rows) r.access_key_id j s (erase-IsUnique id rows u) e in
        let there : (id ≢ j) × (lookup j rows ≡ some s) =
          split_found id j s rows (sym (lookup-erase id j rows) ∙ left) in
        let first = find_key-lookup id r rows u h in
        let second = find_key-lookup j s rows u there.1 in
        absurd (there.0 (id_of id j r s (sym first ∙ ap (find_key rows) (sym same) ∙ second)))
  ]

  -- Once `SetStatus` has disabled a key, `Resolve` refuses it as disabled from then on, and its id has
  -- been announced to the applications.
  pub disabled_key_is_refused :
      (to_millis : ℤ → ℤ) (t t' : KeyTables P) (id : String) (k : AccessKey P) (secs now : ℤ)
      → IsUnique t.keys
      → set_status to_millis t id status_disabled ≡ (ok k, t')
      → (resolve_key to_millis t' secs k.access_key_id now
          ≡ err (domain (fail Sentinel.forbidden "ACCESS_KEY_DISABLED" "AccessKey 已停用")))
        × In k.access_key_id t'.announced
  unfolding set_status resolve_key resolve_found judge_key key_state scan_key without_secret
  disabled_key_is_refused to_millis t t' id k secs now u h =
      elim (Option-cases (lookup id t.keys)) [
        | inl e ↦ absurd (ground (arith, e))
        | inr (r, e) ↦
            let s = record r { status = status_disabled } in
            let w : write_key to_millis t id s ≡ (ok k, t') = ground (arith, e) in
            let (u', there, told, key) = write_key-IsUnique to_millis t t' id r s k u e refl w in
            let same : k.access_key_id ≡ s.access_key_id =
              ap (λ y. AccessKey.access_key_id y) key in
            subst
              (λ ak.
                (resolve_key to_millis t' secs ak now
                  ≡ err (domain (fail Sentinel.forbidden "ACCESS_KEY_DISABLED" "AccessKey 已停用")))
                × In ak t'.announced)
              (sym same)
              (ap (resolve_found to_millis secs now) (find_key-lookup id s t'.keys u' there), told)
      ]

  -- Once a key has been deleted, `Resolve` does not know it any more, and its id has been announced to
  -- the applications.
  pub deleted_key_is_unknown :
      (to_millis : ℤ → ℤ) (t t' : KeyTables P) (id : String) (r : KeyRow P) (secs now : ℤ)
      → IsUnique t.keys
      → lookup id t.keys ≡ some r
      → delete_key t id ≡ (ok tt, t')
      → (resolve_key to_millis t' secs r.access_key_id now
          ≡ err (domain (fail Sentinel.unauthorized "ACCESS_KEY_INVALID" "AccessKey 无效")))
        × In r.access_key_id t'.announced
  unfolding delete_key announce resolve_key resolve_found
  deleted_key_is_unknown to_millis t t' id r secs now u found h =
      let after = record t { keys = erase id t.keys; announced = r.access_key_id ∷ t.announced } in
      let done : after ≡ t' = ground (arith, found) in
      subst
        (λ x.
          (resolve_key to_millis x secs r.access_key_id now
            ≡ err (domain (fail Sentinel.unauthorized "ACCESS_KEY_INVALID" "AccessKey 无效")))
          × In r.access_key_id (KeyTables.announced x))
        done (ap (resolve_found to_millis secs now) (find_key-erase id r t.keys u found), inl refl)

module _ (nets : Nets) where
  open nets use {Prefix}

  create_loop-ok :
      (to_millis : ℤ → ℤ) (t t' : KeyTables Prefix) (id : String) (c : NewKey Prefix)
      (draws : List (Result String)) (k : AccessKey Prefix)
      → IsUnique t.keys
      → lookup id t.keys ≡ none
      → create_loop nets to_millis t id c draws ≡ (ok k, t')
      → (ak : String) × (k ≡ scan_key to_millis id (row_of nets c ak))
        × IsUnique t'.keys
        × (find_key t'.keys ak ≡ some (id, row_of nets c ak))
  unfolding create_loop row_of
  create_loop-ok to_millis t t' id c [] k u new h = absurd (cc)
  create_loop-ok to_millis t t' id c (err e ∷ draws) k u new h = absurd (cc)
  create_loop-ok to_millis t t' id c (ok ak ∷ draws) k u new h =
      elim (Option-cases (find_key t.keys ak)) [
        | inl free ↦ elim (Bool-cases (role_missing t.role_keys c.role_key)) [
          | inl e ↦ absurd (ground (arith, free, e))
          | inr e ↦
              let row = row_of nets c ak in
              let after = record t { keys = insert id row t.keys } in
              let done : after ≡ t' = ground (arith, free, e) in
              let key : k ≡ scan_key to_millis id row = ground (arith, free, e) in
              let unique = join-IsUnique id row t.keys u new free in
              let there = lookup-insert id id row t.keys ∙ ground (arith, eq_refl id) in
              subst
                (λ x.
                  (a : String) × (k ≡ scan_key to_millis id (row_of nets c a))
                  × IsUnique (KeyTables.keys x)
                  × (find_key (KeyTables.keys x) a ≡ some (id, row_of nets c a)))
                done (ak, key, unique, find_key-lookup id row (insert id row t.keys) unique there)
        ]
        | inr (x, taken) ↦ create_loop-ok to_millis t t' id c draws k u new (ground (arith, taken))
      ]

  create_checked-ok :
      (to_millis : ℤ → ℤ) (t t' : KeyTables Prefix) (id : String) (p : Result (NewKey Prefix))
      (draws : List (Result String)) (k : AccessKey Prefix)
      → IsUnique t.keys
      → lookup id t.keys ≡ none
      → create_checked nets to_millis t id draws p ≡ (ok k, t')
      → (r : KeyRow Prefix) × (k ≡ scan_key to_millis id r)
        × (r.status ≡ status_active)
        × IsUnique t'.keys
        × (find_key t'.keys r.access_key_id ≡ some (id, r))
  unfolding create_checked row_of
  create_checked-ok to_millis t t' id (err e) draws k u new h = absurd (cc)
  create_checked-ok to_millis t t' id (ok c) draws k u new h =
      let (ak, key, unique, found) = create_loop-ok to_millis t t' id c draws k u new h in
      (row_of nets c ak, key, refl, unique, found)

  -- A key that `Create` returns is resolved from then on, with the secret, the role and the addresses
  -- it was returned with, as long as it has not expired: `Create` found an AccessKey id that no other
  -- key has.
  pub created_key_resolves :
      (to_millis : ℤ → ℤ) (t t' : KeyTables Prefix) (id : String) (in' : CreateInput)
      (secret first second third : Result String) (now later secs : ℤ) (k : AccessKey Prefix)
      → IsUnique t.keys
      → lookup id t.keys ≡ none
      → create_key nets to_millis t id in' secret first second third now ≡ (ok k, t')
      → (pos 0 <ℤ k.expires_at → later <ℤ million k.expires_at)
      → IsUnique t'.keys
        × (resolve_key to_millis t' secs k.access_key_id later
            ≡ ok (record { key = k; cache_ttl = key_ttl secs k later }))
  unfolding create_key scan_key
  created_key_resolves to_millis t t' id in' secret first second third now later secs k u new h
        alive =
      let (r, key, status, unique, found) =
        create_checked-ok to_millis t t' id (check_input nets in' secret now)
          (first ∷ second ∷ third ∷ []) k u new h in
      let usable : IsUsableKey k later = record {
        enabled = λ w.
            let clash : status_active ≡ status_disabled =
              sym (ap (λ y. AccessKey.status y) key ∙ status) ∙ w in
            ground (arith, eq_iff status_active status_disabled, clash);
        alive = alive;
      } in
      let given : AccessKey Prefix → KeyMaterial Prefix =
        λ y. record { key = y; cache_ttl = key_ttl secs y later } in
      let ak : k.access_key_id ≡ r.access_key_id = ap (λ y. AccessKey.access_key_id y) key in
      (
        unique,
        (resolve_key_iff to_millis t' secs k.access_key_id later (given k)).1 (
          id,
          r,
          ap (find_key t'.keys) ak ∙ found,
          (subst (λ y. IsUsableKey y later) key usable, ap given key),
        ),
      )
