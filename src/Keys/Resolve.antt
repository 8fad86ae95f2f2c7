-- ===== src/Keys/Resolve.antt =====
-- `Resolve` of internal/service/accesskey.go: which keys it gives out, and for how long.
use fp.Common.{String, Option, none, some, ◌≡◌, ◌≢◌, ◌↔◌, refl, sym, ap, ◌∙◌, subst, arith, eq_iff}
use fp.Common.Int.{
  ℤ, pos, negsuc, ◌<ℤ◌, ◌≤ℤ◌, ◌+ℤ◌, ◌-ℤ◌, min_ℤ, million, billion, million_parts, billion_parts,
  -ℤ_parts, +ℤ_parts, min_ℤ_cases, max_ℤ_cases, eq_of_parts,
}
use fp.Session.Monad.{ok}
use fp.Keys.{
  KeyRow, AccessKey, AccessKeyState, status_disabled, unix_milli, key_state, KeyTables, KeyMaterial,
  scan_key, find_key, key_ttl, judge_key, resolve_found, resolve_key,
}

-- The key is not disabled, and if it expires it has not yet.
pub record IsUsableKey {P : Type 0} (k : AccessKey P) (now : ℤ) : Type 0 where
  pub enabled : k.status ≢ status_disabled
  pub alive : pos 0 <ℤ k.expires_at → now <ℤ million k.expires_at

unix_milli-below : (now t : ℤ) → (unix_milli now <ℤ t) ↔ (now <ℤ million t)
unfolding unix_milli
unix_milli-below (pos n) t = let b = million_parts t in (λ h. ground arith, λ h. ground arith)
unix_milli-below (negsuc n) t = let b = million_parts t in (λ h. ground arith, λ h. ground arith)

pair_of : {A : Type 0} {a b : A} → some a ≡ some b → a ≡ b
pair_of h = cc

module _ {P : Type 0} where
  key_state-active :
      (k : AccessKey P) (now : ℤ) → (key_state k now ≡ AccessKeyState.active) ↔ IsUsableKey k now
  unfolding key_state
  key_state-active k now =
      let b = unix_milli-below now k.expires_at in
      (
        λ h. record {
          enabled = ground (arith, eq_iff k.status status_disabled);
          alive = λ p. b.0 (ground arith);
        },
        λ u.
            let e = u.enabled in
            let a = λ (p : pos 0 <ℤ k.expires_at). b.1 (u.alive p) in
            ground (arith, eq_iff k.status status_disabled, a),
      )

  judge_key-ok :
      (secs : ℤ) (k : AccessKey P) (now : ℤ) (st : AccessKeyState) (m : KeyMaterial P)
      → judge_key secs k now st ≡ ok m
      → (st ≡ AccessKeyState.active) × (m ≡ record { key = k; cache_ttl = key_ttl secs k now })
  unfolding judge_key
  judge_key-ok secs k now AccessKeyState.active m h = ground (arith, h)
  judge_key-ok secs k now AccessKeyState.disabled m h = absurd (cc)
  judge_key-ok secs k now AccessKeyState.expired m h = absurd (cc)

  -- What `Resolve` gives for a row.
  abbrev pub IsGiven : (ℤ → ℤ) → ℤ → ℤ → String → KeyRow P → KeyMaterial P → Type 0
  IsGiven to_millis secs now id r m =
      let k = scan_key to_millis id r in
      IsUsableKey k now × (m ≡ record { key = k; cache_ttl = key_ttl secs k now })

  resolve_found-ok :
      (to_millis : ℤ → ℤ) (secs now : ℤ) (found : Option (String × KeyRow P)) (m : KeyMaterial P)
      → (resolve_found to_millis secs now found ≡ ok m) ↔ (
          (id : String) × (r : KeyRow P) × (found ≡ some (id, r))
          × IsGiven to_millis secs now id r m)
  unfolding resolve_found judge_key
  resolve_found-ok to_millis secs now none m = (λ h. absurd (cc), λ (id, r, e, g). absurd (cc))
  resolve_found-ok to_millis secs now (some (id, r)) m =
      let k = scan_key to_millis id r in
      (
        λ h.
            let (st, same) = judge_key-ok secs k now (key_state k now) m h in
            (id, r, refl, ((key_state-active k now).0 st, same)),
        λ (id', r', e, (u, same)).
            let here : (id, r) ≡ (id', r') = pair_of e in
            let given = subst (λ p. IsGiven to_millis secs now p.0 p.1 m) (sym here) (u, same) in
            ap (judge_key secs k now) ((key_state-active k now).1 given.0) ∙ ap ok (sym given.1),
      )

  -- `Resolve` gives out exactly the key that stands in the table under the asked id, if it is not
  -- disabled and has not expired.
  pub resolve_key_iff :
      (to_millis : ℤ → ℤ) (t : KeyTables P) (secs : ℤ) (ak : String) (now : ℤ) (m : KeyMaterial P)
      → (resolve_key to_millis t secs ak now ≡ ok m) ↔ (
          (id : String) × (r : KeyRow P) × (find_key t.keys ak ≡ some (id, r))
          × IsGiven to_millis secs now id r m)
  unfolding resolve_key
  resolve_key_iff to_millis t secs ak now m =
      resolve_found-ok to_millis secs now (find_key t.keys ak) m

  -- The material of a key may be cached for no longer than the application caches, never for a
  -- negative time, and not beyond the moment at which the key expires; for a key that never expires,
  -- for exactly as long as the application caches.
  pub key_ttl_bounds :
      (secs : ℤ) (k : AccessKey P) (now : ℤ)
      → IsUsableKey k now
      → pos 0 ≤ℤ secs
      → (pos 0 ≤ℤ key_ttl secs k now)
        × (key_ttl secs k now ≤ℤ billion secs)
        × (pos 0 <ℤ k.expires_at → now +ℤ key_ttl secs k now ≤ℤ million k.expires_at)
        × (k.expires_at ≤ℤ pos 0 → key_ttl secs k now ≡ billion secs)
  unfolding key_ttl
  key_ttl_bounds secs k now u h =
      let b = billion_parts secs in
      let left = million k.expires_at -ℤ now in
      let d = -ℤ_parts (million k.expires_at) now in
      let m = min_ℤ_cases (billion secs) left in
      let x = max_ℤ_cases (min_ℤ (billion secs) left) (pos 0) in
      let y = max_ℤ_cases (billion secs) (pos 0) in
      let p = +ℤ_parts now (key_ttl secs k now) in
      let alive = u.alive in
      (
        ground arith,
        ground arith,
        λ e. ground arith,
        λ e. ground (arith, eq_of_parts (billion secs) (pos 0)),
      )
