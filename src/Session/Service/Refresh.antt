-- ===== src/Session/Service/Refresh.antt =====
-- What `Validate` of internal/service/session.go answers with.
use fp.Common.{
  String, false, not, Option, none, some, ◌==◌, if◌then◌else◌, ◌≡◌, ◌↔◌, arith, eq_iff, ◌⊎◌, inl,
  inr, Bool-cases, subst,
}
use fp.Common.Int.{ℤ, ◌≤ℤ◌, ◌-ℤ◌, thousand, leb_ℤ}
use fp.Session.Policy.{
  SessionPolicy, Session, remaining_at, max_expires_at, grace_duration, cache_ttl,
  rotate_interval_of, extend_interval_of,
}
use fp.Session.Policy.Lifetime.{cache_ttl_bounds}
use fp.Session.Monad.{Result, ok, Action, ◌>>=◌, pure, >>=-eq-ok}
use fp.Session.Redis.{Redis}
use fp.Session.Store.{try_lock}
use fp.Session.Service.{
  Application, ValidateResult, usable_session, extended_session, rotated_session, rot_lock,
  try_extend, try_rotate, rotate_now, retell, write_extended, after_rotate, after_extend, refresh,
  validate,
}
use fp.Session.Service.Soundness.{IsUsable, usable_session_ok}

-- The two sessions are one login: rotation and extension keep all of this.
pub record SameLogin (s t : Session) : Type 0 where
  pub id : t.id ≡ s.id
  pub user : t.user_id ≡ s.user_id
  pub app : t.app_id ≡ s.app_id
  pub first_auth : t.first_auth_at ≡ s.first_auth_at
  pub epoch : t.epoch ≡ s.epoch
  pub roles : t.roles ≡ s.roles
  pub mobile : t.mobile ≡ s.mobile

SameLogin-refl : (s : Session) → SameLogin s s
SameLogin-refl s = ground arith

module _ (r : Redis) where
  open r use {Db}

  rotate_now_ok :
      (sess : Session) (app : Application) (random : Result String) (now : ℤ) (db db' : Db)
      (t : String × Option Session)
      → rotate_now r sess app random now db ≡ (ok t, db')
      → t.1 ≡ some (rotated_session sess app.session t.0 now)
  unfolding rotate_now
  rotate_now_ok sess app random now db db' t h = ground arith

  retell_ok :
      (sess : Session) (db db' : Db) (t : String × Option Session)
      → retell r sess db ≡ (ok t, db')
      → t.1 ≡ none
  unfolding retell
  retell_ok sess db db' t h = ground arith

  try_rotate_ok :
      (sess : Session) (app : Application) (random : Result String) (now : ℤ) (db db' : Db)
      (t : String × Option Session)
      → try_rotate r sess app random now db ≡ (ok t, db')
      → (t.1 ≡ some (rotated_session sess app.session t.0 now)) ⊎ (t.1 ≡ none)
  unfolding try_rotate
  try_rotate_ok sess app random now db db' t h =
      let (locked, mid, g, k) =
        >>=-eq-ok (try_lock r (rot_lock sess.id) (grace_duration app.session))
          (λ locked. if locked then rotate_now r sess app random now else retell r sess) db h in
      elim (Bool-cases locked) [
        | inl held ↦ inl (rotate_now_ok sess app random now mid db' t (rw held at k))
        | inr free ↦ inr (retell_ok sess mid db' t (rw free at k))
      ]

  after_rotate-SameLogin :
      (sess : Session) (p : SessionPolicy) (now : ℤ) (t : String × Option Session)
      → (t.1 ≡ some (rotated_session sess p t.0 now)) ⊎ (t.1 ≡ none)
      → SameLogin sess (after_rotate r sess t).0
  unfolding after_rotate rotated_session
  after_rotate-SameLogin sess p now t h = ground arith

  after_extend-SameLogin :
      (sess : Session) (app : Application) (now : ℤ) (db db' : Db) (t : Option Session)
      → try_extend r sess app now db ≡ (ok t, db')
      → SameLogin sess (after_extend r sess t).0
  unfolding try_extend write_extended after_extend extended_session try_lock
  after_extend-SameLogin sess app now db db' t h = ground arith

  refresh-SameLogin :
      (sess : Session) (app : Application) (random : Result String) (now : ℤ) (db db' : Db)
      (a : Session × String)
      → refresh r sess app random now db ≡ (ok a, db')
      → SameLogin sess a.0
  unfolding refresh
  refresh-SameLogin sess app random now db db' a h =
      elim (Bool-cases (leb_ℤ (rotate_interval_of app.session) (now -ℤ sess.issued_at))) [
        | inl due ↦
            let h' : (try_rotate r sess app random now >>= λ t. pure (after_rotate r sess t)) db
                ≡ (ok a, db') =
              rw due at h in
            let (t, mid, g, k) =
              >>=-eq-ok (try_rotate r sess app random now) (λ t. pure (after_rotate r sess t)) db
                h' in
            let s =
              after_rotate-SameLogin sess app.session now t
                (try_rotate_ok sess app random now db mid t g) in
            subst (SameLogin sess) (cc k) s
        | inr fresh ↦
            elim (Bool-cases
              (leb_ℤ (extend_interval_of app.session) (now -ℤ sess.last_extended_at))) [
                | inl due ↦
                    let h' : (try_extend r sess app now >>= λ t. pure (after_extend r sess t)) db
                        ≡ (ok a, db') =
                      rw (fresh, due) at h in
                    let (t, mid, g, k) =
                      >>=-eq-ok (try_extend r sess app now) (λ t. pure (after_extend r sess t)) db
                        h' in
                    let s = after_extend-SameLogin sess app now db mid t g in
                    subst (SameLogin sess) (cc k) s
                | inr early ↦
                    let h' : pure (sess, "") db ≡ (ok a, db') = rw (fresh, early) at h in
                    subst (SameLogin sess) (cc h') (SameLogin-refl sess)
              ]
      ]

  -- What an answer of `Validate` promises about the session behind the token.
  pub record IsAnswer (token : String) (app : Application) (now later : ℤ) (db : Db)
      (sess : Session) (res : ValidateResult) : Type 0 where
    pub usable : IsUsable r token app now db sess
    pub login : SameLogin sess res.session
    pub lifetime : max_expires_at res.session app.session ≡ max_expires_at sess app.session
    pub within_policy : res.cache_ttl ≤ℤ thousand app.session.token_cache_ttl_seconds
    pub within_life : res.cache_ttl ≤ℤ remaining_at res.session later app.session
    pub within_grace : res.cache_ttl ≤ℤ grace_duration app.session
    pub rotated_iff : (res.rotated ≡ false) ↔ (res.new_token ≡ "")

-- When `Validate` succeeds, a usable session stood under the token. The answer is the same login
-- with the same absolute deadline, whether it was rotated, extended or neither, and it may be cached
-- no longer than the policy, its own remaining lifetime and the grace period allow. The result is
-- marked as rotated exactly if it has a new token.
pub validate_ok :
    (r : Redis) (token : String) (app : Application) (random : Result String) (now later : ℤ)
    (db db' : Redis.Db r) (res : ValidateResult)
    → validate r token (some app) random now later db ≡ (ok res, db')
    → (sess : Session) × IsAnswer r token app now later db sess res
unfolding validate max_expires_at
validate_ok r token app random now later db db' res h =
    let (sess, mid, g, k) =
      >>=-eq-ok (usable_session r token app now) (λ sess. refresh r sess app random now >>= answer)
        db h in
    let (a, mid', g', k') = >>=-eq-ok (refresh r sess app random now) answer mid k in
    let login = refresh-SameLogin r sess app random now mid mid' a g' in
    let bounds = cache_ttl_bounds (remaining_at a.0 later app.session) app.session in
    let e : answer a mid' ≡ (ok res, db') = k' in
    (
      sess,
      record {
        usable = (usable_session_ok r token app now db mid sess g).0;
        login = ground arith;
        lifetime = ground arith;
        within_policy = ground arith;
        within_life = ground arith;
        within_grace = ground arith;
        rotated_iff = ground (arith, eq_iff a.1 "");
      },
    )
  where
    answer : Session × String → Action (Redis.Db r) ValidateResult
    answer (s, t) = pure (record {
      session = s;
      cache_ttl = cache_ttl (remaining_at s later app.session) app.session;
      rotated = not (t == "");
      new_token = t;
    })
