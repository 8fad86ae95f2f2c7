-- ===== src/Session/Service/Soundness.antt =====
-- The first part of `Validate` of internal/service/session.go: what a session that passes it has been
-- found to be.
use fp.Common.{
  String, Option, none, some, ◌==◌, ◌≡◌, refl, sym, subst, Bool-cases, arith, eq_iff, inl, inr,
}
use fp.Common.Int.{ℤ, pos, ◌<ℤ◌, eq_of_parts}
use fp.Errors.Transport.{is_not_found}
use fp.Session.Policy.{Session, remaining_at}
use fp.Session.Monad.{ok, ◌>>=◌, >>=-eq-ok, Result-cases}
use fp.Session.Redis.{Redis}
use fp.Session.Store.{get_session, find_session, current_epoch}
use fp.Session.Service.{Application, check_epoch, check_session, check_found, usable_session}

module _ (r : Redis) where
  open r use {Db, stored, get, get_reply, get_error, get_epoch}

  -- A session that is found is the one that stands in the database, which is left alone.
  pub find_session_found :
      (token : String) (db db' : Db) (found : Option Session)
      → find_session r token db ≡ (ok found, db')
      → (db' ≡ db) × ((s : Session) → found ≡ some s → stored db token ≡ some s)
  unfolding find_session get_session is_not_found
  find_session_found token db db' found h = elim (Result-cases (get token db)) [
    | inl (v, e) ↦ let e' = get_reply token db v e in ground arith
    | inr (x, e) ↦ ground arith
  ]

  -- Where `Get` meets no error of Redis, `find_session` returns what is stored.
  pub find_session_exact :
      (token : String) (db db' : Db) (found : Option Session)
      → find_session r token db ≡ (ok found, db')
      → (db' ≡ db) × (found ≡ stored db token)
  unfolding find_session get_session is_not_found
  find_session_exact token db db' found h = elim (Result-cases (get token db)) [
    | inl (v, e) ↦ let e' = get_reply token db v e in ground arith
    | inr (x, e) ↦ let n = get_error token db x e in ground arith
  ]

  check_epoch_ok :
      (sess : Session) (epoch : ℤ) (db db' : Db)
      → check_epoch r sess epoch db ≡ (ok tt, db')
      → (epoch ≡ sess.epoch) × (db' ≡ db)
  unfolding check_epoch
  check_epoch_ok sess epoch db db' h = (eq_of_parts epoch sess.epoch (ground arith), ground arith)

  check_session_ok :
      (app : Application) (now : ℤ) (sess s : Session) (db db' : Db)
      → check_session r app now sess db ≡ (ok s, db')
      → (s ≡ sess)
        × (sess.app_id ≡ app.id)
        × (current_epoch r sess.user_id db ≡ (ok sess.epoch, db))
        × (pos 0 <ℤ remaining_at sess now app.session)
        × (db' ≡ db)
  unfolding check_session current_epoch
  check_session_ok app now sess s db db' h = elim (Result-cases (get_epoch sess.user_id db)) [
    | inl (v, e) ↦
        let n : ℤ = elim v [ none ↦ pos 0 | some x ↦ x ] in
        ground (
          arith,
          eq_iff sess.app_id app.id,
          e,
          check_epoch_ok sess n db (check_epoch r sess n db).1,
        )
    | inr (x, e) ↦ ground (arith, e)
  ]

  -- What `Validate` has found when it goes on with a session: it stands under the token, belongs to
  -- the application, has the current epoch of its user, and has lifetime left.
  pub record IsUsable (token : String) (app : Application) (now : ℤ) (db : Db) (sess : Session)
      : Type 0 where
    pub present : stored db token ≡ some sess
    pub in_app : sess.app_id ≡ app.id
    pub current : current_epoch r sess.user_id db ≡ (ok sess.epoch, db)
    pub alive : pos 0 <ℤ remaining_at sess now app.session

  check_found_ok :
      (token : String) (app : Application) (now : ℤ) (db db' : Db) (found : Option Session)
      (sess : Session)
      → ((s : Session) → found ≡ some s → stored db token ≡ some s)
      → check_found r app now found db ≡ (ok sess, db')
      → IsUsable token app now db sess × (db' ≡ db)
  unfolding check_found
  check_found_ok token app now db db' none sess at h = absurd (cc)
  check_found_ok token app now db db' (some s) sess at h =
      let (same, in_app, current, alive, e) = check_session_ok app now s sess db db' h in
      subst (λ x. IsUsable token app now db x × (db' ≡ db)) (sym same)
        (record { present = at s refl; in_app = in_app; current = current; alive = alive }, e)

  pub usable_session_ok :
      (token : String) (app : Application) (now : ℤ) (db db' : Db) (sess : Session)
      → usable_session r token app now db ≡ (ok sess, db')
      → IsUsable token app now db sess × (db' ≡ db)
  unfolding usable_session
  usable_session_ok token app now db db' sess h = elim (Bool-cases (token == "")) [
    | inl empty ↦ absurd (cc (rw (empty) at h))
    | inr full ↦
        let h' : (find_session r token >>= check_found r app now) db ≡ (ok sess, db') =
          rw full at h in
        let (found, mid, g, h2) = >>=-eq-ok (find_session r token) (check_found r app now) db h' in
        let (e, at) = find_session_found token db mid found g in
        check_found_ok token app now db db' found sess at
          (subst (λ d. check_found r app now found d ≡ (ok sess, db')) e h2)
  ]
