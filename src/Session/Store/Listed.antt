-- ===== src/Session/Store/Listed.antt =====
-- The index of the sessions of a user under the writes of internal/store/session.go, and `Issue` of
-- internal/service/session.go.
use fp.Common.{
  String, true, false, Option, none, some, ◌==◌, if◌then◌else◌, ◌≡◌, refl, ap, sym, ◌∙◌, subst,
  arith, eq_iff, eq_refl, Bool-cases, inl, inr,
}
use fp.Common.Lists.{contains_iff}
use fp.Common.Int.{ℤ, ltb_ℤ}
use fp.Session.Policy.{Session, idle_timeout_for}
use fp.Session.Monad.{Result, ok, Action, ◌>>=◌, ◌>>◌, pure, >>=-eq-ok}
use fp.Session.Redis.{Redis}
use fp.Session.Store.{put_session, find_session, delete_session, current_epoch, week}
use fp.Session.Service.{Application, IssueInput, issue, new_session}
use fp.Session.Service.Soundness.{find_session_exact}
use fp.Session.Revoke.Guarantees.{IsListed}

module _ (r : Redis) where
  open r use {Db, stored, index, put_tx, put_stored, put_index, del_tx, del_stored, del_index}

  put_session_ok :
      (s : Session) (ttl : ℤ) (db db' : Db)
      → put_session r s ttl db ≡ (ok tt, db')
      → put_tx s ttl (if ltb_ℤ ttl week then week else ttl) db ≡ (ok tt, db')
  unfolding put_session
  put_session_ok s ttl db db' h = ground arith

  put_session-IsListed :
      (s : Session) (ttl : ℤ) (db db' : Db)
      → put_session r s ttl db ≡ (ok tt, db')
      → IsListed r db
      → IsListed r db'
  put_session-IsListed s ttl db db' h listed t x at =
      let w = put_session_ok s ttl db db' h in
      let ittl = if ltb_ℤ ttl week then week else ttl in
      let p = put_stored s ttl ittl db db' w t in
      let i = put_index s ttl ittl db db' w x.user_id t in
      (contains_iff (index db' x.user_id) t).0 (elim (Bool-cases (s.token == t)) [
        | inl same ↦
            let e : some s ≡ some x = sym (p ∙ rw same refl) ∙ at in
            let own : s ≡ x = cc e in
            let u : s.user_id ≡ x.user_id = ap (λ (y : Session). y.user_id) own in
            ground (arith, i, eq_iff s.user_id x.user_id)
        | inr other ↦
            let e : stored db t ≡ some x = sym (p ∙ rw other refl) ∙ at in
            let m = (contains_iff (index db x.user_id) t).1 (listed t x e) in ground (arith, i, m)
      ])

  -- `Delete` keeps the index complete for the sessions that are left.
  delete_session-IsListed :
      (token : String) (db db' : Db)
      → delete_session r token db ≡ (ok tt, db')
      → IsListed r db
      → IsListed r db'
  unfolding delete_session
  delete_session-IsListed token db db' h listed t x at =
      let (found, mid, g, k) = >>=-eq-ok (find_session r token) remove db h in
      let (same, _) = find_session_exact r token db mid found g in
      let k' : del_tx token (owner found) db ≡ (ok tt, db') =
        subst (λ d. del_tx token (owner found) d ≡ (ok tt, db')) same k in
      let p = del_stored token (owner found) db db' k' t in
      let i = del_index token (owner found) db db' k' x.user_id t in
      (contains_iff (index db' x.user_id) t).0 (elim (Bool-cases (token == t)) [
        | inl gone ↦ absurd (cc (lost gone p at))
        | inr other ↦
            let e : stored db t ≡ some x = sym (p ∙ rw other refl) ∙ at in
            let m = (contains_iff (index db x.user_id) t).1 (listed t x e) in ground (arith, i, m)
      ])
    where
      owner : Option Session → Option String
      owner found = elim found [ none ↦ none | some sess ↦ some sess.user_id ]

      remove : Option Session → Db → Result (Unit {0}) × Db
      remove found = del_tx token (owner found)

      lost :
          (token == t) ≡ true
          → stored db' t ≡ (if token == t then none else stored db t)
          → stored db' t ≡ some x
          → (let missing : Option Session = none in missing) ≡ some x
      lost gone p at = sym (rw gone at p) ∙ at

  -- What a login that succeeds leaves.
  pub record IsIssued (input : IssueInput) (app : Application) (now : ℤ) (db : Db) (sess : Session)
      (db' : Db) : Type 0 where
    pub user : sess.user_id ≡ input.user_id
    pub in_app : sess.app_id ≡ app.id
    pub started : sess.first_auth_at ≡ now
    pub current : current_epoch r input.user_id db ≡ (ok sess.epoch, db)
    pub present : stored db' sess.token ≡ some sess
    pub others : (t : String) → (sess.token == t) ≡ false → stored db' t ≡ stored db t
    pub listed : IsListed r db → IsListed r db'

  current_epoch_ok :
      (user : String) (db mid : Db) (epoch : ℤ)
      → current_epoch r user db ≡ (ok epoch, mid)
      → mid ≡ db
  unfolding current_epoch
  current_epoch_ok user db mid epoch h = ground arith

  issued :
      (input : IssueInput) (app : Application) (id token : String) (epoch now : ℤ) (db db' : Db)
      → current_epoch r input.user_id db ≡ (ok epoch, db)
      → put_session r
          (new_session input app id token epoch now)
          (idle_timeout_for app.session input.mobile)
          db
        ≡ (ok tt, db')
      → IsIssued input app now db (new_session input app id token epoch now) db'
  unfolding new_session
  issued input app id token epoch now db db' e h =
      let s = new_session input app id token epoch now in
      let ttl = idle_timeout_for app.session input.mobile in
      let ittl = if ltb_ℤ ttl week then week else ttl in
      let w = put_session_ok s ttl db db' h in
      record {
        user = refl;
        in_app = refl;
        started = refl;
        current = e;
        present = put_stored s ttl ittl db db' w token ∙ rw (eq_refl token) refl;
        others = λ t o. put_stored s ttl ittl db db' w t ∙ rw o refl;
        listed = put_session-IsListed s ttl db db' h;
      }

-- A login that succeeds returns a session of its user and application, which starts now with the
-- user's current epoch and stands under its token. No session under another token changes, and if
-- every session was listed in its user's index, every session is.
pub issue_ok :
    (r : Redis) (input : IssueInput) (app : Application) (random : Result String) (id : String)
    (now : ℤ) (db db' : Redis.Db r) (sess : Session)
    → input.app ≡ some app
    → issue r input random id now db ≡ (ok sess, db')
    → IsIssued r input app now db sess db'
unfolding issue new_session
issue_ok r input app random id now db db' sess has h =
    let h' : ((λ db. (random, db)) >>= with_token) db ≡ (ok sess, db') = rw has at h in
    let (token, m1, g1, k1) = >>=-eq-ok (λ db. (random, db)) with_token db h' in
    let (epoch, m2, g2, k2) = >>=-eq-ok (current_epoch r input.user_id) (with_epoch token) m1 k1 in
    let (_, m3, g3, k3) = >>=-eq-ok (put token epoch) (λ _. pure (fresh token epoch)) m2 k2 in
    let e1 : m1 ≡ db = ap (λ p. p.1) (sym g1) in
    let e2 : m2 ≡ m1 = current_epoch_ok r input.user_id m1 m2 epoch g2 in
    let e3 : m2 ≡ db = e2 ∙ e1 in
    let g2' : current_epoch r input.user_id db ≡ (ok epoch, db) =
      subst (λ d. current_epoch r input.user_id d ≡ (ok epoch, d)) e1
        (subst (λ d. current_epoch r input.user_id m1 ≡ (ok epoch, d)) e2 g2) in
    let g3' = subst (λ d. put token epoch d ≡ (ok tt, m3)) e3 g3 in
    let last : pure (fresh token epoch) m3 ≡ (ok sess, db') = k3 in
    let is : fresh token epoch ≡ sess = cc last in
    let end : m3 ≡ db' = ap (λ p. p.1) last in
    subst (λ s. IsIssued r input app now db s db') is
      (subst (λ d. IsIssued r input app now db (fresh token epoch) d) end
        (issued r input app id token epoch now db m3 g2' g3'))
  where
    fresh : String → ℤ → Session
    fresh token epoch = new_session input app id token epoch now

    put : String → ℤ → Action (Redis.Db r) (Unit {0})
    put token epoch = put_session r (fresh token epoch) (idle_timeout_for app.session input.mobile)

    with_epoch : String → ℤ → Action (Redis.Db r) Session
    with_epoch token epoch = put token epoch >> pure (fresh token epoch)

    with_token : String → Action (Redis.Db r) Session
    with_token token = current_epoch r input.user_id >>= with_epoch token
