-- ===== src/Session/Service.antt =====
-- internal/service/session.go: issuing and checking tokens. Revocation is in
-- Session/Revoke.antt. The clock's readings and the random token are arguments.
use fp.Common.{
  String, Bool, true, false, not, ◌&&◌, List, [], ◌∷◌, Option, none, some, ◌==◌, if◌then◌else◌,
}
pub mod Soundness
pub mod Refresh
pub mod Acceptance
use Prim.Native.String.{◌++◌ as append}
use fp.Common.Int.{ℤ, pos, ◌+ℤ◌, ◌-ℤ◌, ltb_ℤ, leb_ℤ}
use fp.Errors.Codes.{Sentinel}
use fp.Errors.Transport.{GoError, domain, fail, with_desc, is_not_found}
use fp.Session.Policy.{
  SessionPolicy, Session, idle_timeout_for, rotate_interval_of, extend_interval_of, remaining_at,
  grace_duration, cache_ttl,
}
use fp.Session.Monad.{Result, ok, err, Action, ◌>>=◌, ◌>>◌, pure, raise, guard}
use fp.Session.Redis.{Redis}
use fp.Session.Store.{
  put_session, find_session, delete_session, try_lock, put_rotation, rotated_to, current_epoch,
  list_user_tokens,
}

-- The fields of `domain.Application` that the session service reads.
pub record Application : Type 0 where
  pub id : String
  pub session : SessionPolicy

pub record IssueInput : Type 0 where
  pub user_id : String
  pub app : Option Application
  pub ip : String
  pub ua : String
  pub mobile : Bool
  pub roles : List String

pub record ValidateResult : Type 0 where
  pub session : Session
  pub cache_ttl : ℤ
  pub rotated : Bool
  pub new_token : String

abbrev pub token_invalid : GoError
token_invalid = domain (fail Sentinel.unauthorized "TOKEN_INVALID" "登录已过期，请重新登录")

abbrev no_app : String → GoError
no_app desc = domain (with_desc desc (fail Sentinel.internal "INTERNAL" "服务器内部错误"))

abbrev extend_lock_ttl : ℤ
extend_lock_ttl = pos 10000

abbrev ext_lock : String → String
ext_lock token = append "ext:" token

abbrev rot_lock : String → String
rot_lock id = append "rot:" id

-- The session that `Issue` writes.
unfoldable pub new_session : IssueInput → Application → String → String → ℤ → ℤ → Session
new_session input app id token epoch now = record {
  id = id;
  token = token;
  user_id = input.user_id;
  app_id = app.id;
  first_auth_at = now;
  issued_at = now;
  last_extended_at = now;
  idle_expires_at = now +ℤ idle_timeout_for app.session input.mobile;
  ip = input.ip;
  ua = input.ua;
  mobile = input.mobile;
  roles = input.roles;
  epoch = epoch;
}

-- The copy that `tryExtend` writes.
unfoldable pub extended_session : Session → SessionPolicy → ℤ → Session
extended_session sess p now = record sess {
  last_extended_at = now;
  idle_expires_at = now +ℤ idle_timeout_for p sess.mobile;
}

-- The two copies that `tryRotate` writes: the new session, and the old one cut to the grace period.
unfoldable pub rotated_session : Session → SessionPolicy → String → ℤ → Session
rotated_session sess p token now = record sess {
  token = token;
  issued_at = now;
  last_extended_at = now;
  idle_expires_at = now +ℤ idle_timeout_for p sess.mobile;
}

unfoldable pub retired_session : Session → SessionPolicy → ℤ → Session
retired_session sess p now = record sess { idle_expires_at = now +ℤ grace_duration p }

module _ (r : Redis) where
  open r use {Db}

  -- `Issue`, with the random token, which may fail, the new id and the clock's reading.
  unfoldable pub issue : IssueInput → Result String → String → ℤ → Action Db Session
  issue input random id now = elim input.app [
    | none ↦ raise (no_app "签发会话缺少应用信息")
    | some app ↦ do
      token ← λ db. (random, db)
      epoch ← current_epoch r input.user_id
      put_session r (new_session input app id token epoch now)
          (idle_timeout_for app.session input.mobile)
      pure (new_session input app id token epoch now)
  ]

  unfoldable pub write_extended : Session → ℤ → Application → Action Db (Option Session)
  write_extended updated now app = do
    put_session r updated (remaining_at updated now app.session)
    pure (some updated)

  -- `tryExtend`; nil is `none`.
  unfoldable pub try_extend : Session → Application → ℤ → Action Db (Option Session)
  try_extend sess app now = do
    locked ← try_lock r (ext_lock sess.token) extend_lock_ttl
    let updated = extended_session sess app.session now
    if locked then write_extended updated now app else pure none

  -- The writes of `tryRotate` once the lock is held: the new session, then the map, then the old
  -- session.
  unfoldable pub rotate : Session → Application → String → ℤ → Action Db (Unit {0})
  rotate sess app token now = do
    let new_sess = rotated_session sess app.session token now
    put_session r new_sess (remaining_at new_sess now app.session)
    put_rotation r sess.token token (grace_duration app.session)
    put_session r (retired_session sess app.session now) (grace_duration app.session)

  -- `tryRotate` with the lock held.
  unfoldable pub rotate_now :
      Session → Application → Result String → ℤ → Action Db (String × Option Session)
  rotate_now sess app random now = do
    token ← λ db. (random, db)
    rotate sess app token now
    pure (token, some (rotated_session sess app.session token now))

  -- `tryRotate` without it: the map is read, so that the new token is told once more.
  unfoldable pub retell : Session → Action Db (String × Option Session)
  retell sess = do told ← rotated_to r sess.token; pure (told, none)

  -- `tryRotate`: the new token, empty if there is none, and the new session if this call made it.
  unfoldable pub try_rotate :
      Session → Application → Result String → ℤ → Action Db (String × Option Session)
  try_rotate sess app random now = do
    locked ← try_lock r (rot_lock sess.id) (grace_duration app.session)
    if locked then rotate_now sess app random now else retell sess

  -- The first part of `Validate`: the session behind a token, if it may be used in this application.
  -- A failure to delete the session of another epoch is only logged.
  unfoldable pub check_epoch : Session → ℤ → Action Db (Unit {0})
  check_epoch sess epoch db =
      let dropped = (delete_session r sess.token db).1 in
      if leb_ℤ epoch sess.epoch && leb_ℤ sess.epoch epoch
      then (ok tt, db)
      else (err token_invalid, dropped)

  unfoldable pub check_session : Application → ℤ → Session → Action Db Session
  check_session app now sess = do
    guard (sess.app_id == app.id) token_invalid
    epoch ← current_epoch r sess.user_id
    check_epoch sess epoch
    guard (ltb_ℤ (pos 0) (remaining_at sess now app.session)) token_invalid
    pure sess

  unfoldable pub check_found : Application → ℤ → Option Session → Action Db Session
  check_found app now none = raise token_invalid
  check_found app now (some sess) = check_session app now sess

  unfoldable pub usable_session : String → Application → ℤ → Action Db Session
  usable_session token app now = do
    guard (not (token == "")) token_invalid
    found ← find_session r token
    check_found app now found

  -- What `Validate` makes of the result of `tryRotate` and of `tryExtend`: the session to answer
  -- with, and the token to hand out, which is empty if there is none.
  unfoldable pub after_rotate : Session → String × Option Session → Session × String
  after_rotate sess (token, fresh) =
      if token == "" then (sess, "") else (elim fresh [ none ↦ sess | some s ↦ s ], token)

  unfoldable pub after_extend : Session → Option Session → Session × String
  after_extend sess extended = (elim extended [ none ↦ sess | some s ↦ s ], "")

  -- The second part: rotation, or else extension.
  unfoldable pub refresh : Session → Application → Result String → ℤ → Action Db (Session × String)
  refresh sess app random now =
      if leb_ℤ (rotate_interval_of app.session) (now -ℤ sess.issued_at)
      then (try_rotate sess app random now >>= λ t. pure (after_rotate sess t))
      else if leb_ℤ (extend_interval_of app.session) (now -ℤ sess.last_extended_at)
      then (try_extend sess app now >>= λ t. pure (after_extend sess t))
      else pure (sess, "")

  -- `Validate`, with the clock's first and last reading.
  unfoldable pub validate :
      String → Option Application → Result String → ℤ → ℤ → Action Db ValidateResult
  validate token app random now later = elim app [
    | none ↦ raise (no_app "校验 token 缺少应用信息")
    | some app ↦ do
      sess ← usable_session token app now
      (answer, new_token) ← refresh sess app random now
      pure (record {
        session = answer;
        cache_ttl = cache_ttl (remaining_at answer later app.session) app.session;
        rotated = not (new_token == "");
        new_token = new_token;
      })
  ]

  -- The loop of `ListByUser`: tokens that are gone are passed over.
  unfoldable pub read_sessions : List String → Action Db (List Session)
  read_sessions [] = pure []
  read_sessions (t ∷ ts) = do
    found ← find_session r t
    rest ← read_sessions ts
    pure (elim found [ none ↦ rest | some sess ↦ sess ∷ rest ])

  unfoldable pub list_by_user : String → Action Db (List Session)
  list_by_user user_id = do tokens ← list_user_tokens r user_id; read_sessions tokens
