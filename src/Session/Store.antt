-- ===== src/Session/Store.antt =====
-- internal/store/session.go, over the commands of Redis.
pub mod Chunks
pub mod Listed
use fp.Common.{
  String, ℕ, zero, suc, ◌+◌, Bool, true, false, List, [], ◌∷◌, ◌++◌, Option, none, some,
  if◌then◌else◌,
}
use fp.Common.Lists.{length, take, drop}
use fp.Common.Int.{ℤ, pos, ltb_ℤ, leb_ℤ}
use fp.Errors.Codes.{Sentinel}
use fp.Errors.Transport.{GoError, domain, wrapped, fail, with_desc, is_not_found}
use fp.Session.Policy.{Session}
use fp.Session.Monad.{Result, ok, err, Action, ◌>>=◌, ◌>>◌, pure, raise, reads, guard}
use fp.Session.Redis.{Redis}
use Chunks.{chunk_strings}

abbrev pub redis_batch_size : ℕ
redis_batch_size = 500

abbrev pub week : ℤ
week = pos 604800000

abbrev ttl_error : GoError
ttl_error = domain (with_desc "TTL" (fail Sentinel.internal "INTERNAL" "服务器内部错误"))

abbrev pub session_not_found : GoError
session_not_found = domain (fail Sentinel.not_found "SESSION_NOT_FOUND" "会话不存在或已过期")

module _ (r : Redis) where
  open r use {
    Db, get, smembers, mget, put_tx, del_tx, del_many_tx, srem, set_nx, set_rotation, get_rotation,
    get_epoch,
  }

  -- `Put`: a lifetime that is not positive is refused; the index lives a week at least.
  unfoldable pub put_session : Session → ℤ → Action Db (Unit {0})
  put_session sess ttl = do
    guard (ltb_ℤ (pos 0) ttl) ttl_error
    put_tx sess ttl (if ltb_ℤ ttl week then week else ttl)

  -- `Get`: a missing key is ErrNotFound.
  unfoldable pub get_session : String → Action Db Session
  get_session token = do
    found ← reads (get token)
    elim found [ none ↦ raise session_not_found | some sess ↦ pure sess ]

  -- The call of `Get` in `Delete`, and in every caller that tests for ErrNotFound: the error
  -- becomes `none`, other errors stay.
  unfoldable pub find_session : String → Action Db (Option Session)
  unfolding get_session
  find_session token db =
      let (res, db') = get_session token db in
      elim res [
        | ok sess ↦ (ok (some sess), db')
        | err e ↦ if is_not_found e then (ok none, db') else (err e, db')
      ]

  -- `Delete`
  unfoldable pub delete_session : String → Action Db (Unit {0})
  delete_session token = do
    found ← find_session token
    del_tx token (elim found [ none ↦ none | some sess ↦ some sess.user_id ])

  -- The tokens of a batch whose value is there, and those whose value is nil.
  unfoldable pub alive_of : List String → List Bool → List String
  alive_of (t ∷ ts) (true ∷ vs) = t ∷ alive_of ts vs
  alive_of (t ∷ ts) (false ∷ vs) = alive_of ts vs
  alive_of _ _ = []

  unfoldable pub dangling_of : List String → List Bool → List String
  dangling_of (t ∷ ts) (true ∷ vs) = dangling_of ts vs
  dangling_of (t ∷ ts) (false ∷ vs) = t ∷ dangling_of ts vs
  dangling_of _ _ = []

  -- The loop over the batches, with the tokens alive and dangling so far.
  unfoldable pub read_batches :
      List (List String) → List String → List String → Action Db (List String × List String)
  read_batches [] alive dangling = pure (alive, dangling)
  read_batches (batch ∷ batches) alive dangling = do
    values ← reads (mget batch)
    read_batches batches (alive ++ alive_of batch values) (dangling ++ dangling_of batch values)

  -- The clean-up of the index: the loop stops at the first error, which is only logged.
  unfoldable pub clean_batches : String → List (List String) → Db → Db
  clean_batches user_id [] db = db
  clean_batches user_id (batch ∷ batches) db =
      let (res, db') = srem user_id batch db in
      let rest = clean_batches user_id batches db' in elim res [ ok _ ↦ rest | err _ ↦ db' ]

  -- `ListUserTokens`
  unfoldable pub list_user_tokens : String → Action Db (List String)
  list_user_tokens user_id = do
    tokens ← reads (smembers user_id)
    (alive, dangling) ← read_batches (chunk_strings tokens redis_batch_size) [] []
    λ db. (ok alive, clean_batches user_id (chunk_strings dangling redis_batch_size) db)

  -- The loop of `DeleteUserTokens`; the count so far comes back beside an error.
  unfoldable pub delete_batches : String → List (List String) → ℕ → Db → ℕ × Result (Unit {0}) × Db
  delete_batches user_id [] deleted db = (deleted, ok tt, db)
  delete_batches user_id (batch ∷ batches) deleted db =
      let (res, db') = del_many_tx user_id batch db in
      elim res [
        | ok n ↦ delete_batches user_id batches (deleted + n) db'
        | err e ↦ (deleted, err e, db')
      ]

  -- `DeleteUserTokens`
  unfoldable pub delete_user_tokens : String → Db → ℕ × Result (Unit {0}) × Db
  delete_user_tokens user_id db =
      let (res, db') = list_user_tokens user_id db in
      elim res [
        | ok tokens ↦ delete_batches user_id (chunk_strings tokens redis_batch_size) 0 db'
        | err e ↦ (0, err e, db')
      ]

  -- `TryLock`
  unfoldable pub try_lock : String → ℤ → Action Db Bool
  try_lock key ttl = set_nx key ttl

  -- `PutRotation`
  unfoldable pub put_rotation : String → String → ℤ → Action Db (Unit {0})
  put_rotation old_token new_token ttl = do
    guard (ltb_ℤ (pos 0) ttl) ttl_error
    set_rotation old_token new_token ttl

  -- `RotatedTo`: the empty string if there is no record.
  unfoldable pub rotated_to : String → Action Db String
  rotated_to old_token = do
    found ← reads (get_rotation old_token)
    pure (elim found [ none ↦ "" | some t ↦ t ])

  -- `EpochStore.Current` of internal/store/epoch.go: 0 if there is none.
  unfoldable pub current_epoch : String → Action Db ℤ
  current_epoch user_id = do
    found ← reads (get_epoch user_id)
    pure (elim found [ none ↦ pos 0 | some e ↦ e ])
