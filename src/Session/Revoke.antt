-- ===== src/Session/Revoke.antt =====
-- internal/service/session.go: revocation. Publishing an event may fail, which is only logged, so
-- the events of a call are a list that it returns.
pub mod Listing
pub mod Effect
pub mod Events
pub mod Guarantees
use fp.Common.{
  String, ℕ, zero, suc, ◌+◌, ◌-◌, Bool, true, false, List, [], ◌∷◌, ◌++◌, Option, none, some, ◌==◌,
  ltb, leb, if◌then◌else◌,
}
use fp.Common.Lists.{length, take, drop}
use fp.Common.GoMap.{GoMap, lookup, insert}
use fp.Common.Int.{ℤ}
use fp.Authz.Core.{set_add}
use fp.Errors.Transport.{GoError}
use fp.Session.Policy.{Session}
use fp.Session.Monad.{Result, ok, err}
use fp.Session.Redis.{Redis}
use fp.Session.Store.{find_session, delete_session, list_user_tokens}

pub record RevokeEvent : Type 0 where
  pub tokens : List String
  pub user_ids : List String
  pub app_id : String
  pub reason : String
  pub at : ℤ
  pub kind : String
  pub access_key_id : String

pub record AppGroup : Type 0 where
  pub tokens : List String
  pub users : List String

abbrev pub Groups : Type 0
Groups = GoMap AppGroup

abbrev pub max_tokens_per_event : ℕ
max_tokens_per_event = 1000

unfoldable pub group_at : Groups → String → AppGroup
group_at groups app = elim (lookup app groups) [
  | none ↦ record { tokens = []; users = [] }
  | some g ↦ g
]

-- The token and its user join the group of the session's application.
unfoldable pub add_to_group : Groups → String → String → String → Groups
add_to_group groups app tok user =
    let g = group_at groups app in
    insert app (record { tokens = g.tokens ++ (tok ∷ []); users = set_add g.users user }) groups

-- `revokedCount`
unfoldable pub revoked_count : Groups → ℕ
revoked_count [] = 0
revoked_count ((_, g) ∷ gs) = length g.tokens + revoked_count gs

-- `min(start+maxTokensPerEvent, len(tokens))`
unfoldable pub slice_end : ℕ → ℕ → ℕ
slice_end start len =
    if ltb (start + max_tokens_per_event) len then start + max_tokens_per_event else len

-- The loop of `announceBatch` from `start`, on fuel.
unfoldable pub announce_from :
    ℕ → ℕ → List String → List String → String → String → ℤ → List RevokeEvent
announce_from zero start tokens users app reason now = []
announce_from (suc fuel) start tokens users app reason now =
    let len = length tokens in
    let event : RevokeEvent = record {
      tokens = take (slice_end start len - start) (drop start tokens);
      user_ids = users;
      app_id = app;
      reason = reason;
      at = now;
      kind = "";
      access_key_id = "";
    } in
    let rest = announce_from fuel (start + max_tokens_per_event) tokens users app reason now in
    if ltb start len then event ∷ rest else []

unfoldable pub announce_batch : List String → List String → String → String → ℤ → List RevokeEvent
announce_batch tokens users app reason now =
    announce_from (suc (length tokens)) 0 tokens users app reason now

-- The deferred function of `revokeMatching`: the events of all groups, whatever the outcome. A group
-- with no token has none, since its batch is empty.
unfoldable pub announce_groups : Groups → String → ℤ → List RevokeEvent
announce_groups [] reason now = []
announce_groups ((app, g) ∷ gs) reason now =
    announce_batch g.tokens g.users app reason now ++ announce_groups gs reason now

module _ (r : Redis) (match : Session → Bool) where
  open r use {Db}

  -- What one pass leaves: the groups so far, the error if there was one, and the database.
  abbrev pub Progress : Type 0
  Progress = Groups × Result (Unit {0}) × Db

  unfoldable pub delete_matched : String → String → Session → Groups → Db → Progress
  delete_matched user tok sess groups db =
      let (res, db') = delete_session r tok db in
      elim res [
        | ok _ ↦ (add_to_group groups sess.app_id tok user, ok tt, db')
        | err e ↦ (groups, err e, db')
      ]

  unfoldable pub revoke_found : String → String → Option Session → Groups → Db → Progress
  revoke_found user tok none groups db = (groups, ok tt, db)
  revoke_found user tok (some sess) groups db =
      if match sess then delete_matched user tok sess groups db else (groups, ok tt, db)

  -- One round of the loop of `revokeUserTokens`.
  unfoldable pub revoke_token : String → String → Groups → Db → Progress
  revoke_token user tok groups db =
      let (res, db') = find_session r tok db in
      elim res [ ok found ↦ revoke_found user tok found groups db' | err e ↦ (groups, err e, db') ]

  unfoldable pub revoke_tokens : String → List String → Groups → Db → Progress
  revoke_tokens user [] groups db = (groups, ok tt, db)
  revoke_tokens user (tok ∷ toks) groups db =
      let (groups', res, db') = revoke_token user tok groups db in
      let rest = revoke_tokens user toks groups' db' in
      elim res [ ok _ ↦ rest | err e ↦ (groups', err e, db') ]

  -- `revokeUserTokens`
  unfoldable pub revoke_user_tokens : String → Groups → Db → Progress
  revoke_user_tokens user groups db =
      let (res, db') = list_user_tokens r user db in
      elim res [ ok toks ↦ revoke_tokens user toks groups db' | err e ↦ (groups, err e, db') ]

  -- The loop over the users.
  unfoldable pub revoke_all : List String → Groups → Db → Progress
  revoke_all [] groups db = (groups, ok tt, db)
  revoke_all (u ∷ us) groups db =
      let (groups', res, db') = revoke_user_tokens u groups db in
      let rest = revoke_all us groups' db' in
      elim res [ ok _ ↦ rest | err e ↦ (groups', err e, db') ]

-- What a revocation comes to: the count and the error, the events, and the database.
pub record Revocation (Db : Type 0) : Type 0 where
  pub count : ℕ
  pub result : Result (Unit {0})
  pub events : List RevokeEvent
  pub db : Db

module _ (r : Redis) where
  open r use {Db}

  -- `revokeMatching`
  unfoldable pub revoke_matching : List String → String → (Session → Bool) → ℤ → Db → Revocation Db
  revoke_matching users reason match now db =
      let (groups, res, db') = revoke_all r match users [] db in
      record {
        count = revoked_count groups;
        result = res;
        events = announce_groups groups reason now;
        db = db';
      }

  abbrev pub same_session : String → Session → Bool
  same_session id s = s.id == id

  -- `Revoke`: a token that is gone already counts as logged out.
  unfoldable pub revoke : String → String → ℤ → Db → Revocation Db
  revoke token reason now db =
      let (res, db') = find_session r token db in
      elim res [
        | err e ↦ record { count = 0; result = err e; events = []; db = db' }
        | ok none ↦ record { count = 0; result = ok tt; events = []; db = db' }
        | ok (some sess) ↦ revoke_matching (sess.user_id ∷ []) reason (same_session sess.id) now db'
      ]

  -- `RevokeSession`, `RevokeUsers`, `RevokeUser` and `RevokeUserInApp`
  unfoldable pub revoke_session : String → String → String → ℤ → Db → Revocation Db
  revoke_session user session_id reason now db =
      revoke_matching (user ∷ []) reason (same_session session_id) now db

  unfoldable pub revoke_users : List String → String → ℤ → Db → Revocation Db
  revoke_users users reason now db = revoke_matching users reason (λ _. true) now db

  unfoldable pub revoke_user : String → String → ℤ → Db → Revocation Db
  revoke_user user reason now db = revoke_users (user ∷ []) reason now db

  unfoldable pub revoke_user_in_app : String → String → String → ℤ → Db → Revocation Db
  revoke_user_in_app user app reason now db =
      revoke_matching (user ∷ []) reason (λ s. s.app_id == app) now db
