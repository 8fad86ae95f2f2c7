-- ===== src/Session/Revoke/Guarantees.antt =====
-- The revoking operations of internal/service/session.go as their callers see them.
use fp.Common.{
  String, Bool, List, [], ◌∷◌, none, some, ◌≡◌, ap, sym, ◌∙◌, subst, inl, inr, eq_iff, Option-cases,
}
use fp.Common.Lists.{In, All, length}
use fp.Common.Int.{ℤ}
use fp.Session.Policy.{Session}
use fp.Session.Monad.{ok, Result-cases}
use fp.Session.Redis.{Redis}
use fp.Session.Store.{find_session}
use fp.Session.Service.Soundness.{find_session_exact}
use fp.Session.Revoke.{
  Groups, revoke_user_tokens, revoke_all, revoke_matching, Revocation, same_session, revoke,
}
use fp.Session.Revoke.Events.{tokens_of, announce_groups-All, length-tokens_of-announce_groups}
use fp.Session.Revoke.Effect.{
  Source, Tagged, Shrinks, Spares, IndexGone, Leaves, failed, unchanged, revoke_user_tokens-Leaves,
  trans-Shrinks, trans-Spares,
}

module _ (r : Redis) (match : Session → Bool) where
  open r use {Db, stored, index}

  revoke_all-Leaves :
      (db0 db : Db) (users : List String) (groups : Groups)
      → Tagged r match db0 groups
      → Shrinks r match db0 db
      → Leaves r match db0 db (λ _. Unit) (revoke_all r match users groups db)
  unfolding revoke_all
  revoke_all-Leaves db0 db [] groups h sub = unchanged r match db0 db (λ _. Unit) groups h tt
  revoke_all-Leaves db0 db (u ∷ us) groups h sub =
      let p = revoke_user_tokens r match u groups db in
      let here = revoke_user_tokens-Leaves r match db0 db u groups h sub in
      elim (Result-cases p.1) [
        | inl (_, e) ↦
            let later =
              revoke_all-Leaves db0 p.2 us p.0 here.tagged
                (trans-Shrinks r match db0 db p.2 sub (here.shrinks e)) in
            rw (e, revoke_all)
              (record {
                tagged = later.tagged;
                shrinks = λ k. trans-Shrinks r match db p.2 _ (here.shrinks e) (later.shrinks k);
                gone = λ _. tt;
                spares = λ k. trans-Spares r match db p.2 _ (here.spares e) (later.spares k);
              })
        | inr (x, e) ↦ rw (e, revoke_all) (failed r match db0 db _ p.0 x p.2 here.tagged)
      ]

-- Whether or not a revocation ends with an error, its events carry as many tokens as it reports, and
-- each token of an event had, before the call, a session that matches in the application that the
-- event names: no application is told of another's tokens.
pub revoke_matching_events :
    (r : Redis) (users : List String) (reason : String) (match : Session → Bool) (now : ℤ)
    (db : Redis.Db r)
    → let out = revoke_matching r users reason match now db in
      (length (tokens_of out.events) ≡ out.count)
      × All (λ e. All (Source r match db e.app_id) e.tokens) out.events
unfolding revoke_matching
revoke_matching_events r users reason match now db =
    let p = revoke_all r match users [] db in
    let leaves = revoke_all-Leaves r match db db users [] tt (λ t s k. k) in
    (
      length-tokens_of-announce_groups p.0 reason now,
      announce_groups-All (Source r match db) p.0 reason now leaves.tagged,
    )

-- A revocation that ends without an error leaves every session that does not match as it was, and
-- adds none.
pub revoke_matching-Spares :
    (r : Redis) (users : List String) (reason : String) (match : Session → Bool) (now : ℤ)
    (db : Redis.Db r)
    → let out = revoke_matching r users reason match now db in
      out.result ≡ ok tt → Spares r match db out.db × Shrinks r match db out.db
unfolding revoke_matching
revoke_matching-Spares r users reason match now db e =
    let leaves = revoke_all-Leaves r match db db users [] tt (λ t s k. k) in
    (leaves.spares e, leaves.shrinks e)

-- A revocation for one user that ends without an error leaves no session that matches under any
-- token of the user's index.
pub revoke_matching_complete :
    (r : Redis) (user reason : String) (match : Session → Bool) (now : ℤ) (db : Redis.Db r)
    → let out = revoke_matching r (user ∷ []) reason match now db in
      out.result ≡ ok tt → IndexGone r match db user out.db
unfolding revoke_matching revoke_all
revoke_matching_complete r user reason match now db e =
    let p = revoke_user_tokens r match user [] db in
    let here = revoke_user_tokens-Leaves r match db db user [] tt (λ t s k. k) in
    elim (Result-cases p.1) [
      | inl (_, k) ↦ rw (k, revoke_matching, revoke_all) (here.gone k)
      | inr (x, k) ↦ absurd (cc (rw (k, revoke_matching, revoke_all) at e))
    ]

-- Every session is listed in the index of its user.
abbrev pub IsListed : (r : Redis) → Redis.Db r → Type 0
IsListed r db = (t : String) (s : Session) → r.stored db t ≡ some s → In t (r.index db s.user_id)

-- After a logout that ends without an error, with a token under which a session stood and where every
-- session was listed in its user's index, no session stands any more under a token whose session had
-- the same id and user: neither the token that was handed in nor one that a rotation made from it.
pub revoke_whole_session :
    (r : Redis) (token reason : String) (now : ℤ) (db : Redis.Db r) (sess s : Session) (t : String)
    → IsListed r db
    → r.stored db token ≡ some sess
    → r.stored db t ≡ some s
    → s.id ≡ sess.id
    → s.user_id ≡ sess.user_id
    → (revoke r token reason now db).result ≡ ok tt
    → r.stored (revoke r token reason now db).db t ≡ none
unfolding revoke
revoke_whole_session r token reason now db sess s t listed at0 at same_id same_user done =
    let mid = (find_session r token db).1 in
    elim (Result-cases (find_session r token db).0) [
      | inr (x, e) ↦ absurd (cc (rw (e, revoke) at done))
      | inl (found, e) ↦
          let (same, is) = find_session_exact r token db mid found (ap (λ x. (x, mid)) e) in
          let e' : (find_session r token db).0 ≡ ok (some sess) = e ∙ ap ok (is ∙ at0) in
          rw (e', revoke, same) (gone_after (rw (e', revoke, same) at done))
    ]
  where
    match : Session → Bool
    match x = same_session r sess.id x

    out : Revocation (Redis.Db r)
    out = revoke_matching r (sess.user_id ∷ []) reason match now db

    gone_after : out.result ≡ ok tt → r.stored out.db t ≡ none
    gone_after done =
        let no_match =
          revoke_matching_complete r sess.user_id reason match now db done t
            (subst (λ u. In t (r.index db u)) same_user (listed t s at)) in
        let (_, less) = revoke_matching-Spares r (sess.user_id ∷ []) reason match now db done in
        elim (Option-cases (r.stored out.db t)) [
          | inl lost ↦ lost
          | inr (s', e) ↦
              let k : some s ≡ some s' = sym at ∙ less t s' e in
              let same_s : s' ≡ s = cc k in
              let miss = no_match s' e in
              absurd (
                cc (
                  sym miss
                  ∙ (eq_iff s'.id sess.id).1 (ap (λ (x : Session). x.id) same_s ∙ same_id)))
        ]
