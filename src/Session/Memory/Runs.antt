-- ===== src/Session/Memory/Runs.antt =====
-- Runs of revocation and validation on concrete data.
use fp.Common.{
  String, ℕ, Bool, true, false, List, [], ◌∷◌, none, some, ◌==◌, ◌≡◌, ◌↔◌, ◌⊎◌, ◌≤◌, ◌<◌, ◌^◌, ◌*◌,
  ◌++◌, ◌+◌, refl, inl, inr, arith, eq_iff, ap, subst, Bool-cases,
}
use fp.Common.Lists.{In, All, length}
use fp.Common.Int.{ℤ, pos, ◌+ℤ◌, ◌-ℤ◌, ◌≤ℤ◌, ◌<ℤ◌, thousand, pos_part}
use fp.Session.Policy.{
  Session, max_expires_at, remaining_at, cache_ttl, idle_timeout_for, rotate_interval_of,
  extend_interval_of,
}
use fp.Session.Monad.{ok}
use fp.Session.Memory.{memory}
use fp.Session.Store.{
  find_session, get_session, current_epoch, put_session, delete_session, list_user_tokens,
  read_batches, clean_batches, alive_of, dangling_of, try_lock,
}
use fp.Session.Store.Chunks.{chunk_strings, chunk_loop}
use fp.Session.Service.{
  validate, usable_session, check_found, check_session, check_epoch, refresh, try_extend,
  write_extended, after_extend, extended_session,
}
use fp.Session.Service.Refresh.{IsAnswer, validate_ok}
use fp.Session.Revoke.{
  revoke, revoke_matching, revoke_all, revoke_user_tokens, revoke_tokens, revoke_token,
  revoke_found, delete_matched,
}
use fp.Session.Revoke.Events.{tokens_of}
use fp.Session.Revoke.Effect.{Source, Spares, Shrinks, IndexGone}
use fp.Session.Revoke.Guarantees.{
  IsListed, revoke_matching_events, revoke_matching-Spares, revoke_matching_complete,
  revoke_whole_session,
}
use fp.Common.{◌≢◌, ◌↔◌, not}
use fp.Common.Lists.{contains}
use fp.Common.GoMap.{lookup}
use fp.Session.Policy.{validate_policy}
use fp.Session.Policy.Lifetime.{IsSound, validate_policy_iff}
use fp.Session.Service.Soundness.{IsUsable}
use fp.Session.Service.Acceptance.{IsUp, Succeeds, validate_iff}
use fp.Session.Service.{IssueInput, issue, new_session}
use fp.Session.Store.Listed.{IsIssued, issue_ok}
use fp.Session.Memory.{Maps}
use fp.Session.Memory.Sample.{quick, shop_app, login, ann_db, is_shop}

ann-IsListed : IsListed memory ann_db
ann-IsListed t s h = elim (Bool-cases ("t1" == t)) [
  | inl e ↦ listed (login "t1" "shop" "s1") (cc (rw e at h)) (inl ((eq_iff "t1" t).0 e))
  | inr e ↦ elim (Bool-cases ("t2" == t)) [
    | inl f ↦
        listed (login "t2" "shop" "s1") (cc (rw (e, f) at h)) (inr (inl ((eq_iff "t2" t).0 f)))
    | inr f ↦ elim (Bool-cases ("t3" == t)) [
      | inl g ↦
          listed (login "t3" "mail" "s2") (cc (rw (e, f, g) at h))
            (inr (inr (inl ((eq_iff "t3" t).0 g))))
      | inr g ↦ absurd (cc (rw (e, f, g) at h))
    ]
  ]
]
  where
    listed :
        (x : Session)
        → x ≡ s
        → In t (memory.index ann_db x.user_id)
        → In t (memory.index ann_db s.user_id)
    listed x e m = subst (λ y. In t (memory.index ann_db y.user_id)) e m

revoke_matching_events_example :
    let out = revoke_matching memory ("ann" ∷ []) "kick" is_shop (pos 7) ann_db in
    (length (tokens_of out.events) ≡ out.count)
    × All (λ e. All (Source memory is_shop ann_db e.app_id) e.tokens) out.events
revoke_matching_events_example =
    revoke_matching_events memory ("ann" ∷ []) "kick" is_shop (pos 7) ann_db

kicked : (revoke_matching memory ("ann" ∷ []) "kick" is_shop (pos 7) ann_db).result ≡ ok tt
unfolding revoke_matching revoke_all revoke_user_tokens revoke_tokens revoke_token revoke_found
    delete_matched list_user_tokens read_batches clean_batches alive_of dangling_of chunk_strings
    chunk_loop find_session get_session delete_session
kicked = refl

revoke_matching-Spares_example :
    Spares memory is_shop ann_db
      (revoke_matching memory ("ann" ∷ []) "kick" is_shop (pos 7) ann_db).db
    × Shrinks memory is_shop ann_db
        (revoke_matching memory ("ann" ∷ []) "kick" is_shop (pos 7) ann_db).db
revoke_matching-Spares_example =
    revoke_matching-Spares memory ("ann" ∷ []) "kick" is_shop (pos 7) ann_db kicked

revoke_matching_complete_example :
    IndexGone memory is_shop ann_db "ann"
      (revoke_matching memory ("ann" ∷ []) "kick" is_shop (pos 7) ann_db).db
revoke_matching_complete_example =
    revoke_matching_complete memory "ann" "kick" is_shop (pos 7) ann_db kicked

logged_out : (revoke memory "t1" "logout" (pos 7) ann_db).result ≡ ok tt
unfolding revoke revoke_matching revoke_all revoke_user_tokens revoke_tokens revoke_token
    revoke_found delete_matched list_user_tokens read_batches clean_batches alive_of dangling_of
    chunk_strings chunk_loop find_session get_session delete_session
logged_out = refl

revoke_whole_session_example :
    memory.stored (revoke memory "t1" "logout" (pos 7) ann_db).db "t2" ≡ none
revoke_whole_session_example =
    revoke_whole_session memory "t1" "logout" (pos 7) ann_db (login "t1" "shop" "s1")
      (login "t2" "shop" "s1") "t2" ann-IsListed refl refl refl refl logged_out

-- Four seconds after the login, an extension is due and no rotation.
extended_run :
    (validate memory "t1" (some shop_app) (ok "t9") (pos 104000) (pos 104001) ann_db).0
    ≡ ok (record {
      session = record (login "t1" "shop" "s1") {
        last_extended_at = pos 104000;
        idle_expires_at = pos 114000;
      };
      cache_ttl = pos 2000;
      rotated = false;
      new_token = "";
    })
unfolding validate usable_session check_found check_session check_epoch refresh try_extend
    write_extended after_extend extended_session put_session try_lock find_session get_session
    current_epoch delete_session remaining_at max_expires_at cache_ttl idle_timeout_for
    rotate_interval_of extend_interval_of ◌+ℤ◌ ◌-ℤ◌ thousand fp.Common.Int.min_ℤ
extended_run = refl

validate_ok_example :
    (sess : Session) × IsAnswer memory "t1" shop_app (pos 104000) (pos 104001) ann_db sess (record {
      session = record (login "t1" "shop" "s1") {
        last_extended_at = pos 104000;
        idle_expires_at = pos 114000;
      };
      cache_ttl = pos 2000;
      rotated = false;
      new_token = "";
    })
validate_ok_example =
    validate_ok memory "t1" shop_app (ok "t9") (pos 104000) (pos 104001) ann_db
      (validate memory "t1" (some shop_app) (ok "t9") (pos 104000) (pos 104001) ann_db).1 _
      (ap
        (λ x.
          (x, (validate memory "t1" (some shop_app) (ok "t9") (pos 104000) (pos 104001) ann_db).1))
        extended_run)

abbrev token_one : String
token_one = "t1"

quick-IsSound : IsSound quick
unfolding validate_policy
quick-IsSound = (validate_policy_iff quick).0 refl

memory-IsUp : IsUp memory
memory-IsUp = record {
  get = λ t db. refl;
  epoch = λ u db. (lookup u db.epochs, refl);
  rotation = λ t db. (lookup t db.rotations, refl);
  put = λ s a b db. refl;
  nx = λ k a db. (not (contains db.locks k), refl);
  set_rotation = λ t u a db. refl;
}

t1_is_not_empty : token_one ≢ ""
t1_is_not_empty h = absurd (ground (arith, (eq_iff token_one "").1 h))

validate_iff_example :
    Succeeds (validate memory token_one (some shop_app) (ok "t9") (pos 104000) (pos 104001)) ann_db
    ↔ ((sess : Session) × IsUsable memory token_one shop_app (pos 104000) ann_db sess)
validate_iff_example =
    validate_iff memory token_one shop_app "t9" (pos 104000) (pos 104001) ann_db memory-IsUp
      quick-IsSound t1_is_not_empty

abbrev phone_login : IssueInput
phone_login = record {
  user_id = "bob";
  app = some shop_app;
  ip = "10.0.0.2";
  ua = "phone";
  mobile = true;
  roles = [];
}

abbrev bob_session : Session
bob_session = record {
  id = "s7";
  token = "t7";
  user_id = "bob";
  app_id = "shop";
  first_auth_at = pos 200000;
  issued_at = pos 200000;
  last_extended_at = pos 200000;
  idle_expires_at = pos 210000;
  ip = "10.0.0.2";
  ua = "phone";
  mobile = true;
  roles = [];
  epoch = pos 0;
}

abbrev bob_db : Maps
bob_db = (issue memory phone_login (ok "t7") "s7" (pos 200000) ann_db).1

bob_logs_in : issue memory phone_login (ok "t7") "s7" (pos 200000) ann_db ≡ (ok bob_session, bob_db)
unfolding issue new_session put_session current_epoch idle_timeout_for ◌+ℤ◌ thousand
bob_logs_in = refl

issue_ok_example : IsIssued memory phone_login shop_app (pos 200000) ann_db bob_session bob_db
issue_ok_example =
    issue_ok memory phone_login shop_app (ok "t7") "s7" (pos 200000) ann_db bob_db bob_session refl
      bob_logs_in
