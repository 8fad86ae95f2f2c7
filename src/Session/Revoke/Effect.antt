-- ===== src/Session/Revoke/Effect.antt =====
-- What a pass of `revokeUserTokens` of internal/service/session.go does to the database and to the
-- groups.
use fp.Common.{
  String, Bool, true, false, List, [], ◌∷◌, Option, none, some, ◌==◌, ◌≡◌, refl, ap, sym, ◌∙◌,
  subst, arith, inl, inr, if◌then◌else◌, eq_iff, eq_refl, Bool-cases, Option-cases,
}
use fp.Common.Lists.{In, All, All-append, All-In}
use fp.Common.GoMap.{GoMap, lookup, insert}
use fp.Errors.Transport.{GoError}
use fp.Session.Policy.{Session}
use fp.Session.Monad.{Result, ok, err, >>=-eq-ok, Result-cases}
use fp.Session.Redis.{Redis, is_some}
use fp.Session.Store.{find_session, delete_session, list_user_tokens}
use fp.Session.Service.Soundness.{find_session_found, find_session_exact}
use fp.Session.Revoke.{
  AppGroup, Groups, group_at, add_to_group, delete_matched, revoke_found, revoke_token,
  revoke_tokens, revoke_user_tokens,
}
use fp.Session.Revoke.Listing.{keep, present, list_user_tokens_ok, In-keep}

All-insert :
    {V : Type 0} (P : String × V → Type 0) (k : String) (v : V) (m : GoMap V)
    → P (k, v)
    → All P m
    → All P (insert k v m)
All-insert P k v [] p h = (p, tt)
All-insert P k v ((j, w) ∷ m) p (q, h) = elim (Bool-cases (j == k)) [
  | inl same ↦ rw (same, insert) (p, h)
  | inr other ↦ rw (other, insert) (q, All-insert P k v m p h)
]

All-lookup :
    {V : Type 0} (P : String × V → Type 0) (k : String) (v : V) (m : GoMap V)
    → All P m
    → lookup k m ≡ some v
    → P (k, v)
All-lookup P k v [] h e = absurd (cc)
All-lookup P k v ((j, w) ∷ m) (q, h) e = elim (Bool-cases (j == k)) [
  | inl same ↦
      let e' : some w ≡ some v = rw (same, lookup) at e in
      subst (λ x. P (x, v)) ((eq_iff j k).0 same) (subst (λ x. P (j, x)) (cc e') q)
  | inr other ↦ All-lookup P k v m h (rw (other, lookup) at e)
]

module _ (r : Redis) (match : Session → Bool) where
  open r use {Db, stored, index, del_tx, del_stored}

  -- The token had a session that matches, in the application.
  abbrev pub Source : Db → String → String → Type 0
  Source db app t = (s : Session) × (stored db t ≡ some s) × (s.app_id ≡ app) × (match s ≡ true)

  abbrev pub Tagged : Db → Groups → Type 0
  Tagged db groups = All (λ g. All (Source db g.0) g.1.tokens) groups

  -- Nothing was added to the sessions.
  abbrev pub Shrinks : Db → Db → Type 0
  Shrinks db db' = (t : String) (s : Session) → stored db' t ≡ some s → stored db t ≡ some s

  -- The token has no session that matches.
  abbrev pub Gone : Db → String → Type 0
  Gone db t = (s : Session) → stored db t ≡ some s → match s ≡ false

  -- A session that does not match is still there.
  abbrev pub Spares : Db → Db → Type 0
  Spares db db' =
      (t : String) (s : Session) → stored db t ≡ some s → match s ≡ false → stored db' t ≡ some s

  group_at-All :
      (P : String → Type 0) (app : String) (groups : Groups)
      → ((g : AppGroup) → lookup app groups ≡ some g → All P g.tokens)
      → All P (group_at groups app).tokens
  unfolding group_at
  group_at-All P app groups h = elim (Option-cases (lookup app groups)) [
    | inl missing ↦ rw (missing, All) tt
    | inr (g, e) ↦ rw (e, All) (h g e)
  ]

  add_to_group-Tagged :
      (db : Db) (groups : Groups) (app tok user : String)
      → Tagged db groups
      → Source db app tok
      → Tagged db (add_to_group groups app tok user)
  unfolding add_to_group
  add_to_group-Tagged db groups app tok user h s =
      All-insert (λ g. All (Source db g.0) g.1.tokens) app _ groups
        (All-append (Source db app) (group_at groups app).tokens (tok ∷ [])
          (group_at-All (Source db app) app groups
            (λ g e. All-lookup (λ g. All (Source db g.0) g.1.tokens) app g groups h e))
          (s, tt))
        h

  delete_session_ok :
      (tok : String) (db db' : Db)
      → delete_session r tok db ≡ (ok tt, db')
      → (j : String) → stored db' j ≡ (if tok == j then none else stored db j)
  unfolding delete_session
  delete_session_ok tok db db' h j =
      let (found, mid, g, k) = >>=-eq-ok (find_session r tok) remove db h in
      let (same, _) = find_session_found r tok db mid found g in
      del_stored tok (owner found) mid db' k j
      ∙ ap (λ d. if tok == j then none else stored d j) same
    where
      owner : Option Session → Option String
      owner found = elim found [ none ↦ none | some sess ↦ some sess.user_id ]

      remove : Option Session → Db → Result (Unit {0}) × Db
      remove found = del_tx tok (owner found)

  -- What a pass over `tok` leaves, from a database that lies between the first one and its own.
  pub record Leaves (db0 db : Db) (P : Db → Type 0) (p : Groups × Result (Unit {0}) × Db)
      : Type 0 where
    pub tagged : Tagged db0 p.0
    pub shrinks : p.1 ≡ ok tt → Shrinks db p.2
    pub gone : p.1 ≡ ok tt → P p.2
    pub spares : p.1 ≡ ok tt → Spares db p.2

  -- A pass that fails reports what it had.
  pub failed :
      (db0 db : Db) (P : Db → Type 0) (groups : Groups) (x : GoError) (db' : Db)
      → Tagged db0 groups
      → Leaves db0 db P (groups, err x, db')
  failed db0 db P groups x db' h = record {
    tagged = h;
    shrinks = λ e. absurd (cc e);
    gone = λ e. absurd (cc e);
    spares = λ e. absurd (cc e);
  }

  -- A pass that changes no session.
  pub unchanged :
      (db0 db : Db) (P : Db → Type 0) (groups : Groups)
      → Tagged db0 groups
      → P db
      → Leaves db0 db P (groups, ok tt, db)
  unchanged db0 db P groups h p = record {
    tagged = h;
    shrinks = λ _ t s k. k;
    gone = λ _. p;
    spares = λ _ t s k m. k;
  }

  deleted :
      (db0 db db' : Db) (tok : String) (sess : Session) (groups : Groups)
      → Tagged db0 groups
      → stored db tok ≡ some sess
      → match sess ≡ true
      → ((j : String) → stored db' j ≡ (if tok == j then none else stored db j))
      → Leaves db0 db (λ d. Gone d tok) (groups, ok tt, db')
  deleted db0 db db' tok sess groups h at m e = record {
    tagged = h;
    shrinks = λ _ t s k. ground (arith, e t);
    gone = λ _ s k. ground (arith, e tok, eq_refl tok);
    spares = λ _ t s k n. ground (arith, e t, eq_iff tok t, λ (p : tok ≡ t). ap (stored db) p);
  }

  delete_matched-Leaves :
      (db0 db : Db) (user tok : String) (sess : Session) (groups : Groups)
      → Tagged db0 groups
      → Shrinks db0 db
      → stored db tok ≡ some sess
      → match sess ≡ true
      → Leaves db0 db (λ d. Gone d tok) (delete_matched r match user tok sess groups db)
  unfolding delete_matched
  delete_matched-Leaves db0 db user tok sess groups h sub at m =
      elim (Result-cases (delete_session r tok db).0) [
        | inl (u, e) ↦
            rw (e, delete_matched)
              (deleted db0 db (delete_session r tok db).1 tok sess
                (add_to_group groups sess.app_id tok user)
                (add_to_group-Tagged db0 groups sess.app_id tok user h
                  (sess, sub tok sess at, refl, m))
                at m
                (delete_session_ok tok db (delete_session r tok db).1
                  (ap (λ x. (x, (delete_session r tok db).1)) e)))
        | inr (x, e) ↦
            rw (e, delete_matched) (failed db0 db _ groups x (delete_session r tok db).1 h)
      ]

  revoke_found-Leaves :
      (db0 db : Db) (user tok : String) (found : Option Session) (groups : Groups)
      → Tagged db0 groups
      → Shrinks db0 db
      → found ≡ stored db tok
      → Leaves db0 db (λ d. Gone d tok) (revoke_found r match user tok found groups db)
  unfolding revoke_found
  revoke_found-Leaves db0 db user tok none groups h sub at =
      unchanged db0 db _ groups h (λ s k. absurd (cc))
  revoke_found-Leaves db0 db user tok (some sess) groups h sub at = elim (Bool-cases (match sess)) [
    | inl hit ↦
        rw (hit, revoke_found)
          (delete_matched-Leaves db0 db user tok sess groups h sub (sym at) hit)
    | inr miss ↦
        rw (miss, revoke_found) (unchanged db0 db (λ d. Gone d tok) groups h (λ s k. ground arith))
  ]

  revoke_token-Leaves :
      (db0 db : Db) (user tok : String) (groups : Groups)
      → Tagged db0 groups
      → Shrinks db0 db
      → Leaves db0 db (λ d. Gone d tok) (revoke_token r match user tok groups db)
  unfolding revoke_token
  revoke_token-Leaves db0 db user tok groups h sub =
      let mid = (find_session r tok db).1 in
      elim (Result-cases (find_session r tok db).0) [
        | inl (found, e) ↦
            let (same, at) = find_session_exact r tok db mid found (ap (λ x. (x, mid)) e) in
            rw (e, revoke_token)
              (subst
                (λ d.
                  Leaves db0 db (λ d. Gone d tok) (revoke_found r match user tok found groups d))
                (sym same) (revoke_found-Leaves db0 db user tok found groups h sub at))
        | inr (x, e) ↦ rw (e, revoke_token) (failed db0 db _ groups x mid h)
      ]

  pub trans-Shrinks : (a b c : Db) → Shrinks a b → Shrinks b c → Shrinks a c
  trans-Shrinks a b c f g t s k = f t s (g t s k)

  pub trans-Spares : (a b c : Db) → Spares a b → Spares b c → Spares a c
  trans-Spares a b c f g t s k m = g t s (f t s k m) m

  -- No token of a list has a session that matches.
  abbrev pub AllGone : List String → Db → Type 0
  AllGone toks db = All (Gone db) toks

  Gone-Shrinks : (a b : Db) (t : String) → Shrinks a b → Gone a t → Gone b t
  Gone-Shrinks a b t f g s k = g s (f t s k)

  revoke_tokens-Leaves :
      (db0 db : Db) (user : String) (toks : List String) (groups : Groups)
      → Tagged db0 groups
      → Shrinks db0 db
      → Leaves db0 db (AllGone toks) (revoke_tokens r match user toks groups db)
  unfolding revoke_tokens
  revoke_tokens-Leaves db0 db user [] groups h sub = unchanged db0 db (AllGone []) groups h tt
  revoke_tokens-Leaves db0 db user (tok ∷ toks) groups h sub =
      let p = revoke_token r match user tok groups db in
      let here = revoke_token-Leaves db0 db user tok groups h sub in
      elim (Result-cases p.1) [
        | inl (u, e) ↦
            let later =
              revoke_tokens-Leaves db0 p.2 user toks p.0 here.tagged
                (trans-Shrinks db0 db p.2 sub (here.shrinks e)) in
            rw (e, revoke_tokens)
              (record {
                tagged = later.tagged;
                shrinks = λ k. trans-Shrinks db p.2 _ (here.shrinks e) (later.shrinks k);
                gone = λ k. (Gone-Shrinks p.2 _ tok (later.shrinks k) (here.gone e), later.gone k);
                spares = λ k. trans-Spares db p.2 _ (here.spares e) (later.spares k);
              })
        | inr (x, e) ↦ rw (e, revoke_tokens) (failed db0 db _ p.0 x p.2 here.tagged)
      ]

  -- No token of a user's index, as it was, has a session that matches.
  abbrev pub IndexGone : Db → String → Db → Type 0
  IndexGone before user db = (t : String) → In t (index before user) → Gone db t

  pub revoke_user_tokens-Leaves :
      (db0 db : Db) (user : String) (groups : Groups)
      → Tagged db0 groups
      → Shrinks db0 db
      → Leaves db0 db (IndexGone db user) (revoke_user_tokens r match user groups db)
  unfolding revoke_user_tokens
  revoke_user_tokens-Leaves db0 db user groups h sub =
      let mid = (list_user_tokens r user db).1 in
      elim (Result-cases (list_user_tokens r user db).0) [
        | inr (x, e) ↦ rw (e, revoke_user_tokens) (failed db0 db _ groups x mid h)
        | inl (toks, e) ↦
            let (alive, same) = list_user_tokens_ok r user db mid toks (ap (λ x. (x, mid)) e) in
            let down : Shrinks db mid = λ t s k. sym (same t) ∙ k in
            let up : Spares db mid = λ t s k m. same t ∙ k in
            let later =
              revoke_tokens-Leaves db0 mid user toks groups h (trans-Shrinks db0 db mid sub down) in
            rw (e, revoke_user_tokens)
              (record {
                tagged = later.tagged;
                shrinks = λ k. trans-Shrinks db mid _ down (later.shrinks k);
                gone = λ k t m s at.
                    gone_of_listed db (revoke_tokens r match user toks groups mid).2 user toks t s
                      alive (later.gone k) (trans-Shrinks db mid _ down (later.shrinks k)) m at;
                spares = λ k. trans-Spares db mid _ up (later.spares k);
              })
      ]
    where
      gone_of_listed :
          (a b : Db) (user : String) (toks : List String) (t : String) (s : Session)
          → toks ≡ keep (present r a) (index a user)
          → AllGone toks b
          → Shrinks a b
          → In t (index a user)
          → stored b t ≡ some s
          → match s ≡ false
      gone_of_listed a b user toks t s e gone sub m at =
          let here : present r a t ≡ true = ap is_some (sub t s at) in
          All-In (Gone b) t toks gone
            (subst (In t) (sym e) (In-keep (present r a) t (index a user) m here)) s at
