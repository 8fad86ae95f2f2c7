-- ===== src/Session/Service/Acceptance.antt =====
-- When `Validate` of internal/service/session.go accepts a token.
use fp.Common.{
  String, Bool, true, false, not, Option, none, some, ◌==◌, if◌then◌else◌, ◌≡◌, ◌≢◌, refl, ap, sym,
  ◌∙◌, ◌↔◌, arith, eq_iff, inl, inr, Bool-cases, subst,
}
use fp.Common.Int.{
  ℤ, pos, ◌<ℤ◌, ◌+ℤ◌, ◌-ℤ◌, thousand, ltb_ℤ, leb_ℤ, min_ℤ_cases, -ℤ_parts, +ℤ_parts, thousand_parts,
  max_ℤ_cases,
}
use fp.Session.Policy.{
  SessionPolicy, Session, remaining_at, max_expires_at, grace_duration, cache_ttl,
  rotate_interval_of, extend_interval_of, idle_timeout_for, min_rotate_grace,
}
use fp.Session.Policy.Lifetime.{IsSound, remaining_at_cases}
use fp.Session.Monad.{Result, ok, err, Action, ◌>>=◌, ◌>>◌, pure}
use fp.Session.Redis.{Redis}
use fp.Session.Store.{
  get_session, find_session, current_epoch, try_lock, put_session, put_rotation, rotated_to, week,
}
use fp.Session.Service.{
  Application, ValidateResult, check_epoch, check_session, check_found, usable_session,
  extended_session, rotated_session, retired_session, rot_lock, ext_lock, extend_lock_ttl,
  try_extend, try_rotate, rotate_now, retell, write_extended, rotate, after_rotate, after_extend,
  refresh, validate,
}
use fp.Session.Service.Soundness.{IsUsable}
use fp.Session.Service.Refresh.{validate_ok}

-- Every command of Redis is answered without an error.
pub record IsUp (r : Redis) : Type 0 where
  pub get : (t : String) (db : Redis.Db r) → r.get t db ≡ ok (r.stored db t)
  pub epoch : (u : String) (db : Redis.Db r) → (v : Option ℤ) × (r.get_epoch u db ≡ ok v)
  pub rotation : (t : String) (db : Redis.Db r) → (v : Option String) × (r.get_rotation t db ≡ ok v)
  pub put : (s : Session) (a b : ℤ) (db : Redis.Db r) → (r.put_tx s a b db).0 ≡ ok tt
  pub nx : (k : String) (a : ℤ) (db : Redis.Db r) → (v : Bool) × ((r.set_nx k a db).0 ≡ ok v)
  pub set_rotation : (t u : String) (a : ℤ) (db : Redis.Db r) → (r.set_rotation t u a db).0 ≡ ok tt

-- The action succeeds.
abbrev pub Succeeds : {Db A : Type 0} → Action Db A → Db → Type 0
Succeeds {Db} {A} m db = (a : A) × ((m db).0 ≡ ok a)

>>=-run :
    {Db A B : Type 0} (m : Action Db A) (f : A → Action Db B) (db : Db) (a : A)
    → (m db).0 ≡ ok a
    → (m >>= f) db ≡ f a (m db).1
>>=-run {Db} {A} {B} m f db a e = go (m db) e
  where
    go :
        (p : Result A × Db)
        → p.0 ≡ ok a
        → (let (r, mid) = p in elim r [ ok x ↦ f x mid | err x ↦ (err x, mid) ]) ≡ f a p.1
    go (ok x, mid) e = ap (λ y. f y mid) (cc e)
    go (err x, mid) e = absurd (cc)

-- A sequence succeeds if its parts do.
>>=-Succeeds :
    {Db A B : Type 0} (m : Action Db A) (f : A → Action Db B) (db : Db)
    → Succeeds m db
    → ((a : A) (mid : Db) → (m db ≡ (ok a, mid)) → Succeeds (f a) mid)
    → Succeeds (m >>= f) db
>>=-Succeeds {Db} {A} {B} m f db (a, e) k =
    let (b, e') = k a (m db).1 (ap (λ x. (x, (m db).1)) e) in
    (b, ap (λ p. p.0) (>>=-run m f db a e) ∙ e')

idle_is_positive :
    (p : SessionPolicy) (mobile : Bool) → IsSound p → pos 0 <ℤ idle_timeout_for p mobile
unfolding idle_timeout_for
idle_is_positive p mobile v =
    let a = thousand_parts p.idle_timeout_mobile_seconds in
    let b = thousand_parts p.idle_timeout_seconds in let c = v.idle in ground arith

grace_is_positive : (p : SessionPolicy) → pos 0 <ℤ grace_duration p
unfolding grace_duration
grace_is_positive p =
    let c = max_ℤ_cases min_rotate_grace (thousand p.token_cache_ttl_seconds) in ground arith

-- A session that is renewed has lifetime left as long as the old one had.
renewed_is_alive :
    (s t : Session) (p : SessionPolicy) (now idle : ℤ)
    → pos 0 <ℤ idle
    → t.first_auth_at ≡ s.first_auth_at
    → t.idle_expires_at ≡ now +ℤ idle
    → pos 0 <ℤ remaining_at s now p
    → pos 0 <ℤ remaining_at t now p
unfolding max_expires_at
renewed_is_alive s t p now idle h first same alive =
    let cs = remaining_at_cases s now p in
    let ct = remaining_at_cases t now p in
    let ms = min_ℤ_cases (s.idle_expires_at -ℤ now) (max_expires_at s p -ℤ now) in
    let mt = min_ℤ_cases (t.idle_expires_at -ℤ now) (max_expires_at t p -ℤ now) in
    let d = -ℤ_parts (now +ℤ idle) now in let a = +ℤ_parts now idle in ground arith

module _ (r : Redis) (up : IsUp r) where
  open r use {Db, stored}

  usable_session_complete :
      (token : String) (app : Application) (now : ℤ) (db : Db) (sess : Session)
      → token ≢ ""
      → IsUsable r token app now db sess
      → usable_session r token app now db ≡ (ok sess, db)
  unfolding usable_session find_session get_session check_found check_session current_epoch
      check_epoch
  usable_session_complete token app now db sess full u =
      let g = up.get token db in
      let a = u.present in
      let b = u.in_app in
      let c = u.current in
      let d = u.alive in ground (arith, eq_iff token "", eq_iff sess.app_id app.id)

  put_session-Succeeds :
      (s : Session) (ttl : ℤ) (db : Db) → pos 0 <ℤ ttl → Succeeds (put_session r s ttl) db
  unfolding put_session
  put_session-Succeeds s ttl db h =
      (tt, ground (arith, up.put s ttl (if ltb_ℤ ttl week then week else ttl) db))

  put_rotation-Succeeds :
      (a b : String) (ttl : ℤ) (db : Db) → pos 0 <ℤ ttl → Succeeds (put_rotation r a b ttl) db
  unfolding put_rotation
  put_rotation-Succeeds a b ttl db h = (tt, ground (arith, up.set_rotation a b ttl db))

  module _ (sess : Session) (app : Application) (now : ℤ) (v : IsSound app.session)
      (alive : pos 0 <ℤ remaining_at sess now app.session) where
    abbrev extended : Session
    extended = extended_session sess app.session now

    abbrev rotated : String → Session
    rotated token = rotated_session sess app.session token now

    extended_is_alive : pos 0 <ℤ remaining_at extended now app.session
    unfolding extended_session
    extended_is_alive =
        renewed_is_alive sess extended app.session now (idle_timeout_for app.session sess.mobile)
          (idle_is_positive app.session sess.mobile v) refl refl alive

    rotated_is_alive : (token : String) → pos 0 <ℤ remaining_at (rotated token) now app.session
    unfolding rotated_session
    rotated_is_alive token =
        renewed_is_alive sess (rotated token) app.session now
          (idle_timeout_for app.session sess.mobile) (idle_is_positive app.session sess.mobile v)
          refl refl alive

    write_extended-Succeeds : (db : Db) → Succeeds (write_extended r extended now app) db
    unfolding write_extended
    write_extended-Succeeds db =
        >>=-Succeeds (put_session r extended (remaining_at extended now app.session))
          (λ _. pure (some extended)) db
          (put_session-Succeeds extended (remaining_at extended now app.session) db
            extended_is_alive)
          (λ _ mid _. (some extended, refl))

    try_extend-Succeeds : (db : Db) → Succeeds (try_extend r sess app now) db
    unfolding try_extend try_lock
    try_extend-Succeeds db =
        >>=-Succeeds (try_lock r (ext_lock sess.token) extend_lock_ttl)
          (λ locked. if locked then write_extended r extended now app else pure none) db
          (up.nx (ext_lock sess.token) extend_lock_ttl db)
          (λ locked mid _.
            elim locked
              as (λ locked.
                Succeeds (if locked then write_extended r extended now app else pure none) mid) [
                  | true ↦ write_extended-Succeeds mid
                  | false ↦ (none, refl)
                ])

    rotate-Succeeds : (token : String) (db : Db) → Succeeds (rotate r sess app token now) db
    unfolding rotate
    rotate-Succeeds token db =
        let grace = grace_duration app.session in
        let retire = put_session r (retired_session sess app.session now) grace in
        >>=-Succeeds (put_session r (rotated token) (remaining_at (rotated token) now app.session))
          (λ _. put_rotation r sess.token token grace >> retire) db
          (put_session-Succeeds (rotated token) (remaining_at (rotated token) now app.session) db
            (rotated_is_alive token))
          (λ _ mid _.
            >>=-Succeeds (put_rotation r sess.token token grace) (λ _. retire) mid
              (put_rotation-Succeeds sess.token token grace mid (grace_is_positive app.session))
              (λ _ mid' _.
                put_session-Succeeds (retired_session sess app.session now) grace mid'
                  (grace_is_positive app.session)))

    rotate_now-Succeeds :
        (token : String) (db : Db) → Succeeds (rotate_now r sess app (ok token) now) db
    unfolding rotate_now
    rotate_now-Succeeds token db =
        >>=-Succeeds (rotate r sess app token now) (λ _. pure (token, some (rotated token))) db
          (rotate-Succeeds token db) (λ _ mid _. ((token, some (rotated token)), refl))

    retell-Succeeds : (db : Db) → Succeeds (retell r sess) db
    unfolding retell rotated_to
    retell-Succeeds db =
        let (found, e) = up.rotation sess.token db in
        ((elim found [ none ↦ "" | some t ↦ t ], none), ground (arith, e))

    try_rotate-Succeeds :
        (token : String) (db : Db) → Succeeds (try_rotate r sess app (ok token) now) db
    unfolding try_rotate try_lock
    try_rotate-Succeeds token db =
        >>=-Succeeds (try_lock r (rot_lock sess.id) (grace_duration app.session))
          (λ locked. if locked then rotate_now r sess app (ok token) now else retell r sess) db
          (up.nx (rot_lock sess.id) (grace_duration app.session) db)
          (λ locked mid _.
            elim locked
              as (λ locked.
                Succeeds (if locked then rotate_now r sess app (ok token) now else retell r sess)
                  mid) [ true ↦ rotate_now-Succeeds token mid | false ↦ retell-Succeeds mid ])

    refresh-Succeeds : (token : String) (db : Db) → Succeeds (refresh r sess app (ok token) now) db
    unfolding refresh
    refresh-Succeeds token db =
        elim (Bool-cases (leb_ℤ (rotate_interval_of app.session) (now -ℤ sess.issued_at))) [
          | inl due ↦
              rw (due, refresh)
                (>>=-Succeeds (try_rotate r sess app (ok token) now)
                  (λ t. pure (after_rotate r sess t)) db (try_rotate-Succeeds token db)
                  (λ t mid _. (after_rotate r sess t, refl)))
          | inr fresh ↦
              elim (Bool-cases
                (leb_ℤ (extend_interval_of app.session) (now -ℤ sess.last_extended_at))) [
                  | inl due ↦
                      rw (fresh, due, refresh)
                        (>>=-Succeeds (try_extend r sess app now)
                          (λ t. pure (after_extend r sess t)) db (try_extend-Succeeds db)
                          (λ t mid _. (after_extend r sess t, refl)))
                  | inr early ↦ rw (fresh, early, refresh) ((sess, ""), refl)
                ]
        ]

-- For a Redis that answers every command, a sound policy, a token that is not empty and a source of
-- random tokens that works, `Validate` succeeds exactly if a session stands under the token that
-- belongs to the application, has its user's epoch and has lifetime left: neither an extension nor a
-- rotation makes it fail.
pub validate_iff :
    (r : Redis) (token : String) (app : Application) (random : String) (now later : ℤ)
    (db : Redis.Db r)
    → IsUp r
    → IsSound app.session
    → token ≢ ""
    → Succeeds (validate r token (some app) (ok random) now later) db
      ↔ ((sess : Session) × IsUsable r token app now db sess)
unfolding validate
validate_iff r token app random now later db up v full = (
  λ s.
      let p = validate r token (some app) (ok random) now later db in
      let (sess, a) =
        validate_ok r token app (ok random) now later db p.1 s.0 (ap (λ x. (x, p.1)) s.1) in
      (sess, a.usable),
  λ u.
      let same = usable_session_complete r up token app now db u.0 full u.1 in
      >>=-Succeeds (usable_session r token app now)
        (λ sess. refresh r sess app (ok random) now >>= answer) db (u.0, ap (λ p. p.0) same)
        (λ sess mid e.
          let k : u.0 ≡ sess = cc (sym same ∙ e) in
          let alive = subst (λ s. pos 0 <ℤ remaining_at s now app.session) k u.1.alive in
          >>=-Succeeds (refresh r sess app (ok random) now) answer mid
            (refresh-Succeeds r up sess app now v alive random mid) (λ a mid' _. (_, refl))),
)
  where
    answer : Session × String → Action (Redis.Db r) ValidateResult
    answer (s, t) = pure (record {
      session = s;
      cache_ttl = cache_ttl (remaining_at s later app.session) app.session;
      rotated = not (t == "");
      new_token = t;
    })
