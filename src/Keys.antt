-- ===== src/Keys.antt =====
-- internal/service/accesskey.go and internal/domain/accesskey.go: access keys. The SQL statements are
-- translated to operations on a table, with the constraints of its migration: `access_key_id` is
-- unique and `role_key` refers to a role. A statement that fails for another reason ends the
-- operation before any change and is left out, as are the times of creation and change. Moments are
-- nanoseconds; `to_millis` is the database's conversion of a moment to milliseconds. Addresses and
-- prefixes of net/netip, random bytes and new ids are arguments.
pub mod Resolve
pub mod Lifecycle
pub mod Outcomes
mod Tests
use Prim.Native.String.{[] as empty_text, ◌∷◌ as text_cons}
use fp.Common.{
  String, ℕ, zero, suc, ◌+◌, ◌-◌, ◌*◌, ◌/◌, ◌%◌, Bool, true, false, not, ◌&&◌, ◌||◌, List, [], ◌∷◌,
  Option, none, some, ◌==◌, if◌then◌else◌, ltb,
}
use fp.Common.Lists.{length, contains}
use fp.Common.GoMap.{GoMap, lookup, insert, erase}
use fp.Common.Int.{ℤ, pos, negsuc, ◌+ℤ◌, ◌-ℤ◌, ltb_ℤ, leb_ℤ, min_ℤ, max_ℤ, million, billion, sub_ℕ}
use fp.Authz.Core.{guest_role_key}
use fp.Authz.Roles.{invalid_argument, role_not_found}
use fp.Errors.Codes.{Sentinel}
use fp.Errors.Transport.{GoError, domain, other, fail, with_field, DomainError}
use fp.Notify.Template.Placeholders.{is_space}
use fp.Session.Monad.{Result, ok, err}

-- A row of the table `access_key`; NULL is `none`.
pub record KeyRow (P : Type 0) : Type 0 where
  pub access_key_id : String
  pub secret : String
  pub remark : String
  pub role_key : Option String
  pub allowed_ips : List P
  pub status : String
  pub expires_at : Option ℤ
  pub last_used_at : Option ℤ

-- `domain.AccessKey`, with the id of its row.
pub record AccessKey (P : Type 0) : Type 0 where
  pub id : String
  pub access_key_id : String
  pub secret : String
  pub remark : String
  pub role_key : String
  pub allowed_ips : List P
  pub status : String
  pub expires_at : ℤ
  pub last_used_at : ℤ

pub data AccessKeyState : Type 0 where
  active disabled expired : AccessKeyState

abbrev pub status_active : String
status_active = "ACTIVE"

abbrev pub status_disabled : String
status_disabled = "DISABLED"

-- `time.Time.UnixMilli`: whole milliseconds, downwards.
unfoldable pub unix_milli : ℤ → ℤ
unix_milli (pos n) = pos (n / 1000000)
unix_milli (negsuc n) = negsuc (n / 1000000)

-- `AccessKey.State`
unfoldable pub key_state : {P : Type 0} → AccessKey P → ℤ → AccessKeyState
key_state k now =
    if k.status == status_disabled
    then AccessKeyState.disabled
    else if ltb_ℤ (pos 0) k.expires_at && leb_ℤ k.expires_at (unix_milli now)
    then AccessKeyState.expired
    else AccessKeyState.active

unfoldable pub trim_left : String → String
trim_left empty_text = empty_text
trim_left (text_cons c s) = if is_space c then trim_left s else text_cons c s

unfoldable pub trim_right : String → String
trim_right empty_text = empty_text
trim_right (text_cons c s) =
    let rest = trim_right s in if is_space c && rest == "" then empty_text else text_cons c rest

-- `strings.TrimSpace`
unfoldable pub trim_space : String → String
trim_space s = trim_left (trim_right s)

abbrev pub bad_field : String → String → GoError
bad_field field msg =
    domain (with_field "field" field (fail Sentinel.invalid_argument "INVALID_ARGUMENT" msg))

-- `checkRemark`
unfoldable pub check_remark : String → Result String
check_remark remark =
    let r = trim_space remark in if r == "" then err (bad_field "remark" "备注不能为空") else ok r

-- `checkRoleKey`
unfoldable pub check_role_key : String → Result (Option String)
check_role_key role =
    if role == ""
    then ok none
    else if role == guest_role_key
    then err (invalid_argument "ROLE_BUILTIN" "访问密钥不能绑定 GUEST")
    else ok (some role)

-- A number of nanoseconds as an int64, which wraps.
unfoldable pub wrap_int64 : ℕ → ℤ
wrap_int64 n =
    let m = n % 18446744073709551616 in
    if ltb m 9223372036854775808 then pos m else negsuc (18446744073709551615 - m)

-- `time.Duration(days) * 24 * time.Hour`
unfoldable pub days_duration : ℕ → ℤ
days_duration days = wrap_int64 (86400000000000 * days)

-- `expiresAt` at the moment `now`.
unfoldable pub expiry : ℤ → ℤ → Result (Option ℤ)
expiry (negsuc _) now = err (bad_field "validDays" "有效期天数不能为负")
expiry (pos zero) now = ok none
expiry (pos (suc d)) now = ok (some (now +ℤ days_duration (suc d)))

-- The parts of net/netip.
pub record Nets : Type 1 where
  pub Prefix : Type 0
  -- A prefix without its host bits, and the prefix of one unmapped address.
  pub masked_prefix : String → Option Prefix
  pub single_address : String → Option Prefix
  pub has_slash : String → Bool

abbrev pub max_allowed_ips : ℕ
max_allowed_ips = 50

module _ (nets : Nets) where
  open nets use {Prefix, masked_prefix, single_address, has_slash}

  abbrev pub bad_ip : GoError
  bad_ip = bad_field "allowedIps" "IP 白名单不是合法的 IP 或网段"

  unfoldable pub parse_ip : String → Option Prefix
  parse_ip s = if has_slash s then masked_prefix s else single_address s

  unfoldable pub with_ip : Option Prefix → Result (List Prefix) → Result (List Prefix)
  with_ip none rest = err bad_ip
  with_ip (some p) (err e) = err e
  with_ip (some p) (ok ps) = ok (p ∷ ps)

  -- The loop of `normalizeAllowedIPs`; all its errors are one here, less their texts.
  unfoldable pub parse_ips : List String → Result (List Prefix)
  parse_ips [] = ok []
  parse_ips (raw ∷ raws) =
      let s = trim_space raw in
      let rest = parse_ips raws in if s == "" then rest else with_ip (parse_ip s) rest

  unfoldable pub at_most_fifty : Result (List Prefix) → Result (List Prefix)
  at_most_fifty (err e) = err e
  at_most_fifty (ok ps) =
      if ltb max_allowed_ips (length ps)
      then err (bad_field "allowedIps" "IP 白名单最多 50 条")
      else ok ps

  -- `normalizeAllowedIPs`
  unfoldable pub normalize_allowed_ips : List String → Result (List Prefix)
  normalize_allowed_ips ips = at_most_fifty (parse_ips ips)

-- The table, the keys of the roles, and the events that were published, newest first.
pub record KeyTables (P : Type 0) : Type 0 where
  pub keys : GoMap (KeyRow P)
  pub role_keys : List String
  pub announced : List String

pub record CreateInput : Type 0 where
  pub remark : String
  pub role_key : String
  pub valid_days : ℤ
  pub allowed_ips : List String

-- A field that is nil is `none`.
pub record UpdateInput : Type 0 where
  pub remark : Option String
  pub role_key : Option String
  pub valid_days : Option ℤ
  pub allowed_ips : Option (List String)

abbrev pub key_not_found : GoError
key_not_found = domain (fail Sentinel.not_found "ACCESS_KEY_NOT_FOUND" "访问密钥不存在")

abbrev pub millis_of : (ℤ → ℤ) → Option ℤ → ℤ
millis_of to_millis none = pos 0
millis_of to_millis (some t) = to_millis t

abbrev pub text_of_null : Option String → String
text_of_null none = ""
text_of_null (some s) = s

unfoldable pub role_missing : List String → Option String → Bool
role_missing roles none = false
role_missing roles (some r) = not (contains roles r)

-- `k.last_used_at IS NULL OR k.last_used_at < u.t`
unfoldable pub used_later : Option ℤ → ℤ → Bool
used_later none t = true
used_later (some last) t = ltb_ℤ last t

-- `AccessKeyMaterial`, with the lifetime in nanoseconds.
pub record KeyMaterial (P : Type 0) : Type 0 where
  pub key : AccessKey P
  pub cache_ttl : ℤ

-- A check whose error ends the operation.
infixl 5 ◌>>=◌
abbrev pub ◌>>=◌ : {A B : Type 0} → Result A → (A → Result B) → Result B
ok a >>= f = f a
err e >>= f = err e

module _ {P : Type 0} where
  -- `scanAccessKey`
  unfoldable pub scan_key : (ℤ → ℤ) → String → KeyRow P → AccessKey P
  scan_key to_millis id r = record {
    id = id;
    access_key_id = r.access_key_id;
    secret = r.secret;
    remark = r.remark;
    role_key = text_of_null r.role_key;
    allowed_ips = r.allowed_ips;
    status = r.status;
    expires_at = millis_of to_millis r.expires_at;
    last_used_at = millis_of to_millis r.last_used_at;
  }

  -- `k.Secret = ""`
  unfoldable pub without_secret : AccessKey P → AccessKey P
  without_secret k = record k { secret = "" }

  -- The row with an AccessKey id, and its own id.
  unfoldable pub find_key : GoMap (KeyRow P) → String → Option (String × KeyRow P)
  find_key [] ak = none
  find_key ((id, r) ∷ rows) ak =
      let rest = find_key rows ak in if r.access_key_id == ak then some (id, r) else rest

  unfoldable pub announce : KeyTables P → String → KeyTables P
  announce t ak = record t { announced = ak ∷ t.announced }

  -- `afterWrite` of an UPDATE that would leave the row `r`.
  unfoldable pub write_key :
      (ℤ → ℤ) → KeyTables P → String → KeyRow P → Result (AccessKey P) × KeyTables P
  write_key to_millis t id r =
      if role_missing t.role_keys r.role_key then (err role_not_found, t) else (
        ok (without_secret (scan_key to_millis id r)),
        announce (record t { keys = insert id r t.keys }) r.access_key_id,
      )

  -- `SetStatus`
  unfoldable pub set_status :
      (ℤ → ℤ) → KeyTables P → String → String → Result (AccessKey P) × KeyTables P
  set_status to_millis t id status =
      if not (status == status_active || status == status_disabled)
      then (err (invalid_argument "INVALID_ARGUMENT" "未知的状态"), t)
      else elim (lookup id t.keys) [
        | none ↦ (err key_not_found, t)
        | some r ↦ write_key to_millis t id (record r { status = status })
      ]

  -- `Delete`
  unfoldable pub delete_key : KeyTables P → String → Result (Unit {0}) × KeyTables P
  delete_key t id = elim (lookup id t.keys) [
    | none ↦ (err key_not_found, t)
    | some r ↦ (ok tt, announce (record t { keys = erase id t.keys }) r.access_key_id)
  ]

  -- `Get`
  unfoldable pub get_key : (ℤ → ℤ) → KeyTables P → String → Result (AccessKey P)
  get_key to_millis t id = elim (lookup id t.keys) [
    | none ↦ err key_not_found
    | some r ↦ ok (without_secret (scan_key to_millis id r))
  ]

  -- `List`, in the order of the table; an empty role key asks for all.
  unfoldable pub list_keys : (ℤ → ℤ) → GoMap (KeyRow P) → String → List (AccessKey P)
  list_keys to_millis [] role = []
  list_keys to_millis ((id, r) ∷ rows) role =
      let rest = list_keys to_millis rows role in
      if role == "" || text_of_null r.role_key == role
      then without_secret (scan_key to_millis id r) ∷ rest
      else rest

  -- The UPDATE of `RecordUsage` on one row: the moment of use, which is at most now, if it is later.
  unfoldable pub note_use : GoMap ℤ → ℤ → KeyRow P → KeyRow P
  note_use usages now r = elim (lookup r.access_key_id usages) [
    | none ↦ r
    | some t ↦
        if used_later r.last_used_at (min_ℤ t now)
        then record r { last_used_at = some (min_ℤ t now) }
        else r
  ]

  -- `RecordUsage`
  unfoldable pub record_usage : GoMap ℤ → ℤ → GoMap (KeyRow P) → GoMap (KeyRow P)
  record_usage usages now [] = []
  record_usage usages now ((id, r) ∷ rows) =
      (id, note_use usages now r) ∷ record_usage usages now rows

  unfoldable pub key_ttl : ℤ → AccessKey P → ℤ → ℤ
  key_ttl cache_seconds k now =
      let ttl = billion cache_seconds in
      let left = million k.expires_at -ℤ now in
      max_ℤ (if ltb_ℤ (pos 0) k.expires_at then min_ℤ ttl left else ttl) (pos 0)

  -- The switch of `Resolve` on the state of the key.
  unfoldable pub judge_key : ℤ → AccessKey P → ℤ → AccessKeyState → Result (KeyMaterial P)
  judge_key cache_seconds k now AccessKeyState.disabled =
      err (domain (fail Sentinel.forbidden "ACCESS_KEY_DISABLED" "AccessKey 已停用"))
  judge_key cache_seconds k now AccessKeyState.expired =
      err (domain (fail Sentinel.forbidden "ACCESS_KEY_EXPIRED" "AccessKey 已过期"))
  judge_key cache_seconds k now AccessKeyState.active =
      ok (record { key = k; cache_ttl = key_ttl cache_seconds k now })

  unfoldable pub resolve_found :
      (ℤ → ℤ) → ℤ → ℤ → Option (String × KeyRow P) → Result (KeyMaterial P)
  resolve_found to_millis cache_seconds now none =
      err (domain (fail Sentinel.unauthorized "ACCESS_KEY_INVALID" "AccessKey 无效"))
  resolve_found to_millis cache_seconds now (some (id, r)) =
      let k = scan_key to_millis id r in judge_key cache_seconds k now (key_state k now)

  -- `Resolve` for an application that caches for `cache_seconds`.
  unfoldable pub resolve_key : (ℤ → ℤ) → KeyTables P → ℤ → String → ℤ → Result (KeyMaterial P)
  resolve_key to_millis t cache_seconds ak now =
      resolve_found to_millis cache_seconds now (find_key t.keys ak)

-- What `Create` makes of its input before the row is written.
pub record NewKey (P : Type 0) : Type 0 where
  pub remark : String
  pub role_key : Option String
  pub expires_at : Option ℤ
  pub allowed_ips : List P
  pub secret : String

module _ (nets : Nets) where
  open nets use {Prefix}

  -- The checks of `Create`, in their order; `secret` is the random token.
  unfoldable pub check_input : CreateInput → Result String → ℤ → Result (NewKey Prefix)
  check_input in' secret now = do
    remark ← check_remark in'.remark
    role ← check_role_key in'.role_key
    expires ← expiry in'.valid_days now
    ips ← normalize_allowed_ips nets in'.allowed_ips
    s ← secret
    ok (record {
      remark = remark;
      role_key = role;
      expires_at = expires;
      allowed_ips = ips;
      secret = s;
    })

  -- The fields that `Update` sets, in the order of its checks.
  unfoldable pub set_remark : Option String → KeyRow Prefix → Result (KeyRow Prefix)
  set_remark none r = ok r
  set_remark (some x) r = check_remark x >>= λ v. ok (record r { remark = v })

  unfoldable pub set_role : Option String → KeyRow Prefix → Result (KeyRow Prefix)
  set_role none r = ok r
  set_role (some x) r = check_role_key x >>= λ v. ok (record r { role_key = v })

  unfoldable pub set_expiry : ℤ → Option ℤ → KeyRow Prefix → Result (KeyRow Prefix)
  set_expiry now none r = ok r
  set_expiry now (some x) r = expiry x now >>= λ v. ok (record r { expires_at = v })

  unfoldable pub set_ips : Option (List String) → KeyRow Prefix → Result (KeyRow Prefix)
  set_ips none r = ok r
  set_ips (some x) r = normalize_allowed_ips nets x >>= λ v. ok (record r { allowed_ips = v })

  unfoldable pub changes_nothing : UpdateInput → Bool
  changes_nothing u =
      elim u.remark [ none ↦ true | some _ ↦ false ]
      && elim u.role_key [ none ↦ true | some _ ↦ false ]
      && elim u.valid_days [ none ↦ true | some _ ↦ false ]
      && elim u.allowed_ips [ none ↦ true | some _ ↦ false ]

  unfoldable pub changed_key : UpdateInput → ℤ → KeyRow Prefix → Result (KeyRow Prefix)
  changed_key u now r =
      set_remark u.remark r
      >>= set_role u.role_key
      >>= set_expiry now u.valid_days
      >>= set_ips u.allowed_ips

  -- The checks come before the row is looked for, so they run on a row of their own there.
  unfoldable pub blank_key : KeyRow Prefix
  blank_key = record {
    access_key_id = "";
    secret = "";
    remark = "";
    role_key = none;
    allowed_ips = [];
    status = "";
    expires_at = none;
    last_used_at = none;
  }

  unfoldable pub write_changed :
      (ℤ → ℤ)
      → KeyTables Prefix
      → String
      → Result (KeyRow Prefix)
      → Result (AccessKey Prefix) × KeyTables Prefix
  write_changed to_millis t id (err e) = (err e, t)
  write_changed to_millis t id (ok r) = write_key to_millis t id r

  unfoldable pub update_found :
      (ℤ → ℤ)
      → KeyTables Prefix
      → String
      → UpdateInput
      → ℤ
      → Option (KeyRow Prefix)
      → Result (AccessKey Prefix) × KeyTables Prefix
  update_found to_millis t id u now none = (err key_not_found, t)
  update_found to_millis t id u now (some r) = write_changed to_millis t id (changed_key u now r)

  -- `Update`
  unfoldable pub update_key :
      (ℤ → ℤ)
      → KeyTables Prefix
      → String
      → UpdateInput
      → ℤ
      → Result (AccessKey Prefix) × KeyTables Prefix
  update_key to_millis t id u now = elim (changed_key u now blank_key) [
    | err e ↦ (err e, t)
    | ok _ ↦
        if changes_nothing u
        then (err (invalid_argument "INVALID_ARGUMENT" "至少要提供一个要修改的字段"), t)
        else update_found to_millis t id u now (lookup id t.keys)
  ]

  unfoldable pub row_of : NewKey Prefix → String → KeyRow Prefix
  row_of c ak = record {
    access_key_id = ak;
    secret = c.secret;
    remark = c.remark;
    role_key = c.role_key;
    allowed_ips = c.allowed_ips;
    status = status_active;
    expires_at = c.expires_at;
    last_used_at = none;
  }

  -- The loop of `Create` with the attempts left, one random AccessKey id for each.
  unfoldable pub create_loop :
      (ℤ → ℤ)
      → KeyTables Prefix
      → String
      → NewKey Prefix
      → List (Result String)
      → Result (AccessKey Prefix) × KeyTables Prefix
  create_loop to_millis t id c [] = (err (other "连续生成的 AccessKey ID 都已存在"), t)
  create_loop to_millis t id c (err e ∷ draws) = (err e, t)
  create_loop to_millis t id c (ok ak ∷ draws) =
      let again = create_loop to_millis t id c draws in
      elim (find_key t.keys ak) [
        | some _ ↦ again
        | none ↦ if role_missing t.role_keys c.role_key then (err role_not_found, t) else (
          ok (scan_key to_millis id (row_of c ak)),
          record t { keys = insert id (row_of c ak) t.keys },
        )
      ]

  unfoldable pub create_checked :
      (ℤ → ℤ)
      → KeyTables Prefix
      → String
      → List (Result String)
      → Result (NewKey Prefix)
      → Result (AccessKey Prefix) × KeyTables Prefix
  create_checked to_millis t id draws (err e) = (err e, t)
  create_checked to_millis t id draws (ok c) = create_loop to_millis t id c draws

  -- `Create`, with the id of the new row, the random token and the random ids of the three attempts.
  unfoldable pub create_key :
      (ℤ → ℤ)
      → KeyTables Prefix
      → String
      → CreateInput
      → Result String
      → Result String
      → Result String
      → Result String
      → ℤ
      → Result (AccessKey Prefix) × KeyTables Prefix
  create_key to_millis t id in' secret first second third now =
      create_checked to_millis t id (first ∷ second ∷ third ∷ []) (check_input in' secret now)
