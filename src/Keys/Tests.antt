-- ===== src/Keys/Tests.antt =====
-- Access keys on small examples.
use fp.Common.{String, false, [], ◌∷◌, none, some, ◌≡◌, ◌↔◌, refl, arith, eq_iff}
use fp.Common.Lists.{In}
use fp.Common.Int.{ℤ, pos, ◌<ℤ◌, ◌≤ℤ◌, ◌+ℤ◌, million, billion}
use fp.Errors.Codes.{Sentinel}
use fp.Errors.Transport.{domain, fail}
use fp.Notify.Template.Placeholders.{is_space}
use fp.Session.Monad.{ok, err}
use fp.Keys.{
  KeyRow, AccessKey, status_active, status_disabled, KeyTables, KeyMaterial, Nets, CreateInput,
  trim_space, trim_left, trim_right, check_remark, check_role_key, expiry, days_duration,
  wrap_int64, normalize_allowed_ips, at_most_fifty, parse_ips, parse_ip, with_ip, check_input,
  create_key, create_checked, create_loop, row_of, role_missing, scan_key, find_key, without_secret,
  write_key, set_status, delete_key, announce, key_ttl, resolve_key,
}
use fp.Keys.Resolve.{IsUsableKey, IsGiven, resolve_key_iff, key_ttl_bounds}
use fp.Keys.Outcomes.{created_key_resolves, disabled_key_is_refused, deleted_key_is_unknown}

abbrev nets : Nets
nets = record {
  Prefix = String;
  masked_prefix = λ s. some s;
  single_address = λ s. some s;
  has_slash = λ s. false;
}

abbrev millis : ℤ → ℤ
millis t = pos 0

abbrev row : KeyRow String
row = record {
  access_key_id = "AK1";
  secret = "s1";
  remark = "partner";
  role_key = some "reader";
  allowed_ips = [];
  status = "ACTIVE";
  expires_at = none;
  last_used_at = none;
}

abbrev tables : KeyTables String
tables = record { keys = ("k1", row) ∷ []; role_keys = "reader" ∷ []; announced = [] }

abbrev wish : CreateInput
wish = record {
  remark = "second";
  role_key = "reader";
  valid_days = pos 0;
  allowed_ips = "10.0.0.1" ∷ [];
}

abbrev made : AccessKey String
made = record {
  id = "k2";
  access_key_id = "AK2";
  secret = "s2";
  remark = "second";
  role_key = "reader";
  allowed_ips = "10.0.0.1" ∷ [];
  status = "ACTIVE";
  expires_at = pos 0;
  last_used_at = pos 0;
}

abbrev made_row : KeyRow String
made_row = record {
  access_key_id = "AK2";
  secret = "s2";
  remark = "second";
  role_key = some "reader";
  allowed_ips = "10.0.0.1" ∷ [];
  status = "ACTIVE";
  expires_at = none;
  last_used_at = none;
}

abbrev with_both : KeyTables String
with_both = record tables { keys = ("k1", row) ∷ ("k2", made_row) ∷ [] }

-- The first random id is taken.
second_try :
    create_key nets millis tables "k2" wish (ok "s2") (ok "AK1") (ok "AK2") (ok "AK3") (pos 7)
    ≡ (ok made, with_both)
unfolding create_key create_checked create_loop check_input check_remark check_role_key expiry
    normalize_allowed_ips at_most_fifty parse_ips parse_ip with_ip trim_space trim_left trim_right
    is_space row_of role_missing scan_key find_key
second_try = refl

created_key_resolves_example :
    (fp.Keys.Lifecycle.IsUnique with_both.keys)
    × (resolve_key millis with_both (pos 30) "AK2" (pos 9)
        ≡ ok (record { key = made; cache_ttl = key_ttl (pos 30) made (pos 9) }))
created_key_resolves_example =
    created_key_resolves nets millis tables with_both "k2" wish (ok "s2") (ok "AK1") (ok "AK2")
      (ok "AK3") (pos 7) (pos 9) (pos 30) made (tt, tt) refl second_try (λ h. omega (arith, h))

abbrev off : KeyRow String
off = record row { status = "DISABLED" }

abbrev without_first : KeyTables String
without_first = record {
  keys = ("k1", off) ∷ [];
  role_keys = "reader" ∷ [];
  announced = "AK1" ∷ [];
}

switched :
    set_status millis tables "k1" status_disabled
    ≡ (ok (without_secret (scan_key millis "k1" off)), without_first)
unfolding set_status write_key role_missing announce
switched = refl

disabled_key_is_refused_example :
    (resolve_key millis without_first
        (pos 30)
        (without_secret (scan_key millis "k1" off)).access_key_id
        (pos 9)
      ≡ err (domain (fail Sentinel.forbidden "ACCESS_KEY_DISABLED" "AccessKey 已停用")))
    × In (without_secret (scan_key millis "k1" off)).access_key_id without_first.announced
disabled_key_is_refused_example =
    disabled_key_is_refused millis tables without_first "k1"
      (without_secret (scan_key millis "k1" off)) (pos 30) (pos 9) (tt, tt) switched

abbrev cleared : KeyTables String
cleared = record { keys = []; role_keys = "reader" ∷ []; announced = "AK1" ∷ [] }

gone : delete_key tables "k1" ≡ (ok tt, cleared)
unfolding delete_key announce
gone = refl

deleted_key_is_unknown_example :
    (resolve_key millis cleared (pos 30) "AK1" (pos 9)
      ≡ err (domain (fail Sentinel.unauthorized "ACCESS_KEY_INVALID" "AccessKey 无效")))
    × In "AK1" cleared.announced
deleted_key_is_unknown_example =
    deleted_key_is_unknown millis tables cleared "k1" row (pos 30) (pos 9) (tt, tt) refl gone

abbrev given : KeyMaterial String
given = record {
  key = scan_key millis "k1" row;
  cache_ttl = key_ttl (pos 30) (scan_key millis "k1" row) (pos 9);
}

resolve_key_iff_example : (resolve_key millis tables (pos 30) "AK1" (pos 9) ≡ ok given) ↔ (
    (id : String) × (r : KeyRow String) × (find_key tables.keys "AK1" ≡ some (id, r))
    × IsGiven millis (pos 30) (pos 9) id r given)
resolve_key_iff_example = resolve_key_iff millis tables (pos 30) "AK1" (pos 9) given

-- Made at 3 milliseconds to expire at 20.
abbrev timed : AccessKey String
timed = record made { expires_at = pos 20 }

usable : IsUsableKey timed (pos 3000000)
unfolding million
usable = record {
  enabled = λ h. ground (arith, eq_iff "ACTIVE" "DISABLED");
  alive = λ h. omega arith;
}

key_ttl_bounds_example :
    (pos 0 ≤ℤ key_ttl (pos 30) timed (pos 3000000))
    × (key_ttl (pos 30) timed (pos 3000000) ≤ℤ billion (pos 30))
    × (pos 0 <ℤ pos 20 → pos 3000000 +ℤ key_ttl (pos 30) timed (pos 3000000) ≤ℤ million (pos 20))
    × (pos 20 ≤ℤ pos 0 → key_ttl (pos 30) timed (pos 3000000) ≡ billion (pos 30))
key_ttl_bounds_example = key_ttl_bounds (pos 30) timed (pos 3000000) usable (omega arith)
