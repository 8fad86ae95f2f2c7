-- ===== src/Session/Policy.antt =====
-- The session policy of an application and the lifetime of a session: `SessionPolicy` of
-- internal/domain/application.go, `Session` of internal/domain/session.go, and `GraceDuration` and
-- `cacheTTL` of internal/service/session.go. Times are milliseconds since 1970, and a duration is
-- its number of milliseconds: every duration here is a whole number of them. The integers do not
-- wrap; Session/Policy/Lifetime.antt is about their bounds.
pub mod Lifetime
use fp.Common.{String, Bool, true, false, ◌&&◌, List, [], ◌∷◌, Option, none, some, if◌then◌else◌}
use fp.Common.Int.{ℤ, pos, ◌+ℤ◌, ◌-ℤ◌, thousand, ltb_ℤ, leb_ℤ, min_ℤ, max_ℤ}

-- The fields are int32 seconds.
pub record SessionPolicy : Type 0 where
  pub idle_timeout_seconds : ℤ
  pub idle_timeout_mobile_seconds : ℤ
  pub max_lifetime_seconds : ℤ
  pub rotate_interval_seconds : ℤ
  pub extend_interval_seconds : ℤ
  pub token_cache_ttl_seconds : ℤ

unfoldable pub default_session_policy : SessionPolicy
default_session_policy = record {
  idle_timeout_seconds = pos 604800;
  idle_timeout_mobile_seconds = pos 2592000;
  max_lifetime_seconds = pos 7776000;
  rotate_interval_seconds = pos 86400;
  extend_interval_seconds = pos 600;
  token_cache_ttl_seconds = pos 30;
}

-- The message of each refusal; the sentinel and the code are the same for all.
pub data PolicyError : Type 0 where
  idle_timeout idle_timeout_mobile max_lifetime rotate_interval extend_interval : PolicyError
  token_cache_ttl rotate_over_lifetime extend_over_idle cache_over_idle : PolicyError

-- `SessionPolicy.Validate`; `none` is nil.
unfoldable pub validate_policy : SessionPolicy → Option PolicyError
validate_policy p =
    if leb_ℤ p.idle_timeout_seconds (pos 0)
    then some idle_timeout
    else if ltb_ℤ p.idle_timeout_mobile_seconds (pos 0)
    then some idle_timeout_mobile
    else if leb_ℤ p.max_lifetime_seconds (pos 0)
    then some max_lifetime
    else if leb_ℤ p.rotate_interval_seconds (pos 0)
    then some rotate_interval
    else if leb_ℤ p.extend_interval_seconds (pos 0)
    then some extend_interval
    else if leb_ℤ p.token_cache_ttl_seconds (pos 0)
    then some token_cache_ttl
    else if ltb_ℤ p.max_lifetime_seconds p.rotate_interval_seconds
    then some rotate_over_lifetime
    else if leb_ℤ p.idle_timeout_seconds p.extend_interval_seconds
    then some extend_over_idle
    else if ltb_ℤ p.idle_timeout_seconds p.token_cache_ttl_seconds
    then some cache_over_idle
    else none

unfoldable pub idle_timeout_for : SessionPolicy → Bool → ℤ
idle_timeout_for p mobile =
    if mobile && ltb_ℤ (pos 0) p.idle_timeout_mobile_seconds
    then thousand p.idle_timeout_mobile_seconds
    else thousand p.idle_timeout_seconds

unfoldable pub rotate_interval_of : SessionPolicy → ℤ
rotate_interval_of p = thousand p.rotate_interval_seconds

unfoldable pub extend_interval_of : SessionPolicy → ℤ
extend_interval_of p = thousand p.extend_interval_seconds

-- Ids are uuids in the source, and texts in the model.
pub record Session : Type 0 where
  pub id : String
  pub token : String
  pub user_id : String
  pub app_id : String
  pub first_auth_at : ℤ
  pub issued_at : ℤ
  pub last_extended_at : ℤ
  pub idle_expires_at : ℤ
  pub ip : String
  pub ua : String
  pub mobile : Bool
  pub roles : List String
  pub epoch : ℤ

unfoldable pub max_expires_at : Session → SessionPolicy → ℤ
max_expires_at s p = s.first_auth_at +ℤ thousand p.max_lifetime_seconds

unfoldable pub remaining_at : Session → ℤ → SessionPolicy → ℤ
remaining_at s now p =
    let remain = min_ℤ (s.idle_expires_at -ℤ now) (max_expires_at s p -ℤ now) in
    if leb_ℤ remain (pos 0) then pos 0 else remain

abbrev pub min_rotate_grace : ℤ
min_rotate_grace = pos 15000

unfoldable pub grace_duration : SessionPolicy → ℤ
grace_duration p = max_ℤ min_rotate_grace (thousand p.token_cache_ttl_seconds)

unfoldable pub cache_ttl : ℤ → SessionPolicy → ℤ
cache_ttl remaining p = min_ℤ (thousand p.token_cache_ttl_seconds) remaining
