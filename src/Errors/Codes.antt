-- ===== src/Errors/Codes.antt =====
-- The error codes of internal/domain/codes.go, with the sentinels of internal/domain/errors.go.
use fp.Common.{String, List, [], ◌∷◌, Option}
use fp.Common.GoMap.{GoMap, lookup, keys}

-- The eight sentinel errors.
pub data Sentinel : Type 0 where
  not_found invalid_credential unauthorized conflict : Sentinel
  invalid_argument rate_limited forbidden internal : Sentinel

-- The values of the constants, in the order of their declaration.
unfoldable pub declared_codes : List String
declared_codes =
    "CREDENTIAL_INVALID" ∷ "CODE_INVALID" ∷ "ACCOUNT_FROZEN" ∷ "ACCOUNT_UNAVAILABLE"
    ∷ "TOKEN_INVALID" ∷ "APP_DISABLED" ∷ "APP_NOT_FOUND" ∷ "APP_CREDENTIAL_INVALID"
    ∷ "APP_MUST_BE_DISABLED" ∷ "CONNECTOR_DISABLED" ∷ "CONNECTOR_UNKNOWN" ∷ "RATE_LIMITED"
    ∷ "ADMIN_CREDENTIAL_INVALID" ∷ "ADMIN_DISABLED" ∷ "ADMIN_SESSION_INVALID"
    ∷ "ADMIN_OLD_PASSWORD_WRONG" ∷ "INVALID_ARGUMENT" ∷ "CONNECTOR_CONFIG_INVALID"
    ∷ "CONFIG_VALUE_INVALID" ∷ "CONFIG_TYPE_INVALID" ∷ "PHONE_INVALID" ∷ "PASSWORD_TOO_SHORT"
    ∷ "PASSWORD_TOO_LONG" ∷ "CODE_TAKEN" ∷ "UNION_KEY_CONFLICT" ∷ "CONNECTOR_ALREADY_REGISTERED"
    ∷ "CONFIG_VERSION_CONFLICT" ∷ "NICKNAME_INVALID" ∷ "AVATAR_INVALID" ∷ "ROLE_NOT_FOUND"
    ∷ "ROLE_CODE_TAKEN" ∷ "ROLE_CYCLE" ∷ "PERMISSION_NOT_FOUND" ∷ "PERMISSION_KEY_TAKEN"
    ∷ "PERMISSION_DENIED" ∷ "ACCESS_KEY_INVALID" ∷ "ACCESS_KEY_DISABLED" ∷ "ACCESS_KEY_EXPIRED"
    ∷ "ACCESS_KEY_NOT_FOUND" ∷ "ROLE_IN_USE" ∷ "ROLE_BUILTIN" ∷ "USER_NOT_FOUND"
    ∷ "IDENTITY_NOT_FOUND" ∷ "UNION_KEY_NOT_FOUND" ∷ "SESSION_NOT_FOUND"
    ∷ "CONNECTOR_NOT_CONFIGURED" ∷ "NOTIFY_PROVIDER_MISSING" ∷ "CONFIG_VERSION_NOT_FOUND"
    ∷ "AVATAR_NOT_FOUND" ∷ "NOTIFY_TEMPLATE_NOT_FOUND" ∷ "NOTIFY_TEMPLATE_DISABLED"
    ∷ "NOTIFY_TEMPLATE_CODE_TAKEN" ∷ "NOTIFY_TEMPLATE_INVALID" ∷ "NOTIFY_PARAMS_INVALID"
    ∷ "NOTIFY_RECIPIENT_INVALID" ∷ "NOTIFY_IN_PROGRESS" ∷ "NOTIFY_PROVIDER_NOT_FOUND"
    ∷ "NOTIFY_PROVIDER_IN_USE" ∷ "NOTIFY_PROVIDER_INVALID" ∷ "NOTIFY_LINK_INVALID"
    ∷ "NOTIFY_SEND_FAILED" ∷ "VERIFY_TEMPLATE_UNAVAILABLE" ∷ "OAUTH_STATE_INVALID"
    ∷ "OAUTH_TICKET_INVALID" ∷ "RETURN_URL_NOT_ALLOWED" ∷ "DESKTOP_MODE_DISABLED"
    ∷ "WECHAT_UPSTREAM_FAILED" ∷ "PUBLIC_URL_MISSING" ∷ "ROUTE_NOT_FOUND" ∷ "INTERNAL" ∷ []

-- The registry `codeSentinels`.
unfoldable pub code_sentinels : GoMap Sentinel
code_sentinels =
    ("CREDENTIAL_INVALID", invalid_credential)
    ∷ ("CODE_INVALID", invalid_credential)
    ∷ ("ACCOUNT_FROZEN", forbidden)
    ∷ ("ACCOUNT_UNAVAILABLE", forbidden)
    ∷ ("TOKEN_INVALID", unauthorized)
    ∷ ("APP_DISABLED", forbidden)
    ∷ ("APP_NOT_FOUND", not_found)
    ∷ ("APP_CREDENTIAL_INVALID", invalid_credential)
    ∷ ("APP_MUST_BE_DISABLED", conflict)
    ∷ ("CONNECTOR_DISABLED", forbidden)
    ∷ ("CONNECTOR_UNKNOWN", not_found)
    ∷ ("RATE_LIMITED", rate_limited)
    ∷ ("ADMIN_CREDENTIAL_INVALID", invalid_credential)
    ∷ ("ADMIN_DISABLED", forbidden)
    ∷ ("ADMIN_SESSION_INVALID", unauthorized)
    ∷ ("ADMIN_OLD_PASSWORD_WRONG", invalid_argument)
    ∷ ("INVALID_ARGUMENT", invalid_argument)
    ∷ ("CONNECTOR_CONFIG_INVALID", invalid_argument)
    ∷ ("CONFIG_VALUE_INVALID", invalid_argument)
    ∷ ("CONFIG_TYPE_INVALID", invalid_argument)
    ∷ ("PHONE_INVALID", invalid_argument)
    ∷ ("PASSWORD_TOO_SHORT", invalid_argument)
    ∷ ("PASSWORD_TOO_LONG", invalid_argument)
    ∷ ("CODE_TAKEN", conflict)
    ∷ ("UNION_KEY_CONFLICT", conflict)
    ∷ ("CONNECTOR_ALREADY_REGISTERED", conflict)
    ∷ ("CONFIG_VERSION_CONFLICT", conflict)
    ∷ ("NICKNAME_INVALID", invalid_argument)
    ∷ ("AVATAR_INVALID", invalid_argument)
    ∷ ("USER_NOT_FOUND", not_found)
    ∷ ("IDENTITY_NOT_FOUND", not_found)
    ∷ ("UNION_KEY_NOT_FOUND", not_found)
    ∷ ("SESSION_NOT_FOUND", not_found)
    ∷ ("CONNECTOR_NOT_CONFIGURED", not_found)
    ∷ ("NOTIFY_PROVIDER_MISSING", not_found)
    ∷ ("CONFIG_VERSION_NOT_FOUND", not_found)
    ∷ ("AVATAR_NOT_FOUND", not_found)
    ∷ ("ROUTE_NOT_FOUND", not_found)
    ∷ ("ROLE_NOT_FOUND", not_found)
    ∷ ("ROLE_CODE_TAKEN", conflict)
    ∷ ("ROLE_CYCLE", invalid_argument)
    ∷ ("PERMISSION_NOT_FOUND", not_found)
    ∷ ("PERMISSION_KEY_TAKEN", conflict)
    ∷ ("PERMISSION_DENIED", forbidden)
    ∷ ("ACCESS_KEY_INVALID", unauthorized)
    ∷ ("ACCESS_KEY_DISABLED", forbidden)
    ∷ ("ACCESS_KEY_EXPIRED", forbidden)
    ∷ ("ACCESS_KEY_NOT_FOUND", not_found)
    ∷ ("ROLE_IN_USE", conflict)
    ∷ ("ROLE_BUILTIN", invalid_argument)
    ∷ ("NOTIFY_TEMPLATE_NOT_FOUND", not_found)
    ∷ ("NOTIFY_TEMPLATE_DISABLED", forbidden)
    ∷ ("NOTIFY_TEMPLATE_CODE_TAKEN", conflict)
    ∷ ("NOTIFY_TEMPLATE_INVALID", invalid_argument)
    ∷ ("NOTIFY_PARAMS_INVALID", invalid_argument)
    ∷ ("NOTIFY_RECIPIENT_INVALID", invalid_argument)
    ∷ ("NOTIFY_IN_PROGRESS", conflict)
    ∷ ("NOTIFY_PROVIDER_NOT_FOUND", not_found)
    ∷ ("NOTIFY_PROVIDER_IN_USE", conflict)
    ∷ ("NOTIFY_PROVIDER_INVALID", invalid_argument)
    ∷ ("NOTIFY_LINK_INVALID", invalid_argument)
    ∷ ("NOTIFY_SEND_FAILED", internal)
    ∷ ("VERIFY_TEMPLATE_UNAVAILABLE", internal)
    ∷ ("OAUTH_STATE_INVALID", invalid_credential)
    ∷ ("OAUTH_TICKET_INVALID", invalid_credential)
    ∷ ("RETURN_URL_NOT_ALLOWED", invalid_argument)
    ∷ ("DESKTOP_MODE_DISABLED", forbidden)
    ∷ ("WECHAT_UPSTREAM_FAILED", internal)
    ∷ ("PUBLIC_URL_MISSING", internal)
    ∷ ("INTERNAL", internal)
    ∷ []

unfoldable pub sentinel_for : String → Option Sentinel
unfolding code_sentinels
sentinel_for code = lookup code code_sentinels

-- `AllCodes`: the keys of the registry.
unfoldable pub all_codes : List String
unfolding code_sentinels
all_codes = keys code_sentinels
