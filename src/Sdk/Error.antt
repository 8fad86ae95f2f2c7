-- ===== src/Sdk/Error.antt =====
-- The errors of the SDK: the sentinels of sdk/auth.go, sdk/error.go and `translate`. An error of a
-- call of fp is the status that the gRPC library reports for it. The log is left out.
mod Tests
pub mod Sentinels
use fp.Common.{
  String, Bool, true, false, ◌||◌, List, [], ◌∷◌, Option, none, some, ◌==◌, if◌then◌else◌,
}

-- Package google.golang.org/grpc/codes.
pub data RpcCode : Type 0 where
  canceled unknown invalid_argument deadline_exceeded not_found already_exists : RpcCode
  permission_denied resource_exhausted failed_precondition aborted out_of_range : RpcCode
  unimplemented internal unavailable data_loss unauthenticated : RpcCode

-- `fpv1.ErrorDetail`
pub record ErrorDetail : Type 0 where
  pub code : String
  pub msg : String
  pub detail : String

-- A failed call. A detail of another type is `none`; an error that is no status has the code
-- `unknown` and no details.
pub record RpcError : Type 0 where
  pub code : RpcCode
  pub details : List (Option ErrorDetail)

-- `ErrNoToken` and the variables after it.
pub data SdkSentinel : Type 0 where
  no_token unauthorized unavailable invalid_argument rate_limited forbidden : SdkSentinel
  body_too_large : SdkSentinel

-- The errors that the SDK returns: a bare sentinel, an `*Error`, an `errors.Join` of a sentinel and
-- the error of the call, that error itself, an `*AccessKeyError` with its `StringToSign`, and an
-- `errors.Join` of a sentinel and an error of the SDK itself.
pub data SdkError : Type 0 where
  bare : SdkSentinel → SdkError
  structured : ErrorDetail → Option SdkSentinel → RpcError → SdkError
  joined : SdkSentinel → RpcError → SdkError
  foreign : RpcError → SdkError
  access_key_error : SdkSentinel → String → String → String → SdkError
  joined_own : SdkSentinel → String → SdkError

-- The loop of `errorFrom`: the first detail that carries a code.
unfoldable pub first_detail : List (Option ErrorDetail) → Option ErrorDetail
first_detail [] = none
first_detail (none ∷ ds) = first_detail ds
first_detail (some d ∷ ds) = if d.code == "" then first_detail ds else some d

-- The switch of `translate`.
unfoldable pub sentinel_of : RpcCode → Option SdkSentinel
sentinel_of RpcCode.unauthenticated = some SdkSentinel.unauthorized
sentinel_of RpcCode.permission_denied = some SdkSentinel.unauthorized
sentinel_of RpcCode.not_found = some SdkSentinel.unauthorized
sentinel_of RpcCode.unavailable = some SdkSentinel.unavailable
sentinel_of RpcCode.deadline_exceeded = some SdkSentinel.unavailable
sentinel_of RpcCode.internal = some SdkSentinel.unavailable
sentinel_of RpcCode.invalid_argument = some SdkSentinel.invalid_argument
sentinel_of RpcCode.resource_exhausted = some SdkSentinel.rate_limited
sentinel_of _ = none

-- `errorFrom`; nil is `none`.
unfoldable pub error_from : RpcError → Option SdkSentinel → Option SdkError
error_from err sentinel = elim (first_detail err.details) [
  | none ↦ none
  | some d ↦ some (structured d sentinel err)
]

unfoldable pub flat_error : RpcError → Option SdkSentinel → SdkError
flat_error err none = foreign err
flat_error err (some s) = joined s err

-- `translate` of an error.
unfoldable pub translate : RpcError → SdkError
translate err = elim (error_from err (sentinel_of err.code)) [
  | none ↦ flat_error err (sentinel_of err.code)
  | some e ↦ e
]

-- The sentinel that `errors.Is` finds on the chain of an error.
unfoldable pub sentinel_on : SdkError → Option SdkSentinel
sentinel_on (bare s) = some s
sentinel_on (structured _ s _) = s
sentinel_on (joined s _) = some s
sentinel_on (foreign _) = none
sentinel_on (access_key_error s _ _ _) = some s
sentinel_on (joined_own s _) = some s
