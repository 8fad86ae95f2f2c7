-- ===== src/Sdk/Error/Sentinels.antt =====
-- The way of an error from the services of fp over gRPC to the callers of the SDK.
use fp.Common.{
  String, true, List, [], ◌∷◌, Option, none, some, ◌≡◌, ◌≢◌, refl, ap, ◌∙◌, arith, eq_iff,
}
use fp.Common.GoMap.{GoMap}
use fp.Errors.Codes.{Sentinel}
use fp.Errors.Transport.{
  DomainError, GoError, GrpcCode, GrpcStatus, ErrorBody, as_domain, code_for, status_from,
}
use fp.Sdk.Error.{
  RpcCode, RpcError, ErrorDetail, SdkSentinel, structured, first_detail, sentinel_of, error_from,
  translate,
}

-- The codes that fp sends, as the client of gRPC reads them.
abbrev pub wire_code : GrpcCode → RpcCode
wire_code GrpcCode.canceled = RpcCode.canceled
wire_code GrpcCode.invalid_argument = RpcCode.invalid_argument
wire_code GrpcCode.deadline_exceeded = RpcCode.deadline_exceeded
wire_code GrpcCode.not_found = RpcCode.not_found
wire_code GrpcCode.already_exists = RpcCode.already_exists
wire_code GrpcCode.permission_denied = RpcCode.permission_denied
wire_code GrpcCode.resource_exhausted = RpcCode.resource_exhausted
wire_code GrpcCode.internal = RpcCode.internal
wire_code GrpcCode.unauthenticated = RpcCode.unauthenticated

-- A detail, with its map as the text that `encode` (JSON) makes of it.
abbrev pub wire_detail : (GoMap String → String) → ErrorBody → ErrorDetail
wire_detail encode b = record { code = b.code; msg = b.msg; detail = encode b.detail }

abbrev pub wire_details : (GoMap String → String) → Option ErrorBody → List (Option ErrorDetail)
wire_details encode none = []
wire_details encode (some b) = some (wire_detail encode b) ∷ []

abbrev pub wire : (GoMap String → String) → GrpcStatus → RpcError
wire encode st = record { code = wire_code st.code; details = wire_details encode st.details }

-- The sentinel of the SDK for each one of the services.
abbrev pub sdk_sentinel : Sentinel → Option SdkSentinel
sdk_sentinel Sentinel.not_found = some SdkSentinel.unauthorized
sdk_sentinel Sentinel.invalid_credential = some SdkSentinel.unauthorized
sdk_sentinel Sentinel.unauthorized = some SdkSentinel.unauthorized
sdk_sentinel Sentinel.forbidden = some SdkSentinel.unauthorized
sdk_sentinel Sentinel.conflict = none
sdk_sentinel Sentinel.invalid_argument = some SdkSentinel.invalid_argument
sdk_sentinel Sentinel.rate_limited = some SdkSentinel.rate_limited
sdk_sentinel Sentinel.internal = some SdkSentinel.unavailable

sentinel_of-code_for : (s : Sentinel) → sentinel_of (wire_code (code_for s)) ≡ sdk_sentinel s
unfolding sentinel_of code_for
sentinel_of-code_for Sentinel.not_found = refl
sentinel_of-code_for Sentinel.invalid_credential = refl
sentinel_of-code_for Sentinel.unauthorized = refl
sentinel_of-code_for Sentinel.forbidden = refl
sentinel_of-code_for Sentinel.conflict = refl
sentinel_of-code_for Sentinel.invalid_argument = refl
sentinel_of-code_for Sentinel.rate_limited = refl
sentinel_of-code_for Sentinel.internal = refl

translate-detail :
    (err : RpcError) (d : ErrorDetail)
    → err.details ≡ some d ∷ []
    → d.code ≢ ""
    → translate err ≡ structured d (sentinel_of err.code) err
unfolding translate error_from first_detail
translate-detail err d h full = ground (arith, eq_iff d.code "")

status_from-domain :
    (e : GoError) (de : DomainError)
    → as_domain e ≡ some de
    → status_from true e ≡ record {
      code = code_for de.sentinel;
      msg = de.msg;
      details = some (record { code = de.code; msg = de.msg; detail = de.detail });
    }
unfolding status_from
status_from-domain e de h = rw (h, status_from) refl

-- A domain error that a service returns, however often it is wrapped on the way, reaches the caller
-- of the SDK whole, if its code is not empty and gRPC attaches its details: with its code, its
-- message, its details as encoded, and the sentinel of the SDK that belongs to its own.
pub domain_error_reaches_sdk :
    (encode : GoMap String → String) (e : GoError) (de : DomainError)
    → as_domain e ≡ some de
    → de.code ≢ ""
    → (translate (wire encode (status_from true e))
        ≡ structured
            (record { code = de.code; msg = de.msg; detail = encode de.detail })
            (sdk_sentinel de.sentinel)
            (wire encode (status_from true e)))
domain_error_reaches_sdk encode e de h full =
    let sent = status_from-domain e de h in
    let err = wire encode (status_from true e) in
    let d : ErrorDetail = record { code = de.code; msg = de.msg; detail = encode de.detail } in
    translate-detail err d (ap (λ st. wire_details encode st.details) sent) full
    ∙ ap (λ x. structured d x err)
        (ap (λ st. sentinel_of (wire_code st.code)) sent ∙ sentinel_of-code_for de.sentinel)
