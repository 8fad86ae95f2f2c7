-- ===== src/Errors/Transport.antt =====
-- A domain error, and what the two transports answer for an error.
use fp.Common.{String, ℕ, Bool, true, false, [], Option, none, some, if◌then◌else◌}
use fp.Common.GoMap.{GoMap, insert}
use fp.Errors.Codes.{Sentinel}

-- `domain.Error`. The values of `Detail` are texts in the model; JSON encoding is left out, since
-- it belongs to the standard library, so a detail travels as the map itself.
pub record DomainError : Type 0 where
  pub code : String
  pub msg : String
  pub detail : GoMap String
  pub sentinel : Sentinel

unfoldable pub fail : Sentinel → String → String → DomainError
fail sentinel code msg = record { code = code; msg = msg; detail = []; sentinel = sentinel }

-- `WithField` writes into the map of the error in place and returns the error.
unfoldable pub with_field : String → String → DomainError → DomainError
with_field key value e = record e { detail = insert key value e.detail }

unfoldable pub with_desc : String → DomainError → DomainError
unfolding with_field
with_desc desc e = with_field "desc" desc e

-- A Go error as the transports see it: one of the program's own, a wrapping by `fmt.Errorf` with
-- `%w`, the two context errors, or any other with its text.
pub data GoError : Type 0 where
  domain : DomainError → GoError
  wrapped : String → GoError → GoError
  canceled deadline_exceeded : GoError
  other : String → GoError

-- `errors.As(err, &de)` for a `*domain.Error`.
unfoldable pub as_domain : GoError → Option DomainError
as_domain (domain e) = some e
as_domain (wrapped _ e) = as_domain e
as_domain GoError.canceled = none
as_domain GoError.deadline_exceeded = none
as_domain (other _) = none

-- `errors.Is(err, context.Canceled)`
unfoldable pub is_canceled : GoError → Bool
is_canceled GoError.canceled = true
is_canceled (wrapped _ e) = is_canceled e
is_canceled _ = false

unfoldable pub is_deadline_exceeded : GoError → Bool
is_deadline_exceeded GoError.deadline_exceeded = true
is_deadline_exceeded (wrapped _ e) = is_deadline_exceeded e
is_deadline_exceeded _ = false

-- `errors.Is(err, domain.ErrNotFound)`
unfoldable pub is_not_found : GoError → Bool
unfolding as_domain
is_not_found err = elim (as_domain err) [
  | none ↦ false
  | some de ↦ elim de.sentinel [ Sentinel.not_found ↦ true | _ ↦ false ]
]

-- `httpapi.StatusFor`
unfoldable pub status_for : Sentinel → ℕ
status_for Sentinel.not_found = 404
status_for Sentinel.invalid_credential = 401
status_for Sentinel.unauthorized = 401
status_for Sentinel.forbidden = 403
status_for Sentinel.conflict = 409
status_for Sentinel.invalid_argument = 400
status_for Sentinel.rate_limited = 429
status_for Sentinel.internal = 500

-- The codes of package google.golang.org/grpc/codes that fp uses.
pub data GrpcCode : Type 0 where
  canceled invalid_argument deadline_exceeded not_found already_exists : GrpcCode
  permission_denied resource_exhausted internal unauthenticated : GrpcCode

-- `grpcapi.CodeFor`
unfoldable pub code_for : Sentinel → GrpcCode
code_for Sentinel.not_found = GrpcCode.not_found
code_for Sentinel.invalid_credential = GrpcCode.unauthenticated
code_for Sentinel.unauthorized = GrpcCode.unauthenticated
code_for Sentinel.forbidden = GrpcCode.permission_denied
code_for Sentinel.conflict = GrpcCode.already_exists
code_for Sentinel.invalid_argument = GrpcCode.invalid_argument
code_for Sentinel.rate_limited = GrpcCode.resource_exhausted
code_for Sentinel.internal = GrpcCode.internal

-- The three parts that both transports send for an error.
pub record ErrorBody : Type 0 where
  pub code : String
  pub msg : String
  pub detail : GoMap String

abbrev pub internal_msg : String
internal_msg = "服务器内部错误"

-- `httpapi.writeError`: the status and the body.
unfoldable pub write_error : GoError → ℕ × ErrorBody
unfolding status_for as_domain
write_error err = elim (as_domain err) [
  | none ↦ (500, record { code = "INTERNAL"; msg = internal_msg; detail = [] })
  | some de ↦ (status_for de.sentinel, record { code = de.code; msg = de.msg; detail = de.detail })
]

-- A gRPC status: the code, the message, and the `ErrorDetail` if there is one.
pub record GrpcStatus : Type 0 where
  pub code : GrpcCode
  pub msg : String
  pub details : Option ErrorBody

plain : GrpcCode → String → GrpcStatus
plain code msg = record { code = code; msg = msg; details = none }

-- `grpcapi.StatusFrom` for an error. Attaching the details, `WithDetails`, is a call of the gRPC
-- library: `attached` says whether it succeeds.
unfoldable pub status_from : Bool → GoError → GrpcStatus
unfolding code_for as_domain is_canceled is_deadline_exceeded plain
status_from attached err = elim (as_domain err) [
  | none ↦
      if is_canceled err
      then plain GrpcCode.canceled "请求已取消"
      else if is_deadline_exceeded err
      then plain GrpcCode.deadline_exceeded "请求超时"
      else plain GrpcCode.internal internal_msg
  | some de ↦
      let body : ErrorBody = record { code = de.code; msg = de.msg; detail = de.detail } in
      record {
        code = code_for de.sentinel;
        msg = de.msg;
        details = if attached then some body else none;
      }
]
