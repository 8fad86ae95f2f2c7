-- ===== src/Errors/Tests.antt =====
-- A domain error and a foreign error on their way to a response.
use fp.Common.{true, [], ◌∷◌, some, ◌≡◌, refl}
use fp.Errors.Codes.{Sentinel}
use fp.Errors.Transport.{
  DomainError, GoError, domain, wrapped, other, code_for, status_from, write_error, fail,
  with_field,
}
use fp.Errors.Registry.{http_of, itself, inside, body_of, transports_agree, texts_stay_inside}

abbrev short : DomainError
short = record {
  code = "PASSWORD_TOO_SHORT";
  msg = "密码太短";
  detail = ("field", "password") ∷ [];
  sentinel = Sentinel.invalid_argument;
}

short_is_built :
    with_field "field" "password" (fail Sentinel.invalid_argument "PASSWORD_TOO_SHORT" "密码太短")
    ≡ short
unfolding with_field fail
short_is_built = refl

transports_agree_example :
    let err = wrapped "service" (domain short) in
    (write_error err ≡ (http_of (status_from true err).code, body_of short))
    × ((status_from true err).code ≡ code_for Sentinel.invalid_argument)
    × ((status_from true err).msg ≡ "密码太短")
    × ((status_from true err).details ≡ some (body_of short))
transports_agree_example =
    transports_agree (wrapped "service" (domain short)) short true (inside "service" (itself short))

abbrev leak : GoError
leak = wrapped "service: 查询" (other "postgres://fp:secret@db")

abbrev harmless : GoError
harmless = wrapped "service" (other "no rows")

texts_stay_inside_example :
    (write_error leak ≡ write_error harmless) × (status_from true leak ≡ status_from true harmless)
texts_stay_inside_example = texts_stay_inside leak harmless true refl
