-- ===== src/Sdk/Error/Tests.antt =====
-- An error on its way to a caller of the SDK.
use fp.Common.{String, [], ◌∷◌, some, ◌≡◌, refl, arith, eq_iff, true}
use fp.Common.GoMap.{GoMap}
use fp.Errors.Codes.{Sentinel}
use fp.Errors.Transport.{DomainError, GoError, domain, wrapped, as_domain, status_from}
use fp.Sdk.Error.{translate, structured}
use fp.Sdk.Error.Sentinels.{wire, sdk_sentinel, domain_error_reaches_sdk}

abbrev frozen : DomainError
frozen = record {
  code = "ACCOUNT_FROZEN";
  msg = "frozen";
  detail = ("desc", "u1") ∷ [];
  sentinel = Sentinel.forbidden;
}

abbrev encode : GoMap String → String
encode [] = "{}"
encode ((k, v) ∷ m) = v

abbrev returned : GoError
returned = wrapped "login" (domain frozen)

carries : as_domain returned ≡ some frozen
unfolding as_domain
carries = refl

domain_error_reaches_sdk_example :
    translate (wire encode (status_from true returned))
    ≡ structured
        (record { code = "ACCOUNT_FROZEN"; msg = "frozen"; detail = "u1" })
        (sdk_sentinel Sentinel.forbidden)
        (wire encode (status_from true returned))
domain_error_reaches_sdk_example =
    domain_error_reaches_sdk encode returned frozen carries
      (λ h. ground (arith, eq_iff "ACCOUNT_FROZEN" ""))
