-- ===== src/Errors/Registry.antt =====
-- The registry of internal/domain/codes.go, and the responses of internal/httpapi/respond.go and
-- internal/grpcapi/errors.go side by side.
use fp.Common.{
  String, ℕ, Bool, true, false, List, [], ◌∷◌, Option, none, some, ◌≡◌, refl, arith, inl, inr, ◌&&◌,
  subst, ap, sym, ◌∙◌, if◌then◌else◌,
}
use fp.Common.Lists.{In, contains, contains_iff}
use fp.Errors.Codes.{Sentinel, declared_codes, sentinel_for, all_codes}
use fp.Errors.Transport.{
  DomainError, GoError, domain, wrapped, other, as_domain, is_canceled, is_deadline_exceeded,
  status_for, GrpcCode, code_for, ErrorBody, write_error, status_from,
}

is_some : {A : Type 0} → Option A → Bool
is_some none = false
is_some (some _) = true

value_of_is_some : {A : Type 0} (o : Option A) → is_some o ≡ true → (a : A) × (o ≡ some a)
unfolding is_some
value_of_is_some none h = cc
value_of_is_some (some a) h = (a, refl)

registered : String → Bool
registered c = is_some (sentinel_for c)

all_true : (String → Bool) → List String → Bool
all_true q [] = true
all_true q (c ∷ cs) = q c && all_true q cs

all_true-In :
    (q : String → Bool) (c : String) (cs : List String)
    → all_true q cs ≡ true
    → In c cs
    → q c ≡ true
unfolding all_true
all_true-In q c [] h m = elim m [ ]
all_true-In q c (x ∷ cs) h (inl e) = subst (λ y. q y ≡ true) e (ground arith)
all_true-In q c (x ∷ cs) h (inr m) = all_true-In q c cs (ground arith) m

declared_table : all_true registered declared_codes ≡ true
unfolding all_true registered is_some sentinel_for declared_codes
declared_table = refl

registered_table : all_true (contains declared_codes) all_codes ≡ true
unfolding all_true all_codes declared_codes
registered_table = refl

registered-sentinel_for :
    (c : String) → registered c ≡ true → (s : Sentinel) × (sentinel_for c ≡ some s)
unfolding registered
registered-sentinel_for c h = value_of_is_some (sentinel_for c) h

-- Every code that is declared has a sentinel in the registry, and every code of the registry is
-- declared.
pub registry_complete :
    (c : String)
    → (In c declared_codes → (s : Sentinel) × (sentinel_for c ≡ some s))
      × (In c all_codes → In c declared_codes)
registry_complete c = (
  λ m. registered-sentinel_for c (all_true-In registered c declared_codes declared_table m),
  λ m.
      (contains_iff declared_codes c).0
        (all_true-In (contains declared_codes) c all_codes registered_table m),
)

-- The HTTP status that the gRPC documentation gives for a code.
abbrev pub http_of : GrpcCode → ℕ
http_of GrpcCode.canceled = 499
http_of GrpcCode.invalid_argument = 400
http_of GrpcCode.deadline_exceeded = 504
http_of GrpcCode.not_found = 404
http_of GrpcCode.already_exists = 409
http_of GrpcCode.permission_denied = 403
http_of GrpcCode.resource_exhausted = 429
http_of GrpcCode.internal = 500
http_of GrpcCode.unauthenticated = 401

http_of-code_for : (s : Sentinel) → http_of (code_for s) ≡ status_for s
unfolding code_for status_for
http_of-code_for s = ground arith

-- A domain error under any number of wrappings.
pub data Carries : GoError → DomainError → Type 0 where
  itself : (de : DomainError) → Carries (domain de) de
  inside :
      {err : GoError} {de : DomainError} (text : String)
      → Carries err de
      → Carries (wrapped text err) de

Carries-as_domain : {err : GoError} {de : DomainError} → Carries err de → as_domain err ≡ some de
unfolding as_domain
Carries-as_domain (itself de) = refl
Carries-as_domain (inside text c) = Carries-as_domain c

-- What a client of either transport gets to see of a domain error.
abbrev pub body_of : DomainError → ErrorBody
body_of de = record { code = de.code; msg = de.msg; detail = de.detail }

-- For an error that carries a domain error, under any number of wrappings, both transports send the
-- message of the domain error, HTTP sends its code and detail, and gRPC sends the same code and
-- detail unless the gRPC library fails to attach them to the status, which then goes without; in
-- either case the gRPC code stands for the HTTP status, and both for the sentinel of the error.
pub transports_agree :
    (err : GoError) (de : DomainError) (attached : Bool)
    → Carries err de
    → (write_error err ≡ (http_of (status_from attached err).code, body_of de))
      × ((status_from attached err).code ≡ code_for de.sentinel)
      × ((status_from attached err).msg ≡ de.msg)
      × ((status_from attached err).details ≡ (if attached then some (body_of de) else none))
unfolding write_error status_from
transports_agree err de attached c =
    let h = Carries-as_domain c in
    rw (h, write_error, status_from)
      (ap (λ n. (n, body_of de)) (sym (http_of-code_for de.sentinel)), refl, refl, refl)

-- The error with the texts of its wrappings, and of an error that is not the program's own, erased.
abbrev pub erase_texts : GoError → GoError
erase_texts (domain de) = domain de
erase_texts (wrapped _ err) = wrapped "" (erase_texts err)
erase_texts GoError.canceled = GoError.canceled
erase_texts GoError.deadline_exceeded = GoError.deadline_exceeded
erase_texts (other _) = other ""

as_domain-erase_texts : (err : GoError) → as_domain (erase_texts err) ≡ as_domain err
unfolding as_domain
as_domain-erase_texts (domain de) = refl
as_domain-erase_texts (wrapped _ err) = as_domain-erase_texts err
as_domain-erase_texts GoError.canceled = refl
as_domain-erase_texts GoError.deadline_exceeded = refl
as_domain-erase_texts (other _) = refl

is_canceled-erase_texts : (err : GoError) → is_canceled (erase_texts err) ≡ is_canceled err
unfolding is_canceled
is_canceled-erase_texts (domain de) = refl
is_canceled-erase_texts (wrapped _ err) = is_canceled-erase_texts err
is_canceled-erase_texts GoError.canceled = refl
is_canceled-erase_texts GoError.deadline_exceeded = refl
is_canceled-erase_texts (other _) = refl

is_deadline_exceeded-erase_texts :
    (err : GoError) → is_deadline_exceeded (erase_texts err) ≡ is_deadline_exceeded err
unfolding is_deadline_exceeded
is_deadline_exceeded-erase_texts (domain de) = refl
is_deadline_exceeded-erase_texts (wrapped _ err) = is_deadline_exceeded-erase_texts err
is_deadline_exceeded-erase_texts GoError.canceled = refl
is_deadline_exceeded-erase_texts GoError.deadline_exceeded = refl
is_deadline_exceeded-erase_texts (other _) = refl

-- The texts of wrappings and of foreign errors, which may hold addresses and secrets, have no
-- influence on any response: two errors that differ in these texts only get the same status and body
-- over HTTP, and the same code, message and details over gRPC.
pub texts_stay_inside :
    (err err' : GoError) (attached : Bool)
    → erase_texts err ≡ erase_texts err'
    → (write_error err ≡ write_error err') × (status_from attached err ≡ status_from attached err')
unfolding write_error status_from
texts_stay_inside err err' attached h =
    let d = sym (as_domain-erase_texts err) ∙ ap as_domain h ∙ as_domain-erase_texts err' in
    let c = sym (is_canceled-erase_texts err) ∙ ap is_canceled h ∙ is_canceled-erase_texts err' in
    let t =
      sym (is_deadline_exceeded-erase_texts err)
      ∙ ap is_deadline_exceeded h
      ∙ is_deadline_exceeded-erase_texts err' in
    (rw (d, write_error) refl, ground arith)
