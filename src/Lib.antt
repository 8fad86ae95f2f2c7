-- ===== src/Lib.antt =====
-- A verification library for fp, an identity, session and authorisation service with an SDK for
-- the applications that use it.
--
-- Parts of the program and how they interact. A login issues a session token, which the session
-- service (internal/service/session.go) keeps in Redis through the session store
-- (internal/store/session.go, internal/store/epoch.go). Applications check tokens, and the check
-- may extend or rotate the session; they cache the judgement for as long as the server says. A
-- revocation deletes sessions and announces their tokens to the applications. Whether a request
-- passes is decided by the authorisation kernel (sdk/authzcore/authzcore.go), on the server as in
-- the SDK, over a policy table that the server compiles from roles, their parents and their grants
-- (internal/service/policy.go). Every failure is a domain error (internal/domain/error.go,
-- internal/domain/codes.go) that the two transports (internal/httpapi/respond.go,
-- internal/grpcapi/errors.go) turn into a response. Administrators change roles
-- (internal/service/authz.go). The SDK refuses signed requests whose nonce it has seen
-- (sdk/nonce.go). Third parties sign requests with access keys (sdk/aksign/aksign.go), which the
-- SDK checks (sdk/accesskey.go) with the material that the server resolves for it
-- (internal/service/accesskey.go); it caches judgements and keys alike (sdk/cache.go). The
-- messaging gateway picks the node that serves a key (internal/im/rendezvous/rendezvous.go).
-- Notifications follow templates, which are checked when they are written
-- (internal/notify/render.go).
--
-- Common: Go maps, lists, signed integers and Boolean tests. Common/Int.antt holds the integers of
-- the model, Common/GoMap.antt its maps.
-- Authz/Core.antt: RolePolicy, Snapshot, Compile, AllowWith, Allow of sdk/authzcore/authzcore.go,
-- with `allow_with` for AllowWith. Authz/Core/Decision.antt and Authz/Core/Rule.antt: what is
-- decided.
-- Authz/Policy.antt: roleGraph, effectiveFor and CompilePolicy of internal/service/policy.go over
-- the rows that the queries return. Authz/Policy/Inherit.antt is about inheritance,
-- Authz/Policy/Table.antt about the compiled table.
-- Authz/Roles.antt: CreateRole, UpdateRole, DeleteRole and EffectiveRoles of
-- internal/service/authz.go over tables. Authz/Roles/Hierarchy.antt is about parents,
-- Authz/Roles/Removal.antt about deleted roles and the roles of a session.
-- Errors/Codes.antt: the codes and their registry. Errors/Transport.antt: domain errors,
-- StatusFor, writeError, CodeFor and StatusFrom.
-- Session/Policy.antt: SessionPolicy, Session and the lifetimes of internal/domain/application.go
-- and internal/domain/session.go. Session/Redis.antt: the commands of Redis as an interface with
-- laws, and Session/Memory.antt an implementation of it. Session/Monad.antt: calls that may fail.
-- Session/Store.antt: SessionStore and EpochStore.Current, with Session/Store/Listed.antt on the
-- index of a user's sessions. Session/Service.antt: Issue, Validate and ListByUser.
-- Session/Revoke.antt: the revoking operations and their events.
-- Sdk/Lru.antt: the lru package as an interface with laws. Sdk/Cache.antt: cache of sdk/cache.go
-- with put_if_gen for putIfGen and get_entry for get, as calls with nothing in between.
-- Sdk/Cache/Journal.antt is the step relation of the parts of these calls in any order, with
-- requests to fp and writes under way, and Sdk/Cache/Calls.antt relates the two.
-- Sdk/Error.antt: translate of sdk/auth.go and errorFrom of sdk/error.go.
-- Sdk/Authz.antt: Allow, AllowRoles and setPolicy of sdk/authz.go. Sdk/Validate.antt: Validate,
-- onRevoke, onPurge and Logout of sdk/auth.go. Sdk/Sign.antt:
-- sdk/aksign/aksign.go. Sdk/AccessKey.antt: verifyAccessKey and accessKey of sdk/accesskey.go.
-- Sdk/Watch.antt: watchOnce and the delays of runWatch of sdk/client.go.
-- Keys.antt: internal/service/accesskey.go and internal/domain/accesskey.go over a table, with
-- resolve_key for Resolve; Keys/Lifecycle.antt is about the rows, Keys/Outcomes.antt and
-- Keys/Resolve.antt about what is given out.
-- Common/Decimal.antt and Common/Hex.antt: strconv and encoding/hex as the SDK uses them.
-- Sdk/Nonce.antt: the table of nonces of sdk/nonce.go. Im/Rendezvous.antt: Pick of
-- internal/im/rendezvous/rendezvous.go. Common/Text.antt: Go's order of texts.
-- Notify/Template.antt: ExtractPlaceholders, ValidateParams and ValidateContent of
-- internal/notify/render.go with the channels of internal/domain/notify.go, its regular
-- expressions in Notify/Template/Placeholders.antt. The test of a JSON sample is a parameter.
--
-- State and time. A call of the program is a function from the database to a result and the
-- database it leaves; what was written before an error stays written. The clock, random tokens and
-- new ids are arguments. Keys expire between calls, not during one. Times and durations are
-- milliseconds as unbounded integers, nanoseconds in the SDK and for access keys;
-- Session/Policy/Lifetime.antt is about the bounds of int64.
-- Redis may fail at any command; its laws say that replies tell what stands in the database and
-- that a write changes what it names and nothing else.
--
-- Bounds and fuel. The loop that slices tokens into events and the one that cuts a list into
-- batches run on one round of fuel for each element and one more. The loops over the parents of a
-- role are bounded by 64 in the source too. The decimal text of an integer of 64 bits is made in 20
-- rounds, one for each digit.
--
-- Not modelled: SQL and the transports beyond their mapping of errors, the messaging gateway
-- beyond the choice of a node, the connectors to identity providers, the delivery of
-- notifications, the SDK's client and its connection to fp. They are calls of libraries for the
-- larger part,
-- or parts that this library has not reached. Go's order of iteration over a map is open; the
-- model takes the order of the list. Logging is left out, and so are the parameters inside the
-- texts of refusals.
pub mod Common
pub mod Authz
pub mod Errors
pub mod Im
pub mod Keys
pub mod Notify
pub mod Sdk
pub mod Session
