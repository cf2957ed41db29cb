-- ===== src/Lib.antt =====
-- OpenSSO: the single sign-on server (backend/, Go), with OAuth 2.0, OpenID Connect, second
-- factors and administration.
--
-- The server keeps users, sessions, applications, codes and tokens in PostgreSQL, counts requests
-- in Redis, and signs tokens with RSA keys that it keeps encrypted in PostgreSQL. Each HTTP
-- handler is a chain of statements with an early return on each error.
-- Prelude holds what all parts share: tests on numbers, tables as lists of rows, texts as lists
-- of code points. Store has a record for each table of backend/internal/database/migrations that
-- the modelled handlers use, and lemmas on updates.
-- Web models a handler: it reads the environment `Env`, changes the `World` (the database, the
-- state to roll back to, the signing keys, the Redis counters and WebAuthn ceremonies) and goes
-- on or returns. Any statement may fail and any read of the random source may fail, as the
-- environment says; a transaction restores the database unless it commits. Web/Limits is
-- `allowOAuthRequest` and `allowLogin`. Web/Rules and Web/Invariants have the rules for what
-- holds when a chain of statements ends and for what it keeps.
-- Scope is the pure functions on scopes and verifiers of backend/internal/httpapi/oauth.go:
-- `splitScope`, `mergeScopes`, `containsAll`, `verifyPKCE`. Keys is the key manager of
-- backend/internal/oidc/keys.go. Mfa is backend/internal/mfa and backend/internal/httpapi/mfa.go:
-- Policy, Recovery and Totp are service.go, Box is crypto.go, Owner and Webauthn are webauthn.go,
-- Handlers and Admin are the handlers. Session is `sessionPrincipal` and the guards
-- `withPrincipal` and `require` of backend/internal/httpapi/server.go. Login is `login` of
-- server.go. Password is `HashPassword` and `VerifyPassword` of
-- backend/internal/security/security.go. Policy and Users are the security policy and the
-- administration of users of backend/internal/httpapi/stage1.go. Audit is `audit` and `auditTx`
-- of backend/internal/httpapi/server.go.
-- Directory is `bootstrap` and `createUser` of server.go. Groups and Roles are the handlers of
-- server.go, groups.go and rbac.go, Portal is portal.go, and Applications is `createApplication`
-- of server.go, application_admin.go and applications.go, all in backend/internal/httpapi.
-- Applications/Uris is about the URIs that applications register. Listings is the listings of
-- server.go and stage1.go. Routes is the table of routes of server.go: `dispatch` maps a request,
-- as a route matches it, to its guarded handler. Middleware is the tests that stand before every
-- route.
-- Saml is backend/internal/samlidp and saml_admin.go: Requests and Subject are storage.go,
-- Certificates is certificates.go, Metadata and Runtime are runtime.go, Admin is the handlers,
-- and Calls is the calls with which github.com/zitadel/saml changes the storage. Branding is
-- branding.go, and Config is `Load` of backend/internal/config/config.go.
-- History is about sequences of requests. `Guarded` collects facts about the database that no
-- request undoes, `Keeps` has a rule for each kind of step, and one lemma for each handler says
-- that it keeps them, whichever of its calls fail. Requests defines a step (a request to any
-- route of the table, or a call of the SAML provider, with any environment) and reachability;
-- Replay, Answers and Once draw the consequences.
-- OAuth is the endpoints of oauth.go. Client: `loadOAuthClient` and `authenticateOAuthClient`.
-- Issue: `issueAccessToken`, `signIDToken`, `issueUserTokens`. Code: `authorizationCodeGrant`.
-- Refresh: `refreshTokenGrant`. Endpoints: `clientCredentialsGrant`, `tokenEndpoint`, `userinfo`.
-- Revocation: `revokeToken`, `introspectToken`. Authorize: `validateAuthorizationRequest`,
-- `authorize`, with the cases of the answer in Cases, Grants and Laws. Consent:
-- `authorizeConsent`. Logout: `oauthLogout`, `rotateSigningKey`. Verify: `parseAccessToken`,
-- `parseIDToken`, `bearerToken`.
-- The loops of the source are structural recursion; no fuel is used. Cryptography, JWT, JSON, the
-- random source and the clocks are fields of `Env`; `time.Now()` and SQL's `now()` are fixed for
-- the duration of a request. An uuid is a number, and a time counts nanoseconds.
-- A handler is one sequence of steps: rows locked with FOR UPDATE are not written by others
-- meanwhile, which is why a property about two requests orders them.
-- Not modelled: the SAML protocol with its XML and signatures, which is a library; the dashboard,
-- the listings of audit events and of signing keys, the health checks, and the documents under
-- /.well-known, the key set and the SAML metadata, which only read, so their routes are not among
-- the requests; the panic of argon2 on a stored hash with time 0 or parallelism 0; the answer 400
-- to a redirect URI that url.Parse rejects; the expiry of Redis entries; a request body that does
-- not decode; HTTP headers and cookies; the frontend; the start of the server and the migrations;
-- the end-to-end tool.
pub mod Prelude
pub mod Store
pub mod Web
pub mod Scope
pub mod Keys
pub mod Audit
pub mod Mfa
pub mod Session
pub mod Password
pub mod Policy
pub mod Users
pub mod Login
pub mod OAuth
pub mod Tests
pub mod Directory
pub mod Groups
pub mod Roles
pub mod Portal
pub mod Applications
pub mod History
pub mod Routes
pub mod Middleware
pub mod Listings
pub mod Branding
pub mod Saml
pub mod Config
