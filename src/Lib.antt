-- ===== src/Lib.antt =====
-- keymaster: the daemon keymasterd, which logs users in by password and second factors and issues
-- short-lived SSH and X.509 certificates. A request comes in over HTTP; checkAuth looks at its TLS
-- certificates, its session cookie or its password; the session cookie is a signed token whose level
-- is a set of the factors that were shown; the handlers of the second factors raise the level, and the
-- certificate handler issues certificates to sessions of a sufficient level.
--
-- The files and what they model:
--   Config, Profile, Keys, Http, State: the structures of cmd/keymasterd/app.go and config.go, as far
--     as the modelled code reads them, and `Env`, everything that a request meets outside the
--     repository's code: the clock, the crypto libraries, the directory and the other services.
--   Handler: a handler is a function of the daemon's state, the parsed form and what was sent so far.
--     An early return is an `err`, whose text is not part of the answer.
--   AuthType: the flags of app.go. Json and Jwt: the tokens of cmd/keymasterd/jwt.go.
--   Respond: the answers and cookies of app.go. Directory: groups and administrators, of certgen.go
--     and app.go. AdminCache: keymasterd/admincache.
--   CheckAuth: checkAuth of app.go with the functions that it calls.
--   CertGen, IpRestricted and Net: lib/certgen and the part of Go's net that it uses.
--   CertHandler: cmd/keymasterd/certgen.go.
--   Storage: profiles in cmd/keymasterd/storage.go. Totp, Vip, Okta, Bootstrap: the handlers of
--     cmd/keymasterd/2fa_totp.go, 2fa_vip.go, 2fa_okta.go and 2fa_bootstrapOTP.go; SecondFactor has
--     the steps that they share, and Totp.Devices and U2fTokens the
--     management of devices (totpTokenManagerHandler, and u2fTokenManagerHandler of app.go).
--   Checks: the guards that a handler answers in the order in which it looks at the request.
--   Login: loginHandler, logoutHandler and the public paths of app.go; Cleanup: performStateCleanup.
--   Idp: the OpenID provider of cmd/keymasterd/idp_oidc.go, which gives a client a signed code for a
--     user's session, an access token and an identity token for the code, and the user's attributes
--     for the access token.
--   Admin: cmd/keymasterd/adminHandlers.go. LogFilter: cmd/keymasterd/logFilter.go.
--   Unseal: cmd/keymasterd/unseal.go, and the loading of the signers in config.go.
--   Store: the interface of lib/simplestorage with its promises, and lib/simplestorage/memstore.
--   Ldap: lib/pwauth/ldap, which uses such a store. OktaAuth: lib/authenticators/okta. Both are
--     password checkers; to checkAuth a checker is a parameter.
--   Tests: a concrete daemon, on which each result is applied.
--
-- Functions keep the source's names in snake case: certGenHandler is cert_gen_handler. The package
-- Okta is OktaAuth, next to Okta for the handlers.
--
-- Bounds: times are nanoseconds since year 1, Go's zero time being 0, without an upper bound; the
-- clock stands still during a request and is not before 1970. Seconds in an SSH certificate wrap at
-- 64 bits; the rounding of a duration's seconds in float64 is left out. The numbers of devices,
-- int64 in Go, are natural numbers. The length of a text counts its bytes in UTF-8, as Go's does.
-- One definition runs on fuel, the loop of the automatic unsealing, which has no bound of its own:
-- fuel for the attempts up to the one that succeeds is enough. Every other loop is over a list.
--
-- Not modelled: logging and metrics; the concurrency of requests, each of which runs as one step on
-- the state; the time limits of database and network calls, which are answers of `Env`; errors of
-- writing a response; the bytes of HTML pages, e-mails and gob encodings; the order of Go's maps,
-- which the lists fix; a panic on a form key with an empty list of values, which ParseForm never
-- makes. The documents of OpenID's discovery, OAuth2, the keys of U2F, the registration of devices,
-- the reading of the configuration, event notification, the checkers by file and by command, and
-- the client are not modelled either.
--
-- Libraries are parameters: the results on tokens assume that a signature made under the daemon's
-- key is checked by its public key, and that a token has one payload; the result on bound
-- certificates assumes that ASN.1 gives back the address blocks that are padded as DER wants it;
-- the results on the LDAP checker take any store that keeps the laws of Store, which ask more than
-- the comments of the interface: what is stored can be read without an error.
pub mod Prelude
pub mod Result
pub mod AuthType
pub mod Config
pub mod Profile
pub mod AdminCache
pub mod Keys
pub mod Http
pub mod Json
pub mod Net
pub mod State
pub mod Handler
pub mod Checks
pub mod Jwt
pub mod Respond
pub mod IpRestricted
pub mod Directory
pub mod CheckAuth
pub mod CertGen
pub mod CertHandler
pub mod Storage
pub mod Totp
pub mod SecondFactor
pub mod Bootstrap
pub mod Vip
pub mod Okta
pub mod Idp
pub mod Cleanup
pub mod Store
pub mod LogFilter
pub mod OktaAuth
pub mod Admin
pub mod Unseal
pub mod Ldap
pub mod Login
pub mod U2fTokens
pub mod Tests
