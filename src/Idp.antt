-- ===== src/Idp.antt =====
-- cmd/keymasterd/idp_oidc.go: the OpenID provider.
pub mod Clients
pub mod Tokens
pub mod Pkce
pub mod Grants
pub mod Attributes
pub mod Handlers
pub mod Authorized
pub mod Kinds
pub mod Exchange
