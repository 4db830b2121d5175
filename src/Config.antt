-- ===== src/Config.antt =====
-- cmd/keymasterd/config.go: the settings that the modelled code reads.
use keymaster.Prelude.{String, List, Bool}

pub record BaseConfig : Type 0 where
  pub http_address : String
  pub allowed_auth_backends_for_certs : List String
  pub allowed_auth_backends_for_web_ui : List String
  pub allow_self_service_bootstrap_otp : Bool
  pub admin_users : List String
  pub admin_groups : List String
  pub automation_user_groups : List String
  pub automation_users : List String
  pub disable_username_normalization : Bool
  pub enable_local_totp : Bool

-- The user information sources: the LDAP target URLs, split at the commas, and what to put before
-- the group names of each source.
pub record UserInfoSources : Type 0 where
  pub git_db_group_prepend : String
  pub ldap_group_prepend : String
  pub ldap_target_urls : List String

pub record OpenIdConnectClientConfig : Type 0 where
  pub client_id : String
  pub client_secret : String
  pub allowed_redirect_url_re : List String
  pub allowed_redirect_domains : List String

pub record OpenIdConnectIdpConfig : Type 0 where
  pub default_email_domain : String
  pub clients : List OpenIdConnectClientConfig

pub record AppConfigFile : Type 0 where
  pub base : BaseConfig
  pub user_info : UserInfoSources
  pub okta_enable_2fa : Bool
  pub oauth2_enabled : Bool
  pub symantec_vip_enabled : Bool
  pub openid_connect_idp : OpenIdConnectIdpConfig
