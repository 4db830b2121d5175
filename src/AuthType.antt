-- ===== src/AuthType.antt =====
-- cmd/keymasterd/app.go: the authentication flags, a cookie's `AuthType` being a set of them, and
-- lib/webapi/v0/proto/api.go: the names by which the configuration lists them.
pub mod Flags
use keymaster.Prelude.{ℕ, String, Bool, bit_and, ◌==◌, ◌!=◌}

-- 1 << iota, with iota 1 at the password's line
abbrev pub auth_type_password : ℕ
auth_type_password = 2

abbrev pub auth_type_federated : ℕ
auth_type_federated = 4

abbrev pub auth_type_u2f : ℕ
auth_type_u2f = 8

abbrev pub auth_type_symantec_vip : ℕ
auth_type_symantec_vip = 16

abbrev pub auth_type_ip_certificate : ℕ
auth_type_ip_certificate = 32

abbrev pub auth_type_totp : ℕ
auth_type_totp = 64

abbrev pub auth_type_okta_2fa : ℕ
auth_type_okta_2fa = 128

abbrev pub auth_type_bootstrap_otp : ℕ
auth_type_bootstrap_otp = 256

abbrev pub auth_type_keymaster_x509 : ℕ
auth_type_keymaster_x509 = 512

abbrev pub auth_type_any : ℕ
auth_type_any = 0xFFFF

-- the names of the configuration file
abbrev pub proto_password : String
proto_password = "password"

abbrev pub proto_federated : String
proto_federated = "federated"

abbrev pub proto_u2f : String
proto_u2f = "U2F"

abbrev pub proto_symantec_vip : String
proto_symantec_vip = "SymantecVIP"

abbrev pub proto_ip_certificate : String
proto_ip_certificate = "IPCertificate"

abbrev pub proto_totp : String
proto_totp = "TOTP"

abbrev pub proto_okta_2fa : String
proto_okta_2fa = "Okta2FA"

abbrev pub proto_bootstrap_otp : String
proto_bootstrap_otp = "BootstrapOTP"

-- `(level & flag) == flag`
abbrev pub has : ℕ → ℕ → Bool
has level flag = bit_and level flag == flag

-- `(level & flags) != 0`
abbrev pub meets : ℕ → ℕ → Bool
meets level flags = bit_and level flags != 0
