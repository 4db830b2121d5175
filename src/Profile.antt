-- ===== src/Profile.antt =====
-- cmd/keymasterd/app.go: what is stored of a user. Times are nanoseconds since year 1, Go's zero
-- time being 0. A device table lists its devices by their keys.
use keymaster.Prelude.{ℕ, String, List, Bool, Option}

pub record U2fAuthData : Type 0 where
  pub enabled : Bool
  pub created_at : ℕ
  pub creator_addr : String
  pub counter : ℕ
  pub name : String
  pub registration : String

pub record TotpAuthData : Type 0 where
  pub enabled : Bool
  pub created_at : ℕ
  pub name : String
  pub encrypted_secret : List String
  pub totp_type : ℕ
  pub validator_addr : String

-- `Sha512Hash` is nil where no OTP is pending.
pub record BootstrapOtpData : Type 0 where
  pub expires_at : ℕ
  pub sha512_hash : Option String

pub record UserProfile : Type 0 where
  pub u2f_auth_data : List (ℕ × U2fAuthData)
  pub registration_challenge : Option String
  pub pending_totp_secret : Option (List String)
  pub last_successful_totp_counter : ℕ
  pub totp_auth_data : List (ℕ × TotpAuthData)
  pub bootstrap_otp : BootstrapOtpData
  pub user_has_registered_2nd_factor : Bool
