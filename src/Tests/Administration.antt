-- ===== src/Tests/Administration.antt =====
-- The theorems on logging in, unsealing, the administrators' handlers and the logs' filter.
use keymaster.Prelude.{
  ℕ, zero, suc, ◌<◌, String, Bool, true, false, List, [], ◌∷◌, Memᴰ, Option, none, some, ◌≡◌, ◌≢◌,
  refl, ◌⊎◌, inl, inr, arith, is_some,
}
use keymaster.Result.{Result, ok, err}
use keymaster.Http.{Request}
use keymaster.State.{Env, RuntimeState}
use keymaster.Handler.{World, return}
use keymaster.Directory.{is_admin_user}
use keymaster.CheckAuth.{flag_of}
use keymaster.CertHandler.{is_sufficient}
use keymaster.Login.{login_handler, cert_backends}
use keymaster.Login.Credentials.{Login}
use keymaster.Login.Accepted.{Accepted}
use keymaster.Login.Backends.{cert_backends-is_sufficient}
use keymaster.Unseal.{unseal_ca, auto_unseal_aws_loop, try_aws_unseal}
use keymaster.Unseal.Opened.{
  Unsealed, unseal_ca-Unsealed, unseal_ca-err, Succeeds, now, later, auto_unseal_aws_loop-Succeeds,
}
use keymaster.Admin.Handlers.{generate_bootstrap_otp}
use keymaster.LogFilter.{serve_http}
use keymaster.LogFilter.Passed.{Passes, serve_http-Passes}
use keymaster.Prelude.Int.{pos}
use keymaster.Totp.Devices.{totp_token_manager_handler}
use keymaster.Totp.Devices.Managed.{Change, totp_token_manager_handler-Change}
use keymaster.Tests.Data.{env_example, state_example, cert_request, otp_request}

abbrev begin : World
begin = record { state = state_example; form = []; sent = [] }

abbrev password_request : Request
password_request = record cert_request {
  basic_auth = none;
  form = some (("username", "alice" ∷ []) ∷ ("password", "secret" ∷ []) ∷ []);
}

abbrev logged_in : World
logged_in = (login_handler env_example password_request begin).1

cert_backends-is_sufficient_example : is_sufficient state_example 2 ≡ true
unfolding cert_backends flag_of
cert_backends-is_sufficient_example =
    cert_backends-is_sufficient state_example false 2 "password" (Memᴰ.head refl) refl

abbrev sealed : RuntimeState
sealed = record state_example { signer = none }

abbrev opened : RuntimeState
opened = (unseal_ca env_example "open" sealed).1

unseal_ca-Unsealed_example : Unsealed env_example "open" sealed "k" opened
unfolding keymaster.Jwt.get_key_fingerprint unseal_ca keymaster.Unseal.pgp_decrypt_file_data
    keymaster.CertGen.get_signer_from_pem_bytes keymaster.Unseal.generate_ca_der
    keymaster.CertGen.gen_self_signed_ca_cert
unseal_ca-Unsealed_example =
    unseal_ca-Unsealed env_example "open" "k" sealed opened (λ key m. (key, refl)) refl

abbrev still_sealed : RuntimeState
still_sealed = (unseal_ca env_example "guess" sealed).1

unseal_ca-err_example : still_sealed.signer ≡ none
unfolding unseal_ca keymaster.Unseal.pgp_decrypt_file_data
unseal_ca-err_example = unseal_ca-err env_example "guess" "pgp" sealed still_sealed refl

-- The secret cannot be had at first.
abbrev secrets_example : ℕ → Result (List (String × String))
secrets_example zero = err "not yet"
secrets_example (suc n) = ok (("key", "open") ∷ [])

second_attempt : Succeeds env_example "key" (λ n. secrets_example (suc n)) sealed 0 "k" opened
unfolding try_aws_unseal unseal_ca keymaster.Unseal.pgp_decrypt_file_data
    keymaster.CertGen.get_signer_from_pem_bytes keymaster.Unseal.generate_ca_der
    keymaster.CertGen.gen_self_signed_ca_cert
second_attempt = now refl refl

two_attempts : Succeeds env_example "key" secrets_example sealed 1 "k" opened
unfolding try_aws_unseal
two_attempts = later {e = "not yet"} refl refl second_attempt

auto_unseal_aws_loop-Succeeds_example :
    auto_unseal_aws_loop env_example 5 "key" secrets_example sealed ≡ (true, opened)
auto_unseal_aws_loop-Succeeds_example =
    auto_unseal_aws_loop-Succeeds env_example two_attempts 5 (omega arith)

abbrev admin_state : RuntimeState
admin_state = record state_example {
  config = record state_example.config {
    base = record state_example.config.base { admin_users = "alice" ∷ [] };
  };
}

abbrev admin_begin : World
admin_begin = record { state = admin_state; form = []; sent = [] }

abbrev admin_env : Env
admin_env = record env_example { match_string = λ expression text. ok true }

abbrev bob_request : Request
bob_request = record otp_request { form = some (("username", "bob" ∷ []) ∷ []) }

abbrev bob_invited : World
bob_invited = (generate_bootstrap_otp admin_env bob_request admin_begin).1

abbrev logs_request : Request
logs_request = record otp_request { url_path = "/logs/all"; tls = some [] }

serve_http-Passes_example : Passes admin_env logs_request admin_state
unfolding serve_http keymaster.LogFilter.send_failure_to_client_if_not_admin_user_or_ca
    keymaster.CheckAuth.check_auth keymaster.Respond.find_cookie
    keymaster.Jwt.get_auth_info_from_auth_jwt keymaster.Jwt.jwt_claims
    keymaster.Tests.verify_example keymaster.Json.unmarshal_auth keymaster.Jwt.has_sane_values
    keymaster.Jwt.idp_get_issuer keymaster.Jwt.unix keymaster.Jwt.from_unix
    keymaster.CheckAuth.get_required_web_ui_auth_level keymaster.LogFilter.require_admin
    is_admin_user keymaster.AdminCache.get keymaster.Directory.find_admin_user
serve_http-Passes_example =
    serve_http-Passes admin_env logs_request (return tt) admin_begin
      (serve_http admin_env logs_request false (return tt) admin_begin).1 refl refl

abbrev manage_env : Env
manage_env = record env_example { atoi = λ s. ok (pos 1) }

-- Alice disables her device.
abbrev manage_request : Request
manage_request = record otp_request {
  form = some (("username", "alice" ∷ []) ∷ ("index", "1" ∷ []) ∷ ("action", "Disable" ∷ []) ∷ []);
}

abbrev managed : World
managed = (totp_token_manager_handler manage_env manage_request begin).1

totp_token_manager_handler-Change_example :
    Change manage_env manage_request state_example managed.state
unfolding totp_token_manager_handler keymaster.Totp.Devices.manage_form
    keymaster.Respond.stop_if_locked keymaster.CheckAuth.check_auth keymaster.Respond.find_cookie
    keymaster.Jwt.get_auth_info_from_auth_jwt keymaster.Jwt.jwt_claims
    keymaster.Tests.verify_example keymaster.Json.unmarshal_auth keymaster.Jwt.has_sane_values
    keymaster.Jwt.idp_get_issuer keymaster.Jwt.unix keymaster.Jwt.from_unix
    keymaster.CheckAuth.get_required_web_ui_auth_level keymaster.Directory.is_admin_user_and_u2f
    is_admin_user keymaster.AdminCache.get keymaster.Directory.find_admin_user
    keymaster.Respond.form_get keymaster.Storage.load_user_profile
    keymaster.Storage.save_user_profile keymaster.Respond.get_preferred_accept_type
totp_token_manager_handler-Change_example =
    totp_token_manager_handler-Change manage_env manage_request begin managed refl
