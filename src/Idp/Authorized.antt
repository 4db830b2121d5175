-- ===== src/Idp/Authorized.antt =====
-- cmd/keymasterd/idp_oidc.go: what a request has gone through when the provider answers it with a
-- code, with tokens or with a user's information.
use Prim.Native.String.{◌++◌}
use keymaster.Prelude.{
  String, Bool, true, false, not, ◌||◌, List, [], ◌∷◌, ◌≢◌, Option, none, some, ◌≡◌, refl, subst,
  ap, sym, ◌∙◌, ◌⊎◌, inl, inr, arith, str_eq, eq_iff, Bool-cases,
}
use keymaster.Prelude.Dict.{Dict}
use keymaster.Result.{Result, ok, err, Result-cases}
use keymaster.Result
use keymaster.Http.{
  Request, Effect, set_username, publish_service_provider_login, redirect, token_response,
  userinfo_response, AccessToken, OpenidConnectUserInfo, status_bad_request, status_found,
  status_internal_server_error,
}
use keymaster.State.{Env, RuntimeState, AuthInfo}
use keymaster.Handler.{World, lift, reject_if, >>=-step, reject_if-ok}
use keymaster.Checks.{check, check-ok, require_ok, require_ok-passed}
use keymaster.Respond.{form_get, write_failure_response, stop_if_locked}
use keymaster.CheckAuth.{check_auth, get_required_web_ui_auth_level}
use keymaster.CheckAuth.Sound.{Evidence, IsSameSite, check_auth-Evidence}
use keymaster.SecondFactor.Steps.{stop_if_locked-state}
use keymaster.Idp.Tokens.{UserInfoToken, marshal_code, marshal_id, marshal_user_info}
use keymaster.Idp.Grants.{
  Form, GrantedCode, TokenRequest, granted_code, token_request, bearer_token,
}
use keymaster.Idp.Grants.Sound.{
  Granting, granted_code-Granting, Redeemed, token_request-Redeemed, Bearer, bearer_token-Bearer,
}
use keymaster.Idp.Clients.{idp_open_idc_is_cors_origin_allowed}
use keymaster.Idp.Attributes.{get_user_attributes, email_of, user_info_of}
use keymaster.Idp.Handlers.{
  allow_origin, key_id, parsed_form, send_code, idp_open_idc_authorization_handler, id_claims,
  access_claims, send_tokens, idp_open_idc_token_handler, header_token, access_token_of,
  send_user_info, idp_open_idc_userinfo_handler,
}

module _ (env : Env) (r : Request) where
  parsed_form-ok :
      (w u : World) (form : Form)
      → parsed_form env r w ≡ (ok form, u)
      → (r.form ≡ some form) × (u.state ≡ w.state)
  parsed_form-ok w u form h = go r.form refl
    where
      go : (f : Option Form) → r.form ≡ f → (r.form ≡ some form) × (u.state ≡ w.state)
      go none e = absurd (ground arith)
      go (some f) e = (e ∙ ap some (ground arith), ground arith)

  -- The answer to a browser: back to the target, with a code that the granted claims are signed
  -- into.
  abbrev pub SentOn : Form → GrantedCode → World → Type 0
  SentOn form granted v =
      (raw : String) × (rest : List Effect) × (username : String) × (env.sign_compact granted.signer
          (marshal_code granted.code)
        ≡ ok raw)
      × (v.sent
          ≡ redirect
              (granted.code.redirect_uri
                ++ ("?code=" ++ (raw ++ ("&state=" ++ env.query_escape (form_get form "state")))))
              status_found
            ∷ publish_service_provider_login granted.code.redirect_uri username
            ∷ rest)

  send_code-SentOn :
      (auth_data : AuthInfo) (form : Form) (granted : GrantedCode) (w v : World)
      → send_code env r auth_data form granted w ≡ (ok tt, v)
      → SentOn form granted v
  unfolding send_code
  send_code-SentOn auth_data form granted w v h =
      elim (Result-cases (env.sign_compact granted.signer (marshal_code granted.code))) [
        | inl (e, failed) ↦ absurd (ground arith)
        | inr (raw, signed) ↦ (raw, w.sent, auth_data.username, signed, ground arith)
      ]

  -- A browser is sent to a client with a code only for a caller with a session of the web UI's
  -- level, after the cross-site test, and only to a target that the client of the name may redirect
  -- to, with the scope of OpenID; the code's claims are that caller, that client and that target.
  pub authorization_handler-Granting :
      (w v : World)
      → idp_open_idc_authorization_handler env r w ≡ (ok tt, v)
      → (info : AuthInfo) × (form : Form) × (granted : GrantedCode) × Evidence env r w.state
          (get_required_web_ui_auth_level w.state)
          info
        × IsSameSite env r
        × (r.form ≡ some form)
        × Granting env w.state info form granted
        × SentOn form granted v
  unfolding idp_open_idc_authorization_handler
  authorization_handler-Granting w v h = >>=-step (stop_if_locked env r) _ w h λ _ u1 e1 h1.
      >>=-step (check_auth env r (get_required_web_ui_auth_level u1.state)) _ u1 h1 λ info u2 e2 h2.
        >>=-step
          (reject_if (not (str_eq r.method "GET" || str_eq r.method "POST"))
            (write_failure_response env r status_bad_request "Invalid Method for Auth Handler") "")
          _ (record u2 { sent = set_username info.username ∷ u2.sent }) h2
          λ _ u3 e3 h3. >>=-step (parsed_form env r) _ u3 h3 λ form u4 e4 h4.
            >>=-step (check env r (granted_code env u1.state info form)) _ u4 h4 λ granted u5 e5 h5.
              let same = stop_if_locked-state env r w u1 e1 in
              let (evidence, _, site) =
                check_auth-Evidence env r (get_required_web_ui_auth_level u1.state) u1 u2 info e2 in
              (
                info,
                form,
                granted,
                subst (λ s. Evidence env r s (get_required_web_ui_auth_level s) info) same evidence,
                site,
                (parsed_form-ok u3 u4 form e4).0,
                subst (λ s. Granting env s info form granted) same
                    (granted_code-Granting env u1.state info form granted
                      (check-ok env r _ u4 u5 granted e5).0),
                send_code-SentOn info form granted u5 v h5,
              )

  -- The answer to a client: both tokens, signed by the daemon's key, about the user of the code.
  abbrev pub Given : RuntimeState → TokenRequest → World → Type 0
  Given state request v =
      (signer : String) × (answer : AccessToken) × (rest : List Effect) × (env.jose_signer
          state.signer
        ≡ ok signer)
      × (env.sign_compact signer (marshal_id (id_claims env r state request)) ≡ ok answer.id_token)
      × (env.sign_compact signer (marshal_user_info (access_claims env r request))
          ≡ ok answer.access_token)
      × (v.sent ≡ token_response answer ∷ rest)

  allow_origin-ok :
      (b : Bool) (w u : World) → allow_origin env r b w ≡ (ok tt, u) → u.state ≡ w.state
  allow_origin-ok true w u h = ground arith
  allow_origin-ok false w u h = ground arith

  send_tokens-Given :
      (state : RuntimeState) (request : TokenRequest) (w v : World)
      → send_tokens env r state request w ≡ (ok tt, v)
      → Given state request v
  unfolding send_tokens
  send_tokens-Given state request w v h = >>=-step (key_id env r state) _ w h λ kid u1 e1 h1.
      >>=-step
        (check env r (require_ok (env.jose_signer state.signer) status_internal_server_error "")) _
        u1 h1
        λ signer u2 e2 h2.
          >>=-step (lift (env.sign_compact signer (marshal_id (id_claims env r state request)))) _
            u2 h2
            λ id_token u3 e3 h3.
              >>=-step
                (lift (env.sign_compact signer (marshal_user_info (access_claims env r request)))) _
                u3 h3
                λ access_token u4 e4 h4.
                  >>=-step
                    (allow_origin env r
                      (idp_open_idc_is_cors_origin_allowed env state r.origin request.client_id))
                    _ _ h4
                    λ _ u5 e5 h5. (
                      signer,
                      _,
                      u5.sent,
                      require_ok-passed _ _ _ signer (check-ok env r _ u1 u2 signer e2).0,
                      ap (λ x. x.0) e3,
                      ap (λ x. x.0) e4,
                      ap (λ x. x.1.sent) (sym h5),
                    )

  -- Tokens are given only for a code that a configured key has signed, that has not expired, that
  -- was issued to the very client that has proved who it is and for the target that the client names
  -- again. Both tokens are then about the code's user.
  pub token_handler-Redeemed :
      (w v : World)
      → idp_open_idc_token_handler env r w ≡ (ok tt, v)
      → (form : Form) × (request : TokenRequest) × (r.form ≡ some form)
        × Redeemed env w.state r form request
        × Given w.state request v
  unfolding idp_open_idc_token_handler
  token_handler-Redeemed w v h =
      >>=-step
        (reject_if (not (str_eq r.method "POST"))
          (write_failure_response env r status_bad_request "Invalid Method for Auth Handler") "")
        _ w h
        λ _ u1 e1 h1. >>=-step (parsed_form env r) _ u1 h1 λ form u2 e2 h2.
          >>=-step (check env r (token_request env u2.state r form)) _ u2 h2 λ request u3 e3 h3.
            let (there, kept) = parsed_form-ok u1 u2 form e2 in
            let same : u2.state ≡ w.state =
              kept ∙ ap (λ x. x.state) (reject_if-ok (not (str_eq r.method "POST")) _ _ e1).1 in
            let (passes, _) = check-ok env r _ u2 u3 request e3 in
            (
              form,
              request,
              there,
              subst (λ s. Redeemed env s r form request) same
                  (token_request-Redeemed env u2.state r form request passes),
              subst (λ s. Given s request v) same (send_tokens-Given u2.state request u3 v h3),
            )

  access_token_of-ok :
      (w u : World) (text : String)
      → access_token_of env r w ≡ (ok text, u)
      → (((text ≡ header_token env r) × (text ≢ ""))
          ⊎ ((form : Form) × (r.form ≡ some form) × (text ≡ form_get form "access_token")))
        × (u.state ≡ w.state)
  unfolding access_token_of
  access_token_of-ok w u text h = elim (Bool-cases (str_eq (header_token env r) "")) [
    | inl absent ↦
        >>=-step (parsed_form env r) _ w (rw (absent, access_token_of) at h) λ form u1 e1 h1.
          let (there, kept) = parsed_form-ok w u1 form e1 in
          (inr (form, there, ground arith), ap (λ x. x.1.state) (sym h1) ∙ kept)
    | inr present ↦
        (inl (ground arith, ground (arith, eq_iff (header_token env r) "")), ground arith)
  ]

  -- The information in the answer: it is all about the claims' user, with what the directory of
  -- the state adds.
  abbrev pub Informed : RuntimeState → UserInfoToken → World → Type 0
  Informed state claims v =
      (info : OpenidConnectUserInfo) × (rest : List Effect) × (user_info_of state claims.username
          (get_user_attributes env state claims.username ("mail" ∷ []))
        ≡ ok info)
      × (info.subject ≡ claims.username)
      × (info.name ≡ claims.username)
      × (info.login ≡ claims.username)
      × (info.username ≡ claims.username)
      × (v.sent ≡ userinfo_response info ∷ rest)

  user_info_of-names :
      (state : RuntimeState) (username : String) (attributes : Result (Dict (List String)))
      (info : OpenidConnectUserInfo)
      → user_info_of state username attributes ≡ ok info
      → (info.subject ≡ username)
        × (info.name ≡ username)
        × (info.login ≡ username)
        × (info.username ≡ username)
  unfolding user_info_of
  user_info_of-names state username (ok found) info h =
      let (email, made, h1) = Result.>>=-eq-ok (email_of state username found) _ h in
      (ground arith, ground arith, ground arith, ground arith)
  user_info_of-names state username (err e) info h =
      (ground arith, ground arith, ground arith, ground arith)

  send_user_info-Informed :
      (state : RuntimeState) (claims : UserInfoToken) (w v : World)
      → send_user_info env r state claims w ≡ (ok tt, v)
      → Informed state claims v
  unfolding send_user_info
  send_user_info-Informed state claims w v h =
      >>=-step
        (lift (
          user_info_of state claims.username
            (get_user_attributes env state claims.username ("mail" ∷ []))))
        _ w h
        λ info u1 e1 h1.
          >>=-step (allow_origin env r (idp_open_idc_is_cors_origin_allowed env state r.origin ""))
            _ _ h1
            λ _ u2 e2 h2.
              let made = ap (λ x. x.0) e1 in
              let (subject, name, login, username) =
                user_info_of-names state claims.username _ info made in
              (info, u2.sent, made, subject, name, login, username, ap (λ x. x.1.sent) (sym h2))

  -- Unless the request only asks for the options, it is answered with a user's information only for
  -- an access token, of the header or else of the form, that a configured key has signed, that has
  -- not expired and that is of the bearer type; the information is about that token's user.
  pub userinfo_handler-Bearer :
      (w v : World)
      → idp_open_idc_userinfo_handler env r w ≡ (ok tt, v)
      → (r.method ≡ "OPTIONS")
        ⊎ ((text : String) × (claims : UserInfoToken) × (((text ≡ header_token env r) × (text ≢ ""))
              ⊎ ((form : Form) × (r.form ≡ some form) × (text ≡ form_get form "access_token")))
            × Bearer env w.state text claims
            × Informed w.state claims v)
  unfolding idp_open_idc_userinfo_handler
  userinfo_handler-Bearer w v h =
      >>=-step
        (reject_if
          (not (str_eq r.method "GET" || str_eq r.method "POST" || str_eq r.method "OPTIONS"))
          (write_failure_response env r status_bad_request "Invalid Method for Userinfo Handler")
          "")
        _ w h
        λ _ u1 e1 h1. elim (Bool-cases (str_eq r.method "OPTIONS")) [
          | inl options ↦ inl ((eq_iff r.method "OPTIONS").0 options)
          | inr other ↦ >>=-step (access_token_of env r) _ u1 (rw other at h1) λ text u2 e2 h2.
              >>=-step (check env r (bearer_token env u2.state text)) _ u2 h2 λ claims u3 e3 h3.
                let (named, kept) = access_token_of-ok u1 u2 text e2 in
                let same : u2.state ≡ w.state =
                  kept
                  ∙ ap (λ x. x.state)
                      (reject_if-ok
                        (not (
                          str_eq r.method "GET"
                          || str_eq r.method "POST"
                          || str_eq r.method "OPTIONS"))
                        _ _ e1).1 in
                inr (
                  text,
                  claims,
                  named,
                  subst (λ s. Bearer env s text claims) same
                      (bearer_token-Bearer env u2.state text claims
                        (check-ok env r _ u2 u3 claims e3).0),
                  subst (λ s. Informed s claims v) same
                      (send_user_info-Informed u2.state claims u3 v h3),
                )
        ]
