-- ===== src/CertHandler/Authorized.antt =====
-- cmd/keymasterd/certgen.go: what a request for a certificate has gone through when it is answered
-- with one.
use Prim.Native.String.{len, slice}
use keymaster.Prelude.{
  ◌||◌, ◌^◌, String, Bool, true, false, not, List, ◌∷◌, Option, none, some, ◌≡◌, refl, ap, inl, inr,
  arith, Bool-cases, str_eq, eq_iff,
}
use keymaster.Prelude.Int.{ℤ, pos, ◌+ℤ◌, ◌≤ℤ◌}
use keymaster.Result.{Result, ok, err, Result-cases}
use keymaster.Result
use keymaster.AuthType.{auth_type_any}
use keymaster.Keys.{PublicKey, X509Template}
use keymaster.Http.{
  Request, Effect, write, write_header, set_header, status_ok, set_username, publish_x509,
  status_bad_request, status_internal_server_error, status_forbidden,
}
use keymaster.State.{Env, AuthInfo}
use keymaster.Handler.{
  World, ◌>>=◌, lift, on_error, reject_if, >>=-elim, >>=-eq-ok, reject_if-ok, on_error-lift_ok,
}
use keymaster.Respond.{form_get, parse_form, get_form, write_failure_response}
use keymaster.Directory.{get_user_groups}
use keymaster.CheckAuth.{check_auth}
use keymaster.CheckAuth.Sound.{Evidence, IsSameSite, check_auth-Evidence}
use keymaster.CertGen.{
  validate_public_key_strength, gen_user_x509_cert, gen_san_extension, get_group_list_extension,
}
use keymaster.CertHandler.{
  certgen_path, max_certificate_lifetime, is_sufficient, need, only_post, key_file, limit_duration,
  requested_duration, needed_groups, valid_pkix_key, make_x509_cert, post_auth_x509_cert_handler,
  issue, wanted_type, form_value, issue_for, cert_gen_handler,
}
use keymaster.CertHandler.Grants.{
  Sufficient, is_sufficient-Sufficient, WithinDay, limit_duration-WithinDay, requested_duration-le,
}
use keymaster.CertHandler.Issue.{Granted, by_x509, need-ok, only_post-pure, ssh_handler-Granted}

module _ (env : Env) (r : Request) where
  gen_x509-fields :
      (user ca signer der : String) (key : PublicKey) (realm : Option String) (duration : ℤ)
      (groups organizations : List String) (template : X509Template)
      → gen_user_x509_cert env user key ca signer realm duration groups organizations
        ≡ ok (template, der)
      → (env.create_certificate template ca key signer ≡ ok der)
        × (template.common_name ≡ user)
        × (template.is_ca ≡ false)
        × (template.not_before ≡ env.now)
        × (template.not_after ≡ pos env.now +ℤ duration)
  unfolding gen_user_x509_cert
  gen_x509-fields user ca signer der key realm duration groups organizations template h =
      let (serial, drawn, h1) = Result.>>=-eq-ok (env.rand_int (2 ^ 128)) _ h in
      let (san, named, h2) = Result.>>=-eq-ok (gen_san_extension env user realm) _ h1 in
      let (list, listed, h3) = Result.>>=-eq-ok (get_group_list_extension env groups) _ h2 in
      let (der', created, h4) = Result.>>=-eq-ok (env.create_certificate _ ca key signer) _ h3 in
      (ground arith, ground arith, ground arith, ground arith, ground arith)

  x509_sent-Granted :
      (user ca signer der : String) (key : PublicKey) (realm : Option String) (duration : ℤ)
      (groups organizations : List String) (template : X509Template) (w : World)
      → validate_public_key_strength key ≡ true
      → gen_user_x509_cert env user key ca signer realm duration groups organizations
        ≡ ok (template, der)
      → Granted env r w.sent
          (record w {
            sent =
                write (env.pem_encode der)
                ∷ write_header status_ok
                ∷ set_header "Content-Disposition" "attachment; filename=\"userCert.pem\""
                ∷ publish_x509 der
                ∷ w.sent;
          })
          user
          duration
  x509_sent-Granted user ca signer der key realm duration groups organizations template w strong
        made =
      let (created, named, leaf, after, before) =
        gen_x509-fields user ca signer der key realm duration groups organizations template made in
      by_x509 template der ca signer key refl created named leaf strong after before

  make_x509_cert-Granted :
      (user signer : String) (key : PublicKey) (duration : ℤ) (groups organizations : List String)
      (w v : World)
      → validate_public_key_strength key ≡ true
      → make_x509_cert env r user signer key duration groups organizations w ≡ (ok tt, v)
      → Granted env r w.sent v user duration
  unfolding make_x509_cert
  make_x509_cert-Granted user signer key duration groups organizations w v strong h =
      >>=-elim (λ _. Unit {0}) (on_error (lift (env.parse_certificate w.state.ca_cert_der)) _) _ w
        (λ s u e. (tt, (on_error-lift_ok (env.parse_certificate w.state.ca_cert_der) _ s e).1)) h
        λ ca _ h1.
          >>=-elim
            (λ p.
              gen_user_x509_cert env user key ca signer w.state.kerberos_realm duration groups
                organizations
              ≡ ok p)
            (on_error (lift _) _) _ w
            (λ p u e.
              on_error-lift_ok
                (gen_user_x509_cert env user key ca signer w.state.kerberos_realm duration groups
                  organizations)
                _ p e)
            h1
            λ p made h2.
              let sent = ap (λ x. x.1) h2 in
              rw (← sent) (
                x509_sent-Granted user ca signer p.1 key w.state.kerberos_realm duration groups
                  organizations p.0 w strong made)

  needed_groups-pure :
      (hack add : Bool) (user : String) (w v : World) (groups : List String)
      → needed_groups env r hack add user w ≡ (ok groups, v)
      → v ≡ w
  unfolding needed_groups
  needed_groups-pure hack add user w v groups h = elim (Bool-cases (hack || add)) [
    | inl asked ↦ elim (Result-cases (get_user_groups env w.state user)) [
      | inl (e, failed) ↦ absurd (ground arith)
      | inr (found, answered) ↦ ground arith
    ]
    | inr unasked ↦ ground arith
  ]

  valid_pkix_key-strong :
      (w v : World) (key : PublicKey)
      → valid_pkix_key env r w ≡ (ok key, v)
      → (validate_public_key_strength key ≡ true) × (v ≡ w)
  unfolding valid_pkix_key
  valid_pkix_key-strong w v key h =
      >>=-elim (λ _. Unit {0}) (key_file env r) _ w
        (λ s u e. (tt, (need-ok env r r.pubkey_file _ _ w u s e).1)) h
        λ file _ h1.
          >>=-elim (λ _. Unit {0})
            (need env r (env.pem_public_key file) status_bad_request
              "Invalid File, Unable to decode pem")
            _ w (λ s u e. (tt, (need-ok env r (env.pem_public_key file) _ _ w u s e).1)) h1
            λ block _ h2.
              >>=-elim (λ _. Unit {0}) (on_error (lift (env.parse_pkix_key block)) _) _ w
                (λ s u e. (tt, (on_error-lift_ok (env.parse_pkix_key block) _ s e).1)) h2
                λ parsed _ h3. elim (Bool-cases (validate_public_key_strength parsed)) [
                  | inl strong ↦ (ground arith, ground arith)
                  | inr weak ↦ absurd (ground arith)
                ]

  x509_handler-Granted :
      (user signer : String) (duration : ℤ) (hack : Bool) (w v : World)
      → post_auth_x509_cert_handler env r user signer duration hack w ≡ (ok tt, v)
      → Granted env r w.sent v user duration
  unfolding post_auth_x509_cert_handler
  x509_handler-Granted user signer duration hack w v h =
      let add = str_eq (form_get w.form "addGroups") "true" in
      >>=-elim (λ _. Unit {0}) (needed_groups env r hack add user) _ w
        (λ g u e. (tt, needed_groups-pure hack add user w u g e)) h
        λ groups _ h1.
          >>=-elim (λ _. Unit {0}) (only_post env r) _ w (λ _ u e. (tt, only_post-pure env r w u e))
            h1
            λ _ _ h2.
              >>=-elim (λ k. validate_public_key_strength k ≡ true) (valid_pkix_key env r) _ w
                (λ k u e. valid_pkix_key-strong w u k e) h2
                λ key strong h3. make_x509_cert-Granted user signer key duration _ _ w v strong h3

  issue-Granted :
      (cert_type user signer : String) (duration : ℤ) (w v : World)
      → issue env r cert_type user signer duration w ≡ (ok tt, v)
      → Granted env r w.sent v user duration
  unfolding issue
  issue-Granted cert_type user signer duration w v h = elim (Bool-cases (str_eq cert_type "ssh")) [
    | inl ssh ↦ ssh_handler-Granted env r user duration w v (ground arith)
    | inr other ↦ elim (Bool-cases (str_eq cert_type "x509")) [
      | inl x509 ↦ x509_handler-Granted user signer duration false w v (ground arith)
      | inr other' ↦ elim (Bool-cases (str_eq cert_type "x509-kubernetes")) [
        | inl kubernetes ↦ x509_handler-Granted user signer duration true w v (ground arith)
        | inr unknown ↦ absurd (ground arith)
      ]
    ]
  ]

  -- The user that the path names.
  abbrev target_user : String
  target_user = slice r.url_path (len certgen_path) (len r.url_path)

  -- The request is a POST for the user's own certificate, which is granted for a day at most.
  abbrev pub Answered : AuthInfo → List Effect → World → Type 0
  Answered info before v =
      (info.username ≡ target_user)
      × (r.method ≡ "POST")
      × ((duration : ℤ) × WithinDay env info duration × Granted env r before v target_user duration)

  duration_then-Answered :
      (info : AuthInfo) (signer cert_type : String) (form : List (String × List String))
      (w v : World)
      → info.username ≡ target_user
      → r.method ≡ "POST"
      → (requested_duration env r form >>= λ duration.
            issue env r cert_type target_user signer (limit_duration env info duration))
          w
        ≡ (ok tt, v)
      → Answered info w.sent v
  duration_then-Answered info signer cert_type form w v own post h =
      >>=-elim (λ d. d ≤ℤ pos max_certificate_lifetime) (requested_duration env r form) _ w
        (λ d u e. requested_duration-le env r form w u d e) h
        λ d short h1. (
          own,
          post,
          (
            limit_duration env info d,
            limit_duration-WithinDay env info d short,
            issue-Granted cert_type target_user signer (limit_duration env info d) w v h1,
          ),
        )

  parsed_form-sent :
      (w u : World)
      → on_error
          (parse_form r)
          (λ e. write_failure_response env r status_bad_request "Error parsing form")
          w
        ≡ (ok tt, u)
      → w.sent ≡ u.sent
  parsed_form-sent w u h = go r.form refl
    where
      go : (form : Option (List (String × List String))) → r.form ≡ form → w.sent ≡ u.sent
      go none e = absurd (ground arith)
      go (some form) e = ground arith

  parsed_then-Answered :
      (info : AuthInfo) (signer : String) (w v : World)
      → info.username ≡ target_user
      → r.method ≡ "POST"
      → (on_error
              (parse_form r)
              (λ e. write_failure_response env r status_bad_request "Error parsing form")
            >>= λ _. get_form >>= λ form. requested_duration env r form >>= λ duration.
                issue env r
                  (wanted_type env r (form_value form "type"))
                  target_user
                  signer
                  (limit_duration env info duration))
          w
        ≡ (ok tt, v)
      → Answered info w.sent v
  parsed_then-Answered info signer w v own post h =
      let (_, u, e, h1) =
        >>=-eq-ok
          (on_error (parse_form r)
            (λ e. write_failure_response env r status_bad_request "Error parsing form"))
          _ w h in
      rw (parsed_form-sent w u e) (
        duration_then-Answered info signer (wanted_type env r (form_value u.form "type")) u.form u v
          own post h1)

  issue_for-Answered :
      (info : AuthInfo) (signer : String) (w v : World)
      → issue_for env r info signer w ≡ (ok tt, v)
      → Answered info w.sent v
  unfolding issue_for
  issue_for-Answered info signer w v h =
      >>=-elim (λ _. info.username ≡ target_user)
        (reject_if (not (str_eq info.username target_user))
          (write_failure_response env r status_forbidden "") "")
        _ w
        (λ _ u e.
          let (same, pure) = reject_if-ok (not (str_eq info.username target_user)) _ _ e in
          (ground (arith, eq_iff info.username target_user), pure))
        h
        λ _ own h1.
          >>=-elim (λ _. r.method ≡ "POST") (only_post env r) _ w
            (λ _ u e.
              let (post, pure) = reject_if-ok (not (str_eq r.method "POST")) _ _ e in
              (ground (arith, eq_iff r.method "POST"), pure))
            h1 λ _ post h2. parsed_then-Answered info signer w v own post h2

  -- Whoever is answered with a certificate has evidence of who they are and a session that is
  -- sufficient for certificates, on a request that has passed the cross-site test and is a POST for
  -- their own name. The certificate is for that name and for a key that is strong enough, and if it
  -- is an X.509 one, no certificate authority. It begins now, and its end is computed from a
  -- duration that is at most a day and that ends at most a day after the login. It was published,
  -- and then sent, under a name as a file and with the status of success, as it was signed; nothing
  -- else was sent but the name of the user for the log.
  pub cert_gen_handler-Answered :
      (w v : World)
      → cert_gen_handler env r w ≡ (ok tt, v)
      → (info : AuthInfo) × Evidence env r w.state auth_type_any info
        × IsSameSite env r
        × Sufficient w.state info.auth_type
        × Answered info (set_username info.username ∷ w.sent) v
  unfolding cert_gen_handler
  cert_gen_handler-Answered w v h =
      >>=-elim (λ _. Unit {0}) (need env r w.state.signer status_internal_server_error "") _ w
        (λ s u e. (tt, (need-ok env r w.state.signer _ _ w u s e).1)) h
        λ signer _ h1.
          >>=-elim (λ info. Evidence env r w.state auth_type_any info × IsSameSite env r)
            (check_auth env r auth_type_any) _ w
            (λ info u e.
              let (evidence, pure, site) = check_auth-Evidence env r auth_type_any w u info e in
              ((evidence, site), pure))
            h1
            λ info (evidence, site) h2.
              >>=-elim (λ _. Sufficient w.state info.auth_type)
                (reject_if (not (is_sufficient w.state info.auth_type))
                  (write_failure_response env r status_bad_request
                    "Not enough auth level for getting certs")
                  "")
                _ (record w { sent = set_username info.username ∷ w.sent })
                (λ _ u e.
                  let (enough, pure) =
                    reject_if-ok (not (is_sufficient w.state info.auth_type)) _ _ e in
                  (is_sufficient-Sufficient w.state info.auth_type (ground arith), pure))
                h2
                λ _ enough h3. (
                  info,
                  evidence,
                  site,
                  enough,
                  issue_for-Answered info signer
                      (record w { sent = set_username info.username ∷ w.sent }) v h3,
                )
