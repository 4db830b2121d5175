-- ===== src/CertHandler/Issue.antt =====
-- cmd/keymasterd/certgen.go: what an SSH certificate that is issued has gone through.
use Prim.Native.String.{◌++◌}
use keymaster.Prelude.{
  ℕ, String, true, false, List, [], ◌∷◌, Option, none, some, ◌≡◌, refl, ap, inl, inr, arith,
  Option-cases,
}
use keymaster.Prelude.Int.{ℤ, pos, ◌+ℤ◌}
use keymaster.Result.{Result, ok, err, Result-cases}
use keymaster.Result
use keymaster.Keys.{PublicKey, SshKey, SshCertificate, X509Template}
use keymaster.Http.{
  Request, Effect, write, write_header, set_header, status_ok, status_internal_server_error,
  publish_ssh, publish_x509,
}
use keymaster.State.{Env, RuntimeState}
use keymaster.Handler.{World, lift, on_error, >>=-elim, reject_if-ok, on_error-lift_ok}
use keymaster.Jwt.{unix}
use keymaster.CertGen.{validate_public_key_strength, expire_epoch, gen_ssh_cert_file_string}
use keymaster.CertHandler.{
  need, only_post, key_file, KeyVerdict, valid_key, bad_key, broken_key, get_valid_ssh_public_key,
  choose_signer, valid_ssh_key, post_auth_ssh_cert_handler, make_ssh_cert,
}

module _ (env : Env) (r : Request) where
  pub need-ok :
      {A : Type 0} (o : Option A) (code : ℕ) (message : String) (w v : World) (a : A)
      → need env r o code message w ≡ (ok a, v)
      → (o ≡ some a) × (v ≡ w)
  need-ok none code message w v a h = absurd (ground arith)
  need-ok (some x) code message w v a h = (ground arith, ground arith)

  -- A certificate for the user, of a key that is strong enough, with the granted duration: it has
  -- been published, and what was sent after it is its name as a file, the status, and the very
  -- certificate, as it was signed.
  pub data Granted (before : List Effect) (v : World) (user : String) (duration : ℤ) : Type 0 where
    by_ssh :
        (cert : SshCertificate) (key : PublicKey) (signer text : String)
        → v.sent
          ≡ write text
            ∷ write_header status_ok
            ∷ set_header "Content-Disposition" (
                "attachment; filename=\""
                ++ (env.ssh_cert_type cert.key.algorithm ++ "-cert.pub\""))
            ∷ publish_ssh cert
            ∷ before
        → env.sign_ssh_cert signer cert ≡ ok text
        → cert.valid_principals ≡ user ∷ []
        → cert.key.crypto_key ≡ some key
        → validate_public_key_strength key ≡ true
        → cert.valid_after ≡ unix env.now
        → cert.valid_before ≡ expire_epoch (unix env.now) duration
        → Granted before v user duration
    by_x509 :
        (template : X509Template) (der ca signer : String) (key : PublicKey)
        → v.sent
          ≡ write (env.pem_encode der)
            ∷ write_header status_ok
            ∷ set_header "Content-Disposition" "attachment; filename=\"userCert.pem\""
            ∷ publish_x509 der
            ∷ before
        → env.create_certificate template ca key signer ≡ ok der
        → template.common_name ≡ user
        → template.is_ca ≡ false
        → validate_public_key_strength key ≡ true
        → template.not_before ≡ env.now
        → template.not_after ≡ pos env.now +ℤ duration
        → Granted before v user duration

  get_valid-strong :
      (text : String) (key : SshKey)
      → get_valid_ssh_public_key env text ≡ valid_key key
      → (env.parse_authorized_key text ≡ ok key)
        × ((k : PublicKey) × (key.crypto_key ≡ some k) × (validate_public_key_strength k ≡ true))
  unfolding get_valid_ssh_public_key
  get_valid-strong text key h = elim (Result-cases (env.parse_authorized_key text)) [
    | inl (e, failed) ↦ absurd (ground arith)
    | inr (key', parsed) ↦ elim (Option-cases key'.crypto_key) [
      | inl absent ↦ absurd (ground arith)
      | inr (k, found) ↦ (ground arith, (k, ground arith, ground arith))
    ]
  ]

  -- What a valid SSH key is, and that finding it out changes nothing.
  abbrev Strong : String → SshKey → Type 0
  Strong text key =
      (env.parse_authorized_key text ≡ ok key)
      × ((k : PublicKey) × (key.crypto_key ≡ some k) × (validate_public_key_strength k ≡ true))

  valid_ssh_key-Strong :
      (text : String) (w v : World) (key : SshKey)
      → valid_ssh_key env r text w ≡ (ok key, v)
      → Strong text key × (v ≡ w)
  unfolding valid_ssh_key
  valid_ssh_key-Strong text w v key h = go (get_valid_ssh_public_key env text) refl
    where
      go : (x : KeyVerdict) → get_valid_ssh_public_key env text ≡ x → Strong text key × (v ≡ w)
      go (valid_key k) e = (get_valid-strong text key (ground arith), ground arith)
      go (bad_key m) e = absurd (ground arith)
      go (broken_key m) e = absurd (ground arith)

  choose_signer-pure :
      (state : RuntimeState) (key : SshKey) (w v : World) (signer : Option String)
      → choose_signer env r state key w ≡ (ok signer, v)
      → Unit {0} × (v ≡ w)
  unfolding choose_signer
  choose_signer-pure state key w v signer h = (tt, ground arith)

  -- The fields of a certificate made for a user's key.
  gen_ssh_cert-fields :
      (user text signer host body : String) (duration : ℤ) (cert : SshCertificate)
      → gen_ssh_cert_file_string env user text signer host duration ≡ ok (body, cert)
      → (env.parse_authorized_key text ≡ ok cert.key)
        × (env.sign_ssh_cert signer cert ≡ ok body)
        × (cert.valid_principals ≡ user ∷ [])
        × (cert.valid_after ≡ unix env.now)
        × (cert.valid_before ≡ expire_epoch (unix env.now) duration)
  unfolding gen_ssh_cert_file_string
  gen_ssh_cert-fields user text signer host body duration cert h =
      let (key, parsed, h1) = Result.>>=-eq-ok (env.parse_authorized_key text) _ h in
      let (low, drawn, h2) = Result.>>=-eq-ok (env.rand_int 0xFFFFFFFF) _ h1 in
      let (line, signed, h3) = Result.>>=-eq-ok (env.sign_ssh_cert signer _) _ h2 in
      (ground arith, ground arith, ground arith, ground arith, ground arith)

  -- What is left of the handler once the certificate is made.
  ssh_sent-Granted :
      (user text signer host body : String) (duration : ℤ) (cert : SshCertificate) (key : SshKey)
      (w : World)
      → Strong text key
      → gen_ssh_cert_file_string env user text signer host duration ≡ ok (body, cert)
      → Granted w.sent
          (record w {
            sent =
                write body
                ∷ write_header status_ok
                ∷ set_header "Content-Disposition" (
                    "attachment; filename=\""
                    ++ (env.ssh_cert_type cert.key.algorithm ++ "-cert.pub\""))
                ∷ publish_ssh cert
                ∷ w.sent;
          })
          user
          duration
  ssh_sent-Granted user text signer host body duration cert key w (parsed, (k, found, strong))
        made =
      let (parsed', signed, named, after, before) =
        gen_ssh_cert-fields user text signer host body duration cert made in
      let same : key ≡ cert.key = ground arith in
      by_ssh cert k signer body refl signed named (rw (← same) found) strong after before

  make_ssh_cert-Granted :
      (user text signer_key : String) (key : SshKey) (duration : ℤ) (w v : World)
      → Strong text key
      → make_ssh_cert env r user text signer_key duration w ≡ (ok tt, v)
      → Granted w.sent v user duration
  unfolding make_ssh_cert
  make_ssh_cert-Granted user text signer_key key duration w v strong h =
      >>=-elim (λ _. Unit {0}) (on_error (lift (env.new_ssh_signer signer_key)) _) _ w
        (λ s u e. (tt, (on_error-lift_ok (env.new_ssh_signer signer_key) _ s e).1)) h
        λ signer _ h1.
          >>=-elim
            (λ p.
              gen_ssh_cert_file_string env user text signer w.state.host_identity duration ≡ ok p)
            (on_error (lift _) _) _ w
            (λ p u e.
              on_error-lift_ok
                (gen_ssh_cert_file_string env user text signer w.state.host_identity duration) _ p
                e)
            h1
            λ p made h2.
              let sent = ap (λ x. x.1) h2 in
              rw (← sent) (
                ssh_sent-Granted user text signer w.state.host_identity p.0 duration p.1 key w
                  strong made)

  pub only_post-pure : (w v : World) → only_post env r w ≡ (ok tt, v) → v ≡ w
  only_post-pure w v h = (reject_if-ok _ _ _ h).1

  pub ssh_handler-Granted :
      (user : String) (duration : ℤ) (w v : World)
      → post_auth_ssh_cert_handler env r user duration w ≡ (ok tt, v)
      → Granted w.sent v user duration
  unfolding post_auth_ssh_cert_handler
  ssh_handler-Granted user duration w v h =
      >>=-elim (λ _. Unit {0}) (only_post env r) _ w (λ _ u e. (tt, only_post-pure w u e)) h
        λ _ _ h1.
          >>=-elim (λ _. Unit {0}) (key_file env r) _ w
            (λ t u e. (tt, (need-ok r.pubkey_file _ _ w u t e).1)) h1
            λ text _ h2.
              >>=-elim (Strong text) (valid_ssh_key env r text) _ w
                (λ k u e. valid_ssh_key-Strong text w u k e) h2
                λ key strong h3.
                  >>=-elim (λ _. Unit {0}) (choose_signer env r w.state key) _ w
                    (λ s u e. choose_signer-pure w.state key w u s e) h3
                    λ chosen _ h4.
                      >>=-elim (λ _. Unit {0}) (need env r chosen status_internal_server_error "") _
                        w (λ s u e. (tt, (need-ok chosen _ _ w u s e).1)) h4
                        λ signer_key _ h5.
                          make_ssh_cert-Granted user text signer_key key duration w v strong h5
