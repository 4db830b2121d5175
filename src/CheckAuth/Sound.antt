-- ===== src/CheckAuth/Sound.antt =====
-- checkAuth lets nobody through without evidence.
use Prim.Native.String.{len}
use keymaster.Prelude.{
  ℕ, ◌≤◌, String, true, false, List, [], ◌∷◌, Option, none, some, ◌≡◌, refl, ◌≢◌, ap, ◌∙◌, inl, inr,
  ◌⊎◌, arith, Bool-cases, Option-cases, str_eq, eq_iff, ltb,
}
use keymaster.Result.{ok, Result-cases}
use keymaster.AuthType.{
  auth_type_password, auth_type_ip_certificate, auth_type_keymaster_x509, meets,
}
use keymaster.Http.{Certificate, BasicAuth, Request}
use keymaster.State.{Env, RuntimeState, AuthInfo}
use keymaster.Handler.{World, >>=-eq-ok_pure}
use keymaster.Jwt.{get_auth_info_from_auth_jwt}
use keymaster.Jwt.Sessions.{Session, get_auth_info-Session}
use keymaster.Respond.{auth_cookie_name, find_cookie}
use keymaster.CheckAuth.{
  IpVerdict, accepted, user_error, internal_error, reprocess_username, check_user_password,
  get_username_if_keymaster_signed, get_username_if_ip_restricted, compare_referer, check_csrf,
  keymaster_certificate, ip_certificate, presented_certificates, check_certificates, try_password,
  check_password, check_cookie, check_credentials, check_auth,
}
use keymaster.CheckAuth.Evidence.{
  SignedLeaf, BoundLeaf, keymaster_signed-SignedLeaf, ip_restricted-BoundLeaf,
}

module _ (env : Env) (r : Request) where
  -- What let a user through, at a level among the required ones.
  pub data Evidence (state : RuntimeState) (required : ℕ) (info : AuthInfo) : Type 0 where
    keymaster_signed :
        (chains : List (List Certificate))
        → r.tls ≡ some chains
        → meets required auth_type_keymaster_x509 ≡ true
        → SignedLeaf env state.keymaster_public_keys chains info.username info.issued_at
        → info.auth_type ≡ auth_type_keymaster_x509
        → Evidence state required info
    ip_restricted :
        (chains : List (List Certificate))
        → r.tls ≡ some chains
        → meets required auth_type_ip_certificate ≡ true
        → BoundLeaf env state r.remote_addr chains info.username
        → info.auth_type ≡ auth_type_ip_certificate
        → Evidence state required info
    password :
        (basic : BasicAuth)
        → find_cookie auth_cookie_name r.cookies ≡ none
        → meets auth_type_password required ≡ true
        → r.basic_auth ≡ some basic
        → info.username ≡ reprocess_username env state basic.user
        → check_user_password env state info.username basic.pass ≡ ok true
        → info.auth_type ≡ auth_type_password
        → Evidence state required info
    session :
        (value : String)
        → find_cookie auth_cookie_name r.cookies ≡ some value
        → Session env state value info
        → env.now ≤ info.expires_at
        → meets info.auth_type required ≡ true
        → Evidence state required info

  check_cookie-Evidence :
      (required : ℕ) (value : String) (w v : World) (info : AuthInfo)
      → find_cookie auth_cookie_name r.cookies ≡ some value
      → check_cookie env r required value w ≡ (ok info, v)
      → Evidence w.state required info × (v ≡ w)
  unfolding check_cookie
  check_cookie-Evidence required value w v info found h =
      elim (Result-cases (get_auth_info_from_auth_jwt env w.state value)) [
        | inl (e, failed) ↦ absurd (ground arith)
        | inr (info', read) ↦
            let same : info' ≡ info = ground arith in
            (
              session value found (get_auth_info-Session env w.state value info (read ∙ ap ok same))
                  (ground arith) (ground arith),
              ground arith,
            )
      ]

  try_password-ok :
      (user pass : String) (w v : World) (info : AuthInfo)
      → try_password env r user pass w ≡ (ok info, v)
      → (check_user_password env w.state user pass ≡ ok true)
        × (info.username ≡ user)
        × (info.auth_type ≡ auth_type_password)
        × (v ≡ w)
  unfolding try_password
  try_password-ok user pass w v info h = ground arith

  check_password-Evidence :
      (required : ℕ) (w v : World) (info : AuthInfo)
      → find_cookie auth_cookie_name r.cookies ≡ none
      → check_password env r required w ≡ (ok info, v)
      → Evidence w.state required info × (v ≡ w)
  unfolding check_password
  check_password-Evidence required w v info absent h =
      elim (Bool-cases (meets auth_type_password required)) [
        | inr refused ↦ absurd (ground arith)
        | inl allowed ↦ elim (Option-cases r.basic_auth) [
          | inl none' ↦ absurd (ground arith)
          | inr (basic, given) ↦
              let (valid, named, level, same) =
                try_password-ok (reprocess_username env w.state basic.user) basic.pass w v info
                  (ground arith) in
              (
                password basic absent allowed given named
                    (ap (λ u. check_user_password env w.state u basic.pass) named ∙ valid) level,
                same,
              )
        ]
      ]

  keymaster_certificate-SignedLeaf :
      (required : ℕ) (keys : List String) (chains : List (List Certificate)) (info : AuthInfo)
      → keymaster_certificate env r required keys chains ≡ some info
      → (meets required auth_type_keymaster_x509 ≡ true)
        × SignedLeaf env keys chains info.username info.issued_at
        × (info.auth_type ≡ auth_type_keymaster_x509)
  unfolding keymaster_certificate
  keymaster_certificate-SignedLeaf required keys chains info h =
      elim (Result-cases (get_username_if_keymaster_signed env keys chains)) [
        | inl (e, failed) ↦ absurd (ground arith)
        | inr ((username, not_before), found) ↦
            let named : username ≢ "" = ground (arith, eq_iff username "") in
            let same : username ≡ info.username = ground arith in
            let begun : not_before ≡ info.issued_at = ground arith in
            (
              ground arith,
              keymaster_signed-SignedLeaf env keys chains info.username info.issued_at
                  (rw (same, begun) at found) (rw same at named),
              ground arith,
            )
      ]

  ip_certificate-BoundLeaf :
      (required : ℕ) (chains : List (List Certificate)) (w v : World) (answer : Option AuthInfo)
      → ip_certificate env r required chains w ≡ (ok answer, v)
      → (v ≡ w)
        × ((answer ≡ none)
            ⊎ ((info : AuthInfo) × (answer ≡ some info)
                × (meets required auth_type_ip_certificate ≡ true)
                × BoundLeaf env w.state r.remote_addr chains info.username
                × (info.auth_type ≡ auth_type_ip_certificate)))
  unfolding ip_certificate
  ip_certificate-BoundLeaf required chains w v answer h =
      go (get_username_if_ip_restricted env w.state r.remote_addr chains) refl
    where
      go :
          (x : IpVerdict)
          → get_username_if_ip_restricted env w.state r.remote_addr chains ≡ x
          → (v ≡ w)
            × ((answer ≡ none)
                ⊎ ((info : AuthInfo) × (answer ≡ some info)
                    × (meets required auth_type_ip_certificate ≡ true)
                    × BoundLeaf env w.state r.remote_addr chains info.username
                    × (info.auth_type ≡ auth_type_ip_certificate)))
      go (user_error e) judged = (ground arith, inl (ground arith))
      go (internal_error e) judged = (ground arith, inl (ground arith))
      go (accepted username not_before) judged =
          elim (Bool-cases (meets required auth_type_ip_certificate)) [
            | inr refused ↦ (ground arith, inl (ground arith))
            | inl allowed ↦ (
              ground arith,
              inr (
                record {
                  auth_type = auth_type_ip_certificate;
                  expires_at = 0;
                  issued_at = not_before;
                  username = username;
                },
                ground arith,
                allowed,
                ip_restricted-BoundLeaf env w.state r.remote_addr chains username not_before judged,
                refl,
              ),
            )
          ]

  -- What the look at the certificates comes to: nothing, or a user with evidence.
  abbrev Certified : World → ℕ → Option AuthInfo → Type 0
  Certified w required answer =
      (answer ≡ none) ⊎ ((info : AuthInfo) × (answer ≡ some info) × Evidence w.state required info)

  presented-Certified :
      (required : ℕ) (chains : List (List Certificate)) (w v : World) (answer : Option AuthInfo)
      → r.tls ≡ some chains
      → presented_certificates env r required chains w ≡ (ok answer, v)
      → Certified w required answer × (v ≡ w)
  unfolding presented_certificates
  presented-Certified required chains w v answer shown h =
      elim (Option-cases
        (keymaster_certificate env r required w.state.keymaster_public_keys chains)) [
          | inr (info, found) ↦
              let (allowed, leaf, level) =
                keymaster_certificate-SignedLeaf required _ chains info found in
              (
                inr (info, ground arith, keymaster_signed chains shown allowed leaf level),
                ground arith,
              )
          | inl missing ↦
              let (same, cases) =
                ip_certificate-BoundLeaf required chains w v answer (ground arith) in
              let certified : Certified w required answer = elim cases [
                | inl nothing ↦ inl nothing
                | inr (info, e, allowed, leaf, level) ↦
                    inr (info, e, ip_restricted chains shown allowed leaf level)
              ] in
              (certified, same)
        ]

  check_certificates-Certified :
      (required : ℕ) (w v : World) (answer : Option AuthInfo)
      → check_certificates env r required w ≡ (ok answer, v)
      → Certified w required answer × (v ≡ w)
  unfolding check_certificates
  check_certificates-Certified required w v answer h = go r.tls refl
    where
      go :
          (tls : Option (List (List Certificate)))
          → r.tls ≡ tls
          → Certified w required answer × (v ≡ w)
      go none e = (inl (ground arith), ground arith)
      go (some []) e = (inl (ground arith), ground arith)
      go (some (chain ∷ chains)) e =
          presented-Certified required (chain ∷ chains) w v answer e (ground arith)

  -- The cross-site test, as it is: a GET goes through, and so does a request that lacks its referer
  -- or its host; else the referer must parse and name the host.
  abbrev pub IsSameSite : Type 0
  IsSameSite =
      (r.method ≡ "GET")
      ⊎ (ltb 0 (len r.referer) ≡ false)
      ⊎ (ltb 0 (len r.host) ≡ false)
      ⊎ (env.url_host r.referer ≡ ok r.host)

  compare_referer-ok :
      (w v : World)
      → compare_referer env r w ≡ (ok tt, v)
      → (v ≡ w) × (env.url_host r.referer ≡ ok r.host)
  unfolding compare_referer
  compare_referer-ok w v h = elim (Result-cases (env.url_host r.referer)) [
    | inl (e, failed) ↦ absurd (ground arith)
    | inr (host, parsed) ↦ elim (Bool-cases (str_eq host r.host)) [
      | inl same ↦ (ground arith, parsed ∙ ap ok ((eq_iff host r.host).0 same))
      | inr other ↦ absurd (ground arith)
    ]
  ]

  check_csrf-ok : (w v : World) → check_csrf env r w ≡ (ok tt, v) → IsSameSite × (v ≡ w)
  unfolding check_csrf
  check_csrf-ok w v h = elim (Bool-cases (str_eq r.method "GET")) [
    | inl get ↦ (inl ((eq_iff r.method "GET").0 get), ground arith)
    | inr other ↦ elim (Bool-cases (ltb 0 (len r.referer))) [
      | inr empty ↦ (inr (inl empty), ground arith)
      | inl referred ↦ elim (Bool-cases (ltb 0 (len r.host))) [
        | inr empty ↦ (inr (inr (inl empty)), ground arith)
        | inl hosted ↦
            let (same, agree) = compare_referer-ok w v (ground arith) in
            (inr (inr (inr agree)), same)
      ]
    ]
  ]

  check_credentials-Evidence :
      (required : ℕ) (answer : Option AuthInfo) (w v : World) (info : AuthInfo)
      → Certified w required answer
      → check_credentials env r required answer w ≡ (ok info, v)
      → Evidence w.state required info × (v ≡ w)
  unfolding check_credentials
  check_credentials-Evidence required none w v info certified h =
      elim (Option-cases (find_cookie auth_cookie_name r.cookies)) [
        | inl absent ↦
            check_password-Evidence required w v info absent (rw (absent, check_credentials) at h)
        | inr (value, found) ↦
            check_cookie-Evidence required value w v info found (rw (found, check_credentials) at h)
      ]
  check_credentials-Evidence required (some info') w v info (inl e) h = absurd (ground arith)
  check_credentials-Evidence required (some info') w v info (inr (known, e, evidence)) h =
      let same : known ≡ info = ground arith in (rw same at evidence, ground arith)

  -- Whoever is let through has evidence, and nothing has been sent or changed. The evidence is a
  -- presented certificate of a configured key, one bound to the remote address, a password where no
  -- cookie came along, or a session cookie that has not expired; each only if it is among the
  -- required levels. The request has passed the cross-site test besides.
  pub check_auth-Evidence :
      (required : ℕ) (w v : World) (info : AuthInfo)
      → check_auth env r required w ≡ (ok info, v)
      → Evidence w.state required info × (v ≡ w) × IsSameSite
  unfolding check_auth
  check_auth-Evidence required w v info h =
      let (_, site, h1) =
        >>=-eq-ok_pure (λ _. IsSameSite) (check_csrf env r) _ w (λ _ u e. check_csrf-ok w u e) h in
      let (answer, certified, h2) =
        >>=-eq-ok_pure (Certified w required) (check_certificates env r required) _ w
          (λ answer u e. check_certificates-Certified required w u answer e) h1 in
      let (evidence, same) = check_credentials-Evidence required answer w v info certified h2 in
      (evidence, same, site)
