-- ===== src/Idp/Exchange.antt =====
-- A code from its granting to the tokens that are given for it.
use keymaster.Prelude.{
  ℕ, ◌+◌, ◌≤◌, String, true, false, Memᴰ, some, none, leb, ◌≡◌, ◌≢◌, refl, ◌∙◌, sym, ap, arith,
  str_eq, eq_iff, eq_refl,
}
use keymaster.Result.{ok}
use keymaster.Http.{Request}
use keymaster.State.{Env, RuntimeState, AuthInfo, at}
use keymaster.Checks.{passed}
use keymaster.Respond.{form_get}
use keymaster.Jwt.{jwt_claims, unix}
use keymaster.Jwt.Laws.{JoseLaws, jwt_claims-eq-ok}
use keymaster.Jwt.Sessions.{JoseLaws-at}
use keymaster.Idp.Clients.{idp_open_idc_valid_client_secret}
use keymaster.Idp.Tokens.{KeymasterdCodeToken, marshal_code, unmarshal_code}
use keymaster.Idp.Tokens.RoundTrip.{unmarshal-marshal_code}
use keymaster.Idp.Grants.{
  Form, GrantedCode, token_endpoint, code_claims, granted_code, read_token, token_request,
  valid_client, client_credentials, idp_open_idc_max_auth_process_max_duration_seconds,
}
use keymaster.Idp.Grants.Sound.{Granting, granted_code-Granting}

ne-str_eq : (a b : String) → a ≢ b → str_eq a b ≡ false
ne-str_eq a b h = ground (arith, eq_iff a b, h)

le→leb : (a b : ℕ) → a ≤ b → leb a b ≡ true
le→leb a b h = ground arith

module _ (env : Env) (public_key : String → String) (laws : JoseLaws env public_key)
    (state : RuntimeState) (key : String) (unsealed : state.signer ≡ some key)
    (configured : Memᴰ (public_key key) state.keymaster_public_keys) where
  -- The code in a text is read back at any later time.
  read_token-code :
      (signer text : String) (c : KeymasterdCodeToken) (later : ℕ)
      → env.jose_signer (some key) ≡ ok signer
      → env.sign_compact signer (marshal_code c) ≡ ok text
      → read_token (at env later) state unmarshal_code text ≡ passed c
  read_token-code signer text c later loaded made =
      let (token, parsed, checked) = laws.signed key signer (marshal_code c) text loaded made in
      let found : jwt_claims (at env later) state unmarshal_code token ≡ ok c =
        jwt_claims-eq-ok (at env later) (JoseLaws-at later laws) state unmarshal_code
          (public_key key) token (marshal_code c) c configured checked (unmarshal-marshal_code c) in
      rw (parsed, found) refl

  -- What a client sends to have its code exchanged: the code, the target again, and its name and
  -- secret in the form.
  pub record Exchange (form : Form) (text client_id pass redirect_uri : String) : Type 0 where
    pub grant : form_get form "grant_type" ≡ "authorization_code"
    pub code : form_get form "code" ≡ text
    pub target : form_get form "redirect_uri" ≡ redirect_uri
    pub name : form_get form "client_id" ≡ client_id
    pub secret : form_get form "client_secret" ≡ pass
    pub no_verifier : form_get form "code_verifier" ≡ ""

  accepted :
      (later : ℕ) (r : Request) (form : Form) (text pass : String) (c : KeymasterdCodeToken)
      → r.basic_auth ≡ none
      → Exchange form text c.subject pass c.redirect_uri
      → text ≢ ""
      → c.subject ≢ ""
      → pass ≢ ""
      → c.redirect_uri ≢ ""
      → c.type ≡ token_endpoint
      → unix later ≤ c.expiration
      → idp_open_idc_valid_client_secret state c.subject pass ≡ true
      → read_token (at env later) state unmarshal_code text ≡ passed c
      → token_request (at env later) state r form
        ≡ passed (record { client_id = c.subject; code = c })
  unfolding token_request client_credentials valid_client
  accepted later r form text pass c headless x some_text some_name some_pass some_target typed live
        valid read =
      rw
        (
          x.grant,
          x.code,
          x.target,
          headless,
          x.name,
          x.secret,
          x.no_verifier,
          ne-str_eq c.redirect_uri "" some_target,
          ne-str_eq text "" some_text,
          read,
          ne-str_eq pass "" some_pass,
          ne-str_eq c.subject "" some_name,
          valid,
          eq_refl c.subject,
          le→leb (unix later) c.expiration live,
          eq_refl c.redirect_uri,
          (eq_iff c.type token_endpoint).1 typed,
          token_request,
        )
        (rw (ne-str_eq pass "" some_pass) refl)

  -- A code that was granted is accepted for as long as it lasts, 300 seconds: whoever sends it in a form
  -- with the client's name and secret and the same target, and without a verifier, passes every guard
  -- of the token handler, and the tokens are about the very claims that were granted. The daemon is unsealed and its public
  -- key is among the configured ones.
  pub token_request-granted_code :
      (auth_data : AuthInfo) (form form' : Form) (granted : GrantedCode) (raw pass : String)
      (later : ℕ) (r : Request)
      → granted_code env state auth_data form ≡ passed granted
      → env.sign_compact granted.signer (marshal_code granted.code) ≡ ok raw
      → r.basic_auth ≡ none
      → Exchange form' raw (form_get form "client_id") pass (form_get form "redirect_uri")
      → raw ≢ ""
      → pass ≢ ""
      → form_get form "redirect_uri" ≢ ""
      → idp_open_idc_valid_client_secret state (form_get form "client_id") pass ≡ true
      → unix later ≤ unix env.now + idp_open_idc_max_auth_process_max_duration_seconds
      → token_request (at env later) state r form'
        ≡ passed (record { client_id = form_get form "client_id"; code = granted.code })
  token_request-granted_code auth_data form form' granted raw pass later r h made headless x
        some_raw some_pass some_target valid live =
      let g : Granting env state auth_data form granted =
        granted_code-Granting env state auth_data form granted h in
      let c = code_claims env state auth_data form g.jwt_id g.sealed in
      let read : read_token (at env later) state unmarshal_code raw ≡ passed c =
        read_token-code granted.signer raw c later (ap env.jose_signer (sym unsealed) ∙ g.loaded)
          (ap (λ d. env.sign_compact granted.signer (marshal_code d)) (sym g.claims) ∙ made) in
      accepted later r form' raw pass c headless x some_raw g.named some_pass some_target refl live
        valid read
      ∙ ap (λ d. passed (record { client_id = form_get form "client_id"; code = d })) (sym g.claims)
