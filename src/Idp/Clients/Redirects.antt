-- ===== src/Idp/Clients/Redirects.antt =====
-- The test of a redirect target against what it means to allow.
use Prim.Native.String.{◌++◌}
use keymaster.Prelude.{
  String, Bool, true, false, ◌&&◌, List, [], ◌∷◌, Memᴰ, some, ◌≡◌, refl, ◌⊎◌, inl, inr, ◌↔◌, ◌∙◌,
  ap, sym, arith, contains_text, ends_with, any-eq-true_cases, Memᴰ-any-eq-true, eq_iff, Bool-cases,
  Option-cases, if◌then◌else◌,
}
use keymaster.Prelude.Suffix.{ends_with-front, front-ends_with}
use keymaster.Result.{Result, ok, Result-cases, >>=-eq-ok}
use keymaster.Config.{OpenIdConnectClientConfig}
use keymaster.State.{Env, RuntimeState, Url}
use keymaster.Idp.Clients.{
  client_of, is_empty, in_domains, matches_some, verdict, client_may_redirect,
  idp_open_idc_client_can_redirect,
}

module _ (env : Env) where
  -- The host name ends in some of the domains, as a bare text: "notexample.com" ends in
  -- "example.com".
  abbrev EndsInSome : List String → (hostname : String) → Type 0
  EndsInSome domains hostname =
      (domain : String) × Memᴰ domain domains × (front : String) × (hostname ≡ front ++ domain)

  in_domains-EndsInSome :
      (domains : List String) (hostname : String)
      → in_domains domains hostname ≡ true
      → EndsInSome domains hostname
  in_domains-EndsInSome domains hostname h =
      let (domain, m, ends) = any-eq-true_cases (λ d. ends_with hostname d) domains h in
      let (front, e) = ends_with-front hostname domain ends in (domain, m, front, e)

  EndsInSome-in_domains :
      (domains : List String) (hostname : String)
      → EndsInSome domains hostname
      → in_domains domains hostname ≡ true
  EndsInSome-in_domains domains hostname (domain, m, front, e) =
      Memᴰ-any-eq-true (λ d. ends_with hostname d) domains domain m
        (ap (λ s. ends_with s domain) e ∙ front-ends_with front domain)

  -- A target that a client may redirect to: it parses, its scheme is https, it has no query and no
  -- ".." in its path; some expression matches it, if the client has any, and its host name ends in
  -- some domain, if the client has any; and the client has one or the other.
  pub record Allowed (client : OpenIdConnectClientConfig) (redirect_url : String) : Type 0 where
    pub url : Url
    pub parsed : env.parse_url redirect_url ≡ ok url
    pub secure : url.scheme ≡ "https"
    pub no_query : url.raw_query ≡ ""
    pub no_traversal : contains_text url.path ".." ≡ false
    pub matched :
        (is_empty client.allowed_redirect_url_re ≡ true)
        ⊎ ((expression : String) × Memᴰ expression client.allowed_redirect_url_re
            × (env.match_string expression redirect_url ≡ ok true))
    pub in_domain :
        (is_empty client.allowed_redirect_domains ≡ true)
        ⊎ EndsInSome client.allowed_redirect_domains url.hostname
    pub restricted :
        (is_empty client.allowed_redirect_domains && is_empty client.allowed_redirect_url_re)
        ≡ false

  module _ (redirect_url : String) where
    if_ok :
        (answer later : Bool)
        → (if answer then ok true else ok later) ≡ ok (if answer then true else later)
    if_ok true later = refl
    if_ok false later = refl

    matches_some-Memᴰ :
        (expressions : List String)
        → matches_some env expressions redirect_url ≡ ok true
        → (expression : String) × Memᴰ expression expressions
          × (env.match_string expression redirect_url ≡ ok true)
    unfolding matches_some
    matches_some-Memᴰ [] h = cc
    matches_some-Memᴰ (x ∷ xs) h =
        let (matched, answered, h1) = >>=-eq-ok (env.match_string x redirect_url) _ h in
        elim (Bool-cases matched) [
          | inl hit ↦ (x, Memᴰ.head refl, answered ∙ ap ok hit)
          | inr miss ↦ let (y, m, e) = matches_some-Memᴰ xs (rw miss at h1) in (y, Memᴰ.tail m, e)
        ]

    -- every expression is one that can be compiled
    abbrev pub Compile : List String → Type 0
    Compile expressions =
        (x : String)
        → Memᴰ x expressions
        → (answer : Bool) × (env.match_string x redirect_url ≡ ok answer)

    Memᴰ-matches_some :
        (expressions : List String)
        → Compile expressions
        → (expression : String) → Memᴰ expression expressions
        → env.match_string expression redirect_url ≡ ok true
        → matches_some env expressions redirect_url ≡ ok true
    unfolding matches_some
    Memᴰ-matches_some [] good y m e = elim m [ ]
    Memᴰ-matches_some (x ∷ xs) good y (Memᴰ.head same) e =
        let here : env.match_string x redirect_url ≡ ok true =
          ap (λ s. env.match_string s redirect_url) (sym same) ∙ e in
        rw here refl
    Memᴰ-matches_some (x ∷ xs) good y (Memᴰ.tail m) e =
        let (answer, answered) = good x (Memᴰ.head refl) in
        let rest = Memᴰ-matches_some xs (λ z k. good z (Memᴰ.tail k)) y m e in
        rw (answered, rest)
          (elim (Bool-cases answer) [ inl hit ↦ rw hit refl | inr miss ↦ rw miss refl ])

    verdict_iff :
        (client : OpenIdConnectClientConfig) (url : Url) (matched_re : Bool)
        → (verdict env client url matched_re ≡ true) ↔ (
            (url.scheme ≡ "https")
            × (url.raw_query ≡ "")
            × (contains_text url.path ".." ≡ false)
            × ((is_empty client.allowed_redirect_domains ≡ true)
                ⊎ (in_domains client.allowed_redirect_domains url.hostname ≡ true))
            × (((is_empty client.allowed_redirect_domains ≡ false)
                  × (is_empty client.allowed_redirect_url_re ≡ true))
                ⊎ (matched_re ≡ true)))
    unfolding verdict
    verdict_iff client url matched_re =
        ground (arith, eq_iff url.scheme "https", eq_iff url.raw_query "")

    unless_both :
        (client : OpenIdConnectClientConfig) (rest : Result Bool)
        → (if is_empty client.allowed_redirect_domains && is_empty client.allowed_redirect_url_re
            then ok false
            else rest)
          ≡ ok true
        → ((is_empty client.allowed_redirect_domains && is_empty client.allowed_redirect_url_re)
            ≡ false)
          × (rest ≡ ok true)
    unless_both client rest h =
        elim (Bool-cases
          (is_empty client.allowed_redirect_domains && is_empty client.allowed_redirect_url_re)) [
            | inl both ↦ absurd (ground arith)
            | inr some_list ↦ (some_list, ground arith)
          ]

    client_may_redirect-Allowed :
        (client : OpenIdConnectClientConfig)
        → client_may_redirect env client redirect_url ≡ ok true
        → Allowed client redirect_url
    unfolding client_may_redirect
    client_may_redirect-Allowed client h =
        let (restricted, h1) = unless_both client _ h in
        let (matched_re, matched, h2) =
          >>=-eq-ok (matches_some env client.allowed_redirect_url_re redirect_url) _ h1 in
        elim (Result-cases (env.parse_url redirect_url)) [
          | inl (e, failed) ↦ absurd (ground arith)
          | inr (url, parsed) ↦
              let passed : verdict env client url matched_re ≡ true = ground arith in
              let (secure, no_query, no_traversal, in_domain, one) =
                (verdict_iff client url matched_re).0 passed in
              record {
                url = url;
                parsed = parsed;
                secure = secure;
                no_query = no_query;
                no_traversal = no_traversal;
                matched = elim one [
                  | inl (domains, none_given) ↦ inl none_given
                  | inr hit ↦
                      inr (matches_some-Memᴰ client.allowed_redirect_url_re (matched ∙ ap ok hit))
                ];
                in_domain = elim in_domain [
                  | inl none_given ↦ inl none_given
                  | inr ends ↦
                      inr (in_domains-EndsInSome client.allowed_redirect_domains url.hostname ends)
                ];
                restricted = restricted;
              }
        ]

    Compile-matches_some :
        (expressions : List String)
        → Compile expressions
        → (answer : Bool) × (matches_some env expressions redirect_url ≡ ok answer)
    unfolding matches_some
    Compile-matches_some [] good = (false, refl)
    Compile-matches_some (x ∷ xs) good =
        let (answer, answered) = good x (Memᴰ.head refl) in
        let (later, rest) = Compile-matches_some xs (λ z k. good z (Memᴰ.tail k)) in
        (if answer then true else later, rw (answered, rest) (if_ok answer later))

    allowed_by :
        (client : OpenIdConnectClientConfig) (url : Url) (answer : Bool)
        → matches_some env client.allowed_redirect_url_re redirect_url ≡ ok answer
        → env.parse_url redirect_url ≡ ok url
        → (is_empty client.allowed_redirect_domains && is_empty client.allowed_redirect_url_re)
          ≡ false
        → verdict env client url answer ≡ true
        → client_may_redirect env client redirect_url ≡ ok true
    unfolding client_may_redirect
    allowed_by client url answer matched parsed restricted good =
        rw (restricted, matched, parsed, good) refl

    Allowed-client_may_redirect :
        (client : OpenIdConnectClientConfig)
        → Compile client.allowed_redirect_url_re
        → Allowed client redirect_url
        → client_may_redirect env client redirect_url ≡ ok true
    Allowed-client_may_redirect client good a =
        let given : (is_empty client.allowed_redirect_url_re ≡ true)
            → is_empty client.allowed_redirect_domains ≡ false =
          λ e. ground (arith, a.restricted) in
        let ends : (is_empty client.allowed_redirect_domains ≡ true)
            ⊎ (in_domains client.allowed_redirect_domains a.url.hostname ≡ true) =
          elim a.in_domain [
            | inl none_given ↦ inl none_given
            | inr ends ↦
                inr (EndsInSome-in_domains client.allowed_redirect_domains a.url.hostname ends)
          ] in
        elim a.matched [
          | inl none_given ↦
              let (answer, matched) = Compile-matches_some client.allowed_redirect_url_re good in
              allowed_by client a.url answer matched a.parsed a.restricted (
                (verdict_iff client a.url answer).1
                  (a.secure, a.no_query, a.no_traversal, ends, inl (given none_given, none_given)))
          | inr (x, m, e) ↦
              allowed_by client a.url true
                (Memᴰ-matches_some client.allowed_redirect_url_re good x m e) a.parsed a.restricted
                ((verdict_iff client a.url true).1
                  (a.secure, a.no_query, a.no_traversal, ends, inr refl))
        ]

  -- Where the client of the name exists and its expressions compile, a redirect is allowed exactly
  -- to the targets that parse, are https, have no query and no ".." in the path, are matched by some
  -- expression if the client has any and have a host name that ends, as a bare text, in some domain
  -- if it has any, one of the two being given.
  pub can_redirect_iff :
      (state : RuntimeState) (client_id redirect_url : String) (client : OpenIdConnectClientConfig)
      → client_of state client_id ≡ some client
      → Compile redirect_url client.allowed_redirect_url_re
      → (idp_open_idc_client_can_redirect env state client_id redirect_url ≡ ok true)
        ↔ Allowed client redirect_url
  unfolding idp_open_idc_client_can_redirect
  can_redirect_iff state client_id redirect_url client known good =
      rw (known, idp_open_idc_client_can_redirect)
        (
          λ h. client_may_redirect-Allowed redirect_url client h,
          λ a. Allowed-client_may_redirect redirect_url client good a,
        )

  -- Whatever the name, a redirect that is allowed is one of a client of that name.
  pub can_redirect-Allowed :
      (state : RuntimeState) (client_id redirect_url : String)
      → idp_open_idc_client_can_redirect env state client_id redirect_url ≡ ok true
      → (client : OpenIdConnectClientConfig) × (client_of state client_id ≡ some client)
        × Allowed client redirect_url
  unfolding idp_open_idc_client_can_redirect
  can_redirect-Allowed state client_id redirect_url h =
      elim (Option-cases (client_of state client_id)) [
        | inl absent ↦ absurd (ground arith)
        | inr (client, known) ↦ (
          client,
          known,
          client_may_redirect-Allowed redirect_url client
              (rw (known, idp_open_idc_client_can_redirect) at h),
        )
      ]
