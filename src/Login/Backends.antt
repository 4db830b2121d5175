-- ===== src/Login/Backends.antt =====
-- What a login offers as backends of certificates, against what the certificate handler takes.
use keymaster.Prelude.{
  ℕ, String, Bool, true, List, [], ◌∷◌, Memᴰ, ◌≡◌, refl, ◌∙◌, sym, ap, subst, ◌⊎◌, inl, inr, arith,
  any, eq_iff, Bool-cases,
}
use keymaster.AuthType.{
  proto_password, proto_u2f, proto_symantec_vip, proto_totp, proto_okta_2fa, has,
}
use keymaster.State.{RuntimeState}
use keymaster.CheckAuth.{flag_of}
use keymaster.CertHandler.{admits, is_sufficient}
use keymaster.Login.{offers, offered, cert_backends}

Memᴰ-any :
    (p : String → Bool) (x : String) (xs : List String) → Memᴰ x xs → p x ≡ true → any p xs ≡ true
Memᴰ-any p x [] m e = elim m [ ]
Memᴰ-any p x (y ∷ ys) (Memᴰ.head same) e =
    let here : p y ≡ true = ap p (sym same) ∙ e in ground arith
Memᴰ-any p x (y ∷ ys) (Memᴰ.tail m) e = ground (arith, Memᴰ-any p x ys m e)

module _ (state : RuntimeState) (has_tokens : Bool) where
  head_or_tail : (a b : String) (rest : List String) → Memᴰ a (b ∷ rest) → (a ≡ b) ⊎ Memᴰ a rest
  head_or_tail a b rest (Memᴰ.head same) = inl same
  head_or_tail a b rest (Memᴰ.tail m) = inr m

  offered-Memᴰ :
      (name : String) (prefs : List String)
      → Memᴰ name (offered state has_tokens prefs)
      → Memᴰ name prefs × (offers state has_tokens name ≡ true)
  unfolding offered
  offered-Memᴰ name [] m = elim m [ ]
  offered-Memᴰ name (pref ∷ prefs) m = elim (Bool-cases (offers state has_tokens pref)) [
    | inl offer ↦
        elim (head_or_tail name pref (offered state has_tokens prefs) (rw (offer, offered) at m)) [
          | inl same ↦ (Memᴰ.head same, ap (offers state has_tokens) same ∙ offer)
          | inr later ↦ let (there, e) = offered-Memᴰ name prefs later in (Memᴰ.tail there, e)
        ]
    | inr none_given ↦
        let (there, e) = offered-Memᴰ name prefs (rw (none_given, offered) at m) in
        (Memᴰ.tail there, e)
  ]

  offers_cases :
      (name : String)
      → offers state has_tokens name ≡ true
      → (name ≡ proto_password)
        ⊎ ((name ≡ proto_u2f)
            ⊎ ((name ≡ proto_symantec_vip) ⊎ ((name ≡ proto_totp) ⊎ (name ≡ proto_okta_2fa))))
  unfolding offers
  offers_cases name offer = ground (
    arith,
    eq_iff name proto_password,
    eq_iff name proto_u2f,
    eq_iff name proto_symantec_vip,
    eq_iff name proto_totp,
    eq_iff name proto_okta_2fa,
  )

  module _ (level : ℕ) where
    -- A session with the flag of a preference's name is admitted by that preference.
    abbrev FlagAdmits : String → Type 0
    FlagAdmits name = has level (flag_of name) ≡ true → admits level name ≡ true

    password_admits : FlagAdmits proto_password
    unfolding admits flag_of
    password_admits h = refl

    u2f_admits : FlagAdmits proto_u2f
    unfolding admits flag_of
    u2f_admits h = ground arith

    vip_admits : FlagAdmits proto_symantec_vip
    unfolding admits flag_of
    vip_admits h = ground arith

    totp_admits : FlagAdmits proto_totp
    unfolding admits flag_of
    totp_admits h = ground arith

    okta_admits : FlagAdmits proto_okta_2fa
    unfolding admits flag_of
    okta_admits h = ground arith

    offers-admits : (name : String) → offers state has_tokens name ≡ true → FlagAdmits name
    offers-admits name offer = elim (offers_cases name offer) [
      | inl e ↦ subst FlagAdmits (sym e) password_admits
      | inr e1 ↦ elim e1 [
        | inl e ↦ subst FlagAdmits (sym e) u2f_admits
        | inr e2 ↦ elim e2 [
          | inl e ↦ subst FlagAdmits (sym e) vip_admits
          | inr e3 ↦ elim e3 [
            | inl e ↦ subst FlagAdmits (sym e) totp_admits
            | inr e ↦ subst FlagAdmits (sym e) okta_admits
          ]
        ]
      ]
    ]

    offered-is_sufficient :
        (name : String)
        → Memᴰ name (offered state has_tokens state.config.base.allowed_auth_backends_for_certs)
        → has level (flag_of name) ≡ true
        → is_sufficient state level ≡ true
    unfolding is_sufficient
    offered-is_sufficient name m flagged =
        let (there, offer) =
          offered-Memᴰ name state.config.base.allowed_auth_backends_for_certs m in
        let found =
          Memᴰ-any (admits level) name state.config.base.allowed_auth_backends_for_certs there
            (offers-admits name offer flagged) in
        rw found refl

    fallback-is_sufficient :
        (name : String)
        → Memᴰ name (proto_u2f ∷ [])
        → has level (flag_of name) ≡ true
        → is_sufficient state level ≡ true
    unfolding is_sufficient flag_of
    fallback-is_sufficient name m flagged = elim (head_or_tail name proto_u2f [] m) [
      | inl same ↦
          let token : has level (flag_of proto_u2f) ≡ true =
            subst (λ n. has level (flag_of n) ≡ true) same flagged in
          ground arith
      | inr later ↦ elim later [ ]
    ]

    -- Whatever backend a login names to a client, a session with that backend's flag is sufficient
    -- for a certificate.
    pub cert_backends-is_sufficient :
        (name : String)
        → Memᴰ name (cert_backends state has_tokens)
        → has level (flag_of name) ≡ true
        → is_sufficient state level ≡ true
    unfolding cert_backends
    cert_backends-is_sufficient name =
        go (offered state has_tokens state.config.base.allowed_auth_backends_for_certs) refl
      where
        go :
            (l : List String)
            → offered state has_tokens state.config.base.allowed_auth_backends_for_certs ≡ l
            → Memᴰ name (elim l [ [] ↦ proto_u2f ∷ [] | first ∷ rest ↦ first ∷ rest ])
            → has level (flag_of name) ≡ true
            → is_sufficient state level ≡ true
        go [] e m flagged = fallback-is_sufficient name m flagged
        go (first ∷ rest) e m flagged =
            offered-is_sufficient name (subst (λ l. Memᴰ name l) (sym e) m) flagged
