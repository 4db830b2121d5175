-- ===== src/Unseal/Opened.antt =====
-- cmd/keymasterd/unseal.go: what unsealing has done, and when it comes to an end.
use keymaster.Prelude.{
  ℕ, zero, suc, ◌<◌, String, Bool, true, false, ◌||◌, List, [], ◌∷◌, ◌++◌, Memᴰ, none, some, ◌≡◌,
  refl, ◌∙◌, sym, ap, subst, inl, inr, arith, str_eq, eq_iff, Bool-cases, Option-cases,
}
use keymaster.Result.{Result, ok, err, Result-cases}
use keymaster.State.{Env, RuntimeState, SignerKind}
use keymaster.CertGen.{get_signer_from_pem_bytes}
use keymaster.Jwt.{get_key_fingerprint}
use keymaster.Unseal.{
  is_unsealed, has_fingerprint, signer_public_key_to_keymaster_keys, generate_ca_der, is_ed25519,
  signs_certificates, load_ed25519_signer, load_signer, load_signers_from_pem_data,
  pgp_decrypt_file_data, decrypt_ed25519, unseal_ca, try_aws_unseal, auto_unseal_aws_loop,
}

module _ (env : Env) where
  -- A signer that is loaded is the key of the file, and the authority's certificate is its own.
  abbrev Loaded : (pem : String) → RuntimeState → (signer : String) → RuntimeState → Type 0
  Loaded pem state signer state' =
      ((kind : SignerKind) × (get_signer_from_pem_bytes env pem ≡ ok (kind, signer)))
      × (state'.signer ≡ some signer)
      × (generate_ca_der env state signer ≡ ok state'.ca_cert_der)
      × (state'.keymaster_public_keys ≡ state.keymaster_public_keys)

  load_signer-ok :
      (pem : String) (state state' : RuntimeState) (signer : String)
      → load_signer env pem state ≡ (ok signer, state')
      → Loaded pem state signer state'
  unfolding load_signer
  load_signer-ok pem state state' signer h =
      elim (Result-cases (get_signer_from_pem_bytes env pem)) [
        | inl (e, failed) ↦ absurd (ground arith)
        | inr ((kind, key), parsed) ↦ elim (Bool-cases (signs_certificates env kind)) [
          | inr other ↦ absurd (ground arith)
          | inl right ↦ elim (Result-cases (generate_ca_der env state key)) [
            | inl (e, failed) ↦ absurd (ground arith)
            | inr (der, made) ↦
                let h1 : Path (Result String × RuntimeState)
                    (ok key, record state { ca_cert_der = der; signer = some key })
                    (ok signer, state') =
                  rw (parsed, right, made, load_signer) at h in
                let same : key ≡ signer = ground (arith, h1) in
                let left = ap (λ p. p.1) h1 in
                (
                  (kind, parsed ∙ ap (λ k. ok (kind, k)) same),
                  ap (λ s. s.signer) (sym left) ∙ ap some same,
                  ap (generate_ca_der env state) (sym same)
                      ∙ made
                      ∙ ap (λ s. ok s.ca_cert_der) left,
                  ap (λ s. s.keymaster_public_keys) (sym left),
                )
          ]
        ]
      ]

  load_signer-err :
      (pem : String) (state state' : RuntimeState) (e : String)
      → load_signer env pem state ≡ (err e, state')
      → state'.signer ≡ state.signer
  unfolding load_signer
  load_signer-err pem state state' e h = elim (Result-cases (get_signer_from_pem_bytes env pem)) [
    | inl (x, failed) ↦ ground arith
    | inr ((kind, key), parsed) ↦ elim (Bool-cases (signs_certificates env kind)) [
      | inr other ↦ ground arith
      | inl right ↦ elim (Result-cases (generate_ca_der env state key)) [
        | inl (x, failed) ↦ ground arith
        | inr (der, made) ↦ absurd (ground arith)
      ]
    ]
  ]

  -- The Ed25519 key touches nothing else.
  abbrev Beside : RuntimeState → RuntimeState → Type 0
  Beside state state' =
      (state'.signer ≡ state.signer)
      × (state'.keymaster_public_keys ≡ state.keymaster_public_keys)
      × ((signer : String) → generate_ca_der env state' signer ≡ generate_ca_der env state signer)

  load_ed25519-Beside :
      (pem : String) (state state' : RuntimeState)
      → load_ed25519_signer env pem state ≡ ok state'
      → Beside state state'
  unfolding load_ed25519_signer generate_ca_der
  load_ed25519-Beside pem state state' h = elim (Bool-cases (str_eq pem "")) [
    | inl nothing ↦
        let same : state ≡ state' = ground arith in
        subst (Beside state) same (refl, refl, λ signer. refl)
    | inr something ↦ elim (Result-cases (get_signer_from_pem_bytes env pem)) [
      | inl (e, failed) ↦ absurd (ground arith)
      | inr ((kind, key), parsed) ↦ elim (Bool-cases (is_ed25519 env kind)) [
        | inr other ↦ absurd (ground arith)
        | inl right ↦
            let same : record state { ed25519_signer = some key } ≡ state' = ground arith in
            subst (Beside state) same (refl, refl, λ signer. refl)
      ]
    ]
  ]

  signer_key-signer :
      (signer : String) (state : RuntimeState)
      → (signer_public_key_to_keymaster_keys env signer state).signer ≡ state.signer
  unfolding signer_public_key_to_keymaster_keys
  signer_key-signer signer state =
      elim (Result-cases (get_key_fingerprint env (env.public_of signer))) [
        | inl (e, failed) ↦ ground arith
        | inr (fp, computed) ↦
            elim (Result-cases (has_fingerprint env fp state.keymaster_public_keys)) [
              | inl (e, failed) ↦ ground arith
              | inr (found, searched) ↦ ground arith
            ]
      ]

  -- Every fingerprint that unsealing looks at can be computed.
  abbrev pub Fingerprints : List String → Type 0
  Fingerprints keys =
      (key : String) → Memᴰ key keys → (fp : String) × (get_key_fingerprint env key ≡ ok fp)

  -- Some key among the configured ones has the fingerprint of a public key.
  abbrev pub Configured : (public_key : String) → List String → Type 0
  Configured public_key keys =
      (key : String) × (fp : String) × Memᴰ key keys
      × (get_key_fingerprint env key ≡ ok fp)
      × (get_key_fingerprint env public_key ≡ ok fp)

  has_fingerprint-cases :
      (fp : String) (keys : List String)
      → Fingerprints keys
      → (found : Bool) × (has_fingerprint env fp keys ≡ ok found)
        × (found ≡ true → (key : String) × Memᴰ key keys × (get_key_fingerprint env key ≡ ok fp))
  unfolding has_fingerprint
  has_fingerprint-cases fp [] all = (false, refl, λ h. absurd (ground arith))
  has_fingerprint-cases fp (key ∷ keys) all =
      let (here, computed) = all key (Memᴰ.head refl) in
      let (later, searched, there) = has_fingerprint-cases fp keys (λ k m. all k (Memᴰ.tail m)) in
      (
        str_eq fp here || later,
        rw (computed, searched, has_fingerprint) refl,
        λ h. elim (Bool-cases (str_eq fp here)) [
          | inl same ↦ (key, Memᴰ.head refl, computed ∙ ap ok (sym ((eq_iff fp here).0 same)))
          | inr other ↦ let (k, m, e) = there (ground arith) in (k, Memᴰ.tail m, e)
        ],
      )

  Memᴰ-append_last : (x : String) (xs : List String) → Memᴰ x (xs ++ (x ∷ []))
  Memᴰ-append_last x [] = Memᴰ.head refl
  Memᴰ-append_last x (y ∷ ys) = Memᴰ.tail (Memᴰ-append_last x ys)

  signer_key-Configured :
      (signer : String) (state : RuntimeState)
      → Fingerprints (env.public_of signer ∷ state.keymaster_public_keys)
      → Configured
          (env.public_of signer)
          (signer_public_key_to_keymaster_keys env signer state).keymaster_public_keys
  unfolding signer_public_key_to_keymaster_keys
  signer_key-Configured signer state all =
      let (fp, computed) = all (env.public_of signer) (Memᴰ.head refl) in
      let (found, searched, there) =
        has_fingerprint-cases fp state.keymaster_public_keys (λ k m. all k (Memᴰ.tail m)) in
      elim (Bool-cases found) [
        | inl yet ↦
            let (key, m, e) = there yet in
            rw (computed, searched, yet, signer_public_key_to_keymaster_keys) (key, fp, m, e, refl)
        | inr absent ↦
            rw (computed, searched, absent, signer_public_key_to_keymaster_keys)
              (
                env.public_of signer,
                fp,
                Memᴰ-append_last (env.public_of signer) state.keymaster_public_keys,
                computed,
                refl,
              )
      ]

  -- What a successful unsealing has done.
  pub record Unsealed (password : String) (state : RuntimeState) (signer : String)
      (state' : RuntimeState) : Type 0 where
    pub was_sealed : state.signer ≡ none
    pub pem : String
    pub decrypted : pgp_decrypt_file_data env state.ssh_ca_raw_file_content password ≡ ok pem
    pub kind : SignerKind
    pub parsed : get_signer_from_pem_bytes env pem ≡ ok (kind, signer)
    pub unsealed : state'.signer ≡ some signer
    pub configured : Configured (env.public_of signer) state'.keymaster_public_keys

  load_signers-Loaded :
      (pem ed25519_pem : String) (state state' : RuntimeState) (signer : String)
      → load_signers_from_pem_data env pem ed25519_pem state ≡ (ok signer, state')
      → ((kind : SignerKind) × (get_signer_from_pem_bytes env pem ≡ ok (kind, signer)))
        × (state'.signer ≡ some signer)
        × (state'.keymaster_public_keys ≡ state.keymaster_public_keys)
  unfolding load_signers_from_pem_data
  load_signers-Loaded pem ed25519_pem state state' signer h =
      elim (Result-cases (load_ed25519_signer env ed25519_pem state)) [
        | inl (e, failed) ↦ absurd (ground arith)
        | inr (between, loaded) ↦
            let (_, kept, _) = load_ed25519-Beside ed25519_pem state between loaded in
            let (parsed, set, _, keys) =
              load_signer-ok pem between state' signer
                (rw (loaded, load_signers_from_pem_data) at h) in
            (parsed, set, keys ∙ kept)
      ]

  load_signers-err :
      (pem ed25519_pem : String) (state state' : RuntimeState) (e : String)
      → load_signers_from_pem_data env pem ed25519_pem state ≡ (err e, state')
      → state'.signer ≡ state.signer
  unfolding load_signers_from_pem_data
  load_signers-err pem ed25519_pem state state' e h =
      elim (Result-cases (load_ed25519_signer env ed25519_pem state)) [
        | inl (x, failed) ↦ ground arith
        | inr (between, loaded) ↦
            load_signer-err pem between state' e (rw (loaded, load_signers_from_pem_data) at h)
            ∙ (load_ed25519-Beside ed25519_pem state between loaded).0
      ]

  from_parts-Unsealed :
      (password signer : String) (state state' : RuntimeState) (key : String)
      (between : RuntimeState) (pem ed_pem : String)
      → state.signer ≡ none
      → pgp_decrypt_file_data env state.ssh_ca_raw_file_content password ≡ ok pem
      → load_signers_from_pem_data env pem ed_pem state ≡ (ok key, between)
      → key ≡ signer
      → signer_public_key_to_keymaster_keys env key between ≡ state'
      → Fingerprints (env.public_of signer ∷ state.keymaster_public_keys)
      → Unsealed password state signer state'
  from_parts-Unsealed password signer state state' key between pem ed_pem sealed decrypted loaded
        same left all =
      let ((kind, parsed), set, keys) = load_signers-Loaded pem ed_pem state between key loaded in
      subst (λ s. Unsealed password state s state') same
        (subst (Unsealed password state key) left (record {
          was_sealed = sealed;
          pem = pem;
          decrypted = decrypted;
          kind = kind;
          parsed = parsed;
          unsealed = signer_key-signer key between ∙ set;
          configured = signer_key-Configured key between (
              subst (λ l. Fingerprints (env.public_of key ∷ l)) (sym keys)
                (subst (λ k. Fingerprints (env.public_of k ∷ state.keymaster_public_keys))
                  (sym same) all));
        }))

  -- A daemon that is unsealed was sealed before, the password opens its file, its signer is the key
  -- in that file, and the signer's public key has its fingerprint among the configured ones, where
  -- the fingerprints of all these keys can be computed.
  pub unseal_ca-Unsealed :
      (password signer : String) (state state' : RuntimeState)
      → Fingerprints (env.public_of signer ∷ state.keymaster_public_keys)
      → unseal_ca env password state ≡ (ok signer, state')
      → Unsealed password state signer state'
  unfolding unseal_ca
  unseal_ca-Unsealed password signer state state' all h = elim (Option-cases state.signer) [
    | inr (key, unlocked) ↦ absurd (ground arith)
    | inl sealed ↦
        elim (Result-cases (pgp_decrypt_file_data env state.ssh_ca_raw_file_content password)) [
          | inl (e, failed) ↦ absurd (ground arith)
          | inr (pem, decrypted) ↦
              elim (Result-cases (decrypt_ed25519 env state.ed25519_ca_file_content password)) [
                | inl (e, failed) ↦ absurd (ground arith)
                | inr (ed_pem, decrypted') ↦
                    elim (Result-cases (load_signers_from_pem_data env pem ed_pem state).0) [
                      | inl (e, failed) ↦ absurd (ground arith)
                      | inr (key, loaded) ↦
                          let between = (load_signers_from_pem_data env pem ed_pem state).1 in
                          let same : key ≡ signer = ground arith in
                          let left : signer_public_key_to_keymaster_keys env key between ≡ state' =
                            ground arith in
                          from_parts-Unsealed password signer state state' key between pem ed_pem
                            sealed decrypted (ap (λ r. (r, between)) loaded) same left all
                    ]
              ]
        ]
  ]

  -- An error leaves the signer as it was: an unsealed daemon stays so, and a sealed one stays sealed.
  pub unseal_ca-err :
      (password e : String) (state state' : RuntimeState)
      → unseal_ca env password state ≡ (err e, state')
      → state'.signer ≡ state.signer
  unfolding unseal_ca
  unseal_ca-err password e state state' h = elim (Option-cases state.signer) [
    | inr (key, unlocked) ↦ ground arith
    | inl sealed ↦
        elim (Result-cases (pgp_decrypt_file_data env state.ssh_ca_raw_file_content password)) [
          | inl (x, failed) ↦ ground arith
          | inr (pem, decrypted) ↦
              elim (Result-cases (decrypt_ed25519 env state.ed25519_ca_file_content password)) [
                | inl (x, failed) ↦ ground arith
                | inr (ed_pem, decrypted') ↦
                    elim (Result-cases (load_signers_from_pem_data env pem ed_pem state).0) [
                      | inr (key, loaded) ↦ absurd (ground arith)
                      | inl (x, failed) ↦
                          let between = (load_signers_from_pem_data env pem ed_pem state).1 in
                          let same : between ≡ state' = ground arith in
                          ap (λ s. s.signer) (sym same)
                          ∙ load_signers-err pem ed_pem state between x
                              (ap (λ r. (r, between)) failed)
                    ]
              ]
        ]
  ]

  -- What the attempts bring until one of them unseals the daemon: `n` that fail and one that does.
  pub data Succeeds (key : String)
      : (ℕ → Result (List (String × String)))
        → RuntimeState
        → ℕ
        → String
        → RuntimeState
        → Type 0 where
    now :
        {secrets : ℕ → Result (List (String × String))} {state state' : RuntimeState}
        {signer : String}
        → is_unsealed state ≡ false
        → try_aws_unseal env key (secrets 0) state ≡ (ok signer, state')
        → Succeeds key secrets state 0 signer state'
    later :
        {secrets : ℕ → Result (List (String × String))} {state state1 state' : RuntimeState}
        {signer e : String} {n : ℕ}
        → is_unsealed state ≡ false
        → try_aws_unseal env key (secrets 0) state ≡ (err e, state1)
        → Succeeds key (λ k. secrets (suc k)) state1 n signer state'
        → Succeeds key secrets state (suc n) signer state'

  -- The loop of the automatic unsealing comes to an end with the attempt that succeeds: fuel for
  -- all attempts is enough, more of it changes nothing, and the state is the one that this attempt
  -- leaves.
  pub auto_unseal_aws_loop-Succeeds :
      {key : String} {secrets : ℕ → Result (List (String × String))} {state : RuntimeState} {n : ℕ}
      {signer : String} {state' : RuntimeState}
      → Succeeds key secrets state n signer state'
      → (fuel : ℕ) → n < fuel
      → auto_unseal_aws_loop env fuel key secrets state ≡ (true, state')
  unfolding auto_unseal_aws_loop
  auto_unseal_aws_loop-Succeeds (now sealed tried) zero enough = absurd (omega arith)
  auto_unseal_aws_loop-Succeeds (later sealed tried rest) zero enough = absurd (omega arith)
  auto_unseal_aws_loop-Succeeds (now sealed tried) (suc fuel) enough =
      rw (sealed, ap (λ p. p.0) tried, auto_unseal_aws_loop) (ap (λ p. (true, p.1)) tried)
  auto_unseal_aws_loop-Succeeds (later sealed tried rest) (suc fuel) enough =
      rw (sealed, ap (λ p. p.0) tried, ap (λ p. p.1) tried, auto_unseal_aws_loop)
        (auto_unseal_aws_loop-Succeeds rest fuel (omega arith))
