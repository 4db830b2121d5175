-- ===== src/CheckAuth/Evidence.antt =====
-- What it takes to be let through, stated apart from the code that checks it.
use keymaster.Prelude.{
  ℕ, String, true, false, List, [], ◌∷◌, Memᴰ, ◌≡◌, refl, ◌≢◌, ap, ◌∙◌, sym, ◌⊎◌, inl, inr, arith,
  Bool-cases, str_eq, eq_iff, eq_refl,
}
use keymaster.Result.{ok, Result-cases}
use keymaster.Http.{Certificate}
use keymaster.State.{Env, RuntimeState}
use keymaster.Jwt.{get_key_fingerprint}
use keymaster.IpRestricted.{verify_ip_restricted_x509_cert_ip}
use keymaster.Directory.{is_automation_user}
use keymaster.CheckAuth.{
  accepted, is_keymaster_key, get_username_if_keymaster_signed, judge_leaf,
  get_username_if_ip_restricted,
}

module _ (env : Env) where
  -- A presented chain whose leaf was signed by the certificate of a configured key.
  pub record SignedLeaf (keys : List String) (chains : List (List Certificate)) (username : String)
      (not_before : ℕ) : Type 0 where
    pub leaf : Certificate
    pub signer : Certificate
    pub above : List Certificate
    pub presented : Memᴰ (leaf ∷ signer ∷ above) chains
    pub key : String
    pub configured : Memᴰ key keys
    pub fingerprint : String
    pub of_key : get_key_fingerprint env key ≡ ok fingerprint
    pub of_signer : get_key_fingerprint env signer.public_key ≡ ok fingerprint
    pub named : leaf.common_name ≡ username
    pub begun : leaf.not_before ≡ not_before

  is_keymaster_key_sound :
      (fingerprint : String) (keys : List String)
      → is_keymaster_key env fingerprint keys ≡ ok true
      → (key : String) × Memᴰ key keys × (get_key_fingerprint env key ≡ ok fingerprint)
  unfolding is_keymaster_key
  is_keymaster_key_sound fingerprint [] h = cc
  is_keymaster_key_sound fingerprint (key ∷ keys) h =
      elim (Result-cases (get_key_fingerprint env key)) [
        | inl (e, failed) ↦ absurd (ground arith)
        | inr (fp, made) ↦ elim (Bool-cases (str_eq fingerprint fp)) [
          | inl same ↦ (key, Memᴰ.head refl, made ∙ ap ok (sym ((eq_iff fingerprint fp).0 same)))
          | inr other ↦
              let (k, m, found) = is_keymaster_key_sound fingerprint keys (ground arith) in
              (k, Memᴰ.tail m, found)
        ]
      ]

  SignedLeaf-cons :
      {keys : List String} {chains : List (List Certificate)} {username : String} {not_before : ℕ}
      (chain : List Certificate)
      → SignedLeaf keys chains username not_before
      → SignedLeaf keys (chain ∷ chains) username not_before
  SignedLeaf-cons chain s = record {
    leaf = s.leaf;
    signer = s.signer;
    above = s.above;
    presented = Memᴰ.tail s.presented;
    key = s.key;
    configured = s.configured;
    fingerprint = s.fingerprint;
    of_key = s.of_key;
    of_signer = s.of_signer;
    named = s.named;
    begun = s.begun;
  }

  is_keymaster_key_complete :
      (fingerprint : String) (keys : List String)
      → is_keymaster_key env fingerprint keys ≡ ok false
      → (key : String) → Memᴰ key keys
      → get_key_fingerprint env key ≢ ok fingerprint
  unfolding is_keymaster_key
  is_keymaster_key_complete fingerprint [] h key m = elim m [ ]
  is_keymaster_key_complete fingerprint (k ∷ keys) h key m =
      elim (Result-cases (get_key_fingerprint env k)) [
        | inl (e, failed) ↦ absurd (ground arith)
        | inr (fp, made) ↦ elim (Bool-cases (str_eq fingerprint fp)) [
          | inl same ↦ absurd (ground arith)
          | inr other ↦
              not_in keys fp made other (is_keymaster_key_complete fingerprint keys (ground arith))
                m
        ]
      ]
    where
      not_in :
          (rest : List String) (fp : String)
          → get_key_fingerprint env k ≡ ok fp
          → str_eq fingerprint fp ≡ false
          → ((x : String) → Memᴰ x rest → get_key_fingerprint env x ≢ ok fingerprint)
          → Memᴰ key (k ∷ rest)
          → get_key_fingerprint env key ≢ ok fingerprint
      not_in rest fp made other later (Memᴰ.head same) found =
          let agree : ok fp ≡ ok fingerprint =
            sym made ∙ ap (get_key_fingerprint env) (sym same) ∙ found in
          absurd (ground (arith, eq_refl fingerprint))
      not_in rest fp made other later (Memᴰ.tail m') found = later key m' found

  -- No presented chain's leaf is signed by the certificate of a configured key.
  abbrev pub Unsigned : List String → List (List Certificate) → Type 0
  Unsigned keys chains =
      (leaf signer : Certificate) (above : List Certificate) (fingerprint key : String)
      → Memᴰ (leaf ∷ signer ∷ above) chains
      → get_key_fingerprint env signer.public_key ≡ ok fingerprint
      → Memᴰ key keys
      → get_key_fingerprint env key ≢ ok fingerprint

  -- What the search for a signed leaf comes to.
  abbrev Search : List String → List (List Certificate) → (username : String) → ℕ → Type 0
  Search keys chains username not_before =
      SignedLeaf keys chains username not_before ⊎ (Unsigned keys chains × (username ≡ ""))

  -- A chain that is passed over is no signed one.
  Search-cons :
      {keys : List String} {chains : List (List Certificate)} {username : String} {not_before : ℕ}
      (chain : List Certificate)
      → Unsigned keys (chain ∷ [])
      → Search keys chains username not_before
      → Search keys (chain ∷ chains) username not_before
  Search-cons chain passed (inl s) = inl (SignedLeaf-cons chain s)
  Search-cons {keys} {chains} chain passed (inr (unsigned, nobody)) = inr (all, nobody)
    where
      all : Unsigned keys (chain ∷ chains)
      all leaf signer above fingerprint key (Memᴰ.head e) =
          passed leaf signer above fingerprint key (Memᴰ.head e)
      all leaf signer above fingerprint key (Memᴰ.tail m) =
          unsigned leaf signer above fingerprint key m

  short_chain-Unsigned :
      (keys : List String) (chain : List Certificate)
      → ((leaf signer : Certificate) (above : List Certificate) → leaf ∷ signer ∷ above ≢ chain)
      → Unsigned keys (chain ∷ [])
  short_chain-Unsigned keys chain short leaf signer above fingerprint key (Memᴰ.head e) =
      absurd (short leaf signer above e)
  short_chain-Unsigned keys chain short leaf signer above fingerprint key (Memᴰ.tail m) = elim m [ ]

  other_key-Unsigned :
      (keys : List String) (leaf signer : Certificate) (above : List Certificate) (fp : String)
      → get_key_fingerprint env signer.public_key ≡ ok fp
      → is_keymaster_key env fp keys ≡ ok false
      → Unsigned keys ((leaf ∷ signer ∷ above) ∷ [])
  other_key-Unsigned keys leaf signer above fp made searched leaf' signer' above' fp' key
        (Memᴰ.head e) of_signer m found =
      let same : signer' ≡ signer = ground arith in
      let agree : ok fp ≡ ok fp' =
        sym made ∙ ap (λ c. get_key_fingerprint env c.public_key) (sym same) ∙ of_signer in
      is_keymaster_key_complete fp keys searched key m (found ∙ sym agree)
  other_key-Unsigned keys leaf signer above fp made searched leaf' signer' above' fp' key
        (Memᴰ.tail m') of_signer m found =
      elim m' [ ]

  -- What is answered is either a signed leaf's owner, or nobody's name, none being signed.
  pub keymaster_signed-Search :
      (keys : List String) (chains : List (List Certificate)) (username : String) (not_before : ℕ)
      → get_username_if_keymaster_signed env keys chains ≡ ok (username, not_before)
      → Search keys chains username not_before
  unfolding get_username_if_keymaster_signed
  keymaster_signed-Search keys [] username not_before h =
      inr ((λ leaf signer above fingerprint key m. elim m [ ]), ground arith)
  keymaster_signed-Search keys ([] ∷ chains) username not_before h =
      Search-cons [] (short_chain-Unsigned keys [] (λ leaf signer above e. cc))
        (keymaster_signed-Search keys chains username not_before h)
  keymaster_signed-Search keys ((leaf ∷ []) ∷ chains) username not_before h =
      Search-cons (leaf ∷ []) (short_chain-Unsigned keys (leaf ∷ []) (λ l s above e. cc))
        (keymaster_signed-Search keys chains username not_before h)
  keymaster_signed-Search keys ((leaf ∷ signer ∷ above) ∷ chains) username not_before h =
      elim (Result-cases (get_key_fingerprint env signer.public_key)) [
        | inl (e, failed) ↦ absurd (ground arith)
        | inr (fp, made) ↦ elim (Result-cases (is_keymaster_key env fp keys)) [
          | inl (e, failed) ↦ absurd (ground arith)
          | inr (signed, searched) ↦ elim (Bool-cases signed) [
            | inl yes' ↦
                let (key, m, of_key) = is_keymaster_key_sound fp keys (searched ∙ ap ok yes') in
                inl (record {
                  leaf = leaf;
                  signer = signer;
                  above = above;
                  presented = Memᴰ.head refl;
                  key = key;
                  configured = m;
                  fingerprint = fp;
                  of_key = of_key;
                  of_signer = made;
                  named = ground arith;
                  begun = ground arith;
                })
            | inr no' ↦
                Search-cons (leaf ∷ signer ∷ above)
                  (other_key-Unsigned keys leaf signer above fp made (searched ∙ ap ok no'))
                  (keymaster_signed-Search keys chains username not_before (ground arith))
          ]
        ]
      ]

  pub keymaster_signed-SignedLeaf :
      (keys : List String) (chains : List (List Certificate)) (username : String) (not_before : ℕ)
      → get_username_if_keymaster_signed env keys chains ≡ ok (username, not_before)
      → username ≢ ""
      → SignedLeaf keys chains username not_before
  keymaster_signed-SignedLeaf keys chains username not_before h named =
      elim (keymaster_signed-Search keys chains username not_before h) [
        | inl signed ↦ signed
        | inr (unsigned, nobody) ↦ absurd (named nobody)
      ]

  -- A leaf bound to the remote address, of an automation user, that was not found revoked.
  pub record BoundLeaf (state : RuntimeState) (remote_addr : String)
      (chains : List (List Certificate)) (username : String) : Type 0 where
    pub leaf : Certificate
    pub above : List Certificate
    pub others : List (List Certificate)
    pub presented : chains ≡ (leaf ∷ above) ∷ others
    pub near : verify_ip_restricted_x509_cert_ip env leaf remote_addr ≡ ok true
    pub automation : is_automation_user env state username ≡ ok true
    pub not_revoked : env.certificate_revoked leaf ≢ (true, true)
    pub named : leaf.common_name ≡ username

  judge_leaf-accepted :
      (state : RuntimeState) (remote_addr : String) (leaf : Certificate) (username : String)
      (not_before : ℕ)
      → judge_leaf env state remote_addr leaf ≡ accepted username not_before
      → (verify_ip_restricted_x509_cert_ip env leaf remote_addr ≡ ok true)
        × (is_automation_user env state leaf.common_name ≡ ok true)
        × (env.certificate_revoked leaf ≢ (true, true))
        × (leaf.common_name ≡ username)
  unfolding judge_leaf
  judge_leaf-accepted state remote_addr leaf username not_before h = ground arith

  pub ip_restricted-BoundLeaf :
      (state : RuntimeState) (remote_addr : String) (chains : List (List Certificate))
      (username : String) (not_before : ℕ)
      → get_username_if_ip_restricted env state remote_addr chains ≡ accepted username not_before
      → BoundLeaf state remote_addr chains username
  unfolding get_username_if_ip_restricted
  ip_restricted-BoundLeaf state remote_addr [] username not_before h = absurd (ground arith)
  ip_restricted-BoundLeaf state remote_addr ([] ∷ chains) username not_before h =
      absurd (ground arith)
  ip_restricted-BoundLeaf state remote_addr ((leaf ∷ above) ∷ chains) username not_before h =
      let (near, automation, fresh, named) =
        judge_leaf-accepted state remote_addr leaf username not_before h in
      record {
        leaf = leaf;
        above = above;
        others = chains;
        presented = refl;
        near = near;
        automation = ap (is_automation_user env state) (sym named) ∙ automation;
        not_revoked = fresh;
        named = named;
      }
