-- ===== src/Ldap/Offline.antt =====
-- What the remembered passwords are worth once no server answers.
use keymaster.Prelude.{
  ℕ, ◌+◌, ◌≤◌, ◌<◌, String, Bool, true, false, Option, none, some, ◌≡◌, refl, ◌∙◌, sym, ap, arith,
}
use keymaster.Result.{ok}
use keymaster.Jwt.{unix}
use keymaster.Store.{SimpleStore, StoreLaws}
use keymaster.Ldap.{
  Servers, Crypto, password_data_type, PasswordAuthenticator, update_or_delete_password_hash,
  first_answer, check_stored, password_authenticate,
}

module _ {S : Type 0} (store : SimpleStore S) (laws : StoreLaws store) (crypto : Crypto)
    (pa : PasswordAuthenticator) (user : String) where
  -- Some server answers, or none does.
  abbrev pub Answers : Servers → (password : String) → Option Bool → Type 0
  Answers servers password answer =
      first_answer store crypto servers user password pa.bind_pattern pa.ldap_url ≡ answer

  -- A run of the checker in which a server answers that the password is right, Argon2 hashes it and
  -- the store takes what is put into it. What the run puts there is not said.
  pub record Remembered (servers : Servers) (now : ℕ) (password : String) (s s' : S) : Type 0 where
    pub answered : Answers servers password (some true)
    pub hash : String
    pub hashed : crypto.argon2_make_new_hash password ≡ ok hash
    pub working :
        (key content : String) (type expiration : ℕ)
        → (t : S) × (store.upsert_signed (unix now) key type expiration content s ≡ ok t)
    pub run : password_authenticate store crypto pa servers now user password s ≡ (true, s')

  update_stores :
      (now : ℕ) (password hash : String) (s s' : S)
      → crypto.argon2_make_new_hash password ≡ ok hash
      → store.upsert_signed
          (unix now)
          user
          password_data_type
          (unix (now + pa.expiration_duration))
          hash
          s
        ≡ ok s'
      → update_or_delete_password_hash store crypto pa now true user password s ≡ s'
  unfolding update_or_delete_password_hash
  update_stores now password hash s s' hashed stored =
      rw (hashed, stored, update_or_delete_password_hash) refl

  update_deletes :
      (now : ℕ) (password hash : String) (s s1 s2 : S)
      → store.get_signed (unix now) user password_data_type s ≡ (ok (some hash), s1)
      → crypto.argon2_compare_hash_and_password hash password ≡ true
      → store.delete_signed user password_data_type s1 ≡ ok s2
      → update_or_delete_password_hash store crypto pa now false user password s ≡ s2
  unfolding update_or_delete_password_hash
  update_deletes now password hash s s1 s2 there same gone =
      rw (ap (λ p. p.0) there, same, ap (λ p. p.1) there, gone, update_or_delete_password_hash) refl

  -- The run leaves the store with the hash of the accepted password put into it.
  Remembered-stored :
      (servers : Servers) (now : ℕ) (password : String) (s s' : S)
      (m : Remembered servers now password s s')
      → store.upsert_signed
          (unix now)
          user
          password_data_type
          (unix (now + pa.expiration_duration))
          m.hash
          s
        ≡ ok s'
  unfolding password_authenticate
  Remembered-stored servers now password s s' m =
      let (t, stored) =
        m.working user m.hash password_data_type (unix (now + pa.expiration_duration)) in
      let left = ap (λ x. x.1) (rw (m.answered, password_authenticate) at m.run) in
      stored ∙ ap ok (sym (update_stores now password m.hash s t m.hashed stored) ∙ left)

  offline :
      (servers : Servers) (later : ℕ) (password : String) (s : S)
      → Answers servers password none
      → (password_authenticate store crypto pa servers later user password s).0
        ≡ (check_stored store crypto later user password s).0
  unfolding password_authenticate
  offline servers later password s down = rw (down, password_authenticate) refl

  found :
      (later : ℕ) (password hash : String) (s : S)
      → (store.get_signed (unix later) user password_data_type s).0 ≡ ok (some hash)
      → (check_stored store crypto later user password s).0
        ≡ crypto.argon2_compare_hash_and_password hash password
  unfolding check_stored
  found later password hash s e = rw e refl

  absent :
      (later : ℕ) (password : String) (s : S)
      → (store.get_signed (unix later) user password_data_type s).0 ≡ ok none
      → (check_stored store crypto later user password s).0 ≡ false
  unfolding check_stored
  absent later password s e = rw e refl

  unix-le : (a b : ℕ) → a ≤ b → unix a ≤ unix b
  unfolding unix
  unix-le a b le = omega arith

  -- While no server answers, the password that one accepted is accepted, in the store that this
  -- left, until it expires, by a hash that Argon2 takes for it; and any other is measured against
  -- that hash.
  pub offline_until :
      (servers servers' : Servers) (now later : ℕ) (password other : String) (s s' : S)
      (m : Remembered servers now password s s')
      → crypto.argon2_compare_hash_and_password m.hash password ≡ true
      → now ≤ later
      → unix later < unix (now + pa.expiration_duration)
      → Answers servers' password none
      → Answers servers' other none
      → ((password_authenticate store crypto pa servers' later user password s').0 ≡ true)
        × ((password_authenticate store crypto pa servers' later user other s').0
            ≡ crypto.argon2_compare_hash_and_password m.hash other)
  offline_until servers servers' now later password other s s' m same le early down down' =
      let got =
        laws.got (unix now) (unix later) user m.hash password_data_type
          (unix (now + pa.expiration_duration)) s s' (Remembered-stored servers now password s s' m)
          (unix-le now later le) early in
      (
        offline servers' later password s' down ∙ found later password m.hash s' got ∙ same,
        offline servers' later other s' down' ∙ found later other m.hash s' got,
      )

  -- In the store that an accepted password left, once that password has expired, no password of the
  -- user is accepted without a server.
  pub offline_expired :
      (servers servers' : Servers) (now later : ℕ) (password other : String) (s s' : S)
      → Remembered servers now password s s'
      → unix (now + pa.expiration_duration) < unix later
      → Answers servers' other none
      → (password_authenticate store crypto pa servers' later user other s').0 ≡ false
  offline_expired servers servers' now later password other s s' m late down =
      offline servers' later other s' down
      ∙ absent later other s' (
          laws.expired (unix now) (unix later) user m.hash password_data_type
            (unix (now + pa.expiration_duration)) s s'
            (Remembered-stored servers now password s s' m) late)

  -- A password that is remembered and that a server refuses is forgotten: in the store that is left
  -- no password of the user is accepted without a server.
  pub refused_forgets :
      (servers servers' : Servers) (now later : ℕ) (password other hash : String) (s s1 s2 : S)
      → Answers servers password (some false)
      → store.get_signed (unix now) user password_data_type s ≡ (ok (some hash), s1)
      → crypto.argon2_compare_hash_and_password hash password ≡ true
      → store.delete_signed user password_data_type s1 ≡ ok s2
      → Answers servers' other none
      → (password_authenticate store crypto pa servers now user password s ≡ (false, s2))
        × ((password_authenticate store crypto pa servers' later user other s2).0 ≡ false)
  unfolding password_authenticate update_or_delete_password_hash
  refused_forgets servers servers' now later password other hash s s1 s2 refused there same gone
        down =
      (
        rw (refused, password_authenticate)
            (ap (λ x. (false, x)) (update_deletes now password hash s s1 s2 there same gone)),
        offline servers' later other s2 down
            ∙ absent later other s2 (laws.deleted (unix later) user password_data_type s1 s2 gone),
      )
