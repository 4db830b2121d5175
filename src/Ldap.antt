-- ===== src/Ldap.antt =====
-- lib/pwauth/ldap: the password checker that asks the LDAP servers and remembers, as hashes in a
-- signed store, the passwords that they accepted.
pub mod Offline
use keymaster.Prelude.{
  ℕ, ◌+◌, ◌*◌, String, Bool, true, false, List, [], ◌∷◌, Option, none, some, if◌then◌else◌,
}
use keymaster.Result.{Result, ok, err}
use keymaster.Jwt.{second, unix}
use keymaster.Store.{SimpleStore}

-- CheckLDAPUserPassword: what the servers answer on a password at some moment.
abbrev pub Servers : Type 0
Servers = (url bind_dn password : String) → Result Bool

-- lib/authutil's Argon2, and fmt.Sprintf on a bind pattern.
pub record Crypto : Type 0 where
  pub argon2_make_new_hash : (password : String) → Result String
  pub argon2_compare_hash_and_password : (hash password : String) → Bool
  pub convert_to_bind_dn : (username bind_pattern : String) → String

abbrev pub password_data_type : ℕ
password_data_type = 1

-- A nil storage is a store whose every operation fails.
pub record PasswordAuthenticator : Type 0 where
  pub ldap_url : List String
  pub bind_pattern : List String
  pub expiration_duration : ℕ

module _ {S : Type 0} (store : SimpleStore S) (crypto : Crypto) where
  -- An accepted password is remembered; a refused one is forgotten, if it is the one remembered.
  -- The second half of a pair is the store that is left.
  unfoldable pub update_or_delete_password_hash :
      PasswordAuthenticator → (now : ℕ) (valid : Bool) (username password : String) → S → S
  update_or_delete_password_hash pa now true username password s =
      elim (crypto.argon2_make_new_hash password) [
        | err e ↦ s
        | ok hash ↦
            elim (store.upsert_signed (unix now) username password_data_type
              (unix (now + pa.expiration_duration)) hash s) [ err e ↦ s | ok s' ↦ s' ]
      ]
  update_or_delete_password_hash pa now false username password s =
      let (answer, s') = store.get_signed (unix now) username password_data_type s in
      elim answer [
        | err e ↦ s'
        | ok found ↦ elim found [
          | none ↦ s'
          | some hash ↦
              if crypto.argon2_compare_hash_and_password hash password
              then elim (store.delete_signed username password_data_type s') [
                | err e ↦ s'
                | ok s'' ↦ s''
              ]
              else s'
        ]
      ]

  -- the loops over the URLs and the patterns: the first answer, if there is one
  first_answer_of :
      Servers → (url username password : String) → (patterns : List String) → Option Bool
  first_answer_of servers url username password [] = none
  first_answer_of servers url username password (pattern ∷ patterns) =
      let rest = first_answer_of servers url username password patterns in
      elim (servers url (crypto.convert_to_bind_dn username pattern) password) [
        | err e ↦ rest
        | ok valid ↦ some valid
      ]

  unfoldable pub first_answer :
      Servers → (username password : String) (patterns urls : List String) → Option Bool
  unfolding first_answer_of
  first_answer servers username password patterns [] = none
  first_answer servers username password patterns (url ∷ urls) =
      let rest = first_answer servers username password patterns urls in
      elim (first_answer_of servers url username password patterns) [
        | none ↦ rest
        | some valid ↦ some valid
      ]

  -- whether the password is the one remembered
  unfoldable pub check_stored : (now : ℕ) (username password : String) → S → Bool × S
  check_stored now username password s =
      let (answer, s') = store.get_signed (unix now) username password_data_type s in
      (
        elim answer [
          | err e ↦ false
          | ok found ↦ elim found [
            | none ↦ false
            | some hash ↦ crypto.argon2_compare_hash_and_password hash password
          ]
        ],
        s',
      )

  -- The error of passwordAuthenticate is always nil.
  unfoldable pub password_authenticate :
      PasswordAuthenticator → Servers → (now : ℕ) (username password : String) → S → Bool × S
  password_authenticate pa servers now username password s =
      elim (first_answer servers username password pa.bind_pattern pa.ldap_url) [
        | some valid ↦ (valid, update_or_delete_password_hash pa now valid username password s)
        | none ↦ check_stored now username password s
      ]
