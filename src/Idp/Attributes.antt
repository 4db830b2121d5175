-- ===== src/Idp/Attributes.antt =====
-- cmd/keymasterd/idp_oidc.go: what the directory knows of a user, and the user's information from it.
use Prim.Native.String.{len, ◌++◌}
use keymaster.Prelude.{String, List, [], ◌∷◌, Option, none, some, ltb, str_eq, if◌then◌else◌}
use keymaster.Prelude.Dict.{Dict, lookup, insert}
use keymaster.Result.{Result, ok, err, ◌>>=◌}
use keymaster.Http.{OpenidConnectUserInfo}
use keymaster.State.{Env, RuntimeState}
use keymaster.Directory.{prepend_groups}

module _ (env : Env) where
  -- The first URL whose server answers; the groups are left out where they cannot be had.
  first_ldap_attributes :
      (username : String) (attributes : List String) → List String → Result (Dict (List String))
  unfolding insert
  first_ldap_attributes username attributes [] = err "error getting the groups"
  first_ldap_attributes username attributes (url ∷ urls) =
      let rest = first_ldap_attributes username attributes urls in
      if str_eq url "" then rest else elim (env.ldap_user_attributes url username attributes) [
        | err e ↦ rest
        | ok found ↦ ok (elim (env.ldap_user_groups url username) [
          | err e ↦ found
          | ok groups ↦ insert "groups" groups found
        ])
      ]

  unfoldable pub get_ldap_user_attributes :
      RuntimeState
      → (username : String) (attributes : List String) → Option (Result (Dict (List String)))
  unfolding first_ldap_attributes
  get_ldap_user_attributes state username attributes =
      elim state.config.user_info.ldap_target_urls [
        | [] ↦ none
        | url ∷ urls ↦ some (first_ldap_attributes username attributes (url ∷ urls))
      ]

  unfoldable pub get_git_db_user_attributes :
      RuntimeState → (username : String) → Option (Result (Dict (List String)))
  unfolding prepend_groups
  get_git_db_user_attributes state username = elim state.git_db [
    | none ↦ none
    | some db ↦ some (do
      groups ← env.git_user_groups db username
      ok (("groups", prepend_groups groups state.config.user_info.git_db_group_prepend) ∷ []))
  ]

  -- A nil map is an empty one.
  unfoldable pub get_user_attributes :
      RuntimeState → (username : String) (attributes : List String) → Result (Dict (List String))
  unfolding get_ldap_user_attributes get_git_db_user_attributes
  get_user_attributes state username attributes =
      elim (get_ldap_user_attributes state username attributes) [
        | some found ↦ found
        | none ↦ elim (get_git_db_user_attributes state username) [
          | some found ↦ found
          | none ↦ ok []
        ]
      ]

-- The address of the directory, else the user's at the domain. An empty list of addresses is a panic.
unfoldable pub email_of : RuntimeState → (username : String) → Dict (List String) → Result String
unfolding lookup
email_of state username found =
    let domain =
      if ltb 3 (len state.config.openid_connect_idp.default_email_domain)
      then state.config.openid_connect_idp.default_email_domain
      else state.host_identity in
    elim (lookup "mail" found) [
      | none ↦ ok (username ++ ("@" ++ domain))
      | some mails ↦ elim mails [ [] ↦ err "panic: index out of range" | mail ∷ more ↦ ok mail ]
    ]

unfoldable pub user_info_of :
    RuntimeState → (username : String) → Result (Dict (List String)) → Result OpenidConnectUserInfo
unfolding email_of lookup
user_info_of state username attributes =
    let found : Dict (List String) = elim attributes [ ok map ↦ map | err e ↦ [] ] in
    do
      email ← email_of state username found
      ok (record {
        subject = username;
        name = username;
        login = username;
        username = username;
        email = email;
        groups = elim (lookup "groups" found) [ none ↦ [] | some groups ↦ groups ];
      })
