-- ===== src/Directory.antt =====
-- cmd/keymasterd/certgen.go and app.go: the groups of a user, and who is an automation user or an
-- administrator.
use Prim.Native.String.{◌++◌}
use keymaster.Prelude.{
  ℕ, ◌&&◌, String, Bool, true, false, List, [], ◌∷◌, Option, none, some, map, any, contains, str_eq,
  if◌then◌else◌,
}
use keymaster.Result.{Result, ok, err, ◌>>=◌}
use keymaster.AuthType.{auth_type_u2f, meets}
use keymaster.AdminCache.{get, put}
use keymaster.State.{Env, RuntimeState}

unfoldable pub prepend_groups : List String → (prefix : String) → List String
prepend_groups groups prefix =
    if str_eq prefix "" then groups else map (λ group. prefix ++ group) groups

module _ (env : Env) where
  -- The first URL that parses and whose server answers. A nil groups database, or no URLs, is
  -- `none`: the source is not configured.
  first_ldap_groups : (username prefix : String) → List String → Result (List String)
  unfolding prepend_groups
  first_ldap_groups username prefix [] = err "error getting the groups"
  first_ldap_groups username prefix (url ∷ urls) =
      let rest = first_ldap_groups username prefix urls in
      if str_eq url "" then rest else elim (env.ldap_user_groups url username) [
        | err e ↦ rest
        | ok groups ↦ ok (prepend_groups groups prefix)
      ]

  unfoldable get_ldap_user_groups :
      RuntimeState → (username : String) → Option (Result (List String))
  unfolding first_ldap_groups
  get_ldap_user_groups state username = elim state.config.user_info.ldap_target_urls [
    | [] ↦ none
    | url ∷ urls ↦
        some (first_ldap_groups username state.config.user_info.ldap_group_prepend (url ∷ urls))
  ]

  unfoldable get_git_db_user_groups :
      RuntimeState → (username : String) → Option (Result (List String))
  unfolding prepend_groups
  get_git_db_user_groups state username = elim state.git_db [
    | none ↦ none
    | some db ↦ some (do
      groups ← env.git_user_groups db username
      ok (prepend_groups groups state.config.user_info.git_db_group_prepend))
  ]

  unfoldable pub get_user_groups : RuntimeState → (username : String) → Result (List String)
  unfolding get_ldap_user_groups get_git_db_user_groups
  get_user_groups state username = elim (get_ldap_user_groups state username) [
    | some groups ↦ groups
    | none ↦ elim (get_git_db_user_groups state username) [ some groups ↦ groups | none ↦ ok [] ]
  ]

  unfoldable pub is_automation_user : RuntimeState → (username : String) → Result Bool
  is_automation_user state username =
      if contains username state.config.base.automation_users then ok true else do
        groups ← get_user_groups state username
        ok (any (λ group. contains group groups) state.config.base.automation_user_groups)

  -- `_IsAdminUser`
  unfoldable pub find_admin_user : RuntimeState → (user : String) → Result Bool
  find_admin_user state user =
      if contains user state.config.base.admin_users
      then ok true
      else elim state.config.base.admin_groups [
        | [] ↦ ok false
        | admin_group ∷ admin_groups ↦ do
          groups ← get_user_groups state user
          ok (any (λ group. contains group groups) (admin_group ∷ admin_groups))
      ]

  -- The answer with the state it leaves: a fresh entry is used as it is, else the answer is looked
  -- up, and the old one kept where that fails.
  unfoldable pub is_admin_user : RuntimeState → (user : String) → Bool × RuntimeState
  is_admin_user state user =
      let (cached, valid) = get state.is_admin_cache env.now user in
      let answer : Bool = elim (find_admin_user state user) [ ok found ↦ found | err e ↦ cached ] in
      if valid
      then (cached, state)
      else (answer, record state { is_admin_cache = put state.is_admin_cache env.now user answer })

  -- `state.IsAdminUser(user) && ((loginLevel & AuthTypeU2F) != 0)`
  unfoldable pub is_admin_user_and_u2f :
      RuntimeState → (user : String) (login_level : ℕ) → Bool × RuntimeState
  is_admin_user_and_u2f state user login_level =
      let (admin, state') = is_admin_user state user in
      (admin && meets login_level auth_type_u2f, state')
