-- ===== src/Vip/Authorized.antt =====
-- cmd/keymasterd/2fa_vip.go: what a session has gone through when it gains the factor of a push.
use keymaster.Prelude.{
  ℕ, String, true, not, ◌||◌, Memᴰ, some, ◌≡◌, ◌⊎◌, subst, ap, sym, ◌∙◌, inl, inr, arith, str_eq,
  bit_or, Option-cases,
}
use keymaster.Prelude.Dict.{lookup}
use keymaster.Result.{ok}
use keymaster.AuthType.{auth_type_any, auth_type_symantec_vip}
use keymaster.Http.{
  Request, Cookie, set_cookie, publish_vip_auth, write_header, status_ok, status_bad_request,
  status_precondition_failed,
}
use keymaster.State.{Env, RuntimeState, AuthInfo, PushPollTransaction}
use keymaster.Handler.{
  M, World, ◌>>=◌, ◌>>◌, emit, get_state, lift, on_error, reject_if, >>=-step, reject_if-ok,
  on_error-lift_ok,
}
use keymaster.Handler.Quiet.{
  Quiet, Quiet-bind, Quiet-return, Quiet-fail, Quiet-get_state, Quiet-option, Quiet-set_username,
  Quiet-write_header, Quiet-publish_vip_auth, quiet_before, quiet_rules,
}
use keymaster.Respond.{write_failure_response, stop_if_locked}
use keymaster.Respond.Quiet.{Quiet-failure, Quiet-stop_if_locked}
use keymaster.CheckAuth.{check_auth}
use keymaster.CheckAuth.Sound.{Evidence, IsSameSite, check_auth-Evidence}
use keymaster.CheckAuth.Quiet.{Quiet-check_auth}
use keymaster.SecondFactor.{get_or_post, parse_form_or, raise_level}
use keymaster.SecondFactor.Steps.{stop_if_locked-state, parse_form_or-state}
use keymaster.SecondFactor.Quiet.{Quiet-get_or_post, Quiet-parse_form_or, Raised, raise_then-Raised}
use keymaster.Vip.{
  first_cookie, vip_transaction_cookie_name, vip_enabled_or, transaction_cookie,
  started_transaction, approved_push, vip_poll_check_handler,
}

module _ (env : Env) (r : Request) where
  transaction_cookie-ok :
      (w u : World) (cookie : String)
      → transaction_cookie env r w ≡ (ok cookie, u)
      → (first_cookie vip_transaction_cookie_name r.cookies ≡ some cookie) × (u.state ≡ w.state)
  unfolding transaction_cookie
  transaction_cookie-ok w u cookie h =
      elim (Option-cases (first_cookie vip_transaction_cookie_name r.cookies)) [
        | inl absent ↦ absurd (ground arith)
        | inr (value, found) ↦ (ground arith, ground arith)
      ]

  started-ok :
      (cookie : String) (w u : World) (transaction : PushPollTransaction)
      → started_transaction env r cookie w ≡ (ok transaction, u)
      → (lookup cookie w.state.vip_push_cookie ≡ some transaction) × (u.state ≡ w.state)
  unfolding started_transaction
  started-ok cookie w u transaction h =
      elim (Option-cases (lookup cookie w.state.vip_push_cookie)) [
        | inl absent ↦ absurd (ground arith)
        | inr (value, found) ↦ (ground arith, ground arith)
      ]

  -- The push that raises a session: the one stored under the request's transaction cookie, which the
  -- service has approved.
  abbrev pub Approved : RuntimeState → PushPollTransaction → Type 0
  Approved state transaction =
      (cookie : String) × (first_cookie vip_transaction_cookie_name r.cookies ≡ some cookie)
      × (lookup cookie state.vip_push_cookie ≡ some transaction)
      × (env.vip_push_approved transaction.transaction_id ≡ ok true)

  approved_push-Approved :
      (w u : World) (transaction : PushPollTransaction)
      → approved_push env r w ≡ (ok transaction, u)
      → Approved w.state transaction × (u.state ≡ w.state)
  unfolding approved_push
  approved_push-Approved w u transaction h =
      >>=-step (transaction_cookie env r) _ w h λ cookie u1 e1 h1.
        >>=-step (started_transaction env r cookie) _ u1 h1 λ t u2 e2 h2.
          >>=-step
            (on_error (lift (env.vip_push_approved t.transaction_id)) (λ e.
              write_failure_response env r status_bad_request "Error checking push transaction"))
            _ u2 h2
            λ valid u3 e3 h3.
              >>=-step
                (reject_if (not valid)
                  (write_failure_response env r status_precondition_failed
                    "VIP Push Poller unsuccessful")
                  "")
                _ u3 h3
                λ _ u4 e4 h4.
                  let (found, same1) = transaction_cookie-ok w u1 cookie e1 in
                  let (stored, same2) = started-ok cookie u1 u2 t e2 in
                  let (answered, same3) =
                    on_error-lift_ok (env.vip_push_approved t.transaction_id) _ valid e3 in
                  let (good, same4) = reject_if-ok (not valid) _ _ e4 in
                  let right : valid ≡ true = ground arith in
                  let who : t ≡ transaction = ground arith in
                  let left : u4 ≡ u = ap (λ x. x.1) h4 in
                  (
                    subst (Approved w.state) who (
                      cookie,
                      found,
                      ap (λ s. lookup cookie s.vip_push_cookie) (sym same1) ∙ stored,
                      answered ∙ ap ok right,
                    ),
                    ap (λ x. x.state) (sym left ∙ same4 ∙ same3) ∙ same2 ∙ same1,
                  )

  -- The steps before the caller is known leave the state.
  unchanged :
      (w u1 u2 u3 u4 : World)
      → stop_if_locked env r w ≡ (ok tt, u1)
      → vip_enabled_or env r status_bad_request "" u1 ≡ (ok tt, u2)
      → get_or_post env r u2 ≡ (ok tt, u3)
      → parse_form_or env r status_bad_request u3 ≡ (ok tt, u4)
      → u4.state ≡ w.state
  unfolding vip_enabled_or
  unchanged w u1 u2 u3 u4 e1 e2 e3 e4 =
      let (_, s2) = reject_if-ok (not u1.state.config.symantec_vip_enabled) _ _ e2 in
      let (_, s3) = reject_if-ok (not (str_eq r.method "GET" || str_eq r.method "POST")) _ _ e3 in
      parse_form_or-state env r status_bad_request u3 u4 e4
      ∙ ap (λ x. x.state) (s3 ∙ s2)
      ∙ stop_if_locked-state env r w u1 e1

  Quiet-enabled : (code : ℕ) (message : String) → Quiet (vip_enabled_or env r code message)
  unfolding vip_enabled_or
  Quiet-enabled code message = search (quiet_rules, Quiet-failure)

  Quiet-transaction_cookie : Quiet (transaction_cookie env r)
  unfolding transaction_cookie
  Quiet-transaction_cookie =
      Quiet-option (first_cookie vip_transaction_cookie_name r.cookies) _ _
        (Quiet-bind _ _ (Quiet-failure env r status_bad_request "Missing Cookie")
          (λ _. Quiet-fail "no cookie"))
        Quiet-return

  Quiet-started : (cookie : String) → Quiet (started_transaction env r cookie)
  unfolding started_transaction
  Quiet-started cookie = Quiet-bind get_state _ Quiet-get_state λ state.
      Quiet-option (lookup cookie state.vip_push_cookie) _ _
        (Quiet-bind _ _ (Quiet-failure env r status_precondition_failed "Error parsing form")
          (λ _. Quiet-fail "push transaction not found for user"))
        Quiet-return

  Quiet-approved_push : Quiet (approved_push env r)
  unfolding approved_push
  Quiet-approved_push =
      search (quiet_rules, Quiet-failure, Quiet-transaction_cookie, Quiet-started) depth 12

  -- The session cookie that is raised once the push is approved.
  abbrev pub Polled : RuntimeState → Cookie → Type 0
  Polled state c =
      (info : AuthInfo) × (transaction : PushPollTransaction) × Evidence env r state auth_type_any
        info
      × IsSameSite env r
      × Approved state transaction
      × Raised env r state (bit_or info.auth_type auth_type_symantec_vip) c

  -- The rest of the handler, once the caller is known.
  abbrev raise_by_push : AuthInfo → M (Unit {0})
  raise_by_push info = do
    transaction ← approved_push env r
    old ←
        raise_level env r (bit_or info.auth_type auth_type_symantec_vip)
          "Failure when validating VIP token"
    emit (publish_vip_auth "VIPAuthTypePush" info.username)
    emit (write_header status_ok)

  push_then-Approved :
      (info : AuthInfo) (c : Cookie) (w : World)
      → Memᴰ (set_cookie c) (raise_by_push info w).1.sent
      → Memᴰ (set_cookie c) w.sent
        ⊎ ((transaction : PushPollTransaction) × Approved w.state transaction
            × Raised env r w.state (bit_or info.auth_type auth_type_symantec_vip) c)
  push_then-Approved info c w k =
      quiet_before (approved_push env r) _ Quiet-approved_push c w k λ transaction u e k1.
        elim (raise_then-Raised env r (bit_or info.auth_type auth_type_symantec_vip)
          "Failure when validating VIP token" _
          (λ old.
            Quiet-bind _ _ (Quiet-publish_vip_auth "VIPAuthTypePush" info.username)
              (λ _. Quiet-write_header status_ok))
          c u k1) [
            | inl before ↦ inl before
            | inr made ↦
                let (approved, same) = approved_push-Approved w u transaction e in
                inr (
                  transaction,
                  approved,
                  subst (λ s. Raised env r s (bit_or info.auth_type auth_type_symantec_vip) c) same
                      made,
                )
          ]

  -- Whatever the handler answers, the only cookie that it sends is the request's own session, its
  -- token updated to the caller's level with the factor of Symantec VIP; and it sends that only to a
  -- caller with evidence, after the cross-site test, once the service has approved the push that is
  -- stored under the request's transaction cookie, whoever started it.
  pub vip_poll_check_handler-Approved :
      (w : World) (c : Cookie)
      → Memᴰ (set_cookie c) (vip_poll_check_handler env r w).1.sent
      → Memᴰ (set_cookie c) w.sent ⊎ Polled w.state c
  unfolding vip_poll_check_handler
  vip_poll_check_handler-Approved w c k =
      quiet_before (stop_if_locked env r) _ (Quiet-stop_if_locked env r) c w k λ _ u1 e1 k1.
        quiet_before (vip_enabled_or env r status_bad_request "") _
          (Quiet-enabled status_bad_request "") c u1 k1
          λ _ u2 e2 k2.
            quiet_before (get_or_post env r) _ (Quiet-get_or_post env r) c u2 k2 λ _ u3 e3 k3.
              quiet_before (parse_form_or env r status_bad_request) _
                (Quiet-parse_form_or env r status_bad_request) c u3 k3
                λ _ u4 e4 k4.
                  quiet_before (check_auth env r auth_type_any) _
                    (Quiet-check_auth env r auth_type_any) c u4 k4
                    λ info u5 e5 k5.
                      let begun = unchanged w u1 u2 u3 u4 e1 e2 e3 e4 in
                      elim (push_then-Approved info c _ k5) [
                        | inl before ↦ inl ((Quiet-set_username info.username).at c u5 before)
                        | inr (transaction, approved, made) ↦
                            let (evidence, same5, site) =
                              check_auth-Evidence env r auth_type_any u4 u5 info e5 in
                            let s5 : u5.state ≡ w.state = ap (λ x. x.state) same5 ∙ begun in
                            inr (
                              info,
                              transaction,
                              subst (λ s. Evidence env r s auth_type_any info) begun evidence,
                              site,
                              subst (λ s. Approved s transaction) s5 approved,
                              subst
                                  (λ s.
                                    Raised env r s (bit_or info.auth_type auth_type_symantec_vip) c)
                                  s5 made,
                            )
                      ]
