-- ===== src/CertHandler/Grants.antt =====
-- Who may have a certificate, and for how long at most.
use keymaster.Prelude.{
  ℕ, ◌+◌, String, true, false, List, Memᴰ, ◌≡◌, inl, inr, ◌⊎◌, arith, Bool-cases, Option-cases,
  any-eq-true_cases, any,
}
use keymaster.Prelude.Int.{ℤ, pos, ◌≤ℤ◌, ◌+ℤ◌, sub_ℕ, ltb_ℤ, pos_part, neg_part, +ℤ_parts}
use keymaster.Result.{ok, Result-cases}
use keymaster.AuthType.{auth_type_u2f, has}
use keymaster.Http.{Request}
use keymaster.State.{Env, RuntimeState, AuthInfo}
use keymaster.Handler.{World}
use keymaster.CertHandler.{
  max_certificate_lifetime, admits, is_sufficient, form_value, max_duration, limit_duration,
  requested_duration,
}

-- A session is sufficient if it holds a hardware token's factor, or if a configured preference
-- admits it.
abbrev pub Sufficient : RuntimeState → ℕ → Type 0
Sufficient state auth_type =
    (has auth_type auth_type_u2f ≡ true)
    ⊎ ((pref : String) × Memᴰ pref state.config.base.allowed_auth_backends_for_certs
        × (admits auth_type pref ≡ true))

pub is_sufficient-Sufficient :
    (state : RuntimeState) (auth_type : ℕ)
    → is_sufficient state auth_type ≡ true
    → Sufficient state auth_type
unfolding is_sufficient
is_sufficient-Sufficient state auth_type h =
    elim (Bool-cases (any (admits auth_type) state.config.base.allowed_auth_backends_for_certs)) [
      | inl listed ↦ inr (
          any-eq-true_cases (admits auth_type) state.config.base.allowed_auth_backends_for_certs
            listed)
      | inr unlisted ↦ inl (ground arith)
    ]

sub_ℕ_parts : (a b : ℕ) → pos_part (sub_ℕ a b) + b ≡ neg_part (sub_ℕ a b) + a
sub_ℕ_parts a b = ground arith

ltb_ℤ-false : (a b : ℤ) → ltb_ℤ a b ≡ false → b ≤ℤ a
ltb_ℤ-false a b h = ground arith

ltb_ℤ-true : (a b : ℤ) → ltb_ℤ a b ≡ true → a ≤ℤ b
ltb_ℤ-true a b h = ground arith

module _ (env : Env) where
  -- At most a day, and at most until a day after the login.
  pub record WithinDay (info : AuthInfo) (duration : ℤ) : Type 0 where
    pub short : duration ≤ℤ pos max_certificate_lifetime
    pub since_login : pos env.now +ℤ duration ≤ℤ pos (info.issued_at + max_certificate_lifetime)

  max_duration-until :
      (info : AuthInfo)
      → pos_part (max_duration env info) + env.now
        ≡ neg_part (max_duration env info) + (info.issued_at + max_certificate_lifetime)
  unfolding max_duration
  max_duration-until info = sub_ℕ_parts (info.issued_at + max_certificate_lifetime) env.now

  -- A duration of at most a day, limited: still at most a day, and its end is at most a day after the
  -- session's login, however old the session is.
  pub limit_duration-WithinDay :
      (info : AuthInfo) (duration : ℤ)
      → duration ≤ℤ pos max_certificate_lifetime
      → WithinDay info (limit_duration env info duration)
  unfolding limit_duration
  limit_duration-WithinDay info duration h =
      elim (Bool-cases (ltb_ℤ (max_duration env info) duration)) [
        | inl longer ↦
            let le = ltb_ℤ-true (max_duration env info) duration longer in
            rw longer (record {
              short = omega arith;
              since_login =
                  omega (
                    arith,
                    max_duration-until info,
                    +ℤ_parts (pos env.now) (max_duration env info),
                  );
            })
        | inr shorter ↦
            let le = ltb_ℤ-false (max_duration env info) duration shorter in
            rw shorter (record {
              short = h;
              since_login = omega (arith, max_duration-until info, +ℤ_parts (pos env.now) duration);
            })
      ]

  pub requested_duration-le :
      (r : Request) (form : List (String × List String)) (w v : World) (duration : ℤ)
      → requested_duration env r form w ≡ (ok duration, v)
      → (duration ≤ℤ pos max_certificate_lifetime) × (v ≡ w)
  unfolding requested_duration
  requested_duration-le r form w v duration h = elim (Option-cases (form_value form "duration")) [
    | inl absent ↦
        let same : pos max_certificate_lifetime ≡ duration = ground arith in
        (rw (← same) (omega arith), ground arith)
    | inr (text, given) ↦ elim (Result-cases (env.parse_duration text)) [
      | inl (e, failed) ↦ absurd (ground arith)
      | inr (d, parsed) ↦ elim (Bool-cases (ltb_ℤ (pos max_certificate_lifetime) d)) [
        | inl longer ↦ absurd (ground arith)
        | inr shorter ↦
            let same : d ≡ duration = ground arith in
            (rw (← same) (ltb_ℤ-false (pos max_certificate_lifetime) d shorter), ground arith)
      ]
    ]
  ]
