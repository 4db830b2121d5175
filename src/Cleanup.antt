-- ===== src/Cleanup.antt =====
-- cmd/keymasterd/app.go: the pass that performStateCleanup makes over the pending entries.
use keymaster.Prelude.{
  ◌⊎◌, ℕ, ◌≤◌, String, Bool, false, List, [], ◌∷◌, Memᴰ, ltb, ◌≡◌, ◌∙◌, sym, ap, ◌↔◌, inl, inr,
  arith, Bool-cases,
}
use keymaster.Prelude.Dict.{Dict, delete_if}
use keymaster.State.{RuntimeState, PushPollTransaction, LocalUserData, PendingAuth2Request}

-- The loop around it sleeps and starts again.
unfoldable pub perform_state_cleanup : (now : ℕ) → RuntimeState → RuntimeState
perform_state_cleanup now state = record state {
  pending_oauth2 = delete_if (λ pending. ltb pending.expires_at now) state.pending_oauth2;
  local_auth_data = delete_if (λ local. ltb local.expires_at now) state.local_auth_data;
  vip_push_cookie = delete_if (λ transaction. ltb transaction.expires_at now) state.vip_push_cookie;
}

Memᴰ-cons_cases : {A : Type 0} (a b : A) (rest : List A) → Memᴰ a (b ∷ rest) → (a ≡ b) ⊎ Memᴰ a rest
Memᴰ-cons_cases a b rest (Memᴰ.head same) = inl same
Memᴰ-cons_cases a b rest (Memᴰ.tail m) = inr m

module _ {V : Type 0} (p : V → Bool) where
  keeps :
      (entry : String × V) (entries : Dict V)
      → Memᴰ entry entries
      → p entry.1 ≡ false
      → Memᴰ entry (delete_if p entries)
  unfolding delete_if
  keeps entry [] m e = elim m [ ]
  keeps entry ((key, v) ∷ rest) (Memᴰ.head same) e =
      let here : p v ≡ false = ap (λ x. p x.1) (sym same) ∙ e in rw here (Memᴰ.head same)
  keeps entry ((key, v) ∷ rest) (Memᴰ.tail m) e =
      let later = keeps entry rest m e in
      elim (Bool-cases (p v)) [ inl gone ↦ rw gone later | inr stays ↦ rw stays (Memᴰ.tail later) ]

  was_kept :
      (entry : String × V) (entries : Dict V)
      → Memᴰ entry (delete_if p entries)
      → Memᴰ entry entries × (p entry.1 ≡ false)
  unfolding delete_if
  was_kept entry [] m = elim m [ ]
  was_kept entry ((key, v) ∷ rest) m = elim (Bool-cases (p v)) [
    | inl gone ↦
        let (before, stays) = was_kept entry rest (rw gone at m) in (Memᴰ.tail before, stays)
    | inr stays ↦ elim (Memᴰ-cons_cases entry (key, v) (delete_if p rest) (rw stays at m)) [
      | inl same ↦ (Memᴰ.head same, ap (λ x. p x.1) same ∙ stays)
      | inr later ↦ let (before, kept) = was_kept entry rest later in (Memᴰ.tail before, kept)
    ]
  ]

-- an entry that stays and one that goes
kept_iff :
    {V : Type 0} (expires_at : V → ℕ) (now : ℕ) (entries : Dict V) (key : String) (v : V)
    → Memᴰ (key, v) (delete_if (λ x. ltb (expires_at x) now) entries)
      ↔ (Memᴰ (key, v) entries × (now ≤ expires_at v))
kept_iff expires_at now entries key v = (
  λ m.
      let (before, stays) = was_kept (λ x. ltb (expires_at x) now) (key, v) entries m in
      (before, ground arith),
  λ (m, le). keeps (λ x. ltb (expires_at x) now) (key, v) entries m (ground arith),
)

-- A cleanup keeps exactly the entries that have not expired, in each of the three tables.
pub perform_state_cleanup_iff :
    (now : ℕ) (state : RuntimeState)
    → ((key : String) (v : PushPollTransaction)
        → Memᴰ (key, v) (perform_state_cleanup now state).vip_push_cookie
          ↔ (Memᴰ (key, v) state.vip_push_cookie × (now ≤ v.expires_at)))
      × ((key : String) (v : LocalUserData)
          → Memᴰ (key, v) (perform_state_cleanup now state).local_auth_data
            ↔ (Memᴰ (key, v) state.local_auth_data × (now ≤ v.expires_at)))
      × ((key : String) (v : PendingAuth2Request)
          → Memᴰ (key, v) (perform_state_cleanup now state).pending_oauth2
            ↔ (Memᴰ (key, v) state.pending_oauth2 × (now ≤ v.expires_at)))
unfolding perform_state_cleanup
perform_state_cleanup_iff now state = (
  kept_iff (λ t. t.expires_at) now state.vip_push_cookie,
  kept_iff (λ t. t.expires_at) now state.local_auth_data,
  kept_iff (λ t. t.expires_at) now state.pending_oauth2,
)
