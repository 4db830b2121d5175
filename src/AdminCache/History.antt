-- ===== src/AdminCache/History.antt =====
-- The cache against its specification: the history of what was put into it.
use keymaster.Prelude.{
  ℕ, ◌+◌, String, Bool, false, Option, some, List, [], ◌∷◌, ◌≡◌, refl, arith, str_eq, ltb, ◌==◌,
  if◌then◌else◌,
}
use keymaster.Prelude.Dict.{lookup, insert, lookup-insert}
use keymaster.AdminCache.{Cache, CacheEntry, new, get, put}

-- One call of `Put`: the time, the user and the answer.
pub record Entry : Type 0 where
  pub at : ℕ
  pub user : String
  pub answer : Bool

-- The cache after the calls, of which the last stands first.
pub after : ℕ → List Entry → Option Cache
after max_duration [] = new max_duration
after max_duration (e ∷ es) = put (after max_duration es) e.at e.user e.answer

-- What the cache promises to answer: the last entry of the user while it is fresh.
pub promised : ℕ → List Entry → (now : ℕ) → String → Bool × Bool
promised max_duration [] now user = (false, false)
promised max_duration (e ∷ es) now user =
    if str_eq e.user user
    then (e.answer, if e.at == 0 then false else ltb now (e.at + max_duration))
    else promised max_duration es now user

entries_of : List Entry → List (String × CacheEntry)
entries_of [] = []
entries_of (e ∷ es) = insert e.user (record { is_admin = e.answer; ts = e.at }) (entries_of es)

after-eq :
    (d : ℕ) (es : List Entry)
    → after d es ≡ some (record { max_duration = d; entries = entries_of es })
unfolding after entries_of put new
after-eq d [] = refl
after-eq d (e ∷ es) = rw (after-eq d es)

entries-promised :
    (d now : ℕ) (user : String) (es : List Entry)
    → get (some (record { max_duration = d; entries = entries_of es })) now user
      ≡ promised d es now user
unfolding get promised entries_of lookup
entries-promised d now user [] = refl
entries-promised d now user (e ∷ es) = ground (
  arith,
  lookup-insert e.user user (record { is_admin = e.answer; ts = e.at }) (entries_of es),
  entries-promised d now user es,
)

-- After any calls of `Put`, `Get` answers as promised: the user's last entry, valid until the
-- maximal duration has passed since it was made (an entry made at the zero time never is), and
-- (false, false) for a user without one.
pub get-after :
    (d now : ℕ) (user : String) (es : List Entry)
    → get (after d es) now user ≡ promised d es now user
get-after d now user es = rw (after-eq d es) (entries-promised d now user es)
