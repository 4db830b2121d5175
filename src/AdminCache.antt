-- ===== src/AdminCache.antt =====
-- keymasterd/admincache/api.go and cache.go: which users were found to be administrators, and when.
-- Times are nanoseconds since year 1, so that 0 is Go's zero time; a nil cache is `none`.
pub mod History
use keymaster.Prelude.{
  ℕ, ◌+◌, String, Bool, false, Option, none, some, List, [], ◌==◌, ltb, if◌then◌else◌,
}
use keymaster.Prelude.Dict.{Dict, lookup, insert}

pub record CacheEntry : Type 0 where
  pub is_admin : Bool
  pub ts : ℕ

pub record Cache : Type 0 where
  pub max_duration : ℕ
  pub entries : Dict CacheEntry

unfoldable pub new : ℕ → Option Cache
new max_duration = some (record { max_duration = max_duration; entries = [] })

-- the zero `cacheEntry` of a key that is missing
abbrev entry_of : Option CacheEntry → CacheEntry
entry_of none = record { is_admin = false; ts = 0 }
entry_of (some e) = e

-- `Now().Sub(ts) < maxDuration`: the difference may be negative, so the subtrahend changes sides
unfoldable is_valid : Cache → (now ts : ℕ) → Bool
is_valid c now ts = if ts == 0 then false else ltb now (ts + c.max_duration)

unfoldable pub get : Option Cache → (now : ℕ) → String → Bool × Bool
unfolding is_valid
get none now user = (false, false)
get (some c) now user =
    let entry = entry_of (lookup user c.entries) in (entry.is_admin, is_valid c now entry.ts)

unfoldable pub put : Option Cache → (now : ℕ) → String → Bool → Option Cache
put none now user is_admin = none
put (some c) now user is_admin =
    some (record c { entries = insert user (record { is_admin = is_admin; ts = now }) c.entries })
