-- ===== src/Store.antt =====
-- lib/simplestorage/api.go: the interface of the stores of signed strings, with what its comments
-- promise. A string is kept for a key and a type until it expires.
pub mod Memory
use keymaster.Prelude.{ℕ, ◌≤◌, ◌<◌, String, Option, none, some, ◌≡◌, ◌≢◌, ◌⊎◌}
use keymaster.Result.{Result, ok}

pub record SimpleStore (S : Type 0) : Type 0 where
  pub upsert_signed :
      (now : ℕ) (key : String) (data_type expiration : ℕ) (content : String) → S → Result S
  pub delete_signed : (key : String) (data_type : ℕ) → S → Result S
  pub get_signed : (now : ℕ) (key : String) (data_type : ℕ) → S → Result (Option String) × S

-- What is stored is got back until it expires and never after that; it is gone once it is deleted;
-- and other keys and types are not touched. What is stored can be read without an error, which the
-- interface's comments do not promise. Times are in Unix seconds.
pub record StoreLaws {S : Type 0} (store : SimpleStore S) : Type 0 where
  pub got :
      (now later : ℕ) (key content : String) (data_type expiration : ℕ) (s s' : S)
      → store.upsert_signed now key data_type expiration content s ≡ ok s'
      → now ≤ later
      → later < expiration
      → (store.get_signed later key data_type s').0 ≡ ok (some content)
  pub expired :
      (now later : ℕ) (key content : String) (data_type expiration : ℕ) (s s' : S)
      → store.upsert_signed now key data_type expiration content s ≡ ok s'
      → expiration < later
      → (store.get_signed later key data_type s').0 ≡ ok none
  pub deleted :
      (later : ℕ) (key : String) (data_type : ℕ) (s s' : S)
      → store.delete_signed key data_type s ≡ ok s'
      → (store.get_signed later key data_type s').0 ≡ ok none
  pub others_upserted :
      (now later : ℕ) (key other content : String) (data_type other_type expiration : ℕ) (s s' : S)
      → store.upsert_signed now key data_type expiration content s ≡ ok s'
      → (key ≢ other) ⊎ (data_type ≢ other_type)
      → (store.get_signed later other other_type s').0
        ≡ (store.get_signed later other other_type s).0
  pub others_deleted :
      (later : ℕ) (key other : String) (data_type other_type : ℕ) (s s' : S)
      → store.delete_signed key data_type s ≡ ok s'
      → (key ≢ other) ⊎ (data_type ≢ other_type)
      → (store.get_signed later other other_type s').0
        ≡ (store.get_signed later other other_type s).0
