-- ===== src/Store/Memory.antt =====
-- lib/simplestorage/memstore: the store in memory.
pub mod Laws
use keymaster.Prelude.{
  ℕ, ◌<◌, String, Bool, true, false, ◌&&◌, List, [], ◌∷◌, Option, none, some, ltb, ◌==◌, ◌≡◌, ◌≢◌,
  refl, ◌⊎◌, inl, inr, ◌∙◌, sym, ap, subst, arith, str_eq, eq_iff, Bool-cases, Option-cases,
  if◌then◌else◌,
}
use keymaster.Result.{Result, ok}

pub record MemDatum : Type 0 where
  pub content : String
  pub expiration : ℕ

-- the map, whose index is a key and a type
abbrev pub MemStore : Type 0
MemStore = List ((String × ℕ) × MemDatum)

abbrev pub same_index : (a b : String × ℕ) → Bool
same_index (key, data_type) (other, other_type) = str_eq key other && (data_type == other_type)

unfoldable pub find_datum : String × ℕ → MemStore → Option MemDatum
find_datum index [] = none
find_datum index ((other, datum) ∷ rest) =
    if same_index other index then some datum else find_datum index rest

unfoldable pub remove_datum : String × ℕ → MemStore → MemStore
remove_datum index [] = []
remove_datum index ((other, datum) ∷ rest) =
    let rest' = remove_datum index rest in
    if same_index other index then rest' else (other, datum) ∷ rest'

unfoldable pub upsert_signed :
    (now : ℕ) (key : String) (data_type expiration : ℕ) (content : String)
    → MemStore
    → Result MemStore
upsert_signed now key data_type expiration content s = ok (
    ((key, data_type), record { content = content; expiration = expiration })
    ∷ remove_datum (key, data_type) s)

unfoldable pub delete_signed : (key : String) (data_type : ℕ) → MemStore → Result MemStore
delete_signed key data_type s = ok (remove_datum (key, data_type) s)

-- An entry that has expired is deleted on the way.
unfoldable pub get_signed :
    (now : ℕ) (key : String) (data_type : ℕ) → MemStore → Result (Option String) × MemStore
get_signed now key data_type s = elim (find_datum (key, data_type) s) [
  | none ↦ (ok none, s)
  | some datum ↦
      if ltb datum.expiration now
      then (ok none, remove_datum (key, data_type) s)
      else (ok (some datum.content), s)
]
