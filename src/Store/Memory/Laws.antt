-- ===== src/Store/Memory/Laws.antt =====
-- The store in memory is a store.
use keymaster.Prelude.{
  ℕ, ◌<◌, String, true, false, [], ◌∷◌, Option, none, some, ltb, ◌≡◌, ◌≢◌, refl, ◌⊎◌, inl, inr, ◌∙◌,
  sym, ap, arith, eq_iff, Bool-cases, if◌then◌else◌,
}
use keymaster.Result.{ok}
use keymaster.Store.{SimpleStore, StoreLaws}
use keymaster.Store.Memory.{
  MemDatum, MemStore, same_index, find_datum, remove_datum, upsert_signed, delete_signed,
  get_signed,
}

same_index_refl :
    (key : String) (data_type : ℕ) → same_index (key, data_type) (key, data_type) ≡ true
same_index_refl key data_type = ground (arith, eq_iff key key)

same_index-ne :
    (key other : String) (data_type other_type : ℕ)
    → (key ≢ other) ⊎ (data_type ≢ other_type)
    → same_index (key, data_type) (other, other_type) ≡ false
same_index-ne key other data_type other_type apart = ground (arith, eq_iff key other)

-- An index that is another's is not a third one if that is not.
same_index_trans :
    (a b c : String × ℕ) → same_index a b ≡ true → same_index b c ≡ false → same_index a c ≡ false
same_index_trans (a, x) (b, y) (c, z) h k = ground (arith, eq_iff a b, eq_iff b c, eq_iff a c)

find-remove_self :
    (index : String × ℕ) (s : MemStore) → find_datum index (remove_datum index s) ≡ none
unfolding find_datum remove_datum
find-remove_self index [] = refl
find-remove_self index ((other, datum) ∷ rest) = elim (Bool-cases (same_index other index)) [
  | inl same ↦ rw same (find-remove_self index rest)
  | inr apart ↦ rw (apart, apart, find_datum) (find-remove_self index rest)
]

find-remove_ne :
    (index wanted : String × ℕ) (s : MemStore)
    → same_index index wanted ≡ false
    → find_datum wanted (remove_datum index s) ≡ find_datum wanted s
unfolding find_datum remove_datum
find-remove_ne index wanted [] apart = refl
find-remove_ne index wanted ((other, datum) ∷ rest) apart =
    let tail = find-remove_ne index wanted rest apart in
    elim (Bool-cases (same_index other index)) [
      | inl same ↦ rw (same, same_index_trans other index wanted same apart, tail) refl
      | inr different ↦ rw (different, tail) refl
    ]

-- What an answer is, from what is found.
answer : (now : ℕ) → Option MemDatum → Option String
answer now none = none
answer now (some datum) = if ltb datum.expiration now then none else some datum.content

get_signed-answer :
    (now : ℕ) (key : String) (data_type : ℕ) (s : MemStore)
    → (get_signed now key data_type s).0 ≡ ok (answer now (find_datum (key, data_type) s))
unfolding get_signed answer
get_signed-answer now key data_type s = go (find_datum (key, data_type) s) refl
  where
    go :
        (found : Option MemDatum)
        → find_datum (key, data_type) s ≡ found
        → (get_signed now key data_type s).0 ≡ ok (answer now found)
    go none e = rw (e, get_signed) refl
    go (some datum) e = elim (Bool-cases (ltb datum.expiration now)) [
      | inl late ↦ rw (e, late, get_signed) refl
      | inr early ↦ rw (e, early, get_signed) refl
    ]

abbrev pub memory : SimpleStore MemStore
memory = record {
  upsert_signed = upsert_signed;
  delete_signed = delete_signed;
  get_signed = get_signed;
}

found_after :
    (now key_type expiration : ℕ) (key content : String) (s s' : MemStore)
    → upsert_signed now key key_type expiration content s ≡ ok s'
    → (wanted : String × ℕ)
    → find_datum wanted s' ≡ (
        if same_index (key, key_type) wanted
        then some (record { content = content; expiration = expiration })
        else find_datum wanted (remove_datum (key, key_type) s))
unfolding upsert_signed find_datum
found_after now key_type expiration key content s s' h wanted =
    let same : ((key, key_type), record { content = content; expiration = expiration })
          ∷ remove_datum (key, key_type) s
        ≡ s' =
      ground arith in
    ap (find_datum wanted) (sym same)

read_own :
    (now later key_type expiration : ℕ) (key content : String) (s s' : MemStore)
    → upsert_signed now key key_type expiration content s ≡ ok s'
    → (get_signed later key key_type s').0
      ≡ ok (answer later (some (record { content = content; expiration = expiration })))
read_own now later key_type expiration key content s s' h =
    get_signed-answer later key key_type s'
    ∙ ap (λ f. ok (answer later f))
        (found_after now key_type expiration key content s s' h (key, key_type)
          ∙ rw (same_index_refl key key_type) refl)

found_other :
    (now key_type expiration other_type : ℕ) (key other content : String) (s s' : MemStore)
    → upsert_signed now key key_type expiration content s ≡ ok s'
    → (key ≢ other) ⊎ (key_type ≢ other_type)
    → find_datum (other, other_type) s' ≡ find_datum (other, other_type) s
found_other now key_type expiration other_type key other content s s' h apart =
    let differ = same_index-ne key other key_type other_type apart in
    found_after now key_type expiration key content s s' h (other, other_type)
    ∙ rw differ (find-remove_ne (key, key_type) (other, other_type) s differ)

removed :
    (key : String) (key_type : ℕ) (s s' : MemStore)
    → delete_signed key key_type s ≡ ok s'
    → s' ≡ remove_datum (key, key_type) s
unfolding delete_signed
removed key key_type s s' h = ground arith

answer-early :
    (later : ℕ) (d : MemDatum) → later < d.expiration → answer later (some d) ≡ some d.content
unfolding answer
answer-early later d early = ground arith

answer-late : (later : ℕ) (d : MemDatum) → d.expiration < later → answer later (some d) ≡ none
unfolding answer
answer-late later d late = ground arith

answer-none : (later : ℕ) → answer later none ≡ none
unfolding answer
answer-none later = refl

-- The store in memory keeps the promises of the interface: what is put under a key and a type is got
-- until it expires, and nothing is got after that or once it is deleted; neither touches what is
-- under another key or type.
pub memory-StoreLaws : StoreLaws memory
memory-StoreLaws = record {
  got = λ now later key content t expiration s s' h le early.
      read_own now later t expiration key content s s' h
      ∙ ap ok (answer-early later (record { content = content; expiration = expiration }) early);
  expired = λ now later key content t expiration s s' h late.
      read_own now later t expiration key content s s' h
      ∙ ap ok (answer-late later (record { content = content; expiration = expiration }) late);
  deleted = λ later key t s s' h.
      get_signed-answer later key t s'
      ∙ ap (λ x. ok (answer later (find_datum (key, t) x))) (removed key t s s' h)
      ∙ ap (λ f. ok (answer later f)) (find-remove_self (key, t) s)
      ∙ ap ok (answer-none later);
  others_upserted = λ now later key other content t u expiration s s' h apart.
      get_signed-answer later other u s'
      ∙ ap (λ f. ok (answer later f))
          (found_other now t expiration u key other content s s' h apart)
      ∙ sym (get_signed-answer later other u s);
  others_deleted = λ later key other t u s s' h apart.
      get_signed-answer later other u s'
      ∙ ap (λ x. ok (answer later (find_datum (other, u) x))) (removed key t s s' h)
      ∙ ap (λ f. ok (answer later f))
          (find-remove_ne (key, t) (other, u) s (same_index-ne key other t u apart))
      ∙ sym (get_signed-answer later other u s);
}
