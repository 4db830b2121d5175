-- ===== src/Json/RoundTrip.antt =====
-- Claims survive their serialisation, and the two kinds keep their type tags apart.
use keymaster.Prelude.{
  ℕ, String, Bool, true, false, List, [], ◌∷◌, none, ◌≡◌, refl, str_eq, eq_iff, arith,
}
use keymaster.Prelude.Dict.{lookup}
use keymaster.Result.{ok}
use keymaster.Json.{
  JsonValue, JsonObject, AuthInfoJwt, StorageStringDataJwt, entry_unless, some_text, some_number,
  some_texts, marshal_auth, marshal_storage, as_text, as_number, as_texts, unmarshal_auth,
  unmarshal_storage,
}

pub lookup-entry_ne :
    (b : Bool) (name other : String) (v : JsonValue) (o : JsonObject)
    → str_eq name other ≡ false
    → lookup other (entry_unless b name v o) ≡ lookup other o
unfolding lookup entry_unless
lookup-entry_ne true name other v o h = refl
lookup-entry_ne false name other v o h = rw h

module _ (name : String) (o : JsonObject) (absent : lookup name o ≡ none) where
  pub as_text-some_text : (s : String) → as_text (lookup name (some_text name s o)) ≡ ok s
  unfolding lookup entry_unless
  as_text-some_text s = ground (arith, eq_iff s "", eq_iff name name)

  pub as_number-some_number : (n : ℕ) → as_number (lookup name (some_number name n o)) ≡ ok n
  unfolding lookup entry_unless
  as_number-some_number n = ground (arith, eq_iff name name)

  pub as_texts-some_texts : (l : List String) → as_texts (lookup name (some_texts name l o)) ≡ ok l
  unfolding lookup entry_unless
  as_texts-some_texts [] = rw absent
  as_texts-some_texts (x ∷ l) = ground (arith, eq_iff name name)

pub ruleset fields =
    (lookup-entry_ne, as_text-some_text, as_number-some_number, as_texts-some_texts)

-- A session's claims survive being written as JSON and read back, fields left out included.
pub unmarshal-marshal_auth : (c : AuthInfoJwt) → unmarshal_auth (marshal_auth c) ≡ ok c
unfolding marshal_auth unmarshal_auth lookup
unmarshal-marshal_auth c = simp fields

-- A stored string's claims survive being written as JSON and read back, fields left out included.
pub unmarshal-marshal_storage :
    (c : StorageStringDataJwt) → unmarshal_storage (marshal_storage c) ≡ ok c
unfolding marshal_storage unmarshal_storage lookup
unmarshal-marshal_storage c = simp fields

-- A stored string's claims, read as a session's: the common fields, and no level at all.
pub unmarshal_auth-marshal_storage :
    (c : StorageStringDataJwt)
    → unmarshal_auth (marshal_storage c)
      ≡ ok (record {
        issuer = c.issuer;
        subject = c.subject;
        audience = c.audience;
        expiration = c.expiration;
        not_before = c.not_before;
        issued_at = c.issued_at;
        token_type = c.token_type;
        auth_type = 0;
      })
unfolding marshal_storage unmarshal_auth lookup
unmarshal_auth-marshal_storage c = simp fields
