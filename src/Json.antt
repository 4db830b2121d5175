-- ===== src/Json.antt =====
-- encoding/json on the two claim structures of cmd/keymasterd/app.go, by their field tags: an object
-- is the list of its fields. A field that is absent keeps its zero value, a field of another kind is
-- an error, and `omitempty` leaves zero values out. Unknown fields are ignored.
pub mod RoundTrip
use keymaster.Prelude.{
  ℕ, String, Bool, true, false, List, [], ◌∷◌, Option, none, some, str_eq, ◌==◌,
}
use keymaster.Prelude.Dict.{Dict, lookup}
use keymaster.Result.{Result, ok, err, ◌>>=◌}

pub data JsonValue : Type 0 where
  text : String → JsonValue
  number : ℕ → JsonValue
  texts : List String → JsonValue

abbrev pub JsonObject : Type 0
JsonObject = Dict JsonValue

-- Times are Unix seconds.
pub record AuthInfoJwt : Type 0 where
  pub issuer : String
  pub subject : String
  pub audience : List String
  pub expiration : ℕ
  pub not_before : ℕ
  pub issued_at : ℕ
  pub token_type : String
  pub auth_type : ℕ

pub record StorageStringDataJwt : Type 0 where
  pub issuer : String
  pub subject : String
  pub audience : List String
  pub not_before : ℕ
  pub expiration : ℕ
  pub issued_at : ℕ
  pub token_type : String
  pub data_type : ℕ
  pub content : String

unfoldable pub entry_unless : Bool → String → JsonValue → JsonObject → JsonObject
entry_unless true name value rest = rest
entry_unless false name value rest = (name, value) ∷ rest

abbrev is_empty : List String → Bool
is_empty [] = true
is_empty (x ∷ xs) = false

-- with `omitempty`
abbrev pub some_text : String → String → JsonObject → JsonObject
some_text name s = entry_unless (str_eq s "") name (text s)

abbrev pub some_number : String → ℕ → JsonObject → JsonObject
some_number name n = entry_unless (n == 0) name (number n)

abbrev pub some_texts : String → List String → JsonObject → JsonObject
some_texts name l = entry_unless (is_empty l) name (texts l)

unfoldable pub marshal_auth : AuthInfoJwt → JsonObject
unfolding entry_unless
marshal_auth c = some_text "iss" c.issuer (
    some_text "sub" c.subject (
      some_texts "aud" c.audience (
        some_number "exp" c.expiration (
          some_number "nbf" c.not_before (
            some_number "iat" c.issued_at
              (("token_type", text c.token_type) ∷ ("auth_type", number c.auth_type) ∷ []))))))

unfoldable pub marshal_storage : StorageStringDataJwt → JsonObject
unfolding entry_unless
marshal_storage c = some_text "iss" c.issuer (
    some_text "sub" c.subject (
      some_texts "aud" c.audience (
        some_number "nbf" c.not_before (
          ("exp", number c.expiration)
          ∷ some_number "iat" c.issued_at (
              ("token_type", text c.token_type)
              ∷ ("data_type", number c.data_type)
              ∷ ("data", text c.content)
              ∷ [])))))

abbrev pub as_text : Option JsonValue → Result String
as_text none = ok ""
as_text (some (text s)) = ok s
as_text (some v) = err "json: cannot unmarshal into string"

abbrev pub as_number : Option JsonValue → Result ℕ
as_number none = ok 0
as_number (some (number n)) = ok n
as_number (some v) = err "json: cannot unmarshal into int"

abbrev pub as_texts : Option JsonValue → Result (List String)
as_texts none = ok []
as_texts (some (texts l)) = ok l
as_texts (some v) = err "json: cannot unmarshal into []string"

unfoldable pub unmarshal_auth : JsonObject → Result AuthInfoJwt
unfolding lookup
unmarshal_auth o = do
  issuer ← as_text (lookup "iss" o)
  subject ← as_text (lookup "sub" o)
  audience ← as_texts (lookup "aud" o)
  expiration ← as_number (lookup "exp" o)
  not_before ← as_number (lookup "nbf" o)
  issued_at ← as_number (lookup "iat" o)
  token_type ← as_text (lookup "token_type" o)
  auth_type ← as_number (lookup "auth_type" o)
  ok (record {
    issuer = issuer;
    subject = subject;
    audience = audience;
    expiration = expiration;
    not_before = not_before;
    issued_at = issued_at;
    token_type = token_type;
    auth_type = auth_type;
  })

unfoldable pub unmarshal_storage : JsonObject → Result StorageStringDataJwt
unfolding lookup
unmarshal_storage o = do
  issuer ← as_text (lookup "iss" o)
  subject ← as_text (lookup "sub" o)
  audience ← as_texts (lookup "aud" o)
  not_before ← as_number (lookup "nbf" o)
  expiration ← as_number (lookup "exp" o)
  issued_at ← as_number (lookup "iat" o)
  token_type ← as_text (lookup "token_type" o)
  data_type ← as_number (lookup "data_type" o)
  content ← as_text (lookup "data" o)
  ok (record {
    issuer = issuer;
    subject = subject;
    audience = audience;
    not_before = not_before;
    expiration = expiration;
    issued_at = issued_at;
    token_type = token_type;
    data_type = data_type;
    content = content;
  })
