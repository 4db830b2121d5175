-- ===== src/Prelude/Text.antt =====
-- Go's strings package, as far as the modelled code calls it.
use Prim.Native.Char.{code}
use Prim.Native.String.{String, len, slice}
use Prim.Native.Nat.{◌-◌}
use mathlib.Core.Bool.{Bool, ◌&&◌}
use mathlib.Core.List.{List, [], ◌∷◌}
use text.Mathlib.Text.{◌==◌ as str_eq, find?}
use keymaster.Prelude.Tests.{leb, ◌==◌, is_some, if◌then◌else◌}

-- strings.Contains
abbrev pub contains_text : String → String → Bool
contains_text s t = is_some (find? s t)

-- strings.HasSuffix
abbrev pub ends_with : String → String → Bool
ends_with s t = leb (len t) (len s) && str_eq (slice s (len s - len t) (len s)) t

-- strings.Split at a blank
unfoldable pub split_at_blanks : String → List String
split_at_blanks String.[] = "" ∷ []
split_at_blanks (String.◌∷◌ c s) = elim (split_at_blanks s) [
  | [] ↦ []
  | word ∷ words ↦ if code c == 32 then "" ∷ word ∷ words else String.◌∷◌ c word ∷ words
]
