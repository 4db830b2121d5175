-- ===== src/Prelude/Suffix.antt =====
-- What strings.HasSuffix decides.
use Prim.Native.Char.{len_utf8}
use Prim.Native.Nat.{ℕ, zero, suc, ◌-◌}
use Prim.Native.String.append
use Prim.Native.String.len
use Prim.Native.String.slice
use Prim.Native.String.{String, ◌++◌, len, slice}
use mathlib.Core.Path.{◌≡◌, refl, sym, ap, ◌∙◌}
use mathlib.Core.Bool.{true}
use native.Mathlib.Nat.{add-sub_cancel_left}
use native.Mathlib.Omega.{arith}
use text.Mathlib.Text.{◌==◌ as str_eq}
use text.Mathlib.TextEquality.{eq_iff}
use text.Mathlib.TextPositions.{slice_all, slice-append_right, len-append, eq_refl}
use keymaster.Prelude.Tests.{leb}
use keymaster.Prelude.Text.{ends_with}

-- what lies after a position is an end of the text
slice_tail : (s : String) (a : ℕ) → (front : String) × (s ≡ front ++ slice s a (len s))
slice_tail String.[] a = (String.[], sym (append.nil _ ∙ slice.nil a (len String.[])))
slice_tail (String.◌∷◌ c s) zero = (String.[], sym (append.nil _ ∙ slice_all (String.◌∷◌ c s)))
slice_tail (String.◌∷◌ c s) (suc a) =
    let (front, e) = slice_tail s (suc a - len_utf8 c) in
    (
      String.◌∷◌ c front,
      ap (String.◌∷◌ c) e
          ∙ sym (append.cons c front _)
          ∙ ap (λ t. String.◌∷◌ c front ++ t)
              (sym (
                slice.cons-suc c s a (len (String.◌∷◌ c s))
                ∙ ap (slice s (suc a - len_utf8 c)) (
                    ap (λ n. n - len_utf8 c) (len.cons c s)
                    ∙ add-sub_cancel_left (len_utf8 c) (len s)))),
    )

-- A text ends with another only if the other follows some front.
pub ends_with-front : (s t : String) → ends_with s t ≡ true → (front : String) × (s ≡ front ++ t)
ends_with-front s t h =
    let (front, e) = slice_tail s (len s - len t) in
    let same : str_eq (slice s (len s - len t) (len s)) t ≡ true = ground arith in
    (front, e ∙ ap (λ u. front ++ u) ((eq_iff (slice s (len s - len t) (len s)) t).0 same))

pub front-ends_with : (front t : String) → ends_with (front ++ t) t ≡ true
front-ends_with front t =
    let long = len-append front t in
    let start : len (front ++ t) - len t ≡ len front = omega arith in
    let short : leb (len t) (len (front ++ t)) ≡ true = ground arith in
    let end : slice (front ++ t) (len (front ++ t) - len t) (len (front ++ t)) ≡ t =
      ap (λ k. slice (front ++ t) k (len (front ++ t))) start
      ∙ ap (slice (front ++ t) (len front)) long
      ∙ slice-append_right front t in
    rw (short, end, eq_refl t) refl
