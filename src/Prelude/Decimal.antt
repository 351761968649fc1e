-- ===== src/Prelude/Decimal.antt =====
-- Unsigned integers in decimal: `Display` for them, and `FromStr` (`str::parse`) with the largest
-- value of the type as an argument.
use Prim.Native.Nat.{ℕ, zero, suc, ◌+◌, ◌-◌, ◌*◌, ◌/◌, ◌%◌, ◌≤◌, ◌<◌}
use mathlib.Core.Path.{◌≡◌, refl, ◌∙◌}
use mathlib.Core.Logic.{◌≢◌, inl, inr}
use mathlib.Core.Bool.{◌&&◌}
use mathlib.Core.List.{[], ◌∷◌}
use mathlib.Core.Option.{Option, none, some}
use native.Mathlib.Omega.{arith}
use gentlsa.Prelude.Tests.{◌==◌, ltb, leb, if◌then◌else◌, Bool-cases}
use gentlsa.Prelude.Lists.{All}
use gentlsa.Prelude.Str.{Text}

-- One digit a round, the last first; `f` bounds the rounds and `to_string` gives enough.
unfoldable pub digits : ℕ → ℕ → Text → Text
digits zero n out = out
digits (suc f) n out =
    let more = digits f (n / 10) ((b'0' + n % 10) ∷ out) in
    if ltb n 10 then (b'0' + n) ∷ out else more

unfoldable pub to_string : ℕ → Text
unfolding digits
to_string n = digits (suc n) n []

-- The value that the digits spell behind `n`, or nothing: a character that is no digit, or a value
-- above `top`, where the checked multiplication or addition fails.
unfoldable pub scan : ℕ → ℕ → Text → Option ℕ
scan top n [] = some n
scan top n (c ∷ s) =
    let more = scan top (n * 10 + (c - b'0')) s in
    if leb b'0' c && leb c b'9' && leb (n * 10 + (c - b'0')) top then more else none

-- `FromStr` takes one leading `+`.
unfoldable pub parse_uint : ℕ → Text → Option ℕ
unfolding scan
parse_uint top [] = none
parse_uint top (c ∷ []) = if c == b'+' then none else scan top 0 (c ∷ [])
parse_uint top (c ∷ d ∷ s) = if c == b'+' then scan top 0 (d ∷ s) else scan top 0 (c ∷ d ∷ s)

abbrev pub parse_u8 : Text → Option ℕ
parse_u8 = parse_uint 255

abbrev pub parse_u16 : Text → Option ℕ
parse_u16 = parse_uint 65535

abbrev pub IsDigit : ℕ → Type 0
IsDigit c = (b'0' ≤ c) × (c ≤ b'9')

pub scan-digits :
    (f n top : ℕ) (out : Text) → n < f → n ≤ top → scan top 0 (digits f n out) ≡ scan top n out
unfolding scan digits
scan-digits zero n top out h k = absurd (omega arith)
scan-digits (suc f) n top out h k = elim (Bool-cases (ltb n 10)) [
  | inl small ↦ ground (arith, small)
  | inr big ↦
      rw big (
        scan-digits f (n / 10) top ((b'0' + n % 10) ∷ out) (ground arith) (omega arith)
        ∙ last_digit)
]
  where
    last_digit : scan top (n / 10) ((b'0' + n % 10) ∷ out) ≡ scan top n out
    last_digit = ground arith

pub digits-All : (f n : ℕ) (out : Text) → All IsDigit out → All IsDigit (digits f n out)
unfolding digits
digits-All zero n out h = h
digits-All (suc f) n out h = elim (Bool-cases (ltb n 10)) [
  | inl small ↦ rw small ((omega arith, ground arith), h)
  | inr big ↦ rw big (digits-All f (n / 10) _ ((omega arith, omega arith), h))
]

pub to_string-All : (n : ℕ) → All IsDigit (to_string n)
unfolding to_string
to_string-All n = digits-All (suc n) n [] tt

digits-ne-nil : (f n : ℕ) (out : Text) → digits (suc f) n out ≢ []
unfolding digits
digits-ne-nil zero n out = ground arith
digits-ne-nil (suc f) n out = ground (arith, digits-ne-nil f (n / 10) ((b'0' + n % 10) ∷ out))

pub to_string-ne-nil : (n : ℕ) → to_string n ≢ []
unfolding to_string
to_string-ne-nil n = digits-ne-nil n n []

parse_uint_of_digit :
    (top d : ℕ) (s : Text) → IsDigit d → parse_uint top (d ∷ s) ≡ scan top 0 (d ∷ s)
unfolding parse_uint
parse_uint_of_digit top d [] h = ground arith
parse_uint_of_digit top d (e ∷ s) h = ground arith

parse_uint_of_digits :
    (top : ℕ) (t : Text) → All IsDigit t → t ≢ [] → parse_uint top t ≡ scan top 0 t
parse_uint_of_digits top [] h e = absurd (e refl)
parse_uint_of_digits top (c ∷ t) (h, hs) e = parse_uint_of_digit top c t h

-- Every value of the type is read back from its print.
pub parse_uint-to_string : (top n : ℕ) → n ≤ top → parse_uint top (to_string n) ≡ some n
parse_uint-to_string top n h =
    parse_uint_of_digits top (to_string n) (to_string-All n) (to_string-ne-nil n)
    ∙ unfold to_string scan in scan-digits (suc n) n top [] (omega arith) h

scan_bound : (top n : ℕ) (s : Text) (r : ℕ) → n ≤ top → scan top n s ≡ some r → r ≤ top
unfolding scan
scan_bound top n [] r h e = ground arith
scan_bound top n (c ∷ s) r h e = ground (arith, scan_bound top (n * 10 + (c - b'0')) s r)

-- A parsed value lies in the range of the type.
pub parse_uint_bound : (top : ℕ) (s : Text) (r : ℕ) → parse_uint top s ≡ some r → r ≤ top
unfolding parse_uint
parse_uint_bound top [] r e = cc
parse_uint_bound top (c ∷ []) r e = ground (arith, scan_bound top 0 (c ∷ []) r)
parse_uint_bound top (c ∷ d ∷ s) r e =
    ground (arith, scan_bound top 0 (d ∷ s) r, scan_bound top 0 (c ∷ d ∷ s) r)
