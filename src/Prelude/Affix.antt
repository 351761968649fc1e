-- ===== src/Prelude/Affix.antt =====
-- Lemmas on `strip_prefix`, `strip_suffix` and on texts without whitespace.
use mathlib.Core.List.{reverse, reverse-append, reverse-reverse}
use Prim.Native.Nat.{ℕ, ◌+◌, ◌≤◌}
use mathlib.Core.Path.{◌≡◌, refl, ap, sym, ◌∙◌}
use mathlib.Core.Logic.{inl, inr}
use mathlib.Core.Bool.{false, ◌&&◌}
use mathlib.Core.List.{[], ◌∷◌, ◌++◌}
use mathlib.Core.Option.{some}
use native.Mathlib.Omega.{arith}
use gentlsa.Prelude.Tests.{leb, Bool-cases, Option-cases}
use gentlsa.Prelude.Lists.{All}
use gentlsa.Prelude.Str.{
  Text, lower, to_ascii_lowercase, trim_end_by, trim_start_by, trim_dots, trim, strip_prefix,
  strip_suffix, is_whitespace,
}
use gentlsa.Prelude.StrLaws.{strip_prefix-append}

pub strip_prefix-eq-some : (p s r : Text) → strip_prefix p s ≡ some r → s ≡ p ++ r
unfolding strip_prefix
strip_prefix-eq-some [] s r h = ground arith
strip_prefix-eq-some (c ∷ p) [] r h = cc
strip_prefix-eq-some (c ∷ p) (d ∷ s) r h = ground (arith, strip_prefix-eq-some p s r)

pub strip_suffix-eq-some : (p s r : Text) → strip_suffix p s ≡ some r → s ≡ r ++ p
unfolding strip_suffix
strip_suffix-eq-some p s r h = elim (Option-cases (strip_prefix (reverse p) (reverse s))) [
  | inl e ↦ absurd (cc (rw (e, strip_suffix) at h))
  | inr (q, e) ↦
      let same : reverse q ≡ r = ground (arith, e) in
      sym (reverse-reverse s)
      ∙ ap reverse (strip_prefix-eq-some (reverse p) (reverse s) q e)
      ∙ reverse-append (reverse p) q
      ∙ rw (reverse-reverse p, same)
]

pub strip_suffix-append : (p r : Text) → strip_suffix p (r ++ p) ≡ some r
unfolding strip_suffix
strip_suffix-append p r =
    rw (reverse-append r p, strip_prefix-append (reverse p) (reverse r), strip_suffix)
      (rw (reverse-reverse r))

-- No character of the text is whitespace.
abbrev pub NoSpace : Text → Type 0
NoSpace = All (λ c. is_whitespace c ≡ false)

pub trim_end_by_of_NoSpace : (s : Text) → NoSpace s → trim_end_by is_whitespace s ≡ s
unfolding trim_end_by
trim_end_by_of_NoSpace [] h = refl
trim_end_by_of_NoSpace (c ∷ s) (h, hs) = ground (arith, trim_end_by_of_NoSpace s hs, h)

pub trim_of_NoSpace : (s : Text) → NoSpace s → trim s ≡ s
unfolding trim_start_by
trim_of_NoSpace [] h = trim_end_by_of_NoSpace [] h
trim_of_NoSpace (c ∷ s) h = rw (h.0) (trim_end_by_of_NoSpace (c ∷ s) h)

pub letter-NotSpace : (c : ℕ) → b'a' ≤ c → c ≤ b'z' → is_whitespace c ≡ false
unfolding is_whitespace
letter-NotSpace c h k = ground arith

pub lower-NotSpace : (c : ℕ) → is_whitespace c ≡ false → is_whitespace (lower c) ≡ false
unfolding lower
lower-NotSpace c h = elim (Bool-cases (leb b'A' c && leb c b'Z')) [
  | inl upper ↦ rw upper (letter-NotSpace (c + 32) (ground (arith, upper)) (ground (arith, upper)))
  | inr other ↦ rw other h
]

pub NoSpace-lower : (s : Text) → NoSpace s → NoSpace (to_ascii_lowercase s)
NoSpace-lower [] h = tt
NoSpace-lower (c ∷ s) (h, hs) = (lower-NotSpace c h, NoSpace-lower s hs)

pub NoSpace-trim : (s : Text) → NoSpace s → NoSpace (trim_dots s)
unfolding trim_end_by
NoSpace-trim [] h = tt
NoSpace-trim (c ∷ s) (h, hs) = ground (arith, NoSpace-trim s hs, h)

pub NoSpace-prefix : (s t : Text) → NoSpace (s ++ t) → NoSpace s
NoSpace-prefix [] t h = tt
NoSpace-prefix (c ∷ s) t (h, hs) = (h, NoSpace-prefix s t hs)
