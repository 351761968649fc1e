-- ===== src/Prelude/StrLaws.antt =====
-- Lemmas on the methods of `str`.
use Prim.Native.Nat.{ℕ}
use mathlib.Core.Path.{◌≡◌, refl, ap, sym, ◌∙◌}
use mathlib.Core.Logic.{◌↔◌, ◌≢◌, inl, inr}
use mathlib.Core.Bool.{Bool, true, false, ◌&&◌}
use mathlib.Core.List.{[], ◌∷◌, ◌++◌, append-nil, append_assoc}
use mathlib.Core.Option.{none, some}
use native.Mathlib.Omega.{arith}
use gentlsa.Prelude.Tests.{Bool-cases}
use gentlsa.Prelude.Lists.{is_empty, All}
use gentlsa.Prelude.Str.{
  Text, text_eq, lower, to_ascii_lowercase, eq_ignore_ascii_case, trim_end_by, strip_prefix,
  starts_with, split_once, split_from,
}

pub text_eq_iff : (s t : Text) → (text_eq s t ≡ true) ↔ (s ≡ t)
text_eq_iff [] [] = ground arith
text_eq_iff [] (d ∷ t) = ground arith
text_eq_iff (c ∷ s) [] = ground arith
text_eq_iff (c ∷ s) (d ∷ t) = ground (arith, text_eq_iff s t)

pub text_eq_refl : (s : Text) → text_eq s s ≡ true
text_eq_refl s = (text_eq_iff s s).1 refl

pub text_eq_comm : (s t : Text) → text_eq s t ≡ text_eq t s
text_eq_comm [] [] = refl
text_eq_comm [] (d ∷ t) = refl
text_eq_comm (c ∷ s) [] = refl
text_eq_comm (c ∷ s) (d ∷ t) = ground (arith, text_eq_comm s t)

pub lower_idem : (c : ℕ) → lower (lower c) ≡ lower c
unfolding lower
lower_idem c = ground arith

pub to_ascii_lowercase_idem :
    (s : Text) → to_ascii_lowercase (to_ascii_lowercase s) ≡ to_ascii_lowercase s
to_ascii_lowercase_idem [] = refl
to_ascii_lowercase_idem (c ∷ s) = cc (lower_idem c, to_ascii_lowercase_idem s)

-- `eq_ignore_ascii_case` is equality of the lower-case forms, so an equivalence.
pub eq_ignore_ascii_case_iff :
    (s t : Text) → (eq_ignore_ascii_case s t ≡ true) ↔ (to_ascii_lowercase s ≡ to_ascii_lowercase t)
eq_ignore_ascii_case_iff s t = text_eq_iff _ _

pub eq_ignore_ascii_case_refl : (s : Text) → eq_ignore_ascii_case s s ≡ true
eq_ignore_ascii_case_refl s = text_eq_refl (to_ascii_lowercase s)

pub eq_ignore_ascii_case_comm : (s t : Text) → eq_ignore_ascii_case s t ≡ eq_ignore_ascii_case t s
eq_ignore_ascii_case_comm s t = text_eq_comm (to_ascii_lowercase s) (to_ascii_lowercase t)

pub eq_ignore_ascii_case_trans :
    (s t u : Text)
    → eq_ignore_ascii_case s t ≡ true
    → eq_ignore_ascii_case t u ≡ true
    → eq_ignore_ascii_case s u ≡ true
eq_ignore_ascii_case_trans s t u p q =
    (eq_ignore_ascii_case_iff s u).1
      ((eq_ignore_ascii_case_iff s t).0 p ∙ (eq_ignore_ascii_case_iff t u).0 q)

pub eq_ignore_ascii_case-lower : (s : Text) → eq_ignore_ascii_case s (to_ascii_lowercase s) ≡ true
eq_ignore_ascii_case-lower s =
    (eq_ignore_ascii_case_iff s (to_ascii_lowercase s)).1 (sym (to_ascii_lowercase_idem s))

-- Texts that agree up to case compare alike with every other text.
pub eq_ignore_ascii_case_congr :
    (s t u : Text)
    → eq_ignore_ascii_case s t ≡ true
    → eq_ignore_ascii_case s u ≡ eq_ignore_ascii_case t u
eq_ignore_ascii_case_congr s t u h =
    ap (λ r. text_eq r (to_ascii_lowercase u)) ((eq_ignore_ascii_case_iff s t).0 h)

-- A text ends outside the trimmed class if it is not empty and its last character fails the test.
abbrev pub EndsOutside : (ℕ → Bool) → Text → Type 0
EndsOutside p [] = ⊥
EndsOutside p (c ∷ []) = p c ≡ false
EndsOutside p (c ∷ d ∷ s) = EndsOutside p (d ∷ s)

pub trim_end_by_of_EndsOutside : (p : ℕ → Bool) (s : Text) → EndsOutside p s → trim_end_by p s ≡ s
unfolding trim_end_by
trim_end_by_of_EndsOutside p [] h = absurd h
trim_end_by_of_EndsOutside p (c ∷ []) h = rw h
trim_end_by_of_EndsOutside p (c ∷ d ∷ s) h = rw (trim_end_by_of_EndsOutside p (d ∷ s) h)

-- Trimming the end of `s ++ t` leaves `s` whole if `s` ends outside the class.
pub trim_end_by-append :
    (p : ℕ → Bool) (s t : Text) → EndsOutside p s → trim_end_by p (s ++ t) ≡ s ++ trim_end_by p t
unfolding trim_end_by
trim_end_by-append p [] t h = absurd h
trim_end_by-append p (c ∷ []) t h = ground (arith, h)
trim_end_by-append p (c ∷ d ∷ s) t h = rw (trim_end_by-append p (d ∷ s) t h)

pub EndsOutside-append : (p : ℕ → Bool) (s t : Text) → EndsOutside p t → EndsOutside p (s ++ t)
EndsOutside-append p [] t h = h
EndsOutside-append p (c ∷ []) [] h = absurd h
EndsOutside-append p (c ∷ []) (d ∷ t) h = h
EndsOutside-append p (c ∷ d ∷ s) t h = EndsOutside-append p (d ∷ s) t h

-- What is left after trimming is empty or ends outside the class.
pub trim_end_by_idem : (p : ℕ → Bool) (s : Text) → trim_end_by p (trim_end_by p s) ≡ trim_end_by p s
unfolding trim_end_by
trim_end_by_idem p [] = refl
trim_end_by_idem p (c ∷ s) = elim (Bool-cases (is_empty (trim_end_by p s) && p c)) [
  | inl e ↦ rw e
  | inr e ↦ rw e (ground (arith, trim_end_by_idem p s, e))
]

pub strip_prefix-append : (p s : Text) → strip_prefix p (p ++ s) ≡ some s
unfolding strip_prefix
strip_prefix-append [] s = refl
strip_prefix-append (c ∷ p) s = ground (arith, strip_prefix-append p s)

pub starts_with-append : (p s : Text) → starts_with p (p ++ s) ≡ true
unfolding starts_with
starts_with-append [] s = refl
starts_with-append (c ∷ p) s = ground (arith, starts_with-append p s)

abbrev pub Lacks : ℕ → Text → Type 0
Lacks c = All (λ d. d ≢ c)

pub split_once-append :
    (sep : ℕ) (a b : Text) → Lacks sep a → split_once sep (a ++ sep ∷ b) ≡ some (a, b)
unfolding split_once
split_once-append sep [] b h = ground arith
split_once-append sep (c ∷ a) b (h, hs) = ground (arith, split_once-append sep a b hs)

pub split_once-none : (sep : ℕ) (a : Text) → Lacks sep a → split_once sep a ≡ none
unfolding split_once
split_once-none sep [] h = refl
split_once-none sep (c ∷ a) (h, hs) = ground (arith, split_once-none sep a hs)

-- Splitting at a character that a part lacks.
pub split_from-append :
    (sep : ℕ) (a b cur : Text)
    → Lacks sep a
    → split_from sep cur (a ++ sep ∷ b) ≡ (cur ++ a) ∷ split_from sep [] b
unfolding split_from
split_from-append sep [] b cur h = ground (arith, append-nil cur)
split_from-append sep (c ∷ a) b cur (h, hs) =
    ground (arith, split_from-append sep a b (cur ++ c ∷ []) hs, append_assoc cur (c ∷ []) a)

pub split_from-last :
    (sep : ℕ) (a cur : Text) → Lacks sep a → split_from sep cur a ≡ (cur ++ a) ∷ []
unfolding split_from
split_from-last sep [] cur h = ground (arith, append-nil cur)
split_from-last sep (c ∷ a) cur (h, hs) =
    ground (arith, split_from-last sep a (cur ++ c ∷ []) hs, append_assoc cur (c ∷ []) a)
