-- ===== src/Prelude/Lists.antt =====
-- Lists over the native numbers, the iterator adapters that the program chains, and the
-- predicates `All` and `Any` by recursion.
use Prim.Native.Nat.{ℕ, zero, suc, ◌+◌}
use mathlib.Core.Path.{◌≡◌, refl, ap}
use mathlib.Core.Logic.{◌⊎◌, ◌↔◌, inl, inr}
use mathlib.Core.Bool.{Bool, true, false, ◌&&◌, ◌||◌}
use mathlib.Core.List.{List, [], ◌∷◌, ◌++◌, map}
use mathlib.Core.Option.{Option, none, some}
use native.Mathlib.Omega.{arith}
use gentlsa.Prelude.Tests.{if◌then◌else◌, Bool-cases}

module _ {ℓ} {A : Type ℓ} where
  abbrev pub length : List A → ℕ
  length [] = 0
  length (x ∷ xs) = suc (length xs)

  abbrev pub is_empty : List A → Bool
  is_empty [] = true
  is_empty (x ∷ xs) = false

  -- `Iterator::any`, `Iterator::all`, `Iterator::filter` and `Iterator::find`.
  abbrev pub any : (A → Bool) → List A → Bool
  any p [] = false
  any p (x ∷ xs) = p x || any p xs

  abbrev pub all : (A → Bool) → List A → Bool
  all p [] = true
  all p (x ∷ xs) = p x && all p xs

  abbrev pub filter : (A → Bool) → List A → List A
  filter p [] = []
  filter p (x ∷ xs) = if p x then x ∷ filter p xs else filter p xs

  abbrev pub find? : (A → Bool) → List A → Option A
  find? p [] = none
  find? p (x ∷ xs) = if p x then some x else find? p xs

  abbrev pub drop : ℕ → List A → List A
  drop zero xs = xs
  drop (suc n) [] = []
  drop (suc n) (x ∷ xs) = drop n xs

  abbrev pub take : ℕ → List A → List A
  take zero xs = []
  take (suc n) [] = []
  take (suc n) (x ∷ xs) = x ∷ take n xs

  pub length-append : (xs ys : List A) → length (xs ++ ys) ≡ length xs + length ys
  length-append [] ys = omega arith
  length-append (x ∷ xs) ys = omega (arith, length-append xs ys)

module _ {ℓ} {A : Type ℓ} (P : A → Type 0) where
  abbrev pub All : List A → Type 0
  All [] = Unit
  All (x ∷ xs) = P x × All xs

  abbrev pub Any : List A → Type 0
  Any [] = ⊥
  Any (x ∷ xs) = P x ⊎ Any xs

module _ {ℓ} {A : Type ℓ} where
  pub All-append : (P : A → Type 0) (xs ys : List A) → All P xs → All P ys → All P (xs ++ ys)
  All-append P [] ys h k = k
  All-append P (x ∷ xs) ys (p, h) k = (p, All-append P xs ys h k)

  pub All-mono : (P Q : A → Type 0) (xs : List A) → ((x : A) → P x → Q x) → All P xs → All Q xs
  All-mono P Q [] f h = tt
  All-mono P Q (x ∷ xs) f (p, h) = (f x p, All-mono P Q xs f h)

  pub Any-mono : (P Q : A → Type 0) (xs : List A) → ((x : A) → P x → Q x) → Any P xs → Any Q xs
  Any-mono P Q [] f h = h
  Any-mono P Q (x ∷ xs) f (inl h) = inl (f x h)
  Any-mono P Q (x ∷ xs) f (inr h) = inr (Any-mono P Q xs f h)

  pub All-filter : (P : A → Type 0) (p : A → Bool) (xs : List A) → All P xs → All P (filter p xs)
  All-filter P p [] h = tt
  All-filter P p (x ∷ xs) (px, h) = elim (Bool-cases (p x)) [
    | inl yes' ↦ rw yes' (px, All-filter P p xs h)
    | inr no' ↦ rw no' (All-filter P p xs h)
  ]

  pub filter-All_test : (p : A → Bool) (xs : List A) → All (λ x. p x ≡ true) (filter p xs)
  filter-All_test p [] = tt
  filter-All_test p (x ∷ xs) = elim (Bool-cases (p x)) [
    | inl yes' ↦ rw yes' (yes', filter-All_test p xs)
    | inr no' ↦ rw no' (filter-All_test p xs)
  ]

  -- A filter that every item passes changes nothing.
  pub filter_of_All : (p : A → Bool) (xs : List A) → All (λ x. p x ≡ true) xs → filter p xs ≡ xs
  filter_of_All p [] h = refl
  filter_of_All p (x ∷ xs) (px, h) = rw px (ap (λ r. x ∷ r) (filter_of_All p xs h))

  pub filter-eq-nil_of_All :
      (p : A → Bool) (xs : List A) → All (λ x. p x ≡ false) xs → filter p xs ≡ []
  filter-eq-nil_of_All p [] h = refl
  filter-eq-nil_of_All p (x ∷ xs) (px, h) = rw px (filter-eq-nil_of_All p xs h)

  pub any-append : (p : A → Bool) (xs ys : List A) → any p (xs ++ ys) ≡ (any p xs || any p ys)
  any-append p [] ys = refl
  any-append p (x ∷ xs) ys = ground (arith, any-append p xs ys)

  pub any_iff_Any : (p : A → Bool) (xs : List A) → (any p xs ≡ true) ↔ Any (λ x. p x ≡ true) xs
  any_iff_Any p [] = ground arith
  any_iff_Any p (x ∷ xs) = ground (arith, any_iff_Any p xs)

  pub any-eq-false_iff :
      (p : A → Bool) (xs : List A) → (any p xs ≡ false) ↔ All (λ x. p x ≡ false) xs
  any-eq-false_iff p [] = ground arith
  any-eq-false_iff p (x ∷ xs) = ground (arith, any-eq-false_iff p xs)

abbrev pub cons_some {κ} : {B : Type κ} → Option B → List B → List B
cons_some none ys = ys
cons_some (some y) ys = y ∷ ys

-- `Iterator::filter_map`.
abbrev pub filter_map {ℓ κ} : {A : Type ℓ} {B : Type κ} → (A → Option B) → List A → List B
filter_map f [] = []
filter_map f (x ∷ xs) = cons_some (f x) (filter_map f xs)

cons_some-All :
    {B : Type 0} (P : B → Type 0) (o : Option B) (ys : List B)
    → ((y : B) → o ≡ some y → P y)
    → All P ys
    → All P (cons_some o ys)
cons_some-All P none ys k h = h
cons_some-All P (some y) ys k h = (k y refl, h)

module _ {ℓ} {A : Type ℓ} {B : Type 0} where
  -- What is made by `g` is read by `f`.
  pub filter_map-map :
      (f : A → Option B) (g : B → A) (ys : List B)
      → All (λ y. f (g y) ≡ some y) ys
      → filter_map f (map g ys) ≡ ys
  filter_map-map f g [] h = refl
  filter_map-map f g (y ∷ ys) (hy, h) = rw hy (ap (λ l. y ∷ l) (filter_map-map f g ys h))

  pub filter_map-All :
      (P : B → Type 0) (f : A → Option B)
      → ((x : A) (y : B) → f x ≡ some y → P y)
      → (xs : List A) → All P (filter_map f xs)
  filter_map-All P f h [] = tt
  filter_map-All P f h (x ∷ xs) =
      cons_some-All P (f x) (filter_map f xs) (h x) (filter_map-All P f h xs)
