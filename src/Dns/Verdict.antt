-- ===== src/Dns/Verdict.antt =====
-- src/dns.rs: lemmas on `worst_dnssec`.
use mathlib.Core.Path.{subst}
use gentlsa.Prelude.{
  true, false, ℕ, ◌≤◌, List, [], ◌∷◌, ◌≡◌, refl, some, All, Any, inl, inr, leb, Bool-cases, arith,
  ◌↔◌,
}
use gentlsa.Dns.{DnssecStatus, secure, bogus, severity, max_by_key, worst_dnssec}

module _ {ℓ} {A : Type ℓ} (key : A → ℕ) where
  -- The item has the largest key of all these.
  abbrev IsTop : A → List A → A → Type 0
  IsTop best xs m = (key best ≤ key m) × All (λ y. key y ≤ key m) xs

  max_by_key_up :
      (best x : A) (xs : List A)
      → leb (key best) (key x) ≡ true
      → max_by_key key x xs ≡ max_by_key key best (x ∷ xs)
  unfolding max_by_key
  max_by_key_up best x xs up = rw up

  max_by_key_down :
      (best x : A) (xs : List A)
      → leb (key best) (key x) ≡ false
      → max_by_key key best xs ≡ max_by_key key best (x ∷ xs)
  unfolding max_by_key
  max_by_key_down best x xs down = rw down

  -- The item that `max_by_key` keeps has the largest key.
  pub max_by_key_lem : (best : A) (xs : List A) → IsTop best xs (max_by_key key best xs)
  max_by_key_lem best [] = unfold max_by_key in (omega arith, tt)
  max_by_key_lem best (x ∷ xs) = elim (Bool-cases (leb (key best) (key x))) [
    | inl up ↦
        let (bound, all) = max_by_key_lem x xs in
        subst (IsTop best (x ∷ xs)) (max_by_key_up best x xs up)
          (ground (arith, bound, up), (bound, all))
    | inr down ↦
        let (bound, all) = max_by_key_lem best xs in
        subst (IsTop best (x ∷ xs)) (max_by_key_down best x xs down)
          (bound, (ground (arith, bound, down), all))
  ]

bogus-top : (w : DnssecStatus) → severity bogus ≤ severity w → w ≡ bogus
unfolding severity
bogus-top w h = ground (arith, h)

secure-bottom : (r : DnssecStatus) → severity r ≤ severity secure → r ≡ secure
unfolding severity
secure-bottom r h = ground (arith, h)

any-bogus :
    (w : DnssecStatus) (rs : List DnssecStatus)
    → All (λ r. severity r ≤ severity w) rs
    → Any (λ r. r ≡ bogus) rs
    → w ≡ bogus
any-bogus w [] h m = absurd m
any-bogus w (r ∷ rs) (h, hs) (inl e) = bogus-top w (rw e at h)
any-bogus w (r ∷ rs) (h, hs) (inr m) = any-bogus w rs hs m

all-secure :
    (w : DnssecStatus) (rs : List DnssecStatus)
    → All (λ r. severity r ≤ severity w) rs
    → w ≡ secure
    → All (λ r. r ≡ secure) rs
all-secure w [] h e = tt
all-secure w (r ∷ rs) (h, hs) e = (secure-bottom r (rw e at h), all-secure w rs hs e)

-- Of secure records a secure one is chosen.
chosen-secure :
    (s : DnssecStatus) (ss : List DnssecStatus)
    → All (λ r. r ≡ secure) (s ∷ ss)
    → max_by_key severity s ss ≡ secure
unfolding max_by_key
chosen-secure s [] h = h.0
chosen-secure s (x ∷ ss) (hs, (hx, rest)) = elim (Bool-cases (leb (severity s) (severity x))) [
  | inl up ↦ rw up (chosen-secure x ss (hx, rest))
  | inr down ↦ rw down (chosen-secure s ss (hs, rest))
]

-- Worst verdict wins: the verdict on a set is as severe as each of its records', so one bogus
-- record makes the whole set bogus; and the set is secure exactly when each record is. So it is for
-- every set of at least one record.
pub worst_dnssec_lem :
    (s : DnssecStatus) (ss : List DnssecStatus)
    → (w : DnssecStatus) × (worst_dnssec (s ∷ ss) ≡ some w)
      × All (λ r. severity r ≤ severity w) (s ∷ ss)
      × (Any (λ r. r ≡ bogus) (s ∷ ss) → w ≡ bogus)
      × ((w ≡ secure) ↔ All (λ r. r ≡ secure) (s ∷ ss))
unfolding worst_dnssec
worst_dnssec_lem s ss =
    let w = max_by_key severity s ss in
    let (first, rest) = max_by_key_lem severity s ss in
    (
      w,
      refl,
      (first, rest),
      any-bogus w (s ∷ ss) (first, rest),
      (all-secure w (s ∷ ss) (first, rest), chosen-secure s ss),
    )
