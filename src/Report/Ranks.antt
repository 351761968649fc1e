-- ===== src/Report/Ranks.antt =====
-- src/report.rs: the outcomes of `verify` by Nagios severity.
use gentlsa.Prelude.{
  ℕ, ◌≤◌, ◌≡◌, refl, Bool, false, Option, none, some, List, [], ◌∷◌, leb, arith, All, Any, inl, inr,
  ◌⊎◌, Bool-cases, ◌↔◌,
}
use gentlsa.Prelude.Int.{ℤ, pos, leb_ℤ}
use gentlsa.Dns.{DnssecStatus, secure, insecure, bogus, indeterminate, max_by_key}
use gentlsa.Dns.Verdict.{max_by_key_lem}
use gentlsa.Report.{
  VerifyOutcome, apply_expiry, apply_dnssec, bogus_outcome, unauthenticated_outcome, exit_rank,
  worst_verify_exit, DnssecSubject,
}

pub apply_expiry_exit :
    (o : VerifyOutcome) (days : ℤ) (early : Bool) (warn critical : ℕ)
    → ((apply_expiry o days early warn critical).exit ≡ 0) ↔ (
        (o.exit ≡ 0)
        × (early ≡ false)
        × (leb_ℤ days (pos critical) ≡ false)
        × (leb_ℤ days (pos warn) ≡ false))
unfolding apply_expiry
apply_expiry_exit o days early warn critical = ground arith

-- A verdict that leaves an outcome as it is.
abbrev pub IsAuthenticated : Option DnssecStatus → Type 0
IsAuthenticated none = Unit
IsAuthenticated (some s) = s ≡ secure

pub apply_dnssec_exit :
    (o : VerifyOutcome) (s : Option DnssecStatus) (subject : DnssecSubject)
    → ((apply_dnssec o s subject).exit ≡ 0) ↔ ((o.exit ≡ 0) × IsAuthenticated s)
unfolding apply_dnssec bogus_outcome unauthenticated_outcome
apply_dnssec_exit o none subject = ground arith
apply_dnssec_exit o (some secure) subject = ground arith
apply_dnssec_exit o (some bogus) subject = ground arith
apply_dnssec_exit o (some insecure) subject = ground arith
apply_dnssec_exit o (some indeterminate) subject = ground arith

-- Neither the expiry nor a DNSSEC verdict improves an outcome.
expiry-rank :
    (o : VerifyOutcome) (days : ℤ) (early : Bool) (warn critical : ℕ)
    → exit_rank o.exit ≤ exit_rank (apply_expiry o days early warn critical).exit
unfolding apply_expiry exit_rank
expiry-rank o days early warn critical = ground arith

dnssec-rank :
    (o : VerifyOutcome) (s : Option DnssecStatus) (subject : DnssecSubject)
    → exit_rank o.exit ≤ exit_rank (apply_dnssec o s subject).exit
unfolding apply_dnssec bogus_outcome unauthenticated_outcome exit_rank
dnssec-rank o none subject = ground arith
dnssec-rank o (some secure) subject = ground arith
dnssec-rank o (some bogus) subject = ground arith
dnssec-rank o (some insecure) subject = ground arith
dnssec-rank o (some indeterminate) subject = ground arith

expiry-keeps :
    (o : VerifyOutcome) (days : ℤ) (early : Bool) (warn critical : ℕ)
    → (o.exit ≡ 2) ⊎ (o.exit ≡ 3)
    → apply_expiry o days early warn critical ≡ o
unfolding apply_expiry
expiry-keeps o days early warn critical (inl e) = rw e
expiry-keeps o days early warn critical (inr e) = rw e

dnssec-keeps :
    (o : VerifyOutcome) (s : Option DnssecStatus) (subject : DnssecSubject)
    → (o.exit ≡ 2) ⊎ (o.exit ≡ 3)
    → apply_dnssec o s subject ≡ o
unfolding apply_dnssec
dnssec-keeps o none subject h = refl
dnssec-keeps o (some secure) subject h = refl
dnssec-keeps o (some bogus) subject (inl e) = rw e
dnssec-keeps o (some bogus) subject (inr e) = rw e
dnssec-keeps o (some insecure) subject (inl e) = rw e
dnssec-keeps o (some insecure) subject (inr e) = rw e
dnssec-keeps o (some indeterminate) subject (inl e) = rw e
dnssec-keeps o (some indeterminate) subject (inr e) = rw e

-- The expiry of the certificate and a DNSSEC verdict only make an outcome more severe, and an
-- outcome that is already CRITICAL or UNKNOWN keeps its status, message and exit code.
pub folds_raise :
    (o : VerifyOutcome) (days : ℤ) (early : Bool) (warn critical : ℕ) (s : Option DnssecStatus)
    (subject : DnssecSubject)
    → (exit_rank o.exit ≤ exit_rank (apply_expiry o days early warn critical).exit)
      × (exit_rank o.exit ≤ exit_rank (apply_dnssec o s subject).exit)
      × ((o.exit ≡ 2) ⊎ (o.exit ≡ 3)
          → (apply_expiry o days early warn critical ≡ o) × (apply_dnssec o s subject ≡ o))
folds_raise o days early warn critical s subject = (
  expiry-rank o days early warn critical,
  dnssec-rank o s subject,
  λ h. (expiry-keeps o days early warn critical h, dnssec-keeps o s subject h),
)

-- An exit code that the program gives.
abbrev pub IsExit : ℕ → Type 0
IsExit e = e ≤ 3

rank-critical : (e : ℕ) → 3 ≤ exit_rank e → e ≡ 2
unfolding exit_rank
rank-critical e h = ground (arith, h)

rank-ok : (e : ℕ) → IsExit e → exit_rank e ≤ 0 → e ≡ 0
unfolding exit_rank
rank-ok e b h = ground (arith, b, h)

max_by_key-keeps :
    (P : ℕ → Type 0) (best : ℕ) (xs : List ℕ) → P best → All P xs → P (max_by_key exit_rank best xs)
unfolding max_by_key
max_by_key-keeps P best [] h hs = h
max_by_key-keeps P best (x ∷ xs) h (hx, hs) =
    elim (Bool-cases (leb (exit_rank best) (exit_rank x))) [
      | inl up ↦ rw up (max_by_key-keeps P x xs hx hs)
      | inr down ↦ rw down (max_by_key-keeps P best xs h hs)
    ]

some-critical :
    (w : ℕ) (es : List ℕ) → All (λ e. exit_rank e ≤ exit_rank w) es → Any (λ e. e ≡ 2) es → w ≡ 2
some-critical w [] h m = absurd m
some-critical w (e ∷ es) (h, hs) (inl eq) = rank-critical w (unfold exit_rank in (rw eq at h))
some-critical w (e ∷ es) (h, hs) (inr m) = some-critical w es hs m

all-ok :
    (w : ℕ) (es : List ℕ)
    → All IsExit es
    → All (λ e. exit_rank e ≤ exit_rank w) es
    → w ≡ 0
    → All (λ e. e ≡ 0) es
all-ok w [] b h e = tt
all-ok w (x ∷ es) (b, bs) (h, hs) e =
    (rank-ok x b (unfold exit_rank in (rw e at h)), all-ok w es bs hs e)

-- The exit code of a run over several ports, each of which ended with a code of 0 to 3: it is
-- CRITICAL if one is, it is 0 exactly when each one is 0, and no one is more severe than it.
pub worst_verify_exit_lem :
    (e : ℕ) (es : List ℕ)
    → All IsExit (e ∷ es)
    → All (λ x. exit_rank x ≤ exit_rank (worst_verify_exit (e ∷ es))) (e ∷ es)
      × (Any (λ x. x ≡ 2) (e ∷ es) → worst_verify_exit (e ∷ es) ≡ 2)
      × ((worst_verify_exit (e ∷ es) ≡ 0) ↔ All (λ x. x ≡ 0) (e ∷ es))
unfolding worst_verify_exit
worst_verify_exit_lem e es b =
    let w = max_by_key exit_rank e es in
    let top = max_by_key_lem exit_rank e es in
    (
      top,
      some-critical w (e ∷ es) top,
      (all-ok w (e ∷ es) b top, λ z. max_by_key-keeps (λ x. x ≡ 0) e es z.0 z.1),
    )
