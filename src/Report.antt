-- ===== src/Report.antt =====
-- src/report.rs: the verdict of `verify`. A status or message of the source is its text.
pub mod Json
pub mod Ranks
pub mod Tests
use gentlsa.Prelude.{
  ℕ, Text, codes, Bool, true, false, not, ◌&&◌, ◌||◌, Option, none, some, List, [], ◌∷◌, ◌++◌, ◌==◌,
  leb, if◌then◌else◌, join, map,
}
use gentlsa.Prelude.Decimal.{to_string}
use gentlsa.Prelude.Int.{ℤ, pos, negsuc, leb_ℤ}
use gentlsa.Dns.{
  TlsaRecord, to_text, DnssecStatus, secure, insecure, bogus, indeterminate, dnssec_label,
  max_by_key,
}

pub record VerifyOutcome : Type 0 where
  pub status : Text
  pub message : Text
  pub exit : ℕ

abbrev pub outcome : Text → Text → ℕ → VerifyOutcome
outcome status message exit = record { status = status; message = message; exit = exit }

abbrev pub unknown : VerifyOutcome
unknown = outcome (codes "unknown") (codes "UNKNOWN - Something went wrong. Check logs") 3

-- `matched.iter().flatten().any(|&matched| matched)`.
unfoldable pub any_matched : List (Option Bool) → Bool
any_matched [] = false
any_matched (none ∷ ms) = any_matched ms
any_matched (some m ∷ ms) = m || any_matched ms

unfoldable pub verify_outcome : Option Text → List TlsaRecord → List (Option Bool) → VerifyOutcome
unfolding any_matched
verify_outcome none dns matched = unknown
verify_outcome (some live) [] matched = unknown
verify_outcome (some live) (r ∷ dns) matched =
    if any_matched matched
    then outcome (codes "ok") (codes "OK - TLSA is valid") 0
    else outcome (codes "error")
        (codes "ERROR - TLSA invalid: "
          ++ (live ++ (codes " != " ++ join (codes ", ") (map to_text (r ∷ dns)))))
        2

unfoldable pub expiry_phrase : ℤ → Bool → Text
expiry_phrase days_left true = codes "is not yet valid"
expiry_phrase (negsuc n) false = codes "expired"
expiry_phrase (pos n) false =
    if n == 0
    then codes "expires today"
    else if n == 1
    then codes "expires in 1 day"
    else codes "expires in " ++ (to_string n ++ codes " days")

unfoldable pub apply_expiry : VerifyOutcome → ℤ → Bool → ℕ → ℕ → VerifyOutcome
apply_expiry o days_left not_yet_valid warn critical =
    if not (o.exit == 0)
    then o
    else if not_yet_valid || leb_ℤ days_left (pos critical)
    then outcome (codes "critical")
        (codes "CRITICAL - certificate " ++ expiry_phrase days_left not_yet_valid) 2
    else if leb_ℤ days_left (pos warn)
    then outcome (codes "warning")
        (codes "WARNING - certificate " ++ expiry_phrase days_left not_yet_valid) 1
    else o

pub data DnssecSubject : Type 0 where
  tlsa mx : DnssecSubject

unfoldable pub subject_label : DnssecSubject → Text
subject_label tlsa = codes "TLSA"
subject_label mx = codes "MX"

-- The two outcomes that a verdict can raise to.
unfoldable pub bogus_outcome : DnssecSubject → VerifyOutcome
bogus_outcome subject =
    outcome (codes "critical")
      (codes "CRITICAL - "
        ++ (subject_label subject ++ codes " records failed DNSSEC validation (bogus)"))
      2

unfoldable pub unauthenticated_outcome : DnssecSubject → DnssecStatus → VerifyOutcome
unauthenticated_outcome subject dnssec =
    outcome (codes "warning")
      (codes "WARNING - "
        ++ (subject_label subject
            ++ (codes " records are not DNSSEC-authenticated ("
                ++ (dnssec_label dnssec ++ codes ")"))))
      1

unfoldable pub apply_dnssec : VerifyOutcome → Option DnssecStatus → DnssecSubject → VerifyOutcome
apply_dnssec o none subject = o
apply_dnssec o (some secure) subject = o
apply_dnssec o (some bogus) subject =
    if not (o.exit == 2) && not (o.exit == 3) then bogus_outcome subject else o
apply_dnssec o (some insecure) subject =
    if o.exit == 0 then unauthenticated_outcome subject insecure else o
apply_dnssec o (some indeterminate) subject =
    if o.exit == 0 then unauthenticated_outcome subject indeterminate else o

-- The Nagios severity of an exit code.
unfoldable pub exit_rank : ℕ → ℕ
exit_rank e = if e == 2 then 3 else if e == 1 then 2 else if e == 3 then 1 else 0

unfoldable pub worst_verify_exit : List ℕ → ℕ
worst_verify_exit [] = 0
worst_verify_exit (e ∷ exits) = max_by_key exit_rank e exits
