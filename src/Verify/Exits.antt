-- ===== src/Verify/Exits.antt =====
-- src/main.rs, `verify`: its exit codes are those of Nagios.
use gentlsa.Prelude.{
  ℕ, Text, Bool, Option, none, some, List, [], ◌∷◌, arith, inl, inr, Option-cases, map,
}
use gentlsa.Prelude.Int.{ℤ}
use gentlsa.Tlsa.Owner.{fqdn, connect_host}
use gentlsa.Dns.{TlsaRecord, DnssecStatus, TlsaLookup, secure, insecure, bogus, indeterminate}
use gentlsa.Cert.{Crypto, Certificate, CertLifetime, lifetime_at, matches_tlsa, spki_sha256_hex}
use gentlsa.Report.{
  VerifyOutcome, verify_outcome, apply_expiry, apply_dnssec, bogus_outcome, unauthenticated_outcome,
  DnssecSubject, tlsa, mx,
}
use gentlsa.Report.Json.{JsonTlsa}
use gentlsa.Report.Ranks.{IsExit}
use gentlsa.Verify.{
  aged, VerifyArgs, Network, CertDetails, verdict, verify, verify_cert, lookup, info_block, fail,
  result_of, unmatched, zip_matched,
}

verify_outcome-IsExit :
    (live : Option Text) (records : List TlsaRecord) (ms : List (Option Bool))
    → IsExit (verify_outcome live records ms).exit
unfolding verify_outcome
verify_outcome-IsExit none records ms = omega arith
verify_outcome-IsExit (some live) [] ms = omega arith
verify_outcome-IsExit (some live) (r ∷ records) ms = ground arith

apply_expiry-IsExit :
    (o : VerifyOutcome) (days : ℤ) (early : Bool) (warn critical : ℕ)
    → IsExit o.exit
    → IsExit (apply_expiry o days early warn critical).exit
unfolding apply_expiry
apply_expiry-IsExit o days early warn critical h = ground (arith, h)

aged-IsExit :
    (o : VerifyOutcome) (expiry : Option (ℕ × ℕ)) (l : CertLifetime)
    → IsExit o.exit
    → IsExit (aged o expiry l).exit
unfolding aged
aged-IsExit o none l h = h
aged-IsExit o (some limits) l h =
    apply_expiry-IsExit o l.days_left l.not_yet_valid limits.0 limits.1 h

apply_dnssec-IsExit :
    (o : VerifyOutcome) (s : Option DnssecStatus) (subject : DnssecSubject)
    → IsExit o.exit
    → IsExit (apply_dnssec o s subject).exit
unfolding apply_dnssec bogus_outcome unauthenticated_outcome
apply_dnssec-IsExit o none subject h = h
apply_dnssec-IsExit o (some secure) subject h = h
apply_dnssec-IsExit o (some bogus) subject h = ground (arith, h)
apply_dnssec-IsExit o (some insecure) subject h = ground (arith, h)
apply_dnssec-IsExit o (some indeterminate) subject h = ground (arith, h)

fail-IsExit :
    (a : VerifyArgs) (dns : List JsonTlsa) (info : Option CertDetails)
    (dnssec : Option DnssecStatus)
    → IsExit (fail a dns info dnssec).exit
unfolding fail result_of
fail-IsExit a dns info dnssec =
    apply_dnssec-IsExit _ a.mx_dnssec _ (verify_outcome-IsExit none [] [])

verdict-IsExit :
    (h : Text) (records : List TlsaRecord) (ms : List (Option Bool)) (expiry : Option (ℕ × ℕ))
    (l : CertLifetime) (s m : Option DnssecStatus)
    → IsExit (verdict h records ms expiry l s m).exit
unfolding verdict
verdict-IsExit h records ms expiry l s m =
    let found = verify_outcome (some h) records ms in
    apply_dnssec-IsExit (apply_dnssec (aged found expiry l) s tlsa) m mx (
      apply_dnssec-IsExit (aged found expiry l) s tlsa
        (aged-IsExit found expiry l (verify_outcome-IsExit (some h) records ms)))

module _ (crypto : Crypto) (net : Network) where
  result_of-exit :
      (a : VerifyArgs) (found : TlsaLookup) (c : Certificate) (info : Option CertDetails) (h : Text)
      (dns : List JsonTlsa) (days : Option ℤ) (o : VerifyOutcome)
      → IsExit o.exit
      → IsExit (result_of a o (some h) dns info days found.dnssec).exit
  unfolding result_of
  result_of-exit a found c info h dns days o k = k

  verify_cert-IsExit :
      (a : VerifyArgs) (found : TlsaLookup) (c : Certificate) (info : Option CertDetails)
      → IsExit (verify_cert crypto net a found c info).exit
  unfolding verify_cert
  verify_cert-IsExit a found c info = elim (Option-cases (spki_sha256_hex crypto c)) [
    | inl e ↦ rw (e, verify_cert) (fail-IsExit a (unmatched found.records) info found.dnssec)
    | inr (h, e) ↦
        rw (e, verify_cert)
          (result_of-exit a found c info h
            (zip_matched found.records (map (matches_tlsa crypto c) found.records))
            (some (lifetime_at c net.now).days_left)
            (verdict h found.records (map (matches_tlsa crypto c) found.records) a.expiry
              (lifetime_at c net.now) found.dnssec a.mx_dnssec)
            (verdict-IsExit h found.records (map (matches_tlsa crypto c) found.records) a.expiry
              (lifetime_at c net.now) found.dnssec a.mx_dnssec))
  ]

  pub verify-IsExit : (a : VerifyArgs) → IsExit (verify crypto net a).exit
  unfolding verify
  verify-IsExit a =
      elim (Option-cases (lookup net a.dnssec_check (fqdn a.zone a.port a.hostname))) [
        | inl e ↦ rw (e, verify) (fail-IsExit a [] none none)
        | inr (found, e) ↦
            elim (Option-cases
              (net.fetch_live (connect_host a.zone a.hostname) a.port a.starttls a.zone)) [
                | inl f ↦
                    rw (e, f, verify) (fail-IsExit a (unmatched found.records) none found.dnssec)
                | inr (c, f) ↦ elim (Option-cases (info_block net a.info c)) [
                  | inl i ↦
                      rw (e, f, i, verify)
                        (fail-IsExit a (unmatched found.records) none found.dnssec)
                  | inr (info, i) ↦ rw (e, f, i, verify) (verify_cert-IsExit a found c info)
                ]
              ]
      ]
