-- ===== src/Verify.antt =====
-- src/main.rs, `verify`: one host and port, from the lookup to the exit code. The resolver, the
-- connection and the X.509 printer are the operations of `Network`; a failed one gives nothing.
pub mod Verdict
pub mod Exits
pub mod Tests
use gentlsa.Prelude.{
  ℕ, Text, Bool, true, false, Option, none, some, List, [], ◌∷◌, if◌then◌else◌, map,
}
use gentlsa.Prelude.Int.{ℤ}
use gentlsa.Tlsa.Owner.{fqdn, connect_host}
use gentlsa.Tlsa.Starttls.{StarttlsProto}
use gentlsa.Dns.{TlsaRecord, DnssecStatus, TlsaLookup, Response, lookup_tlsa, lookup_tlsa_dnssec}
use gentlsa.Cert.{Crypto, Certificate, CertLifetime, lifetime_at, matches_tlsa, spki_sha256_hex}
use gentlsa.Report.{VerifyOutcome, verify_outcome, apply_expiry, apply_dnssec, tlsa, mx}
use gentlsa.Report.Json.{JsonTlsa, from_dns, from_dns_matched}

pub record CertDetails : Type 0 where
  pub serial : Text
  pub issuer : Text
  pub subject : Text
  pub san : Option Text
  pub not_before : Text
  pub not_after : Text

-- `query` asks the resolver, with or without validation; `is_json` is the output format, and
-- `print_info` says whether the printer succeeds.
pub record Network : Type 0 where
  pub query : Bool → Text → Response
  pub fetch_live : Text → ℕ → Option StarttlsProto → Text → Option Certificate
  pub details : Certificate → Option CertDetails
  pub print_info : Certificate → Bool
  pub is_json : Bool
  pub now : ℤ

pub record VerifyResult : Type 0 where
  pub port : ℕ
  pub name : Text
  pub host : Option Text
  pub status : Text
  pub message : Text
  pub exit : ℕ
  pub live : Option Text
  pub dns : List JsonTlsa
  pub info : Option CertDetails
  pub expires_in_days : Option ℤ
  pub dnssec : Option DnssecStatus
  pub mx_dnssec : Option DnssecStatus

-- The arguments of `verify` that it only passes on.
pub record VerifyArgs : Type 0 where
  pub zone : Text
  pub port : ℕ
  pub hostname : Option Text
  pub info : Bool
  pub expiry : Option (ℕ × ℕ)
  pub dnssec_check : Bool
  pub starttls : Option StarttlsProto
  pub host_label : Option Text
  pub mx_dnssec : Option DnssecStatus

unfoldable pub result_of :
    VerifyArgs
    → VerifyOutcome
    → Option Text
    → List JsonTlsa
    → Option CertDetails
    → Option ℤ
    → Option DnssecStatus
    → VerifyResult
unfolding fqdn
result_of a o live dns info days dnssec = record {
  port = a.port;
  name = fqdn a.zone a.port a.hostname;
  host = a.host_label;
  status = o.status;
  message = o.message;
  exit = o.exit;
  live = live;
  dns = dns;
  info = info;
  expires_in_days = days;
  dnssec = dnssec;
  mx_dnssec = a.mx_dnssec;
}

-- The closure `fail`; all its callers pass no live hash.
unfoldable pub fail :
    VerifyArgs → List JsonTlsa → Option CertDetails → Option DnssecStatus → VerifyResult
unfolding result_of apply_dnssec verify_outcome
fail a dns info dnssec =
    result_of a (apply_dnssec (verify_outcome none [] []) a.mx_dnssec mx) none dns info none dnssec

unfoldable pub unmatched : List TlsaRecord → List JsonTlsa
unfolding from_dns
unmatched records = map (λ r. from_dns r none) records

-- `dns_record.iter().zip(&matched).map(…)`.
unfoldable pub zip_matched : List TlsaRecord → List (Option Bool) → List JsonTlsa
unfolding from_dns_matched
zip_matched (r ∷ records) (m ∷ matched) = from_dns_matched r m ∷ zip_matched records matched
zip_matched _ _ = []

-- `if let Some((warn, critical)) = expiry`.
unfoldable pub aged : VerifyOutcome → Option (ℕ × ℕ) → CertLifetime → VerifyOutcome
unfolding apply_expiry
aged found none lifetime = found
aged found (some limits) lifetime =
    apply_expiry found lifetime.days_left lifetime.not_yet_valid limits.0 limits.1

-- The chain of verdicts.
unfoldable pub verdict :
    Text
    → List TlsaRecord
    → List (Option Bool)
    → Option (ℕ × ℕ)
    → CertLifetime
    → Option DnssecStatus
    → Option DnssecStatus
    → VerifyOutcome
unfolding verify_outcome aged apply_dnssec
verdict host_hash records matched expiry lifetime dnssec mx_dnssec =
    let found = aged (verify_outcome (some host_hash) records matched) expiry lifetime in
    apply_dnssec (apply_dnssec found dnssec tlsa) mx_dnssec mx

module _ (net : Network) where
  unfoldable pub lookup : Bool → Text → Option TlsaLookup
  unfolding lookup_tlsa lookup_tlsa_dnssec
  lookup true name = lookup_tlsa_dnssec (net.query true name)
  lookup false name = elim (lookup_tlsa (net.query false name)) [
    | some records' ↦ some (record { records = records'; dnssec = none })
    | none ↦ none
  ]

  -- The details of the certificate, if asked for: outer `none` where the source fails.
  unfoldable pub info_block : Bool → Certificate → Option (Option CertDetails)
  info_block false c = some none
  info_block true c =
      if net.is_json
      then (elim (net.details c) [ some d ↦ some (some d) | none ↦ none ])
      else if net.print_info c
      then some (net.details c)
      else none

module _ (crypto : Crypto) (net : Network) where
  -- From the hash of the presented certificate on.
  unfoldable pub verify_cert :
      VerifyArgs → TlsaLookup → Certificate → Option CertDetails → VerifyResult
  unfolding fail unmatched zip_matched verdict lifetime_at result_of spki_sha256_hex matches_tlsa
  verify_cert a found c info = elim (spki_sha256_hex crypto c) [
    | none ↦ fail a (unmatched found.records) info found.dnssec
    | some host_hash ↦
        let matched = map (matches_tlsa crypto c) found.records in
        let lifetime = lifetime_at c net.now in
        result_of a
          (verdict host_hash found.records matched a.expiry lifetime found.dnssec a.mx_dnssec)
          (some host_hash) (zip_matched found.records matched) info (some lifetime.days_left)
          found.dnssec
  ]

  unfoldable pub verify : VerifyArgs → VerifyResult
  unfolding lookup info_block verify_cert fail unmatched connect_host fqdn
  verify a = elim (lookup net a.dnssec_check (fqdn a.zone a.port a.hostname)) [
    | none ↦ fail a [] none none
    | some found ↦ elim (net.fetch_live (connect_host a.zone a.hostname) a.port a.starttls a.zone) [
      | none ↦ fail a (unmatched found.records) none found.dnssec
      | some c ↦ elim (info_block net a.info c) [
        | none ↦ fail a (unmatched found.records) none found.dnssec
        | some info ↦ verify_cert a found c info
      ]
    ]
  ]
