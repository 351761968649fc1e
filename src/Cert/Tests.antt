-- ===== src/Cert/Tests.antt =====
-- A certificate with one issuer, and the digests the identity.
use gentlsa.Prelude.{
  ℕ, ◌≤◌, Text, codes, List, [], ◌∷◌, ◌≡◌, ◌≢◌, ◌↔◌, refl, true, Option, some, none, All, Any,
  arith,
}
use gentlsa.Prelude.Int.{pos}
use gentlsa.Tlsa.{TlsaParams}
use gentlsa.Dns.{TlsaRecord}
use gentlsa.Cert
use gentlsa.Cert.{Bytes, Crypto, Certificate}
use gentlsa.Cert.Matching.{Holds, IsComputable, record_of, matches_tlsa_iff, matches-record_data}

abbrev plain : Crypto
plain = record {
  public_key = λ der. some der;
  sha256 = λ bytes. bytes;
  sha512 = λ bytes. bytes;
  hex_encode = λ bytes. bytes;
}

abbrev leaf : Certificate
leaf = record {
  der = codes "ab";
  chain_der = codes "cd" ∷ [];
  not_before_ts = pos 0;
  not_after_ts = pos 864000;
}

abbrev issuer_record : TlsaRecord
issuer_record = record { usage = 2; selector = 1; matching = 1; certificate = codes "CD" }

matches_tlsa_iff_example : (Cert.matches_tlsa plain leaf issuer_record ≡ some true) ↔ (
    (ders : List Bytes) × (Cert.candidates leaf 2 ≡ some ders)
    × All (IsComputable plain issuer_record) ders
    × Any (Holds plain issuer_record) ders)
matches_tlsa_iff_example = matches_tlsa_iff plain leaf issuer_record

abbrev anchor : TlsaParams
anchor = record { usage = 2; selector = 1; matching = 1 }

computable :
    All (IsComputable plain (record_of plain anchor (codes "CD"))) (codes "ab" ∷ codes "cd" ∷ [])
unfolding Cert.tlsa_association_data Cert.selected_data Cert.digested
computable = (λ h. absurd (cc h), (λ h. absurd (cc h), tt))

matches-record_data_example :
    Cert.matches_tlsa plain leaf (record_of plain anchor (codes "CD")) ≡ some true
unfolding Cert.tlsa_record_data Cert.tlsa_association_data Cert.selected_data Cert.digested
    Cert.first_or gentlsa.Prelude.lower
matches-record_data_example =
    matches-record_data plain leaf anchor (codes "cd") (codes "CD") (omega arith) computable refl
      refl
