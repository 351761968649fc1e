-- ===== src/Cert.antt =====
-- src/cert.rs: the data of a certificate that a TLSA record commits to, and its lifetime. The X.509
-- parser, the digests and the hexadecimal encoder are libraries: the operations of `Crypto`.
pub mod Matching
pub mod Tests
use gentlsa.Prelude.{
  ℕ, Text, Bool, true, false, ◌||◌, Option, none, some, List, [], ◌∷◌, ◌==◌, if◌then◌else◌, ◌>>=◌,
}
use gentlsa.Prelude.Int.{ℤ, ◌-ℤ◌, ltb_ℤ, div_euclid}
use gentlsa.Tlsa.{TlsaParams, is_trust_anchor, hashes_equal}
use gentlsa.Dns.{TlsaRecord}

abbrev pub Bytes : Type 0
Bytes = List ℕ

-- `public_key` gives the SubjectPublicKeyInfo, or nothing where `X509Certificate::from_der` fails.
pub record Crypto : Type 0 where
  pub public_key : Bytes → Option Bytes
  pub sha256 : Bytes → Bytes
  pub sha512 : Bytes → Bytes
  pub hex_encode : Bytes → Text

pub record Certificate : Type 0 where
  pub der : Bytes
  pub chain_der : List Bytes
  pub not_before_ts : ℤ
  pub not_after_ts : ℤ

pub record CertLifetime : Type 0 where
  pub days_left : ℤ
  pub not_yet_valid : Bool

-- The timestamps of a certificate lie far inside `i64`, so the subtraction does not overflow.
unfoldable pub lifetime_at : Certificate → ℤ → CertLifetime
lifetime_at c now = record {
  days_left = div_euclid (c.not_after_ts -ℤ now) 86400;
  not_yet_valid = ltb_ℤ now c.not_before_ts;
}

-- `chain_der.first().unwrap_or(&self.der)`.
unfoldable pub first_or : List Bytes → Bytes → Bytes
first_or [] der = der
first_or (issuer ∷ _) der = issuer

unfoldable pub candidates : Certificate → ℕ → Option (List Bytes)
candidates c u =
    if u == 1 || u == 3
    then some (c.der ∷ [])
    else if u == 0 || u == 2
    then some (c.der ∷ c.chain_der)
    else none

module _ (crypto : Crypto) where
  unfoldable pub spki_sha256_hex : Certificate → Option Text
  spki_sha256_hex c =
      crypto.public_key c.der >>= λ key. some (crypto.hex_encode (crypto.sha256 key))

  -- `none` where the source fails: an unsupported selector or matching type, or a parse error.
  unfoldable pub selected_data : Bytes → ℕ → Option Bytes
  selected_data der selector =
      if selector == 0 then some der else if selector == 1 then crypto.public_key der else none

  unfoldable pub digested : Bytes → ℕ → Option Text
  digested bytes matching =
      if matching == 0
      then some (crypto.hex_encode bytes)
      else if matching == 1
      then some (crypto.hex_encode (crypto.sha256 bytes))
      else if matching == 2
      then some (crypto.hex_encode (crypto.sha512 bytes))
      else none

  unfoldable pub tlsa_association_data : Bytes → ℕ → ℕ → Option Text
  tlsa_association_data der selector matching =
      selected_data der selector >>= λ bytes. digested bytes matching

  unfoldable pub tlsa_record_data : Certificate → TlsaParams → Option Text
  unfolding is_trust_anchor
  tlsa_record_data c p =
      tlsa_association_data (if is_trust_anchor p then first_or c.chain_der c.der else c.der)
        p.selector p.matching

  -- The loop over the candidates, with the flag `matched`.
  unfoldable pub match_loop : TlsaRecord → Bool → List Bytes → Option Bool
  match_loop r matched [] = some matched
  match_loop r matched (der ∷ ders) = elim (tlsa_association_data der r.selector r.matching) [
    | none ↦ none
    | some found ↦ match_loop r (matched || hashes_equal found r.certificate) ders
  ]

  unfoldable pub matches_tlsa : Certificate → TlsaRecord → Option Bool
  matches_tlsa c r = candidates c r.usage >>= match_loop r false
