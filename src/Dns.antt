-- ===== src/Dns.antt =====
-- src/dns.rs: TLSA records as the resolver gives them, DNSSEC verdicts, and the MX hosts of a zone.
-- The resolver is the library `hickory_resolver`: an answer is a value here.
pub mod Verdict
pub mod Mx
pub mod MxLaws
pub mod MxHosts
pub mod Tests
use gentlsa.Prelude.{
  ℕ, Text, codes, Bool, true, false, Option, none, some, List, [], ◌∷◌, ◌++◌, leb, if◌then◌else◌,
  map,
}
use gentlsa.Prelude.Decimal.{to_string}

pub record TlsaRecord : Type 0 where
  pub usage : ℕ
  pub selector : ℕ
  pub matching : ℕ
  pub certificate : Text

unfoldable pub to_text : TlsaRecord → Text
to_text r =
    to_string r.usage
    ++ (codes " "
        ++ (to_string r.selector
            ++ (codes " " ++ (to_string r.matching ++ (codes " " ++ r.certificate)))))

pub data DnssecStatus : Type 0 where
  secure insecure bogus indeterminate : DnssecStatus

unfoldable pub dnssec_label : DnssecStatus → Text
dnssec_label secure = codes "secure"
dnssec_label insecure = codes "insecure"
dnssec_label bogus = codes "bogus"
dnssec_label indeterminate = codes "indeterminate"

unfoldable pub severity : DnssecStatus → ℕ
severity secure = 0
severity insecure = 1
severity indeterminate = 2
severity bogus = 3

-- `max_by_key`: of equal keys the later item is kept.
unfoldable pub max_by_key {ℓ} : {A : Type ℓ} → (A → ℕ) → A → List A → A
max_by_key key best [] = best
max_by_key key best (x ∷ xs) = max_by_key key (if leb (key best) (key x) then x else best) xs

unfoldable pub worst_dnssec : List DnssecStatus → Option DnssecStatus
unfolding max_by_key severity
worst_dnssec [] = none
worst_dnssec (s ∷ ss) = some (max_by_key severity s ss)

pub record TlsaLookup : Type 0 where
  pub records : List TlsaRecord
  pub dnssec : Option DnssecStatus

-- An answer of the resolver: its data, if that is TLSA data, and its proof.
pub record Answer : Type 0 where
  pub tlsa : Option TlsaRecord
  pub proof : DnssecStatus

-- The loop over the answers of `lookup_tlsa_dnssec`.
unfoldable pub tlsa_answers : List Answer → List (TlsaRecord × DnssecStatus)
tlsa_answers [] = []
tlsa_answers (a ∷ answers) = elim a.tlsa [
  | some record' ↦ (record', a.proof) ∷ tlsa_answers answers
  | none ↦ tlsa_answers answers
]

unfoldable pub validated : List Answer → TlsaLookup
unfolding tlsa_answers worst_dnssec
validated answers =
    let found = tlsa_answers answers in
    record { records = map (λ p. p.0) found; dnssec = worst_dnssec (map (λ p. p.1) found) }

-- The answer of the resolver: outer `none` is an error that `lookup_tlsa` passes on, inner `none` is
-- a failed lookup.
abbrev pub Response : Type 0
Response = Option (Option (List Answer))

unfoldable pub lookup_tlsa_dnssec : Response → Option TlsaLookup
unfolding validated
lookup_tlsa_dnssec none = none
lookup_tlsa_dnssec (some none) = some (record { records = []; dnssec = none })
lookup_tlsa_dnssec (some (some answers)) = some (validated answers)

-- Without validation no proof is read.
unfoldable pub lookup_tlsa : Response → Option (List TlsaRecord)
unfolding tlsa_answers
lookup_tlsa none = none
lookup_tlsa (some none) = some []
lookup_tlsa (some (some answers)) = some (map (λ p. p.0) (tlsa_answers answers))
