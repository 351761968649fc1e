-- ===== src/Dns/Mx.antt =====
-- src/dns.rs: `lookup_mx` and `normalize_mx`, the exchange hosts of a zone.
use gentlsa.Prelude.{
  Option, none, some, ℕ, Text, Bool, true, false, List, [], ◌∷◌, ltb, if◌then◌else◌, is_empty,
  trim_dots, eq_ignore_ascii_case, to_ascii_lowercase, ◌==◌, ◌&&◌, ◌||◌,
}
use gentlsa.Dns.{DnssecStatus, worst_dnssec}

pub record MxHost : Type 0 where
  pub preference : ℕ
  pub host : Text

-- One record put among the hosts so far: a known host keeps the lower preference, in its place.
unfoldable pub merge_host : ℕ → Text → List MxHost → List MxHost
merge_host preference host [] = record { preference = preference; host = host } ∷ []
merge_host preference host (existing ∷ hosts) =
    if eq_ignore_ascii_case existing.host host
    then (if ltb preference existing.preference
        then record existing { preference = preference } ∷ hosts
        else existing ∷ hosts)
    else existing ∷ merge_host preference host hosts

-- The loop over the records.
unfoldable pub collect_hosts : List MxHost → List (ℕ × Text) → List MxHost
collect_hosts hosts [] = hosts
collect_hosts hosts ((preference, name) ∷ records) =
    collect_hosts
      (if is_empty (trim_dots name) then hosts else merge_host preference (trim_dots name) hosts)
      records

-- `a <= b` by `str`'s order, on texts.
unfoldable pub text_le : Text → Text → Bool
text_le [] t = true
text_le (c ∷ s) [] = false
text_le (c ∷ s) (d ∷ t) = ltb c d || (c == d && text_le s t)

-- The comparison of `sort_by` is not `Greater`.
unfoldable pub host_le : MxHost → MxHost → Bool
unfolding text_le
host_le a b =
    ltb a.preference b.preference
    || (a.preference == b.preference
        && text_le (to_ascii_lowercase a.host) (to_ascii_lowercase b.host))

-- `sort_by` is a stable sort: the standard library's, written as an insertion sort.
unfoldable pub insert_host : MxHost → List MxHost → List MxHost
insert_host x [] = x ∷ []
insert_host x (y ∷ ys) = if host_le x y then x ∷ y ∷ ys else y ∷ insert_host x ys

unfoldable pub sort_hosts : List MxHost → List MxHost
sort_hosts [] = []
sort_hosts (x ∷ xs) = insert_host x (sort_hosts xs)

unfoldable pub normalize_mx : List (ℕ × Text) → List MxHost
normalize_mx records = sort_hosts (collect_hosts [] records)

pub record MxLookup : Type 0 where
  pub hosts : List MxHost
  pub dnssec : Option DnssecStatus

-- An answer of the resolver: its preference and exchange, if that is MX data, and its proof as
-- `DnssecStatus::from_proof` reads it.
pub record MxAnswer : Type 0 where
  pub exchange : Option (ℕ × Text)
  pub proof : DnssecStatus

-- `fails` is an error of the lookup, a time-out among them, and `no_records` its
-- `is_no_records_found`.
pub data MxResponse : Type 0 where
  fails no_records : MxResponse
  answers : List MxAnswer → MxResponse

-- A null MX is passed over, but its proof counts.
unfoldable pub push_exchange : Option (ℕ × Text) → List (ℕ × Text) → List (ℕ × Text)
push_exchange none records = records
push_exchange (some (preference, name)) records =
    if is_empty (trim_dots name) then records else (preference, trim_dots name) ∷ records

unfoldable pub mx_records : List MxAnswer → List (ℕ × Text)
unfolding push_exchange
mx_records [] = []
mx_records (a ∷ as') = push_exchange a.exchange (mx_records as')

unfoldable pub push_proof : MxAnswer → List DnssecStatus → List DnssecStatus
push_proof a proofs = elim a.exchange [ some _ ↦ a.proof ∷ proofs | none ↦ proofs ]

unfoldable pub mx_proofs : List MxAnswer → List DnssecStatus
unfolding push_proof
mx_proofs [] = []
mx_proofs (a ∷ as') = push_proof a (mx_proofs as')

unfoldable pub lookup_mx : Bool → MxResponse → Option MxLookup
unfolding mx_records mx_proofs normalize_mx worst_dnssec
lookup_mx validate fails = none
lookup_mx validate no_records = some (record { hosts = []; dnssec = none })
lookup_mx validate (answers as') = some (record {
  hosts = normalize_mx (mx_records as');
  dnssec = if validate then worst_dnssec (mx_proofs as') else none;
})
