-- ===== src/Tlsa.antt =====
-- src/tlsa.rs: the parameters of a TLSA record and their names, record texts, and the comparison of
-- hashes. A `u8` or `u16` is a number; its range is a hypothesis where it matters.
pub mod Owner
pub mod Starttls
pub mod Target
pub mod Lookup
pub mod Exchange
use gentlsa.Prelude.{
  ℕ, Text, codes, Bool, true, false, ◌&&◌, ◌||◌, Option, none, some, ◌==◌, if◌then◌else◌,
  eq_ignore_ascii_case, ◌++◌,
}
use gentlsa.Prelude.Decimal.{to_string}

-- DANE-EE / SPKI / SHA-256.
abbrev pub usage_default : ℕ
usage_default = 3

abbrev pub selector_default : ℕ
selector_default = 1

abbrev pub matching_default : ℕ
matching_default = 1

pub record TlsaParams : Type 0 where
  pub usage : ℕ
  pub selector : ℕ
  pub matching : ℕ

-- `Default for TlsaParams`.
abbrev pub default_params : TlsaParams
default_params = record {
  usage = usage_default;
  selector = selector_default;
  matching = matching_default;
}

unfoldable pub is_default : TlsaParams → Bool
is_default p =
    p.usage == usage_default && p.selector == selector_default && p.matching == matching_default

unfoldable pub is_trust_anchor : TlsaParams → Bool
is_trust_anchor p = p.usage == 0 || p.usage == 2

unfoldable pub usage_name : ℕ → Option Text
usage_name u =
    if u == 0
    then some (codes "PKIX-TA")
    else if u == 1
    then some (codes "PKIX-EE")
    else if u == 2
    then some (codes "DANE-TA")
    else if u == 3
    then some (codes "DANE-EE")
    else if u == 255
    then some (codes "PrivCert")
    else none

unfoldable pub selector_name : ℕ → Option Text
selector_name s =
    if s == 0
    then some (codes "Cert")
    else if s == 1
    then some (codes "SPKI")
    else if s == 255
    then some (codes "PrivSel")
    else none

unfoldable pub matching_name : ℕ → Option Text
matching_name m =
    if m == 0
    then some (codes "Full")
    else if m == 1
    then some (codes "SHA2-256")
    else if m == 2
    then some (codes "SHA2-512")
    else if m == 255
    then some (codes "PrivMatch")
    else none

unfoldable pub is_dane_ee_spki_sha256 : ℕ → ℕ → ℕ → Bool
is_dane_ee_spki_sha256 u s m = u == usage_default && s == selector_default && m == matching_default

unfoldable pub named : ℕ → Option Text → Text
named value none = to_string value
named value (some name) = name

unfoldable pub params_label : ℕ → ℕ → ℕ → Text
unfolding named usage_name selector_name matching_name
params_label u s m =
    named u (usage_name u)
    ++ (codes " " ++ (named s (selector_name s) ++ (codes " " ++ named m (matching_name m))))

unfoldable pub label : TlsaParams → Text
unfolding params_label
label p = params_label p.usage p.selector p.matching

unfoldable pub rdata_text : ℕ → ℕ → ℕ → Text → Text
unfolding params_label
rdata_text u s m certificate =
    to_string u
    ++ (codes " "
        ++ (to_string s
            ++ (codes " "
                ++ (to_string m
                    ++ (codes " (" ++ (params_label u s m ++ (codes ") " ++ certificate)))))))

unfoldable pub record_line_with : Text → TlsaParams → Text → Text
record_line_with owner p hash =
    owner
    ++ (codes " TLSA "
        ++ (to_string p.usage
            ++ (codes " "
                ++ (to_string p.selector
                    ++ (codes " " ++ (to_string p.matching ++ (codes " " ++ hash)))))))

unfoldable pub hashes_equal : Text → Text → Bool
hashes_equal live dns = eq_ignore_ascii_case live dns

-- The two answers of `hash_status`, and of the match verdict of a listed record.
pub data Status : Type 0 where
  current stale : Status

unfoldable pub hash_status : Option Text → ℕ → ℕ → ℕ → Text → Option Status
unfolding is_dane_ee_spki_sha256 hashes_equal
hash_status live u s m record_hash =
    if is_dane_ee_spki_sha256 u s m
    then (elim live [
      | some h ↦ if hashes_equal h record_hash then some current else some stale
      | none ↦ none
    ])
    else none
