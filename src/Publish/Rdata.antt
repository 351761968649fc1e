-- ===== src/Publish/Rdata.antt =====
-- src/publish.rs: listed records, and the text form of a TLSA record's data.
use gentlsa.Prelude.{
  ℕ, Text, Bool, codes, Option, none, some, List, [], ◌∷◌, ◌++◌, ◌>>=◌, if◌then◌else◌, is_empty,
  concat, split_whitespace, to_ascii_lowercase,
}
use gentlsa.Prelude.Decimal.{to_string, parse_u8}
use gentlsa.Publish.{DaneTlsa}
use gentlsa.Publish.Names.{Checked, ok, panics, record_matches_filter}

pub record ListedTlsa : Type 0 where
  pub id : Option Text
  pub name : Text
  pub usage : ℕ
  pub selector : ℕ
  pub matching : ℕ
  pub certificate : Text

unfoldable pub to_dane : ListedTlsa → DaneTlsa
to_dane r = record {
  usage = r.usage;
  selector = r.selector;
  matching = r.matching;
  certificate = r.certificate;
}

-- `parts.next()?.parse().ok()?`, and the iterator behind it.
unfoldable pub next_u8 : List Text → Option (ℕ × List Text)
next_u8 [] = none
next_u8 (part ∷ parts) = parse_u8 part >>= λ n. some (n, parts)

-- The certificate from the parts that are left.
unfoldable pub joined_certificate : List Text → Option Text
joined_certificate parts =
    let certificate = to_ascii_lowercase (concat parts) in
    if is_empty certificate then none else some certificate

unfoldable pub parse_parts : List Text → Option DaneTlsa
parse_parts parts = do
  (u, parts₁) ← next_u8 parts
  (s, parts₂) ← next_u8 parts₁
  (m, parts₃) ← next_u8 parts₂
  certificate ← joined_certificate parts₃
  some (record { usage = u; selector = s; matching = m; certificate = certificate })

-- The quadruple of the source is given as the record of its four values.
unfoldable pub parse_tlsa_rdata : Text → Option DaneTlsa
unfolding parse_parts
parse_tlsa_rdata s = parse_parts (split_whitespace s)

unfoldable pub from_rdata : Text → Text → Option Text → Option ListedTlsa
unfolding parse_tlsa_rdata
from_rdata name rdata id = do
  r ← parse_tlsa_rdata rdata
  some (record {
    id = id;
    name = name;
    usage = r.usage;
    selector = r.selector;
    matching = r.matching;
    certificate = r.certificate;
  })

unfoldable pub format_tlsa_rdata : DaneTlsa → Text
format_tlsa_rdata r =
    to_string r.usage
    ++ (codes " "
        ++ (to_string r.selector
            ++ (codes " " ++ (to_string r.matching ++ (codes " " ++ r.certificate)))))

-- A value of a record set, listed and as the publishers decide on it.
unfoldable pub rdata_listed : Text → Text → Option ListedTlsa
unfolding from_rdata
rdata_listed name rdata = from_rdata name rdata none

unfoldable pub rdata_dane : Text → Text → Option DaneTlsa
unfolding rdata_listed to_dane
rdata_dane name rdata = rdata_listed name rdata >>= λ listed. some (to_dane listed)

-- The filter of a listing; `none` where the test panics.
unfoldable pub keep_checked :
    ListedTlsa → Checked Bool → Option (List ListedTlsa) → Option (List ListedTlsa)
keep_checked r panics rest = none
keep_checked r (ok keep) rest = rest >>= λ rs. some (if keep then r ∷ rs else rs)

unfoldable pub keep_matching :
    Text → Option Text → List ℕ → List ListedTlsa → Option (List ListedTlsa)
unfolding keep_checked
keep_matching zone hostname ports [] = some []
keep_matching zone hostname ports (r ∷ records') =
    keep_checked r (record_matches_filter r.name zone hostname ports)
      (keep_matching zone hostname ports records')
