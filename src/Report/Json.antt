-- ===== src/Report/Json.antt =====
-- src/report.rs: a TLSA record as the program lists it, with its verdict.
use gentlsa.Prelude.{ℕ, Text, Bool, true, false, Option, none, some}
use gentlsa.Tlsa.{
  usage_name, selector_name, matching_name, rdata_text, Status, current, stale, hash_status,
}
use gentlsa.Dns.{TlsaRecord}
use gentlsa.Publish.Rdata.{ListedTlsa}

pub record JsonTlsa : Type 0 where
  pub id : Option Text
  pub name : Option Text
  pub usage : ℕ
  pub usage_label : Option Text
  pub selector : ℕ
  pub selector_label : Option Text
  pub matching : ℕ
  pub matching_label : Option Text
  pub certificate : Text
  pub status : Option Status

unfoldable pub from_fields : Option Text → Option Text → ℕ → ℕ → ℕ → Text → Option Status → JsonTlsa
unfolding usage_name selector_name matching_name
from_fields id name u s m certificate status = record {
  id = id;
  name = name;
  usage = u;
  usage_label = usage_name u;
  selector = s;
  selector_label = selector_name s;
  matching = m;
  matching_label = matching_name m;
  certificate = certificate;
  status = status;
}

unfoldable pub from_dns : TlsaRecord → Option Text → JsonTlsa
unfolding from_fields hash_status
from_dns r live =
    from_fields none none r.usage r.selector r.matching r.certificate
      (hash_status live r.usage r.selector r.matching r.certificate)

-- `matched.map(|matched| if matched { "current" } else { "stale" })`.
unfoldable pub match_status : Option Bool → Option Status
match_status none = none
match_status (some true) = some current
match_status (some false) = some stale

unfoldable pub from_dns_matched : TlsaRecord → Option Bool → JsonTlsa
unfolding from_fields match_status
from_dns_matched r matched =
    from_fields none none r.usage r.selector r.matching r.certificate (match_status matched)

unfoldable pub json_text : JsonTlsa → Text
unfolding rdata_text
json_text j = rdata_text j.usage j.selector j.matching j.certificate

unfoldable pub from_listed : ListedTlsa → Option Text → JsonTlsa
unfolding from_fields hash_status
from_listed r live =
    from_fields r.id (some r.name) r.usage r.selector r.matching r.certificate
      (hash_status live r.usage r.selector r.matching r.certificate)
