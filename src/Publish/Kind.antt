-- ===== src/Publish/Kind.antt =====
-- src/publish.rs: the publishers and the names they go by.
use gentlsa.Prelude.{
  Text, codes, ◌||◌, Option, none, some, if◌then◌else◌, text_eq, trim, to_ascii_lowercase,
}

pub data PublisherKind : Type 0 where
  cloudflare nsupdate route53 google azure : PublisherKind

unfoldable pub flag : PublisherKind → Text
flag cloudflare = codes "--cloudflare"
flag nsupdate = codes "--nsupdate"
flag route53 = codes "--route53"
flag google = codes "--google"
flag azure = codes "--azure"

unfoldable pub kind_label : PublisherKind → Text
kind_label cloudflare = codes "Cloudflare"
kind_label nsupdate = codes "nsupdate"
kind_label route53 = codes "Route 53"
kind_label google = codes "Google Cloud DNS"
kind_label azure = codes "Azure DNS"

unfoldable pub kind_name : PublisherKind → Text
kind_name cloudflare = codes "cloudflare"
kind_name nsupdate = codes "nsupdate"
kind_name route53 = codes "route53"
kind_name google = codes "google"
kind_name azure = codes "azure"

-- The `match` on the folded name.
unfoldable pub kind_of : Text → Option PublisherKind
kind_of n =
    if text_eq n (codes "cloudflare") || text_eq n (codes "cf")
    then some cloudflare
    else if text_eq n (codes "nsupdate") || text_eq n (codes "rfc2136")
    then some nsupdate
    else if text_eq n (codes "route53") || text_eq n (codes "r53")
    then some route53
    else if text_eq n (codes "google") || text_eq n (codes "gcp") || text_eq n (codes "clouddns")
    then some google
    else if text_eq n (codes "azure") || text_eq n (codes "azuredns") || text_eq n (codes "az")
    then some azure
    else none

unfoldable pub from_name : Text → Option PublisherKind
unfolding kind_of
from_name name = kind_of (to_ascii_lowercase (trim name))
