-- ===== src/Route53.antt =====
-- src/route53.rs: the XML that it reads and writes, the listing, the publish and the prune. A request,
-- signed and sent, is the operations `get` and `post` of `Api` on a state of the server; `none` is an
-- error of the source.
pub mod Xml
pub mod Scan
pub mod Response
pub mod Reading
pub mod NextPage
pub mod Pages
pub mod Request
pub mod Time
pub mod Change
pub mod Server
pub mod Tests
use gentlsa.Prelude.{
  ℕ, zero, suc, Text, codes, Bool, true, false, not, ◌&&◌, ◌||◌, Option, none, some, List, [], ◌∷◌,
  ◌++◌, if◌then◌else◌, length, is_empty, filter, find?, filter_map, map, text_eq,
  eq_ignore_ascii_case, trim_dots, trim, strip_suffix, strip_prefix, concat, ◌>>=◌,
}
use gentlsa.Prelude.Decimal.{to_string}
use gentlsa.Tlsa.Owner.{owner_name}
use gentlsa.Publish.{
  PublishMode, PublishAction, already_published, added, replaced, would_add, would_replace,
  PublishReport, PruneReport, DaneTlsa, publish_action, rrset_after_publish, rrset_after_prune,
  stale_dane,
}
use gentlsa.Publish.Names.{names_equal, fqdn_owner}
use gentlsa.Publish.Rdata.{ListedTlsa, to_dane, rdata_listed, format_tlsa_rdata, keep_matching}
use gentlsa.Publish.Paging.{pages}
use gentlsa.Route53.Xml.{xml_blocks, xml_text, xml_texts, xml_escape}

pub record HostedZone : Type 0 where
  pub id : Text
  pub name : Text
  pub is_private : Bool

pub record ParsedRrset : Type 0 where
  pub name : Text
  pub record_type : Text
  pub values : List Text

-- The query of a page: the marker of the zones, and the name, type and identifier of the record sets.
pub record Marker : Type 0 where
  pub name : Text
  pub rtype : Option Text
  pub identifier : Option Text

-- The bodies of the responses, if they are successful, and the post of a body that asks for changes.
pub record Api (S : Type 0) : Type 0 where
  pub get_zones : S → Option Text → Option Text
  pub get_zones_by_name : S → Text → Option Text
  pub get_rrsets : S → HostedZone → Option Marker → Option Text
  pub post_rrset : S → HostedZone → Text → Option S

unfoldable pub into_listed : ParsedRrset → List ListedTlsa
unfolding rdata_listed
into_listed set = filter_map (rdata_listed set.name) set.values

-- `trim_start_matches("/hostedzone/")`; the fuel is the length of the text, and a round takes 12
-- characters.
unfoldable pub trim_hostedzone : ℕ → Text → Text
unfolding strip_prefix
trim_hostedzone zero id = id
trim_hostedzone (suc fuel) id = elim (strip_prefix (codes "/hostedzone/") id) [
  | none ↦ id
  | some rest ↦ trim_hostedzone fuel rest
]

unfoldable pub is_true : Option Text → Bool
is_true none = false
is_true (some t) = text_eq t (codes "true")

unfoldable pub parse_hosted_zone : Text → Option HostedZone
unfolding trim_hostedzone is_true
parse_hosted_zone block = do
  id ← xml_text block (codes "Id")
  name ← xml_text block (codes "Name")
  some (record {
    id = trim_hostedzone (length id) id;
    name = name;
    is_private = is_true (xml_text block (codes "PrivateZone"));
  })

unfoldable pub parse_hosted_zones : Text → List HostedZone
unfolding parse_hosted_zone
parse_hosted_zones xml = filter_map parse_hosted_zone (xml_blocks xml (codes "HostedZone"))

unfoldable pub parse_rrset : Text → Option ParsedRrset
parse_rrset block = do
  name ← xml_text block (codes "Name")
  record_type ← xml_text block (codes "Type")
  some (record { name = name; record_type = record_type; values = xml_texts block (codes "Value") })

unfoldable pub parse_rrsets : Text → List ParsedRrset
unfolding parse_rrset
parse_rrsets xml = filter_map parse_rrset (xml_blocks xml (codes "ResourceRecordSet"))

unfoldable pub value_element : DaneTlsa → Text
value_element r =
    codes "<ResourceRecord><Value>"
    ++ (xml_escape (format_tlsa_rdata r) ++ codes "</Value></ResourceRecord>")

unfoldable pub change_batch : Text → Text → List DaneTlsa → ℕ → Text
unfolding value_element
change_batch action name records' ttl =
    codes
      "<?xml version=\"1.0\" encoding=\"UTF-8\"?>\n<ChangeResourceRecordSetsRequest xmlns=\"https://route53.amazonaws.com/doc/2013-04-01/\">\n  <ChangeBatch>\n    <Changes>\n      <Change>\n        <Action>"
    ++ (action
        ++ (codes "</Action>\n        <ResourceRecordSet>\n          <Name>"
            ++ (xml_escape name
                ++ (codes "</Name>\n          <Type>TLSA</Type>\n          <TTL>"
                    ++ (to_string ttl
                        ++ (codes "</TTL>\n          <ResourceRecords>"
                            ++ (concat (map value_element records')
                                ++ codes
                                    "</ResourceRecords>\n        </ResourceRecordSet>\n      </Change>\n    </Changes>\n  </ChangeBatch>\n</ChangeResourceRecordSetsRequest>")))))))

unfoldable pub is_tlsa_set : ParsedRrset → Bool
is_tlsa_set set = eq_ignore_ascii_case set.record_type (codes "TLSA")

unfoldable pub concat_listed : List ParsedRrset → List ListedTlsa
unfolding into_listed
concat_listed [] = []
concat_listed (set ∷ sets) = into_listed set ++ concat_listed sets

-- Whether another page follows, and from where.
unfoldable pub next_marker : Text → Option (Option Text)
unfolding is_true
next_marker xml =
    if is_true (xml_text xml (codes "IsTruncated"))
    then (xml_text xml (codes "NextMarker") >>= λ marker. some (some marker))
    else none

unfoldable pub next_record : Text → Option (Option Marker)
unfolding is_true
next_record xml =
    if is_true (xml_text xml (codes "IsTruncated"))
    then (xml_text xml (codes "NextRecordName") >>= λ name. some (
        some (record {
          name = name;
          rtype = xml_text xml (codes "NextRecordType");
          identifier = xml_text xml (codes "NextRecordIdentifier");
        })))
    else none

unfoldable pub rrset_page : Text → List ListedTlsa
unfolding parse_rrsets is_tlsa_set concat_listed
rrset_page xml = concat_listed (filter is_tlsa_set (parse_rrsets xml))

unfoldable pub trailing_dot : Text → Text
unfolding strip_suffix
trailing_dot name = elim (strip_suffix (codes ".") (trim name)) [
  | some _ ↦ trim name
  | none ↦ trim name ++ codes "."
]

-- The closure `report`.
unfoldable pub publish_report :
    HostedZone
    → Option Text
    → ℕ
    → PublishMode
    → Bool
    → List ListedTlsa
    → PublishAction
    → PublishReport
publish_report zone hostname port mode dryrun ours action = record {
  zone = trim_dots zone.name;
  owner = owner_name port hostname;
  action = action;
  mode = mode;
  dryrun = dryrun;
  existing = length ours;
}

unfoldable pub prune_report : HostedZone → Bool → List DaneTlsa → PruneReport
prune_report zone dryrun stale = record {
  zone = trim_dots zone.name;
  dryrun = dryrun;
  stale = map (λ r. r.certificate) stale;
}

module _ {S : Type 0} (api : Api S) where
  unfoldable pub list_zones : ℕ → S → Option (List HostedZone)
  list_zones fuel s =
      pages
        (λ marker. api.get_zones s marker >>= λ xml. some (parse_hosted_zones xml, next_marker xml))
        fuel none

  unfoldable pub zone_by_name : Text → S → Option (Option HostedZone)
  unfolding trailing_dot
  zone_by_name name s = do
    xml ← api.get_zones_by_name s (trailing_dot name)
    some (find? (λ zone. names_equal zone.name name) (parse_hosted_zones xml))

  -- A page of `tlsa_records`.
  unfoldable pub fetch_rrsets :
      HostedZone → S → Option Marker → Option (List ListedTlsa × Option (Option Marker))
  fetch_rrsets zone s marker =
      api.get_rrsets s zone marker >>= λ xml. some (rrset_page xml, next_record xml)

  -- `fuel` bounds the rounds of the loop over pages.
  unfoldable pub tlsa_records : ℕ → HostedZone → S → Option (List ListedTlsa)
  tlsa_records fuel zone s = pages (fetch_rrsets zone s) fuel none

  unfoldable pub list_tlsa : ℕ → HostedZone → Option Text → List ℕ → S → Option (List ListedTlsa)
  list_tlsa fuel zone hostname ports s =
      tlsa_records fuel zone s >>= λ records'. keep_matching zone.name hostname ports records'

  unfoldable pub records_for_owner : ℕ → HostedZone → Text → S → Option (List ListedTlsa)
  records_for_owner fuel zone fqdn s =
      tlsa_records fuel zone s >>= λ records'. some (filter (λ r. names_equal r.name fqdn) records')

  unfoldable pub upsert_rrset : HostedZone → ℕ → Text → List DaneTlsa → S → Option S
  unfolding change_batch
  upsert_rrset zone ttl name records' s =
      api.post_rrset s zone (change_batch (codes "UPSERT") name records' ttl)

  unfoldable pub delete_rrset : HostedZone → ℕ → Text → List DaneTlsa → S → Option S
  unfolding change_batch
  delete_rrset zone ttl name records' s =
      api.post_rrset s zone (change_batch (codes "DELETE") name records' ttl)

  -- The `match` on the action.
  unfoldable pub perform :
      HostedZone → Text → ℕ → List DaneTlsa → Text → PublishAction → S → Option S
  perform zone fqdn ttl dane certificate added s =
      upsert_rrset zone ttl fqdn (rrset_after_publish dane certificate added) s
  perform zone fqdn ttl dane certificate replaced s =
      upsert_rrset zone ttl fqdn (rrset_after_publish dane certificate replaced) s
  perform zone fqdn ttl dane certificate already_published s = some s
  perform zone fqdn ttl dane certificate would_add s = some s
  perform zone fqdn ttl dane certificate would_replace s = some s

  -- `ttl` is that of the client.
  unfoldable pub publish_tlsa :
      ℕ
      → HostedZone
      → ℕ
      → Option Text
      → ℕ
      → Text
      → PublishMode
      → Bool
      → S
      → Option (PublishReport × S)
  publish_tlsa fuel zone ttl hostname port certificate mode dryrun s = do
    let fqdn = fqdn_owner zone.name hostname port
    ours ← records_for_owner fuel zone fqdn s
    let dane = map to_dane ours
    let action = publish_action dane certificate mode dryrun
    s' ← perform zone fqdn ttl dane certificate action s
    some (publish_report zone hostname port mode dryrun ours action, s')

  -- The set of the owner behind a prune is written, or deleted if it is empty.
  unfoldable pub write_pruned : HostedZone → Text → ℕ → List DaneTlsa → List DaneTlsa → S → Option S
  write_pruned zone fqdn ttl dane [] s = delete_rrset zone ttl fqdn dane s
  write_pruned zone fqdn ttl dane (r ∷ next) s = upsert_rrset zone ttl fqdn (r ∷ next) s

  unfoldable pub prune_tlsa :
      ℕ → HostedZone → ℕ → Option Text → ℕ → Text → Bool → S → Option (PruneReport × S)
  prune_tlsa fuel zone ttl hostname port live_hash dryrun s = do
    let fqdn = fqdn_owner zone.name hostname port
    ours ← records_for_owner fuel zone fqdn s
    let dane = map to_dane ours
    let stale = stale_dane dane live_hash
    s' ←
        (if is_empty stale
          then some s
          else if dryrun
          then some s
          else write_pruned zone fqdn ttl dane (rrset_after_prune dane live_hash) s)
    some (prune_report zone dryrun stale, s')
