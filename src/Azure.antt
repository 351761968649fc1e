-- ===== src/Azure.antt =====
-- src/azure.rs: the record sets of Azure DNS, and the listing, the publish and the prune. The HTTP API,
-- with its tokens and its paths, is the operations of `Api` on a state of the server; `none` is an error
-- of the source.
pub mod Change
pub mod Tests
use gentlsa.Prelude.{
  ℕ, Text, codes, Bool, true, false, ◌||◌, Option, none, some, List, [], ◌∷◌, ◌++◌, if◌then◌else◌,
  length, is_empty, find?, filter_map, map, trim_dots, trim, split, eq_ignore_ascii_case, text_eq,
  to_ascii_lowercase, ◌>>=◌,
}
use gentlsa.Tlsa.Owner.{owner_name}
use gentlsa.Publish.{
  PublishMode, PublishAction, already_published, added, replaced, would_add, would_replace,
  PublishReport, PruneReport, DaneTlsa, publish_action, rrset_after_publish, rrset_after_prune,
  stale_dane,
}
use gentlsa.Publish.Names.{names_equal}
use gentlsa.Publish.Rdata.{ListedTlsa, keep_matching}
use gentlsa.Publish.Paging.{pages}

pub record DnsZone : Type 0 where
  pub id : Text
  pub name : Text
  pub resource_group : Text

pub record ZoneJson : Type 0 where
  pub id : Text
  pub name : Text

pub record TlsaJson : Type 0 where
  pub usage : ℕ
  pub selector : ℕ
  pub matching_type : ℕ
  pub cert_association_data : Text

pub record RecordSetProperties : Type 0 where
  pub fqdn : Option Text
  pub tlsa_records : List TlsaJson

pub record RecordSetJson : Type 0 where
  pub id : Option Text
  pub name : Text
  pub properties : RecordSetProperties

pub record ListResponse (T : Type 0) : Type 0 where
  pub value : List T
  pub next_link : Option Text

pub record RecordSetBody : Type 0 where
  pub ttl : ℕ
  pub tlsa_records : List TlsaJson

-- `zones` and `sets` take the link of a page; `zone` takes a resource group and a name, and `set` an
-- owner name: an inner `none` is a status of 404.
pub record Api (S : Type 0) : Type 0 where
  pub zones : S → Option Text → Option (ListResponse ZoneJson)
  pub zone : S → Text → Text → Option (Option ZoneJson)
  pub sets : S → DnsZone → Option Text → Option (ListResponse RecordSetJson)
  pub set : S → DnsZone → Text → Option (Option RecordSetJson)
  pub put : S → DnsZone → Text → RecordSetBody → Option S
  pub delete : S → DnsZone → Text → Option S

-- The next part of the path, if it is not empty.
unfoldable pub group_value : List Text → Option Text
group_value [] = none
group_value (part ∷ parts) = if is_empty (trim part) then none else some (trim part)

unfoldable pub group_from : List Text → Option Text
unfolding group_value
group_from [] = none
group_from (part ∷ parts) =
    if eq_ignore_ascii_case part (codes "resourceGroups")
    then group_value parts
    else group_from parts

unfoldable pub resource_group_from_id : Text → Option Text
unfolding group_from
resource_group_from_id id = group_from (split b'/' id)

unfoldable pub from_json : ZoneJson → Option DnsZone
unfolding resource_group_from_id
from_json zone = resource_group_from_id zone.id >>= λ resource_group.
    some (record { id = zone.id; name = zone.name; resource_group = resource_group })

unfoldable pub fqdn_from_relative : Text → Text → Text
fqdn_from_relative relative zone =
    let name = trim_dots relative in
    if is_empty name || text_eq name (codes "@")
    then trim_dots zone ++ codes "."
    else name ++ (codes "." ++ (trim_dots zone ++ codes "."))

unfoldable pub json_dane : TlsaJson → DaneTlsa
json_dane r = record {
  usage = r.usage;
  selector = r.selector;
  matching = r.matching_type;
  certificate = to_ascii_lowercase r.cert_association_data;
}

unfoldable pub json_of : DaneTlsa → TlsaJson
json_of r = record {
  usage = r.usage;
  selector = r.selector;
  matching_type = r.matching;
  cert_association_data = r.certificate;
}

unfoldable pub set_records : RecordSetJson → List DaneTlsa
unfolding json_dane
set_records set = map json_dane set.properties.tlsa_records

-- `filter(|fqdn| !fqdn.is_empty()).unwrap_or_else(…)`.
unfoldable pub set_name : RecordSetJson → Text → Option Text → Text
unfolding fqdn_from_relative
set_name set zone none = fqdn_from_relative set.name zone
set_name set zone (some fqdn) = if is_empty fqdn then fqdn_from_relative set.name zone else fqdn

unfoldable pub to_listed : Text → RecordSetJson → List ListedTlsa
unfolding set_name
to_listed zone set =
    let name = set_name set zone set.properties.fqdn in
    map
      (λ (r : TlsaJson). record {
        id = set.id;
        name = name;
        usage = r.usage;
        selector = r.selector;
        matching = r.matching_type;
        certificate = to_ascii_lowercase r.cert_association_data;
      })
      set.properties.tlsa_records

-- `flat_map` by `to_listed`.
unfoldable pub concat_listed : Text → List RecordSetJson → List ListedTlsa
unfolding to_listed
concat_listed zone [] = []
concat_listed zone (set ∷ sets) = to_listed zone set ++ concat_listed zone sets

-- `map(to_dane).unwrap_or_default()`.
unfoldable pub current_records : Option RecordSetJson → List DaneTlsa
unfolding set_records
current_records none = []
current_records (some set) = set_records set

-- A link that is not empty asks for another page.
unfoldable pub next_url : Option Text → Option (Option Text)
next_url none = none
next_url (some link) = if is_empty link then none else some (some link)

-- The zone of a resource group.
unfoldable pub grouped_zone : Text → Text → Option ZoneJson → Option DnsZone
unfolding from_json
grouped_zone group dns none = none
grouped_zone group dns (some json) = elim (from_json json) [
  | some zone ↦ some zone
  | none ↦ some (record { id = []; name = dns; resource_group = group })
]

-- The closure `report`.
unfoldable pub publish_report :
    DnsZone → Option Text → ℕ → PublishMode → Bool → List DaneTlsa → PublishAction → PublishReport
publish_report zone hostname port mode dryrun dane action = record {
  zone = trim_dots zone.name;
  owner = owner_name port hostname;
  action = action;
  mode = mode;
  dryrun = dryrun;
  existing = length dane;
}

unfoldable pub prune_report : DnsZone → Bool → List DaneTlsa → PruneReport
prune_report zone dryrun stale = record {
  zone = trim_dots zone.name;
  dryrun = dryrun;
  stale = map (λ r. r.certificate) stale;
}

module _ {S : Type 0} (api : Api S) where
  -- The rounds of a loop over pages are bounded by `fuel`.
  unfoldable pub list_zones : ℕ → S → Option (List DnsZone)
  unfolding from_json
  list_zones fuel s =
      pages
        (λ url. api.zones s url >>= λ parsed.
          some (filter_map from_json parsed.value, next_url parsed.next_link))
        fuel none

  unfoldable pub zone_by_name : ℕ → Option Text → Text → S → Option (Option DnsZone)
  unfolding list_zones grouped_zone
  zone_by_name fuel none name s =
      list_zones fuel s >>= λ zones. some (find? (λ zone. names_equal zone.name name) zones)
  zone_by_name fuel (some group) name s = api.zone s group (trim_dots name) >>= λ found.
      some (grouped_zone group (trim_dots name) found)

  unfoldable pub tlsa_records : ℕ → DnsZone → S → Option (List ListedTlsa)
  unfolding concat_listed
  tlsa_records fuel zone s =
      pages
        (λ url. api.sets s zone url >>= λ parsed.
          some (concat_listed zone.name parsed.value, next_url parsed.next_link))
        fuel none

  unfoldable pub list_tlsa : ℕ → DnsZone → Option Text → List ℕ → S → Option (List ListedTlsa)
  unfolding tlsa_records
  list_tlsa fuel zone hostname ports s =
      tlsa_records fuel zone s >>= λ records'. keep_matching zone.name hostname ports records'

  unfoldable pub apply_rrset : DnsZone → Text → ℕ → List DaneTlsa → S → Option S
  unfolding json_of
  apply_rrset zone owner ttl [] s = api.delete s zone owner
  apply_rrset zone owner ttl (r ∷ next) s =
      api.put s zone owner (record { ttl = ttl; tlsa_records = map json_of (r ∷ next) })

  -- The `match` on the action.
  unfoldable pub perform : DnsZone → Text → ℕ → List DaneTlsa → Text → PublishAction → S → Option S
  perform zone owner ttl dane certificate added s =
      apply_rrset zone owner ttl (rrset_after_publish dane certificate added) s
  perform zone owner ttl dane certificate replaced s =
      apply_rrset zone owner ttl (rrset_after_publish dane certificate replaced) s
  perform zone owner ttl dane certificate already_published s = some s
  perform zone owner ttl dane certificate would_add s = some s
  perform zone owner ttl dane certificate would_replace s = some s

  unfoldable pub publish_tlsa :
      DnsZone → ℕ → Option Text → ℕ → Text → PublishMode → Bool → S → Option (PublishReport × S)
  publish_tlsa zone ttl hostname port certificate mode dryrun s = do
    let owner = owner_name port hostname
    current ← api.set s zone owner
    let dane = current_records current
    let action = publish_action dane certificate mode dryrun
    s' ← perform zone owner ttl dane certificate action s
    some (publish_report zone hostname port mode dryrun dane action, s')

  unfoldable pub prune_tlsa :
      DnsZone → ℕ → Option Text → ℕ → Text → Bool → S → Option (PruneReport × S)
  prune_tlsa zone ttl hostname port live_hash dryrun s = do
    let owner = owner_name port hostname
    current ← api.set s zone owner
    let dane = current_records current
    let stale = stale_dane dane live_hash
    s' ←
        (if is_empty stale
          then some s
          else if dryrun
          then some s
          else apply_rrset zone owner ttl (rrset_after_prune dane live_hash) s)
    some (prune_report zone dryrun stale, s')
