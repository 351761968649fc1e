-- ===== src/Cloudflare.antt =====
-- src/cloudflare.rs: the publish and the prune of the Cloudflare publisher. The HTTP API is the
-- operations of `Api` on a state of the server; `none` is an error of the source.
pub mod Server
pub mod Prune
pub mod Adds
pub mod Tests
use gentlsa.Prelude.{
  ℕ, Text, codes, Bool, true, false, not, ◌&&◌, Option, none, some, List, [], ◌∷◌, if◌then◌else◌,
  length, is_empty, any, filter, find?, map, text_eq, ◌>>=◌,
}
use gentlsa.Tlsa.{usage_default, selector_default, matching_default}
use gentlsa.Tlsa.Owner.{owner_name}
use gentlsa.Publish.{
  PublishMode, PublishAction, already_published, added, replaced, would_add, would_replace,
  PublishReport, PruneReport, DaneTlsa, publish_action,
}
use gentlsa.Publish
use gentlsa.Publish.Names.{names_equal, owner_names}

pub record Zone : Type 0 where
  pub id : Text
  pub name : Text

pub record TlsaData : Type 0 where
  pub usage : ℕ
  pub selector : ℕ
  pub matching_type : ℕ
  pub certificate : Text

pub record DnsRecord : Type 0 where
  pub id : Text
  pub name : Text
  pub record_type : Text
  pub data_of : Option TlsaData

pub record TlsaPayload : Type 0 where
  pub name : Text
  pub record_type : Text
  pub ttl : ℕ
  pub data_of : TlsaData

pub record Api (S : Type 0) : Type 0 where
  pub records : S → Zone → Option (List DnsRecord)
  pub post : S → Zone → TlsaPayload → Option S
  pub put : S → Zone → Text → TlsaPayload → Option S
  pub delete : S → Zone → Text → Option S

unfoldable pub expected_names : Zone → Option Text → ℕ → List Text
unfolding owner_names
expected_names zone hostname port = owner_names zone.name hostname port

unfoldable pub tlsa_payload : Text → Text → TlsaPayload
tlsa_payload owner certificate = record {
  name = owner;
  record_type = codes "TLSA";
  ttl = 1;
  data_of = record {
    usage = usage_default;
    selector = selector_default;
    matching_type = matching_default;
    certificate = certificate;
  };
}

unfoldable pub matches_owner : List Text → DnsRecord → Bool
unfolding names_equal
matches_owner expected r =
    text_eq r.record_type (codes "TLSA") && any (λ name. names_equal name r.name) expected

unfoldable pub data_dane : Option TlsaData → Option DaneTlsa
data_dane none = none
data_dane (some d) = some (record {
  usage = d.usage;
  selector = d.selector;
  matching = d.matching_type;
  certificate = d.certificate;
})

unfoldable pub record_dane : DnsRecord → Option DaneTlsa
unfolding data_dane
record_dane r = data_dane r.data_of

-- `is_some_and`.
unfoldable pub holds : (DaneTlsa → Bool) → Option DaneTlsa → Bool
holds p none = false
holds p (some d) = p d

unfoldable pub record_is_dane : DnsRecord → Bool
unfolding holds record_dane
record_is_dane r = holds Publish.is_dane_ee_spki_sha256 (record_dane r)

unfoldable pub record_hash_matches : Text → DnsRecord → Bool
unfolding holds record_dane
record_hash_matches live r = holds (λ d. Publish.hash_matches d live) (record_dane r)

unfoldable pub is_stale_record : List Text → Text → DnsRecord → Bool
unfolding matches_owner record_is_dane record_hash_matches
is_stale_record expected live_hash r =
    matches_owner expected r && (record_is_dane r && not (record_hash_matches live_hash r))

unfoldable pub stale_cf_tlsa : List DnsRecord → List Text → Text → List DnsRecord
unfolding is_stale_record
stale_cf_tlsa records expected live_hash = filter (is_stale_record expected live_hash) records

-- `filter_map` by `to_dane`.
unfoldable pub push_some : Option DaneTlsa → List DaneTlsa → List DaneTlsa
push_some none ds = ds
push_some (some d) ds = d ∷ ds

unfoldable pub dane_records : List DnsRecord → List DaneTlsa
unfolding push_some record_dane
dane_records [] = []
dane_records (r ∷ rs) = push_some (record_dane r) (dane_records rs)

-- The hash that the prune reports of a record.
unfoldable pub stale_hash : Option TlsaData → Text
stale_hash none = codes "?"
stale_hash (some d) = d.certificate

module _ {S : Type 0} (api : Api S) where
  -- The `match` on the action; a missing record panics there.
  unfoldable pub perform : Zone → Text → Text → List DnsRecord → PublishAction → S → Option S
  unfolding tlsa_payload record_is_dane
  perform zone owner certificate ours already_published s = some s
  perform zone owner certificate ours added s = api.post s zone (tlsa_payload owner certificate)
  perform zone owner certificate ours would_add s = some s
  perform zone owner certificate ours replaced s = find? record_is_dane ours >>= λ existing.
      api.put s zone existing.id (tlsa_payload owner certificate)
  perform zone owner certificate ours would_replace s =
      find? record_is_dane ours >>= λ existing. some s

  unfoldable pub publish_tlsa :
      Zone → Option Text → ℕ → Text → PublishMode → Bool → S → Option (PublishReport × S)
  unfolding owner_name expected_names matches_owner dane_records publish_action perform
  publish_tlsa zone hostname port certificate mode dryrun s = do
    records' ← api.records s zone
    let owner = owner_name port hostname
    let ours = filter (matches_owner (expected_names zone hostname port)) records'
    let action = publish_action (dane_records ours) certificate mode dryrun
    s' ← perform zone owner certificate ours action s
    some (
      record {
        zone = zone.name;
        owner = owner;
        action = action;
        mode = mode;
        dryrun = dryrun;
        existing = length ours;
      },
      s',
    )

  -- The loop of the deletions.
  unfoldable pub delete_all : Zone → Bool → List DnsRecord → S → Option S
  delete_all zone dryrun [] s = some s
  delete_all zone dryrun (r ∷ rs) s =
      if dryrun
      then delete_all zone dryrun rs s
      else (api.delete s zone r.id >>= λ s'. delete_all zone dryrun rs s')

  unfoldable pub prune_tlsa : Zone → Option Text → ℕ → Text → Bool → S → Option (PruneReport × S)
  unfolding expected_names stale_cf_tlsa stale_hash delete_all
  prune_tlsa zone hostname port live_hash dryrun s = do
    records' ← api.records s zone
    let stale = stale_cf_tlsa records' (expected_names zone hostname port) live_hash
    s' ← delete_all zone dryrun stale s
    some (
      record { zone = zone.name; dryrun = dryrun; stale = map (λ r. stale_hash r.data_of) stale },
      s',
    )
