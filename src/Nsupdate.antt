-- ===== src/Nsupdate.antt =====
-- src/nsupdate.rs: the listing, the publish and the prune by queries and dynamic updates of a primary.
-- The DNS client is the operations of `Client` on a state of the server, with the response code of each;
-- `none` is an error of the source.
pub mod Change
pub mod Tests
use gentlsa.Prelude.{
  ℕ, Text, codes, Bool, true, false, Option, none, some, List, [], ◌∷◌, ◌++◌, if◌then◌else◌, length,
  is_empty, find?, filter_map, map, trim_dots, trim, strip_suffix, ◌>>=◌,
}
use gentlsa.Tlsa.{usage_default, selector_default, matching_default}
use gentlsa.Tlsa.Owner.{owner_name, fqdn}
use gentlsa.Publish.{
  PublishMode, PublishAction, already_published, added, replaced, would_add, would_replace,
  PublishReport, PruneReport, DaneTlsa, publish_action, is_dane_ee_spki_sha256, stale_dane,
}
use gentlsa.Publish.Names.{Checked}
use gentlsa.Publish.Rdata.{ListedTlsa, to_dane, keep_matching}

-- The data of a TLSA record, with its bytes.
pub record TlsaRdata : Type 0 where
  pub usage : ℕ
  pub selector : ℕ
  pub matching : ℕ
  pub cert_data : List ℕ

-- A record of the DNS: `rdata` is nothing for another type.
pub record Record : Type 0 where
  pub name : Text
  pub ttl : ℕ
  pub rdata : Option TlsaRdata

-- `ResponseCode`: `NoError` and the others.
pub data ResponseCode : Type 0 where
  no_error : ResponseCode
  other_code : ℕ → ResponseCode

pub record Client (S : Type 0) : Type 0 where
  pub parse : Text → Option Text
  pub hex_decode : Text → Option (List ℕ)
  pub hex_encode : List ℕ → Text
  pub query : S → Text → Option (ResponseCode × List Record)
  pub transfer : S → Text → Option (List (ResponseCode × List Record))
  pub append : S → Text → Record → Option (ResponseCode × S)
  pub delete_by_rdata : S → Text → Record → Option (ResponseCode × S)

unfoldable pub check_response : ResponseCode → Option {0} Unit
check_response no_error = some tt
check_response (other_code code) = none

unfoldable pub with_dot : Text → Text
unfolding strip_suffix
with_dot name = elim (strip_suffix (codes ".") name) [ some _ ↦ name | none ↦ name ++ codes "." ]

-- The closure `report`.
unfoldable pub publish_report :
    Text → Option Text → ℕ → PublishMode → Bool → List DaneTlsa → PublishAction → PublishReport
publish_report zone hostname port mode dryrun dane action = record {
  zone = trim_dots zone;
  owner = owner_name port hostname;
  action = action;
  mode = mode;
  dryrun = dryrun;
  existing = length dane;
}

unfoldable pub prune_report : Text → Bool → List DaneTlsa → PruneReport
prune_report zone dryrun stale = record {
  zone = trim_dots zone;
  dryrun = dryrun;
  stale = map (λ r. r.certificate) stale;
}

module _ {S : Type 0} (client : Client S) where
  unfoldable pub parse_name : Text → Option Text
  unfolding with_dot
  parse_name name = client.parse (with_dot (trim name))

  unfoldable pub listed_from_record : Record → Option ListedTlsa
  listed_from_record r = r.rdata >>= λ tlsa. some (record {
    id = none;
    name = r.name;
    usage = tlsa.usage;
    selector = tlsa.selector;
    matching = tlsa.matching;
    certificate = client.hex_encode tlsa.cert_data;
  })

  unfoldable pub tlsa_record : Text → Option Text → ℕ → Text → ℕ → Option Record
  unfolding parse_name
  tlsa_record zone hostname port certificate ttl = do
    name ← parse_name (fqdn zone port hostname)
    cert_data ← client.hex_decode certificate
    some (record {
      name = name;
      ttl = ttl;
      rdata = some (record {
        usage = usage_default;
        selector = selector_default;
        matching = matching_default;
        cert_data = cert_data;
      });
    })

  unfoldable pub query_owner : Text → Option Text → ℕ → S → Option (List ListedTlsa)
  unfolding listed_from_record
  query_owner zone hostname port s = do
    name ← parse_name (fqdn zone port hostname)
    response ← client.query s name
    _ ← check_response response.0
    some (filter_map listed_from_record response.1)

  unfoldable pub transferred : List (ResponseCode × List Record) → Option (List ListedTlsa)
  unfolding listed_from_record
  transferred [] = some []
  transferred (response ∷ responses) = do
    _ ← check_response response.0
    rest ← transferred responses
    some (filter_map listed_from_record response.1 ++ rest)

  unfoldable pub axfr_tlsa : Text → S → Option (List ListedTlsa)
  unfolding transferred
  axfr_tlsa zone s = do
    origin ← parse_name zone
    responses ← client.transfer s origin
    transferred responses

  unfoldable pub query_ports : Text → Option Text → List ℕ → S → Option (List ListedTlsa)
  unfolding query_owner
  query_ports zone hostname [] s = some []
  query_ports zone hostname (port ∷ ports) s = do
    records' ← query_owner zone hostname port s
    rest ← query_ports zone hostname ports s
    some (records' ++ rest)

  -- The records, and whether there is the note that the transfer failed.
  unfoldable pub list_tlsa : Text → Option Text → List ℕ → S → Option (List ListedTlsa × Bool)
  unfolding axfr_tlsa query_ports
  list_tlsa zone hostname [] s = elim (axfr_tlsa zone s) [
    | none ↦ some ([], true)
    | some records' ↦ keep_matching zone hostname [] records' >>= λ kept. some (kept, false)
  ]
  list_tlsa zone hostname (port ∷ ports) s =
      query_ports zone hostname (port ∷ ports) s >>= λ records'. some (records', false)

  unfoldable pub add_hash : Text → Option Text → ℕ → Text → ℕ → S → Option S
  unfolding tlsa_record
  add_hash zone hostname port certificate ttl s = do
    r ← tlsa_record zone hostname port certificate ttl
    origin ← parse_name zone
    response ← client.append s origin r
    _ ← check_response response.0
    some response.1

  unfoldable pub delete_hash : Text → Option Text → ℕ → Text → S → Option S
  unfolding tlsa_record
  delete_hash zone hostname port certificate s = do
    r ← tlsa_record zone hostname port certificate 0
    origin ← parse_name zone
    response ← client.delete_by_rdata s origin r
    _ ← check_response response.0
    some response.1

  -- The `match` on the action; a replacement without a 3 1 1 record would panic.
  unfoldable pub perform :
      Text → Option Text → ℕ → ℕ → List DaneTlsa → Text → PublishAction → S → Option S
  unfolding add_hash delete_hash
  perform zone hostname port ttl dane certificate added s =
      add_hash zone hostname port certificate ttl s
  perform zone hostname port ttl dane certificate replaced s = do
    existing ← find? is_dane_ee_spki_sha256 dane
    s₁ ← delete_hash zone hostname port existing.certificate s
    add_hash zone hostname port certificate ttl s₁
  perform zone hostname port ttl dane certificate already_published s = some s
  perform zone hostname port ttl dane certificate would_add s = some s
  perform zone hostname port ttl dane certificate would_replace s = some s

  unfoldable pub publish_tlsa :
      ℕ → Text → Option Text → ℕ → Text → PublishMode → Bool → S → Option (PublishReport × S)
  publish_tlsa ttl zone hostname port certificate mode dryrun s = do
    ours ← query_owner zone hostname port s
    let dane = map to_dane ours
    let action = publish_action dane certificate mode dryrun
    s' ← perform zone hostname port ttl dane certificate action s
    some (publish_report zone hostname port mode dryrun dane action, s')

  unfoldable pub delete_stale : Text → Option Text → ℕ → Bool → List DaneTlsa → S → Option S
  unfolding delete_hash
  delete_stale zone hostname port dryrun [] s = some s
  delete_stale zone hostname port true (r ∷ stale) s = delete_stale zone hostname port true stale s
  delete_stale zone hostname port false (r ∷ stale) s =
      delete_hash zone hostname port r.certificate s >>= delete_stale zone hostname port false stale

  unfoldable pub prune_tlsa : Text → Option Text → ℕ → Text → Bool → S → Option (PruneReport × S)
  unfolding delete_stale
  prune_tlsa zone hostname port live_hash dryrun s = do
    ours ← query_owner zone hostname port s
    let stale = stale_dane (map to_dane ours) live_hash
    s' ← (if is_empty stale then some s else delete_stale zone hostname port dryrun stale s)
    some (prune_report zone dryrun stale, s')
