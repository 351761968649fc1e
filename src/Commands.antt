-- ===== src/Commands.antt =====
-- src/main.rs: the publishers as the commands see them, and the publish and the prune of a hash at one
-- of them. The publishers are operations on a state of the zones; `none` is an error of the source, which
-- ends the command.
pub mod Generate
pub mod Prune
pub mod Runs
pub mod File
pub mod Codes
pub mod Tests
pub mod Checks
pub mod Loop
pub mod Serves
pub mod Present
pub mod AtGoogle
pub mod CloudDns
use gentlsa.Prelude.{
  ℕ, Text, codes, Bool, true, false, not, ◌||◌, Option, none, some, List, [], ◌∷◌, if◌then◌else◌,
  map, ◌>>=◌,
}
use gentlsa.Tlsa.{TlsaParams}
use gentlsa.Tlsa.Owner.{owner_name, fqdn, connect_host}
use gentlsa.Tlsa.Starttls.{StarttlsProto}
use gentlsa.Dns.{TlsaRecord, lookup_tlsa}
use gentlsa.Cert.{Crypto, Certificate, spki_sha256_hex, tlsa_record_data}
use gentlsa.Publish.{PublishMode, rollover, replace, PublishReport, PruneReport}
use gentlsa.Publish.Kind.{PublisherKind}
use gentlsa.Report.Json.{JsonTlsa, from_dns}
use gentlsa.Targets.{PublisherOpts}
use gentlsa.Verify.{Network, CertDetails}

-- A publisher with zones, made `from_env_or_config`.
pub record Provider (W : Type 0) : Type 1 where
  pub Zone : Type 0
  pub is_configured : Bool
  pub zone_by_name : Text → W → Option (Option Zone)
  pub publish_tlsa :
      Zone → Option Text → ℕ → Text → PublishMode → Bool → W → Option (PublishReport × W)
  pub prune_tlsa : Zone → Option Text → ℕ → Text → Bool → W → Option (PruneReport × W)

-- A name server that takes dynamic updates.
pub record Server (W : Type 0) : Type 0 where
  pub is_configured : Bool
  pub publish_tlsa :
      Text → Option Text → ℕ → Text → PublishMode → Bool → W → Option (PublishReport × W)
  pub prune_tlsa : Text → Option Text → ℕ → Text → Bool → W → Option (PruneReport × W)

pub record Publishers (W : Type 0) : Type 1 where
  pub cloudflare : Provider W
  pub nsupdate : Server W
  pub route53 : Provider W
  pub google : Provider W
  pub azure : Provider W

pub data PublishOutcome : Type 0 where
  published : PublishReport → PublishOutcome
  not_managed : Text → PublishOutcome

-- The outcome of a prune at a publisher.
pub data PruneOutcome : Type 0 where
  pruned : PruneReport → PruneOutcome
  not_pruned : Text → PruneOutcome

-- The error of a result: the message of a failed connection, or a code.
pub data CommandError : Type 0 where
  no_connection : CommandError
  error_code : Text → CommandError

-- The five fields of a result of which one is filled.
pub record Reports (R : Type 0) : Type 0 where
  pub cloudflare : Option R
  pub nsupdate : Option R
  pub route53 : Option R
  pub google : Option R
  pub azure : Option R

unfoldable pub no_reports : {R : Type 0} → Reports R
no_reports = record {
  cloudflare = none;
  nsupdate = none;
  route53 = none;
  google = none;
  azure = none;
}

unfoldable pub report_of : {R : Type 0} → PublisherKind → R → Reports R
unfolding no_reports
report_of PublisherKind.cloudflare r = record no_reports { cloudflare = some r }
report_of PublisherKind.nsupdate r = record no_reports { nsupdate = some r }
report_of PublisherKind.route53 r = record no_reports { route53 = some r }
report_of PublisherKind.google r = record no_reports { google = some r }
report_of PublisherKind.azure r = record no_reports { azure = some r }

unfoldable pub mode_of : PublisherOpts → PublishMode
mode_of opts = if opts.replace then replace else rollover

module _ {W : Type 0} where
  -- The arms of `publish_cert` for the publishers with zones; they differ in the code.
  unfoldable pub publish_at :
      Provider W
      → Text
      → Text
      → Option Text
      → ℕ
      → Text
      → PublisherOpts
      → W
      → Option (PublishOutcome × W)
  unfolding mode_of
  publish_at p code zone_name hostname port hash opts w =
      if p.is_configured
      then (do
        found ← p.zone_by_name zone_name w
        elim found [
          | none ↦ some (not_managed code, w)
          | some zone ↦ do
            (report, w') ← p.publish_tlsa zone hostname port hash (mode_of opts) opts.dryrun w
            some (published report, w')
        ])
      else none

  unfoldable pub publish_server :
      Server W → Text → Option Text → ℕ → Text → PublisherOpts → W → Option (PublishOutcome × W)
  unfolding mode_of
  publish_server p zone_name hostname port hash opts w =
      if p.is_configured
      then (do
        (report, w') ← p.publish_tlsa zone_name hostname port hash (mode_of opts) opts.dryrun w
        some (published report, w'))
      else none

  unfoldable pub prune_at :
      Provider W → Text → Text → Option Text → ℕ → Text → Bool → W → Option (PruneOutcome × W)
  prune_at p code zone_name hostname port live_hash dryrun w =
      if p.is_configured
      then (do
        found ← p.zone_by_name zone_name w
        elim found [
          | none ↦ some (not_pruned code, w)
          | some zone ↦ do
            (report, w') ← p.prune_tlsa zone hostname port live_hash dryrun w
            some (pruned report, w')
        ])
      else none

  unfoldable pub prune_server :
      Server W → Text → Option Text → ℕ → Text → Bool → W → Option (PruneOutcome × W)
  prune_server p zone_name hostname port live_hash dryrun w =
      if p.is_configured
      then (do
        (report, w') ← p.prune_tlsa zone_name hostname port live_hash dryrun w
        some (pruned report, w'))
      else none

  module _ (ps : Publishers W) where
    unfoldable pub publish_hash :
        PublisherKind
        → Text
        → Option Text
        → ℕ
        → Text
        → PublisherOpts
        → W
        → Option (PublishOutcome × W)
    unfolding publish_at publish_server
    publish_hash PublisherKind.cloudflare =
        publish_at ps.cloudflare (codes "not_managed_by_cloudflare")
    publish_hash PublisherKind.nsupdate = publish_server ps.nsupdate
    publish_hash PublisherKind.route53 = publish_at ps.route53 (codes "not_managed_by_route53")
    publish_hash PublisherKind.google = publish_at ps.google (codes "not_managed_by_google")
    publish_hash PublisherKind.azure = publish_at ps.azure (codes "not_managed_by_azure")

    unfoldable pub prune_hash :
        PublisherKind → Text → Option Text → ℕ → Text → Bool → W → Option (PruneOutcome × W)
    unfolding prune_at prune_server
    prune_hash PublisherKind.cloudflare = prune_at ps.cloudflare (codes "not_managed_by_cloudflare")
    prune_hash PublisherKind.nsupdate = prune_server ps.nsupdate
    prune_hash PublisherKind.route53 = prune_at ps.route53 (codes "not_managed_by_route53")
    prune_hash PublisherKind.google = prune_at ps.google (codes "not_managed_by_google")
    prune_hash PublisherKind.azure = prune_at ps.azure (codes "not_managed_by_azure")

    unfoldable pub publish_cert :
        Crypto
        → PublisherKind
        → Text
        → Option Text
        → ℕ
        → Certificate
        → PublisherOpts
        → W
        → Option (PublishOutcome × W)
    unfolding publish_hash
    publish_cert crypto kind zone_name hostname port cert opts w =
        spki_sha256_hex crypto cert >>= λ hash.
        publish_hash kind zone_name hostname port hash opts w

-- `print_info_params`, which no JSON run calls, and the details that a result has.
unfoldable pub printed : Network → Certificate → Bool
printed net cert = net.is_json || net.print_info cert

unfoldable pub details_of : Network → Bool → Certificate → Option (Option CertDetails)
details_of net false cert = some none
details_of net true cert = net.details cert >>= λ details. some (some details)
