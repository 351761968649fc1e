-- ===== src/Commands/Prune.antt =====
-- src/main.rs, `prune`: one host and port; src/report.rs, its result.
use gentlsa.Prelude.{ℕ, Text, Bool, false, Option, none, some, List, [], map, ◌>>=◌}
use gentlsa.Tlsa.Owner.{fqdn, connect_host}
use gentlsa.Tlsa.Starttls.{StarttlsProto}
use gentlsa.Dns.{TlsaRecord, lookup_tlsa}
use gentlsa.Cert.{Crypto, Certificate, spki_sha256_hex}
use gentlsa.Publish.{PruneReport}
use gentlsa.Publish.Kind.{PublisherKind}
use gentlsa.Report.Json.{JsonTlsa, from_dns}
use gentlsa.Verify.{Network}
use gentlsa.Commands.{
  Publishers, PruneOutcome, pruned, not_pruned, CommandError, no_connection, error_code, Reports,
  no_reports, report_of, prune_hash,
}

pub record PruneResult : Type 0 where
  pub port : ℕ
  pub host : Text
  pub live : Text
  pub dns : List JsonTlsa
  pub reports : Reports PruneReport
  pub error : Option CommandError

pub record PruneArgs : Type 0 where
  pub publisher : Option PublisherKind
  pub dryrun : Bool
  pub starttls : Option StarttlsProto

unfoldable pub prune_ended : PublisherKind → PruneResult → PruneOutcome → ℕ × PruneResult
prune_ended kind result (pruned report) = (0, record result { reports = report_of kind report })
prune_ended kind result (not_pruned code) = (1, record result { error = some (error_code code) })

-- The records of the name in the DNS, none where the lookup fails.
unfoldable pub listed_dns : Text → Option (List TlsaRecord) → List JsonTlsa
unfolding from_dns
listed_dns live_hash none = []
listed_dns live_hash (some records') = map (λ r. from_dns r (some live_hash)) records'

module _ {W : Type 0} (crypto : Crypto) (net : Network) (ps : Publishers W) where
  unfoldable pub prune_result :
      PruneArgs
      → Text
      → ℕ
      → Option Text
      → Text
      → PruneResult
      → Option PublisherKind
      → W
      → Option ((ℕ × PruneResult) × W)
  unfolding prune_hash prune_ended
  prune_result a zone port hostname live_hash result none w = some ((0, result), w)
  prune_result a zone port hostname live_hash result (some kind) w = do
    (outcome, w') ← prune_hash ps kind zone hostname port live_hash a.dryrun w
    some (prune_ended kind result outcome, w')

  unfoldable pub prune_cert :
      PruneArgs → Text → ℕ → Option Text → Certificate → W → Option ((ℕ × PruneResult) × W)
  unfolding prune_result listed_dns lookup_tlsa
  prune_cert a zone port hostname cert w = do
    live_hash ← spki_sha256_hex crypto cert
    let dns = listed_dns live_hash (lookup_tlsa (net.query false (fqdn zone port hostname)))
    let result : PruneResult = record {
      port = port;
      host = connect_host zone hostname;
      live = live_hash;
      dns = dns;
      reports = no_reports;
      error = none;
    }
    prune_result a zone port hostname live_hash result a.publisher w

  unfoldable pub prune : PruneArgs → Text → ℕ → Option Text → W → Option ((ℕ × PruneResult) × W)
  unfolding prune_cert
  prune a zone port hostname w =
      elim (net.fetch_live (connect_host zone hostname) port a.starttls zone) [
        | none ↦
            let failed : PruneResult = record {
              port = port;
              host = connect_host zone hostname;
              live = [];
              dns = [];
              reports = no_reports;
              error = some no_connection;
            } in
            some ((1, failed), w)
        | some cert ↦ prune_cert a zone port hostname cert w
      ]
