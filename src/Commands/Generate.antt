-- ===== src/Commands/Generate.antt =====
-- src/main.rs, `generate`: one host and port; src/report.rs, its result.
use gentlsa.Prelude.{ℕ, Text, Bool, Option, none, some, [], if◌then◌else◌, ◌>>=◌}
use gentlsa.Tlsa.{TlsaParams}
use gentlsa.Tlsa.Owner.{owner_name, connect_host}
use gentlsa.Tlsa.Starttls.{StarttlsProto}
use gentlsa.Cert.{Crypto, Certificate, tlsa_record_data}
use gentlsa.Publish.{PublishReport}
use gentlsa.Publish.Kind.{PublisherKind}
use gentlsa.Targets.{PublisherOpts}
use gentlsa.Verify.{Network, CertDetails}
use gentlsa.Commands.{
  Publishers, PublishOutcome, published, not_managed, CommandError, no_connection, error_code,
  Reports, no_reports, report_of, publish_cert, printed, details_of,
}

pub record GenerateResult : Type 0 where
  pub port : ℕ
  pub host : Text
  pub owner : Text
  pub usage : ℕ
  pub selector : ℕ
  pub matching : ℕ
  pub certificate : Text
  pub info : Option CertDetails
  pub reports : Reports PublishReport
  pub error : Option CommandError

unfoldable pub from_cert :
    ℕ → Text → Option Text → TlsaParams → Text → Option CertDetails → GenerateResult
from_cert port host hostname params certificate info = record {
  port = port;
  host = host;
  owner = owner_name port hostname;
  usage = params.usage;
  selector = params.selector;
  matching = params.matching;
  certificate = certificate;
  info = info;
  reports = no_reports;
  error = none;
}

unfoldable pub unreachable : ℕ → Text → Option Text → TlsaParams → GenerateResult
unfolding from_cert
unreachable port host hostname params = record (from_cert port host hostname params [] none) {
  error = some no_connection;
}

-- The arguments of `generate` that are the same for each host and port.
pub record GenerateArgs : Type 0 where
  pub info : Bool
  pub params : TlsaParams
  pub publisher : PublisherOpts
  pub starttls : Option StarttlsProto

unfoldable pub generated : PublisherKind → GenerateResult → PublishOutcome → ℕ × GenerateResult
generated kind result (published report) = (0, record result { reports = report_of kind report })
generated kind result (not_managed code) = (1, record result { error = some (error_code code) })

module _ {W : Type 0} (crypto : Crypto) (net : Network) (ps : Publishers W) where
  -- The `match` on the publisher.
  unfoldable pub publish_result :
      GenerateArgs
      → Text
      → ℕ
      → Option Text
      → Certificate
      → GenerateResult
      → Option PublisherKind
      → W
      → Option ((ℕ × GenerateResult) × W)
  unfolding publish_cert generated
  publish_result a zone port hostname cert result none w = some ((0, result), w)
  publish_result a zone port hostname cert result (some kind) w = do
    (outcome, w') ← publish_cert ps crypto kind zone hostname port cert a.publisher w
    some (generated kind result outcome, w')

  unfoldable pub generate_cert :
      GenerateArgs → Text → ℕ → Option Text → Certificate → W → Option ((ℕ × GenerateResult) × W)
  unfolding printed publish_result details_of from_cert tlsa_record_data
  generate_cert a zone port hostname cert w =
      if printed net cert
      then (do
        hash ← tlsa_record_data crypto cert a.params
        details ← details_of net a.info cert
        let result = from_cert port (connect_host zone hostname) hostname a.params hash details
        publish_result a zone port hostname cert result a.publisher.kind w)
      else none

  unfoldable pub generate :
      GenerateArgs → Text → ℕ → Option Text → W → Option ((ℕ × GenerateResult) × W)
  unfolding generate_cert unreachable
  generate a zone port hostname w =
      elim (net.fetch_live (connect_host zone hostname) port a.starttls zone) [
        | none ↦ some ((1, unreachable port (connect_host zone hostname) hostname a.params), w)
        | some cert ↦ generate_cert a zone port hostname cert w
      ]
