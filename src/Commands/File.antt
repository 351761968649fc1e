-- ===== src/Commands/File.antt =====
-- src/main.rs, `run`: the command `file`, which publishes a certificate that a file holds.
use gentlsa.Prelude.{
  ℕ, Text, Bool, Option, none, some, List, [], ◌∷◌, ◌++◌, if◌then◌else◌, is_empty, ◌>>=◌,
}
use gentlsa.Cert.{Crypto, Certificate, tlsa_record_data}
use gentlsa.Publish.{PublishReport}
use gentlsa.Publish.Kind.{PublisherKind}
use gentlsa.Cli.{PublisherFlags, TlsaParamFlags, params}
use gentlsa.Targets.{PublisherOpts, from_flags, require_default_params_for_publish}
use gentlsa.Verify.{Network, CertDetails}
use gentlsa.Commands.{Publishers, published, not_managed, publish_cert, printed, details_of}

pub record FileCommand : Type 0 where
  pub certfile : Text
  pub zone : Option Text
  pub hostname : Option Text
  pub ports : List ℕ
  pub info : Bool
  pub params : TlsaParamFlags
  pub publisher : PublisherFlags
  pub replace : Bool
  pub dryrun : Bool

pub record FileReport : Type 0 where
  pub reports : List PublishReport
  pub error : Option Text
  pub json : Option (Text × Option CertDetails)

module _ {W : Type 0} (crypto : Crypto) (net : Network) (ps : Publishers W) where
  -- The loop of `file` ends at the first port that the publisher does not manage.
  unfoldable pub file_ports :
      PublisherKind
      → Text
      → Option Text
      → Certificate
      → PublisherOpts
      → List ℕ
      → List PublishReport
      → W
      → Option ((ℕ × FileReport) × W)
  unfolding publish_cert
  file_ports kind zone hostname cert opts [] reports w =
      some ((0, record { reports = reports; error = none; json = none }), w)
  file_ports kind zone hostname cert opts (port ∷ ports) reports w = do
    (outcome, w') ← publish_cert ps crypto kind zone hostname port cert opts w
    elim outcome [
      | published report ↦ file_ports kind zone hostname cert opts ports (reports ++ report ∷ []) w'
      | not_managed code ↦
          some ((1, record { reports = reports; error = some code; json = none }), w')
    ]

  -- `--zone` and `--port` are needed with a publisher.
  unfoldable pub file_publish :
      FileCommand
      → PublisherOpts
      → Certificate
      → Option PublisherKind
      → W
      → Option ((ℕ × FileReport) × W)
  unfolding file_ports
  file_publish c opts cert none w =
      some ((0, record { reports = []; error = none; json = none }), w)
  file_publish c opts cert (some kind) w = do
    zone ← c.zone
    if is_empty c.ports then none else file_ports kind zone c.hostname cert opts c.ports [] w

  -- The hash and the details of the JSON report.
  unfoldable pub file_json : FileCommand → Certificate → Option (Option (Text × Option CertDetails))
  unfolding tlsa_record_data details_of
  file_json c cert =
      if net.is_json
      then (do
        hash ← tlsa_record_data crypto cert (params c.params)
        details ← details_of net c.info cert
        some (some (hash, details)))
      else some none

  unfoldable pub run_file :
      (Text → Option Certificate) → FileCommand → W → Option ((ℕ × FileReport) × W)
  unfolding from_flags printed file_publish file_json
  run_file from_file c w = do
    opts ← from_flags c.publisher c.replace c.dryrun
    if require_default_params_for_publish (params c.params) opts
        then (do
          cert ← from_file c.certfile
          if printed net cert
              then (do
                ((code, report), w') ← file_publish c opts cert opts.kind w
                json ← file_json c cert
                some ((code, record report { json = json }), w'))
              else none)
        else none
