-- ===== src/Commands/Runs.antt =====
-- src/main.rs, `run`: the commands `generate`, `prune` and `verify` over hosts and ports.
use gentlsa.Prelude.{
  ℕ, Text, Bool, true, not, ◌||◌, Option, none, some, List, [], ◌∷◌, ◌++◌, if◌then◌else◌, map, all,
  ◌==◌, ltb, ◌>>=◌,
}
use gentlsa.Tlsa.Starttls.{StarttlsProto}
use gentlsa.Tlsa.Target.{HostTarget, target_host, in_zone}
use gentlsa.Dns.{DnssecStatus}
use gentlsa.Dns.Mx.{MxResponse}
use gentlsa.Cert.{Crypto}
use gentlsa.Report.{worst_verify_exit}
use gentlsa.Cli.{PublisherFlags, TlsaParamFlags, flags_kind, params}
use gentlsa.Targets.{
  PublisherOpts, resolve_targets, from_flags, has_kind, require_targets_in_zone_for_publish,
  require_default_params_for_publish,
}
use gentlsa.Verify.{Network, VerifyArgs, VerifyResult, verify}
use gentlsa.Commands.{Publishers}
use gentlsa.Commands.Generate.{GenerateResult, GenerateArgs, generate}
use gentlsa.Commands.Prune.{PruneResult, PruneArgs, prune}

-- The loops over hosts and ports, with the code and the results so far. The code is that of the last
-- round whose code is not 0.
module _ {W R : Type 0} (step : HostTarget → ℕ → W → Option ((ℕ × R) × W)) where
  unfoldable pub run_ports : HostTarget → List ℕ → ℕ → List R → W → Option ((ℕ × List R) × W)
  run_ports t [] code results w = some ((code, results), w)
  run_ports t (port ∷ ports) code results w = do
    ((port_code, result), w') ← step t port w
    run_ports t ports (if port_code == 0 then code else port_code) (results ++ result ∷ []) w'

  unfoldable pub run_targets : List HostTarget → List ℕ → ℕ → List R → W → Option ((ℕ × List R) × W)
  unfolding run_ports
  run_targets [] ports code results w = some ((code, results), w)
  run_targets (t ∷ targets) ports code results w = do
    ((code', results'), w') ← run_ports t ports code results w
    run_targets targets ports code' results' w'

-- `Command::Generate`, `Command::Prune` and `Command::Verify`.
pub record GenerateCommand : Type 0 where
  pub zone : Text
  pub ports : List ℕ
  pub hostname : Option Text
  pub mx : Bool
  pub info : Bool
  pub starttls : Option StarttlsProto
  pub params : TlsaParamFlags
  pub publisher : PublisherFlags
  pub replace : Bool
  pub dryrun : Bool

pub record PruneCommand : Type 0 where
  pub zone : Text
  pub ports : List ℕ
  pub hostname : Option Text
  pub mx : Bool
  pub starttls : Option StarttlsProto
  pub publisher : PublisherFlags
  pub dryrun : Bool

pub record VerifyCommand : Type 0 where
  pub zone : Text
  pub ports : List ℕ
  pub hostname : Option Text
  pub mx : Bool
  pub info : Bool
  pub starttls : Option StarttlsProto
  pub warn : ℕ
  pub critical : ℕ
  pub no_expiry_check : Bool
  pub no_dnssec_check : Bool

unfoldable pub generate_args : GenerateCommand → PublisherOpts → GenerateArgs
generate_args c opts = record {
  info = c.info;
  params = params c.params;
  publisher = opts;
  starttls = c.starttls;
}

unfoldable pub prune_args : PruneCommand → PruneArgs
prune_args c = record {
  publisher = flags_kind c.publisher;
  dryrun = c.dryrun;
  starttls = c.starttls;
}

-- `(!no_expiry_check).then_some((warn, critical))`.
unfoldable pub expiry_of : VerifyCommand → Option (ℕ × ℕ)
expiry_of c = if c.no_expiry_check then none else some (c.warn, c.critical)

unfoldable pub verify_args : VerifyCommand → Option DnssecStatus → HostTarget → ℕ → VerifyArgs
unfolding expiry_of target_host
verify_args c mx_dnssec t port = record {
  zone = t.zone;
  port = port;
  hostname = t.hostname;
  info = c.info;
  expiry = expiry_of c;
  dnssec_check = not c.no_dnssec_check;
  starttls = c.starttls;
  host_label = if c.mx then some (target_host t) else none;
  mx_dnssec = mx_dnssec;
}

module _ (crypto : Crypto) (net : Network) where
  unfoldable pub verify_ports : (ℕ → VerifyArgs) → List ℕ → List VerifyResult
  verify_ports a ports = map (λ port. verify crypto net (a port)) ports

  unfoldable pub verify_targets :
      (HostTarget → ℕ → VerifyArgs) → List HostTarget → List ℕ → List VerifyResult
  unfolding verify_ports
  verify_targets a [] ports = []
  verify_targets a (t ∷ targets) ports = verify_ports (a t) ports ++ verify_targets a targets ports

  -- The exit code and the results.
  unfoldable pub run_verify : (Text → Bool → MxResponse) → VerifyCommand → ℕ × List VerifyResult
  unfolding resolve_targets verify_targets verify_args
  run_verify resolver c =
      if ltb c.warn c.critical
      then (3, [])
      else (elim (resolve_targets resolver c.zone c.hostname c.mx (not c.no_dnssec_check)) [
        | none ↦ (3, [])
        | some targets ↦
            let results = verify_targets (verify_args c targets.mx_dnssec) targets.hosts c.ports in
            (worst_verify_exit (map (λ (r : VerifyResult). r.exit) results), results)
      ])

module _ {W : Type 0} (crypto : Crypto) (net : Network) (ps : Publishers W) where
  -- `none` is a failure of the command, of which `main` makes exit code 1.
  unfoldable pub run_generate :
      (Text → Bool → MxResponse) → GenerateCommand → W → Option ((ℕ × List GenerateResult) × W)
  unfolding from_flags resolve_targets run_targets generate_args
  run_generate resolver c w = do
    opts ← from_flags c.publisher c.replace c.dryrun
    if require_default_params_for_publish (params c.params) opts
        then (elim (resolve_targets resolver c.zone c.hostname c.mx true) [
          | none ↦ some ((1, []), w)
          | some targets ↦
              if require_targets_in_zone_for_publish c.zone targets.hosts opts
              then run_targets
                  (λ t port. generate crypto net ps (generate_args c opts) t.zone port t.hostname)
                  targets.hosts c.ports 0 [] w
              else none
        ])
        else none

  unfoldable pub run_prune :
      (Text → Bool → MxResponse) → PruneCommand → W → Option ((ℕ × List PruneResult) × W)
  unfolding resolve_targets run_targets prune_args
  run_prune resolver c w = elim (resolve_targets resolver c.zone c.hostname c.mx true) [
    | none ↦ some ((1, []), w)
    | some targets ↦
        if not (has_kind (flags_kind c.publisher)) || all (λ t. in_zone t c.zone) targets.hosts
        then run_targets (λ t port. prune crypto net ps (prune_args c) t.zone port t.hostname)
            targets.hosts c.ports 0 [] w
        else none
  ]
