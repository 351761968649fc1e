-- ===== src/Commands/Tests.antt =====
-- Runs of the commands against one zone whose owners are its ports.
use gentlsa.Prelude.{
  ℕ, ◌≡◌, ◌⊎◌, ◌↔◌, ◌≤◌, refl, inl, inr, sym, ap, ◌∙◌, Text, codes, Bool, true, false, not, Option,
  none, some, List, [], ◌∷◌, if◌then◌else◌, ◌==◌, ==_iff, some-inj, All, text_eq, arith, Bool-cases,
  map,
}
use gentlsa.Prelude.Int.{pos}
use gentlsa.Dns.{TlsaRecord, secure}
use gentlsa.Dns.Mx.{MxResponse}
use gentlsa.Cert.{Crypto, Certificate}
use gentlsa.Publish.{DaneTlsa, PublishReport, rollover, publish_action, rrset_after_publish, added}
use gentlsa.Cli.{PublisherFlags, TlsaParamFlags, flags_kind}
use gentlsa.Targets.{Targets, PublisherOpts, resolve_targets, from_flags}
use gentlsa.Verify.{Network}
use gentlsa.Commands.{Provider, Server, Publishers, report_of}
use gentlsa.Commands.Generate.{GenerateResult, unreachable, from_cert}
use gentlsa.Commands.Runs.{GenerateCommand, VerifyCommand, generate_args, run_generate, run_verify}
use gentlsa.Google.{ManagedZone, Api}
use gentlsa.Publish.Kind.{PublisherKind}
use gentlsa.Publish.Printed.{IsHash}
use gentlsa.Commands.AtGoogle.{
  ServesZones, google_provider, with_google, HasHash, IsServed, run_generate-present,
}
use gentlsa.Commands.CloudDns.{Zones, cloud_dns, cloud_dns-ServesZones}
use gentlsa.Commands.Codes.{visits}
use gentlsa.Commands.Codes.Rounds.{label, Good, run_generate-results}
use gentlsa.Commands.Checks.{AllPass, run_verify_zero}

abbrev World : Type 0
World = ℕ → List DaneTlsa

abbrev put : World → ℕ → List DaneTlsa → World
put w port next n = if n == port then next else w n

abbrev report_text : Text → PublishReport
report_text hash = record {
  zone = codes "x";
  owner = hash;
  action = added;
  mode = rollover;
  dryrun = false;
  existing = 0;
}

abbrev zone_provider : Provider World
zone_provider = record {
  Zone = Text;
  is_configured = true;
  zone_by_name = λ name w. some (if text_eq name (codes "x") then some name else none);
  publish_tlsa = λ zone hostname port hash mode dryrun w. some (
    report_text hash,
    if dryrun
        then w
        else put w port
            (rrset_after_publish (w port) hash (publish_action (w port) hash mode false)),
  );
  prune_tlsa = λ zone hostname port hash dryrun w. none;
}

abbrev name_server : Server World
name_server = record {
  is_configured = false;
  publish_tlsa = λ zone hostname port hash mode dryrun w. none;
  prune_tlsa = λ zone hostname port hash dryrun w. none;
}

abbrev ps : Publishers World
ps = record {
  cloudflare = zone_provider;
  nsupdate = name_server;
  route53 = zone_provider;
  google = zone_provider;
  azure = zone_provider;
}

abbrev plain : Crypto
plain = record {
  public_key = λ der. some der;
  sha256 = λ bytes. bytes;
  sha512 = λ bytes. bytes;
  hex_encode = λ bytes. bytes;
}

abbrev presented : Certificate
presented = record {
  der = codes "ab";
  chain_der = [];
  not_before_ts = pos 0;
  not_after_ts = pos 8640000;
}

abbrev published_record : TlsaRecord
published_record = record { usage = 3; selector = 1; matching = 1; certificate = codes "ab" }

-- Port 110 cannot be reached.
abbrev net : Network
net = record {
  query =
      λ validate name. some (some (record { tlsa = some published_record; proof = secure } ∷ []));
  fetch_live = λ host port starttls zone. if port == 110 then none else some presented;
  details = λ c. none;
  print_info = λ c. true;
  is_json = false;
  now = pos 86400;
}

abbrev resolver : Text → Bool → MxResponse
resolver name validate = MxResponse.fails

abbrev no_publisher : PublisherFlags
no_publisher = record {
  cloudflare = false;
  nsupdate = false;
  route53 = false;
  google = false;
  azure = false;
}

abbrev command : List ℕ → PublisherFlags → GenerateCommand
command ports flags = record {
  zone = codes "x";
  ports = ports;
  hostname = none;
  mx = false;
  info = false;
  starttls = none;
  params = record { usage = 3; selector = 1; matching = 1 };
  publisher = flags;
  replace = false;
  dryrun = false;
}

abbrev targets : Targets
targets = record { hosts = record { zone = codes "x"; hostname = none } ∷ []; mx_dnssec = none }

found : resolve_targets resolver (codes "x") none false true ≡ some targets
unfolding resolve_targets gentlsa.Prelude.trim_end_by
found = refl

abbrev empty : World
empty port = []

abbrev result : ℕ → GenerateResult
result port = record {
  port = port;
  host = codes "x";
  owner = gentlsa.Tlsa.Owner.owner_name port none;
  usage = 3;
  selector = 1;
  matching = 1;
  certificate = codes "ab";
  info = none;
  reports = gentlsa.Commands.no_reports;
  error = none;
}

ran_plain :
    run_generate plain net ps resolver (command (110 ∷ 443 ∷ []) no_publisher) empty
    ≡ some (
      (
        1,
        unreachable 110 (codes "x") none (record { usage = 3; selector = 1; matching = 1 })
            ∷ result 443
            ∷ [],
      ),
      empty,
    )
unfolding run_generate gentlsa.Targets.require_default_params_for_publish
    gentlsa.Targets.require_targets_in_zone_for_publish gentlsa.Commands.Generate.generate
    gentlsa.Cert.tlsa_association_data gentlsa.Cert.selected_data gentlsa.Cli.params
    gentlsa.Cert.digested gentlsa.Tlsa.Owner.connect_host gentlsa.Prelude.trim_end_by
ran_plain = refl

run_generate-results_example :
    let results =
      unreachable 110 (codes "x") none (record { usage = 3; selector = 1; matching = 1 })
      ∷ result 443
      ∷ [] in
    (map label results ≡ visits targets.hosts (110 ∷ 443 ∷ []))
    × (((◌≡◌ {A = ℕ} 1 0) × All Good results) ⊎ ((◌≡◌ {A = ℕ} 1 1) × ¬ All Good results))
run_generate-results_example =
    run_generate-results plain net ps resolver (command (110 ∷ 443 ∷ []) no_publisher) empty 1 _
      empty targets found ran_plain

abbrev check : VerifyCommand
check = record {
  zone = codes "x";
  ports = 443 ∷ 25 ∷ [];
  hostname = none;
  mx = false;
  info = false;
  starttls = none;
  warn = 14;
  critical = 7;
  no_expiry_check = false;
  no_dnssec_check = false;
}

run_verify_zero_example :
    ((run_verify plain net resolver check).0 ≡ 0) ↔ ((7 ≤ 14) × AllPass plain net resolver check)
run_verify_zero_example = run_verify_zero plain net resolver check

checked : (run_verify plain net resolver check).0 ≡ 0
unfolding run_verify gentlsa.Report.worst_verify_exit gentlsa.Report.exit_rank gentlsa.Verify.verify
    gentlsa.Cert.candidates gentlsa.Cert.match_loop gentlsa.Cert.tlsa_association_data
    gentlsa.Cert.selected_data gentlsa.Cert.digested gentlsa.Prelude.lower
    gentlsa.Prelude.Int.div_euclid gentlsa.Prelude.Int.◌-ℤ◌
checked = refl

abbrev at_google : PublisherFlags
at_google = record no_publisher { google = true }

abbrev opts : PublisherOpts
opts = record { kind = some PublisherKind.google; replace = false; dryrun = false }

abbrev managed : ManagedZone
managed = record { name = codes "x"; dns_name = codes "x."; id = codes "1" }

abbrev served : Api Zones
served = cloud_dns (managed ∷ [])

abbrev laws : ServesZones served
laws = cloud_dns-ServesZones (managed ∷ [])

-- The zone has no set, and then one at a port.
abbrev no_sets : Zones
no_sets z name = none

abbrev hashed : Crypto
hashed = record {
  public_key = λ der. some der;
  sha256 = λ bytes. bytes;
  sha512 = λ bytes. bytes;
  hex_encode = λ bytes. codes "ab";
}

hashed-IsHash : IsHash (codes "ab")
unfolding gentlsa.Prelude.is_whitespace
hashed-IsHash = record { some_text = λ e. cc e; no_space = (refl, (refl, tt)) }

abbrev others : Publishers Zones
others = record {
  cloudflare = google_provider served 300;
  nsupdate = record {
    is_configured = false;
    publish_tlsa = λ zone hostname port hash mode dryrun w. none;
    prune_tlsa = λ zone hostname port hash dryrun w. none;
  };
  route53 = google_provider served 300;
  google = google_provider served 300;
  azure = google_provider served 300;
}

abbrev ran : Option ((ℕ × List GenerateResult) × Zones)
ran =
    run_generate hashed net (with_google others served 300) resolver
      (command (443 ∷ 25 ∷ []) at_google) no_sets

abbrev value : Option ((ℕ × List GenerateResult) × Zones) → (ℕ × List GenerateResult) × Zones
value none = ((1, []), no_sets)
value (some r) = r

abbrev after : Zones
after = (value ran).1

ran_google : ran ≡ some ((0, (value ran).0.1), after)
unfolding run_generate gentlsa.Targets.require_default_params_for_publish gentlsa.Cli.params
    gentlsa.Targets.require_targets_in_zone_for_publish gentlsa.Prelude.trim_end_by
    gentlsa.Prelude.lower gentlsa.Commands.Generate.generate gentlsa.Cert.tlsa_association_data
    gentlsa.Cert.selected_data gentlsa.Cert.digested gentlsa.Cert.spki_sha256_hex
    gentlsa.Tlsa.Owner.connect_host gentlsa.Google.zone_by_name gentlsa.Google.zone_matches
    gentlsa.Google.publish_tlsa gentlsa.Google.rrset_for_owner gentlsa.Google.perform publish_action
    gentlsa.Google.current_dane gentlsa.Google.apply_rrset gentlsa.Google.change_request
    gentlsa.Google.from_dane gentlsa.Google.deletions_of gentlsa.Google.first_set
    rrset_after_publish gentlsa.Publish.Names.fqdn_owner gentlsa.Publish.Names.names_equal
    gentlsa.Prelude.Decimal.to_string
ran_google = refl

flags_read : flags_kind at_google ≡ some PublisherKind.google
unfolding flags_kind
flags_read = refl

opts_read : from_flags at_google false false ≡ some opts
unfolding from_flags
opts_read = refl

run_generate-present_example :
    ((zone : ManagedZone) (hostname : Option Text) (port : ℕ) (hash : Text)
      → HasHash hashed net served laws no_sets zone hostname port hash
      → HasHash hashed net served laws after zone hostname port hash)
    × (◌≡◌ {A = ℕ} 0 0
        → All
            (λ t.
              All
                (λ port.
                  IsServed hashed net served laws
                    (generate_args (command (443 ∷ 25 ∷ []) at_google) opts)
                    t.zone
                    t.hostname
                    port
                    after)
                (443 ∷ 25 ∷ []))
            targets.hosts)
run_generate-present_example =
    run_generate-present hashed net others served 300 laws (λ bytes. hashed-IsHash) resolver
      (command (443 ∷ 25 ∷ []) at_google) opts no_sets 0 (value ran).0.1 after targets opts_read
      flags_read refl refl found ran_google
