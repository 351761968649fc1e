-- ===== src/Targets.antt =====
-- src/main.rs: the hosts that a command works on, and what it refuses to publish. The resolver is an
-- argument, with the name and whether to validate.
pub mod Zone
pub mod Tests
use gentlsa.Prelude.{
  ℕ, Text, Bool, true, false, not, ◌&&◌, ◌||◌, Option, none, some, List, [], ◌∷◌, if◌then◌else◌,
  all, map, codes, ◌++◌, trim_dots, ◌>>=◌,
}
use gentlsa.Tlsa.{TlsaParams, is_default}
use gentlsa.Tlsa.Target.{HostTarget, from_label, from_mx, in_zone}
use gentlsa.Dns.{DnssecStatus}
use gentlsa.Dns.Mx.{MxHost, MxResponse, lookup_mx}
use gentlsa.Publish.Kind.{PublisherKind}
use gentlsa.Cli.{PublisherFlags, flags_kind}

pub record Targets : Type 0 where
  pub hosts : List HostTarget
  pub mx_dnssec : Option DnssecStatus

-- The hosts of an MX lookup; the source fails where there is none.
unfoldable pub mx_targets : Text → List MxHost → Option DnssecStatus → Option Targets
unfolding from_mx
mx_targets zone [] dnssec = none
mx_targets zone (h ∷ hosts) dnssec =
    some (record { hosts = map (λ x. from_mx zone x.host) (h ∷ hosts); mx_dnssec = dnssec })

unfoldable pub resolve_targets :
    (Text → Bool → MxResponse) → Text → Option Text → Bool → Bool → Option Targets
unfolding mx_targets from_label lookup_mx
resolve_targets resolver zone hostname false dnssec_check =
    some (record { hosts = from_label zone hostname ∷ []; mx_dnssec = none })
resolve_targets resolver zone hostname true dnssec_check =
    lookup_mx dnssec_check (resolver (trim_dots zone ++ codes ".") dnssec_check) >>= λ found.
    mx_targets zone found.hosts found.dnssec

pub record PublisherOpts : Type 0 where
  pub kind : Option PublisherKind
  pub replace : Bool
  pub dryrun : Bool

unfoldable pub has_kind : Option PublisherKind → Bool
has_kind none = false
has_kind (some _) = true

-- `--replace` needs a publisher.
unfoldable pub from_flags : PublisherFlags → Bool → Bool → Option PublisherOpts
unfolding flags_kind has_kind
from_flags flags replace dryrun =
    if replace && not (has_kind (flags_kind flags))
    then none
    else some (record { kind = flags_kind flags; replace = replace; dryrun = dryrun })

-- The two guards of a publish: `false` where the source fails.
unfoldable pub require_targets_in_zone_for_publish : Text → List HostTarget → PublisherOpts → Bool
unfolding has_kind in_zone
require_targets_in_zone_for_publish zone targets opts =
    not (has_kind opts.kind) || all (λ t. in_zone t zone) targets

unfoldable pub require_default_params_for_publish : TlsaParams → PublisherOpts → Bool
unfolding has_kind is_default
require_default_params_for_publish params opts = not (has_kind opts.kind && not (is_default params))
