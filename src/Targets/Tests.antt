-- ===== src/Targets/Tests.antt =====
-- A zone with two MX hosts under it.
use gentlsa.Prelude.{
  ◌≡◌, ◌≢◌, refl, Text, codes, Bool, true, false, Option, none, some, List, [], ◌∷◌, ◌++◌, map, All,
  trim_dots,
}
use gentlsa.Tlsa.Target.{from_mx}
use gentlsa.Dns.{secure}
use gentlsa.Dns.Mx.{MxLookup, MxResponse, answers, no_records, fails, lookup_mx}
use gentlsa.Publish.Kind.{cloudflare}
use gentlsa.Targets.{Targets, PublisherOpts, resolve_targets}
use gentlsa.Targets.Zone.{IsUnder, mx-publish}

abbrev zone_resolver : Text → Bool → MxResponse
zone_resolver name check = answers (
    record { exchange = some (20, codes "B.x."); proof = secure }
    ∷ record { exchange = none; proof = secure }
    ∷ record { exchange = some (10, codes "a.x."); proof = secure }
    ∷ [])

abbrev zone_targets : Targets
zone_targets = record {
  hosts = from_mx (codes "x") (codes "a.x") ∷ from_mx (codes "x") (codes "B.x") ∷ [];
  mx_dnssec = some secure;
}

abbrev cloudflare_opts : PublisherOpts
cloudflare_opts = record { kind = some cloudflare; replace = false; dryrun = false }

mx-publish_example :
    (found : MxLookup) × (lookup_mx true (zone_resolver (trim_dots (codes "x") ++ codes ".") true)
      ≡ some found)
    × (found.hosts ≢ [])
    × (zone_targets.hosts ≡ map (λ h. from_mx (codes "x") h.host) found.hosts)
    × (zone_targets.mx_dnssec ≡ found.dnssec)
    × All (λ h. IsUnder (codes "x") h.host) found.hosts
unfolding resolve_targets gentlsa.Dns.Mx.sort_hosts gentlsa.Dns.Mx.collect_hosts
    gentlsa.Prelude.trim_end_by gentlsa.Dns.Mx.merge_host gentlsa.Prelude.lower
    gentlsa.Dns.Mx.insert_host gentlsa.Dns.Mx.host_le
    gentlsa.Targets.require_targets_in_zone_for_publish gentlsa.Prelude.strip_suffix
mx-publish_example =
    mx-publish zone_resolver (codes "x") none true cloudflare_opts cloudflare zone_targets refl refl
      refl

no_mx : resolve_targets (λ name check. no_records) (codes "x") none true true ≡ none
unfolding resolve_targets
no_mx = refl

no_lookup : resolve_targets (λ name check. fails) (codes "x") none true true ≡ none
unfolding resolve_targets
no_lookup = refl
