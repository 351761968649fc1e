-- ===== src/Dns/Tests.antt =====
-- A set of verdicts and a list of MX records.
use gentlsa.Prelude.{
  ℕ, ◌≤◌, Text, codes, List, [], ◌∷◌, ◌≡◌, ◌≢◌, ◌↔◌, refl, Option, some, All, Any, trim_dots,
}
use gentlsa.Dns.{DnssecStatus, secure, insecure, bogus, severity, worst_dnssec}
use gentlsa.Dns.Mx.{MxHost, normalize_mx}
use gentlsa.Dns.MxLaws.{IsSorted, IsDistinct}
use gentlsa.Dns.MxHosts.{Covers, normalize_mx_lem}

abbrev sample_mx : List (ℕ × Text)
sample_mx = (20, codes "B.x.") ∷ (10, codes "a.x") ∷ (5, codes "b.x") ∷ (0, codes ".") ∷ []

normalize_mx_lem_example :
    IsSorted (normalize_mx sample_mx)
    × IsDistinct (normalize_mx sample_mx)
    × All (λ h. h.host ≢ []) (normalize_mx sample_mx)
    × All (λ r. trim_dots r.1 ≢ [] → Covers r.0 (trim_dots r.1) (normalize_mx sample_mx)) sample_mx
normalize_mx_lem_example = normalize_mx_lem sample_mx

merges :
    normalize_mx sample_mx
    ≡ record { preference = 5; host = codes "B.x" }
      ∷ record { preference = 10; host = codes "a.x" }
      ∷ []
unfolding normalize_mx gentlsa.Dns.Mx.sort_hosts gentlsa.Dns.Mx.collect_hosts
    gentlsa.Prelude.trim_end_by gentlsa.Dns.Mx.merge_host gentlsa.Prelude.lower
    gentlsa.Dns.Mx.insert_host gentlsa.Dns.Mx.host_le
merges = refl
