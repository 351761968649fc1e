-- ===== src/Targets/Zone.antt =====
-- src/main.rs: lemmas on the targets that a publish accepts.
use gentlsa.Prelude.{
  some-inj, ◌≡◌, ◌≢◌, ◌⊎◌, sym, ap, ◌∙◌, inl, inr, Text, codes, Bool, true, not, ◌||◌, Option, some,
  List, [], ◌∷◌, ◌++◌, all, map, All, arith, Option-cases, trim_dots, to_ascii_lowercase,
}
use gentlsa.Tlsa.Target.{from_mx, in_zone}
use gentlsa.Tlsa.Exchange.{from_mx-in_zone}
use gentlsa.Dns.{DnssecStatus}
use gentlsa.Dns.Mx.{MxHost, MxLookup, MxResponse, lookup_mx}
use gentlsa.Publish.Kind.{PublisherKind}
use gentlsa.Targets.{
  Targets, PublisherOpts, has_kind, mx_targets, resolve_targets,
  require_targets_in_zone_for_publish,
}

-- The name is the zone or a name under it, up to case and final dots.
abbrev pub IsUnder : Text → Text → Type 0
IsUnder zone name =
    (to_ascii_lowercase (trim_dots name) ≡ to_ascii_lowercase (trim_dots zone))
    ⊎ ((rel : Text) × (rel ≢ [])
        × (to_ascii_lowercase (trim_dots name)
            ≡ rel ++ (codes "." ++ to_ascii_lowercase (trim_dots zone))))

all-IsUnder :
    (zone : Text) (hosts : List MxHost)
    → all (λ t. in_zone t zone) (map (λ h. from_mx zone h.host) hosts) ≡ true
    → All (λ h. IsUnder zone h.host) hosts
all-IsUnder zone [] e = tt
all-IsUnder zone (h ∷ hosts) e = (
  (from_mx-in_zone zone h.host).0 (ground (arith, e)),
  all-IsUnder zone hosts (ground (arith, e)),
)

mx_targets-hosts :
    (zone : Text) (hosts : List MxHost) (dnssec : Option DnssecStatus) (t : Targets)
    → mx_targets zone hosts dnssec ≡ some t
    → (hosts ≢ []) × (t.hosts ≡ map (λ h. from_mx zone h.host) hosts) × (t.mx_dnssec ≡ dnssec)
unfolding mx_targets
mx_targets-hosts zone [] dnssec t e = ground (arith, e)
mx_targets-hosts zone (h ∷ hosts) dnssec t e =
    let same = sym (
      some-inj (record { hosts = map (λ x. from_mx zone x.host) (h ∷ hosts); mx_dnssec = dnssec }) t
        e) in
    ((λ z. absurd (cc z)), ap (λ x. x.hosts) same, ap (λ x. x.mx_dnssec) same)

-- With `--mx` and a publisher a command goes on only if the zone has an MX host and each is the zone
-- or a name under it; the targets are then those hosts in their order, with the DNSSEC verdict of
-- the lookup.
pub mx-publish :
    (resolver : Text → Bool → MxResponse) (zone : Text) (hostname : Option Text) (check : Bool)
    (opts : PublisherOpts) (k : PublisherKind) (t : Targets)
    → resolve_targets resolver zone hostname true check ≡ some t
    → opts.kind ≡ some k
    → require_targets_in_zone_for_publish zone t.hosts opts ≡ true
    → (found : MxLookup) × (lookup_mx check (resolver (trim_dots zone ++ codes ".") check)
        ≡ some found)
      × (found.hosts ≢ [])
      × (t.hosts ≡ map (λ h. from_mx zone h.host) found.hosts)
      × (t.mx_dnssec ≡ found.dnssec)
      × All (λ h. IsUnder zone h.host) found.hosts
unfolding resolve_targets require_targets_in_zone_for_publish
mx-publish resolver zone hostname check opts k t e ek er =
    elim (Option-cases (lookup_mx check (resolver (trim_dots zone ++ codes ".") check))) [
      | inl n ↦ ground (arith, rw (n, resolve_targets) at e)
      | inr (found, n) ↦
          let (ne, hosts, dnssec) =
            mx_targets-hosts zone found.hosts found.dnssec t (rw (n, resolve_targets) at e) in
          let allowed : (not (has_kind (some k))
                || all (λ x. in_zone x zone) (map (λ h. from_mx zone h.host) found.hosts))
              ≡ true =
            ap
              (λ x.
                not (has_kind x)
                || all (λ x. in_zone x zone) (map (λ h. from_mx zone h.host) found.hosts))
              (sym ek)
            ∙ (ap (λ hs. not (has_kind opts.kind) || all (λ x. in_zone x zone) hs) (sym hosts)
                ∙ er) in
          (found, n, ne, hosts, dnssec, all-IsUnder zone found.hosts (unfold has_kind in allowed))
    ]
