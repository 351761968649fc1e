-- ===== src/Commands/Serves.antt =====
-- src/main.rs: what a publish relies on of a publisher, and the five publishers as one interface.
use gentlsa.Prelude.{
  ℕ, ◌≡◌, ◌⊎◌, inl, inr, refl, sym, ap, ◌∙◌, Text, codes, false, Option, none, some, List, [], ◌∷◌,
  Any, bind-eq-some, some-inj, Bool-cases, Option-cases,
}
use mathlib.Core.Path.{subst}
use gentlsa.Publish.{
  DaneTlsa, PublishMode, rollover, PublishReport, publish_action, rrset_after_publish, live_dane,
}
use gentlsa.Publish.Printed.{IsHash}
use gentlsa.Publish.Action.{HoldsHash}
use gentlsa.Publish.Sets.{Any-append_left, rollover_keeps, publish_twice}
use gentlsa.Publish.Kind.{PublisherKind}
use gentlsa.Targets.{PublisherOpts}
use gentlsa.Commands.{
  Provider, Server, Publishers, PublishOutcome, published, not_managed, publish_at, publish_server,
  publish_hash, mode_of,
}

-- A name server as a publisher that manages each zone.
abbrev pub as_provider : {W : Type 0} → Server W → Provider W
as_provider p = record {
  Zone = Text;
  is_configured = p.is_configured;
  zone_by_name = λ name w. some (some name);
  publish_tlsa = p.publish_tlsa;
  prune_tlsa = p.prune_tlsa;
}

abbrev pub provider_of : {W : Type 0} → Publishers W → PublisherKind → Provider W
provider_of ps PublisherKind.cloudflare = ps.cloudflare
provider_of ps PublisherKind.nsupdate = as_provider ps.nsupdate
provider_of ps PublisherKind.route53 = ps.route53
provider_of ps PublisherKind.google = ps.google
provider_of ps PublisherKind.azure = ps.azure

abbrev code_of : PublisherKind → Text
code_of PublisherKind.cloudflare = codes "not_managed_by_cloudflare"
code_of PublisherKind.nsupdate = []
code_of PublisherKind.route53 = codes "not_managed_by_route53"
code_of PublisherKind.google = codes "not_managed_by_google"
code_of PublisherKind.azure = codes "not_managed_by_azure"

publish_hash-at :
    {W : Type 0} (ps : Publishers W) (kind : PublisherKind) (zone : Text) (hostname : Option Text)
    (port : ℕ) (hash : Text) (opts : PublisherOpts) (w : W)
    → publish_hash ps kind zone hostname port hash opts w
      ≡ publish_at (provider_of ps kind) (code_of kind) zone hostname port hash opts w
unfolding publish_hash publish_at publish_server
publish_hash-at ps PublisherKind.cloudflare zone hostname port hash opts w = refl
publish_hash-at ps PublisherKind.nsupdate zone hostname port hash opts w = refl
publish_hash-at ps PublisherKind.route53 zone hostname port hash opts w = refl
publish_hash-at ps PublisherKind.google zone hostname port hash opts w = refl
publish_hash-at ps PublisherKind.azure zone hostname port hash opts w = refl

-- What a publisher promises: a publish of a hash that succeeds leaves at the owner the records of
-- `rrset_after_publish`, and changes the owner only, by whatever zone and host it is named; and the zones
-- stay.
pub record Serves {W : Type 0} (p : Provider W) : Type 0 where
  pub records_of : W → p.Zone → Option Text → ℕ → List DaneTlsa
  pub publishes :
      (w w' : W) (zone : p.Zone) (hostname : Option Text) (port : ℕ) (hash : Text)
      (mode : PublishMode) (report : PublishReport)
      → IsHash hash
      → p.publish_tlsa zone hostname port hash mode false w ≡ some (report, w')
      → records_of w' zone hostname port
        ≡ rrset_after_publish
            (records_of w zone hostname port)
            hash
            (publish_action (records_of w zone hostname port) hash mode false)
  pub others :
      (w w' : W) (zone : p.Zone) (hostname : Option Text) (port : ℕ) (hash : Text)
      (mode : PublishMode) (report : PublishReport)
      → IsHash hash
      → p.publish_tlsa zone hostname port hash mode false w ≡ some (report, w')
      → (other : p.Zone) (host : Option Text) (number : ℕ)
      → ((records_of w other host number ≡ records_of w zone hostname port)
          × (records_of w' other host number ≡ records_of w' zone hostname port))
        ⊎ (records_of w' other host number ≡ records_of w other host number)
  pub zones :
      (w w' : W) (zone : p.Zone) (hostname : Option Text) (port : ℕ) (hash : Text)
      (mode : PublishMode) (report : PublishReport)
      → IsHash hash
      → p.publish_tlsa zone hostname port hash mode false w ≡ some (report, w')
      → (name : Text) → p.zone_by_name name w' ≡ p.zone_by_name name w

-- A rollover keeps the hashes of the set.
still_held :
    (ours : List DaneTlsa) (hash cert : Text)
    → Any (HoldsHash cert) ours
    → Any (HoldsHash cert) (rrset_after_publish ours hash (publish_action ours hash rollover false))
still_held ours hash cert h = elim (rollover_keeps ours hash) [
  | inl (_, e) ↦ subst (Any (HoldsHash cert)) (sym e) h
  | inr (_, e) ↦
      subst (Any (HoldsHash cert)) (sym e)
        (Any-append_left (HoldsHash cert) ours (live_dane hash ∷ []) h)
]

module _ {W : Type 0} (p : Provider W) (serves : Serves p) where
  -- No hash and no zone is lost.
  pub record Keeps (w w' : W) : Type 0 where
    pub hashes :
        (zone : p.Zone) (hostname : Option Text) (port : ℕ) (hash : Text)
        → Any (HoldsHash hash) (serves.records_of w zone hostname port)
        → Any (HoldsHash hash) (serves.records_of w' zone hostname port)
    pub zones : (name : Text) → p.zone_by_name name w' ≡ p.zone_by_name name w

  pub Keeps-refl : (w : W) → Keeps w w
  Keeps-refl w = record { hashes = λ zone hostname port hash h. h; zones = λ name. refl }

  pub Keeps-trans : (a b c : W) → Keeps a b → Keeps b c → Keeps a c
  Keeps-trans a b c k l = record {
    hashes = λ zone hostname port hash h.
        l.hashes zone hostname port hash (k.hashes zone hostname port hash h);
    zones = λ name. l.zones name ∙ k.zones name;
  }

  -- The zone of a name has a hash at an owner.
  abbrev pub IsPresent : Text → Option Text → ℕ → Text → W → Type 0
  IsPresent name hostname port hash w =
      (zone : p.Zone) × (p.zone_by_name name w ≡ some (some zone))
      × Any (HoldsHash hash) (serves.records_of w zone hostname port)

  pub IsPresent-Keeps :
      (name : Text) (hostname : Option Text) (port : ℕ) (hash : Text) (w w' : W)
      → Keeps w w'
      → IsPresent name hostname port hash w
      → IsPresent name hostname port hash w'
  IsPresent-Keeps name hostname port hash w w' k (zone, e, h) =
      (zone, k.zones name ∙ e, k.hashes zone hostname port hash h)

  rollover-Keeps :
      (w w' : W) (zone : p.Zone) (hostname : Option Text) (port : ℕ) (hash : Text)
      (report : PublishReport)
      → IsHash hash
      → p.publish_tlsa zone hostname port hash rollover false w ≡ some (report, w')
      → Keeps w w'
  rollover-Keeps w w' zone hostname port hash report c e = record {
    hashes = λ other host number cert h.
        elim (serves.others w w' zone hostname port hash rollover report c e other host number) [
          | inl (was, is) ↦
              subst (Any (HoldsHash cert))
                (sym (is ∙ serves.publishes w w' zone hostname port hash rollover report c e))
                (still_held (serves.records_of w zone hostname port) hash cert
                  (subst (Any (HoldsHash cert)) was h))
          | inr same ↦ subst (Any (HoldsHash cert)) (sym same) h
        ];
    zones = serves.zones w w' zone hostname port hash rollover report c e;
  }

  -- A publish that succeeds found no zone, or published in the zone that it found.
  publish_at-found :
      (code name : Text) (hostname : Option Text) (port : ℕ) (hash : Text) (opts : PublisherOpts)
      (w w' : W) (outcome : PublishOutcome)
      → opts.replace ≡ false
      → opts.dryrun ≡ false
      → publish_at p code name hostname port hash opts w ≡ some (outcome, w')
      → ((p.zone_by_name name w ≡ some none) × (w ≡ w') × (outcome ≡ not_managed code))
        ⊎ ((zone : p.Zone) × (report : PublishReport) × (p.zone_by_name name w ≡ some (some zone))
            × (p.publish_tlsa zone hostname port hash rollover false w ≡ some (report, w'))
            × (outcome ≡ published report))
  unfolding publish_at mode_of
  publish_at-found code name hostname port hash opts w w' outcome m d e =
      elim (Bool-cases p.is_configured) [
        | inr off ↦ cc (rw off at e)
        | inl on ↦ elim (Option-cases (p.zone_by_name name w)) [
          | inl z ↦ cc (rw (on, z) at e)
          | inr (found, z) ↦ elim (Option-cases found) [
            | inl f ↦
                let o = some-inj (not_managed code, w) (outcome, w') (rw (on, z, f) at e) in
                inl (z ∙ ap some f, ap (λ x. x.1) o, sym (ap (λ x. x.0) o))
            | inr (zone, f) ↦
                let ((report, w₁), sent, k) =
                  bind-eq-some (p.publish_tlsa zone hostname port hash rollover false w)
                    (λ x. some (published x.0, x.1)) (outcome, w') (rw (on, z, f, m, d) at e) in
                let o = some-inj (published report, w₁) (outcome, w') k in
                inr (
                  zone,
                  report,
                  z ∙ ap some f,
                  sent ∙ ap (λ x. some (report, x.1)) o,
                  sym (ap (λ x. x.0) o),
                )
          ]
        ]
      ]

  -- A rollover at a publisher that succeeds loses nothing, and the hash is present behind it.
  publish_at-IsPresent :
      (code name : Text) (hostname : Option Text) (port : ℕ) (hash : Text) (opts : PublisherOpts)
      (w w' : W) (outcome : PublishOutcome)
      → opts.replace ≡ false
      → opts.dryrun ≡ false
      → IsHash hash
      → publish_at p code name hostname port hash opts w ≡ some (outcome, w')
      → Keeps w w'
        × (((report : PublishReport) × (outcome ≡ published report)
              × IsPresent name hostname port hash w')
            ⊎ ((c : Text) × (outcome ≡ not_managed c)))
  unfolding publish_at mode_of
  publish_at-IsPresent code name hostname port hash opts w w' outcome m d c e =
      elim (publish_at-found code name hostname port hash opts w w' outcome m d e) [
        | inl (found, same, o) ↦ (subst (Keeps w) same (Keeps-refl w), inr (code, o))
        | inr (zone, report, z, sent, o) ↦
            let k = rollover-Keeps w w' zone hostname port hash report c sent in
            (
              k,
              inl (
                report,
                o,
                (
                  zone,
                  k.zones name ∙ z,
                  subst (Any (HoldsHash hash))
                      (sym (serves.publishes w w' zone hostname port hash rollover report c sent))
                      (publish_twice (serves.records_of w zone hostname port) hash rollover rollover
                        false).0,
                ),
              ),
            )
      ]

-- The same of `publish_hash`, for the publisher of a kind.
pub publish_hash-IsPresent :
    {W : Type 0} (ps : Publishers W) (kind : PublisherKind) (serves : Serves (provider_of ps kind))
    (name : Text) (hostname : Option Text) (port : ℕ) (hash : Text) (opts : PublisherOpts)
    (w w' : W) (outcome : PublishOutcome)
    → opts.replace ≡ false
    → opts.dryrun ≡ false
    → IsHash hash
    → publish_hash ps kind name hostname port hash opts w ≡ some (outcome, w')
    → Keeps (provider_of ps kind) serves w w'
      × (((report : PublishReport) × (outcome ≡ published report)
            × IsPresent (provider_of ps kind) serves name hostname port hash w')
          ⊎ ((c : Text) × (outcome ≡ not_managed c)))
publish_hash-IsPresent ps kind serves name hostname port hash opts w w' outcome m d c e =
    publish_at-IsPresent (provider_of ps kind) serves (code_of kind) name hostname port hash opts w
      w' outcome m d c (sym (publish_hash-at ps kind name hostname port hash opts w) ∙ e)
