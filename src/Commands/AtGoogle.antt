-- ===== src/Commands/AtGoogle.antt =====
-- src/main.rs: what the zones of Google Cloud DNS hold behind a run of `generate` with `--google`.
use gentlsa.Prelude.{
  ℕ, ◌≡◌, ◌⊎◌, inl, inr, refl, sym, ap, ◌∙◌, Text, Bool, true, false, ◌&&◌, Option, some, List, All,
  All-mono, Any, is_empty, bind-eq-some, some-inj, text_eq, Bool-cases,
}
use gentlsa.Dns.Mx.{MxResponse}
use gentlsa.Tlsa.Owner.{connect_host}
use gentlsa.Cert.{Bytes, Crypto, Certificate, spki_sha256_hex}
use gentlsa.Publish.{
  PublishMode, PublishAction, PublishReport, DaneTlsa, added, replaced, already_published,
  would_add, would_replace, publish_action, rrset_after_publish,
}
use gentlsa.Publish.Action.{HoldsHash}
use gentlsa.Publish.Names.{names_equal, fqdn_owner}
use gentlsa.Publish.Printed.{IsHash}
use gentlsa.Publish.Kind.{PublisherKind}
use gentlsa.Cli.{flags_kind}
use gentlsa.Targets.{Targets, PublisherOpts, resolve_targets, from_flags}
use gentlsa.Verify.{Network}
use gentlsa.Google
use gentlsa.Google.{ManagedZone, Rrset, ChangeRequest, change_request, current_dane}
use gentlsa.Google.Change
use gentlsa.Google.Change.{dane_of, publish_tlsa-Holds}
use gentlsa.Commands.{Provider, Publishers}
use gentlsa.Commands.Generate.{GenerateResult, GenerateArgs}
use gentlsa.Commands.Runs.{GenerateCommand, generate_args, run_generate}
use gentlsa.Commands.Serves.{Serves}
use gentlsa.Commands.Present.{generate-present}

-- The Google client, with its TTL, as the commands see it.
abbrev pub google_provider : {S : Type 0} → Google.Api S → ℕ → Provider S
google_provider api ttl = record {
  Zone = ManagedZone;
  is_configured = true;
  zone_by_name = Google.zone_by_name api;
  publish_tlsa = λ zone hostname port hash mode dryrun.
      Google.publish_tlsa api zone ttl hostname port hash mode dryrun;
  prune_tlsa =
      λ zone hostname port hash dryrun. Google.prune_tlsa api zone ttl hostname port hash dryrun;
}

-- What Cloud DNS documents of its zones together: each serves its sets, zones of one name are one zone,
-- names that differ in case or final dots only are one owner, and a change of a zone leaves other zones, and the list
-- of the zones, alone.
pub record ServesZones {S : Type 0} (api : Google.Api S) : Type 0 where
  pub serves : (zone : ManagedZone) → Change.Serves api zone
  pub one_owner :
      (zone : ManagedZone) (s : S) (fqdn other : Text)
      → names_equal other fqdn ≡ true
      → (serves zone).set_of s other ≡ (serves zone).set_of s fqdn
  pub one_zone :
      (zone other : ManagedZone) (s : S) (fqdn : Text)
      → text_eq other.name zone.name ≡ true
      → (serves other).set_of s fqdn ≡ (serves zone).set_of s fqdn
  pub apart :
      (zone other : ManagedZone) (s s' : S) (change : ChangeRequest) (fqdn : Text)
      → text_eq other.name zone.name ≡ false
      → api.post_change s zone change ≡ some s'
      → (serves other).set_of s' fqdn ≡ (serves other).set_of s fqdn
  pub zones_stay :
      (zone : ManagedZone) (s s' : S) (change : ChangeRequest) (name : Text)
      → api.post_change s zone change ≡ some s'
      → api.zones_named s' name ≡ api.zones_named s name

module _ {S : Type 0} (api : Google.Api S) (ttl : ℕ) where
  -- The state stays, or is that behind a change.
  abbrev Posts : ManagedZone → S → S → Type 0
  Posts zone s s' =
      (s ≡ s') ⊎ ((change : ChangeRequest) × (api.post_change s zone change ≡ some s'))

  apply-Posts :
      (zone : ManagedZone) (fqdn : Text) (current : Option Rrset) (next : List DaneTlsa) (s s' : S)
      → Google.apply_rrset api zone fqdn ttl current next s ≡ some s'
      → Posts zone s s'
  unfolding Google.apply_rrset
  apply-Posts zone fqdn current next s s' e =
      let change = change_request fqdn ttl current next in
      elim (Bool-cases (is_empty change.additions && is_empty change.deletions)) [
        | inl h ↦ inl (some-inj s s' (rw h at e))
        | inr h ↦ inr (change, rw h at e)
      ]

  perform-Posts :
      (zone : ManagedZone) (fqdn : Text) (current : Option Rrset) (certificate : Text)
      (action : PublishAction) (s s' : S)
      → Google.perform api zone fqdn ttl current certificate action s ≡ some s'
      → Posts zone s s'
  unfolding Google.perform
  perform-Posts zone fqdn current certificate added s s' e = apply-Posts zone fqdn current _ s s' e
  perform-Posts zone fqdn current certificate replaced s s' e =
      apply-Posts zone fqdn current _ s s' e
  perform-Posts zone fqdn current certificate already_published s s' e = inl (some-inj s s' e)
  perform-Posts zone fqdn current certificate would_add s s' e = inl (some-inj s s' e)
  perform-Posts zone fqdn current certificate would_replace s s' e = inl (some-inj s s' e)

  publish-Posts :
      (zone : ManagedZone) (hostname : Option Text) (port : ℕ) (hash : Text) (mode : PublishMode)
      (dryrun : Bool) (s s' : S) (report : PublishReport)
      → Google.publish_tlsa api zone ttl hostname port hash mode dryrun s ≡ some (report, s')
      → Posts zone s s'
  unfolding Google.publish_tlsa
  publish-Posts zone hostname port hash mode dryrun s s' report e =
      let fqdn = fqdn_owner zone.dns_name hostname port in
      let (current, _, e₁) = bind-eq-some (Google.rrset_for_owner api zone fqdn s) _ _ e in
      let action = publish_action (current_dane current) hash mode dryrun in
      let (s₁, sent, e₂) =
        bind-eq-some (Google.perform api zone fqdn ttl current hash action s) _ _ e₁ in
      perform-Posts zone fqdn current hash action s s'
        (sent ∙ ap (λ x. some x.1) (some-inj _ (report, s') e₂))

module _ {S : Type 0} (api : Google.Api S) (ttl : ℕ) (laws : ServesZones api) where
  -- The records of an owner in a zone.
  abbrev pub records_at : S → ManagedZone → Option Text → ℕ → List DaneTlsa
  records_at s zone hostname port =
      dane_of api zone (laws.serves zone) s (fqdn_owner zone.dns_name hostname port)

  module _ (w w' : S) (zone : ManagedZone) (hostname : Option Text) (port : ℕ) (hash : Text)
      (mode : PublishMode) (report : PublishReport) (c : IsHash hash)
      (e : Google.publish_tlsa api zone ttl hostname port hash mode false w
        ≡ some (report, w')) where
    abbrev owner : Text
    owner = fqdn_owner zone.dns_name hostname port

    pub published :
        (records_at w' zone hostname port
          ≡ rrset_after_publish
              (records_at w zone hostname port)
              hash
              (publish_action (records_at w zone hostname port) hash mode false))
        × ((other : Text)
            → names_equal other owner ≡ false
            → (laws.serves zone).set_of w' other ≡ (laws.serves zone).set_of w other)
    published =
        let (s', p, (records', others)) =
          publish_tlsa-Holds api zone (laws.serves zone) ttl hostname port hash mode false w c in
        let same : s' ≡ w' = ap (λ x. x.1) (some-inj _ (report, w') (sym p ∙ e)) in
        (
          ap (λ s. dane_of api zone (laws.serves zone) s owner) (sym same) ∙ records',
          λ other d. ap (λ s. (laws.serves zone).set_of s other) (sym same) ∙ others other d,
        )

    same_zone :
        (other : ManagedZone) (host : Option Text) (number : ℕ)
        → text_eq other.name zone.name ≡ true
        → ((records_at w other host number ≡ records_at w zone hostname port)
            × (records_at w' other host number ≡ records_at w' zone hostname port))
          ⊎ (records_at w' other host number ≡ records_at w other host number)
    same_zone other host number t =
        let there = fqdn_owner other.dns_name host number in
        let at = λ (s : S). laws.one_zone zone other s there t in
        elim (Bool-cases (names_equal there owner)) [
          | inl n ↦ inl (
            ap current_dane (at w ∙ laws.one_owner zone w owner there n),
            ap current_dane (at w' ∙ laws.one_owner zone w' owner there n),
          )
          | inr n ↦ inr (ap current_dane (at w' ∙ (published.1 there n ∙ sym (at w))))
        ]

    other_zone :
        (other : ManagedZone) (host : Option Text) (number : ℕ)
        → text_eq other.name zone.name ≡ false
        → records_at w' other host number ≡ records_at w other host number
    other_zone other host number t =
        elim (publish-Posts api ttl zone hostname port hash mode false w w' report e) [
          | inl same ↦ ap (λ s. records_at s other host number) (sym same)
          | inr (change, sent) ↦
              ap current_dane
                (laws.apart zone other w w' change (fqdn_owner other.dns_name host number) t sent)
        ]

    pub any_zone :
        (other : ManagedZone) (host : Option Text) (number : ℕ)
        → ((records_at w other host number ≡ records_at w zone hostname port)
            × (records_at w' other host number ≡ records_at w' zone hostname port))
          ⊎ (records_at w' other host number ≡ records_at w other host number)
    any_zone other host number = elim (Bool-cases (text_eq other.name zone.name)) [
      | inl t ↦ same_zone other host number t
      | inr t ↦ inr (other_zone other host number t)
    ]

    pub zones_kept :
        (name : Text) → Google.zone_by_name api name w' ≡ Google.zone_by_name api name w
    unfolding Google.zone_by_name
    zones_kept name =
        elim (publish-Posts api ttl zone hostname port hash mode false w w' report e) [
          | inl same ↦ ap (Google.zone_by_name api name) (sym same)
          | inr (change, sent) ↦
              rw (laws.zones_stay zone w w' change (Google.trailing_dot name) sent) refl
        ]

  -- The publish at Google keeps what the commands rely on.
  abbrev pub google-Serves : Serves (google_provider api ttl)
  google-Serves = record {
    records_of = records_at;
    publishes = λ w w' zone hostname port hash mode report c e.
        (published w w' zone hostname port hash mode report c e).0;
    others = λ w w' zone hostname port hash mode report c e.
        any_zone w w' zone hostname port hash mode report c e;
    zones = λ w w' zone hostname port hash mode report c e.
        zones_kept w w' zone hostname port hash mode report c e;
  }

-- The publishers, with Google's client in its place.
abbrev pub with_google : {S : Type 0} → Publishers S → Google.Api S → ℕ → Publishers S
with_google ps api ttl = record ps { google = google_provider api ttl }

module _ {S : Type 0} (crypto : Crypto) (net : Network) (api : Google.Api S)
    (laws : ServesZones api) where
  -- A hash is among the records of an owner.
  abbrev pub HasHash : S → ManagedZone → Option Text → ℕ → Text → Type 0
  HasHash s zone hostname port hash =
      Any (HoldsHash hash)
        (dane_of api zone (laws.serves zone) s (fqdn_owner zone.dns_name hostname port))

  -- The host presents a certificate whose hash is at its owner in the zone of its name.
  pub record IsServed (a : GenerateArgs) (name : Text) (hostname : Option Text) (port : ℕ) (s : S)
      : Type 0 where
    pub cert : Certificate
    pub hash : Text
    pub zone : ManagedZone
    pub presents : net.fetch_live (connect_host name hostname) port a.starttls name ≡ some cert
    pub hashed : spki_sha256_hex crypto cert ≡ some hash
    pub found : Google.zone_by_name api name s ≡ some (some zone)
    pub present : HasHash s zone hostname port hash

-- A run of `generate` with the publisher of Google Cloud DNS that finds its hosts, neither replaces nor
-- is dry, and returns a code and results, takes no hash from any owner, where Cloud DNS does as it
-- documents and the hexadecimal form of a SHA-256 digest is not empty and has no space; and if its code
-- is 0, then behind it each host with each port has, in the zone of its name, the hash of the certificate
-- that it presents.
pub run_generate-present :
    {S : Type 0} (crypto : Crypto) (net : Network) (ps : Publishers S) (api : Google.Api S)
    (ttl : ℕ) (laws : ServesZones api)
    (hex : (bytes : Bytes) → IsHash (crypto.hex_encode (crypto.sha256 bytes)))
    (resolver : Text → Bool → MxResponse) (c : GenerateCommand) (opts : PublisherOpts) (s : S)
    (code : ℕ) (results : List GenerateResult) (s' : S) (targets : Targets)
    → from_flags c.publisher c.replace c.dryrun ≡ some opts
    → flags_kind c.publisher ≡ some PublisherKind.google
    → c.replace ≡ false
    → c.dryrun ≡ false
    → resolve_targets resolver c.zone c.hostname c.mx true ≡ some targets
    → run_generate crypto net (with_google ps api ttl) resolver c s ≡ some ((code, results), s')
    → ((zone : ManagedZone) (hostname : Option Text) (port : ℕ) (hash : Text)
        → HasHash crypto net api laws s zone hostname port hash
        → HasHash crypto net api laws s' zone hostname port hash)
      × (code ≡ 0
          → All
              (λ t.
                All
                  (λ port.
                    IsServed crypto net api laws (generate_args c opts) t.zone t.hostname port s')
                  c.ports)
              targets.hosts)
run_generate-present crypto net ps api ttl laws hex resolver c opts s code results s' targets o k m
      d found e =
    let (kept, present) =
      generate-present crypto net (with_google ps api ttl) PublisherKind.google
        (google-Serves api ttl laws) hex resolver c opts s code results s' targets o k m d found
        e in
    (
      kept.hashes,
      λ z.
          All-mono _ _ targets.hosts
            (λ t h.
              All-mono _ _ c.ports
                (λ port p. record {
                  cert = p.cert;
                  hash = p.hash;
                  zone = p.present.0;
                  presents = p.fetched;
                  hashed = p.hashed;
                  found = p.present.1;
                  present = p.present.2;
                })
                h)
            (present z),
    )
