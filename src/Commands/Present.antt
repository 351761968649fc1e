-- ===== src/Commands/Present.antt =====
-- src/main.rs: what the zones hold behind a run of `generate` with a publisher.
use gentlsa.Prelude.{
  ℕ, ◌≡◌, inl, inr, refl, sym, ap, ◌∙◌, Text, Bool, true, false, not, ◌&&◌, Option, some, List, [],
  All, bind-eq-some, some-inj, Bool-cases, Option-cases, arith,
}
use mathlib.Core.Path.{subst}
use gentlsa.Tlsa.Owner.{connect_host}
use gentlsa.Tlsa.Target.{HostTarget}
use gentlsa.Dns.Mx.{MxResponse}
use gentlsa.Cert.{Bytes, Crypto, Certificate, spki_sha256_hex, tlsa_record_data}
use gentlsa.Publish.Printed.{IsHash}
use gentlsa.Publish.Kind.{PublisherKind}
use gentlsa.Cli.{flags_kind, params}
use gentlsa.Targets.{
  Targets, PublisherOpts, resolve_targets, from_flags, has_kind,
  require_targets_in_zone_for_publish, require_default_params_for_publish,
}
use gentlsa.Verify.{Network}
use gentlsa.Commands.{Publishers, PublishOutcome, not_managed, publish_cert, printed, details_of}
use gentlsa.Commands.Generate.{
  GenerateResult, GenerateArgs, generate, generate_cert, generated, publish_result, from_cert,
}
use gentlsa.Commands.Runs.{run_targets, GenerateCommand, generate_args, run_generate}
use gentlsa.Commands.Serves.{
  Serves, Keeps, Keeps-refl, Keeps-trans, IsPresent, IsPresent-Keeps, provider_of,
  publish_hash-IsPresent,
}
use gentlsa.Commands.Loop.{targets-Makes}

module _ {W : Type 0} (crypto : Crypto) (net : Network) (ps : Publishers W) (kind : PublisherKind)
    (serves : Serves (provider_of ps kind))
    (hex : (bytes : Bytes) → IsHash (crypto.hex_encode (crypto.sha256 bytes))) where
  abbrev Kept : W → W → Type 0
  Kept = Keeps (provider_of ps kind) serves

  -- The hash of the certificate that a host presents is at its owner.
  pub record IsPublished (a : GenerateArgs) (zone : Text) (hostname : Option Text) (port : ℕ)
      (w : W) : Type 0 where
    pub cert : Certificate
    pub hash : Text
    pub fetched : net.fetch_live (connect_host zone hostname) port a.starttls zone ≡ some cert
    pub hashed : spki_sha256_hex crypto cert ≡ some hash
    pub present : IsPresent (provider_of ps kind) serves zone hostname port hash w

  module _ (a : GenerateArgs) (k : a.publisher.kind ≡ some kind) (m : a.publisher.replace ≡ false)
      (d : a.publisher.dryrun ≡ false) where
    spki-IsHash :
        (cert : Certificate) (hash : Text) → spki_sha256_hex crypto cert ≡ some hash → IsHash hash
    unfolding spki_sha256_hex
    spki-IsHash cert hash e =
        let (key, _, f) = bind-eq-some (crypto.public_key cert.der) _ _ e in
        subst IsHash (some-inj _ hash f) (hex key)

    generated_zero :
        (result : GenerateResult) (outcome : PublishOutcome) (c : Text)
        → outcome ≡ not_managed c
        → (generated kind result outcome).0 ≡ 1
    unfolding generated
    generated_zero result outcome c e = rw e refl

    publish_result-Makes :
        (zone : Text) (port : ℕ) (hostname : Option Text) (cert : Certificate)
        (result : GenerateResult) (w w' : W) (o : ℕ × GenerateResult)
        → net.fetch_live (connect_host zone hostname) port a.starttls zone ≡ some cert
        → publish_result crypto net ps a zone port hostname cert result (some kind) w ≡ some (o, w')
        → Kept w w' × (o.0 ≡ 0 → IsPublished a zone hostname port w')
    unfolding publish_result publish_cert
    publish_result-Makes zone port hostname cert result w w' o f e =
        let ((outcome, w₁), sent, e₁) =
          bind-eq-some (publish_cert ps crypto kind zone hostname port cert a.publisher w) _ _ e in
        let (hash, hashed, sent₁) = bind-eq-some (spki_sha256_hex crypto cert) _ _ sent in
        let same = some-inj (generated kind result outcome, w₁) (o, w') e₁ in
        let sent₂ = sent₁ ∙ ap (λ x. some (outcome, x.1)) same in
        let (kept, either) =
          publish_hash-IsPresent ps kind serves zone hostname port hash a.publisher w w' outcome m d
            (spki-IsHash cert hash hashed) sent₂ in
        (
          kept,
          λ z. elim either [
            | inl (report, _, present) ↦ record {
              cert = cert;
              hash = hash;
              fetched = f;
              hashed = hashed;
              present = present;
            }
            | inr (c, refused) ↦ absurd (
                omega
                  (arith, sym (generated_zero result outcome c refused) ∙ ap (λ x. x.0.0) same ∙ z))
          ],
        )

    generate_cert-Makes :
        (zone : Text) (port : ℕ) (hostname : Option Text) (cert : Certificate) (w w' : W)
        (o : ℕ × GenerateResult)
        → net.fetch_live (connect_host zone hostname) port a.starttls zone ≡ some cert
        → generate_cert crypto net ps a zone port hostname cert w ≡ some (o, w')
        → Kept w w' × (o.0 ≡ 0 → IsPublished a zone hostname port w')
    unfolding generate_cert
    generate_cert-Makes zone port hostname cert w w' o f e = elim (Bool-cases (printed net cert)) [
      | inr p ↦ cc (rw p at e)
      | inl p ↦
          let (data_hash, _, e₁) =
            bind-eq-some (tlsa_record_data crypto cert a.params) _ _ (rw p at e) in
          let (details, _, e₂) = bind-eq-some (details_of net a.info cert) _ _ e₁ in
          let result =
            from_cert port (connect_host zone hostname) hostname a.params data_hash details in
          publish_result-Makes zone port hostname cert result w w' o f (
            subst
              (λ x.
                publish_result crypto net ps a zone port hostname cert result x w ≡ some (o, w'))
              k e₂)
    ]

    generate-Makes :
        (zone : Text) (port : ℕ) (hostname : Option Text) (w w' : W) (o : ℕ × GenerateResult)
        → generate crypto net ps a zone port hostname w ≡ some (o, w')
        → Kept w w' × (o.0 ≡ 0 → IsPublished a zone hostname port w')
    unfolding generate
    generate-Makes zone port hostname w w' o e =
        elim (Option-cases (net.fetch_live (connect_host zone hostname) port a.starttls zone)) [
          | inl f ↦
              let same = some-inj _ (o, w') (rw (f, generate) at e) in
              (
                subst (Kept w) (ap (λ x. x.1) same) (Keeps-refl (provider_of ps kind) serves w),
                λ z. absurd (omega (arith, ap (λ x. x.0.0) same, z)),
              )
          | inr (cert, f) ↦
              generate_cert-Makes zone port hostname cert w w' o f (rw (f, generate) at e)
        ]

    IsPublished-Keeps :
        (zone : Text) (hostname : Option Text) (port : ℕ) (w w' : W)
        → Kept w w'
        → IsPublished a zone hostname port w
        → IsPublished a zone hostname port w'
    IsPublished-Keeps zone hostname port w w' kept h = record {
      cert = h.cert;
      hash = h.hash;
      fetched = h.fetched;
      hashed = h.hashed;
      present =
          IsPresent-Keeps (provider_of ps kind) serves zone hostname port h.hash w w' kept
            h.present;
    }

    runs-Makes :
        (targets : List HostTarget) (ports : List ℕ) (w : W) (code : ℕ)
        (results : List GenerateResult) (w' : W)
        → run_targets
            (λ t port. generate crypto net ps a t.zone port t.hostname)
            targets
            ports
            0
            []
            w
          ≡ some ((code, results), w')
        → Kept w w'
          × (code ≡ 0
              → All (λ t. All (λ port. IsPublished a t.zone t.hostname port w') ports) targets)
    runs-Makes targets ports w code results w' e =
        let (kept, h) =
          targets-Makes Kept (Keeps-refl (provider_of ps kind) serves)
            (Keeps-trans (provider_of ps kind) serves)
            (λ t port. IsPublished a t.zone t.hostname port)
            (λ t port w w' kept. IsPublished-Keeps t.zone t.hostname port w w' kept)
            (λ t port. generate crypto net ps a t.zone port t.hostname)
            (λ t port w w' code result. generate-Makes t.zone port t.hostname w w' (code, result))
            targets ports 0 [] w code results w' e in
        (kept, λ z. (h z).1)

from_flags-kind :
    (c : GenerateCommand) (opts : PublisherOpts)
    → from_flags c.publisher c.replace c.dryrun ≡ some opts
    → (opts.kind ≡ flags_kind c.publisher) × (opts.replace ≡ c.replace) × (opts.dryrun ≡ c.dryrun)
unfolding from_flags
from_flags-kind c opts e =
    elim (Bool-cases (c.replace && not (has_kind (flags_kind c.publisher)))) [
      | inl k ↦ cc (rw k at e)
      | inr k ↦
          let o = some-inj _ opts (rw k at e) in
          (sym (ap (λ x. x.kind) o), sym (ap (λ x. x.replace) o), sym (ap (λ x. x.dryrun) o))
    ]

-- The same of a run of `generate` that neither replaces nor is dry, for the hashes of its digests.
pub generate-present :
    {W : Type 0} (crypto : Crypto) (net : Network) (ps : Publishers W) (kind : PublisherKind)
    (serves : Serves (provider_of ps kind))
    (hex : (bytes : Bytes) → IsHash (crypto.hex_encode (crypto.sha256 bytes)))
    (resolver : Text → Bool → MxResponse) (c : GenerateCommand) (opts : PublisherOpts) (w : W)
    (code : ℕ) (results : List GenerateResult) (w' : W) (targets : Targets)
    → from_flags c.publisher c.replace c.dryrun ≡ some opts
    → flags_kind c.publisher ≡ some kind
    → c.replace ≡ false
    → c.dryrun ≡ false
    → resolve_targets resolver c.zone c.hostname c.mx true ≡ some targets
    → run_generate crypto net ps resolver c w ≡ some ((code, results), w')
    → Keeps (provider_of ps kind) serves w w'
      × (code ≡ 0
          → All
              (λ t.
                All
                  (λ port.
                    IsPublished crypto net ps kind serves hex
                      (generate_args c opts)
                      t.zone
                      t.hostname
                      port
                      w')
                  c.ports)
              targets.hosts)
unfolding run_generate
generate-present crypto net ps kind serves hex resolver c opts w code results w' targets o k m d
      found e =
    let (ko, mo, do') = from_flags-kind c opts o in
    elim (Bool-cases (require_default_params_for_publish (params c.params) opts)) [
      | inl p ↦ elim (Bool-cases (require_targets_in_zone_for_publish c.zone targets.hosts opts)) [
        | inl z ↦
            runs-Makes crypto net ps kind serves hex (generate_args c opts) (ko ∙ k) (mo ∙ m)
              (do' ∙ d) targets.hosts c.ports w code results w' (rw (o, p, found, z) at e)
        | inr z ↦ cc (rw (o, p, found, z) at e)
      ]
      | inr p ↦ cc (rw (o, p) at e)
    ]
