-- ===== src/Commands/Codes/Rounds.antt =====
-- src/main.rs: the code and the result of `generate` and `prune`, and of a run of them.
use gentlsa.Prelude.{
  ℕ, ◌≡◌, ◌⊎◌, inl, inr, refl, Text, Bool, true, Option, none, some, List, [], map, All,
  bind-eq-some, some-inj, Bool-cases, Option-cases,
}
use mathlib.Core.Path.{subst}
use gentlsa.Tlsa.Owner.{connect_host}
use gentlsa.Tlsa.Target.{target_host}
use gentlsa.Dns.Mx.{MxResponse}
use gentlsa.Cert.{Crypto, Certificate, tlsa_record_data}
use gentlsa.Publish.Kind.{PublisherKind}
use gentlsa.Cli.{params}
use gentlsa.Targets.{
  Targets, resolve_targets, from_flags, require_targets_in_zone_for_publish,
  require_default_params_for_publish,
}
use gentlsa.Verify.{Network}
use gentlsa.Commands.{
  Publishers, PublishOutcome, published, not_managed, publish_cert, printed, details_of,
}
use gentlsa.Commands.Generate.{
  GenerateResult, GenerateArgs, generate, generate_cert, generated, publish_result, from_cert,
  unreachable,
}
use gentlsa.Commands.Runs.{GenerateCommand, generate_args, run_generate}
use gentlsa.Commands.Codes.{visits, IsStep, run_targets-Seen}

abbrev pub label : GenerateResult → Text × ℕ
label r = (r.host, r.port)

abbrev pub Good : GenerateResult → Type 0
Good r = r.error ≡ none

abbrev Ended : Text → ℕ → ℕ × GenerateResult → Type 0
Ended host port o = (label o.1 ≡ (host, port)) × (((o.0 ≡ 0) × Good o.1) ⊎ ((o.0 ≡ 1) × ¬ Good o.1))

generated-Ended :
    (kind : PublisherKind) (result : GenerateResult) (outcome : PublishOutcome)
    → Good result
    → Ended result.host result.port (generated kind result outcome)
unfolding generated
generated-Ended kind result (published report) g = (refl, inl (refl, g))
generated-Ended kind result (not_managed code) g = (refl, inr (refl, λ e. cc e))

module _ {W : Type 0} (crypto : Crypto) (net : Network) (ps : Publishers W) (a : GenerateArgs) where
  publish_result-Ended :
      (zone : Text) (port : ℕ) (hostname : Option Text) (cert : Certificate)
      (result : GenerateResult) (kind : Option PublisherKind) (w : W) (o : (ℕ × GenerateResult) × W)
      → Good result
      → publish_result crypto net ps a zone port hostname cert result kind w ≡ some o
      → Ended result.host result.port o.0
  unfolding publish_result
  publish_result-Ended zone port hostname cert result none w o g e =
      subst (λ o. Ended result.host result.port o.0) (some-inj ((0, result), w) o e)
        (refl, inl (refl, g))
  publish_result-Ended zone port hostname cert result (some kind) w o g e =
      let ((outcome, w'), _, k) =
        bind-eq-some (publish_cert ps crypto kind zone hostname port cert a.publisher w) _ _ e in
      subst (λ o. Ended result.host result.port o.0)
        (some-inj (generated kind result outcome, w') o k) (generated-Ended kind result outcome g)

  generate_cert-Ended :
      (zone : Text) (port : ℕ) (hostname : Option Text) (cert : Certificate) (w : W)
      (o : (ℕ × GenerateResult) × W)
      → generate_cert crypto net ps a zone port hostname cert w ≡ some o
      → Ended (connect_host zone hostname) port o.0
  unfolding generate_cert from_cert
  generate_cert-Ended zone port hostname cert w o e = elim (Bool-cases (printed net cert)) [
    | inl p ↦
        let (hash, _, e₁) = bind-eq-some (tlsa_record_data crypto cert a.params) _ _ (rw p at e) in
        let (details, _, e₂) = bind-eq-some (details_of net a.info cert) _ _ e₁ in
        publish_result-Ended zone port hostname cert
          (from_cert port (connect_host zone hostname) hostname a.params hash details)
          a.publisher.kind w o refl e₂
    | inr p ↦ cc (rw p at e)
  ]

  generate-Ended :
      (zone : Text) (port : ℕ) (hostname : Option Text) (w : W) (o : (ℕ × GenerateResult) × W)
      → generate crypto net ps a zone port hostname w ≡ some o
      → Ended (connect_host zone hostname) port o.0
  unfolding generate unreachable from_cert
  generate-Ended zone port hostname w o e =
      elim (Option-cases (net.fetch_live (connect_host zone hostname) port a.starttls zone)) [
        | inl f ↦
            subst (λ o. Ended (connect_host zone hostname) port o.0)
              (some-inj _ o (rw (f, generate) at e)) (refl, inr (refl, λ g. cc g))
        | inr (cert, f) ↦ generate_cert-Ended zone port hostname cert w o (rw (f, generate) at e)
      ]

  generate-IsStep : IsStep label Good (λ t port. generate crypto net ps a t.zone port t.hostname)
  unfolding target_host
  generate-IsStep t port w w' code result e =
      generate-Ended t.zone port t.hostname w ((code, result), w') e

-- A `generate` that finds its hosts and returns a code with results (no error of a publisher or of
-- the printing ends it) has a result for each host with each port, in order, and its exit code is 0 if
-- no result has an error and else 1: an error of a host is not hidden by a later host that is fine.
pub run_generate-results :
    {W : Type 0} (crypto : Crypto) (net : Network) (ps : Publishers W)
    (resolver : Text → Bool → MxResponse) (c : GenerateCommand) (w : W) (code : ℕ)
    (results : List GenerateResult) (w' : W) (targets : Targets)
    → resolve_targets resolver c.zone c.hostname c.mx true ≡ some targets
    → run_generate crypto net ps resolver c w ≡ some ((code, results), w')
    → (map label results ≡ visits targets.hosts c.ports)
      × (((code ≡ 0) × All Good results) ⊎ ((code ≡ 1) × ¬ All Good results))
unfolding run_generate
run_generate-results crypto net ps resolver c w code results w' targets found e =
    let (opts, _, e₁) = bind-eq-some (from_flags c.publisher c.replace c.dryrun) _ _ e in
    elim (Bool-cases (require_default_params_for_publish (params c.params) opts)) [
      | inl p ↦ elim (Bool-cases (require_targets_in_zone_for_publish c.zone targets.hosts opts)) [
        | inl z ↦
            run_targets-Seen label Good _ (generate-IsStep crypto net ps (generate_args c opts))
              targets.hosts c.ports 0 [] [] w code results w' (refl, inl (refl, tt))
              (rw (p, found, z) at e₁)
        | inr z ↦ cc (rw (p, found, z) at e₁)
      ]
      | inr p ↦ cc (rw p at e₁)
    ]
