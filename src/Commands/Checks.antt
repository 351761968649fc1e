-- ===== src/Commands/Checks.antt =====
-- src/main.rs: `verify` over hosts and ports.
use gentlsa.Prelude.{
  ℕ, ◌≡◌, ◌≤◌, ◌↔◌, refl, sym, ap, ◌∙◌, Text, Bool, true, false, not, none, some, List, [], ◌∷◌,
  ◌++◌, map, ltb, ltb→lt, All, All-append, inl, inr, Bool-cases, Option-cases, arith,
}
use gentlsa.Tlsa.Target.{HostTarget}
use gentlsa.Dns.Mx.{MxResponse}
use gentlsa.Cert.{Crypto}
use gentlsa.Report.{worst_verify_exit}
use gentlsa.Report.Ranks.{IsExit, worst_verify_exit_lem}
use gentlsa.Targets.{Targets, resolve_targets}
use gentlsa.Verify.{Network, VerifyArgs, VerifyResult}
use gentlsa.Verify.Verdict.{Passes, verify_exit_zero}
use gentlsa.Verify.Exits.{verify-IsExit}
use gentlsa.Commands.Runs.{VerifyCommand, verify_args, verify_ports, verify_targets, run_verify}

abbrev exits : List VerifyResult → List ℕ
exits results = map (λ (r : VerifyResult). r.exit) results

abbrev AllZero : List VerifyResult → Type 0
AllZero results = All (λ e. e ≡ 0) (exits results)

exits-append : (xs ys : List VerifyResult) → exits (xs ++ ys) ≡ exits xs ++ exits ys
exits-append [] ys = refl
exits-append (x ∷ xs) ys = ap (λ l. x.exit ∷ l) (exits-append xs ys)

zero-append : (xs ys : List VerifyResult) → AllZero (xs ++ ys) ↔ (AllZero xs × AllZero ys)
zero-append [] ys = (λ h. (tt, h), λ (h, k). k)
zero-append (x ∷ xs) ys = (
  λ (z, h). let (k, l) = (zero-append xs ys).0 h in ((z, k), l),
  λ ((z, k), l). (z, (zero-append xs ys).1 (k, l)),
)

worst_zero : (es : List ℕ) → All IsExit es → (worst_verify_exit es ≡ 0) ↔ All (λ e. e ≡ 0) es
unfolding worst_verify_exit
worst_zero [] h = (λ e. tt, λ h. refl)
worst_zero (e ∷ es) h = (worst_verify_exit_lem e es h).2

module _ (crypto : Crypto) (net : Network) where
  ports-IsExit :
      (a : ℕ → VerifyArgs) (ports : List ℕ) → All IsExit (exits (verify_ports crypto net a ports))
  unfolding verify_ports
  ports-IsExit a [] = tt
  ports-IsExit a (port ∷ ports) = (verify-IsExit crypto net (a port), ports-IsExit a ports)

  targets-IsExit :
      (a : HostTarget → ℕ → VerifyArgs) (targets : List HostTarget) (ports : List ℕ)
      → All IsExit (exits (verify_targets crypto net a targets ports))
  unfolding verify_targets
  targets-IsExit a [] ports = tt
  targets-IsExit a (t ∷ targets) ports =
      rw
        (exits-append (verify_ports crypto net (a t) ports)
          (verify_targets crypto net a targets ports))
        (All-append IsExit (exits (verify_ports crypto net (a t) ports))
          (exits (verify_targets crypto net a targets ports)) (ports-IsExit (a t) ports)
          (targets-IsExit a targets ports))

  zero_ports :
      (a : ℕ → VerifyArgs) (ports : List ℕ)
      → AllZero (verify_ports crypto net a ports) ↔ All (λ port. Passes crypto net (a port)) ports
  unfolding verify_ports
  zero_ports a [] = (λ h. tt, λ h. tt)
  zero_ports a (port ∷ ports) =
      let (f, g) = verify_exit_zero crypto net (a port) in
      (λ (z, h). (f z, (zero_ports a ports).0 h), λ (p, h). (g p, (zero_ports a ports).1 h))

  zero_targets :
      (a : HostTarget → ℕ → VerifyArgs) (targets : List HostTarget) (ports : List ℕ)
      → AllZero (verify_targets crypto net a targets ports)
        ↔ All (λ t. All (λ port. Passes crypto net (a t port)) ports) targets
  unfolding verify_targets
  zero_targets a [] ports = (λ h. tt, λ h. tt)
  zero_targets a (t ∷ targets) ports =
      let (f, g) =
        zero-append (verify_ports crypto net (a t) ports)
          (verify_targets crypto net a targets ports) in
      (
        λ h. let (x, y) = f h in ((zero_ports (a t) ports).0 x, (zero_targets a targets ports).0 y),
        λ (x, y). g ((zero_ports (a t) ports).1 x, (zero_targets a targets ports).1 y),
      )

  module _ (resolver : Text → Bool → MxResponse) (c : VerifyCommand) where
    -- The hosts are found, and each passes on each port.
    abbrev pub AllPass : Type 0
    AllPass =
        (targets : Targets) × (resolve_targets resolver c.zone c.hostname c.mx
            (not c.no_dnssec_check)
          ≡ some targets)
        × All
            (λ t. All (λ port. Passes crypto net (verify_args c targets.mx_dnssec t port)) c.ports)
            targets.hosts

    run_verify-limits : ltb c.warn c.critical ≡ true → (run_verify crypto net resolver c).0 ≡ 3
    unfolding run_verify
    run_verify-limits k = rw k refl

    run_verify-lost :
        ltb c.warn c.critical ≡ false
        → resolve_targets resolver c.zone c.hostname c.mx (not c.no_dnssec_check) ≡ none
        → (run_verify crypto net resolver c).0 ≡ 3
    unfolding run_verify
    run_verify-lost k e = rw (k, e) refl

    run_verify-found :
        (targets : Targets)
        → ltb c.warn c.critical ≡ false
        → resolve_targets resolver c.zone c.hostname c.mx (not c.no_dnssec_check) ≡ some targets
        → (run_verify crypto net resolver c).0
          ≡ worst_verify_exit (
              exits
                (verify_targets crypto net (verify_args c targets.mx_dnssec) targets.hosts c.ports))
    unfolding run_verify
    run_verify-found targets k e = rw (k, e) refl

    found_zero :
        (targets : Targets)
        → ltb c.warn c.critical ≡ false
        → resolve_targets resolver c.zone c.hostname c.mx (not c.no_dnssec_check) ≡ some targets
        → ((run_verify crypto net resolver c).0 ≡ 0)
          ↔ All
              (λ t.
                All (λ port. Passes crypto net (verify_args c targets.mx_dnssec t port)) c.ports)
              targets.hosts
    found_zero targets k e =
        let a = verify_args c targets.mx_dnssec in
        let (f, g) = worst_zero _ (targets-IsExit a targets.hosts c.ports) in
        let (f', g') = zero_targets a targets.hosts c.ports in
        let code = run_verify-found targets k e in
        (λ z. f' (f (sym code ∙ z)), λ h. code ∙ g (g' h))

    ordered_zero :
        ltb c.warn c.critical ≡ false → ((run_verify crypto net resolver c).0 ≡ 0) ↔ AllPass
    ordered_zero k =
        elim (Option-cases
          (resolve_targets resolver c.zone c.hostname c.mx (not c.no_dnssec_check))) [
            | inl e ↦ (
              λ z. absurd (omega (arith, sym (run_verify-lost k e) ∙ z)),
              λ (targets, found, _). absurd (cc (e, found)),
            )
            | inr (targets, e) ↦
                let (f, g) = found_zero targets k e in
                (λ z. (targets, e, f z), λ (targets', e', h). (found_zero targets' k e').1 h)
          ]

    -- The exit code of `verify` over its hosts and ports is 0 exactly when the critical limit is not above
    -- the warning limit, the hosts are found, and each host passes on each port.
    pub run_verify_zero :
        ((run_verify crypto net resolver c).0 ≡ 0) ↔ ((c.critical ≤ c.warn) × AllPass)
    run_verify_zero = elim (Bool-cases (ltb c.warn c.critical)) [
      | inl k ↦ (
        λ z. absurd (omega (arith, sym (run_verify-limits k) ∙ z)),
        λ (le, _). absurd (omega (arith, le, ltb→lt c.warn c.critical k)),
      )
      | inr k ↦ let (f, g) = ordered_zero k in (λ z. (ground (arith, k), f z), λ (_, h). g h)
    ]
