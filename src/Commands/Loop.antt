-- ===== src/Commands/Loop.antt =====
-- src/main.rs: what the rounds of a loop over hosts and ports make and keep.
use gentlsa.Prelude.{
  ℕ, ◌≡◌, ap, ◌∙◌, Option, some, List, [], ◌∷◌, ◌++◌, if◌then◌else◌, ◌==◌, All, All-mono,
  bind-eq-some, some-inj, arith,
}
use mathlib.Core.Path.{subst}
use gentlsa.Tlsa.Target.{HostTarget}
use gentlsa.Commands.Runs.{run_ports, run_targets}

module _ {W R : Type 0} (Rel : W → W → Type 0) (stay : (w : W) → Rel w w)
    (chain : (a b c : W) → Rel a b → Rel b c → Rel a c) (Q : HostTarget → ℕ → W → Type 0)
    (stable : (t : HostTarget) (port : ℕ) (w w' : W) → Rel w w' → Q t port w → Q t port w')
    (step : HostTarget → ℕ → W → Option ((ℕ × R) × W)) where
  -- A round keeps what there is, and with code 0 it makes `Q`.
  abbrev Makes : Type 0
  Makes =
      (t : HostTarget) (port : ℕ) (w w' : W) (code : ℕ) (result : R)
      → step t port w ≡ some ((code, result), w')
      → Rel w w' × (code ≡ 0 → Q t port w')

  ports-Makes :
      Makes
      → (t : HostTarget) (ports : List ℕ) (code : ℕ) (results : List R) (w : W) (code' : ℕ)
        (results' : List R) (w' : W)
      → run_ports step t ports code results w ≡ some ((code', results'), w')
      → Rel w w' × (code' ≡ 0 → (code ≡ 0) × All (λ port. Q t port w') ports)
  unfolding run_ports
  ports-Makes h t [] code results w code' results' w' e =
      let o = some-inj ((code, results), w) ((code', results'), w') e in
      (subst (Rel w) (ap (λ x. x.1) o) (stay w), λ z. (ap (λ x. x.0.0) o ∙ z, tt))
  ports-Makes h t (port ∷ ports) code results w code' results' w' e =
      let (((c, r), w₁), found, rest) = bind-eq-some (step t port w) _ _ e in
      let (k, q) = h t port w w₁ c r found in
      let (l, all_q) =
        ports-Makes h t ports (if c == 0 then code else c) (results ++ r ∷ []) w₁ code' results' w'
          rest in
      (
        chain w w₁ w' k l,
        λ z.
            let (zc, qs) = all_q z in
            let both : (code ≡ 0) × (c ≡ 0) = ground (arith, zc) in
            (both.0, (stable t port w₁ w' l (q both.1), qs)),
      )

  pub targets-Makes :
      Makes
      → (targets : List HostTarget) (ports : List ℕ) (code : ℕ) (results : List R) (w : W)
        (code' : ℕ) (results' : List R) (w' : W)
      → run_targets step targets ports code results w ≡ some ((code', results'), w')
      → Rel w w' × (code' ≡ 0 → (code ≡ 0) × All (λ t. All (λ port. Q t port w') ports) targets)
  unfolding run_targets
  targets-Makes h [] ports code results w code' results' w' e =
      let o = some-inj ((code, results), w) ((code', results'), w') e in
      (subst (Rel w) (ap (λ x. x.1) o) (stay w), λ z. (ap (λ x. x.0.0) o ∙ z, tt))
  targets-Makes h (t ∷ targets) ports code results w code' results' w' e =
      let (((c, rs), w₁), found, rest) =
        bind-eq-some (run_ports step t ports code results w) _ _ e in
      let (k, q) = ports-Makes h t ports code results w c rs w₁ found in
      let (l, all_q) = targets-Makes h targets ports c rs w₁ code' results' w' rest in
      (
        chain w w₁ w' k l,
        λ z.
            let (zc, qs) = all_q z in
            let (z', ps) = q zc in
            (z', (All-mono _ _ ports (λ port. stable t port w₁ w' l) ps, qs)),
      )
