-- ===== src/Commands/Codes.antt =====
-- src/main.rs: the exit code and the results of the loops over hosts and ports.
pub mod Rounds
use gentlsa.Prelude.{
  ℕ, ◌≡◌, ◌≢◌, ◌↔◌, ◌⊎◌, inl, inr, refl, sym, ap, ◌∙◌, Text, Bool, true, false, not, ◌||◌, Option,
  none, some, List, [], ◌∷◌, ◌++◌, map, if◌then◌else◌, ◌==◌, ◌>>=◌, All, All-append, append_assoc,
  append-nil, bind-eq-some, some-inj, Bool-cases, Option-cases, arith,
}
use mathlib.Core.Path.{subst}
use gentlsa.Tlsa.Target.{HostTarget, target_host}
use gentlsa.Commands.Runs.{run_ports, run_targets}

-- Each host with each port, in order.
abbrev pub visits : List HostTarget → List ℕ → List (Text × ℕ)
visits [] ports = []
visits (t ∷ targets) ports = map (λ port. (target_host t, port)) ports ++ visits targets ports

module _ {R : Type 0} (label : R → Text × ℕ) (Good : R → Type 0) where
  -- A code of 0 or 1, with results that are good or not.
  abbrev Judged : ℕ → List R → Type 0
  Judged code results = ((code ≡ 0) × All Good results) ⊎ ((code ≡ 1) × ¬ All Good results)

  -- What is known of the rounds so far.
  abbrev pub Seen : ℕ → List R → List (Text × ℕ) → Type 0
  Seen code results seen = (map label results ≡ seen) × Judged code results

  All-left : (xs ys : List R) → All Good (xs ++ ys) → All Good xs
  All-left [] ys h = tt
  All-left (x ∷ xs) ys (g, h) = (g, All-left xs ys h)

  All-right : (xs ys : List R) → All Good (xs ++ ys) → All Good ys
  All-right [] ys h = h
  All-right (x ∷ xs) ys (g, h) = All-right xs ys h

  map-append : (xs ys : List R) → map label (xs ++ ys) ≡ map label xs ++ map label ys
  map-append [] ys = refl
  map-append (x ∷ xs) ys = ap (λ l. label x ∷ l) (map-append xs ys)

  judge :
      (code : ℕ) (results : List R) (round : ℕ) (result : R)
      → Judged code results
      → ((round ≡ 0) × Good result) ⊎ ((round ≡ 1) × ¬ Good result)
      → Judged (if round == 0 then code else round) (results ++ result ∷ [])
  judge code results round result j (inr (o, bad)) =
      inr (rw o refl, λ h. bad (All-right results (result ∷ []) h).0)
  judge code results round result (inl (z, h)) (inl (o, good)) =
      inl (rw o z, All-append Good results (result ∷ []) h (good, tt))
  judge code results round result (inr (z, h)) (inl (o, good)) =
      inr (rw o z, λ k. h (All-left results (result ∷ []) k))

  module _ {W : Type 0} (step : HostTarget → ℕ → W → Option ((ℕ × R) × W)) where
    -- Each round has its label, and code 0 exactly if its result is good.
    abbrev pub IsStep : Type 0
    IsStep =
        (t : HostTarget) (port : ℕ) (w w' : W) (code : ℕ) (result : R)
        → step t port w ≡ some ((code, result), w')
        → (label result ≡ (target_host t, port))
          × (((code ≡ 0) × Good result) ⊎ ((code ≡ 1) × ¬ Good result))

    run_ports-Seen :
        IsStep
        → (t : HostTarget) (ports : List ℕ) (code : ℕ) (results : List R) (seen : List (Text × ℕ))
          (w : W)
        → (code' : ℕ) (results' : List R) (w' : W) → Seen code results seen
        → run_ports step t ports code results w ≡ some ((code', results'), w')
        → Seen code' results' (seen ++ map (λ port. (target_host t, port)) ports)
    unfolding run_ports
    run_ports-Seen h t [] code results seen w code' results' w' (l, j) e =
        subst (λ o. Seen o.0.0 o.0.1 (seen ++ []))
          (some-inj ((code, results), w) ((code', results'), w') e) (l ∙ sym (append-nil seen), j)
    run_ports-Seen h t (port ∷ ports) code results seen w code' results' w' (l, j) e =
        let (((c, r), w₁), found, rest) = bind-eq-some (step t port w) _ _ e in
        let (lr, jr) = h t port w w₁ c r found in
        subst (Seen code' results') (append_assoc seen ((target_host t, port) ∷ []) _) (
          run_ports-Seen h t ports (if c == 0 then code else c) (results ++ r ∷ [])
            (seen ++ (target_host t, port) ∷ []) w₁ code' results' w'
            (map-append results (r ∷ []) ∙ cc (l, lr), judge code results c r j jr) rest)

    pub run_targets-Seen :
        IsStep
        → (targets : List HostTarget) (ports : List ℕ) (code : ℕ) (results : List R)
          (seen : List (Text × ℕ)) (w : W)
        → (code' : ℕ) (results' : List R) (w' : W) → Seen code results seen
        → run_targets step targets ports code results w ≡ some ((code', results'), w')
        → Seen code' results' (seen ++ visits targets ports)
    unfolding run_targets
    run_targets-Seen h [] ports code results seen w code' results' w' (l, j) e =
        subst (λ o. Seen o.0.0 o.0.1 (seen ++ []))
          (some-inj ((code, results), w) ((code', results'), w') e) (l ∙ sym (append-nil seen), j)
    run_targets-Seen h (t ∷ targets) ports code results seen w code' results' w' s e =
        let (((c, rs), w₁), found, rest) =
          bind-eq-some (run_ports step t ports code results w) _ _ e in
        subst (Seen code' results')
          (append_assoc seen (map (λ port. (target_host t, port)) ports) _)
          (run_targets-Seen h targets ports c rs (seen ++ map (λ port. (target_host t, port)) ports)
            w₁ code' results' w' (run_ports-Seen h t ports code results seen w c rs w₁ s found)
            rest)
