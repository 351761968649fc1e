-- ===== src/Verify/Verdict.antt =====
-- src/main.rs, `verify`: lemmas on its exit code.
use gentlsa.Prelude.{
  ℕ, ◌≡◌, ◌≢◌, refl, sym, ◌∙◌, ap, Text, Bool, true, false, Option, none, some, List, [], ◌∷◌,
  arith, Any, inl, inr, Option-cases, ◌↔◌, map,
}
use gentlsa.Prelude.Int.{pos, leb_ℤ}
use gentlsa.Tlsa.Owner.{fqdn, connect_host}
use gentlsa.Dns.{TlsaRecord, DnssecStatus, TlsaLookup}
use gentlsa.Cert.{Crypto, Certificate, CertLifetime, lifetime_at, matches_tlsa, spki_sha256_hex}
use gentlsa.Report.{VerifyOutcome, unknown, any_matched, verify_outcome, apply_dnssec, tlsa, mx}
use gentlsa.Report.Ranks.{apply_expiry_exit, apply_dnssec_exit, IsAuthenticated}
use gentlsa.Verify.{
  aged, VerifyArgs, Network, CertDetails, verdict, verify, verify_cert, lookup, info_block, fail,
  result_of, unmatched,
}

-- The certificate is valid for longer than both limits, where they are given.
abbrev pub IsFresh : Option (ℕ × ℕ) → CertLifetime → Type 0
IsFresh none lifetime = Unit
IsFresh (some limits) lifetime =
    (lifetime.not_yet_valid ≡ false)
    × (leb_ℤ lifetime.days_left (pos limits.1) ≡ false)
    × (leb_ℤ lifetime.days_left (pos limits.0) ≡ false)

abbrev IsMatch : Option Bool → Type 0
IsMatch m = m ≡ some true

any_matched_iff : (ms : List (Option Bool)) → (any_matched ms ≡ true) ↔ Any IsMatch ms
unfolding any_matched
any_matched_iff [] = ground arith
any_matched_iff (none ∷ ms) = ground (arith, any_matched_iff ms)
any_matched_iff (some m ∷ ms) = ground (arith, any_matched_iff ms)

outcome_exit :
    (live : Text) (records : List TlsaRecord) (ms : List (Option Bool))
    → ((verify_outcome (some live) records ms).exit ≡ 0) ↔ ((records ≢ []) × Any IsMatch ms)
unfolding verify_outcome
outcome_exit live [] ms = ground arith
outcome_exit live (r ∷ rs) ms = ground (arith, any_matched_iff ms)

aged_exit :
    (o : VerifyOutcome) (expiry : Option (ℕ × ℕ)) (l : CertLifetime)
    → ((aged o expiry l).exit ≡ 0) ↔ ((o.exit ≡ 0) × IsFresh expiry l)
unfolding aged
aged_exit o none l = ground arith
aged_exit o (some limits) l =
    ground (arith, apply_expiry_exit o l.days_left l.not_yet_valid limits.0 limits.1)

verdict_exit :
    (h : Text) (records : List TlsaRecord) (ms : List (Option Bool)) (expiry : Option (ℕ × ℕ))
    (l : CertLifetime) (s m : Option DnssecStatus)
    → ((verdict h records ms expiry l s m).exit ≡ 0)
      ↔ ((records ≢ []) × Any IsMatch ms × IsFresh expiry l × IsAuthenticated s × IsAuthenticated m)
verdict_exit h records ms expiry l s m =
    let found = verify_outcome (some h) records ms in
    let o = outcome_exit h records ms in
    let a = aged_exit found expiry l in
    let d = apply_dnssec_exit (aged found expiry l) s tlsa in
    let e = apply_dnssec_exit (apply_dnssec (aged found expiry l) s tlsa) m mx in
    unfold verdict in
    (
      (λ z.
          let (z1, hm) = e.0 z in
          let (z2, hs) = d.0 z1 in
          let (z3, hf) = a.0 z2 in let (ne, any) = o.0 z3 in (ne, any, hf, hs, hm)),
      (λ (ne, any, hf, hs, hm). e.1 (d.1 (a.1 (o.1 (ne, any), hf), hs), hm)),
    )

fail-exit :
    (a : VerifyArgs) (dns : List _) (info : Option CertDetails) (s : Option DnssecStatus)
    → (fail a dns info s).exit ≢ 0
unfolding fail result_of verify_outcome
fail-exit a dns info s z =
    let (bad, _) = (apply_dnssec_exit unknown a.mx_dnssec mx).0 z in ground (arith, bad)

module _ (crypto : Crypto) (net : Network) where
  -- What a run of `verify` needs for the exit code 0: the lookup, the connection, the details and
  -- the hash succeed, a record matches the certificate, which is fresh, and no DNSSEC verdict
  -- other than secure was given.
  pub record Passes (a : VerifyArgs) : Type 0 where
    pub found : TlsaLookup
    pub cert : Certificate
    pub info : Option CertDetails
    pub hash : Text
    pub looked : lookup net a.dnssec_check (fqdn a.zone a.port a.hostname) ≡ some found
    pub fetched :
        net.fetch_live (connect_host a.zone a.hostname) a.port a.starttls a.zone ≡ some cert
    pub detailed : info_block net a.info cert ≡ some info
    pub hashed : spki_sha256_hex crypto cert ≡ some hash
    pub matched : Any (λ r. matches_tlsa crypto cert r ≡ some true) found.records
    pub fresh : IsFresh a.expiry (lifetime_at cert net.now)
    pub authenticated : IsAuthenticated found.dnssec
    pub mx_authenticated : IsAuthenticated a.mx_dnssec

  map-IsMatch :
      (c : Certificate) (rs : List TlsaRecord)
      → Any IsMatch (map (matches_tlsa crypto c) rs)
        ↔ Any (λ r. matches_tlsa crypto c r ≡ some true) rs
  map-IsMatch c [] = ground arith
  map-IsMatch c (r ∷ rs) = ground (arith, map-IsMatch c rs)

  Any-nonempty :
      (c : Certificate) (rs : List TlsaRecord)
      → Any (λ r. matches_tlsa crypto c r ≡ some true) rs
      → rs ≢ []
  Any-nonempty c [] m = absurd m
  Any-nonempty c (r ∷ rs) m = ground arith

  cert-exit :
      (a : VerifyArgs) (found : TlsaLookup) (c : Certificate) (info : Option CertDetails) (h : Text)
      → spki_sha256_hex crypto c ≡ some h
      → ((verify_cert crypto net a found c info).exit ≡ 0) ↔ (
          Any (λ r. matches_tlsa crypto c r ≡ some true) found.records
          × IsFresh a.expiry (lifetime_at c net.now)
          × IsAuthenticated found.dnssec
          × IsAuthenticated a.mx_dnssec)
  unfolding verify_cert result_of
  cert-exit a found c info h e =
      let ms = map (matches_tlsa crypto c) found.records in
      let v =
        verdict_exit h found.records ms a.expiry (lifetime_at c net.now) found.dnssec a.mx_dnssec in
      rw (e, verify_cert)
        (
          (λ z.
              let (_, any, hf, hs, hm) = v.0 z in
              ((map-IsMatch c found.records).0 any, hf, hs, hm)),
          (λ (any, hf, hs, hm).
              v.1 (
                Any-nonempty c found.records any,
                (map-IsMatch c found.records).1 any,
                hf,
                hs,
                hm,
              )),
        )

  verify_run :
      (a : VerifyArgs) (found : TlsaLookup) (c : Certificate) (info : Option CertDetails)
      → lookup net a.dnssec_check (fqdn a.zone a.port a.hostname) ≡ some found
      → net.fetch_live (connect_host a.zone a.hostname) a.port a.starttls a.zone ≡ some c
      → info_block net a.info c ≡ some info
      → verify crypto net a ≡ verify_cert crypto net a found c info
  unfolding verify
  verify_run a found c info el ec ei = rw (el, ec, ei, verify) refl

  hash_of_exit :
      (a : VerifyArgs) (found : TlsaLookup) (c : Certificate) (info : Option CertDetails)
      → (verify_cert crypto net a found c info).exit ≡ 0
      → (h : Text) × (spki_sha256_hex crypto c ≡ some h)
  unfolding verify_cert
  hash_of_exit a found c info z = elim (Option-cases (spki_sha256_hex crypto c)) [
    | inl e ↦
        absurd (fail-exit a (unmatched found.records) info found.dnssec (rw (e, verify_cert) at z))
    | inr s ↦ s
  ]

  runs_of_exit :
      (a : VerifyArgs)
      → (verify crypto net a).exit ≡ 0
      → (found : TlsaLookup) × (c : Certificate) × (info : Option CertDetails) × (lookup net
            a.dnssec_check
            (fqdn a.zone a.port a.hostname)
          ≡ some found)
        × (net.fetch_live (connect_host a.zone a.hostname) a.port a.starttls a.zone ≡ some c)
        × (info_block net a.info c ≡ some info)
  unfolding verify
  runs_of_exit a z =
      elim (Option-cases (lookup net a.dnssec_check (fqdn a.zone a.port a.hostname))) [
        | inl e ↦ absurd (fail-exit a [] none none (rw (e, verify) at z))
        | inr (found, el) ↦
            elim (Option-cases
              (net.fetch_live (connect_host a.zone a.hostname) a.port a.starttls a.zone)) [
                | inl e ↦ absurd (
                    fail-exit a (unmatched found.records) none found.dnssec
                      (rw (el, e, verify) at z))
                | inr (c, ec) ↦ elim (Option-cases (info_block net a.info c)) [
                  | inl e ↦ absurd (
                      fail-exit a (unmatched found.records) none found.dnssec
                        (rw (el, ec, e, verify) at z))
                  | inr (info, ei) ↦ (found, c, info, el, ec, ei)
                ]
              ]
      ]

  -- `verify` exits with 0 exactly when it passes.
  pub verify_exit_zero : (a : VerifyArgs) → ((verify crypto net a).exit ≡ 0) ↔ Passes a
  verify_exit_zero a = (
    (λ z.
        let (found, c, info, el, ec, ei) = runs_of_exit a z in
        let z' = sym (ap (λ v. v.exit) (verify_run a found c info el ec ei)) ∙ z in
        let (h, eh) = hash_of_exit a found c info z' in
        let (m, f, s, x) = (cert-exit a found c info h eh).0 z' in
        record {
          found = found;
          cert = c;
          info = info;
          hash = h;
          looked = el;
          fetched = ec;
          detailed = ei;
          hashed = eh;
          matched = m;
          fresh = f;
          authenticated = s;
          mx_authenticated = x;
        }),
    (λ p.
        ap (λ v. v.exit) (verify_run a p.found p.cert p.info p.looked p.fetched p.detailed)
        ∙ (cert-exit a p.found p.cert p.info p.hash p.hashed).1
            (p.matched, p.fresh, p.authenticated, p.mx_authenticated)),
  )
