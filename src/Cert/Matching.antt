-- ===== src/Cert/Matching.antt =====
-- src/cert.rs: lemmas on `matches_tlsa` and `tlsa_record_data`.
use gentlsa.Prelude.{
  ◌≤◌, Text, List, [], ◌∷◌, ◌≡◌, ◌≢◌, refl, ap, sym, ◌∙◌, ◌↔◌, ◌⊎◌, Bool, true, false, ◌||◌, Option,
  none, some, All, Any, Any-mono, inl, inr, arith, if◌then◌else◌, Bool-cases, Option-cases,
  eq_ignore_ascii_case,
}
use gentlsa.Tlsa.{TlsaParams, is_trust_anchor, hashes_equal}
use gentlsa.Dns.{TlsaRecord}
use gentlsa.Cert
use gentlsa.Cert.{Bytes, Crypto, Certificate}

-- The bytes that a printed record commits to are among the candidates of its usage.
first_or-among :
    (chain : List Bytes) (der : Bytes) → Any (λ d. d ≡ Cert.first_or chain der) (der ∷ chain)
unfolding Cert.first_or
first_or-among [] der = inl refl
first_or-among (issuer ∷ chain) der = inr (inl refl)

candidates_leaf :
    (c : Certificate) (p : TlsaParams)
    → p.usage ≤ 3
    → is_trust_anchor p ≡ false
    → Cert.candidates c p.usage ≡ some (c.der ∷ [])
unfolding Cert.candidates is_trust_anchor
candidates_leaf c p h e = ground (arith, e, h)

candidates_chain :
    (c : Certificate) (p : TlsaParams)
    → is_trust_anchor p ≡ true
    → Cert.candidates c p.usage ≡ some (c.der ∷ c.chain_der)
unfolding Cert.candidates is_trust_anchor
candidates_chain c p e = ground (arith, e)

printed_candidate :
    (c : Certificate) (p : TlsaParams)
    → p.usage ≤ 3
    → (ders : List Bytes) × (Cert.candidates c p.usage ≡ some ders)
      × ((ders ≡ c.der ∷ []) ⊎ (ders ≡ c.der ∷ c.chain_der))
      × Any (λ d. d ≡ (if is_trust_anchor p then Cert.first_or c.chain_der c.der else c.der)) ders
printed_candidate c p h = elim (Bool-cases (is_trust_anchor p)) [
  | inl anchor ↦ (
    c.der ∷ c.chain_der,
    candidates_chain c p anchor,
    inr refl,
    Any-mono _ _ (c.der ∷ c.chain_der) (λ d q. rw anchor q) (first_or-among c.chain_der c.der),
  )
  | inr leaf ↦ (c.der ∷ [], candidates_leaf c p h leaf, inl refl, rw leaf (inl refl))
]

module _ (crypto : Crypto) where
  -- The association data of the bytes is defined, and is the record's up to case.
  abbrev pub Holds : TlsaRecord → Bytes → Type 0
  Holds r der =
      (found : Text) × (Cert.tlsa_association_data crypto der r.selector r.matching ≡ some found)
      × (eq_ignore_ascii_case found r.certificate ≡ true)

  abbrev pub IsComputable : TlsaRecord → Bytes → Type 0
  IsComputable r der = Cert.tlsa_association_data crypto der r.selector r.matching ≢ none

  loop_none :
      (r : TlsaRecord) (matched : Bool) (der : Bytes) (ders : List Bytes)
      → Cert.tlsa_association_data crypto der r.selector r.matching ≡ none
      → Cert.match_loop crypto r matched (der ∷ ders) ≡ none
  unfolding Cert.match_loop
  loop_none r matched der ders e = rw (e, Cert.match_loop)

  loop_some :
      (r : TlsaRecord) (matched : Bool) (der : Bytes) (ders : List Bytes) (found : Text)
      → Cert.tlsa_association_data crypto der r.selector r.matching ≡ some found
      → Cert.match_loop crypto r matched (der ∷ ders)
        ≡ Cert.match_loop crypto r (matched || eq_ignore_ascii_case found r.certificate) ders
  unfolding Cert.match_loop hashes_equal
  loop_some r matched der ders found e = rw (e, Cert.match_loop)

  true_of_some : (b : Bool) → ◌≡◌ {A = Option Bool} (some b) (some true) → b ≡ true
  true_of_some b h = cc

  list_of_some : {a b : List Bytes} → ◌≡◌ {A = Option (List Bytes)} (some a) (some b) → a ≡ b
  list_of_some h = cc

  same_found :
      (r : TlsaRecord) (der : Bytes) {a b : Text}
      → Cert.tlsa_association_data crypto der r.selector r.matching ≡ some a
      → Cert.tlsa_association_data crypto der r.selector r.matching ≡ some b
      → a ≡ b
  same_found r der p q = cc

  -- The head of a disjunction about the candidates.
  join_head :
      (r : TlsaRecord) (matched : Bool) (der : Bytes) (ders : List Bytes) (found : Text)
      → Cert.tlsa_association_data crypto der r.selector r.matching ≡ some found
      → (((matched || eq_ignore_ascii_case found r.certificate) ≡ true) ⊎ Any (Holds r) ders)
        ↔ ((matched ≡ true) ⊎ Any (Holds r) (der ∷ ders))
  join_head r true der ders found e = (λ _. inl refl, λ _. inl refl)
  join_head r false der ders found e = (
    elim [ inl same ↦ inr (inl (found, e, same)) | inr later ↦ inr (inr later) ],
    elim [
      | inl impossible ↦ absurd (cc impossible)
      | inr (inl (other, e', same)) ↦ inl (rw (same_found r der e e') same)
      | inr (inr later) ↦ inr later
    ],
  )

  match_loop-true :
      (r : TlsaRecord) (matched : Bool) (ders : List Bytes)
      → (Cert.match_loop crypto r matched ders ≡ some true)
        ↔ (All (IsComputable r) ders × ((matched ≡ true) ⊎ Any (Holds r) ders))
  match_loop-true r matched [] =
      unfold Cert.match_loop in
      (
        λ h. (tt, inl (true_of_some matched h)),
        λ (_, d). elim d [ inl h ↦ ap some h | inr h ↦ absurd h ],
      )
  match_loop-true r matched (der ∷ ders) =
      elim (Option-cases (Cert.tlsa_association_data crypto der r.selector r.matching)) [
        | inl e ↦ rw (loop_none r matched der ders e) (λ h. absurd (cc h), λ (c, _). absurd (c.0 e))
        | inr (found, e) ↦
            let ih = match_loop-true r (matched || eq_ignore_ascii_case found r.certificate) ders in
            let head = join_head r matched der ders found e in
            rw (loop_some r matched der ders found e) (
              λ h. let (c, d) = ih.0 h in (((λ n. cc (sym n ∙ e)), c), head.0 d),
              λ (c, d). ih.1 (c.1, head.1 d),
            )
      ]

  -- A DNS record matches the presented certificate, `Some(true)`, exactly when `candidates` gives
  -- certificates for its usage, the association data of every one of them can be computed, and that
  -- of some one is the record's, up to case.
  pub matches_tlsa_iff :
      (c : Certificate) (r : TlsaRecord)
      → (Cert.matches_tlsa crypto c r ≡ some true) ↔ (
          ((ders : List Bytes) × (Cert.candidates c r.usage ≡ some ders)
            × All (IsComputable r) ders
            × Any (Holds r) ders))
  unfolding Cert.matches_tlsa
  matches_tlsa_iff c r = elim (Option-cases (Cert.candidates c r.usage)) [
    | inl e ↦ rw e (λ h. absurd (cc h), λ (ders, e', _, _). absurd (cc e'))
    | inr (ders, e) ↦ rw e (
      λ h.
          let (all, d) = (match_loop-true r false ders).0 h in
          (
            ders,
            refl,
            all,
            elim d [ inl impossible ↦ absurd (cc impossible) | inr some_one ↦ some_one ],
          ),
      λ (ders', e', all, some_one).
          (match_loop-true r false ders).1 (rw (list_of_some e') (all, inr some_one)),
    )
  ]

  -- The record of these parameters and this text.
  abbrev pub record_of : TlsaParams → Text → TlsaRecord
  record_of p text = record {
    usage = p.usage;
    selector = p.selector;
    matching = p.matching;
    certificate = text;
  }

  -- What `generate` prints, `verify` accepts: a DNS record with the printed parameters and, up to
  -- case, the printed text matches the certificate it was made from. The usage is one of 0 to 3, and
  -- the association data of the leaf and of each presented certificate can be computed.
  pub matches-record_data :
      (c : Certificate) (p : TlsaParams) (printed text : Text)
      → p.usage ≤ 3
      → All (IsComputable (record_of p text)) (c.der ∷ c.chain_der)
      → Cert.tlsa_record_data crypto c p ≡ some printed
      → eq_ignore_ascii_case printed text ≡ true
      → Cert.matches_tlsa crypto c (record_of p text) ≡ some true
  unfolding Cert.tlsa_record_data
  matches-record_data c p printed text h all e same =
      let (ders, is_candidates, shape, one) = printed_candidate c p h in
      (matches_tlsa_iff c (record_of p text)).1 (
        ders,
        is_candidates,
        elim shape [ inl one ↦ rw one (all.0, tt) | inr more ↦ rw more all ],
        Any-mono _ (Holds (record_of p text)) ders (λ d eq. (printed, rw eq e, same)) one,
      )
