-- ===== src/Nsupdate/Change.antt =====
-- src/nsupdate.rs: lemmas on `query_owner`, `delete_hash` and `prune_tlsa` against the primary.
use gentlsa.Prelude.{
  ℕ, ◌≡◌, ◌≢◌, ◌↔◌, inl, inr, refl, sym, ap, ◌∙◌, Text, true, false, Option, some, List, [], ◌∷◌,
  is_empty, filter, filter_map, map, All, Any, if◌then◌else◌, Bool-cases, Option-cases, arith,
}
use gentlsa.Tlsa.Owner.{fqdn}
use gentlsa.Publish.{DaneTlsa, is_dane_ee_spki_sha256, is_stale, stale_dane}
use gentlsa.Publish.Rdata.{ListedTlsa, to_dane}
use gentlsa.Nsupdate.{
  TlsaRdata, Record, ResponseCode, no_error, other_code, Client, parse_name, listed_from_record,
  tlsa_record, query_owner, delete_hash, delete_stale, prune_report, publish_tlsa, prune_tlsa,
}

module _ {S : Type 0} (client : Client S) where
  -- A record as the publisher decides on it.
  abbrev pub dane : TlsaRdata → DaneTlsa
  dane d = record {
    usage = d.usage;
    selector = d.selector;
    matching = d.matching;
    certificate = client.hex_encode d.cert_data;
  }

  -- What a primary does with queries and updates, and that it answers; and the codec of hashes.
  pub record Serves (origin : Text) : Type 0 where
    pub data_of : S → Text → List TlsaRdata
    pub answers :
        (s : S) (name : Text)
        → data_of s name ≢ []
        → (records' : List Record) × (client.query s name ≡ some (no_error, records'))
          × (filter_map (λ (r : Record). r.rdata) records' ≡ data_of s name)
    pub deletes :
        (s : S) (name : Text) (d : TlsaRdata)
        → (s' : S) × (client.delete_by_rdata s origin
              (record { name = name; ttl = 0; rdata = some d })
            ≡ some (no_error, s'))
          × ((other : TlsaRdata)
              → Any (λ x. other ≡ x) (data_of s' name)
                ↔ (Any (λ x. other ≡ x) (data_of s name) × (other ≢ d)))
    pub decodes : (bytes : List ℕ) → client.hex_decode (client.hex_encode bytes) ≡ some bytes

  map-listed :
      (records' : List Record)
      → map to_dane (filter_map (listed_from_record client) records')
        ≡ map dane (filter_map (λ (r : Record). r.rdata) records')
  unfolding listed_from_record to_dane
  map-listed [] = refl
  map-listed (r ∷ records') = elim (Option-cases r.rdata) [
    | inl e ↦ rw e (map-listed records')
    | inr (d, e) ↦ rw e (ap (λ l. dane d ∷ l) (map-listed records'))
  ]

  -- The stale records of a set, with their bytes.
  abbrev stale_data : Text → List TlsaRdata → List TlsaRdata
  stale_data live ds = filter (λ d. is_stale live (dane d)) ds

  stale_dane-data :
      (live : Text) (ds : List TlsaRdata)
      → stale_dane (map dane ds) live ≡ map dane (stale_data live ds)
  unfolding stale_dane
  stale_dane-data live [] = refl
  stale_dane-data live (d ∷ ds) = elim (Bool-cases (is_stale live (dane d))) [
    | inl e ↦ rw e (ap (λ l. dane d ∷ l) (stale_dane-data live ds))
    | inr e ↦ rw e (stale_dane-data live ds)
  ]

  -- A stale record is of type 3 1 1.
  abbrev IsEe : TlsaRdata → Type 0
  IsEe d = (d.usage ≡ 3) × (d.selector ≡ 1) × (d.matching ≡ 1)

  stale-IsEe : (live : Text) (d : TlsaRdata) → is_stale live (dane d) ≡ true → IsEe d
  unfolding is_stale is_dane_ee_spki_sha256 gentlsa.Tlsa.is_dane_ee_spki_sha256
  stale-IsEe live d e = ground (arith, e)

  stale_data-IsEe : (live : Text) (ds : List TlsaRdata) → All IsEe (stale_data live ds)
  stale_data-IsEe live [] = tt
  stale_data-IsEe live (d ∷ ds) = elim (Bool-cases (is_stale live (dane d))) [
    | inl e ↦ rw e (stale-IsEe live d e, stale_data-IsEe live ds)
    | inr e ↦ rw e (stale_data-IsEe live ds)
  ]

  -- The record that a deletion names is the stale one.
  rebuilt :
      (d : TlsaRdata)
      → IsEe d
      → ◌≡◌ {A = TlsaRdata}
          (record { usage = 3; selector = 1; matching = 1; cert_data = d.cert_data })
          d
  rebuilt d (u, s, m) = cc (u, s, m)

  module _ (zone : Text) (hostname : Option Text) (port : ℕ) (name origin : Text)
      (serves : Serves origin) (named : parse_name client (fqdn zone port hostname) ≡ some name)
      (zoned : parse_name client zone ≡ some origin) where
    -- The owner has a record with this data.
    abbrev pub Has : S → TlsaRdata → Type 0
    Has s d = Any (λ x. d ≡ x) (serves.data_of s name)

    record_named :
        (d : TlsaRdata)
        → IsEe d
        → tlsa_record client zone hostname port (dane d).certificate 0
          ≡ some (record { name = name; ttl = 0; rdata = some d })
    unfolding tlsa_record
    record_named d h =
        rw (named, serves.decodes d.cert_data)
          (ap (λ x. some (record { name = name; ttl = 0; rdata = some x })) (rebuilt d h))

    delete_hash-Has :
        (d : TlsaRdata) (s : S)
        → IsEe d
        → (s' : S) × (delete_hash client zone hostname port (dane d).certificate s ≡ some s')
          × ((other : TlsaRdata) → Has s' other ↔ (Has s other × (other ≢ d)))
    unfolding delete_hash gentlsa.Nsupdate.check_response
    delete_hash-Has d s h =
        let (s', p, has) = serves.deletes s name d in
        (s', rw (record_named d h, zoned, p) refl, has)

    delete_stale-Has :
        (ds : List TlsaRdata) (s : S)
        → All IsEe ds
        → (s' : S) × (delete_stale client zone hostname port false (map dane ds) s ≡ some s')
          × ((other : TlsaRdata) → Has s' other ↔ (Has s other × ¬ Any (λ d. other ≡ d) ds))
    unfolding delete_stale
    delete_stale-Has [] s h = (s, refl, λ other. (λ k. (k, λ a. a), λ (k, _). k))
    delete_stale-Has (d ∷ ds) s (e, h) =
        let (s₁, p, has) = delete_hash-Has d s e in
        let (s', q, more) = delete_stale-Has ds s₁ h in
        (
          s',
          rw p q,
          λ other. (
            λ k.
                let (k₁, out) = (more other).0 k in
                let (k₀, other_d) = (has other).0 k₁ in
                (k₀, λ a. elim a [ inl x ↦ other_d x | inr y ↦ out y ]),
            λ (k, out). (more other).1 ((has other).1 (k, λ x. out (inl x)), λ y. out (inr y)),
          ),
        )

    -- Of the records of the set, those that are not stale are not among the stale ones.
    fresh_out :
        (live : Text) (ds : List TlsaRdata) (other : TlsaRdata)
        → is_stale live (dane other) ≡ false
        → ¬ Any (λ d. other ≡ d) (stale_data live ds)
    fresh_out live [] other f a = a
    fresh_out live (d ∷ ds) other f a = elim (Bool-cases (is_stale live (dane d))) [
      | inl e ↦ elim (rw e at a) [
        | inl same ↦ cc (sym f ∙ ap (λ x. is_stale live (dane x)) same ∙ e)
        | inr b ↦ fresh_out live ds other f b
      ]
      | inr e ↦ fresh_out live ds other f (rw e at a)
    ]

    stale_in :
        (live : Text) (ds : List TlsaRdata) (other : TlsaRdata)
        → is_stale live (dane other) ≡ true
        → Any (λ d. other ≡ d) ds
        → Any (λ d. other ≡ d) (stale_data live ds)
    stale_in live [] other f a = absurd a
    stale_in live (d ∷ ds) other f (inl same) =
        rw (sym (ap (λ x. is_stale live (dane x)) same) ∙ f) (inl same)
    stale_in live (d ∷ ds) other f (inr a) = elim (Bool-cases (is_stale live (dane d))) [
      | inl e ↦ rw e (inr (stale_in live ds other f a))
      | inr e ↦ rw e (stale_in live ds other f a)
    ]

    query_owner-found :
        (s : S)
        → serves.data_of s name ≢ []
        → (ours : List ListedTlsa) × (query_owner client zone hostname port s ≡ some ours)
          × (map to_dane ours ≡ map dane (serves.data_of s name))
    unfolding query_owner gentlsa.Nsupdate.check_response
    query_owner-found s ne =
        let (records', q, e) = serves.answers s name ne in
        (
          filter_map (listed_from_record client) records',
          rw (named, q) refl,
          map-listed records' ∙ ap (map dane) e,
        )

    delete_all :
        (stale : List DaneTlsa) (s : S)
        → (if is_empty stale then some s else delete_stale client zone hostname port false stale s)
          ≡ delete_stale client zone hostname port false stale s
    unfolding delete_stale
    delete_all [] s = refl
    delete_all (r ∷ stale) s = refl

    -- Against a primary that does queries and updates as the DNS says, the prune of an owner with records
    -- succeeds and reports the stale hashes. Behind it the owner has exactly those of its records that are
    -- not stale: no 3 1 1 record with another hash is left, and nothing else is gone.
    pub prune_tlsa-Has :
        (live : Text) (s : S)
        → serves.data_of s name ≢ []
        → (s' : S) × (prune_tlsa client zone hostname port live false s
            ≡ some
                (prune_report zone false (stale_dane (map dane (serves.data_of s name)) live), s'))
          × ((other : TlsaRdata)
              → Has s' other ↔ (Has s other × (is_stale live (dane other) ≡ false)))
    unfolding prune_tlsa
    prune_tlsa-Has live s ne =
        let ds = serves.data_of s name in
        let (ours, found, same) = query_owner-found s ne in
        let (s', p, has) = delete_stale-Has (stale_data live ds) s (stale_data-IsEe live ds) in
        let sent : delete_stale client zone hostname port false (stale_dane (map dane ds) live) s
            ≡ some s' =
          ap (λ l. delete_stale client zone hostname port false l s) (stale_dane-data live ds)
          ∙ p in
        (
          s',
          rw (found, same, delete_all (stale_dane (map dane ds) live) s, sent) refl,
          λ other. (
            λ k.
                let (h, out) = (has other).0 k in
                (
                  h,
                  elim (Bool-cases (is_stale live (dane other))) [
                    | inl stale ↦ absurd (out (stale_in live ds other stale h))
                    | inr fresh ↦ fresh
                  ],
                ),
            λ (h, fresh). (has other).1 (h, fresh_out live ds other fresh),
          ),
        )
