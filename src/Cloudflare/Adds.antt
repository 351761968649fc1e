-- ===== src/Cloudflare/Adds.antt =====
-- src/cloudflare.rs: lemmas on `publish_tlsa` in a rollover.
use gentlsa.Prelude.{
  ℕ, ◌≤◌, ◌≡◌, refl, sym, ap, ◌∙◌, inl, inr, Text, codes, Bool, true, false, Option, none, some,
  List, [], ◌∷◌, ◌++◌, length, any, All, filter, text_eq, arith, Bool-cases, append_assoc,
  trim_dots, to_ascii_lowercase,
}
use gentlsa.Prelude.StrLaws.{text_eq_iff, eq_ignore_ascii_case_refl}
use gentlsa.Prelude.Decimal.{to_string}
use gentlsa.Tlsa.Owner.{owner_name}
use gentlsa.Publish.{
  PublishReport, DaneTlsa, rollover, publish_action, already_published, added, rrset_after_publish,
  live_dane, is_current, hash_matches, is_dane_ee_spki_sha256,
}
use gentlsa.Tlsa.{hashes_equal}
use gentlsa.Publish.Names.{names_equal, owner_names}
use gentlsa.Cloudflare.{
  Zone, TlsaPayload, DnsRecord, Api, expected_names, matches_owner, record_dane, data_dane,
  push_some, dane_records, tlsa_payload, perform, publish_tlsa,
}
use gentlsa.Cloudflare.Server.{Serves, IsIdentical, page_size, listed}

filter-append :
    (p : DnsRecord → Bool) (xs ys : List DnsRecord)
    → filter p (xs ++ ys) ≡ filter p xs ++ filter p ys
filter-append p [] ys = refl
filter-append p (x ∷ xs) ys = elim (Bool-cases (p x)) [
  | inl e ↦ rw e (ap (λ zs. x ∷ zs) (filter-append p xs ys))
  | inr e ↦ rw e (filter-append p xs ys)
]

push-append :
    (o : Option DaneTlsa) (ds es : List DaneTlsa) → push_some o (ds ++ es) ≡ push_some o ds ++ es
unfolding push_some
push-append none ds es = refl
push-append (some d) ds es = refl

dane_records-append :
    (xs ys : List DnsRecord) → dane_records (xs ++ ys) ≡ dane_records xs ++ dane_records ys
unfolding dane_records
dane_records-append [] ys = refl
dane_records-append (x ∷ xs) ys =
    ap (push_some (record_dane x)) (dane_records-append xs ys)
    ∙ push-append (record_dane x) (dane_records xs) (dane_records ys)

-- The name of a record created at the zone itself.
created-apex :
    (zone : Zone) (port : ℕ) (name : Text)
    → trim_dots zone.name ≡ zone.name
    → names_equal (owner_name port none ++ (codes "." ++ zone.name)) name ≡ true
    → any (λ expected. names_equal expected name) (expected_names zone none port) ≡ true
unfolding expected_names owner_names owner_name
created-apex zone port name z h =
    let same = append_assoc (to_string port) (codes "._tcp") (codes "." ++ zone.name) in
    let h' : names_equal (codes "_" ++ (to_string port ++ (codes "._tcp." ++ zone.name))) name
        ≡ true =
      ap (λ x. names_equal (codes "_" ++ x) name) (sym same) ∙ h in
    rw z (ground (arith, h'))

-- The name of the created record is one of the owner names, for a zone name without a final dot.
created-owner :
    (zone : Zone) (hostname : Option Text) (port : ℕ) (name : Text)
    → trim_dots zone.name ≡ zone.name
    → names_equal (owner_name port hostname ++ (codes "." ++ zone.name)) name ≡ true
    → any (λ expected. names_equal expected name) (expected_names zone hostname port) ≡ true
unfolding expected_names owner_names owner_name
created-owner zone none port name z h = created-apex zone port name z h
created-owner zone (some []) port name z h = created-apex zone port name z h
created-owner zone (some (c ∷ host)) port name z h =
    let full = c ∷ host in
    let same : (to_string port ++ (codes "._tcp" ++ (codes "." ++ full)))
          ++ (codes "." ++ zone.name)
        ≡ to_string port ++ (codes "._tcp." ++ (full ++ (codes "." ++ zone.name))) =
      append_assoc (to_string port) (codes "._tcp" ++ (codes "." ++ full))
        (codes "." ++ zone.name) in
    let h' : names_equal
          (codes "_" ++ (to_string port ++ (codes "._tcp." ++ (full ++ (codes "." ++ zone.name)))))
          name
        ≡ true =
      ap (λ x. names_equal (codes "_" ++ x) name) (sym same) ∙ h in
    rw z (ground (arith, h'))

-- The record that the API creates of a payload has the data of the live record.
created-dane :
    (r : DnsRecord) (p : TlsaPayload) (owner certificate : Text)
    → p ≡ tlsa_payload owner certificate
    → r.data_of ≡ some p.data_of
    → to_ascii_lowercase certificate ≡ certificate
    → dane_records (r ∷ []) ≡ live_dane certificate ∷ []
unfolding dane_records record_dane data_dane push_some live_dane tlsa_payload
created-dane r p owner certificate e d low = rw (d, e, low) refl

-- The record that a publish of the hash asks for is one that already holds the hash.
identical_is_current :
    (zone : Zone) (hostname : Option Text) (port : ℕ) (certificate : Text) (r : DnsRecord)
    (rs : List DnsRecord)
    → trim_dots zone.name ≡ zone.name
    → IsIdentical zone (tlsa_payload (owner_name port hostname) certificate) r
    → any
        (is_current certificate)
        (dane_records (filter (matches_owner (expected_names zone hostname port)) (r ∷ rs)))
      ≡ true
unfolding matches_owner dane_records record_dane data_dane push_some is_current hash_matches
    hashes_equal is_dane_ee_spki_sha256 tlsa_payload
identical_is_current zone hostname port certificate r rs z (typed, d, named) =
    let t : text_eq r.record_type (codes "TLSA") ≡ true =
      (text_eq_iff r.record_type (codes "TLSA")).1 typed in
    let o = created-owner zone hostname port r.name z named in
    rw (t, o) (rw d (rw (eq_ignore_ascii_case_refl certificate) refl))

later :
    (certificate : Text) (o : Option DaneTlsa) (ds : List DaneTlsa)
    → any (is_current certificate) (push_some o ds) ≡ false
    → any (is_current certificate) ds ≡ false
unfolding push_some
later certificate none ds h = h
later certificate (some d) ds h = ground (arith, h)

any-later :
    (expected : List Text) (certificate : Text) (r : DnsRecord) (rs : List DnsRecord)
    → any (is_current certificate) (dane_records (filter (matches_owner expected) (r ∷ rs))) ≡ false
    → any (is_current certificate) (dane_records (filter (matches_owner expected) rs)) ≡ false
unfolding dane_records push_some
any-later expected certificate r rs h = elim (Bool-cases (matches_owner expected r)) [
  | inr e ↦ sym (rw e refl) ∙ h
  | inl e ↦
      later certificate (record_dane r) (dane_records (filter (matches_owner expected) rs))
        (sym (rw e refl) ∙ h)
]

-- Where none of the owner's records holds the hash, there is no record that the publish asks for.
none-IsIdentical :
    (zone : Zone) (hostname : Option Text) (port : ℕ) (certificate : Text) (rs : List DnsRecord)
    → trim_dots zone.name ≡ zone.name
    → any
        (is_current certificate)
        (dane_records (filter (matches_owner (expected_names zone hostname port)) rs))
      ≡ false
    → All (λ r. ¬ IsIdentical zone (tlsa_payload (owner_name port hostname) certificate) r) rs
none-IsIdentical zone hostname port certificate [] z h = tt
none-IsIdentical zone hostname port certificate (r ∷ rs) z h = (
  λ same. cc (sym h ∙ identical_is_current zone hostname port certificate r rs z same),
  none-IsIdentical zone hostname port certificate rs z
      (any-later (expected_names zone hostname port) certificate r rs h),
)

module _ {S : Type 0} (api : Api S) (zone : Zone) (serves : Serves api zone)
    (hostname : Option Text) (port : ℕ) (certificate : Text) where
  -- The records of the owner names.
  abbrev pub ours : S → List DnsRecord
  ours s = filter (matches_owner (expected_names zone hostname port)) (serves.view s)

  publish-run :
      (s s' : S)
      → length (serves.view s) ≤ page_size
      → perform api zone
          (owner_name port hostname)
          certificate
          (ours s)
          (publish_action (dane_records (ours s)) certificate rollover false)
          s
        ≡ some s'
      → (report : PublishReport) × (publish_tlsa api zone hostname port certificate rollover false s
          ≡ some (report, s'))
        × (report.action ≡ publish_action (dane_records (ours s)) certificate rollover false)
        × (report.existing ≡ length (ours s))
  unfolding publish_tlsa
  publish-run s s' few d = (
    record {
      zone = zone.name;
      owner = owner_name port hostname;
      action = publish_action (dane_records (ours s)) certificate rollover false;
      mode = rollover;
      dryrun = false;
      existing = length (ours s);
    },
    rw (listed api zone serves s few, publish_tlsa) (rw d refl),
    refl,
    refl,
  )

  posted :
      (s : S)
      → any (is_current certificate) (dane_records (ours s)) ≡ false
      → trim_dots zone.name ≡ zone.name
      → to_ascii_lowercase certificate ≡ certificate
      → (s' : S) × (api.post s zone (tlsa_payload (owner_name port hostname) certificate) ≡ some s')
        × (dane_records (ours s') ≡ dane_records (ours s) ++ live_dane certificate ∷ [])
  unfolding tlsa_payload matches_owner
  posted s new z low =
      let p = tlsa_payload (owner_name port hostname) certificate in
      let (s', r, e, v, (type', data', named)) =
        serves.posts s p refl
          (none-IsIdentical zone hostname port certificate (serves.view s) z new) in
      let typed : text_eq r.record_type (codes "TLSA") ≡ true =
        (text_eq_iff r.record_type (codes "TLSA")).1 type' in
      let owned : matches_owner (expected_names zone hostname port) r ≡ true =
        ground (arith, typed, created-owner zone hostname port r.name z named) in
      let kept : filter (matches_owner (expected_names zone hostname port)) (r ∷ []) ≡ r ∷ [] =
        rw owned refl in
      (
        s',
        e,
        ap (λ rs. dane_records (filter (matches_owner (expected_names zone hostname port)) rs)) v
            ∙ (ap dane_records (
                  filter-append (matches_owner (expected_names zone hostname port)) (serves.view s)
                    (r ∷ [])
                  ∙ ap (λ rs. ours s ++ rs) kept)
                ∙ (dane_records-append (ours s) (r ∷ [])
                    ∙ ap (λ ds. dane_records (ours s) ++ ds)
                        (created-dane r p (owner_name port hostname) certificate refl data' low))),
      )

  -- A rollover at Cloudflare that is no dry run, where the API does what it documents, the zone has
  -- no more TLSA records than the 100 of a page, its name has no final dot and the hash is in lower
  -- case, succeeds and reports the action of
  -- `publish_action`; the records of the owner names are then, as a record set, those that
  -- `rrset_after_publish` makes of the set before.
  pub publish_tlsa-rrset :
      (s : S)
      → length (serves.view s) ≤ page_size
      → trim_dots zone.name ≡ zone.name
      → to_ascii_lowercase certificate ≡ certificate
      → (report : PublishReport) × (s' : S) × (publish_tlsa api zone hostname port certificate
            rollover false s
          ≡ some (report, s'))
        × (report.action ≡ publish_action (dane_records (ours s)) certificate rollover false)
        × (dane_records (ours s')
            ≡ rrset_after_publish
                (dane_records (ours s))
                certificate
                (publish_action (dane_records (ours s)) certificate rollover false))
  unfolding publish_action perform rrset_after_publish
  publish_tlsa-rrset s few z low =
      let ds = dane_records (ours s) in
      elim (Bool-cases (any (is_current certificate) ds)) [
        | inl e ↦
            let act : publish_action ds certificate rollover false ≡ already_published =
              rw (e, publish_action) refl in
            let (report, run, is, _) = publish-run s s few (
              ap (λ a. perform api zone (owner_name port hostname) certificate (ours s) a s) act) in
            (report, s, run, is, sym (ap (rrset_after_publish ds certificate) act))
        | inr e ↦
            let act : publish_action ds certificate rollover false ≡ added =
              rw (e, publish_action) refl in
            let (s', d, v) = posted s e z low in
            let (report, run, is, _) = publish-run s s' few (
              ap (λ a. perform api zone (owner_name port hostname) certificate (ours s) a s) act
              ∙ d) in
            (report, s', run, is, v ∙ sym (ap (rrset_after_publish ds certificate) act))
      ]
