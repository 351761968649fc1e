-- ===== src/Cloudflare/Prune.antt =====
-- src/cloudflare.rs: lemmas on `prune_tlsa`.
use mathlib.Core.Path.{subst}
use gentlsa.Prelude.{
  ℕ, ◌≡◌, refl, sym, ap, ◌∙◌, inl, inr, Text, Bool, true, false, not, ◌&&◌, Option, none, some,
  List, [], ◌∷◌, filter, map, length, ◌≤◌, text_eq, All, Any, arith, Bool-cases,
}
use gentlsa.Prelude.StrLaws.{text_eq_iff}
use gentlsa.Publish
use gentlsa.Publish.{PruneReport, DaneTlsa, rrset_after_prune}
use gentlsa.Publish.Names.{owner_names}
use gentlsa.Cloudflare.Server.{
  Serves, differs_from, page_size, listed, Distinct, Deletable, filter-Deletable, HasId,
  Distinct-HasId,
}
use gentlsa.Cloudflare.{
  Zone, DnsRecord, Api, expected_names, matches_owner, record_dane, holds, record_is_dane,
  record_hash_matches, is_stale_record, stale_cf_tlsa, push_some, dane_records, stale_hash,
  delete_all, prune_tlsa,
}

-- No record of these has the id of the record.
abbrev pub differs_all : List DnsRecord → DnsRecord → Bool
differs_all [] r = true
differs_all (x ∷ xs) r = differs_from x.id r && differs_all xs r

filter-filter :
    (p q : DnsRecord → Bool) (rs : List DnsRecord)
    → filter q (filter p rs) ≡ filter (λ r. p r && q r) rs
filter-filter p q [] = refl
filter-filter p q (r ∷ rs) = elim (Bool-cases (p r)) [
  | inl e ↦ elim (Bool-cases (q r)) [
    | inl f ↦ rw (e, f) (ap (λ xs. r ∷ xs) (filter-filter p q rs))
    | inr f ↦ rw (e, f) (filter-filter p q rs)
  ]
  | inr e ↦ rw e (filter-filter p q rs)
]

filter-true : (rs : List DnsRecord) → filter (λ r. true) rs ≡ rs
filter-true [] = refl
filter-true (r ∷ rs) = ap (λ xs. r ∷ xs) (filter-true rs)

module _ {S : Type 0} (api : Api S) (zone : Zone) (serves : Serves api zone) where
  delete_all-view :
      (stale : List DnsRecord) (s : S)
      → Deletable stale (serves.view s)
      → (s' : S) × (delete_all api zone false stale s ≡ some s')
        × (serves.view s' ≡ filter (differs_all stale) (serves.view s))
  unfolding delete_all
  delete_all-view [] s h = (s, refl, sym (filter-true (serves.view s)))
  delete_all-view (r ∷ stale) s (here, h) =
      let (s1, d, v) = serves.deletes s r.id here in
      let (s2, e, w) = delete_all-view stale s1 (subst (Deletable stale) (sym v) h) in
      (
        s2,
        rw d e,
        w
            ∙ (ap (filter (differs_all stale)) v
                ∙ filter-filter (differs_from r.id) (differs_all stale) (serves.view s)),
      )

  delete_none : (stale : List DnsRecord) (s : S) → delete_all api zone true stale s ≡ some s
  unfolding delete_all
  delete_none [] s = refl
  delete_none (r ∷ stale) s = delete_none stale s

found :
    (p : DnsRecord → Bool) (r : DnsRecord) (rs : List DnsRecord)
    → Any (λ x. x ≡ r) rs
    → p r ≡ true
    → text_eq r.id r.id ≡ true
    → differs_all (filter p rs) r ≡ false
found p r [] m e t = absurd m
found p r (x ∷ rs) (inl s) e t =
    let px : p x ≡ true = ap p s ∙ e in
    let tx : text_eq r.id x.id ≡ true = ap (λ y. text_eq r.id y.id) s ∙ t in rw px (rw tx refl)
found p r (x ∷ rs) (inr m) e t = elim (Bool-cases (p x)) [
  | inl px ↦ rw px (ground (arith, found p r rs m e t))
  | inr px ↦ rw px (found p r rs m e t)
]

not_found :
    (p : DnsRecord → Bool) (r : DnsRecord) (rs : List DnsRecord)
    → HasId rs r
    → p r ≡ false
    → differs_all (filter p rs) r ≡ true
not_found p r [] h e = refl
not_found p r (x ∷ rs) (hx, h) e = elim (Bool-cases (p x)) [
  | inr px ↦ rw px (not_found p r rs h e)
  | inl px ↦ elim (Bool-cases (text_eq r.id x.id)) [
    | inl t ↦ ground (arith, sym e ∙ (ap p (hx t) ∙ px))
    | inr t ↦ rw (px, t) (not_found p r rs h e)
  ]
]

differs-not_stale :
    (p : DnsRecord → Bool) (r : DnsRecord) (rs : List DnsRecord)
    → Any (λ x. x ≡ r) rs
    → HasId rs r
    → differs_all (filter p rs) r ≡ not (p r)
differs-not_stale p r rs m h = elim (Bool-cases (p r)) [
  | inl e ↦ found p r rs m e ((text_eq_iff r.id r.id).1 refl) ∙ ap not (sym e)
  | inr e ↦ not_found p r rs h e ∙ ap not (sym e)
]

filter-cong :
    (p q : DnsRecord → Bool) (rs : List DnsRecord)
    → ((r : DnsRecord) → Any (λ x. x ≡ r) rs → p r ≡ q r)
    → filter p rs ≡ filter q rs
filter-cong p q [] h = refl
filter-cong p q (r ∷ rs) h = elim (Bool-cases (q r)) [
  | inl e ↦ rw (h r (inl refl) ∙ e, e) (ap (λ xs. r ∷ xs) (filter-cong p q rs (λ x m. h x (inr m))))
  | inr e ↦ rw (h r (inl refl) ∙ e, e) (filter-cong p q rs (λ x m. h x (inr m)))
]

All-at :
    (P : DnsRecord → Type 0) (rs : List DnsRecord) (r : DnsRecord)
    → All P rs
    → Any (λ x. x ≡ r) rs
    → P r
All-at P [] r h m = absurd m
All-at P (x ∷ rs) r (px, h) (inl e) = subst P e px
All-at P (x ∷ rs) r (px, h) (inr m) = All-at P rs r h m

-- The deletions keep what is not stale.
kept-view :
    (p : DnsRecord → Bool) (rs : List DnsRecord)
    → All (HasId rs) rs
    → filter (differs_all (filter p rs)) rs ≡ filter (λ r. not (p r)) rs
kept-view p rs h =
    filter-cong (differs_all (filter p rs)) (λ r. not (p r)) rs
      (λ r m. differs-not_stale p r rs m (All-at (HasId rs) rs r h m))

-- The record's data are a stale 3 1 1 record's.
abbrev is_stale_dane : Text → Option DaneTlsa → Bool
is_stale_dane live o =
    holds Publish.is_dane_ee_spki_sha256 o && not (holds (λ d. Publish.hash_matches d live) o)

push-drop :
    (live : Text) (o : Option DaneTlsa) (ds : List DaneTlsa)
    → is_stale_dane live o ≡ true
    → rrset_after_prune (push_some o ds) live ≡ rrset_after_prune ds live
unfolding holds push_some rrset_after_prune
push-drop live none ds e = refl
push-drop live (some d) ds e = ground (arith, e)

push-keep :
    (live : Text) (o : Option DaneTlsa) (ds : List DaneTlsa)
    → is_stale_dane live o ≡ false
    → rrset_after_prune (push_some o ds) live ≡ push_some o (rrset_after_prune ds live)
unfolding holds push_some rrset_after_prune
push-keep live none ds e = refl
push-keep live (some d) ds e = ground (arith, e)

stale_of :
    (expected : List Text) (live : Text) (r : DnsRecord)
    → is_stale_record expected live r
      ≡ (matches_owner expected r && is_stale_dane live (record_dane r))
unfolding is_stale_record record_is_dane record_hash_matches
stale_of expected live r = refl

prune-dane :
    (expected : List Text) (live : Text) (rs : List DnsRecord)
    → dane_records
        (filter (matches_owner expected) (filter (λ r. not (is_stale_record expected live r)) rs))
      ≡ rrset_after_prune (dane_records (filter (matches_owner expected) rs)) live
unfolding dane_records
prune-dane expected live [] = unfold rrset_after_prune in refl
prune-dane expected live (r ∷ rs) =
    let ds = dane_records (filter (matches_owner expected) rs) in
    let ih = prune-dane expected live rs in
    elim (Bool-cases (matches_owner expected r)) [
      | inr e ↦
          let keeps : is_stale_record expected live r ≡ false =
            stale_of expected live r ∙ ap (λ b. b && is_stale_dane live (record_dane r)) e in
          rw keeps (rw e ih)
      | inl e ↦ elim (Bool-cases (is_stale_dane live (record_dane r))) [
        | inl d ↦
            let drops : is_stale_record expected live r ≡ true =
              stale_of expected live r
              ∙ (ap (λ b. b && is_stale_dane live (record_dane r)) e ∙ d) in
            rw drops (rw e (ih ∙ sym (push-drop live (record_dane r) ds d)))
        | inr d ↦
            let keeps : is_stale_record expected live r ≡ false =
              stale_of expected live r
              ∙ (ap (λ b. b && is_stale_dane live (record_dane r)) e ∙ d) in
            rw keeps
              (rw e (ap (push_some (record_dane r)) ih ∙ sym (push-keep live (record_dane r) ds d)))
      ]
    ]

prune-others :
    (expected : List Text) (live : Text) (rs : List DnsRecord)
    → filter
        (λ r. not (matches_owner expected r))
        (filter (λ r. not (is_stale_record expected live r)) rs)
      ≡ filter (λ r. not (matches_owner expected r)) rs
unfolding is_stale_record
prune-others expected live [] = refl
prune-others expected live (r ∷ rs) = elim (Bool-cases (matches_owner expected r)) [
  | inr e ↦
      rw (e, is_stale_record)
        (rw (e, is_stale_record) (ap (λ xs. r ∷ xs) (prune-others expected live rs)))
  | inl e ↦ elim (Bool-cases (record_is_dane r && not (record_hash_matches live r))) [
    | inl f ↦ rw (e, f, is_stale_record) (prune-others expected live rs)
    | inr f ↦ rw (e, f, is_stale_record) (rw (e, is_stale_record) (prune-others expected live rs))
  ]
]

-- The report of a prune.
abbrev report_of : Zone → Bool → List DnsRecord → PruneReport
report_of zone dryrun stale = record {
  zone = zone.name;
  dryrun = dryrun;
  stale = map (λ r. stale_hash r.data_of) stale;
}

-- A prune at Cloudflare, where the API does what it documents, the ids tell the records apart and the
-- zone has no more TLSA records than the 100 of a page, succeeds; the records of the owner names are then, as a record set, those that
-- `rrset_after_prune` keeps of the set before, and the records of other names are unchanged. In a
-- dry run nothing is changed.
pub prune_tlsa-rrset :
    {S : Type 0} (api : Api S) (zone : Zone) (serves : Serves api zone) (hostname : Option Text)
    (port : ℕ) (live : Text) (s : S)
    → Distinct (serves.view s)
    → length (serves.view s) ≤ page_size
    → ((report : PruneReport) × (s' : S) × (prune_tlsa api zone hostname port live false s
          ≡ some (report, s'))
        × (dane_records
              (filter (matches_owner (expected_names zone hostname port)) (serves.view s'))
            ≡ rrset_after_prune
                (dane_records
                  (filter (matches_owner (expected_names zone hostname port)) (serves.view s)))
                live)
        × (filter (λ r. not (matches_owner (expected_names zone hostname port) r)) (serves.view s')
            ≡ filter
                (λ r. not (matches_owner (expected_names zone hostname port) r))
                (serves.view s)))
      × ((report : PruneReport) × (prune_tlsa api zone hostname port live true s
            ≡ some (report, s)))
unfolding prune_tlsa stale_cf_tlsa
prune_tlsa-rrset api zone serves hostname port live s h few =
    let expected = expected_names zone hostname port in
    let rs = serves.view s in
    let stale = filter (is_stale_record expected live) rs in
    let (s', d, v) =
      delete_all-view api zone serves stale s
        (filter-Deletable (is_stale_record expected live) rs h) in
    let w = v ∙ kept-view (is_stale_record expected live) rs (Distinct-HasId rs h) in
    (
      (
        report_of zone false stale,
        s',
        rw (listed api zone serves s few, prune_tlsa) (rw d refl),
        ap (λ x. dane_records (filter (matches_owner expected) x)) w ∙ prune-dane expected live rs,
        ap (filter (λ r. not (matches_owner expected r))) w ∙ prune-others expected live rs,
      ),
      (
        report_of zone true stale,
        rw (listed api zone serves s few, prune_tlsa)
            (rw (delete_none api zone serves stale s) refl),
      ),
    )

stale-more :
    (a b : Text) (live : Text) (r : DnsRecord)
    → is_stale_record (a ∷ []) live r ≡ true
    → is_stale_record (a ∷ b ∷ []) live r ≡ true
unfolding is_stale_record matches_owner
stale-more a b live r h = ground (arith, h)

-- With a hostname the names of the zone itself are among the owner names too: a prune for a host
-- counts the 3 1 1 record of the zone, with another hash, as stale.
pub stale-apex :
    (zone : Zone) (host : Text) (port : ℕ) (live : Text) (r : DnsRecord)
    → is_stale_record (expected_names zone none port) live r ≡ true
    → is_stale_record (expected_names zone (some host) port) live r ≡ true
unfolding expected_names owner_names
stale-apex zone [] port live r h = h
stale-apex zone (c ∷ host) port live r h = stale-more _ _ live r h
