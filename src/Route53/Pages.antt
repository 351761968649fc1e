-- ===== src/Route53/Pages.antt =====
-- src/route53.rs: the listing of a zone over its pages, as `tlsa_records` and `records_for_owner` read it.
use gentlsa.Prelude.{
  ◌≡◌, refl, sym, ap, ◌∙◌, inl, inr, Text, codes, true, false, ◌&&◌, Option, none, some, List, [],
  ◌∷◌, ◌++◌, append_assoc, map, filter, filter_map, All, eq_ignore_ascii_case, if◌then◌else◌,
  some-inj, Bool-cases, Option-cases,
}
use mathlib.Core.Path.{subst}
use gentlsa.Publish.{DaneTlsa}
use gentlsa.Publish.Names.{names_equal}
use gentlsa.Publish.Paging.{Listing, last, more, concat_pages}
use gentlsa.Publish.Rdata.{
  ListedTlsa, to_dane, parse_tlsa_rdata, from_rdata, rdata_listed, rdata_dane,
}
use gentlsa.Route53.{
  HostedZone, Marker, Api, into_listed, is_tlsa_set, concat_listed, rrset_page, next_record,
  fetch_rrsets,
}
use gentlsa.Route53.Response.{ServedSet, PlainSet, NextSet, PlainNext, page_text}
use gentlsa.Route53.Reading.{read_set, parse_rrsets-page_text}
use gentlsa.Route53.NextPage.{next_marker_of, next_record-page_text}

-- The values of the TLSA sets of an owner.
abbrev pub values_at : List ServedSet → Text → List Text
values_at [] fqdn = []
values_at (set ∷ sets) fqdn =
    if names_equal set.name fqdn && eq_ignore_ascii_case set.record_type (codes "TLSA")
    then set.values ++ values_at sets fqdn
    else values_at sets fqdn

abbrev pub marker_of : NextSet → Marker
marker_of n = record { name = n.name; rtype = some n.record_type; identifier = none }

module _ {S : Type 0} (api : Api S) (zone : HostedZone) (s : S) where
  -- The pages that the server gives from a query on: the last one, or one that names the next.
  pub data Pages : Option Marker → List (List ServedSet) → Type 0 where
    last_page :
        (marker : Option Marker) (sets : List ServedSet)
        → api.get_rrsets s zone marker ≡ some (page_text sets none)
        → All PlainSet sets
        → Pages marker (sets ∷ [])
    more_pages :
        (marker : Option Marker) (sets : List ServedSet) (next : NextSet)
        (rest : List (List ServedSet))
        → api.get_rrsets s zone marker ≡ some (page_text sets (some next))
        → All PlainSet sets
        → PlainNext next
        → Pages (some (marker_of next)) rest
        → Pages marker (sets ∷ rest)

  -- What a page is read as.
  abbrev listed_page : List ServedSet → List ListedTlsa
  listed_page sets = concat_listed (filter is_tlsa_set (map read_set sets))

  abbrev pub listed_pages : List (List ServedSet) → List (List ListedTlsa)
  listed_pages all_pages = map listed_page all_pages

  fetched :
      (marker : Option Marker) (sets : List ServedSet) (next : Option NextSet)
      → api.get_rrsets s zone marker ≡ some (page_text sets next)
      → All PlainSet sets
      → ((n : NextSet) → next ≡ some n → PlainNext n)
      → fetch_rrsets api zone s marker ≡ some (listed_page sets, next_marker_of next)
  unfolding fetch_rrsets rrset_page
  fetched marker sets next e h p = rw e (
      ap (λ x. some (concat_listed (filter is_tlsa_set x), next_record (page_text sets next)))
        (parse_rrsets-page_text sets next h p)
      ∙ ap (λ x. some (listed_page sets, x)) (next_record-page_text sets next h p))

  pub Pages-Listing :
      (marker : Option Marker) (all_pages : List (List ServedSet))
      → Pages marker all_pages
      → Listing (fetch_rrsets api zone s) marker (listed_pages all_pages)
  Pages-Listing _ _ (last_page marker sets e h) =
      last marker (listed_page sets) (fetched marker sets none e h (λ n q. absurd (cc q)))
  Pages-Listing _ _ (more_pages marker sets next rest e h p k) =
      more marker (some (marker_of next)) (listed_page sets) (listed_pages rest)
        (fetched marker sets (some next) e h (λ n q. subst PlainNext (some-inj next n q) p))
        (Pages-Listing (some (marker_of next)) rest k)

-- The records of an owner among those that are listed, as the publisher decides on them.
abbrev owned : Text → List ListedTlsa → List DaneTlsa
owned fqdn rs = map to_dane (filter (λ r. names_equal r.name fqdn) rs)

owned-append :
    (fqdn : Text) (xs ys : List ListedTlsa) → owned fqdn (xs ++ ys) ≡ owned fqdn xs ++ owned fqdn ys
owned-append fqdn [] ys = refl
owned-append fqdn (x ∷ xs) ys = elim (Bool-cases (names_equal x.name fqdn)) [
  | inl e ↦ rw e (ap (λ l. to_dane x ∷ l) (owned-append fqdn xs ys))
  | inr e ↦ rw e (owned-append fqdn xs ys)
]

filter_map-append :
    (fqdn : Text) (xs ys : List Text)
    → filter_map (rdata_dane fqdn) (xs ++ ys)
      ≡ filter_map (rdata_dane fqdn) xs ++ filter_map (rdata_dane fqdn) ys
filter_map-append fqdn [] ys = refl
filter_map-append fqdn (x ∷ xs) ys = elim (Option-cases (rdata_dane fqdn x)) [
  | inl e ↦ rw e (filter_map-append fqdn xs ys)
  | inr (d, e) ↦ rw e (ap (λ l. d ∷ l) (filter_map-append fqdn xs ys))
]

owned-same :
    (fqdn name : Text) (vs : List Text)
    → names_equal name fqdn ≡ true
    → owned fqdn (filter_map (rdata_listed name) vs) ≡ filter_map (rdata_dane fqdn) vs
unfolding rdata_listed rdata_dane from_rdata to_dane
owned-same fqdn name [] h = refl
owned-same fqdn name (v ∷ vs) h = elim (Option-cases (parse_tlsa_rdata v)) [
  | inl e ↦ rw e (owned-same fqdn name vs h)
  | inr (d, e) ↦ rw e (rw h (ap (λ l. d ∷ l) (owned-same fqdn name vs h)))
]

owned-other :
    (fqdn name : Text) (vs : List Text)
    → names_equal name fqdn ≡ false
    → owned fqdn (filter_map (rdata_listed name) vs) ≡ []
unfolding rdata_listed from_rdata
owned-other fqdn name [] h = refl
owned-other fqdn name (v ∷ vs) h = elim (Option-cases (parse_tlsa_rdata v)) [
  | inl e ↦ rw e (owned-other fqdn name vs h)
  | inr (d, e) ↦ rw e (rw h (owned-other fqdn name vs h))
]

owned_sets :
    (fqdn : Text) (sets : List ServedSet)
    → owned fqdn (concat_listed (filter is_tlsa_set (map read_set sets)))
      ≡ filter_map (rdata_dane fqdn) (values_at sets fqdn)
unfolding is_tlsa_set concat_listed into_listed
owned_sets fqdn [] = refl
owned_sets fqdn (set ∷ sets) =
    let ih = owned_sets fqdn sets in
    elim (Bool-cases (eq_ignore_ascii_case set.record_type (codes "TLSA"))) [
      | inr t ↦ elim (Bool-cases (names_equal set.name fqdn)) [
        | inl e ↦ rw (t, e) ih
        | inr e ↦ rw (t, e) ih
      ]
      | inl t ↦ elim (Bool-cases (names_equal set.name fqdn)) [
        | inl e ↦
            rw (t, e)
              (owned-append fqdn (filter_map (rdata_listed set.name) set.values)
                  (concat_listed (filter is_tlsa_set (map read_set sets)))
                ∙ (ap
                      (λ l.
                        l ++ owned fqdn (concat_listed (filter is_tlsa_set (map read_set sets))))
                      (owned-same fqdn set.name set.values e)
                    ∙ (ap (λ l. filter_map (rdata_dane fqdn) set.values ++ l) ih
                        ∙ sym (filter_map-append fqdn set.values (values_at sets fqdn)))))
        | inr e ↦
            rw (t, e)
              (owned-append fqdn (filter_map (rdata_listed set.name) set.values)
                  (concat_listed (filter is_tlsa_set (map read_set sets)))
                ∙ (ap
                      (λ l.
                        l ++ owned fqdn (concat_listed (filter is_tlsa_set (map read_set sets))))
                      (owned-other fqdn set.name set.values e)
                    ∙ ih))
      ]
    ]

values_at-append :
    (fqdn : Text) (xs ys : List ServedSet)
    → values_at (xs ++ ys) fqdn ≡ values_at xs fqdn ++ values_at ys fqdn
values_at-append fqdn [] ys = refl
values_at-append fqdn (x ∷ xs) ys =
    elim (Bool-cases
      (names_equal x.name fqdn && eq_ignore_ascii_case x.record_type (codes "TLSA"))) [
        | inl e ↦ rw e (
            ap (λ l. x.values ++ l) (values_at-append fqdn xs ys)
            ∙ sym (append_assoc x.values (values_at xs fqdn) (values_at ys fqdn)))
        | inr e ↦ rw e (values_at-append fqdn xs ys)
      ]

abbrev pub concat_sets : List (List ServedSet) → List ServedSet
concat_sets [] = []
concat_sets (sets ∷ rest) = sets ++ concat_sets rest

-- The records of an owner in the whole listing are those of its values.
pub owned-listed :
    {S : Type 0} (api : Api S) (zone : HostedZone) (s : S) (fqdn : Text)
    (all_pages : List (List ServedSet))
    → map to_dane (
        filter
          (λ r. names_equal r.name fqdn)
          (concat_pages (fetch_rrsets api zone s) (listed_pages api zone s all_pages)))
      ≡ filter_map (rdata_dane fqdn) (values_at (concat_sets all_pages) fqdn)
owned-listed api zone s fqdn [] = refl
owned-listed api zone s fqdn (sets ∷ rest) =
    let page = concat_listed (filter is_tlsa_set (map read_set sets)) in
    let others = concat_pages (fetch_rrsets api zone s) (listed_pages api zone s rest) in
    owned-append fqdn page others
    ∙ (ap (λ l. l ++ owned fqdn others) (owned_sets fqdn sets)
        ∙ (ap (λ l. filter_map (rdata_dane fqdn) (values_at sets fqdn) ++ l)
              (owned-listed api zone s fqdn rest)
            ∙ (sym
                  (filter_map-append fqdn (values_at sets fqdn) (values_at (concat_sets rest) fqdn))
                ∙ ap (filter_map (rdata_dane fqdn))
                    (sym (values_at-append fqdn sets (concat_sets rest))))))
