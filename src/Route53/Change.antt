-- ===== src/Route53/Change.antt =====
-- src/route53.rs: lemmas on `publish_tlsa` and `prune_tlsa` against the server.
use gentlsa.Prelude.{
  ℕ, ◌≡◌, ◌≢◌, ◌⊎◌, ◌≤◌, refl, sym, ap, ◌∙◌, inl, inr, Text, codes, Bool, true, false, Option, none,
  some, List, [], ◌∷◌, map, filter, is_empty, All, All-mono, filter_map, filter_map-map,
  filter_map-All, if◌then◌else◌, Bool-cases,
}
use gentlsa.Publish.{
  PublishMode, PublishAction, DaneTlsa, already_published, added, replaced, would_add,
  would_replace, publish_action, rrset_after_publish, rrset_after_prune, stale_dane,
}
use gentlsa.Publish.Names.{names_equal, fqdn_owner}
use gentlsa.Publish.Rdata.{ListedTlsa, to_dane, rdata_dane, format_tlsa_rdata}
use gentlsa.Publish.Paging.{count, concat_pages, pages-Listing}
use gentlsa.Publish.Printed.{
  IsPrintable, IsHash, rdata_dane-IsPrintable, rdata_dane-format, rrset_after_publish-IsPrintable,
  rrset_after_publish-ne-nil, rrset_after_prune-IsPrintable, prune-no_stale,
}
use gentlsa.Route53.Response.{ServedSet}
use gentlsa.Route53.Pages.{Pages, values_at, concat_sets, listed_pages, Pages-Listing, owned-listed}
use gentlsa.Route53.Request.{AsksFor, change_batch-AsksFor}
use gentlsa.Route53.{
  HostedZone, Api, change_batch, fetch_rrsets, tlsa_records, records_for_owner, upsert_rrset,
  delete_rrset, perform, write_pruned, publish_report, prune_report, publish_tlsa, prune_tlsa,
}

map-ne-nil : (records' : List DaneTlsa) → records' ≢ [] → map format_tlsa_rdata records' ≢ []
map-ne-nil [] n e = n refl
map-ne-nil (r ∷ records') n e = cc e

-- The largest TTL that Route 53 takes.
abbrev pub max_ttl : ℕ
max_ttl = 2147483647

-- What Route 53 documents of a state, and that it answers: the pages of a listing end and together
-- have each owner's values; a body that asks for an upsert puts its values and TTL in the place of the
-- owner's, and one that asks for a deletion has to name the TTL and the values of the set; other owners
-- are left alone.
pub record Serves {S : Type 0} (api : Api S) (zone : HostedZone) (s : S) : Type 0 where
  pub values_of : S → Text → List Text
  pub ttl_of : S → Text → ℕ
  pub all_pages : List (List ServedSet)
  pub pages : Pages api zone s none all_pages
  pub served : (fqdn : Text) → values_at (concat_sets all_pages) fqdn ≡ values_of s fqdn
  pub upserts :
      (fqdn : Text) (values : List Text) (ttl : ℕ) (body : Text)
      → AsksFor (codes "UPSERT") fqdn ttl values body
      → values ≢ []
      → ttl ≤ max_ttl
      → (s' : S) × (api.post_rrset s zone body ≡ some s')
        × (values_of s' fqdn ≡ values)
        × (ttl_of s' fqdn ≡ ttl)
        × ((other : Text) → names_equal other fqdn ≡ false → values_of s' other ≡ values_of s other)
  pub deletes :
      (fqdn : Text) (values : List Text) (ttl : ℕ) (body : Text)
      → AsksFor (codes "DELETE") fqdn ttl values body
      → ttl_of s fqdn ≡ ttl
      → values_of s fqdn ≡ values
      → ttl ≤ max_ttl
      → (s' : S) × (api.post_rrset s zone body ≡ some s')
        × (values_of s' fqdn ≡ [])
        × ((other : Text) → names_equal other fqdn ≡ false → values_of s' other ≡ values_of s other)

module _ {S : Type 0} (api : Api S) (zone : HostedZone) (s : S) (serves : Serves api zone s) where
  -- The records of an owner, as the publisher reads them.
  abbrev pub dane_of : S → Text → List DaneTlsa
  dane_of s fqdn = filter_map (rdata_dane fqdn) (serves.values_of s fqdn)

  abbrev pub ours_of : Text → List ListedTlsa
  ours_of fqdn =
      filter (λ r. names_equal r.name fqdn)
        (concat_pages (fetch_rrsets api zone s) (listed_pages api zone s serves.all_pages))

  -- The rounds for the listing of a state.
  abbrev pub rounds : ℕ
  rounds = count (fetch_rrsets api zone s) (listed_pages api zone s serves.all_pages)

  -- The state holds these records at the owner, and at other owners those of before.
  abbrev pub Holds : Text → List DaneTlsa → S → Type 0
  Holds fqdn records' s' =
      (dane_of s' fqdn ≡ records')
      × ((other : Text)
          → names_equal other fqdn ≡ false
          → serves.values_of s' other ≡ serves.values_of s other)

  dane_of-IsPrintable : (fqdn : Text) → All IsPrintable (dane_of s fqdn)
  dane_of-IsPrintable fqdn =
      filter_map-All IsPrintable (rdata_dane fqdn) (rdata_dane-IsPrintable fqdn)
        (serves.values_of s fqdn)

  upsert-Holds :
      (fqdn : Text) (ttl : ℕ) (next : List DaneTlsa)
      → next ≢ []
      → All IsPrintable next
      → ttl ≤ max_ttl
      → (s' : S) × (upsert_rrset api zone ttl fqdn next s ≡ some s') × Holds fqdn next s'
  unfolding upsert_rrset
  upsert-Holds fqdn ttl next ne h b =
      let (s', p, v, _, others) =
        serves.upserts fqdn (map format_tlsa_rdata next) ttl
          (change_batch (codes "UPSERT") fqdn next ttl)
          (change_batch-AsksFor (codes "UPSERT") fqdn next ttl) (map-ne-nil next ne) b in
      (
        s',
        p,
        (
          ap (filter_map (rdata_dane fqdn)) v
              ∙ filter_map-map (rdata_dane fqdn) format_tlsa_rdata next (
                  All-mono IsPrintable (λ d. rdata_dane fqdn (format_tlsa_rdata d) ≡ some d) next
                    (rdata_dane-format fqdn) h),
          others,
        ),
      )

  ours-found :
      (fuel : ℕ) (fqdn : Text)
      → rounds ≤ fuel
      → records_for_owner api fuel zone fqdn s ≡ some (ours_of fqdn)
  unfolding records_for_owner tlsa_records
  ours-found fuel fqdn h =
      rw
        (pages-Listing (fetch_rrsets api zone s) none (listed_pages api zone s serves.all_pages)
          fuel (Pages-Listing api zone s none serves.all_pages serves.pages) h)
        refl

  -- The records of the owner are those of its values.
  ours-dane : (fqdn : Text) → map to_dane (ours_of fqdn) ≡ dane_of s fqdn
  ours-dane fqdn =
      owned-listed api zone s fqdn serves.all_pages
      ∙ ap (filter_map (rdata_dane fqdn)) (serves.served fqdn)

  same-Holds : (fqdn : Text) → Holds fqdn (dane_of s fqdn) s
  same-Holds fqdn = (refl, λ other d. refl)

  perform-Holds :
      (fqdn : Text) (ttl : ℕ) (certificate : Text) (action : PublishAction)
      → IsHash certificate
      → ttl ≤ max_ttl
      → (s' : S) × (perform api zone fqdn ttl (dane_of s fqdn) certificate action s ≡ some s')
        × Holds fqdn (rrset_after_publish (dane_of s fqdn) certificate action) s'
  unfolding perform rrset_after_publish
  perform-Holds fqdn ttl certificate added c b =
      upsert-Holds fqdn ttl (rrset_after_publish (dane_of s fqdn) certificate added)
        (rrset_after_publish-ne-nil (dane_of s fqdn) certificate).0
        (rrset_after_publish-IsPrintable (dane_of s fqdn) certificate added c
          (dane_of-IsPrintable fqdn))
        b
  perform-Holds fqdn ttl certificate replaced c b =
      upsert-Holds fqdn ttl (rrset_after_publish (dane_of s fqdn) certificate replaced)
        (rrset_after_publish-ne-nil (dane_of s fqdn) certificate).1
        (rrset_after_publish-IsPrintable (dane_of s fqdn) certificate replaced c
          (dane_of-IsPrintable fqdn))
        b
  perform-Holds fqdn ttl certificate already_published c b = (s, refl, same-Holds fqdn)
  perform-Holds fqdn ttl certificate would_add c b = (s, refl, same-Holds fqdn)
  perform-Holds fqdn ttl certificate would_replace c b = (s, refl, same-Holds fqdn)

  deleted :
      (fqdn : Text) (ttl : ℕ)
      → serves.ttl_of s fqdn ≡ ttl
      → serves.values_of s fqdn ≡ map format_tlsa_rdata (dane_of s fqdn)
      → ttl ≤ max_ttl
      → (s' : S) × (delete_rrset api zone ttl fqdn (dane_of s fqdn) s ≡ some s') × Holds fqdn [] s'
  unfolding delete_rrset
  deleted fqdn ttl t v b =
      let (s', p, gone, others) =
        serves.deletes fqdn (map format_tlsa_rdata (dane_of s fqdn)) ttl
          (change_batch (codes "DELETE") fqdn (dane_of s fqdn) ttl)
          (change_batch-AsksFor (codes "DELETE") fqdn (dane_of s fqdn) ttl) t v b in
      (s', p, (ap (filter_map (rdata_dane fqdn)) gone, others))

  write_pruned-Holds :
      (fqdn : Text) (ttl : ℕ) (next : List DaneTlsa)
      → All IsPrintable next
      → (next ≢ [])
        ⊎ ((serves.ttl_of s fqdn ≡ ttl)
            × (serves.values_of s fqdn ≡ map format_tlsa_rdata (dane_of s fqdn)))
      → ttl ≤ max_ttl
      → (s' : S) × (write_pruned api zone fqdn ttl (dane_of s fqdn) next s ≡ some s')
        × Holds fqdn next s'
  unfolding write_pruned
  write_pruned-Holds fqdn ttl (r ∷ next) h k b = upsert-Holds fqdn ttl (r ∷ next) (λ e. cc e) h b
  write_pruned-Holds fqdn ttl [] h (inl ne) b = absurd (ne refl)
  write_pruned-Holds fqdn ttl [] h (inr (t, v)) b = deleted fqdn ttl t v b

-- Against a server that does as Route 53 documents, whose sets are no aliases and under no routing
-- policy, a publish of a hash in either mode, dry or not, succeeds, with rounds for the pages of the
-- listing and a TTL of at most 2147483647, and reports the action of `publish_action` on the
-- records of the owner; behind it the owner has the records of `rrset_after_publish` for that action,
-- and other owners are unchanged.
pub publish_tlsa-upserts :
    {S : Type 0} (api : Api S) (zone : HostedZone) (s : S) (serves : Serves api zone s)
    (fuel ttl : ℕ) (hostname : Option Text) (port : ℕ) (certificate : Text) (mode : PublishMode)
    (dryrun : Bool)
    → rounds api zone s serves ≤ fuel
    → IsHash certificate
    → ttl ≤ max_ttl
    → let fqdn = fqdn_owner zone.name hostname port in
      let ours = dane_of api zone s serves s fqdn in
      let action = publish_action ours certificate mode dryrun in
      (s' : S) × (publish_tlsa api fuel zone ttl hostname port certificate mode dryrun s
        ≡ some (
          publish_report zone hostname port mode dryrun (ours_of api zone s serves fqdn) action,
          s',
        ))
      × Holds api zone s serves fqdn (rrset_after_publish ours certificate action) s'
unfolding publish_tlsa
publish_tlsa-upserts api zone s serves fuel ttl hostname port certificate mode dryrun f c b =
    let fqdn = fqdn_owner zone.name hostname port in
    let action = publish_action (dane_of api zone s serves s fqdn) certificate mode dryrun in
    let (s', p, holds) = perform-Holds api zone s serves fqdn ttl certificate action c b in
    (
      s',
      rw (ours-found api zone s serves fuel fqdn f, ours-dane api zone s serves fqdn, p) refl,
      holds,
    )

-- What a deletion of the whole set needs: the client's TTL, and values that are written as the source
-- writes them.
abbrev pub CanDelete :
    {S : Type 0} (api : Api S) (zone : HostedZone) → (s : S) → Serves api zone s → Text → ℕ → Type 0
CanDelete api zone s serves fqdn ttl =
    (serves.ttl_of s fqdn ≡ ttl)
    × (serves.values_of s fqdn ≡ map format_tlsa_rdata (dane_of api zone s serves s fqdn))

module _ {S : Type 0} (api : Api S) (zone : HostedZone) (s : S) (serves : Serves api zone s)
    (fuel ttl : ℕ) (hostname : Option Text) (port : ℕ) (live : Text)
    (enough : rounds api zone s serves ≤ fuel) (small : ttl ≤ max_ttl) where
  abbrev owner : Text
  owner = fqdn_owner zone.name hostname port

  abbrev ours : List DaneTlsa
  ours = dane_of api zone s serves s owner

  prune_dry :
      prune_tlsa api fuel zone ttl hostname port live true s
      ≡ some (prune_report zone true (stale_dane ours live), s)
  unfolding prune_tlsa
  prune_dry = elim (Bool-cases (is_empty (stale_dane ours live))) [
    | inl n ↦
        rw (ours-found api zone s serves fuel owner enough, ours-dane api zone s serves owner, n)
          refl
    | inr n ↦
        rw (ours-found api zone s serves fuel owner enough, ours-dane api zone s serves owner, n)
          refl
  ]

  prune_wet :
      (rrset_after_prune ours live ≢ []) ⊎ CanDelete api zone s serves owner ttl
      → (s' : S) × (prune_tlsa api fuel zone ttl hostname port live false s
          ≡ some (prune_report zone false (stale_dane ours live), s'))
        × Holds api zone s serves owner (rrset_after_prune ours live) s'
  unfolding prune_tlsa
  prune_wet k = elim (Bool-cases (is_empty (stale_dane ours live))) [
    | inl n ↦ (
      s,
      rw (ours-found api zone s serves fuel owner enough, ours-dane api zone s serves owner, n)
          refl,
      (sym (prune-no_stale ours live n), λ other d. refl),
    )
    | inr n ↦
        let (s', p, holds) =
          write_pruned-Holds api zone s serves owner ttl (rrset_after_prune ours live)
            (rrset_after_prune-IsPrintable ours live (dane_of-IsPrintable api zone s serves owner))
            k small in
        (
          s',
          rw
              (
                ours-found api zone s serves fuel owner enough,
                ours-dane api zone s serves owner,
                n,
                p,
              )
              refl,
          holds,
        )
  ]

-- Against such a server and with such a TTL a prune succeeds and reports the stale hashes of the owner,
-- if it is dry, or keeps a record, or the set can be deleted: its TTL is that of the client, and its
-- values are written as the source writes them. Behind it the owner has the records that
-- `rrset_after_prune` keeps, or those of before in a dry run, and other owners are unchanged.
pub prune_tlsa-upserts :
    {S : Type 0} (api : Api S) (zone : HostedZone) (s : S) (serves : Serves api zone s)
    (fuel ttl : ℕ) (hostname : Option Text) (port : ℕ) (live : Text) (dryrun : Bool)
    → rounds api zone s serves ≤ fuel
    → ttl ≤ max_ttl
    → let fqdn = fqdn_owner zone.name hostname port in
      let records' = dane_of api zone s serves s fqdn in
      (dryrun ≡ true)
        ⊎ ((rrset_after_prune records' live ≢ []) ⊎ CanDelete api zone s serves fqdn ttl)
      → (s' : S) × (prune_tlsa api fuel zone ttl hostname port live dryrun s
          ≡ some (prune_report zone dryrun (stale_dane records' live), s'))
        × Holds api zone s serves fqdn
            (if dryrun then records' else rrset_after_prune records' live)
            s'
prune_tlsa-upserts api zone s serves fuel ttl hostname port live true enough small k = (
  s,
  prune_dry api zone s serves fuel ttl hostname port live enough small,
  same-Holds api zone s serves (fqdn_owner zone.name hostname port),
)
prune_tlsa-upserts api zone s serves fuel ttl hostname port live false enough small (inl dry) =
    absurd (cc dry)
prune_tlsa-upserts api zone s serves fuel ttl hostname port live false enough small (inr k) =
    prune_wet api zone s serves fuel ttl hostname port live enough small k
