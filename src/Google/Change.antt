-- ===== src/Google/Change.antt =====
-- src/google.rs: lemmas on `apply_rrset`, `publish_tlsa` and `prune_tlsa` against the server.
use gentlsa.Prelude.{
  ℕ, ◌≡◌, ◌⊎◌, refl, sym, ap, ◌∙◌, inl, inr, Text, Bool, true, false, Option, none, some, List, [],
  ◌∷◌, is_empty, All, All-mono, filter_map-map, filter_map-All, if◌then◌else◌, Bool-cases,
  Option-cases,
}
use gentlsa.Publish.{
  PublishMode, PublishAction, DaneTlsa, already_published, added, replaced, would_add,
  would_replace, publish_action, rrset_after_publish, rrset_after_prune, stale_dane,
}
use gentlsa.Publish.Names.{names_equal, fqdn_owner}
use gentlsa.Publish.Rdata.{rdata_dane, format_tlsa_rdata}
use gentlsa.Publish.Printed.{
  IsPrintable, IsHash, rdata_dane-IsPrintable, rdata_dane-format, rrset_after_publish-IsPrintable,
  rrset_after_prune-IsPrintable, prune-no_stale,
}
use gentlsa.Google.{
  ManagedZone, Rrset, RrsetsResponse, Api, set_dane, from_dane, current_dane, deletions_of,
  change_request, first_set, rrset_for_owner, apply_rrset, perform, publish_report, prune_report,
  publish_tlsa, prune_tlsa,
}

abbrev pub IsNamed : Text → Option Rrset → Type 0
IsNamed fqdn none = Unit
IsNamed fqdn (some set) = set.name ≡ fqdn

-- What Cloud DNS documents, and that it answers: a query by name gives the TLSA set of the owner, if
-- there is one, and a change that deletes this set exactly and adds a set of that name, or none, puts
-- the one in the place of the other and leaves other owners alone.
pub record Serves {S : Type 0} (api : Api S) (zone : ManagedZone) : Type 0 where
  pub set_of : S → Text → Option Rrset
  pub named :
      (s : S) (fqdn : Text)
      → (r : RrsetsResponse) × (api.rrsets_named s zone fqdn ≡ some r)
        × (first_set r.rrsets ≡ set_of s fqdn)
  pub changes :
      (s : S) (fqdn : Text) (next : Option Rrset)
      → IsNamed fqdn next
      → (s' : S) × (api.post_change s zone
            (record { additions = deletions_of next; deletions = deletions_of (set_of s fqdn) })
          ≡ some s')
        × (set_of s' fqdn ≡ next)
        × ((other : Text) → names_equal other fqdn ≡ false → set_of s' other ≡ set_of s other)

current_dane-IsPrintable : (o : Option Rrset) → All IsPrintable (current_dane o)
unfolding current_dane set_dane
current_dane-IsPrintable none = tt
current_dane-IsPrintable (some set) =
    filter_map-All IsPrintable (rdata_dane set.name) (rdata_dane-IsPrintable set.name) set.rrdatas

-- The set that a list of records is written as.
abbrev next_set : Text → ℕ → List DaneTlsa → Option Rrset
next_set fqdn ttl [] = none
next_set fqdn ttl (r ∷ next) = some (from_dane fqdn ttl (r ∷ next))

next_set-IsNamed :
    (fqdn : Text) (ttl : ℕ) (next : List DaneTlsa) → IsNamed fqdn (next_set fqdn ttl next)
unfolding from_dane
next_set-IsNamed fqdn ttl [] = tt
next_set-IsNamed fqdn ttl (r ∷ next) = refl

current-next_set :
    (fqdn : Text) (ttl : ℕ) (next : List DaneTlsa)
    → All IsPrintable next
    → current_dane (next_set fqdn ttl next) ≡ next
unfolding current_dane set_dane from_dane
current-next_set fqdn ttl [] h = refl
current-next_set fqdn ttl (r ∷ next) h =
    filter_map-map (rdata_dane fqdn) format_tlsa_rdata (r ∷ next) (
      All-mono IsPrintable (λ d. rdata_dane fqdn (format_tlsa_rdata d) ≡ some d) (r ∷ next)
        (rdata_dane-format fqdn) h)

change_request-next :
    (fqdn : Text) (ttl : ℕ) (current : Option Rrset) (next : List DaneTlsa)
    → change_request fqdn ttl current next ≡ record {
      additions = deletions_of (next_set fqdn ttl next);
      deletions = deletions_of current;
    }
unfolding change_request
change_request-next fqdn ttl current [] = refl
change_request-next fqdn ttl current (r ∷ next) = refl

module _ {S : Type 0} (api : Api S) (zone : ManagedZone) (serves : Serves api zone) where
  -- The records of an owner, as the publisher reads them.
  abbrev pub dane_of : S → Text → List DaneTlsa
  dane_of s fqdn = current_dane (serves.set_of s fqdn)

  -- The state holds these records at the owner, and at other owners those of before.
  abbrev pub Holds : Text → List DaneTlsa → S → S → Type 0
  Holds fqdn records' s s' =
      (dane_of s' fqdn ≡ records')
      × ((other : Text)
          → names_equal other fqdn ≡ false
          → serves.set_of s' other ≡ serves.set_of s other)

  posted-Holds :
      (fqdn : Text) (ttl : ℕ) (next : List DaneTlsa) (s : S)
      → All IsPrintable next
      → (s' : S) × (api.post_change s zone (change_request fqdn ttl (serves.set_of s fqdn) next)
          ≡ some s')
        × Holds fqdn next s s'
  posted-Holds fqdn ttl next s h =
      let (s', p, v, others) =
        serves.changes s fqdn (next_set fqdn ttl next) (next_set-IsNamed fqdn ttl next) in
      (
        s',
        ap (api.post_change s zone) (change_request-next fqdn ttl (serves.set_of s fqdn) next) ∙ p,
        (ap current_dane v ∙ current-next_set fqdn ttl next h, others),
      )

  -- A change is posted unless there is no set and none is wanted.
  applied :
      (fqdn : Text) (ttl : ℕ) (next : List DaneTlsa) (s : S)
      → (apply_rrset api zone fqdn ttl (serves.set_of s fqdn) next s
          ≡ api.post_change s zone (change_request fqdn ttl (serves.set_of s fqdn) next))
        ⊎ ((next ≡ [])
            × (serves.set_of s fqdn ≡ none)
            × (apply_rrset api zone fqdn ttl (serves.set_of s fqdn) next s ≡ some s))
  unfolding apply_rrset change_request
  applied fqdn ttl (r ∷ next) s = inl refl
  applied fqdn ttl [] s = elim (Option-cases (serves.set_of s fqdn)) [
    | inl gone ↦ inr (refl, gone, rw gone refl)
    | inr (set, found) ↦ inl (rw found refl)
  ]

  apply_rrset-Holds :
      (fqdn : Text) (ttl : ℕ) (next : List DaneTlsa) (s : S)
      → All IsPrintable next
      → (s' : S) × (apply_rrset api zone fqdn ttl (serves.set_of s fqdn) next s ≡ some s')
        × Holds fqdn next s s'
  unfolding current_dane
  apply_rrset-Holds fqdn ttl next s h = elim (applied fqdn ttl next s) [
    | inl post ↦ let (s', p, holds) = posted-Holds fqdn ttl next s h in (s', post ∙ p, holds)
    | inr (empty, gone, same) ↦ (s, same, (ap current_dane gone ∙ sym empty, λ other d. refl))
  ]

  current-found :
      (fqdn : Text) (s : S) → rrset_for_owner api zone fqdn s ≡ some (serves.set_of s fqdn)
  unfolding rrset_for_owner
  current-found fqdn s = let (r, e, f) = serves.named s fqdn in rw e (ap some f)

  same-Holds : (fqdn : Text) (s : S) → Holds fqdn (dane_of s fqdn) s s
  same-Holds fqdn s = (refl, λ other d. refl)

  perform-Holds :
      (fqdn : Text) (ttl : ℕ) (certificate : Text) (action : PublishAction) (s : S)
      → IsHash certificate
      → (s' : S) × (perform api zone fqdn ttl (serves.set_of s fqdn) certificate action s ≡ some s')
        × Holds fqdn (rrset_after_publish (dane_of s fqdn) certificate action) s s'
  unfolding perform rrset_after_publish
  perform-Holds fqdn ttl certificate added s c =
      apply_rrset-Holds fqdn ttl (rrset_after_publish (dane_of s fqdn) certificate added) s (
        rrset_after_publish-IsPrintable (dane_of s fqdn) certificate added c
          (current_dane-IsPrintable (serves.set_of s fqdn)))
  perform-Holds fqdn ttl certificate replaced s c =
      apply_rrset-Holds fqdn ttl (rrset_after_publish (dane_of s fqdn) certificate replaced) s (
        rrset_after_publish-IsPrintable (dane_of s fqdn) certificate replaced c
          (current_dane-IsPrintable (serves.set_of s fqdn)))
  perform-Holds fqdn ttl certificate already_published s c = (s, refl, same-Holds fqdn s)
  perform-Holds fqdn ttl certificate would_add s c = (s, refl, same-Holds fqdn s)
  perform-Holds fqdn ttl certificate would_replace s c = (s, refl, same-Holds fqdn s)

-- Against a server that does as Cloud DNS documents, a publish of a hash in either mode, dry or not,
-- succeeds and reports the action of `publish_action` on the records of the owner; behind it the owner
-- has the records of `rrset_after_publish` for that action, and other owners are unchanged.
pub publish_tlsa-Holds :
    {S : Type 0} (api : Api S) (zone : ManagedZone) (serves : Serves api zone) (ttl : ℕ)
    (hostname : Option Text) (port : ℕ) (certificate : Text) (mode : PublishMode) (dryrun : Bool)
    (s : S)
    → IsHash certificate
    → let fqdn = fqdn_owner zone.dns_name hostname port in
      let ours = dane_of api zone serves s fqdn in
      let action = publish_action ours certificate mode dryrun in
      (s' : S) × (publish_tlsa api zone ttl hostname port certificate mode dryrun s
        ≡ some (publish_report zone hostname port mode dryrun ours action, s'))
      × Holds api zone serves fqdn (rrset_after_publish ours certificate action) s s'
unfolding publish_tlsa
publish_tlsa-Holds api zone serves ttl hostname port certificate mode dryrun s c =
    let fqdn = fqdn_owner zone.dns_name hostname port in
    let action = publish_action (dane_of api zone serves s fqdn) certificate mode dryrun in
    let (s', p, holds) = perform-Holds api zone serves fqdn ttl certificate action s c in
    (s', rw (current-found api zone serves fqdn s, p) refl, holds)

-- Against such a server a prune succeeds and reports the stale hashes of the owner; behind it the
-- owner has the records that `rrset_after_prune` keeps, or those of before in a dry run, and other
-- owners are unchanged.
pub prune_tlsa-Holds :
    {S : Type 0} (api : Api S) (zone : ManagedZone) (serves : Serves api zone) (ttl : ℕ)
    (hostname : Option Text) (port : ℕ) (live : Text) (dryrun : Bool) (s : S)
    → let fqdn = fqdn_owner zone.dns_name hostname port in
      let ours = dane_of api zone serves s fqdn in
      (s' : S) × (prune_tlsa api zone ttl hostname port live dryrun s
        ≡ some (prune_report zone dryrun (stale_dane ours live), s'))
      × Holds api zone serves fqdn (if dryrun then ours else rrset_after_prune ours live) s s'
unfolding prune_tlsa
prune_tlsa-Holds api zone serves ttl hostname port live true s =
    let fqdn = fqdn_owner zone.dns_name hostname port in
    elim (Bool-cases (is_empty (stale_dane (dane_of api zone serves s fqdn) live))) [
      | inl none_stale ↦ (
        s,
        rw (current-found api zone serves fqdn s, none_stale) refl,
        same-Holds api zone serves fqdn s,
      )
      | inr stale ↦ (
        s,
        rw (current-found api zone serves fqdn s, stale) refl,
        same-Holds api zone serves fqdn s,
      )
    ]
prune_tlsa-Holds api zone serves ttl hostname port live false s =
    let fqdn = fqdn_owner zone.dns_name hostname port in
    let ours = dane_of api zone serves s fqdn in
    elim (Bool-cases (is_empty (stale_dane ours live))) [
      | inl none_stale ↦ (
        s,
        rw (current-found api zone serves fqdn s, none_stale) refl,
        (sym (prune-no_stale ours live none_stale), λ other d. refl),
      )
      | inr stale ↦
          let (s', p, holds) =
            apply_rrset-Holds api zone serves fqdn ttl (rrset_after_prune ours live) s (
              rrset_after_prune-IsPrintable ours live
                (current_dane-IsPrintable (serves.set_of s fqdn))) in
          (s', rw (current-found api zone serves fqdn s, stale, p) refl, holds)
    ]
