-- ===== src/Azure/Change.antt =====
-- src/azure.rs: lemmas on `apply_rrset`, `publish_tlsa` and `prune_tlsa` against the server.
use gentlsa.Prelude.{
  ℕ, ◌≡◌, refl, sym, ap, ◌∙◌, Text, Bool, true, false, Option, none, some, List, [], ◌∷◌, inl, inr,
  is_empty, All, All-filter, map, eq_ignore_ascii_case, to_ascii_lowercase, if◌then◌else◌,
  Bool-cases,
}
use gentlsa.Prelude.StrLaws.{to_ascii_lowercase_idem}
use gentlsa.Tlsa.Owner.{owner_name}
use gentlsa.Publish.{
  PublishMode, PublishAction, DaneTlsa, already_published, added, replaced, would_add,
  would_replace, publish_action, rrset_after_publish, rrset_after_prune, stale_dane, live_dane,
}
use gentlsa.Publish.Printed.{rrset_after_publish-All, prune-no_stale}
use gentlsa.Azure.{
  DnsZone, TlsaJson, RecordSetJson, RecordSetBody, Api, json_dane, json_of, set_records,
  current_records, apply_rrset, perform, publish_report, prune_report, publish_tlsa, prune_tlsa,
}

-- What Azure DNS documents, and that it answers: the set of an owner is read, replaced or created, and
-- deleted, and other owners are left alone.
pub record Serves {S : Type 0} (api : Api S) (zone : DnsZone) : Type 0 where
  pub set_of : S → Text → Option RecordSetJson
  pub reads : (s : S) (owner : Text) → api.set s zone owner ≡ some (set_of s owner)
  pub puts :
      (s : S) (owner : Text) (body : RecordSetBody)
      → (s' : S) × (set : RecordSetJson) × (api.put s zone owner body ≡ some s')
        × (set_of s' owner ≡ some set)
        × (set.properties.tlsa_records ≡ body.tlsa_records)
        × ((other : Text)
            → eq_ignore_ascii_case other owner ≡ false
            → set_of s' other ≡ set_of s other)
  pub deletes :
      (s : S) (owner : Text)
      → (s' : S) × (api.delete s zone owner ≡ some s')
        × (set_of s' owner ≡ none)
        × ((other : Text)
            → eq_ignore_ascii_case other owner ≡ false
            → set_of s' other ≡ set_of s other)

-- A record as it is read: its hash is in lower case.
abbrev IsLower : DaneTlsa → Type 0
IsLower r = to_ascii_lowercase r.certificate ≡ r.certificate

json-round :
    (records' : List DaneTlsa)
    → All IsLower records'
    → map json_dane (map json_of records') ≡ records'
unfolding json_dane json_of
json-round [] h = refl
json-round (r ∷ records') (l, h) = cc (l, json-round records' h)

map-IsLower : (records' : List TlsaJson) → All IsLower (map json_dane records')
unfolding json_dane
map-IsLower [] = tt
map-IsLower (r ∷ records') = (to_ascii_lowercase_idem r.cert_association_data, map-IsLower records')

current-IsLower : (o : Option RecordSetJson) → All IsLower (current_records o)
unfolding current_records set_records
current-IsLower none = tt
current-IsLower (some set) = map-IsLower set.properties.tlsa_records

live_dane-IsLower : (certificate : Text) → IsLower (live_dane certificate)
unfolding live_dane
live_dane-IsLower certificate = to_ascii_lowercase_idem certificate

module _ {S : Type 0} (api : Api S) (zone : DnsZone) (serves : Serves api zone) where
  -- The records of an owner, as the publisher reads them.
  abbrev pub dane_of : S → Text → List DaneTlsa
  dane_of s owner = current_records (serves.set_of s owner)

  -- The state holds these records at the owner, and at other owners those of before.
  abbrev pub Holds : Text → List DaneTlsa → S → S → Type 0
  Holds owner records' s s' =
      (dane_of s' owner ≡ records')
      × ((other : Text)
          → eq_ignore_ascii_case other owner ≡ false
          → serves.set_of s' other ≡ serves.set_of s other)

  same-Holds : (owner : Text) (s : S) → Holds owner (dane_of s owner) s s
  same-Holds owner s = (refl, λ other d. refl)

  apply_rrset-Holds :
      (owner : Text) (ttl : ℕ) (next : List DaneTlsa) (s : S)
      → All IsLower next
      → (s' : S) × (apply_rrset api zone owner ttl next s ≡ some s') × Holds owner next s s'
  unfolding apply_rrset current_records set_records
  apply_rrset-Holds owner ttl [] s h =
      let (s', p, gone, others) = serves.deletes s owner in
      (s', p, (ap current_records gone, others))
  apply_rrset-Holds owner ttl (r ∷ next) s h =
      let (s', set, p, is, values, others) =
        serves.puts s owner (record { ttl = ttl; tlsa_records = map json_of (r ∷ next) }) in
      (s', p, (ap current_records is ∙ ap (map json_dane) values ∙ json-round (r ∷ next) h, others))

  perform-Holds :
      (owner : Text) (ttl : ℕ) (certificate : Text) (action : PublishAction) (s : S)
      → (s' : S) × (perform api zone owner ttl (dane_of s owner) certificate action s ≡ some s')
        × Holds owner (rrset_after_publish (dane_of s owner) certificate action) s s'
  unfolding perform rrset_after_publish
  perform-Holds owner ttl certificate added s =
      apply_rrset-Holds owner ttl (rrset_after_publish (dane_of s owner) certificate added) s (
        rrset_after_publish-All IsLower certificate (live_dane-IsLower certificate)
          (dane_of s owner) added (current-IsLower (serves.set_of s owner)))
  perform-Holds owner ttl certificate replaced s =
      apply_rrset-Holds owner ttl (rrset_after_publish (dane_of s owner) certificate replaced) s (
        rrset_after_publish-All IsLower certificate (live_dane-IsLower certificate)
          (dane_of s owner) replaced (current-IsLower (serves.set_of s owner)))
  perform-Holds owner ttl certificate already_published s = (s, refl, same-Holds owner s)
  perform-Holds owner ttl certificate would_add s = (s, refl, same-Holds owner s)
  perform-Holds owner ttl certificate would_replace s = (s, refl, same-Holds owner s)

  pruned-IsLower :
      (ours : List DaneTlsa) (live : Text)
      → All IsLower ours
      → All IsLower (rrset_after_prune ours live)
  unfolding rrset_after_prune
  pruned-IsLower ours live h = All-filter IsLower _ ours h

  pruned-Holds :
      (owner : Text) (ttl : ℕ) (live : Text) (s : S)
      → (s' : S) × (apply_rrset api zone owner ttl (rrset_after_prune (dane_of s owner) live) s
          ≡ some s')
        × Holds owner (rrset_after_prune (dane_of s owner) live) s s'
  pruned-Holds owner ttl live s =
      apply_rrset-Holds owner ttl (rrset_after_prune (dane_of s owner) live) s
        (pruned-IsLower (dane_of s owner) live (current-IsLower (serves.set_of s owner)))

module _ {S : Type 0} (api : Api S) (zone : DnsZone) (serves : Serves api zone) (ttl : ℕ)
    (hostname : Option Text) (port : ℕ) (hash : Text) where
  -- A publish reports the action of `publish_action`, and leaves the records of `rrset_after_publish`.
  abbrev pub Publishes : PublishMode → Bool → S → Type 0
  Publishes mode dryrun s =
      let owner = owner_name port hostname in
      let ours = dane_of api zone serves s owner in
      let action = publish_action ours hash mode dryrun in
      (s' : S) × (publish_tlsa api zone ttl hostname port hash mode dryrun s
        ≡ some (publish_report zone hostname port mode dryrun ours action, s'))
      × Holds api zone serves owner (rrset_after_publish ours hash action) s s'

  -- A prune reports the stale hashes, and leaves the records of `rrset_after_prune`, or those of before.
  abbrev pub Prunes : Bool → S → Type 0
  Prunes dryrun s =
      let owner = owner_name port hostname in
      let ours = dane_of api zone serves s owner in
      (s' : S) × (prune_tlsa api zone ttl hostname port hash dryrun s
        ≡ some (prune_report zone dryrun (stale_dane ours hash), s'))
      × Holds api zone serves owner (if dryrun then ours else rrset_after_prune ours hash) s s'

  publishes : (mode : PublishMode) (dryrun : Bool) (s : S) → Publishes mode dryrun s
  unfolding publish_tlsa
  publishes mode dryrun s =
      let owner = owner_name port hostname in
      let action = publish_action (dane_of api zone serves s owner) hash mode dryrun in
      let (s', p, holds) = perform-Holds api zone serves owner ttl hash action s in
      (s', rw (serves.reads s owner, p) refl, holds)

  prunes : (dryrun : Bool) (s : S) → Prunes dryrun s
  unfolding prune_tlsa
  prunes true s =
      let owner = owner_name port hostname in
      elim (Bool-cases (is_empty (stale_dane (dane_of api zone serves s owner) hash))) [
        | inl fresh ↦ (s, rw (serves.reads s owner, fresh) refl, same-Holds api zone serves owner s)
        | inr stale ↦ (s, rw (serves.reads s owner, stale) refl, same-Holds api zone serves owner s)
      ]
  prunes false s =
      let owner = owner_name port hostname in
      let ours = dane_of api zone serves s owner in
      elim (Bool-cases (is_empty (stale_dane ours hash))) [
        | inl fresh ↦ (
          s,
          rw (serves.reads s owner, fresh) refl,
          (sym (prune-no_stale ours hash fresh), λ other d. refl),
        )
        | inr stale ↦
            let (s', p, holds) = pruned-Holds api zone serves owner ttl hash s in
            (s', rw (serves.reads s owner, stale, p) refl, holds)
      ]

  -- Against a server that does as Azure DNS documents, a publish in either mode, dry or not, and a prune,
  -- dry or not, succeed. The publish reports the action of `publish_action` on the records of the owner,
  -- and behind it the owner has the records of `rrset_after_publish` for that action; the prune reports
  -- the stale hashes, and behind it the owner has the records that `rrset_after_prune` keeps, or those of
  -- before in a dry run. Other owners are unchanged.
  pub publish_tlsa-prune_tlsa :
      (mode : PublishMode) (dryrun : Bool) (s : S) → Publishes mode dryrun s × Prunes dryrun s
  publish_tlsa-prune_tlsa mode dryrun s = (publishes mode dryrun s, prunes dryrun s)
