-- ===== src/Publish/Tests.antt =====
-- The publish and the prune on small record sets, and the names of a zone.
use gentlsa.Prelude.{
  ℕ, Text, codes, List, [], ◌∷◌, ◌++◌, ◌≡◌, ◌≢◌, ◌↔◌, ◌⊎◌, inl, inr, refl, sym, ◌∙◌, Bool, true,
  false, Option, none, some, All, Any, filter, arith, to_ascii_lowercase, trim, trim_dots,
  eq_ignore_ascii_case,
}
use gentlsa.Publish.{
  PublishMode, rollover, replace, PublishAction, already_published, added, replaced, would_add,
  would_replace, DaneTlsa, is_dane_ee_spki_sha256, hash_matches, publish_action, live_dane,
  rrset_after_publish, replace_loop, rrset_after_prune, stale_dane, is_stale, is_current,
}
use gentlsa.Publish.Rdata.{parse_tlsa_rdata, format_tlsa_rdata}
use gentlsa.Publish.Names.{Checked, ok, panics, names_equal, owner_host, record_matches_filter}
use gentlsa.Publish.Action.{IsDaneEe, HoldsHash}
use gentlsa.Publish.Sets.{publish_twice}
use gentlsa.Publish.Cycle.{rolled, is_other, prune_contents, rollover_cycle}
use gentlsa.Publish.RoundTrip.{parse-format}

abbrev ee : Text → DaneTlsa
ee certificate = record { usage = 3; selector = 1; matching = 1; certificate = certificate }

abbrev ca : DaneTlsa
ca = record { usage = 2; selector = 0; matching = 1; certificate = codes "cc" }

-- A record of another type, and one with the hash `aa`.
abbrev two : List DaneTlsa
two = ca ∷ ee (codes "aa") ∷ []

two-holds : Any (HoldsHash (codes "AA")) two
unfolding gentlsa.Prelude.lower
two-holds =
    inr (
      inl
        (record { dane = record { usage = refl; selector = refl; matching = refl }; same = refl }))

differs : eq_ignore_ascii_case (codes "bb") (codes "aa") ≡ false
unfolding gentlsa.Prelude.lower
differs = refl

two-fresh : ¬ Any (HoldsHash (codes "bb")) two
two-fresh (inl h) = ground (arith, h.dane.usage)
two-fresh (inr (inl h)) = ground (arith, sym differs ∙ h.same)
two-fresh (inr (inr h)) = absurd h

-- The added record, and the record replaced in its place.
adds :
    rrset_after_publish two (codes "BB") (publish_action two (codes "BB") rollover false)
    ≡ two ++ ee (codes "bb") ∷ []
unfolding rrset_after_publish publish_action is_current hash_matches is_dane_ee_spki_sha256
    live_dane gentlsa.Tlsa.hashes_equal gentlsa.Prelude.lower
adds = refl

replaces :
    rrset_after_publish two (codes "bb") (publish_action two (codes "bb") replace false)
    ≡ ca ∷ ee (codes "bb") ∷ []
unfolding rrset_after_publish publish_action is_current hash_matches is_dane_ee_spki_sha256
    live_dane replace_loop gentlsa.Tlsa.hashes_equal gentlsa.Prelude.lower
replaces = refl

rollover_cycle_example :
    Any (HoldsHash (codes "AA")) (rolled two (codes "bb"))
    × Any (HoldsHash (codes "bb")) (rolled two (codes "bb"))
    × Any (HoldsHash (codes "bb")) (rrset_after_prune (rolled two (codes "bb")) (codes "bb"))
    × All
        (λ r. IsDaneEe r → HoldsHash (codes "bb") r)
        (rrset_after_prune (rolled two (codes "bb")) (codes "bb"))
    × (filter is_other (rrset_after_prune (rolled two (codes "bb")) (codes "bb"))
        ≡ filter is_other two)
rollover_cycle_example = rollover_cycle two (codes "AA") (codes "bb") two-holds

prune_contents_example :
    (Any (HoldsHash (codes "AA")) two
      → Any (HoldsHash (codes "AA")) (rrset_after_prune two (codes "AA")))
    × All (λ r. IsDaneEe r → HoldsHash (codes "AA") r) (rrset_after_prune two (codes "AA"))
    × (filter is_other (rrset_after_prune two (codes "AA")) ≡ filter is_other two)
prune_contents_example = prune_contents two (codes "AA")

publish_twice_example :
    Any
      (HoldsHash (codes "bb"))
      (rrset_after_publish two (codes "bb") (publish_action two (codes "bb") replace false))
    × (publish_action
          (rrset_after_publish two (codes "bb") (publish_action two (codes "bb") replace false))
          (codes "bb")
          rollover
          true
        ≡ already_published)
publish_twice_example = publish_twice two (codes "bb") replace rollover true

parse-format_example :
    parse_tlsa_rdata (format_tlsa_rdata (ee (codes "aa"))) ≡ some (ee (codes "aa"))
unfolding gentlsa.Prelude.is_whitespace gentlsa.Prelude.lower
parse-format_example =
    parse-format (ee (codes "aa")) (omega arith) (omega arith) (omega arith) (ground arith)
      (refl, (refl, tt)) refl

zone_named : trim_dots (codes "b.c.") ≢ []
unfolding gentlsa.Prelude.trim_end_by
zone_named h = absurd (cc h)

-- A name whose labels have characters of several bytes: the byte index falls inside one.
splits_char : owner_host (codes "_443._tcp.éx") (codes "zz") ≡ panics
unfolding owner_host gentlsa.Publish.Names.byte_len gentlsa.Prelude.trim_end_by
    gentlsa.Publish.Names.split_at
splits_char = refl
