-- ===== src/Route53/Tests.antt =====
-- A hosted zone with one record set, behind the server of Route53/Server.
use gentlsa.Prelude.{
  ℕ, ◌≡◌, ◌≢◌, ◌⊎◌, inl, inr, refl, sym, ap, ◌∙◌, Text, codes, Bool, true, false, Option, none,
  some, List, [], ◌∷◌, map, filter, filter_map, if◌then◌else◌, ◌==◌, ==_iff, ◌≤◌, arith, Bool-cases,
  trim_dots,
}
use gentlsa.Prelude.StrLaws.{eq_ignore_ascii_case_refl, eq_ignore_ascii_case_comm}
use gentlsa.Publish.{
  rollover, DaneTlsa, publish_action, rrset_after_publish, rrset_after_prune, stale_dane,
}
use gentlsa.Publish.Names.{names_equal, fqdn_owner}
use gentlsa.Publish.Rdata.{ListedTlsa, to_dane, rdata_dane, format_tlsa_rdata}
use gentlsa.Publish.Printed.{IsHash}
use gentlsa.Route53.{
  HostedZone, Api, change_batch, parse_rrsets, publish_report, prune_report, publish_tlsa,
  prune_tlsa,
}
use gentlsa.Route53.Time.{civil, amz_timestamps}
use gentlsa.Route53.Time.Gregorian.{days_after}
use gentlsa.Route53.Time.Calendar.{civil-days_after}
use gentlsa.Route53.Change.{
  Serves, CanDelete, Holds, dane_of, ours_of, publish_tlsa-upserts, prune_tlsa-upserts,
}
use gentlsa.Route53.Response.{ServedSet, PlainSet, page_text}
use gentlsa.Route53.Pages.{values_at, last_page}
use gentlsa.Route53.Server.{Sets, put, answer, answer-AsksFor, changed-deletes}

abbrev owner : Text
owner = codes "_443._tcp.x.y."

abbrev start : Sets
start = put (λ other. (0, [])) owner (300, codes "3 1 1 aa" ∷ [])

abbrev served_one : ServedSet
served_one = record {
  name = owner;
  record_type = codes "TLSA";
  ttl = 300;
  values = codes "3 1 1 aa" ∷ [];
}

abbrev toy : Api Sets
toy = record {
  get_zones = λ s marker. none;
  get_zones_by_name = λ s name. none;
  get_rrsets = λ s zone marker. some (page_text (served_one ∷ []) none);
  post_rrset = λ s zone body. answer s body;
}

abbrev zone : HostedZone
zone = record { id = codes "Z"; name = codes "x.y."; is_private = false }

abbrev listed_dane : List DaneTlsa
listed_dane = record { usage = 3; selector = 1; matching = 1; certificate = codes "aa" } ∷ []

put_self : (s : Sets) (name : Text) (next : ℕ × List Text) → put s name next name ≡ next
unfolding names_equal
put_self s name next = rw (eq_ignore_ascii_case_refl (trim_dots name)) refl

put_other :
    (s : Sets) (name other : Text) (next : ℕ × List Text)
    → names_equal other name ≡ false
    → put s name next other ≡ s other
unfolding names_equal
put_other s name other next d =
    rw (eq_ignore_ascii_case_comm (trim_dots name) (trim_dots other), d) refl

one-PlainSet : PlainSet served_one
unfolding gentlsa.Prelude.trim_end_by gentlsa.Prelude.trim_start_by gentlsa.Prelude.is_whitespace
one-PlainSet = record {
  name = record { no_tag = ground arith; no_edge = refl };
  record_type = record { no_tag = ground arith; no_edge = refl };
  values = (record { no_tag = ground arith; no_edge = refl }, tt);
}

values_start : (fqdn : Text) → values_at (served_one ∷ []) fqdn ≡ (start fqdn).1
unfolding gentlsa.Prelude.lower
values_start fqdn = elim (Bool-cases (names_equal owner fqdn)) [
  | inl same ↦ rw same refl
  | inr other ↦ rw other refl
]

abbrev toy-Serves : Serves toy zone start
toy-Serves = record {
  values_of = λ s fqdn. (s fqdn).1;
  ttl_of = λ s fqdn. (s fqdn).0;
  all_pages = (served_one ∷ []) ∷ [];
  pages = last_page none (served_one ∷ []) refl (one-PlainSet, tt);
  served = values_start;
  upserts = λ fqdn values ttl body asks ne b. (
    put start fqdn (ttl, values),
    answer-AsksFor start (codes "UPSERT") fqdn ttl values body (ground arith) b asks,
    ap (λ p. p.1) (put_self start fqdn (ttl, values)),
    ap (λ p. p.0) (put_self start fqdn (ttl, values)),
    λ other d. ap (λ p. p.1) (put_other start fqdn other (ttl, values) d),
  );
  deletes = λ fqdn values ttl body asks t v b. (
    put start fqdn (0, []),
    answer-AsksFor start (codes "DELETE") fqdn ttl values body (ground arith) b asks
        ∙ changed-deletes start fqdn ttl values t v,
    ap (λ p. p.1) (put_self start fqdn (0, [])),
    λ other d. ap (λ p. p.1) (put_other start fqdn other (0, []) d),
  );
}

bb-IsHash : IsHash (codes "bb")
unfolding gentlsa.Prelude.is_whitespace
bb-IsHash = record { some_text = λ e. cc e; no_space = (refl, (refl, tt)) }

publish_tlsa-upserts_example :
    let fqdn = fqdn_owner zone.name none 443 in
    let ours = dane_of toy zone start toy-Serves start fqdn in
    let action = publish_action ours (codes "bb") rollover false in
    (s' : Sets) × (publish_tlsa toy 1 zone 60 none 443 (codes "bb") rollover false start
      ≡ some (
        publish_report zone none 443 rollover false (ours_of toy zone start toy-Serves fqdn) action,
        s',
      ))
    × Holds toy zone start toy-Serves fqdn (rrset_after_publish ours (codes "bb") action) s'
publish_tlsa-upserts_example =
    publish_tlsa-upserts toy zone start toy-Serves 1 60 none 443 (codes "bb") rollover false
      (omega arith) bb-IsHash (omega arith)

start-CanDelete : CanDelete toy zone start toy-Serves (fqdn_owner zone.name none 443) 300
unfolding names_equal gentlsa.Prelude.trim_end_by fqdn_owner gentlsa.Prelude.Decimal.to_string
    gentlsa.Prelude.lower rdata_dane gentlsa.Publish.Rdata.next_u8 gentlsa.Prelude.words_from
    gentlsa.Prelude.is_whitespace gentlsa.Prelude.Decimal.parse_uint
    gentlsa.Publish.Rdata.joined_certificate format_tlsa_rdata
start-CanDelete = (refl, refl)

prune_tlsa-upserts_example :
    let fqdn = fqdn_owner zone.name none 443 in
    let ours = dane_of toy zone start toy-Serves start fqdn in
    (s' : Sets) × (prune_tlsa toy 1 zone 300 none 443 (codes "bb") false start
      ≡ some (prune_report zone false (stale_dane ours (codes "bb")), s'))
    × Holds toy zone start toy-Serves fqdn
        (if false then ours else rrset_after_prune ours (codes "bb"))
        s'
prune_tlsa-upserts_example =
    prune_tlsa-upserts toy zone start toy-Serves 1 300 none 443 (codes "bb") false (omega arith)
      (omega arith) (inr (inr start-CanDelete))

body_set :
    parse_rrsets (change_batch (codes "UPSERT") owner listed_dane 60)
    ≡ record { name = owner; record_type = codes "TLSA"; values = codes "3 1 1 aa" ∷ [] } ∷ []
unfolding parse_rrsets gentlsa.Route53.Xml.xml_blocks change_batch gentlsa.Route53.Xml.xml_escape
    gentlsa.Prelude.Decimal.to_string format_tlsa_rdata gentlsa.Route53.Xml.xml_text
    gentlsa.Prelude.trim_end_by gentlsa.Prelude.trim_start_by gentlsa.Prelude.is_whitespace
body_set = refl

civil-days_after_example : civil 60 ≡ days_after (record { year = 1970; month = 1; day = 1 }) 60
civil-days_after_example = civil-days_after 60

leap_day : civil 11016 ≡ record { year = 2000; month = 2; day = 29 }
unfolding civil
leap_day = refl

epoch_stamps : amz_timestamps 1440938160 ≡ (codes "20150830T123600Z", codes "20150830")
unfolding amz_timestamps
epoch_stamps = refl
