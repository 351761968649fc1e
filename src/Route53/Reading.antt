-- ===== src/Route53/Reading.antt =====
-- src/route53.rs: what `parse_rrsets` reads of a documented page.
use gentlsa.Prelude.{
  ℕ, zero, suc, ◌≤◌, ◌≡◌, refl, sym, ap, ◌∙◌, Text, codes, true, Option, none, some, List, [], ◌∷◌,
  ◌++◌, length, length-append, append_assoc, map, filter_map, trim, All, arith,
}
use gentlsa.Prelude.Decimal.{to_string}
use gentlsa.Route53.{ParsedRrset, parse_rrset, parse_rrsets}
use gentlsa.Route53.Xml.{blocks_from, xml_blocks, xml_texts, xml_text}
use gentlsa.Route53.Scan.{
  clear, clear-append, NoTag-clear, blocks-skip, blocks-hit, blocks-none, xml_text-hit,
}
use gentlsa.Route53.Response.{
  ServedSet, PlainSet, NextSet, PlainNext, values_text, set_text, sets_text, head_text, next_text,
  page_text, digits-NoTag, set-clear, values-blocks,
}

values_length : (vs : List Text) → length vs ≤ length (values_text vs)
values_length [] = omega arith
values_length (v ∷ vs) =
    omega (
      arith,
      values_length vs,
      length-append v (codes "</Value></ResourceRecord>" ++ values_text vs),
    )

-- The set that is read of a set.
abbrev pub read_set : ServedSet → ParsedRrset
read_set set = record { name = set.name; record_type = set.record_type; values = set.values }

name_read :
    (set : ServedSet) → PlainSet set → xml_text (set_text set) (codes "Name") ≡ some set.name
name_read set h =
    xml_text-hit (codes "Name") [] set.name _ refl
      (NoTag-clear (codes "/Name>") set.name h.name.no_tag)
    ∙ ap some h.name.no_edge

type_read :
    (set : ServedSet) → PlainSet set → xml_text (set_text set) (codes "Type") ≡ some set.record_type
type_read set h =
    let before = codes "<Name>" ++ (set.name ++ codes "</Name>") in
    let rest =
      codes "<TTL>"
      ++ (to_string set.ttl
          ++ (codes "</TTL><ResourceRecords>"
              ++ (values_text set.values ++ codes "</ResourceRecords>"))) in
    let behind = codes "<Type>" ++ (set.record_type ++ (codes "</Type>" ++ rest)) in
    let split : set_text set ≡ before ++ behind =
      ap (λ x. codes "<Name>" ++ x) (sym (append_assoc set.name (codes "</Name>") behind)) in
    ap (λ x. xml_text x (codes "Type")) split
    ∙ (xml_text-hit (codes "Type") before set.record_type rest
          (clear-append (codes "<Type>") (codes "<Name>") (set.name ++ codes "</Name>") refl (
            clear-append (codes "<Type>") set.name (codes "</Name>")
              (NoTag-clear (codes "Type>") set.name h.name.no_tag) refl))
          (NoTag-clear (codes "/Type>") set.record_type h.record_type.no_tag)
        ∙ ap some h.record_type.no_edge)

values_read :
    (set : ServedSet) → PlainSet set → xml_texts (set_text set) (codes "Value") ≡ set.values
unfolding xml_texts xml_blocks
values_read set h =
    let fuel = suc (length (set_text set)) in
    let tag = codes "Value" in
    let values = values_text set.values ++ codes "</ResourceRecords>" in
    let x3 = codes "</TTL><ResourceRecords>" ++ values in
    let x2 = codes "</Type><TTL>" ++ (to_string set.ttl ++ x3) in
    let x1 = codes "</Name><Type>" ++ (set.record_type ++ x2) in
    let skips =
      blocks-skip tag fuel (codes "<Name>") (set.name ++ x1) refl
      ∙ (blocks-skip tag fuel set.name x1 (NoTag-clear (codes "Value>") _ h.name.no_tag)
          ∙ (blocks-skip tag fuel (codes "</Name><Type>") (set.record_type ++ x2) refl
              ∙ (blocks-skip tag fuel set.record_type x2
                    (NoTag-clear (codes "Value>") _ h.record_type.no_tag)
                  ∙ (blocks-skip tag fuel (codes "</Type><TTL>") (to_string set.ttl ++ x3) refl
                      ∙ (blocks-skip tag fuel (to_string set.ttl) x3
                            (NoTag-clear (codes "Value>") _ (digits-NoTag set.ttl))
                          ∙ blocks-skip tag fuel (codes "</TTL><ResourceRecords>") values
                              refl))))) in
    ap (map trim) skips
    ∙ values-blocks set.values fuel
        (omega (
          arith,
          values_length set.values,
          length-append set.name x1,
          length-append set.record_type x2,
          length-append (to_string set.ttl) x3,
          length-append (values_text set.values) (codes "</ResourceRecords>"),
        ))
        h.values

set-read : (set : ServedSet) → PlainSet set → parse_rrset (set_text set) ≡ some (read_set set)
unfolding parse_rrset
set-read set h = rw (name_read set h) (
    rw (type_read set h) (
      ap (λ vs. some (record { name = set.name; record_type = set.record_type; values = vs }))
        (values_read set h)))

pub next-clear :
    (tag : Text) (next : Option NextSet)
    → ((n : NextSet) → next ≡ some n → PlainNext n)
    → clear (b'<' ∷ tag) (next_text none) ≡ true
    → clear (b'<' ∷ tag) (
        codes
          "</ResourceRecordSets><IsTruncated>true</IsTruncated><MaxItems>300</MaxItems><NextRecordName>")
      ≡ true
    → clear (b'<' ∷ tag) (codes "</NextRecordName><NextRecordType>") ≡ true
    → clear (b'<' ∷ tag) (codes "</NextRecordType></ListResourceRecordSetsResponse>") ≡ true
    → clear (b'<' ∷ tag) (next_text next) ≡ true
next-clear tag none p a b c d = a
next-clear tag (some n) p a b c d =
    let h = p n refl in
    let t = b'<' ∷ tag in
    clear-append t
      (codes
        "</ResourceRecordSets><IsTruncated>true</IsTruncated><MaxItems>300</MaxItems><NextRecordName>")
      (n.name
        ++ (codes "</NextRecordName><NextRecordType>"
            ++ (n.record_type ++ codes "</NextRecordType></ListResourceRecordSetsResponse>")))
      b
      (clear-append t n.name
        (codes "</NextRecordName><NextRecordType>"
          ++ (n.record_type ++ codes "</NextRecordType></ListResourceRecordSetsResponse>"))
        (NoTag-clear tag n.name h.name.no_tag)
        (clear-append t (codes "</NextRecordName><NextRecordType>")
          (n.record_type ++ codes "</NextRecordType></ListResourceRecordSetsResponse>") c
          (clear-append t n.record_type (codes "</NextRecordType></ListResourceRecordSetsResponse>")
            (NoTag-clear tag n.record_type h.record_type.no_tag) d)))

sets-blocks :
    (sets : List ServedSet) (next : Option NextSet) (fuel : ℕ)
    → length sets ≤ fuel
    → All PlainSet sets
    → ((n : NextSet) → next ≡ some n → PlainNext n)
    → blocks_from fuel (codes "ResourceRecordSet") (sets_text sets ++ next_text next)
      ≡ map set_text sets
sets-blocks [] next fuel f h p =
    blocks-none (codes "ResourceRecordSet") fuel (next_text next)
      (next-clear (codes "ResourceRecordSet>") next p refl refl refl refl)
sets-blocks (set ∷ sets) next zero f h p = absurd (omega (arith, f))
sets-blocks (set ∷ sets) next (suc fuel) f (hs, h) p =
    ap (λ x. blocks_from (suc fuel) (codes "ResourceRecordSet") (codes "<ResourceRecordSet>" ++ x))
      (append_assoc (set_text set) (codes "</ResourceRecordSet>" ++ sets_text sets)
        (next_text next))
    ∙ (blocks-hit (codes "ResourceRecordSet") fuel (set_text set) (sets_text sets ++ next_text next)
          (set-clear (codes "/ResourceRecordSet>")
            (refl, (refl, (refl, (refl, (refl, (refl, (refl, tt))))))) set hs)
        ∙ ap (λ bs. set_text set ∷ bs) (sets-blocks sets next fuel (omega (arith, f)) h p))

sets_length : (sets : List ServedSet) → length sets ≤ length (sets_text sets)
sets_length [] = omega arith
sets_length (set ∷ sets) = omega (
  arith,
  sets_length sets,
  length-append (set_text set) (codes "</ResourceRecordSet>" ++ sets_text sets),
)

sets_read :
    (sets : List ServedSet)
    → All PlainSet sets
    → filter_map parse_rrset (map set_text sets) ≡ map read_set sets
sets_read [] h = refl
sets_read (set ∷ sets) (hs, h) =
    rw (set-read set hs) (ap (λ x. read_set set ∷ x) (sets_read sets h))

-- The sets of a page are read as they are served.
pub parse_rrsets-page_text :
    (sets : List ServedSet) (next : Option NextSet)
    → All PlainSet sets
    → ((n : NextSet) → next ≡ some n → PlainNext n)
    → parse_rrsets (page_text sets next) ≡ map read_set sets
unfolding parse_rrsets xml_blocks
parse_rrsets-page_text sets next h p =
    let fuel = suc (length (page_text sets next)) in
    ap (filter_map parse_rrset) (
      blocks-skip (codes "ResourceRecordSet") fuel head_text (sets_text sets ++ next_text next) refl
      ∙ sets-blocks sets next fuel
          (omega (
            arith,
            sets_length sets,
            length-append (sets_text sets) (next_text next),
            length-append head_text (sets_text sets ++ next_text next),
          ))
          h p)
    ∙ sets_read sets h
