-- ===== src/Route53/NextPage.antt =====
-- src/route53.rs: how the loop of `tlsa_records` finds the next page in a documented one.
use gentlsa.Prelude.{
  ℕ, zero, suc, ◌≤◌, ◌≡◌, refl, sym, ap, ◌∙◌, Text, codes, true, false, Option, none, some, List,
  [], ◌∷◌, ◌++◌, length, length-append, append_assoc, map, filter, filter_map, trim, All, some-inj,
  arith,
}
use mathlib.Core.Path.{subst}
use gentlsa.Route53.{Marker, next_record}
use gentlsa.Route53.Xml.{xml_text}
use gentlsa.Route53.Scan.{clear, clear-append, NoTag-clear, xml_text-hit, xml_text-none}
use gentlsa.Route53.Response.{
  ServedSet, PlainSet, NextSet, PlainNext, sets_text, head_text, next_text, page_text, chunks,
  sets-clear,
}
use gentlsa.Route53.Reading.{next-clear}

module _ (sets : List ServedSet) (h : All PlainSet sets) where
  -- A text behind the sets of a page.
  behind_sets :
      (tag before block rest : Text)
      → All (λ c. clear (codes "<" ++ (tag ++ codes ">")) c ≡ true) chunks
      → clear (codes "<" ++ (tag ++ codes ">")) (codes "<ResourceRecordSet>") ≡ true
      → clear (codes "<" ++ (tag ++ codes ">")) (codes "</ResourceRecordSet>") ≡ true
      → clear (codes "<" ++ (tag ++ codes ">")) head_text ≡ true
      → clear (codes "<" ++ (tag ++ codes ">")) before ≡ true
      → clear (codes "</" ++ (tag ++ codes ">")) block ≡ true
      → xml_text
          (head_text
            ++ (sets_text sets
                ++ (before
                    ++ (codes "<"
                        ++ ((tag ++ codes ">")
                            ++ (block ++ (codes "</" ++ ((tag ++ codes ">") ++ rest))))))))
          tag
        ≡ some (trim block)
  behind_sets tag before block rest fixed o c hd b k =
      let t = codes "<" ++ (tag ++ codes ">") in
      let element = t ++ (block ++ ((codes "</" ++ (tag ++ codes ">")) ++ rest)) in
      let split : head_text ++ (sets_text sets ++ (before ++ element))
          ≡ (head_text ++ (sets_text sets ++ before)) ++ element =
        ap (λ x. head_text ++ x) (sym (append_assoc (sets_text sets) before element))
        ∙ sym (append_assoc head_text (sets_text sets ++ before) element) in
      ap (λ x. xml_text x tag) split
      ∙ xml_text-hit tag (head_text ++ (sets_text sets ++ before)) block rest
          (clear-append t head_text (sets_text sets ++ before) hd (
            clear-append t (sets_text sets) before (sets-clear (tag ++ codes ">") fixed sets o c h)
              b))
          k

  truncated_read :
      (next : Option NextSet)
      → xml_text (page_text sets next) (codes "IsTruncated")
        ≡ some (elim next [ none ↦ codes "false" | some n ↦ codes "true" ])
  unfolding gentlsa.Prelude.trim_end_by gentlsa.Prelude.trim_start_by gentlsa.Prelude.is_whitespace
  truncated_read none =
      behind_sets (codes "IsTruncated") (codes "</ResourceRecordSets>") (codes "false")
        (codes "<MaxItems>300</MaxItems></ListResourceRecordSetsResponse>")
        (refl, (refl, (refl, (refl, (refl, (refl, (refl, tt))))))) refl refl refl refl refl
  truncated_read (some n) =
      behind_sets (codes "IsTruncated") (codes "</ResourceRecordSets>") (codes "true")
        (codes "<MaxItems>300</MaxItems><NextRecordName>"
          ++ (n.name
              ++ (codes "</NextRecordName><NextRecordType>"
                  ++ (n.record_type
                      ++ codes "</NextRecordType></ListResourceRecordSetsResponse>"))))
        (refl, (refl, (refl, (refl, (refl, (refl, (refl, tt))))))) refl refl refl refl refl

  next_name_read :
      (n : NextSet)
      → PlainNext n
      → xml_text (page_text sets (some n)) (codes "NextRecordName") ≡ some n.name
  next_name_read n p =
      behind_sets (codes "NextRecordName")
        (codes "</ResourceRecordSets><IsTruncated>true</IsTruncated><MaxItems>300</MaxItems>")
        n.name
        (codes "<NextRecordType>"
          ++ (n.record_type ++ codes "</NextRecordType></ListResourceRecordSetsResponse>"))
        (refl, (refl, (refl, (refl, (refl, (refl, (refl, tt))))))) refl refl refl refl
        (NoTag-clear (codes "/NextRecordName>") n.name p.name.no_tag)
      ∙ ap some p.name.no_edge

  next_type_read :
      (n : NextSet)
      → PlainNext n
      → xml_text (page_text sets (some n)) (codes "NextRecordType") ≡ some n.record_type
  next_type_read n p =
      let first =
        codes
          "</ResourceRecordSets><IsTruncated>true</IsTruncated><MaxItems>300</MaxItems><NextRecordName>" in
      let rest = codes "</ListResourceRecordSetsResponse>" in
      let behind =
        codes "<NextRecordType>" ++ (n.record_type ++ (codes "</NextRecordType>" ++ rest)) in
      let split : page_text sets (some n)
          ≡ head_text
            ++ (sets_text sets ++ ((first ++ (n.name ++ codes "</NextRecordName>")) ++ behind)) =
        ap (λ x. head_text ++ (sets_text sets ++ (first ++ x)))
          (sym (append_assoc n.name (codes "</NextRecordName>") behind)) in
      ap (λ x. xml_text x (codes "NextRecordType")) split
      ∙ (behind_sets (codes "NextRecordType") (first ++ (n.name ++ codes "</NextRecordName>"))
            n.record_type rest (refl, (refl, (refl, (refl, (refl, (refl, (refl, tt))))))) refl refl
            refl
            (clear-append (codes "<NextRecordType>") first (n.name ++ codes "</NextRecordName>")
              refl
              (clear-append (codes "<NextRecordType>") n.name (codes "</NextRecordName>")
                (NoTag-clear (codes "NextRecordType>") n.name p.name.no_tag) refl))
            (NoTag-clear (codes "/NextRecordType>") n.record_type p.record_type.no_tag)
          ∙ ap some p.record_type.no_edge)

  no_identifier :
      (n : NextSet)
      → PlainNext n
      → xml_text (page_text sets (some n)) (codes "NextRecordIdentifier") ≡ none
  no_identifier n p =
      let t = codes "<NextRecordIdentifier>" in
      xml_text-none (codes "NextRecordIdentifier") (page_text sets (some n)) (
        clear-append t head_text (sets_text sets ++ next_text (some n)) refl (
          clear-append t (sets_text sets) (next_text (some n))
            (sets-clear (codes "NextRecordIdentifier>")
              (refl, (refl, (refl, (refl, (refl, (refl, (refl, tt))))))) sets refl refl h)
            (next-clear (codes "NextRecordIdentifier>") (some n)
              (λ m e. subst PlainNext (some-inj n m e) p) refl refl refl refl)))

-- The query for the next page.
abbrev pub next_marker_of : Option NextSet → Option (Option Marker)
next_marker_of none = none
next_marker_of (some n) =
    some (some (record { name = n.name; rtype = some n.record_type; identifier = none }))

-- The next page is asked for where there is one.
pub next_record-page_text :
    (sets : List ServedSet) (next : Option NextSet)
    → All PlainSet sets
    → ((n : NextSet) → next ≡ some n → PlainNext n)
    → next_record (page_text sets next) ≡ next_marker_of next
unfolding next_record
next_record-page_text sets none h p = rw (truncated_read sets h none) refl
next_record-page_text sets (some n) h p =
    rw
      (
        truncated_read sets h (some n),
        next_name_read sets h n (p n refl),
        next_type_read sets h n (p n refl),
        no_identifier sets h n (p n refl),
      )
      refl
