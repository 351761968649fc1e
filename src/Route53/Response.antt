-- ===== src/Route53/Response.antt =====
-- src/route53.rs: the pages of a listing as Route 53 documents them, and how `tlsa_records` reads one.
use gentlsa.Prelude.{
  ℕ, zero, suc, ◌≤◌, ◌≡◌, ◌≢◌, refl, ap, ◌∙◌, Text, codes, true, Option, none, some, List, [], ◌∷◌,
  ◌++◌, length, append_assoc, map, trim, All, All-mono, arith,
}
use gentlsa.Prelude.Decimal.{to_string, to_string-All, IsDigit}
use gentlsa.Route53.Xml.{blocks_from}
use gentlsa.Route53.Scan.{
  clear, clear-append, NoTag, NoTag-clear, blocks-skip, blocks-hit, blocks-none,
}

-- A record set of a zone: no alias, and under no routing policy.
pub record ServedSet : Type 0 where
  pub name : Text
  pub record_type : Text
  pub ttl : ℕ
  pub values : List Text

-- Names are printed with octal escapes, and so without `<` and without space at their ends, as types
-- and values of these sets are.
pub record Plain (t : Text) : Type 0 where
  pub no_tag : NoTag t
  pub no_edge : trim t ≡ t

pub record PlainSet (set : ServedSet) : Type 0 where
  pub name : Plain set.name
  pub record_type : Plain set.record_type
  pub values : All Plain set.values

-- The set that follows the page.
pub record NextSet : Type 0 where
  pub name : Text
  pub record_type : Text

pub record PlainNext (next : NextSet) : Type 0 where
  pub name : Plain next.name
  pub record_type : Plain next.record_type

abbrev pub values_text : List Text → Text
values_text [] = []
values_text (v ∷ vs) =
    codes "<ResourceRecord><Value>" ++ (v ++ (codes "</Value></ResourceRecord>" ++ values_text vs))

abbrev pub set_text : ServedSet → Text
set_text set =
    codes "<Name>"
    ++ (set.name
        ++ (codes "</Name><Type>"
            ++ (set.record_type
                ++ (codes "</Type><TTL>"
                    ++ (to_string set.ttl
                        ++ (codes "</TTL><ResourceRecords>"
                            ++ (values_text set.values ++ codes "</ResourceRecords>")))))))

abbrev pub sets_text : List ServedSet → Text
sets_text [] = []
sets_text (set ∷ sets) =
    codes "<ResourceRecordSet>"
    ++ (set_text set ++ (codes "</ResourceRecordSet>" ++ sets_text sets))

abbrev pub head_text : Text
head_text =
    codes
      "<?xml version=\"1.0\" encoding=\"UTF-8\"?>\n<ListResourceRecordSetsResponse xmlns=\"https://route53.amazonaws.com/doc/2013-04-01/\"><ResourceRecordSets>"

abbrev pub next_text : Option NextSet → Text
next_text none =
    codes
      "</ResourceRecordSets><IsTruncated>false</IsTruncated><MaxItems>300</MaxItems></ListResourceRecordSetsResponse>"
next_text (some next) =
    codes
      "</ResourceRecordSets><IsTruncated>true</IsTruncated><MaxItems>300</MaxItems><NextRecordName>"
    ++ (next.name
        ++ (codes "</NextRecordName><NextRecordType>"
            ++ (next.record_type ++ codes "</NextRecordType></ListResourceRecordSetsResponse>")))

-- The body of a page: its sets, and the set that the next page starts at.
abbrev pub page_text : List ServedSet → Option NextSet → Text
page_text sets next = head_text ++ (sets_text sets ++ next_text next)

pub digits-NoTag : (n : ℕ) → NoTag (to_string n)
digits-NoTag n =
    All-mono IsDigit (λ c. c ≢ b'<') (to_string n) (λ c d e. omega (arith, d, e)) (to_string-All n)

-- The fixed parts of a set and of the list of them.
abbrev pub chunks : List Text
chunks =
    codes "<Name>"
    ∷ codes "</Name><Type>"
    ∷ codes "</Type><TTL>"
    ∷ codes "</TTL><ResourceRecords>"
    ∷ codes "<ResourceRecord><Value>"
    ∷ codes "</Value></ResourceRecord>"
    ∷ codes "</ResourceRecords>"
    ∷ []

module _ (tag : Text) (fixed : All (λ c. clear (b'<' ∷ tag) c ≡ true) chunks) where
  values-clear : (vs : List Text) → All Plain vs → clear (b'<' ∷ tag) (values_text vs) ≡ true
  values-clear [] h = refl
  values-clear (v ∷ vs) (hv, h) =
      let (_, (_, (_, (_, (before, (behind, _)))))) = fixed in
      clear-append (b'<' ∷ tag) (codes "<ResourceRecord><Value>") _ before (
        clear-append (b'<' ∷ tag) v _ (NoTag-clear tag v hv.no_tag) (
          clear-append (b'<' ∷ tag) (codes "</Value></ResourceRecord>") (values_text vs) behind
            (values-clear vs h)))

  pub set-clear : (set : ServedSet) → PlainSet set → clear (b'<' ∷ tag) (set_text set) ≡ true
  set-clear set h =
      let (c0, (c1, (c2, (c3, (_, (_, (c6, _))))))) = fixed in
      let p = b'<' ∷ tag in
      clear-append p (codes "<Name>") _ c0 (
        clear-append p set.name _ (NoTag-clear tag set.name h.name.no_tag) (
          clear-append p (codes "</Name><Type>") _ c1 (
            clear-append p set.record_type _ (NoTag-clear tag set.record_type h.record_type.no_tag)
              (clear-append p (codes "</Type><TTL>") _ c2 (
                clear-append p (to_string set.ttl) _ (NoTag-clear tag _ (digits-NoTag set.ttl)) (
                  clear-append p (codes "</TTL><ResourceRecords>") _ c3 (
                    clear-append p (values_text set.values) _ (values-clear set.values h.values)
                      c6)))))))

  pub sets-clear :
      (sets : List ServedSet)
      → clear (b'<' ∷ tag) (codes "<ResourceRecordSet>") ≡ true
      → clear (b'<' ∷ tag) (codes "</ResourceRecordSet>") ≡ true
      → All PlainSet sets
      → clear (b'<' ∷ tag) (sets_text sets) ≡ true
  sets-clear [] o c h = refl
  sets-clear (set ∷ sets) o c (hs, h) =
      clear-append (b'<' ∷ tag) (codes "<ResourceRecordSet>") _ o (
        clear-append (b'<' ∷ tag) (set_text set) _ (set-clear set hs) (
          clear-append (b'<' ∷ tag) (codes "</ResourceRecordSet>") (sets_text sets) c
            (sets-clear sets o c h)))

-- The values of a set, read from behind its name, type and TTL.
pub values-blocks :
    (vs : List Text) (fuel : ℕ)
    → length vs ≤ fuel
    → All Plain vs
    → map trim (blocks_from fuel (codes "Value") (values_text vs ++ codes "</ResourceRecords>"))
      ≡ vs
values-blocks [] fuel f h =
    ap (map trim) (blocks-none (codes "Value") fuel (codes "</ResourceRecords>") refl)
values-blocks (v ∷ vs) zero f h = absurd (omega (arith, f))
values-blocks (v ∷ vs) (suc fuel) f (hv, h) =
    let rest = codes "</ResourceRecord>" ++ (values_text vs ++ codes "</ResourceRecords>") in
    ap (map trim) (
      ap (blocks_from (suc fuel) (codes "Value")) (
        ap (λ x. codes "<ResourceRecord><Value>" ++ x)
          (append_assoc v _ (codes "</ResourceRecords>")))
      ∙ (blocks-skip (codes "Value") (suc fuel) (codes "<ResourceRecord>")
            (codes "<Value>" ++ (v ++ (codes "</Value>" ++ rest))) refl
          ∙ (blocks-hit (codes "Value") fuel v rest (NoTag-clear (codes "/Value>") v hv.no_tag)
              ∙ ap (λ bs. v ∷ bs)
                  (blocks-skip (codes "Value") fuel (codes "</ResourceRecord>")
                    (values_text vs ++ codes "</ResourceRecords>") refl))))
    ∙ (ap
          (λ t.
            t
            ∷ map trim
                (blocks_from fuel (codes "Value") (values_text vs ++ codes "</ResourceRecords>")))
          hv.no_edge
        ∙ ap (λ ts. v ∷ ts) (values-blocks vs fuel (omega (arith, f)) h))
