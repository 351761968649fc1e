-- ===== src/Route53/Request.antt =====
-- src/route53.rs: the body of a change as Route 53 documents it, and that `change_batch` writes it.
use gentlsa.Prelude.{
  ℕ, ◌≡◌, ◌≢◌, refl, sym, ap, inl, inr, Text, codes, ◌==◌, ==_iff, List, [], ◌∷◌, ◌++◌, concat, map,
  append_assoc, arith, Bool-cases,
}
use mathlib.Core.Path.{subst}
use gentlsa.Prelude.Decimal.{to_string}
use gentlsa.Publish.{DaneTlsa}
use gentlsa.Publish.Rdata.{format_tlsa_rdata}
use gentlsa.Route53.{value_element, change_batch}
use gentlsa.Route53.Xml.{open_tag, close_tag, escape_char, xml_escape}

-- The text of an element, with its entities, spells a text.
pub data Spells : Text → Text → Type 0 where
  ends : Spells [] []
  plain : (c : ℕ) (e t : Text) → c ≢ b'&' → c ≢ b'<' → Spells e t → Spells (c ∷ e) (c ∷ t)
  amp : (e t : Text) → Spells e t → Spells (codes "&amp;" ++ e) (b'&' ∷ t)
  lt : (e t : Text) → Spells e t → Spells (codes "&lt;" ++ e) (b'<' ∷ t)
  gt : (e t : Text) → Spells e t → Spells (codes "&gt;" ++ e) (b'>' ∷ t)
  quot : (e t : Text) → Spells e t → Spells (codes "&quot;" ++ e) (34 ∷ t)

-- The records of a set, one element for each value.
pub data ListsValues : Text → List Text → Type 0 where
  no_value : ListsValues [] []
  value :
      (e v rest : Text) (vs : List Text)
      → Spells e v
      → ListsValues rest vs
      → ListsValues
          (codes "<ResourceRecord><Value>" ++ (e ++ (codes "</Value></ResourceRecord>" ++ rest)))
          (v ∷ vs)

-- An element with its content, in front of a rest.
abbrev element : Text → (Text → Text) → Text → Text
element tag content rest = open_tag tag ++ content (close_tag tag ++ rest)

-- Space between elements.
abbrev indented : Text → (Text → Text) → Text → Text → Text
indented before content behind rest = before ++ content (behind ++ rest)

abbrev text : Text → Text → Text
text t rest = t ++ rest

-- The elements of a change of the TLSA set of a name.
abbrev rrset_element : Text → Text → Text → Text → Text
rrset_element name ttl records' = element (codes "ResourceRecordSet") (
    indented (codes "\n          ")
      (λ rest. element (codes "Name") (text name) (
        codes "\n          "
        ++ element (codes "Type") (text (codes "TLSA")) (
            codes "\n          "
            ++ element (codes "TTL") (text ttl)
                (codes "\n          " ++ element (codes "ResourceRecords") (text records') rest))))
      (codes "\n        "))

abbrev change_element : Text → Text → Text → Text → Text → Text
change_element action name ttl records' = element (codes "Change") (
    indented (codes "\n        ")
      (λ rest.
        element (codes "Action") (text action)
          (codes "\n        " ++ rrset_element name ttl records' rest))
      (codes "\n      "))

-- A body that asks for one change.
abbrev pub request_text : Text → Text → Text → Text → Text
request_text action name ttl records' =
    codes
      "<?xml version=\"1.0\" encoding=\"UTF-8\"?>\n<ChangeResourceRecordSetsRequest xmlns=\"https://route53.amazonaws.com/doc/2013-04-01/\">"
    ++ indented (codes "\n  ")
        (element (codes "ChangeBatch") (
          indented (codes "\n    ")
            (element (codes "Changes") (
              indented (codes "\n      ") (change_element action name ttl records')
                (codes "\n    ")))
            (codes "\n  ")))
        (codes "\n") (codes "</ChangeResourceRecordSetsRequest>")

-- The body asks for an action on the TLSA set of a name, with a TTL and values.
pub record AsksFor (action name : Text) (ttl : ℕ) (values : List Text) (body : Text) : Type 0 where
  pub name_text : Text
  pub records_text : Text
  pub named : Spells name_text name
  pub lists : ListsValues records_text values
  pub spelled : body ≡ request_text action name_text (to_string ttl) records_text

xml_escape-Spells : (t : Text) → Spells (xml_escape t) t
unfolding xml_escape escape_char
xml_escape-Spells [] = ends
xml_escape-Spells (c ∷ t) =
    let ih = xml_escape-Spells t in
    elim (Bool-cases (c == b'&')) [
      | inl e ↦ rw ((==_iff c b'&').0 e) (amp (xml_escape t) t ih)
      | inr n0 ↦ elim (Bool-cases (c == b'<')) [
        | inl e ↦ rw ((==_iff c b'<').0 e) (lt (xml_escape t) t ih)
        | inr n1 ↦ elim (Bool-cases (c == b'>')) [
          | inl e ↦ rw ((==_iff c b'>').0 e) (gt (xml_escape t) t ih)
          | inr n2 ↦ elim (Bool-cases (c == 34)) [
            | inl e ↦ rw ((==_iff c 34).0 e) (quot (xml_escape t) t ih)
            | inr n3 ↦
                rw (n0, n1, n2, n3)
                  (plain c (xml_escape t) t (ground (arith, n0)) (ground (arith, n1)) ih)
          ]
        ]
      ]
    ]

values-ListsValues :
    (records' : List DaneTlsa)
    → ListsValues (concat (map value_element records')) (map format_tlsa_rdata records')
unfolding value_element
values-ListsValues [] = no_value
values-ListsValues (r ∷ records') =
    let e = xml_escape (format_tlsa_rdata r) in
    let rest = concat (map value_element records') in
    subst (λ x. ListsValues x (map format_tlsa_rdata (r ∷ records')))
      (ap (λ x. codes "<ResourceRecord><Value>" ++ x)
        (sym (append_assoc e (codes "</Value></ResourceRecord>") rest)))
      (value e (format_tlsa_rdata r) rest (map format_tlsa_rdata records')
        (xml_escape-Spells (format_tlsa_rdata r)) (values-ListsValues records'))

-- The body of a change asks for the action, name, TTL and values that it is made of.
pub change_batch-AsksFor :
    (action name : Text) (records' : List DaneTlsa) (ttl : ℕ)
    → AsksFor action name ttl
        (map format_tlsa_rdata records')
        (change_batch action name records' ttl)
unfolding change_batch
change_batch-AsksFor action name records' ttl = record {
  name_text = xml_escape name;
  records_text = concat (map value_element records');
  named = xml_escape-Spells name;
  lists = values-ListsValues records';
  spelled = refl;
}
