-- ===== src/Route53/Server.antt =====
-- A server for the tests of src/route53.rs: it reads the bodies that it is sent.
use gentlsa.Prelude.{
  ℕ, zero, suc, ◌≤◌, ◌≡◌, refl, ap, ◌∙◌, Text, codes, Bool, true, false, ◌&&◌, ◌==◌, ==_iff, Option,
  none, some, List, [], ◌∷◌, ◌++◌, length, length-append, append_assoc, map, text_eq, if◌then◌else◌,
  ◌>>=◌, arith,
}
use gentlsa.Prelude.StrLaws.{text_eq_refl}
use gentlsa.Prelude.Decimal.{to_string, parse_uint, parse_uint-to_string}
use gentlsa.Publish.Names.{names_equal}
use gentlsa.Route53.Xml.{blocks_from, xml_blocks, first_text}
use gentlsa.Route53.Scan.{NoTag, NoTag-clear, blocks-skip, blocks-hit, blocks-none}
use gentlsa.Route53.Response.{digits-NoTag}
use gentlsa.Route53.Request.{
  Spells, ends, plain, amp, lt, gt, quot, ListsValues, no_value, value, AsksFor, request_text,
}
use gentlsa.Route53.Change.{max_ttl}

-- The character of an entity by its first letter, and the rest of the entity.
abbrev entity : Text → ℕ × ℕ
entity [] = (b'&', 0)
entity (c ∷ s) =
    if c == b'a'
    then (b'&', 4)
    else if c == b'l'
    then (b'<', 3)
    else if c == b'g'
    then (b'>', 3)
    else (34, 5)

-- The text without entities, behind a number of characters that are passed over.
pub unescape : ℕ → Text → Text
unescape n [] = []
unescape (suc n) (c ∷ s) = unescape n s
unescape zero (c ∷ s) =
    if c == b'&' then (entity s).0 ∷ unescape (entity s).1 s else c ∷ unescape 0 s

unescape-Spells : (e t : Text) → Spells e t → unescape 0 e ≡ t
unfolding unescape
unescape-Spells _ _ ends = refl
unescape-Spells _ _ (plain c e t n _ h) =
    let other : (c == b'&') ≡ false = ground (arith, n) in
    rw other (ap (λ x. c ∷ x) (unescape-Spells e t h))
unescape-Spells _ _ (amp e t h) = ap (λ x. b'&' ∷ x) (unescape-Spells e t h)
unescape-Spells _ _ (lt e t h) = ap (λ x. b'<' ∷ x) (unescape-Spells e t h)
unescape-Spells _ _ (gt e t h) = ap (λ x. b'>' ∷ x) (unescape-Spells e t h)
unescape-Spells _ _ (quot e t h) = ap (λ x. 34 ∷ x) (unescape-Spells e t h)

Spells-NoTag : (e t : Text) → Spells e t → NoTag e
Spells-NoTag _ _ ends = tt
Spells-NoTag _ _ (plain c e t _ n h) = (n, Spells-NoTag e t h)
Spells-NoTag _ _ (amp e t h) = ground (arith, Spells-NoTag e t h)
Spells-NoTag _ _ (lt e t h) = ground (arith, Spells-NoTag e t h)
Spells-NoTag _ _ (gt e t h) = ground (arith, Spells-NoTag e t h)
Spells-NoTag _ _ (quot e t h) = ground (arith, Spells-NoTag e t h)

-- The TTL and the values of an owner.
abbrev pub Sets : Type 0
Sets = Text → ℕ × List Text

abbrev pub put : Sets → Text → ℕ × List Text → Sets
put s name next other = if names_equal name other then next else s other

abbrev texts_eq : List Text → List Text → Bool
texts_eq [] [] = true
texts_eq [] (t ∷ ts) = false
texts_eq (s ∷ ss) [] = false
texts_eq (s ∷ ss) (t ∷ ts) = text_eq s t && texts_eq ss ts

texts_eq_refl : (ss : List Text) → texts_eq ss ss ≡ true
texts_eq_refl [] = refl
texts_eq_refl (s ∷ ss) = ground (arith, text_eq_refl s, texts_eq_refl ss)

-- An upsert puts a set, and a deletion tests the TTL and the values.
abbrev pub changed : Sets → Text → ℕ → List Text → Bool → Option Sets
changed s name ttl values true = some (put s name (ttl, values))
changed s name ttl values false =
    if (s name).0 == ttl && texts_eq (s name).1 values then some (put s name (0, [])) else none

abbrev field : Text → Text → Option Text
field body tag = first_text (xml_blocks body tag)

abbrev pub answer : Sets → Text → Option Sets
answer s body = do
  action ← field body (codes "Action")
  name ← field body (codes "Name")
  digits ← field body (codes "TTL")
  ttl ← parse_uint max_ttl digits
  changed s (unescape 0 name) ttl (map (unescape 0) (xml_blocks body (codes "Value")))
      (text_eq action (codes "UPSERT"))

ListsValues-length : (t : Text) (vs : List Text) → ListsValues t vs → length vs ≤ length t
ListsValues-length _ _ no_value = omega arith
ListsValues-length _ _ (value e v rest vs h l) = omega (
  arith,
  ListsValues-length rest vs l,
  length-append e (codes "</Value></ResourceRecord>" ++ rest),
)

abbrev behind_values : Text
behind_values =
    codes
      "</ResourceRecords>\n        </ResourceRecordSet>\n      </Change>\n    </Changes>\n  </ChangeBatch>\n</ChangeResourceRecordSetsRequest>"

values_read :
    (t : Text) (vs : List Text) (fuel : ℕ)
    → ListsValues t vs
    → length vs ≤ fuel
    → map (unescape 0) (blocks_from fuel (codes "Value") (t ++ behind_values)) ≡ vs
values_read _ _ fuel no_value f =
    ap (map (unescape 0)) (blocks-none (codes "Value") fuel behind_values refl)
values_read _ _ zero (value e v rest vs h l) f = absurd (omega (arith, f))
values_read _ _ (suc fuel) (value e v rest vs h l) f =
    let after = codes "</ResourceRecord>" ++ (rest ++ behind_values) in
    ap (map (unescape 0)) (
      ap (blocks_from (suc fuel) (codes "Value"))
        (ap (λ x. codes "<ResourceRecord><Value>" ++ x) (append_assoc e _ behind_values))
      ∙ (blocks-skip (codes "Value") (suc fuel) (codes "<ResourceRecord>")
            (codes "<Value>" ++ (e ++ (codes "</Value>" ++ after))) refl
          ∙ (blocks-hit (codes "Value") fuel e after
                (NoTag-clear (codes "/Value>") e (Spells-NoTag e v h))
              ∙ ap (λ bs. e ∷ bs)
                  (blocks-skip (codes "Value") fuel (codes "</ResourceRecord>")
                    (rest ++ behind_values) refl))))
    ∙ (ap (λ t. t ∷ map (unescape 0) (blocks_from fuel (codes "Value") (rest ++ behind_values)))
          (unescape-Spells e v h)
        ∙ ap (λ ts. v ∷ ts) (values_read rest vs fuel l (omega (arith, f))))

module _ (action name t : Text) (ttl : ℕ) (a : NoTag action) (n : NoTag name) where
  abbrev body : Text
  body = request_text action name (to_string ttl) t

  abbrev x4 : Text
  x4 = codes "</TTL>\n          <ResourceRecords>" ++ (t ++ behind_values)

  abbrev x3 : Text
  x3 = codes "</Name>\n          <Type>TLSA</Type>\n          <TTL>" ++ (to_string ttl ++ x4)

  abbrev x2 : Text
  x2 = codes "</Action>\n        <ResourceRecordSet>\n          <Name>" ++ (name ++ x3)

  abbrev x1 : Text
  x1 =
      codes
        "<?xml version=\"1.0\" encoding=\"UTF-8\"?>\n<ChangeResourceRecordSetsRequest xmlns=\"https://route53.amazonaws.com/doc/2013-04-01/\">\n  <ChangeBatch>\n    <Changes>\n      <Change>\n        "

  action_read : field body (codes "Action") ≡ some action
  unfolding xml_blocks first_text
  action_read =
      let tag = codes "Action" in
      ap first_text (
        blocks-skip tag (suc (length body)) x1 (codes "<Action>" ++ (action ++ x2)) refl
        ∙ blocks-hit tag (length body) action
            (codes "\n        <ResourceRecordSet>\n          <Name>" ++ (name ++ x3))
            (NoTag-clear (codes "/Action>") action a))

  name_read : field body (codes "Name") ≡ some name
  unfolding xml_blocks first_text
  name_read =
      let tag = codes "Name" in
      ap first_text (
        blocks-skip tag (suc (length body)) (x1 ++ codes "<Action>") (action ++ x2) refl
        ∙ (blocks-skip tag (suc (length body)) action x2 (NoTag-clear (codes "Name>") action a)
            ∙ (blocks-skip tag (suc (length body))
                  (codes "</Action>\n        <ResourceRecordSet>\n          ")
                  (codes "<Name>" ++ (name ++ x3)) refl
                ∙ blocks-hit tag (length body) name
                    (codes "\n          <Type>TLSA</Type>\n          <TTL>"
                      ++ (to_string ttl ++ x4))
                    (NoTag-clear (codes "/Name>") name n))))

  ttl_read : field body (codes "TTL") ≡ some (to_string ttl)
  unfolding xml_blocks first_text
  ttl_read =
      let tag = codes "TTL" in
      ap first_text (
        blocks-skip tag (suc (length body)) (x1 ++ codes "<Action>") (action ++ x2) refl
        ∙ (blocks-skip tag (suc (length body)) action x2 (NoTag-clear (codes "TTL>") action a)
            ∙ (blocks-skip tag (suc (length body))
                  (codes "</Action>\n        <ResourceRecordSet>\n          <Name>") (name ++ x3)
                  refl
                ∙ (blocks-skip tag (suc (length body)) name x3 (NoTag-clear (codes "TTL>") name n)
                    ∙ (blocks-skip tag (suc (length body))
                          (codes "</Name>\n          <Type>TLSA</Type>\n          ")
                          (codes "<TTL>" ++ (to_string ttl ++ x4)) refl
                        ∙ blocks-hit tag (length body) (to_string ttl)
                            (codes "\n          <ResourceRecords>" ++ (t ++ behind_values))
                            (NoTag-clear (codes "/TTL>") (to_string ttl) (digits-NoTag ttl)))))))

  body_values :
      (vs : List Text) → ListsValues t vs → map (unescape 0) (xml_blocks body (codes "Value")) ≡ vs
  unfolding xml_blocks
  body_values vs l =
      let tag = codes "Value" in
      let fuel = suc (length body) in
      ap (map (unescape 0)) (
        blocks-skip tag fuel (x1 ++ codes "<Action>") (action ++ x2) refl
        ∙ (blocks-skip tag fuel action x2 (NoTag-clear (codes "Value>") action a)
            ∙ (blocks-skip tag fuel
                  (codes "</Action>\n        <ResourceRecordSet>\n          <Name>") (name ++ x3)
                  refl
                ∙ (blocks-skip tag fuel name x3 (NoTag-clear (codes "Value>") name n)
                    ∙ (blocks-skip tag fuel
                          (codes "</Name>\n          <Type>TLSA</Type>\n          <TTL>")
                          (to_string ttl ++ x4) refl
                        ∙ (blocks-skip tag fuel (to_string ttl) x4
                              (NoTag-clear (codes "Value>") (to_string ttl) (digits-NoTag ttl))
                            ∙ blocks-skip tag fuel (codes "</TTL>\n          <ResourceRecords>")
                                (t ++ behind_values) refl))))))
      ∙ values_read t vs fuel l (
          omega (
            arith,
            ListsValues-length t vs l,
            length-append action x2,
            length-append name x3,
            length-append (to_string ttl) x4,
            length-append t behind_values,
          ))

-- The server changes what it is asked to.
pub answer-AsksFor :
    (s : Sets) (action fqdn : Text) (ttl : ℕ) (values : List Text) (body : Text)
    → NoTag action
    → ttl ≤ max_ttl
    → AsksFor action fqdn ttl values body
    → answer s body ≡ changed s fqdn ttl values (text_eq action (codes "UPSERT"))
answer-AsksFor s action fqdn ttl values body a b h =
    let n = Spells-NoTag h.name_text fqdn h.named in
    ap (answer s) h.spelled
    ∙ rw
        (
          action_read action h.name_text h.records_text ttl a n,
          name_read action h.name_text h.records_text ttl a n,
          ttl_read action h.name_text h.records_text ttl a n,
          parse_uint-to_string max_ttl ttl b,
          body_values action h.name_text h.records_text ttl a n values h.lists,
          unescape-Spells h.name_text fqdn h.named,
        )
        refl

pub changed-deletes :
    (s : Sets) (fqdn : Text) (ttl : ℕ) (values : List Text)
    → (s fqdn).0 ≡ ttl
    → (s fqdn).1 ≡ values
    → changed s fqdn ttl values false ≡ some (put s fqdn (0, []))
changed-deletes s fqdn ttl values t v =
    rw (t, v) (rw ((==_iff ttl ttl).1 refl, texts_eq_refl values) refl)
