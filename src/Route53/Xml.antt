-- ===== src/Route53/Xml.antt =====
-- src/route53.rs: `xml_blocks`, `xml_texts`, `xml_text` and `xml_escape`.
use gentlsa.Prelude.{
  ℕ, zero, suc, Text, codes, true, false, ◌==◌, Option, none, some, List, [], ◌∷◌, ◌++◌,
  if◌then◌else◌, length, map, drop, starts_with, trim, is_empty,
}

-- `find`, and the text in front of the match and behind it.
unfoldable pub split_first : Text → Text → Option (Text × Text)
unfolding starts_with
split_first pattern [] = if is_empty pattern then some ([], []) else none
split_first pattern (c ∷ s) = elim (starts_with pattern (c ∷ s)) [
  | true ↦ some ([], drop (length pattern) (c ∷ s))
  | false ↦ elim (split_first pattern s) [ none ↦ none | some (a, b) ↦ some (c ∷ a, b) ]
]

abbrev pub open_tag : Text → Text
open_tag tag = codes "<" ++ (tag ++ codes ">")

abbrev pub close_tag : Text → Text
close_tag tag = codes "</" ++ (tag ++ codes ">")

-- The loop: the text between a tag and its end, from left to right. A round takes a tag, so the length
-- of the text bounds the rounds.
unfoldable pub blocks_from : ℕ → Text → Text → List Text
blocks_from zero tag rest = []
blocks_from (suc fuel) tag rest = elim (split_first (open_tag tag) rest) [
  | none ↦ []
  | some (_, after) ↦ elim (split_first (close_tag tag) after) [
    | none ↦ []
    | some (block, behind) ↦ block ∷ blocks_from fuel tag behind
  ]
]

unfoldable pub xml_blocks : Text → Text → List Text
unfolding blocks_from split_first
xml_blocks xml tag = blocks_from (suc (length xml)) tag xml

unfoldable pub xml_texts : Text → Text → List Text
unfolding xml_blocks
xml_texts xml tag = map trim (xml_blocks xml tag)

unfoldable pub first_text : List Text → Option Text
first_text [] = none
first_text (t ∷ ts) = some t

unfoldable pub xml_text : Text → Text → Option Text
unfolding xml_texts first_text
xml_text xml tag = first_text (xml_texts xml tag)

-- The four replacements, one after the other, as one pass: no replacement makes a character that a
-- later one replaces.
unfoldable pub escape_char : ℕ → Text
escape_char c =
    if c == b'&'
    then codes "&amp;"
    else if c == b'<'
    then codes "&lt;"
    else if c == b'>'
    then codes "&gt;"
    else if c == 34
    then codes "&quot;"
    else c ∷ []

unfoldable pub xml_escape : Text → Text
unfolding escape_char
xml_escape [] = []
xml_escape (c ∷ s) = escape_char c ++ xml_escape s
