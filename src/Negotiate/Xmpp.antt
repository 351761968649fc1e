-- ===== src/Negotiate/Xmpp.antt =====
-- src/cert.rs: `xmpp_negotiate` and the elements that it reads. The source makes the bytes read into
-- text with `from_utf8_lossy`, which keeps the ASCII bytes and whatever is UTF-8; the tests on that
-- text are made on the bytes here.
pub mod Markers
use gentlsa.Prelude.{
  ℕ, Text, codes, Bool, true, false, not, ◌&&◌, ◌||◌, Option, none, some, List, [], ◌∷◌, ◌++◌, leb,
  ◌==◌, if◌then◌else◌, map, find?, unwrap_or, to_ascii_lowercase, contains, strip_suffix,
}
use mathlib.Core.List.{reverse}
use gentlsa.Tlsa.Starttls.{xmpp_stream_ns}
use gentlsa.Negotiate.{
  M, rejected, not_advertised, ◌>>=◌, ◌>>◌, return, fail_if, write_all, read_until_markers,
}

-- `char::is_whitespace` of one, two and three bytes of UTF-8.
unfoldable pub is_space_1 : ℕ → Bool
is_space_1 a = (leb 9 a && leb a 13) || a == 32

unfoldable pub is_space_2 : ℕ → ℕ → Bool
is_space_2 a b = a == 0xc2 && (b == 0x85 || b == 0xa0)

unfoldable pub is_space_3 : ℕ → ℕ → ℕ → Bool
is_space_3 a b c =
    (a == 0xe1 && (b == 0x9a && c == 0x80))
    || (a == 0xe2
        && (b == 0x80 && ((leb 0x80 c && leb c 0x8a) || (c == 0xa8 || (c == 0xa9 || c == 0xaf)))))
    || (a == 0xe2 && (b == 0x81 && c == 0x9f))
    || (a == 0xe3 && (b == 0x80 && c == 0x80))

-- `trim_end` on reversed bytes.
unfoldable pub trim_reversed : List ℕ → List ℕ
unfolding is_space_1 is_space_2 is_space_3
trim_reversed [] = []
trim_reversed (a ∷ []) = if is_space_1 a then [] else a ∷ []
trim_reversed (b ∷ a ∷ []) = elim (is_space_1 b) [
  | true ↦ trim_reversed (a ∷ [])
  | false ↦ if is_space_2 a b then [] else b ∷ a ∷ []
]
trim_reversed (c ∷ b ∷ a ∷ bytes) = elim (is_space_1 c) [
  | true ↦ trim_reversed (b ∷ a ∷ bytes)
  | false ↦ elim (is_space_2 b c) [
    | true ↦ trim_reversed (a ∷ bytes)
    | false ↦ elim (is_space_3 a b c) [ true ↦ trim_reversed bytes | false ↦ c ∷ b ∷ a ∷ bytes ]
  ]
]

unfoldable pub starts_with_byte : ℕ → List ℕ → Bool
starts_with_byte c [] = false
starts_with_byte c (b ∷ bytes) = b == c

unfoldable pub empty_behind : List ℕ → Bool
unfolding trim_reversed starts_with_byte
empty_behind [] = false
empty_behind (b ∷ bytes) = b == b'>' && starts_with_byte b'/' (trim_reversed bytes)

unfoldable pub xml_start_is_empty : Text → Bool
unfolding trim_reversed empty_behind
xml_start_is_empty buf = empty_behind (trim_reversed (reverse buf))

unfoldable pub attr_char : ℕ → Text
attr_char c =
    if c == b'&'
    then codes "&amp;"
    else if c == b'<'
    then codes "&lt;"
    else if c == b'>'
    then codes "&gt;"
    else if c == 39
    then codes "&apos;"
    else if c == 34
    then codes "&quot;"
    else c ∷ []

unfoldable pub xml_attr : Text → Text
unfolding attr_char
xml_attr [] = []
xml_attr (c ∷ s) = attr_char c ++ xml_attr s

-- Reads on to a marker, if the bytes so far lack it.
unfoldable pub read_on : Bool → Text → Text → M Text
read_on true marker buf = return buf
read_on false marker buf = do more ← read_until_markers (marker ∷ []); return (buf ++ more)

unfoldable pub element_name : Text → Text → List Text → Text
unfolding contains
element_name lower first names =
    unwrap_or first (find? (λ name. contains (codes "<" ++ name) lower) names)

-- The first name stands beside the list, since the source takes it where none is found.
unfoldable pub xmpp_read_element : Text → List Text → M Text
unfolding contains read_on xml_start_is_empty element_name read_until_markers
xmpp_read_element first others = do
  start ← read_until_markers (map (λ name. codes "<" ++ name) (first ∷ others))
  buf ← read_on (contains (codes ">") start) (codes ">") start
  let lower = to_ascii_lowercase buf
  let close = codes "</" ++ (element_name lower first (first ∷ others) ++ codes ">")
  if xml_start_is_empty buf then return buf else read_on (contains close lower) close buf

abbrev pub stream_open : Text → ℕ → Text
stream_open domain port =
    codes "<?xml version='1.0'?><stream:stream xmlns='"
    ++ (xmpp_stream_ns port
        ++ (codes "' xmlns:stream='http://etherx.jabber.org/streams' to='"
            ++ (xml_attr domain ++ codes "' version='1.0'>")))

unfoldable pub xmpp_negotiate : Text → ℕ → M (Unit {0})
unfolding xmpp_stream_ns xml_attr contains read_until_markers xmpp_read_element
xmpp_negotiate domain port = do
  write_all (stream_open domain port)
  features ← read_until_markers (codes "</stream:features>" ∷ codes "<stream:features/>" ∷ [])
  let features_l = to_ascii_lowercase features
  fail_if
      (not (contains (codes "starttls") features_l)
        && not (contains (codes "urn:ietf:params:xml:ns:xmpp-tls") features_l))
      not_advertised
  write_all (codes "<starttls xmlns='urn:ietf:params:xml:ns:xmpp-tls'/>")
  reply ← xmpp_read_element (codes "proceed") (codes "failure" ∷ [])
  fail_if (contains (codes "<failure") (to_ascii_lowercase reply)) (rejected reply)
