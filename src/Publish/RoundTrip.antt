-- ===== src/Publish/RoundTrip.antt =====
-- src/publish.rs: lemmas on the text form of a record and on the names of the publishers.
use gentlsa.Prelude.{
  ℕ, ◌≤◌, Text, codes, List, [], ◌∷◌, ◌++◌, ◌≡◌, ◌≢◌, refl, ap, sym, ◌∙◌, Bool, true, false, any,
  Any, ◌↔◌, some, All-mono, arith, append_assoc, append-nil, is_whitespace, words_from,
  to_ascii_lowercase, lower, trim_start_by, trim_end_by, trim, text_eq, Bool-cases, inl, inr,
}
use gentlsa.Prelude.StrLaws.{text_eq_iff}
use gentlsa.Prelude.Affix.{NoSpace}
use gentlsa.Prelude.Decimal.{
  to_string, to_string-All, to_string-ne-nil, parse_uint-to_string, IsDigit,
}
use gentlsa.Publish.{DaneTlsa}
use gentlsa.Publish.Kind.{
  PublisherKind, cloudflare, nsupdate, route53, google, azure, kind_name, kind_of, from_name,
}
use gentlsa.Publish.Rdata.{
  next_u8, joined_certificate, parse_parts, parse_tlsa_rdata, format_tlsa_rdata,
}

-- A run without whitespace is read into the current word.
words_from-run :
    (a rest cur : Text) → NoSpace a → words_from cur (a ++ rest) ≡ words_from (cur ++ a) rest
unfolding words_from
words_from-run [] rest cur h = rw append-nil
words_from-run (c ∷ a) rest cur (h, hs) =
    rw (h, words_from) (words_from-run a rest (cur ++ c ∷ []) hs ∙ rw append_assoc)

-- A space ends a word that is not empty.
words_from-space :
    (cur rest : Text) → cur ≢ [] → words_from cur (codes " " ++ rest) ≡ cur ∷ words_from [] rest
unfolding words_from is_whitespace
words_from-space [] rest h = absurd (h refl)
words_from-space (c ∷ cur) rest h = refl

words_from-word :
    (a rest : Text)
    → NoSpace a
    → a ≢ []
    → words_from [] (a ++ (codes " " ++ rest)) ≡ a ∷ words_from [] rest
words_from-word a rest h ne = words_from-run a (codes " " ++ rest) [] h ∙ words_from-space a rest ne

words_from-end : (cur : Text) → cur ≢ [] → words_from cur [] ≡ cur ∷ []
unfolding words_from
words_from-end [] ne = absurd (ne refl)
words_from-end (c ∷ cur) ne = refl

words_from-last : (a : Text) → NoSpace a → a ≢ [] → words_from [] a ≡ a ∷ []
words_from-last a h ne =
    ap (words_from []) (sym (append-nil a)) ∙ words_from-run a [] [] h ∙ words_from-end a ne

digit-NotSpace : (c : ℕ) → IsDigit c → is_whitespace c ≡ false
unfolding is_whitespace
digit-NotSpace c h = ground arith

digit-NoSpace : (n : ℕ) → NoSpace (to_string n)
digit-NoSpace n =
    All-mono IsDigit (λ c. is_whitespace c ≡ false) (to_string n) digit-NotSpace (to_string-All n)

number_word :
    (n : ℕ) (rest : Text)
    → words_from [] (to_string n ++ (codes " " ++ rest)) ≡ to_string n ∷ words_from [] rest
number_word n rest = words_from-word (to_string n) rest (digit-NoSpace n) (to_string-ne-nil n)

next_u8-to_string :
    (n : ℕ) (parts : List Text) → n ≤ 255 → next_u8 (to_string n ∷ parts) ≡ some (n, parts)
unfolding next_u8
next_u8-to_string n parts h = rw (parse_uint-to_string 255 n h)

joined_certificate-one :
    (t : Text) → t ≢ [] → to_ascii_lowercase t ≡ t → joined_certificate (t ∷ []) ≡ some t
unfolding joined_certificate
joined_certificate-one [] ne low = absurd (ne refl)
joined_certificate-one (c ∷ t) ne low = rw (append-nil t) (ap some low)

parse_parts-words :
    (r : DaneTlsa)
    → r.usage ≤ 255
    → r.selector ≤ 255
    → r.matching ≤ 255
    → r.certificate ≢ []
    → to_ascii_lowercase r.certificate ≡ r.certificate
    → parse_parts
        (to_string r.usage ∷ to_string r.selector ∷ to_string r.matching ∷ r.certificate ∷ [])
      ≡ some r
unfolding parse_parts
parse_parts-words r u s m ne low = rw (
  next_u8-to_string r.usage _ u,
  next_u8-to_string r.selector _ s,
  next_u8-to_string r.matching _ m,
  joined_certificate-one r.certificate ne low,
)

-- The data of a record is read back from its print, if its three numbers are of type `u8` and its
-- certificate text is not empty, holds no whitespace and is in lower case, as `live_dane` makes it.
pub parse-format :
    (r : DaneTlsa)
    → r.usage ≤ 255
    → r.selector ≤ 255
    → r.matching ≤ 255
    → r.certificate ≢ []
    → NoSpace r.certificate
    → to_ascii_lowercase r.certificate ≡ r.certificate
    → parse_tlsa_rdata (format_tlsa_rdata r) ≡ some r
unfolding parse_tlsa_rdata format_tlsa_rdata
parse-format r u s m ne h low =
    let cert = r.certificate in
    rw
      (
        number_word r.usage
            (to_string r.selector ++ (codes " " ++ (to_string r.matching ++ (codes " " ++ cert)))),
        number_word r.selector (to_string r.matching ++ (codes " " ++ cert)),
        number_word r.matching cert,
        words_from-last cert h ne,
      )
      (parse_parts-words r u s m ne low)

-- The words that name a publisher, the first of each list the one that `kind_name` writes.
abbrev pub names_of : PublisherKind → List Text
names_of cloudflare = codes "cloudflare" ∷ codes "cf" ∷ []
names_of nsupdate = codes "nsupdate" ∷ codes "rfc2136" ∷ []
names_of route53 = codes "route53" ∷ codes "r53" ∷ []
names_of google = codes "google" ∷ codes "gcp" ∷ codes "clouddns" ∷ []
names_of azure = codes "azure" ∷ codes "azuredns" ∷ codes "az" ∷ []

kind_of-names : (k : PublisherKind) (n : Text) → Any (λ w. n ≡ w) (names_of k) → kind_of n ≡ some k
unfolding kind_of
kind_of-names cloudflare n (inl e) = rw e
kind_of-names cloudflare n (inr (inl e)) = rw e
kind_of-names cloudflare n (inr (inr h)) = absurd h
kind_of-names nsupdate n (inl e) = rw e
kind_of-names nsupdate n (inr (inl e)) = rw e
kind_of-names nsupdate n (inr (inr h)) = absurd h
kind_of-names route53 n (inl e) = rw e
kind_of-names route53 n (inr (inl e)) = rw e
kind_of-names route53 n (inr (inr h)) = absurd h
kind_of-names google n (inl e) = rw e
kind_of-names google n (inr (inl e)) = rw e
kind_of-names google n (inr (inr (inl e))) = rw e
kind_of-names google n (inr (inr (inr h))) = absurd h
kind_of-names azure n (inl e) = rw e
kind_of-names azure n (inr (inl e)) = rw e
kind_of-names azure n (inr (inr (inl e))) = rw e
kind_of-names azure n (inr (inr (inr h))) = absurd h

-- The text is one of the words.
is_word : Text → List Text → Bool
is_word n ws = any (text_eq n) ws

is_word-Any : (n : Text) (ws : List Text) → is_word n ws ≡ true → Any (λ w. n ≡ w) ws
unfolding is_word
is_word-Any n [] h = cc
is_word-Any n (w ∷ ws) h = elim (Bool-cases (text_eq n w)) [
  | inl same ↦ inl ((text_eq_iff n w).0 same)
  | inr differ ↦ inr (is_word-Any n ws (rw differ at h))
]

names-kind_of : (k : PublisherKind) (n : Text) → kind_of n ≡ some k → is_word n (names_of k) ≡ true
unfolding kind_of is_word
names-kind_of k n h = ground (arith, h)

from_name-kind_name : (k : PublisherKind) → from_name (kind_name k) ≡ some k
unfolding from_name kind_name lower is_whitespace trim_start_by trim_end_by
from_name-kind_name cloudflare = refl
from_name-kind_name nsupdate = refl
from_name-kind_name route53 = refl
from_name-kind_name google = refl
from_name-kind_name azure = refl

-- A text names a publisher exactly when, trimmed and in lower case, it is one of that publisher's
-- words; so each publisher is read back from the name that `kind_name` writes.
pub from_name_iff :
    (k : PublisherKind) (text : Text)
    → ((from_name text ≡ some k) ↔ Any (λ w. to_ascii_lowercase (trim text) ≡ w) (names_of k))
      × (from_name (kind_name k) ≡ some k)
from_name_iff k text = (
  unfold from_name in (λ h. is_word-Any _ (names_of k) (names-kind_of k _ h), kind_of-names k _),
  from_name-kind_name k,
)
