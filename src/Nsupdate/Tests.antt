-- ===== src/Nsupdate/Tests.antt =====
-- A primary with one owner, whose hashes are their own bytes.
use gentlsa.Prelude.{
  ℕ, ◌≡◌, ◌≢◌, ◌↔◌, refl, sym, ap, ◌∙◌, inl, inr, Text, codes, Bool, true, false, not, ◌&&◌, Option,
  none, some, List, [], ◌∷◌, if◌then◌else◌, is_empty, filter, filter_map, map, Any, text_eq, ◌==◌,
  ==_iff, Bool-cases, arith,
}
use gentlsa.Prelude.StrLaws.{text_eq_iff, text_eq_refl}
use mathlib.Core.Path.{subst}
use gentlsa.Tlsa.Owner.{fqdn}
use gentlsa.Publish.{rollover, DaneTlsa, is_stale, stale_dane}
use gentlsa.Nsupdate.{
  TlsaRdata, Record, ResponseCode, no_error, other_code, Client, parse_name, publish_tlsa,
  prune_tlsa, prune_report,
}
use gentlsa.Nsupdate.Change.{Serves, Has, dane, prune_tlsa-Has}

abbrev same_data : TlsaRdata → TlsaRdata → Bool
same_data d e =
    d.usage == e.usage
    && (d.selector == e.selector && (d.matching == e.matching && text_eq d.cert_data e.cert_data))

same_parts :
    (d e : TlsaRdata)
    → same_data d e ≡ true
    → (d.usage ≡ e.usage)
      × (d.selector ≡ e.selector)
      × (d.matching ≡ e.matching)
      × (d.cert_data ≡ e.cert_data)
same_parts d e h = ground (arith, h, text_eq_iff d.cert_data e.cert_data)

same_data_refl : (d : TlsaRdata) → same_data d d ≡ true
same_data_refl d = ground (arith, text_eq_refl d.cert_data)

same_data_iff : (d e : TlsaRdata) → (same_data d e ≡ true) ↔ (d ≡ e)
same_data_iff d e = (
  λ h. let (u, l, m, t) = same_parts d e h in cc (u, l, m, t),
  λ p. subst (λ x. same_data d x ≡ true) p (same_data_refl d),
)

abbrev without : TlsaRdata → List TlsaRdata → List TlsaRdata
without d s = filter (λ x. not (same_data d x)) s

without_iff :
    (d other : TlsaRdata) (s : List TlsaRdata)
    → Any (λ x. other ≡ x) (without d s) ↔ (Any (λ x. other ≡ x) s × (other ≢ d))
without_iff d other [] = (λ a. absurd a, λ (a, _). a)
without_iff d other (x ∷ s) = elim (Bool-cases (same_data d x)) [
  | inl e ↦
      let (f, g) = without_iff d other s in
      (
        λ a. let (b, n) = f (rw e at a) in (inr b, n),
        λ (a, n).
            rw e (elim a [
              | inl p ↦ absurd (n (p ∙ sym ((same_data_iff d x).0 e)))
              | inr b ↦ g (b, n)
            ]),
      )
  | inr e ↦
      let (f, g) = without_iff d other s in
      (
        λ a. elim (rw e at a) [
          | inl p ↦ (inl p, λ q. cc (sym ((same_data_iff d x).1 (sym q ∙ p)) ∙ e))
          | inr b ↦ let (c, n) = f b in (inr c, n)
        ],
        λ (a, n). rw e (elim a [ inl p ↦ inl p | inr b ↦ inr (g (b, n)) ]),
      )
]

abbrev record_of : TlsaRdata → Record
record_of d = record { name = codes "_443._tcp.x."; ttl = 300; rdata = some d }

abbrev deleted : List TlsaRdata → Option TlsaRdata → List TlsaRdata
deleted s none = s
deleted s (some d) = without d s

abbrev toy : Client (List TlsaRdata)
toy = record {
  parse = λ name. some name;
  hex_decode = λ text. some text;
  hex_encode = λ bytes. bytes;
  query = λ s name. some (if is_empty s then other_code 3 else no_error, map record_of s);
  transfer = λ s origin. none;
  append = λ s origin r. some (other_code 5, s);
  delete_by_rdata = λ s origin r. some (no_error, deleted s r.rdata);
}

read_back : (s : List TlsaRdata) → filter_map (λ (r : Record). r.rdata) (map record_of s) ≡ s
read_back [] = refl
read_back (d ∷ s) = ap (λ l. d ∷ l) (read_back s)

answered :
    (s : List TlsaRdata) → s ≢ [] → (if is_empty s then other_code 3 else no_error) ≡ no_error
answered [] n = absurd (n refl)
answered (d ∷ s) n = refl

abbrev origin : Text
origin = codes "x."

abbrev toy-Serves : Serves toy origin
toy-Serves = record {
  data_of = λ s name. s;
  answers = λ s name n.
      (map record_of s, ap (λ c. some (c, map record_of s)) (answered s n), read_back s);
  deletes = λ s name d. (without d s, refl, λ other. without_iff d other s);
  decodes = λ bytes. refl;
}

named : parse_name toy (fqdn (codes "x") 443 none) ≡ some (codes "_443._tcp.x.")
unfolding parse_name gentlsa.Prelude.trim_end_by gentlsa.Prelude.trim_start_by fqdn
    gentlsa.Prelude.is_whitespace gentlsa.Prelude.Decimal.to_string
named = refl

zoned : parse_name toy (codes "x") ≡ some origin
unfolding parse_name gentlsa.Prelude.trim_end_by gentlsa.Prelude.trim_start_by
    gentlsa.Prelude.is_whitespace
zoned = refl

abbrev stale_one : TlsaRdata
stale_one = record { usage = 3; selector = 1; matching = 1; cert_data = codes "aa" }

abbrev live_one : TlsaRdata
live_one = record { usage = 3; selector = 1; matching = 1; cert_data = codes "bb" }

abbrev start : List TlsaRdata
start = stale_one ∷ live_one ∷ []

prune_tlsa-Has_example :
    let has = Has toy (codes "x") none 443 (codes "_443._tcp.x.") origin toy-Serves named zoned in
    (s' : List TlsaRdata) × (prune_tlsa toy (codes "x") none 443 (codes "bb") false start
      ≡ some (prune_report (codes "x") false (stale_dane (map (dane toy) start) (codes "bb")), s'))
    × ((other : TlsaRdata)
        → has s' other ↔ (has start other × (is_stale (codes "bb") (dane toy other) ≡ false)))
prune_tlsa-Has_example =
    prune_tlsa-Has toy (codes "x") none 443 (codes "_443._tcp.x.") origin toy-Serves named zoned
      (codes "bb") start (λ e. cc e)

pruned :
    prune_tlsa toy (codes "x") none 443 (codes "bb") false start
    ≡ some (prune_report (codes "x") false (dane toy stale_one ∷ []), live_one ∷ [])
unfolding prune_tlsa gentlsa.Nsupdate.query_owner gentlsa.Nsupdate.check_response stale_dane
    is_stale gentlsa.Publish.is_dane_ee_spki_sha256 gentlsa.Publish.Rdata.to_dane
    gentlsa.Publish.hash_matches gentlsa.Tlsa.hashes_equal gentlsa.Prelude.lower
pruned = refl
