-- ===== src/Cli/Ports.antt =====
-- src/cli.rs: lemmas on `Ports::from_str`.
use mathlib.Core.Path.{subst}
use gentlsa.Prelude.{
  some-inj, ℕ, ◌≤◌, ◌≡◌, ◌≢◌, refl, sym, ap, ◌∙◌, inl, inr, Text, codes, false, some, List, [], ◌∷◌,
  ◌++◌, ◌==◌, is_empty, any, map, join, trim, split, ◌>>=◌, All, All-append, All-mono, arith,
  Bool-cases, Option-cases, append_assoc, append-nil, is_whitespace,
}
use gentlsa.Prelude.StrLaws.{Lacks, split_from-append, split_from-last}
use gentlsa.Prelude.Affix.{NoSpace, trim_of_NoSpace}
use gentlsa.Prelude.Decimal.{
  to_string, parse_u16, parse_uint-to_string, parse_uint_bound, to_string-All, to_string-ne-nil,
  IsDigit,
}
use gentlsa.Cli.{push_port, add_part, add_parts, some_ports, from_str}

abbrev pub IsDistinct : List ℕ → Type 0
IsDistinct [] = Unit
IsDistinct (p ∷ ports) = All (λ q. p ≢ q) ports × IsDistinct ports

-- Ports of a command line: each of 1 to 65535, and no port twice.
abbrev pub IsPorts : List ℕ → Type 0
IsPorts ports = All (λ p. (1 ≤ p) × (p ≤ 65535)) ports × IsDistinct ports

IsDistinct-snoc :
    (ports : List ℕ) (p : ℕ)
    → any (λ q. q == p) ports ≡ false
    → IsDistinct ports
    → IsDistinct (ports ++ p ∷ [])
IsDistinct-snoc [] p e h = (tt, tt)
IsDistinct-snoc (q ∷ ports) p e (hq, h) = (
  All-append (λ r. q ≢ r) ports (p ∷ []) hq ((λ s. ground (arith, e, s)), tt),
  IsDistinct-snoc ports p (ground (arith, e)) h,
)

push_port-IsPorts :
    (ports : List ℕ) (port : ℕ) (ps : List ℕ)
    → port ≤ 65535
    → IsPorts ports
    → push_port ports port ≡ some ps
    → IsPorts ps
unfolding push_port
push_port-IsPorts ports port ps b (range, distinct) e = elim (Bool-cases (port == 0)) [
  | inl z ↦ ground (arith, rw (z, push_port) at e)
  | inr z ↦ elim (Bool-cases (any (λ p. p == port) ports)) [
    | inl m ↦ subst IsPorts (some-inj ports ps (rw (z, m, push_port) at e)) (range, distinct)
    | inr m ↦ subst IsPorts (some-inj (ports ++ port ∷ []) ps (rw (z, m, push_port) at e)) (
      All-append _ ports (port ∷ []) range ((ground (arith, z), b), tt),
      IsDistinct-snoc ports port m distinct,
    )
  ]
]

add_part-IsPorts :
    (ports : List ℕ) (part : Text) (ps : List ℕ)
    → IsPorts ports
    → add_part ports part ≡ some ps
    → IsPorts ps
unfolding add_part
add_part-IsPorts ports part ps h e = elim (Bool-cases (is_empty (trim part))) [
  | inl z ↦ subst IsPorts (some-inj ports ps (rw (z, add_part) at e)) h
  | inr z ↦ elim (Option-cases (parse_u16 (trim part))) [
    | inl n ↦ ground (arith, rw (z, n, add_part) at e)
    | inr (port, n) ↦
        push_port-IsPorts ports port ps (parse_uint_bound 65535 (trim part) port n) h
          (rw (z, n, add_part) at e)
  ]
]

add_parts-IsPorts :
    (ports : List ℕ) (parts : List Text) (ps : List ℕ)
    → IsPorts ports
    → add_parts ports parts ≡ some ps
    → IsPorts ps
unfolding add_parts
add_parts-IsPorts ports [] ps h e = subst IsPorts (some-inj ports ps e) h
add_parts-IsPorts ports (part ∷ parts) ps h e = elim (Option-cases (add_part ports part)) [
  | inl n ↦ ground (arith, rw (n, add_parts) at e)
  | inr (next, n) ↦
      add_parts-IsPorts next parts ps (add_part-IsPorts ports part next h n)
        (rw (n, add_parts) at e)
]

digits-NoSpace : (n : ℕ) → NoSpace (to_string n)
unfolding is_whitespace
digits-NoSpace n =
    All-mono IsDigit (λ c. is_whitespace c ≡ false) (to_string n) (λ c d. ground (arith, d))
      (to_string-All n)

digits-Lacks : (n : ℕ) → Lacks b',' (to_string n)
digits-Lacks n =
    All-mono IsDigit (λ d. d ≢ b',') (to_string n) (λ d h. omega arith) (to_string-All n)

is_empty_of_ne : (s : Text) → s ≢ [] → is_empty s ≡ false
is_empty_of_ne [] h = absurd (h refl)
is_empty_of_ne (c ∷ s) h = refl

middle :
    (q : ℕ) (acc : List ℕ) (p : ℕ) (ports : List ℕ) → All (λ r. q ≢ r) (acc ++ p ∷ ports) → q ≢ p
middle q [] p ports h = h.0
middle q (r ∷ acc) p ports h = middle q acc p ports h.1

fresh :
    (acc : List ℕ) (p : ℕ) (ports : List ℕ)
    → IsDistinct (acc ++ p ∷ ports)
    → any (λ q. q == p) acc ≡ false
fresh [] p ports h = refl
fresh (q ∷ acc) p ports (hq, h) = ground (arith, middle q acc p ports hq, fresh acc p ports h)

add_part-printed :
    (acc : List ℕ) (p : ℕ) (ports : List ℕ)
    → 1 ≤ p
    → p ≤ 65535
    → IsDistinct (acc ++ p ∷ ports)
    → add_part acc (to_string p) ≡ some (acc ++ p ∷ [])
unfolding add_part push_port
add_part-printed acc p ports low high d =
    let zero' : (p == 0) ≡ false = ground (arith, low) in
    rw
      (
        trim_of_NoSpace (to_string p) (digits-NoSpace p),
        is_empty_of_ne (to_string p) (to_string-ne-nil p),
        parse_uint-to_string 65535 p high,
        zero',
        fresh acc p ports d,
      )
      refl

add_parts-printed :
    (acc ports : List ℕ)
    → IsPorts (acc ++ ports)
    → All (λ p. (1 ≤ p) × (p ≤ 65535)) ports
    → add_parts acc (map to_string ports) ≡ some (acc ++ ports)
unfolding add_parts
add_parts-printed acc [] h r = ap (λ x. some x) (sym (append-nil acc))
add_parts-printed acc (p ∷ ports) h (rp, r) =
    let step = add_part-printed acc p ports rp.0 rp.1 h.1 in
    let assoc : (acc ++ p ∷ []) ++ ports ≡ acc ++ p ∷ ports = append_assoc acc (p ∷ []) ports in
    rw (step, add_parts)
      (add_parts-printed (acc ++ p ∷ []) ports (subst IsPorts (sym assoc) h) r
        ∙ ap (λ x. some x) assoc)

split-joined :
    (p : ℕ) (ports : List ℕ)
    → split b',' (join (codes ",") (map to_string (p ∷ ports))) ≡ map to_string (p ∷ ports)
split-joined p [] = split_from-last b',' (to_string p) [] (digits-Lacks p)
split-joined p (q ∷ ports) =
    split_from-append b',' (to_string p) (join (codes ",") (map to_string (q ∷ ports))) []
      (digits-Lacks p)
    ∙ ap (λ x. to_string p ∷ x) (split-joined q ports)

-- The ports that are read from a text are at least one, each of 1 to 65535, and no two the same.
pub from_str-IsPorts :
    (s : Text) (ports : List ℕ) → from_str s ≡ some ports → (ports ≢ []) × IsPorts ports
unfolding from_str some_ports
from_str-IsPorts s ports e = elim (Option-cases (add_parts [] (split b',' s))) [
  | inl n ↦ ground (arith, rw (n, from_str) at e)
  | inr ([], n) ↦ ground (arith, rw (n, from_str) at e)
  | inr (p ∷ ps, n) ↦
      let same = some-inj (p ∷ ps) ports (rw (n, from_str) at e) in
      subst (λ x. (x ≢ []) × IsPorts x) same
        ((λ z. absurd (cc z)), add_parts-IsPorts [] (split b',' s) (p ∷ ps) (tt, tt) n)
]

-- A list of one port or more, each of 1 to 65535 and no port twice, is read back from its print,
-- the numbers joined by commas.
pub from_str-join :
    (p : ℕ) (ports : List ℕ)
    → IsPorts (p ∷ ports)
    → from_str (join (codes ",") (map to_string (p ∷ ports))) ≡ some (p ∷ ports)
unfolding from_str
from_str-join p ports h =
    ap (λ parts. add_parts [] parts >>= some_ports) (split-joined p ports)
    ∙ ap (λ o. o >>= some_ports) (add_parts-printed [] (p ∷ ports) h h.0)
    ∙ (unfold some_ports in refl)
