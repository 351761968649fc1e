-- ===== src/Publish/Names.antt =====
-- src/publish.rs: owner names of a zone, and the filter of listed records. A call that panics in the
-- source, at a byte index inside a character, is `panics` here.
use gentlsa.Prelude.{
  ℕ, zero, suc, ◌+◌, ◌-◌, Text, codes, Bool, true, false, ◌||◌, Option, none, some, List, [], ◌∷◌,
  ◌++◌, if◌then◌else◌, ltb, leb, is_empty, any, trim_dots, strip_prefix, split_once,
  eq_ignore_ascii_case, ◌>>=◌,
}
use gentlsa.Prelude.Decimal.{to_string}
use gentlsa.Tlsa.Owner.{nonempty, fqdn}

pub data Checked {ℓ} (A : Type ℓ) : Type ℓ where
  ok : A → Checked A
  panics : Checked A

unfoldable pub fqdn_owner : Text → Option Text → ℕ → Text
unfolding fqdn
fqdn_owner zone hostname port = fqdn zone port hostname

unfoldable pub names_equal : Text → Text → Bool
names_equal a b = eq_ignore_ascii_case (trim_dots a) (trim_dots b)

unfoldable pub owner_names : Text → Option Text → ℕ → List Text
unfolding nonempty
owner_names zone hostname port =
    let z = trim_dots zone in
    let apex = codes "_" ++ (to_string port ++ (codes "._tcp." ++ z)) in
    (elim (nonempty hostname) [
      | some host ↦
          apex
          ∷ (codes "_" ++ (to_string port ++ (codes "._tcp." ++ (host ++ (codes "." ++ z)))))
          ∷ []
      | none ↦ apex ∷ []
    ])

-- `char::len_utf8`, and `str::len`, which counts bytes.
unfoldable pub len_utf8 : ℕ → ℕ
len_utf8 c = if ltb c 0x80 then 1 else if ltb c 0x800 then 2 else if ltb c 0x10000 then 3 else 4

unfoldable pub byte_len : Text → ℕ
unfolding len_utf8
byte_len [] = 0
byte_len (c ∷ s) = len_utf8 c + byte_len s

-- `str::split_at` a byte index.
unfoldable pub split_at : ℕ → Text → Checked (Text × Text)
unfolding len_utf8
split_at zero s = ok ([], s)
split_at (suc n) [] = panics
split_at (suc n) (c ∷ s) =
    let rest = split_at (suc n - len_utf8 c) s in
    if leb (len_utf8 c) (suc n)
    then (elim rest [ ok (a, b) ↦ ok (c ∷ a, b) | panics ↦ panics ])
    else panics

-- `s.strip_prefix('.').unwrap_or("")`.
unfoldable pub without_dot : Text → Text
without_dot s = elim (strip_prefix (codes ".") s) [ some labels ↦ labels | none ↦ [] ]

-- Behind the `_<port>` label: the labels between `_tcp` and the zone.
unfoldable pub host_labels : Text → Option Text
host_labels head = do
  rest ← strip_prefix (codes "_") (trim_dots head)
  (_, rest') ← split_once b'.' rest
  s ← strip_prefix (codes "_tcp") rest'
  some (without_dot s)

-- The two halves of the name, if the cut did not panic.
unfoldable pub labels_before : Text → Checked (Text × Text) → Checked (Option Text)
labels_before z panics = panics
labels_before z (ok (head, tail)) =
    if eq_ignore_ascii_case tail z then ok (host_labels head) else ok none

unfoldable pub owner_host : Text → Text → Checked (Option Text)
unfolding labels_before
owner_host name zone =
    let n = trim_dots name in
    let z = trim_dots zone in
    if leb (byte_len n) (byte_len z)
    then ok none
    else labels_before z (split_at (byte_len n - byte_len z) n)

-- Some port and one of its owner names is the name.
unfoldable pub matches_port : Text → Text → Option Text → List ℕ → Bool
matches_port name zone hostname [] = false
matches_port name zone hostname (port ∷ ports) =
    any (λ expected. names_equal expected name) (owner_names zone hostname port)
    || matches_port name zone hostname ports

-- `is_some_and` on the labels of the name.
unfoldable pub labels_match : Text → Checked (Option Text) → Checked Bool
labels_match host panics = panics
labels_match host (ok none) = ok false
labels_match host (ok (some labels)) = ok (is_empty labels || eq_ignore_ascii_case labels host)

unfoldable pub record_matches_filter : Text → Text → Option Text → List ℕ → Checked Bool
unfolding nonempty labels_match
record_matches_filter name zone hostname (port ∷ ports) =
    ok (matches_port name zone hostname (port ∷ ports))
record_matches_filter name zone hostname [] = elim (nonempty hostname) [
  | none ↦ ok true
  | some host ↦ labels_match host (owner_host name zone)
]
