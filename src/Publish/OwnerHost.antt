-- ===== src/Publish/OwnerHost.antt =====
-- src/publish.rs: lemmas on `owner_host`.
use gentlsa.Prelude.{
  ℕ, suc, zero, ◌+◌, ◌-◌, ◌≤◌, Text, codes, [], ◌∷◌, ◌++◌, ◌≡◌, ◌≢◌, refl, ap, ◌∙◌, Bool, false,
  Option, none, some, is_empty, arith, append_assoc, append-nil, trim_dots, trim_end_by, is_dot,
  leb, if◌then◌else◌, ◌&&◌, Bool-cases, inl, inr, strip_prefix,
}
use gentlsa.Prelude.StrLaws.{
  eq_ignore_ascii_case_refl, EndsOutside, EndsOutside-append, trim_end_by-append, split_once-append,
  strip_prefix-append,
}
use gentlsa.Prelude.Decimal.{to_string}
use gentlsa.Tlsa.Owner.{owner_name, fqdn}
use gentlsa.Tlsa.Lookup.{to_string-Lacks_dot, trim-owner}
use gentlsa.Publish.Names.{
  Checked, ok, panics, len_utf8, byte_len, split_at, without_dot, host_labels, owner_host,
}

-- The bytes of a text in front of another.
pub byte_len-append : (s t : Text) → byte_len (s ++ t) ≡ byte_len s + byte_len t
unfolding byte_len
byte_len-append [] t = omega arith
byte_len-append (c ∷ s) t = omega (arith, byte_len-append s t)

pub len_utf8_pos : (c : ℕ) → 1 ≤ len_utf8 c
unfolding len_utf8
len_utf8_pos c = ground arith

abbrev push_head : ℕ → Checked (Text × Text) → Checked (Text × Text)
push_head c (ok (a, b)) = ok (c ∷ a, b)
push_head c panics = panics

split_at-cons :
    (n c : ℕ) (s : Text)
    → len_utf8 c ≤ n
    → split_at n (c ∷ s) ≡ push_head c (split_at (n - len_utf8 c) s)
unfolding split_at
split_at-cons zero c s h = absurd (omega (arith, len_utf8_pos c))
split_at-cons (suc n) c s h = ground (arith, h)

split_at-zero : (s : Text) → split_at 0 s ≡ ok ([], s)
unfolding split_at
split_at-zero s = refl

-- A cut behind a whole text does not panic.
split_at-append : (s t : Text) → split_at (byte_len s) (s ++ t) ≡ ok (s, t)
unfolding byte_len
split_at-append [] t = split_at-zero t
split_at-append (c ∷ s) t =
    split_at-cons (len_utf8 c + byte_len s) c (s ++ t) (omega arith)
    ∙ ap (λ n. push_head c (split_at n (s ++ t))) (omega arith)
    ∙ ap (push_head c) (split_at-append s t)

-- One round of the trimming.
pub trimmed_round :
    (p : ℕ → Bool) (c : ℕ) (r : Text)
    → (r ≢ [] → EndsOutside p r)
    → (if is_empty r && p c then [] else c ∷ r) ≢ []
    → EndsOutside p (if is_empty r && p c then [] else c ∷ r)
trimmed_round p c [] ih h = elim (Bool-cases (p c)) [ inl e ↦ absurd (h (rw e)) | inr e ↦ rw e e ]
trimmed_round p c (d ∷ r) ih h = ih (λ e. cc e)

pub trimmed-EndsOutside :
    (p : ℕ → Bool) (s : Text) → trim_end_by p s ≢ [] → EndsOutside p (trim_end_by p s)
unfolding trim_end_by
trimmed-EndsOutside p [] h = h refl
trimmed-EndsOutside p (c ∷ s) h = trimmed_round p c (trim_end_by p s) (trimmed-EndsOutside p s) h

-- The name of `fqdn` without its final dot.
pub trim-fqdn :
    (zone : Text) (port : ℕ) (hostname : Option Text)
    → trim_dots zone ≢ []
    → trim_dots (fqdn zone port hostname)
      ≡ owner_name port hostname ++ (codes "." ++ trim_dots zone)
unfolding fqdn trim_end_by
trim-fqdn zone port hostname h =
    let name = owner_name port hostname ++ (codes "." ++ trim_dots zone) in
    let ends : EndsOutside is_dot name = EndsOutside-append is_dot (owner_name port hostname) _ (
      EndsOutside-append is_dot (codes ".") (trim_dots zone) (trimmed-EndsOutside is_dot zone h)) in
    ap trim_dots {x = owner_name port hostname ++ (codes "." ++ (trim_dots zone ++ codes "."))}
      {y = name ++ codes "."} (simp append_assoc)
    ∙ trim_end_by-append is_dot name (codes ".") ends
    ∙ append-nil name

-- The labels behind `_<port>._tcp`.
pub host_labels-rest :
    (head : Text) (port : ℕ) (rest : Text)
    → trim_dots head ≡ codes "_" ++ (to_string port ++ (codes "._tcp" ++ rest))
    → host_labels head ≡ some (without_dot rest)
unfolding host_labels
host_labels-rest head port rest e = rw (
  e,
  strip_prefix-append (codes "_") (to_string port ++ (codes "._tcp" ++ rest)),
  split_once-append b'.' (to_string port) (codes "_tcp" ++ rest) (to_string-Lacks_dot port),
  strip_prefix-append (codes "_tcp") rest,
)

pub host_labels-owner :
    (port : ℕ) (host : Text)
    → EndsOutside is_dot host
    → host_labels
        (codes "_" ++ (to_string port ++ (codes "._tcp" ++ (codes "." ++ (host ++ codes ".")))))
      ≡ some host
unfolding without_dot trim_end_by
host_labels-owner port host h =
    let tail : trim_dots (codes "." ++ (host ++ codes ".")) ≡ codes "." ++ host =
      trim_end_by-append is_dot (codes "." ++ host) (codes ".")
        (EndsOutside-append is_dot (codes ".") host h)
      ∙ append-nil (codes "." ++ host) in
    host_labels-rest _ port (codes "." ++ host)
      (trim-owner port (codes "." ++ (host ++ codes ".")) ∙ rw tail)
    ∙ rw (strip_prefix-append (codes ".") host, without_dot)

host_labels-apex :
    (port : ℕ)
    → host_labels (codes "_" ++ (to_string port ++ (codes "._tcp" ++ codes "."))) ≡ some []
unfolding without_dot trim_end_by strip_prefix
host_labels-apex port = host_labels-rest _ port [] (trim-owner port (codes "."))

-- A name that is some text in front of the zone, which is cut off.
pub owner_host-append :
    (name zone head : Text)
    → trim_dots name ≡ head ++ trim_dots zone
    → 1 ≤ byte_len head
    → owner_host name zone ≡ ok (host_labels head)
unfolding owner_host
owner_host-append name zone head e h =
    let z = trim_dots zone in
    let longer : leb (byte_len head + byte_len z) (byte_len z) ≡ false = ground (arith, h) in
    let front : byte_len head + byte_len z - byte_len z ≡ byte_len head = omega arith in
    rw (
      e,
      byte_len-append head z,
      longer,
      front,
      split_at-append head z,
      eq_ignore_ascii_case_refl z,
    )

-- A host that ends outside a class is not empty.
pub owner_name-host :
    (port : ℕ) (host : Text)
    → EndsOutside is_dot host
    → owner_name port (some host)
      ≡ codes "_" ++ (to_string port ++ (codes "._tcp" ++ (codes "." ++ host)))
unfolding owner_name
owner_name-host port [] h = absurd h
owner_name-host port (c ∷ host) h = refl

pub head_pos : (head : Text) → 1 ≤ byte_len (codes "_" ++ head)
unfolding byte_len
head_pos head = omega (arith, len_utf8_pos b'_')

-- The name that a publish writes, read back: the host, or no labels at the zone itself.
pub owner_host-fqdn :
    (zone : Text) (port : ℕ) (host : Text)
    → trim_dots zone ≢ []
    → EndsOutside is_dot host
    → owner_host (fqdn zone port (some host)) zone ≡ ok (some host)
owner_host-fqdn zone port host ne h =
    owner_host-append _ zone
      (codes "_" ++ (to_string port ++ (codes "._tcp" ++ (codes "." ++ (host ++ codes ".")))))
      (trim-fqdn zone port (some host) ne ∙ rw (owner_name-host port host h) (simp append_assoc))
      (head_pos _)
    ∙ ap ok (host_labels-owner port host h)

pub owner_host-fqdn_apex :
    (zone : Text) (port : ℕ)
    → trim_dots zone ≢ []
    → owner_host (fqdn zone port none) zone ≡ ok (some [])
unfolding owner_name
owner_host-fqdn_apex zone port ne =
    owner_host-append _ zone (codes "_" ++ (to_string port ++ (codes "._tcp" ++ codes ".")))
      (trim-fqdn zone port none ne ∙ simp append_assoc) (head_pos _)
    ∙ ap ok (host_labels-apex port)
