-- ===== src/Tlsa/Lookup.antt =====
-- src/tlsa.rs: lemmas on `port_from_owner`.
use gentlsa.Prelude.{
  ℕ, Text, codes, ◌++◌, ◌≡◌, ◌≢◌, refl, ap, ◌∙◌, ◌≤◌, Option, some, is_dot, trim_dots, arith,
  append_assoc, All-mono,
}
use gentlsa.Prelude.StrLaws.{
  EndsOutside, EndsOutside-append, trim_end_by-append, split_once-append, Lacks,
  strip_prefix-append, starts_with-append,
}
use gentlsa.Prelude.Decimal.{to_string, to_string-All, parse_uint-to_string, IsDigit}
use gentlsa.Tlsa.Owner.{owner_name, fqdn, port_from_owner}

pub to_string-Lacks_dot : (n : ℕ) → Lacks b'.' (to_string n)
to_string-Lacks_dot n =
    All-mono IsDigit (λ d. d ≢ b'.') (to_string n) (λ d h. omega arith) (to_string-All n)

-- Trimming the dots at the end of `_<port>._tcp` and any further text touches that text alone.
pub trim-owner :
    (port : ℕ) (rest : Text)
    → trim_dots (codes "_" ++ (to_string port ++ (codes "._tcp" ++ rest)))
      ≡ codes "_" ++ (to_string port ++ (codes "._tcp" ++ trim_dots rest))
trim-owner port rest =
    let head = codes "_" ++ (to_string port ++ codes "._tcp") in
    let ends : EndsOutside is_dot head =
      EndsOutside-append is_dot (codes "_" ++ to_string port) (codes "._tcp") refl in
    let split : codes "_" ++ (to_string port ++ (codes "._tcp" ++ rest)) ≡ head ++ rest =
      simp append_assoc in
    let joined : head ++ trim_dots rest
        ≡ codes "_" ++ (to_string port ++ (codes "._tcp" ++ trim_dots rest)) =
      simp append_assoc in
    ap trim_dots split ∙ trim_end_by-append is_dot head rest ends ∙ joined

-- What is read from `_<port>._tcp` and any further text.
port_from_owner-append :
    (port : ℕ) (rest : Text)
    → port ≤ 65535
    → port_from_owner (codes "_" ++ (to_string port ++ (codes "._tcp" ++ rest))) ≡ some port
unfolding port_from_owner
port_from_owner-append port rest h =
    rw
      (
        trim-owner port rest,
        strip_prefix-append (codes "_") (to_string port ++ (codes "._tcp" ++ trim_dots rest)),
        split_once-append b'.' (to_string port) (codes "_tcp" ++ trim_dots rest)
            (to_string-Lacks_dot port),
        starts_with-append (codes "_tcp") (trim_dots rest),
      )
      (parse_uint-to_string 65535 port h)

-- The owner name of a port and a hostname, relative or fully qualified, gives the port back,
-- whatever the zone and the hostname are, for every port of the type `u16`.
pub port_from_owner-fqdn :
    (zone : Text) (port : ℕ) (hostname : Option Text)
    → port ≤ 65535
    → (port_from_owner (fqdn zone port hostname) ≡ some port)
      × (port_from_owner (owner_name port hostname) ≡ some port)
unfolding fqdn owner_name
port_from_owner-fqdn zone port hostname h =
    (simp append_assoc (port_from_owner-append port _ h), port_from_owner-append port _ h)
