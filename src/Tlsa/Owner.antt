-- ===== src/Tlsa/Owner.antt =====
-- src/tlsa.rs: owner names, connect names and `port_from_owner`.
use gentlsa.Prelude.{
  ℕ, Text, codes, Option, none, some, if◌then◌else◌, is_empty, ◌++◌, ◌>>=◌, trim_dots, strip_prefix,
  split_once, starts_with,
}
use gentlsa.Prelude.Decimal.{to_string, parse_u16}

-- `Some(host) if !host.is_empty()`; the code writes this filter at every use of a hostname.
unfoldable pub nonempty : Option Text → Option Text
nonempty none = none
nonempty (some host) = if is_empty host then none else some host

unfoldable pub owner_name : ℕ → Option Text → Text
unfolding nonempty
owner_name port hostname =
    codes "_"
    ++ (to_string port
        ++ (codes "._tcp"
            ++ (elim (nonempty hostname) [ some host ↦ codes "." ++ host | none ↦ codes "" ])))

unfoldable pub fqdn : Text → ℕ → Option Text → Text
unfolding owner_name
fqdn zone port hostname = owner_name port hostname ++ (codes "." ++ (trim_dots zone ++ codes "."))

unfoldable pub connect_host : Text → Option Text → Text
unfolding nonempty
connect_host zone hostname = elim (nonempty hostname) [
  | some host ↦ host ++ (codes "." ++ zone)
  | none ↦ zone
]

unfoldable pub port_from_owner : Text → Option ℕ
port_from_owner name = do
  rest ← strip_prefix (codes "_") (trim_dots name)
  (port, rest') ← split_once b'.' rest
  if starts_with (codes "_tcp") rest' then parse_u16 port else none
