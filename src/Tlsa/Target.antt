-- ===== src/Tlsa/Target.antt =====
-- src/tlsa.rs: `HostTarget`, a zone with an optional relative hostname.
use gentlsa.Prelude.{
  Text, codes, Bool, Option, none, some, if◌then◌else◌, ◌++◌, ◌>>=◌, trim, trim_dots, text_eq,
  to_ascii_lowercase, eq_ignore_ascii_case, strip_suffix,
}
use gentlsa.Tlsa.Owner.{nonempty, connect_host}

pub record HostTarget : Type 0 where
  pub zone : Text
  pub hostname : Option Text

unfoldable pub from_label : Text → Option Text → HostTarget
unfolding nonempty
from_label zone hostname = record {
  zone = trim_dots zone;
  hostname = nonempty (hostname >>= λ host. some (trim host));
}

-- The part of an exchange name before the zone, if that part is not empty.
unfoldable pub relative_label : Text → Text → Option Text
unfolding nonempty
relative_label zone_l mx_l = nonempty (strip_suffix (codes "." ++ zone_l) mx_l)

unfoldable pub from_mx : Text → Text → HostTarget
unfolding from_label relative_label
from_mx zone mx_host =
    let z = trim_dots zone in
    let mx = trim_dots mx_host in
    let zone_l = to_ascii_lowercase z in
    let mx_l = to_ascii_lowercase mx in
    if text_eq mx_l zone_l then from_label z none else (elim (relative_label zone_l mx_l) [
      | some rel ↦ from_label z (some rel)
      | none ↦ from_label mx none
    ])

unfoldable pub target_host : HostTarget → Text
unfolding connect_host
target_host t = connect_host t.zone t.hostname

unfoldable pub in_zone : HostTarget → Text → Bool
in_zone t zone = eq_ignore_ascii_case t.zone (trim_dots zone)
