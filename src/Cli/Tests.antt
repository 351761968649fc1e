-- ===== src/Cli/Tests.antt =====
-- Lists of ports.
use gentlsa.Prelude.{ℕ, ◌≡◌, ◌≢◌, refl, codes, map, join, Option, some, none, List, [], ◌∷◌, arith}
use gentlsa.Prelude.Decimal.{to_string}
use gentlsa.Cli.{from_str}
use gentlsa.Cli.Ports.{IsPorts, from_str-join}

reads : from_str (codes " 443, 25,,443") ≡ some (443 ∷ 25 ∷ [])
unfolding from_str gentlsa.Prelude.split_from gentlsa.Prelude.trim_end_by
    gentlsa.Prelude.trim_start_by gentlsa.Prelude.is_whitespace gentlsa.Prelude.Decimal.parse_uint
reads = refl

refuses_zero : from_str (codes "25,0") ≡ none
unfolding from_str gentlsa.Prelude.split_from gentlsa.Prelude.trim_end_by
    gentlsa.Prelude.trim_start_by gentlsa.Prelude.is_whitespace gentlsa.Prelude.Decimal.parse_uint
refuses_zero = refl

abbrev two : List ℕ
two = 443 ∷ 25 ∷ []

two-IsPorts : IsPorts (443 ∷ 25 ∷ [])
two-IsPorts =
    (((omega arith, omega arith), ((omega arith, omega arith), tt)), ((ground arith, tt), (tt, tt)))

from_str-join_example :
    from_str (join (codes ",") (map to_string (443 ∷ 25 ∷ []))) ≡ some (443 ∷ 25 ∷ [])
from_str-join_example = from_str-join 443 (25 ∷ []) two-IsPorts
