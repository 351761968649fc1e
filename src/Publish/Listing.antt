-- ===== src/Publish/Listing.antt =====
-- src/publish.rs: lemmas on `names_equal` and `record_matches_filter`.
use mathlib.Core.Path.{subst}
use gentlsa.Prelude.{
  ℕ, Text, codes, List, [], ◌∷◌, ◌++◌, ◌≡◌, ◌≢◌, ap, true, any, Any, Option, some, arith,
  append_assoc, trim_dots, is_dot, eq_ignore_ascii_case, inl, inr,
}
use gentlsa.Prelude.StrLaws.{
  eq_ignore_ascii_case_refl, eq_ignore_ascii_case_comm, eq_ignore_ascii_case_trans, EndsOutside,
  EndsOutside-append, trim_end_by_of_EndsOutside, trim_end_by_idem,
}
use gentlsa.Publish.OwnerHost.{trim-fqdn, owner_host-fqdn, owner_name-host, trimmed-EndsOutside}
use gentlsa.Prelude.Decimal.{to_string}
use gentlsa.Tlsa.Owner.{owner_name, fqdn}
use gentlsa.Publish.Names.{
  ok, names_equal, owner_names, owner_host, labels_match, matches_port, record_matches_filter,
}

-- `names_equal` is an equivalence, and a final dot on either name makes no difference.
pub names_equal_equivalence :
    (a b c : Text)
    → (names_equal a a ≡ true)
      × (names_equal a b ≡ names_equal b a)
      × (names_equal a b ≡ true → names_equal b c ≡ true → names_equal a c ≡ true)
      × (names_equal (trim_dots a) b ≡ names_equal a b)
unfolding names_equal
names_equal_equivalence a b c = (
  eq_ignore_ascii_case_refl (trim_dots a),
  eq_ignore_ascii_case_comm (trim_dots a) (trim_dots b),
  eq_ignore_ascii_case_trans (trim_dots a) (trim_dots b) (trim_dots c),
  ap (λ t. eq_ignore_ascii_case t (trim_dots b)) (trim_end_by_idem is_dot a),
)

same_name :
    (zone : Text) (port : ℕ) (host : Text)
    → trim_dots zone ≢ []
    → EndsOutside is_dot host
    → names_equal
        (codes "_"
          ++ (to_string port ++ (codes "._tcp." ++ (host ++ (codes "." ++ trim_dots zone)))))
        (fqdn zone port (some host))
      ≡ true
unfolding names_equal
same_name zone port host ne h =
    let name =
      codes "_"
      ++ (to_string port ++ (codes "._tcp." ++ (host ++ (codes "." ++ trim_dots zone)))) in
    let e : owner_name port (some host) ++ (codes "." ++ trim_dots zone) ≡ name =
      rw (owner_name-host port host h) (simp append_assoc) in
    let ends : EndsOutside is_dot name = subst (EndsOutside is_dot) e (
      EndsOutside-append is_dot (owner_name port (some host)) _ (
        EndsOutside-append is_dot (codes ".") (trim_dots zone)
          (trimmed-EndsOutside is_dot zone ne))) in
    rw (trim-fqdn zone port (some host) ne, e, trim_end_by_of_EndsOutside is_dot name ends)
      (eq_ignore_ascii_case_refl name)

-- The names expected of a port hold the one that a publish writes.
expected_name :
    (zone : Text) (port : ℕ) (host : Text)
    → trim_dots zone ≢ []
    → EndsOutside is_dot host
    → any (λ e. names_equal e (fqdn zone port (some host))) (owner_names zone (some host) port)
      ≡ true
unfolding owner_names
expected_name zone port [] ne h = absurd h
expected_name zone port (c ∷ host) ne h = rw (same_name zone port (c ∷ host) ne h) (ground arith)

matches_port-Any :
    (name zone : Text) (hostname : Option Text) (ports : List ℕ) (port : ℕ)
    → any (λ e. names_equal e name) (owner_names zone hostname port) ≡ true
    → Any (λ p. p ≡ port) ports
    → matches_port name zone hostname ports ≡ true
unfolding matches_port
matches_port-Any name zone hostname [] port e m = absurd m
matches_port-Any name zone hostname (p ∷ ports) port e (inl m) = rw (m, e)
matches_port-Any name zone hostname (p ∷ ports) port e (inr m) =
    ground (arith, matches_port-Any name zone hostname ports port e m)

filtered_port :
    (zone : Text) (port : ℕ) (host : Text) (ports : List ℕ)
    → trim_dots zone ≢ []
    → EndsOutside is_dot host
    → Any (λ p. p ≡ port) ports
    → record_matches_filter (fqdn zone port (some host)) zone (some host) ports ≡ ok true
unfolding record_matches_filter
filtered_port zone port host [] ne h m = absurd m
filtered_port zone port host (p ∷ ports) ne h m =
    ap ok
      (matches_port-Any _ zone (some host) (p ∷ ports) port (expected_name zone port host ne h) m)

-- The listing of a host finds what a publish for that host writes: the filter lets the owner name
-- through, when no port is asked for and when the port is among those asked for, and does not panic.
-- The zone is not empty and the host does not end in a dot.
pub filter-fqdn :
    (zone : Text) (port : ℕ) (host : Text) (ports : List ℕ)
    → trim_dots zone ≢ []
    → EndsOutside is_dot host
    → (record_matches_filter (fqdn zone port (some host)) zone (some host) [] ≡ ok true)
      × (Any (λ p. p ≡ port) ports
          → record_matches_filter (fqdn zone port (some host)) zone (some host) ports ≡ ok true)
      × (owner_host (fqdn zone port (some host)) zone ≡ ok (some host))
unfolding record_matches_filter
filter-fqdn zone port [] ports ne h = absurd h
filter-fqdn zone port (c ∷ host) ports ne h = (
  rw (
    owner_host-fqdn zone port (c ∷ host) ne h,
    eq_ignore_ascii_case_refl (c ∷ host),
    labels_match,
  ),
  filtered_port zone port (c ∷ host) ports ne h,
  owner_host-fqdn zone port (c ∷ host) ne h,
)
