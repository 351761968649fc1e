-- ===== src/Tlsa/Exchange.antt =====
-- src/tlsa.rs: lemmas on `HostTarget::from_mx`.
use mathlib.Core.List.{map-append}
use gentlsa.Prelude.{
  Text, codes, true, ◌++◌, ◌∷◌, [], ◌≡◌, ◌≢◌, refl, ap, sym, ◌∙◌, Option, none, some, is_dot,
  trim_dots, arith, to_ascii_lowercase, lower, text_eq, eq_ignore_ascii_case, Bool-cases,
  Option-cases, ◌⊎◌, inl, inr, ◌↔◌,
}
use mathlib.Core.Bool.{false≢true}
use gentlsa.Prelude.Affix.{
  strip_suffix-eq-some, strip_suffix-append, NoSpace, NoSpace-lower, NoSpace-trim, NoSpace-prefix,
  trim_of_NoSpace,
}
use gentlsa.Prelude.StrLaws.{
  eq_ignore_ascii_case_iff, eq_ignore_ascii_case_refl, text_eq_iff, to_ascii_lowercase_idem,
  trim_end_by_idem,
}
use gentlsa.Tlsa.Owner.{nonempty, connect_host}
use gentlsa.Tlsa.Target.{from_label, relative_label, from_mx, target_host, in_zone}

nonempty-eq-some : (o : Option Text) (r : Text) → nonempty o ≡ some r → (o ≡ some r) × (r ≢ [])
unfolding nonempty
nonempty-eq-some none r h = cc
nonempty-eq-some (some []) r h = cc
nonempty-eq-some (some (c ∷ s)) r h = (h, ground (arith, h))

nonempty_of_ne : (r : Text) → r ≢ [] → nonempty (some r) ≡ some r
unfolding nonempty
nonempty_of_ne [] h = absurd (h refl)
nonempty_of_ne (c ∷ s) h = refl

-- The part before the zone, as an equation of texts.
relative_label_iff :
    (zone_l mx_l rel : Text)
    → (relative_label zone_l mx_l ≡ some rel) ↔ ((rel ≢ []) × (mx_l ≡ rel ++ (codes "." ++ zone_l)))
unfolding relative_label
relative_label_iff zone_l mx_l rel = (
  λ h. let (e, ne) = nonempty-eq-some _ _ h in (ne, strip_suffix-eq-some _ _ _ e),
  λ (ne, e). rw (e, strip_suffix-append (codes "." ++ zone_l) rel) (nonempty_of_ne rel ne),
)

from_label-none : (zone : Text) → target_host (from_label zone none) ≡ trim_dots zone
unfolding from_label target_host
from_label-none zone = refl

from_label-some :
    (zone rel : Text)
    → rel ≢ []
    → NoSpace rel
    → target_host (from_label zone (some rel)) ≡ rel ++ (codes "." ++ trim_dots zone)
unfolding from_label target_host
from_label-some zone rel ne h =
    rw (trim_of_NoSpace rel h, nonempty_of_ne rel ne, connect_host) (rw (nonempty_of_ne rel ne))

-- The three branches of `from_mx`, by what the exchange name is.
from_mx_apex :
    (zone mx : Text)
    → to_ascii_lowercase (trim_dots mx) ≡ to_ascii_lowercase (trim_dots zone)
    → from_mx zone mx ≡ from_label (trim_dots zone) none
unfolding from_mx
from_mx_apex zone mx e = rw ((text_eq_iff _ _).1 e)

from_mx_inside :
    (zone mx rel : Text)
    → to_ascii_lowercase (trim_dots mx) ≢ to_ascii_lowercase (trim_dots zone)
    → relative_label (to_ascii_lowercase (trim_dots zone)) (to_ascii_lowercase (trim_dots mx))
      ≡ some rel
    → from_mx zone mx ≡ from_label (trim_dots zone) (some rel)
unfolding from_mx
from_mx_inside zone mx rel ne e =
    elim (Bool-cases
      (text_eq (to_ascii_lowercase (trim_dots mx)) (to_ascii_lowercase (trim_dots zone)))) [
        | inl same ↦ absurd (ne ((text_eq_iff _ _).0 same))
        | inr differ ↦ rw (differ, e)
      ]

from_mx_outside :
    (zone mx : Text)
    → to_ascii_lowercase (trim_dots mx) ≢ to_ascii_lowercase (trim_dots zone)
    → relative_label (to_ascii_lowercase (trim_dots zone)) (to_ascii_lowercase (trim_dots mx))
      ≡ none
    → from_mx zone mx ≡ from_label (trim_dots mx) none
unfolding from_mx
from_mx_outside zone mx ne e =
    elim (Bool-cases
      (text_eq (to_ascii_lowercase (trim_dots mx)) (to_ascii_lowercase (trim_dots zone)))) [
        | inl same ↦ absurd (ne ((text_eq_iff _ _).0 same))
        | inr differ ↦ rw (differ, e)
      ]

-- The lower-case name of a target inside the zone.
inside_name :
    (z rel m : Text)
    → m ≡ rel ++ (codes "." ++ to_ascii_lowercase z)
    → to_ascii_lowercase m ≡ m
    → to_ascii_lowercase (rel ++ (codes "." ++ z)) ≡ m
unfolding lower
inside_name z rel m e low =
    sym (ap to_ascii_lowercase e ∙ simp (map-append, to_ascii_lowercase_idem) refl) ∙ low

-- A target made from an MX record connects to the exchange that the record names: `connect_host` is
-- that name without its final dots, up to ASCII case, whether the exchange is the zone itself, a
-- name under the zone or a name elsewhere. The name holds no whitespace.
pub from_mx-target_host :
    (zone mx : Text)
    → NoSpace mx
    → eq_ignore_ascii_case (target_host (from_mx zone mx)) (trim_dots mx) ≡ true
from_mx-target_host zone mx h =
    let z = trim_dots zone in
    let m = trim_dots mx in
    let m_l = to_ascii_lowercase m in
    elim (Bool-cases (text_eq m_l (to_ascii_lowercase z))) [
      | inl same ↦
          let e : m_l ≡ to_ascii_lowercase z = (text_eq_iff _ _).0 same in
          rw (from_mx_apex zone mx e, from_label-none z, trim_end_by_idem is_dot zone)
            ((eq_ignore_ascii_case_iff z m).1 (sym e))
      | inr differ ↦
          let ne : m_l ≢ to_ascii_lowercase z =
            λ e. false≢true (sym differ ∙ (text_eq_iff _ _).1 e) in
          elim (Option-cases (relative_label (to_ascii_lowercase z) m_l)) [
            | inl e ↦
                rw (from_mx_outside zone mx ne e, from_label-none m, trim_end_by_idem is_dot mx)
                  (eq_ignore_ascii_case_refl m)
            | inr (rel, e) ↦
                let (nonnil, split) = (relative_label_iff (to_ascii_lowercase z) m_l rel).0 e in
                let spaceless : NoSpace rel =
                  NoSpace-prefix rel _ (rw split at (NoSpace-lower m (NoSpace-trim mx h))) in
                rw
                  (
                    from_mx_inside zone mx rel ne e,
                    from_label-some z rel nonnil spaceless,
                    trim_end_by_idem is_dot zone,
                  )
                  ((eq_ignore_ascii_case_iff (rel ++ (codes "." ++ z)) m).1
                    (inside_name z rel m_l split (to_ascii_lowercase_idem m)))
          ]
    ]

from_label-zone : (zone : Text) (rel : Option Text) → (from_label zone rel).zone ≡ trim_dots zone
unfolding from_label
from_label-zone zone rel = refl

from_label-in_zone :
    (z : Text) (rel : Option Text) (zone : Text)
    → in_zone (from_label z rel) zone ≡ eq_ignore_ascii_case (trim_dots z) (trim_dots zone)
unfolding in_zone
from_label-in_zone z rel zone = rw (from_label-zone z rel)

from_label-inside :
    (zone : Text) (rel : Option Text) → in_zone (from_label (trim_dots zone) rel) zone ≡ true
from_label-inside zone rel =
    rw (from_label-in_zone (trim_dots zone) rel zone, trim_end_by_idem is_dot zone)
      (eq_ignore_ascii_case_refl (trim_dots zone))

from_label-outside :
    (zone mx : Text)
    → in_zone (from_label (trim_dots mx) none) zone ≡ true
    → to_ascii_lowercase (trim_dots mx) ≡ to_ascii_lowercase (trim_dots zone)
from_label-outside zone mx h =
    (eq_ignore_ascii_case_iff (trim_dots mx) (trim_dots zone)).0
      (rw (from_label-in_zone (trim_dots mx) none zone, trim_end_by_idem is_dot mx) at h)

-- A target made from an MX record counts as inside the zone exactly when the exchange, without its
-- final dots and in lower case, is the zone or ends in a dot and the zone with something before.
pub from_mx-in_zone :
    (zone mx : Text)
    → (in_zone (from_mx zone mx) zone ≡ true) ↔ (
        (to_ascii_lowercase (trim_dots mx) ≡ to_ascii_lowercase (trim_dots zone))
        ⊎ ((rel : Text) × (rel ≢ [])
            × (to_ascii_lowercase (trim_dots mx)
                ≡ rel ++ (codes "." ++ to_ascii_lowercase (trim_dots zone)))))
from_mx-in_zone zone mx =
    let z = trim_dots zone in
    let m_l = to_ascii_lowercase (trim_dots mx) in
    elim (Bool-cases (text_eq m_l (to_ascii_lowercase z))) [
      | inl same ↦
          let e : m_l ≡ to_ascii_lowercase z = (text_eq_iff _ _).0 same in
          (λ _. inl e, λ _. rw (from_mx_apex zone mx e) (from_label-inside zone none))
      | inr differ ↦
          let ne : m_l ≢ to_ascii_lowercase z =
            λ e. false≢true (sym differ ∙ (text_eq_iff _ _).1 e) in
          elim (Option-cases (relative_label (to_ascii_lowercase z) m_l)) [
            | inl e ↦ (
              λ h. inl (from_label-outside zone mx (rw (from_mx_outside zone mx ne e) at h)),
              elim [
                | inl same ↦ absurd (ne same)
                | inr (rel, nonnil, split) ↦
                    absurd (
                      cc (e, (relative_label_iff (to_ascii_lowercase z) m_l rel).1 (nonnil, split)))
              ],
            )
            | inr (rel, e) ↦ (
              λ _.
                  let (nonnil, split) = (relative_label_iff (to_ascii_lowercase z) m_l rel).0 e in
                  inr (rel, nonnil, split),
              λ _. rw (from_mx_inside zone mx rel ne e) (from_label-inside zone (some rel)),
            )
          ]
    ]
