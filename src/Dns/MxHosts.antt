-- ===== src/Dns/MxHosts.antt =====
-- src/dns.rs: the loop of `normalize_mx` over the MX records, and the list that it returns.
use mathlib.Core.Path.{subst}
use gentlsa.Prelude.{
  ℕ, ◌≤◌, Text, List, [], ◌∷◌, ◌≡◌, ◌≢◌, refl, All, All-mono, Any, ◌⊎◌, inl, inr, ltb, true, false,
  Bool-cases, arith, is_empty, trim_dots, eq_ignore_ascii_case,
}
use gentlsa.Prelude.StrLaws.{eq_ignore_ascii_case_refl}
use gentlsa.Dns.Mx.{MxHost, merge_host, collect_hosts, sort_hosts, normalize_mx}
use gentlsa.Dns.MxLaws.{
  IsSorted, IsDistinct, Differs, sort-IsSorted, sort-IsDistinct, sort-All, sort-Any,
}

abbrev IsNamed : MxHost → Type 0
IsNamed h = h.host ≢ []

-- Some host has the name, up to case, at this preference or a lower one.
abbrev pub Covers : ℕ → Text → List MxHost → Type 0
Covers p name = Any (λ h. (eq_ignore_ascii_case h.host name ≡ true) × (h.preference ≤ p))

merge-Differs :
    (name : Text) (p : ℕ) (host : Text) (hosts : List MxHost)
    → eq_ignore_ascii_case name host ≡ false
    → All (Differs name) hosts
    → All (Differs name) (merge_host p host hosts)
unfolding merge_host
merge-Differs name p host [] e h = (e, tt)
merge-Differs name p host (x ∷ hosts) e (hx, h) =
    elim (Bool-cases (eq_ignore_ascii_case x.host host)) [
      | inl same ↦ rw same (elim (Bool-cases (ltb p x.preference)) [
        | inl lower' ↦ rw lower' (hx, h)
        | inr higher ↦ rw higher (hx, h)
      ])
      | inr other ↦ rw other (hx, merge-Differs name p host hosts e h)
    ]

merge-IsDistinct :
    (p : ℕ) (host : Text) (hosts : List MxHost)
    → IsDistinct hosts
    → IsDistinct (merge_host p host hosts)
unfolding merge_host
merge-IsDistinct p host [] h = (tt, tt)
merge-IsDistinct p host (x ∷ hosts) (hx, h) = elim (Bool-cases (eq_ignore_ascii_case x.host host)) [
  | inl same ↦ rw same (elim (Bool-cases (ltb p x.preference)) [
    | inl lower' ↦ rw lower' (hx, h)
    | inr higher ↦ rw higher (hx, h)
  ])
  | inr other ↦
      rw other (merge-Differs x.host p host hosts other hx, merge-IsDistinct p host hosts h)
]

merge-IsNamed :
    (p : ℕ) (host : Text) (hosts : List MxHost)
    → host ≢ []
    → All IsNamed hosts
    → All IsNamed (merge_host p host hosts)
unfolding merge_host
merge-IsNamed p host [] ne h = (ne, tt)
merge-IsNamed p host (x ∷ hosts) ne (hx, h) = elim (Bool-cases (eq_ignore_ascii_case x.host host)) [
  | inl same ↦ rw same (elim (Bool-cases (ltb p x.preference)) [
    | inl lower' ↦ rw lower' (hx, h)
    | inr higher ↦ rw higher (hx, h)
  ])
  | inr other ↦ rw other (hx, merge-IsNamed p host hosts ne h)
]

merge-Covers_new :
    (p : ℕ) (host : Text) (hosts : List MxHost) → Covers p host (merge_host p host hosts)
unfolding merge_host
merge-Covers_new p host [] = inl (eq_ignore_ascii_case_refl host, omega arith)
merge-Covers_new p host (x ∷ hosts) = elim (Bool-cases (eq_ignore_ascii_case x.host host)) [
  | inl same ↦ rw same (elim (Bool-cases (ltb p x.preference)) [
    | inl lower' ↦ rw lower' (inl (same, omega arith))
    | inr higher ↦ rw higher (inl (same, ground (arith, higher)))
  ])
  | inr other ↦ rw other (inr (merge-Covers_new p host hosts))
]

merge-Covers_old :
    (p : ℕ) (host : Text) (hosts : List MxHost) (q : ℕ) (name : Text)
    → Covers q name hosts
    → Covers q name (merge_host p host hosts)
unfolding merge_host
merge-Covers_old p host [] q name h = absurd h
merge-Covers_old p host (x ∷ hosts) q name h =
    elim (Bool-cases (eq_ignore_ascii_case x.host host)) [
      | inl same ↦ rw same (elim (Bool-cases (ltb p x.preference)) [
        | inl lower' ↦
            rw lower'
              (elim h [ inl (e, l) ↦ inl (e, ground (arith, l, lower')) | inr later ↦ inr later ])
        | inr higher ↦ rw higher h
      ])
      | inr other ↦ rw other (elim h [
        | inl here ↦ inl here
        | inr later ↦ inr (merge-Covers_old p host hosts q name later)
      ])
    ]

-- What the loop keeps of the hosts so far.
record Keeps (hosts result : List MxHost) : Type 0 where
  distinct : IsDistinct hosts → IsDistinct result
  named : All IsNamed hosts → All IsNamed result
  covers : (q : ℕ) (name : Text) → Covers q name hosts → Covers q name result

-- The record is a null MX, or a host of the list covers it.
abbrev IsCovered : List MxHost → (ℕ × Text) → Type 0
IsCovered hosts r = trim_dots r.1 ≢ [] → Covers r.0 (trim_dots r.1) hosts

empty-cases : (t : Text) → (is_empty t ≡ true) × (t ≡ []) ⊎ (is_empty t ≡ false) × (t ≢ [])
empty-cases [] = inl (refl, refl)
empty-cases (c ∷ t) = inr (refl, λ e. cc e)

-- The result of the loop over these records, from these hosts.
abbrev Collected : List MxHost → List (ℕ × Text) → List MxHost → Type 0
Collected hosts records result = Keeps hosts result × All (IsCovered result) records

collect_null :
    (hosts : List MxHost) (p : ℕ) (name : Text) (records : List (ℕ × Text))
    → is_empty (trim_dots name) ≡ true
    → collect_hosts hosts records ≡ collect_hosts hosts ((p, name) ∷ records)
unfolding collect_hosts
collect_null hosts p name records e = rw e

collect_merge :
    (hosts : List MxHost) (p : ℕ) (name : Text) (records : List (ℕ × Text))
    → is_empty (trim_dots name) ≡ false
    → collect_hosts (merge_host p (trim_dots name) hosts) records
      ≡ collect_hosts hosts ((p, name) ∷ records)
unfolding collect_hosts
collect_merge hosts p name records e = rw e

collect-Collected :
    (hosts : List MxHost) (records : List (ℕ × Text))
    → Collected hosts records (collect_hosts hosts records)
collect-Collected hosts [] =
    unfold collect_hosts in
    (record { distinct = λ h. h; named = λ h. h; covers = λ q name h. h }, tt)
collect-Collected hosts ((p, name) ∷ records) = elim (empty-cases (trim_dots name)) [
  | inl (e, null) ↦
      let (keeps, covered) = collect-Collected hosts records in
      subst (Collected hosts ((p, name) ∷ records)) (collect_null hosts p name records e)
        (keeps, (λ ne. absurd (ne null), covered))
  | inr (e, ne) ↦
      let t = trim_dots name in
      let (keeps, covered) = collect-Collected (merge_host p t hosts) records in
      subst (Collected hosts ((p, name) ∷ records)) (collect_merge hosts p name records e) (
        record {
          distinct = λ h. keeps.distinct (merge-IsDistinct p t hosts h);
          named = λ h. keeps.named (merge-IsNamed p t hosts ne h);
          covers = λ q other h. keeps.covers q other (merge-Covers_old p t hosts q other h);
        },
        (λ _. keeps.covers p t (merge-Covers_new p t hosts), covered),
      )
]

-- The hosts of a zone are in order of preference and then of name, no two are the same name up to
-- case, none is empty; and every MX record that is no null MX has its host in the list, at the
-- record's preference or a lower one.
pub normalize_mx_lem :
    (records : List (ℕ × Text))
    → IsSorted (normalize_mx records)
      × IsDistinct (normalize_mx records)
      × All (λ h. h.host ≢ []) (normalize_mx records)
      × All (λ r. trim_dots r.1 ≢ [] → Covers r.0 (trim_dots r.1) (normalize_mx records)) records
unfolding normalize_mx
normalize_mx_lem records =
    let hosts = collect_hosts [] records in
    let (keeps, covered) = collect-Collected [] records in
    (
      sort-IsSorted hosts,
      sort-IsDistinct hosts (keeps.distinct tt),
      sort-All IsNamed hosts (keeps.named tt),
      All-mono (IsCovered hosts) (IsCovered (sort_hosts hosts)) records
          (λ r c ne. sort-Any _ hosts (c ne)) covered,
    )
