-- ===== src/Cloudflare/Server.antt =====
-- src/cloudflare.rs: what the HTTP API documents of TLSA records, as `get_result`, `post_json` and
-- `delete` of the client rely on it.
use gentlsa.Prelude.{
  ℕ, zero, suc, ◌≤◌, ◌≡◌, ◌≢◌, refl, sym, ap, ◌∙◌, inl, inr, Text, codes, Bool, true, not, some,
  List, [], ◌∷◌, ◌++◌, length, take, filter, text_eq, All, Any, All-mono, All-filter, arith,
  Bool-cases,
}
use gentlsa.Prelude.StrLaws.{text_eq_iff}
use gentlsa.Publish.Names.{names_equal}
use gentlsa.Cloudflare.{Zone, TlsaPayload, DnsRecord, Api}

-- The record has another id.
abbrev pub differs_from : Text → DnsRecord → Bool
differs_from id r = not (text_eq r.id id)

-- The records of a page, for a request that names no `per_page`.
abbrev pub page_size : ℕ
page_size = 100

-- The record is the one that the payload asks for.
abbrev pub IsIdentical : Zone → TlsaPayload → DnsRecord → Type 0
IsIdentical zone p r =
    (r.record_type ≡ p.record_type)
    × (r.data_of ≡ some p.data_of)
    × (names_equal (p.name ++ (codes "." ++ zone.name)) r.name ≡ true)

-- What the API documents of the TLSA records of a zone, and that it answers: a listing without a page
-- gives the first page; a deletion of a record that is there removes it; a creation of a TLSA record
-- that is not there adds a record with the data, named by the payload's name in the zone. Of a
-- deletion of another id and of a second identical record nothing is said: the API refuses them.
pub record Serves {S : Type 0} (api : Api S) (zone : Zone) : Type 0 where
  pub view : S → List DnsRecord
  pub lists : (s : S) → api.records s zone ≡ some (take page_size (view s))
  pub deletes :
      (s : S) (id : Text)
      → Any (λ r. r.id ≡ id) (view s)
      → (s' : S) × (api.delete s zone id ≡ some s') × (view s' ≡ filter (differs_from id) (view s))
  pub posts :
      (s : S) (p : TlsaPayload)
      → p.record_type ≡ codes "TLSA"
      → All (λ r. ¬ IsIdentical zone p r) (view s)
      → (s' : S) × (r : DnsRecord) × (api.post s zone p ≡ some s')
        × (view s' ≡ view s ++ r ∷ [])
        × IsIdentical zone p r

take_all : (n : ℕ) (rs : List DnsRecord) → length rs ≤ n → take n rs ≡ rs
take_all zero [] h = refl
take_all zero (r ∷ rs) h = absurd (omega (arith, h))
take_all (suc n) [] h = refl
take_all (suc n) (r ∷ rs) h = ap (λ xs. r ∷ xs) (take_all n rs (omega (arith, h)))

-- One page is the whole listing of a zone with no more records than that.
pub listed :
    {S : Type 0} (api : Api S) (zone : Zone) (serves : Serves api zone) (s : S)
    → length (serves.view s) ≤ page_size
    → api.records s zone ≡ some (serves.view s)
listed api zone serves s h = rw (serves.lists s) (ap some (take_all page_size (serves.view s) h))

-- The ids of the records tell them apart.
abbrev pub Distinct : List DnsRecord → Type 0
Distinct [] = Unit
Distinct (r ∷ rs) = All (λ x. r.id ≢ x.id) rs × Distinct rs

Distinct-filter :
    (p : DnsRecord → Bool) (rs : List DnsRecord) → Distinct rs → Distinct (filter p rs)
Distinct-filter p [] h = tt
Distinct-filter p (r ∷ rs) (d, h) = elim (Bool-cases (p r)) [
  | inl e ↦ rw e (All-filter (λ x. r.id ≢ x.id) p rs d, Distinct-filter p rs h)
  | inr e ↦ rw e (Distinct-filter p rs h)
]

-- A record with the id is among them.
abbrev Has : List DnsRecord → DnsRecord → Type 0
Has rs x = Any (λ r. r.id ≡ x.id) rs

Has-filter :
    (a : Text) (x : DnsRecord) (rs : List DnsRecord)
    → a ≢ x.id
    → Has rs x
    → Has (filter (differs_from a) rs) x
Has-filter a x [] n h = absurd h
Has-filter a x (r ∷ rs) n (inl e) = elim (Bool-cases (text_eq r.id a)) [
  | inl t ↦ absurd (n (sym ((text_eq_iff r.id a).0 t) ∙ e))
  | inr t ↦ rw t (inl e)
]
Has-filter a x (r ∷ rs) n (inr h) = elim (Bool-cases (text_eq r.id a)) [
  | inl t ↦ rw t (Has-filter a x rs n h)
  | inr t ↦ rw t (inr (Has-filter a x rs n h))
]

-- The deletions of the records, one after the other, each find their record.
abbrev pub Deletable : List DnsRecord → List DnsRecord → Type 0
Deletable [] rs = Unit
Deletable (x ∷ xs) rs = Has rs x × Deletable xs (filter (differs_from x.id) rs)

still :
    (x : DnsRecord) (xs rs : List DnsRecord)
    → All (λ y. x.id ≢ y.id) xs
    → All (Has rs) xs
    → All (Has (filter (differs_from x.id) rs)) xs
still x [] rs n h = tt
still x (y ∷ xs) rs (ny, n) (hy, h) = (Has-filter x.id y rs ny hy, still x xs rs n h)

Distinct-Deletable : (xs rs : List DnsRecord) → Distinct xs → All (Has rs) xs → Deletable xs rs
Distinct-Deletable [] rs d h = tt
Distinct-Deletable (x ∷ xs) rs (n, d) (hx, h) =
    (hx, Distinct-Deletable xs (filter (differs_from x.id) rs) d (still x xs rs n h))

Has-self : (rs : List DnsRecord) → All (Has rs) rs
Has-self [] = tt
Has-self (r ∷ rs) = (inl refl, All-mono (Has rs) (Has (r ∷ rs)) rs (λ x h. inr h) (Has-self rs))

pub filter-Deletable :
    (p : DnsRecord → Bool) (rs : List DnsRecord) → Distinct rs → Deletable (filter p rs) rs
filter-Deletable p rs d =
    Distinct-Deletable (filter p rs) rs (Distinct-filter p rs d)
      (All-filter (Has rs) p rs (Has-self rs))

-- A record with the id of this one is this one.
abbrev pub HasId : List DnsRecord → DnsRecord → Type 0
HasId rs r = All (λ x. text_eq r.id x.id ≡ true → r ≡ x) rs

both :
    (r : DnsRecord) (xs rs : List DnsRecord)
    → All (λ x. r.id ≢ x.id) xs
    → All (HasId rs) xs
    → All (HasId (r ∷ rs)) xs
both r [] rs n h = tt
both r (x ∷ xs) rs (nx, n) (hx, h) =
    ((λ t. absurd (nx (sym ((text_eq_iff x.id r.id).0 t))), hx), both r xs rs n h)

pub Distinct-HasId : (rs : List DnsRecord) → Distinct rs → All (HasId rs) rs
Distinct-HasId [] h = tt
Distinct-HasId (r ∷ rs) (n, h) = (
  (
    λ t. refl,
    All-mono (λ x. r.id ≢ x.id) (λ x. text_eq r.id x.id ≡ true → r ≡ x) rs
        (λ x ne t. absurd (ne ((text_eq_iff r.id x.id).0 t))) n,
  ),
  both r rs rs n (Distinct-HasId rs h),
)
