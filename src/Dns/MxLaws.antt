-- ===== src/Dns/MxLaws.antt =====
-- src/dns.rs: lemmas on the merge and the sort of `normalize_mx`.
use gentlsa.Prelude.{
  Text, List, [], ◌∷◌, ◌≡◌, refl, ◌∙◌, All, Any, inl, inr, true, false, Bool-cases, arith,
  eq_ignore_ascii_case, to_ascii_lowercase,
}
use gentlsa.Prelude.StrLaws.{eq_ignore_ascii_case_comm}
use gentlsa.Dns.Mx.{MxHost, text_le, host_le, insert_host, sort_hosts}

-- Adjacent hosts are in the order of the sort.
abbrev pub IsSorted : List MxHost → Type 0
IsSorted [] = Unit
IsSorted (x ∷ []) = Unit
IsSorted (x ∷ y ∷ ys) = (host_le x y ≡ true) × IsSorted (y ∷ ys)

abbrev pub Differs : Text → MxHost → Type 0
Differs name y = eq_ignore_ascii_case name y.host ≡ false

-- No two hosts have the same name up to case.
abbrev pub IsDistinct : List MxHost → Type 0
IsDistinct [] = Unit
IsDistinct (x ∷ xs) = All (λ y. eq_ignore_ascii_case x.host y.host ≡ false) xs × IsDistinct xs

text_le_total : (s t : Text) → text_le s t ≡ false → text_le t s ≡ true
unfolding text_le
text_le_total [] t h = cc
text_le_total (c ∷ s) [] h = refl
text_le_total (c ∷ s) (d ∷ t) h = ground (arith, text_le_total s t)

host_le_total : (a b : MxHost) → host_le a b ≡ false → host_le b a ≡ true
unfolding host_le
host_le_total a b h =
    ground (arith, text_le_total (to_ascii_lowercase a.host) (to_ascii_lowercase b.host))

tail-IsSorted : (y : MxHost) (ys : List MxHost) → IsSorted (y ∷ ys) → IsSorted ys
tail-IsSorted y [] h = tt
tail-IsSorted y (z ∷ ys) (_, h) = h

-- A host in front of an insertion, in order with both.
below_insert :
    (x y : MxHost) (ys : List MxHost)
    → host_le y x ≡ true
    → IsSorted (y ∷ ys)
    → IsSorted (insert_host x ys)
    → IsSorted (y ∷ insert_host x ys)
unfolding insert_host
below_insert x y [] e h k = (e, tt)
below_insert x y (z ∷ ys) e (h, hs) k = elim (Bool-cases (host_le x z)) [
  | inl l ↦ rw l (e, (l, hs))
  | inr l ↦ rw l (h, rw l at k)
]

insert-IsSorted : (x : MxHost) (ys : List MxHost) → IsSorted ys → IsSorted (insert_host x ys)
unfolding insert_host
insert-IsSorted x [] h = tt
insert-IsSorted x (y ∷ ys) h = elim (Bool-cases (host_le x y)) [
  | inl e ↦ rw e (e, h)
  | inr e ↦
      rw e
        (below_insert x y ys (host_le_total x y e) h (insert-IsSorted x ys (tail-IsSorted y ys h)))
]

pub sort-IsSorted : (xs : List MxHost) → IsSorted (sort_hosts xs)
unfolding sort_hosts
sort-IsSorted [] = tt
sort-IsSorted (x ∷ xs) = insert-IsSorted x (sort_hosts xs) (sort-IsSorted xs)

insert-All :
    (P : MxHost → Type 0) (x : MxHost) (ys : List MxHost)
    → P x
    → All P ys
    → All P (insert_host x ys)
unfolding insert_host
insert-All P x [] p h = (p, tt)
insert-All P x (y ∷ ys) p (q, h) = elim (Bool-cases (host_le x y)) [
  | inl e ↦ rw e (p, (q, h))
  | inr e ↦ rw e (q, insert-All P x ys p h)
]

pub sort-All : (P : MxHost → Type 0) (xs : List MxHost) → All P xs → All P (sort_hosts xs)
unfolding sort_hosts
sort-All P [] h = tt
sort-All P (x ∷ xs) (p, h) = insert-All P x (sort_hosts xs) p (sort-All P xs h)

insert-Any_new :
    (P : MxHost → Type 0) (x : MxHost) (ys : List MxHost) → P x → Any P (insert_host x ys)
unfolding insert_host
insert-Any_new P x [] p = inl p
insert-Any_new P x (y ∷ ys) p = elim (Bool-cases (host_le x y)) [
  | inl e ↦ rw e (inl p)
  | inr e ↦ rw e (inr (insert-Any_new P x ys p))
]

insert-Any_old :
    (P : MxHost → Type 0) (x : MxHost) (ys : List MxHost) → Any P ys → Any P (insert_host x ys)
unfolding insert_host
insert-Any_old P x [] h = absurd h
insert-Any_old P x (y ∷ ys) h = elim (Bool-cases (host_le x y)) [
  | inl e ↦ rw e (inr h)
  | inr e ↦ rw e (elim h [ inl here ↦ inl here | inr later ↦ inr (insert-Any_old P x ys later) ])
]

pub sort-Any : (P : MxHost → Type 0) (xs : List MxHost) → Any P xs → Any P (sort_hosts xs)
unfolding sort_hosts
sort-Any P [] h = absurd h
sort-Any P (x ∷ xs) (inl p) = insert-Any_new P x (sort_hosts xs) p
sort-Any P (x ∷ xs) (inr h) = insert-Any_old P x (sort_hosts xs) (sort-Any P xs h)

insert-IsDistinct :
    (x : MxHost) (ys : List MxHost)
    → All (Differs x.host) ys
    → IsDistinct ys
    → IsDistinct (insert_host x ys)
unfolding insert_host
insert-IsDistinct x [] h d = (tt, tt)
insert-IsDistinct x (y ∷ ys) (hy, h) (dy, d) = elim (Bool-cases (host_le x y)) [
  | inl e ↦ rw e ((hy, h), (dy, d))
  | inr e ↦ rw e (
    insert-All (Differs y.host) x ys (eq_ignore_ascii_case_comm y.host x.host ∙ hy) dy,
    insert-IsDistinct x ys h d,
  )
]

pub sort-IsDistinct : (xs : List MxHost) → IsDistinct xs → IsDistinct (sort_hosts xs)
unfolding sort_hosts
sort-IsDistinct [] h = tt
sort-IsDistinct (x ∷ xs) (hx, h) =
    insert-IsDistinct x (sort_hosts xs) (sort-All (Differs x.host) xs hx) (sort-IsDistinct xs h)
