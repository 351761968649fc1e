-- ===== src/Rollover/JobLaws.antt =====
-- src/rollover.rs: lemmas on the id and the timestamps of a job.
use gentlsa.Prelude.{
  ℕ, ◌+◌, ◌*◌, ◌≤◌, ◌≡◌, refl, ap, ◌∙◌, Text, codes, Bool, true, false, not, ◌&&◌, Option, none,
  some, List, [], ◌∷◌, ◌++◌, ltb, map, all, join, is_empty, contains, is_ascii_alphanumeric, arith,
  All, Bool-cases, trim_dots, inl, inr,
}
use gentlsa.Prelude.Decimal.{to_string, to_string-All, IsDigit}
use gentlsa.Tlsa.Owner.{nonempty}
use gentlsa.Publish.Names.{byte_len}
use gentlsa.Rollover.{u32_max, u64_max, wait_seconds, saturating_mul}
use gentlsa.Rollover.Job.{
  Job, is_safe, safe_char, is_id_char, base_name, job_id, valid_job_id, mark_published,
  mark_reloaded, add_u64, later,
}

safe_char-ok : (c : ℕ) → is_id_char (safe_char c) ≡ true
unfolding is_id_char safe_char is_safe
safe_char-ok c = elim (Bool-cases (is_safe c)) [
  | inl e ↦ rw (e, safe_char) (unfold is_safe in ground (arith, e))
  | inr e ↦ rw (e, safe_char) refl
]

all-map : (s : Text) → all is_id_char (map safe_char s) ≡ true
all-map [] = refl
all-map (c ∷ s) = ground (arith, safe_char-ok c, all-map s)

all-append : (p : ℕ → Bool) (s t : Text) → all p s ≡ true → all p t ≡ true → all p (s ++ t) ≡ true
all-append p [] t h k = k
all-append p (c ∷ s) t h k = ground (arith, h, all-append p s t (ground (arith, h)) k)

digit-ok : (c : ℕ) → IsDigit c → is_id_char c ≡ true
unfolding is_id_char is_ascii_alphanumeric
digit-ok c d = ground (arith, d)

digits-ok : (s : Text) → All IsDigit s → all is_id_char s ≡ true
digits-ok [] h = refl
digits-ok (c ∷ s) (d, h) = ground (arith, digit-ok c d, digits-ok s h)

ports-ok : (ports : List ℕ) → all is_id_char (join (codes "-") (map to_string ports)) ≡ true
ports-ok [] = refl
ports-ok (p ∷ []) = digits-ok (to_string p) (to_string-All p)
ports-ok (p ∷ q ∷ ports) =
    all-append is_id_char (to_string p) _ (digits-ok (to_string p) (to_string-All p))
      (all-append is_id_char (codes "-") _ (unfold is_id_char in refl) (ports-ok (q ∷ ports)))

nonempty-append : (s : Text) (c : ℕ) (t : Text) → is_empty (s ++ c ∷ t) ≡ false
nonempty-append [] c t = refl
nonempty-append (d ∷ s) c t = refl

-- An id that `job_id` makes has only the characters of a valid id, so it is refused by
-- `valid_job_id` exactly when it has 200 bytes or more, or holds two dots in a row.
pub valid-job_id :
    (zone : Text) (hostname : Option Text) (ports : List ℕ)
    → valid_job_id (job_id zone hostname ports) ≡ (
        ltb (byte_len (job_id zone hostname ports)) 200
        && not (contains (codes "..") (job_id zone hostname ports)))
unfolding valid_job_id job_id
valid-job_id zone hostname ports =
    let base : Text = map safe_char (base_name (trim_dots zone) (nonempty hostname)) in
    let tail' : Text = join (codes "-") (map to_string ports) in
    let chars : all is_id_char (base ++ (codes "_" ++ tail')) ≡ true =
      all-append is_id_char base (codes "_" ++ tail')
        (all-map (base_name (trim_dots zone) (nonempty hostname)))
        (all-append is_id_char (codes "_") tail' (unfold is_id_char in refl) (ports-ok ports)) in
    let full = nonempty-append base b'_' tail' in ground (arith, chars, full)

-- The clock and the TTL are in a range where no sum of timestamps wraps.
abbrev pub InRange : ℕ → ℕ → Type 0
InRange now ttl = (ttl ≤ u32_max) × (now + 4 * u32_max ≤ u64_max)

wait-eq : (ttl : ℕ) → ttl ≤ u32_max → wait_seconds ttl ≡ 2 * ttl
unfolding wait_seconds saturating_mul
wait-eq ttl h = ground (arith, h)

add_u64-eq : (a b : ℕ) → a + b ≤ u64_max → add_u64 a b ≡ a + b
unfolding add_u64
add_u64-eq a b h = omega (arith, h)

twice-eq : (ttl : ℕ) → ttl ≤ u32_max → saturating_mul (wait_seconds ttl) 2 ≡ 4 * ttl
unfolding wait_seconds saturating_mul
twice-eq ttl h = ground (arith, h)

pub reload_after-eq :
    (job : Job) (now : ℕ)
    → InRange now job.ttl
    → (mark_published job now).reload_after ≡ some (now + 2 * job.ttl)
unfolding mark_published
reload_after-eq job now (h, k) =
    ap (λ n. some n)
      (ap (add_u64 now) (wait-eq job.ttl h) ∙ add_u64-eq now (2 * job.ttl) (omega (arith, h, k)))

pub prune_after-eq :
    (job : Job) (now : ℕ)
    → InRange now job.ttl
    → (mark_published job now).prune_after ≡ some (now + 4 * job.ttl)
unfolding mark_published
prune_after-eq job now (h, k) =
    ap (λ n. some n)
      (ap (add_u64 now) (twice-eq job.ttl h) ∙ add_u64-eq now (4 * job.ttl) (omega (arith, h, k)))

pub later-bound : (o : Option ℕ) (n : ℕ) → n ≤ later o n
unfolding later
later-bound none n = omega arith
later-bound (some m) n = omega arith

pub later-set : (m n : ℕ) → m ≤ later (some m) n
unfolding later
later-set m n = omega arith

-- The deadline that a reload sets.
pub reloaded-deadline :
    (job : Job) (now : ℕ)
    → InRange now job.ttl
    → (d : ℕ) × ((mark_reloaded job now).prune_after ≡ some d)
      × (now + 2 * job.ttl ≤ d)
      × ((m : ℕ) → job.prune_after ≡ some m → m ≤ d)
unfolding mark_reloaded
reloaded-deadline job now (h, k) =
    let e =
      ap (add_u64 now) (wait-eq job.ttl h) ∙ add_u64-eq now (2 * job.ttl) (omega (arith, h, k)) in
    let at' = add_u64 now (wait_seconds job.ttl) in
    (
      later job.prune_after at',
      refl,
      omega (arith, later-bound job.prune_after at', e),
      λ m em. rw (em, later) (unfold later in later-set m at'),
    )

-- For a TTL of a `u32` and a clock far below the last `u64`: a job published at `p` and reloaded at
-- `q` is not to be reloaded before two TTLs behind `p`, and not to be pruned before two TTLs
-- behind `q` nor before four behind `p`.
pub deadlines :
    (job : Job) (p q : ℕ)
    → InRange p job.ttl
    → InRange q job.ttl
    → ((mark_published job p).reload_after ≡ some (p + 2 * job.ttl))
      × ((d : ℕ) × ((mark_reloaded (mark_published job p) q).prune_after ≡ some d)
          × (q + 2 * job.ttl ≤ d)
          × (p + 4 * job.ttl ≤ d))
deadlines job p q hp hq =
    let published = mark_published job p in
    let (d, e, b, keep) = reloaded-deadline published q (unfold mark_published in hq) in
    (reload_after-eq job p hp, (d, e, unfold mark_published in b, keep _ (prune_after-eq job p hp)))
