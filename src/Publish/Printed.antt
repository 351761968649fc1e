-- ===== src/Publish/Printed.antt =====
-- src/publish.rs: lemmas on record sets that are written as text and read again.
use gentlsa.Prelude.{
  ℕ, ◌≤◌, ◌≡◌, ◌≢◌, refl, ap, inl, inr, Text, Bool, true, false, not, ◌&&◌, ◌||◌, none, some, List,
  [], ◌∷◌, ◌++◌, All, All-append, All-filter, arith, Bool-cases, Option-cases, some-inj,
  bind-eq-some, split_whitespace, is_empty, concat, words_from, is_whitespace, if◌then◌else◌,
  to_ascii_lowercase,
}
use mathlib.Core.Path.{subst}
use gentlsa.Prelude.StrLaws.{to_ascii_lowercase_idem}
use gentlsa.Prelude.Affix.{NoSpace, NoSpace-lower}
use gentlsa.Prelude.Decimal.{parse_u8, parse_uint_bound}
use gentlsa.Publish.{
  PublishAction, added, already_published, replaced, would_add, would_replace, DaneTlsa, live_dane,
  replace_loop, rrset_after_publish, rrset_after_prune, is_dane_ee_spki_sha256, hash_matches,
  is_stale, stale_dane,
}
use gentlsa.Publish.Rdata.{
  next_u8, joined_certificate, parse_tlsa_rdata, format_tlsa_rdata, rdata_dane,
}
use gentlsa.Publish.RoundTrip.{parse-format}

-- A record that is the same behind a print and a parse.
pub record IsPrintable (r : DaneTlsa) : Type 0 where
  pub usage : r.usage ≤ 255
  pub selector : r.selector ≤ 255
  pub matching : r.matching ≤ 255
  pub some_text : r.certificate ≢ []
  pub no_space : NoSpace r.certificate
  pub lower_case : to_ascii_lowercase r.certificate ≡ r.certificate

pub IsPrintable-round :
    (r : DaneTlsa) → IsPrintable r → parse_tlsa_rdata (format_tlsa_rdata r) ≡ some r
IsPrintable-round r h =
    parse-format r h.usage h.selector h.matching h.some_text h.no_space h.lower_case

-- The certificates that a publish writes: hashes in hexadecimal are among them.
pub record IsHash (certificate : Text) : Type 0 where
  pub some_text : certificate ≢ []
  pub no_space : NoSpace certificate

pub live_dane-IsPrintable :
    (certificate : Text) → IsHash certificate → IsPrintable (live_dane certificate)
unfolding live_dane
live_dane-IsPrintable certificate h = record {
  usage = omega arith;
  selector = omega arith;
  matching = omega arith;
  some_text = lower-ne-nil certificate h.some_text;
  no_space = NoSpace-lower certificate h.no_space;
  lower_case = to_ascii_lowercase_idem certificate;
}
  where
    lower-ne-nil : (t : Text) → t ≢ [] → to_ascii_lowercase t ≢ []
    lower-ne-nil [] n = n
    lower-ne-nil (c ∷ t) n = λ e. cc e

-- The words between whitespace hold none.
words_from-NoSpace : (cur s : Text) → NoSpace cur → All NoSpace (words_from cur s)
unfolding words_from
words_from-NoSpace [] [] h = tt
words_from-NoSpace (c ∷ cur) [] h = (h, tt)
words_from-NoSpace [] (c ∷ s) h = elim (Bool-cases (is_whitespace c)) [
  | inl w ↦ rw (w, words_from) (words_from-NoSpace [] s tt)
  | inr w ↦ rw (w, words_from) (words_from-NoSpace (c ∷ []) s (w, tt))
]
words_from-NoSpace (d ∷ cur) (c ∷ s) h = elim (Bool-cases (is_whitespace c)) [
  | inl w ↦ rw (w, words_from) (h, words_from-NoSpace [] s tt)
  | inr w ↦
      rw (w, words_from)
        (words_from-NoSpace ((d ∷ cur) ++ c ∷ []) s
          (All-append (λ x. is_whitespace x ≡ false) (d ∷ cur) (c ∷ []) h (w, tt)))
]

concat-NoSpace : (parts : List Text) → All NoSpace parts → NoSpace (concat parts)
concat-NoSpace [] h = tt
concat-NoSpace (p ∷ parts) (hp, h) =
    All-append (λ c. is_whitespace c ≡ false) p (concat parts) hp (concat-NoSpace parts h)

nonempty-inj :
    (t certificate : Text)
    → (if is_empty t then none else some t) ≡ some certificate
    → (t ≢ []) × (t ≡ certificate)
nonempty-inj [] certificate e = absurd (cc e)
nonempty-inj (c ∷ t) certificate e = ((λ z. cc z), some-inj (c ∷ t) certificate e)

joined-IsPrintable :
    (parts : List Text) (certificate : Text)
    → All NoSpace parts
    → joined_certificate parts ≡ some certificate
    → (certificate ≢ []) × NoSpace certificate × (to_ascii_lowercase certificate ≡ certificate)
unfolding joined_certificate
joined-IsPrintable parts certificate h e =
    let (ne, same) = nonempty-inj (to_ascii_lowercase (concat parts)) certificate e in
    (
      rw (← same) ne,
      rw (← same) (NoSpace-lower (concat parts) (concat-NoSpace parts h)),
      rw (← same) (to_ascii_lowercase_idem (concat parts)),
    )

next_u8-bound :
    (parts : List Text) (n : ℕ) (rest : List Text)
    → All NoSpace parts
    → next_u8 parts ≡ some (n, rest)
    → (n ≤ 255) × All NoSpace rest
unfolding next_u8
next_u8-bound [] n rest h e = absurd (cc e)
next_u8-bound (part ∷ parts) n rest (hp, h) e =
    let (m, em, es) = bind-eq-some (parse_u8 part) (λ k. some (k, parts)) (n, rest) e in
    let same = some-inj (m, parts) (n, rest) es in
    (
      rw (← ap (λ p. p.0) same) (parse_uint_bound 255 part m em),
      subst (All NoSpace) (ap (λ p. p.1) same) h,
    )

-- What is parsed from text is printable.
pub parse-IsPrintable : (t : Text) (r : DaneTlsa) → parse_tlsa_rdata t ≡ some r → IsPrintable r
unfolding parse_tlsa_rdata
parse-IsPrintable t r e =
    let words = words_from-NoSpace [] t tt in
    let (u, eu, e₁) = bind-eq-some (next_u8 (split_whitespace t)) _ r e in
    let (s, es, e₂) = bind-eq-some (next_u8 u.1) _ r e₁ in
    let (m, em, e₃) = bind-eq-some (next_u8 s.1) _ r e₂ in
    let (c, ec, e₄) = bind-eq-some (joined_certificate m.1) _ r e₃ in
    let hu = next_u8-bound (split_whitespace t) u.0 u.1 words eu in
    let hs = next_u8-bound u.1 s.0 s.1 hu.1 es in
    let hm = next_u8-bound s.1 m.0 m.1 hs.1 em in
    let hc = joined-IsPrintable m.1 c hm.1 ec in
    let same =
      some-inj (record { usage = u.0; selector = s.0; matching = m.0; certificate = c }) r e₄ in
    rw (← same) (record {
      usage = hu.0;
      selector = hs.0;
      matching = hm.0;
      some_text = hc.0;
      no_space = hc.1;
      lower_case = hc.2;
    })

-- What holds of the records of a set and of the live record holds of the set that is written.
module _ (P : DaneTlsa → Type 0) (certificate : Text) (live : P (live_dane certificate)) where
  replace_loop-All :
      (ours : List DaneTlsa) (done : Bool) (next : List DaneTlsa)
      → All P ours
      → All P next
      → All P (replace_loop certificate ours done next)
  unfolding replace_loop
  replace_loop-All [] true next h n = n
  replace_loop-All [] false next h n = All-append P next (live_dane certificate ∷ []) n (live, tt)
  replace_loop-All (r ∷ ours) done next (hr, h) n =
      elim (Bool-cases (not done && is_dane_ee_spki_sha256 r)) [
        | inl first ↦
            rw (first, replace_loop)
              (replace_loop-All ours true (next ++ live_dane certificate ∷ []) h
                (All-append P next (live_dane certificate ∷ []) n (live, tt)))
        | inr other ↦
            rw (other, replace_loop)
              (replace_loop-All ours done (next ++ r ∷ []) h
                (All-append P next (r ∷ []) n (hr, tt)))
      ]

  pub rrset_after_publish-All :
      (ours : List DaneTlsa) (action : PublishAction)
      → All P ours
      → All P (rrset_after_publish ours certificate action)
  unfolding rrset_after_publish
  rrset_after_publish-All ours added h = All-append P ours (live_dane certificate ∷ []) h (live, tt)
  rrset_after_publish-All ours replaced h = replace_loop-All ours false [] h tt
  rrset_after_publish-All ours already_published h = h
  rrset_after_publish-All ours would_add h = h
  rrset_after_publish-All ours would_replace h = h

pub rrset_after_publish-IsPrintable :
    (ours : List DaneTlsa) (certificate : Text) (action : PublishAction)
    → IsHash certificate
    → All IsPrintable ours
    → All IsPrintable (rrset_after_publish ours certificate action)
rrset_after_publish-IsPrintable ours certificate action c =
    rrset_after_publish-All IsPrintable certificate (live_dane-IsPrintable certificate c) ours
      action

pub rrset_after_prune-IsPrintable :
    (ours : List DaneTlsa) (live : Text)
    → All IsPrintable ours
    → All IsPrintable (rrset_after_prune ours live)
unfolding rrset_after_prune
rrset_after_prune-IsPrintable ours live h = All-filter IsPrintable _ ours h

-- A value that a publisher reads is printable, and its print is read as itself.
pub rdata_dane-IsPrintable :
    (name rdata : Text) (r : DaneTlsa) → rdata_dane name rdata ≡ some r → IsPrintable r
unfolding rdata_dane
rdata_dane-IsPrintable name rdata r e = elim (Option-cases (parse_tlsa_rdata rdata)) [
  | inl n ↦ absurd (cc (rw n at e))
  | inr (d, n) ↦ rw (← some-inj d r (rw n at e)) (parse-IsPrintable rdata d n)
]

pub rdata_dane-format :
    (name : Text) (r : DaneTlsa) → IsPrintable r → rdata_dane name (format_tlsa_rdata r) ≡ some r
unfolding rdata_dane
rdata_dane-format name r h = rw (IsPrintable-round r h) refl

not_stale-keeps :
    (live : Text) (r : DaneTlsa)
    → is_stale live r ≡ false
    → (not (is_dane_ee_spki_sha256 r) || hash_matches r live) ≡ true
unfolding is_stale
not_stale-keeps live r e = ground (arith, e)

-- A prune of a set with no stale record changes nothing.
pub prune-no_stale :
    (ours : List DaneTlsa) (live : Text)
    → is_empty (stale_dane ours live) ≡ true
    → rrset_after_prune ours live ≡ ours
unfolding stale_dane rrset_after_prune
prune-no_stale [] live e = refl
prune-no_stale (r ∷ ours) live e = elim (Bool-cases (is_stale live r)) [
  | inl s ↦ absurd (cc (rw s at e))
  | inr s ↦ rw (not_stale-keeps live r s) (ap (λ l. r ∷ l) (prune-no_stale ours live (rw s at e)))
]

push-ne-nil : {A : Type 0} (xs : List A) (x : A) → xs ++ x ∷ [] ≢ []
push-ne-nil [] x e = cc e
push-ne-nil (y ∷ xs) x e = cc e

replace_loop-ne-nil :
    (certificate : Text) (ours : List DaneTlsa) (done : Bool) (next : List DaneTlsa)
    → (done ≡ true → next ≢ [])
    → replace_loop certificate ours done next ≢ []
unfolding replace_loop
replace_loop-ne-nil certificate [] true next h = h refl
replace_loop-ne-nil certificate [] false next h = push-ne-nil next (live_dane certificate)
replace_loop-ne-nil certificate (r ∷ ours) done next h =
    elim (Bool-cases (not done && is_dane_ee_spki_sha256 r)) [
      | inl first ↦
          rw (first, replace_loop)
            (replace_loop-ne-nil certificate ours true (next ++ live_dane certificate ∷ [])
              (λ _. push-ne-nil next (live_dane certificate)))
      | inr other ↦
          rw (other, replace_loop)
            (replace_loop-ne-nil certificate ours done (next ++ r ∷ []) (λ _. push-ne-nil next r))
    ]

-- A set that is written is not empty.
pub rrset_after_publish-ne-nil :
    (ours : List DaneTlsa) (certificate : Text)
    → (rrset_after_publish ours certificate added ≢ [])
      × (rrset_after_publish ours certificate replaced ≢ [])
unfolding rrset_after_publish
rrset_after_publish-ne-nil ours certificate = (
  push-ne-nil ours (live_dane certificate),
  replace_loop-ne-nil certificate ours false [] (λ e. cc e),
)
