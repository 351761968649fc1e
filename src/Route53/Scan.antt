-- ===== src/Route53/Scan.antt =====
-- src/route53.rs: lemmas on `xml_blocks` and `xml_texts` over a text in which the tag that is looked for
-- stands at known places.
use gentlsa.Prelude.{
  ℕ, zero, suc, ◌≡◌, ◌≢◌, refl, sym, ap, ◌∙◌, inl, inr, Text, codes, Bool, true, false, not, ◌&&◌,
  ◌||◌, ◌==◌, ==_iff, Option, none, some, [], ◌∷◌, ◌++◌, length, drop, map, trim, All, starts_with,
  append-nil, arith, Bool-cases, Option-cases,
}
use gentlsa.Route53.Xml.{
  split_first, open_tag, close_tag, blocks_from, xml_blocks, xml_texts, xml_text, first_text,
}

-- The pattern and the text differ at a character that both have.
abbrev pub clash : Text → Text → Bool
clash [] s = false
clash (c ∷ p) [] = false
clash (c ∷ p) (d ∷ s) = not (c == d) || clash p s

-- The pattern starts nowhere in the text, whatever follows it.
abbrev pub clear : Text → Text → Bool
clear p [] = true
clear p (c ∷ s) = clash p (c ∷ s) && clear p s

clash-starts : (p s rest : Text) → clash p s ≡ true → starts_with p (s ++ rest) ≡ false
unfolding starts_with
clash-starts [] s rest h = absurd (ground (arith, h))
clash-starts (c ∷ p) [] rest h = absurd (ground (arith, h))
clash-starts (c ∷ p) (d ∷ s) rest h = elim (Bool-cases (c == d)) [
  | inr e ↦ rw e refl
  | inl e ↦ rw e (clash-starts p s rest (sym (rw e refl) ∙ h))
]

clash-append : (p s t : Text) → clash p s ≡ true → clash p (s ++ t) ≡ true
clash-append [] s t h = absurd (ground (arith, h))
clash-append (c ∷ p) [] t h = absurd (ground (arith, h))
clash-append (c ∷ p) (d ∷ s) t h = elim (Bool-cases (c == d)) [
  | inr e ↦ rw e refl
  | inl e ↦ rw e (clash-append p s t (sym (rw e refl) ∙ h))
]

pub clear-append : (p s t : Text) → clear p s ≡ true → clear p t ≡ true → clear p (s ++ t) ≡ true
clear-append p [] t h k = k
clear-append p (c ∷ s) t h k =
    ground (
      arith,
      clash-append p (c ∷ s) t (ground (arith, h)),
      clear-append p s t (ground (arith, h)) k,
    )

-- A text without `<` has no tag.
abbrev pub NoTag : Text → Type 0
NoTag t = All (λ c. c ≢ b'<') t

pub NoTag-clear : (p t : Text) → NoTag t → clear (b'<' ∷ p) t ≡ true
NoTag-clear p [] h = refl
NoTag-clear p (c ∷ t) (n, h) = ground (arith, NoTag-clear p t h, n)

abbrev pub prepend : Text → Option (Text × Text) → Option (Text × Text)
prepend t none = none
prepend t (some (a, b)) = some (t ++ a, b)

split-skip :
    (p t rest : Text)
    → clear p t ≡ true
    → split_first p (t ++ rest) ≡ prepend t (split_first p rest)
unfolding split_first
split-skip p [] rest h = elim (Option-cases (split_first p rest)) [
  | inl e ↦ rw e refl
  | inr ((a, b), e) ↦ rw e refl
]
split-skip p (c ∷ t) rest h =
    let no' = clash-starts p (c ∷ t) rest (ground (arith, h)) in
    let ih = split-skip p t rest (ground (arith, h)) in
    elim (Option-cases (split_first p rest)) [
      | inl e ↦ rw (no', ih, e, split_first) refl
      | inr ((a, b), e) ↦ rw (no', ih, e, split_first) refl
    ]

starts_self : (p rest : Text) → starts_with p (p ++ rest) ≡ true
unfolding starts_with
starts_self [] rest = refl
starts_self (c ∷ p) rest = rw ((==_iff c c).1 refl) (starts_self p rest)

drop_self : (p rest : Text) → drop (length p) (p ++ rest) ≡ rest
drop_self [] rest = refl
drop_self (c ∷ p) rest = drop_self p rest

split-hit : (c : ℕ) (p rest : Text) → split_first (c ∷ p) ((c ∷ p) ++ rest) ≡ some ([], rest)
unfolding split_first
split-hit c p rest =
    rw (starts_self (c ∷ p) rest, split_first) (ap (λ r. some ([], r)) (drop_self p rest))

split-found :
    (c : ℕ) (p t rest : Text)
    → clear (c ∷ p) t ≡ true
    → split_first (c ∷ p) (t ++ ((c ∷ p) ++ rest)) ≡ some (t, rest)
split-found c p t rest h =
    split-skip (c ∷ p) t ((c ∷ p) ++ rest) h
    ∙ (ap (prepend t) (split-hit c p rest) ∙ ap (λ a. some (a, rest)) (append-nil t))

split-none : (c : ℕ) (p t : Text) → clear (c ∷ p) t ≡ true → split_first (c ∷ p) t ≡ none
unfolding split_first
split-none c p t h = ap (split_first (c ∷ p)) (sym (append-nil t)) ∙ split-skip (c ∷ p) t [] h

module _ (tag : Text) where
  -- What stands in front of a first tag changes nothing.
  pub blocks-skip :
      (fuel : ℕ) (t rest : Text)
      → clear (open_tag tag) t ≡ true
      → blocks_from fuel tag (t ++ rest) ≡ blocks_from fuel tag rest
  unfolding blocks_from
  blocks-skip zero t rest h = refl
  blocks-skip (suc fuel) t rest h = elim (Option-cases (split_first (open_tag tag) rest)) [
    | inl e ↦ rw (split-skip (open_tag tag) t rest h, e, blocks_from) refl
    | inr ((a, b), e) ↦ rw (split-skip (open_tag tag) t rest h, e, blocks_from) refl
  ]

  pub blocks-hit :
      (fuel : ℕ) (block rest : Text)
      → clear (close_tag tag) block ≡ true
      → blocks_from (suc fuel) tag (open_tag tag ++ (block ++ (close_tag tag ++ rest)))
        ≡ block ∷ blocks_from fuel tag rest
  unfolding blocks_from
  blocks-hit fuel block rest h =
      rw
        (
          split-hit b'<' (tag ++ codes ">") (block ++ (close_tag tag ++ rest)),
          split-found b'<' (codes "/" ++ (tag ++ codes ">")) block rest h,
          blocks_from,
        )
        refl

  pub blocks-none :
      (fuel : ℕ) (t : Text) → clear (open_tag tag) t ≡ true → blocks_from fuel tag t ≡ []
  unfolding blocks_from
  blocks-none zero t h = refl
  blocks-none (suc fuel) t h = rw (split-none b'<' (tag ++ codes ">") t h, blocks_from) refl

  -- The first text behind some without the tag.
  pub xml_text-hit :
      (before block rest : Text)
      → clear (open_tag tag) before ≡ true
      → clear (close_tag tag) block ≡ true
      → xml_text (before ++ (open_tag tag ++ (block ++ (close_tag tag ++ rest)))) tag
        ≡ some (trim block)
  unfolding xml_text xml_texts xml_blocks
  xml_text-hit before block rest h k =
      let all = before ++ (open_tag tag ++ (block ++ (close_tag tag ++ rest))) in
      ap (λ blocks. first_text (map trim blocks))
        (blocks-skip (suc (length all)) before (open_tag tag ++ (block ++ (close_tag tag ++ rest)))
            h
          ∙ blocks-hit (length all) block rest k)

  pub xml_text-none : (t : Text) → clear (open_tag tag) t ≡ true → xml_text t tag ≡ none
  unfolding xml_text xml_texts xml_blocks
  xml_text-none t h = ap (λ blocks. first_text (map trim blocks)) (blocks-none (suc (length t)) t h)
