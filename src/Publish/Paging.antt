-- ===== src/Publish/Paging.antt =====
-- src/google.rs, src/route53.rs, src/azure.rs: the loop over the pages of a listing.
use gentlsa.Prelude.{
  ℕ, zero, suc, ◌≤◌, ◌≡◌, ap, sym, ◌∙◌, Option, none, some, List, [], ◌∷◌, ◌++◌, append_assoc,
  append-nil, ◌>>=◌, arith,
}

module _ {A T : Type 0} (fetch : T → Option (List A × Option T)) where
  -- `fetch` reads the page of a token: its items and the token of the next one. `fuel` bounds the
  -- rounds; `none` is an error or a listing with more pages.
  unfoldable pub pages_from : ℕ → T → List A → Option (List A)
  pages_from zero token items = none
  pages_from (suc fuel) token items = fetch token >>= λ page. elim page.1 [
    | none ↦ some (items ++ page.0)
    | some next ↦ pages_from fuel next (items ++ page.0)
  ]

  unfoldable pub pages : ℕ → T → Option (List A)
  unfolding pages_from
  pages fuel token = pages_from fuel token []

  -- The pages of a listing from a token on.
  pub data Listing : T → List (List A) → Type 0 where
    last :
        (token : T) (items : List A) → fetch token ≡ some (items, none) → Listing token (items ∷ [])
    more :
        (token next : T) (items : List A) (rest : List (List A))
        → fetch token ≡ some (items, some next)
        → Listing next rest
        → Listing token (items ∷ rest)

  abbrev pub concat_pages : List (List A) → List A
  concat_pages [] = []
  concat_pages (items ∷ rest) = items ++ concat_pages rest

  abbrev pub count : List (List A) → ℕ
  count [] = 0
  count (items ∷ rest) = suc (count rest)

  pages_from-Listing :
      (token : T) (all_pages : List (List A)) (fuel : ℕ) (items : List A)
      → Listing token all_pages
      → count all_pages ≤ fuel
      → pages_from fuel token items ≡ some (items ++ concat_pages all_pages)
  unfolding pages_from
  pages_from-Listing token _ zero items (last _ got e) h = absurd (omega (arith, h))
  pages_from-Listing token _ zero items (more _ next got rest e l) h = absurd (omega (arith, h))
  pages_from-Listing token _ (suc fuel) items (last _ got e) h =
      rw e (ap (λ l. some (items ++ l)) (sym (append-nil got)))
  pages_from-Listing token _ (suc fuel) items (more _ next got rest e l) h = rw e (
      pages_from-Listing next rest fuel (items ++ got) l (omega (arith, h))
      ∙ ap some (append_assoc items got (concat_pages rest)))

  -- A listing of that many pages is read to its end, in order, if the rounds are as many at least.
  pub pages-Listing :
      (token : T) (all_pages : List (List A)) (fuel : ℕ)
      → Listing token all_pages
      → count all_pages ≤ fuel
      → pages fuel token ≡ some (concat_pages all_pages)
  unfolding pages
  pages-Listing token all_pages fuel l h = pages_from-Listing token all_pages fuel [] l h
