-- ===== src/Negotiate/Xmpp/Markers.antt =====
-- src/cert.rs: how far `read_until_markers` reads.
use gentlsa.Prelude.{
  ℕ, ◌+◌, ◌≤◌, ◌≡◌, ◌≢◌, refl, ap, ◌∙◌, Text, Bool, true, false, List, [], ◌∷◌, ◌++◌, ltb, length,
  length-append, append_assoc, any, map, to_ascii_lowercase, arith,
}
use gentlsa.Negotiate.{ok, max_response, ends_with_marker, read_until_from, read_until_markers}

not_true : (b : Bool) → ¬ (b ≡ true) → b ≡ false
not_true true h = absurd (h refl)
not_true false h = refl

-- Some marker ends the bytes.
abbrev pub IsMarked : List Text → List ℕ → Type 0
IsMarked markers bytes = any (ends_with_marker bytes) markers ≡ true

-- Behind `buf` the bytes complete a marker at their end, and at no byte before.
pub record IsFirst (markers : List Text) (buf bytes : List ℕ) : Type 0 where
  pub some_byte : bytes ≢ []
  pub marked : IsMarked markers (buf ++ bytes)
  pub earlier : (p q : List ℕ) → bytes ≡ p ++ q → p ≢ [] → q ≢ [] → ¬ IsMarked markers (buf ++ p)

IsFirst-tail :
    (markers : List Text) (buf : List ℕ) (b c : ℕ) (bytes : List ℕ)
    → IsFirst markers buf (b ∷ c ∷ bytes)
    → IsFirst markers (buf ++ b ∷ []) (c ∷ bytes)
IsFirst-tail markers buf b c bytes h = record {
  some_byte = λ e. cc e;
  marked = rw (append_assoc buf (b ∷ []) (c ∷ bytes)) h.marked;
  earlier = λ p q e np nq m.
      h.earlier (b ∷ p) q (ap (λ l. b ∷ l) e) (λ z. cc z) nq
        (rw (append_assoc buf (b ∷ []) p) at m);
}

read_until_from-first :
    (markers : List Text) (buf bytes rest output : List ℕ)
    → length buf + length bytes ≤ max_response
    → IsFirst markers buf bytes
    → read_until_from markers buf (bytes ++ rest) output
      ≡ ok (buf ++ bytes) (record { input = rest; output = output })
unfolding read_until_from
read_until_from-first markers buf [] rest output n h = absurd (h.some_byte refl)
read_until_from-first markers buf (b ∷ []) rest output n h =
    let short : ltb max_response (length (buf ++ b ∷ [])) ≡ false =
      ground (arith, n, length-append buf (b ∷ [])) in
    rw (short, h.marked, read_until_from) refl
read_until_from-first markers buf (b ∷ c ∷ bytes) rest output n h =
    let len = length-append buf (b ∷ []) in
    let short : ltb max_response (length (buf ++ b ∷ [])) ≡ false = ground (arith, n, len) in
    let unmarked : any (ends_with_marker (buf ++ b ∷ [])) markers ≡ false =
      not_true (any (ends_with_marker (buf ++ b ∷ [])) markers)
        (h.earlier (b ∷ []) (c ∷ bytes) refl (λ z. cc z) (λ z. cc z)) in
    rw (short, unmarked, read_until_from)
      (read_until_from-first markers (buf ++ b ∷ []) (c ∷ bytes) rest output (omega (arith, n, len))
          (IsFirst-tail markers buf b c bytes h)
        ∙ ap (λ l. ok l (record { input = rest; output = output }))
            (append_assoc buf (b ∷ []) (c ∷ bytes)))

-- `read_until_markers` reads the bytes that first complete a marker, up to case, if they are 65536 at
-- most, and no byte behind them.
pub read_until_markers-first :
    (markers : List Text) (bytes rest output : List ℕ)
    → length bytes ≤ max_response
    → IsFirst (map to_ascii_lowercase markers) [] bytes
    → read_until_markers markers (record { input = bytes ++ rest; output = output })
      ≡ ok bytes (record { input = rest; output = output })
unfolding read_until_markers
read_until_markers-first markers bytes rest output n h =
    read_until_from-first (map to_ascii_lowercase markers) [] bytes rest output (omega (arith, n)) h
