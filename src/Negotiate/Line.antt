-- ===== src/Negotiate/Line.antt =====
-- src/cert.rs: lemmas on `read_crlf_line`.
use gentlsa.Prelude.{
  ℕ, suc, ◌+◌, ◌≤◌, ◌<◌, ◌≡◌, ◌≢◌, inl, inr, refl, ap, ◌∙◌, Text, true, false, List, [], ◌∷◌, ◌++◌,
  ltb, ◌==◌, length, length-append, append_assoc, append-nil, All, All-mono, arith, Bool-cases,
}
use gentlsa.Negotiate.Utf8.{is_utf8, is_utf8_of_ascii}
use gentlsa.Negotiate.{
  ok, err, Stream, finish_line, line_push, read_line_from, read_crlf_line, crlf, max_line,
  out_of_fuel,
}

-- A byte of a line: no end of line, and ASCII.
abbrev pub IsLineByte : ℕ → Type 0
IsLineByte b = (b ≢ 10) × (b ≢ 13) × (b < 0x80)

line_push-byte : (acc : Text) (b : ℕ) → IsLineByte b → line_push acc b ≡ acc ++ b ∷ []
unfolding line_push
line_push-byte acc b h = ground arith

line_push-cr : (acc : Text) → line_push acc 13 ≡ acc
unfolding line_push
line_push-cr acc = refl

read_line_from-append :
    (line acc rest output : List ℕ)
    → All IsLineByte line
    → length acc + length line ≤ max_line
    → read_line_from acc (line ++ (crlf ++ rest)) output ≡ finish_line (acc ++ line) rest output
unfolding read_line_from
read_line_from-append [] acc rest output h n =
    let short : ltb max_line (length acc) ≡ false = ground (arith) in
    rw (line_push-cr acc, short, read_line_from, line_push-cr acc, append-nil) refl
read_line_from-append (b ∷ line) acc rest output ((h₁, h₂, h₃), h) n =
    let push = line_push-byte acc b (h₁, h₂, h₃) in
    let nl : (b == 10) ≡ false = ground arith in
    let len = length-append acc (b ∷ []) in
    let short : ltb max_line (length (acc ++ b ∷ [])) ≡ false = ground (arith, len) in
    rw (nl, push, short, read_line_from, push)
      (read_line_from-append line (acc ++ b ∷ []) rest output h (omega (arith, len))
        ∙ ap (λ l. finish_line l rest output) (append_assoc acc (b ∷ []) line))

-- A line that the reader takes: no end of line inside, ASCII, and short enough.
abbrev pub IsLine : Text → Type 0
IsLine line = All IsLineByte line × (length line ≤ max_line)

IsLine-utf8 : (line : Text) → All IsLineByte line → is_utf8 line ≡ true
IsLine-utf8 line h = is_utf8_of_ascii line (All-mono IsLineByte (λ b. b < 0x80) line (λ b t. t.2) h)

pub read_crlf_line-append :
    (line rest output : List ℕ)
    → IsLine line
    → read_crlf_line (record { input = line ++ (crlf ++ rest); output = output })
      ≡ ok line (record { input = rest; output = output })
unfolding read_crlf_line finish_line
read_crlf_line-append line rest output (h, n) =
    read_line_from-append line [] rest output h (omega (arith, n)) ∙ rw (IsLine-utf8 line h) refl

finish_line-stream :
    (acc input output : List ℕ) (line : Text) (s : Stream)
    → finish_line acc input output ≡ ok line s
    → (length s.input < suc (length input)) × (s.output ≡ output)
unfolding finish_line
finish_line-stream acc input output line s e = ground (arith, e)

read_line_from-shorter :
    (acc input output : List ℕ) (line : Text) (s : Stream)
    → read_line_from acc input output ≡ ok line s
    → (length s.input < length input) × (s.output ≡ output)
unfolding read_line_from
read_line_from-shorter acc [] output line s e = ground (arith, e)
read_line_from-shorter acc (b ∷ input) output line s e = elim (Bool-cases (b == 10)) [
  | inl nl ↦ finish_line-stream acc input output line s (rw (nl, read_line_from) at e)
  | inr other ↦ elim (Bool-cases (ltb max_line (length (line_push acc b)))) [
    | inl long ↦ absurd (cc (rw (other, long, read_line_from) at e))
    | inr short ↦
        let rest =
          read_line_from-shorter (line_push acc b) input output line s
            (rw (other, short, read_line_from) at e) in
        (omega (arith, rest.0), rest.1)
  ]
]

-- A line takes a byte at least, and nothing is written.
pub read_crlf_line-shorter :
    (s s' : Stream) (line : Text)
    → read_crlf_line s ≡ ok line s'
    → (length s'.input < length s.input) × (s'.output ≡ s.output)
unfolding read_crlf_line
read_crlf_line-shorter s s' line e = read_line_from-shorter [] s.input s.output line s' e

finish_line-fueled : (acc input output : List ℕ) → finish_line acc input output ≢ err out_of_fuel
unfolding finish_line
finish_line-fueled acc input output e = ground (arith, e)

read_line_from-fueled :
    (acc input output : List ℕ) → read_line_from acc input output ≢ err out_of_fuel
unfolding read_line_from
read_line_from-fueled acc [] output e = ground (arith, e)
read_line_from-fueled acc (b ∷ input) output e = elim (Bool-cases (b == 10)) [
  | inl nl ↦ finish_line-fueled acc input output (rw (nl, read_line_from) at e)
  | inr other ↦ elim (Bool-cases (ltb max_line (length (line_push acc b)))) [
    | inl long ↦ cc (rw (other, long, read_line_from) at e)
    | inr short ↦
        read_line_from-fueled (line_push acc b) input output
          (rw (other, short, read_line_from) at e)
  ]
]

pub read_crlf_line-fueled : (s : Stream) → read_crlf_line s ≢ err out_of_fuel
unfolding read_crlf_line
read_crlf_line-fueled s = read_line_from-fueled [] s.input s.output
