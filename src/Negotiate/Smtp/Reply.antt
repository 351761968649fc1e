-- ===== src/Negotiate/Smtp/Reply.antt =====
-- src/cert.rs: lemmas on `smtp_read_response` over well-formed replies.
use gentlsa.Prelude.{
  ℕ, zero, suc, ◌+◌, ◌≤◌, ◌<◌, ◌≡◌, refl, sym, ap, ◌∙◌, Text, codes, true, false, not, ◌&&◌, some,
  List, [], ◌∷◌, ◌++◌, ltb, ltb→lt, lt→ltb, if◌then◌else◌, length, length-append, append_assoc,
  append-nil, All, All-append, All-mono, inl, inr, is_empty, filter, starts_with, join, arith,
  Bool-cases,
}
use gentlsa.Prelude.Decimal.{parse_u16}
use gentlsa.Negotiate.{
  ◌>>=◌, too_many_lines, Outcome, ok, err, Stream, crlf, max_line, read_crlf_line,
}
use gentlsa.Negotiate.Line.{IsLine, IsLineByte, read_crlf_line-append}
use gentlsa.Negotiate.Smtp.{
  max_response_lines, at_boundary, parse_status, reply_line, push_message, response_loop,
  smtp_read_response,
}

-- A status of three digits that reads as a number.
abbrev pub IsStatus : Text → ℕ → Type 0
IsStatus digits code =
    (length digits ≡ 3) × All (λ b. (b'0' ≤ b) × (b ≤ b'9')) digits × (parse_u16 digits ≡ some code)

abbrev pub IsReplyText : Text → Type 0
IsReplyText text = All IsLineByte text × (length text + 4 ≤ max_line)

abbrev pub more_line : Text → Text → Text
more_line digits text = digits ++ (codes "-" ++ text)

abbrev pub last_line : Text → Text → Text
last_line digits text = digits ++ (codes " " ++ text)

-- The lines of a reply on the wire: `-` behind the code of each but the last.
abbrev pub reply_bytes : Text → List Text → Text → List ℕ → List ℕ
reply_bytes digits [] last rest = last_line digits last ++ (crlf ++ rest)
reply_bytes digits (text ∷ more) last rest =
    more_line digits text ++ (crlf ++ reply_bytes digits more last rest)

parse_status-ok :
    (digits : Text) (code : ℕ) (s : Stream)
    → parse_u16 digits ≡ some code
    → parse_status digits s ≡ ok code s
unfolding parse_status
parse_status-ok digits code s p = rw (p, parse_status) refl

not_short : (n : ℕ) → ltb (suc (suc (suc (suc n)))) 3 ≡ false
not_short n = ground arith

-- An ASCII text may be cut at its start.
at_boundary-ascii :
    (n : ℕ) (text : Text) → All IsLineByte text → (ltb 4 n && not (at_boundary text)) ≡ false
unfolding at_boundary
at_boundary-ascii n [] h = ground arith
at_boundary-ascii n (b ∷ text) h = ground (arith, h)

at_boundary-sep : (sep : ℕ) (text : Text) → IsLineByte sep → at_boundary (sep ∷ text) ≡ true
unfolding at_boundary
at_boundary-sep sep text h = ground (arith, h)

-- Behind the code stands a separator, an ASCII byte.
reply_line-parts :
    (digits text : Text) (sep code : ℕ) (s : Stream)
    → IsStatus digits code
    → All IsLineByte (sep ∷ text)
    → reply_line (digits ++ sep ∷ text) s ≡ ok (code, starts_with (codes "-") (sep ∷ text), text) s
unfolding reply_line
reply_line-parts (a ∷ b ∷ c ∷ []) text sep code s (n, d, p) (hs, h) =
    rw
      (
        not_short (length text),
        at_boundary-sep sep text hs,
        ◌>>=◌,
        parse_status-ok (a ∷ b ∷ c ∷ []) code s p,
        at_boundary-ascii (length (a ∷ b ∷ c ∷ sep ∷ text)) text h,
      )
      refl
reply_line-parts _ text sep code s (n, d, p) h = absurd (omega (arith, n))

IsLine-reply :
    (digits text : Text) (sep code : ℕ)
    → IsStatus digits code
    → IsLineByte sep
    → IsReplyText text
    → IsLine (digits ++ sep ∷ text)
IsLine-reply digits text sep code (n, d, p) hs (h, m) = (
  All-append IsLineByte digits (sep ∷ text)
      (All-mono (λ b. (b'0' ≤ b) × (b ≤ b'9')) IsLineByte digits
        (λ b r. ((λ e. omega (arith, e, r)), (λ e. omega (arith, e, r)), omega (arith, r))) d)
      (hs, h),
  omega (arith, n, m, length-append digits (sep ∷ text)),
)

-- The texts that are kept.
abbrev pub kept : List Text → List Text
kept texts = filter (λ text. not (is_empty text)) texts

push_message-kept :
    (messages : List Text) (text : Text) → push_message messages text ≡ messages ++ kept (text ∷ [])
unfolding push_message
push_message-kept messages [] = sym (append-nil messages)
push_message-kept messages (b ∷ text) = refl

kept-cons : (text : Text) (more : List Text) → kept (text ∷ []) ++ kept more ≡ kept (text ∷ more)
kept-cons [] more = refl
kept-cons (b ∷ text) more = refl

still_many :
    (messages more : List Text)
    → ltb max_response_lines (length messages) ≡ true
    → ltb max_response_lines (length (messages ++ more)) ≡ true
still_many messages more h =
    let len = length-append messages more in
    lt→ltb max_response_lines (length (messages ++ more))
      (omega (arith, len, ltb→lt max_response_lines (length messages) h))

-- What a reply gives behind the messages so far.
abbrev pub reply_outcome : ℕ → List Text → Text → List ℕ → List ℕ → Outcome (ℕ × Text)
reply_outcome code messages last rest output =
    if ltb max_response_lines (length messages)
    then err too_many_lines
    else ok (code, join (codes "\n") (messages ++ kept (last ∷ [])))
        (record { input = rest; output = output })

module _ (digits : Text) (code : ℕ) (status : IsStatus digits code) where
  read_reply_line :
      (sep : ℕ) (text rest output : List ℕ)
      → IsLineByte sep
      → IsReplyText text
      → read_crlf_line
          (record { input = (digits ++ sep ∷ text) ++ (crlf ++ rest); output = output })
        ≡ ok (digits ++ sep ∷ text) (record { input = rest; output = output })
  read_reply_line sep text rest output hs h =
      read_crlf_line-append (digits ++ sep ∷ text) rest output
        (IsLine-reply digits text sep code status hs h)

  response_loop-last :
      (fuel : ℕ) (messages : List Text) (last rest output : List ℕ)
      → IsReplyText last
      → response_loop
          (suc fuel)
          messages
          (record { input = reply_bytes digits [] last rest; output = output })
        ≡ reply_outcome code messages last rest output
  unfolding response_loop
  response_loop-last fuel messages last rest output h =
      elim (Bool-cases (ltb max_response_lines (length messages))) [
        | inl many ↦ rw (many, ◌>>=◌) refl
        | inr few ↦
            rw
              (
                few,
                ◌>>=◌,
                read_reply_line b' ' last rest output (omega arith) h,
                ◌>>=◌,
                reply_line-parts digits last b' ' code (record { input = rest; output = output })
                    status (omega arith, h.0),
                push_message-kept messages last,
              )
              refl
      ]

  -- The loop over a whole reply, from any messages.
  response_loop-reply :
      (fuel : ℕ) (messages more : List Text) (last rest output : List ℕ)
      → length more < fuel
      → All IsReplyText more
      → IsReplyText last
      → response_loop fuel messages
          (record { input = reply_bytes digits more last rest; output = output })
        ≡ reply_outcome code (messages ++ kept more) last rest output
  unfolding response_loop
  response_loop-reply zero messages more last rest output f h hl = absurd (omega (arith, f))
  response_loop-reply (suc fuel) messages [] last rest output f h hl =
      response_loop-last fuel messages last rest output hl
      ∙ ap (λ m. reply_outcome code m last rest output) (sym (append-nil messages))
  response_loop-reply (suc fuel) messages (text ∷ more) last rest output f (ht, h) hl =
      elim (Bool-cases (ltb max_response_lines (length messages))) [
        | inl many ↦ rw (many, ◌>>=◌) (rw (still_many messages (kept (text ∷ more)) many) refl)
        | inr few ↦
            rw
              (
                few,
                ◌>>=◌,
                read_reply_line b'-' text (reply_bytes digits more last rest) output (omega arith)
                    ht,
                ◌>>=◌,
                reply_line-parts digits text b'-' code
                    (record { input = reply_bytes digits more last rest; output = output }) status
                    (omega arith, ht.0),
              )
              (response_loop-reply fuel (push_message messages text) more last rest output
                  (omega (arith, f)) h hl
                ∙ ap (λ m. reply_outcome code m last rest output)
                    (ap (λ m. m ++ kept more) (push_message-kept messages text)
                      ∙ (append_assoc messages (kept (text ∷ [])) (kept more)
                          ∙ ap (λ k. messages ++ k) (kept-cons text more))))
      ]

  reply_bytes-longer :
      (more : List Text) (last rest : List ℕ)
      → length more ≤ length (reply_bytes digits more last rest)
  reply_bytes-longer [] last rest = omega arith
  reply_bytes-longer (text ∷ more) last rest =
      let tail = reply_bytes digits more last rest in
      omega (
        arith,
        reply_bytes-longer more last rest,
        length-append (more_line digits text) (crlf ++ tail),
      )

  -- A reply of any number of lines is read exactly when at most 256 of its continuation lines hold a
  -- text, and then the code, the texts that are not empty and no byte behind the reply are; else it is
  -- refused as too long. Lines without text, as a bare `250-`, are not counted, however many there are.
  pub smtp_read_response-reply :
      (more : List Text) (last rest output : List ℕ)
      → All IsReplyText more
      → IsReplyText last
      → smtp_read_response (record { input = reply_bytes digits more last rest; output = output })
        ≡ reply_outcome code (kept more) last rest output
  unfolding smtp_read_response
  smtp_read_response-reply more last rest output h hl =
      response_loop-reply (suc (length (reply_bytes digits more last rest))) [] more last rest
        output (omega (arith, reply_bytes-longer more last rest)) h hl
