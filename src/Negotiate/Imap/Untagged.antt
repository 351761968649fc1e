-- ===== src/Negotiate/Imap/Untagged.antt =====
-- src/cert.rs: the dialogue of `imap_negotiate` with a peer that sends lines.
use gentlsa.Prelude.{
  ℕ, zero, suc, ◌≡◌, refl, Text, codes, true, false, none, some, List, [], ◌∷◌, ◌++◌, ltb,
  if◌then◌else◌, length, All, arith, Bool-cases, inl, inr, strip_prefix, starts_with, contains,
}
use gentlsa.Negotiate.{◌>>=◌, Outcome, ok, err, rejected, too_many_lines, crlf}
use gentlsa.Negotiate.Line.{IsLine, read_crlf_line-append}
use gentlsa.Negotiate.Smtp.{max_response_lines}
use gentlsa.Negotiate.Imap.{to_ascii_uppercase, tagged_loop, imap_negotiate}

-- Lines on the wire.
abbrev pub lines_bytes : List Text → List ℕ → List ℕ
lines_bytes [] rest = rest
lines_bytes (line ∷ lines) rest = line ++ (crlf ++ lines_bytes lines rest)

-- A line that is neither the answer to the command nor a farewell.
pub record IsUntagged (line : Text) : Type 0 where
  pub is_line : IsLine line
  pub not_tagged : strip_prefix (codes "A001 ") (to_ascii_uppercase line) ≡ none
  pub not_bye : starts_with (codes "* BYE") (to_ascii_uppercase line) ≡ false

-- The answer to the command, with the text behind its tag.
pub record IsTagged (line answer : Text) : Type 0 where
  pub is_line : IsLine line
  pub tagged : strip_prefix (codes "A001 ") (to_ascii_uppercase line) ≡ some answer

pub record IsGreeting (line : Text) : Type 0 where
  pub is_line : IsLine line
  pub starred : starts_with (codes "* ") line ≡ true
  pub not_bye : contains (codes " BYE") (to_ascii_uppercase line) ≡ false

abbrev pub answered : Text → Text → List ℕ → List ℕ → Outcome (Unit {0})
answered line answer rest output =
    if starts_with (codes "OK") answer
    then ok tt (record { input = rest; output = output })
    else err (rejected line)

tagged_loop-lines :
    (rounds : ℕ) (lines : List Text) (line answer : Text) (rest output : List ℕ)
    → All IsUntagged lines
    → IsTagged line answer
    → tagged_loop rounds
        (record { input = lines_bytes lines (line ++ (crlf ++ rest)); output = output })
      ≡ (if ltb (length lines) rounds then answered line answer rest output else err too_many_lines)
unfolding tagged_loop
tagged_loop-lines zero lines line answer rest output h t =
    let none_left : ltb (length lines) 0 ≡ false = ground arith in rw none_left refl
tagged_loop-lines (suc rounds) [] line answer rest output h t =
    let one_left : ltb 0 (suc rounds) ≡ true = ground arith in
    elim (Bool-cases (starts_with (codes "OK") answer)) [
      | inl yes' ↦
          rw (one_left, read_crlf_line-append line rest output t.is_line, ◌>>=◌, t.tagged, yes')
            refl
      | inr no' ↦
          rw (one_left, read_crlf_line-append line rest output t.is_line, ◌>>=◌, t.tagged, no') refl
    ]
tagged_loop-lines (suc rounds) (l ∷ lines) line answer rest output (hl, h) t =
    let fewer : ltb (suc (length lines)) (suc rounds) ≡ ltb (length lines) rounds = ground arith in
    rw
      (
        fewer,
        read_crlf_line-append l (lines_bytes lines (line ++ (crlf ++ rest))) output hl.is_line,
        ◌>>=◌,
        hl.not_tagged,
        hl.not_bye,
        ◌>>=◌,
      )
      (tagged_loop-lines rounds lines line answer rest output h t)

-- Behind a greeting that is no farewell, `imap_negotiate` sends the command and succeeds exactly when
-- fewer than 256 untagged lines come before the answer to it and the answer is OK. It has then read no
-- byte behind the answer.
pub imap_negotiate-answer :
    (greeting : Text) (lines : List Text) (line answer : Text) (rest : List ℕ)
    → IsGreeting greeting
    → All IsUntagged lines
    → IsTagged line answer
    → imap_negotiate (record {
      input = greeting ++ (crlf ++ lines_bytes lines (line ++ (crlf ++ rest)));
      output = [];
    })
      ≡ (if ltb (length lines) max_response_lines
          then if starts_with (codes "OK") answer
            then ok tt (record { input = rest; output = codes "a001 STARTTLS" ++ crlf })
            else err (rejected line)
          else err too_many_lines)
unfolding imap_negotiate
imap_negotiate-answer greeting lines line answer rest hg h t =
    rw
      (
        read_crlf_line-append greeting (lines_bytes lines (line ++ (crlf ++ rest))) [] hg.is_line,
        ◌>>=◌,
        hg.starred,
        ◌>>=◌,
        hg.not_bye,
        ◌>>=◌,
      )
      (tagged_loop-lines max_response_lines lines line answer rest (codes "a001 STARTTLS" ++ crlf) h
        t)
