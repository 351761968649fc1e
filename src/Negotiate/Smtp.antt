-- ===== src/Negotiate/Smtp.antt =====
-- src/cert.rs: `smtp_read_response`, `smtp_command` and `smtp_negotiate`.
pub mod Reply
pub mod Fuel
pub mod Dialogue
use gentlsa.Prelude.{
  ℕ, zero, suc, Text, codes, Bool, true, false, not, ◌&&◌, Option, none, some, List, [], ◌∷◌, ◌++◌,
  leb, ltb, ◌==◌, if◌then◌else◌, take, drop, length, join, starts_with,
}
use gentlsa.Prelude.Decimal.{parse_u16}
use gentlsa.Negotiate.{
  M, Failure, short_response, bad_status, too_many_lines, rejected, panics, out_of_fuel, Stream,
  Outcome, ok, err, ◌>>=◌, ◌>>◌, return, fail, fail_if, write_all, crlf, read_crlf_line,
}

abbrev pub max_response_lines : ℕ
max_response_lines = 256

-- `is_char_boundary` at an index within the text or at its end: a cut anywhere else panics.
unfoldable pub at_boundary : Text → Bool
at_boundary [] = true
at_boundary (b ∷ bytes) = not (leb 0x80 b && leb b 0xbf)

unfoldable pub parse_status : Text → M ℕ
parse_status digits s = elim (parse_u16 digits) [ none ↦ err bad_status | some code ↦ ok code s ]

-- One line: the code, whether another line follows, and the text behind the code.
unfoldable pub reply_line : Text → M (ℕ × Bool × Text)
unfolding starts_with
reply_line line = do
  fail_if (ltb (length line) 3) short_response
  fail_if (not (at_boundary (drop 3 line))) panics
  code ← parse_status (take 3 line)
  fail_if (ltb 4 (length line) && not (at_boundary (drop 4 line))) panics
  return (code, starts_with (codes "-") (drop 3 line), drop 4 line)

-- A text is kept only if the line is longer than its code and separator.
unfoldable pub push_message : List Text → Text → List Text
push_message messages [] = messages
push_message messages (b ∷ text) = messages ++ (b ∷ text) ∷ []

-- The loop; a round reads at least a byte, so the input bounds the rounds.
unfoldable pub response_loop : ℕ → List Text → M (ℕ × Text)
unfolding reply_line push_message
response_loop zero messages = fail out_of_fuel
response_loop (suc fuel) messages = do
  fail_if (ltb max_response_lines (length messages)) too_many_lines
  line ← read_crlf_line
  (code, continued, text) ← reply_line line
  if continued
      then response_loop fuel (push_message messages text)
      else return (code, join (codes "\n") (push_message messages text))

unfoldable pub smtp_read_response : M (ℕ × Text)
unfolding response_loop
smtp_read_response s = response_loop (suc (length s.input)) [] s

unfoldable pub smtp_command : Text → M (ℕ × Text)
unfolding smtp_read_response
smtp_command command = do write_all (command ++ crlf); smtp_read_response

unfoldable pub smtp_negotiate : Text → M (Unit {0})
smtp_negotiate ehlo = do
  (banner, banner_text) ← smtp_read_response
  fail_if (not (banner == 220)) (rejected banner_text)
  (hello, hello_text) ← smtp_command (codes "EHLO " ++ ehlo)
  fail_if (not (hello == 250)) (rejected hello_text)
  (start, start_text) ← smtp_command (codes "STARTTLS")
  fail_if (not (start == 220)) (rejected start_text)
