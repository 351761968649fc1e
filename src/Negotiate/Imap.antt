-- ===== src/Negotiate/Imap.antt =====
-- src/cert.rs: `imap_negotiate`.
pub mod Untagged
use gentlsa.Prelude.{
  ℕ, zero, suc, ◌-◌, Text, codes, Bool, true, false, not, ◌&&◌, Option, none, some, List, [], ◌∷◌,
  ◌++◌, leb, if◌then◌else◌, map, starts_with, strip_prefix, contains,
}
use gentlsa.Negotiate.{
  M, too_many_lines, rejected, Stream, ok, err, ◌>>=◌, ◌>>◌, return, fail, fail_if, write_all, crlf,
  read_crlf_line,
}
use gentlsa.Negotiate.Smtp.{max_response_lines}

-- `to_ascii_uppercase`.
unfoldable pub upper : ℕ → ℕ
upper c = if leb b'a' c && leb c b'z' then c - 32 else c

abbrev pub to_ascii_uppercase : Text → Text
to_ascii_uppercase s = map upper s

-- The loop over the lines, with the number that may still be read.
unfoldable pub tagged_loop : ℕ → M (Unit {0})
tagged_loop zero = fail too_many_lines
tagged_loop (suc rounds) = do
  line ← read_crlf_line
  elim (strip_prefix (codes "A001 ") (to_ascii_uppercase line)) [
    | some rest ↦ fail_if (not (starts_with (codes "OK") rest)) (rejected line)
    | none ↦ do
      fail_if (starts_with (codes "* BYE") (to_ascii_uppercase line)) (rejected line)
      tagged_loop rounds
  ]

unfoldable pub imap_negotiate : M (Unit {0})
imap_negotiate = do
  greeting ← read_crlf_line
  fail_if (not (starts_with (codes "* ") greeting)) (rejected greeting)
  fail_if (contains (codes " BYE") (to_ascii_uppercase greeting)) (rejected greeting)
  write_all (codes "a001 STARTTLS" ++ crlf)
  tagged_loop max_response_lines
