-- ===== src/Negotiate.antt =====
-- src/cert.rs: the dialogues in front of TLS, over a stream of bytes, and the readers of a line and of
-- a marker. A `String` is its UTF-8 bytes here, since the source counts and cuts bytes. A write is
-- taken to succeed, and the input ends where the peer closes or a read fails.
pub mod Utf8
pub mod Line
pub mod Smtp
pub mod Imap
pub mod Xmpp
pub mod Tests
use gentlsa.Prelude.{
  ◌≡◌, refl, ap, ℕ, Text, codes, Bool, true, false, not, ◌&&◌, ◌||◌, List, [], ◌∷◌, ◌++◌, leb, ltb,
  ◌==◌, ◌-◌, if◌then◌else◌, any, drop, length, map, to_ascii_lowercase, eq_ignore_ascii_case,
  starts_with,
}
use gentlsa.Negotiate.Utf8.{is_utf8}

-- The errors, with the data that the messages show, and a panic of the source. `out_of_fuel` is none
-- of them.
pub data Failure : Type 0 where
  connection_closed line_too_long not_utf8 response_too_long : Failure
  short_response bad_status too_many_lines : Failure
  rejected : Text → Failure
  not_advertised panics out_of_fuel : Failure

pub record Stream : Type 0 where
  pub input : List ℕ
  pub output : List ℕ

pub data Outcome (A : Type 0) : Type 0 where
  ok : A → Stream → Outcome A
  err : Failure → Outcome A

abbrev pub M : Type 0 → Type 0
M A = Stream → Outcome A

infixl 5 ◌>>=◌ ◌>>◌
abbrev pub ◌>>=◌ : {A B : Type 0} → M A → (A → M B) → M B
◌>>=◌ m f s = elim (m s) [ ok a s' ↦ f a s' | err e ↦ err e ]

abbrev pub ◌>>◌ : {A B : Type 0} → M A → M B → M B
m >> k = m >>= λ _. k

abbrev pub return : {A : Type 0} → A → M A
return a s = ok a s

abbrev pub fail : {A : Type 0} → Failure → M A
fail e s = err e

-- `bail!` under a condition.
abbrev pub fail_if : Bool → Failure → M (Unit {0})
fail_if c e s = if c then err e else ok tt s

pub bind-ok :
    {A B : Type 0} (m : M A) (f : A → M B) (s s' : Stream) (a : A)
    → m s ≡ ok a s'
    → (m >>= f) s ≡ f a s'
bind-ok m f s s' a e = ap (λ o. elim o [ ok a' t ↦ f a' t | err x ↦ err x ]) e

pub bind-err :
    {A B : Type 0} (m : M A) (f : A → M B) (s : Stream) (x : Failure)
    → m s ≡ err x
    → (m >>= f) s ≡ err x
bind-err m f s x e = ap (λ o. elim o [ ok a' t ↦ f a' t | err y ↦ err y ]) e

pub fail_if-false : (c : Bool) (x : Failure) (s : Stream) → c ≡ false → fail_if c x s ≡ ok tt s
fail_if-false c x s e = rw e refl

pub fail_if-true : (c : Bool) (x : Failure) (s : Stream) → c ≡ true → fail_if c x s ≡ err x
fail_if-true c x s e = rw e refl

-- `write_all` and `flush`.
abbrev pub write_all : Text → M (Unit {0})
write_all bytes s = ok tt (record s { output = s.output ++ bytes })

abbrev pub crlf : Text
crlf = 13 ∷ 10 ∷ []

unfoldable pub max_line : ℕ
max_line = 8192

unfoldable pub max_response : ℕ
max_response = 65536

-- `String::from_utf8`.
unfoldable pub finish_line : Text → List ℕ → List ℕ → Outcome Text
finish_line line input output =
    if is_utf8 line then ok line (record { input = input; output = output }) else err not_utf8

unfoldable pub line_push : Text → ℕ → Text
line_push line b = if b == 13 then line else line ++ b ∷ []

-- The loop over the bytes, with the line so far.
unfoldable pub read_line_from : Text → List ℕ → List ℕ → Outcome Text
read_line_from line [] output = err connection_closed
read_line_from line (b ∷ input) output = elim (b == 10) [
  | true ↦ finish_line line input output
  | false ↦ elim (ltb max_line (length (line_push line b))) [
    | true ↦ err line_too_long
    | false ↦ read_line_from (line_push line b) input output
  ]
]

unfoldable pub read_crlf_line : M Text
unfolding read_line_from
read_crlf_line s = read_line_from [] s.input s.output

-- The buffer ends with the marker, up to case.
unfoldable pub ends_with_marker : Text → Text → Bool
ends_with_marker buf marker =
    leb (length marker) (length buf)
    && eq_ignore_ascii_case (drop (length buf - length marker) buf) marker

-- The loop of `read_until_markers`; the buffer is returned as its bytes.
unfoldable pub read_until_from : List Text → Text → List ℕ → List ℕ → Outcome Text
unfolding ends_with_marker
read_until_from markers buf [] output = err connection_closed
read_until_from markers buf (b ∷ input) output = elim (ltb max_response (length (buf ++ b ∷ []))) [
  | true ↦ err response_too_long
  | false ↦ elim (any (ends_with_marker (buf ++ b ∷ [])) markers) [
    | true ↦ ok (buf ++ b ∷ []) (record { input = input; output = output })
    | false ↦ read_until_from markers (buf ++ b ∷ []) input output
  ]
]

unfoldable pub read_until_markers : List Text → M Text
unfolding read_until_from
read_until_markers markers s = read_until_from (map to_ascii_lowercase markers) [] s.input s.output

-- POP3: `pop3_negotiate`.
unfoldable pub pop3_negotiate : M (Unit {0})
unfolding read_crlf_line starts_with
pop3_negotiate = do
  greeting ← read_crlf_line
  fail_if (not (starts_with (codes "+OK") greeting)) (rejected greeting)
  write_all (codes "STLS" ++ crlf)
  resp ← read_crlf_line
  fail_if (not (starts_with (codes "+OK") resp)) (rejected resp)
