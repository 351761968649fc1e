-- ===== src/Negotiate/Smtp/Dialogue.antt =====
-- src/cert.rs: the dialogue of `smtp_negotiate` with a peer that sends well-formed replies.
use gentlsa.Prelude.{
  ℕ, ◌≤◌, ◌≡◌, refl, ap, ◌∙◌, Text, codes, false, not, List, [], ◌∷◌, ◌++◌, ltb, ◌==◌,
  if◌then◌else◌, length, append_assoc, All, join, arith, Bool-cases, inl, inr,
}
use gentlsa.Negotiate.{M, ◌>>=◌, ◌>>◌, ok, err, rejected, Stream, crlf, fail_if}
use gentlsa.Negotiate.Smtp.{max_response_lines, smtp_read_response, smtp_command, smtp_negotiate}
use gentlsa.Negotiate.Smtp.Reply.{
  IsStatus, IsReplyText, reply_bytes, kept, smtp_read_response-reply,
}

-- A reply as it stands on the wire: three digits and their value, and a text for each line.
pub record Reply : Type 0 where
  pub digits : Text
  pub code : ℕ
  pub more : List Text
  pub last : Text

pub record IsReply (r : Reply) : Type 0 where
  pub status : IsStatus r.digits r.code
  pub texts : All IsReplyText r.more
  pub last_text : IsReplyText r.last
  pub few : length (kept r.more) ≤ max_response_lines

abbrev pub on_wire : Reply → List ℕ → List ℕ
on_wire r rest = reply_bytes r.digits r.more r.last rest

-- The text of a reply: its lines that are not empty.
abbrev pub reply_text : Reply → Text
reply_text r = join (codes "\n") (kept r.more ++ kept (r.last ∷ []))

read_reply :
    (r : Reply) (rest output : List ℕ)
    → IsReply r
    → smtp_read_response (record { input = on_wire r rest; output = output })
      ≡ ok (r.code, reply_text r) (record { input = rest; output = output })
read_reply r rest output h =
    let few : ltb max_response_lines (length (kept r.more)) ≡ false = ground (arith, h.few) in
    smtp_read_response-reply r.digits r.code h.status r.more r.last rest output h.texts h.last_text
    ∙ rw few refl

command_reply :
    (command : Text) (r : Reply) (rest output : List ℕ)
    → IsReply r
    → smtp_command command (record { input = on_wire r rest; output = output })
      ≡ ok (r.code, reply_text r) (record { input = rest; output = output ++ (command ++ crlf) })
unfolding smtp_command
command_reply command r rest output h = read_reply r rest (output ++ (command ++ crlf)) h

module _ (m : M (ℕ × Text)) (want : ℕ) where
  -- A step of the dialogue: a reply, whose code is tested, and what follows.
  reply_then :
      (f : M (Unit {0})) (s s' : Stream) (code : ℕ) (text : Text)
      → m s ≡ ok (code, text) s'
      → (m >>= λ r. fail_if (not (r.0 == want)) (rejected r.1) >> f) s
        ≡ (if code == want then f s' else err (rejected text))
  reply_then f s s' code text e = elim (Bool-cases (code == want)) [
    | inl c ↦ rw (e, ◌>>=◌, c) refl
    | inr c ↦ rw (e, ◌>>=◌, c) refl
  ]

  reply_last :
      (s s' : Stream) (code : ℕ) (text : Text)
      → m s ≡ ok (code, text) s'
      → (m >>= λ r. fail_if (not (r.0 == want)) (rejected r.1)) s
        ≡ (if code == want then ok tt s' else err (rejected text))
  reply_last s s' code text e = elim (Bool-cases (code == want)) [
    | inl c ↦ rw (e, ◌>>=◌, c) refl
    | inr c ↦ rw (e, ◌>>=◌, c) refl
  ]

-- Against a peer that sends three replies, `smtp_negotiate` succeeds exactly when their codes are
-- 220, 250 and 220, and fails with the text of the first reply that is another. In a success it has
-- written `EHLO` with the name and `STARTTLS`, a line each, and has read the replies and no byte
-- behind them.
pub smtp_negotiate-replies :
    (ehlo : Text) (banner hello start : Reply) (rest : List ℕ)
    → IsReply banner
    → IsReply hello
    → IsReply start
    → smtp_negotiate ehlo
        (record { input = on_wire banner (on_wire hello (on_wire start rest)); output = [] })
      ≡ (if banner.code == 220
          then if hello.code == 250
            then if start.code == 220
              then ok tt (record {
                input = rest;
                output = codes "EHLO " ++ (ehlo ++ (crlf ++ (codes "STARTTLS" ++ crlf)));
              })
              else err (rejected (reply_text start))
            else err (rejected (reply_text hello))
          else err (rejected (reply_text banner)))
unfolding smtp_negotiate
smtp_negotiate-replies ehlo banner hello start rest hb hh hs =
    let out₁ : List ℕ = (codes "EHLO " ++ ehlo) ++ crlf in
    reply_then smtp_read_response 220 _ _ _ banner.code _
      (read_reply banner (on_wire hello (on_wire start rest)) [] hb)
    ∙ ap (λ o. if banner.code == 220 then o else err (rejected (reply_text banner)))
        (reply_then (smtp_command (codes "EHLO " ++ ehlo)) 250 _ _ _ hello.code _
            (command_reply (codes "EHLO " ++ ehlo) hello (on_wire start rest) [] hh)
          ∙ ap (λ o. if hello.code == 250 then o else err (rejected (reply_text hello)))
              (reply_last (smtp_command (codes "STARTTLS")) 220 _ _ start.code _
                  (command_reply (codes "STARTTLS") start rest out₁ hs)
                ∙ ap
                    (λ o.
                      if start.code == 220
                      then ok tt (record { input = rest; output = codes "EHLO " ++ o })
                      else err (rejected (reply_text start)))
                    (append_assoc ehlo crlf (codes "STARTTLS" ++ crlf))))
