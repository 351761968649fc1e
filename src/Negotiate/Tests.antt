-- ===== src/Negotiate/Tests.antt =====
-- Dialogues with a mail server and with an XMPP server.
use gentlsa.Prelude.{
  ℕ, ◌≡◌, ◌≢◌, ◌≤◌, refl, Text, codes, Bool, true, false, Option, none, some, List, [], ◌∷◌, ◌++◌,
  length, All, arith, map,
}
use mathlib.Core.Path.{subst}
use gentlsa.Negotiate.{
  Outcome, ok, err, Stream, crlf, rejected, panics, too_many_lines, out_of_fuel, pop3_negotiate,
  read_until_markers, max_response, max_line,
}
use gentlsa.Negotiate.Smtp.{smtp_read_response, smtp_negotiate}
use gentlsa.Negotiate.Smtp.Dialogue.{Reply, IsReply, on_wire, smtp_negotiate-replies}
use gentlsa.Negotiate.Smtp.Reply.{kept, reply_bytes, reply_outcome, smtp_read_response-reply}
use gentlsa.Negotiate.Imap.{imap_negotiate}
use gentlsa.Negotiate.Imap.Untagged.{
  IsGreeting, IsUntagged, IsTagged, lines_bytes, imap_negotiate-answer,
}
use gentlsa.Negotiate.Xmpp.{stream_open, xmpp_negotiate}
use gentlsa.Negotiate.Xmpp.Markers.{IsFirst, IsMarked, read_until_markers-first}

abbrev banner : Reply
banner = record { digits = codes "220"; code = 220; more = []; last = codes "mail ESMTP" }

abbrev hello : Reply
hello = record {
  digits = codes "250";
  code = 250;
  more = codes "mail" ∷ [] ∷ [];
  last = codes "STARTTLS";
}

abbrev start : Reply
start = record { digits = codes "220"; code = 220; more = []; last = codes "Ready" }

banner-IsReply : IsReply banner
unfolding max_line gentlsa.Prelude.Decimal.parse_uint
banner-IsReply = record {
  status = (refl, omega arith, refl);
  texts = omega arith;
  last_text = omega arith;
  few = omega arith;
}

hello-IsReply : IsReply hello
unfolding max_line gentlsa.Prelude.Decimal.parse_uint
hello-IsReply = record {
  status = (refl, omega arith, refl);
  texts = omega arith;
  last_text = omega arith;
  few = omega arith;
}

start-IsReply : IsReply start
unfolding max_line gentlsa.Prelude.Decimal.parse_uint
start-IsReply = record {
  status = (refl, omega arith, refl);
  texts = omega arith;
  last_text = omega arith;
  few = omega arith;
}

smtp_negotiate-replies_example :
    smtp_negotiate (codes "[::1]") (record {
      input = on_wire banner (on_wire hello (on_wire start (22 ∷ 3 ∷ 1 ∷ [])));
      output = [];
    })
    ≡ ok tt (record {
      input = 22 ∷ 3 ∷ 1 ∷ [];
      output = codes "EHLO " ++ (codes "[::1]" ++ (crlf ++ (codes "STARTTLS" ++ crlf)));
    })
smtp_negotiate-replies_example =
    smtp_negotiate-replies (codes "[::1]") banner hello start (22 ∷ 3 ∷ 1 ∷ []) banner-IsReply
      hello-IsReply start-IsReply

smtp_read_response-reply_example :
    smtp_read_response
      (record { input = reply_bytes hello.digits hello.more hello.last (22 ∷ []); output = [] })
    ≡ reply_outcome hello.code (kept hello.more) hello.last (22 ∷ []) []
smtp_read_response-reply_example =
    smtp_read_response-reply hello.digits hello.code hello-IsReply.status hello.more hello.last
      (22 ∷ []) [] hello-IsReply.texts hello-IsReply.last_text

abbrev untagged : List Text
untagged = codes "* CAPABILITY IMAP4rev1" ∷ []

hello_line-IsGreeting : IsGreeting (codes "* OK ready")
unfolding max_line gentlsa.Prelude.starts_with gentlsa.Prelude.contains gentlsa.Negotiate.Imap.upper
hello_line-IsGreeting = record { is_line = omega arith; starred = refl; not_bye = refl }

untagged-IsUntagged : All IsUntagged untagged
unfolding max_line gentlsa.Prelude.strip_prefix gentlsa.Negotiate.Imap.upper
    gentlsa.Prelude.starts_with
untagged-IsUntagged = (record { is_line = omega arith; not_tagged = refl; not_bye = refl }, tt)

answer-IsTagged : IsTagged (codes "a001 ok begin") (codes "OK BEGIN")
unfolding max_line gentlsa.Prelude.strip_prefix gentlsa.Negotiate.Imap.upper
answer-IsTagged = record { is_line = omega arith; tagged = refl }

imap_negotiate-answer_example :
    imap_negotiate (record {
      input =
          codes "* OK ready"
          ++ (crlf ++ lines_bytes untagged (codes "a001 ok begin" ++ (crlf ++ (22 ∷ []))));
      output = [];
    })
    ≡ ok tt (record { input = 22 ∷ []; output = codes "a001 STARTTLS" ++ crlf })
unfolding gentlsa.Prelude.starts_with
imap_negotiate-answer_example =
    imap_negotiate-answer (codes "* OK ready") untagged (codes "a001 ok begin") (codes "OK BEGIN")
      (22 ∷ []) hello_line-IsGreeting untagged-IsUntagged answer-IsTagged

-- The first `>` of a text ends it.
tag-IsFirst : IsFirst (codes ">" ∷ []) [] (codes "a>")
unfolding gentlsa.Negotiate.ends_with_marker gentlsa.Prelude.lower
tag-IsFirst = record { some_byte = λ e. cc e; marked = refl; earlier = earlier_parts }
  where
    earlier_parts :
        (p q : List ℕ) → codes "a>" ≡ p ++ q → p ≢ [] → q ≢ [] → ¬ IsMarked (codes ">" ∷ []) p
    earlier_parts [] q e np nq m = absurd (np refl)
    earlier_parts (a ∷ []) q e np nq m =
        let same : a ≡ b'a' = cc e in cc (subst (λ x. IsMarked (codes ">" ∷ []) (x ∷ [])) same m)
    earlier_parts (a ∷ b ∷ []) q e np nq m = absurd (nq (cc e))
    earlier_parts (a ∷ b ∷ c ∷ p) q e np nq m = absurd (cc e)

read_until_markers-first_example :
    read_until_markers (codes ">" ∷ []) (record { input = codes "a>" ++ codes "<b>"; output = [] })
    ≡ ok (codes "a>") (record { input = codes "<b>"; output = [] })
unfolding max_response gentlsa.Prelude.lower
read_until_markers-first_example =
    read_until_markers-first (codes ">" ∷ []) (codes "a>") (codes "<b>") [] (omega arith)
      tag-IsFirst

pop3_ok :
    pop3_negotiate
      (record { input = codes "+OK a" ++ (crlf ++ (codes "+OK" ++ crlf)); output = [] })
    ≡ ok tt (record { input = []; output = codes "STLS" ++ crlf })
unfolding pop3_negotiate max_line gentlsa.Negotiate.line_push gentlsa.Negotiate.finish_line
    gentlsa.Negotiate.Utf8.is_utf8
pop3_ok = refl

-- A cut inside a character.
split_reply :
    smtp_read_response (record { input = codes "220" ++ (0xc3 ∷ 0xa9 ∷ crlf); output = [] })
    ≡ err panics
unfolding smtp_read_response gentlsa.Negotiate.read_crlf_line max_line gentlsa.Negotiate.line_push
    gentlsa.Negotiate.finish_line gentlsa.Negotiate.Utf8.is_utf8 gentlsa.Negotiate.Smtp.at_boundary
    gentlsa.Negotiate.Smtp.parse_status gentlsa.Prelude.Decimal.parse_uint
split_reply = refl

xmpp_ok :
    xmpp_negotiate (codes "a") 5222 (record {
      input =
          codes "<stream:features><starttls/></stream:features><proceed xmlns='x'/>" ++ (22 ∷ []);
      output = [];
    })
    ≡ ok tt (record {
      input = 22 ∷ [];
      output =
          stream_open (codes "a") 5222
          ++ codes "<starttls xmlns='urn:ietf:params:xml:ns:xmpp-tls'/>";
    })
unfolding xmpp_negotiate max_response gentlsa.Prelude.lower
xmpp_ok = refl
