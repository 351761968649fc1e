-- ===== src/Tlsa/Starttls.antt =====
-- src/tlsa.rs: how to reach the certificate.
use gentlsa.Prelude.{ℕ, Text, codes, ◌||◌, Option, none, some, ◌==◌, if◌then◌else◌}

-- `None` of the source is `implicit`: implicit TLS.
pub data StarttlsProto : Type 0 where
  smtp imap pop3 xmpp implicit : StarttlsProto

unfoldable pub for_port : ℕ → StarttlsProto
for_port port =
    if port == 25 || port == 587
    then smtp
    else if port == 143
    then imap
    else if port == 110
    then pop3
    else if port == 5222 || port == 5269
    then xmpp
    else implicit

unfoldable pub resolve : ℕ → Option StarttlsProto → StarttlsProto
unfolding for_port
resolve port none = for_port port
resolve port (some requested) = requested

unfoldable pub proto_str : StarttlsProto → Text
proto_str smtp = codes "smtp"
proto_str imap = codes "imap"
proto_str pop3 = codes "pop3"
proto_str xmpp = codes "xmpp"
proto_str implicit = codes "none"

unfoldable pub proto_label : StarttlsProto → Text
proto_label smtp = codes "SMTP STARTTLS"
proto_label imap = codes "IMAP STARTTLS"
proto_label pop3 = codes "POP3 STLS"
proto_label xmpp = codes "XMPP STARTTLS"
proto_label implicit = codes "implicit TLS"

unfoldable pub xmpp_stream_ns : ℕ → Text
xmpp_stream_ns port = if port == 5269 then codes "jabber:server" else codes "jabber:client"
