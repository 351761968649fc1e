-- ===== src/Lib.antt =====
-- gentlsa prints, publishes, checks and prunes the TLSA records of a host, and rolls them over when
-- a certificate is renewed. This library models the parts of the program that decide: which record a
-- certificate has, which records a zone holds after each command, what `verify` reports, and in
-- which order a rollover publishes, waits, reloads and prunes.
--
-- The parts and the files that model them:
--   Prelude   what the source uses of Rust: text with the methods of `str`, decimal numbers, lists,
--             `i64`
--   Tlsa      src/tlsa.rs: parameters and their names, owner names, targets of MX records, STARTTLS
--   Publish   src/publish.rs: the decision of a publish, the record sets after a publish and a prune,
--             publishers' names, record data as text, the filter of listed names
--   Dns       src/dns.rs: records, the verdict on a record set, the hosts of a zone
--   Cert      src/cert.rs: the data a record commits to, and the match of a record with a chain
--   Report    src/report.rs: listed records, and the outcome, status and exit code of `verify`
--   Verify    src/main.rs, `verify`: one host and port from the lookup to the result
--   Rollover  src/rollover.rs: phases, the job with its timestamps, the job directory and its lock
--   Negotiate  src/cert.rs: the STARTTLS dialogues over the bytes of a connection
--   Cloudflare  src/cloudflare.rs: the publish and the prune of one publisher over its HTTP API
--   Google    src/google.rs: the record sets of Cloud DNS, the listing, the publish and the prune
--   Azure     src/azure.rs: the same for Azure DNS
--   Nsupdate  src/nsupdate.rs: the same by queries and dynamic updates of a primary
--   Route53   src/route53.rs: the same for Route 53 with its XML (Route53/Xml), and the date of a
--             signature (Route53/Time)
--   Targets   src/main.rs: the hosts a command works on, the guards of a publish
--   Cli       src/cli.rs: the list of ports and the flags of a command line
--   Timeout   src/timeout.rs: the budget of a network operation
--   Commands  src/main.rs: `publish_cert`, `generate` and `prune`, and the runs of `generate`, `prune`,
--             `verify` and `file` over hosts and ports
--   Execute   src/main.rs, `execute_rollover`, `rollover_cmd`, `schedule_cmd` and `resume_cmd`
--
-- `verify` asks Dns for records and Cert for matches and folds the answers with Report. A rollover
-- keeps a Rollover job on disk, and calls the publish and the prune of a publisher for each port;
-- what these do to a record set is Publish. Cloudflare, Google, Azure, Route53 and Nsupdate do it to
-- the records of a zone on a server. Publish/Paging is the loop over the pages of a listing, and
-- Publish/Printed says which records survive being printed and read back.
--
-- Text is the list of its Unicode scalar values; where the source counts bytes, so does the model
-- (Publish/Names). Numbers are natural numbers: the ranges of `u8`, `u16` and `u32` are hypotheses
-- where they matter, a sum of `u64` timestamps is taken modulo 2 ^ 64, and `saturating_mul` is
-- written out. An error of the source is `none`, or the flag `failed` of a run. The loops are
-- structural recursion, over a list of ports, phases, records or jobs, or over the three attempts of
-- the lock. Fuel is used in the printing of decimal numbers, where a number is its own bound; in the
-- loops over the lines of a peer, where the bytes that it sent bound the rounds
-- (Negotiate/Smtp/Fuel); in the scans of XML, where the text does; and in the loop over pages, where
-- the number of pages is a hypothesis, since a server may answer without end.
--
-- Outside of the source, and so an argument: the X.509 parser, the digests and the hexadecimal
-- encoder (`Crypto` of Cert), the resolver, the connection and the printer (`Network` of
-- Verify), the server of a zone (`Api` of Cloudflare, Google, Azure and Route53, `Client` of
-- Nsupdate), and the clock, the publishers, the reload command and the file system (`Env` of
-- Execute). Of `Env` the laws used are those of `IsLawful`: the clock does not go back, and a
-- sleep lasts as long as asked for. The publishers that Commands works with are `Publishers`;
-- what a run of `generate` needs of one is `Serves` of Commands, and Commands/AtGoogle proves it
-- of Google's client, from what Cloud DNS documents (`ServesZones`) and with hashes in
-- hexadecimal. Of an `Api` or a `Client` they are those of its `Serves`: what is documented of a
-- listing, a query and a change, and that it answers. At Route 53 these are of the XML of a page
-- (Route53/Response) and of a request (Route53/Request); Route53/Scan, Route53/Reading and Route53/NextPage prove
-- how the source reads the one, and Route53/Request what it writes. At Cloudflare a listing is
-- its first page. A connection is the bytes that the peer will have sent and those written to
-- it; an error of it is an `Outcome`. What a rollover does is a trace of events, the latest
-- first, on which the answers of the world depend; the job directory is what the saves and
-- removals of the trace leave.
--
-- Not modelled: credentials, signatures and HTTP clients, the command `list` and those that show the
-- zones of a publisher (src/main.rs), TLS and X.509 (src/cert.rs), the rest of the command line
-- (src/cli.rs); and, since they are input and output, the JSON reports, printed lines, and systemd.
pub mod Prelude
pub mod Tlsa
pub mod Publish
pub mod Dns
pub mod Cert
pub mod Report
pub mod Verify
pub mod Rollover
pub mod Execute
pub mod Cloudflare
pub mod Cli
pub mod Targets
pub mod Timeout
pub mod Negotiate
pub mod Google
pub mod Route53
pub mod Commands
pub mod Azure
pub mod Nsupdate
