-- ===== src/Cli.antt =====
-- src/cli.rs: the list of ports of a command line, and the flags that name a publisher and the
-- parameters of a record.
pub mod Ports
pub mod Tests
use gentlsa.Prelude.{
  ℕ, Text, Bool, true, false, Option, none, some, List, [], ◌∷◌, ◌++◌, ◌==◌, if◌then◌else◌,
  is_empty, any, trim, split, ◌>>=◌,
}
use gentlsa.Prelude.Decimal.{parse_u16}
use gentlsa.Tlsa.{TlsaParams}
use gentlsa.Publish.Kind.{PublisherKind}

-- A port that is in range is added if it is not there yet.
unfoldable pub push_port : List ℕ → ℕ → Option (List ℕ)
push_port ports port =
    if port == 0
    then none
    else if any (λ p. p == port) ports
    then some ports
    else some (ports ++ port ∷ [])

-- One round of the loop.
unfoldable pub add_part : List ℕ → Text → Option (List ℕ)
unfolding push_port
add_part ports part =
    if is_empty (trim part) then some ports else (parse_u16 (trim part) >>= push_port ports)

unfoldable pub add_parts : List ℕ → List Text → Option (List ℕ)
unfolding add_part
add_parts ports [] = some ports
add_parts ports (part ∷ parts) = add_part ports part >>= λ ports'. add_parts ports' parts

-- The list has a port.
unfoldable pub some_ports : List ℕ → Option (List ℕ)
some_ports [] = none
some_ports (p ∷ ports) = some (p ∷ ports)

unfoldable pub from_str : Text → Option (List ℕ)
unfolding add_parts some_ports
from_str s = add_parts [] (split b',' s) >>= some_ports

pub record PublisherFlags : Type 0 where
  pub cloudflare : Bool
  pub nsupdate : Bool
  pub route53 : Bool
  pub google : Bool
  pub azure : Bool

unfoldable pub flags_kind : PublisherFlags → Option PublisherKind
flags_kind f =
    if f.cloudflare
    then some PublisherKind.cloudflare
    else if f.nsupdate
    then some PublisherKind.nsupdate
    else if f.route53
    then some PublisherKind.route53
    else if f.google
    then some PublisherKind.google
    else if f.azure
    then some PublisherKind.azure
    else none

pub record TlsaParamFlags : Type 0 where
  pub usage : ℕ
  pub selector : ℕ
  pub matching : ℕ

unfoldable pub params : TlsaParamFlags → TlsaParams
params f = record { usage = f.usage; selector = f.selector; matching = f.matching }
