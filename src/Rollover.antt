-- ===== src/Rollover.antt =====
-- src/rollover.rs: the phases of a rollover, its waits and its messages. Seconds are a `u64`, a TTL
-- is a `u32`.
pub mod Job
pub mod Store
pub mod Lock
pub mod JobLaws
pub mod StoreLaws
pub mod Resume
pub mod LockLaws
pub mod Tests
use gentlsa.Prelude.{
  ℕ, ◌-◌, ◌*◌, Text, codes, Bool, true, false, Option, none, some, List, [], ◌∷◌, ◌++◌, leb,
  if◌then◌else◌, map, join, min,
}
use gentlsa.Prelude.Decimal.{to_string}
use gentlsa.Tlsa.Owner.{nonempty}
use gentlsa.Tlsa.Starttls.{StarttlsProto, proto_str}
use gentlsa.Publish.Kind.{PublisherKind, cloudflare, flag}

unfoldable pub default_ttl : PublisherKind → ℕ
default_ttl cloudflare = 300
default_ttl _ = 3600

abbrev pub u32_max : ℕ
u32_max = 4294967295

abbrev pub u64_max : ℕ
u64_max = 18446744073709551615

-- `saturating_mul` of `u64`.
unfoldable pub saturating_mul : ℕ → ℕ → ℕ
saturating_mul a b = min (a * b) u64_max

abbrev pub wait_ttl_multiplier : ℕ
wait_ttl_multiplier = 2

unfoldable pub wait_seconds : ℕ → ℕ
unfolding saturating_mul
wait_seconds ttl = saturating_mul ttl wait_ttl_multiplier

pub data WaitReason : Type 0 where
  before_reload before_prune : WaitReason

unfoldable pub reason_str : WaitReason → Text
reason_str before_reload = codes "before reload"
reason_str before_prune = codes "before prune"

pub data Phase : Type 0 where
  publish : Phase
  wait : WaitReason → Phase
  reload : Phase
  prune : Phase

unfoldable pub phases : Bool → List Phase
phases true = publish ∷ wait before_reload ∷ reload ∷ wait before_prune ∷ prune ∷ []
phases false = publish ∷ []

-- The parts ` --hostname …` and ` --starttls …` of the command.
unfoldable pub host_option : Option Text → Text
host_option none = []
host_option (some host) = codes " --hostname " ++ host

unfoldable pub proto_option : Option StarttlsProto → Text
unfolding proto_str
proto_option none = []
proto_option (some proto) = codes " --starttls " ++ proto_str proto

unfoldable pub next_steps :
    Text → List ℕ → Option Text → PublisherKind → ℕ → Option StarttlsProto → Text
unfolding nonempty flag host_option proto_option wait_seconds
next_steps zone ports hostname kind ttl starttls =
    let list = join (codes ",") (map to_string ports) in
    let options = host_option (nonempty hostname) ++ proto_option starttls in
    let wait' = to_string (wait_seconds ttl) in
    codes ">>> Next: wait "
    ++ (wait'
        ++ (codes
              "s (2× TLSA TTL), reload the service so it presents the new certificate, wait another "
            ++ (wait'
                ++ (codes "s, then:\n    gentlsa prune "
                    ++ (zone ++ (codes " " ++ (list ++ (codes " " ++ (flag kind ++ options)))))))))

unfoldable pub wait_banner : ℕ → WaitReason → Bool → Text
unfolding reason_str
wait_banner ttl reason true =
    codes ">>> dry run: would wait "
    ++ (to_string ttl ++ (codes "s for TLSA TTL " ++ reason_str reason))
wait_banner ttl reason false =
    codes ">>> Wait " ++ (to_string ttl ++ (codes "s for TLSA TTL " ++ reason_str reason))

unfoldable pub reload_banner : Text → Bool → Text
reload_banner command true = codes ">>> dry run: would run: " ++ command
reload_banner command false = codes ">>> Reload: " ++ command

-- `deadline.unwrap_or(now).saturating_sub(now)`: subtraction on the natural numbers stops at 0 too.
unfoldable pub remaining : Option ℕ → ℕ → ℕ
remaining none now = now - now
remaining (some deadline) now = deadline - now

pub data JobPhase : Type 0 where
  publishing waiting_reload reloading waiting_prune pruning : JobPhase

unfoldable pub phase_str : JobPhase → Text
phase_str publishing = codes "publish"
phase_str waiting_reload = codes "wait_before_reload"
phase_str reloading = codes "reload"
phase_str waiting_prune = codes "wait_before_prune"
phase_str pruning = codes "prune"

unfoldable pub start_index : JobPhase → ℕ
start_index publishing = 0
start_index waiting_reload = 1
start_index reloading = 2
start_index waiting_prune = 3
start_index pruning = 4
