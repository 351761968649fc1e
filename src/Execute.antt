-- ===== src/Execute.antt =====
-- src/main.rs: a rollover, from the arguments to the last phase. What the program does to the world
-- is a trace of events, the latest first; an answer of the world depends on the trace so far.
pub mod Phases
pub mod Commands
pub mod Order
pub mod Steps
pub mod Waits
pub mod Reloads
pub mod Safety
pub mod Crash
pub mod Reach
pub mod DryRun
pub mod Progress
pub mod Complete
pub mod Schedule
pub mod Tests
use gentlsa.Prelude.{
  ℕ, ◌+◌, ◌*◌, ◌≤◌, Text, Bool, true, false, not, ◌&&◌, Option, none, some, List, [], ◌∷◌,
  eq_ignore_ascii_case, is_empty, ◌>>=◌,
}
use gentlsa.Tlsa.Owner.{connect_host}
use gentlsa.Tlsa.Starttls.{StarttlsProto}
use gentlsa.Cert.{Crypto, Certificate, spki_sha256_hex}
use gentlsa.Publish.Kind.{PublisherKind}
use gentlsa.Rollover.{WaitReason, u32_max, u64_max}
use gentlsa.Rollover.Job.{Job}
use gentlsa.Rollover.Store.{Dir, save_job_in, remove_job_in}

pub record RolloverArgs : Type 0 where
  pub certfile : Text
  pub zone : Text
  pub ports : List ℕ
  pub hostname : Option Text
  pub info : Bool
  pub kind : PublisherKind
  pub reload : Option Text
  pub ttl : ℕ
  pub dryrun : Bool
  pub starttls : Option StarttlsProto

-- `publishes port dryrun`: `publish_cert` gave `Published`; `refuses`: it gave `NotManaged`;
-- `waits reason seconds dryrun`; `live`: the service was seen to present the new certificate;
-- `reloads ran`; `prunes port code`; and the job file was saved or removed.
pub data Event : Type 0 where
  publishes : ℕ → Bool → Event
  refuses : ℕ → Event
  waits : WaitReason → ℕ → Bool → Event
  live : Event
  reloads : Bool → Event
  prunes : ℕ → ℕ → Event
  saves : Job → Event
  removes : Text → Event

abbrev pub Trace : Type 0
Trace = List Event

pub data PublishOutcome : Type 0 where
  published not_managed : PublishOutcome

-- The world: `none` is an error of the source, and the clock is `now_unix`.
pub record Env : Type 0 where
  pub clock : Trace → ℕ
  pub is_json : Bool
  pub print_info : Certificate → Bool
  pub read_cert : Text → Option Certificate
  pub fetch_live : Trace → Text → ℕ → Option StarttlsProto → Text → Option Certificate
  pub publish_cert : Trace → RolloverArgs → ℕ → Option PublishOutcome
  pub run_reload : Trace → Text → Bool
  pub prune : Trace → RolloverArgs → ℕ → Option ℕ
  pub can_save : Trace → Job → Bool
  pub can_remove : Trace → Text → Bool
  pub acquire : Trace → Text → Option Bool

-- The clock of the system does not go back, and a sleep lasts as long as asked for.
pub record IsLawful (env : Env) : Type 0 where
  pub clock_mono : (e : Event) (t : Trace) → env.clock t ≤ env.clock (e ∷ t)
  pub clock_waits :
      (reason : WaitReason) (s : ℕ) (t : Trace)
      → env.clock t + s ≤ env.clock (waits reason s false ∷ t)

-- The job directory that the saves and removals of a trace leave.
unfoldable pub stored : Trace → Dir
unfolding save_job_in remove_job_in
stored [] = []
stored (saves job ∷ t) = save_job_in (stored t) job
stored (removes id ∷ t) = remove_job_in (stored t) id
stored (_ ∷ t) = stored t

module _ (crypto : Crypto) (env : Env) where
  unfoldable pub live_hash : Trace → Text → ℕ → Option Text → Option StarttlsProto → Option Text
  unfolding connect_host spki_sha256_hex
  live_hash t zone port hostname starttls =
      env.fetch_live t (connect_host zone hostname) port starttls zone >>= spki_sha256_hex crypto

  -- One round of the loop: the hash of the port is the file's.
  unfoldable pub serves_hash : Option Text → Text → Bool
  serves_hash none file_hash = false
  serves_hash (some hash) file_hash = eq_ignore_ascii_case hash file_hash

  unfoldable pub all_serve :
      Trace → Text → List ℕ → Option Text → Text → Option StarttlsProto → Bool
  unfolding live_hash serves_hash
  all_serve t zone [] hostname file_hash starttls = true
  all_serve t zone (port ∷ ports) hostname file_hash starttls =
      serves_hash (live_hash t zone port hostname starttls) file_hash
      && all_serve t zone ports hostname file_hash starttls

  unfoldable pub live_matches_file :
      Trace → Text → List ℕ → Option Text → Text → Option StarttlsProto → Bool
  unfolding all_serve
  live_matches_file t zone ports hostname file_hash starttls =
      not (is_empty ports) && all_serve t zone ports hostname file_hash starttls
