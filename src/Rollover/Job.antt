-- ===== src/Rollover/Job.antt =====
-- src/rollover.rs: the job that a rollover with a reload keeps on disk, and its id. Timestamps are
-- a `u64`, so a sum of the source is taken `% 2 ^ 64`.
use gentlsa.Prelude.{
  ℕ, ◌+◌, ◌%◌, ◌^◌, max, Text, codes, Bool, not, ◌&&◌, ◌||◌, Option, none, some, List, ◌++◌, ◌==◌,
  ltb, if◌then◌else◌, map, all, join, is_empty, contains, trim_dots, is_ascii_alphanumeric,
}
use gentlsa.Prelude.Decimal.{to_string}
use gentlsa.Tlsa.Owner.{nonempty}
use gentlsa.Tlsa.Starttls.{StarttlsProto}
use gentlsa.Publish.Kind.{PublisherKind, kind_name, from_name}
use gentlsa.Publish.Names.{byte_len}
use gentlsa.Rollover.{
  JobPhase, publishing, waiting_reload, reloading, waiting_prune, pruning, saturating_mul,
  wait_seconds,
}

pub record Job : Type 0 where
  pub version : ℕ
  pub id : Text
  pub certfile : Text
  pub zone : Text
  pub ports : List ℕ
  pub hostname : Option Text
  pub starttls : Option StarttlsProto
  pub publisher : Text
  pub reload : Option Text
  pub ttl : ℕ
  pub certificate : Text
  pub phase : JobPhase
  pub published_at : Option ℕ
  pub reload_after : Option ℕ
  pub reloaded_at : Option ℕ
  pub prune_after : Option ℕ

abbrev pub job_version : ℕ
job_version = 1

-- The characters that `job_id` keeps.
unfoldable pub is_safe : ℕ → Bool
unfolding is_ascii_alphanumeric
is_safe c = is_ascii_alphanumeric c || c == b'.' || c == b'-'

unfoldable pub safe_char : ℕ → ℕ
unfolding is_safe
safe_char c = if is_safe c then c else b'_'

unfoldable pub base_name : Text → Option Text → Text
base_name zone none = zone
base_name zone (some host) = host ++ (codes "." ++ zone)

unfoldable pub job_id : Text → Option Text → List ℕ → Text
unfolding base_name nonempty safe_char
job_id zone hostname ports =
    map safe_char (base_name (trim_dots zone) (nonempty hostname))
    ++ (codes "_" ++ join (codes "-") (map to_string ports))

-- The characters of a valid id.
unfoldable pub is_id_char : ℕ → Bool
unfolding is_ascii_alphanumeric
is_id_char c = is_ascii_alphanumeric c || c == b'.' || c == b'-' || c == b'_'

unfoldable pub valid_job_id : Text → Bool
unfolding contains byte_len is_id_char
valid_job_id id =
    not (is_empty id)
    && (ltb (byte_len id) 200 && (not (contains (codes "..") id) && all is_id_char id))

unfoldable pub new_job :
    Text
    → Text
    → List ℕ
    → Option Text
    → PublisherKind
    → Option Text
    → ℕ
    → Text
    → Option StarttlsProto
    → Job
unfolding nonempty job_id kind_name
new_job certfile zone ports hostname kind reload ttl certificate starttls = record {
  version = job_version;
  id = job_id zone (nonempty hostname) ports;
  certfile = certfile;
  zone = zone;
  ports = ports;
  hostname = nonempty hostname;
  starttls = starttls;
  publisher = kind_name kind;
  reload = reload;
  ttl = ttl;
  certificate = certificate;
  phase = publishing;
  published_at = none;
  reload_after = none;
  reloaded_at = none;
  prune_after = none;
}

-- `none` where the source fails with `unknown publisher`.
unfoldable pub job_kind : Job → Option PublisherKind
unfolding from_name
job_kind job = from_name job.publisher

-- The sum of two `u64`.
unfoldable pub add_u64 : ℕ → ℕ → ℕ
add_u64 a b = (a + b) % 2 ^ 64

unfoldable pub phase_behind_publish : Option Text → JobPhase
phase_behind_publish none = pruning
phase_behind_publish (some _) = waiting_reload

unfoldable pub mark_published : Job → ℕ → Job
unfolding wait_seconds saturating_mul add_u64 phase_behind_publish
mark_published job now = record job {
  published_at = some now;
  reload_after = some (add_u64 now (wait_seconds job.ttl));
  prune_after = some (add_u64 now (saturating_mul (wait_seconds job.ttl) 2));
  phase = phase_behind_publish job.reload;
}

-- `self.prune_after.unwrap_or(prune_at).max(prune_at)`.
unfoldable pub later : Option ℕ → ℕ → ℕ
later none prune_at = max prune_at prune_at
later (some set) prune_at = max set prune_at

unfoldable pub mark_reloaded : Job → ℕ → Job
unfolding wait_seconds add_u64 later
mark_reloaded job now = record job {
  reloaded_at = some now;
  prune_after = some (later job.prune_after (add_u64 now (wait_seconds job.ttl)));
  phase = waiting_prune;
}

unfoldable pub mark_already_live : Job → ℕ → Job
unfolding mark_reloaded
mark_already_live job now = mark_reloaded job now

unfoldable pub mark_waiting_reload : Job → Job
mark_waiting_reload job = record job { phase = reloading }

unfoldable pub mark_ready_to_prune : Job → Job
mark_ready_to_prune job = record job { phase = pruning }

unfoldable pub unit_name : Job → Text
unit_name job = codes "gentlsa-rollover@" ++ (job.id ++ codes ".service")
