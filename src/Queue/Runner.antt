-- ===== src/Queue/Runner.antt =====
-- The claim loop, the timeout and the cancelling of internal/queue/runner.go. What the map `running`
-- holds is the ids of the jobs that have a goroutine; `signalled` those whose CancelFunc was
-- called. The goroutine of a job and the clock are not part of it: `clock n` is the time of a claim
-- with `n` rounds left, and `finish` is a goroutine's end.
pub mod Drain
use openpreflight.Prelude.{
  ℕ, zero, suc, ◌+◌, ◌*◌, ◌%◌, ◌^◌, ◌≡◌, refl, Bool, true, false, not, ◌&&◌, List, [], ◌∷◌, Option,
  none, some, ℤ, pos, negsuc, pos_part, is_positive, ltb, leb, ◌==◌, ◌-◌, if◌then◌else◌, length,
  any, filter, max,
}
use openpreflight.Go.Strings.{Text, codes, str_eq}
use openpreflight.Store.Models.{Job, Settings, RepoBinding, cancelled, in_flight}
use openpreflight.Store.Jobs.{Tables, job, claim_next_job, finish_job, Outcome}
use openpreflight.Store.Bindings.{binding}

pub record Runner : Type 0 where
  pub tables : Tables
  pub running : List Text
  pub signalled : List Text

abbrev pub member : Text → List Text → Bool
member id ids = any (λ i. str_eq i id) ids

-- `Active`.
abbrev pub active : Runner → ℕ
active r = length r.running

abbrev pub limit_of : Settings → ℕ
limit_of s = if is_positive s.max_concurrent_jobs then pos_part s.max_concurrent_jobs else 1

-- The entry of the map that `startJob` makes before the goroutine runs.
abbrev pub start_job : Text → List Job → Runner → Runner
start_job id rows r = record r {
  tables = record { jobs = rows; deliveries = r.tables.deliveries };
  running = (if member id r.running then r.running else id ∷ r.running);
}

claimed_by : Runner → Option (Job × List Job) → Option Runner
claimed_by r none = none
claimed_by r (some (j, rows)) = some (start_job j.id rows r)

-- One round of `drain`: `none` is its return.
unfoldable pub drain_round : Settings → Text → Runner → Option Runner
unfolding claimed_by
drain_round settings now r =
    if leb (limit_of settings) (active r)
    then none
    else claimed_by r (claim_next_job now r.tables.jobs)

abbrev pub unless_done : Runner → Option Runner → (Runner → Runner) → Runner
unless_done r none loop = r
unless_done r (some r') loop = loop r'

-- `drain`, with the settings that every round reads.
unfoldable pub drain : ℕ → (ℕ → Text) → Settings → Runner → Runner
drain zero clock settings r = r
drain (suc n) clock settings r =
    unless_done r (drain_round settings (clock n) r) (λ r'. drain n clock settings r')

-- The end of a job's goroutine.
unfoldable pub finish : Text → Runner → Runner
finish id r = record r { running = filter (λ i. not (str_eq i id)) r.running }

abbrev pub superseded : Outcome
superseded = record {
  status = cancelled;
  conclusion = codes "cancelled";
  steps_json = codes "[]";
  error_text = codes "superseded";
  skip_reason = [];
}

unfoldable pub cancel_queued : Text → Text → Runner → Option Job → Bool × Runner
cancel_queued now id r none = (false, r)
cancel_queued now id r (some j) =
    if in_flight j
    then (
      true,
      record r {
        tables = record {
          jobs = finish_job now id superseded r.tables.jobs;
          deliveries = r.tables.deliveries;
        };
      },
    )
    else (false, r)

-- `CancelJob`.
unfoldable pub cancel_job : Text → Text → Runner → Bool × Runner
unfolding cancel_queued
cancel_job now id r =
    if member id r.running
    then (true, record r { signalled = id ∷ r.signalled })
    else cancel_queued now id r (job id r.tables.jobs)

-- A number of seconds as a `time.Duration`: nanoseconds in a signed 64-bit integer.
unfoldable pub seconds : ℕ → ℤ
seconds n =
    let ns = n * 1000000000 % 2 ^ 64 in if ltb ns (2 ^ 63) then pos ns else negsuc (2 ^ 64 - 1 - ns)

abbrev binding_timeout : Option RepoBinding → ℕ
binding_timeout none = 0
binding_timeout (some b) = pos_part b.timeout_seconds

-- `resolveTimeout`.
unfoldable pub resolve_timeout : Job → Settings → List RepoBinding → ℤ
unfolding seconds
resolve_timeout j settings bindings =
    let bound =
      (if j.binding_id == 0 then 0 else binding_timeout (binding j.binding_id bindings)) in
    if not (bound == 0)
    then seconds bound
    else if is_positive settings.default_timeout_seconds
    then seconds (pos_part settings.default_timeout_seconds)
    else seconds 900
