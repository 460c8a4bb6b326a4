-- ===== src/Api/Jobs.antt =====
-- internal/api/jobs.go: the query of the jobs' list, who may read a log, and the handlers that run a job again and cancel
-- one. Notify wakes the claim loop, which is not part of this.
pub mod Rerun
use openpreflight.Prelude.{
  ℕ, Bool, true, false, not, ◌&&◌, ◌||◌, List, [], ◌∷◌, Option, none, some, ℤ, pos, negsuc,
  pos_part, is_positive, ◌==◌, ltb, if◌then◌else◌,
}
use openpreflight.Go.Strings.{Text, codes, trim_space}
use openpreflight.Go.Decimal.{atoi}
use openpreflight.Store.Models.{Job, RepoBinding}
use openpreflight.Store.Jobs.{
  Tables, JobInput, JobList, StoreResult, done, failed, StoreError, job, enqueue_job, list_jobs,
}
use openpreflight.Store.Bindings.{enabled_binding}
use openpreflight.Queue.Runner.{Runner, cancel_job}
use openpreflight.Api.Session.{Caller}

abbrev positive_or : ℤ → Option ℤ → ℤ
positive_or def none = def
positive_or def (some n) = if is_positive n then n else def

-- `atoiDefault`.
unfoldable pub atoi_default : Text → ℤ → ℤ
atoi_default v def = positive_or def (atoi v)

abbrev not_negative : Option ℤ → ℤ
not_negative none = pos 0
not_negative (some n) = pos (pos_part n)

-- `atoiOffset`.
unfoldable pub atoi_offset : Text → ℤ
atoi_offset v = not_negative (atoi v)

-- `parseJobList`, of the four values of the query.
unfoldable pub parse_job_list : Text → Text → Text → Text → JobList
unfolding atoi_default atoi_offset
parse_job_list repo status limit offset = record {
  repo = trim_space repo;
  status = trim_space status;
  limit = atoi_default limit (pos 100);
  offset = atoi_offset offset;
}

pub data Loaded : Type 0 where
  loaded : List Job → JobList → Loaded
  load_failed : StoreError → Loaded

abbrev loaded_with : JobList → StoreResult (List Job) → Loaded
loaded_with f (failed e) = load_failed e
loaded_with f (done js) = loaded js (record f {
  limit = (if not (is_positive f.limit) || ltb 500 (pos_part f.limit) then pos 100 else f.limit);
  offset = pos (pos_part f.offset);
})

-- `loadJobs`: the rows, and the page that was used.
unfoldable pub load_jobs : JobList → List Job → Loaded
load_jobs f js = loaded_with f (list_jobs f js)

pub data LogAccess : Type 0 where
  log_not_found log_unauthorized log_to_login : LogAccess
  log_of : Job → LogAccess

abbrev access : Bool → Caller → Job → LogAccess
access json_surface (some c) j = log_of j
access json_surface none j =
    if j.shareable_logs then log_of j else if json_surface then log_unauthorized else log_to_login

-- `jobLogAccess`, of who calls.
unfoldable pub job_log_access : Bool → Caller → Text → List Job → LogAccess
job_log_access json_surface caller id js = elim (job id js) [
  | none ↦ log_not_found
  | some j ↦ access json_surface caller j
]

pub data RerunAnswer : Type 0 where
  job_not_found no_installation no_enabled_binding store_error : RerunAnswer
  accepted : Job → RerunAnswer

abbrev pub rerun_input : Job → RepoBinding → JobInput
rerun_input old b = record {
  binding_id = b.id;
  github_app_id = old.github_app_id;
  repo = old.repo;
  sha = old.sha;
  base_sha = old.base_sha;
  ref = old.ref;
  event = codes "manual.rerun";
  delivery_id = [];
  installation_id = old.installation_id;
  check_suite_id = 0;
  check_name = b.check_name;
  shareable_logs = b.shareable_logs;
  is_fork = false;
  pull_number = 0;
  skip_reason = [];
}

rerun_stored : Tables → StoreResult (Job × Tables) → RerunAnswer × Tables
rerun_stored t (failed e) = (store_error, t)
rerun_stored t (done (j, t')) = (accepted j, t')

rerun_bound : Text → Text → Tables → Job → Option RepoBinding → RerunAnswer × Tables
rerun_bound id now t old none = (no_enabled_binding, t)
rerun_bound id now t old (some b) = rerun_stored t (enqueue_job id now (rerun_input old b) t)

rerun_found : Text → Text → List RepoBinding → Tables → Option Job → RerunAnswer × Tables
rerun_found id now bindings t none = (job_not_found, t)
rerun_found id now bindings t (some old) =
    if old.installation_id == 0
    then (no_installation, t)
    else rerun_bound id now t old (enabled_binding old.github_app_id old.repo bindings)

-- `rerunJob`, with the new job's id and the time.
unfoldable pub rerun_job : Text → Text → List RepoBinding → Text → Tables → RerunAnswer × Tables
unfolding rerun_found rerun_bound rerun_stored
rerun_job id now bindings of t = rerun_found id now bindings t (job of t.jobs)

pub data CancelAnswer : Type 0 where
  unknown_job not_running cancelling : CancelAnswer

abbrev cancel_answer : Bool × Runner → CancelAnswer × Runner
cancel_answer (true, r) = (cancelling, r)
cancel_answer (false, r) = (not_running, r)

-- `cancelJob`.
unfoldable pub cancel_request : Text → Text → Runner → CancelAnswer × Runner
cancel_request now id r = elim (job id r.tables.jobs) [
  | none ↦ (unknown_job, r)
  | some j ↦ cancel_answer (cancel_job now id r)
]
