-- ===== src/Tests/Runs.antt =====
-- Jobs run by internal/queue.
use openpreflight.Prelude.{
  ℕ, ◌≤◌, ◌≡◌, refl, true, false, List, [], ◌∷◌, Option, none, some, pos, arith, max, ◌==◌,
  if◌then◌else◌,
}
use openpreflight.Go.Strings.{Text, codes, str_eq}
use openpreflight.Pipeline.Types.{Step}
use openpreflight.Store.Models.{Job, in_progress}
use openpreflight.Store.Jobs.{Tables}
use openpreflight.Queue.Runner.{Runner, active, limit_of, drain}
use openpreflight.Queue.Runner.Drain.{Settled, drain_bound, drain-Settled}
use openpreflight.Queue.Files.{CommitFiles, changed_paths}
use openpreflight.Queue.Steps.{Result, CtxErr, canceled}
use openpreflight.Queue.Steps.Report.{Agrees}
use openpreflight.Queue.Job.{
  World, Attempt, got, refused, proceed, open_job, open_check_run, run_job, sent,
}
use openpreflight.Queue.Job.Endings.{run_job-Agrees, run_job-unsent}
use openpreflight.Tests.Jobs.{row, rows, rows-UniqueIds}
use openpreflight.Tests.Plans.{ext}
use openpreflight.Tests.Deliveries.{settings}

abbrev idle : Runner
idle = record { tables = record { jobs = rows; deliveries = [] }; running = []; signalled = [] }

abbrev clock : ℕ → Text
clock n = codes "2026-01-05"

drain-Settled_example : Settled settings (drain 3 clock settings idle)
drain-Settled_example = drain-Settled 3 clock settings idle rows-UniqueIds (omega arith)

drain_bound_example : active (drain 3 clock settings idle) ≤ max (limit_of settings) (active idle)
drain_bound_example = drain_bound 3 clock settings idle

both_run : (drain 3 clock settings idle).running ≡ codes "r2" ∷ codes "r3" ∷ []
unfolding drain openpreflight.Queue.Runner.drain_round openpreflight.Store.Jobs.claim_next_job
    openpreflight.Store.Jobs.oldest openpreflight.Store.Jobs.text_ltb
    openpreflight.Store.Jobs.update_job str_eq
both_run = refl

abbrev files : CommitFiles
files = record {
  files =
      record { filename = codes "/a.go"; previous_filename = codes "b.go" }
      ∷ record { filename = codes "b.go"; previous_filename = [] }
      ∷ [];
  truncated = false;
}

changed_paths_test : changed_paths files ≡ codes "a.go" ∷ codes "b.go" ∷ []
unfolding changed_paths str_eq
changed_paths_test = refl

-- A runner whose steps pass, except that `false` exits with 1.
abbrev run : ℕ → Step → Result
run i s = record {
  name = s.name;
  command = s.command;
  is_skipped = false;
  exit_code = (if str_eq s.command (codes "false") then pos 1 else pos 0);
  duration = 2000000000;
  err = [];
  timed_out = false;
}

abbrev fits : ℕ → Option Text
fits i = if i == 7 then some (codes "over max_workspace_bytes") else none

abbrev steps : List Step
steps =
    record { name = codes "install"; command = codes "make deps" }
    ∷ record { name = codes "test"; command = codes "false" }
    ∷ record { name = codes "build"; command = codes "make" }
    ∷ []

abbrev encode : List Result → Text
encode results = codes "[]"

abbrev no_files : Attempt CommitFiles
no_files = refused (codes "not found")

-- A request under a context that is done fails.
abbrev answer : Option CtxErr → Text × Text → Option Text
answer none report = none
answer (some c) report = some (codes "context done")

abbrev world : World
world = record {
  log_error = none;
  app_check_name = got (codes "ci");
  client_error = none;
  reopen_error = none;
  create_check_run = got 12;
  token = got (codes "t");
  compare_files = λ base head. no_files;
  commit_files = λ sha. no_files;
  prepare_error = none;
  clone_error = none;
  ctx_at_clone = none;
  check_size_at_clone = none;
  checkout = [];
  externals = ext;
  message = λ e. codes "pipeline";
  valid_image = λ image. none;
  docker_available = λ image. false;
  run = run;
  check_size = fits;
  ctx_at_end = none;
  ctx_at_complete = none;
  complete_check_run = answer;
  encode = encode;
}

abbrev claimed : Job
claimed = row (codes "r1") in_progress (codes "2026-01-01")

job-opened : open_job world claimed ≡ proceed (codes "ci")
unfolding open_job
job-opened = refl

check_run-opened : open_check_run world claimed ≡ proceed 12
unfolding open_check_run
check_run-opened = refl

run_job-Agrees_example : Agrees false (run_job world settings claimed [] (pos 900))
run_job-Agrees_example =
    run_job-Agrees world settings claimed [] (pos 900) (codes "ci") 12 job-opened check_run-opened

-- The clone of a job that CancelJob stops.
abbrev stopped : World
stopped = record world {
  clone_error = some (codes "killed");
  ctx_at_clone = some canceled;
  ctx_at_complete = some canceled;
}

stopped-opened : open_job stopped claimed ≡ proceed (codes "ci")
unfolding open_job
stopped-opened = refl

stopped-reopened : open_check_run stopped claimed ≡ proceed 12
unfolding open_check_run
stopped-reopened = refl

stopped-cancelled :
    str_eq (run_job stopped settings claimed [] (pos 900)).recorded.conclusion (codes "cancelled")
    ≡ true
unfolding run_job str_eq open_job open_check_run openpreflight.Queue.Job.run_checked
    openpreflight.Queue.Job.preflight openpreflight.Queue.Job.path_filter
    openpreflight.Go.Strings.trim_space openpreflight.Queue.Job.binding_of
    openpreflight.Queue.Job.fetch
stopped-cancelled = refl

run_job-unsent_example : sent stopped (run_job stopped settings claimed [] (pos 900)) ≡ none
run_job-unsent_example =
    run_job-unsent stopped settings claimed [] (pos 900) (codes "ci") 12 (λ c x. refl) (λ h. refl)
      stopped-opened stopped-reopened stopped-cancelled
