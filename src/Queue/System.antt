-- ===== src/Queue/System.antt =====
-- The worker as a whole, internal/queue/runner.go with the webhook's handler and the jobs page: the
-- claim loop, the jobs' goroutines and the requests take their steps in any order. A claim is two steps, as in
-- `drain`: ClaimNextJob writes the row, and only `startJob` enters the job in the map. So is the end of a
-- goroutine: `runJob` writes the job's end, and the deferred function leaves the map.
pub mod Ends
pub mod Cancel
pub mod TableRows
pub mod Invariant
pub mod Rows
pub mod Admit
use openpreflight.Prelude.{
  ℕ, ◌+◌, ◌<◌, ◌≡◌, Bool, true, false, List, [], ◌∷◌, Option, none, some, length, All,
}
use openpreflight.Go.Strings.{Text}
use openpreflight.Store.Models.{Job, Settings, in_flight, in_flight_status}
use openpreflight.Store.Jobs.{
  Tables, JobInput, StoreResult, done, Outcome, claim_next_job, finish_job, requeue_stale_jobs,
  prune_jobs, enqueue_job, update_job, has_id,
}
use openpreflight.Queue.Runner.{Runner, member, limit_of, active, start_job, finish, cancel_job}
use openpreflight.Api.Webhook.{Response, admit}

-- `claimed` is the job between ClaimNextJob and `startJob`; `ended` holds the jobs of this process
-- whose goroutine has written its end.
pub record Worker : Type 0 where
  pub runner : Runner
  pub claimed : Option Job
  pub ended : List Text

abbrev pub jobs_of : Worker → List Job
jobs_of w = w.runner.tables.jobs

abbrev with_jobs : List Job → Runner → Runner
with_jobs js r = record r { tables = record { jobs = js; deliveries = r.tables.deliveries } }

-- One of `runJob`'s writes that leaves the status alone: the plan, the Check Run, the size of the log.
abbrev pub KeepsStatus : (Job → Job) → Type 0
KeepsStatus f = (j : Job) → ((f j).id ≡ j.id) × ((f j).status ≡ j.status)

-- The id of a new job is drawn: no row, and no goroutine of this process, has it.
pub data Step (settings : Settings) : Worker → Worker → Type 0 where
  deliver :
      (w : Worker) (id now action : Text) (inp : JobInput)
      → member id w.ended ≡ false
      → Step settings w (record w { runner = (admit id now action inp w.runner).1 })
  rerun :
      (w : Worker) (id now : Text) (inp : JobInput) (j : Job) (t : Tables)
      → member id w.ended ≡ false
      → enqueue_job id now inp w.runner.tables ≡ done (j, t)
      → Step settings w (record w { runner = record w.runner { tables = t } })
  claim :
      (w : Worker) (now : Text) (j : Job) (rows : List Job)
      → w.claimed ≡ none
      → active w.runner < limit_of settings
      → claim_next_job now (jobs_of w) ≡ some (j, rows)
      → Step settings w (record w { runner = with_jobs rows w.runner; claimed = some j })
  start :
      (w : Worker) (j : Job)
      → w.claimed ≡ some j
      → Step settings w (record w { runner = start_job j.id (jobs_of w) w.runner; claimed = none })
  note :
      (w : Worker) (id : Text) (f : Job → Job)
      → KeepsStatus f
      → Step settings w (record w { runner = with_jobs (update_job id f (jobs_of w)) w.runner })
  conclude :
      (w : Worker) (id now : Text) (o : Outcome)
      → member id w.runner.running ≡ true
      → in_flight_status o.status ≡ false
      → Step settings w (record w {
        runner = with_jobs (finish_job now id o (jobs_of w)) w.runner;
        ended = id ∷ w.ended;
      })
  leave :
      (w : Worker) (id : Text)
      → member id w.ended ≡ true
      → Step settings w (record w { runner = finish id w.runner })
  cancel :
      (w : Worker) (id now : Text)
      → Step settings w (record w { runner = (cancel_job now id w.runner).1 })
  prune :
      (w : Worker) (cutoff : Text)
      → Step settings w
          (record w { runner = record w.runner { tables = (prune_jobs cutoff w.runner.tables).1 } })
  -- The process is killed and starts anew.
  restart :
      (w : Worker)
      → Step settings w (record {
        runner = record {
          tables = record {
            jobs = (requeue_stale_jobs (jobs_of w)).0;
            deliveries = w.runner.tables.deliveries;
          };
          running = [];
          signalled = [];
        };
        claimed = none;
        ended = [];
      })

pub data Reach (settings : Settings) (v : Worker) : Worker → Type 0 where
  here : Reach settings v v
  next : {w x : Worker} → Reach settings v w → Step settings w x → Reach settings v x
