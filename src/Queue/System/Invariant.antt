-- ===== src/Queue/System/Invariant.antt =====
-- What holds of the worker whenever its parts take their steps.
use openpreflight.Prelude.{
  ℕ, ◌+◌, ◌≤◌, ◌≡◌, refl, false, List, [], ◌∷◌, ◌++◌, Option, none, some, if◌then◌else◌, any, arith,
  All, length, not,
}
use openpreflight.Go.Strings.{Text, str_eq}
use openpreflight.Store.Models.{Job, Settings}
use openpreflight.Store.Jobs.{
  JobInput, has_id, finish_job, finished, new_job, requeued, requeue_stale_jobs,
}
use openpreflight.Store.Jobs.Rows.{UniqueIds, update_job-UniqueIds}
use openpreflight.Store.Jobs.Retention.{prune_jobs-filter}
use openpreflight.Queue.Runner.{member, limit_of, active, finish, superseded}
use openpreflight.Queue.System.{
  Worker, jobs_of, Step, deliver, rerun, claim, start, note, conclude, leave, cancel, prune,
  restart, Reach, here, next,
}
use openpreflight.Queue.System.Admit.{cancel_job-keeps, enqueue_job-keeps, admit-keeps}
use openpreflight.Queue.System.Rows.{
  All-filter_rows, All-update_job, All-mono, All-map_rows, UniqueIds-filter, UniqueIds-map,
}
use openpreflight.Queue.System.TableRows.{
  Row, Table, waiting, claim-Table, concluded_rows, filter-length, left_row, new_job-Table,
  noted_row, requeued_row, start-Table, superseded-Table,
}

-- What always holds: no two rows have one id; a row in progress has a goroutine, or is the one that is
-- being started; a goroutine that wrote its end leaves no row in flight; and the jobs that run, with
-- the one that is being started, are at most as many as the limit.
pub record IsWorking (settings : Settings) (w : Worker) : Type 0 where
  pub unique : UniqueIds (jobs_of w)
  pub rows : All (Row w.claimed w.runner.running w.ended) (jobs_of w)
  pub bounded : active w.runner + waiting w.claimed ≤ limit_of settings

abbrev Working : Settings → Option Job → List Text → List Job → List Text → Type 0
Working settings claimed ended js running =
    Table claimed ended js running × (length running + waiting claimed ≤ limit_of settings)

of_parts :
    (settings : Settings) (w : Worker)
    → Working settings w.claimed w.ended (jobs_of w) w.runner.running
    → IsWorking settings w
of_parts settings w ((u, h), b) = record { unique = u; rows = h; bounded = b }

superseded-Working :
    (settings : Settings) (claimed : Option Job) (ended : List Text) (now id : Text) (js : List Job)
    (running : List Text)
    → Working settings claimed ended js running
    → Working settings claimed ended (finish_job now id superseded js) running
superseded-Working settings claimed ended now id js running (t, b) =
    (superseded-Table claimed ended now id js running t, b)

new_job-Working :
    (settings : Settings) (claimed : Option Job) (ended : List Text) (id now : Text)
    (inp : JobInput)
    → member id ended ≡ false
    → (js : List Job) (running : List Text) → any (has_id id) js ≡ false
    → Working settings claimed ended js running
    → Working settings claimed ended (js ++ new_job id now inp ∷ []) running
new_job-Working settings claimed ended id now inp fresh js running d (t, b) =
    (new_job-Table claimed ended id now inp fresh js running d t, b)

started_bound :
    (j : Job) (running : List Text) (limit : ℕ)
    → length running + 1 ≤ limit
    → length (if member j.id running then running else j.id ∷ running) + 0 ≤ limit
started_bound j running limit h = ground arith

requeued-id : (j : Job) → (requeued j).id ≡ j.id
requeued-id j = ground arith

pub Step-IsWorking :
    (settings : Settings) (w x : Worker)
    → Step settings w x
    → IsWorking settings w
    → IsWorking settings x
unfolding finish_job finish requeue_stale_jobs
Step-IsWorking settings w x (deliver _ id now action inp fresh) h = of_parts settings _ (
    admit-keeps (Working settings w.claimed w.ended) (superseded-Working settings w.claimed w.ended)
      id now inp (new_job-Working settings w.claimed w.ended id now inp fresh) action w.runner
      ((h.unique, h.rows), h.bounded))
Step-IsWorking settings w x (rerun _ id now inp j t fresh e) h = of_parts settings _ (
    enqueue_job-keeps (Working settings w.claimed w.ended)
      (superseded-Working settings w.claimed w.ended) id now inp
      (new_job-Working settings w.claimed w.ended id now inp fresh) w.runner.tables j t
      w.runner.running ((h.unique, h.rows), h.bounded) e)
Step-IsWorking settings w x (claim _ now j rows free room e) h =
    let start_from : Table none w.ended (jobs_of w) w.runner.running =
      rw (← free) (h.unique, h.rows) in
    let (u, rs) = claim-Table w.ended w.runner.running now j (jobs_of w) rows e start_from in
    record { unique = u; rows = rs; bounded = omega arith }
Step-IsWorking settings w x (start _ j e) h =
    let from : Table (some j) w.ended (jobs_of w) w.runner.running = rw (← e) (h.unique, h.rows) in
    let (u, rs) = start-Table w.ended w.runner.running j (jobs_of w) from in
    record {
      unique = u;
      rows = rs;
      bounded = started_bound j w.runner.running _ (rw e at h.bounded);
    }
Step-IsWorking settings w x (note _ id f keeps) h = record {
  unique = update_job-UniqueIds id f (λ j. (keeps j).0) (jobs_of w) h.unique;
  rows =
      All-update_job (Row w.claimed w.runner.running w.ended) id f (jobs_of w)
        (λ j e q. noted_row w.claimed w.runner.running w.ended f j keeps q) h.rows;
  bounded = h.bounded;
}
Step-IsWorking settings w x (conclude _ id now o m t) h = record {
  unique = update_job-UniqueIds id (finished now o) (λ j. refl) (jobs_of w) h.unique;
  rows = concluded_rows w.claimed w.runner.running w.ended id now o (jobs_of w) t h.rows;
  bounded = h.bounded;
}
Step-IsWorking settings w x (leave _ id m) h = record {
  unique = h.unique;
  rows =
      All-mono (Row w.claimed w.runner.running w.ended) _ (jobs_of w)
        (λ j q. left_row w.claimed w.runner.running w.ended id j m q) h.rows;
  bounded = omega (arith, h.bounded, filter-length (λ i. not (str_eq i id)) w.runner.running);
}
Step-IsWorking settings w x (cancel _ id now) h = of_parts settings _ (
    cancel_job-keeps (Working settings w.claimed w.ended)
      (superseded-Working settings w.claimed w.ended) now id w.runner
      ((h.unique, h.rows), h.bounded))
Step-IsWorking settings w x (prune _ cutoff) h = record {
  unique = rw (prune_jobs-filter cutoff w.runner.tables) (UniqueIds-filter _ (jobs_of w) h.unique);
  rows =
      rw (prune_jobs-filter cutoff w.runner.tables)
        (All-filter_rows (Row w.claimed w.runner.running w.ended) _ (jobs_of w) h.rows);
  bounded = h.bounded;
}
Step-IsWorking settings w x (restart _) h = record {
  unique = UniqueIds-map requeued (jobs_of w) requeued-id h.unique;
  rows =
      All-map_rows (Row w.claimed w.runner.running w.ended) (Row none [] []) requeued (jobs_of w)
        (λ j q. requeued_row j) h.rows;
  bounded = omega arith;
}

-- From a worker of which it holds, as a fresh one with an empty table, what always holds is kept whatever steps are taken.
pub Reach-IsWorking :
    (settings : Settings) (v w : Worker)
    → IsWorking settings v
    → Reach settings v w
    → IsWorking settings w
Reach-IsWorking settings v w h here = h
Reach-IsWorking settings v w h (next {w = x} r st) =
    Step-IsWorking settings x w st (Reach-IsWorking settings v x h r)
