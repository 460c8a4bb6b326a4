-- ===== src/Store/Jobs/Recovery.antt =====
-- What a restart does to the job table.
use openpreflight.Prelude.{ℕ, ◌+◌, ◌≡◌, refl, List, [], ◌∷◌, map, arith, count}
use openpreflight.Store.Models.{Job, in_flight, in_flight_status, is_queued, is_in_progress}
use openpreflight.Store.Jobs.{requeue_stale_jobs}

pub record Recovered (js js' : List Job) (affected : ℕ) : Type 0 where
  pub none_running : count is_in_progress js' ≡ 0
  pub waiting : count is_queued js' ≡ count is_queued js + affected
  pub in_flight : count in_flight js' ≡ count in_flight js
  pub check_runs : map (λ (j : Job). j.check_run_id) js' ≡ map (λ (j : Job). j.check_run_id) js
  pub ids : map (λ (j : Job). j.id) js' ≡ map (λ (j : Job). j.id) js

-- After the requeueing no job is in progress. The queued jobs are those that were queued and those
-- that the count reports, as many jobs are in flight as before, and every row keeps its id and its
-- check run.
pub requeue-Recovered :
    (js : List Job) → Recovered js (requeue_stale_jobs js).0 (requeue_stale_jobs js).1
unfolding requeue_stale_jobs in_flight_status
requeue-Recovered [] = record {
  none_running = refl;
  waiting = omega arith;
  in_flight = refl;
  check_runs = refl;
  ids = refl;
}
requeue-Recovered (j ∷ js) =
    let r = requeue-Recovered js in
    record {
      none_running = ground (arith, r.none_running);
      waiting = ground (arith, r.waiting);
      in_flight = ground (arith, r.in_flight);
      check_runs = ground (arith, r.check_runs);
      ids = ground (arith, r.ids);
    }
