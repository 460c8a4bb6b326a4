-- ===== src/Queue/System/Cancel.antt =====
-- What CancelJob achieves, between a job's claim and its start as well.
use openpreflight.Prelude.{
  ◌∙◌, ◌<◌, ◌≡◌, refl, Bool, true, false, Bool-cases, inl, inr, ◌⊎◌, List, [], ◌∷◌, Option, none,
  some, All, if◌then◌else◌,
}
use openpreflight.Go.Strings.{Text, str_eq_refl}
use openpreflight.Store.Models.{Job, Settings, in_flight, in_flight_status}
use openpreflight.Store.Jobs.{has_id, job, update_job, finished, finish_job, claim_next_job}
use openpreflight.Store.Jobs.Rows.{UniqueIds}
use openpreflight.Store.Jobs.Claim.{claim_next_job-Claims}
use openpreflight.Queue.Runner.{
  Runner, member, superseded, start_job, cancel_queued, cancel_job, active, limit_of,
}
use openpreflight.Queue.System.{Worker, jobs_of, with_jobs, claim, start, cancel, Reach, here, next}
use openpreflight.Queue.System.Ends.{HasEnded}

-- The job's goroutine was told to stop, or its rows are not in flight.
abbrev pub Stopped : Text → Runner → Type 0
Stopped id r =
    (member id r.running ≡ true) × (member id r.signalled ≡ true)
    ⊎ All (λ j. has_id id j ≡ true → in_flight j ≡ false) r.tables.jobs

finished_rows :
    (now id : Text) (js : List Job)
    → All (λ j. has_id id j ≡ true → in_flight j ≡ false) (finish_job now id superseded js)
unfolding finish_job update_job in_flight_status
finished_rows now id [] = tt
finished_rows now id (j ∷ js) = (go (has_id id j) refl, finished_rows now id js)
  where
    go :
        (b : Bool)
        → has_id id j ≡ b
        → has_id id (if b then finished now superseded j else j) ≡ true
        → in_flight (if b then finished now superseded j else j) ≡ false
    go true e q = refl
    go false e q = cc

cancel_queued-Stopped :
    (now id : Text) (r : Runner) (o : Option Job)
    → (cancel_queued now id r o).0 ≡ true
    → Stopped id (cancel_queued now id r o).1
unfolding cancel_queued
cancel_queued-Stopped now id r none h = absurd (cc)
cancel_queued-Stopped now id r (some j) h = elim (Bool-cases (in_flight j)) [
  | inl e ↦ rw e (inr (finished_rows now id r.tables.jobs))
  | inr e ↦ absurd (cc (rw e at h))
]

-- Where CancelJob answers that it cancelled a job, the job's goroutine is told to stop, or the job is
-- no longer in flight.
pub cancel_job-Stopped :
    (now id : Text) (r : Runner)
    → (cancel_job now id r).0 ≡ true
    → Stopped id (cancel_job now id r).1
unfolding cancel_job
cancel_job-Stopped now id r h = elim (Bool-cases (member id r.running)) [
  | inl e ↦ rw e (inl (e, rw (str_eq_refl id) refl))
  | inr e ↦ rw e (cancel_queued-Stopped now id r (job id r.tables.jobs) (rw e at h))
]

-- The worker behind a claim, CancelJob and then `startJob`, taken one after the other.
module _ (w : Worker) (later : Text) (j : Job) (rows : List Job) where
  abbrev pub behind_claim : Worker
  behind_claim = record w { runner = with_jobs rows w.runner; claimed = some j }

  abbrev pub cancelling : Bool × Runner
  cancelling = cancel_job later j.id behind_claim.runner

  abbrev pub behind_start : Worker
  behind_start = record behind_claim {
    runner = start_job j.id cancelling.1.tables.jobs cancelling.1;
    claimed = none;
  }

  -- CancelJob answers that it cancelled the job, and behind `startJob` the job has a goroutine that
  -- nothing has told to stop, though its row has ended.
  pub record Escapes (settings : Settings) : Type 0 where
    pub answers : cancelling.0 ≡ true
    pub reached : Reach settings w behind_start
    pub row_ended : HasEnded j.id (jobs_of behind_start)
    pub runs : member j.id behind_start.runner.running ≡ true
    pub not_told : member j.id behind_start.runner.signalled ≡ false

claimed_row :
    (now : Text) (js rows : List Job) (j : Job)
    → UniqueIds js
    → claim_next_job now js ≡ some (j, rows)
    → (job j.id rows ≡ some j) × (in_flight j ≡ true)
unfolding in_flight_status
claimed_row now js rows j u h =
    let c = claim_next_job-Claims now js j rows u h in
    (c.after j.id ∙ rw (str_eq_refl j.id) refl, rw c.is refl)

-- Where no two jobs have one id: a job that the claim loop takes, and that has no goroutine and was not
-- told to stop, escapes a CancelJob that comes between ClaimNextJob and `startJob`. The call answers that
-- it cancelled the job, and the worker reaches a state in which the row has ended and the job runs,
-- with nothing having told it to stop.
pub claim-Escapes :
    (settings : Settings) (w : Worker) (now later : Text) (j : Job) (rows : List Job)
    → UniqueIds (jobs_of w)
    → w.claimed ≡ none
    → active w.runner < limit_of settings
    → claim_next_job now (jobs_of w) ≡ some (j, rows)
    → member j.id w.runner.running ≡ false
    → member j.id w.runner.signalled ≡ false
    → Escapes w later j rows settings
unfolding cancel_job cancel_queued
claim-Escapes settings w now later j rows u free below taken absent silent =
    let (found, flying) = claimed_row now (jobs_of w) rows j u taken in
    record {
      answers = rw (absent, found, flying) refl;
      reached =
          next
            (next (next here (claim w now j rows free below taken))
              (cancel (behind_claim w later j rows) j.id later))
            (start (record (behind_claim w later j rows) { runner = (cancelling w later j rows).1 })
              j refl);
      row_ended = rw (absent, found, flying) (finished_rows later j.id rows);
      runs = rw (absent, found, flying) (rw (absent, str_eq_refl j.id) refl);
      not_told = rw (absent, found, flying) silent;
    }
