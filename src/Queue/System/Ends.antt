-- ===== src/Queue/System/Ends.antt =====
-- A job that has ended stays ended.
use openpreflight.Prelude.{
  ◌≡◌, refl, ◌∙◌, sym, true, false, List, [], ◌∷◌, ◌++◌, arith, All, All-append, any,
}
use openpreflight.Go.Strings.{Text, str_eq, str_eq_iff}
use openpreflight.Store.Models.{Job, Settings, in_flight, in_flight_status, is_queued}
use openpreflight.Store.Jobs.{
  JobInput, Outcome, has_id, update_job, finished, finish_job, new_job, started, requeued,
  requeue_stale_jobs,
}
use openpreflight.Store.Jobs.Rows.{In}
use openpreflight.Store.Jobs.Claim.{claim_next_job-row}
use openpreflight.Store.Jobs.Retention.{prune_jobs-filter}
use openpreflight.Queue.Runner.{superseded, finish}
use openpreflight.Queue.System.{
  Worker, jobs_of, Step, deliver, rerun, claim, start, note, conclude, leave, cancel, prune,
  restart, Reach, here, next,
}
use openpreflight.Queue.System.Admit.{cancel_job-keeps, enqueue_job-keeps, admit-keeps}
use openpreflight.Queue.System.Rows.{All-filter_rows, All-update_job, All-In, All-map_rows}

-- The rows of the id are not in flight.
abbrev pub HasEnded : Text → List Job → Type 0
HasEnded x = All (λ j. has_id x j ≡ true → in_flight j ≡ false)

-- The id is not drawn for a new job.
abbrev pub NotDrawn : Text → (settings : Settings) (w v : Worker) → Step settings w v → Type 0
NotDrawn x settings w v (deliver _ id now action inp fresh) = str_eq id x ≡ false
NotDrawn x settings w v (rerun _ id now inp j t fresh e) = str_eq id x ≡ false
NotDrawn x settings w v _ = Unit

module _ (x : Text) where
  ended-HasEnded :
      (now id : Text) (o : Outcome) (js : List Job)
      → in_flight_status o.status ≡ false
      → HasEnded x js
      → HasEnded x (finish_job now id o js)
  unfolding finish_job
  ended-HasEnded now id o js t h =
      All-update_job (λ j. has_id x j ≡ true → in_flight j ≡ false) id (finished now o) js
        (λ j e q m. t) h

  superseded-HasEnded :
      (now id : Text) (js : List Job) (running : List Text)
      → HasEnded x js
      → HasEnded x (finish_job now id superseded js)
  unfolding in_flight_status
  superseded-HasEnded now id js running h = ended-HasEnded now id superseded js refl h

  new_job-HasEnded :
      (id now : Text) (inp : JobInput)
      → str_eq id x ≡ false
      → (js : List Job) (running : List Text) → any (has_id id) js ≡ false
      → HasEnded x js
      → HasEnded x (js ++ new_job id now inp ∷ [])
  new_job-HasEnded id now inp other js running d h =
      All-append (λ j. has_id x j ≡ true → in_flight j ≡ false) js _ h ((λ q. cc (other, q)), tt)

  queued-in_flight : (j : Job) → is_queued j ≡ true → in_flight j ≡ true
  unfolding in_flight_status
  queued-in_flight j h = ground arith

  started-HasEnded :
      (now : Text) (k : Job) (js : List Job)
      → In k js
      → is_queued k ≡ true
      → HasEnded x js
      → HasEnded x (update_job k.id (started now) js)
  started-HasEnded now k js there queued h =
      let k_ended = All-In (λ j. has_id x j ≡ true → in_flight j ≡ false) k js h there in
      All-update_job (λ j. has_id x j ≡ true → in_flight j ≡ false) k.id (started now) js
        (λ j e q m.
          let alike : k.id ≡ x = sym ((str_eq_iff j.id k.id).0 e) ∙ (str_eq_iff j.id x).0 m in
          cc (k_ended ((str_eq_iff k.id x).1 alike), queued-in_flight k queued))
        h

  requeued-ended :
      (j : Job)
      → (has_id x j ≡ true → in_flight j ≡ false)
      → has_id x (requeued j) ≡ true
      → in_flight (requeued j) ≡ false
  unfolding in_flight_status
  requeued-ended j h m = ground (arith, h)

  Step-HasEnded :
      (settings : Settings) (w v : Worker) (st : Step settings w v)
      → NotDrawn x settings w v st
      → HasEnded x (jobs_of w)
      → HasEnded x (jobs_of v)
  unfolding requeue_stale_jobs finish
  Step-HasEnded settings w v (deliver _ id now action inp fresh) other h =
      admit-keeps (λ js running. HasEnded x js) superseded-HasEnded id now inp
        (new_job-HasEnded id now inp other) action w.runner h
  Step-HasEnded settings w v (rerun _ id now inp j t fresh e) other h =
      enqueue_job-keeps (λ js running. HasEnded x js) superseded-HasEnded id now inp
        (new_job-HasEnded id now inp other) w.runner.tables j t w.runner.running h e
  Step-HasEnded settings w v (claim _ now j rows free room e) other h =
      let (k, there, queued, same, written) = claim_next_job-row now (jobs_of w) j rows e in
      rw written (started-HasEnded now k (jobs_of w) there queued h)
  Step-HasEnded settings w v (start _ j e) other h = h
  Step-HasEnded settings w v (note _ id f keeps) other h =
      All-update_job (λ j. has_id x j ≡ true → in_flight j ≡ false) id f (jobs_of w)
        (λ j e q. rw ((keeps j).0, (keeps j).1) q) h
  Step-HasEnded settings w v (conclude _ id now o m t) other h =
      ended-HasEnded now id o (jobs_of w) t h
  Step-HasEnded settings w v (leave _ id m) other h = h
  Step-HasEnded settings w v (cancel _ id now) other h =
      cancel_job-keeps (λ js running. HasEnded x js) superseded-HasEnded now id w.runner h
  Step-HasEnded settings w v (prune _ cutoff) other h =
      rw (prune_jobs-filter cutoff w.runner.tables) (All-filter_rows _ _ (jobs_of w) h)
  Step-HasEnded settings w v (restart _) other h =
      All-map_rows (λ j. has_id x j ≡ true → in_flight j ≡ false)
        (λ j. has_id x j ≡ true → in_flight j ≡ false) requeued (jobs_of w) requeued-ended h

  -- The id is drawn in none of the steps.
  abbrev pub NeverDrawn : (settings : Settings) (w v : Worker) → Reach settings w v → Type 0
  NeverDrawn settings w v here = Unit
  NeverDrawn settings w v (next {w = y} r st) =
      NeverDrawn settings w y r × NotDrawn x settings y v st

  -- A job that is not in flight is never in flight again, whatever steps are taken, a restart of the
  -- process and a rerun included, as long as its id is not drawn for a new job.
  pub Reach-HasEnded :
      (settings : Settings) (w v : Worker) (r : Reach settings w v)
      → NeverDrawn settings w v r
      → HasEnded x (jobs_of w)
      → HasEnded x (jobs_of v)
  Reach-HasEnded settings w v here other h = h
  Reach-HasEnded settings w v (next {w = y} r st) (others, other) h =
      Step-HasEnded settings y v st other (Reach-HasEnded settings w y r others h)
