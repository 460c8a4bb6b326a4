-- ===== src/Api/Jobs/Rerun.antt =====
-- What a rerun of internal/api/jobs.go enqueues.
use openpreflight.Prelude.{
  ◌≡◌, refl, false, Bool-cases, inl, inr, ◌||◌, List, [], ◌∷◌, ◌++◌, Option, none, some, ◌==◌,
  is_nil, any,
}
use openpreflight.Go.Strings.{Text}
use openpreflight.Store.Models.{Job, RepoBinding, queued}
use openpreflight.Store.Jobs.{Tables, StoreResult, done, failed, job, enqueue_job, has_id, new_job}
use openpreflight.Store.Bindings.{enabled_binding}
use openpreflight.Api.Jobs.{
  accepted, rerun_input, rerun_stored, rerun_bound, rerun_found, rerun_job,
}

-- What an accepted rerun leaves.
pub record Reruns (bindings : List RepoBinding) (of : Text) (t : Tables) (j : Job) (t' : Tables)
    : Type 0 where
  pub old : Job
  pub found : job of t.jobs ≡ some old
  pub bound : RepoBinding
  pub is_enabled : enabled_binding old.github_app_id old.repo bindings ≡ some bound
  pub added : t'.jobs ≡ t.jobs ++ j ∷ []
  pub same_deliveries : t'.deliveries ≡ t.deliveries
  pub new_id : any (has_id j.id) t.jobs ≡ false
  pub waits : j.status ≡ queued
  pub same_repo : j.repo ≡ old.repo
  pub same_sha : j.sha ≡ old.sha
  pub same_ref : j.ref ≡ old.ref
  pub new_check_run : j.check_run_id ≡ 0
  pub as_own : j.is_fork ≡ false
  pub not_skipped : j.skip_reason ≡ []

-- The end of the insertion of a rerun.
added_lem :
    (id now : Text) (old : Job) (b : RepoBinding) (t t' : Tables) (j : Job)
    → enqueue_job id now (rerun_input old b) t ≡ done (j, t')
    → (any (has_id id) t.jobs ≡ false)
      × (new_job id now (rerun_input old b) ≡ j)
      × (t'.jobs ≡ t.jobs ++ new_job id now (rerun_input old b) ∷ [])
      × (t'.deliveries ≡ t.deliveries)
unfolding enqueue_job
added_lem id now old b t t' j h = elim (Bool-cases (is_nil old.repo || is_nil old.sha)) [
  | inl a ↦ absurd (cc (rw a at h))
  | inr a ↦ elim (Bool-cases (any (has_id id) t.jobs)) [
    | inl d ↦ absurd (cc (rw (a, d) at h))
    | inr d ↦ let h' = rw (a, d) at h in (d, cc, cc, cc)
  ]
]

rerun_stored-accepted :
    (t t' : Tables) (j : Job) (s : StoreResult (Job × Tables))
    → rerun_stored t s ≡ (accepted j, t')
    → s ≡ done (j, t')
unfolding rerun_stored
rerun_stored-accepted t t' j (failed e) h = absurd (cc)
rerun_stored-accepted t t' j (done (k, u)) h = cc

rerun_bound-Reruns :
    (id now : Text) (bindings : List RepoBinding) (of : Text) (t t' : Tables) (old j : Job)
    (o : Option RepoBinding)
    → job of t.jobs ≡ some old
    → enabled_binding old.github_app_id old.repo bindings ≡ o
    → rerun_bound id now t old o ≡ (accepted j, t')
    → Reruns bindings of t j t'
unfolding rerun_bound
rerun_bound-Reruns id now bindings of t t' old j none found e h = absurd (cc)
rerun_bound-Reruns id now bindings of t t' old j (some b) found e h =
    let (unused, same, rows, deliveries) =
      added_lem id now old b t t' j (rerun_stored-accepted t t' j _ h) in
    rw (← same) (record {
      old = old;
      found = found;
      bound = b;
      is_enabled = e;
      added = rows;
      same_deliveries = deliveries;
      new_id = unused;
      waits = refl;
      same_repo = refl;
      same_sha = refl;
      same_ref = refl;
      new_check_run = refl;
      as_own = refl;
      not_skipped = refl;
    })

rerun_found-Reruns :
    (id now : Text) (bindings : List RepoBinding) (of : Text) (t t' : Tables) (j : Job)
    (o : Option Job)
    → job of t.jobs ≡ o
    → rerun_found id now bindings t o ≡ (accepted j, t')
    → Reruns bindings of t j t'
unfolding rerun_found
rerun_found-Reruns id now bindings of t t' j none found h = absurd (cc)
rerun_found-Reruns id now bindings of t t' j (some old) found h =
    elim (Bool-cases (old.installation_id == 0)) [
      | inl e ↦ absurd (cc (rw e at h))
      | inr e ↦ rerun_bound-Reruns id now bindings of t t' old j _ found refl (rw e at h)
    ]

-- An accepted rerun adds one queued job at the end of the table, for the repository, commit and branch
-- of the job that it repeats, with a new id and no Check Run, and changes nothing else; an enabled
-- binding lets the repository in. It drops that the old job was a fork's, or why it was skipped: the
-- new one runs as a job of the repository's own branch.
pub rerun_job-Reruns :
    (id now : Text) (bindings : List RepoBinding) (of : Text) (t t' : Tables) (j : Job)
    → rerun_job id now bindings of t ≡ (accepted j, t')
    → Reruns bindings of t j t'
unfolding rerun_job
rerun_job-Reruns id now bindings of t t' j h =
    rerun_found-Reruns id now bindings of t t' j (job of t.jobs) refl h
