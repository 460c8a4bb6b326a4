-- ===== src/Queue/System/Admit.antt =====
-- What an admitted delivery does to the rows: it ends some, and may add one. What both keep is kept by
-- the whole of `admit`, and so by CancelJob and by a rerun.
use openpreflight.Prelude.{
  ◌≡◌, refl, false, Bool-cases, inl, inr, ◌||◌, List, [], ◌∷◌, ◌++◌, Option, none, some, any,
  is_nil,
}
use openpreflight.Go.Strings.{Text, str_eq}
use openpreflight.Store.Models.{Job, in_flight}
use openpreflight.Store.Jobs.{
  Tables, JobInput, StoreResult, done, failed, enqueue_job, new_job, has_id, finish_job, job,
}
use openpreflight.Queue.Runner.{Runner, member, superseded, cancel_queued, cancel_job}
use openpreflight.Webhook.Payload.{requested}
use openpreflight.Api.Webhook.{
  cancel_all, cancel_superseded, stored, enqueue, after_suite, after_delivery, admit,
}

module _ (P : List Job → List Text → Type 0)
    (ends : (now id : Text) (js : List Job) (running : List Text)
      → P js running
      → P (finish_job now id superseded js) running) where
  pub cancel_job-keeps :
      (now id : Text) (r : Runner)
      → P r.tables.jobs r.running
      → P (cancel_job now id r).1.tables.jobs (cancel_job now id r).1.running
  unfolding cancel_job cancel_queued
  cancel_job-keeps now id r h = elim (Bool-cases (member id r.running)) [
    | inl e ↦ rw e h
    | inr e ↦ rw e (go (job id r.tables.jobs))
  ]
    where
      go :
          (o : Option Job)
          → P (cancel_queued now id r o).1.tables.jobs (cancel_queued now id r o).1.running
      go none = h
      go (some j) = elim (Bool-cases (in_flight j)) [
        | inl f ↦ rw f (ends now id r.tables.jobs r.running h)
        | inr f ↦ rw f h
      ]

  cancel_all-keeps :
      (now sha : Text) (js : List Job) (r : Runner)
      → P r.tables.jobs r.running
      → P (cancel_all now sha js r).tables.jobs (cancel_all now sha js r).running
  unfolding cancel_all
  cancel_all-keeps now sha [] r h = h
  cancel_all-keeps now sha (j ∷ js) r h = elim (Bool-cases (str_eq j.sha sha)) [
    | inl e ↦ rw e (cancel_all-keeps now sha js r h)
    | inr e ↦
        rw e (cancel_all-keeps now sha js (cancel_job now j.id r).1 (cancel_job-keeps now j.id r h))
  ]

  cancel_superseded-keeps :
      (now repo ref sha : Text) (r : Runner)
      → P r.tables.jobs r.running
      → P
          (cancel_superseded now repo ref sha r).tables.jobs
          (cancel_superseded now repo ref sha r).running
  unfolding cancel_superseded
  cancel_superseded-keeps now repo ref sha r h = elim (Bool-cases (is_nil ref)) [
    | inl e ↦ rw e h
    | inr e ↦ rw e (cancel_all-keeps now sha _ r h)
  ]

  module _ (id now : Text) (inp : JobInput)
      (adds : (js : List Job) (running : List Text)
        → any (has_id id) js ≡ false
        → P js running
        → P (js ++ new_job id now inp ∷ []) running) where
    pub enqueue_job-keeps :
        (t : Tables) (j : Job) (t' : Tables) (running : List Text)
        → P t.jobs running
        → enqueue_job id now inp t ≡ done (j, t')
        → P t'.jobs running
    unfolding enqueue_job
    enqueue_job-keeps t j t' running h e = elim (Bool-cases (is_nil inp.repo || is_nil inp.sha)) [
      | inl a ↦ absurd (cc (rw a at e))
      | inr a ↦ elim (Bool-cases (any (has_id id) t.jobs)) [
        | inl d ↦ absurd (cc (rw (a, d) at e))
        | inr d ↦
            let e' = rw (a, d) at e in
            let same : t'.jobs ≡ t.jobs ++ new_job id now inp ∷ [] = cc in
            rw same (adds t.jobs running d h)
      ]
    ]

    stored-keeps :
        (why : Text) (r : Runner) (s : StoreResult (Job × Tables))
        → enqueue_job id now inp r.tables ≡ s
        → P r.tables.jobs r.running
        → P (stored why r s).1.tables.jobs (stored why r s).1.running
    unfolding stored
    stored-keeps why r (failed e) q h = h
    stored-keeps why r (done (j, t)) q h = enqueue_job-keeps r.tables j t r.running h q

    enqueue-keeps :
        (r : Runner)
        → P r.tables.jobs r.running
        → P (enqueue id now inp r).1.tables.jobs (enqueue id now inp r).1.running
    unfolding enqueue
    enqueue-keeps r h =
        stored-keeps inp.skip_reason (cancel_superseded now inp.repo inp.ref inp.sha r) _ refl
          (cancel_superseded-keeps now inp.repo inp.ref inp.sha r h)

    after_suite-keeps :
        (action : Text) (r : Runner) (o : Option Job)
        → P r.tables.jobs r.running
        → P
            (after_suite id now action inp r o).1.tables.jobs
            (after_suite id now action inp r o).1.running
    unfolding after_suite
    after_suite-keeps action r none h = enqueue-keeps r h
    after_suite-keeps action r (some k) h = elim (Bool-cases (str_eq action requested)) [
      | inl e ↦ rw e h
      | inr e ↦ rw e (enqueue-keeps (cancel_job now k.id r).1 (cancel_job-keeps now k.id r h))
    ]

    after_delivery-keeps :
        (action : Text) (r : Runner) (o : Option Job)
        → P r.tables.jobs r.running
        → P
            (after_delivery id now action inp r o).1.tables.jobs
            (after_delivery id now action inp r o).1.running
    unfolding after_delivery
    after_delivery-keeps action r none h = after_suite-keeps action r _ h
    after_delivery-keeps action r (some k) h = h

    pub admit-keeps :
        (action : Text) (r : Runner)
        → P r.tables.jobs r.running
        → P (admit id now action inp r).1.tables.jobs (admit id now action inp r).1.running
    unfolding admit
    admit-keeps action r h = after_delivery-keeps action r _ h
