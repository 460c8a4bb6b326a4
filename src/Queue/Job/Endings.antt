-- ===== src/Queue/Job/Endings.antt =====
-- How a job ends, on every path of `runJob`.
use openpreflight.Prelude.{
  ℕ, ◌≡◌, refl, ◌∙◌, Bool, true, false, Bool-cases, inl, inr, not, ◌||◌, arith, ap, List, [],
  Option, none, some, ℤ, if◌then◌else◌, is_nil, ◌==◌, length,
}
use openpreflight.Go.Strings.{Text, codes, trim_space, str_eq}
use openpreflight.Pipeline.Types
use openpreflight.Pipeline.Types.{Plan}
use openpreflight.Store.Models.{
  Job, Settings, RepoBinding, on_empty_pipeline_fail, skip_reason_path_filter,
  skip_reason_no_pipeline,
}
use openpreflight.Store.Bindings.{matched_paths}
use openpreflight.Queue.Files.{CommitFiles, changed_paths}
use openpreflight.Queue.Steps.{
  CtxErr, deadline_exceeded, canceled, is_some, Ending, run_steps, fail_outcome, first_non_empty,
}
use openpreflight.Queue.Steps.Report.{Agrees, conclude-Agrees}
use openpreflight.Queue.Summary.{path_filter_diagnostic}
use openpreflight.Queue.Job.{
  Attempt, got, refused, World, Stage, proceed, ended, ok_or, got_or, skipped_ending, fail_late,
  open_job, reopen_run, open_check_run, preflight, unevaluated, filter_files, path_filter,
  clone_failed, fetch, nothing_to_run, plan_or, plan_of, image_of, run_checked, ending_of, run_job,
  binding_of, accepted, sent, ◌>>=◌,
}

-- The job looked at its context behind the clone and behind the steps.
abbrev pub seen_done : World → Bool
seen_done w = is_some w.ctx_at_clone || is_some w.ctx_at_end

module _ (w : World) where
  abbrev EndingAgrees : Ending → Type 0
  EndingAgrees = Agrees (seen_done w)

  -- A part of the job that, if it ends the job, calls `complete` as the row records.
  abbrev StageAgrees : {A : Type 0} → Stage A → Type 0
  StageAgrees (proceed a) = Unit
  StageAgrees (ended e) = EndingAgrees e

  seq-Agrees :
      {A : Type 0} (s : Stage A) (f : A → Stage Ending)
      → StageAgrees s
      → ((a : A) → EndingAgrees (ending_of w (f a)))
      → EndingAgrees (ending_of w (s >>= f))
  seq-Agrees (proceed a) f h k = k a
  seq-Agrees (ended e) f h k = h

  then-StageAgrees :
      {A B : Type 0} (s : Stage A) (f : A → Stage B)
      → StageAgrees s
      → ((a : A) → StageAgrees (f a))
      → StageAgrees (s >>= f)
  then-StageAgrees (proceed a) f h k = k a
  then-StageAgrees (ended e) f h k = h

  fail_late-Agrees : (msg note : Text) → EndingAgrees (fail_late w msg note)
  unfolding fail_late fail_outcome first_non_empty trim_space str_eq
  fail_late-Agrees msg note = record { note = note; same = refl; cause = λ h. cc }

  skipped-Agrees : (reason note : Text) → EndingAgrees (skipped_ending reason note)
  unfolding str_eq
  skipped-Agrees reason note = record { note = note; same = refl; cause = λ h. cc }

  preflight-Agrees : (j : Job) → StageAgrees (preflight w j)
  unfolding preflight
  preflight-Agrees j = elim (Bool-cases (is_nil j.skip_reason)) [
    | inl e ↦ rw e tt
    | inr e ↦ rw e (skipped-Agrees j.skip_reason _)
  ]

  ok_or-Agrees :
      {A : Type 0} (o : Option Text) (end_ : Text → Ending) (a : A)
      → ((e : Text) → EndingAgrees (end_ e))
      → StageAgrees (ok_or o end_ a)
  ok_or-Agrees none end_ a h = tt
  ok_or-Agrees (some e) end_ a h = h e

  got_or-Agrees :
      {A : Type 0} (o : Attempt A) (end_ : Text → Ending)
      → ((e : Text) → EndingAgrees (end_ e))
      → StageAgrees (got_or o end_)
  got_or-Agrees (got a) end_ h = tt
  got_or-Agrees (refused e) end_ h = h e

  filtered-Agrees :
      (truncated missed : Bool) (why diag : Text)
      → StageAgrees (
          if truncated
          then unevaluated w why
          else if missed
          then ended (skipped_ending skip_reason_path_filter diag)
          else proceed [])
  unfolding unevaluated
  filtered-Agrees true missed why diag = tt
  filtered-Agrees false true why diag = skipped-Agrees skip_reason_path_filter diag
  filtered-Agrees false false why diag = tt

  filter_files-Agrees :
      (b : RepoBinding) (files : Attempt CommitFiles) → StageAgrees (filter_files w b files)
  unfolding filter_files unevaluated
  filter_files-Agrees b (refused e) = tt
  filter_files-Agrees b (got files) =
      filtered-Agrees files.truncated (is_nil (matched_paths b (changed_paths files)))
        (codes "the file list was truncated by GitHub")
        (path_filter_diagnostic b.paths (length (changed_paths files))
          (length (matched_paths b (changed_paths files)))
          (not (is_nil (matched_paths b (changed_paths files)))))

  path_filter-Agrees : (j : Job) (b : RepoBinding) → StageAgrees (path_filter w j b)
  unfolding path_filter
  path_filter-Agrees j b = elim (Bool-cases (is_nil (trim_space b.paths))) [
    | inl e ↦ rw e tt
    | inr e ↦ rw e (
        then-StageAgrees _ _ (got_or-Agrees w.token _ (λ e. fail_late-Agrees _ _))
          (λ t. filter_files-Agrees b _))
  ]

  clone_failed-Agrees :
      (e : Text) (c : Option CtxErr) → w.ctx_at_clone ≡ c → EndingAgrees (clone_failed w e c)
  unfolding clone_failed str_eq
  clone_failed-Agrees e none seen = fail_late-Agrees _ _
  clone_failed-Agrees e (some deadline_exceeded) seen = record {
    note = _;
    same = refl;
    cause = λ h. rw (ap is_some seen) refl;
  }
  clone_failed-Agrees e (some canceled) seen = record {
    note = _;
    same = refl;
    cause = λ h. rw (ap is_some seen) refl;
  }

  fetch-Agrees : StageAgrees (fetch w)
  unfolding fetch str_eq
  fetch-Agrees =
      then-StageAgrees _ _ (ok_or-Agrees w.prepare_error _ tt (λ e. fail_late-Agrees e e)) (λ _.
        then-StageAgrees _ _ (got_or-Agrees w.token _ (λ e. fail_late-Agrees _ _)) (λ _.
          then-StageAgrees _ _
            (ok_or-Agrees w.clone_error _ tt (λ e. clone_failed-Agrees e w.ctx_at_clone refl))
            (λ _.
              ok_or-Agrees w.check_size_at_clone _ tt
                (λ e. record { note = e; same = refl; cause = λ h. cc }))))

  nothing_to_run-Agrees : (b : RepoBinding) (file : Text) → EndingAgrees (nothing_to_run w b file)
  unfolding nothing_to_run
  nothing_to_run-Agrees b file =
      elim (Bool-cases (str_eq b.on_empty_pipeline on_empty_pipeline_fail)) [
        | inl e ↦ rw e (fail_late-Agrees _ _)
        | inr e ↦ rw e (skipped-Agrees skip_reason_no_pipeline _)
      ]

  plan_or-Agrees :
      (b : RepoBinding) (file : Text) (r : Types.Result Plan) → StageAgrees (plan_or w b file r)
  unfolding plan_or
  plan_or-Agrees b file (Types.ok plan) = tt
  plan_or-Agrees b file (Types.err Types.nothing_to_run) = nothing_to_run-Agrees b file
  plan_or-Agrees b file (Types.err (Types.outside_repository f)) = fail_late-Agrees _ _
  plan_or-Agrees b file (Types.err (Types.read_failed f m)) = fail_late-Agrees _ _
  plan_or-Agrees b file (Types.err (Types.invalid_yaml f m)) = fail_late-Agrees _ _
  plan_or-Agrees b file (Types.err (Types.bad_timeout f d)) = fail_late-Agrees _ _
  plan_or-Agrees b file (Types.err (Types.package_read_failed m)) = fail_late-Agrees _ _
  plan_or-Agrees b file (Types.err (Types.invalid_package m)) = fail_late-Agrees _ _

  available-Agrees :
      (image msg : Text) (b : Bool)
      → StageAgrees (if b then proceed image else ended (fail_late w msg msg))
  available-Agrees image msg true = tt
  available-Agrees image msg false = fail_late-Agrees msg msg

  image_of-Agrees : (plan : Plan) → StageAgrees (image_of w plan)
  unfolding image_of
  image_of-Agrees plan = elim (Bool-cases (is_nil (trim_space plan.runtime))) [
    | inl e ↦ rw e tt
    | inr e ↦ rw e (
        then-StageAgrees _ _
          (ok_or-Agrees (w.valid_image (trim_space plan.runtime)) _ tt (λ e. fail_late-Agrees e e))
          (λ _. available-Agrees _ _ _))
  ]

  plan_of-Agrees :
      (s : Settings) (j : Job) (b : RepoBinding) (timeout : ℤ)
      → StageAgrees (plan_of w s j b timeout)
  unfolding plan_of
  plan_of-Agrees s j b timeout = plan_or-Agrees b _ _

  -- Once the Check Run is open, every path of the job calls `complete`, and with the conclusion that the
  -- job's row records.
  pub run_checked-Agrees :
      (s : Settings) (j : Job) (b : RepoBinding) (timeout : ℤ)
      → EndingAgrees (ending_of w (run_checked w s j b timeout))
  unfolding run_checked
  run_checked-Agrees s j b timeout = seq-Agrees (preflight w j) _ (preflight-Agrees j) (λ _.
      seq-Agrees (path_filter w j b) _ (path_filter-Agrees j b) (λ note.
        seq-Agrees (fetch w) _ fetch-Agrees (λ _.
          seq-Agrees (plan_of w s j b timeout) _ (plan_of-Agrees s j b timeout) (λ plan.
            seq-Agrees (image_of w plan) _ (image_of-Agrees plan) (λ _.
              conclude-Agrees w.encode w.ctx_at_end (seen_done w) note
                (run_steps w.run w.check_size 0 plan.steps) (λ h. ground (arith, h)))))))

  -- A job whose log, App and client are there and whose Check Run was opened, anew or again, calls
  -- `complete` on every path, with the conclusion that its row records; whether GitHub takes the request
  -- is not said. The conclusion is "cancelled" only if the job's context was done behind the clone or behind
  -- the steps.
  pub run_job-Agrees :
      (s : Settings) (j : Job) (bindings : List RepoBinding) (timeout : ℤ) (name : Text) (id : ℕ)
      → open_job w j ≡ proceed name
      → open_check_run w j ≡ proceed id
      → Agrees (seen_done w) (run_job w s j bindings timeout)
  unfolding run_job
  run_job-Agrees s j bindings timeout name id opened reported =
      rw (opened, reported) (run_checked-Agrees s j (binding_of w j bindings) timeout)

  -- A job that was interrupted keeps the Check Run that it had: if GitHub reopens that one, no other
  -- is created.
  pub open_check_run_reused :
      (j : Job)
      → (j.check_run_id == 0) ≡ false
      → w.reopen_error ≡ none
      → open_check_run w j ≡ proceed j.check_run_id
  unfolding open_check_run reopen_run
  open_check_run_reused j h k = rw (h, k) refl

accepted-none :
    (answer : Text × Text → Option Text) (report : Option (Text × Text))
    → ((x : Text × Text) → is_some (answer x) ≡ true)
    → accepted answer report ≡ none
accepted-none answer none h = refl
accepted-none answer (some x) h = go (answer x) (h x)
  where
    go : (o : Option Text) → is_some o ≡ true → elim o [ none ↦ some x | some e ↦ none ] ≡ none
    go none e = cc
    go (some a) e = refl

unsent_done :
    (w : World) (ctx : Option CtxErr) (e : Ending)
    → ((c : CtxErr) (x : Text × Text) → is_some (w.complete_check_run (some c) x) ≡ true)
    → w.ctx_at_complete ≡ ctx
    → is_some ctx ≡ true
    → sent w e ≡ none
unfolding sent
unsent_done w none e refuses at h = cc
unsent_done w (some c) e refuses at h =
    ap (λ k. accepted (w.complete_check_run k) e.reported) at
    ∙ accepted-none (w.complete_check_run (some c)) e.reported (refuses c)

-- If CompleteCheckRun fails under a context that is done, and a context that is done stays so, then a job
-- with an opened Check Run that its row records with the conclusion "cancelled" leaves the Check Run
-- without a conclusion: GitHub takes no completion of it.
pub run_job-unsent :
    (w : World) (s : Settings) (j : Job) (bindings : List RepoBinding) (timeout : ℤ) (name : Text)
    (id : ℕ)
    → ((c : CtxErr) (x : Text × Text) → is_some (w.complete_check_run (some c) x) ≡ true)
    → (seen_done w ≡ true → is_some w.ctx_at_complete ≡ true)
    → open_job w j ≡ proceed name
    → open_check_run w j ≡ proceed id
    → str_eq (run_job w s j bindings timeout).recorded.conclusion (codes "cancelled") ≡ true
    → sent w (run_job w s j bindings timeout) ≡ none
run_job-unsent w s j bindings timeout name id refuses stays opened reported h =
    unsent_done w w.ctx_at_complete (run_job w s j bindings timeout) refuses refl
      (stays ((run_job-Agrees w s j bindings timeout name id opened reported).cause h))
