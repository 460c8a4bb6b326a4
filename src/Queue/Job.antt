-- ===== src/Queue/Job.antt =====
-- `runJob` of internal/queue/runner.go. What the surroundings answer is the record `World`: each of
-- GitHub, git, the file system, Docker and the executor by its result. The messages of the log are
-- left out; the texts that the row and the Check Run get are kept, but for the code that formats a
-- pipeline's error. A default timeout below zero, which an overflow can make, counts as zero.
pub mod Endings
use openpreflight.Prelude.{
  ℕ, zero, suc, ◌≡◌, refl, Bool, true, false, not, ◌&&◌, ◌||◌, List, [], ◌∷◌, ◌++◌, Option, none,
  some, ℤ, pos, negsuc, pos_part, is_positive, ltb, ◌==◌, if◌then◌else◌, is_nil, length,
}
use openpreflight.Go.Strings.{Text, codes, str_eq, trim_space}
use openpreflight.Go.Decimal.{itoa}
use openpreflight.Pipeline.Types.{Step, Plan, Inputs, Error, layer}
use openpreflight.Pipeline.Types
use openpreflight.Pipeline.Checkout.{Checkout, Externals}
use openpreflight.Pipeline.Resolve.{resolve}
use openpreflight.Store.Models.{
  Job, Settings, RepoBinding, skipped, failure, on_empty_pipeline_fail, skip_reason_path_filter,
  skip_reason_no_pipeline,
}
use openpreflight.Store.Jobs.{Outcome}
use openpreflight.Store.Bindings.{binding, matched_paths}
use openpreflight.Queue.Steps.{
  Result, CtxErr, is_some, Ending, StepsRun, run_steps, conclude, cancelled_outcome,
  conclusion_for_ctx, fail_outcome, first_non_empty,
}
use openpreflight.Queue.Summary.{path_filter_diagnostic, skip_explanation}
use openpreflight.Queue.Files.{CommitFiles, changed_paths}

-- The result of a call: a value, or the text of its error.
pub data Attempt (A : Type 0) : Type 0 where
  got : A → Attempt A
  refused : Text → Attempt A

pub record World : Type 0 where
  pub log_error : Option Text
  pub app_check_name : Attempt Text
  pub client_error : Option Text
  pub reopen_error : Option Text
  pub create_check_run : Attempt ℕ
  pub token : Attempt Text
  pub compare_files : Text → Text → Attempt CommitFiles
  pub commit_files : Text → Attempt CommitFiles
  pub prepare_error : Option Text
  pub clone_error : Option Text
  pub ctx_at_clone : Option CtxErr
  pub check_size_at_clone : Option Text
  pub checkout : Checkout
  pub externals : Externals
  pub message : Error → Text
  pub valid_image : Text → Option Text
  pub docker_available : Text → Bool
  pub run : ℕ → Step → Result
  pub check_size : ℕ → Option Text
  pub ctx_at_end : Option CtxErr
  pub ctx_at_complete : Option CtxErr
  pub complete_check_run : Option CtxErr → Text × Text → Option Text
  pub encode : List Result → Text

-- A part of `runJob`: it goes on with a value, or returns with the job ended.
pub data Stage (A : Type 0) : Type 0 where
  proceed : A → Stage A
  ended : Ending → Stage A

infixl 5 ◌>>=◌
abbrev pub ◌>>=◌ : {A B : Type 0} → Stage A → (A → Stage B) → Stage B
proceed a >>= f = f a
ended e >>= f = ended e

abbrev pub ok_or : {A : Type 0} → Option Text → (Text → Ending) → A → Stage A
ok_or none end_ a = proceed a
ok_or (some e) end_ a = ended (end_ e)

abbrev pub got_or : {A : Type 0} → Attempt A → (Text → Ending) → Stage A
got_or (got a) end_ = proceed a
got_or (refused e) end_ = ended (end_ e)

abbrev pub no_steps : Text
no_steps = codes "[]"

abbrev pub skipped_ending : Text → Text → Ending
skipped_ending reason note = record {
  recorded = record {
    status = skipped;
    conclusion = codes "skipped";
    steps_json = no_steps;
    error_text = [];
    skip_reason = reason;
  };
  reported = some (codes "skipped", note);
}

abbrev pub too_large_ending : Text → Ending
too_large_ending e = record {
  recorded = record {
    status = failure;
    conclusion = codes "failure";
    steps_json = no_steps;
    error_text = e;
    skip_reason = [];
  };
  reported = some (codes "failure", e);
}

module _ (w : World) where
  -- `fail` before there is a Check Run, and `fail` with the completion of the Check Run.
  unfoldable pub fail_early : Text → Ending
  unfolding fail_outcome
  fail_early msg = record { recorded = fail_outcome w.encode [] [] msg; reported = none }

  unfoldable pub fail_late : Text → Text → Ending
  unfolding fail_outcome
  fail_late msg note = record {
    recorded = fail_outcome w.encode [] [] msg;
    reported = some (codes "failure", note);
  }

  abbrev pub no_token : Text → Ending
  no_token e = let msg = codes "could not mint an installation token: " ++ e in fail_late msg msg

  -- The log, the App and its client: the check name of the App.
  unfoldable pub open_job : Job → Stage Text
  unfolding fail_early
  open_job j = do
    _ ← ok_or w.log_error (λ e. fail_early (codes "could not open log file: " ++ e)) tt
    name ← got_or w.app_check_name (λ e.
        fail_early (codes "github app " ++ (itoa j.github_app_id ++ (codes " is gone: " ++ e))))
    ok_or w.client_error (λ e. fail_early e) name

  -- `checkName`.
  unfoldable pub check_name_of : Settings → Job → Text → Text
  unfolding first_non_empty
  check_name_of s j app_name =
      if is_nil j.check_name
      then first_non_empty (app_name ∷ s.default_check_name ∷ codes "openpreflight" ∷ [])
      else j.check_name

  create_run : Stage ℕ
  unfolding fail_early
  create_run =
      got_or w.create_check_run (λ e. fail_early (codes "could not create the Check Run: " ++ e))

  reopen_run : ℕ → Option Text → Stage ℕ
  unfolding create_run
  reopen_run id none = proceed id
  reopen_run id (some e) = create_run

  -- The Check Run that the job reports to.
  unfoldable pub open_check_run : Job → Stage ℕ
  unfolding create_run reopen_run
  open_check_run j =
      if j.check_run_id == 0 then create_run else reopen_run j.check_run_id w.reopen_error

  -- A job that its webhook decided not to run.
  unfoldable pub preflight : Job → Stage Unit
  unfolding skip_explanation
  preflight j =
      if is_nil j.skip_reason
      then proceed tt
      else ended (skipped_ending j.skip_reason (skip_explanation j.skip_reason))

  unevaluated : Text → Stage Text
  unevaluated why = proceed (
      codes "Path filter could not be evaluated ("
      ++ (why ++ codes "); the pipeline was executed."))

  filter_files : RepoBinding → Attempt CommitFiles → Stage Text
  unfolding unevaluated path_filter_diagnostic
  filter_files b (refused e) = unevaluated (codes "the changed-file lookup failed")
  filter_files b (got files) =
      let changed = changed_paths files in
      let matched = matched_paths b changed in
      let diag =
        path_filter_diagnostic b.paths (length changed) (length matched) (not (is_nil matched)) in
      if files.truncated
      then unevaluated (codes "the file list was truncated by GitHub")
      else if is_nil matched
      then ended (skipped_ending skip_reason_path_filter diag)
      else proceed []

  -- The path filter: the note for the Check Run.
  unfoldable pub path_filter : Job → RepoBinding → Stage Text
  unfolding filter_files fail_late
  path_filter j b = if is_nil (trim_space b.paths) then proceed [] else (do
    _ ← got_or w.token (λ e. no_token e)
    filter_files b
        (if is_nil j.base_sha then w.commit_files j.sha else w.compare_files j.base_sha j.sha))

  clone_failed : Text → Option CtxErr → Ending
  unfolding fail_late
  clone_failed e none = let msg = codes "clone failed: " ++ e in fail_late msg msg
  clone_failed e (some c) = record {
    recorded = cancelled_outcome w.encode [] (some c);
    reported = some (conclusion_for_ctx (some c), codes "cancelled or timed out during clone");
  }

  -- The workspace, the token and the clone.
  unfoldable pub fetch : Stage Unit
  unfolding clone_failed fail_late
  fetch = do
    _ ← ok_or w.prepare_error (λ e. fail_late e e) tt
    _ ← got_or w.token (λ e. no_token e)
    _ ← ok_or w.clone_error (λ e. clone_failed e w.ctx_at_clone) tt
    ok_or w.check_size_at_clone (λ e. too_large_ending e) tt

  -- What `Resolve` is called with.
  unfoldable pub inputs_of : Settings → Job → RepoBinding → ℤ → Inputs
  unfolding first_non_empty layer
  inputs_of s j b timeout = record {
    pipeline_file =
        first_non_empty (b.pipeline_file ∷ s.default_pipeline_file ∷ codes ".ci.yml" ∷ []);
    pipeline_file_source =
        layer (not (is_nil b.pipeline_file)) (not (is_nil s.default_pipeline_file));
    overrides = record { install = b.install_cmd; test = b.test_cmd; build = b.build_cmd };
    default_timeout = pos_part timeout;
    default_timeout_source =
        layer (is_positive b.timeout_seconds) (is_positive s.default_timeout_seconds);
    default_runtime = s.default_runtime;
    is_fork = j.is_fork;
  }

  nothing_to_run : RepoBinding → Text → Ending
  unfolding fail_late str_eq
  nothing_to_run b file =
      let msg =
        codes "no "
        ++ (file
            ++ (codes ", no binding commands and no recognisable project "
                ++ 0x2014 ∷ codes " nothing to run")) in
      if str_eq b.on_empty_pipeline on_empty_pipeline_fail
      then fail_late msg (msg ++ (0x0a ∷ 0x0a ∷ codes "This binding sets on_empty_pipeline: fail."))
      else skipped_ending skip_reason_no_pipeline msg

  plan_or : RepoBinding → Text → Types.Result Plan → Stage Plan
  unfolding nothing_to_run fail_late
  plan_or b file (Types.ok plan) = proceed plan
  plan_or b file (Types.err Types.nothing_to_run) = ended (nothing_to_run b file)
  plan_or b file (Types.err e) = ended (fail_late (w.message e) (w.message e))

  unfoldable pub plan_of : Settings → Job → RepoBinding → ℤ → Stage Plan
  unfolding plan_or inputs_of
  plan_of s j b timeout =
      let inp = inputs_of s j b timeout in
      plan_or b inp.pipeline_file (resolve w.externals w.checkout inp)

  -- The image that the steps run in; "" is the worker process.
  unfoldable pub image_of : Plan → Stage Text
  unfolding fail_late
  image_of plan =
      let image = trim_space plan.runtime in
      let msg =
        codes "runtime "
        ++ (0x22 ∷ image
            ++ 0x22
              ∷ codes
                  " needs Docker, but the engine is not reachable (set CI_DOCKER_HOST or mount docker.sock)") in
      let in_docker = (do
        _ ← ok_or (w.valid_image image) (λ e. fail_late e e) tt
        if w.docker_available image then proceed image else ended (fail_late msg msg)) in
      if is_nil image then proceed [] else in_docker

  binding_or_empty : RepoBinding → Option RepoBinding → RepoBinding
  binding_or_empty empty none = empty
  binding_or_empty empty (some b) = b

  abbrev pub empty_binding : RepoBinding
  empty_binding = record {
    id = 0;
    github_app_id = 0;
    coolify_instance_id = 0;
    repo = [];
    enabled = false;
    branches = [];
    paths = [];
    check_name = [];
    pipeline_file = [];
    timeout_seconds = pos 0;
    install_cmd = [];
    test_cmd = [];
    build_cmd = [];
    shareable_logs = false;
    on_empty_pipeline = [];
    created_at = [];
    updated_at = [];
  }

  unfoldable pub binding_of : Job → List RepoBinding → RepoBinding
  unfolding binding_or_empty binding
  binding_of j bindings =
      if j.binding_id == 0
      then empty_binding
      else binding_or_empty empty_binding (binding j.binding_id bindings)

  -- Everything that follows the Check Run's opening.
  unfoldable pub run_checked : Settings → Job → RepoBinding → ℤ → Stage Ending
  run_checked s j b timeout = do
    _ ← preflight j
    note ← path_filter j b
    _ ← fetch
    plan ← plan_of s j b timeout
    _ ← image_of plan
    proceed (conclude w.encode w.ctx_at_end note (run_steps w.run w.check_size 0 plan.steps))

  abbrev pub ending_of : Stage Ending → Ending
  ending_of (proceed e) = e
  ending_of (ended e) = e

  unfoldable pub run_job : Settings → Job → List RepoBinding → ℤ → Ending
  run_job s j bindings timeout = ending_of (
      open_job j >>= λ name.
      open_check_run j >>= λ id. run_checked s j (binding_of j bindings) timeout)

abbrev pub accepted : (Text × Text → Option Text) → Option (Text × Text) → Option (Text × Text)
accepted answer none = none
accepted answer (some report) = elim (answer report) [ none ↦ some report | some e ↦ none ]

-- What GitHub takes of the call of `complete`: CompleteCheckRun gets the job's context, and its error is
-- only written to the log.
unfoldable pub sent : World → Ending → Option (Text × Text)
sent w e = accepted (w.complete_check_run w.ctx_at_complete) e.reported
