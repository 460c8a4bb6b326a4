-- ===== src/Queue/Steps.antt =====
-- The step loop at the end of `runJob` in internal/queue/runner.go, and `Result` of
-- internal/executor/executor.go. What runs a step is an argument: `run i s` is the result of step `s`
-- as the i-th, and `check_size i` the error of measuring the workspace behind it.
pub mod Report
use openpreflight.Prelude.{
  ℕ, zero, suc, ◌≡◌, refl, Bool, true, false, not, ◌&&◌, ◌||◌, List, [], ◌∷◌, ◌++◌, Option, none,
  some, ℤ, pos, negsuc, ◌==◌, if◌then◌else◌, is_nil, any,
}
use openpreflight.Go.Strings.{Text, codes, trim_space}
use openpreflight.Pipeline.Types.{Step}
use openpreflight.Store.Models.{success, failure, cancelled, error}
use openpreflight.Store.Jobs.{Outcome}

pub record Result : Type 0 where
  pub name : Text
  pub command : Text
  pub is_skipped : Bool
  pub exit_code : ℤ
  pub duration : ℕ
  pub err : Text
  pub timed_out : Bool

abbrev pub is_zero : ℤ → Bool
is_zero (pos n) = n == 0
is_zero (negsuc n) = false

-- `Result.OK`.
abbrev pub ok : Result → Bool
ok r = r.is_skipped || is_zero r.exit_code && is_nil r.err

-- What the loop leaves: the results, `failed`, and `workspaceErr`.
pub record StepsRun : Type 0 where
  pub results : List Result
  pub has_failed : Bool
  pub workspace_err : Option Text

abbrev pub skipped_result : Step → Result
skipped_result s = record {
  name = s.name;
  command = s.command;
  is_skipped = true;
  exit_code = pos 0;
  duration = 0;
  err = [];
  timed_out = false;
}

abbrev pub too_large : Text → Result → Result
too_large e r = record r { err = e; exit_code = negsuc 0 }

abbrev pub add_result : Result → StepsRun → StepsRun
add_result r rest = record rest { results = r ∷ rest.results }

unfoldable pub skip_steps : List Step → List Result
skip_steps [] = []
skip_steps (s ∷ steps) = skipped_result s ∷ skip_steps steps

-- The rest of the loop once a step has failed.
abbrev pub after_failure : Option Text → List Step → StepsRun
after_failure e steps = record { results = skip_steps steps; has_failed = true; workspace_err = e }

module _ (run : ℕ → Step → Result) (check_size : ℕ → Option Text) where
  -- A step that passed: its result, and the rest of the loop.
  abbrev pub passed : Option Text → Result → List Step → StepsRun → StepsRun
  passed none res steps rest = add_result res rest
  passed (some e) res steps rest = add_result (too_large e res) (after_failure (some e) steps)

  unfoldable pub run_steps : ℕ → List Step → StepsRun
  run_steps i [] = record { results = []; has_failed = false; workspace_err = none }
  run_steps i (s ∷ steps) =
      let rest = run_steps (suc i) steps in
      if ok (run i s)
      then passed (check_size i) (run i s) steps rest
      else add_result (run i s) (after_failure none steps)

-- What `ctx.Err()` is.
pub data CtxErr : Type 0 where
  deadline_exceeded canceled : CtxErr

abbrev pub is_deadline : Option CtxErr → Bool
is_deadline none = false
is_deadline (some deadline_exceeded) = true
is_deadline (some canceled) = false

abbrev pub is_some {ℓ} : {A : Type ℓ} → Option A → Bool
is_some none = false
is_some (some a) = true

-- `anyTimedOut`.
abbrev pub any_timed_out : List Result → Bool
any_timed_out results = any (λ r. r.timed_out) results

-- `conclusionForCtx` and `conclusionForResults`.
abbrev pub conclusion_for_ctx : Option CtxErr → Text
conclusion_for_ctx ctx = if is_deadline ctx then codes "timed_out" else codes "cancelled"

abbrev pub conclusion_for_results : Option CtxErr → List Result → Text
conclusion_for_results ctx results =
    if any_timed_out results || is_deadline ctx then codes "timed_out" else codes "cancelled"

-- `firstNonEmpty`.
unfoldable pub first_non_empty : List Text → Text
first_non_empty [] = []
first_non_empty (v ∷ vals) = if is_nil (trim_space v) then first_non_empty vals else v

-- `errString`.
abbrev pub err_string : Option Text → Text
err_string none = []
err_string (some e) = e

-- The end of a job: what its row records, and with what conclusion and note its Check Run is
-- completed; `none` while there is no Check Run.
pub record Ending : Type 0 where
  pub recorded : Outcome
  pub reported : Option (Text × Text)

abbrev pub failure_note : Text → Option Text → Text
failure_note note none = note
failure_note note (some e) = e

module _ (encode : List Result → Text) where
  -- The columns that `finishCancelled` writes. The cause is `none` for an error that is not a context's.
  abbrev pub cancelled_outcome : List Result → Option CtxErr → Outcome
  cancelled_outcome results cause =
      let conclusion =
        (if is_deadline cause || any_timed_out results
          then codes "timed_out"
          else codes "cancelled") in
      record {
        status = cancelled;
        conclusion = conclusion;
        steps_json = encode results;
        error_text = conclusion;
        skip_reason = [];
      }

  -- The columns that `fail` writes.
  unfoldable pub fail_outcome : List Result → Text → Text → Outcome
  unfolding first_non_empty
  fail_outcome results conclusion msg = record {
    status = error;
    conclusion = first_non_empty (conclusion ∷ codes "failure" ∷ []);
    steps_json = encode results;
    error_text = msg;
    skip_reason = [];
  }

  -- The `switch` behind the loop.
  unfoldable pub conclude : Option CtxErr → Text → StepsRun → Ending
  conclude ctx note r =
      if is_some ctx || any_timed_out r.results
      then record {
        recorded = cancelled_outcome r.results ctx;
        reported = some (conclusion_for_results ctx r.results, note);
      }
      else if r.has_failed
      then record {
        recorded = record {
          status = failure;
          conclusion = codes "failure";
          steps_json = encode r.results;
          error_text = err_string r.workspace_err;
          skip_reason = [];
        };
        reported = some (codes "failure", failure_note note r.workspace_err);
      }
      else record {
        recorded = record {
          status = success;
          conclusion = codes "success";
          steps_json = encode r.results;
          error_text = [];
          skip_reason = [];
        };
        reported = some (codes "success", note);
      }
