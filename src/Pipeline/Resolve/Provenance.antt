-- ===== src/Pipeline/Resolve/Provenance.antt =====
-- Every value of a plan carries its origin.
use openpreflight.Prelude.{ℕ, ◌≡◌, [], ◌∷◌, ◌++◌, Option, arith, is_nil, if◌then◌else◌}
use openpreflight.Go.Strings.{Text, codes}
use openpreflight.Go.Duration.{duration_string}
use openpreflight.Pipeline.Types.{
  Origin, Plan, Spec, Inputs, ok, or_default, pipeline_file_name, source_settings, source_default,
  record_origin,
}
use openpreflight.Pipeline.Checkout.{Checkout, Externals}
use openpreflight.Pipeline.Spec.{load_spec}
use openpreflight.Pipeline.Resolve.{
  record_runtime, spec_runtime, plan_start, plan_header, resolve, fork_runtime_source,
}
use openpreflight.Pipeline.Resolve.Inversion.{step_origins, resolve_steps-Extends, resolve-Resolved}

abbrev pub origin : Text → Text → Text → Origin
origin field value source = record { field = field; value = value; source = source }

-- The value that stands for a runtime: an image, or the worker process.
abbrev pub shown_runtime : Text → Text
shown_runtime runtime = if is_nil runtime then codes "worker process" else runtime

-- The source that goes with a runtime, given the pipeline file and what it sets.
abbrev pub runtime_source : Text → Text → Text → Text
runtime_source file set runtime =
    if is_nil runtime then source_default else if is_nil set then fork_runtime_source else file

record_runtime-origins :
    (file : Text) (inp : Inputs) (p : Plan)
    → (record_runtime file inp p).origins
      ≡ p.origins
        ++ origin
            (codes "runtime")
            (shown_runtime (record_runtime file inp p).runtime)
            (runtime_source file p.runtime (record_runtime file inp p).runtime)
          ∷ []
unfolding record_runtime record_origin
record_runtime-origins file inp p = ground arith

plan_header-origins :
    (file : Text) (loaded : Option Spec) (inp : Inputs) (timed : ℕ × Text)
    → (plan_header file loaded inp timed).origins
      ≡ origin (codes "pipeline_file") file (or_default inp.pipeline_file_source source_settings)
        ∷ origin (codes "timeout") (duration_string timed.0) timed.1
        ∷ origin
            (codes "runtime")
            (shown_runtime (plan_header file loaded inp timed).runtime)
            (runtime_source file (spec_runtime loaded) (plan_header file loaded inp timed).runtime)
        ∷ []
unfolding plan_header plan_start record_origin
plan_header-origins file loaded inp timed =
    record_runtime-origins file inp (plan_start file loaded inp timed)

plan_header-timeout :
    (file : Text) (loaded : Option Spec) (inp : Inputs) (timed : ℕ × Text)
    → (plan_header file loaded inp timed).timeout ≡ timed.0
unfolding plan_header plan_start record_runtime record_origin
plan_header-timeout file loaded inp timed = ground arith

-- The origins of a plan are, in this order and with nothing else: the pipeline file's name; the
-- plan's timeout, from some source; the plan's runtime, from the built-in default if it is empty,
-- else from the pipeline file if that file sets a runtime, else from the settings' fork default;
-- and each step with its command, from the plan's source.
pub resolve-origins :
    (ext : Externals) (repo : Checkout) (inp : Inputs) (plan : Plan)
    → resolve ext repo inp ≡ ok plan
    → (loaded : Option Spec) × (timeout_source : Text) × (load_spec ext repo
          (pipeline_file_name inp.pipeline_file)
        ≡ ok loaded)
      × (plan.origins
          ≡ origin
              (codes "pipeline_file")
              (pipeline_file_name inp.pipeline_file)
              (or_default inp.pipeline_file_source source_settings)
            ∷ origin (codes "timeout") (duration_string plan.timeout) timeout_source
            ∷ origin (codes "runtime") (shown_runtime plan.runtime) (
                runtime_source
                  (pipeline_file_name inp.pipeline_file)
                  (spec_runtime loaded)
                  plan.runtime)
            ∷ step_origins plan.source plan.steps)
resolve-origins ext repo inp plan h =
    let r = resolve-Resolved ext repo inp h in
    let file = pipeline_file_name inp.pipeline_file in
    let e =
      resolve_steps-Extends ext repo file r.loaded inp.overrides
        (plan_header file r.loaded inp r.timed) r.chooses in
    (
      r.loaded,
      r.timed.1,
      r.loads,
      cc (
        e.origins,
        e.timeout,
        e.runtime,
        plan_header-origins file r.loaded inp r.timed,
        plan_header-timeout file r.loaded inp r.timed,
      ),
    )
