-- ===== src/Pipeline/Resolve.antt =====
-- `Resolve` of internal/pipeline/pipeline.go: the plan of a job. A method that changes the plan
-- returns it.
pub mod Commands
pub mod Precedence
pub mod Runtime
pub mod Provenance
pub mod Inversion
use openpreflight.Prelude.{
  ℕ, Bool, not, ◌&&◌, ◌||◌, List, [], ◌∷◌, ◌++◌, Option, none, some, if◌then◌else◌, is_nil,
}
use openpreflight.Go.Strings.{Text, codes, trim_space}
use openpreflight.Go.Duration.{duration_string}
use openpreflight.Pipeline.Types.{
  Spec, Step, Plan, Overrides, overrides_any, Inputs, bad_timeout, nothing_to_run, Result, ok, err,
  ◌>>=◌, source_binding_commands, source_settings, source_default, record_origin, or_default,
  pipeline_file_name, named,
}
use openpreflight.Pipeline.Checkout.{Checkout, Externals}
use openpreflight.Pipeline.Timeout.{DurationResult, duration, refused, parse_timeout}
use openpreflight.Pipeline.Spec.{load_spec}
use openpreflight.Pipeline.Infer.{Inference, infer}

-- `recordSteps`.
pub record_each : List Step → Text → Plan → Plan
unfolding record_origin
record_each [] source p = p
record_each (s ∷ ss) source p = record_each ss source (record_origin p s.name s.command source)

unfoldable pub record_steps : Text → Plan → Plan
unfolding record_each
record_steps source p = record_each p.steps source p

abbrev pub fork_runtime_source : Text
fork_runtime_source = source_settings ++ codes " (default_runtime, for a fork commit)"

unfoldable pub record_runtime : Text → Inputs → Plan → Plan
unfolding record_origin
record_runtime file inp p =
    if not (is_nil p.runtime)
    then record_origin p (codes "runtime") p.runtime file
    else if inp.is_fork && not (is_nil (trim_space inp.default_runtime))
    then record_origin (record p { runtime = trim_space inp.default_runtime }) (codes "runtime")
        (trim_space inp.default_runtime) fork_runtime_source
    else record_origin p (codes "runtime") (codes "worker process") source_default

-- A layer's commands become the steps.
unfoldable pub use_commands : Text → List Step → Plan → Plan
unfolding record_steps
use_commands source steps p = record_steps source (record p { source = source; steps = steps })

use_inferred : Inference → Plan → Result Plan
unfolding use_commands
use_inferred inferred p =
    if is_nil inferred.steps
    then err nothing_to_run
    else ok (
        use_commands inferred.source inferred.steps
          (record p { warnings = p.warnings ++ inferred.warnings }))

-- The binding's commands, else what is inferred.
lower_layers : Externals → Checkout → Overrides → Plan → Result Plan
unfolding use_inferred overrides_any
lower_layers ext repo ov p =
    if overrides_any ov
    then ok (use_commands source_binding_commands (named ov.install ov.test ov.build) p)
    else (do inferred ← infer ext repo; use_inferred inferred p)

unfoldable pub spec_any : Spec → Bool
spec_any spec = not (is_nil spec.install) || not (is_nil spec.test) || not (is_nil spec.build)

unfoldable pub resolve_steps :
    Externals → Checkout → Text → Option Spec → Overrides → Plan → Result Plan
unfolding lower_layers spec_any
resolve_steps ext repo file none ov p = lower_layers ext repo ov p
resolve_steps ext repo file (some spec) ov p =
    if spec_any spec
    then ok (use_commands file (named spec.install spec.test spec.build) p)
    else lower_layers ext repo ov p

-- The timeout and the layer that it comes from.
file_timeout : Text → DurationResult → Result (ℕ × Text)
file_timeout file (duration d) = ok (d, file)
file_timeout file (refused e) = err (bad_timeout file e)

unfoldable pub resolve_timeout : Externals → Text → Option Spec → Inputs → Result (ℕ × Text)
unfolding file_timeout
resolve_timeout ext file none inp =
    ok (inp.default_timeout, or_default inp.default_timeout_source source_settings)
resolve_timeout ext file (some spec) inp =
    if is_nil spec.timeout
    then ok (inp.default_timeout, or_default inp.default_timeout_source source_settings)
    else file_timeout file (parse_timeout ext.float_scale spec.timeout)

unfoldable pub spec_runtime : Option Spec → Text
spec_runtime none = []
spec_runtime (some spec) = trim_space spec.runtime

abbrev pub empty_plan : Plan
empty_plan = record {
  steps = [];
  timeout = 0;
  source = [];
  runtime = [];
  origins = [];
  warnings = [];
}

-- What is decided before the runtime, and then before the steps.
unfoldable pub plan_start : Text → Option Spec → Inputs → ℕ × Text → Plan
unfolding record_origin spec_runtime
plan_start file loaded inp (timeout, timeout_source) =
    record_origin
      (record_origin (record empty_plan { timeout = timeout; runtime = spec_runtime loaded })
        (codes "pipeline_file") file (or_default inp.pipeline_file_source source_settings))
      (codes "timeout") (duration_string timeout) timeout_source

unfoldable pub plan_header : Text → Option Spec → Inputs → ℕ × Text → Plan
unfolding record_runtime plan_start
plan_header file loaded inp timed = record_runtime file inp (plan_start file loaded inp timed)

unfoldable pub resolve : Externals → Checkout → Inputs → Result Plan
unfolding plan_header resolve_timeout resolve_steps
resolve ext repo inp =
    let file = pipeline_file_name inp.pipeline_file in
    do
      loaded ← load_spec ext repo file
      timed ← resolve_timeout ext file loaded inp
      resolve_steps ext repo file loaded inp.overrides (plan_header file loaded inp timed)
