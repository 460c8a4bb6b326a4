-- ===== src/Pipeline/Resolve/Runtime.antt =====
-- Which executor a plan names, and how long its steps may take.
use openpreflight.Prelude.{ℕ, ◌≡◌, ◌∙◌, sym, ◌↔◌, ◌⊎◌, false, [], Option, arith}
use openpreflight.Go.Strings.{Text, trim_space}
use openpreflight.Pipeline.Types.{
  Plan, Spec, Inputs, ok, ok-injective, pipeline_file_name, record_origin,
}
use openpreflight.Pipeline.Checkout.{Checkout, Externals}
use openpreflight.Pipeline.Spec.{load_spec}
use openpreflight.Pipeline.Resolve.{record_runtime, spec_runtime, plan_start, plan_header, resolve}
use openpreflight.Pipeline.Resolve.Inversion.{resolve_steps-Extends, resolve-Resolved}

record_runtime-empty :
    (file : Text) (inp : Inputs) (p : Plan)
    → ((record_runtime file inp p).runtime ≡ [])
      ↔ ((p.runtime ≡ []) × ((inp.is_fork ≡ false) ⊎ (trim_space inp.default_runtime ≡ [])))
unfolding record_runtime record_origin
record_runtime-empty file inp p = ground arith

plan_header-empty :
    (file : Text) (loaded : Option Spec) (inp : Inputs) (timed : ℕ × Text)
    → ((plan_header file loaded inp timed).runtime ≡ []) ↔ (
        (spec_runtime loaded ≡ [])
        × ((inp.is_fork ≡ false) ⊎ (trim_space inp.default_runtime ≡ [])))
unfolding plan_header plan_start record_origin
plan_header-empty file loaded inp timed =
    record_runtime-empty file inp (plan_start file loaded inp timed)

-- A plan runs in the worker process exactly when the pipeline file sets no runtime and, besides,
-- the commit is not from a fork or the settings' default runtime is blank.
pub resolve-runtime :
    (ext : Externals) (repo : Checkout) (inp : Inputs) (loaded : Option Spec) (plan : Plan)
    → load_spec ext repo (pipeline_file_name inp.pipeline_file) ≡ ok loaded
    → resolve ext repo inp ≡ ok plan
    → (plan.runtime ≡ []) ↔ (
        (spec_runtime loaded ≡ [])
        × ((inp.is_fork ≡ false) ⊎ (trim_space inp.default_runtime ≡ [])))
resolve-runtime ext repo inp loaded plan l h =
    let r = resolve-Resolved ext repo inp h in
    let file = pipeline_file_name inp.pipeline_file in
    let e =
      resolve_steps-Extends ext repo file r.loaded inp.overrides
        (plan_header file r.loaded inp r.timed) r.chooses in
    rw (e.runtime, ok-injective (sym l ∙ r.loads)) (plan_header-empty file r.loaded inp r.timed)
