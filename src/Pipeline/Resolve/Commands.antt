-- ===== src/Pipeline/Resolve/Commands.antt =====
-- The steps of every plan.
use mathlib.Core.Path.{subst}
use openpreflight.Prelude.{◌≡◌, refl, List, Bool-cases, inl, inr, Option, none, some, is_nil, ◌++◌}
use openpreflight.Go.Strings.{Text}
use openpreflight.Pipeline.Types.{
  Plan, Spec, Step, Overrides, overrides_any, Inputs, ok, ok-injective, >>=-ok, named,
  source_binding_commands, pipeline_file_name,
}
use openpreflight.Pipeline.Checkout.{Checkout, Externals}
use openpreflight.Pipeline.Infer.{Inference, infer}
use openpreflight.Pipeline.Infer.Commands.{AtMostThree, named-AtMostThree, infer-AtMostThree}
use openpreflight.Pipeline.Resolve.{
  use_commands, use_inferred, lower_layers, spec_any, resolve_steps, plan_header, resolve,
}
use openpreflight.Pipeline.Resolve.Inversion.{record_each_lem, resolve-Resolved}

use_commands-steps :
    (source : Text) (ss : List Step) (p : Plan) → (use_commands source ss p).steps ≡ ss
unfolding use_commands
use_commands-steps source ss p = rw record_each_lem refl

of_commands :
    (source : Text) (ss : List Step) (p : Plan) {q : Plan}
    → AtMostThree ss
    → ok (use_commands source ss p) ≡ ok q
    → AtMostThree q.steps
of_commands source ss p h e =
    subst (λ r. AtMostThree r.steps) (ok-injective e) (rw (use_commands-steps source ss p) h)

use_inferred-AtMostThree :
    (i : Inference) (p : Plan) {q : Plan}
    → AtMostThree i.steps
    → use_inferred i p ≡ ok q
    → AtMostThree q.steps
unfolding use_inferred
use_inferred-AtMostThree i p h e = elim (Bool-cases (is_nil i.steps)) [
  | inl n ↦ cc (e, n)
  | inr n ↦
      of_commands i.source i.steps (record p { warnings = p.warnings ++ i.warnings }) h (rw n at e)
]

lower_layers-AtMostThree :
    (ext : Externals) (repo : Checkout) (ov : Overrides) (p : Plan) {q : Plan}
    → lower_layers ext repo ov p ≡ ok q
    → AtMostThree q.steps
unfolding lower_layers
lower_layers-AtMostThree ext repo ov p h = elim (Bool-cases (overrides_any ov)) [
  | inl e ↦
      of_commands source_binding_commands (named ov.install ov.test ov.build) p
        (named-AtMostThree ov.install ov.test ov.build) (rw e at h)
  | inr e ↦
      let (i, inferred, chosen) = >>=-ok (λ i. use_inferred i p) (infer ext repo) (rw e at h) in
      use_inferred-AtMostThree i p (infer-AtMostThree ext repo i inferred) chosen
]

resolve_steps-AtMostThree :
    (ext : Externals) (repo : Checkout) (file : Text) (loaded : Option Spec) (ov : Overrides)
    (p : Plan) {q : Plan}
    → resolve_steps ext repo file loaded ov p ≡ ok q
    → AtMostThree q.steps
unfolding resolve_steps
resolve_steps-AtMostThree ext repo file none ov p h = lower_layers-AtMostThree ext repo ov p h
resolve_steps-AtMostThree ext repo file (some spec) ov p h = elim (Bool-cases (spec_any spec)) [
  | inl e ↦
      of_commands file (named spec.install spec.test spec.build) p
        (named-AtMostThree spec.install spec.test spec.build) (rw e at h)
  | inr e ↦ lower_layers-AtMostThree ext repo ov p (rw e at h)
]

-- The steps of every plan, from whichever layer, are at most an install, a test and a build step,
-- in this order, and none of their commands is blank.
pub resolve-AtMostThree :
    (ext : Externals) (repo : Checkout) (inp : Inputs) (plan : Plan)
    → resolve ext repo inp ≡ ok plan
    → AtMostThree plan.steps
resolve-AtMostThree ext repo inp plan h =
    let r = resolve-Resolved ext repo inp h in
    let file = pipeline_file_name inp.pipeline_file in
    resolve_steps-AtMostThree ext repo file r.loaded inp.overrides
      (plan_header file r.loaded inp r.timed) r.chooses
