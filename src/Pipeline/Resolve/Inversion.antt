-- ===== src/Pipeline/Resolve/Inversion.antt =====
-- What a plan that `Resolve` returns is made of.
use mathlib.Core.Path.{subst}
use openpreflight.Prelude.{
  ℕ, ◌≡◌, refl, sym, Bool-cases, inl, inr, List, [], ◌∷◌, ◌++◌, append-nil, append_assoc, Option,
  none, some, map, is_nil,
}
use openpreflight.Go.Strings.{Text}
use openpreflight.Pipeline.Types.{
  Step, Origin, Plan, Spec, Overrides, Inputs, ok, >>=-ok, ok-injective, pipeline_file_name,
  record_origin, overrides_any, named, source_binding_commands,
}
use openpreflight.Pipeline.Checkout.{Checkout, Externals}
use openpreflight.Pipeline.Infer.{Inference, infer}
use openpreflight.Pipeline.Spec.{load_spec}
use openpreflight.Pipeline.Resolve.{
  record_each, use_commands, use_inferred, lower_layers, spec_any, resolve_steps, resolve_timeout,
  plan_header, resolve,
}

abbrev pub step_origins : Text → List Step → List Origin
step_origins source ss = map (λ s. record { field = s.name; value = s.command; source = source }) ss

pub record_each_lem :
    (ss : List Step) (source : Text) (p : Plan)
    → record_each ss source p ≡ record p { origins = p.origins ++ step_origins source ss }
unfolding record_each record_origin
record_each_lem [] source p = λ i. record p { origins = sym (append-nil p.origins) i }
record_each_lem (s ∷ ss) source p = rw (record_each_lem ss, append_assoc)

-- What the choice of the commands leaves alone, and what it records.
pub record Extends (p q : Plan) : Type 0 where
  pub origins : q.origins ≡ p.origins ++ step_origins q.source q.steps
  pub timeout : q.timeout ≡ p.timeout
  pub runtime : q.runtime ≡ p.runtime

use_commands-Extends :
    (source : Text) (ss : List Step) (p : Plan) → Extends p (use_commands source ss p)
unfolding use_commands
use_commands-Extends source ss p =
    rw (record_each_lem ss source (record p { source = source; steps = ss }))
      (record { origins = refl; timeout = refl; runtime = refl })

ok-Extends : (p a : Plan) {q : Plan} → Extends p a → ok a ≡ ok q → Extends p q
ok-Extends p a e h = subst (Extends p) (ok-injective h) e

Extends-warnings :
    (p : Plan) (inferred : Inference)
    → Extends p (
        use_commands inferred.source inferred.steps
          (record p { warnings = p.warnings ++ inferred.warnings }))
Extends-warnings p inferred =
    let e =
      use_commands-Extends inferred.source inferred.steps
        (record p { warnings = p.warnings ++ inferred.warnings }) in
    record { origins = e.origins; timeout = e.timeout; runtime = e.runtime }

use_inferred-Extends :
    (inferred : Inference) (p : Plan) {q : Plan} → use_inferred inferred p ≡ ok q → Extends p q
unfolding use_inferred
use_inferred-Extends inferred p {q} h = elim (Bool-cases (is_nil inferred.steps)) [
  | inl e ↦ cc (h, e)
  | inr e ↦
      ok-Extends p
        (use_commands inferred.source inferred.steps
          (record p { warnings = p.warnings ++ inferred.warnings }))
        {q = q} (Extends-warnings p inferred) (rw e at h)
]

lower_layers-Extends :
    (ext : Externals) (repo : Checkout) (ov : Overrides) (p : Plan) {q : Plan}
    → lower_layers ext repo ov p ≡ ok q
    → Extends p q
unfolding lower_layers
lower_layers-Extends ext repo ov p h = elim (Bool-cases (overrides_any ov)) [
  | inl e ↦
      let own =
        use_commands-Extends source_binding_commands (named ov.install ov.test ov.build) p in
      ok-Extends p _ own (rw e at h)
  | inr e ↦
      let (inferred, _, chosen) = >>=-ok (λ i. use_inferred i p) (infer ext repo) (rw e at h) in
      use_inferred-Extends inferred p chosen
]

pub resolve_steps-Extends :
    (ext : Externals) (repo : Checkout) (file : Text) (loaded : Option Spec) (ov : Overrides)
    (p : Plan) {q : Plan}
    → resolve_steps ext repo file loaded ov p ≡ ok q
    → Extends p q
unfolding resolve_steps
resolve_steps-Extends ext repo file none ov p h = lower_layers-Extends ext repo ov p h
resolve_steps-Extends ext repo file (some spec) ov p h = elim (Bool-cases (spec_any spec)) [
  | inl e ↦
      ok-Extends p _ (use_commands-Extends file (named spec.install spec.test spec.build) p)
        (rw e at h)
  | inr e ↦ lower_layers-Extends ext repo ov p (rw e at h)
]

-- The stages that a plan has passed.
pub record Resolved (ext : Externals) (repo : Checkout) (inp : Inputs) (plan : Plan) : Type 0 where
  pub loaded : Option Spec
  pub timed : ℕ × Text
  pub loads : load_spec ext repo (pipeline_file_name inp.pipeline_file) ≡ ok loaded
  pub times : resolve_timeout ext (pipeline_file_name inp.pipeline_file) loaded inp ≡ ok timed
  pub chooses :
      resolve_steps ext repo
        (pipeline_file_name inp.pipeline_file)
        loaded
        inp.overrides
        (plan_header (pipeline_file_name inp.pipeline_file) loaded inp timed)
      ≡ ok plan

pub resolve-Resolved :
    (ext : Externals) (repo : Checkout) (inp : Inputs) {plan : Plan}
    → resolve ext repo inp ≡ ok plan
    → Resolved ext repo inp plan
unfolding resolve
resolve-Resolved ext repo inp h =
    let (loaded, loads, h₁) =
      >>=-ok _ (load_spec ext repo (pipeline_file_name inp.pipeline_file)) h in
    let (timed, times, chooses) =
      >>=-ok _ (resolve_timeout ext (pipeline_file_name inp.pipeline_file) loaded inp) h₁ in
    record { loaded = loaded; timed = timed; loads = loads; times = times; chooses = chooses }
