-- ===== src/Pipeline/Resolve/Precedence.antt =====
-- Which layer decides the commands, and when there is nothing to run.
use openpreflight.Prelude.{
  ℕ, ◌≡◌, refl, sym, ap, ◌∙◌, ◌↔◌, inl, inr, Bool, true, false, Bool-cases, ◌||◌, [], Option, none,
  some, arith,
}
use openpreflight.Go.Strings.{Text, trim_space}
use openpreflight.Pipeline.Types.{
  Plan, Spec, Overrides, overrides_any, Inputs, nothing_to_run, Result, ok, err, err-injective,
  ◌>>=◌, pipeline_file_name, named, keep_commands,
}
use openpreflight.Pipeline.Checkout.{Checkout, Externals}
use openpreflight.Pipeline.Spec.{load_spec}
use openpreflight.Pipeline.Infer.{Inference, infer, detectors, matched_detectors}
use openpreflight.Pipeline.Infer.Choice.{infer-Reports, infer-ne-nothing, infer-nil}
use openpreflight.Pipeline.Resolve.{
  use_commands, record_each, use_inferred, lower_layers, spec_any, resolve_steps, resolve_timeout,
  plan_header, resolve,
}

-- Whether a pipeline file that is there sets a command.
abbrev pub file_any : Option Spec → Bool
file_any none = false
file_any (some spec) = spec_any spec

-- The stages of `Resolve` behind the pipeline file.
abbrev after_load : Externals → Checkout → Inputs → Option Spec → Result Plan
after_load ext repo inp loaded =
    resolve_timeout ext (pipeline_file_name inp.pipeline_file) loaded inp >>= λ timed.
    resolve_steps ext repo (pipeline_file_name inp.pipeline_file) loaded inp.overrides
      (plan_header (pipeline_file_name inp.pipeline_file) loaded inp timed)

resolve-after_load :
    (ext : Externals) (repo : Checkout) (inp : Inputs) (loaded : Option Spec)
    → load_spec ext repo (pipeline_file_name inp.pipeline_file) ≡ ok loaded
    → resolve ext repo inp ≡ after_load ext repo inp loaded
unfolding resolve
resolve-after_load ext repo inp loaded h = rw h

resolve_steps-decided :
    (ext : Externals) (repo repo' : Checkout) (file : Text) (loaded : Option Spec) (ov : Overrides)
    (p : Plan)
    → (file_any loaded || overrides_any ov) ≡ true
    → resolve_steps ext repo file loaded ov p ≡ resolve_steps ext repo' file loaded ov p
unfolding resolve_steps lower_layers
resolve_steps-decided ext repo repo' file none ov p h = rw h
resolve_steps-decided ext repo repo' file (some spec) ov p h = elim (Bool-cases (spec_any spec)) [
  | inl e ↦ rw e
  | inr e ↦ ground (arith, h, e)
]

-- The project's own files do not count once the pipeline file or the binding sets a command: two
-- checkouts with the same pipeline file have the same result then.
pub resolve_ignores_project :
    (ext : Externals) (repo repo' : Checkout) (inp : Inputs) (loaded : Option Spec)
    → load_spec ext repo (pipeline_file_name inp.pipeline_file) ≡ ok loaded
    → load_spec ext repo' (pipeline_file_name inp.pipeline_file) ≡ ok loaded
    → (file_any loaded || overrides_any inp.overrides) ≡ true
    → resolve ext repo inp ≡ resolve ext repo' inp
resolve_ignores_project ext repo repo' inp loaded h h' any =
    let file = pipeline_file_name inp.pipeline_file in
    let same : after_load ext repo inp loaded ≡ after_load ext repo' inp loaded =
      ap (λ f. resolve_timeout ext file loaded inp >>= f)
        (λ i timed.
          resolve_steps-decided ext repo repo' file loaded inp.overrides
            (plan_header file loaded inp timed) any i) in
    resolve-after_load ext repo inp loaded h
    ∙ (same ∙ sym (resolve-after_load ext repo' inp loaded h'))

resolve_steps-file :
    (ext : Externals) (repo : Checkout) (file : Text) (spec : Spec) (ov ov' : Overrides) (p : Plan)
    → spec_any spec ≡ true
    → resolve_steps ext repo file (some spec) ov p ≡ resolve_steps ext repo file (some spec) ov' p
unfolding resolve_steps
resolve_steps-file ext repo file spec ov ov' p h = rw h

after_load-file :
    (ext : Externals) (repo : Checkout) (inp : Inputs) (spec : Spec) (ov : Overrides)
    → spec_any spec ≡ true
    → after_load ext repo inp (some spec)
      ≡ after_load ext repo (record inp { overrides = ov }) (some spec)
unfolding resolve_timeout plan_header
after_load-file ext repo inp spec ov h =
    let file = pipeline_file_name inp.pipeline_file in
    ap (λ f. resolve_timeout ext file (some spec) inp >>= f)
      (λ i timed.
        resolve_steps-file ext repo file spec inp.overrides ov
          (plan_header file (some spec) inp timed) h i)

-- The binding's commands do not count once the pipeline file sets a command.
pub resolve_ignores_binding :
    (ext : Externals) (repo : Checkout) (inp : Inputs) (spec : Spec) (ov : Overrides)
    → load_spec ext repo (pipeline_file_name inp.pipeline_file) ≡ ok (some spec)
    → spec_any spec ≡ true
    → resolve ext repo inp ≡ resolve ext repo (record inp { overrides = ov })
resolve_ignores_binding ext repo inp spec ov h any =
    resolve-after_load ext repo inp (some spec) h
    ∙ (after_load-file ext repo inp spec ov any
        ∙ sym (resolve-after_load ext repo (record inp { overrides = ov }) (some spec) h))

use_inferred-nothing :
    (i : Inference) (p : Plan) → (use_inferred i p ≡ err nothing_to_run) ↔ (i.steps ≡ [])
unfolding use_inferred
use_inferred-nothing i p = ground arith

lower_layers-nothing :
    (ext : Externals) (repo : Checkout) (ov : Overrides) (p : Plan)
    → (lower_layers ext repo ov p ≡ err nothing_to_run)
      ↔ ((overrides_any ov ≡ false) × (matched_detectors repo detectors ≡ []))
unfolding lower_layers
lower_layers-nothing ext repo ov p = elim (Bool-cases (overrides_any ov)) [
  | inl e ↦ rw e ((λ h. cc), λ h. cc (h.0))
  | inr e ↦ rw e (go (infer ext repo) refl)
]
  where
    go :
        (r : Result Inference)
        → infer ext repo ≡ r
        → ((r >>= λ i. use_inferred i p) ≡ err nothing_to_run)
          ↔ ((false ≡ false) × (matched_detectors repo detectors ≡ []))
    go (err x) e = (
      (λ h. absurd (infer-ne-nothing ext repo (e ∙ ap err (err-injective h)))),
      λ h. absurd (infer-nil ext repo x h.1 e),
    )
    go (ok i) e =
        let (to, from) = use_inferred-nothing i p in
        let empty = (infer-Reports ext repo i e).empty in
        ((λ h. (refl, empty.0 (to h))), λ h. from (empty.1 h.1))

resolve_steps-nothing :
    (ext : Externals) (repo : Checkout) (file : Text) (loaded : Option Spec) (ov : Overrides)
    (p : Plan)
    → (resolve_steps ext repo file loaded ov p ≡ err nothing_to_run) ↔ (
        (file_any loaded ≡ false)
        × (overrides_any ov ≡ false)
        × (matched_detectors repo detectors ≡ []))
unfolding resolve_steps
resolve_steps-nothing ext repo file none ov p =
    let (to, from) = lower_layers-nothing ext repo ov p in
    ((λ h. (refl, (to h).0, (to h).1)), λ h. from (h.1, h.2))
resolve_steps-nothing ext repo file (some spec) ov p = elim (Bool-cases (spec_any spec)) [
  | inl e ↦ rw e ((λ h. cc), λ h. cc (h.0))
  | inr e ↦
      let (to, from) = lower_layers-nothing ext repo ov p in
      rw e ((λ h. (refl, (to h).0, (to h).1)), λ h. from (h.1, h.2))
]

-- Once the pipeline file is read and the timeout accepted, there is nothing to run exactly when
-- the file and the binding set no command and no detector finds its marker in the checkout.
pub resolve_nothing :
    (ext : Externals) (repo : Checkout) (inp : Inputs) (loaded : Option Spec) (timed : ℕ × Text)
    → load_spec ext repo (pipeline_file_name inp.pipeline_file) ≡ ok loaded
    → resolve_timeout ext (pipeline_file_name inp.pipeline_file) loaded inp ≡ ok timed
    → (resolve ext repo inp ≡ err nothing_to_run) ↔ (
        (file_any loaded ≡ false)
        × (overrides_any inp.overrides ≡ false)
        × (matched_detectors repo detectors ≡ []))
resolve_nothing ext repo inp loaded timed h t =
    let file = pipeline_file_name inp.pipeline_file in
    rw (resolve-after_load ext repo inp loaded h, t)
      (resolve_steps-nothing ext repo file loaded inp.overrides (plan_header file loaded inp timed))

-- A command of nothing but spaces counts as set, and is then dropped: where every command of the
-- pipeline file is blank and one is not empty, the plan has no step at all.
pub resolve_blank_commands :
    (ext : Externals) (repo : Checkout) (inp : Inputs) (spec : Spec) (timed : ℕ × Text)
    → load_spec ext repo (pipeline_file_name inp.pipeline_file) ≡ ok (some spec)
    → resolve_timeout ext (pipeline_file_name inp.pipeline_file) (some spec) inp ≡ ok timed
    → spec_any spec ≡ true
    → trim_space spec.install ≡ []
    → trim_space spec.test ≡ []
    → trim_space spec.build ≡ []
    → (plan : Plan) × (resolve ext repo inp ≡ ok plan) × (plan.steps ≡ [])
unfolding resolve_steps use_commands record_each named keep_commands
resolve_blank_commands ext repo inp spec timed h t any i te b =
    let file = pipeline_file_name inp.pipeline_file in
    (
      record (plan_header file (some spec) inp timed) { source = file; steps = [] },
      rw (resolve-after_load ext repo inp (some spec) h, t, any, i, te, b),
      refl,
    )
