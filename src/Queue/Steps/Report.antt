-- ===== src/Queue/Steps/Report.antt =====
-- What the step loop and the report of its results establish.
use openpreflight.Prelude.{
  ℕ, suc, ◌≡◌, refl, ap, Bool, true, false, Bool-cases, inl, inr, ◌||◌, List, [], ◌∷◌, Option, none,
  some, arith, if◌then◌else◌,
}
use openpreflight.Go.Strings.{Text, codes, str_eq}
use openpreflight.Pipeline.Types.{Step}
use openpreflight.Queue.Steps.{
  Result, ok, StepsRun, add_result, skip_steps, CtxErr, is_deadline, is_some, any_timed_out, Ending,
  failure_note, conclude,
}

module _ (run : ℕ → Step → Result) (check_size : ℕ → Option Text) where
  -- What the steps from the i-th on come to. A step that passes, with a workspace that is small enough
  -- behind it, is reported with its result, and the next one runs. A step that fails is reported with its
  -- result; one behind which the workspace is too large, with a result that fails and says why. The
  -- steps behind such a step do not run and are reported as skipped.
  pub data Reports : ℕ → List Step → StepsRun → Type 0 where
    all_done :
        {i : ℕ} → Reports i [] (record { results = []; has_failed = false; workspace_err = none })
    step_passed :
        {i : ℕ} {s : Step} {steps : List Step} {rest : StepsRun}
        → (run i s).name ≡ s.name
        → (run i s).is_skipped ≡ false
        → ok (run i s) ≡ true
        → check_size i ≡ none
        → Reports (suc i) steps rest
        → Reports i (s ∷ steps) (add_result (run i s) rest)
    step_failed :
        {i : ℕ} {s : Step} {steps : List Step}
        → (run i s).name ≡ s.name
        → ok (run i s) ≡ false
        → Reports i (s ∷ steps) (record {
          results = run i s ∷ skip_steps steps;
          has_failed = true;
          workspace_err = none;
        })
    grew_too_large :
        {i : ℕ} {s : Step} {steps : List Step} {r : Result} {e : Text}
        → ok (run i s) ≡ true
        → check_size i ≡ some e
        → r.name ≡ s.name
        → ok r ≡ false
        → r.err ≡ e
        → Reports i
            (s ∷ steps)
            (record { results = r ∷ skip_steps steps; has_failed = true; workspace_err = some e })

-- An ending that calls `complete` with the conclusion that the row records; `is_done` is whether the job's
-- context was done when the job looked at it, without which no job is recorded as cancelled.
pub record Agrees (is_done : Bool) (e : Ending) : Type 0 where
  pub note : Text
  pub same : e.reported ≡ some (e.recorded.conclusion, note)
  pub cause : str_eq e.recorded.conclusion (codes "cancelled") ≡ true → is_done ≡ true

or_comm : (a b : Bool) → (a || b) ≡ (b || a)
or_comm true true = refl
or_comm true false = refl
or_comm false true = refl
or_comm false false = refl

conclusions_agree :
    (a b : Bool) (s t note : Text)
    → ◌≡◌ {A = Option (Text × Text)}
        (some (if a || b then s else t, note))
        (some (if b || a then s else t, note))
conclusions_agree a b s t note = ap (λ c. some (if c then s else t, note)) (or_comm a b)

timed_out-only :
    (past timed done : Bool)
    → str_eq (if past || timed then codes "timed_out" else codes "cancelled") (codes "cancelled")
      ≡ true
    → timed ≡ false
unfolding str_eq
timed_out-only past false done h = refl
timed_out-only true true done h = cc
timed_out-only false true done h = cc

-- Every job that ran its steps calls `complete` with the conclusion that its row records.
pub conclude-Agrees :
    (encode : List Result → Text) (ctx : Option CtxErr) (is_done : Bool) (note : Text)
    (r : StepsRun)
    → (is_some ctx ≡ true → is_done ≡ true)
    → Agrees is_done (conclude encode ctx note r)
unfolding conclude str_eq
conclude-Agrees encode ctx is_done note r stays =
    elim (Bool-cases (is_some ctx || any_timed_out r.results)) [
      | inl e ↦ rw e (record {
        note = note;
        same = conclusions_agree (any_timed_out r.results) (is_deadline ctx) _ _ note;
        cause = λ h. stays (
            ground
              (arith, e, timed_out-only (is_deadline ctx) (any_timed_out r.results) is_done h));
      })
      | inr e ↦ elim (Bool-cases r.has_failed) [
        | inl f ↦
            rw (e, f)
              (record { note = failure_note note r.workspace_err; same = refl; cause = λ h. cc })
        | inr f ↦ rw (e, f) (record { note = note; same = refl; cause = λ h. cc })
      ]
    ]
