-- ===== src/Queue/Summary/Titles.antt =====
-- The titles of the conclusions that the runner reports.
use openpreflight.Prelude.{◌≢◌, Bool-cases, inl, inr, ◌||◌, List, Option, none, some}
use openpreflight.Go.Strings.{Text, codes, str_eq}
use openpreflight.Queue.Steps.{
  Result, StepsRun, CtxErr, is_some, is_deadline, any_timed_out, conclude,
}
use openpreflight.Queue.Summary.{check_title, or_title, title_for, first_failure}

failure_title : (results : List Result) → title_for (codes "failure") results ≢ none
unfolding title_for check_title first_failure str_eq
failure_title results h = go (first_failure results) h
  where
    go : (o : Option Text) → or_title o (codes "failure") ≢ none
    go none h = cc
    go (some t) h = cc

-- Whatever the steps did, the conclusion that is recorded behind them has a title for the Check Run:
-- building it does not panic.
pub title_for-conclude :
    (encode : List Result → Text) (ctx : Option CtxErr) (note : Text) (r : StepsRun)
    → title_for (conclude encode ctx note r).recorded.conclusion r.results ≢ none
unfolding conclude title_for check_title first_failure str_eq
title_for-conclude encode ctx note r = elim (Bool-cases (is_some ctx || any_timed_out r.results)) [
  | inl e ↦ elim (Bool-cases (is_deadline ctx || any_timed_out r.results)) [
    | inl t ↦ rw (e, t) (λ h. cc)
    | inr t ↦ rw (e, t) (λ h. cc)
  ]
  | inr e ↦ elim (Bool-cases r.has_failed) [
    | inl f ↦ rw (e, f) (failure_title r.results)
    | inr f ↦ rw (e, f) (λ h. cc)
  ]
]
