-- ===== src/Tests/Console.antt =====
-- A PATCH of the settings, and a rerun of a job.
use openpreflight.Prelude.{◌≡◌, refl, true, false, [], ◌∷◌, ◌++◌, some, pos}
use openpreflight.Go.Strings.{Text, codes, str_eq}
use openpreflight.Store.Models.{Job, Settings, success}
use openpreflight.Store.Settings.{default_settings}
use openpreflight.Store.Jobs.{Tables, new_job}
use openpreflight.Api.Input.{Input, form}
use openpreflight.Api.Settings.{patch_settings, saved}
use openpreflight.Api.Settings.Valid.{IsValid, patch_settings-IsValid}
use openpreflight.Api.Jobs.{rerun_job, accepted, rerun_input}
use openpreflight.Api.Jobs.Rerun.{Reruns, rerun_job-Reruns}
use openpreflight.Tests.Jobs.{row, rows, binding}

-- The runner's form with its box unchecked, no jobs at once and a runtime for forks.
abbrev runner_form : Input
runner_form = form (
    (codes "max_concurrent_jobs", codes "0" ∷ [])
    ∷ (codes "default_runtime", codes "node:22" ∷ [])
    ∷ [])

abbrev patched : Settings
patched = record default_settings {
  max_concurrent_jobs = pos 1;
  skip_fork_prs = false;
  default_runtime = codes "node:22";
}

patches : patch_settings true (some runner_form) default_settings ≡ saved patched
unfolding patch_settings openpreflight.Api.Input.has str_eq openpreflight.Go.Strings.trim_space
    openpreflight.Api.Input.str openpreflight.Executor.Image.valid_image
    openpreflight.Go.Strings.has_prefix openpreflight.Api.Input.bool
    openpreflight.Go.Strings.equal_fold default_settings openpreflight.Api.Input.int
    openpreflight.Go.Decimal.atoi
patches = refl

patch_settings-IsValid_example :
    IsValid true patched × (patched.max_workspace_bytes ≡ default_settings.max_workspace_bytes)
patch_settings-IsValid_example =
    patch_settings-IsValid true (some runner_form) default_settings patched patches

abbrev jobs_table : Tables
jobs_table = record { jobs = rows; deliveries = [] }

abbrev again : Job
again =
    new_job (codes "r4") (codes "2026-01-05")
      (rerun_input (row (codes "r1") success (codes "2026-01-01")) binding)

reruns :
    rerun_job (codes "r4") (codes "2026-01-05") (binding ∷ []) (codes "r1") jobs_table
    ≡ (accepted again, record { jobs = rows ++ again ∷ []; deliveries = [] })
unfolding rerun_job openpreflight.Store.Jobs.job str_eq openpreflight.Store.Bindings.enabled_binding
    openpreflight.Go.Strings.lower openpreflight.Store.Jobs.enqueue_job
reruns = refl

rerun_job-Reruns_example :
    Reruns
      (binding ∷ [])
      (codes "r1")
      jobs_table
      again
      (record { jobs = rows ++ again ∷ []; deliveries = [] })
rerun_job-Reruns_example =
    rerun_job-Reruns (codes "r4") (codes "2026-01-05") (binding ∷ []) (codes "r1") jobs_table
      (record { jobs = rows ++ again ∷ []; deliveries = [] }) again reruns
