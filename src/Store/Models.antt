-- ===== src/Store/Models.antt =====
-- internal/store/models.go. Row ids and sizes are numbers; a timestamp is the text that its column
-- holds, and "" stands for no time.
use openpreflight.Prelude.{ℕ, Bool, true, false, ◌||◌, List, [], ◌∷◌, ℤ}
use openpreflight.Go.Strings.{Text, codes, str_eq}

-- The closed set of job statuses.
pub data Status : Type 0 where
  queued in_progress success failure skipped cancelled error : Status

pub record Settings : Type 0 where
  pub public_base_url : Text
  pub default_check_name : Text
  pub default_pipeline_file : Text
  pub default_timeout_seconds : ℤ
  pub max_concurrent_jobs : ℤ
  pub max_log_bytes : ℤ
  pub max_workspace_bytes : ℤ
  pub log_retention_days : ℤ
  pub skip_fork_prs : Bool
  pub default_runtime : Text

pub record RepoBinding : Type 0 where
  pub id : ℕ
  pub github_app_id : ℕ
  pub coolify_instance_id : ℕ
  pub repo : Text
  pub enabled : Bool
  pub branches : Text
  pub paths : Text
  pub check_name : Text
  pub pipeline_file : Text
  pub timeout_seconds : ℤ
  pub install_cmd : Text
  pub test_cmd : Text
  pub build_cmd : Text
  pub shareable_logs : Bool
  pub on_empty_pipeline : Text
  pub created_at : Text
  pub updated_at : Text

pub record Job : Type 0 where
  pub id : Text
  pub binding_id : ℕ
  pub github_app_id : ℕ
  pub repo : Text
  pub sha : Text
  pub base_sha : Text
  pub ref : Text
  pub event : Text
  pub delivery_id : Text
  pub installation_id : ℕ
  pub check_suite_id : ℕ
  pub check_run_id : ℕ
  pub check_name : Text
  pub status : Status
  pub conclusion : Text
  pub steps_json : Text
  pub error_text : Text
  pub log_bytes : ℕ
  pub shareable_logs : Bool
  pub is_fork : Bool
  pub pull_number : ℕ
  pub skip_reason : Text
  pub runtime : Text
  pub plan_source : Text
  pub plan_origins : Text
  pub created_at : Text
  pub started_at : Text
  pub finished_at : Text

abbrev pub on_empty_pipeline_skip : Text
on_empty_pipeline_skip = codes "skip"

abbrev pub on_empty_pipeline_fail : Text
on_empty_pipeline_fail = codes "fail"

abbrev pub skip_reason_path_filter : Text
skip_reason_path_filter = codes "path_filter"

abbrev pub skip_reason_no_pipeline : Text
skip_reason_no_pipeline = codes "no_pipeline"

abbrev pub skip_reason_fork_disabled : Text
skip_reason_fork_disabled = codes "fork_disabled"

abbrev pub skip_reason_fork_no_docker : Text
skip_reason_fork_no_docker = codes "fork_no_docker"

abbrev pub skip_reason_fork_no_runtime : Text
skip_reason_fork_no_runtime = codes "fork_no_runtime"

-- The text of a status in its column.
unfoldable pub status_text : Status → Text
status_text queued = codes "queued"
status_text in_progress = codes "in_progress"
status_text success = codes "success"
status_text failure = codes "failure"
status_text skipped = codes "skipped"
status_text cancelled = codes "cancelled"
status_text error = codes "error"

abbrev pub job_statuses : List Status
job_statuses = queued ∷ in_progress ∷ success ∷ failure ∷ skipped ∷ cancelled ∷ error ∷ []

unfoldable pub valid_job_status : Text → Bool
unfolding str_eq
valid_job_status s =
    str_eq s (codes "queued")
    || str_eq s (codes "in_progress")
    || str_eq s (codes "success")
    || str_eq s (codes "failure")
    || str_eq s (codes "skipped")
    || str_eq s (codes "cancelled")
    || str_eq s (codes "error")

unfoldable pub in_flight_status : Status → Bool
in_flight_status queued = true
in_flight_status in_progress = true
in_flight_status _ = false

-- `Job.InFlight`.
abbrev pub in_flight : Job → Bool
in_flight j = in_flight_status j.status

abbrev pub is_queued : Job → Bool
is_queued j = elim (j.status) [ queued ↦ true | _ ↦ false ]

abbrev pub is_in_progress : Job → Bool
is_in_progress j = elim (j.status) [ in_progress ↦ true | _ ↦ false ]
