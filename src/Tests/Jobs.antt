-- ===== src/Tests/Jobs.antt =====
-- The job table of internal/store on three rows.
use openpreflight.Prelude.{
  ℕ, ◌≡◌, refl, true, false, not, ◌||◌, List, [], ◌∷◌, map, some, filter, pos, arith, is_nil,
}
use openpreflight.Go.Strings.{Text, codes, str_eq}
use openpreflight.Store.Models.{
  Job, Status, queued, in_progress, success, in_flight, in_flight_status, RepoBinding,
}
use openpreflight.Store.Jobs.{
  Tables, claim_next_job, oldest, started, update_job, text_ltb, requeue_stale_jobs, prune_jobs,
}
use openpreflight.Store.Jobs.Rows.{UniqueIds}
use openpreflight.Store.Jobs.Claim.{Claims, claim_next_job-Claims}
use openpreflight.Store.Jobs.Recovery.{Recovered, requeue-Recovered}
use openpreflight.Store.Jobs.Retention.{prune_jobs_lem}
use openpreflight.Store.Clock.{format_time}
use openpreflight.Store.Clock.Order.{format_time_reversed}
use openpreflight.Store.Bindings.{path_allowed, matched_paths, split_list}

abbrev pub row : Text → Status → Text → Job
row id status created = record {
  id = id;
  binding_id = 1;
  github_app_id = 1;
  repo = codes "a/b";
  sha = codes "c0ffee0";
  base_sha = [];
  ref = codes "main";
  event = codes "check_suite.requested";
  delivery_id = [];
  installation_id = 9;
  check_suite_id = 3;
  check_run_id = 0;
  check_name = [];
  status = status;
  conclusion = [];
  steps_json = codes "[]";
  error_text = [];
  log_bytes = 0;
  shareable_logs = false;
  is_fork = false;
  pull_number = 0;
  skip_reason = [];
  runtime = [];
  plan_source = [];
  plan_origins = [];
  created_at = created;
  started_at = [];
  finished_at = [];
}

abbrev pub rows : List Job
rows =
    row (codes "r1") success (codes "2026-01-01")
    ∷ row (codes "r2") queued (codes "2026-01-03")
    ∷ row (codes "r3") queued (codes "2026-01-02")
    ∷ []

abbrev pub claimed_row : Job
claimed_row = started (codes "2026-01-04") (row (codes "r3") queued (codes "2026-01-02"))

abbrev pub claimed_rows : List Job
claimed_rows =
    row (codes "r1") success (codes "2026-01-01")
    ∷ row (codes "r2") queued (codes "2026-01-03")
    ∷ claimed_row
    ∷ []

pub rows-UniqueIds : UniqueIds rows
unfolding str_eq
rows-UniqueIds = (refl, (refl, (refl, tt)))

pub rows-claim : claim_next_job (codes "2026-01-04") rows ≡ some (claimed_row, claimed_rows)
unfolding claim_next_job oldest update_job text_ltb str_eq
rows-claim = refl

claim_next_job-Claims_example : Claims (codes "2026-01-04") rows claimed_row claimed_rows
claim_next_job-Claims_example =
    claim_next_job-Claims (codes "2026-01-04") rows claimed_row claimed_rows rows-UniqueIds
      rows-claim

abbrev tables : Tables
tables = record { jobs = rows; deliveries = [] }

prune_jobs_example :
    ((prune_jobs (codes "2026-01-03") tables).1.jobs
      ≡ filter (λ j. in_flight j || not (text_ltb j.created_at (codes "2026-01-03"))) rows)
    × ((prune_jobs (codes "2026-01-03") tables).1.deliveries
        ≡ filter (λ d. not (text_ltb d.received_at (codes "2026-01-03"))) [])
    × ((prune_jobs (codes "2026-01-03") tables).0
        ≡ map
            (λ (j : Job). j.id)
            (filter
              (λ j. not (in_flight j || not (text_ltb j.created_at (codes "2026-01-03"))))
              rows))
prune_jobs_example = prune_jobs_lem (codes "2026-01-03") tables rows-UniqueIds

pruned_ids : (prune_jobs (codes "2026-01-03") tables).0 ≡ codes "r1" ∷ []
unfolding prune_jobs text_ltb in_flight_status
pruned_ids = refl

abbrev noon : ℕ → Text
noon seconds = codes "2026-01-01T12:00:00"

format_time_reversed_example :
    text_ltb
      (format_time noon (record { seconds = 0; nanos = 5 }))
      (format_time noon (record { seconds = 0; nanos = 0 }))
    ≡ true
format_time_reversed_example = format_time_reversed noon 0 5 (omega arith) (omega arith)

abbrev pub binding : RepoBinding
binding = record {
  id = 1;
  github_app_id = 1;
  coolify_instance_id = 0;
  repo = codes "a/b";
  enabled = true;
  branches = codes "main";
  paths = codes "src/**, *.md";
  check_name = [];
  pipeline_file = [];
  timeout_seconds = pos 0;
  install_cmd = [];
  test_cmd = [];
  build_cmd = [];
  shareable_logs = false;
  on_empty_pipeline = [];
  created_at = [];
  updated_at = [];
}

binding-patterns : split_list (codes "src/**, *.md") ≡ codes "src/**" ∷ codes "*.md" ∷ []
unfolding split_list
binding-patterns = refl

binding-has_patterns : is_nil (split_list binding.paths) ≡ false
unfolding split_list
binding-has_patterns = refl

path_allowed_tests :
    (path_allowed binding (codes "docs/a.txt" ∷ codes "/src/a.go" ∷ []) ≡ true)
    × (path_allowed binding (codes "docs/a.md" ∷ []) ≡ false)
unfolding path_allowed split_list openpreflight.Go.Strings.trim_prefix
    openpreflight.Store.Bindings.path_matches openpreflight.Go.Strings.has_suffix str_eq
    openpreflight.Go.Strings.trim_suffix openpreflight.Go.PathMatch.matches
path_allowed_tests = (refl, refl)

abbrev interrupted : List Job
interrupted = row (codes "r4") in_progress (codes "2026-01-04") ∷ rows

requeue-Recovered_example :
    Recovered interrupted (requeue_stale_jobs interrupted).0 (requeue_stale_jobs interrupted).1
requeue-Recovered_example = requeue-Recovered interrupted
