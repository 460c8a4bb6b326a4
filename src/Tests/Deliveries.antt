-- ===== src/Tests/Deliveries.antt =====
-- Webhook deliveries of internal/api and internal/webhook.
use openpreflight.Prelude.{
  ◌≤◌, ◌≡◌, refl, true, false, [], ◌∷◌, ◌++◌, Option, none, some, pos, arith, count,
}
use openpreflight.Go.Strings.{Text, codes, str_eq}
use openpreflight.Store.Models.{Settings, RepoBinding, in_progress, in_flight_status}
use openpreflight.Store.Jobs.{Tables, JobInput, for_suite}
use openpreflight.Queue.Runner.{Runner}
use openpreflight.Webhook.Payload.{
  RepoRef, CheckSuitePayload, RawPayload, Event, Parsed, actionable, requested, rerequested,
  event_check_suite, parse,
}
use openpreflight.Webhook.Payload.Forks.{IsEvent, parse-IsEvent}
use openpreflight.Api.Webhook.{
  App, Server, Request, Response, queued_job, unauthorized, handle_webhook, admit,
}
use openpreflight.Api.Webhook.Guards.{Guarded, handle_webhook-Guarded}
use openpreflight.Api.Webhook.Admission.{live, admit-live}
use openpreflight.Tests.Jobs.{row}

abbrev suite : CheckSuitePayload
suite = record {
  id = 3;
  head_sha = codes "c0ffee0";
  head_branch = some (codes "main");
  before = none;
  pull_requests = [];
}

abbrev payload : RawPayload
payload = record {
  action = codes "rerequested";
  check_suite = some suite;
  check_run = none;
  repository = record { id = 4; full_name = codes "a/b" };
  installation_id = 9;
  sender = codes "octocat";
}

abbrev decode : Text → Option RawPayload
decode body = some payload

abbrev event : Event
event = record {
  name = codes "check_suite";
  action = codes "rerequested";
  repo = codes "a/b";
  sha = codes "c0ffee0";
  base_sha = [];
  branch = codes "main";
  installation_id = 9;
  check_run_app_id = 0;
  check_suite_id = 3;
  is_fork = false;
  pull_number = 0;
  sender = codes "octocat";
}

event-parsed : parse decode (codes "check_suite") (codes "{}") ≡ actionable event
unfolding parse str_eq openpreflight.Go.Strings.trim_prefix openpreflight.Webhook.Payload.is_fork
event-parsed = refl

parse-IsEvent_example : IsEvent payload event
parse-IsEvent_example =
    parse-IsEvent decode (codes "check_suite") (codes "{}") payload event refl event-parsed

abbrev pub settings : Settings
settings = record {
  public_base_url = [];
  default_check_name = [];
  default_pipeline_file = [];
  default_timeout_seconds = pos 900;
  max_concurrent_jobs = pos 2;
  max_log_bytes = pos 0;
  max_workspace_bytes = pos 0;
  log_retention_days = pos 30;
  skip_fork_prs = true;
  default_runtime = [];
}

abbrev binding : RepoBinding
binding = record {
  id = 1;
  github_app_id = 1;
  coolify_instance_id = 0;
  repo = codes "A/b";
  enabled = true;
  branches = codes "main, release/*";
  paths = [];
  check_name = [];
  pipeline_file = [];
  timeout_seconds = pos 0;
  install_cmd = [];
  test_cmd = [];
  build_cmd = [];
  shareable_logs = false;
  on_empty_pipeline = [];
  created_at = [];
  updated_at = [];
}

abbrev app : App
app = record { id = 1; app_id = 77; webhook_secret = some (codes "s3cret") }

abbrev server : Server
server = record {
  app_by_slug = λ slug. some app;
  settings = settings;
  bindings = binding ∷ [];
  docker_available = false;
}

-- A stand-in for the HMAC: the secret before the body.
abbrev mac : Text → Text → Text
mac secret body = secret ++ body

abbrev hex : Text → Option Text
hex s = some s

abbrev request : Request
request = record {
  slug = codes "ci";
  body = some (codes "{}");
  signature = codes "sha256=s3cret{}";
  event_name = codes "check_suite";
  delivery_id = codes "d1";
}

abbrev runner : Runner
runner = record {
  tables = record {
    jobs = row (codes "r1") in_progress (codes "2026-01-01") ∷ [];
    deliveries = [];
  };
  running = codes "r1" ∷ [];
  signalled = [];
}

handle_webhook-Guarded_example :
    Guarded mac hex decode
      (codes "r9")
      (codes "2026-01-02")
      server
      request
      runner
      (handle_webhook mac hex decode (codes "r9") (codes "2026-01-02") server request runner)
handle_webhook-Guarded_example =
    handle_webhook-Guarded mac hex decode (codes "r9") (codes "2026-01-02") server request runner

delivery-queued :
    (handle_webhook mac hex decode (codes "r9") (codes "2026-01-02") server request runner).0
    ≡ queued_job (codes "r9") []
unfolding handle_webhook openpreflight.Webhook.Signature.verify_signature parse
    openpreflight.Store.Bindings.enabled_binding openpreflight.Go.Strings.lower
    openpreflight.Store.Bindings.branch_allowed openpreflight.Store.Bindings.split_list
    openpreflight.Store.Jobs.in_flight_job_for_delivery openpreflight.Store.Jobs.newest
    openpreflight.Store.Jobs.in_flight_job_for_suite in_flight_status
    openpreflight.Store.Jobs.enqueue_job openpreflight.Store.Jobs.in_flight_jobs_for_ref
    openpreflight.Queue.Runner.cancel_job openpreflight.Api.Webhook.skip_reason_of
    openpreflight.Webhook.Payload.is_fork
delivery-queued = refl

abbrev inp : JobInput
inp = record {
  binding_id = 1;
  github_app_id = 1;
  repo = codes "a/b";
  sha = codes "c0ffee0";
  base_sha = [];
  ref = codes "main";
  event = codes "check_suite.rerequested";
  delivery_id = codes "d1";
  installation_id = 9;
  check_suite_id = 3;
  check_name = [];
  shareable_logs = false;
  is_fork = false;
  pull_number = 0;
  skip_reason = [];
}

one-in_flight : count (for_suite 1 (codes "a/b") (codes "c0ffee0")) runner.tables.jobs ≡ 1
unfolding str_eq in_flight_status
one-in_flight = refl

admit-live_example :
    live 1
      (codes "a/b")
      (codes "c0ffee0")
      (admit (codes "r9") (codes "2026-01-02") (codes "rerequested") inp runner).1
    ≤ 1
admit-live_example =
    admit-live (codes "r9") (codes "2026-01-02") inp (codes "rerequested") runner (refl, tt) refl
      refl (omega (arith, one-in_flight))
