-- ===== src/Api/Webhook.antt =====
-- internal/api/webhook.go. The Apps, their secrets and the settings are read from a record; a request
-- is handled on its own, at the time `now` and with the random id `id`. The statuses of the answers
-- are their constructors; an error of the database is not modelled.
pub mod Guards
pub mod Admission
use openpreflight.Prelude.{
  ℕ, ◌*◌, ◌≡◌, refl, Bool, true, false, not, ◌&&◌, ◌||◌, List, [], ◌∷◌, ◌++◌, Option, none, some,
  ◌==◌, if◌then◌else◌, is_nil, take,
}
use openpreflight.Go.Strings.{Text, codes, str_eq, trim_space}
use openpreflight.Store.Models.{
  Job, Settings, RepoBinding, skip_reason_fork_disabled, skip_reason_fork_no_docker,
  skip_reason_fork_no_runtime,
}
use openpreflight.Store.Jobs.{
  Tables, JobInput, StoreResult, done, failed, enqueue_job, in_flight_job_for_delivery,
  in_flight_job_for_suite, in_flight_jobs_for_ref,
}
use openpreflight.Store.Bindings.{enabled_binding, branch_allowed}
use openpreflight.Webhook.Signature.{SignatureError, verify_signature}
use openpreflight.Webhook.Payload.{
  RawPayload, Event, Parsed, actionable, ignored, malformed, PayloadError, event_check_run,
  requested, parse,
}
use openpreflight.Queue.Runner.{Runner, cancel_job}

pub record App : Type 0 where
  pub id : ℕ
  pub app_id : ℕ
  pub webhook_secret : Option Text

-- What the handler reads and does not change.
pub record Server : Type 0 where
  pub app_by_slug : Text → Option App
  pub settings : Settings
  pub bindings : List RepoBinding
  pub docker_available : Bool

-- `body` is `none` if it cannot be read.
pub record Request : Type 0 where
  pub slug : Text
  pub body : Option Text
  pub signature : Text
  pub event_name : Text
  pub delivery_id : Text

pub data Response : Type 0 where
  unauthorized misconfigured bad_body pong server_error other_app no_binding wrong_branch : Response
  payload_rejected : PayloadError → Response
  not_actionable : Text → Response
  already_queued : Text → Response
  -- The job's id, and the reason if it will be skipped.
  queued_job : Text → Text → Response

abbrev pub max_webhook_body : ℕ
max_webhook_body = 5 * 1024 * 1024

-- The loop of `cancelSuperseded`.
unfoldable pub cancel_all : Text → Text → List Job → Runner → Runner
cancel_all now sha [] r = r
cancel_all now sha (j ∷ js) r =
    if str_eq j.sha sha
    then cancel_all now sha js r
    else cancel_all now sha js (cancel_job now j.id r).1

unfoldable pub cancel_superseded : Text → Text → Text → Text → Runner → Runner
unfolding cancel_all
cancel_superseded now repo ref sha r =
    if is_nil ref then r else cancel_all now sha (in_flight_jobs_for_ref repo ref r.tables.jobs) r

-- Why a job of a fork is only enqueued to report that it is skipped.
unfoldable pub skip_reason_of : Server → Event → Text
unfolding trim_space
skip_reason_of s ev =
    if not ev.is_fork
    then []
    else if s.settings.skip_fork_prs
    then skip_reason_fork_disabled
    else if not s.docker_available
    then skip_reason_fork_no_docker
    else if is_nil (trim_space s.settings.default_runtime)
    then skip_reason_fork_no_runtime
    else []

abbrev pub job_input : Server → App → RepoBinding → Text → Event → JobInput
job_input s app b delivery_id ev = record {
  binding_id = b.id;
  github_app_id = app.id;
  repo = ev.repo;
  sha = ev.sha;
  base_sha = ev.base_sha;
  ref = ev.branch;
  event = ev.name ++ (codes "." ++ ev.action);
  delivery_id = delivery_id;
  installation_id = ev.installation_id;
  check_suite_id = ev.check_suite_id;
  check_name = b.check_name;
  shareable_logs = b.shareable_logs;
  is_fork = ev.is_fork;
  pull_number = ev.pull_number;
  skip_reason = skip_reason_of s ev;
}

unfoldable pub stored : Text → Runner → StoreResult (Job × Tables) → Response × Runner
stored why r (failed e) = (server_error, r)
stored why r (done (j, tables)) = (queued_job j.id why, record r { tables = tables })

-- The end of the handler, behind the check of the commit's suite.
unfoldable pub enqueue : Text → Text → JobInput → Runner → Response × Runner
unfolding stored cancel_superseded
enqueue id now inp r =
    let r' = cancel_superseded now inp.repo inp.ref inp.sha r in
    stored inp.skip_reason r' (enqueue_job id now inp r'.tables)

-- One live run per commit.
unfoldable pub after_suite : Text → Text → Text → JobInput → Runner → Option Job → Response × Runner
unfolding enqueue
after_suite id now action inp r none = enqueue id now inp r
after_suite id now action inp r (some existing) =
    if str_eq action requested
    then (already_queued existing.id, r)
    else enqueue id now inp (cancel_job now existing.id r).1

unfoldable pub after_delivery :
    Text → Text → Text → JobInput → Runner → Option Job → Response × Runner
unfolding after_suite
after_delivery id now action inp r (some existing) = (already_queued existing.id, r)
after_delivery id now action inp r none =
    after_suite id now action inp r
      (in_flight_job_for_suite inp.github_app_id inp.repo inp.sha r.tables.jobs)

unfoldable pub admit : Text → Text → Text → JobInput → Runner → Response × Runner
unfolding after_delivery
admit id now action inp r =
    after_delivery id now action inp r (in_flight_job_for_delivery inp.delivery_id r.tables.jobs)

unfoldable pub allow :
    Text → Text → Server → App → Text → Event → Runner → Option RepoBinding → Response × Runner
unfolding admit
allow id now s app delivery_id ev r none = (no_binding, r)
allow id now s app delivery_id ev r (some b) =
    if not (branch_allowed b ev.branch)
    then (wrong_branch, r)
    else admit id now ev.action (job_input s app b delivery_id ev) r

unfoldable pub on_event :
    Text → Text → Server → App → Text → Runner → Parsed Event → Response × Runner
unfolding allow
on_event id now s app delivery_id r (malformed e) = (payload_rejected e, r)
on_event id now s app delivery_id r (ignored why) = (not_actionable why, r)
on_event id now s app delivery_id r (actionable ev) =
    if str_eq ev.name event_check_run && not (ev.check_run_app_id == app.app_id)
    then (other_app, r)
    else allow id now s app delivery_id ev r (enabled_binding app.id ev.repo s.bindings)

module _ (hmac_sha256 : Text → Text → Text) (decode_hex : Text → Option Text)
    (decode : Text → Option RawPayload) where
  unfoldable pub verified :
      Text
      → Text
      → Server
      → App
      → Request
      → Text
      → Runner
      → Option SignatureError
      → Response × Runner
  unfolding on_event
  verified id now s app q body r (some e) = (unauthorized, r)
  verified id now s app q body r none =
      if str_eq q.event_name (codes "ping")
      then (pong, r)
      else on_event id now s app q.delivery_id r (parse decode q.event_name body)

  unfoldable pub with_body :
      Text → Text → Server → App → Request → Runner → Text → Option Text → Response × Runner
  unfolding verified
  with_body id now s app q r secret none = (bad_body, r)
  with_body id now s app q r secret (some raw) =
      let body = take max_webhook_body raw in
      verified id now s app q body r
        (verify_signature hmac_sha256 decode_hex secret body q.signature)

  unfoldable pub with_secret :
      Text → Text → Server → App → Request → Runner → Option Text → Response × Runner
  unfolding with_body
  with_secret id now s app q r none = (misconfigured, r)
  with_secret id now s app q r (some secret) = with_body id now s app q r secret q.body

  unfoldable pub with_app : Text → Text → Server → Request → Runner → Option App → Response × Runner
  unfolding with_secret
  with_app id now s q r none = (unauthorized, r)
  with_app id now s q r (some app) = with_secret id now s app q r app.webhook_secret

  -- `handleWebhook`.
  unfoldable pub handle_webhook : Text → Text → Server → Request → Runner → Response × Runner
  unfolding with_app
  handle_webhook id now s q r = with_app id now s q r (s.app_by_slug q.slug)
