-- ===== src/Store/Jobs.antt =====
-- internal/store/jobs.go. The clock and the random ids are arguments: `now` is the text that
-- `formatTime(now())` gives, `id` what `NewJobID` draws.
pub mod Backlog
pub mod Retention
pub mod Recovery
pub mod Claim
pub mod Rows
use openpreflight.Prelude.{
  ℕ, zero, suc, ◌+◌, ◌-◌, ◌<◌, ◌≤◌, ◌≡◌, refl, Bool, true, false, not, ◌&&◌, ◌||◌, List, [], ◌∷◌,
  ◌++◌, map, Option, none, some, ℤ, pos, negsuc, pos_part, ltb, leb, ◌==◌, if◌then◌else◌, is_nil,
  filter, find?, count, any, take, drop, is_positive,
}
use openpreflight.Go.Strings.{Text, codes, str_eq}
use openpreflight.Store.Models.{
  Job, Status, queued, in_progress, status_text, valid_job_status, in_flight, is_queued,
  is_in_progress,
}

-- The table `deliveries`.
pub record Delivery : Type 0 where
  pub delivery_id : Text
  pub github_app_id : ℕ
  pub event : Text
  pub job_id : Text
  pub received_at : Text

pub record Tables : Type 0 where
  pub jobs : List Job
  pub deliveries : List Delivery

pub record JobInput : Type 0 where
  pub binding_id : ℕ
  pub github_app_id : ℕ
  pub repo : Text
  pub sha : Text
  pub base_sha : Text
  pub ref : Text
  pub event : Text
  pub delivery_id : Text
  pub installation_id : ℕ
  pub check_suite_id : ℕ
  pub check_name : Text
  pub shareable_logs : Bool
  pub is_fork : Bool
  pub pull_number : ℕ
  pub skip_reason : Text

-- The order of text columns in SQL.
unfoldable pub text_ltb : Text → Text → Bool
text_ltb s [] = false
text_ltb [] (d ∷ t) = true
text_ltb (c ∷ s) (d ∷ t) = ltb c d || c == d && text_ltb s t

abbrev pub has_id : Text → Job → Bool
has_id id j = str_eq j.id id

-- `SELECT … WHERE id = ?`.
unfoldable pub job : Text → List Job → Option Job
job id js = find? (has_id id) js

-- `UPDATE jobs SET … WHERE id = ?`.
unfoldable pub update_job : Text → (Job → Job) → List Job → List Job
update_job id f [] = []
update_job id f (j ∷ js) = (if has_id id j then f j else j) ∷ update_job id f js

abbrev pub new_job : Text → Text → JobInput → Job
new_job id now inp = record {
  id = id;
  binding_id = inp.binding_id;
  github_app_id = inp.github_app_id;
  repo = inp.repo;
  sha = inp.sha;
  base_sha = inp.base_sha;
  ref = inp.ref;
  event = inp.event;
  delivery_id = inp.delivery_id;
  installation_id = inp.installation_id;
  check_suite_id = inp.check_suite_id;
  check_run_id = 0;
  check_name = inp.check_name;
  status = queued;
  conclusion = [];
  steps_json = codes "[]";
  error_text = [];
  log_bytes = 0;
  shareable_logs = inp.shareable_logs;
  is_fork = inp.is_fork;
  pull_number = inp.pull_number;
  skip_reason = inp.skip_reason;
  runtime = [];
  plan_source = [];
  plan_origins = [];
  created_at = now;
  started_at = [];
  finished_at = [];
}

-- `INSERT INTO deliveries … ON CONFLICT … DO UPDATE SET job_id, received_at`.
unfoldable pub upsert_delivery : Delivery → List Delivery → List Delivery
upsert_delivery d [] = d ∷ []
upsert_delivery d (e ∷ es) =
    if str_eq e.delivery_id d.delivery_id
    then record e { job_id = d.job_id; received_at = d.received_at } ∷ es
    else e ∷ upsert_delivery d es

-- Why a statement of this file fails.
pub data StoreError : Type 0 where
  not_found needs_repo_and_sha duplicate_id invalid_status : StoreError

pub data StoreResult {ℓ} (A : Type ℓ) : Type ℓ where
  done : A → StoreResult A
  failed : StoreError → StoreResult A

record_delivery : Text → Text → JobInput → List Delivery → List Delivery
unfolding upsert_delivery
record_delivery id now inp ds =
    if is_nil inp.delivery_id
    then ds
    else upsert_delivery
        (record {
          delivery_id = inp.delivery_id;
          github_app_id = inp.github_app_id;
          event = inp.event;
          job_id = id;
          received_at = now;
        })
        ds

unfoldable pub enqueue_job : Text → Text → JobInput → Tables → StoreResult (Job × Tables)
unfolding record_delivery
enqueue_job id now inp t =
    if is_nil inp.repo || is_nil inp.sha
    then failed needs_repo_and_sha
    else if any (has_id id) t.jobs
    then failed duplicate_id
    else done (
      new_job id now inp,
      record {
        jobs = t.jobs ++ new_job id now inp ∷ [];
        deliveries = record_delivery id now inp t.deliveries;
      },
    )

-- `ORDER BY created_at LIMIT 1`: the first row with the least time.
unfoldable pub oldest : List Job → Option Job
oldest [] = none
oldest (j ∷ js) = elim (oldest js) [
  | none ↦ some j
  | some k ↦ if text_ltb k.created_at j.created_at then some k else some j
]

-- `ORDER BY created_at DESC LIMIT 1`.
unfoldable pub newest : List Job → Option Job
newest [] = none
newest (j ∷ js) = elim (newest js) [
  | none ↦ some j
  | some k ↦ if text_ltb j.created_at k.created_at then some k else some j
]

abbrev pub started : Text → Job → Job
started now j = record j { status = in_progress; started_at = now }

claim_of : Text → List Job → Option Job → Option (Job × List Job)
claim_of now js none = none
claim_of now js (some j) = some (started now j, update_job j.id (started now) js)

-- `none` is ErrNotFound.
unfoldable pub claim_next_job : Text → List Job → Option (Job × List Job)
unfolding claim_of
claim_next_job now js = claim_of now js (oldest (filter is_queued js))

abbrev for_delivery : Text → Job → Bool
for_delivery delivery_id j = str_eq j.delivery_id delivery_id && in_flight j

unfoldable pub in_flight_job_for_delivery : Text → List Job → Option Job
in_flight_job_for_delivery delivery_id js =
    if is_nil delivery_id then none else newest (filter (for_delivery delivery_id) js)

abbrev pub for_suite : ℕ → Text → Text → Job → Bool
for_suite app_id repo sha j =
    j.github_app_id == app_id && (str_eq j.repo repo && (str_eq j.sha sha && in_flight j))

unfoldable pub in_flight_job_for_suite : ℕ → Text → Text → List Job → Option Job
in_flight_job_for_suite app_id repo sha js =
    if is_nil repo || is_nil sha then none else newest (filter (for_suite app_id repo sha) js)

abbrev for_ref : Text → Text → Job → Bool
for_ref repo ref j = str_eq j.repo repo && (str_eq j.ref ref && in_flight j)

unfoldable pub in_flight_jobs_for_ref : Text → Text → List Job → List Job
in_flight_jobs_for_ref repo ref js = filter (for_ref repo ref) js

unfoldable pub count_in_flight : List Job → ℕ
count_in_flight js = count in_flight js

unfoldable pub set_job_check_run : Text → ℕ → List Job → List Job
unfolding update_job
set_job_check_run id check_run_id js =
    update_job id (λ j. record j { check_run_id = check_run_id }) js

unfoldable pub set_job_check_name : Text → Text → List Job → List Job
unfolding update_job
set_job_check_name id name js = update_job id (λ j. record j { check_name = name }) js

unfoldable pub set_job_plan : Text → Text → Text → Text → List Job → List Job
unfolding update_job
set_job_plan id runtime plan_source origins js =
    update_job id
      (λ j. record j { runtime = runtime; plan_source = plan_source; plan_origins = origins }) js

unfoldable pub set_job_log_bytes : Text → ℕ → List Job → List Job
unfolding update_job
set_job_log_bytes id n js = update_job id (λ j. record j { log_bytes = n }) js

-- The columns that a job's end writes.
pub record Outcome : Type 0 where
  pub status : Status
  pub conclusion : Text
  pub steps_json : Text
  pub error_text : Text
  pub skip_reason : Text

-- An empty reason leaves the column untouched.
abbrev pub finished : Text → Outcome → Job → Job
finished now o j = record j {
  status = o.status;
  conclusion = o.conclusion;
  steps_json = (if is_nil o.steps_json then codes "[]" else o.steps_json);
  error_text = o.error_text;
  skip_reason = (if is_nil o.skip_reason then j.skip_reason else o.skip_reason);
  finished_at = now;
}

unfoldable pub finish_job : Text → Text → Outcome → List Job → List Job
finish_job now id o js = update_job id (finished now o) js

abbrev pub requeued : Job → Job
requeued j = if is_in_progress j then record j { status = queued; started_at = [] } else j

-- The rows, and how many were affected.
unfoldable pub requeue_stale_jobs : List Job → List Job × ℕ
requeue_stale_jobs js = (map requeued js, count is_in_progress js)

abbrev pub is_stale : Text → Job → Bool
is_stale cutoff j = text_ltb j.created_at cutoff && not (in_flight j)

unfoldable pub delete_job : Text → List Job → List Job
delete_job id js = filter (λ j. not (str_eq j.id id)) js

unfoldable pub delete_jobs : List Text → List Job → List Job
unfolding delete_job
delete_jobs [] js = js
delete_jobs (id ∷ ids) js = delete_jobs ids (delete_job id js)

-- The ids that are removed, and the tables without them.
unfoldable pub prune_jobs : Text → Tables → List Text × Tables
unfolding delete_jobs
prune_jobs cutoff t =
    let ids = map (λ (j : Job). j.id) (filter (is_stale cutoff) t.jobs) in
    (
      ids,
      record {
        jobs = delete_jobs ids t.jobs;
        deliveries = filter (λ d. not (text_ltb d.received_at cutoff)) t.deliveries;
      },
    )

pub record JobList : Type 0 where
  pub repo : Text
  pub status : Text
  pub limit : ℤ
  pub offset : ℤ

-- `JobList.clamp`: the limit and the offset that are used.
unfoldable pub clamp : JobList → StoreResult (ℕ × ℕ)
clamp f =
    let limit =
      (if not (is_positive f.limit) || ltb 500 (pos_part f.limit) then 100 else pos_part f.limit) in
    if not (is_nil f.status) && not (valid_job_status f.status)
    then failed invalid_status
    else done (limit, pos_part f.offset)

abbrev listed : JobList → Job → Bool
listed f j =
    (is_nil f.repo || str_eq j.repo f.repo)
    && (is_nil f.status || str_eq (status_text j.status) f.status)

-- `ORDER BY created_at DESC, id`.
before : Job → Job → Bool
before j k =
    text_ltb k.created_at j.created_at
    || str_eq j.created_at k.created_at && not (text_ltb k.id j.id)

insert_job : Job → List Job → List Job
insert_job j [] = j ∷ []
insert_job j (k ∷ ks) = if before j k then j ∷ k ∷ ks else k ∷ insert_job j ks

sort_jobs : List Job → List Job
unfolding insert_job before
sort_jobs [] = []
sort_jobs (j ∷ js) = insert_job j (sort_jobs js)

unfoldable pub list_jobs : JobList → List Job → StoreResult (List Job)
unfolding sort_jobs
list_jobs f js = elim (clamp f) [
  | failed e ↦ failed e
  | done (limit, offset) ↦ done (take limit (drop offset (sort_jobs (filter (listed f) js))))
]

unfoldable pub list_in_flight : List Job → List Job
unfolding sort_jobs
list_in_flight js = sort_jobs (filter in_flight js)
