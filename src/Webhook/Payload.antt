-- ===== src/Webhook/Payload.antt =====
-- internal/webhook/payload.go. A payload is what the JSON decoder makes of the body; the fields that
-- nothing reads are left out.
pub mod Forks
use openpreflight.Prelude.{
  ℕ, ◌≡◌, refl, Bool, true, false, not, ◌&&◌, ◌||◌, List, [], ◌∷◌, ◌++◌, map, Option, none, some,
  ◌==◌, if◌then◌else◌, is_nil, any,
}
use openpreflight.Go.Strings.{Text, codes, str_eq, trim, trim_prefix, lower}

pub record RepoRef : Type 0 where
  pub id : ℕ
  pub full_name : Text

-- One end of a pull request.
pub record PullRequestEnd : Type 0 where
  pub ref : Text
  pub sha : Text
  pub repo : RepoRef

pub record PullRequestRef : Type 0 where
  pub number : ℕ
  pub head : PullRequestEnd
  pub base : PullRequestEnd

pub record CheckSuitePayload : Type 0 where
  pub id : ℕ
  pub head_sha : Text
  pub head_branch : Option Text
  pub before : Option Text
  pub pull_requests : List PullRequestRef

pub record CheckRunPayload : Type 0 where
  pub head_sha : Text
  pub check_suite : Option CheckSuitePayload
  pub app_id : ℕ
  pub pull_requests : List PullRequestRef

pub record RawPayload : Type 0 where
  pub action : Text
  pub check_suite : Option CheckSuitePayload
  pub check_run : Option CheckRunPayload
  pub repository : RepoRef
  pub installation_id : ℕ
  pub sender : Text

pub record Event : Type 0 where
  pub name : Text
  pub action : Text
  pub repo : Text
  pub sha : Text
  pub base_sha : Text
  pub branch : Text
  pub installation_id : ℕ
  pub check_run_app_id : ℕ
  pub check_suite_id : ℕ
  pub is_fork : Bool
  pub pull_number : ℕ
  pub sender : Text

abbrev pub event_check_suite : Text
event_check_suite = codes "check_suite"

abbrev pub event_check_run : Text
event_check_run = codes "check_run"

abbrev pub requested : Text
requested = codes "requested"

abbrev pub rerequested : Text
rerequested = codes "rerequested"

pub data PayloadError : Type 0 where
  bad_json no_repository no_check_suite no_check_run no_head_sha no_installation : PayloadError

-- What a delivery comes to: an event to act on, the reason why there is nothing to do, or an error.
pub data Parsed {ℓ} (A : Type ℓ) : Type ℓ where
  actionable : A → Parsed A
  ignored : Text → Parsed A
  malformed : PayloadError → Parsed A

abbrev pub equal_fold : Text → Text → Bool
equal_fold s t = str_eq (map lower s) (map lower t)

-- A pull request whose head is not the repository of the delivery, by id or by name.
abbrev pub is_foreign : RepoRef → PullRequestRef → Bool
is_foreign base pr =
    let head = pr.head.repo in
    not (head.id == 0) && (not (base.id == 0) && not (head.id == base.id))
    || not (is_nil head.full_name)
      && (not (is_nil base.full_name) && not (equal_fold head.full_name base.full_name))

abbrev pub lacks_branch : Option CheckSuitePayload → Bool
lacks_branch none = false
lacks_branch (some suite) = elim (suite.head_branch) [ none ↦ true | some b ↦ false ]

unfoldable pub is_fork : RepoRef → Option CheckSuitePayload → List PullRequestRef → Bool
is_fork base suite prs = any (is_foreign base) prs || lacks_branch suite

-- What the `switch` on the event's name selects: the head commit, the App of the check run, the
-- suite and the pull requests.
pub record Subject : Type 0 where
  pub sha : Text
  pub check_run_app_id : ℕ
  pub suite : Option CheckSuitePayload
  pub prs : List PullRequestRef

unfoldable pub suite_subject : Option CheckSuitePayload → Parsed Subject
suite_subject none = malformed no_check_suite
suite_subject (some suite) = actionable (record {
  sha = suite.head_sha;
  check_run_app_id = 0;
  suite = some suite;
  prs = suite.pull_requests;
})

abbrev suite_prs : List PullRequestRef → Option CheckSuitePayload → List PullRequestRef
suite_prs [] (some suite) = suite.pull_requests
suite_prs [] none = []
suite_prs (pr ∷ prs) suite = pr ∷ prs

unfoldable pub run_subject : Option CheckRunPayload → Parsed Subject
run_subject none = malformed no_check_run
run_subject (some run) = actionable (record {
  sha = run.head_sha;
  check_run_app_id = run.app_id;
  suite = run.check_suite;
  prs = suite_prs run.pull_requests run.check_suite;
})

unfoldable pub subject : Text → RawPayload → Parsed Subject
unfolding suite_subject run_subject
subject event_name raw =
    if str_eq event_name event_check_suite
    then if not (str_eq raw.action requested) && not (str_eq raw.action rerequested)
      then ignored (codes "check_suite action " ++ (raw.action ++ codes " is not actionable"))
      else suite_subject raw.check_suite
    else if str_eq event_name event_check_run
    then if not (str_eq raw.action rerequested)
      then ignored (codes "check_run action " ++ (raw.action ++ codes " is not actionable"))
      else run_subject raw.check_run
    else ignored (codes "event " ++ (event_name ++ codes " is not handled"))

abbrev pub suite_id : Option CheckSuitePayload → ℕ
suite_id none = 0
suite_id (some suite) = suite.id

abbrev pub suite_sha : Option CheckSuitePayload → Text
suite_sha none = []
suite_sha (some suite) = suite.head_sha

abbrev pub branch_name : Text → Text
branch_name ref = trim_prefix ref (codes "refs/heads/")

abbrev pub suite_branch : Option CheckSuitePayload → Text
suite_branch none = []
suite_branch (some suite) = elim (suite.head_branch) [ none ↦ [] | some b ↦ branch_name b ]

-- The branch tip before the push, unless it is missing or all zeros.
abbrev pub suite_before : Option CheckSuitePayload → Text
suite_before none = []
suite_before (some suite) = elim (suite.before) [
  | none ↦ []
  | some sha ↦ if is_nil (trim (λ c. c == b'0') sha) then [] else sha
]

abbrev pub pull_number_of : List PullRequestRef → ℕ
pull_number_of [] = 0
pull_number_of (pr ∷ prs) = pr.number

abbrev pub base_of : Text → List PullRequestRef → Text
base_of before [] = before
base_of before (pr ∷ prs) = if is_nil pr.base.sha then before else pr.base.sha

abbrev pub branch_of : Text → List PullRequestRef → Text
branch_of branch [] = branch
branch_of branch (pr ∷ prs) =
    if is_nil branch && not (is_nil pr.head.ref) then branch_name pr.head.ref else branch

-- The end of `Parse`, behind the `switch`.
abbrev pub event_of : Text → RawPayload → Subject → Event
event_of event_name raw s = record {
  name = event_name;
  action = raw.action;
  repo = raw.repository.full_name;
  sha = (if is_nil s.sha then suite_sha s.suite else s.sha);
  base_sha = base_of (suite_before s.suite) s.prs;
  branch = branch_of (suite_branch s.suite) s.prs;
  installation_id = raw.installation_id;
  check_run_app_id = s.check_run_app_id;
  check_suite_id = suite_id s.suite;
  is_fork = is_fork raw.repository s.suite s.prs;
  pull_number = pull_number_of s.prs;
  sender = raw.sender;
}

unfoldable pub complete_event : Event → Parsed Event
complete_event ev =
    if is_nil ev.sha
    then malformed no_head_sha
    else if ev.installation_id == 0
    then malformed no_installation
    else actionable ev

unfoldable pub event_from : Text → RawPayload → Parsed Subject → Parsed Event
unfolding complete_event
event_from event_name raw (ignored why) = ignored why
event_from event_name raw (malformed e) = malformed e
event_from event_name raw (actionable s) = complete_event (event_of event_name raw s)

unfoldable pub parse_payload : Text → Option RawPayload → Parsed Event
unfolding event_from subject
parse_payload event_name none = malformed bad_json
parse_payload event_name (some raw) =
    if is_nil raw.repository.full_name
    then malformed no_repository
    else event_from event_name raw (subject event_name raw)

-- `Parse`, with the JSON decoder.
module _ (decode : Text → Option RawPayload) where
  unfoldable pub parse : Text → Text → Parsed Event
  unfolding parse_payload
  parse event_name body = parse_payload event_name (decode body)
